-- ===== src/Http/Url/RoundTrip.antt =====
-- What `url_encode` writes, `url_decode` reads back.
use crablib.Base.{
  ℕ, ◌/◌, ◌%◌, ◌<◌, Bool, true, false, not, ◌&&◌, ◌||◌, ◌==◌, [], ◌∷◌, Bytes, IsBytes, ◌≡◌, refl,
  ap, inl, inr, arith, Bool-cases,
}
use crablib.Chars.{is_uri_reserved}
use crablib.Chars.Hex.{hex_digit, from_hex_digit-hex_digit}
use crablib.Http.Url.{url_encode, url_decode}

-- A byte that is not a percent sign is kept.
url_decode-plain :
    (c : ℕ) (cs : Bytes) → (c == b'%') ≡ false → url_decode (c ∷ cs) ≡ c ∷ url_decode cs
unfolding url_decode
url_decode-plain c [] h = refl
url_decode-plain c (c1 ∷ []) h = refl
url_decode-plain c (c1 ∷ c2 ∷ cs) h = rw h

url_decode-percent :
    (c : ℕ) (cs : Bytes)
    → c < 256
    → url_decode (b'%' ∷ hex_digit (c / 16 % 16) ∷ hex_digit (c % 16) ∷ cs) ≡ c ∷ url_decode cs
unfolding url_decode
url_decode-percent c cs h =
    rw
      (
        from_hex_digit-hex_digit (c / 16 % 16) (omega arith),
        from_hex_digit-hex_digit (c % 16) (omega arith),
      )
      (ap (λ (t : ℕ). t ∷ url_decode cs) (omega arith))

-- A percent sign is always encoded.
percent_reserved : (path : Bool) → (not (is_uri_reserved b'%') || (path && b'%' == b'/')) ≡ false
unfolding is_uri_reserved
percent_reserved true = refl
percent_reserved false = refl

plain_not_percent :
    (path : Bool) (c : ℕ)
    → (not (is_uri_reserved c) || (path && c == b'/')) ≡ true
    → (c == b'%') ≡ false
plain_not_percent path c h = elim (Bool-cases (c == b'%')) [
  | inl e ↦ let percent : c ≡ b'%' = ground arith in cc (percent_reserved path, rw percent at h)
  | inr e ↦ e
]

-- Decoding gives back every string of bytes that was encoded, as a path or not.
pub url_decode-url_encode :
    (cs : Bytes) (path : Bool) → IsBytes cs → url_decode (url_encode cs path) ≡ cs
unfolding url_encode
url_decode-url_encode [] path h = unfold url_decode in refl
url_decode-url_encode (c ∷ cs) path (b, h) =
    elim (Bool-cases (not (is_uri_reserved c) || (path && c == b'/'))) [
      | inl plain ↦
          rw (plain, url_decode-plain c (url_encode cs path) (plain_not_percent path c plain))
            (ap (◌∷◌ c) (url_decode-url_encode cs path h))
      | inr reserved ↦
          rw (reserved, url_decode-percent c (url_encode cs path) b)
            (ap (◌∷◌ c) (url_decode-url_encode cs path h))
    ]
