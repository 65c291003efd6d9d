-- ===== src/Http/Url.antt =====
-- `url_decode` and `url_encode` of include/crab/http/query_parser.hxx.
pub mod RoundTrip
use crablib.Base.{
  ℕ, ◌+◌, ◌*◌, ◌/◌, ◌%◌, Bool, true, false, not, ◌&&◌, ◌||◌, ◌==◌, if◌then◌else◌, Option, none,
  some, [], ◌∷◌, Bytes,
}
use crablib.Chars.{is_uri_reserved}
use crablib.Chars.Hex.{from_hex_digit, hex_digit}

-- The bytes that stand for one byte of the text.
unfoldable pub encode_byte : Bool → ℕ → Bytes → Bytes
encode_byte path c rest =
    if not (is_uri_reserved c) || (path && c == b'/')
    then c ∷ rest
    else b'%' ∷ hex_digit (c / 16 % 16) ∷ hex_digit (c % 16) ∷ rest

unfoldable pub url_encode : Bytes → Bool → Bytes
unfolding encode_byte
url_encode [] path = []
url_encode (c ∷ cs) path = encode_byte path c (url_encode cs path)

-- What a percent sign and the two bytes behind it give, where `rest` is decoded.
decode_triple : ℕ → Option ℕ → Option ℕ → Bytes → Bytes → Bytes
decode_triple c (some digit1) (some digit2) rest plain = ((digit1 * 16 + digit2) % 256) ∷ rest
decode_triple c _ _ rest plain = c ∷ plain

-- A percent sign that two digits do not follow stands for itself.
unfoldable pub url_decode : Bytes → Bytes
unfolding decode_triple
url_decode [] = []
url_decode (c ∷ []) = c ∷ []
url_decode (c ∷ c1 ∷ []) = c ∷ url_decode (c1 ∷ [])
url_decode (c ∷ c1 ∷ c2 ∷ cs) =
    let plain = url_decode (c1 ∷ c2 ∷ cs) in
    let rest = url_decode cs in
    if not (c == b'%')
    then c ∷ plain
    else decode_triple c (from_hex_digit c1) (from_hex_digit c2) rest plain
