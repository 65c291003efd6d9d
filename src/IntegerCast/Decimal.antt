-- ===== src/IntegerCast/Decimal.antt =====
-- `integer_parse` against the decimal value of a string of digits.
use native.Mathlib.Nat.{pow-suc, one-le-pow, mod-eq_of_lt, zero-add}
use native.Mathlib.Decide.{dec_le}
use crablib.Base.{
  ℕ, zero, suc, ◌+◌, ◌-◌, ◌*◌, ◌/◌, ◌%◌, ◌^◌, ◌≤◌, ◌<◌, true, false, [], ◌∷◌, Bytes, leb, ◌==◌,
  if◌then◌else◌, ok, err, out_of_range, ◌>>=◌, ◌≡◌, ◌≢◌, ◌⊎◌, inl, inr, refl, ap, ◌∙◌, arith,
  le→leb, Bool-cases,
}
use crablib.Chars.{is_digit}
use crablib.IntegerCast.{
  max_value, skip_space, safe_digits, strict_digits, digits_from, end_of_number, signed_from,
  integer_parse, save_loop, max_to_string_length_impl, integer_saver,
}

-- The number that the digits stand for, with `acc` in front.
abbrev pub decimal : ℕ → Bytes → ℕ
decimal acc [] = acc
decimal acc (c ∷ cs) = decimal (acc * 10 + (c - b'0')) cs

abbrev pub AllDigits : Bytes → Type 0
AllDigits [] = Unit
AllDigits (c ∷ cs) = (is_digit c ≡ true) × AllDigits cs

-- The sizes of the unsigned types.
abbrev pub IsWidth : ℕ → Type 0
IsWidth b = (b ≡ 1) ⊎ (b ≡ 2) ⊎ (b ≡ 4) ⊎ (b ≡ 8)

decimal-ge : (acc : ℕ) (cs : Bytes) → acc ≤ decimal acc cs
decimal-ge acc [] = omega arith
decimal-ge acc (c ∷ cs) = omega (arith, decimal-ge (acc * 10 + (c - b'0')) cs)

-- One more digit uses up one place.
place_bound :
    (value d p q m : ℕ) → d ≤ 9 → q ≡ p * 10 → (value + 1) * q ≤ m → (value * 10 + d + 1) * p ≤ m
place_bound value d p q m h e k =
    let grows : (value * 10 + d + 1) * p ≤ (value * 10 + 10) * p = grind arith in
    omega (arith, grows, ap (λ (t : ℕ). (value + 1) * t) e)

at_least_once : (x p m : ℕ) → 1 ≤ p → x * p ≤ m → x ≤ m
at_least_once x p m h k = let grows : x * 1 ≤ x * p = grind arith in omega (arith, grows)

-- Within its places the loop without checks does not wrap, and the digits that it leaves go on
-- where it stopped.
module _ (b : ℕ) where
  safe_lem :
      (left value : ℕ) (cs : Bytes)
      → (value + 1) * 10 ^ left ≤ 2 ^ (8 * b)
      → AllDigits cs
      → let (v, rest) = safe_digits b left value cs in
        (decimal v rest ≡ decimal value cs) × AllDigits rest × (v < 2 ^ (8 * b))
  unfolding safe_digits
  safe_lem zero value cs h d = (refl, d, omega arith)
  safe_lem (suc left) value [] h d = (
    refl,
    tt,
    omega (
      arith,
      at_least_once (value + 1) (10 ^ suc left) (2 ^ (8 * b))
          (one-le-pow (suc left) 10 (omega arith)) h,
    ),
  )
  safe_lem (suc left) value (c ∷ cs) h (dc, d) =
      let next : (value * 10 + (c - b'0') + 1) * 10 ^ left ≤ 2 ^ (8 * b) =
        place_bound value (c - b'0') (10 ^ left) (10 ^ suc left) (2 ^ (8 * b)) (ground arith)
          (omega (arith, pow-suc 10 left)) h in
      let fits : value * 10 + (c - b'0') + 1 ≤ 2 ^ (8 * b) =
        at_least_once _ (10 ^ left) (2 ^ (8 * b)) (one-le-pow left 10 (omega arith)) next in
      let kept : (value * 10 + (c - b'0')) % 2 ^ (8 * b) ≡ value * 10 + (c - b'0') =
        mod-eq_of_lt (omega arith) in
      rw (dc, kept) (safe_lem left (value * 10 + (c - b'0')) cs next d)

  strict_lem :
      (value : ℕ) (cs : Bytes)
      → value ≤ max_value b
      → AllDigits cs
      → strict_digits b value cs ≡ (
          if leb (decimal value cs) (max_value b)
          then ok (decimal value cs, [])
          else err (out_of_range "Number overflow "))
  unfolding strict_digits
  strict_lem value [] h d = ground arith
  strict_lem value (c ∷ cs) h (dc, d) = elim (dec_le (value * 10 + (c - b'0')) (max_value b)) [
    | yes fits ↦
        let kept : (value * 10 + (c - b'0')) % 2 ^ (8 * b) ≡ value * 10 + (c - b'0') =
          mod-eq_of_lt (omega (arith, one-le-pow (8 * b) 2 (omega arith))) in
        ground (arith, kept, strict_lem (value * 10 + (c - b'0')) cs fits d)
    | no over ↦ ground (arith, decimal-ge (value * 10 + (c - b'0')) cs)
  ]

skip_space-digit : (c : ℕ) (cs : Bytes) → is_digit c ≡ true → skip_space (c ∷ cs) ≡ c ∷ cs
unfolding skip_space
skip_space-digit c cs h = ground arith

-- There is room for all the digits that the loop without checks takes, for each type.
width_room : (b d : ℕ) → IsWidth b → d ≤ 9 → (d + 1) * 10 ^ (b * 2 - 1) ≤ 2 ^ (8 * b)
width_room b d (inl e) h = rw e (omega arith)
width_room b d (inr (inl e)) h = rw e (omega arith)
width_room b d (inr (inr (inl e))) h = rw e (omega arith)
width_room b d (inr (inr (inr e))) h = rw e (omega arith)

digits_from-decimal :
    (b c : ℕ) (cs : Bytes)
    → IsWidth b
    → is_digit c ≡ true
    → AllDigits cs
    → c ≢ b'0'
    → digits_from b (c ∷ cs) ≡ (
        if leb (decimal (c - b'0') cs) (max_value b)
        then ok (decimal (c - b'0') cs, [])
        else err (out_of_range "Number overflow "))
unfolding digits_from
digits_from-decimal b c cs w dc d nz =
    let d9 : c - b'0' ≤ 9 = ground arith in
    let (same, rest_digits, fits) =
      safe_lem b (b * 2 - 1) (c - b'0') cs (width_room b (c - b'0') w d9) d in
    let nonzero : (c - b'0' == 0) ≡ false = ground arith in
    let (v, rest) = safe_digits b (b * 2 - 1) (c - b'0') cs in
    let small : v ≤ max_value b = omega arith in
    rw (dc, nonzero, strict_lem b v rest small rest_digits, same)

-- A digit is no sign.
unsigned :
    (b c : ℕ) (cs : Bytes)
    → is_digit c ≡ true
    → c ≢ b'0'
    → signed_from b (c ∷ cs) ≡ (digits_from b (c ∷ cs) >>= end_of_number)
unfolding signed_from
unsigned b c cs dc nz =
    let no_minus : (c == b'-') ≡ false = ground arith in
    let no_plus : (c == b'+') ≡ false = ground arith in rw (no_minus, no_plus)

-- A string of digits with no leading 0 is read as its decimal value if the type can hold that
-- value, and is refused as an overflow if not, for the unsigned types of 1, 2, 4 and 8 bytes.
pub integer_parse-decimal :
    (b c : ℕ) (cs : Bytes)
    → IsWidth b
    → AllDigits (c ∷ cs)
    → c ≢ b'0'
    → integer_parse b (c ∷ cs) ≡ (
        if leb (decimal 0 (c ∷ cs)) (max_value b)
        then ok (decimal 0 (c ∷ cs))
        else err (out_of_range "Number overflow "))
unfolding integer_parse
integer_parse-decimal b c cs w (dc, d) nz =
    rw (skip_space-digit c cs dc, unsigned b c cs dc nz, zero-add)
      (rw (digits_from-decimal b c cs w dc d nz)
        (elim (Bool-cases (leb (decimal (c - b'0') cs) (max_value b))) [
          | inl small ↦ rw small (unfold end_of_number skip_space in refl)
          | inr large ↦ rw large
        ]))

abbrev digit_of : ℕ → ℕ
digit_of value = b'0' + value % 10

-- The loop of `IntegerSaver` writes the digits of a number that fits its buffer.
save_loop-decimal :
    (left value : ℕ) (out : Bytes)
    → value < 10 ^ left
    → value ≢ 0
    → AllDigits out
    → (c : ℕ) × (cs : Bytes) × (save_loop left value out ≡ c ∷ cs)
      × AllDigits (c ∷ cs)
      × (c ≢ b'0')
      × (decimal 0 (c ∷ cs) ≡ decimal value out)
unfolding save_loop
save_loop-decimal zero value out h nz d = absurd (omega arith)
save_loop-decimal (suc left) value out h nz d = elim (Bool-cases (value / 10 == 0)) [
  | inl last ↦ (
    digit_of value,
    out,
    rw last,
    (ground arith, d),
    ground arith,
    ap (λ (t : ℕ). decimal t out) (ground arith),
  )
  | inr more ↦
      let (c, cs, e, ds, n, v) =
        save_loop-decimal left (value / 10) (digit_of value ∷ out) (omega (arith, pow-suc 10 left))
          (ground arith) (ground arith, d) in
      (c, cs, rw more e, ds, n, v ∙ ap (λ (t : ℕ). decimal t out) (omega arith))
]

width_places :
    (b : ℕ) → IsWidth b → max_value b < 10 ^ max_to_string_length_impl (8 * b) (max_value b)
unfolding max_to_string_length_impl
width_places b (inl e) = rw e (omega arith)
width_places b (inr (inl e)) = rw e (omega arith)
width_places b (inr (inr (inl e))) = rw e (omega arith)
width_places b (inr (inr (inr e))) = rw e (omega arith)

zero_saved : (b : ℕ) → IsWidth b → integer_parse b (integer_saver b 0) ≡ ok 0
unfolding integer_parse integer_saver
zero_saved b (inl e) = rw e
zero_saved b (inr (inl e)) = rw e
zero_saved b (inr (inr (inl e))) = rw e
zero_saved b (inr (inr (inr e))) = rw e

-- Every value of an unsigned type of 1, 2, 4 or 8 bytes that `IntegerSaver` writes is read back by
-- `integer_parse`.
pub integer_parse-integer_saver :
    (b n : ℕ) → IsWidth b → n ≤ max_value b → integer_parse b (integer_saver b n) ≡ ok n
integer_parse-integer_saver b zero w h = zero_saved b w
integer_parse-integer_saver b (suc n) w h =
    let places = max_to_string_length_impl (8 * b) (max_value b) in
    let (c, cs, e, digits, nz, v) =
      save_loop-decimal places (suc n) [] (omega (arith, width_places b w)) (omega arith) tt in
    let fits = le→leb (suc n) (max_value b) h in
    unfold integer_saver in rw (e, integer_parse-decimal b c cs w digits nz, v, fits)
