-- ===== src/IntegerCast.antt =====
-- include/crab/integer_cast.hpp, for an unsigned target type of `bytes` bytes.
pub mod Decimal
use crablib.Base.{
  ℕ, zero, suc, ◌+◌, ◌-◌, ◌*◌, ◌/◌, ◌%◌, ◌^◌, Bool, true, false, not, ◌&&◌, ◌||◌, [], ◌∷◌, ◌++◌,
  Bytes, ltb, ◌==◌, if◌then◌else◌, Result, ok, err, out_of_range, ◌>>=◌,
}
use crablib.Chars.{is_digit, is_space}

-- `std::numeric_limits<T>::max()`
abbrev pub max_value : ℕ → ℕ
max_value bytes = 2 ^ (8 * bytes) - 1

unfoldable pub skip_space : Bytes → Bytes
unfolding is_space
skip_space [] = []
skip_space (c ∷ cs) = if is_space c then skip_space cs else c ∷ cs

-- The loop with no overflow checks, over at most `left` bytes: the value, and the bytes behind.
unfoldable pub safe_digits : ℕ → ℕ → ℕ → Bytes → ℕ × Bytes
safe_digits bytes zero value cs = (value, cs)
safe_digits bytes (suc left) value [] = (value, [])
safe_digits bytes (suc left) value (c ∷ cs) =
    let more = safe_digits bytes left ((value * 10 + (c - b'0')) % 2 ^ (8 * bytes)) cs in
    if not (is_digit c) then (value, c ∷ cs) else more

-- The loop with strict overflow checks.
unfoldable pub strict_digits : ℕ → ℕ → Bytes → Result (ℕ × Bytes)
strict_digits bytes value [] = ok (value, [])
strict_digits bytes value (c ∷ cs) =
    let digit = c - b'0' in
    let last_value = max_value bytes / 10 in
    let last_digit = max_value bytes % 10 in
    let more = strict_digits bytes ((value * 10 + digit) % 2 ^ (8 * bytes)) cs in
    if not (is_digit c)
    then ok (value, c ∷ cs)
    else if ltb last_value value || (value == last_value && ltb last_digit digit)
    then err (out_of_range "Number overflow ")
    else more

-- The first digit, then the others unless it is 0: no digit may follow a leading 0.
unfoldable pub digits_from : ℕ → Bytes → Result (ℕ × Bytes)
unfolding safe_digits strict_digits
digits_from bytes [] = err (out_of_range "Number must start from sign or digit ")
digits_from bytes (c ∷ cs) =
    let (value, rest) = safe_digits bytes (bytes * 2 - 1) (c - b'0') cs in
    if not (is_digit c)
    then err (out_of_range "Number must start from sign or digit ")
    else if c - b'0' == 0
    then ok (0, cs)
    else strict_digits bytes value rest

-- Blanks may stand behind the digits, and nothing else.
unfoldable pub end_of_number : ℕ × Bytes → Result ℕ
unfolding skip_space
end_of_number (value, rest) = elim (skip_space rest) [
  | [] ↦ ok value
  | _ ∷ _ ↦ err (
      out_of_range
        "Number must contain only whitespaces after digits, and must not have excess leading zeroes ")
]

unfoldable pub signed_from : ℕ → Bytes → Result ℕ
unfolding digits_from end_of_number
signed_from bytes [] = err (out_of_range "Number must start from sign or digit ")
signed_from bytes (c ∷ cs) =
    if c == b'-'
    then err (out_of_range "Unsigned Number cannot be negative ")
    else (digits_from bytes (if c == b'+' then cs else c ∷ cs) >>= end_of_number)

-- `integer_parse_impl<T>` with the exception that `integer_parse<T>` throws for it. The text of the
-- exception goes on with the input and the range, which are left out.
unfoldable pub integer_parse : ℕ → Bytes → Result ℕ
unfolding signed_from skip_space
integer_parse bytes cs = signed_from bytes (skip_space cs)

-- `IntegerSaver<T>`: the loop `buffer[--p] = '0' + (value % 10); value /= 10;`, with `left` places
-- of the buffer still free. It stops at 0 or where the buffer is full.
unfoldable pub save_loop : ℕ → ℕ → Bytes → Bytes
save_loop zero value out = out
save_loop (suc left) value out =
    let out1 = (b'0' + value % 10) ∷ out in
    let more = save_loop left (value / 10) out1 in if value / 10 == 0 then out1 else more

-- `max_to_string_length_impl`, on fuel for the digits.
unfoldable pub max_to_string_length_impl : ℕ → ℕ → ℕ
max_to_string_length_impl zero value = 1
max_to_string_length_impl (suc fuel) value =
    let more = max_to_string_length_impl fuel (value / 10) in if ltb value 10 then 1 else 1 + more

unfoldable pub integer_saver : ℕ → ℕ → Bytes
unfolding save_loop max_to_string_length_impl
integer_saver bytes value =
    save_loop (max_to_string_length_impl (8 * bytes) (max_value bytes)) value []
