-- ===== src/Chars/Hex.antt =====
-- `from_hex_digit`, `to_hex` and `from_hex` of include/crab/util.hxx.
use crablib.Base.{
  ℕ, ◌+◌, ◌-◌, ◌*◌, ◌/◌, ◌%◌, ◌<◌, Bool, true, false, ◌&&◌, Option, none, some, [], ◌∷◌, Bytes,
  IsBytes, codes, leb, ◌==◌, if◌then◌else◌, get_or, ◌≡◌, refl, arith, holds_below, below_sound, ap,
}

-- `none` stands for -1.
unfoldable pub from_hex_digit : ℕ → Option ℕ
from_hex_digit sym =
    if leb b'0' sym && leb sym b'9'
    then some (sym - b'0')
    else if leb b'a' sym && leb sym b'f'
    then some (sym - b'a' + 10)
    else if leb b'A' sym && leb sym b'F'
    then some (sym - b'A' + 10)
    else none

-- `hexdigits[n]`
unfoldable pub hex_digit : ℕ → ℕ
hex_digit n = get_or (codes "0123456789abcdef") n 0

unfoldable pub to_hex : Bytes → Bytes
to_hex [] = []
to_hex (ch ∷ rest) = hex_digit (ch / 16 % 16) ∷ hex_digit (ch % 16) ∷ to_hex rest

from_digits : Option ℕ → Option ℕ → Option Bytes → Option Bytes
from_digits (some d0) (some d1) (some more) = some ((d0 * 16 + d1) % 256 ∷ more)
from_digits _ _ _ = none

-- `none` stands for `false`: an odd length, or a byte that is no digit.
unfoldable pub from_hex : Bytes → Option Bytes
unfolding from_digits
from_hex [] = some []
from_hex (c ∷ []) = none
from_hex (c0 ∷ c1 ∷ rest) = from_digits (from_hex_digit c0) (from_hex_digit c1) (from_hex rest)

abbrev is_read : Option ℕ → ℕ → Bool
is_read none n = false
is_read (some d) n = d == n

is_read-eq : (o : Option ℕ) (n : ℕ) → is_read o n ≡ true → o ≡ some n
is_read-eq none n h = cc
is_read-eq (some d) n h = ground arith

hex_digit_table : ℕ → Bool
unfolding from_hex_digit hex_digit
hex_digit_table n = is_read (from_hex_digit (hex_digit n)) n

hex_digit_all : holds_below 16 hex_digit_table ≡ true
unfolding holds_below hex_digit_table
hex_digit_all = refl

-- A digit that is written is read back.
pub from_hex_digit-hex_digit : (n : ℕ) → n < 16 → from_hex_digit (hex_digit n) ≡ some n
unfolding hex_digit_table
from_hex_digit-hex_digit n h = is_read-eq _ n (below_sound 16 hex_digit_table n hex_digit_all h)

pub from_hex_digit-lt : (c : ℕ) {d : ℕ} → from_hex_digit c ≡ some d → d < 16
unfolding from_hex_digit
from_hex_digit-lt c h = ground arith

-- Bytes that are written in hexadecimal are read back.
pub from_hex-to_hex : (bytes : Bytes) → IsBytes bytes → from_hex (to_hex bytes) ≡ some bytes
unfolding from_hex to_hex
from_hex-to_hex [] h = refl
from_hex-to_hex (ch ∷ rest) (b, h) =
    rw
      (
        from_hex_digit-hex_digit (ch / 16 % 16) (omega arith),
        from_hex_digit-hex_digit (ch % 16) (omega arith),
        from_hex-to_hex rest h,
      )
      (ap (λ (t : ℕ). some (t ∷ rest)) (omega arith))
