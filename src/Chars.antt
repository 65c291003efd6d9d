-- ===== src/Chars.antt =====
-- Character classes and string helpers of include/crab/http/types.hxx, hexadecimal digits of
-- include/crab/util.hxx, and the C library's `isdigit`, `isspace` and `tolower` in the C locale.
-- A `char` is the value of its byte; where `char` is signed the bytes from 128 on are negative,
-- and each test below answers for them as it does for the negative number.
pub mod Hex
use crablib.Base.{
  ℕ, zero, suc, ◌+◌, ◌-◌, Bool, true, false, not, ◌&&◌, ◌||◌, Option, none, some, List, [], ◌∷◌,
  ◌++◌, Bytes, codes, ltb, leb, ◌==◌, if◌then◌else◌, equal, length, get_or, drop, map, reverse,
}

unfoldable pub is_sp : ℕ → Bool
is_sp c = c == b' ' || c == b'\t'

unfoldable pub is_char : ℕ → Bool
is_char c = leb c 127

unfoldable pub is_ctl : ℕ → Bool
is_ctl c = leb c 31 || c == 127

-- Whether the byte is one of the bytes of a text: a `switch` with one answer for all its cases.
abbrev pub is_one_of : Bytes → ℕ → Bool
is_one_of [] c = false
is_one_of (x ∷ xs) c = c == x || is_one_of xs c

unfoldable pub is_tspecial : ℕ → Bool
is_tspecial c = is_one_of (codes "()<>@,;:\\\"/[]?={} \t") c

unfoldable pub is_uri_reserved : ℕ → Bool
unfolding is_char is_ctl is_sp
is_uri_reserved c =
    not (is_char c) || is_ctl c || is_sp c || is_one_of (codes "!#$%&'()*+,/:;=?@[]") c

abbrev pub is_digit : ℕ → Bool
is_digit c = leb b'0' c && leb c b'9'

unfoldable pub is_space : ℕ → Bool
is_space c = c == b' ' || (leb 9 c && leb c 13)

unfoldable pub to_lower : ℕ → ℕ
to_lower c = if leb b'A' c && leb c b'Z' then c + 32 else c

-- `tolower(std::string &)`
unfoldable pub lower : Bytes → Bytes
unfolding to_lower
lower [] = []
lower (c ∷ cs) = to_lower c ∷ lower cs

-- `trim_right`, from the front: the blanks at the end are those with nothing but blanks behind.
unfoldable pub trim_right : Bytes → Bytes
unfolding is_sp
trim_right [] = []
trim_right (c ∷ cs) = if_blank (trim_right cs)
  where
    if_blank : Bytes → Bytes
    if_blank [] = if is_sp c then [] else c ∷ []
    if_blank (x ∷ xs) = c ∷ x ∷ xs

unfoldable pub skip_sp : Bytes → Bytes
unfolding is_sp
skip_sp [] = []
skip_sp (c ∷ cs) = if is_sp c then skip_sp cs else c ∷ cs

-- The bytes before the first of "; \t" and those from it on: `find_first_of`.
abbrev is_break : ℕ → Bool
is_break c = c == b';' || c == b' ' || c == b'\t'

before_break : Bytes → Bytes
before_break [] = []
before_break (c ∷ cs) = if is_break c then [] else c ∷ before_break cs

from_break : Bytes → Bytes
from_break [] = []
from_break (c ∷ cs) = if is_break c then c ∷ cs else from_break cs

skip_semicolon : Bytes → Bytes
skip_semicolon [] = []
skip_semicolon (c ∷ cs) = if c == b';' then cs else c ∷ cs

-- `parse_content_type_value`: the media type in lower case, and the suffix.
unfoldable pub parse_content_type_value : Bytes → Bytes × Bytes
unfolding before_break from_break skip_semicolon skip_sp lower
parse_content_type_value value =
    (lower (before_break value), skip_sp (skip_semicolon (skip_sp (from_break value))))

-- `parse_authorization_basic`: `none` stands for `false`.
unfoldable pub parse_authorization_basic : Bytes → Option Bytes
unfolding lower skip_sp is_sp
parse_authorization_basic (b ∷ a ∷ s ∷ i ∷ c ∷ sp ∷ rest) =
    if equal (lower (b ∷ a ∷ s ∷ i ∷ c ∷ [])) (codes "basic") && is_sp sp
    then some (skip_sp rest)
    else none
parse_authorization_basic value = none
