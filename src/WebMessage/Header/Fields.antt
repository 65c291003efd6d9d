-- ===== src/WebMessage/Header/Fields.antt =====
-- The bit fields of the first two bytes of a frame header, as `WebMessageHeaderSaver` writes them and
-- `WebMessageHeaderParser` reads them.
use Prim.Native.Nat.{bit_and, bit_or}
use crablib.Base.{
  ℕ, ◌%◌, ◌<◌, Bool, true, false, not, ◌&&◌, Option, none, some, ◌==◌, if◌then◌else◌, ◌≡◌, refl,
  arith, holds_below, below_sound,
}
use crablib.WebMessage.Header.{mask_bit, is_some, is_opcode_supported}

byte_1_table : Bool → ℕ → Bool
byte_1_table masked n =
    let b = bit_or n (if masked then 0x80 else 0) % 256 in
    (if masked then not (bit_and b 0x80 == 0) else bit_and b 0x80 == 0) && bit_and b 0x7F == n

byte_1_masked : holds_below 128 (byte_1_table true) ≡ true
unfolding holds_below byte_1_table
byte_1_masked = refl

byte_1_plain : holds_below 128 (byte_1_table false) ≡ true
unfolding holds_below byte_1_table
byte_1_plain = refl

pub byte_1_fields :
    (mk : Option ℕ) (n : ℕ)
    → n < 128
    → ((not (bit_and (bit_or n (mask_bit mk) % 256) 0x80 == 0)) ≡ is_some mk)
      × (bit_and (bit_or n (mask_bit mk) % 256) 0x7F ≡ n)
unfolding byte_1_table
byte_1_fields none n h = ground (arith, below_sound 128 (byte_1_table false) n byte_1_plain h)
byte_1_fields (some key) n h = ground (arith, below_sound 128 (byte_1_table true) n byte_1_masked h)

byte_0_table : Bool → ℕ → Bool
byte_0_table fin op =
    let b = bit_or (if fin then 0x80 else 0) op % 256 in
    bit_and b 0x70 == 0
    && bit_and b 0x0F == op
    && (if fin then not (bit_and b 0x80 == 0) else bit_and b 0x80 == 0)

byte_0_all : (fin : Bool) → holds_below 16 (byte_0_table fin) ≡ true
unfolding holds_below byte_0_table
byte_0_all true = refl
byte_0_all false = refl

pub byte_0_below :
    (fin : Bool) (op : ℕ)
    → op < 16
    → let b = bit_or (if fin then 0x80 else 0) op % 256 in
      (bit_and b 0x70 ≡ 0) × (bit_and b 0x0F ≡ op) × ((not (bit_and b 0x80 == 0)) ≡ fin)
unfolding byte_0_table
byte_0_below true op h = ground (arith, below_sound 16 (byte_0_table true) op (byte_0_all true) h)
byte_0_below false op h =
    ground (arith, below_sound 16 (byte_0_table false) op (byte_0_all false) h)

pub byte_0_fields :
    (fin : Bool) (op : ℕ)
    → is_opcode_supported op ≡ true
    → let b = bit_or (if fin then 0x80 else 0) op % 256 in
      (bit_and b 0x70 ≡ 0) × (bit_and b 0x0F ≡ op) × ((not (bit_and b 0x80 == 0)) ≡ fin)
unfolding is_opcode_supported
byte_0_fields fin op h = byte_0_below fin op (ground arith)
