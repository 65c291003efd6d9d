-- ===== src/WebMessage/Mask.antt =====
-- `WebMessageHeaderParser::mask_data`, and `rol` of include/crab/util.hpp at 32 bits.
pub mod Reference
use Prim.Native.Nat.{bit_and, bit_or, bit_xor}
use crablib.Base.{
  ℕ, ◌+◌, ◌-◌, ◌*◌, ◌/◌, ◌%◌, ◌^◌, List, [], ◌∷◌, ◌++◌, Bytes, leb, if◌then◌else◌, length, take,
  drop,
}

-- `(mask << shift) | (mask >> (32 - shift))`, with `shift` reduced to 5 bits. At `shift = 0` the
-- source shifts a 32-bit value right by 32; here that gives 0.
unfoldable pub rol : ℕ → ℕ → ℕ
rol mask shift = let s = bit_and shift 31 in bit_or (mask * 2 ^ s % 2 ^ 32) (mask / 2 ^ (32 - s))

-- `mask = rol(mask, 8); *data ^= mask; data++`, over some bytes: the mask that is left, and the
-- bytes. The `^` is on `int`, and its low byte is stored.
unfoldable pub mask_bytes : ℕ → Bytes → ℕ × Bytes
mask_bytes mask [] = (mask, [])
mask_bytes mask (d ∷ ds) =
    let m = rol mask 8 in let (last, out) = mask_bytes m ds in (last, (bit_xor d m % 256) ∷ out)

-- The loop over aligned 64-bit words. In memory the bytes of `mask64_native` are those of
-- `mask_bytes` twice, on either byte order, so each word is eight bytes, each with its own mask.
-- Fewer than eight bytes are left as they are.
unfoldable pub mask_words : ℕ → Bytes → Bytes × Bytes
mask_words mask (a ∷ b ∷ c ∷ d ∷ e ∷ f ∷ g ∷ h ∷ rest) =
    let m0 = mask / 2 ^ 24 % 256 in
    let m1 = mask / 2 ^ 16 % 256 in
    let m2 = mask / 2 ^ 8 % 256 in
    let m3 = mask % 256 in
    let (done, left) = mask_words mask rest in
    (
      bit_xor a m0
          ∷ bit_xor b m1
          ∷ bit_xor c m2
          ∷ bit_xor d m3
          ∷ bit_xor e m0
          ∷ bit_xor f m1
          ∷ bit_xor g m2
          ∷ bit_xor h m3
          ∷ done,
      left,
    )
mask_words mask short = ([], short)

-- From the gap to the end: single bytes up to the aligned address, words, single bytes.
unfoldable pub mask_aligned : ℕ → ℕ → Bytes → Bytes
mask_aligned mask gap bytes =
    let (mask1, head) = mask_bytes mask (take gap bytes) in
    let (middle, tail) = mask_words mask1 (drop gap bytes) in
    head ++ (middle ++ (mask_bytes mask1 tail).1)

-- `gap` is the number of bytes from `data` to the next address that is a multiple of 8, below 8.
-- `std::align` succeeds if a whole word fits behind the gap, and takes the gap off `size`.
unfoldable pub mask_data : ℕ → ℕ → Bytes → ℕ → Bytes
mask_data gap masking_shift bytes masking_key =
    let mask = rol masking_key (8 * masking_shift % 2 ^ 64) in
    if leb (gap + 8) (length bytes) then mask_aligned mask gap bytes else (mask_bytes mask bytes).1
