-- ===== src/WebMessage/Layout.antt =====
-- The layout of a frame without a key in RFC 6455, section 5.2, as a reader that is independent of
-- include/crab/http/web_message_parser.hxx, and what it makes of the frames of
-- `WebMessageHeaderSaver`.
use Prim.Native.Nat.{bit_and, bit_or}
use crablib.Base.{
  ℕ, zero, suc, ◌+◌, ◌*◌, ◌%◌, ◌^◌, ◌<◌, ◌≡◌, refl, ap, ◌∙◌, Bool, true, false, not, ◌&&◌, Option,
  none, some, [], ◌∷◌, ◌++◌, append-nil, arith, ltb, leb, ◌==◌, if◌then◌else◌, Bool-cases, inl, inr,
  Bytes, length, length-append, take, drop, take-length, drop-length,
}
use crablib.WebMessage.Header.{big_endian, saver}
use crablib.WebMessage.Header.Fields.{byte_0_below, byte_1_fields}

-- A number of so many bytes, the highest first.
unfoldable number : ℕ → ℕ → Bytes → Option (ℕ × Bytes)
number zero acc rest = some (acc, rest)
number (suc n) acc [] = none
number (suc n) acc (c ∷ rest) = number n (acc * 2 ^ 8 + c) rest

-- The length that the second byte stands for, or that follows it.
unfoldable read_length : ℕ → Bytes → Option (ℕ × Bytes)
read_length n rest =
    if n == 126 then number 2 0 rest else if n == 127 then number 8 0 rest else some (n, rest)

abbrev read_payload : Bool → ℕ → Option (ℕ × Bytes) → Option (Bool × ℕ × Bytes × Bytes)
read_payload fin opcode none = none
read_payload fin opcode (some (n, rest)) =
    if leb n (length rest) then some (fin, opcode, take n rest, drop n rest) else none

-- The final bit, the opcode, the payload and what follows.
unfoldable pub read_frame : Bytes → Option (Bool × ℕ × Bytes × Bytes)
unfolding read_length number
read_frame [] = none
read_frame (b ∷ []) = none
read_frame (b ∷ c ∷ rest) =
    if bit_and b 0x70 == 0 && bit_and c 0x80 == 0
    then read_payload (not (bit_and b 0x80 == 0)) (bit_and b 0x0F)
        (read_length (bit_and c 0x7F) rest)
    else none

number_two :
    (v : ℕ) (rest : Bytes) → v < 2 ^ 16 → number 2 0 (big_endian 2 v ++ rest) ≡ some (v, rest)
unfolding number big_endian
number_two v rest h = ap (λ (t : ℕ). some (t, rest)) (omega arith)

number_eight :
    (v : ℕ) (rest : Bytes) → v < 2 ^ 64 → number 8 0 (big_endian 8 v ++ rest) ≡ some (v, rest)
unfolding number big_endian
number_eight v rest h = ap (λ (t : ℕ). some (t, rest)) (omega arith)

module _ (fin : Bool) (op : ℕ) (h : op < 16) where
  -- The second byte of a frame without a key, with its seven bits `n`.
  read_second :
      (n : ℕ) (rest : Bytes)
      → n < 128
      → read_frame ((bit_or (if fin then 0x80 else 0) op % 256) ∷ (bit_or n 0 % 256) ∷ rest)
        ≡ read_payload fin op (read_length n rest)
  unfolding read_frame
  read_second n rest k =
      let (a, b, c) = byte_0_below fin op h in
      let (d, e) = byte_1_fields none n k in
      let plain : (bit_and (bit_or n 0 % 256) 0x80 == 0) ≡ true = ground (arith, d) in
      let bits : bit_and (bit_or n 0 % 256) 0x7F ≡ n = e in rw (a, b, c, plain, bits) refl

  payload_read :
      (payload rest : Bytes)
      → read_payload fin op (some (length payload, payload ++ rest)) ≡ some (fin, op, payload, rest)
  payload_read payload rest =
      let fits : leb (length payload) (length (payload ++ rest)) ≡ true =
        ground (arith, length-append payload rest) in
      rw (fits, take-length payload rest, drop-length payload rest) refl

  -- A frame of fewer than 2 ^ 64 bytes, of any opcode.
  pub read_frame-saver :
      (payload rest : Bytes)
      → length payload < 2 ^ 64
      → read_frame (saver fin op (length payload) none ++ (payload ++ rest))
        ≡ some (fin, op, payload, rest)
  unfolding saver read_length
  read_frame-saver payload rest k =
      let n = length payload in
      let found = payload_read payload rest in
      elim (Bool-cases (ltb n 126)) [
        | inl short ↦
            let not_126 : (n == 126) ≡ false = ground arith in
            let not_127 : (n == 127) ≡ false = ground arith in
            rw short (read_second n (payload ++ rest) (ground arith) ∙ rw (not_126, not_127) found)
        | inr more ↦ elim (Bool-cases (ltb n 65536)) [
          | inl medium ↦
              rw (more, medium, append-nil (big_endian 2 n))
                (read_second 126 (big_endian 2 n ++ (payload ++ rest)) (omega arith)
                  ∙ ap (read_payload fin op) (number_two n (payload ++ rest) (ground arith))
                  ∙ found)
          | inr long ↦
              rw (more, long, append-nil (big_endian 8 n))
                (read_second 127 (big_endian 8 n ++ (payload ++ rest)) (omega arith)
                  ∙ ap (read_payload fin op) (number_eight n (payload ++ rest) k)
                  ∙ found)
        ]
      ]

-- `text` starts with frames of opcode 0, the last one final, whose payloads are `body`, and `rest`
-- follows them.
pub data Continues : Bytes → Bytes → Bytes → Type 0 where
  last :
      {text payload rest : Bytes}
      → read_frame text ≡ some (true, 0, payload, rest)
      → Continues text payload rest
  more :
      {text payload next body rest : Bytes}
      → read_frame text ≡ some (false, 0, payload, next)
      → Continues next body rest
      → Continues text (payload ++ body) rest
