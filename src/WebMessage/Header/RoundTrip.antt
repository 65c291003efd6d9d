-- ===== src/WebMessage/Header/RoundTrip.antt =====
-- A header that `WebMessageHeaderSaver` writes is read back by `WebMessageHeaderParser`.
use Prim.Native.Nat.{bit_and, bit_or}
use crablib.Base.{
  ℕ, ◌%◌, ◌^◌, ◌≤◌, ◌<◌, Bool, true, false, not, Option, none, some, ◌∷◌, ◌++◌, Bytes, ltb, ◌==◌,
  if◌then◌else◌, ok, ◌≡◌, refl, ap, ◌∙◌, arith, tests, append_assoc, Bool-cases, inl, inr,
}
use crablib.Loop
use crablib.WebMessage.Header.{
  State, Parser, initial, big_endian, saver, mask_bit, length_bytes, key_bytes, is_some,
  is_opcode_supported, to_masking_key, to_length, consume, is_good, parse,
}
use crablib.WebMessage.Header.Fields.{byte_0_fields, byte_1_fields}

parse_done : (p : Parser) (rest : Bytes) → p.state ≡ State.good → parse p rest ≡ ok (p, rest)
unfolding parse is_good
parse_done p rest e = Loop.parse_good is_good consume p rest (rw e)

module _ (p : Parser) where
  parse_two :
      (v : ℕ) (rest : Bytes)
      → v < 2 ^ 16
      → parse (to_length p 2) (big_endian 2 v ++ rest)
        ≡ parse
            (to_masking_key (record (to_length p 2) { payload_len = v; remaining_field_bytes = 0 }))
            rest
  unfolding parse consume is_good big_endian
  parse_two v rest h =
      ap
        (λ (t : ℕ).
          parse
            (to_masking_key (record (to_length p 2) { payload_len = t; remaining_field_bytes = 0 }))
            rest)
        (omega arith)

  parse_eight :
      (v : ℕ) (rest : Bytes)
      → v < 2 ^ 64
      → parse (to_length p 8) (big_endian 8 v ++ rest)
        ≡ parse
            (to_masking_key (record (to_length p 8) { payload_len = v; remaining_field_bytes = 0 }))
            rest
  unfolding parse consume is_good big_endian
  parse_eight v rest h =
      ap
        (λ (t : ℕ).
          parse
            (to_masking_key (record (to_length p 8) { payload_len = t; remaining_field_bytes = 0 }))
            rest)
        (omega arith)

  -- Only the length byte is left between the key and the end.
  parse_key :
      (key : ℕ) (rest : Bytes)
      → key < 2 ^ 32
      → parse (to_masking_key (record p { masking_key = some 0 })) (big_endian 4 key ++ rest)
        ≡ ok (
          record p { masking_key = some key; remaining_field_bytes = 0; state = State.good },
          rest,
        )
  unfolding parse consume is_good big_endian to_masking_key
  parse_key key rest h =
      ap
        (λ (t : ℕ).
          parse (record p { masking_key = some t; remaining_field_bytes = 0; state = State.good })
            rest)
        (omega arith)
      ∙ parse_done _ rest refl

abbrev KeyFits : Option ℕ → Type 0
KeyFits none = Unit
KeyFits (some key) = key < 2 ^ 32

-- What stands for the key while its bytes are not read yet.
abbrev blank_key : Option ℕ → Option ℕ
blank_key none = none
blank_key (some key) = some 0

parse-key_bytes :
    (p : Parser) (mk : Option ℕ) (rest : Bytes)
    → KeyFits mk
    → p.masking_key ≡ blank_key mk
    → p.remaining_field_bytes ≡ 0
    → parse (to_masking_key p) (key_bytes mk ++ rest)
      ≡ ok (record p { masking_key = mk; remaining_field_bytes = 0; state = State.good }, rest)
unfolding to_masking_key
parse-key_bytes p none rest h e z =
    ap (λ k. parse (to_masking_key (record p { masking_key = k })) rest) e
    ∙ parse_done (record p { masking_key = none; state = State.good }) rest refl
    ∙ ap
        (λ (t : ℕ).
          ok (record p { masking_key = none; remaining_field_bytes = t; state = State.good }, rest))
        z
parse-key_bytes p (some key) rest h e z =
    ap (λ k. parse (to_masking_key (record p { masking_key = k })) (big_endian 4 key ++ rest)) e
    ∙ parse_key p key rest h

-- The parser after the first byte.
abbrev after_byte_0 : Bool → ℕ → Parser
after_byte_0 fin op = record initial { fin = fin; opcode = op; state = State.message_byte_1 }

parse_byte_0 :
    (fin : Bool) (op : ℕ) (rest : Bytes)
    → is_opcode_supported op ≡ true
    → parse initial ((bit_or (if fin then 0x80 else 0) op % 256) ∷ rest)
      ≡ parse (after_byte_0 fin op) rest
unfolding parse is_good consume
parse_byte_0 fin op rest h =
    let b = bit_or (if fin then 0x80 else 0) op % 256 in
    Loop.parse_step is_good consume initial b rest refl (ground (arith, byte_0_fields fin op h))

-- What a control frame must satisfy.
abbrev ControlFits : Bool → ℕ → ℕ → Type 0
ControlFits fin op len = ((bit_and op 0x08 == 0) ≡ false) → (len ≤ 125) × (fin ≡ true)

-- The parser after the second byte.
abbrev after_byte_1 : Bool → ℕ → ℕ → Option ℕ → Parser
after_byte_1 fin op n mk = record (after_byte_0 fin op) {
  payload_len = n;
  masking_key = blank_key mk;
}

parse_byte_1 :
    (fin : Bool) (op n : ℕ) (mk : Option ℕ) (rest : Bytes)
    → n < 128
    → ControlFits fin op n
    → parse (after_byte_0 fin op) ((bit_or n (mask_bit mk) % 256) ∷ rest)
      ≡ parse
          (if n == 126
            then to_length (after_byte_1 fin op n mk) 2
            else if n == 127
            then to_length (after_byte_1 fin op n mk) 8
            else to_masking_key (after_byte_1 fin op n mk))
          rest
unfolding parse is_good consume
parse_byte_1 fin op n mk rest h c =
    let b = bit_or n (mask_bit mk) % 256 in
    Loop.parse_step is_good consume (after_byte_0 fin op) b rest refl
      (next mk (byte_1_fields mk n h))
  where
    next :
        (mk : Option ℕ)
        → ((not (bit_and (bit_or n (mask_bit mk) % 256) 0x80 == 0)) ≡ is_some mk)
          × (bit_and (bit_or n (mask_bit mk) % 256) 0x7F ≡ n)
        → consume (after_byte_0 fin op) (bit_or n (mask_bit mk) % 256)
          ≡ ok (
              if n == 126
              then to_length (after_byte_1 fin op n mk) 2
              else if n == 127
              then to_length (after_byte_1 fin op n mk) 8
              else to_masking_key (after_byte_1 fin op n mk))
    next none f = ground arith
    next (some key) f = ground arith

-- The parser that has read a header, in its last state.
abbrev pub parsed : Bool → ℕ → ℕ → Option ℕ → Parser
parsed fin op len mk = record {
  fin = fin;
  opcode = op;
  payload_len = len;
  masking_key = mk;
  state = State.good;
  remaining_field_bytes = 0;
}

module _ (fin : Bool) (op : ℕ) (mk : Option ℕ) (rest : Bytes) (k : KeyFits mk) where
  parse_short :
      (len : ℕ)
      → len < 126
      → ControlFits fin op len
      → parse (after_byte_0 fin op) ((bit_or len (mask_bit mk) % 256) ∷ (key_bytes mk ++ rest))
        ≡ ok (parsed fin op len mk, rest)
  parse_short len h c =
      let not_126 : (len == 126) ≡ false = ground arith in
      let not_127 : (len == 127) ≡ false = ground arith in
      rw (parse_byte_1 fin op len mk (key_bytes mk ++ rest) (omega arith) c, not_126, not_127)
        (parse-key_bytes (after_byte_1 fin op len mk) mk rest k refl refl)

  parse_medium :
      (len : ℕ)
      → len < 2 ^ 16
      → ControlFits fin op 126
      → parse
          (after_byte_0 fin op)
          ((bit_or 126 (mask_bit mk) % 256) ∷ (big_endian 2 len ++ (key_bytes mk ++ rest)))
        ≡ ok (parsed fin op len mk, rest)
  parse_medium len h c =
      parse_byte_1 fin op 126 mk _ (omega arith) c
      ∙ parse_two (after_byte_1 fin op 126 mk) len (key_bytes mk ++ rest) h
      ∙ parse-key_bytes
          (record (to_length (after_byte_1 fin op 126 mk) 2) {
            payload_len = len;
            remaining_field_bytes = 0;
          })
          mk rest k refl refl

  parse_long :
      (len : ℕ)
      → len < 2 ^ 64
      → ControlFits fin op 127
      → parse
          (after_byte_0 fin op)
          ((bit_or 127 (mask_bit mk) % 256) ∷ (big_endian 8 len ++ (key_bytes mk ++ rest)))
        ≡ ok (parsed fin op len mk, rest)
  parse_long len h c =
      parse_byte_1 fin op 127 mk _ (omega arith) c
      ∙ parse_eight (after_byte_1 fin op 127 mk) len (key_bytes mk ++ rest) h
      ∙ parse-key_bytes
          (record (to_length (after_byte_1 fin op 127 mk) 8) {
            payload_len = len;
            remaining_field_bytes = 0;
          })
          mk rest k refl refl

  parse-length_bytes :
      (len : ℕ)
      → len < 2 ^ 64
      → ControlFits fin op len
      → parse (after_byte_0 fin op) (length_bytes len (mask_bit mk) ++ (key_bytes mk ++ rest))
        ≡ ok (parsed fin op len mk, rest)
  parse-length_bytes len h c = elim (Bool-cases (ltb len 126)) [
    | inl short ↦ rw short (parse_short len (omega tests) c)
    | inr more ↦ elim (Bool-cases (ltb len 65536)) [
      | inl medium ↦
          rw (more, medium) (parse_medium len (omega tests) (λ e. absurd (omega (tests, (c e).0))))
      | inr long ↦ rw (more, long) (parse_long len h (λ e. absurd (omega (tests, (c e).0))))
    ]
  ]

-- A header that the saver writes for a supported opcode is read back whole by the parser, which
-- stops at the first byte behind it: with its flags, its length below 2 ^ 64 in any of the three
-- forms, and its masking key. A control frame must be final and hold at most 125 bytes.
pub parse-saver :
    (fin : Bool) (op len : ℕ) (mk : Option ℕ) (rest : Bytes)
    → is_opcode_supported op ≡ true
    → len < 2 ^ 64
    → KeyFits mk
    → ControlFits fin op len
    → parse initial (saver fin op len mk ++ rest) ≡ ok (parsed fin op len mk, rest)
unfolding saver
parse-saver fin op len mk rest s h k c =
    parse_byte_0 fin op _ s ∙ rw append_assoc (parse-length_bytes fin op mk rest k len h c)
