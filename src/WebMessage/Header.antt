-- ===== src/WebMessage/Header.antt =====
-- `WebMessageHeaderSaver` and `WebMessageHeaderParser`.
use Prim.Native.Nat.{bit_and, bit_or}
use crablib.Base.{
  ℕ, zero, suc, ◌+◌, ◌*◌, ◌/◌, ◌%◌, ◌^◌, ◌-◌, Bool, true, false, not, ◌&&◌, ◌||◌, Option, none,
  some, List, [], ◌∷◌, ◌++◌, Bytes, ltb, ◌==◌, if◌then◌else◌, Result, ok, err, throw, logic_error,
}
pub mod Fields
pub mod RoundTrip
pub mod Frames
use crablib.Loop
use mathlib.Core.Option

abbrev pub is_some : Option ℕ → Bool
is_some none = false
is_some (some _) = true

-- `for (size_t i = n; i-- > 0;) buffer[pos++] = static_cast<uint8_t>(value >> i * 8);`
unfoldable pub big_endian : ℕ → ℕ → Bytes
big_endian zero value = []
big_endian (suc i) value = (value / 2 ^ (8 * i) % 256) ∷ big_endian i value

abbrev pub mask_bit : Option ℕ → ℕ
mask_bit masking_key = if is_some masking_key then 0x80 else 0

-- The byte with the mask bit, and the longer forms of the length.
abbrev pub length_bytes : ℕ → ℕ → Bytes
length_bytes payload_len mask =
    if ltb payload_len 126
    then (bit_or payload_len mask % 256) ∷ []
    else if ltb payload_len 65536
    then (bit_or 126 mask % 256) ∷ big_endian 2 payload_len
    else (bit_or 127 mask % 256) ∷ big_endian 8 payload_len

abbrev pub key_bytes : Option ℕ → Bytes
key_bytes none = []
key_bytes (some key) = big_endian 4 key

-- The bytes that the constructor writes to `buffer`, which `data()` and `size()` return.
unfoldable pub saver : Bool → ℕ → ℕ → Option ℕ → Bytes
saver fin opcode payload_len masking_key =
    (bit_or (if fin then 0x80 else 0) opcode % 256)
    ∷ (length_bytes payload_len (mask_bit masking_key) ++ key_bytes masking_key)

pub data State : Type 0 where
  message_byte_0 message_byte_1 message_length masking_key good : State

pub record Parser : Type 0 where
  pub fin : Bool
  pub opcode : ℕ
  pub payload_len : ℕ
  pub masking_key : Option ℕ
  pub state : State
  pub remaining_field_bytes : ℕ

abbrev pub initial : Parser
initial = record {
  fin = false;
  opcode = 0;
  payload_len = 0;
  masking_key = none;
  state = State.message_byte_0;
  remaining_field_bytes = 0;
}

-- `WebMessageOpcode` is TEXT = 1, BINARY = 2, CLOSE = 8, PING = 9, PONG = 0xA.
unfoldable pub is_opcode_supported : ℕ → Bool
is_opcode_supported opcode =
    opcode == 1 || opcode == 2 || opcode == 8 || opcode == 9 || opcode == 0xA

-- The cases of `switch (state)`. A case returns the parser with its next state.
to_masking_key : Parser → Parser
to_masking_key p =
    if is_some p.masking_key
    then record p { remaining_field_bytes = 4; state = State.masking_key }
    else record p { state = State.good }

abbrev to_length : Parser → ℕ → Parser
to_length p n = record p {
  payload_len = 0;
  remaining_field_bytes = n;
  state = State.message_length;
}

consume_byte_0 : Parser → ℕ → Result Parser
unfolding is_opcode_supported
consume_byte_0 p input =
    if not (bit_and input 0x70 == 0)
    then throw "Invalid reserved bits in first byte"
    else if not (is_opcode_supported (bit_and input 0x0F))
    then throw "Invalid opcode"
    else ok (record p {
      fin = not (bit_and input 0x80 == 0);
      opcode = bit_and input 0x0F;
      state = State.message_byte_1;
    })

consume_byte_1 : Parser → ℕ → Result Parser
unfolding to_masking_key
consume_byte_1 p input =
    let q = record p {
      masking_key = if not (bit_and input 0x80 == 0) then some 0 else p.masking_key;
      payload_len = bit_and input 0x7F;
    } in
    if not (bit_and q.opcode 0x08 == 0) && ltb 125 q.payload_len
    then throw "Control frame with payload_len > 125"
    else if not (bit_and q.opcode 0x08 == 0) && not q.fin
    then throw "Control frame must not be fragmented"
    else ok (
        if q.payload_len == 126
        then to_length q 2
        else if q.payload_len == 127
        then to_length q 8
        else to_masking_key q)

consume_length : Parser → ℕ → Parser
unfolding to_masking_key
consume_length p input =
    let q = record p {
      payload_len = (p.payload_len * 2 ^ 8 + input) % 2 ^ 64;
      remaining_field_bytes = (p.remaining_field_bytes + (2 ^ 64 - 1)) % 2 ^ 64;
    } in
    if not (q.remaining_field_bytes == 0) then q else to_masking_key q

consume_masking_key : Parser → ℕ → Parser
consume_masking_key p input =
    let q = record p {
      masking_key = Option.map (λ key. (key * 2 ^ 8 + input) % 2 ^ 32) p.masking_key;
      remaining_field_bytes = (p.remaining_field_bytes + (2 ^ 64 - 1)) % 2 ^ 64;
    } in
    if not (q.remaining_field_bytes == 0) then q else record q { state = State.good }

consume_in : State → Parser → ℕ → Result Parser
consume_in State.message_byte_0 p input = consume_byte_0 p input
consume_in State.message_byte_1 p input = consume_byte_1 p input
consume_in State.message_length p input = ok (consume_length p input)
consume_in State.masking_key p input = ok (consume_masking_key p input)
consume_in State.good p input = err (logic_error "Invalid web message parser state")

unfoldable pub consume : Parser → ℕ → Result Parser
unfolding consume_in consume_byte_0 consume_byte_1 consume_length consume_masking_key
consume p = consume_in p.state p

is_good_state : State → Bool
is_good_state State.good = true
is_good_state _ = false

unfoldable pub is_good : Parser → Bool
unfolding is_good_state
is_good p = is_good_state p.state

unfoldable pub parse : Parser → Bytes → Result (Parser × Bytes)
unfolding Loop.parse
parse = Loop.parse is_good consume
