-- ===== src/WebMessage/Body.antt =====
-- `WebMessageBodyParser`. `body` is its `StringStream`, whose `write` appends; what `reserve` does
-- to the capacity of the string is not seen.
pub mod Stream
use crablib.Base.{
  ℕ, zero, suc, ◌+◌, ◌-◌, ◌%◌, ◌^◌, min, Bool, true, false, ◌==◌, if◌then◌else◌, Option, none, some,
  List, [], ◌∷◌, ◌++◌, Bytes, Result, ok, length, take, drop,
}
use crablib.Loop.Chunks
use crablib.WebMessage.Mask.{mask_data}

pub data State : Type 0 where
  body good : State

pub record BodyParser : Type 0 where
  pub body : Bytes
  pub state : State
  pub remaining_bytes : ℕ
  pub masking_key : ℕ
  pub masking_shift : ℕ

-- `BodyParser(payload_len, mk)`
unfoldable pub start : ℕ → Option ℕ → BodyParser
start payload_len mk = record {
  body = [];
  state = if payload_len == 0 then State.good else State.body;
  remaining_bytes = payload_len;
  masking_key = elim mk [ none ↦ 0 | some key ↦ key ];
  masking_shift = 0;
}

unfoldable pub is_good : BodyParser → Bool
is_good p = elim p.state [ State.good ↦ true | State.body ↦ false ]

-- Where the bytes just written lie in memory is up to the string: `gap` is their distance to the
-- next address that is a multiple of 8, for each state of the parser.
module _ (gap : BodyParser → ℕ) where
  -- The new bytes are masked in place, at the end of the buffer.
  unfoldable pub append_masked : BodyParser → Bytes → BodyParser
  append_masked p bytes =
      if p.masking_key == 0 then record p { body = p.body ++ bytes } else record p {
        body = p.body ++ mask_data (gap p) p.masking_shift bytes p.masking_key;
        masking_shift = (p.masking_shift + length bytes) % 2 ^ 64;
      }

  consume_in : State → BodyParser → Bytes → BodyParser × Bytes
  consume_in State.good p input = (p, input)
  consume_in State.body p input =
      let wr = min (length input) p.remaining_bytes in
      let q = append_masked p (take wr input) in
      let left = p.remaining_bytes - wr in
      (
        record q { remaining_bytes = left; state = if left == 0 then State.good else State.body },
        drop wr input,
      )

  unfoldable pub consume : BodyParser → Bytes → BodyParser × Bytes
  unfolding consume_in
  consume p = consume_in p.state p

  -- At most two rounds: the first takes all the input, or ends the body.
  unfoldable pub parse : BodyParser → Bytes → Option (Result (BodyParser × Bytes))
  unfolding is_good
  parse p input = Chunks.parse is_good (λ q rest. ok (consume q rest)) (suc (length input)) p input
