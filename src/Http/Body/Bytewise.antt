-- ===== src/Http/Body/Bytewise.antt =====
-- `BodyParser` takes a range of body bytes at once. `step` takes them one by one; the outcome is the
-- same, so it does not depend on how the input is cut.
pub mod Equivalence
use crablib.Base.{
  ℕ, zero, suc, ◌+◌, ◌-◌, ◌^◌, ◌≤◌, ◌<◌, min, Bool, true, false, not, ◌==◌, if◌then◌else◌, Option,
  none, some, [], ◌∷◌, ◌++◌, Bytes, Result, ok, err, Error, ◌>>=◌, ◌≡◌, ◌≢◌, refl, sym, ap, ◌∙◌,
  inl, inr, arith, Bool-cases, length, length-drop, take, drop, append-nil, append_assoc,
}
use crablib.Chars.Hex.{from_hex_digit, from_hex_digit-lt}
use crablib.Loop
use crablib.Loop.Chunks
use crablib.Http.Body.{
  State, BodyParser, is_good, first_digit, next_digit, consume_state, count_trailer,
  count_chunk_header, is_trailer, consume_byte, consume_in, consume, parse, start,
}

-- One body byte; `done` is the parser when it was the last.
abbrev put : BodyParser → BodyParser → ℕ → BodyParser
put p done c =
    if p.remaining_bytes - 1 == 0
    then record done { body = p.body ++ c ∷ []; remaining_bytes = 0 }
    else record p { body = p.body ++ c ∷ []; remaining_bytes = p.remaining_bytes - 1 }

-- The parser behind the last byte of a body, or of a chunk.
abbrev content_done : BodyParser → BodyParser
content_done p = record p { state = State.good }

abbrev chunk_done : BodyParser → BodyParser
chunk_done p = record p { chunk_header_total_length = 0; state = State.chunk_body_cr }

step_in : State → BodyParser → ℕ → Result BodyParser
step_in State.content_length_body p c = ok (put p (content_done p) c)
step_in State.chunk_body p c = ok (put p (chunk_done p) c)
step_in _ p c = consume_byte p c

unfoldable pub step : BodyParser → ℕ → Result BodyParser
unfolding step_in
step p = step_in p.state p

abbrev in_body : State → Bool
in_body State.content_length_body = true
in_body State.chunk_body = true
in_body _ = false

-- Body bytes are missing wherever the parser waits for them, and their number is a `uint64_t`.
pub record IsValid (p : BodyParser) : Type 0 where
  pub missing : in_body p.state ≡ true → p.remaining_bytes ≢ 0
  pub fits : p.remaining_bytes < 2 ^ 64

abbrev Valid : Result BodyParser → Type 0
Valid (ok p) = IsValid p
Valid (err e) = Unit

-- Only `remaining_bytes` and `state` matter.
first_digit-Valid :
    (p : BodyParser) (o : Option ℕ) → ((d : ℕ) → o ≡ some d → d < 16) → Valid (first_digit p o)
unfolding first_digit
first_digit-Valid p none h = tt
first_digit-Valid p (some d) h = ground (arith, h d refl)

next_digit-Valid : (p : BodyParser) (o : Option ℕ) → Valid (next_digit p o)
unfolding next_digit
next_digit-Valid p none = tt
next_digit-Valid p (some d) = ground arith

consume_state-Valid :
    (s : State) (p : BodyParser) (c : ℕ) → p.remaining_bytes < 2 ^ 64 → Valid (consume_state s p c)
unfolding consume_state
consume_state-Valid State.chunk_size_start p c h =
    ground (arith, first_digit-Valid p (from_hex_digit c) (λ d e. from_hex_digit-lt c e))
consume_state-Valid State.chunk_size p c h = ground (arith, next_digit-Valid p (from_hex_digit c))
consume_state-Valid _ p c h = ground arith

consume_byte-Valid :
    (p : BodyParser) (c : ℕ) → p.remaining_bytes < 2 ^ 64 → Valid (consume_byte p c)
unfolding consume_byte
consume_byte-Valid p c h = ground (
  arith,
  consume_state-Valid p.state (count_trailer p) c h,
  consume_state-Valid p.state (count_chunk_header p) c h,
)

-- The parser after `m` bytes of the input, of `r` that were missing.
abbrev written :
    (Bytes → ℕ → BodyParser) → (Bytes → BodyParser) → Bytes → ℕ → ℕ → Bytes → BodyParser
written here last b r m cs =
    if r - m == 0 then last (b ++ take m cs) else here (b ++ take m cs) (r - m)

-- A body of `r` bytes still to come, in the states that `here` and `last` stand for.
module _ (here : Bytes → ℕ → BodyParser) (last : Bytes → BodyParser)
    (not_good : (b : Bytes) (r : ℕ) → is_good (here b r) ≡ false)
    (step_last : (b : Bytes) (c : ℕ) → step (here b 1) c ≡ ok (last (b ++ c ∷ [])))
    (step_more : (b : Bytes) (r c : ℕ)
      → step (here b (suc (suc r))) c ≡ ok (here (b ++ c ∷ []) (suc r))) where
  abbrev bytewise : BodyParser → Bytes → Result (BodyParser × Bytes)
  bytewise = Loop.parse is_good step

  bulk :
      (cs b : Bytes) (r : ℕ)
      → let m = min (length cs) (suc r) in
        bytewise (here b (suc r)) cs ≡ bytewise (written here last b (suc r) m cs) (drop m cs)
  bulk [] b r =
      let none_yet : min 0 (suc r) ≡ 0 = omega arith in
      let more : (suc r - 0 == 0) ≡ false = ground arith in
      let left : suc r - 0 ≡ suc r = omega arith in rw (none_yet, more, left, append-nil)
  bulk (c ∷ cs) b zero =
      let one : min (suc (length cs)) 1 ≡ 1 = omega arith in
      Loop.parse_step is_good step (here b 1) c cs (not_good b 1) (step_last b c) ∙ rw one
  bulk (c ∷ cs) b (suc r) =
      let m = min (length cs) (suc r) in
      let one_more : min (suc (length cs)) (suc (suc r)) ≡ suc m = omega arith in
      let left : suc (suc r) - suc m ≡ suc r - m = omega arith in
      Loop.parse_step is_good step (here b (suc (suc r))) c cs (not_good b _) (step_more b r c)
      ∙ bulk cs (b ++ c ∷ []) r
      ∙ rw (one_more, left, append_assoc)
