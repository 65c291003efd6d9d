-- ===== src/Http/Body/Bytewise/Equivalence.antt =====
-- `BodyParser::parse` against `step`, by induction on the fuel of its loop.
use crablib.Base.{
  ℕ, zero, suc, ◌-◌, ◌^◌, ◌<◌, min, Bool, true, false, ◌==◌, Option, none, some, [], ◌∷◌, ◌++◌,
  Bytes, Result, ok, err, ◌>>=◌, ◌≡◌, refl, sym, ap, ◌∙◌, inl, inr, arith, Bool-cases, length,
  length-drop, drop,
}
use mathlib.Core.Path.{subst}
use crablib.Loop
use crablib.Loop.Chunks
use crablib.Http.Body.{State, BodyParser, is_good, consume_byte, consume_in, consume, parse, start}
use crablib.Http.Body.Bytewise.{
  step, step_in, IsValid, Valid, consume_byte-Valid, put, in_body, content_done, chunk_done,
  written, bulk,
}

abbrev pub bytewise : BodyParser → Bytes → Result (BodyParser × Bytes)
bytewise = Loop.parse is_good step

abbrev looped : ℕ → BodyParser → Bytes → Option (Result (BodyParser × Bytes))
looped = Chunks.parse is_good consume

-- A parser that waits for `r` bytes of a body of known length, and of a chunk.
abbrev content : BodyParser → Bytes → ℕ → BodyParser
content p b r = record p { state = State.content_length_body; body = b; remaining_bytes = r }

abbrev content_last : BodyParser → Bytes → BodyParser
content_last p b = record p { state = State.good; body = b; remaining_bytes = 0 }

abbrev chunk : BodyParser → Bytes → ℕ → BodyParser
chunk p b r = record p { state = State.chunk_body; body = b; remaining_bytes = r }

abbrev chunk_last : BodyParser → Bytes → BodyParser
chunk_last p b = record (chunk_done p) { body = b; remaining_bytes = 0 }

module _ (p : BodyParser) where
  content-consume :
      (b : Bytes) (r : ℕ) (cs : Bytes)
      → let m = min (length cs) (suc r) in
        consume (content p b (suc r)) cs
        ≡ ok (written (content p) (content_last p) b (suc r) m cs, drop m cs)
  unfolding consume
  content-consume b r cs = elim (Bool-cases (suc r - min (length cs) (suc r) == 0)) [
    | inl z ↦ let complete : suc r - min (length cs) (suc r) ≡ 0 = ground arith in rw (z, complete)
    | inr z ↦ rw z
  ]

  chunk-consume :
      (b : Bytes) (r : ℕ) (cs : Bytes)
      → let m = min (length cs) (suc r) in
        consume (chunk p b (suc r)) cs
        ≡ ok (written (chunk p) (chunk_last p) b (suc r) m cs, drop m cs)
  unfolding consume
  chunk-consume b r cs = elim (Bool-cases (suc r - min (length cs) (suc r) == 0)) [
    | inl z ↦ let complete : suc r - min (length cs) (suc r) ≡ 0 = ground arith in rw (z, complete)
    | inr z ↦ rw z
  ]

  content-step :
      (b : Bytes) (r c : ℕ)
      → step (content p b (suc (suc r))) c ≡ ok (content p (b ++ c ∷ []) (suc r))
  unfolding step
  content-step b r c =
      let left : suc (suc r) - 1 ≡ suc r = omega arith in
      let more : (suc r == 0) ≡ false = ground arith in rw (left, more)

  chunk-step :
      (b : Bytes) (r c : ℕ) → step (chunk p b (suc (suc r))) c ≡ ok (chunk p (b ++ c ∷ []) (suc r))
  unfolding step
  chunk-step b r c =
      let left : suc (suc r) - 1 ≡ suc r = omega arith in
      let more : (suc r == 0) ≡ false = ground arith in rw (left, more)

  content-bulk :
      (cs b : Bytes) (r : ℕ)
      → let m = min (length cs) (suc r) in
        bytewise (content p b (suc r)) cs
        ≡ bytewise (written (content p) (content_last p) b (suc r) m cs) (drop m cs)
  content-bulk =
      bulk (content p) (content_last p) (λ b r. refl) (λ b c. unfold step in refl) content-step

  chunk-bulk :
      (cs b : Bytes) (r : ℕ)
      → let m = min (length cs) (suc r) in
        bytewise (chunk p b (suc r)) cs
        ≡ bytewise (written (chunk p) (chunk_last p) b (suc r) m cs) (drop m cs)
  chunk-bulk = bulk (chunk p) (chunk_last p) (λ b r. refl) (λ b c. unfold step in refl) chunk-step

-- What the induction gives for the rest of the input.
abbrev Agrees : ℕ → Type 0
Agrees fuel =
    (q : BodyParser) (rest : Bytes)
    → length rest < fuel
    → IsValid q
    → looped fuel q rest ≡ some (bytewise q rest)

module _ (fuel : ℕ) (ih : Agrees fuel) (p : BodyParser) (c : ℕ) (cs : Bytes)
    (short : length cs < fuel) where
  content_round :
      (b : Bytes) (r : ℕ)
      → suc r < 2 ^ 64
      → looped (suc fuel) (content p b (suc r)) (c ∷ cs)
        ≡ some (bytewise (content p b (suc r)) (c ∷ cs))
  content_round b r h =
      let m = min (length (c ∷ cs)) (suc r) in
      let q = written (content p) (content_last p) b (suc r) m (c ∷ cs) in
      Chunks.parse_step is_good consume fuel (content p b (suc r)) c cs refl
        (content-consume p b r (c ∷ cs))
      ∙ ih q (drop m (c ∷ cs)) (omega (arith, length-drop m (c ∷ cs))) (ground arith)
      ∙ ap some (sym (content-bulk p (c ∷ cs) b r))

  chunk_round :
      (b : Bytes) (r : ℕ)
      → suc r < 2 ^ 64
      → looped (suc fuel) (chunk p b (suc r)) (c ∷ cs)
        ≡ some (bytewise (chunk p b (suc r)) (c ∷ cs))
  chunk_round b r h =
      let m = min (length (c ∷ cs)) (suc r) in
      let q = written (chunk p) (chunk_last p) b (suc r) m (c ∷ cs) in
      Chunks.parse_step is_good consume fuel (chunk p b (suc r)) c cs refl
        (chunk-consume p b r (c ∷ cs))
      ∙ ih q (drop m (c ∷ cs)) (omega (arith, length-drop m (c ∷ cs))) (ground arith)
      ∙ ap some (sym (chunk-bulk p (c ∷ cs) b r))

  byte_round :
      (m : Result BodyParser)
      → consume_byte p c ≡ m
      → Valid m
      → is_good p ≡ false
      → consume p (c ∷ cs) ≡ (consume_byte p c >>= λ q. ok (q, cs))
      → step p c ≡ consume_byte p c
      → looped (suc fuel) p (c ∷ cs) ≡ some (bytewise p (c ∷ cs))
  byte_round (ok q) e v g e1 e2 =
      Chunks.parse_step is_good consume fuel p c cs g (e1 ∙ rw e)
      ∙ ih q cs short v
      ∙ ap some (sym (Loop.parse_step is_good step p c cs g (e2 ∙ e)))
  byte_round (err x) e v g e1 e2 =
      Chunks.parse_throws is_good consume fuel p c cs g (e1 ∙ rw e)
      ∙ ap some (sym (Loop.parse_throws is_good step p c cs g (e2 ∙ e)))

  by_state :
      (s : State)
      → p.state ≡ s
      → IsValid p
      → looped (suc fuel) p (c ∷ cs) ≡ some (bytewise p (c ∷ cs))
  unfolding consume step
  by_state State.good e v =
      Chunks.parse_good is_good consume fuel p (c ∷ cs) (rw e)
      ∙ ap some (sym (Loop.parse_good is_good step p (c ∷ cs) (rw e)))
  by_state State.content_length_body e v =
      let r : p.remaining_bytes ≡ suc (p.remaining_bytes - 1) = omega (arith, v.missing (rw e)) in
      let same : p ≡ content p p.body (suc (p.remaining_bytes - 1)) =
        λ i. record p { state = e i; remaining_bytes = r i } in
      subst (λ q. looped (suc fuel) q (c ∷ cs) ≡ some (bytewise q (c ∷ cs))) (sym same)
        (content_round p.body (p.remaining_bytes - 1) (omega (arith, r, v.fits)))
  by_state State.chunk_body e v =
      let r : p.remaining_bytes ≡ suc (p.remaining_bytes - 1) = omega (arith, v.missing (rw e)) in
      let same : p ≡ chunk p p.body (suc (p.remaining_bytes - 1)) =
        λ i. record p { state = e i; remaining_bytes = r i } in
      subst (λ q. looped (suc fuel) q (c ∷ cs) ≡ some (bytewise q (c ∷ cs))) (sym same)
        (chunk_round p.body (p.remaining_bytes - 1) (omega (arith, r, v.fits)))
  by_state s e v =
      byte_round (consume_byte p c) refl (consume_byte-Valid p c v.fits) (rw e)
        (ap (λ t. consume_in t p (c ∷ cs)) e) (ap (λ t. step_in t p c) e)

looped-bytewise : (fuel : ℕ) → Agrees fuel
looped-bytewise zero q rest short v = absurd (omega arith)
looped-bytewise (suc fuel) q [] short v = unfold Chunks.parse Loop.parse in refl
looped-bytewise (suc fuel) q (c ∷ cs) short v =
    by_state fuel (looped-bytewise fuel) q c cs (omega arith) q.state refl v

-- A parser that waits for body bytes that are missing never runs out of rounds, and what it makes
-- of its input, the bytes that it leaves and the exception that it throws included, is what it
-- makes of the same bytes taken one at a time.
pub parse-bytewise :
    (p : BodyParser) (input : Bytes) → IsValid p → parse p input ≡ some (bytewise p input)
unfolding parse
parse-bytewise p input v = looped-bytewise (suc (length input)) p input (omega arith) v

-- A fresh parser is such a parser.
pub start-IsValid :
    (content_length : Option ℕ) (chunked : Bool)
    → ((n : ℕ) → content_length ≡ some n → n < 2 ^ 64)
    → IsValid (start content_length chunked)
unfolding start
start-IsValid none true h = ground arith
start-IsValid (some n) true h = ground arith
start-IsValid none false h = ground arith
start-IsValid (some n) false h = ground (arith, h n refl)

put-Valid :
    (p done : BodyParser) (c : ℕ)
    → in_body done.state ≡ false
    → p.remaining_bytes < 2 ^ 64
    → IsValid (put p done c)
put-Valid p done c h f = ground arith

step_in-Valid : (s : State) (p : BodyParser) (c : ℕ) → IsValid p → Valid (step_in s p c)
unfolding step_in
step_in-Valid State.content_length_body p c v = put-Valid p (content_done p) c refl v.fits
step_in-Valid State.chunk_body p c v = put-Valid p (chunk_done p) c refl v.fits
step_in-Valid s p c v = consume_byte-Valid p c v.fits

step-Valid :
    (p q : BodyParser) (c : ℕ) → IsValid p → is_good p ≡ false → step p c ≡ ok q → IsValid q
unfolding step
step-Valid p q c v g e = subst Valid e (step_in-Valid p.state p c v)

-- Cutting the input in two changes nothing: where a parser that has body bytes to come, if it waits
-- for any, takes the first piece whole, what it makes of the second one is what it makes of both.
parse-append_body :
    (p q : BodyParser) (xs ys : Bytes)
    → IsValid p
    → parse p xs ≡ some (ok (q, []))
    → parse q ys ≡ parse p (xs ++ ys)
parse-append_body p q xs ys v e =
    let first : bytewise p xs ≡ ok (q, []) = ground (arith, parse-bytewise p xs v) in
    let valid = Loop.parse_keeps is_good step IsValid step-Valid xs p v first in
    let both = Loop.parse-append is_good step p xs ys in
    rw (parse-bytewise q ys valid, parse-bytewise p (xs ++ ys) v, both, first)
