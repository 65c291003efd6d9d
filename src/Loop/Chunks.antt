-- ===== src/Loop/Chunks.antt =====
-- The loop of the parsers that take a range of bytes in each round, such as `BodyParser::parse`:
-- `while (begin != end && state != GOOD) begin = consume(begin, end); return begin;`
-- The fuel bounds the rounds; `none` means that it ran out.
use crablib.Base.{
  ℕ, zero, suc, Bool, true, false, [], ◌∷◌, Bytes, Option, none, some, Result, ok, err, Error, ◌≡◌,
  refl, if◌then◌else◌,
}

abbrev pub and_then : {A B : Type 0} → Result A → (A → Option (Result B)) → Option (Result B)
and_then (ok a) f = f a
and_then (err e) f = some (err e)

module _ {P : Type 0} (is_good : P → Bool) (consume : P → Bytes → Result (P × Bytes)) where
  unfoldable pub parse : ℕ → P → Bytes → Option (Result (P × Bytes))
  parse zero p input = none
  parse (suc fuel) p [] = some (ok (p, []))
  parse (suc fuel) p (c ∷ cs) =
      let next = and_then (consume p (c ∷ cs)) (λ r. parse fuel r.0 r.1) in
      if is_good p then some (ok (p, c ∷ cs)) else next

  pub parse_good :
      (fuel : ℕ) (p : P) (input : Bytes)
      → is_good p ≡ true
      → parse (suc fuel) p input ≡ some (ok (p, input))
  unfolding parse
  parse_good fuel p [] g = refl
  parse_good fuel p (c ∷ cs) g = rw (g, parse)

  pub parse_step :
      (fuel : ℕ) (p : P) {q : P} (c : ℕ) (cs : Bytes) {rest : Bytes}
      → is_good p ≡ false
      → consume p (c ∷ cs) ≡ ok (q, rest)
      → parse (suc fuel) p (c ∷ cs) ≡ parse fuel q rest
  unfolding parse
  parse_step fuel p c cs g e = rw (g, e, parse)

  pub parse_throws :
      (fuel : ℕ) (p : P) {e : Error} (c : ℕ) (cs : Bytes)
      → is_good p ≡ false
      → consume p (c ∷ cs) ≡ err e
      → parse (suc fuel) p (c ∷ cs) ≡ some (err e)
  unfolding parse
  parse_throws fuel p c cs g e = rw (g, e, parse)
