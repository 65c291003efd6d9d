-- ===== src/Loop.antt =====
-- The loop that the byte-at-a-time parsers share, such as `RequestParser::parse`:
-- `while (begin != end && state != GOOD) state = consume(*begin++); return begin;`
-- The result is the parser with the bytes from the returned pointer on.
pub mod Chunks
use mathlib.Core.Path.{subst}
use crablib.Base.{
  ℕ, Bool, true, false, [], ◌∷◌, ◌++◌, Bytes, length, suc, ◌+◌, Result, ok, err, ◌>>=◌, Error, ◌≡◌,
  refl, ap, ◌⊎◌, inl, inr, arith, if◌then◌else◌, Bool-cases,
}

module _ {P : Type 0} (is_good : P → Bool) (consume : P → ℕ → Result P) where
  unfoldable pub parse : P → Bytes → Result (P × Bytes)
  parse p [] = ok (p, [])
  parse p (c ∷ cs) =
      let next = consume p c >>= λ q. parse q cs in if is_good p then ok (p, c ∷ cs) else next

  -- A parser that has reached its last state takes nothing more.
  pub parse_good : (p : P) (cs : Bytes) → is_good p ≡ true → parse p cs ≡ ok (p, cs)
  unfolding parse
  parse_good p [] h = refl
  parse_good p (c ∷ cs) h = rw (h, parse)

  -- One round of the loop.
  pub parse_step :
      (p : P) {q : P} (c : ℕ) (cs : Bytes)
      → is_good p ≡ false
      → consume p c ≡ ok q
      → parse p (c ∷ cs) ≡ parse q cs
  unfolding parse
  parse_step p c cs g e = rw (g, e, parse)

  pub parse_throws :
      (p : P) {e : Error} (c : ℕ) (cs : Bytes)
      → is_good p ≡ false
      → consume p c ≡ err e
      → parse p (c ∷ cs) ≡ err e
  unfolding parse
  parse_throws p c cs g e = rw (g, e, parse)

  -- The outcome does not depend on where the input is cut.
  pub parse-append :
      (p : P) (xs ys : Bytes) → parse p (xs ++ ys) ≡ (parse p xs >>= λ r. parse r.0 (r.1 ++ ys))
  parse-append p [] ys = unfold parse in refl
  parse-append p (c ∷ cs) ys = elim (Bool-cases (is_good p)) [
    | inl g ↦ rw (parse_good p (c ∷ cs) g)
    | inr g ↦ after g (consume p c) refl (λ q. parse-append q cs ys)
  ]
    where
      after :
          is_good p ≡ false
          → (m : Result P) → consume p c ≡ m
          → ((q : P) → parse q (cs ++ ys) ≡ (parse q cs >>= λ r. parse r.0 (r.1 ++ ys)))
          → parse p (c ∷ (cs ++ ys)) ≡ (parse p (c ∷ cs) >>= λ r. parse r.0 (r.1 ++ ys))
      after g (ok q) e ih = rw (parse_step p c (cs ++ ys) g e, parse_step p c cs g e) (ih q)
      after g (err x) e ih = rw (parse_throws p c (cs ++ ys) g e, parse_throws p c cs g e)

  -- The unread bytes are the end of the input.
  pub parse_suffix :
      (p : P) {q : P} (cs : Bytes) {rest : Bytes}
      → parse p cs ≡ ok (q, rest)
      → (taken : Bytes) × (cs ≡ taken ++ rest) × ((rest ≡ []) ⊎ (is_good q ≡ true))
  parse_suffix p [] e = ([], unfold parse in ground arith, unfold parse in ground arith)
  parse_suffix p (c ∷ cs) e = elim (Bool-cases (is_good p)) [
    | inl g ↦ ([], ground (arith, parse_good p (c ∷ cs) g), ground (arith, parse_good p (c ∷ cs) g))
    | inr g ↦ after g (consume p c) refl (λ q. parse_suffix q cs) e
  ]
    where
      after :
          {q : P} {rest : Bytes}
          → is_good p ≡ false
          → (m : Result P) → consume p c ≡ m
          → ((p' : P)
              → parse p' cs ≡ ok (q, rest)
              → (taken : Bytes) × (cs ≡ taken ++ rest) × ((rest ≡ []) ⊎ (is_good q ≡ true)))
          → parse p (c ∷ cs) ≡ ok (q, rest)
          → (taken : Bytes) × (c ∷ cs ≡ taken ++ rest) × ((rest ≡ []) ⊎ (is_good q ≡ true))
      after g (ok p') s ih e =
          let (taken, splits, why) = ih p' (rw (parse_step p c cs g s) at e) in
          (c ∷ taken, ap (◌∷◌ c) splits, why)
      after g (err x) s ih e = cc (parse_throws p c cs g s)

  -- What every step keeps, the loop keeps.
  pub parse_keeps :
      (Keeps : P → Type 0)
      → ((p q : P) (c : ℕ) → Keeps p → is_good p ≡ false → consume p c ≡ ok q → Keeps q)
      → (cs : Bytes) (p : P) {q : P} {rest : Bytes} → Keeps p
      → parse p cs ≡ ok (q, rest)
      → Keeps q
  parse_keeps Keeps each [] p {q} k e =
      let same : p ≡ q = unfold parse in ground arith in subst Keeps same k
  parse_keeps Keeps each (c ∷ cs) p {q} {rest} k e = elim (Bool-cases (is_good p)) [
    | inl g ↦ let same : p ≡ q = ground (arith, parse_good p (c ∷ cs) g) in subst Keeps same k
    | inr g ↦ after g (consume p c) refl (λ p' k'. parse_keeps Keeps each cs p' k')
  ]
    where
      after :
          is_good p ≡ false
          → (m : Result P) → consume p c ≡ m
          → ((p' : P) → Keeps p' → parse p' cs ≡ ok (q, rest) → Keeps q)
          → Keeps q
      after g (ok p') s ih = ih p' (each p p' c k g s) (rw (parse_step p c cs g s) at e)
      after g (err x) s ih = cc (parse_throws p c cs g s)

  -- Where every step counts one byte, the loop counts the bytes it takes.
  pub parse_counts :
      (Keeps : P → Type 0) (size : P → ℕ)
      → ((p q : P) (c : ℕ) → Keeps p → consume p c ≡ ok q → Keeps q × (size q ≡ suc (size p)))
      → (cs : Bytes) (p : P) {q : P} {rest : Bytes} → Keeps p
      → parse p cs ≡ ok (q, rest)
      → Keeps q × (size q + length rest ≡ size p + length cs)
  parse_counts Keeps size each [] p {q} {rest} k e =
      let same : p ≡ q = unfold parse in ground arith in
      let none_left : rest ≡ [] = unfold parse in ground arith in
      (subst Keeps same k, rw (none_left, ← same))
  parse_counts Keeps size each (c ∷ cs) p {q} {rest} k e = elim (Bool-cases (is_good p)) [
    | inl g ↦
        let same : p ≡ q = ground (arith, parse_good p (c ∷ cs) g) in
        let all_left : c ∷ cs ≡ rest = ground (arith, parse_good p (c ∷ cs) g) in
        (subst Keeps same k, rw (← all_left, ← same))
    | inr g ↦ after g (consume p c) refl (λ p' k'. parse_counts Keeps size each cs p' k')
  ]
    where
      after :
          is_good p ≡ false
          → (m : Result P) → consume p c ≡ m
          → ((p' : P)
              → Keeps p'
              → parse p' cs ≡ ok (q, rest)
              → Keeps q × (size q + length rest ≡ size p' + length cs))
          → Keeps q × (size q + length rest ≡ size p + length (c ∷ cs))
      after g (ok p') s ih =
          let (k', one) = each p p' c k s in
          let (kept, more) = ih p' k' (rw (parse_step p c cs g s) at e) in
          (kept, omega (arith, one, more))
      after g (err x) s ih = cc (parse_throws p c cs g s)

  -- The second piece of an input, behind a first one that was taken whole, gives what both give.
  pub parse_pieces :
      (p q : P) (xs ys : Bytes) → parse p xs ≡ ok (q, []) → parse p (xs ++ ys) ≡ parse q ys
  parse_pieces p q xs ys e = rw (parse-append p xs ys, e)
