-- ===== src/Streams/Combined.antt =====
-- CombinedIStream of include/crab/streams.hpp: one stream, and then another.
use crablib.Base.{
  ℕ, ◌+◌, ◌≤◌, ◌≡◌, refl, sym, ap, ◌∙◌, ◌⊎◌, inl, inr, not, [], ◌++◌, arith, ◌==◌, if◌then◌else◌,
  Bool-cases, Result, ok, ◌>>=◌, Bytes, length, take, drop, length-append, take-append, drop-append,
  length_zero,
}
use crablib.Streams.{IStream}
use crablib.Streams.Contract.{IsIStream}

pub record CombinedIStream (A B : Type 0) : Type 0 where
  pub a : A
  pub b : B

module _ {A B : Type 0} (first : IStream A) (second : IStream B) (size_a : A → ℕ)
    (size_b : B → ℕ) where
  unfoldable pub size : CombinedIStream A B → ℕ
  size s = size_a s.a + size_b s.b

  -- `empty()` is `size() == 0`.
  unfoldable pub read_some : CombinedIStream A B → ℕ → Result (Bytes × CombinedIStream A B)
  read_some s count =
      if not (size_a s.a == 0)
      then (first.read_some s.a count >>= λ r. ok (r.0, record s { a = r.1 }))
      else (second.read_some s.b count >>= λ r. ok (r.0, record s { b = r.1 }))

  abbrev pub istream : IStream (CombinedIStream A B)
  istream = record { read_some = read_some }

-- What a combined stream holds, and when its parts are valid.
unfoldable pub contents : {A B : Type 0} → (A → Bytes) → (B → Bytes) → CombinedIStream A B → Bytes
contents contents_a contents_b s = contents_a s.a ++ contents_b s.b

abbrev pub IsValid : {A B : Type 0} → (A → Type 0) → (B → Type 0) → CombinedIStream A B → Type 0
IsValid Valid_a Valid_b s = Valid_a s.a × Valid_b s.b

module _ {A B : Type 0} (first : IStream A) (second : IStream B) (size_a : A → ℕ) (size_b : B → ℕ)
    (contents_a : A → Bytes) (contents_b : B → Bytes) (Valid_a : A → Type 0) (Valid_b : B → Type 0)
    (promise_a : IsIStream first contents_a Valid_a)
    (promise_b : IsIStream second contents_b Valid_b)
    (sizes : (a : A) → Valid_a a → size_a a ≡ length (contents_a a)) where
  -- CombinedIStream::read_some, over two streams that keep IStream's promise, the first of which
  -- knows its size, keeps it too: it gives bytes from the front of the first stream's followed by
  -- the second's, at most as many as asked for, leaves the rest in valid streams, and gives none
  -- only if none is asked for or left.
  pub combined-reads :
      (s : CombinedIStream A B) (count : ℕ)
      → Valid_a s.a
      → Valid_b s.b
      → (n : ℕ) × (r : CombinedIStream A B) × (read_some first second size_a size_b s count
          ≡ ok (take n (contents contents_a contents_b s), r))
        × (contents contents_a contents_b r ≡ drop n (contents contents_a contents_b s))
        × IsValid Valid_a Valid_b r
        × (n ≤ count)
        × (n ≤ length (contents contents_a contents_b s))
        × (n ≡ 0 → (count ≡ 0) ⊎ (contents contents_a contents_b s ≡ []))
  unfolding read_some contents
  combined-reads s count v w = elim (Bool-cases (size_a s.a == 0)) [
    | inl empty ↦
        let none_left : contents_a s.a ≡ [] =
          length_zero (contents_a s.a) (ground (arith, sizes s.a v)) in
        let (n, r, e, left, u, le, lt, stuck) = promise_b.reads s.b count w in
        rw (empty, e, none_left)
          (
            n,
            record s { b = r },
            refl,
            ap (λ (z : Bytes). z ++ contents_b r) none_left ∙ left,
            (v, u),
            le,
            lt,
            stuck,
          )
    | inr more ↦
        let (n, r, e, left, u, le, lt, stuck) = promise_a.reads s.a count v in
        rw (more, e)
          (
            n,
            record s { a = r },
            ap (λ (z : Bytes). ok (z, record s { a = r }))
                (sym (take-append n (contents_a s.a) (contents_b s.b) lt)),
            ap (λ (z : Bytes). z ++ contents_b s.b) left
                ∙ sym (drop-append n (contents_a s.a) (contents_b s.b) lt),
            (u, w),
            le,
            omega (arith, length-append (contents_a s.a) (contents_b s.b)),
            λ z. elim (stuck z) [
              | inl c ↦ inl c
              | inr c ↦ absurd (ground (arith, sizes s.a v, ap length c))
            ],
          )
  ]

  -- Two streams that keep the promise make one that keeps it.
  pub combined-IsIStream :
      IsIStream
        (istream first second size_a size_b)
        (contents contents_a contents_b)
        (IsValid Valid_a Valid_b)
  combined-IsIStream = record { reads = λ s count v. combined-reads s count v.0 v.1 }
