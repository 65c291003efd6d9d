-- ===== src/Intrusive/Ring/Contents.antt =====
-- The nodes of an IntrusiveList of include/crab/intrusive_list.hpp, in order.
use crablib.Base.{
  ℕ, ◌≡◌, ◌≢◌, refl, sym, ap, ◌∙◌, false, List, [], ◌∷◌, ◌++◌, arith, ◌==◌, if◌then◌else◌,
  Bool-cases, inl, inr,
}
use crablib.Intrusive.Ring.{Links, store, in_list, unlink, insert}

-- The links of all nodes agree in both directions.
pub record IsLinked (s : Links) : Type 0 where
  pub forth : (n : ℕ) → s.prev n ≢ 0 → s.prev (s.next n) ≡ n
  pub hither : (n : ℕ) → s.prev n ≢ 0 → s.next (s.prev n) ≡ n
  pub alone : (n : ℕ) → s.prev n ≡ 0 → s.next n ≡ 0
  pub null : s.prev 0 ≡ 0

-- From the node `a` the links lead through these nodes to `b`.
abbrev pub Leads : Links → ℕ → List ℕ → ℕ → Type 0
Leads s a [] b = s.next a ≡ b
Leads s a (x ∷ xs) b = (s.next a ≡ x) × ((x ≢ b) × Leads s x xs b)

-- The node behind a node of a list is in a list.
pub after_in_list : (s : Links) → IsLinked s → (a : ℕ) → s.prev a ≢ 0 → s.prev (s.next a) ≢ 0
after_in_list s v a h e = h (ap s.prev (sym (v.forth a h) ∙ e) ∙ v.null)

module _ (s : Links) (v : IsLinked s) (pos other : ℕ) (p : s.prev pos ≢ 0)
    (f : s.prev other ≡ 0) where
  pub insert-next :
      (a : ℕ)
      → (insert s pos other).next a
        ≡ (if a == pos then other else if a == other then s.next pos else s.next a)
  unfolding insert in_list store
  insert-next a = rw f refl

  pub insert-prev :
      (a : ℕ)
      → (insert s pos other).prev a
        ≡ (if a == s.next pos then other else if a == other then pos else s.prev a)
  unfolding insert in_list store
  insert-prev a = rw f (ground arith)

  insert-forth :
      other ≢ 0
      → (n : ℕ) → (insert s pos other).prev n ≢ 0
      → (insert s pos other).prev ((insert s pos other).next n) ≡ n
  insert-forth o n h = ground (
    arith,
    insert-next n,
    insert-prev n,
    insert-prev other,
    insert-prev (s.next n),
    insert-prev (s.next pos),
    v.forth n,
    v.forth pos p,
    v.hither other,
    v.alone n,
    after_in_list s v n,
  )

  insert-hither :
      other ≢ 0
      → (n : ℕ) → (insert s pos other).prev n ≢ 0
      → (insert s pos other).next ((insert s pos other).prev n) ≡ n
  insert-hither o n h = ground (
    arith,
    insert-prev n,
    insert-next other,
    insert-next pos,
    insert-next (s.prev n),
    v.forth pos p,
    v.hither n,
    v.alone other f,
    v.null,
  )

  pub insert-IsLinked : other ≢ 0 → IsLinked (insert s pos other)
  insert-IsLinked o = record {
    forth = insert-forth o;
    hither = insert-hither o;
    alone = λ n e. ground (arith, insert-prev n, insert-next n, v.alone n, p);
    null = ground (arith, insert-prev 0, v.null, after_in_list s v pos p);
  }

  -- Taking out a node that was put in gives back all links.
  unlink-insert :
      other ≢ 0
      → (n : ℕ)
      → ((unlink (insert s pos other) other).next n ≡ s.next n)
        × ((unlink (insert s pos other) other).prev n ≡ s.prev n)
  unfolding unlink in_list store
  unlink-insert o n = ground (
    arith,
    insert-prev other,
    insert-next other,
    insert-prev n,
    insert-next n,
    v.forth pos p,
    v.alone other f,
  )

  -- Away from the place, the links lead on as before.
  insert-Leads :
      (a : ℕ) (xs : List ℕ)
      → s.prev a ≢ 0
      → a ≢ pos
      → Leads s a xs pos
      → Leads (insert s pos other) a xs pos
  insert-Leads a [] h n e = ground (arith, insert-next a)
  insert-Leads a (x ∷ xs) h n (e, (d, l)) = (
    ground (arith, insert-next a),
    (d, insert-Leads x xs (λ z. after_in_list s v a h (ap s.prev e ∙ z)) d l),
  )

  pub insert-front :
      other ≢ 0
      → (xs : List ℕ) → Leads s pos xs pos
      → Leads (insert s pos other) pos (other ∷ xs) pos
  insert-front o [] e =
      (ground (arith, insert-next pos), (ground arith, ground (arith, insert-next other)))
  insert-front o (x ∷ xs) (e, (d, l)) = (
    ground (arith, insert-next pos),
    (
      ground arith,
      (
        ground (arith, insert-next other),
        (d, insert-Leads x xs (λ z. after_in_list s v pos p (ap s.prev e ∙ z)) d l),
      ),
    ),
  )

  pub insert-back :
      (b a : ℕ) (xs : List ℕ)
      → s.next pos ≡ b
      → s.prev b ≢ 0
      → s.prev a ≢ 0
      → Leads s a xs b
      → Leads (insert s pos other) a (xs ++ other ∷ []) b
  insert-back b a [] c i h e = (
    ground (arith, insert-next a, v.forth a h, v.forth pos p),
    (ground arith, ground (arith, insert-next other)),
  )
  insert-back b a (x ∷ xs) c i h (e, (d, l)) = (
    ground (arith, insert-next a),
    (d, insert-back b x xs c i (λ z. after_in_list s v a h (ap s.prev e ∙ z)) l),
  )

abbrev pub without : ℕ → List ℕ → List ℕ
without node [] = []
without node (x ∷ xs) = if x == node then without node xs else x ∷ without node xs

module _ (s : Links) (v : IsLinked s) (node : ℕ) (h : s.prev node ≢ 0) where
  unlink-next :
      (a : ℕ)
      → (unlink s node).next a
        ≡ (if a == node then 0 else if a == s.prev node then s.next node else s.next a)
  unfolding unlink in_list store
  unlink-next a = ground arith

  pub unlink-prev :
      (a : ℕ)
      → (unlink s node).prev a
        ≡ (if a == node then 0 else if a == s.next node then s.prev node else s.prev a)
  unfolding unlink in_list store
  unlink-prev a = ground arith

  pub unlink_in-IsLinked : IsLinked (unlink s node)
  unlink_in-IsLinked = record {
    forth = λ n e. ground (
      arith,
      unlink-next n,
      unlink-prev n,
      unlink-prev (s.next n),
      unlink-prev (s.next node),
      v.forth n,
      v.forth node h,
      v.hither node h,
      v.hither n,
      v.null,
    );
    hither = λ n e. ground (
      arith,
      unlink-prev n,
      unlink-next n,
      unlink-next (s.prev n),
      unlink-next (s.prev node),
      v.forth n,
      v.forth node h,
      v.hither node h,
      v.hither n,
      v.null,
    );
    alone = λ n e. ground (
      arith,
      unlink-prev n,
      unlink-next n,
      v.alone n,
      v.forth n,
      v.forth node h,
      v.hither node h,
      v.null,
    );
    null = ground (arith, unlink-prev 0, v.null, v.forth node h);
  }

  pub unlink_in-Leads :
      (a b : ℕ) (xs : List ℕ)
      → s.prev a ≢ 0
      → a ≢ node
      → b ≢ node
      → Leads s a xs b
      → Leads (unlink s node) a (without node xs) b
  unlink_in-Leads a b [] i n m e = ground (arith, unlink-next a, v.hither node h)
  unlink_in-Leads a b (x ∷ []) i n m (e, (d, l)) = elim (Bool-cases (x == node)) [
    | inl q ↦ rw q (ground (arith, unlink-next a, v.forth a i))
    | inr q ↦ rw q (
      ground (arith, unlink-next a, v.hither node h),
      (d, ground (arith, unlink-next x, v.hither node h)),
    )
  ]
  unlink_in-Leads a b (x ∷ y ∷ ys) i n m (e, (d, (f, (g, l)))) =
      let x_in : s.prev x ≢ 0 = λ z. after_in_list s v a i (ap s.prev e ∙ z) in
      let y_in : s.prev y ≢ 0 = λ z. after_in_list s v x x_in (ap s.prev f ∙ z) in
      elim (Bool-cases (x == node)) [
        | inl q ↦
            let other : (y == node) ≡ false = ground (arith, v.forth a i, v.forth x x_in) in
            rw (q, other)
              (
                ground (arith, unlink-next a, v.forth a i),
                (g, unlink_in-Leads y b ys y_in (ground arith) m l),
              )
        | inr q ↦ rw q (
          ground (arith, unlink-next a, v.hither node h),
          (d, unlink_in-Leads x b (y ∷ ys) x_in (ground arith) m (f, (g, l))),
        )
      ]
