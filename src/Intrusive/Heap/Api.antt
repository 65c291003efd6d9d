-- ===== src/Intrusive/Heap/Api.antt =====
-- What the operations of include/crab/intrusive_heap.hpp do to the set of nodes that a heap is.
use mathlib.Core.Path.{subst}
use crablib.Base.{
  ℕ, zero, suc, ◌+◌, ◌/◌, ◌<◌, ◌≡◌, refl, sym, ap, inl, inr, Bool, true, false, not, ◌&&◌, ◌||◌,
  some, arith, ltb, ◌==◌, if◌then◌else◌, Bool-cases,
}
use crablib.Intrusive.Heap.{Heap, in_heap, is_empty, front, insert, erase, pop_front}
use crablib.Intrusive.Heap.Order.{IsOrder, IsHeap}
use crablib.Intrusive.Heap.Steps.{Removed, insert_lem, erase_lem, in_heap-front, pop_front_lem}

module _ (less : ℕ → ℕ → Bool) (order : IsOrder less) (h : Heap) (valid : IsHeap less h) where
  -- No node is above the front, by induction on its slot.
  front_slot : (rounds i : ℕ) → i < rounds → 0 < i → i < h.size → less (h.at 1) (h.at i) ≡ false
  front_slot zero i f p b = absurd (omega arith)
  front_slot (suc k) i f p b = elim (Bool-cases (ltb i 2)) [
    | inl one ↦
        let self = λ (x : ℕ). elim (Bool-cases (less x x)) as (λ _. less x x ≡ false) [
          | inl t ↦ order.asym x x t
          | inr f ↦ f
        ] in
        ground (arith, self (h.at 1))
    | inr deep ↦
        order.through (h.at 1) (h.at (i / 2)) (h.at i)
          (front_slot k (i / 2) (ground arith) (ground arith) (ground arith))
          (valid.edges i (ground arith) b)
  ]

  pub front_lem : (x : ℕ) → in_heap h x ≡ true → less (front h) x ≡ false
  unfolding front in_heap
  front_lem x i = rw (sym (valid.linked.here x (ground arith))) (
      front_slot (h.heap_index x + 1) (h.heap_index x) (omega arith) (ground arith)
        (valid.linked.inside x (ground arith)))

  -- On a heap in order that is not empty, under a strict weak order, pop_front always ends, with a
  -- heap in order of the nodes that were less the front and a vector shorter by one. The front was
  -- in the heap, and was less than no node there.
  pub pop_front-front :
      is_empty h ≡ false
      → (r : Heap) × (pop_front less h ≡ some r)
        × Removed less h (front h) r
        × (in_heap h (front h) ≡ true)
        × ((x : ℕ) → (in_heap h x && less (front h) x) ≡ false)
  pop_front-front e =
      let (r, p, m) = pop_front_lem less order h valid e in
      (
        r,
        p,
        m,
        in_heap-front less order h valid e,
        λ x. elim (Bool-cases (in_heap h x)) [
          | inl i ↦ ground (arith, front_lem x)
          | inr o ↦ ground arith
        ],
      )

  -- On a heap in order, under a strict weak order, insert always ends, with a heap in order of the
  -- nodes that were and the one inserted. It returns whether the node was not in the heap, and the
  -- vector is longer by one just then.
  pub insert-in_heap :
      (node : ℕ)
      → (r : Heap) × (insert less h node ≡ some (r, not (in_heap h node)))
        × IsHeap less r
        × (r.size ≡ h.size + (if in_heap h node then 0 else 1))
        × ((x : ℕ) → in_heap r x ≡ in_heap h x || x == node)
  insert-in_heap node =
      let (r, b, e, tells, same, more) = insert_lem less order h valid node in
      elim (Bool-cases (in_heap h node)) [
        | inl i ↦
            let s : r ≡ h = same (ground (arith, tells)) in
            (
              r,
              cc,
              subst (IsHeap less) (sym s) valid,
              ground (arith, ap (λ (g : Heap). g.size) s),
              λ x. rw s (elim (Bool-cases (x == node)) [
                | inl y ↦ let y' : x ≡ node = ground arith in rw y' (ground arith)
                | inr y ↦ ground arith
              ]),
            )
        | inr o ↦
            let m = more (ground (arith, tells)) in (r, cc, m.heap, ground (arith, m.size), m.nodes)
      ]

  -- On a heap in order, under a strict weak order, erase always ends, with a heap in order of the
  -- nodes that were less the one erased. It returns 1, and the vector is shorter by one, where the
  -- node was in the heap, and 0 where it was not.
  pub erase-in_heap :
      (node : ℕ)
      → (r : Heap) × (erase less h node ≡ some (r, (if in_heap h node then 1 else 0)))
        × IsHeap less r
        × (r.size + (if in_heap h node then 1 else 0) ≡ h.size)
        × ((x : ℕ) → in_heap r x ≡ in_heap h x && not (x == node))
  erase-in_heap node =
      let (r, n, e, out, inside) = erase_lem less order h valid node in
      elim (Bool-cases (in_heap h node)) [
        | inr o ↦
            let (z, s) = out o in
            (
              r,
              rw (o, e, z) refl,
              subst (IsHeap less) (sym s) valid,
              ground (arith, ap (λ (g : Heap). g.size) s),
              λ x. rw s (elim (Bool-cases (x == node)) [
                | inl y ↦ let y' : x ≡ node = ground arith in rw y' (ground arith)
                | inr y ↦ ground arith
              ]),
            )
        | inl i ↦
            let (z, m) = inside i in (r, rw (i, e, z) refl, m.heap, ground (arith, m.size), m.nodes)
      ]
