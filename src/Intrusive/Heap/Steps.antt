-- ===== src/Intrusive/Heap/Steps.antt =====
-- The operations of include/crab/intrusive_heap.hpp, case by case.
use mathlib.Core.Option
use crablib.Base.{
  ℕ, ◌+◌, ◌-◌, ◌/◌, ◌<◌, ◌≡◌, refl, inl, inr, Bool, true, false, not, ◌&&◌, ◌||◌, Option, none,
  some, arith, ltb, ◌==◌, Bool-cases,
}
use crablib.Intrusive.Heap.{
  Heap, new, in_heap, is_empty, front, insert, erase, pop_front, vacate, update,
}
use crablib.Intrusive.Heap.Hole.{Hole}
use crablib.Intrusive.Heap.Order.{
  IsOrder, IsHeap, IsBridged, IsAbove, IsBelow, Filled, Fills, move_up-Fills, move_down-Fills,
  adjust-Fills,
}

pub new-IsHeap : (less : ℕ → ℕ → Bool) → IsHeap less new
new-IsHeap less = record {
  linked = record {
    positive = omega arith;
    placed = λ i a b. absurd (omega arith);
    inside = λ x a. absurd (a refl);
    here = λ x a. absurd (a refl);
  };
  edges = λ c a b. absurd (omega arith);
}

-- The heap with one more slot, where `node` stands.
grown : Heap → ℕ → Heap
grown h node = record h { size = h.size + 1; at = update h.at h.size node }

module _ (less : ℕ → ℕ → Bool) (h : Heap) where
  -- The heap of `h` and one node more.
  pub record Inserted (node : ℕ) (r : Heap) : Type 0 where
    pub heap : IsHeap less r
    pub size : r.size ≡ h.size + 1
    pub nodes : (x : ℕ) → in_heap r x ≡ in_heap h x || x == node

  -- The heap of `h` and one node less.
  pub record Removed (node : ℕ) (r : Heap) : Type 0 where
    pub heap : IsHeap less r
    pub size : r.size + 1 ≡ h.size
    pub nodes : (x : ℕ) → in_heap r x ≡ in_heap h x && not (x == node)

module _ (less : ℕ → ℕ → Bool) (order : IsOrder less) (h : Heap) (valid : IsHeap less h) where
  grown-Hole : (node : ℕ) → in_heap h node ≡ false → Hole (grown h node) h.size node
  unfolding grown in_heap
  grown-Hole node out = record {
    positive = valid.linked.positive;
    below = omega arith;
    placed = λ i a b c. ground (arith, valid.linked.placed i);
    other = λ i a b c. ground (arith, valid.linked.placed i);
    inside = λ x a b. ground (arith, valid.linked.inside x);
    away = λ x a b. ground (arith, valid.linked.inside x);
    here = λ x a b. ground (arith, valid.linked.inside x, valid.linked.here x);
  }

  grown-IsBridged : (node : ℕ) → IsBridged less (grown h node) h.size
  unfolding grown
  grown-IsBridged node = record {
    edges = λ c a b e f. ground (arith, valid.edges c);
    across = λ c a b e. absurd (omega arith);
  }

  vacate-Hole :
      (ind node : ℕ)
      → 0 < ind
      → ind < h.size - 1
      → h.at ind ≡ node
      → Hole (vacate h ind node) ind (h.at (h.size - 1))
  unfolding vacate
  vacate-Hole ind node p below here = record {
    positive = p;
    below = below;
    placed = λ i a b c. ground (arith, valid.linked.placed i, valid.linked.placed ind);
    other = λ i a b c. ground (arith, valid.linked.placed i, valid.linked.placed (h.size - 1));
    inside = λ x a b. ground (arith, valid.linked.inside x, valid.linked.here x);
    away = λ x a b. ground (arith, valid.linked.here x);
    here = λ x a b. ground (arith, valid.linked.here x);
  }

  vacate-IsBridged : (ind node : ℕ) → IsBridged less (vacate h ind node) ind
  unfolding vacate
  vacate-IsBridged ind node = record {
    edges = λ c a b e f. ground (arith, valid.edges c);
    across = λ c a b e.
        ground (
          arith,
          valid.edges c,
          valid.edges ind,
          order.through (h.at (ind / 2)) (h.at ind) (h.at c),
        );
  }

  Filled-Inserted :
      (node : ℕ) (r : Heap) → Filled less (grown h node) node r → Inserted less h node r
  unfolding grown in_heap
  Filled-Inserted node r f = record {
    heap = f.heap;
    size = f.size;
    nodes = λ x. ground (arith, f.nodes x);
  }

  move_up-Inserted :
      (node : ℕ)
      → in_heap h node ≡ false
      → (m : Option Heap) → Fills less (grown h node) node m
      → (r : Heap) × (Option.map {B = Heap × Bool} (λ g. (g, true)) m ≡ some (r, true))
        × Inserted less h node r
  move_up-Inserted node out (some r) f = (r, refl, Filled-Inserted node r f)
  move_up-Inserted node out none f = elim f [ ]

  -- insert always ends. It refuses a node that is in the heap, and changes nothing then; every
  -- other node is in the heap afterwards, with the nodes that were, and the heap is in order.
  pub insert_lem :
      (node : ℕ)
      → (r : Heap) × (b : Bool) × (insert less h node ≡ some (r, b))
        × (b ≡ not (in_heap h node))
        × (b ≡ false → r ≡ h)
        × (b ≡ true → Inserted less h node r)
  unfolding insert
  insert_lem node = elim (Bool-cases (in_heap h node)) [
    | inl i ↦ rw i (h, false, refl, refl, (λ _. refl), λ e. absurd (cc))
    | inr o ↦
        let (r, e, i) = move_up-Inserted node o _ (
          move_up-Fills less order (grown h node) h.size node (unfold grown in ground arith)
            (grown-Hole node o) (grown-IsBridged node)
            (unfold IsAbove grown in λ c a b f. absurd (omega arith))) in
        rw o (r, true, (unfold grown in e), refl, (λ e. absurd (cc)), λ _. i)
  ]

  vacate-Removed :
      (ind node : ℕ)
      → ind ≡ h.size - 1
      → 0 < ind
      → h.at ind ≡ node
      → Removed less h node (vacate h ind node)
  unfolding vacate in_heap
  vacate-Removed ind node last p e = record {
    heap = record {
      linked = record {
        positive = omega arith;
        placed = λ i a b. ground (arith, valid.linked.placed i, valid.linked.placed ind);
        inside = λ x a. ground (arith, valid.linked.inside x, valid.linked.here x);
        here = λ x a. ground (arith, valid.linked.here x, valid.linked.inside x);
      };
      edges = λ c a b. ground (arith, valid.edges c);
    };
    size = omega (arith, valid.linked.positive);
    nodes = λ x. ground arith;
  }

  Fills-Removed :
      (ind node : ℕ)
      → 0 < ind
      → ind < h.size - 1
      → h.at ind ≡ node
      → (m : Option Heap) → Fills less (vacate h ind node) (h.at (h.size - 1)) m
      → (r : Heap) × (m ≡ some r) × Removed less h node r
  unfolding vacate in_heap
  Fills-Removed ind node p b e (some r) f = (
    r,
    refl,
    record {
      heap = f.heap;
      size = omega (arith, f.size);
      nodes =
          λ x. ground (arith, f.nodes x, valid.linked.placed (h.size - 1), valid.linked.placed ind);
    },
  )
  Fills-Removed ind node p b e none f = elim f [ ]

  -- erase always ends. It leaves the heap alone where the node is not in it, and returns 0; a node
  -- that is in the heap is not in it afterwards, 1 is returned, and the others stay, in order.
  pub erase_lem :
      (node : ℕ)
      → (r : Heap) × (n : ℕ) × (erase less h node ≡ some (r, n))
        × (in_heap h node ≡ false → (n ≡ 0) × (r ≡ h))
        × (in_heap h node ≡ true → (n ≡ 1) × Removed less h node r)
  unfolding erase
  erase_lem node =
      let ind = h.heap_index node in
      elim (Bool-cases (ind == 0)) [
        | inl i ↦ rw i (h, 0, refl, (λ _. (refl, refl)), λ e. absurd (unfold in_heap in cc))
        | inr o ↦
            let p : 0 < ind = ground arith in
            let here = valid.linked.here node (ground arith) in
            let inside = valid.linked.inside node (ground arith) in
            elim (Bool-cases (ltb ind (vacate h ind node).size)) [
              | inl more ↦
                  let b : ind < h.size - 1 = unfold vacate in ground arith in
                  let (r, e, f) = Fills-Removed ind node p b here _ (
                    adjust-Fills less order (vacate h ind node) ind (h.at (h.size - 1))
                      (unfold vacate in ground arith) (vacate-Hole ind node p b here)
                      (vacate-IsBridged ind node)) in
                  rw (o, more, e) (r, 1, refl, (λ e. absurd (unfold in_heap in cc)), λ _. (refl, f))
              | inr last ↦
                  rw (o, last)
                    (
                      vacate h ind node,
                      1,
                      refl,
                      (λ e. absurd (unfold in_heap in cc)),
                      λ _. (refl, vacate-Removed ind node (unfold vacate in ground arith) p here),
                    )
            ]
      ]

  pub in_heap-front : is_empty h ≡ false → in_heap h (front h) ≡ true
  unfolding is_empty in_heap front
  in_heap-front e = ground (arith, valid.linked.placed 1, valid.linked.positive)

  -- pop_front takes the front and nothing else from a heap that is not empty, and always ends.
  pub pop_front_lem :
      is_empty h ≡ false → (r : Heap) × (pop_front less h ≡ some r) × Removed less h (front h) r
  unfolding pop_front is_empty front
  pop_front_lem e =
      let two : 1 < h.size = ground (arith, valid.linked.positive) in
      elim (Bool-cases (ltb 1 (vacate h 1 (h.at 1)).size)) [
        | inl more ↦
            let b : 1 < h.size - 1 = unfold vacate in ground arith in
            rw more (
              Fills-Removed 1 (h.at 1) (omega arith) b refl _ (
                move_down-Fills less order (vacate h 1 (h.at 1)) 1 (h.at (h.size - 1))
                  (unfold vacate in ground arith) (vacate-Hole 1 (h.at 1) (omega arith) b refl)
                  (vacate-IsBridged 1 (h.at 1)) (unfold IsBelow in λ d. absurd (omega arith))))
        | inr last ↦ rw last (
          vacate h 1 (h.at 1),
          refl,
          vacate-Removed 1 (h.at 1) (unfold vacate in ground arith) (omega arith) refl,
        )
      ]
