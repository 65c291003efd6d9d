-- ===== src/Intrusive/Heap/Order.antt =====
-- The order of a heap of include/crab/intrusive_heap.hpp: no node is less than one below it.
use crablib.Base.{
  ℕ, zero, suc, ◌+◌, ◌*◌, ◌/◌, ◌<◌, ◌≡◌, refl, ◌≢◌, ◌⊎◌, inl, inr, Bool, true, false, not, ◌&&◌,
  ◌||◌, Option, none, some, arith, ltb, leb, ◌==◌, if◌then◌else◌, Bool-cases,
}
use crablib.Intrusive.Heap.{
  Heap, place, in_heap, larger_child, up_loop, down_loop, move_up, move_down, adjust,
}
use crablib.Intrusive.Heap.Hole.{
  IsLinked, Hole, place-Hole, place-IsLinked, in_heap-place, in_heap-place_last,
}

-- What the comparison must be: a strict weak order, as the standard library asks.
pub record IsOrder (less : ℕ → ℕ → Bool) : Type 0 where
  pub asym : (a b : ℕ) → less a b ≡ true → less b a ≡ false
  pub through : (a b c : ℕ) → less a b ≡ false → less b c ≡ false → less a c ≡ false

module _ (less : ℕ → ℕ → Bool) where
  -- The invariant of a heap: its links and its order.
  pub record IsHeap (h : Heap) : Type 0 where
    pub linked : IsLinked h
    pub edges : (c : ℕ) → 1 < c → c < h.size → less (h.at (c / 2)) (h.at c) ≡ false

  -- The edges that do not touch the hole, and those that go across it.
  pub record IsBridged (h : Heap) (ind : ℕ) : Type 0 where
    pub edges :
        (c : ℕ) → 1 < c → c < h.size → c ≢ ind → c / 2 ≢ ind → less (h.at (c / 2)) (h.at c) ≡ false
    pub across :
        (c : ℕ) → 1 < ind → c < h.size → c / 2 ≡ ind → less (h.at (ind / 2)) (h.at c) ≡ false

  -- The node that is carried is not less than the nodes below the hole.
  unfoldable pub IsAbove : Heap → ℕ → ℕ → Type 0
  IsAbove h ind n = (c : ℕ) → 1 < c → c < h.size → c / 2 ≡ ind → less n (h.at c) ≡ false

  unfoldable pub IsBelow : Heap → ℕ → ℕ → Type 0
  IsBelow h ind n = 1 < ind → less (h.at (ind / 2)) n ≡ false

  -- A heap of the same size with the nodes of `h`, and `n`.
  pub record Filled (h : Heap) (n : ℕ) (r : Heap) : Type 0 where
    pub heap : IsHeap r
    pub size : r.size ≡ h.size
    pub nodes : (x : ℕ) → in_heap r x ≡ (if x == n then true else in_heap h x)

  -- A run that ends, in such a heap.
  abbrev pub Fills : Heap → ℕ → Option Heap → Type 0
  Fills h n (some r) = Filled h n r
  Fills h n none = ⊥

  module _ (order : IsOrder less) (h : Heap) (ind n : ℕ) (hole : Hole h ind n)
      (bridged : IsBridged h ind) where
    pub place-Filled : IsAbove h ind n → IsBelow h ind n → Filled h n (place h ind n)
    unfolding IsAbove IsBelow
    place-Filled above below = record {
      heap = record {
        linked = place-IsLinked h ind n hole;
        edges = λ c a b. unfold place in ground (arith, above c, below, bridged.edges c);
      };
      size = unfold place in refl;
      nodes = λ x. in_heap-place_last h ind n hole x;
    }

    pub up-IsBridged : 1 < ind → IsBridged (place h ind (h.at (ind / 2))) (ind / 2)
    unfolding place
    up-IsBridged deep = record {
      edges = λ c a b e f. ground (arith, bridged.edges c, bridged.across c);
      across = λ c a b e. ground (
        arith,
        bridged.edges (ind / 2),
        bridged.edges c,
        order.through (h.at (ind / 2 / 2)) (h.at (ind / 2)) (h.at c),
      );
    }

    pub up-IsAbove :
        1 < ind
        → less n (h.at (ind / 2)) ≡ false
        → IsAbove (place h ind (h.at (ind / 2))) (ind / 2) n
    unfolding place IsAbove
    up-IsAbove deep e c a b f =
        ground (arith, bridged.edges c, order.through n (h.at (ind / 2)) (h.at c))

  -- Filling a heap that was itself reached by a step is filling the first one.
  pub Fills-step :
      (h : Heap) (ind n j : ℕ)
      → Hole h ind n
      → 0 < j
      → j < h.size
      → j ≢ ind
      → (r : Option Heap) → Fills (place h ind (h.at j)) n r
      → Fills h n r
  unfolding place
  Fills-step h ind n j hole a b c (some r) f = record {
    heap = f.heap;
    size = f.size;
    nodes = λ x. ground (arith, f.nodes x, in_heap-place h ind n hole j x);
  }
  Fills-step h ind n j hole a b c none f = f

  module _ (order : IsOrder less) where
    pub up_loop-Fills :
        (rounds : ℕ) (h : Heap) (ind n : ℕ)
        → ind < rounds
        → Hole h ind n
        → IsBridged h ind
        → IsAbove h ind n
        → Fills h n (up_loop less rounds h ind n)
    unfolding up_loop
    up_loop-Fills zero h ind n f hole bridged above = absurd (omega arith)
    up_loop-Fills (suc k) h ind n f hole bridged above =
        elim (Bool-cases (ind / 2 == 0 || less n (h.at (ind / 2)))) [
          | inl stop ↦ rw stop (
              place-Filled order h ind n hole bridged above
                (unfold IsBelow in λ d. ground (arith, order.asym n (h.at (ind / 2)))))
          | inr go ↦ rw go (
              Fills-step h ind n (ind / 2) hole (ground arith) (ground (arith, hole.below))
                (ground arith) _
                (up_loop-Fills k (place h ind (h.at (ind / 2))) (ind / 2) n (ground arith)
                  (place-Hole h ind n hole (ind / 2) (ground arith) (ground (arith, hole.below))
                    (ground arith))
                  (up-IsBridged order h ind n hole bridged (ground arith))
                  (up-IsAbove order h ind n hole bridged (ground arith) (ground arith))))
        ]

    larger_child_lem :
        (h : Heap) (ind : ℕ)
        → 0 < ind
        → ind * 2 < h.size
        → let lc = larger_child less h ind in
          (ind < lc)
          × (lc < h.size)
          × (lc / 2 ≡ ind)
          × ((c : ℕ) → c < h.size → c / 2 ≡ ind → less (h.at lc) (h.at c) ≡ false)
    unfolding larger_child
    larger_child_lem h ind p b = (
      ground arith,
      ground arith,
      ground arith,
      λ c a e.
          let two : (c ≡ ind * 2) ⊎ (c ≡ ind * 2 + 1) = omega arith in
          let self = λ (x : ℕ). elim (Bool-cases (less x x)) as (λ _. less x x ≡ false) [
            | inl t ↦ order.asym x x t
            | inr f ↦ f
          ] in
          ground (
            arith,
            order.asym (h.at (ind * 2)) (h.at (ind * 2 + 1)),
            self (h.at (ind * 2)),
            self (h.at (ind * 2 + 1)),
          ),
    )

    module _ (h : Heap) (ind n lc : ℕ) (hole : Hole h ind n) (bridged : IsBridged h ind)
        (deep : ind < lc) (child : lc / 2 ≡ ind) (inner : lc < h.size)
        (max : (c : ℕ) → c < h.size → c / 2 ≡ ind → less (h.at lc) (h.at c) ≡ false) where
      down-IsBridged : IsBridged (place h ind (h.at lc)) lc
      unfolding place
      down-IsBridged = record {
        edges =
            λ c a b e f. ground (arith, bridged.edges c, bridged.across lc, max c, hole.positive);
        across = λ c a b e. ground (arith, bridged.edges c, hole.positive);
      }

      down-IsBelow : less (h.at lc) n ≡ false → IsBelow (place h ind (h.at lc)) lc n
      unfolding place IsBelow
      down-IsBelow e a = ground arith

    pub down_loop-Fills :
        (rounds : ℕ) (h : Heap) (ind n : ℕ)
        → h.size < ind + rounds
        → Hole h ind n
        → IsBridged h ind
        → IsBelow h ind n
        → Fills h n (down_loop less rounds h ind n)
    unfolding down_loop
    down_loop-Fills zero h ind n f hole bridged below = absurd (omega (arith, hole.below))
    down_loop-Fills (suc k) h ind n f hole bridged below =
        let lc = larger_child less h ind in
        elim (Bool-cases (leb h.size (ind * 2) || less (h.at lc) n)) [
          | inl stop ↦ rw stop (
              place-Filled order h ind n hole bridged
                (unfold IsAbove in
                  λ c a b e.
                    let (deep, inner, child, max) =
                      larger_child_lem h ind hole.positive (omega arith) in
                    ground
                      (arith, order.asym (h.at lc) n, max c, order.through n (h.at lc) (h.at c)))
                below)
          | inr go ↦
              let (deep, inner, child, max) = larger_child_lem h ind hole.positive (ground arith) in
              rw go (
                Fills-step h ind n lc hole (omega arith) inner (omega arith) _ (
                  down_loop-Fills k (place h ind (h.at lc)) lc n (unfold place in omega arith)
                    (place-Hole h ind n hole lc (omega arith) inner (omega arith))
                    (down-IsBridged h ind n lc hole bridged deep child inner max)
                    (down-IsBelow h ind n lc hole bridged deep child inner max (ground arith))))
        ]

    module _ (h : Heap) (ind n : ℕ) (e : h.at ind ≡ n) (hole : Hole h ind n)
        (bridged : IsBridged h ind) where
      pub move_up-Fills : IsAbove h ind n → Fills h n (move_up less h ind)
      unfolding move_up
      move_up-Fills above = rw e (up_loop-Fills (ind + 1) h ind n (omega arith) hole bridged above)

      pub move_down-Fills : IsBelow h ind n → Fills h n (move_down less h ind)
      unfolding move_down
      move_down-Fills below =
          rw e
            (down_loop-Fills (h.size + 1) h ind n (omega (arith, hole.positive)) hole bridged below)

      pub adjust-Fills : Fills h n (adjust less h ind)
      unfolding adjust
      adjust-Fills = elim (Bool-cases (ltb 1 ind && not (less (h.at ind) (h.at (ind / 2))))) [
        | inl up ↦ rw up (
            move_up-Fills (
              unfold IsAbove in
              λ c a b f.
                ground (arith, bridged.across c, order.through n (h.at (ind / 2)) (h.at c))))
        | inr down ↦
            rw down (
              move_down-Fills
                (unfold IsBelow in λ d. ground (arith, order.asym n (h.at (ind / 2)))))
      ]
