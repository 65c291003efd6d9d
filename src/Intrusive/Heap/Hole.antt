-- ===== src/Intrusive/Heap/Hole.antt =====
-- A heap of include/crab/intrusive_heap.hpp with a hole: move_up and move_down carry a node that
-- has no slot yet.
use crablib.Base.{ℕ, ◌<◌, ◌≡◌, ◌≢◌, Bool, ◌==◌, if◌then◌else◌, arith}
use crablib.Intrusive.Heap.{Heap, place, in_heap}

-- Every slot's node knows its slot, and every node that has an index stands there.
pub record IsLinked (h : Heap) : Type 0 where
  pub positive : 0 < h.size
  pub placed : (i : ℕ) → 0 < i → i < h.size → h.heap_index (h.at i) ≡ i
  pub inside : (x : ℕ) → h.heap_index x ≢ 0 → h.heap_index x < h.size
  pub here : (x : ℕ) → h.heap_index x ≢ 0 → h.at (h.heap_index x) ≡ x

-- The same but for the slot `ind`, which is free, and the node `n`, which has none.
pub record Hole (h : Heap) (ind n : ℕ) : Type 0 where
  pub positive : 0 < ind
  pub below : ind < h.size
  pub placed : (i : ℕ) → 0 < i → i < h.size → i ≢ ind → h.heap_index (h.at i) ≡ i
  pub other : (i : ℕ) → 0 < i → i < h.size → i ≢ ind → h.at i ≢ n
  pub inside : (x : ℕ) → x ≢ n → h.heap_index x ≢ 0 → h.heap_index x < h.size
  pub away : (x : ℕ) → x ≢ n → h.heap_index x ≢ 0 → h.heap_index x ≢ ind
  pub here : (x : ℕ) → x ≢ n → h.heap_index x ≢ 0 → h.at (h.heap_index x) ≡ x

module _ (h : Heap) (ind n : ℕ) (o : Hole h ind n) where
  pub place-Hole : (j : ℕ) → 0 < j → j < h.size → j ≢ ind → Hole (place h ind (h.at j)) j n
  unfolding place
  place-Hole j pos below apart = record {
    positive = pos;
    below = below;
    placed = λ i a b c. ground (arith, o.placed i, o.placed j, o.positive);
    other = λ i a b c. ground (arith, o.other i, o.other j);
    inside = λ x a b. ground (arith, o.inside x, o.below);
    away = λ x a b. ground (arith, o.inside x, o.here x, o.away x, o.positive);
    here = λ x a b. ground (arith, o.here x, o.away x);
  }

  pub place-IsLinked : IsLinked (place h ind n)
  unfolding place
  place-IsLinked = record {
    positive = omega (arith, o.positive, o.below);
    placed = λ i a b. ground (arith, o.placed i, o.other i);
    inside = λ x a. ground (arith, o.inside x, o.below);
    here = λ x a. ground (arith, o.here x, o.away x);
  }

  pub in_heap-place :
      (j x : ℕ) → 0 < j → j < h.size → j ≢ ind → in_heap (place h ind (h.at j)) x ≡ in_heap h x
  unfolding place in_heap
  in_heap-place j x a b c = ground (arith, o.placed j, o.positive)

  pub in_heap-place_last :
      (x : ℕ) → in_heap (place h ind n) x ≡ (if x == n then Bool.true else in_heap h x)
  unfolding place in_heap
  in_heap-place_last x = ground (arith, o.positive)
