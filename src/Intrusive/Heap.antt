-- ===== src/Intrusive/Heap.antt =====
-- include/crab/intrusive_heap.hpp: IntrusiveHeap, as it is without its health checks.
-- A node is a number that stands for its address. `at` is the vector of addresses, whose slot 0
-- is not used, and `heap_index` is the field that each node has: 0 outside the heap. What a slot
-- past the end holds, or a node that is in another heap, has no meaning.
pub mod Hole
pub mod Order
pub mod Steps
pub mod Api
use mathlib.Core.Option
use crablib.Base.{
  ℕ, zero, suc, ◌+◌, ◌-◌, ◌*◌, ◌/◌, Bool, true, false, not, ◌&&◌, ◌||◌, ltb, leb, ◌==◌,
  if◌then◌else◌, Option, none, some,
}

-- IntrusiveHeap and the IntrusiveHeapIndex of each node.
pub record Heap : Type 0 where
  pub size : ℕ
  pub at : ℕ → ℕ
  pub heap_index : ℕ → ℕ

-- `f[i] = v`
abbrev pub update : (ℕ → ℕ) → ℕ → ℕ → ℕ → ℕ
update f i v j = if j == i then v else f j

-- `std::vector<T *> storage{1, nullptr}`, with no node in the heap.
abbrev pub new : Heap
new = record { size = 1; at = λ _. 0; heap_index = λ _. 0 }

unfoldable pub in_heap : Heap → ℕ → Bool
in_heap h node = not (h.heap_index node == 0)

unfoldable pub is_empty : Heap → Bool
is_empty h = h.size == 1

unfoldable pub front : Heap → ℕ
front h = h.at 1

-- `at(ind) = node; (at(ind)->*Index).heap_index = ind;`
unfoldable pub place : Heap → ℕ → ℕ → Heap
place h ind node = record h { at = update h.at ind node; heap_index = update h.heap_index node ind }

-- The node is marked as gone, the last one takes its slot, and the vector is shorter by one.
unfoldable pub vacate : Heap → ℕ → ℕ → Heap
vacate h ind node = record h {
  size = h.size - 1;
  at = update h.at ind (h.at (h.size - 1));
  heap_index = update h.heap_index node 0;
}

module _ (less : ℕ → ℕ → Bool) where
  -- The loop of move_up; `none` is no result within the rounds given.
  unfoldable pub up_loop : ℕ → Heap → ℕ → ℕ → Option Heap
  up_loop zero h ind node = none
  up_loop (suc rounds) h ind node =
      let p = ind / 2 in
      let rest = up_loop rounds (place h ind (h.at p)) p node in
      if p == 0 || less node (h.at p) then some (place h ind node) else rest

  unfoldable pub move_up : Heap → ℕ → Option Heap
  move_up h ind = up_loop (ind + 1) h ind (h.at ind)

  -- The larger child of `ind`, if there are two.
  unfoldable pub larger_child : Heap → ℕ → ℕ
  larger_child h ind =
      let lc = ind * 2 in
      if ltb (lc + 1) h.size && less (h.at lc) (h.at (lc + 1)) then lc + 1 else lc

  unfoldable pub down_loop : ℕ → Heap → ℕ → ℕ → Option Heap
  down_loop zero h ind node = none
  down_loop (suc rounds) h ind node =
      let lc = larger_child h ind in
      let rest = down_loop rounds (place h ind (h.at lc)) lc node in
      if leb h.size (ind * 2) || less (h.at lc) node then some (place h ind node) else rest

  unfoldable pub move_down : Heap → ℕ → Option Heap
  move_down h ind = down_loop (h.size + 1) h ind (h.at ind)

  unfoldable pub adjust : Heap → ℕ → Option Heap
  adjust h ind =
      if ltb 1 ind && not (less (h.at ind) (h.at (ind / 2))) then move_up h ind else move_down h ind

  -- With the Boolean that the source returns.
  unfoldable pub insert : Heap → ℕ → Option (Heap × Bool)
  insert h node =
      if in_heap h node
      then some (h, false)
      else Option.map (λ r. (r, true))
          (move_up (record h { size = h.size + 1; at = update h.at h.size node }) h.size)

  -- With the number that the source returns.
  unfoldable pub erase : Heap → ℕ → Option (Heap × ℕ)
  erase h node =
      let ind = h.heap_index node in
      let moved = vacate h ind node in
      if ind == 0
      then some (h, 0)
      else Option.map (λ r. (r, 1)) (if ltb ind moved.size then adjust moved ind else some moved)

  -- Called on a heap that is not empty.
  unfoldable pub pop_front : Heap → Option Heap
  pop_front h =
      let moved = vacate h 1 (h.at 1) in if ltb 1 moved.size then move_down moved 1 else some moved
