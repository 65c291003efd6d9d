-- ===== src/Tests/Heaps.antt =====
-- Tests and instances for the intrusive heap and the timers.
use crablib.Base.{
  ℕ, ◌+◌, min, ◌≡◌, refl, true, false, not, ◌&&◌, ◌||◌, some, arith, ltb, ◌==◌, if◌then◌else◌,
}
use crablib.Intrusive.Heap
use crablib.Intrusive.Heap.{Heap}
use crablib.Intrusive.Heap.Order.{IsOrder, IsHeap}
use crablib.Intrusive.Heap.Api.{insert-in_heap, erase-in_heap, pop_front-front}
use crablib.Intrusive.Heap.Steps.{Removed}
use crablib.Network.Timer.{
  Timers, Processed, initial, once_at, once, process_timer, max_sleep_ms, heap_pred,
}
use crablib.Network.Timer.Deadlines.{deadline}
use crablib.Network.Timer.Reach.{
  Reachable, start, set, Reachable-IsHeap, deadline-once_at, deadline-once, process_timer-Outcome,
  Outcome,
}

-- Nodes in the order of their numbers.
ltb-IsOrder : IsOrder ltb
ltb-IsOrder = record { asym = λ a b p. ground arith; through = λ a b c p q. ground arith }

-- 9 above 3 and 5.
abbrev three : Heap
three = record {
  size = 4;
  at = λ i. if i == 1 then 9 else if i == 2 then 3 else if i == 3 then 5 else 0;
  heap_index = λ x. if x == 9 then 1 else if x == 3 then 2 else if x == 5 then 3 else 0;
}

three-IsHeap : IsHeap ltb three
three-IsHeap = record {
  linked = record {
    positive = omega arith;
    placed = λ i a b. ground arith;
    inside = λ x a. ground arith;
    here = λ x a. ground arith;
  };
  edges = λ c a b. ground arith;
}

insert-in_heap_example :
    (r : Heap) × (Heap.insert ltb three 7 ≡ some (r, not (Heap.in_heap three 7)))
    × IsHeap ltb r
    × (r.size ≡ 4 + (if Heap.in_heap three 7 then 0 else 1))
    × ((x : ℕ) → Heap.in_heap r x ≡ Heap.in_heap three x || x == 7)
insert-in_heap_example = insert-in_heap ltb ltb-IsOrder three three-IsHeap 7

erase-in_heap_example :
    (r : Heap) × (Heap.erase ltb three 9 ≡ some (r, (if Heap.in_heap three 9 then 1 else 0)))
    × IsHeap ltb r
    × (r.size + (if Heap.in_heap three 9 then 1 else 0) ≡ 4)
    × ((x : ℕ) → Heap.in_heap r x ≡ Heap.in_heap three x && not (x == 9))
erase-in_heap_example = erase-in_heap ltb ltb-IsOrder three three-IsHeap 9

three_not_empty : Heap.is_empty three ≡ false
unfolding Heap.is_empty
three_not_empty = refl

pop_front-front_example :
    (r : Heap) × (Heap.pop_front ltb three ≡ some r)
    × Removed ltb three (Heap.front three) r
    × (Heap.in_heap three (Heap.front three) ≡ true)
    × ((x : ℕ) → (Heap.in_heap three x && ltb (Heap.front three) x) ≡ false)
pop_front-front_example = pop_front-front ltb ltb-IsOrder three three-IsHeap three_not_empty

-- One timer, number 4, is set to the time 100.
first_set :
    (r : Timers) × (once_at initial 4 100 ≡ some r)
    × ((x : ℕ) → deadline r x ≡ (if x == 4 then some 100 else deadline initial x))
first_set = deadline-once_at initial start 4 100

one_timer : Timers
one_timer = first_set.0

one_timer-Reachable : Reachable one_timer
unfolding one_timer
one_timer-Reachable = set 4 100 start first_set.1

Reachable-IsHeap_example : IsHeap (heap_pred one_timer.fire_time) one_timer.active_timers
Reachable-IsHeap_example = Reachable-IsHeap one_timer one_timer-Reachable

deadline-once_at_example :
    (r : Timers) × (once_at one_timer 4 150 ≡ some r)
    × ((x : ℕ) → deadline r x ≡ (if x == 4 then some 150 else deadline one_timer x))
deadline-once_at_example = deadline-once_at one_timer one_timer-Reachable 4 150

deadline-once_example :
    (r : Timers) × (once 1000 one_timer 6 990 50 ≡ some r)
    × ((x : ℕ)
        → deadline r x ≡ (if x == 6 then some (min (990 + 50) 1000) else deadline one_timer x))
deadline-once_example = deadline-once one_timer one_timer-Reachable 1000 6 990 50 (omega arith)

process_timer-Outcome_example :
    (r : Processed) × (process_timer one_timer 120 max_sleep_ms ≡ some r)
    × Outcome one_timer 120 r.timers r.timeout_ms r.called
process_timer-Outcome_example = process_timer-Outcome one_timer one_timer-Reachable 120
