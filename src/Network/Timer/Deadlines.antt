-- ===== src/Network/Timer/Deadlines.antt =====
-- The timers of include/crab/network.hxx as a map from the timers that are set to the time at
-- which each is to be called.
use mathlib.Core.Option
use crablib.Base.{
  ℕ, ◌/◌, ◌≤◌, ◌≡◌, refl, ap, inl, inr, true, false, not, ◌&&◌, ◌||◌, Option, none, some, arith,
  leb, ◌==◌, if◌then◌else◌, Bool-cases,
}
use crablib.Intrusive.Heap
use crablib.Intrusive.Heap.{Heap}
use crablib.Intrusive.Heap.Order.{IsOrder, IsHeap}
use crablib.Intrusive.Heap.Api.{front_lem}
use crablib.Intrusive.Heap.Steps.{Removed, insert_lem, erase_lem, pop_front_lem, new-IsHeap}
use crablib.Network.Timer.{
  Timers, initial, heap_pred, is_set, assign, cancel, insert, pop_front, once_at, reschedule,
}

pub heap_pred-IsOrder : (fire_time : ℕ → ℕ) → IsOrder (heap_pred fire_time)
unfolding heap_pred
heap_pred-IsOrder f = record { asym = λ a b p. ground arith; through = λ a b c p q. ground arith }

-- The time at which a timer is to be called, if it is set.
unfoldable pub deadline : Timers → ℕ → Option ℕ
deadline s timer = if is_set s timer then some (s.moved_fire_time timer) else none

-- The heap is in order, and a timer that is set was moved to a later time at most.
pub record IsTimers (s : Timers) : Type 0 where
  pub heap : IsHeap (heap_pred s.fire_time) s.active_timers
  pub moved : (x : ℕ) → is_set s x ≡ true → s.fire_time x ≤ s.moved_fire_time x

pub initial-IsTimers : IsTimers initial
unfolding is_set crablib.Intrusive.Heap.in_heap
initial-IsTimers = record { heap = new-IsHeap _; moved = λ x e. absurd (ground arith) }

-- A timer that is not set may get another time.
refire :
    (s : Timers) (timer time : ℕ)
    → is_set s timer ≡ false
    → IsHeap (heap_pred s.fire_time) s.active_timers
    → IsHeap (heap_pred (assign s.fire_time timer time)) s.active_timers
unfolding is_set heap_pred crablib.Intrusive.Heap.in_heap
refire s timer time out h = record {
  linked = h.linked;
  edges = λ c a b. ground (arith, h.edges c a b, h.linked.placed c, h.linked.placed (c / 2));
}

-- What follows a step that takes `timer` out of the map.
pub record Unset (s : Timers) (timer : ℕ) (r : Timers) : Type 0 where
  pub valid : IsTimers r
  pub size : r.active_timers.size ≤ s.active_timers.size
  pub fires : r.fire_time ≡ s.fire_time
  pub moves : r.moved_fire_time ≡ s.moved_fire_time
  pub sets : (x : ℕ) → is_set r x ≡ is_set s x && not (x == timer)

Removed-Unset :
    (s : Timers)
    → IsTimers s
    → (timer : ℕ) (h : Heap) → Removed (heap_pred s.fire_time) s.active_timers timer h
    → Unset s timer (record s { active_timers = h })
unfolding is_set
Removed-Unset s v timer h r = record {
  valid = record { heap = r.heap; moved = λ x e. ground (arith, v.moved x, r.nodes x) };
  size = omega (arith, r.size);
  fires = refl;
  moves = refl;
  sets = λ x. r.nodes x;
}

module _ (s : Timers) (v : IsTimers s) where
  pub cancel_lem : (timer : ℕ) → (r : Timers) × (cancel s timer ≡ some r) × Unset s timer r
  unfolding cancel is_set
  cancel_lem timer =
      let (h, n, e, out, inside) =
        erase_lem _ (heap_pred-IsOrder s.fire_time) s.active_timers v.heap timer in
      elim (Bool-cases (is_set s timer)) [
        | inl i ↦
            rw e (record s { active_timers = h }, refl, Removed-Unset s v timer h (inside i).1)
        | inr o ↦
            rw (e, (out o).1)
              (
                s,
                refl,
                record {
                  valid = v;
                  size = omega arith;
                  fires = refl;
                  moves = refl;
                  sets = λ x. ground arith;
                },
              )
      ]

  pub pop_front_lem' :
      Heap.is_empty s.active_timers ≡ false
      → (r : Timers) × (pop_front s ≡ some r) × Unset s (Heap.front s.active_timers) r
  unfolding pop_front
  pop_front_lem' e =
      let (h, p, r) = pop_front_lem _ (heap_pred-IsOrder s.fire_time) s.active_timers v.heap e in
      rw p (record s { active_timers = h }, refl, Removed-Unset s v _ h r)

-- What follows a step that puts `timer` into the map, with no other change.
pub record Set (s : Timers) (timer fire moved : ℕ) (r : Timers) : Type 0 where
  pub valid : IsTimers r
  pub fires : r.fire_time ≡ assign s.fire_time timer fire
  pub moves : r.moved_fire_time ≡ assign s.moved_fire_time timer moved
  pub sets : (x : ℕ) → is_set r x ≡ is_set s x || x == timer

insert-Set :
    (s : Timers) (timer fire moved : ℕ) (moves : ℕ → ℕ)
    → IsTimers s
    → is_set s timer ≡ false
    → fire ≤ moved
    → moves ≡ assign s.moved_fire_time timer moved
    → (r : Timers) × (insert
          (record s { fire_time = assign s.fire_time timer fire; moved_fire_time = moves })
          timer
        ≡ some r)
      × Set s timer fire moved r
unfolding insert is_set
insert-Set s timer fire moved moves v out late e =
    let f = assign s.fire_time timer fire in
    let (h, b, done, tells, same, more) =
      insert_lem (heap_pred f) (heap_pred-IsOrder f) s.active_timers
        (refire s timer fire out v.heap) timer in
    let i = more (ground (arith, tells)) in
    rw done (
      record s { active_timers = h; fire_time = f; moved_fire_time = moves },
      refl,
      record {
        valid = record {
          heap = i.heap;
          moved = λ x g. ground (arith, v.moved x, i.nodes x, ap (λ (m : ℕ → ℕ). m x) e);
        };
        fires = refl;
        moves = e;
        sets = λ x. i.nodes x;
      },
    )

pub deadline-Unset :
    (s r : Timers) (timer x : ℕ)
    → Unset s timer r
    → deadline r x ≡ (if x == timer then none else deadline s x)
unfolding deadline
deadline-Unset s r timer x u = ground (arith, u.sets x, ap (λ (f : ℕ → ℕ). f x) u.moves)

pub deadline-Set :
    (s r : Timers) (timer fire moved x : ℕ)
    → Set s timer fire moved r
    → deadline r x ≡ (if x == timer then some moved else deadline s x)
unfolding deadline
deadline-Set s r timer fire moved x u = ground (arith, u.sets x, ap (λ (f : ℕ → ℕ). f x) u.moves)

-- A set timer that is asked for a later time is not moved in the heap.
pub once_at_lem :
    (s : Timers)
    → IsTimers s
    → (timer time : ℕ)
    → (r : Timers) × (once_at s timer time ≡ some r)
      × IsTimers r
      × ((x : ℕ) → deadline r x ≡ (if x == timer then some time else deadline s x))
unfolding once_at mathlib.Core.Option.bind
once_at_lem s v timer time = elim (Bool-cases (is_set s timer && leb (s.fire_time timer) time)) [
  | inl later ↦ rw later (
    record s { moved_fire_time = assign s.moved_fire_time timer time },
    refl,
    record { heap = v.heap; moved = λ x g. unfold is_set in ground (arith, v.moved x) },
    λ x. unfold deadline is_set in ground arith,
  )
  | inr anew ↦
      let (t, e, u) = cancel_lem s v timer in
      let (r, f, w) =
        insert-Set t timer time time (assign t.moved_fire_time timer time) u.valid
          (ground (arith, u.sets timer)) (omega arith) refl in
      rw (anew, e)
        (
          r,
          f,
          w.valid,
          λ x. ground (arith, deadline-Set t r timer time time x w, deadline-Unset s t timer x u),
        )
]

pub reschedule_lem :
    (s : Timers)
    → IsTimers s
    → (timer : ℕ) → is_set s timer ≡ false
    → (r : Timers) × (reschedule s timer ≡ some r)
      × Set s timer (s.moved_fire_time timer) (s.moved_fire_time timer) r
unfolding reschedule
reschedule_lem s v timer out =
    let same : (x : ℕ)
        → s.moved_fire_time x ≡ assign s.moved_fire_time timer (s.moved_fire_time timer) x =
      λ x. ground arith in
    insert-Set s timer (s.moved_fire_time timer) (s.moved_fire_time timer) s.moved_fire_time v out
      (omega arith) (λ i x. same x i)

pub front_first :
    (s : Timers)
    → IsTimers s
    → (x : ℕ) → is_set s x ≡ true
    → s.fire_time (Heap.front s.active_timers) ≤ s.fire_time x
unfolding heap_pred is_set
front_first s v x i =
    ground (arith, front_lem _ (heap_pred-IsOrder s.fire_time) s.active_timers v.heap x i)
