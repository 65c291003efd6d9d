-- ===== src/Network/Timer.antt =====
-- Timers: Timer and RunLoopLinks::process_timer of include/crab/network.hpp and network.hxx, over
-- the heap of include/crab/intrusive_heap.hpp. A timer is a number that stands for its address;
-- its members are looked up in the state. A time point is a number of nanoseconds since the
-- clock's start, at most `ma` (`steady_clock::time_point::max()`); the handler is user code.
pub mod Deadlines
pub mod Loop
pub mod Reach
use mathlib.Core.Option
use crablib.Base.{
  ℕ, zero, suc, ◌+◌, ◌-◌, ◌*◌, ◌/◌, ◌%◌, ◌^◌, ◌≤◌, ◌<◌, min, ◌≡◌, refl, sym, ap, ap₂, ◌∙◌, ◌≢◌, ◌↔◌,
  ◌⊎◌, inl, inr, Bool, true, false, not, ◌&&◌, ◌||◌, Option, none, some, List, [], ◌∷◌, ◌++◌, map,
  reverse, append-nil, append_assoc, arith, ltb, leb, ◌==◌, if◌then◌else◌, Bool-cases, Result, ok,
  err, throw, Error, runtime_error, logic_error, ◌>>=◌, Bytes, codes, length, get_elem?, get_or,
  take, drop, length-append, length-take, length-drop, take-append-drop, take-length_add,
  drop-length_add, take_all,
}
use crablib.Intrusive.Heap
use crablib.Intrusive.Heap.{Heap}

pub record Timers : Type 0 where
  pub active_timers : Heap
  pub fire_time : ℕ → ℕ
  pub moved_fire_time : ℕ → ℕ

-- No timer is set.
abbrev pub initial : Timers
initial = record { active_timers = Heap.new; fire_time = λ _. 0; moved_fire_time = λ _. 0 }

-- RunLoop::MAX_SLEEP_MS, and the clock's ticks in a millisecond.
abbrev pub max_sleep_ms : ℕ
max_sleep_ms = 30 * 60 * 1000

abbrev pub milliseconds : ℕ → ℕ
milliseconds n = n * 1000000

-- Timer::HeapPred: `a.fire_time > b.fire_time`
unfoldable pub heap_pred : (ℕ → ℕ) → ℕ → ℕ → Bool
heap_pred fire_time a b = ltb (fire_time b) (fire_time a)

unfoldable pub is_set : Timers → ℕ → Bool
is_set s timer = Heap.in_heap s.active_timers timer

abbrev pub assign : (ℕ → ℕ) → ℕ → ℕ → ℕ → ℕ
assign f i v j = if j == i then v else f j

-- `active_timers.erase(timer)`
unfoldable pub cancel : Timers → ℕ → Option Timers
cancel s timer =
    Option.map (λ (r : Heap × ℕ). record s { active_timers = r.0 })
      (Heap.erase (heap_pred s.fire_time) s.active_timers timer)

-- `active_timers.insert(timer)`
unfoldable pub insert : Timers → ℕ → Option Timers
insert s timer =
    Option.map (λ (r : Heap × Bool). record s { active_timers = r.0 })
      (Heap.insert (heap_pred s.fire_time) s.active_timers timer)

-- `active_timers.pop_front()`
unfoldable pub pop_front : Timers → Option Timers
pop_front s =
    Option.map (λ (h : Heap). record s { active_timers = h })
      (Heap.pop_front (heap_pred s.fire_time) s.active_timers)

unfoldable pub once_at : Timers → ℕ → ℕ → Option Timers
once_at s timer time_point =
    if is_set s timer && leb (s.fire_time timer) time_point
    then some (record s { moved_fire_time = assign s.moved_fire_time timer time_point })
    else Option.bind (cancel s timer) (λ t.
      insert
        (record t {
          fire_time = assign t.fire_time timer time_point;
          moved_fire_time = assign t.moved_fire_time timer time_point;
        })
        timer)

-- `once(delay)` at the loop's time `now`, for a delay that is not negative.
unfoldable pub once : ℕ → Timers → ℕ → ℕ → ℕ → Option Timers
once ma s timer now delay =
    if delay == 0
    then once_at s timer now
    else if leb (ma - now) delay
    then once_at s timer ma
    else once_at s timer (now + delay)

-- A timer that was moved goes back into the heap.
unfoldable pub reschedule : Timers → ℕ → Option Timers
reschedule s timer =
    insert (record s { fire_time = assign s.fire_time timer (s.moved_fire_time timer) }) timer

-- What process_timer leaves: the timers, the one whose handler is called, if one is, and the
-- variable `timeout_ms` of the caller. It returns whether a handler was called.
pub record Processed : Type 0 where
  pub timers : Timers
  pub called : Option ℕ
  pub timeout_ms : ℕ

unfoldable pub wait : Timers → ℕ → ℕ → Processed
wait s now timeout_ms =
    let fire_time = s.fire_time (Heap.front s.active_timers) in
    if leb (now + milliseconds max_sleep_ms) fire_time
    then record { timers = s; called = none; timeout_ms = timeout_ms }
    else record { timers = s; called = none; timeout_ms = 1 + (fire_time - now) / milliseconds 1 }

unfoldable pub process_loop : ℕ → Timers → ℕ → ℕ → Option Processed
process_loop zero s now timeout_ms = none
process_loop (suc rounds) s now timeout_ms =
    let timer = Heap.front s.active_timers in
    if leb (s.fire_time timer) now
    then Option.bind (pop_front s) (λ t.
      if ltb now (t.moved_fire_time timer)
      then Option.bind (reschedule t timer) (λ u. process_loop rounds u now timeout_ms)
      else some (record { timers = t; called = some timer; timeout_ms = timeout_ms }))
    else some (wait s now timeout_ms)

-- Each round but the last puts one timer off, so one round more than there are slots is enough.
unfoldable pub process_timer : Timers → ℕ → ℕ → Option Processed
process_timer s now timeout_ms =
    if Heap.is_empty s.active_timers
    then some (record { timers = s; called = none; timeout_ms = timeout_ms })
    else process_loop (s.active_timers.size + 1) s now timeout_ms
