-- ===== src/Network/Timer/Reach.antt =====
-- Timers as a program uses them: the states that the calls of include/crab/network.hxx reach.
use mathlib.Core.Path.{subst}
use mathlib.Core.Option.{some-injective}
use crablib.Base.{
  ℕ, ◌+◌, ◌-◌, ◌≤◌, ◌<◌, min, ◌≡◌, refl, sym, ◌∙◌, inl, inr, Option, none, some, arith, leb, ◌==◌,
  if◌then◌else◌, Bool-cases,
}
use crablib.Intrusive.Heap.Order.{IsHeap}
use crablib.Network.Timer.{
  Timers, Processed, initial, heap_pred, cancel, once_at, once, process_timer, max_sleep_ms,
  milliseconds,
}
use crablib.Network.Timer.Deadlines.{
  IsTimers, initial-IsTimers, deadline, cancel_lem, once_at_lem, deadline-Unset,
}
use crablib.Network.Timer.Loop.{Ran, process_timer_lem}

-- The program sets and cancels timers, in handlers and elsewhere, and the loop calls handlers.
pub data Reachable : Timers → Type 0 where
  start : Reachable initial
  set : {s r : Timers} (timer time : ℕ) → Reachable s → once_at s timer time ≡ some r → Reachable r
  unset : {s r : Timers} (timer : ℕ) → Reachable s → cancel s timer ≡ some r → Reachable r
  ran :
      {s : Timers} {p : Processed} (now : ℕ)
      → Reachable s
      → process_timer s now max_sleep_ms ≡ some p
      → Reachable p.timers

Reachable-IsTimers : {s : Timers} → Reachable s → IsTimers s
Reachable-IsTimers start = initial-IsTimers
Reachable-IsTimers (set {s} timer time h e) =
    let (r, f, v, d) = once_at_lem s (Reachable-IsTimers h) timer time in
    subst IsTimers (some-injective _ _ (sym f ∙ e)) v
Reachable-IsTimers (unset {s} timer h e) =
    let (r, f, v) = cancel_lem s (Reachable-IsTimers h) timer in
    subst IsTimers (some-injective _ _ (sym f ∙ e)) v.valid
Reachable-IsTimers (ran {s} now h e) =
    let (r, f, v) = process_timer_lem s now (Reachable-IsTimers h) in
    subst (λ (p : Processed). IsTimers p.timers) (some-injective _ _ (sym f ∙ e)) v.valid

-- A timer that is set is not to be called before `time`; one is to be called by `now`.
abbrev pub NotBefore : ℕ → Option ℕ → Type 0
NotBefore time none = Unit
NotBefore time (some deadline) = time ≤ deadline

abbrev pub IsDue : ℕ → Option ℕ → Type 0
IsDue now none = ⊥
IsDue now (some deadline) = deadline ≤ now

-- What process_timer may do at the time `now`, by the timer whose handler it calls, if it does.
abbrev pub Outcome : Timers → ℕ → Timers → ℕ → Option ℕ → Type 0
Outcome s now r timeout_ms (some timer) =
    IsDue now (deadline s timer)
    × ((x : ℕ) → deadline r x ≡ (if x == timer then none else deadline s x))
Outcome s now r timeout_ms none =
    ((x : ℕ) → NotBefore (now + 1) (deadline s x))
    × ((x : ℕ) → deadline r x ≡ deadline s x)
    × (0 < timeout_ms)
    × (timeout_ms ≤ max_sleep_ms)
    × ((x : ℕ) → NotBefore (now + milliseconds (timeout_ms - 1)) (deadline s x))

later : (n : ℕ) (d : Option ℕ) → ((time : ℕ) → d ≡ some time → n ≤ time) → NotBefore n d
later n none h = tt
later n (some time) h = h time refl

Ran-Outcome :
    (s : Timers) (now : ℕ) (r : Processed)
    → Ran s now r
    → (c : Option ℕ) → r.called ≡ c
    → Outcome s now r.timers r.timeout_ms c
Ran-Outcome s now r what (some t) e =
    let (time, d, due) = what.due t e in (subst (IsDue now) (sym d) due, what.once t e)
Ran-Outcome s now r what none e =
    let (positive, bounded) = what.timeout e in
    (
      (λ x. later (now + 1) (deadline s x) (λ time d. omega (arith, what.early e x time d))),
      what.same e,
      positive,
      bounded,
      λ x. later _ (deadline s x) (λ time d. omega (arith, what.sleep e x time d)),
    )

module _ (s : Timers) (reach : Reachable s) where
  -- In every state that setting, cancelling and running timers reaches, the heap of timers is
  -- linked both ways and in the order of the fire times.
  pub Reachable-IsHeap : IsHeap (heap_pred s.fire_time) s.active_timers
  Reachable-IsHeap = (Reachable-IsTimers reach).heap

  -- In every reachable state once_at ends, and afterwards the timer is to be called at the time
  -- given and every other timer when it was, whether the timer was moved in the heap or only
  -- marked as moved.
  pub deadline-once_at :
      (timer time : ℕ)
      → (r : Timers) × (once_at s timer time ≡ some r)
        × ((x : ℕ) → deadline r x ≡ (if x == timer then some time else deadline s x))
  deadline-once_at timer time =
      let (r, e, v, d) = once_at_lem s (Reachable-IsTimers reach) timer time in (r, e, d)

  pub deadline-cancel :
      (timer : ℕ)
      → (r : Timers) × (cancel s timer ≡ some r)
        × ((x : ℕ) → deadline r x ≡ (if x == timer then none else deadline s x))
  deadline-cancel timer =
      let (r, e, u) = cancel_lem s (Reachable-IsTimers reach) timer in
      (r, e, λ x. deadline-Unset s r timer x u)

  once_at_min :
      (timer time n : ℕ)
      → time ≡ n
      → (r : Timers) × (once_at s timer time ≡ some r)
        × ((x : ℕ) → deadline r x ≡ (if x == timer then some n else deadline s x))
  once_at_min timer time n e = rw (sym e) (deadline-once_at timer time)

  -- In every reachable state once with a delay that is not negative ends, and afterwards the timer
  -- is to be called after the delay, or at the clock's last time if that comes first, and every
  -- other timer when it was, if the time now is not behind the clock's last one.
  pub deadline-once :
      (ma timer now delay : ℕ)
      → now ≤ ma
      → (r : Timers) × (once ma s timer now delay ≡ some r)
        × ((x : ℕ)
            → deadline r x ≡ (if x == timer then some (min (now + delay) ma) else deadline s x))
  unfolding once
  deadline-once ma timer now delay b = elim (Bool-cases (delay == 0)) [
    | inl zero_delay ↦ rw zero_delay (once_at_min timer now _ (ground arith))
    | inr later ↦ elim (Bool-cases (leb (ma - now) delay)) [
      | inl last ↦ rw (later, last) (once_at_min timer ma _ (ground arith))
      | inr short ↦ rw (later, short) (once_at_min timer (now + delay) _ (ground arith))
    ]
  ]

  -- In every reachable state and at every time process_timer, called with RunLoop::MAX_SLEEP_MS,
  -- ends. If it calls a timer's handler, that timer was due, is no longer set, and all others are
  -- as they were. If it calls none, no timer that is set was due, none changed, and the
  -- milliseconds to sleep are at least 1 and at most MAX_SLEEP_MS, and one less of them passes no
  -- deadline.
  pub process_timer-Outcome :
      (now : ℕ)
      → (r : Processed) × (process_timer s now max_sleep_ms ≡ some r)
        × Outcome s now r.timers r.timeout_ms r.called
  process_timer-Outcome now =
      let (r, e, what) = process_timer_lem s now (Reachable-IsTimers reach) in
      (r, e, Ran-Outcome s now r what r.called refl)
