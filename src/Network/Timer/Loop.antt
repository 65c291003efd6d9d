-- ===== src/Network/Timer/Loop.antt =====
-- The loop of RunLoopLinks::process_timer in include/crab/network.hxx.
use mathlib.Core.Option
use mathlib.Core.Path.{subst}
use crablib.Base.{
  ℕ, zero, suc, ◌+◌, ◌-◌, ◌≤◌, ◌<◌, ◌≡◌, refl, ap, ◌∙◌, ◌≢◌, inl, inr, Bool, true, false, ◌||◌,
  none, some, List, [], ◌∷◌, arith, ltb, leb, ◌==◌, if◌then◌else◌, Bool-cases, length,
}
use crablib.Intrusive.Heap
use crablib.Intrusive.Heap.{Heap}
use crablib.Intrusive.Heap.Steps.{in_heap-front}
use crablib.Network.Timer.{
  Timers, heap_pred, Processed, is_set, wait, process_loop, process_timer, milliseconds,
  max_sleep_ms,
}
use crablib.Network.Timer.Deadlines.{
  IsTimers, heap_pred-IsOrder, deadline, Unset, Set, pop_front_lem', reschedule_lem, deadline-Unset,
  deadline-Set, front_first,
}

abbrev has : ℕ → List ℕ → Bool
has x [] = false
has x (y ∷ ys) = x == y || has x ys

abbrev without : ℕ → List ℕ → List ℕ
without x [] = []
without x (y ∷ ys) = let rest = without x ys in if x == y then rest else y ∷ rest

length-without_le : (x : ℕ) (l : List ℕ) → length (without x l) ≤ length l
length-without_le x [] = omega arith
length-without_le x (y ∷ ys) = ground (arith, length-without_le x ys)

length-without : (x : ℕ) (l : List ℕ) → has x l ≡ true → length (without x l) < length l
length-without x [] h = absurd (ground arith)
length-without x (y ∷ ys) h = ground (arith, length-without_le x ys, length-without x ys)

has-without : (x y : ℕ) (l : List ℕ) → x ≢ y → has x l ≡ true → has x (without y l) ≡ true
has-without x y [] n h = h
has-without x y (z ∷ zs) n h = ground (arith, has-without x y zs n)

-- The nodes in the first slots.
slots : (ℕ → ℕ) → ℕ → List ℕ
slots f zero = []
slots f (suc k) = f (suc k) ∷ slots f k

length-slots : (f : ℕ → ℕ) (k : ℕ) → length (slots f k) ≡ k
unfolding slots
length-slots f zero = refl
length-slots f (suc k) = ap suc (length-slots f k)

has-slots : (f : ℕ → ℕ) (k i : ℕ) → 0 < i → i ≤ k → has (f i) (slots f k) ≡ true
unfolding slots
has-slots f zero i p b = absurd (omega arith)
has-slots f (suc k) i p b = elim (Bool-cases (i == suc k)) [
  | inl last ↦ let e : i ≡ suc k = ground arith in rw e (ground arith)
  | inr other ↦ ground (arith, has-slots f k i p)
]

-- What process_timer does to the map of deadlines, called as RunLoop::run calls it.
pub record Ran (s : Timers) (now : ℕ) (r : Processed) : Type 0 where
  pub valid : IsTimers r.timers
  -- The timer that is called was due, and is no longer set.
  pub due : (t : ℕ) → r.called ≡ some t → (time : ℕ) × (deadline s t ≡ some time) × (time ≤ now)
  pub once :
      (t : ℕ)
      → r.called ≡ some t
      → (x : ℕ) → deadline r.timers x ≡ (if x == t then none else deadline s x)
  -- Where none is called, none was due, nothing changed, and the loop may sleep for `timeout_ms`,
  -- less than a millisecond of which is behind any deadline.
  pub early : r.called ≡ none → (x time : ℕ) → deadline s x ≡ some time → now < time
  pub same : r.called ≡ none → (x : ℕ) → deadline r.timers x ≡ deadline s x
  pub sleep :
      r.called ≡ none
      → (x time : ℕ) → deadline s x ≡ some time
      → now + milliseconds r.timeout_ms ≤ time + milliseconds 1
  pub timeout : r.called ≡ none → (0 < r.timeout_ms) × (r.timeout_ms ≤ max_sleep_ms)

-- Every timer whose slot in the heap is due is in the list.
abbrev Covers : Timers → ℕ → List ℕ → Type 0
Covers s now l = (x : ℕ) → is_set s x ≡ true → s.fire_time x ≤ now → has x l ≡ true

-- The first timer in the heap is the bound for all deadlines.
front_bound :
    (s : Timers)
    → IsTimers s
    → (x time : ℕ) → deadline s x ≡ some time
    → s.fire_time (Heap.front s.active_timers) ≤ time
unfolding deadline
front_bound s v x time e = ground (arith, v.moved x, front_first s v x)

wait-Ran :
    (s : Timers) (now : ℕ)
    → IsTimers s
    → now < s.fire_time (Heap.front s.active_timers)
    → Ran s now (wait s now max_sleep_ms)
unfolding wait
wait-Ran s now v late = record {
  valid = elim (Bool-cases far) [ inl e ↦ rw e v | inr e ↦ rw e v ];
  due = λ t e. absurd (ground arith);
  once = λ t e. absurd (ground arith);
  early = λ e x time d. omega (arith, front_bound s v x time d);
  same = λ e x. elim (Bool-cases far) [ inl e ↦ rw e refl | inr e ↦ rw e refl ];
  sleep = λ e x time d. ground (arith, front_bound s v x time d);
  timeout = λ e. ground (arith);
}
  where
    far : Bool
    far = leb (now + milliseconds max_sleep_ms) (s.fire_time (Heap.front s.active_timers))

call-Ran :
    (s t : Timers) (timer now : ℕ)
    → IsTimers s
    → is_set s timer ≡ true
    → Unset s timer t
    → t.moved_fire_time timer ≤ now
    → Ran s now (record { timers = t; called = some timer; timeout_ms = max_sleep_ms })
call-Ran s t timer now v on u due = record {
  valid = u.valid;
  due = λ x e. (
    s.moved_fire_time x,
    unfold deadline in ground arith,
    ground (arith, ap (λ (m : ℕ → ℕ). m timer) u.moves),
  );
  once = λ x e y. ground (arith, deadline-Unset s t timer y u);
  early = λ e. absurd (ground arith);
  same = λ e. absurd (ground arith);
  sleep = λ e. absurd (ground arith);
  timeout = λ e. absurd (ground arith);
}

-- What a loop that goes on with the same deadlines does is what it does from there.
Ran-same :
    (s t : Timers) (now : ℕ) (r : Processed)
    → ((x : ℕ) → deadline t x ≡ deadline s x)
    → Ran t now r
    → Ran s now r
Ran-same s t now r same ran = record {
  valid = ran.valid;
  due = λ x e. let (time, a, b) = ran.due x e in (time, cc (same x), b);
  once = λ x e y. ground (arith, ran.once x e y, same y);
  early = λ e x time d. ran.early e x time (cc (same x));
  same = λ e x. ran.same e x ∙ same x;
  sleep = λ e x time d. ran.sleep e x time (cc (same x));
  timeout = ran.timeout;
}

deadline-moved :
    (s t w : Timers) (timer x : ℕ)
    → is_set s timer ≡ true
    → Unset s timer t
    → Set t timer (t.moved_fire_time timer) (t.moved_fire_time timer) w
    → deadline w x ≡ deadline s x
deadline-moved s t w timer x on u z =
    let at_timer : deadline s timer ≡ some (t.moved_fire_time timer) =
      unfold deadline in ground (arith, ap (λ (m : ℕ → ℕ). m timer) u.moves) in
    ground (arith, deadline-Set t w timer _ _ x z, deadline-Unset s t timer x u)

Covers-moved :
    (s t w : Timers) (timer now : ℕ) (l : List ℕ)
    → Unset s timer t
    → Set t timer (t.moved_fire_time timer) (t.moved_fire_time timer) w
    → now < t.moved_fire_time timer
    → Covers s now l
    → Covers w now (without timer l)
Covers-moved s t w timer now l u z late covers x a b =
    let fires : w.fire_time x ≡ (if x == timer then t.moved_fire_time timer else s.fire_time x) =
      ground (arith, ap (λ (m : ℕ → ℕ). m x) z.fires, ap (λ (m : ℕ → ℕ). m x) u.fires) in
    has-without x timer l (ground arith)
      (covers x (ground (arith, z.sets x, u.sets x)) (ground arith))

set_nonempty :
    (s : Timers) → IsTimers s → (x : ℕ) → is_set s x ≡ true → Heap.is_empty s.active_timers ≡ false
unfolding is_set crablib.Intrusive.Heap.in_heap crablib.Intrusive.Heap.is_empty
set_nonempty s v x e = ground (arith, v.heap.linked.inside x)

process_loop_lem :
    (rounds now : ℕ) (s : Timers) (l : List ℕ)
    → length l < rounds
    → IsTimers s
    → Heap.is_empty s.active_timers ≡ false
    → Covers s now l
    → (r : Processed) × (process_loop rounds s now max_sleep_ms ≡ some r) × Ran s now r
unfolding process_loop mathlib.Core.Option.bind
process_loop_lem zero now s l f v some_set covers = absurd (omega arith)
process_loop_lem (suc k) now s l f v some_set covers =
    let timer = Heap.front s.active_timers in
    let on : is_set s timer ≡ true =
      unfold is_set in
      in_heap-front (heap_pred s.fire_time) (heap_pred-IsOrder s.fire_time) s.active_timers v.heap
        some_set in
    let (t, e, u) = pop_front_lem' s v some_set in
    elim (Bool-cases (leb (s.fire_time timer) now)) [
      | inr late ↦ rw late (wait s now max_sleep_ms, refl, wait-Ran s now v (ground arith))
      | inl due ↦ elim (Bool-cases (ltb now (t.moved_fire_time timer))) [
        | inr call ↦ rw (due, e, call) (_, refl, call-Ran s t timer now v on u (ground arith))
        | inl moved ↦
            let (w, g, z) = reschedule_lem t u.valid timer (ground (arith, u.sets timer)) in
            let same = λ (x : ℕ). deadline-moved s t w timer x on u z in
            let (r, h, ran) =
              process_loop_lem k now w (without timer l)
                (omega (arith, length-without timer l (covers timer on (ground arith)))) z.valid
                (set_nonempty w z.valid timer (ground (arith, z.sets timer)))
                (Covers-moved s t w timer now l u z (ground arith) covers) in
            rw (due, e, moved, g) (r, h, Ran-same s w now r same ran)
      ]
    ]

none_set :
    (s : Timers)
    → IsTimers s
    → Heap.is_empty s.active_timers ≡ true
    → (x time : ℕ) → deadline s x ≢ some time
unfolding deadline
none_set s v e x time d = ground (arith, set_nonempty s v x)

Covers-slots :
    (s : Timers) (now : ℕ)
    → IsTimers s
    → Covers s now (slots s.active_timers.at (s.active_timers.size - 1))
unfolding is_set crablib.Intrusive.Heap.in_heap
Covers-slots s now v x a b =
    let inside = v.heap.linked.inside x (ground arith) in
    let here = v.heap.linked.here x (ground arith) in
    let i = s.active_timers.heap_index x in
    subst (λ (y : ℕ). has y (slots s.active_timers.at (s.active_timers.size - 1)) ≡ true) here
      (has-slots s.active_timers.at (s.active_timers.size - 1) i (ground arith) (omega arith))

-- process_timer, called as RunLoop::run does, always ends.
pub process_timer_lem :
    (s : Timers) (now : ℕ)
    → IsTimers s
    → (r : Processed) × (process_timer s now max_sleep_ms ≡ some r) × Ran s now r
unfolding process_timer
process_timer_lem s now v = elim (Bool-cases (Heap.is_empty s.active_timers)) [
  | inl e ↦ rw e (
    record { timers = s; called = none; timeout_ms = max_sleep_ms },
    refl,
    record {
      valid = v;
      due = λ t e. absurd (ground arith);
      once = λ t e. absurd (ground arith);
      early = λ _ x time d. absurd (none_set s v e x time d);
      same = λ _ x. refl;
      sleep = λ _ x time d. absurd (none_set s v e x time d);
      timeout = λ _. omega arith;
    },
  )
  | inr o ↦ rw o (
      process_loop_lem (s.active_timers.size + 1) now s
        (slots s.active_timers.at (s.active_timers.size - 1))
        (omega (arith, length-slots s.active_timers.at (s.active_timers.size - 1))) v o
        (Covers-slots s now v))
]
