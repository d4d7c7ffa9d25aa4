-- ===== src/Timer/Budget.antt =====
-- How often the task of a timer can still be called: a bound that no step of the queue exceeds.
use jerry.Base.{
  ℕ, ◌+◌, ◌-◌, ◌≤◌, ◌<◌, ◌≡◌, refl, ap, List, [], ◌∷◌, ◌++◌, Option, some, if◌then◌else◌, arith,
}
use jerry.Timer.{
  TimerStruct, TimerQueue, push, timer_cmp, add_timer, id_is, mark, cancel_timer, Call, adds_at,
  adds_repeated, adds_until, cancels, timer_at, timer_repeated, timer_until, id_or, erase_all,
  rearmed, get_next_timeout, do_call, do_calls, Outside, call_task, handle_timer, handle_all, later,
  take_expired_timers, pop_expired_timers, on_timeout, Event, calls, fires, step, run,
}
use jerry.Utils.{after_micro_seconds}
use jerry.Timer.Pop.{pop_expired_timers-AllExpired}

-- The calls that timer `t` is good for, if `k` is its id: one, and one for each repetition left.
abbrev pub budget : ℕ → TimerStruct → ℕ
budget k t = if t.canceled then 0 else if id_is k t.tid then t.repeat_times + 1 else 0

unfoldable pub budget_all : ℕ → List TimerStruct → ℕ
budget_all k [] = 0
budget_all k (t ∷ q) = budget k t + budget_all k q

-- The calls that were made.
unfoldable pub runs : ℕ → List (Option ℕ) → ℕ
runs k [] = 0
runs k (i ∷ l) = (if id_is k i then 1 else 0) + runs k l

pub budget_all-push :
    (k : ℕ) (t : TimerStruct) (q : List TimerStruct)
    → budget_all k (push t q) ≡ budget k t + budget_all k q
unfolding budget_all push timer_cmp
budget_all-push k t [] = refl
budget_all-push k t (u ∷ q) = ground (arith, budget_all-push k t q)

budget_all-append :
    (k : ℕ) (q r : List TimerStruct) → budget_all k (q ++ r) ≡ budget_all k q + budget_all k r
unfolding budget_all
budget_all-append k [] r = omega arith
budget_all-append k (t ∷ q) r = omega (arith, budget_all-append k q r)

budget_all-mark : (k j : ℕ) (q : List TimerStruct) → budget_all k (mark j q) ≤ budget_all k q
unfolding budget_all mark
budget_all-mark k j [] = omega arith
budget_all-mark k j (t ∷ q) = ground (arith, budget_all-mark k j q)

-- What was called and what may be.
abbrev pub potential : ℕ → TimerQueue → ℕ
potential k s = runs k s.called + budget_all k s.waiting_timers

-- The id `k` was given out, and at most `extra` was added to its potential.
pub record Within (k extra : ℕ) (s s' : TimerQueue) : Type 0 where
  pub known : k < s'.next_timer_id
  pub bounded : potential k s' ≤ potential k s + extra

add_timer-Within :
    (k now : ℕ) (t : TimerStruct) (s : TimerQueue)
    → k < s.next_timer_id
    → Within k (budget k t) s (add_timer now t s).1
unfolding add_timer
add_timer-Within k now t s h = ground (
  arith,
  budget_all-push k (record t { tid = some (id_or s.next_timer_id t.tid) }) s.waiting_timers,
)

cancel_timer-Within :
    (k j : ℕ) (s : TimerQueue) → k < s.next_timer_id → Within k 0 s (cancel_timer j s).1
unfolding cancel_timer
cancel_timer-Within k j s h = ground (arith, budget_all-mark k j s.waiting_timers)

do_call-Within :
    (k now : ℕ) (c : Call) (s : TimerQueue) → k < s.next_timer_id → Within k 0 s (do_call now c s)
unfolding do_call
do_call-Within k now (adds_at when) s h = add_timer-Within k now (timer_at when) s h
do_call-Within k now (adds_repeated us n) s h = add_timer-Within k now (timer_repeated now us n) s h
do_call-Within k now (adds_until us) s h = add_timer-Within k now (timer_until now us) s h
do_call-Within k now (cancels j) s h = cancel_timer-Within k j s h

-- One part after the other.
Within-trans :
    (k a b : ℕ) (s t u : TimerQueue) → Within k a s t → Within k b t u → Within k (a + b) s u
Within-trans k a b s t u h g = record {
  known = g.known;
  bounded = omega (arith, h.bounded, g.bounded);
}

do_calls-Within :
    (k now : ℕ) (cs : List Call) (s : TimerQueue)
    → k < s.next_timer_id
    → Within k 0 s (do_calls now cs s)
unfolding do_calls
do_calls-Within k now [] s h = record { known = h; bounded = omega arith }
do_calls-Within k now (c ∷ cs) s h =
    let w = do_call-Within k now c s h in
    Within-trans k 0 0 s (do_call now c s) (do_calls now (c ∷ cs) s) w
      (do_calls-Within k now cs (do_call now c s) w.known)

call_task-Within :
    (k : ℕ) (o : Outside) (now : ℕ) (t : TimerStruct) (s : TimerQueue)
    → k < s.next_timer_id
    → Within k (if id_is k t.tid then 1 else 0) s (call_task o now t s)
unfolding call_task runs
call_task-Within k o now t s h =
    let w = do_calls-Within k now (o.acts t.tid) (record s { called = t.tid ∷ s.called }) h in
    ground (arith, w.known, w.bounded)

handle_timer-Within :
    (k : ℕ) (o : Outside) (now : ℕ) (t : TimerStruct) (s : TimerQueue)
    → k < s.next_timer_id
    → Within k (budget k t) s (handle_timer o now t s)
unfolding handle_timer
handle_timer-Within k o now t s h =
    let w = call_task-Within k o now t s h in
    let u : TimerStruct = record t {
      repeat_times = t.repeat_times - 1;
      expire = after_micro_seconds t.repeat_interval (later o now t);
    } in
    let a = add_timer-Within k (later o now t) u (call_task o now t s) w.known in
    ground (arith, w.known, w.bounded, a.known, a.bounded)

handle_all-Within :
    (k : ℕ) (o : Outside) (now : ℕ) (ts : List TimerStruct) (s : TimerQueue)
    → k < s.next_timer_id
    → Within k (budget_all k ts) s (handle_all o now ts s)
unfolding handle_all budget_all
handle_all-Within k o now [] s h = record { known = h; bounded = omega arith }
handle_all-Within k o now (t ∷ ts) s h =
    let w = handle_timer-Within k o now t s h in
    Within-trans k (budget k t) (budget_all k ts) s (handle_timer o now t s)
      (handle_all o now (t ∷ ts) s) w
      (handle_all-Within k o (later o now t) ts (handle_timer o now t s) w.known)

on_timeout-Within :
    (k : ℕ) (o : Outside) (now : ℕ) (s : TimerQueue)
    → k < s.next_timer_id
    → Within k 0 s (on_timeout o now s)
unfolding on_timeout take_expired_timers
on_timeout-Within k o now s h =
    let (popped, rest) = pop_expired_timers now s.waiting_timers in
    let s1 : TimerQueue = record s {
      waiting_timers = rest;
      timers_map = erase_all popped s.timers_map;
    } in
    let s2 : TimerQueue = record s1 { timer_fd = rearmed (get_next_timeout now s1) s1.timer_fd } in
    let w = handle_all-Within k o now popped s2 h in
    record {
      known = w.known;
      bounded = omega (
        arith,
        w.bounded,
        budget_all-append k popped rest,
        ap (budget_all k) (pop_expired_timers-AllExpired now s.waiting_timers).0,
      );
    }

step-Within : (k : ℕ) (e : Event) (s : TimerQueue) → k < s.next_timer_id → Within k 0 s (step e s)
unfolding step
step-Within k (calls now c) s h = do_call-Within k now c s h
step-Within k (fires o now) s h = on_timeout-Within k o now s h

pub run-Within :
    (k : ℕ) (es : List Event) (s : TimerQueue) → k < s.next_timer_id → Within k 0 s (run es s)
unfolding run
run-Within k [] s h = record { known = h; bounded = omega arith }
run-Within k (e ∷ es) s h =
    let w = step-Within k e s h in
    Within-trans k 0 0 s (step e s) (run (e ∷ es) s) w (run-Within k es (step e s) w.known)
