-- ===== src/Timer/Cancel.antt =====
-- How often the task of a timer of src/net/TimerQueue.cc is called: at most as often as it was asked for,
-- and not after it was cancelled.
use jerry.Base.{ℕ, ◌+◌, ◌≤◌, ◌<◌, ◌≡◌, refl, true, false, List, [], ◌∷◌, none, some, arith}
use jerry.Timer.{
  TimerStruct, TimerQueue, new_queue, add_timer, mark, cancel_timer, timer_repeated, timer_until,
  take_expired_timers, Event, run, id_or,
}
use jerry.Timer.Budget.{budget_all, runs, budget_all-push, potential, run-Within}
use jerry.Timer.Agree.{Agrees, count, reached-Agrees, take_expired_timers-Agrees}

budget_all_none : (k : ℕ) (q : List TimerStruct) → count k q ≡ 0 → budget_all k q ≡ 0
unfolding budget_all count
budget_all_none k [] h = refl
budget_all_none k (t ∷ q) h = ground (arith, budget_all_none k q)

budget_all_canceled : (k : ℕ) (q : List TimerStruct) → budget_all k (mark k q) ≡ 0
unfolding budget_all mark
budget_all_canceled k [] = refl
budget_all_canceled k (t ∷ q) = ground (arith, budget_all_canceled k q)

-- The id that `add_timer` gives to a new timer was not used: its potential is that of the new timer.
add_timer-potential :
    (k now : ℕ) (t : TimerStruct) (s : TimerQueue)
    → Agrees k [] s
    → t.tid ≡ none
    → (add_timer now t s).0 ≡ some k
    → (k < (add_timer now t s).1.next_timer_id)
      × (potential k (add_timer now t s).1 ≤ t.repeat_times + 1)
unfolding add_timer count
add_timer-potential k now t s a e h =
    let id = id_or s.next_timer_id t.tid in
    grind (
      arith,
      a.fresh,
      budget_all_none k s.waiting_timers,
      budget_all-push k (record t { tid = some id }) s.waiting_timers,
    )

runs-add_timer :
    (k now : ℕ) (t : TimerStruct) (s : TimerQueue) (es : List Event)
    → Agrees k [] s
    → t.tid ≡ none
    → (add_timer now t s).0 ≡ some k
    → runs k (run es (add_timer now t s).1).called ≤ t.repeat_times + 1
runs-add_timer k now t s es a e h =
    let (known, small) = add_timer-potential k now t s a e h in
    let w = run-Within k es (add_timer now t s).1 known in omega (arith, w.bounded)

-- Whatever came before and whatever comes after, the task of a timer that was added with `repeat_times`
-- repetitions is called at most once and once for each of these.
pub repeated_runs :
    (es0 es : List Event) (now us n k : ℕ)
    → (add_timer now (timer_repeated now us n) (run es0 new_queue)).0 ≡ some k
    → runs k (run es (add_timer now (timer_repeated now us n) (run es0 new_queue)).1).called ≤ n + 1
repeated_runs es0 es now us n k h =
    runs-add_timer k now (timer_repeated now us n) (run es0 new_queue) es (reached-Agrees k es0)
      refl h

-- The task of a timer that was added with a stop condition is called at most once, whatever came before
-- and comes after, also where the stop condition never holds.
until_runs :
    (es0 es : List Event) (now us k : ℕ)
    → (add_timer now (timer_until now us) (run es0 new_queue)).0 ≡ some k
    → runs k (run es (add_timer now (timer_until now us) (run es0 new_queue)).1).called ≤ 1
until_runs es0 es now us k h =
    runs-add_timer k now (timer_until now us) (run es0 new_queue) es (reached-Agrees k es0) refl h

-- The timer that `cancel_timer` takes for cancelled has no potential left.
cancel_timer-potential :
    (k : ℕ) (s : TimerQueue)
    → Agrees k [] s
    → (cancel_timer k s).0 ≡ true
    → (k < (cancel_timer k s).1.next_timer_id)
      × (potential k (cancel_timer k s).1 ≡ runs k s.called)
unfolding cancel_timer count
cancel_timer-potential k s a h =
    ground (arith, budget_all_canceled k s.waiting_timers, a.same, a.fresh)

-- Where `cancel_timer` answers true, the task of the timer is not called any more, whatever comes after.
pub runs-cancel_timer :
    (es0 es : List Event) (k : ℕ)
    → (cancel_timer k (run es0 new_queue)).0 ≡ true
    → runs k (run es (cancel_timer k (run es0 new_queue)).1).called
      ≤ runs k (run es0 new_queue).called
runs-cancel_timer es0 es k h =
    let s = run es0 new_queue in
    let (known, none_left) = cancel_timer-potential k s (reached-Agrees k es0) h in
    let w = run-Within k es (cancel_timer k s).1 known in omega (arith, w.bounded)

-- From the moment it is popped, and so also while its own task runs, a timer cannot be cancelled.
cancel_popped :
    (es : List Event) (now k : ℕ)
    → 0 < count k (take_expired_timers now (run es new_queue)).0
    → (cancel_timer k (take_expired_timers now (run es new_queue)).1).0 ≡ false
unfolding cancel_timer
cancel_popped es now k h =
    let a = take_expired_timers-Agrees k now (run es new_queue) (reached-Agrees k es) in
    ground (arith, a.same, a.once)
