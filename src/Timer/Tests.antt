-- ===== src/Timer/Tests.antt =====
-- The timers' theorems at small inputs.
use jerry.Base.{
  emplace, erase, has, ℕ, ◌+◌, ◌≤◌, ◌≡◌, refl, false, List, [], ◌∷◌, ◌++◌, some, arith,
  if◌then◌else◌,
}
use jerry.Timer.{
  TimerQueue, Event, Outside, new_queue, push, pop_expired_timers, timer_repeated, timer_until,
  add_timer, cancel_timer, run, on_timeout, handle_all, erase_all, do_call, calls, fires, adds_at,
  adds_repeated, cancels,
}
use jerry.Timer.Order.{pop_expired_timers_blocked}
use jerry.Timer.Budget.{runs}
use jerry.Timer.Agree.{count, run_agrees}
use jerry.Timer.Cancel.{repeated_runs, runs-cancel_timer}
use jerry.Timer.Fires.{firings, every-Due}

-- Three timers, of which two have expired at 7.
abbrev three : List Event
three = calls 0 (adds_at 9) ∷ calls 1 (adds_at 2) ∷ calls 1 (adds_at 5) ∷ []

pop_expired_timers_blocked_example :
    (pop_expired_timers 7 (run three new_queue).waiting_timers).0 ≡ []
unfolding run do_call push
pop_expired_timers_blocked_example = pop_expired_timers_blocked three 7 refl

-- Every task adds a timer and cancels the first.
abbrev busy : Outside
busy = record { stops = λ i. false; acts = λ i. adds_at 900 ∷ cancels 0 ∷ []; lasts = λ i. 3 }

abbrev before : List Event
before = calls 0 (adds_repeated 50 2) ∷ fires busy 60 ∷ []

abbrev after : List Event
after = fires busy 200 ∷ fires busy 300 ∷ fires busy 400 ∷ fires busy 1000 ∷ fires busy 1001 ∷ []

abbrev timers_after : TimerQueue
timers_after = run (before ++ after) new_queue

run_agrees_example :
    ((if has 1 timers_after.timers_map then 1 else 0) ≡ count 1 timers_after.waiting_timers)
    × (count 1 timers_after.waiting_timers ≤ 1)
run_agrees_example = run_agrees 1 (before ++ after)

abbrev repeated : TimerQueue
repeated = (add_timer 100 (timer_repeated 100 20 2) (run before new_queue)).1

repeated_runs_example : runs 2 (run after repeated).called ≤ 2 + 1
unfolding run add_timer cancel_timer has on_timeout handle_all pop_expired_timers push emplace
    erase_all erase
repeated_runs_example = repeated_runs before after 100 20 2 2 refl

abbrev until : TimerQueue
until = (add_timer 100 (timer_until 100 20) (run before new_queue)).1

called_once : runs 2 (run after until).called ≡ 1
unfolding run add_timer on_timeout handle_all pop_expired_timers push emplace erase_all erase runs
    has
called_once = refl

abbrev cancelled : TimerQueue
cancelled = (cancel_timer 1 (run before new_queue)).1

runs-cancel_timer_example :
    runs 1 (run after cancelled).called ≤ runs 1 (run before new_queue).called
unfolding run add_timer cancel_timer has on_timeout handle_all pop_expired_timers push emplace
    erase_all erase
runs-cancel_timer_example = runs-cancel_timer before after 1 refl

abbrev one_added : List Event
one_added = calls 0 (adds_at 50) ∷ []

abbrev thrice : TimerQueue
thrice = run (calls 0 (adds_repeated 50 2) ∷ []) new_queue

-- The tasks take 7, none, and 2 of the time.
abbrev three_times : List (ℕ × ℕ)
three_times = (55, 7) ∷ (112, 0) ∷ (200, 2) ∷ []

every-Due_example : runs 0 (run (firings three_times) thrice).called ≡ runs 0 thrice.called + 2 + 1
unfolding run do_call push
every-Due_example =
    every-Due 0 50 50 2 three_times thrice (omega arith)
      (record {
        timer = record (timer_repeated 0 50 2) { tid = some 0 };
        alone = refl;
        named = refl;
        tasked = refl;
        valid = refl;
        ready = omega arith;
        left = refl;
        spaced = refl;
      })
      (omega arith, (omega arith, (omega arith, tt))) refl
