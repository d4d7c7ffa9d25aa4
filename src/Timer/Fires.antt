-- ===== src/Timer/Fires.antt =====
-- A timer that waits alone in the queue of src/net/TimerQueue.cc is called each time that its interval has passed
-- since its task returned.
use jerry.Base.{
  ℕ, zero, suc, ◌+◌, ◌-◌, ◌≤◌, ◌<◌, ◌≡◌, refl, sym, ap, length, ◌∙◌, subst, true, false, List, [],
  ◌∷◌, some, arith,
}
use jerry.Timer.{
  TimerStruct, TimerQueue, push, pop_loop, pop_expired_timers, erase_all, do_calls, add_timer,
  Outside, call_task, handle_timer, handle_all, take_expired_timers, on_timeout, get_next_timeout,
  Event, fires, step, run, id_or,
}
use jerry.Utils.{after_micro_seconds}
use jerry.Timer.Budget.{runs}

-- Tasks that do not use the queue and take this time, and stop conditions that do not hold.
abbrev pub quiet : ℕ → Outside
quiet took = record { stops = λ i. false; acts = λ i. []; lasts = λ i. took }

-- The descriptor fires at these times; with each, the time that the task takes.
unfoldable pub firings : List (ℕ × ℕ) → List Event
firings [] = []
firings ((now, took) ∷ l) = fires (quiet took) now ∷ firings l

-- The first time is `due` or later, and each other one is `us` or more after the end of the task before.
abbrev pub Follows : ℕ → ℕ → List (ℕ × ℕ) → Type 0
Follows us due [] = Unit {0}
Follows us due ((now, took) ∷ l) = (due ≤ now) × Follows us (now + took + us) l

-- `t` is the only timer, with `n` repetitions left, and its time has come.
pub record Due (k us now n : ℕ) (s : TimerQueue) : Type 0 where
  pub timer : TimerStruct
  pub alone : s.waiting_timers ≡ timer ∷ []
  pub named : timer.tid ≡ some k
  pub tasked : timer.has_task ≡ true
  pub valid : timer.canceled ≡ false
  pub ready : timer.expire ≤ now
  pub left : timer.repeat_times ≡ n
  pub spaced : timer.repeat_interval ≡ us

pop_lone :
    (now : ℕ) (t : TimerStruct) → t.expire ≤ now → pop_expired_timers now (t ∷ []) ≡ (t ∷ [], [])
unfolding pop_expired_timers pop_loop
pop_lone now t h = ground arith

on_timeout_lone :
    (now took : ℕ) (t : TimerStruct) (s : TimerQueue)
    → s.waiting_timers ≡ t ∷ []
    → t.expire ≤ now
    → on_timeout (quiet took) now s
      ≡ handle_timer
          (quiet took)
          now
          t
          (record s { waiting_timers = []; timers_map = erase_all (t ∷ []) s.timers_map })
unfolding on_timeout take_expired_timers handle_all get_next_timeout
on_timeout_lone now took t s e h = simp (e, pop_lone now t h)

-- One repetition less, and the next at `us` from now.
handle_timer_waits :
    (now took : ℕ) (t : TimerStruct) (s : TimerQueue)
    → t.has_task ≡ true
    → t.canceled ≡ false
    → 0 < t.repeat_times
    → 0 < t.repeat_interval
    → s.waiting_timers ≡ []
    → (handle_timer (quiet took) now t s).waiting_timers
      ≡ record t {
        tid = some (id_or s.next_timer_id t.tid);
        repeat_times = t.repeat_times - 1;
        expire = after_micro_seconds t.repeat_interval (now + took);
      }
        ∷ []
unfolding handle_timer call_task do_calls add_timer push
handle_timer_waits now took t s task valid left space none_waits = ground arith

handle_timer_called :
    (now took : ℕ) (t : TimerStruct) (s : TimerQueue)
    → t.has_task ≡ true
    → t.canceled ≡ false
    → (handle_timer (quiet took) now t s).called ≡ t.tid ∷ s.called
unfolding handle_timer call_task do_calls add_timer
handle_timer_called now took t s task valid = ground arith

fires-Due :
    (k us due now took n : ℕ) (s : TimerQueue)
    → 0 < us
    → due ≤ now
    → Due k us due (suc n) s
    → Due k us (now + took + us) n (on_timeout (quiet took) now s)
fires-Due k us due now took n s h at d =
    let t = d.timer in
    let ready : t.expire ≤ now = omega (arith, at, d.ready) in
    let s1 : TimerQueue = record s {
      waiting_timers = [];
      timers_map = erase_all (t ∷ []) s.timers_map;
    } in
    subst (Due k us (now + took + us) n) (sym (on_timeout_lone now took t s d.alone ready))
      (record {
        timer = record t {
          tid = some (id_or s.next_timer_id t.tid);
          repeat_times = t.repeat_times - 1;
          expire = after_micro_seconds t.repeat_interval (now + took);
        };
        alone =
            handle_timer_waits now took t s1 d.tasked d.valid (omega (arith, d.left))
              (omega (arith, d.spaced)) refl;
        named = simp d.named refl;
        tasked = d.tasked;
        valid = d.valid;
        ready = omega (arith, d.spaced);
        left = omega (arith, d.left);
        spaced = d.spaced;
      })

fires-called :
    (k us due now took n : ℕ) (s : TimerQueue)
    → due ≤ now
    → Due k us due n s
    → (on_timeout (quiet took) now s).called ≡ some k ∷ s.called
fires-called k us due now took n s at d =
    let t = d.timer in
    let ready : t.expire ≤ now = omega (arith, at, d.ready) in
    let s1 : TimerQueue = record s {
      waiting_timers = [];
      timers_map = erase_all (t ∷ []) s.timers_map;
    } in
    ap (λ s'. s'.called) (on_timeout_lone now took t s d.alone ready)
    ∙ handle_timer_called now took t s1 d.tasked d.valid
    ∙ ap (λ i. i ∷ s.called) d.named

-- A timer with `n` repetitions that waits alone, and whose tasks and conditions leave the queue alone, is
-- called `n + 1` times when the descriptor fires `n + 1` times: first when the timer is due or later, and then
-- each time its interval or more after its task has returned, however long the tasks take.
pub every-Due :
    (k us due n : ℕ) (l : List (ℕ × ℕ)) (s : TimerQueue)
    → 0 < us
    → Due k us due n s
    → Follows us due l
    → length l ≡ suc n
    → runs k (run (firings l) s).called ≡ runs k s.called + n + 1
unfolding firings run step runs
every-Due k us due n [] s h d f e = absurd (omega (arith, e))
every-Due k us due zero ((now, took) ∷ []) s h d f e =
    ground (arith, fires-called k us due now took 0 s f.0 d)
every-Due k us due zero ((now, took) ∷ (p ∷ l)) s h d f e = absurd (omega (arith, e))
every-Due k us due (suc n) ((now, took) ∷ l) s h d f e =
    let rest =
      every-Due k us (now + took + us) n l (on_timeout (quiet took) now s) h
        (fires-Due k us due now took n s h f.0 d) f.1 (omega (arith, e)) in
    ground (arith, rest, fires-called k us due now took (suc n) s f.0 d)

-- When it fires earlier, as it does one interval after a firing whose task took some time, nothing is called.
fires_early :
    (o : Outside) (now : ℕ) (t : TimerStruct) (s : TimerQueue)
    → s.waiting_timers ≡ t ∷ []
    → now < t.expire
    → (on_timeout o now s).called ≡ s.called
unfolding on_timeout take_expired_timers pop_expired_timers pop_loop handle_all
fires_early o now t s e early = simp e (ground arith)
