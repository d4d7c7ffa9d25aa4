-- ===== src/Timer/Agree.antt =====
-- `timers_map` and the queue of src/net/TimerQueue.cc hold the same timers, each once.
use jerry.Base.{
  has, has-emplace, has-erase, ℕ, ◌+◌, ◌-◌, ◌≤◌, ◌≡◌, refl, ap, false, List, [], ◌∷◌, ◌++◌, Option,
  none, some, ltb, if◌then◌else◌, arith,
}
use jerry.Utils.{after_micro_seconds}
use jerry.Timer.{
  TimerStruct, TimerQueue, new_queue, push, timer_cmp, add_timer, id_is, id_or, mark, cancel_timer,
  erase_tid, erase_all, Call, adds_at, adds_repeated, adds_until, cancels, timer_at, timer_repeated,
  timer_until, rearmed, get_next_timeout, do_call, do_calls, Outside, call_task, handle_timer,
  handle_all, later, take_expired_timers, pop_expired_timers, on_timeout, Event, calls, fires, step,
  run,
}
use jerry.Timer.Pop.{pop_expired_timers-AllExpired}
use jerry.Timer.Budget.{runs}

-- How many timers of the list have the id `k`.
unfoldable pub count : ℕ → List TimerStruct → ℕ
count k [] = 0
count k (t ∷ q) = (if id_is k t.tid then 1 else 0) + count k q

has-erase_tid :
    (k : ℕ) (o : Option ℕ) (m : List ℕ)
    → has k (erase_tid o m) ≡ (if id_is k o then false else has k m)
has-erase_tid k none m = refl
has-erase_tid k (some j) m = has-erase k j m

has-erase_all :
    (k : ℕ) (ts : List TimerStruct) (m : List ℕ)
    → has k (erase_all ts m) ≡ (if ltb 0 (count k ts) then false else has k m)
unfolding erase_all count
has-erase_all k [] m = refl
has-erase_all k (t ∷ ts) m =
    ground (arith, has-erase_all k ts (erase_tid t.tid m), has-erase_tid k t.tid m)

count-push :
    (k : ℕ) (t : TimerStruct) (q : List TimerStruct)
    → count k (push t q) ≡ (if id_is k t.tid then 1 else 0) + count k q
unfolding count push timer_cmp
count-push k t [] = refl
count-push k t (u ∷ q) = ground (arith, count-push k t q)

count-append : (k : ℕ) (q r : List TimerStruct) → count k (q ++ r) ≡ count k q + count k r
unfolding count
count-append k [] r = omega arith
count-append k (t ∷ q) r = omega (arith, count-append k q r)

count-mark : (k j : ℕ) (q : List TimerStruct) → count k (mark j q) ≡ count k q
unfolding count mark
count-mark k j [] = refl
count-mark k j (t ∷ q) = ground (arith, count-mark k j q)

-- For the id `k`: it is in the map as often as in the queue, at most once in the queue and among the
-- timers `todo` that were popped and not handled, and nowhere if it was not given out.
pub record Agrees (k : ℕ) (todo : List TimerStruct) (s : TimerQueue) : Type 0 where
  pub same : (if has k s.timers_map then 1 else 0) ≡ count k s.waiting_timers
  pub once : count k s.waiting_timers + count k todo ≤ 1
  pub fresh : s.next_timer_id ≤ k → count k s.waiting_timers + count k todo + runs k s.called ≡ 0

add_timer-Agrees :
    (k now : ℕ) (t : TimerStruct) (todo : List TimerStruct) (s : TimerQueue)
    → Agrees k (t ∷ todo) s
    → Agrees k todo (add_timer now t s).1
unfolding add_timer count
add_timer-Agrees k now t todo s a =
    let id = id_or s.next_timer_id t.tid in
    ground (
      arith,
      count-push k (record t { tid = some id }) s.waiting_timers,
      has-emplace k id s.timers_map,
      a.fresh,
    )

add_new-Agrees :
    (k now : ℕ) (t : TimerStruct) (todo : List TimerStruct) (s : TimerQueue)
    → t.tid ≡ none
    → Agrees k todo s
    → Agrees k todo (add_timer now t s).1
unfolding count
add_new-Agrees k now t todo s e a =
    add_timer-Agrees k now t todo s
      (record { same = a.same; once = ground arith; fresh = λ h. ground (arith, a.fresh h) })

cancel_timer-Agrees :
    (k j : ℕ) (todo : List TimerStruct) (s : TimerQueue)
    → Agrees k todo s
    → Agrees k todo (cancel_timer j s).1
unfolding cancel_timer
cancel_timer-Agrees k j todo s a = ground (arith, count-mark k j s.waiting_timers, a.fresh)

do_call-Agrees :
    (k now : ℕ) (c : Call) (todo : List TimerStruct) (s : TimerQueue)
    → Agrees k todo s
    → Agrees k todo (do_call now c s)
unfolding do_call
do_call-Agrees k now (adds_at when) todo s a = add_new-Agrees k now (timer_at when) todo s refl a
do_call-Agrees k now (adds_repeated us n) todo s a =
    add_new-Agrees k now (timer_repeated now us n) todo s refl a
do_call-Agrees k now (adds_until us) todo s a =
    add_new-Agrees k now (timer_until now us) todo s refl a
do_call-Agrees k now (cancels j) todo s a = cancel_timer-Agrees k j todo s a

do_calls-Agrees :
    (k now : ℕ) (cs : List Call) (todo : List TimerStruct) (s : TimerQueue)
    → Agrees k todo s
    → Agrees k todo (do_calls now cs s)
unfolding do_calls
do_calls-Agrees k now [] todo s a = a
do_calls-Agrees k now (c ∷ cs) todo s a =
    do_calls-Agrees k now cs todo (do_call now c s) (do_call-Agrees k now c todo s a)

called-Agrees :
    (k : ℕ) (t : TimerStruct) (todo : List TimerStruct) (s : TimerQueue)
    → Agrees k (t ∷ todo) s
    → Agrees k (t ∷ todo) (record s { called = t.tid ∷ s.called })
unfolding count runs
called-Agrees k t todo s a = record {
  same = a.same;
  once = a.once;
  fresh = λ h. ground (arith, a.fresh h);
}

call_task-Agrees :
    (k : ℕ) (o : Outside) (now : ℕ) (t : TimerStruct) (todo : List TimerStruct) (s : TimerQueue)
    → Agrees k (t ∷ todo) s
    → Agrees k (t ∷ todo) (call_task o now t s)
unfolding call_task
call_task-Agrees k o now t todo s a =
    let w =
      do_calls-Agrees k now (o.acts t.tid) (t ∷ todo) (record s { called = t.tid ∷ s.called })
        (called-Agrees k t todo s a) in
    ground (arith, w.same, w.once, w.fresh, a.same, a.once, a.fresh)

less-Agrees :
    (k : ℕ) (t : TimerStruct) (todo : List TimerStruct) (s : TimerQueue)
    → Agrees k (t ∷ todo) s
    → Agrees k todo s
unfolding count
less-Agrees k t todo s a = record {
  same = a.same;
  once = omega (arith, a.once);
  fresh = λ h. omega (arith, a.fresh h);
}

-- A timer that was popped is not in the map.
dropped-Agrees :
    (k : ℕ) (t : TimerStruct) (todo : List TimerStruct) (s : TimerQueue)
    → Agrees k (t ∷ todo) s
    → Agrees k todo (record s { timers_map = erase_tid t.tid s.timers_map })
unfolding count
dropped-Agrees k t todo s a = record {
  same = ground (arith, a.same, a.once, has-erase_tid k t.tid s.timers_map);
  once = omega (arith, a.once);
  fresh = λ h. omega (arith, a.fresh h);
}

retimed-Agrees :
    (k : ℕ) (t : TimerStruct) (times when : ℕ) (todo : List TimerStruct) (s : TimerQueue)
    → Agrees k (t ∷ todo) s
    → Agrees k (record t { repeat_times = times; expire = when } ∷ todo) s
unfolding count
retimed-Agrees k t times when todo s a = record { same = a.same; once = a.once; fresh = a.fresh }

handle_timer-Agrees :
    (k : ℕ) (o : Outside) (now : ℕ) (t : TimerStruct) (todo : List TimerStruct) (s : TimerQueue)
    → Agrees k (t ∷ todo) s
    → Agrees k todo (handle_timer o now t s)
unfolding handle_timer
handle_timer-Agrees k o now t todo s a =
    let gone = dropped-Agrees k t todo s a in
    let after = call_task-Agrees k o now t todo s a in
    let u : TimerStruct = record t {
      repeat_times = t.repeat_times - 1;
      expire = after_micro_seconds t.repeat_interval (later o now t);
    } in
    let s' = call_task o now t s in
    let again =
      add_timer-Agrees k (later o now t) u todo s' (retimed-Agrees k t _ _ todo s' after) in
    let done = less-Agrees k t todo s' after in
    ground (
      arith, gone.same, gone.once, gone.fresh, again.same, again.once, again.fresh, done.same,
      done.once, done.fresh,
    )

handle_all-Agrees :
    (k : ℕ) (o : Outside) (now : ℕ) (ts : List TimerStruct) (s : TimerQueue)
    → Agrees k ts s
    → Agrees k [] (handle_all o now ts s)
unfolding handle_all
handle_all-Agrees k o now [] s a = a
handle_all-Agrees k o now (t ∷ ts) s a =
    handle_all-Agrees k o (later o now t) ts (handle_timer o now t s)
      (handle_timer-Agrees k o now t ts s a)

pub take_expired_timers-Agrees :
    (k now : ℕ) (s : TimerQueue)
    → Agrees k [] s
    → Agrees k (take_expired_timers now s).0 (take_expired_timers now s).1
unfolding take_expired_timers count
take_expired_timers-Agrees k now s a =
    let (popped, rest) = pop_expired_timers now s.waiting_timers in
    let split = ap (count k) (pop_expired_timers-AllExpired now s.waiting_timers).0 in
    let sum = count-append k popped rest in
    record {
      same = ground (arith, a.same, a.once, split, sum, has-erase_all k popped s.timers_map);
      once = omega (arith, a.once, split, sum);
      fresh = λ h. omega (arith, a.fresh h, split, sum);
    }

on_timeout-Agrees :
    (k : ℕ) (o : Outside) (now : ℕ) (s : TimerQueue)
    → Agrees k [] s
    → Agrees k [] (on_timeout o now s)
unfolding on_timeout
on_timeout-Agrees k o now s a =
    let (popped, s1) = take_expired_timers now s in
    let b = take_expired_timers-Agrees k now s a in
    handle_all-Agrees k o now popped
      (record s1 { timer_fd = rearmed (get_next_timeout now s1) s1.timer_fd })
      (record { same = b.same; once = b.once; fresh = b.fresh })

run-Agrees : (k : ℕ) (es : List Event) (s : TimerQueue) → Agrees k [] s → Agrees k [] (run es s)
unfolding run step
run-Agrees k [] s a = a
run-Agrees k (calls now c ∷ es) s a =
    run-Agrees k es (do_call now c s) (do_call-Agrees k now c [] s a)
run-Agrees k (fires o now ∷ es) s a =
    run-Agrees k es (on_timeout o now s) (on_timeout-Agrees k o now s a)

pub reached-Agrees : (k : ℕ) (es : List Event) → Agrees k [] (run es new_queue)
unfolding has count runs
reached-Agrees k es =
    run-Agrees k es new_queue (record { same = refl; once = omega arith; fresh = λ h. refl })

-- After any run of a new queue, whatever the tasks of the timers do to it, `timers_map` holds exactly
-- the ids of the timers that wait, and no two of these have the same id.
pub run_agrees :
    (k : ℕ) (es : List Event)
    → let s = run es new_queue in
      ((if has k s.timers_map then 1 else 0) ≡ count k s.waiting_timers)
      × (count k s.waiting_timers ≤ 1)
unfolding count
run_agrees k es = let a = reached-Agrees k es in (a.same, omega (arith, a.once))
