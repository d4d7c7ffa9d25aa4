-- ===== src/Timer/Order.antt =====
-- The order of the queue of src/net/TimerQueue.cc: the timer that expires last is on top, and holds up those
-- that have expired.
use jerry.Base.{
  ℕ, ◌-◌, ◌≤◌, ◌<◌, ◌≡◌, refl, sym, subst, Bool, true, false, List, [], ◌∷◌, ◌++◌, ltb, leb, has,
  none, ◌&&◌, ◌||◌, arith, Bool-cases, inl, inr, ltb→le, ltb→lt, if◌then◌else◌, some,
}
use jerry.Timer.{
  TimerStruct, TimerQueue, new_queue, timer_cmp, push, pop_loop, pop_expired_timers, add_timer,
  mark, cancel_timer, Call, adds_at, adds_repeated, adds_until, cancels, timer_at, timer_repeated,
  timer_until, do_call, do_calls, Outside, call_task, later, handle_timer, handle_all,
  take_expired_timers, on_timeout, Event, calls, fires, step, run, id_or,
}
use jerry.Utils.{after_micro_seconds}
use jerry.Timer.Pop.{pop_expired_timers-AllExpired}

-- No timer of the list expires after `top`.
abbrev AllBefore : ℕ → List TimerStruct → Type 0
AllBefore top [] = Unit {0}
AllBefore top (t ∷ q) = (t.expire ≤ top) × AllBefore top q

-- The order that the priority queue keeps.
abbrev Sorted : List TimerStruct → Type 0
Sorted [] = Unit {0}
Sorted (t ∷ q) = AllBefore t.expire q × Sorted q

AllBefore-push :
    (top : ℕ) (t : TimerStruct) (q : List TimerStruct)
    → t.expire ≤ top
    → AllBefore top q
    → AllBefore top (push t q)
unfolding push timer_cmp
AllBefore-push top t [] h b = (h, tt)
AllBefore-push top t (u ∷ q) h b = elim (Bool-cases (ltb u.expire t.expire)) [
  | inl over ↦ rw (push, timer_cmp, over) (h, b)
  | inr under ↦ rw (push, timer_cmp, under) (b.0, AllBefore-push top t q h b.1)
]

AllBefore-trans : (a b : ℕ) (q : List TimerStruct) → a ≤ b → AllBefore a q → AllBefore b q
AllBefore-trans a b [] h k = tt
AllBefore-trans a b (t ∷ q) h k = (omega (arith, k.0, h), AllBefore-trans a b q h k.1)

-- `emplace` keeps the order of the queue, the timer that expires last on top.
push-Sorted : (t : TimerStruct) (q : List TimerStruct) → Sorted q → Sorted (push t q)
unfolding push timer_cmp
push-Sorted t [] s = (tt, tt)
push-Sorted t (u ∷ q) s = elim (Bool-cases (ltb u.expire t.expire)) [
  | inl over ↦
      let lt = ltb→lt u.expire t.expire over in
      rw (push, timer_cmp, over)
        ((omega arith, AllBefore-trans u.expire t.expire q (omega arith) s.0), s)
  | inr under ↦
      rw (push, timer_cmp, under)
        (AllBefore-push u.expire t q (ltb→le u.expire t.expire under) s.0, push-Sorted t q s.1)
]

-- The order only reads the times.
AllBefore-mark : (top k : ℕ) (q : List TimerStruct) → AllBefore top q → AllBefore top (mark k q)
unfolding mark
AllBefore-mark top k [] b = b
AllBefore-mark top k (t ∷ q) b = (ground (arith, b.0), AllBefore-mark top k q b.1)

AllBefore-le : (a b : ℕ) (q : List TimerStruct) → a ≡ b → AllBefore a q → AllBefore b q
AllBefore-le a b q e h = subst (λ x. AllBefore x q) e h

mark-Sorted : (k : ℕ) (q : List TimerStruct) → Sorted q → Sorted (mark k q)
unfolding mark
mark-Sorted k [] s = s
mark-Sorted k (t ∷ q) s = (
  AllBefore-le _ _ (mark k q) (ground arith) (AllBefore-mark t.expire k q s.0),
  mark-Sorted k q s.1,
)

append-Sorted : (xs ys : List TimerStruct) → Sorted (xs ++ ys) → Sorted ys
append-Sorted [] ys s = s
append-Sorted (t ∷ xs) ys s = append-Sorted xs ys s.1

abbrev IsSorted : TimerQueue → Type 0
IsSorted s = Sorted s.waiting_timers

both-IsSorted :
    (b : Bool) (x y : TimerQueue) → IsSorted x → IsSorted y → IsSorted (if b then x else y)
both-IsSorted true x y h k = h
both-IsSorted false x y h k = k

answers-IsSorted :
    {A : Type 0} (b : Bool) (x y : A × TimerQueue)
    → IsSorted x.1
    → IsSorted y.1
    → IsSorted (if b then x else y).1
answers-IsSorted true x y h k = h
answers-IsSorted false x y h k = k

add_timer-IsSorted :
    (now : ℕ) (t : TimerStruct) (s : TimerQueue) → IsSorted s → IsSorted (add_timer now t s).1
unfolding add_timer
add_timer-IsSorted now t s h =
    answers-IsSorted (leb t.expire now) (none, s) _ h
      (push-Sorted (record t { tid = some (id_or s.next_timer_id t.tid) }) s.waiting_timers h)

cancel_timer-IsSorted : (k : ℕ) (s : TimerQueue) → IsSorted s → IsSorted (cancel_timer k s).1
unfolding cancel_timer
cancel_timer-IsSorted k s h =
    answers-IsSorted (has k s.timers_map) _ (false, s) (mark-Sorted k s.waiting_timers h) h

do_call-IsSorted : (now : ℕ) (c : Call) (s : TimerQueue) → IsSorted s → IsSorted (do_call now c s)
unfolding do_call
do_call-IsSorted now (adds_at when) s h = add_timer-IsSorted now (timer_at when) s h
do_call-IsSorted now (adds_repeated us n) s h = add_timer-IsSorted now (timer_repeated now us n) s h
do_call-IsSorted now (adds_until us) s h = add_timer-IsSorted now (timer_until now us) s h
do_call-IsSorted now (cancels k) s h = cancel_timer-IsSorted k s h

do_calls-IsSorted :
    (now : ℕ) (cs : List Call) (s : TimerQueue) → IsSorted s → IsSorted (do_calls now cs s)
unfolding do_calls
do_calls-IsSorted now [] s h = h
do_calls-IsSorted now (c ∷ cs) s h =
    do_calls-IsSorted now cs (do_call now c s) (do_call-IsSorted now c s h)

call_task-IsSorted :
    (o : Outside) (now : ℕ) (t : TimerStruct) (s : TimerQueue)
    → IsSorted s
    → IsSorted (call_task o now t s)
unfolding call_task
call_task-IsSorted o now t s h =
    both-IsSorted t.has_task _ s
      (do_calls-IsSorted now (o.acts t.tid) (record s { called = t.tid ∷ s.called }) h) h

handle_timer-IsSorted :
    (o : Outside) (now : ℕ) (t : TimerStruct) (s : TimerQueue)
    → IsSorted s
    → IsSorted (handle_timer o now t s)
unfolding handle_timer
handle_timer-IsSorted o now t s h =
    let s' = call_task o now t s in
    let h' = call_task-IsSorted o now t s h in
    let u : TimerStruct = record t {
      repeat_times = t.repeat_times - 1;
      expire = after_micro_seconds t.repeat_interval (later o now t);
    } in
    both-IsSorted t.canceled _ _ h (
      both-IsSorted (t.has_stop_condition && o.stops t.tid) _ _ h
        (both-IsSorted (ltb 0 t.repeat_times) _ s' (add_timer-IsSorted (later o now t) u s' h') h'))

handle_all-IsSorted :
    (o : Outside) (now : ℕ) (ts : List TimerStruct) (s : TimerQueue)
    → IsSorted s
    → IsSorted (handle_all o now ts s)
unfolding handle_all
handle_all-IsSorted o now [] s h = h
handle_all-IsSorted o now (t ∷ ts) s h =
    handle_all-IsSorted o (later o now t) ts (handle_timer o now t s)
      (handle_timer-IsSorted o now t s h)

on_timeout-IsSorted :
    (o : Outside) (now : ℕ) (s : TimerQueue) → IsSorted s → IsSorted (on_timeout o now s)
unfolding on_timeout take_expired_timers
on_timeout-IsSorted o now s h =
    let (popped, rest) = pop_expired_timers now s.waiting_timers in
    let same = (pop_expired_timers-AllExpired now s.waiting_timers).0 in
    handle_all-IsSorted o now popped _ (append-Sorted popped rest (subst Sorted (sym same) h))

run-IsSorted : (es : List Event) (s : TimerQueue) → IsSorted s → IsSorted (run es s)
unfolding run step
run-IsSorted [] s h = h
run-IsSorted (calls now c ∷ es) s h = run-IsSorted es (do_call now c s) (do_call-IsSorted now c s h)
run-IsSorted (fires o now ∷ es) s h =
    run-IsSorted es (on_timeout o now s) (on_timeout-IsSorted o now s h)

-- Some timer waits that has not expired.
abbrev pub any_late : ℕ → List TimerStruct → Bool
any_late now [] = false
any_late now (t ∷ q) = ltb now t.expire || any_late now q

late_before :
    (top now : ℕ) (q : List TimerStruct) → AllBefore top q → any_late now q ≡ true → now < top
late_before top now [] b h = absurd (ground (arith, h))
late_before top now (t ∷ q) b h = elim (Bool-cases (ltb now t.expire)) [
  | inl e ↦ let lt = ltb→lt now t.expire e in omega (arith, lt, b.0)
  | inr e ↦ late_before top now q b.1 (ground (arith, h, e))
]

late_on_top :
    (now : ℕ) (q : List TimerStruct)
    → Sorted q
    → any_late now q ≡ true
    → (pop_expired_timers now q).0 ≡ []
unfolding pop_expired_timers pop_loop
late_on_top now [] s h = refl
late_on_top now (t ∷ q) s h = elim (Bool-cases (ltb now t.expire)) [
  | inl e ↦ ground (arith, e)
  | inr e ↦
      let before = late_before t.expire now q s.0 (ground (arith, h, e)) in
      absurd (ground (arith, e, before))
]

-- After any run of a new queue, whatever the tasks do: while one timer waits that has not expired,
-- `PopExpiredTimers` pops none, however many have expired.
pub pop_expired_timers_blocked :
    (es : List Event) (now : ℕ)
    → any_late now (run es new_queue).waiting_timers ≡ true
    → (pop_expired_timers now (run es new_queue).waiting_timers).0 ≡ []
pop_expired_timers_blocked es now h = late_on_top now _ (run-IsSorted es new_queue tt) h
