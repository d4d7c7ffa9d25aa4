-- ===== src/Pool/Stopping.antt =====
-- A worker of src/net/ThreadPool.cc that `Stop` does not wake.
use jerry.Base.{
  ℕ, zero, suc, ◌≡◌, Bool, true, false, ◌||◌, List, [], ◌∷◌, Option, none, some, refl, arith,
}
use jerry.Pool.{ThreadPool, TaskStruct, pop, map_popped, as_deleted, discard_task, cancel_task}
use jerry.Pool.Workers.{
  Worker, looping, blocking, waiting, woken, executing, discarding, exited, Threads, check,
  put_first, locked, is_blocking, is_waiting, advance, advance_at, wake_all, Event, submits_task,
  cancels_task, stores_stop, notifies_all, advances, wakes_spuriously, after_discard, step, run,
}

-- Nothing in the list submits a task, notifies the workers, or ends a `wait` spuriously.
unfoldable pub IsQuiet : List Event → Type 0
IsQuiet [] = Unit {0}
IsQuiet (submits_task priority i ∷ es) = ⊥
IsQuiet (cancels_task k ∷ es) = IsQuiet es
IsQuiet (stores_stop ∷ es) = IsQuiet es
IsQuiet (notifies_all ∷ es) = ⊥
IsQuiet (advances i n ∷ es) = IsQuiet es
IsQuiet (wakes_spuriously i ∷ es) = ⊥

abbrev pub is_asleep : Worker → Bool
is_asleep w = is_blocking w || is_waiting w

unfoldable pub asleep_at : ℕ → List Worker → Bool
asleep_at i [] = false
asleep_at zero (w ∷ ws) = is_asleep w
asleep_at (suc i) (w ∷ ws) = asleep_at i ws

unfoldable pub blocking_at : ℕ → List Worker → Bool
blocking_at i [] = false
blocking_at zero (w ∷ ws) = is_blocking w
blocking_at (suc i) (w ∷ ws) = blocking_at i ws

advance_at-asleep :
    (l : Bool) (i j n : ℕ) (ws : List Worker) (s : ThreadPool)
    → asleep_at i ws ≡ true
    → asleep_at i (advance_at l j n ws s).0 ≡ true
unfolding asleep_at advance_at advance
advance_at-asleep l i j n [] s h = h
advance_at-asleep l zero zero n (w ∷ ws) s h = ground arith
advance_at-asleep l zero (suc j) n (w ∷ ws) s h = h
advance_at-asleep l (suc i) zero n (w ∷ ws) s h = ground arith
advance_at-asleep l (suc i) (suc j) n (w ∷ ws) s h = advance_at-asleep l i j n ws s h

wake_all-blocking :
    (i : ℕ) (ws : List Worker) → blocking_at i ws ≡ true → asleep_at i (wake_all ws) ≡ true
unfolding asleep_at blocking_at wake_all
wake_all-blocking i [] h = h
wake_all-blocking zero (w ∷ ws) h = ground arith
wake_all-blocking (suc i) (w ∷ ws) h = wake_all-blocking i ws h

run-asleep :
    (i : ℕ) (es : List Event) (c : Threads)
    → IsQuiet es
    → asleep_at i c.workers ≡ true
    → asleep_at i (run es c).workers ≡ true
unfolding run IsQuiet step
run-asleep i [] c q h = h
run-asleep i (submits_task priority j ∷ es) c q h = absurd q
run-asleep i (cancels_task k ∷ es) c q h =
    run-asleep i es (step (cancels_task k) c) q (ground (arith, h))
run-asleep i (stores_stop ∷ es) c q h = run-asleep i es (step stores_stop c) q h
run-asleep i (notifies_all ∷ es) c q h = absurd q
run-asleep i (advances j n ∷ es) c q h =
    run-asleep i es (step (advances j n) c) q
      (advance_at-asleep (locked c.workers) i j n c.workers c.pool h)
run-asleep i (wakes_spuriously j ∷ es) c q h = absurd q

-- Whether the flag is still set after a worker's step.
abbrev keeps_stop : Option (Worker × ThreadPool) → Bool
keeps_stop none = true
keeps_stop (some r) = r.1.stop

discarded-keeps_stop :
    (o : Option (TaskStruct × List TaskStruct)) (s : ThreadPool)
    → s.stop ≡ true
    → keeps_stop (after_discard (map_popped (as_deleted s) o)) ≡ true
discarded-keeps_stop none s h = refl
discarded-keeps_stop (some r) s h = h

advance-keeps_stop :
    (l : Bool) (n : ℕ) (w : Worker) (s : ThreadPool)
    → s.stop ≡ true
    → keeps_stop (advance l n w s) ≡ true
unfolding advance check discard_task
advance-keeps_stop l n looping s h = ground (arith, h)
advance-keeps_stop l n blocking s h = h
advance-keeps_stop l n waiting s h = refl
advance-keeps_stop l n woken s h = ground (arith, h)
advance-keeps_stop l n executing s h = h
advance-keeps_stop l n discarding s h =
    ground (arith, h, discarded-keeps_stop (pop n s.pending_tasks) s h)
advance-keeps_stop l n exited s h = refl

put_first-stop :
    (w : Worker) (ws : List Worker) (s : ThreadPool) (o : Option (Worker × ThreadPool))
    → s.stop ≡ true
    → keeps_stop o ≡ true
    → (put_first w ws s o).1.stop ≡ true
put_first-stop w ws s none h k = h
put_first-stop w ws s (some r) h k = k

advance_at-stop :
    (l : Bool) (i n : ℕ) (ws : List Worker) (s : ThreadPool)
    → s.stop ≡ true
    → (advance_at l i n ws s).1.stop ≡ true
unfolding advance_at
advance_at-stop l i n [] s h = h
advance_at-stop l zero n (w ∷ ws) s h =
    put_first-stop w ws s (advance l n w s) h (advance-keeps_stop l n w s h)
advance_at-stop l (suc i) n (w ∷ ws) s h = advance_at-stop l i n ws s h

run-stop :
    (es : List Event) (c : Threads) → IsQuiet es → c.pool.stop ≡ true → (run es c).pool.stop ≡ true
unfolding run IsQuiet step cancel_task
run-stop [] c q h = h
run-stop (submits_task priority j ∷ es) c q h = absurd q
run-stop (cancels_task k ∷ es) c q h = run-stop es (step (cancels_task k) c) q (ground (arith, h))
run-stop (stores_stop ∷ es) c q h = run-stop es (step stores_stop c) q refl
run-stop (notifies_all ∷ es) c q h = absurd q
run-stop (advances j n ∷ es) c q h =
    run-stop es (step (advances j n) c) q
      (advance_at-stop (locked c.workers) j n c.workers c.pool h)
run-stop (wakes_spuriously j ∷ es) c q h = absurd q

-- If `Stop` sets the flag and notifies while a worker is between its test of the predicate and its sleep:
-- the flag is set, and however the other workers go on, this worker sleeps and does not come to its end,
-- until someone submits a task or notifies again, or its `wait` ends spuriously.
pub stop_lost :
    (i : ℕ) (es : List Event) (c : Threads)
    → blocking_at i c.workers ≡ true
    → IsQuiet es
    → let c' = run es (step notifies_all (step stores_stop c)) in
      (c'.pool.stop ≡ true) × (asleep_at i c'.workers ≡ true)
unfolding step
stop_lost i es c h q =
    let c1 = step notifies_all (step stores_stop c) in
    (run-stop es c1 q refl, run-asleep i es c1 q (wake_all-blocking i c.workers h))
