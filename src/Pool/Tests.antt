-- ===== src/Pool/Tests.antt =====
-- The thread pool's theorems at small inputs.
use jerry.Base.{
  ◌+◌, ◌≤◌, ◌≡◌, refl, true, List, [], ◌∷◌, arith, if◌then◌else◌, ltb, has, emplace, erase,
}
use jerry.Pool.{
  ThreadPool, Action, submits, takes, discards, stops, low, normal, high, emergency, start,
  do_actions, submit_task, take_task, cancel_task, get_pending_tasks,
}
use jerry.Pool.Queue.{times, count}
use jerry.Pool.Kept.{tasks_kept}
use jerry.Pool.Tasks.{cancelled_executed, pending_bounded}
use jerry.Pool.Workers.{
  Event, Threads, advances, advance, start_threads, locked, stores_stop, notifies_all, run, step,
  submits_task, cancels_task,
}
use jerry.Pool.Stopping.{blocking_at, IsQuiet, asleep_at, stop_lost}
use jerry.Pool.Ends.{rank_all, steps_left, finish, stop_returns}

-- The third is refused, the second has the higher priority and is taken first.
abbrev some_actions : List Action
some_actions =
    submits low ∷ submits high ∷ submits emergency ∷ takes 1 ∷ takes 0 ∷ submits normal ∷ []

abbrev more_actions : List Action
more_actions = takes 1 ∷ takes 0 ∷ takes 0 ∷ stops ∷ discards 0 ∷ []

abbrev some_pool : ThreadPool
some_pool = do_actions some_actions (start 2)

some_pool_executed : some_pool.executed ≡ 1 ∷ []
unfolding do_actions
some_pool_executed = refl

cancelled_executed_example :
    times 0 (do_actions more_actions (cancel_task 0 some_pool).1).executed ≡ 0
unfolding do_actions cancel_task has emplace erase
cancelled_executed_example = cancelled_executed 2 0 some_actions more_actions refl

tasks_kept_example :
    (count 1 some_pool.pending_tasks + times 1 some_pool.executed
      ≡ (if ltb 1 some_pool.next_task_id then 1 else 0))
    × (times 1 some_pool.deleted ≡ 0)
    × ((if has 1 some_pool.tasks_map then 1 else 0) ≡ count 1 some_pool.pending_tasks)
tasks_kept_example = tasks_kept 2 1 some_actions refl

pending_bounded_example : get_pending_tasks some_pool ≤ 2
pending_bounded_example = pending_bounded 2 some_actions (omega arith)

-- The only worker has found no task and not begun to wait.
abbrev at_wait : Threads
at_wait = run (advances 0 0 ∷ []) (start_threads 1 0)

abbrev steps_after : List Event
steps_after = advances 0 0 ∷ cancels_task 0 ∷ advances 0 0 ∷ advances 0 0 ∷ []

stop_lost_example :
    let c' = run steps_after (step notifies_all (step stores_stop at_wait)) in
    (c'.pool.stop ≡ true) × (asleep_at 0 c'.workers ≡ true)
unfolding run advance blocking_at IsQuiet
stop_lost_example = stop_lost 0 steps_after at_wait refl tt

abbrev stopping : Threads
stopping =
    run (submits_task low 0 ∷ advances 0 0 ∷ submits_task high 0 ∷ stores_stop ∷ notifies_all ∷ [])
      (start_threads 2 0)

abbrev busy : Threads
busy = run (submits_task low 0 ∷ advances 0 0 ∷ submits_task high 0 ∷ []) (start_threads 2 0)

stop_returns_example :
    let c1 = step notifies_all (step stores_stop busy) in
    rank_all (finish (steps_left c1) c1).workers ≡ 0
unfolding run advance submit_task take_task locked
stop_returns_example = stop_returns busy refl
