-- ===== src/Pool/Kept.antt =====
-- What becomes of a task of src/net/ThreadPool.cc that no one cancels, before any worker discards tasks.
use jerry.Base.{
  ℕ, ◌+◌, ◌≤◌, ◌≡◌, refl, true, false, Bool, ◌&&◌, not, List, [], ◌∷◌, ltb, ◌==◌, if◌then◌else◌,
  has, arith,
}
use jerry.Pool.{
  TaskStruct, ThreadPool, start, submit_task, cancel_task, Action, submits, cancels, takes,
  discards, stops, do_action, do_actions,
}
use jerry.Pool.Queue.{times, count, live, count-mark, live-mark, takes_keeps}
use jerry.Pool.Tasks.{do_actions-IsValid, start-IsValid}

-- The calls leave the task `k` alone, and no worker is in its last loop, which runs without the mutex.
abbrev pub leaves : ℕ → Action → Bool
leaves k (submits priority) = true
leaves k (cancels tid) = not (tid == k)
leaves k (takes n) = true
leaves k (discards n) = false
leaves k stops = true

abbrev pub all_leave : ℕ → List Action → Bool
all_leave k [] = true
all_leave k (a ∷ acts) = leaves k a && all_leave k acts

-- The task `k` is not cancelled where it waits, and was not deleted.
record IsKept (k : ℕ) (s : ThreadPool) : Type 0 where
  pub alive : live k s.pending_tasks ≡ count k s.pending_tasks
  pub present : times k s.deleted ≡ 0

live-count : (k : ℕ) (q : List TaskStruct) → live k q ≤ count k q
unfolding live count
live-count k [] = omega arith
live-count k (t ∷ q) = ground (arith, live-count k q)

do_action-IsKept :
    (k : ℕ) (a : Action) (s : ThreadPool)
    → leaves k a ≡ true
    → IsKept k s
    → IsKept k (do_action a s)
unfolding do_action submit_task cancel_task count live times
do_action-IsKept k (submits priority) s h v = ground (arith, v.alive, v.present)
do_action-IsKept k (cancels tid) s h v = ground (
  arith,
  h,
  v.alive,
  v.present,
  count-mark k tid s.pending_tasks,
  live-mark k tid s.pending_tasks,
)
do_action-IsKept k (takes n) s h v =
    takes_keeps (IsKept k) k s v
      (λ r p e. ground (arith, e, v.alive, v.present, p.counted, p.lives, live-count k r.1))
      (λ r p e. ground (arith, e, v.alive, v.present, p.counted, p.lives, live-count k r.1)) n
do_action-IsKept k (discards n) s h v = absurd (ground (arith, h))
do_action-IsKept k stops s h v = record { alive = v.alive; present = v.present }

do_actions-IsKept :
    (k : ℕ) (acts : List Action) (s : ThreadPool)
    → all_leave k acts ≡ true
    → IsKept k s
    → IsKept k (do_actions acts s)
unfolding do_actions
do_actions-IsKept k [] s h v = v
do_actions-IsKept k (a ∷ acts) s h v =
    do_actions-IsKept k acts (do_action a s) (ground (arith, h))
      (do_action-IsKept k a s (ground (arith, h)) v)

-- Until a worker comes to the loop in which it discards tasks, and as long as no one calls `CancelTask` with
-- the id `k`: if it was given out, the task with this id waits or was taken to be executed, just one of these
-- and once, and it was not deleted without; if it was not, no task has it. The id is in `tasks_map` exactly
-- if its task waits.
pub tasks_kept :
    (size k : ℕ) (acts : List Action)
    → all_leave k acts ≡ true
    → let s = do_actions acts (start size) in
      (count k s.pending_tasks + times k s.executed ≡ (if ltb k s.next_task_id then 1 else 0))
      × (times k s.deleted ≡ 0)
      × ((if has k s.tasks_map then 1 else 0) ≡ count k s.pending_tasks)
unfolding live count times
tasks_kept size k acts h =
    let v = do_actions-IsValid k acts (start size) (start-IsValid k size) in
    let w = do_actions-IsKept k acts (start size) h (record { alive = refl; present = refl }) in
    (omega (arith, v.once, w.present), w.present, v.same)
