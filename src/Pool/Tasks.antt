-- ===== src/Pool/Tasks.antt =====
-- What becomes of the tasks of src/net/ThreadPool.cc: none is executed after it was
-- cancelled, and the queue keeps to its size.
use jerry.Base.{
  ℕ, ◌+◌, ◌≤◌, ◌<◌, ◌≡◌, ◌⊎◌, ◌∙◌, refl, true, List, [], ◌∷◌, length, ltb, if◌then◌else◌, erase,
  has, has-emplace, has-erase, arith,
}
use jerry.Pool.{
  TaskPriority, TaskStruct, ThreadPool, start, get_pending_tasks, submit_task, cancel_task, Action,
  submits, cancels, takes, discards, stops, do_action, do_actions,
}
use jerry.Pool.Queue.{
  times, count, live, Popped, count-mark, length-mark, live-mark, discards_keeps, takes_keeps,
}

-- The id `k` is in the map as often as in the queue, and once among the tasks that wait, were executed and
-- were deleted, if it was given out; the queue keeps to its size.
pub record IsValid (k : ℕ) (s : ThreadPool) : Type 0 where
  pub same : (if has k s.tasks_map then 1 else 0) ≡ count k s.pending_tasks
  pub once :
      count k s.pending_tasks + times k s.executed + times k s.deleted
      ≡ (if ltb k s.next_task_id then 1 else 0)
  pub fits : s.pending_size ≡ 0 ⊎ length s.pending_tasks ≤ s.pending_size

submit_task-IsValid :
    (k : ℕ) (priority : TaskPriority) (s : ThreadPool)
    → IsValid k s
    → IsValid k (submit_task priority s).1
unfolding submit_task get_pending_tasks count
submit_task-IsValid k priority s v =
    ground (arith, v.same, v.once, v.fits, has-emplace k s.next_task_id s.tasks_map)

cancel_task-IsValid : (k j : ℕ) (s : ThreadPool) → IsValid k s → IsValid k (cancel_task j s).1
unfolding cancel_task
cancel_task-IsValid k j s v =
    ground
      (arith, v.same, v.once, v.fits, count-mark k j s.pending_tasks, length-mark j s.pending_tasks)

-- What a turn makes of the state, for each answer of `pop`.
taken-IsValid :
    (k : ℕ) (s : ThreadPool) (r : TaskStruct × List TaskStruct)
    → IsValid k s
    → Popped k s.pending_tasks r
    → IsValid k (record s {
      pending_tasks = r.1;
      tasks_map = erase r.0.tid s.tasks_map;
      executed = r.0.tid ∷ s.executed;
    })
unfolding times
taken-IsValid k s r v p =
    ground (arith, v.same, v.once, v.fits, p.counted, p.shorter, has-erase k r.0.tid s.tasks_map)

deleted-IsValid :
    (k : ℕ) (s : ThreadPool) (r : TaskStruct × List TaskStruct)
    → IsValid k s
    → Popped k s.pending_tasks r
    → IsValid k (record s {
      pending_tasks = r.1;
      tasks_map = erase r.0.tid s.tasks_map;
      deleted = r.0.tid ∷ s.deleted;
    })
unfolding times
deleted-IsValid k s r v p =
    ground (arith, v.same, v.once, v.fits, p.counted, p.shorter, has-erase k r.0.tid s.tasks_map)

do_action-IsValid : (k : ℕ) (a : Action) (s : ThreadPool) → IsValid k s → IsValid k (do_action a s)
unfolding do_action
do_action-IsValid k (submits priority) s v = submit_task-IsValid k priority s v
do_action-IsValid k (cancels tid) s v = cancel_task-IsValid k tid s v
do_action-IsValid k (takes n) s v =
    takes_keeps (IsValid k) k s v (λ r h e. deleted-IsValid k s r v h)
      (λ r h e. taken-IsValid k s r v h) n
do_action-IsValid k (discards n) s v =
    discards_keeps (IsValid k) k s v (λ r. deleted-IsValid k s r v) n
do_action-IsValid k stops s v = record { same = v.same; once = v.once; fits = v.fits }

pub do_actions-IsValid :
    (k : ℕ) (acts : List Action) (s : ThreadPool) → IsValid k s → IsValid k (do_actions acts s)
unfolding do_actions
do_actions-IsValid k [] s v = v
do_actions-IsValid k (a ∷ acts) s v =
    do_actions-IsValid k acts (do_action a s) (do_action-IsValid k a s v)

pub start-IsValid : (k size : ℕ) → IsValid k (start size)
unfolding has count times
start-IsValid k size = record { same = refl; once = ground arith; fits = ground arith }

-- The chances that the task `k` has to be executed, with its executions: at most `n`, and the id was given
-- out.
pub record AtMost (k n : ℕ) (s : ThreadPool) : Type 0 where
  pub known : k < s.next_task_id
  pub bounded : live k s.pending_tasks + times k s.executed ≤ n

do_action-AtMost :
    (k n : ℕ) (a : Action) (s : ThreadPool) → AtMost k n s → AtMost k n (do_action a s)
unfolding do_action submit_task cancel_task live times
do_action-AtMost k n (submits priority) s h = ground (arith, h.known, h.bounded)
do_action-AtMost k n (cancels tid) s h =
    ground (arith, h.known, h.bounded, live-mark k tid s.pending_tasks)
do_action-AtMost k n (takes i) s h =
    takes_keeps (AtMost k n) k s h (λ r p e. ground (arith, h.known, h.bounded, p.lives))
      (λ r p e. ground (arith, h.known, h.bounded, p.lives)) i
do_action-AtMost k n (discards i) s h =
    discards_keeps (AtMost k n) k s h (λ r p. ground (arith, h.known, h.bounded, p.lives)) i
do_action-AtMost k n stops s h = record { known = h.known; bounded = h.bounded }

do_actions-AtMost :
    (k n : ℕ) (acts : List Action) (s : ThreadPool) → AtMost k n s → AtMost k n (do_actions acts s)
unfolding do_actions
do_actions-AtMost k n [] s h = h
do_actions-AtMost k n (a ∷ acts) s h =
    do_actions-AtMost k n acts (do_action a s) (do_action-AtMost k n a s h)

cancelled-AtMost :
    (k : ℕ) (s : ThreadPool)
    → IsValid k s
    → (cancel_task k s).0 ≡ true
    → AtMost k 0 (cancel_task k s).1
unfolding cancel_task
cancelled-AtMost k s v h = ground (arith, v.same, v.once, live-mark k k s.pending_tasks)

-- A task that `CancelTask` answered true for is not executed, whatever came before and comes after.
pub cancelled_executed :
    (size k : ℕ) (acts more : List Action)
    → (cancel_task k (do_actions acts (start size))).0 ≡ true
    → times k (do_actions more (cancel_task k (do_actions acts (start size))).1).executed ≡ 0
cancelled_executed size k acts more h =
    let s = do_actions acts (start size) in
    let v = do_actions-IsValid k acts (start size) (start-IsValid k size) in
    let m = do_actions-AtMost k 0 more (cancel_task k s).1 (cancelled-AtMost k s v h) in
    omega (arith, m.bounded)

do_action-pending_size :
    (a : Action) (s : ThreadPool) → (do_action a s).pending_size ≡ s.pending_size
unfolding do_action submit_task cancel_task
do_action-pending_size (submits priority) s = ground arith
do_action-pending_size (cancels tid) s = ground arith
do_action-pending_size (takes n) s =
    takes_keeps (λ s'. s'.pending_size ≡ s.pending_size) 0 s refl (λ r p e. refl) (λ r p e. refl) n
do_action-pending_size (discards n) s =
    discards_keeps (λ s'. s'.pending_size ≡ s.pending_size) 0 s refl (λ r p. refl) n
do_action-pending_size stops s = refl

do_actions-pending_size :
    (acts : List Action) (s : ThreadPool) → (do_actions acts s).pending_size ≡ s.pending_size
unfolding do_actions
do_actions-pending_size [] s = refl
do_actions-pending_size (a ∷ acts) s =
    do_actions-pending_size acts (do_action a s) ∙ do_action-pending_size a s

-- A pool that was started with a bound never has more pending tasks.
pub pending_bounded :
    (size : ℕ) (acts : List Action)
    → 0 < size
    → get_pending_tasks (do_actions acts (start size)) ≤ size
unfolding get_pending_tasks
pending_bounded size acts h =
    let v = do_actions-IsValid 0 acts (start size) (start-IsValid 0 size) in
    let e = do_actions-pending_size acts (start size) in grind (arith, v.fits, e)
