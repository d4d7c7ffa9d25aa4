-- ===== src/Pool.antt =====
-- src/net/ThreadPool.h and ThreadPool.cc: the pending tasks of a thread pool, each operation as it works
-- under the mutex. `std::priority_queue` says that its top is a greatest element of `TaskCmp` and not
-- which one: the model's queue is a list, and `pop` takes the element that the caller names, if none is
-- greater. Of a task the model keeps its id, priority and `canceled`. `-1` is `none`.
pub mod Queue
pub mod Tasks
pub mod Kept
pub mod Discards
pub mod Workers
pub mod Stopping
pub mod Ends
mod Tests
use jerry.Base.{
  ℕ, zero, suc, ◌+◌, Bool, true, false, ◌&&◌, ◌||◌, not, List, [], ◌∷◌, Option, none, some, length,
  ltb, leb, ◌==◌, if◌then◌else◌, emplace, erase, has,
}

pub data TaskPriority : Type 0 where
  low : TaskPriority
  normal : TaskPriority
  high : TaskPriority
  emergency : TaskPriority

-- The values of the `enum`.
abbrev pub value : TaskPriority → ℕ
value low = 0
value normal = 1
value high = 2
value emergency = 3

pub record TaskStruct : Type 0 where
  pub tid : ℕ
  pub canceled : Bool
  pub priority : TaskPriority

-- `TaskCmp`
abbrev pub task_cmp : TaskStruct → TaskStruct → Bool
task_cmp lhs rhs = ltb (value lhs.priority) (value rhs.priority)

-- The object, with the ids of the tasks that workers took to execute and of those that they deleted
-- without, newest first.
pub record ThreadPool : Type 0 where
  pub pending_size : ℕ
  pub stop : Bool
  pub tasks_map : List ℕ
  pub pending_tasks : List TaskStruct
  pub next_task_id : ℕ
  pub executed : List ℕ
  pub deleted : List ℕ

-- What `Start` sets, before the workers run.
abbrev pub start : ℕ → ThreadPool
start pending_size = record {
  pending_size = pending_size;
  stop = false;
  tasks_map = [];
  pending_tasks = [];
  next_task_id = 0;
  executed = [];
  deleted = [];
}

unfoldable pub get_pending_tasks : ThreadPool → ℕ
get_pending_tasks s = length s.pending_tasks

-- `SubmitTask(TaskPriority, Task&&)`
unfoldable pub submit_task : TaskPriority → ThreadPool → Option ℕ × ThreadPool
unfolding get_pending_tasks
submit_task priority s =
    if ltb 0 s.pending_size && leb s.pending_size (get_pending_tasks s)
    then (none, s)
    else let tid = s.next_task_id in
      (
        some tid,
        record s {
          next_task_id = suc tid;
          pending_tasks =
              record { tid = tid; canceled = false; priority = priority } ∷ s.pending_tasks;
          tasks_map = emplace tid s.tasks_map;
        },
      )

unfoldable pub submit_normal_task : ThreadPool → Option ℕ × ThreadPool
unfolding submit_task
submit_normal_task s = submit_task normal s

-- `target->second->canceled = true`
unfoldable pub mark : ℕ → List TaskStruct → List TaskStruct
mark tid [] = []
mark tid (t ∷ q) = (if t.tid == tid then record t { canceled = true } else t) ∷ mark tid q

unfoldable pub cancel_task : ℕ → ThreadPool → Bool × ThreadPool
unfolding mark
cancel_task tid s =
    if leb s.next_task_id tid
    then (false, s)
    else if has tid s.tasks_map
    then (true, record s { pending_tasks = mark tid s.pending_tasks })
    else (false, s)

-- The `n`-th element and the others.
unfoldable pub split_at : ℕ → List TaskStruct → Option (TaskStruct × List TaskStruct)
split_at n [] = none
split_at zero (t ∷ q) = some (t, q)
split_at (suc n) (t ∷ q) = elim (split_at n q) [ none ↦ none | some r ↦ some (r.0, t ∷ r.1) ]

unfoldable pub none_greater : TaskStruct → List TaskStruct → Bool
none_greater t [] = true
none_greater t (u ∷ q) = not (task_cmp t u) && none_greater t q

-- `top` and `pop`
unfoldable pub pop : ℕ → List TaskStruct → Option (TaskStruct × List TaskStruct)
unfolding split_at none_greater
pop n q = elim (split_at n q) [
  | none ↦ none
  | some r ↦ if none_greater r.0 r.1 then some r else none
]

abbrev pub as_executed : ThreadPool → TaskStruct × List TaskStruct → ThreadPool
as_executed s r = record s {
  pending_tasks = r.1;
  tasks_map = erase r.0.tid s.tasks_map;
  executed = r.0.tid ∷ s.executed;
}

abbrev pub as_deleted : ThreadPool → TaskStruct × List TaskStruct → ThreadPool
as_deleted s r = record s {
  pending_tasks = r.1;
  tasks_map = erase r.0.tid s.tasks_map;
  deleted = r.0.tid ∷ s.deleted;
}

-- Whether the worker goes on to execute the task.
abbrev pub test_canceled : ThreadPool → TaskStruct × List TaskStruct → Bool × ThreadPool
test_canceled s r = if r.0.canceled then (false, as_deleted s r) else (true, as_executed s r)

abbrev pub map_popped {ℓ} :
    {A : Type ℓ}
    → (TaskStruct × List TaskStruct → A)
    → Option (TaskStruct × List TaskStruct)
    → Option A
map_popped f none = none
map_popped f (some r) = some (f r)

-- A worker's turn under the lock: `top`, `pop`, `erase`, and the test of `canceled`.
unfoldable pub take_task : ℕ → ThreadPool → Option (Bool × ThreadPool)
unfolding pop
take_task n s = map_popped (test_canceled s) (pop n s.pending_tasks)

-- A round of the loop that a stopped worker ends with, while no other thread uses the queue: the loop runs
-- without the mutex. Pool/Discards has the rounds of two workers at once.
unfoldable pub discard_task : ℕ → ThreadPool → Option ThreadPool
unfolding pop
discard_task n s = map_popped (as_deleted s) (pop n s.pending_tasks)

-- One call under the mutex, or one of a worker's turns.
pub data Action : Type 0 where
  submits : TaskPriority → Action
  cancels : ℕ → Action
  takes : ℕ → Action
  discards : ℕ → Action
  stops : Action

abbrev pub keep_taken : ThreadPool → Option (Bool × ThreadPool) → ThreadPool
keep_taken s none = s
keep_taken s (some r) = r.1

abbrev pub keep : ThreadPool → Option ThreadPool → ThreadPool
keep s none = s
keep s (some s') = s'

-- A turn that is not possible changes nothing.
unfoldable pub do_action : Action → ThreadPool → ThreadPool
unfolding submit_task cancel_task take_task discard_task
do_action (submits priority) s = (submit_task priority s).1
do_action (cancels tid) s = (cancel_task tid s).1
do_action (takes n) s = keep_taken s (take_task n s)
do_action (discards n) s = keep s (discard_task n s)
do_action stops s = record s { stop = true }

unfoldable pub do_actions : List Action → ThreadPool → ThreadPool
unfolding do_action
do_actions [] s = s
do_actions (a ∷ acts) s = do_actions acts (do_action a s)
