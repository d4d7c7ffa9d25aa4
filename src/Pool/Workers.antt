-- ===== src/Pool/Workers.antt =====
-- The threads of src/net/ThreadPool.cc: `RunInThread`, one step at a time, with its mutex and its condition
-- variable. Every step is atomic. So is a round of the last loop, which the code runs without the mutex: the runs here
-- are those in which the rounds of two workers do not overlap, and Pool/Discards has one where they do.
use jerry.Base.{
  ℕ, zero, suc, Bool, true, false, ◌||◌, List, [], ◌∷◌, Option, none, some, if◌then◌else◌,
  replicate,
}
use jerry.Pool.{
  TaskPriority, ThreadPool, TaskStruct, start, submit_task, cancel_task, take_task, discard_task,
}

-- Where a worker is: at the head of its loop; in `wait`, where the predicate gave false and the mutex is
-- still held; asleep; woken and not yet at the predicate; in a task; in the last loop; at the end.
pub data Worker : Type 0 where
  looping : Worker
  blocking : Worker
  waiting : Worker
  woken : Worker
  executing : Worker
  discarding : Worker
  exited : Worker

pub record Threads : Type 0 where
  pub pool : ThreadPool
  pub workers : List Worker

abbrev pub start_threads : ℕ → ℕ → Threads
start_threads workers pending_size = record {
  pool = start pending_size;
  workers = replicate workers looping;
}

abbrev pub is_blocking : Worker → Bool
is_blocking looping = false
is_blocking blocking = true
is_blocking waiting = false
is_blocking woken = false
is_blocking executing = false
is_blocking discarding = false
is_blocking exited = false

-- Whether some worker holds the mutex between two steps.
unfoldable pub locked : List Worker → Bool
locked [] = false
locked (w ∷ ws) = is_blocking w || locked ws

abbrev pub is_empty : List TaskStruct → Bool
is_empty [] = true
is_empty (t ∷ q) = false

abbrev pub after_take : Option (Bool × ThreadPool) → Option (Worker × ThreadPool)
after_take none = none
after_take (some r) = some (if r.0 then executing else looping, r.1)

abbrev pub after_discard : Option ThreadPool → Option (Worker × ThreadPool)
after_discard none = none
after_discard (some s) = some (discarding, s)

-- Under the mutex: the predicate of `wait`, and what follows where it holds.
unfoldable pub check : ℕ → ThreadPool → Option (Worker × ThreadPool)
check n s =
    if s.stop
    then some (discarding, s)
    else if is_empty s.pending_tasks
    then some (blocking, s)
    else after_take (take_task n s)

-- A worker's next step, if it can make one; `n` is the choice of `pop`. One that waits makes none by itself:
-- what ends its `wait` is an event.
unfoldable pub advance : Bool → ℕ → Worker → ThreadPool → Option (Worker × ThreadPool)
unfolding check
advance is_locked n looping s =
    if s.stop then some (discarding, s) else if is_locked then none else check n s
advance is_locked n blocking s = some (waiting, s)
advance is_locked n waiting s = none
advance is_locked n woken s = if is_locked then none else check n s
advance is_locked n executing s = some (looping, s)
advance is_locked n discarding s =
    if is_empty s.pending_tasks then some (exited, s) else after_discard (discard_task n s)
advance is_locked n exited s = none

abbrev pub wake : Worker → Worker
wake looping = looping
wake blocking = blocking
wake waiting = woken
wake woken = woken
wake executing = executing
wake discarding = discarding
wake exited = exited

unfoldable pub wake_all : List Worker → List Worker
wake_all [] = []
wake_all (w ∷ ws) = wake w ∷ wake_all ws

abbrev pub is_waiting : Worker → Bool
is_waiting looping = false
is_waiting blocking = false
is_waiting waiting = true
is_waiting woken = false
is_waiting executing = false
is_waiting discarding = false
is_waiting exited = false

unfoldable pub is_waiting_at : ℕ → List Worker → Bool
is_waiting_at i [] = false
is_waiting_at zero (w ∷ ws) = is_waiting w
is_waiting_at (suc i) (w ∷ ws) = is_waiting_at i ws

unfoldable pub wake_at : ℕ → List Worker → List Worker
wake_at i [] = []
wake_at zero (w ∷ ws) = wake w ∷ ws
wake_at (suc i) (w ∷ ws) = w ∷ wake_at i ws

unfoldable pub wake_first : List Worker → List Worker
wake_first [] = []
wake_first (w ∷ ws) = let rest = wake_first ws in if is_waiting w then woken ∷ ws else w ∷ rest

-- `notify_one`: the system picks worker `i` if it waits, or else another one that waits, if any.
unfoldable pub wake_one : ℕ → List Worker → List Worker
unfolding is_waiting_at wake_at wake_first
wake_one i ws = if is_waiting_at i ws then wake_at i ws else wake_first ws

-- A call of the interface, one of the two steps of `Stop` before it joins the workers, a step of worker `i`,
-- or a spurious end of its `wait`.
pub data Event : Type 0 where
  submits_task : TaskPriority → ℕ → Event
  cancels_task : ℕ → Event
  stores_stop : Event
  notifies_all : Event
  advances : ℕ → ℕ → Event
  wakes_spuriously : ℕ → Event

abbrev pub put_first :
    Worker → List Worker → ThreadPool → Option (Worker × ThreadPool) → List Worker × ThreadPool
put_first w ws s none = (w ∷ ws, s)
put_first w ws s (some r) = (r.0 ∷ ws, r.1)

-- The workers with the `i`-th after its step.
unfoldable pub advance_at : Bool → ℕ → ℕ → List Worker → ThreadPool → List Worker × ThreadPool
advance_at is_locked i n [] s = ([], s)
advance_at is_locked zero n (w ∷ ws) s = put_first w ws s (advance is_locked n w s)
advance_at is_locked (suc i) n (w ∷ ws) s =
    let rest = advance_at is_locked i n ws s in (w ∷ rest.0, rest.1)

-- A step that is not possible changes nothing.
unfoldable pub step : Event → Threads → Threads
unfolding locked advance_at wake_one wake_at wake_all
step (submits_task priority i) c =
    if locked c.workers
    then c
    else let (tid, s) = submit_task priority c.pool in
      elim tid [
        | none ↦ record c { pool = s }
        | some k ↦ record { pool = s; workers = wake_one i c.workers }
      ]
step (cancels_task k) c =
    if locked c.workers then c else record c { pool = (cancel_task k c.pool).1 }
step stores_stop c = record c { pool = record c.pool { stop = true } }
step notifies_all c = record c { workers = wake_all c.workers }
step (wakes_spuriously i) c = record c { workers = wake_at i c.workers }
step (advances i n) c =
    let (ws, s) = advance_at (locked c.workers) i n c.workers c.pool in
    record { pool = s; workers = ws }

unfoldable pub run : List Event → Threads → Threads
unfolding step
run [] c = c
run (e ∷ es) c = run es (step e c)
