-- ===== src/Server/Lifetime.antt =====
-- How a server ends: `Serve` and `SignalHandler` of src/net/TcpServer.cc in the main thread, `Stop` of
-- src/net/WorkerGroup.cc and src/net/IOWorker.cc, and the loops of the workers with the wake-up channel of
-- src/net/Poller.cc, each in a thread of its own. A step of a thread is a test, a store, or a system call.
-- `ThreadPool::Stop` is taken to return, and a worker that leaves its loop to have no connections left.
pub mod Shutdown
pub mod Calls
pub mod ServeEnds
mod Tests
use jerry.Base.{ℕ, suc, ◌+◌, Bool, true, false, ◌||◌, List, [], ◌∷◌, ltb, ◌==◌, if◌then◌else◌}

-- Where a worker's thread stands in `Loop`: before the test of the flag, in `epoll_wait`, in the handlers of
-- the active channels (the wake-up channel among them or not), or behind the loop.
pub data LoopState : Type 0 where
  tests polls : LoopState
  handles : Bool → LoopState
  ended : LoopState

-- `wakeups` is the counter of the eventfd.
pub record Worker : Type 0 where
  pub loop : LoopState
  pub stop_loop : Bool
  pub wakeups : ℕ

-- Where the main thread stands: in the loop of `Serve`, in `ThreadPool::Stop`, in `IOWorker::Stop` of a worker
-- before the store and before `Wakeup`, in the `join` of a worker's thread, or behind it all.
pub data MainState : Type 0 where
  monitors stops_pool : MainState
  stores wakes joins : ℕ → MainState
  stopped : MainState

pub record Server : Type 0 where
  pub workers : ℕ → Worker
  pub main : MainState
  pub stop_all_server : Bool

-- `WorkerGroup::Start`
unfoldable pub start : Server
start = record {
  workers = λ i. record { loop = tests; stop_loop = false; wakeups = 0 };
  main = monitors;
  stop_all_server = false;
}

unfoldable pub update : ℕ → Worker → (ℕ → Worker) → ℕ → Worker
update i w f j = if i == j then w else f j

-- `epoll_wait` returns if the counter is not zero or another channel has events.
unfoldable pub poll : Bool → Worker → Worker
poll others w =
    if ltb 0 w.wakeups || others then record w { loop = handles (ltb 0 w.wakeups) } else w

-- The wake-up channel's callback reads the counter, which sets it to zero.
unfoldable pub handle_wakeup : Bool → Worker → Worker
handle_wakeup woken w =
    if woken then record w { wakeups = 0; loop = tests } else record w { loop = tests }

-- One step of `IOWorker::Loop`; a step that blocks changes nothing.
unfoldable pub loop_step : Bool → Worker → Worker
unfolding poll handle_wakeup
loop_step others w = elim w.loop [
  | tests ↦ record w { loop = if w.stop_loop then ended else polls }
  | polls ↦ poll others w
  | handles woken ↦ handle_wakeup woken w
  | ended ↦ w
]

-- The two halves of `IOWorker::Stop`.
unfoldable pub store_stop : Worker → Worker
store_stop w = record w { stop_loop = true }

unfoldable pub wakeup : Worker → Worker
wakeup w = record w { wakeups = w.wakeups + 1 }

abbrev pub is_ended : LoopState → Bool
is_ended tests = false
is_ended polls = false
is_ended (handles woken) = false
is_ended ended = true

-- One step of `WorkerGroup::Stop` with `n` workers.
unfoldable pub group_stop_step : ℕ → Server → Server
unfolding update store_stop wakeup
group_stop_step n s = elim s.main [
  | stores i ↦
      if ltb i n
      then record s { workers = update i (store_stop (s.workers i)) s.workers; main = wakes i }
      else record s { main = joins 0 }
  | wakes i ↦ record s {
    workers = update i (wakeup (s.workers i)) s.workers;
    main = stores (suc i);
  }
  | joins i ↦
      if ltb i n
      then (if is_ended (s.workers i).loop then record s { main = joins (suc i) } else s)
      else record s { main = stopped }
  | monitors ↦ s
  | stops_pool ↦ s
  | stopped ↦ s
]

-- One step of `Serve`, after its components have started.
unfoldable pub main_step : ℕ → Server → Server
unfolding group_stop_step
main_step n s = elim s.main [
  | monitors ↦ if s.stop_all_server then record s { main = stops_pool } else s
  | stops_pool ↦ record s { main = stores 0 }
  | stores i ↦ group_stop_step n s
  | wakes i ↦ group_stop_step n s
  | joins i ↦ group_stop_step n s
  | stopped ↦ s
]

pub data Action : Type 0 where
  -- `SignalHandler`
  signal : Action
  main_acts : Action
  -- A worker's thread acts; the flag says whether other channels of its poller have events.
  worker_acts : ℕ → Bool → Action

unfoldable pub act : ℕ → Action → Server → Server
unfolding main_step loop_step
act n signal s = record s { stop_all_server = true }
act n main_acts s = main_step n s
act n (worker_acts j others) s = record s {
  workers = update j (loop_step others (s.workers j)) s.workers;
}

unfoldable pub run : ℕ → List Action → Server → Server
unfolding act
run n [] s = s
run n (a ∷ rest) s = run n rest (act n a s)
