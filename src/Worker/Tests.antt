-- ===== src/Worker/Tests.antt =====
-- The worker's theorems at small inputs.
use jerry.Base.{arith, ℕ, ◌-◌, ◌≡◌, refl, true, false, List, [], ◌∷◌, none, some}
use jerry.Base.Result.{Result, ok, fault, bad_access}
use jerry.Conn.{open_conn, sends, run, shutdown, send, force_close, on_channel_close}
use jerry.Worker.{
  TcpConnSet, TcpRateLimiterConfig, find, Outside, Ready, handle_events, Turn, loop, WorkerEvent,
  accepts, turns, worker_run, handle, act_on,
}
use jerry.Worker.Rounds.{IsProper, events_for, handled_if, handle_events_lem}
use jerry.Worker.Ending.{stop_faults}
use jerry.Worker.Limits.{AtMost, connected_nums, worker_limited}

abbrev three_conns : TcpConnSet
three_conns = (7, open_conn false) ∷ (8, open_conn false) ∷ (9, open_conn true) ∷ []

-- Eight hangs up, and seven has bytes, which the user answers.
abbrev some_outside : ℕ → Outside
some_outside fd = record {
  read = λ n. some (1 ∷ 2 ∷ []);
  retry = false;
  is_shut_down = true;
  write = λ xs. some 1;
  gone = false;
  callback = λ c. sends (3 ∷ []) ∷ [];
  others = λ c. [];
}

abbrev some_events : Ready
some_events = (8, 16) ∷ (7, 1) ∷ []

handle_events_example :
    (s' : TcpConnSet) × (handle_events some_outside some_events three_conns ≡ ok s')
    × ((fd : ℕ)
        → find fd s'
          ≡ handled_if (some_outside fd) (events_for fd some_events) (find fd three_conns))
unfolding IsProper events_for find open_conn
handle_events_example =
    handle_events_lem some_outside some_events three_conns
      (refl, refl, omega arith, (λ c. refl), (refl, refl, omega arith, (λ c. refl), tt))

abbrev last_turn : Turn
last_turn = record { stop_loop = true; active_events = none; outside = some_outside }

stop_faults_example : loop (last_turn ∷ []) three_conns ≡ fault bad_access
stop_faults_example =
    stop_faults last_turn [] 7 (open_conn false) ((8, open_conn false) ∷ (9, open_conn true) ∷ [])
      refl

-- The limit is two: the second client is refused, and after the first has left, the third is refused as
-- well, since the second is still there.
abbrev limit_two : TcpRateLimiterConfig
limit_two = record {
  max_conns_per_ip = 0;
  max_conns_per_io_worker = 2;
  max_qps_per_host = 0;
  max_qps_per_io_worker = 0;
}

abbrev arrivals : List WorkerEvent
arrivals =
    accepts (λ c. []) true false 7
    ∷ accepts (λ c. []) true false 8
    ∷ turns some_outside ((7, 16) ∷ [])
    ∷ accepts (λ c. []) true false 9
    ∷ []

worker_limited_example : AtMost (2 - 1) (worker_run limit_two arrivals [])
worker_limited_example = worker_limited limit_two arrivals

abbrev set_of : Result TcpConnSet → TcpConnSet
set_of (ok s) = s
set_of (fault e) = three_conns

arrivals_connected : connected_nums (set_of (worker_run limit_two arrivals [])) ≡ 0
unfolding connected_nums worker_run run open_conn shutdown find handle send force_close
    on_channel_close act_on
arrivals_connected = refl
