-- ===== src/Server/Lifetime/Calls.antt =====
-- The main thread calls `Stop` of every component after a signal (src/net/TcpServer.cc).
use jerry.Base.{ℕ, suc, ◌+◌, ◌*◌, ◌-◌, ◌≤◌, ◌<◌, ◌≡◌, refl, Bool, true, false, List, [], ◌∷◌, arith}
use jerry.Server.Lifetime.{
  Server, MainState, Action, act, run, main_step, monitors, stops_pool, stores, wakes, joins,
  stopped, signal, main_acts, worker_acts,
}

-- Whether a signal comes, and how often the main thread acts.
abbrev pub has_signal : List Action → Bool
has_signal [] = false
has_signal (signal ∷ es) = true
has_signal (main_acts ∷ es) = has_signal es
has_signal (worker_acts j others ∷ es) = has_signal es

abbrev pub main_acts_of : List Action → ℕ
main_acts_of [] = 0
main_acts_of (signal ∷ es) = main_acts_of es
main_acts_of (main_acts ∷ es) = suc (main_acts_of es)
main_acts_of (worker_acts j others ∷ es) = main_acts_of es

stop_all_server-act :
    (n : ℕ) (a : Action) (s : Server)
    → s.stop_all_server ≡ true
    → (act n a s).stop_all_server ≡ true
unfolding act main_step
stop_all_server-act n signal s h = refl
stop_all_server-act n main_acts s h = go s.main refl
  where
    go : (m : MainState) → s.main ≡ m → (main_step n s).stop_all_server ≡ true
    go monitors e = ground arith
    go stops_pool e = ground arith
    go (stores k) e = ground arith
    go (wakes k) e = ground arith
    go (joins k) e = ground arith
    go stopped e = ground arith
stop_all_server-act n (worker_acts j others) s h = h

stop_all_server-kept :
    (n : ℕ) (es : List Action) (s : Server)
    → s.stop_all_server ≡ true
    → (run n es s).stop_all_server ≡ true
unfolding run
stop_all_server-kept n [] s h = h
stop_all_server-kept n (a ∷ es) s h =
    stop_all_server-kept n es (act n a s) (stop_all_server-act n a s h)

pub stop_all_server-signal :
    (n : ℕ) (es : List Action) (s : Server)
    → has_signal es ≡ true
    → (run n es s).stop_all_server ≡ true
unfolding run act
stop_all_server-signal n [] s h = cc h
stop_all_server-signal n (signal ∷ es) s h =
    stop_all_server-kept n es (record s { stop_all_server = true }) refl
stop_all_server-signal n (main_acts ∷ es) s h = stop_all_server-signal n es (main_step n s) h
stop_all_server-signal n (worker_acts j others ∷ es) s h =
    stop_all_server-signal n es (act n (worker_acts j others) s) h

-- `Wakeup` is called for a worker that there is.
abbrev pub IsMain : ℕ → MainState → Type 0
IsMain n (wakes i) = i < n
IsMain n monitors = Unit {0}
IsMain n stops_pool = Unit {0}
IsMain n (stores i) = Unit {0}
IsMain n (joins i) = Unit {0}
IsMain n stopped = Unit {0}

-- The steps of the main thread up to the first `join`.
abbrev pub calls_left : ℕ → MainState → ℕ
calls_left n monitors = 2 * n + 3
calls_left n stops_pool = 2 * n + 2
calls_left n (stores i) = 2 * (n - i) + 1
calls_left n (wakes i) = 2 * (n - i)
calls_left n (joins i) = 0
calls_left n stopped = 0

main_step-IsMain : (n : ℕ) (s : Server) → IsMain n s.main → IsMain n (main_step n s).main
unfolding main_step
main_step-IsMain n s h = go s.main refl
  where
    go : (m : MainState) → s.main ≡ m → IsMain n (main_step n s).main
    go monitors e = ground arith
    go stops_pool e = ground arith
    go (stores k) e = ground arith
    go (wakes k) e = ground arith
    go (joins k) e = ground arith
    go stopped e = ground arith

main_step-calls :
    (n : ℕ) (s : Server)
    → IsMain n s.main
    → s.stop_all_server ≡ true
    → calls_left n (main_step n s).main ≤ calls_left n s.main - 1
unfolding main_step
main_step-calls n s h on = go s.main refl
  where
    go : (m : MainState) → s.main ≡ m → calls_left n (main_step n s).main ≤ calls_left n s.main - 1
    go monitors e = ground arith
    go stops_pool e = ground arith
    go (stores k) e = ground arith
    go (wakes k) e = ground arith
    go (joins k) e = ground arith
    go stopped e = ground arith

-- What holds of the main thread once the signal has come.
pub record Signalled (n : ℕ) (s : Server) : Type 0 where
  pub main_in : IsMain n s.main
  pub on : s.stop_all_server ≡ true

act-Signalled : (n : ℕ) (a : Action) (s : Server) → Signalled n s → Signalled n (act n a s)
unfolding act
act-Signalled n signal s h = record { main_in = h.main_in; on = refl }
act-Signalled n main_acts s h = record {
  main_in = main_step-IsMain n s h.main_in;
  on = stop_all_server-act n main_acts s h.on;
}
act-Signalled n (worker_acts j others) s h = record { main_in = h.main_in; on = h.on }

pub run-IsMain :
    (n : ℕ) (es : List Action) (s : Server) → IsMain n s.main → IsMain n (run n es s).main
unfolding run act
run-IsMain n [] s h = h
run-IsMain n (signal ∷ es) s h = run-IsMain n es (act n signal s) h
run-IsMain n (main_acts ∷ es) s h = run-IsMain n es (main_step n s) (main_step-IsMain n s h)
run-IsMain n (worker_acts j others ∷ es) s h = run-IsMain n es (act n (worker_acts j others) s) h

calls-act :
    (n : ℕ) (a : Action) (es : List Action) (s : Server)
    → Signalled n s
    → calls_left n s.main ≤ main_acts_of (a ∷ es)
    → calls_left n (act n a s).main ≤ main_acts_of es
unfolding act
calls-act n signal es s h le = le
calls-act n main_acts es s h le = omega (arith, le, main_step-calls n s h.main_in h.on)
calls-act n (worker_acts j others) es s h le = le

pub run_calls :
    (n : ℕ) (es : List Action) (s : Server)
    → Signalled n s
    → calls_left n s.main ≤ main_acts_of es
    → Signalled n (run n es s) × (calls_left n (run n es s).main ≤ 0)
unfolding run
run_calls n [] s h le = (h, le)
run_calls n (a ∷ es) s h le =
    run_calls n es (act n a s) (act-Signalled n a s h) (calls-act n a es s h le)
