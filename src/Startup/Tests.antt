-- ===== src/Startup/Tests.antt =====
-- Workers that start, and some whose port is in use.
use jerry.Base.{Bool, true, false, Option, ℕ, suc, ◌+◌, ◌-◌, List, [], ◌∷◌, ◌≡◌, refl, none, some}
use jerry.Startup.{
  Call, listen, open_null, Os, Outcome, done, fatal, asserted, start_workers, new_io_worker,
  IoWorker, new_poller, new_acceptor, new_timer_queue, new_socket, set_nonblock_and_close_on_exec,
  bind_socket, listen_socket, add_channel,
}
use jerry.Startup.Rules.{Ends, nothing}
use jerry.Startup.Started.{AllStarted, start_workers-Ends}

-- The descriptors count up with the calls; a port that is in use cannot be listened on.
abbrev number : List Call → ℕ
number [] = 3
number (c ∷ l) = suc (number l)

abbrev refuses_port : List Call → Call → Option ℕ
refuses_port l (listen fd) = none
refuses_port l c = some (number l)

abbrev port_in_use : Os
port_in_use = record { answer = refuses_port; has_assertions = false }

start_workers-Ends_example :
    Ends port_in_use
      (AllStarted (127 ∷ 0 ∷ 0 ∷ 1 ∷ []) 2 [])
      (start_workers 0 2 (127 ∷ 0 ∷ 0 ∷ 1 ∷ []) port_in_use [])
start_workers-Ends_example = start_workers-Ends port_in_use [] 0 2 (127 ∷ 0 ∷ 0 ∷ 1 ∷ []) nothing

abbrev all_free : Os
all_free = record { answer = λ l c. some (number l); has_assertions = true }

abbrev no_null : List Call → Call → Option ℕ
no_null l open_null = none
no_null l c = some (number l)

-- Without the reserve, a build with assertions stops and one without goes on.
abbrev no_reserve : Bool → Os
no_reserve checks = record { answer = no_null; has_assertions = checks }

-- The number of calls that a group got to.
abbrev reached : Outcome (List IoWorker) → ℕ
reached (done w l) = number l - 3
reached (fatal l) = number l + 100
reached (asserted l) = number l + 200

starts : reached (start_workers 0 2 [] all_free []) ≡ 38
unfolding start_workers new_io_worker new_poller new_acceptor new_timer_queue new_socket
    set_nonblock_and_close_on_exec bind_socket listen_socket add_channel
starts = refl

cannot_listen : reached (start_workers 0 2 [] port_in_use []) ≡ 117
unfolding start_workers new_io_worker new_poller new_acceptor new_timer_queue new_socket
    set_nonblock_and_close_on_exec bind_socket listen_socket add_channel
cannot_listen = refl

without_reserve :
    (reached (start_workers 0 1 [] (no_reserve false) []) ≡ 19)
    × (reached (start_workers 0 1 [] (no_reserve true) []) ≡ 209)
unfolding start_workers new_io_worker new_poller new_acceptor new_timer_queue new_socket
    set_nonblock_and_close_on_exec bind_socket listen_socket add_channel
without_reserve = (refl, refl)
