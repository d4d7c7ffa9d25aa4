-- ===== src/Server/Lifetime/Tests.antt =====
-- The theorems on the end of a server with one worker.
use jerry.Base.{ℕ, zero, suc, ◌<◌, ◌≤◌, ◌≡◌, refl, false, List, [], ◌∷◌, ◌++◌, arith}
use jerry.Server.Lifetime.{Action, start, run, ended, stopped, signal, main_acts, worker_acts}
use jerry.Server.Lifetime.Shutdown.{acts_of, stop_wakes}
use jerry.Server.Lifetime.ServeEnds.{serve_ends}

-- The worker waits, the signal comes, and the main thread calls both halves of `Stop`.
abbrev until_woken : List Action
until_woken =
    worker_acts 0 false
    ∷ worker_acts 0 false
    ∷ signal
    ∷ main_acts
    ∷ main_acts
    ∷ main_acts
    ∷ main_acts
    ∷ []

abbrev three_acts : List Action
three_acts = worker_acts 0 false ∷ worker_acts 0 false ∷ worker_acts 0 false ∷ []

stop_wakes_example : ((run 1 (until_woken ++ three_acts) start).workers 0).loop ≡ ended
unfolding run start
stop_wakes_example = stop_wakes 1 0 until_woken three_acts (omega arith) refl (omega arith)

abbrev five_acts : List Action
five_acts = main_acts ∷ main_acts ∷ main_acts ∷ main_acts ∷ main_acts ∷ []

abbrev two_acts : List Action
two_acts = main_acts ∷ main_acts ∷ []

three_acts-enough : (j : ℕ) → j < 1 → 3 ≤ acts_of j three_acts
three_acts-enough zero h = omega arith
three_acts-enough (suc j) h = absurd (omega arith)

serve_ends_example :
    (run 1 (until_woken ++ (five_acts ++ (three_acts ++ two_acts))) start).main ≡ stopped
serve_ends_example =
    serve_ends 1 until_woken five_acts three_acts two_acts refl (omega arith) three_acts-enough
      (omega arith)
