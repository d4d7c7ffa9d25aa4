-- ===== src/Server/Lifetime/Shutdown.antt =====
-- A server that gets a signal ends (src/net/TcpServer.cc, src/net/WorkerGroup.cc, src/net/IOWorker.cc).
use jerry.Base.{
  ℕ, suc, ◌-◌, ◌≤◌, ◌<◌, ◌≡◌, ◌∙◌, refl, ap, Bool, true, false, List, [], ◌∷◌, ◌++◌, arith, ltb,
  leb, ◌==◌, if◌then◌else◌, Bool-cases, inl, inr,
}
use jerry.Server.Lifetime.{
  Server, LoopState, MainState, Action, start, act, run, loop_step, main_step, update, tests, polls,
  handles, ended, monitors, stops_pool, stores, wakes, joins, stopped, signal, main_acts,
  worker_acts,
}

-- `IOWorker::Stop` of worker `j` has stored the flag, and has returned.
abbrev pub is_told : ℕ → MainState → Bool
is_told j monitors = false
is_told j stops_pool = false
is_told j (stores i) = ltb j i
is_told j (wakes i) = leb j i
is_told j (joins i) = true
is_told j stopped = true

abbrev pub is_woken : ℕ → MainState → Bool
is_woken j monitors = false
is_woken j stops_pool = false
is_woken j (stores i) = ltb j i
is_woken j (wakes i) = ltb j i
is_woken j (joins i) = true
is_woken j stopped = true

-- A worker that was told has its flag set, and one that was woken is not blocked.
pub record Inv (j : ℕ) (s : Server) : Type 0 where
  pub told : is_told j s.main ≡ true → (s.workers j).stop_loop ≡ true
  pub woken : is_woken j s.main ≡ true → (s.workers j).loop ≡ polls → 0 < (s.workers j).wakeups

pub start-Inv : (j : ℕ) → Inv j start
unfolding start
start-Inv j = record { told = λ h. cc h; woken = λ h. cc h }

main_step-Inv : (n j : ℕ) (s : Server) → j < n → Inv j s → Inv j (main_step n s)
unfolding main_step
main_step-Inv n j s lt i = go s.main refl
  where
    go : (m : MainState) → s.main ≡ m → Inv j (main_step n s)
    go monitors e = ground arith
    go stops_pool e = ground arith
    go (stores k) e = ground arith
    go (wakes k) e = ground arith
    go (joins k) e = ground arith
    go stopped e = ground arith

loop_step-Inv :
    (n j k : ℕ) (others : Bool) (s : Server) → Inv j s → Inv j (act n (worker_acts k others) s)
unfolding act loop_step update
loop_step-Inv n j k others s i = go (s.workers j).loop refl
  where
    go : (l : LoopState) → (s.workers j).loop ≡ l → Inv j (act n (worker_acts k others) s)
    go tests e = ground arith
    go polls e = ground arith
    go (handles woken) e = ground arith
    go ended e = ground arith

act-Inv : (n j : ℕ) (a : Action) (s : Server) → j < n → Inv j s → Inv j (act n a s)
unfolding act
act-Inv n j signal s lt i = record { told = i.told; woken = i.woken }
act-Inv n j main_acts s lt i = main_step-Inv n j s lt i
act-Inv n j (worker_acts k others) s lt i = loop_step-Inv n j k others s i

pub run-Inv : (n j : ℕ) (es : List Action) (s : Server) → j < n → Inv j s → Inv j (run n es s)
unfolding run
run-Inv n j [] s lt i = i
run-Inv n j (a ∷ es) s lt i = run-Inv n j es (act n a s) lt (act-Inv n j a s lt i)

-- How often the thread of worker `j` acts.
abbrev pub acts_of : ℕ → List Action → ℕ
acts_of j [] = 0
acts_of j (signal ∷ es) = acts_of j es
acts_of j (main_acts ∷ es) = acts_of j es
acts_of j (worker_acts k others ∷ es) = if k == j then suc (acts_of j es) else acts_of j es

-- The steps that a worker which is not blocked has left.
abbrev pub steps_left : LoopState → ℕ
steps_left tests = 1
steps_left polls = 3
steps_left (handles woken) = 2
steps_left ended = 0

-- A worker that was woken: nothing puts it back.
pub record Goes (j : ℕ) (s : Server) : Type 0 where
  pub inv : Inv j s
  pub awake : is_woken j s.main ≡ true

woken-told : (j : ℕ) (m : MainState) → is_woken j m ≡ true → is_told j m ≡ true
woken-told j monitors h = h
woken-told j stops_pool h = h
woken-told j (stores i) h = h
woken-told j (wakes i) h = ground arith
woken-told j (joins i) h = h
woken-told j stopped h = h

main_step-woken :
    (n j : ℕ) (s : Server)
    → j < n
    → is_woken j s.main ≡ true
    → (is_woken j (main_step n s).main ≡ true)
      × (((main_step n s).workers j).loop ≡ (s.workers j).loop)
unfolding main_step
main_step-woken n j s lt w = go s.main refl
  where
    go :
        (m : MainState)
        → s.main ≡ m
        → (is_woken j (main_step n s).main ≡ true)
          × (((main_step n s).workers j).loop ≡ (s.workers j).loop)
    go monitors e = (ground arith, ground arith)
    go stops_pool e = (ground arith, ground arith)
    go (stores k) e = (ground arith, ground arith)
    go (wakes k) e = (ground arith, ground arith)
    go (joins k) e = (ground arith, ground arith)
    go stopped e = (ground arith, ground arith)

own_step :
    (n j : ℕ) (others : Bool) (s : Server)
    → Goes j s
    → steps_left ((act n (worker_acts j others) s).workers j).loop
      ≤ steps_left (s.workers j).loop - 1
unfolding act loop_step update
own_step n j others s g = go (s.workers j).loop refl
  where
    flag : (s.workers j).stop_loop ≡ true
    flag = g.inv.told (woken-told j s.main g.awake)

    go :
        (l : LoopState)
        → (s.workers j).loop ≡ l
        → steps_left ((act n (worker_acts j others) s).workers j).loop
          ≤ steps_left (s.workers j).loop - 1
    go tests e = ground (arith, flag)
    go polls e = ground (arith, flag, g.inv.woken g.awake e)
    go (handles true) e = ground arith
    go (handles false) e = ground arith
    go ended e = ground arith

other_step :
    (n j k : ℕ) (others : Bool) (s : Server)
    → (k == j) ≡ false
    → (act n (worker_acts k others) s).workers j ≡ s.workers j
unfolding act update
other_step n j k others s e = ground arith

pub act-Goes : (n j : ℕ) (a : Action) (s : Server) → j < n → Goes j s → Goes j (act n a s)
unfolding act
act-Goes n j signal s lt g = record { inv = act-Inv n j signal s lt g.inv; awake = g.awake }
act-Goes n j main_acts s lt g = record {
  inv = act-Inv n j main_acts s lt g.inv;
  awake = (main_step-woken n j s lt g.awake).0;
}
act-Goes n j (worker_acts k others) s lt g = record {
  inv = act-Inv n j (worker_acts k others) s lt g.inv;
  awake = g.awake;
}

-- Each of its own steps brings a worker that was woken nearer to its end, and nothing else takes it away.
nearer :
    (n j : ℕ) (a : Action) (es : List Action) (s : Server)
    → j < n
    → Goes j s
    → steps_left (s.workers j).loop ≤ acts_of j (a ∷ es)
    → steps_left ((act n a s).workers j).loop ≤ acts_of j es
unfolding act
nearer n j signal es s lt g h = h
nearer n j main_acts es s lt g h =
    omega (arith, h, ap steps_left (main_step-woken n j s lt g.awake).1)
nearer n j (worker_acts k others) es s lt g h = elim (Bool-cases (k == j)) [
  | inl own ↦ ground (arith, own_step n j others s g)
  | inr other ↦ ground (arith, other_step n j k others s other)
]

ended_of_zero : (l : LoopState) → steps_left l ≤ 0 → l ≡ ended
ended_of_zero tests h = absurd (omega arith)
ended_of_zero polls h = absurd (omega arith)
ended_of_zero (handles woken) h = absurd (omega arith)
ended_of_zero ended h = refl

pub run-Goes :
    (n j : ℕ) (es : List Action) (s : Server)
    → j < n
    → Goes j s
    → steps_left (s.workers j).loop ≤ acts_of j es
    → (Goes j (run n es s)) × ((run n es s).workers j).loop ≡ ended
unfolding run
run-Goes n j [] s lt g h = (g, ended_of_zero (s.workers j).loop h)
run-Goes n j (a ∷ es) s lt g h =
    run-Goes n j es (act n a s) lt (act-Goes n j a s lt g) (nearer n j a es s lt g h)

pub at_most_three : (l : LoopState) → steps_left l ≤ 3
at_most_three tests = omega arith
at_most_three polls = omega arith
at_most_three (handles woken) = omega arith
at_most_three ended = omega arith

pub run-append :
    (n : ℕ) (es fs : List Action) (s : Server) → run n (es ++ fs) s ≡ run n fs (run n es s)
unfolding run
run-append n [] fs s = refl
run-append n (a ∷ es) fs s = run-append n es fs (act n a s)

-- Once `IOWorker::Stop` has returned for one of the `n` workers, whatever the threads did before, its thread
-- has left its loop as soon as it acts three more times, whatever the others do in between; so a call of
-- `Stop` is never lost.
pub stop_wakes :
    (n j : ℕ) (es fs : List Action)
    → j < n
    → is_woken j (run n es start).main ≡ true
    → 3 ≤ acts_of j fs
    → ((run n (es ++ fs) start).workers j).loop ≡ ended
stop_wakes n j es fs lt returned enough =
    ap (λ (s : Server). (s.workers j).loop) (run-append n es fs start)
    ∙ (run-Goes n j fs (run n es start) lt
        (record { inv = run-Inv n j es start lt (start-Inv j); awake = returned })
        (omega (arith, enough, at_most_three ((run n es start).workers j).loop))).1
