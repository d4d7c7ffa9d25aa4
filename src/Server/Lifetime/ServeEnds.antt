-- ===== src/Server/Lifetime/ServeEnds.antt =====
-- `Serve` of src/net/TcpServer.cc returns after a signal.
use jerry.Base.{
  ℕ, suc, ◌+◌, ◌*◌, ◌-◌, ◌≤◌, ◌<◌, ◌≡◌, ◌∙◌, refl, ap, Bool, true, false, List, [], ◌∷◌, ◌++◌,
  arith,
}
use jerry.Server.Lifetime.{
  Server, MainState, Action, start, act, run, main_step, ended, monitors, stops_pool, stores, wakes,
  joins, stopped, signal, main_acts, worker_acts,
}
use jerry.Server.Lifetime.Shutdown.{
  Goes, start-Inv, run-Inv, run-Goes, run-append, is_woken, acts_of, steps_left, at_most_three,
}
use jerry.Server.Lifetime.Calls.{
  IsMain, calls_left, Signalled, stop_all_server-signal, run-IsMain, run_calls, has_signal,
  main_acts_of,
}

-- The main thread is past the last `Stop`.
abbrev is_joining : MainState → Bool
is_joining monitors = false
is_joining stops_pool = false
is_joining (stores i) = false
is_joining (wakes i) = false
is_joining (joins i) = true
is_joining stopped = true

joining_of_zero : (n : ℕ) (m : MainState) → IsMain n m → calls_left n m ≤ 0 → is_joining m ≡ true
joining_of_zero n monitors h le = absurd (omega arith)
joining_of_zero n stops_pool h le = absurd (omega arith)
joining_of_zero n (stores i) h le = absurd (omega arith)
joining_of_zero n (wakes i) h le = absurd (omega arith)
joining_of_zero n (joins i) h le = refl
joining_of_zero n stopped h le = refl

joining-woken : (j : ℕ) (m : MainState) → is_joining m ≡ true → is_woken j m ≡ true
joining-woken j monitors h = cc h
joining-woken j stops_pool h = cc h
joining-woken j (stores i) h = cc h
joining-woken j (wakes i) h = cc h
joining-woken j (joins i) h = refl
joining-woken j stopped h = refl

-- The steps of the main thread from then on, if no `join` blocks.
abbrev joins_left : ℕ → MainState → ℕ
joins_left n (joins i) = suc (n - i)
joins_left n monitors = 0
joins_left n stops_pool = 0
joins_left n (stores i) = 0
joins_left n (wakes i) = 0
joins_left n stopped = 0

-- Nothing is left but the joins.
record AllEnded (n : ℕ) (s : Server) : Type 0 where
  joining : is_joining s.main ≡ true
  goes : (j : ℕ) → j < n → Goes j s
  end : (j : ℕ) → j < n → (s.workers j).loop ≡ ended

joining-act :
    (n : ℕ) (a : Action) (s : Server)
    → is_joining s.main ≡ true
    → is_joining (act n a s).main ≡ true
unfolding act main_step
joining-act n signal s h = h
joining-act n (worker_acts j others) s h = h
joining-act n main_acts s h = go s.main refl
  where
    go : (m : MainState) → s.main ≡ m → is_joining (main_step n s).main ≡ true
    go monitors e = ground arith
    go stops_pool e = ground arith
    go (stores k) e = ground arith
    go (wakes k) e = ground arith
    go (joins k) e = ground arith
    go stopped e = ground arith

act-AllEnded : (n : ℕ) (a : Action) (s : Server) → AllEnded n s → AllEnded n (act n a s)
unfolding run
act-AllEnded n a s h =
    let after = λ (j : ℕ) (lt : j < n).
      run-Goes n j (a ∷ []) s lt (h.goes j lt) (omega (arith, ap steps_left (h.end j lt))) in
    record {
      joining = joining-act n a s h.joining;
      goes = λ j lt. (after j lt).0;
      end = λ j lt. (after j lt).1;
    }

main_step-joins :
    (n : ℕ) (s : Server)
    → AllEnded n s
    → joins_left n (main_step n s).main ≤ joins_left n s.main - 1
unfolding main_step
main_step-joins n s h = go s.main refl
  where
    go : (m : MainState) → s.main ≡ m → joins_left n (main_step n s).main ≤ joins_left n s.main - 1
    go monitors e = ground (arith, h.joining)
    go stops_pool e = ground (arith, h.joining)
    go (stores k) e = ground (arith, h.joining)
    go (wakes k) e = ground (arith, h.joining)
    go (joins k) e = ground (arith, h.end k)
    go stopped e = ground arith

joins-act :
    (n : ℕ) (a : Action) (es : List Action) (s : Server)
    → AllEnded n s
    → joins_left n s.main ≤ main_acts_of (a ∷ es)
    → joins_left n (act n a s).main ≤ main_acts_of es
unfolding act
joins-act n signal es s h le = le
joins-act n main_acts es s h le = omega (arith, le, main_step-joins n s h)
joins-act n (worker_acts j others) es s h le = le

stopped_of_zero : (n : ℕ) (m : MainState) → is_joining m ≡ true → joins_left n m ≤ 0 → m ≡ stopped
stopped_of_zero n monitors h le = cc h
stopped_of_zero n stops_pool h le = cc h
stopped_of_zero n (stores i) h le = cc h
stopped_of_zero n (wakes i) h le = cc h
stopped_of_zero n (joins i) h le = absurd (omega arith)
stopped_of_zero n stopped h le = refl

run_joins :
    (n : ℕ) (es : List Action) (s : Server)
    → AllEnded n s
    → joins_left n s.main ≤ main_acts_of es
    → (run n es s).main ≡ stopped
unfolding run
run_joins n [] s h le = stopped_of_zero n s.main h.joining le
run_joins n (a ∷ es) s h le =
    run_joins n es (act n a s) (act-AllEnded n a s h) (joins-act n a es s h le)

run-joining :
    (n : ℕ) (es : List Action) (s : Server)
    → is_joining s.main ≡ true
    → is_joining (run n es s).main ≡ true
unfolding run
run-joining n [] s h = h
run-joining n (a ∷ es) s h = run-joining n es (act n a s) (joining-act n a s h)

calls_bounded : (n : ℕ) (m : MainState) → calls_left n m ≤ 2 * n + 3
calls_bounded n monitors = omega arith
calls_bounded n stops_pool = omega arith
calls_bounded n (stores i) = omega arith
calls_bounded n (wakes i) = omega arith
calls_bounded n (joins i) = omega arith
calls_bounded n stopped = omega arith

joins_bounded : (n : ℕ) (m : MainState) → joins_left n m ≤ n + 1
joins_bounded n monitors = omega arith
joins_bounded n stops_pool = omega arith
joins_bounded n (stores i) = omega arith
joins_bounded n (wakes i) = omega arith
joins_bounded n (joins i) = omega arith
joins_bounded n stopped = omega arith

-- `Serve` returns after a signal, where `ThreadPool::Stop` returns and no worker has connections left, whatever
-- the threads did before and however they interleave: when the main thread has acted often enough to call `Stop` of the thread pool and of the `n` workers, then each worker
-- three times, and then the main thread once for each `join` and once more.
pub serve_ends :
    (n : ℕ) (es fs gs hs : List Action)
    → has_signal es ≡ true
    → 2 * n + 3 ≤ main_acts_of fs
    → ((j : ℕ) → j < n → 3 ≤ acts_of j gs)
    → n + 1 ≤ main_acts_of hs
    → (run n (es ++ (fs ++ (gs ++ hs))) start).main ≡ stopped
unfolding start
serve_ends n es fs gs hs signalled calls loops joined =
    let s1 = run n es start in
    let s2 = run n fs s1 in
    let s3 = run n gs s2 in
    let h1 : Signalled n s1 = record {
      main_in = run-IsMain n es start tt;
      on = stop_all_server-signal n es start signalled;
    } in
    let (h2, none_left) = run_calls n fs s1 h1 (omega (arith, calls, calls_bounded n s1.main)) in
    let joining = joining_of_zero n s2.main h2.main_in none_left in
    let goes : (j : ℕ) → j < n → Goes j s2 = λ j lt. record {
      inv = run-Inv n j fs s1 lt (run-Inv n j es start lt (start-Inv j));
      awake = joining-woken j s2.main joining;
    } in
    let gone = λ (j : ℕ) (lt : j < n).
      run-Goes n j gs s2 lt (goes j lt)
        (omega (arith, loops j lt, at_most_three (s2.workers j).loop)) in
    ap (λ (s : Server). s.main)
      (run-append n es (fs ++ (gs ++ hs)) start
        ∙ run-append n fs (gs ++ hs) s1
        ∙ run-append n gs hs s2)
    ∙ run_joins n hs s3
        (record {
          joining = run-joining n gs s2 joining;
          goes = λ j lt. (gone j lt).0;
          end = λ j lt. (gone j lt).1;
        })
        (omega (arith, joined, joins_bounded n s3.main))
