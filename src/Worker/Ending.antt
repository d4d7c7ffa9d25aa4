-- ===== src/Worker/Ending.antt =====
-- The end of `Loop` of src/net/IOWorker.cc.
use jerry.Base.{ℕ, ◌≡◌, ◌∙◌, ap, true, List, ◌∷◌, none, some, arith}
use jerry.Base.Result.{Result, fault, bad_access}
use jerry.Conn.{Conn, force_close, on_channel_close}
use jerry.Worker.{TcpConnSet, find, settle, use_conn, force_close_each, fds, Turn, loop}
use jerry.Worker.Rounds.{find-remove}

-- The first `ForceClose` removes the connection that the iterator points to.
closed_gone : (fd : ℕ) (c : Conn) (s : TcpConnSet) → find fd (settle fd (force_close c) s) ≡ none
unfolding settle force_close on_channel_close
closed_gone fd c s = ground (arith, find-remove fd fd s)

find_first : (fd : ℕ) (c : Conn) (s : TcpConnSet) → find fd ((fd, c) ∷ s) ≡ some c
unfolding find
find_first fd c s = ground arith

abbrev closing : ℕ → Conn → TcpConnSet → Conn → Result TcpConnSet
closing fd c s c' =
    let s' = settle fd (force_close c') ((fd, c) ∷ s) in
    use_conn (find fd s') (λ d. force_close_each (fds s) s')

-- A worker that is stopped while it has a connection reads an iterator that is no longer valid: the first
-- `ForceClose` takes the connection out of the set over which `LockForEach` goes.
pub stop_faults :
    (t : Turn) (ts : List Turn) (fd : ℕ) (c : Conn) (s : TcpConnSet)
    → t.stop_loop ≡ true
    → loop (t ∷ ts) ((fd, c) ∷ s) ≡ fault bad_access
unfolding loop
stop_faults t ts fd c s h = simp h (
    ap (λ x. use_conn x (closing fd c s)) (find_first fd c s)
    ∙ ap (λ x. use_conn x (λ d. force_close_each (fds s) (settle fd (force_close c) ((fd, c) ∷ s))))
        (closed_gone fd c ((fd, c) ∷ s)))
