-- ===== src/Worker/Descriptors.antt =====
-- The descriptors of the process in `OnPeerConnect` of src/net/Acceptor.cc and `Accept` of src/net/Socket.cc.
-- Other threads open and close descriptors between any two system calls.
pub mod Reserve
mod Tests
use jerry.Base.{ℕ, ◌+◌, ◌-◌, Bool, true, false, ◌&&◌, List, [], ◌∷◌, ltb, ◌==◌, if◌then◌else◌}

-- How many descriptors the process may still open, how many clients wait in the queue of the listening
-- socket, and whether `reserved_fd` is open (it is -1 otherwise).
pub record Process : Type 0 where
  pub free : ℕ
  pub pending : ℕ
  pub reserved_fd : Bool

-- What the other threads make of the number of free descriptors before a system call.
pub record Others : Type 0 where
  pub before_accept : ℕ → ℕ
  pub before_close : ℕ → ℕ
  pub before_open : ℕ → ℕ

abbrev pub acted : (ℕ → ℕ) → Process → Process
acted f p = record p { free = f p.free }

-- `Accept`: whether it gives a descriptor. Without a free one `errno` is EMFILE.
unfoldable pub accept : Process → Bool × Process
accept p =
    if ltb 0 p.free && ltb 0 p.pending
    then (true, record p { free = p.free - 1; pending = p.pending - 1 })
    else (false, p)

-- `close(reserved_fd)`
unfoldable pub close_reserved : Process → Process
close_reserved p = if p.reserved_fd then record p { free = p.free + 1; reserved_fd = false } else p

-- `reserved_fd = open("/dev/null", ...)`
unfoldable pub open_reserved : Process → Process
open_reserved p =
    if ltb 0 p.free
    then record p { free = p.free - 1; reserved_fd = true }
    else record p { reserved_fd = false }

-- `std::tie(reserved_fd, peer_addr) = acceptor->Accept()`
unfoldable pub accept_reserved : Process → Process
unfolding accept
accept_reserved p = let (got, p') = accept p in record p' { reserved_fd = got }

-- What is done on EMFILE.
unfoldable pub recover : Others → Process → Process
unfolding close_reserved accept_reserved open_reserved
recover o p =
    let p1 = acted o.before_accept (close_reserved p) in
    let p2 = acted o.before_close (accept_reserved p1) in
    open_reserved (acted o.before_open (close_reserved p2))

-- `OnPeerConnect`: whether a client is accepted.
unfoldable pub on_peer_connect : Others → Process → Bool × Process
unfolding accept recover
on_peer_connect o p =
    let (got, p') = accept p in
    if got then (true, p') else (false, if p.free == 0 then recover o p' else p')
