-- ===== src/Worker/Descriptors/Reserve.antt =====
-- What becomes of the reserved descriptor when the descriptors run out (src/net/Acceptor.cc).
use jerry.Base.{ℕ, ◌-◌, ◌<◌, ◌≡◌, true, false, List, [], ◌∷◌, arith}
use jerry.Worker.Descriptors.{Process, Others, on_peer_connect}

-- The other threads open and close nothing.
abbrev pub idle : Others
idle = record { before_accept = λ n. n; before_close = λ n. n; before_open = λ n. n }

-- Another thread opens what `close(reserved_fd)` has set free, and keeps it.
abbrev pub thief : Others
thief = record { before_accept = λ n. 0; before_close = λ n. n; before_open = λ n. n }

-- If no other thread interferes, a client that comes when the descriptors have run out is taken out of the
-- queue and closed, and the reserved descriptor is open again.
turned_away :
    (p : Process)
    → p.free ≡ 0
    → p.reserved_fd ≡ true
    → 0 < p.pending
    → on_peer_connect idle p ≡ (false, record p { pending = p.pending - 1 })
unfolding on_peer_connect
turned_away p none_free reserved waits = ground arith

-- The calls that follow, with the free descriptors and the waiting clients before each of them.
abbrev pub calls : List (ℕ × ℕ) → Process → Process
calls [] p = p
calls ((free, pending) ∷ rest) p =
    calls rest (on_peer_connect idle (record p { free = free; pending = pending })).1

never_reopened :
    (p : Process) → p.reserved_fd ≡ false → (on_peer_connect idle p).1.reserved_fd ≡ false
unfolding on_peer_connect
never_reopened p closed = ground arith

calls-closed :
    (later : List (ℕ × ℕ)) (p : Process)
    → p.reserved_fd ≡ false
    → (calls later p).reserved_fd ≡ false
calls-closed [] p h = h
calls-closed ((free, pending) ∷ rest) p h =
    calls-closed rest _ (never_reopened (record p { free = free; pending = pending }) h)

stays_full :
    (p : Process) → p.free ≡ 0 → p.reserved_fd ≡ false → on_peer_connect idle p ≡ (false, p)
unfolding on_peer_connect
stays_full p none_free closed = ground arith

-- When the descriptors have run out and another thread opens the one that the acceptor sets free, the
-- waiting client stays in the queue, and the reserve is gone: a call made while no descriptor is free then
-- changes nothing, and whatever descriptors come free between later calls, none of them opens it again.
pub reserve_lost :
    (p : Process) (later : List (ℕ × ℕ))
    → p.free ≡ 0
    → p.reserved_fd ≡ true
    → let p' = (on_peer_connect thief p).1 in
      (p'.pending ≡ p.pending)
      × (on_peer_connect idle p' ≡ (false, p'))
      × ((calls later p').reserved_fd ≡ false)
unfolding on_peer_connect
reserve_lost p later none_free reserved =
    let p' = (on_peer_connect thief p).1 in
    let closed : p'.reserved_fd ≡ false = ground arith in
    let full : p'.free ≡ 0 = ground arith in
    (ground arith, stays_full p' full closed, calls-closed later p' closed)
