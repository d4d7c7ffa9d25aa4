-- ===== src/Worker/Descriptors/Tests.antt =====
-- A process that has run out of descriptors while two clients wait.
use jerry.Base.{◌≡◌, refl, true, false, [], ◌∷◌}
use jerry.Worker.Descriptors.{Process, on_peer_connect}
use jerry.Worker.Descriptors.Reserve.{idle, thief, calls, reserve_lost}

abbrev run_out : Process
run_out = record { free = 0; pending = 2; reserved_fd = true }

reserve_lost_example :
    let p' = (on_peer_connect thief run_out).1 in
    (p'.pending ≡ 2)
    × (on_peer_connect idle p' ≡ (false, p'))
    × ((calls ((5, 1) ∷ (0, 3) ∷ []) p').reserved_fd ≡ false)
reserve_lost_example = reserve_lost run_out ((5, 1) ∷ (0, 3) ∷ []) refl refl
