-- ===== src/Utils/Fd.antt =====
-- The time that `SetTimerFd` of src/utils/FdHelper.cc gives the timer descriptor.
use jerry.Base.{ℕ, ◌+◌, ◌*◌, ◌≤◌, ◌<◌, ◌≡◌, max, arith}
use jerry.Utils.{set_timer_fd}

-- `timerfd_settime` gets a valid time for every number of microseconds: the nanoseconds are below one
-- second, the time is not zero (which would disarm the timer), and it is the number asked for, or 100
-- microseconds if that is more.
pub set_timer_fd_bounds :
    (us : ℕ)
    → let (sec, nsec) = set_timer_fd us in
      (nsec < 1000000000)
      × (0 < sec + nsec)
      × (us * 1000 ≤ sec * 1000000000 + nsec)
      × (sec * 1000000000 + nsec ≡ max us 100 * 1000)
unfolding set_timer_fd
set_timer_fd_bounds us = ground arith
