-- ===== src/Utils.antt =====
-- src/utils: DateTime, the timer descriptor of FdHelper, and CountDownLatch.
pub mod Fd
pub mod DateTime
pub mod Latch
use jerry.Base.{ℕ, ◌+◌, ◌-◌, ◌*◌, ◌/◌, ◌%◌, Bool, ltb, if◌then◌else◌}

-- `DateTime::kMicroSecondsPerSecond`
abbrev pub micro_seconds_per_second : ℕ
micro_seconds_per_second = 1000000

-- `DateTime::AfterMicroSeconds`; a time is its `us_since_epoch`, not negative.
abbrev pub after_micro_seconds : ℕ → ℕ → ℕ
after_micro_seconds micro_seconds us_since_epoch = us_since_epoch + micro_seconds

-- `SetTimerFd`: the `tv_sec` and `tv_nsec` that `timerfd_settime` gets.
unfoldable pub set_timer_fd : ℕ → ℕ × ℕ
set_timer_fd expired_us =
    let us = if ltb 100 expired_us then expired_us else 100 in
    (us / micro_seconds_per_second, us % micro_seconds_per_second * 1000)
