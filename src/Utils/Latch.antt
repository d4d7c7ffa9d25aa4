-- ===== src/Utils/Latch.antt =====
-- src/utils/CountDownLatch.h and CountDownLatch.cc, with the mutex and the condition variable: a call of
-- `CountDown`, a test in `Wait` and the wake-ups of `notify_all` are each one step.
pub mod Opens
mod Tests
use jerry.Base.{ℕ, zero, suc, ◌+◌, Bool, true, false, List, [], ◌∷◌, ◌==◌, if◌then◌else◌}

-- `int count`, which may fall below zero: `below n` is -(n + 1).
pub data Count : Type 0 where
  at : ℕ → Count
  below : ℕ → Count

-- A thread before its call of `Wait`, asleep in `cond.wait`, woken up and about to test again, and behind it.
pub data Waiter : Type 0 where
  outside asleep notified returned : Waiter

pub record Latch : Type 0 where
  pub count : Count
  pub waiters : ℕ → Waiter

abbrev pub new_latch : ℕ → Latch
new_latch count = record { count = at count; waiters = λ i. outside }

unfoldable pub decrement : Count → Count
decrement (at zero) = below 0
decrement (at (suc n)) = at n
decrement (below n) = below (n + 1)

abbrev pub is_zero : Count → Bool
is_zero (at zero) = true
is_zero (at (suc n)) = false
is_zero (below n) = false

-- `notify_all`
unfoldable pub notify : Waiter → Waiter
notify outside = outside
notify asleep = notified
notify notified = notified
notify returned = returned

-- The predicate of `cond.wait`, tested with the mutex: before it sleeps for the first time, and whenever it
-- was woken up, by a notification or not.
unfoldable pub test_count : Count → Waiter → Waiter
test_count c outside = if is_zero c then returned else asleep
test_count c asleep = if is_zero c then returned else asleep
test_count c notified = if is_zero c then returned else asleep
test_count c returned = returned

pub data Action : Type 0 where
  count_down : Action
  tests : ℕ → Action

-- `CountDown`, and a step of `Wait` in thread `i`.
unfoldable pub act : Action → Latch → Latch
unfolding decrement notify test_count
act count_down l =
    let c = decrement l.count in
    if is_zero c
    then record l { count = c; waiters = λ i. notify (l.waiters i) }
    else record l { count = c }
act (tests j) l = record l {
  waiters = λ i. if j == i then test_count l.count (l.waiters i) else l.waiters i;
}

unfoldable pub run : List Action → Latch → Latch
unfolding act
run [] l = l
run (a ∷ rest) l = run rest (act a l)
