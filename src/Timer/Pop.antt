-- ===== src/Timer/Pop.antt =====
-- Which timers `PopExpiredTimers` of src/net/TimerQueue.cc pops.
use jerry.Base.{
  ℕ, suc, ◌+◌, ◌-◌, ◌/◌, ◌≤◌, ◌≡◌, ◌⊎◌, refl, ap, List, [], ◌∷◌, ◌++◌, length, ltb, arith,
  Bool-cases, inl, inr, ltb→le, ltb→lt,
}
use jerry.Timer.{TimerStruct, pop_loop, pop_expired_timers}

abbrev pub AllExpired : ℕ → List TimerStruct → Type 0
AllExpired now [] = Unit {0}
AllExpired now (t ∷ q) = (t.expire ≤ now) × AllExpired now q

pop_loop_cases :
    (i now : ℕ) (t : TimerStruct) (q : List TimerStruct)
    → (pop_loop i now (t ∷ q) ≡ ([], t ∷ q))
      ⊎ (t.expire ≤ now)
        × (pop_loop i now (t ∷ q) ≡ (t ∷ (pop_loop (suc i) now q).0, (pop_loop (suc i) now q).1))
unfolding pop_loop
pop_loop_cases i now t q = elim (Bool-cases (ltb i (length (t ∷ q)))) [
  | inr done ↦ inl (ground arith)
  | inl going ↦ elim (Bool-cases (ltb now t.expire)) [
    | inl later ↦ inl (ground arith)
    | inr expired ↦ inr (ltb→le now t.expire expired, ground arith)
  ]
]

pop_loop-AllExpired :
    (i now : ℕ) (q : List TimerStruct)
    → let (popped, rest) = pop_loop i now q in (popped ++ rest ≡ q) × AllExpired now popped
unfolding pop_loop
pop_loop-AllExpired i now [] = (refl, tt)
pop_loop-AllExpired i now (t ∷ q) = elim (pop_loop_cases i now t q) [
  | inl same ↦ rw same (refl, tt)
  | inr (expired, e) ↦
      let ih = pop_loop-AllExpired (suc i) now q in rw e (ap (λ l. t ∷ l) ih.0, (expired, ih.1))
]

-- `PopExpiredTimers` pops only timers that have expired, from the top of the queue on, and loses none.
pub pop_expired_timers-AllExpired :
    (now : ℕ) (q : List TimerStruct)
    → let (popped, rest) = pop_expired_timers now q in (popped ++ rest ≡ q) × AllExpired now popped
unfolding pop_expired_timers
pop_expired_timers-AllExpired now q = pop_loop-AllExpired 0 now q

pop_loop_half :
    (i now : ℕ) (q : List TimerStruct)
    → AllExpired now q
    → length (pop_loop i now q).0 ≡ (length q + 1 - i) / 2
unfolding pop_loop
pop_loop_half i now [] a = omega arith
pop_loop_half i now (t ∷ q) a =
    let ih = pop_loop_half (suc i) now q a.1 in
    elim (Bool-cases (ltb i (length (t ∷ q)))) [
      | inr done ↦
          let e : pop_loop i now (t ∷ q) ≡ ([], t ∷ q) = ground arith in
          rw e (omega (arith, ltb→le i (length (t ∷ q)) done))
      | inl going ↦
          let rest = pop_loop (suc i) now q in
          let e : pop_loop i now (t ∷ q) ≡ (t ∷ rest.0, rest.1) = ground (arith, a.0) in
          rw e (omega (arith, ih, ltb→lt i (length (t ∷ q)) going))
    ]

-- When all of `n` waiting timers have expired, `PopExpiredTimers` pops half of them, rounded up.
pub pop_expired_timers_half :
    (now : ℕ) (q : List TimerStruct)
    → AllExpired now q
    → length (pop_expired_timers now q).0 ≡ (length q + 1) / 2
unfolding pop_expired_timers
pop_expired_timers_half now q a = omega (arith, pop_loop_half 0 now q a)
