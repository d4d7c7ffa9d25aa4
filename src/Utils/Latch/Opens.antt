-- ===== src/Utils/Latch/Opens.antt =====
-- `Wait` of src/utils/CountDownLatch.cc returns when the count has come to zero, and not before.
use native.Mathlib.Decide.{dec_lt}
use jerry.Base.{
  ℕ, zero, suc, ◌-◌, ◌≤◌, ◌<◌, ◌≡◌, ◌≢◌, ◌∙◌, refl, ap, subst, List, [], ◌∷◌, ◌++◌, arith, ◌⊎◌, inl,
  inr,
}
use jerry.Utils.Latch.{
  Latch, Waiter, Action, at, outside, asleep, notified, returned, new_latch, notify, test_count,
  act, run, count_down, tests,
}

abbrev pub count_downs : List Action → ℕ
count_downs [] = 0
count_downs (count_down ∷ es) = suc (count_downs es)
count_downs (tests j ∷ es) = count_downs es

-- With `left` calls of `CountDown` to come no one has returned, and with none no one sleeps.
record Inv (left : ℕ) (l : Latch) : Type 0 where
  count_is : l.count ≡ at left
  shut : (i : ℕ) → 0 < left → l.waiters i ≢ returned
  opened : (i : ℕ) → left ≡ 0 → l.waiters i ≢ asleep

notify-asleep : (w : Waiter) → notify w ≢ asleep
unfolding notify
notify-asleep outside e = cc e
notify-asleep asleep e = cc e
notify-asleep notified e = cc e
notify-asleep returned e = cc e

test_count-asleep : (w : Waiter) → test_count (at 0) w ≡ returned
unfolding test_count
test_count-asleep outside = refl
test_count-asleep asleep = refl
test_count-asleep notified = refl
test_count-asleep returned = refl

test_count-shut : (n : ℕ) (w : Waiter) → w ≢ returned → test_count (at (suc n)) w ≢ returned
unfolding test_count
test_count-shut n outside h e = cc e
test_count-shut n asleep h e = cc e
test_count-shut n notified h e = cc e
test_count-shut n returned h e = h refl

count_down-Inv : (left : ℕ) (l : Latch) → Inv (suc left) l → Inv left (act count_down l)
unfolding act
count_down-Inv zero l i = record {
  count_is = ground (arith, i.count_is);
  shut = λ k pos. absurd (omega arith);
  opened = λ k z e. notify-asleep (l.waiters k) (ground (arith, i.count_is, e));
}
count_down-Inv (suc left) l i = record {
  count_is = ground (arith, i.count_is);
  shut = λ k pos e. i.shut k (omega arith) (ground (arith, i.count_is, e));
  opened = λ k z. absurd (omega arith);
}

tests-Inv : (left j : ℕ) (l : Latch) → Inv left l → Inv left (act (tests j) l)
unfolding act
tests-Inv zero j l i = record {
  count_is = i.count_is;
  shut = λ k pos. absurd (omega arith);
  opened = λ k z e. ground (arith, i.count_is, i.opened k z, e, test_count-asleep (l.waiters k));
}
tests-Inv (suc left) j l i = record {
  count_is = i.count_is;
  shut = λ k pos e.
      ground
        (arith, i.count_is, i.shut k pos, e, test_count-shut left (l.waiters k) (i.shut k pos));
  opened = λ k z. absurd (omega arith);
}

run-Inv :
    (n : ℕ) (es : List Action) (l : Latch)
    → Inv n l
    → count_downs es ≤ n
    → Inv (n - count_downs es) (run es l)
unfolding run
run-Inv n [] l i le = subst (λ k. Inv k l) (omega arith) i
run-Inv zero (count_down ∷ es) l i le = absurd (omega arith)
run-Inv (suc n) (count_down ∷ es) l i le =
    subst (λ k. Inv k (run es (act count_down l))) (omega arith)
      (run-Inv n es (act count_down l) (count_down-Inv n l i) (omega arith))
run-Inv n (tests j ∷ es) l i le = run-Inv n es (act (tests j) l) (tests-Inv n j l i) le

new_latch-Inv : (n : ℕ) → Inv n (new_latch n)
new_latch-Inv n = record { count_is = refl; shut = λ i pos e. cc e; opened = λ i z e. cc e }

run-append : (es fs : List Action) (l : Latch) → run (es ++ fs) l ≡ run fs (run es l)
unfolding run
run-append [] fs l = refl
run-append (a ∷ es) fs l = run-append es fs (act a l)

last_test :
    (left i : ℕ) (l : Latch) → Inv left l → left ≡ 0 → (run (tests i ∷ []) l).waiters i ≡ returned
unfolding run act
last_test left i l inv z =
    ground (arith, inv.count_is, test_count-asleep (l.waiters i), ap (λ k. at k) z)

-- From a latch with count `n`, and with at most `n` calls of `CountDown` in any order with the steps of the
-- waiting threads, woken up for nothing or not: before the last call no thread has returned from `Wait`, and
-- after it none sleeps any more, and each returns with its next step.
pub wait_lem :
    (n i : ℕ) (es : List Action)
    → count_downs es ≤ n
    → let l = run es (new_latch n) in
      ((count_downs es < n) × (l.waiters i ≢ returned))
      ⊎ ((count_downs es ≡ n)
          × (l.waiters i ≢ asleep)
          × ((run (es ++ tests i ∷ []) (new_latch n)).waiters i ≡ returned))
wait_lem n i es le =
    let inv = run-Inv n es (new_latch n) (new_latch-Inv n) le in
    elim (dec_lt (count_downs es) n) [
      | yes early ↦ inl (early, inv.shut i (omega arith))
      | no late ↦
          let z : n - count_downs es ≡ 0 = omega arith in
          inr (
            omega arith,
            inv.opened i z,
            ap (λ (l : Latch). l.waiters i) (run-append es (tests i ∷ []) (new_latch n))
                ∙ last_test (n - count_downs es) i (run es (new_latch n)) inv z,
          )
    ]
