-- ===== src/Pool/Queue.antt =====
-- What a turn of a worker of src/net/ThreadPool.cc takes from the queue.
use jerry.Base.{
  ℕ, zero, suc, max, ◌+◌, ◌≤◌, ◌≡◌, ◌⊎◌, inl, inr, refl, sym, ap, subst, Bool-cases, true, false,
  List, [], ◌∷◌, Option, none, some, length, leb, ◌==◌, if◌then◌else◌, arith,
}
use jerry.Pool.{
  TaskStruct, ThreadPool, mark, split_at, none_greater, value, pop, take_task, discard_task, keep,
  keep_taken, as_executed, as_deleted, test_canceled, map_popped, takes, discards, do_action,
}

-- How often `k` occurs in the list.
unfoldable pub times : ℕ → List ℕ → ℕ
times k [] = 0
times k (j ∷ l) = (if j == k then 1 else 0) + times k l

-- How many tasks of the queue have the id `k`, and how many of these are not cancelled.
unfoldable pub count : ℕ → List TaskStruct → ℕ
count k [] = 0
count k (t ∷ q) = (if t.tid == k then 1 else 0) + count k q

unfoldable pub live : ℕ → List TaskStruct → ℕ
live k [] = 0
live k (t ∷ q) = (if t.tid == k then if t.canceled then 0 else 1 else 0) + live k q

-- `r` is what `pop` leaves of `q`.
pub record Popped (k : ℕ) (q : List TaskStruct) (r : TaskStruct × List TaskStruct) : Type 0 where
  pub counted : count k q ≡ (if r.0.tid == k then 1 else 0) + count k r.1
  pub lives : live k q ≡ (if r.0.tid == k then if r.0.canceled then 0 else 1 else 0) + live k r.1
  pub shorter : length q ≡ suc (length r.1)

abbrev pub AllPopped : ℕ → List TaskStruct → Option (TaskStruct × List TaskStruct) → Type 0
AllPopped k q none = Unit
AllPopped k q (some r) = Popped k q r

cons-AllPopped :
    (k : ℕ) (t : TaskStruct) (q : List TaskStruct) (o : Option (TaskStruct × List TaskStruct))
    → AllPopped k q o
    → AllPopped k (t ∷ q) (elim o [ none ↦ none | some r ↦ some (r.0, t ∷ r.1) ])
unfolding count live
cons-AllPopped k t q none h = h
cons-AllPopped k t q (some r) h = ground (arith, h.counted, h.lives, h.shorter)

split_at-AllPopped : (k n : ℕ) (q : List TaskStruct) → AllPopped k q (split_at n q)
unfolding split_at count live
split_at-AllPopped k n [] = tt
split_at-AllPopped k zero (t ∷ q) = ground arith
split_at-AllPopped k (suc n) (t ∷ q) =
    cons-AllPopped k t q (split_at n q) (split_at-AllPopped k n q)

guard-AllPopped :
    (k : ℕ) (q : List TaskStruct) (o : Option (TaskStruct × List TaskStruct))
    → AllPopped k q o
    → AllPopped k q
        (elim o [ none ↦ none | some r ↦ if none_greater r.0 r.1 then some r else none ])
guard-AllPopped k q none h = h
guard-AllPopped k q (some r) h =
    elim (none_greater r.0 r.1) as (λ b. AllPopped k q (if b then some r else none)) [
      | true ↦ h
      | false ↦ tt
    ]

pop-AllPopped : (k n : ℕ) (q : List TaskStruct) → AllPopped k q (pop n q)
unfolding pop
pop-AllPopped k n q = guard-AllPopped k q (split_at n q) (split_at-AllPopped k n q)

pub count-mark : (k j : ℕ) (q : List TaskStruct) → count k (mark j q) ≡ count k q
unfolding count mark
count-mark k j [] = refl
count-mark k j (t ∷ q) = ground (arith, count-mark k j q)

pub length-mark : (j : ℕ) (q : List TaskStruct) → length (mark j q) ≡ length q
unfolding mark
length-mark j [] = refl
length-mark j (t ∷ q) = ground (arith, length-mark j q)

pub live-mark :
    (k j : ℕ) (q : List TaskStruct) → live k (mark j q) ≡ (if j == k then 0 else live k q)
unfolding live mark
live-mark k j [] = ground arith
live-mark k j (t ∷ q) = ground (arith, live-mark k j q)

-- A predicate holds after a turn if it holds for every task that `pop` may give.
module _ (P : ThreadPool → Type 0) (k : ℕ) (s : ThreadPool) (still : P s) where
  module _
      (if_deleted : (r : TaskStruct × List TaskStruct)
        → Popped k s.pending_tasks r
        → P (as_deleted s r)) where
    discarded_keeps :
        (o : Option (TaskStruct × List TaskStruct))
        → AllPopped k s.pending_tasks o
        → P (keep s (map_popped (as_deleted s) o))
    discarded_keeps none h = still
    discarded_keeps (some r) h = if_deleted r h

    pub discards_keeps : (n : ℕ) → P (do_action (discards n) s)
    unfolding do_action discard_task
    discards_keeps n = discarded_keeps (pop n s.pending_tasks) (pop-AllPopped k n s.pending_tasks)

  module _
      (if_canceled : (r : TaskStruct × List TaskStruct)
        → Popped k s.pending_tasks r
        → r.0.canceled ≡ true
        → P (as_deleted s r))
      (if_executed : (r : TaskStruct × List TaskStruct)
        → Popped k s.pending_tasks r
        → r.0.canceled ≡ false
        → P (as_executed s r)) where
    taken_keeps :
        (o : Option (TaskStruct × List TaskStruct))
        → AllPopped k s.pending_tasks o
        → P (keep_taken s (map_popped (test_canceled s) o))
    taken_keeps none h = still
    taken_keeps (some (t, q)) h = elim (Bool-cases t.canceled) [
      | inl c ↦
          let e : (test_canceled s (t, q)).1 ≡ as_deleted s (t, q) = ground (arith, c) in
          subst P (sym e) (if_canceled (t, q) h c)
      | inr c ↦
          let e : (test_canceled s (t, q)).1 ≡ as_executed s (t, q) = ground (arith, c) in
          subst P (sym e) (if_executed (t, q) h c)
    ]

    pub takes_keeps : (n : ℕ) → P (do_action (takes n) s)
    unfolding do_action take_task
    takes_keeps n = taken_keeps (pop n s.pending_tasks) (pop-AllPopped k n s.pending_tasks)

-- The greatest priority, and the first task of the queue that has it.
unfoldable pub peak : List TaskStruct → ℕ
peak [] = 0
peak (t ∷ q) = max (value t.priority) (peak q)

unfoldable pub top : List TaskStruct → ℕ
top [] = 0
top (t ∷ q) = let rest = top q in if leb (peak q) (value t.priority) then 0 else suc rest

none_greater-peak :
    (t : TaskStruct) (q : List TaskStruct) → none_greater t q ≡ leb (peak q) (value t.priority)
unfolding none_greater peak
none_greater-peak t [] = ground arith
none_greater-peak t (u ∷ q) = ground (arith, none_greater-peak t q)

-- What `split_at` gives at `top`.
abbrev IsTop : List TaskStruct → Option (TaskStruct × List TaskStruct) → Type 0
IsTop q none = q ≡ []
IsTop q (some r) = (value r.0.priority ≡ peak q) × (peak r.1 ≤ peak q)

cons-IsTop :
    (t : TaskStruct) (q : List TaskStruct) (o : Option (TaskStruct × List TaskStruct))
    → leb (peak q) (value t.priority) ≡ false
    → IsTop q o
    → IsTop (t ∷ q) (elim o [ none ↦ none | some r ↦ some (r.0, t ∷ r.1) ])
unfolding peak
cons-IsTop t q none h e = absurd (ground (arith, h, ap peak e))
cons-IsTop t q (some r) h e = ground (arith, h, e.0, e.1)

split_at-IsTop : (q : List TaskStruct) → IsTop q (split_at (top q) q)
unfolding split_at top peak
split_at-IsTop [] = refl
split_at-IsTop (t ∷ q) = elim (Bool-cases (leb (peak q) (value t.priority))) [
  | inl h ↦ simp h (ground (arith, h))
  | inr h ↦ simp h (cons-IsTop t q (split_at (top q) q) h (split_at-IsTop q))
]

guard-IsTop :
    (q : List TaskStruct) (o : Option (TaskStruct × List TaskStruct))
    → IsTop q o
    → AllPopped 0 q o
    → (q ≡ [])
      ⊎ ((r : TaskStruct × List TaskStruct) × ((elim o [
        | none ↦ none
        | some r ↦ if none_greater r.0 r.1 then some r else none
      ])
            ≡ some r)
          × (length q ≡ suc (length r.1)))
guard-IsTop q none e p = inl e
guard-IsTop q (some r) e p = inr (r, ground (arith, none_greater-peak r.0 r.1, e.0, e.1), p.shorter)

-- A queue that is not empty has an element that `pop` takes.
pub pop-top :
    (q : List TaskStruct)
    → (q ≡ [])
      ⊎ ((r : TaskStruct × List TaskStruct) × (pop (top q) q ≡ some r)
          × (length q ≡ suc (length r.1)))
unfolding pop
pop-top q = guard-IsTop q (split_at (top q) q) (split_at-IsTop q) (split_at-AllPopped 0 (top q) q)
