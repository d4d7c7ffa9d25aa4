-- ===== src/Pool/Ends.antt =====
-- After `Stop` of src/net/ThreadPool.cc, all workers that it wakes come to their ends.
use jerry.Base.{
  ℕ, zero, suc, ◌+◌, ◌<◌, ◌≡◌, refl, sym, ap, Bool, true, false, ◌||◌, List, [], ◌∷◌, some, length,
  ltb, Bool-cases, inl, inr, ◌≤◌, if◌then◌else◌, arith, subst,
}
use jerry.Pool.{ThreadPool, TaskStruct, discard_task, as_deleted, pop}
use jerry.Pool.Queue.{top, pop-top}
use jerry.Pool.Workers.{
  Worker, looping, blocking, waiting, woken, executing, discarding, exited, Threads, locked,
  is_empty, advance, advance_at, wake_all, stores_stop, notifies_all, advances, step, put_first,
  after_discard,
}
use jerry.Pool.Stopping.{is_asleep}

unfoldable pub any_asleep : List Worker → Bool
any_asleep [] = false
any_asleep (w ∷ ws) = is_asleep w || any_asleep ws

-- The steps that a stopped worker has left, not counting those for the pending tasks.
abbrev pub rank : Worker → ℕ
rank looping = 2
rank blocking = 4
rank waiting = 3
rank woken = 2
rank executing = 3
rank discarding = 1
rank exited = 0

unfoldable pub rank_all : List Worker → ℕ
rank_all [] = 0
rank_all (w ∷ ws) = rank w + rank_all ws

unfoldable pub rank_at : ℕ → List Worker → ℕ
rank_at i [] = 0
rank_at zero (w ∷ ws) = rank w
rank_at (suc i) (w ∷ ws) = rank_at i ws

unfoldable pub steps_left : Threads → ℕ
unfolding rank_all
steps_left c = rank_all c.workers + length c.pool.pending_tasks

awake-locked : (ws : List Worker) → any_asleep ws ≡ false → locked ws ≡ false
unfolding any_asleep locked
awake-locked [] h = refl
awake-locked (w ∷ ws) h = ground (arith, awake-locked ws)

-- `r` is where worker `w` and the pool are after a step.
record Advanced (w : Worker) (s : ThreadPool) (r : Worker × ThreadPool) : Type 0 where
  pub stopped : r.1.stop ≡ true
  pub awake : is_asleep r.0 ≡ false
  pub nearer : suc (rank r.0 + length r.1.pending_tasks) ≡ rank w + length s.pending_tasks

nonempty : (q : List TaskStruct) (n : ℕ) → length q ≡ suc n → is_empty q ≡ false
nonempty [] n e = absurd (omega (arith, e))
nonempty (t ∷ q) n e = refl

discards_one :
    (s : ThreadPool) (r : TaskStruct × List TaskStruct)
    → pop (top s.pending_tasks) s.pending_tasks ≡ some r
    → length s.pending_tasks ≡ suc (length r.1)
    → (if is_empty s.pending_tasks
        then some (exited, s)
        else after_discard (discard_task (top s.pending_tasks) s))
      ≡ some (discarding, as_deleted s r)
unfolding discard_task
discards_one s r popped shorter =
    simp (nonempty (s.pending_tasks) (length r.1) shorter, popped) refl

advance-Advanced :
    (w : Worker) (s : ThreadPool)
    → s.stop ≡ true
    → is_asleep w ≡ false
    → 0 < rank w
    → (r : Worker × ThreadPool) × (advance false (top s.pending_tasks) w s ≡ some r)
      × Advanced w s r
unfolding advance
advance-Advanced looping s e h p =
    ((discarding, s), ground (arith, e), record { stopped = e; awake = refl; nearer = omega arith })
advance-Advanced blocking s e h p = absurd (ground (arith, h))
advance-Advanced waiting s e h p = absurd (ground (arith, h))
advance-Advanced woken s e h p =
    ((discarding, s), ground (arith, e), record { stopped = e; awake = refl; nearer = omega arith })
advance-Advanced executing s e h p =
    ((looping, s), refl, record { stopped = e; awake = refl; nearer = omega arith })
advance-Advanced discarding s e h p = elim (pop-top s.pending_tasks) [
  | inl none_left ↦ (
    (exited, s),
    simp none_left refl,
    record { stopped = e; awake = refl; nearer = simp none_left (omega arith) },
  )
  | inr (r, popped, shorter) ↦ (
    (discarding, as_deleted s r),
    discards_one s r popped shorter,
    record { stopped = e; awake = refl; nearer = omega (arith, shorter) },
  )
]
advance-Advanced exited s e h p = absurd (omega (arith, p))

-- After a step, the workers and the pool of `r` are stopped and awake and one step nearer.
unfoldable Nearer : List Worker → ThreadPool → List Worker × ThreadPool → Type 0
Nearer ws s r =
    (r.1.stop ≡ true)
    × (any_asleep r.0 ≡ false)
    × (suc (rank_all r.0 + length r.1.pending_tasks) ≡ rank_all ws + length s.pending_tasks)

advance_at-Nearer :
    (i : ℕ) (ws : List Worker) (s : ThreadPool)
    → s.stop ≡ true
    → any_asleep ws ≡ false
    → 0 < rank_at i ws
    → Nearer ws s (advance_at false i (top s.pending_tasks) ws s)
unfolding Nearer advance_at any_asleep rank_all rank_at
advance_at-Nearer i [] s e h p = absurd (omega (arith, p))
advance_at-Nearer zero (w ∷ ws) s e h p =
    let (r, made, a) = advance-Advanced w s e (ground (arith, h)) p in
    subst (Nearer (w ∷ ws) s) (sym (ap (put_first w ws s) made))
      (a.stopped, ground (arith, h, a.awake), omega (arith, a.nearer))
advance_at-Nearer (suc i) (w ∷ ws) s e h p =
    let (e', h', n) = advance_at-Nearer i ws s e (ground (arith, h)) p in
    (e', ground (arith, h, h'), omega (arith, n))

-- Once `Stop` has set the flag and no worker sleeps, each worker that is not at its end can make a step;
-- this brings all of them one step nearer to their ends, and sends none to sleep.
pub stop_ends :
    (i : ℕ) (c : Threads)
    → c.pool.stop ≡ true
    → any_asleep c.workers ≡ false
    → 0 < rank_at i c.workers
    → let c' = step (advances i (top c.pool.pending_tasks)) c in
      (c'.pool.stop ≡ true) × (any_asleep c'.workers ≡ false) × (suc (steps_left c') ≡ steps_left c)
unfolding step steps_left Nearer
stop_ends i c e h p = simp (awake-locked c.workers h) (advance_at-Nearer i c.workers c.pool e h p)

-- `Stop` leaves no worker asleep where none holds the mutex when it notifies.
stop_wakes : (ws : List Worker) → locked ws ≡ false → any_asleep (wake_all ws) ≡ false
unfolding any_asleep locked wake_all
stop_wakes [] h = refl
stop_wakes (w ∷ ws) h = ground (arith, stop_wakes ws)

-- The first worker that is not at its end.
unfoldable pub first_left : List Worker → ℕ
first_left [] = 0
first_left (w ∷ ws) = let rest = first_left ws in if ltb 0 (rank w) then 0 else suc rest

-- At most `n` steps, of that worker each time.
unfoldable pub finish : ℕ → Threads → Threads
finish zero c = c
finish (suc n) c =
    let rest = finish n (step (advances (first_left c.workers) (top c.pool.pending_tasks)) c) in
    if ltb 0 (rank_all c.workers) then rest else c

first_left-rank_at : (ws : List Worker) → 0 < rank_all ws → 0 < rank_at (first_left ws) ws
unfolding first_left rank_all rank_at
first_left-rank_at [] h = h
first_left-rank_at (w ∷ ws) h = elim (Bool-cases (ltb 0 (rank w))) [
  | inl e ↦ simp e (ground (arith, e))
  | inr e ↦ simp e (first_left-rank_at ws (ground (arith, h, e)))
]

finish-rank_all :
    (n : ℕ) (c : Threads)
    → c.pool.stop ≡ true
    → any_asleep c.workers ≡ false
    → steps_left c ≤ n
    → rank_all (finish n c).workers ≡ 0
unfolding finish steps_left
finish-rank_all zero c e h b = omega (arith, b)
finish-rank_all (suc n) c e h b = elim (Bool-cases (ltb 0 (rank_all c.workers))) [
  | inl left ↦
      let (e', h', near) =
        stop_ends (first_left c.workers) c e h
          (first_left-rank_at c.workers (ground (arith, left))) in
      simp left (
        finish-rank_all n (step (advances (first_left c.workers) (top c.pool.pending_tasks)) c) e'
          h' (omega (arith, near)))
  | inr none_left ↦ simp none_left (ground (arith, none_left))
]

-- If no worker holds the mutex when `Stop` sets the flag and notifies, all workers can come to their ends,
-- in as many steps as `steps_left` counts.
pub stop_returns :
    (c : Threads)
    → locked c.workers ≡ false
    → let c1 = step notifies_all (step stores_stop c) in
      rank_all (finish (steps_left c1) c1).workers ≡ 0
unfolding step
stop_returns c h =
    let c1 = step notifies_all (step stores_stop c) in
    finish-rank_all (steps_left c1) c1 refl (stop_wakes c.workers h) (omega arith)
