-- ===== src/Pool/Discards.antt =====
-- The loop in which a stopped worker of src/net/ThreadPool.cc discards tasks, statement by statement. It runs
-- without the mutex, so the statements of two workers come in any order.
use jerry.Base.{
  ◌≤◌, ◌≡◌, refl, ap, inl, inr, Bool, true, false, List, [], ◌∷◌, Option, none, some, length, erase,
  arith,
}
use jerry.Base.Result.{Result, ok, fault, bad_access, ◌>>=◌}
use jerry.Pool.{TaskStruct, ThreadPool, pop, split_at}
use jerry.Pool.Queue.{top, pop-top}

-- Where a worker is: at the test of the loop, with the task that `top` gave, or behind the loop.
pub data Discarder : Type 0 where
  testing : Discarder
  popping : TaskStruct → Discarder
  exited : Discarder

-- The task that is on top, and the others.
abbrev pub peek : List TaskStruct → Option (TaskStruct × List TaskStruct)
peek q = pop (top q) q

abbrev after_top : ThreadPool → Option (TaskStruct × List TaskStruct) → Discarder × ThreadPool
after_top s none = (exited, s)
after_top s (some r) = (popping r.0, s)

abbrev as_deleted_of : TaskStruct → ThreadPool → List TaskStruct → ThreadPool
as_deleted_of t s q = record s {
  pending_tasks = q;
  tasks_map = erase t.tid s.tasks_map;
  deleted = t.tid ∷ s.deleted;
}

abbrev after_pop :
    TaskStruct
    → ThreadPool
    → Option (TaskStruct × List TaskStruct)
    → Result (Discarder × ThreadPool)
after_pop t s none = fault bad_access
after_pop t s (some r) = ok (testing, as_deleted_of t s r.1)

-- `empty` and `top`; or `pop`, which on an empty queue is undefined, `erase` and `delete` of the task that
-- `top` gave before.
unfoldable pub discard_step : Discarder → ThreadPool → Result (Discarder × ThreadPool)
discard_step testing s = ok (after_top s (peek s.pending_tasks))
discard_step (popping t) s = after_pop t s (peek s.pending_tasks)
discard_step exited s = ok (exited, s)

pub record TwoWorkers : Type 0 where
  pub one : Discarder
  pub other : Discarder
  pub pool : ThreadPool

-- The steps of two workers, in this order; true is a step of the first.
unfoldable pub discard_steps : List Bool → TwoWorkers → Result TwoWorkers
discard_steps [] c = ok c
discard_steps (true ∷ order) c = discard_step c.one c.pool >>= λ r.
    discard_steps order (record { one = r.0; other = c.other; pool = r.1 })
discard_steps (false ∷ order) c = discard_step c.other c.pool >>= λ r.
    discard_steps order (record { one = c.one; other = r.0; pool = r.1 })

-- Both read the top before one of them pops it.
abbrev pub overlapping : List Bool
overlapping = true ∷ false ∷ true ∷ false ∷ []

abbrev pub both_at_loop : ThreadPool → TwoWorkers
both_at_loop s = record { one = testing; other = testing; pool = s }

reads_top :
    (s : ThreadPool) (r : TaskStruct × List TaskStruct)
    → peek s.pending_tasks ≡ some r
    → discard_step testing s ≡ ok (popping r.0, s)
unfolding discard_step
reads_top s r e = ap (λ o. ok (after_top s o)) e

pops_top :
    (t : TaskStruct) (s : ThreadPool) (r : TaskStruct × List TaskStruct)
    → peek s.pending_tasks ≡ some r
    → discard_step (popping t) s ≡ ok (testing, as_deleted_of t s r.1)
unfolding discard_step
pops_top t s r e = ap (after_pop t s) e

pops_nothing :
    (t : TaskStruct) (s : ThreadPool)
    → s.pending_tasks ≡ []
    → discard_step (popping t) s ≡ fault bad_access
unfolding discard_step pop split_at
pops_nothing t s e = ap (λ q. after_pop t s (peek q)) e

-- If two workers stand at the loop that discards the tasks, two tasks wait at least, and both workers read the
-- top before one of them pops it: the task on top is deleted twice, and the next one has left the queue and
-- is not deleted.
pub discards_overlap :
    (s : ThreadPool)
    → 2 ≤ length s.pending_tasks
    → (t u : TaskStruct) × (q q' : List TaskStruct) × (peek s.pending_tasks ≡ some (t, q))
      × (peek q ≡ some (u, q'))
      × (discard_steps overlapping (both_at_loop s)
          ≡ ok (record {
            one = testing;
            other = testing;
            pool = record s {
              pending_tasks = q';
              tasks_map = erase t.tid (erase t.tid s.tasks_map);
              deleted = t.tid ∷ t.tid ∷ s.deleted;
            };
          }))
unfolding discard_steps
discards_overlap s h = elim (pop-top s.pending_tasks) [
  | inl e ↦ absurd (omega (arith, h, ap length e))
  | inr ((t, q), e, longer) ↦ elim (pop-top q) [
    | inl e' ↦ absurd (omega (arith, h, longer, ap length e'))
    | inr ((u, q'), e', longer') ↦ (
      t,
      u,
      q,
      q',
      e,
      e',
      rw
          (
            reads_top s (t, q) e,
            reads_top s (t, q) e,
            pops_top t s (t, q) e,
            pops_top t (as_deleted_of t s q) (u, q') e',
          )
          refl,
    )
  ]
]

-- If one task waits and both read it before one of them pops it, the second `pop` is on an empty queue.
pub last_overlap :
    (s : ThreadPool)
    → length s.pending_tasks ≡ 1
    → discard_steps overlapping (both_at_loop s) ≡ fault bad_access
unfolding discard_steps
last_overlap s h = elim (pop-top s.pending_tasks) [
  | inl e ↦ absurd (omega (arith, h, ap length e))
  | inr ((t, q), e, longer) ↦ elim (pop-top q) [
    | inl e' ↦
        rw
          (
            reads_top s (t, q) e,
            reads_top s (t, q) e,
            pops_top t s (t, q) e,
            pops_nothing t (as_deleted_of t s q) e',
          )
          refl
    | inr ((u, q'), e', longer') ↦ absurd (omega (arith, h, longer, longer'))
  ]
]
