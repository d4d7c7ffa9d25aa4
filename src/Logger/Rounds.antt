-- ===== src/Logger/Rounds.antt =====
-- The steps of `FlushThread` of src/logger/AsyncFileAppender.cc.
use jerry.Base.{
  ◌≤◌, ◌≡◌, ◌⊎◌, ◌∙◌, refl, sym, ap, List, [], ◌∷◌, ◌++◌, Option, none, some, length, take, ltb,
  arith, if◌then◌else◌, length-append, append_assoc, append-nil, Bool-cases, inl, inr,
}
use jerry.Base.Result.{ok}
use jerry.Logger.{
  AsyncFileAppender, FixedBuffer, Phase, at_test, at_lock, at_write, ended, collect, reuse,
  write_out, flush_step, or_fresh, tail, or_else, left_of,
}
use jerry.Logger.Buffers.{
  AllThere, bytes, AllThere-append, bytes-append, write_all_lem, Inv, stored, Goes,
}

-- The buffers that `resize(2)` keeps.
abbrev kept : List (Option FixedBuffer) → List (Option FixedBuffer)
kept os = if ltb 2 (length os) then take 2 os else os

reuse_first :
    (os : List (Option FixedBuffer))
    → AllThere os
    → 1 ≤ length os
    → reuse none (kept os) ≡ ok (some [])
reuse_first [] h k = absurd (omega arith)
reuse_first (none ∷ os) h k = absurd h
reuse_first (some b ∷ os) h k = ground arith

reuse_second :
    (os : List (Option FixedBuffer))
    → AllThere os
    → 2 ≤ length os
    → reuse none (tail (kept os)) ≡ ok (some [])
reuse_second [] h k = absurd (omega arith)
reuse_second (none ∷ os) h k = absurd h
reuse_second (some b ∷ []) h k = absurd (omega arith)
reuse_second (some b ∷ none ∷ os) h k = absurd h
reuse_second (some b ∷ some c ∷ os) h k = ground arith

reuse_any :
    (tmp2 : Option FixedBuffer) (os : List (Option FixedBuffer))
    → AllThere os
    → (tmp2 ≡ some []) ⊎ (tmp2 ≡ none) × (2 ≤ length os)
    → reuse tmp2 (tail (kept os)) ≡ ok (some [])
reuse_any tmp2 os h (inl e) = rw e refl
reuse_any tmp2 os h (inr (e, k)) = rw e (reuse_second os h k)

write_out-Goes : (a : AsyncFileAppender) → Inv at_write a → Goes [] a (write_out a)
unfolding write_out stored
write_out-Goes a i =
    let (no_tmp, there, one, tmp2) = i.owns in
    let os = a.buffers_to_write in
    (
      at_test,
      record a {
        log_file = a.log_file ++ bytes os;
        tmp_buffer1 = some [];
        tmp_buffer2 = some [];
        buffers_to_write = [];
        phase = at_test;
      },
      ground (
        arith,
        no_tmp,
        write_all_lem os there,
        reuse_first os there one,
        reuse_any a.tmp_buffer2 os there tmp2,
      ),
      record {
        at = refl;
        cur = i.cur;
        fulled = i.fulled;
        next = i.next;
        owns = (refl, refl, refl);
      },
      append_assoc a.log_file (bytes os) (bytes a.fulled_buffers ++ or_fresh a.cur_buffer)
          ∙ sym (
              append-nil
                (a.log_file ++ (bytes os ++ (bytes a.fulled_buffers ++ or_fresh a.cur_buffer)))),
    )

next_blank :
    (next tmp2 : Option FixedBuffer) (q : List (Option FixedBuffer))
    → (next ≡ some []) ⊎ (next ≡ none) × (1 ≤ length q)
    → tmp2 ≡ some []
    → or_else next tmp2 ≡ some []
next_blank next tmp2 q (inl e) h = rw e refl
next_blank next tmp2 q (inr (e, k)) h = rw e h

tmp2_left :
    (next tmp2 : Option FixedBuffer) (q : List (Option FixedBuffer)) (cur : Option FixedBuffer)
    → (next ≡ some []) ⊎ (next ≡ none) × (1 ≤ length q)
    → tmp2 ≡ some []
    → (left_of next tmp2 ≡ some []) ⊎ (left_of next tmp2 ≡ none) × (2 ≤ length (q ++ cur ∷ []))
tmp2_left next tmp2 q cur (inl e) h = inl (rw e h)
tmp2_left next tmp2 q cur (inr (e, k)) h =
    inr (rw e refl, omega (arith, length-append q (cur ∷ [])))

collect-Goes : (a : AsyncFileAppender) → Inv at_lock a → Goes [] a (ok (collect a))
unfolding collect stored
collect-Goes a i =
    let (tmp1, tmp2, none_left) = i.owns in
    let q = a.fulled_buffers in
    let (cur, e) = i.cur in
    (
      at_write,
      collect a,
      refl,
      record {
        at = refl;
        cur = ([], tmp1);
        fulled = rw none_left tt;
        next = inl (next_blank a.next_buffer a.tmp_buffer2 q i.next tmp2);
        owns = (
          refl,
          rw e (AllThere-append q cur i.fulled),
          omega (arith, length-append q (a.cur_buffer ∷ [])),
          tmp2_left a.next_buffer a.tmp_buffer2 q a.cur_buffer i.next tmp2,
        );
      },
      rw (none_left, tmp1)
          (ap (λ l. a.log_file ++ (l ++ [])) (bytes-append q a.cur_buffer)
            ∙ sym (append_assoc a.log_file (bytes q ++ or_fresh a.cur_buffer) [])),
    )

-- A step that does not touch the buffers.
same_bytes : (a b : AsyncFileAppender) → stored b ≡ stored a → stored b ≡ stored a ++ []
same_bytes a b e = e ∙ sym (append-nil (stored a))

pub flush_step-Goes : (p : Phase) (a : AsyncFileAppender) → Inv p a → Goes [] a (flush_step a)
unfolding flush_step stored
flush_step-Goes at_test a i = elim (Bool-cases a.stop) [
  | inl on ↦ (
    ended,
    record a { phase = ended },
    rw (i.at, on) refl,
    record { at = refl; cur = i.cur; fulled = i.fulled; next = i.next; owns = i.owns },
    sym (append-nil (stored a)),
  )
  | inr off ↦ (
    at_lock,
    record a { phase = at_lock },
    rw (i.at, off) refl,
    record { at = refl; cur = i.cur; fulled = i.fulled; next = i.next; owns = i.owns },
    sym (append-nil (stored a)),
  )
]
flush_step-Goes at_lock a i = rw (i.at) (collect-Goes a i)
flush_step-Goes at_write a i = rw (i.at) (write_out-Goes a i)
flush_step-Goes ended a i = (ended, a, rw (i.at) refl, i, sym (append-nil (stored a)))
