-- ===== src/Logger/Stopping.antt =====
-- What `Stop` of src/logger/AsyncFileAppender.cc leaves in the buffers.
use jerry.Base.{
  ℕ, ◌≡◌, ◌∙◌, refl, sym, ap, true, List, [], ◌∷◌, ◌++◌, none, some, length, leb, arith, Bool-cases,
  subst, inl, inr,
}
use jerry.Base.Result.{Result, ok, fault}
use jerry.Logger.{
  AsyncFileAppender, FixedBuffer, Phase, at_test, ended, append, append_bytes, flush_step, Event,
  appends, stops, flushes, step, run, or_fresh, available_bytes,
}
use jerry.Logger.Buffers.{Inv, append-Goes}

-- The flush thread will not write again.
data Halted : Phase → Type 0 where
  testing : Halted at_test
  done : Halted ended

-- What stays as it is.
record Same (a b : AsyncFileAppender) : Type 0 where
  stop : b.stop ≡ a.stop
  phase : b.phase ≡ a.phase
  log_file : b.log_file ≡ a.log_file

value : AsyncFileAppender → Result AsyncFileAppender → AsyncFileAppender
value a (ok b) = b
value a (fault f) = a

ok_inj : (a b : AsyncFileAppender) → ok a ≡ ok b → a ≡ b
unfolding value
ok_inj a b e = ap (value a) e

append-Same :
    (msg : List ℕ) (a b : AsyncFileAppender) (cur : FixedBuffer)
    → a.cur_buffer ≡ some cur
    → append msg a ≡ ok b
    → Same a b
unfolding append
append-Same msg a b cur e h = elim (Bool-cases (leb (length msg) (available_bytes cur))) [
  | inl fits ↦
      let c : AsyncFileAppender = record a { cur_buffer = some (append_bytes msg cur) } in
      let r : append msg a ≡ ok c = ground arith in
      subst (Same a) (ok_inj c b (sym r ∙ h))
        (record { stop = refl; phase = refl; log_file = refl })
  | inr full ↦
      let c : AsyncFileAppender = record a {
        fulled_buffers = a.fulled_buffers ++ a.cur_buffer ∷ [];
        cur_buffer = some (append_bytes msg (or_fresh a.next_buffer));
        next_buffer = none;
      } in
      let r : append msg a ≡ ok c = ground arith in
      subst (Same a) (ok_inj c b (sym r ∙ h))
        (record { stop = refl; phase = refl; log_file = refl })
]

-- The thread has ended or will end at its next step.
record Ending (p : Phase) (a : AsyncFileAppender) : Type 0 where
  halted : Halted p
  inv : Inv p a
  stopped : a.stop ≡ true

-- A step of `a` succeeds, writes nothing, and leaves the thread ending.
abbrev Idles : AsyncFileAppender → Result AsyncFileAppender → Type 0
Idles a r =
    (p : Phase) × (b : AsyncFileAppender) × (r ≡ ok b) × Ending p b × (b.log_file ≡ a.log_file)

append-Idles :
    (p : Phase) (msg : List ℕ) (a : AsyncFileAppender) → Ending p a → Idles a (append msg a)
append-Idles p msg a d =
    let (q, b, r, i, t) = append-Goes p msg a d.inv in
    let k = append-Same msg a b d.inv.cur.0 d.inv.cur.1 r in
    let same : p ≡ q = sym d.inv.at ∙ sym k.phase ∙ i.at in
    (
      q,
      b,
      r,
      record { halted = subst Halted same d.halted; inv = i; stopped = k.stop ∙ d.stopped },
      k.log_file,
    )

flush_step-Idles :
    (p : Phase) (a : AsyncFileAppender) → Halted p → Ending p a → Idles a (flush_step a)
unfolding flush_step
flush_step-Idles p a testing d =
    let i = d.inv in
    (
      ended,
      record a { phase = ended },
      rw (i.at, d.stopped) refl,
      record {
        halted = done;
        inv = record { at = refl; cur = i.cur; fulled = i.fulled; next = i.next; owns = i.owns };
        stopped = d.stopped;
      },
      refl,
    )
flush_step-Idles p a done d = (ended, a, rw (d.inv.at) refl, d, refl)

step-Idles : (p : Phase) (e : Event) (a : AsyncFileAppender) → Ending p a → Idles a (step e a)
unfolding step
step-Idles p (appends msg) a d = append-Idles p msg a d
step-Idles p stops a d =
    let i = d.inv in
    (
      p,
      record a { stop = true },
      refl,
      record {
        halted = d.halted;
        inv = record { at = i.at; cur = i.cur; fulled = i.fulled; next = i.next; owns = i.owns };
        stopped = refl;
      },
      refl,
    )
step-Idles p flushes a d = flush_step-Idles p a d.halted d

run-Idles : (es : List Event) (p : Phase) (a : AsyncFileAppender) → Ending p a → Idles a (run es a)
unfolding run
run-Idles [] p a d = (p, a, refl, d, refl)
run-Idles (e ∷ es) p a d =
    let (q, b, s, d', t) = step-Idles p e a d in
    let (r, c, s', d'', t') = run-Idles es q b d' in (r, c, rw s s', d'', t' ∙ t)

-- Once `stop` is set while the flush thread is before its test of `stop`, the file never changes
-- again, whatever follows: what was appended since the last critical section is not written.
pub stop_drops :
    (es : List Event) (a : AsyncFileAppender)
    → Inv at_test a
    → a.stop ≡ true
    → (b : AsyncFileAppender) × (run es a ≡ ok b) × (b.log_file ≡ a.log_file)
stop_drops es a i on =
    let (p, b, s, d, t) =
      run-Idles es at_test a (record { halted = testing; inv = i; stopped = on }) in
    (b, s, t)
