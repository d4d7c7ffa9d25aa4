-- ===== src/Logger/Lossless.antt =====
-- Runs of the appender: no interleaving uses a null buffer or an index outside `buffers_to_write`, and
-- the bytes of the messages stay in order.
use jerry.Base.{
  ℕ, ◌≡◌, ◌∙◌, refl, sym, ap, true, List, [], ◌∷◌, ◌++◌, append_assoc, append-nil, inl,
}
use jerry.Base.Result.{ok}
use jerry.Logger.{
  AsyncFileAppender, Phase, at_test, new_appender, Event, appends, stops, flushes, step, run,
}
use jerry.Logger.Buffers.{Inv, stored, fitting, Goes, append-Goes}
use jerry.Logger.Rounds.{flush_step-Goes}

-- The bytes that an event adds.
unfoldable pub given_by : Event → List ℕ
given_by (appends msg) = fitting msg
given_by stops = []
given_by flushes = []

unfoldable pub given : List Event → List ℕ
given [] = []
given (e ∷ es) = given_by e ++ given es

step-Goes :
    (p : Phase) (e : Event) (a : AsyncFileAppender) → Inv p a → Goes (given_by e) a (step e a)
unfolding step given_by stored
step-Goes p (appends msg) a i = append-Goes p msg a i
step-Goes p stops a i = (
  p,
  record a { stop = true },
  refl,
  record { at = i.at; cur = i.cur; fulled = i.fulled; next = i.next; owns = i.owns },
  sym (append-nil (stored a)),
)
step-Goes p flushes a i = flush_step-Goes p a i

pub run-Goes :
    (es : List Event) (p : Phase) (a : AsyncFileAppender) → Inv p a → Goes (given es) a (run es a)
unfolding run given
run-Goes [] p a i = (p, a, refl, i, sym (append-nil (stored a)))
run-Goes (e ∷ es) p a i =
    let (q, b, s, j, t) = step-Goes p e a i in
    let (r, c, s', k, t') = run-Goes es q b j in
    (
      r,
      c,
      rw s s',
      k,
      t' ∙ ap (λ l. l ++ given es) t ∙ append_assoc (stored a) (given_by e) (given es),
    )

pub new_appender-Inv : Inv at_test new_appender
new_appender-Inv = record {
  at = refl;
  cur = ([], refl);
  fulled = tt;
  next = inl refl;
  owns = (refl, refl, refl);
}

-- Whatever messages are appended, and however the steps of the flush thread and the call of `Stop`
-- come between them, no null buffer is used and no index is outside its vector; the bytes written to
-- the file, followed by those of the buffers that the flush thread took, of the full buffers and of
-- the current one, are exactly the messages in their order, without those longer than a buffer.
pub run_lossless :
    (es : List Event)
    → (a : AsyncFileAppender) × (run es new_appender ≡ ok a) × (stored a ≡ given es)
unfolding stored
run_lossless es =
    let (p, a, s, i, t) = run-Goes es at_test new_appender new_appender-Inv in (a, s, t)
