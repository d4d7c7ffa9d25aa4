-- ===== src/Worker/Rounds.antt =====
-- One turn of the loop of src/net/IOWorker.cc: each connection gets its own events, and no other's.
use jerry.Base.{
  ℕ, ◌<◌, not, ◌≡◌, ◌∙◌, refl, sym, ap, ap₂, subst, Bool, true, false, [], ◌∷◌, Option, none, some,
  ◌==◌, ==_iff, if◌then◌else◌, arith, Bool-cases, inl, inr,
}
use jerry.Base.Result.{ok, fault, bad_access, ◌>>=◌}
use jerry.Conn.{Conn, step, run}
use jerry.Channel.{Handler, on_peer_close, on_readable, on_writable, on_error, set_triggered_event}
use jerry.Channel.Dispatch.{due, handle_event_lem}
use jerry.Worker.{
  TcpConnSet, find, remove, replace, settle, Outside, event_of, call, is_freed, handle, Ready,
  act_on, handle_events, use_conn,
}

pub find-remove :
    (k fd : ℕ) (s : TcpConnSet) → find k (remove fd s) ≡ (if fd == k then none else find k s)
unfolding find remove
find-remove k fd [] = ground arith
find-remove k fd ((j, c) ∷ s) = ground (arith, find-remove k fd s)

-- The connection after something happened to it, if it is still in the worker.
abbrev pub kept : Conn → Option Conn
kept c = if c.in_worker then some c else none

abbrev pub is_some : Option Conn → Bool
is_some none = false
is_some (some c) = true

find-replace_other :
    (k fd : ℕ) (d : Conn) (s : TcpConnSet) → (fd == k) ≡ false → find k (replace fd d s) ≡ find k s
unfolding find replace
find-replace_other k fd d [] h = refl
find-replace_other k fd d ((j, c) ∷ s) h = ground (arith, h, find-replace_other k fd d s h)

find-replace :
    (fd : ℕ) (d : Conn) (s : TcpConnSet)
    → is_some (find fd s) ≡ true
    → find fd (replace fd d s) ≡ some d
unfolding find replace
find-replace fd d [] h = absurd (ground (arith, h))
find-replace fd d ((j, c) ∷ s) h = ground (arith, h, find-replace fd d s)

find-settle_other :
    (k fd : ℕ) (d : Conn) (s : TcpConnSet) → (fd == k) ≡ false → find k (settle fd d s) ≡ find k s
unfolding settle
find-settle_other k fd d s h = ground (arith, h, find-replace_other k fd d s h, find-remove k fd s)

find-settle :
    (fd : ℕ) (d : Conn) (s : TcpConnSet)
    → is_some (find fd s) ≡ true
    → find fd (settle fd d s) ≡ kept d
unfolding settle
find-settle fd d s h = ground (arith, h, find-replace fd d s h, find-remove fd fd s)

-- The events that were reported for the connection.
unfoldable pub events_for : ℕ → Ready → Option ℕ
events_for fd [] = none
events_for fd ((k, events) ∷ active) = if k == fd then some events else events_for fd active

abbrev is_reported : Option ℕ → Bool
is_reported none = false
is_reported (some events) = true

-- The connection is there, and not encrypted.
abbrev pub is_plain : Option Conn → Bool
is_plain none = false
is_plain (some c) = not c.encrypted

-- Every fd is that of a plain connection of the worker, is reported once, with the events that epoll has here,
-- and its callback leaves the other connections alone.
unfoldable pub IsProper : (ℕ → Outside) → TcpConnSet → Ready → Type 0
IsProper o s [] = Unit {0}
IsProper o s ((fd, events) ∷ active) =
    (is_plain (find fd s) ≡ true)
    × (is_reported (events_for fd active) ≡ false)
    × (events < 32)
    × ((c : Conn) → (o fd).others c ≡ [])
    × IsProper o s active

-- The event of the connection's callback that is due for the bits, then what the user's callback does.
abbrev pub attended : Outside → ℕ → Conn → Conn
attended o events c =
    let c' =
      step (event_of o (due events))
        (record c { channel = set_triggered_event events c.channel }) in
    run (o.callback c') c'

not_freed : (h : Handler) (c c' : Conn) → c.encrypted ≡ false → is_freed h c c' ≡ false
not_freed on_peer_close c c' e = refl
not_freed on_readable c c' e = refl
not_freed on_writable c c' e = ground (arith, e)
not_freed on_error c c' e = refl

call_plain :
    (o : Outside) (h : Handler) (c : Conn)
    → c.encrypted ≡ false
    → call o (some h) c ≡ ok (let c' = step (event_of o h) c in run (o.callback c') c')
call_plain o h c e =
    let c' = step (event_of o h) c in
    ap (λ b. if b then fault bad_access else ok (run (o.callback c') c')) (not_freed h c c' e)

handle_plain :
    (o : Outside) (events : ℕ) (c : Conn)
    → c.encrypted ≡ false
    → events < 32
    → handle o events c ≡ ok (attended o events c)
unfolding handle
handle_plain o events c e small =
    let c1 = record c { channel = set_triggered_event events c.channel } in
    ap (λ h. call o h c1) (handle_event_lem (λ h. true) events c.channel small)
    ∙ call_plain o (due events) c1 e

-- What becomes of a connection for which these events were reported.
abbrev pub handled : Outside → Option ℕ → Conn → Option Conn
handled o none c = some c
handled o (some events) c = kept (attended o events c)

abbrev pub handled_if : Outside → Option ℕ → Option Conn → Option Conn
handled_if o events none = none
handled_if o events (some c) = handled o events c

IsProper-settle :
    (o : ℕ → Outside) (fd : ℕ) (d : Conn) (active : Ready) (s : TcpConnSet)
    → is_reported (events_for fd active) ≡ false
    → IsProper o s active
    → IsProper o (settle fd d s) active
unfolding IsProper events_for
IsProper-settle o fd d [] s h p = p
IsProper-settle o fd d ((k, events) ∷ active) s h (there, once, small, alone, p) =
    let other : (fd == k) ≡ false = ground (arith, h) in
    let rest : is_reported (events_for fd active) ≡ false = ground (arith, h) in
    (
      ap is_plain (find-settle_other k fd d s other) ∙ there,
      once,
      small,
      alone,
      IsProper-settle o fd d active s rest p,
    )

found : (x : Option Conn) → is_plain x ≡ true → (c : Conn) × (x ≡ some c) × (c.encrypted ≡ false)
found none g = absurd (ground (arith, g))
found (some c) g = (c, refl, ground (arith, g))

handle_events_step :
    (o : ℕ → Outside) (k events : ℕ) (active : Ready) (s : TcpConnSet) (c d : Conn)
    → find k s ≡ some c
    → handle (o k) events c ≡ ok d
    → (o k).others d ≡ []
    → handle_events o ((k, events) ∷ active) s ≡ handle_events o active (settle k d s)
unfolding handle_events act_on
handle_events_step o k events active s c d at made alone =
    ap
      (λ x. use_conn x (λ c'. handle (o k) events c' >>= λ d'.
        handle_events o active (act_on ((o k).others d') (settle k d' s))))
      at
    ∙ ap (λ r. r >>= λ d'. handle_events o active (act_on ((o k).others d') (settle k d' s))) made
    ∙ ap (λ l. handle_events o active (act_on l (settle k d s))) alone

handled_none : (o : Outside) (x : Option Conn) → handled_if o none x ≡ x
handled_none o none = refl
handled_none o (some c) = refl

not_reported : (events : Option ℕ) → is_reported events ≡ false → events ≡ none
not_reported none h = refl
not_reported (some n) h = absurd (ground (arith, h))

handled_here :
    (o : Outside) (k events : ℕ) (active : Ready) (s : TcpConnSet) (c d : Conn)
    → find k s ≡ some c
    → is_reported (events_for k active) ≡ false
    → d ≡ attended o events c
    → handled_if o (events_for k active) (find k (settle k d s))
      ≡ handled_if o (some events) (find k s)
handled_here o k events active s c d at once made =
    ap₂ (handled_if o) (not_reported (events_for k active) once) (find-settle k d s (ap is_some at))
    ∙ handled_none o (kept d)
    ∙ ap kept made
    ∙ sym (ap (handled_if o (some events)) at)

handled_step :
    (o : Outside) (fd k events : ℕ) (active : Ready) (s : TcpConnSet) (c d : Conn)
    → find k s ≡ some c
    → is_reported (events_for k active) ≡ false
    → (k ≡ fd → d ≡ attended o events c)
    → handled_if o (events_for fd active) (find fd (settle k d s))
      ≡ handled_if o (events_for fd ((k, events) ∷ active)) (find fd s)
unfolding events_for
handled_step o fd k events active s c d at once made = elim (Bool-cases (k == fd)) [
  | inl same ↦
      let e : k ≡ fd = (==_iff k fd).0 same in
      simp same (
        subst
          (λ j.
            handled_if o (events_for j active) (find j (settle k d s))
            ≡ handled_if o (some events) (find j s))
          e (handled_here o k events active s c d at once (made e)))
  | inr other ↦ simp (other, find-settle_other fd k d s other) refl
]

-- If `epoll_wait` reports plain connections of the worker, each once and with bits below 32, and their
-- callbacks leave other connections alone, then the loop over the active channels uses no connection that is
-- gone, and afterwards each connection is where the callback that was due for its own bits leaves it, by the
-- order hang-up, readable, writable, error: gone if it was closed, changed if some were reported for it, and
-- untouched if none were.
pub handle_events_lem :
    (o : ℕ → Outside) (active : Ready) (s : TcpConnSet)
    → IsProper o s active
    → (s' : TcpConnSet) × (handle_events o active s ≡ ok s')
      × ((fd : ℕ) → find fd s' ≡ handled_if (o fd) (events_for fd active) (find fd s))
unfolding handle_events IsProper events_for
handle_events_lem o [] s p = (s, refl, λ fd. sym (handled_none (o fd) (find fd s)))
handle_events_lem o ((k, events) ∷ active) s (there, once, small, alone, p) =
    let (c, at, plain) = found (find k s) there in
    let d = attended (o k) events c in
    let (s', run, same) =
      handle_events_lem o active (settle k d s) (IsProper-settle o k d active s once p) in
    (
      s',
      handle_events_step o k events active s c d at (handle_plain (o k) events c plain small)
            (alone d)
          ∙ run,
      λ fd.
          same fd
          ∙ handled_step (o fd) fd k events active s c d at once
              (λ e. ap (λ j. attended (o j) events c) e),
    )

-- Where the callback of one connection closes another one whose events are still to be handled, the loop goes
-- on to a connection that is gone.
pub closed_by_other :
    (o : ℕ → Outside) (k fd events events' : ℕ) (active : Ready) (s : TcpConnSet) (c d : Conn)
    → find k s ≡ some c
    → handle (o k) events c ≡ ok d
    → find fd (act_on ((o k).others d) (settle k d s)) ≡ none
    → handle_events o ((k, events) ∷ (fd, events') ∷ active) s ≡ fault bad_access
unfolding handle_events
closed_by_other o k fd events events' active s c d at made gone =
    ap
      (λ x. use_conn x (λ c'. handle (o k) events c' >>= λ d'.
        handle_events o ((fd, events') ∷ active) (act_on ((o k).others d') (settle k d' s))))
      at
    ∙ ap
        (λ r. r >>= λ d'.
          handle_events o ((fd, events') ∷ active) (act_on ((o k).others d') (settle k d' s)))
        made
    ∙ ap
        (λ x. use_conn x (λ c'. handle (o fd) events' c' >>= λ d'.
          handle_events o active
            (act_on ((o fd).others d') (settle fd d' (act_on ((o k).others d) (settle k d s))))))
        gone
