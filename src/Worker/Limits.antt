-- ===== src/Worker/Limits.antt =====
-- How many clients of a worker src/net/TcpRateLimiter.cc admits.
use jerry.Base.{
  ℕ, suc, ◌+◌, ◌-◌, ◌≤◌, ◌≡◌, refl, ap, Bool, true, false, List, [], ◌∷◌, Option, none, some,
  length, leb, if◌then◌else◌, arith, Bool-cases, inl, inr,
}
use jerry.Base.Result.{Result, ok, fault, bad_access, ◌>>=◌}
use jerry.Conn.{
  Conn, is_connected, open_conn, shutdown, force_close, on_channel_close, Event, step, run,
}
use jerry.Conn.Closing.{run_closed}
use jerry.Channel.{Handler, set_triggered_event, handle_event}
use jerry.Worker.{
  TcpConnSet, find, remove, replace, size, settle, TcpRateLimiterConfig, reach_connection_limits,
  Acceptance, on_connected, on_peer_connect, Outside, event_of, call, handle, Ready, handle_events,
  is_freed, act_one, act_on, use_conn, WorkerEvent, accepts, turns, worker_step, worker_run,
}

abbrev weight : Conn → ℕ
weight c = if is_connected c then 1 else 0

abbrev weight_of : Option Conn → ℕ
weight_of none = 0
weight_of (some c) = weight c

-- The clients that are connected; a refused one waits in the set for its end.
unfoldable pub connected_nums : TcpConnSet → ℕ
connected_nums [] = 0
connected_nums ((fd, c) ∷ s) = weight c + connected_nums s

connected_nums-size : (s : TcpConnSet) → connected_nums s ≤ size s
unfolding connected_nums size
connected_nums-size [] = omega arith
connected_nums-size ((fd, c) ∷ s) = ground (arith, connected_nums-size s)

connected_nums-remove : (fd : ℕ) (s : TcpConnSet) → connected_nums (remove fd s) ≤ connected_nums s
unfolding connected_nums remove
connected_nums-remove fd [] = omega arith
connected_nums-remove fd ((k, c) ∷ s) = ground (arith, connected_nums-remove fd s)

connected_nums-replace :
    (fd : ℕ) (d : Conn) (s : TcpConnSet)
    → weight d ≤ weight_of (find fd s)
    → connected_nums (replace fd d s) ≤ connected_nums s
unfolding connected_nums replace find
connected_nums-replace fd d [] h = omega arith
connected_nums-replace fd d ((k, b) ∷ s) h = grind (arith, h, connected_nums-replace fd d s)

connected_nums-settle :
    (fd : ℕ) (d : Conn) (s : TcpConnSet)
    → weight d ≤ weight_of (find fd s)
    → connected_nums (settle fd d s) ≤ connected_nums s
unfolding settle
connected_nums-settle fd d s h = elim (Bool-cases d.in_worker) [
  | inl still ↦ simp still (connected_nums-replace fd d s h)
  | inr gone ↦ simp gone (connected_nums-remove fd s)
]

run-weight : (es : List Event) (c : Conn) → weight (run es c) ≤ weight c
run-weight es c = elim (Bool-cases (is_connected c)) [
  | inl on ↦ ground (arith, on)
  | inr off ↦ let (off', _) = run_closed es c off in ground (arith, off, off')
]

step-weight : (e : Event) (c : Conn) → weight (step e c) ≤ weight c
unfolding run
step-weight e c = run-weight (e ∷ []) c

-- A handler that has not ended in a fault.
abbrev Lighter : Conn → Result Conn → Type 0
Lighter c (ok d) = weight d ≤ weight c
Lighter c (fault e) = Unit {0}

if-Lighter :
    (c d : Conn) (b : Bool) → weight d ≤ weight c → Lighter c (if b then fault bad_access else ok d)
if-Lighter c d true h = tt
if-Lighter c d false h = h

call-weight : (o : Outside) (h : Option Handler) (c : Conn) → Lighter c (call o h c)
call-weight o none c = omega arith
call-weight o (some h) c =
    let c' = step (event_of o h) c in
    if-Lighter c (run (o.callback c') c') (is_freed h c c')
      (omega (arith, run-weight (o.callback c') c', step-weight (event_of o h) c))

-- A run that has not ended in a fault leaves at most `n` connected clients.
abbrev pub AtMost : ℕ → Result TcpConnSet → Type 0
AtMost n (ok s) = connected_nums s ≤ n
AtMost n (fault e) = Unit {0}

then-AtMost :
    (n : ℕ) (r : Result TcpConnSet) (f : TcpConnSet → Result TcpConnSet)
    → AtMost n r
    → ((s : TcpConnSet) → connected_nums s ≤ n → AtMost n (f s))
    → AtMost n (r >>= f)
then-AtMost n (ok s) f h k = k s h
then-AtMost n (fault e) f h k = tt

use_conn-AtMost :
    (n : ℕ) (x : Option Conn) (f : Conn → Result TcpConnSet)
    → ((c : Conn) → x ≡ some c → AtMost n (f c))
    → AtMost n (use_conn x f)
use_conn-AtMost n none f h = tt
use_conn-AtMost n (some c) f h = h c refl

handle-weight : (o : Outside) (events : ℕ) (c : Conn) → Lighter c (handle o events c)
unfolding handle run
handle-weight o events c =
    let channel = set_triggered_event events c.channel in
    call-weight o (handle_event (λ h. true) channel) (record c { channel = channel })

handled-AtMost :
    (n : ℕ) (c : Conn) (r : Result Conn) (f : Conn → Result TcpConnSet)
    → Lighter c r
    → ((d : Conn) → weight d ≤ weight c → AtMost n (f d))
    → AtMost n (r >>= f)
handled-AtMost n c (ok d) f h k = k d h
handled-AtMost n c (fault e) f h k = tt

connected_nums-act_one :
    (fd : ℕ) (e : Event) (s : TcpConnSet) → connected_nums (act_one fd e s) ≤ connected_nums s
connected_nums-act_one fd e s = go (find fd s) refl
  where
    go :
        (o : Option Conn)
        → find fd s ≡ o
        → connected_nums (elim o [ none ↦ s | some c ↦ settle fd (step e c) s ]) ≤ connected_nums s
    go none at = omega arith
    go (some c) at =
        connected_nums-settle fd (step e c) s (omega (arith, step-weight e c, ap weight_of at))

connected_nums-act_on :
    (l : List (ℕ × Event)) (s : TcpConnSet) → connected_nums (act_on l s) ≤ connected_nums s
unfolding act_on
connected_nums-act_on [] s = omega arith
connected_nums-act_on ((fd, e) ∷ l) s =
    omega (arith, connected_nums-act_on l (act_one fd e s), connected_nums-act_one fd e s)

connected_nums-handle_events :
    (o : ℕ → Outside) (active : Ready) (s : TcpConnSet) (n : ℕ)
    → connected_nums s ≤ n
    → AtMost n (handle_events o active s)
unfolding handle_events
connected_nums-handle_events o [] s n h = h
connected_nums-handle_events o ((fd, events) ∷ active) s n h =
    let go_on : Conn → Result TcpConnSet =
      λ d. handle_events o active (act_on ((o fd).others d) (settle fd d s)) in
    use_conn-AtMost n (find fd s) (λ c. handle (o fd) events c >>= go_on)
      λ c at.
        handled-AtMost n c (handle (o fd) events c) go_on (handle-weight (o fd) events c)
          λ d lighter.
            connected_nums-handle_events o active (act_on ((o fd).others d) (settle fd d s)) n (
              omega (
                arith,
                h,
                connected_nums-act_on ((o fd).others d) (settle fd d s),
                connected_nums-settle fd d s (omega (arith, lighter, ap weight_of at)),
              ))

settled_first :
    (n fd : ℕ) (c d : Conn) (s : TcpConnSet)
    → weight d + connected_nums s ≤ n
    → AtMost n (if d.in_worker then ok (settle fd d ((fd, c) ∷ s)) else fault bad_access)
unfolding settle replace connected_nums
settled_first n fd c d s h = elim (Bool-cases d.in_worker) [
  | inl still ↦ simp still (ground (arith, h))
  | inr gone ↦ simp gone tt
]

weight-shutdown : (done : Bool) (c : Conn) → weight (shutdown done c) ≡ 0
unfolding shutdown force_close on_channel_close
weight-shutdown true c = refl
weight-shutdown false c = refl

weight_small : (c : Conn) → weight c ≤ 1
weight_small c = ground arith

-- Where the limiter admits a client, the client itself already counts.
on_connected-weight :
    (a : Acceptance) (config : TcpRateLimiterConfig) (c : Conn) (fd : ℕ) (s : TcpConnSet)
    → a.limiter ≡ some config
    → connected_nums s ≤ config.max_conns_per_io_worker - 1
    → weight (on_connected a ((fd, c) ∷ s) c) + connected_nums s
      ≤ config.max_conns_per_io_worker - 1
unfolding on_connected reach_connection_limits size
on_connected-weight a config c fd s e h =
    elim (Bool-cases (leb config.max_conns_per_io_worker (suc (length s)))) [
      | inl full ↦ simp (e, full) (omega (arith, h, weight-shutdown a.is_shut_down c))
      | inr room ↦
          simp (e, room)
            (grind
              (arith, room, connected_nums-size s, weight_small (run (a.on_tcp_connected c) c)))
    ]

accepted-AtMost :
    (config : TcpRateLimiterConfig) (greet : Conn → List Event) (done encrypted : Bool) (fd : ℕ)
    (s : TcpConnSet)
    → connected_nums s ≤ config.max_conns_per_io_worker - 1
    → AtMost
        (config.max_conns_per_io_worker - 1)
        (worker_step config (accepts greet done encrypted fd) s)
unfolding worker_step on_peer_connect
accepted-AtMost config greet done encrypted fd s h =
    let a : Acceptance = record {
      limiter = some config;
      is_shut_down = done;
      on_tcp_connected = greet;
    } in
    let c = open_conn encrypted in
    settled_first (config.max_conns_per_io_worker - 1) fd c (on_connected a ((fd, c) ∷ s) c) s
      (on_connected-weight a config c fd s refl h)

worker_step-AtMost :
    (config : TcpRateLimiterConfig) (e : WorkerEvent) (s : TcpConnSet)
    → connected_nums s ≤ config.max_conns_per_io_worker - 1
    → AtMost (config.max_conns_per_io_worker - 1) (worker_step config e s)
unfolding worker_step
worker_step-AtMost config (accepts greet done encrypted fd) s h =
    accepted-AtMost config greet done encrypted fd s h
worker_step-AtMost config (turns o active) s h =
    connected_nums-handle_events o active s (config.max_conns_per_io_worker - 1) h

worker_run-AtMost :
    (config : TcpRateLimiterConfig) (es : List WorkerEvent) (s : TcpConnSet)
    → connected_nums s ≤ config.max_conns_per_io_worker - 1
    → AtMost (config.max_conns_per_io_worker - 1) (worker_run config es s)
unfolding worker_run
worker_run-AtMost config [] s h = h
worker_run-AtMost config (e ∷ es) s h =
    then-AtMost (config.max_conns_per_io_worker - 1) (worker_step config e s) (worker_run config es)
      (worker_step-AtMost config e s h) (worker_run-AtMost config es)

-- As long as no freed connection is used, a worker whose server has a limiter for `n` connections never has
-- more than `n - 1` clients that are connected, and none if `n` is 0, its default.
pub worker_limited :
    (config : TcpRateLimiterConfig) (es : List WorkerEvent)
    → AtMost (config.max_conns_per_io_worker - 1) (worker_run config es [])
unfolding connected_nums
worker_limited config es = worker_run-AtMost config es [] (omega arith)
