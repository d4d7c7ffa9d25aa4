-- ===== src/Worker.antt =====
-- One IOWorker: src/net/IOWorker.cc with its connections (TcpConnSet of src/net/TcpConn.cc), `Poll` of
-- src/net/Poller.cc, `OnPeerConnect` of src/net/Acceptor.cc and src/net/TcpRateLimiter.cc. A connection is
-- found by its fd, as the pointer that epoll holds names it. It is destroyed when the worker removes it: no
-- one else is taken to hold a `shared_ptr`. What the user's callbacks do to connections is a list of events.
pub mod Rounds
pub mod Limits
pub mod Ending
pub mod Descriptors
mod Tests
use jerry.Base.{
  ℕ, suc, ◌+◌, ◌&&◌, not, Bool, true, false, List, [], ◌∷◌, Option, none, some, length, leb, ◌==◌,
  if◌then◌else◌,
}
use jerry.Base.Result.{Result, ok, fault, bad_access, ◌>>=◌}
use jerry.Channel.{
  Channel, Handler, on_peer_close, on_readable, on_writable, on_error, set_triggered_event,
  handle_event,
}
use jerry.Conn.{
  Conn, open_conn, shutdown, force_close, Event, readable, writable, closes, step, run,
}

-- `TcpConnSet`, with the connections by their fds.
abbrev pub TcpConnSet : Type 0
TcpConnSet = List (ℕ × Conn)

unfoldable pub find : ℕ → TcpConnSet → Option Conn
find fd [] = none
find fd ((k, c) ∷ s) = if k == fd then some c else find fd s

unfoldable pub remove : ℕ → TcpConnSet → TcpConnSet
remove fd [] = []
remove fd ((k, c) ∷ s) = let rest = remove fd s in if k == fd then rest else (k, c) ∷ rest

unfoldable pub replace : ℕ → Conn → TcpConnSet → TcpConnSet
replace fd d [] = []
replace fd d ((k, c) ∷ s) =
    let rest = replace fd d s in if k == fd then (k, d) ∷ s else (k, c) ∷ rest

unfoldable pub size : TcpConnSet → ℕ
size s = length s

-- The set after something happened to the connection: `RemoveFromIOWorker` takes it out.
unfoldable pub settle : ℕ → Conn → TcpConnSet → TcpConnSet
unfolding remove replace
settle fd c s = if c.in_worker then replace fd c s else remove fd s

pub record TcpRateLimiterConfig : Type 0 where
  pub max_conns_per_ip : ℕ
  pub max_conns_per_io_worker : ℕ
  pub max_qps_per_host : ℕ
  pub max_qps_per_io_worker : ℕ

unfoldable pub reach_connection_limits : TcpRateLimiterConfig → TcpConnSet → Bool
unfolding size
reach_connection_limits config s = leb config.max_conns_per_io_worker (size s)

-- The limiter, if the server has one, with how the `shutdown` of a refused client ends; and what
-- `OnTcpConnected` does to the connection.
pub record Acceptance : Type 0 where
  pub limiter : Option TcpRateLimiterConfig
  pub is_shut_down : Bool
  pub on_tcp_connected : Conn → List Event

abbrev pub is_limited : Option TcpRateLimiterConfig → TcpConnSet → Bool
is_limited none s = false
is_limited (some config) s = reach_connection_limits config s

-- `callback.OnConnected` of `TcpServer::Serve`.
unfoldable pub on_connected : Acceptance → TcpConnSet → Conn → Conn
unfolding reach_connection_limits
on_connected a s c =
    if is_limited a.limiter s then shutdown a.is_shut_down c else run (a.on_tcp_connected c) c

-- `OnPeerConnect`, where `Accept` gives `fd`. `InitSsl` is called on the connection in the end, which is
-- gone if it was removed.
unfoldable pub on_peer_connect : Acceptance → Bool → ℕ → TcpConnSet → Result TcpConnSet
unfolding on_connected settle
on_peer_connect a encrypted fd s =
    let c = open_conn encrypted in
    let s' : TcpConnSet = (fd, c) ∷ s in
    let c' = on_connected a s' c in if c'.in_worker then ok (settle fd c' s') else fault bad_access

-- What the system calls of a connection's handlers give, and what the callbacks do to it and then to others of
-- the worker, by their fds.
pub record Outside : Type 0 where
  pub read : ℕ → Option (List ℕ)
  pub retry : Bool
  pub is_shut_down : Bool
  pub write : List ℕ → Option ℕ
  pub gone : Bool
  pub callback : Conn → List Event
  pub others : Conn → List (ℕ × Event)

-- The callbacks that a connection sets in its channel.
abbrev pub event_of : Outside → Handler → Event
event_of o on_peer_close = closes
event_of o on_readable = readable o.read o.retry o.is_shut_down
event_of o on_writable = writable o.write o.gone
event_of o on_error = closes

-- After a failed `SSL_write`, `OnChannelWritable` has closed the connection by `ForceClose`, which destroys it,
-- and goes on with its buffer and channel.
abbrev pub is_freed : Handler → Conn → Conn → Bool
is_freed on_writable c c' = c.encrypted && c.in_worker && not c'.in_worker
is_freed h c c' = false

abbrev pub call : Outside → Option Handler → Conn → Result Conn
call o none c = ok c
call o (some h) c =
    let c' = step (event_of o h) c in
    if is_freed h c c' then fault bad_access else ok (run (o.callback c') c')

-- `channel->HandleEvent(time)`
unfoldable pub handle : Outside → ℕ → Conn → Result Conn
unfolding set_triggered_event handle_event
handle o events c =
    let channel = set_triggered_event events c.channel in
    call o (handle_event (λ h. true) channel) (record c { channel = channel })

-- `Poll`: the fds and events of `epoll_wait`, unless it fails.
abbrev pub Ready : Type 0
Ready = List (ℕ × ℕ)

unfoldable pub poll : Option Ready → Ready
poll none = []
poll (some active_events) = active_events

-- The use of a connection through a pointer.
abbrev pub use_conn {ℓ} : {A : Type ℓ} → Option Conn → (Conn → Result A) → Result A
use_conn none f = fault bad_access
use_conn (some c) f = f c

-- What a callback does to other connections: one that is not in the worker is left alone.
abbrev pub act_one : ℕ → Event → TcpConnSet → TcpConnSet
act_one fd e s = elim (find fd s) [ none ↦ s | some c ↦ settle fd (step e c) s ]

unfoldable pub act_on : List (ℕ × Event) → TcpConnSet → TcpConnSet
act_on [] s = s
act_on ((fd, e) ∷ l) s = act_on l (act_one fd e s)

-- The loop over the active channels, whose pointers must be valid.
unfoldable pub handle_events : (ℕ → Outside) → Ready → TcpConnSet → Result TcpConnSet
handle_events o [] s = ok s
handle_events o ((fd, events) ∷ active) s = use_conn (find fd s) (λ c.
    handle (o fd) events c >>= λ d.
    handle_events o active (act_on ((o fd).others d) (settle fd d s)))

-- `LockForEach` with `ForceClose`: the iterator is at the first of the connections that are left, and is
-- advanced from there after the call, which removes the connection from the set.
unfoldable pub force_close_each : List ℕ → TcpConnSet → Result TcpConnSet
force_close_each [] s = ok s
force_close_each (fd ∷ left) s = use_conn (find fd s) (λ c.
    let s' = settle fd (force_close c) s in use_conn (find fd s') (λ d. force_close_each left s'))

abbrev pub fds : TcpConnSet → List ℕ
fds [] = []
fds ((fd, c) ∷ s) = fd ∷ fds s

-- A turn of `Loop`: whether the flag is set when it is tested, and what `epoll_wait` and the handlers give.
pub record Turn : Type 0 where
  pub stop_loop : Bool
  pub active_events : Option Ready
  pub outside : ℕ → Outside

unfoldable pub loop : List Turn → TcpConnSet → Result TcpConnSet
unfolding poll handle_events force_close_each
loop [] s = ok s
loop (t ∷ ts) s =
    if t.stop_loop
    then force_close_each (fds s) s
    else handle_events t.outside (poll t.active_events) s >>= λ s'. loop ts s'

-- What happens to a worker whose server has this limiter: a new client, with what the server does on its
-- connection and how a `shutdown` ends, or a turn of the loop.
pub data WorkerEvent : Type 0 where
  accepts : (Conn → List Event) → Bool → Bool → ℕ → WorkerEvent
  turns : (ℕ → Outside) → Ready → WorkerEvent

unfoldable pub worker_step : TcpRateLimiterConfig → WorkerEvent → TcpConnSet → Result TcpConnSet
unfolding on_peer_connect handle_events
worker_step config (accepts greet is_shut_down encrypted fd) s =
    on_peer_connect
      (record { limiter = some config; is_shut_down = is_shut_down; on_tcp_connected = greet })
      encrypted fd s
worker_step config (turns o active) s = handle_events o active s

unfoldable pub worker_run : TcpRateLimiterConfig → List WorkerEvent → TcpConnSet → Result TcpConnSet
unfolding worker_step
worker_run config [] s = ok s
worker_run config (e ∷ es) s = worker_step config e s >>= worker_run config es
