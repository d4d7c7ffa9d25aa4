-- ===== src/Startup.antt =====
-- How a worker starts: the constructors of src/net/IOWorker.cc, src/net/Poller.cc, src/net/Acceptor.cc,
-- src/net/Socket.cc and src/net/TimerQueue.cc with the options of src/utils/SockOption.cc, as the system
-- calls that they make. What a call returns is a parameter and may depend on those before it. LOG_FATAL ends
-- the program, and so does a failed assertion, but not in a build with NDEBUG, as CMakeLists.txt makes it.
pub mod Address
pub mod Rules
pub mod Parts
pub mod Started
mod Tests
use jerry.Base.{
  ℕ, Bool, ◌&&◌, not, true, false, List, [], ◌∷◌, ◌++◌, Option, none, some, zero, suc,
  if◌then◌else◌,
}

-- The calls, with the descriptors that they are made on.
pub data Call : Type 0 where
  epoll_create eventfd timerfd_create socket open_null : Call
  -- `F_GETFL`, `F_SETFL` with O_NONBLOCK added, `F_GETFD`, and `F_SETFD` with FD_CLOEXEC added
  get_flags set_nonblock get_fd_flags set_cloexec : ℕ → Call
  reuse_addr reuse_port listen : ℕ → Call
  bind : ℕ → List ℕ → Call
  -- a channel's descriptor is added to the poller, and then its interest in reading is set
  epoll_add epoll_mod : ℕ → ℕ → Call

-- The value that a call returns, unless it fails, after the calls before it; and whether the build has
-- assertions.
pub record Os : Type 0 where
  pub answer : List Call → Call → Option ℕ
  pub has_assertions : Bool

-- With the calls that were made, in order.
pub data Outcome (A : Type 0) : Type 0 where
  done : A → List Call → Outcome A
  fatal : List Call → Outcome A
  asserted : List Call → Outcome A

abbrev pub Sys : Type 0 → Type 0
Sys A = Os → List Call → Outcome A

infixl 5 ◌>>=◌ ◌>>◌
abbrev pub ◌>>=◌ : {A B : Type 0} → Sys A → (A → Sys B) → Sys B
◌>>=◌ m f os l = elim (m os l) [
  | done a l' ↦ f a os l'
  | fatal l' ↦ fatal l'
  | asserted l' ↦ asserted l'
]

abbrev pub ◌>>◌ : {B : Type 0} → Sys (Unit {0}) → Sys B → Sys B
m >> k = m >>= λ _. k

abbrev pub return : {A : Type 0} → A → Sys A
return a os l = done a l

-- A call whose failure is fatal, and one whose result is not looked at.
abbrev pub must : Call → Sys ℕ
must c os l = elim (os.answer l c) [ none ↦ fatal (l ++ c ∷ []) | some r ↦ done r (l ++ c ∷ []) ]

abbrev pub try : Call → Sys (Unit {0})
try c os l = done tt (l ++ c ∷ [])

abbrev pub assert : Bool → Sys (Unit {0})
assert b os l = if os.has_assertions && not b then asserted l else done tt l

abbrev pub is_positive : ℕ → Bool
is_positive zero = false
is_positive (suc n) = true

abbrev pub is_open : Option ℕ → Bool
is_open none = false
is_open (some fd) = is_positive fd

-- `AddToPoller` and `ActivateReading` of a new channel; the poller only logs an error.
unfoldable pub add_channel : ℕ → ℕ → Sys (Unit {0})
add_channel poller fd = do try (epoll_add poller fd); try (epoll_mod poller fd)

pub record Poller : Type 0 where
  pub fd : ℕ
  pub wakeup_fd : ℕ

unfoldable pub new_poller : Sys Poller
unfolding add_channel
new_poller = do
  fd ← must epoll_create
  wakeup_fd ← must eventfd
  add_channel fd wakeup_fd
  return (record { fd = fd; wakeup_fd = wakeup_fd })

unfoldable pub set_nonblock_and_close_on_exec : ℕ → Sys (Unit {0})
set_nonblock_and_close_on_exec fd = do
  try (get_flags fd)
  try (set_nonblock fd)
  try (get_fd_flags fd)
  try (set_cloexec fd)

unfoldable pub new_socket : Sys ℕ
new_socket = must socket

unfoldable pub bind_socket : ℕ → List ℕ → Sys (Unit {0})
bind_socket fd addr = do assert (is_positive fd); ret ← must (bind fd addr); return tt

unfoldable pub listen_socket : ℕ → Sys (Unit {0})
listen_socket fd = do assert (is_positive fd); ret ← must (listen fd); return tt

pub record Acceptor : Type 0 where
  pub fd : ℕ
  -- none where `open` failed and nothing asserts that it did not
  pub reserved_fd : Option ℕ

abbrev pub open_reserved : Sys (Option ℕ)
open_reserved os l = done (os.answer l open_null) (l ++ open_null ∷ [])

unfoldable pub new_acceptor : ℕ → List ℕ → Sys Acceptor
unfolding new_socket set_nonblock_and_close_on_exec bind_socket listen_socket add_channel
new_acceptor poller addr = do
  fd ← new_socket
  reserved_fd ← open_reserved
  assert (is_open reserved_fd)
  set_nonblock_and_close_on_exec fd
  try (reuse_addr fd)
  try (reuse_port fd)
  bind_socket fd addr
  listen_socket fd
  add_channel poller fd
  return (record { fd = fd; reserved_fd = reserved_fd })

unfoldable pub new_timer_queue : ℕ → Sys ℕ
unfolding add_channel
new_timer_queue poller = do
  timer_fd ← must timerfd_create
  add_channel poller timer_fd
  return timer_fd

pub record IoWorker : Type 0 where
  pub tid : ℕ
  pub poller : Poller
  pub acceptor : Acceptor
  pub timer_fd : ℕ

unfoldable pub new_io_worker : ℕ → List ℕ → Sys IoWorker
new_io_worker tid addr = do
  poller ← new_poller
  acceptor ← new_acceptor poller.fd addr
  timer_fd ← new_timer_queue poller.fd
  return (record { tid = tid; poller = poller; acceptor = acceptor; timer_fd = timer_fd })

-- `WorkerGroup::Start`, from the worker `tid` on. Each worker's thread runs beside it, and can change what the
-- later calls return.
unfoldable pub start_workers : ℕ → ℕ → List ℕ → Sys (List IoWorker)
start_workers tid zero addr = return []
start_workers tid (suc workers) addr = do
  worker ← new_io_worker tid addr
  worker_set ← start_workers (suc tid) workers addr
  return (worker ∷ worker_set)

-- The descriptors that the destructor of a worker closes: those of the poller, of the acceptor, whose socket
-- and channel have the same one, and of the timer queue.
unfoldable closed_by_worker : IoWorker → List (Option ℕ)
closed_by_worker w =
    some w.poller.wakeup_fd
    ∷ some w.poller.fd
    ∷ some w.acceptor.fd
    ∷ some w.acceptor.fd
    ∷ w.acceptor.reserved_fd
    ∷ some w.timer_fd
    ∷ []
