-- ===== src/Startup/Started.antt =====
-- How `Start` of src/net/WorkerGroup.cc ends, with the constructor of src/net/IOWorker.cc.
use jerry.Base.{length, ap, sym, ◌∙◌, zero, suc, ℕ, List, [], ◌∷◌, ◌++◌, ◌≡◌, refl}
use jerry.Startup.{
  Call, epoll_create, eventfd, timerfd_create, socket, open_null, get_flags, get_fd_flags,
  set_nonblock, set_cloexec, reuse_addr, reuse_port, listen, bind, epoll_add, epoll_mod, Os, Sys,
  ◌>>=◌, return, new_poller, Poller, Acceptor, new_acceptor, new_timer_queue, IoWorker,
  new_io_worker, start_workers,
}
use jerry.Startup.Rules.{Passed, Ends, Makes, made, made-append, result_then, part_then}
use jerry.Startup.Parts.{
  new_poller-Makes, new_acceptor-Makes, new_timer_queue-Makes, acceptor_calls, poller_calls,
  timer_calls,
}

-- All calls of a worker's start: each channel is added to the worker's own poller, the options of the socket
-- are set and its address is bound before it listens, and it is polled when it listens.
abbrev pub worker_calls : List ℕ → IoWorker → List Call
worker_calls addr w =
    epoll_create
    ∷ eventfd
    ∷ epoll_add w.poller.fd w.poller.wakeup_fd
    ∷ epoll_mod w.poller.fd w.poller.wakeup_fd
    ∷ socket
    ∷ open_null
    ∷ get_flags w.acceptor.fd
    ∷ set_nonblock w.acceptor.fd
    ∷ get_fd_flags w.acceptor.fd
    ∷ set_cloexec w.acceptor.fd
    ∷ reuse_addr w.acceptor.fd
    ∷ reuse_port w.acceptor.fd
    ∷ bind w.acceptor.fd addr
    ∷ listen w.acceptor.fd
    ∷ epoll_add w.poller.fd w.acceptor.fd
    ∷ epoll_mod w.poller.fd w.acceptor.fd
    ∷ timerfd_create
    ∷ epoll_add w.poller.fd w.timer_fd
    ∷ epoll_mod w.poller.fd w.timer_fd
    ∷ []

new_io_worker-Makes :
    (os : Os) (l : List Call) (tid : ℕ) (addr : List ℕ)
    → Passed os l
    → Makes os l (new_io_worker tid addr) (worker_calls addr)
unfolding new_io_worker
new_io_worker-Makes os l tid addr p0 =
    part_then os Q l poller_calls new_poller
      (λ q. new_acceptor q.fd addr >>= λ a. new_timer_queue q.fd >>= worker q a)
      (new_poller-Makes os l p0)
      λ q p.
        part_then os Q _ (acceptor_calls q.fd addr) (new_acceptor q.fd addr)
          (λ a. new_timer_queue q.fd >>= worker q a) (new_acceptor-Makes os _ p q.fd addr)
          λ a p'.
            part_then os Q _ (timer_calls q.fd) (new_timer_queue q.fd) (worker q a)
              (new_timer_queue-Makes os _ p' q.fd) λ fd p''. (p'', refl)
  where
    Q : IoWorker → List Call → Type 0
    Q w l' = l' ≡ made l (worker_calls addr w)

    worker : Poller → Acceptor → ℕ → Sys IoWorker
    worker q a fd = return (record { tid = tid; poller = q; acceptor = a; timer_fd = fd })

-- The calls of workers that start one after another.
abbrev pub group_calls : List ℕ → List IoWorker → List Call
group_calls addr [] = []
group_calls addr (w ∷ ws) = worker_calls addr w ++ group_calls addr ws

-- The group has this many workers, and their calls were made after some others.
abbrev pub AllStarted : List ℕ → ℕ → List Call → List IoWorker → List Call → Type 0
AllStarted addr workers l ws l' = (length ws ≡ workers) × (l' ≡ made l (group_calls addr ws))

-- However the system answers the calls that a group with some number of workers makes as it starts, it ends
-- in one of three ways. There are that many workers, each has made all its calls in their order, worker after
-- worker, and none of them failed but those whose result the code ignores, to which `open` of the reserve
-- counts. Or the program stops at the first other call that fails, and makes none after it. Or, only in a
-- build with assertions, one of them fails, which needs a descriptor 0 from an earlier call, or a reserve
-- that could not be opened.
pub start_workers-Ends :
    (os : Os) (l : List Call) (tid workers : ℕ) (addr : List ℕ)
    → Passed os l
    → Ends os (AllStarted addr workers l) (start_workers tid workers addr os l)
unfolding start_workers
start_workers-Ends os l tid zero addr p = (p, (refl, refl))
start_workers-Ends os l tid (suc workers) addr p =
    part_then os (AllStarted addr (suc workers) l) l (worker_calls addr) (new_io_worker tid addr)
      (λ w. start_workers (suc tid) workers addr >>= λ ws. return (w ∷ ws))
      (new_io_worker-Makes os l tid addr p)
      λ w p'.
        let l1 = made l (worker_calls addr w) in
        result_then os (AllStarted addr (suc workers) l) l1 (AllStarted addr workers l1)
          (start_workers (suc tid) workers addr) (λ ws. return (w ∷ ws))
          (start_workers-Ends os l1 (suc tid) workers addr p')
          λ ws l' p'' (n, e).
            (p'', (ap suc n, e ∙ sym (made-append l (worker_calls addr w) (group_calls addr ws))))
