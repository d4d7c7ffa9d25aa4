-- ===== src/Startup/Parts.antt =====
-- How each part of a worker is made, for the constructors of src/net/Poller.cc, src/net/Socket.cc,
-- src/net/Acceptor.cc and src/net/TimerQueue.cc.
use jerry.Base.{Option, ℕ, List, [], ◌∷◌, ◌++◌, ◌≡◌, refl, some}
use jerry.Startup.{
  Call, epoll_create, eventfd, timerfd_create, socket, open_null, set_nonblock, set_cloexec,
  reuse_addr, reuse_port, listen, bind, epoll_add, epoll_mod, Os, Sys, ◌>>=◌, ◌>>◌, return, assert,
  is_positive, is_open, get_flags, get_fd_flags, try, must, new_poller, Poller, new_socket,
  set_nonblock_and_close_on_exec, bind_socket, listen_socket, Acceptor, open_reserved, new_acceptor,
  new_timer_queue, add_channel,
}
use jerry.Startup.Rules.{
  Passed, answered, tried, Ends, Makes, made, part_then, must_then, assert_then, assert_open_then,
}

-- The calls of a poller and of a timer queue.
abbrev pub poller_calls : Poller → List Call
poller_calls q =
    epoll_create ∷ eventfd ∷ epoll_add q.fd q.wakeup_fd ∷ epoll_mod q.fd q.wakeup_fd ∷ []

abbrev pub timer_calls : ℕ → ℕ → List Call
timer_calls poller fd = timerfd_create ∷ epoll_add poller fd ∷ epoll_mod poller fd ∷ []

module _ (os : Os) (l : List Call) (p : Passed os l) where
  pub new_poller-Makes : Makes os l new_poller poller_calls
  unfolding new_poller add_channel
  new_poller-Makes =
      must_then os _ l epoll_create
        (λ fd. must eventfd >>= λ wakeup_fd.
          add_channel fd wakeup_fd >> return (record { fd = fd; wakeup_fd = wakeup_fd }))
        p
        λ fd e.
          must_then os _ _ eventfd
            (λ wakeup_fd.
              add_channel fd wakeup_fd >> return (record { fd = fd; wakeup_fd = wakeup_fd }))
            (answered p e)
            λ wakeup_fd e'. (
              tried (epoll_mod fd wakeup_fd)
                  (tried (epoll_add fd wakeup_fd) (answered (answered p e) e') refl) refl,
              refl,
            )

  pub new_timer_queue-Makes :
      (poller : ℕ) → Makes os l (new_timer_queue poller) (timer_calls poller)
  unfolding new_timer_queue add_channel
  new_timer_queue-Makes poller =
      must_then os _ l timerfd_create (λ fd. add_channel poller fd >> return fd) p
        λ fd e.
          (tried (epoll_mod poller fd) (tried (epoll_add poller fd) (answered p e) refl) refl, refl)

  -- A call on a descriptor that an earlier call gave.
  checked :
      {before : List Call} {c : Call} {fd : ℕ} (call : Call)
      → os.answer before c ≡ some fd
      → Makes os l (assert (is_positive fd) >>= λ u. must call >>= λ ret. return tt) λ u. call ∷ []
  checked call given =
      assert_then os (λ u l'. l' ≡ l ++ call ∷ []) l (λ u. must call >>= λ ret. return tt) given
        (must_then os (λ u l'. l' ≡ l ++ call ∷ []) l call (λ ret. return tt) p
          λ r e. (answered p e, refl))

-- The acceptor from `Listen` on, and from the options of its socket on.
abbrev listening : ℕ → ℕ → Option ℕ → Sys Acceptor
listening poller fd reserved_fd = do
  listen_socket fd
  add_channel poller fd
  return (record { fd = fd; reserved_fd = reserved_fd })

abbrev configuring : ℕ → List ℕ → ℕ → Option ℕ → Sys Acceptor
configuring poller addr fd reserved_fd = do
  set_nonblock_and_close_on_exec fd
  try (reuse_addr fd)
  try (reuse_port fd)
  bind_socket fd addr
  listening poller fd reserved_fd

abbrev options : ℕ → List Call
options fd =
    get_flags fd
    ∷ set_nonblock fd
    ∷ get_fd_flags fd
    ∷ set_cloexec fd
    ∷ reuse_addr fd
    ∷ reuse_port fd
    ∷ []

abbrev serving : ℕ → List ℕ → ℕ → List Call
serving poller addr fd = bind fd addr ∷ listen fd ∷ epoll_add poller fd ∷ epoll_mod poller fd ∷ []

configuring-Ends :
    {before : List Call} {c : Call} {fd : ℕ} (os : Os) (l : List Call) (poller : ℕ) (addr : List ℕ)
    (reserved_fd : Option ℕ)
    → os.answer before c ≡ some fd
    → Passed os l
    → Ends os
        (λ a l'. l' ≡ made l (options a.fd ++ serving poller addr a.fd))
        (configuring poller addr fd reserved_fd os l)
unfolding set_nonblock_and_close_on_exec bind_socket listen_socket add_channel
configuring-Ends {fd} os l poller addr reserved_fd given p =
    part_then os Q l3 (λ u. bind fd addr ∷ []) (bind_socket fd addr)
      (λ u. listening poller fd reserved_fd) (checked os l3 options_passed (bind fd addr) given)
      λ u p4.
        part_then os Q _ (λ u. listen fd ∷ []) (listen_socket fd)
          (λ u. add_channel poller fd >> return (record { fd = fd; reserved_fd = reserved_fd }))
          (checked os _ p4 (listen fd) given)
          λ u p5. (tried (epoll_mod poller fd) (tried (epoll_add poller fd) p5 refl) refl, refl)
  where
    Q : Acceptor → List Call → Type 0
    Q a l' = l' ≡ made l (options a.fd ++ serving poller addr a.fd)

    l3 : List Call
    l3 = made l (options fd)

    options_passed : Passed os l3
    options_passed =
        tried (reuse_port fd)
          (tried (reuse_addr fd)
            (tried (set_cloexec fd)
              (tried (get_fd_flags fd) (tried (set_nonblock fd) (tried (get_flags fd) p refl) refl)
                refl)
              refl)
            refl)
          refl

-- The calls of an acceptor.
abbrev pub acceptor_calls : ℕ → List ℕ → Acceptor → List Call
acceptor_calls poller addr a = socket ∷ open_null ∷ (options a.fd ++ serving poller addr a.fd)

pub new_acceptor-Makes :
    (os : Os) (l : List Call) (p : Passed os l) (poller : ℕ) (addr : List ℕ)
    → Makes os l (new_acceptor poller addr) (acceptor_calls poller addr)
unfolding new_acceptor new_socket
new_acceptor-Makes os l p poller addr =
    must_then os Q l socket
      (λ fd. open_reserved >>= λ r. assert (is_open r) >> configuring poller addr fd r) p
      λ fd e.
        let l1 = l ++ socket ∷ [] in
        let r = os.answer l1 open_null in
        assert_open_then os Q _ r (λ u. configuring poller addr fd r) refl
          (configuring-Ends os _ poller addr r e (tried open_null (answered p e) refl))
  where
    Q : Acceptor → List Call → Type 0
    Q a l' = l' ≡ made l (acceptor_calls poller addr a)
