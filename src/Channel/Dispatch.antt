-- ===== src/Channel/Dispatch.antt =====
-- Which callback `HandleEvent` of src/net/Channel.cc calls for a set of events.
use jerry.Base.{
  ℕ, ◌/◌, ◌%◌, ◌<◌, ◌≡◌, ◌∙◌, refl, ap, true_below, true_below_at, Bool, true, none, some, arith,
  ◌==◌, ==_iff, if◌then◌else◌,
}
use jerry.Channel.{
  Channel, Handler, on_peer_close, on_readable, on_writable, on_error, handle_event,
  set_triggered_event, has_bits, close_event, read_event, write_event,
}

-- The callback for the events, by their bits: 16 is EPOLLHUP, 1 EPOLLIN, 2 EPOLLPRI and 4 EPOLLOUT.
abbrev pub due : ℕ → Handler
due t =
    if t / 16 % 2 == 1
    then on_peer_close
    else if t % 4 == 0
    then if t / 4 % 2 == 1 then on_writable else on_error
    else on_readable

abbrev number : Handler → ℕ
number on_peer_close = 0
number on_readable = 1
number on_writable = 2
number on_error = 3

-- The code's choice, where every callback is set.
abbrev chosen : ℕ → Handler
chosen t =
    if has_bits t close_event
    then on_peer_close
    else if has_bits t read_event
    then on_readable
    else if has_bits t write_event
    then on_writable
    else on_error

chosen_table : true_below (λ t. number (chosen t) == number (due t)) 32 ≡ true
unfolding true_below
chosen_table = refl

number-injective : (h k : Handler) → number h ≡ number k → h ≡ k
number-injective h k e = ground arith

chosen-due : (t : ℕ) → t < 32 → chosen t ≡ due t
chosen-due t h = number-injective (chosen t) (due t) (
    (==_iff (number (chosen t)) (number (due t))).0
      (true_below_at (λ t. number (chosen t) == number (due t)) 32 t h chosen_table))

handle_event-chosen :
    (is_set : Handler → Bool) (t : ℕ) (c : Channel)
    → handle_event is_set (set_triggered_event t c)
      ≡ (if is_set (chosen t) then some (chosen t) else none)
unfolding handle_event set_triggered_event
handle_event-chosen is_set t c = ground arith

-- For every set of the events that epoll reports here (EPOLLIN, EPOLLPRI, EPOLLOUT, EPOLLERR and
-- EPOLLHUP), `HandleEvent` calls one callback at most, that of the first kind in the order hang-up,
-- readable, writable, anything else; nothing is called where this callback is not set.
pub handle_event_lem :
    (is_set : Handler → Bool) (t : ℕ) (c : Channel)
    → t < 32
    → handle_event is_set (set_triggered_event t c)
      ≡ (if is_set (due t) then some (due t) else none)
handle_event_lem is_set t c h =
    handle_event-chosen is_set t c ∙ ap (λ k. if is_set k then some k else none) (chosen-due t h)
