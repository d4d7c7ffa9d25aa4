-- ===== src/Channel.antt =====
-- src/net/Channel.h and Channel.cc: a descriptor, the events that it asks for, and the dispatch of
-- those that happened; with the `epoll_ctl` calls of src/net/Poller.cc, kept newest first. The event
-- bits are those of <sys/epoll.h>.
pub mod Interest
pub mod Dispatch
mod Tests
use jerry.Base.{
  ℕ, ◌+◌, ◌-◌, ◌^◌, ◌≡◌, Bool, true, false, not, ◌||◌, List, [], ◌∷◌, Option, none, some, bit_and,
  bit_or, ◌==◌, if◌then◌else◌,
}

abbrev pub epollin : ℕ
epollin = 0x001

abbrev pub epollpri : ℕ
epollpri = 0x002

abbrev pub epollout : ℕ
epollout = 0x004

abbrev pub epollhup : ℕ
epollhup = 0x010

-- `enum class EpollEvents`
abbrev pub none_event : ℕ
none_event = 0

abbrev pub read_event : ℕ
read_event = bit_or epollin epollpri

abbrev pub write_event : ℕ
write_event = epollout

abbrev pub close_event : ℕ
close_event = epollhup

-- `epoll_ctl` with EPOLL_CTL_ADD and no events, EPOLL_CTL_MOD, and EPOLL_CTL_DEL.
pub data EpollCall : Type 0 where
  ctl_add : EpollCall
  ctl_mod : ℕ → EpollCall
  ctl_del : EpollCall

pub record Channel : Type 0 where
  pub events : ℕ
  pub triggered_events : ℕ
  pub calls : List EpollCall

abbrev pub fresh : Channel
fresh = record { events = none_event; triggered_events = 0; calls = [] }

-- `static_cast<bool>(events & mask)`
abbrev pub has_bits : ℕ → ℕ → Bool
has_bits events mask = not (bit_and events mask == 0)

-- `~mask` on uint32_t
abbrev complement : ℕ → ℕ
complement mask = 2 ^ 32 - 1 - mask

-- `Poller::AddChannel`, `UpdateChannel` and `RemoveChannel`.
unfoldable pub add_to_poller : Channel → Channel
add_to_poller c = record c { calls = ctl_add ∷ c.calls }

unfoldable pub update_channel : Channel → Channel
update_channel c = record c { calls = ctl_mod c.events ∷ c.calls }

unfoldable pub remove_from_poller : Channel → Channel
remove_from_poller c = record c { calls = ctl_del ∷ c.calls }

unfoldable pub set_triggered_event : ℕ → Channel → Channel
set_triggered_event e c = record c { triggered_events = e }

unfoldable pub is_activate_reading : Channel → Bool
is_activate_reading c = has_bits c.events read_event

unfoldable pub is_activate_writing : Channel → Bool
is_activate_writing c = has_bits c.events write_event

unfoldable pub activate_reading : Channel → Channel
unfolding is_activate_reading update_channel
activate_reading c =
    if not (is_activate_reading c)
    then update_channel (record c { events = bit_or c.events read_event })
    else c

unfoldable pub deactivate_reading : Channel → Channel
unfolding is_activate_reading update_channel
deactivate_reading c =
    if is_activate_reading c
    then update_channel (record c { events = bit_and c.events (complement read_event) })
    else c

unfoldable pub activate_writing : Channel → Channel
unfolding is_activate_writing update_channel
activate_writing c =
    if not (is_activate_writing c)
    then update_channel (record c { events = bit_or c.events write_event })
    else c

unfoldable pub deactivate_writing : Channel → Channel
unfolding is_activate_writing update_channel
deactivate_writing c =
    if is_activate_writing c
    then update_channel (record c { events = bit_and c.events (complement write_event) })
    else c

unfoldable pub activate_rw : Channel → Channel
unfolding is_activate_reading is_activate_writing update_channel
activate_rw c =
    if not (is_activate_reading c) || not (is_activate_writing c)
    then update_channel (record c { events = bit_or (bit_or c.events read_event) write_event })
    else c

unfoldable pub deactivate_rw : Channel → Channel
unfolding is_activate_reading is_activate_writing update_channel
deactivate_rw c =
    if is_activate_reading c || is_activate_writing c
    then update_channel (record c { events = none_event })
    else c

-- The callbacks of `ChannelCallback`, and which of them are set.
pub data Handler : Type 0 where
  on_peer_close on_readable on_writable on_error : Handler

-- The callback that `HandleEvent` calls; `none` where it is not set.
unfoldable pub handle_event : (Handler → Bool) → Channel → Option Handler
handle_event is_set c =
    let called = λ (h : Handler). if is_set h then some h else none in
    if has_bits c.triggered_events close_event
    then called on_peer_close
    else if has_bits c.triggered_events read_event
    then called on_readable
    else if has_bits c.triggered_events write_event
    then called on_writable
    else called on_error
