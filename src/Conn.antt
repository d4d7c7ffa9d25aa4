-- ===== src/Conn.antt =====
-- src/net/TcpConn.h and TcpConn.cc: one connection. Its handlers run one after another in the loop
-- of their IOWorker. The results of the system calls and of OpenSSL are arguments of the handlers.
-- A user callback is recorded as a call; what it does to the connection is given by the events that
-- follow in a run, since the handlers call it last. `kernel_out` collects the bytes that `write` and
-- `SSL_write` took.
pub mod Awake
pub mod Delivery
pub mod Closing
pub mod Drain
pub mod Context
pub mod Tests
use jerry.Base.{
  ℕ, ◌+◌, ◌++◌, Bool, true, false, not, ◌||◌, ◌&&◌, List, [], ◌∷◌, Option, none, some, take, ◌==◌,
  if◌then◌else◌,
}
use jerry.Buffer.{Buffer, readable_bytes, to_string, release, append, drop_bytes, init}
use jerry.Buffer.Socket.{
  read_bytes_from_fd, write_bytes_to_fd, read_bytes_from_ssl, write_bytes_to_ssl, taken,
}
use jerry.Channel.{
  Channel, fresh, add_to_poller, activate_reading, remove_from_poller, activate_writing,
  deactivate_writing,
}

-- `TcpConn::State`
pub data State : Type 0 where
  connected disconnected shut_down : State

-- The calls that leave the object: user callbacks, and `shutdown(fd, SHUT_WR)`.
pub data Call : Type 0 where
  on_data_received on_disconnected send_fin : Call

pub record Conn : Type 0 where
  pub state : State
  pub send_buffer : Buffer
  pub recv_buffer : Buffer
  pub channel : Channel
  -- the IOWorker has an SSL context
  pub encrypted : Bool
  -- the IOWorker still holds its `shared_ptr`
  pub in_worker : Bool
  -- newest first
  pub calls : List Call
  pub kernel_out : List ℕ

-- What `Acceptor::OnPeerConnect` sets up for a new client.
unfoldable pub open_conn : Bool → Conn
unfolding init activate_reading add_to_poller
open_conn encrypted = record {
  state = connected;
  send_buffer = init 1024;
  recv_buffer = init 1024;
  channel = activate_reading (add_to_poller fresh);
  encrypted = encrypted;
  in_worker = true;
  calls = [];
  kernel_out = [];
}

abbrev pub is_connected : Conn → Bool
is_connected c = elim c.state [ connected ↦ true | disconnected ↦ false | shut_down ↦ false ]

unfoldable pub send : List ℕ → Conn → Conn
send xs c =
    if not (is_connected c)
    then c
    else record c { send_buffer = append xs c.send_buffer; channel = activate_writing c.channel }

-- `OnChannelClose`, also the channel's `OnError`.
unfoldable pub on_channel_close : Conn → Conn
on_channel_close c = record c {
  state = disconnected;
  channel = remove_from_poller c.channel;
  send_buffer = release c.send_buffer;
  recv_buffer = release c.recv_buffer;
  calls = on_disconnected ∷ c.calls;
  in_worker = false;
}

-- `channel->GetCallback().OnPeerClose(...)`
unfoldable pub force_close : Conn → Conn
force_close c = on_channel_close c

-- The flag says whether `shutdown` returned 0.
unfoldable pub shutdown : Bool → Conn → Conn
shutdown done c =
    let c' : Conn = record c {
      state = shut_down;
      channel = deactivate_writing c.channel;
      calls = send_fin ∷ c.calls;
    } in
    if done then c' else force_close c'

-- `callback.OnDataReceived(this, time)`
abbrev pub data_received : Conn → Conn
data_received c = record c { calls = on_data_received ∷ c.calls }

-- What `OnChannelReadable` does after `ReadBytesFromSsl` and after `ReadBytesFromFd`. `retry` is
-- SSL_ERROR_WANT_READ, and `done` is how the `shutdown` call would end.
unfoldable pub after_ssl_read : Bool → Bool → Option ℕ → Conn → Conn
after_ssl_read retry done none c = if retry then c else force_close c
after_ssl_read retry done (some n) c = if n == 0 then shutdown done c else data_received c

unfoldable pub after_fd_read : Option ℕ → Conn → Conn
after_fd_read none c = force_close c
after_fd_read (some n) c = if n == 0 then force_close c else data_received c

unfoldable pub read_encrypted : (ℕ → Option (List ℕ)) → Bool → Bool → Conn → Conn
unfolding after_ssl_read
read_encrypted read retry done c =
    let (n, b) = read_bytes_from_ssl read c.recv_buffer in
    after_ssl_read retry done n (record c { recv_buffer = b })

unfoldable pub read_plain : (ℕ → Option (List ℕ)) → Conn → Conn
unfolding after_fd_read
read_plain read c =
    let (n, b) = read_bytes_from_fd read c.recv_buffer in
    after_fd_read n (record c { recv_buffer = b })

unfoldable pub on_channel_readable : (ℕ → Option (List ℕ)) → Bool → Bool → Conn → Conn
on_channel_readable read retry done c =
    if not (is_connected c)
    then c
    else if c.encrypted
    then read_encrypted read retry done c
    else read_plain read c

-- The bytes at the front of the send buffer go to the kernel.
abbrev pub wrote : Option ℕ → Buffer → Conn → Conn
wrote n b c = record c {
  kernel_out = c.kernel_out ++ take (taken n) (to_string c.send_buffer);
  send_buffer = b;
}

-- The last step of `OnChannelWritable`.
unfoldable pub rest_if_sent : Conn → Conn
rest_if_sent c =
    if readable_bytes c.send_buffer == 0
    then record c { channel = deactivate_writing c.channel }
    else c

-- After a failed `SSL_write` the code closes the connection and goes on with it. This is the connection where
-- someone else holds a `shared_ptr` to it; Worker, where no one does, makes a fault of it.
unfoldable pub after_ssl_write : Option ℕ → Conn → Conn
unfolding rest_if_sent
after_ssl_write none c = rest_if_sent (force_close c)
after_ssl_write (some n) c = rest_if_sent (if n == 0 then force_close c else c)

-- `gone` is EPIPE or ECONNRESET.
unfoldable pub after_fd_write : Bool → Option ℕ → Conn → Conn
unfolding rest_if_sent
after_fd_write gone none c =
    if gone then record c { calls = on_disconnected ∷ c.calls } else rest_if_sent c
after_fd_write gone (some n) c = rest_if_sent c

unfoldable pub write_encrypted : (List ℕ → Option ℕ) → Conn → Conn
unfolding after_ssl_write
write_encrypted write c =
    let (n, b) = write_bytes_to_ssl write c.send_buffer in after_ssl_write n (wrote n b c)

unfoldable pub write_plain : (List ℕ → Option ℕ) → Bool → Conn → Conn
unfolding after_fd_write
write_plain write gone c =
    let (n, b) = write_bytes_to_fd write c.send_buffer in after_fd_write gone n (wrote n b c)

unfoldable pub on_channel_writable : (List ℕ → Option ℕ) → Bool → Conn → Conn
on_channel_writable write gone c =
    if not (is_connected c)
    then c
    else if c.encrypted
    then write_encrypted write c
    else write_plain write gone c

-- What can happen to a connection: the user's calls, and the events of its channel.
pub data Event : Type 0 where
  sends : List ℕ → Event
  consumes : ℕ → Event
  shuts_down : Bool → Event
  closes : Event
  readable : (ℕ → Option (List ℕ)) → Bool → Bool → Event
  writable : (List ℕ → Option ℕ) → Bool → Event

unfoldable pub step : Event → Conn → Conn
step (sends xs) c = send xs c
step (consumes n) c = record c { recv_buffer = drop_bytes n c.recv_buffer }
step (shuts_down done) c = shutdown done c
step closes c = force_close c
step (readable read retry done) c = on_channel_readable read retry done c
step (writable write gone) c = on_channel_writable write gone c

unfoldable pub run : List Event → Conn → Conn
unfolding step
run [] c = c
run (e ∷ es) c = run es (step e c)
