-- ===== src/Conn/Awake.antt =====
-- The invariant of a connection: a client with unsent bytes is never forgotten by the event loop.
use jerry.Base.{
  ℕ, ◌<◌, ◌≡◌, ◌∙◌, refl, sym, ap, Bool, true, false, List, [], ◌∷◌, ◌++◌, Option, none, some, take,
  length, arith, ◌==◌, Bool-cases, inl, inr, length-append,
}
use jerry.Buffer.{Buffer, readable_bytes, to_string}
use jerry.Buffer.Valid.{IsValid, append-IsValid, release-IsValid, init-IsValid}
use jerry.Buffer.Content.{readable_bytes-length}
use jerry.Buffer.Socket.{
  write_bytes_to_fd, write_bytes_to_fd_lem, write_bytes_to_ssl, write_bytes_to_ssl_lem, taken,
  read_bytes_from_ssl, read_bytes_from_fd,
}
use jerry.Channel.{
  Channel, is_activate_reading, is_activate_writing, activate_writing, deactivate_writing,
  remove_from_poller,
}
use jerry.Channel.Interest.{Asks, apply, apply-Asks, flags_lem, writing_on, writing_off}
use jerry.Conn.{
  Conn, connected, is_connected, open_conn, send, on_channel_close, force_close, shutdown,
  read_encrypted, read_plain, on_channel_readable, rest_if_sent, after_ssl_write, after_fd_write,
  write_encrypted, write_plain, on_channel_writable, wrote, Event, sends, consumes, shuts_down,
  closes, readable, writable, step, run, after_ssl_read, after_fd_read, data_received,
}

-- The send buffer is valid, the channel asks to read, and a connected client with unsent bytes has
-- a channel that asks to write.
pub record Inv (c : Conn) : Type 0 where
  pub send_valid : IsValid c.send_buffer
  pub flags : Asks true (is_activate_writing c.channel) c.channel
  pub awake :
      c.state ≡ connected → 0 < readable_bytes c.send_buffer → is_activate_writing c.channel ≡ true

Asks-on : (w : Bool) (ch : Channel) → Asks true w ch → Asks true true (activate_writing ch)
unfolding apply
Asks-on w ch a = apply-Asks writing_on true w ch a

Asks-off : (w : Bool) (ch : Channel) → Asks true w ch → Asks true false (deactivate_writing ch)
unfolding apply
Asks-off w ch a = apply-Asks writing_off true w ch a

-- Flags in the form of the invariant.
Asks-self : (w : Bool) (ch : Channel) → Asks true w ch → Asks true (is_activate_writing ch) ch
Asks-self w ch a = rw ((flags_lem true w ch a).1) a

writing_on_lem :
    (c : Conn)
    → Inv c
    → Asks true (is_activate_writing (activate_writing c.channel)) (activate_writing c.channel)
      × (is_activate_writing (activate_writing c.channel) ≡ true)
writing_on_lem c i =
    let a = Asks-on (is_activate_writing c.channel) c.channel i.flags in
    (
      Asks-self true (activate_writing c.channel) a,
      (flags_lem true true (activate_writing c.channel) a).1,
    )

writing_off_lem :
    (c : Conn)
    → Inv c
    → Asks true (is_activate_writing (deactivate_writing c.channel)) (deactivate_writing c.channel)
writing_off_lem c i =
    Asks-self false (deactivate_writing c.channel)
      (Asks-off (is_activate_writing c.channel) c.channel i.flags)

pub open_conn-Inv : (encrypted : Bool) → Inv (open_conn encrypted)
unfolding open_conn is_activate_writing readable_bytes
open_conn-Inv encrypted = record {
  send_valid = init-IsValid 1024;
  flags = record { bits = refl };
  awake = λ _ h. absurd (omega arith);
}

pub send-Inv : (xs : List ℕ) (c : Conn) → Inv c → Inv (send xs c)
unfolding send
send-Inv xs c i = elim (Bool-cases (is_connected c)) [
  | inl on ↦ rw on (record {
    send_valid = append-IsValid xs c.send_buffer i.send_valid;
    flags = (writing_on_lem c i).0;
    awake = λ _ _. (writing_on_lem c i).1;
  })
  | inr off ↦ rw off i
]

on_channel_close-Inv : (c : Conn) → Inv c → Inv (on_channel_close c)
unfolding on_channel_close remove_from_poller is_activate_writing
on_channel_close-Inv c i = record {
  send_valid = release-IsValid c.send_buffer;
  flags = record { bits = i.flags.bits };
  awake = λ e _. cc e;
}

shutdown-Inv : (done : Bool) (c : Conn) → Inv c → Inv (shutdown done c)
unfolding shutdown force_close
shutdown-Inv true c i = record {
  send_valid = i.send_valid;
  flags = writing_off_lem c i;
  awake = λ e _. cc e;
}
shutdown-Inv false c i =
    on_channel_close-Inv _
      (record { send_valid = i.send_valid; flags = writing_off_lem c i; awake = λ e _. cc e })

-- The invariant reads three fields only.
Inv-of_fields :
    (c d : Conn)
    → d.state ≡ c.state
    → d.send_buffer ≡ c.send_buffer
    → d.channel ≡ c.channel
    → Inv c
    → Inv d
Inv-of_fields c d s b h i = record {
  send_valid = rw b (i.send_valid);
  flags = rw h (i.flags);
  awake = λ e k. rw h (i.awake (sym s ∙ e) (rw b at k));
}

data_received-Inv : (c : Conn) → Inv c → Inv (data_received c)
data_received-Inv c i = Inv-of_fields c (data_received c) refl refl refl i

after_ssl_read-Inv :
    (retry done : Bool) (n : Option ℕ) (c : Conn) → Inv c → Inv (after_ssl_read retry done n c)
unfolding after_ssl_read force_close
after_ssl_read-Inv true done none c i = i
after_ssl_read-Inv false done none c i = on_channel_close-Inv c i
after_ssl_read-Inv retry done (some n) c i =
    ground (arith, shutdown-Inv done c i, data_received-Inv c i)

after_fd_read-Inv : (n : Option ℕ) (c : Conn) → Inv c → Inv (after_fd_read n c)
unfolding after_fd_read force_close
after_fd_read-Inv none c i = on_channel_close-Inv c i
after_fd_read-Inv (some n) c i = ground (arith, on_channel_close-Inv c i, data_received-Inv c i)

received-Inv : (b : Buffer) (c : Conn) → Inv c → Inv (record c { recv_buffer = b })
received-Inv b c i = Inv-of_fields c (record c { recv_buffer = b }) refl refl refl i

read_encrypted-Inv :
    (read : ℕ → Option (List ℕ)) (retry done : Bool) (c : Conn)
    → Inv c
    → Inv (read_encrypted read retry done c)
unfolding read_encrypted
read_encrypted-Inv read retry done c i =
    let (n, b) = read_bytes_from_ssl read c.recv_buffer in
    after_ssl_read-Inv retry done n (record c { recv_buffer = b }) (received-Inv b c i)

read_plain-Inv : (read : ℕ → Option (List ℕ)) (c : Conn) → Inv c → Inv (read_plain read c)
unfolding read_plain
read_plain-Inv read c i =
    let (n, b) = read_bytes_from_fd read c.recv_buffer in
    after_fd_read-Inv n (record c { recv_buffer = b }) (received-Inv b c i)

on_channel_readable-Inv :
    (read : ℕ → Option (List ℕ)) (retry done : Bool) (c : Conn)
    → Inv c
    → Inv (on_channel_readable read retry done c)
unfolding on_channel_readable
on_channel_readable-Inv read retry done c i = elim (Bool-cases (is_connected c)) [
  | inr off ↦ rw off i
  | inl on ↦ rw on (elim (Bool-cases c.encrypted) [
    | inl ssl ↦ rw ssl (rw (← ssl) (read_encrypted-Inv read retry done c i))
    | inr plain ↦ rw plain (rw (← plain) (read_plain-Inv read c i))
  ])
]

-- A channel that has nothing to send may stop asking to write.
rest_if_sent-Inv : (c : Conn) → Inv c → Inv (rest_if_sent c)
unfolding rest_if_sent
rest_if_sent-Inv c i = elim (Bool-cases (readable_bytes c.send_buffer == 0)) [
  | inl sent ↦ rw sent (record {
    send_valid = i.send_valid;
    flags = writing_off_lem c i;
    awake = λ _ k. absurd (ground (arith, k));
  })
  | inr more ↦ rw more i
]

after_ssl_write-Inv : (n : Option ℕ) (c : Conn) → Inv c → Inv (after_ssl_write n c)
unfolding after_ssl_write force_close
after_ssl_write-Inv none c i = rest_if_sent-Inv (on_channel_close c) (on_channel_close-Inv c i)
after_ssl_write-Inv (some n) c i = elim (Bool-cases (n == 0)) [
  | inl none_sent ↦ rw none_sent (rest_if_sent-Inv (on_channel_close c) (on_channel_close-Inv c i))
  | inr some_sent ↦ rw some_sent (rest_if_sent-Inv c i)
]

after_fd_write-Inv : (gone : Bool) (n : Option ℕ) (c : Conn) → Inv c → Inv (after_fd_write gone n c)
unfolding after_fd_write
after_fd_write-Inv true none c i = Inv-of_fields c _ refl refl refl i
after_fd_write-Inv false none c i = rest_if_sent-Inv c i
after_fd_write-Inv gone (some n) c i = rest_if_sent-Inv c i

-- A write leaves no more unread bytes than there were.
wrote-Inv :
    (n : Option ℕ) (b : Buffer) (c : Conn)
    → IsValid b
    → take (taken n) (to_string c.send_buffer) ++ to_string b ≡ to_string c.send_buffer
    → Inv c
    → Inv (wrote n b c)
wrote-Inv n b c v e i = record {
  send_valid = v;
  flags = i.flags;
  awake = λ on k. i.awake on (
      omega (
        arith,
        k,
        ap length e,
        length-append (take (taken n) (to_string c.send_buffer)) (to_string b),
        readable_bytes-length b v,
        readable_bytes-length c.send_buffer i.send_valid,
      ));
}

write_encrypted-Inv : (write : List ℕ → Option ℕ) (c : Conn) → Inv c → Inv (write_encrypted write c)
unfolding write_encrypted
write_encrypted-Inv write c i =
    let r = write_bytes_to_ssl_lem write c.send_buffer i.send_valid in
    let (n, b) = write_bytes_to_ssl write c.send_buffer in
    after_ssl_write-Inv n (wrote n b c) (wrote-Inv n b c r.2 (rw (r.0) (r.1)) i)

write_plain-Inv :
    (write : List ℕ → Option ℕ) (gone : Bool) (c : Conn) → Inv c → Inv (write_plain write gone c)
unfolding write_plain
write_plain-Inv write gone c i =
    let r = write_bytes_to_fd_lem write c.send_buffer i.send_valid in
    let (n, b) = write_bytes_to_fd write c.send_buffer in
    after_fd_write-Inv gone n (wrote n b c) (wrote-Inv n b c r.2 (rw (r.0) (r.1)) i)

on_channel_writable-Inv :
    (write : List ℕ → Option ℕ) (gone : Bool) (c : Conn)
    → Inv c
    → Inv (on_channel_writable write gone c)
unfolding on_channel_writable
on_channel_writable-Inv write gone c i = elim (Bool-cases (is_connected c)) [
  | inr off ↦ rw off i
  | inl on ↦ rw on (elim (Bool-cases c.encrypted) [
    | inl ssl ↦ rw ssl (rw (← ssl) (write_encrypted-Inv write c i))
    | inr plain ↦ rw plain (rw (← plain) (write_plain-Inv write gone c i))
  ])
]

pub step-Inv : (e : Event) (c : Conn) → Inv c → Inv (step e c)
unfolding step force_close
step-Inv (sends xs) c i = send-Inv xs c i
step-Inv (consumes n) c i = received-Inv _ c i
step-Inv (shuts_down done) c i = shutdown-Inv done c i
step-Inv closes c i = on_channel_close-Inv c i
step-Inv (readable read retry done) c i = on_channel_readable-Inv read retry done c i
step-Inv (writable write gone) c i = on_channel_writable-Inv write gone c i

pub run-Inv : (es : List Event) (c : Conn) → Inv c → Inv (run es c)
unfolding run
run-Inv [] c i = i
run-Inv (e ∷ es) c i = run-Inv es (step e c) (step-Inv e c i)

-- After any run of a new connection that ends with the client connected and with unsent bytes,
-- the channel asks to read and to write, so that the event loop will send these bytes.
pub run-awake :
    (encrypted : Bool) (es : List Event)
    → (run es (open_conn encrypted)).state ≡ connected
    → 0 < readable_bytes (run es (open_conn encrypted)).send_buffer
    → (is_activate_reading (run es (open_conn encrypted)).channel ≡ true)
      × (is_activate_writing (run es (open_conn encrypted)).channel ≡ true)
run-awake encrypted es on left =
    let c = run es (open_conn encrypted) in
    let i = run-Inv es (open_conn encrypted) (open_conn-Inv encrypted) in
    ((flags_lem true (is_activate_writing c.channel) c.channel i.flags).0, i.awake on left)
