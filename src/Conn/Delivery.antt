-- ===== src/Conn/Delivery.antt =====
-- The bytes that a connection accepts and those that the kernel gets, over any run of events.
use jerry.Base.{
  ℕ, ◌≡◌, ◌≢◌, ◌∙◌, refl, sym, ap, Bool, true, false, List, [], ◌∷◌, ◌++◌, Option, none, some, take,
  arith, append_assoc, append-nil, if◌then◌else◌, ◌==◌, Bool-cases, inl, inr,
}
use jerry.Buffer.{Buffer, readable_bytes, to_string}
use jerry.Buffer.Content.{to_string-append}
use jerry.Buffer.Socket.{
  write_bytes_to_fd, write_bytes_to_fd_lem, write_bytes_to_ssl, write_bytes_to_ssl_lem, taken,
  read_bytes_from_fd, read_bytes_from_ssl,
}
use jerry.Conn.{
  Conn, connected, is_connected, open_conn, send, on_channel_close, force_close, shutdown,
  read_encrypted, read_plain, on_channel_readable, rest_if_sent, after_ssl_write, after_fd_write,
  write_encrypted, write_plain, on_channel_writable, wrote, Event, sends, consumes, shuts_down,
  closes, readable, writable, step, run, after_ssl_read, after_fd_read,
}
use jerry.Conn.Awake.{Inv, open_conn-Inv, step-Inv}

-- All that went to the kernel, and then what waits.
unfoldable pub stream : Conn → List ℕ
stream c = c.kernel_out ++ to_string c.send_buffer

-- The bytes that an event hands to `Send` while the client is connected.
unfoldable pub accepted_by : Event → Conn → List ℕ
accepted_by (sends xs) c = if is_connected c then xs else []
accepted_by (consumes n) c = []
accepted_by (shuts_down done) c = []
accepted_by closes c = []
accepted_by (readable read retry done) c = []
accepted_by (writable write gone) c = []

unfoldable pub accepted : List Event → Conn → List ℕ
unfolding accepted_by
accepted [] c = []
accepted (e ∷ es) c = accepted_by e c ++ accepted es (step e c)

-- What a handler may do to a client: it was connected if it still is, and then `xs` was added to
-- its stream.
pub record Adds (xs : List ℕ) (c d : Conn) : Type 0 where
  pub before : d.state ≡ connected → c.state ≡ connected
  pub added : d.state ≡ connected → stream d ≡ stream c ++ xs

-- A handler that leaves the client closed, or that does not touch the stream.
Adds-closed : (xs : List ℕ) (c d : Conn) → d.state ≢ connected → Adds xs c d
Adds-closed xs c d h = record { before = λ e. absurd (h e); added = λ e. absurd (h e) }

Adds-same : (c d : Conn) → d.state ≡ c.state → stream d ≡ stream c → Adds [] c d
Adds-same c d s e = record {
  before = λ on. sym s ∙ on;
  added = λ _. e ∙ sym (append-nil (stream c));
}

send-Adds : (xs : List ℕ) (c : Conn) → Inv c → Adds (accepted_by (sends xs) c) c (send xs c)
unfolding send accepted_by stream
send-Adds xs c i = elim (Bool-cases (is_connected c)) [
  | inl on ↦
      rw (on, accepted_by)
        (record {
          before = λ e. e;
          added = λ _.
              ap (λ l. c.kernel_out ++ l) (to_string-append xs c.send_buffer i.send_valid)
              ∙ sym (append_assoc c.kernel_out (to_string c.send_buffer) xs);
        })
  | inr off ↦ rw (off, accepted_by) (Adds-same c c refl refl)
]

shutdown-closed : (done : Bool) (c : Conn) → (shutdown done c).state ≢ connected
unfolding shutdown force_close on_channel_close
shutdown-closed done c e = ground arith

after_ssl_read-Adds :
    (retry done : Bool) (n : Option ℕ) (c : Conn) → Adds [] c (after_ssl_read retry done n c)
unfolding after_ssl_read force_close on_channel_close stream
after_ssl_read-Adds true done none c = Adds-same c c refl refl
after_ssl_read-Adds false done none c = Adds-closed [] c _ (λ e. cc e)
after_ssl_read-Adds retry done (some n) c = elim (Bool-cases (n == 0)) [
  | inl end ↦ rw end (Adds-closed [] c (shutdown done c) (shutdown-closed done c))
  | inr more ↦ rw more (Adds-same c _ refl refl)
]

after_fd_read-Adds : (n : Option ℕ) (c : Conn) → Adds [] c (after_fd_read n c)
unfolding after_fd_read force_close on_channel_close stream
after_fd_read-Adds none c = Adds-closed [] c _ (λ e. cc e)
after_fd_read-Adds (some n) c = elim (Bool-cases (n == 0)) [
  | inl end ↦ rw end (Adds-closed [] c _ (λ e. cc e))
  | inr more ↦ rw more (Adds-same c _ refl refl)
]

-- A change of the receive buffer is not seen.
Adds-of_recv :
    (xs : List ℕ) (b : Buffer) (c d : Conn) → Adds xs (record c { recv_buffer = b }) d → Adds xs c d
unfolding stream
Adds-of_recv xs b c d a = record { before = a.before; added = a.added }

on_channel_readable-Adds :
    (read : ℕ → Option (List ℕ)) (retry done : Bool) (c : Conn)
    → Adds [] c (on_channel_readable read retry done c)
unfolding on_channel_readable read_encrypted read_plain
on_channel_readable-Adds read retry done c =
    let (n, b) = read_bytes_from_ssl read c.recv_buffer in
    let (m, a) = read_bytes_from_fd read c.recv_buffer in
    let ssl =
      Adds-of_recv [] b c (after_ssl_read retry done n (record c { recv_buffer = b }))
        (after_ssl_read-Adds retry done n (record c { recv_buffer = b })) in
    let plain =
      Adds-of_recv [] a c (after_fd_read m (record c { recv_buffer = a }))
        (after_fd_read-Adds m (record c { recv_buffer = a })) in
    elim (Bool-cases (is_connected c)) [
      | inr off ↦ rw off (Adds-same c c refl refl)
      | inl on ↦ rw on (cases c.encrypted ssl plain)
    ]
  where
    cases : (t : Bool) {x y : Conn} → Adds [] c x → Adds [] c y → Adds [] c (if t then x else y)
    cases true a b = a
    cases false a b = b

rest_if_sent-Adds : (xs : List ℕ) (c d : Conn) → Adds xs c d → Adds xs c (rest_if_sent d)
unfolding rest_if_sent stream
rest_if_sent-Adds xs c d a = elim (Bool-cases (readable_bytes d.send_buffer == 0)) [
  | inl sent ↦ rw sent (record { before = a.before; added = a.added })
  | inr more ↦ rw more a
]

-- Bytes that move from the send buffer to the kernel stay in the stream.
wrote-Adds :
    (n : Option ℕ) (b : Buffer) (c : Conn)
    → take (taken n) (to_string c.send_buffer) ++ to_string b ≡ to_string c.send_buffer
    → Adds [] c (wrote n b c)
unfolding stream
wrote-Adds n b c e = Adds-same c (wrote n b c) refl (
    append_assoc c.kernel_out (take (taken n) (to_string c.send_buffer)) (to_string b)
    ∙ ap (λ l. c.kernel_out ++ l) e)

after_ssl_write-Adds : (n : Option ℕ) (c d : Conn) → Adds [] c d → Adds [] c (after_ssl_write n d)
unfolding after_ssl_write force_close on_channel_close
after_ssl_write-Adds none c d a = rest_if_sent-Adds [] c _ (Adds-closed [] c _ (λ e. cc e))
after_ssl_write-Adds (some n) c d a = elim (Bool-cases (n == 0)) [
  | inl none_sent ↦ rw none_sent (rest_if_sent-Adds [] c _ (Adds-closed [] c _ (λ e. cc e)))
  | inr some_sent ↦ rw some_sent (rest_if_sent-Adds [] c d a)
]

after_fd_write-Adds :
    (gone : Bool) (n : Option ℕ) (c d : Conn) → Adds [] c d → Adds [] c (after_fd_write gone n d)
unfolding after_fd_write stream
after_fd_write-Adds true none c d a = record { before = a.before; added = a.added }
after_fd_write-Adds false none c d a = rest_if_sent-Adds [] c d a
after_fd_write-Adds gone (some n) c d a = rest_if_sent-Adds [] c d a

on_channel_writable-Adds :
    (write : List ℕ → Option ℕ) (gone : Bool) (c : Conn)
    → Inv c
    → Adds [] c (on_channel_writable write gone c)
unfolding on_channel_writable write_encrypted write_plain
on_channel_writable-Adds write gone c i =
    let r = write_bytes_to_ssl_lem write c.send_buffer i.send_valid in
    let q = write_bytes_to_fd_lem write c.send_buffer i.send_valid in
    let (n, b) = write_bytes_to_ssl write c.send_buffer in
    let (m, a) = write_bytes_to_fd write c.send_buffer in
    let ssl = after_ssl_write-Adds n c (wrote n b c) (wrote-Adds n b c (rw (r.0) (r.1))) in
    let plain = after_fd_write-Adds gone m c (wrote m a c) (wrote-Adds m a c (rw (q.0) (q.1))) in
    elim (Bool-cases (is_connected c)) [
      | inr off ↦ rw off (Adds-same c c refl refl)
      | inl on ↦ rw on (cases c.encrypted ssl plain)
    ]
  where
    cases : (t : Bool) {x y : Conn} → Adds [] c x → Adds [] c y → Adds [] c (if t then x else y)
    cases true a b = a
    cases false a b = b

step-Adds : (e : Event) (c : Conn) → Inv c → Adds (accepted_by e c) c (step e c)
unfolding step accepted_by force_close on_channel_close stream
step-Adds (sends xs) c i = send-Adds xs c i
step-Adds (consumes n) c i = Adds-same c _ refl refl
step-Adds (shuts_down done) c i = Adds-closed [] c (shutdown done c) (shutdown-closed done c)
step-Adds closes c i = Adds-closed [] c _ (λ e. cc e)
step-Adds (readable read retry done) c i = on_channel_readable-Adds read retry done c
step-Adds (writable write gone) c i = on_channel_writable-Adds write gone c i

pub run-Adds : (es : List Event) (c : Conn) → Inv c → Adds (accepted es c) c (run es c)
unfolding run accepted
run-Adds [] c i = Adds-same c c refl refl
run-Adds (e ∷ es) c i =
    let a = step-Adds e c i in
    let r = run-Adds es (step e c) (step-Inv e c i) in
    record {
      before = λ on. a.before (r.before on);
      added = λ on.
          r.added on
          ∙ ap (λ l. l ++ accepted es (step e c)) (a.added (r.before on))
          ∙ append_assoc (stream c) (accepted_by e c) (accepted es (step e c));
    }

-- Over any run of a new connection that ends with the client still connected, the bytes given to
-- the kernel followed by those still in the send buffer are exactly the bytes handed to `Send` while
-- connected, in order: nothing is lost, doubled or reordered.
pub run_delivers :
    (encrypted : Bool) (es : List Event)
    → (run es (open_conn encrypted)).state ≡ connected
    → stream (run es (open_conn encrypted)) ≡ accepted es (open_conn encrypted)
unfolding accepted stream open_conn to_string
run_delivers encrypted es on =
    (run-Adds es (open_conn encrypted) (open_conn-Inv encrypted)).added on
