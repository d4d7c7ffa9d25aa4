-- ===== src/Conn/Closing.antt =====
-- What is left of a connection after `Shutdown`, `ForceClose` or a failed write.
use jerry.Base.{ℕ, ◌≡◌, ◌∙◌, refl, Bool, true, false, List, [], ◌∷◌, Option, none, arith}
use jerry.Buffer.{to_string}
use jerry.Buffer.Socket.{write_bytes_to_fd}
use jerry.Conn.{
  Conn, connected, is_connected, send, on_channel_close, force_close, shutdown, on_channel_readable,
  on_channel_writable, write_plain, Event, sends, consumes, shuts_down, closes, readable, writable,
  step, run, on_disconnected,
}

-- A client that is not connected, and has had `out` given to the kernel.
record Closed (out : List ℕ) (c : Conn) : Type 0 where
  gone : is_connected c ≡ false
  frozen : c.kernel_out ≡ out

shutdown-Closed : (done : Bool) (c : Conn) → Closed c.kernel_out (shutdown done c)
unfolding shutdown force_close on_channel_close
shutdown-Closed true c = record { gone = refl; frozen = refl }
shutdown-Closed false c = record { gone = refl; frozen = refl }

step-Closed : (out : List ℕ) (e : Event) (c : Conn) → Closed out c → Closed out (step e c)
unfolding step send force_close on_channel_close on_channel_readable on_channel_writable
step-Closed out (sends xs) c k = rw (k.gone) k
step-Closed out (consumes n) c k = record { gone = k.gone; frozen = k.frozen }
step-Closed out (shuts_down done) c k =
    let s = shutdown-Closed done c in record { gone = s.gone; frozen = s.frozen ∙ k.frozen }
step-Closed out closes c k = record { gone = refl; frozen = k.frozen }
step-Closed out (readable read retry done) c k = rw (k.gone) k
step-Closed out (writable write gone) c k = rw (k.gone) k

run-Closed : (out : List ℕ) (es : List Event) (c : Conn) → Closed out c → Closed out (run es c)
unfolding run
run-Closed out [] c k = k
run-Closed out (e ∷ es) c k = run-Closed out es (step e c) (step-Closed out e c k)

-- Once a client is not connected it never is again, and the kernel gets no byte more, whatever
-- happens to it.
pub run_closed :
    (es : List Event) (c : Conn)
    → is_connected c ≡ false
    → (is_connected (run es c) ≡ false) × ((run es c).kernel_out ≡ c.kernel_out)
run_closed es c off =
    let k = run-Closed c.kernel_out es c (record { gone = off; frozen = refl }) in
    (k.gone, k.frozen)

kernel_out-send : (xs : List ℕ) (c : Conn) → (send xs c).kernel_out ≡ c.kernel_out
unfolding send
kernel_out-send xs c = ground arith

-- `Send` followed by `Shutdown` in one handler sends nothing: the kernel never gets a byte of what
-- was handed over, nor of what was waiting, whatever happens later.
pub send_shutdown_lost :
    (xs : List ℕ) (done : Bool) (es : List Event) (c : Conn)
    → (run (sends xs ∷ shuts_down done ∷ es) c).kernel_out ≡ c.kernel_out
unfolding run step
send_shutdown_lost xs done es c =
    let s = shutdown-Closed done (send xs c) in
    (run-Closed (send xs c).kernel_out es (shutdown done (send xs c)) s).frozen
    ∙ kernel_out-send xs c

-- When `write` fails on a connected plain connection with EPIPE or ECONNRESET, the user is told,
-- but the connection stays connected and its channel as it was; when epoll then reports the hang-
-- up the user is told again.
pub disconnected_twice :
    (write : List ℕ → Option ℕ) (c : Conn)
    → c.state ≡ connected
    → c.encrypted ≡ false
    → write (to_string c.send_buffer) ≡ none
    → let d = step (writable write true) c in
      (d.state ≡ connected)
      × (d.channel ≡ c.channel)
      × ((step closes d).calls ≡ on_disconnected ∷ on_disconnected ∷ c.calls)
unfolding step force_close on_channel_close on_channel_writable write_plain write_bytes_to_fd
disconnected_twice write c on plain fails = (ground arith, ground arith, ground arith)
