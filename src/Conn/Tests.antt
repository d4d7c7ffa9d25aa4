-- ===== src/Conn/Tests.antt =====
-- The connection's theorems at small inputs.
use jerry.Base.{
  ℕ, ◌<◌, ◌≡◌, refl, ap, true, false, List, [], ◌∷◌, ◌++◌, Option, none, some, arith, length,
}
use jerry.Buffer.{
  readable_bytes, to_string, init, append, ensure_writable_space, copy_in, drop_bytes,
}
use jerry.Buffer.Socket.{write_bytes_to_fd}
use jerry.Buffer.Content.{readable_bytes-length}
use jerry.Channel.{is_activate_reading, is_activate_writing}
use jerry.Conn.{
  Conn, connected, is_connected, open_conn, send, force_close, on_channel_close,
  on_channel_writable, write_plain, after_fd_write, rest_if_sent, Event, sends, shuts_down, closes,
  writable, step, run,
}
use jerry.Conn.Awake.{Inv, open_conn-Inv, run-Inv, run-awake}
use jerry.Conn.Delivery.{stream, accepted, run_delivers}
use jerry.Conn.Drain.{TakesSome, writables, run_drains}
use jerry.Conn.Context.{TcpContext}
use jerry.Conn.Closing.{run_closed, send_shutdown_lost}

-- `write` that takes one byte, and nothing of nothing.
abbrev pub one_taken : List ℕ → Option ℕ
one_taken [] = some 0
one_taken (x ∷ xs) = some 1

pub one_taken-TakesSome : TakesSome one_taken
one_taken-TakesSome = record { count = λ x xs. 0; takes = λ x xs. refl }

abbrev some_events : List Event
some_events = sends (1 ∷ 2 ∷ 3 ∷ []) ∷ writable one_taken false ∷ sends (4 ∷ []) ∷ []

abbrev used : Conn
used = run some_events (open_conn false)

used_connected : used.state ≡ connected
unfolding run step send on_channel_writable write_plain after_fd_write rest_if_sent open_conn init
    append ensure_writable_space copy_in readable_bytes to_string drop_bytes write_bytes_to_fd
used_connected = refl

used_plain : used.encrypted ≡ false
unfolding run step send on_channel_writable write_plain after_fd_write rest_if_sent open_conn init
    append ensure_writable_space copy_in readable_bytes to_string drop_bytes write_bytes_to_fd
used_plain = refl

used_unsent : to_string used.send_buffer ≡ 2 ∷ 3 ∷ 4 ∷ []
unfolding run step send on_channel_writable write_plain after_fd_write rest_if_sent open_conn init
    append ensure_writable_space copy_in readable_bytes to_string drop_bytes write_bytes_to_fd
used_unsent = refl

used-Inv : Inv used
used-Inv = run-Inv some_events (open_conn false) (open_conn-Inv false)

used_left : 0 < readable_bytes used.send_buffer
used_left =
    omega (arith, readable_bytes-length used.send_buffer used-Inv.send_valid, ap length used_unsent)

run_delivers_example : stream used ≡ accepted some_events (open_conn false)
run_delivers_example = run_delivers false some_events used_connected

run-awake_example :
    (is_activate_reading used.channel ≡ true) × (is_activate_writing used.channel ≡ true)
run-awake_example = run-awake false some_events used_connected used_left

run_drains_example :
    let d = run (writables one_taken 3) used in
    (d.state ≡ connected)
    × (to_string d.send_buffer ≡ [])
    × (d.kernel_out ≡ used.kernel_out ++ to_string used.send_buffer)
run_drains_example =
    run_drains one_taken 3 used one_taken-TakesSome used-Inv used_connected used_plain
      (omega (arith, ap length used_unsent))

abbrev closed : Conn
closed = step closes used

closed_gone : is_connected closed ≡ false
unfolding step force_close on_channel_close
closed_gone = refl

run_closed_example :
    (is_connected (run some_events closed) ≡ false)
    × ((run some_events closed).kernel_out ≡ closed.kernel_out)
run_closed_example = run_closed some_events closed closed_gone

send_shutdown_lost_example :
    (run (sends (5 ∷ []) ∷ shuts_down true ∷ some_events) used).kernel_out ≡ used.kernel_out
send_shutdown_lost_example = send_shutdown_lost (5 ∷ []) true some_events used

abbrev failing : List ℕ → Option ℕ
failing xs = none

abbrev one_entry : TcpContext ℕ
one_entry = (7 ∷ [], 1) ∷ []
