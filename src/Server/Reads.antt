-- ===== src/Server/Reads.antt =====
-- One read of a plain connection of src/net/TcpConn.cc, and one `Send`, where the socket has bytes.
use jerry.Base.{
  ℕ, ◌≤◌, ◌<◌, ◌≡◌, ◌∙◌, refl, ap, ap₂, false, List, ◌∷◌, ◌++◌, Option, some, length, take,
  take_all, arith,
}
use jerry.Buffer.{Buffer, to_string}
use jerry.Buffer.Valid.{IsValid}
use jerry.Buffer.Socket.{
  iov_capacity, extra_size, read_bytes_from_fd, read_bytes_from_fd_lem, received, count,
}
use jerry.Conn.{Conn, connected, send, on_channel_readable, on_data_received}
use jerry.Conn.Awake.{Inv}
use jerry.Conn.Delivery.{stream}
use jerry.Server.Answers.{readable_lem}

-- `readv` of a socket that holds these bytes.
abbrev pub gives : List ℕ → ℕ → Option (List ℕ)
gives q n = some (take n q)

capacity_large : (b : Buffer) → extra_size ≤ iov_capacity b
unfolding iov_capacity
capacity_large b = ground arith

-- The connection once it has read, with its new buffer.
abbrev pub has_read : Buffer → Conn → Conn
has_read b c = record c { recv_buffer = b; calls = on_data_received ∷ c.calls }

-- One read appends its bytes and calls the server back.
pub reads_lem :
    (p q : List ℕ) (c : Conn)
    → c.state ≡ connected
    → c.encrypted ≡ false
    → IsValid c.recv_buffer
    → to_string c.recv_buffer ≡ p
    → 0 < length q
    → length q ≤ extra_size
    → (b : Buffer) × (on_channel_readable (gives q) false false c ≡ has_read b c)
      × IsValid b
      × (to_string b ≡ p ++ q)
reads_lem p q c on plain valid unread pos fits =
    let whole : gives q (iov_capacity c.recv_buffer) ≡ some q = ap some (
      take_all (iov_capacity c.recv_buffer) q
        (omega (arith, fits, capacity_large c.recv_buffer))) in
    let (n, got, valid') = read_bytes_from_fd_lem (gives q) c.recv_buffer valid in
    (
      (read_bytes_from_fd (gives q) c.recv_buffer).1,
      readable_lem (gives q) false false (length q) c on plain pos (n ∙ ap count whole),
      valid',
      got ∙ ap₂ ◌++◌ unread (ap received whole),
    )

-- `Inv` speaks of the send buffer and the channel only.
pub has_read-Inv : (c : Conn) (b : Buffer) → Inv c → Inv (has_read b c)
has_read-Inv c b i = record { send_valid = i.send_valid; flags = i.flags; awake = i.awake }

pub send-rest :
    (xs : List ℕ) (c : Conn)
    → ((send xs c).encrypted ≡ c.encrypted) × ((send xs c).recv_buffer ≡ c.recv_buffer)
unfolding send
send-rest xs c = (ground arith, ground arith)

pub stream-has_read : (b : Buffer) (c : Conn) → stream (has_read b c) ≡ stream c
unfolding stream
stream-has_read b c = refl
