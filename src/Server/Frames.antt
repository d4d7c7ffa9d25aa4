-- ===== src/Server/Frames.antt =====
-- One read of a connection of src/proto/ws/WebsocketServer.cc after its handshake, and what the server
-- does then.
use jerry.Base.{
  ℕ, ◌≤◌, ◌<◌, ◌≡◌, ◌∙◌, refl, sym, ap, subst, false, List, [], ◌++◌, Option, none, some, length,
  append_assoc,
}
use jerry.Base.Result.{ok, ◌>>=◌}
use jerry.Buffer.{Buffer, to_string}
use jerry.Buffer.Valid.{IsValid}
use jerry.Buffer.Socket.{extra_size}
use jerry.Conn.{Conn, connected, send, on_channel_readable}
use jerry.Conn.Awake.{Inv, send-Inv}
use jerry.Conn.Delivery.{stream}
use jerry.Ws.Frame.{text_frame, encode_frame_head}
use jerry.Ws.Encode.{Framed, encode_frame_head-Framed}
use jerry.Ws.Payload.{Receives}
use jerry.Ws.Resp.{WsResp, empty_resp}
use jerry.Ws.Codec.{WsReq, WebsocketCodec, Outside, decode}
use jerry.Server.{on_data_received_by}
use jerry.Server.Answers.{received_lem}
use jerry.Server.Reads.{gives, has_read, has_read-Inv, reads_lem, send-rest}
use jerry.Server.Replies.{stream-send}
use jerry.Server.Ws.{WsUser, answer, handlers, on_tcp_received_data, on_readable}

-- A user who leaves the connection alone, and answers a request with a response; and a request that was
-- moved from has no payload.
pub record Plain (o : Outside) (u : WsUser) : Type 0 where
  pub respond : WsReq → WsResp
  pub quiet : (c : Conn) → u.on_connected c ≡ c
  pub responds : (r : WsReq) (c : Conn) → u.on_request r empty_resp c ≡ (respond r, c)
  pub payload_moved : (r : WsReq) → (o.moved r).payload ≡ []

-- An open plain connection whose receive buffer is empty.
pub record Live (c : Conn) : Type 0 where
  pub on : c.state ≡ connected
  pub unencrypted : c.encrypted ≡ false
  pub inv : Inv c
  pub valid : IsValid c.recv_buffer
  pub unread : to_string c.recv_buffer ≡ []

pub has_read-Live :
    (c : Conn) (b : Buffer) → Live c → IsValid b → to_string b ≡ [] → Live (has_read b c)
has_read-Live c b l v u = record {
  on = l.on;
  unencrypted = l.unencrypted;
  inv = has_read-Inv c b l.inv;
  valid = v;
  unread = u;
}

pub send-Live : (xs : List ℕ) (c : Conn) → Live c → Live (send xs c)
send-Live xs c l =
    let kept = send-rest xs c in
    record {
      on = (stream-send xs c l.inv l.on).1;
      unencrypted = kept.0 ∙ l.unencrypted;
      inv = send-Inv xs c l.inv;
      valid = subst IsValid (sym kept.1) l.valid;
      unread = ap to_string kept.1 ∙ l.unread;
    }

module _ (o : Outside) (u : WsUser) where
  on_readable_lem :
      (read : ℕ → Option (List ℕ)) (c : WebsocketCodec) (b : Buffer)
      → on_channel_readable read false false c.conn ≡ has_read b c.conn
      → on_readable o u read false false c
        ≡ on_tcp_received_data o u (record c { conn = has_read b c.conn })
  unfolding on_readable on_data_received_by handlers
  on_readable_lem read c b e = simp (e, received_lem c.conn.calls) refl

  -- A read of `q` calls `Decode` on it.
  pub read_lem :
      (q : List ℕ) (c : WebsocketCodec)
      → Live c.conn
      → 0 < length q
      → length q ≤ extra_size
      → (b : Buffer) × (on_readable o u (gives q) false false c
          ≡ on_tcp_received_data o u (record c { conn = has_read b c.conn }))
        × Receives q (record c { conn = has_read b c.conn })
  read_lem q c l pos fits =
      let (b, read, valid, unread) =
        reads_lem [] q c.conn l.on l.unencrypted l.valid l.unread pos fits in
      (b, on_readable_lem (gives q) c b read, record { valid = valid; unread = unread })

  pub waits_lem :
      (c d : WebsocketCodec) → decode o c ≡ ok (none, d) → on_tcp_received_data o u c ≡ ok d
  unfolding on_tcp_received_data answer
  waits_lem c d e = ap (λ r. r >>= answer u) e

  -- A request is answered with one whole frame.
  pub answers_lem :
      (plain : Plain o u) (c d : WebsocketCodec) (req : WsReq) {frame : List ℕ}
      → decode o c ≡ ok (some req, d)
      → Live d.conn
      → Framed (plain.respond req).payload frame
      → (c' : Conn) × (on_tcp_received_data o u c ≡ ok (record d { conn = c' }))
        × Live c'
        × (stream c' ≡ stream d.conn ++ frame)
  unfolding on_tcp_received_data answer
  answers_lem plain c d req {frame} decoded l f =
      let payload = (plain.respond req).payload in
      let head = encode_frame_head payload text_frame in
      let first = send head d.conn in
      let l1 = send-Live head d.conn l in
      let s1 = (stream-send head d.conn l.inv l.on).0 in
      let s2 = (stream-send payload first l1.inv l1.on).0 in
      (
        send payload first,
        ap (λ r. r >>= answer u) decoded ∙ simp (plain.responds req d.conn) refl,
        send-Live payload first l1,
        s2
            ∙ ap (λ l. l ++ payload) s1
            ∙ append_assoc (stream d.conn) head payload
            ∙ ap (λ l. stream d.conn ++ l) (encode_frame_head-Framed f),
      )
