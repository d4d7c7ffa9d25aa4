-- ===== src/Server/Replies.antt =====
-- The frame that src/proto/ws/WebsocketServer.cc answers a request with.
use jerry.Base.{
  ℕ, ◌%◌, ◌≤◌, ◌<◌, ◌≡◌, ◌≢◌, ◌∙◌, refl, sym, ap, ap₂, List, ◌∷◌, ◌++◌, some, length, arith,
  append_assoc,
}
use jerry.Base.Result.{ok, ◌>>=◌}
use jerry.Conn.{Conn, connected, send}
use jerry.Conn.Awake.{Inv, send-Inv}
use jerry.Conn.Delivery.{stream}
use jerry.Ws.Codec.{WsReq, WebsocketCodec, Outside, decode}
use jerry.Ws.Frame.{text_frame, encode_frame_head, big_endian}
use jerry.Ws.Encode.{encode_frame_head-whole}
use jerry.Ws.Resp.{WsResp, empty_resp}
use jerry.Buffer.Content.{to_string-append}
use jerry.Buffer.{append, to_string}
use jerry.Server.Ws.{WsUser, answer, send_on, on_tcp_received_data}

-- `Send` while the client is connected: the bytes join the stream, and the rest stays as it is.
pub stream-send :
    (xs : List ℕ) (c : Conn)
    → Inv c
    → c.state ≡ connected
    → (stream (send xs c) ≡ stream c ++ xs) × (send xs c).state ≡ connected
unfolding send stream
stream-send xs c i on =
    let filled : (send xs c).send_buffer ≡ append xs c.send_buffer = ground (arith, on) in
    let kept : (send xs c).kernel_out ≡ c.kernel_out = ground (arith, on) in
    (
      ap₂ ◌++◌ kept (ap to_string filled ∙ to_string-append xs c.send_buffer i.send_valid)
          ∙ sym (append_assoc c.kernel_out (to_string c.send_buffer) xs),
      ground (arith, on),
    )

-- After a request was decoded on a connection that is still open, the server puts one frame in its stream:
-- the head of a whole text frame with the length of the response's payload, and then the payload. The
-- length is from 256 to 65534 and no multiple of 256, and the user leaves the connection alone.
ws_answers :
    (o : Outside) (u : WsUser) (c d : WebsocketCodec) (req : WsReq) (resp : WsResp)
    → decode o c ≡ ok (some req, d)
    → Inv d.conn
    → d.conn.state ≡ connected
    → u.on_request req empty_resp d.conn ≡ (resp, d.conn)
    → 256 ≤ length resp.payload
    → length resp.payload < 65535
    → length resp.payload % 256 ≢ 0
    → (c' : WebsocketCodec) × (size : List ℕ) × (on_tcp_received_data o u c ≡ ok c')
      × (stream c'.conn ≡ stream d.conn ++ (129 ∷ 126 ∷ size) ++ resp.payload)
      × (length size ≡ 2)
      × (big_endian 0 size ≡ length resp.payload)
unfolding on_tcp_received_data answer
ws_answers o u c d req resp decoded inv on answers low high odd =
    let (size, head, two, value) = encode_frame_head-whole resp.payload text_frame low high odd in
    let first = encode_frame_head resp.payload text_frame in
    let (s1, on1) = stream-send first d.conn inv on in
    let (s2, _) = stream-send resp.payload (send first d.conn) (send-Inv first d.conn inv) on1 in
    let sent : stream (send resp.payload (send first d.conn))
        ≡ stream d.conn ++ (129 ∷ 126 ∷ size) ++ resp.payload =
      s2 ∙ ap (λ l. l ++ resp.payload) (s1 ∙ ap (λ l. stream d.conn ++ l) head) in
    (
      send_on resp.payload (send_on first d),
      size,
      ap (λ r. r >>= answer u) decoded ∙ simp answers refl,
      sent,
      two,
      value,
    )
