-- ===== src/Server/Phases.antt =====
-- Where a client of src/proto/ws/WebsocketServer.cc stands between two reads, and what a call of `Decode`
-- makes of it.
use jerry.Base.{
  ℕ, ◌≡◌, ◌≢◌, ◌∙◌, sym, ap, subst, List, [], ◌++◌, none, some, length, arith, append-nil,
}
use jerry.Base.Result.{Result, ok}
use jerry.Conn.Delivery.{stream}
use jerry.Ws.Frame.{opcode_of, close_frame}
use jerry.Ws.Unmask.{Bytes}
use jerry.Ws.Encode.{Framed}
use jerry.Ws.Head.{LengthField}
use jerry.Ws.Payload.{Receives}
use jerry.Ws.Codec.{WsReq, WebsocketCodec, Outside, decode, except_frame_head, except_payload}
use jerry.Server.Reads.{has_read, stream-has_read}
use jerry.Server.Frames.{Plain, Live, has_read-Live, waits_lem, answers_lem}
use jerry.Server.Ws.{WsUser, on_tcp_received_data}

-- Where a client stands: between two frames, or inside one with this first byte and key, of whose data
-- `got` has come in and `rest` has not.
pub data Phase : Type 0 where
  between : Phase
  inside : (b0 : ℕ) (key got rest : List ℕ) → Phase

-- The codec of a client that stands there, and who shook hands for this host and URI.
abbrev pub Stands : List ℕ → List ℕ → Phase → WebsocketCodec → Type 0
Stands host uri between c =
    (c.state ≡ except_frame_head)
    × (c.req.payload ≡ [])
    × (c.last_read_idx ≡ 0)
    × (c.host ≡ host)
    × (c.request_uri ≡ uri)
Stands host uri (inside b0 key got rest) c =
    (c.state ≡ except_payload)
    × (c.req ≡ record { type = opcode_of b0; payload = got; host = host; request_uri = uri })
    × (c.last_read_idx ≡ length got)
    × (c.host ≡ host)
    × (c.request_uri ≡ uri)
    × (c.mask_key ≡ key)
    × (c.payload_remains ≡ length rest)

-- A head that announces `n` bytes, masked with a key of four bytes, of a frame that does not close.
pub record IsHead (b0 b1 n : ℕ) (size key : List ℕ) : Type 0 where
  pub field : LengthField n b1 size
  pub four : length key ≡ 4
  pub bytes : Bytes key
  pub not_close : opcode_of b0 ≢ close_frame

-- What one read comes to.
pub record Step (host uri : List ℕ) (s : Phase) (out : List ℕ) (c : WebsocketCodec)
    (r : Result WebsocketCodec) : Type 0 where
  pub next : WebsocketCodec
  pub result : r ≡ ok next
  pub stands : Stands host uri s next
  pub live : Live next.conn
  pub sent : stream next.conn ≡ stream c.conn ++ out

pub req_eq :
    (r : WsReq) {type : ℕ} {xs host uri : List ℕ}
    → r.type ≡ type
    → r.payload ≡ xs
    → r.host ≡ host
    → r.request_uri ≡ uri
    → r ≡ record { type = type; payload = xs; host = host; request_uri = uri }
req_eq r t p h i = ground (arith, t, p, h, i)

module _ (o : Outside) (u : WsUser) (plain : Plain o u) (host uri : List ℕ) where
  -- `Decode` returns no request.
  pub waits-Step :
      (s : Phase) (c c0 d : WebsocketCodec) {r : Result WebsocketCodec}
      → r ≡ on_tcp_received_data o u c0
      → decode o c0 ≡ ok (none, d)
      → d.conn ≡ has_read d.conn.recv_buffer c.conn
      → Receives [] d
      → Live c.conn
      → Stands host uri s d
      → Step host uri s [] c r
  waits-Step s c c0 d called decoded same left l at = record {
    next = d;
    result = called ∙ waits_lem o u c0 d decoded;
    stands = at;
    live = subst Live (sym same) (has_read-Live c.conn d.conn.recv_buffer l left.valid left.unread);
    sent =
        ap stream same
        ∙ stream-has_read d.conn.recv_buffer c.conn
        ∙ sym (append-nil (stream c.conn));
  }

  -- It returns one, at the end of a frame.
  pub answers-Step :
      (c c0 d : WebsocketCodec) (req : WsReq) {frame : List ℕ} {r : Result WebsocketCodec}
      → r ≡ on_tcp_received_data o u c0
      → decode o c0 ≡ ok (some req, d)
      → d.conn ≡ has_read d.conn.recv_buffer c.conn
      → Receives [] d
      → Live c.conn
      → Stands host uri between d
      → Framed (plain.respond req).payload frame
      → Step host uri between frame c r
  answers-Step c c0 d req {frame} called decoded same left l at f =
      let live =
        subst Live (sym same) (has_read-Live c.conn d.conn.recv_buffer l left.valid left.unread) in
      let (conn, answered, live', sent) = answers_lem o u plain c0 d req decoded live f in
      record {
        next = record d { conn = conn };
        result = called ∙ answered;
        stands = at;
        live = live';
        sent =
            sent
            ∙ ap (λ l. l ++ frame) (ap stream same ∙ stream-has_read d.conn.recv_buffer c.conn);
      }
