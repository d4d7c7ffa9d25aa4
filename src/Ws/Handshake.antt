-- ===== src/Ws/Handshake.antt =====
-- The handshake of src/proto/ws/WebsocketCodec.cc, on a request written out as the protocol has it.
use jerry.Base.{
  ℕ, ◌*◌, ◌≤◌, ◌≡◌, ◌≢◌, ◌∙◌, refl, ap, true, false, List, [], ◌++◌, none, some, length, arith,
  Absent, codes, beq, take_until, append_assoc, ap₂, if◌then◌else◌,
}
use jerry.Base.Result.{Result, ok, ◌>>=◌}
use jerry.Buffer.{Buffer, to_string}
use jerry.Buffer.Valid.{IsValid}
use jerry.Conn.{Event, send, shutdown, step, run}
use jerry.Conn.Closing.{send_shutdown_lost}
use jerry.Http.Req.{HttpReq, Method, get, HttpVersion, http10, http11, method_string, get_header}
use jerry.Http.Resp
use jerry.Http.Resp.{HttpResp, Entries, empty_resp, set_status, add_header}
use jerry.Http.Decoder
use jerry.Http.Decoder.{HttpReqDecoder, new_decoder, sp}
use jerry.Http.Decoder.RequestLine.{request_line}
use jerry.Http.Decoder.HeaderLines.{Fields, CleanFields, header_text}
use jerry.Http.Decoder.RoundTrip.{request_of, decode_ready}
use jerry.Http.Decoder.Lookup.{first_value, get_header-request_of}
use jerry.Ws.Payload.{Receives}
use jerry.Ws.Codec.{
  WebsocketCodec, Outside, set_recv, get_sec_websocket_accept, is_refused, refuse, accept, or_empty,
  hand_shake, decode, except_handshake, except_frame_head,
}

-- The header lines that RFC 6455, section 4.2.1, asks of a client, as far as the code looks at them.
pub record Upgrade (fs : Fields) : Type 0 where
  pub host : List ℕ
  pub key : List ℕ
  pub upgrade : List ℕ
  pub connection : List ℕ
  pub version : List ℕ
  pub has_host : first_value (codes "Host") fs ≡ some host
  pub has_key : first_value (codes "Sec-WebSocket-Key") fs ≡ some key
  pub has_upgrade : first_value (codes "Upgrade") fs ≡ some upgrade
  pub has_connection : first_value (codes "Connection") fs ≡ some connection
  pub has_version : first_value (codes "Sec-WebSocket-Version") fs ≡ some version

-- A request that is no upgrade of HTTP/1.1 by GET, or that lacks one of the lines.
pub data Refused (m : Method) (v : HttpVersion) (fs : Fields) : Type 0 where
  other_method : m ≢ get → Refused m v fs
  old_version : v ≡ http10 → Refused m v fs
  no_host : first_value (codes "Host") fs ≡ none → Refused m v fs
  no_upgrade : first_value (codes "Upgrade") fs ≡ none → Refused m v fs
  no_connection : first_value (codes "Connection") fs ≡ none → Refused m v fs
  no_version : first_value (codes "Sec-WebSocket-Version") fs ≡ none → Refused m v fs
  no_key : first_value (codes "Sec-WebSocket-Key") fs ≡ none → Refused m v fs

-- `101 Switching Protocols` with the value of `Sec-WebSocket-Accept`.
abbrev pub switching_text : List ℕ → List ℕ → List ℕ
switching_text value date =
    codes "HTTP/1.1 101 Switching Protocols\r\nConnection: Upgrade\r\nSec-WebSocket-Accept: "
    ++ (value
        ++ (codes "\r\nUpgrade: WebSocket\r\nContent-Length: 0\r\nDate: "
            ++ (date ++ codes "\r\n\r\n")))

module _ (m : Method) (uri : List ℕ) (v : HttpVersion) (fs : Fields) (body : List ℕ) where
  is_refused-Upgrade :
      m ≡ get → v ≡ http11 → Upgrade fs → is_refused (request_of m uri v fs body) ≡ false
  unfolding is_refused
  is_refused-Upgrade is_get is_new u = ground (
    arith,
    is_get,
    is_new,
    get_header-request_of (codes "Host") m uri v fs body,
    get_header-request_of (codes "Upgrade") m uri v fs body,
    get_header-request_of (codes "Connection") m uri v fs body,
    get_header-request_of (codes "Sec-WebSocket-Version") m uri v fs body,
    get_header-request_of (codes "Sec-WebSocket-Key") m uri v fs body,
    u.has_host,
    u.has_key,
    u.has_upgrade,
    u.has_connection,
    u.has_version,
  )

  is_refused-Refused : Refused m v fs → is_refused (request_of m uri v fs body) ≡ true
  unfolding is_refused
  is_refused-Refused (other_method h) = ground arith
  is_refused-Refused (old_version h) = ground (arith, h)
  is_refused-Refused (no_host h) =
      ground (arith, h, get_header-request_of (codes "Host") m uri v fs body)
  is_refused-Refused (no_upgrade h) =
      ground (arith, h, get_header-request_of (codes "Upgrade") m uri v fs body)
  is_refused-Refused (no_connection h) =
      ground (arith, h, get_header-request_of (codes "Connection") m uri v fs body)
  is_refused-Refused (no_version h) =
      ground (arith, h, get_header-request_of (codes "Sec-WebSocket-Version") m uri v fs body)
  is_refused-Refused (no_key h) =
      ground (arith, h, get_header-request_of (codes "Sec-WebSocket-Key") m uri v fs body)

-- The response that `accept` builds, printed.
switching_resp : List ℕ → HttpResp
switching_resp value = add_header (codes "Sec-WebSocket-Accept") value false (
    add_header (codes "Connection") (codes "Upgrade") false
      (add_header (codes "Upgrade") (codes "WebSocket") false (set_status 101 empty_resp)))

to_string-switching_resp :
    (value date : List ℕ)
    → Resp.to_string date (switching_resp value) ≡ ok (switching_text value date)
unfolding switching_resp Resp.to_string Resp.reason Resp.decimal add_header set_status Resp.emplace
    Resp.find Resp.before beq take_until
to_string-switching_resp value date =
    ap
      (λ l. ok (
        codes "HTTP/1.1 101 Switching Protocols\r\nConnection: Upgrade\r\nSec-WebSocket-Accept: "
        ++ l))
      (append_assoc value (codes "\r\nUpgrade: WebSocket\r\n")
        (codes "Content-Length: 0\r\nDate: " ++ (date ++ codes "\r\n\r\n")))

-- `400 Bad Request`
abbrev pub refusal_text : List ℕ → List ℕ
refusal_text date =
    codes "HTTP/1.1 400 Bad Request\r\nContent-Length: 0\r\nDate: " ++ (date ++ codes "\r\n\r\n")

refusal_lem :
    (date : List ℕ) → Resp.to_string date (set_status 400 empty_resp) ≡ ok (refusal_text date)
unfolding Resp.to_string Resp.reason Resp.decimal set_status
refusal_lem date = refl

decode_shakes :
    (o : Outside) (c : WebsocketCodec)
    → c.state ≡ except_handshake
    → decode o c ≡ (hand_shake o c >>= λ c'. ok (none, c'))
unfolding decode
decode_shakes o c s = ground (arith, s)

hand_shake_request :
    (o : Outside) (c : WebsocketCodec) (req : HttpReq) (d : HttpReqDecoder)
    → Decoder.decode o.moved_http (new_decoder c.conn.recv_buffer) ≡ ok (some req, d)
    → hand_shake o c ≡ (
        if is_refused req
        then refuse o (set_recv d.buffer c)
        else accept o req (set_recv d.buffer c))
unfolding hand_shake
hand_shake_request o c req d e = ground (arith, e)

-- What `accept` leaves.
abbrev pub accepted : Outside → List ℕ → List ℕ → List ℕ → WebsocketCodec → WebsocketCodec
accepted o uri host key c = record c {
  conn = send (switching_text (get_sec_websocket_accept o key) o.gmt_date) c.conn;
  host = host;
  request_uri = uri;
  state = except_frame_head;
}

abbrev accepting : Outside → List ℕ → List ℕ → HttpReq → WebsocketCodec → Result WebsocketCodec
accepting o host key r c =
    Resp.to_string o.gmt_date (switching_resp (get_sec_websocket_accept o key)) >>= λ text.
    ok (record (accepted o r.request_uri host key c) { conn = send text c.conn })

accept_lem :
    (o : Outside) (r : HttpReq) (host key : List ℕ) (c : WebsocketCodec)
    → get_header (codes "Host") r ≡ some host
    → get_header (codes "Sec-WebSocket-Key") r ≡ some key
    → accept o r c ≡ ok (accepted o r.request_uri host key c)
unfolding accept switching_resp get_sec_websocket_accept
accept_lem o r host key c h k =
    ap₂ (λ x y. accepting o (or_empty x) (or_empty y) r c) h k
    ∙ ap
        (λ t. t >>= λ text.
          ok (record (accepted o r.request_uri host key c) { conn = send text c.conn }))
        (to_string-switching_resp (get_sec_websocket_accept o key) o.gmt_date)

refuse_lem :
    (o : Outside) (c : WebsocketCodec)
    → refuse o c
      ≡ ok (record c { conn = shutdown o.shutdown_ok (send (refusal_text o.gmt_date) c.conn) })
unfolding refuse
refuse_lem o c = rw (refusal_lem o.gmt_date)

-- A codec that waits for the handshake and whose buffer holds a whole request, that is by GET and of
-- HTTP/1.1, with a URI without space and with clean header lines among which are those of an upgrade, and
-- with a body of 2 MiB at most: one call of `Decode` returns no request, sends `101 Switching Protocols`
-- with the value computed from the client's key, keeps the host and the URI, leaves nothing in the buffer,
-- and waits for frames.
pub hand_shake_accepts :
    (o : Outside) (uri : List ℕ) (fs : Fields) (body : List ℕ) (c : WebsocketCodec)
    (up : Upgrade fs)
    → c.state ≡ except_handshake
    → Absent sp uri
    → CleanFields fs
    → length body ≤ 2 * 1024 * 1024
    → Receives (request_line (codes "GET") uri http11 (header_text fs body)) c
    → (b : Buffer) × (decode o c ≡ ok (none, accepted o uri up.host up.key (set_recv b c)))
      × IsValid b
      × (to_string b ≡ [])
hand_shake_accepts o uri fs body c up s no_space clean small r =
    let req = request_of get uri http11 fs body in
    let (b, decoded, valid, nothing) =
      decode_ready o.moved_http get (codes "GET") uri http11 fs body
        (new_decoder c.conn.recv_buffer) (unfold method_string in refl) no_space clean small
        (record { start = refl; no_headers = refl; no_body = refl; whole = refl })
        (record { valid = r.valid; unread = r.unread }) in
    (
      b,
      decode_shakes o c s
          ∙ ap (λ x. x >>= λ c'. ok (none, c'))
              (hand_shake_request o c req _ decoded
                ∙ ap (λ t. if t then refuse o (set_recv b c) else accept o req (set_recv b c))
                    (is_refused-Upgrade get uri http11 fs body refl refl up)
                ∙ accept_lem o req up.host up.key (set_recv b c)
                    (get_header-request_of (codes "Host") get uri http11 fs body ∙ up.has_host)
                    (get_header-request_of (codes "Sec-WebSocket-Key") get uri http11 fs body
                      ∙ up.has_key)),
      valid,
      nothing,
    )

-- What `refuse` leaves.
abbrev pub refused : Outside → WebsocketCodec → WebsocketCodec
refused o c = record c { conn = shutdown o.shutdown_ok (send (refusal_text o.gmt_date) c.conn) }

-- A whole request with a method of the tables, a URI without space, clean header lines, and a body of 2
-- MiB at most, that is not by GET or of HTTP/1.0 or that lacks one of the five header lines: one call of
-- `Decode` returns no request, hands `400 Bad Request` to the connection, shuts it down, and waits for a
-- handshake still; whatever events follow, the client gets no byte of the refusal.
pub hand_shake_refuses :
    (o : Outside) (m : Method) (s uri : List ℕ) (v : HttpVersion) (fs : Fields) (body : List ℕ)
    (c : WebsocketCodec)
    → Refused m v fs
    → c.state ≡ except_handshake
    → method_string m ≡ some s
    → Absent sp uri
    → CleanFields fs
    → length body ≤ 2 * 1024 * 1024
    → Receives (request_line s uri v (header_text fs body)) c
    → (b : Buffer) × (decode o c ≡ ok (none, refused o (set_recv b c)))
      × ((refused o (set_recv b c)).state ≡ except_handshake)
      × ((es : List Event)
          → (run es (refused o (set_recv b c)).conn).kernel_out ≡ c.conn.kernel_out)
unfolding run step
hand_shake_refuses o m s uri v fs body c bad start named no_space clean small r =
    let req = request_of m uri v fs body in
    let (b, decoded, valid, nothing) =
      decode_ready o.moved_http m s uri v fs body (new_decoder c.conn.recv_buffer) named no_space
        clean small (record { start = refl; no_headers = refl; no_body = refl; whole = refl })
        (record { valid = r.valid; unread = r.unread }) in
    (
      b,
      decode_shakes o c start
          ∙ ap (λ x. x >>= λ c'. ok (none, c'))
              (hand_shake_request o c req _ decoded
                ∙ ap (λ t. if t then refuse o (set_recv b c) else accept o req (set_recv b c))
                    (is_refused-Refused m uri v fs body bad)
                ∙ refuse_lem o (set_recv b c)),
      start,
      λ es. send_shutdown_lost (refusal_text o.gmt_date) o.shutdown_ok es (set_recv b c).conn,
    )
