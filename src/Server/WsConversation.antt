-- ===== src/Server/WsConversation.antt =====
-- A whole conversation with one client of src/proto/ws/WebsocketServer.cc, from its handshake on.
use jerry.Base.{
  ℕ, ◌*◌, ◌≤◌, ◌≡◌, ◌∙◌, refl, sym, ap, subst, false, List, [], ◌∷◌, ◌++◌, Option, length, arith,
  Absent, codes,
}
use jerry.Base.Result.{ok}
use jerry.Buffer.{to_string}
use jerry.Buffer.Valid.{init-IsValid}
use jerry.Buffer.Socket.{extra_size}
use jerry.Conn.{open_conn, run}
use jerry.Conn.Awake.{open_conn-Inv}
use jerry.Conn.Delivery.{stream}
use jerry.Conn.Drain.{TakesSome, writables, run_drains}
use jerry.Http.Req.{http11}
use jerry.Http.Decoder.{sp}
use jerry.Http.Decoder.RequestLine.{request_line}
use jerry.Http.Decoder.HeaderLines.{Fields, CleanFields, header_text}
use jerry.Ws.Codec.{WebsocketCodec, Outside, new_codec, get_sec_websocket_accept, set_recv}
use jerry.Ws.Handshake.{Upgrade, switching_text, accepted, hand_shake_accepts}
use jerry.Server.Answers.{empty_init}
use jerry.Server.Reads.{gives, has_read, stream-has_read}
use jerry.Server.Replies.{stream-send}
use jerry.Server.Frames.{Plain, Live, has_read-Live, send-Live, read_lem, waits_lem}
use jerry.Server.Phases.{between, Step}
use jerry.Server.Ws.{WsUser, on_tcp_connected, on_readable}
use jerry.Server.Talk.{Talk, run_reads, run-Talk, Runs-Step}

-- A plain connection that the server has just accepted.
abbrev pub new_client : WsUser → WebsocketCodec
new_client u = on_tcp_connected u (open_conn false)

open_conn-Live : Live (open_conn false)
unfolding open_conn
open_conn-Live = record {
  on = refl;
  unencrypted = refl;
  inv = open_conn-Inv false;
  valid = init-IsValid 1024;
  unread = empty_init;
}

stream-open_conn : stream (open_conn false) ≡ []
unfolding stream open_conn
stream-open_conn = empty_init

-- The read of the handshake.
shakes-Step :
    (o : Outside) (u : WsUser) (uri : List ℕ) (fs : Fields) (body : List ℕ) (c : WebsocketCodec)
    (up : Upgrade fs)
    → c ≡ new_codec (open_conn false)
    → Absent sp uri
    → CleanFields fs
    → length body ≤ 2 * 1024 * 1024
    → length (request_line (codes "GET") uri http11 (header_text fs body)) ≤ extra_size
    → Step up.host uri between (switching_text (get_sec_websocket_accept o up.key) o.gmt_date) c (
        on_readable o u
          (gives (request_line (codes "GET") uri http11 (header_text fs body)))
          false
          false
          c)
shakes-Step o u uri fs body c up new no_space clean small fits =
    let q = request_line (codes "GET") uri http11 (header_text fs body) in
    let text = switching_text (get_sec_websocket_accept o up.key) o.gmt_date in
    let l = subst (λ (x : WebsocketCodec). Live x.conn) (sym new) open_conn-Live in
    let (b, called, r) = read_lem o u q c l (omega arith) fits in
    let c0 : WebsocketCodec = record c { conn = has_read b c.conn } in
    let (b', decoded, valid, nothing) =
      hand_shake_accepts o uri fs body c0 up (ap (λ (x : WebsocketCodec). x.state) new) no_space
        clean small r in
    let l' = has_read-Live c.conn b' l valid nothing in
    record {
      next = accepted o uri up.host up.key (set_recv b' c0);
      result = called ∙ waits_lem o u c0 _ decoded;
      stands = (
        refl,
        ap (λ (x : WebsocketCodec). x.req.payload) new,
        ap (λ (x : WebsocketCodec). x.last_read_idx) new,
        refl,
        refl,
      );
      live = send-Live text (has_read b' c.conn) l';
      sent =
          (stream-send text (has_read b' c.conn) l'.inv l'.on).0
          ∙ ap (λ l. l ++ text) (stream-has_read b' c.conn);
    }

-- The server implements the WebSocket protocol, as `Talk` states it: over a plain connection that it has
-- just accepted, a client whose upgrade request (by GET, of HTTP/1.1, with the five header lines) comes in
-- one read, and whose frames come one after the other, each whole or cut behind its head into any number of
-- reads, gets `101 Switching Protocols` with the value for its key and then one frame for each of its own
-- in order, whole and nothing else, when its socket is then writable often enough. The user answers each
-- request with a payload whose head is sent whole and leaves the connection alone, and each `write` of one
-- byte or more takes at least one.
pub ws_serves :
    (o : Outside) (u : WsUser) (plain : Plain o u) (uri : List ℕ) (fs : Fields) (body : List ℕ)
    (up : Upgrade fs) (qs : List (List ℕ)) (out : List ℕ) (write : List ℕ → Option ℕ)
    → Absent sp uri
    → CleanFields fs
    → length body ≤ 2 * 1024 * 1024
    → length (request_line (codes "GET") uri http11 (header_text fs body)) ≤ extra_size
    → Talk plain.respond up.host uri between qs out
    → TakesSome write
    → (c : WebsocketCodec) × (run_reads o u
          (request_line (codes "GET") uri http11 (header_text fs body) ∷ qs)
          (new_client u)
        ≡ ok c)
      × ((run (writables write (length (to_string c.conn.send_buffer))) c.conn).kernel_out
          ≡ switching_text (get_sec_websocket_accept o up.key) o.gmt_date ++ out)
unfolding stream on_tcp_connected
ws_serves o u plain uri fs body up qs out write no_space clean small fits talk takes =
    let c = new_client u in
    let text = switching_text (get_sec_websocket_accept o up.key) o.gmt_date in
    let new : c ≡ new_codec (open_conn false) = ap new_codec (plain.quiet (open_conn false)) in
    let t = shakes-Step o u uri fs body c up new no_space clean small fits in
    let r =
      Runs-Step o u plain up.host uri between
        (request_line (codes "GET") uri http11 (header_text fs body)) qs text out c t
        (run-Talk o u plain up.host uri between qs out t.next t.live t.stands talk) in
    let (_, _, drained) =
      run_drains write (length (to_string r.last.conn.send_buffer)) r.last.conn takes r.live.inv
        r.live.on r.live.unencrypted (omega arith) in
    (
      r.last,
      r.result,
      drained
          ∙ r.sent
          ∙ ap (λ l. l ++ (text ++ out))
              (ap (λ (x : WebsocketCodec). stream x.conn) new ∙ stream-open_conn),
    )
