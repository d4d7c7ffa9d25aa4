-- ===== src/Ws/Codec.antt =====
-- src/proto/ws/WebsocketCodec.h and WebsocketCodec.cc: handshake and frames of one connection. The
-- conversions that only SHA-1 and Base64 make, the current date, the result of `shutdown` and what
-- `std::move` leaves of a request are parameters.
use jerry.Base.{
  ℕ, zero, suc, ◌+◌, ◌-◌, Bool, true, false, ◌||◌, List, [], ◌∷◌, ◌++◌, Option, none, some, length,
  take, drop, min, leb, ltb, ◌==◌, get_or, if◌then◌else◌, codes,
}
use jerry.Base.Result.{Result, ok, fault, bad_access, out_of_fuel, ◌>>=◌}
use jerry.Buffer.{Buffer, overwrite, to_string, readable_bytes, drop_bytes, drop_all_bytes}
use jerry.Conn.{Conn, send, shutdown}
use jerry.Http.Decoder.{new_decoder, decode as http_decode}
use jerry.Http.Req.{HttpReq, Method, get, HttpVersion, http10, http11, get_header}
use jerry.Http.Resp.{empty_resp, set_status, add_header, to_string as resp_string}
use jerry.Ws.Frame.{
  close_frame, opcode_of, length_of, mask_of, big_endian, encode_frame_head, unmask,
}

-- `WsReq`; the frame type is the number of the opcode.
pub record WsReq : Type 0 where
  pub type : ℕ
  pub payload : List ℕ
  pub host : List ℕ
  pub request_uri : List ℕ

pub data State : Type 0 where
  except_handshake except_frame_head except_payload parse_finished : State

pub record WebsocketCodec : Type 0 where
  pub req : WsReq
  pub request_uri : List ℕ
  pub host : List ℕ
  -- the four bytes in memory
  pub mask_key : List ℕ
  pub payload_remains : ℕ
  pub last_read_idx : ℕ
  pub state : State
  pub conn : Conn

abbrev pub new_codec : Conn → WebsocketCodec
new_codec c = record {
  req = record { type = 0; payload = []; host = []; request_uri = [] };
  request_uri = [];
  host = [];
  mask_key = 0 ∷ 0 ∷ 0 ∷ 0 ∷ [];
  payload_remains = 0;
  last_read_idx = 0;
  state = except_handshake;
  conn = c;
}

pub record Outside : Type 0 where
  -- the 20 bytes that `SHA1::Result` writes
  pub sha1 : List ℕ → List ℕ
  pub base64_encode : List ℕ → List ℕ
  pub gmt_date : List ℕ
  pub shutdown_ok : Bool
  pub moved_http : HttpReq → HttpReq
  pub moved : WsReq → WsReq

-- The `n` bytes from `BeginOfReadable() + i` on, unread or not.
unfoldable pub bytes_at : ℕ → ℕ → Buffer → Result (List ℕ)
bytes_at i n b =
    let s = drop (b.read_idx + i) b.storage in
    if leb n (length s) then ok (take n s) else fault bad_access

abbrev pub set_recv : Buffer → WebsocketCodec → WebsocketCodec
set_recv b c = record c { conn = record (c.conn) { recv_buffer = b } }

-- The frame is announced: `n` bytes of head are dropped.
abbrev pub begin_payload : ℕ → ℕ → ℕ → List ℕ → WebsocketCodec → WebsocketCodec
begin_payload n opcode remains key c = record c {
  payload_remains = remains;
  mask_key = key;
  conn = record (c.conn) { recv_buffer = drop_bytes n c.conn.recv_buffer };
  req = record (c.req) { type = opcode; host = c.host; request_uri = c.request_uri };
  state = except_payload;
}

-- The three forms of the length.
unfoldable pub read_length : ℕ → ℕ → WebsocketCodec → Result WebsocketCodec
read_length opcode len c =
    let b = c.conn.recv_buffer in
    if ltb len 126
    then (bytes_at 2 4 b >>= λ key. ok (begin_payload 6 opcode len key c))
    else if len == 126
    then (bytes_at 2 2 b >>= λ size.
        bytes_at 4 4 b >>= λ key. ok (begin_payload 8 opcode (big_endian 0 size) key c))
    else bytes_at 2 8 b >>= λ size.
        bytes_at 10 4 b >>= λ key. ok (begin_payload 14 opcode (big_endian 0 size) key c)

-- The answer to a frame that closes, or that is not masked.
unfoldable pub close : Outside → WebsocketCodec → WebsocketCodec
close o c =
    let conn : Conn = record (c.conn) { recv_buffer = drop_all_bytes c.conn.recv_buffer } in
    record c { conn = shutdown o.shutdown_ok (send (encode_frame_head [] close_frame) conn) }

unfoldable pub decode_frame_head : Outside → WebsocketCodec → Result (Bool × WebsocketCodec)
unfolding read_length
decode_frame_head o c = bytes_at 0 2 c.conn.recv_buffer >>= λ head.
    let b0 = get_or head 0 0 in
    let b1 = get_or head 1 0 in
    if (mask_of b1 == 0) || (opcode_of b0 == close_frame)
    then ok (false, close o c)
    else (read_length (opcode_of b0) (length_of b1) c >>= λ c'. ok (true, c'))

-- The bytes at hand are unmasked in place, appended to the request and dropped.
unfoldable pub take_payload : ℕ → WebsocketCodec → WebsocketCodec
take_payload size c =
    let b = c.conn.recv_buffer in
    let xs = unmask c.mask_key c.last_read_idx (take size (to_string b)) in
    record c {
      payload_remains = c.payload_remains - size;
      last_read_idx = c.last_read_idx + size;
      req = record (c.req) { payload = c.req.payload ++ xs };
      conn = record (c.conn) {
        recv_buffer = drop_bytes size (record b { storage = overwrite b.storage b.read_idx xs });
      };
    }

unfoldable pub finish_payload : WebsocketCodec → Bool × WebsocketCodec
finish_payload c =
    if c.payload_remains == 0
    then (true, record c { last_read_idx = 0; state = parse_finished })
    else (false, c)

unfoldable pub decode_payload : WebsocketCodec → Bool × WebsocketCodec
unfolding finish_payload
decode_payload c =
    finish_payload (take_payload (min (readable_bytes c.conn.recv_buffer) c.payload_remains) c)

-- Each word of the digest, byte by byte the other way round.
unfoldable pub swap_words : List ℕ → List ℕ
swap_words [] = []
swap_words (a ∷ []) = a ∷ []
swap_words (a ∷ b ∷ []) = a ∷ b ∷ []
swap_words (a ∷ b ∷ c ∷ []) = a ∷ b ∷ c ∷ []
swap_words (a ∷ b ∷ c ∷ d ∷ r) = d ∷ c ∷ b ∷ a ∷ swap_words r

abbrev pub magic_key : List ℕ
magic_key = codes "258EAFA5-E914-47DA-95CA-C5AB0DC85B11"

unfoldable pub get_sec_websocket_accept : Outside → List ℕ → List ℕ
unfolding swap_words
get_sec_websocket_accept o sec_key = o.base64_encode (swap_words (o.sha1 (sec_key ++ magic_key)))

abbrev lacks : List ℕ → HttpReq → Bool
lacks name r = elim (get_header name r) [ none ↦ true | some v ↦ false ]

abbrev is_get : Method → Bool
is_get get = true
is_get _ = false

abbrev is_http10 : HttpVersion → Bool
is_http10 http10 = true
is_http10 http11 = false

unfoldable pub is_refused : HttpReq → Bool
is_refused r =
    (if is_get r.method then false else true)
    || (is_http10 r.version
        || (lacks (codes "Host") r
            || (lacks (codes "Upgrade") r
                || (lacks (codes "Connection") r
                    || (lacks (codes "Sec-WebSocket-Version") r
                        || lacks (codes "Sec-WebSocket-Key") r)))))

abbrev pub or_empty : Option (List ℕ) → List ℕ
or_empty none = []
or_empty (some s) = s

unfoldable pub refuse : Outside → WebsocketCodec → Result WebsocketCodec
refuse o c = resp_string o.gmt_date (set_status 400 empty_resp) >>= λ text.
    ok (record c { conn = shutdown o.shutdown_ok (send text c.conn) })

unfoldable pub accept : Outside → HttpReq → WebsocketCodec → Result WebsocketCodec
unfolding get_sec_websocket_accept
accept o r c =
    let key = get_sec_websocket_accept o (or_empty (get_header (codes "Sec-WebSocket-Key") r)) in
    let resp = add_header (codes "Sec-WebSocket-Accept") key false (
      add_header (codes "Connection") (codes "Upgrade") false
        (add_header (codes "Upgrade") (codes "WebSocket") false (set_status 101 empty_resp))) in
    resp_string o.gmt_date resp >>= λ text. ok (record c {
      conn = send text c.conn;
      host = or_empty (get_header (codes "Host") r);
      request_uri = r.request_uri;
      state = except_frame_head;
    })

-- The HTTP decoder is made anew for each call.
unfoldable pub hand_shake : Outside → WebsocketCodec → Result WebsocketCodec
hand_shake o c = http_decode o.moved_http (new_decoder c.conn.recv_buffer) >>= λ r.
    let c' = set_recv ((r.1).buffer) c in
    elim (r.0) [ none ↦ ok c' | some req ↦ if is_refused req then refuse o c' else accept o req c' ]

-- `Decode`. From every state it takes three rounds at most.
unfoldable pub decode_loop : Outside → ℕ → WebsocketCodec → Result (Option WsReq × WebsocketCodec)
decode_loop o zero c = fault out_of_fuel
decode_loop o (suc fuel) c =
    let next : Bool × WebsocketCodec → Result (Option WsReq × WebsocketCodec) =
      λ r. elim (r.0) [ true ↦ decode_loop o fuel r.1 | false ↦ ok (none, r.1) ] in
    elim c.state [
      | except_handshake ↦ hand_shake o c >>= λ c'. ok (none, c')
      | except_frame_head ↦ decode_frame_head o c >>= next
      | except_payload ↦ next (decode_payload c)
      | parse_finished ↦
          ok (some c.req, record c { state = except_frame_head; req = o.moved c.req })
    ]

unfoldable pub decode : Outside → WebsocketCodec → Result (Option WsReq × WebsocketCodec)
unfolding decode_loop
decode o c = decode_loop o 3 c
