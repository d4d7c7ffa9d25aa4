-- ===== src/Server/Http.antt =====
-- src/proto/http/HttpServer.cc: the server's functions for one client.
use jerry.Base.{ℕ, ◌*◌, Bool, false, List, Option, none, some, if◌then◌else◌}
use jerry.Base.Result.{Result, ok, fault, bad_cast, ◌>>=◌}
use jerry.Conn.{Conn, send, shutdown, on_channel_readable}
use jerry.Http.Req.{HttpReq}
use jerry.Http.Resp.{HttpResp, empty_resp, to_string}
use jerry.Http.Decoder.{HttpReqDecoder, new_decoder, set_body_max_bytes, decode}
use jerry.Server.{Handlers, on_data_received_by, is_received}

-- The connection with its codec; the decoder's buffer is the receive buffer of the connection.
pub record HttpClient : Type 0 where
  pub conn : Conn
  pub codec : Option HttpReqDecoder

-- What the server is given: the user's functions, what a moved-from request holds, the date, and the
-- answers of the limiter.
pub record HttpUser : Type 0 where
  pub on_connected : Conn → Conn
  pub on_request : HttpReq → HttpResp → Conn → HttpResp × Conn
  pub moved : HttpReq → HttpReq
  pub date : List ℕ
  pub is_limited : Conn → Bool
  pub is_shut_down : Bool

-- `OnTcpConnected`
unfoldable pub on_tcp_connected : HttpUser → HttpClient → HttpClient
unfolding set_body_max_bytes
on_tcp_connected u a = record {
  codec = some (set_body_max_bytes (4 * 1024 * 1024) (new_decoder a.conn.recv_buffer));
  conn = u.on_connected a.conn;
}

-- `GetDecoder`
abbrev pub get_decoder : HttpClient → Result HttpReqDecoder
get_decoder a = elim a.codec [
  | none ↦ fault bad_cast
  | some d ↦ ok (record d { buffer = a.conn.recv_buffer })
]

abbrev pub put_decoder : HttpReqDecoder → HttpClient → HttpClient
put_decoder d a = record a { codec = some d; conn = record a.conn { recv_buffer = d.buffer } }

unfoldable pub answer : HttpUser → HttpClient → Option HttpReq × HttpReqDecoder → Result HttpClient
answer u a (none, d) = ok (put_decoder d a)
answer u a (some req, d) =
    let a' = put_decoder d a in
    let (resp, conn) = u.on_request req empty_resp a'.conn in
    to_string u.date resp >>= λ text. ok (record a' { conn = send text conn })

-- `OnTcpReceivedData`
unfoldable pub on_tcp_received_data : HttpUser → HttpClient → Result HttpClient
unfolding answer
on_tcp_received_data u a = get_decoder a >>= λ d. decode u.moved d >>= answer u a

unfoldable pub handlers : HttpUser → Handlers HttpClient
handlers u = record {
  reach_connection_limits = λ a. u.is_limited a.conn;
  reach_qps_limits = λ a. false;
  shut_down = λ a. record a { conn = shutdown u.is_shut_down a.conn };
  on_tcp_connected = on_tcp_connected u;
  on_tcp_received_data = on_tcp_received_data u;
}

-- The channel is readable: the connection's handler, and then the server's callback if it was called.
unfoldable pub on_readable :
    HttpUser → (ℕ → Option (List ℕ)) → Bool → Bool → HttpClient → Result HttpClient
unfolding on_data_received_by handlers is_received
on_readable u read retry done a =
    let conn = on_channel_readable read retry done a.conn in
    let a' : HttpClient = record a { conn = conn } in
    if is_received a.conn.calls conn.calls then on_data_received_by (handlers u) a' else ok a'
