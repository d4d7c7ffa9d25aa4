-- ===== src/Server/Ws.antt =====
-- src/proto/ws/WebsocketServer.cc: the server's functions for one client, whose connection the codec holds.
use jerry.Base.{ℕ, Bool, false, List, Option, none, some, if◌then◌else◌}
use jerry.Base.Result.{Result, ok, ◌>>=◌}
use jerry.Conn.{Conn, send, shutdown, on_channel_readable}
use jerry.Ws.Codec.{WsReq, WebsocketCodec, Outside, new_codec, decode}
use jerry.Ws.Frame.{text_frame, encode_frame_head}
use jerry.Ws.Resp.{WsResp, empty_resp}
use jerry.Server.{Handlers, on_data_received_by, is_received}

-- The user's functions.
pub record WsUser : Type 0 where
  pub on_connected : Conn → Conn
  pub on_request : WsReq → WsResp → Conn → WsResp × Conn
  -- the answers of the limiter
  pub is_limited : Conn → Bool

-- `OnTcpConnected`
unfoldable pub on_tcp_connected : WsUser → Conn → WebsocketCodec
on_tcp_connected u conn = new_codec (u.on_connected conn)

abbrev pub send_on : List ℕ → WebsocketCodec → WebsocketCodec
send_on xs c = record c { conn = send xs c.conn }

unfoldable pub answer : WsUser → Option WsReq × WebsocketCodec → Result WebsocketCodec
answer u (none, c) = ok c
answer u (some req, c) =
    let (resp, conn) = u.on_request req empty_resp c.conn in
    ok (
      send_on resp.payload
        (send_on (encode_frame_head resp.payload text_frame) (record c { conn = conn })))

-- `OnTcpReceivedData`
unfoldable pub on_tcp_received_data : Outside → WsUser → WebsocketCodec → Result WebsocketCodec
unfolding answer
on_tcp_received_data o u c = decode o c >>= answer u

-- The server's functions for a client, for the callbacks of `Serve`.
unfoldable pub handlers : Outside → WsUser → Handlers WebsocketCodec
handlers o u = record {
  reach_connection_limits = λ c. u.is_limited c.conn;
  reach_qps_limits = λ c. false;
  shut_down = λ c. record c { conn = shutdown o.shutdown_ok c.conn };
  on_tcp_connected = λ c. on_tcp_connected u c.conn;
  on_tcp_received_data = on_tcp_received_data o u;
}

-- The channel is readable: the connection's handler, and then the server's callback if it was called.
unfoldable pub on_readable :
    Outside → WsUser → (ℕ → Option (List ℕ)) → Bool → Bool → WebsocketCodec → Result WebsocketCodec
unfolding on_data_received_by handlers is_received
on_readable o u read retry done c =
    let conn = on_channel_readable read retry done c.conn in
    let c' : WebsocketCodec = record c { conn = conn } in
    if is_received c.conn.calls conn.calls then on_data_received_by (handlers o u) c' else ok c'
