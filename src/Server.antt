-- ===== src/Server.antt =====
-- The callbacks that src/net/TcpServer.cc gives each connection in `Serve`, which src/proto/http and
-- src/proto/ws override. The channel's handler calls back last, so the callback works on the connection
-- that the handler leaves.
pub mod Http
pub mod Ws
pub mod Answers
pub mod Replies
pub mod Reads
pub mod Stages
pub mod Parts
pub mod Frames
pub mod Phases
pub mod FrameSteps
pub mod Talk
pub mod WsConversation
pub mod Conversation
pub mod Lifetime
mod Tests
mod WsTests
use jerry.Base.{◌≡◌, Bool, true, false, ◌&&◌, List, [], ◌∷◌, length, ◌==◌, if◌then◌else◌}
use jerry.Base.Result.{Result, ok}
use jerry.Buffer.{drop_all_bytes}
use jerry.Conn.{Conn, Call, on_data_received, on_disconnected, send_fin, shutdown}

abbrev pub is_data : Call → Bool
is_data on_data_received = true
is_data on_disconnected = false
is_data send_fin = false

-- Whether a handler called `OnDataReceived`, by the calls before and after it.
unfoldable pub is_received : List Call → List Call → Bool
is_received before [] = false
is_received before (x ∷ after) = is_data x && (length after == length before)

-- What the server does for a client `A` with its connection: its limiter's answers, how `shutdown` ends,
-- and the overridden functions.
pub record Handlers (A : Type 0) : Type 0 where
  pub reach_connection_limits : A → Bool
  pub reach_qps_limits : A → Bool
  pub shut_down : A → A
  pub on_tcp_connected : A → A
  pub on_tcp_received_data : A → Result A

-- `callback.OnConnected` and `callback.OnDataReceived` of `Serve`.
unfoldable pub on_connected : {A : Type 0} → Handlers A → A → A
on_connected h a = if h.reach_connection_limits a then h.shut_down a else h.on_tcp_connected a

unfoldable pub on_data_received_by : {A : Type 0} → Handlers A → A → Result A
on_data_received_by h a =
    if h.reach_qps_limits a then ok (h.shut_down a) else h.on_tcp_received_data a

-- `TcpServer::OnTcpReceivedData`, if it is not overridden.
unfoldable pub drop_received : Conn → Conn
drop_received c = record c { recv_buffer = drop_all_bytes c.recv_buffer }
