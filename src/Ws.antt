-- ===== src/Ws.antt =====
-- src/proto/ws: frames, and the codec of a WebSocket connection.
pub mod Frame
pub mod Resp
pub mod Codec
pub mod Unmask
pub mod Payload
pub mod Head
pub mod Rounds
pub mod RoundTrip
pub mod Handshake
pub mod Encode
pub mod Enough
pub mod Tests
