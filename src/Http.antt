-- ===== src/Http.antt =====
-- src/proto/http: requests, their decoder, and responses.
pub mod Req
pub mod Headers
pub mod Decoder
pub mod Resp
pub mod RespLines
mod Tests
