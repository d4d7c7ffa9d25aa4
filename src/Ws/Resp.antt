-- ===== src/Ws/Resp.antt =====
-- src/proto/ws/WsResp.h and WsResp.cc: the payload and the type of a frame to send.
use jerry.Base.{ℕ, List, [], ◌++◌}
use jerry.Ws.Frame.{text_frame}

pub record WsResp : Type 0 where
  pub type : ℕ
  pub payload : List ℕ

abbrev pub empty_resp : WsResp
empty_resp = record { type = text_frame; payload = [] }

abbrev pub set_frame_type : ℕ → WsResp → WsResp
set_frame_type t r = record r { type = t }

abbrev pub append_data : List ℕ → WsResp → WsResp
append_data xs r = record r { payload = r.payload ++ xs }
