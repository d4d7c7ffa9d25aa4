-- ===== src/Server/Answers.antt =====
-- What the callbacks of src/proto/http/HttpServer.cc do when a connection has read some bytes.
use jerry.Base.{
  ℕ, ◌<◌, ◌≡◌, ◌∙◌, refl, ap, Bool, true, false, List, [], ◌∷◌, Option, none, some, arith,
}
use jerry.Base.Result.{ok, ◌>>=◌}
use jerry.Buffer.{Buffer, init, to_string}
use jerry.Buffer.Socket.{read_bytes_from_fd}
use jerry.Conn.{
  Conn, Call, connected, open_conn, send, on_channel_readable, read_plain, after_fd_read,
  on_data_received,
}
use jerry.Http.Req.{HttpReq}
use jerry.Http.Resp
use jerry.Http.Resp.{HttpResp, empty_resp}
use jerry.Http.Decoder.{HttpReqDecoder, decode}
use jerry.Server.{is_received, on_data_received_by}
use jerry.Server.Http.{
  HttpClient, HttpUser, on_tcp_connected, on_tcp_received_data, handlers, answer, on_readable,
  get_decoder, put_decoder,
}

-- A plain connection that the server has just accepted, whose user does nothing when a client connects.
abbrev pub new_client : HttpUser → HttpClient
new_client u = on_tcp_connected u (record { conn = open_conn false; codec = none })

-- A plain connection that reads some bytes calls the server back.
pub readable_lem :
    (read : ℕ → Option (List ℕ)) (retry done : Bool) (k : ℕ) (c : Conn)
    → c.state ≡ connected
    → c.encrypted ≡ false
    → 0 < k
    → (read_bytes_from_fd read c.recv_buffer).0 ≡ some k
    → on_channel_readable read retry done c ≡ record c {
      recv_buffer = (read_bytes_from_fd read c.recv_buffer).1;
      calls = on_data_received ∷ c.calls;
    }
unfolding on_channel_readable read_plain after_fd_read
readable_lem read retry done k c on plain pos e = ground (arith, on, plain, e)

get_decoder_lem :
    (a : HttpClient) (d : HttpReqDecoder)
    → a.codec ≡ some d
    → get_decoder a ≡ ok (record d { buffer = a.conn.recv_buffer })
get_decoder_lem a d e = ground (arith, e)

answer-some :
    (u : HttpUser) (a : HttpClient) (d : HttpReqDecoder) (req : HttpReq) (resp : HttpResp)
    (text : List ℕ)
    → u.on_request req empty_resp (put_decoder d a).conn ≡ (resp, (put_decoder d a).conn)
    → Resp.to_string u.date resp ≡ ok text
    → answer u a (some req, d)
      ≡ ok (record { codec = some d; conn = send text (put_decoder d a).conn })
unfolding answer
answer-some u a d req resp text answers printed = simp (answers, printed) refl

-- The callback where the decoder waits.
pub waits_lem :
    (u : HttpUser) (a : HttpClient) (d d' : HttpReqDecoder)
    → a.codec ≡ some d
    → decode u.moved (record d { buffer = a.conn.recv_buffer }) ≡ ok (none, d')
    → on_tcp_received_data u a
      ≡ ok (record { codec = some d'; conn = record a.conn { recv_buffer = d'.buffer } })
unfolding on_tcp_received_data answer
waits_lem u a d d' has_codec decoded =
    ap (λ r. r >>= λ d. decode u.moved d >>= answer u a) (get_decoder_lem a d has_codec)
    ∙ ap (λ r. r >>= answer u a) decoded

-- The callback for a request that the decoder takes from the buffer.
pub answer_lem :
    (u : HttpUser) (a : HttpClient) (d d' : HttpReqDecoder) (req : HttpReq) (resp : HttpResp)
    (text : List ℕ)
    → a.codec ≡ some d
    → decode u.moved (record d { buffer = a.conn.recv_buffer }) ≡ ok (some req, d')
    → ((c : Conn) → u.on_request req empty_resp c ≡ (resp, c))
    → Resp.to_string u.date resp ≡ ok text
    → on_tcp_received_data u a
      ≡ ok
          (record { codec = some d'; conn = send text (record a.conn { recv_buffer = d'.buffer }) })
unfolding on_tcp_received_data
answer_lem u a d d' req resp text has_codec decoded answers printed =
    ap (λ r. r >>= λ d. decode u.moved d >>= answer u a) (get_decoder_lem a d has_codec)
    ∙ ap (λ r. r >>= answer u a) decoded
    ∙ answer-some u a d' req resp text (answers (put_decoder d' a).conn) printed

pub received_lem : (calls : List Call) → is_received calls (on_data_received ∷ calls) ≡ true
unfolding is_received
received_lem calls = ground arith

pub on_readable_lem :
    (u : HttpUser) (read : ℕ → Option (List ℕ)) (retry done : Bool) (a : HttpClient) (b : Buffer)
    → on_channel_readable read retry done a.conn
      ≡ record a.conn { recv_buffer = b; calls = on_data_received ∷ a.conn.calls }
    → on_readable u read retry done a
      ≡ on_tcp_received_data u (record a {
        conn = record a.conn { recv_buffer = b; calls = on_data_received ∷ a.conn.calls };
      })
unfolding on_readable on_data_received_by handlers
on_readable_lem u read retry done a b e = simp (e, received_lem a.conn.calls) refl

pub empty_init : to_string (init 1024) ≡ []
unfolding to_string init
empty_init = refl
