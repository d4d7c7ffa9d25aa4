-- ===== src/Server/Stages.antt =====
-- Where a client of src/proto/http/HttpServer.cc stands between two reads, and what a call of `Decode` makes
-- of it.
use jerry.Base.{
  ℕ, ◌*◌, ◌≤◌, ◌<◌, ◌≡◌, ◌∙◌, refl, sym, ap, subst, false, List, [], ◌++◌, none, some, length,
  append-nil,
}
use jerry.Base.Result.{Result, ok}
use jerry.Buffer.{Buffer, to_string}
use jerry.Buffer.Valid.{IsValid}
use jerry.Buffer.Socket.{extra_size}
use jerry.Conn.{Conn, connected, send}
use jerry.Conn.Awake.{Inv, send-Inv}
use jerry.Conn.Delivery.{stream}
use jerry.Http.Req.{HttpReq, Method, HttpVersion}
use jerry.Http.Resp
use jerry.Http.Resp.{HttpResp, empty_resp}
use jerry.Http.Decoder.{HttpReqDecoder, decode, expect_headers}
use jerry.Http.Decoder.HeaderLines.{Fields}
use jerry.Http.Decoder.RoundTrip.{Ready}
use jerry.Http.Decoder.HeaderRounds.{reading}
use jerry.Server.Http
use jerry.Server.Http.{HttpClient, HttpUser, on_readable}
use jerry.Server.Answers.{on_readable_lem, answer_lem, waits_lem}
use jerry.Server.Reads.{gives, reads_lem, has_read, has_read-Inv, send-rest, stream-has_read}
use jerry.Server.Replies.{stream-send}

-- A user who leaves the connection alone, and answers a request with a response; and a request that was
-- moved from holds no headers, no body and no mark.
pub record Plain (u : HttpUser) : Type 0 where
  pub respond : HttpReq → HttpResp
  pub quiet : (c : Conn) → u.on_connected c ≡ c
  pub responds : (r : HttpReq) (c : Conn) → u.on_request r empty_resp c ≡ (respond r, c)
  pub headers_moved : (r : HttpReq) → (u.moved r).headers ≡ []
  pub body_moved : (r : HttpReq) → (u.moved r).body ≡ []
  pub mark_moved :
      (r : HttpReq) → r.is_body_truncated ≡ false → (u.moved r).is_body_truncated ≡ false

-- What the decoder has of a request: at most a part of the request line, or the request line, header lines
-- and a part of the next one.
pub data Stage : Type 0 where
  line : (p : List ℕ) → Stage
  lines : (m : Method) (uri : List ℕ) (v : HttpVersion) (fs : Fields) (tail : List ℕ) → Stage

abbrev pub unread_of : Stage → List ℕ
unread_of (line p) = p
unread_of (lines m uri v fs tail) = tail

abbrev pub DecodesAt : Stage → HttpReqDecoder → Type 0
DecodesAt (line p) d = Ready d
DecodesAt (lines m uri v fs tail) d = (d.state ≡ expect_headers) × (d.req ≡ reading m uri v fs)

-- A client whose connection is open, at this stage.
pub record Open (s : Stage) (a : HttpClient) : Type 0 where
  pub decoder : HttpReqDecoder
  pub has_codec : a.codec ≡ some decoder
  pub at : DecodesAt s decoder
  pub limit : decoder.body_max_bytes ≡ 4 * 1024 * 1024
  pub on : a.conn.state ≡ connected
  pub unencrypted : a.conn.encrypted ≡ false
  pub inv : Inv a.conn
  pub valid : IsValid a.conn.recv_buffer
  pub unread : to_string a.conn.recv_buffer ≡ unread_of s

-- What one read comes to.
pub record Step (s : Stage) (out : List ℕ) (a : HttpClient) (r : Result HttpClient) : Type 0 where
  pub next : HttpClient
  pub result : r ≡ ok next
  pub opens : Open s next
  pub sent : stream next.conn ≡ stream a.conn ++ out

-- One read appends its bytes and calls the server back.
pub read_lem :
    (u : HttpUser) (s : Stage) (q : List ℕ) (a : HttpClient)
    → Open s a
    → 0 < length q
    → length q ≤ extra_size
    → (b : Buffer) × (on_readable u (gives q) false false a
        ≡ Http.on_tcp_received_data u (record a { conn = has_read b a.conn }))
      × IsValid b
      × (to_string b ≡ unread_of s ++ q)
read_lem u s q a o pos fits =
    let (b, read, valid, unread) =
      reads_lem (unread_of s) q a.conn o.on o.unencrypted o.valid o.unread pos fits in
    (b, on_readable_lem u (gives q) false false a b read, valid, unread)

-- `Decode` returns no request.
pub waits-Step :
    (u : HttpUser) (s t : Stage) (a : HttpClient) (o : Open s a) (b : Buffer) (d : HttpReqDecoder)
    {r : Result HttpClient}
    → r ≡ Http.on_tcp_received_data u (record a { conn = has_read b a.conn })
    → decode u.moved (record (o.decoder) { buffer = b }) ≡ ok (none, d)
    → DecodesAt t d
    → d.body_max_bytes ≡ 4 * 1024 * 1024
    → IsValid d.buffer
    → to_string d.buffer ≡ unread_of t
    → Step t [] a r
waits-Step u s t a o b d called decoded at limit valid unread = record {
  next = record { codec = some d; conn = has_read d.buffer a.conn };
  result =
      called ∙ waits_lem u (record a { conn = has_read b a.conn }) o.decoder d o.has_codec decoded;
  opens = record {
    decoder = d;
    has_codec = refl;
    at = at;
    limit = limit;
    on = o.on;
    unencrypted = o.unencrypted;
    inv = has_read-Inv a.conn d.buffer o.inv;
    valid = valid;
    unread = unread;
  };
  sent = stream-has_read d.buffer a.conn ∙ sym (append-nil (stream a.conn));
}

-- It returns one, which is answered.
pub answers-Step :
    (u : HttpUser) (plain : Plain u) (s : Stage) (a : HttpClient) (o : Open s a) (b : Buffer)
    (d : HttpReqDecoder) (req : HttpReq) (text : List ℕ) {r : Result HttpClient}
    → r ≡ Http.on_tcp_received_data u (record a { conn = has_read b a.conn })
    → decode u.moved (record (o.decoder) { buffer = b }) ≡ ok (some req, d)
    → Ready d
    → d.body_max_bytes ≡ 4 * 1024 * 1024
    → IsValid d.buffer
    → to_string d.buffer ≡ []
    → Resp.to_string u.date (plain.respond req) ≡ ok text
    → Step (line []) text a r
answers-Step u plain s a o b d req text called decoded ready limit valid unread printed =
    let c = has_read d.buffer a.conn in
    let inv = has_read-Inv a.conn d.buffer o.inv in
    let (sent, still) = stream-send text c inv o.on in
    let kept = send-rest text c in
    record {
      next = record { codec = some d; conn = send text c };
      result =
          called
          ∙ answer_lem u (record a { conn = has_read b a.conn }) o.decoder d req (plain.respond req)
              text o.has_codec decoded (plain.responds req) printed;
      opens = record {
        decoder = d;
        has_codec = refl;
        at = ready;
        limit = limit;
        on = still;
        unencrypted = kept.0 ∙ o.unencrypted;
        inv = send-Inv text c inv;
        valid = subst IsValid (sym kept.1) valid;
        unread = ap to_string kept.1 ∙ unread;
      };
      sent = sent ∙ ap (λ l. l ++ text) (stream-has_read d.buffer a.conn);
    }
