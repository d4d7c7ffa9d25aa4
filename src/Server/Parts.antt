-- ===== src/Server/Parts.antt =====
-- One read of a connection of src/proto/http/HttpServer.cc, and what the server does then.
use jerry.Base.{
  ℕ, ◌*◌, ◌≤◌, ◌<◌, ◌≡◌, ◌∙◌, refl, false, List, [], ◌++◌, some, length, arith, Absent,
}
use jerry.Base.Result.{ok}
use jerry.Buffer.{Buffer}
use jerry.Buffer.Socket.{extra_size}
use jerry.Http.Req.{HttpReq, Method, HttpVersion, method_string}
use jerry.Http.Resp
use jerry.Http.Decoder.{HttpReqDecoder, sp, expect_request_line}
use jerry.Http.Decoder.RequestLine.{request_line}
use jerry.Http.Decoder.HeaderLines.{Fields, CleanFields, header_text}
use jerry.Http.Decoder.RoundTrip.{Ready, request_of, decode_ready}
use jerry.Http.Decoder.Pieces.{FirstPart, decode_waits}
use jerry.Http.Decoder.HeaderPieces.{PartOfLine, field_lines}
use jerry.Http.Decoder.HeaderRounds.{lines_begin, lines_come_in, lines_end}
use jerry.Server.Http.{HttpUser, HttpClient, on_readable}
use jerry.Server.Reads.{gives}
use jerry.Server.Stages.{Plain, line, lines, Open, Step, read_lem, waits-Step, answers-Step}

rebuffered : (d : HttpReqDecoder) (b : Buffer) → Ready d → Ready (record d { buffer = b })
rebuffered d b r = record {
  start = r.start;
  no_headers = r.no_headers;
  no_body = r.no_body;
  whole = r.whole;
}

-- The decoder that has just returned a request.
moved-Ready :
    (u : HttpUser)
    → Plain u
    → (req : HttpReq) (d : HttpReqDecoder) (b : Buffer) → req.is_body_truncated ≡ false
    → Ready (record d { req = u.moved req; state = expect_request_line; buffer = b })
moved-Ready u plain req d b whole = record {
  start = refl;
  no_headers = plain.headers_moved req;
  no_body = plain.body_moved req;
  whole = plain.mark_moved req whole;
}

-- The request line is not complete.
pub line_waits-Step :
    (u : HttpUser) (p q : List ℕ) (a : HttpClient)
    → Open (line p) a
    → 0 < length q
    → length q ≤ extra_size
    → FirstPart (p ++ q)
    → Step (line (p ++ q)) [] a (on_readable u (gives q) false false a)
line_waits-Step u p q a o pos fits first =
    let (b, called, valid, unread) = read_lem u (line p) q a o pos fits in
    let d : HttpReqDecoder = record (o.decoder) { buffer = b } in
    let (req, decoded, ready) =
      decode_waits u.moved (p ++ q) d first (rebuffered o.decoder b o.at)
        (record { valid = valid; unread = unread }) in
    waits-Step u (line p) (line (p ++ q)) a o b (record d { req = req }) called decoded ready
      o.limit valid unread

-- It is complete, and a part of the header lines has come in.
pub lines_begin-Step :
    (u : HttpUser) (p q : List ℕ) (m : Method) (s uri : List ℕ) (v : HttpVersion) (gs : Fields)
    (tail : List ℕ) (a : HttpClient)
    → Open (line p) a
    → 0 < length q
    → length q ≤ extra_size
    → p ++ q ≡ request_line s uri v (field_lines gs tail)
    → method_string m ≡ some s
    → Absent sp uri
    → CleanFields gs
    → PartOfLine tail
    → Step (lines m uri v gs tail) [] a (on_readable u (gives q) false false a)
lines_begin-Step u p q m s uri v gs tail a o pos fits all named no_space clean part =
    let (b, called, valid, unread) = read_lem u (line p) q a o pos fits in
    let d : HttpReqDecoder = record (o.decoder) { buffer = b } in
    let (b', decoded, valid', unread') =
      lines_begin u.moved m s uri v gs tail d named no_space clean part
        (rebuffered o.decoder b o.at) (record { valid = valid; unread = unread ∙ all }) in
    waits-Step u (line p) (lines m uri v gs tail) a o b _ called decoded (refl, refl) o.limit valid'
      unread'

-- More header lines.
pub lines_wait-Step :
    (u : HttpUser) (m : Method) (uri : List ℕ) (v : HttpVersion) (fs gs : Fields)
    (tail tail' q : List ℕ) (a : HttpClient)
    → Open (lines m uri v fs tail) a
    → 0 < length q
    → length q ≤ extra_size
    → tail ++ q ≡ field_lines gs tail'
    → CleanFields gs
    → PartOfLine tail'
    → Step (lines m uri v (fs ++ gs) tail') [] a (on_readable u (gives q) false false a)
lines_wait-Step u m uri v fs gs tail tail' q a o pos fits all clean part =
    let (b, called, valid, unread) = read_lem u (lines m uri v fs tail) q a o pos fits in
    let d : HttpReqDecoder = record (o.decoder) { buffer = b } in
    let (b', decoded, valid', unread') =
      lines_come_in u.moved m uri v fs gs tail' d o.at.0 o.at.1 clean part
        (record { valid = valid; unread = unread ∙ all }) in
    waits-Step u (lines m uri v fs tail) (lines m uri v (fs ++ gs) tail') a o b _ called decoded
      (refl, refl) o.limit valid' unread'

-- The whole request is there: all of it since the last answer, or the header lines that were left.
pub line_answers-Step :
    (u : HttpUser) (plain : Plain u) (p q text : List ℕ) (m : Method) (s uri : List ℕ)
    (v : HttpVersion) (fs : Fields) (body : List ℕ) (a : HttpClient)
    → Open (line p) a
    → 0 < length q
    → length q ≤ extra_size
    → p ++ q ≡ request_line s uri v (header_text fs body)
    → method_string m ≡ some s
    → Absent sp uri
    → CleanFields fs
    → length body ≤ 4 * 1024 * 1024
    → Resp.to_string u.date (plain.respond (request_of m uri v fs body)) ≡ ok text
    → Step (line []) text a (on_readable u (gives q) false false a)
line_answers-Step u plain p q text m s uri v fs body a o pos fits all named no_space clean small
      printed =
    let (b, called, valid, unread) = read_lem u (line p) q a o pos fits in
    let d : HttpReqDecoder = record (o.decoder) { buffer = b } in
    let (b', decoded, valid', nothing) =
      decode_ready u.moved m s uri v fs body d named no_space clean (omega (arith, small, o.limit))
        (rebuffered o.decoder b o.at) (record { valid = valid; unread = unread ∙ all }) in
    answers-Step u plain (line p) a o b _ (request_of m uri v fs body) text called decoded
      (moved-Ready u plain (request_of m uri v fs body) d b' refl) o.limit valid' nothing printed

pub lines_answer-Step :
    (u : HttpUser) (plain : Plain u) (m : Method) (uri : List ℕ) (v : HttpVersion) (fs gs : Fields)
    (tail q body text : List ℕ) (a : HttpClient)
    → Open (lines m uri v fs tail) a
    → 0 < length q
    → length q ≤ extra_size
    → tail ++ q ≡ header_text gs body
    → CleanFields gs
    → length body ≤ 4 * 1024 * 1024
    → Resp.to_string u.date (plain.respond (request_of m uri v (fs ++ gs) body)) ≡ ok text
    → Step (line []) text a (on_readable u (gives q) false false a)
lines_answer-Step u plain m uri v fs gs tail q body text a o pos fits all clean small printed =
    let (b, called, valid, unread) = read_lem u (lines m uri v fs tail) q a o pos fits in
    let d : HttpReqDecoder = record (o.decoder) { buffer = b } in
    let (b', decoded, valid', nothing) =
      lines_end u.moved m uri v fs gs body d o.at.0 o.at.1 clean (omega (arith, small, o.limit))
        (record { valid = valid; unread = unread ∙ all }) in
    answers-Step u plain (lines m uri v fs tail) a o b _ (request_of m uri v (fs ++ gs) body) text
      called decoded (moved-Ready u plain (request_of m uri v (fs ++ gs) body) d b' refl) o.limit
      valid' nothing printed
