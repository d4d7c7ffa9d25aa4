-- ===== src/Http/Decoder/HeaderRounds.antt =====
-- The rounds of `Decode` of src/proto/http/HttpReqDecoder.cc where the header lines come in several reads.
use jerry.Base.{
  ℕ, suc, ◌≤◌, ◌≡◌, ◌∙◌, refl, sym, ap, false, List, [], ◌∷◌, ◌++◌, none, some, length, Absent,
  arith,
}
use jerry.Base.Result.{ok}
use jerry.Buffer.{Buffer, drop_all_bytes, to_string}
use jerry.Buffer.Valid.{IsValid}
use jerry.Buffer.Content.{to_string-drop_all_bytes}
use jerry.Http.Headers.{Headers}
use jerry.Http.Req.{HttpReq, Method, HttpVersion, method_string}
use jerry.Http.Decoder.{
  HttpReqDecoder, sp, parse_headers, decode_loop, decode, expect_request_line, expect_headers,
  expect_body, parse_finished,
}
use jerry.Http.Decoder.RequestLine.{Holds, request_line, parse_request_line_lem}
use jerry.Http.Decoder.HeaderLines.{Fields, CleanFields, header_text, collect, parse_headers_lem}
use jerry.Http.Decoder.RoundTrip.{
  Ready, request_of, parse_body_lem, drop_all_bytes-IsValid, loop_request_line, loop_headers,
  loop_body, loop_finished,
}
use jerry.Http.Decoder.HeaderPieces.{PartOfLine, field_lines, parse_headers-ReadsLines}

loop_headers_wait :
    (moved : HttpReq → HttpReq) (fuel : ℕ) (d d' : HttpReqDecoder)
    → d.state ≡ expect_headers
    → parse_headers d ≡ ok (false, d')
    → decode_loop moved (suc fuel) d ≡ ok (none, d')
unfolding decode_loop
loop_headers_wait moved fuel d d' s e = ground arith

-- A decoder that has read the request line and these header lines.
abbrev pub reading : Method → List ℕ → HttpVersion → Fields → HttpReq
reading m uri v fs = request_of m uri v fs []

abbrev pub headed : HttpReq → Buffer → HttpReqDecoder → HttpReqDecoder
headed req b d = record d { req = req; state = expect_headers; buffer = b }

collect-append : (fs gs : Fields) (m : Headers) → collect (fs ++ gs) m ≡ collect gs (collect fs m)
collect-append [] gs m = refl
collect-append ((k, v) ∷ fs) gs m = collect-append fs gs _

-- The loop where header lines are awaited, and some come in with a part of the next.
lines_round :
    (moved : HttpReq → HttpReq) (fuel : ℕ) (m : Method) (uri : List ℕ) (v : HttpVersion)
    (fs gs : Fields) (tail : List ℕ) (d : HttpReqDecoder)
    → d.state ≡ expect_headers
    → d.req ≡ reading m uri v fs
    → CleanFields gs
    → PartOfLine tail
    → Holds (field_lines gs tail) d
    → (b : Buffer) × (decode_loop moved (suc fuel) d
        ≡ ok (none, headed (reading m uri v (fs ++ gs)) b d))
      × IsValid b
      × (to_string b ≡ tail)
lines_round moved fuel m uri v fs gs tail d s e c p h =
    let r = parse_headers-ReadsLines gs tail d c p h in
    let req : record d.req { headers = collect gs d.req.headers } ≡ reading m uri v (fs ++ gs) =
      ap (λ (q : HttpReq). record q { headers = collect gs q.headers }) e
      ∙ ap (λ hs. record (reading m uri v fs) { headers = hs }) (sym (collect-append fs gs [])) in
    (
      r.buffer,
      loop_headers_wait moved fuel d _ s r.result
          ∙ ap (λ q. ok (none, record d { req = q; buffer = r.buffer })) req
          ∙ ap
              (λ t.
                ok (
                  none,
                  record d { req = reading m uri v (fs ++ gs); state = t; buffer = r.buffer },
                ))
              s,
      r.left.valid,
      r.left.unread,
    )

-- `Decode` while the header lines come in.
pub lines_come_in :
    (moved : HttpReq → HttpReq) (m : Method) (uri : List ℕ) (v : HttpVersion) (fs gs : Fields)
    (tail : List ℕ) (d : HttpReqDecoder)
    → d.state ≡ expect_headers
    → d.req ≡ reading m uri v fs
    → CleanFields gs
    → PartOfLine tail
    → Holds (field_lines gs tail) d
    → (b : Buffer) × (decode moved d ≡ ok (none, headed (reading m uri v (fs ++ gs)) b d))
      × IsValid b
      × (to_string b ≡ tail)
unfolding decode
lines_come_in moved m uri v fs gs tail d = lines_round moved 3 m uri v fs gs tail d

-- With the request line, and a part of the headers behind it.
pub lines_begin :
    (moved : HttpReq → HttpReq) (m : Method) (s uri : List ℕ) (v : HttpVersion) (gs : Fields)
    (tail : List ℕ) (d : HttpReqDecoder)
    → method_string m ≡ some s
    → Absent sp uri
    → CleanFields gs
    → PartOfLine tail
    → Ready d
    → Holds (request_line s uri v (field_lines gs tail)) d
    → (b : Buffer) × (decode moved d ≡ ok (none, headed (reading m uri v gs) b d))
      × IsValid b
      × (to_string b ≡ tail)
unfolding decode
lines_begin moved m s uri v gs tail d e a c p ready h =
    let line = parse_request_line_lem m s uri v (field_lines gs tail) d e a h in
    let d1 : HttpReqDecoder = record d {
      req = record (d.req) { method = m; request_uri = uri; version = v };
      state = expect_headers;
      buffer = line.0;
    } in
    let req : d1.req ≡ reading m uri v [] =
      ground (arith, ready.no_headers, ready.no_body, ready.whole) in
    let (b, looped, valid, unread) =
      lines_round moved 2 m uri v [] gs tail d1 refl req c p
        (record { valid = line.1.left.valid; unread = line.1.left.unread }) in
    (
      b,
      loop_request_line moved 3 d d1 ready.start ready.no_headers ready.no_body line.1.result
          ∙ looped,
      valid,
      unread,
    )

-- The lines that are left, the empty line and the body.
pub lines_end :
    (moved : HttpReq → HttpReq) (m : Method) (uri : List ℕ) (v : HttpVersion) (fs gs : Fields)
    (body : List ℕ) (d : HttpReqDecoder)
    → d.state ≡ expect_headers
    → d.req ≡ reading m uri v fs
    → CleanFields gs
    → length body ≤ d.body_max_bytes
    → Holds (header_text gs body) d
    → (b : Buffer) × (decode moved d
        ≡ ok (
          some (request_of m uri v (fs ++ gs) body),
          record d {
            req = moved (request_of m uri v (fs ++ gs) body);
            state = expect_request_line;
            buffer = b;
          },
        ))
      × IsValid b
      × (to_string b ≡ [])
unfolding decode
lines_end moved m uri v fs gs body d s e c fits h =
    let heads = parse_headers_lem gs body d c h in
    let d2 : HttpReqDecoder = record d {
      req = record (d.req) { headers = collect gs d.req.headers };
      state = expect_body;
      buffer = heads.0;
    } in
    let d3 : HttpReqDecoder = record d2 {
      req = record (d2.req) { body = body };
      state = parse_finished;
      buffer = drop_all_bytes heads.0;
    } in
    let same : d3.req ≡ request_of m uri v (fs ++ gs) body =
      ap (λ (q : HttpReq). record q { headers = collect gs q.headers; body = body }) e
      ∙ ap (λ hs. record (request_of m uri v fs body) { headers = hs })
          (sym (collect-append fs gs [])) in
    (
      drop_all_bytes heads.0,
      loop_headers moved 3 d d2 s heads.1.result
          ∙ loop_body moved 2 d2 refl
          ∙ ap (decode_loop moved 2) (parse_body_lem body d2 heads.1.left fits)
          ∙ loop_finished moved 1 d3 refl
          ∙ ap (λ r. ok (some r, record d3 { req = moved r; state = expect_request_line })) same,
      drop_all_bytes-IsValid heads.0 heads.1.left.valid,
      to_string-drop_all_bytes heads.0,
    )
