-- ===== src/Http/Decoder/RoundTrip.antt =====
-- A request written out as the protocol has it is decoded to itself.
use jerry.Base.{
  ℕ, suc, ◌≤◌, ◌≡◌, ◌∙◌, refl, ap, ap₂, true, false, List, [], some, length, arith, Absent, min,
  take_all,
}
use jerry.Base.Result.{ok}
use jerry.Buffer.{Buffer, to_string, readable_bytes, drop_all_bytes}
use jerry.Buffer.Valid.{IsValid}
use jerry.Buffer.Content.{readable_bytes-length, to_string-drop_all_bytes}
use jerry.Http.Req.{HttpReq, Method, HttpVersion, method_string}
use jerry.Http.Decoder.{
  HttpReqDecoder, sp, new_decoder, set_body_max_bytes, parse_request_line, parse_headers,
  parse_body, decode_loop, decode, expect_request_line, expect_headers, expect_body, parse_finished,
}
use jerry.Http.Decoder.RequestLine.{Holds, request_line, parse_request_line_lem}
use jerry.Http.Decoder.HeaderLines.{Fields, CleanFields, header_text, collect, parse_headers_lem}

-- `ParseBody` takes all unread bytes if they are within the limit, marks nothing as truncated, and
-- leaves no byte in the buffer.
pub parse_body_lem :
    (body : List ℕ) (d : HttpReqDecoder)
    → Holds body d
    → length body ≤ d.body_max_bytes
    → parse_body d ≡ record d {
      req = record (d.req) { body = body };
      state = parse_finished;
      buffer = drop_all_bytes d.buffer;
    }
unfolding parse_body
parse_body_lem body d h fits =
    let n : readable_bytes d.buffer ≡ length body =
      readable_bytes-length d.buffer h.valid ∙ ap length h.unread in
    ground (arith, n, h.unread, take_all (min (readable_bytes d.buffer) d.body_max_bytes) body)

pub drop_all_bytes-IsValid : (b : Buffer) → IsValid b → IsValid (drop_all_bytes b)
unfolding drop_all_bytes
drop_all_bytes-IsValid b v = ground arith

module _ (moved : HttpReq → HttpReq) (fuel : ℕ) where
  pub loop_request_line :
      (d d' : HttpReqDecoder)
      → d.state ≡ expect_request_line
      → d.req.headers ≡ []
      → d.req.body ≡ []
      → parse_request_line d ≡ ok (true, d')
      → decode_loop moved (suc fuel) d ≡ decode_loop moved fuel d'
  unfolding decode_loop
  loop_request_line d d' s h b e = ground arith

  pub loop_headers :
      (d d' : HttpReqDecoder)
      → d.state ≡ expect_headers
      → parse_headers d ≡ ok (true, d')
      → decode_loop moved (suc fuel) d ≡ decode_loop moved fuel d'
  unfolding decode_loop
  loop_headers d d' s e = ground arith

  pub loop_body :
      (d : HttpReqDecoder)
      → d.state ≡ expect_body
      → decode_loop moved (suc fuel) d ≡ decode_loop moved fuel (parse_body d)
  unfolding decode_loop
  loop_body d s = ground arith

  pub loop_finished :
      (d : HttpReqDecoder)
      → d.state ≡ parse_finished
      → decode_loop moved (suc fuel) d
        ≡ ok (some d.req, record d { state = expect_request_line; req = moved d.req })
  unfolding decode_loop
  loop_finished d s = ground arith

-- A decoder at the start of a request; what it holds of an earlier one is empty.
pub record Ready (d : HttpReqDecoder) : Type 0 where
  pub start : d.state ≡ expect_request_line
  pub no_headers : d.req.headers ≡ []
  pub no_body : d.req.body ≡ []
  pub whole : d.req.is_body_truncated ≡ false

abbrev pub request_of : Method → List ℕ → HttpVersion → Fields → List ℕ → HttpReq
request_of m uri v fs body = record {
  body = body;
  request_uri = uri;
  headers = collect fs [];
  method = m;
  version = v;
  is_body_truncated = false;
}

pub decode_ready :
    (moved : HttpReq → HttpReq) (m : Method) (s uri : List ℕ) (v : HttpVersion) (fs : Fields)
    (body : List ℕ) (d : HttpReqDecoder)
    → method_string m ≡ some s
    → Absent sp uri
    → CleanFields fs
    → length body ≤ d.body_max_bytes
    → Ready d
    → Holds (request_line s uri v (header_text fs body)) d
    → (b : Buffer) × (decode moved d
        ≡ ok (
          some (request_of m uri v fs body),
          record d {
            req = moved (request_of m uri v fs body);
            state = expect_request_line;
            buffer = b;
          },
        ))
      × IsValid b
      × (to_string b ≡ [])
unfolding decode
decode_ready moved m s uri v fs body d e a c fits ready h =
    let line = parse_request_line_lem m s uri v (header_text fs body) d e a h in
    let d1 : HttpReqDecoder = record d {
      req = record (d.req) { method = m; request_uri = uri; version = v };
      state = expect_headers;
      buffer = line.0;
    } in
    let heads = parse_headers_lem fs body d1 c line.1.left in
    let d2 : HttpReqDecoder = record d1 {
      req = record (d1.req) { headers = collect fs d.req.headers };
      state = expect_body;
      buffer = heads.0;
    } in
    let d3 : HttpReqDecoder = record d2 {
      req = record (d2.req) { body = body };
      state = parse_finished;
      buffer = drop_all_bytes heads.0;
    } in
    let same : d3.req ≡ request_of m uri v fs body =
      ap₂ (λ hs t. record (request_of m uri v fs body) { headers = hs; is_body_truncated = t })
        (ap (collect fs) ready.no_headers) ready.whole in
    (
      drop_all_bytes heads.0,
      loop_request_line moved 3 d d1 ready.start ready.no_headers ready.no_body line.1.result
          ∙ loop_headers moved 2 d1 d2 refl heads.1.result
          ∙ loop_body moved 1 d2 refl
          ∙ ap (decode_loop moved 1) (parse_body_lem body d2 heads.1.left fits)
          ∙ loop_finished moved 0 d3 refl
          ∙ ap (λ r. ok (some r, record d3 { req = moved r; state = expect_request_line })) same,
      drop_all_bytes-IsValid heads.0 heads.1.left.valid,
      to_string-drop_all_bytes heads.0,
    )

-- A new decoder whose buffer holds a whole request, written out with one space between the parts of
-- the request line and `name: value` lines that end in CRLF, returns this request in one call: its
-- method (one of the six that the tables have), URI, version, headers and body, not truncated, if
-- the URI has no space, names have no colon and no CR, values no CR, and the body is within the
-- limit. It then waits for the next request with an empty buffer.
pub decode_lem :
    (moved : HttpReq → HttpReq) (m : Method) (s uri : List ℕ) (v : HttpVersion) (fs : Fields)
    (body : List ℕ) (max : ℕ) (b : Buffer)
    → method_string m ≡ some s
    → Absent sp uri
    → CleanFields fs
    → length body ≤ max
    → IsValid b
    → to_string b ≡ request_line s uri v (header_text fs body)
    → (d' : HttpReqDecoder) × (decode moved (set_body_max_bytes max (new_decoder b))
        ≡ ok (
          some (record {
            body = body;
            request_uri = uri;
            headers = collect fs [];
            method = m;
            version = v;
            is_body_truncated = false;
          }),
          d',
        ))
      × (d'.state ≡ expect_request_line)
      × (to_string d'.buffer ≡ [])
unfolding decode set_body_max_bytes
decode_lem moved m s uri v fs body max b e a c fits valid u =
    let d : HttpReqDecoder = record (new_decoder b) { body_max_bytes = max } in
    let (b', decoded, _, nothing) =
      decode_ready moved m s uri v fs body d e a c fits
        (record { start = refl; no_headers = refl; no_body = refl; whole = refl })
        (record { valid = valid; unread = u }) in
    (
      record d {
        req = moved (request_of m uri v fs body);
        state = expect_request_line;
        buffer = b';
      },
      decoded,
      refl,
      nothing,
    )
