-- ===== src/Http/Decoder/Pieces.antt =====
-- The decoder while the request line is coming in.
use jerry.Base.{
  ℕ, suc, ◌+◌, ◌<◌, ◌≡◌, ◌∙◌, refl, ap, ap₂, false, List, [], ◌∷◌, ◌++◌, none, some, length,
  take-append, index_of-append, Bool, arith, Absent, index_of,
}
use jerry.Base.Result.{Result, ok}
use jerry.Buffer.{readable_bytes}
use jerry.Buffer.Content.{readable_bytes-length}
use jerry.Http.Req.{
  HttpReq, Method, method_string, method_of, method_of-method_string, Absent-method_string,
}
use jerry.Http.Decoder.{
  HttpReqDecoder, sp, index_of_crlf, parse_request_line, parse_uri, parse_version, decode_loop,
  decode, expect_request_line,
}
use jerry.Http.Decoder.RequestLine.{Holds, drop-cons, parse_request_line_step, parse_uri_step}
use jerry.Http.Decoder.RoundTrip.{Ready}

-- A first part of a request line, which ends in the method, the URI or the version. One that ends in the
-- method has less than seven bytes: the decoder drops more.
pub data FirstPart : List ℕ → Type 0 where
  in_method : (p : List ℕ) → Absent sp p → length p < 7 → FirstPart p
  in_uri :
      (m : Method) (s q : List ℕ) → method_string m ≡ some s → Absent sp q → FirstPart (s ++ sp ∷ q)
  in_version :
      (m : Method) (s uri q : List ℕ)
      → method_string m ≡ some s
      → Absent sp uri
      → index_of_crlf q ≡ none
      → FirstPart (s ++ sp ∷ (uri ++ sp ∷ q))

pub index_of-none : (c : ℕ) (xs : List ℕ) → Absent c xs → index_of c xs ≡ none
unfolding index_of
index_of-none c [] a = refl
index_of-none c (x ∷ xs) a = ground (arith, a.0, index_of-none c xs a.1)

method_step :
    (m : Method) (s tail : List ℕ) (d : HttpReqDecoder)
    → method_string m ≡ some s
    → Holds (s ++ sp ∷ tail) d
    → parse_request_line d
      ≡ parse_uri (length s + 1) tail (record d { req = record (d.req) { method = m } })
method_step m s tail d e h =
    parse_request_line_step (length s) (s ++ sp ∷ tail) m d h.unread
      (index_of-append sp s tail (Absent-method_string m s e))
      (ap method_of (take-append s (sp ∷ tail) (length s) refl) ∙ method_of-method_string m s e)
    ∙ ap (λ t. parse_uri (length s + 1) t (record d { req = record (d.req) { method = m } }))
        (drop-cons s tail sp)

uri_waits :
    (pos : ℕ) (q : List ℕ) (d : HttpReqDecoder) → Absent sp q → parse_uri pos q d ≡ ok (false, d)
unfolding parse_uri
uri_waits pos q d a = let miss = index_of-none sp q a in ground (arith, miss)

version_waits :
    (pos : ℕ) (q : List ℕ) (d : HttpReqDecoder)
    → index_of_crlf q ≡ none
    → parse_version pos q d ≡ ok (false, d)
unfolding parse_version
version_waits pos q d e = ground (arith, e)

-- The decoder waits: only what it knows of the request line may change.
record Waits (d : HttpReqDecoder) (r : Result (Bool × HttpReqDecoder)) : Type 0 where
  pub method : Method
  pub uri : List ℕ
  pub result :
      r ≡ ok (false, record d { req = record (d.req) { method = method; request_uri = uri } })

parse_request_line-Waits :
    (p : List ℕ) (d : HttpReqDecoder) → FirstPart p → Holds p d → Waits d (parse_request_line d)
unfolding parse_request_line
parse_request_line-Waits p d (in_method _ a short) h =
    let n : readable_bytes d.buffer ≡ length p =
      readable_bytes-length d.buffer h.valid ∙ ap length h.unread in
    let miss = index_of-none sp p a in
    record {
      method = d.req.method;
      uri = d.req.request_uri;
      result = ground (arith, miss, h.unread, n);
    }
parse_request_line-Waits p d (in_uri m s q e a) h = record {
  method = m;
  uri = d.req.request_uri;
  result = method_step m s q d e h ∙ uri_waits (length s + 1) q _ a;
}
parse_request_line-Waits p d (in_version m s uri q e a none_yet) h =
    let d1 : HttpReqDecoder = record d { req = record (d.req) { method = m } } in
    record {
      method = m;
      uri = uri;
      result =
          method_step m s (uri ++ sp ∷ q) d e h
          ∙ parse_uri_step (length s + 1) (length uri) (uri ++ sp ∷ q) d1
              (index_of-append sp uri q a)
          ∙ ap₂
              (λ t u.
                parse_version (length s + 1 + length uri + 1) t
                  (record d1 { req = record (d1.req) { request_uri = u } }))
              (drop-cons uri q sp) (take-append uri (sp ∷ q) (length uri) refl)
          ∙ version_waits (length s + 1 + length uri + 1) q _ none_yet;
    }

loop_waits :
    (moved : HttpReq → HttpReq) (fuel : ℕ) (d d' : HttpReqDecoder)
    → d.state ≡ expect_request_line
    → d.req.headers ≡ []
    → d.req.body ≡ []
    → parse_request_line d ≡ ok (false, d')
    → decode_loop moved (suc fuel) d ≡ ok (none, d')
unfolding decode_loop
loop_waits moved fuel d d' s h b e = ground arith

-- A decoder that is ready and has a first part of a request line gives no request, keeps what has come in,
-- and stays ready.
pub decode_waits :
    (moved : HttpReq → HttpReq) (p : List ℕ) (d : HttpReqDecoder)
    → FirstPart p
    → Ready d
    → Holds p d
    → (req : HttpReq) × (decode moved d ≡ ok (none, record d { req = req }))
      × Ready (record d { req = req })
unfolding decode
decode_waits moved p d f r h =
    let w = parse_request_line-Waits p d f h in
    (
      record (d.req) { method = w.method; request_uri = w.uri },
      loop_waits moved 3 d
          (record d { req = record (d.req) { method = w.method; request_uri = w.uri } }) r.start
          r.no_headers r.no_body w.result,
      record { start = r.start; no_headers = r.no_headers; no_body = r.no_body; whole = r.whole },
    )
