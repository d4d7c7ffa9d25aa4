-- ===== src/Http/Decoder/RequestLine.antt =====
-- `ParseRequestLine` on a request line written out as the protocol has it.
use jerry.Base.{
  ℕ, ◌+◌, ◌-◌, ◌≡◌, ◌∙◌, refl, sym, ap, ap₂, Bool, true, List, [], ◌∷◌, ◌++◌, some, length, take,
  drop, index_of, arith, Absent, index_of-append, take-append, drop-append, length-append,
  append_assoc,
}
use jerry.Base.Result.{Result, ok, ◌>>=◌}
use jerry.Buffer.{Buffer, to_string}
use jerry.Buffer.Valid.{IsValid, length-to_string}
use jerry.Buffer.Seek.{drop_bytes_until_lem}
use jerry.Http.Req.{
  Method, HttpVersion, method_of, version_of, method_string, version_string,
  method_of-method_string, version_of-version_string, Absent-method_string, Absent-version_string,
}
use jerry.Http.Decoder.{
  HttpReqDecoder, sp, cr, lf, index_of_crlf, drop_until, with_buffer, parse_version, parse_uri,
  parse_request_line, expect_headers,
}

-- The decoder's buffer holds `text`.
pub record Holds (text : List ℕ) (d : HttpReqDecoder) : Type 0 where
  pub valid : IsValid d.buffer
  pub unread : to_string d.buffer ≡ text

pub index_of_crlf-append :
    (xs ys : List ℕ) → Absent cr xs → index_of_crlf (xs ++ cr ∷ lf ∷ ys) ≡ some (length xs)
unfolding index_of_crlf
index_of_crlf-append [] ys a = refl
index_of_crlf-append (x ∷ []) ys a = ground arith
index_of_crlf-append (x ∷ y ∷ xs) ys a = ground (arith, index_of_crlf-append (y ∷ xs) ys a.1)

-- `DropBytesUntil` at the end of a first part leaves the second.
pub drop_until_lem :
    (xs ys : List ℕ) (i : ℕ) (d : HttpReqDecoder)
    → Holds (xs ++ ys) d
    → i ≡ length xs
    → (b : Buffer) × (drop_until i d ≡ ok (record d { buffer = b }))
      × Holds ys (record d { buffer = b })
unfolding drop_until
drop_until_lem xs ys i d h e =
    let l = length-to_string d.buffer h.valid in
    let k =
      drop_bytes_until_lem (d.buffer.read_idx + i) d.buffer h.valid (omega arith)
        (omega (arith, l, ap length h.unread, length-append xs ys, h.valid.ordered)) in
    (
      k.0,
      ap (with_buffer d) k.1,
      record {
        valid = k.3;
        unread =
            k.2
            ∙ ap (drop (d.buffer.read_idx + i - d.buffer.read_idx)) h.unread
            ∙ drop-append xs ys (d.buffer.read_idx + i - d.buffer.read_idx) (omega arith);
      },
    )

-- `METHOD SP uri SP version CRLF`
abbrev pub request_line : List ℕ → List ℕ → HttpVersion → List ℕ → List ℕ
request_line m uri v rest = m ++ sp ∷ (uri ++ sp ∷ (version_string v ++ cr ∷ lf ∷ rest))

-- The parser's result on a buffer that begins with the text: `true`, and the rest is left.
pub record Parsed (rest : List ℕ) (d' : HttpReqDecoder) (r : Result (Bool × HttpReqDecoder))
    : Type 0 where
  pub result : r ≡ ok (true, d')
  pub left : Holds rest d'

-- The first `length xs + 1` elements of `xs ++ x ∷ ys` are not in `ys`.
pub drop-cons : (xs ys : List ℕ) (x : ℕ) → drop (length xs + 1) (xs ++ x ∷ ys) ≡ ys
drop-cons xs ys x =
    ap (drop (length xs + 1)) (sym (append_assoc xs (x ∷ []) ys))
    ∙ drop-append (xs ++ x ∷ []) ys (length xs + 1) (omega (arith, length-append xs (x ∷ [])))

-- What each stage goes on with, once its searches have succeeded.
abbrev enter_headers : HttpReqDecoder → Result (Bool × HttpReqDecoder)
enter_headers d = ok (true, record d { state = expect_headers })

parse_version_step :
    (pos k : ℕ) (text : List ℕ) (v : HttpVersion) (d : HttpReqDecoder)
    → index_of_crlf text ≡ some k
    → version_of (take k text) ≡ some v
    → parse_version pos text d ≡ (
        drop_until (pos + k + 2) (record d { req = record (d.req) { version = v } })
        >>= enter_headers)
unfolding parse_version
parse_version_step pos k text v d e f = ground arith

pub parse_uri_step :
    (pos j : ℕ) (text : List ℕ) (d : HttpReqDecoder)
    → index_of sp text ≡ some j
    → parse_uri pos text d
      ≡ parse_version
          (pos + j + 1)
          (drop (j + 1) text)
          (record d { req = record (d.req) { request_uri = take j text } })
unfolding parse_uri
parse_uri_step pos j text d e = ground arith

pub parse_request_line_step :
    (i : ℕ) (text : List ℕ) (m : Method) (d : HttpReqDecoder)
    → to_string d.buffer ≡ text
    → index_of sp text ≡ some i
    → method_of (take i text) ≡ some m
    → parse_request_line d
      ≡ parse_uri (i + 1) (drop (i + 1) text) (record d { req = record (d.req) { method = m } })
unfolding parse_request_line
parse_request_line_step i text m d u e f = ground arith

parse_version_lem :
    (v : HttpVersion) (pre rest : List ℕ) (pos : ℕ) (d : HttpReqDecoder)
    → Holds (pre ++ (version_string v ++ cr ∷ lf ∷ rest)) d
    → pos ≡ length pre
    → (b : Buffer) × Parsed rest
        (record d { req = record (d.req) { version = v }; state = expect_headers; buffer = b })
        (parse_version pos (version_string v ++ cr ∷ lf ∷ rest) d)
unfolding parse_version
parse_version_lem v pre rest pos d h e =
    let vs = version_string v in
    let d1 = record d { req = record (d.req) { version = v } } in
    let line = pre ++ (vs ++ cr ∷ lf ∷ []) in
    let u =
      h.unread
      ∙ ap (λ l. pre ++ l) (sym (append_assoc vs (cr ∷ lf ∷ []) rest))
      ∙ sym (append_assoc pre (vs ++ cr ∷ lf ∷ []) rest) in
    let k =
      drop_until_lem line rest (pos + length vs + 2) d1 (record { valid = h.valid; unread = u })
        (omega (arith, length-append pre (vs ++ cr ∷ lf ∷ []), length-append vs (cr ∷ lf ∷ []))) in
    (
      k.0,
      record {
        result =
            parse_version_step pos (length vs) (vs ++ cr ∷ lf ∷ rest) v d
              (index_of_crlf-append vs rest (Absent-version_string v))
              (ap version_of (take-append vs (cr ∷ lf ∷ rest) (length vs) refl)
                ∙ version_of-version_string v)
            ∙ ap (λ r. r >>= enter_headers) k.1;
        left = record { valid = k.2.valid; unread = k.2.unread };
      },
    )

parse_uri_lem :
    (v : HttpVersion) (uri pre rest : List ℕ) (pos : ℕ) (d : HttpReqDecoder)
    → Absent sp uri
    → Holds (pre ++ (uri ++ sp ∷ (version_string v ++ cr ∷ lf ∷ rest))) d
    → pos ≡ length pre
    → (b : Buffer) × Parsed rest
        (record d {
          req = record (d.req) { request_uri = uri; version = v };
          state = expect_headers;
          buffer = b;
        })
        (parse_uri pos (uri ++ sp ∷ (version_string v ++ cr ∷ lf ∷ rest)) d)
unfolding parse_uri
parse_uri_lem v uri pre rest pos d a h e =
    let tail = version_string v ++ cr ∷ lf ∷ rest in
    let d1 = record d { req = record (d.req) { request_uri = uri } } in
    let u =
      h.unread
      ∙ ap (λ l. pre ++ l) (sym (append_assoc uri (sp ∷ []) tail))
      ∙ sym (append_assoc pre (uri ++ sp ∷ []) tail) in
    let k =
      parse_version_lem v (pre ++ (uri ++ sp ∷ [])) rest (pos + length uri + 1) d1
        (record { valid = h.valid; unread = u })
        (omega (arith, length-append pre (uri ++ sp ∷ []), length-append uri (sp ∷ []))) in
    (
      k.0,
      record {
        result =
            parse_uri_step pos (length uri) (uri ++ sp ∷ tail) d (index_of-append sp uri tail a)
            ∙ ap₂
                (λ t u.
                  parse_version (pos + length uri + 1) t
                    (record d { req = record (d.req) { request_uri = u } }))
                (drop-cons uri tail sp) (take-append uri (sp ∷ tail) (length uri) refl)
            ∙ k.1.result;
        left = k.1.left;
      },
    )

pub parse_request_line_lem :
    (m : Method) (s uri : List ℕ) (v : HttpVersion) (rest : List ℕ) (d : HttpReqDecoder)
    → method_string m ≡ some s
    → Absent sp uri
    → Holds (request_line s uri v rest) d
    → (b : Buffer) × Parsed rest
        (record d {
          req = record (d.req) { method = m; request_uri = uri; version = v };
          state = expect_headers;
          buffer = b;
        })
        (parse_request_line d)
unfolding parse_request_line
parse_request_line_lem m s uri v rest d e a h =
    let tail = uri ++ sp ∷ (version_string v ++ cr ∷ lf ∷ rest) in
    let d1 = record d { req = record (d.req) { method = m } } in
    let k =
      parse_uri_lem v uri (s ++ sp ∷ []) rest (length s + 1) d1 a
        (record { valid = h.valid; unread = h.unread ∙ sym (append_assoc s (sp ∷ []) tail) })
        (omega (arith, length-append s (sp ∷ []))) in
    (
      k.0,
      record {
        result =
            parse_request_line_step (length s) (s ++ sp ∷ tail) m d h.unread
              (index_of-append sp s tail (Absent-method_string m s e))
              (ap method_of (take-append s (sp ∷ tail) (length s) refl)
                ∙ method_of-method_string m s e)
            ∙ ap (λ t. parse_uri (length s + 1) t d1) (drop-cons s tail sp)
            ∙ k.1.result;
        left = k.1.left;
      },
    )
