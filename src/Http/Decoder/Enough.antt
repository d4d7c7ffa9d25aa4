-- ===== src/Http/Decoder/Enough.antt =====
-- The fuel of the request decoder is enough on every input.
use jerry.Base.{
  ℕ, zero, suc, ◌+◌, ◌≤◌, ◌<◌, ◌≡◌, ◌⊎◌, refl, sym, ap, subst, Bool, true, false, List, [], ◌∷◌,
  Option, none, some, length, take, drop, ◌==◌, leb, index_of, arith, take-append-drop, length-take,
  length-drop, Bool-cases, Option-cases, inl, inr, ◌&&◌, if◌then◌else◌, get_elem?,
}
use jerry.Base.Result.{
  Result, ok, fault, bad_access, missing_key, assertion, Ended, returns, throws, reads_outside,
  asserts, ◌>>=◌,
}
use jerry.Buffer.{Buffer, to_string, readable_bytes, drop_bytes, drop_all_bytes}
use jerry.Buffer.Valid.{IsValid, drop_bytes-IsValid}
use jerry.Buffer.Content.{readable_bytes-length}
use jerry.Http.Headers.{emplace}
use jerry.Http.Req.{HttpReq, method_of, version_of}
use jerry.Http.Decoder.{
  HttpReqDecoder, State, sp, cr, lf, colon, index_of_crlf, drop_until, parse_version, parse_uri,
  parse_request_line, peek, at_end, skip_blank, parse_header, header_loop, parse_headers,
  parse_body, is_nil, decode_loop, decode, expect_request_line, expect_headers, expect_body,
  parse_finished,
}
use jerry.Http.Decoder.RequestLine.{drop_until_lem}

index_of_lt : (c : ℕ) (xs : List ℕ) (i : ℕ) → index_of c xs ≡ some i → i < length xs
unfolding index_of
index_of_lt c [] i e = cc e
index_of_lt c (x ∷ xs) i e = elim (Option-cases (index_of c xs)) [
  | inl miss ↦ ground arith
  | inr (j, at) ↦ ground (arith, index_of_lt c xs j at)
]

index_of_crlf_le : (xs : List ℕ) (k : ℕ) → index_of_crlf xs ≡ some k → k + 2 ≤ length xs
unfolding index_of_crlf
index_of_crlf_le [] k e = cc e
index_of_crlf_le (x ∷ []) k e = ground arith
index_of_crlf_le (x ∷ y ∷ xs) k e = elim (Option-cases (index_of_crlf (y ∷ xs))) [
  | inl miss ↦ ground arith
  | inr (j, at) ↦ ground (arith, index_of_crlf_le (y ∷ xs) j at)
]

-- What a part of the parser ends with: an exception, a read outside the vector, `false`, or `true` in
-- the state `s` with a valid buffer.
data Ends (s : State) : Result (Bool × HttpReqDecoder) → Type 0 where
  unknown : Ends s (fault missing_key)
  outside : Ends s (fault bad_access)
  waits : (d : HttpReqDecoder) → Ends s (ok (false, d))
  reaches : (d : HttpReqDecoder) → d.state ≡ s → IsValid d.buffer → Ends s (ok (true, d))

drop_until_any :
    (i : ℕ) (d : HttpReqDecoder)
    → IsValid d.buffer
    → i ≤ length (to_string d.buffer)
    → (b : Buffer) × (drop_until i d ≡ ok (record d { buffer = b }))
      × IsValid b
      × (length (to_string b) + i ≡ length (to_string d.buffer))
drop_until_any i d v h =
    let text = to_string d.buffer in
    let (b, e, holds) =
      drop_until_lem (take i text) (drop i text) i d
        (record { valid = v; unread = sym (take-append-drop i text) })
        (omega (arith, length-take i text)) in
    (b, e, holds.valid, omega (arith, ap length holds.unread, length-drop i text))

parse_version-Ends :
    (pos : ℕ) (text : List ℕ) (d : HttpReqDecoder)
    → IsValid d.buffer
    → pos + length text ≡ length (to_string d.buffer)
    → Ends expect_headers (parse_version pos text d)
unfolding parse_version
parse_version-Ends pos text d v h = elim (Option-cases (index_of_crlf text)) [
  | inl miss ↦ rw (parse_version, miss) (waits d)
  | inr (k, at) ↦ elim (Option-cases (version_of (take k text))) [
    | inl miss ↦ rw (parse_version, at, miss) unknown
    | inr (w, is) ↦
        let d1 : HttpReqDecoder = record d { req = record (d.req) { version = w } } in
        let (b, e, vb, n) =
          drop_until_any (pos + k + 2) d1 v (omega (arith, index_of_crlf_le text k at)) in
        rw (parse_version, at, is, e)
          (reaches (record d1 { buffer = b; state = expect_headers }) refl vb)
  ]
]

parse_uri-Ends :
    (pos : ℕ) (text : List ℕ) (d : HttpReqDecoder)
    → IsValid d.buffer
    → pos + length text ≡ length (to_string d.buffer)
    → Ends expect_headers (parse_uri pos text d)
unfolding parse_uri
parse_uri-Ends pos text d v h = elim (Option-cases (index_of sp text)) [
  | inl miss ↦ rw (parse_uri, miss) (waits d)
  | inr (j, at) ↦
      rw (parse_uri, at)
        (parse_version-Ends (pos + j + 1) (drop (j + 1) text)
          (record d { req = record (d.req) { request_uri = take j text } }) v
          (omega (arith, length-drop (j + 1) text, index_of_lt sp text j at)))
]

parse_request_line-Ends :
    (d : HttpReqDecoder) → IsValid d.buffer → Ends expect_headers (parse_request_line d)
unfolding parse_request_line
parse_request_line-Ends d v =
    let text = to_string d.buffer in
    elim (Option-cases (index_of sp text)) [
      | inl miss ↦
          rw (parse_request_line, miss)
            (waits (
              if leb 7 (readable_bytes d.buffer)
              then record d { buffer = drop_all_bytes d.buffer }
              else d))
      | inr (i, at) ↦ elim (Option-cases (method_of (take i text))) [
        | inl miss ↦
            rw (parse_request_line, at, miss)
              (waits (record d { buffer = drop_all_bytes d.buffer }))
        | inr (m, is) ↦
            rw (parse_request_line, at, is)
              (parse_uri-Ends (i + 1) (drop (i + 1) text)
                (record d { req = record (d.req) { method = m } }) v
                (omega (arith, length-drop (i + 1) text, index_of_lt sp text i at)))
      ]
    ]

-- A header line that is complete leaves less text.
parse_header_less :
    (d : HttpReqDecoder)
    → IsValid d.buffer
    → (parse_header d ≡ ok none)
      ⊎ ((d' : HttpReqDecoder) × (parse_header d ≡ ok (some d'))
          × IsValid d'.buffer
          × (length (to_string d'.buffer) < length (to_string d.buffer)))
unfolding parse_header
parse_header_less d v =
    let text = to_string d.buffer in
    elim (Option-cases (index_of colon text)) [
      | inl miss ↦ inl (ground (arith, miss))
      | inr (i, at) ↦
          let rest = drop (i + 1) text in
          elim (Option-cases (index_of_crlf rest)) [
            | inl miss ↦ inl (ground (arith, at, miss))
            | inr (k, end) ↦
                let d1 : HttpReqDecoder = record d {
                  req = record (d.req) {
                    headers = emplace (take i text) (skip_blank (take k rest)) d.req.headers;
                  };
                } in
                let (b, e, vb, n) = drop_until_any (i + 1 + k + 2) d1 v (
                  omega (
                    arith,
                    index_of_crlf_le rest k end,
                    length-drop (i + 1) text,
                    index_of_lt colon text i at,
                  )) in
                inr (record d1 { buffer = b }, ground (arith, at, end, e), vb, omega (arith, n))
          ]
    ]

peek_cases : (i : ℕ) (b : Buffer) → (peek i b ≡ fault bad_access) ⊎ ((x : ℕ) × (peek i b ≡ ok x))
peek_cases i b = elim (Option-cases (get_elem? b.storage (b.read_idx + i))) [
  | inl miss ↦ inl (ground (arith, miss))
  | inr (x, is) ↦ inr (x, ground (arith, is))
]

at_end_cases : (b : Buffer) → (at_end b ≡ fault bad_access) ⊎ ((x : Bool) × (at_end b ≡ ok x))
unfolding at_end
at_end_cases b = elim (peek_cases 0 b) [
  | inl out ↦ inl (ground (arith, out))
  | inr (x, is) ↦ elim (Bool-cases (x == cr)) [
    | inr other ↦ inr (false, ground (arith, is, other))
    | inl same ↦ elim (peek_cases 1 b) [
      | inl out ↦ inl (ground (arith, is, same, out))
      | inr (y, is') ↦ inr (y == lf, ground (arith, is, same, is'))
    ]
  ]
]

header_loop-Ends :
    (fuel : ℕ) (d : HttpReqDecoder)
    → IsValid d.buffer
    → length (to_string d.buffer) < fuel
    → Ends expect_body (header_loop fuel d)
unfolding header_loop
header_loop-Ends zero d v h = absurd (omega arith)
header_loop-Ends (suc fuel) d v h = elim (at_end_cases d.buffer) [
  | inl out ↦ rw out outside
  | inr (true, is) ↦ rw is (
      reaches (record d { buffer = drop_bytes 2 d.buffer; state = expect_body }) refl
        (drop_bytes-IsValid 2 d.buffer v))
  | inr (false, is) ↦ elim (parse_header_less d v) [
    | inl more ↦ rw (is, more) (waits d)
    | inr (d', is', v', less) ↦ rw (is, is') (header_loop-Ends fuel d' v' (omega arith))
  ]
]

parse_headers-Ends : (d : HttpReqDecoder) → IsValid d.buffer → Ends expect_body (parse_headers d)
unfolding parse_headers
parse_headers-Ends d v =
    header_loop-Ends (suc (readable_bytes d.buffer)) d v
      (omega (arith, readable_bytes-length d.buffer v))

module _ (moved : HttpReq → HttpReq) where
  abbrev next : ℕ → Bool × HttpReqDecoder → Result (Option HttpReq × HttpReqDecoder)
  next fuel r = elim (r.0) [ true ↦ decode_loop moved fuel r.1 | false ↦ ok (none, r.1) ]

  -- The loop goes on in state `s`.
  after :
      (fuel : ℕ) (s : State) (r : Result (Bool × HttpReqDecoder))
      → Ends s r
      → ((d : HttpReqDecoder) → d.state ≡ s → IsValid d.buffer → Ended (decode_loop moved fuel d))
      → Ended (r >>= next fuel)
  after fuel s r unknown go = throws
  after fuel s r outside go = reads_outside
  after fuel s r (waits d) go = returns (none, d)
  after fuel s r (reaches d e v) go = go d e v

  finished_ends :
      (fuel : ℕ) (d : HttpReqDecoder)
      → d.state ≡ parse_finished
      → Ended (decode_loop moved (suc fuel) d)
  unfolding decode_loop
  finished_ends fuel d s =
      rw s (returns (some d.req, record d { state = expect_request_line; req = moved d.req }))

  body_ends :
      (fuel : ℕ) (d : HttpReqDecoder)
      → d.state ≡ expect_body
      → Ended (decode_loop moved (suc (suc fuel)) d)
  unfolding decode_loop parse_body
  body_ends fuel d s = rw s (finished_ends fuel (parse_body d) refl)

  headers_end :
      (fuel : ℕ) (d : HttpReqDecoder)
      → d.state ≡ expect_headers
      → IsValid d.buffer
      → Ended (decode_loop moved (suc (suc (suc fuel))) d)
  unfolding decode_loop
  headers_end fuel d s v =
      let e : decode_loop moved (suc (suc (suc fuel))) d
          ≡ (parse_headers d >>= next (suc (suc fuel))) =
        ground arith in
      subst Ended (sym e) (
        after (suc (suc fuel)) expect_body (parse_headers d) (parse_headers-Ends d v)
          (λ d' s' v'. body_ends fuel d' s'))

  request_line_ends :
      (fuel : ℕ) (d : HttpReqDecoder)
      → d.state ≡ expect_request_line
      → IsValid d.buffer
      → Ended (decode_loop moved (suc (suc (suc (suc fuel)))) d)
  unfolding decode_loop
  request_line_ends fuel d s v =
      let loop = decode_loop moved (suc (suc (suc (suc fuel)))) d in
      elim (Bool-cases (is_nil d.req.headers && is_nil d.req.body)) [
        | inl clear ↦
            let e : loop ≡ (parse_request_line d >>= next (suc (suc (suc fuel)))) = ground arith in
            subst Ended (sym e) (
              after (suc (suc (suc fuel))) expect_headers (parse_request_line d)
                (parse_request_line-Ends d v) (λ d' s' v'. headers_end fuel d' s' v'))
        | inr used ↦ let e : loop ≡ fault assertion = ground arith in subst Ended (sym e) asserts
      ]

  any_state :
      (s : State) (d : HttpReqDecoder)
      → d.state ≡ s
      → IsValid d.buffer
      → Ended (decode_loop moved 4 d)
  any_state expect_request_line d s v = request_line_ends 0 d s v
  any_state expect_headers d s v = headers_end 1 d s v
  any_state expect_body d s v = body_ends 2 d s
  any_state parse_finished d s v = finished_ends 3 d s

  -- From any state and with any valid buffer, `Decode` ends: it returns, or throws for an unknown
  -- version, or reads outside the vector behind the headers, or fails its assertion; its loops never
  -- run on, and the fuel of the model is enough.
  pub decode-Ended : (d : HttpReqDecoder) → IsValid d.buffer → Ended (decode moved d)
  unfolding decode
  decode-Ended d v = any_state d.state d refl v
