-- ===== src/Http/Decoder.antt =====
-- src/proto/http/HttpReqDecoder.h and HttpReqDecoder.cc: the request decoder, which works on the
-- receive buffer of a connection.
pub mod RequestLine
pub mod HeaderLines
pub mod RoundTrip
pub mod Lookup
pub mod Enough
pub mod Pieces
pub mod HeaderPieces
pub mod HeaderRounds
use jerry.Base.{
  ℕ, zero, suc, ◌+◌, ◌-◌, ◌*◌, ◌≡◌, Bool, true, false, ◌&&◌, List, [], ◌∷◌, Option, none, some,
  length, take, drop, get_elem?, min, leb, ltb, ◌==◌, if◌then◌else◌, index_of,
}
use jerry.Base.Result.{
  Result, ok, fault, bad_access, missing_key, assertion, runaway, out_of_fuel, ◌>>=◌,
}
use jerry.Buffer.{Buffer, to_string, readable_bytes, drop_bytes, drop_all_bytes, drop_bytes_until}
use jerry.Http.Headers.{emplace}
use jerry.Http.Req.{HttpReq, empty_req, method_of, version_of}

abbrev pub sp : ℕ
sp = 32

abbrev pub cr : ℕ
cr = 13

abbrev pub lf : ℕ
lf = 10

abbrev pub colon : ℕ
colon = b':'

-- `std::search` for CRLF.
unfoldable pub index_of_crlf : List ℕ → Option ℕ
index_of_crlf [] = none
index_of_crlf (x ∷ xs) = if starts (x ∷ xs) then some 0 else later (index_of_crlf xs)
  where
    starts : List ℕ → Bool
    starts [] = false
    starts (x ∷ []) = false
    starts (x ∷ y ∷ ys) = (x == cr) && (y == lf)

    later : Option ℕ → Option ℕ
    later none = none
    later (some i) = some (suc i)

pub data State : Type 0 where
  expect_request_line expect_headers expect_body parse_finished : State

pub record HttpReqDecoder : Type 0 where
  pub req : HttpReq
  pub body_max_bytes : ℕ
  pub state : State
  pub buffer : Buffer

abbrev pub new_decoder : Buffer → HttpReqDecoder
new_decoder b = record {
  req = empty_req;
  body_max_bytes = 2 * 1024 * 1024;
  state = expect_request_line;
  buffer = b;
}

unfoldable pub set_body_max_bytes : ℕ → HttpReqDecoder → HttpReqDecoder
set_body_max_bytes n d = record d { body_max_bytes = n }

-- `DropBytesUntil` at an offset into the unread bytes.
abbrev pub with_buffer : HttpReqDecoder → Option Buffer → Result HttpReqDecoder
with_buffer d none = fault runaway
with_buffer d (some b) = ok (record d { buffer = b })

unfoldable pub drop_until : ℕ → HttpReqDecoder → Result HttpReqDecoder
drop_until i d = with_buffer d (drop_bytes_until (d.buffer.read_idx + i) d.buffer)

-- The text behind the second space, which starts at offset `pos`.
unfoldable pub parse_version : ℕ → List ℕ → HttpReqDecoder → Result (Bool × HttpReqDecoder)
parse_version pos text d = elim (index_of_crlf text) [
  | none ↦ ok (false, d)
  | some k ↦ elim (version_of (take k text)) [
    | none ↦ fault missing_key
    | some v ↦ do
      d' ← drop_until (pos + k + 2) (record d { req = record (d.req) { version = v } })
      ok (true, record d' { state = expect_headers })
  ]
]

-- The text behind the first space.
unfoldable pub parse_uri : ℕ → List ℕ → HttpReqDecoder → Result (Bool × HttpReqDecoder)
unfolding parse_version
parse_uri pos text d = elim (index_of sp text) [
  | none ↦ ok (false, d)
  | some j ↦
      parse_version (pos + j + 1) (drop (j + 1) text)
        (record d { req = record (d.req) { request_uri = take j text } })
]

unfoldable pub parse_request_line : HttpReqDecoder → Result (Bool × HttpReqDecoder)
unfolding parse_uri
parse_request_line d =
    let text = to_string d.buffer in
    elim (index_of sp text) [
      | none ↦ ok (
        false,
        if leb 7 (readable_bytes d.buffer)
            then record d { buffer = drop_all_bytes d.buffer }
            else d,
      )
      | some i ↦ elim (method_of (take i text)) [
        | none ↦ ok (false, record d { buffer = drop_all_bytes d.buffer })
        | some m ↦
            parse_uri (i + 1) (drop (i + 1) text) (record d { req = record (d.req) { method = m } })
      ]
    ]

-- `*(BeginOfReadable() + i)`: the vector is read, also behind the unread bytes.
abbrev pub peek : ℕ → Buffer → Result ℕ
peek i b = elim (get_elem? b.storage (b.read_idx + i)) [ none ↦ fault bad_access | some x ↦ ok x ]

-- `*BeginOfReadable() == '\r' && *next(BeginOfReadable()) == '\n'`
unfoldable pub at_end : Buffer → Result Bool
at_end b =
    peek 0 b >>= λ x. elim (x == cr) [ true ↦ peek 1 b >>= (λ y. ok (y == lf)) | false ↦ ok false ]

-- Whitespace before the value is ignored, one blank of it.
abbrev pub skip_blank : List ℕ → List ℕ
skip_blank [] = []
skip_blank (x ∷ xs) = if x == sp then xs else x ∷ xs

-- One line of the headers; `none` if it is not complete.
unfoldable pub parse_header : HttpReqDecoder → Result (Option HttpReqDecoder)
parse_header d =
    let text = to_string d.buffer in
    elim (index_of colon text) [
      | none ↦ ok none
      | some i ↦
          let rest = drop (i + 1) text in
          elim (index_of_crlf rest) [
            | none ↦ ok none
            | some k ↦ do
              d' ← drop_until (i + 1 + k + 2) (record d {
                req = record (d.req) {
                  headers = emplace (take i text) (skip_blank (take k rest)) d.req.headers;
                };
              })
              ok (some d')
          ]
    ]

-- The `while (true)` of `ParseHeaders`.
unfoldable pub header_loop : ℕ → HttpReqDecoder → Result (Bool × HttpReqDecoder)
header_loop zero d = fault out_of_fuel
header_loop (suc fuel) d = at_end d.buffer >>= λ end. elim end [
  | true ↦ ok (true, record d { buffer = drop_bytes 2 d.buffer; state = expect_body })
  | false ↦
      parse_header d >>= λ next. elim next [ none ↦ ok (false, d) | some d' ↦ header_loop fuel d' ]
]

-- Each line takes three bytes at least.
unfoldable pub parse_headers : HttpReqDecoder → Result (Bool × HttpReqDecoder)
parse_headers d = header_loop (suc (readable_bytes d.buffer)) d

unfoldable pub parse_body : HttpReqDecoder → HttpReqDecoder
parse_body d =
    let max_size = min (readable_bytes d.buffer) d.body_max_bytes in
    record d {
      req = record (d.req) {
        is_body_truncated = if ltb d.body_max_bytes max_size then true else d.req.is_body_truncated;
        body = take max_size (to_string d.buffer);
      };
      state = parse_finished;
      buffer = drop_all_bytes d.buffer;
    }

abbrev is_nil {ℓ} : {A : Type ℓ} → List A → Bool
is_nil [] = true
is_nil (x ∷ xs) = false

-- `Decode`. `moved` is what `std::move` leaves of the request.
unfoldable pub decode_loop :
    (HttpReq → HttpReq) → ℕ → HttpReqDecoder → Result (Option HttpReq × HttpReqDecoder)
decode_loop moved zero d = fault out_of_fuel
decode_loop moved (suc fuel) d =
    let next : Bool × HttpReqDecoder → Result (Option HttpReq × HttpReqDecoder) =
      λ r. elim (r.0) [ true ↦ decode_loop moved fuel r.1 | false ↦ ok (none, r.1) ] in
    elim d.state [
      | expect_request_line ↦
          if is_nil d.req.headers && is_nil d.req.body
          then parse_request_line d >>= next
          else fault assertion
      | expect_headers ↦ parse_headers d >>= next
      | expect_body ↦ decode_loop moved fuel (parse_body d)
      | parse_finished ↦
          ok (some d.req, record d { state = expect_request_line; req = moved d.req })
    ]

-- Four rounds lead through the states.
unfoldable pub decode :
    (HttpReq → HttpReq) → HttpReqDecoder → Result (Option HttpReq × HttpReqDecoder)
unfolding decode_loop
decode moved d = decode_loop moved 4 d
