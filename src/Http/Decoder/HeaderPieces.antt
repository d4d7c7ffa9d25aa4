-- ===== src/Http/Decoder/HeaderPieces.antt =====
-- The decoder while the header lines are coming in.
use jerry.Base.{
  ℕ, zero, suc, ◌+◌, ◌≤◌, ◌<◌, ◌≡◌, ◌≢◌, ◌∙◌, ap, Bool, false, List, [], ◌∷◌, ◌++◌, none, some,
  length, drop, index_of, arith, Absent, index_of-append, length-append,
}
use jerry.Base.Result.{Result, ok}
use jerry.Buffer.{Buffer, readable_bytes, to_string}
use jerry.Buffer.Content.{readable_bytes-length}
use jerry.Http.Headers.{emplace}
use jerry.Http.Decoder.{
  HttpReqDecoder, sp, cr, lf, colon, index_of_crlf, at_end, parse_header, header_loop,
  parse_headers,
}
use jerry.Http.Decoder.RequestLine.{Holds, drop-cons}
use jerry.Http.Decoder.HeaderLines.{
  Fields, CleanFields, field_line, collect, at_end_no, at_end_field, parse_header_lem,
  header_loop_line,
}
use jerry.Http.Decoder.Pieces.{index_of-none}

-- Whole lines, and more text.
abbrev pub field_lines : Fields → List ℕ → List ℕ
field_lines [] rest = rest
field_lines ((k, v) ∷ fs) rest = field_line k v (field_lines fs rest)

-- A first part of a line, which ends in the name or in the value, and of whose CRLF at most the CR is there.
pub data PartOfLine : List ℕ → Type 0 where
  in_name : (x : ℕ) (p : List ℕ) → x ≢ cr → Absent colon (x ∷ p) → PartOfLine (x ∷ p)
  in_value :
      (x : ℕ) (k q : List ℕ)
      → x ≢ cr
      → Absent colon (x ∷ k)
      → index_of_crlf q ≡ none
      → PartOfLine (x ∷ (k ++ colon ∷ q))

parse_header-none :
    (text : List ℕ) (d : HttpReqDecoder)
    → to_string d.buffer ≡ text
    → index_of colon text ≡ none
    → parse_header d ≡ ok none
unfolding parse_header
parse_header-none text d u e = ground arith

parse_header-cut :
    (i : ℕ) (text : List ℕ) (d : HttpReqDecoder)
    → to_string d.buffer ≡ text
    → index_of colon text ≡ some i
    → index_of_crlf (drop (i + 1) text) ≡ none
    → parse_header d ≡ ok none
unfolding parse_header
parse_header-cut i text d u e f = ground arith

parse_header-PartOfLine :
    (tail : List ℕ) (d : HttpReqDecoder) → PartOfLine tail → Holds tail d → parse_header d ≡ ok none
parse_header-PartOfLine tail d (in_name x p _ a) h =
    parse_header-none (x ∷ p) d h.unread (index_of-none colon (x ∷ p) a)
parse_header-PartOfLine tail d (in_value x k q _ a e) h =
    parse_header-cut (length (x ∷ k)) (x ∷ (k ++ colon ∷ q)) d h.unread
      (index_of-append colon (x ∷ k) q a) (ap index_of_crlf (drop-cons (x ∷ k) q colon) ∙ e)

at_end-PartOfLine :
    (tail : List ℕ) (b : Buffer) → PartOfLine tail → to_string b ≡ tail → at_end b ≡ ok false
at_end-PartOfLine tail b (in_name x p h _) u = at_end_no b x p u h
at_end-PartOfLine tail b (in_value x k q h _ _) u = at_end_no b x (k ++ colon ∷ q) u h

header_loop_waits :
    (fuel : ℕ) (d : HttpReqDecoder)
    → at_end d.buffer ≡ ok false
    → parse_header d ≡ ok none
    → header_loop (suc fuel) d ≡ ok (false, d)
unfolding header_loop
header_loop_waits fuel d e f = ground arith

-- The lines are read, and the part stays in the buffer.
pub record ReadsLines (fs : Fields) (tail : List ℕ) (d : HttpReqDecoder)
    (r : Result (Bool × HttpReqDecoder)) : Type 0 where
  pub buffer : Buffer
  pub result :
      r
      ≡ ok (
        false,
        record d { req = record (d.req) { headers = collect fs d.req.headers }; buffer = buffer },
      )
  pub left : Holds tail (record d { buffer = buffer })

header_loop-ReadsLines :
    (fs : Fields) (tail : List ℕ) (fuel : ℕ) (d : HttpReqDecoder)
    → CleanFields fs
    → PartOfLine tail
    → length fs < fuel
    → Holds (field_lines fs tail) d
    → ReadsLines fs tail d (header_loop fuel d)
header_loop-ReadsLines fs tail zero d c p f h = absurd (omega arith)
header_loop-ReadsLines [] tail (suc fuel) d c p f h = record {
  buffer = d.buffer;
  result =
      header_loop_waits fuel d (at_end-PartOfLine tail d.buffer p h.unread)
        (parse_header-PartOfLine tail d p h);
  left = record { valid = h.valid; unread = h.unread };
}
header_loop-ReadsLines ((k, v) ∷ fs) tail (suc fuel) d c p f h =
    let line = parse_header_lem k v (field_lines fs tail) d c.0 c.2 h in
    let d' = record d {
      req = record (d.req) { headers = emplace k v d.req.headers };
      buffer = line.0;
    } in
    let more =
      header_loop-ReadsLines fs tail fuel d' c.3 p (omega arith)
        (record { valid = line.2.valid; unread = line.2.unread }) in
    record {
      buffer = more.buffer;
      result =
          header_loop_line fuel d d' (at_end_field k v (field_lines fs tail) d.buffer c.1 h.unread)
            line.1
          ∙ more.result;
      left = record { valid = more.left.valid; unread = more.left.unread };
    }

length-field_lines : (fs : Fields) (rest : List ℕ) → length fs ≤ length (field_lines fs rest)
length-field_lines [] rest = omega arith
length-field_lines ((k, v) ∷ fs) rest = omega (
  arith,
  length-append k (colon ∷ sp ∷ (v ++ cr ∷ lf ∷ field_lines fs rest)),
  length-append v (cr ∷ lf ∷ field_lines fs rest),
  length-field_lines fs rest,
)

pub parse_headers-ReadsLines :
    (fs : Fields) (tail : List ℕ) (d : HttpReqDecoder)
    → CleanFields fs
    → PartOfLine tail
    → Holds (field_lines fs tail) d
    → ReadsLines fs tail d (parse_headers d)
unfolding parse_headers
parse_headers-ReadsLines fs tail d c p h =
    header_loop-ReadsLines fs tail (suc (readable_bytes d.buffer)) d c p
      (omega (
        arith,
        readable_bytes-length d.buffer h.valid,
        ap length h.unread,
        length-field_lines fs tail,
      ))
      h
