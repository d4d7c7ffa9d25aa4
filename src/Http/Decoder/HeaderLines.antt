-- ===== src/Http/Decoder/HeaderLines.antt =====
-- `ParseHeaders` on header lines written out as the protocol has them.
use jerry.Base.{
  ℕ, zero, suc, ◌+◌, ◌-◌, ◌≤◌, ◌<◌, ◌≡◌, ◌≢◌, ◌∙◌, refl, sym, ap, ap₂, true, false, List, [], ◌∷◌,
  ◌++◌, some, length, take, drop, get_elem?, index_of, arith, Absent, index_of-append, take-append,
  length-append, append_assoc,
}
use jerry.Base.Result.{ok, ◌>>=◌}
use jerry.Buffer.{Buffer, to_string, readable_bytes, drop_bytes}
use jerry.Buffer.Valid.{drop_bytes-IsValid}
use jerry.Buffer.Content.{readable_bytes-length, to_string-drop_bytes}
use jerry.Http.Headers.{Headers, emplace}
use jerry.Http.Decoder.{
  HttpReqDecoder, sp, cr, lf, colon, index_of_crlf, drop_until, peek, at_end, skip_blank,
  parse_header, header_loop, parse_headers, expect_body,
}
use jerry.Http.Decoder.RequestLine.{Holds, Parsed, index_of_crlf-append, drop_until_lem, drop-cons}

-- Names and values as they stand in a message.
abbrev pub Fields : Type 0
Fields = List (List ℕ × List ℕ)

abbrev pub field_line : List ℕ → List ℕ → List ℕ → List ℕ
field_line k v rest = k ++ colon ∷ sp ∷ (v ++ cr ∷ lf ∷ rest)

-- The lines, the empty line, and the rest.
abbrev pub header_text : Fields → List ℕ → List ℕ
header_text [] rest = cr ∷ lf ∷ rest
header_text ((k, v) ∷ fs) rest = field_line k v (header_text fs rest)

abbrev pub CleanFields : Fields → Type 0
CleanFields [] = Unit {0}
CleanFields ((k, v) ∷ fs) = Absent colon k × Absent cr k × Absent cr v × CleanFields fs

-- The headers after one `emplace` for each line.
abbrev pub collect : Fields → Headers → Headers
collect [] m = m
collect ((k, v) ∷ fs) m = collect fs (emplace k v m)

get_elem?-window :
    (n r i j : ℕ) (s : List ℕ) (x : ℕ)
    → j ≡ r + i
    → get_elem? (take n (drop r s)) i ≡ some x
    → get_elem? s j ≡ some x
get_elem?-window zero r i j s x e h = cc h
get_elem?-window (suc n) zero i j [] x e h = cc h
get_elem?-window (suc n) zero zero zero (y ∷ s) x e h = h
get_elem?-window (suc n) zero zero (suc j) (y ∷ s) x e h = absurd (omega arith)
get_elem?-window (suc n) zero (suc i) zero (y ∷ s) x e h = absurd (omega arith)
get_elem?-window (suc n) zero (suc i) (suc j) (y ∷ s) x e h =
    get_elem?-window n zero i j s x (omega arith) h
get_elem?-window (suc n) (suc r) i j [] x e h = cc h
get_elem?-window (suc n) (suc r) i zero (y ∷ s) x e h = absurd (omega arith)
get_elem?-window (suc n) (suc r) i (suc j) (y ∷ s) x e h =
    get_elem?-window (suc n) r i j s x (omega arith) h

peek_lem :
    (i x : ℕ) (b : Buffer) (xs : List ℕ)
    → to_string b ≡ xs
    → get_elem? xs i ≡ some x
    → peek i b ≡ ok x
unfolding to_string
peek_lem i x b xs u e =
    let k =
      get_elem?-window (b.write_idx - b.read_idx) b.read_idx i (b.read_idx + i) b.storage x refl
        (rw u e) in
    rw (k, peek) refl

at_end_yes : (b : Buffer) (rest : List ℕ) → to_string b ≡ cr ∷ lf ∷ rest → at_end b ≡ ok true
unfolding at_end
at_end_yes b rest u =
    ground (arith, peek_lem 0 cr b (cr ∷ lf ∷ rest) u refl, peek_lem 1 lf b (cr ∷ lf ∷ rest) u refl)

pub at_end_no :
    (b : Buffer) (x : ℕ) (xs : List ℕ) → to_string b ≡ x ∷ xs → x ≢ cr → at_end b ≡ ok false
unfolding at_end
at_end_no b x xs u h = ground (arith, peek_lem 0 x b (x ∷ xs) u refl)

parse_header_step :
    (i k : ℕ) (text : List ℕ) (d : HttpReqDecoder)
    → to_string d.buffer ≡ text
    → index_of colon text ≡ some i
    → index_of_crlf (drop (i + 1) text) ≡ some k
    → parse_header d ≡ (
        drop_until (i + 1 + k + 2) (record d {
          req = record (d.req) {
            headers = emplace (take i text) (skip_blank (take k (drop (i + 1) text))) d.req.headers;
          };
        })
        >>= λ d'. ok (some d'))
unfolding parse_header
parse_header_step i k text d u e f = ground arith

-- A line adds its field, and the blank before the value is dropped.
pub parse_header_lem :
    (k v rest : List ℕ) (d : HttpReqDecoder)
    → Absent colon k
    → Absent cr v
    → Holds (field_line k v rest) d
    → (b : Buffer) × (parse_header d
        ≡ ok (
            some (record d {
              req = record (d.req) { headers = emplace k v d.req.headers };
              buffer = b;
            })))
      × Holds rest (record d { buffer = b })
parse_header_lem k v rest d a c h =
    let text = field_line k v rest in
    let n = length k in
    let tail = sp ∷ (v ++ cr ∷ lf ∷ rest) in
    let m = length (sp ∷ v) in
    let e = drop-cons k tail colon in
    let store = λ (name value : List ℕ). record d {
      req = record (d.req) { headers = emplace name (skip_blank value) d.req.headers };
    } in
    let s =
      parse_header_step n m text d h.unread (index_of-append colon k tail a)
        (ap index_of_crlf e ∙ index_of_crlf-append (sp ∷ v) rest (ground arith, c)) in
    let u =
      h.unread
      ∙ ap (λ l. k ++ colon ∷ sp ∷ l) (sym (append_assoc v (cr ∷ lf ∷ []) rest))
      ∙ sym (append_assoc k (colon ∷ sp ∷ (v ++ cr ∷ lf ∷ [])) rest) in
    let dropped =
      drop_until_lem (k ++ colon ∷ sp ∷ (v ++ cr ∷ lf ∷ [])) rest (n + 1 + m + 2) (store k (sp ∷ v))
        (record { valid = h.valid; unread = u })
        (omega (
          arith,
          length-append k (colon ∷ sp ∷ (v ++ cr ∷ lf ∷ [])),
          length-append v (cr ∷ lf ∷ []),
        )) in
    (
      dropped.0,
      s
          ∙ ap₂ (λ name value. drop_until (n + 1 + m + 2) (store name value) >>= λ d'. ok (some d'))
              (take-append k (colon ∷ tail) n refl)
              (ap (take m) e ∙ take-append (sp ∷ v) (cr ∷ lf ∷ rest) m refl)
          ∙ ap (λ r. r >>= λ d'. ok (some d')) dropped.1,
      record { valid = dropped.2.valid; unread = dropped.2.unread },
    )

-- A name that does not begin with CR is no end of the headers.
pub at_end_field :
    (k v rest : List ℕ) (b : Buffer)
    → Absent cr k
    → to_string b ≡ field_line k v rest
    → at_end b ≡ ok false
at_end_field [] v rest b a u = at_end_no b colon (sp ∷ (v ++ cr ∷ lf ∷ rest)) u (ground arith)
at_end_field (x ∷ k) v rest b a u = at_end_no b x (k ++ colon ∷ sp ∷ (v ++ cr ∷ lf ∷ rest)) u (a.0)

-- One round of the loop.
header_loop_end :
    (fuel : ℕ) (d : HttpReqDecoder)
    → at_end d.buffer ≡ ok true
    → header_loop (suc fuel) d
      ≡ ok (true, record d { buffer = drop_bytes 2 d.buffer; state = expect_body })
unfolding header_loop
header_loop_end fuel d e = ground arith

pub header_loop_line :
    (fuel : ℕ) (d d' : HttpReqDecoder)
    → at_end d.buffer ≡ ok false
    → parse_header d ≡ ok (some d')
    → header_loop (suc fuel) d ≡ header_loop fuel d'
unfolding header_loop
header_loop_line fuel d d' e f = ground arith

header_loop_lem :
    (fs : Fields) (rest : List ℕ) (fuel : ℕ) (d : HttpReqDecoder)
    → CleanFields fs
    → length fs < fuel
    → Holds (header_text fs rest) d
    → (b : Buffer) × Parsed rest
        (record d {
          req = record (d.req) { headers = collect fs d.req.headers };
          state = expect_body;
          buffer = b;
        })
        (header_loop fuel d)
header_loop_lem fs rest zero d c f h = absurd (omega arith)
header_loop_lem [] rest (suc fuel) d c f h = (
  drop_bytes 2 d.buffer,
  record {
    result = header_loop_end fuel d (at_end_yes d.buffer rest h.unread);
    left = record {
      valid = drop_bytes-IsValid 2 d.buffer h.valid;
      unread = to_string-drop_bytes 2 d.buffer h.valid ∙ ap (drop 2) h.unread;
    };
  },
)
header_loop_lem ((k, v) ∷ fs) rest (suc fuel) d c f h =
    let line = parse_header_lem k v (header_text fs rest) d c.0 c.2 h in
    let d' = record d {
      req = record (d.req) { headers = emplace k v d.req.headers };
      buffer = line.0;
    } in
    let more =
      header_loop_lem fs rest fuel d' c.3 (omega arith)
        (record { valid = line.2.valid; unread = line.2.unread }) in
    (
      more.0,
      record {
        result =
            header_loop_line fuel d d'
              (at_end_field k v (header_text fs rest) d.buffer c.1 h.unread) line.1
            ∙ more.1.result;
        left = more.1.left;
      },
    )

length-header_text : (fs : Fields) (rest : List ℕ) → length fs ≤ length (header_text fs rest)
length-header_text [] rest = omega arith
length-header_text ((k, v) ∷ fs) rest = omega (
  arith,
  length-append k (colon ∷ sp ∷ (v ++ cr ∷ lf ∷ header_text fs rest)),
  length-append v (cr ∷ lf ∷ header_text fs rest),
  length-header_text fs rest,
)

-- From a buffer that holds `name: value` lines that end in CRLF, an empty line and more text, where
-- names have no colon and no CR and values no CR, `ParseHeaders` returns true with the values added
-- to the headers one line after the other, leaves exactly the text behind the empty line in the buffer,
-- and goes on to the body; the fuel of the model is enough for it.
pub parse_headers_lem :
    (fs : Fields) (rest : List ℕ) (d : HttpReqDecoder)
    → CleanFields fs
    → Holds (header_text fs rest) d
    → (b : Buffer) × Parsed rest
        (record d {
          req = record (d.req) { headers = collect fs d.req.headers };
          state = expect_body;
          buffer = b;
        })
        (parse_headers d)
unfolding parse_headers
parse_headers_lem fs rest d c h =
    header_loop_lem fs rest (suc (readable_bytes d.buffer)) d c
      (omega (
        arith,
        readable_bytes-length d.buffer h.valid,
        ap length h.unread,
        length-header_text fs rest,
      ))
      h
