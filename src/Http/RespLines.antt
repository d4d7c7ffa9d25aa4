-- ===== src/Http/RespLines.antt =====
-- The text that `ToString` of src/proto/http/HttpResp.cc makes, read by the header parser of
-- src/proto/http/HttpReqDecoder.cc.
use jerry.Base.{
  ℕ, zero, suc, ◌+◌, ◌/◌, ◌%◌, ◌≡◌, ◌∙◌, refl, ap, List, [], ◌∷◌, ◌++◌, some, length, arith, Absent,
  append_assoc, codes,
}
use jerry.Base.Result.{ok}
use jerry.Buffer.{Buffer}
use jerry.Http.Headers.{Headers, find}
use jerry.Http.Decoder.Lookup.{first_value, or_later, find-collect}
use jerry.Http.Resp.{HttpResp, Entries, reason, decimal, decimal_loop, entry_lines, to_string, crlf}
use jerry.Http.Decoder.{HttpReqDecoder, cr, lf, colon, sp, parse_headers, expect_body}
use jerry.Http.Decoder.RequestLine.{Holds, Parsed}
use jerry.Http.Decoder.HeaderLines.{Fields, CleanFields, header_text, collect, parse_headers_lem}

-- The header lines of a response: its own, and the two that `ToString` adds.
abbrev pub resp_fields : List ℕ → HttpResp → Fields
resp_fields date r =
    r.headers ++ (codes "Content-Length", decimal (length r.body)) ∷ (codes "Date", date) ∷ []

abbrev pub status_line : ℕ → List ℕ → List ℕ
status_line status text = codes "HTTP/1.1 " ++ (decimal status ++ (codes " " ++ (text ++ crlf)))

entry_lines-header_text :
    (m : Entries) (fs : Fields) (body : List ℕ)
    → entry_lines m ++ header_text fs body ≡ header_text (m ++ fs) body
unfolding entry_lines
entry_lines-header_text [] fs body = refl
entry_lines-header_text ((k, v) ∷ m) fs body =
    simp append_assoc
      (ap (λ l. k ++ colon ∷ sp ∷ (v ++ cr ∷ lf ∷ l)) (entry_lines-header_text m fs body))

status_line-append :
    (status : ℕ) (text rest : List ℕ)
    → codes "HTTP/1.1 " ++ (decimal status ++ (codes " " ++ (text ++ (crlf ++ rest))))
      ≡ status_line status text ++ rest
status_line-append status text rest = simp append_assoc refl

to_string-lines :
    (date text : List ℕ) (r : HttpResp)
    → reason r.status_code ≡ some text
    → to_string date r
      ≡ ok (status_line r.status_code text ++ header_text (resp_fields date r) r.body)
unfolding to_string
to_string-lines date text r e =
    let added = (codes "Content-Length", decimal (length r.body)) ∷ (codes "Date", date) ∷ [] in
    rw (e, to_string)
      (ap ok (
        ap
          (λ l.
            codes "HTTP/1.1 " ++ (decimal r.status_code ++ (codes " " ++ (text ++ (crlf ++ l)))))
          (entry_lines-header_text r.headers added r.body)
        ∙ status_line-append r.status_code text (header_text (resp_fields date r) r.body)))

digits-Absent : (fuel n : ℕ) (acc : List ℕ) → Absent cr acc → Absent cr (decimal_loop fuel n acc)
unfolding decimal_loop
digits-Absent zero n acc a = a
digits-Absent (suc fuel) n acc a =
    ground (arith, digits-Absent fuel (n / 10) ((48 + n % 10) ∷ acc) (omega arith, a), a)

added-CleanFields :
    (m : Fields) (n : ℕ) (date : List ℕ)
    → CleanFields m
    → Absent cr date
    → CleanFields (m ++ (codes "Content-Length", decimal n) ∷ (codes "Date", date) ∷ [])
unfolding decimal
added-CleanFields [] n date c a =
    (omega arith, omega arith, digits-Absent (suc n) n [] tt, (omega arith, omega arith, a, tt))
added-CleanFields ((k, v) ∷ m) n date c a = (c.0, c.1, c.2, added-CleanFields m n date c.3 a)

-- A response whose status is in the table, whose header names have no colon and no CR and whose values have
-- no CR, printed by `ToString`: a client that takes the status line off and reads the rest with the library's
-- own header parser comes to the body, and exactly the body is left. It then has for each name, in any
-- spelling, the value that it had before, or else that of the first line with this name among the response's
-- own headers, the length of the body and the date, in this order: of equal names the later lines are lost,
-- also the true length behind a `Content-Length` of the user.
pub to_string_read_back :
    (date text : List ℕ) (r : HttpResp) (d : HttpReqDecoder)
    → reason r.status_code ≡ some text
    → CleanFields r.headers
    → Absent cr date
    → Holds (header_text (resp_fields date r) r.body) d
    → (to_string date r
        ≡ ok (status_line r.status_code text ++ header_text (resp_fields date r) r.body))
      × (hs : Headers) × (b : Buffer) × Parsed r.body
          (record d { req = record (d.req) { headers = hs }; state = expect_body; buffer = b })
          (parse_headers d)
      × ((name : List ℕ)
          → find name hs
            ≡ or_later (find name d.req.headers) (first_value name (resp_fields date r)))
to_string_read_back date text r d e c a h =
    let (b, parsed) =
      parse_headers_lem (resp_fields date r) r.body d
        (added-CleanFields r.headers (length r.body) date c a) h in
    (
      to_string-lines date text r e,
      collect (resp_fields date r) d.req.headers,
      b,
      parsed,
      λ name. find-collect name (resp_fields date r) d.req.headers,
    )
