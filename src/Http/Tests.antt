-- ===== src/Http/Tests.antt =====
-- The theorems on HTTP at small inputs.
use jerry.Base.{ℕ, ◌++◌, ◌≡◌, refl, false, List, [], ◌∷◌, some, arith, codes}
use jerry.Base.Result.{Ended, ok}
use jerry.Buffer.{Buffer, to_string}
use jerry.Buffer.Tests.{full, full-IsValid, to_string-full}
use jerry.Http.Req.{empty_req, get, http11, method_string}
use jerry.Http.Resp
use jerry.Http.Resp.{HttpResp, reason}
use jerry.Http.Headers.{Headers, find}
use jerry.Http.Decoder.Lookup.{first_value, or_later}
use jerry.Http.RespLines.{resp_fields, status_line, to_string_read_back}
use jerry.Http.Decoder.{
  HttpReqDecoder, new_decoder, set_body_max_bytes, decode, parse_headers, expect_body,
  expect_request_line,
}
use jerry.Http.Decoder.RequestLine.{request_line, Parsed}
use jerry.Http.Decoder.HeaderLines.{Fields, CleanFields, header_text, collect}
use jerry.Http.Decoder.Enough.{decode-Ended}
use jerry.Http.Decoder.RoundTrip.{decode_lem}

abbrev two_fields : Fields
two_fields = (codes "Host", codes "a") ∷ (codes "X", codes "1 2") ∷ []

two_fields-CleanFields : CleanFields two_fields
two_fields-CleanFields = omega arith

abbrev header_part : List ℕ
header_part = header_text two_fields (codes "hi")

abbrev request : List ℕ
request = request_line (codes "GET") (codes "/a") http11 header_part

decode_example :
    (d' : HttpReqDecoder) × (decode (λ r. r) (set_body_max_bytes 100 (new_decoder (full request)))
      ≡ ok (
        some (record {
          body = codes "hi";
          request_uri = codes "/a";
          headers = collect two_fields [];
          method = get;
          version = http11;
          is_body_truncated = false;
        }),
        d',
      ))
    × (d'.state ≡ expect_request_line)
    × (to_string d'.buffer ≡ [])
unfolding method_string
decode_example =
    decode_lem (λ r. r) get (codes "GET") (codes "/a") http11 two_fields (codes "hi") 100
      (full request) refl (omega arith) two_fields-CleanFields (omega arith) (full-IsValid request)
      (to_string-full request)

-- A request whose version is unknown.
abbrev bad_version : List ℕ
bad_version = codes "GET / HTTP/3\r\n"

decode-Ended_example : Ended (decode (λ r. r) (new_decoder (full bad_version)))
decode-Ended_example =
    decode-Ended (λ r. r) (new_decoder (full bad_version)) (full-IsValid bad_version)

abbrev found_resp : HttpResp
found_resp = record {
  headers = (codes "Location", codes "/b") ∷ [];
  status_code = 302;
  body = codes "gone";
}

abbrev found_lines : List ℕ
found_lines = header_text (resp_fields (codes "today") found_resp) (codes "gone")

to_string_read_back_example :
    (Resp.to_string (codes "today") found_resp
      ≡ ok (status_line 302 (codes "Found") ++ found_lines))
    × (hs : Headers) × (b : Buffer) × Parsed
        (codes "gone")
        (record (new_decoder (full found_lines)) {
          req = record empty_req { headers = hs };
          state = expect_body;
          buffer = b;
        })
        (parse_headers (new_decoder (full found_lines)))
    × ((name : List ℕ)
        → find name hs
          ≡ or_later (find name []) (first_value name (resp_fields (codes "today") found_resp)))
unfolding reason
to_string_read_back_example =
    to_string_read_back (codes "today") (codes "Found") found_resp (new_decoder (full found_lines))
      refl (omega arith) (omega arith)
      (record { valid = full-IsValid found_lines; unread = to_string-full found_lines })
