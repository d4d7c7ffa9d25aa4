-- ===== src/Server/Tests.antt =====
-- The servers' theorems at small inputs.
use jerry.Base.{ℕ, ◌≡◌, refl, true, false, List, [], ◌∷◌, ◌++◌, length, arith, codes}
use jerry.Base.Result.{ok}
use jerry.Conn.{run}
use jerry.Conn.Drain.{writables}
use jerry.Conn.Tests.{one_taken, one_taken-TakesSome}
use jerry.Http.Req.{get, http11, method_string, version_string}
use jerry.Http.Resp
use jerry.Http.Resp.{HttpResp}
use jerry.Http.Decoder.RequestLine.{request_line}
use jerry.Http.Decoder.HeaderLines.{Fields, CleanFields, header_text}
use jerry.Buffer.{to_string}
use jerry.Server.Http.{HttpClient, HttpUser}
use jerry.Server.Answers.{new_client}
use jerry.Server.Stages.{Plain, line}
use jerry.Http.Decoder.HeaderPieces.{in_name}
use jerry.Server.Conversation.{
  Conversation, ends, line_waits, lines_begin, lines_answer, line_answers, run_reads, http_serves,
}
use jerry.Http.Decoder.Pieces.{in_uri}

-- It answers every request with `hi`.
abbrev greeting : HttpResp
greeting = record Resp.empty_resp { body = codes "hi" }

abbrev greeter : HttpUser
greeter = record {
  on_connected = λ c. c;
  on_request = λ req resp c. (greeting, c);
  moved = λ r. record r { headers = []; body = [] };
  date = codes "today";
  is_limited = λ c. false;
  is_shut_down = true;
}

abbrev first_field : Fields
first_field = (codes "Host", codes "a") ∷ []

abbrev second_field : Fields
second_field = (codes "User", codes "b") ∷ []

abbrev two_fields : Fields
two_fields = (codes "Host", codes "a") ∷ (codes "User", codes "b") ∷ []

two_fields-CleanFields : CleanFields two_fields
two_fields-CleanFields = omega arith

abbrev request : List ℕ
request = request_line (codes "GET") (codes "/") http11 (header_text two_fields (codes "x"))

abbrev greeting_text : List ℕ
greeting_text = codes "HTTP/1.1 200 OK\r\nContent-Length: 2\r\nDate: today\r\n\r\nhi"

abbrev plain_greeter : Plain greeter
plain_greeter = record {
  respond = λ r. greeting;
  quiet = λ c. refl;
  responds = λ r c. refl;
  headers_moved = λ r. refl;
  body_moved = λ r. refl;
  mark_moved = λ r h. h;
}

-- The first request comes in three reads, the second in one.
abbrev first_read : List ℕ
first_read = codes "GET /"

abbrev second_read : List ℕ
second_read = codes " HTTP/1.1\r\nHost: a\r\nUs"

abbrev third_read : List ℕ
third_read = codes "er: b\r\n\r\nx"

greeter-Conversation :
    Conversation greeter
      (λ r. greeting)
      (line [])
      (first_read ∷ second_read ∷ third_read ∷ request ∷ [])
      (greeting_text ++ (greeting_text ++ []))
unfolding method_string Resp.to_string Resp.reason Resp.decimal version_string
greeter-Conversation =
    line_waits [] first_read _ _ (omega arith) (omega arith)
      (in_uri get (codes "GET") (codes "/") refl (omega arith))
      (lines_begin first_read second_read _ _ get (codes "GET") (codes "/") http11 first_field
        (codes "Us") (omega arith) (omega arith) refl refl (omega arith) (omega arith)
        (in_name b'U' (codes "s") (omega arith) (omega arith))
        (lines_answer get (codes "/") http11 first_field second_field (codes "Us") third_read
          (codes "x") _ greeting_text (greeting_text ++ []) (omega arith) (omega arith) refl
          (omega arith) (omega arith) refl
          (line_answers [] request [] greeting_text [] get (codes "GET") (codes "/") http11
            two_fields (codes "x") (omega arith) (omega arith) refl refl (omega arith)
            two_fields-CleanFields (omega arith) refl (ends (line [])))))

http_serves_example :
    (a : HttpClient) × (run_reads greeter
        (first_read ∷ second_read ∷ third_read ∷ request ∷ [])
        (new_client greeter)
      ≡ ok a)
    × ((run (writables one_taken (length (to_string a.conn.send_buffer))) a.conn).kernel_out
        ≡ greeting_text ++ (greeting_text ++ []))
http_serves_example =
    http_serves greeter plain_greeter (first_read ∷ second_read ∷ third_read ∷ request ∷ [])
      (greeting_text ++ (greeting_text ++ [])) one_taken greeter-Conversation one_taken-TakesSome
