-- ===== src/Server/Conversation.antt =====
-- A whole conversation with one client of src/proto/http/HttpServer.cc, from the bytes that its connection
-- reads to those that the kernel gets.
use jerry.Base.{
  ℕ, ◌*◌, ◌≤◌, ◌<◌, ◌≡◌, ◌∙◌, refl, sym, ap, subst, false, List, [], ◌∷◌, ◌++◌, Option, some,
  length, arith, append-nil, append_assoc, Absent,
}
use jerry.Base.Result.{Result, ok, ◌>>=◌}
use jerry.Buffer.{init, to_string}
use jerry.Buffer.Valid.{IsValid, init-IsValid}
use jerry.Buffer.Socket.{extra_size}
use jerry.Conn.{open_conn, run}
use jerry.Conn.Awake.{Inv, open_conn-Inv}
use jerry.Conn.Delivery.{stream}
use jerry.Conn.Drain.{TakesSome, writables, run_drains}
use jerry.Http.Req.{HttpReq, Method, HttpVersion, method_string}
use jerry.Http.Resp
use jerry.Http.Resp.{HttpResp, empty_resp}
use jerry.Http.Decoder.{new_decoder, set_body_max_bytes, sp}
use jerry.Http.Decoder.RequestLine.{request_line}
use jerry.Http.Decoder.HeaderLines.{Fields, CleanFields, header_text}
use jerry.Http.Decoder.RoundTrip.{request_of}
use jerry.Http.Decoder.Pieces.{FirstPart}
use jerry.Server.Http.{HttpClient, HttpUser, on_tcp_connected, on_readable}
use jerry.Server.Answers.{new_client, empty_init}
use jerry.Server.Reads.{gives}
use jerry.Http.Decoder.HeaderPieces.{PartOfLine, field_lines}
use jerry.Server.Stages.{Plain, Stage, line, lines, Open, Step}
use jerry.Server.Parts.{
  line_waits-Step, lines_begin-Step, lines_wait-Step, line_answers-Step, lines_answer-Step,
}

-- The connection is readable once for each part.
unfoldable pub run_reads : HttpUser → List (List ℕ) → HttpClient → Result HttpClient
run_reads u [] a = ok a
run_reads u (q ∷ qs) a = on_readable u (gives q) false false a >>= run_reads u qs

-- What HTTP asks of the server, by the parts that come in: a part that leaves the request line unfinished, or
-- that ends inside a header line, has no answer, and one that completes the request is answered.
pub data Conversation (u : HttpUser) (respond : HttpReq → HttpResp)
    : Stage → List (List ℕ) → List ℕ → Type 0 where
  ends : (s : Stage) → Conversation u respond s [] []
  line_waits :
      (p q : List ℕ) (qs : List (List ℕ)) (out : List ℕ)
      → 0 < length q
      → length q ≤ extra_size
      → FirstPart (p ++ q)
      → Conversation u respond (line (p ++ q)) qs out
      → Conversation u respond (line p) (q ∷ qs) out
  lines_begin :
      (p q : List ℕ) (qs : List (List ℕ)) (out : List ℕ) (m : Method) (s uri : List ℕ)
      (v : HttpVersion) (gs : Fields) (tail : List ℕ)
      → 0 < length q
      → length q ≤ extra_size
      → p ++ q ≡ request_line s uri v (field_lines gs tail)
      → method_string m ≡ some s
      → Absent sp uri
      → CleanFields gs
      → PartOfLine tail
      → Conversation u respond (lines m uri v gs tail) qs out
      → Conversation u respond (line p) (q ∷ qs) out
  lines_wait :
      (m : Method) (uri : List ℕ) (v : HttpVersion) (fs gs : Fields) (tail tail' q : List ℕ)
      (qs : List (List ℕ)) (out : List ℕ)
      → 0 < length q
      → length q ≤ extra_size
      → tail ++ q ≡ field_lines gs tail'
      → CleanFields gs
      → PartOfLine tail'
      → Conversation u respond (lines m uri v (fs ++ gs) tail') qs out
      → Conversation u respond (lines m uri v fs tail) (q ∷ qs) out
  line_answers :
      (p q : List ℕ) (qs : List (List ℕ)) (text out : List ℕ) (m : Method) (s uri : List ℕ)
      (v : HttpVersion) (fs : Fields) (body : List ℕ)
      → 0 < length q
      → length q ≤ extra_size
      → p ++ q ≡ request_line s uri v (header_text fs body)
      → method_string m ≡ some s
      → Absent sp uri
      → CleanFields fs
      → length body ≤ 4 * 1024 * 1024
      → Resp.to_string u.date (respond (request_of m uri v fs body)) ≡ ok text
      → Conversation u respond (line []) qs out
      → Conversation u respond (line p) (q ∷ qs) (text ++ out)
  lines_answer :
      (m : Method) (uri : List ℕ) (v : HttpVersion) (fs gs : Fields) (tail q body : List ℕ)
      (qs : List (List ℕ)) (text out : List ℕ)
      → 0 < length q
      → length q ≤ extra_size
      → tail ++ q ≡ header_text gs body
      → CleanFields gs
      → length body ≤ 4 * 1024 * 1024
      → Resp.to_string u.date (respond (request_of m uri v (fs ++ gs) body)) ≡ ok text
      → Conversation u respond (line []) qs out
      → Conversation u respond (lines m uri v fs tail) (q ∷ qs) (text ++ out)

-- What a run of reads comes to.
record Runs (out : List ℕ) (a : HttpClient) (r : Result HttpClient) : Type 0 where
  stage : Stage
  last : HttpClient
  result : r ≡ ok last
  opens : Open stage last
  sent : stream last.conn ≡ stream a.conn ++ out

Runs-Step :
    (u : HttpUser) (s : Stage) (q : List ℕ) (qs : List (List ℕ)) (first out : List ℕ)
    (a : HttpClient) (t : Step s first a (on_readable u (gives q) false false a))
    → Runs out t.next (run_reads u qs t.next)
    → Runs (first ++ out) a (run_reads u (q ∷ qs) a)
unfolding run_reads
Runs-Step u s q qs first out a t r = record {
  stage = r.stage;
  last = r.last;
  result = ap (λ x. x >>= run_reads u qs) t.result ∙ r.result;
  opens = r.opens;
  sent = r.sent ∙ ap (λ l. l ++ out) t.sent ∙ append_assoc (stream a.conn) first out;
}

run-Conversation :
    (u : HttpUser) (plain : Plain u) (s : Stage) (qs : List (List ℕ)) (out : List ℕ)
    (a : HttpClient)
    → Open s a
    → Conversation u plain.respond s qs out
    → Runs out a (run_reads u qs a)
unfolding run_reads
run-Conversation u plain s [] _ a o (ends _) = record {
  stage = s;
  last = a;
  result = refl;
  opens = o;
  sent = sym (append-nil (stream a.conn));
}
run-Conversation u plain _ (q ∷ qs) out a o (line_waits p _ _ _ pos fits first rest) =
    let t = line_waits-Step u p q a o pos fits first in
    Runs-Step u (line (p ++ q)) q qs [] out a t
      (run-Conversation u plain (line (p ++ q)) qs out t.next t.opens rest)
run-Conversation u plain _ (q ∷ qs) out a o
      (lines_begin p _ _ _ m s uri v gs tail pos fits all named no_space clean part rest) =
    let t = lines_begin-Step u p q m s uri v gs tail a o pos fits all named no_space clean part in
    Runs-Step u (lines m uri v gs tail) q qs [] out a t
      (run-Conversation u plain (lines m uri v gs tail) qs out t.next t.opens rest)
run-Conversation u plain _ (q ∷ qs) out a o
      (lines_wait m uri v fs gs tail tail' _ _ _ pos fits all clean part rest) =
    let t = lines_wait-Step u m uri v fs gs tail tail' q a o pos fits all clean part in
    Runs-Step u (lines m uri v (fs ++ gs) tail') q qs [] out a t
      (run-Conversation u plain (lines m uri v (fs ++ gs) tail') qs out t.next t.opens rest)
run-Conversation u plain _ (q ∷ qs) _ a o
      (line_answers p _ _ text out m s uri v fs body pos fits all named no_space clean small printed
        rest) =
    let t =
      line_answers-Step u plain p q text m s uri v fs body a o pos fits all named no_space clean
        small printed in
    Runs-Step u (line []) q qs text out a t
      (run-Conversation u plain (line []) qs out t.next t.opens rest)
run-Conversation u plain _ (q ∷ qs) _ a o
      (lines_answer m uri v fs gs tail _ body _ text out pos fits all clean small printed rest) =
    let t =
      lines_answer-Step u plain m uri v fs gs tail q body text a o pos fits all clean small
        printed in
    Runs-Step u (line []) q qs text out a t
      (run-Conversation u plain (line []) qs out t.next t.opens rest)

new_client-Open : (u : HttpUser) → Plain u → Open (line []) (new_client u)
unfolding on_tcp_connected open_conn set_body_max_bytes
new_client-Open u plain = record {
  decoder = set_body_max_bytes (4 * 1024 * 1024) (new_decoder (init 1024));
  has_codec = refl;
  at = record { start = refl; no_headers = refl; no_body = refl; whole = refl };
  limit = refl;
  on = ap (λ c. c.state) (plain.quiet (open_conn false));
  unencrypted = ap (λ c. c.encrypted) (plain.quiet (open_conn false));
  inv = subst Inv (sym (plain.quiet (open_conn false))) (open_conn-Inv false);
  valid =
      subst (λ c. IsValid c.recv_buffer) (sym (plain.quiet (open_conn false))) (init-IsValid 1024);
  unread = ap (λ c. to_string c.recv_buffer) (plain.quiet (open_conn false)) ∙ empty_init;
}

stream_new : (u : HttpUser) → Plain u → stream (new_client u).conn ≡ []
unfolding stream on_tcp_connected open_conn
stream_new u plain = ap stream (plain.quiet (open_conn false)) ∙ empty_init

-- The server implements HTTP with kept connections, as `Conversation` states it: over a plain connection
-- that it has just accepted, a client whose requests come one after the other, each in any number of reads
-- that first end inside its request line, then inside its header lines, and at last complete it, gets the
-- responses to all its requests in order, whole and nothing else, when its socket is then writable often
-- enough. The user leaves the connection alone, and each `write` of one byte or more takes at least one.
pub http_serves :
    (u : HttpUser) (plain : Plain u) (qs : List (List ℕ)) (out : List ℕ) (write : List ℕ → Option ℕ)
    → Conversation u plain.respond (line []) qs out
    → TakesSome write
    → (a : HttpClient) × (run_reads u qs (new_client u) ≡ ok a)
      × ((run (writables write (length (to_string a.conn.send_buffer))) a.conn).kernel_out ≡ out)
unfolding stream
http_serves u plain qs out write talk takes =
    let r =
      run-Conversation u plain (line []) qs out (new_client u) (new_client-Open u plain) talk in
    let c = r.last.conn in
    let (_, _, drained) =
      run_drains write (length (to_string c.send_buffer)) c takes r.opens.inv r.opens.on
        r.opens.unencrypted (omega arith) in
    (r.last, r.result, drained ∙ r.sent ∙ ap (λ l. l ++ out) (stream_new u plain))
