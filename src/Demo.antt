-- ===== src/Demo.antt =====
-- The example server of examples/DemoHttpServer.cc: what `OnRequest` answers, and what it keeps with the
-- connection. The lines that it logs are left out. `gmtime_r` is a parameter, and `now` is the clock.
pub mod Visits
mod Tests
use jerry.Base.{ℕ, List, [], ◌∷◌, ◌++◌, take, take_until, replicate, codes}
use jerry.Base.Result.{Result, ok, ◌>>=◌}
use jerry.Conn.Context.{TcpContext, get, set, or_else}
use jerry.Http.Req.{HttpReq}
use jerry.Http.Req
use jerry.Http.Resp.{HttpResp, set_server, set_content_type, set_body}
use jerry.Utils.DateTime
use jerry.Utils.DateTime.{Tm}

-- A part of the page with the blanks in front of it, and one that ends its line.
abbrev part : ℕ → List ℕ → List ℕ
part blanks s = replicate blanks 32 ++ s

abbrev line : ℕ → List ℕ → List ℕ
line blanks s = part blanks s ++ 10 ∷ []

-- `snprintf` into the 8192 bytes of `buf`, and the string that `SetBody` gets from it.
unfoldable pub page : List ℕ → List ℕ → List ℕ → List ℕ
page time last_time request = take_until 0 (
    take 8191 (
      line 0 []
      ++ line 20 (codes "<html>")
      ++ line 24 (codes "<head>")
      ++ line 28 (codes "<title>Demo</title>")
      ++ line 24 (codes "</head>")
      ++ line 24 (codes "<body>")
      ++ line 28 (codes "<h1>Hello, This is Jerry!</h1>")
      ++ part 28 (codes "<p>Server received request: ")
      ++ time
      ++ line 0 (codes "</p>")
      ++ part 28 (codes "<p>Last visit time: ")
      ++ last_time
      ++ line 0 (codes "</p>")
      ++ line 28 (codes "<hr>")
      ++ line 28 (codes "<div>")
      ++ line 32 (codes "<h4>Your Request</h4>")
      ++ part 32 (codes "<pre>")
      ++ take_until 0 request
      ++ line 0 (codes "</pre>")
      ++ line 28 (codes "</div>")
      ++ line 24 (codes "</body>")
      ++ line 20 (codes "</html>")
      ++ part 16 []))

abbrev pub last_time_key : List ℕ
last_time_key = codes "last_time"

unfoldable pub on_request :
    (ℕ → Tm) → ℕ → ℕ → HttpReq → HttpResp → TcpContext ℕ → Result (HttpResp × TcpContext ℕ)
on_request gmtime now time req resp context =
    let resp1 =
      set_content_type (codes "text/html; charset=utf-8") (set_server (codes "Jerry/0.5") resp) in
    let last_time = or_else (get last_time_key context) now in
    Req.to_string req >>= λ text. ok (
      set_body (page (DateTime.to_string gmtime time) (DateTime.to_string gmtime last_time) text)
          resp1,
      set last_time_key time context,
    )
