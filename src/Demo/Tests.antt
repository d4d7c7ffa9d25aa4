-- ===== src/Demo/Tests.antt =====
-- Three visits of one client.
use jerry.Base.{ℕ, ◌≡◌, [], ◌∷◌, codes}
use jerry.Base.Result.{ok, ◌>>=◌}
use jerry.Http.Req.{HttpReq, get, http11, empty_req}
use jerry.Http.Req
use jerry.Http.Resp.{empty_resp}
use jerry.Utils.DateTime
use jerry.Utils.DateTime.{Tm}
use jerry.Demo.{page}
use jerry.Demo.Visits.{Visit, bodies, pages, visits_lem}

abbrev noon : ℕ → Tm
noon s = record {
  tm_year = 122;
  tm_mon = 2;
  tm_mday = 12;
  tm_hour = 12;
  tm_min = 0;
  tm_sec = s;
  tm_wday = 6;
}

abbrev index_page : HttpReq
index_page = record empty_req { request_uri = codes "/index.html"; method = get; version = http11 }

abbrev at : ℕ → Visit
at t = record { req = index_page; resp = empty_resp; time = t; now = t }

visits_example : bodies noon (at 1000000 ∷ at 2000000 ∷ at 3000000 ∷ []) [] ≡ (
    Req.to_string index_page >>= λ text.
    pages noon 1000000 (at 2000000 ∷ at 3000000 ∷ []) >>= λ rest.
    ok (page (DateTime.to_string noon 1000000) (DateTime.to_string noon 1000000) text ∷ rest))
visits_example = visits_lem noon (at 1000000) (at 2000000 ∷ at 3000000 ∷ [])
