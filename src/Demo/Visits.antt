-- ===== src/Demo/Visits.antt =====
-- Which visit the page of examples/DemoHttpServer.cc shows as the last one.
use jerry.Base.{ℕ, ◌≡◌, refl, ap, ◌∙◌, Absent, List, [], ◌∷◌, some, arith}
use jerry.Base.Result.{Result, ok, fault, ◌>>=◌}
use jerry.Conn.Context.{TcpContext, find, get, set, or_else, get-set}
use jerry.Http.Req.{HttpReq}
use jerry.Http.Req
use jerry.Http.Resp.{HttpResp, set_body}
use jerry.Utils.DateTime
use jerry.Utils.DateTime.{Tm}
use jerry.Demo.{page, last_time_key, on_request}

-- A request with the time of its event and the clock.
pub record Visit : Type 0 where
  pub req : HttpReq
  pub resp : HttpResp
  pub time : ℕ
  pub now : ℕ

-- The bodies of the answers to the visits of one connection.
abbrev pub bodies : (ℕ → Tm) → List Visit → TcpContext ℕ → Result (List (List ℕ))
bodies gmtime [] context = ok []
bodies gmtime (v ∷ vs) context =
    on_request gmtime v.now v.time v.req v.resp context >>= λ (resp, context').
    bodies gmtime vs context' >>= λ rest. ok (resp.body ∷ rest)

-- The pages that show one time as that of the last visit.
abbrev pub pages : (ℕ → Tm) → ℕ → List Visit → Result (List (List ℕ))
pages gmtime shown [] = ok []
pages gmtime shown (v ∷ vs) = Req.to_string v.req >>= λ text. pages gmtime shown vs >>= λ rest.
    ok (page (DateTime.to_string gmtime v.time) (DateTime.to_string gmtime shown) text ∷ rest)

bind_both :
    {A B C : Type 0} (r : Result A) (f : A → Result B) (k : B → Result C) (g : A → Result C)
    → ((a : A) → (f a >>= k) ≡ g a)
    → ((r >>= f) >>= k) ≡ (r >>= g)
bind_both (ok a) f k g h = h a
bind_both (fault e) f k g h = refl

key_whole : Absent 0 last_time_key
key_whole = (
  (λ e. omega arith),
  (
    (λ e. omega arith),
    (
      (λ e. omega arith),
      (
        (λ e. omega arith),
        (
          (λ e. omega arith),
          (
            (λ e. omega arith),
            ((λ e. omega arith), ((λ e. omega arith), ((λ e. omega arith), tt))),
          ),
        ),
      ),
    ),
  ),
)

-- Once a time is kept with the connection, later visits keep it.
still_kept :
    (shown time : ℕ) (context : TcpContext ℕ)
    → get last_time_key context ≡ some shown
    → get last_time_key (set last_time_key time context) ≡ some shown
still_kept shown time context kept =
    get-set last_time_key time context key_whole ∙ ap (λ o. some (or_else o time)) kept

first_kept : (time : ℕ) → get last_time_key (set last_time_key time []) ≡ some time
unfolding get find
first_kept time = get-set last_time_key time [] key_whole

after_first :
    (gmtime : ℕ → Tm) (shown : ℕ) (vs : List Visit) (context : TcpContext ℕ)
    → get last_time_key context ≡ some shown
    → bodies gmtime vs context ≡ pages gmtime shown vs
unfolding on_request set_body
after_first gmtime shown [] context kept = refl
after_first gmtime shown (v ∷ vs) context kept =
    bind_both (Req.to_string v.req) _ _ _
      λ text. rw (kept, after_first gmtime shown vs _ (still_kept shown v.time context kept)) refl

-- The answers to the requests of one connection: the page for the first shows the clock as the time of the
-- last visit, and the page for each later one shows the time of the first, however many came in between. Where
-- the text of a request ends with an exception, both sides end with it.
pub visits_lem :
    (gmtime : ℕ → Tm) (v : Visit) (vs : List Visit)
    → bodies gmtime (v ∷ vs) [] ≡ (
        Req.to_string v.req >>= λ text. pages gmtime v.time vs >>= λ rest.
        ok (page (DateTime.to_string gmtime v.time) (DateTime.to_string gmtime v.now) text ∷ rest))
unfolding on_request set_body get find
visits_lem gmtime v vs =
    bind_both (Req.to_string v.req) _ _ _
      λ text. rw (after_first gmtime v.time vs _ (first_kept v.time)) refl
