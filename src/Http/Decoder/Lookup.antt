-- ===== src/Http/Decoder/Lookup.antt =====
-- `GetHeader` of src/proto/http/HttpReq.cc on the headers that the decoder collects.
use jerry.Base.{
  ℕ, ◌≡◌, ◌∙◌, refl, ap, Bool, true, false, List, [], ◌∷◌, Option, none, some, if◌then◌else◌,
}
use jerry.Http.Headers.{Headers, emplace, find, same_name, or_new, find-emplace}
use jerry.Http.Req.{Method, HttpVersion, get_header}
use jerry.Http.Decoder.HeaderLines.{Fields, collect}
use jerry.Http.Decoder.RoundTrip.{request_of}

-- The value of the first line whose name is `j` in any spelling.
abbrev pub first_value : List ℕ → Fields → Option (List ℕ)
first_value j [] = none
first_value j ((k, v) ∷ fs) = if same_name k j then some v else first_value j fs

abbrev pub or_later : Option (List ℕ) → Option (List ℕ) → Option (List ℕ)
or_later (some w) o = some w
or_later none o = o

or_later-or_new :
    (is_same : Bool) (v : List ℕ) (o p : Option (List ℕ))
    → or_later (or_new is_same v o) p ≡ or_later o (if is_same then some v else p)
or_later-or_new b v (some w) p = refl
or_later-or_new true v none p = refl
or_later-or_new false v none p = refl

pub find-collect :
    (j : List ℕ) (fs : Fields) (m : Headers)
    → find j (collect fs m) ≡ or_later (find j m) (first_value j fs)
find-collect j [] m = or_later-none (find j m)
  where
    or_later-none : (o : Option (List ℕ)) → o ≡ or_later o none
    or_later-none none = refl
    or_later-none (some w) = refl
find-collect j ((k, v) ∷ fs) m =
    find-collect j fs (emplace k v m)
    ∙ ap (λ o. or_later o (first_value j fs)) (find-emplace j k v m)
    ∙ or_later-or_new (same_name k j) v (find j m) (first_value j fs)

-- A decoded request gives for a name the value of the first header line with this name, whatever the case
-- of its letters, and nothing if there is no such line.
pub get_header-request_of :
    (name : List ℕ) (m : Method) (uri : List ℕ) (v : HttpVersion) (fs : Fields) (body : List ℕ)
    → get_header name (request_of m uri v fs body) ≡ first_value name fs
unfolding get_header find
get_header-request_of name m uri v fs body = find-collect name fs []
