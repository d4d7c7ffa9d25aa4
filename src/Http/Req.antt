-- ===== src/Http/Req.antt =====
-- src/proto/http/HttpReq.h and HttpReq.cc: a request and its tables.
use jerry.Base.{
  ℕ, ◌≡◌, refl, subst, Bool, false, List, [], ◌∷◌, ◌++◌, Option, none, some, beq, codes, Absent,
  arith, if◌then◌else◌,
}
use jerry.Base.Result.{Result, ok, fault, missing_key, ◌>>=◌}
use jerry.Http.Headers.{Headers, find}

pub data Method : Type 0 where
  options get head post put delete trace connect : Method

pub data HttpVersion : Type 0 where
  http10 http11 : HttpVersion

pub record HttpReq : Type 0 where
  pub body : List ℕ
  pub request_uri : List ℕ
  pub headers : Headers
  pub method : Method
  pub version : HttpVersion
  pub is_body_truncated : Bool

-- `HttpReq req{}`: the enums start at 0.
abbrev pub empty_req : HttpReq
empty_req = record {
  body = [];
  request_uri = [];
  headers = [];
  method = options;
  version = http10;
  is_body_truncated = false;
}

-- `HttpReq::method_map`, which has no PUT and no CONNECT.
unfoldable pub method_string : Method → Option (List ℕ)
method_string get = some (codes "GET")
method_string post = some (codes "POST")
method_string head = some (codes "HEAD")
method_string delete = some (codes "DELETE")
method_string options = some (codes "OPTIONS")
method_string trace = some (codes "TRACE")
method_string put = none
method_string connect = none

-- `version_map`
unfoldable pub version_string : HttpVersion → List ℕ
version_string http10 = codes "HTTP/1.0"
version_string http11 = codes "HTTP/1.1"

-- `HttpReqDecoder::method_map`
unfoldable pub method_of : List ℕ → Option Method
unfolding beq
method_of s =
    if beq s (codes "GET")
    then some get
    else if beq s (codes "POST")
    then some post
    else if beq s (codes "HEAD")
    then some head
    else if beq s (codes "DELETE")
    then some delete
    else if beq s (codes "OPTIONS")
    then some options
    else if beq s (codes "TRACE")
    then some trace
    else none

-- `HttpReqDecoder::version_map`
unfoldable pub version_of : List ℕ → Option HttpVersion
unfolding beq
version_of s =
    if beq s (codes "HTTP/1.0")
    then some http10
    else if beq s (codes "HTTP/1.1")
    then some http11
    else none

unfoldable pub get_header : List ℕ → HttpReq → Option (List ℕ)
get_header name r = find name r.headers

abbrev or_missing : Option (List ℕ) → Result (List ℕ)
or_missing none = fault missing_key
or_missing (some s) = ok s

-- The loop over the headers of `ToString`.
unfoldable pub header_lines : Headers → List ℕ
header_lines [] = []
header_lines ((k, v) ∷ m) = k ++ codes ": " ++ v ++ codes "\n" ++ header_lines m

-- `ToString`
unfoldable pub to_string : HttpReq → Result (List ℕ)
unfolding method_string version_string header_lines
to_string r = do
  m ← or_missing (method_string r.method)
  ok (
      m
      ++ codes " "
      ++ r.request_uri
      ++ codes " "
      ++ version_string r.version
      ++ codes "\n"
      ++ header_lines r.headers
      ++ codes "\n"
      ++ r.body)

some_inj : (a b : List ℕ) → some a ≡ some b → a ≡ b
some_inj a b e = cc

-- What holds of the six methods that have a text holds of every printed method.
pub printed_method :
    (P : Method → List ℕ → Type 0)
    → P get (codes "GET")
    → P post (codes "POST")
    → P head (codes "HEAD")
    → P delete (codes "DELETE")
    → P options (codes "OPTIONS")
    → P trace (codes "TRACE")
    → (m : Method) (s : List ℕ) → method_string m ≡ some s
    → P m s
unfolding method_string
printed_method P a b c d f g get s e = subst (P get) (some_inj _ _ e) a
printed_method P a b c d f g post s e = subst (P post) (some_inj _ _ e) b
printed_method P a b c d f g head s e = subst (P head) (some_inj _ _ e) c
printed_method P a b c d f g delete s e = subst (P delete) (some_inj _ _ e) d
printed_method P a b c d f g options s e = subst (P options) (some_inj _ _ e) f
printed_method P a b c d f g trace s e = subst (P trace) (some_inj _ _ e) g
printed_method P a b c d f g put s e = cc e
printed_method P a b c d f g connect s e = cc e

-- For each method that the table of the request prints, the table of the decoder reads the
-- printed name back as this method.
pub method_of-method_string :
    (m : Method) (s : List ℕ) → method_string m ≡ some s → method_of s ≡ some m
unfolding method_of
method_of-method_string = printed_method (λ m s. method_of s ≡ some m) refl refl refl refl refl refl

pub Absent-method_string : (m : Method) (s : List ℕ) → method_string m ≡ some s → Absent 32 s
Absent-method_string =
    printed_method (λ m s. Absent 32 s) (omega arith) (omega arith) (omega arith) (omega arith)
      (omega arith) (omega arith)

pub Absent-version_string : (v : HttpVersion) → Absent 13 (version_string v)
unfolding version_string
Absent-version_string http10 = omega arith
Absent-version_string http11 = omega arith

pub version_of-version_string : (v : HttpVersion) → version_of (version_string v) ≡ some v
unfolding version_string version_of
version_of-version_string http10 = refl
version_of-version_string http11 = refl
