-- ===== src/Http/Resp.antt =====
-- src/proto/http/HttpResp.h and HttpResp.cc: a response. `std::multimap` is a list in the order of
-- its keys, entries with equal keys in the order of insertion.
use Prim.Native.Nat.{compare, Ordering}
use jerry.Base.{
  ℕ, zero, suc, ◌+◌, ◌/◌, ◌%◌, ◌^◌, Bool, true, false, List, [], ◌∷◌, ◌++◌, Option, none, some,
  length, ltb, ◌==◌, if◌then◌else◌, codes, beq, take_until,
}
use jerry.Base.Result.{Result, ok, fault, missing_key}

abbrev pub Entries : Type 0
Entries = List (List ℕ × List ℕ)

pub record HttpResp : Type 0 where
  pub headers : Entries
  pub status_code : ℕ
  pub body : List ℕ

abbrev pub empty_resp : HttpResp
empty_resp = record { headers = []; status_code = 200; body = [] }

-- `operator<` of `std::string`.
unfoldable pub before : List ℕ → List ℕ → Bool
before [] [] = false
before [] (y ∷ ys) = true
before (x ∷ xs) [] = false
before (x ∷ xs) (y ∷ ys) =
    let rest = before xs ys in
    elim (compare x y) [ Ordering.lt ↦ true | Ordering.eq ↦ rest | Ordering.gt ↦ false ]

-- `emplace` of the multimap: behind the entries that are not greater.
unfoldable pub emplace : List ℕ → List ℕ → Entries → Entries
emplace k v [] = (k, v) ∷ []
emplace k v ((j, w) ∷ m) = if before k j then (k, v) ∷ (j, w) ∷ m else (j, w) ∷ emplace k v m

-- `find`, and the value of the entry that it finds.
unfoldable pub find : List ℕ → Entries → Option (List ℕ)
find k [] = none
find k ((j, w) ∷ m) = if beq j k then some w else find k m

-- `find(...)->second = value`
unfoldable pub overwrite : List ℕ → List ℕ → Entries → Entries
overwrite k v [] = []
overwrite k v ((j, w) ∷ m) = if beq j k then (j, v) ∷ m else (j, w) ∷ overwrite k v m

-- `find(name.data())` stops at a zero byte of the name, `emplace(name, …)` does not.
unfoldable pub add_header : List ℕ → List ℕ → Bool → HttpResp → HttpResp
add_header name value multiple r =
    if multiple
    then record r { headers = emplace name value r.headers }
    else elim (find (take_until 0 name) r.headers) [
      | none ↦ record r { headers = emplace name value r.headers }
      | some old ↦ record r { headers = overwrite (take_until 0 name) value r.headers }
    ]

unfoldable pub get_header : List ℕ → HttpResp → Option (List ℕ)
get_header name r = find (take_until 0 name) r.headers

unfoldable pub set_status : ℕ → HttpResp → HttpResp
set_status s r = record r { status_code = s % 2 ^ 16 }

unfoldable pub set_body : List ℕ → HttpResp → HttpResp
set_body xs r = record r { body = xs }

unfoldable pub append_body : List ℕ → HttpResp → HttpResp
append_body xs r = record r { body = r.body ++ xs }

unfoldable pub set_redirect : List ℕ → ℕ → HttpResp → HttpResp
set_redirect location s r = add_header (codes "Location") location false (set_status s r)

unfoldable pub set_content_type : List ℕ → HttpResp → HttpResp
set_content_type s r = add_header (codes "Content-Type") s false r

unfoldable pub set_server : List ℕ → HttpResp → HttpResp
set_server s r = add_header (codes "Server") s false r

unfoldable pub add_etag : List ℕ → HttpResp → HttpResp
add_etag s r = add_header (codes "Etag") s true r

unfoldable pub set_keep_alive : HttpResp → HttpResp
set_keep_alive r = add_header (codes "Connection") (codes "keep-Alive") false r

abbrev pub get_content_length : HttpResp → ℕ
get_content_length r = length r.body

-- `status_map.at`
unfoldable pub reason : ℕ → Option (List ℕ)
reason s = at s table
  where
    table : List (ℕ × List ℕ)
    table =
        (100, codes "Continue")
        ∷ (101, codes "Switching Protocols")
        ∷ (200, codes "OK")
        ∷ (201, codes "Created")
        ∷ (202, codes "Accepted")
        ∷ (203, codes "Non-Authoritative Information")
        ∷ (204, codes "No Content")
        ∷ (205, codes "Reset Content")
        ∷ (206, codes "Partial Content")
        ∷ (300, codes "Multiple Choices")
        ∷ (301, codes "Moved Permanently")
        ∷ (302, codes "Found")
        ∷ (303, codes "See Other")
        ∷ (304, codes "Not Modified")
        ∷ (305, codes "Use Proxy")
        ∷ (307, codes "Temporary Redirect")
        ∷ (400, codes "Bad Request")
        ∷ (401, codes "Unauthorized")
        ∷ (402, codes "Payment Required")
        ∷ (403, codes "Forbidden")
        ∷ (404, codes "Not Found")
        ∷ (405, codes "Method Not Allowed")
        ∷ (406, codes "Not Acceptable")
        ∷ (407, codes "Proxy Authentication Required")
        ∷ (408, codes "Request Time-out")
        ∷ (409, codes "Conflict")
        ∷ (410, codes "Gone")
        ∷ (411, codes "Length Required")
        ∷ (412, codes "Precondition Failed")
        ∷ (413, codes "Request Entity Too Large")
        ∷ (414, codes "Request-URI Too Large")
        ∷ (415, codes "Unsupported Media Type")
        ∷ (416, codes "Requested range not satisfiable")
        ∷ (417, codes "Expectation Failed")
        ∷ (500, codes "Internal Server Error")
        ∷ (501, codes "Not Implemented")
        ∷ (502, codes "Bad Gateway")
        ∷ (503, codes "Service Unavailable")
        ∷ (504, codes "Gateway Time-out")
        ∷ (505, codes "HTTP Version not supported")
        ∷ []

    at : ℕ → List (ℕ × List ℕ) → Option (List ℕ)
    at s [] = none
    at s ((k, t) ∷ m) = if k == s then some t else at s m

-- `std::to_string` of an unsigned number: its decimal digits, with fuel for their number.
unfoldable pub decimal_loop : ℕ → ℕ → List ℕ → List ℕ
decimal_loop zero n acc = acc
decimal_loop (suc fuel) n acc =
    let acc' = (48 + n % 10) ∷ acc in
    let rest = decimal_loop fuel (n / 10) acc' in if ltb n 10 then acc' else rest

unfoldable pub decimal : ℕ → List ℕ
unfolding decimal_loop
decimal n = decimal_loop (suc n) n []

abbrev pub crlf : List ℕ
crlf = codes "\r\n"

unfoldable pub entry_lines : Entries → List ℕ
entry_lines [] = []
entry_lines ((k, v) ∷ m) = k ++ (codes ": " ++ (v ++ (crlf ++ entry_lines m)))

-- `ToString`, given `DateTime::Now().ToGmtString()`.
unfoldable pub to_string : List ℕ → HttpResp → Result (List ℕ)
unfolding entry_lines
to_string date r = elim (reason r.status_code) [
  | none ↦ fault missing_key
  | some text ↦ ok (
      codes "HTTP/1.1 "
      ++ (decimal r.status_code
          ++ (codes " "
              ++ (text
                  ++ (crlf
                      ++ (entry_lines r.headers
                          ++ (codes "Content-Length: "
                              ++ (decimal (get_content_length r)
                                  ++ (crlf
                                      ++ (codes "Date: "
                                          ++ (date ++ (crlf ++ (crlf ++ r.body)))))))))))))
]
