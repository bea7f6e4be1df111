-- ===== src/Http.antt =====
-- http/http_request.h, http/http_response.h, http/common.h and include/http_utility.hpp: what the
-- handlers see of a request, and what they write. Boost's message types are not modelled: a request
-- has the lookup of its headers, a response its status, its headers and how often it was completed.
pub mod UrlEncode
pub mod Responses
pub mod Html
pub mod Escape
use bmcweb.Prelude.{
  ℕ, zero, suc, ◌+◌, ◌-◌, ◌/◌, ◌%◌, Bool, true, false, ◌&&◌, ◌||◌, Option, none, some, List, [],
  ◌∷◌, ◌++◌, Bytes, codes, bytes_eq, String, if◌then◌else◌, ◌==◌, leb,
}
use bmcweb.Prelude.Assoc.{Assoc, lookup, assign, emplace}
use bmcweb.Sessions.{UserSession}

-- `boost::beast::http::verb`, by the numbers of its enumerators
abbrev pub verb_get : ℕ
verb_get = 2

abbrev pub verb_post : ℕ
verb_post = 4

-- `crow::Request`. `header` is the lookup of Beast's fields, empty where there is no such header.
pub record Request : Type 0 where
  pub method : ℕ
  pub url : Bytes
  pub is_secure : Bool
  pub header : String → Bytes
  pub body : Bytes
  pub session : Option UserSession
  -- what the message says of its protocol: 11 is HTTP/1.1
  pub version : ℕ
  pub is_upgrade : Bool
  pub keep_alive : Bool

-- `jsonValue`, as far as the handlers modelled here fill it: members with texts.
abbrev pub JsonMembers : Type 0
JsonMembers = List (Bytes × Bytes)

-- `crow::Response`. `completions` counts the calls of `completeRequestHandler`.
pub record Response : Type 0 where
  pub status : ℕ
  pub headers : Assoc Bytes
  pub json_value : JsonMembers
  pub body : Bytes
  pub keep_alive : Bool
  pub completed : Bool
  pub completions : ℕ

abbrev pub fresh_response : Response
fresh_response = record {
  status = 200;
  headers = [];
  json_value = [];
  body = [];
  keep_alive = true;
  completed = false;
  completions = 0;
}

unfoldable pub result : ℕ → Response → Response
result v res = record res { status = v }

-- `stringResponse->set`: replaces the header of that name.
pub add_header : Bytes → Bytes → Response → Response
add_header key value res = elim (lookup key res.headers) [
  | none ↦ record res { headers = emplace key value res.headers }
  | some old ↦ record res { headers = assign key value res.headers }
]

-- `clear`
unfoldable pub clear : Response → Response
clear res = record fresh_response { completions = res.completions }

-- `write`
abbrev pub write : Bytes → Response → Response
write body_part res = record res { body = res.body ++ body_part }

-- `end()`; a second call is only logged.
unfoldable pub end : Response → Response
end res =
    if res.completed
    then res
    else record res { completed = true; completions = res.completions + 1 }

-- The loop of `requestPrefersHtml` over the parts of the accept header.
pub prefers_html : List Bytes → Bool
prefers_html [] = false
prefers_html (encoding ∷ encodings) =
    let rest = prefers_html encodings in
    if bytes_eq encoding (codes "text/html")
    then true
    else if bytes_eq encoding (codes "application/json")
    then false
    else rest

-- `isalnum`, in the C locale
abbrev pub is_alnum : ℕ → Bool
is_alnum c = leb b'0' c && leb c b'9' || leb b'A' c && leb c b'Z' || leb b'a' c && leb c b'z'

abbrev pub is_unreserved : ℕ → Bool
is_unreserved c = is_alnum c || c == b'-' || c == b'_' || c == b'.' || c == b'~'

-- A hexadecimal digit, in upper case
abbrev pub hex_digit : ℕ → ℕ
hex_digit d = if leb d 9 then d + b'0' else d - 10 + b'A'

pub url_encode : Bytes → Bytes
url_encode [] = []
url_encode (c ∷ value) =
    (if is_unreserved c then c ∷ [] else b'%' ∷ hex_digit (c / 16) ∷ hex_digit (c % 16) ∷ [])
    ++ url_encode value
