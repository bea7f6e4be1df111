-- ===== src/LoginRoute.antt =====
-- The handlers of /login and /logout, in include/token_authorization_middleware.hpp. The parser of
-- nlohmann's JSON is a parameter, `none` where it discards its input; PAM, the clock and the random
-- device are those of `Env`.
pub mod Outcome
use bmcweb.Prelude.{
  ℕ, zero, suc, Bool, true, false, not, ◌&&◌, Option, none, some, List, [], ◌∷◌, ◌++◌, Bytes, codes,
  bytes_eq, starts_with, is_empty, if◌then◌else◌,
}
use bmcweb.Sessions.{UserSession, SessionStore, timeout, generate_user_session, remove_session}
use bmcweb.Http.{Request, Response, result, add_header, end}
use bmcweb.TokenAuth.{Env}

-- A value of nlohmann's JSON.
mutual
  pub data Json : Type 0 where
    text : Bytes → Json
    array : Elements → Json
    object : Members → Json
    other : Json

  pub data Elements : Type 0 where
    nil : Elements
    cons : Json → Elements → Elements

  pub data Members : Type 0 where
    no_more : Members
    member : Bytes → Json → Members → Members

find_member : Bytes → Members → Option Json
find_member key no_more = none
find_member key (member k value more) = if bytes_eq k key then some value else find_member key more

-- `json.find(key)`: of anything but an object it is the end.
pub find : Bytes → Json → Option Json
unfolding find_member
find key (object members) = find_member key members
find key _ = none

pub record Credentials : Type 0 where
  pub username : Bytes
  pub password : Bytes
  pub looks_like_ibm : Bool

abbrev pub no_credentials : Bool → Credentials
no_credentials ibm = record { username = []; password = []; looks_like_ibm = ibm }

-- `get_ptr<const std::string*>` of both, which have to be strings
abbrev pub pair_of : Json → Json → Bool → Credentials
pair_of (text u) (text p) ibm = record { username = u; password = p; looks_like_ibm = ibm }
pair_of (text u) _ ibm = no_credentials ibm
pair_of _ _ ibm = no_credentials ibm

-- An array of the user and the password.
abbrev pub from_elements : Elements → Credentials
from_elements (cons u (cons p nil)) = pair_of u p true
from_elements _ = no_credentials false

abbrev pub both : Option Json → Option Json → Option (Json × Json)
both (some u) (some p) = some (u, p)
both (some u) none = none
both none _ = none

find_both : Json → Option (Json × Json)
unfolding find
find_both json = both (find (codes "username") json) (find (codes "password") json)

pub from_data : Json → Credentials
unfolding find_both
from_data (array elements) = from_elements elements
from_data (object members) = elim (find_both (object members)) [
  | none ↦ no_credentials false
  | some (u, p) ↦ pair_of u p false
]
from_data _ = no_credentials false

pub from_json : Json → Credentials
unfolding find_both from_data
from_json json = elim (find_both json) [
  | some (u, p) ↦ pair_of u p false
  | none ↦ elim (find (codes "data") json) [
    | none ↦ no_credentials false
    | some value ↦ from_data value
  ]
]

-- The credentials of a request; `none` where its body is no JSON.
pub credentials : (Bytes → Option Json) → Request → Option Credentials
credentials parse req =
    if starts_with (req.header "content-type") (codes "application/json")
    then elim (parse req.body) [ none ↦ none | some json ↦ some (from_json json) ]
    else some (record {
      username = req.header "username";
      password = req.header "password";
      looks_like_ibm = false;
    })

abbrev pub session_cookies : UserSession → Bytes
session_cookies session =
    codes "XSRF-TOKEN="
    ++ session.csrf_token
    ++ codes "; Secure\r\nSet-Cookie: SESSION="
    ++ session.session_token
    ++ codes "; Secure; HttpOnly"

abbrev pub ibm_members : Bytes → List (Bytes × Bytes)
ibm_members username =
    (codes "data", codes "User '" ++ username ++ codes "' logged in")
    ∷ (codes "message", codes "200 OK")
    ∷ (codes "status", codes "ok")
    ∷ []

-- What is sent to a user who has logged in.
unfoldable pub welcome : Credentials → UserSession → Response → Response
welcome c session res =
    if c.looks_like_ibm
    then add_header (codes "Set-Cookie") (session_cookies session)
        (record res { json_value = ibm_members c.username })
    else record res { json_value = (codes "token", session.session_token) ∷ [] }

unfoldable pub log_in : Env → Credentials → Response → SessionStore → Response × SessionStore
log_in env c res store =
    let made = generate_user_session c.username timeout (env.clock 0) env.draws store in
    if not (is_empty c.username) && not (is_empty c.password)
    then (if not (env.pam_authenticate_user c.username c.password)
        then (end (result 401 res), store)
        else (end (welcome c made.1 res), made.0))
    else (end (result 400 res), store)

pub login :
    Env → (Bytes → Option Json) → Request → Response → SessionStore → Response × SessionStore
unfolding log_in
login env parse req res store = elim (credentials parse req) [
  | none ↦ (end (result 400 res), store)
  | some c ↦ log_in env c res store
]

pub logout : Request → Response → SessionStore → Response × SessionStore
logout req res store = elim req.session [
  | none ↦ (end res, store)
  | some session ↦ (
    end (record res {
      json_value =
          (codes "data", codes "User '" ++ session.username ++ codes "' logged out")
          ∷ (codes "message", codes "200 OK")
          ∷ (codes "status", codes "ok")
          ∷ [];
    }),
    remove_session session store,
  )
]
