-- ===== src/TokenAuth.antt =====
-- include/token_authorization_middleware.hpp: who a request is from. The calls of libraries are
-- fields of `Env`: PAM (include/pam_authenticate.hpp), OpenSSL's CRYPTO_memcmp, boost::split, the
-- clock's readings and the random device's results, each counted from 0 along the request's path.
pub mod SameSite
pub mod Attempts
pub mod Gate
pub mod Evidence
pub mod Cookies
use bmcweb.Prelude.{
  ℕ, zero, suc, ◌+◌, ◌-◌, ◌≡◌, ◌↔◌, Bool, true, false, not, ◌&&◌, ◌||◌, Option, none, some, List,
  [], ◌∷◌, ◌++◌, Bytes, codes, bytes_eq, starts_with, find_text, substr, String, length, take, drop,
  is_empty, any, if◌then◌else◌, ◌==◌, leb, ltb,
}
use bmcweb.Base64.{base64_decode}
use bmcweb.Sessions.{
  UserSession, SessionStore, PersistenceType, timeout, single_request, session_token_size,
  login_session_by_token, generate_user_session, remove_session,
}
use bmcweb.Http.{
  Request, Response, verb_get, verb_post, result, add_header, end, prefers_html, url_encode,
}

pub record Env : Type 0 where
  pub pam_authenticate_user : Bytes → Bytes → Bool
  pub crypto_memcmp : Bytes → Bytes → ℕ → ℕ
  -- `boost::split(encodings, header, boost::is_any_of(", "), boost::token_compress_on)`
  pub split : Bytes → List Bytes
  -- `crow::webassets::routes`
  pub routes : List Bytes
  pub clock : ℕ → ℕ
  pub draws : ℕ → ℕ

-- What OpenSSL documents: over two blocks of that length, 0 means that they are the same.
pub record IsMemcmp (compare : Bytes → Bytes → ℕ → ℕ) : Type 0 where
  pub same : (a b : Bytes) → length a ≡ length b → (compare a b (length a) ≡ 0) ↔ (a ≡ b)

abbrev pub Login : Type 0
Login = SessionStore × Option UserSession

-- `constantTimeStringCompare` of http/utility.h
pub constant_time_string_compare : Env → Bytes → Bytes → Bool
constant_time_string_compare env a b =
    if not (length a == length b) then false else env.crypto_memcmp a b (length a) == 0

abbrev basic_user : Env → Bytes → SessionStore → Login
basic_user env user store =
    let made = generate_user_session user single_request (env.clock 6) env.draws store in
    (made.0, some made.1)

unfoldable pub check_password : Env → Bytes → SessionStore → Login
check_password env auth_data store = elim (find_text auth_data (codes ":")) [
  | none ↦ (store, none)
  | some separator ↦
      if ltb (length auth_data) (separator + 1)
      then (store, none)
      else if not (
          env.pam_authenticate_user (substr auth_data 0 separator) (drop (separator + 1) auth_data))
      then (store, none)
      else basic_user env (substr auth_data 0 separator) store
]

unfoldable pub perform_basic_auth : Env → Bytes → SessionStore → Login
perform_basic_auth env auth_header store =
    let decoded = base64_decode (drop 6 auth_header) in
    if not decoded.0 then (store, none) else check_password env decoded.1 store

pub perform_token_auth : Env → Bytes → SessionStore → Login
perform_token_auth env auth_header store =
    login_session_by_token (env.clock 4) (env.clock 5) (drop 6 auth_header) store

unfoldable pub perform_xtoken_auth : Env → Request → SessionStore → Login
perform_xtoken_auth env req store =
    if is_empty (req.header "X-Auth-Token")
    then (store, none)
    else login_session_by_token (env.clock 0) (env.clock 1) (req.header "X-Auth-Token") store

-- The session key of a cookie header: what stands between the first `SESSION=` and the next `;`.
unfoldable pub session_key : Bytes → Option Bytes
session_key cookie_value = elim (find_text cookie_value (codes "SESSION=")) [
  | none ↦ none
  | some found ↦
      let start_index = found + 8 in
      elim (find_text (drop start_index cookie_value) (codes ";")) [
        | none ↦ some (substr cookie_value start_index (length cookie_value - start_index))
        | some after ↦ some (substr cookie_value start_index after)
      ]
]

-- The guard against cross-site requests, on the session that the cookie names.
pub passes_csrf : Env → Request → UserSession → Bool
passes_csrf env req session =
    let csrf = req.header "X-XSRF-TOKEN" in
    if not (req.method == verb_get)
    then (if is_empty csrf || is_empty session.csrf_token
        then false
        else if not (length csrf == session_token_size)
        then false
        else constant_time_string_compare env csrf session.csrf_token)
    else true

abbrev check_csrf : Env → Request → Login → Login
check_csrf env req (store, none) = (store, none)
check_csrf env req (store, some session) =
    if passes_csrf env req session then (store, some session) else (store, none)

unfoldable pub perform_cookie_auth : Env → Request → SessionStore → Login
perform_cookie_auth env req store =
    if is_empty (req.header "Cookie")
    then (store, none)
    else elim (session_key (req.header "Cookie")) [
      | none ↦ (store, none)
      | some auth_key ↦
          check_csrf env req (login_session_by_token (env.clock 2) (env.clock 3) auth_key store)
    ]

-- Pages that anyone may get, and forms that anyone may post.
abbrev pub open_pages : List Bytes
open_pages =
    codes "/redfish/v1"
    ∷ codes "/redfish/v1/"
    ∷ codes "/redfish"
    ∷ codes "/redfish/"
    ∷ codes "/redfish/v1/odata"
    ∷ codes "/redfish/v1/odata/"
    ∷ []

abbrev pub open_forms : List Bytes
open_forms =
    codes "/redfish/v1/SessionService/Sessions"
    ∷ codes "/redfish/v1/SessionService/Sessions/"
    ∷ codes "/login"
    ∷ []

unfoldable pub is_on_whitelist : Env → Request → Bool
is_on_whitelist env req =
    if req.method == verb_get
      && (any (bytes_eq req.url) open_pages || any (bytes_eq req.url) env.routes)
    then true
    else if req.method == verb_post && any (bytes_eq req.url) open_forms
    then true
    else false

-- `if (req.session == nullptr && enabled) req.session = auth(...)`
abbrev pub attempt : Bool → (SessionStore → Login) → Login → Login
attempt enabled auth (store, some session) = (store, some session)
attempt enabled auth (store, none) = if enabled then auth store else (store, none)

unfoldable pub perform_header_auth : Env → Request → SessionStore → Login
perform_header_auth env req store =
    let auth_header = req.header "Authorization" in
    let config = store.auth_methods_config in
    if is_empty auth_header
    then (store, none)
    else if starts_with auth_header (codes "Token ") && config.session_token_auth
    then perform_token_auth env auth_header store
    else if starts_with auth_header (codes "Basic ") && config.basic
    then perform_basic_auth env auth_header store
    else (store, none)

-- The three ways in, in their order.
unfoldable pub authenticate : Env → Request → SessionStore → Login
authenticate env req store =
    let config = store.auth_methods_config in
    attempt true (perform_header_auth env req) (
      attempt config.cookie (perform_cookie_auth env req)
        (attempt config.xtoken (perform_xtoken_auth env req) (store, req.session)))

pub refuse : Env → Request → Response → Response
refuse env req res =
    if prefers_html (env.split (req.header "accept"))
    then end (
        add_header (codes "Location") (codes "/#/login?next=" ++ url_encode req.url)
          (result 307 res))
    else if is_empty (req.header "User-Agent")
    then end (add_header (codes "WWW-Authenticate") (codes "Basic") (result 401 res))
    else end (result 401 res)

unfoldable pub before_handle :
    Env → Request → Response → SessionStore → Request × Response × SessionStore
before_handle env req res store =
    let login = authenticate env req store in
    if is_on_whitelist env req then (req, res, store) else (
      record req { session = login.1 },
      elim login.1 [ none ↦ refuse env req res | some session ↦ res ],
      login.0,
    )

abbrev pub is_single_request : PersistenceType → Bool
is_single_request timeout = false
is_single_request single_request = true

unfoldable pub after_handle : Request → SessionStore → SessionStore
after_handle req store = elim req.session [
  | none ↦ store
  | some session ↦
      if is_single_request session.persistence then remove_session session store else store
]
