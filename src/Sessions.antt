-- ===== src/Sessions.antt =====
-- include/sessions.hpp: `UserSession`, `AuthConfigMethods` and `SessionStore`.
-- Times are the nanoseconds of `steady_clock`, each reading of the clock an argument; the source
-- only asks for differences that are compared with positive times, and there a negative one does
-- what the truncated one of ℕ does. The random device is the function `draws` of its results.
-- The store and a request share a session by pointer; the one field that changes, `last_updated`,
-- is read by the store alone, so a request's copy may lag behind.
pub mod Json
pub mod Keys
pub mod Freshness
pub mod Login
pub mod Kept
use bmcweb.Prelude.{
  ℕ, zero, suc, ◌+◌, ◌-◌, ◌*◌, Bool, true, false, ◌||◌, not, Option, none, some, List, [], ◌∷◌,
  ◌++◌, Bytes, codes, bytes_eq, length, get_or, if◌then◌else◌, ◌==◌, leb, ltb,
}
use bmcweb.Prelude.Assoc.{Assoc, lookup, emplace, assign, erase}

pub data PersistenceType : Type 0 where
  timeout single_request : PersistenceType

abbrev pub session_token_size : ℕ
session_token_size = 20

pub record UserSession : Type 0 where
  pub unique_id : Bytes
  pub session_token : Bytes
  pub username : Bytes
  pub csrf_token : Bytes
  pub last_updated : ℕ
  pub persistence : PersistenceType

pub record AuthConfigMethods : Type 0 where
  pub xtoken : Bool
  pub cookie : Bool
  pub session_token_auth : Bool
  pub basic : Bool
  pub tls : Bool

pub record SessionStore : Type 0 where
  pub last_timeout_update : ℕ
  pub auth_tokens : Assoc UserSession
  pub need_write : Bool
  pub auth_methods_config : AuthConfigMethods

abbrev pub all_methods : AuthConfigMethods
all_methods = record {
  xtoken = true;
  cookie = true;
  session_token_auth = true;
  basic = true;
  tls = true;
}

-- The store's constructor. The default of a time point is the clock's origin.
abbrev pub empty_store : SessionStore
empty_store = record {
  last_timeout_update = 0;
  auth_tokens = [];
  need_write = false;
  auth_methods_config = all_methods;
}

abbrev pub one_minute : ℕ
one_minute = 60 * 1_000_000_000

-- `timeoutInMinutes`, which nothing sets after the constructor
abbrev pub timeout_in_minutes : ℕ
timeout_in_minutes = 60 * one_minute

abbrev pub alphanum : Bytes
alphanum = codes "0123456789ABCDEFGHIJKLMNOPQRSTUVWXYZabcdefghijklmnopqrstuvwxyz"

-- `for (...) s[i] = alphanum[dist(rd)]` on the rounds left, from draw `i` on
unfoldable pub random_text : ℕ → ℕ → (ℕ → ℕ) → Bytes
random_text zero i draws = []
random_text (suc rounds) i draws = get_or alphanum (draws i) 0 ∷ random_text rounds (i + 1) draws

abbrev pub is_timeout : PersistenceType → Bool
is_timeout timeout = true
is_timeout single_request = false

abbrev pub new_session : Bytes → PersistenceType → ℕ → (ℕ → ℕ) → UserSession
new_session username persistence now draws = record {
  unique_id = random_text 10 40 draws;
  session_token = random_text session_token_size 0 draws;
  username = username;
  csrf_token = random_text session_token_size 20 draws;
  last_updated = now;
  persistence = persistence;
}

abbrev or_else : Option UserSession → UserSession → UserSession
or_else none s = s
or_else (some t) s = t

-- `generateUserSession`. `emplace` keeps a session that has the token already, and that is the one
-- returned; the flag for a write to disk is overwritten either way.
unfoldable pub generate_user_session :
    Bytes → PersistenceType → ℕ → (ℕ → ℕ) → SessionStore → SessionStore × UserSession
generate_user_session username persistence now draws store = (
  record store {
    auth_tokens = emplace session.session_token session store.auth_tokens;
    need_write = is_timeout persistence;
  },
  or_else (lookup session.session_token store.auth_tokens) session,
)
  where
    session : UserSession
    session = new_session username persistence now draws

-- The loop of `applySessionTimeouts`: the sessions that stay.
pub unexpired : ℕ → Assoc UserSession → Assoc UserSession
unexpired now [] = []
unexpired now ((token, s) ∷ tokens) =
    let rest = unexpired now tokens in
    if leb timeout_in_minutes (now - s.last_updated) then rest else (token, s) ∷ rest

-- Whether that loop erases one.
pub some_expired : ℕ → Assoc UserSession → Bool
some_expired now [] = false
some_expired now ((token, s) ∷ tokens) =
    leb timeout_in_minutes (now - s.last_updated) || some_expired now tokens

pub apply_session_timeouts : ℕ → SessionStore → SessionStore
apply_session_timeouts now store =
    if ltb one_minute (now - store.last_timeout_update)
    then record store {
      last_timeout_update = now;
      auth_tokens = unexpired now store.auth_tokens;
      need_write = store.need_write || some_expired now store.auth_tokens;
    }
    else store

abbrev pub touch : ℕ → UserSession → UserSession
touch now s = record s { last_updated = now }

-- The lookup of `loginSessionByToken`, once the time-outs are applied; `later` is its own reading
-- of the clock.
pub login_found : ℕ → Bytes → SessionStore → SessionStore × Option UserSession
login_found later token store = elim (lookup token store.auth_tokens) [
  | none ↦ (store, none)
  | some s ↦ (
    record store { auth_tokens = assign token (touch later s) store.auth_tokens },
    some (touch later s),
  )
]

pub login_session_by_token : ℕ → ℕ → Bytes → SessionStore → SessionStore × Option UserSession
unfolding login_found
login_session_by_token now later token store =
    let swept = apply_session_timeouts now store in
    if not (length token == session_token_size)
    then (swept, none)
    else login_found later token swept

find_uid : Bytes → Assoc UserSession → Option UserSession
find_uid uid [] = none
find_uid uid ((token, s) ∷ tokens) =
    if bytes_eq s.unique_id uid then some s else find_uid uid tokens

pub get_session_by_uid : ℕ → Bytes → SessionStore → SessionStore × Option UserSession
unfolding find_uid
get_session_by_uid now uid store =
    let swept = apply_session_timeouts now store in (swept, find_uid uid swept.auth_tokens)

unfoldable pub remove_session : UserSession → SessionStore → SessionStore
remove_session session store = record store {
  auth_tokens = erase session.session_token store.auth_tokens;
  need_write = true;
}

abbrev pub type_eq : PersistenceType → PersistenceType → Bool
type_eq timeout t = is_timeout t
type_eq single_request t = not (is_timeout t)

pub unique_ids : Bool → PersistenceType → Assoc UserSession → List Bytes
unique_ids get_all type [] = []
unique_ids get_all type ((token, s) ∷ tokens) =
    let rest = unique_ids get_all type tokens in
    if get_all || type_eq type s.persistence then s.unique_id ∷ rest else rest

pub get_unique_ids : ℕ → Bool → PersistenceType → SessionStore → SessionStore × List Bytes
get_unique_ids now get_all type store =
    let swept = apply_session_timeouts now store in
    (swept, unique_ids get_all type swept.auth_tokens)

pub update_auth_methods_config : AuthConfigMethods → SessionStore → SessionStore
update_auth_methods_config config store = record store {
  auth_methods_config = config;
  need_write = true;
}
