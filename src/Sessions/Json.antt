-- ===== src/Sessions/Json.antt =====
-- How `UserSession` and `AuthConfigMethods` of include/sessions.hpp are written to JSON and read from
-- it. The items of the object are a list, in their order.
use bmcweb.Prelude.{
  ℕ, ◌≡◌, refl, Bool, Option, none, some, List, [], ◌∷◌, Bytes, codes, bytes_eq, if◌then◌else◌,
}
use bmcweb.Sessions.{UserSession, AuthConfigMethods, PersistenceType, timeout, single_request}

-- A value of nlohmann's JSON, as far as `get_ptr` tells them apart here.
pub data JsonValue : Type 0 where
  text : Bytes → JsonValue
  flag : Bool → JsonValue
  unsigned : ℕ → JsonValue
  other : JsonValue

-- `j.items()`
abbrev pub Items : Type 0
Items = List (Bytes × JsonValue)

abbrev pub blank_session : ℕ → UserSession
blank_session now = record {
  unique_id = [];
  session_token = [];
  username = [];
  csrf_token = [];
  last_updated = now;
  persistence = timeout;
}

-- One string property of `UserSession::fromJson`; `none` where the function returns nullptr.
set_property : Bytes → Bytes → UserSession → Option UserSession
set_property key value s =
    if bytes_eq key (codes "unique_id")
    then some (record s { unique_id = value })
    else if bytes_eq key (codes "session_token")
    then some (record s { session_token = value })
    else if bytes_eq key (codes "csrf_token")
    then some (record s { csrf_token = value })
    else if bytes_eq key (codes "username")
    then some (record s { username = value })
    else none

set_item : Bytes → JsonValue → UserSession → Option UserSession
unfolding set_property
set_item key (text value) s = set_property key value s
set_item key _ s = none

from_items : Items → UserSession → Option UserSession
from_items [] s = some s
from_items ((key, value) ∷ items) s = elim (set_item key value s) [
  | none ↦ none
  | some s' ↦ from_items items s'
]

-- `UserSession::fromJson`; the time and the persistence, which it sets last, do not depend on the
-- items.
pub from_json : ℕ → Items → Option UserSession
from_json now items = from_items items (blank_session now)

-- One element of `AuthConfigMethods::fromJson`; what is not a Boolean is passed over.
set_method : Bytes → JsonValue → AuthConfigMethods → AuthConfigMethods
set_method key (flag b) c =
    if bytes_eq key (codes "XToken")
    then record c { xtoken = b }
    else if bytes_eq key (codes "Cookie")
    then record c { cookie = b }
    else if bytes_eq key (codes "SessionToken")
    then record c { session_token_auth = b }
    else if bytes_eq key (codes "BasicAuth")
    then record c { basic = b }
    else if bytes_eq key (codes "TLS")
    then record c { tls = b }
    else c
set_method key _ c = c

pub config_from_json : Items → AuthConfigMethods → AuthConfigMethods
config_from_json [] c = c
config_from_json ((key, value) ∷ items) c = config_from_json items (set_method key value c)

-- `adl_serializer::to_json` of a session, as the items that `j.items()` gives, in the order of
-- nlohmann's map. For a session of one request `j` stays null, which has no items.
pub to_json : UserSession → Items
to_json s = elim s.persistence [
  | timeout ↦
      (codes "csrf_token", text s.csrf_token)
      ∷ (codes "session_token", text s.session_token)
      ∷ (codes "unique_id", text s.unique_id)
      ∷ (codes "username", text s.username)
      ∷ []
  | single_request ↦ []
]

pub config_to_json : AuthConfigMethods → Items
config_to_json c =
    (codes "BasicAuth", flag c.basic)
    ∷ (codes "Cookie", flag c.cookie)
    ∷ (codes "SessionToken", flag c.session_token_auth)
    ∷ (codes "TLS", flag c.tls)
    ∷ (codes "XToken", flag c.xtoken)
    ∷ []

-- Round trip: a session that was written is read back with its idle timer restarted. One of a single
-- request is not written, but what stands for it is read back as a session with empty fields.
pub from_json-to_json :
    (now : ℕ) (s : UserSession)
    → from_json now (to_json s)
      ≡ some (elim s.persistence [
        | timeout ↦ record s { last_updated = now; persistence = timeout }
        | single_request ↦ blank_session now
      ])
unfolding from_json from_items set_item set_property to_json
from_json-to_json now s = by_type s.persistence refl
  where
    by_type :
        (p : PersistenceType)
        → s.persistence ≡ p
        → from_json now (to_json s)
          ≡ some (elim s.persistence [
            | timeout ↦ record s { last_updated = now; persistence = timeout }
            | single_request ↦ blank_session now
          ])
    by_type timeout e = rw e refl
    by_type single_request e = rw e refl

-- Round trip: the methods that were written are read back, whatever they were before.
pub config_from_json-config_to_json :
    (c before : AuthConfigMethods) → config_from_json (config_to_json c) before ≡ c
unfolding config_from_json set_method config_to_json
config_from_json-config_to_json c before = refl
