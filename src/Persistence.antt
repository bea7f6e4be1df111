-- ===== src/Persistence.antt =====
-- include/persistent_data_middleware.hpp: the file that the sessions, the authentication methods and
-- the system's identifier outlive a restart in. A JSON value is what the reader sees of it; the file
-- system, the parser of the text and the generator of identifiers are not modelled.
pub mod RoundTrip
use bmcweb.Prelude.{
  ℕ, zero, suc, Bool, true, false, ◌||◌, Option, none, some, List, [], ◌∷◌, Bytes, codes, bytes_eq,
  is_empty, if◌then◌else◌, ltb, map,
}
use bmcweb.Prelude.Assoc.{Assoc, emplace}
use bmcweb.Sessions.{UserSession, SessionStore}
use bmcweb.Sessions.Json.{
  JsonValue, text, flag, unsigned, other, Items, from_json, to_json, config_from_json,
  config_to_json,
}

-- What `get_ptr` tells of a value, the items of `items()`, and the items of each element that a loop
-- over the value gives.
pub record Json : Type 0 where
  pub value : JsonValue
  pub items : Items
  pub elements : List Items

-- `data.items()`
abbrev pub Document : Type 0
Document = List (Bytes × Json)

pub record Persistent : Type 0 where
  pub system_uuid : Bytes
  pub store : SessionStore

abbrev pub json_revision : ℕ
json_revision = 1

-- The loop over the sessions, at one reading of the clock.
unfoldable pub restore_sessions : ℕ → List Items → SessionStore → SessionStore
restore_sessions now [] store = store
restore_sessions now (elem ∷ elems) store = elim (from_json now elem) [
  | none ↦ restore_sessions now elems store
  | some new_session ↦ restore_sessions now elems (record store {
    auth_tokens = emplace new_session.session_token new_session store.auth_tokens;
  })
]

abbrev pub read_revision : JsonValue → ℕ
read_revision (unsigned n) = n
read_revision _ = 0

abbrev pub read_uuid : JsonValue → Bytes → Bytes
read_uuid (text uuid) old = uuid
read_uuid _ old = old

-- One item of the document, with the revision read so far.
unfoldable pub read_item : ℕ → Bytes → Json → ℕ × Persistent → ℕ × Persistent
read_item now key v (revision, p) =
    if bytes_eq key (codes "revision")
    then (read_revision v.value, p)
    else if bytes_eq key (codes "system_uuid")
    then (revision, record p { system_uuid = read_uuid v.value p.system_uuid })
    else if bytes_eq key (codes "auth_config")
    then (
      revision,
      record p {
        store = record p.store {
          auth_methods_config = config_from_json v.items p.store.auth_methods_config;
        };
      },
    )
    else if bytes_eq key (codes "sessions")
    then (revision, record p { store = restore_sessions now v.elements p.store })
    else (revision, p)

unfoldable pub read_items : ℕ → Document → ℕ × Persistent → ℕ × Persistent
read_items now [] state = state
read_items now ((key, v) ∷ data_items) state = read_items now data_items (read_item now key v state)

-- `writeData`: the document, its items in the order of nlohmann's map. The sessions are in the order of
-- the store; nlohmann sorts them by their tokens, of which no two are the same.
abbrev pub sessions_json : Assoc UserSession → List Items
sessions_json [] = []
sessions_json ((token, session) ∷ tokens) = to_json session ∷ sessions_json tokens

abbrev pub session_items : Assoc UserSession → Items
session_items [] = []
session_items ((token, session) ∷ tokens) = (token, other) ∷ session_items tokens

abbrev pub leaf : JsonValue → Json
leaf v = record { value = v; items = (codes "", v) ∷ []; elements = ((codes "", v) ∷ []) ∷ [] }

abbrev pub elements_of : Items → List Items
elements_of [] = []
elements_of ((key, v) ∷ items) = ((codes "", v) ∷ []) ∷ elements_of items

unfoldable pub write_data : Persistent → Document
write_data p =
    let methods = config_to_json p.store.auth_methods_config in
    (codes "auth_config", record { value = other; items = methods; elements = elements_of methods })
    ∷ (codes "revision", leaf (unsigned json_revision))
    ∷ (
      codes "sessions",
      record {
        value = other;
        items = session_items p.store.auth_tokens;
        elements = sessions_json p.store.auth_tokens;
      },
    )
    ∷ (codes "system_uuid", leaf (text p.system_uuid))
    ∷ []

-- `readData`: the file, where it could be read and parsed, and a new identifier; with what is written
-- back at once.
unfoldable pub read_data : ℕ → Bytes → Option Document → Persistent → Persistent × Option Document
read_data now new_uuid file p =
    let loaded : ℕ × Persistent = elim file [
      | none ↦ (0, p)
      | some document ↦ read_items now document (0, p)
    ] in
    let named =
      if is_empty loaded.1.system_uuid
      then record loaded.1 { system_uuid = new_uuid }
      else loaded.1 in
    (
      named,
      if is_empty loaded.1.system_uuid || ltb loaded.0 json_revision
          then some (write_data named)
          else none,
    )

-- The destructor
unfoldable pub shut_down : Persistent → Option Document
shut_down p = if p.store.need_write then some (write_data p) else none

-- The file that it leaves of the one that was there
abbrev pub file_after : Option Document → Persistent → Option Document
file_after file p = elim (shut_down p) [ none ↦ file | some document ↦ some document ]
