-- ===== src/Sessions/Keys.antt =====
-- The token map of `SessionStore` (include/sessions.hpp): each session stands once, under its own
-- token, whatever is called.
use bmcweb.Prelude.{
  ℕ, ◌-◌, ◌≡◌, refl, inl, inr, Bool, none, some, List, [], ◌∷◌, Bytes, bytes_eq_iff, All, arith,
  if◌then◌else◌, Option-cases, leb,
}
use bmcweb.Prelude.Assoc.{
  Assoc, lookup, Lacks, HasDistinctKeys, emplace-HasDistinctKeys, assign-HasDistinctKeys,
  erase-HasDistinctKeys, All-emplace, All-assign, All-erase, All-lookup, lookup_of_Lacks,
}
use bmcweb.Sessions.{
  UserSession, SessionStore, PersistenceType, AuthConfigMethods, timeout_in_minutes, unexpired,
  apply_session_timeouts, new_session, touch, generate_user_session, login_found,
  login_session_by_token, get_session_by_uid, remove_session, get_unique_ids,
  update_auth_methods_config,
}

-- What the users of the store may call, with the two clock readings that the call may make.
pub data Call : Type 0 where
  generates : Bytes → PersistenceType → (ℕ → ℕ) → Call
  logs_in : Bytes → Call
  gets_uid : Bytes → Call
  removes : UserSession → Call
  lists : Bool → PersistenceType → Call
  configures : AuthConfigMethods → Call

unfoldable pub step : SessionStore → ℕ × ℕ × Call → SessionStore
step store (now, later, generates username persistence draws) =
    (generate_user_session username persistence later draws store).0
step store (now, later, logs_in token) = (login_session_by_token now later token store).0
step store (now, later, gets_uid uid) = (get_session_by_uid now uid store).0
step store (now, later, removes session) = remove_session session store
step store (now, later, lists get_all type) = (get_unique_ids now get_all type store).0
step store (now, later, configures config) = update_auth_methods_config config store

unfoldable pub run : SessionStore → List (ℕ × ℕ × Call) → SessionStore
run store [] = store
run store (c ∷ calls) = run (step store c) calls

-- A session stands under its token.
abbrev pub IsKeyed : Bytes × UserSession → Type 0
IsKeyed e = e.1.session_token ≡ e.0

pub record IsIndexed (store : SessionStore) : Type 0 where
  pub distinct : HasDistinctKeys store.auth_tokens
  pub keyed : All IsKeyed store.auth_tokens

Lacks-unexpired :
    (k : Bytes) (now : ℕ) (m : Assoc UserSession) → Lacks k m → Lacks k (unexpired now m)
unfolding unexpired
Lacks-unexpired k now [] h = h
Lacks-unexpired k now ((j, s) ∷ m) (p, h) = ground (arith, Lacks-unexpired k now m h)

unexpired-HasDistinctKeys :
    (now : ℕ) (m : Assoc UserSession) → HasDistinctKeys m → HasDistinctKeys (unexpired now m)
unfolding unexpired
unexpired-HasDistinctKeys now [] h = h
unexpired-HasDistinctKeys now ((j, s) ∷ m) (l, h) =
    ground (arith, Lacks-unexpired j now m l, unexpired-HasDistinctKeys now m h)

pub All-unexpired :
    (P : Bytes × UserSession → Type 0) (now : ℕ) (m : Assoc UserSession)
    → All P m
    → All P (unexpired now m)
unfolding unexpired
All-unexpired P now [] h = h
All-unexpired P now ((j, s) ∷ m) (p, h) = ground (arith, All-unexpired P now m h)

-- The time-outs take away exactly the session under the token that is too old.
pub lookup-unexpired :
    (token : Bytes) (now : ℕ) (m : Assoc UserSession)
    → HasDistinctKeys m
    → lookup token (unexpired now m) ≡ elim (lookup token m) [
      | none ↦ none
      | some s ↦ if leb timeout_in_minutes (now - s.last_updated) then none else some s
    ]
unfolding unexpired lookup
lookup-unexpired token now [] h = refl
lookup-unexpired token now ((j, s) ∷ m) (l, h) =
    ground (arith, bytes_eq_iff j token, lookup-unexpired token now m h, lookup_of_Lacks j m l)

pub apply_session_timeouts-IsIndexed :
    (now : ℕ) (store : SessionStore)
    → IsIndexed store
    → IsIndexed (apply_session_timeouts now store)
unfolding apply_session_timeouts
apply_session_timeouts-IsIndexed now store v = ground (
  arith,
  unexpired-HasDistinctKeys now store.auth_tokens v.distinct,
  All-unexpired IsKeyed now store.auth_tokens v.keyed,
)

login_found-IsIndexed :
    (later : ℕ) (token : Bytes) (store : SessionStore)
    → IsIndexed store
    → IsIndexed (login_found later token store).0
unfolding login_found
login_found-IsIndexed later token store v = elim (Option-cases (lookup token store.auth_tokens)) [
  | inl e ↦ rw (e, login_found) v
  | inr (s, e) ↦
      rw (e, login_found)
        (record {
          distinct = assign-HasDistinctKeys token (touch later s) store.auth_tokens v.distinct;
          keyed =
              All-assign IsKeyed token (touch later s) store.auth_tokens
                (All-lookup IsKeyed token s store.auth_tokens v.keyed e) v.keyed;
        })
]

-- Every call keeps the sessions indexed by their tokens, with no token twice.
pub step-IsIndexed :
    (store : SessionStore) (c : ℕ × ℕ × Call) → IsIndexed store → IsIndexed (step store c)
unfolding step generate_user_session login_session_by_token get_session_by_uid remove_session
    get_unique_ids update_auth_methods_config
step-IsIndexed store (now, later, generates username persistence draws) v = record {
  distinct =
      emplace-HasDistinctKeys _ (new_session username persistence later draws) store.auth_tokens
        v.distinct;
  keyed =
      All-emplace IsKeyed _ (new_session username persistence later draws) store.auth_tokens refl
        v.keyed;
}
step-IsIndexed store (now, later, logs_in token) v = ground (
  arith,
  apply_session_timeouts-IsIndexed now store v,
  login_found-IsIndexed later token (apply_session_timeouts now store),
)
step-IsIndexed store (now, later, gets_uid uid) v = apply_session_timeouts-IsIndexed now store v
step-IsIndexed store (now, later, removes session) v = record {
  distinct = erase-HasDistinctKeys session.session_token store.auth_tokens v.distinct;
  keyed = All-erase IsKeyed session.session_token store.auth_tokens v.keyed;
}
step-IsIndexed store (now, later, lists get_all type) v =
    apply_session_timeouts-IsIndexed now store v
step-IsIndexed store (now, later, configures config) v = record {
  distinct = v.distinct;
  keyed = v.keyed;
}

pub run-IsIndexed :
    (calls : List (ℕ × ℕ × Call)) (store : SessionStore)
    → IsIndexed store
    → IsIndexed (run store calls)
unfolding run
run-IsIndexed [] store v = v
run-IsIndexed (c ∷ calls) store v = run-IsIndexed calls (step store c) (step-IsIndexed store c v)
