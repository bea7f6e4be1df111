-- ===== src/Sessions/Login.antt =====
-- `loginSessionByToken` against the sessions that were generated and removed (include/sessions.hpp).
use bmcweb.Prelude.{
  ℕ, zero, ◌∙◌, suc, ◌+◌, ◌-◌, ◌≤◌, ◌<◌, ◌≡◌, refl, inl, inr, Bool, ◌&&◌, none, some, List, Bytes,
  bytes_eq_refl, length, arith, if◌then◌else◌, Option-cases, leb, ltb, ◌==◌,
}
use bmcweb.Prelude.Assoc.{
  lookup, lookup-emplace, lookup-erase_self, erase-HasDistinctKeys, emplace-HasDistinctKeys,
  All-lookup, All-erase, All-emplace,
}
use bmcweb.Sessions.{
  UserSession, SessionStore, PersistenceType, session_token_size, timeout_in_minutes, one_minute,
  apply_session_timeouts, new_session, random_text, touch, generate_user_session, login_found,
  login_session_by_token, remove_session,
}
use bmcweb.Sessions.Keys.{Call, IsIndexed, IsKeyed, run, run-IsIndexed, lookup-unexpired}
use bmcweb.Sessions.Freshness.{IsFresh, OutlivesSweep, IsTimed, run-IsFresh}

-- Whether a call at `now` sweeps the store and takes session `s` away.
abbrev pub is_swept : ℕ → SessionStore → UserSession → Bool
is_swept now store s =
    ltb one_minute (now - store.last_timeout_update)
    && leb timeout_in_minutes (now - s.last_updated)

pub lookup-apply_session_timeouts :
    (token : Bytes) (now : ℕ) (store : SessionStore)
    → IsIndexed store
    → lookup token (apply_session_timeouts now store).auth_tokens
      ≡ elim (lookup token store.auth_tokens) [
        | none ↦ none
        | some s ↦ if is_swept now store s then none else some s
      ]
unfolding apply_session_timeouts
lookup-apply_session_timeouts token now store v =
    ground (arith, lookup-unexpired token now store.auth_tokens v.distinct)

-- What a login by token answers, in every case: a token of another length than 20 is refused; one
-- that the store does not know too; the session of a known one is returned with its idle timer
-- restarted, unless the sweep that comes first takes it away.
pub login_session_by_token_lem :
    (now later : ℕ) (token : Bytes) (store : SessionStore)
    → IsIndexed store
    → (login_session_by_token now later token store).1 ≡ (
        if length token == session_token_size
        then elim (lookup token store.auth_tokens) [
          | none ↦ none
          | some s ↦ if is_swept now store s then none else some (touch later s)
        ]
        else none)
unfolding login_session_by_token login_found
login_session_by_token_lem now later token store v =
    ground (arith, lookup-apply_session_timeouts token now store v)

-- The session `s` is that of the token, restarted at `later`, and at `now` it had been idle for
-- less than an hour and a minute.
abbrev pub IsBounded : ℕ → ℕ → Bytes → SessionStore → UserSession → Type 0
IsBounded now later token store s =
    (length token ≡ session_token_size)
    × (s.session_token ≡ token)
    × ((old : UserSession) × (lookup token store.auth_tokens ≡ some old)
        × (s ≡ touch later old)
        × (now < old.last_updated + timeout_in_minutes + one_minute))

login-IsBounded :
    (clock now later : ℕ) (token : Bytes) (s : UserSession) (store : SessionStore)
    → IsIndexed store
    → IsFresh clock store
    → clock ≤ now
    → (login_session_by_token now later token store).1 ≡ some s
    → IsBounded now later token store s
login-IsBounded clock now later token s store v f h e =
    elim (Option-cases (lookup token store.auth_tokens)) [
      | inl missing ↦ absurd (ground (arith, login_session_by_token_lem now later token store v))
      | inr (old, found) ↦ (
        ground (arith, login_session_by_token_lem now later token store v),
        ground (
          arith,
          login_session_by_token_lem now later token store v,
          All-lookup IsKeyed token old store.auth_tokens v.keyed found,
        ),
        (
          old,
          found,
          ground (arith, login_session_by_token_lem now later token store v),
          ground (
            arith,
            login_session_by_token_lem now later token store v,
            All-lookup (OutlivesSweep store.last_timeout_update) token old store.auth_tokens
                f.outlive found,
          ),
        ),
      )
    ]

-- In any history of the store whose clock does not go back: a login succeeds only with a token of
-- 20 bytes that the store knows, gives that token's session with its idle timer restarted, and
-- never one that has been idle for an hour and a minute.
pub login-run-IsBounded :
    (start clock now later : ℕ) (calls : List (ℕ × ℕ × Call)) (store : SessionStore) (token : Bytes)
    (s : UserSession)
    → IsIndexed store
    → IsFresh start store
    → IsTimed start calls clock
    → clock ≤ now
    → (login_session_by_token now later token (run store calls)).1 ≡ some s
    → IsBounded now later token (run store calls) s
login-run-IsBounded start clock now later calls store token s v f t =
    login-IsBounded clock now later token s (run store calls) (run-IsIndexed calls store v)
      (run-IsFresh start clock calls store t f)

-- A session that is not yet due is found by its token.
pub login_live :
    (now later : ℕ) (token : Bytes) (store : SessionStore) (s : UserSession)
    → IsIndexed store
    → length token ≡ session_token_size
    → lookup token store.auth_tokens ≡ some s
    → now < s.last_updated + timeout_in_minutes
    → (login_session_by_token now later token store).1 ≡ some (touch later s)
login_live now later token store s v e found h =
    ground (arith, login_session_by_token_lem now later token store v)

pub length-random_text : (n i : ℕ) (draws : ℕ → ℕ) → length (random_text n i draws) ≡ n
unfolding random_text
length-random_text zero i draws = refl
length-random_text (suc n) i draws = omega (arith, length-random_text n (i + 1) draws)

-- Round trip: a generated session whose token was not taken is found by that token for an hour
-- from when it was generated, and its idle timer starts again.
pub login-generate_user_session :
    (created now later : ℕ) (username : Bytes) (persistence : PersistenceType) (draws : ℕ → ℕ)
    (store : SessionStore)
    → IsIndexed store
    → lookup (random_text session_token_size 0 draws) store.auth_tokens ≡ none
    → now < created + timeout_in_minutes
    → let made = generate_user_session username persistence created draws store in
      (login_session_by_token now later made.1.session_token made.0).1 ≡ some (touch later made.1)
unfolding generate_user_session
login-generate_user_session created now later username persistence draws store v fresh h =
    rw fresh (
      login_live now later made.session_token
        (generate_user_session username persistence created draws store).0 made
        (record {
          distinct = emplace-HasDistinctKeys made.session_token made store.auth_tokens v.distinct;
          keyed = All-emplace IsKeyed made.session_token made store.auth_tokens refl v.keyed;
        })
        (length-random_text 20 0 draws)
        (lookup-emplace made.session_token made.session_token made store.auth_tokens
          ∙ rw (fresh, bytes_eq_refl made.session_token))
        h)
  where
    made : UserSession
    made = new_session username persistence created draws

-- A removed session's token opens nothing, when and however often it is tried.
pub login-remove_session :
    (now later : ℕ) (s : UserSession) (store : SessionStore)
    → IsIndexed store
    → (login_session_by_token now later s.session_token (remove_session s store)).1 ≡ none
unfolding remove_session
login-remove_session now later s store v = ground (
  arith,
  login_session_by_token_lem now later s.session_token (remove_session s store) (record {
    distinct = erase-HasDistinctKeys s.session_token store.auth_tokens v.distinct;
    keyed = All-erase IsKeyed s.session_token store.auth_tokens v.keyed;
  }),
  lookup-erase_self s.session_token store.auth_tokens v.distinct,
)
