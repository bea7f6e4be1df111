-- ===== src/Sessions/Kept.antt =====
-- What a login by token leaves of the store (include/sessions.hpp): no session that was not there,
-- and of those that were, at most the idle timer changed.
use bmcweb.Prelude.{
  ℕ, ◌≡◌, refl, inl, inr, none, some, Bytes, bytes_eq_iff, length, arith, Option-cases, Bool-cases,
  ◌==◌,
}
use bmcweb.Prelude.Assoc.{lookup, assign, lookup-assign, All-lookup}
use bmcweb.Sessions.{
  UserSession, SessionStore, session_token_size, touch, apply_session_timeouts, login_found,
  login_session_by_token,
}
use bmcweb.Sessions.Keys.{IsIndexed, IsKeyed, step, step-IsIndexed, logs_in}
use bmcweb.Sessions.Login.{lookup-apply_session_timeouts, login_session_by_token_lem}

-- The store has the session under its token, up to the idle timer.
abbrev pub Known : SessionStore → UserSession → Type 0
Known store s =
    (old : UserSession) × (lookup s.session_token store.auth_tokens ≡ some old)
    × (s ≡ touch s.last_updated old)

pub login-IsIndexed :
    (now later : ℕ) (token : Bytes) (store : SessionStore)
    → IsIndexed store
    → IsIndexed (login_session_by_token now later token store).0
unfolding step
login-IsIndexed now later token store v = step-IsIndexed store (now, later, logs_in token) v

pub login_config :
    (now later : ℕ) (token : Bytes) (store : SessionStore)
    → (login_session_by_token now later token store).0.auth_methods_config
      ≡ store.auth_methods_config
unfolding login_session_by_token login_found apply_session_timeouts
login_config now later token store = ground arith

swept_lookup :
    (now : ℕ) (k : Bytes) (store : SessionStore) (x : UserSession)
    → IsIndexed store
    → lookup k (apply_session_timeouts now store).auth_tokens ≡ some x
    → lookup k store.auth_tokens ≡ some x
swept_lookup now k store x v e = ground (arith, lookup-apply_session_timeouts k now store v)

found_lookup :
    (later : ℕ) (token k : Bytes) (store : SessionStore) (x : UserSession)
    → lookup k (login_found later token store).0.auth_tokens ≡ some x
    → (old : UserSession) × (lookup k store.auth_tokens ≡ some old) × (x ≡ touch x.last_updated old)
unfolding login_found
found_lookup later token k store x e = elim (Option-cases (lookup token store.auth_tokens)) [
  | inl missing ↦ (x, rw (missing, login_found) at e, refl)
  | inr (s, found) ↦
      let e' : lookup k (assign token (touch later s) store.auth_tokens) ≡ some x =
        rw (found, login_found) at e in
      elim (Option-cases (lookup k store.auth_tokens)) [
        | inl none_there ↦
            absurd (ground (arith, lookup-assign token k (touch later s) store.auth_tokens))
        | inr (old, there) ↦ (
          old,
          there,
          ground (
            arith,
            lookup-assign token k (touch later s) store.auth_tokens,
            bytes_eq_iff token k,
          ),
        )
      ]
]

-- What stands under a key after a login stood there before.
pub lookup-login :
    (now later : ℕ) (token k : Bytes) (store : SessionStore) (x : UserSession)
    → IsIndexed store
    → lookup k (login_session_by_token now later token store).0.auth_tokens ≡ some x
    → (old : UserSession) × (lookup k store.auth_tokens ≡ some old) × (x ≡ touch x.last_updated old)
unfolding login_session_by_token
lookup-login now later token k store x v e =
    elim (Bool-cases (length token == session_token_size)) [
      | inl sized ↦
          let (old, there, same) =
            found_lookup later token k (apply_session_timeouts now store) x (rw sized at e) in
          (old, swept_lookup now k store old v there, same)
      | inr other ↦ (x, swept_lookup now k store x v (rw other at e), refl)
    ]

pub login-Known :
    (now later : ℕ) (token : Bytes) (store : SessionStore) (s : UserSession)
    → IsIndexed store
    → (login_session_by_token now later token store).1 ≡ some s
    → Known store s × (s.session_token ≡ token)
login-Known now later token store s v e = elim (Option-cases (lookup token store.auth_tokens)) [
  | inl missing ↦ absurd (ground (arith, login_session_by_token_lem now later token store v))
  | inr (old, found) ↦
      let same : s ≡ touch later old =
        ground (arith, login_session_by_token_lem now later token store v) in
      let own : s.session_token ≡ token =
        ground (arith, All-lookup IsKeyed token old store.auth_tokens v.keyed found) in
      ((old, rw own found, ground arith), own)
]

-- A session known after a login was known before it.
pub Known-login :
    (now later : ℕ) (token : Bytes) (store : SessionStore) (s : UserSession)
    → IsIndexed store
    → Known (login_session_by_token now later token store).0 s
    → Known store s
Known-login now later token store s v (x, e, same) =
    let (old, found, same') = lookup-login now later token s.session_token store x v e in
    (old, found, ground arith)

pub login_absent :
    (now later : ℕ) (token k : Bytes) (store : SessionStore)
    → IsIndexed store
    → lookup k store.auth_tokens ≡ none
    → lookup k (login_session_by_token now later token store).0.auth_tokens ≡ none
login_absent now later token k store v missing =
    elim (Option-cases (lookup k (login_session_by_token now later token store).0.auth_tokens)) [
      | inl e ↦ e
      | inr (x, e) ↦ let (old, found, _) = lookup-login now later token k store x v e in absurd (cc)
    ]
