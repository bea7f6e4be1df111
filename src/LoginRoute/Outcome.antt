-- ===== src/LoginRoute/Outcome.antt =====
-- What /login and /logout (include/token_authorization_middleware.hpp) do to the sessions, and what
-- the token that they hand out is worth.
use bmcweb.Prelude.{
  ℕ, ◌+◌, ◌<◌, ◌≡◌, ◌≢◌, refl, ◌∙◌, ◌⊎◌, inl, inr, true, not, ◌&&◌, Option, none, some, [], ◌∷◌,
  Bytes, codes, is_empty, arith, Option-cases, Bool-cases, and_split,
}
use bmcweb.Prelude.Assoc.{lookup}
use bmcweb.Sessions.{
  UserSession, SessionStore, timeout, session_token_size, timeout_in_minutes, random_text, touch,
  generate_user_session, login_session_by_token,
}
use bmcweb.Sessions.Keys.{IsIndexed}
use bmcweb.Sessions.Login.{length-random_text, login-generate_user_session, login-remove_session}
use bmcweb.Http.{Request, Response}
use bmcweb.Http.Responses.{IsCounted, end_json, end_lem, end-result, add_header_lem}
use bmcweb.TokenAuth.{Env, authenticate}
use bmcweb.TokenAuth.Evidence.{authenticate_xtoken}
use bmcweb.TokenAuth.Cookies.{is_empty-sized}
use bmcweb.LoginRoute.{
  Json, Credentials, credentials, session_cookies, ibm_members, welcome, log_in, login, logout,
}

-- A login that changes nothing: completed once, with status 400 or 401.
abbrev pub IsTurnedAway : SessionStore → Response × SessionStore → Type 0
IsTurnedAway store out =
    (out.1 ≡ store)
    × (out.0.completed ≡ true)
    × IsCounted out.0
    × ((out.0.status ≡ 400) ⊎ (out.0.status ≡ 401))

-- A login that PAM accepted: the store has a new session of that user, and the response, completed
-- once, hands out its token, in its body or in a cookie.
abbrev pub IsWelcomed :
    Env → Credentials → Response → SessionStore → Response × SessionStore → Type 0
IsWelcomed env c res store out =
    let made = generate_user_session c.username timeout (env.clock 0) env.draws store in
    (env.pam_authenticate_user c.username c.password ≡ true)
    × (c.username ≢ [])
    × (c.password ≢ [])
    × (out.1 ≡ made.0)
    × (out.0.completed ≡ true)
    × IsCounted out.0
    × (out.0.status ≡ res.status)
    × ((out.0.json_value ≡ (codes "token", made.1.session_token) ∷ [])
        ⊎ (lookup (codes "Set-Cookie") out.0.headers ≡ some (session_cookies made.1)))

welcome_lem :
    (c : Credentials) (session : UserSession) (res : Response)
    → IsCounted res
    → IsCounted (welcome c session res)
      × ((welcome c session res).status ≡ res.status)
      × (((welcome c session res).json_value ≡ (codes "token", session.session_token) ∷ [])
          ⊎ (lookup (codes "Set-Cookie") (welcome c session res).headers
              ≡ some (session_cookies session)))
unfolding welcome
welcome_lem c session res h = elim (Bool-cases c.looks_like_ibm) [
  | inl e ↦
      let (cookie, status, completed, completions) =
        add_header_lem (codes "Set-Cookie") (session_cookies session)
          (record res { json_value = ibm_members c.username }) in
      rw e (ground arith, status, inr cookie)
  | inr e ↦ rw e (h, refl, inl refl)
]

not-is_empty : (s : Bytes) → not (is_empty s) ≡ true → s ≢ []
not-is_empty [] h e = cc
not-is_empty (c ∷ s) h e = cc

log_in_lem :
    (env : Env) (c : Credentials) (res : Response) (store : SessionStore)
    → IsCounted res
    → IsTurnedAway store (log_in env c res store)
      ⊎ IsWelcomed env c res store (log_in env c res store)
unfolding log_in
log_in_lem env c res store h =
    elim (Bool-cases (not (is_empty c.username) && not (is_empty c.password))) [
      | inr e ↦
          let (done, counted, status) = end-result 400 res h in
          inl (rw e (refl, done, counted, inl status))
      | inl e ↦ elim (Bool-cases (env.pam_authenticate_user c.username c.password)) [
        | inr f ↦
            let (done, counted, status) = end-result 401 res h in
            inl (rw (e, f) (refl, done, counted, inr status))
        | inl f ↦ inr (welcomed e f)
      ]
    ]
  where
    made : SessionStore × UserSession
    made = generate_user_session c.username timeout (env.clock 0) env.draws store

    welcomed :
        (not (is_empty c.username) && not (is_empty c.password)) ≡ true
        → env.pam_authenticate_user c.username c.password ≡ true
        → IsWelcomed env c res store (log_in env c res store)
    welcomed e f =
        let (counted, status, token) = welcome_lem c made.1 res h in
        let (done, ended_status, ended_headers, ended) = end_lem (welcome c made.1 res) in
        let (u, p) = and_split _ _ e in
        rw (e, f)
          (
            refl,
            not-is_empty c.username u,
            not-is_empty c.password p,
            refl,
            done,
            ended counted,
            ended_status ∙ status,
            elim token [
              | inl t ↦ inl (end_json (welcome c made.1 res) ∙ t)
              | inr t ↦ inr (rw ended_headers t)
            ],
          )

-- The login handler has two outcomes. Either the request is turned away, with status 400 or 401
-- and no session changed; or it carries a user and a password, neither of them empty, that PAM
-- accepts, and then a new session of that user is in the store and its token in the response. In
-- both the response is completed exactly once.
pub login_outcome :
    (env : Env) (parse : Bytes → Option Json) (req : Request) (res : Response)
    (store : SessionStore)
    → IsCounted res
    → IsTurnedAway store (login env parse req res store)
      ⊎ ((c : Credentials) × (credentials parse req ≡ some c)
          × IsWelcomed env c res store (login env parse req res store))
unfolding login
login_outcome env parse req res store h = elim (Option-cases (credentials parse req)) [
  | inl e ↦
      let (done, counted, status) = end-result 400 res h in
      inl (rw (e, login) (refl, done, counted, inl status))
  | inr (c, e) ↦ elim (log_in_lem env c res store h) [
    | inl away ↦ inl (rw (e, login) away)
    | inr in_ ↦ inr (c, e, rw (e, login) in_)
  ]
]

-- The token that a login hands out opens the next requests: within the hour a request that carries
-- it in X-Auth-Token is given the new session, where that method is switched on. (The drawn token
-- was not in use; `next` is the environment of the later request.)
pub authenticate-login :
    (env next : Env) (c : Credentials) (res : Response) (store : SessionStore) (req : Request)
    → IsIndexed store
    → lookup (random_text session_token_size 0 env.draws) store.auth_tokens ≡ none
    → IsWelcomed env c res store (log_in env c res store)
    → next.clock 0 < env.clock 0 + timeout_in_minutes
    → store.auth_methods_config.xtoken ≡ true
    → req.session ≡ none
    → req.header "X-Auth-Token"
      ≡ (generate_user_session c.username timeout (env.clock 0) env.draws store).1.session_token
    → (authenticate next req (log_in env c res store).1).1
      ≡ some (
          touch
            (next.clock 1)
            (generate_user_session c.username timeout (env.clock 0) env.draws store).1)
unfolding generate_user_session
authenticate-login env next c res store req v fresh w h on nobody token = rw (w.3) (
    authenticate_xtoken next req made.0 (touch (next.clock 1) made.1) nobody on
      (rw (token, fresh) (is_empty-sized _ 19 (length-random_text 20 0 env.draws)))
      (rw token (
        login-generate_user_session (env.clock 0) (next.clock 0) (next.clock 1) c.username timeout
          env.draws store v fresh h)))
  where
    made : SessionStore × UserSession
    made = generate_user_session c.username timeout (env.clock 0) env.draws store

-- Logging out ends the session: from then on its token is refused, whenever it is tried.
pub login_session-logout :
    (req : Request) (res : Response) (store : SessionStore) (s : UserSession) (now later : ℕ)
    → IsIndexed store
    → req.session ≡ some s
    → (login_session_by_token now later s.session_token (logout req res store).1).1 ≡ none
unfolding logout
login_session-logout req res store s now later v e = rw e (login-remove_session now later s store v)
