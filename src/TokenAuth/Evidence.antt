-- ===== src/TokenAuth/Evidence.antt =====
-- What an authenticated request rests on (include/token_authorization_middleware.hpp).
use bmcweb.Prelude.{
  ◌≡◌, refl, ◌⊎◌, inl, inr, Bool, true, false, ◌&&◌, none, some, codes, starts_with, drop, is_empty,
  arith, Bool-cases, and_split,
}
use bmcweb.Prelude.Assoc.{lookup}
use bmcweb.Sessions.{
  UserSession, SessionStore, session_token_size, random_text, login_session_by_token,
}
use bmcweb.Sessions.Keys.{IsIndexed}
use bmcweb.Sessions.Kept.{Known}
use bmcweb.Http.{Request}
use bmcweb.TokenAuth.{
  Env, IsMemcmp, Login, perform_xtoken_auth, session_key, perform_cookie_auth, perform_header_auth,
  attempt, authenticate,
}
use bmcweb.TokenAuth.SameSite.{IsSameSite}
use bmcweb.TokenAuth.Attempts.{
  Descends, Descends-refl, Descends-trans, xtoken-Descends, cookie-Descends, xtoken_sound,
  cookie_sound, token_sound, ByPassword, basic_sound,
}

-- The request carries the token of a session that the store knows, in a way that is switched on; a
-- cookie also has to come from the same site.
abbrev pub ByToken : Env → Request → SessionStore → UserSession → Type 0
ByToken env req store s =
    let config = store.auth_methods_config in
    Known store s
    × (((config.xtoken ≡ true) × (req.header "X-Auth-Token" ≡ s.session_token))
        ⊎ (((config.cookie ≡ true)
              × (session_key (req.header "Cookie") ≡ some s.session_token)
              × IsSameSite req s)
            ⊎ ((config.session_token_auth ≡ true)
                × (starts_with (req.header "Authorization") (codes "Token ") ≡ true)
                × (drop 6 (req.header "Authorization") ≡ s.session_token))))

abbrev pub Evidence : Env → Request → SessionStore → UserSession → Type 0
Evidence env req store s =
    ByToken env req store s
    ⊎ ((store.auth_methods_config.basic ≡ true)
        × (starts_with (req.header "Authorization") (codes "Basic ") ≡ true)
        × ByPassword env (req.header "Authorization") s)

attempt_cases :
    (enabled : Bool) (auth : SessionStore → Login) (l : Login) (s : UserSession)
    → (attempt enabled auth l).1 ≡ some s
    → (l.1 ≡ some s) ⊎ ((enabled ≡ true) × (l.1 ≡ none) × ((auth l.0).1 ≡ some s))
attempt_cases enabled auth (store, some t) s e = inl e
attempt_cases true auth (store, none) s e = inr (refl, refl, e)
attempt_cases false auth (store, none) s e = inl e

attempt_keeps :
    (enabled : Bool) (auth : SessionStore → Login) (l : Login) (s : UserSession)
    → l.1 ≡ some s
    → (attempt enabled auth l).1 ≡ some s
attempt_keeps enabled auth (store, some t) s e = e
attempt_keeps enabled auth (store, none) s e = cc

attempt-Descends :
    (enabled : Bool) (auth : SessionStore → Login) (l : Login) (store : SessionStore)
    → ((next : SessionStore) → IsIndexed next → Descends next (auth next).0)
    → Descends store l.0
    → Descends store (attempt enabled auth l).0
attempt-Descends enabled auth (next, some t) store keep d = d
attempt-Descends true auth (next, none) store keep d =
    Descends-trans store next (auth next).0 d (keep next d.indexed)
attempt-Descends false auth (next, none) store keep d = d

header_sound :
    (env : Env) (req : Request) (store next : SessionStore) (s : UserSession)
    → Descends store next
    → lookup (random_text session_token_size 0 env.draws) store.auth_tokens ≡ none
    → (perform_header_auth env req next).1 ≡ some s
    → Evidence env req store s
unfolding perform_header_auth
header_sound env req store next s d fresh e =
    elim (Bool-cases (is_empty (req.header "Authorization"))) [
      | inl f ↦ absurd (cc (rw f at e))
      | inr f ↦
          elim (Bool-cases (
            starts_with (req.header "Authorization") (codes "Token ")
            && next.auth_methods_config.session_token_auth)) [
              | inl g ↦
                  let (known, own) =
                    token_sound env (req.header "Authorization") next s d.indexed
                      (rw (f, g) at e) in
                  let (prefix, enabled) = and_split _ _ g in
                  inl (d.back s known, inr (inr (ground (arith, d.config), prefix, own)))
              | inr g ↦
                  elim (Bool-cases (
                    starts_with (req.header "Authorization") (codes "Basic ")
                    && next.auth_methods_config.basic)) [
                      | inl h ↦
                          let (prefix, enabled) = and_split _ _ h in
                          inr (
                            ground (arith, d.config),
                            prefix,
                            basic_sound env (req.header "Authorization") next s
                                (d.absent (random_text session_token_size 0 env.draws) fresh)
                                (rw (f, g, h) at e),
                          )
                      | inr h ↦ absurd (cc (rw (f, g, h) at e))
                    ]
            ]
    ]

-- A request that brings no session of its own is given one only on evidence: it carries the token
-- of a session that the store knows, by a method that is switched on, and where the token comes from
-- a cookie it is a GET or repeats the session's token against cross-site requests; or basic
-- authentication is switched on and PAM accepts the user and the password of the header, and then
-- the session is a new one for that user and for this request only. (The store is indexed by its
-- tokens, the token that would be drawn is not in use, and CRYPTO_memcmp compares.)
pub authenticate_sound :
    (env : Env) (req : Request) (store : SessionStore) (s : UserSession)
    → IsMemcmp env.crypto_memcmp
    → IsIndexed store
    → req.session ≡ none
    → lookup (random_text session_token_size 0 env.draws) store.auth_tokens ≡ none
    → (authenticate env req store).1 ≡ some s
    → Evidence env req store s
unfolding authenticate
authenticate_sound env req store s law v nobody fresh e =
    elim (attempt_cases true (perform_header_auth env req) second s e) [
      | inr (_, _, by_header) ↦ header_sound env req store second.0 s d2 fresh by_header
      | inl e2 ↦ elim (attempt_cases config.cookie (perform_cookie_auth env req) first s e2) [
        | inr (enabled, _, by_cookie) ↦
            let (known, key, csrf) = cookie_sound env req first.0 s law d1.indexed by_cookie in
            inl (d1.back s known, inr (inl (enabled, key, csrf)))
        | inl e1 ↦
            elim (attempt_cases config.xtoken (perform_xtoken_auth env req) (store, req.session) s
              e1) [
                | inr (enabled, _, by_xtoken) ↦
                    let (known, own) = xtoken_sound env req store s v by_xtoken in
                    inl (known, inl (enabled, own))
                | inl e0 ↦ absurd (cc)
              ]
      ]
    ]
  where
    open store use {auth_methods_config as config}

    first : Login
    first = attempt config.xtoken (perform_xtoken_auth env req) (store, req.session)

    second : Login
    second = attempt config.cookie (perform_cookie_auth env req) first

    d1 : Descends store first.0
    d1 =
        attempt-Descends config.xtoken (perform_xtoken_auth env req) (store, req.session) store
          (xtoken-Descends env req) (Descends-refl store v)

    d2 : Descends store second.0
    d2 =
        attempt-Descends config.cookie (perform_cookie_auth env req) first store
          (cookie-Descends env req) d1

-- A token in the X-Auth-Token header comes first: if the store accepts it, it decides.
pub authenticate_xtoken :
    (env : Env) (req : Request) (store : SessionStore) (s : UserSession)
    → req.session ≡ none
    → store.auth_methods_config.xtoken ≡ true
    → is_empty (req.header "X-Auth-Token") ≡ false
    → (login_session_by_token (env.clock 0) (env.clock 1) (req.header "X-Auth-Token") store).1
      ≡ some s
    → (authenticate env req store).1 ≡ some s
unfolding authenticate perform_xtoken_auth
authenticate_xtoken env req store s nobody on there found =
    attempt_keeps true (perform_header_auth env req) _ s (
      attempt_keeps store.auth_methods_config.cookie (perform_cookie_auth env req) _ s
        (simp (nobody, on, there) found))
