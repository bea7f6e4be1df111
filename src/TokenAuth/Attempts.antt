-- ===== src/TokenAuth/Attempts.antt =====
-- Each of the ways in of include/token_authorization_middleware.hpp by itself: what it leaves of the
-- store, and what a session that it returns rests on.
use bmcweb.Prelude.{
  ℕ, zero, suc, ◌+◌, ◌≡◌, refl, sym, ap, ◌∙◌, inl, inr, true, none, some, [], ◌∷◌, ◌++◌, Bytes,
  codes, find_text, substr, drop, is_empty, arith, Option-cases, Bool-cases,
}
use bmcweb.Prelude.Assoc.{lookup}
use bmcweb.Base64.{base64_decode}
use bmcweb.Sessions.{
  UserSession, SessionStore, single_request, session_token_size, random_text, new_session,
  login_session_by_token, generate_user_session,
}
use bmcweb.Sessions.Keys.{IsIndexed}
use bmcweb.Sessions.Kept.{
  Known, login-IsIndexed, login_config, login-Known, Known-login, login_absent,
}
use bmcweb.Http.{Request}
use bmcweb.TokenAuth.SameSite.{IsSameSite, check_csrf_sound, passes_csrf_sound}
use bmcweb.TokenAuth.{
  Env, IsMemcmp, Login, check_password, perform_basic_auth, perform_token_auth, perform_xtoken_auth,
  session_key, check_csrf, perform_cookie_auth,
}

-- `next` came from `store` by logins by token: nothing is known that was not known.
pub record Descends (store next : SessionStore) : Type 0 where
  pub indexed : IsIndexed next
  pub config : next.auth_methods_config ≡ store.auth_methods_config
  pub back : (s : UserSession) → Known next s → Known store s
  pub absent : (k : Bytes) → lookup k store.auth_tokens ≡ none → lookup k next.auth_tokens ≡ none

pub Descends-refl : (store : SessionStore) → IsIndexed store → Descends store store
Descends-refl store v = record { indexed = v; config = refl; back = λ s k. k; absent = λ k e. e }

pub Descends-trans : (a b c : SessionStore) → Descends a b → Descends b c → Descends a c
Descends-trans a b c p q = record {
  indexed = q.indexed;
  config = q.config ∙ p.config;
  back = λ s k. p.back s (q.back s k);
  absent = λ k e. q.absent k (p.absent k e);
}

login-Descends :
    (now later : ℕ) (token : Bytes) (store : SessionStore)
    → IsIndexed store
    → Descends store (login_session_by_token now later token store).0
login-Descends now later token store v = record {
  indexed = login-IsIndexed now later token store v;
  config = login_config now later token store;
  back = λ s. Known-login now later token store s v;
  absent = λ k. login_absent now later token k store v;
}

pub xtoken-Descends :
    (env : Env) (req : Request) (store : SessionStore)
    → IsIndexed store
    → Descends store (perform_xtoken_auth env req store).0
unfolding perform_xtoken_auth
xtoken-Descends env req store v = elim (Bool-cases (is_empty (req.header "X-Auth-Token"))) [
  | inl e ↦ rw e (Descends-refl store v)
  | inr e ↦ rw e (login-Descends _ _ _ store v)
]

check_csrf_store : (env : Env) (req : Request) (l : Login) → (check_csrf env req l).0 ≡ l.0
check_csrf_store env req (store, none) = refl
check_csrf_store env req (store, some s) = ground arith

pub cookie-Descends :
    (env : Env) (req : Request) (store : SessionStore)
    → IsIndexed store
    → Descends store (perform_cookie_auth env req store).0
unfolding perform_cookie_auth
cookie-Descends env req store v = elim (Bool-cases (is_empty (req.header "Cookie"))) [
  | inl e ↦ rw e (Descends-refl store v)
  | inr e ↦ elim (Option-cases (session_key (req.header "Cookie"))) [
    | inl f ↦ rw (e, f) (Descends-refl store v)
    | inr (key, f) ↦
        rw
          (
            e,
            f,
            check_csrf_store env req (login_session_by_token (env.clock 2) (env.clock 3) key store),
          )
          (login-Descends _ _ key store v)
  ]
]

pub xtoken_sound :
    (env : Env) (req : Request) (store : SessionStore) (s : UserSession)
    → IsIndexed store
    → (perform_xtoken_auth env req store).1 ≡ some s
    → Known store s × (req.header "X-Auth-Token" ≡ s.session_token)
unfolding perform_xtoken_auth
xtoken_sound env req store s v e = elim (Bool-cases (is_empty (req.header "X-Auth-Token"))) [
  | inl f ↦ absurd (cc (rw f at e))
  | inr f ↦
      let (known, own) =
        login-Known (env.clock 0) (env.clock 1) (req.header "X-Auth-Token") store s v (rw f at e) in
      (known, sym own)
]

pub cookie_sound :
    (env : Env) (req : Request) (store : SessionStore) (s : UserSession)
    → IsMemcmp env.crypto_memcmp
    → IsIndexed store
    → (perform_cookie_auth env req store).1 ≡ some s
    → Known store s × (session_key (req.header "Cookie") ≡ some s.session_token) × IsSameSite req s
unfolding perform_cookie_auth
cookie_sound env req store s law v e = elim (Bool-cases (is_empty (req.header "Cookie"))) [
  | inl f ↦ absurd (cc (rw f at e))
  | inr f ↦ elim (Option-cases (session_key (req.header "Cookie"))) [
    | inl g ↦ absurd (cc (rw (f, g) at e))
    | inr (key, g) ↦
        let (passed, csrf) =
          check_csrf_sound env req (login_session_by_token (env.clock 2) (env.clock 3) key store) s
            (rw (f, g) at e) in
        let (known, own) = login-Known (env.clock 2) (env.clock 3) key store s v passed in
        (known, g ∙ ap some (sym own), passes_csrf_sound env req s law csrf)
  ]
]

pub token_sound :
    (env : Env) (auth_header : Bytes) (store : SessionStore) (s : UserSession)
    → IsIndexed store
    → (perform_token_auth env auth_header store).1 ≡ some s
    → Known store s × (drop 6 auth_header ≡ s.session_token)
unfolding perform_token_auth
token_sound env auth_header store s v e =
    let (known, own) = login-Known (env.clock 4) (env.clock 5) (drop 6 auth_header) store s v e in
    (known, sym own)

-- A text that holds a colon is what stands before the first one, the colon, and the rest.
find_colon :
    (text : Bytes) (i : ℕ)
    → find_text text (codes ":") ≡ some i
    → text ≡ substr text 0 i ++ b':' ∷ drop (suc i) text
find_colon [] i e = absurd (cc)
find_colon (c ∷ s) zero e = ground arith
find_colon (c ∷ s) (suc i) e = ground (arith, find_colon s i)

generate_fresh :
    (user : Bytes) (env : Env) (store : SessionStore)
    → lookup (random_text session_token_size 0 env.draws) store.auth_tokens ≡ none
    → (generate_user_session user single_request (env.clock 6) env.draws store).1
      ≡ new_session user single_request (env.clock 6) env.draws
unfolding generate_user_session
generate_fresh user env store fresh = rw fresh

-- What a password login rests on: PAM took the user and the password that the header carries.
abbrev pub ByPassword : Env → Bytes → UserSession → Type 0
ByPassword env auth_header s =
    (user : Bytes) × (pass : Bytes) × (base64_decode (drop 6 auth_header)
      ≡ (true, user ++ b':' ∷ pass))
    × (env.pam_authenticate_user user pass ≡ true)
    × (s ≡ new_session user single_request (env.clock 6) env.draws)

check_password_sound :
    (env : Env) (text : Bytes) (store : SessionStore) (s : UserSession)
    → lookup (random_text session_token_size 0 env.draws) store.auth_tokens ≡ none
    → (check_password env text store).1 ≡ some s
    → (user : Bytes) × (pass : Bytes) × (text ≡ user ++ b':' ∷ pass)
      × (env.pam_authenticate_user user pass ≡ true)
      × (s ≡ new_session user single_request (env.clock 6) env.draws)
unfolding check_password
check_password_sound env text store s fresh e = elim (Option-cases (find_text text (codes ":"))) [
  | inl g ↦ absurd (cc (rw (g, check_password) at e))
  | inr (i, g) ↦ (
    substr text 0 i,
    drop (i + 1) text,
    find_colon text i g
        ∙ ap (λ n. substr text 0 i ++ b':' ∷ drop n text) {x = suc i} {y = i + 1} (omega arith),
    ground arith,
    ground (arith, generate_fresh (substr text 0 i) env store fresh),
  )
]

pub basic_sound :
    (env : Env) (auth_header : Bytes) (store : SessionStore) (s : UserSession)
    → lookup (random_text session_token_size 0 env.draws) store.auth_tokens ≡ none
    → (perform_basic_auth env auth_header store).1 ≡ some s
    → ByPassword env auth_header s
unfolding perform_basic_auth
basic_sound env auth_header store s fresh e =
    elim (Bool-cases (base64_decode (drop 6 auth_header)).0) [
      | inl good ↦
          let (user, pass, split, pam, made) =
            check_password_sound env (base64_decode (drop 6 auth_header)).1 store s fresh
              (rw good at e) in
          (user, pass, ground arith, pam, made)
      | inr bad ↦ absurd (cc (rw bad at e))
    ]
