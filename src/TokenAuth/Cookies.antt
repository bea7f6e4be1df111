-- ===== src/TokenAuth/Cookies.antt =====
-- The session cookie of include/token_authorization_middleware.hpp: that the middleware finds in it
-- the token that a login gave, and accepts it beside the matching token against cross-site requests.
use bmcweb.Prelude.{
  ℕ, zero, suc, ◌+◌, ◌<◌, ◌≡◌, ◌≢◌, refl, ap, ◌∙◌, ◌⊎◌, inl, inr, true, false, none, some, [], ◌∷◌,
  ◌++◌, Bytes, codes, All, append-nil, find_text, take, length, get_or, is_empty, arith,
}
use bmcweb.Prelude.Assoc.{lookup}
use bmcweb.Sessions.{
  UserSession, SessionStore, PersistenceType, session_token_size, timeout_in_minutes, alphanum,
  random_text, touch, generate_user_session, login_session_by_token,
}
use bmcweb.Sessions.Keys.{IsIndexed}
use bmcweb.Sessions.Login.{login-generate_user_session, length-random_text}
use bmcweb.Http.{Request}
use bmcweb.TokenAuth.{
  Env, Login, IsMemcmp, constant_time_string_compare, session_key, passes_csrf, check_csrf,
  perform_cookie_auth,
}

abbrev pub NoSemicolon : Bytes → Type 0
NoSemicolon = All (λ c. c ≢ b';')

-- What may follow the token: nothing, or further cookies behind a semicolon.
abbrev pub IsCookieTail : Bytes → Type 0
IsCookieTail tail = (tail ≡ []) ⊎ ((more : Bytes) × (tail ≡ b';' ∷ more))

find_text-none : (s : Bytes) → NoSemicolon s → find_text s (codes ";") ≡ none
find_text-none [] h = refl
find_text-none (c ∷ s) (p, h) = ground (arith, find_text-none s h)

find_text-append :
    (s rest : Bytes) → NoSemicolon s → find_text (s ++ b';' ∷ rest) (codes ";") ≡ some (length s)
find_text-append [] rest h = refl
find_text-append (c ∷ s) rest (p, h) = ground (arith, find_text-append s rest h)

take-append : (s rest : Bytes) → take (length s) (s ++ rest) ≡ s
take-append [] rest = refl
take-append (c ∷ s) rest = ap (◌∷◌ c) (take-append s rest)

take-length : (s : Bytes) (n : ℕ) → n ≡ length s → take n s ≡ s
take-length [] zero e = refl
take-length [] (suc n) e = refl
take-length (c ∷ s) zero e = absurd (omega arith)
take-length (c ∷ s) (suc n) e = ap (◌∷◌ c) (take-length s n (omega arith))

session_key_alone :
    (token : Bytes) → NoSemicolon token → session_key (codes "SESSION=" ++ token) ≡ some token
unfolding session_key
session_key_alone token h =
    rw (find_text-none token h) (ap some (take-length token _ (omega arith)))

session_key_first :
    (token more : Bytes)
    → NoSemicolon token
    → session_key (codes "SESSION=" ++ token ++ b';' ∷ more) ≡ some token
unfolding session_key
session_key_first token more h =
    rw (find_text-append token more h) (ap some (take-append token (b';' ∷ more)))

-- The key that a cookie header starts with is found whole, whatever cookies follow it.
pub session_key_lem :
    (token tail : Bytes)
    → NoSemicolon token
    → IsCookieTail tail
    → session_key (codes "SESSION=" ++ token ++ tail) ≡ some token
session_key_lem token tail h (inl e) = rw e (rw append-nil (session_key_alone token h))
session_key_lem token tail h (inr (more, e)) = rw e (session_key_first token more h)

letter-ne-semicolon : (s : Bytes) (i : ℕ) → NoSemicolon s → get_or s i 0 ≢ b';'
letter-ne-semicolon [] i h = λ e. absurd (omega arith)
letter-ne-semicolon (c ∷ s) zero (p, h) = p
letter-ne-semicolon (c ∷ s) (suc i) (p, h) = letter-ne-semicolon s i h

alphanum-NoSemicolon : NoSemicolon alphanum
alphanum-NoSemicolon = omega arith

random_text-NoSemicolon : (n i : ℕ) (draws : ℕ → ℕ) → NoSemicolon (random_text n i draws)
unfolding random_text
random_text-NoSemicolon zero i draws = tt
random_text-NoSemicolon (suc n) i draws = (
  letter-ne-semicolon alphanum (draws i) alphanum-NoSemicolon,
  random_text-NoSemicolon n (i + 1) draws,
)

pub is_empty-sized : (s : Bytes) (n : ℕ) → length s ≡ suc n → is_empty s ≡ false
is_empty-sized [] n e = absurd (omega arith)
is_empty-sized (c ∷ s) n e = refl

-- A session passes the guard against cross-site requests when the request repeats its token.
passes_csrf_lem :
    (env : Env) (req : Request) (s : UserSession)
    → IsMemcmp env.crypto_memcmp
    → length s.csrf_token ≡ session_token_size
    → req.header "X-XSRF-TOKEN" ≡ s.csrf_token
    → passes_csrf env req s ≡ true
unfolding passes_csrf constant_time_string_compare
passes_csrf_lem env req s law sized e =
    rw (e, is_empty-sized s.csrf_token 19 sized)
      (ground (arith, (law.same s.csrf_token s.csrf_token refl).1 refl))

check_csrf_lem :
    (env : Env) (req : Request) (l : Login) (s : UserSession)
    → l.1 ≡ some s
    → passes_csrf env req s ≡ true
    → (check_csrf env req l).1 ≡ some s
check_csrf_lem env req (store, none) s e p = absurd (cc)
check_csrf_lem env req (store, some t) s e p = ground arith

cookie_accepts :
    (env : Env) (req : Request) (store : SessionStore) (token tail : Bytes) (s : UserSession)
    → req.header "Cookie" ≡ codes "SESSION=" ++ token ++ tail
    → NoSemicolon token
    → IsCookieTail tail
    → (login_session_by_token (env.clock 2) (env.clock 3) token store).1 ≡ some s
    → passes_csrf env req s ≡ true
    → (perform_cookie_auth env req store).1 ≡ some s
unfolding perform_cookie_auth
cookie_accepts env req store token tail s cookie h cut e p =
    let key : session_key (req.header "Cookie") ≡ some token =
      ap session_key cookie ∙ session_key_lem token tail h cut in
    let there : is_empty (req.header "Cookie") ≡ false = ap is_empty cookie in
    rw (there, key) (check_csrf_lem env req _ s e p)

-- End to end: within the hour, a session that was generated with unused tokens is accepted from its
-- cookie, whatever cookies follow and for every method, when the request's X-XSRF-TOKEN header
-- repeats the session's token against cross-site requests.
pub cookie-generate_user_session :
    (env : Env) (req : Request) (created : ℕ) (username tail : Bytes)
    (persistence : PersistenceType) (store : SessionStore)
    → IsMemcmp env.crypto_memcmp
    → IsIndexed store
    → lookup (random_text session_token_size 0 env.draws) store.auth_tokens ≡ none
    → env.clock 2 < created + timeout_in_minutes
    → IsCookieTail tail
    → req.header "Cookie"
      ≡ codes "SESSION="
        ++ (generate_user_session username persistence created env.draws store).1.session_token
        ++ tail
    → req.header "X-XSRF-TOKEN"
      ≡ (generate_user_session username persistence created env.draws store).1.csrf_token
    → (perform_cookie_auth env req
        (generate_user_session username persistence created env.draws store).0).1
      ≡ some (
          touch
            (env.clock 3)
            (generate_user_session username persistence created env.draws store).1)
unfolding generate_user_session
cookie-generate_user_session env req created username tail persistence store law v fresh h cut
      cookie csrf =
    cookie_accepts env req made.0 made.1.session_token tail (touch (env.clock 3) made.1) cookie
      (rw fresh (random_text-NoSemicolon 20 0 env.draws)) cut
      (login-generate_user_session created (env.clock 2) (env.clock 3) username persistence
        env.draws store v fresh h)
      (passes_csrf_lem env req (touch (env.clock 3) made.1) law
        (rw fresh (length-random_text 20 20 env.draws)) csrf)
  where
    made : SessionStore × UserSession
    made = generate_user_session username persistence created env.draws store
