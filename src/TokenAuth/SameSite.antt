-- ===== src/TokenAuth/SameSite.antt =====
-- The guard against cross-site requests, in `performCookieAuth` of
-- include/token_authorization_middleware.hpp.
use bmcweb.Prelude.{
  ==_iff, length, ◌==◌, ◌⊎◌, ◌≡◌, inl, inr, true, none, some, Bytes, arith, Bool-cases,
}
use bmcweb.Sessions.{UserSession, session_token_size}
use bmcweb.Http.{Request, verb_get}
use bmcweb.TokenAuth.{Env, IsMemcmp, Login, constant_time_string_compare, passes_csrf, check_csrf}

pub check_csrf_sound :
    (env : Env) (req : Request) (l : Login) (s : UserSession)
    → (check_csrf env req l).1 ≡ some s
    → (l.1 ≡ some s) × (passes_csrf env req s ≡ true)
check_csrf_sound env req (store, none) s e = absurd (cc)
check_csrf_sound env req (store, some t) s e = ground arith

-- The request is a GET, or repeats the session's token against cross-site requests, 20 bytes.
abbrev pub IsSameSite : Request → UserSession → Type 0
IsSameSite req s =
    (req.method ≡ verb_get)
    ⊎ ((length s.csrf_token ≡ session_token_size) × (req.header "X-XSRF-TOKEN" ≡ s.csrf_token))

compare_sound :
    (env : Env) (a b : Bytes)
    → IsMemcmp env.crypto_memcmp
    → constant_time_string_compare env a b ≡ true
    → a ≡ b
unfolding constant_time_string_compare
compare_sound env a b law h =
    let sized : length a ≡ length b = ground arith in
    (law.same a b sized).0 (ground (arith, (==_iff (env.crypto_memcmp a b (length a)) 0).0))

pub passes_csrf_sound :
    (env : Env) (req : Request) (s : UserSession)
    → IsMemcmp env.crypto_memcmp
    → passes_csrf env req s ≡ true
    → IsSameSite req s
unfolding passes_csrf
passes_csrf_sound env req s law h = elim (Bool-cases (req.method == verb_get)) [
  | inl g ↦ inl ((==_iff _ _).0 g)
  | inr g ↦
      let compared : constant_time_string_compare env (req.header "X-XSRF-TOKEN") s.csrf_token
          ≡ true =
        ground arith in
      let same = compare_sound env (req.header "X-XSRF-TOKEN") s.csrf_token law compared in
      let sized : length (req.header "X-XSRF-TOKEN") ≡ 20 = ground arith in
      inr (rw same at sized, same)
]
