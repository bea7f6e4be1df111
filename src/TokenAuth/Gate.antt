-- ===== src/TokenAuth/Gate.antt =====
-- `beforeHandle` and `afterHandle` of include/token_authorization_middleware.hpp as a whole: which
-- requests reach a handler, and what a request that brings its password leaves behind.
use bmcweb.Prelude.{
  ◌≡◌, refl, sym, ◌∙◌, ◌⊎◌, inl, inr, true, false, ◌&&◌, ◌||◌, none, some, List, ◌++◌, Bytes, codes,
  bytes_eq, bytes_eq_iff, drop, find_text, substr, is_empty, any, any-elim, In, if◌then◌else◌, ◌==◌,
  ==_iff, arith, Option-cases, Bool-cases, and_split, subst,
}
use bmcweb.Prelude.Assoc.{lookup, erase-emplace}
use bmcweb.Base64.{base64_decode}
use bmcweb.Sessions.{
  UserSession, SessionStore, single_request, session_token_size, random_text, generate_user_session,
  remove_session,
}
use bmcweb.Sessions.Keys.{IsIndexed}
use bmcweb.Http.{prefers_html, url_encode, Request, Response, verb_get, verb_post}
use bmcweb.TokenAuth.{
  Env, IsMemcmp, check_password, perform_basic_auth, is_on_whitelist, open_pages, open_forms,
  authenticate, refuse, before_handle, after_handle,
}
use bmcweb.TokenAuth.Evidence.{Evidence, authenticate_sound}
use bmcweb.TokenAuth.Attempts.{basic_sound}
use bmcweb.Http.Responses.{
  IsCounted, end_lem, end-result, end-add_header-result, end-result_header,
  end-add_header-result_ne,
}

-- Anyone may get an open page or a web asset, and post an open form.
abbrev pub IsOpen : Env → Request → Type 0
IsOpen env req =
    ((req.method ≡ verb_get) × (In req.url open_pages ⊎ In req.url env.routes))
    ⊎ ((req.method ≡ verb_post) × In req.url open_forms)

listed : (url : Bytes) (pages : List Bytes) → any (bytes_eq url) pages ≡ true → In url pages
listed url pages h =
    let (page, inside, same) = any-elim (bytes_eq url) pages h in
    subst (λ x. In x pages) (sym ((bytes_eq_iff url page).0 same)) inside

is_on_whitelist_sound :
    (env : Env) (req : Request) → is_on_whitelist env req ≡ true → IsOpen env req
unfolding is_on_whitelist
is_on_whitelist_sound env req h =
    elim (Bool-cases (
      req.method == verb_get
      && (any (bytes_eq req.url) open_pages || any (bytes_eq req.url) env.routes))) [
        | inl e ↦
            let (get, page) = and_split _ _ e in
            inl (
              (==_iff _ _).0 get,
              elim (Bool-cases (any (bytes_eq req.url) open_pages)) [
                | inl f ↦ inl (listed req.url open_pages f)
                | inr f ↦ inr (listed req.url env.routes (rw f at page))
              ],
            )
        | inr e ↦ elim (Bool-cases (req.method == verb_post && any (bytes_eq req.url) open_forms)) [
          | inl f ↦
              let (post, form) = and_split _ _ f in
              inr ((==_iff _ _).0 post, listed req.url open_forms form)
          | inr f ↦ absurd (cc (rw (e, f) at h))
        ]
      ]

-- How a request is turned away: a browser with a redirection to the login page (its own address in
-- the query, encoded), anything else with 401, and with `WWW-Authenticate` exactly where it does not
-- say what it is. No other of the two headers is set.
abbrev pub IsTurnedAway : Env → Request → Response → Response → Type 0
IsTurnedAway env req was res =
    if prefers_html (env.split (req.header "accept"))
    then (res.status ≡ 307)
      × (lookup (codes "Location") res.headers
          ≡ some (codes "/#/login?next=" ++ url_encode req.url))
      × (lookup (codes "WWW-Authenticate") res.headers
          ≡ lookup (codes "WWW-Authenticate") was.headers)
    else (res.status ≡ 401)
      × (lookup (codes "Location") res.headers ≡ lookup (codes "Location") was.headers)
      × (lookup (codes "WWW-Authenticate") res.headers ≡ (
          if is_empty (req.header "User-Agent")
          then some (codes "Basic")
          else lookup (codes "WWW-Authenticate") was.headers))

-- A refused response is completed once, too.
abbrev pub IsRefusal : Env → Request → Response → Response → Type 0
IsRefusal env req was res = (res.completed ≡ true) × IsCounted res × IsTurnedAway env req was res

-- It shows in the status and those two headers.
pub same-IsTurnedAway :
    (env : Env) (req : Request) (was res other : Response)
    → other.status ≡ res.status
    → lookup (codes "Location") other.headers ≡ lookup (codes "Location") res.headers
    → lookup (codes "WWW-Authenticate") other.headers
      ≡ lookup (codes "WWW-Authenticate") res.headers
    → IsTurnedAway env req was res
    → IsTurnedAway env req was other
same-IsTurnedAway env req was res other e f g h =
    elim (Bool-cases (prefers_html (env.split (req.header "accept")))) [
      | inl b ↦
          let (status, location, asks) = rw b at h in rw b (e ∙ status, f ∙ location, g ∙ asks)
      | inr b ↦
          let (status, location, asks) = rw b at h in rw b (e ∙ status, f ∙ location, g ∙ asks)
    ]

refuse-IsRefusal :
    (env : Env) (req : Request) (res : Response)
    → IsCounted res
    → IsRefusal env req res (refuse env req res)
unfolding refuse
refuse-IsRefusal env req res c =
    elim (Bool-cases (prefers_html (env.split (req.header "accept")))) [
      | inl e ↦
          let (done, counted, status, location) =
            end-add_header-result (codes "Location") (codes "/#/login?next=" ++ url_encode req.url)
              307 res c in
          rw e (
            done,
            counted,
            (
              status,
              location,
              end-add_header-result_ne (codes "Location") (codes "WWW-Authenticate") _ 307 res refl,
            ),
          )
      | inr e ↦ elim (Bool-cases (is_empty (req.header "User-Agent"))) [
        | inl f ↦
            let (done, counted, status, asks) =
              end-add_header-result (codes "WWW-Authenticate") (codes "Basic") 401 res c in
            rw (e, f)
              (
                done,
                counted,
                (
                  status,
                  end-add_header-result_ne (codes "WWW-Authenticate") (codes "Location") _ 401 res
                      refl,
                  asks,
                ),
              )
        | inr f ↦
            let (done, counted, status) = end-result 401 res c in
            rw (e, f)
              (
                done,
                counted,
                (
                  status,
                  end-result_header (codes "Location") 401 res,
                  end-result_header (codes "WWW-Authenticate") 401 res,
                ),
              )
      ]
    ]

refuse_completed :
    (env : Env) (req : Request) (res : Response) → (refuse env req res).completed ≡ true
unfolding refuse
refuse_completed env req res = grind (arith, end_lem)

-- A request reaches a handler, its response still open, only if it is for an open page, asset or
-- form, or if its session rests on evidence. (The request brings no session of its own, the store
-- is indexed by its tokens, the token that would be drawn is not in use, and CRYPTO_memcmp compares.)
pub before_handle_sound :
    (env : Env) (req : Request) (res : Response) (store : SessionStore)
    → IsMemcmp env.crypto_memcmp
    → IsIndexed store
    → req.session ≡ none
    → lookup (random_text session_token_size 0 env.draws) store.auth_tokens ≡ none
    → (before_handle env req res store).1.completed ≡ false
    → IsOpen env req
      ⊎ ((s : UserSession) × ((before_handle env req res store).0.session ≡ some s)
          × Evidence env req store s)
unfolding before_handle
before_handle_sound env req res store law v nobody fresh open_still =
    elim (Bool-cases (is_on_whitelist env req)) [
      | inl e ↦ inl (is_on_whitelist_sound env req e)
      | inr e ↦ elim (Option-cases (authenticate env req store).1) [
        | inl f ↦ absurd (cc (sym (refuse_completed env req res) ∙ rw (e, f) at open_still))
        | inr (s, f) ↦ inr (s, rw e f, authenticate_sound env req store s law v nobody fresh f)
      ]
    ]

-- Where the address is not on the whitelist and no way in gives a session, the request is refused.
pub before_handle_refuses :
    (env : Env) (req : Request) (res : Response) (store : SessionStore)
    → IsCounted res
    → is_on_whitelist env req ≡ false
    → (authenticate env req store).1 ≡ none
    → IsRefusal env req res (before_handle env req res store).1
unfolding before_handle
before_handle_refuses env req res store c e f = rw (e, f) (refuse-IsRefusal env req res c)

check_password_store :
    (env : Env) (text : Bytes) (store : SessionStore) (s : UserSession)
    → (check_password env text store).1 ≡ some s
    → (user : Bytes) × ((check_password env text store).0
        ≡ (generate_user_session user single_request (env.clock 6) env.draws store).0)
unfolding check_password
check_password_store env text store s e = elim (Option-cases (find_text text (codes ":"))) [
  | inl g ↦ absurd (cc (rw (g, check_password) at e))
  | inr (i, g) ↦ (substr text 0 i, ground arith)
]

basic_store :
    (env : Env) (auth_header : Bytes) (store : SessionStore) (s : UserSession)
    → (perform_basic_auth env auth_header store).1 ≡ some s
    → (user : Bytes) × ((perform_basic_auth env auth_header store).0
        ≡ (generate_user_session user single_request (env.clock 6) env.draws store).0)
unfolding perform_basic_auth
basic_store env auth_header store s e = elim (Bool-cases (base64_decode (drop 6 auth_header)).0) [
  | inl good ↦
      let (user, same) =
        check_password_store env (base64_decode (drop 6 auth_header)).1 store s (rw good at e) in
      (user, rw good same)
  | inr bad ↦ absurd (cc (rw bad at e))
]

-- A session that a password opened lasts for its request: after `afterHandle` the store holds the
-- sessions that it held before, and no other. (The drawn token was not in use.)
pub after_handle-perform_basic_auth :
    (env : Env) (req : Request) (store : SessionStore) (s : UserSession)
    → lookup (random_text session_token_size 0 env.draws) store.auth_tokens ≡ none
    → (perform_basic_auth env (req.header "Authorization") store).1 ≡ some s
    → (after_handle
        (record req { session = some s })
        (perform_basic_auth env (req.header "Authorization") store).0).auth_tokens
      ≡ store.auth_tokens
unfolding after_handle remove_session generate_user_session
after_handle-perform_basic_auth env req store s fresh e =
    let (user, same) = basic_store env (req.header "Authorization") store s e in
    let (_, _, _, _, made) = basic_sound env (req.header "Authorization") store s fresh e in
    rw (same, made)
      (erase-emplace (random_text session_token_size 0 env.draws) _ store.auth_tokens fresh)
