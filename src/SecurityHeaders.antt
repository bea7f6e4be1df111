-- ===== src/SecurityHeaders.antt =====
-- include/security_headers_middleware.hpp, as it is built without
-- BMCWEB_INSECURE_DISABLE_XSS_PREVENTION. Beast's fields are written by their names.
use bmcweb.Prelude.{
  ◌≡◌, refl, subst, ◌∙◌, false, some, List, [], ◌∷◌, Bytes, codes, bytes_eq, bytes_eq_iff, arith,
}
use bmcweb.Prelude.Assoc.{lookup}
use bmcweb.Http.{Response, add_header}
use bmcweb.Http.Responses.{add_header_lem, add_header_ne}

-- The headers in the order in which `afterHandle` sets them.
abbrev pub policy : List (Bytes × Bytes)
policy =
    (codes "Strict-Transport-Security", codes "max-age=31536000; includeSubdomains; preload")
    ∷ (codes "X-Frame-Options", codes "DENY")
    ∷ (codes "Pragma", codes "no-cache")
    ∷ (codes "Cache-Control", codes "no-Store,no-Cache")
    ∷ (codes "X-XSS-Protection", codes "1; mode=block")
    ∷ (codes "X-Content-Type-Options", codes "nosniff")
    ∷ (
      codes "Content-Security-Policy",
      codes
          "default-src 'none'; img-src 'self' data:; font-src 'self'; style-src 'self'; script-src 'self'; connect-src 'self' wss:",
    )
    ∷ []

abbrev pub add_headers : List (Bytes × Bytes) → Response → Response
add_headers [] res = res
add_headers ((key, value) ∷ headers) res = add_headers headers (add_header key value res)

unfoldable pub secure : Response → Response
secure res = add_headers policy res

bytes_eq_flip : (a b : Bytes) → bytes_eq a b ≡ false → bytes_eq b a ≡ false
bytes_eq_flip a b e = ground (arith, bytes_eq_iff a b, bytes_eq_iff b a)

-- The response has each of the headers, with its value.
abbrev pub Has : List (Bytes × Bytes) → Response → Type 0
Has [] res = Unit
Has ((key, value) ∷ headers) res = (lookup key res.headers ≡ some value) × Has headers res

-- `key` is none of the headers' names.
abbrev pub Avoids : Bytes → List (Bytes × Bytes) → Type 0
Avoids key [] = Unit
Avoids key ((other, value) ∷ headers) = (bytes_eq key other ≡ false) × Avoids key headers

abbrev pub HasDistinctNames : List (Bytes × Bytes) → Type 0
HasDistinctNames [] = Unit
HasDistinctNames ((key, value) ∷ headers) = Avoids key headers × HasDistinctNames headers

add_header-Has :
    (headers : List (Bytes × Bytes)) (key value : Bytes) (res : Response)
    → Avoids key headers
    → Has headers res
    → Has headers (add_header key value res)
add_header-Has [] key value res a h = tt
add_header-Has ((other, v) ∷ headers) key value res (ne, a) (same, h) =
    (add_header_ne key other value res ne ∙ same, add_header-Has headers key value res a h)

add_headers_kept :
    (headers : List (Bytes × Bytes)) (key value : Bytes) (res : Response)
    → Avoids key headers
    → lookup key res.headers ≡ some value
    → lookup key (add_headers headers res).headers ≡ some value
add_headers_kept [] key value res a e = e
add_headers_kept ((other, v) ∷ headers) key value res (ne, a) e =
    add_headers_kept headers key value (add_header other v res) a
      (add_header_ne other key v res (bytes_eq_flip key other ne) ∙ e)

add_headers_ne :
    (headers : List (Bytes × Bytes)) (key : Bytes) (res : Response)
    → Avoids key headers
    → lookup key (add_headers headers res).headers ≡ lookup key res.headers
add_headers_ne [] key res a = refl
add_headers_ne ((other, v) ∷ headers) key res (ne, a) =
    add_headers_ne headers key (add_header other v res) a
    ∙ add_header_ne other key v res (bytes_eq_flip key other ne)

add_headers-Has :
    (headers : List (Bytes × Bytes)) (res : Response)
    → HasDistinctNames headers
    → Has headers (add_headers headers res)
add_headers-Has [] res d = tt
add_headers-Has ((key, value) ∷ headers) res (a, d) = (
  add_headers_kept headers key value (add_header key value res) a (add_header_lem key value res).0,
  add_headers-Has headers (add_header key value res) d,
)

-- What a browser needs to be told: transport by TLS alone, no frame of another page, nothing cached, no
-- script that came with the address, no guess at a type, and content from the server alone.
pub record IsSecure (res : Response) : Type 0 where
  pub frame_options : lookup (codes "X-Frame-Options") res.headers ≡ some (codes "DENY")
  pub cache_control : lookup (codes "Cache-Control") res.headers ≡ some (codes "no-Store,no-Cache")
  pub pragma : lookup (codes "Pragma") res.headers ≡ some (codes "no-cache")
  pub strict_transport_security :
      lookup (codes "Strict-Transport-Security") res.headers
      ≡ some (codes "max-age=31536000; includeSubdomains; preload")
  pub xss_protection : lookup (codes "X-XSS-Protection") res.headers ≡ some (codes "1; mode=block")
  pub content_type_options :
      lookup (codes "X-Content-Type-Options") res.headers ≡ some (codes "nosniff")
  pub content_security_policy :
      lookup (codes "Content-Security-Policy") res.headers
      ≡ some (
          codes
            "default-src 'none'; img-src 'self' data:; font-src 'self'; style-src 'self'; script-src 'self'; connect-src 'self' wss:")

-- The headers that `afterHandle` sets are enough.
policy-IsSecure : (res : Response) → Has policy res → IsSecure res
policy-IsSecure res (tls, (frame, (pragma, (cache, (xss, (kind, (content, _))))))) = record {
  frame_options = frame;
  cache_control = cache;
  pragma = pragma;
  strict_transport_security = tls;
  xss_protection = xss;
  content_type_options = kind;
  content_security_policy = content;
}

-- They are needed, too.
secure-Has : (res : Response) → IsSecure res → Has policy res
secure-Has res h = (
  h.strict_transport_security,
  (
    h.frame_options,
    (
      h.pragma,
      (
        h.cache_control,
        (h.xss_protection, (h.content_type_options, (h.content_security_policy, tt))),
      ),
    ),
  ),
)

pub secure-IsSecure : (res : Response) → IsSecure (secure res)
unfolding secure
secure-IsSecure res = policy-IsSecure (secure res) (
    add_headers-Has policy res (
      (refl, (refl, (refl, (refl, (refl, (refl, tt)))))),
      (
        (refl, (refl, (refl, (refl, (refl, tt))))),
        (
          (refl, (refl, (refl, (refl, tt)))),
          ((refl, (refl, (refl, tt))), ((refl, (refl, tt)), ((refl, tt), (tt, tt)))),
        ),
      ),
    ))

pub add_header-IsSecure :
    (key value : Bytes) (res : Response)
    → Avoids key policy
    → IsSecure res
    → IsSecure (add_header key value res)
add_header-IsSecure key value res a h =
    policy-IsSecure (add_header key value res)
      (add_header-Has policy key value res a (secure-Has res h))

pub same_headers-IsSecure :
    (res other : Response) → res.headers ≡ other.headers → IsSecure res → IsSecure other
same_headers-IsSecure res other e h =
    policy-IsSecure other
      (subst (λ headers. Has policy (record res { headers = headers })) e (secure-Has res h))

add_headers_lem :
    (headers : List (Bytes × Bytes)) (res : Response)
    → ((add_headers headers res).status ≡ res.status)
      × ((add_headers headers res).completed ≡ res.completed)
add_headers_lem [] res = (refl, refl)
add_headers_lem ((key, value) ∷ headers) res =
    let (status, completed) = add_headers_lem headers (add_header key value res) in
    let (_, same_status, same_completed, _) = add_header_lem key value res in
    (status ∙ same_status, completed ∙ same_completed)

pub secure_lem :
    (res : Response) → ((secure res).status ≡ res.status) × ((secure res).completed ≡ res.completed)
unfolding secure
secure_lem res = add_headers_lem policy res

-- The security headers leave every other header.
pub secure_ne :
    (key : Bytes) (res : Response)
    → Avoids key policy
    → lookup key (secure res).headers ≡ lookup key res.headers
unfolding secure
secure_ne key res a = add_headers_ne policy key res a
