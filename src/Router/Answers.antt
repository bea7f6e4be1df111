-- ===== src/Router/Answers.antt =====
-- What `Router::handle` of http/routing.h answers, and when a rule's handler runs.
use bmcweb.Prelude.{
  ℕ, ◌≡◌, ◌≢◌, refl, sym, subst, ◌∙◌, ◌⊎◌, inl, inr, true, ◌==◌, leb, Option, none, some, List,
  length, get_elem?, is_empty, codes, arith, Bool-cases,
}
use bmcweb.Privileges.{check_privileges}
use bmcweb.Privileges.Access.{Grants, check_privileges_sound}
use bmcweb.Roles.{RoleMap}
use bmcweb.Http.{Request, Response}
use bmcweb.Http.Responses.{IsCounted, end-result, end-add_header-result}
use bmcweb.Routing.{RoutingParams, Parsers, find}
use bmcweb.Routing.Least.{Matches, find_sound}
use bmcweb.Router.{
  Rule, PerMethod, rule_special_redirect_slash, has_method, exists_at_any, not_found,
  redirect_slash, user_privileges, run_rule, guarded, dispatch, handle,
}

-- The response is completed, exactly once, with one of the router's own answers.
abbrev pub IsAnswered : Response → Type 0
IsAnswered out =
    (out.completed ≡ true)
    × IsCounted out
    × ((out.status ≡ 301) ⊎ (out.status ≡ 403) ⊎ (out.status ≡ 404) ⊎ (out.status ≡ 405))

-- A rule for the request's method matches its address and lets its user pass, and its handler ran.
abbrev pub IsServed : Parsers → RoleMap → PerMethod → Request → Response → Response → Type 0
IsServed parsers roles p req res out =
    (i : ℕ) × (params : RoutingParams) × (rule : Rule) × Matches parsers p.trie req.url i params
    × (get_elem? p.rules i ≡ some (some rule))
    × (has_method rule.methods_bitfield req.method ≡ true)
    × Grants rule.privileges_set (user_privileges roles req)
    × (out ≡ run_rule rule req res params)

not_found-IsAnswered :
    (parsers : Parsers) (per_methods : List PerMethod) (req : Request) (res : Response)
    → IsCounted res
    → IsAnswered (not_found parsers per_methods req res)
unfolding not_found
not_found-IsAnswered parsers per_methods req res c =
    elim (Bool-cases (exists_at_any parsers per_methods req.url)) [
      | inl e ↦
          let (done, counted, status) = end-result 405 res c in
          rw e (done, counted, inr (inr (inr status)))
      | inr e ↦
          let (done, counted, status) = end-result 404 res c in
          rw e (done, counted, inr (inr (inl status)))
    ]

redirect_slash-IsAnswered :
    (req : Request) (res : Response) → IsCounted res → IsAnswered (redirect_slash req res)
unfolding redirect_slash
redirect_slash-IsAnswered req res c = elim (Bool-cases (is_empty (req.header "Host"))) [
  | inl e ↦
      let (done, counted, status, _) = end-add_header-result (codes "Location") _ 301 res c in
      rw e (done, counted, inl status)
  | inr e ↦
      let (done, counted, status, _) = end-add_header-result (codes "Location") _ 301 res c in
      rw e (done, counted, inl status)
]

guarded_lem :
    (roles : RoleMap) (rule : Rule) (req : Request) (res : Response) (params : RoutingParams)
    → IsCounted res
    → IsAnswered (guarded roles rule req res params)
      ⊎ ((has_method rule.methods_bitfield req.method ≡ true)
          × Grants rule.privileges_set (user_privileges roles req)
          × (guarded roles rule req res params ≡ run_rule rule req res params))
unfolding guarded
guarded_lem roles rule req res params c =
    elim (Bool-cases (has_method rule.methods_bitfield req.method)) [
      | inr e ↦
          let (done, counted, status) = end-result 405 res c in
          inl (rw e (done, counted, inr (inr (inr status))))
      | inl e ↦
          elim (Bool-cases (check_privileges rule.privileges_set (user_privileges roles req))) [
            | inr f ↦
                let (done, counted, status) = end-result 403 res c in
                inl (rw (e, f) (done, counted, inr (inl status)))
            | inl f ↦ inr (
              e,
              check_privileges_sound rule.privileges_set (user_privileges roles req) f,
              rw (e, f) refl,
            )
          ]
    ]

some-injective : (a b : Response) → some a ≡ some b → a ≡ b
some-injective a b e = cc

dispatch_lem :
    (parsers : Parsers) (roles : RoleMap) (per_methods : List PerMethod) (p : PerMethod) (i : ℕ)
    (params : RoutingParams) (req : Request) (res out : Response)
    → IsCounted res
    → (i ≢ 0 → Matches parsers p.trie req.url i params)
    → dispatch parsers roles per_methods p i params req res ≡ some out
    → IsAnswered out ⊎ IsServed parsers roles p req res out
unfolding dispatch
dispatch_lem parsers roles per_methods p i params req res out c matched q =
    elim (Bool-cases (i == 0)) [
      | inl e ↦
          let same : not_found parsers per_methods req res ≡ out = some-injective _ _ (rw e at q) in
          inl (subst IsAnswered same (not_found-IsAnswered parsers per_methods req res c))
      | inr e ↦ elim (Bool-cases (leb (length p.rules) i)) [
        | inl f ↦ absurd (cc (rw (e, f) at q))
        | inr f ↦ elim (Bool-cases (i == rule_special_redirect_slash)) [
          | inl g ↦
              let same : redirect_slash req res ≡ out = some-injective _ _ (rw (e, f, g) at q) in
              inl (subst IsAnswered same (redirect_slash-IsAnswered req res c))
          | inr g ↦ found_lem (λ z. ground arith) (get_elem? p.rules i) refl (rw (e, f, g) at q)
        ]
      ]
    ]
  where
    found_lem :
        i ≢ 0
        → (slot : Option (Option Rule)) → get_elem? p.rules i ≡ slot
        → elim slot [
          | none ↦ none
          | some none ↦ none
          | some (some rule) ↦ some (guarded roles rule req res params)
        ]
          ≡ some out
        → IsAnswered out ⊎ IsServed parsers roles p req res out
    found_lem ne none e h = absurd (cc)
    found_lem ne (some none) e h = absurd (cc)
    found_lem ne (some (some rule)) e h = elim (guarded_lem roles rule req res params c) [
      | inl answered ↦ inl (subst IsAnswered (some-injective _ _ h) answered)
      | inr (allowed, granted, ran) ↦
          inr (i, params, rule, matched ne, e, allowed, granted, sym (some-injective _ _ h) ∙ ran)
    ]

-- What comes of a request for one of the router's methods: either one of the router's own answers,
-- sent once; or a handler has run, and then its rule matches the address, is for the request's
-- method, and grants the privileges of the session's user access.
pub handle_outcome :
    (parsers : Parsers) (roles : RoleMap) (per_methods : List PerMethod) (p : PerMethod)
    (req : Request) (res out : Response)
    → IsCounted res
    → get_elem? per_methods req.method ≡ some p
    → handle parsers roles per_methods req res ≡ some out
    → IsAnswered out ⊎ IsServed parsers roles p req res out
unfolding handle
handle_outcome parsers roles per_methods p req res out c e q =
    dispatch_lem parsers roles per_methods p (find parsers p.trie req.url).0
      (find parsers p.trie req.url).1 req res out c (find_sound parsers p.trie req.url)
      (rw (e, handle) at q)
