-- ===== src/Router/Missing.antt =====
-- What `Router::handle` of http/routing.h answers where no rule for the method matches.
use bmcweb.Prelude.{
  ℕ, ◌≡◌, ◌≢◌, refl, ◌⊎◌, inl, inr, true, ◌==◌, ==_iff, ltb, some, List, [], ◌∷◌, Bytes, In, All,
  get_elem?, arith, Bool-cases,
}
use bmcweb.Roles.{RoleMap}
use bmcweb.Http.{Request, Response, result, end}
use bmcweb.Routing.{RoutingParams, Parsers, find}
use bmcweb.Routing.Walks.{HasFragments}
use bmcweb.Routing.Least.{Matches, find_sound, find_least}
use bmcweb.Router.{PerMethod, exists_at_any, not_found, dispatch, handle}

-- A rule matches the address, for some method.
abbrev pub HasMatch : Parsers → List PerMethod → Bytes → Type 0
HasMatch parsers per_methods req_url =
    (p : PerMethod) × In p per_methods
    × ((i : ℕ) × (out : RoutingParams) × Matches parsers p.trie req_url i out × (i ≢ 0))

exists_at_any_sound :
    (parsers : Parsers) (per_methods : List PerMethod) (req_url : Bytes)
    → exists_at_any parsers per_methods req_url ≡ true
    → HasMatch parsers per_methods req_url
unfolding exists_at_any
exists_at_any_sound parsers [] req_url h = absurd (cc)
exists_at_any_sound parsers (p ∷ per_methods) req_url h =
    elim (Bool-cases (ltb 0 (find parsers p.trie req_url).0)) [
      | inl e ↦
          let ne : (find parsers p.trie req_url).0 ≢ 0 = λ z. ground arith in
          (p, inl refl, (_, _, find_sound parsers p.trie req_url ne, ne))
      | inr e ↦
          let (q, m, match) = exists_at_any_sound parsers per_methods req_url (rw e at h) in
          (q, inr m, match)
    ]

exists_at_any_complete :
    (parsers : Parsers) (per_methods : List PerMethod) (req_url : Bytes)
    → All (λ p. All HasFragments p.trie) per_methods
    → HasMatch parsers per_methods req_url
    → exists_at_any parsers per_methods req_url ≡ true
unfolding exists_at_any
exists_at_any_complete parsers [] req_url w (p, m, _) = absurd m
exists_at_any_complete parsers (q ∷ per_methods) req_url (k, w) (p, inl e, (i, out, match, ne)) =
    let own : Matches parsers q.trie req_url i out = rw e at match in
    ground (arith, (find_least parsers q.trie req_url i out k own ne).0)
exists_at_any_complete parsers (q ∷ per_methods) req_url (k, w) (p, inr m, rest) =
    ground (arith, exists_at_any_complete parsers per_methods req_url w (p, m, rest))

-- Where no rule for the request's method matches its address, the answer is 405 if a rule for
-- another method does, and 404 if none does. (No fragment of a trie is empty.)
pub handle_unmatched :
    (parsers : Parsers) (roles : RoleMap) (per_methods : List PerMethod) (p : PerMethod)
    (req : Request) (res : Response)
    → All (λ q. All HasFragments q.trie) per_methods
    → get_elem? per_methods req.method ≡ some p
    → ((i : ℕ) (out : RoutingParams) → Matches parsers p.trie req.url i out → i ≡ 0)
    → (HasMatch parsers per_methods req.url
        × (handle parsers roles per_methods req res ≡ some (end (result 405 res))))
      ⊎ ((¬ HasMatch parsers per_methods req.url)
          × (handle parsers roles per_methods req res ≡ some (end (result 404 res))))
unfolding handle dispatch not_found
handle_unmatched parsers roles per_methods p req res w e missing =
    let absent : (find parsers p.trie req.url).0 ≡ 0 =
      elim (Bool-cases ((find parsers p.trie req.url).0 == 0)) [
        | inl z ↦ (==_iff _ _).0 z
        | inr z ↦ missing _ _ (find_sound parsers p.trie req.url (λ o. ground arith))
      ] in
    elim (Bool-cases (exists_at_any parsers per_methods req.url)) [
      | inl f ↦ inl (
        exists_at_any_sound parsers per_methods req.url f,
        rw (e, handle, absent, f, dispatch, not_found) refl,
      )
      | inr f ↦ inr (
        λ match. cc (exists_at_any_complete parsers per_methods req.url w match),
        rw (e, handle, absent, f, dispatch, not_found) refl,
      )
    ]
