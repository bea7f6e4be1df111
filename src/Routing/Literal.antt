-- ===== src/Routing/Literal.antt =====
-- `Trie::add` and `Trie::find` of http/routing.h together: a route that was added is found.
use bmcweb.Prelude.{
  ℕ, zero, suc, ◌<◌, ◌≤◌, ◌≡◌, ◌≢◌, refl, sym, ap, subst, inl, inr, true, false, ◌==◌, ==_iff, List,
  [], ◌∷◌, ◌++◌, Bytes, length, starts_with, In, All, arith, Bool-cases,
}
use bmcweb.Prelude.Assoc.{Assoc}
use bmcweb.Routing.{
  Trie, node_at, Parsers, RoutingParams, no_params, Visit, visits, int_visits, uint_visits,
  double_visits, string_visits, path_visits, child_visits, first_visit, find,
}
use bmcweb.Routing.Walks.{HasFragments}
use bmcweb.Routing.Least.{Walk, Matches, find_least}
use bmcweb.Routing.Add.{piece_step, Added, added, already_exists, runs_on, finish, add_from, add}
use bmcweb.Routing.Growth.{Ends, add-HasFragments}
use bmcweb.Routing.Children.{
  IsClosed, node_at-set, node_at-set_self, piece_step_lem, piece_step_kept,
}

-- The route has no parameters.
abbrev pub IsLiteral : Bytes → Type 0
IsLiteral = All (λ c. c ≢ b'<')

Ends-both :
    (P Q R : Trie → Type 0) (a : Added)
    → ((out : Trie) → P out → Q out → R out)
    → Ends P a
    → Ends Q a
    → Ends R a
Ends-both P Q R (added out) f p q = f out p q
Ends-both P Q R already_exists f p q = tt
Ends-both P Q R runs_on f p q = tt

finish_kept :
    (rule_index idx : ℕ) (nodes : Trie) (j : ℕ) (kv : Bytes × ℕ)
    → In kv (node_at nodes j).children
    → Ends (λ out. In kv (node_at out j).children) (finish rule_index idx nodes)
unfolding finish
finish_kept rule_index idx nodes j kv m = elim (Bool-cases ((node_at nodes idx).rule_index == 0)) [
  | inr e ↦ rw e tt
  | inl e ↦
      let last = record (node_at nodes idx) { rule_index = rule_index } in
      rw e (elim (node_at-set nodes idx j last) [
        | inl same ↦ rw same m
        | inr (here, same) ↦ rw same (rw here m)
      ])
]

add_from_kept :
    (fuel : ℕ) (url : Bytes) (rule_index idx : ℕ) (nodes : Trie) (j : ℕ) (kv : Bytes × ℕ)
    → IsLiteral url
    → In kv (node_at nodes j).children
    → Ends (λ out. In kv (node_at out j).children) (add_from fuel url rule_index idx nodes)
unfolding add_from
add_from_kept fuel [] rule_index idx nodes j kv l m = finish_kept rule_index idx nodes j kv m
add_from_kept zero (c ∷ url) rule_index idx nodes j kv l m = tt
add_from_kept (suc fuel) (c ∷ url) rule_index idx nodes j kv (ne, l) m =
    let literal : (c == b'<') ≡ false = ground arith in
    rw literal (add_from_kept fuel url rule_index _ _ j kv l (piece_step_kept c idx nodes j kv m))

In-append : (t : Visit) (vs ws : List Visit) → In t ws → In t (vs ++ ws)
In-append t [] ws m = m
In-append t (v ∷ vs) ws m = inr (In-append t vs ws m)

In-child_visits :
    (nodes : Trie) (children : Assoc ℕ) (v : Visit) (c i : ℕ) (rest : Bytes)
    → v.rest ≡ c ∷ rest
    → In (c ∷ [], i) children
    → In
        (record { node = node_at nodes i; rest = rest; params = v.params })
        (child_visits nodes children v)
unfolding child_visits
In-child_visits nodes [] v c i rest e m = absurd m
In-child_visits nodes ((fragment, j) ∷ children) v c i rest e (inl same) =
    let spelled : fragment ≡ c ∷ [] = sym (ap (λ kv. kv.0) same) in
    let target : j ≡ i = sym (ap (λ kv. kv.1) same) in
    let begins : (c == c) ≡ true = (==_iff c c).1 refl in rw (spelled, target, e, begins) (inl refl)
In-child_visits nodes ((fragment, j) ∷ children) v c i rest e (inr m) =
    let later = In-child_visits nodes children v c i rest e m in
    elim (Bool-cases (starts_with v.rest fragment)) [
      | inl f ↦ rw f (inr later)
      | inr f ↦ rw f later
    ]

In-visits :
    (parsers : Parsers) (nodes : Trie) (v t : Visit)
    → In t (child_visits nodes v.node.children v)
    → In t (visits parsers nodes v)
unfolding visits
In-visits parsers nodes v t m =
    In-append t
      (int_visits parsers nodes v
        ++ uint_visits parsers nodes v
        ++ double_visits parsers nodes v
        ++ string_visits nodes v
        ++ path_visits nodes v)
      (child_visits nodes v.node.children v) m

-- The walk of the literal route ends at the rule.
add_from-Walk :
    (parsers : Parsers) (fuel : ℕ) (url : Bytes) (rule_index idx : ℕ) (nodes : Trie)
    (params : RoutingParams)
    → IsLiteral url
    → IsClosed nodes
    → idx < length nodes
    → Ends
        (λ out.
          Walk parsers out
            (length url)
            (record { node = node_at out idx; rest = url; params = params })
            rule_index
            params)
        (add_from fuel url rule_index idx nodes)
unfolding add_from finish
add_from-Walk parsers fuel [] rule_index idx nodes params l w h =
    elim (Bool-cases ((node_at nodes idx).rule_index == 0)) [
      | inr e ↦ rw e tt
      | inl e ↦ rw e (refl, ap (λ n. n.rule_index) (node_at-set_self nodes idx _ h), refl)
    ]
add_from-Walk parsers zero (c ∷ url) rule_index idx nodes params l w h = tt
add_from-Walk parsers (suc fuel) (c ∷ url) rule_index idx nodes params (ne, l) w h =
    let literal : (c == b'<') ≡ false = ground arith in
    let (inside, range, closed) = piece_step_lem c idx nodes w h in
    let (nodes', child) = piece_step c idx nodes in
    let from : Trie → Visit =
      λ out. record { node = node_at out idx; rest = c ∷ url; params = params } in
    let to : Trie → Visit =
      λ out. record { node = node_at out child; rest = url; params = params } in
    rw literal (
      Ends-both (λ out. Walk parsers out (length url) (to out) rule_index params)
        (λ out. In (c ∷ [], child) (node_at out idx).children)
        (λ out. Walk parsers out (suc (length url)) (from out) rule_index params)
        (add_from fuel url rule_index child nodes')
        (λ out walk kept. (
          refl,
          (
            to out,
            In-visits parsers out (from out) (to out)
                (In-child_visits out (node_at out idx).children (from out) c child url refl kept),
            walk,
          ),
        ))
        (add_from-Walk parsers fuel url rule_index child nodes' params l closed range)
        (add_from_kept fuel url rule_index child nodes' idx (c ∷ [], child) l inside))

-- A route without parameters that `add` took is matched by its own address, with its rule. (The trie
-- has a head, and its children are nodes of it.)
pub add-Matches :
    (parsers : Parsers) (url : Bytes) (rule_index : ℕ) (nodes out : Trie)
    → IsLiteral url
    → IsClosed nodes
    → 0 < length nodes
    → add url rule_index nodes ≡ added out
    → Matches parsers out url rule_index no_params
unfolding add
add-Matches parsers url rule_index nodes out l w h e = (
  length url,
  subst (Ends (λ out. Walk parsers out (length url) (first_visit out url) rule_index no_params)) e
      (add_from-Walk parsers (length url) url rule_index 0 nodes no_params l w h),
)

-- A route without parameters that was added with a rule is found by its own address: `find` gives
-- that rule, or one with a smaller index that matches too. (The trie has a head, its children are
-- nodes of it, and no fragment is empty.)
pub find-add :
    (parsers : Parsers) (url : Bytes) (rule_index : ℕ) (nodes out : Trie)
    → IsLiteral url
    → IsClosed nodes
    → 0 < length nodes
    → All HasFragments nodes
    → rule_index ≢ 0
    → add url rule_index nodes ≡ added out
    → ((find parsers out url).0 ≢ 0) × ((find parsers out url).0 ≤ rule_index)
find-add parsers url rule_index nodes out l w h k ne e =
    find_least parsers out url rule_index no_params (add-HasFragments url rule_index nodes out k e)
      (add-Matches parsers url rule_index nodes out l w h e) ne
