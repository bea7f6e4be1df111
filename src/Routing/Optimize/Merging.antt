-- ===== src/Routing/Optimize/Merging.antt =====
-- A node that takes over its children's children, in `optimizeNode` of http/routing.h: the routes
-- through the trie before and after.
use bmcweb.Prelude.{
  ℕ, zero, suc, ◌<◌, ◌≡◌, ◌≢◌, sym, subst, ap, ◌∙◌, inl, inr, true, false, ◌++◌, Bytes, length,
  drop, set, starts_with, is_empty, In, All, All-In, arith, and_split, ==_iff,
}
use bmcweb.Prelude.Assoc.{Assoc}
use bmcweb.Routing.{RoutingParams, Node, Trie, node_at, Parsers}
use bmcweb.Routing.Walks.{HasFragments, node_at-HasFragments}
use bmcweb.Routing.Children.{node_at-set}
use bmcweb.Routing.Edges.{
  Target, param_targets, child_targets, targets, In-++, In-++_left, In-++_right, Route,
  child_targets-intro, child_targets-elim,
}
use bmcweb.Routing.Optimize.{is_simple_node}
use bmcweb.Routing.Optimize.Texts.{
  starts_with-append, starts_with-split, drop-append, not_empty, simple_targets,
}

-- The children `merged` are those of the children `children`.
pub record IsMerged (nodes : Trie) (children merged : Assoc ℕ) : Type 0 where
  pub take_over :
      (f g : Bytes) (c d : ℕ)
      → In (f, c) children
      → In (g, d) (node_at nodes c).children
      → In (f ++ g, d) merged
  pub origin :
      (k : Bytes) (d : ℕ)
      → In (k, d) merged
      → (f : Bytes) × (c : ℕ) × (g : Bytes) × In (f, c) children
        × In (g, d) (node_at nodes c).children
        × (k ≡ f ++ g)

module _ (parsers : Parsers) (nodes : Trie) (idx : ℕ) (merged : Assoc ℕ)
    (fragments : All HasFragments nodes)
    (simple : (f : Bytes) (c : ℕ)
      → In (f, c) (node_at nodes idx).children
      → is_simple_node (node_at nodes c) ≡ true)
    (merge : IsMerged nodes (node_at nodes idx).children merged) where
  abbrev new_node : Node
  new_node = record (node_at nodes idx) { children = merged }

  abbrev after : Trie
  after = set nodes idx new_node

  same_index : (x : ℕ) → (node_at after x).rule_index ≡ (node_at nodes x).rule_index
  same_index x = elim (node_at-set nodes idx x new_node) [
    | inl same ↦ ap (λ (n : Node). n.rule_index) same
    | inr (here, new) ↦
        ap (λ (n : Node). n.rule_index) new ∙ ap (λ y. (node_at nodes y).rule_index) here
  ]

  abbrev Goes : Trie → Trie → ℕ → Type 0
  Goes from to b =
      (m : ℕ)
      → m < b
      → (t : Target) (i : ℕ) (out : RoutingParams) → i ≢ 0
      → Route parsers from m t i out
      → (n : ℕ) × Route parsers to n t i out

  -- The call for a parameter at the node that was merged.
  at_params :
      (x : ℕ) (r : Bytes) (p : RoutingParams) (t : Target)
      → idx ≡ x
      → node_at after x ≡ new_node
      → In t (param_targets parsers (node_at nodes x) r p)
      → In t (targets parsers (node_at after x) r p)
  at_params x r p t here new m =
      subst (λ node. In t (targets parsers node r p)) (sym new)
        (In-++_left t (param_targets parsers new_node r p) (child_targets merged r p)
          (subst (λ y. In t (param_targets parsers (node_at nodes y) r p)) (sym here) m))

  -- Two calls for fragments, through a child, are one.
  through :
      (b m : ℕ) (x : ℕ) (r : Bytes) (p : RoutingParams) (f : Bytes) (c : ℕ) (i : ℕ)
      (out : RoutingParams)
      → Goes nodes after b
      → m < b
      → i ≢ 0
      → In (f, c) (node_at nodes idx).children
      → starts_with r f ≡ true
      → node_at after x ≡ new_node
      → Route parsers nodes m (c, drop (length f) r, p) i out
      → (t : Target) × (n : ℕ) × In t (targets parsers (node_at after x) r p)
        × Route parsers after n t i out
  through b zero x r p f c i out go lt h ch s new (_, index, _) =
      absurd (h (sym index ∙ (==_iff _ 0).0 (and_split _ _ (simple f c ch)).0))
  through b (suc m) x r p f c i out go lt h ch s new (e, (t, inside, route)) =
      let calls =
        In-++ t (param_targets parsers (node_at nodes c) (drop (length f) r) p)
          (child_targets (node_at nodes c).children (drop (length f) r) p) inside in
      elim calls [
        | inl k ↦ absurd (
            subst (In t)
              (simple_targets parsers (node_at nodes c) (drop (length f) r) p (simple f c ch)) k)
        | inr k ↦
            let (g, deep, s', same) =
              child_targets-elim (node_at nodes c).children (drop (length f) r) p t k in
            let u : Target = (t.0, drop (length (f ++ g)) r, p) in
            let t_u : t ≡ u = same ∙ ap (λ (q : Bytes). (t.0, q, p)) (drop-append r f g) in
            let (n, rest) =
              go m (omega arith) u i out h (subst (λ v. Route parsers nodes m v i out) t_u route) in
            (
              u,
              n,
              subst (λ node. In u (targets parsers node r p)) (sym new)
                  (In-++_right u (param_targets parsers new_node r p) (child_targets merged r p) (
                    child_targets-intro merged (f ++ g) t.0 r p (merge.take_over f g c t.0 ch deep)
                      (starts_with-append r f g s s'))),
              rest,
            )
      ]

  pub forward : (b : ℕ) → Goes nodes after b
  forward zero m lt t i out h route = absurd (omega arith)
  forward (suc b) zero lt (x, r, p) i out h (e, index, last) = (0, (e, same_index x ∙ index, last))
  forward (suc b) (suc m) lt (x, r, p) i out h (e, (t, inside, route)) =
      elim (node_at-set nodes idx x new_node) [
        | inl same ↦
            let (n, rest) = forward b m (omega arith) t i out h route in
            (
              suc n,
              (e, (t, subst (λ node. In t (targets parsers node r p)) (sym same) inside, rest)),
            )
        | inr (here, new) ↦
            elim (In-++ t (param_targets parsers (node_at nodes x) r p)
              (child_targets (node_at nodes x).children r p) inside) [
                | inl k ↦
                    let (n, rest) = forward b m (omega arith) t i out h route in
                    (suc n, (e, (t, at_params x r p t here new k, rest)))
                | inr k ↦
                    let (f, ch, s, same) = child_targets-elim (node_at nodes x).children r p t k in
                    let (u, n, inside', rest) =
                      through b m x r p f t.0 i out (forward b) (omega arith) h
                        (subst (λ y. In (f, t.0) (node_at nodes y).children) (sym here) ch) s new
                        (subst (λ u. Route parsers nodes m u i out) same route) in
                    (suc n, (e, (u, inside', rest)))
              ]
      ]

  -- The call for a fragment of the merged node is two calls, through a child.
  around :
      (m x : ℕ) (r : Bytes) (p : RoutingParams) (k : Bytes) (d : ℕ) (i : ℕ) (out : RoutingParams)
      → idx ≡ x
      → In (k, d) merged
      → starts_with r k ≡ true
      → is_empty r ≡ false
      → Route parsers nodes m (d, drop (length k) r, p) i out
      → (n : ℕ) × Route parsers nodes n (x, r, p) i out
  around m x r p k d i out here inside s e route =
      let (f, c, g, ch, deep, same) = merge.origin k d inside in
      let (s', s'') = starts_with-split r f g (subst (λ k. starts_with r k ≡ true) same s) in
      let filled =
        All-In _ (g, d) (node_at nodes c).children (node_at-HasFragments nodes c fragments) deep in
      let q = drop (length f) r in
      (
        suc (suc m),
        (
          e,
          (
            (c, q, p),
            In-++_right _ (param_targets parsers (node_at nodes x) r p) _ (
                child_targets-intro (node_at nodes x).children f c r p
                  (subst (λ y. In (f, c) (node_at nodes y).children) here ch) s'),
            (
              not_empty q g filled s'',
              (
                (d, drop (length g) q, p),
                In-++_right _ (param_targets parsers (node_at nodes c) q p) _
                    (child_targets-intro (node_at nodes c).children g d q p deep s''),
                subst (λ q. Route parsers nodes m (d, q, p) i out)
                    (ap (λ k. drop (length k) r) same ∙ sym (drop-append r f g)) route,
              ),
            ),
          ),
        ),
      )

  pub backward :
      (m : ℕ) (t : Target) (i : ℕ) (out : RoutingParams)
      → Route parsers after m t i out
      → (n : ℕ) × Route parsers nodes n t i out
  backward zero (x, r, p) i out (e, index, last) = (0, (e, sym (same_index x) ∙ index, last))
  backward (suc m) (x, r, p) i out (e, (t, inside, route)) =
      let (n, rest) = backward m t i out route in
      elim (node_at-set nodes idx x new_node) [
        | inl same ↦
            (suc n, (e, (t, subst (λ node. In t (targets parsers node r p)) same inside, rest)))
        | inr (here, new) ↦
            elim (In-++ t (param_targets parsers new_node r p) (child_targets merged r p)
              (subst (λ node. In t (targets parsers node r p)) new inside)) [
                | inl k ↦ (
                  suc n,
                  (
                    e,
                    (
                      t,
                      In-++_left t (param_targets parsers (node_at nodes x) r p) _
                          (subst (λ y. In t (param_targets parsers (node_at nodes y) r p)) here k),
                      rest,
                    ),
                  ),
                )
                | inr k ↦
                    let (f, ch, s, same) = child_targets-elim merged r p t k in
                    around n x r p f t.0 i out here ch s e
                      (subst (λ u. Route parsers nodes n u i out) same rest)
              ]
      ]
