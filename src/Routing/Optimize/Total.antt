-- ===== src/Routing/Optimize/Total.antt =====
-- `optimizeNode` of http/routing.h ends on a trie whose nodes are ranked above their children, and the
-- optimized trie finds the rules that the trie found.
use bmcweb.Prelude.{
  ℕ, zero, suc, ◌+◌, ◌≤◌, ◌<◌, ◌≡◌, sym, subst, ap, ◌∙◌, inl, inr, true, false, Option, some, [],
  ◌∷◌, Bytes, is_empty, All, All-In, arith, Bool-cases, if_true, if_false,
}
use bmcweb.Prelude.Assoc.{Assoc}
use bmcweb.Routing.{Node, Trie, node_at}
use bmcweb.Routing.Children.{node_at-set, node_at-set_self}
use bmcweb.Routing.Optimize.{
  merge_children, all_simple, merge_at, param_children, child_indices, optimize_children,
  optimize_node,
}
use bmcweb.Routing.Optimize.PrefixFree.{All-intro}
use bmcweb.Routing.Optimize.Whole.{IsWellFormed, merge, merge_at-IsWellFormed, merge_at-ReachesSame}
use bmcweb.Routing.Optimize.Ranks.{
  budget, budget_less, KidsBelow, IsRanked, IsOptimized, unchanged, followed, Ends,
  optimize_each-Ends, child_indices_below, in_range, positive,
}

module _ (rank : ℕ → ℕ) where
  module _ (nodes : Trie) (idx : ℕ) (w : IsWellFormed nodes) (k : IsRanked rank nodes) where
    -- The children that are taken over have smaller ranks still.
    merged_below :
        (b : ℕ)
        → KidsBelow rank (suc b) (node_at nodes idx).children
        → KidsBelow rank b (merge_children nodes (node_at nodes idx).children [])
    merged_below b h =
        All-intro (λ (kv : Bytes × ℕ). rank kv.1 < b) _
          (λ kv q.
            let (f, c, g, ch, deep, same) = (merge nodes idx w).0.origin kv.0 kv.1 q in
            let above = All-In (λ (kv : Bytes × ℕ). rank kv.1 < suc b) (f, c) _ h ch in
            let below =
              All-In (λ (kv : Bytes × ℕ). rank kv.1 < rank c) (g, kv.1) _ (k.kids c) deep in
            omega arith)

    weaken :
        (b : ℕ) (children : Assoc ℕ) → KidsBelow rank b children → KidsBelow rank (suc b) children
    weaken b [] h = tt
    weaken b ((f, c) ∷ children) (p, h) = (omega arith, weaken b children h)

    merge_at-IsRanked : IsRanked rank (merge_at idx nodes)
    merge_at-IsRanked = record {
      params = λ x. elim (node_at-set nodes idx x _) [
        | inl same ↦
            subst (λ (n : Node). All (λ c. rank c < rank x) (param_children n)) (sym same)
              (k.params x)
        | inr (here, new) ↦
            subst (λ (n : Node). All (λ c. rank c < rank x) (param_children n)) (sym new)
              (subst (λ y. All (λ c. rank c < rank y) (param_children (node_at nodes idx))) here
                (k.params idx))
      ];
      kids = λ x. elim (node_at-set nodes idx x _) [
        | inl same ↦ subst (λ (n : Node). KidsBelow rank (rank x) n.children) (sym same) (k.kids x)
        | inr (here, new) ↦
            subst (λ (n : Node). KidsBelow rank (rank x) n.children) (sym new)
              (subst
                (λ y.
                  KidsBelow rank (rank y) (merge_children nodes (node_at nodes idx).children []))
                here
                (merged_below (rank idx)
                  (weaken (rank idx) (node_at nodes idx).children (k.kids idx))))
      ];
    }

    abbrev kids_of : Assoc ℕ
    kids_of = (node_at nodes idx).children

    merged_kids :
        (b : ℕ)
        → is_empty kids_of ≡ false
        → KidsBelow rank (suc b) kids_of
        → KidsBelow rank b (node_at (merge_at idx nodes) idx).children
    merged_kids b filled h =
        subst (λ (n : Node). KidsBelow rank b n.children)
          (sym (node_at-set_self nodes idx _ (in_range rank nodes idx filled))) (merged_below b h)

    -- The merge alone.
    merge_at-IsOptimized :
        all_simple nodes kids_of ≡ true
        → IsOptimized rank (suc (rank idx)) nodes (merge_at idx nodes)
    merge_at-IsOptimized simple = record {
      well = merge_at-IsWellFormed nodes idx w;
      ranked = merge_at-IsRanked;
      same = merge_at-ReachesSame nodes idx w simple;
      kept = λ y above. elim (node_at-set nodes idx y _) [
        | inl same ↦ same
        | inr (here, _) ↦ absurd (let same_rank : rank idx ≡ rank y = ap rank here in omega arith)
      ];
    }

    children_end :
        (go : ℕ → Trie → Option Trie) (b : ℕ)
        → KidsBelow rank b kids_of
        → Ends rank go (rank idx)
        → ((b' : ℕ) (next : Trie)
            → suc b' ≤ b
            → IsWellFormed next
            → IsRanked rank next
            → KidsBelow rank b' (node_at next idx).children
            → (nodes' : Trie) × (go idx next ≡ some nodes')
              × IsOptimized rank (suc (rank idx)) next nodes')
        → (nodes' : Trie) × (optimize_children go idx nodes ≡ some nodes')
          × IsOptimized rank (suc (rank idx)) nodes nodes'
    unfolding optimize_children
    children_end go b h ends self = elim (Bool-cases (is_empty kids_of)) [
      | inl none_there ↦
          (nodes, if_true _ _ _ none_there, unchanged rank (suc (rank idx)) nodes w k)
      | inr filled ↦ elim (Bool-cases (all_simple nodes kids_of)) [
        | inl simple ↦
            let (b', is_suc) = positive rank b kids_of filled h in
            let o = merge_at-IsOptimized simple in
            let (last, e, rest) =
              self b' (merge_at idx nodes) (omega arith) o.well o.ranked
                (merged_kids b' filled (subst (λ b. KidsBelow rank b kids_of) is_suc h)) in
            (
              last,
              if_false _ _ _ filled ∙ if_true _ _ _ simple ∙ e,
              followed rank (suc (rank idx)) (suc (rank idx)) nodes _ last (omega arith) o rest,
            )
        | inr mixed ↦
            let (last, e, rest) =
              optimize_each-Ends rank go (rank idx) (child_indices kids_of) nodes ends
                (child_indices_below rank (rank idx) kids_of (k.kids idx)) w k in
            (
              last,
              if_false _ _ _ filled ∙ if_false _ _ _ mixed ∙ e,
              followed rank (rank idx) (suc (rank idx)) nodes last last (omega arith) rest
                  (unchanged rank (suc (rank idx)) last rest.well rest.ranked),
            )
      ]
    ]

  pub node_ends :
      (fuel idx b : ℕ) (nodes : Trie)
      → IsWellFormed nodes
      → IsRanked rank nodes
      → KidsBelow rank b (node_at nodes idx).children
      → b ≤ rank idx
      → budget (rank idx) + b < fuel
      → (nodes' : Trie) × (optimize_node fuel idx nodes ≡ some nodes')
        × IsOptimized rank (suc (rank idx)) nodes nodes'
  unfolding optimize_node
  node_ends zero idx b nodes w k h le lt = absurd (omega arith)
  node_ends (suc fuel) idx b nodes w k h le lt =
      let ends : Ends rank (optimize_node fuel) (rank idx) = λ x next less w' k'.
        node_ends fuel x (rank x) next w' k' (k'.kids x) (omega arith)
          (let smaller = budget_less (rank x) (rank idx) less in omega arith) in
      let (next, e, first) =
        optimize_each-Ends rank (optimize_node fuel) (rank idx) (param_children (node_at nodes idx))
          nodes ends (k.params idx) w k in
      let here = first.kept idx (omega arith) in
      let (last, e', rest) =
        children_end next idx first.well first.ranked (optimize_node fuel) b
          (subst (λ (n : Node). KidsBelow rank b n.children) (sym here) h) ends
          (λ b' later less w' k' h'.
            node_ends fuel idx b' later w' k' h' (omega arith) (omega arith)) in
      (
        last,
        rw (optimize_node, e) e',
        followed rank (rank idx) (suc (rank idx)) nodes next last (omega arith) first rest,
      )
