-- ===== src/Routing/Optimize/Whole.antt =====
-- `optimizeNode` of http/routing.h as a whole: it ends, and the trie matches what it matched.
use bmcweb.Prelude.{
  ℕ, zero, suc, ◌≡◌, ◌≢◌, sym, subst, inl, inr, true, [], ◌∷◌, ◌++◌, Bytes, In, All, All-In, arith,
  and_split,
}
use bmcweb.Prelude.Assoc.{Assoc}
use bmcweb.Routing.{Node, Trie, node_at, Parsers, RoutingParams}
use bmcweb.Routing.Walks.{HasFragments}
use bmcweb.Routing.Growth.{All-set}
use bmcweb.Routing.Edges.{Target, Route}
use bmcweb.Routing.Optimize.{is_simple_node, merge_children, all_simple, merge_at}
use bmcweb.Routing.Optimize.Merging.{forward, backward, IsMerged}
use bmcweb.Routing.Optimize.PrefixFree.{PrefixFree, All-intro}
use bmcweb.Routing.Optimize.Merged.{merge_children-IsMerged}

abbrev pub HasFreeChildren : Node → Type 0
HasFreeChildren node = PrefixFree node.children

-- No fragment is empty, and none of a node begins another of it.
pub record IsWellFormed (nodes : Trie) : Type 0 where
  pub fragments : All HasFragments nodes
  pub free : All HasFreeChildren nodes

-- Some walk takes the target's address to a node with the index `i`.
abbrev pub Reaches : Parsers → Trie → Target → ℕ → RoutingParams → Type 0
Reaches parsers nodes t i out = (n : ℕ) × Route parsers nodes n t i out

abbrev pub ReachesSame : Trie → Trie → Type 0
ReachesSame nodes nodes' =
    (parsers : Parsers) (t : Target) (i : ℕ) (out : RoutingParams)
    → i ≢ 0
    → (Reaches parsers nodes t i out → Reaches parsers nodes' t i out)
      × (Reaches parsers nodes' t i out → Reaches parsers nodes t i out)

pub all_simple_lem :
    (nodes : Trie) (children : Assoc ℕ) (f : Bytes) (c : ℕ)
    → all_simple nodes children ≡ true
    → In (f, c) children
    → is_simple_node (node_at nodes c) ≡ true
unfolding all_simple
all_simple_lem nodes [] f c h m = absurd m
all_simple_lem nodes ((g, d) ∷ children) f c h (inl e) =
    subst (λ (kv : Bytes × ℕ). is_simple_node (node_at nodes kv.1) ≡ true) (sym e)
      (and_split _ _ h).0
all_simple_lem nodes ((g, d) ∷ children) f c h (inr m) =
    all_simple_lem nodes children f c (and_split (is_simple_node (node_at nodes d)) _ h).1 m

at_free : (nodes : Trie) (c : ℕ) → All HasFreeChildren nodes → PrefixFree (node_at nodes c).children
at_free [] c h = tt
at_free (n ∷ nodes) zero (p, h) = p
at_free (n ∷ nodes) (suc c) (p, h) = at_free nodes c h

at_fragments : (nodes : Trie) (c : ℕ) → All HasFragments nodes → HasFragments (node_at nodes c)
at_fragments [] c h = tt
at_fragments (n ∷ nodes) zero (p, h) = p
at_fragments (n ∷ nodes) (suc c) (p, h) = at_fragments nodes c h

join_not_empty : (f g : Bytes) → g ≢ [] → f ++ g ≢ []
join_not_empty [] g ne e = ne e
join_not_empty (c ∷ f) g ne e = absurd (cc)

module _ (nodes : Trie) (idx : ℕ) (well : IsWellFormed nodes) where
  pub merge :
      IsMerged nodes
        (node_at nodes idx).children
        (merge_children nodes (node_at nodes idx).children [])
      × PrefixFree (merge_children nodes (node_at nodes idx).children [])
  merge =
      merge_children-IsMerged nodes (node_at nodes idx).children (λ c. at_free nodes c well.free)
        (at_free nodes idx well.free)

  -- A node with simple children that takes over theirs leaves the trie well formed.
  pub merge_at-IsWellFormed : IsWellFormed (merge_at idx nodes)
  merge_at-IsWellFormed = record {
    fragments = All-set HasFragments nodes idx _ well.fragments (
        All-intro (λ (kv : Bytes × ℕ). kv.0 ≢ []) _
          (λ kv q.
            let (f, c, g, _, deep, same) = merge.0.origin kv.0 kv.1 q in
            subst (λ (k : Bytes). k ≢ []) (sym same)
              (join_not_empty f g (
                All-In (λ (kv : Bytes × ℕ). kv.0 ≢ []) (g, kv.1) _
                  (at_fragments nodes c well.fragments) deep))));
    free = All-set HasFreeChildren nodes idx _ well.free merge.1;
  }

  -- It reaches what it reached.
  pub merge_at-ReachesSame :
      all_simple nodes (node_at nodes idx).children ≡ true → ReachesSame nodes (merge_at idx nodes)
  merge_at-ReachesSame simple parsers t i out h = (
    λ (n, route).
        forward parsers nodes idx _ well.fragments (λ f c. all_simple_lem nodes _ f c simple)
          merge.0 (suc n) n (omega arith) t i out h route,
    λ (n, route).
        backward parsers nodes idx _ well.fragments (λ f c. all_simple_lem nodes _ f c simple)
          merge.0 n t i out route,
  )
