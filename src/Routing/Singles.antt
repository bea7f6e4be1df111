-- ===== src/Routing/Singles.antt =====
-- The fragments that `Trie::add` of http/routing.h makes: single characters, no two of a node the same. So
-- the trie of any routes meets what the optimization needs of fragments.
use bmcweb.Prelude.{
  ℕ, zero, suc, ◌≡◌, ◌≢◌, refl, ap, subst, inl, inr, false, none, ◌==◌, [], ◌∷◌, ◌++◌, Bytes,
  bytes_eq, length, drop, All, All-append, Bool-cases, Option-cases, arith,
}
use bmcweb.Prelude.Assoc.{Assoc, lookup}
use bmcweb.Routing.{Node, Trie, blank_node, node_at}
use bmcweb.Routing.Add.{
  ParamType, next_param, param_child, set_param_child, text_less, insert_child, add_child,
  with_new_node, param_step, piece_step, added, finish, add_from, add,
}
use bmcweb.Routing.Growth.{All-set, insert_child-All, set_param_child_children, Ends}
use bmcweb.Routing.Optimize.PrefixFree.{Apart, sym-Apart, IsApartFrom, PrefixFree}
use bmcweb.Routing.Optimize.Whole.{IsWellFormed, HasFreeChildren}
use bmcweb.Routing.Walks.{HasFragments}

abbrev pub HasSingles : Node → Type 0
HasSingles node = All (λ (kv : Bytes × ℕ). length kv.0 ≡ 1) node.children × PrefixFree node.children

single-Apart : (c : ℕ) (f : Bytes) → length f ≡ 1 → bytes_eq f (c ∷ []) ≡ false → Apart (c ∷ []) f
single-Apart c [] h e = absurd (omega (arith, h))
single-Apart c (d ∷ []) h e = ground arith
single-Apart c (d ∷ b ∷ f) h e = absurd (omega (arith, h))

new-IsApartFrom :
    (c : ℕ) (children : Assoc ℕ)
    → All (λ (kv : Bytes × ℕ). length kv.0 ≡ 1) children
    → lookup (c ∷ []) children ≡ none
    → IsApartFrom (c ∷ []) children
unfolding lookup
new-IsApartFrom c [] h e = tt
new-IsApartFrom c ((f, i) ∷ children) (one, h) e = elim (Bool-cases (bytes_eq f (c ∷ []))) [
  | inl same ↦ absurd (cc (rw same at e))
  | inr ne ↦ (single-Apart c f one ne, new-IsApartFrom c children h (rw ne at e))
]

insert_child-PrefixFree :
    (k : Bytes) (i : ℕ) (children : Assoc ℕ)
    → IsApartFrom k children
    → PrefixFree children
    → PrefixFree (insert_child k i children)
insert_child-PrefixFree k i [] a h = (tt, tt)
insert_child-PrefixFree k i ((f, j) ∷ children) (ne, a) (b, h) = elim (Bool-cases (text_less k f)) [
  | inl e ↦ rw e ((ne, a), (b, h))
  | inr e ↦ rw e (
    insert_child-All (λ (kv : Bytes × ℕ). Apart f kv.0) k i children b (sym-Apart k f ne),
    insert_child-PrefixFree k i children a h,
  )
]

node_at-HasSingles : (nodes : Trie) (i : ℕ) → All HasSingles nodes → HasSingles (node_at nodes i)
node_at-HasSingles [] i h = (tt, tt)
node_at-HasSingles (n ∷ nodes) zero (p, h) = p
node_at-HasSingles (n ∷ nodes) (suc i) (p, h) = node_at-HasSingles nodes i h

with_new_node-HasSingles :
    (link : Node → Node) (idx : ℕ) (nodes : Trie)
    → All HasSingles nodes
    → HasSingles (link (node_at nodes idx))
    → All HasSingles (with_new_node link idx nodes)
with_new_node-HasSingles link idx nodes h k =
    All-set HasSingles (nodes ++ blank_node ∷ []) idx _
      (All-append HasSingles nodes (blank_node ∷ []) h ((tt, tt), tt)) k

param_step-HasSingles :
    (kind : ParamType) (idx : ℕ) (nodes : Trie)
    → All HasSingles nodes
    → All HasSingles (param_step kind idx nodes).0
unfolding param_step
param_step-HasSingles kind idx nodes h =
    elim (Bool-cases (param_child kind (node_at nodes idx) == 0)) [
      | inl e ↦ rw e (
          with_new_node-HasSingles (set_param_child kind (length nodes)) idx nodes h (
            rw (set_param_child_children kind (length nodes) (node_at nodes idx))
              (node_at-HasSingles nodes idx h)))
      | inr e ↦ rw e h
    ]

piece_step-HasSingles :
    (c idx : ℕ) (nodes : Trie) → All HasSingles nodes → All HasSingles (piece_step c idx nodes).0
unfolding piece_step
piece_step-HasSingles c idx nodes h =
    let (ones, free) = node_at-HasSingles nodes idx h in
    elim (Option-cases (lookup (c ∷ []) (node_at nodes idx).children)) [
      | inl e ↦
          rw (e, piece_step)
            (with_new_node-HasSingles (add_child (c ∷ []) (length nodes)) idx nodes h (
              insert_child-All (λ (kv : Bytes × ℕ). length kv.0 ≡ 1) (c ∷ []) (length nodes)
                  (node_at nodes idx).children ones refl,
              insert_child-PrefixFree (c ∷ []) (length nodes) (node_at nodes idx).children
                  (new-IsApartFrom c (node_at nodes idx).children ones e) free,
            ))
      | inr (child, e) ↦ rw (e, piece_step) h
    ]

add_from-HasSingles :
    (fuel : ℕ) (url : Bytes) (rule_index idx : ℕ) (nodes : Trie)
    → All HasSingles nodes
    → Ends (All HasSingles) (add_from fuel url rule_index idx nodes)
unfolding add_from finish
add_from-HasSingles fuel [] rule_index idx nodes h =
    elim (Bool-cases ((node_at nodes idx).rule_index == 0)) [
      | inl e ↦ rw e (All-set HasSingles nodes idx _ h (node_at-HasSingles nodes idx h))
      | inr e ↦ rw e tt
    ]
add_from-HasSingles zero (c ∷ url) rule_index idx nodes h = tt
add_from-HasSingles (suc fuel) (c ∷ url) rule_index idx nodes h = elim (Bool-cases (c == b'<')) [
  | inr e ↦ rw e (add_from-HasSingles fuel url rule_index _ _ (piece_step-HasSingles c idx nodes h))
  | inl e ↦ elim (Option-cases (next_param (c ∷ url))) [
    | inl f ↦ rw (e, f) tt
    | inr ((kind, n), f) ↦
        rw (e, f)
          (add_from-HasSingles fuel (drop n (c ∷ url)) rule_index _ _
            (param_step-HasSingles kind idx nodes h))
  ]
]

-- Adding a route keeps the fragments of the trie single characters, no two of a node the same.
pub add-HasSingles :
    (url : Bytes) (rule_index : ℕ) (nodes out : Trie)
    → All HasSingles nodes
    → add url rule_index nodes ≡ added out
    → All HasSingles out
unfolding add
add-HasSingles url rule_index nodes out h e =
    subst (Ends (All HasSingles)) e (add_from-HasSingles (length url) url rule_index 0 nodes h)

filled :
    (children : Assoc ℕ)
    → All (λ (kv : Bytes × ℕ). length kv.0 ≡ 1) children
    → All (λ kv. kv.0 ≢ []) children
filled [] h = tt
filled ((f, i) ∷ children) (one, h) = (λ e. absurd (cc (ap length e)), filled children h)

-- Such a trie is one that can be optimized.
pub singles-IsWellFormed : (nodes : Trie) → All HasSingles nodes → IsWellFormed nodes
singles-IsWellFormed nodes h = record { fragments = fragments nodes h; free = free nodes h }
  where
    fragments : (nodes : Trie) → All HasSingles nodes → All HasFragments nodes
    fragments [] h = tt
    fragments (n ∷ nodes) ((ones, _), h) = (filled n.children ones, fragments nodes h)

    free : (nodes : Trie) → All HasSingles nodes → All HasFreeChildren nodes
    free [] h = tt
    free (n ∷ nodes) ((_, p), h) = (p, free nodes h)
