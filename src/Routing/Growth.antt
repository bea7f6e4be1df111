-- ===== src/Routing/Growth.antt =====
-- What `Trie::add` of http/routing.h leaves of a trie: its fragments, and the children that were there.
use bmcweb.Prelude.{
  ℕ, zero, suc, ◌≡◌, ◌≢◌, refl, subst, inl, inr, ◌==◌, [], ◌∷◌, ◌++◌, Bytes, length, drop, set, All,
  All-append, Bool-cases, Option-cases,
}
use bmcweb.Prelude.Assoc.{Assoc, lookup}
use bmcweb.Routing.{Node, Trie, blank_node, node_at}
use bmcweb.Routing.Walks.{HasFragments, node_at-HasFragments}
use bmcweb.Routing.Add.{
  ParamType, int_param, uint_param, double_param, string_param, path_param, next_param, param_child,
  set_param_child, text_less, insert_child, add_child, with_new_node, param_step, piece_step, Added,
  added, already_exists, runs_on, finish, add_from, add,
}

pub All-set :
    (P : Node → Type 0) (nodes : Trie) (i : ℕ) (n : Node)
    → All P nodes
    → P n
    → All P (set nodes i n)
All-set P [] i n h p = tt
All-set P (m ∷ nodes) zero n (q, h) p = (p, h)
All-set P (m ∷ nodes) (suc i) n (q, h) p = (q, All-set P nodes i n h p)

pub insert_child-All :
    (P : Bytes × ℕ → Type 0) (piece : Bytes) (i : ℕ) (children : Assoc ℕ)
    → All P children
    → P (piece, i)
    → All P (insert_child piece i children)
insert_child-All P piece i [] h p = (p, tt)
insert_child-All P piece i ((fragment, j) ∷ children) (q, h) p =
    elim (Bool-cases (text_less piece fragment)) [
      | inl e ↦ rw e (p, (q, h))
      | inr e ↦ rw e (q, insert_child-All P piece i children h p)
    ]

pub set_param_child_children :
    (kind : ParamType) (i : ℕ) (node : Node)
    → (set_param_child kind i node).children ≡ node.children
set_param_child_children int_param i node = refl
set_param_child_children uint_param i node = refl
set_param_child_children double_param i node = refl
set_param_child_children string_param i node = refl
set_param_child_children path_param i node = refl

with_new_node-HasFragments :
    (link : Node → Node) (idx : ℕ) (nodes : Trie)
    → All HasFragments nodes
    → HasFragments (link (node_at nodes idx))
    → All HasFragments (with_new_node link idx nodes)
with_new_node-HasFragments link idx nodes h k =
    All-set HasFragments (nodes ++ blank_node ∷ []) idx _
      (All-append HasFragments nodes (blank_node ∷ []) h (tt, tt)) k

param_step-HasFragments :
    (kind : ParamType) (idx : ℕ) (nodes : Trie)
    → All HasFragments nodes
    → All HasFragments (param_step kind idx nodes).0
unfolding param_step
param_step-HasFragments kind idx nodes h =
    elim (Bool-cases (param_child kind (node_at nodes idx) == 0)) [
      | inl e ↦ rw e (
          with_new_node-HasFragments (set_param_child kind (length nodes)) idx nodes h (
            rw (set_param_child_children kind (length nodes) (node_at nodes idx))
              (node_at-HasFragments nodes idx h)))
      | inr e ↦ rw e h
    ]

piece_step-HasFragments :
    (c idx : ℕ) (nodes : Trie)
    → All HasFragments nodes
    → All HasFragments (piece_step c idx nodes).0
unfolding piece_step
piece_step-HasFragments c idx nodes h =
    elim (Option-cases (lookup (c ∷ []) (node_at nodes idx).children)) [
      | inl e ↦
          rw (e, piece_step)
            (with_new_node-HasFragments (add_child (c ∷ []) (length nodes)) idx nodes h (
              insert_child-All (λ kv. kv.0 ≢ []) (c ∷ []) (length nodes)
                (node_at nodes idx).children (node_at-HasFragments nodes idx h) (λ z. absurd (cc))))
      | inr (child, e) ↦ rw (e, piece_step) h
    ]

-- `P` holds of the trie, where there is one.
abbrev pub Ends : (Trie → Type 0) → Added → Type 0
Ends P (added nodes) = P nodes
Ends P already_exists = Unit
Ends P runs_on = Unit

add_from-HasFragments :
    (fuel : ℕ) (url : Bytes) (rule_index idx : ℕ) (nodes : Trie)
    → All HasFragments nodes
    → Ends (All HasFragments) (add_from fuel url rule_index idx nodes)
unfolding add_from finish
add_from-HasFragments fuel [] rule_index idx nodes h =
    elim (Bool-cases ((node_at nodes idx).rule_index == 0)) [
      | inl e ↦ rw e (All-set HasFragments nodes idx _ h (node_at-HasFragments nodes idx h))
      | inr e ↦ rw e tt
    ]
add_from-HasFragments zero (c ∷ url) rule_index idx nodes h = tt
add_from-HasFragments (suc fuel) (c ∷ url) rule_index idx nodes h = elim (Bool-cases (c == b'<')) [
  | inr e ↦
      rw e (add_from-HasFragments fuel url rule_index _ _ (piece_step-HasFragments c idx nodes h))
  | inl e ↦ elim (Option-cases (next_param (c ∷ url))) [
    | inl f ↦ rw (e, f) tt
    | inr ((kind, n), f) ↦
        rw (e, f)
          (add_from-HasFragments fuel (drop n (c ∷ url)) rule_index _ _
            (param_step-HasFragments kind idx nodes h))
  ]
]

-- Adding a route keeps every fragment of the trie from being empty, so that the trie of any routes
-- meets what `find` needs.
pub add-HasFragments :
    (url : Bytes) (rule_index : ℕ) (nodes out : Trie)
    → All HasFragments nodes
    → add url rule_index nodes ≡ added out
    → All HasFragments out
unfolding add
add-HasFragments url rule_index nodes out h e =
    subst (Ends (All HasFragments)) e (add_from-HasFragments (length url) url rule_index 0 nodes h)
