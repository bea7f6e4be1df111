-- ===== src/Routing/Forward.antt =====
-- In the tries that `Trie::add` of http/routing.h makes, the children of a node stand behind it: so every
-- loop over the children of children ends.
use bmcweb.Prelude.{
  ℕ, zero, suc, ◌<◌, ◌≡◌, sym, subst, ◌∙◌, inl, inr, false, ◌==◌, [], ◌∷◌, ◌++◌, Bytes, length,
  length-append, length-set, drop, set, All, Bool-cases, Option-cases, arith,
}
use bmcweb.Prelude.Assoc.{Assoc, lookup, All-lookup}
use bmcweb.Routing.{Node, Trie, blank_node, node_at}
use bmcweb.Routing.Add.{
  ParamType, int_param, uint_param, double_param, string_param, path_param, next_param, param_child,
  set_param_child, add_child, with_new_node, param_step, piece_step, added, finish, add_from, add,
}
use bmcweb.Routing.Growth.{insert_child-All, Ends}
use bmcweb.Routing.Children.{node_at-set, node_at-append}
use bmcweb.Routing.Optimize.{if_child}

-- `c` stands behind `x` in a trie of `n` nodes.
abbrev pub IsBehind : ℕ → ℕ → ℕ → Type 0
IsBehind x n c = (x < c) × (c < n)

abbrev pub HasBehind : ℕ → ℕ → Node → Type 0
HasBehind x n node =
    All (IsBehind x n) (if_child node.int_child)
    × All (IsBehind x n) (if_child node.uint_child)
    × All (IsBehind x n) (if_child node.double_child)
    × All (IsBehind x n) (if_child node.string_child)
    × All (IsBehind x n) (if_child node.path_child)
    × All (λ (kv : Bytes × ℕ). IsBehind x n kv.1) node.children

-- The children of every node stand behind it.
abbrev pub IsForward : Trie → Type 0
IsForward nodes = (x : ℕ) → HasBehind x (length nodes) (node_at nodes x)

opt_weaken : (x n c : ℕ) → All (IsBehind x n) (if_child c) → All (IsBehind x (suc n)) (if_child c)
opt_weaken x n c h = elim (Bool-cases (c == 0)) [
  | inl e ↦ rw e tt
  | inr e ↦ let (above, below) = (rw e at h).0 in rw e ((above, omega arith), tt)
]

opt_new : (x n : ℕ) → x < n → All (IsBehind x (suc n)) (if_child n)
opt_new x n h = elim (Bool-cases (n == 0)) [ inl e ↦ rw e tt | inr e ↦ rw e ((h, omega arith), tt) ]

kids_weaken :
    (x n : ℕ) (children : Assoc ℕ)
    → All (λ (kv : Bytes × ℕ). IsBehind x n kv.1) children
    → All (λ (kv : Bytes × ℕ). IsBehind x (suc n) kv.1) children
kids_weaken x n [] h = tt
kids_weaken x n ((f, c) ∷ children) ((above, below), h) =
    ((above, omega arith), kids_weaken x n children h)

weaken : (x n : ℕ) (node : Node) → HasBehind x n node → HasBehind x (suc n) node
weaken x n node (a, b, c, d, e, k) = (
  opt_weaken x n node.int_child a,
  opt_weaken x n node.uint_child b,
  opt_weaken x n node.double_child c,
  opt_weaken x n node.string_child d,
  opt_weaken x n node.path_child e,
  kids_weaken x n node.children k,
)

set_param_child-HasBehind :
    (kind : ParamType) (x n i : ℕ) (node : Node)
    → All (IsBehind x n) (if_child i)
    → HasBehind x n node
    → HasBehind x n (set_param_child kind i node)
set_param_child-HasBehind int_param x n i node p (a, b, c, d, e, k) = (p, b, c, d, e, k)
set_param_child-HasBehind uint_param x n i node p (a, b, c, d, e, k) = (a, p, c, d, e, k)
set_param_child-HasBehind double_param x n i node p (a, b, c, d, e, k) = (a, b, p, d, e, k)
set_param_child-HasBehind string_param x n i node p (a, b, c, d, e, k) = (a, b, c, p, e, k)
set_param_child-HasBehind path_param x n i node p (a, b, c, d, e, k) = (a, b, c, d, p, k)

add_child-HasBehind :
    (piece : Bytes) (x n i : ℕ) (node : Node)
    → IsBehind x n i
    → HasBehind x n node
    → HasBehind x n (add_child piece i node)
add_child-HasBehind piece x n i node p (a, b, c, d, e, k) = (
  a,
  b,
  c,
  d,
  e,
  insert_child-All (λ (kv : Bytes × ℕ). IsBehind x n kv.1) piece i node.children k p,
)

length-with_new_node :
    (link : Node → Node) (idx : ℕ) (nodes : Trie)
    → length (with_new_node link idx nodes) ≡ suc (length nodes)
length-with_new_node link idx nodes =
    let grown = length-append nodes (blank_node ∷ []) in
    let same = length-set (nodes ++ blank_node ∷ []) idx (link (node_at nodes idx)) in omega arith

with_new_node-IsForward :
    (link : Node → Node) (idx : ℕ) (nodes : Trie)
    → IsForward nodes
    → HasBehind idx (suc (length nodes)) (link (node_at nodes idx))
    → IsForward (with_new_node link idx nodes)
with_new_node-IsForward link idx nodes h k x =
    subst (λ n. HasBehind x n (node_at (with_new_node link idx nodes) x))
      (sym (length-with_new_node link idx nodes))
      (elim (node_at-set (nodes ++ blank_node ∷ []) idx x (link (node_at nodes idx))) [
        | inl same ↦
            subst (HasBehind x (suc (length nodes))) (sym (same ∙ node_at-append nodes x))
              (weaken x (length nodes) (node_at nodes x) (h x))
        | inr (here, new) ↦
            subst (HasBehind x (suc (length nodes))) (sym new)
              (subst (λ y. HasBehind y (suc (length nodes)) (link (node_at nodes idx))) here k)
      ])

param_child_behind :
    (kind : ParamType) (x n : ℕ) (node : Node)
    → (param_child kind node == 0) ≡ false
    → HasBehind x n node
    → param_child kind node < n
param_child_behind int_param x n node e h = (rw e at h.0).0.1
param_child_behind uint_param x n node e h = (rw e at h.1).0.1
param_child_behind double_param x n node e h = (rw e at h.2).0.1
param_child_behind string_param x n node e h = (rw e at h.3).0.1
param_child_behind path_param x n node e h = (rw e at h.4).0.1

-- A step of `add`: the trie is forward, and the next node is one of it.
abbrev IsStep : Trie × ℕ → Type 0
IsStep next = IsForward next.0 × (next.1 < length next.0)

new_node-IsStep :
    (link : Node → Node) (idx : ℕ) (nodes : Trie)
    → IsForward nodes
    → HasBehind idx (suc (length nodes)) (link (node_at nodes idx))
    → IsStep (with_new_node link idx nodes, length nodes)
new_node-IsStep link idx nodes h k = (
  with_new_node-IsForward link idx nodes h k,
  let longer = length-with_new_node link idx nodes in omega arith,
)

param_step-IsStep :
    (kind : ParamType) (idx : ℕ) (nodes : Trie)
    → IsForward nodes
    → idx < length nodes
    → IsStep (param_step kind idx nodes)
unfolding param_step
param_step-IsStep kind idx nodes h lt =
    elim (Bool-cases (param_child kind (node_at nodes idx) == 0)) [
      | inl e ↦ rw e (
          new_node-IsStep (set_param_child kind (length nodes)) idx nodes h (
            set_param_child-HasBehind kind idx (suc (length nodes)) (length nodes)
              (node_at nodes idx) (opt_new idx (length nodes) lt)
              (weaken idx (length nodes) (node_at nodes idx) (h idx))))
      | inr e ↦ rw e (h, param_child_behind kind idx (length nodes) (node_at nodes idx) e (h idx))
    ]

piece_step-IsStep :
    (c idx : ℕ) (nodes : Trie)
    → IsForward nodes
    → idx < length nodes
    → IsStep (piece_step c idx nodes)
unfolding piece_step
piece_step-IsStep c idx nodes h lt =
    elim (Option-cases (lookup (c ∷ []) (node_at nodes idx).children)) [
      | inl e ↦
          rw (e, piece_step)
            (new_node-IsStep (add_child (c ∷ []) (length nodes)) idx nodes h (
              add_child-HasBehind (c ∷ []) idx (suc (length nodes)) (length nodes)
                (node_at nodes idx) (lt, omega arith)
                (weaken idx (length nodes) (node_at nodes idx) (h idx))))
      | inr (child, e) ↦
          rw (e, piece_step)
            (
              h,
              (All-lookup (λ (kv : Bytes × ℕ). IsBehind idx (length nodes) kv.1) (c ∷ []) child
                  (node_at nodes idx).children (h idx).5 e).1,
            )
    ]

set_rule-IsForward :
    (rule_index idx : ℕ) (nodes : Trie)
    → IsForward nodes
    → IsForward (set nodes idx (record (node_at nodes idx) { rule_index = rule_index }))
set_rule-IsForward rule_index idx nodes h x =
    subst
      (λ n.
        HasBehind x n
          (node_at (set nodes idx (record (node_at nodes idx) { rule_index = rule_index })) x))
      (sym (length-set nodes idx (record (node_at nodes idx) { rule_index = rule_index })))
      (elim (node_at-set nodes idx x (record (node_at nodes idx) { rule_index = rule_index })) [
        | inl same ↦ subst (HasBehind x (length nodes)) (sym same) (h x)
        | inr (here, new) ↦
            subst (HasBehind x (length nodes)) (sym new)
              (subst (λ y. HasBehind y (length nodes) (node_at nodes idx)) here (h idx))
      ])

-- Forward, with a head.
abbrev pub IsHeaded : Trie → Type 0
IsHeaded nodes = IsForward nodes × (0 < length nodes)

add_from-IsHeaded :
    (fuel : ℕ) (url : Bytes) (rule_index idx : ℕ) (nodes : Trie)
    → IsForward nodes
    → idx < length nodes
    → Ends IsHeaded (add_from fuel url rule_index idx nodes)
unfolding add_from finish
add_from-IsHeaded fuel [] rule_index idx nodes h lt =
    elim (Bool-cases ((node_at nodes idx).rule_index == 0)) [
      | inl e ↦
          let same =
            length-set nodes idx (record (node_at nodes idx) { rule_index = rule_index }) in
          rw (e, finish) (set_rule-IsForward rule_index idx nodes h, omega arith)
      | inr e ↦ rw (e, finish) tt
    ]
add_from-IsHeaded zero (c ∷ url) rule_index idx nodes h lt = tt
add_from-IsHeaded (suc fuel) (c ∷ url) rule_index idx nodes h lt = elim (Bool-cases (c == b'<')) [
  | inr e ↦
      let (forward, inside) = piece_step-IsStep c idx nodes h lt in
      rw e (add_from-IsHeaded fuel url rule_index _ _ forward inside)
  | inl e ↦ elim (Option-cases (next_param (c ∷ url))) [
    | inl f ↦ rw (e, f) tt
    | inr ((kind, n), f) ↦
        let (forward, inside) = param_step-IsStep kind idx nodes h lt in
        rw (e, f) (add_from-IsHeaded fuel (drop n (c ∷ url)) rule_index _ _ forward inside)
  ]
]

-- Adding a route keeps the children of every node behind it.
pub add-IsHeaded :
    (url : Bytes) (rule_index : ℕ) (nodes out : Trie)
    → IsHeaded nodes
    → add url rule_index nodes ≡ added out
    → IsHeaded out
unfolding add
add-IsHeaded url rule_index nodes out (h, lt) e =
    subst (Ends IsHeaded) e (add_from-IsHeaded (length url) url rule_index 0 nodes h lt)
