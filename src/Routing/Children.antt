-- ===== src/Routing/Children.antt =====
-- The children that `Trie::add` of http/routing.h makes and keeps.
use bmcweb.Prelude.{
  ℕ, zero, suc, ◌<◌, ◌≤◌, ◌≡◌, refl, ap, ◌⊎◌, inl, inr, some, [], ◌∷◌, ◌++◌, Bytes, bytes_eq,
  bytes_eq_iff, length, length-append, length-set, get_or-set, set, In, All, All-append, All-In,
  arith, Bool-cases, Option-cases,
}
use bmcweb.Prelude.Assoc.{Assoc, lookup}
use bmcweb.Routing.{Node, Trie, blank_node, node_at}
use bmcweb.Routing.Add.{text_less, insert_child, add_child, with_new_node, piece_step}
use bmcweb.Routing.Growth.{All-set, insert_child-All}

-- Every child is a node of the trie.
abbrev pub HasChildrenBelow : ℕ → Node → Type 0
HasChildrenBelow bound node = All (λ kv. kv.1 < bound) node.children

abbrev pub IsClosed : Trie → Type 0
IsClosed nodes = All (HasChildrenBelow (length nodes)) nodes

pub node_at-append : (nodes : Trie) (j : ℕ) → node_at (nodes ++ blank_node ∷ []) j ≡ node_at nodes j
node_at-append [] zero = refl
node_at-append [] (suc j) = refl
node_at-append (n ∷ nodes) zero = refl
node_at-append (n ∷ nodes) (suc j) = node_at-append nodes j

pub node_at-set :
    (nodes : Trie) (i j : ℕ) (n : Node)
    → (node_at (set nodes i n) j ≡ node_at nodes j) ⊎ ((i ≡ j) × (node_at (set nodes i n) j ≡ n))
node_at-set [] i j n = inl refl
node_at-set (m ∷ nodes) zero zero n = inr (refl, refl)
node_at-set (m ∷ nodes) zero (suc j) n = inl refl
node_at-set (m ∷ nodes) (suc i) zero n = inl refl
node_at-set (m ∷ nodes) (suc i) (suc j) n = elim (node_at-set nodes i j n) [
  | inl e ↦ inl e
  | inr (e, f) ↦ inr (ap suc e, f)
]

pub node_at-set_self :
    (nodes : Trie) (i : ℕ) (n : Node) → i < length nodes → node_at (set nodes i n) i ≡ n
node_at-set_self nodes i n h = ground (arith, get_or-set nodes i i n blank_node h)

node_at-with_new_node :
    (link : Node → Node) (idx : ℕ) (nodes : Trie)
    → idx < length nodes
    → node_at (with_new_node link idx nodes) idx ≡ link (node_at nodes idx)
node_at-with_new_node link idx nodes h = ground (
  arith,
  get_or-set (nodes ++ blank_node ∷ []) idx idx (link (node_at nodes idx)) blank_node
      (omega (arith, length-append nodes (blank_node ∷ []))),
)

In-insert_child :
    (piece : Bytes) (i : ℕ) (children : Assoc ℕ) → In (piece, i) (insert_child piece i children)
In-insert_child piece i [] = inl refl
In-insert_child piece i ((fragment, j) ∷ children) = elim (Bool-cases (text_less piece fragment)) [
  | inl e ↦ rw e (inl refl)
  | inr e ↦ rw e (inr (In-insert_child piece i children))
]

In-insert_child_old :
    (piece : Bytes) (i : ℕ) (children : Assoc ℕ) (kv : Bytes × ℕ)
    → In kv children
    → In kv (insert_child piece i children)
In-insert_child_old piece i [] kv m = absurd m
In-insert_child_old piece i ((fragment, j) ∷ children) kv m =
    elim (Bool-cases (text_less piece fragment)) [
      | inl e ↦ rw e (inr m)
      | inr e ↦ rw e (elim m [
        | inl same ↦ inl same
        | inr old ↦ inr (In-insert_child_old piece i children kv old)
      ])
    ]

In-lookup : (k : Bytes) (v : ℕ) (m : Assoc ℕ) → lookup k m ≡ some v → In (k, v) m
unfolding lookup
In-lookup k v [] e = absurd (cc)
In-lookup k v ((j, w) ∷ m) e = elim (Bool-cases (bytes_eq j k)) [
  | inl f ↦
      let same : j ≡ k = (bytes_eq_iff j k).0 f in
      let value : some w ≡ some v = rw f at e in let pair : (k, v) ≡ (j, w) = cc in inl pair
  | inr f ↦ inr (In-lookup k v m (rw f at e))
]

below_mono :
    (b b' : ℕ) (children : Assoc ℕ)
    → b ≤ b'
    → All (λ kv. kv.1 < b) children
    → All (λ kv. kv.1 < b') children
below_mono b b' [] h w = tt
below_mono b b' (kv ∷ children) h (p, w) = (omega arith, below_mono b b' children h w)

closed_mono :
    (b b' : ℕ) (nodes : Trie)
    → b ≤ b'
    → All (HasChildrenBelow b) nodes
    → All (HasChildrenBelow b') nodes
closed_mono b b' [] h w = tt
closed_mono b b' (n ∷ nodes) h (p, w) = (below_mono b b' n.children h p, closed_mono b b' nodes h w)

node_at-HasChildrenBelow :
    (b : ℕ) (nodes : Trie) (i : ℕ)
    → All (HasChildrenBelow b) nodes
    → HasChildrenBelow b (node_at nodes i)
node_at-HasChildrenBelow b [] i w = tt
node_at-HasChildrenBelow b (n ∷ nodes) zero (p, w) = p
node_at-HasChildrenBelow b (n ∷ nodes) (suc i) (p, w) = node_at-HasChildrenBelow b nodes i w

length-with_new_node :
    (link : Node → Node) (idx : ℕ) (nodes : Trie)
    → length (with_new_node link idx nodes) ≡ suc (length nodes)
length-with_new_node link idx nodes = omega (
  arith,
  length-set (nodes ++ blank_node ∷ []) idx (link (node_at nodes idx)),
  length-append nodes (blank_node ∷ []),
)

add_child-IsClosed :
    (piece : Bytes) (idx : ℕ) (nodes : Trie)
    → IsClosed nodes
    → All
        (HasChildrenBelow (suc (length nodes)))
        (with_new_node (add_child piece (length nodes)) idx nodes)
add_child-IsClosed piece idx nodes w =
    All-set (HasChildrenBelow (suc (length nodes))) (nodes ++ blank_node ∷ []) idx _
      (All-append (HasChildrenBelow (suc (length nodes))) nodes (blank_node ∷ [])
        (closed_mono (length nodes) (suc (length nodes)) nodes (omega arith) w) (tt, tt))
      (insert_child-All (λ kv. kv.1 < suc (length nodes)) piece (length nodes)
        (node_at nodes idx).children
        (below_mono (length nodes) (suc (length nodes)) (node_at nodes idx).children (omega arith)
          (node_at-HasChildrenBelow (length nodes) nodes idx w))
        (omega arith))

-- The child for the character stands in the node afterwards, and the trie stays closed.
pub piece_step_lem :
    (c idx : ℕ) (nodes : Trie)
    → IsClosed nodes
    → idx < length nodes
    → In (c ∷ [], (piece_step c idx nodes).1) (node_at (piece_step c idx nodes).0 idx).children
      × ((piece_step c idx nodes).1 < length (piece_step c idx nodes).0)
      × IsClosed (piece_step c idx nodes).0
unfolding piece_step
piece_step_lem c idx nodes w h =
    elim (Option-cases (lookup (c ∷ []) (node_at nodes idx).children)) [
      | inr (child, e) ↦
          let inside = In-lookup (c ∷ []) child (node_at nodes idx).children e in
          rw (e, piece_step)
            (
              inside,
              All-In (λ kv. kv.1 < length nodes) (c ∷ [], child) (node_at nodes idx).children
                  (node_at-HasChildrenBelow (length nodes) nodes idx w) inside,
              w,
            )
      | inl e ↦
          let link = add_child (c ∷ []) (length nodes) in
          rw (e, piece_step)
            (
              rw (node_at-with_new_node link idx nodes h)
                  (In-insert_child (c ∷ []) (length nodes) (node_at nodes idx).children),
              omega (arith, length-with_new_node link idx nodes),
              rw (length-with_new_node link idx nodes) (add_child-IsClosed (c ∷ []) idx nodes w),
            )
    ]

pub piece_step_kept :
    (c idx : ℕ) (nodes : Trie) (j : ℕ) (kv : Bytes × ℕ)
    → In kv (node_at nodes j).children
    → In kv (node_at (piece_step c idx nodes).0 j).children
unfolding piece_step
piece_step_kept c idx nodes j kv m =
    elim (Option-cases (lookup (c ∷ []) (node_at nodes idx).children)) [
      | inr (child, e) ↦ rw (e, piece_step) m
      | inl e ↦
          let link = add_child (c ∷ []) (length nodes) in
          rw (e, piece_step)
            (elim (node_at-set (nodes ++ blank_node ∷ []) idx j (link (node_at nodes idx))) [
              | inl same ↦ rw (same, node_at-append nodes j) m
              | inr (here, same) ↦ rw same (
                  In-insert_child_old (c ∷ []) (length nodes) (node_at nodes idx).children kv
                    (rw here m))
            ])
    ]
