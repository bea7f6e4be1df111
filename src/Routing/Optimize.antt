-- ===== src/Routing/Optimize.antt =====
-- `Trie::validate`, `optimize` and `optimizeNode` of http/routing.h: a node whose children are all
-- simple takes over their children. The recursion is on fuel; `none` is the end of the fuel, and where
-- `validate` throws.
pub mod Texts
pub mod PrefixFree
pub mod Merged
pub mod Merging
pub mod Whole
pub mod Ranks
pub mod Total
pub mod Same
use bmcweb.Prelude.{
  ℕ, zero, suc, Bool, true, false, not, ◌&&◌, Option, none, some, List, [], ◌∷◌, ◌++◌, Bytes,
  bytes_eq, set, is_empty, if◌then◌else◌, ◌==◌,
}
use bmcweb.Prelude.Assoc.{Assoc}
use bmcweb.Routing.{Node, Trie, node_at}
use bmcweb.Routing.Add.{text_less}

abbrev pub has_no_params : Node → Bool
has_no_params node =
    node.int_child == 0
    && node.uint_child == 0
    && node.double_child == 0
    && node.string_child == 0
    && node.path_child == 0

-- `isSimpleNode`
abbrev pub is_simple_node : Node → Bool
is_simple_node node = node.rule_index == 0 && has_no_params node

-- `merged[fragment] = i`
unfoldable pub put_child : Bytes → ℕ → Assoc ℕ → Assoc ℕ
put_child fragment i [] = (fragment, i) ∷ []
put_child fragment i ((g, j) ∷ children) =
    let later = put_child fragment i children in
    if bytes_eq fragment g
    then (g, i) ∷ children
    else if text_less fragment g
    then (fragment, i) ∷ (g, j) ∷ children
    else (g, j) ∷ later

-- The inner loop, over the children of a child.
unfoldable pub put_all : Bytes → Assoc ℕ → Assoc ℕ → Assoc ℕ
put_all fragment [] merged = merged
put_all fragment ((g, d) ∷ children) merged =
    put_all fragment children (put_child (fragment ++ g) d merged)

unfoldable pub merge_children : Trie → Assoc ℕ → Assoc ℕ → Assoc ℕ
merge_children nodes [] merged = merged
merge_children nodes ((f, c) ∷ children) merged =
    merge_children nodes children (put_all f (node_at nodes c).children merged)

unfoldable pub all_simple : Trie → Assoc ℕ → Bool
all_simple nodes [] = true
all_simple nodes ((f, c) ∷ children) = is_simple_node (node_at nodes c) && all_simple nodes children

abbrev pub merge_at : ℕ → Trie → Trie
merge_at idx nodes =
    let node = node_at nodes idx in
    set nodes idx (record node { children = merge_children nodes node.children [] })

-- The children for parameters, where there are any.
abbrev pub if_child : ℕ → List ℕ
if_child i = if i == 0 then [] else i ∷ []

abbrev pub param_children : Node → List ℕ
param_children node =
    if_child node.int_child
    ++ if_child node.uint_child
    ++ if_child node.double_child
    ++ if_child node.string_child
    ++ if_child node.path_child

abbrev pub child_indices : Assoc ℕ → List ℕ
child_indices [] = []
child_indices ((f, c) ∷ children) = c ∷ child_indices children

-- A loop over nodes, each optimized in its turn.
unfoldable pub optimize_each : (ℕ → Trie → Option Trie) → List ℕ → Trie → Option Trie
optimize_each go [] nodes = some nodes
optimize_each go (x ∷ xs) nodes = elim (go x nodes) [
  | none ↦ none
  | some nodes' ↦ optimize_each go xs nodes'
]

-- What `optimizeNode` does behind the children for parameters.
unfoldable pub optimize_children : (ℕ → Trie → Option Trie) → ℕ → Trie → Option Trie
optimize_children go idx nodes =
    let node = node_at nodes idx in
    if is_empty node.children
    then some nodes
    else if all_simple nodes node.children
    then go idx (merge_at idx nodes)
    else optimize_each go (child_indices node.children) nodes

unfoldable pub optimize_node : ℕ → ℕ → Trie → Option Trie
optimize_node zero idx nodes = none
optimize_node (suc fuel) idx nodes =
    elim (optimize_each (optimize_node fuel) (param_children (node_at nodes idx)) nodes) [
      | none ↦ none
      | some nodes' ↦ optimize_children (optimize_node fuel) idx nodes'
    ]

unfoldable pub validate : ℕ → Trie → Option Trie
validate fuel nodes = if is_simple_node (node_at nodes 0) then optimize_node fuel 0 nodes else none
