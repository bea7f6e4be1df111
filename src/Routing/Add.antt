-- ===== src/Routing/Add.antt =====
-- `Trie::add` of http/routing.h. The nodes that `newNode` makes stand at the end.
use bmcweb.Prelude.{
  ℕ, zero, suc, Bool, true, false, Option, none, some, List, [], ◌∷◌, ◌++◌, Bytes, codes,
  starts_with, length, drop, set, if◌then◌else◌, ◌==◌, ltb,
}
use bmcweb.Prelude.Assoc.{Assoc, lookup}
use bmcweb.Routing.{Node, Trie, blank_node, node_at}

pub data ParamType : Type 0 where
  int_param uint_param double_param string_param path_param : ParamType

-- `paramTraits`, in its order: the kind, and how the route spells it.
abbrev pub param_traits : List (ParamType × Bytes)
param_traits =
    (int_param, codes "<int>")
    ∷ (uint_param, codes "<uint>")
    ∷ (double_param, codes "<float>")
    ∷ (double_param, codes "<double>")
    ∷ (string_param, codes "<str>")
    ∷ (string_param, codes "<string>")
    ∷ (path_param, codes "<path>")
    ∷ []

-- The trait that comes next in the route, and its length.
abbrev pub next_trait : List (ParamType × Bytes) → Bytes → Option (ParamType × ℕ)
next_trait [] url = none
next_trait ((kind, spelling) ∷ traits) url =
    let later = next_trait traits url in
    if starts_with url spelling then some (kind, length spelling) else later

unfoldable pub next_param : Bytes → Option (ParamType × ℕ)
next_param url = next_trait param_traits url

abbrev pub param_child : ParamType → Node → ℕ
param_child int_param node = node.int_child
param_child uint_param node = node.uint_child
param_child double_param node = node.double_child
param_child string_param node = node.string_child
param_child path_param node = node.path_child

abbrev pub set_param_child : ParamType → ℕ → Node → Node
set_param_child int_param i node = record node { int_child = i }
set_param_child uint_param i node = record node { uint_child = i }
set_param_child double_param i node = record node { double_child = i }
set_param_child string_param i node = record node { string_child = i }
set_param_child path_param i node = record node { path_child = i }

-- `operator<` of `std::string`, by which the map orders the fragments.
abbrev pub text_less : Bytes → Bytes → Bool
text_less s [] = false
text_less [] (d ∷ t) = true
text_less (c ∷ s) (d ∷ t) = if c == d then text_less s t else ltb c d

-- `children.emplace`, of a fragment that is not there.
abbrev pub insert_child : Bytes → ℕ → Assoc ℕ → Assoc ℕ
insert_child piece i [] = (piece, i) ∷ []
insert_child piece i ((fragment, j) ∷ children) =
    let later = insert_child piece i children in
    if text_less piece fragment
    then (piece, i) ∷ (fragment, j) ∷ children
    else (fragment, j) ∷ later

-- The nodes with a blank one at the end, for which `link` is set in the node `idx`.
abbrev pub with_new_node : (Node → Node) → ℕ → Trie → Trie
with_new_node link idx nodes = set (nodes ++ blank_node ∷ []) idx (link (node_at nodes idx))

abbrev pub add_child : Bytes → ℕ → Node → Node
add_child piece i node = record node { children = insert_child piece i node.children }

-- The child for a parameter, made where it is missing.
unfoldable pub param_step : ParamType → ℕ → Trie → Trie × ℕ
param_step kind idx nodes =
    if param_child kind (node_at nodes idx) == 0
    then (with_new_node (set_param_child kind (length nodes)) idx nodes, length nodes)
    else (nodes, param_child kind (node_at nodes idx))

-- The child for a character, made where it is missing.
unfoldable pub piece_step : ℕ → ℕ → Trie → Trie × ℕ
piece_step c idx nodes = elim (lookup (c ∷ []) (node_at nodes idx).children) [
  | some child ↦ (nodes, child)
  | none ↦ (with_new_node (add_child (c ∷ []) (length nodes)) idx nodes, length nodes)
]

-- How `add` ends: with the route in the trie, with the exception for a route that is there, or not
-- at all, since a `<` that begins no trait leaves the loop where it is.
pub data Added : Type 0 where
  added : Trie → Added
  already_exists : Added
  runs_on : Added

unfoldable pub finish : ℕ → ℕ → Trie → Added
finish rule_index idx nodes =
    if (node_at nodes idx).rule_index == 0
    then added (set nodes idx (record (node_at nodes idx) { rule_index = rule_index }))
    else already_exists

-- The loop over what is left of the route, from the node `idx` on.
unfoldable pub add_from : ℕ → Bytes → ℕ → ℕ → Trie → Added
unfolding finish param_step piece_step
add_from fuel [] rule_index idx nodes = finish rule_index idx nodes
add_from zero (c ∷ url) rule_index idx nodes = runs_on
add_from (suc fuel) (c ∷ url) rule_index idx nodes =
    let next = piece_step c idx nodes in
    let literal = add_from fuel url rule_index next.1 next.0 in
    if c == b'<'
    then elim (next_param (c ∷ url)) [
      | none ↦ runs_on
      | some (kind, n) ↦
          let child = param_step kind idx nodes in
          add_from fuel (drop n (c ∷ url)) rule_index child.1 child.0
    ]
    else literal

unfoldable pub add : Bytes → ℕ → Trie → Added
unfolding add_from
add url rule_index nodes = add_from (length url) url rule_index 0 nodes
