-- ===== src/Tests/Optimized.antt =====
-- A trie with the route /x, before and after it is validated.
use bmcweb.Prelude.{length, suc, ◌+◌, ◌≡◌, refl, some, [], ◌∷◌, codes}
use bmcweb.Routing.{Trie, blank_node, find}
use bmcweb.Routing.Optimize.{
  optimize_node, optimize_each, optimize_children, all_simple, merge_children, put_all, put_child,
  validate,
}
use bmcweb.Routing.Optimize.Ranks.{budget}
use bmcweb.Routing.Built.{empty, adds, find-validate_built}
use bmcweb.Routing.Add.{added, add, add_from, finish, piece_step, param_step, next_param}
use bmcweb.Prelude.Assoc.{lookup}
use bmcweb.Tests.Routing.{no_numbers}

abbrev chain : Trie
chain =
    record blank_node { children = (codes "/", 1) ∷ [] }
    ∷ record blank_node { children = (codes "x", 2) ∷ [] }
    ∷ record blank_node { rule_index = 2 }
    ∷ []

joins :
    validate 6 chain
    ≡ some (
        record blank_node { children = (codes "/x", 2) ∷ [] }
        ∷ record blank_node { children = (codes "x", 2) ∷ [] }
        ∷ record blank_node { rule_index = 2 }
        ∷ [])
unfolding validate optimize_node optimize_each optimize_children all_simple merge_children put_all
    put_child
joins = refl

adds_x : add (codes "/x") 2 (blank_node ∷ []) ≡ added chain
unfolding add add_from finish piece_step param_step next_param lookup
adds_x = refl

find-validate_built_example :
    (nodes' : Trie) × (validate (suc (budget (length chain) + length chain)) chain ≡ some nodes')
    × ((find no_numbers nodes' (codes "/x")).0 ≡ (find no_numbers chain (codes "/x")).0)
find-validate_built_example =
    find-validate_built no_numbers chain (codes "/x") (adds (codes "/x") 2 adds_x empty) refl
