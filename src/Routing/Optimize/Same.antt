-- ===== src/Routing/Optimize/Same.antt =====
-- `Trie::find` of http/routing.h before and after `Trie::validate`.
use bmcweb.Prelude.{ℕ, zero, suc, ◌+◌, ◌≤◌, ◌≡◌, ◌≢◌, refl, ◌∙◌, true, some, Bytes, arith, if_true}
use bmcweb.Routing.{RoutingParams, Trie, node_at, Parsers, no_params, find}
use bmcweb.Routing.Least.{Matches, find_sound, find_least}
use bmcweb.Routing.Edges.{Route, Route-Walk, Walk-Route}
use bmcweb.Routing.Optimize.{is_simple_node, validate}
use bmcweb.Routing.Optimize.Whole.{IsWellFormed, ReachesSame}
use bmcweb.Routing.Optimize.Ranks.{budget, IsRanked}
use bmcweb.Routing.Optimize.Total.{node_ends}

-- What matches in one trie is found, with no greater index, in a trie that reaches as much.
found_in :
    (parsers : Parsers) (nodes nodes' : Trie) (req_url : Bytes)
    → IsWellFormed nodes'
    → ((i : ℕ) (out : RoutingParams)
        → i ≢ 0
        → Matches parsers nodes req_url i out
        → Matches parsers nodes' req_url i out)
    → (find parsers nodes req_url).0 ≢ 0
    → ((find parsers nodes' req_url).0 ≢ 0)
      × ((find parsers nodes' req_url).0 ≤ (find parsers nodes req_url).0)
found_in parsers nodes nodes' req_url w go h =
    find_least parsers nodes' req_url (find parsers nodes req_url).0 (find parsers nodes req_url).1
      w.fragments (go _ _ h (find_sound parsers nodes req_url h)) h

transfer-Matches :
    (parsers : Parsers) (nodes nodes' : Trie) (req_url : Bytes) (i : ℕ) (out : RoutingParams)
    → ((n : ℕ) × Route parsers nodes n (0, req_url, no_params) i out
        → (n : ℕ) × Route parsers nodes' n (0, req_url, no_params) i out)
    → Matches parsers nodes req_url i out
    → Matches parsers nodes' req_url i out
transfer-Matches parsers nodes nodes' req_url i out go (n, walk) =
    let (m, route) = go (n, Walk-Route parsers nodes n (0, req_url, no_params) i out walk) in
    (m, Route-Walk parsers nodes' m (0, req_url, no_params) i out route)

same_found :
    (parsers : Parsers) (nodes nodes' : Trie) (req_url : Bytes)
    → IsWellFormed nodes
    → IsWellFormed nodes'
    → ReachesSame nodes nodes'
    → (find parsers nodes' req_url).0 ≡ (find parsers nodes req_url).0
same_found parsers nodes nodes' req_url w w' same =
    let there = found_in parsers nodes nodes' req_url w' (λ i out h.
      transfer-Matches parsers nodes nodes' req_url i out
        (same parsers (0, req_url, no_params) i out h).0) in
    let back = found_in parsers nodes' nodes req_url w (λ i out h.
      transfer-Matches parsers nodes' nodes req_url i out
        (same parsers (0, req_url, no_params) i out h).1) in
    by_zero (find parsers nodes req_url).0 (find parsers nodes' req_url).0 there back
  where
    by_zero : (a b : ℕ) → (a ≢ 0 → (b ≢ 0) × (b ≤ a)) → (b ≢ 0 → (a ≢ 0) × (a ≤ b)) → b ≡ a
    by_zero zero zero h k = refl
    by_zero zero (suc b) h k = absurd ((k (λ e. absurd (omega (arith, e)))).0 refl)
    by_zero (suc a) zero h k = absurd ((h (λ e. absurd (omega (arith, e)))).0 refl)
    by_zero (suc a) (suc b) h k =
        let (_, le) = h (λ e. absurd (omega (arith, e))) in
        let (_, ge) = k (λ e. absurd (omega (arith, e))) in omega arith

-- `validate` ends, with as many rounds as the rank of the head allows, and `find` finds in the optimized
-- trie the index that it finds in the trie. (The head is simple, no fragment is empty, no fragment of a
-- node begins another of it, and each node is ranked above its children.)
pub find-validate :
    (rank : ℕ → ℕ) (parsers : Parsers) (nodes : Trie) (req_url : Bytes)
    → IsWellFormed nodes
    → IsRanked rank nodes
    → is_simple_node (node_at nodes 0) ≡ true
    → (nodes' : Trie) × (validate (suc (budget (rank 0) + rank 0)) nodes ≡ some nodes')
      × ((find parsers nodes' req_url).0 ≡ (find parsers nodes req_url).0)
unfolding validate
find-validate rank parsers nodes req_url w k simple =
    let (nodes', e, o) =
      node_ends rank (suc (budget (rank 0) + rank 0)) 0 (rank 0) nodes w k (k.kids 0) (omega arith)
        (omega arith) in
    (nodes', if_true _ _ _ simple ∙ e, same_found parsers nodes nodes' req_url w o.well o.same)
