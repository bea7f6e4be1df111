-- ===== src/Routing/Built.antt =====
-- The tries that the program makes with `Trie::add` of http/routing.h and then optimizes.
use bmcweb.Prelude.{
  ℕ, zero, suc, ◌+◌, ◌-◌, ◌<◌, ◌≡◌, subst, inl, inr, true, some, ◌==◌, [], ◌∷◌, Bytes, length, All,
  All-append, Bool-cases, arith,
}
use bmcweb.Prelude.Assoc.{Assoc}
use bmcweb.Routing.{Trie, blank_node, node_at, Parsers, find}
use bmcweb.Routing.Add.{added, add}
use bmcweb.Routing.Singles.{HasSingles, add-HasSingles, singles-IsWellFormed}
use bmcweb.Routing.Forward.{IsBehind, IsForward, IsHeaded, add-IsHeaded}
use bmcweb.Routing.Optimize.{is_simple_node, validate, if_child}
use bmcweb.Routing.Optimize.Ranks.{budget, KidsBelow, IsRanked}
use bmcweb.Routing.Optimize.Same.{find-validate}

-- A new trie, and what adding routes makes of it.
pub data IsBuilt : Trie → Type 0 where
  empty : IsBuilt (blank_node ∷ [])
  adds :
      {nodes out : Trie} (url : Bytes) (rule_index : ℕ)
      → add url rule_index nodes ≡ added out
      → IsBuilt nodes
      → IsBuilt out

record IsGood (nodes : Trie) : Type 0 where
  singles : All HasSingles nodes
  headed : IsHeaded nodes

empty-IsForward : IsForward (blank_node ∷ [])
empty-IsForward zero = (tt, tt, tt, tt, tt, tt)
empty-IsForward (suc x) = (tt, tt, tt, tt, tt, tt)

IsBuilt-IsGood : {nodes : Trie} → IsBuilt nodes → IsGood nodes
IsBuilt-IsGood empty = record { singles = ((tt, tt), tt); headed = (empty-IsForward, omega arith) }
IsBuilt-IsGood (adds url rule_index e before) =
    let h = IsBuilt-IsGood before in
    record {
      singles = add-HasSingles url rule_index _ _ h.singles e;
      headed = add-IsHeaded url rule_index _ _ h.headed e;
    }

-- The rank of a node: how far it stands from the end.
abbrev from_end : Trie → ℕ → ℕ
from_end nodes i = length nodes - i

module _ (nodes : Trie) where
  opt_below :
      (x c : ℕ)
      → All (IsBehind x (length nodes)) (if_child c)
      → All (λ c. from_end nodes c < from_end nodes x) (if_child c)
  opt_below x c h = elim (Bool-cases (c == 0)) [
    | inl e ↦ rw e tt
    | inr e ↦ let (above, below) = (rw e at h).0 in rw e (omega arith, tt)
  ]

  kids_below :
      (x : ℕ) (children : Assoc ℕ)
      → All (λ (kv : Bytes × ℕ). IsBehind x (length nodes) kv.1) children
      → KidsBelow (from_end nodes) (from_end nodes x) children
  kids_below x [] h = tt
  kids_below x ((f, c) ∷ children) ((above, below), h) = (omega arith, kids_below x children h)

  forward-IsRanked : IsForward nodes → IsRanked (from_end nodes) nodes
  forward-IsRanked h = record {
    params = λ x.
        let node = node_at nodes x in
        All-append (λ c. from_end nodes c < from_end nodes x) _ (if_child node.path_child)
          (All-append (λ c. from_end nodes c < from_end nodes x) _ (if_child node.string_child)
            (All-append (λ c. from_end nodes c < from_end nodes x) _ (if_child node.double_child)
              (All-append (λ c. from_end nodes c < from_end nodes x) (if_child node.int_child)
                (if_child node.uint_child) (opt_below x node.int_child (h x).0)
                (opt_below x node.uint_child (h x).1))
              (opt_below x node.double_child (h x).2))
            (opt_below x node.string_child (h x).3))
          (opt_below x node.path_child (h x).4);
    kids = λ x. kids_below x (node_at nodes x).children (h x).5;
  }

-- Whatever routes were added to a trie, `validate` ends on it, and then `find` finds for every address
-- the index that it found before. (The head of the trie is simple, else `validate` throws.)
pub find-validate_built :
    (parsers : Parsers) (nodes : Trie) (req_url : Bytes)
    → IsBuilt nodes
    → is_simple_node (node_at nodes 0) ≡ true
    → (nodes' : Trie) × (validate (suc (budget (length nodes) + length nodes)) nodes ≡ some nodes')
      × ((find parsers nodes' req_url).0 ≡ (find parsers nodes req_url).0)
find-validate_built parsers nodes req_url built simple =
    let h = IsBuilt-IsGood built in
    let whole : length nodes - 0 ≡ length nodes = omega arith in
    subst
      (λ n.
        (nodes' : Trie) × (validate (suc (budget n + n)) nodes ≡ some nodes')
        × ((find parsers nodes' req_url).0 ≡ (find parsers nodes req_url).0))
      whole
      (find-validate (from_end nodes) parsers nodes req_url (singles-IsWellFormed nodes h.singles)
        (forward-IsRanked nodes h.headed.0) simple)
