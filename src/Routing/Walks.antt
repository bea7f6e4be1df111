-- ===== src/Routing/Walks.antt =====
-- The calls that `Trie::find` of http/routing.h makes of itself: each leaves less of the address.
use bmcweb.Prelude.{
  ℕ, zero, suc, ◌<◌, ◌≡◌, ◌≢◌, refl, inl, inr, Bool, false, not, ◌&&◌, [], ◌∷◌, Bytes, length,
  length-drop, ◌==◌, drop, starts_with, is_empty, All, All-append, arith, Bool-cases,
}
use bmcweb.Prelude.Assoc.{Assoc}
use bmcweb.Routing.{
  RoutingParams, Node, Trie, node_at, Number, Parsers, Visit, number_visits, text_visits,
  child_visits, visits, int_visits, uint_visits, double_visits, string_visits, path_visits,
}

-- No fragment is empty.
abbrev pub HasFragments : Node → Type 0
HasFragments node = All (λ kv. kv.0 ≢ []) node.children

-- A call that a call makes: less is left, and its node's fragments are not empty.
abbrev pub IsNext : Visit → Visit → Type 0
IsNext v t = (length t.rest < length v.rest) × HasFragments t.node

pub node_at-HasFragments :
    (nodes : Trie) (i : ℕ) → All HasFragments nodes → HasFragments (node_at nodes i)
node_at-HasFragments [] i h = tt
node_at-HasFragments (n ∷ nodes) zero (p, h) = p
node_at-HasFragments (n ∷ nodes) (suc i) (p, h) = node_at-HasFragments nodes i h

empty_of_length : (s : Bytes) → length s ≡ 0 → s ≡ []
empty_of_length [] e = refl
empty_of_length (c ∷ s) e = cc

shorter :
    (n : ℕ) (rest : Bytes) → n ≢ 0 → is_empty rest ≡ false → length (drop n rest) < length rest
shorter n [] h k = absurd (cc)
shorter zero (c ∷ rest) h k = absurd (h refl)
shorter (suc n) (c ∷ rest) h k = omega (arith, length-drop n rest)

number_visits-IsNext :
    (nodes : Trie) (child : ℕ) (may_begin : Bool) (number : Number)
    (push : ℕ → RoutingParams → RoutingParams) (v : Visit)
    → All HasFragments nodes
    → is_empty v.rest ≡ false
    → All (IsNext v) (number_visits nodes child may_begin number push v)
unfolding number_visits
number_visits-IsNext nodes child may_begin number push v w h =
    elim (Bool-cases
      (not (child == 0) && may_begin && not number.is_out_of_range && not (number.consumed == 0))) [
        | inl e ↦ rw e (
          (
            shorter number.consumed v.rest (λ z. ground arith) h,
            node_at-HasFragments nodes child w,
          ),
          tt,
        )
        | inr e ↦ rw e tt
      ]

text_visits-IsNext :
    (nodes : Trie) (child n : ℕ) (v : Visit)
    → All HasFragments nodes
    → is_empty v.rest ≡ false
    → All (IsNext v) (text_visits nodes child n v)
unfolding text_visits
text_visits-IsNext nodes child n v w h = elim (Bool-cases (not (child == 0) && not (n == 0))) [
  | inl e ↦ rw e ((shorter n v.rest (λ z. ground arith) h, node_at-HasFragments nodes child w), tt)
  | inr e ↦ rw e tt
]

child_visits-IsNext :
    (nodes : Trie) (children : Assoc ℕ) (v : Visit)
    → All HasFragments nodes
    → All (λ kv. kv.0 ≢ []) children
    → is_empty v.rest ≡ false
    → All (IsNext v) (child_visits nodes children v)
unfolding child_visits
child_visits-IsNext nodes [] v w k h = tt
child_visits-IsNext nodes ((fragment, i) ∷ children) v w (ne, k) h =
    elim (Bool-cases (starts_with v.rest fragment)) [
      | inl e ↦ rw e (
        (
          shorter (length fragment) v.rest (λ z. ne (empty_of_length fragment z)) h,
          node_at-HasFragments nodes i w,
        ),
        child_visits-IsNext nodes children v w k h,
      )
      | inr e ↦ rw e (child_visits-IsNext nodes children v w k h)
    ]

-- Every call that is made from a call with some of the address left has less of it left.
pub visits-IsNext :
    (parsers : Parsers) (nodes : Trie) (v : Visit)
    → All HasFragments nodes
    → HasFragments v.node
    → is_empty v.rest ≡ false
    → All (IsNext v) (visits parsers nodes v)
unfolding visits
visits-IsNext parsers nodes v w k h =
    All-append (IsNext v) _ (child_visits nodes v.node.children v)
      (All-append (IsNext v) _ (path_visits nodes v)
        (All-append (IsNext v) _ (string_visits nodes v)
          (All-append (IsNext v) _ (double_visits parsers nodes v)
            (All-append (IsNext v) (int_visits parsers nodes v) (uint_visits parsers nodes v)
              (number_visits-IsNext nodes _ _ _ _ v w h) (number_visits-IsNext nodes _ _ _ _ v w h))
            (number_visits-IsNext nodes _ _ _ _ v w h))
          (text_visits-IsNext nodes _ _ v w h))
        (text_visits-IsNext nodes _ _ v w h))
      (child_visits-IsNext nodes v.node.children v w k h)
