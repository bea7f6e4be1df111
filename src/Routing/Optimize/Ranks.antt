-- ===== src/Routing/Optimize/Ranks.antt =====
-- Ranks of the nodes of a trie, above their children's, and what `optimizeNode` of http/routing.h does
-- to the nodes of smaller ranks.
use bmcweb.Prelude.{
  ℕ, zero, suc, ◌+◌, ◌≤◌, ◌<◌, ◌≡◌, refl, ◌∙◌, inl, inr, false, ◌==◌, Option, some, List, [], ◌∷◌,
  Bytes, length, is_empty, All, arith, Bool-cases,
}
use bmcweb.Prelude.Assoc.{Assoc}
use bmcweb.Routing.{Trie, node_at}
use bmcweb.Routing.Optimize.{param_children, child_indices, optimize_each}
use bmcweb.Routing.Optimize.Whole.{IsWellFormed, ReachesSame}

-- The rounds that a node of a rank may take below it.
abbrev pub budget : ℕ → ℕ
budget zero = 0
budget (suc n) = budget n + suc n

pub budget_less : (a b : ℕ) → a < b → budget a + a < budget b
budget_less a zero h = absurd (omega arith)
budget_less a (suc b) h = elim (Bool-cases (a == b)) [
  | inl e ↦ ground arith
  | inr e ↦ let less : a < b = ground arith in let ih = budget_less a b less in omega arith
]

module _ (rank : ℕ → ℕ) where
  abbrev pub KidsBelow : ℕ → Assoc ℕ → Type 0
  KidsBelow r children = All (λ (kv : Bytes × ℕ). rank kv.1 < r) children

  -- A node's children have smaller ranks.
  pub record IsRanked (nodes : Trie) : Type 0 where
    pub params : (x : ℕ) → All (λ c. rank c < rank x) (param_children (node_at nodes x))
    pub kids : (x : ℕ) → KidsBelow (rank x) (node_at nodes x).children

  -- What optimizing nodes of ranks below `r` does to a trie.
  pub record IsOptimized (r : ℕ) (nodes nodes' : Trie) : Type 0 where
    pub well : IsWellFormed nodes'
    pub ranked : IsRanked nodes'
    pub same : ReachesSame nodes nodes'
    pub kept : (y : ℕ) → r ≤ rank y → node_at nodes' y ≡ node_at nodes y

  pub unchanged :
      (r : ℕ) (nodes : Trie) → IsWellFormed nodes → IsRanked nodes → IsOptimized r nodes nodes
  unchanged r nodes w k = record {
    well = w;
    ranked = k;
    same = λ parsers t i out h. (λ x. x, λ x. x);
    kept = λ y h. refl;
  }

  pub followed :
      (r r' : ℕ) (a b c : Trie)
      → r ≤ r'
      → IsOptimized r a b
      → IsOptimized r' b c
      → IsOptimized r' a c
  followed r r' a b c le h k = record {
    well = k.well;
    ranked = k.ranked;
    same = λ parsers t i out ne. (
      λ x. (k.same parsers t i out ne).0 ((h.same parsers t i out ne).0 x),
      λ x. (h.same parsers t i out ne).1 ((k.same parsers t i out ne).1 x),
    );
    kept = λ y q. k.kept y q ∙ h.kept y (omega arith);
  }

  -- `go` ends on every node of a rank below `r`.
  abbrev pub Ends : (ℕ → Trie → Option Trie) → ℕ → Type 0
  Ends go r =
      (x : ℕ) (nodes : Trie)
      → rank x < r
      → IsWellFormed nodes
      → IsRanked nodes
      → (nodes' : Trie) × (go x nodes ≡ some nodes') × IsOptimized (suc (rank x)) nodes nodes'

  pub optimize_each-Ends :
      (go : ℕ → Trie → Option Trie) (r : ℕ) (xs : List ℕ) (nodes : Trie)
      → Ends go r
      → All (λ x. rank x < r) xs
      → IsWellFormed nodes
      → IsRanked nodes
      → (nodes' : Trie) × (optimize_each go xs nodes ≡ some nodes') × IsOptimized r nodes nodes'
  unfolding optimize_each
  optimize_each-Ends go r [] nodes ends h w k = (nodes, refl, unchanged r nodes w k)
  optimize_each-Ends go r (x ∷ xs) nodes ends (less, h) w k =
      let (next, e, first) = ends x nodes less w k in
      let (last, e', rest) = optimize_each-Ends go r xs next ends h first.well first.ranked in
      (
        last,
        rw (optimize_each, e) e',
        followed (suc (rank x)) r nodes next last (omega arith) first rest,
      )

  pub child_indices_below :
      (r : ℕ) (children : Assoc ℕ)
      → KidsBelow r children
      → All (λ x. rank x < r) (child_indices children)
  child_indices_below r [] h = tt
  child_indices_below r ((f, c) ∷ children) (p, h) = (p, child_indices_below r children h)

  pub in_range :
      (nodes : Trie) (idx : ℕ) → is_empty (node_at nodes idx).children ≡ false → idx < length nodes
  in_range [] idx e = absurd (cc)
  in_range (n ∷ nodes) zero e = omega arith
  in_range (n ∷ nodes) (suc idx) e = let less = in_range nodes idx e in omega arith

  pub positive :
      (b : ℕ) (children : Assoc ℕ)
      → is_empty children ≡ false
      → KidsBelow b children
      → (b' : ℕ) × (b ≡ suc b')
  positive b [] e h = absurd (cc)
  positive zero (kv ∷ children) e (p, h) = absurd (omega arith)
  positive (suc b) (kv ∷ children) e h = (b, refl)
