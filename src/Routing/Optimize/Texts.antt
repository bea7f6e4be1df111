-- ===== src/Routing/Optimize/Texts.antt =====
-- Texts that follow each other in an address, and the calls that `Trie::find` of http/routing.h makes at a
-- simple node.
use bmcweb.Prelude.{
  ℕ, zero, suc, ◌≡◌, ◌≢◌, refl, ap, ◌∙◌, Bool, true, false, ◌||◌, ◌==◌, get_or, List, [], ◌∷◌, ◌++◌,
  Bytes, length, drop, starts_with, is_empty, arith, and_split,
}
use bmcweb.Routing.{
  RoutingParams, Number, Node, Parsers, is_digit, push_int, push_uint, push_double, segment_length,
}
use bmcweb.Routing.Edges.{Target, number_targets, text_targets, param_targets}
use bmcweb.Routing.Optimize.{has_no_params, is_simple_node}

pub starts_with-append :
    (s f g : Bytes)
    → starts_with s f ≡ true
    → starts_with (drop (length f) s) g ≡ true
    → starts_with s (f ++ g) ≡ true
starts_with-append s [] g h k = k
starts_with-append [] (c ∷ f) g h k = absurd (cc)
starts_with-append (d ∷ s) (c ∷ f) g h k = ground (arith, starts_with-append s f g)

pub starts_with-split :
    (s f g : Bytes)
    → starts_with s (f ++ g) ≡ true
    → (starts_with s f ≡ true) × (starts_with (drop (length f) s) g ≡ true)
starts_with-split s [] g h = (starts_with_nil s, h)
  where
    starts_with_nil : (s : Bytes) → starts_with s [] ≡ true
    starts_with_nil [] = refl
    starts_with_nil (c ∷ s) = refl
starts_with-split [] (c ∷ f) g h = absurd (cc)
starts_with-split (d ∷ s) (c ∷ f) g h = ground (arith, starts_with-split s f g)

pub drop-append : (s f g : Bytes) → drop (length g) (drop (length f) s) ≡ drop (length (f ++ g)) s
drop-append s [] g = refl
drop-append [] (c ∷ f) g = drop_nil (length g)
  where
    drop_nil : (n : ℕ) → drop {A = ℕ} n [] ≡ []
    drop_nil zero = refl
    drop_nil (suc n) = refl
drop-append (d ∷ s) (c ∷ f) g = drop-append s f g

pub not_empty : (s g : Bytes) → g ≢ [] → starts_with s g ≡ true → is_empty s ≡ false
not_empty s [] ne h = absurd (ne refl)
not_empty [] (c ∷ g) ne h = absurd (cc)
not_empty (d ∷ s) (c ∷ g) ne h = refl

no_number :
    (child : ℕ) (may_begin : Bool) (number : Number) (push : ℕ → RoutingParams → RoutingParams)
    (rest : Bytes) (params : RoutingParams)
    → (child == 0) ≡ true
    → number_targets child may_begin number push rest params ≡ []
no_number child may_begin number push rest params h = rw h refl

no_text :
    (child n : ℕ) (rest : Bytes) (params : RoutingParams)
    → (child == 0) ≡ true
    → text_targets child n rest params ≡ []
no_text child n rest params h = rw h refl

nil_join : (xs ys : List Target) → xs ≡ [] → ys ≡ [] → xs ++ ys ≡ []
nil_join xs ys e f = ap (λ zs. zs ++ ys) e ∙ f

-- A simple node makes no calls for parameters.
pub simple_targets :
    (parsers : Parsers) (node : Node) (rest : Bytes) (params : RoutingParams)
    → is_simple_node node ≡ true
    → param_targets parsers node rest params ≡ []
simple_targets parsers node rest params h =
    let (_, none_at_all) = and_split (node.rule_index == 0) (has_no_params node) h in
    let (four, path) = and_split _ (node.path_child == 0) none_at_all in
    let (three, string) = and_split _ (node.string_child == 0) four in
    let (two, double) = and_split _ (node.double_child == 0) three in
    let (int, uint) = and_split (node.int_child == 0) (node.uint_child == 0) two in
    let ch = get_or rest 0 0 in
    nil_join _ _
      (nil_join _ _
        (nil_join _ _
          (nil_join _ _
            (no_number node.int_child (is_digit ch || ch == b'+' || ch == b'-')
              (parsers.strtoll rest) push_int rest params int)
            (no_number node.uint_child (is_digit ch || ch == b'+') (parsers.strtoull rest) push_uint
              rest params uint))
          (no_number node.double_child (is_digit ch || ch == b'+' || ch == b'-' || ch == b'.')
            (parsers.strtod rest) push_double rest params double))
        (no_text node.string_child (segment_length rest) rest params string))
      (no_text node.path_child (length rest) rest params path)
