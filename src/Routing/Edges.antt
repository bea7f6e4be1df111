-- ===== src/Routing/Edges.antt =====
-- The calls of `Trie::find` of http/routing.h by the index of the node that each goes to, so that two
-- tries can be compared.
use bmcweb.Prelude.{
  ℕ, zero, suc, ◌≡◌, refl, sym, subst, ap, ◌∙◌, ◌⊎◌, inl, inr, Bool, true, false, not, ◌&&◌, ◌||◌,
  ◌==◌, List, [], ◌∷◌, ◌++◌, map, Bytes, length, drop, take, get_or, starts_with, is_empty, In,
  if◌then◌else◌, Bool-cases,
}
use bmcweb.Prelude.Assoc.{Assoc}
use bmcweb.Routing.{
  RoutingParams, Node, Trie, node_at, Number, Parsers, Visit, is_digit, push_int, push_uint,
  push_double, push_string, number_visits, text_visits, segment_length, child_visits, visits,
}
use bmcweb.Routing.Least.{Walk}

-- A call of `find`, by the index of its node.
abbrev pub Target : Type 0
Target = ℕ × Bytes × RoutingParams

abbrev pub visit : Trie → Target → Visit
visit nodes (x, rest, params) = record { node = node_at nodes x; rest = rest; params = params }

abbrev pub number_targets :
    ℕ → Bool → Number → (ℕ → RoutingParams → RoutingParams) → Bytes → RoutingParams → List Target
number_targets child may_begin number push rest params =
    if not (child == 0) && may_begin && not number.is_out_of_range && not (number.consumed == 0)
    then (child, drop number.consumed rest, push number.value params) ∷ []
    else []

abbrev pub text_targets : ℕ → ℕ → Bytes → RoutingParams → List Target
text_targets child n rest params =
    if not (child == 0) && not (n == 0)
    then (child, drop n rest, push_string (take n rest) params) ∷ []
    else []

-- The calls for parameters, which do not read the other children.
abbrev pub param_targets : Parsers → Node → Bytes → RoutingParams → List Target
param_targets parsers node rest params =
    let c = get_or rest 0 0 in
    number_targets node.int_child (is_digit c || c == b'+' || c == b'-') (parsers.strtoll rest)
      push_int rest params
    ++ number_targets node.uint_child (is_digit c || c == b'+') (parsers.strtoull rest) push_uint
        rest params
    ++ number_targets node.double_child (is_digit c || c == b'+' || c == b'-' || c == b'.')
        (parsers.strtod rest) push_double rest params
    ++ text_targets node.string_child (segment_length rest) rest params
    ++ text_targets node.path_child (length rest) rest params

abbrev pub child_targets : Assoc ℕ → Bytes → RoutingParams → List Target
child_targets [] rest params = []
child_targets ((fragment, i) ∷ children) rest params =
    let others = child_targets children rest params in
    if starts_with rest fragment then (i, drop (length fragment) rest, params) ∷ others else others

abbrev pub targets : Parsers → Node → Bytes → RoutingParams → List Target
targets parsers node rest params =
    param_targets parsers node rest params ++ child_targets node.children rest params

module _ {A : Type 0} {B : Type 0} (f : A → B) where
  map-++ : (xs ys : List A) → map f (xs ++ ys) ≡ map f xs ++ map f ys
  map-++ [] ys = refl
  map-++ (x ∷ xs) ys = ap (◌∷◌ (f x)) (map-++ xs ys)

  map-if : (b : Bool) (a : A) → map f (if b then a ∷ [] else []) ≡ (if b then f a ∷ [] else [])
  map-if true a = refl
  map-if false a = refl

  join :
      (vs ws : List B) (xs ys : List A)
      → vs ≡ map f xs
      → ws ≡ map f ys
      → vs ++ ws ≡ map f (xs ++ ys)
  join vs ws xs ys e g = ap (λ zs. zs ++ ws) e ∙ ap (λ zs. map f xs ++ zs) g ∙ sym (map-++ xs ys)

  pub In-map_to : (a : A) (xs : List A) → In a xs → In (f a) (map f xs)
  In-map_to a [] m = m
  In-map_to a (x ∷ xs) (inl e) = inl (ap f e)
  In-map_to a (x ∷ xs) (inr m) = inr (In-map_to a xs m)

  pub In-map_from : (b : B) (xs : List A) → In b (map f xs) → (a : A) × In a xs × (b ≡ f a)
  In-map_from b [] m = absurd m
  In-map_from b (x ∷ xs) (inl e) = (x, inl refl, e)
  In-map_from b (x ∷ xs) (inr m) = let (a, k, e) = In-map_from b xs m in (a, inr k, e)

module _ {A : Type 0} where
  pub In-++ : (a : A) (xs ys : List A) → In a (xs ++ ys) → In a xs ⊎ In a ys
  In-++ a [] ys m = inr m
  In-++ a (x ∷ xs) ys (inl e) = inl (inl e)
  In-++ a (x ∷ xs) ys (inr m) = elim (In-++ a xs ys m) [ inl k ↦ inl (inr k) | inr k ↦ inr k ]

  pub In-++_left : (a : A) (xs ys : List A) → In a xs → In a (xs ++ ys)
  In-++_left a [] ys m = absurd m
  In-++_left a (x ∷ xs) ys (inl e) = inl e
  In-++_left a (x ∷ xs) ys (inr m) = inr (In-++_left a xs ys m)

  pub In-++_right : (a : A) (xs ys : List A) → In a ys → In a (xs ++ ys)
  In-++_right a [] ys m = m
  In-++_right a (x ∷ xs) ys m = inr (In-++_right a xs ys m)

child_visits_lem :
    (nodes : Trie) (children : Assoc ℕ) (v : Visit)
    → child_visits nodes children v ≡ map (visit nodes) (child_targets children v.rest v.params)
unfolding child_visits
child_visits_lem nodes [] v = refl
child_visits_lem nodes ((fragment, i) ∷ children) v =
    elim (Bool-cases (starts_with v.rest fragment)) [
      | inl e ↦ rw e (
          ap (◌∷◌ (visit nodes (i, drop (length fragment) v.rest, v.params)))
            (child_visits_lem nodes children v))
      | inr e ↦ rw e (child_visits_lem nodes children v)
    ]

number_visits_lem :
    (nodes : Trie) (child : ℕ) (may_begin : Bool) (number : Number)
    (push : ℕ → RoutingParams → RoutingParams) (v : Visit)
    → number_visits nodes child may_begin number push v
      ≡ map (visit nodes) (number_targets child may_begin number push v.rest v.params)
unfolding number_visits
number_visits_lem nodes child may_begin number push v = sym (map-if (visit nodes) _ _)

text_visits_lem :
    (nodes : Trie) (child n : ℕ) (v : Visit)
    → text_visits nodes child n v ≡ map (visit nodes) (text_targets child n v.rest v.params)
unfolding text_visits
text_visits_lem nodes child n v = sym (map-if (visit nodes) _ _)

-- The calls that `find` makes are those to the targets.
pub visits_lem :
    (parsers : Parsers) (nodes : Trie) (v : Visit)
    → visits parsers nodes v ≡ map (visit nodes) (targets parsers v.node v.rest v.params)
unfolding visits
visits_lem parsers nodes v =
    join (visit nodes) _ _ _ _
      (join (visit nodes) _ _ _ _
        (join (visit nodes) _ _ _ _
          (join (visit nodes) _ _ _ _
            (join (visit nodes) _ _ _ _ (number_visits_lem nodes _ _ _ _ v)
              (number_visits_lem nodes _ _ _ _ v))
            (number_visits_lem nodes _ _ _ _ v))
          (text_visits_lem nodes _ _ v))
        (text_visits_lem nodes _ _ v))
      (child_visits_lem nodes v.node.children v)

-- A walk of `n` calls from a target on, by indices.
abbrev pub Route : Parsers → Trie → ℕ → Target → ℕ → RoutingParams → Type 0
Route parsers nodes zero (x, rest, params) i out =
    (is_empty rest ≡ true) × ((node_at nodes x).rule_index ≡ i) × (params ≡ out)
Route parsers nodes (suc n) (x, rest, params) i out =
    (is_empty rest ≡ false)
    × ((t : Target) × In t (targets parsers (node_at nodes x) rest params)
        × Route parsers nodes n t i out)

pub Route-Walk :
    (parsers : Parsers) (nodes : Trie) (n : ℕ) (t : Target) (i : ℕ) (out : RoutingParams)
    → Route parsers nodes n t i out
    → Walk parsers nodes n (visit nodes t) i out
Route-Walk parsers nodes zero (x, rest, params) i out r = r
Route-Walk parsers nodes (suc n) (x, rest, params) i out (e, (t, m, r)) = (
  e,
  (
    visit nodes t,
    subst (In (visit nodes t)) (sym (visits_lem parsers nodes (visit nodes (x, rest, params))))
        (In-map_to (visit nodes) t _ m),
    Route-Walk parsers nodes n t i out r,
  ),
)

pub Walk-Route :
    (parsers : Parsers) (nodes : Trie) (n : ℕ) (t : Target) (i : ℕ) (out : RoutingParams)
    → Walk parsers nodes n (visit nodes t) i out
    → Route parsers nodes n t i out
Walk-Route parsers nodes zero (x, rest, params) i out r = r
Walk-Route parsers nodes (suc n) (x, rest, params) i out (e, (v, m, w)) =
    let (t, inside, same) =
      In-map_from (visit nodes) v _
        (subst (In v) (visits_lem parsers nodes (visit nodes (x, rest, params))) m) in
    (
      e,
      (
        t,
        inside,
        Walk-Route parsers nodes n t i out (subst (λ u. Walk parsers nodes n u i out) same w),
      ),
    )

-- What a call for a fragment is.
pub child_targets-intro :
    (children : Assoc ℕ) (fragment : Bytes) (i : ℕ) (rest : Bytes) (params : RoutingParams)
    → In (fragment, i) children
    → starts_with rest fragment ≡ true
    → In (i, drop (length fragment) rest, params) (child_targets children rest params)
child_targets-intro [] fragment i rest params m e = absurd m
child_targets-intro ((g, j) ∷ children) fragment i rest params (inl s) e =
    subst
      (λ kv.
        In (i, drop (length fragment) rest, params) (child_targets (kv ∷ children) rest params))
      s (rw e (inl refl))
child_targets-intro ((g, j) ∷ children) fragment i rest params (inr m) e =
    elim (Bool-cases (starts_with rest g)) [
      | inl h ↦ rw h (inr (child_targets-intro children fragment i rest params m e))
      | inr h ↦ rw h (child_targets-intro children fragment i rest params m e)
    ]

pub child_targets-elim :
    (children : Assoc ℕ) (rest : Bytes) (params : RoutingParams) (t : Target)
    → In t (child_targets children rest params)
    → (fragment : Bytes) × In (fragment, t.0) children
      × (starts_with rest fragment ≡ true)
      × (t ≡ (t.0, drop (length fragment) rest, params))
child_targets-elim [] rest params t m = absurd m
child_targets-elim ((g, j) ∷ children) rest params t m = elim (Bool-cases (starts_with rest g)) [
  | inl h ↦ elim (rw h at m) [
    | inl e ↦ (
      g,
      inl (ap (λ (u : Target). (g, u.0)) e),
      h,
      e ∙ ap (λ (u : Target). (u.0, drop (length g) rest, params)) (sym e),
    )
    | inr k ↦
        let (f, inside, s, e) = child_targets-elim children rest params t k in (f, inr inside, s, e)
  ]
  | inr h ↦
      let (f, inside, s, e) = child_targets-elim children rest params t (rw h at m) in
      (f, inr inside, s, e)
]
