-- ===== src/Routing/Least.antt =====
-- `Trie::find` of http/routing.h against the walks through the trie.
use bmcweb.Prelude.{
  ℕ, zero, suc, ◌<◌, ◌≤◌, ◌≡◌, ◌≢◌, refl, sym, ap, ◌∙◌, ◌⊎◌, inl, inr, true, false, not, ◌&&◌, ◌||◌,
  ◌==◌, ltb, List, [], ◌∷◌, map, Bytes, length, is_empty, In, All, All-In, arith, Bool-cases,
}
use bmcweb.Routing.{
  RoutingParams, no_params, Trie, node_at, Parsers, Visit, visits, Found, update_found, update_all,
  find_from, first_visit, find,
}
use bmcweb.Routing.Walks.{HasFragments, visits-IsNext}

-- A walk of `n` calls that begins at `v` and uses up the address: it ends at a node with the index
-- `i`, and its parameters are `out`.
abbrev pub Walk : Parsers → Trie → ℕ → Visit → ℕ → RoutingParams → Type 0
Walk parsers nodes zero v i out =
    (is_empty v.rest ≡ true) × (v.node.rule_index ≡ i) × (v.params ≡ out)
Walk parsers nodes (suc n) v i out =
    (is_empty v.rest ≡ false)
    × ((t : Visit) × In t (visits parsers nodes v) × Walk parsers nodes n t i out)

-- A rule of the trie matches the address.
abbrev pub Matches : Parsers → Trie → Bytes → ℕ → RoutingParams → Type 0
Matches parsers nodes req_url i out =
    (n : ℕ) × Walk parsers nodes n (first_visit nodes req_url) i out

update_all-In :
    (found : Found) (rets : List Found)
    → (update_all found rets ≡ found) ⊎ In (update_all found rets) rets
unfolding update_all
update_all-In found [] = inl refl
update_all-In found (ret ∷ rets) = elim (update_all-In (update_found found ret) rets) [
  | inr m ↦ inr (inr m)
  | inl e ↦ elim (Bool-cases (not (ret.0 == 0) && (found.0 == 0 || ltb ret.0 found.0))) [
    | inl f ↦ inr (inl (e ∙ rw f refl))
    | inr f ↦ inl (e ∙ rw f refl)
  ]
]

-- `a` is an index no worse than `b`.
abbrev Beats : ℕ → ℕ → Type 0
Beats a b = (a ≢ 0) × (a ≤ b)

update_found_least :
    (found ret : Found) (i : ℕ) → Beats found.0 i → Beats (update_found found ret).0 i
update_found_least found ret i h = ground arith

update_found_new : (found ret : Found) → ret.0 ≢ 0 → Beats (update_found found ret).0 ret.0
update_found_new found ret h = ground arith

update_all_keeps :
    (found : Found) (rets : List Found) (i : ℕ)
    → Beats found.0 i
    → Beats (update_all found rets).0 i
unfolding update_all
update_all_keeps found [] i h = h
update_all_keeps found (ret ∷ rets) i h =
    update_all_keeps (update_found found ret) rets i (update_found_least found ret i h)

update_all_least :
    (found ret : Found) (rets : List Found)
    → In ret rets
    → ret.0 ≢ 0
    → Beats (update_all found rets).0 ret.0
unfolding update_all
update_all_least found ret [] m h = absurd m
update_all_least found ret (r ∷ rets) (inl e) h =
    update_all_keeps (update_found found r) rets ret.0 (rw e (update_found_new found r (rw e at h)))
update_all_least found ret (r ∷ rets) (inr m) h =
    update_all_least (update_found found r) ret rets m h

In-map :
    (f : Visit → Found) (r : Found) (vs : List Visit)
    → In r (map f vs)
    → (v : Visit) × In v vs × (f v ≡ r)
In-map f r [] m = absurd m
In-map f r (v ∷ vs) (inl e) = (v, inl refl, sym e)
In-map f r (v ∷ vs) (inr m) = let (t, k, e) = In-map f r vs m in (t, inr k, e)

map-In : (f : Visit → Found) (v : Visit) (vs : List Visit) → In v vs → In (f v) (map f vs)
map-In f v [] m = absurd m
map-In f v (w ∷ vs) (inl e) = inl (rw e refl)
map-In f v (w ∷ vs) (inr m) = inr (map-In f v vs m)

find_from_sound :
    (parsers : Parsers) (nodes : Trie) (fuel : ℕ) (v : Visit) (r : Found)
    → find_from parsers nodes fuel v ≡ r
    → r.0 ≢ 0
    → (n : ℕ) × Walk parsers nodes n v r.0 r.1
unfolding find_from
find_from_sound parsers nodes zero v r q h = absurd (h (ap (λ x. x.0) (sym q)))
find_from_sound parsers nodes (suc fuel) v r q h = elim (Bool-cases (is_empty v.rest)) [
  | inl e ↦
      let last : (v.node.rule_index, v.params) ≡ r = rw e at q in
      (0, (e, ap (λ x. x.0) last, ap (λ x. x.1) last))
  | inr e ↦
      let go = find_from parsers nodes fuel in
      let best : update_all (0, no_params) (map go (visits parsers nodes v)) ≡ r = rw e at q in
      elim (update_all-In (0, no_params) (map go (visits parsers nodes v))) [
        | inl z ↦ absurd (h (ap (λ x. x.0) (sym best ∙ z)))
        | inr m ↦
            let (t, inside, same) = In-map go _ (visits parsers nodes v) m in
            let (n, walk) = find_from_sound parsers nodes fuel t r (same ∙ best) h in
            (suc n, (e, (t, inside, walk)))
      ]
]

find_from_least :
    (parsers : Parsers) (nodes : Trie) (n fuel : ℕ) (v : Visit) (i : ℕ) (out : RoutingParams)
    → All HasFragments nodes
    → HasFragments v.node
    → length v.rest < fuel
    → Walk parsers nodes n v i out
    → i ≢ 0
    → Beats (find_from parsers nodes fuel v).0 i
unfolding find_from
find_from_least parsers nodes n zero v i out w k lt walk h = absurd (omega arith)
find_from_least parsers nodes zero (suc fuel) v i out w k lt (e, index, _) h =
    rw (e, index) (h, omega arith)
find_from_least parsers nodes (suc n) (suc fuel) v i out w k lt (e, (t, m, walk)) h =
    let (less, fragments) =
      All-In _ t (visits parsers nodes v) (visits-IsNext parsers nodes v w k e) m in
    let (some_index, small) =
      find_from_least parsers nodes n fuel t i out w fragments (omega arith) walk h in
    let (found, least) =
      update_all_least (0, no_params) (find_from parsers nodes fuel t)
        (map (find_from parsers nodes fuel) (visits parsers nodes v))
        (map-In (find_from parsers nodes fuel) t (visits parsers nodes v) m) some_index in
    rw e (found, omega arith)

head-HasFragments : (nodes : Trie) → All HasFragments nodes → HasFragments (node_at nodes 0)
head-HasFragments [] h = tt
head-HasFragments (n ∷ nodes) (p, h) = p

-- What `find` returns with an index other than 0 is a match: a walk through the trie takes the whole
-- address to a node with that index, and the parameters are those that were read on the way.
pub find_sound :
    (parsers : Parsers) (nodes : Trie) (req_url : Bytes)
    → (find parsers nodes req_url).0 ≢ 0
    → Matches parsers nodes req_url (find parsers nodes req_url).0 (find parsers nodes req_url).1
unfolding find
find_sound parsers nodes req_url h =
    find_from_sound parsers nodes (suc (length req_url)) (first_visit nodes req_url) _ refl h

-- If any rule of the trie matches the address, `find` returns a rule, and none that matches has a
-- smaller index. (No fragment of the trie is empty.)
pub find_least :
    (parsers : Parsers) (nodes : Trie) (req_url : Bytes) (i : ℕ) (out : RoutingParams)
    → All HasFragments nodes
    → Matches parsers nodes req_url i out
    → i ≢ 0
    → ((find parsers nodes req_url).0 ≢ 0) × ((find parsers nodes req_url).0 ≤ i)
unfolding find
find_least parsers nodes req_url i out w (n, walk) h =
    find_from_least parsers nodes n (suc (length req_url)) (first_visit nodes req_url) i out w
      (head-HasFragments nodes w) (omega arith) walk h
