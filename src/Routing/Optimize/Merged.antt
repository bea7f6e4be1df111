-- ===== src/Routing/Optimize/Merged.antt =====
-- The two loops of `optimizeNode` in http/routing.h that put the children of a node's children into one
-- map: what the map holds then.
use bmcweb.Prelude.{
  ℕ, ◌≡◌, refl, sym, subst, ap, ◌⊎◌, inl, inr, [], ◌∷◌, ◌++◌, Bytes, In, All, All-In,
}
use bmcweb.Prelude.Assoc.{Assoc}
use bmcweb.Routing.{Trie, node_at}
use bmcweb.Routing.Optimize.{put_child, put_all, merge_children}
use bmcweb.Routing.Optimize.Merging.{IsMerged}
use bmcweb.Routing.Optimize.PrefixFree.{
  Apart, sym-Apart, IsApartFrom, PrefixFree, All-intro, Apart-append, Apart-append_same,
  put_child_from, put_child_self, put_child_old, put_child-Apart, put_child-PrefixFree,
}

-- Every key `f` ++ `g`, for a `g` of the children, is apart from the keys of `m`.
abbrev AreFree : Bytes → Assoc ℕ → Assoc ℕ → Type 0
AreFree f children m = All (λ (kv : Bytes × ℕ). IsApartFrom (f ++ kv.0) m) children

put_child-AreFree :
    (f g : Bytes) (d : ℕ) (children m : Assoc ℕ)
    → IsApartFrom g children
    → AreFree f children m
    → AreFree f children (put_child (f ++ g) d m)
put_child-AreFree f g d children m a h =
    All-intro (λ (kv : Bytes × ℕ). IsApartFrom (f ++ kv.0) (put_child (f ++ g) d m)) children
      (λ kv q.
        put_child-Apart (f ++ kv.0) (f ++ g) d m
          (sym-Apart (f ++ g) (f ++ kv.0)
            (Apart-append_same f g kv.0 (All-In (λ (e : Bytes × ℕ). Apart g e.0) kv children a q)))
          (All-In (λ (e : Bytes × ℕ). IsApartFrom (f ++ e.0) m) kv children h q))

-- What the inner loop makes of `m`.
record IsPut (f : Bytes) (children m merged : Assoc ℕ) : Type 0 where
  old : (e : Bytes × ℕ) → In e m → In e merged
  new : (g : Bytes) (d : ℕ) → In (g, d) children → In (f ++ g, d) merged
  from :
      (e : Bytes × ℕ) → In e merged → In e m ⊎ ((g : Bytes) × In (g, e.1) children × (e.0 ≡ f ++ g))
  free : PrefixFree merged

put_all-IsPut :
    (f : Bytes) (children m : Assoc ℕ)
    → PrefixFree children
    → PrefixFree m
    → AreFree f children m
    → IsPut f children m (put_all f children m)
unfolding put_all
put_all-IsPut f [] m c h a = record {
  old = λ e q. q;
  new = λ g d q. absurd q;
  from = λ e q. inl q;
  free = h;
}
put_all-IsPut f ((g, d) ∷ children) m (b, c) h (a, later) =
    let rest =
      put_all-IsPut f children (put_child (f ++ g) d m) c (put_child-PrefixFree (f ++ g) d m a h)
        (put_child-AreFree f g d children m b later) in
    record {
      old = λ e q. rest.old e (put_child_old (f ++ g) d m e a q);
      new = λ g' d' q. elim q [
        | inl z ↦
            rest.old (f ++ g', d')
              (subst (λ (kv : Bytes × ℕ). In (f ++ kv.0, kv.1) (put_child (f ++ g) d m)) (sym z)
                (put_child_self (f ++ g) d m a))
        | inr z ↦ rest.new g' d' z
      ];
      from = λ e q. elim (rest.from e q) [
        | inr (g', z, same) ↦ inr (g', inr z, same)
        | inl z ↦ elim (put_child_from (f ++ g) d m e z) [
          | inr y ↦ inl y
          | inl y ↦
              inr (g, inl (ap (λ (kv : Bytes × ℕ). (g, kv.1)) y), ap (λ (kv : Bytes × ℕ). kv.0) y)
        ]
      ];
      free = rest.free;
    }

-- Whatever follows `f`, the key is apart from the keys of `m`.
abbrev IsFreeUnder : Bytes → Assoc ℕ → Type 0
IsFreeUnder f m = (g : Bytes) → IsApartFrom (f ++ g) m

abbrev AllFree : Assoc ℕ → Assoc ℕ → Type 0
AllFree children m = All (λ (kv : Bytes × ℕ). IsFreeUnder kv.0 m) children

-- What the outer loop makes of `m`.
record IsMergedInto (nodes : Trie) (children m merged : Assoc ℕ) : Type 0 where
  old : (e : Bytes × ℕ) → In e m → In e merged
  new :
      (f g : Bytes) (c d : ℕ)
      → In (f, c) children
      → In (g, d) (node_at nodes c).children
      → In (f ++ g, d) merged
  from :
      (e : Bytes × ℕ)
      → In e merged
      → In e m
        ⊎ ((f : Bytes) × (c : ℕ) × (g : Bytes) × In (f, c) children
            × In (g, e.1) (node_at nodes c).children
            × (e.0 ≡ f ++ g))
  free : PrefixFree merged

put_all-AllFree :
    (nodes : Trie) (f : Bytes) (c : ℕ) (children m : Assoc ℕ)
    → IsPut f (node_at nodes c).children m (put_all f (node_at nodes c).children m)
    → IsApartFrom f children
    → AllFree children m
    → AllFree children (put_all f (node_at nodes c).children m)
put_all-AllFree nodes f c children m put a h =
    All-intro (λ (kv : Bytes × ℕ). IsFreeUnder kv.0 _) children
      (λ kv q l.
        All-intro (λ (e : Bytes × ℕ). Apart (kv.0 ++ l) e.0) _
          (λ e z. elim (put.from e z) [
            | inl y ↦
                All-In (λ (e : Bytes × ℕ). Apart (kv.0 ++ l) e.0) e m
                  (All-In (λ (kv : Bytes × ℕ). IsFreeUnder kv.0 m) kv children h q l) y
            | inr (g, _, same) ↦ subst (Apart (kv.0 ++ l)) (sym same) (
                Apart-append kv.0 l f g
                  (sym-Apart f kv.0 (All-In (λ (e : Bytes × ℕ). Apart f e.0) kv children a q)))
          ]))

merge_children-IsMergedInto :
    (nodes : Trie) (children m : Assoc ℕ)
    → ((c : ℕ) → PrefixFree (node_at nodes c).children)
    → PrefixFree children
    → PrefixFree m
    → AllFree children m
    → IsMergedInto nodes children m (merge_children nodes children m)
unfolding merge_children
merge_children-IsMergedInto nodes [] m w c h a = record {
  old = λ e q. q;
  new = λ f g c d q k. absurd q;
  from = λ e q. inl q;
  free = h;
}
merge_children-IsMergedInto nodes ((f, c) ∷ children) m w (b, cs) h (a, later) =
    let put =
      put_all-IsPut f (node_at nodes c).children m (w c) h
        (All-intro (λ (kv : Bytes × ℕ). IsApartFrom (f ++ kv.0) m) _ (λ kv q. a kv.0)) in
    let rest =
      merge_children-IsMergedInto nodes children _ w cs put.free
        (put_all-AllFree nodes f c children m put b later) in
    record {
      old = λ e q. rest.old e (put.old e q);
      new = λ f' g c' d q k. elim q [
        | inl z ↦
            rest.old (f' ++ g, d)
              (subst (λ (x : Bytes). In (x ++ g, d) (put_all f (node_at nodes c).children m))
                (sym (ap (λ (kv : Bytes × ℕ). kv.0) z))
                (put.new g d (
                  subst (λ y. In (g, d) (node_at nodes y).children)
                    (ap (λ (kv : Bytes × ℕ). kv.1) z) k)))
        | inr z ↦ rest.new f' g c' d z k
      ];
      from = λ e q. elim (rest.from e q) [
        | inr (f', c', g, z, k, same) ↦ inr (f', c', g, inr z, k, same)
        | inl z ↦ elim (put.from e z) [
          | inl y ↦ inl y
          | inr (g, k, same) ↦ inr (f, c, g, inl refl, k, same)
        ]
      ];
      free = rest.free;
    }

-- The map holds the children of the children under their joined fragments and nothing else, and no
-- fragment of it begins another.
pub merge_children-IsMerged :
    (nodes : Trie) (children : Assoc ℕ)
    → ((c : ℕ) → PrefixFree (node_at nodes c).children)
    → PrefixFree children
    → IsMerged nodes children (merge_children nodes children [])
      × PrefixFree (merge_children nodes children [])
merge_children-IsMerged nodes children w c =
    let made =
      merge_children-IsMergedInto nodes children [] w c tt
        (All-intro (λ (kv : Bytes × ℕ). IsFreeUnder kv.0 []) children (λ kv q g. tt)) in
    (
      record {
        take_over = made.new;
        origin = λ k d q. elim (made.from (k, d) q) [ inl z ↦ absurd z | inr o ↦ o ];
      },
      made.free,
    )
