-- ===== src/Routing/Optimize/PrefixFree.antt =====
-- The merged children of `optimizeNode` in http/routing.h, where no fragment of a node begins another:
-- nothing is lost when they are put into one map.
use bmcweb.Prelude.{
  ℕ, ◌≡◌, refl, sym, subst, ap, ◌∙◌, ◌⊎◌, inl, inr, true, false, List, [], ◌∷◌, ◌++◌, Bytes,
  bytes_eq, bytes_eq_iff, starts_with, In, All, All-In, arith, Bool-cases,
}
use bmcweb.Prelude.Assoc.{Assoc}
use bmcweb.Routing.Add.{text_less}
use bmcweb.Routing.Optimize.{put_child}
use bmcweb.Routing.Optimize.Texts.{starts_with-split}

-- Neither text begins with the other.
abbrev pub Apart : Bytes → Bytes → Type 0
Apart f g = (starts_with f g ≡ false) × (starts_with g f ≡ false)

pub sym-Apart : (f g : Bytes) → Apart f g → Apart g f
sym-Apart f g (h, k) = (k, h)

abbrev pub IsApartFrom : Bytes → Assoc ℕ → Type 0
IsApartFrom f children = All (λ (e : Bytes × ℕ). Apart f e.0) children

abbrev pub PrefixFree : Assoc ℕ → Type 0
PrefixFree [] = Unit
PrefixFree ((f, c) ∷ children) = IsApartFrom f children × PrefixFree children

starts_with_refl : (s : Bytes) → starts_with s s ≡ true
starts_with_refl [] = refl
starts_with_refl (c ∷ s) = ground (arith, starts_with_refl s)

Apart-ne : (f g : Bytes) → Apart f g → bytes_eq f g ≡ false
Apart-ne f g (h, _) = elim (Bool-cases (bytes_eq f g)) [
  | inl e ↦ absurd (
      cc
        (subst (λ x. starts_with f x ≡ false) (sym ((bytes_eq_iff f g).0 e)) h, starts_with_refl f))
  | inr e ↦ e
]

comparable :
    (f g k : Bytes)
    → starts_with (f ++ g) k ≡ true
    → (starts_with f k ≡ true) ⊎ (starts_with k f ≡ true)
comparable [] g [] h = inl refl
comparable [] g (c ∷ k) h = inr refl
comparable (d ∷ f) g [] h = inl refl
comparable (d ∷ f) g (c ∷ k) h = ground (arith, comparable f g k)

not_starts : (f g k l : Bytes) → Apart f k → starts_with (f ++ g) (k ++ l) ≡ false
not_starts f g k l (h, h') = elim (Bool-cases (starts_with (f ++ g) (k ++ l))) [
  | inl e ↦ elim (comparable f g k (starts_with-split (f ++ g) k l e).0) [
    | inl s ↦ absurd (cc)
    | inr s ↦ absurd (cc)
  ]
  | inr e ↦ e
]

pub Apart-append : (f g k l : Bytes) → Apart f k → Apart (f ++ g) (k ++ l)
Apart-append f g k l a = (not_starts f g k l a, not_starts k l f g (sym-Apart f k a))

starts_with_same : (f g k : Bytes) → starts_with (f ++ g) (f ++ k) ≡ starts_with g k
starts_with_same [] g k = refl
starts_with_same (c ∷ f) g k = ground (arith, starts_with_same f g k)

pub Apart-append_same : (f g k : Bytes) → Apart g k → Apart (f ++ g) (f ++ k)
Apart-append_same f g k (h, h') = (starts_with_same f g k ∙ h, starts_with_same f k g ∙ h')

module _ {A : Type 0} (P : A → Type 0) where
  pub All-intro : (xs : List A) → ((x : A) → In x xs → P x) → All P xs
  All-intro [] h = tt
  All-intro (x ∷ xs) h = (h x (inl refl), All-intro xs (λ y m. h y (inr m)))

pub put_child_from :
    (k : Bytes) (i : ℕ) (m : Assoc ℕ) (e : Bytes × ℕ)
    → In e (put_child k i m)
    → (e ≡ (k, i)) ⊎ In e m
unfolding put_child
put_child_from k i [] e (inl q) = inl q
put_child_from k i [] e (inr q) = absurd q
put_child_from k i ((g, j) ∷ m) e q = elim (Bool-cases (bytes_eq k g)) [
  | inl same ↦ elim (rw same at q) [
    | inl z ↦ inl (z ∙ ap (λ (x : Bytes). (x, i)) (sym ((bytes_eq_iff k g).0 same)))
    | inr z ↦ inr (inr z)
  ]
  | inr ne ↦ elim (Bool-cases (text_less k g)) [
    | inl less ↦ elim (rw (ne, less) at q) [ inl z ↦ inl z | inr z ↦ inr z ]
    | inr more ↦ elim (rw (ne, more) at q) [
      | inl z ↦ inr (inl z)
      | inr z ↦ elim (put_child_from k i m e z) [ inl y ↦ inl y | inr y ↦ inr (inr y) ]
    ]
  ]
]

pub put_child_self :
    (k : Bytes) (i : ℕ) (m : Assoc ℕ) → IsApartFrom k m → In (k, i) (put_child k i m)
unfolding put_child
put_child_self k i [] a = inl refl
put_child_self k i ((g, j) ∷ m) (ne, a) = elim (Bool-cases (text_less k g)) [
  | inl less ↦ rw (Apart-ne k g ne, less) (inl refl)
  | inr more ↦ rw (Apart-ne k g ne, more) (inr (put_child_self k i m a))
]

pub put_child_old :
    (k : Bytes) (i : ℕ) (m : Assoc ℕ) (e : Bytes × ℕ)
    → IsApartFrom k m
    → In e m
    → In e (put_child k i m)
unfolding put_child
put_child_old k i [] e a q = absurd q
put_child_old k i ((g, j) ∷ m) e (ne, a) q = elim (Bool-cases (text_less k g)) [
  | inl less ↦ rw (Apart-ne k g ne, less) (inr q)
  | inr more ↦ rw (Apart-ne k g ne, more) (later (put_child_old k i m e a) q)
]
  where
    later : (In e m → In e (put_child k i m)) → In e ((g, j) ∷ m) → In e ((g, j) ∷ put_child k i m)
    later go (inl z) = inl z
    later go (inr z) = inr (go z)

-- A key that is apart from what was there and from what is put is apart from the result.
pub put_child-Apart :
    (l k : Bytes) (i : ℕ) (m : Assoc ℕ)
    → Apart l k
    → IsApartFrom l m
    → IsApartFrom l (put_child k i m)
put_child-Apart l k i m a h =
    All-intro (λ (e : Bytes × ℕ). Apart l e.0) (put_child k i m)
      (λ e q. elim (put_child_from k i m e q) [
        | inl z ↦ subst (λ (e : Bytes × ℕ). Apart l e.0) (sym z) a
        | inr z ↦ All-In (λ (e : Bytes × ℕ). Apart l e.0) e m h z
      ])

pub put_child-PrefixFree :
    (k : Bytes) (i : ℕ) (m : Assoc ℕ)
    → IsApartFrom k m
    → PrefixFree m
    → PrefixFree (put_child k i m)
unfolding put_child
put_child-PrefixFree k i [] a h = (tt, tt)
put_child-PrefixFree k i ((g, j) ∷ m) (ne, a) (b, h) = elim (Bool-cases (text_less k g)) [
  | inl less ↦ rw (Apart-ne k g ne, less) ((ne, a), (b, h))
  | inr more ↦
      rw (Apart-ne k g ne, more)
        (put_child-Apart g k i m (sym-Apart k g ne) b, put_child-PrefixFree k i m a h)
]
