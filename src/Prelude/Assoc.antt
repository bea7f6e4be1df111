-- ===== src/Prelude/Assoc.antt =====
-- `std::unordered_map` and `flat_map` with string keys, as association lists.
use mathlib.Core.Path.{◌≡◌, refl}
use mathlib.Core.Logic.{◌≢◌}
use mathlib.Core.Option.{Option, none, some}
use mathlib.Core.List.{List, [], ◌∷◌}
use native.Mathlib.Omega.{arith}
use bmcweb.Prelude.Tests.{if◌then◌else◌}
use bmcweb.Prelude.Lists.{All}
use bmcweb.Prelude.Strings.{Bytes, bytes_eq, bytes_eq_iff}

abbrev pub Assoc {ℓ} : Type ℓ → Type ℓ
Assoc V = List (Bytes × V)

module _ {ℓ} {V : Type ℓ} where
  -- `m.find(k)`
  unfoldable pub lookup : Bytes → Assoc V → Option V
  lookup k [] = none
  lookup k ((j, v) ∷ m) = if bytes_eq j k then some v else lookup k m

  -- `m.emplace(k, v)`: an entry that is there stays.
  unfoldable pub emplace : Bytes → V → Assoc V → Assoc V
  emplace k v [] = (k, v) ∷ []
  emplace k v ((j, w) ∷ m) = (j, w) ∷ (if bytes_eq j k then m else emplace k v m)

  -- `it->second = v` where `it` is `m.find(k)`; with no entry nothing changes.
  unfoldable pub assign : Bytes → V → Assoc V → Assoc V
  assign k v [] = []
  assign k v ((j, w) ∷ m) = if bytes_eq j k then (j, v) ∷ m else (j, w) ∷ assign k v m

  -- `m.erase(k)`
  unfoldable pub erase : Bytes → Assoc V → Assoc V
  erase k [] = []
  erase k ((j, v) ∷ m) = if bytes_eq j k then m else (j, v) ∷ erase k m

  -- No key stands twice.
  abbrev pub Lacks : Bytes → Assoc V → Type 0
  Lacks k [] = Unit
  Lacks k ((j, v) ∷ m) = (j ≢ k) × Lacks k m

  abbrev pub HasDistinctKeys : Assoc V → Type 0
  HasDistinctKeys [] = Unit
  HasDistinctKeys ((j, v) ∷ m) = Lacks j m × HasDistinctKeys m

  pub lookup-emplace :
      (k j : Bytes) (v : V) (m : Assoc V)
      → lookup j (emplace k v m)
        ≡ elim (lookup j m) [ some w ↦ some w | none ↦ if bytes_eq k j then some v else none ]
  unfolding lookup emplace
  lookup-emplace k j v [] = refl
  lookup-emplace k j v ((i, w) ∷ m) =
      ground (arith, bytes_eq_iff k j, bytes_eq_iff i k, bytes_eq_iff i j, lookup-emplace k j v m)

  pub lookup-assign_self :
      (k : Bytes) (v w : V) (m : Assoc V) → lookup k m ≡ some w → lookup k (assign k v m) ≡ some v
  unfolding lookup assign
  lookup-assign_self k v w [] h = cc
  lookup-assign_self k v w ((i, u) ∷ m) h = ground (arith, lookup-assign_self k v w m)

  pub lookup-assign_ne :
      (k j : Bytes) (v : V) (m : Assoc V) → k ≢ j → lookup j (assign k v m) ≡ lookup j m
  unfolding lookup assign
  lookup-assign_ne k j v [] h = refl
  lookup-assign_ne k j v ((i, u) ∷ m) h =
      ground (arith, bytes_eq_iff i k, bytes_eq_iff i j, lookup-assign_ne k j v m h)

  pub lookup-assign :
      (k j : Bytes) (v : V) (m : Assoc V)
      → lookup j (assign k v m)
        ≡ elim (lookup j m) [ none ↦ none | some w ↦ if bytes_eq k j then some v else some w ]
  unfolding lookup assign
  lookup-assign k j v [] = refl
  lookup-assign k j v ((i, u) ∷ m) =
      ground (arith, bytes_eq_iff k j, bytes_eq_iff i k, bytes_eq_iff i j, lookup-assign k j v m)

  pub lookup_of_Lacks : (k : Bytes) (m : Assoc V) → Lacks k m → lookup k m ≡ none
  unfolding lookup
  lookup_of_Lacks k [] h = refl
  lookup_of_Lacks k ((i, u) ∷ m) (h, hs) = ground (arith, bytes_eq_iff i k, lookup_of_Lacks k m hs)

  pub lookup-erase_self :
      (k : Bytes) (m : Assoc V) → HasDistinctKeys m → lookup k (erase k m) ≡ none
  unfolding lookup erase
  lookup-erase_self k [] h = refl
  lookup-erase_self k ((i, u) ∷ m) (h, hs) =
      ground (arith, bytes_eq_iff i k, lookup-erase_self k m hs, lookup_of_Lacks k m)

  -- What was put in for a new key is taken out again.
  pub erase-emplace :
      (k : Bytes) (v : V) (m : Assoc V) → lookup k m ≡ none → erase k (emplace k v m) ≡ m
  unfolding lookup emplace erase
  erase-emplace k v [] h = ground (arith, bytes_eq_iff k k)
  erase-emplace k v ((i, u) ∷ m) h = ground (arith, erase-emplace k v m)

  pub lookup-erase_ne : (k j : Bytes) (m : Assoc V) → k ≢ j → lookup j (erase k m) ≡ lookup j m
  unfolding lookup erase
  lookup-erase_ne k j [] h = refl
  lookup-erase_ne k j ((i, u) ∷ m) h =
      ground (arith, bytes_eq_iff i k, bytes_eq_iff i j, lookup-erase_ne k j m h)

  pub Lacks-emplace :
      (k j : Bytes) (v : V) (m : Assoc V) → j ≢ k → Lacks k m → Lacks k (emplace j v m)
  unfolding emplace
  Lacks-emplace k j v [] h l = (h, tt)
  Lacks-emplace k j v ((i, w) ∷ m) h (p, l) = ground (arith, Lacks-emplace k j v m h l)

  pub Lacks-assign : (k j : Bytes) (v : V) (m : Assoc V) → Lacks k m → Lacks k (assign j v m)
  unfolding assign
  Lacks-assign k j v [] l = l
  Lacks-assign k j v ((i, w) ∷ m) (p, l) = ground (arith, Lacks-assign k j v m l)

  pub Lacks-erase : (k j : Bytes) (m : Assoc V) → Lacks k m → Lacks k (erase j m)
  unfolding erase
  Lacks-erase k j [] l = l
  Lacks-erase k j ((i, w) ∷ m) (p, l) = ground (arith, Lacks-erase k j m l)

  pub emplace-HasDistinctKeys :
      (k : Bytes) (v : V) (m : Assoc V) → HasDistinctKeys m → HasDistinctKeys (emplace k v m)
  unfolding emplace
  emplace-HasDistinctKeys k v [] h = (tt, tt)
  emplace-HasDistinctKeys k v ((i, w) ∷ m) (l, h) =
      ground (arith, bytes_eq_iff i k, Lacks-emplace i k v m, emplace-HasDistinctKeys k v m h)

  pub assign-HasDistinctKeys :
      (k : Bytes) (v : V) (m : Assoc V) → HasDistinctKeys m → HasDistinctKeys (assign k v m)
  unfolding assign
  assign-HasDistinctKeys k v [] h = h
  assign-HasDistinctKeys k v ((i, w) ∷ m) (l, h) =
      ground (arith, Lacks-assign i k v m l, assign-HasDistinctKeys k v m h)

  pub erase-HasDistinctKeys :
      (k : Bytes) (m : Assoc V) → HasDistinctKeys m → HasDistinctKeys (erase k m)
  unfolding erase
  erase-HasDistinctKeys k [] h = h
  erase-HasDistinctKeys k ((i, w) ∷ m) (l, h) =
      ground (arith, Lacks-erase i k m l, erase-HasDistinctKeys k m h)

module _ {V : Type 0} (P : Bytes × V → Type 0) where
  pub All-emplace : (k : Bytes) (v : V) (m : Assoc V) → P (k, v) → All P m → All P (emplace k v m)
  unfolding emplace
  All-emplace k v [] p h = (p, tt)
  All-emplace k v ((i, w) ∷ m) p (q, h) = ground (arith, All-emplace k v m p h)

  pub All-assign : (k : Bytes) (v : V) (m : Assoc V) → P (k, v) → All P m → All P (assign k v m)
  unfolding assign
  All-assign k v [] p h = tt
  All-assign k v ((i, w) ∷ m) p (q, h) = ground (arith, bytes_eq_iff i k, All-assign k v m p h)

  pub All-erase : (k : Bytes) (m : Assoc V) → All P m → All P (erase k m)
  unfolding erase
  All-erase k [] h = tt
  All-erase k ((i, w) ∷ m) (q, h) = ground (arith, All-erase k m h)

  pub All-lookup : (k : Bytes) (v : V) (m : Assoc V) → All P m → lookup k m ≡ some v → P (k, v)
  unfolding lookup
  All-lookup k v [] h e = cc
  All-lookup k v ((i, w) ∷ m) (q, h) e = ground (arith, bytes_eq_iff i k, All-lookup k v m h)
