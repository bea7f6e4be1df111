-- ===== src/Privileges/Names.antt =====
-- The bits that `Privileges` holds for a list of names, and the names that it gives back
-- (redfish-core/include/privileges.hpp).
use bmcweb.Prelude.{
  ℕ, zero, suc, ◌+◌, ◌<◌, ◌≤◌, ◌≡◌, refl, sym, ap, subst, ◌∙◌, ◌↔◌, ◌⊎◌, inl, inr, Bool, true,
  false, ◌||◌, List, [], ◌∷◌, Bytes, codes, bytes_eq, bytes_eq_iff, bytes_eq_refl, length, get_or,
  length-set, get_or-set, replicate, any, any-intro, any-elim, In, All, if◌then◌else◌, arith,
}
use native.Mathlib.Decide.{ℕ_discrete}
use bmcweb.Privileges.{
  Privileges, base, oem, base_privileges, privilege_names, no_privileges, test, set_from,
  set_single_privilege, set_all, of_list, names_from, get_active_privilege_names,
}
use bmcweb.Privileges.Bits.{IsWide}

-- Whether the name at place `i` is `n`.
abbrev pub is_at : List Bytes → ℕ → Bytes → Bool
is_at [] i n = false
is_at (m ∷ ms) zero n = bytes_eq n m
is_at (m ∷ ms) (suc i) n = is_at ms i n

abbrev HasDistinctNames : List Bytes → Type 0
HasDistinctNames [] = Unit
HasDistinctNames (m ∷ ms) = All (λ n. bytes_eq m n ≡ false) ms × HasDistinctNames ms

is_at-absent :
    (m n : Bytes) (ms : List Bytes) (i : ℕ)
    → n ≡ m
    → All (λ k. bytes_eq m k ≡ false) ms
    → is_at ms i n ≡ false
is_at-absent m n [] i e h = refl
is_at-absent m n (k ∷ ms) zero e (p, h) = rw e p
is_at-absent m n (k ∷ ms) (suc i) e (p, h) = is_at-absent m n ms i e h

set_from_wide :
    (ms : List Bytes) (k : ℕ) (n : Bytes) (p : Privileges)
    → length (set_from ms k n p).0.bitset ≡ length p.bitset
unfolding set_from
set_from_wide [] k n p = refl
set_from_wide (m ∷ ms) k n p =
    ground (arith, length-set p.bitset k true, set_from_wide ms (k + 1) n p)

set_from_below :
    (ms : List Bytes) (k : ℕ) (n : Bytes) (p : Privileges) (j : ℕ)
    → j < k
    → k + length ms ≤ length p.bitset
    → test (set_from ms k n p).0 j ≡ test p j
unfolding set_from
set_from_below [] k n p j h w = refl
set_from_below (m ∷ ms) k n p j h w = ground (
  arith,
  get_or-set p.bitset k j true false,
  set_from_below ms (k + 1) n p j (omega arith) (omega arith),
)

set_from-test :
    (ms : List Bytes) (k : ℕ) (n : Bytes) (p : Privileges) (i j : ℕ)
    → j ≡ k + i
    → HasDistinctNames ms
    → k + length ms ≤ length p.bitset
    → test (set_from ms k n p).0 j ≡ (test p j || is_at ms i n)
unfolding set_from
set_from-test [] k n p i j e d w = ground arith
set_from-test (m ∷ ms) k n p zero j e d w = ground (
  arith,
  get_or-set p.bitset k j true false,
  set_from_below ms (k + 1) n p j (omega arith) (omega arith),
)
set_from-test (m ∷ ms) k n p (suc i) j e (f, d) w = ground (
  arith,
  bytes_eq_iff n m,
  get_or-set p.bitset k j true false,
  is_at-absent m n ms i,
  set_from-test ms (k + 1) n p i j (omega arith) d (omega arith),
)

privilege_names-distinct : HasDistinctNames privilege_names
privilege_names-distinct = ground arith

set_single_privilege-test :
    (n : Bytes) (p : Privileges) (i : ℕ)
    → IsWide p
    → test (set_single_privilege n p).0 i ≡ (test p i || is_at privilege_names i n)
unfolding set_single_privilege
set_single_privilege-test n p i w =
    set_from-test privilege_names 0 n p i i (omega arith) privilege_names-distinct (omega arith)

set_single_privilege-IsWide :
    (n : Bytes) (p : Privileges) → IsWide p → IsWide (set_single_privilege n p).0
unfolding set_single_privilege
set_single_privilege-IsWide n p w = set_from_wide privilege_names 0 n p ∙ w

or_assoc : (a b c : Bool) → ((a || b) || c) ≡ (a || (b || c))
or_assoc a b c = ground arith

set_all-test :
    (ns : List Bytes) (p : Privileges) (i : ℕ)
    → IsWide p
    → test (set_all ns p) i ≡ (test p i || any (is_at privilege_names i) ns)
unfolding set_all
set_all-test [] p i w = ground arith
set_all-test (n ∷ ns) p i w =
    set_all-test ns (set_single_privilege n p).0 i (set_single_privilege-IsWide n p w)
    ∙ rw (set_single_privilege-test n p i w) (or_assoc (test p i) _ _)

set_all-IsWide : (ns : List Bytes) (p : Privileges) → IsWide p → IsWide (set_all ns p)
unfolding set_all
set_all-IsWide [] p w = w
set_all-IsWide (n ∷ ns) p w =
    set_all-IsWide ns (set_single_privilege n p).0 (set_single_privilege-IsWide n p w)

pub of_list-IsWide : (ns : List Bytes) → IsWide (of_list ns)
unfolding of_list
of_list-IsWide ns = set_all-IsWide ns no_privileges refl

get_or-none : (n i : ℕ) → get_or (replicate n false) i false ≡ false
get_or-none zero i = refl
get_or-none (suc n) zero = refl
get_or-none (suc n) (suc i) = get_or-none n i

-- A bit of a `Privileges` object is set exactly when the list that it was made from has its name.
of_list-test : (ns : List Bytes) (i : ℕ) → test (of_list ns) i ≡ any (is_at privilege_names i) ns
unfolding of_list
of_list-test ns i =
    set_all-test ns no_privileges i refl
    ∙ ap (λ b. b || any (is_at privilege_names i) ns) (get_or-none 32 i)

is_at_sound : (ms : List Bytes) (i : ℕ) (n : Bytes) → is_at ms i n ≡ true → n ≡ get_or ms i []
is_at_sound [] i n h = cc
is_at_sound (m ∷ ms) zero n h = (bytes_eq_iff n m).0 h
is_at_sound (m ∷ ms) (suc i) n h = is_at_sound ms i n h

place :
    (ms : List Bytes) (n : Bytes)
    → In n ms
    → (i : ℕ) × (i < length ms) × (n ≡ get_or ms i []) × (is_at ms i n ≡ true)
place [] n m = absurd m
place (k ∷ ms) n (inl e) = (0, omega arith, e, rw e (bytes_eq_refl k))
place (k ∷ ms) n (inr m) = let (i, lt, e, a) = place ms n m in (suc i, omega arith, e, a)

In-if-elim :
    (b : Bool) (x n : Bytes) (rest : List Bytes)
    → In n (if b then x ∷ rest else rest)
    → ((b ≡ true) × (n ≡ x)) ⊎ In n rest
In-if-elim true x n rest (inl e) = inl (refl, e)
In-if-elim true x n rest (inr m) = inr m
In-if-elim false x n rest m = inr m

In-if-rest :
    (b : Bool) (x n : Bytes) (rest : List Bytes) → In n rest → In n (if b then x ∷ rest else rest)
In-if-rest true x n rest m = inr m
In-if-rest false x n rest m = m

names_from_sound :
    (rounds k : ℕ) (p : Privileges) (n : Bytes)
    → In n (names_from rounds k p)
    → (j : ℕ) × (j < k + rounds) × (test p j ≡ true) × (n ≡ get_or privilege_names j [])
unfolding names_from
names_from_sound zero k p n m = absurd m
names_from_sound (suc rounds) k p n m = elim (In-if-elim (test p k) _ n _ m) [
  | inl (e, same) ↦ (k, omega arith, e, same)
  | inr m' ↦
      let (j, lt, e, same) = names_from_sound rounds (k + 1) p n m' in (j, omega arith, e, same)
]

names_from_complete :
    (rounds k j : ℕ) (p : Privileges)
    → k ≤ j
    → j < k + rounds
    → test p j ≡ true
    → In (get_or privilege_names j []) (names_from rounds k p)
unfolding names_from
names_from_complete zero k j p a b h = absurd (omega arith)
names_from_complete (suc rounds) k j p a b h = elim (ℕ_discrete k j) [
  | yes e ↦ rw (e, h) (inl refl)
  | no ne ↦
      In-if-rest (test p k) _ _ _
        (names_from_complete rounds (k + 1) j p (omega arith) (omega arith) h)
]

any-of_list :
    (ns : List Bytes) (j : ℕ) → test (of_list ns) j ≡ true → In (get_or privilege_names j []) ns
any-of_list ns j h =
    let (m, inside, at) = any-elim (is_at privilege_names j) ns (sym (of_list-test ns j) ∙ h) in
    subst (λ x. In x ns) (is_at_sound privilege_names j m at) inside

get_or-In : (ms : List Bytes) (j : ℕ) → j < length ms → In (get_or ms j []) ms
get_or-In [] j h = absurd (omega arith)
get_or-In (m ∷ ms) zero h = inl refl
get_or-In (m ∷ ms) (suc j) h = inr (get_or-In ms j (omega arith))

-- A name is reported as an active base privilege of the object made from a list exactly when the
-- list has it and it is one of the five base privileges.
pub get_active_privilege_names-of_list :
    (ns : List Bytes) (n : Bytes)
    → In n (get_active_privilege_names base (of_list ns)) ↔ (In n ns × In n base_privileges)
unfolding get_active_privilege_names
get_active_privilege_names-of_list ns n = (sound, λ h. complete h.0 h.1)
  where
    sound : In n (names_from 5 0 (of_list ns)) → In n ns × In n base_privileges
    sound m =
        let (j, lt, h, e) = names_from_sound 5 0 (of_list ns) n m in
        rw e (any-of_list ns j h, get_or-In base_privileges j (omega arith))

    complete : In n ns → In n base_privileges → In n (names_from 5 0 (of_list ns))
    complete inside known =
        let (j, lt, e, at) = place base_privileges n known in
        subst (λ x. In x (names_from 5 0 (of_list ns))) (sym e)
          (names_from_complete 5 0 j (of_list ns) (omega arith) (omega arith)
            (of_list-test ns j ∙ any-intro (is_at privilege_names j) n ns inside at))

-- The range of the OEM privileges begins one place early: a privilege set with the base privilege
-- ConfigureUsers reports it, and nothing else, as an OEM privilege.
pub get_active_privilege_names_oem :
    (ns : List Bytes)
    → In (codes "ConfigureUsers") ns
    → get_active_privilege_names oem (of_list ns) ≡ codes "ConfigureUsers" ∷ []
unfolding get_active_privilege_names
get_active_privilege_names_oem ns inside = rw (
    of_list-test ns 4 ∙ any-intro (is_at privilege_names 4) (codes "ConfigureUsers") ns inside refl)
