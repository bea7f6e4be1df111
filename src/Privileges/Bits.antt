-- ===== src/Privileges/Bits.antt =====
-- `Privileges::isSupersetOf` of redfish-core/include/privileges.hpp, read bit by bit.
use bmcweb.Prelude.{
  ℕ, zero, suc, ◌≡◌, refl, Bool, true, false, ◌&&◌, List, [], ◌∷◌, length, get_or, and_split, arith,
}
use bmcweb.Privileges.{
  Privileges, max_privilege_count, test, bits_and, bits_eq, bool_eq, is_superset_of,
}

-- The bitset has its 32 places.
abbrev pub IsWide : Privileges → Type 0
IsWide p = length p.bitset ≡ max_privilege_count

-- Every bit of `p` is a bit of `q`.
abbrev pub Covers : Privileges → Privileges → Type 0
Covers q p = (i : ℕ) → test p i ≡ true → test q i ≡ true

bool_eq-and : (x y : Bool) → bool_eq (x && y) y ≡ true → y ≡ true → x ≡ true
bool_eq-and x y h e = ground arith

bits_sound :
    (xs ys : List Bool) (i : ℕ)
    → bits_eq (bits_and xs ys) ys ≡ true
    → get_or ys i false ≡ true
    → get_or xs i false ≡ true
bits_sound [] [] i h e = cc
bits_sound [] (y ∷ ys) i h e = cc
bits_sound (x ∷ xs) [] i h e = cc
bits_sound (x ∷ xs) (y ∷ ys) zero h e = bool_eq-and x y (and_split _ _ h).0 e
bits_sound (x ∷ xs) (y ∷ ys) (suc i) h e = bits_sound xs ys i (and_split _ _ h).1 e

bits_complete :
    (xs ys : List Bool)
    → length xs ≡ length ys
    → ((i : ℕ) → get_or ys i false ≡ true → get_or xs i false ≡ true)
    → bits_eq (bits_and xs ys) ys ≡ true
bits_complete [] [] e h = refl
bits_complete [] (y ∷ ys) e h = absurd (omega arith)
bits_complete (x ∷ xs) [] e h = absurd (omega arith)
bits_complete (x ∷ xs) (y ∷ ys) e h =
    ground (arith, h 0, bits_complete xs ys (omega arith) (λ i. h (suc i)))

pub is_superset_of_sound : (q p : Privileges) → is_superset_of q p ≡ true → Covers q p
unfolding is_superset_of
is_superset_of_sound q p h i = bits_sound q.bitset p.bitset i h

pub is_superset_of_complete :
    (q p : Privileges) → IsWide q → IsWide p → Covers q p → is_superset_of q p ≡ true
unfolding is_superset_of
is_superset_of_complete q p wq wp h = bits_complete q.bitset p.bitset (omega arith) h
