-- ===== src/Privileges/Access.antt =====
-- Which methods a set of privileges allows (`isMethodAllowedWithPrivileges` of
-- redfish-core/include/privileges.hpp, `BaseRule::checkPrivileges` of http/routing.h), and the
-- roles of `getUserPrivileges`.
use bmcweb.Prelude.{
  ℕ, ◌≡◌, refl, ◌≢◌, ◌↔◌, ◌⊎◌, inl, inr, true, Option, none, some, List, [], ◌∷◌, Bytes, codes,
  bytes_eq, bytes_eq_iff, any-intro, any-elim, In, All, All-In, arith, Bool-cases,
}
use bmcweb.Privileges.{
  Privileges, is_superset_of, administrator, operator, read_only, of_list, get_user_privileges,
  check_privileges, OperationMap, find_operation, is_method_allowed_with_privileges,
}
use bmcweb.Privileges.Bits.{IsWide, Covers, is_superset_of_sound, is_superset_of_complete}
use bmcweb.Privileges.Names.{of_list-IsWide}

-- What a guard of privilege sets asks for: nothing, or one set that the user covers.
abbrev pub Grants : List Privileges → Privileges → Type 0
Grants required user = (required ≡ []) ⊎ ((r : Privileges) × In r required × Covers user r)

pub check_privileges_sound :
    (required : List Privileges) (user : Privileges)
    → check_privileges required user ≡ true
    → Grants required user
unfolding check_privileges
check_privileges_sound [] user h = inl refl
check_privileges_sound (r ∷ rs) user h =
    let (q, m, e) = any-elim (λ r. is_superset_of user r) (r ∷ rs) h in
    inr (q, m, is_superset_of_sound user q e)

check_privileges_complete :
    (required : List Privileges) (user : Privileges)
    → IsWide user
    → All IsWide required
    → Grants required user
    → check_privileges required user ≡ true
unfolding check_privileges
check_privileges_complete [] user wu wr g = refl
check_privileges_complete (r ∷ rs) user wu wr (inl e) = cc
check_privileges_complete (r ∷ rs) user wu wr (inr (q, m, c)) =
    any-intro (λ r. is_superset_of user r) q (r ∷ rs) m
      (is_superset_of_complete user q wu (All-In IsWide q (r ∷ rs) wr m) c)

-- A guard lets a user pass exactly when it has no privilege set, or has one of which the user holds
-- every bit (bitsets have 32 places).
pub check_privileges_iff :
    (required : List Privileges) (user : Privileges)
    → IsWide user
    → All IsWide required
    → (check_privileges required user ≡ true) ↔ Grants required user
check_privileges_iff required user wu wr =
    (check_privileges_sound required user, check_privileges_complete required user wu wr)

-- A method is allowed exactly when the operation map has an entry for it whose privilege sets
-- grant the user access; a method with no entry is never allowed.
pub is_method_allowed_iff :
    (method : ℕ) (map : OperationMap) (user : Privileges)
    → IsWide user
    → ((required : List Privileges)
        → find_operation method map ≡ some required
        → All IsWide required)
    → (is_method_allowed_with_privileges method map user ≡ true) ↔ (
        (required : List Privileges) × (find_operation method map ≡ some required)
        × Grants required user)
unfolding is_method_allowed_with_privileges
is_method_allowed_iff method map user wu wr = (sound (find_operation method map) refl, complete)
  where
    sound :
        (o : Option (List Privileges))
        → find_operation method map ≡ o
        → is_method_allowed_with_privileges method map user ≡ true
        → (required : List Privileges) × (find_operation method map ≡ some required)
          × Grants required user
    sound none e h = cc (rw (e, is_method_allowed_with_privileges) at h)
    sound (some required) e h = (
      required,
      e,
      check_privileges_sound required user (rw (e, is_method_allowed_with_privileges) at h),
    )

    complete :
        ((required : List Privileges) × (find_operation method map ≡ some required)
          × Grants required user)
        → is_method_allowed_with_privileges method map user ≡ true
    complete (required, e, g) =
        rw (e, is_method_allowed_with_privileges)
          (check_privileges_complete required user wu (wr required e) g)

Grants-mono :
    (required : List Privileges) (user more : Privileges)
    → Covers more user
    → Grants required user
    → Grants required more
Grants-mono required user more c (inl e) = inl e
Grants-mono required user more c (inr (r, m, h)) = inr (r, m, λ i t. c i (h i t))

-- More privileges never close a guard.
pub check_privileges_mono :
    (required : List Privileges) (user more : Privileges)
    → IsWide more
    → All IsWide required
    → Covers more user
    → check_privileges required user ≡ true
    → check_privileges required more ≡ true
check_privileges_mono required user more wm wr c h =
    check_privileges_complete required more wm wr
      (Grants-mono required user more c (check_privileges_sound required user h))

-- The three sets of privileges that roles stand for.
abbrev pub IsRoleSet : Privileges → Type 0
IsRoleSet p = (p ≡ of_list administrator) ⊎ ((p ≡ of_list operator) ⊎ (p ≡ of_list read_only))

get_user_privileges-IsRoleSet : (role : Bytes) → IsRoleSet (get_user_privileges role)
unfolding get_user_privileges
get_user_privileges-IsRoleSet role = elim (Bool-cases (bytes_eq role (codes "priv-admin"))) [
  | inl e ↦ inl (rw e)
  | inr e ↦ elim (Bool-cases (bytes_eq role (codes "priv-operator"))) [
    | inl f ↦ inr (inl (rw (e, f)))
    | inr f ↦ inr (inr (rw (e, f)))
  ]
]

pub get_user_privileges-IsWide : (role : Bytes) → IsWide (get_user_privileges role)
get_user_privileges-IsWide role = elim (get_user_privileges-IsRoleSet role) [
  | inl e ↦ rw e (of_list-IsWide administrator)
  | inr (inl e) ↦ rw e (of_list-IsWide operator)
  | inr (inr e) ↦ rw e (of_list-IsWide read_only)
]

covered_by_administrator :
    (p : Privileges) → IsRoleSet p → is_superset_of (of_list administrator) p ≡ true
unfolding is_superset_of of_list
covered_by_administrator p (inl e) = rw e
covered_by_administrator p (inr (inl e)) = rw e
covered_by_administrator p (inr (inr e)) = rw e

covers_read_only : (p : Privileges) → IsRoleSet p → is_superset_of p (of_list read_only) ≡ true
unfolding is_superset_of of_list
covers_read_only p (inl e) = rw e
covers_read_only p (inr (inl e)) = rw e
covers_read_only p (inr (inr e)) = rw e

pub get_user_privileges_lowest :
    (role : Bytes)
    → role ≢ codes "priv-admin"
    → role ≢ codes "priv-operator"
    → get_user_privileges role ≡ of_list read_only
unfolding get_user_privileges
get_user_privileges_lowest role a o =
    ground
      (arith, bytes_eq_iff role (codes "priv-admin"), bytes_eq_iff role (codes "priv-operator"))

highest : get_user_privileges (codes "priv-admin") ≡ of_list administrator
unfolding get_user_privileges
highest = refl

-- Whatever a role is called, it opens every guard that an unknown role opens, and no guard that
-- the administrator role leaves shut.
pub get_user_privileges_between :
    (required : List Privileges) (role unknown : Bytes)
    → All IsWide required
    → unknown ≢ codes "priv-admin"
    → unknown ≢ codes "priv-operator"
    → (check_privileges required (get_user_privileges unknown) ≡ true
        → check_privileges required (get_user_privileges role) ≡ true)
      × (check_privileges required (get_user_privileges role) ≡ true
          → check_privileges required (get_user_privileges (codes "priv-admin")) ≡ true)
get_user_privileges_between required role unknown wr a o = (
  λ h.
      check_privileges_mono required (of_list read_only) (get_user_privileges role)
        (get_user_privileges-IsWide role) wr
        (is_superset_of_sound _ _ (covers_read_only _ (get_user_privileges-IsRoleSet role)))
        (rw (get_user_privileges_lowest unknown a o) at h),
  rw highest (
      check_privileges_mono required (get_user_privileges role) (of_list administrator)
        (of_list-IsWide administrator) wr
        (is_superset_of_sound _ _
          (covered_by_administrator _ (get_user_privileges-IsRoleSet role)))),
)
