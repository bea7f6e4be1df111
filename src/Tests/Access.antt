-- ===== src/Tests/Access.antt =====
-- Privileges and roles at small inputs (redfish-core/ut/privileges_test.cpp has some of these).
use bmcweb.Prelude.{
  ◌≡◌, ◌↔◌, refl, true, false, some, none, List, [], ◌∷◌, Bytes, codes, In, All, bytes_eq,
  ne_of_bytes_eq, subst, if◌then◌else◌, arith,
}
use mathlib.Core.Option.{some-injective}
use bmcweb.Privileges.Bits.{IsWide}
use bmcweb.Prelude.Assoc.{lookup}
use bmcweb.Privileges.{
  base, of_list, read_only, check_privileges, get_user_privileges, get_active_privilege_names,
  is_method_allowed_with_privileges, OperationMap, find_operation, is_superset_of, base_privileges,
  Privileges,
}
use bmcweb.Privileges.Names.{of_list-IsWide, get_active_privilege_names-of_list}
use bmcweb.Privileges.Access.{
  Grants, check_privileges_iff, is_method_allowed_iff, get_user_privileges_between,
}
use bmcweb.Roles.{
  RoleMap, Event, added, removed, text, get_user_role, extract_user_role, Interfaces, Properties,
  step, run,
}
use bmcweb.Roles.Laws.{user_removed_role, user_added_role}

abbrev operators_only : List Privileges
operators_only = of_list (codes "ConfigureComponents" ∷ []) ∷ []

abbrev operations : OperationMap
operations = (2, operators_only) ∷ []

check_privileges_iff_example :
    (check_privileges operators_only (of_list read_only) ≡ true)
    ↔ Grants operators_only (of_list read_only)
check_privileges_iff_example =
    check_privileges_iff operators_only (of_list read_only) (of_list-IsWide read_only)
      (of_list-IsWide _, tt)

is_method_allowed_iff_example :
    (is_method_allowed_with_privileges 2 operations (of_list read_only) ≡ true) ↔ (
      (required : List Privileges) × (find_operation 2 operations ≡ some required)
      × Grants required (of_list read_only))
unfolding find_operation
is_method_allowed_iff_example =
    is_method_allowed_iff 2 operations (of_list read_only) (of_list-IsWide read_only) (λ required e.
      subst (All IsWide) (some-injective operators_only required e) (of_list-IsWide _, tt))

get_user_privileges_between_example :
    (check_privileges operators_only (get_user_privileges []) ≡ true
      → check_privileges operators_only (get_user_privileges (codes "priv-operator")) ≡ true)
    × (check_privileges operators_only (get_user_privileges (codes "priv-operator")) ≡ true
        → check_privileges operators_only (get_user_privileges (codes "priv-admin")) ≡ true)
get_user_privileges_between_example =
    get_user_privileges_between operators_only (codes "priv-operator") [] (of_list-IsWide _, tt)
      (λ e. cc) (λ e. cc)

get_active_privilege_names-of_list_example :
    In
      (codes "Login")
      (get_active_privilege_names base (of_list (codes "Login" ∷ codes "Oem" ∷ [])))
    ↔ (In (codes "Login") (codes "Login" ∷ codes "Oem" ∷ []) × In (codes "Login") base_privileges)
get_active_privilege_names-of_list_example =
    get_active_privilege_names-of_list (codes "Login" ∷ codes "Oem" ∷ []) (codes "Login")

abbrev operator_properties : Properties
operator_properties = (codes "UserPrivilege", text (codes "priv-operator")) ∷ []

abbrev operator_interfaces : Interfaces
operator_interfaces = (codes "xyz.openbmc_project.User.Attributes", operator_properties) ∷ []

abbrev users : List Event
users = added (some (codes "/user/ann", operator_interfaces)) ∷ []

user_removed_role_example :
    let map = run [] users in
    let map' = step map (removed (some (codes "/user/ann"))) in
    (get_user_role (codes "ann") map' ≡ [])
    × (get_user_privileges (get_user_role (codes "ann") map') ≡ of_list read_only)
    × (get_user_role (codes "bob") map' ≡ get_user_role (codes "bob") map)
user_removed_role_example =
    user_removed_role users (codes "/user") (codes "ann") (codes "bob") (omega arith)
      (ne_of_bytes_eq _ _ refl) (ne_of_bytes_eq _ _ refl)

user_added_role_example :
    get_user_role (codes "ann") (step [] (added (some (codes "/user/ann", operator_interfaces))))
    ≡ elim (lookup {V = Bytes} (codes "ann") []) [
      | some role ↦ role
      | none ↦
          if bytes_eq (codes "ann") (codes "ann") then extract_user_role operator_interfaces else []
    ]
user_added_role_example =
    user_added_role [] (codes "/user") (codes "ann") (codes "ann") operator_interfaces (omega arith)

abbrev ann : RoleMap
ann = (codes "ann", codes "priv-user") ∷ []

-- The checks of the unit test.
unit_test :
    (check_privileges
        (of_list (codes "Login" ∷ []) ∷ of_list (codes "ConfigureManager" ∷ []) ∷ [])
        (of_list (codes "ConfigureManager" ∷ []))
      ≡ true)
    × (check_privileges
          (of_list (codes "Login" ∷ []) ∷ of_list (codes "ConfigureManager" ∷ []) ∷ [])
          (of_list (codes "ConfigureComponents" ∷ []))
        ≡ false)
unfolding check_privileges of_list is_superset_of
unit_test = (refl, refl)
