-- ===== src/Privileges.antt =====
-- redfish-core/include/privileges.hpp: named privileges as bits, and the methods that they allow.
-- `std::bitset<32>` is a list of 32 Booleans, least bit first.
pub mod Bits
pub mod Names
pub mod Access
use bmcweb.Prelude.{
  ℕ, zero, suc, ◌+◌, ◌-◌, Bool, true, false, ◌&&◌, Option, none, some, List, [], ◌∷◌, ◌++◌, Bytes,
  codes, bytes_eq, length, get_or, set, replicate, any, is_empty, if◌then◌else◌, ◌==◌,
}

pub data PrivilegeType : Type 0 where
  base oem : PrivilegeType

-- `basePrivileges`
abbrev pub base_privileges : List Bytes
base_privileges =
    codes "Login"
    ∷ codes "ConfigureManager"
    ∷ codes "ConfigureComponents"
    ∷ codes "ConfigureSelf"
    ∷ codes "ConfigureUsers"
    ∷ []

abbrev pub base_privilege_count : ℕ
base_privilege_count = 5

abbrev pub max_privilege_count : ℕ
max_privilege_count = 32

-- `privilegeNames` is built from `basePrivileges`, and nothing adds to it.
abbrev pub privilege_names : List Bytes
privilege_names = base_privileges

-- `Privileges`, by its `privilegeBitset`
pub record Privileges : Type 0 where
  pub bitset : List Bool

abbrev pub no_privileges : Privileges
no_privileges = record { bitset = replicate max_privilege_count false }

-- `privilegeBitset.test(i)`, for an `i` within the bitset
abbrev pub test : Privileges → ℕ → Bool
test p i = get_or p.bitset i false

-- The loop of `setSinglePrivilege` from `search_index` on.
pub set_from : List Bytes → ℕ → Bytes → Privileges → Privileges × Bool
set_from [] search_index privilege p = (p, false)
set_from (name ∷ names) search_index privilege p =
    let rest = set_from names (search_index + 1) privilege p in
    if bytes_eq privilege name
    then (record p { bitset = set p.bitset search_index true }, true)
    else rest

pub set_single_privilege : Bytes → Privileges → Privileges × Bool
unfolding set_from
set_single_privilege privilege p = set_from privilege_names 0 privilege p

-- The constructor's loop over its list; a name that is not known is only logged.
pub set_all : List Bytes → Privileges → Privileges
set_all [] p = p
set_all (privilege ∷ privileges) p = set_all privileges (set_single_privilege privilege p).0

unfoldable pub of_list : List Bytes → Privileges
unfolding set_all set_single_privilege
of_list privileges = set_all privileges no_privileges

-- `for (; searchIndex < endIndex; searchIndex++)`, on the rounds left
pub names_from : ℕ → ℕ → Privileges → List Bytes
names_from zero search_index p = []
names_from (suc rounds) search_index p =
    let rest = names_from rounds (search_index + 1) p in
    if test p search_index then get_or privilege_names search_index [] ∷ rest else rest

pub get_active_privilege_names : PrivilegeType → Privileges → List Bytes
unfolding names_from
get_active_privilege_names base p = names_from base_privilege_count 0 p
get_active_privilege_names oem p =
    names_from (length privilege_names - (base_privilege_count - 1)) (base_privilege_count - 1) p

-- `a & b` and `a == b` of bitsets
abbrev pub bits_and : List Bool → List Bool → List Bool
bits_and [] ys = []
bits_and (x ∷ xs) [] = []
bits_and (x ∷ xs) (y ∷ ys) = (x && y) ∷ bits_and xs ys

abbrev pub bool_eq : Bool → Bool → Bool
bool_eq true y = y
bool_eq false true = false
bool_eq false false = true

abbrev pub bits_eq : List Bool → List Bool → Bool
bits_eq [] [] = true
bits_eq [] (y ∷ ys) = false
bits_eq (x ∷ xs) [] = false
bits_eq (x ∷ xs) (y ∷ ys) = bool_eq x y && bits_eq xs ys

unfoldable pub is_superset_of : Privileges → Privileges → Bool
is_superset_of user p = bits_eq (bits_and user.bitset p.bitset) p.bitset

abbrev pub administrator : List Bytes
administrator =
    codes "Login"
    ∷ codes "ConfigureManager"
    ∷ codes "ConfigureSelf"
    ∷ codes "ConfigureUsers"
    ∷ codes "ConfigureComponents"
    ∷ []

abbrev pub operator : List Bytes
operator = codes "Login" ∷ codes "ConfigureSelf" ∷ codes "ConfigureComponents" ∷ []

abbrev pub read_only : List Bytes
read_only = codes "Login" ∷ codes "ConfigureSelf" ∷ []

pub get_user_privileges : Bytes → Privileges
get_user_privileges role =
    if bytes_eq role (codes "priv-admin")
    then of_list administrator
    else if bytes_eq role (codes "priv-operator")
    then of_list operator
    else of_list read_only

-- The loop that `isMethodAllowedWithPrivileges` and `BaseRule::checkPrivileges` share in form: no
-- set at all asks for nothing, otherwise one of the sets has to be covered.
unfoldable pub check_privileges : List Privileges → Privileges → Bool
check_privileges [] user = true
check_privileges (required ∷ others) user = any (λ r. is_superset_of user r) (required ∷ others)

-- `OperationMap`, by the verb's number
abbrev pub OperationMap : Type 0
OperationMap = List (ℕ × List Privileges)

unfoldable pub find_operation : ℕ → OperationMap → Option (List Privileges)
find_operation method [] = none
find_operation method ((verb, required) ∷ map) =
    if verb == method then some required else find_operation method map

pub is_method_allowed_with_privileges : ℕ → OperationMap → Privileges → Bool
unfolding find_operation check_privileges
is_method_allowed_with_privileges method map user = elim (find_operation method map) [
  | none ↦ false
  | some required ↦ check_privileges required user
]

-- The user is not looked up: every user is given all privileges.
pub is_method_allowed_for_user : ℕ → OperationMap → Bytes → Bool
is_method_allowed_for_user method map user =
    is_method_allowed_with_privileges method map (of_list administrator)
