-- ===== src/Roles.antt =====
-- `UserRoleMap` of include/sessions.hpp: the roles of the users, kept up to date by D-Bus signals.
-- A message is what its read gives: `none` where the read throws. The registration of the matches
-- on the bus is not modelled; a callback's call is an event.
pub mod Laws
use bmcweb.Prelude.{
  ℕ, zero, suc, ◌+◌, Bool, true, false, Option, none, some, List, [], ◌∷◌, Bytes, codes, length,
  drop, if◌then◌else◌, ◌==◌, leb,
}
use bmcweb.Prelude.Assoc.{Assoc, lookup, emplace, assign, erase}

-- `std::variant<std::string, bool>`
pub data PropertyValue : Type 0 where
  text : Bytes → PropertyValue
  flag : Bool → PropertyValue

abbrev pub Properties : Type 0
Properties = Assoc PropertyValue

abbrev pub Interfaces : Type 0
Interfaces = Assoc Properties

abbrev pub RoleMap : Type 0
RoleMap = Assoc Bytes

abbrev user_attr_iface : Bytes
user_attr_iface = codes "xyz.openbmc_project.User.Attributes"

abbrev user_privilege : Bytes
user_privilege = codes "UserPrivilege"

-- `s.rfind("/")`
pub rfind_slash : Bytes → Option ℕ
rfind_slash [] = none
rfind_slash (c ∷ s) = elim (rfind_slash s) [
  | some i ↦ some (suc i)
  | none ↦ if c == b'/' then some 0 else none
]

pub get_user_role : Bytes → RoleMap → Bytes
get_user_role name map = elim (lookup name map) [ none ↦ [] | some role ↦ role ]

-- `std::get_if<std::string>`
abbrev pub get_text : PropertyValue → Option Bytes
get_text (text s) = some s
get_text (flag b) = none

abbrev pub or_empty : Option Bytes → Bytes
or_empty none = []
or_empty (some s) = s

pub extract_user_role : Interfaces → Bytes
extract_user_role interfaces = elim (lookup user_attr_iface interfaces) [
  | none ↦ []
  | some properties ↦ elim (lookup user_privilege properties) [
    | none ↦ []
    | some value ↦ or_empty (get_text value)
  ]
]

-- What `userAdded` and the constructor's callback do with one object.
pub add_object : Bytes → Interfaces → RoleMap → RoleMap
unfolding extract_user_role
add_object path interfaces map = elim (rfind_slash path) [
  | none ↦ map
  | some last ↦ emplace (drop (last + 1) path) (extract_user_role interfaces) map
]

pub user_added : Option (Bytes × Interfaces) → RoleMap → RoleMap
user_added none map = map
user_added (some (path, interfaces)) map = add_object path interfaces map

pub user_removed : Option Bytes → RoleMap → RoleMap
user_removed none map = map
user_removed (some path) map = elim (rfind_slash path) [
  | none ↦ map
  | some last ↦ if leb (length path) (last + 1) then map else erase (drop (last + 1) path) map
]

change_role : Bytes → PropertyValue → RoleMap → RoleMap
change_role user value map = elim (get_text value) [
  | none ↦ map
  | some role ↦ elim (lookup user map) [ none ↦ map | some old ↦ assign user role map ]
]

pub user_properties_changed : Bytes → Properties → RoleMap → RoleMap
unfolding change_role
user_properties_changed path changed map = elim (rfind_slash path) [
  | none ↦ map
  | some last ↦ if last + 1 == length path then map else elim (lookup user_privilege changed) [
    | none ↦ map
    | some value ↦ change_role (drop (last + 1) path) value map
  ]
]

-- The answer to `GetManagedObjects`; `none` is an error code.
pub objects_loaded : Option (List (Bytes × Interfaces)) → RoleMap → RoleMap
objects_loaded none map = map
objects_loaded (some []) map = map
objects_loaded (some ((path, interfaces) ∷ objects)) map =
    objects_loaded (some objects) (add_object path interfaces map)

-- The callbacks of the object, as the bus calls them. A message of changed properties that cannot
-- be read throws out of the callback before the map is touched.
pub data Event : Type 0 where
  added : Option (Bytes × Interfaces) → Event
  removed : Option Bytes → Event
  changed : Bytes → Option Properties → Event
  loaded : Option (List (Bytes × Interfaces)) → Event

pub step : RoleMap → Event → RoleMap
step map (added m) = user_added m map
step map (removed m) = user_removed m map
step map (changed path none) = map
step map (changed path (some properties)) = user_properties_changed path properties map
step map (loaded m) = objects_loaded m map

pub run : RoleMap → List Event → RoleMap
run map [] = map
run map (e ∷ events) = run (step map e) events
