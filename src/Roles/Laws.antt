-- ===== src/Roles/Laws.antt =====
-- What the role map of include/sessions.hpp knows after any history of user signals.
use bmcweb.Prelude.{
  ℕ, zero, suc, ◌+◌, ◌≡◌, ◌≢◌, refl, Option, none, some, List, [], ◌∷◌, ◌++◌, Bytes, inl, inr,
  bytes_eq, length, length-append, drop, All, if◌then◌else◌, arith, Option-cases,
}
use bmcweb.Prelude.Assoc.{
  lookup, emplace, erase, HasDistinctKeys, lookup-emplace, lookup-erase_self, lookup-erase_ne,
  lookup-assign_self, lookup-assign_ne, emplace-HasDistinctKeys, assign-HasDistinctKeys,
  erase-HasDistinctKeys,
}
use bmcweb.Privileges.{get_user_privileges, of_list, read_only}
use bmcweb.Privileges.Access.{get_user_privileges_lowest}
use bmcweb.Roles.{
  RoleMap, Interfaces, Properties, text, Event, added, removed, changed, loaded, rfind_slash,
  get_user_role, extract_user_role, user_privilege, add_object, user_added, user_removed,
  change_role, user_properties_changed, objects_loaded, step, run,
}

abbrev pub NoSlash : Bytes → Type 0
NoSlash = All (λ c. c ≢ b'/')

rfind_slash-none : (name : Bytes) → NoSlash name → rfind_slash name ≡ none
unfolding rfind_slash
rfind_slash-none [] h = refl
rfind_slash-none (c ∷ name) (p, h) = ground (arith, rfind_slash-none name h)

rfind_slash_last :
    (pre name : Bytes) → NoSlash name → rfind_slash (pre ++ b'/' ∷ name) ≡ some (length pre)
unfolding rfind_slash
rfind_slash_last [] name h = rw (rfind_slash-none name h)
rfind_slash_last (c ∷ pre) name h = rw (rfind_slash_last pre name h)

drop_last : (pre name : Bytes) (n : ℕ) → n ≡ length pre + 1 → drop n (pre ++ b'/' ∷ name) ≡ name
drop_last [] name zero e = absurd (omega arith)
drop_last [] name (suc zero) e = refl
drop_last [] name (suc (suc n)) e = absurd (omega arith)
drop_last (c ∷ pre) name zero e = absurd (omega arith)
drop_last (c ∷ pre) name (suc n) e = drop_last pre name n (omega arith)

-- The name of the user that an object path ends in.
abbrev pub user_path : Bytes → Bytes → Bytes
user_path pre name = pre ++ b'/' ∷ name

add_object_lem :
    (pre name : Bytes) (interfaces : Interfaces) (map : RoleMap)
    → NoSlash name
    → add_object (user_path pre name) interfaces map
      ≡ emplace name (extract_user_role interfaces) map
unfolding add_object
add_object_lem pre name interfaces map h =
    rw (add_object, rfind_slash_last pre name h, drop_last pre name (length pre + 1) refl)

add_object-HasDistinctKeys :
    (path : Bytes) (interfaces : Interfaces) (map : RoleMap)
    → HasDistinctKeys map
    → HasDistinctKeys (add_object path interfaces map)
unfolding add_object
add_object-HasDistinctKeys path interfaces map h = elim (Option-cases (rfind_slash path)) [
  | inl e ↦ rw (e, add_object) h
  | inr (last, e) ↦
      rw (e, add_object)
        (emplace-HasDistinctKeys (drop (last + 1) path) (extract_user_role interfaces) map h)
]

objects_loaded-HasDistinctKeys :
    (objects : List (Bytes × Interfaces)) (map : RoleMap)
    → HasDistinctKeys map
    → HasDistinctKeys (objects_loaded (some objects) map)
unfolding objects_loaded
objects_loaded-HasDistinctKeys [] map h = h
objects_loaded-HasDistinctKeys ((path, interfaces) ∷ objects) map h =
    objects_loaded-HasDistinctKeys objects _ (add_object-HasDistinctKeys path interfaces map h)

user_removed-HasDistinctKeys :
    (m : Option Bytes) (map : RoleMap) → HasDistinctKeys map → HasDistinctKeys (user_removed m map)
unfolding user_removed
user_removed-HasDistinctKeys none map h = h
user_removed-HasDistinctKeys (some path) map h = grind (arith, erase-HasDistinctKeys)

user_properties_changed-HasDistinctKeys :
    (path : Bytes) (properties : Properties) (map : RoleMap)
    → HasDistinctKeys map
    → HasDistinctKeys (user_properties_changed path properties map)
unfolding user_properties_changed
user_properties_changed-HasDistinctKeys path properties map h =
    grind (arith, assign-HasDistinctKeys)

step-HasDistinctKeys :
    (map : RoleMap) (e : Event) → HasDistinctKeys map → HasDistinctKeys (step map e)
unfolding step user_added objects_loaded
step-HasDistinctKeys map (added none) h = h
step-HasDistinctKeys map (added (some (path, interfaces))) h =
    add_object-HasDistinctKeys path interfaces map h
step-HasDistinctKeys map (removed m) h = user_removed-HasDistinctKeys m map h
step-HasDistinctKeys map (changed path none) h = h
step-HasDistinctKeys map (changed path (some properties)) h =
    user_properties_changed-HasDistinctKeys path properties map h
step-HasDistinctKeys map (loaded none) h = h
step-HasDistinctKeys map (loaded (some objects)) h = objects_loaded-HasDistinctKeys objects map h

pub run-HasDistinctKeys :
    (events : List Event) (map : RoleMap) → HasDistinctKeys map → HasDistinctKeys (run map events)
unfolding run
run-HasDistinctKeys [] map h = h
run-HasDistinctKeys (e ∷ events) map h =
    run-HasDistinctKeys events (step map e) (step-HasDistinctKeys map e h)

removed_erases :
    (pre name : Bytes) (map : RoleMap)
    → NoSlash name
    → name ≢ []
    → step map (removed (some (user_path pre name))) ≡ erase name map
unfolding step user_removed
removed_erases pre [] map h ne = absurd (ne refl)
removed_erases pre (c ∷ name) map h ne =
    rw
      (
        rfind_slash_last pre (c ∷ name) h,
        user_removed,
        drop_last pre (c ∷ name) (length pre + 1) refl,
      )
      (ground (arith, length-append pre (b'/' ∷ c ∷ name)))

-- After any history of signals, the signal that a user is removed leaves that user with no role and
-- the privileges of an unknown role, and every other user with the role that it had. (The user's
-- name is what follows the last slash of the path; it is not empty.)
pub user_removed_role :
    (events : List Event) (pre name other : Bytes)
    → NoSlash name
    → name ≢ []
    → name ≢ other
    → let map = run [] events in
      let map' = step map (removed (some (user_path pre name))) in
      (get_user_role name map' ≡ [])
      × (get_user_privileges (get_user_role name map') ≡ of_list read_only)
      × (get_user_role other map' ≡ get_user_role other map)
unfolding get_user_role
user_removed_role events pre name other h ne apart =
    let gone : lookup name (erase name (run [] events)) ≡ none =
      lookup-erase_self name (run [] events) (run-HasDistinctKeys events [] tt) in
    rw (removed_erases pre name (run [] events) h ne) (
      rw (gone, get_user_role),
      rw (gone, get_user_role) (get_user_privileges_lowest [] (λ e. cc) (λ e. cc)),
      rw (lookup-erase_ne name other (run [] events) apart, get_user_role),
    )

-- A user that the map knows keeps its role when it is announced again; a new one gets the role that
-- the announced properties give it, and no other user's role changes.
pub user_added_role :
    (map : RoleMap) (pre name other : Bytes) (interfaces : Interfaces)
    → NoSlash name
    → get_user_role other (step map (added (some (user_path pre name, interfaces))))
      ≡ elim (lookup other map) [
        | some role ↦ role
        | none ↦ if bytes_eq name other then extract_user_role interfaces else []
      ]
unfolding step user_added get_user_role
user_added_role map pre name other interfaces h =
    rw
      (
        add_object_lem pre name interfaces map h,
        get_user_role,
        lookup-emplace name other (extract_user_role interfaces) map,
      )
      (ground arith)

changed_lem :
    (map : RoleMap) (pre name role : Bytes) (properties : Properties)
    → NoSlash name
    → name ≢ []
    → lookup user_privilege properties ≡ some (text role)
    → user_properties_changed (user_path pre name) properties map ≡ change_role name (text role) map
unfolding user_properties_changed
changed_lem map pre [] role properties h ne found = absurd (ne refl)
changed_lem map pre (c ∷ name) role properties h ne found =
    rw
      (
        rfind_slash_last pre (c ∷ name) h,
        user_properties_changed,
        found,
        drop_last pre (c ∷ name) (length pre + 1) refl,
      )
      (ground (arith, length-append pre (b'/' ∷ c ∷ name)))

change_role_lem :
    (map : RoleMap) (name other role : Bytes)
    → name ≢ other
    → (lookup name (change_role name (text role) map)
        ≡ elim (lookup name map) [ some old ↦ some role | none ↦ none ])
      × (lookup other (change_role name (text role) map) ≡ lookup other map)
unfolding change_role
change_role_lem map name other role apart = elim (Option-cases (lookup name map)) [
  | inl e ↦ (ground arith, ground arith)
  | inr (old, e) ↦ (
    ground (arith, lookup-assign_self name role old map),
    ground (arith, lookup-assign_ne name other role map apart),
  )
]

-- A signal of a changed privilege sets the role of the user that it names if the map knows that
-- user, and changes nothing otherwise; no other user's role changes.
pub user_changed_role :
    (map : RoleMap) (pre name other role : Bytes) (properties : Properties)
    → NoSlash name
    → name ≢ []
    → name ≢ other
    → lookup user_privilege properties ≡ some (text role)
    → let map' = step map (changed (user_path pre name) (some properties)) in
      (lookup name map' ≡ elim (lookup name map) [ some old ↦ some role | none ↦ none ])
      × (lookup other map' ≡ lookup other map)
unfolding step
user_changed_role map pre name other role properties h ne apart found =
    rw (changed_lem map pre name role properties h ne found)
      (change_role_lem map name other role apart)
