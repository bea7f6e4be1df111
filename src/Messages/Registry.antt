-- ===== src/Messages/Registry.antt =====
-- The message registries, and how redfish-core/lib/log_services.hpp finds and fills their messages.
pub mod BaseA
pub mod BaseB
pub mod BaseC
pub mod BaseD
pub mod BaseE
pub mod BaseF
use bmcweb.Prelude.{
  ℕ, suc, ◌+◌, ◌-◌, Bool, Option, none, some, List, [], ◌∷◌, ◌++◌, Bytes, bytes_eq, codes, length,
  take, drop, get_elem?, find_text, pos, to_string, if◌then◌else◌,
}
use bmcweb.Messages.Registry.BaseA.{entries_access_denied}
use bmcweb.Messages.Registry.BaseB.{entries_action_parameter_value_type_error}
use bmcweb.Messages.Registry.BaseC.{entries_invalid_index}
use bmcweb.Messages.Registry.BaseD.{entries_property_value_not_in_list}
use bmcweb.Messages.Registry.BaseE.{entries_resource_at_uri_unauthorized}
use bmcweb.Messages.Registry.BaseF.{entries_service_temporarily_unavailable}
use bmcweb.Messages.{Message, RegistryEntry}

-- What the code reads of `base::header`
abbrev pub base_id : Bytes
base_id = codes "Base.1.4.0"

abbrev pub base_prefix : Bytes
base_prefix = codes "Base"

unfoldable pub base_registry : List RegistryEntry
base_registry =
    entries_access_denied
    ++ (entries_action_parameter_value_type_error
        ++ (entries_invalid_index
            ++ (entries_property_value_not_in_list
                ++ (entries_resource_at_uri_unauthorized
                    ++ entries_service_temporarily_unavailable))))

-- `getMessageFromRegistry(messageKey, registry)`, `none` for a null pointer
unfoldable pub get_message_from_registry : Bytes → List RegistryEntry → Option Message
get_message_from_registry key [] = none
get_message_from_registry key ((k, m) ∷ entries) =
    if bytes_eq k key then some m else get_message_from_registry key entries

-- `msg.replace(argPos, n, arg)` where `argPos` was found
abbrev pub replace_at : Option ℕ → Bytes → ℕ → Bytes → Bytes
replace_at none msg n arg = msg
replace_at (some arg_pos) msg n arg = take arg_pos msg ++ (arg ++ drop (arg_pos + n) msg)

-- The loop of `fillEventLogEntryJson` over the arguments; `i` counts those before.
unfoldable pub fill : ℕ → List Bytes → Bytes → Bytes
fill i [] msg = msg
fill i (arg ∷ args) msg =
    let arg_str = 37 ∷ to_string (pos (suc i)) in
    fill (suc i) args (replace_at (find_text msg arg_str) msg (length arg_str) arg)
