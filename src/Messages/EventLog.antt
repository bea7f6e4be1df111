-- ===== src/Messages/EventLog.antt =====
-- `getMessage` and `fillEventLogEntryJson` of redfish-core/lib/log_services.hpp: from a line of the log
-- to an entry of the event log.
pub mod Lines
use bmcweb.Prelude.{
  ℕ, suc, ◌+◌, ◌-◌, Bool, true, false, not, Option, none, some, List, [], ◌∷◌, ◌++◌, Bytes,
  bytes_eq, codes, take, drop, find_text, is_empty, ltb, ◌==◌, if◌then◌else◌,
}
use bmcweb.Messages.{Message, RegistryEntry}
use bmcweb.Messages.Registry.{base_prefix, base_registry, get_message_from_registry, fill}

-- What the code takes from elsewhere: `boost::split` at dots, and at commas with
-- `token_compress_on`, and the registry of openbmc_message_registry.hpp.
pub record Sources : Type 0 where
  pub split_dots : Bytes → List Bytes
  pub split_commas : Bytes → List Bytes
  pub openbmc_registry : List RegistryEntry

-- What a function returns; `undefined` where it reads past the end of a vector.
pub data Read (A : Type 0) : Type 0 where
  undefined : Read A
  found : Option A → Read A

-- `getMessage(messageID)`, given the fields
abbrev pub message_of_fields : Sources → List Bytes → Read Message
message_of_fields src (registry_name ∷ major ∷ minor ∷ key ∷ others) =
    if bytes_eq base_prefix registry_name
    then found (get_message_from_registry key base_registry)
    else if bytes_eq (codes "OpenBMC") registry_name
    then found (get_message_from_registry key src.openbmc_registry)
    else found none
message_of_fields src _ = undefined

unfoldable pub get_message : Sources → Bytes → Read Message
get_message src id = message_of_fields src (src.split_dots id)

-- The members of the entry that depend on the line.
pub record LogEntry : Type 0 where
  pub id : Bytes
  pub message : Bytes
  pub message_id : Bytes
  pub message_args : List Bytes
  pub severity : Bytes
  pub created : Bytes

-- `s.find_first_not_of(" ", pos)` for a `pos` inside `s`, as what is left of `s` from there
abbrev pub after_spaces : Bytes → Option Bytes
after_spaces [] = none
after_spaces (c ∷ s) = let rest = after_spaces s in if c == 32 then rest else some (c ∷ s)

-- `timestamp.erase(dot, plus - dot)`, where the difference wraps and takes the rest if it is negative
abbrev pub erase_fraction : Option ℕ → Option ℕ → Bytes → Bytes
erase_fraction (some dot) (some plus) t =
    if ltb plus dot then take dot t else take dot t ++ drop plus t
erase_fraction _ _ t = t

unfoldable pub without_fraction : Bytes → Bytes
without_fraction t = erase_fraction (find_text t (codes ".")) (find_text t (codes "+")) t

-- `messageArgs`: none where the first field behind the identifier is empty.
abbrev pub arguments : List Bytes → List Bytes
arguments [] = []
arguments (first ∷ others) = if is_empty first then [] else first ∷ others

abbrev pub message_text : Option Message → Bytes
message_text none = []
message_text (some m) = m.message

abbrev pub message_severity : Option Message → Bytes
message_severity none = []
message_severity (some m) = m.severity

-- The entry made of what was found.
abbrev pub entry_of : Bytes → Bytes → Bytes → List Bytes → Read Message → Read LogEntry
entry_of id timestamp message_id args undefined = undefined
entry_of id timestamp message_id args (found m) = found (
    some (record {
      id = id;
      message = fill 0 args (message_text m);
      message_id = message_id;
      message_args = args;
      severity = message_severity m;
      created = without_fraction timestamp;
    }))

-- What follows the timestamp: `entry` split into its fields.
abbrev pub entry_of_fields : Sources → Bytes → Bytes → List Bytes → Read LogEntry
entry_of_fields src id timestamp [] = found none
entry_of_fields src id timestamp (message_id ∷ fields) =
    entry_of id timestamp message_id (arguments fields) (get_message src message_id)

abbrev pub entry_of_rest : Sources → Bytes → Bytes → Option Bytes → Read LogEntry
entry_of_rest src id timestamp none = found none
entry_of_rest src id timestamp (some entry) =
    entry_of_fields src id timestamp (src.split_commas entry)

abbrev pub entry_at : Sources → Bytes → Bytes → Option ℕ → Read LogEntry
entry_at src id line none = found none
entry_at src id line (some space) =
    entry_of_rest src id (take space line) (after_spaces (drop space line))

-- `fillEventLogEntryJson(logEntryID, logEntry, logEntryJson)`; `found none` where it returns 1.
unfoldable pub fill_event_log_entry_json : Sources → Bytes → Bytes → Read LogEntry
fill_event_log_entry_json src id line = entry_at src id line (find_text line (codes " "))
