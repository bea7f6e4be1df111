-- ===== src/Tests/Replies.antt =====
-- Tests and instances for the message functions and the registry.
use bmcweb.Prelude.{
  ℕ, ◌==◌, if◌then◌else◌, ◌≡◌, refl, none, some, List, [], ◌∷◌, ◌++◌, Bytes, codes, arith,
}
use bmcweb.Messages.Registry.BaseA.{entries_access_denied}
use bmcweb.Messages.{Message, Emission}
use bmcweb.Messages.RequestsB.{property_unknown, property_missing, empty_json}
use bmcweb.Messages.Added.{Reply, emit_all, in_error, annotated, last_status, extend}
use bmcweb.Messages.Delivery.{emit_all_lem, array_at}
use bmcweb.Messages.Registry.{base_registry, get_message_from_registry}
use bmcweb.Messages.Conformance.{substitute}
use bmcweb.Messages.EventLog.{Sources, found, fill_event_log_entry_json}
use bmcweb.Messages.EventLog.Lines.{fill_event_log_entry_json_lem}

abbrev blank : Reply
blank = record { result = 200; error_object = none; annotations = [] }

abbrev calls : List Emission
calls = property_unknown (codes "Id") ∷ empty_json ∷ property_missing (codes "Name") ∷ []

emit_all_lem_example :
    ((emit_all blank calls).error_object ≡ extend blank.error_object (in_error calls))
    × ((key : Bytes)
        → array_at key (emit_all blank calls).annotations
          ≡ array_at key blank.annotations ++ annotated key calls)
    × ((emit_all blank calls).result ≡ last_status blank.result calls)
emit_all_lem_example = emit_all_lem calls blank

abbrev denied : Message
denied = record {
  description =
      codes
        "Indicates that while attempting to access, connect to or transfer to/from another resource, the service denied access.";
  message = codes "While attempting to establish a connection to %1, the service denied access.";
  severity = codes "Critical";
  number_of_args = 1;
  param_types = codes "string" ∷ [];
  resolution =
      codes
        "Attempt to ensure that the URI is correct and that the service has the appropriate credentials.";
}

access_denied_entry : get_message_from_registry (codes "AccessDenied") base_registry ≡ some denied
unfolding get_message_from_registry base_registry entries_access_denied
access_denied_entry = refl

abbrev put_first : ℕ → List Bytes → List Bytes
put_first c [] = (c ∷ []) ∷ []
put_first c (s ∷ rest) = (c ∷ s) ∷ rest

abbrev split_at : ℕ → Bytes → List Bytes
split_at b [] = [] ∷ []
split_at b (c ∷ s) = let rest = split_at b s in if c == b then [] ∷ rest else put_first c rest

abbrev sources : Sources
sources = record { split_dots = split_at 46; split_commas = split_at 44; openbmc_registry = [] }

fill_event_log_entry_json_lem_example :
    fill_event_log_entry_json sources (codes "7") (
      (codes "10:20" ++ (46 ∷ (codes "123" ++ (43 ∷ codes "00:00"))))
      ++ (32 ∷ 66 ∷ codes "ase.1.4.AccessDenied,host"))
    ≡ found (
        some (record {
          id = codes "7";
          message = substitute (codes "host" ∷ []) denied.message;
          message_id = codes "Base.1.4.AccessDenied";
          message_args = codes "host" ∷ [];
          severity = codes "Critical";
          created = codes "10:20" ++ (43 ∷ codes "00:00");
        }))
fill_event_log_entry_json_lem_example =
    fill_event_log_entry_json_lem sources (codes "7") (codes "10:20") (codes "123") (codes "00:00")
      (codes "Base.1.4.AccessDenied") (codes "1") (codes "4") (codes "AccessDenied")
      (codes "ase.1.4.AccessDenied,host") 66 (codes "host" ∷ []) denied (ground arith)
      (ground arith) (ground arith) (ground arith) (omega arith) refl (refl, tt) refl
      access_denied_entry refl (ground arith)
