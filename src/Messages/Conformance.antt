-- ===== src/Messages/Conformance.antt =====
-- The message functions of redfish-core/src/error_messages.cpp against the registry of
-- redfish-core/include/registries/base_message_registry.hpp.
pub mod Services
pub mod Requests
pub mod Whole
use bmcweb.Prelude.{
  ℕ, ℤ, to_string, ◌-◌, ◌≡◌, Bool, true, false, some, List, [], ◌∷◌, ◌++◌, Bytes, codes, length,
  get_or, ltb, ◌==◌,
}
use bmcweb.Messages.{Message, MessageJson, Emission}
use bmcweb.Messages.Registry.{base_id, base_registry, get_message_from_registry}
use bmcweb.Messages.ServicesA.{
  resource_in_use, resource_missing_at_uri, internal_error, resource_at_uri_unauthorized,
  resource_cannot_be_deleted, service_temporarily_unavailable, resource_already_exists,
  account_for_session_no_longer_exists, resource_at_uri_in_unknown_format, service_in_unknown_state,
}
use bmcweb.Messages.ServicesB.{
  event_subscription_limit_exceeded, session_terminated, resource_type_incompatible,
  resource_not_found, could_not_establish_connection, service_shutting_down,
  source_does_not_support_protocol, account_removed, access_denied, general_error,
}
use bmcweb.Messages.ServicesC.{
  success, created, no_operation, no_valid_session, resource_in_standby, session_limit_exceeded,
  insufficient_privilege, account_not_modified, resource_exhaustion, account_modified,
}
use bmcweb.Messages.RequestsA.{
  malformed_json, unrecognized_request_body, property_duplicate,
  create_failed_missing_req_properties, property_value_format_error, property_value_not_in_list,
  string_value_too_long, property_value_type_error, property_not_writable,
  query_parameter_value_type_error, query_not_supported,
}
use bmcweb.Messages.RequestsB.{
  create_limit_reached_for_resource, property_unknown, invalid_object, invalid_index, empty_json,
  query_not_supported_on_resource, property_value_modified, query_parameter_value_format_error,
  property_missing, query_parameter_out_of_range,
}
use bmcweb.Messages.Actions.{
  action_parameter_value_format_error, action_parameter_unknown, action_parameter_missing,
  action_parameter_duplicate, action_parameter_not_supported, action_parameter_value_type_error,
  action_not_supported,
}

-- A message function, by the types of its arguments.
pub data Function : Type 0 where
  plain : Emission → Function
  of_one : (Bytes → Emission) → Function
  of_two : (Bytes → Bytes → Emission) → Function
  of_three : (Bytes → Bytes → Bytes → Emission) → Function
  of_number : (ℤ → Emission) → Function
  of_text_number : (Bytes → ℤ → Emission) → Function

-- A property of a call holds of it whatever the arguments.
abbrev pub Always : (Emission → Type 0) → Function → Type 0
Always P (plain e) = P e
Always P (of_one f) = (a : Bytes) → P (f a)
Always P (of_two f) = (a b : Bytes) → P (f a b)
Always P (of_three f) = (a b c : Bytes) → P (f a b c)
Always P (of_number f) = (n : ℤ) → P (f n)
Always P (of_text_number f) = (a : Bytes) (n : ℤ) → P (f a n)

-- The template with each "%d" replaced by the argument of that number, in one pass.
unfoldable pub substitute : List Bytes → Bytes → Bytes
substitute args [] = []
substitute args (c ∷ []) = c ∷ []
substitute args (c ∷ d ∷ s) = elim (c == 37) [
  | true ↦ get_or args (d - 49) [] ++ substitute args s
  | false ↦ c ∷ substitute args (d ∷ s)
]

-- The registry has an entry under the key of the message's identifier, with its number of arguments,
-- its severity and its resolution, and for which `Text` holds.
abbrev pub Conforms : (Message → MessageJson → Type 0) → Bytes → Emission → Type 0
Conforms Text key e =
    (entry : Message) × (e.json.message_id ≡ base_id ++ (codes "." ++ key))
    × (get_message_from_registry key base_registry ≡ some entry)
    × (length e.json.message_args ≡ entry.number_of_args)
    × (e.json.severity ≡ entry.severity)
    × (e.json.resolution ≡ entry.resolution)
    × Text entry e.json

-- The text is the registry's with the arguments put in.
abbrev pub SameText : Message → MessageJson → Type 0
SameText entry json = json.message ≡ substitute json.message_args entry.message

-- The functions whose text is the registry's, with their keys, and the others
abbrev pub functions_services_a : List (Bytes × Function)
functions_services_a =
    (codes "ResourceInUse", plain resource_in_use)
    ∷ (codes "ResourceMissingAtURI", of_one resource_missing_at_uri)
    ∷ (codes "InternalError", plain internal_error)
    ∷ (codes "ResourceAtUriUnauthorized", of_two resource_at_uri_unauthorized)
    ∷ (codes "ResourceCannotBeDeleted", plain resource_cannot_be_deleted)
    ∷ (codes "ServiceTemporarilyUnavailable", of_one service_temporarily_unavailable)
    ∷ (codes "ResourceAlreadyExists", of_three resource_already_exists)
    ∷ (codes "AccountForSessionNoLongerExists", plain account_for_session_no_longer_exists)
    ∷ (codes "ResourceAtUriInUnknownFormat", of_one resource_at_uri_in_unknown_format)
    ∷ (codes "ServiceInUnknownState", plain service_in_unknown_state)
    ∷ []

abbrev pub functions_services_b : List (Bytes × Function)
functions_services_b =
    (codes "EventSubscriptionLimitExceeded", plain event_subscription_limit_exceeded)
    ∷ (codes "SessionTerminated", plain session_terminated)
    ∷ (codes "ResourceTypeIncompatible", of_two resource_type_incompatible)
    ∷ (codes "ResourceNotFound", of_two resource_not_found)
    ∷ (codes "ServiceShuttingDown", plain service_shutting_down)
    ∷ (codes "AccountRemoved", plain account_removed)
    ∷ (codes "GeneralError", plain general_error)
    ∷ []

abbrev pub functions_services_c : List (Bytes × Function)
functions_services_c =
    (codes "Success", plain success)
    ∷ (codes "Created", plain created)
    ∷ (codes "NoOperation", plain no_operation)
    ∷ (codes "NoValidSession", plain no_valid_session)
    ∷ (codes "ResourceInStandby", plain resource_in_standby)
    ∷ (codes "SessionLimitExceeded", plain session_limit_exceeded)
    ∷ (codes "InsufficientPrivilege", plain insufficient_privilege)
    ∷ (codes "AccountNotModified", plain account_not_modified)
    ∷ (codes "ResourceExhaustion", of_one resource_exhaustion)
    ∷ (codes "AccountModified", plain account_modified)
    ∷ []

abbrev pub functions_requests_a : List (Bytes × Function)
functions_requests_a =
    (codes "MalformedJSON", plain malformed_json)
    ∷ (codes "UnrecognizedRequestBody", plain unrecognized_request_body)
    ∷ (codes "PropertyDuplicate", of_one property_duplicate)
    ∷ (codes "CreateFailedMissingReqProperties", of_one create_failed_missing_req_properties)
    ∷ (codes "PropertyValueFormatError", of_two property_value_format_error)
    ∷ (codes "PropertyValueNotInList", of_two property_value_not_in_list)
    ∷ (codes "StringValueTooLong", of_text_number string_value_too_long)
    ∷ (codes "PropertyValueTypeError", of_two property_value_type_error)
    ∷ (codes "PropertyNotWritable", of_one property_not_writable)
    ∷ (codes "QueryParameterValueTypeError", of_two query_parameter_value_type_error)
    ∷ (codes "QueryNotSupported", plain query_not_supported)
    ∷ []

abbrev pub functions_requests_b : List (Bytes × Function)
functions_requests_b =
    (codes "CreateLimitReachedForResource", plain create_limit_reached_for_resource)
    ∷ (codes "PropertyUnknown", of_one property_unknown)
    ∷ (codes "InvalidObject", of_one invalid_object)
    ∷ (codes "EmptyJSON", plain empty_json)
    ∷ (codes "QueryNotSupportedOnResource", plain query_not_supported_on_resource)
    ∷ (codes "PropertyValueModified", of_two property_value_modified)
    ∷ (codes "QueryParameterValueFormatError", of_two query_parameter_value_format_error)
    ∷ (codes "PropertyMissing", of_one property_missing)
    ∷ (codes "QueryParameterOutOfRange", of_three query_parameter_out_of_range)
    ∷ []

abbrev pub functions_actions : List (Bytes × Function)
functions_actions =
    (codes "ActionParameterValueFormatError", of_three action_parameter_value_format_error)
    ∷ (codes "ActionParameterUnknown", of_two action_parameter_unknown)
    ∷ (codes "ActionParameterMissing", of_two action_parameter_missing)
    ∷ (codes "ActionParameterDuplicate", of_two action_parameter_duplicate)
    ∷ (codes "ActionParameterNotSupported", of_two action_parameter_not_supported)
    ∷ (codes "ActionParameterValueTypeError", of_three action_parameter_value_type_error)
    ∷ (codes "ActionNotSupported", of_one action_not_supported)
    ∷ []

abbrev pub retyped : List (Bytes × Function)
retyped =
    (codes "CouldNotEstablishConnection", of_one could_not_establish_connection)
    ∷ (codes "SourceDoesNotSupportProtocol", of_two source_does_not_support_protocol)
    ∷ (codes "AccessDenied", of_one access_denied)
    ∷ (codes "InvalidIndex", of_number invalid_index)
    ∷ []
