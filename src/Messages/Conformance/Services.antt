-- ===== src/Messages/Conformance/Services.antt =====
-- The tables agree, one function after the other.
use bmcweb.Prelude.{refl, Bytes, All}
use bmcweb.Messages.Registry.BaseA.{entries_access_denied}
use bmcweb.Messages.Registry.BaseB.{entries_action_parameter_value_type_error}
use bmcweb.Messages.Registry.BaseC.{entries_invalid_index}
use bmcweb.Messages.Registry.BaseD.{entries_property_value_not_in_list}
use bmcweb.Messages.Registry.BaseE.{entries_resource_at_uri_unauthorized}
use bmcweb.Messages.Registry.BaseF.{entries_service_temporarily_unavailable}
use bmcweb.Messages.Registry.{base_registry, get_message_from_registry}
use bmcweb.Messages.ServicesA.{
  resource_in_use, resource_missing_at_uri, internal_error, resource_at_uri_unauthorized,
  resource_cannot_be_deleted, service_temporarily_unavailable, resource_already_exists,
  account_for_session_no_longer_exists, resource_at_uri_in_unknown_format, service_in_unknown_state,
}
use bmcweb.Messages.ServicesB.{
  event_subscription_limit_exceeded, session_terminated, resource_type_incompatible,
  resource_not_found, service_shutting_down, account_removed, general_error,
}
use bmcweb.Messages.ServicesC.{
  success, created, no_operation, no_valid_session, resource_in_standby, session_limit_exceeded,
  insufficient_privilege, account_not_modified, resource_exhaustion, account_modified,
}
use bmcweb.Messages.Conformance.{
  Function, Always, Conforms, SameText, substitute, functions_services_a, functions_services_b,
  functions_services_c,
}

pub functions_services_a-Conforms :
    All (λ (r : Bytes × Function). Always (Conforms SameText r.0) r.1) functions_services_a
unfolding base_registry entries_access_denied entries_action_parameter_value_type_error
    entries_invalid_index entries_property_value_not_in_list entries_resource_at_uri_unauthorized
    entries_service_temporarily_unavailable get_message_from_registry substitute resource_in_use
    resource_missing_at_uri internal_error resource_at_uri_unauthorized resource_cannot_be_deleted
    service_temporarily_unavailable resource_already_exists account_for_session_no_longer_exists
    resource_at_uri_in_unknown_format service_in_unknown_state
functions_services_a-Conforms = (
  (_, refl, refl, refl, refl, refl, refl),
  (
    λ a. (_, refl, refl, refl, refl, refl, refl),
    (
      (_, refl, refl, refl, refl, refl, refl),
      (
        λ a b. (_, refl, refl, refl, refl, refl, refl),
        (
          (_, refl, refl, refl, refl, refl, refl),
          (
            λ a. (_, refl, refl, refl, refl, refl, refl),
            (
              λ a b c. (_, refl, refl, refl, refl, refl, refl),
              (
                (_, refl, refl, refl, refl, refl, refl),
                (
                  λ a. (_, refl, refl, refl, refl, refl, refl),
                  ((_, refl, refl, refl, refl, refl, refl), tt),
                ),
              ),
            ),
          ),
        ),
      ),
    ),
  ),
)

pub functions_services_b-Conforms :
    All (λ (r : Bytes × Function). Always (Conforms SameText r.0) r.1) functions_services_b
unfolding base_registry entries_access_denied entries_action_parameter_value_type_error
    entries_invalid_index entries_property_value_not_in_list entries_resource_at_uri_unauthorized
    entries_service_temporarily_unavailable get_message_from_registry substitute
    event_subscription_limit_exceeded session_terminated resource_type_incompatible
    resource_not_found service_shutting_down account_removed general_error
functions_services_b-Conforms = (
  (_, refl, refl, refl, refl, refl, refl),
  (
    (_, refl, refl, refl, refl, refl, refl),
    (
      λ a b. (_, refl, refl, refl, refl, refl, refl),
      (
        λ a b. (_, refl, refl, refl, refl, refl, refl),
        (
          (_, refl, refl, refl, refl, refl, refl),
          ((_, refl, refl, refl, refl, refl, refl), ((_, refl, refl, refl, refl, refl, refl), tt)),
        ),
      ),
    ),
  ),
)

pub functions_services_c-Conforms :
    All (λ (r : Bytes × Function). Always (Conforms SameText r.0) r.1) functions_services_c
unfolding base_registry entries_access_denied entries_action_parameter_value_type_error
    entries_invalid_index entries_property_value_not_in_list entries_resource_at_uri_unauthorized
    entries_service_temporarily_unavailable get_message_from_registry substitute success created
    no_operation no_valid_session resource_in_standby session_limit_exceeded insufficient_privilege
    account_not_modified resource_exhaustion account_modified
functions_services_c-Conforms = (
  (_, refl, refl, refl, refl, refl, refl),
  (
    (_, refl, refl, refl, refl, refl, refl),
    (
      (_, refl, refl, refl, refl, refl, refl),
      (
        (_, refl, refl, refl, refl, refl, refl),
        (
          (_, refl, refl, refl, refl, refl, refl),
          (
            (_, refl, refl, refl, refl, refl, refl),
            (
              (_, refl, refl, refl, refl, refl, refl),
              (
                (_, refl, refl, refl, refl, refl, refl),
                (
                  λ a. (_, refl, refl, refl, refl, refl, refl),
                  ((_, refl, refl, refl, refl, refl, refl), tt),
                ),
              ),
            ),
          ),
        ),
      ),
    ),
  ),
)
