-- ===== src/Messages/Conformance/Requests.antt =====
-- The tables agree, one function after the other.
use bmcweb.Prelude.{refl, Bytes, All}
use bmcweb.Messages.Registry.BaseA.{entries_access_denied}
use bmcweb.Messages.Registry.BaseB.{entries_action_parameter_value_type_error}
use bmcweb.Messages.Registry.BaseC.{entries_invalid_index}
use bmcweb.Messages.Registry.BaseD.{entries_property_value_not_in_list}
use bmcweb.Messages.Registry.BaseE.{entries_resource_at_uri_unauthorized}
use bmcweb.Messages.Registry.BaseF.{entries_service_temporarily_unavailable}
use bmcweb.Messages.Registry.{base_registry, get_message_from_registry}
use bmcweb.Messages.RequestsA.{
  malformed_json, unrecognized_request_body, property_duplicate,
  create_failed_missing_req_properties, property_value_format_error, property_value_not_in_list,
  string_value_too_long, property_value_type_error, property_not_writable,
  query_parameter_value_type_error, query_not_supported,
}
use bmcweb.Messages.RequestsB.{
  create_limit_reached_for_resource, property_unknown, invalid_object, empty_json,
  query_not_supported_on_resource, property_value_modified, query_parameter_value_format_error,
  property_missing, query_parameter_out_of_range,
}
use bmcweb.Messages.Actions.{
  action_parameter_value_format_error, action_parameter_unknown, action_parameter_missing,
  action_parameter_duplicate, action_parameter_not_supported, action_parameter_value_type_error,
  action_not_supported,
}
use bmcweb.Messages.Conformance.{
  Function, Always, Conforms, SameText, substitute, functions_requests_a, functions_requests_b,
  functions_actions,
}

pub functions_requests_a-Conforms :
    All (λ (r : Bytes × Function). Always (Conforms SameText r.0) r.1) functions_requests_a
unfolding base_registry entries_access_denied entries_action_parameter_value_type_error
    entries_invalid_index entries_property_value_not_in_list entries_resource_at_uri_unauthorized
    entries_service_temporarily_unavailable get_message_from_registry substitute malformed_json
    unrecognized_request_body property_duplicate create_failed_missing_req_properties
    property_value_format_error property_value_not_in_list string_value_too_long
    property_value_type_error property_not_writable query_parameter_value_type_error
    query_not_supported
functions_requests_a-Conforms = (
  (_, refl, refl, refl, refl, refl, refl),
  (
    (_, refl, refl, refl, refl, refl, refl),
    (
      λ a. (_, refl, refl, refl, refl, refl, refl),
      (
        λ a. (_, refl, refl, refl, refl, refl, refl),
        (
          λ a b. (_, refl, refl, refl, refl, refl, refl),
          (
            λ a b. (_, refl, refl, refl, refl, refl, refl),
            (
              λ a n. (_, refl, refl, refl, refl, refl, refl),
              (
                λ a b. (_, refl, refl, refl, refl, refl, refl),
                (
                  λ a. (_, refl, refl, refl, refl, refl, refl),
                  (
                    λ a b. (_, refl, refl, refl, refl, refl, refl),
                    ((_, refl, refl, refl, refl, refl, refl), tt),
                  ),
                ),
              ),
            ),
          ),
        ),
      ),
    ),
  ),
)

pub functions_requests_b-Conforms :
    All (λ (r : Bytes × Function). Always (Conforms SameText r.0) r.1) functions_requests_b
unfolding base_registry entries_access_denied entries_action_parameter_value_type_error
    entries_invalid_index entries_property_value_not_in_list entries_resource_at_uri_unauthorized
    entries_service_temporarily_unavailable get_message_from_registry substitute
    create_limit_reached_for_resource property_unknown invalid_object empty_json
    query_not_supported_on_resource property_value_modified query_parameter_value_format_error
    property_missing query_parameter_out_of_range
functions_requests_b-Conforms = (
  (_, refl, refl, refl, refl, refl, refl),
  (
    λ a. (_, refl, refl, refl, refl, refl, refl),
    (
      λ a. (_, refl, refl, refl, refl, refl, refl),
      (
        (_, refl, refl, refl, refl, refl, refl),
        (
          (_, refl, refl, refl, refl, refl, refl),
          (
            λ a b. (_, refl, refl, refl, refl, refl, refl),
            (
              λ a b. (_, refl, refl, refl, refl, refl, refl),
              (
                λ a. (_, refl, refl, refl, refl, refl, refl),
                (λ a b c. (_, refl, refl, refl, refl, refl, refl), tt),
              ),
            ),
          ),
        ),
      ),
    ),
  ),
)

pub functions_actions-Conforms :
    All (λ (r : Bytes × Function). Always (Conforms SameText r.0) r.1) functions_actions
unfolding base_registry entries_access_denied entries_action_parameter_value_type_error
    entries_invalid_index entries_property_value_not_in_list entries_resource_at_uri_unauthorized
    entries_service_temporarily_unavailable get_message_from_registry substitute
    action_parameter_value_format_error action_parameter_unknown action_parameter_missing
    action_parameter_duplicate action_parameter_not_supported action_parameter_value_type_error
    action_not_supported
functions_actions-Conforms = (
  λ a b c. (_, refl, refl, refl, refl, refl, refl),
  (
    λ a b. (_, refl, refl, refl, refl, refl, refl),
    (
      λ a b. (_, refl, refl, refl, refl, refl, refl),
      (
        λ a b. (_, refl, refl, refl, refl, refl, refl),
        (
          λ a b. (_, refl, refl, refl, refl, refl, refl),
          (
            λ a b c. (_, refl, refl, refl, refl, refl, refl),
            (λ a. (_, refl, refl, refl, refl, refl, refl), tt),
          ),
        ),
      ),
    ),
  ),
)
