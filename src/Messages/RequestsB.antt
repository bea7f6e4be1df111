-- ===== src/Messages/RequestsB.antt =====
-- Message functions of redfish-core/src/error_messages.cpp about the request as a whole and its properties.
use bmcweb.Prelude.{ℤ, to_string, some, [], ◌∷◌, ◌++◌, Bytes, codes}
use bmcweb.Messages.{Emission, emission, message_json, error, at}

-- `createLimitReachedForResource`
unfoldable pub create_limit_reached_for_resource : Emission
create_limit_reached_for_resource = emission (some 400) error (
    message_json (codes "Base.1.4.0.CreateLimitReachedForResource")
      (codes
        "The create operation failed because the resource has reached the limit of possible resources.")
      ([]) (codes "Critical")
      (codes
        "Either delete resources and resubmit the request if the operation failed or do not resubmit the request."))

-- `propertyUnknown`
unfoldable pub property_unknown : Bytes → Emission
property_unknown arg1 = emission (some 400) (at arg1) (
    message_json (codes "Base.1.4.0.PropertyUnknown")
      (codes "The property "
        ++ (arg1 ++ codes " is not in the list of valid properties for the resource."))
      (arg1 ∷ []) (codes "Warning")
      (codes
        "Remove the unknown property from the request body and resubmit the request if the operation failed."))

-- `invalidObject`
unfoldable pub invalid_object : Bytes → Emission
invalid_object arg1 = emission (some 400) error (
    message_json (codes "Base.1.4.0.InvalidObject")
      (codes "The object at " ++ (arg1 ++ codes " is invalid.")) (arg1 ∷ []) (codes "Critical")
      (codes
        "Either the object is malformed or the URI is not correct.  Correct the condition and resubmit the request if it failed."))

-- `invalidIndex`
unfoldable pub invalid_index : ℤ → Emission
invalid_index arg1 = emission (some 400) error (
    message_json (codes "Base.1.4.0.InvalidIndex")
      (codes "The index " ++ (to_string arg1 ++ codes " is not a valid offset into the array."))
      (to_string arg1 ∷ []) (codes "Warning")
      (codes "Verify the index value provided is within the bounds of the array."))

-- `emptyJSON`
unfoldable pub empty_json : Emission
empty_json = emission (some 400) error (
    message_json (codes "Base.1.4.0.EmptyJSON")
      (codes
        "The request body submitted contained an empty JSON object and the service is unable to process it.")
      ([]) (codes "Warning") (codes "Add properties in the JSON object and resubmit the request."))

-- `queryNotSupportedOnResource`
unfoldable pub query_not_supported_on_resource : Emission
query_not_supported_on_resource = emission (some 403) error (
    message_json (codes "Base.1.4.0.QueryNotSupportedOnResource")
      (codes "Querying is not supported on the requested resource.") ([]) (codes "Warning")
      (codes "Remove the query parameters and resubmit the request if the operation failed."))

-- `propertyValueModified`
unfoldable pub property_value_modified : Bytes → Bytes → Emission
property_value_modified arg1 arg2 = emission (some 200) (at arg1) (
    message_json (codes "Base.1.4.0.PropertyValueModified")
      (codes "The property "
        ++ (arg1
            ++ (codes " was assigned the value "
                ++ (arg2 ++ codes " due to modification by the service."))))
      (arg1 ∷ arg2 ∷ []) (codes "Warning") (codes "No resolution is required."))

-- `queryParameterValueFormatError`
unfoldable pub query_parameter_value_format_error : Bytes → Bytes → Emission
query_parameter_value_format_error arg1 arg2 = emission (some 400) error (
    message_json (codes "Base.1.4.0.QueryParameterValueFormatError")
      (codes "The value "
        ++ (arg1
            ++ (codes " for the parameter "
                ++ (arg2 ++ codes " is of a different format than the parameter can accept."))))
      (arg1 ∷ arg2 ∷ []) (codes "Warning")
      (codes
        "Correct the value for the query parameter in the request and resubmit the request if the operation failed."))

-- `propertyMissing`
unfoldable pub property_missing : Bytes → Emission
property_missing arg1 = emission (some 400) (at arg1) (
    message_json (codes "Base.1.4.0.PropertyMissing")
      (codes "The property "
        ++ (arg1 ++ codes " is a required property and must be included in the request."))
      (arg1 ∷ []) (codes "Warning")
      (codes
        "Ensure that the property is in the request body and has a valid value and resubmit the request if the operation failed."))

-- `queryParameterOutOfRange`
unfoldable pub query_parameter_out_of_range : Bytes → Bytes → Bytes → Emission
query_parameter_out_of_range arg1 arg2 arg3 = emission (some 400) error (
    message_json (codes "Base.1.4.0.QueryParameterOutOfRange")
      (codes "The value "
        ++ (arg1
            ++ (codes " for the query parameter "
                ++ (arg2 ++ (codes " is out of range " ++ (arg3 ++ codes "."))))))
      (arg1 ∷ arg2 ∷ arg3 ∷ []) (codes "Warning")
      (codes
        "Reduce the value for the query parameter to a value that is within range, such as a start or count value that is within bounds of the number of resources in a collection or a page that is within the range of valid pages."))
