-- ===== src/Messages/RequestsA.antt =====
-- Message functions of redfish-core/src/error_messages.cpp about the request as a whole and its properties.
use bmcweb.Prelude.{ℤ, to_string, some, [], ◌∷◌, ◌++◌, Bytes, codes}
use bmcweb.Messages.{Emission, emission, message_json, error, at}

-- `malformedJSON`
unfoldable pub malformed_json : Emission
malformed_json = emission (some 400) error (
    message_json (codes "Base.1.4.0.MalformedJSON")
      (codes
        "The request body submitted was malformed JSON and could not be parsed by the receiving service.")
      ([]) (codes "Critical")
      (codes "Ensure that the request body is valid JSON and resubmit the request."))

-- `unrecognizedRequestBody`
unfoldable pub unrecognized_request_body : Emission
unrecognized_request_body = emission (some 400) error (
    message_json (codes "Base.1.4.0.UnrecognizedRequestBody")
      (codes "The service detected a malformed request body that it was unable to interpret.") ([])
      (codes "Warning") (codes "Correct the request body and resubmit the request if it failed."))

-- `propertyDuplicate`
unfoldable pub property_duplicate : Bytes → Emission
property_duplicate arg1 = emission (some 400) (at arg1) (
    message_json (codes "Base.1.4.0.PropertyDuplicate")
      (codes "The property " ++ (arg1 ++ codes " was duplicated in the request.")) (arg1 ∷ [])
      (codes "Warning")
      (codes
        "Remove the duplicate property from the request body and resubmit the request if the operation failed."))

-- `createFailedMissingReqProperties`
unfoldable pub create_failed_missing_req_properties : Bytes → Emission
create_failed_missing_req_properties arg1 = emission (some 400) (at arg1) (
    message_json (codes "Base.1.4.0.CreateFailedMissingReqProperties")
      (codes "The create operation failed because the required property "
        ++ (arg1 ++ codes " was missing from the request."))
      (arg1 ∷ []) (codes "Critical")
      (codes
        "Correct the body to include the required property with a valid value and resubmit the request if the operation failed."))

-- `propertyValueFormatError`
unfoldable pub property_value_format_error : Bytes → Bytes → Emission
property_value_format_error arg1 arg2 = emission (some 400) (at arg2) (
    message_json (codes "Base.1.4.0.PropertyValueFormatError")
      (codes "The value "
        ++ (arg1
            ++ (codes " for the property "
                ++ (arg2 ++ codes " is of a different format than the property can accept."))))
      (arg1 ∷ arg2 ∷ []) (codes "Warning")
      (codes
        "Correct the value for the property in the request body and resubmit the request if the operation failed."))

-- `propertyValueNotInList`
unfoldable pub property_value_not_in_list : Bytes → Bytes → Emission
property_value_not_in_list arg1 arg2 = emission (some 400) (at arg2) (
    message_json (codes "Base.1.4.0.PropertyValueNotInList")
      (codes "The value "
        ++ (arg1
            ++ (codes " for the property "
                ++ (arg2 ++ codes " is not in the list of acceptable values."))))
      (arg1 ∷ arg2 ∷ []) (codes "Warning")
      (codes
        "Choose a value from the enumeration list that the implementation can support and resubmit the request if the operation failed."))

-- `stringValueTooLong`
unfoldable pub string_value_too_long : Bytes → ℤ → Emission
string_value_too_long arg1 arg2 = emission (some 400) error (
    message_json (codes "Base.1.4.0.StringValueTooLong")
      (codes "The string "
        ++ (arg1 ++ (codes " exceeds the length limit " ++ (to_string arg2 ++ codes "."))))
      (arg1 ∷ to_string arg2 ∷ []) (codes "Warning")
      (codes "Resubmit the request with an appropriate string length."))

-- `propertyValueTypeError`
unfoldable pub property_value_type_error : Bytes → Bytes → Emission
property_value_type_error arg1 arg2 = emission (some 400) (at arg2) (
    message_json (codes "Base.1.4.0.PropertyValueTypeError")
      (codes "The value "
        ++ (arg1
            ++ (codes " for the property "
                ++ (arg2 ++ codes " is of a different type than the property can accept."))))
      (arg1 ∷ arg2 ∷ []) (codes "Warning")
      (codes
        "Correct the value for the property in the request body and resubmit the request if the operation failed."))

-- `propertyNotWritable`
unfoldable pub property_not_writable : Bytes → Emission
property_not_writable arg1 = emission (some 403) (at arg1) (
    message_json (codes "Base.1.4.0.PropertyNotWritable")
      (codes "The property "
        ++ (arg1 ++ codes " is a read only property and cannot be assigned a value."))
      (arg1 ∷ []) (codes "Warning")
      (codes
        "Remove the property from the request body and resubmit the request if the operation failed."))

-- `queryParameterValueTypeError`
unfoldable pub query_parameter_value_type_error : Bytes → Bytes → Emission
query_parameter_value_type_error arg1 arg2 = emission (some 400) error (
    message_json (codes "Base.1.4.0.QueryParameterValueTypeError")
      (codes "The value "
        ++ (arg1
            ++ (codes " for the query parameter "
                ++ (arg2 ++ codes " is of a different type than the parameter can accept."))))
      (arg1 ∷ arg2 ∷ []) (codes "Warning")
      (codes
        "Correct the value for the query parameter in the request and resubmit the request if the operation failed."))

-- `queryNotSupported`
unfoldable pub query_not_supported : Emission
query_not_supported = emission (some 400) error (
    message_json (codes "Base.1.4.0.QueryNotSupported")
      (codes "Querying is not supported by the implementation.") ([]) (codes "Warning")
      (codes "Remove the query parameters and resubmit the request if the operation failed."))
