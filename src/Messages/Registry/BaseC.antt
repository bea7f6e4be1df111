-- ===== src/Messages/Registry/BaseC.antt =====
-- Entries of redfish-core/include/registries/base_message_registry.hpp, in the order of the file.
use bmcweb.Prelude.{List, [], ◌∷◌, codes}
use bmcweb.Messages.{RegistryEntry}

unfoldable pub entries_invalid_index : List RegistryEntry
entries_invalid_index =
    (
      codes "InvalidIndex",
      record {
        description = codes "The Index is not valid.";
        message = codes "The Index %1 is not a valid offset into the array.";
        severity = codes "Warning";
        number_of_args = 1;
        param_types = codes "number" ∷ [];
        resolution = codes "Verify the index value provided is within the bounds of the array.";
      },
    )
    ∷ (
      codes "InvalidObject",
      record {
        description =
            codes
              "Indicates that the object in question is invalid according to the implementation.  Examples include a firmware update malformed URI.";
        message = codes "The object at %1 is invalid.";
        severity = codes "Critical";
        number_of_args = 1;
        param_types = codes "string" ∷ [];
        resolution =
            codes
              "Either the object is malformed or the URI is not correct.  Correct the condition and resubmit the request if it failed.";
      },
    )
    ∷ (
      codes "MalformedJSON",
      record {
        description =
            codes
              "Indicates that the request body was malformed JSON.  Could be duplicate, syntax error,etc.";
        message =
            codes
              "The request body submitted was malformed JSON and could not be parsed by the receiving service.";
        severity = codes "Critical";
        number_of_args = 0;
        param_types = [];
        resolution = codes "Ensure that the request body is valid JSON and resubmit the request.";
      },
    )
    ∷ (
      codes "NoOperation",
      record {
        description =
            codes
              "Indicates that the requested operation will not perform any changes on the service.";
        message =
            codes
              "The request body submitted contain no data to act upon and no changes to the resource took place.";
        severity = codes "Warning";
        number_of_args = 0;
        param_types = [];
        resolution = codes "Add properties in the JSON object and resubmit the request.";
      },
    )
    ∷ (
      codes "NoValidSession",
      record {
        description =
            codes
              "Indicates that the operation failed because a valid session is required in order to access any resources.";
        message = codes "There is no valid session established with the implementation.";
        severity = codes "Critical";
        number_of_args = 0;
        param_types = [];
        resolution = codes "Establish as session before attempting any operations.";
      },
    )
    ∷ (
      codes "PropertyDuplicate",
      record {
        description = codes "Indicates that a duplicate property was included in the request body.";
        message = codes "The property %1 was duplicated in the request.";
        severity = codes "Warning";
        number_of_args = 1;
        param_types = codes "string" ∷ [];
        resolution =
            codes
              "Remove the duplicate property from the request body and resubmit the request if the operation failed.";
      },
    )
    ∷ (
      codes "PropertyMissing",
      record {
        description =
            codes "Indicates that a required property was not supplied as part of the request.";
        message =
            codes "The property %1 is a required property and must be included in the request.";
        severity = codes "Warning";
        number_of_args = 1;
        param_types = codes "string" ∷ [];
        resolution =
            codes
              "Ensure that the property is in the request body and has a valid value and resubmit the request if the operation failed.";
      },
    )
    ∷ (
      codes "PropertyNotWritable",
      record {
        description =
            codes
              "Indicates that a property was given a value in the request body, but the property is a readonly property.";
        message = codes "The property %1 is a read only property and cannot be assigned a value.";
        severity = codes "Warning";
        number_of_args = 1;
        param_types = codes "string" ∷ [];
        resolution =
            codes
              "Remove the property from the request body and resubmit the request if the operation failed.";
      },
    )
    ∷ (
      codes "PropertyUnknown",
      record {
        description = codes "Indicates that an unknown property was included in the request body.";
        message = codes "The property %1 is not in the list of valid properties for the resource.";
        severity = codes "Warning";
        number_of_args = 1;
        param_types = codes "string" ∷ [];
        resolution =
            codes
              "Remove the unknown property from the request body and resubmit the request if the operation failed.";
      },
    )
    ∷ (
      codes "PropertyValueFormatError",
      record {
        description =
            codes
              "Indicates that a property was given the correct value type but the value of that property was not supported.";
        message =
            codes
              "The value %1 for the property %2 is of a different format than the property can accept.";
        severity = codes "Warning";
        number_of_args = 2;
        param_types = codes "string" ∷ codes "string" ∷ [];
        resolution =
            codes
              "Correct the value for the property in the request body and resubmit the request if the operation failed.";
      },
    )
    ∷ (
      codes "PropertyValueModified",
      record {
        description =
            codes
              "Indicates that a property was given the correct value type but the value of that property was modified.  Examples are truncated or rounded values.";
        message =
            codes "The property %1 was assigned the value %2 due to modification by the service.";
        severity = codes "Warning";
        number_of_args = 2;
        param_types = codes "string" ∷ codes "string" ∷ [];
        resolution = codes "No resolution is required.";
      },
    )
    ∷ []
