-- ===== src/Messages/Registry/BaseD.antt =====
-- Entries of redfish-core/include/registries/base_message_registry.hpp, in the order of the file.
use bmcweb.Prelude.{List, [], ◌∷◌, codes}
use bmcweb.Messages.{RegistryEntry}

unfoldable pub entries_property_value_not_in_list : List RegistryEntry
entries_property_value_not_in_list =
    (
      codes "PropertyValueNotInList",
      record {
        description =
            codes
              "Indicates that a property was given the correct value type but the value of that property was not supported.  This values not in an enumeration";
        message = codes "The value %1 for the property %2 is not in the list of acceptable values.";
        severity = codes "Warning";
        number_of_args = 2;
        param_types = codes "string" ∷ codes "string" ∷ [];
        resolution =
            codes
              "Choose a value from the enumeration list that the implementation can support and resubmit the request if the operation failed.";
      },
    )
    ∷ (
      codes "PropertyValueTypeError",
      record {
        description =
            codes
              "Indicates that a property was given the wrong value type, such as when a number is supplied for a property that requires a string.";
        message =
            codes
              "The value %1 for the property %2 is of a different type than the property can accept.";
        severity = codes "Warning";
        number_of_args = 2;
        param_types = codes "string" ∷ codes "string" ∷ [];
        resolution =
            codes
              "Correct the value for the property in the request body and resubmit the request if the operation failed.";
      },
    )
    ∷ (
      codes "QueryNotSupported",
      record {
        description = codes "Indicates that query is not supported on the implementation.";
        message = codes "Querying is not supported by the implementation.";
        severity = codes "Warning";
        number_of_args = 0;
        param_types = [];
        resolution =
            codes "Remove the query parameters and resubmit the request if the operation failed.";
      },
    )
    ∷ (
      codes "QueryNotSupportedOnResource",
      record {
        description =
            codes
              "Indicates that query is not supported on the given resource, such as when a start/count query is attempted on a resource that is not a collection.";
        message = codes "Querying is not supported on the requested resource.";
        severity = codes "Warning";
        number_of_args = 0;
        param_types = [];
        resolution =
            codes "Remove the query parameters and resubmit the request if the operation failed.";
      },
    )
    ∷ (
      codes "QueryParameterOutOfRange",
      record {
        description =
            codes
              "Indicates that a query parameter was supplied that is out of range for the given resource.  This can happen with values that are too low or beyond that possible for the supplied resource, such as when a page is requested that is beyond the last page.";
        message = codes "The value %1 for the query parameter %2 is out of range %3.";
        severity = codes "Warning";
        number_of_args = 3;
        param_types = codes "string" ∷ codes "string" ∷ codes "string" ∷ [];
        resolution =
            codes
              "Reduce the value for the query parameter to a value that is within range, such as a start or count value that is within bounds of the number of resources in a collection or a page that is within the range of valid pages.";
      },
    )
    ∷ (
      codes "QueryParameterValueFormatError",
      record {
        description =
            codes
              "Indicates that a query parameter was given the correct value type but the value of that parameter was not supported.  This includes value size/length exceeded.";
        message =
            codes
              "The value %1 for the parameter %2 is of a different format than the parameter can accept.";
        severity = codes "Warning";
        number_of_args = 2;
        param_types = codes "string" ∷ codes "string" ∷ [];
        resolution =
            codes
              "Correct the value for the query parameter in the request and resubmit the request if the operation failed.";
      },
    )
    ∷ (
      codes "QueryParameterValueTypeError",
      record {
        description =
            codes
              "Indicates that a query parameter was given the wrong value type, such as when a number is supplied for a query parameter that requires a string.";
        message =
            codes
              "The value %1 for the query parameter %2 is of a different type than the parameter can accept.";
        severity = codes "Warning";
        number_of_args = 2;
        param_types = codes "string" ∷ codes "string" ∷ [];
        resolution =
            codes
              "Correct the value for the query parameter in the request and resubmit the request if the operation failed.";
      },
    )
    ∷ (
      codes "ResourceAlreadyExists",
      record {
        description =
            codes
              "Indicates that a resource change or creation was attempted but that the operation cannot proceed because the resource already exists.";
        message =
            codes
              "The requested resource of type %1 with the property %2 with the value %3 already exists.";
        severity = codes "Critical";
        number_of_args = 3;
        param_types = codes "string" ∷ codes "string" ∷ codes "string" ∷ [];
        resolution =
            codes "Do not repeat the create operation as the resource has already been created.";
      },
    )
    ∷ (
      codes "ResourceAtUriInUnknownFormat",
      record {
        description =
            codes
              "Indicates that the URI was valid but the resource or image at that URI was in a format not supported by the service.";
        message = codes "The resource at %1 is in a format not recognized by the service.";
        severity = codes "Critical";
        number_of_args = 1;
        param_types = codes "string" ∷ [];
        resolution =
            codes
              "Place an image or resource or file that is recognized by the service at the URI.";
      },
    )
    ∷ []
