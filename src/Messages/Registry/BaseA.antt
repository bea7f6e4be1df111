-- ===== src/Messages/Registry/BaseA.antt =====
-- Entries of redfish-core/include/registries/base_message_registry.hpp, in the order of the file.
use bmcweb.Prelude.{List, [], ◌∷◌, codes}
use bmcweb.Messages.{RegistryEntry}

unfoldable pub entries_access_denied : List RegistryEntry
entries_access_denied =
    (
      codes "AccessDenied",
      record {
        description =
            codes
              "Indicates that while attempting to access, connect to or transfer to/from another resource, the service denied access.";
        message =
            codes "While attempting to establish a connection to %1, the service denied access.";
        severity = codes "Critical";
        number_of_args = 1;
        param_types = codes "string" ∷ [];
        resolution =
            codes
              "Attempt to ensure that the URI is correct and that the service has the appropriate credentials.";
      },
    )
    ∷ (
      codes "AccountForSessionNoLongerExists",
      record {
        description =
            codes
              "Indicates that the account for the session has been removed, thus the session has been removed as well.";
        message =
            codes
              "The account for the current session has been removed, thus the current session has been removed as well.";
        severity = codes "OK";
        number_of_args = 0;
        param_types = [];
        resolution = codes "Attempt to connect with a valid account.";
      },
    )
    ∷ (
      codes "AccountModified",
      record {
        description = codes "Indicates that the account was successfully modified.";
        message = codes "The account was successfully modified.";
        severity = codes "OK";
        number_of_args = 0;
        param_types = [];
        resolution = codes "No resolution is required.";
      },
    )
    ∷ (
      codes "AccountNotModified",
      record {
        description =
            codes "Indicates that the modification requested for the account was not successful.";
        message = codes "The account modification request failed.";
        severity = codes "Warning";
        number_of_args = 0;
        param_types = [];
        resolution =
            codes
              "The modification may have failed due to permission issues or issues with the request body.";
      },
    )
    ∷ (
      codes "AccountRemoved",
      record {
        description = codes "Indicates that the account was successfully removed.";
        message = codes "The account was successfully removed.";
        severity = codes "OK";
        number_of_args = 0;
        param_types = [];
        resolution = codes "No resolution is required.";
      },
    )
    ∷ (
      codes "ActionNotSupported",
      record {
        description =
            codes
              "Indicates that the action supplied with the POST operation is not supported by the resource.";
        message = codes "The action %1 is not supported by the resource.";
        severity = codes "Critical";
        number_of_args = 1;
        param_types = codes "string" ∷ [];
        resolution =
            codes
              "The action supplied cannot be resubmitted to the implementation.  Perhaps the action was invalid, the wrong resource was the target or the implementation documentation may be of assistance.";
      },
    )
    ∷ (
      codes "ActionParameterDuplicate",
      record {
        description =
            codes
              "Indicates that the action was supplied with a duplicated parameter in the request body.";
        message =
            codes "The action %1 was submitted with more than one value for the parameter %2.";
        severity = codes "Warning";
        number_of_args = 2;
        param_types = codes "string" ∷ codes "string" ∷ [];
        resolution =
            codes
              "Resubmit the action with only one instance of the parameter in the request body if the operation failed.";
      },
    )
    ∷ (
      codes "ActionParameterMissing",
      record {
        description =
            codes
              "Indicates that the action requested was missing a parameter that is required to process the action.";
        message =
            codes "The action %1 requires the parameter %2 to be present in the request body.";
        severity = codes "Critical";
        number_of_args = 2;
        param_types = codes "string" ∷ codes "string" ∷ [];
        resolution =
            codes
              "Supply the action with the required parameter in the request body when the request is resubmitted.";
      },
    )
    ∷ (
      codes "ActionParameterNotSupported",
      record {
        description =
            codes
              "Indicates that the parameter supplied for the action is not supported on the resource.";
        message =
            codes "The parameter %1 for the action %2 is not supported on the target resource.";
        severity = codes "Warning";
        number_of_args = 2;
        param_types = codes "string" ∷ codes "string" ∷ [];
        resolution =
            codes "Remove the parameter supplied and resubmit the request if the operation failed.";
      },
    )
    ∷ (
      codes "ActionParameterUnknown",
      record {
        description =
            codes
              "Indicates that an action was submitted but a parameter supplied did not match any of the known parameters.";
        message = codes "The action %1 was submitted with the invalid parameter %2.";
        severity = codes "Warning";
        number_of_args = 2;
        param_types = codes "string" ∷ codes "string" ∷ [];
        resolution =
            codes "Correct the invalid parameter and resubmit the request if the operation failed.";
      },
    )
    ∷ (
      codes "ActionParameterValueFormatError",
      record {
        description =
            codes
              "Indicates that a parameter was given the correct value type but the value of that parameter was not supported.  This includes value size/length exceeded.";
        message =
            codes
              "The value %1 for the parameter %2 in the action %3 is of a different format than the parameter can accept.";
        severity = codes "Warning";
        number_of_args = 3;
        param_types = codes "string" ∷ codes "string" ∷ codes "string" ∷ [];
        resolution =
            codes
              "Correct the value for the parameter in the request body and resubmit the request if the operation failed.";
      },
    )
    ∷ []
