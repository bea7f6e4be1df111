-- ===== src/Messages/Registry/BaseB.antt =====
-- Entries of redfish-core/include/registries/base_message_registry.hpp, in the order of the file.
use bmcweb.Prelude.{List, [], ◌∷◌, codes}
use bmcweb.Messages.{RegistryEntry}

unfoldable pub entries_action_parameter_value_type_error : List RegistryEntry
entries_action_parameter_value_type_error =
    (
      codes "ActionParameterValueTypeError",
      record {
        description =
            codes
              "Indicates that a parameter was given the wrong value type, such as when a number is supplied for a parameter that requires a string.";
        message =
            codes
              "The value %1 for the parameter %2 in the action %3 is of a different type than the parameter can accept.";
        severity = codes "Warning";
        number_of_args = 3;
        param_types = codes "string" ∷ codes "string" ∷ codes "string" ∷ [];
        resolution =
            codes
              "Correct the value for the parameter in the request body and resubmit the request if the operation failed.";
      },
    )
    ∷ (
      codes "CouldNotEstablishConnection",
      record {
        description =
            codes
              "Indicates that the attempt to access the resource/file/image at the URI was unsuccessful because a session could not be established.";
        message = codes "The service failed to establish a connection with the URI %1.";
        severity = codes "Critical";
        number_of_args = 1;
        param_types = codes "string" ∷ [];
        resolution =
            codes
              "Ensure that the URI contains a valid and reachable node name, protocol information and other URI components.";
      },
    )
    ∷ (
      codes "CreateFailedMissingReqProperties",
      record {
        description =
            codes
              "Indicates that a create was attempted on a resource but that properties that are required for the create operation were missing from the request.";
        message =
            codes
              "The create operation failed because the required property %1 was missing from the request.";
        severity = codes "Critical";
        number_of_args = 1;
        param_types = codes "string" ∷ [];
        resolution =
            codes
              "Correct the body to include the required property with a valid value and resubmit the request if the operation failed.";
      },
    )
    ∷ (
      codes "CreateLimitReachedForResource",
      record {
        description =
            codes
              "Indicates that no more resources can be created on the resource as it has reached its create limit.";
        message =
            codes
              "The create operation failed because the resource has reached the limit of possible resources.";
        severity = codes "Critical";
        number_of_args = 0;
        param_types = [];
        resolution =
            codes
              "Either delete resources and resubmit the request if the operation failed or do not resubmit the request.";
      },
    )
    ∷ (
      codes "Created",
      record {
        description =
            codes "Indicates that all conditions of a successful creation operation have been met.";
        message = codes "The resource has been created successfully";
        severity = codes "OK";
        number_of_args = 0;
        param_types = [];
        resolution = codes "None";
      },
    )
    ∷ (
      codes "EmptyJSON",
      record {
        description =
            codes
              "Indicates that the request body contained an empty JSON object when one or more properties are expected in the body.";
        message =
            codes
              "The request body submitted contained an empty JSON object and the service is unable to process it.";
        severity = codes "Warning";
        number_of_args = 0;
        param_types = [];
        resolution = codes "Add properties in the JSON object and resubmit the request.";
      },
    )
    ∷ (
      codes "EventSubscriptionLimitExceeded",
      record {
        description =
            codes
              "Indicates that a event subscription establishment has been requested but the operation failed due to the number of simultaneous connection exceeding the limit of the implementation.";
        message =
            codes
              "The event subscription failed due to the number of simultaneous subscriptions exceeding the limit of the implementation.";
        severity = codes "Critical";
        number_of_args = 0;
        param_types = [];
        resolution =
            codes
              "Reduce the number of other subscriptions before trying to establish the event subscription or increase the limit of simultaneous subscriptions (if supported).";
      },
    )
    ∷ (
      codes "GeneralError",
      record {
        description =
            codes
              "Indicates that a general error has occurred.  Use in ExtendedInfo is discouraged.  When used in ExtendedInfo, implementations are expected to include a Resolution property with this error to indicate how to resolve the problem.";
        message =
            codes
              "A general error has occurred. See Resolution for information on how to resolve the error.";
        severity = codes "Critical";
        number_of_args = 0;
        param_types = [];
        resolution = codes "None.";
      },
    )
    ∷ (
      codes "InsufficientPrivilege",
      record {
        description =
            codes
              "Indicates that the credentials associated with the established session do not have sufficient privileges for the requested operation";
        message =
            codes
              "There are insufficient privileges for the account or credentials associated with the current session to perform the requested operation.";
        severity = codes "Critical";
        number_of_args = 0;
        param_types = [];
        resolution =
            codes
              "Either abandon the operation or change the associated access rights and resubmit the request if the operation failed.";
      },
    )
    ∷ (
      codes "InternalError",
      record {
        description =
            codes
              "Indicates that the request failed for an unknown internal error but that the service is still operational.";
        message =
            codes
              "The request failed due to an internal service error.  The service is still operational.";
        severity = codes "Critical";
        number_of_args = 0;
        param_types = [];
        resolution =
            codes "Resubmit the request.  If the problem persists, consider resetting the service.";
      },
    )
    ∷ []
