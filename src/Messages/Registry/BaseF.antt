-- ===== src/Messages/Registry/BaseF.antt =====
-- Entries of redfish-core/include/registries/base_message_registry.hpp, in the order of the file.
use bmcweb.Prelude.{List, [], ◌∷◌, codes}
use bmcweb.Messages.{RegistryEntry}

unfoldable pub entries_service_temporarily_unavailable : List RegistryEntry
entries_service_temporarily_unavailable =
    (
      codes "ServiceTemporarilyUnavailable",
      record {
        description = codes "Indicates the service is temporarily unavailable.";
        message = codes "The service is temporarily unavailable.  Retry in %1 seconds.";
        severity = codes "Critical";
        number_of_args = 1;
        param_types = codes "string" ∷ [];
        resolution = codes "Wait for the indicated retry duration and retry the operation.";
      },
    )
    ∷ (
      codes "SessionLimitExceeded",
      record {
        description =
            codes
              "Indicates that a session establishment has been requested but the operation failed due to the number of simultaneous sessions exceeding the limit of the implementation.";
        message =
            codes
              "The session establishment failed due to the number of simultaneous sessions exceeding the limit of the implementation.";
        severity = codes "Critical";
        number_of_args = 0;
        param_types = [];
        resolution =
            codes
              "Reduce the number of other sessions before trying to establish the session or increase the limit of simultaneous sessions (if supported).";
      },
    )
    ∷ (
      codes "SessionTerminated",
      record {
        description =
            codes
              "Indicates that the DELETE operation on the Session resource resulted in the successful termination of the session.";
        message = codes "The session was successfully terminated.";
        severity = codes "OK";
        number_of_args = 0;
        param_types = [];
        resolution = codes "No resolution is required.";
      },
    )
    ∷ (
      codes "SourceDoesNotSupportProtocol",
      record {
        description =
            codes
              "Indicates that while attempting to access, connect to or transfer a resource/file/image from another location that the other end of the connection did not support the protocol";
        message =
            codes
              "The other end of the connection at %1 does not support the specified protocol %2.";
        severity = codes "Critical";
        number_of_args = 2;
        param_types = codes "string" ∷ codes "string" ∷ [];
        resolution = codes "Change protocols or URIs. ";
      },
    )
    ∷ (
      codes "StringValueTooLong",
      record {
        description =
            codes
              "Indicates that a string value passed to the given resource exceeded its length limit. An example is when a shorter limit is imposed by an implementation than that allowed by the specification.";
        message = codes "The string %1 exceeds the length limit %2.";
        severity = codes "Warning";
        number_of_args = 2;
        param_types = codes "string" ∷ codes "number" ∷ [];
        resolution = codes "Resubmit the request with an appropriate string length.";
      },
    )
    ∷ (
      codes "Success",
      record {
        description =
            codes "Indicates that all conditions of a successful operation have been met.";
        message = codes "Successfully Completed Request";
        severity = codes "OK";
        number_of_args = 0;
        param_types = [];
        resolution = codes "None";
      },
    )
    ∷ (
      codes "UnrecognizedRequestBody",
      record {
        description =
            codes
              "Indicates that the service encountered an unrecognizable request body that could not even be interpreted as malformed JSON.";
        message =
            codes "The service detected a malformed request body that it was unable to interpret.";
        severity = codes "Warning";
        number_of_args = 0;
        param_types = [];
        resolution = codes "Correct the request body and resubmit the request if it failed.";
      },
    )
    ∷ []
