-- ===== src/Messages/Registry/BaseE.antt =====
-- Entries of redfish-core/include/registries/base_message_registry.hpp, in the order of the file.
use bmcweb.Prelude.{List, [], ◌∷◌, codes}
use bmcweb.Messages.{RegistryEntry}

unfoldable pub entries_resource_at_uri_unauthorized : List RegistryEntry
entries_resource_at_uri_unauthorized =
    (
      codes "ResourceAtUriUnauthorized",
      record {
        description =
            codes
              "Indicates that the attempt to access the resource/file/image at the URI was unauthorized.";
        message =
            codes
              "While accessing the resource at %1, the service received an authorization error %2.";
        severity = codes "Critical";
        number_of_args = 2;
        param_types = codes "string" ∷ codes "string" ∷ [];
        resolution =
            codes
              "Ensure that the appropriate access is provided for the service in order for it to access the URI.";
      },
    )
    ∷ (
      codes "ResourceCannotBeDeleted",
      record {
        description =
            codes
              "Indicates that a delete operation was attempted on a resource that cannot be deleted.";
        message =
            codes "The delete request failed because the resource requested cannot be deleted.";
        severity = codes "Critical";
        number_of_args = 0;
        param_types = [];
        resolution = codes "Do not attempt to delete a non-deletable resource.";
      },
    )
    ∷ (
      codes "ResourceExhaustion",
      record {
        description =
            codes
              "Indicates that a resource could not satisfy the request due to some unavailability of resources.  An example is that available capacity has been allocated.";
        message =
            codes
              "The resource %1 was unable to satisfy the request due to unavailability of resources.";
        severity = codes "Critical";
        number_of_args = 1;
        param_types = codes "string" ∷ [];
        resolution = codes "Ensure that the resources are available and resubmit the request.";
      },
    )
    ∷ (
      codes "ResourceInStandby",
      record {
        description =
            codes
              "Indicates that the request could not be performed because the resource is in standby.";
        message = codes "The request could not be performed because the resource is in standby.";
        severity = codes "Critical";
        number_of_args = 0;
        param_types = [];
        resolution =
            codes
              "Ensure that the resource is in the correct power state and resubmit the request.";
      },
    )
    ∷ (
      codes "ResourceInUse",
      record {
        description =
            codes
              "Indicates that a change was requested to a resource but the change was rejected due to the resource being in use or transition.";
        message =
            codes
              "The change to the requested resource failed because the resource is in use or in transition.";
        severity = codes "Warning";
        number_of_args = 0;
        param_types = [];
        resolution = codes "Remove the condition and resubmit the request if the operation failed.";
      },
    )
    ∷ (
      codes "ResourceMissingAtURI",
      record {
        description =
            codes
              "Indicates that the operation expected an image or other resource at the provided URI but none was found.  Examples of this are in requests that require URIs like Firmware Update.";
        message = codes "The resource at the URI %1 was not found.";
        severity = codes "Critical";
        number_of_args = 1;
        param_types = codes "string" ∷ [];
        resolution =
            codes "Place a valid resource at the URI or correct the URI and resubmit the request.";
      },
    )
    ∷ (
      codes "ResourceNotFound",
      record {
        description =
            codes
              "Indicates that the operation expected a resource identifier that corresponds to an existing resource but one was not found.";
        message = codes "The requested resource of type %1 named %2 was not found.";
        severity = codes "Critical";
        number_of_args = 2;
        param_types = codes "string" ∷ codes "string" ∷ [];
        resolution = codes "Provide a valid resource identifier and resubmit the request.";
      },
    )
    ∷ (
      codes "ResourceTypeIncompatible",
      record {
        description =
            codes
              "Indicates that the resource type of the operation does not match that for the operation destination.  Examples of when this can happen include during a POST to a collection using the wrong resource type, an update where the @odata.types do not match or on a major version incompatability.";
        message =
            codes
              "The @odata.type of the request body %1 is incompatible with the @odata.type of the resource which is %2.";
        severity = codes "Critical";
        number_of_args = 2;
        param_types = codes "string" ∷ codes "string" ∷ [];
        resolution =
            codes "Resubmit the request with a payload compatible with the resource's schema.";
      },
    )
    ∷ (
      codes "ServiceInUnknownState",
      record {
        description =
            codes
              "Indicates that the operation failed because the service is in an unknown state and cannot accept additional requests.";
        message =
            codes
              "The operation failed because the service is in an unknown state and can no longer take incoming requests.";
        severity = codes "Critical";
        number_of_args = 0;
        param_types = [];
        resolution = codes "Restart the service and resubmit the request if the operation failed.";
      },
    )
    ∷ (
      codes "ServiceShuttingDown",
      record {
        description =
            codes
              "Indicates that the operation failed as the service is shutting down, such as when the service reboots.";
        message =
            codes
              "The operation failed because the service is shutting down and can no longer take incoming requests.";
        severity = codes "Critical";
        number_of_args = 0;
        param_types = [];
        resolution =
            codes
              "When the service becomes available, resubmit the request if the operation failed.";
      },
    )
    ∷ []
