-- ===== src/Messages/ServicesA.antt =====
-- Message functions of redfish-core/src/error_messages.cpp about resources, accounts and the service.
use bmcweb.Prelude.{some, [], ◌∷◌, ◌++◌, Bytes, codes}
use bmcweb.Messages.{Emission, emission, message_json, error, at}

-- `resourceInUse`
unfoldable pub resource_in_use : Emission
resource_in_use = emission (some 503) error (
    message_json (codes "Base.1.4.0.ResourceInUse")
      (codes
        "The change to the requested resource failed because the resource is in use or in transition.")
      ([]) (codes "Warning")
      (codes "Remove the condition and resubmit the request if the operation failed."))

-- `resourceMissingAtURI`
unfoldable pub resource_missing_at_uri : Bytes → Emission
resource_missing_at_uri arg1 = emission (some 400) error (
    message_json (codes "Base.1.4.0.ResourceMissingAtURI")
      (codes "The resource at the URI " ++ (arg1 ++ codes " was not found.")) (arg1 ∷ [])
      (codes "Critical")
      (codes "Place a valid resource at the URI or correct the URI and resubmit the request."))

-- `internalError`
unfoldable pub internal_error : Emission
internal_error = emission (some 500) error (
    message_json (codes "Base.1.4.0.InternalError")
      (codes
        "The request failed due to an internal service error.  The service is still operational.")
      ([]) (codes "Critical")
      (codes "Resubmit the request.  If the problem persists, consider resetting the service."))

-- `resourceAtUriUnauthorized`
unfoldable pub resource_at_uri_unauthorized : Bytes → Bytes → Emission
resource_at_uri_unauthorized arg1 arg2 = emission (some 403) error (
    message_json (codes "Base.1.4.0.ResourceAtUriUnauthorized")
      (codes "While accessing the resource at "
        ++ (arg1
            ++ (codes ", the service received an authorization error " ++ (arg2 ++ codes "."))))
      (arg1 ∷ arg2 ∷ []) (codes "Critical")
      (codes
        "Ensure that the appropriate access is provided for the service in order for it to access the URI."))

-- `resourceCannotBeDeleted`
unfoldable pub resource_cannot_be_deleted : Emission
resource_cannot_be_deleted = emission (some 403) error (
    message_json (codes "Base.1.4.0.ResourceCannotBeDeleted")
      (codes "The delete request failed because the resource requested cannot be deleted.") ([])
      (codes "Critical") (codes "Do not attempt to delete a non-deletable resource."))

-- `serviceTemporarilyUnavailable`
unfoldable pub service_temporarily_unavailable : Bytes → Emission
service_temporarily_unavailable arg1 = emission (some 503) error (
    message_json (codes "Base.1.4.0.ServiceTemporarilyUnavailable")
      (codes "The service is temporarily unavailable.  Retry in " ++ (arg1 ++ codes " seconds."))
      (arg1 ∷ []) (codes "Critical")
      (codes "Wait for the indicated retry duration and retry the operation."))

-- `resourceAlreadyExists`
unfoldable pub resource_already_exists : Bytes → Bytes → Bytes → Emission
resource_already_exists arg1 arg2 arg3 = emission (some 400) (at arg2) (
    message_json (codes "Base.1.4.0.ResourceAlreadyExists")
      (codes "The requested resource of type "
        ++ (arg1
            ++ (codes " with the property "
                ++ (arg2 ++ (codes " with the value " ++ (arg3 ++ codes " already exists."))))))
      (arg1 ∷ arg2 ∷ arg3 ∷ []) (codes "Critical")
      (codes "Do not repeat the create operation as the resource has already been created."))

-- `accountForSessionNoLongerExists`
unfoldable pub account_for_session_no_longer_exists : Emission
account_for_session_no_longer_exists = emission (some 403) error (
    message_json (codes "Base.1.4.0.AccountForSessionNoLongerExists")
      (codes
        "The account for the current session has been removed, thus the current session has been removed as well.")
      ([]) (codes "OK") (codes "Attempt to connect with a valid account."))

-- `resourceAtUriInUnknownFormat`
unfoldable pub resource_at_uri_in_unknown_format : Bytes → Emission
resource_at_uri_in_unknown_format arg1 = emission (some 400) error (
    message_json (codes "Base.1.4.0.ResourceAtUriInUnknownFormat")
      (codes "The resource at " ++ (arg1 ++ codes " is in a format not recognized by the service."))
      (arg1 ∷ []) (codes "Critical")
      (codes "Place an image or resource or file that is recognized by the service at the URI."))

-- `serviceInUnknownState`
unfoldable pub service_in_unknown_state : Emission
service_in_unknown_state = emission (some 503) error (
    message_json (codes "Base.1.4.0.ServiceInUnknownState")
      (codes
        "The operation failed because the service is in an unknown state and can no longer take incoming requests.")
      ([]) (codes "Critical")
      (codes "Restart the service and resubmit the request if the operation failed."))
