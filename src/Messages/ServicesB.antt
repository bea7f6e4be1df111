-- ===== src/Messages/ServicesB.antt =====
-- Message functions of redfish-core/src/error_messages.cpp about resources, accounts and the service.
use bmcweb.Prelude.{some, [], ◌∷◌, ◌++◌, Bytes, codes}
use bmcweb.Messages.{Emission, emission, message_json, error, root}

-- `eventSubscriptionLimitExceeded`
unfoldable pub event_subscription_limit_exceeded : Emission
event_subscription_limit_exceeded = emission (some 403) error (
    message_json (codes "Base.1.4.0.EventSubscriptionLimitExceeded")
      (codes
        "The event subscription failed due to the number of simultaneous subscriptions exceeding the limit of the implementation.")
      ([]) (codes "Critical")
      (codes
        "Reduce the number of other subscriptions before trying to establish the event subscription or increase the limit of simultaneous subscriptions (if supported)."))

-- `sessionTerminated`
unfoldable pub session_terminated : Emission
session_terminated = emission (some 200) root (
    message_json (codes "Base.1.4.0.SessionTerminated")
      (codes "The session was successfully terminated.") ([]) (codes "OK")
      (codes "No resolution is required."))

-- `resourceTypeIncompatible`
unfoldable pub resource_type_incompatible : Bytes → Bytes → Emission
resource_type_incompatible arg1 arg2 = emission (some 400) error (
    message_json (codes "Base.1.4.0.ResourceTypeIncompatible")
      (codes "The @odata.type of the request body "
        ++ (arg1
            ++ (codes " is incompatible with the @odata.type of the resource which is "
                ++ (arg2 ++ codes "."))))
      (arg1 ∷ arg2 ∷ []) (codes "Critical")
      (codes "Resubmit the request with a payload compatible with the resource's schema."))

-- `resourceNotFound`
unfoldable pub resource_not_found : Bytes → Bytes → Emission
resource_not_found arg1 arg2 = emission (some 404) error (
    message_json (codes "Base.1.4.0.ResourceNotFound")
      (codes "The requested resource of type "
        ++ (arg1 ++ (codes " named " ++ (arg2 ++ codes " was not found."))))
      (arg1 ∷ arg2 ∷ []) (codes "Critical")
      (codes "Provide a valid resource identifier and resubmit the request."))

-- `couldNotEstablishConnection`
unfoldable pub could_not_establish_connection : Bytes → Emission
could_not_establish_connection arg1 = emission (some 404) error (
    message_json (codes "Base.1.4.0.CouldNotEstablishConnection")
      (codes "The service failed to establish a Connection with the URI " ++ (arg1 ++ codes "."))
      (arg1 ∷ []) (codes "Critical")
      (codes
        "Ensure that the URI contains a valid and reachable node name, protocol information and other URI components."))

-- `serviceShuttingDown`
unfoldable pub service_shutting_down : Emission
service_shutting_down = emission (some 503) error (
    message_json (codes "Base.1.4.0.ServiceShuttingDown")
      (codes
        "The operation failed because the service is shutting down and can no longer take incoming requests.")
      ([]) (codes "Critical")
      (codes "When the service becomes available, resubmit the request if the operation failed."))

-- `sourceDoesNotSupportProtocol`
unfoldable pub source_does_not_support_protocol : Bytes → Bytes → Emission
source_does_not_support_protocol arg1 arg2 = emission (some 400) error (
    message_json (codes "Base.1.4.0.SourceDoesNotSupportProtocol")
      (codes "The other end of the Connection at "
        ++ (arg1 ++ (codes " does not support the specified protocol " ++ (arg2 ++ codes "."))))
      (arg1 ∷ arg2 ∷ []) (codes "Critical") (codes "Change protocols or URIs. "))

-- `accountRemoved`
unfoldable pub account_removed : Emission
account_removed = emission (some 200) root (
    message_json (codes "Base.1.4.0.AccountRemoved") (codes "The account was successfully removed.")
      ([]) (codes "OK") (codes "No resolution is required."))

-- `accessDenied`
unfoldable pub access_denied : Bytes → Emission
access_denied arg1 = emission (some 403) error (
    message_json (codes "Base.1.4.0.AccessDenied")
      (codes "While attempting to establish a Connection to "
        ++ (arg1 ++ codes ", the service denied access."))
      (arg1 ∷ []) (codes "Critical")
      (codes
        "Attempt to ensure that the URI is correct and that the service has the appropriate credentials."))

-- `generalError`
unfoldable pub general_error : Emission
general_error = emission (some 500) error (
    message_json (codes "Base.1.4.0.GeneralError")
      (codes
        "A general error has occurred. See Resolution for information on how to resolve the error.")
      ([]) (codes "Critical") (codes "None."))
