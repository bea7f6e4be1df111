-- ===== src/Messages/ServicesC.antt =====
-- Message functions of redfish-core/src/error_messages.cpp about resources, accounts and the service.
use bmcweb.Prelude.{none, some, [], ◌∷◌, ◌++◌, Bytes, codes}
use bmcweb.Messages.{Emission, emission, message_json, error, root}

-- `success`
unfoldable pub success : Emission
success = emission none root (
    message_json (codes "Base.1.4.0.Success") (codes "Successfully Completed Request") ([])
      (codes "OK") (codes "None"))

-- `created`
unfoldable pub created : Emission
created = emission (some 201) root (
    message_json (codes "Base.1.4.0.Created") (codes "The resource has been created successfully")
      ([]) (codes "OK") (codes "None"))

-- `noOperation`
unfoldable pub no_operation : Emission
no_operation = emission (some 400) error (
    message_json (codes "Base.1.4.0.NoOperation")
      (codes
        "The request body submitted contain no data to act upon and no changes to the resource took place.")
      ([]) (codes "Warning") (codes "Add properties in the JSON object and resubmit the request."))

-- `noValidSession`
unfoldable pub no_valid_session : Emission
no_valid_session = emission (some 403) error (
    message_json (codes "Base.1.4.0.NoValidSession")
      (codes "There is no valid session established with the implementation.") ([])
      (codes "Critical") (codes "Establish as session before attempting any operations."))

-- `resourceInStandby`
unfoldable pub resource_in_standby : Emission
resource_in_standby = emission (some 503) error (
    message_json (codes "Base.1.4.0.ResourceInStandby")
      (codes "The request could not be performed because the resource is in standby.") ([])
      (codes "Critical")
      (codes "Ensure that the resource is in the correct power state and resubmit the request."))

-- `sessionLimitExceeded`
unfoldable pub session_limit_exceeded : Emission
session_limit_exceeded = emission (some 503) error (
    message_json (codes "Base.1.4.0.SessionLimitExceeded")
      (codes
        "The session establishment failed due to the number of simultaneous sessions exceeding the limit of the implementation.")
      ([]) (codes "Critical")
      (codes
        "Reduce the number of other sessions before trying to establish the session or increase the limit of simultaneous sessions (if supported)."))

-- `insufficientPrivilege`
unfoldable pub insufficient_privilege : Emission
insufficient_privilege = emission (some 403) error (
    message_json (codes "Base.1.4.0.InsufficientPrivilege")
      (codes
        "There are insufficient privileges for the account or credentials associated with the current session to perform the requested operation.")
      ([]) (codes "Critical")
      (codes
        "Either abandon the operation or change the associated access rights and resubmit the request if the operation failed."))

-- `accountNotModified`
unfoldable pub account_not_modified : Emission
account_not_modified = emission (some 400) error (
    message_json (codes "Base.1.4.0.AccountNotModified")
      (codes "The account modification request failed.") ([]) (codes "Warning")
      (codes
        "The modification may have failed due to permission issues or issues with the request body."))

-- `resourceExhaustion`
unfoldable pub resource_exhaustion : Bytes → Emission
resource_exhaustion arg1 = emission (some 503) error (
    message_json (codes "Base.1.4.0.ResourceExhaustion")
      (codes "The resource "
        ++ (arg1 ++ codes " was unable to satisfy the request due to unavailability of resources."))
      (arg1 ∷ []) (codes "Critical")
      (codes "Ensure that the resources are available and resubmit the request."))

-- `accountModified`
unfoldable pub account_modified : Emission
account_modified = emission (some 200) error (
    message_json (codes "Base.1.4.0.AccountModified")
      (codes "The account was successfully modified.") ([]) (codes "OK")
      (codes "No resolution is required."))
