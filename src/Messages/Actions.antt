-- ===== src/Messages/Actions.antt =====
-- Message functions of redfish-core/src/error_messages.cpp about the parameters of actions.
use bmcweb.Prelude.{some, [], ◌∷◌, ◌++◌, Bytes, codes}
use bmcweb.Messages.{Emission, emission, message_json, error}

-- `actionParameterValueFormatError`
unfoldable pub action_parameter_value_format_error : Bytes → Bytes → Bytes → Emission
action_parameter_value_format_error arg1 arg2 arg3 = emission (some 400) error (
    message_json (codes "Base.1.4.0.ActionParameterValueFormatError")
      (codes "The value "
        ++ (arg1
            ++ (codes " for the parameter "
                ++ (arg2
                    ++ (codes " in the action "
                        ++ (arg3
                            ++ codes
                                " is of a different format than the parameter can accept."))))))
      (arg1 ∷ arg2 ∷ arg3 ∷ []) (codes "Warning")
      (codes
        "Correct the value for the parameter in the request body and resubmit the request if the operation failed."))

-- `actionParameterUnknown`
unfoldable pub action_parameter_unknown : Bytes → Bytes → Emission
action_parameter_unknown arg1 arg2 = emission (some 400) error (
    message_json (codes "Base.1.4.0.ActionParameterUnknown")
      (codes "The action "
        ++ (arg1 ++ (codes " was submitted with the invalid parameter " ++ (arg2 ++ codes "."))))
      (arg1 ∷ arg2 ∷ []) (codes "Warning")
      (codes "Correct the invalid parameter and resubmit the request if the operation failed."))

-- `actionParameterMissing`
unfoldable pub action_parameter_missing : Bytes → Bytes → Emission
action_parameter_missing arg1 arg2 = emission (some 400) error (
    message_json (codes "Base.1.4.0.ActionParameterMissing")
      (codes "The action "
        ++ (arg1
            ++ (codes " requires the parameter "
                ++ (arg2 ++ codes " to be present in the request body."))))
      (arg1 ∷ arg2 ∷ []) (codes "Critical")
      (codes
        "Supply the action with the required parameter in the request body when the request is resubmitted."))

-- `actionParameterDuplicate`
unfoldable pub action_parameter_duplicate : Bytes → Bytes → Emission
action_parameter_duplicate arg1 arg2 = emission (some 400) error (
    message_json (codes "Base.1.4.0.ActionParameterDuplicate")
      (codes "The action "
        ++ (arg1
            ++ (codes " was submitted with more than one value for the parameter "
                ++ (arg2 ++ codes "."))))
      (arg1 ∷ arg2 ∷ []) (codes "Warning")
      (codes
        "Resubmit the action with only one instance of the parameter in the request body if the operation failed."))

-- `actionParameterNotSupported`
unfoldable pub action_parameter_not_supported : Bytes → Bytes → Emission
action_parameter_not_supported arg1 arg2 = emission (some 400) error (
    message_json (codes "Base.1.4.0.ActionParameterNotSupported")
      (codes "The parameter "
        ++ (arg1
            ++ (codes " for the action "
                ++ (arg2 ++ codes " is not supported on the target resource."))))
      (arg1 ∷ arg2 ∷ []) (codes "Warning")
      (codes "Remove the parameter supplied and resubmit the request if the operation failed."))

-- `actionParameterValueTypeError`
unfoldable pub action_parameter_value_type_error : Bytes → Bytes → Bytes → Emission
action_parameter_value_type_error arg1 arg2 arg3 = emission (some 400) error (
    message_json (codes "Base.1.4.0.ActionParameterValueTypeError")
      (codes "The value "
        ++ (arg1
            ++ (codes " for the parameter "
                ++ (arg2
                    ++ (codes " in the action "
                        ++ (arg3
                            ++ codes " is of a different type than the parameter can accept."))))))
      (arg1 ∷ arg2 ∷ arg3 ∷ []) (codes "Warning")
      (codes
        "Correct the value for the parameter in the request body and resubmit the request if the operation failed."))

-- `actionNotSupported`
unfoldable pub action_not_supported : Bytes → Emission
action_not_supported arg1 = emission (some 400) error (
    message_json (codes "Base.1.4.0.ActionNotSupported")
      (codes "The action " ++ (arg1 ++ codes " is not supported by the resource.")) (arg1 ∷ [])
      (codes "Critical")
      (codes
        "The action supplied cannot be resubmitted to the implementation.  Perhaps the action was invalid, the wrong resource was the target or the implementation documentation may be of assistance."))
