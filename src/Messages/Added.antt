-- ===== src/Messages/Added.antt =====
-- `addMessageToErrorJson`, `addMessageToJsonRoot` and `addMessageToJson` of
-- redfish-core/src/error_messages.cpp, and what the calls of message functions make of a response.
use bmcweb.Prelude.{
  ℕ, Bool, false, Option, none, some, List, [], ◌∷◌, ◌++◌, Bytes, bytes_eq, codes, if◌then◌else◌,
}
use bmcweb.Prelude.Assoc.{Assoc, lookup, emplace, assign}
use bmcweb.Messages.{MessageJson, Place, error, root, at, Emission}

-- The member "error" of the response's JSON.
pub record ErrorObject : Type 0 where
  pub code : Bytes
  pub message : Bytes
  pub extended_info : List MessageJson

-- What the message functions read and write of a response: its result, the member "error", and the
-- arrays under the keys that end in the annotation.
pub record Reply : Type 0 where
  pub result : ℕ
  pub error_object : Option ErrorObject
  pub annotations : Assoc (List MessageJson)

abbrev pub message_annotation : Bytes
message_annotation = codes "@Message.ExtendedInfo"

-- `messageVersionPrefix` and the code made with it
abbrev pub general_code : Bytes
general_code = codes "Base.1.2.0." ++ codes "GeneralError"

abbrev pub general_message : Bytes
general_message =
    codes
      "A general error has occurred. See Resolution for information on how to resolve the error."

-- `addMessageToErrorJson`; every message has the members that it looks for.
unfoldable pub add_message_to_error_json : MessageJson → Option ErrorObject → ErrorObject
add_message_to_error_json m none = record {
  code = m.message_id;
  message = m.message;
  extended_info = m ∷ [];
}
add_message_to_error_json m (some e) = record {
  code = general_code;
  message = general_message;
  extended_info = e.extended_info ++ (m ∷ []);
}

-- `addMessageToJson`, with the whole key of the array
unfoldable pub add_message_to_json :
    Bytes → MessageJson → Assoc (List MessageJson) → Assoc (List MessageJson)
add_message_to_json key m target = elim (lookup key target) [
  | none ↦ emplace key (m ∷ []) target
  | some ms ↦ assign key (ms ++ (m ∷ [])) target
]

-- `addMessageToJsonRoot`
unfoldable pub add_message_to_json_root :
    MessageJson → Assoc (List MessageJson) → Assoc (List MessageJson)
unfolding add_message_to_json
add_message_to_json_root m target = add_message_to_json message_annotation m target

-- `res.result(status)`
abbrev pub set_result : Option ℕ → Reply → Reply
set_result none res = res
set_result (some status) res = record res { result = status }

abbrev pub add_at : Place → MessageJson → Reply → Reply
add_at error m res = record res {
  error_object = some (add_message_to_error_json m res.error_object);
}
add_at root m res = record res { annotations = add_message_to_json_root m res.annotations }
add_at (at path) m res = record res {
  annotations = add_message_to_json (path ++ message_annotation) m res.annotations;
}

-- The call of a message function.
unfoldable pub emit : Reply → Emission → Reply
emit res e = add_at e.place e.json (set_result e.status res)

unfoldable pub emit_all : Reply → List Emission → Reply
emit_all res [] = res
emit_all res (e ∷ es) = emit_all (emit res e) es

-- What the client is to be told: all the messages for a place in their order, and the one code, or the
-- general one where there are several.
abbrev pub in_error : List Emission → List MessageJson
in_error [] = []
in_error (e ∷ es) = elim e.place [ error ↦ e.json ∷ in_error es | _ ↦ in_error es ]

-- The key of the array that a message goes to.
abbrev pub key_of : Place → Option Bytes
key_of error = none
key_of root = some message_annotation
key_of (at path) = some (path ++ message_annotation)

abbrev pub goes_to : Bytes → Option Bytes → Bool
goes_to key none = false
goes_to key (some k) = bytes_eq k key

abbrev pub annotated : Bytes → List Emission → List MessageJson
annotated key [] = []
annotated key (e ∷ es) =
    let rest = annotated key es in if goes_to key (key_of e.place) then e.json ∷ rest else rest

abbrev pub last_status : ℕ → List Emission → ℕ
last_status s [] = s
last_status s (e ∷ es) = last_status (elim e.status [ none ↦ s | some t ↦ t ]) es

-- The error object after more messages.
abbrev pub extend : Option ErrorObject → List MessageJson → Option ErrorObject
extend o [] = o
extend none (m ∷ []) =
    some (record { code = m.message_id; message = m.message; extended_info = m ∷ [] })
extend none (m ∷ n ∷ ms) =
    some (record { code = general_code; message = general_message; extended_info = m ∷ n ∷ ms })
extend (some e) ms = some (record {
  code = general_code;
  message = general_message;
  extended_info = e.extended_info ++ ms;
})
