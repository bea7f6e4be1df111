-- ===== src/Messages.antt =====
-- redfish-core/src/error_messages.cpp and redfish-core/include/registries.hpp: the messages that the
-- handlers add to a response. This file holds the data.
pub mod RequestsA
pub mod RequestsB
pub mod Actions
pub mod ServicesA
pub mod ServicesB
pub mod ServicesC
pub mod Registry
pub mod Added
pub mod Delivery
pub mod Conformance
pub mod Filling
pub mod Events
pub mod EventLog
use bmcweb.Prelude.{ℕ, Option, List, Bytes, codes}

-- The JSON of one message.
pub record MessageJson : Type 0 where
  pub odata_type : Bytes
  pub message_id : Bytes
  pub message : Bytes
  pub message_args : List Bytes
  pub severity : Bytes
  pub resolution : Bytes

abbrev pub message_json : Bytes → Bytes → List Bytes → Bytes → Bytes → MessageJson
message_json id text args severity resolution = record {
  odata_type = codes "/redfish/v1/$metadata#Message.v1_0_0.Message";
  message_id = id;
  message = text;
  message_args = args;
  severity = severity;
  resolution = resolution;
}

-- Where a message goes: `addMessageToErrorJson`, `addMessageToJsonRoot` or `addMessageToJson` with
-- the path of a field.
pub data Place : Type 0 where
  error root : Place
  at : Bytes → Place

-- What a message function does to a response: the result that it sets, if any, and the message that
-- it adds.
pub record Emission : Type 0 where
  pub status : Option ℕ
  pub place : Place
  pub json : MessageJson

abbrev pub emission : Option ℕ → Place → MessageJson → Emission
emission status place json = record { status = status; place = place; json = json }

-- `struct Message` of registries.hpp, and an entry of a registry
pub record Message : Type 0 where
  pub description : Bytes
  pub message : Bytes
  pub severity : Bytes
  pub number_of_args : ℕ
  pub param_types : List Bytes
  pub resolution : Bytes

abbrev pub RegistryEntry : Type 0
RegistryEntry = Bytes × Message
