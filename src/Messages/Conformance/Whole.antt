-- ===== src/Messages/Conformance/Whole.antt =====
-- The functions of all groups, and those whose text is not the registry's.
use bmcweb.Prelude.{
  ℕ, false, ◌==◌, arith, ◌≡◌, ◌≢◌, refl, ap, List, ◌++◌, Bytes, All, All-append, get_or, sym, ◌∙◌,
}
use bmcweb.Messages.Registry.BaseA.{entries_access_denied}
use bmcweb.Messages.Registry.BaseB.{entries_action_parameter_value_type_error}
use bmcweb.Messages.Registry.BaseC.{entries_invalid_index}
use bmcweb.Messages.Registry.BaseD.{entries_property_value_not_in_list}
use bmcweb.Messages.Registry.BaseE.{entries_resource_at_uri_unauthorized}
use bmcweb.Messages.Registry.BaseF.{entries_service_temporarily_unavailable}
use bmcweb.Messages.{Message, MessageJson}
use bmcweb.Messages.Registry.{base_registry, get_message_from_registry}
use bmcweb.Messages.ServicesB.{
  could_not_establish_connection, source_does_not_support_protocol, access_denied,
}
use bmcweb.Messages.RequestsB.{invalid_index}
use bmcweb.Messages.Conformance.{
  Function, Always, Conforms, SameText, substitute, retyped, functions_services_a,
  functions_services_b, functions_services_c, functions_requests_a, functions_requests_b,
  functions_actions,
}
use bmcweb.Messages.Conformance.Services.{
  functions_services_a-Conforms, functions_services_b-Conforms, functions_services_c-Conforms,
}
use bmcweb.Messages.Conformance.Requests.{
  functions_requests_a-Conforms, functions_requests_b-Conforms, functions_actions-Conforms,
}

abbrev pub functions : List (Bytes × Function)
functions =
    functions_services_a
    ++ (functions_services_b
        ++ (functions_services_c
            ++ (functions_requests_a ++ (functions_requests_b ++ functions_actions))))

-- The two texts differ.
abbrev pub OtherText : Message → MessageJson → Type 0
OtherText entry json = json.message ≢ substitute json.message_args entry.message

-- Texts with different bytes at one place are different.
other_text :
    (n : ℕ) {s t : Bytes} (x y : ℕ) → get_or s n 0 ≡ x → get_or t n 0 ≡ y → (x == y) ≡ false → s ≢ t
other_text n x y hx hy h e =
    let same : x ≡ y = sym hx ∙ ap (λ (l : Bytes). get_or l n 0) e ∙ hy in absurd (ground arith)

-- Each message function but four has in the base registry an entry under the key of its message's
-- identifier, with the number of its arguments, its severity and its resolution, and its text is the
-- entry's with the arguments put in, whatever they are. Of the four functions
-- couldNotEstablishConnection, sourceDoesNotSupportProtocol, accessDenied and invalidIndex the same
-- holds but for the text, which differs whatever the arguments.
pub functions-Conforms :
    All (λ (r : Bytes × Function). Always (Conforms SameText r.0) r.1) functions
    × All (λ (r : Bytes × Function). Always (Conforms OtherText r.0) r.1) retyped
unfolding base_registry entries_access_denied entries_action_parameter_value_type_error
    entries_invalid_index entries_property_value_not_in_list entries_resource_at_uri_unauthorized
    entries_service_temporarily_unavailable get_message_from_registry substitute
    could_not_establish_connection source_does_not_support_protocol access_denied invalid_index
functions-Conforms =
    let P = λ (r : Bytes × Function). Always (Conforms SameText r.0) r.1 in
    (
      All-append P functions_services_a
          (functions_services_b
            ++ (functions_services_c
                ++ (functions_requests_a ++ (functions_requests_b ++ functions_actions))))
          functions_services_a-Conforms
          (All-append P functions_services_b
            (functions_services_c
              ++ (functions_requests_a ++ (functions_requests_b ++ functions_actions)))
            functions_services_b-Conforms
            (All-append P functions_services_c
              (functions_requests_a ++ (functions_requests_b ++ functions_actions))
              functions_services_c-Conforms
              (All-append P functions_requests_a (functions_requests_b ++ functions_actions)
                functions_requests_a-Conforms
                (All-append P functions_requests_b functions_actions functions_requests_b-Conforms
                  functions_actions-Conforms)))),
      (
        λ a. (_, refl, refl, refl, refl, refl, other_text 34 67 99 refl refl refl),
        (
          λ a b. (_, refl, refl, refl, refl, refl, other_text 21 67 99 refl refl refl),
          (
            λ a. (_, refl, refl, refl, refl, refl, other_text 32 67 99 refl refl refl),
            (λ n. (_, refl, refl, refl, refl, refl, other_text 4 105 73 refl refl refl), tt),
          ),
        ),
      ),
    )
