-- ===== src/Messages/Events.antt =====
-- The texts of the event log: an entry of the base registry with its arguments filled in.
use bmcweb.Prelude.{
  ℕ, ◌≡◌, refl, sym, ap, ◌∙◌, Bool, true, ◌&&◌, some, List, [], ◌∷◌, arith, Bytes, bytes_eq, length,
  Bool-cases, inl, inr, if_true, if_false, and_split, All,
}
use bmcweb.Messages.Registry.BaseA.{entries_access_denied}
use bmcweb.Messages.Registry.BaseB.{entries_action_parameter_value_type_error}
use bmcweb.Messages.Registry.BaseC.{entries_invalid_index}
use bmcweb.Messages.Registry.BaseD.{entries_property_value_not_in_list}
use bmcweb.Messages.Registry.BaseE.{entries_resource_at_uri_unauthorized}
use bmcweb.Messages.Registry.BaseF.{entries_service_temporarily_unavailable}
use bmcweb.Messages.{Message, RegistryEntry}
use bmcweb.Messages.Registry.{base_registry, get_message_from_registry, fill}
use bmcweb.Messages.Conformance.{substitute}
use bmcweb.Messages.Filling.{IsPercentFree, ordered, fill-ordered}

abbrev all_ordered : List RegistryEntry → Bool
all_ordered [] = true
all_ordered ((k, m) ∷ entries) = ordered 0 m.number_of_args m.message && all_ordered entries

all_ordered-base_registry : all_ordered base_registry ≡ true
unfolding base_registry entries_access_denied entries_action_parameter_value_type_error
    entries_invalid_index entries_property_value_not_in_list entries_resource_at_uri_unauthorized
    entries_service_temporarily_unavailable
all_ordered-base_registry = refl

entry-ordered :
    (key : Bytes) (entries : List RegistryEntry) (m : Message)
    → all_ordered entries ≡ true
    → get_message_from_registry key entries ≡ some m
    → ordered 0 m.number_of_args m.message ≡ true
unfolding get_message_from_registry
entry-ordered key [] m h e = absurd (cc)
entry-ordered key ((k, n) ∷ entries) m h e =
    let (a, b) = and_split (ordered 0 n.number_of_args n.message) (all_ordered entries) h in
    elim (Bool-cases (bytes_eq k key)) [
      | inl q ↦
          let same : n ≡ m = cc (sym (if_true _ _ _ q) ∙ e) in
          ap (λ (t : Message). ordered 0 t.number_of_args t.message) (sym same) ∙ a
      | inr q ↦ entry-ordered key entries m b (sym (if_false _ _ _ q) ∙ e)
    ]

-- For an entry of the base registry and as many arguments as it has, none of which has a percent
-- sign: the loop that fills them in one by one gives the text with every placeholder replaced by the
-- argument of its number.
pub fill-substitute :
    (key : Bytes) (m : Message) (args : List Bytes)
    → get_message_from_registry key base_registry ≡ some m
    → length args ≡ m.number_of_args
    → All IsPercentFree args
    → fill 0 args m.message ≡ substitute args m.message
fill-substitute key m args h n fs = fill-ordered m.message 0 [] [] args refl tt fs (
    ap (λ (k : ℕ). ordered 0 k m.message) (omega arith)
    ∙ entry-ordered key base_registry m all_ordered-base_registry h)
