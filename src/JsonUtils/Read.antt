-- ===== src/JsonUtils/Read.antt =====
-- `readJsonValues`, `handleMissing` and `readJson` of redfish-core/include/utils/json_utils.hpp, and
-- `processJsonFromRequest` of redfish-core/src/utils/json_utils.cpp.
use bmcweb.Prelude.{
  Bool, true, false, not, ◌&&◌, Option, none, some, List, [], ◌∷◌, ◌++◌, Bytes, bytes_eq, is_empty,
  if◌then◌else◌,
}
use bmcweb.Messages.RequestsA.{unrecognized_request_body, malformed_json}
use bmcweb.Messages.RequestsB.{property_unknown, property_missing, empty_json}
use bmcweb.JsonUtils.{Value, object, entries, Library, Field, El, is_optional, Answer, Outcome}
use bmcweb.JsonUtils.Unpack.{in_turn, unpack_value}

-- The names and the types of the variables that a handler gives to `readJson`.
abbrev pub Parameters : Type 0
Parameters = List (Bytes × Field)

-- For each parameter its bit of `handled` and its variable.
abbrev pub Slots : Parameters → Type 0
Slots [] = Unit
Slots ((k, f) ∷ ps) = (Bool × El f) × Slots ps

abbrev pub Variables : Parameters → Type 0
Variables [] = Unit
Variables ((k, f) ∷ ps) = El f × Variables ps

-- `std::bitset<...> handled(0)` beside the variables
abbrev pub fresh : (ps : Parameters) → Variables ps → Slots ps
fresh [] xs = tt
fresh (p ∷ ps) (x, xs) = ((false, x), fresh ps xs)

abbrev pub variables : (ps : Parameters) → Slots ps → Variables ps
variables [] s = tt
variables (p ∷ ps) ((h, x), s) = (x, variables ps s)

-- The slots after a call on the first variable, and after one on the others.
abbrev pub set_first : {A B : Type 0} → B → Outcome A → Outcome ((Bool × A) × B)
set_first s none = none
set_first s (some (ok, x, res)) = some (ok, ((true, x), s), res)

abbrev pub set_rest : {A B : Type 0} → A → Outcome B → Outcome (A × B)
set_rest p none = none
set_rest p (some (ok, s, res)) = some (ok, (p, s), res)

module _ (lib : Library) (dump_body : Answer → Bytes) where
  -- `readJsonValues(key, jsonValue, res, handled, in...)`
  unfoldable pub read_json_values :
      (ps : Parameters) → Bytes → Value → Slots ps → Answer → Outcome (Slots ps)
  read_json_values [] key v s res = some (false, tt, res ++ (property_unknown key ∷ []))
  read_json_values ((k, f) ∷ ps) key v ((h, x), s) res =
      if bytes_eq key k
      then set_first s (unpack_value lib dump_body f key v x res)
      else set_rest (h, x) (read_json_values ps key v s res)

  -- The loop of `readJson` over `jsonRequest.items()`.
  unfoldable pub read_members :
      (ps : Parameters) → List (Bytes × Value) → Slots ps → Answer → Outcome (Slots ps)
  read_members ps [] s res = some (true, s, res)
  read_members ps ((key, v) ∷ items) s res =
      in_turn (read_json_values ps key v s res) (λ s' res'. read_members ps items s' res')

-- `handleMissing(handled, res, key, in...)`
unfoldable pub handle_missing : (ps : Parameters) → Slots ps → Answer → Bool × Answer
handle_missing [] s res = (true, res)
handle_missing ((k, f) ∷ ps) ((handled, x), s) res =
    if not handled && not (is_optional f)
    then (false, (handle_missing ps s (res ++ (property_missing k ∷ []))).1)
    else handle_missing ps s res

-- `handleMissing(handled, res, key, in...) && result`, and the variables
abbrev pub conclude : (ps : Parameters) → Outcome (Slots ps) → Outcome (Variables ps)
conclude ps none = none
conclude ps (some (result, s, res)) =
    let missing = handle_missing ps s res in some (missing.0 && result, variables ps s, missing.1)

module _ (lib : Library) (dump_body : Answer → Bytes) where
  -- `readJson(jsonRequest, res, key, in...)`
  unfoldable pub read_json :
      (ps : Parameters) → Value → Variables ps → Answer → Outcome (Variables ps)
  unfolding read_members handle_missing
  read_json ps (object ms) xs res =
      if is_empty (entries ms)
      then some (false, xs, res ++ (empty_json ∷ []))
      else conclude ps (read_members lib dump_body ps (entries ms) (fresh ps xs) res)
  read_json ps _ xs res = some (false, xs, res ++ (unrecognized_request_body ∷ []))

-- `processJsonFromRequest(res, req, reqJson)`; `parsed` is what the parser makes of the body, `none` for
-- a discarded value. The result has the value for `true`, and whether the response was ended.
unfoldable pub process_json_from_request : Option Value → Answer → Option Value × Answer × Bool
process_json_from_request none res = (none, res ++ (malformed_json ∷ []), true)
process_json_from_request (some j) res = (some j, res, false)

module _ (lib : Library) (dump_body : Answer → Bytes) where
  -- `readJson(req, res, key, in...)`, with whether the response was ended
  unfoldable pub read_request :
      (ps : Parameters) → Option Value → Variables ps → Answer → Outcome (Variables ps) × Bool
  unfolding process_json_from_request read_json
  read_request ps parsed xs res =
      let (request, res', ended) = process_json_from_request parsed res in
      elim request [
        | none ↦ (some (false, xs, res'), ended)
        | some j ↦ (read_json lib dump_body ps j xs res', ended)
      ]
