-- ===== src/JsonUtils/Unpack.antt =====
-- `checkRange` and `unpackValue` of redfish-core/include/utils/json_utils.hpp.
use bmcweb.Prelude.{
  ℤ, pos, negsuc, ℕ, zero, suc, ◌-◌, ◌^◌, Bool, true, false, not, ◌&&◌, Option, none, some, List,
  [], ◌∷◌, ◌++◌, Bytes, ltb, length, ◌==◌, if◌then◌else◌,
}
use bmcweb.Messages.RequestsA.{property_value_not_in_list, property_value_type_error}
use bmcweb.JsonUtils.{
  Value, null, object, elements, Library, Field, floating, json, signed, unsigned, optional, vector,
  Tuple, El, Answer, Outcome,
}

abbrev pub blanks : {A : Type 0} (n : ℕ) → A → Tuple n A
blanks zero a = tt
blanks (suc n) a = (a, blanks n a)

-- The value that `emplace()` and `emplace_back()` put in.
abbrev pub blank : (f : Field) → El f
blank floating = 0
blank Field.text = []
blank Field.flag = false
blank json = null
blank (signed n) = pos 0
blank (unsigned n) = 0
blank (optional f) = none
blank (vector f) = []
blank (Field.array n f) = blanks n (blank f)

-- `ret = next && ret` after a call whose result is `ok`
abbrev pub conj : {A : Type 0} → Bool → Outcome A → Outcome A
conj ok none = none
conj ok (some (ret, a, res)) = some (ok && ret, a, res)

-- Two calls one after the other.
abbrev pub in_turn : {A B : Type 0} → Outcome A → (A → Answer → Outcome B) → Outcome B
in_turn none k = none
in_turn (some (ok, a, res)) k = conj ok (k a res)

-- The call `checkRange<ToType>(from, key, jsonValue, res)` and the assignment after it, where `outside`
-- says whether one of its tests holds.
abbrev pub assign_checked :
    {A : Type 0} → Library → Bool → Value → Bytes → A → A → Answer → Outcome A
assign_checked lib outside v key old new res =
    if outside
    then some (false, old, res ++ (property_value_not_in_list (lib.dump v) key ∷ []))
    else some (true, new, res)

-- `from > max()` and `from < lowest()` for an integer of `n` bits with a sign
abbrev pub outside_signed : ℕ → ℤ → Bool
outside_signed n (pos k) = not (ltb k (2 ^ (n - 1)))
outside_signed n (negsuc k) = not (ltb k (2 ^ (n - 1)))

-- `from > max()` for one without; none is less than 0.
abbrev pub outside_unsigned : ℕ → ℕ → Bool
outside_unsigned n k = not (ltb k (2 ^ n))

abbrev pub outside_floating : Library → ℕ → Bool
outside_floating lib x =
    if lib.above_max x then true else if lib.below_lowest x then true else lib.is_nan x

-- `jsonPtr` of the floating-point branch, `helper` included
abbrev pub as_double : Library → Value → Option ℕ
as_double lib v = elim (lib.get_double v) [
  | some x ↦ some x
  | none ↦ elim (lib.get_int64 v) [ some k ↦ some (lib.to_double k) | none ↦ none ]
]

-- `get_ptr<std::string* const>` and `get_ptr<bool* const>`
abbrev pub as_text : Value → Option Bytes
as_text (Value.text s) = some s
as_text _ = none

abbrev pub as_flag : Value → Option Bool
as_flag (Value.flag b) = some b
as_flag _ = none

-- `is_array()`, with the elements
abbrev pub as_array : Value → Option (List Value)
as_array (Value.array items) = some (elements items)
as_array _ = none

abbrev pub is_complex : Value → Bool
is_complex null = true
is_complex (Value.array vs) = true
is_complex (object ms) = true
is_complex _ = false

-- `propertyValueTypeError` with the dump of the value, and with that of the response
abbrev pub type_error : {A : Type 0} → Bytes → Bytes → A → Answer → Outcome A
type_error dumped key old res =
    some (false, old, res ++ (property_value_type_error dumped key ∷ []))

-- What follows the test of a pointer against `nullptr`, and what follows a pointer that is not null.
abbrev pub at_pointer : {A B : Type 0} → Option B → Outcome A → (B → Outcome A) → Outcome A
at_pointer none failed go = failed
at_pointer (some x) failed go = go x

-- The loop of the vector branch: each value goes to a new last element.
unfoldable pub unpack_each :
    {A : Type 0}
    → (Value → A → Answer → Outcome A)
    → A
    → List Value
    → List A
    → Answer
    → Outcome (List A)
unpack_each unpack new [] old res = some (true, old, res)
unpack_each unpack new (v ∷ vs) old res =
    in_turn (unpack v new res) (λ x res'. unpack_each unpack new vs (old ++ (x ∷ [])) res')

-- The loop of the array branch: each value goes to the element of its index.
unfoldable pub unpack_tuple :
    {A : Type 0}
    → (Value → A → Answer → Outcome A)
    → (n : ℕ) → List Value
    → Tuple n A
    → Answer
    → Outcome (Tuple n A)
unpack_tuple unpack zero vs old res = some (true, old, res)
unpack_tuple unpack (suc n) [] old res = some (true, old, res)
unpack_tuple unpack (suc n) (v ∷ vs) (x, old) res = in_turn (unpack v x res) (λ y res'.
    in_turn (unpack_tuple unpack n vs old res') (λ ys res''. some (true, (y, ys), res'')))

module _ (lib : Library) (dump_body : Answer → Bytes) where
  -- `unpackValue<Type>(jsonValue, key, res, value)`; `dump_body` is `res.jsonValue.dump()`.
  unfoldable pub unpack_value : (f : Field) → Bytes → Value → El f → Answer → Outcome (El f)
  unfolding unpack_each unpack_tuple
  unpack_value floating key v old res =
      at_pointer (as_double lib v) none
        (λ x. assign_checked lib (outside_floating lib x) v key old x res)
  unpack_value (signed n) key v old res =
      at_pointer (lib.get_int64 v) (some (false, old, res))
        (λ k. assign_checked lib (outside_signed n k) v key old k res)
  unpack_value (unsigned n) key v old res =
      at_pointer (lib.get_uint64 v) (some (false, old, res))
        (λ k. assign_checked lib (outside_unsigned n k) v key old k res)
  unpack_value (optional f) key v old res =
      in_turn (unpack_value f key v (blank f) res) (λ x res'. some (true, some x, res'))
  unpack_value json key v old res =
      if is_complex v then some (true, v, res) else type_error (lib.dump v) key old res
  unpack_value (Field.array n f) key v old res =
      at_pointer (as_array v) (type_error (dump_body res) key old res) (λ vs.
        if length vs == n
        then unpack_tuple (unpack_value f key) n vs old res
        else type_error (dump_body res) key old res)
  unpack_value (vector f) key v old res =
      at_pointer (as_array v) (type_error (dump_body res) key old res)
        (λ vs. unpack_each (unpack_value f key) (blank f) vs old res)
  unpack_value Field.text key v old res =
      at_pointer (as_text v) (type_error (lib.dump v) key old res) (λ s. some (true, s, res))
  unpack_value Field.flag key v old res =
      at_pointer (as_flag v) (type_error (lib.dump v) key old res) (λ b. some (true, b, res))
