-- ===== src/JsonUtils.antt =====
-- redfish-core/include/utils/json_utils.hpp: how a handler reads the members of a request's JSON object
-- into typed variables. This file holds the data; `res` is the list of the messages added to it.
pub mod Unpack
pub mod Read
pub mod Decoding
pub mod Objects
pub mod Reporting
use bmcweb.Messages.{Emission}
use bmcweb.Prelude.{ℕ, zero, suc, ℤ, Bool, true, false, Option, List, [], ◌∷◌, Bytes}

-- nlohmann's three kinds of number, each with the 64 bits that it stores
pub data NumberKind : Type 0 where
  integer unsigned floating : NumberKind

-- A value of nlohmann's JSON. The members of an object are in the order of their keys.
mutual
  pub data Value : Type 0 where
    null : Value
    number : NumberKind → ℕ → Value
    text : Bytes → Value
    flag : Bool → Value
    array : Values → Value
    object : Pairs → Value

  pub data Values : Type 0 where
    nil : Values
    item : Value → Values → Values

  pub data Pairs : Type 0 where
    no_more : Pairs
    member : Bytes → Value → Pairs → Pairs

abbrev pub elements : Values → List Value
elements nil = []
elements (item v vs) = v ∷ elements vs

-- `j.items()` of an object
abbrev pub entries : Pairs → List (Bytes × Value)
entries no_more = []
entries (member k v ms) = (k, v) ∷ entries ms

-- What the code takes from nlohmann's library and from the compiler. A `double` is its 64 bits.
pub record Library : Type 0 where
  -- `get_ptr<int64_t*>`, `get_ptr<uint64_t*>` and `get_ptr<double*>`, `none` for a null pointer
  pub get_int64 : Value → Option ℤ
  pub get_uint64 : Value → Option ℕ
  pub get_double : Value → Option ℕ
  pub dump : Value → Bytes
  -- `static_cast<double>` of an `int64_t`
  pub to_double : ℤ → ℕ
  -- `from > max()`, `from < lowest()` and `isnan(from)` for the floating-point type
  pub above_max : ℕ → Bool
  pub below_lowest : ℕ → Bool
  pub is_nan : ℕ → Bool

-- The types of the variables that `readJson` fills; a width is the number of bits, and `floating` is
-- `double`.
pub data Field : Type 0 where
  floating text flag json : Field
  signed unsigned : ℕ → Field
  optional vector : Field → Field
  array : ℕ → Field → Field

-- `std::array<A, n>`
abbrev pub Tuple : ℕ → Type 0 → Type 0
Tuple zero A = Unit
Tuple (suc n) A = A × Tuple n A

abbrev pub El : Field → Type 0
El floating = ℕ
El text = Bytes
El flag = Bool
El json = Value
El (signed n) = ℤ
El (unsigned n) = ℕ
El (optional f) = Option (El f)
El (vector f) = List (El f)
El (array n f) = Tuple n (El f)

-- `is_optional_v`
abbrev pub is_optional : Field → Bool
is_optional (optional f) = true
is_optional _ = false

-- What the calls did to the response, as the messages that were added in their order.
abbrev pub Answer : Type 0
Answer = List Emission

-- What a call returns, the variable after it and the messages; `none` where the code dereferences a
-- null pointer.
abbrev pub Outcome : Type 0 → Type 0
Outcome A = Option (Bool × A × Answer)
