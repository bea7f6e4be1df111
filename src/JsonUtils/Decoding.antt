-- ===== src/JsonUtils/Decoding.antt =====
-- What `unpackValue` is to read from a value: a relation by recursion on the variable's type, with no
-- messages and no order of tests.
pub mod Values
pub mod Exact
use bmcweb.Prelude.{
  ℤ, pos, negsuc, ℕ, zero, suc, ◌-◌, ◌^◌, ◌<◌, ◌≡◌, Bool, true, false, Option, some, List, [], ◌∷◌,
  ◌++◌, length,
}
use bmcweb.JsonUtils.{
  Value, text, flag, Library, Field, floating, json, signed, unsigned, optional, vector, Tuple, El,
}
use bmcweb.JsonUtils.Unpack.{blank, as_double, as_array, is_complex}

-- The integer fits in `n` bits.
abbrev pub FitsSigned : ℕ → ℤ → Type 0
FitsSigned n (pos k) = k < 2 ^ (n - 1)
FitsSigned n (negsuc k) = k < 2 ^ (n - 1)

-- The elements of the two lists are related one by one.
abbrev pub Pointwise : {A B : Type 0} → (A → B → Type 0) → List A → List B → Type 0
Pointwise R [] [] = Unit
Pointwise R (x ∷ xs) (y ∷ ys) = R x y × Pointwise R xs ys
Pointwise R _ _ = ⊥

-- The same for the elements of an array before and after.
abbrev pub Elementwise :
    {A B : Type 0} → (A → B → B → Type 0) → (n : ℕ) → List A → Tuple n B → Tuple n B → Type 0
Elementwise R zero [] old new = Unit
Elementwise R (suc n) (v ∷ vs) (x, old) (y, new) = R v x y × Elementwise R n vs old new
Elementwise R _ _ old new = ⊥

-- The JSON value `v`, read into a variable of type `f` that holds `old`, makes it `new`.
abbrev pub Decodes : Library → (f : Field) → Value → El f → El f → Type 0
Decodes lib floating v old new =
    (as_double lib v ≡ some new)
    × (lib.above_max new ≡ false)
    × (lib.below_lowest new ≡ false)
    × (lib.is_nan new ≡ false)
Decodes lib (signed n) v old new = (lib.get_int64 v ≡ some new) × FitsSigned n new
Decodes lib (unsigned n) v old new = (lib.get_uint64 v ≡ some new) × (new < 2 ^ n)
Decodes lib Field.text v old new = v ≡ text new
Decodes lib Field.flag v old new = v ≡ flag new
Decodes lib json v old new = (is_complex v ≡ true) × (new ≡ v)
Decodes lib (optional f) v old new = (x : El f) × (new ≡ some x) × Decodes lib f v (blank f) x
Decodes lib (vector f) v old new =
    (vs : List Value) × (xs : List (El f)) × (as_array v ≡ some vs)
    × (new ≡ old ++ xs)
    × Pointwise (λ w x. Decodes lib f w (blank f) x) vs xs
Decodes lib (Field.array n f) v old new =
    (vs : List Value) × (as_array v ≡ some vs) × Elementwise (Decodes lib f) n vs old new
