-- ===== src/JsonUtils/Objects.antt =====
-- What `readJson` is to read from an object: for each parameter the value of its key, whatever the order.
pub mod Slotwise
pub mod Loops
pub mod Whole
use bmcweb.Prelude.{
  ◌≡◌, ◌⊎◌, Bool, true, false, not, ◌||◌, Option, none, some, List, [], ◌∷◌, Bytes, bytes_eq,
  if◌then◌else◌,
}
use bmcweb.Prelude.Assoc.{Assoc, lookup}
use bmcweb.JsonUtils.{Value, Library, Field, El, is_optional}
use bmcweb.JsonUtils.Read.{Parameters, Slots, Variables}
use bmcweb.JsonUtils.Decoding.{Decodes}

-- The key is that of a parameter.
abbrev pub Known : Parameters → Bytes → Type 0
Known [] key = ⊥
Known ((k, f) ∷ ps) key = (key ≡ k) ⊎ Known ps key

-- A variable and its bit before and after the value `v` was read into it.
abbrev pub Filled : Library → (f : Field) → Value → Bool × El f → Bool × El f → Type 0
Filled lib f v (h, x) (h', x') = (h' ≡ true) × Decodes lib f v x x'

-- A slot is filled with the value that there is, and stays where there is none.
abbrev pub Change : Library → (f : Field) → Option Value → Bool × El f → Bool × El f → Type 0
Change lib f (some v) p p' = Filled lib f v p p'
Change lib f none p p' = p' ≡ p

-- One member changes the slot of its key and no other.
abbrev pub Steps : Library → (ps : Parameters) → Bytes → Value → Slots ps → Slots ps → Type 0
Steps lib [] key v s s' = Unit
Steps lib ((k, f) ∷ ps) key v (p, s) (p', s') =
    Change lib f (if bytes_eq key k then some v else none) p p' × Steps lib ps key v s s'

-- Each slot is filled with the value of its key, and stays where the object has no such key.
abbrev pub Fills : Library → (ps : Parameters) → Assoc Value → Slots ps → Slots ps → Type 0
Fills lib [] items s s' = Unit
Fills lib ((k, f) ∷ ps) items (p, s) (p', s') =
    Change lib f (lookup k items) p p' × Fills lib ps items s s'

-- A variable is decoded from the value that there is. Where there is none the parameter is optional
-- and the variable stays.
abbrev pub Fetched : Library → (f : Field) → Option Value → El f → El f → Type 0
Fetched lib f (some v) x y = Decodes lib f v x y
Fetched lib f none x y = (is_optional f ≡ true) × (y ≡ x)

-- Each variable is fetched from the value of its key.
abbrev pub Reads : Library → (ps : Parameters) → Assoc Value → Variables ps → Variables ps → Type 0
Reads lib [] items xs ys = Unit
Reads lib ((k, f) ∷ ps) items (x, xs) (y, ys) =
    Fetched lib f (lookup k items) x y × Reads lib ps items xs ys
