-- ===== src/Prelude/Integers.antt =====
-- The integers of C++ and `std::to_string`.
use Prim.Native.Nat.{ℕ, zero, suc, ◌+◌, ◌/◌, ◌%◌, ◌<◌}
use mathlib.Core.Path.{◌≡◌, ap, ◌∙◌}
use native.Mathlib.Omega.{arith}
use mathlib.Core.List.{[], ◌∷◌}
use bmcweb.Prelude.Strings.{Bytes}
use bmcweb.Prelude.Tests.{ltb, if◌then◌else◌, if_true}

-- `pos n` is n, and `negsuc n` is -1 - n.
pub data ℤ : Type 0 where
  pos negsuc : ℕ → ℤ

-- The decimal digits of `n` before `rest`; a round takes the last digit.
abbrev pub digits : ℕ → ℕ → Bytes → Bytes
digits zero n rest = rest
digits (suc fuel) n rest =
    let more = digits fuel (n / 10) ((48 + n % 10) ∷ rest) in
    if ltb n 10 then (48 + n) ∷ rest else more

-- `std::to_string`; a number has no more digits than its value and one.
pub to_string : ℤ → Bytes
to_string (pos n) = digits (suc n) n []
to_string (negsuc n) = 45 ∷ digits (suc (suc n)) (suc n) []

pub to_string-digit : (k : ℕ) → k < 9 → to_string (pos (suc k)) ≡ (49 + k) ∷ []
unfolding to_string
to_string-digit k h =
    if_true (ltb (suc k) 10) _ _ (ground arith) ∙ ap (λ (n : ℕ). n ∷ []) (omega arith)
