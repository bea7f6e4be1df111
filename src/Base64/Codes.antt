-- ===== src/Base64/Codes.antt =====
-- The tables and the bit fields of http/utility.h's base64, checked value by value.
use Prim.Native.Nat.{bit_and, bit_or}
use bmcweb.Prelude.{
  ℕ, zero, suc, ◌+◌, ◌*◌, ◌/◌, ◌%◌, ◌<◌, ◌≡◌, refl, Bool, true, false, ◌&&◌, arith, ◌==◌,
  if◌then◌else◌, ==_iff,
}
use bmcweb.Base64.{
  encode_sextet, decode_sextet, high_six, low_two, high_four, low_four, high_two, low_six,
  first_byte, second_byte, third_byte,
}

-- Two functions with the same values up to a bound, by evaluation.
agrees : (ℕ → ℕ) → (ℕ → ℕ) → ℕ → Bool
agrees f g zero = true
agrees f g (suc k) = agrees f g k && f k == g k

check : (bound : ℕ) (f g : ℕ → ℕ) (y : ℕ) → agrees f g bound ≡ true → y < bound → f y ≡ g y
unfolding agrees
check zero f g y same lt = absurd (omega arith)
check (suc k) f g y same lt = ground (arith, check k f g y, (==_iff (f k) (g k)).0)

-- The decoder's table undoes the encoder's, and no code is spelled as the padding.
pub decode_sextet-encode_sextet : (x : ℕ) → x < 64 → decode_sextet (encode_sextet x) ≡ x
unfolding decode_sextet agrees
decode_sextet-encode_sextet x h = check 64 (λ y. decode_sextet (encode_sextet y)) (λ y. y) x refl h

pub encode_sextet-ne-pad : (x : ℕ) → x < 64 → (encode_sextet x == b'=') ≡ false
unfolding agrees
encode_sextet-ne-pad x h =
    ground (arith, check 64 (λ y. if encode_sextet y == b'=' then 1 else 0) (λ y. 0) x refl h)

pub fields :
    (x : ℕ)
    → x < 256
    → (high_six x ≡ x / 4)
      × (low_two x ≡ x % 4 * 16)
      × (high_four x ≡ x / 16)
      × (low_four x ≡ x % 16 * 4)
      × (high_two x ≡ x / 64)
      × (low_six x ≡ x % 64)
unfolding agrees
fields x h = (
  check 256 high_six (λ y. y / 4) x refl h,
  check 256 low_two (λ y. y % 4 * 16) x refl h,
  check 256 high_four (λ y. y / 16) x refl h,
  check 256 low_four (λ y. y % 16 * 4) x refl h,
  check 256 high_two (λ y. y / 64) x refl h,
  check 256 low_six (λ y. y % 64) x refl h,
)

-- The two operands of each `|` have no bit in common, so it adds them.
bit_or-four : (q z : ℕ) → q < 64 → z < 4 → bit_or (q * 4) z ≡ q * 4 + z
unfolding agrees
bit_or-four q z h k =
    let i = q * 4 + z in
    let e : bit_or (i / 4 * 4) (i % 4) ≡ i =
      check 256 (λ y. bit_or (y / 4 * 4) (y % 4)) (λ y. y) i refl (omega arith) in
    let left : i / 4 * 4 ≡ q * 4 = omega arith in
    let right : i % 4 ≡ z = omega arith in rw (left, right) at e

bit_or-sixteen : (q z : ℕ) → q < 16 → z < 16 → bit_or (q * 16) z ≡ q * 16 + z
unfolding agrees
bit_or-sixteen q z h k =
    let i = q * 16 + z in
    let e : bit_or (i / 16 * 16) (i % 16) ≡ i =
      check 256 (λ y. bit_or (y / 16 * 16) (y % 16)) (λ y. y) i refl (omega arith) in
    let left : i / 16 * 16 ≡ q * 16 = omega arith in
    let right : i % 16 ≡ z = omega arith in rw (left, right) at e

bit_or-sixty_four : (q z : ℕ) → q < 4 → z < 64 → bit_or (q * 64) z ≡ q * 64 + z
unfolding agrees
bit_or-sixty_four q z h k =
    let i = q * 64 + z in
    let e : bit_or (i / 64 * 64) (i % 64) ≡ i =
      check 256 (λ y. bit_or (y / 64 * 64) (y % 64)) (λ y. y) i refl (omega arith) in
    let left : i / 64 * 64 ≡ q * 64 = omega arith in
    let right : i % 64 ≡ z = omega arith in rw (left, right) at e

-- The codes that the encoder makes of three bytes.
pub second_code :
    (a b : ℕ) → a < 256 → b < 256 → bit_or (low_two a) (high_four b) ≡ a % 4 * 16 + b / 16
second_code a b h k =
    rw ((fields a h).1, (fields b k).2)
      (bit_or-sixteen (a % 4) (b / 16) (omega arith) (omega arith))

pub third_code :
    (b c : ℕ) → b < 256 → c < 256 → bit_or (low_four b) (high_two c) ≡ b % 16 * 4 + c / 64
third_code b c h k =
    rw ((fields b h).3, (fields c k).4) (bit_or-four (b % 16) (c / 64) (omega arith) (omega arith))

-- The bytes that the decoder makes of codes.
pub first_byte_lem : (x y : ℕ) → x < 64 → y < 64 → first_byte x y ≡ x * 4 + y / 16
unfolding agrees
first_byte_lem x y h k =
    let low : bit_and (y / 16) 0x3 ≡ y / 16 =
      check 64 (λ y. bit_and (y / 16) 0x3) (λ y. y / 16) y refl k in
    rw (low, bit_or-four x (y / 16) (omega arith) (omega arith)) (omega arith)

pub second_byte_lem : (y z : ℕ) → y < 64 → z < 64 → second_byte y z ≡ y % 16 * 16 + z / 4
unfolding agrees
second_byte_lem y z h k =
    let high : bit_and (y * 16) 0xf0 ≡ y % 16 * 16 =
      check 64 (λ y. bit_and (y * 16) 0xf0) (λ y. y % 16 * 16) y refl h in
    let low : bit_and (z / 4) 0x0f ≡ z / 4 =
      check 64 (λ z. bit_and (z / 4) 0x0f) (λ z. z / 4) z refl k in
    rw (high, low, bit_or-sixteen (y % 16) (z / 4) (omega arith) (omega arith)) (omega arith)

pub third_byte_lem : (z w : ℕ) → z < 64 → w < 64 → third_byte z w ≡ z % 4 * 64 + w
unfolding agrees
third_byte_lem z w h k =
    let high : bit_and (z * 64) 0xc0 ≡ z % 4 * 64 =
      check 64 (λ z. bit_and (z * 64) 0xc0) (λ z. z % 4 * 64) z refl h in
    rw (high, bit_or-sixty_four (z % 4) w (omega arith) k) (omega arith)

-- The bits that padding leaves over.
pub low_bits : (x : ℕ) → x < 64 → (bit_and x 0x0f ≡ x % 16) × (bit_and x 0x03 ≡ x % 4)
unfolding agrees
low_bits x h = (
  check 64 (λ y. bit_and y 0x0f) (λ y. y % 16) x refl h,
  check 64 (λ y. bit_and y 0x03) (λ y. y % 4) x refl h,
)
