-- ===== src/Base64/RoundTrip.antt =====
-- `base64Decode` undoes `base64encode` (http/utility.h).
use bmcweb.Prelude.{
  ℕ, ◌+◌, ◌*◌, ◌/◌, ◌%◌, ◌<◌, ◌≡◌, true, false, [], ◌∷◌, ◌++◌, Bytes, All, arith, append_assoc,
  append-nil, ◌==◌,
}
use bmcweb.Base64.{base64_encode, base64_decode, decode_from, encode_sextet, nop}
use bmcweb.Base64.Codes.{
  decode_sextet-encode_sextet, encode_sextet-ne-pad, fields, second_code, third_code,
  first_byte_lem, second_byte_lem, third_byte_lem, low_bits,
}

abbrev pub AreBytes : Bytes → Type 0
AreBytes = All (λ c. c < 256)

code-ne-nop : (x : ℕ) → x < 64 → (x == nop) ≡ false
code-ne-nop x h = ground arith

-- A group of four characters that are codes, and none of them padding.
decode_from_group :
    (x y z w : ℕ) (input output : Bytes)
    → x < 64
    → y < 64
    → z < 64
    → w < 64
    → decode_from
        (encode_sextet x ∷ encode_sextet y ∷ encode_sextet z ∷ encode_sextet w ∷ input)
        output
      ≡ decode_from input
          (output ++ (x * 4 + y / 16) ∷ (y % 16 * 16 + z / 4) ∷ (z % 4 * 64 + w) ∷ [])
unfolding decode_from
decode_from_group x y z w input output hx hy hz hw =
    rw
      (
        decode_sextet-encode_sextet x hx,
        decode_sextet-encode_sextet y hy,
        decode_sextet-encode_sextet z hz,
        decode_sextet-encode_sextet w hw,
        encode_sextet-ne-pad z hz,
        encode_sextet-ne-pad w hw,
        first_byte_lem x y hx hy,
        second_byte_lem y z hy hz,
        third_byte_lem z w hz hw,
        code-ne-nop x hx,
        code-ne-nop y hy,
        code-ne-nop z hz,
        code-ne-nop w hw,
      )
      (simp append_assoc)

-- A last group that is padded once or twice: the bits that are left over have to be zero.
decode_from_padded_twice :
    (x y : ℕ) (output : Bytes)
    → x < 64
    → y < 64
    → decode_from (encode_sextet x ∷ encode_sextet y ∷ b'=' ∷ b'=' ∷ []) output
      ≡ (y % 16 == 0, output ++ (x * 4 + y / 16) ∷ [])
unfolding decode_from
decode_from_padded_twice x y output hx hy = rw (
  decode_sextet-encode_sextet x hx,
  decode_sextet-encode_sextet y hy,
  first_byte_lem x y hx hy,
  (low_bits y hy).0,
  code-ne-nop x hx,
  code-ne-nop y hy,
)

decode_from_padded_once :
    (x y z : ℕ) (output : Bytes)
    → x < 64
    → y < 64
    → z < 64
    → decode_from (encode_sextet x ∷ encode_sextet y ∷ encode_sextet z ∷ b'=' ∷ []) output
      ≡ (z % 4 == 0, output ++ (x * 4 + y / 16) ∷ (y % 16 * 16 + z / 4) ∷ [])
unfolding decode_from
decode_from_padded_once x y z output hx hy hz =
    rw
      (
        decode_sextet-encode_sextet x hx,
        decode_sextet-encode_sextet y hy,
        decode_sextet-encode_sextet z hz,
        encode_sextet-ne-pad z hz,
        first_byte_lem x y hx hy,
        second_byte_lem y z hy hz,
        (low_bits z hz).1,
        code-ne-nop x hx,
        code-ne-nop y hy,
        code-ne-nop z hz,
      )
      (simp append_assoc)

decode_from-nil : (output : Bytes) → decode_from [] output ≡ (true, output ++ [])
unfolding decode_from
decode_from-nil output = rw append-nil

decode_from-base64_encode :
    (bytes output : Bytes)
    → AreBytes bytes
    → decode_from (base64_encode bytes) output ≡ (true, output ++ bytes)
unfolding base64_encode
decode_from-base64_encode [] output h = decode_from-nil output
decode_from-base64_encode (a ∷ []) output (ha, _) =
    let low : (a % 4 * 16 % 16 == 0) ≡ true = ground arith in
    let byte : a / 4 * 4 + a % 4 * 16 / 16 ≡ a = omega arith in
    rw (
      (fields a ha).0,
      (fields a ha).1,
      decode_from_padded_twice (a / 4) (a % 4 * 16) output (omega arith) (omega arith),
      low,
      byte,
    )
decode_from-base64_encode (a ∷ b ∷ []) output (ha, (hb, _)) =
    let low : (b % 16 * 4 % 4 == 0) ≡ true = ground arith in
    let byte1 : a / 4 * 4 + (a % 4 * 16 + b / 16) / 16 ≡ a = omega arith in
    let byte2 : (a % 4 * 16 + b / 16) % 16 * 16 + b % 16 * 4 / 4 ≡ b = omega arith in
    rw (
      (fields a ha).0,
      second_code a b ha hb,
      (fields b hb).3,
      decode_from_padded_once (a / 4) (a % 4 * 16 + b / 16) (b % 16 * 4) output (omega arith)
          (omega arith) (omega arith),
      low,
      byte1,
      byte2,
    )
decode_from-base64_encode (a ∷ b ∷ c ∷ bytes) output (ha, (hb, (hc, h))) =
    let byte1 : a / 4 * 4 + (a % 4 * 16 + b / 16) / 16 ≡ a = omega arith in
    let byte2 : (a % 4 * 16 + b / 16) % 16 * 16 + (b % 16 * 4 + c / 64) / 4 ≡ b = omega arith in
    let byte3 : (b % 16 * 4 + c / 64) % 4 * 64 + c % 64 ≡ c = omega arith in
    rw
      (
        (fields a ha).0,
        second_code a b ha hb,
        third_code b c hb hc,
        (fields c hc).5,
        decode_from_group (a / 4) (a % 4 * 16 + b / 16) (b % 16 * 4 + c / 64) (c % 64)
            (base64_encode bytes) output (omega arith) (omega arith) (omega arith) (omega arith),
        byte1,
        byte2,
        byte3,
        decode_from-base64_encode bytes (output ++ a ∷ b ∷ c ∷ []) h,
      )
      (simp append_assoc)

-- Round trip: decoding what was encoded succeeds and gives back every byte, for every list of bytes.
pub base64_decode-base64_encode :
    (bytes : Bytes) → AreBytes bytes → base64_decode (base64_encode bytes) ≡ (true, bytes)
unfolding base64_decode
base64_decode-base64_encode bytes h = decode_from-base64_encode bytes [] h
