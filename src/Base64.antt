-- ===== src/Base64.antt =====
-- `base64encode` and `base64Decode` of http/utility.h. A `char` is a byte from 0 to 255, as it is
-- on the ARM targets; where `char` is signed, a byte above 127 would index the table from below.
pub mod Codes
pub mod RoundTrip
use Prim.Native.Nat.{bit_and, bit_or}
use bmcweb.Prelude.{
  ℕ, zero, suc, ◌+◌, ◌*◌, ◌/◌, ◌%◌, Bool, true, false, List, [], ◌∷◌, ◌++◌, Bytes, codes, get_or,
  replicate, if◌then◌else◌, ◌==◌,
}

-- `key`, by default
abbrev pub encoding_data : Bytes
encoding_data = codes "ABCDEFGHIJKLMNOPQRSTUVWXYZabcdefghijklmnopqrstuvwxyz0123456789+/"

abbrev pub encode_sextet : ℕ → ℕ
encode_sextet i = get_or encoding_data i 0

-- `(x & 0xFC) >> 2` and the other fields of a byte that the encoder takes
abbrev pub high_six : ℕ → ℕ
high_six x = bit_and x 0xfc / 4

abbrev pub low_two : ℕ → ℕ
low_two x = (bit_and x 0x03 * 16) % 256

abbrev pub high_four : ℕ → ℕ
high_four x = bit_and x 0xf0 / 16

abbrev pub low_four : ℕ → ℕ
low_four x = (bit_and x 0x0f * 4) % 256

abbrev pub high_two : ℕ → ℕ
high_two x = bit_and x 0xc0 / 64

abbrev pub low_six : ℕ → ℕ
low_six x = bit_and x 0x3f

-- `base64encode`: the loop over groups of three bytes, and the one or two that are left.
pub base64_encode : Bytes → Bytes
base64_encode [] = []
base64_encode (a ∷ []) = encode_sextet (high_six a) ∷ encode_sextet (low_two a) ∷ b'=' ∷ b'=' ∷ []
base64_encode (a ∷ b ∷ []) =
    encode_sextet (high_six a)
    ∷ encode_sextet (bit_or (low_two a) (high_four b))
    ∷ encode_sextet (low_four b)
    ∷ b'='
    ∷ []
base64_encode (a ∷ b ∷ c ∷ bytes) =
    encode_sextet (high_six a)
    ∷ encode_sextet (bit_or (low_two a) (high_four b))
    ∷ encode_sextet (bit_or (low_four b) (high_two c))
    ∷ encode_sextet (low_six c)
    ∷ base64_encode bytes

-- `static_cast<char>(-1)`
abbrev pub nop : ℕ
nop = 255

-- `n` numbers from `i` on
abbrev pub range_from : ℕ → ℕ → List ℕ
range_from i zero = []
range_from i (suc n) = i ∷ range_from (i + 1) n

-- `decodingData`, 256 places
abbrev pub decoding_data : List ℕ
decoding_data =
    replicate 43 nop
    ++ 62 ∷ replicate 3 nop
    ++ 63 ∷ range_from 52 10
    ++ replicate 7 nop
    ++ range_from 0 26
    ++ replicate 6 nop
    ++ range_from 26 26
    ++ replicate 133 nop

unfoldable pub decode_sextet : ℕ → ℕ
decode_sextet c = get_or decoding_data c nop

-- The bytes that the decoder puts together from the codes of a group.
abbrev pub first_byte : ℕ → ℕ → ℕ
first_byte code0 code1 = bit_or (code0 * 4) (bit_and (code1 / 16) 0x3) % 256

abbrev pub second_byte : ℕ → ℕ → ℕ
second_byte code1 code2 = bit_or (bit_and (code1 * 16) 0xf0) (bit_and (code2 / 4) 0x0f) % 256

abbrev pub third_byte : ℕ → ℕ → ℕ
third_byte code2 code3 = bit_or (bit_and (code2 * 64) 0xc0) code3 % 256

-- `base64Decode`, a group of up to four characters at a time: its result, and the output as far as
-- it got.
unfoldable pub decode_from : Bytes → Bytes → Bool × Bytes
decode_from [] output = (true, output)
decode_from (a ∷ []) output = (false, output)
decode_from (a ∷ b ∷ []) output =
    let code0 = decode_sextet a in
    let code1 = decode_sextet b in
    if code0 == nop
    then (false, output)
    else if code1 == nop
    then (false, output)
    else (true, output ++ first_byte code0 code1 ∷ [])
decode_from (a ∷ b ∷ c ∷ []) output =
    let code0 = decode_sextet a in
    let code1 = decode_sextet b in
    let code2 = decode_sextet c in
    let output1 = output ++ first_byte code0 code1 ∷ [] in
    if code0 == nop
    then (false, output)
    else if code1 == nop
    then (false, output)
    else if c == b'='
    then (bit_and code1 0x0f == 0, output1)
    else if code2 == nop
    then (false, output1)
    else (true, output1 ++ second_byte code1 code2 ∷ [])
decode_from (a ∷ b ∷ c ∷ d ∷ input) output =
    let code0 = decode_sextet a in
    let code1 = decode_sextet b in
    let code2 = decode_sextet c in
    let code3 = decode_sextet d in
    let output1 = output ++ first_byte code0 code1 ∷ [] in
    let output2 = output1 ++ second_byte code1 code2 ∷ [] in
    let rest = decode_from input (output2 ++ third_byte code2 code3 ∷ []) in
    if code0 == nop
    then (false, output)
    else if code1 == nop
    then (false, output)
    else if c == b'='
    then (bit_and code1 0x0f == 0, output1)
    else if code2 == nop
    then (false, output1)
    else if d == b'='
    then (bit_and code2 0x03 == 0, output2)
    else if code3 == nop
    then (false, output2)
    else rest

unfoldable pub base64_decode : Bytes → Bool × Bytes
unfolding decode_from
base64_decode input = decode_from input []
