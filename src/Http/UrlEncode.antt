-- ===== src/Http/UrlEncode.antt =====
-- `urlEncode` of include/http_utility.hpp, against a decoder written for the purpose.
use bmcweb.Prelude.{
  ℕ, ◌+◌, ◌-◌, ◌*◌, ◌/◌, ◌%◌, ◌<◌, ◌≡◌, refl, ap, inl, inr, true, false, ◌||◌, [], ◌∷◌, Bytes, All,
  arith, if◌then◌else◌, ◌==◌, leb, Bool-cases,
}
use bmcweb.Http.{is_unreserved, hex_digit, url_encode}

abbrev hex_value : ℕ → ℕ
hex_value d = if leb d b'9' then d - b'0' else d - b'A' + 10

-- Percent-decoding, as RFC 3986 has it.
unfoldable pub url_decode : Bytes → Bytes
url_decode [] = []
url_decode (c ∷ []) = c ∷ []
url_decode (c ∷ d ∷ []) = c ∷ d ∷ []
url_decode (c ∷ d ∷ e ∷ text) =
    let plain = c ∷ url_decode (d ∷ e ∷ text) in
    let escaped = (hex_value d * 16 + hex_value e) ∷ url_decode text in
    if c == b'%' then escaped else plain

hex_value-hex_digit : (d : ℕ) → d < 16 → hex_value (hex_digit d) ≡ d
hex_value-hex_digit d h = ground arith

url_decode_plain :
    (c : ℕ) (text : Bytes) → (c == b'%') ≡ false → url_decode (c ∷ text) ≡ c ∷ url_decode text
unfolding url_decode
url_decode_plain c [] h = refl
url_decode_plain c (d ∷ []) h = refl
url_decode_plain c (d ∷ e ∷ text) h = rw h

url_decode_escaped :
    (d e : ℕ) (text : Bytes)
    → d < 16
    → e < 16
    → url_decode (b'%' ∷ hex_digit d ∷ hex_digit e ∷ text) ≡ (d * 16 + e) ∷ url_decode text
unfolding url_decode
url_decode_escaped d e text hd he = rw (hex_value-hex_digit d hd, hex_value-hex_digit e he)

url_decode-nil : url_decode [] ≡ []
unfolding url_decode
url_decode-nil = refl

unreserved-ne-percent : (c : ℕ) → is_unreserved c ≡ true → (c == b'%') ≡ false
unreserved-ne-percent c h = ground arith

-- Decoding what was encoded gives back every text of bytes.
pub url_decode-url_encode :
    (value : Bytes) → All (λ c. c < 256) value → url_decode (url_encode value) ≡ value
unfolding url_encode
url_decode-url_encode [] h = url_decode-nil
url_decode-url_encode (c ∷ value) (p, h) = elim (Bool-cases (is_unreserved c)) [
  | inl e ↦
      rw (e, url_decode_plain c (url_encode value) (unreserved-ne-percent c e))
        (ap (◌∷◌ c) (url_decode-url_encode value h))
  | inr e ↦
      let whole : c / 16 * 16 + c % 16 ≡ c = omega arith in
      rw (
        e,
        url_decode_escaped (c / 16) (c % 16) (url_encode value) (omega arith) (omega arith),
        whole,
        url_decode-url_encode value h,
      )
]

-- A byte that may stand in a header's value and in a URI: an unreserved character or a percent sign.
abbrev pub IsHarmless : ℕ → Type 0
IsHarmless c = (is_unreserved c || c == b'%') ≡ true

hex_digit-IsHarmless : (d : ℕ) → d < 16 → IsHarmless (hex_digit d)
hex_digit-IsHarmless d h = ground arith

-- Whatever the text is, its encoding holds nothing but unreserved characters and percent signs; in
-- particular no line break, quote, slash or colon.
pub url_encode-IsHarmless :
    (value : Bytes) → All (λ c. c < 256) value → All IsHarmless (url_encode value)
unfolding url_encode
url_encode-IsHarmless [] h = tt
url_encode-IsHarmless (c ∷ value) (p, h) = elim (Bool-cases (is_unreserved c)) [
  | inl e ↦ rw e (rw e, url_encode-IsHarmless value h)
  | inr e ↦ rw e (
    refl,
    (
      hex_digit-IsHarmless (c / 16) (omega arith),
      (hex_digit-IsHarmless (c % 16) (omega arith), url_encode-IsHarmless value h),
    ),
  )
]
