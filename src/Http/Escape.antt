-- ===== src/Http/Escape.antt =====
-- `escapeHtml` of http/utility.h, against a reader of its entities written for the purpose.
use bmcweb.Prelude.{
  ℕ, zero, suc, ◌≡◌, refl, ap, ◌∙◌, subst, sym, inl, inr, Bool, false, ◌||◌, Option, none, some, [],
  ◌∷◌, ◌++◌, Bytes, codes, starts_with, All, All-append, if◌then◌else◌, ◌==◌, ==_iff, Bool-cases,
}
use bmcweb.Http.Html.{escape_char, escape_html}

-- The entity that a text starts with behind its `&`: the character, and the length.
abbrev pub entity : Bytes → Option (ℕ × ℕ)
entity s =
    if starts_with s (codes "amp;")
    then some (b'&', 4)
    else if starts_with s (codes "quot;")
    then some (b'"', 5)
    else if starts_with s (codes "apos;")
    then some (b'\'', 5)
    else if starts_with s (codes "lt;")
    then some (b'<', 3)
    else if starts_with s (codes "gt;")
    then some (b'>', 3)
    else none

-- What a browser reads, behind a number of characters that are read already.
unfoldable pub read_from : ℕ → Bytes → Bytes
read_from n [] = []
read_from (suc n) (c ∷ s) = read_from n s
read_from zero (c ∷ s) =
    let plain = read_from zero s in
    if c == b'&'
    then elim (entity s) [ none ↦ c ∷ plain | some (d, n) ↦ d ∷ read_from n s ]
    else c ∷ plain

-- A character that begins or ends a tag or an attribute.
abbrev pub is_markup : ℕ → Bool
is_markup c = c == b'<' || c == b'>' || c == b'"' || c == b'\''

-- What holds of the characters that are escaped, and of every other.
char-elim :
    {P : ℕ → Type 0}
    → P b'&'
    → P b'"'
    → P b'\''
    → P b'<'
    → P b'>'
    → ((c : ℕ) → escape_char c ≡ c ∷ [] → (c == b'&') ≡ false → is_markup c ≡ false → P c)
    → (c : ℕ) → P c
unfolding escape_char
char-elim {P} amp quot apos lt gt other c = elim (Bool-cases (c == b'&')) [
  | inl e ↦ subst P (sym ((==_iff _ _).0 e)) amp
  | inr e ↦ elim (Bool-cases (c == b'"')) [
    | inl f ↦ subst P (sym ((==_iff _ _).0 f)) quot
    | inr f ↦ elim (Bool-cases (c == b'\'')) [
      | inl g ↦ subst P (sym ((==_iff _ _).0 g)) apos
      | inr g ↦ elim (Bool-cases (c == b'<')) [
        | inl h ↦ subst P (sym ((==_iff _ _).0 h)) lt
        | inr h ↦ elim (Bool-cases (c == b'>')) [
          | inl i ↦ subst P (sym ((==_iff _ _).0 i)) gt
          | inr i ↦ other c (rw (e, f, g, h, i) refl) e (rw (f, g, h, i) refl)
        ]
      ]
    ]
  ]
]

read-escape_char : (c : ℕ) (s : Bytes) → read_from 0 (escape_char c ++ s) ≡ c ∷ read_from 0 s
unfolding escape_char read_from
read-escape_char =
    char-elim (λ s. refl) (λ s. refl) (λ s. refl) (λ s. refl) (λ s. refl)
      (λ c same e plain s. ap (λ t. read_from 0 (t ++ s)) same ∙ rw e refl)

abbrev pub IsText : ℕ → Type 0
IsText c = is_markup c ≡ false

escape_char-IsText : (c : ℕ) → All IsText (escape_char c)
unfolding escape_char
escape_char-IsText =
    char-elim (refl, (refl, (refl, (refl, (refl, tt)))))
      (refl, (refl, (refl, (refl, (refl, (refl, tt))))))
      (refl, (refl, (refl, (refl, (refl, (refl, tt)))))) (refl, (refl, (refl, (refl, tt))))
      (refl, (refl, (refl, (refl, tt))))
      (λ c same e plain. subst (All IsText) (sym same) (plain, tt))

read-nil : read_from 0 [] ≡ []
unfolding read_from
read-nil = refl

-- An escaped text holds no character that begins or ends a tag or an attribute, and a browser reads
-- the text in it that was escaped.
pub escape_html_lem :
    (text : Bytes) → All IsText (escape_html text) × (read_from 0 (escape_html text) ≡ text)
unfolding escape_html
escape_html_lem [] = (tt, read-nil)
escape_html_lem (c ∷ text) = (
  All-append IsText (escape_char c) (escape_html text) (escape_char-IsText c)
      (escape_html_lem text).0,
  read-escape_char c (escape_html text) ∙ ap (◌∷◌ c) (escape_html_lem text).1,
)
