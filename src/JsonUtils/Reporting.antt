-- ===== src/JsonUtils/Reporting.antt =====
-- When the calls that `readJson` makes return, and when they add a message.
pub mod Requests
use bmcweb.Prelude.{
  ℤ, ℕ, zero, suc, ◌≡◌, refl, sym, ap, ◌∙◌, inl, inr, Bool, true, false, not, ◌&&◌, if◌then◌else◌,
  Bool-cases, if_false, Option, none, some, List, [], ◌∷◌, ◌++◌, append_assoc, append-nil, arith,
  Bytes, length, ◌==◌, is_empty, bytes_eq, if-elim, if_true, bytes_eq_refl, All, All-append,
}
use bmcweb.Messages.{Emission}
use bmcweb.Messages.RequestsA.{property_value_type_error, unrecognized_request_body}
use bmcweb.Messages.RequestsB.{property_unknown, property_missing, empty_json}
use bmcweb.JsonUtils.{
  Value, object, Pairs, member, no_more, entries, Library, Field, floating, json, signed, unsigned,
  optional, vector, Tuple, El, is_optional, Answer, Outcome, elements,
}
use bmcweb.JsonUtils.Unpack.{
  as_double, as_array, as_text, as_flag, is_complex, in_turn, conj, at_pointer, unpack_each,
  unpack_tuple, unpack_value, blank,
}
use bmcweb.JsonUtils.Read.{
  Parameters, Slots, Variables, fresh, variables, read_json_values, read_members, handle_missing,
  set_first, set_rest, conclude, read_json,
}

-- The variable has no number in it.
abbrev pub IsNumberFree : Field → Type 0
IsNumberFree floating = ⊥
IsNumberFree (signed n) = ⊥
IsNumberFree (unsigned n) = ⊥
IsNumberFree (optional f) = IsNumberFree f
IsNumberFree (vector f) = IsNumberFree f
IsNumberFree (Field.array n f) = IsNumberFree f
IsNumberFree _ = Unit

-- Each message sets the result 400.
abbrev pub AreBadRequests : Answer → Type 0
AreBadRequests added = All (λ (e : Emission). e.status ≡ some 400) added

-- The call returns, and returns true exactly when it adds no message; those that it adds set 400.
abbrev pub Reports : {A : Type 0} → Outcome A → Answer → Type 0
Reports {A} o res =
    (a : A) × (added : Answer) × (o ≡ some (is_empty added, a, res ++ added)) × AreBadRequests added

is_empty-append : (xs ys : Answer) → is_empty (xs ++ ys) ≡ (is_empty xs && is_empty ys)
is_empty-append [] ys = refl
is_empty-append (x ∷ xs) ys = refl

pub is_empty-append_flip : (xs ys : Answer) → is_empty (xs ++ ys) ≡ (is_empty ys && is_empty xs)
is_empty-append_flip xs ys = is_empty-append xs ys ∙ ground arith

done-Reports : {A : Type 0} (a : A) (res : Answer) → Reports (some (true, a, res)) res
done-Reports a res = (a, [], ap (λ (t : Answer). some (true, a, t)) (sym (append-nil res)), tt)

in_turn-Reports :
    {A B : Type 0} (m : Outcome A) (k : A → Answer → Outcome B) (res : Answer)
    → Reports m res
    → ((a : A) (r : Answer) → Reports (k a r) r)
    → Reports (in_turn m k) res
in_turn-Reports m k res (a, xs, e, q) h =
    let (b, ys, e', q') = h a (res ++ xs) in
    (
      b,
      xs ++ ys,
      ap (λ o. in_turn o k) e
          ∙ ap (conj (is_empty xs)) e'
          ∙ (λ i. some (sym (is_empty-append xs ys) i, b, append_assoc res xs ys i)),
      All-append (λ (e : Emission). e.status ≡ some 400) xs ys q q',
    )

pub refused-Reports :
    {A : Type 0} (m : Emission) (a : A) (res : Answer)
    → m.status ≡ some 400
    → Reports (some (false, a, res ++ (m ∷ []))) res
refused-Reports m a res q = (a, m ∷ [], refl, (q, tt))

pub if-Reports :
    {A : Type 0} (b : Bool) (o o' : Outcome A) (res : Answer)
    → Reports o res
    → Reports o' res
    → Reports (if b then o else o') res
if-Reports true o o' res h h' = h
if-Reports false o o' res h h' = h'

module _ {A : Type 0} (unpack : Value → A → Answer → Outcome A)
    (h : (v : Value) (x : A) (res : Answer) → Reports (unpack v x res) res) where
  each-Reports :
      (new : A) (vs : List Value) (old : List A) (res : Answer)
      → Reports (unpack_each unpack new vs old res) res
  unfolding unpack_each
  each-Reports new [] old res = done-Reports old res
  each-Reports new (v ∷ vs) old res =
      in_turn-Reports (unpack v new res) _ res (h v new res)
        (λ x r. each-Reports new vs (old ++ (x ∷ [])) r)

  tuple-Reports :
      (n : ℕ) (vs : List Value) (old : Tuple n A) (res : Answer)
      → Reports (unpack_tuple unpack n vs old res) res
  unfolding unpack_tuple
  tuple-Reports zero vs old res = done-Reports old res
  tuple-Reports (suc n) [] old res = done-Reports old res
  tuple-Reports (suc n) (v ∷ vs) (x, old) res =
      in_turn-Reports (unpack v x res) _ res (h v x res) (λ y r.
        in_turn-Reports (unpack_tuple unpack n vs old r) _ r (tuple-Reports n vs old r)
          (λ ys r'. done-Reports (y, ys) r'))

module _ (lib : Library) (dump_body : Answer → Bytes) where
  unpack-Reports :
      (f : Field) (key : Bytes) (v : Value) (old : El f) (res : Answer)
      → IsNumberFree f
      → Reports (unpack_value lib dump_body f key v old res) res
  unfolding unpack_value property_value_type_error
  unpack-Reports floating key v old res h = absurd h
  unpack-Reports (signed n) key v old res h = absurd h
  unpack-Reports (unsigned n) key v old res h = absurd h
  unpack-Reports (optional f) key v old res h =
      in_turn-Reports (unpack_value lib dump_body f key v (blank f) res) _ res
        (unpack-Reports f key v (blank f) res h) (λ x r. done-Reports (some x) r)
  unpack-Reports (vector f) key (Value.array items) old res h =
      each-Reports (unpack_value lib dump_body f key) (λ w x r. unpack-Reports f key w x r h)
        (blank f) (elements items) old res
  unpack-Reports (vector f) key _ old res h =
      refused-Reports (property_value_type_error (dump_body res) key) old res refl
  unpack-Reports (Field.array n f) key (Value.array items) old res h =
      if-Reports (length (elements items) == n) _ _ res
        (tuple-Reports (unpack_value lib dump_body f key) (λ w x r. unpack-Reports f key w x r h) n
          (elements items) old res)
        (refused-Reports (property_value_type_error (dump_body res) key) old res refl)
  unpack-Reports (Field.array n f) key _ old res h =
      refused-Reports (property_value_type_error (dump_body res) key) old res refl
  unpack-Reports json key v old res h =
      if-Reports (is_complex v) _ _ res (done-Reports v res)
        (refused-Reports (property_value_type_error (lib.dump v) key) old res refl)
  unpack-Reports Field.text key (Value.text s) old res h = done-Reports s res
  unpack-Reports Field.text key v old res h =
      refused-Reports (property_value_type_error (lib.dump v) key) old res refl
  unpack-Reports Field.flag key (Value.flag b) old res h = done-Reports b res
  unpack-Reports Field.flag key v old res h =
      refused-Reports (property_value_type_error (lib.dump v) key) old res refl

  values-Reports :
      (ps : Parameters) (key : Bytes) (v : Value) (s : Slots ps) (res : Answer)
      → All (λ (p : Bytes × Field). IsNumberFree p.1) ps
      → Reports (read_json_values lib dump_body ps key v s res) res
  unfolding read_json_values property_unknown
  values-Reports [] key v s res h = refused-Reports (property_unknown key) tt res refl
  values-Reports ((k, f) ∷ ps) key v ((bit, x), s) res (h, hs) =
      let (y, ms, e, q) = unpack-Reports f key v x res h in
      let (s', ms', e', q') = values-Reports ps key v s res hs in
      if-Reports (bytes_eq key k) _ _ res (((true, y), s), ms, ap (set_first s) e, q)
        (((bit, x), s'), ms', ap (set_rest (bit, x)) e', q')

  pub members-Reports :
      (ps : Parameters) (items : List (Bytes × Value)) (s : Slots ps) (res : Answer)
      → All (λ (p : Bytes × Field). IsNumberFree p.1) ps
      → Reports (read_members lib dump_body ps items s res) res
  unfolding read_members
  members-Reports ps [] s res h = done-Reports s res
  members-Reports ps ((key, v) ∷ items) s res h =
      in_turn-Reports (read_json_values lib dump_body ps key v s res) _ res
        (values-Reports ps key v s res h) (λ s' r. members-Reports ps items s' r h)
