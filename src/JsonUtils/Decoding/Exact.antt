-- ===== src/JsonUtils/Decoding/Exact.antt =====
-- `unpackValue` succeeds exactly on the values that its variable's type decodes.
use bmcweb.Prelude.{
  ◌≡◌, refl, sym, ap, ◌∙◌, ◌↔◌, inl, inr, Bool, true, some, Bytes, length, Bool-cases, if_true,
  if_false, ◌==◌, ==_iff,
}
use bmcweb.JsonUtils.{
  Value, Library, Field, floating, json, signed, unsigned, optional, vector, El, Answer,
}
use bmcweb.JsonUtils.Unpack.{
  blank, as_double, as_array, as_text, as_flag, is_complex, unpack_value, outside_signed,
  outside_unsigned, outside_floating,
}
use bmcweb.JsonUtils.Decoding.{Decodes}
use bmcweb.JsonUtils.Decoding.Values.{
  pointer-true, pointer-some, in_turn-true, true-in_turn, checked-true, outside_signed_iff,
  outside_unsigned_iff, outside_floating_iff, each_sound, tuple_sound, each_complete,
  tuple_complete,
}

text_of : (v : Value) {s : Bytes} → as_text v ≡ some s → v ≡ Value.text s
text_of (Value.text t) h = ap Value.text (cc)
text_of _ h = absurd (cc)

flag_of : (v : Value) {b : Bool} → as_flag v ≡ some b → v ≡ Value.flag b
flag_of (Value.flag t) h = ap Value.flag (cc)
flag_of _ h = absurd (cc)

module _ (lib : Library) (dump_body : Answer → Bytes) where
  unpack_sound :
      (f : Field) (key : Bytes) (v : Value) (old new : El f) (res r : Answer)
      → unpack_value lib dump_body f key v old res ≡ some (true, new, r)
      → Decodes lib f v old new × (r ≡ res)
  unfolding unpack_value
  unpack_sound floating key v old new res r h =
      let (x, e, g) = pointer-true (as_double lib v) _ _ h (λ q. cc) in
      let (o, s, t) = checked-true lib v key old x (outside_floating lib x) g in
      let (p, p', p'') = (outside_floating_iff lib x).0 o in
      ((e ∙ ap some (sym s), rw s p, rw s p', rw s p''), t)
  unpack_sound (signed n) key v old new res r h =
      let (x, e, g) = pointer-true (lib.get_int64 v) _ _ h (λ q. cc) in
      let (o, s, t) = checked-true lib v key old x (outside_signed n x) g in
      ((e ∙ ap some (sym s), rw s ((outside_signed_iff n x).0 o)), t)
  unpack_sound (unsigned n) key v old new res r h =
      let (x, e, g) = pointer-true (lib.get_uint64 v) _ _ h (λ q. cc) in
      let (o, s, t) = checked-true lib v key old x (outside_unsigned n x) g in
      ((e ∙ ap some (sym s), rw s ((outside_unsigned_iff n x).0 o)), t)
  unpack_sound (optional f) key v old new res r h =
      let (x, r1, e1, e2) = in_turn-true (unpack_value lib dump_body f key v (blank f) res) _ h in
      let (d, s) = unpack_sound f key v (blank f) x res r1 e1 in ((x, cc, d), (cc) ∙ s)
  unpack_sound (vector f) key v old new res r h =
      let (vs, e, g) = pointer-true (as_array v) _ _ h (λ q. cc) in
      let (xs, s, t, p) =
        each_sound (unpack_value lib dump_body f key) (Decodes lib f) (unpack_sound f key) (blank f)
          vs old new res r g in
      ((vs, xs, e, s, p), t)
  unpack_sound (Field.array n f) key v old new res r h =
      let (vs, e, g) = pointer-true (as_array v) _ _ h (λ q. cc) in
      elim (Bool-cases (length vs == n)) [
        | inl q ↦
            let (p, t) =
              tuple_sound (unpack_value lib dump_body f key) (Decodes lib f) (unpack_sound f key) n
                vs old new res r ((==_iff _ _).0 q) (sym (if_true _ _ _ q) ∙ g) in
            ((vs, e, p), t)
        | inr q ↦ absurd (cc (sym (if_false _ _ _ q) ∙ g))
      ]
  unpack_sound json key v old new res r h = elim (Bool-cases (is_complex v)) [
    | inl q ↦ let e = sym (if_true _ _ _ q) ∙ h in ((q, cc), cc)
    | inr q ↦ absurd (cc (sym (if_false _ _ _ q) ∙ h))
  ]
  unpack_sound Field.text key v old new res r h =
      let (s, e, g) = pointer-true (as_text v) _ _ h (λ q. cc) in (text_of v (e ∙ ap some (cc)), cc)
  unpack_sound Field.flag key v old new res r h =
      let (b, e, g) = pointer-true (as_flag v) _ _ h (λ q. cc) in (flag_of v (e ∙ ap some (cc)), cc)

  unpack_complete :
      (f : Field) (key : Bytes) (v : Value) (old new : El f) (res : Answer)
      → Decodes lib f v old new
      → unpack_value lib dump_body f key v old res ≡ some (true, new, res)
  unfolding unpack_value
  unpack_complete floating key v old new res (e, a, b, c) =
      pointer-some _ _ e (if_false _ _ _ ((outside_floating_iff lib new).1 (a, b, c)))
  unpack_complete (signed n) key v old new res (e, p) =
      pointer-some _ _ e (if_false _ _ _ ((outside_signed_iff n new).1 p))
  unpack_complete (unsigned n) key v old new res (e, p) =
      pointer-some _ _ e (if_false _ _ _ ((outside_unsigned_iff n new).1 p))
  unpack_complete (optional f) key v old new res (x, e, d) =
      true-in_turn _ _ (unpack_complete f key v (blank f) x res d)
        (ap (λ y. some (true, y, res)) (sym e))
  unpack_complete (vector f) key v old new res (vs, xs, e, s, p) = pointer-some _ _ e (
      each_complete (unpack_value lib dump_body f key) (Decodes lib f) (unpack_complete f key)
        (blank f) vs old xs res p
      ∙ ap (λ y. some (true, y, res)) (sym s))
  unpack_complete (Field.array n f) key v old new res (vs, e, p) =
      let (q, h) =
        tuple_complete (unpack_value lib dump_body f key) (Decodes lib f) (unpack_complete f key) n
          vs old new res p in
      pointer-some _ _ e (if_true _ _ _ ((==_iff _ _).1 q) ∙ h)
  unpack_complete json key v old new res (q, e) =
      if_true _ _ _ q ∙ ap (λ y. some (true, y, res)) (sym e)
  unpack_complete Field.text key v old new res h = pointer-some _ _ (ap as_text h) refl
  unpack_complete Field.flag key v old new res h = pointer-some _ _ (ap as_flag h) refl

  -- For every type of variable, every value and every response: `unpackValue` returns true with the
  -- variable at `new` exactly when `new` is what the type decodes from the value, and it then adds no
  -- message.
  pub unpack_value-Decodes :
      (f : Field) (key : Bytes) (v : Value) (old new : El f) (res r : Answer)
      → (unpack_value lib dump_body f key v old res ≡ some (true, new, r))
        ↔ (Decodes lib f v old new × (r ≡ res))
  unpack_value-Decodes f key v old new res r = (
    unpack_sound f key v old new res r,
    λ (d : Decodes lib f v old new × (r ≡ res)).
        unpack_complete f key v old new res d.0
        ∙ ap (λ (t : Answer). some (true, new, t)) (sym (d.1)),
  )
