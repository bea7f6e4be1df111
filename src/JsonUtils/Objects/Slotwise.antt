-- ===== src/JsonUtils/Objects/Slotwise.antt =====
-- What one member of the object does to the slots.
use bmcweb.Prelude.{
  ◌≡◌, refl, sym, ap, subst, ◌∙◌, ◌⊎◌, inl, inr, Bool, true, false, none, some, [], ◌∷◌, arith,
  Bytes, bytes_eq, eq_of_bytes_eq, ne_of_bytes_eq, Bool-cases, if_true, if_false,
}
use bmcweb.Prelude.Assoc.{Lacks, HasDistinctKeys}
use bmcweb.JsonUtils.{Value, Library, Answer, Outcome}
use bmcweb.JsonUtils.Unpack.{unpack_value}
use bmcweb.JsonUtils.Read.{Parameters, Slots, set_first, set_rest, read_json_values}
use bmcweb.JsonUtils.Decoding.Exact.{unpack_value-Decodes}
use bmcweb.JsonUtils.Objects.{Known, Filled, Steps}

set_first-true :
    {A B : Type 0} (s : B) (o : Outcome A) {h' : Bool} {x' : A} {s' : B} {r : Answer}
    → set_first s o ≡ some (true, ((h', x'), s'), r)
    → (h' ≡ true) × (s' ≡ s) × (o ≡ some (true, x', r))
set_first-true s none h = absurd (cc)
set_first-true s (some (ok, x, r)) h = (cc, cc, ground arith)

set_rest-true :
    {A B : Type 0} (p : A) (o : Outcome B) {p' : A} {s' : B} {r : Answer}
    → set_rest p o ≡ some (true, (p', s'), r)
    → (p' ≡ p) × (o ≡ some (true, s', r))
set_rest-true p none h = absurd (cc)
set_rest-true p (some (ok, x, r)) h = (cc, ground arith)

-- The key that stands first does not stand in the rest.
Steps-same :
    (lib : Library) (ps : Parameters) (key : Bytes) (v : Value) (s : Slots ps)
    → Lacks key ps
    → Steps lib ps key v s s
Steps-same lib [] key v s h = tt
Steps-same lib ((k, f) ∷ ps) key v (p, s) (ne, h) = elim (Bool-cases (bytes_eq key k)) [
  | inl e ↦ absurd (ne (sym (eq_of_bytes_eq key k e)))
  | inr e ↦ rw e (refl, Steps-same lib ps key v s h)
]

Same-of_Steps :
    (lib : Library) (ps : Parameters) (key : Bytes) (v : Value) (s s' : Slots ps)
    → Lacks key ps
    → Steps lib ps key v s s'
    → s' ≡ s
Same-of_Steps lib [] key v s s' h q = refl
Same-of_Steps lib ((k, f) ∷ ps) key v (p, s) (p', s') (ne, h) (q, qs) =
    elim (Bool-cases (bytes_eq key k)) [
      | inl e ↦ absurd (ne (sym (eq_of_bytes_eq key k e)))
      | inr e ↦
          let a : p' ≡ p = rw e at q in
          let b = Same-of_Steps lib ps key v s s' h qs in λ i. (a i, b i)
    ]

other-Known :
    (ps : Parameters) (key k : Bytes)
    → bytes_eq key k ≡ false
    → (key ≡ k) ⊎ Known ps key
    → Known ps key
other-Known ps key k e (inl same) = absurd (ne_of_bytes_eq key k e same)
other-Known ps key k e (inr known) = known

module _ (lib : Library) (dump_body : Answer → Bytes) where
  pub values_sound :
      (ps : Parameters) (key : Bytes) (v : Value) (s s' : Slots ps) (res r : Answer)
      → HasDistinctKeys ps
      → read_json_values lib dump_body ps key v s res ≡ some (true, s', r)
      → Known ps key × Steps lib ps key v s s' × (r ≡ res)
  unfolding read_json_values
  values_sound [] key v s s' res r d h = absurd (cc)
  values_sound ((k, f) ∷ ps) key v ((h, x), s) ((h', x'), s') res r (l, d) g =
      elim (Bool-cases (bytes_eq key k)) [
        | inl e ↦
            let same = eq_of_bytes_eq key k e in
            let (a, b, c) =
              set_first-true s (unpack_value lib dump_body f key v x res)
                (sym (if_true _ _ _ e) ∙ g) in
            let (q, t) = (unpack_value-Decodes lib dump_body f key v x x' res r).0 c in
            let others : Steps lib ps key v s s' =
              subst (λ (y : Slots ps). Steps lib ps key v s y) (sym b)
                (Steps-same lib ps key v s (subst (λ (y : Bytes). Lacks y ps) (sym same) l)) in
            (inl same, rw e ((a, q), others), t)
        | inr e ↦
            let (a, b) =
              set_rest-true (h, x) (read_json_values lib dump_body ps key v s res)
                (sym (if_false _ _ _ e) ∙ g) in
            let (known, q, t) = values_sound ps key v s s' res r d b in (inr known, rw e (a, q), t)
      ]

  pub values_complete :
      (ps : Parameters) (key : Bytes) (v : Value) (s s' : Slots ps) (res : Answer)
      → HasDistinctKeys ps
      → Known ps key
      → Steps lib ps key v s s'
      → read_json_values lib dump_body ps key v s res ≡ some (true, s', res)
  unfolding read_json_values
  values_complete [] key v s s' res d known q = absurd known
  values_complete ((k, f) ∷ ps) key v ((h, x), s) ((h', x'), s') res (l, d) known (q, qs) =
      elim (Bool-cases (bytes_eq key k)) [
        | inl e ↦
            let (a, c) : Filled lib f v (h, x) (h', x') = rw e at q in
            let b : s' ≡ s =
              Same-of_Steps lib ps key v s s'
                (subst (λ (y : Bytes). Lacks y ps) (sym (eq_of_bytes_eq key k e)) l) qs in
            if_true _ _ _ e
            ∙ ap (set_first s)
                ((unpack_value-Decodes lib dump_body f key v x x' res res).1 (c, refl))
            ∙ (λ i. some (true, ((sym a i, x'), sym b i), res))
        | inr e ↦
            let m : (h', x') ≡ (h, x) = rw e at q in
            if_false _ _ _ e
            ∙ ap (set_rest (h, x))
                (values_complete ps key v s s' res d (other-Known ps key k e known) qs)
            ∙ (λ i. some (true, (sym m i, s'), res))
      ]
