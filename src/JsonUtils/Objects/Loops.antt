-- ===== src/JsonUtils/Objects/Loops.antt =====
-- What the loop of `readJson` over the members does to the slots.
use bmcweb.Prelude.{
  ◌≡◌, refl, sym, ap, subst, ◌∙◌, Bool, true, false, Option, none, some, [], ◌∷◌, Bytes, bytes_eq,
  eq_of_bytes_eq, if◌then◌else◌, All,
}
use bmcweb.Prelude.Assoc.{Assoc, lookup, Lacks, HasDistinctKeys, lookup_of_Lacks}
use bmcweb.JsonUtils.{Value, Library, Field, El, Answer}
use bmcweb.JsonUtils.Read.{Parameters, Slots, read_json_values, read_members}
use bmcweb.JsonUtils.Decoding.Values.{in_turn-true, true-in_turn}
use bmcweb.JsonUtils.Objects.Slotwise.{values_sound, values_complete}
use bmcweb.JsonUtils.Objects.{Known, Filled, Change, Steps, Fills}

-- A member and then those after it, none of which has its key, on one slot.
module _ (lib : Library) (f : Field) (v : Value) where
  slot-step :
      (b : Bool) (o : Option Value) (p p1 p' : Bool × El f)
      → (b ≡ true → o ≡ none)
      → Change lib f (if b then some v else none) p p1
      → Change lib f o p1 p'
      → Change lib f (if b then some v else o) p p'
  slot-step true o p p1 p' absent q a =
      let same : p' ≡ p1 = subst (λ t. Change lib f t p1 p') (absent refl) a in
      subst (λ t. Filled lib f v p t) (sym same) q
  slot-step false o p p1 p' absent q a = subst (λ t. Change lib f o t p') q a

  slot-split :
      (b : Bool) (o : Option Value) (p p' : Bool × El f)
      → (b ≡ true → o ≡ none)
      → Change lib f (if b then some v else o) p p'
      → Change lib f (if b then some v else none) p (if b then p' else p)
        × Change lib f o (if b then p' else p) p'
  slot-split true o p p' absent q = (q, subst (λ t. Change lib f t p' p') (sym (absent refl)) refl)
  slot-split false o p p' absent q = (refl, q)

module _ (lib : Library) (key : Bytes) (v : Value) (items : Assoc Value) (l : Lacks key items) where
  absent_when : (k : Bytes) → bytes_eq key k ≡ true → lookup k items ≡ none
  absent_when k e =
      lookup_of_Lacks k items (subst (λ (t : Bytes). Lacks t items) (eq_of_bytes_eq key k e) l)

  Fills-step :
      (ps : Parameters) (s s1 s' : Slots ps)
      → Steps lib ps key v s s1
      → Fills lib ps items s1 s'
      → Fills lib ps ((key, v) ∷ items) s s'
  unfolding lookup
  Fills-step [] s s1 s' q fs = tt
  Fills-step ((k, f) ∷ ps) (p, s) (p1, s1) (p', s') (q, qs) (a, fs) = (
    slot-step lib f v (bytes_eq key k) (lookup k items) p p1 p' (absent_when k) q a,
    Fills-step ps s s1 s' qs fs,
  )

  -- The slots between the two.
  Fills-split :
      (ps : Parameters) (s s' : Slots ps)
      → Fills lib ps ((key, v) ∷ items) s s'
      → (s1 : Slots ps) × Steps lib ps key v s s1 × Fills lib ps items s1 s'
  unfolding lookup
  Fills-split [] s s' fs = (tt, tt, tt)
  Fills-split ((k, f) ∷ ps) (p, s) (p', s') (a, fs) =
      let (q, r) = slot-split lib f v (bytes_eq key k) (lookup k items) p p' (absent_when k) a in
      let (s1, qs, rs) = Fills-split ps s s' fs in
      ((if bytes_eq key k then p' else p, s1), (q, qs), (r, rs))

Fills-none : (lib : Library) (ps : Parameters) (s : Slots ps) → Fills lib ps [] s s
unfolding lookup
Fills-none lib [] s = tt
Fills-none lib (p ∷ ps) (x, s) = (refl, Fills-none lib ps s)

same-of_Fills : (lib : Library) (ps : Parameters) (s s' : Slots ps) → Fills lib ps [] s s' → s' ≡ s
unfolding lookup
same-of_Fills lib [] s s' h = refl
same-of_Fills lib ((k, f) ∷ ps) (p, s) (p', s') (a, h) =
    let b = same-of_Fills lib ps s s' h in λ i. (a i, b i)

module _ (lib : Library) (dump_body : Answer → Bytes) (ps : Parameters)
    (d : HasDistinctKeys ps) where
  pub members_sound :
      (items : Assoc Value) (s s' : Slots ps) (res r : Answer)
      → HasDistinctKeys items
      → read_members lib dump_body ps items s res ≡ some (true, s', r)
      → All (λ (kv : Bytes × Value). Known ps kv.0) items × Fills lib ps items s s' × (r ≡ res)
  unfolding read_members
  members_sound [] s s' res r e h =
      let same : s' ≡ s = cc in
      (tt, subst (λ t. Fills lib ps [] s t) (sym same) (Fills-none lib ps s), cc)
  members_sound ((key, v) ∷ items) s s' res r (l, e) h =
      let (s1, r1, e1, e2) = in_turn-true (read_json_values lib dump_body ps key v s res) _ h in
      let (known, q, t) = values_sound lib dump_body ps key v s s1 res r1 d e1 in
      let (ks, fs, t') = members_sound items s1 s' r1 r e e2 in
      ((known, ks), Fills-step lib key v items l ps s s1 s' q fs, t' ∙ t)

  pub members_complete :
      (items : Assoc Value) (s s' : Slots ps) (res : Answer)
      → HasDistinctKeys items
      → All (λ (kv : Bytes × Value). Known ps kv.0) items
      → Fills lib ps items s s'
      → read_members lib dump_body ps items s res ≡ some (true, s', res)
  unfolding read_members
  members_complete [] s s' res e ks fs =
      ap (λ (t : Slots ps). some (true, t, res)) (sym (same-of_Fills lib ps s s' fs))
  members_complete ((key, v) ∷ items) s s' res (l, e) (known, ks) fs =
      let (s1, q, rest) = Fills-split lib key v items l ps s s' fs in
      true-in_turn (read_json_values lib dump_body ps key v s res) _
        (values_complete lib dump_body ps key v s s1 res d known q)
        (members_complete items s1 s' res e ks rest)
