-- ===== src/JsonUtils/Objects/Whole.antt =====
-- `readJson` succeeds exactly on the objects that its parameters read.
use bmcweb.Prelude.{
  ◌≡◌, refl, sym, ap, subst, ◌∙◌, ◌↔◌, ◌⊎◌, inl, inr, Bool, true, false, ◌&&◌, Option, none, some,
  [], ◌∷◌, arith, Bytes, Bool-cases, if_true, if_false, and_split, All, is_empty,
}
use bmcweb.Prelude.Assoc.{Assoc, lookup, HasDistinctKeys}
use bmcweb.JsonUtils.{
  Value, object, Pairs, entries, Library, Field, El, is_optional, Answer, Outcome,
}
use bmcweb.JsonUtils.Read.{
  Parameters, Slots, Variables, fresh, variables, handle_missing, conclude, read_json,
}
use bmcweb.JsonUtils.Objects.{Known, Fetched, Change, Fills, Reads}
use bmcweb.JsonUtils.Objects.Loops.{members_sound, members_complete}

-- No mandatory parameter is left without a value.
abbrev IsComplete : (ps : Parameters) → Slots ps → Type 0
IsComplete [] s = Unit
IsComplete ((k, f) ∷ ps) ((h, x), s) = ((h ≡ true) ⊎ (is_optional f ≡ true)) × IsComplete ps s

missing_sound :
    (ps : Parameters) (s : Slots ps) (res : Answer)
    → (handle_missing ps s res).0 ≡ true
    → IsComplete ps s × ((handle_missing ps s res).1 ≡ res)
unfolding handle_missing
missing_sound [] s res h = (tt, refl)
missing_sound ((k, f) ∷ ps) ((h, x), s) res e = ground (arith, missing_sound ps s res)

missing_complete :
    (ps : Parameters) (s : Slots ps) (res : Answer)
    → IsComplete ps s
    → handle_missing ps s res ≡ (true, res)
unfolding handle_missing
missing_complete [] s res c = refl
missing_complete ((k, f) ∷ ps) ((h, x), s) res (c, cs) =
    ground (arith, missing_complete ps s res cs)

module _ (lib : Library) (items : Assoc Value) where
  slot-Fetched :
      (f : Field) (o : Option Value) (x y : El f) (h : Bool)
      → Change lib f o (false, x) (h, y)
      → (h ≡ true) ⊎ (is_optional f ≡ true)
      → Fetched lib f o x y
  slot-Fetched f (some v) x y h (t, d) c = d
  slot-Fetched f none x y h e (inl t) = absurd (cc)
  slot-Fetched f none x y h e (inr o) = (o, cc)

  to-Reads :
      (ps : Parameters) (xs : Variables ps) (s : Slots ps)
      → Fills lib ps items (fresh ps xs) s
      → IsComplete ps s
      → Reads lib ps items xs (variables ps s)
  to-Reads [] xs s q c = tt
  to-Reads ((k, f) ∷ ps) (x, xs) ((h, y), s) (q, qs) (c, cs) =
      (slot-Fetched f (lookup k items) x y h q c, to-Reads ps xs s qs cs)

  slot-exists :
      (f : Field) (o : Option Value) (x y : El f)
      → Fetched lib f o x y
      → (h : Bool) × Change lib f o (false, x) (h, y) × ((h ≡ true) ⊎ (is_optional f ≡ true))
  slot-exists f (some v) x y d = (true, (refl, d), inl refl)
  slot-exists f none x y (o, e) = (false, (λ i. (false, e i)), inr o)

  from-Reads :
      (ps : Parameters) (xs ys : Variables ps)
      → Reads lib ps items xs ys
      → (s : Slots ps) × Fills lib ps items (fresh ps xs) s
        × IsComplete ps s
        × (variables ps s ≡ ys)
  from-Reads [] xs ys r = (tt, tt, tt, refl)
  from-Reads ((k, f) ∷ ps) (x, xs) (y, ys) (r, rs) =
      let (h, q, c) = slot-exists f (lookup k items) x y r in
      let (s, qs, cs, e) = from-Reads ps xs ys rs in (((h, y), s), (q, qs), (c, cs), λ i. (y, e i))

conclude-true :
    (ps : Parameters) (o : Outcome (Slots ps)) {ys : Variables ps} {r : Answer}
    → conclude ps o ≡ some (true, ys, r)
    → (s : Slots ps) × (res : Answer) × (o ≡ some (true, s, res))
      × ((handle_missing ps s res).0 ≡ true)
      × (ys ≡ variables ps s)
      × (r ≡ (handle_missing ps s res).1)
conclude-true ps none h = absurd (cc)
conclude-true ps (some (ok, s, res)) h =
    let (a, b) = and_split (handle_missing ps s res).0 ok (cc) in
    (s, res, ap (λ (t : Bool). some (t, s, res)) b, a, cc, cc)

module _ (lib : Library) (dump_body : Answer → Bytes) (ps : Parameters)
    (distinct : HasDistinctKeys ps) where
  -- For parameters and members whose keys are distinct: `readJson` on an object returns true with
  -- the variables at `ys` exactly when the object has a member, every member's key is that of a
  -- parameter, and each variable in `ys` is decoded from the value of its key, or kept where an
  -- optional parameter's key is absent. It then adds no message.
  pub read_json-Reads :
      (ms : Pairs) (xs ys : Variables ps) (res r : Answer)
      → HasDistinctKeys (entries ms)
      → (read_json lib dump_body ps (object ms) xs res ≡ some (true, ys, r)) ↔ (
          (is_empty (entries ms) ≡ false)
          × All (λ (kv : Bytes × Value). Known ps kv.0) (entries ms)
          × Reads lib ps (entries ms) xs ys
          × (r ≡ res))
  unfolding read_json
  read_json-Reads ms xs ys res r d = (sound, complete)
    where
      sound :
          read_json lib dump_body ps (object ms) xs res ≡ some (true, ys, r)
          → (is_empty (entries ms) ≡ false)
            × All (λ (kv : Bytes × Value). Known ps kv.0) (entries ms)
            × Reads lib ps (entries ms) xs ys
            × (r ≡ res)
      sound h = elim (Bool-cases (is_empty (entries ms))) [
        | inl e ↦ absurd (cc (sym (if_true _ _ _ e) ∙ h))
        | inr e ↦
            let (s, r1, e1, m, v, t) = conclude-true ps _ (sym (if_false _ _ _ e) ∙ h) in
            let (ks, fs, t1) =
              members_sound lib dump_body ps distinct (entries ms) _ s res r1 d e1 in
            let (c, t2) = missing_sound ps s r1 m in
            let reads = to-Reads lib (entries ms) ps xs s fs c in
            (e, ks, subst (Reads lib ps (entries ms) xs) (sym v) reads, t ∙ t2 ∙ t1)
      ]

      complete :
          (is_empty (entries ms) ≡ false)
            × All (λ (kv : Bytes × Value). Known ps kv.0) (entries ms)
            × Reads lib ps (entries ms) xs ys
            × (r ≡ res)
          → read_json lib dump_body ps (object ms) xs res ≡ some (true, ys, r)
      complete (e, ks, reads, t) =
          let (s, fs, c, v) = from-Reads lib (entries ms) ps xs ys reads in
          let loop = members_complete lib dump_body ps distinct (entries ms) _ s res d ks fs in
          let missing = missing_complete ps s res c in
          if_false _ _ _ e
          ∙ ap (conclude ps) loop
          ∙ (λ i. some ((missing i).0 && true, v i, (missing i).1))
          ∙ ap (λ (q : Answer). some (true, ys, q)) (sym t)
