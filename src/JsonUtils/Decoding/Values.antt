-- ===== src/JsonUtils/Decoding/Values.antt =====
-- The parts of `unpackValue`: two calls in sequence, the test of the range, and the two loops.
use bmcweb.Prelude.{
  ℤ, ℕ, zero, suc, ◌^◌, ◌<◌, ◌≡◌, refl, sym, ap, subst, ◌∙◌, ◌↔◌, ◌≢◌, Bool, true, false, Option,
  none, some, List, [], ◌∷◌, ◌++◌, append_assoc, append-nil, arith, Bytes, length, if_false,
}
use bmcweb.JsonUtils.{Value, Library, Tuple, Answer, Outcome}
use bmcweb.JsonUtils.Unpack.{
  in_turn, conj, at_pointer, unpack_each, unpack_tuple, assign_checked, outside_signed,
  outside_unsigned, outside_floating,
}
use bmcweb.JsonUtils.Decoding.{FitsSigned, Pointwise, Elementwise}

-- What a successful sequence of two calls is made of.
conj-true :
    {B : Type 0} (ok : Bool) (o : Outcome B) {b : B} {res : Answer}
    → conj ok o ≡ some (true, b, res)
    → (ok ≡ true) × (o ≡ some (true, b, res))
conj-true ok none h = absurd (cc)
conj-true true (some (ret, b, r)) h = (refl, h)
conj-true false (some (ret, b, r)) h = absurd (cc)

pub in_turn-true :
    {A B : Type 0} (m : Outcome A) (k : A → Answer → Outcome B) {b : B} {res : Answer}
    → in_turn m k ≡ some (true, b, res)
    → (a : A) × (r : Answer) × (m ≡ some (true, a, r)) × (k a r ≡ some (true, b, res))
in_turn-true none k h = absurd (cc)
in_turn-true (some (ok, a, r)) k h =
    let (t, e) = conj-true ok (k a r) h in (a, r, ap (λ (b : Bool). some (b, a, r)) t, e)

pub true-in_turn :
    {A B : Type 0} (m : Outcome A) (k : A → Answer → Outcome B) {a : A} {r : Answer} {b : B}
    {res : Answer}
    → m ≡ some (true, a, r)
    → k a r ≡ some (true, b, res)
    → in_turn m k ≡ some (true, b, res)
true-in_turn m k {a} {r} h e = ap (λ o. in_turn o k) h ∙ ap (conj true) e

-- A call that succeeds after a test that fails otherwise has a pointer.
pub pointer-true :
    {A B : Type 0} (o : Option B) (failed : Outcome A) (go : B → Outcome A) {a : A} {res : Answer}
    → at_pointer o failed go ≡ some (true, a, res)
    → failed ≢ some (true, a, res)
    → (x : B) × (o ≡ some x) × (go x ≡ some (true, a, res))
pointer-true none failed go h n = absurd (n h)
pointer-true (some x) failed go h n = (x, refl, h)

pub pointer-some :
    {A B : Type 0} (failed : Outcome A) (go : B → Outcome A) {o : Option B} {x : B}
    {out : Outcome A}
    → o ≡ some x
    → go x ≡ out
    → at_pointer o failed go ≡ out
pointer-some failed go e g = ap (λ o. at_pointer o failed go) e ∙ g

-- The test of the range, and the assignment after it.
module _ {A : Type 0} (lib : Library) (v : Value) (key : Bytes) (old new : A) where
  pub checked-true :
      (outside : Bool) {a : A} {res r : Answer}
      → assign_checked lib outside v key old new res ≡ some (true, a, r)
      → (outside ≡ false) × (a ≡ new) × (r ≡ res)
  checked-true true h = absurd (cc)
  checked-true false h = (refl, cc, cc)

  pub true-checked :
      (outside : Bool) (res : Answer)
      → outside ≡ false
      → assign_checked lib outside v key old new res ≡ some (true, new, res)
  true-checked outside res h = if_false _ _ _ h

pub outside_signed_iff : (n : ℕ) (k : ℤ) → (outside_signed n k ≡ false) ↔ FitsSigned n k
outside_signed_iff n (ℤ.pos k) = ground arith
outside_signed_iff n (ℤ.negsuc k) = ground arith

pub outside_unsigned_iff : (n k : ℕ) → (outside_unsigned n k ≡ false) ↔ (k < 2 ^ n)
outside_unsigned_iff n k = ground arith

pub outside_floating_iff :
    (lib : Library) (x : ℕ)
    → (outside_floating lib x ≡ false)
      ↔ ((lib.above_max x ≡ false) × (lib.below_lowest x ≡ false) × (lib.is_nan x ≡ false))
outside_floating_iff lib x = ground arith

-- The loops, given what one call does.
module _ {A : Type 0} (unpack : Value → A → Answer → Outcome A) (R : Value → A → A → Type 0)
    (sound : (v : Value) (x y : A) (res r : Answer)
      → unpack v x res ≡ some (true, y, r)
      → R v x y × (r ≡ res)) where
  pub each_sound :
      (new : A) (vs : List Value) (old out : List A) (res r : Answer)
      → unpack_each unpack new vs old res ≡ some (true, out, r)
      → (xs : List A) × (out ≡ old ++ xs) × (r ≡ res) × Pointwise (λ w x. R w new x) vs xs
  unfolding unpack_each
  each_sound new [] old out res r h = ([], (cc) ∙ sym (append-nil old), cc, tt)
  each_sound new (v ∷ vs) old out res r h =
      let (x, r1, e1, e2) = in_turn-true (unpack v new res) _ h in
      let (q, s1) = sound v new x res r1 e1 in
      let (xs, s2, s3, qs) = each_sound new vs (old ++ (x ∷ [])) out r1 r e2 in
      (x ∷ xs, s2 ∙ append_assoc old (x ∷ []) xs, s3 ∙ s1, (q, qs))

  pub tuple_sound :
      (n : ℕ) (vs : List Value) (old out : Tuple n A) (res r : Answer)
      → length vs ≡ n
      → unpack_tuple unpack n vs old res ≡ some (true, out, r)
      → Elementwise R n vs old out × (r ≡ res)
  unfolding unpack_tuple
  tuple_sound zero [] old out res r e h = (tt, cc)
  tuple_sound zero (v ∷ vs) old out res r e h = absurd (cc)
  tuple_sound (suc n) [] old out res r e h = absurd (cc)
  tuple_sound (suc n) (v ∷ vs) (x, old) (z, out) res r e h =
      let (y, r1, e1, e2) = in_turn-true (unpack v x res) _ h in
      let (q, s1) = sound v x y res r1 e1 in
      let (ys, r2, e3, e4) = in_turn-true (unpack_tuple unpack n vs old r1) _ e2 in
      let (qs, s2) = tuple_sound n vs old ys r1 r2 (omega arith) e3 in
      let first : z ≡ y = cc in
      let others : out ≡ ys = cc in
      (
        (subst (λ t. R v x t) (sym first) q, subst (λ t. Elementwise R n vs old t) (sym others) qs),
        (cc) ∙ s2 ∙ s1,
      )

-- The same loops, on what the calls accept.
module _ {A : Type 0} (unpack : Value → A → Answer → Outcome A) (R : Value → A → A → Type 0)
    (complete : (v : Value) (x y : A) (res : Answer)
      → R v x y
      → unpack v x res ≡ some (true, y, res)) where
  pub each_complete :
      (new : A) (vs : List Value) (old xs : List A) (res : Answer)
      → Pointwise (λ w x. R w new x) vs xs
      → unpack_each unpack new vs old res ≡ some (true, old ++ xs, res)
  unfolding unpack_each
  each_complete new [] old [] res tt =
      ap (λ (l : List A). some (true, l, res)) (sym (append-nil old))
  each_complete new [] old (x ∷ xs) res h = absurd h
  each_complete new (v ∷ vs) old [] res h = absurd h
  each_complete new (v ∷ vs) old (x ∷ xs) res (q, qs) =
      true-in_turn (unpack v new res) _ (complete v new x res q) (
        each_complete new vs (old ++ (x ∷ [])) xs res qs
        ∙ ap (λ (l : List A). some (true, l, res)) (append_assoc old (x ∷ []) xs))

  pub tuple_complete :
      (n : ℕ) (vs : List Value) (old out : Tuple n A) (res : Answer)
      → Elementwise R n vs old out
      → (length vs ≡ n) × (unpack_tuple unpack n vs old res ≡ some (true, out, res))
  unfolding unpack_tuple
  tuple_complete zero [] old out res h = (refl, refl)
  tuple_complete zero (v ∷ vs) old out res h = absurd h
  tuple_complete (suc n) [] old out res h = absurd h
  tuple_complete (suc n) (v ∷ vs) (x, old) (y, out) res (q, qs) =
      let (e, rest) = tuple_complete n vs old out res qs in
      (
        ap suc e,
        true-in_turn (unpack v x res) _ (complete v x y res q) (true-in_turn _ _ rest refl),
      )
