-- ===== src/JsonUtils/Reporting/Requests.antt =====
-- When `readJson` returns, and when it tells the client what is wrong.
use bmcweb.Prelude.{
  ℕ, ◌≡◌, refl, sym, ap, ◌∙◌, inl, inr, Bool, true, false, not, ◌&&◌, if◌then◌else◌, Bool-cases,
  if_false, Option, none, some, [], ◌∷◌, ◌++◌, append_assoc, append-nil, arith, Bytes, is_empty,
  if_true, All, All-append,
}
use bmcweb.Messages.RequestsA.{unrecognized_request_body}
use bmcweb.Messages.RequestsB.{property_missing, empty_json}
use bmcweb.JsonUtils.{Value, object, entries, Library, Field, is_optional, Answer, Outcome}
use bmcweb.JsonUtils.Unpack.{as_double, at_pointer}
use bmcweb.JsonUtils.Read.{
  Parameters, Slots, Variables, fresh, variables, handle_missing, conclude, read_json,
}
use bmcweb.Messages.{Emission}
use bmcweb.Messages.Added
use bmcweb.Messages.Added.{emit_all, last_status}
use bmcweb.Messages.Delivery.{emit_all_lem}
use bmcweb.JsonUtils.Reporting.{
  Reports, AreBadRequests, IsNumberFree, is_empty-append_flip, refused-Reports, if-Reports,
  members-Reports,
}

pointer-none :
    {A B : Type 0} (failed : Outcome A) (go : B → Outcome A) {o : Option B}
    → o ≡ none
    → at_pointer o failed go ≡ failed
pointer-none failed go e = ap (λ o. at_pointer o failed go) e

as_double-none :
    (lib : Library) (v : Value)
    → lib.get_int64 v ≡ none
    → lib.get_double v ≡ none
    → as_double lib v ≡ none
as_double-none lib v h h' = ground arith

-- What `handleMissing` adds; it returns true exactly when that is nothing.
missing-Reports :
    (ps : Parameters) (s : Slots ps) (res : Answer)
    → (added : Answer) × (handle_missing ps s res ≡ (is_empty added, res ++ added))
      × AreBadRequests added
unfolding handle_missing property_missing
missing-Reports [] s res = ([], λ i. (true, sym (append-nil res) i), tt)
missing-Reports ((k, f) ∷ ps) ((bit, x), s) res =
    let (ms, e, b) = missing-Reports ps s res in
    let (ms', e', b') = missing-Reports ps s (res ++ (property_missing k ∷ [])) in
    elim (Bool-cases (not bit && not (is_optional f))) [
      | inl q ↦ (
        property_missing k ∷ ms',
        if_true _ _ _ q ∙ (λ i. (
          false,
          (ap (λ (t : Bool × Answer). t.1) e' ∙ append_assoc res (property_missing k ∷ []) ms') i,
        )),
        (refl, b'),
      )
      | inr q ↦ (ms, if_false _ _ _ q ∙ e, b)
    ]

last-bad :
    (s : ℕ) (added : Answer)
    → AreBadRequests added
    → last_status s added ≡ (if is_empty added then s else 400)
last-bad s [] b = refl
last-bad s (e ∷ []) (b, _) = ap (λ (o : Option ℕ). elim o [ none ↦ s | some t ↦ t ]) b
last-bad s (e ∷ f ∷ es) (b, bs) = last-bad _ (f ∷ es) bs

module _ (lib : Library) (dump_body : Answer → Bytes) where
  read-Reports :
      (ps : Parameters) (j : Value) (xs : Variables ps) (res : Answer)
      → All (λ (p : Bytes × Field). IsNumberFree p.1) ps
      → Reports (read_json lib dump_body ps j xs res) res
  unfolding read_json empty_json unrecognized_request_body
  read-Reports ps (object ms) xs res h =
      if-Reports (is_empty (entries ms)) _ _ res (refused-Reports empty_json xs res refl) (
        let (s, m1, e, b) = members-Reports lib dump_body ps (entries ms) (fresh ps xs) res h in
        let (m2, e', b') = missing-Reports ps s (res ++ m1) in
        (
          variables ps s,
          m1 ++ m2,
          ap (conclude ps) e
              ∙ (λ i. some ((e' i).0 && is_empty m1, variables ps s, (e' i).1))
              ∙ (λ i.
                  some
                    (sym (is_empty-append_flip m1 m2) i, variables ps s, append_assoc res m1 m2 i)),
          All-append (λ (e : Emission). e.status ≡ some 400) m1 m2 b b',
        ))
  read-Reports ps _ xs res h = refused-Reports unrecognized_request_body xs res refl

  -- For parameters without numbers, any request and any response: `readJson` returns; the messages
  -- that were there stay, and it returns true exactly when it adds none. A response to which those
  -- that it adds are written has the result 400, and the result it had where there are none.
  pub read_json_answer :
      (ps : Parameters) (j : Value) (xs : Variables ps) (res : Answer)
      → All (λ (p : Bytes × Field). IsNumberFree p.1) ps
      → (ys : Variables ps) × (added : Answer) × (read_json lib dump_body ps j xs res
          ≡ some (is_empty added, ys, res ++ added))
        × ((client : Added.Reply)
            → (emit_all client added).result ≡ (if is_empty added then client.result else 400))
  read_json_answer ps j xs res h =
      let (ys, added, e, b) = read-Reports ps j xs res h in
      (ys, added, e, λ client. (emit_all_lem added client).2 ∙ last-bad client.result added b)
