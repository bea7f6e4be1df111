-- ===== src/Messages/Delivery.antt =====
-- A series of calls of message functions delivers each message once, in its place.
use bmcweb.Prelude.{
  ℕ, ◌≡◌, refl, sym, ap, ◌∙◌, Bool, true, false, Option, none, some, List, [], ◌∷◌, ◌++◌,
  append_assoc, append-nil, arith, Bytes, bytes_eq, bytes_eq_iff, Option-cases, if◌then◌else◌, inl,
  inr,
}
use bmcweb.Prelude.Assoc.{Assoc, lookup, lookup-emplace, lookup-assign}
use bmcweb.Messages.{MessageJson, Place, error, root, at, Emission}
use bmcweb.Messages.Added.{
  ErrorObject, Reply, message_annotation, add_message_to_error_json, add_message_to_json,
  add_message_to_json_root, emit, emit_all, in_error, key_of, goes_to, annotated, last_status,
  extend, add_at, set_result,
}

-- The array under the key, empty where there is none.
abbrev pub array_at : Bytes → Assoc (List MessageJson) → List MessageJson
array_at key m = elim (lookup key m) [ none ↦ [] | some ms ↦ ms ]

-- The error object after one message and then others.
extend-add :
    (o : Option ErrorObject) (m : MessageJson) (ms : List MessageJson)
    → extend (some (add_message_to_error_json m o)) ms ≡ extend o (m ∷ ms)
unfolding add_message_to_error_json
extend-add none m [] = refl
extend-add none m (n ∷ ms) = refl
extend-add (some e) m [] = refl
extend-add (some e) m (n ∷ ms) = ground (arith, append_assoc e.extended_info (m ∷ []) (n ∷ ms))

extend-none : (o : Option ErrorObject) → o ≡ extend o []
extend-none none = refl
extend-none (some e) = refl

array_at-add :
    (key k : Bytes) (m : MessageJson) (target : Assoc (List MessageJson))
    → array_at key (add_message_to_json k m target)
      ≡ (if bytes_eq k key then array_at key target ++ (m ∷ []) else array_at key target)
unfolding add_message_to_json
array_at-add key k m target = elim (Option-cases (lookup k target)) [
  | inl e ↦ ground (arith, bytes_eq_iff k key, lookup-emplace k key (m ∷ []) target)
  | inr (ms, e) ↦ ground (arith, bytes_eq_iff k key, lookup-assign k key (ms ++ (m ∷ [])) target)
]

emit-error :
    (res : Reply) (e : Emission) (es : List Emission)
    → extend (emit res e).error_object (in_error es) ≡ extend res.error_object (in_error (e ∷ es))
unfolding emit
emit-error res e es = ground (arith, extend-add res.error_object e.json (in_error es))

emit-result : (res : Reply) (e : Emission) → (emit res e).result ≡ last_status res.result (e ∷ [])
unfolding emit
emit-result res e = ground arith

push_one :
    (b : Bool) (m : MessageJson) (xs ms rest : List MessageJson)
    → xs ≡ (if b then ms ++ (m ∷ []) else ms)
    → xs ++ rest ≡ ms ++ (if b then m ∷ rest else rest)
push_one true m xs ms rest e =
    ap (λ (l : List MessageJson). l ++ rest) e ∙ append_assoc ms (m ∷ []) rest
push_one false m xs ms rest e = ap (λ (l : List MessageJson). l ++ rest) e

placed :
    (key : Bytes) (p : Place) (m : MessageJson) (res : Reply) (rest : List MessageJson)
    → array_at key (add_at p m res).annotations ++ rest
      ≡ array_at key res.annotations ++ (if goes_to key (key_of p) then m ∷ rest else rest)
unfolding add_message_to_json_root
placed key error m res rest = refl
placed key root m res rest =
    push_one (bytes_eq message_annotation key) m _ _ rest
      (array_at-add key message_annotation m res.annotations)
placed key (at path) m res rest =
    push_one (bytes_eq (path ++ message_annotation) key) m _ _ rest
      (array_at-add key (path ++ message_annotation) m res.annotations)

set_result-annotations :
    (st : Option ℕ) (res : Reply) → (set_result st res).annotations ≡ res.annotations
set_result-annotations none res = refl
set_result-annotations (some s) res = refl

emit-annotation :
    (key : Bytes) (res : Reply) (e : Emission) (es : List Emission)
    → array_at key (emit res e).annotations ++ annotated key es
      ≡ array_at key res.annotations ++ annotated key (e ∷ es)
unfolding emit
emit-annotation key res e es =
    placed key e.place e.json (set_result e.status res) (annotated key es)
    ∙ ap
        (λ (t : Assoc (List MessageJson)).
          array_at key t
          ++ (if goes_to key (key_of e.place) then e.json ∷ annotated key es else annotated key es))
        (set_result-annotations e.status res)

-- For any response and any calls of message functions: the member "error" lists after them the
-- messages for it in the order of the calls, and its code and text are those of its one message, or the
-- general ones where there are several; each array of annotations is extended by the messages for
-- its key in the order of the calls; the result is the last that was set.
pub emit_all_lem :
    (es : List Emission) (res : Reply)
    → ((emit_all res es).error_object ≡ extend res.error_object (in_error es))
      × ((key : Bytes)
          → array_at key (emit_all res es).annotations
            ≡ array_at key res.annotations ++ annotated key es)
      × ((emit_all res es).result ≡ last_status res.result es)
unfolding emit_all
emit_all_lem [] res = (extend-none res.error_object, λ key. sym (append-nil _), refl)
emit_all_lem (e ∷ es) res =
    let (a, b, c) = emit_all_lem es (emit res e) in
    (
      a ∙ emit-error res e es,
      λ key. b key ∙ emit-annotation key res e es,
      c ∙ ap (λ (s : ℕ). last_status s es) (emit-result res e),
    )
