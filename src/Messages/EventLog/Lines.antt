-- ===== src/Messages/EventLog/Lines.antt =====
-- What a line of the log becomes.
use bmcweb.Prelude.{
  ℕ, ◌≡◌, refl, sym, ap, ◌∙◌, ◌≢◌, false, some, List, [], ◌∷◌, ◌++◌, append_assoc, arith, Bytes,
  length, drop, find_text, ltb, ◌==◌, if_false, All, All-append, is_empty, length-append,
}
use bmcweb.Messages.{Message}
use bmcweb.Messages.Registry.{base_prefix, base_registry, get_message_from_registry}
use bmcweb.Messages.Conformance.{substitute}
use bmcweb.Messages.Filling.{IsPercentFree, take-length}
use bmcweb.Messages.Events.{fill-substitute}
use bmcweb.Messages.EventLog.{
  Sources, found, message_of_fields, entry_at, get_message, after_spaces, without_fraction,
  erase_fraction, arguments, entry_of, entry_of_fields, entry_of_rest, fill_event_log_entry_json,
}

-- The byte does not stand in the text.
abbrev pub IsFreeOf : ℕ → Bytes → Type 0
IsFreeOf b s = All (λ (c : ℕ). c ≢ b) s

find_text-prefix :
    (b : ℕ) (p s : Bytes) → IsFreeOf b p → find_text (p ++ (b ∷ s)) (b ∷ []) ≡ some (length p)
find_text-prefix b [] s h = ground arith
find_text-prefix b (c ∷ p) s (n, h) = ground (arith, find_text-prefix b p s h)

drop-length_self : (p s : Bytes) → drop (length p) (p ++ s) ≡ s
drop-length_self [] s = refl
drop-length_self (c ∷ p) s = drop-length_self p s

-- The fraction of the seconds is taken out.
without_fraction_lem :
    (time fraction zone : Bytes)
    → IsFreeOf 46 time
    → IsFreeOf 43 time
    → IsFreeOf 43 fraction
    → without_fraction (time ++ (46 ∷ (fraction ++ (43 ∷ zone)))) ≡ time ++ (43 ∷ zone)
unfolding without_fraction
without_fraction_lem time fraction zone d p f =
    let t = time ++ (46 ∷ (fraction ++ (43 ∷ zone))) in
    let before = time ++ (46 ∷ fraction) in
    let same : before ++ (43 ∷ zone) ≡ t = append_assoc time (46 ∷ fraction) (43 ∷ zone) in
    let free : IsFreeOf 43 before =
      All-append (λ (c : ℕ). c ≢ 43) time (46 ∷ fraction) p (omega arith, f) in
    let dot = find_text-prefix 46 time (fraction ++ (43 ∷ zone)) d in
    let plus : find_text t (43 ∷ []) ≡ some (length before) =
      ap (λ (s : Bytes). find_text s (43 ∷ [])) (sym same) ∙ find_text-prefix 43 before zone free in
    let rest : drop (length before) t ≡ 43 ∷ zone =
      ap (λ (s : Bytes). drop (length before) s) (sym same) ∙ drop-length_self before (43 ∷ zone) in
    (λ i. erase_fraction (dot i) (plus i) t)
    ∙ if_false (ltb (length before) (length time)) _ _
        (ground (arith, length-append time (46 ∷ fraction)))
    ∙ (λ i. take-length time (46 ∷ (fraction ++ (43 ∷ zone))) i ++ rest i)

get_message-base :
    (src : Sources) (id major minor key : Bytes) {m : Message}
    → src.split_dots id ≡ base_prefix ∷ major ∷ minor ∷ key ∷ []
    → get_message_from_registry key base_registry ≡ some m
    → get_message src id ≡ found (some m)
unfolding get_message
get_message-base src id major minor key e h = ap (message_of_fields src) e ∙ ap found h

after_one_space : (c : ℕ) (rest : Bytes) → c ≢ 32 → after_spaces (32 ∷ c ∷ rest) ≡ some (c ∷ rest)
after_one_space c rest h = if_false (c == 32) _ _ (ground arith)

arguments-filled :
    (args : List Bytes) → All (λ (a : Bytes). is_empty a ≡ false) args → arguments args ≡ args
arguments-filled [] h = refl
arguments-filled (a ∷ args) (e, h) = if_false _ _ _ e

-- For a line of a timestamp with a fraction of a second and no space, one space and an entry that
-- splits into the identifier of a message of the base registry and as many arguments as that has,
-- none empty or with a percent sign: the entry of the event log has the message's text with the
-- placeholders replaced, its severity, the arguments, and the timestamp without the fraction.
pub fill_event_log_entry_json_lem :
    (src : Sources) (id time fraction zone message_id major minor key rest : Bytes) (c : ℕ)
    (args : List Bytes) (m : Message)
    → IsFreeOf 32 (time ++ (46 ∷ (fraction ++ (43 ∷ zone))))
    → IsFreeOf 46 time
    → IsFreeOf 43 time
    → IsFreeOf 43 fraction
    → c ≢ 32
    → src.split_commas (c ∷ rest) ≡ message_id ∷ args
    → All (λ (a : Bytes). is_empty a ≡ false) args
    → src.split_dots message_id ≡ base_prefix ∷ major ∷ minor ∷ key ∷ []
    → get_message_from_registry key base_registry ≡ some m
    → length args ≡ m.number_of_args
    → All IsPercentFree args
    → fill_event_log_entry_json src id
        ((time ++ (46 ∷ (fraction ++ (43 ∷ zone)))) ++ (32 ∷ c ∷ rest))
      ≡ found (
          some (record {
            id = id;
            message = substitute args m.message;
            message_id = message_id;
            message_args = args;
            severity = m.severity;
            created = time ++ (43 ∷ zone);
          }))
unfolding fill_event_log_entry_json
fill_event_log_entry_json_lem src id time fraction zone message_id major minor key rest c args m
      stamp_free d p f c32 commas filled dots entry count percent =
    let stamp = time ++ (46 ∷ (fraction ++ (43 ∷ zone))) in
    let line = stamp ++ (32 ∷ c ∷ rest) in
    let space = find_text-prefix 32 stamp (c ∷ rest) stamp_free in
    let fields = arguments-filled args filled in
    let message = get_message-base src message_id major minor key dots entry in
    let text = fill-substitute key m args entry count percent in
    let created = without_fraction_lem time fraction zone d p f in
    ap (entry_at src id line) space
    ∙ (λ i.
        entry_of_rest src id (take-length stamp (32 ∷ c ∷ rest) i)
          (after_spaces (drop-length_self stamp (32 ∷ c ∷ rest) i)))
    ∙ ap (entry_of_rest src id stamp) (after_one_space c rest c32)
    ∙ ap (entry_of_fields src id stamp) commas
    ∙ (λ i. entry_of id stamp message_id (fields i) (message i))
    ∙ (λ i. found (
        some (record {
          id = id;
          message = text i;
          message_id = message_id;
          message_args = args;
          severity = m.severity;
          created = created i;
        })))
