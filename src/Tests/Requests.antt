-- ===== src/Tests/Requests.antt =====
-- Tests and instances for reading a request's JSON.
use bmcweb.Prelude.{
  ℤ, pos, negsuc, ℕ, ◌-◌, ◌≡◌, refl, ◌↔◌, true, false, Option, none, some, [], ◌∷◌, ◌++◌, Bytes,
  codes, is_empty, ltb, if◌then◌else◌, arith, All,
}
use bmcweb.Prelude.Assoc.{HasDistinctKeys}
use bmcweb.Messages.RequestsB.{property_missing, property_unknown}
use bmcweb.JsonUtils.{
  Values, NumberKind, Value, number, object, Pairs, member, no_more, entries, Library, Field,
  optional, vector, Answer,
}
use bmcweb.Messages.Added
use bmcweb.Messages.Added.{emit_all}
use bmcweb.JsonUtils.Unpack.{unpack_value, unpack_each}
use bmcweb.JsonUtils.Read.{
  Parameters, Variables, read_json, read_members, read_json_values, handle_missing,
}
use bmcweb.JsonUtils.Decoding.{Decodes}
use bmcweb.JsonUtils.Decoding.Exact.{unpack_value-Decodes}
use bmcweb.JsonUtils.Objects.{Known, Reads}
use bmcweb.JsonUtils.Objects.Whole.{read_json-Reads}
use bmcweb.JsonUtils.Reporting.Requests.{read_json_answer}

abbrev two_63 : ℕ
two_63 = 9223372036854775808

-- The stored word, as an `int64_t`.
abbrev int64_of : Value → Option ℤ
int64_of (number NumberKind.floating w) = none
int64_of (number _ w) = some (if ltb w two_63 then pos w else negsuc (18446744073709551615 - w))
int64_of _ = none

abbrev uint64_of : Value → Option ℕ
uint64_of (number NumberKind.unsigned w) = some w
uint64_of _ = none

abbrev double_of : Value → Option ℕ
double_of (number NumberKind.floating w) = some w
double_of _ = none

abbrev library : Library
library = record {
  get_int64 = int64_of;
  get_uint64 = uint64_of;
  get_double = double_of;
  dump = λ _. [];
  to_double = λ _. 0;
  above_max = λ _. false;
  below_lowest = λ _. false;
  is_nan = λ _. false;
}

abbrev body : Answer → Bytes
body res = []

-- `std::optional<std::string> name; std::vector<uint8_t> levels;`
abbrev parameters : Parameters
parameters = (codes "Name", optional Field.text) ∷ (codes "Levels", vector (Field.unsigned 8)) ∷ []

abbrev levels : Value
levels = Value.array (Values.item (number NumberKind.unsigned 7) Values.nil)

abbrev request : Pairs
request = member (codes "Levels") levels no_more

abbrev before : Variables parameters
before = (none, ([], tt))

abbrev after : Variables parameters
after = (none, (7 ∷ [], tt))

read_request_test :
    read_json library body parameters (object request) before [] ≡ some (true, after, [])
unfolding read_json read_members read_json_values unpack_value unpack_each handle_missing
read_request_test = refl

unpack_value-Decodes_example :
    (unpack_value library body (vector (Field.unsigned 8)) (codes "Levels") levels [] []
      ≡ some (true, 7 ∷ [], []))
    ↔ (Decodes library (vector (Field.unsigned 8)) levels [] (7 ∷ []) × (◌≡◌ {A = Answer} [] []))
unpack_value-Decodes_example =
    unpack_value-Decodes library body (vector (Field.unsigned 8)) (codes "Levels") levels []
      (7 ∷ []) [] []

distinct : HasDistinctKeys parameters
distinct = ground arith

read_json-Reads_example :
    (read_json library body parameters (object request) before [] ≡ some (true, after, [])) ↔ (
      (is_empty (entries request) ≡ false)
      × All (λ (kv : Bytes × Value). Known parameters kv.0) (entries request)
      × Reads library parameters (entries request) before after
      × (◌≡◌ {A = Answer} [] []))
read_json-Reads_example =
    read_json-Reads library body parameters distinct request before after [] [] (tt, tt)

abbrev names : Parameters
names = (codes "Name", Field.text) ∷ []

read_json_answer_example :
    (ys : Variables names) × (added : Answer) × (read_json library body names
        (object request)
        ([], tt)
        []
      ≡ some (is_empty added, ys, [] ++ added))
    × ((client : Added.Reply)
        → (emit_all client added).result ≡ (if is_empty added then client.result else 400))
read_json_answer_example = read_json_answer library body names (object request) ([], tt) [] (tt, tt)

-- An unknown key and a missing one.
read_names_test :
    read_json library body names (object request) ([], tt) []
    ≡ some
        (false, ([], tt), property_unknown (codes "Levels") ∷ property_missing (codes "Name") ∷ [])
unfolding read_json read_members read_json_values handle_missing
read_names_test = refl
