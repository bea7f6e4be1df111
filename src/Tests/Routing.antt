-- ===== src/Tests/Routing.antt =====
-- Lookups in a small trie, and a router with one route for GET.
use bmcweb.Prelude.{
  ℕ, ◌≤◌, ◌≡◌, ◌≢◌, refl, ap, ◌⊎◌, inl, inr, false, ◌==◌, ==_iff, Bool-cases, none, some, List, [],
  ◌∷◌, codes, All, arith,
}
use bmcweb.Privileges.{no_privileges, is_superset_of, check_privileges}
use bmcweb.Http.{Request, fresh_response, result, end}
use bmcweb.Routing.{
  RoutingParams, no_params, blank_node, Trie, Number, Parsers, find, find_from, visits,
  number_visits, text_visits, child_visits, segment_length, update_all, push_string,
}
use bmcweb.Routing.Walks.{HasFragments}
use bmcweb.Routing.Least.{Matches, find_sound, find_least}
use bmcweb.Routing.Add.{
  added, already_exists, runs_on, add, add_from, finish, piece_step, param_step, next_param,
}
use bmcweb.Routing.Children.{IsClosed}
use bmcweb.Routing.Literal.{IsLiteral, find-add}
use bmcweb.Prelude.Assoc.{lookup}
use bmcweb.Router.{Rule, PerMethod, handle, dispatch, guarded, run_rule, user_privileges}
use bmcweb.Router.Answers.{IsAnswered, IsServed, handle_outcome}
use bmcweb.Router.Missing.{HasMatch, handle_unmatched}
use bmcweb.Tests.Data.{get_systems, no_headers}

abbrev no_number : Number
no_number = record { value = 0; consumed = 0; is_out_of_range = false }

abbrev pub no_numbers : Parsers
no_numbers = record { strtoll = λ s. no_number; strtoull = λ s. no_number; strtod = λ s. no_number }

-- `/x` is rule 2, and `/<str>` rule 3.
abbrev two_routes : Trie
two_routes =
    record blank_node { children = (codes "/", 1) ∷ [] }
    ∷ record blank_node { string_child = 2; children = (codes "x", 3) ∷ [] }
    ∷ record blank_node { rule_index = 3 }
    ∷ record blank_node { rule_index = 2 }
    ∷ []

two_routes-HasFragments : All HasFragments two_routes
two_routes-HasFragments = ((λ e. absurd (cc), tt), ((λ e. absurd (cc), tt), (tt, (tt, tt))))

literal_wins : find no_numbers two_routes (codes "/x") ≡ (2, no_params)
unfolding find find_from visits number_visits text_visits child_visits segment_length update_all
literal_wins = refl

parameter : find no_numbers two_routes (codes "/yz") ≡ (3, push_string (codes "yz") no_params)
unfolding find find_from visits number_visits text_visits child_visits segment_length update_all
parameter = refl

find_sound_example :
    Matches no_numbers two_routes
      (codes "/yz")
      (find no_numbers two_routes (codes "/yz")).0
      (find no_numbers two_routes (codes "/yz")).1
find_sound_example =
    find_sound no_numbers two_routes (codes "/yz") (λ e. cc (ap (λ r. r.0) parameter))

by_parameter : Matches no_numbers two_routes (codes "/x") 3 (push_string (codes "x") no_params)
unfolding visits number_visits text_visits child_visits segment_length
by_parameter = (2, (refl, (_, inl refl, (refl, (_, inl refl, (refl, refl, refl))))))

find_least_example :
    ((find no_numbers two_routes (codes "/x")).0 ≢ 0)
    × ((find no_numbers two_routes (codes "/x")).0 ≤ 3)
find_least_example =
    find_least no_numbers two_routes (codes "/x") 3 (push_string (codes "x") no_params)
      two_routes-HasFragments by_parameter (λ e. absurd (omega arith))

-- The route `/y` added as rule 4.
abbrev three_routes : Trie
three_routes =
    record blank_node { children = (codes "/", 1) ∷ [] }
    ∷ record blank_node { string_child = 2; children = (codes "x", 3) ∷ (codes "y", 4) ∷ [] }
    ∷ record blank_node { rule_index = 3 }
    ∷ record blank_node { rule_index = 2 }
    ∷ record blank_node { rule_index = 4 }
    ∷ []

add_y : add (codes "/y") 4 two_routes ≡ added three_routes
unfolding add add_from finish piece_step lookup
add_y = refl

-- A `<` that begins no parameter keeps the loop going.
add_unknown : add (codes "/<uuid>") 4 two_routes ≡ runs_on
unfolding add add_from finish piece_step param_step next_param lookup
add_unknown = refl

add_again : add (codes "/<str>") 4 two_routes ≡ already_exists
unfolding add add_from finish piece_step param_step next_param lookup
add_again = refl

slash_y-IsLiteral : IsLiteral (codes "/y")
slash_y-IsLiteral = (λ e. absurd (omega arith), (λ e. absurd (omega arith), tt))

two_routes-IsClosed : IsClosed two_routes
two_routes-IsClosed = ((omega arith, tt), ((omega arith, tt), (tt, (tt, tt))))

find-add_example :
    ((find no_numbers three_routes (codes "/y")).0 ≢ 0)
    × ((find no_numbers three_routes (codes "/y")).0 ≤ 4)
find-add_example =
    find-add no_numbers (codes "/y") 4 two_routes three_routes slash_y-IsLiteral two_routes-IsClosed
      (omega arith) two_routes-HasFragments (λ e. absurd (omega arith)) add_y

-- A rule whose handler answers 200.
abbrev greeting : Rule
greeting = record {
  methods_bitfield = 4;
  privileges_set = no_privileges ∷ [];
  handler = λ req res params. (end (result 200 res), false);
  upgrade = λ req res. (end (result 404 res), false);
}

abbrev for_get : PerMethod
for_get = record { rules = none ∷ none ∷ some greeting ∷ some greeting ∷ []; trie = two_routes }

abbrev for_none : PerMethod
for_none = record { rules = none ∷ none ∷ []; trie = blank_node ∷ [] }

abbrev pub by_verb : List PerMethod
by_verb = for_none ∷ for_none ∷ for_get ∷ for_none ∷ for_none ∷ []

abbrev pub get_x : Request
get_x = record (get_systems no_headers) { url = codes "/x" }

abbrev post_x : Request
post_x = record get_x { method = 4 }

pub served :
    handle no_numbers [] by_verb get_x fresh_response ≡ some (end (result 200 fresh_response))
unfolding handle dispatch guarded run_rule user_privileges check_privileges is_superset_of
served = rw literal_wins refl

handle_outcome_example :
    IsAnswered (end (result 200 fresh_response))
    ⊎ IsServed no_numbers [] for_get get_x fresh_response (end (result 200 fresh_response))
handle_outcome_example =
    handle_outcome no_numbers [] by_verb for_get get_x fresh_response
      (end (result 200 fresh_response)) refl refl served

nothing : find no_numbers (blank_node ∷ []) (codes "/x") ≡ (0, no_params)
unfolding find find_from visits number_visits text_visits child_visits segment_length update_all
nothing = refl

no_match :
    (i : ℕ) (out : RoutingParams) → Matches no_numbers (blank_node ∷ []) (codes "/x") i out → i ≡ 0
no_match i out m = elim (Bool-cases (i == 0)) [
  | inl e ↦ (==_iff i 0).0 e
  | inr e ↦ absurd (
      (find_least no_numbers (blank_node ∷ []) (codes "/x") i out (tt, tt) m (λ z. ground arith)).0
        (ap (λ r. r.0) nothing))
]

handle_unmatched_example :
    (HasMatch no_numbers by_verb (codes "/x")
      × (handle no_numbers [] by_verb post_x fresh_response
          ≡ some (end (result 405 fresh_response))))
    ⊎ ((¬ HasMatch no_numbers by_verb (codes "/x"))
        × (handle no_numbers [] by_verb post_x fresh_response
            ≡ some (end (result 404 fresh_response))))
handle_unmatched_example =
    handle_unmatched no_numbers [] by_verb for_none post_x fresh_response
      ((tt, tt), ((tt, tt), (two_routes-HasFragments, ((tt, tt), ((tt, tt), tt))))) refl no_match
