-- ===== src/Routing.antt =====
-- `Trie` of http/routing.h, as far as addresses are looked up in it. An address is followed by what
-- is left of it, `req_url.substr(pos)`, in the place of the position. The parsers of numbers,
-- strtoll, strtoull and strtod, are parameters: on the characters from the position on they give
-- the number's word of 64 bits, how many characters it took, and whether errno is ERANGE.
pub mod Walks
pub mod Least
pub mod Add
pub mod Growth
pub mod Children
pub mod Literal
pub mod Edges
pub mod Optimize
pub mod Singles
pub mod Forward
pub mod Built
use bmcweb.Prelude.{
  ℕ, zero, suc, Bool, true, false, ◌&&◌, ◌||◌, not, none, some, List, [], ◌∷◌, ◌++◌, map, Bytes,
  codes, starts_with, find_text, take, drop, length, get_or, is_empty, if◌then◌else◌, ◌==◌, leb,
  ltb,
}
use bmcweb.Prelude.Assoc.{Assoc}

pub record RoutingParams : Type 0 where
  pub int_params : List ℕ
  pub uint_params : List ℕ
  pub double_params : List ℕ
  pub string_params : List Bytes

abbrev pub no_params : RoutingParams
no_params = record { int_params = []; uint_params = []; double_params = []; string_params = [] }

-- A node; of `paramChildrens` one field for each `ParamType`, 0 where there is no child. The
-- fragments of the children are in the order of the map.
pub record Node : Type 0 where
  pub rule_index : ℕ
  pub int_child : ℕ
  pub uint_child : ℕ
  pub double_child : ℕ
  pub string_child : ℕ
  pub path_child : ℕ
  pub children : Assoc ℕ

abbrev pub blank_node : Node
blank_node = record {
  rule_index = 0;
  int_child = 0;
  uint_child = 0;
  double_child = 0;
  string_child = 0;
  path_child = 0;
  children = [];
}

-- `nodes`; the head is the first.
abbrev pub Trie : Type 0
Trie = List Node

-- `nodes[i]`, which the source reads at indices in range only
abbrev pub node_at : Trie → ℕ → Node
node_at nodes i = get_or nodes i blank_node

pub record Number : Type 0 where
  pub value : ℕ
  pub consumed : ℕ
  pub is_out_of_range : Bool

pub record Parsers : Type 0 where
  pub strtoll : Bytes → Number
  pub strtoull : Bytes → Number
  pub strtod : Bytes → Number

-- The arguments of a call of `find`.
pub record Visit : Type 0 where
  pub node : Node
  pub rest : Bytes
  pub params : RoutingParams

abbrev pub is_digit : ℕ → Bool
is_digit c = leb b'0' c && leb c b'9'

abbrev pub push_int : ℕ → RoutingParams → RoutingParams
push_int value params = record params { int_params = params.int_params ++ value ∷ [] }

abbrev pub push_uint : ℕ → RoutingParams → RoutingParams
push_uint value params = record params { uint_params = params.uint_params ++ value ∷ [] }

abbrev pub push_double : ℕ → RoutingParams → RoutingParams
push_double value params = record params { double_params = params.double_params ++ value ∷ [] }

abbrev pub push_string : Bytes → RoutingParams → RoutingParams
push_string value params = record params { string_params = params.string_params ++ value ∷ [] }

-- The call of `find` for a number: there is such a child, the first character may begin the number
-- (`may_begin`), and the parser takes some characters and stays in range.
unfoldable pub number_visits :
    Trie → ℕ → Bool → Number → (ℕ → RoutingParams → RoutingParams) → Visit → List Visit
number_visits nodes child may_begin number push v =
    if not (child == 0) && may_begin && not number.is_out_of_range && not (number.consumed == 0)
    then record {
      node = node_at nodes child;
      rest = drop number.consumed v.rest;
      params = push number.value v.params;
    }
      ∷ []
    else []

-- The call for a text of `n` characters, where there are any.
unfoldable pub text_visits : Trie → ℕ → ℕ → Visit → List Visit
text_visits nodes child n v =
    if not (child == 0) && not (n == 0)
    then record {
      node = node_at nodes child;
      rest = drop n v.rest;
      params = push_string (take n v.rest) v.params;
    }
      ∷ []
    else []

-- How many characters stand before the next slash.
unfoldable pub segment_length : Bytes → ℕ
segment_length rest = elim (find_text rest (codes "/")) [ none ↦ length rest | some epos ↦ epos ]

-- The calls for the children whose fragment comes next.
unfoldable pub child_visits : Trie → Assoc ℕ → Visit → List Visit
child_visits nodes [] v = []
child_visits nodes ((fragment, i) ∷ children) v =
    let others = child_visits nodes children v in
    if starts_with v.rest fragment
    then record { node = node_at nodes i; rest = drop (length fragment) v.rest; params = v.params }
      ∷ others
    else others

-- The calls that `find` makes of itself, in their order, where some of the address is left: for
-- each kind of parameter, and for the fragments.
abbrev pub int_visits : Parsers → Trie → Visit → List Visit
int_visits parsers nodes v =
    let c = get_or v.rest 0 0 in
    number_visits nodes v.node.int_child (is_digit c || c == b'+' || c == b'-')
      (parsers.strtoll v.rest) push_int v

abbrev pub uint_visits : Parsers → Trie → Visit → List Visit
uint_visits parsers nodes v =
    let c = get_or v.rest 0 0 in
    number_visits nodes v.node.uint_child (is_digit c || c == b'+') (parsers.strtoull v.rest)
      push_uint v

abbrev pub double_visits : Parsers → Trie → Visit → List Visit
double_visits parsers nodes v =
    let c = get_or v.rest 0 0 in
    number_visits nodes v.node.double_child (is_digit c || c == b'+' || c == b'-' || c == b'.')
      (parsers.strtod v.rest) push_double v

abbrev pub string_visits : Trie → Visit → List Visit
string_visits nodes v = text_visits nodes v.node.string_child (segment_length v.rest) v

abbrev pub path_visits : Trie → Visit → List Visit
path_visits nodes v = text_visits nodes v.node.path_child (length v.rest) v

unfoldable pub visits : Parsers → Trie → Visit → List Visit
visits parsers nodes v =
    int_visits parsers nodes v
    ++ uint_visits parsers nodes v
    ++ double_visits parsers nodes v
    ++ string_visits nodes v
    ++ path_visits nodes v
    ++ child_visits nodes v.node.children v

abbrev pub Found : Type 0
Found = ℕ × RoutingParams

-- `updateFound`: the least index wins, and the first of equal ones.
abbrev pub update_found : Found → Found → Found
update_found found ret =
    if not (ret.0 == 0) && (found.0 == 0 || ltb ret.0 found.0) then ret else found

unfoldable pub update_all : Found → List Found → Found
update_all found [] = found
update_all found (ret ∷ rets) = update_all (update_found found ret) rets

-- `find`, on as many nested calls as there is fuel.
unfoldable pub find_from : Parsers → Trie → ℕ → Visit → Found
find_from parsers nodes zero v = (0, no_params)
find_from parsers nodes (suc fuel) v =
    if is_empty v.rest
    then (v.node.rule_index, v.params)
    else update_all (0, no_params) (map (find_from parsers nodes fuel) (visits parsers nodes v))

abbrev pub first_visit : Trie → Bytes → Visit
first_visit nodes req_url = record { node = node_at nodes 0; rest = req_url; params = no_params }

-- Each call has less of the address left, so one more than its length is enough.
unfoldable pub find : Parsers → Trie → Bytes → Found
unfolding find_from
find parsers nodes req_url =
    find_from parsers nodes (suc (length req_url)) (first_visit nodes req_url)
