-- ===== src/Router.antt =====
-- `Router::handle` of http/routing.h, on tries and rules that are set up. `perMethods` is a list, by
-- the numbers of `boost::beast::http::verb`. A rule's handlers, of requests and of upgrades, are
-- parameters: each gives the response, and whether it threw.
pub mod Answers
pub mod Missing
pub mod Upgrade
use bmcweb.Prelude.{
  ℕ, zero, suc, ◌/◌, ◌%◌, ◌^◌, Bool, true, false, not, Option, none, some, List, [], ◌∷◌, ◌++◌,
  Bytes, codes, length, get_elem?, is_empty, if◌then◌else◌, ◌==◌, leb, ltb,
}
use bmcweb.Privileges.{Privileges, no_privileges, get_user_privileges, check_privileges}
use bmcweb.Roles.{RoleMap, get_user_role}
use bmcweb.Http.{Request, Response, result, add_header, end}
use bmcweb.Routing.{RoutingParams, Trie, Parsers, find}

-- `BaseRule`
pub record Rule : Type 0 where
  pub methods_bitfield : ℕ
  pub privileges_set : List Privileges
  pub handler : Request → Response → RoutingParams → Response × Bool
  pub upgrade : Request → Response → Response × Bool

-- `rules` holds null pointers at 0 and 1.
pub record PerMethod : Type 0 where
  pub rules : List (Option Rule)
  pub trie : Trie

abbrev pub rule_special_redirect_slash : ℕ
rule_special_redirect_slash = 1

-- `methodsBitfield & (1U << method)`; a shift by the width of the word, which C++ leaves undefined,
-- is not one of these.
abbrev pub has_method : ℕ → ℕ → Bool
has_method bitfield method = bitfield / 2 ^ method % 2 == 1

-- Whether the address exists at any verb.
unfoldable pub exists_at_any : Parsers → List PerMethod → Bytes → Bool
exists_at_any parsers [] req_url = false
exists_at_any parsers (p ∷ per_methods) req_url =
    let others = exists_at_any parsers per_methods req_url in
    if ltb 0 (find parsers p.trie req_url).0 then true else others

unfoldable pub not_found : Parsers → List PerMethod → Request → Response → Response
not_found parsers per_methods req res =
    if exists_at_any parsers per_methods req.url then end (result 405 res) else end (result 404 res)

pub redirect_slash : Request → Response → Response
redirect_slash req res =
    if is_empty (req.header "Host")
    then end (add_header (codes "Location") (req.url ++ codes "/") (result 301 res))
    else end (
        add_header (codes "Location")
          ((if req.is_secure then codes "https://" else codes "http://")
            ++ req.header "Host"
            ++ req.url
            ++ codes "/")
          (result 301 res))

-- The privileges of the session's user; of a request without a session, none.
unfoldable pub user_privileges : RoleMap → Request → Privileges
user_privileges roles req = elim req.session [
  | none ↦ no_privileges
  | some session ↦ get_user_privileges (get_user_role session.username roles)
]

-- The call of the handler; what it throws becomes a 500.
unfoldable pub run_rule : Rule → Request → Response → RoutingParams → Response
run_rule rule req res params =
    let done = rule.handler req res params in if done.1 then end (result 500 done.0) else done.0

unfoldable pub guarded : RoleMap → Rule → Request → Response → RoutingParams → Response
unfolding run_rule
guarded roles rule req res params =
    if not (has_method rule.methods_bitfield req.method)
    then end (result 405 res)
    else if not (check_privileges rule.privileges_set (user_privileges roles req))
    then end (result 403 res)
    else run_rule rule req res params

-- What is done with the rule that was found; `none` where the source throws since the trie's index is
-- not that of a rule, or where it would follow a null pointer.
unfoldable pub dispatch :
    Parsers
    → RoleMap
    → List PerMethod
    → PerMethod
    → ℕ
    → RoutingParams
    → Request
    → Response
    → Option Response
unfolding not_found redirect_slash guarded
dispatch parsers roles per_methods per_method rule_index params req res =
    if rule_index == 0
    then some (not_found parsers per_methods req res)
    else if leb (length per_method.rules) rule_index
    then none
    else if rule_index == rule_special_redirect_slash
    then some (redirect_slash req res)
    else elim (get_elem? per_method.rules rule_index) [
      | none ↦ none
      | some none ↦ none
      | some (some rule) ↦ some (guarded roles rule req res params)
    ]

-- A method that is out of range is passed over: the response stays open.
unfoldable pub handle : Parsers → RoleMap → List PerMethod → Request → Response → Option Response
unfolding dispatch
handle parsers roles per_methods req res = elim (get_elem? per_methods req.method) [
  | none ↦ some res
  | some per_method ↦
      let found = find parsers per_method.trie req.url in
      dispatch parsers roles per_methods per_method found.0 found.1 req res
]
