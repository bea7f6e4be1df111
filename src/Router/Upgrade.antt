-- ===== src/Router/Upgrade.antt =====
-- `Router::handleUpgrade` of http/routing.h: the requests that ask for a WebSocket.
use bmcweb.Prelude.{
  ℕ, not, Option, none, some, ◌++◌, Bytes, List, codes, length, get_elem?, is_empty, if◌then◌else◌,
  ◌==◌, leb,
}
use bmcweb.Http.{Request, Response, result, add_header, end}
use bmcweb.Routing.{Parsers, find}
use bmcweb.Router.{Rule, PerMethod, rule_special_redirect_slash, has_method}

-- Without the parentheses that `Router::handle` has: of a secure request the scheme alone is left.
abbrev pub upgrade_location : Request → Bytes
upgrade_location req =
    if req.is_secure
    then codes "https://"
    else codes "http://" ++ req.header "Host" ++ req.url ++ codes "/"

pub redirect_upgrade : Request → Response → Response
redirect_upgrade req res =
    if is_empty (req.header "Host")
    then end (add_header (codes "Location") (req.url ++ codes "/") (result 301 res))
    else end (add_header (codes "Location") (upgrade_location req) (result 301 res))

unfoldable pub run_upgrade : Rule → Request → Response → Response
run_upgrade rule req res =
    if not (has_method rule.methods_bitfield req.method)
    then end (result 404 res)
    else let done = rule.upgrade req res in if done.1 then end (result 500 done.0) else done.0

-- `none` where the source throws or would follow a null pointer.
unfoldable pub dispatch_upgrade : PerMethod → ℕ → Request → Response → Option Response
unfolding run_upgrade
dispatch_upgrade per_method rule_index req res =
    if rule_index == 0
    then some (end (result 404 res))
    else if leb (length per_method.rules) rule_index
    then none
    else if rule_index == rule_special_redirect_slash
    then some (redirect_upgrade req res)
    else elim (get_elem? per_method.rules rule_index) [
      | none ↦ none
      | some none ↦ none
      | some (some rule) ↦ some (run_upgrade rule req res)
    ]

unfoldable pub handle_upgrade : Parsers → List PerMethod → Request → Response → Option Response
unfolding dispatch_upgrade
handle_upgrade parsers per_methods req res = elim (get_elem? per_methods req.method) [
  | none ↦ some res
  | some per_method ↦ dispatch_upgrade per_method (find parsers per_method.trie req.url).0 req res
]
