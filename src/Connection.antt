-- ===== src/Connection.antt =====
-- `Connection` of http/http_connection.h: from a request that was read to the answer that is written,
-- with the middlewares of include/webserver_common.hpp. What the calls of libraries give is in
-- `Services`: nlohmann's dump, std::regex_replace, Beast's reasons, boost::iequals and the date.
pub mod Headers
pub mod Refusals
pub mod Lifecycle
use bmcweb.Prelude.{
  ℕ, Bool, true, false, not, ◌&&◌, Option, none, some, List, [], ◌∷◌, Bytes, codes, is_empty,
  if◌then◌else◌, ◌==◌, leb,
}
use bmcweb.Roles.{RoleMap}
use bmcweb.Http.{Request, Response, JsonMembers, prefers_html, result, add_header}
use bmcweb.Http.Html.{RegexReplace, pretty_print_json}
use bmcweb.Routing.{Parsers}
use bmcweb.TokenAuth.{Env, before_handle, after_handle}
use bmcweb.SecurityHeaders.{secure}
use bmcweb.Router
use bmcweb.Router.{PerMethod}
use bmcweb.Router.Upgrade.{handle_upgrade}
use bmcweb.Middlewares.{World, Middleware, middleware_call_helper, after_handlers_call_helper}

pub record Services : Type 0 where
  pub env : Env
  pub parsers : Parsers
  pub roles : RoleMap
  pub per_methods : List PerMethod
  -- `jsonValue.dump(indent, ' ', true)`
  pub dump : ℕ → JsonMembers → Bytes
  pub regex_replace : RegexReplace
  pub reason : ℕ → Bytes
  pub iequals : Bytes → Bytes → Bool
  pub server_name : Bytes
  pub cached_date : Bytes

abbrev pub security_headers : Middleware
security_headers = record {
  before_handle = λ w. w;
  after_handle = λ w. record w { res = secure w.res };
}

-- Its `beforeHandle` and `afterHandle` are empty.
abbrev pub persistent_data : Middleware
persistent_data = record { before_handle = λ w. w; after_handle = λ w. w }

abbrev pub token_authorization : Env → Middleware
token_authorization env = record {
  before_handle = λ w. record {
    req = (before_handle env w.req w.res w.store).0;
    res = (before_handle env w.req w.res w.store).1;
    store = (before_handle env w.req w.res w.store).2;
  };
  after_handle = λ w. record w { store = after_handle w.req w.store };
}

-- `CrowApp`
abbrev pub crow_app : Env → List Middleware
crow_app env = security_headers ∷ persistent_data ∷ token_authorization env ∷ []

abbrev pub fill_json : Services → Request → Response → Response
fill_json svc req res =
    if is_empty res.body && not (is_empty res.json_value)
    then (if prefers_html (svc.env.split (req.header "accept"))
        then pretty_print_json svc.regex_replace svc.dump res
        else add_header (codes "Content-Type") (codes "application/json")
            (record res { body = svc.dump 2 res.json_value }))
    else res

abbrev pub fill_reason : Services → Response → Response
fill_reason svc res =
    if leb 400 res.status && is_empty res.body
    then record res { body = svc.reason res.status }
    else res

abbrev pub drop_content : Response → Response
drop_content res = if res.status == 204 then record res { body = [] } else res

-- What `completeRequest` makes of the response before it is written.
unfoldable pub prepare : Services → Request → Response → Response
prepare svc req res =
    let filled = drop_content (fill_reason svc (fill_json svc req res)) in
    let stamped =
      add_header (codes "Date") svc.cached_date
        (add_header (codes "Server") svc.server_name filled) in
    record stamped { keep_alive = req.keep_alive }

-- What comes of a request: an answer is written; or the socket is closed by then, and nothing is; or
-- a handler keeps the response to end it later; or the router has the socket for a WebSocket; or it throws.
pub data Outcome : Type 0 where
  answered dropped waiting upgraded : World → Outcome
  thrown : Outcome

-- `completeRequest`: `need` is `needToCallAfterHandlers`, `is_alive` whether the socket is open.
unfoldable pub complete_request : Services → Bool → Bool → World → Outcome
complete_request svc need is_alive w =
    let left = if need then after_handlers_call_helper (crow_app svc.env) w else w in
    if is_alive
    then answered (record left { res = prepare svc left.req left.res })
    else dropped left

abbrev pub is_invalid_request : Request → Bool
is_invalid_request req = req.version == 11 && is_empty (req.header "Host")

abbrev pub wants_websocket : Services → Request → Bool
wants_websocket svc req = req.is_upgrade && svc.iequals (req.header "Upgrade") (codes "websocket")

-- The router's part of `handle`. A handler that has ended its response leaves it alone.
unfoldable pub route : Services → Bool → World → Outcome
route svc is_alive w =
    if wants_websocket svc w.req
    then elim (handle_upgrade svc.parsers svc.per_methods w.req w.res) [
      | none ↦ thrown
      | some res ↦ upgraded (record w { res = res })
    ]
    else elim (Router.handle svc.parsers svc.roles svc.per_methods w.req w.res) [
      | none ↦ thrown
      | some res ↦
          if res.completed
          then complete_request svc true is_alive (record w { res = res })
          else waiting (record w { res = res })
    ]

unfoldable pub handle : Services → Bool → World → Outcome
handle svc is_alive w =
    let entered = (middleware_call_helper (crow_app svc.env) w).0 in
    if is_invalid_request w.req
    then complete_request svc false is_alive (record w { res = result 400 w.res })
    else if entered.res.completed
    then complete_request svc false is_alive entered
    else route svc is_alive entered
