-- ===== src/Tests/Connections.antt =====
-- The chain of middlewares, the answers and the life of a connection at small inputs.
use bmcweb.Prelude.{◌≡◌, ◌⊎◌, refl, true, false, none, [], ◌∷◌, Bytes, codes, All}
use bmcweb.Http.{fresh_response, result, end}
use bmcweb.Http.Html.{escape_html, escape_char}
use bmcweb.Http.Escape.{IsText, read_from, escape_html_lem}
use bmcweb.TokenAuth.{
  before_handle, is_on_whitelist, authenticate, perform_xtoken_auth, perform_cookie_auth,
  perform_header_auth,
}
use bmcweb.SecurityHeaders.{IsSecure, secure}
use bmcweb.Middlewares.{
  World, Middleware, middleware_call_helper, after_handlers_call_helper, enter, Passes, IsStopped,
  middleware_call_helper_lem,
}
use bmcweb.Connection.{Services, crow_app, answered, prepare, complete_request, route, handle}
use bmcweb.Connection.Headers.{handle-IsSecure}
use bmcweb.TokenAuth.Gate.{IsTurnedAway}
use bmcweb.Connection.Refusals.{handle-IsRefused}
use bmcweb.Tests.Data.{bench, one_session, get_systems, no_headers}
use bmcweb.Tests.Routing.{no_numbers, by_verb, get_x, served}

abbrev escaped : Bytes
escaped = codes "&lt;b&gt; &amp;lt;"

escapes : escape_html (codes "<b> &lt;") ≡ escaped
unfolding escape_html escape_char
escapes = refl

escape_html_lem_example :
    All IsText (escape_html (codes "<b> &lt;"))
    × (read_from 0 (escape_html (codes "<b> &lt;")) ≡ codes "<b> &lt;")
escape_html_lem_example = escape_html_lem (codes "<b> &lt;")

-- The web assets hold the one page that the router knows.
abbrev server : Services
server = record {
  env = record bench { routes = codes "/x" ∷ [] };
  parsers = no_numbers;
  roles = [];
  per_methods = by_verb;
  dump = λ indent members. codes "{}";
  regex_replace = λ pattern format text. text;
  reason = λ status. codes "Error";
  iequals = λ a b. false;
  server_name = codes "iBMC";
  cached_date = codes "Thu, 01 Jan 1970 00:00:00 GMT";
}

abbrev asks_x : World
asks_x = record { req = get_x; res = fresh_response; store = one_session }

abbrev asks_systems : World
asks_systems = record { req = get_systems no_headers; res = fresh_response; store = one_session }

-- A middleware that ends every response.
abbrev closing : Middleware
closing = record {
  before_handle = λ w. record w { res = end w.res };
  after_handle = λ w. record w { res = secure w.res };
}

middleware_call_helper_lem_example :
    (((middleware_call_helper (closing ∷ []) asks_x).1 ≡ false)
      × Passes (closing ∷ []) asks_x
      × ((middleware_call_helper (closing ∷ []) asks_x).0 ≡ enter (closing ∷ []) asks_x))
    ⊎ (((middleware_call_helper (closing ∷ []) asks_x).1 ≡ true)
        × IsStopped (closing ∷ []) asks_x (middleware_call_helper (closing ∷ []) asks_x).0)
middleware_call_helper_lem_example = middleware_call_helper_lem (closing ∷ []) asks_x

passes : (middleware_call_helper (crow_app server.env) asks_x).0 ≡ asks_x
unfolding middleware_call_helper before_handle is_on_whitelist
passes = refl

-- The response of the rule, behind the middlewares.
abbrev behind : World
behind =
    after_handlers_call_helper (crow_app server.env)
      (record asks_x { res = end (result 200 fresh_response) })

abbrev greeted : World
greeted = record behind { res = prepare server behind.req behind.res }

routed : route server true asks_x ≡ answered greeted
unfolding route complete_request end result
routed = rw served refl

greets : handle server true asks_x ≡ answered greeted
unfolding handle
greets = rw passes routed

handle-IsSecure_example : IsSecure greeted.res
handle-IsSecure_example = handle-IsSecure server true asks_x greeted refl refl greets

nobody : (authenticate server.env (get_systems no_headers) one_session).1 ≡ none
unfolding authenticate perform_xtoken_auth perform_cookie_auth perform_header_auth
nobody = refl

not_listed : is_on_whitelist server.env (get_systems no_headers) ≡ false
unfolding is_on_whitelist
not_listed = refl

handle-IsRefused_example :
    (out : World) × (handle server true asks_systems ≡ answered out)
    × IsTurnedAway server.env (get_systems no_headers) asks_systems.res out.res
    × (out.store ≡ (authenticate server.env (get_systems no_headers) one_session).0)
    × IsSecure out.res
handle-IsRefused_example = handle-IsRefused server asks_systems refl refl refl not_listed nobody
