-- ===== src/Lib.antt =====
-- bmcweb, the web server of OpenBMC: models of its access control, of the sessions that requests
-- are made under, and of the encodings on their way, with the theorems that make them correct.
--
-- A request arrives as a `crow::Request`. The token authorization middleware decides in
-- `beforeHandle` who it is from: by a session token, by a cookie, or by a password that PAM
-- accepts. It asks the session store, which keeps the sessions under their tokens and sweeps the
-- idle ones away. The handlers of /login and /logout make and remove sessions there. What a user
-- may do is decided by privileges: the role map follows the signals of the user manager, a role
-- has a set of privileges, and a rule or a node has the sets that open it. The router looks the
-- address up in the trie of the method and runs the rule's handler if those privileges allow it.
-- The connection runs this: the chain of middlewares (the security headers first, the token
-- authorization last), then the router, and behind it the chain again from its end. It
-- keeps one operation under way at a time and deletes itself when it is done; a timer queue closes the
-- connections that are slow with their first request. A request for a WebSocket leaves the
-- connection and gets a write queue. What the sessions need to outlive a restart is kept in a file.
-- The handlers of Redfish read the members of a request's JSON object into typed variables, and tell
-- the client what is wrong with messages of a registry.
--
-- Prelude: lists, texts and association lists over the native numbers.
-- Privileges: redfish-core/include/privileges.hpp, and `checkPrivileges` of http/routing.h.
-- Base64: `base64encode` and `base64Decode` of http/utility.h.
-- Roles: `UserRoleMap` of include/sessions.hpp, each signal a step on the map.
-- Sessions: `UserSession`, `AuthConfigMethods` and `SessionStore` of include/sessions.hpp, each
--   member function a function of the same name from a store to a store and a result.
-- Http: `Request` and `Response` (http/http_request.h, http/http_response.h) as far as handlers
--   read and write them, `requestPrefersHtml` and `urlEncode` (include/http_utility.hpp);
--   its child Html has `escapeHtml` and `convertToLinks` (http/utility.h) and `prettyPrintJson`.
-- TokenAuth: `token_authorization::Middleware` of include/token_authorization_middleware.hpp.
-- LoginRoute: the handlers of /login and /logout, in the same file.
-- Routing: `Trie` of http/routing.h: `add`, which adds a route, `find`, which looks an address up among
--   them, and `validate`, which joins the fragments of nodes that stand alone (its child Optimize).
-- Router: `Router::handle` of the same file, from the lookup to the call of a rule's handler.
--   Its child Upgrade has `Router::handleUpgrade`.
-- TimerQueue: http/timer_queue.h, the time-outs of the connections.
-- SecurityHeaders: include/security_headers_middleware.hpp.
-- Middlewares: the chain of middlewares of http/http_connection.h, before and behind the router.
-- Connection: `Connection` of the same file. `handle` and `completeRequest` are functions that compose
--   the middlewares of include/webserver_common.hpp, the router and the filling of the answer; the
--   child Lifecycle has the flags and the asynchronous operations, each end of one a step, with the
--   timer queue, where the steps of the other connections are events; it notes whether a timer was
--   added that had no room in the ring.
-- WebSocket: the write queue of `ConnectionImpl` in http/websocket.h.
-- Persistence: include/persistent_data_middleware.hpp, what a restart keeps of the sessions.
-- Messages: redfish-core/src/error_messages.cpp, each message function a function from its arguments
--   to what it does to a response; redfish-core/include/registries/base_message_registry.hpp, and how
--   redfish-core/lib/log_services.hpp makes an entry of the event log from a line (its child EventLog).
-- JsonUtils: redfish-core/include/utils/json_utils.hpp, `readJson` on a list of keys with the types of
--   their variables, a data type that stands for the template's parameters.
-- Tests: runs on concrete inputs.
--
-- Texts are lists of bytes. Each reading of the steady clock and each result of the random device
-- is an argument; PAM, CRYPTO_memcmp, boost::split, the table of web assets, the parsers of JSON
-- and of numbers, the dump of JSON, std::regex_replace, boost::iequals and the rules' handlers
-- are parameters, and a theorem that relies on one of them names what it relies on as a
-- hypothesis.
-- The hash map of sessions is an association list, of which a theorem uses the lookups alone,
-- except where the order of the sweep shows. A session and its copy in a request share their
-- fields but for the idle timer, which the store alone reads.
--
-- `find` calls itself on what is left of the address, which each call makes shorter; it is given one
-- call more than the address is long, which is enough since no fragment is empty. `add` is given a
-- round for each character of the route, of which a round takes at least one. `optimize_node` is given
-- rounds by the rank of its node, how far it stands from the end: a merge lowers the ranks of its
-- children. `std::to_string` is given a round for each unit of its number and one more. All else ends
-- by structural recursion.
--
-- Not modelled: the bytes that Beast and OpenSSL move, the accept loop and the mutual TLS of the server,
-- the reading side of the WebSockets and the consoles (asynchronous I/O), the handlers of the
-- Redfish resources and of the D-Bus REST API, which ask services over D-Bus, and the OpenBMC message
-- registry, a table of the same form as the base registry. The template machinery of the rules runs
-- in the compiler; that of `readJson` is a recursion on the list of its parameters.
pub mod Prelude
pub mod Privileges
pub mod Base64
pub mod Roles
pub mod Sessions
pub mod Http
pub mod TokenAuth
pub mod LoginRoute
pub mod Routing
pub mod Router
pub mod TimerQueue
pub mod SecurityHeaders
pub mod Middlewares
pub mod Connection
pub mod WebSocket
pub mod Persistence
pub mod Messages
pub mod JsonUtils
pub mod Tests
