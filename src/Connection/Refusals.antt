-- ===== src/Connection/Refusals.antt =====
-- What http/http_connection.h writes for a request that nobody vouches for.
use bmcweb.Prelude.{
  ◌≡◌, refl, sym, subst, ap, ◌∙◌, true, false, none, ◌∷◌, [], Bytes, bytes_eq, codes, if_true,
  if_false, if-elim, is_empty, if◌then◌else◌, ◌==◌, leb, not, ◌&&◌,
}
use bmcweb.Prelude.Assoc.{lookup}
use bmcweb.Http.{Request, Response, add_header, prefers_html}
use bmcweb.Http.Html.{pretty_print_json}
use bmcweb.Http.Responses.{IsCounted, add_header_lem, add_header_ne}
use bmcweb.TokenAuth.{Env, is_on_whitelist, authenticate, before_handle, after_handle}
use bmcweb.TokenAuth.Gate.{IsTurnedAway, same-IsTurnedAway, before_handle_refuses}
use bmcweb.SecurityHeaders.{IsSecure, secure, secure_lem, secure_ne}
use bmcweb.Middlewares.{World, middleware_call_helper, stopped, left}
use bmcweb.Connection.{
  Services, crow_app, security_headers, persistent_data, token_authorization, fill_json,
  fill_reason, drop_content, prepare, answered, complete_request, is_invalid_request, handle,
}
use bmcweb.Connection.Headers.{handle-IsSecure}

fill_json_status :
    (svc : Services) (req : Request) (res : Response) → (fill_json svc req res).status ≡ res.status
unfolding pretty_print_json
fill_json_status svc req res =
    if-elim (λ (out : Response). out.status ≡ res.status) _ _ _
      (if-elim (λ (out : Response). out.status ≡ res.status) _ _ _
        (add_header_lem (codes "Content-Type") _ _).1 (add_header_lem (codes "Content-Type") _ _).1)
      refl

fill_reason_status : (svc : Services) (res : Response) → (fill_reason svc res).status ≡ res.status
fill_reason_status svc res =
    if-elim (λ (out : Response). out.status ≡ res.status) (leb 400 res.status && is_empty res.body)
      (record res { body = svc.reason res.status }) res refl refl

drop_content_status : (res : Response) → (drop_content res).status ≡ res.status
drop_content_status res =
    if-elim (λ (out : Response). out.status ≡ res.status) (res.status == 204)
      (record res { body = [] }) res refl refl

-- `completeRequest` leaves the status, and the headers that it does not set.
prepare_status :
    (svc : Services) (req : Request) (res : Response) → (prepare svc req res).status ≡ res.status
unfolding prepare
prepare_status svc req res =
    let filled = drop_content (fill_reason svc (fill_json svc req res)) in
    (add_header_lem (codes "Date") svc.cached_date
      (add_header (codes "Server") svc.server_name filled)).1
    ∙ (add_header_lem (codes "Server") svc.server_name filled).1
    ∙ drop_content_status (fill_reason svc (fill_json svc req res))
    ∙ fill_reason_status svc (fill_json svc req res)
    ∙ fill_json_status svc req res

module _ (svc : Services) (req : Request) (key : Bytes) where
  abbrev Keeps : Response → Response → Type 0
  Keeps res out = lookup key out.headers ≡ lookup key res.headers

  fill_json_header :
      (res : Response)
      → bytes_eq (codes "Content-Type") key ≡ false
      → Keeps res (fill_json svc req res)
  unfolding pretty_print_json
  fill_json_header res ne =
      let page = pretty_print_json svc.regex_replace svc.dump res in
      let plain =
        add_header (codes "Content-Type") (codes "application/json")
          (record res { body = svc.dump 2 res.json_value }) in
      let html = prefers_html (svc.env.split (req.header "accept")) in
      if-elim (Keeps res) (is_empty res.body && not (is_empty res.json_value))
        (if html then page else plain) res
        (if-elim (Keeps res) html page plain
          (add_header_ne (codes "Content-Type") key (codes "text/html;charset=UTF-8") _ ne)
          (add_header_ne (codes "Content-Type") key (codes "application/json") _ ne))
        refl

  fill_reason_header : (res : Response) → Keeps res (fill_reason svc res)
  fill_reason_header res =
      if-elim (Keeps res) (leb 400 res.status && is_empty res.body)
        (record res { body = svc.reason res.status }) res refl refl

  drop_content_header : (res : Response) → Keeps res (drop_content res)
  drop_content_header res =
      if-elim (Keeps res) (res.status == 204) (record res { body = [] }) res refl refl

  prepare_header :
      (res : Response)
      → bytes_eq (codes "Content-Type") key ≡ false
      → bytes_eq (codes "Server") key ≡ false
      → bytes_eq (codes "Date") key ≡ false
      → Keeps res (prepare svc req res)
  unfolding prepare
  prepare_header res kind server date =
      let filled = drop_content (fill_reason svc (fill_json svc req res)) in
      add_header_ne (codes "Date") key svc.cached_date
        (add_header (codes "Server") svc.server_name filled) date
      ∙ add_header_ne (codes "Server") key svc.server_name filled server
      ∙ drop_content_header (fill_reason svc (fill_json svc req res))
      ∙ fill_reason_header (fill_json svc req res)
      ∙ fill_json_header res kind

-- A response that was turned away stays so through the security headers and `completeRequest`.
prepare-secure-IsTurnedAway :
    (svc : Services) (env : Env) (req req' : Request) (was res : Response)
    → IsTurnedAway env req was res
    → IsTurnedAway env req was (prepare svc req' (secure res))
prepare-secure-IsTurnedAway svc env req req' was res h =
    same-IsTurnedAway env req was res (prepare svc req' (secure res))
      (prepare_status svc req' (secure res) ∙ (secure_lem res).0)
      (prepare_header svc req' (codes "Location") (secure res) refl refl refl
        ∙ secure_ne (codes "Location") res
            (refl, (refl, (refl, (refl, (refl, (refl, (refl, tt))))))))
      (prepare_header svc req' (codes "WWW-Authenticate") (secure res) refl refl refl
        ∙ secure_ne (codes "WWW-Authenticate") res
            (refl, (refl, (refl, (refl, (refl, (refl, (refl, tt))))))))
      h

module _ (env : Env) (w : World) where
  abbrev refused : World
  refused = (token_authorization env).before_handle w

  -- The chain ends at the token authorization, and the security headers are put on.
  chain_lem :
      w.res.completed ≡ false
      → refused.res.completed ≡ true
      → (middleware_call_helper (crow_app env) w).0 ≡ record refused {
        res = secure refused.res;
        store = after_handle refused.req refused.store;
      }
  chain_lem fresh done =
      let last = stopped (token_authorization env) [] w done in
      let inner =
        left persistent_data (token_authorization env ∷ []) w fresh (ap (λ r. r.1) last) in
      let outer =
        left security_headers (persistent_data ∷ token_authorization env ∷ []) w fresh
          (ap (λ r. r.1) inner) in
      ap (λ r. r.0) outer
      ∙ ap (λ r. security_headers.after_handle r.0) inner
      ∙ ap (λ r. security_headers.after_handle r.0) last

  refused_store :
      is_on_whitelist env w.req ≡ false
      → (authenticate env w.req w.store).1 ≡ none
      → after_handle refused.req refused.store ≡ (authenticate env w.req w.store).0
  unfolding before_handle after_handle
  refused_store closed nobody = rw (closed, nobody) refl

completed_lem :
    (svc : Services) (w : World)
    → complete_request svc false true w ≡ answered (record w { res = prepare svc w.req w.res })
unfolding complete_request
completed_lem svc w = refl

-- A request for which no way in gives a session, to an address that is not open to anyone, is answered
-- at once, whatever the router's rules are: a browser by a redirection to the login page, its address
-- encoded in the query, and anything else by 401, with `WWW-Authenticate: Basic` set exactly where that
-- names no user agent; with the security headers, and the store is what the authentication left. (The
-- socket is open, the response is fresh, and the request is not one of HTTP/1.1 without a host.)
pub handle-IsRefused :
    (svc : Services) (w : World)
    → w.res.completed ≡ false
    → IsCounted w.res
    → is_invalid_request w.req ≡ false
    → is_on_whitelist svc.env w.req ≡ false
    → (authenticate svc.env w.req w.store).1 ≡ none
    → (out : World) × (handle svc true w ≡ answered out)
      × IsTurnedAway svc.env w.req w.res out.res
      × (out.store ≡ (authenticate svc.env w.req w.store).0)
      × IsSecure out.res
unfolding handle
handle-IsRefused svc w fresh counted valid closed nobody =
    let (ended, _, turned) =
      before_handle_refuses svc.env w.req w.res w.store counted closed nobody in
    let chain = chain_lem svc.env w fresh ended in
    let entered = (middleware_call_helper (crow_app svc.env) w).0 in
    let done : entered.res.completed ≡ true =
      ap (λ v. v.res.completed) chain ∙ (secure_lem (refused svc.env w).res).1 ∙ ended in
    let out = record entered { res = prepare svc entered.req entered.res } in
    let same : handle svc true w ≡ answered out =
      if_false _ _ _ valid ∙ if_true _ _ _ done ∙ completed_lem svc entered in
    (
      out,
      same,
      subst (λ v. IsTurnedAway svc.env w.req w.res (prepare svc v.req v.res)) (sym chain)
          (prepare-secure-IsTurnedAway svc svc.env w.req _ w.res (refused svc.env w).res turned),
      ap (λ v. v.store) chain ∙ refused_store svc.env w closed nobody,
      handle-IsSecure svc true w out fresh valid same,
    )
