-- ===== src/Connection/Headers.antt =====
-- Which answers of http/http_connection.h carry the security headers.
use bmcweb.Prelude.{
  ◌≡◌, refl, sym, subst, ◌∙◌, inl, inr, Bool, true, false, ◌∷◌, [], codes, ◌==◌, leb, ◌&&◌, if-elim,
  if_true, if_false, Option-cases, Bool-cases, is_empty, if◌then◌else◌,
}
use bmcweb.Http.{Request, Response}
use bmcweb.Http.Html.{pretty_print_json}
use bmcweb.SecurityHeaders.{IsSecure, secure-IsSecure, add_header-IsSecure, same_headers-IsSecure}
use bmcweb.Middlewares.{
  World, middleware_call_helper, after_handlers_call_helper, outermost, stopped_of_completed,
}
use bmcweb.Router
use bmcweb.TokenAuth.{Env}
use bmcweb.Router.Upgrade.{handle_upgrade}
use bmcweb.Connection.{
  Services, crow_app, security_headers, persistent_data, token_authorization, fill_json,
  fill_reason, drop_content, prepare, answered, complete_request, is_invalid_request,
  wants_websocket, route, handle,
}

fill_json-IsSecure :
    (svc : Services) (req : Request) (res : Response)
    → IsSecure res
    → IsSecure (fill_json svc req res)
unfolding pretty_print_json
fill_json-IsSecure svc req res h =
    if-elim IsSecure _ _ _
      (if-elim IsSecure _ _ _
        (add_header-IsSecure (codes "Content-Type") _ _
          (refl, (refl, (refl, (refl, (refl, (refl, (refl, tt)))))))
          (same_headers-IsSecure res _ refl h))
        (add_header-IsSecure (codes "Content-Type") _ _
          (refl, (refl, (refl, (refl, (refl, (refl, (refl, tt)))))))
          (same_headers-IsSecure res _ refl h)))
      h

fill_reason-IsSecure :
    (svc : Services) (res : Response) → IsSecure res → IsSecure (fill_reason svc res)
fill_reason-IsSecure svc res h =
    if-elim IsSecure (leb 400 res.status && is_empty res.body)
      (record res { body = svc.reason res.status }) res (same_headers-IsSecure res _ refl h) h

drop_content-IsSecure : (res : Response) → IsSecure res → IsSecure (drop_content res)
drop_content-IsSecure res h =
    if-elim IsSecure (res.status == 204) (record res { body = [] }) res
      (same_headers-IsSecure res _ refl h) h

prepare-IsSecure :
    (svc : Services) (req : Request) (res : Response)
    → IsSecure res
    → IsSecure (prepare svc req res)
unfolding prepare
prepare-IsSecure svc req res h =
    let filled =
      drop_content-IsSecure (fill_reason svc (fill_json svc req res))
        (fill_reason-IsSecure svc (fill_json svc req res) (fill_json-IsSecure svc req res h)) in
    same_headers-IsSecure _ _ refl (
      add_header-IsSecure (codes "Date") svc.cached_date _
        (refl, (refl, (refl, (refl, (refl, (refl, (refl, tt)))))))
        (add_header-IsSecure (codes "Server") svc.server_name _
          (refl, (refl, (refl, (refl, (refl, (refl, (refl, tt))))))) filled))

answered-injective : (a b : World) → answered a ≡ answered b → a ≡ b
answered-injective a b e = cc

-- `completeRequest` on a response that the middlewares are through with.
completed-IsSecure :
    (svc : Services) (is_alive : Bool) (w out : World)
    → IsSecure w.res
    → complete_request svc false is_alive w ≡ answered out
    → IsSecure out.res
unfolding complete_request
completed-IsSecure svc true w out h e =
    subst (λ v. IsSecure v.res) (answered-injective _ _ e) (prepare-IsSecure svc w.req w.res h)
completed-IsSecure svc false w out h e = absurd (cc)

after_handlers-IsSecure :
    (svc : Services) (w : World) → IsSecure (after_handlers_call_helper (crow_app svc.env) w).res
unfolding after_handlers_call_helper
after_handlers-IsSecure svc w = secure-IsSecure w.res

-- A response that a handler ends, at once or later, is written with the security headers.
pub complete_request-IsSecure :
    (svc : Services) (is_alive : Bool) (w out : World)
    → complete_request svc true is_alive w ≡ answered out
    → IsSecure out.res
unfolding complete_request
complete_request-IsSecure svc true w out e =
    subst (λ v. IsSecure v.res) (answered-injective _ _ e)
      (prepare-IsSecure svc _ _ (after_handlers-IsSecure svc w))
complete_request-IsSecure svc false w out e = absurd (cc)

stopped-IsSecure :
    (env : Env) (w : World)
    → (middleware_call_helper (crow_app env) w).1 ≡ true
    → IsSecure (middleware_call_helper (crow_app env) w).0.res
stopped-IsSecure env w e =
    let (inner, same) =
      outermost security_headers (persistent_data ∷ token_authorization env ∷ []) w e in
    subst (λ v. IsSecure v.res) (sym same) (secure-IsSecure inner.res)

route-IsSecure :
    (svc : Services) (is_alive : Bool) (w out : World)
    → route svc is_alive w ≡ answered out
    → IsSecure out.res
unfolding route
route-IsSecure svc is_alive w out e = elim (Bool-cases (wants_websocket svc w.req)) [
  | inl f ↦ elim (Option-cases (handle_upgrade svc.parsers svc.per_methods w.req w.res)) [
    | inl g ↦ absurd (cc (rw (f, g) at e))
    | inr (res, g) ↦ absurd (cc (rw (f, g) at e))
  ]
  | inr f ↦ elim (Option-cases (Router.handle svc.parsers svc.roles svc.per_methods w.req w.res)) [
    | inl g ↦ absurd (cc (rw (f, g) at e))
    | inr (res, g) ↦ elim (Bool-cases res.completed) [
      | inl h ↦
          complete_request-IsSecure svc is_alive (record w { res = res }) out
            (sym (if_true _ _ _ h) ∙ (rw (f, g) at e))
      | inr h ↦ absurd (cc (rw (f, g, h) at e))
    ]
  ]
]

-- Whatever the middlewares and the router make of a request, an answer that is written at once has
-- the seven headers of `IsSecure`, each with its value. (The response is open when the request arrives, and the
-- request is not one of HTTP/1.1 without a host.)
pub handle-IsSecure :
    (svc : Services) (is_alive : Bool) (w out : World)
    → w.res.completed ≡ false
    → is_invalid_request w.req ≡ false
    → handle svc is_alive w ≡ answered out
    → IsSecure out.res
unfolding handle
handle-IsSecure svc is_alive w out fresh valid e =
    let entered = (middleware_call_helper (crow_app svc.env) w).0 in
    let past : (if entered.res.completed
          then complete_request svc false is_alive entered
          else route svc is_alive entered)
        ≡ answered out =
      sym (if_false _ _ _ valid) ∙ e in
    elim (Bool-cases entered.res.completed) [
      | inl c ↦
          completed-IsSecure svc is_alive entered out
            (stopped-IsSecure svc.env w (stopped_of_completed (crow_app svc.env) w fresh c))
            (sym (if_true _ _ _ c) ∙ past)
      | inr c ↦ route-IsSecure svc is_alive entered out (sym (if_false _ _ _ c) ∙ past)
    ]
