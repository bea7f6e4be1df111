-- ===== src/Middlewares.antt =====
-- The chain of middlewares of http/http_connection.h: `middlewareCallHelper`, which runs them before
-- the router, and `afterHandlersCallHelper`, which runs them after it. What they change is a `World`:
-- the request, its response and the session store.
use bmcweb.Prelude.{
  ◌≡◌, refl, sym, ap, ◌∙◌, ◌⊎◌, inl, inr, Bool, true, false, List, [], ◌∷◌, ◌++◌, if◌then◌else◌,
  if_true, if_false, Bool-cases,
}
use bmcweb.Sessions.{SessionStore}
use bmcweb.Http.{Request, Response}

pub record World : Type 0 where
  pub req : Request
  pub res : Response
  pub store : SessionStore

pub record Middleware : Type 0 where
  pub before_handle : World → World
  pub after_handle : World → World

unfoldable pub middleware_call_helper : List Middleware → World → World × Bool
middleware_call_helper [] w = (w, false)
middleware_call_helper (m ∷ ms) w =
    let entered = m.before_handle w in
    let inner = middleware_call_helper ms entered in
    if entered.res.completed
    then (m.after_handle entered, true)
    else if inner.1
    then (m.after_handle inner.0, true)
    else (inner.0, false)

-- From the last middleware to the first.
unfoldable pub after_handlers_call_helper : List Middleware → World → World
after_handlers_call_helper [] w = w
after_handlers_call_helper (m ∷ ms) w = m.after_handle (after_handlers_call_helper ms w)

-- The world after the `beforeHandle` of each, the first first.
abbrev pub enter : List Middleware → World → World
enter [] w = w
enter (m ∷ ms) w = enter ms (m.before_handle w)

-- Each leaves the response open.
abbrev pub Passes : List Middleware → World → Type 0
Passes [] w = Unit
Passes (m ∷ ms) w = ((m.before_handle w).res.completed ≡ false) × Passes ms (m.before_handle w)

-- The middlewares up to `stop` are entered; `stop` completes the response, and then what was entered
-- is left, `stop` first.
pub record IsStopped (ms : List Middleware) (w out : World) : Type 0 where
  pub entered : List Middleware
  pub stop : Middleware
  pub others : List Middleware
  pub split : ms ≡ entered ++ (stop ∷ others)
  pub passed : Passes entered w
  pub completed : (stop.before_handle (enter entered w)).res.completed ≡ true
  pub unwound :
      out
      ≡ after_handlers_call_helper (entered ++ (stop ∷ [])) (stop.before_handle (enter entered w))

module _ (m : Middleware) (ms : List Middleware) (w : World) where
  pub stopped :
      (m.before_handle w).res.completed ≡ true
      → middleware_call_helper (m ∷ ms) w ≡ (m.after_handle (m.before_handle w), true)
  unfolding middleware_call_helper
  stopped e = if_true _ _ _ e

  pub left :
      (m.before_handle w).res.completed ≡ false
      → (middleware_call_helper ms (m.before_handle w)).1 ≡ true
      → middleware_call_helper (m ∷ ms) w
        ≡ (m.after_handle (middleware_call_helper ms (m.before_handle w)).0, true)
  unfolding middleware_call_helper
  left e f = if_false _ _ _ e ∙ if_true _ _ _ f

  passed_on :
      (m.before_handle w).res.completed ≡ false
      → (middleware_call_helper ms (m.before_handle w)).1 ≡ false
      → middleware_call_helper (m ∷ ms) w
        ≡ ((middleware_call_helper ms (m.before_handle w)).0, false)
  unfolding middleware_call_helper
  passed_on e f = if_false _ _ _ e ∙ if_false _ _ _ f

-- The chain of middlewares either passes the request on, with each `beforeHandle` run in order and no
-- `afterHandle`; or a middleware completes the response, no later one is entered, and the `afterHandle`
-- of it and of those entered before it run in the reverse order, as they do behind the router.
pub middleware_call_helper_lem :
    (ms : List Middleware) (w : World)
    → (((middleware_call_helper ms w).1 ≡ false)
        × Passes ms w
        × ((middleware_call_helper ms w).0 ≡ enter ms w))
      ⊎ (((middleware_call_helper ms w).1 ≡ true) × IsStopped ms w (middleware_call_helper ms w).0)
unfolding after_handlers_call_helper middleware_call_helper
middleware_call_helper_lem [] w = inl (refl, tt, refl)
middleware_call_helper_lem (m ∷ ms) w = elim (Bool-cases (m.before_handle w).res.completed) [
  | inl e ↦ inr (
    ap (λ r. r.1) (stopped m ms w e),
    record {
      entered = [];
      stop = m;
      others = ms;
      split = refl;
      passed = tt;
      completed = e;
      unwound = ap (λ r. r.0) (stopped m ms w e);
    },
  )
  | inr e ↦ elim (middleware_call_helper_lem ms (m.before_handle w)) [
    | inl (went_on, passed, same) ↦ inl (
      ap (λ r. r.1) (passed_on m ms w e went_on),
      (e, passed),
      ap (λ r. r.0) (passed_on m ms w e went_on) ∙ same,
    )
    | inr (went_on, s) ↦ inr (
      ap (λ r. r.1) (left m ms w e went_on),
      record {
        entered = m ∷ s.entered;
        stop = s.stop;
        others = s.others;
        split = ap (◌∷◌ m) s.split;
        passed = (e, s.passed);
        completed = s.completed;
        unwound = ap (λ r. r.0) (left m ms w e went_on) ∙ ap m.after_handle s.unwound;
      },
    )
  ]
]

-- Where the chain is stopped, its first middleware has the last word.
pub outermost :
    (m : Middleware) (ms : List Middleware) (w : World)
    → (middleware_call_helper (m ∷ ms) w).1 ≡ true
    → (inner : World) × ((middleware_call_helper (m ∷ ms) w).0 ≡ m.after_handle inner)
outermost m ms w e = elim (Bool-cases (m.before_handle w).res.completed) [
  | inl f ↦ (m.before_handle w, ap (λ r. r.0) (stopped m ms w f))
  | inr f ↦ elim (Bool-cases (middleware_call_helper ms (m.before_handle w)).1) [
    | inl g ↦ ((middleware_call_helper ms (m.before_handle w)).0, ap (λ r. r.0) (left m ms w f g))
    | inr g ↦ absurd (cc (ap (λ r. r.1) (passed_on m ms w f g)))
  ]
]

enter_open :
    (ms : List Middleware) (w : World)
    → Passes ms w
    → w.res.completed ≡ false
    → (enter ms w).res.completed ≡ false
enter_open [] w p e = e
enter_open (m ∷ ms) w (open_still, p) e = enter_open ms (m.before_handle w) p open_still

-- A response that was open is completed only where the chain is stopped.
pub stopped_of_completed :
    (ms : List Middleware) (w : World)
    → w.res.completed ≡ false
    → (middleware_call_helper ms w).0.res.completed ≡ true
    → (middleware_call_helper ms w).1 ≡ true
stopped_of_completed ms w e c = elim (middleware_call_helper_lem ms w) [
  | inl (_, passed, same) ↦
      absurd (cc (sym c ∙ ap (λ v. v.res.completed) same ∙ enter_open ms w passed e))
  | inr (went, _) ↦ went
]
