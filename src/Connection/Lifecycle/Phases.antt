-- ===== src/Connection/Lifecycle/Phases.antt =====
-- The flags of a connection against the phases of its life, of which one follows the other.
use bmcweb.Prelude.{
  ℕ, ◌≡◌, ◌≢◌, refl, sym, subst, ap, Bool, true, false, not, ◌&&◌, ◌||◌, List, [], ◌∷◌, any, ◌==◌,
  Bool-cases, inl, inr,
}
use bmcweb.TimerQueue.{TimerQueue, cancel, add_timer, process}
use bmcweb.Connection.Lifecycle.{
  Operation, handshake, read_header, read_body, write, Lifecycle, self, has_room, start, Answer,
  at_once, later, upgrade, Event, shaken, header, body, ended, wrote, ticked, others_add,
  others_cancel, tick, step, Enabled, IsAbsent, Reach, started, stepped,
}
use bmcweb.Connection.Lifecycle.Timers.{Owns, cancel-IsAbsent, add_self}
use bmcweb.Connection.Lifecycle.Forms.{
  Phase, shaking, heading, loading, holding, writing_out, handed_over, gone, stranded, in_phase,
  IsTimed, IsCalm, IsServing, HasPhase, is, cancel_timed, room_kept, cancel_other-IsCalm,
  add_other-IsCalm, tick-IsCalm,
}

module _ (now : ℕ) (q : TimerQueue) (h : IsAbsent q.dq) where
  first_deadline :
      (false || not (has_room (cancel 0 q))) ≡ false
      → Owns (add_timer now self (cancel 0 q)).1 (add_timer now self (cancel 0 q)).0
  first_deadline e =
      add_self now (cancel 0 q) (room_kept false (has_room (cancel 0 q)) e).1
        (cancel-IsAbsent 0 q h)

  start-HasPhase : (is_tls : Bool) → HasPhase (start is_tls now q)
  unfolding start
  start-HasPhase true = is shaking true false _ _ _ refl first_deadline
  start-HasPhase false = is heading true false _ _ _ tt first_deadline

module _ (o s : Bool) (k : ℕ) (q : TimerQueue) (v : Bool) where
  shaken-HasPhase :
      (failed : Bool)
      → s ≡ false
      → (v ≡ false → IsTimed s k q)
      → HasPhase (step (shaken failed) (in_phase shaking o s k q v))
  unfolding step
  shaken-HasPhase true u h = is gone o s k (cancel k q) v tt (λ e. cancel_timed s k q (h e))
  shaken-HasPhase false u h = is heading o s k q v tt h

  module _ (h : v ≡ false → IsTimed s k q) where
    -- The deadline is gone once it is cancelled, and a second time in the destructor.
    cancelled : v ≡ false → IsAbsent (cancel k q).dq
    cancelled e = cancel_timed s k q (h e)

    cancelled_twice : v ≡ false → IsAbsent (cancel k (cancel k q)).dq
    cancelled_twice e = cancel-IsAbsent k (cancel k q) (cancelled e)

    header-HasPhase :
        (failed asks_upgrade : Bool)
        → HasPhase (step (header failed asks_upgrade) (in_phase heading o s k q v))
    unfolding step
    header-HasPhase failed asks_upgrade = elim (Bool-cases (failed || not o && not asks_upgrade)) [
      | inl e ↦ rw e (is gone false s k _ v tt cancelled_twice)
      | inr e ↦ rw e (is loading o s k q v tt h)
    ]

  wrote-HasPhase :
      (failed keep_alive : Bool)
      → s ≡ true
      → (v ≡ false → (o ≡ true) × IsAbsent q.dq)
      → HasPhase (step (wrote failed keep_alive) (in_phase writing_out o s k q v))
  unfolding step
  wrote-HasPhase true keep_alive u h =
      is gone o s k (cancel k q) v tt (λ e. cancel-IsAbsent k q (h e).1)
  wrote-HasPhase false false u h =
      is gone false s k (cancel k q) v tt (λ e. cancel-IsAbsent k q (h e).1)
  wrote-HasPhase false true u h =
      is heading o s k q v tt (λ e. subst (λ t. IsTimed t k q) (sym u) (h e).1)

body-HasPhase :
    (failed : Bool) (answer : Answer) (o s : Bool) (k : ℕ) (q : TimerQueue) (v : Bool)
    → (v ≡ false → IsTimed s k q)
    → HasPhase (step (body failed answer) (in_phase loading o s k q v))
unfolding step
body-HasPhase true answer o s k q v h = is gone false s k _ v tt (cancelled_twice o s k q v h)
body-HasPhase false answer false s k q v h =
    is gone false s k _ v tt (cancelled_twice false s k q v h)
body-HasPhase false at_once true s k q v h =
    is writing_out true true k (cancel k q) v refl (λ e. (refl, cancelled true s k q v h e))
body-HasPhase false later true s k q v h =
    is holding true true k (cancel k q) v refl (λ e. (refl, cancelled true s k q v h e))
body-HasPhase false (upgrade true) true s k q v h =
    is handed_over false true k (cancel k q) v tt (cancelled true s k q v h)
body-HasPhase false (upgrade false) true s k q v h =
    is handed_over true true k (cancel k q) v tt (cancelled true s k q v h)

-- A response that ends after a deadline that could not be cancelled is not written, since the
-- socket is closed: the connection stays, and nothing is under way.
ended-HasPhase :
    (p : Phase) (o s : Bool) (k : ℕ) (q : TimerQueue) (v : Bool)
    → (in_phase p o s k q v).is_held ≡ true
    → IsServing p s
    → (v ≡ false → IsCalm p o s k q)
    → HasPhase (step ended (in_phase p o s k q v))
unfolding step
ended-HasPhase holding true s k q v n u h = is writing_out true s k q v u h
ended-HasPhase holding false s k q v n u h = is stranded false s k q v tt (λ e. absurd (cc (h e).0))
ended-HasPhase shaking o s k q v n u h = absurd (cc)
ended-HasPhase heading o s k q v n u h = absurd (cc)
ended-HasPhase loading o s k q v n u h = absurd (cc)
ended-HasPhase writing_out o s k q v n u h = absurd (cc)
ended-HasPhase handed_over o s k q v n u h = absurd (cc)
ended-HasPhase gone o s k q v n u h = absurd (cc)
ended-HasPhase stranded o s k q v n u h = absurd (cc)

-- The operation under way tells the phase.
abbrev phase_of : List Operation → Phase
phase_of (handshake ∷ ops) = shaking
phase_of (read_header ∷ ops) = heading
phase_of (read_body ∷ ops) = loading
phase_of (write ∷ ops) = writing_out
phase_of [] = gone

phase_of_lem :
    (p : Phase) (o s : Bool) (k : ℕ) (q : TimerQueue) (v : Bool) (op : Operation)
    → (in_phase p o s k q v).under_way ≡ op ∷ []
    → phase_of (op ∷ []) ≡ p
phase_of_lem shaking o s k q v op e = sym (ap phase_of e)
phase_of_lem heading o s k q v op e = sym (ap phase_of e)
phase_of_lem loading o s k q v op e = sym (ap phase_of e)
phase_of_lem holding o s k q v op e = absurd (cc)
phase_of_lem writing_out o s k q v op e = sym (ap phase_of e)
phase_of_lem handed_over o s k q v op e = absurd (cc)
phase_of_lem gone o s k q v op e = absurd (cc)
phase_of_lem stranded o s k q v op e = absurd (cc)

-- The timer queue goes on, in whatever phase.
module _ (p : Phase) (o s : Bool) (k : ℕ) (q : TimerQueue) (v : Bool) (u : IsServing p s)
    (h : v ≡ false → IsCalm p o s k q) where
  tick-HasPhase : (now : ℕ) → HasPhase (tick now (in_phase p o s k q v))
  unfolding tick
  tick-HasPhase now = elim (Bool-cases (any (λ f. f == self) (process now q).1)) [
    | inl e ↦
        rw e (is p false s k (process now q).0 v u (λ c. tick-IsCalm o s k q now true e p (h c)))
    | inr e ↦ rw e (is p o s k (process now q).0 v u (λ c. tick-IsCalm o s k q now false e p (h c)))
  ]

  added-HasPhase :
      (now f : ℕ) → f ≢ self → HasPhase (step (others_add now f) (in_phase p o s k q v))
  unfolding step
  added-HasPhase now f ne = is p o s k (add_timer now f q).0 (v || not (has_room q)) u (λ c.
      let (calm, room) = room_kept v (has_room q) c in
      add_other-IsCalm o s k q now f ne room p (h calm))

  cancelled-HasPhase : (key : ℕ) → HasPhase (step (others_cancel key) (in_phase p o s k q v))
  unfolding step
  cancelled-HasPhase key =
      is p o s k (cancel key q) v u (λ c. cancel_other-IsCalm o s k q p key (h c))

  -- What an operation's end does in the phase that the operation tells.
  at_phase :
      (e : Event) (r : Phase)
      → r ≡ p
      → (IsServing r s → (v ≡ false → IsCalm r o s k q) → HasPhase (step e (in_phase r o s k q v)))
      → HasPhase (step e (in_phase p o s k q v))
  at_phase e r same f =
      subst
        (λ r.
          (IsServing r s
            → (v ≡ false → IsCalm r o s k q)
            → HasPhase (step e (in_phase r o s k q v))))
        same f u h

  step-HasPhase :
      (e : Event) → Enabled e (in_phase p o s k q v) → HasPhase (step e (in_phase p o s k q v))
  unfolding step
  step-HasPhase (shaken failed) n =
      at_phase (shaken failed) shaking (phase_of_lem p o s k q v handshake n)
        (shaken-HasPhase o s k q v failed)
  step-HasPhase (header failed asks_upgrade) n =
      at_phase (header failed asks_upgrade) heading (phase_of_lem p o s k q v read_header n)
        (λ u h. header-HasPhase o s k q v h failed asks_upgrade)
  step-HasPhase (body failed answer) n =
      at_phase (body failed answer) loading (phase_of_lem p o s k q v read_body n)
        (λ u h. body-HasPhase failed answer o s k q v h)
  step-HasPhase ended n = ended-HasPhase p o s k q v n u h
  step-HasPhase (wrote failed keep_alive) n =
      at_phase (wrote failed keep_alive) writing_out (phase_of_lem p o s k q v write n)
        (wrote-HasPhase o s k q v failed keep_alive)
  step-HasPhase (ticked now) n = tick-HasPhase now
  step-HasPhase (others_add now f) n = added-HasPhase now f n
  step-HasPhase (others_cancel key) n = cancelled-HasPhase key

-- In whatever order the operations end, handlers end their responses, the timer queue is processed
-- and other connections add and cancel timers there, the flags of a connection, what is under way and
-- whether it is deleted are those of one phase: the flags `isReading` and `isWriting` hold exactly
-- while a read or a write is under way, and there is never more than one operation. As long as every
-- timer added since the connection started had room in the ring and in the width of the keys, it is
-- not stranded, it holds or writes a response with the socket open, and its deadline is in the queue
-- only before the first request is handled, under the connection's key. (Before it starts, the queue has
-- no timer of it.)
pub Reach-HasPhase : {c : Lifecycle} → Reach c → HasPhase c
Reach-HasPhase (started is_tls now q h) = start-HasPhase now q h is_tls
Reach-HasPhase (stepped e n before) =
    let at = Reach-HasPhase before in
    subst (λ c. HasPhase (step e c)) (sym at.same)
      (step-HasPhase at.phase at.o at.s at.k at.q at.v at.serving at.calm e
        (subst (Enabled e) at.same n))
