-- ===== src/Connection/Lifecycle/Safety.antt =====
-- What the phases of http/http_connection.h rule out: callbacks on a connection that has deleted
-- itself, connections that wait for nothing, and deadlines of connections that have answered.
use bmcweb.Prelude.{
  ℕ, ◌+◌, ◌≡◌, ◌≢◌, refl, sym, subst, inl, inr, ◌⊎◌, Bool, true, false, length, if◌then◌else◌,
}
use bmcweb.TimerQueue.{TimerQueue}
use bmcweb.Connection.Lifecycle.{Lifecycle, IsAbsent, Reach}
use bmcweb.Connection.Lifecycle.Forms.{
  Phase, shaking, heading, loading, holding, writing_out, handed_over, gone, stranded, in_phase,
  IsTimed, IsCalm, IsServing,
}
use bmcweb.Connection.Lifecycle.Phases.{Reach-HasPhase}

-- What would call the connection back, but for its deadline: an operation, or a handler that ends its
-- response.
abbrev pub callbacks : Lifecycle → ℕ
callbacks c = length c.under_way + (if c.is_held then 1 else 0)

-- What holds of a connection in a phase.
abbrev InPhase : (Lifecycle → Type 0) → Type 0
InPhase P =
    (p : Phase) (o s : Bool) (k : ℕ) (q : TimerQueue) (v : Bool)
    → IsServing p s
    → (v ≡ false → IsCalm p o s k q)
    → P (in_phase p o s k q v)

-- What holds in each phase holds of every connection.
by_phase : (P : Lifecycle → Type 0) → InPhase P → {c : Lifecycle} → Reach c → P c
by_phase P phase_lem r =
    let at = Reach-HasPhase r in
    subst P (sym at.same) (phase_lem at.phase at.o at.s at.k at.q at.v at.serving at.calm)

abbrev DeletedOnce : Lifecycle → Type 0
DeletedOnce c =
    c.deletions ≢ 0
    → (c.deletions ≡ 1) × (callbacks c ≡ 0) × (c.has_overflown ≡ true ⊎ IsAbsent c.queue.dq)

-- A connection deletes itself at most once, and then nothing is left that would call it back: no
-- operation and no handler that holds its response, and no deadline in the timer queue unless, since
-- the connection started, a timer was added that had no room there.
pub deleted_once :
    (c : Lifecycle)
    → Reach c
    → c.deletions ≢ 0
    → (c.deletions ≡ 1) × (callbacks c ≡ 0) × (c.has_overflown ≡ true ⊎ IsAbsent c.queue.dq)
deleted_once c r = by_phase DeletedOnce phase_lem r
  where
    phase_lem : InPhase DeletedOnce
    phase_lem shaking o s k q v u h n = absurd (n refl)
    phase_lem heading o s k q v u h n = absurd (n refl)
    phase_lem loading o s k q v u h n = absurd (n refl)
    phase_lem holding o s k q v u h n = absurd (n refl)
    phase_lem writing_out o s k q v u h n = absurd (n refl)
    phase_lem handed_over o s k q v u h n = absurd (n refl)
    phase_lem gone o s k q true u h n = (refl, refl, inl refl)
    phase_lem gone o s k q false u h n = (refl, refl, inr (h refl))
    phase_lem stranded o s k q v u h n = absurd (n refl)

abbrev NeverStuck : Lifecycle → Type 0
NeverStuck c =
    c.has_overflown ≡ false
    → c.deletions ≡ 0
    → c.is_upgraded ≡ false
    → (callbacks c ≡ 1) × (c.is_held ≡ false ⊎ c.is_open ≡ true)

-- As long as every timer added since the connection started had room in the timer queue, a connection
-- that neither has deleted itself nor has passed an upgrade to the router never gets stuck: exactly one
-- operation is under way or one handler holds the response, and a held response can still be written,
-- since the socket is open.
pub never_stuck :
    (c : Lifecycle)
    → Reach c
    → c.has_overflown ≡ false
    → c.deletions ≡ 0
    → c.is_upgraded ≡ false
    → (callbacks c ≡ 1) × (c.is_held ≡ false ⊎ c.is_open ≡ true)
never_stuck c r = by_phase NeverStuck phase_lem r
  where
    phase_lem : InPhase NeverStuck
    phase_lem shaking o s k q v u h e n m = (refl, inl refl)
    phase_lem heading o s k q v u h e n m = (refl, inl refl)
    phase_lem loading o s k q v u h e n m = (refl, inl refl)
    phase_lem holding o s k q v u h e n m = (refl, inr (h e).0)
    phase_lem writing_out o s k q v u h e n m = (refl, inl refl)
    phase_lem handed_over o s k q v u h e n m = absurd (cc)
    phase_lem gone o s k q v u h e n m = absurd (cc)
    phase_lem stranded o s k q v u h e n m = absurd (h e)

abbrev ServedWithoutDeadline : Lifecycle → Type 0
ServedWithoutDeadline c = c.has_overflown ≡ false → c.has_served ≡ true → IsAbsent c.queue.dq

-- As long as every timer added since the connection started had room in the timer queue, a connection
-- that has handled a request is never again under a deadline, however long it then waits for the
-- next one.
pub served_without_deadline :
    (c : Lifecycle) → Reach c → c.has_overflown ≡ false → c.has_served ≡ true → IsAbsent c.queue.dq
served_without_deadline c r = by_phase ServedWithoutDeadline phase_lem r
  where
    phase_lem : InPhase ServedWithoutDeadline
    phase_lem shaking o s k q v u h e f = absurd (cc)
    phase_lem heading o s k q v u h e f = subst (λ t. IsTimed t k q) f (h e)
    phase_lem loading o s k q v u h e f = subst (λ t. IsTimed t k q) f (h e)
    phase_lem holding o s k q v u h e f = (h e).1
    phase_lem writing_out o s k q v u h e f = (h e).1
    phase_lem handed_over o s k q v u h e f = h e
    phase_lem gone o s k q v u h e f = h e
    phase_lem stranded o s k q v u h e f = absurd (h e)

abbrev UpgradedIsKept : Lifecycle → Type 0
UpgradedIsKept c = c.is_upgraded ≡ true → (c.deletions ≡ 0) × (callbacks c ≡ 0)

-- A connection whose request went to the router as an upgrade stays for good, whether a rule took the
-- socket or not: it is not deleted, and no operation or handler would call it back.
pub upgraded_is_kept :
    (c : Lifecycle) → Reach c → c.is_upgraded ≡ true → (c.deletions ≡ 0) × (callbacks c ≡ 0)
upgraded_is_kept c r = by_phase UpgradedIsKept phase_lem r
  where
    phase_lem : InPhase UpgradedIsKept
    phase_lem shaking o s k q v u h n = absurd (cc)
    phase_lem heading o s k q v u h n = absurd (cc)
    phase_lem loading o s k q v u h n = absurd (cc)
    phase_lem holding o s k q v u h n = absurd (cc)
    phase_lem writing_out o s k q v u h n = absurd (cc)
    phase_lem handed_over o s k q v u h n = (refl, refl)
    phase_lem gone o s k q v u h n = absurd (cc)
    phase_lem stranded o s k q v u h n = absurd (cc)
