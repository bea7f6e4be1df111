-- ===== src/Connection/Lifecycle/Forms.antt =====
-- The phases of a connection's life: the flags that each fixes, and what it says of the deadline.
use bmcweb.Prelude.{
  ℕ, ◌≡◌, ◌≢◌, refl, sym, ◌∙◌, Bool, true, false, not, ◌||◌, [], ◌∷◌, arith, any, ◌==◌, if_false,
  if◌then◌else◌,
}
use bmcweb.TimerQueue.{TimerQueue, cancel, add_timer, process}
use bmcweb.Connection.Lifecycle.{
  handshake, read_header, read_body, write, Lifecycle, self, accepted, has_room, IsAbsent,
}
use bmcweb.Connection.Lifecycle.Timers.{
  Owns, cancel-IsAbsent, cancel-Owns, cancel_own, add_other, add_other-IsAbsent, process-Owns,
  process-IsAbsent,
}

-- `stranded` is a connection whose socket was closed by a late deadline while a handler held the response.
pub data Phase : Type 0 where
  shaking heading loading holding writing_out handed_over gone stranded : Phase

-- The flags that a phase fixes, and what is under way.
abbrev pub flags : Phase → Lifecycle
flags shaking = record (accepted (record { dq = []; step = 0 })) { under_way = handshake ∷ [] }
flags heading = record (accepted (record { dq = []; step = 0 })) {
  is_reading = true;
  under_way = read_header ∷ [];
}
flags loading = record (accepted (record { dq = []; step = 0 })) {
  is_reading = true;
  under_way = read_body ∷ [];
}
flags holding = record (accepted (record { dq = []; step = 0 })) { is_held = true }
flags writing_out = record (accepted (record { dq = []; step = 0 })) {
  is_writing = true;
  under_way = write ∷ [];
}
flags handed_over = record (accepted (record { dq = []; step = 0 })) { is_upgraded = true }
flags stranded = accepted (record { dq = []; step = 0 })
flags gone = record (accepted (record { dq = []; step = 0 })) { deletions = 1 }

abbrev pub in_phase : Phase → Bool → Bool → ℕ → TimerQueue → Bool → Lifecycle
in_phase p o s k q v = record (flags p) {
  is_open = o;
  has_served = s;
  timer_key = k;
  queue = q;
  has_overflown = v;
}

-- The deadline's timer, if it is in the queue at all, is found under the connection's key until the
-- first request is handled; from then on it is not there.
abbrev pub IsTimed : Bool → ℕ → TimerQueue → Type 0
IsTimed false k q = Owns k q
IsTimed true k q = IsAbsent q.dq

-- What a phase says of the socket and the timers while no timer was added without room: a request is
-- held or answered with the socket open, and there is a deadline only until the first is handled.
abbrev pub IsCalm : Phase → Bool → Bool → ℕ → TimerQueue → Type 0
IsCalm shaking o s k q = IsTimed s k q
IsCalm heading o s k q = IsTimed s k q
IsCalm loading o s k q = IsTimed s k q
IsCalm holding o s k q = (o ≡ true) × IsAbsent q.dq
IsCalm writing_out o s k q = (o ≡ true) × IsAbsent q.dq
IsCalm handed_over o s k q = IsAbsent q.dq
IsCalm gone o s k q = IsAbsent q.dq
IsCalm stranded o s k q = ⊥

-- No request is handled before the handshake, and one is before a response is held or written.
abbrev pub IsServing : Phase → Bool → Type 0
IsServing shaking s = s ≡ false
IsServing holding s = s ≡ true
IsServing writing_out s = s ≡ true
IsServing _ s = Unit

pub record HasPhase (c : Lifecycle) : Type 0 where
  pub phase : Phase
  pub o : Bool
  pub s : Bool
  pub k : ℕ
  pub q : TimerQueue
  pub v : Bool
  pub same : c ≡ in_phase phase o s k q v
  pub serving : IsServing phase s
  pub calm : v ≡ false → IsCalm phase o s k q

pub is :
    (p : Phase) (o s : Bool) (k : ℕ) (q : TimerQueue) (v : Bool)
    → IsServing p s
    → (v ≡ false → IsCalm p o s k q)
    → HasPhase (in_phase p o s k q v)
is p o s k q v u h = record {
  phase = p;
  o = o;
  s = s;
  k = k;
  q = q;
  v = v;
  same = refl;
  serving = u;
  calm = h;
}

pub cancel_timed : (s : Bool) (k : ℕ) (q : TimerQueue) → IsTimed s k q → IsAbsent (cancel k q).dq
cancel_timed false k q h = cancel_own k q h
cancel_timed true k q h = cancel-IsAbsent k q h

pub room_kept : (v b : Bool) → (v || not b) ≡ false → (v ≡ false) × (b ≡ true)
room_kept v b h = ground arith

-- The queue goes on with the timers of the other connections.
cancel_other-IsTimed :
    (s : Bool) (k j : ℕ) (q : TimerQueue) → IsTimed s k q → IsTimed s k (cancel j q)
cancel_other-IsTimed false k j q h = cancel-Owns k j q h
cancel_other-IsTimed true k j q h = cancel-IsAbsent j q h

add_other-IsTimed :
    (s : Bool) (k now f : ℕ) (q : TimerQueue)
    → f ≢ self
    → has_room q ≡ true
    → IsTimed s k q
    → IsTimed s k (add_timer now f q).0
add_other-IsTimed false k now f q ne room h = add_other k now f q ne room h
add_other-IsTimed true k now f q ne room h = add_other-IsAbsent now f q ne room h

process-IsTimed :
    (s : Bool) (k now : ℕ) (q : TimerQueue) → IsTimed s k q → IsTimed s k (process now q).0
process-IsTimed false k now q h = process-Owns k now q h
process-IsTimed true k now q h = (process-IsAbsent now q h).0

module _ (o s : Bool) (k : ℕ) (q : TimerQueue) where
  pub cancel_other-IsCalm : (p : Phase) (j : ℕ) → IsCalm p o s k q → IsCalm p o s k (cancel j q)
  cancel_other-IsCalm shaking j h = cancel_other-IsTimed s k j q h
  cancel_other-IsCalm heading j h = cancel_other-IsTimed s k j q h
  cancel_other-IsCalm loading j h = cancel_other-IsTimed s k j q h
  cancel_other-IsCalm holding j (t, h) = (t, cancel-IsAbsent j q h)
  cancel_other-IsCalm writing_out j (t, h) = (t, cancel-IsAbsent j q h)
  cancel_other-IsCalm handed_over j h = cancel-IsAbsent j q h
  cancel_other-IsCalm gone j h = cancel-IsAbsent j q h
  cancel_other-IsCalm stranded j h = h

  module _ (now f : ℕ) (ne : f ≢ self) (room : has_room q ≡ true) where
    pub add_other-IsCalm : (p : Phase) → IsCalm p o s k q → IsCalm p o s k (add_timer now f q).0
    add_other-IsCalm shaking h = add_other-IsTimed s k now f q ne room h
    add_other-IsCalm heading h = add_other-IsTimed s k now f q ne room h
    add_other-IsCalm loading h = add_other-IsTimed s k now f q ne room h
    add_other-IsCalm holding (t, h) = (t, add_other-IsAbsent now f q ne room h)
    add_other-IsCalm writing_out (t, h) = (t, add_other-IsAbsent now f q ne room h)
    add_other-IsCalm handed_over h = add_other-IsAbsent now f q ne room h
    add_other-IsCalm gone h = add_other-IsAbsent now f q ne room h
    add_other-IsCalm stranded h = h

  -- A tick that calls the deadline closes the socket; one that finds no deadline leaves it open.
  module _ (now : ℕ) (b : Bool) (called : any (λ f. f == self) (process now q).1 ≡ b) where
    still_open : o ≡ true → IsAbsent q.dq → (if b then false else o) ≡ true
    still_open t h = if_false b _ _ (sym called ∙ (process-IsAbsent now q h).1) ∙ t

    pub tick-IsCalm :
        (p : Phase) → IsCalm p o s k q → IsCalm p (if b then false else o) s k (process now q).0
    tick-IsCalm shaking h = process-IsTimed s k now q h
    tick-IsCalm heading h = process-IsTimed s k now q h
    tick-IsCalm loading h = process-IsTimed s k now q h
    tick-IsCalm holding (t, h) = (still_open t h, (process-IsAbsent now q h).0)
    tick-IsCalm writing_out (t, h) = (still_open t h, (process-IsAbsent now q h).0)
    tick-IsCalm handed_over h = (process-IsAbsent now q h).0
    tick-IsCalm gone h = (process-IsAbsent now q h).0
    tick-IsCalm stranded h = h
