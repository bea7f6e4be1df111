-- ===== src/Sessions/Freshness.antt =====
-- How old a session in the store of include/sessions.hpp can be: the store sweeps at most once a
-- minute, so it may hold a session that is over its hour, but never by more than that minute.
use bmcweb.Prelude.{ℕ, ◌+◌, ◌≤◌, ◌<◌, inl, inr, List, [], ◌∷◌, Bytes, All, arith, Option-cases}
use bmcweb.Prelude.Assoc.{Assoc, lookup, All-emplace, All-assign, All-erase}
use bmcweb.Sessions.{
  UserSession, SessionStore, timeout_in_minutes, unexpired, apply_session_timeouts, new_session,
  touch, generate_user_session, login_found, login_session_by_token, get_session_by_uid,
  remove_session, get_unique_ids, update_auth_methods_config,
}
use bmcweb.Sessions.Keys.{Call, generates, logs_in, gets_uid, removes, lists, configures, step, run}

-- At a sweep at `swept`, the session was not yet due.
abbrev pub OutlivesSweep : ℕ → Bytes × UserSession → Type 0
OutlivesSweep swept e = swept < e.1.last_updated + timeout_in_minutes

-- The last sweep is not in the future of `clock`, and left no session that was due.
pub record IsFresh (clock : ℕ) (store : SessionStore) : Type 0 where
  pub swept : store.last_timeout_update ≤ clock
  pub outlive : All (OutlivesSweep store.last_timeout_update) store.auth_tokens

All-OutlivesSweep : (now : ℕ) (m : Assoc UserSession) → All (OutlivesSweep now) (unexpired now m)
unfolding unexpired
All-OutlivesSweep now [] = tt
All-OutlivesSweep now ((j, s) ∷ m) = ground (arith, All-OutlivesSweep now m)

pub apply_session_timeouts-IsFresh :
    (clock now : ℕ) (store : SessionStore)
    → clock ≤ now
    → IsFresh clock store
    → IsFresh now (apply_session_timeouts now store)
unfolding apply_session_timeouts
apply_session_timeouts-IsFresh clock now store h v =
    ground (arith, All-OutlivesSweep now store.auth_tokens)

later-IsFresh :
    (clock later : ℕ) (store : SessionStore)
    → clock ≤ later
    → IsFresh clock store
    → IsFresh later store
later-IsFresh clock later store h v = record { swept = omega arith; outlive = v.outlive }

login_found-IsFresh :
    (clock later : ℕ) (token : Bytes) (store : SessionStore)
    → clock ≤ later
    → IsFresh clock store
    → IsFresh later (login_found later token store).0
unfolding login_found
login_found-IsFresh clock later token store h v =
    elim (Option-cases (lookup token store.auth_tokens)) [
      | inl e ↦ rw (e, login_found) (later-IsFresh clock later store h v)
      | inr (s, e) ↦
          rw (e, login_found)
            (record {
              swept = omega arith;
              outlive =
                  All-assign (OutlivesSweep store.last_timeout_update) token (touch later s)
                    store.auth_tokens (omega arith) v.outlive;
            })
    ]

-- Every call keeps the sweep's promise, where the clock does not go back.
pub step-IsFresh :
    (clock now later : ℕ) (call : Call) (store : SessionStore)
    → clock ≤ now
    → now ≤ later
    → IsFresh clock store
    → IsFresh later (step store (now, later, call))
unfolding step generate_user_session login_session_by_token get_session_by_uid remove_session
    get_unique_ids update_auth_methods_config
step-IsFresh clock now later (generates username persistence draws) store h k v = record {
  swept = omega arith;
  outlive =
      All-emplace (OutlivesSweep store.last_timeout_update) _
        (new_session username persistence later draws) store.auth_tokens (omega arith) v.outlive;
}
step-IsFresh clock now later (logs_in token) store h k v = ground (
  arith,
  apply_session_timeouts-IsFresh clock now store h v,
  later-IsFresh now later (apply_session_timeouts now store) k,
  login_found-IsFresh now later token (apply_session_timeouts now store) k,
)
step-IsFresh clock now later (gets_uid uid) store h k v =
    later-IsFresh now later _ k (apply_session_timeouts-IsFresh clock now store h v)
step-IsFresh clock now later (removes session) store h k v = record {
  swept = omega arith;
  outlive =
      All-erase (OutlivesSweep store.last_timeout_update) session.session_token store.auth_tokens
        v.outlive;
}
step-IsFresh clock now later (lists get_all type) store h k v =
    later-IsFresh now later _ k (apply_session_timeouts-IsFresh clock now store h v)
step-IsFresh clock now later (configures config) store h k v = record {
  swept = omega arith;
  outlive = v.outlive;
}

-- The calls of a history read a clock that never goes back; `clock` and `final` are its readings
-- before and after.
abbrev pub IsTimed : ℕ → List (ℕ × ℕ × Call) → ℕ → Type 0
IsTimed clock [] final = clock ≤ final
IsTimed clock ((now, later, call) ∷ calls) final =
    (clock ≤ now) × (now ≤ later) × IsTimed later calls final

pub run-IsFresh :
    (clock final : ℕ) (calls : List (ℕ × ℕ × Call)) (store : SessionStore)
    → IsTimed clock calls final
    → IsFresh clock store
    → IsFresh final (run store calls)
unfolding run
run-IsFresh clock final [] store h v = later-IsFresh clock final store h v
run-IsFresh clock final ((now, later, call) ∷ calls) store (h, k, hs) v =
    run-IsFresh later final calls (step store (now, later, call)) hs
      (step-IsFresh clock now later call store h k v)
