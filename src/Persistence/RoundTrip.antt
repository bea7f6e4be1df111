-- ===== src/Persistence/RoundTrip.antt =====
-- What a restart leaves of the sessions: include/persistent_data_middleware.hpp reads what it wrote.
use bmcweb.Prelude.{
  ℕ, ◌≡◌, ◌≢◌, refl, sym, ap, ◌∙◌, subst, Bool, true, false, Option, none, some, [], ◌∷◌, Bytes,
  bytes_eq, bytes_eq_iff, is_empty, All, if◌then◌else◌, Bool-cases, inl, inr,
}
use bmcweb.Prelude.Assoc.{
  Assoc, lookup, emplace, lookup-emplace, HasDistinctKeys, Lacks, lookup_of_Lacks,
}
use bmcweb.Sessions.{
  UserSession, SessionStore, PersistenceType, timeout, single_request, empty_store, all_methods,
}
use bmcweb.Sessions.Keys.{IsIndexed, IsKeyed}
use bmcweb.Sessions.Json.{
  to_json, blank_session, from_json-to_json, config_from_json-config_to_json,
}
use bmcweb.Persistence.{
  Persistent, Document, shut_down, file_after, restore_sessions, read_item, read_items,
  sessions_json, write_data, read_data,
}

-- What is read back of a session: nothing of one that a single request made, and of any other all but
-- its idle timer, which starts again.
abbrev pub reread : ℕ → Option UserSession → Option UserSession
reread now none = none
reread now (some s) = elim s.persistence [
  | timeout ↦ some (record s { last_updated = now })
  | single_request ↦ none
]

-- The session that `fromJson` makes of what `to_json` wrote.
abbrev back : ℕ → UserSession → UserSession
back now s = elim s.persistence [
  | timeout ↦ record s { last_updated = now; persistence = timeout }
  | single_request ↦ blank_session now
]

abbrev put : UserSession → SessionStore → SessionStore
put s store = record store { auth_tokens = emplace s.session_token s store.auth_tokens }

restore_step :
    (now : ℕ) (s : UserSession) (m : Assoc UserSession) (store : SessionStore)
    → restore_sessions now (to_json s ∷ sessions_json m) store
      ≡ restore_sessions now (sessions_json m) (put (back now s) store)
unfolding restore_sessions
restore_step now s m store = rw (restore_sessions, from_json-to_json now s) refl

restore-nil : (now : ℕ) (store : SessionStore) → restore_sessions now [] store ≡ store
unfolding restore_sessions
restore-nil now store = refl

abbrev or_reread : ℕ → Option UserSession → Option UserSession → Option UserSession
or_reread now (some w) found = some w
or_reread now none found = reread now found

abbrev or_new : Option UserSession → Bool → UserSession → Option UserSession
or_new (some w) b s = some w
or_new none b s = if b then some s else none

module _ (now : ℕ) (s s' : UserSession) where
  or_new_kept :
      (old found : Option UserSession) (b : Bool)
      → reread now (some s) ≡ some s'
      → or_reread now (or_new old b s') found ≡ or_reread now old (if b then some s else found)
  or_new_kept (some w) found b e = refl
  or_new_kept none found true e = sym e
  or_new_kept none found false e = refl

  or_new_lost :
      (old found : Option UserSession) (b : Bool)
      → reread now (some s) ≡ none
      → (b ≡ true → found ≡ none)
      → or_reread now (or_new old false s') found ≡ or_reread now old (if b then some s else found)
  or_new_lost (some w) found b e lost = refl
  or_new_lost none found true e lost = ap (reread now) (lost refl) ∙ sym e
  or_new_lost none found false e lost = refl

emplace_lem :
    (key k : Bytes) (s : UserSession) (m : Assoc UserSession)
    → lookup k (emplace key s m) ≡ or_new (lookup k m) (bytes_eq key k) s
emplace_lem key k s m = lookup-emplace key k s m ∙ same (lookup k m)
  where
    same :
        (o : Option UserSession)
        → elim o [ some w ↦ some w | none ↦ if bytes_eq key k then some s else none ]
          ≡ or_new o (bytes_eq key k) s
    same none = refl
    same (some w) = refl

nil_ne : (k : Bytes) → k ≢ [] → bytes_eq [] k ≡ false
nil_ne [] ne = absurd (ne refl)
nil_ne (c ∷ k) ne = refl

-- What reading one session back adds to what is found under a token.
put_lem :
    (now : ℕ) (k j : Bytes) (s : UserSession) (m : Assoc UserSession) (store : SessionStore)
    → k ≢ []
    → Lacks j m
    → s.session_token ≡ j
    → or_reread now (lookup k (put (back now s) store).auth_tokens) (lookup k m)
      ≡ or_reread now (lookup k store.auth_tokens) (lookup k ((j, s) ∷ m))
unfolding lookup
put_lem now k j s m store ne lacks same = by_type s.persistence refl
  where
    old : Option UserSession
    old = lookup k store.auth_tokens

    by_type :
        (p : PersistenceType)
        → s.persistence ≡ p
        → or_reread now (lookup k (put (back now s) store).auth_tokens) (lookup k m)
          ≡ or_reread now (lookup k store.auth_tokens) (lookup k ((j, s) ∷ m))
    by_type timeout e =
        let s' = record s { last_updated = now; persistence = timeout } in
        ap (λ (t : UserSession). or_reread now (lookup k (put t store).auth_tokens) (lookup k m))
          (rw e refl)
        ∙ ap (λ o. or_reread now o (lookup k m))
            (emplace_lem s.session_token k s' store.auth_tokens)
        ∙ ap (λ t. or_reread now (or_new old (bytes_eq t k) s') (lookup k m)) same
        ∙ or_new_kept now s s' old (lookup k m) (bytes_eq j k)
            (rw e (ap (λ p. some (record s { last_updated = now; persistence = p })) e))
    by_type single_request e =
        ap (λ (t : UserSession). or_reread now (lookup k (put t store).auth_tokens) (lookup k m))
          (rw e refl)
        ∙ ap (λ o. or_reread now o (lookup k m))
            (emplace_lem [] k (blank_session now) store.auth_tokens)
        ∙ ap (λ b. or_reread now (or_new old b (blank_session now)) (lookup k m)) (nil_ne k ne)
        ∙ or_new_lost now s (blank_session now) old (lookup k m) (bytes_eq j k) (rw e refl)
            (λ f. lookup_of_Lacks k m (subst (λ t. Lacks t m) ((bytes_eq_iff j k).0 f) lacks))

restore_lem :
    (now : ℕ) (k : Bytes) (m : Assoc UserSession) (store : SessionStore)
    → k ≢ []
    → HasDistinctKeys m
    → All IsKeyed m
    → lookup k (restore_sessions now (sessions_json m) store).auth_tokens
      ≡ or_reread now (lookup k store.auth_tokens) (lookup k m)
unfolding lookup
restore_lem now k [] store ne d h =
    ap (λ st. lookup k st.auth_tokens) (restore-nil now store)
    ∙ none_more (lookup k store.auth_tokens)
  where
    none_more : (o : Option UserSession) → o ≡ or_reread now o none
    none_more none = refl
    none_more (some w) = refl
restore_lem now k ((j, s) ∷ m) store ne (lacks, d) (same, h) =
    ap (λ st. lookup k st.auth_tokens) (restore_step now s m store)
    ∙ restore_lem now k m (put (back now s) store) ne d h
    ∙ put_lem now k j s m store ne lacks same

restore_config :
    (now : ℕ) (m : Assoc UserSession) (store : SessionStore)
    → (restore_sessions now (sessions_json m) store).auth_methods_config ≡ store.auth_methods_config
restore_config now [] store = ap (λ st. st.auth_methods_config) (restore-nil now store)
restore_config now ((j, s) ∷ m) store =
    ap (λ st. st.auth_methods_config) (restore_step now s m store)
    ∙ restore_config now m (put (back now s) store)

abbrev pub blank : Persistent
blank = record { system_uuid = []; store = empty_store }

-- What `readData` reads of what `writeData` wrote, into a server that starts.
read_items-write_data :
    (now : ℕ) (p : Persistent)
    → read_items now (write_data p) (0, blank) ≡ (
      1,
      record {
        system_uuid = p.system_uuid;
        store =
            restore_sessions now
              (sessions_json p.store.auth_tokens)
              (record empty_store { auth_methods_config = p.store.auth_methods_config });
      },
    )
unfolding read_items read_item write_data
read_items-write_data now p =
    rw (config_from_json-config_to_json p.store.auth_methods_config all_methods) refl

-- What is left of a server by a file that it wrote: its identifier, its methods and, under a token,
-- the session that was there, as it is read back; and nothing is to be written at the start.
abbrev pub IsRestored : ℕ → Bytes → Persistent → Persistent × Option Document → Type 0
IsRestored now k p (after, written) =
    (after.system_uuid ≡ p.system_uuid)
    × (after.store.auth_methods_config ≡ p.store.auth_methods_config)
    × (lookup k after.store.auth_tokens ≡ reread now (lookup k p.store.auth_tokens))
    × (written ≡ none)

read_data-write_data :
    (now : ℕ) (new_uuid k : Bytes) (p : Persistent)
    → IsIndexed p.store
    → is_empty p.system_uuid ≡ false
    → k ≢ []
    → IsRestored now k p (read_data now new_uuid (some (write_data p)) blank)
unfolding read_data lookup
read_data-write_data now new_uuid k p indexed named ne =
    rw (read_items-write_data now p, named)
      (
        refl,
        restore_config now p.store.auth_tokens _,
        restore_lem now k p.store.auth_tokens _ ne indexed.distinct indexed.keyed,
        refl,
      )

-- A server that stops and starts again, with its store indexed by its tokens and an identifier: where
-- the store had asked for a write, it has the same identifier and authentication methods, and under
-- every token but the empty one the session that was there, with its idle timer started again, unless
-- it was of a single request; and nothing is written. Where the store had not asked, it starts from
-- the file that was there before, whatever its sessions were.
pub read_data-shut_down :
    (now : ℕ) (new_uuid k : Bytes) (file : Option Document) (p : Persistent)
    → IsIndexed p.store
    → is_empty p.system_uuid ≡ false
    → k ≢ []
    → (if p.store.need_write
        then IsRestored now k p (read_data now new_uuid (file_after file p) blank)
        else read_data now new_uuid (file_after file p) blank ≡ read_data now new_uuid file blank)
unfolding shut_down write_data
read_data-shut_down now new_uuid k file p indexed named ne = elim (Bool-cases p.store.need_write) [
  | inl e ↦ rw e (read_data-write_data now new_uuid k p indexed named ne)
  | inr e ↦ rw e refl
]
