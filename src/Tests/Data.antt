-- ===== src/Tests/Data.antt =====
-- An environment, a store and some requests for the tests.
use bmcweb.Prelude.{
  ℕ, ◌+◌, refl, Bool, true, false, ◌&&◌, none, [], ◌∷◌, Bytes, String, codes, bytes_eq,
  bytes_eq_iff, if◌then◌else◌, arith,
}
use text.Mathlib.Text.{◌==◌ as str_eq}
use bmcweb.Sessions.{
  UserSession, SessionStore, timeout, all_methods, new_session, random_text, empty_store,
}
use bmcweb.Sessions.Keys.{IsIndexed}
use bmcweb.Sessions.Freshness.{IsFresh}
use bmcweb.Http.{Request, verb_get}
use bmcweb.TokenAuth.{Env, IsMemcmp}

abbrev same_block : Bytes → Bytes → ℕ → ℕ
same_block a b n = if bytes_eq a b then 0 else 1

pub same_block-IsMemcmp : IsMemcmp same_block
same_block-IsMemcmp = record {
  same = λ a b e.
      (λ h. (bytes_eq_iff a b).0 (ground arith), λ h. ground (arith, (bytes_eq_iff a b).1 h));
}

abbrev only_root : Bytes → Bytes → Bool
only_root user pass = bytes_eq user (codes "root") && bytes_eq pass (codes "0penBmc")

-- One second after the clock's origin; the device draws 0, 1, 2, ...
abbrev pub bench : Env
bench = record {
  pam_authenticate_user = only_root;
  crypto_memcmp = same_block;
  split = λ header. header ∷ [];
  routes = codes "/app.js" ∷ [];
  clock = λ i. 1_000_000_000 + i;
  draws = λ i. i;
}

-- The same, with other draws.
abbrev pub later_bench : Env
later_bench = record bench { draws = λ i. i + 1 }

abbrev pub root_session : UserSession
root_session = new_session (codes "root") timeout 0 (λ i. i)

abbrev pub one_session : SessionStore
one_session = record {
  last_timeout_update = 0;
  auth_tokens = (codes "0123456789ABCDEFGHIJ", root_session) ∷ [];
  need_write = true;
  auth_methods_config = all_methods;
}

pub one_session-IsIndexed : IsIndexed one_session
unfolding random_text
one_session-IsIndexed = record { distinct = (tt, tt); keyed = (refl, tt) }

pub one_session-IsFresh : IsFresh 0 one_session
one_session-IsFresh = record { swept = omega arith; outlive = (omega arith, tt) }

pub empty_store-IsIndexed : IsIndexed empty_store
empty_store-IsIndexed = record { distinct = tt; keyed = tt }

abbrev pub no_headers : String → Bytes
no_headers key = []

abbrev pub header_of : String → Bytes → String → Bytes
header_of name value key = if str_eq name key then value else []

abbrev pub get_systems : (String → Bytes) → Request
get_systems headers = record {
  method = verb_get;
  url = codes "/redfish/v1/Systems";
  is_secure = true;
  header = headers;
  body = [];
  session = none;
  version = 10;
  is_upgrade = false;
  keep_alive = true;
}
