-- ===== src/Tests/Auth.antt =====
-- The authentication of requests at small inputs.
use bmcweb.Prelude.{
  ◌≡◌, ◌⊎◌, inl, inr, refl, false, Option, some, none, [], Bytes, codes, if◌then◌else◌, arith,
  ne_of_bytes_eq,
}
use bmcweb.Prelude.Assoc.{lookup}
use bmcweb.Base64.{base64_decode, decode_from, decode_sextet}
use bmcweb.Sessions.{
  UserSession, timeout, single_request, empty_store, session_token_size, touch, random_text,
  new_session, generate_user_session, login_session_by_token, session_token_size,
}
use bmcweb.Http.{Request, fresh_response, end}
use bmcweb.TokenAuth.{
  perform_xtoken_auth, perform_header_auth, check_password, before_handle, after_handle,
  authenticate, is_on_whitelist, perform_basic_auth, perform_cookie_auth,
}
use bmcweb.TokenAuth.Evidence.{Evidence, authenticate_sound, authenticate_xtoken}
use bmcweb.TokenAuth.Gate.{IsOpen, before_handle_sound, after_handle-perform_basic_auth}
use bmcweb.TokenAuth.Cookies.{cookie-generate_user_session}
use bmcweb.LoginRoute.{Json, Credentials, credentials, welcome, log_in, login, logout}
use bmcweb.LoginRoute.Outcome.{
  IsTurnedAway, IsWelcomed, login_outcome, authenticate-login, login_session-logout,
}
use bmcweb.Tests.Data.{
  bench, later_bench, same_block-IsMemcmp, root_session, one_session, one_session-IsIndexed,
  empty_store-IsIndexed, no_headers, header_of, get_systems,
}
use bmcweb.Sessions.Login.{login_live}
use text.Mathlib.Text.{◌==◌ as str_eq}

-- `curl -u root:0penBmc`
abbrev by_password : Request
by_password = get_systems (header_of "Authorization" (codes "Basic cm9vdDowcGVuQm1j"))

abbrev by_token : Request
by_token = get_systems (header_of "X-Auth-Token" (codes "0123456789ABCDEFGHIJ"))

abbrev later_root : UserSession
later_root = touch 1_000_000_001 root_session

unused : lookup (random_text session_token_size 0 later_bench.draws) one_session.auth_tokens ≡ none
unfolding lookup random_text
unused = refl

authenticated : (authenticate later_bench by_token one_session).1 ≡ some later_root
unfolding lookup
authenticated = authenticate_xtoken later_bench by_token one_session later_root refl refl refl (
    login_live 1_000_000_000 1_000_000_001 (codes "0123456789ABCDEFGHIJ") one_session root_session
      one_session-IsIndexed refl refl (omega arith))

authenticate_sound_example : Evidence later_bench by_token one_session later_root
authenticate_sound_example =
    authenticate_sound later_bench by_token one_session later_root same_block-IsMemcmp
      one_session-IsIndexed refl unused authenticated

passed : (before_handle later_bench by_token fresh_response one_session).1.completed ≡ false
unfolding before_handle is_on_whitelist
passed = rw authenticated

before_handle_sound_example :
    IsOpen later_bench by_token
    ⊎ ((s : UserSession) × ((before_handle later_bench by_token fresh_response
            one_session).0.session
          ≡ some s)
        × Evidence later_bench by_token one_session s)
before_handle_sound_example =
    before_handle_sound later_bench by_token fresh_response one_session same_block-IsMemcmp
      one_session-IsIndexed refl unused passed

-- With no header at all there is no session.
nobody : (authenticate bench (get_systems no_headers) one_session).1 ≡ none
unfolding authenticate perform_xtoken_auth perform_cookie_auth perform_header_auth
nobody = refl

not_listed : is_on_whitelist bench (get_systems no_headers) ≡ false
unfolding is_on_whitelist
not_listed = refl

abbrev password_session : UserSession
password_session = new_session (codes "root") single_request 1_000_000_006 (λ i. i)

by_password_run :
    (perform_basic_auth bench (by_password.header "Authorization") empty_store).1
    ≡ some password_session
unfolding perform_basic_auth base64_decode decode_from decode_sextet check_password
    generate_user_session random_text lookup
by_password_run = refl

after_handle-perform_basic_auth_example :
    (after_handle
      (record by_password { session = some password_session })
      (perform_basic_auth bench (by_password.header "Authorization") empty_store).0).auth_tokens
    ≡ []
unfolding lookup
after_handle-perform_basic_auth_example =
    after_handle-perform_basic_auth bench by_password empty_store password_session refl
      by_password_run

-- A browser with two cookies, which repeats the token against cross-site requests.
abbrev by_cookie : Request
by_cookie = get_systems (λ key.
    if str_eq key "Cookie"
    then codes "SESSION=0123456789ABCDEFGHIJ; lang=en"
    else if str_eq key "X-XSRF-TOKEN"
    then codes "KLMNOPQRSTUVWXYZabcd"
    else [])

cookie-generate_user_session_example :
    let made = generate_user_session (codes "root") timeout 0 bench.draws empty_store in
    (perform_cookie_auth bench by_cookie made.0).1 ≡ some (touch 1_000_000_003 made.1)
unfolding lookup random_text generate_user_session
cookie-generate_user_session_example =
    cookie-generate_user_session bench by_cookie 0 (codes "root") (codes "; lang=en") timeout
      empty_store same_block-IsMemcmp empty_store-IsIndexed refl (omega arith)
      (inr (codes " lang=en", refl)) refl refl

abbrev no_parser : Bytes → Option Json
no_parser text = none

abbrev root_credentials : Credentials
root_credentials = record {
  username = codes "root";
  password = codes "0penBmc";
  looks_like_ibm = false;
}

login_outcome_example :
    IsTurnedAway empty_store
      (login bench no_parser (get_systems no_headers) fresh_response empty_store)
    ⊎ ((c : Credentials) × (credentials no_parser (get_systems no_headers) ≡ some c)
        × IsWelcomed bench c fresh_response empty_store
            (login bench no_parser (get_systems no_headers) fresh_response empty_store))
login_outcome_example =
    login_outcome bench no_parser (get_systems no_headers) fresh_response empty_store refl

welcomed :
    IsWelcomed bench root_credentials fresh_response empty_store
      (log_in bench root_credentials fresh_response empty_store)
unfolding log_in welcome end
welcomed =
    (refl, ne_of_bytes_eq _ _ refl, ne_of_bytes_eq _ _ refl, refl, refl, refl, refl, inl refl)

authenticate-login_example :
    let made = generate_user_session (codes "root") timeout 1_000_000_000 bench.draws empty_store in
    (authenticate bench by_token (log_in bench root_credentials fresh_response empty_store).1).1
    ≡ some (touch 1_000_000_001 made.1)
unfolding lookup random_text generate_user_session
authenticate-login_example =
    authenticate-login bench bench root_credentials fresh_response empty_store by_token
      empty_store-IsIndexed refl welcomed (omega arith) refl refl refl

login_session-logout_example :
    (login_session_by_token 5 6 root_session.session_token
      (logout (record by_token { session = some root_session }) fresh_response one_session).1).1
    ≡ none
login_session-logout_example =
    login_session-logout (record by_token { session = some root_session }) fresh_response
      one_session root_session 5 6 one_session-IsIndexed refl
