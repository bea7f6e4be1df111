-- ===== src/Tests/Sessions.antt =====
-- The session store at small inputs.
use bmcweb.Prelude.{◌≡◌, refl, true, some, none, [], codes, length, if◌then◌else◌, ◌==◌, arith}
use bmcweb.Prelude.Assoc.{lookup}
use bmcweb.Sessions.{timeout, session_token_size, touch, login_session_by_token}
use bmcweb.Sessions.Keys.{IsIndexed, step, logs_in, lists, step-IsIndexed, run}
use bmcweb.Sessions.Freshness.{IsFresh, step-IsFresh}
use bmcweb.Sessions.Login.{
  is_swept, IsBounded, login_session_by_token_lem, login-run-IsBounded, login_live,
}
use bmcweb.Tests.Data.{root_session, one_session, one_session-IsIndexed, one_session-IsFresh}

step-IsIndexed_example : IsIndexed (step one_session (5, 6, logs_in (codes "0123456789ABCDEFGHIJ")))
step-IsIndexed_example =
    step-IsIndexed one_session (5, 6, logs_in (codes "0123456789ABCDEFGHIJ")) one_session-IsIndexed

step-IsFresh_example : IsFresh 6 (step one_session (5, 6, lists true timeout))
step-IsFresh_example =
    step-IsFresh 0 5 6 (lists true timeout) one_session (omega arith) (omega arith)
      one_session-IsFresh

login_session_by_token_lem_example :
    (login_session_by_token 5 6 (codes "0123456789ABCDEFGHIJ") one_session).1 ≡ (
      if length (codes "0123456789ABCDEFGHIJ") == session_token_size
      then elim (lookup (codes "0123456789ABCDEFGHIJ") one_session.auth_tokens) [
        | none ↦ none
        | some s ↦ if is_swept 5 one_session s then none else some (touch 6 s)
      ]
      else none)
login_session_by_token_lem_example =
    login_session_by_token_lem 5 6 (codes "0123456789ABCDEFGHIJ") one_session one_session-IsIndexed

found :
    (login_session_by_token 5 6 (codes "0123456789ABCDEFGHIJ") one_session).1
    ≡ some (touch 6 root_session)
unfolding lookup
found =
    login_live 5 6 (codes "0123456789ABCDEFGHIJ") one_session root_session one_session-IsIndexed
      refl refl (omega arith)

login-run-IsBounded_example :
    IsBounded 5 6 (codes "0123456789ABCDEFGHIJ") (run one_session []) (touch 6 root_session)
unfolding run
login-run-IsBounded_example =
    login-run-IsBounded 0 2 5 6 [] one_session (codes "0123456789ABCDEFGHIJ") (touch 6 root_session)
      one_session-IsIndexed one_session-IsFresh (omega arith) (omega arith) found
