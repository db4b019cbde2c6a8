-- ===== src/Server/Sessions.antt =====
-- internal/auth/account.go and session.go, RequestAuth and OnDisconnect of
-- server/service_manager.go: the accounts, and the sessions of the connected clients. The records
-- behind the pointers are never changed once they are stored. A password check takes the clock's
-- readings of NewSession and Activate.
pub mod Granted
pub mod History
use fleare.Prelude.{
  ℕ, Bool, true, false, Option, none, some, List, [], ◌∷◌, if◌then◌else◌, not, ◌||◌, ◌&&◌,
}
use fleare.Prelude.Int.{ℤ}
use fleare.Prelude.Bytes.{Bytes, same}
use fleare.Prelude.Dict.{lookup, insert, without}

pub record User : Type 0 where
  pub username : Bytes
  pub password : Bytes
  pub role : Bytes

abbrev pub Users : Type 0
Users = List (Bytes × User)

-- The errors of RequestAuth and AuthenticateClient.
pub data Refusal : Type 0 where
  unexpected_credentials missing_credentials incorrect_credentials user_not_found : Refusal
  empty_request invalid_length invalid_format invalid_arguments : Refusal

pub data Checked : Type 0 where
  valid : User → Checked
  refused : Refusal → Checked

abbrev pub check_password : Bytes → Option User → Checked
check_password password none = refused incorrect_credentials
check_password password (some user) =
    if not (same user.password password) then refused incorrect_credentials else valid user

abbrev pub or_not_found : Option User → Checked
or_not_found none = refused user_not_found
or_not_found (some user) = valid user

unfoldable pub validate : Bytes → Bytes → Users → Checked
validate username password users = check_password password (lookup username users)

unfoldable pub validate_default : Bytes → Users → Checked
validate_default username users = or_not_found (lookup username users)

abbrev pub get : Bytes → Users → Checked
get username users = or_not_found (lookup username users)

unfoldable pub add : Bytes → Bytes → Bytes → Users → Users
add username password role users =
    insert username (record { username = username; password = password; role = role }) users

abbrev pub delete_found : Bytes → Users → Option User → Option Refusal × Users
delete_found username users none = (some user_not_found, users)
delete_found username users (some user) = (none, without username users)

abbrev pub delete : Bytes → Users → Option Refusal × Users
delete username users = delete_found username users (lookup username users)

pub data SessionStatus : Type 0 where
  pending active expired : SessionStatus

pub record Session : Type 0 where
  pub session_id : Bytes
  pub user : User
  pub status : SessionStatus
  pub created_at : ℤ
  pub last_accessed_at : ℤ

abbrev pub Sessions : Type 0
Sessions = List (Bytes × Session)

-- The readings of the clock: two in NewSession, two in Activate.
pub record Clock : Type 0 where
  pub created : ℤ
  pub accessed : ℤ
  pub activated : ℤ
  pub activated_accessed : ℤ

abbrev pub new_session : Clock → User → Bytes → Session
new_session clock user client_id = record {
  session_id = client_id;
  user = user;
  status = pending;
  created_at = clock.created;
  last_accessed_at = clock.accessed;
}

unfoldable pub activate : Clock → Session → Sessions → Sessions
activate clock session sessions =
    insert (session.session_id)
      (record session {
        status = active;
        created_at = clock.activated;
        last_accessed_at = clock.activated_accessed;
      })
      sessions

abbrev pub expire : Session → Sessions → Sessions
expire session sessions = without session.session_id sessions

abbrev pub expire_found : Bytes → Sessions → Option Session → Sessions
expire_found id sessions none = sessions
expire_found id sessions (some session) = without id sessions

unfoldable pub expire_by_id : Bytes → Sessions → Sessions
expire_by_id id sessions = expire_found id sessions (lookup id sessions)

abbrev pub get_by_id : Bytes → Sessions → Option Session
get_by_id id sessions = lookup id sessions

-- What RequestAuth returns: true, or an error.
pub data Answer : Type 0 where
  granted : Answer
  denied : Refusal → Answer

abbrev pub start_session : Clock → Bytes → Sessions → Checked → Answer × Sessions
start_session clock client_id sessions (valid user) =
    (granted, activate clock (new_session clock user client_id) sessions)
start_session clock client_id sessions (refused r) = (denied r, sessions)

abbrev pub root : Bytes
root = 114 ∷ 111 ∷ 111 ∷ 116 ∷ []

unfoldable pub request_auth :
    Bool → Users → Clock → Bytes → Bytes → Bytes → Sessions → Answer × Sessions
request_auth false users clock username password client_id sessions =
    if not (same username []) || not (same password [])
    then (denied unexpected_credentials, sessions)
    else start_session clock client_id sessions (validate_default root users)
request_auth true users clock username password client_id sessions =
    if same username [] || same password []
    then (denied missing_credentials, sessions)
    else start_session clock client_id sessions (validate username password users)

abbrev pub on_disconnect : Bytes → Sessions → Sessions
on_disconnect client_id sessions = expire_by_id client_id sessions
