-- ===== src/Auth/Sessions.antt =====
-- Sign-ins and sessions (Service of internal/auth/auth.go, over the statements of
-- internal/repository/postgres_auth.go).
pub mod Facts
pub mod SignIn
use carma.Base.{
  ℕ, ◌+◌, Bool, true, false, not, ◌&&◌, ◌||◌, Option, none, some, List, [], ◌∷◌, ◌++◌, filter,
  length, ltb, leb, ◌==◌, if◌then◌else◌,
}
use carma.Base.Text.{Text, text, text_eq, trim_space, to_lower}
use carma.Base.Result.{Result, ok, err}
use carma.Model.{Uuid, Instant, User, Session}
use carma.Auth.Users.{find_first, find_user_by_oauth, find_user_by_email, upsert_user}

pub record Claims : Type 0 where
  pub subject : Text
  pub email : Text
  pub name : Text
  pub picture : Text
  pub email_verified : Bool

-- A row of user_sessions.
pub record SessionRow : Type 0 where
  pub session : Session
  pub token_hash : Text

pub record Accounts : Type 0 where
  pub users : List User
  pub sessions : List SessionRow

pub data AuthError : Type 0 where
  identity_incomplete user_error conflict token_error session_error : AuthError

-- What a sign-in gets from outside: `token` is that of 32 random bytes, or a failure.
pub record LoginAnswers : Type 0 where
  pub now : Instant
  pub user_id : Uuid
  pub session_id : Uuid
  pub oauth_fails : Bool
  pub email_fails : Bool
  pub upsert_fails : Bool
  pub token : Option Text
  pub create_fails : Bool

-- The service's fields, and the hash of a token.
pub record Service : Type 0 where
  pub ttl : ℕ
  pub policy : Option (Text → Bool)
  pub hash_token : Text → Text

abbrev pub admits : Option (Text → Bool) → Text → Bool
admits none email = true
admits (some test) email = test email

-- The user that the claims stand for, with the ID and the time of the one who is known.
abbrev pub known_as : User → Option User → User
known_as u none = u
known_as u (some existing) = record u { id = existing.id; created_at = existing.created_at }

unfoldable pub create_session : Session → Text → Accounts → Accounts
create_session session token_hash t = record t {
  sessions = t.sessions ++ record { session = session; token_hash = token_hash } ∷ [];
}

-- SELECT ... FROM user_sessions s JOIN users u ON u.id=s.user_id WHERE s.token_hash=$1
abbrev pub with_user : Session → Option User → Option (Session × User)
with_user session none = none
with_user session (some u) = some (session, u)

unfoldable pub join_user : List User → Option SessionRow → Option (Session × User)
join_user users none = none
join_user users (some row) =
    with_user row.session (find_first (λ (u : User). u.id == row.session.user_id) users)

unfoldable pub find_session : Text → Accounts → Option (Session × User)
unfolding join_user
find_session token_hash t =
    join_user t.users (find_first (λ row. text_eq row.token_hash token_hash) t.sessions)

unfoldable pub delete_session : Uuid → Accounts → Accounts
delete_session id t = record t { sessions = filter (λ row. not (row.session.id == id)) t.sessions }

-- The rows that are left, and how many were deleted.
unfoldable pub delete_expired_sessions : Instant → Accounts → Accounts × ℕ
delete_expired_sessions now t = (
  record t { sessions = filter (λ row. not (leb row.session.expires_at now)) t.sessions },
  length (filter (λ row. leb row.session.expires_at now) t.sessions),
)

module _ (s : Service) where
  abbrev pub new_session : LoginAnswers → User → Session
  new_session a u = record {
    id = a.session_id;
    user_id = u.id;
    expires_at = a.now + s.ttl;
    created_at = a.now;
    user_agent = [];
    ip_address = [];
  }

  abbrev pub issue :
      LoginAnswers → Accounts → User → Option Text → Accounts × Result AuthError (User × Text)
  issue a t u none = (t, err token_error)
  issue a t u (some token) =
      if a.create_fails
      then (t, err session_error)
      else (create_session (new_session a u) (s.hash_token token) t, ok (u, token))

  -- From the upsert on.
  unfoldable pub open_session :
      LoginAnswers
      → Accounts
      → Option (List User × User)
      → Accounts × Result AuthError (User × Text)
  open_session a t none = (t, err conflict)
  open_session a t (some (users, u)) = issue a (record t { users = users }) u a.token

  unfoldable pub user_of_claims : LoginAnswers → Claims → User
  user_of_claims a c = record {
    id = a.user_id;
    oauth_provider = text "google";
    oauth_subject = c.subject;
    email = to_lower c.email;
    display_name = c.name;
    avatar_url = c.picture;
    created_at = a.now;
    updated_at = a.now;
    last_login_at = a.now;
  }

  abbrev pub save_user : LoginAnswers → Accounts → User → Accounts × Result AuthError (User × Text)
  save_user a t u =
      if a.upsert_fails then (t, err user_error) else open_session a t (upsert_user u t.users)

  abbrev pub by_email : LoginAnswers → Accounts → User → Accounts × Result AuthError (User × Text)
  by_email a t u =
      if a.email_fails
      then (t, err user_error)
      else save_user a t (known_as u (find_user_by_email u.email t.users))

  -- The user who has the identity, or else the address.
  abbrev pub login_known :
      LoginAnswers → Accounts → User → Option User → Accounts × Result AuthError (User × Text)
  login_known a t u none = by_email a t u
  login_known a t u (some existing) = save_user a t (known_as u (some existing))

  unfoldable pub login :
      LoginAnswers → Claims → Accounts → Accounts × Result AuthError (User × Text)
  login a c t =
      let u = user_of_claims a c in
      if text_eq (trim_space c.subject) [] || text_eq (trim_space c.email) []
      then (t, err identity_incomplete)
      else if a.oauth_fails
      then (t, err user_error)
      else login_known a t u (find_user_by_oauth (text "google") c.subject t.users)

  unfoldable pub dev_login : LoginAnswers → Accounts → Accounts × Result AuthError (User × Text)
  dev_login a t =
      login a
        (record {
          subject = text "local-development";
          email = text "developer@local.carma";
          name = text "Local Developer";
          picture = [];
          email_verified = true;
        })
        t

  -- A session that is found; `delete_fails` is an error that is ignored.
  unfoldable pub check_session :
      Instant → Bool → Accounts → Option (Session × User) → Accounts × Option User
  check_session now delete_fails t none = (t, none)
  check_session now delete_fails t (some (session, u)) =
      if not (ltb now session.expires_at) || not (admits s.policy u.email)
      then ((if delete_fails then t else delete_session session.id t), none)
      else (t, some u)

  -- Validate where the database answers; its failure is Validate's error.
  unfoldable pub validate : Instant → Bool → Text → Accounts → Accounts × Option User
  validate now delete_fails [] t = (t, none)
  validate now delete_fails (c ∷ token) t =
      check_session now delete_fails t (find_session (s.hash_token (c ∷ token)) t)

  abbrev pub close_session : Bool → Accounts → Option (Session × User) → Accounts
  close_session delete_fails t none = t
  close_session delete_fails t (some (session, u)) =
      if delete_fails then t else delete_session session.id t

  unfoldable pub logout : Bool → Text → Accounts → Accounts
  logout delete_fails [] t = t
  logout delete_fails (c ∷ token) t =
      close_session delete_fails t (find_session (s.hash_token (c ∷ token)) t)
