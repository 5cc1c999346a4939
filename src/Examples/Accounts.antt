-- ===== src/Examples/Accounts.antt =====
-- Sign-ins at work.
use carma.Base.{◌≡◌, refl, ◌↔◌, ◌⊎◌, true, false, none, some, List, [], ◌∷◌, any, count, ltb, arith}
use carma.Base.Text.{Text, text, text_eq, trim_space, to_lower}
use carma.Model.{User, Session}
use carma.Auth.Allowlist.{
  new_allowlist, allowed, email_key, domain_key, behind_at, is_at, allowed_iff,
}
use carma.Auth.Users.{match_loop, find_user_by_oauth, find_user_by_email, upsert_user}
use carma.Auth.Users.Unique.{Unique, table_after, upsert_user-Unique}
use carma.Auth.Sessions.{
  Claims, LoginAnswers, Accounts, Service, admits, find_session, join_user, create_session,
  open_session, user_of_claims, login, validate, logout,
}
use carma.Auth.Sessions.SignIn.{login-validate}
use carma.Auth.Sessions.Facts.{validate_iff, logout-validate}

abbrev family : List Text
family = text "@Carma.example" ∷ []

allowed_iff_example : (allowed (new_allowlist [] family) (text " Sam@carma.example") ≡ true) ↔ (
    (any (λ v. text_eq (email_key v) (email_key (text " Sam@carma.example"))) [] ≡ true)
    ⊎ ((count is_at (email_key (text " Sam@carma.example")) ≡ 1)
        × (any
              (λ v. text_eq (domain_key v) (behind_at (email_key (text " Sam@carma.example"))))
              family
            ≡ true)))
allowed_iff_example = allowed_iff [] family (text " Sam@carma.example")

abbrev sam : User
sam = record {
  id = 3;
  oauth_provider = text "google";
  oauth_subject = text "s";
  email = text "sam@carma.example";
  display_name = text "Sam";
  avatar_url = [];
  created_at = 1;
  updated_at = 1;
  last_login_at = 1;
}

abbrev sam_session : Session
sam_session = record {
  id = 8;
  user_id = 3;
  expires_at = 100;
  created_at = 1;
  user_agent = [];
  ip_address = [];
}

abbrev one_session : Accounts
one_session = record {
  users = sam ∷ [];
  sessions = record { session = sam_session; token_hash = text "t" } ∷ [];
}

-- A hash that is the token itself.
abbrev service : Service
service = record { ttl = 99; policy = none; hash_token = λ t. t }

validate_iff_example :
    ((validate service 50 false (text "t") one_session).1 ≡ some sam)
    ↔ ((ltb 50 100 ≡ true) × (admits none sam.email ≡ true))
unfolding find_session join_user text_eq
validate_iff_example = validate_iff service 50 false b't' [] one_session sam_session sam refl

logout-validate_example :
    (validate service 50 false (text "t") (logout service false (text "t") one_session)).1 ≡ none
unfolding text_eq
logout-validate_example = logout-validate service 50 false (text "t") one_session (ground arith)

-- Sam comes back under a new address.
abbrev sam_moved : User
sam_moved = record sam { email = text "sam@home.example" }

upsert_user-Unique_example : Unique (table_after (sam ∷ []) (upsert_user sam_moved (sam ∷ [])))
unfolding text_eq
upsert_user-Unique_example =
    upsert_user-Unique sam_moved (sam ∷ []) refl (λ none_match. cc) (refl, tt, tt)

abbrev google_claims : Claims
google_claims = record {
  subject = text "k";
  email = text "kim@carma.example";
  name = text "Kim";
  picture = [];
  email_verified = true;
}

abbrev sign_in : LoginAnswers
sign_in = record {
  now = 10;
  user_id = 4;
  session_id = 9;
  oauth_fails = false;
  email_fails = false;
  upsert_fails = false;
  token = some (text "u");
  create_fails = false;
}

abbrev kim : User
kim = user_of_claims service sign_in google_claims

login-validate_example :
    (validate service 50 false (text "u") (login service sign_in google_claims one_session).0).1
    ≡ some kim
unfolding login user_of_claims find_user_by_oauth find_user_by_email upsert_user match_loop
    open_session create_session text_eq trim_space to_lower
login-validate_example =
    login-validate service sign_in google_claims one_session
      (login service sign_in google_claims one_session).0 kim b'u' [] 50 false (refl, tt, tt)
      (refl, tt) refl refl refl refl
