-- ===== src/Auth/Sessions/SignIn.antt =====
-- A sign-in leaves a session that its token opens.
use carma.Base.{
  ℕ, ◌+◌, ◌≡◌, ◌≢◌, refl, sym, ap, inl, inr, Bool, true, false, ◌||◌, Option, none, some, List, [],
  ◌∷◌, ◌++◌, any, ltb, ◌==◌, Bool-cases, All, All-map, arith,
}
use mathlib.Core.Path.{subst}
use carma.Base.Result.{Result, ok, err}
use carma.Base.Text.{Text, text, text_eq, text_eq_refl, trim_space}
use carma.Model.{Uuid, Instant, User, Session}
use carma.Auth.Users.{
  find_first, is_match, has_identity, has_email, find_user_by_oauth, find_user_by_email,
  upsert_user,
}
use carma.Auth.Users.Unique.{Unique, NewIfNone}
use carma.Auth.Users.Lookup.{Stored, upsert_user-Stored}
use carma.Auth.Sessions.{
  Claims, SessionRow, Accounts, AuthError, LoginAnswers, Service, admits, known_as, create_session,
  with_user, join_user, find_session, new_session, issue, open_session, user_of_claims, save_user,
  by_email, login_known, login, validate,
}
use carma.Auth.Sessions.Facts.{validate_iff}

-- No row has the hash.
abbrev pub Unused : Text → List SessionRow → Type 0
Unused hash rows = any (λ row. text_eq row.token_hash hash) rows ≡ false

find_hash-snoc :
    (hash : Text) (rows : List SessionRow) (session : Session)
    → Unused hash rows
    → find_first
        (λ row. text_eq row.token_hash hash)
        (rows ++ record { session = session; token_hash = hash } ∷ [])
      ≡ some (record { session = session; token_hash = hash })
find_hash-snoc hash [] session h = simp (text_eq_refl hash)
find_hash-snoc hash (row ∷ rows) session h = elim (Bool-cases (text_eq row.token_hash hash)) [
  | inl hit ↦ absurd (ground (arith, h, hit))
  | inr miss ↦ simp miss (find_hash-snoc hash rows session (simp miss at h))
]

-- No row has the token's hash.
abbrev pub UnusedToken : Service → List SessionRow → Option Text → Type 0
UnusedToken s rows none = Unit
UnusedToken s rows (some token) = Unused (s.hash_token token) rows

module _ (s : Service) (a : LoginAnswers) where
  -- What the token opens, and the users.
  abbrev Opens : Accounts × Result AuthError (User × Text) → Type 0
  Opens (t, err e) = Unit
  Opens (t, ok (u, token)) = find_session (s.hash_token token) t ≡ some (new_session s a u, u)

  issue-Opens :
      (t : Accounts) (u : User) (token : Option Text)
      → Stored (some (t.users, u))
      → UnusedToken s t.sessions token
      → Opens (issue s a t u token)
  unfolding create_session find_session join_user
  issue-Opens t u none stored fresh = tt
  issue-Opens t u (some token) stored fresh = elim (Bool-cases a.create_fails) [
    | inl fails ↦ simp fails tt
    | inr works ↦
        simp (works, find_hash-snoc (s.hash_token token) t.sessions (new_session s a u) fresh)
          (ap (with_user (new_session s a u)) stored)
  ]

  open_session-Opens :
      (t : Accounts) (o : Option (List User × User))
      → Stored o
      → UnusedToken s t.sessions a.token
      → Opens (open_session s a t o)
  unfolding open_session
  open_session-Opens t none stored fresh = tt
  open_session-Opens t (some (users, u)) stored fresh =
      issue-Opens (record t { users = users }) u a.token stored fresh

  save_user-Opens :
      (t : Accounts) (u : User)
      → NewIfNone u t.users
      → Unique t.users
      → UnusedToken s t.sessions a.token
      → Opens (save_user s a t u)
  save_user-Opens t u new_id unique fresh = elim (Bool-cases a.upsert_fails) [
    | inl fails ↦ simp fails tt
    | inr works ↦ simp works (
        open_session-Opens t (upsert_user u t.users) (upsert_user-Stored u t.users new_id unique)
          fresh)
  ]

-- A row that is found is one that matches.
missed :
    (p : User → Bool) (x : User) (users : List User)
    → find_first p users ≡ some x
    → All (λ r. p r ≡ false) users
    → true ≢ true
missed p x [] f h e = cc
missed p x (row ∷ users) f h e = missed p x users (simp (h.0) at f) h.1 e

found-NewIfNone :
    (u x : User) (p : User → Bool) (users : List User)
    → find_first p users ≡ some x
    → ((r : User) → is_match u r ≡ false → p r ≡ false)
    → NewIfNone u users
found-NewIfNone u x p users found imp none_match =
    absurd (missed p x users found (All-map imp users none_match) refl)

not_identity : (b c : Bool) → (b || c) ≡ false → b ≡ false
not_identity false c h = refl
not_identity true c h = cc

not_email : (b c : Bool) → (b || c) ≡ false → c ≡ false
not_email false c h = h
not_email true c h = cc

-- The ID is that of no row.
abbrev pub NewId : Uuid → List User → Type 0
NewId id users = All (λ r. (r.id == id) ≡ false) users

email-NewIfNone :
    (u : User) (users : List User) (o : Option User)
    → find_user_by_email u.email users ≡ o
    → NewId u.id users
    → NewIfNone (known_as u o) users
unfolding find_user_by_email
email-NewIfNone u users none found new_id = λ none_match. new_id
email-NewIfNone u users (some x) found new_id =
    found-NewIfNone (known_as u (some x)) x (has_email u.email) users found (λ r. not_email _ _)

oauth-NewIfNone :
    (u x : User) (users : List User)
    → find_user_by_oauth u.oauth_provider u.oauth_subject users ≡ some x
    → NewIfNone (known_as u (some x)) users
unfolding find_user_by_oauth
oauth-NewIfNone u x users found =
    found-NewIfNone (known_as u (some x)) x (has_identity u.oauth_provider u.oauth_subject) users
      found (λ r. not_identity _ _)

module _ (s : Service) (a : LoginAnswers) (t : Accounts) (unique : Unique t.users)
    (new_id : NewId a.user_id t.users) (fresh : UnusedToken s t.sessions a.token) where
  by_email-Opens : (u : User) → u.id ≡ a.user_id → Opens s a (by_email s a t u)
  by_email-Opens u e = elim (Bool-cases a.email_fails) [
    | inl fails ↦ simp fails tt
    | inr works ↦ simp works (
        save_user-Opens s a t _
          (email-NewIfNone u t.users (find_user_by_email u.email t.users) refl
            (subst (λ id. NewId id t.users) (sym e) new_id))
          unique fresh)
  ]

  login_known-Opens :
      (u : User) (o : Option User)
      → u.id ≡ a.user_id
      → find_user_by_oauth u.oauth_provider u.oauth_subject t.users ≡ o
      → Opens s a (login_known s a t u o)
  login_known-Opens u none e found = by_email-Opens u e
  login_known-Opens u (some x) e found =
      save_user-Opens s a t (known_as u (some x)) (oauth-NewIfNone u x t.users found) unique fresh

  pub login-Opens : (c : Claims) → Opens s a (login s a c t)
  unfolding login user_of_claims
  login-Opens c =
      elim (Bool-cases (text_eq (trim_space c.subject) [] || text_eq (trim_space c.email) [])) [
        | inl blank ↦ simp blank tt
        | inr named ↦ elim (Bool-cases a.oauth_fails) [
          | inl fails ↦ simp (named, fails) tt
          | inr works ↦
              simp (named, works)
                (login_known-Opens (user_of_claims s a c)
                  (find_user_by_oauth (text "google") c.subject t.users) refl refl)
        ]
      ]

-- A sign-in that answers with a token, in a table whose users are distinct, with an ID and a token hash
-- that no row has, leaves a session by which that token is validated as the user who signed in, as long
-- as the session lasts and the allowlist admits the address.
pub login-validate :
    (s : Service) (a : LoginAnswers) (c : Claims) (t t' : Accounts) (u : User) (k : ℕ)
    (token : Text) (now : Instant) (delete_fails : Bool)
    → Unique t.users
    → NewId a.user_id t.users
    → UnusedToken s t.sessions a.token
    → login s a c t ≡ (t', ok (u, k ∷ token))
    → ltb now (a.now + s.ttl) ≡ true
    → admits s.policy u.email ≡ true
    → (validate s now delete_fails (k ∷ token) t').1 ≡ some u
login-validate s a c t t' u k token now delete_fails unique new_id fresh signed live admitted =
    (validate_iff s now delete_fails k token t' (new_session s a u) u
        (subst (Opens s a) signed (login-Opens s a t unique new_id fresh c))).1
      (live, admitted)
