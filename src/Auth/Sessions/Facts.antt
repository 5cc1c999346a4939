-- ===== src/Auth/Sessions/Facts.antt =====
-- Which sessions are accepted.
use carma.Base.{
  ℕ, ◌≤◌, ◌≡◌, refl, ◌↔◌, inl, inr, Bool, true, false, not, ◌||◌, Option, none, some, List, [], ◌∷◌,
  filter, Bool-cases, ltb, ◌==◌, if◌then◌else◌, count, ap, arith,
}
use carma.Base.Text.{Text, text_eq}
use carma.Model.{Uuid, Instant, User, Session}
use carma.Auth.Users.{find_first}
use carma.Auth.Sessions.{
  SessionRow, Accounts, Service, admits, find_session, join_user, with_user, delete_session,
  check_session, validate, logout, close_session,
}

-- A token names its user exactly while its session has not expired and the allowlist, which is asked
-- each time, admits the user's address.
pub validate_iff :
    (s : Service) (now : Instant) (delete_fails : Bool) (c : ℕ) (token : Text) (t : Accounts)
    (session : Session) (u : User)
    → find_session (s.hash_token (c ∷ token)) t ≡ some (session, u)
    → ((validate s now delete_fails (c ∷ token) t).1 ≡ some u)
      ↔ ((ltb now session.expires_at ≡ true) × (admits s.policy u.email ≡ true))
unfolding validate check_session
validate_iff s now delete_fails c token t session u found =
    simp found (verdict (ltb now session.expires_at) (admits s.policy u.email))
  where
    verdict :
        (live admitted : Bool)
        → ((if◌then◌else◌ {A = Accounts × Option User}
              (not live || not admitted)
              ((if delete_fails then t else delete_session session.id t), none)
              (t, some u)).1
            ≡ some u)
          ↔ ((live ≡ true) × (admitted ≡ true))
    verdict true true = ((λ h. (refl, refl)), (λ h. refl))
    verdict true false = ((λ h. cc), (λ h. cc))
    verdict false admitted = ((λ h. cc), (λ h. cc))

abbrev pub by_hash : Text → SessionRow → Bool
by_hash hash row = text_eq row.token_hash hash

none_left :
    (hash : Text) (id : Uuid) (rows : List SessionRow)
    → count (by_hash hash) rows ≡ 0
    → find_first (by_hash hash) (filter (λ row. not (row.session.id == id)) rows) ≡ none
none_left hash id [] h = refl
none_left hash id (row ∷ rows) h = ground (arith, none_left hash id rows)

-- The one row of a token goes with its ID.
find-delete :
    (hash : Text) (rows : List SessionRow) (row : SessionRow)
    → count (by_hash hash) rows ≤ 1
    → find_first (by_hash hash) rows ≡ some row
    → find_first (by_hash hash) (filter (λ r. not (r.session.id == row.session.id)) rows) ≡ none
find-delete hash [] row one h = ground arith
find-delete hash (x ∷ rows) row one h = elim (Bool-cases (by_hash hash x)) [
  | inl hit ↦ ground (arith, same_id hit, none_left hash row.session.id rows)
  | inr miss ↦ ground (arith, find-delete hash rows row)
]
  where
    id_of : Option SessionRow → Uuid
    id_of none = 0
    id_of (some r) = r.session.id

    same_id : by_hash hash x ≡ true → x.session.id ≡ row.session.id
    same_id hit = ap id_of (simp hit at h)

-- What closing leaves of the session that was found, by whether its user exists.
close-found :
    (s : Service) (hash : Text) (t : Accounts) (row : SessionRow) (found : Option User)
    → count (by_hash hash) t.sessions ≤ 1
    → find_first (by_hash hash) t.sessions ≡ some row
    → find_first (λ u. u.id == row.session.user_id) t.users ≡ found
    → find_session hash (close_session s false t (join_user t.users (some row))) ≡ none
unfolding find_session join_user delete_session
close-found s hash t row none one e f =
    rw (join_user, f, e) (rw (join_user, f) (ap (with_user row.session) f))
close-found s hash t row (some u) one e f =
    rw (join_user, f, find-delete hash t.sessions row one e) refl

close-find :
    (s : Service) (hash : Text) (t : Accounts) (o : Option SessionRow)
    → count (by_hash hash) t.sessions ≤ 1
    → find_first (by_hash hash) t.sessions ≡ o
    → find_session hash (close_session s false t (join_user t.users o)) ≡ none
unfolding find_session join_user
close-find s hash t none one e = rw e refl
close-find s hash t (some row) one e = close-found s hash t row _ one e refl

-- A token that is logged out names nobody from then on, if the token's hash stands in at most one row
-- and the database deletes it.
pub logout-validate :
    (s : Service) (now : Instant) (delete_fails : Bool) (token : Text) (t : Accounts)
    → count (by_hash (s.hash_token token)) t.sessions ≤ 1
    → (validate s now delete_fails token (logout s false token t)).1 ≡ none
unfolding validate logout check_session find_session
logout-validate s now delete_fails [] t one = refl
logout-validate s now delete_fails (c ∷ token) t one = simp (
    close-find s (s.hash_token (c ∷ token)) t
      (find_first (by_hash (s.hash_token (c ∷ token))) t.sessions) one refl)
