-- ===== src/Auth/Users.antt =====
-- The users' table (FindUserByOAuth, FindUserByEmail and UpsertUser of
-- internal/repository/postgres_auth.go). UpsertUser holds a lock, so that it is one step.
pub mod Unique
pub mod Lookup
use carma.Base.{
  Bool, not, ◌&&◌, ◌||◌, Option, none, some, List, [], ◌∷◌, ◌++◌, map, filter, ◌==◌, if◌then◌else◌,
}
use carma.Base.Text.{Text, text_eq, to_lower}
use carma.Model.{Uuid, User}

abbrev pub find_first {ℓ} : {A : Type ℓ} → (A → Bool) → List A → Option A
find_first p [] = none
find_first p (x ∷ xs) = if p x then some x else find_first p xs

abbrev pub has_identity : Text → Text → User → Bool
has_identity provider subject row =
    text_eq row.oauth_provider provider && text_eq row.oauth_subject subject

abbrev pub has_email : Text → User → Bool
has_email email row = text_eq (to_lower row.email) (to_lower email)

unfoldable pub find_user_by_oauth : Text → Text → List User → Option User
find_user_by_oauth provider subject users = find_first (has_identity provider subject) users

unfoldable pub find_user_by_email : Text → List User → Option User
find_user_by_email email users = find_first (has_email email) users

-- The loop over the matching rows: the IDs of the last that match by identity and by email.
unfoldable pub match_loop : User → Uuid × Uuid → List User → Uuid × Uuid
match_loop u ids [] = ids
match_loop u (identity_id, email_id) (row ∷ rows) =
    match_loop u
      (
        (if has_identity u.oauth_provider u.oauth_subject row then row.id else identity_id),
        (if has_email u.email row then row.id else email_id),
      )
      rows

abbrev pub is_match : User → User → Bool
is_match u row = has_identity u.oauth_provider u.oauth_subject row || has_email u.email row

-- UPDATE users SET ... WHERE id=$1
unfoldable pub update_row : Uuid → User → User → User
update_row id u row =
    if row.id == id then record u { id = row.id; created_at = row.created_at } else row

abbrev pub or_else : User → Option User → User
or_else u none = u
or_else u (some row) = row

-- The rest of the transaction, by the IDs that match by identity and by email, uuid.Nil for none.
abbrev pub upsert_at : User → List User → Uuid × Uuid → Option (List User × User)
upsert_at u users (identity_id, email_id) =
    let id = if identity_id == 0 then email_id else identity_id in
    let updated = map (update_row id u) users in
    if not (identity_id == 0) && not (email_id == 0) && not (identity_id == email_id)
    then none
    else if id == 0
    then some (users ++ u ∷ [], u)
    else some (updated, or_else u (find_first (λ row. row.id == id) updated))

-- The new table and the row that is returned; none is ErrConflict.
unfoldable pub upsert_user : User → List User → Option (List User × User)
unfolding match_loop
upsert_user u users = upsert_at u users (match_loop u (0, 0) (filter (is_match u) users))
