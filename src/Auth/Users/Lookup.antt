-- ===== src/Auth/Users/Lookup.antt =====
-- The row that an upsert returns is the table's row with its ID.
use carma.Base.{
  ◌≡◌, ◌≢◌, ◌⊎◌, refl, sym, ap, ◌∙◌, inl, inr, Bool, true, false, not, ◌&&◌, Option, none, some,
  List, [], ◌∷◌, ◌++◌, map, any, ◌==◌, ==_iff, if◌then◌else◌, Bool-cases, Option-cases, All, arith,
}
use carma.Model.{Uuid, User}
use carma.Auth.Users.{find_first, is_match, update_row, or_else, upsert_at, upsert_user}
use carma.Auth.Users.Unique.{
  same_identity, same_email, last_id, match_loop_lem, last_id_lem, identity_once, email_once,
  Unique, NewIfNone, Named, both, not_found,
}

abbrev pub with_id : Uuid → List User → Option User
with_id id users = find_first (λ (r : User). r.id == id) users

-- The returned row stands in the table under its ID.
abbrev pub Stored : Option (List User × User) → Type 0
Stored none = Unit
Stored (some (users, u)) = with_id u.id users ≡ some u

with_id-snoc :
    (u : User) (users : List User)
    → All (λ r. (r.id == u.id) ≡ false) users
    → with_id u.id (users ++ u ∷ []) ≡ some u
with_id-snoc u [] h = simp ((==_iff u.id u.id).1 refl)
with_id-snoc u (row ∷ users) h = simp (h.0) (with_id-snoc u users h.1)

found_id : (id : Uuid) (users : List User) (x : User) → with_id id users ≡ some x → x.id ≡ id
found_id id [] x h = cc
found_id id (row ∷ users) x h = elim (Bool-cases (row.id == id)) [
  | inl hit ↦ ap id_or (sym (simp hit at h)) ∙ (==_iff row.id id).0 hit
  | inr miss ↦ found_id id users x (simp miss at h)
]
  where
    id_or : Option User → Uuid
    id_or none = id
    id_or (some u) = u.id

some_ne : {x : User} → ◌≢◌ {A = Option User} (some x) none
some_ne e = cc

found_again :
    (u : User) (id : Uuid) (users : List User)
    → any (λ (r : User). r.id == id) users ≡ true
    → Stored (some (users, or_else u (with_id id users)))
found_again u id users h = elim (Option-cases (with_id id users)) [
  | inl e ↦ absurd (missing users h e)
  | inr (x, e) ↦ simp e (simp (found_id id users x e) e)
]
  where
    missing :
        (users : List User) → any (λ (r : User). r.id == id) users ≡ true → with_id id users ≢ none
    missing [] k f = cc
    missing (row ∷ users) k f = elim (Bool-cases (row.id == id)) [
      | inl hit ↦ absurd (some_ne (simp hit at f))
      | inr miss ↦ missing users (simp miss at k) (simp miss at f)
    ]

found_or :
    (id k : Uuid) (row : User) (rows : List User) (last : Uuid)
    → ((last ≡ k) ⊎ (any (λ (r : User). r.id == last) rows ≡ true))
    → (k ≡ row.id) ⊎ (k ≡ id)
    → (last ≡ id) ⊎ (any (λ (r : User). r.id == last) (row ∷ rows) ≡ true)
found_or id k row rows last (inl e) (inl r) = inr (ground (arith, e, r))
found_or id k row rows last (inl e) (inr r) = inl (e ∙ r)
found_or id k row rows last (inr h) c = inr (ground (arith, h))

chosen : (b : Bool) (x y : Uuid) → ((if b then x else y) ≡ x) ⊎ ((if b then x else y) ≡ y)
chosen true x y = inl refl
chosen false x y = inr refl

last_id_found :
    (p : User → Bool) (id : Uuid) (rows : List User)
    → (last_id p id rows ≡ id) ⊎ (any (λ (r : User). r.id == last_id p id rows) rows ≡ true)
last_id_found p id [] = inl refl
last_id_found p id (row ∷ rows) =
    found_or id (if p row then row.id else id) row rows
      (last_id p (if p row then row.id else id) rows)
      (last_id_found p (if p row then row.id else id) rows) (chosen (p row) row.id id)

any_id-map :
    (k id : Uuid) (u : User) (rows : List User)
    → any (λ (r : User). r.id == k) (map (update_row id u) rows)
      ≡ any (λ (r : User). r.id == k) rows
unfolding update_row
any_id-map k id u [] = refl
any_id-map k id u (row ∷ rows) = ground (arith, any_id-map k id u rows)

updated_once :
    (u : User) (id : Uuid) (users : List User)
    → any (λ (r : User). r.id == id) users ≡ true
    → Stored
        (some (map (update_row id u) users, or_else u (with_id id (map (update_row id u) users))))
updated_once u id users h =
    found_again u id (map (update_row id u) users) (any_id-map id id u users ∙ h)

upsert_at-Stored :
    (u : User) (users : List User) (i e : Uuid)
    → NewIfNone u users
    → (((i == 0) ≡ true) → ((e == 0) ≡ true) → All (λ r. is_match u r ≡ false) users)
    → ((i ≡ 0) ⊎ (any (λ (r : User). r.id == i) users ≡ true))
    → ((e ≡ 0) ⊎ (any (λ (r : User). r.id == e) users ≡ true))
    → Stored (upsert_at u users (i, e))
upsert_at-Stored u users i e fresh none_found fi fe = elim (Bool-cases (i == 0)) [
  | inl ni ↦ elim (Bool-cases (e == 0)) [
    | inl ne ↦ simp (ni, ne) (with_id-snoc u users (fresh (none_found ni ne)))
    | inr ye ↦ simp (ni, ye) (updated_once u e users (row_of e fe ye))
  ]
  | inr yi ↦ elim (Bool-cases (not (e == 0) && not (i == e))) [
    | inl clash ↦ simp (yi, clash) tt
    | inr fine ↦ simp (yi, fine) (updated_once u i users (row_of i fi yi))
  ]
]
  where
    row_of :
        (j : Uuid)
        → (j ≡ 0) ⊎ (any (λ (r : User). r.id == j) users ≡ true)
        → (j == 0) ≡ false
        → any (λ (r : User). r.id == j) users ≡ true
    row_of j (inl nil) other = absurd (ground (arith, nil, other))
    row_of j (inr found) other = found

pub upsert_user-Stored :
    (u : User) (users : List User) → NewIfNone u users → Unique users → Stored (upsert_user u users)
unfolding upsert_user
upsert_user-Stored u users fresh h = rw (match_loop_lem u 0 0 users) (
    upsert_at-Stored u users _ _ fresh
      (λ ni ne. not_found u _ _ users ni ne (Named users h) (
        both u _ _ users (last_id_lem (λ r. same_identity r u) 0 users (identity_once u users h))
          (last_id_lem (λ r. same_email r u) 0 users (email_once u users h))))
      (last_id_found (λ r. same_identity r u) 0 users)
      (last_id_found (λ r. same_email r u) 0 users))
