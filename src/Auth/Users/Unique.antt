-- ===== src/Auth/Users/Unique.antt =====
-- No two users share an ID, an identity or an address.
use carma.Base.{
  ◌≡◌, refl, sym, ap₂, ◌∙◌, inl, inr, Bool, true, false, ◌&&◌, Option, none, some, List, [], ◌∷◌,
  ◌++◌, map, filter, ◌==◌, ==_iff, if◌then◌else◌, Bool-cases, All, All-map, arith,
}
use carma.Base.Text.{Text, text_eq, text_eq_iff, to_lower}
use carma.Model.{Uuid, User}
use carma.Auth.Users.{
  has_identity, has_email, match_loop, is_match, update_row, upsert_at, upsert_user,
}

abbrev pub same_identity : User → User → Bool
same_identity a b = has_identity b.oauth_provider b.oauth_subject a

abbrev pub same_email : User → User → Bool
same_email a b = has_email b.email a

pub record Differ (a b : User) : Type 0 where
  pub identities : same_identity a b ≡ false
  pub emails : same_email a b ≡ false
  pub ids : (a.id == b.id) ≡ false

-- The unique keys of the table, whose IDs are not uuid.Nil.
abbrev pub Unique : List User → Type 0
Unique [] = Unit
Unique (u ∷ users) = ((u.id == 0) ≡ false) × All (Differ u) users × Unique users

abbrev pub last_id : (User → Bool) → Uuid → List User → Uuid
last_id p id [] = id
last_id p id (row ∷ rows) = last_id p (if p row then row.id else id) rows

-- At most one row passes.
abbrev OneAtMost : (User → Bool) → List User → Type 0
OneAtMost p [] = Unit
OneAtMost p (row ∷ rows) = (p row ≡ true → All (λ s. p s ≡ false) rows) × OneAtMost p rows

text_eq_sym : (s t : Text) → text_eq s t ≡ text_eq t s
text_eq_sym s t = ground (arith, text_eq_iff s t, text_eq_iff t s)

pub match_loop_lem :
    (u : User) (a b : Uuid) (rows : List User)
    → match_loop u (a, b) (filter (is_match u) rows)
      ≡ (last_id (λ r. same_identity r u) a rows, last_id (λ r. same_email r u) b rows)
unfolding match_loop
match_loop_lem u a b [] = refl
match_loop_lem u a b (row ∷ rows) = elim (Bool-cases (same_identity row u)) [
  | inl i ↦ simp i (match_loop_lem u row.id (if same_email row u then row.id else b) rows)
  | inr ni ↦ elim (Bool-cases (same_email row u)) [
    | inl e ↦ simp (ni, e) (match_loop_lem u a row.id rows)
    | inr ne ↦ simp (ni, ne) (match_loop_lem u a b rows)
  ]
]

last_id_none :
    (p : User → Bool) (id : Uuid) (rows : List User)
    → All (λ s. p s ≡ false) rows
    → last_id p id rows ≡ id
last_id_none p id [] h = refl
last_id_none p id (row ∷ rows) h = simp (h.0) (last_id_none p id rows h.1)

-- Each row that passes has the ID that is found.
pub last_id_lem :
    (p : User → Bool) (id : Uuid) (rows : List User)
    → OneAtMost p rows
    → All (λ r. p r ≡ true → r.id ≡ last_id p id rows) rows
last_id_lem p id [] h = tt
last_id_lem p id (row ∷ rows) h = elim (Bool-cases (p row)) [
  | inl hit ↦ simp hit (
    (λ q. sym (last_id_none p row.id rows (h.0 hit))),
    All-map (λ r no_match q. absurd (ground (arith, no_match, q))) rows (h.0 hit),
  )
  | inr miss ↦ (
    (λ q. absurd (ground (arith, miss, q))),
    All-map (λ r k q. k q ∙ skip miss) rows (last_id_lem p id rows h.1),
  )
]
  where
    skip : p row ≡ false → last_id p id rows ≡ last_id p id (row ∷ rows)
    skip miss = simp miss

pub identity_once :
    (u : User) (rows : List User) → Unique rows → OneAtMost (λ r. same_identity r u) rows
identity_once u [] h = tt
identity_once u (row ∷ rows) h = (
  (λ hit. All-map (λ s d. identity_apart u row s hit d.identities) rows h.1),
  identity_once u rows h.2,
)
  where
    identity_apart :
        (u row s : User)
        → same_identity row u ≡ true
        → same_identity row s ≡ false
        → same_identity s u ≡ false
    identity_apart u row s hit apart = ground (
      arith,
      hit,
      apart,
      text_eq_iff row.oauth_provider u.oauth_provider,
      text_eq_iff row.oauth_subject u.oauth_subject,
      text_eq_iff s.oauth_provider u.oauth_provider,
      text_eq_iff s.oauth_subject u.oauth_subject,
      text_eq_iff row.oauth_provider s.oauth_provider,
      text_eq_iff row.oauth_subject s.oauth_subject,
    )

pub email_once : (u : User) (rows : List User) → Unique rows → OneAtMost (λ r. same_email r u) rows
email_once u [] h = tt
email_once u (row ∷ rows) h =
    ((λ hit. All-map (λ s d. email_apart u row s hit d.emails) rows h.1), email_once u rows h.2)
  where
    email_apart :
        (u row s : User)
        → same_email row u ≡ true
        → same_email row s ≡ false
        → same_email s u ≡ false
    email_apart u row s hit apart = ground (
      arith,
      hit,
      apart,
      text_eq_iff (to_lower row.email) (to_lower u.email),
      text_eq_iff (to_lower s.email) (to_lower u.email),
      text_eq_iff (to_lower row.email) (to_lower s.email),
    )

-- The rows that match in one way or the other have the ID.
abbrev MatchIs : User → Uuid → User → Type 0
MatchIs u id row =
    (same_identity row u ≡ true → row.id ≡ id) × (same_email row u ≡ true → row.id ≡ id)

identity_sym : (a b : User) → same_identity a b ≡ same_identity b a
identity_sym a b =
    ap₂ (λ x y. x && y) (text_eq_sym a.oauth_provider b.oauth_provider)
      (text_eq_sym a.oauth_subject b.oauth_subject)

email_sym : (a b : User) → same_email a b ≡ same_email b a
email_sym a b = text_eq_sym (to_lower a.email) (to_lower b.email)

module _ (u : User) (id : Uuid) where
  false_of : (b : Bool) (row : User) → (b ≡ true → row.id ≡ id) → (row.id == id) ≡ false → b ≡ false
  false_of false row h other = refl
  false_of true row h other = absurd (ground (arith, h refl, other))

  apart_of :
      (row : User)
      → MatchIs u id row
      → (row.id == id) ≡ false
      → (same_identity row u ≡ false) × (same_email row u ≡ false)
  apart_of row m other = (false_of _ row m.0 other, false_of _ row m.1 other)

  -- The row that is updated, beside another one.
  update-Differ :
      (a b : User)
      → MatchIs u id a
      → MatchIs u id b
      → Differ a b
      → Differ (update_row id u a) (update_row id u b)
  unfolding update_row
  update-Differ a b ma mb d = elim (Bool-cases (a.id == id)) [
    | inl at ↦ elim (Bool-cases (b.id == id)) [
      | inl bt ↦ absurd (ground (arith, at, bt, d.ids))
      | inr bn ↦
          simp (at, bn)
            (record {
              identities = identity_sym u b ∙ (apart_of b mb bn).0;
              emails = email_sym u b ∙ (apart_of b mb bn).1;
              ids = d.ids;
            })
    ]
    | inr an ↦ elim (Bool-cases (b.id == id)) [
      | inl bt ↦
          simp (an, bt)
            (record {
              identities = (apart_of a ma an).0;
              emails = (apart_of a ma an).1;
              ids = d.ids;
            })
      | inr bn ↦ simp (an, bn) d
    ]
  ]

  update-All :
      (a : User) (rows : List User)
      → MatchIs u id a
      → All (MatchIs u id) rows
      → All (Differ a) rows
      → All (Differ (update_row id u a)) (map (update_row id u) rows)
  update-All a [] ma ms d = tt
  update-All a (b ∷ rows) ma ms d = (update-Differ a b ma ms.0 d.0, update-All a rows ma ms.1 d.1)

  update-id : (row : User) → (update_row id u row).id ≡ row.id
  unfolding update_row
  update-id row = ground arith

  update-Unique :
      (rows : List User)
      → All (MatchIs u id) rows
      → Unique rows
      → Unique (map (update_row id u) rows)
  update-Unique [] ms h = tt
  update-Unique (row ∷ rows) ms h =
      (rw (update-id row) (h.0), update-All row rows ms.0 ms.1 h.1, update-Unique rows ms.1 h.2)

-- A new row that nothing matches.
add-Unique :
    (u : User) (rows : List User)
    → (u.id == 0) ≡ false
    → All (λ r. Differ r u) rows
    → Unique rows
    → Unique (rows ++ u ∷ [])
add-Unique u [] named apart h = (named, tt, tt)
add-Unique u (row ∷ rows) named apart h =
    (h.0, append_one row rows apart.0 h.1, add-Unique u rows named apart.1 h.2)
  where
    append_one :
        (row : User) (rows : List User)
        → Differ row u
        → All (Differ row) rows
        → All (Differ row) (rows ++ u ∷ [])
    append_one row [] d all = (d, tt)
    append_one row (s ∷ rows) d all = (all.0, append_one row rows d all.1)

pub Named : (users : List User) → Unique users → All (λ r. (r.id == 0) ≡ false) users
Named [] h = tt
Named (u ∷ users) h = (h.0, Named users h.2)

-- The table after an upsert, which changes nothing where it conflicts.
abbrev pub table_after : List User → Option (List User × User) → List User
table_after users none = users
table_after users (some (users', row)) = users'

-- Where no row matches, none has the ID.
abbrev pub NewIfNone : User → List User → Type 0
NewIfNone u users = All (λ r. is_match u r ≡ false) users → All (λ r. (r.id == u.id) ≡ false) users

-- A row that passes only with the ID 0 does not pass.
not_of_nil :
    (b : Bool) (row : User) (i : Uuid)
    → (i == 0) ≡ true
    → (row.id == 0) ≡ false
    → (b ≡ true → row.id ≡ i)
    → b ≡ false
not_of_nil false row i nil named h = refl
not_of_nil true row i nil named h = absurd (ground (arith, h refl, nil, named))

module _ (u : User) (i e : Uuid) where
  abbrev pub FoundBy : User → Type 0
  FoundBy row = (same_identity row u ≡ true → row.id ≡ i) × (same_email row u ≡ true → row.id ≡ e)

  pub both :
      (rows : List User)
      → All (λ r. same_identity r u ≡ true → r.id ≡ i) rows
      → All (λ r. same_email r u ≡ true → r.id ≡ e) rows
      → All FoundBy rows
  both [] h k = tt
  both (row ∷ rows) h k = ((h.0, k.0), both rows h.1 k.1)

  pub not_found :
      (rows : List User)
      → (i == 0) ≡ true
      → (e == 0) ≡ true
      → All (λ r. (r.id == 0) ≡ false) rows
      → All FoundBy rows
      → All (λ r. is_match u r ≡ false) rows
  not_found [] ni ne named f = tt
  not_found (row ∷ rows) ni ne named f = (
    rw (
      not_of_nil (same_identity row u) row i ni named.0 (f.0.0),
      not_of_nil (same_email row u) row e ne named.0 (f.0.1),
    ),
    not_found rows ni ne named.1 f.1,
  )

  Differ-of :
      (rows : List User)
      → All (λ r. is_match u r ≡ false) rows
      → All (λ r. (r.id == u.id) ≡ false) rows
      → All (λ r. Differ r u) rows
  Differ-of [] apart fresh = tt
  Differ-of (row ∷ rows) apart fresh = (
    record {
      identities = ground (arith, apart.0);
      emails = ground (arith, apart.0);
      ids = fresh.0;
    },
    Differ-of rows apart.1 fresh.1,
  )

  found_as :
      (id : Uuid) (rows : List User)
      → ((row : User) → (row.id == 0) ≡ false → FoundBy row → MatchIs u id row)
      → All (λ r. (r.id == 0) ≡ false) rows
      → All FoundBy rows
      → All (MatchIs u id) rows
  found_as id [] f named h = tt
  found_as id (row ∷ rows) f named h = (f row named.0 h.0, found_as id rows f named.1 h.1)

  no_row :
      (b : Bool) (row : User) (j id : Uuid)
      → (j == 0) ≡ true
      → (row.id == 0) ≡ false
      → (b ≡ true → row.id ≡ j)
      → b ≡ true
      → row.id ≡ id
  no_row b row j id nil named h hit = absurd (ground (arith, h hit, nil, named))

upsert_at-Unique :
    (u : User) (users : List User) (i e : Uuid)
    → (u.id == 0) ≡ false
    → NewIfNone u users
    → Unique users
    → All (λ r. same_identity r u ≡ true → r.id ≡ i) users
    → All (λ r. same_email r u ≡ true → r.id ≡ e) users
    → Unique (table_after users (upsert_at u users (i, e)))
upsert_at-Unique u users i e named fresh h mi me = elim (Bool-cases (i == 0)) [
  | inl ni ↦ elim (Bool-cases (e == 0)) [
    | inl ne ↦
        simp (ni, ne)
          (add-Unique u users named
            (Differ-of u i e users
              (not_found u i e users ni ne (Named users h) (both u i e users mi me))
              (fresh (not_found u i e users ni ne (Named users h) (both u i e users mi me))))
            h)
    | inr ye ↦
        simp (ni, ye)
          (update-Unique u e users
            (found_as u i e e users (λ r n f. (no_row u i e _ r i e ni n f.0, f.1)) (Named users h)
              (both u i e users mi me))
            h)
  ]
  | inr yi ↦ elim (Bool-cases (e == 0)) [
    | inl ne ↦
        simp (yi, ne)
          (update-Unique u i users
            (found_as u i e i users (λ r n f. (f.0, no_row u i e _ r e i ne n f.1)) (Named users h)
              (both u i e users mi me))
            h)
    | inr ye ↦ elim (Bool-cases (i == e)) [
      | inl same ↦
          simp (yi, ye, same)
            (update-Unique u i users
              (found_as u i e i users (λ r n f. (f.0, λ hit. f.1 hit ∙ sym ((==_iff i e).0 same)))
                (Named users h) (both u i e users mi me))
              h)
      | inr other ↦ simp (yi, ye, other) h
    ]
  ]
]

-- An upsert keeps the unique keys of the users, if its ID is not uuid.Nil and, where it matches no row,
-- is that of no row.
pub upsert_user-Unique :
    (u : User) (users : List User)
    → (u.id == 0) ≡ false
    → NewIfNone u users
    → Unique users
    → Unique (table_after users (upsert_user u users))
unfolding upsert_user
upsert_user-Unique u users named fresh h = rw (match_loop_lem u 0 0 users) (
    upsert_at-Unique u users _ _ named fresh h
      (last_id_lem (λ r. same_identity r u) 0 users (identity_once u users h))
      (last_id_lem (λ r. same_email r u) 0 users (email_once u users h)))
