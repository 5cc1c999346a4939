-- ===== src/Recalls/Store/Mirror.antt =====
-- The column dismissed_at of the listed campaigns mirrors the table of dismissals.
use carma.Base.{
  ℕ, ◌≡◌, refl, sym, ap, ◌∙◌, inl, inr, Bool, true, false, not, ◌||◌, Option, none, some, List, [],
  ◌∷◌, ◌++◌, ◌==◌, ==_iff, if◌then◌else◌, Bool-cases, All, All-map, any, filter, map, arith,
}
use carma.Base.Int.{ℤ}
use carma.Base.Text.{text_eq_iff}
use carma.Model.{Uuid, Instant, Vehicle, Recall, RecallKey}
use carma.Digest.Store.{same_key}
use carma.Recalls.Store.{
  Campaign, RecallRow, DismissalRow, RecallTables, campaign_of, key_of, drop_unlisted, dismissal_of,
  has_row, upsert_recall, upsert_all, new_rows, save_year, save_recall_check, set_dismissal,
  set_recall_dismissed,
}

abbrev pub MirrorsRow : List DismissalRow → RecallRow → Type 0
MirrorsRow dismissals row = row.dismissed_at ≡ dismissal_of row.key dismissals

-- A listed campaign is dismissed exactly as the dismissals say.
abbrev pub Mirrors : RecallTables → Type 0
Mirrors t = All (MirrorsRow t.dismissals) t.recalls

pub same_key-eq : (a b : RecallKey) → same_key a b ≡ true → a ≡ b
same_key-eq a b h = ground (arith, text_eq_iff a.campaign_number b.campaign_number)

pub same_key_refl : (a : RecallKey) → same_key a a ≡ true
same_key_refl a =
    ground
      (arith, text_eq_iff a.campaign_number a.campaign_number, ==_iff a.vehicle_id a.vehicle_id)

pub same_key_sym : (a b : RecallKey) → same_key a b ≡ same_key b a
same_key_sym a b = ground (
  arith,
  text_eq_iff a.campaign_number b.campaign_number,
  text_eq_iff b.campaign_number a.campaign_number,
)

same_key_at : (d key k : RecallKey) → same_key d key ≡ true → same_key d k ≡ same_key key k
same_key_at d key k h = ap (λ x. same_key x k) (same_key-eq d key h)

same_key_apart :
    (d key k : RecallKey) → same_key d key ≡ false → same_key key k ≡ true → same_key d k ≡ false
same_key_apart d key k h e = ap (λ x. same_key d x) (sym (same_key-eq key k e)) ∙ h

or_head : (a b : Bool) → (a || b) ≡ false → a ≡ false
or_head true b h = h
or_head false b h = refl

or_tail : (a b : Bool) → (a || b) ≡ false → b ≡ false
or_tail true b h = cc
or_tail false b h = h

if_twice {ℓ} :
    {A : Type ℓ} (b : Bool) (x z y : A)
    → (if b then x else y) ≡ (if b then x else if b then z else y)
if_twice true x z y = refl
if_twice false x z y = refl

pub All-filter {ℓ} :
    {A : Type ℓ} (P : A → Type 0) (p : A → Bool) (xs : List A) → All P xs → All P (filter p xs)
All-filter P p [] h = tt
All-filter P p (x ∷ xs) h = elim (Bool-cases (p x)) [
  | inl keep ↦ rw keep (h.0, All-filter P p xs h.1)
  | inr drop ↦ rw drop (All-filter P p xs h.1)
]

pub All-append {ℓ} :
    {A : Type ℓ} (P : A → Type 0) (xs ys : List A) → All P xs → All P ys → All P (xs ++ ys)
All-append P [] ys h k = k
All-append P (x ∷ xs) ys h k = (h.0, All-append P xs ys h.1 k)

-- A map that carries one predicate to another.
pub All-map_to {ℓ} :
    {A : Type ℓ} (P Q : A → Type 0) (f : A → A)
    → ((x : A) → P x → Q (f x))
    → (xs : List A) → All P xs
    → All Q (map f xs)
All-map_to P Q f step [] h = tt
All-map_to P Q f step (x ∷ xs) h = (step x h.0, All-map_to P Q f step xs h.1)

upsert_recall-Mirrors :
    (key : RecallKey) (campaign : Campaign) (at : Instant) (dismissals : List DismissalRow)
    (rows : List RecallRow)
    → All (MirrorsRow dismissals) rows
    → All (MirrorsRow dismissals) (upsert_recall key campaign at dismissals rows)
unfolding upsert_recall
upsert_recall-Mirrors key campaign at dismissals rows h = elim (Bool-cases (has_row key rows)) [
  | inl old ↦
      rw old (
        All-map_to (MirrorsRow dismissals) (MirrorsRow dismissals) _ (λ row k. ground arith) rows h)
  | inr new ↦ rw new (All-append (MirrorsRow dismissals) rows _ h (refl, tt))
]

upsert_all-Mirrors :
    (id : Uuid) (at : Instant) (dismissals : List DismissalRow) (recalls : List Recall)
    (rows : List RecallRow) (added : ℕ)
    → All (MirrorsRow dismissals) rows
    → All (MirrorsRow dismissals) (upsert_all id at dismissals recalls rows added).0
unfolding upsert_all
upsert_all-Mirrors id at dismissals [] rows added h = h
upsert_all-Mirrors id at dismissals (r ∷ recalls) rows added h =
    upsert_all-Mirrors id at dismissals recalls _ _
      (upsert_recall-Mirrors (key_of id r) (campaign_of r) at dismissals rows h)

-- What a dismissal is after it is put or taken away.
put_self :
    (key : RecallKey) (at : Instant) (rows : List DismissalRow)
    → any (λ d. same_key d.key key) rows ≡ true
    → dismissal_of key
        (map (λ d. if same_key d.key key then record d { dismissed_at = at } else d) rows)
      ≡ some at
unfolding dismissal_of
put_self key at [] h = cc
put_self key at (d ∷ rows) h = elim (Bool-cases (same_key d.key key)) [
  | inl hit ↦ simp hit
  | inr miss ↦ simp miss (put_self key at rows (simp miss at h))
]

put-other :
    (key k : RecallKey) (at : Instant) (rows : List DismissalRow)
    → same_key key k ≡ false
    → dismissal_of k
        (map (λ d. if same_key d.key key then record d { dismissed_at = at } else d) rows)
      ≡ dismissal_of k rows
unfolding dismissal_of
put-other key k at [] h = refl
put-other key k at (d ∷ rows) h = elim (Bool-cases (same_key d.key key)) [
  | inl hit ↦ simp (hit, same_key_at d.key key k hit, h) (put-other key k at rows h)
  | inr miss ↦ simp (miss, put-other key k at rows h)
]

dismissal_of-snoc :
    (key k : RecallKey) (at : Instant) (rows : List DismissalRow)
    → any (λ d. same_key d.key key) rows ≡ false
    → dismissal_of k (rows ++ record { key = key; dismissed_at = at } ∷ [])
      ≡ (if same_key key k then some at else dismissal_of k rows)
unfolding dismissal_of
dismissal_of-snoc key k at [] h = refl
dismissal_of-snoc key k at (d ∷ rows) h = elim (Bool-cases (same_key key k)) [
  | inl e ↦
      simp (e, same_key_apart d.key key k (or_head _ _ h) e)
        (simp e at (dismissal_of-snoc key k at rows (or_tail (same_key d.key key) _ h)))
  | inr ne ↦
      simp (ne, simp ne at (dismissal_of-snoc key k at rows (or_tail (same_key d.key key) _ h)))
]

dismissal_of-filter :
    (key k : RecallKey) (rows : List DismissalRow)
    → dismissal_of k (filter (λ d. not (same_key d.key key)) rows)
      ≡ (if same_key key k then none else dismissal_of k rows)
unfolding dismissal_of
dismissal_of-filter key k [] = ground arith
dismissal_of-filter key k (d ∷ rows) = elim (Bool-cases (same_key d.key key)) [
  | inl hit ↦
      simp (hit, same_key_at d.key key k hit)
        (dismissal_of-filter key k rows ∙ if_twice (same_key key k) none (some d.dismissed_at) _)
  | inr miss ↦ elim (Bool-cases (same_key key k)) [
    | inl e ↦
        simp (miss, e, same_key_apart d.key key k miss e)
          (simp e at (dismissal_of-filter key k rows))
    | inr ne ↦ simp (miss, ne, simp ne at (dismissal_of-filter key k rows))
  ]
]

-- Setting a dismissal sets it, and no other.
dismissal_of-set :
    (key k : RecallKey) (at : Option Instant) (rows : List DismissalRow)
    → dismissal_of k (set_dismissal key at rows)
      ≡ (if same_key key k then at else dismissal_of k rows)
unfolding set_dismissal
dismissal_of-set key k none rows = dismissal_of-filter key k rows
dismissal_of-set key k (some at) rows = elim (Bool-cases (any (λ d. same_key d.key key) rows)) [
  | inl old ↦ elim (Bool-cases (same_key key k)) [
    | inl e ↦ simp (old, e, ← same_key-eq key k e) (put_self key at rows old)
    | inr ne ↦ simp (old, ne) (put-other key k at rows ne)
  ]
  | inr new ↦ simp new (dismissal_of-snoc key k at rows new)
]

-- The tables after an operation, which changes nothing where it fails.
abbrev pub after_save : RecallTables → Option (RecallTables × ℕ) → RecallTables
after_save t none = t
after_save t (some (t', added)) = t'

abbrev pub after_set : RecallTables → Option RecallTables → RecallTables
after_set t none = t
after_set t (some t') = t'

pub new_rows-Mirrors :
    (v : Vehicle) (recalls : List Recall) (at : Instant) (t : RecallTables)
    → Mirrors t
    → All (MirrorsRow t.dismissals) (new_rows v recalls at t).0
unfolding drop_unlisted
new_rows-Mirrors v recalls at t h =
    upsert_all-Mirrors v.id at t.dismissals recalls _ 0
      (All-filter (MirrorsRow t.dismissals) _ t.recalls h)

save_year-Mirrors :
    (v : Vehicle) (recalls : List Recall) (at : Instant) (t : RecallTables) (year : Option ℤ)
    → Mirrors t
    → Mirrors (after_save t (save_year v recalls at t year))
      × ((after_save t (save_year v recalls at t year)).dismissals ≡ t.dismissals)
unfolding drop_unlisted
save_year-Mirrors v recalls at t none h = (h, refl)
save_year-Mirrors v recalls at t (some year) h =
    elim (Bool-cases (any (λ (w : Vehicle). w.id == v.id) t.vehicles)) [
      | inl exists ↦ simp exists (new_rows-Mirrors v recalls at t h, refl)
      | inr missing ↦ simp missing (h, refl)
    ]

-- A check keeps the mirror, and the dismissals as they are.
pub save-Mirrors :
    (v : Vehicle) (recalls : List Recall) (at : Instant) (t : RecallTables)
    → Mirrors t
    → Mirrors (after_save t (save_recall_check v recalls at t))
      × ((after_save t (save_recall_check v recalls at t)).dismissals ≡ t.dismissals)
unfolding save_recall_check
save-Mirrors v recalls at t h = save_year-Mirrors v recalls at t v.year h

set_row-Mirrors :
    (key : RecallKey) (at : Option Instant) (dismissals : List DismissalRow) (row : RecallRow)
    → MirrorsRow dismissals row
    → MirrorsRow
        (set_dismissal key at dismissals)
        (if same_key row.key key then record row { dismissed_at = at } else row)
set_row-Mirrors key at dismissals row h = elim (Bool-cases (same_key row.key key)) [
  | inl hit ↦ simp (hit, dismissal_of-set) (rw (same_key_sym key row.key ∙ hit))
  | inr miss ↦ simp (miss, dismissal_of-set) (rw (same_key_sym key row.key ∙ miss) h)
]

-- Dismissing and restoring keep the mirror.
pub set-Mirrors :
    (key : RecallKey) (at : Option Instant) (t : RecallTables)
    → Mirrors t
    → Mirrors (after_set t (set_recall_dismissed key at t))
unfolding set_recall_dismissed
set-Mirrors key at t h = elim (Bool-cases (has_row key t.recalls)) [
  | inl found ↦
      simp found
        (All-map_to (MirrorsRow t.dismissals) _ _ (set_row-Mirrors key at t.dismissals) t.recalls h)
  | inr missing ↦ simp missing h
]

-- Later checks, each with its vehicle, what the NHTSA lists then, and its time.
unfoldable pub run_saves : List (Vehicle × List Recall × Instant) → RecallTables → RecallTables
run_saves [] t = t
run_saves ((v, recalls, at) ∷ saves) t =
    run_saves saves (after_save t (save_recall_check v recalls at t))

run_saves-Mirrors :
    (saves : List (Vehicle × List Recall × Instant)) (t : RecallTables)
    → Mirrors t
    → Mirrors (run_saves saves t) × ((run_saves saves t).dismissals ≡ t.dismissals)
unfolding run_saves
run_saves-Mirrors [] t h = (h, refl)
run_saves-Mirrors ((v, recalls, at) ∷ saves) t h =
    let (mirrors, same) = save-Mirrors v recalls at t h in
    let (mirrors', same') =
      run_saves-Mirrors saves (after_save t (save_recall_check v recalls at t)) mirrors in
    (mirrors', same' ∙ same)

-- A campaign that the household dismisses or restores stays so through any later checks, also where the
-- NHTSA drops the campaign and lists it again: whenever the vehicle lists it, it is as it was set.
pub dismissed_stays :
    (key : RecallKey) (at : Option Instant) (t : RecallTables)
    (saves : List (Vehicle × List Recall × Instant))
    → Mirrors t
    → has_row key t.recalls ≡ true
    → All
        (λ row. same_key row.key key ≡ true → row.dismissed_at ≡ at)
        (run_saves saves (after_set t (set_recall_dismissed key at t))).recalls
dismissed_stays key at t saves h found =
    All-map
      (λ row k same.
        k
        ∙ ap (dismissal_of row.key) (kept ∙ set)
        ∙ dismissal_of-set key row.key at t.dismissals
        ∙ rw (same_key_sym key row.key ∙ same))
      (run_saves saves (after_set t (set_recall_dismissed key at t))).recalls
      (run_saves-Mirrors saves _ (set-Mirrors key at t h)).0
  where
    kept :
        (run_saves saves (after_set t (set_recall_dismissed key at t))).dismissals
        ≡ (after_set t (set_recall_dismissed key at t)).dismissals
    kept = (run_saves-Mirrors saves _ (set-Mirrors key at t h)).1

    set :
        (after_set t (set_recall_dismissed key at t)).dismissals ≡ set_dismissal key at t.dismissals
    set = unfold set_recall_dismissed in simp found
