-- ===== src/Recalls/Store/News.antt =====
-- A campaign that a later check finds is announced.
use carma.Base.{
  ℕ, ◌≡◌, refl, sym, ap, ◌∙◌, inl, inr, Bool, true, false, ◌&&◌, ◌||◌, Option, none, some, List, [],
  ◌∷◌, ◌==◌, ==_iff, if◌then◌else◌, Bool-cases, All, All-map, any, any-append, map, arith,
}
use mathlib.Core.Path.{subst}
use carma.Base.Int.{ℤ}
use carma.Base.Text.{Text, text_eq, text_eq_iff, text_eq_refl}
use carma.Model.{Uuid, Instant, Vehicle, Recall, RecallKey}
use carma.Digest.Store.{same_key, recall_key, announced}
use carma.Recalls.Store.{
  Campaign, RecallRow, CheckRow, DismissalRow, RecallTables, campaign_of, key_of, covers,
  is_covered, dismissal_of, has_row, upsert_recall, upsert_all, put_check, check_row, new_rows,
  saved, save_recall_check, find_vehicle, year_covered, listed, select_recalls, unnotified,
  list_unnotified,
}
use carma.Recalls.Store.Mirror.{Mirrors, new_rows-Mirrors, same_key-eq, same_key_refl, after_save}
use carma.Recalls.Store.Baseline.{any-sort_recalls}

or_true : (b : Bool) → (b || true) ≡ true
or_true true = refl
or_true false = refl

has_row-map :
    (k key : RecallKey) (campaign : Campaign) (rows : List RecallRow)
    → has_row k
        (map (λ row. if same_key row.key key then record row { campaign = campaign } else row) rows)
      ≡ has_row k rows
unfolding has_row
has_row-map k key campaign [] = refl
has_row-map k key campaign (row ∷ rows) = elim (Bool-cases (same_key row.key key)) [
  | inl hit ↦ simp (hit, has_row-map k key campaign rows)
  | inr miss ↦ simp (miss, has_row-map k key campaign rows)
]

upsert_recall_mono :
    (k key : RecallKey) (campaign : Campaign) (at : Instant) (dismissals : List DismissalRow)
    (rows : List RecallRow)
    → has_row k rows ≡ true
    → has_row k (upsert_recall key campaign at dismissals rows) ≡ true
unfolding upsert_recall
upsert_recall_mono k key campaign at dismissals rows h = elim (Bool-cases (has_row key rows)) [
  | inl old ↦ simp (old, has_row-map) h
  | inr new ↦
      simp new (unfold has_row in simp (any-append (λ (row : RecallRow). same_key row.key k), h))
]

upsert_recall-has_row :
    (key : RecallKey) (campaign : Campaign) (at : Instant) (dismissals : List DismissalRow)
    (rows : List RecallRow)
    → has_row key (upsert_recall key campaign at dismissals rows) ≡ true
unfolding upsert_recall
upsert_recall-has_row key campaign at dismissals rows = elim (Bool-cases (has_row key rows)) [
  | inl old ↦ simp (old, has_row-map key key campaign rows)
  | inr new ↦ simp new (
      unfold has_row in
      simp (any-append (λ (row : RecallRow). same_key row.key key))
        (ground (arith, same_key_refl key)))
]

upsert_all_mono :
    (k : RecallKey) (id : Uuid) (at : Instant) (dismissals : List DismissalRow)
    (recalls : List Recall) (rows : List RecallRow) (added : ℕ)
    → has_row k rows ≡ true
    → has_row k (upsert_all id at dismissals recalls rows added).0 ≡ true
unfolding upsert_all
upsert_all_mono k id at dismissals [] rows added h = h
upsert_all_mono k id at dismissals (r ∷ recalls) rows added h =
    upsert_all_mono k id at dismissals recalls _ _
      (upsert_recall_mono k (key_of id r) (campaign_of r) at dismissals rows h)

upsert_all-has_row :
    (k : RecallKey) (id : Uuid) (at : Instant) (dismissals : List DismissalRow)
    (recalls : List Recall) (rows : List RecallRow) (added : ℕ)
    → (k.vehicle_id == id) ≡ true
    → any (λ r. text_eq r.campaign_number k.campaign_number) recalls ≡ true
    → has_row k (upsert_all id at dismissals recalls rows added).0 ≡ true
unfolding upsert_all
upsert_all-has_row k id at dismissals [] rows added mine found = cc
upsert_all-has_row k id at dismissals (r ∷ recalls) rows added mine found =
    elim (Bool-cases (text_eq r.campaign_number k.campaign_number)) [
      | inl hit ↦ upsert_all_mono k id at dismissals recalls _ _ (
          subst
            (λ x. has_row x (upsert_recall (key_of id r) (campaign_of r) at dismissals rows) ≡ true)
            (key_hit hit) (upsert_recall-has_row (key_of id r) (campaign_of r) at dismissals rows))
      | inr miss ↦ upsert_all-has_row k id at dismissals recalls _ _ mine (simp miss at found)
    ]
  where
    key_hit : text_eq r.campaign_number k.campaign_number ≡ true → key_of id r ≡ k
    key_hit hit = ground (arith, text_eq_iff r.campaign_number k.campaign_number)

map-covers :
    (c : CheckRow) (checks : List CheckRow)
    → any (λ old. old.vehicle_id == c.vehicle_id) checks ≡ true
    → is_covered c.vehicle_id c.model_year c.make c.model
        (map (λ old. if old.vehicle_id == c.vehicle_id then c else old) checks)
      ≡ true
unfolding is_covered
map-covers c [] h = cc
map-covers c (old ∷ checks) h = elim (Bool-cases (old.vehicle_id == c.vehicle_id)) [
  | inl hit ↦ simp hit (ground (arith, text_eq_refl c.make, text_eq_refl c.model))
  | inr miss ↦ simp miss (map-covers c checks (simp miss at h))
]

put_check-covers :
    (c : CheckRow) (checks : List CheckRow)
    → is_covered c.vehicle_id c.model_year c.make c.model (put_check c checks) ≡ true
unfolding put_check
put_check-covers c checks = elim (Bool-cases (any (λ old. old.vehicle_id == c.vehicle_id) checks)) [
  | inl old ↦ simp old (map-covers c checks old)
  | inr new ↦ simp new (
      unfold is_covered in
      simp
        (any-append (λ (old : CheckRow).
          old.vehicle_id == c.vehicle_id && covers c.model_year c.make c.model old))
        (ground (arith, text_eq_refl c.make, text_eq_refl c.model)))
]

module _ (t : RecallTables) (key : RecallKey) (w : Vehicle)
    (vehicle : find_vehicle key.vehicle_id t.vehicles ≡ some w)
    (covered : year_covered w t.checks w.year ≡ true) (active : w.archived_at ≡ none)
    (unannounced : announced key t.notifications ≡ false) where
  listed-loud :
      (row : RecallRow)
      → same_key row.key key ≡ true
      → row.dismissed_at ≡ none
      → any
          (λ q. same_key (recall_key q) key)
          (listed true (unnotified t) t row (find_vehicle row.key.vehicle_id t.vehicles))
        ≡ true
  listed-loud row same open_row = simp (
    subst (λ k. find_vehicle k.vehicle_id t.vehicles ≡ some w) (sym (same_key-eq row.key key same))
        vehicle,
    covered,
    open_row,
    active,
    subst (λ k. announced k t.notifications ≡ false) (sym (same_key-eq row.key key same))
        unannounced,
    same,
  )

  select_recalls-loud :
      (rows : List RecallRow)
      → has_row key rows ≡ true
      → All (λ row. same_key row.key key ≡ true → row.dismissed_at ≡ none) rows
      → any (λ q. same_key (recall_key q) key) (select_recalls true (unnotified t) t rows) ≡ true
  unfolding select_recalls has_row
  select_recalls-loud [] h all = cc
  select_recalls-loud (row ∷ rows) h all =
      any-append (λ q. same_key (recall_key q) key)
        (listed true (unnotified t) t row (find_vehicle row.key.vehicle_id t.vehicles))
        (select_recalls true (unnotified t) t rows)
      ∙ elim (Bool-cases (same_key row.key key)) [
        | inl same ↦ simp (listed-loud row same (all.0 same))
        | inr other ↦ simp (select_recalls-loud rows (simp other at h) all.1) (or_true _)
      ]

any_of_found :
    (id : Uuid) (vs : List Vehicle) (w : Vehicle)
    → find_vehicle id vs ≡ some w
    → any (λ (v : Vehicle). v.id == id) vs ≡ true
any_of_found id [] w h = cc
any_of_found id (v ∷ vs) w h = elim (Bool-cases (v.id == id)) [
  | inl hit ↦ simp hit
  | inr miss ↦ simp miss (any_of_found id vs w (simp miss at h))
]

id_of_found :
    (id : Uuid) (vs : List Vehicle) (w : Vehicle) → find_vehicle id vs ≡ some w → w.id ≡ id
id_of_found id [] w h = cc
id_of_found id (v ∷ vs) w h = elim (Bool-cases (v.id == id)) [
  | inl hit ↦ ap id_or (sym (simp hit at h)) ∙ (==_iff v.id id).0 hit
  | inr miss ↦ id_of_found id vs w (simp miss at h)
]
  where
    id_or : Option Vehicle → Uuid
    id_or none = id
    id_or (some u) = u.id

-- The key of a campaign on a vehicle.
abbrev pub campaign_key : Vehicle → Text → RecallKey
campaign_key v c = record { vehicle_id = v.id; campaign_number = c }

-- A campaign that a check finds on an active vehicle, for the year, make and model that an earlier
-- check covered, is among those that the digest announces next, if it was neither announced nor
-- dismissed before. `w` is the vehicle's row.
pub found_campaign_listed :
    (v w : Vehicle) (year : ℤ) (recalls : List Recall) (at : Instant) (t : RecallTables) (c : Text)
    → v.year ≡ some year
    → is_covered v.id year v.make v.model t.checks ≡ true
    → find_vehicle v.id t.vehicles ≡ some w
    → w.year ≡ some year
    → w.make ≡ v.make
    → w.model ≡ v.model
    → w.archived_at ≡ none
    → any (λ r. text_eq r.campaign_number c) recalls ≡ true
    → announced (campaign_key v c) t.notifications ≡ false
    → dismissal_of (campaign_key v c) t.dismissals ≡ none
    → Mirrors t
    → any
        (λ q. same_key (recall_key q) (campaign_key v c))
        (list_unnotified (after_save t (save_recall_check v recalls at t)))
      ≡ true
unfolding save_recall_check list_unnotified
found_campaign_listed v w year recalls at t c known earlier vehicle year_eq make_eq model_eq active
      found fresh kept mirrors =
    simp
      (
        known,
        any_of_found v.id t.vehicles w vehicle,
        any-sort_recalls (λ (q : Recall). same_key (recall_key q) (campaign_key v c)),
      )
      (select_recalls-loud (saved v year recalls at t) (campaign_key v c) w vehicle covered active
        (simp earlier fresh) (new_rows v recalls at t).0
        (upsert_all-has_row (campaign_key v c) v.id at t.dismissals recalls _ 0
          ((==_iff v.id v.id).1 refl) found)
        (All-map
          (λ row m same.
            m
            ∙ ap (λ k. dismissal_of k t.dismissals) (same_key-eq row.key (campaign_key v c) same)
            ∙ kept)
          (new_rows v recalls at t).0 (new_rows-Mirrors v recalls at t mirrors)))
  where
    covered : year_covered w (saved v year recalls at t).checks w.year ≡ true
    covered =
        simp (year_eq, id_of_found v.id t.vehicles w vehicle, make_eq, model_eq)
          (put_check-covers (check_row v year at) t.checks)
