-- ===== src/Recalls/Store/Baseline.antt =====
-- Which campaigns the digest announces after a check.
use carma.Base.{
  ℕ, ◌≡◌, refl, ap, ◌∙◌, inl, inr, Bool, true, false, not, ◌&&◌, ◌||◌, Option, none, some, List, [],
  ◌∷◌, ◌++◌, ◌==◌, if◌then◌else◌, Bool-cases, All, All-map, any, any-append, arith,
}
use mathlib.Core.Path.{subst}
use carma.Base.Int.{ℤ}
use carma.Base.Text.{text_eq, text_eq_iff, text_eq_refl}
use carma.Model.{Uuid, Instant, Vehicle, Recall, RecallKey}
use carma.Digest.Store.{NotificationRow, same_key, announced}
use carma.Recalls.Store.{
  RecallRow, DismissalRow, RecallTables, campaign_of, key_of, is_covered, drop_unlisted, has_row,
  upsert_recall, upsert_all, announce_baseline, new_rows, saved, save_recall_check, find_vehicle,
  year_covered, to_recall, listed, select_recalls, insert_recall, sort_recalls, unnotified,
  list_unnotified,
}
use carma.Recalls.Store.Mirror.{same_key_refl, All-append, All-map_to, after_save}

-- The campaign of a row of this vehicle is among those that the check found.
abbrev FoundRow : Uuid → List Recall → RecallRow → Type 0
FoundRow id found row =
    (row.key.vehicle_id == id) ≡ true
    → any (λ r. text_eq r.campaign_number row.key.campaign_number) found ≡ true

abbrev Found : List Recall → Recall → Type 0
Found found r = any (λ s. text_eq s.campaign_number r.campaign_number) found ≡ true

Found-cons :
    (r : Recall) (found recalls : List Recall)
    → All (Found found) recalls
    → All (Found (r ∷ found)) recalls
Found-cons r found [] h = tt
Found-cons r found (s ∷ recalls) h = (ground (arith, h.0), Found-cons r found recalls h.1)

Found-self : (recalls : List Recall) → All (Found recalls) recalls
Found-self [] = tt
Found-self (r ∷ recalls) = (
  ground (arith, text_eq_refl r.campaign_number),
  Found-cons r recalls recalls (Found-self recalls),
)

drop_unlisted-FoundRow :
    (id : Uuid) (found : List Recall) (rows : List RecallRow)
    → All (FoundRow id found) (drop_unlisted id found rows)
unfolding drop_unlisted
drop_unlisted-FoundRow id found [] = tt
drop_unlisted-FoundRow id found (row ∷ rows) =
    elim (Bool-cases (
      not (row.key.vehicle_id == id)
      || any (λ r. text_eq r.campaign_number row.key.campaign_number) found)) [
        | inl keep ↦
            simp keep ((λ mine. ground (arith, keep, mine)), drop_unlisted-FoundRow id found rows)
        | inr drop ↦ simp drop (drop_unlisted-FoundRow id found rows)
      ]

upsert_recall-FoundRow :
    (id : Uuid) (found : List Recall) (r : Recall) (at : Instant) (dismissals : List DismissalRow)
    (rows : List RecallRow)
    → Found found r
    → All (FoundRow id found) rows
    → All (FoundRow id found) (upsert_recall (key_of id r) (campaign_of r) at dismissals rows)
unfolding upsert_recall
upsert_recall-FoundRow id found r at dismissals rows f h =
    elim (Bool-cases (has_row (key_of id r) rows)) [
      | inl old ↦ simp old (All-map_to (FoundRow id found) (FoundRow id found) _ keeps rows h)
      | inr new ↦ simp new (All-append (FoundRow id found) rows _ h ((λ mine. f), tt))
    ]
  where
    keeps :
        (row : RecallRow)
        → FoundRow id found row
        → FoundRow id found (
            if same_key row.key (key_of id r) then record row { campaign = campaign_of r } else row)
    keeps row k = elim (Bool-cases (same_key row.key (key_of id r))) [
      | inl hit ↦ simp hit k
      | inr miss ↦ simp miss k
    ]

upsert_all-FoundRow :
    (id : Uuid) (found : List Recall) (at : Instant) (dismissals : List DismissalRow)
    (recalls : List Recall) (rows : List RecallRow) (added : ℕ)
    → All (Found found) recalls
    → All (FoundRow id found) rows
    → All (FoundRow id found) (upsert_all id at dismissals recalls rows added).0
unfolding upsert_all
upsert_all-FoundRow id found at dismissals [] rows added f h = h
upsert_all-FoundRow id found at dismissals (r ∷ recalls) rows added f h =
    upsert_all-FoundRow id found at dismissals recalls _ _ f.1
      (upsert_recall-FoundRow id found r at dismissals rows f.0 h)

announced_more :
    (rows more : List NotificationRow) (k : RecallKey)
    → announced k rows ≡ true
    → announced k (rows ++ more) ≡ true
unfolding announced
announced_more rows more k h = any-append (λ row. same_key row.key k) rows more ∙ rw h refl

-- The baseline is announced, and what was announced stays so.
announce_baseline_mono :
    (id : Uuid) (at : Instant) (recalls : List Recall) (rows : List NotificationRow) (k : RecallKey)
    → announced k rows ≡ true
    → announced k (announce_baseline id at recalls rows) ≡ true
unfolding announce_baseline
announce_baseline_mono id at [] rows k h = h
announce_baseline_mono id at (r ∷ recalls) rows k h =
    elim (Bool-cases (announced (key_of id r) rows)) [
      | inl old ↦ simp old (announce_baseline_mono id at recalls rows k h)
      | inr new ↦ simp new (announce_baseline_mono id at recalls _ k (announced_more rows _ k h))
    ]

abbrev announced_step : Uuid → Instant → Recall → List NotificationRow → List NotificationRow
announced_step id at r rows =
    if announced (key_of id r) rows
    then rows
    else rows ++ record { key = key_of id r; notified_at = at; digest_id = none } ∷ []

announced_now :
    (id : Uuid) (at : Instant) (r : Recall) (rows : List NotificationRow)
    → announced (key_of id r) (announced_step id at r rows) ≡ true
unfolding announced
announced_now id at r rows = elim (Bool-cases (announced (key_of id r) rows)) [
  | inl old ↦ rw (old, old) refl
  | inr new ↦
      simp (new, any-append (λ (row : NotificationRow). same_key row.key (key_of id r)))
        (ground (arith, same_key_refl (key_of id r)))
]

announce_baseline-Found :
    (id : Uuid) (at : Instant) (recalls : List Recall) (rows : List NotificationRow) (k : RecallKey)
    → (k.vehicle_id == id) ≡ true
    → any (λ r. text_eq r.campaign_number k.campaign_number) recalls ≡ true
    → announced k (announce_baseline id at recalls rows) ≡ true
unfolding announce_baseline
announce_baseline-Found id at [] rows k mine found = cc
announce_baseline-Found id at (r ∷ recalls) rows k mine found =
    elim (Bool-cases (text_eq r.campaign_number k.campaign_number)) [
      | inl hit ↦ announce_baseline_mono id at recalls _ k (
          subst (λ x. announced x (announced_step id at r rows) ≡ true) (key_hit hit)
            (announced_now id at r rows))
      | inr miss ↦ announce_baseline-Found id at recalls _ k mine (simp miss at found)
    ]
  where
    key_hit : text_eq r.campaign_number k.campaign_number ≡ true → key_of id r ≡ k
    key_hit hit = ground (arith, text_eq_iff r.campaign_number k.campaign_number)

any-insert_recall :
    (p : Recall → Bool) (r : Recall) (rs : List Recall)
    → any p (insert_recall r rs) ≡ (p r || any p rs)
unfolding insert_recall
any-insert_recall p r [] = refl
any-insert_recall p r (s ∷ rs) = ground (arith, any-insert_recall p r rs)

-- The order of the list does not change what is in it.
pub any-sort_recalls : (p : Recall → Bool) (rs : List Recall) → any p (sort_recalls rs) ≡ any p rs
unfolding sort_recalls
any-sort_recalls p [] = refl
any-sort_recalls p (r ∷ rs) =
    any-insert_recall p r (sort_recalls rs) ∙ ap (λ b. p r || b) (any-sort_recalls p rs)

module _ (t : RecallTables) (id : Uuid) where
  one_quiet :
      (b : Bool) (r : Recall)
      → (b ≡ true → (r.vehicle_id == id) ≡ false)
      → any (λ r. r.vehicle_id == id) (if b then r ∷ [] else []) ≡ false
  one_quiet true r h = rw (h refl) refl
  one_quiet false r h = refl

  listed-quiet :
      (row : RecallRow) (w : Option Vehicle)
      → ((row.key.vehicle_id == id) ≡ true → announced row.key t.notifications ≡ true)
      → any (λ r. r.vehicle_id == id) (listed true (unnotified t) t row w) ≡ false
  listed-quiet row none h = refl
  listed-quiet row (some v) h =
      one_quiet (year_covered v t.checks v.year && unnotified t v row) (to_recall v.vin v row) (λ e.
        elim (Bool-cases (row.key.vehicle_id == id)) [
          | inl mine ↦ absurd (ground (arith, e, h mine))
          | inr other ↦ other
        ])

  select_recalls-quiet :
      (rows : List RecallRow)
      → All
          (λ row. (row.key.vehicle_id == id) ≡ true → announced row.key t.notifications ≡ true)
          rows
      → any (λ r. r.vehicle_id == id) (select_recalls true (unnotified t) t rows) ≡ false
  unfolding select_recalls
  select_recalls-quiet [] h = refl
  select_recalls-quiet (row ∷ rows) h =
      any-append (λ r. r.vehicle_id == id)
        (listed true (unnotified t) t row (find_vehicle row.key.vehicle_id t.vehicles)) _
      ∙ simp (listed-quiet row (find_vehicle row.key.vehicle_id t.vehicles) h.0)
          (select_recalls-quiet rows h.1)

-- The first check of a vehicle for its year, make and model is its baseline: right after it the digest
-- has no campaign of the vehicle to announce.
pub first_check_quiet :
    (v : Vehicle) (year : ℤ) (recalls : List Recall) (at : Instant) (t : RecallTables)
    → v.year ≡ some year
    → is_covered v.id year v.make v.model t.checks ≡ false
    → any (λ (w : Vehicle). w.id == v.id) t.vehicles ≡ true
    → any
        (λ r. r.vehicle_id == v.id)
        (list_unnotified (after_save t (save_recall_check v recalls at t)))
      ≡ false
unfolding save_recall_check list_unnotified
first_check_quiet v year recalls at t known first exists =
    simp (known, exists, any-sort_recalls (λ (r : Recall). r.vehicle_id == v.id))
      (select_recalls-quiet (saved v year recalls at t) v.id (new_rows v recalls at t).0 (
        simp first (
          All-map
            (λ row found mine.
              announce_baseline-Found v.id at recalls t.notifications row.key mine (found mine))
            (new_rows v recalls at t).0
            (upsert_all-FoundRow v.id recalls at t.dismissals recalls
              (drop_unlisted v.id recalls t.recalls) 0 (Found-self recalls)
              (drop_unlisted-FoundRow v.id recalls t.recalls)))))
