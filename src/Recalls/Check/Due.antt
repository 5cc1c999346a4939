-- ===== src/Recalls/Check/Due.antt =====
-- What a run of the check keeps, and when a vehicle is due again.
use carma.Base.{
  ℕ, suc, ◌≤◌, ◌≡◌, refl, inl, inr, Bool, true, false, Option, none, some, List, [], ◌∷◌, ◌++◌,
  ◌==◌, ==_iff, if◌then◌else◌, Bool-cases, any, map, arith,
}
use carma.Base.Int.{ℤ}
use carma.Base.Result.{Result, ok, err}
use carma.Base.Text.{text_eq_refl}
use carma.Model.{Instant, Vehicle, Recall}
use carma.Nhtsa.Campaigns.{NhtsaRecall, NhtsaError, DayParser, recalls_of}
use carma.Recalls.Store.{CheckRow, RecallTables, put_check, check_row, save_recall_check}
use carma.Recalls.Store.Mirror.{Mirrors, after_save, save-Mirrors}
use carma.Recalls.Check.{
  find_check, is_check_due, VehicleAnswers, CheckAnswers, Checks, to_recalls, or_save_error,
  save_found, check, count_check, check_loop, start_check, check_due, locked_check, run_check,
}

map-find_check :
    (c : CheckRow) (checks : List CheckRow)
    → any (λ old. old.vehicle_id == c.vehicle_id) checks ≡ true
    → find_check c.vehicle_id
        (map (λ old. if old.vehicle_id == c.vehicle_id then c else old) checks)
      ≡ some c
map-find_check c [] h = cc
map-find_check c (old ∷ checks) h = elim (Bool-cases (old.vehicle_id == c.vehicle_id)) [
  | inl hit ↦ simp (hit, (==_iff c.vehicle_id c.vehicle_id).1 refl)
  | inr miss ↦ simp miss (map-find_check c checks (simp miss at h))
]

find_check-snoc :
    (c : CheckRow) (checks : List CheckRow)
    → any (λ old. old.vehicle_id == c.vehicle_id) checks ≡ false
    → find_check c.vehicle_id (checks ++ c ∷ []) ≡ some c
find_check-snoc c [] h = simp ((==_iff c.vehicle_id c.vehicle_id).1 refl)
find_check-snoc c (old ∷ checks) h = elim (Bool-cases (old.vehicle_id == c.vehicle_id)) [
  | inl hit ↦ absurd (ground (arith, h, hit))
  | inr miss ↦ simp miss (find_check-snoc c checks (simp miss at h))
]

find_check-put_check :
    (c : CheckRow) (checks : List CheckRow) → find_check c.vehicle_id (put_check c checks) ≡ some c
unfolding put_check
find_check-put_check c checks =
    elim (Bool-cases (any (λ old. old.vehicle_id == c.vehicle_id) checks)) [
      | inl old ↦ simp old (map-find_check c checks old)
      | inr new ↦ simp new (find_check-snoc c checks new)
    ]

-- A vehicle whose check was saved is not due again while the check is not stale and the vehicle keeps
-- the year, the make and the model that it was checked for; `w` is the vehicle as it is then.
pub saved-not_due :
    (v w : Vehicle) (year : ℤ) (recalls : List Recall) (at stale_before : Instant)
    (t : RecallTables)
    → v.year ≡ some year
    → any (λ (u : Vehicle). u.id == v.id) t.vehicles ≡ true
    → w.id ≡ v.id
    → w.year ≡ some year
    → w.make ≡ v.make
    → w.model ≡ v.model
    → stale_before ≤ at
    → is_check_due stale_before (after_save t (save_recall_check v recalls at t)).checks w ≡ false
unfolding save_recall_check is_check_due
saved-not_due v w year recalls at stale_before t known exists id_eq year_eq make_eq model_eq
      recent =
    simp
      (
        known,
        exists,
        id_eq,
        year_eq,
        find_check-put_check (check_row v year at) t.checks,
        make_eq,
        model_eq,
      )
      (ground (arith, text_eq_refl v.make, text_eq_refl v.model))

module _ (parse : DayParser) where
  saves-Mirrors :
      (s : Checks) (o : Option (RecallTables × ℕ))
      → Mirrors (after_save s.tables o)
      → Mirrors (count_check parse s (or_save_error parse o)).tables
  saves-Mirrors s none k = k
  saves-Mirrors s (some r) k = k

  save_found-Mirrors :
      (a : VehicleAnswers) (v : Vehicle) (s : Checks) (r : Result NhtsaError (List NhtsaRecall))
      → Mirrors s.tables
      → Mirrors (count_check parse s (save_found parse a v s.tables r)).tables
  save_found-Mirrors a v s (err e) h = h
  save_found-Mirrors a v s (ok found) h = elim (Bool-cases a.save_fails) [
    | inl fails ↦ simp fails h
    | inr works ↦ simp works (
        saves-Mirrors s (save_recall_check v (to_recalls v.id found) a.now s.tables)
          (save-Mirrors v (to_recalls v.id found) a.now s.tables h).0)
  ]

  module _ (a : CheckAnswers) where
    check_loop-Mirrors :
        (i : ℕ) (vs : List Vehicle) (s : Checks)
        → Mirrors s.tables
        → Mirrors (check_loop parse a i vs s).tables
    unfolding check_loop check
    check_loop-Mirrors i [] s h = h
    check_loop-Mirrors i (v ∷ vs) s h = elim (Bool-cases (a.vehicle i).canceled) [
      | inl stops ↦ simp stops h
      | inr goes ↦ simp goes (
          check_loop-Mirrors (suc i) vs (count_check parse s (check parse (a.vehicle i) v s.tables))
            (save_found-Mirrors (a.vehicle i) v s (recalls_of parse (a.vehicle i).response) h))
    ]

    check_due-Mirrors : (t : RecallTables) → Mirrors t → Mirrors (check_due parse a t).tables
    check_due-Mirrors t h = elim (Bool-cases a.due_fails) [
      | inl fails ↦ simp fails h
      | inr lists ↦ simp lists (check_loop-Mirrors 0 _ (start_check parse a t) h)
    ]

    locked_check-Mirrors :
        (t : RecallTables) (lock : Option Bool)
        → Mirrors t
        → Mirrors (locked_check parse a t lock).tables
    locked_check-Mirrors t none h = h
    locked_check-Mirrors t (some false) h = h
    locked_check-Mirrors t (some true) h = elim (Bool-cases a.unlock_fails) [
      | inl fails ↦ simp fails (check_due-Mirrors t h)
      | inr works ↦ simp works (check_due-Mirrors t h)
    ]

    -- A run of the check keeps the mirror, whatever fails.
    pub run_check-Mirrors : (t : RecallTables) → Mirrors t → Mirrors (run_check parse a t).tables
    unfolding run_check
    run_check-Mirrors t h = locked_check-Mirrors t a.lock h
