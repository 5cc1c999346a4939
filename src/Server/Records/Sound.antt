-- ===== src/Server/Records/Sound.antt =====
-- The amounts of the store stay in range, whatever is posted, and so the exports stay plain.
use carma.Base.{
  ◌≡◌, refl, inl, inr, Bool, not, Option, none, some, List, [], ◌∷◌, ◌++◌, ◌==◌, Bool-cases, map,
  filter, All, All-filter, any,
}
use carma.Base.Result.{Result, ok, err}
use carma.Base.Text.{Text}
use carma.Model.{Uuid, Record, Attachment, Vehicle}
use carma.Garage.Writes.{settle_keeps}
use carma.Garage.{Write, Garage, GarageError, vehicle_row}
use carma.Garage.Reminders.{type_row}
use carma.Garage.Records.{
  find_record, edit_columns, with_record, create_record, with_edit, edit_row, update_record,
  delete_record,
}
use carma.Export.Csv.Formulas.{HasAmounts}
use carma.Server.{Parsers, FormError, requested_vehicle}
use carma.Server.Records.{
  record_from_form, RecordRequest, requested_record, created, save_record, create_checked,
  new_record, create_for, serve_create, edit_of, updated, update_checked, update_old, serve_update,
  deleted_record, delete_old, serve_delete,
}
use carma.Model.{RecordQuery, User, ServiceType}
use carma.Garage.Records.Search.{
  user_row, insert_record, sort_records, cons_some, with_names, select_record, select_records,
  is_asked_for, comes_before, list_records,
}
use carma.Export.Csv.{csv_file}
use carma.Export.Csv.Formulas.{Plain, csv_file-Plain}
use carma.Server.Records.Amounts.{record_from_form-HasAmounts}

-- All amounts of the logbook are nonnegative int64 values.
abbrev pub Sound : {F : Type 0} → Garage F → Type 0
Sound t = All HasAmounts t.records

All-snoc :
    (r : Record) (records : List Record)
    → All HasAmounts records
    → HasAmounts r
    → All HasAmounts (records ++ r ∷ [])
All-snoc r [] h k = (k, tt)
All-snoc r (s ∷ records) h k = (h.0, All-snoc r records h.1 k)

edit_columns-HasAmounts :
    (r row : Record) → HasAmounts r → HasAmounts row → HasAmounts (edit_columns r row)
edit_columns-HasAmounts r row h k = elim (Bool-cases (row.id == r.id)) [
  | inl same ↦ simp same (record { odometer = h.odometer; cost = h.cost; warranty = h.warranty })
  | inr other ↦ simp other k
]

All-edit :
    (r : Record) (records : List Record)
    → HasAmounts r
    → All HasAmounts records
    → All HasAmounts (map (edit_columns r) records)
All-edit r [] h k = tt
All-edit r (row ∷ records) h k = (edit_columns-HasAmounts r row h k.0, All-edit r records h k.1)

module _ {F : Type 0} where
  create_record-Sound :
      (r : Record) (attachments : List Attachment) (write : Write) (t : Garage F)
      → HasAmounts r
      → Sound t
      → Sound (create_record r attachments write t).0
  unfolding create_record with_record
  create_record-Sound r attachments write t h k =
      settle_keeps Sound write t (with_record r attachments t) r k (All-snoc r t.records k h)

  edit_row-Sound :
      (r : Record) (write : Write) (t : Garage F) (o : Option Record)
      → HasAmounts r
      → Sound t
      → Sound (edit_row r write t o).0
  unfolding with_edit
  edit_row-Sound r write t none h k = k
  edit_row-Sound r write t (some old) h k =
      settle_keeps Sound write t (with_edit r old t) r k (All-edit r t.records h k)

  update_record-Sound :
      (r : Record) (write : Write) (t : Garage F)
      → HasAmounts r
      → Sound t
      → Sound (update_record r write t).0
  unfolding update_record
  update_record-Sound r write t h k = edit_row-Sound r write t (find_record r.id t.records) h k

  delete_record-Sound :
      (id : Uuid) (write : Write) (t : Garage F) → Sound t → Sound (delete_record id write t).0
  unfolding delete_record
  delete_record-Sound id write t k =
      elim (Bool-cases (any (λ (r : Record). r.id == id) t.records)) [
        | inl there ↦ rw there (
            settle_keeps Sound write t _ _ k
              (All-filter HasAmounts (λ (r : Record). not (r.id == id)) t.records k))
        | inr absent ↦ rw absent k
      ]

  created_garage : (o : Garage F × Result GarageError Record) → (created o).garage ≡ o.0
  created_garage (t, ok r) = refl
  created_garage (t, err e) = refl

  updated_garage : (o : Garage F × Result GarageError Record) → (updated o).garage ≡ o.0
  updated_garage (t, ok r) = refl
  updated_garage (t, err e) = refl

  deleted_garage :
      (id : Uuid) (o : Garage F × Result GarageError (List Text))
      → (deleted_record id o).garage ≡ o.0
  deleted_garage id (t, ok keys) = refl
  deleted_garage id (t, err e) = refl

  -- A handler that answers at once leaves the store.
  create_for-Sound :
      (p : Parsers) (q : RecordRequest) (t : Garage F) (o : Result GarageError Vehicle)
      → Sound t
      → Sound (create_for p q t o).garage
  create_for-Sound p q t (err e) k = k
  create_for-Sound p q t (ok v) k = elim (Bool-cases q.is_form) [
    | inr no_form ↦ rw no_form k
    | inl form ↦ rw form (checked (record_from_form p q.form).1)
  ]
    where
      posted : Record
      posted = new_record q v (record_from_form p q.form).0

      amounts : HasAmounts (record_from_form p q.form).0 → HasAmounts posted
      amounts h = record { odometer = h.odometer; cost = h.cost; warranty = h.warranty }

      saved : (o : Result (List Text) (List Attachment)) → Sound (save_record q t posted o).garage
      saved (err keys) = k
      saved (ok attachments) = rw (created_garage (create_record posted attachments q.write t)) (
          create_record-Sound posted attachments q.write t
            (amounts (record_from_form-HasAmounts p q.form)) k)

      checked : (msg : Option FormError) → Sound (create_checked q t posted msg).garage
      checked (some e) = k
      checked none = saved q.uploads

  update_old-Sound :
      (p : Parsers) (q : RecordRequest) (t : Garage F) (o : Result GarageError Record)
      → Sound t
      → Sound (update_old p q t o).garage
  update_old-Sound p q t (err e) k = k
  update_old-Sound p q t (ok old) k = elim (Bool-cases q.is_form) [
    | inr no_form ↦ rw no_form k
    | inl form ↦ rw form (
        checked (record_from_form p q.form).1
          (requested_vehicle (some old.vehicle_id) q.vehicle_fails t))
  ]
    where
      posted : Record
      posted = edit_of q old (record_from_form p q.form).0

      amounts : HasAmounts (record_from_form p q.form).0 → HasAmounts posted
      amounts h = record { odometer = h.odometer; cost = h.cost; warranty = h.warranty }

      checked :
          (msg : Option FormError) (o : Result GarageError Vehicle)
          → Sound (update_checked q t posted msg o).garage
      checked msg (err e) = k
      checked (some e) (ok v) = k
      checked none (ok v) =
          rw (updated_garage (update_record posted q.write t)) (
            update_record-Sound posted q.write t (amounts (record_from_form-HasAmounts p q.form)) k)

  delete_old-Sound :
      (q : RecordRequest) (t : Garage F) (o : Result GarageError Record)
      → Sound t
      → Sound (delete_old q t o).garage
  delete_old-Sound q t (err e) k = k
  delete_old-Sound q t (ok old) k =
      rw (deleted_garage old.vehicle_id (delete_record old.id q.write t))
        (delete_record-Sound old.id q.write t k)

-- The stores that the record handlers make of one, in any order.
pub data Posted {F : Type 0} (p : Parsers) (t : Garage F) : Garage F → Type 0 where
  start : Posted p t t
  posted_new :
      (u : Garage F) → Posted p t u → (q : RecordRequest) → Posted p t (serve_create p q u).garage
  posted_edit :
      (u : Garage F) → Posted p t u → (q : RecordRequest) → Posted p t (serve_update p q u).garage
  posted_delete :
      (u : Garage F) → Posted p t u → (q : RecordRequest) → Posted p t (serve_delete q u).garage

module _ {F : Type 0} where
  Posted-Sound : (p : Parsers) (t u : Garage F) → Posted p t u → Sound t → Sound u
  unfolding serve_create serve_update serve_delete
  Posted-Sound p t u start k = k
  Posted-Sound p t _ (posted_new u steps q) k =
      create_for-Sound p q u (requested_vehicle q.vehicle_id q.vehicle_fails u)
        (Posted-Sound p t u steps k)
  Posted-Sound p t _ (posted_edit u steps q) k =
      update_old-Sound p q u (requested_record q.record_id q.read_fails u)
        (Posted-Sound p t u steps k)
  Posted-Sound p t _ (posted_delete u steps q) k =
      delete_old-Sound q u (requested_record q.record_id q.read_fails u)
        (Posted-Sound p t u steps k)

AllSome : Option Record → Type 0
AllSome none = Unit
AllSome (some r) = HasAmounts r

cons_some-Amounts :
    (o : Option Record) (records : List Record)
    → AllSome o
    → All HasAmounts records
    → All HasAmounts (cons_some o records)
unfolding AllSome
cons_some-Amounts none records h k = k
cons_some-Amounts (some r) records h k = (h, k)

insert-Amounts :
    (lt : Record → Record → Bool) (r : Record) (records : List Record)
    → HasAmounts r
    → All HasAmounts records
    → All HasAmounts (insert_record lt r records)
unfolding insert_record
insert-Amounts lt r [] h k = (h, tt)
insert-Amounts lt r (s ∷ records) h k = elim (Bool-cases (lt r s)) [
  | inl first ↦ simp first (h, k)
  | inr second ↦ simp second (k.0, insert-Amounts lt r records h k.1)
]

sort-Amounts :
    (lt : Record → Record → Bool) (records : List Record)
    → All HasAmounts records
    → All HasAmounts (sort_records lt records)
unfolding sort_records
sort-Amounts lt [] k = tt
sort-Amounts lt (r ∷ records) k =
    insert-Amounts lt r (sort_records lt records) k.0 (sort-Amounts lt records k.1)

module _ {F : Type 0} where
  with_names-Amounts :
      (t : Garage F) (r : Record) (v : Option Vehicle) (s : Option ServiceType) (u : Option User)
      → HasAmounts r
      → AllSome (with_names t r v s u)
  unfolding AllSome
  with_names-Amounts t r none s u h = tt
  with_names-Amounts t r (some v) none u h = tt
  with_names-Amounts t r (some v) (some s) none h = tt
  with_names-Amounts t r (some v) (some s) (some u) h = record {
    odometer = h.odometer;
    cost = h.cost;
    warranty = h.warranty;
  }

  select-Amounts :
      (t : Garage F) (records : List Record)
      → All HasAmounts records
      → All HasAmounts (select_records t records)
  unfolding select_records
  select-Amounts t [] k = tt
  select-Amounts t (r ∷ records) k =
      cons_some-Amounts (select_record t r) (select_records t records)
        (with_names-Amounts t r (vehicle_row r.vehicle_id t.vehicles)
          (type_row r.service_type_id t.service_types) (user_row r.created_by t.users) k.0)
        (select-Amounts t records k.1)

  list-Amounts : (q : RecordQuery) (t : Garage F) → Sound t → All HasAmounts (list_records q t)
  unfolding list_records
  list-Amounts q t k =
      sort-Amounts (comes_before q) (filter (is_asked_for q) (select_records t t.records)) (
        All-filter HasAmounts (is_asked_for q) (select_records t t.records)
          (select-Amounts t t.records k))

  -- However the record forms are posted, in any order and with any failures, to a store whose amounts are
  -- nonnegative int64 values (as an empty one's are), the CSV file of any list of its records has no cell
  -- that starts a formula, also behind blanks: what the writer keeps to for rows without formulas holds of
  -- the file.
  pub Posted-csv_file :
      {W E : Type 0} (p : Parsers) (t u : Garage F)
      → Posted p t u
      → Sound t
      → (write : List Text → W → Option E × W) (close : W → Option E × W) (Clean : W → Type 0)
      → ((row : List Text) (w : W) → All Plain row → Clean w → Clean (write row w).1)
      → ((w : W) → Clean w → Clean (close w).1)
      → (q : RecordQuery) (w : W) → Clean w
      → Clean (csv_file write close (list_records q u) w).1
  Posted-csv_file p t u steps sound write close Clean row end q w clean =
      csv_file-Plain write close Clean row end (list_records q u) w
        (list-Amounts q u (Posted-Sound p t u steps sound)) clean
