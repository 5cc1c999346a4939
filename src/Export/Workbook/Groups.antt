-- ===== src/Export/Workbook/Groups.antt =====
-- The sheets' records are the vehicles' histories.
use carma.Base.{
  ◌≡◌, refl, sym, ap, ◌∙◌, ◌⊎◌, inl, inr, Bool, true, false, List, [], ◌∷◌, ◌++◌, append-nil,
  append_assoc, ◌==◌, if◌then◌else◌, filter, All, Bool-cases, arith,
}
use carma.Model.{Uuid, Record}
use carma.Export.Workbook.{VehicleGroup, add_to_group, group_loop, group_by_vehicle}

abbrev pub is_of : Uuid → Record → Bool
is_of id r = r.vehicle_id == id

-- The records of the vehicle's group.
abbrev pub records_of : Uuid → List VehicleGroup → List Record
records_of id [] = []
records_of id (g ∷ groups) = if g.vehicle_id == id then g.records else records_of id groups

-- No two groups are of the same vehicle.
abbrev pub OnePerVehicle : List VehicleGroup → Type 0
OnePerVehicle [] = Unit
OnePerVehicle (g ∷ groups) =
    All (λ h. (h.vehicle_id == g.vehicle_id) ≡ false) groups × OnePerVehicle groups

own_record : Uuid → Record → List Record
own_record id r = if r.vehicle_id == id then r ∷ [] else []

own_hit :
    (id : Uuid) (r : Record) (records : List Record)
    → (r.vehicle_id == id) ≡ true
    → records ++ r ∷ [] ≡ records ++ own_record id r
unfolding own_record
own_hit id r records h = simp h refl

own_miss :
    (id : Uuid) (r : Record) (records : List Record)
    → (r.vehicle_id == id) ≡ false
    → records ≡ records ++ own_record id r
unfolding own_record
own_miss id r records h = simp h (sym (append-nil records))

same_hit : (a b c : Uuid) → (a == b) ≡ true → (a == c) ≡ true → (b == c) ≡ true
same_hit a b c h k = ground arith

same_miss : (a b c : Uuid) → (a == b) ≡ true → (a == c) ≡ false → (b == c) ≡ false
same_miss a b c h k = ground arith

other_hit : (a b c : Uuid) → (a == b) ≡ false → (a == c) ≡ true → (b == c) ≡ false
other_hit a b c h k = ground arith

records_of-add :
    (id : Uuid) (r : Record) (groups : List VehicleGroup)
    → records_of id (add_to_group r groups) ≡ records_of id groups ++ own_record id r
unfolding add_to_group own_record
records_of-add id r [] = refl
records_of-add id r (g ∷ groups) = elim (Bool-cases (g.vehicle_id == r.vehicle_id)) [
  | inl same ↦ elim (Bool-cases (g.vehicle_id == id)) [
    | inl hit ↦
        simp (same, hit) (own_hit id r g.records (same_hit g.vehicle_id r.vehicle_id id same hit))
    | inr miss ↦
        simp (same, miss)
          (own_miss id r (records_of id groups) (same_miss g.vehicle_id r.vehicle_id id same miss))
  ]
  | inr other ↦ elim (Bool-cases (g.vehicle_id == id)) [
    | inl hit ↦
        simp (other, hit)
          (own_miss id r g.records (other_hit g.vehicle_id r.vehicle_id id other hit))
    | inr miss ↦ simp (other, miss) (records_of-add id r groups)
  ]
]

records_of-loop :
    (id : Uuid) (records : List Record) (groups : List VehicleGroup)
    → records_of id (group_loop records groups) ≡ records_of id groups ++ filter (is_of id) records
unfolding group_loop
records_of-loop id [] groups = sym (append-nil (records_of id groups))
records_of-loop id (r ∷ records) groups =
    records_of-loop id records (add_to_group r groups)
    ∙ ap (λ l. l ++ filter (is_of id) records) (records_of-add id r groups)
    ∙ append_assoc (records_of id groups) (own_record id r) (filter (is_of id) records)
    ∙ ap (λ l. records_of id groups ++ l) (front (Bool-cases (r.vehicle_id == id)))
  where
    front :
        ((r.vehicle_id == id) ≡ true) ⊎ ((r.vehicle_id == id) ≡ false)
        → own_record id r ++ filter (is_of id) records ≡ filter (is_of id) (r ∷ records)
    front (inl hit) = unfold own_record in simp hit refl
    front (inr miss) = unfold own_record in simp miss refl

-- The new record changes the ID of no group.
add-OtherIds :
    (id : Uuid) (r : Record) (groups : List VehicleGroup)
    → (r.vehicle_id == id) ≡ false
    → All (λ h. (h.vehicle_id == id) ≡ false) groups
    → All (λ h. (h.vehicle_id == id) ≡ false) (add_to_group r groups)
unfolding add_to_group
add-OtherIds id r [] differ h = (differ, tt)
add-OtherIds id r (g ∷ groups) differ h = elim (Bool-cases (g.vehicle_id == r.vehicle_id)) [
  | inl same ↦ rw same h
  | inr other ↦ rw other (h.0, add-OtherIds id r groups differ h.1)
]

flip_differs : (a b : Uuid) → (a == b) ≡ false → (b == a) ≡ false
flip_differs a b h = ground arith

add-OnePerVehicle :
    (r : Record) (groups : List VehicleGroup)
    → OnePerVehicle groups
    → OnePerVehicle (add_to_group r groups)
unfolding add_to_group
add-OnePerVehicle r [] h = (tt, tt)
add-OnePerVehicle r (g ∷ groups) h = elim (Bool-cases (g.vehicle_id == r.vehicle_id)) [
  | inl same ↦ rw same h
  | inr other ↦ rw other (
    add-OtherIds g.vehicle_id r groups (flip_differs g.vehicle_id r.vehicle_id other) h.0,
    add-OnePerVehicle r groups h.1,
  )
]

loop-OnePerVehicle :
    (records : List Record) (groups : List VehicleGroup)
    → OnePerVehicle groups
    → OnePerVehicle (group_loop records groups)
unfolding group_loop
loop-OnePerVehicle [] groups h = h
loop-OnePerVehicle (r ∷ records) groups h =
    loop-OnePerVehicle records (add_to_group r groups) (add-OnePerVehicle r groups h)

-- No two sheets are of the same vehicle, and the sheet of each vehicle has just the vehicle's records, in
-- their order.
pub group_by_vehicle-records :
    (records : List Record)
    → OnePerVehicle (group_by_vehicle records)
      × ((id : Uuid) → records_of id (group_by_vehicle records) ≡ filter (is_of id) records)
unfolding group_by_vehicle
group_by_vehicle-records [] = ((tt, tt), λ id. no_records (0 == id))
  where
    no_records : (b : Bool) → if◌then◌else◌ {A = List Record} b [] [] ≡ []
    no_records true = refl
    no_records false = refl
group_by_vehicle-records (r ∷ records) =
    (loop-OnePerVehicle (r ∷ records) [] tt, λ id. records_of-loop id (r ∷ records) [])
