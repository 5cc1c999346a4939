-- ===== src/Garage/Odometer.antt =====
-- No mileage point of a vehicle is lost.
use carma.Base.{
  ◌≡◌, refl, sym, ap, ap₂, ◌∙◌, inl, inr, Bool, true, false, not, ◌&&◌, ◌||◌, Option, none, some,
  List, [], ◌∷◌, ◌++◌, ◌==◌, if◌then◌else◌, map, any, any-append, Bool-cases, arith,
}
use carma.Base.Int.{ℤ, ltb_ℤ, eq_ℤ}
use carma.Calendar.{Date}
use carma.Model.{Uuid, Record, Vehicle, MileagePoint}
use carma.Digest.Store.{same_date}
use mathlib.Core.Path.{subst}
use carma.Base.Result.{Result, ok, err}
use carma.Garage.{
  Write, committed, unconfirmed, rolled_back, settle_answer, GarageError, is_below, get_vehicle,
  or_no_vehicle, add_to, add_odometer_reading, OdometerReading, Garage, greatest, is_point,
  is_reading, has_miles, is_record, known_point, dated, current_point, archived,
  archive_vehicle_mileage, raises, raise_vehicle, next_miles, with_reading, reading_points,
  record_point, record_points, unless_known, vehicle_points, mileage_points,
}

abbrev pub same_point : MileagePoint → MileagePoint → Bool
same_point p q = is_point q.vehicle_id q.on q.miles p

abbrev pub is_current : MileagePoint → Option MileagePoint → Bool
is_current p none = false
is_current p (some q) = same_point p q

abbrev pub point_of : OdometerReading → MileagePoint
point_of r = record { vehicle_id = r.vehicle_id; on = r.read_on; miles = r.odometer_miles }

module _ (p : MileagePoint) where
  any-reading_points :
      (rs : List OdometerReading) → any (same_point p) (reading_points rs) ≡ any (is_reading p) rs
  any-reading_points [] = refl
  any-reading_points (r ∷ rs) = ap (λ b. is_reading p r || b) (any-reading_points rs)

  any-record_point :
      (id : Uuid) (on : Date) (miles : Option ℤ)
      → any (same_point p) (record_point id on miles) ≡ has_miles id on miles p
  any-record_point id on none = refl
  any-record_point id on (some miles) = ground arith

  any-record_points :
      (rs : List Record) → any (same_point p) (record_points rs) ≡ any (is_record p) rs
  unfolding record_points
  any-record_points [] = refl
  any-record_points (r ∷ rs) =
      any-append (same_point p) (record_point r.vehicle_id r.occurred_on r.odometer_miles)
        (record_points rs)
      ∙ ap₂ (λ b c. b || c) (any-record_point r.vehicle_id r.occurred_on r.odometer_miles)
          (any-record_points rs)

  point_eq : (q : MileagePoint) → same_point p q ≡ true → q ≡ p
  point_eq q h = ground arith

  -- A vehicle's point is left out only where a reading or a record gives it.
  unless_known-is :
      (k : MileagePoint → Bool) (o : Option MileagePoint)
      → (k p || any (same_point p) (unless_known k o)) ≡ (k p || is_current p o)
  unless_known-is k none = refl
  unless_known-is k (some q) = elim (Bool-cases (same_point p q)) [
    | inl hit ↦ same_case (k p) (k q) (same_point p q) _ (ap k (point_eq q hit)) (if_any (k q))
    | inr miss ↦ other_case (k p) (k q) (same_point p q) _ miss (if_any (k q))
  ]
    where
      if_any :
          (b : Bool) → any (same_point p) (if b then [] else q ∷ []) ≡ (not b && same_point p q)
      if_any true = refl
      if_any false = ground arith

      same_case : (a b c d : Bool) → b ≡ a → d ≡ (not b && c) → (a || d) ≡ (a || c)
      same_case a b c d e f = ground arith

      other_case : (a b c d : Bool) → c ≡ false → d ≡ (not b && c) → (a || d) ≡ (a || c)
      other_case a b c d e f = ground arith

  any-vehicle_points :
      (k : MileagePoint → Bool) (vs : List Vehicle)
      → (k p || any (same_point p) (vehicle_points k vs))
        ≡ (k p || any (λ v. is_current p (current_point v)) vs)
  unfolding vehicle_points
  any-vehicle_points k [] = refl
  any-vehicle_points k (v ∷ vs) =
      ap (λ b. k p || b)
        (any-append (same_point p) (unless_known k (current_point v)) (vehicle_points k vs))
      ∙ join_or (k p) _ _ _ _ (unless_known-is k (current_point v)) (any-vehicle_points k vs)
    where
      join_or :
          (a b c d e : Bool)
          → (a || b) ≡ (a || d)
          → (a || c) ≡ (a || e)
          → (a || (b || c)) ≡ (a || (d || e))
      join_or a b c d e f g = ground arith

  -- A point is listed just where a reading, a record or a vehicle has it.
  any-mileage_points :
      {F : Type 0} (t : Garage F)
      → any (same_point p) (mileage_points t)
        ≡ (known_point t p || any (λ v. is_current p (current_point v)) t.vehicles)
  unfolding mileage_points
  any-mileage_points t =
      any-append (same_point p) (reading_points t.readings ++ record_points t.records) _
      ∙ ap (λ b. b || any (same_point p) (vehicle_points (known_point t) t.vehicles))
          (any-append (same_point p) (reading_points t.readings) (record_points t.records)
            ∙ ap₂ (λ b c. b || c) (any-reading_points t.readings) (any-record_points t.records))
      ∙ any-vehicle_points (known_point t) t.vehicles

next_above : (m r : ℤ) (c : Option ℤ) → ltb_ℤ m r ≡ true → eq_ℤ m (next_miles r c) ≡ false
next_above m r none h = ground arith
next_above m r (some c) h = ground arith

same_date_refl : (d : Date) → same_date d d ≡ true
same_date_refl d = ground arith

or_middle : (a b c : Bool) → b ≡ true → (a || (b || c)) ≡ true
or_middle a b c h = ground arith

or_last : (a b c : Bool) → c ≡ true → (a || (b || c)) ≡ true
or_last a b c h = ground arith

or_first : (a b : Bool) → a ≡ true → ((a || false) || b) ≡ true
or_first a b h = ground arith

module _ (p : MileagePoint) (new_id : Uuid) (r : OdometerReading) (c : Option ℤ)
    (k : MileagePoint → Bool) where
  abbrev Kept : Option MileagePoint → Option MileagePoint → Type 0
  Kept before after =
      (any (is_reading p)
          (archived new_id r.created_by r.created_at (next_miles r.odometer_miles c) k before)
        || (k p || is_current p after))
      ≡ true

  raised-Kept :
      (id : Uuid) (on : Option Date) (miles : Option ℤ)
      → is_current p (dated id on miles) ≡ true
      → Kept (dated id on miles) (
          dated id
            (if raises r.odometer_miles miles then some r.read_on else on)
            (greatest miles (some r.odometer_miles)))
  raised-Kept id none miles h = cc
  raised-Kept id (some on) none h = cc
  raised-Kept id (some on) (some m) h = elim (Bool-cases (ltb_ℤ m r.odometer_miles)) [
    | inl higher ↦ elim (Bool-cases (k (record { vehicle_id = id; on = on; miles = m }))) [
      | inl known ↦
          or_middle _ (k p) _
            (sym (ap k (point_eq p (record { vehicle_id = id; on = on; miles = m }) h)) ∙ known)
      | inr new ↦ simp (next_above m r.odometer_miles c higher, new) (or_first _ _ h)
    ]
    | inr lower ↦ simp lower (or_last _ (k p) _ h)
  ]

  raise-Kept :
      (v : Vehicle)
      → is_current p (current_point v) ≡ true
      → (any (is_reading p) (
            if v.id == r.vehicle_id
            then archived new_id r.created_by r.created_at
                (next_miles r.odometer_miles c)
                k
                (current_point v)
            else [])
          || (k p || is_current p (current_point (raise_vehicle r v))))
        ≡ true
  raise-Kept v h = elim (Bool-cases (v.id == r.vehicle_id)) [
    | inl mine ↦ simp mine (raised-Kept v.id v.current_odometer_on v.current_odometer h)
    | inr other ↦ simp other (or_last false (k p) _ h)
  ]

  -- What one vehicle adds to the history.
  abbrev own : Vehicle → List OdometerReading
  own v =
      if v.id == r.vehicle_id
      then archived new_id r.created_by r.created_at (next_miles r.odometer_miles c) k
          (current_point v)
      else []

  abbrev archive : List Vehicle → List OdometerReading
  archive vs = archive_vehicle_mileage new_id r (next_miles r.odometer_miles c) k vs

  abbrev current : List Vehicle → Bool
  current vs = any (λ v. is_current p (current_point v)) vs

  archive-Kept :
      (vs : List Vehicle)
      → current vs ≡ true
      → (any (is_reading p) (archive vs) || (k p || current (map (raise_vehicle r) vs))) ≡ true
  unfolding archive_vehicle_mileage
  archive-Kept [] h = cc
  archive-Kept (v ∷ vs) h =
      ap (λ b. b || (k p || current (map (raise_vehicle r) (v ∷ vs))))
        (any-append (is_reading p) (own v) (archive vs))
      ∙ elim (Bool-cases (is_current p (current_point v))) [
        | inl mine ↦
            here _ (any (is_reading p) (archive vs)) (k p) _ (current (map (raise_vehicle r) vs))
              (raise-Kept v mine)
        | inr other ↦
            there (any (is_reading p) (own v)) _ (k p)
              (is_current p (current_point (raise_vehicle r v))) _
              (archive-Kept vs (simp other at h))
      ]
    where
      here : (a b c d e : Bool) → (a || (c || d)) ≡ true → ((a || b) || (c || (d || e))) ≡ true
      here a b c d e f = ground arith

      there : (a b c d e : Bool) → (b || (c || e)) ≡ true → ((a || b) || (c || (d || e))) ≡ true
      there a b c d e f = ground arith

module _ {F : Type 0} (p : MileagePoint) (new_id : Uuid) (r : OdometerReading)
    (c current_miles : Option ℤ) (t : Garage F) where
  abbrev grown : Garage F
  grown = with_reading new_id r (next_miles r.odometer_miles c) current_miles t

  with_reading-Kept :
      any (same_point p) (mileage_points t) ≡ true
      → any (same_point p) (mileage_points grown) ≡ true
  unfolding with_reading
  with_reading-Kept h =
      any-mileage_points p grown
      ∙ ap
          (λ b.
            (b || any (is_record p) t.records)
            || current p new_id r c (known_point t) (map (raise_vehicle r) t.vehicles))
          (any-append (is_reading p) (t.readings ++ archive p new_id r c (known_point t) t.vehicles)
              (r ∷ [])
            ∙ ap (λ b. b || any (is_reading p) (r ∷ []))
                (any-append (is_reading p) t.readings
                  (archive p new_id r c (known_point t) t.vehicles)))
      ∙ elim (Bool-cases (known_point t p)) [
        | inl known ↦ still (any (is_reading p) t.readings) _ _ _ _ known
        | inr new ↦ archived_case (any (is_reading p) t.readings) _ _ _ _ (
            archive-Kept p new_id r c (known_point t) t.vehicles
              (in_vehicles _ _ new (sym (any-mileage_points p t) ∙ h)))
      ]
    where
      still : (a b c d e : Bool) → (a || d) ≡ true → ((((a || b) || c) || d) || e) ≡ true
      still a b c d e f = ground arith

      archived_case :
          (a b c d e : Bool) → (b || ((a || d) || e)) ≡ true → ((((a || b) || c) || d) || e) ≡ true
      archived_case a b c d e f = ground arith

      in_vehicles : (a b : Bool) → a ≡ false → (a || b) ≡ true → b ≡ true
      in_vehicles a b e f = ground arith

  -- The reading's own point is one of the history.
  with_reading-own :
      same_point p (point_of r) ≡ true → any (same_point p) (mileage_points grown) ≡ true
  unfolding with_reading
  with_reading-own h =
      any-mileage_points p grown
      ∙ ap
          (λ b.
            (b || any (is_record p) t.records)
            || current p new_id r c (known_point t) (map (raise_vehicle r) t.vehicles))
          (any-append (is_reading p) (t.readings ++ archive p new_id r c (known_point t) t.vehicles)
            (r ∷ []))
      ∙ last (any (is_reading p) (t.readings ++ archive p new_id r c (known_point t) t.vehicles)) _
          _ _ h
    where
      last : (a b c d : Bool) → b ≡ true → (((a || (b || false)) || c) || d) ≡ true
      last a b c d e = ground arith

  either-Kept :
      any (same_point p) (point_of r ∷ mileage_points t) ≡ true
      → any (same_point p) (mileage_points grown) ≡ true
  either-Kept h = elim (Bool-cases (same_point p (point_of r))) [
    | inl mine ↦ with_reading-own mine
    | inr other ↦ with_reading-Kept (simp other at h)
  ]

module _ {F : Type 0} (p : MileagePoint) (new_id : Uuid) (r : OdometerReading) (allow_lower : Bool)
    (write : Write) (t : Garage F) where
  abbrev Listed : Garage F × Result GarageError Vehicle → Type 0
  Listed (after, err e) = Unit
  Listed (after, ok v) = any (same_point p) (mileage_points after) ≡ true

  or_no_vehicle-Listed :
      (after : Garage F) (o : Option Vehicle)
      → any (same_point p) (mileage_points after) ≡ true
      → Listed (after, or_no_vehicle o)
  or_no_vehicle-Listed after none h = tt
  or_no_vehicle-Listed after (some v) h = h

  settle-Listed :
      (after : Garage F) (answer : Result GarageError Vehicle) (w : Write)
      → Listed (after, answer)
      → Listed (settle_answer w t after answer)
  settle-Listed after answer committed h = h
  settle-Listed after answer unconfirmed h = tt
  settle-Listed after answer rolled_back h = tt

  add_to-Listed :
      (o : Option Vehicle)
      → any (same_point p) (point_of r ∷ mileage_points t) ≡ true
      → Listed (add_to new_id r allow_lower write t o)
  add_to-Listed none h = tt
  add_to-Listed (some v) h =
      elim (Bool-cases (not allow_lower && is_below r.odometer_miles v.latest_odometer)) [
        | inl below ↦ simp below tt
        | inr above ↦ simp above (
            settle-Listed _ (or_no_vehicle (get_vehicle r.vehicle_id _)) write (
              or_no_vehicle-Listed _ (get_vehicle r.vehicle_id _) (
                either-Kept p new_id r v.current_odometer
                  (greatest v.current_odometer (some r.odometer_miles)) t h)))
      ]

-- After a mileage check-in that succeeds, each mileage point that was listed before it and the point of
-- its own are listed.
pub add_odometer_reading-keeps :
    {F : Type 0} (p : MileagePoint) (new_id : Uuid) (r : OdometerReading) (allow_lower : Bool)
    (write : Write) (t t' : Garage F) (v : Vehicle)
    → any (same_point p) (point_of r ∷ mileage_points t) ≡ true
    → add_odometer_reading new_id r allow_lower write t ≡ (t', ok v)
    → any (same_point p) (mileage_points t') ≡ true
unfolding add_odometer_reading
add_odometer_reading-keeps p new_id r allow_lower write t t' v h added =
    subst (Listed p new_id r allow_lower write t) added
      (add_to-Listed p new_id r allow_lower write t (get_vehicle r.vehicle_id t) h)
