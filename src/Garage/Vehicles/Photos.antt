-- ===== src/Garage/Vehicles/Photos.antt =====
-- The photo that an update replaces.
use carma.Base.{
  ◌≡◌, refl, ap, ◌∙◌, inl, inr, Bool, false, ◌||◌, Option, none, some, List, [], ◌∷◌, ◌==◌, map,
  Bool-cases, arith,
}
use mathlib.Core.Path.{subst}
use carma.Base.Result.{Result, ok, err}
use carma.Base.Text.{Text, text_eq}
use carma.Model.{Record, Vehicle}
use carma.Garage.{
  Write, committed, unconfirmed, rolled_back, settle_answer, Garage, GarageError, vehicle_row,
  scan_vehicle, get_vehicle,
}
use carma.Garage.Vehicles.{
  photo_or, replaced_photo_key, update_columns, with_update, with_old_photo, update_row_of,
  update_vehicle,
}

photo_or_new : (key old : Text) → text_eq key [] ≡ false → photo_or key old ≡ key
unfolding text_eq
photo_or_new [] old h = cc
photo_or_new (c ∷ key) old h = refl

-- The vehicle, if it is there, shows the key.
abbrev Shows : Text → Option Vehicle → Type 0
Shows key none = Unit
Shows key (some u) = u.photo_key ≡ key

row-Shows :
    (records : List Record) (v : Vehicle) (vs : List Vehicle)
    → text_eq v.photo_key [] ≡ false
    → Shows v.photo_key (vehicle_row v.id (map (update_columns records v) vs))
row-Shows records v [] h = tt
row-Shows records v (w ∷ vs) h = elim (Bool-cases (w.id == v.id)) [
  | inl mine ↦ simp (mine, mine) (photo_or_new v.photo_key w.photo_key h)
  | inr other ↦ simp (other, other) (row-Shows records v vs h)
]

scan-Shows :
    (records : List Record) (key : Text) (o : Option Vehicle)
    → Shows key o
    → Shows key (scan_vehicle records o)
scan-Shows records key none h = tt
scan-Shows records key (some u) h = h

module _ (v : Vehicle) where
  -- The answer names no photo, or one that the vehicle no longer shows.
  abbrev Lets : Result GarageError (Vehicle × Text) → Type 0
  Lets (err e) = Unit
  Lets (ok (u, key)) = text_eq key [] ≡ false → text_eq u.photo_key key ≡ false

  with_old_photo-Lets :
      (previous : Text) (o : Option Vehicle)
      → (text_eq v.photo_key [] ≡ false → Shows v.photo_key o)
      → Lets (with_old_photo v.photo_key previous o)
  unfolding replaced_photo_key text_eq
  with_old_photo-Lets previous none h = tt
  with_old_photo-Lets previous (some u) h =
      elim (Bool-cases (text_eq v.photo_key [] || text_eq v.photo_key previous)) [
        | inl kept ↦ simp kept (λ named. cc)
        | inr changed ↦ simp changed (λ named.
            ap (λ k. text_eq k previous) (h (first_of _ _ changed)) ∙ second_of _ _ changed)
      ]
    where
      first_of : (a b : Bool) → (a || b) ≡ false → a ≡ false
      first_of a b e = ground arith

      second_of : (a b : Bool) → (a || b) ≡ false → b ≡ false
      second_of a b e = ground arith

  settle-Lets :
      {F : Type 0} (t after : Garage F) (answer : Result GarageError (Vehicle × Text)) (w : Write)
      → Lets answer
      → Lets (settle_answer w t after answer).1
  settle-Lets t after answer committed h = h
  settle-Lets t after answer unconfirmed h = tt
  settle-Lets t after answer rolled_back h = tt

  update_row_of-Lets :
      {F : Type 0} (write : Write) (t : Garage F) (o : Option Vehicle)
      → Lets (update_row_of v write t o).1
  unfolding get_vehicle with_update
  update_row_of-Lets write t none = tt
  update_row_of-Lets write t (some previous) = settle-Lets t (with_update v t) _ write (
      with_old_photo-Lets previous.photo_key (get_vehicle v.id (with_update v t))
        (λ named. scan-Shows t.records v.photo_key _ (row-Shows t.records v t.vehicles named)))

-- The photo that an update answers as replaced, whose file is then deleted, is not the one that the
-- updated vehicle shows.
pub update_vehicle-replaced :
    {F : Type 0} (v : Vehicle) (write : Write) (t : Garage F) (u : Vehicle) (key : Text)
    → (update_vehicle v write t).1 ≡ ok (u, key)
    → text_eq key [] ≡ false
    → text_eq u.photo_key key ≡ false
unfolding update_vehicle
update_vehicle-replaced v write t u key updated =
    subst (Lets v) updated (update_row_of-Lets v write t (vehicle_row v.id t.vehicles))
