-- ===== src/Garage/Records/Snooze.antt =====
-- Which snoozes a new record ends.
use carma.Base.{
  ◌≡◌, refl, ap, ap₂, ◌∙◌, inl, inr, Bool, true, false, not, ◌&&◌, ◌||◌, none, some, List, [], ◌∷◌,
  ◌++◌, ◌==◌, ==_iff, if◌then◌else◌, map, any, filter, filter-append, Bool-cases, All, All-filter,
  arith,
}
use carma.Calendar.{before}
use carma.Model.{Uuid, Instant, Record, Attachment, Reminder}
use carma.Garage.{committed, Garage}
use carma.Garage.Records.{
  is_later, first_of, latest, is_match, latest_match, has_id, is_some, clear_snooze,
  clear_reminder_snooze, with_record, create_record,
}

is_later_flip : (x r : Record) → (x.id == r.id) ≡ false → is_later r x ≡ not (is_later x r)
unfolding is_later before
is_later_flip x r h = ground arith

-- The ID is that of no row.
abbrev pub IsNew : Uuid → List Record → Type 0
IsNew id records = All (λ s. (s.id == id) ≡ false) records

or_split : (a b : Bool) → (a || b) ≡ false → (a ≡ false) × (b ≡ false)
or_split false b h = (refl, h)
or_split true b h = cc

or_left : (a b : Bool) → (a || b) ≡ true → b ≡ false → a ≡ true
or_left a b h e = ground arith

-- The last row is the latest if no row before it is later.
latest-snoc :
    (r : Record) (xs : List Record)
    → IsNew r.id xs
    → any (λ s. is_later s r) xs ≡ false
    → latest (xs ++ r ∷ []) ≡ some r
unfolding latest
latest-snoc r [] new none_later = refl
latest-snoc r (x ∷ xs) new none_later =
    let (mine, rest) = or_split _ _ none_later in
    simp (latest-snoc r xs new.1 rest, is_later_flip x r new.0 ∙ ap not mine)

-- The latest row is another one if a row before the last is later.
latest-snoc_other :
    (r : Record) (xs : List Record)
    → IsNew r.id xs
    → any (λ s. is_later s r) xs ≡ true
    → (y : Record) × (latest (xs ++ r ∷ []) ≡ some y) × ((y.id == r.id) ≡ false)
unfolding latest
latest-snoc_other r [] new later = cc
latest-snoc_other r (x ∷ xs) new later = elim (Bool-cases (any (λ s. is_later s r) xs)) [
  | inl rest ↦ pick_other (latest-snoc_other r xs new.1 rest)
  | inr rest ↦ (
    x,
    simp (latest-snoc r xs new.1 rest, is_later_flip x r new.0 ∙ ap not (first_later rest)),
    new.0,
  )
]
  where
    pick_other :
        (y : Record) × (latest (xs ++ r ∷ []) ≡ some y) × ((y.id == r.id) ≡ false)
        → (y : Record) × (first_of x (latest (xs ++ r ∷ [])) ≡ some y) × ((y.id == r.id) ≡ false)
    pick_other (y, e, other) = elim (Bool-cases (is_later y x)) [
      | inl first ↦ (y, simp (e, first), other)
      | inr second ↦ (x, simp (e, second), new.0)
    ]

    first_later : any (λ s. is_later s r) xs ≡ false → is_later x r ≡ true
    first_later rest = or_left _ _ later rest

-- Does a row of the same vehicle and service come after the record?
abbrev pub has_later : Record → List Record → Bool
has_later r records = any (λ s. is_match r.vehicle_id r.service_type_id s && is_later s r) records

any-filter {ℓ} :
    {A : Type ℓ} (p q : A → Bool) (xs : List A) → any q (filter p xs) ≡ any (λ x. p x && q x) xs
any-filter p q [] = refl
any-filter p q (x ∷ xs) = elim (Bool-cases (p x)) [
  | inl hit ↦ simp hit (ap (λ b. q x || b) (any-filter p q xs))
  | inr miss ↦ simp miss (any-filter p q xs)
]

module _ (r : Record) (records : List Record) (new : IsNew r.id records) where
  abbrev matches : List Record
  matches = filter (is_match r.vehicle_id r.service_type_id) records

  matches-IsNew : IsNew r.id matches
  matches-IsNew =
      All-filter (λ s. (s.id == r.id) ≡ false) (is_match r.vehicle_id r.service_type_id) records new

  own_match : is_match r.vehicle_id r.service_type_id r ≡ true
  own_match =
      ground (arith, ==_iff r.vehicle_id r.vehicle_id, ==_iff r.service_type_id r.service_type_id)

  split_matches :
      filter (is_match r.vehicle_id r.service_type_id) (records ++ r ∷ []) ≡ matches ++ r ∷ []
  split_matches =
      filter-append (is_match r.vehicle_id r.service_type_id) records (r ∷ [])
      ∙ ap (λ b. matches ++ (if b then r ∷ [] else [])) own_match

  -- A record that nothing later matches is the baseline from then on.
  pub latest_match-new :
      has_later r records ≡ false
      → latest_match r.vehicle_id r.service_type_id (records ++ r ∷ []) ≡ some r
  unfolding latest_match
  latest_match-new none_later =
      ap latest split_matches
      ∙ latest-snoc r matches matches-IsNew (
          any-filter (is_match r.vehicle_id r.service_type_id) (λ s. is_later s r) records
          ∙ none_later)

  pub has_id-latest_match :
      has_id r.id (latest_match r.vehicle_id r.service_type_id (records ++ r ∷ []))
      ≡ not (has_later r records)
  unfolding latest_match
  has_id-latest_match = elim (Bool-cases (has_later r records)) [
    | inr none_later ↦ simp (latest_match-new none_later, none_later) ((==_iff r.id r.id).1 refl)
    | inl later ↦ simp later (
        other (
          latest-snoc_other r matches matches-IsNew (
            any-filter (is_match r.vehicle_id r.service_type_id) (λ s. is_later s r) records
            ∙ later)))
  ]
    where
      other :
          (y : Record) × (latest (matches ++ r ∷ []) ≡ some y) × ((y.id == r.id) ≡ false)
          → has_id r.id (latest_match r.vehicle_id r.service_type_id (records ++ r ∷ [])) ≡ false
      other (y, e, differs) = ap (has_id r.id) (ap latest split_matches ∙ e) ∙ differs

module _ {F : Type 0} where
  abbrev pub is_snoozed : Reminder F → Bool
  is_snoozed rm = is_some rm.snoozed_until_on || is_some rm.snoozed_until_miles

  -- Is the reminder for the record's vehicle and service?
  abbrev pub concerns : Record → Reminder F → Bool
  concerns r rm = rm.vehicle_id == r.vehicle_id && rm.service_type_id == r.service_type_id

  pub clear_snooze-is_snoozed :
      (r : Record) (at : Instant) (test : Bool) (rm : Reminder F)
      → is_snoozed (clear_snooze r.vehicle_id r.service_type_id at test rm)
        ≡ (is_snoozed rm && not (concerns r rm && test))
  clear_snooze-is_snoozed r at test rm =
      wake (concerns r rm && is_snoozed rm && test) ∙ rearrange (concerns r rm) (is_snoozed rm) test
    where
      wake :
          (b : Bool)
          → is_snoozed (
              if b
              then record rm {
                snoozed_until_on = none;
                snoozed_until_miles = none;
                updated_at = at;
              }
              else rm)
            ≡ (not b && is_snoozed rm)
      wake true = refl
      wake false = refl

      rearrange : (c s t : Bool) → (not (c && s && t) && s) ≡ (s && not (c && t))
      rearrange c s t = ground arith

  clear_all-is_snoozed :
      (r : Record) (at : Instant) (test : Bool) (reminders : List (Reminder F))
      → map is_snoozed (map (clear_snooze r.vehicle_id r.service_type_id at test) reminders)
        ≡ map (λ rm. is_snoozed rm && not (concerns r rm && test)) reminders
  clear_all-is_snoozed r at test [] = refl
  clear_all-is_snoozed r at test (rm ∷ reminders) =
      ap₂ (λ b bs. b ∷ bs) (clear_snooze-is_snoozed r at test rm)
        (clear_all-is_snoozed r at test reminders)

  -- Logging a record under a new ID ends the snooze of its service's reminder on its vehicle, unless a
  -- later record of that service is there, and ends no other snooze.
  pub create_record-is_snoozed :
      (r : Record) (attachments : List Attachment) (t : Garage F)
      → IsNew r.id t.records
      → map is_snoozed (create_record r attachments committed t).0.reminders
        ≡ map
            (λ rm. is_snoozed rm && not (concerns r rm && not (has_later r t.records)))
            t.reminders
  unfolding create_record with_record clear_reminder_snooze
  create_record-is_snoozed r attachments t new =
      clear_all-is_snoozed r r.updated_at _ t.reminders
      ∙ ap (λ test. map (λ rm. is_snoozed rm && not (concerns r rm && test)) t.reminders)
          (has_id-latest_match r t.records new)
