-- ===== src/Garage/Records/Search/Wanted.antt =====
-- What a query asks for, stated by its fields (recordFilter of internal/repository/postgres_records.go).
use carma.Base.{
  ◌≡◌, ◌⊎◌, ◌↔◌, inl, inr, Bool, true, false, not, ◌&&◌, ◌||◌, Option, none, some, [], ◌∷◌, ==_iff,
  Bool-cases, refl, ◌<◌, arith,
}
use mathlib.Core.Path.{subst}
use carma.Base.Text.{Text, text_eq, text_eq_iff}
use carma.Calendar.{Date, before}
use carma.Model.{Uuid, Record, RecordQuery}
use carma.Garage.Records.Search.{
  any_end, escape_like_pattern, is_special, search_matches, same_or_unset, from_or_unset,
  until_or_unset, is_asked_for,
}
use carma.Garage.Records.Search.Like.{starts_with_fold, search_matches-contains}

-- By the year, then by the month, then by the day.
abbrev pub Earlier : Date → Date → Type 0
Earlier a b =
    (a.year < b.year)
    ⊎ ((a.year ≡ b.year) × ((a.month < b.month) ⊎ ((a.month ≡ b.month) × (a.day < b.day))))

pub before→Earlier : (a b : Date) → before a b ≡ true → Earlier a b
unfolding before
before→Earlier a b h = ground arith

pub Earlier→before : (a b : Date) → Earlier a b → before a b ≡ true
unfolding before
Earlier→before a b h = ground arith

-- The query stands somewhere in the text, up to the case of ASCII letters.
abbrev pub Contains : Text → Text → Type 0
Contains query value = any_end (starts_with_fold query) value ≡ true

pub record Wanted (q : RecordQuery) (r : Record) : Type 0 where
  pub vehicle : (id : Uuid) → q.vehicle_id ≡ some id → r.vehicle_id ≡ id
  pub service : (id : Uuid) → q.service_type_id ≡ some id → r.service_type_id ≡ id
  pub since : (day : Date) → q.since ≡ some day → ¬ Earlier r.occurred_on day
  pub until : (day : Date) → q.until ≡ some day → ¬ Earlier day r.occurred_on
  pub search :
      (q.search ≡ [])
      ⊎ (Contains q.search r.service_type_name
          ⊎ (Contains q.search r.vendor ⊎ Contains q.search r.notes))

same_or_unset_iff :
    (o : Option Uuid) (id : Uuid)
    → (same_or_unset o id ≡ true) ↔ ((asked : Uuid) → o ≡ some asked → id ≡ asked)
same_or_unset_iff none id = ((λ _ asked e. cc), (λ _. refl))
same_or_unset_iff (some a) id =
    ((λ h asked e. one a asked e ((==_iff id a).0 h)), (λ k. (==_iff id a).1 (k a refl)))
  where
    one : (a asked : Uuid) → ◌≡◌ {A = Option Uuid} (some a) (some asked) → id ≡ a → id ≡ asked
    one a asked e same = cc

not-before_iff : (a b : Date) → (not (before a b) ≡ true) ↔ (¬ Earlier a b)
not-before_iff a b = elim (Bool-cases (before a b)) [
  | inl sooner ↦ ((λ h k. clash sooner h), (λ k. absurd (k (before→Earlier a b sooner))))
  | inr late ↦ ((λ h k. miss late (Earlier→before a b k)), (λ k. simp late refl))
]
  where
    clash : before a b ≡ true → not (before a b) ≡ true → ⊥
    clash p h = ground arith

    miss : before a b ≡ false → before a b ≡ true → ⊥
    miss p h = cc

some_inj : (a b : Date) → ◌≡◌ {A = Option Date} (some a) (some b) → a ≡ b
some_inj a b e = cc

from_or_unset_iff :
    (o : Option Date) (day : Date)
    → (from_or_unset o day ≡ true) ↔ ((asked : Date) → o ≡ some asked → ¬ Earlier day asked)
from_or_unset_iff none day = ((λ _ asked e. cc), (λ _. refl))
from_or_unset_iff (some a) day = (
  (λ h asked e. subst (λ d. ¬ Earlier day d) (some_inj a asked e) ((not-before_iff day a).0 h)),
  (λ k. (not-before_iff day a).1 (k a refl)),
)

until_or_unset_iff :
    (o : Option Date) (day : Date)
    → (until_or_unset o day ≡ true) ↔ ((asked : Date) → o ≡ some asked → ¬ Earlier asked day)
until_or_unset_iff none day = ((λ _ asked e. cc), (λ _. refl))
until_or_unset_iff (some a) day = (
  (λ h asked e. subst (λ d. ¬ Earlier d day) (some_inj a asked e) ((not-before_iff a day).0 h)),
  (λ k. (not-before_iff a day).1 (k a refl)),
)

escape_blank : (s : Text) → text_eq (escape_like_pattern s) [] ≡ text_eq s []
unfolding escape_like_pattern text_eq
escape_blank [] = refl
escape_blank (c ∷ s) = elim (Bool-cases (is_special c)) [
  | inl special ↦ simp special refl
  | inr plain ↦ simp plain refl
]

search_iff :
    (q a b c : Text)
    → ((text_eq (escape_like_pattern q) []
          || search_matches (escape_like_pattern q) a
          || search_matches (escape_like_pattern q) b
          || search_matches (escape_like_pattern q) c)
        ≡ true)
      ↔ ((q ≡ []) ⊎ (Contains q a ⊎ (Contains q b ⊎ Contains q c)))
search_iff q a b c = ground (
  arith,
  escape_blank q,
  text_eq_iff q [],
  search_matches-contains q a,
  search_matches-contains q b,
  search_matches-contains q c,
)

five_parts :
    (a b c d e : Bool)
    → (a && b && c && d && e) ≡ true
    → (a ≡ true) × ((b ≡ true) × ((c ≡ true) × ((d ≡ true) × (e ≡ true))))
five_parts a b c d e h = ground arith

five_true :
    (a b c d e : Bool)
    → a ≡ true
    → b ≡ true
    → c ≡ true
    → d ≡ true
    → e ≡ true
    → (a && b && c && d && e) ≡ true
five_true a b c d e ha hb hc hd he = simp (ha, hb, hc, hd, he) refl

-- The filter of the query passes just the records that it asks for.
pub is_asked_for_iff : (q : RecordQuery) (r : Record) → (is_asked_for q r ≡ true) ↔ Wanted q r
unfolding is_asked_for
is_asked_for_iff q r = (
  (λ h. wanted (five_parts _ _ _ _ _ h)),
  (λ w.
      five_true _ _ _ _ _ ((same_or_unset_iff q.vehicle_id r.vehicle_id).1 w.vehicle)
        ((same_or_unset_iff q.service_type_id r.service_type_id).1 w.service)
        ((from_or_unset_iff q.since r.occurred_on).1 w.since)
        ((until_or_unset_iff q.until r.occurred_on).1 w.until)
        ((search_iff q.search r.service_type_name r.vendor r.notes).1 w.search)),
)
  where
    wanted :
        (same_or_unset q.vehicle_id r.vehicle_id ≡ true)
          × ((same_or_unset q.service_type_id r.service_type_id ≡ true)
              × ((from_or_unset q.since r.occurred_on ≡ true)
                  × ((until_or_unset q.until r.occurred_on ≡ true)
                      × ((text_eq (escape_like_pattern q.search) []
                            || search_matches (escape_like_pattern q.search) r.service_type_name
                            || search_matches (escape_like_pattern q.search) r.vendor
                            || search_matches (escape_like_pattern q.search) r.notes)
                          ≡ true))))
        → Wanted q r
    wanted h = record {
      vehicle = (same_or_unset_iff q.vehicle_id r.vehicle_id).0 h.0;
      service = (same_or_unset_iff q.service_type_id r.service_type_id).0 h.1.0;
      since = (from_or_unset_iff q.since r.occurred_on).0 h.1.1.0;
      until = (until_or_unset_iff q.until r.occurred_on).0 h.1.1.1.0;
      search = (search_iff q.search r.service_type_name r.vendor r.notes).0 h.1.1.1.1;
    }
