-- ===== src/Export/Names/Free.antt =====
-- The search for a free name ends, and finds one.
use carma.Base.{
  ℕ, zero, suc, ◌+◌, ◌<◌, ◌≤◌, ◌≡◌, ◌≢◌, refl, sym, ap, ap₂, ◌∙◌, inl, inr, Bool, true, false,
  Option, none, some, List, [], ◌∷◌, ◌++◌, ◌==◌, if◌then◌else◌, map, any, All, all, length,
  Bool-cases, arith,
}
use carma.Base.Text.{Text, text_eq, text_eq_iff, lower, to_lower}
use carma.Base.Decimal.{decimal, is_digit, decimal-digits, parse_digits, parse_digits-decimal}
use carma.Export.Names.{suffix, numbered, is_used, name_loop, sheet_title, unique_sheet_name}

map-append : (s t : Text) → map lower (s ++ t) ≡ map lower s ++ map lower t
map-append [] t = refl
map-append (c ∷ s) t = ap (λ u. lower c ∷ u) (map-append s t)

lower_digits : (s : Text) → all is_digit s ≡ true → map lower s ≡ s
lower_digits [] h = refl
lower_digits (c ∷ s) h = ap₂ ◌∷◌ (ground arith) (lower_digits s (ground arith))

-- What stands behind the last "(".
behind : Text → Text → Text
behind found [] = found
behind found (c ∷ s) = if c == b'(' then behind s s else behind found s

behind-skip : (found s t : Text) → behind found (s ++ 32 ∷ b'(' ∷ t) ≡ behind t t
unfolding behind
behind-skip found [] t = refl
behind-skip found (c ∷ s) t = elim (Bool-cases (c == b'(')) [
  | inl hit ↦ simp hit (behind-skip (s ++ 32 ∷ b'(' ∷ t) s t)
  | inr miss ↦ simp miss (behind-skip found s t)
]

behind_digits : (found s : Text) → all is_digit s ≡ true → behind found (s ++ b')' ∷ []) ≡ found
unfolding behind
behind_digits found [] h = refl
behind_digits found (c ∷ s) h = elim (Bool-cases (c == b'(')) [
  | inl hit ↦ absurd (ground arith)
  | inr miss ↦ simp miss (behind_digits found s (ground arith))
]

snoc_injective : (s t : Text) (c : ℕ) → s ++ c ∷ [] ≡ t ++ c ∷ [] → s ≡ t
snoc_injective [] [] c h = refl
snoc_injective [] (b ∷ []) c h = cc
snoc_injective [] (b ∷ d ∷ t) c h = cc
snoc_injective (a ∷ []) [] c h = cc
snoc_injective (a ∷ b ∷ s) [] c h = cc
snoc_injective (a ∷ s) (b ∷ t) c h = ap₂ ◌∷◌ (cc) (snoc_injective s t c (cc))

lower-suffix : (n : ℕ) → map lower (suffix n) ≡ suffix n
lower-suffix n =
    ap (λ s. 32 ∷ b'(' ∷ s)
      (map-append (decimal n) (b')' ∷ [])
        ∙ ap (λ s. s ++ b')' ∷ []) (lower_digits (decimal n) (decimal-digits n)))

-- The number of a candidate can be read off.
number_of :
    (prefix : Text) (n : ℕ) → behind [] (to_lower (prefix ++ suffix n)) ≡ decimal n ++ b')' ∷ []
unfolding to_lower
number_of prefix n =
    ap (behind []) (map-append prefix (suffix n) ∙ ap (λ s. map lower prefix ++ s) (lower-suffix n))
    ∙ behind-skip [] (map lower prefix) (decimal n ++ b')' ∷ [])
    ∙ behind_digits (decimal n ++ b')' ∷ []) (decimal n) (decimal-digits n)

decimal_injective : (m n : ℕ) → decimal m ≡ decimal n → m ≡ n
decimal_injective m n h =
    some_injective (sym (parse_digits-decimal m) ∙ ap (parse_digits 0) h ∙ parse_digits-decimal n)
  where
    some_injective : some m ≡ some n → m ≡ n
    some_injective e = cc

numbered_injective :
    (base : Text) (m n : ℕ) → to_lower (numbered base m) ≡ to_lower (numbered base n) → m ≡ n
unfolding numbered
numbered_injective base m n h = decimal_injective m n (
    snoc_injective (decimal m) (decimal n) b')'
      (sym (number_of _ m) ∙ ap (behind []) h ∙ number_of _ n))

abbrev remove : Text → List Text → List Text
remove x [] = []
remove x (u ∷ used) = if text_eq x u then used else u ∷ remove x used

length-remove :
    (x : Text) (used : List Text)
    → any (text_eq x) used ≡ true
    → length used ≡ suc (length (remove x used))
length-remove x [] h = cc
length-remove x (u ∷ used) h = ground (arith, length-remove x used)

same_of : (x y u : Text) → text_eq x u ≡ true → text_eq y u ≡ true → text_eq x y ≡ true
same_of x y u h k = (text_eq_iff x y).1 ((text_eq_iff x u).0 h ∙ sym ((text_eq_iff y u).0 k))

any-remove :
    (x y : Text) (used : List Text)
    → text_eq x y ≡ false
    → any (text_eq y) used ≡ true
    → any (text_eq y) (remove x used) ≡ true
any-remove x y [] differ h = cc
any-remove x y (u ∷ used) differ h = ground (arith, same_of x y u, any-remove x y used differ)

-- No two of the texts are the same.
abbrev Distinct : List Text → Type 0
Distinct [] = Unit
Distinct (x ∷ xs) = All (λ y. text_eq x y ≡ false) xs × Distinct xs

All-remove :
    (x : Text) (used xs : List Text)
    → All (λ y. text_eq x y ≡ false) xs
    → All (λ y. any (text_eq y) used ≡ true) xs
    → All (λ y. any (text_eq y) (remove x used) ≡ true) xs
All-remove x used [] d h = tt
All-remove x used (y ∷ xs) d h = (any-remove x y used d.0 h.0, All-remove x used xs d.1 h.1)

pigeonhole :
    (xs used : List Text)
    → Distinct xs
    → All (λ y. any (text_eq y) used ≡ true) xs
    → length xs ≤ length used
pigeonhole [] used d h = omega arith
pigeonhole (x ∷ xs) used d h = omega (
  arith,
  length-remove x used h.0,
  pigeonhole xs (remove x used) d.1 (All-remove x used xs d.0 h.1),
)

-- The candidates from a number on, in lower case.
abbrev candidates : ℕ → ℕ → Text → List Text
candidates zero n base = []
candidates (suc fuel) n base = to_lower (numbered base n) ∷ candidates fuel (suc n) base

length-candidates : (fuel n : ℕ) (base : Text) → length (candidates fuel n base) ≡ fuel
length-candidates zero n base = refl
length-candidates (suc fuel) n base = ap (λ k. suc k) (length-candidates fuel (suc n) base)

false_of : (b : Bool) → ¬ (b ≡ true) → b ≡ false
false_of true h = absurd (h refl)
false_of false h = refl

other_candidates :
    (fuel m n : ℕ) (base : Text)
    → m < n
    → All (λ y. text_eq (to_lower (numbered base m)) y ≡ false) (candidates fuel n base)
other_candidates zero m n base h = tt
other_candidates (suc fuel) m n base h = (
  false_of _ (λ e. differ (numbered_injective base m n ((text_eq_iff _ _).0 e))),
  other_candidates fuel m (suc n) base (omega arith),
)
  where
    differ : ¬ (m ≡ n)
    differ e = omega arith

candidates-Distinct : (fuel n : ℕ) (base : Text) → Distinct (candidates fuel n base)
candidates-Distinct zero n base = tt
candidates-Distinct (suc fuel) n base =
    (other_candidates fuel n (suc n) base (omega arith), candidates-Distinct fuel (suc n) base)

some-ne-none {ℓ} : {A : Type ℓ} {a : A} → some a ≢ none
some-ne-none e = cc

-- A loop that runs out of fuel has met only names that are taken.
name_loop-taken :
    (fuel n : ℕ) (base candidate : Text) (used : List Text)
    → name_loop (suc fuel) n base candidate used ≡ none
    → (is_used candidate used ≡ true)
      × All (λ y. any (text_eq y) used ≡ true) (candidates fuel n base)
unfolding name_loop
name_loop-taken zero n base candidate used h = (
  elim (Bool-cases (is_used candidate used)) [
    | inr free ↦ absurd (some-ne-none (rw free at h))
    | inl hit ↦ hit
  ],
  tt,
)
name_loop-taken (suc fuel) n base candidate used h = elim (Bool-cases (is_used candidate used)) [
  | inr free ↦ absurd (some-ne-none (rw free at h))
  | inl hit ↦ (hit, name_loop-taken fuel (suc n) base (numbered base n) used (rw hit at h))
]

-- The search has fuel enough.
pub unique_sheet_name-ne-none :
    (name : Text) (used : List Text) → unique_sheet_name name used ≢ none
unfolding unique_sheet_name
unique_sheet_name-ne-none name used h = absurd (
    omega (
      arith,
      length-candidates (suc (length used)) 2 (sheet_title name),
      pigeonhole (candidates (suc (length used)) 2 (sheet_title name)) used
          (candidates-Distinct (suc (length used)) 2 (sheet_title name))
          (name_loop-taken (suc (length used)) 2 (sheet_title name) (sheet_title name) used h).1,
    ))

-- The name that is found is free and good, and taken from then on.
abbrev pub Found : (Text → Type 0) → List Text → Option (Text × List Text) → Type 0
Found Good used none = Unit
Found Good used (some (sheet, taken)) =
    Good sheet × (is_used sheet used ≡ false) × (taken ≡ to_lower sheet ∷ used)

-- What holds of the title and of the first candidates holds of the name that is found.
pub name_loop-Found :
    (Good : Text → Type 0) (base : Text) (last : ℕ)
    → ((n : ℕ) → n < last → Good (numbered base n))
    → (fuel n : ℕ) (candidate : Text) (used : List Text) → n + fuel ≤ last
    → Good candidate
    → Found Good used (name_loop fuel n base candidate used)
unfolding name_loop
name_loop-Found Good base last good zero n candidate used room own = tt
name_loop-Found Good base last good (suc fuel) n candidate used room own =
    elim (Bool-cases (is_used candidate used)) [
      | inl hit ↦ rw hit (
          name_loop-Found Good base last good fuel (suc n) (numbered base n) used (omega arith)
            (good n (omega arith)))
      | inr free ↦ simp free (own, refl, refl)
    ]
