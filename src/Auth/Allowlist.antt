-- ===== src/Auth/Allowlist.antt =====
-- The allowlist of addresses and domains (Allowlist and AccessPolicy of internal/auth/auth.go).
use carma.Base.{
  ℕ, ◌≡◌, ◌≢◌, refl, ap, ◌∙◌, ◌↔◌, ◌⊎◌, inl, inr, Bool, true, false, ◌&&◌, ◌||◌, Option, none, some,
  List, [], ◌∷◌, map, any, count, ◌==◌, if◌then◌else◌, Bool-cases, arith,
}
use carma.Base.Text.{Text, text_eq, trim_space, to_lower, split, add_head}

-- The keys of the two maps.
pub record Allowlist : Type 0 where
  pub emails : List Text
  pub domains : List Text

-- strings.TrimPrefix(s, "@")
abbrev pub trim_at : Text → Text
trim_at [] = []
trim_at (c ∷ s) = if c == b'@' then s else c ∷ s

abbrev pub email_key : Text → Text
email_key v = to_lower (trim_space v)

abbrev pub domain_key : Text → Text
domain_key v = to_lower (trim_at (trim_space v))

unfoldable pub new_allowlist : List Text → List Text → Allowlist
new_allowlist emails domains = record {
  emails = map email_key emails;
  domains = map domain_key domains;
}

abbrev pub has_key : List Text → Text → Bool
has_key keys t = any (λ k. text_eq k t) keys

-- parts[1], where there are two parts.
abbrev pub second_of_two : List Text → Option Text
second_of_two (a ∷ b ∷ []) = some b
second_of_two _ = none

abbrev pub has_domain_key : List Text → Option Text → Bool
has_domain_key domains none = false
has_domain_key domains (some domain) = has_key domains domain

unfoldable pub allowed : Allowlist → Text → Bool
allowed a raw =
    let email = email_key raw in
    if has_key a.emails email
    then true
    else has_domain_key a.domains (second_of_two (split b'@' email))

pub data AuthMode : Type 0 where
  auth_google auth_development : AuthMode

-- No policy admits every user.
unfoldable pub access_policy : AuthMode → List Text → List Text → Option (Text → Bool)
access_policy auth_google emails domains = some (allowed (new_allowlist emails domains))
access_policy auth_development emails domains = none

abbrev pub is_at : ℕ → Bool
is_at c = c == b'@'

-- What follows the first "@".
abbrev pub behind_at : Text → Text
behind_at [] = []
behind_at (c ∷ s) = if is_at c then s else behind_at s

abbrev only : List Text → Option Text
only (a ∷ []) = some a
only _ = none

second-cons : (c : ℕ) (ps : List Text) → second_of_two (add_head c ps) ≡ second_of_two ps
second-cons c [] = refl
second-cons c (p ∷ []) = refl
second-cons c (p ∷ q ∷ []) = refl
second-cons c (p ∷ q ∷ r ∷ ps) = refl

abbrev has_part : List Text → Bool
has_part [] = false
has_part (p ∷ ps) = true

has_part-add_head : (c : ℕ) (ps : List Text) → has_part (add_head c ps) ≡ true
has_part-add_head c [] = refl
has_part-add_head c (p ∷ ps) = refl

has_part-split : (s : Text) → has_part (split b'@' s) ≡ true
unfolding split
has_part-split [] = refl
has_part-split (c ∷ s) = elim (Bool-cases (is_at c)) [
  | inl at ↦ rw at refl
  | inr other ↦ rw other (has_part-add_head c (split b'@' s))
]

only_behind : (ps : List Text) → has_part ps ≡ true → only ([] ∷ ps) ≡ none
only_behind [] h = absurd (no h)
  where
    no : ◌≢◌ {A = Bool} false true
    no e = cc
only_behind (p ∷ ps) h = refl

second_behind : (ps : List Text) → second_of_two ([] ∷ ps) ≡ only ps
second_behind [] = refl
second_behind (p ∷ []) = refl
second_behind (p ∷ q ∷ ps) = refl

abbrev on_some : ℕ → Option Text → Option Text
on_some c none = none
on_some c (some s) = some (c ∷ s)

only-add_head :
    (c : ℕ) (ps : List Text) → has_part ps ≡ true → only (add_head c ps) ≡ on_some c (only ps)
only-add_head c [] h = absurd (no_part h)
  where
    no_part : ◌≢◌ {A = Bool} false true
    no_part e = cc
only-add_head c (p ∷ []) h = refl
only-add_head c (p ∷ q ∷ ps) h = refl

only-split : (s : Text) → only (split b'@' s) ≡ (if count is_at s == 0 then some s else none)
unfolding split
only-split [] = refl
only-split (c ∷ s) = elim (Bool-cases (is_at c)) [
  | inl at ↦ rw at (only_behind (split b'@' s) (has_part-split s) ∙ ground arith)
  | inr other ↦ rw other (
      only-add_head c (split b'@' s) (has_part-split s)
      ∙ ap (on_some c) (only-split s)
      ∙ ground arith)
]

-- The second part is what follows the "@", if there is just one.
second-split :
    (s : Text)
    → second_of_two (split b'@' s) ≡ (if count is_at s == 1 then some (behind_at s) else none)
unfolding split
second-split [] = refl
second-split (c ∷ s) = elim (Bool-cases (is_at c)) [
  | inl at ↦ rw at (second_behind (split b'@' s) ∙ only-split s ∙ ground arith)
  | inr other ↦ rw other (second-cons c (split b'@' s) ∙ second-split s)
]

has_key-map :
    (key : Text → Text) (values : List Text) (t : Text)
    → has_key (map key values) t ≡ any (λ v. text_eq (key v) t) values
has_key-map key [] t = refl
has_key-map key (v ∷ values) t = ap (λ b. text_eq (key v) t || b) (has_key-map key values t)

has_domain_key-if :
    (domains : List Text) (one : Bool) (domain : Text)
    → has_domain_key domains (if one then some domain else none) ≡ (one && has_key domains domain)
has_domain_key-if domains true domain = refl
has_domain_key-if domains false domain = refl

either_list :
    (listed : Bool) (n : ℕ) (found : Bool)
    → ((if listed then true else (n == 1 && found)) ≡ true)
      ↔ ((listed ≡ true) ⊎ ((n ≡ 1) × (found ≡ true)))
either_list true n found = ((λ h. inl refl), (λ h. refl))
either_list false n found = ground arith

-- An address is admitted exactly when, without outer blanks and in lower case, it is one of the
-- listed addresses, or it has just one "@" and what follows it is one of the listed domains, each
-- entry read without outer blanks, in lower case, and a domain without a leading "@".
pub allowed_iff :
    (emails domains : List Text) (raw : Text)
    → (allowed (new_allowlist emails domains) raw ≡ true) ↔ (
        (any (λ v. text_eq (email_key v) (email_key raw)) emails ≡ true)
        ⊎ ((count is_at (email_key raw) ≡ 1)
            × (any (λ v. text_eq (domain_key v) (behind_at (email_key raw))) domains ≡ true)))
unfolding allowed new_allowlist
allowed_iff emails domains raw =
    simp
      (
        has_key-map email_key emails (email_key raw),
        second-split (email_key raw),
        has_domain_key-if (map domain_key domains) (count is_at (email_key raw) == 1),
        has_key-map domain_key domains (behind_at (email_key raw)),
      )
      (either_list _ (count is_at (email_key raw)) _)
