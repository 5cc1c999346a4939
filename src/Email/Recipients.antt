-- ===== src/Email/Recipients.antt =====
-- The recipients of the emails (NormalizeRecipients of internal/reminderemail/runner.go).
use carma.Base.{
  ℕ, ◌≡◌, refl, inl, inr, Bool, true, false, not, ◌&&◌, ◌||◌, Option, none, some, List, [], ◌∷◌,
  ◌++◌, ◌==◌, if◌then◌else◌, Bool-cases, any, any-append, All, arith,
}
use carma.Base.Text.{Text, text_eq, text_eq_iff, trim_space, to_lower, lower}

-- net/mail.ParseAddress: the display name and the address, or an error.
abbrev pub AddressParser : Type 0
AddressParser = Text → Option (Text × Text)

abbrev pub not_blank : Text → Bool
not_blank [] = false
not_blank (d ∷ r) = true

-- Something stands behind the first "@".
abbrev pub has_domain : Text → Bool
has_domain [] = false
has_domain (d ∷ r) = if d == b'@' then not_blank r else has_domain r

-- strings.Cut(address, "@") finds the separator, and neither part is empty.
unfoldable pub has_two_parts : Text → Bool
has_two_parts [] = false
has_two_parts (c ∷ s) = not (c == b'@') && has_domain s

-- The tests on a parsed address before it is lowered.
unfoldable pub plain_address : Text → Text × Text → Bool
plain_address value (name, address) =
    text_eq name []
    && text_eq (to_lower address) (to_lower value)
    && has_two_parts address
    && not (any (λ c. c == 13 || c == 10) address)

abbrev pub contains : List Text → Text → Bool
contains seen t = any (λ s. text_eq s t) seen

abbrev pub add_recipient : List Text → Text → Option (Text × Text) → List Text
add_recipient recipients value none = recipients
add_recipient recipients value (some (name, address)) =
    let normalized = to_lower address in
    if plain_address value (name, address) && not (contains recipients normalized)
    then recipients ++ normalized ∷ []
    else recipients

module _ (parse : AddressParser) where
  -- The recipients are also the keys of `seen`.
  unfoldable pub normalize_loop : List Text → List Text → List Text
  normalize_loop recipients [] = recipients
  normalize_loop recipients (raw ∷ values) =
      normalize_loop (add_recipient recipients (trim_space raw) (parse (trim_space raw))) values

  unfoldable pub normalize_recipients : List Text → List Text
  unfolding normalize_loop
  normalize_recipients values = normalize_loop [] values

-- No text stands twice in the list.
abbrev pub distinct : List Text → Bool
distinct [] = true
distinct (t ∷ ts) = not (contains ts t) && distinct ts

pub distinct-snoc :
    (ts : List Text) (t : Text)
    → distinct ts ≡ true
    → contains ts t ≡ false
    → distinct (ts ++ t ∷ []) ≡ true
distinct-snoc [] t d n = refl
distinct-snoc (u ∷ ts) t d n = ground (
  arith,
  distinct-snoc ts t,
  any-append (λ s. text_eq s u) ts (t ∷ []),
  text_eq_iff u t,
  text_eq_iff t u,
)

lower_idem : (c : ℕ) → lower (lower c) ≡ lower c
lower_idem c = ground arith

to_lower_idem : (s : Text) → to_lower (to_lower s) ≡ to_lower s
unfolding to_lower
to_lower_idem [] = refl
to_lower_idem (c ∷ s) = cc (lower_idem c, to_lower_idem s)

-- In lower case.
abbrev pub IsLower : Text → Type 0
IsLower t = to_lower t ≡ t

All-snoc : (ts : List Text) (t : Text) → All IsLower ts → IsLower t → All IsLower (ts ++ t ∷ [])
All-snoc [] t h k = (k, tt)
All-snoc (u ∷ ts) t h k = (h.0, All-snoc ts t h.1 k)

add_recipient_keeps :
    (recipients : List Text) (value : Text) (parsed : Option (Text × Text))
    → distinct recipients ≡ true
    → All IsLower recipients
    → (distinct (add_recipient recipients value parsed) ≡ true)
      × All IsLower (add_recipient recipients value parsed)
add_recipient_keeps recipients value none d l = (d, l)
add_recipient_keeps recipients value (some (name, address)) d l =
    elim (Bool-cases
      (plain_address value (name, address) && not (contains recipients (to_lower address)))) [
        | inl new ↦ rw new (
          distinct-snoc recipients (to_lower address) d (ground arith),
          All-snoc recipients (to_lower address) l (to_lower_idem address),
        )
        | inr old ↦ rw old (d, l)
      ]

normalize_loop_keeps :
    (parse : AddressParser) (recipients values : List Text)
    → distinct recipients ≡ true
    → All IsLower recipients
    → (distinct (normalize_loop parse recipients values) ≡ true)
      × All IsLower (normalize_loop parse recipients values)
unfolding normalize_loop
normalize_loop_keeps parse recipients [] d l = (d, l)
normalize_loop_keeps parse recipients (raw ∷ values) d l =
    let (d', l') = add_recipient_keeps recipients (trim_space raw) (parse (trim_space raw)) d l in
    normalize_loop_keeps parse (add_recipient recipients (trim_space raw) (parse (trim_space raw)))
      values d' l'

-- Each recipient is in lower case and listed once, whatever the parser of addresses answers.
pub normalize_recipients-distinct :
    (parse : AddressParser) (values : List Text)
    → (distinct (normalize_recipients parse values) ≡ true)
      × All IsLower (normalize_recipients parse values)
unfolding normalize_recipients
normalize_recipients-distinct parse values = normalize_loop_keeps parse [] values refl tt
