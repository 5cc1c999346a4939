-- ===== src/Export/Names/Trim.antt =====
-- What trimming and cutting do to the characters, the length and the edges of a name.
use carma.Base.{
  ℕ, ◌+◌, ◌≤◌, ◌≡◌, refl, inl, inr, Bool, true, false, not, ◌||◌, [], ◌∷◌, ◌++◌, ltb, ◌==◌, all,
  all-append, Bool-cases, arith,
}
use carma.Base.Text.{Text, drop_while, drop_end, drop_while_end}
use carma.Export.Names.{
  is_edge, trim_sheet_edges, utf16_width, utf16_length, truncate_from, truncate_utf16,
}

abbrev pub allowed_char : ℕ → Bool
allowed_char c =
    not (c == b':' || c == b'\\' || c == b'/' || c == b'?' || c == b'*' || c == b'[' || c == b']')

abbrev pub starts_quote : Text → Bool
starts_quote [] = false
starts_quote (c ∷ s) = c == b'\''

abbrev pub ends_quote : Text → Bool
ends_quote [] = false
ends_quote (c ∷ []) = c == b'\''
ends_quote (c ∷ d ∷ s) = ends_quote (d ∷ s)

-- Trimming and cutting keep the characters allowed and the length in bounds.
pub all-drop_while : (p q : ℕ → Bool) (s : Text) → all p s ≡ true → all p (drop_while q s) ≡ true
all-drop_while p q [] h = refl
all-drop_while p q (c ∷ s) h = ground (arith, all-drop_while p q s)

pub all-drop_while_end :
    (p q : ℕ → Bool) (s : Text) → all p s ≡ true → all p (drop_while_end q s) ≡ true
all-drop_while_end p q [] h = refl
all-drop_while_end p q (c ∷ s) h =
    kept (drop_while_end q s) (all-drop_while_end p q s (ground arith))
  where
    kept : (r : Text) → all p r ≡ true → all p (drop_end q c r) ≡ true
    kept [] k = ground arith
    kept (d ∷ r) k = ground arith

pub all-truncate :
    (p : ℕ → Bool) (units limit : ℕ) (s : Text)
    → all p s ≡ true
    → all p (truncate_from units limit s) ≡ true
unfolding truncate_from
all-truncate p units limit [] h = refl
all-truncate p units limit (c ∷ s) h =
    ground (arith, all-truncate p (units + utf16_width c) limit s)

pub length-drop_while : (q : ℕ → Bool) (s : Text) → utf16_length (drop_while q s) ≤ utf16_length s
unfolding utf16_length
length-drop_while q [] = omega arith
length-drop_while q (c ∷ s) = ground (arith, length-drop_while q s)

pub length-drop_while_end :
    (q : ℕ → Bool) (s : Text) → utf16_length (drop_while_end q s) ≤ utf16_length s
unfolding utf16_length
length-drop_while_end q [] = omega arith
length-drop_while_end q (c ∷ s) = kept (drop_while_end q s) (length-drop_while_end q s)
  where
    kept :
        (r : Text)
        → utf16_length r ≤ utf16_length s
        → utf16_length (drop_end q c r) ≤ utf16_width c + utf16_length s
    kept [] k = ground arith
    kept (d ∷ r) k = omega (arith, k)

pub length-truncate :
    (units limit : ℕ) (s : Text)
    → units ≤ limit
    → units + utf16_length (truncate_from units limit s) ≤ limit
unfolding utf16_length truncate_from
length-truncate units limit [] h = omega arith
length-truncate units limit (c ∷ s) h = elim (Bool-cases (ltb limit (units + utf16_width c))) [
  | inl over ↦ simp over (omega arith)
  | inr fits ↦
      simp fits (omega (arith, length-truncate (units + utf16_width c) limit s (ground arith)))
]

pub all-append_of :
    (p : ℕ → Bool) (s t : Text) → all p s ≡ true → all p t ≡ true → all p (s ++ t) ≡ true
all-append_of p s t h k = ground (arith, all-append p s t)

-- The edges of a trimmed text.
starts_edge : Text → Bool
starts_edge [] = false
starts_edge (c ∷ s) = is_edge c

starts_edge-drop_while : (s : Text) → starts_edge (drop_while is_edge s) ≡ false
unfolding starts_edge
starts_edge-drop_while [] = refl
starts_edge-drop_while (c ∷ s) = elim (Bool-cases (is_edge c)) [
  | inl edge ↦ simp edge (starts_edge-drop_while s)
  | inr inner ↦ simp inner refl
]

starts_edge-drop_while_end :
    (s : Text) → starts_edge s ≡ false → starts_edge (drop_while_end is_edge s) ≡ false
unfolding starts_edge
starts_edge-drop_while_end [] h = refl
starts_edge-drop_while_end (c ∷ s) h = kept (drop_while_end is_edge s)
  where
    kept : (r : Text) → starts_edge (drop_end is_edge c r) ≡ false
    kept [] = simp h refl
    kept (d ∷ r) = h

starts_quote-edge : (s : Text) → starts_edge s ≡ false → starts_quote s ≡ false
unfolding starts_edge
starts_quote-edge [] h = refl
starts_quote-edge (c ∷ s) h = ground arith

ends_quote-drop_while_end : (s : Text) → ends_quote (drop_while_end is_edge s) ≡ false
ends_quote-drop_while_end [] = refl
ends_quote-drop_while_end (c ∷ s) = kept (drop_while_end is_edge s) (ends_quote-drop_while_end s)
  where
    kept : (r : Text) → ends_quote r ≡ false → ends_quote (drop_end is_edge c r) ≡ false
    kept [] h = ground arith
    kept (d ∷ r) h = h

pub starts_quote-trim : (s : Text) → starts_quote (trim_sheet_edges s) ≡ false
unfolding trim_sheet_edges
starts_quote-trim s =
    starts_quote-edge _
      (starts_edge-drop_while_end (drop_while is_edge s) (starts_edge-drop_while s))

pub ends_quote-trim : (s : Text) → ends_quote (trim_sheet_edges s) ≡ false
unfolding trim_sheet_edges
ends_quote-trim s = ends_quote-drop_while_end (drop_while is_edge s)

pub all-trim : (p : ℕ → Bool) (s : Text) → all p s ≡ true → all p (trim_sheet_edges s) ≡ true
unfolding trim_sheet_edges
all-trim p s h = all-drop_while_end p is_edge (drop_while is_edge s) (all-drop_while p is_edge s h)

pub length-trim : (s : Text) → utf16_length (trim_sheet_edges s) ≤ utf16_length s
unfolding trim_sheet_edges
length-trim s =
    omega (arith, length-drop_while_end is_edge (drop_while is_edge s), length-drop_while is_edge s)

pub length-cut : (s : Text) (limit : ℕ) → utf16_length (truncate_utf16 s limit) ≤ limit
unfolding truncate_utf16
length-cut s limit = omega (arith, length-truncate 0 limit s)

pub all-cut :
    (p : ℕ → Bool) (s : Text) (limit : ℕ) → all p s ≡ true → all p (truncate_utf16 s limit) ≡ true
unfolding truncate_utf16
all-cut p s limit h = all-truncate p 0 limit s h
