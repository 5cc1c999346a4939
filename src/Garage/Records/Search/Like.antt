-- ===== src/Garage/Records/Search/Like.antt =====
-- The text that a search finds, against the plain reading of the query.
use carma.Base.{
  ℕ, ◌≡◌, refl, ap, ap₂, ◌∙◌, inl, inr, Bool, true, false, ◌&&◌, ◌||◌, [], ◌∷◌, ◌++◌, ◌==◌,
  Bool-cases, arith,
}
use carma.Base.Text.{Text}
use carma.Garage.Records.Search.{
  any_end, same_char, after_char, at_end, ilike, is_special, escape_like_pattern, search_matches,
}

-- Does the text start with the query, up to the case of ASCII letters?
abbrev pub starts_with_fold : Text → Text → Bool
starts_with_fold [] s = true
starts_with_fold (c ∷ q) [] = false
starts_with_fold (c ∷ q) (d ∷ s) = same_char c d && starts_with_fold q s

any_end-ext :
    (f g : Text → Bool) → ((s : Text) → f s ≡ g s) → (s : Text) → any_end f s ≡ any_end g s
any_end-ext f g h [] = h []
any_end-ext f g h (c ∷ s) = ap₂ (λ a b. a || b) (h (c ∷ s)) (any_end-ext f g h s)

any_end-at_end : (s : Text) → any_end at_end s ≡ true
any_end-at_end [] = refl
any_end-at_end (c ∷ s) = any_end-at_end s

-- The escaped character matches itself only.
ilike-escaped : (c : ℕ) (p s : Text) → ilike false (92 ∷ c ∷ p) s ≡ after_char c (ilike false p) s
unfolding ilike
ilike-escaped c p s = refl

ilike-plain :
    (c : ℕ) (p s : Text)
    → is_special c ≡ false
    → ilike false (c ∷ p) s ≡ after_char c (ilike false p) s
unfolding ilike
ilike-plain c p s h = simp (percent, underscore, backslash) refl
  where
    percent : (c == b'%') ≡ false
    percent = ground arith

    underscore : (c == b'_') ≡ false
    underscore = ground arith

    backslash : (c == 92) ≡ false
    backslash = ground arith

after_char-starts :
    (c : ℕ) (q s : Text) (f : Text → Bool)
    → ((s : Text) → f s ≡ starts_with_fold q s)
    → after_char c f s ≡ starts_with_fold (c ∷ q) s
after_char-starts c q [] f h = refl
after_char-starts c q (d ∷ s) f h = ap (λ b. same_char c d && b) (h s)

ilike-escape :
    (q s : Text) → ilike false (escape_like_pattern q ++ b'%' ∷ []) s ≡ starts_with_fold q s
unfolding escape_like_pattern ilike
ilike-escape [] s = any_end-at_end s
ilike-escape (c ∷ q) s = elim (Bool-cases (is_special c)) [
  | inl special ↦ simp special (
      ilike-escaped c (escape_like_pattern q ++ b'%' ∷ []) s
      ∙ after_char-starts c q s _ (ilike-escape q))
  | inr plain ↦ simp plain (
      ilike-plain c (escape_like_pattern q ++ b'%' ∷ []) s plain
      ∙ after_char-starts c q s _ (ilike-escape q))
]

-- A search finds a text exactly when the query stands in it, up to the case of ASCII letters: the query's
-- percent signs, underscores and backslashes stand for themselves.
pub search_matches-contains :
    (q value : Text)
    → search_matches (escape_like_pattern q) value ≡ any_end (starts_with_fold q) value
unfolding search_matches ilike
search_matches-contains q value = any_end-ext _ _ (ilike-escape q) value
