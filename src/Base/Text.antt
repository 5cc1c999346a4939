-- ===== src/Base/Text.antt =====
-- Go strings as lists of bytes, and the functions of Go's strings package that the code calls.
use Prim.Native.Char.{code}
use Prim.Native.String.{String}
use Prim.Native.Nat.{ℕ, ◌+◌, ◌-◌}
use mathlib.Core.Path.{◌≡◌, refl}
use mathlib.Core.Bool.{Bool, true, false, ◌&&◌, ◌||◌}
use mathlib.Core.Logic.{◌↔◌}
use mathlib.Core.List.{List, [], ◌∷◌, ◌++◌, map, reverse}
use native.Mathlib.Omega.{arith}
use carma.Base.Tests.{ltb, leb, ◌==◌, if◌then◌else◌}

abbrev pub Text : Type 0
Text = List ℕ

abbrev codes : String → Text
codes String.[] = []
codes (String.◌∷◌ c s) = code c ∷ codes s

-- A text literal of ASCII characters.
abbrev pub text : String → Text
text s = codes s

unfoldable pub text_eq : Text → Text → Bool
text_eq [] [] = true
text_eq (a ∷ s) (b ∷ t) = a == b && text_eq s t
text_eq _ _ = false

pub text_eq_iff : (s t : Text) → (text_eq s t ≡ true) ↔ (s ≡ t)
unfolding text_eq
text_eq_iff [] [] = ((λ _. refl), (λ _. refl))
text_eq_iff [] (b ∷ t) = ((λ h. cc), (λ h. cc))
text_eq_iff (a ∷ s) [] = ((λ h. cc), (λ h. cc))
text_eq_iff (a ∷ s) (b ∷ t) = ground (arith, text_eq_iff s t)

pub text_eq_refl : (s : Text) → text_eq s s ≡ true
text_eq_refl s = (text_eq_iff s s).1 refl

-- strings.HasPrefix
unfoldable pub starts_with : Text → Text → Bool
starts_with s [] = true
starts_with [] (p ∷ ps) = false
starts_with (c ∷ s) (p ∷ ps) = c == p && starts_with s ps

-- ASCII white space, as strings.TrimSpace and strings.Fields read it.
unfoldable pub is_space : ℕ → Bool
is_space c = c == 32 || (leb 9 c && leb c 13)

abbrev pub drop_while : (ℕ → Bool) → Text → Text
drop_while p [] = []
drop_while p (c ∷ s) = if p c then drop_while p s else c ∷ s

abbrev pub drop_end : (ℕ → Bool) → ℕ → Text → Text
drop_end p c [] = if p c then [] else c ∷ []
drop_end p c (d ∷ r) = c ∷ d ∷ r

-- Keeps a trailing character only if one that fails the test stands at or behind it.
abbrev pub drop_while_end : (ℕ → Bool) → Text → Text
drop_while_end p [] = []
drop_while_end p (c ∷ s) = drop_end p c (drop_while_end p s)

-- strings.TrimSpace on ASCII text.
unfoldable pub trim_space : Text → Text
unfolding is_space
trim_space s = drop_while_end is_space (drop_while is_space s)

-- strings.ToLower on ASCII text.
abbrev pub lower : ℕ → ℕ
lower c = if leb b'A' c && leb c b'Z' then c + 32 else c

abbrev pub upper : ℕ → ℕ
upper c = if leb b'a' c && leb c b'z' then c - 32 else c

unfoldable pub to_lower : Text → Text
to_lower s = map lower s

unfoldable pub to_upper : Text → Text
to_upper s = map upper s

abbrev pub add_head : ℕ → List Text → List Text
add_head c [] = (c ∷ []) ∷ []
add_head c (p ∷ ps) = (c ∷ p) ∷ ps

-- strings.Split by a separator of one byte: never empty.
unfoldable pub split : ℕ → Text → List Text
split sep [] = [] ∷ []
split sep (c ∷ s) = if c == sep then [] ∷ split sep s else add_head c (split sep s)

-- strings.Join
unfoldable pub join : Text → List Text → Text
join sep [] = []
join sep (p ∷ []) = p
join sep (p ∷ q ∷ ps) = p ++ sep ++ join sep (q ∷ ps)

-- strings.Compare: a before b in the order of bytes.
unfoldable pub text_lt : Text → Text → Bool
text_lt [] [] = false
text_lt [] (b ∷ t) = true
text_lt (a ∷ s) [] = false
text_lt (a ∷ s) (b ∷ t) = if ltb a b then true else a == b && text_lt s t

abbrev pub add_field : Text → List Text → List Text
add_field [] rest = rest
add_field (c ∷ w) rest = (c ∷ w) ∷ rest

-- strings.Fields on ASCII text: the runs of characters that are no white space; `word` is the run that
-- is being read, its last character first.
unfoldable pub fields_from : Text → Text → List Text
unfolding is_space
fields_from word [] = add_field (reverse word) []
fields_from word (c ∷ s) =
    let inside = fields_from (c ∷ word) s in
    let outside = fields_from [] s in
    if is_space c then add_field (reverse word) outside else inside

unfoldable pub fields : Text → List Text
unfolding fields_from
fields s = fields_from [] s

-- strings.TrimRight(s, cutset)
unfoldable pub trim_right : Text → Text → Text
trim_right s cutset = drop_while_end (λ c. any_char c cutset) s
  where
    any_char : ℕ → Text → Bool
    any_char c [] = false
    any_char c (d ∷ r) = c == d || any_char c r
