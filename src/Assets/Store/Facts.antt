-- ===== src/Assets/Store/Facts.antt =====
-- A saved file is found under its key until it is deleted.
use carma.Base.{
  ℕ, zero, suc, ◌≡◌, ◌≢◌, refl, sym, ap, ◌∙◌, inl, inr, Bool, true, false, not, ◌&&◌, ◌||◌, Option,
  none, some, List, [], ◌∷◌, ◌++◌, append_assoc, all, ltb, leb, ◌==◌, ==_iff, if◌then◌else◌, length,
  take, Bool-cases, arith,
}
use mathlib.Core.Path.{subst}
use carma.Base.Result.{Result, ok, err}
use carma.Base.Text.{Text, text, text_eq, text_eq_iff, text_eq_refl}
use carma.Assets.{
  regular, Item, Entry, leaf, branch, Files, lower_hex, extensions, contains_text, is_extension,
  is_id_from, is_key, in_folder, object_files,
}
use carma.Assets.Store.{
  Object, StoreError, detect, SaveAnswers, put_item, keep_entry, place, object_name, object_key,
  save_placed, save_typed, save, find_file, open_object,
}

abbrev pub id_char : ℕ → Bool
id_char c = lower_hex c || c == b'-'

-- What uuid.NewString gives: 36 hexadecimal digits and dashes, with digits first.
pub record IsUuid (id : Text) : Type 0 where
  pub chars : all id_char id ≡ true
  pub long : length id ≡ 36
  pub first : all lower_hex (take 2 id) ≡ true

abbrev pub no_slash : Text → Bool
no_slash s = all (λ c. not (c == b'/')) s

-- No name of an entry, or of an item of its, has a slash.
abbrev pub Plain : List Entry → Type 0
Plain [] = Unit
Plain (leaf i ∷ entries) = (no_slash i.name ≡ true) × Plain entries
Plain (branch name items ∷ entries) = (no_slash name ≡ true) × Plain entries

is_id_from-append :
    (n : ℕ) (id s : Text)
    → all id_char id ≡ true
    → length id ≡ n
    → is_extension s ≡ true
    → is_id_from n (id ++ s) ≡ true
unfolding is_id_from
is_id_from-append zero [] s h l e = e
is_id_from-append zero (c ∷ id) s h l e = absurd (omega (arith, l))
is_id_from-append (suc n) [] s h l e = absurd (omega (arith, l))
is_id_from-append (suc n) (c ∷ id) s h l e = elim (Bool-cases (id_char c)) [
  | inl fits ↦ simp fits (is_id_from-append n id s (simp fits at h) (omega (arith, l)) e)
  | inr other ↦ absurd (false_ne (simp other at h))
]
  where
    false_ne : false ≢ true
    false_ne e = cc

key_of_id :
    (id s : Text)
    → all id_char id ≡ true
    → length id ≡ 36
    → all lower_hex (take 2 id) ≡ true
    → is_extension s ≡ true
    → is_key ((take 2 id ++ text "/") ++ (id ++ s)) ≡ true
unfolding is_key
key_of_id [] s h l f e = absurd (omega (arith, l))
key_of_id (a ∷ []) s h l f e = absurd (omega (arith, l))
key_of_id (a ∷ b ∷ id) s h l f e =
    all_four (lower_hex a) (lower_hex b) _ f (is_id_from-append 36 (a ∷ b ∷ id) s h l e)
  where
    all_four : (x y z : Bool) → (x && (y && true)) ≡ true → z ≡ true → (x && y && true && z) ≡ true
    all_four x y z h k = ground arith

-- Names without slashes before a slash are equal if the texts are.
same_folder :
    (a b s t : Text)
    → no_slash a ≡ true
    → no_slash b ≡ true
    → text_eq (a ++ text "/" ++ s) (b ++ text "/" ++ t) ≡ true
    → text_eq a b ≡ true
unfolding text_eq
same_folder [] [] s t h k e = refl
same_folder [] (c ∷ b) s t h k e = absurd (ground arith)
same_folder (c ∷ a) [] s t h k e = absurd (ground arith)
same_folder (c ∷ a) (d ∷ b) s t h k e = elim (Bool-cases (c == d)) [
  | inl same ↦ simp same (same_folder a b s t (rest c a h) (rest d b k) (simp same at e))
  | inr other ↦ absurd (false_ne (simp other at e))
]
  where
    rest : (c : ℕ) (a : Text) → no_slash (c ∷ a) ≡ true → no_slash a ≡ true
    rest c a h = ground arith

    false_ne : false ≢ true
    false_ne e = cc

not_in_plain : (a b s : Text) → no_slash a ≡ true → text_eq a (b ++ text "/" ++ s) ≡ false
unfolding text_eq
not_in_plain [] [] s h = refl
not_in_plain [] (c ∷ b) s h = refl
not_in_plain (c ∷ a) [] s h = ground arith
not_in_plain (c ∷ a) (d ∷ b) s h = ground (arith, not_in_plain a b s)

text_eq-prefix : (p s t : Text) → text_eq (p ++ s) (p ++ t) ≡ text_eq s t
unfolding text_eq
text_eq-prefix [] s t = refl
text_eq-prefix (c ∷ p) s t = simp ((==_iff c c).1 refl) (text_eq-prefix p s t)

find_put :
    (p : Text) (i : Item) (items : List Item) (more : List (Text × Item))
    → find_file (p ++ i.name) (in_folder p (put_item i items) ++ more) ≡ some i
unfolding put_item
find_put p i [] more = simp (text_eq_refl (p ++ i.name))
find_put p i (j ∷ items) more = elim (Bool-cases (text_eq j.name i.name)) [
  | inl same ↦ simp (same, text_eq_refl (p ++ i.name))
  | inr other ↦ simp (other, text_eq-prefix p j.name i.name) (find_put p i items more)
]

find_past :
    (key name : Text) (items : List Item) (more : List (Text × Item))
    → ((j : Item) → text_eq ((name ++ text "/") ++ j.name) key ≡ false)
    → find_file key (in_folder (name ++ text "/") items ++ more) ≡ find_file key more
find_past key name [] more h = refl
find_past key name (j ∷ items) more h = simp (h j) (find_past key name items more h)

module _ (shard : Text) (i : Item) (plain : no_slash shard ≡ true) where
  -- What a key finds after the file was placed.
  abbrev Finds : Option (List Entry) → Type 0
  Finds none = Unit
  Finds (some entries) = find_file ((shard ++ text "/") ++ i.name) (object_files entries) ≡ some i

  leaf-Finds :
      (j : Item) (o : Option (List Entry))
      → no_slash j.name ≡ true
      → Finds o
      → Finds (keep_entry (leaf j) o)
  unfolding object_files
  leaf-Finds j none h f = tt
  leaf-Finds j (some entries) h f = simp (not_in_plain j.name shard i.name h) f

  branch-Finds :
      (name : Text) (items : List Item) (o : Option (List Entry))
      → no_slash name ≡ true
      → text_eq name shard ≡ false
      → Finds o
      → Finds (keep_entry (branch name items) o)
  unfolding object_files
  branch-Finds name items none h other f = tt
  branch-Finds name items (some entries) h other f =
      find_past ((shard ++ text "/") ++ i.name) name items (object_files entries) elsewhere ∙ f
    where
      elsewhere :
          (j : Item)
          → text_eq ((name ++ text "/") ++ j.name) ((shard ++ text "/") ++ i.name) ≡ false
      elsewhere j =
          elim (Bool-cases
            (text_eq ((name ++ text "/") ++ j.name) ((shard ++ text "/") ++ i.name))) [
              | inr differ ↦ differ
              | inl same ↦
                  absurd (ne (sym other ∙ same_folder name shard j.name i.name h plain same))
            ]
        where
          ne : false ≢ true
          ne e = cc

  place-Finds : (entries : List Entry) → Plain entries → Finds (place shard i entries)
  unfolding place object_files
  place-Finds [] h = simp (text_eq_refl ((shard ++ text "/") ++ i.name))
  place-Finds (leaf j ∷ entries) h = elim (Bool-cases (text_eq j.name shard)) [
    | inl clash ↦ simp clash tt
    | inr other ↦ simp other (leaf-Finds j (place shard i entries) h.0 (place-Finds entries h.1))
  ]
  place-Finds (branch name items ∷ entries) h = elim (Bool-cases (text_eq name shard)) [
    | inl same ↦ simp same (
        ap
          (λ n.
            find_file ((n ++ text "/") ++ i.name)
              (in_folder (name ++ text "/") (put_item i items) ++ object_files entries))
          (sym ((text_eq_iff name shard).0 same))
        ∙ find_put (name ++ text "/") i items (object_files entries))
    | inr other ↦
        simp other
          (branch-Finds name items (place shard i entries) h.0 other (place-Finds entries h.1))
  ]

abbrev Detected : Option (Text × Text) → Type 0
Detected none = Unit
Detected (some (mime, ext)) = contains_text extensions ext ≡ true

pick-Detected :
    (p q r s t : Bool)
    → Detected (
        if p
        then some (text "application/pdf", text "pdf")
        else if q
        then some (text "image/jpeg", text "jpg")
        else if r
        then some (text "image/png", text "png")
        else if s
        then some (text "image/webp", text "webp")
        else if t
        then some (text "image/heic", text "heic")
        else none)
unfolding text_eq
pick-Detected true q r s t = refl
pick-Detected false true r s t = refl
pick-Detected false false true s t = refl
pick-Detected false false false true t = refl
pick-Detected false false false false true = refl
pick-Detected false false false false false = tt

detect-Detected : (b : Text) → Detected (detect b)
unfolding detect
detect-Detected b = pick-Detected _ _ _ _ _

take_all : (n : ℕ) (s : Text) → ltb n (length (take (suc n) s)) ≡ false → take (suc n) s ≡ s
take_all n [] h = refl
take_all zero (c ∷ s) h = absurd (ground arith)
take_all (suc n) (c ∷ s) h = ap (λ t. c ∷ t) (take_all n s (ground arith))

no_slash_of_hex : (s : Text) → all lower_hex s ≡ true → no_slash s ≡ true
no_slash_of_hex [] h = refl
no_slash_of_hex (c ∷ s) h = ground (arith, no_slash_of_hex s)

module _ (checksum : Text → Text) (a : SaveAnswers) (source : Text) where
  -- What a save that succeeds leaves.
  abbrev Opens : Files × Result StoreError Object → Type 0
  Opens (files, err e) = Unit
  Opens (files, ok object) =
      (open_object object.key files ≡ ok source) × (object.size ≡ length source)

  placed-Opens :
      (files : Files) (object : Object) (i : Item) (o : Option (List Entry))
      → is_key object.key ≡ true
      → i.content ≡ source
      → object.size ≡ length source
      → (shard : Text) (plain : no_slash shard ≡ true) → (shard ++ text "/") ++ i.name ≡ object.key
      → Finds shard i plain o
      → Opens (save_placed checksum files object o)
  unfolding open_object
  placed-Opens files object i none key content size shard plain named finds = tt
  placed-Opens files object i (some entries) key content size shard plain named finds = (
    simp (key, ap (λ k. find_file k (object_files entries)) (sym named) ∙ finds)
        (ap (λ c. ok c) content),
    size,
  )

  save_typed-Opens :
      (body : Text) (max : ℕ) (files : Files) (o : Option (Text × Text))
      → IsUuid a.id
      → Plain files.objects
      → (ltb max (length body) ≡ false → body ≡ source)
      → Detected o
      → Opens (save_typed checksum a body max files o)
  save_typed-Opens body max files none uuid plain whole typed = tt
  save_typed-Opens body max files (some (mime, ext)) uuid plain whole typed =
      elim (Bool-cases a.create_fails) [
        | inl fails ↦ simp fails tt
        | inr creates ↦ elim (Bool-cases a.write_fails) [
          | inl fails ↦ simp (creates, fails) tt
          | inr writes ↦ elim (Bool-cases (ltb max (length body))) [
            | inl large ↦ simp (creates, writes, large) tt
            | inr fits ↦ elim (Bool-cases a.folder_fails) [
              | inl fails ↦ simp (creates, writes, fits, fails) tt
              | inr makes ↦ elim (Bool-cases a.rename_fails) [
                | inl fails ↦ simp (creates, writes, fits, makes, fails) tt
                | inr renames ↦
                    simp (creates, writes, fits, makes, renames)
                      (placed-Opens files (object mime ext body) (item ext body)
                        (place (take 2 a.id) (item ext body) files.objects)
                        (ap (λ n. is_key ((take 2 a.id ++ text "/") ++ n))
                            (append_assoc a.id (text ".") ext)
                          ∙ key_of_id a.id (text "." ++ ext) uuid.chars uuid.long uuid.first typed)
                        (whole fits) (ap length (whole fits)) (take 2 a.id)
                        (no_slash_of_hex (take 2 a.id) uuid.first) refl
                        (place-Finds (take 2 a.id) (item ext body)
                          (no_slash_of_hex (take 2 a.id) uuid.first) files.objects plain))
              ]
            ]
          ]
        ]
      ]
    where
      object : Text → Text → Text → Object
      object mime ext body = record {
        key = object_key a.id ext;
        content_type = mime;
        size = length body;
        checksum = checksum body;
      }

      item : Text → Text → Item
      item ext body = record {
        name = object_name a.id ext;
        kind = regular;
        modified = a.now;
        content = body;
      }

  save-Opens :
      (max : ℕ) (files : Files)
      → IsUuid a.id
      → Plain files.objects
      → Opens (save checksum a source max files)
  unfolding save
  save-Opens max files uuid plain = elim (Bool-cases (leb max 0)) [
    | inl zero_limit ↦ simp zero_limit tt
    | inr limit ↦ elim (Bool-cases a.peek_fails) [
      | inl fails ↦ simp (limit, fails) tt
      | inr reads ↦
          simp (limit, reads)
            (save_typed-Opens (take (suc max) source) max files
              (detect (take 16 (take (suc max) source))) uuid plain (take_all max source)
              (detect-Detected (take 16 (take (suc max) source))))
    ]
  ]

-- A file that is saved can be opened under the key that the save answers, with all of the bytes that
-- were sent, which its size counts, if uuid.NewString answers an ID of its form and no name in the store
-- has a slash.
pub save-open :
    (checksum : Text → Text) (a : SaveAnswers) (source : Text) (max : ℕ) (files files' : Files)
    (object : Object)
    → IsUuid a.id
    → Plain files.objects
    → save checksum a source max files ≡ (files', ok object)
    → (open_object object.key files' ≡ ok source) × (object.size ≡ length source)
save-open checksum a source max files files' object uuid plain saved =
    subst (Opens checksum a source) saved (save-Opens checksum a source max files uuid plain)
