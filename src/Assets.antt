-- ===== src/Assets.antt =====
-- The files that are attached to records and vehicles: the store on disk (internal/assets/store.go) and
-- the keys by which they are named.
pub mod Prune
pub mod Cleanup
pub mod Store
use carma.Base.{
  ℕ, zero, suc, Bool, true, false, not, ◌&&◌, ◌||◌, List, [], ◌∷◌, ◌++◌, map, leb, ◌==◌,
}
use carma.Base.Text.{Text, text, text_eq}
use carma.Model.{Instant}

pub data Kind : Type 0 where
  regular symlink folder other : Kind

pub record Item : Type 0 where
  pub name : Text
  pub kind : Kind
  pub modified : Instant
  pub content : Text

-- An entry of the objects' directory. A folder's own folders are items: nothing enters them.
pub data Entry : Type 0 where
  leaf : Item → Entry
  branch : Text → List Item → Entry

pub record Files : Type 0 where
  pub objects : List Entry
  pub temporary : List Item

abbrev pub lower_hex : ℕ → Bool
lower_hex c = (leb b'0' c && leb c b'9') || (leb b'a' c && leb c b'f')

abbrev pub extensions : List Text
extensions = text "pdf" ∷ text "jpg" ∷ text "png" ∷ text "webp" ∷ text "heic" ∷ []

abbrev pub contains_text : List Text → Text → Bool
contains_text [] t = false
contains_text (s ∷ ss) t = text_eq s t || contains_text ss t

abbrev pub is_extension : Text → Bool
is_extension [] = false
is_extension (c ∷ s) = c == b'.' && contains_text extensions s

-- `n` more characters of an ID, and the extension.
unfoldable pub is_id_from : ℕ → Text → Bool
is_id_from zero s = is_extension s
is_id_from (suc n) [] = false
is_id_from (suc n) (c ∷ s) = (lower_hex c || c == b'-') && is_id_from n s

-- keyPattern.MatchString
unfoldable pub is_key : Text → Bool
is_key [] = false
is_key (a ∷ []) = false
is_key (a ∷ b ∷ []) = false
is_key (a ∷ b ∷ c ∷ s) = lower_hex a && lower_hex b && c == b'/' && is_id_from 36 s

-- objectShardPattern.MatchString
unfoldable pub is_shard : Text → Bool
is_shard [] = false
is_shard (a ∷ []) = false
is_shard (a ∷ b ∷ []) = lower_hex a && lower_hex b
is_shard (a ∷ b ∷ c ∷ s) = false

-- The paths of the objects' files from their directory, with the files.
abbrev pub in_folder : Text → List Item → List (Text × Item)
in_folder prefix items = map (λ i. (prefix ++ i.name, i)) items

unfoldable pub object_files : List Entry → List (Text × Item)
object_files [] = []
object_files (leaf i ∷ entries) = (i.name, i) ∷ object_files entries
object_files (branch name items ∷ entries) =
    in_folder (name ++ text "/") items ++ object_files entries
