-- ===== src/Assets/Store.antt =====
-- Saving, opening and deleting attached files (LocalStore of internal/assets/store.go).
pub mod Facts
use carma.Base.{
  ℕ, zero, suc, ◌+◌, Bool, true, false, not, ◌&&◌, ◌||◌, Option, none, some, List, [], ◌∷◌, ◌++◌,
  ltb, leb, if◌then◌else◌, length, take, drop, filter,
}
use carma.Base.Result.{Result, ok, err}
use carma.Base.Text.{Text, text, text_eq, starts_with}
use carma.Model.{Instant}
use carma.Assets.{
  Kind, regular, symlink, folder, other, Item, Entry, leaf, branch, Files, contains_text, is_key,
  object_files,
}

pub record Object : Type 0 where
  pub key : Text
  pub content_type : Text
  pub size : ℕ
  pub checksum : Text

-- os.IsNotExist is not_found.
pub data StoreError : Type 0 where
  invalid_limit read_error unsupported too_large create_error write_error folder_error rename_error
        invalid_key not_found remove_error :
      StoreError

-- The signature of a PNG file.
abbrev pub png_header : Text
png_header = 137 ∷ 80 ∷ 78 ∷ 71 ∷ 13 ∷ 10 ∷ 26 ∷ 10 ∷ []

abbrev pub brands : List Text
brands = text "heic" ∷ text "heix" ∷ text "hevc" ∷ text "hevx" ∷ text "mif1" ∷ []

-- The content type and the extension.
unfoldable pub detect : Text → Option (Text × Text)
detect b =
    if starts_with b (text "%PDF-")
    then some (text "application/pdf", text "pdf")
    else if starts_with b (255 ∷ 216 ∷ 255 ∷ [])
    then some (text "image/jpeg", text "jpg")
    else if starts_with b png_header
    then some (text "image/png", text "png")
    else if leb 12 (length b)
        && starts_with b (text "RIFF")
        && text_eq (take 4 (drop 8 b)) (text "WEBP")
    then some (text "image/webp", text "webp")
    else if leb 12 (length b)
        && text_eq (take 4 (drop 4 b)) (text "ftyp")
        && contains_text brands (take 4 (drop 8 b))
    then some (text "image/heic", text "heic")
    else none

-- What a save gets: `id` is uuid.NewString, and a reader that fails may do so while it is peeked at.
pub record SaveAnswers : Type 0 where
  pub now : Instant
  pub id : Text
  pub peek_fails : Bool
  pub create_fails : Bool
  pub write_fails : Bool
  pub folder_fails : Bool
  pub rename_fails : Bool

-- os.Rename into a folder: a file of that name is replaced.
unfoldable pub put_item : Item → List Item → List Item
put_item i [] = i ∷ []
put_item i (j ∷ items) =
    let rest = put_item i items in if text_eq j.name i.name then i ∷ items else j ∷ rest

-- os.MkdirAll and os.Rename; none where a file has the folder's name.
abbrev pub keep_entry : Entry → Option (List Entry) → Option (List Entry)
keep_entry e none = none
keep_entry e (some entries) = some (e ∷ entries)

unfoldable pub place : Text → Item → List Entry → Option (List Entry)
place shard i [] = some (branch shard (i ∷ []) ∷ [])
place shard i (leaf j ∷ entries) =
    let rest = place shard i entries in
    if text_eq j.name shard then none else keep_entry (leaf j) rest
place shard i (branch name items ∷ entries) =
    let rest = place shard i entries in
    if text_eq name shard
    then some (branch name (put_item i items) ∷ entries)
    else keep_entry (branch name items) rest

-- The key is shard ++ "/" ++ object_name.
abbrev pub object_name : Text → Text → Text
object_name id ext = id ++ text "." ++ ext

abbrev pub object_key : Text → Text → Text
object_key id ext = take 2 id ++ text "/" ++ object_name id ext

module _ (checksum : Text → Text) where
  abbrev pub save_placed : Files → Object → Option (List Entry) → Files × Result StoreError Object
  save_placed files object none = (files, err folder_error)
  save_placed files object (some entries) = (record files { objects = entries }, ok object)

  -- From the temporary file on, which is removed where it is not renamed.
  abbrev pub save_typed :
      SaveAnswers → Text → ℕ → Files → Option (Text × Text) → Files × Result StoreError Object
  save_typed a body max files none = (files, err unsupported)
  save_typed a body max files (some (mime, ext)) =
      if a.create_fails
      then (files, err create_error)
      else if a.write_fails
      then (files, err write_error)
      else if ltb max (length body)
      then (files, err too_large)
      else if a.folder_fails
      then (files, err folder_error)
      else if a.rename_fails
      then (files, err rename_error)
      else save_placed files
          (record {
            key = object_key a.id ext;
            content_type = mime;
            size = length body;
            checksum = checksum body;
          })
          (place (take 2 a.id)
            (record {
              name = object_name a.id ext;
              kind = regular;
              modified = a.now;
              content = body;
            })
            files.objects)

  -- A limit is at least 0 here; the source is read to one byte past it.
  unfoldable pub save : SaveAnswers → Text → ℕ → Files → Files × Result StoreError Object
  save a source max files =
      let body = take (suc max) source in
      if leb max 0
      then (files, err invalid_limit)
      else if a.peek_fails
      then (files, err read_error)
      else save_typed a body max files (detect (take 16 body))

abbrev pub find_file : Text → List (Text × Item) → Option Item
find_file key [] = none
find_file key ((path, i) ∷ files) = if text_eq path key then some i else find_file key files

abbrev pub or_not_found : Option Item → Result StoreError Text
or_not_found none = err not_found
or_not_found (some i) = ok i.content

-- Where the file system answers. The cleaned path of a key stays below the objects' directory.
unfoldable pub open_object : Text → Files → Result StoreError Text
open_object key files =
    if not (is_key key)
    then err invalid_key
    else or_not_found (find_file key (object_files files.objects))

abbrev pub drop_leaf : Text → Item → List Entry → List Entry
drop_leaf key i entries = if text_eq i.name key then entries else leaf i ∷ entries

unfoldable pub remove_file : Text → List Entry → List Entry
remove_file key [] = []
remove_file key (leaf i ∷ entries) = drop_leaf key i (remove_file key entries)
remove_file key (branch name items ∷ entries) =
    branch name (filter (λ i. not (text_eq ((name ++ text "/") ++ i.name) key)) items)
    ∷ remove_file key entries

-- Deleting a file that does not exist is no error.
unfoldable pub delete_object : Bool → Text → Files → Files × Option StoreError
delete_object remove_fails key files =
    if not (is_key key)
    then (files, some invalid_key)
    else if remove_fails
    then (files, some remove_error)
    else (record files { objects = remove_file key files.objects }, none)
