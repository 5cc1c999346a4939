-- ===== src/Garage/Records/Receipts.antt =====
-- What becomes of the files of a record that is deleted.
use carma.Base.{ℕ, ◌+◌, ◌≡◌, List, map, count}
use carma.Base.Result.{Result, ok, err}
use carma.Base.Text.{Text, text_eq}
use carma.Model.{Attachment}
use carma.Garage.{Garage, GarageError}

-- How many receipts have the storage key.
abbrev pub uses : Text → List Attachment → ℕ
uses key attachments = count (text_eq key) (map (λ a. a.storage_key) attachments)

abbrev pub keys_of : List Attachment → List Text
keys_of attachments = map (λ a. a.storage_key) attachments

module _ {F : Type 0} where
  abbrev Frees : Text → Garage F → Garage F × Result GarageError (List Text) → Type 0
  Frees key t (t', err e) = Unit
  Frees key t (t', ok keys) =
      uses key t.attachments ≡ uses key t'.attachments + count (text_eq key) keys
