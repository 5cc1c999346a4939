-- ===== src/Examples/Files.antt =====
-- Attached files at work.
use carma.Base.{◌≡◌, refl, true, false, some, List, [], ◌∷◌, filter, length}
use carma.Base.Result.{ok}
use carma.Base.Text.{Text, text, text_eq, starts_with}
use carma.Assets.{Item, Files, regular, branch, object_files}
use carma.Assets.Prune.{PathAnswers, DiskAnswers}
use carma.Assets.Cleanup.{CleanupAnswers, run_cleanup}
use carma.Assets.Cleanup.Keeps.{in_use, uploading, run_cleanup-keeps}
use carma.Assets.Store.{SaveAnswers, detect, place, put_item, save, open_object}
use carma.Assets.Store.Facts.{save-open}

abbrev receipt : Item
receipt = record {
  name = text "3f2a8c1e-0000-4000-8000-000000000001.pdf";
  kind = regular;
  modified = 5;
  content = text "%PDF-1";
}

abbrev orphan : Item
orphan = record receipt { name = text "3f2a8c1e-0000-4000-8000-000000000002.pdf" }

abbrev upload : Item
upload = record receipt { name = text "upload-1" }

abbrev attached : Files
attached = record {
  objects = branch (text "3f") (receipt ∷ orphan ∷ []) ∷ [];
  temporary = upload ∷ [];
}

abbrev calm : PathAnswers
calm = record { canceled = false; listed = true; info_fails = false; remove_fails = false }

abbrev calm_disk : DiskAnswers
calm_disk = record {
  object = λ path. calm;
  folder = λ name. record { canceled = false; scan_fails = false; scan_canceled = false };
  walk_canceled = false;
  temporary_fails = false;
  upload = λ name. calm;
}

abbrev nightly : CleanupAnswers
nightly = record {
  now = 172800000000010;
  lock = some true;
  keys_fail = false;
  disk = calm_disk;
  unlock_fails = false;
}

abbrev keys_in_use : List Text
keys_in_use = text "3f/3f2a8c1e-0000-4000-8000-000000000001.pdf" ∷ []

run_cleanup-keeps_example :
    (filter
        (in_use nightly [] keys_in_use)
        (object_files (run_cleanup nightly [] keys_in_use attached).files.objects)
      ≡ filter (in_use nightly [] keys_in_use) (object_files attached.objects))
    × (filter
          (uploading nightly [] keys_in_use)
          (run_cleanup nightly [] keys_in_use attached).files.temporary
        ≡ filter (uploading nightly [] keys_in_use) attached.temporary)
run_cleanup-keeps_example = run_cleanup-keeps nightly [] keys_in_use attached

abbrev saving : SaveAnswers
saving = record {
  now = 9;
  id = text "3f2a8c1e-0000-4000-8000-000000000003";
  peek_fails = false;
  create_fails = false;
  write_fails = false;
  folder_fails = false;
  rename_fails = false;
}

-- A checksum that is the text itself.
abbrev itself : Text → Text
itself t = t

abbrev saved_files : Files
saved_files = record {
  objects =
      branch (text "3f") (
        receipt
        ∷ orphan
        ∷ record {
          name = text "3f2a8c1e-0000-4000-8000-000000000003.pdf";
          kind = regular;
          modified = 9;
          content = text "%PDF-1";
        }
        ∷ [])
      ∷ [];
  temporary = upload ∷ [];
}

save-open_example :
    (open_object (text "3f/3f2a8c1e-0000-4000-8000-000000000003.pdf") saved_files
      ≡ ok (text "%PDF-1"))
    × (6 ≡ length (text "%PDF-1"))
unfolding save detect place put_item starts_with text_eq
save-open_example =
    save-open itself saving (text "%PDF-1") 100 attached saved_files
      (record {
        key = text "3f/3f2a8c1e-0000-4000-8000-000000000003.pdf";
        content_type = text "application/pdf";
        size = 6;
        checksum = text "%PDF-1";
      })
      (record { chars = refl; long = refl; first = refl }) (refl, tt) refl
