-- ===== src/Assets/Cleanup.antt =====
-- A run of the cleanup (Runner.Run of internal/assetcleanup/runner.go, over ListReferencedAssetKeys of
-- internal/repository/asset_cleanup.go).
pub mod Keeps
use carma.Base.{
  ℕ, ◌+◌, ◌-◌, Bool, true, false, not, Option, none, some, List, [], ◌∷◌, ◌++◌, if◌then◌else◌,
  filter,
}
use carma.Base.Text.{Text, text_eq, text_lt}
use carma.Model.{Instant}
use carma.Assets.{Files}
use carma.Assets.Prune.{ScanError, CleanupReport, DiskAnswers, Scan, empty_report, prune}

-- Two days in nanoseconds.
abbrev pub grace_period : ℕ
grace_period = 172800000000000

-- UNION ... ORDER BY storage_key
unfoldable pub insert_key : Text → List Text → List Text
insert_key k [] = k ∷ []
insert_key k (l ∷ ls) =
    let rest = insert_key k ls in
    if text_eq k l then l ∷ ls else if text_lt k l then k ∷ l ∷ ls else l ∷ rest

unfoldable pub union_keys : List Text → List Text
union_keys [] = []
union_keys (k ∷ ks) = insert_key k (union_keys ks)

-- From the vehicles' photo keys and the attachments' storage keys.
unfoldable pub list_referenced_asset_keys : List Text → List Text → List Text
list_referenced_asset_keys photo_keys storage_keys =
    union_keys (filter (λ k. not (text_eq k [])) (photo_keys ++ storage_keys))

pub data CleanupError : Type 0 where
  lock_error keys_error unlock_error : CleanupError
  prune_error : ScanError → CleanupError

-- What a run gets: the lock is none where asking for it fails.
pub record CleanupAnswers : Type 0 where
  pub now : Instant
  pub lock : Option Bool
  pub keys_fail : Bool
  pub disk : DiskAnswers
  pub unlock_fails : Bool

pub record CleanupRun : Type 0 where
  pub files : Files
  pub report : CleanupReport
  pub errors : List CleanupError

abbrev pub prune_errors : List ScanError → List CleanupError
prune_errors [] = []
prune_errors (e ∷ es) = prune_error e ∷ prune_errors es

module _ (a : CleanupAnswers) (photo_keys storage_keys : List Text) where
  abbrev pub no_run : Files → List CleanupError → CleanupRun
  no_run files errors = record { files = files; report = empty_report; errors = errors }

  abbrev pub to_run : Files × Scan → CleanupRun
  to_run (files, scan) = record {
    files = files;
    report = scan.report;
    errors = prune_errors scan.errors;
  }

  abbrev pub unlock_cleanup : CleanupRun → CleanupRun
  unlock_cleanup r =
      if a.unlock_fails then record r { errors = r.errors ++ unlock_error ∷ [] } else r

  abbrev pub cleanup_from : Files → Option Bool → CleanupRun
  cleanup_from files none = no_run files (lock_error ∷ [])
  cleanup_from files (some false) = no_run files []
  cleanup_from files (some true) = unlock_cleanup (
      if a.keys_fail
      then no_run files (keys_error ∷ [])
      else to_run (
          prune a.disk (list_referenced_asset_keys photo_keys storage_keys) (a.now - grace_period)
            files))

  unfoldable pub run_cleanup : Files → CleanupRun
  run_cleanup files = cleanup_from files a.lock
