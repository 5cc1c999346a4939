-- ===== src/Assets/Prune.antt =====
-- The removal of files that nothing refers to (LocalStore.Prune of internal/assets/pruner.go). What the
-- file system and the context answer is a value for each path; filepath.Rel does not fail below its root.
pub mod Keeps
pub mod Uploads
use carma.Base.{
  ℕ, suc, ◌+◌, Bool, true, false, not, ◌&&◌, ◌||◌, List, [], ◌∷◌, ◌++◌, ltb, if◌then◌else◌, length,
}
use carma.Base.Text.{Text, text, text_eq, starts_with}
use carma.Model.{Instant}
use carma.Assets.{
  Kind, regular, symlink, folder, other, Item, Entry, leaf, branch, Files, contains_text, is_key,
  is_shard,
}

pub data ScanError : Type 0 where
  context_error scan_error inspect_error scan_temporary_error : ScanError
  delete_error : Text → ScanError
  delete_upload_error : ScanError

pub record DeletionFailure : Type 0 where
  pub category : Text
  pub key : Text

pub record CleanupReport : Type 0 where
  pub object_files_scanned : ℕ
  pub temporary_files_scanned : ℕ
  pub referenced_files_retained : ℕ
  pub fresh_unreferenced_files_retained : ℕ
  pub orphan_objects_pruned : ℕ
  pub stale_temporary_files_pruned : ℕ
  pub unknown_files_skipped : ℕ
  pub symlinks_skipped : ℕ
  pub deletion_failures : ℕ
  pub bytes_reclaimed : ℕ
  pub failures : List DeletionFailure

abbrev pub empty_report : CleanupReport
empty_report = record {
  object_files_scanned = 0;
  temporary_files_scanned = 0;
  referenced_files_retained = 0;
  fresh_unreferenced_files_retained = 0;
  orphan_objects_pruned = 0;
  stale_temporary_files_pruned = 0;
  unknown_files_skipped = 0;
  symlinks_skipped = 0;
  deletion_failures = 0;
  bytes_reclaimed = 0;
  failures = [];
}

-- What a path gets: `listed` counts where its folder's listing fails halfway.
pub record PathAnswers : Type 0 where
  pub canceled : Bool
  pub listed : Bool
  pub info_fails : Bool
  pub remove_fails : Bool

pub record FolderAnswers : Type 0 where
  pub canceled : Bool
  pub scan_fails : Bool
  pub scan_canceled : Bool

-- The folder "" is the objects' directory.
pub record DiskAnswers : Type 0 where
  pub object : Text → PathAnswers
  pub folder : Text → FolderAnswers
  pub walk_canceled : Bool
  pub temporary_fails : Bool
  pub upload : Text → PathAnswers

-- The variables of Prune.
pub record Scan : Type 0 where
  pub report : CleanupReport
  pub errors : List ScanError

abbrev pub fail : ScanError → Scan → Scan
fail e s = record s { errors = s.errors ++ e ∷ [] }

abbrev pub count_symlink : Scan → Scan
count_symlink s = record s {
  report = record (s.report) { symlinks_skipped = suc (s.report.symlinks_skipped) };
}

abbrev pub count_unknown : Scan → Scan
count_unknown s = record s {
  report = record (s.report) { unknown_files_skipped = suc (s.report.unknown_files_skipped) };
}

abbrev pub count_referenced : Scan → Scan
count_referenced s = record s {
  report = record (s.report) {
    referenced_files_retained = suc (s.report.referenced_files_retained);
  };
}

abbrev pub count_fresh : Scan → Scan
count_fresh s = record s {
  report = record (s.report) {
    fresh_unreferenced_files_retained = suc (s.report.fresh_unreferenced_files_retained);
  };
}

abbrev pub count_failure : DeletionFailure → Scan → Scan
count_failure f s = record s {
  report = record (s.report) {
    deletion_failures = suc (s.report.deletion_failures);
    failures = s.report.failures ++ f ∷ [];
  };
}

abbrev pub count_object : Scan → Scan
count_object s = record s {
  report = record (s.report) { object_files_scanned = suc (s.report.object_files_scanned) };
}

abbrev pub count_upload : Scan → Scan
count_upload s = record s {
  report = record (s.report) { temporary_files_scanned = suc (s.report.temporary_files_scanned) };
}

abbrev pub count_orphan : ℕ → Scan → Scan
count_orphan size s = record s {
  report = record (s.report) {
    orphan_objects_pruned = suc (s.report.orphan_objects_pruned);
    bytes_reclaimed = s.report.bytes_reclaimed + size;
  };
}

abbrev pub count_stale : ℕ → Scan → Scan
count_stale size s = record s {
  report = record (s.report) {
    stale_temporary_files_pruned = suc (s.report.stale_temporary_files_pruned);
    bytes_reclaimed = s.report.bytes_reclaimed + size;
  };
}

-- Items that are left, and whether the context ended the walk.
pub record Walked : Type 0 where
  pub items : List Item
  pub scan : Scan
  pub stopped : Bool

pub record WalkedTree : Type 0 where
  pub entries : List Entry
  pub scan : Scan
  pub stopped : Bool

abbrev pub after_item : Item → Bool → Walked → Walked
after_item i gone w = record w { items = if gone then w.items else i ∷ w.items }

abbrev pub after_leaf : Item → Bool → WalkedTree → WalkedTree
after_leaf i gone w = record w { entries = if gone then w.entries else leaf i ∷ w.entries }

module _ (d : DiskAnswers) (referenced : List Text) (cutoff : Instant) where
  -- A regular file that is an object; the Bool tells that it is removed.
  unfoldable pub classify_object : Text → Item → Scan → Scan × Bool
  classify_object key i s =
      if not (is_key key)
      then (count_unknown s, false)
      else if contains_text referenced key
      then (count_referenced (count_object s), false)
      else if not (ltb i.modified cutoff)
      then (count_fresh (count_object s), false)
      else if (d.object key).remove_fails
      then (
        fail (delete_error key)
            (count_failure (record { category = text "object"; key = key }) (count_object s)),
        false,
      )
      else (count_orphan (length i.content) (count_object s), true)

  unfoldable pub visit_object : Text → Item → Kind → Scan → Scan × Bool
  visit_object path i symlink s = (count_symlink s, false)
  visit_object path i folder s = (s, false)
  visit_object path i other s =
      if (d.object path).info_fails then (fail inspect_error s, false) else (count_unknown s, false)
  visit_object path i regular s =
      if (d.object path).info_fails then (fail inspect_error s, false) else classify_object path i s

  -- The walk of a folder's items; a listing that fails halfway gives some of them.
  abbrev pub seen : Bool → Text → Bool
  seen fails path = not fails || (d.object path).listed

  abbrev pub visit_seen : Bool → Text → Item → Scan → Scan × Bool
  visit_seen fails path i s = if seen fails path then visit_object path i i.kind s else (s, false)

  unfoldable pub walk_items : Bool → Text → List Item → Scan → Walked
  walk_items fails prefix [] s = record { items = []; scan = s; stopped = false }
  walk_items fails prefix (i ∷ items) s =
      let path = prefix ++ i.name in
      let v = visit_seen fails path i s in
      let rest = walk_items fails prefix items v.0 in
      if seen fails path && (d.object path).canceled
      then record { items = i ∷ items; scan = s; stopped = true }
      else after_item i v.1 rest

  unfoldable pub walk_folder : Text → List Item → Scan → Walked
  walk_folder name items s =
      let f = d.folder name in
      if f.canceled
      then record { items = items; scan = s; stopped = true }
      else if not (is_shard name)
      then record { items = items; scan = s; stopped = false }
      else if f.scan_fails && f.scan_canceled
      then record { items = items; scan = s; stopped = true }
      else walk_items f.scan_fails (name ++ text "/") items
          (if f.scan_fails then fail scan_error s else s)

  abbrev pub after_folder : Text → Walked → List Entry → WalkedTree → WalkedTree
  after_folder name w entries rest =
      if w.stopped
      then record { entries = branch name w.items ∷ entries; scan = w.scan; stopped = true }
      else record rest { entries = branch name w.items ∷ rest.entries }

  abbrev pub walk_seen : Bool → Text → List Item → Scan → Walked
  walk_seen fails name items s =
      if seen fails name
      then walk_folder name items s
      else record { items = items; scan = s; stopped = false }

  unfoldable pub walk_entries : Bool → List Entry → Scan → WalkedTree
  walk_entries fails [] s = record { entries = []; scan = s; stopped = false }
  walk_entries fails (leaf i ∷ entries) s =
      let v = visit_seen fails i.name i s in
      let rest = walk_entries fails entries v.0 in
      if seen fails i.name && (d.object i.name).canceled
      then record { entries = leaf i ∷ entries; scan = s; stopped = true }
      else after_leaf i v.1 rest
  walk_entries fails (branch name items ∷ entries) s =
      let w = walk_seen fails name items s in
      let rest = walk_entries fails entries w.scan in after_folder name w entries rest

  unfoldable pub walk_objects : List Entry → Scan → WalkedTree
  walk_objects entries s =
      let root = d.folder [] in
      if root.canceled || (root.scan_fails && root.scan_canceled)
      then record { entries = entries; scan = s; stopped = true }
      else walk_entries root.scan_fails entries (if root.scan_fails then fail scan_error s else s)

  unfoldable pub classify_upload : Item → Scan → Scan × Bool
  classify_upload i s =
      if not (starts_with i.name (text "upload-"))
      then (count_unknown s, false)
      else if not (ltb i.modified cutoff)
      then (count_fresh (count_upload s), false)
      else if (d.upload i.name).remove_fails
      then (
        fail delete_upload_error
            (count_failure (record { category = text "temporary"; key = [] }) (count_upload s)),
        false,
      )
      else (count_stale (length i.content) (count_upload s), true)

  abbrev pub not_a_file : Item → Scan → Scan × Bool
  not_a_file i s =
      if (d.upload i.name).info_fails
      then (fail inspect_error s, false)
      else (count_unknown s, false)

  unfoldable pub visit_upload : Item → Kind → Scan → Scan × Bool
  visit_upload i symlink s = (count_symlink s, false)
  visit_upload i folder s = not_a_file i s
  visit_upload i other s = not_a_file i s
  visit_upload i regular s =
      if (d.upload i.name).info_fails then (fail inspect_error s, false) else classify_upload i s

  unfoldable pub walk_uploads : List Item → Scan → Walked
  walk_uploads [] s = record { items = []; scan = s; stopped = false }
  walk_uploads (i ∷ items) s =
      let v = visit_upload i i.kind s in
      let rest = walk_uploads items v.0 in
      if (d.upload i.name).canceled
      then record { items = i ∷ items; scan = fail context_error s; stopped = true }
      else after_item i v.1 rest

  abbrev pub prune_uploads : List Entry → List Item → Scan → Files × Scan
  prune_uploads entries items s =
      let w = walk_uploads items s in
      if d.temporary_fails
      then (record { objects = entries; temporary = items }, fail scan_temporary_error s)
      else (record { objects = entries; temporary = w.items }, w.scan)

  -- The error of a walk that the context ended is joined, and so is the context's.
  abbrev pub after_walk : List Item → WalkedTree → Files × Scan
  after_walk items w =
      let s = if w.stopped then fail context_error w.scan else w.scan in
      if w.stopped || d.walk_canceled
      then (record { objects = w.entries; temporary = items }, fail context_error s)
      else prune_uploads w.entries items s

  unfoldable pub prune : Files → Files × Scan
  prune files =
      after_walk files.temporary
        (walk_objects files.objects (record { report = empty_report; errors = [] }))
