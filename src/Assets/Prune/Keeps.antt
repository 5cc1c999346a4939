-- ===== src/Assets/Prune/Keeps.antt =====
-- Which files a pruning leaves alone.
use carma.Base.{
  filter-append, ◌≡◌, ◌≢◌, refl, sym, ap, ap₂, ◌∙◌, inl, inr, Bool, true, false, not, ◌&&◌, ◌||◌,
  List, [], ◌∷◌, ◌++◌, filter, ltb, if◌then◌else◌, Bool-cases, arith,
}
use carma.Base.Text.{Text, text}
use carma.Model.{Instant}
use carma.Assets.{
  Kind, regular, symlink, folder, other, Item, Entry, leaf, branch, Files, contains_text, is_key,
  is_shard, in_folder, object_files,
}
use carma.Assets.Prune.{
  context_error, DiskAnswers, Scan, Walked, WalkedTree, fail, classify_object, visit_object, seen,
  visit_seen, walk_items, walk_folder, walk_seen, after_folder, walk_entries, walk_objects,
  prune_uploads, after_walk, prune,
}

filter-cons {ℓ} :
    {A : Type ℓ} (p : A → Bool) (x : A) (xs ys : List A)
    → filter p xs ≡ filter p ys
    → filter p (x ∷ xs) ≡ filter p (x ∷ ys)
filter-cons p x xs ys e = ap (λ zs. if p x then x ∷ zs else zs) e

abbrev pub is_regular : Kind → Bool
is_regular regular = true
is_regular k = false

module _ (d : DiskAnswers) (referenced : List Text) (cutoff : Instant) where
  pub visit_object-gone :
      (path : Text) (i : Item) (k : Kind) (s : Scan)
      → (visit_object d referenced cutoff path i k s).1 ≡ true
      → (is_regular k
          && is_key path
          && not (contains_text referenced path)
          && ltb i.modified cutoff)
        ≡ true
  unfolding visit_object classify_object
  visit_object-gone path i regular s h = ground (arith, h)
  visit_object-gone path i symlink s h = cc
  visit_object-gone path i folder s h = cc
  visit_object-gone path i other s h = ground (arith, h)

  -- `P` holds of no file that is removed.
  module _ (P : Text × Item → Bool)
      (safe : (path : Text) (i : Item) (s : Scan)
        → (visit_object d referenced cutoff path i i.kind s).1 ≡ true
        → P (path, i) ≡ false) where
    visit_seen-safe :
        (fails : Bool) (path : Text) (i : Item) (s : Scan)
        → (visit_seen d referenced cutoff fails path i s).1 ≡ true
        → P (path, i) ≡ false
    visit_seen-safe fails path i s h = elim (Bool-cases (seen d referenced cutoff fails path)) [
      | inl sees ↦ safe path i s (simp sees at h)
      | inr hidden ↦ absurd (true_ne (sym h ∙ simp hidden))
    ]
      where
        true_ne : true ≢ false
        true_ne e = cc

    drop_item :
        (path : Text) (i : Item) (gone : Bool) (xs ys : List (Text × Item))
        → (gone ≡ true → P (path, i) ≡ false)
        → filter P xs ≡ filter P ys
        → filter P (if gone then xs else (path, i) ∷ xs) ≡ filter P ((path, i) ∷ ys)
    drop_item path i true xs ys h e = simp (h refl) e
    drop_item path i false xs ys h e = filter-cons P (path, i) xs ys e

    in_folder-if :
        (prefix : Text) (gone : Bool) (i : Item) (items : List Item)
        → in_folder prefix (if gone then items else i ∷ items) ≡ (
            if gone then in_folder prefix items else (prefix ++ i.name, i) ∷ in_folder prefix items)
    in_folder-if prefix true i items = refl
    in_folder-if prefix false i items = refl

    walk_items-keeps :
        (fails : Bool) (prefix : Text) (items : List Item) (s : Scan)
        → filter P (in_folder prefix (walk_items d referenced cutoff fails prefix items s).items)
          ≡ filter P (in_folder prefix items)
    unfolding walk_items
    walk_items-keeps fails prefix [] s = refl
    walk_items-keeps fails prefix (i ∷ items) s =
        elim (Bool-cases (
          seen d referenced cutoff fails (prefix ++ i.name)
          && (d.object (prefix ++ i.name)).canceled)) [
            | inl stops ↦ simp stops
            | inr goes ↦ simp goes (
                ap (filter P) (in_folder-if prefix _ i _)
                ∙ drop_item (prefix ++ i.name) i _ _ (in_folder prefix items)
                    (visit_seen-safe fails (prefix ++ i.name) i s)
                    (walk_items-keeps fails prefix items
                      (visit_seen d referenced cutoff fails (prefix ++ i.name) i s).0))
          ]

    walk_folder-keeps :
        (name : Text) (items : List Item) (s : Scan)
        → filter P
            (in_folder (name ++ text "/") (walk_folder d referenced cutoff name items s).items)
          ≡ filter P (in_folder (name ++ text "/") items)
    unfolding walk_folder
    walk_folder-keeps name items s = elim (Bool-cases (d.folder name).canceled) [
      | inl stops ↦ simp stops
      | inr goes ↦ elim (Bool-cases (not (is_shard name))) [
        | inl skips ↦ simp (goes, skips)
        | inr enters ↦
            elim (Bool-cases ((d.folder name).scan_fails && (d.folder name).scan_canceled)) [
              | inl ends ↦ simp (goes, enters, ends)
              | inr walks ↦
                  simp (goes, enters, walks)
                    (walk_items-keeps (d.folder name).scan_fails (name ++ text "/") items _)
            ]
      ]
    ]

    walk_seen-keeps :
        (fails : Bool) (name : Text) (items : List Item) (s : Scan)
        → filter P
            (in_folder (name ++ text "/") (walk_seen d referenced cutoff fails name items s).items)
          ≡ filter P (in_folder (name ++ text "/") items)
    walk_seen-keeps fails name items s = elim (Bool-cases (seen d referenced cutoff fails name)) [
      | inl sees ↦ simp sees (walk_folder-keeps name items s)
      | inr hidden ↦ simp hidden
    ]

    object_files-if :
        (gone : Bool) (i : Item) (entries : List Entry)
        → object_files (if gone then entries else leaf i ∷ entries)
          ≡ (if gone then object_files entries else (i.name, i) ∷ object_files entries)
    unfolding object_files
    object_files-if true i entries = refl
    object_files-if false i entries = refl

    after_folder-keeps :
        (name : Text) (w : Walked) (items : List Item) (entries : List Entry) (rest : WalkedTree)
        → filter P (in_folder (name ++ text "/") w.items)
          ≡ filter P (in_folder (name ++ text "/") items)
        → filter P (object_files rest.entries) ≡ filter P (object_files entries)
        → filter P (object_files (after_folder d referenced cutoff name w entries rest).entries)
          ≡ filter P (in_folder (name ++ text "/") items ++ object_files entries)
    unfolding object_files
    after_folder-keeps name w items entries rest e f = elim (Bool-cases w.stopped) [
      | inl stops ↦ simp stops (
          filter-append P (in_folder (name ++ text "/") w.items) (object_files entries)
          ∙ ap (λ zs. zs ++ filter P (object_files entries)) e
          ∙ sym (filter-append P (in_folder (name ++ text "/") items) (object_files entries)))
      | inr goes ↦ simp goes (
          filter-append P (in_folder (name ++ text "/") w.items) (object_files rest.entries)
          ∙ ap₂ (λ zs ws. zs ++ ws) e f
          ∙ sym (filter-append P (in_folder (name ++ text "/") items) (object_files entries)))
    ]

    walk_entries-keeps :
        (fails : Bool) (entries : List Entry) (s : Scan)
        → filter P (object_files (walk_entries d referenced cutoff fails entries s).entries)
          ≡ filter P (object_files entries)
    unfolding walk_entries object_files
    walk_entries-keeps fails [] s = refl
    walk_entries-keeps fails (leaf i ∷ entries) s =
        elim (Bool-cases (seen d referenced cutoff fails i.name && (d.object i.name).canceled)) [
          | inl stops ↦ simp stops
          | inr goes ↦ simp goes (
              ap (filter P) (
                object_files-if (visit_seen d referenced cutoff fails i.name i s).1 i
                  (walk_entries d referenced cutoff fails entries
                    (visit_seen d referenced cutoff fails i.name i s).0).entries)
              ∙ drop_item i.name i _ _ (object_files entries) (visit_seen-safe fails i.name i s) (
                  walk_entries-keeps fails entries
                    (visit_seen d referenced cutoff fails i.name i s).0))
        ]
    walk_entries-keeps fails (branch name items ∷ entries) s =
        after_folder-keeps name (walk_seen d referenced cutoff fails name items s) items entries
          (walk_entries d referenced cutoff fails entries
            (walk_seen d referenced cutoff fails name items s).scan)
          (walk_seen-keeps fails name items s)
          (walk_entries-keeps fails entries (walk_seen d referenced cutoff fails name items s).scan)

    walk_objects-keeps :
        (entries : List Entry) (s : Scan)
        → filter P (object_files (walk_objects d referenced cutoff entries s).entries)
          ≡ filter P (object_files entries)
    unfolding walk_objects
    walk_objects-keeps entries s =
        elim (Bool-cases
          ((d.folder []).canceled || ((d.folder []).scan_fails && (d.folder []).scan_canceled))) [
            | inl stops ↦ simp stops
            | inr goes ↦ simp goes (walk_entries-keeps (d.folder []).scan_fails entries _)
          ]

    prune_uploads-objects :
        (entries : List Entry) (items : List Item) (s : Scan)
        → (prune_uploads d referenced cutoff entries items s).0.objects ≡ entries
    prune_uploads-objects entries items s = elim (Bool-cases d.temporary_fails) [
      | inl fails ↦ simp fails
      | inr works ↦ simp works
    ]

    after_walk-objects :
        (items : List Item) (w : WalkedTree)
        → (after_walk d referenced cutoff items w).0.objects ≡ w.entries
    after_walk-objects items w = elim (Bool-cases (w.stopped || d.walk_canceled)) [
      | inl ends ↦ simp ends
      | inr goes ↦ simp goes (
          prune_uploads-objects w.entries items
            (if w.stopped then fail context_error w.scan else w.scan))
    ]

    pub prune-keeps :
        (files : Files)
        → filter P (object_files (prune d referenced cutoff files).0.objects)
          ≡ filter P (object_files files.objects)
    unfolding prune
    prune-keeps files =
        ap (λ es. filter P (object_files es)) (after_walk-objects files.temporary _)
        ∙ walk_objects-keeps files.objects _
