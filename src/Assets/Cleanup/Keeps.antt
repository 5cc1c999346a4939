-- ===== src/Assets/Cleanup/Keeps.antt =====
-- A cleanup removes no file that is in use.
use carma.Base.{
  ◌-◌, ◌≡◌, refl, sym, ap, ◌∙◌, inl, inr, Bool, true, false, not, ◌&&◌, ◌||◌, Option, none, some,
  List, [], ◌∷◌, ◌++◌, filter, ltb, Bool-cases, arith,
}
use carma.Base.Text.{Text, text, text_eq, text_eq_iff, text_lt, starts_with}
use carma.Assets.{Item, Files, contains_text, is_key, object_files}
use carma.Assets.Prune.{prune}
use carma.Assets.Prune.Keeps.{is_regular, visit_object-gone, prune-keeps}
use carma.Assets.Prune.Uploads.{visit_upload-gone, prune-keeps_uploads}
use carma.Assets.Cleanup.{
  grace_period, insert_key, union_keys, list_referenced_asset_keys, CleanupAnswers, CleanupRun,
  to_run, unlock_cleanup, cleanup_from, run_cleanup,
}

contains-insert_key :
    (k : Text) (ls : List Text) (t : Text)
    → contains_text (insert_key k ls) t ≡ (text_eq k t || contains_text ls t)
unfolding insert_key
contains-insert_key k [] t = refl
contains-insert_key k (l ∷ ls) t = elim (Bool-cases (text_eq k l)) [
  | inl same ↦ simp same (
      same_key_lem (text_eq k t) (text_eq l t) (contains_text ls t)
        (ap (λ x. text_eq x t) ((text_eq_iff k l).0 same)))
  | inr other ↦ elim (Bool-cases (text_lt k l)) [
    | inl first ↦ simp (other, first)
    | inr later ↦
        simp (other, later) (ap (λ b. text_eq l t || b) (contains-insert_key k ls t) ∙ ground arith)
  ]
]
  where
    same_key_lem : (a b c : Bool) → a ≡ b → (b || c) ≡ (a || (b || c))
    same_key_lem a b c e = ground arith

contains-union_keys :
    (ks : List Text) (t : Text) → contains_text (union_keys ks) t ≡ contains_text ks t
unfolding union_keys
contains-union_keys [] t = refl
contains-union_keys (k ∷ ks) t =
    contains-insert_key k (union_keys ks) t ∙ ap (λ b. text_eq k t || b) (contains-union_keys ks t)

nil_other : (t : Text) → text_eq t [] ≡ false → text_eq [] t ≡ false
unfolding text_eq
nil_other [] h = h
nil_other (c ∷ s) h = refl

contains-filter :
    (ks : List Text) (t : Text)
    → text_eq t [] ≡ false
    → contains_text (filter (λ k. not (text_eq k [])) ks) t ≡ contains_text ks t
contains-filter [] t h = refl
contains-filter (k ∷ ks) t h = elim (Bool-cases (text_eq k [])) [
  | inl blank ↦ simp blank (contains-filter ks t h ∙ sym (skip (other blank)))
  | inr named ↦ simp named (ap (λ b. text_eq k t || b) (contains-filter ks t h))
]
  where
    other : text_eq k [] ≡ true → text_eq k t ≡ false
    other blank = ap (λ x. text_eq x t) ((text_eq_iff k []).0 blank) ∙ nil_other t h

    skip : text_eq k t ≡ false → (text_eq k t || contains_text ks t) ≡ contains_text ks t
    skip e = simp e

contains-append :
    (ks ls : List Text) (t : Text)
    → contains_text (ks ++ ls) t ≡ (contains_text ks t || contains_text ls t)
contains-append [] ls t = refl
contains-append (k ∷ ks) ls t = ground (arith, contains-append ks ls t)

key-ne-nil : (path : Text) → is_key path ≡ true → text_eq path [] ≡ false
unfolding is_key text_eq
key-ne-nil [] h = sym h
key-ne-nil (c ∷ s) h = refl

contains-referenced :
    (photo_keys storage_keys : List Text) (path : Text)
    → is_key path ≡ true
    → contains_text (list_referenced_asset_keys photo_keys storage_keys) path
      ≡ (contains_text photo_keys path || contains_text storage_keys path)
unfolding list_referenced_asset_keys
contains-referenced photo_keys storage_keys path h =
    contains-union_keys (filter (λ k. not (text_eq k [])) (photo_keys ++ storage_keys)) path
    ∙ contains-filter (photo_keys ++ storage_keys) path (key-ne-nil path h)
    ∙ contains-append photo_keys storage_keys path

module _ (a : CleanupAnswers) (photo_keys storage_keys : List Text) where
  -- What a cleanup must not remove: what is no regular file under a key, what a vehicle or an attachment
  -- names, and what is younger than the grace period.
  abbrev pub in_use : Text × Item → Bool
  in_use (path, i) =
      not (is_regular i.kind && is_key path)
      || contains_text photo_keys path
      || contains_text storage_keys path
      || not (ltb i.modified (a.now - grace_period))

  abbrev pub uploading : Item → Bool
  uploading i =
      not (is_regular i.kind && starts_with i.name (text "upload-"))
      || not (ltb i.modified (a.now - grace_period))

  not_in_use :
      (r k p q m n : Bool)
      → (r && k && not m && n) ≡ true
      → (k ≡ true → m ≡ (p || q))
      → (not (r && k) || p || q || not n) ≡ false
  not_in_use r k p q m n h e = ground arith

  not_uploading : (u n : Bool) → (u && n) ≡ true → (not u || not n) ≡ false
  not_uploading u n h = ground arith

  and_assoc : (x y z : Bool) → (x && y && z) ≡ true → ((x && y) && z) ≡ true
  and_assoc x y z h = ground arith

  abbrev Kept : Files → CleanupRun → Type 0
  Kept files r =
      (filter in_use (object_files r.files.objects) ≡ filter in_use (object_files files.objects))
      × (filter uploading r.files.temporary ≡ filter uploading files.temporary)

  abbrev keys : List Text
  keys = list_referenced_asset_keys photo_keys storage_keys

  prune-Kept :
      (files : Files)
      → Kept files
          (to_run a photo_keys storage_keys (prune a.disk keys (a.now - grace_period) files))
  prune-Kept files = (
    prune-keeps a.disk keys (a.now - grace_period) in_use
        (λ path i scan gone.
          not_in_use (is_regular i.kind) (is_key path) (contains_text photo_keys path)
            (contains_text storage_keys path) (contains_text keys path)
            (ltb i.modified (a.now - grace_period))
            (visit_object-gone a.disk keys (a.now - grace_period) path i i.kind scan gone)
            (contains-referenced photo_keys storage_keys path))
        files,
    prune-keeps_uploads a.disk keys (a.now - grace_period) uploading
        (λ i scan gone.
          not_uploading (is_regular i.kind && starts_with i.name (text "upload-"))
            (ltb i.modified (a.now - grace_period))
            (and_assoc (is_regular i.kind) _ _
              (visit_upload-gone a.disk keys (a.now - grace_period) i i.kind scan gone)))
        files,
  )

  unlock-Kept :
      (files : Files) (r : CleanupRun)
      → Kept files r
      → Kept files (unlock_cleanup a photo_keys storage_keys r)
  unlock-Kept files r h = elim (Bool-cases a.unlock_fails) [
    | inl fails ↦ simp fails h
    | inr works ↦ simp works h
  ]

  cleanup_from-Kept :
      (files : Files) (lock : Option Bool)
      → Kept files (cleanup_from a photo_keys storage_keys files lock)
  cleanup_from-Kept files none = (refl, refl)
  cleanup_from-Kept files (some false) = (refl, refl)
  cleanup_from-Kept files (some true) = unlock-Kept files _ (elim (Bool-cases a.keys_fail) [
    | inl fails ↦ simp fails (refl, refl)
    | inr works ↦ simp works (prune-Kept files)
  ])

  -- Whatever fails, a cleanup leaves each file that is in use where it is, and each upload that may still
  -- go on.
  pub run_cleanup-keeps :
      (files : Files)
      → (filter in_use (object_files (run_cleanup a photo_keys storage_keys files).files.objects)
          ≡ filter in_use (object_files files.objects))
        × (filter uploading (run_cleanup a photo_keys storage_keys files).files.temporary
            ≡ filter uploading files.temporary)
  unfolding run_cleanup
  run_cleanup-keeps files = cleanup_from-Kept files a.lock
