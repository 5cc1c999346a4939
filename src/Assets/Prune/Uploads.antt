-- ===== src/Assets/Prune/Uploads.antt =====
-- Which unfinished uploads a pruning leaves alone.
use carma.Base.{
  ◌≡◌, ◌≢◌, refl, sym, ap, ◌∙◌, inl, inr, Bool, true, false, ◌&&◌, ◌||◌, List, [], ◌∷◌, filter, ltb,
  if◌then◌else◌, Bool-cases, arith,
}
use carma.Base.Text.{Text, text, starts_with}
use carma.Model.{Instant}
use carma.Assets.{Kind, regular, symlink, folder, other, Item, Entry, Files}
use carma.Assets.Prune.{
  context_error, DiskAnswers, Scan, WalkedTree, fail, classify_upload, not_a_file, visit_upload,
  walk_uploads, prune_uploads, after_walk, prune,
}
use carma.Assets.Prune.Keeps.{is_regular}

module _ (d : DiskAnswers) (referenced : List Text) (cutoff : Instant) where
  not_a_file-stays : (i : Item) (s : Scan) → (not_a_file d referenced cutoff i s).1 ≡ false
  not_a_file-stays i s = ground arith

  pub visit_upload-gone :
      (i : Item) (k : Kind) (s : Scan)
      → (visit_upload d referenced cutoff i k s).1 ≡ true
      → (is_regular k && starts_with i.name (text "upload-") && ltb i.modified cutoff) ≡ true
  unfolding visit_upload classify_upload
  visit_upload-gone i regular s h = ground arith
  visit_upload-gone i symlink s h = cc
  visit_upload-gone i folder s h = absurd (true_ne (sym h ∙ not_a_file-stays i s))
    where
      true_ne : true ≢ false
      true_ne e = cc
  visit_upload-gone i other s h = absurd (true_ne (sym h ∙ not_a_file-stays i s))
    where
      true_ne : true ≢ false
      true_ne e = cc

  -- `Q` holds of no upload that is removed.
  module _ (Q : Item → Bool)
      (safe : (i : Item) (s : Scan)
        → (visit_upload d referenced cutoff i i.kind s).1 ≡ true
        → Q i ≡ false) where
    drop_upload :
        (i : Item) (gone : Bool) (xs ys : List Item)
        → (gone ≡ true → Q i ≡ false)
        → filter Q xs ≡ filter Q ys
        → filter Q (if gone then xs else i ∷ xs) ≡ filter Q (i ∷ ys)
    drop_upload i true xs ys h e = simp (h refl) e
    drop_upload i false xs ys h e = ap (λ zs. if Q i then i ∷ zs else zs) e

    walk_uploads-keeps :
        (items : List Item) (s : Scan)
        → filter Q (walk_uploads d referenced cutoff items s).items ≡ filter Q items
    unfolding walk_uploads
    walk_uploads-keeps [] s = refl
    walk_uploads-keeps (i ∷ items) s = elim (Bool-cases (d.upload i.name).canceled) [
      | inl stops ↦ simp stops
      | inr goes ↦ simp goes (
          drop_upload i _ _ items (safe i s)
            (walk_uploads-keeps items (visit_upload d referenced cutoff i i.kind s).0))
    ]

    prune_uploads-keeps :
        (entries : List Entry) (items : List Item) (s : Scan)
        → filter Q (prune_uploads d referenced cutoff entries items s).0.temporary ≡ filter Q items
    prune_uploads-keeps entries items s = elim (Bool-cases d.temporary_fails) [
      | inl fails ↦ simp fails
      | inr works ↦ simp works (walk_uploads-keeps items s)
    ]

    after_walk-keeps :
        (items : List Item) (w : WalkedTree)
        → filter Q (after_walk d referenced cutoff items w).0.temporary ≡ filter Q items
    after_walk-keeps items w = elim (Bool-cases (w.stopped || d.walk_canceled)) [
      | inl ends ↦ simp ends
      | inr goes ↦ simp goes (
          prune_uploads-keeps w.entries items
            (if w.stopped then fail context_error w.scan else w.scan))
    ]

    pub prune-keeps_uploads :
        (files : Files)
        → filter Q (prune d referenced cutoff files).0.temporary ≡ filter Q files.temporary
    unfolding prune
    prune-keeps_uploads files = after_walk-keeps files.temporary _
