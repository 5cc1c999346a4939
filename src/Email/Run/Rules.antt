-- ===== src/Email/Run/Rules.antt =====
-- What one pass keeps, the whole run keeps.
use carma.Base.{
  ℕ, suc, inl, inr, Bool, true, false, Option, none, some, List, [], ◌∷◌, ◌==◌, if◌then◌else◌,
  Bool-cases, All, filter, any,
}
use carma.Base.Float.{Float}
use carma.Model.{Uuid, Reminder}
use carma.Email.Run.{
  EmailFailure, Options, Report, EmailAnswers, EmailRunner, Post, Progress, Pass, continue, return,
  pass, after_pass, pass_loop, start_at, select, send_all, under_lock, run_emails,
}

-- One predicate of the loop's variables where the loop goes on, another where it returns.
abbrev pub Ends : {F : Type 0} → (Progress F → Type 0) → (Progress F → Type 0) → Pass F → Type 0
Ends J K (continue p) = J p
Ends J K (return e p) = K p

pub Ends-if :
    {F : Type 0} (J K : Progress F → Type 0) (b : Bool) (x y : Pass F)
    → Ends J K x
    → Ends J K y
    → Ends J K (if b then x else y)
Ends-if J K true x y h k = h
Ends-if J K false x y h k = k

of_either :
    {F : Type 0} (K : Progress F → Type 0) (b : Bool) (x y : Progress F × List EmailFailure)
    → K x.0
    → K y.0
    → K (if b then x else y).0
of_either K true x y h k = h
of_either K false x y h k = k

All-filter {ℓ} :
    {A : Type ℓ} (P : A → Type 0) (p : A → Bool) (xs : List A) → All P xs → All P (filter p xs)
All-filter P p [] h = tt
All-filter P p (x ∷ xs) h = elim (Bool-cases (p x)) [
  | inl keep ↦ rw keep (h.0, All-filter P p xs h.1)
  | inr drop ↦ rw drop (All-filter P p xs h.1)
]

module _ {fl : Float} (runner : EmailRunner fl) (options : Options) (a : EmailAnswers) where
  open fl use {F}

  module _ (R : Reminder F → Type 0) (J K : Progress F → Type 0)
      (stop : (p : Progress F) → J p → K p)
      (step : (i : ℕ) (r : Reminder F) (p : Progress F)
        → R r
        → J p
        → Ends J K (pass runner options (a.pass i) a.now r p)) where
    after_pass_keeps :
        (o : Pass F) (next : Progress F → Progress F × List EmailFailure)
        → Ends J K o
        → ((q : Progress F) → J q → K (next q).0)
        → K (after_pass runner options a o next).0
    after_pass_keeps (continue p) next h k = k p h
    after_pass_keeps (return e p) next h k = h

    pass_loop_keeps :
        (i : ℕ) (rs : List (Reminder F)) (p : Progress F)
        → All R rs
        → J p
        → K (pass_loop runner options a i rs p).0
    unfolding pass_loop
    pass_loop_keeps i [] p all h = stop p h
    pass_loop_keeps i (r ∷ rs) p all h =
        after_pass_keeps _ _ (step i r p all.0 h) (λ q k. pass_loop_keeps (suc i) rs q all.1 k)

    select_keeps :
        (post : Post F) (target : Option Uuid)
        → All R post.reminders
        → ((report : Report) → J (start_at runner options a post report))
        → K (select runner options a post target).0
    unfolding select
    select_keeps post none all h = pass_loop_keeps 0 post.reminders _ all (h _)
    select_keeps post (some id) all h =
        elim (Bool-cases (any (λ (r : Reminder F). r.id == id) post.reminders)) [
          | inl found ↦ rw found (pass_loop_keeps 0 _ _ (All-filter R _ post.reminders all) (h _))
          | inr missing ↦ rw missing (stop _ (h _))
        ]

    send_all_keeps :
        (post : Post F)
        → All R post.reminders
        → ((report : Report) → J (start_at runner options a post report))
        → K (send_all runner options a post).0
    unfolding send_all
    send_all_keeps post all h =
        of_either K a.reminders_fail _ _ (stop _ (h _))
          (select_keeps post options.reminder_id all h)

    under_lock_keeps :
        (post : Post F) (lock : Option Bool)
        → All R post.reminders
        → ((report : Report) → J (start_at runner options a post report))
        → K (under_lock runner options a post lock).0
    under_lock_keeps post none all h = stop _ (h _)
    under_lock_keeps post (some false) all h = stop _ (h _)
    under_lock_keeps post (some true) all h = send_all_keeps post all h

    pub run_emails_keeps :
        (post : Post F)
        → All R post.reminders
        → ((report : Report) → J (start_at runner options a post report))
        → K (run_emails runner options a post).0
    unfolding run_emails
    run_emails_keeps post all h =
        of_either K options.dry_run _ _ (send_all_keeps post all h)
          (under_lock_keeps post a.lock all h)
