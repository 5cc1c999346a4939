-- ===== src/Email/Run/Spaced.antt =====
-- How far apart the recorded emails of one reminder lie.
use carma.Base.{
  ℕ, ◌+◌, ◌-◌, ◌≤◌, ◌<◌, ◌≡◌, ◌⊎◌, refl, inl, inr, Bool, true, false, not, Option, none, some, List,
  [], ◌∷◌, ◌++◌, ◌==◌, Bool-cases, All, length, arith,
}
use carma.Base.Float.{Float}
use carma.Base.Text.{Text}
use carma.Model.{Uuid, Instant, Record, Reminder, ReminderNotification}
use carma.Reminder.Evaluate.{Evaluation}
use carma.Email.{Message}
use carma.Email.Render.{is_due}
use carma.Email.Run.{
  Options, PassAnswers, EmailAnswers, EmailRunner, Post, Progress, suppression_window,
  reminder_notification_since, cutoff_from, suppression_cutoff, load_from, load_recipients,
  record_send, notification, is_empty, deliver, handle_due, check_count, check_required, pass,
  run_emails,
}
use carma.Email.Run.Rules.{Ends, Ends-if, run_emails_keeps}

-- Two emails of one reminder: a matching record was logged after the first one, or the second is more
-- than 30 days later.
abbrev pub Apart : (Uuid → Instant) → ReminderNotification → ReminderNotification → Type 0
Apart logged n m =
    n.reminder_id ≡ m.reminder_id
    → (n.sent_at < logged m.reminder_id) ⊎ (n.sent_at + suppression_window < m.sent_at)

abbrev pub SpacedBy : (Uuid → Instant) → List ReminderNotification → Type 0
SpacedBy logged [] = Unit
SpacedBy logged (n ∷ rows) = All (Apart logged n) rows × SpacedBy logged rows

-- When the baseline was logged.
abbrev pub LoggedBy : (Uuid → Instant) → Uuid → Option Record → Type 0
LoggedBy logged id none = Unit
LoggedBy logged id (some b) = b.created_at ≤ logged id

All-snoc {ℓ} :
    {A : Type ℓ} (P : A → Type 0) (xs : List A) (x : A) → All P xs → P x → All P (xs ++ x ∷ [])
All-snoc P [] x h k = (k, tt)
All-snoc P (y ∷ xs) x h k = (h.0, All-snoc P xs x h.1 k)

SpacedBy-snoc :
    (logged : Uuid → Instant) (rows : List ReminderNotification) (m : ReminderNotification)
    → SpacedBy logged rows
    → All (λ n. Apart logged n m) rows
    → SpacedBy logged (rows ++ m ∷ [])
SpacedBy-snoc logged [] m h k = (tt, tt)
SpacedBy-snoc logged (n ∷ rows) m h k =
    (All-snoc (Apart logged n) rows m h.0 k.0, SpacedBy-snoc logged rows m h.1 k.1)

-- A row that the search for recent emails passes over.
Apart-of_search :
    (logged : Uuid → Instant) (cutoff : Instant) (m : ReminderNotification)
    (rows : List ReminderNotification)
    → reminder_notification_since m.reminder_id cutoff rows ≡ false
    → ((t : Instant)
        → t < cutoff
        → (t < logged m.reminder_id) ⊎ (t + suppression_window < m.sent_at))
    → All (λ n. Apart logged n m) rows
unfolding reminder_notification_since
Apart-of_search logged cutoff m [] none_recent far = tt
Apart-of_search logged cutoff m (n ∷ rows) none_recent far = (
  (λ same. far n.sent_at (ground (arith, same))),
  Apart-of_search logged cutoff m rows (ground arith) far,
)

far_from_cutoff :
    {fl : Float} (runner : EmailRunner fl) (options : Options) (logged : Uuid → Instant) (id : Uuid)
    (now sent t : Instant) (baseline : Option Record)
    → LoggedBy logged id baseline
    → now ≤ sent
    → t < cutoff_from runner options (now - suppression_window) baseline
    → (t < logged id) ⊎ (t + suppression_window < sent)
far_from_cutoff runner options logged id now sent t none l h lt = inr (omega arith)
far_from_cutoff runner options logged id now sent t (some b) l h lt = ground arith

-- Loading the recipients leaves the recorded emails alone.
abbrev SameLog : {F : Type 0} → Progress F → Option (List Text × Progress F) → Type 0
SameLog p none = Unit
SameLog p (some (recipients, q)) = q.post.notifications ≡ p.post.notifications

load-SameLog :
    {fl : Float} (runner : EmailRunner fl) (options : Options) (p : Progress (Float.F fl))
    (fails : Bool) (cached : Option (List Text))
    → SameLog p (load_from runner options fails p cached)
load-SameLog runner options p fails (some recipients) = refl
load-SameLog runner options p true none = tt
load-SameLog runner options p false none = refl

module _ {fl : Float} (runner : EmailRunner fl) (options : Options) (logged : Uuid → Instant) where
  open fl use {F}

  abbrev SpacedIn : Progress F → Type 0
  SpacedIn p = SpacedBy logged p.post.notifications

  abbrev Logged : Reminder F → Type 0
  Logged r = LoggedBy logged r.id r.baseline

  module _ (a : PassAnswers) (now : Instant) (timely : now ≤ a.sent_at) where
    record_send-SpacedIn :
        (r : Reminder F) (recipients : List Text) (message : Message) (send : Option Text)
        (p : Progress F)
        → Logged r
        → reminder_notification_since r.id
            (suppression_cutoff runner options now r)
            p.post.notifications
          ≡ false
        → SpacedIn p
        → SpacedIn (record_send runner options a r recipients message send p)
    unfolding record_send suppression_cutoff
    record_send-SpacedIn r recipients message none p l fresh h = h
    record_send-SpacedIn r recipients message (some id) p l fresh h =
        elim (Bool-cases a.audit_fails) [
          | inl lost ↦ simp lost h
          | inr kept ↦ simp kept (
              SpacedBy-snoc logged p.post.notifications m h (
                Apart-of_search logged (suppression_cutoff runner options now r) m
                  p.post.notifications fresh
                  (λ t.
                    far_from_cutoff runner options logged r.id now a.sent_at t r.baseline l
                      timely)))
        ]
      where
        m : ReminderNotification
        m = notification runner options a r recipients id

    deliver-SpacedIn :
        (r : Reminder F) (result : Evaluation F) (p : Progress F)
        (o : Option (List Text × Progress F))
        → SameLog p o
        → Logged r
        → reminder_notification_since r.id
            (suppression_cutoff runner options now r)
            p.post.notifications
          ≡ false
        → SpacedIn p
        → Ends SpacedIn SpacedIn (deliver runner options a r result p o)
    deliver-SpacedIn r result p none same l fresh h = h
    deliver-SpacedIn r result p (some (recipients, q)) same l fresh h =
        Ends-if SpacedIn SpacedIn (is_empty runner options recipients) _ _ (simp same h) (
          Ends-if SpacedIn SpacedIn options.dry_run _ _ (simp same h)
            (record_send-SpacedIn r recipients _ a.send q l (simp same fresh) (simp same h)))

    handle_due-SpacedIn :
        (r : Reminder F) (result : Evaluation F) (p : Progress F)
        → Logged r
        → SpacedIn p
        → Ends SpacedIn SpacedIn (handle_due runner options a now r result p)
    unfolding handle_due load_recipients
    handle_due-SpacedIn r result p l h =
        Ends-if SpacedIn SpacedIn (not (is_due result.status)) _ _ h (
          Ends-if SpacedIn SpacedIn a.suppression_fails _ _ h
            (elim (Bool-cases (
              reminder_notification_since r.id (suppression_cutoff runner options now r)
                p.post.notifications)) [
                  | inl recent ↦ simp recent h
                  | inr fresh ↦ simp fresh (
                      deliver-SpacedIn r result p _
                        (load-SameLog runner options p a.recipients_fail p.recipients) l fresh h)
                ]))

    check_count-SpacedIn :
        (r : Reminder F) (result : Evaluation F) (n : ℕ) (p : Progress F)
        (o : Option (List Text × Progress F))
        → SameLog p o
        → Logged r
        → SpacedIn p
        → Ends SpacedIn SpacedIn (check_count runner options a now r result n p o)
    check_count-SpacedIn r result n p none same l h = h
    check_count-SpacedIn r result n p (some (recipients, q)) same l h =
        Ends-if SpacedIn SpacedIn (not (length recipients == n)) _ _ (simp same h)
          (handle_due-SpacedIn r result q l (simp same h))

    check_required-SpacedIn :
        (r : Reminder F) (result : Evaluation F) (p : Progress F) (required : Option ℕ)
        → Logged r
        → SpacedIn p
        → Ends SpacedIn SpacedIn (check_required runner options a now r result p required)
    unfolding load_recipients
    check_required-SpacedIn r result p none l h = handle_due-SpacedIn r result p l h
    check_required-SpacedIn r result p (some n) l h =
        check_count-SpacedIn r result n p _
          (load-SameLog runner options p a.recipients_fail p.recipients) l h

    pass-SpacedIn :
        (r : Reminder F) (p : Progress F)
        → Logged r
        → SpacedIn p
        → Ends SpacedIn SpacedIn (pass runner options a now r p)
    unfolding pass
    pass-SpacedIn r p l h =
        Ends-if SpacedIn SpacedIn a.canceled _ _ h
          (check_required-SpacedIn r _ _ options.require_recipient_count l h)

  -- A run keeps the recorded emails of each reminder apart: the next one is recorded more than 30 days
  -- after the one before, or after a matching record was logged. `logged` gives for each reminder a time
  -- that is no earlier than when its current baseline record was logged, and the clock does not run
  -- backwards in the run.
  pub run_emails-SpacedBy :
      (a : EmailAnswers) (post : Post F)
      → ((i : ℕ) → a.now ≤ (a.pass i).sent_at)
      → All Logged post.reminders
      → SpacedBy logged post.notifications
      → SpacedBy logged (run_emails runner options a post).0.post.notifications
  run_emails-SpacedBy a post timely all h =
      run_emails_keeps runner options a Logged SpacedIn SpacedIn (λ p k. k)
        (λ i r p l k. pass-SpacedIn (a.pass i) a.now (timely i) r p l k) post all (λ report. h)
