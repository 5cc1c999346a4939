-- ===== src/Nhtsa/Campaigns.antt =====
-- The campaigns that the NHTSA lists for a model year (Client.Recalls of internal/nhtsa/client.go). The
-- decoded answer of the server is a value, and time.Parse is a parameter.
use carma.Base.{
  ℕ, ◌≡◌, refl, ap, ◌∙◌, inl, inr, Bool, true, not, ◌&&◌, ◌||◌, Option, none, some, List, [], ◌∷◌,
  ◌++◌, ◌==◌, if◌then◌else◌, Bool-cases, any, any-append, map, arith,
}
use carma.Base.Result.{Result, ok, err}
use carma.Base.Text.{Text, text, text_eq, text_eq_iff, starts_with, trim_space}
use carma.Calendar.{Date}
use carma.Email.Recipients.{contains, distinct, distinct-snoc}

-- A result of the answer's JSON.
pub record CampaignResult : Type 0 where
  pub nhtsa_campaign_number : Text
  pub component : Text
  pub summary : Text
  pub consequence : Text
  pub remedy : Text
  pub report_received_date : Text
  pub park_it : Bool
  pub park_outside : Bool

pub record NhtsaRecall : Type 0 where
  pub campaign_number : Text
  pub component : Text
  pub summary : Text
  pub consequence : Text
  pub remedy : Text
  pub report_received : Option Date
  pub park_it : Bool
  pub park_outside : Bool

pub record Response : Type 0 where
  pub status : ℕ
  pub message : Text
  pub results : List CampaignResult

pub data NhtsaError : Type 0 where
  request_failed http_status : NhtsaError

-- time.Parse("02/01/2006", value), which fails or gives a date.
abbrev pub DayParser : Type 0
DayParser = Text → Option Date

module _ (parse : DayParser) where
  abbrev pub to_nhtsa_recall : Text → CampaignResult → NhtsaRecall
  to_nhtsa_recall campaign r = record {
    campaign_number = campaign;
    component = trim_space r.component;
    summary = trim_space r.summary;
    consequence = trim_space r.consequence;
    remedy = trim_space r.remedy;
    report_received = parse (trim_space r.report_received_date);
    park_it = r.park_it;
    park_outside = r.park_outside;
  }

  abbrev pub campaigns : List NhtsaRecall → List Text
  campaigns recalls = map (λ r. r.campaign_number) recalls

  -- One result: left out if its campaign is blank or was seen. The campaigns so far are the keys seen.
  abbrev pub add_campaign : List NhtsaRecall → CampaignResult → List NhtsaRecall
  add_campaign recalls r =
      let campaign = trim_space r.nhtsa_campaign_number in
      if text_eq campaign [] || contains (campaigns recalls) campaign
      then recalls
      else recalls ++ to_nhtsa_recall campaign r ∷ []

  unfoldable pub collect : List NhtsaRecall → List CampaignResult → List NhtsaRecall
  collect recalls [] = recalls
  collect recalls (r ∷ results) = collect (add_campaign recalls r) results

  -- The answer to a request; none is a request or a decoding that failed.
  unfoldable pub recalls_of : Option Response → Result NhtsaError (List NhtsaRecall)
  recalls_of none = err request_failed
  recalls_of (some r) =
      if not (r.status == 200) && not (starts_with r.message (text "Results returned successfully"))
      then err http_status
      else ok (collect [] r.results)

  campaigns-append :
      (xs ys : List NhtsaRecall) → campaigns (xs ++ ys) ≡ campaigns xs ++ campaigns ys
  campaigns-append [] ys = refl
  campaigns-append (x ∷ xs) ys = ap (λ l. x.campaign_number ∷ l) (campaigns-append xs ys)

  -- A result names the campaign, which is not blank.
  abbrev pub names : Text → CampaignResult → Bool
  names c r = not (text_eq c []) && text_eq (trim_space r.nhtsa_campaign_number) c

  add_campaign-distinct :
      (recalls : List NhtsaRecall) (r : CampaignResult)
      → distinct (campaigns recalls) ≡ true
      → distinct (campaigns (add_campaign recalls r)) ≡ true
  add_campaign-distinct recalls r h =
      elim (Bool-cases (
        text_eq (trim_space r.nhtsa_campaign_number) []
        || contains (campaigns recalls) (trim_space r.nhtsa_campaign_number))) [
          | inl skip ↦ simp skip h
          | inr add ↦
              simp (add, campaigns-append)
                (distinct-snoc (campaigns recalls) (trim_space r.nhtsa_campaign_number) h
                  (ground (arith, add)))
        ]

  add_campaign-contains :
      (recalls : List NhtsaRecall) (r : CampaignResult) (c : Text)
      → contains (campaigns (add_campaign recalls r)) c
        ≡ (contains (campaigns recalls) c || names c r)
  add_campaign-contains recalls r c =
      elim (Bool-cases (text_eq k [] || contains (campaigns recalls) k)) [
        | inl skip ↦ simp skip (elim (Bool-cases (text_eq k c)) [
          | inl same ↦ ground (arith, skip, same, blank_same same, seen_same same)
          | inr other ↦ ground (arith, other)
        ])
        | inr add ↦
            simp (add, campaigns-append)
              (any-append (λ s. text_eq s c) (campaigns recalls) (k ∷ [])
                ∙ elim (Bool-cases (text_eq k c)) [
                  | inl same ↦ ground (arith, add, same, blank_same same, seen_same same)
                  | inr other ↦ ground (arith, other)
                ])
      ]
    where
      k : Text
      k = trim_space r.nhtsa_campaign_number

      k_eq : text_eq k c ≡ true → k ≡ c
      k_eq same = (text_eq_iff k c).0 same

      blank_same : text_eq k c ≡ true → text_eq k [] ≡ text_eq c []
      blank_same same = ap (λ x. text_eq x []) (k_eq same)

      seen_same :
          text_eq k c ≡ true → contains (campaigns recalls) k ≡ contains (campaigns recalls) c
      seen_same same = ap (contains (campaigns recalls)) (k_eq same)

  collect_lem :
      (recalls : List NhtsaRecall) (results : List CampaignResult) (c : Text)
      → contains (campaigns (collect recalls results)) c
        ≡ (contains (campaigns recalls) c || any (names c) results)
  unfolding collect
  collect_lem recalls [] c = ground arith
  collect_lem recalls (r ∷ results) c =
      collect_lem (add_campaign recalls r) results c
      ∙ ap (λ b. b || any (names c) results) (add_campaign-contains recalls r c)
      ∙ ground arith

  collect-distinct :
      (recalls : List NhtsaRecall) (results : List CampaignResult)
      → distinct (campaigns recalls) ≡ true
      → distinct (campaigns (collect recalls results)) ≡ true
  unfolding collect
  collect-distinct recalls [] h = h
  collect-distinct recalls (r ∷ results) h =
      collect-distinct (add_campaign recalls r) results (add_campaign-distinct recalls r h)

  -- The campaigns that are collected are just those that some result names, without outer blanks and
  -- not blank, each of them once.
  pub collect-names :
      (results : List CampaignResult)
      → (distinct (campaigns (collect [] results)) ≡ true)
        × ((c : Text) → contains (campaigns (collect [] results)) c ≡ any (names c) results)
  collect-names results = (collect-distinct [] results refl, λ c. collect_lem [] results c)
