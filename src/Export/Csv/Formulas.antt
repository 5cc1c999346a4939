-- ===== src/Export/Csv/Formulas.antt =====
-- The cells of the CSV file and the formulas of spreadsheets.
use carma.Base.{
  ℕ, ◌-◌, ◌/◌, zero, suc, ◌≡◌, refl, ap₂, ◌∙◌, inl, inr, Bool, true, false, ◌&&◌, ◌||◌, ◌==◌,
  Option, none, some, List, [], ◌∷◌, ◌++◌, Bool-cases, all-append, ◌≢◌, length, all, All, arith,
}
use carma.Base.Int.{ℤ, pos, negsuc}
use carma.Base.Text.{Text, is_space, drop_while}
use carma.Base.Decimal.{decimal, format_int, is_digit, decimal-digits, decimal-ne-nil}
use carma.Calendar.{Date}
use carma.Model.{Record}
use carma.Model.Money.Facts.{HasAmount}
use carma.Export.Csv.{
  format_cents, begins_formula, spreadsheet_text, zeros, padded, iso_date, or_blank, csv_header,
  csv_row, unless_error, write_records, csv_file,
}

abbrev pub starts_sign : Text → Bool
starts_sign [] = false
starts_sign (c ∷ s) = c == b'=' || c == b'+' || c == b'-' || c == b'@'

-- The first character behind the blanks is none of those that start a formula: = + - @.
abbrev pub Plain : Text → Type 0
Plain s = starts_sign (drop_while is_space s) ≡ false

begins_formula_lem : (s : Text) → begins_formula s ≡ starts_sign (drop_while is_space s)
unfolding begins_formula is_space
begins_formula_lem [] = refl
begins_formula_lem (c ∷ s) = ground (arith, begins_formula_lem s)

spreadsheet_text-Plain : (s : Text) → Plain (spreadsheet_text s)
unfolding spreadsheet_text
spreadsheet_text-Plain s = elim (Bool-cases (begins_formula s)) [
  | inl formula ↦ simp formula quoted
  | inr plain ↦ simp plain (simp (begins_formula_lem s) at plain)
]
  where
    quoted : Plain (b'\'' ∷ s)
    quoted = unfold is_space in refl

digits-Plain : (s t : Text) → s ≢ [] → all is_digit s ≡ true → Plain (s ++ t)
unfolding is_space
digits-Plain [] t ne d = absurd (ne refl)
digits-Plain (c ∷ s) t ne d = ground arith

only_digits-Plain : (s : Text) → s ≢ [] → all is_digit s ≡ true → Plain s
unfolding is_space
only_digits-Plain [] ne d = absurd (ne refl)
only_digits-Plain (c ∷ s) ne d = ground arith

zeros-digits : (n : ℕ) → all is_digit (zeros n) ≡ true
zeros-digits zero = refl
zeros-digits (suc n) = zeros-digits n

append-ne-nil : (s t : Text) → t ≢ [] → s ++ t ≢ []
append-ne-nil [] t ne e = ne e
append-ne-nil (c ∷ s) t ne e = cc

iso_date-Plain : (day : Date) → Plain (iso_date day)
unfolding iso_date
iso_date-Plain day =
    digits-Plain (padded 4 year) _
      (append-ne-nil (zeros (4 - length year)) year (decimal-ne-nil day.year))
      (all-append is_digit (zeros (4 - length year)) year
        ∙ ap₂ ◌&&◌ (zeros-digits (4 - length year)) (decimal-digits day.year))
  where
    year : Text
    year = decimal day.year

or_blank-Plain {ℓ} :
    {A : Type ℓ} (f : A → Text) (o : Option A)
    → ((a : A) → o ≡ some a → Plain (f a))
    → Plain (or_blank f o)
or_blank-Plain f none h = refl
or_blank-Plain f (some a) h = h a refl

decimal-Plain : (n : ℕ) → Plain (decimal n)
decimal-Plain n = only_digits-Plain (decimal n) (decimal-ne-nil n) (decimal-digits n)

format_int-Plain : (o : Option ℤ) → HasAmount o → Plain (or_blank format_int o)
unfolding format_int
format_int-Plain none h = refl
format_int-Plain (some (pos n)) h = decimal-Plain n
format_int-Plain (some (negsuc n)) h = absurd (omega (arith, h.low))

format_cents-Plain : (o : Option ℤ) → HasAmount o → Plain (or_blank format_cents o)
unfolding format_cents
format_cents-Plain none h = refl
format_cents-Plain (some (pos n)) h =
    digits-Plain (decimal (n / 100)) _ (decimal-ne-nil (n / 100)) (decimal-digits (n / 100))
format_cents-Plain (some (negsuc n)) h = absurd (omega (arith, h.low))

-- The amounts of a record are nonnegative int64 values.
pub record HasAmounts (r : Record) : Type 0 where
  pub odometer : HasAmount r.odometer_miles
  pub cost : HasAmount r.cost_cents
  pub warranty : HasAmount r.warranty_until_miles

csv_row-Plain : (r : Record) → HasAmounts r → All Plain (csv_row r)
unfolding csv_row
csv_row-Plain r a = (
  spreadsheet_text-Plain r.vehicle_name,
  (
    iso_date-Plain r.occurred_on,
    (
      spreadsheet_text-Plain r.service_type_name,
      (
        format_int-Plain r.odometer_miles a.odometer,
        (
          format_cents-Plain r.cost_cents a.cost,
          (
            spreadsheet_text-Plain r.vendor,
            (
              spreadsheet_text-Plain r.notes,
              (
                decimal-Plain r.attachment_count,
                (
                  spreadsheet_text-Plain r.created_by_name,
                  (
                    or_blank-Plain iso_date r.warranty_until_on (λ day e. iso_date-Plain day),
                    (format_int-Plain r.warranty_until_miles a.warranty, tt),
                  ),
                ),
              ),
            ),
          ),
        ),
      ),
    ),
  ),
)

csv_header-Plain : All Plain csv_header
unfolding is_space
csv_header-Plain =
    (refl, (refl, (refl, (refl, (refl, (refl, (refl, (refl, (refl, (refl, (refl, tt)))))))))))

module _ {W E : Type 0} (write : List Text → W → Option E × W) (close : W → Option E × W)
    (Clean : W → Type 0) where
  unless_error-Clean :
      (next : W → Option E × W) (step : Option E × W)
      → ((w : W) → Clean w → Clean (next w).1)
      → Clean step.1
      → Clean (unless_error next step).1
  unless_error-Clean next (none, w) h c = h w c
  unless_error-Clean next (some e, w) h c = c

  write_records-Clean :
      ((row : List Text) (w : W) → All Plain row → Clean w → Clean (write row w).1)
      → ((w : W) → Clean w → Clean (close w).1)
      → (records : List Record) (w : W) → All HasAmounts records
      → Clean w
      → Clean (write_records write close records w).1
  unfolding write_records
  write_records-Clean row end [] w amounts c = end w c
  write_records-Clean row end (r ∷ records) w amounts c =
      unless_error-Clean (write_records write close records) (write (csv_row r) w)
        (λ v d. write_records-Clean row end records v amounts.1 d)
        (row (csv_row r) w (csv_row-Plain r amounts.0) c)

  -- No cell of the file starts a formula, also behind blanks: what the writer keeps to for rows without
  -- formulas holds of the file, whatever fails, if the amounts of the records are nonnegative int64 values.
  pub csv_file-Plain :
      ((row : List Text) (w : W) → All Plain row → Clean w → Clean (write row w).1)
      → ((w : W) → Clean w → Clean (close w).1)
      → (records : List Record) (w : W) → All HasAmounts records
      → Clean w
      → Clean (csv_file write close records w).1
  unfolding csv_file
  csv_file-Plain row end records w amounts c =
      unless_error-Clean (write_records write close records) (write csv_header w)
        (λ v d. write_records-Clean row end records v amounts d)
        (row csv_header w csv_header-Plain c)
