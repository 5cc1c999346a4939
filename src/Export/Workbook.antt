-- ===== src/Export/Workbook.antt =====
-- The workbook (XLSX, groupByVehicle, writeVehicleSheet and writeRecordRow of internal/export/xlsx.go).
-- The library that holds it is a parameter: what it answers to each call, in the order of the calls. A
-- style is the number of its NewStyle call, and a cell is given by its column and its row; Format of a
-- date or a cost is the library's.
pub mod Groups
use carma.Base.{
  ℕ, zero, suc, ◌+◌, Bool, true, false, Option, none, some, List, [], ◌∷◌, ◌++◌, ◌==◌,
  if◌then◌else◌, length,
}
use carma.Base.Int.{ℤ}
use carma.Base.Text.{Text, text, text_eq, trim_space}
use carma.Calendar.{Date}
use carma.Model.{Uuid, Record}
use carma.Export.History.{summarize}
use carma.Export.Csv.{format_cents}
use carma.Export.Names.{unique_sheet_name}

pub data Style : Type 0 where
  date_style cost_style total_cost_style header_style odometer_style : Style

pub data Call : Type 0 where
  new_style : Style → Call
  -- CoordinatesToCellName(column, row)
  cell_name : ℕ → ℕ → Call
  set_sheet_name : Text → Call
  new_sheet : Text → Call
  set_cell_text : Text → ℕ → ℕ → Text → Call
  set_cell_date : Text → ℕ → ℕ → Date → Call
  set_cell_int : Text → ℕ → ℕ → ℤ → Call
  set_cell_default : Text → ℕ → ℕ → Text → Call
  -- From a column, in a row, to a column.
  set_cell_style : Text → ℕ → ℕ → ℕ → Style → Call
  set_col_width : Text → ℕ → ℕ → ℕ → Call
  write_file : Call

pub record VehicleGroup : Type 0 where
  pub vehicle_id : Uuid
  pub name : Text
  pub records : List Record

abbrev pub group_name : Text → Text
group_name name = if text_eq name [] then text "Vehicle" else name

-- The vehicle's group, at its first record, takes the record.
unfoldable pub add_to_group : Record → List VehicleGroup → List VehicleGroup
add_to_group r [] =
    record {
      vehicle_id = r.vehicle_id;
      name = group_name (trim_space r.vehicle_name);
      records = r ∷ [];
    }
    ∷ []
add_to_group r (g ∷ groups) =
    let rest = add_to_group r groups in
    if g.vehicle_id == r.vehicle_id
    then record g { records = g.records ++ r ∷ [] } ∷ groups
    else g ∷ rest

unfoldable pub group_loop : List Record → List VehicleGroup → List VehicleGroup
unfolding add_to_group
group_loop [] groups = groups
group_loop (r ∷ records) groups = group_loop records (add_to_group r groups)

-- The group of no records has no vehicle; its ID is not read.
unfoldable pub group_by_vehicle : List Record → List VehicleGroup
unfolding group_loop
group_by_vehicle [] = record { vehicle_id = 0; name = text "Service history"; records = [] } ∷ []
group_by_vehicle (r ∷ records) = group_loop (r ∷ records) []

-- The cell's name, its value and its style.
abbrev pub styled : Text → ℕ → ℕ → Call → Style → List Call
styled sheet column row value style =
    cell_name column row ∷ value ∷ set_cell_style sheet column row column style ∷ []

abbrev pub calls_of {ℓ} : {A : Type ℓ} → (A → List Call) → Option A → List Call
calls_of f none = []
calls_of f (some a) = f a

abbrev pub write_cost : Text → ℕ → ℕ → ℤ → Style → List Call
write_cost sheet column row cents style =
    styled sheet column row (set_cell_default sheet column row (format_cents cents)) style

unfoldable pub write_record_row : Text → ℕ → Record → List Call
write_record_row sheet row r =
    styled sheet 1 row (set_cell_date sheet 1 row r.occurred_on) date_style
    ++ (calls_of (λ miles. styled sheet 2 row (set_cell_int sheet 2 row miles) odometer_style)
          r.odometer_miles
        ++ (cell_name 3 row
            ∷ set_cell_text sheet 3 row r.service_type_name
            ∷ cell_name 4 row
            ∷ set_cell_text sheet 4 row r.vendor
            ∷ (calls_of (λ cents. write_cost sheet 5 row cents cost_style) r.cost_cents
                ++ (calls_of (λ day. styled sheet 6 row (set_cell_date sheet 6 row day) date_style)
                      r.warranty_until_on
                    ++ calls_of
                        (λ miles.
                          styled sheet 7 row (set_cell_int sheet 7 row miles) odometer_style)
                        r.warranty_until_miles))))

unfoldable pub write_rows : Text → ℕ → List Record → List Call
unfolding write_record_row
write_rows sheet row [] = []
write_rows sheet row (r ∷ records) =
    write_record_row sheet row r ++ write_rows sheet (suc row) records

abbrev pub write_headers : Text → ℕ → List Text → List Call
write_headers sheet column [] = []
write_headers sheet column (header ∷ headers) =
    cell_name column 1
    ∷ set_cell_text sheet column 1 header
    ∷ write_headers sheet (suc column) headers

abbrev pub sheet_headers : List Text
sheet_headers =
    text "Date"
    ∷ text "Odometer"
    ∷ text "Service"
    ∷ text "Vendor"
    ∷ text "Cost"
    ∷ text "Warranty until"
    ∷ text "Warranty miles"
    ∷ []

abbrev pub write_total : Text → ℕ → List Record → List Call
write_total sheet row records =
    cell_name 1 row
    ∷ set_cell_text sheet 1 row (text "Total")
    ∷ set_cell_style sheet 1 row 1 header_style
    ∷ calls_of (λ cents. write_cost sheet 5 row cents total_cost_style)
        (summarize records).total_cents

abbrev pub set_widths : Text → List Call
set_widths sheet =
    set_col_width sheet 1 1 14
    ∷ set_col_width sheet 2 2 14
    ∷ set_col_width sheet 3 4 24
    ∷ set_col_width sheet 5 7 14
    ∷ []

unfoldable pub write_vehicle_sheet : Text → List Record → List Call
unfolding write_rows
write_vehicle_sheet sheet records =
    write_headers sheet 1 sheet_headers
    ++ (set_cell_style sheet 1 1 7 header_style
        ∷ (write_rows sheet 2 records
            ++ (write_total sheet (length records + 2) records ++ set_widths sheet)))

abbrev pub open_sheet : Bool → Text → Call
open_sheet true sheet = set_sheet_name sheet
open_sheet false sheet = new_sheet sheet

abbrev pub with_sheet :
    Bool → List Record → (List Text → List Call) → Option (Text × List Text) → List Call
with_sheet first records rest none = []
with_sheet first records rest (some (sheet, used)) =
    open_sheet first sheet ∷ (write_vehicle_sheet sheet records ++ rest used)

-- The first sheet takes the place of the one that a new file has.
unfoldable pub write_sheets : Bool → List VehicleGroup → List Text → List Call
unfolding unique_sheet_name write_vehicle_sheet
write_sheets first [] used = write_file ∷ []
write_sheets first (g ∷ groups) used =
    with_sheet first g.records (write_sheets false groups) (unique_sheet_name g.name used)

-- The calls, in order.
unfoldable pub xlsx_calls : List Record → List Call
unfolding write_sheets group_by_vehicle
xlsx_calls records =
    new_style date_style
    ∷ new_style cost_style
    ∷ new_style total_cost_style
    ∷ new_style header_style
    ∷ new_style odometer_style
    ∷ write_sheets true (group_by_vehicle records) []

module _ {W E : Type 0} (answer : Call → W → Option E × W) where
  abbrev pub unless_failed : (W → Option E × W) → Option E × W → Option E × W
  unless_failed next (none, w) = next w
  unless_failed next (some e, w) = (some e, w)

  -- Up to the first call that fails.
  unfoldable pub run_calls : List Call → W → Option E × W
  run_calls [] w = (none, w)
  run_calls (c ∷ calls) w = unless_failed (run_calls calls) (answer c w)

  unfoldable pub xlsx : List Record → W → Option E × W
  unfolding xlsx_calls run_calls
  xlsx records w = run_calls (xlsx_calls records) w
