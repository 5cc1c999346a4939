-- ===== src/Examples/Exports.antt =====
-- The exports at work.
use carma.Base.{◌≡◌, some, [], ◌∷◌, filter, arith}
use carma.Base.Int.{pos}
use carma.Base.Text.{text}
use carma.Model.{Uuid, Record}
use carma.Export.History.{summarize}
use carma.Export.History.Totals.{Sums, summarize-Sums}
use carma.Export.Names.{unique_sheet_name}
use carma.Export.Names.Unique.{IsNamed, unique_sheet_name-IsNamed}
use carma.Export.Workbook.{group_by_vehicle}
use carma.Export.Workbook.Groups.{is_of, records_of, OnePerVehicle, group_by_vehicle-records}
use carma.Examples.{oil_change}

abbrev tires : Record
tires = record oil_change {
  id = 8;
  vehicle_name = text "=Truck";
  vehicle_id = 5;
  cost_cents = some (pos 80000);
  attachment_count = 2;
}

summarize-Sums_example : Sums (oil_change ∷ tires ∷ []) (summarize (oil_change ∷ tires ∷ []))
summarize-Sums_example = summarize-Sums (oil_change ∷ tires ∷ []) (ground arith)

unique_sheet_name-IsNamed_example :
    IsNamed (text "wagon" ∷ []) (unique_sheet_name (text "Wagon") (text "wagon" ∷ []))
unique_sheet_name-IsNamed_example =
    unique_sheet_name-IsNamed (text "Wagon") (text "wagon" ∷ []) (omega arith)

group_by_vehicle-records_example :
    OnePerVehicle (group_by_vehicle (oil_change ∷ tires ∷ []))
    × ((id : Uuid)
        → records_of id (group_by_vehicle (oil_change ∷ tires ∷ []))
          ≡ filter (is_of id) (oil_change ∷ tires ∷ []))
group_by_vehicle-records_example = group_by_vehicle-records (oil_change ∷ tires ∷ [])
