-- ===== src/UpgradeCompare/Tests.antt =====
-- Two small layouts, and what `compare_sets` reports of them.
use oca_server_tools.Common.{◌≡◌, String, List, [], ◌∷◌, none, some, str_eq, if◌then◌else◌, length}
use oca_server_tools.UpgradeCompare.{Item, Apriori, search, search_same}
use oca_server_tools.UpgradeCompare.Sets.{Report, compare_sets, clean_records}
use oca_server_tools.UpgradeCompare.Counts.{AddsUp, compare_sets-AddsUp, search-search_same}

-- `sale` was merged into `sales`.
abbrev apriori : Apriori
apriori = record {
  renamed_modules = [];
  merged_modules = ("sale", "sales") ∷ [];
  renamed_models = [];
  merged_models = [];
}

abbrev item : String → String → String → String → Item
item module_name model field type key =
    if str_eq key "module"
    then some module_name
    else if str_eq key "model"
    then some model
    else if str_eq key "field"
    then some field
    else if str_eq key "type"
    then some type
    else none

abbrev keys : List String
keys = "module" ∷ "model" ∷ "field" ∷ "type" ∷ "mode" ∷ []

abbrev old : List Item
old =
    item "sale" "sale.order" "id" "integer"
    ∷ item "sale" "sale.order" "note" "char"
    ∷ item "base" "res.partner" "zip" "char"
    ∷ []

abbrev new : List Item
new = item "sales" "sale.order" "note" "text" ∷ item "base" "res.partner" "city" "char" ∷ []

compare_sets-AddsUp_example :
    (r : Report) × (compare_sets apriori keys old new ≡ some r)
    × AddsUp (length (clean_records old)) (length (clean_records new)) r
compare_sets-AddsUp_example = compare_sets-AddsUp apriori keys old new

search-search_same_example :
    search apriori (item "sale" "sale.order" "note" "char") new ("model" ∷ "field" ∷ [])
    ≡ search_same apriori (item "sale" "sale.order" "note" "char") new ("model" ∷ "field" ∷ [])
search-search_same_example =
    search-search_same apriori (item "sale" "sale.order" "note" "char") new ("model" ∷ "field" ∷ [])
