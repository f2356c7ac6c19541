-- ===== src/UpgradeCompare/Sets.antt =====
-- `compare_sets`: the fields of the old layout are matched with those of the new one, in three rounds.
use oca_server_tools.Common.{
  ℕ, suc, ◌-◌, String, Bool, not, ◌&&◌, ◌||◌, Option, none, some, List, [], ◌∷◌, ◌++◌, str_eq,
  if◌then◌else◌, length, keep, map,
}
use oca_server_tools.Common.Dict.{has}
use oca_server_tools.UpgradeCompare.{
  Value, Item, Apriori, Text, lists, Reprs, truthy, text_of, set, ignore_fields, model_map, search,
  fieldprint, report_generic, remove_item,
}

-- `old_records`, `non_obsolete_old_records` and `new_records`, the count of a round, and `reprs`.
pub record Sets : Type 0 where
  pub old : List Item
  pub non_obsolete : List Item
  pub new : List Item
  pub count : ℕ
  pub reprs : Reprs

-- The report with the numbers of its last lines.
pub record Report : Type 0 where
  pub reprs : Reprs
  pub fields_matched : ℕ
  pub matched_direct : ℕ
  pub matched_other_module : ℕ
  pub matched_other_type : ℕ
  pub in_obsolete_models : ℕ
  pub not_matched : ℕ
  pub new_columns : ℕ

abbrev pub bind {ℓ} : {A B : Type ℓ} → Option A → (A → Option B) → Option B
bind none f = none
bind (some a) f = f a

abbrev pub clean_records : List Item → List Item
clean_records records = keep (λ r. not (has (text_of (r "field")) ignore_fields)) records

abbrev models : List Item → List String
models records = map (λ r. text_of (r "model")) records

abbrev printkeys_old : List String
printkeys_old =
    "relation" ∷ "required" ∷ "selection_keys" ∷ "_inherits" ∷ "mode" ∷ "attachment" ∷ []

abbrev printkeys_new : List String
printkeys_new = printkeys_old ++ "hasdefault" ∷ []

abbrev computed : Item → Bool
computed column = truthy (column "isfunction") || truthy (column "isrelated")

-- The records that the last two loops skip.
abbrev skipped : Item → Bool
skipped column =
    str_eq (text_of (column "field")) "_order"
    || (not (truthy (column "stored")) && computed column)

abbrev printed : List String → Item → List (String × Value)
printed keys column = map (λ k. (k, column k)) (keep (λ k. truthy (column k)) keys)

-- `if column["mode"] == "create": column["mode"] = ""`
abbrev without_create : Item → Item
without_create column =
    if str_eq (text_of (column "mode")) "create" then set "mode" (some "") column else column

abbrev del_text : Item → Text
del_text column = lists "DEL" (printed printkeys_old (without_create column))

abbrev new_keys : Item → List String
new_keys column =
    if computed column
    then printkeys_new ++ "isfunction" ∷ "isrelated" ∷ "stored" ∷ []
    else printkeys_new

abbrev new_text : Item → Text
new_text column = lists "NEW" (printed (new_keys column) (without_create column))

abbrev pub direct_keys : List String
direct_keys = "module" ∷ "mode" ∷ "model" ∷ "field" ∷ []

abbrev pub other_module_keys : List String
other_module_keys = "mode" ∷ "model" ∷ "field" ∷ "type" ∷ []

abbrev pub common_report : List String
common_report =
    "selection_keys" ∷ "_inherits" ∷ "stored" ∷ "isfunction" ∷ "isrelated" ∷ "required" ∷ "table"
    ∷ "_order" ∷ []

module _ (apriori : Apriori) (keys : List String) where
  -- The model of an old record that is gone
  abbrev obsolete : List String → Item → Bool
  obsolete new_models column =
      not (has (text_of (column "model")) new_models)
      && not (has (model_map apriori (text_of (column "model"))) new_models)

  -- What `match` does with a record and the one found for it
  unfoldable pub take : List String → Item → Item → Sets → Option Sets
  unfolding remove_item report_generic
  take report_fields column found s = bind (remove_item keys column s.old) λ old.
      bind (remove_item keys column s.non_obsolete) λ non_obsolete.
        bind (remove_item keys found s.new) λ new. some (record {
          old = old;
          non_obsolete = non_obsolete;
          new = new;
          count = suc s.count;
          reprs = report_generic apriori found column report_fields s.reprs;
        })

  abbrev pub step : List String → Item → Option Item → Sets → Option Sets
  step report_fields column none s = some s
  step report_fields column (some found) s = take report_fields column found s

  -- The loop of `match`
  unfoldable pub match_all : List String → List String → List Item → Sets → Option Sets
  unfolding take
  match_all match_fields report_fields [] s = some s
  match_all match_fields report_fields (column ∷ more) s =
      bind (step report_fields column (search apriori column s.new match_fields) s)
        λ s'. match_all match_fields report_fields more s'

  -- `match`
  unfoldable pub match_round : List String → List String → Sets → Option Sets
  unfolding match_all
  match_round match_fields report_fields s =
      match_all match_fields report_fields s.non_obsolete (record s { count = 0 })

  -- The loops over the records that are left
  unfoldable pub print_all : (Item → Text) → List Item → Reprs → Reprs
  unfolding fieldprint
  print_all text [] reprs = reprs
  print_all text (column ∷ more) reprs =
      print_all text more
        (if skipped column then reprs else fieldprint apriori column (text column) reprs)

  -- The records at the start, the obsolete ones set apart.
  abbrev pub obsolete_in : List Item → Item → Bool
  obsolete_in new column = obsolete (models new) column

  abbrev pub start : List Item → List Item → Sets
  start old new = record {
    old = old;
    non_obsolete = keep (λ r. not (obsolete_in new r)) old;
    new = new;
    count = 0;
    reprs = [];
  }

  -- What is printed at the end, from the sets after each round.
  abbrev pub report_of : List Item → List Item → Sets → Sets → Sets → Report
  report_of old new direct moved other = record {
    reprs = print_all new_text other.new (print_all del_text other.old other.reprs);
    fields_matched = length old - length other.old;
    matched_direct = direct.count;
    matched_other_module = moved.count;
    matched_other_type = other.count;
    in_obsolete_models = length (keep (obsolete_in new) old);
    not_matched = length other.old;
    new_columns = length other.new;
  }

  abbrev pub match_direct : Sets → Option Sets
  match_direct s = match_round direct_keys ("relation" ∷ "type" ∷ common_report) s

  abbrev pub match_other_module : Sets → Option Sets
  match_other_module s = match_round other_module_keys ("module" ∷ "relation" ∷ common_report) s

  abbrev pub match_sets : List Item → List Item → Option Report
  match_sets old new = bind (match_direct (start old new)) λ direct.
      bind (match_other_module direct)
        λ moved. bind (match_direct moved) λ other. some (report_of old new direct moved other)

  -- `compare_sets`, with the keys of the records
  unfoldable pub compare_sets : List Item → List Item → Option Report
  unfolding match_round print_all
  compare_sets old_records new_records =
      match_sets (clean_records old_records) (clean_records new_records)
