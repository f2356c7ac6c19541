-- ===== src/Changeset/Samples.antt =====
-- Concrete functions in place of Odoo's: values, a table of tracked records, a search and a sort
-- that are as documented; and a small state.
use oca_server_tools.Common.{
  ℕ, ◌+◌, String, ◌≡◌, ◌≢◌, refl, ap, ◌∙◌, Bool, true, false, not, ◌&&◌, ◌||◌, Option, none, some,
  List, [], ◌∷◌, ◌++◌, All, In-keep, keep-In, In-append, append-In, All-of_In, keep, elem, arith,
  leb, inl, inr, Bool-cases, ◌==◌, str_eq, if◌then◌else◌, is_some,
}
use oca_server_tools.Common.Dict.{Dict, lookup}
use oca_server_tools.Common.Action.{Action, ok, err, pure, ◌>>=◌, ◌>>◌}
use oca_server_tools.Changeset.Orm.{Orm, Ref, ref_eq, Ttype, Field}
use oca_server_tools.Changeset.Rules.{Rule, RuleAction, Search}
use oca_server_tools.Changeset.Rules.Precedence.{IsSearch, SourcesFirst}
use oca_server_tools.Changeset.State.{Change, ChangeState, Db, Env}
use oca_server_tools.Changeset.Apply.{Sorted}
use oca_server_tools.Changeset.Apply.Groups.{IsSorted}
use oca_server_tools.Changeset.Apply.Rounds.{Accepts}

pub data Val : Type 0 where
  no_value : Val
  int : ℕ → Val
  str : String → Val
  pair : String → Val → Val

abbrev pub val_true : Val → Bool
val_true no_value = false
val_true (int n) = not (n == 0)
val_true (str s) = not (str_eq s "")
val_true (pair m v) = true

abbrev pub val_same : Val → Val → Bool
val_same no_value no_value = true
val_same (int m) (int n) = m == n
val_same (str s) (str t) = str_eq s t
val_same (pair m v) (pair n w) = str_eq m n && val_same v w
val_same _ _ = false

abbrev pub Table : Type 0
Table = Ref → String → Val

abbrev pub put : Ref → Dict Val → Table → Table
put r vals s q f = if ref_eq r q then elim (lookup f vals) [ none ↦ s q f | some v ↦ v ] else s q f

-- The record with the id 99 is deleted.
abbrev pub exists_in : Table → Ref → Bool
exists_in s r = not (r.id == 99)

-- `write` on a deleted record raises.
abbrev pub write_table : Ref → Dict Val → Action String Table Unit
write_table r vals s = if exists_in s r then (ok tt, put r vals s) else (err "MissingError", s)

-- New records have the ids from 100 on.
abbrev pub create_from : ℕ → String → List (Dict Val) → Action String Table (List Ref)
create_from n model [] = pure []
create_from n model (vals ∷ more) = do
  let r : Ref = record { model = model; id = n }
  write_table r vals
  refs ← create_from (n + 1) model more
  pure (r ∷ refs)

abbrev pub orm : Orm
orm = record {
  Value = Val;
  truthy = val_true;
  false_value = no_value;
  same = val_same;
  slash = str "/";
  reference_text = pair;
  field_def = λ m f. record { ttype = Ttype.char; comodel_name = ""; required = str_eq f "name" };
  null = λ m f. no_value;
  convert_to_write = λ m f v. v;
  column = λ s v. v;
  Store = Table;
  exists = exists_in;
  read = λ s r f. s r f;
  super_write = write_table;
  super_create = create_from 100;
  record_company = λ s r. none;
  safe_eval = λ e s r. true;
}

pub orm-Accepts : Accepts orm (λ s. Unit)
orm-Accepts = record { writes = λ r vals s good there. (put r vals s, rw there refl, tt, λ q h. h) }

abbrev pub with_source : (Rule → Bool) → Rule → Bool
with_source p r = p r && is_some r.source_model

abbrev pub global : (Rule → Bool) → Rule → Bool
global p r = p r && not (is_some r.source_model)

-- `search` with the order "source_model_id ASC"
abbrev pub search_rules : Search
search_rules p rows = keep (with_source p) rows ++ keep (global p) rows

SourcesFirst-globals :
    (rows : List Rule) → All (λ r. r.source_model ≡ none) rows → SourcesFirst rows
SourcesFirst-globals [] h = tt
SourcesFirst-globals (r ∷ rs) h = (λ e. h.1, SourcesFirst-globals rs h.1)

SourcesFirst-append :
    (xs ys : List Rule)
    → All (λ r. r.source_model ≢ none) xs
    → All (λ r. r.source_model ≡ none) ys
    → SourcesFirst (xs ++ ys)
SourcesFirst-append [] ys hx hy = SourcesFirst-globals ys hy
SourcesFirst-append (x ∷ xs) ys hx hy = (λ e. absurd (hx.0 e), SourcesFirst-append xs ys hx.1 hy)

pub search_rules-IsSearch : IsSearch search_rules
search_rules-IsSearch = record {
  sound = λ p rows r i. elim (In-append (keep (with_source p) rows) (keep (global p) rows) r i) [
    | inl j ↦ let (e, row) = In-keep (with_source p) rows r j in (ground arith, row)
    | inr j ↦ let (e, row) = In-keep (global p) rows r j in (ground arith, row)
  ];
  complete = λ p rows r e i.
      append-In (keep (with_source p) rows) (keep (global p) rows) r
        (elim (Bool-cases (is_some r.source_model)) [
          | inl s ↦ inl (keep-In (with_source p) rows r (ground arith) i)
          | inr s ↦ inr (keep-In (global p) rows r (ground arith) i)
        ]);
  ordered = λ p rows.
      SourcesFirst-append (keep (with_source p) rows) (keep (global p) rows)
        (All-of_In _ (λ r i e. let (h, row) = In-keep (with_source p) rows r i in ground arith))
        (All-of_In _ (λ r i. let (h, row) = In-keep (global p) rows r i in ground arith));
}

-- a stable sort by insertion
abbrev insert_sorted : (ℕ → ℕ) → ℕ → List ℕ → List ℕ
insert_sorted key x [] = x ∷ []
insert_sorted key x (y ∷ ys) =
    let rest = insert_sorted key x ys in if leb (key x) (key y) then x ∷ y ∷ ys else y ∷ rest

abbrev pub sort_ids : Sorted
sort_ids key [] = []
sort_ids key (x ∷ xs) = insert_sorted key x (sort_ids key xs)

elem-insert_sorted :
    (key : ℕ → ℕ) (x : ℕ) (ys : List ℕ) (i : ℕ)
    → elem i (insert_sorted key x ys) ≡ ((x == i) || elem i ys)
elem-insert_sorted key x [] i = refl
elem-insert_sorted key x (y ∷ ys) i = ground (arith, elem-insert_sorted key x ys i)

elem-sort_ids : (key : ℕ → ℕ) (ids : List ℕ) (i : ℕ) → elem i (sort_ids key ids) ≡ elem i ids
elem-sort_ids key [] i = refl
elem-sort_ids key (x ∷ xs) i =
    elem-insert_sorted key x (sort_ids key xs) i ∙ ap (λ b. (x == i) || b) (elem-sort_ids key xs i)

sort_ids_stable :
    (key : ℕ → ℕ) (c : ℕ) (ids : List ℕ) → All (λ i. key i ≡ c) ids → sort_ids key ids ≡ ids
sort_ids_stable key c [] h = refl
sort_ids_stable key c (x ∷ []) h = refl
sort_ids_stable key c (x ∷ y ∷ ys) h =
    ap (insert_sorted key x) (sort_ids_stable key c (y ∷ ys) h.1) ∙ ground arith

pub sort_ids-IsSorted : IsSorted sort_ids
sort_ids-IsSorted = record { same = elem-sort_ids; stable = sort_ids_stable }

abbrev pub field : String → Ttype → Field
field name ttype = record { model = "res.partner"; name = name; ttype = ttype }

abbrev pub rule : ℕ → String → RuleAction → Option String → Rule
rule id name action source = record {
  id = id;
  field = field name Ttype.char;
  action = action;
  source_model = source;
  prevent_self_validation = true;
  expression = "";
  validator_groups = 7 ∷ [];
}

-- The name waits for approval, the street is never changed but by "backend", the email is.
abbrev pub rows : List Rule
rows =
    rule 1 "name" RuleAction.validate none
    ∷ rule 2 "street" RuleAction.never none
    ∷ rule 3 "street" RuleAction.auto (some "backend")
    ∷ rule 4 "email" RuleAction.auto none
    ∷ []

abbrev pub partner : Ref
partner = record { model = "res.partner"; id = 5 }

abbrev pub table : Table
table q f = if str_eq f "name" then str "Ann" else no_value

abbrev pub no_change : Change orm
no_change = record {
  changeset = 0;
  field = field "name" Ttype.char;
  rule = none;
  state = ChangeState.draft;
  old_value = λ s. no_value;
  new_value = λ s. no_value;
  verified_by = none;
  verified_on = none;
}

abbrev pub db : Db orm
db = record {
  store = table;
  rules = rows;
  change = λ i. no_change;
  changeset = λ c. record {
    target = partner;
    change_ids = [];
    date = 0;
    modified_by = 0;
    source = none;
    company = 0;
  };
  changeset_ids = [];
  next_change = 1;
  next_changeset = 1;
}

abbrev pub user : ℕ → Env
user uid = record {
  uid = uid;
  is_superuser = false;
  groups = 7 ∷ [];
  is_changeset_user = false;
  company = 1;
  now = 1000;
  rules_source_model = none;
  rules_source_id = none;
  no_changeset = false;
  test_enable = false;
  test_record_changeset = false;
  skip_pending_status_check = false;
  require_previous_changesets_done = false;
}

abbrev pub new_values : Dict Val
new_values = ("name", str "Bob") ∷ ("street", str "Main") ∷ ("email", str "b@x") ∷ []
