-- ===== src/Auditlog/Tests.antt =====
-- A table of partners whose writes are logged, a rule that comes and goes, and the theorems applied to them.
use oca_server_tools.Common.{
  ℕ, ◌≡◌, refl, ap, String, Bool, true, false, Option, none, some, List, [], ◌∷◌, str_eq,
  Bool-cases, inl, inr, All, subst, map, all, not, ◌==◌, if◌then◌else◌, arith,
}
use oca_server_tools.Common.Dict.{Dict, lookup}
use oca_server_tools.Common.Action.{ok, Action}
use oca_server_tools.Auditlog.{
  Method, create, read, write, unlink, export_data, full, Rule, FieldData, FieldFlags, Values,
  RecordValues, get_record, Line, Log, Orm, Error, World,
}
use oca_server_tools.Auditlog.Methods.{
  Env, Patch, make_write, make_create, make_unlink, make_read, make_export_data, fields_of,
}
use oca_server_tools.Auditlog.Written.{FindsByName}
use oca_server_tools.Auditlog.Logged.{
  NamesExisting, HasExisting, WriteLogs, with_log, make_write-WriteLogs,
}
use oca_server_tools.Auditlog.Calls.{Wraps, patched-Wraps, written_vals, created_vals}
use oca_server_tools.Auditlog.Registry.{
  method_eq, Registry, Server, register_hook, create_rule, subscribe,
}
use oca_server_tools.Auditlog.Patched.{is_patched, IsConsistent}
use oca_server_tools.Auditlog.Subscribed.{Logging}
use oca_server_tools.Auditlog.Reach.{
  Reach, start, step, restarted, created, subscribed, Reach-Patched,
}

abbrev texts : Values
texts = record {
  Value = String;
  same = str_eq;
  false_value = "";
  sentinel = "?";
  ids_of = λ value. if str_eq value "Rome" then 99 ∷ [] else [];
}

abbrev Partners : Type 0
Partners = List (ℕ × Dict String)

abbrev field_named : String → FieldData
field_named name = record { id = 1; name = name; relation = ""; is_2many = str_eq name "city" }

abbrev stored : String → FieldFlags
stored name = record {
  name = name;
  compute = false;
  related = false;
  store = true;
  company_dependent = false;
}

abbrev partners : Orm texts
partners = record {
  Db = Partners;
  fields = λ model. stored "id" ∷ stored "name" ∷ stored "city" ∷ [];
  search_field = λ db model name. some (field_named name);
  exists = λ db model id. not (id == 99);
  name_get = λ db model ids.
      if all (λ id. not (id == 99)) ids then some (map (λ id. (id, "partner")) ids) else none;
  read = λ db model fields ids. map (λ id. (id, get_record id db)) ids;
}

abbrev one_partner : String → String → Partners
one_partner name city = (7, ("id", "7") ∷ ("name", name) ∷ ("city", city) ∷ []) ∷ []

abbrev world : World partners
world = record {
  db = one_partner "Ann" "Rome";
  logs = [];
  lines = [];
  next_log = 1;
  field_cache = λ model name. none;
}

abbrev env : Env
env = record {
  uid = 2;
  auditlog_disabled = false;
  model_cache = λ model. some 5;
  rule_with = λ id. none;
  new_id = λ id. false;
}

abbrev patch : Patch
patch = record { log_type = full; users_to_exclude = 3 ∷ [] }

-- The original `write`: the partner moves to Oslo.
abbrev moves : List ℕ → Dict String → Action Error Partners Bool
moves ids vals db = (ok true, one_partner "Ann" "Oslo")

abbrev same_vals : Dict String → Dict String
same_vals vals = vals

moved : World partners
unfolding make_write
moved =
    (make_write partners env patch "res.partner" moves same_vals (7 ∷ []) (("city", "Oslo") ∷ [])
      world).1

moved_lines : map (λ line. line.field.name) moved.lines ≡ "city" ∷ []
unfolding moved lookup
moved_lines = refl

finds : FindsByName partners
finds db model name field e =
    ground (arith, ap (λ f. elim f as (λ x. String) [ none ↦ name | some f ↦ f.name ]) e)

-- The names of records that exist; the record with the id 99 is deleted, and `name_get` raises for it.
names_existing : NamesExisting partners
names_existing db relation ids h = (map (λ id. (id, "partner")) ids, rw h refl)

-- A dictionary of which no value is "Rome" gives another.
not_rome :
    (f : String) (d : Dict String) {x : String}
    → All (λ e. str_eq e.1 "Rome" ≡ false) d
    → lookup f d ≡ some x
    → str_eq x "Rome" ≡ false
unfolding lookup
not_rome f [] h e = cc e
not_rome f ((j, v) ∷ d) {x} (new, h) e = elim (Bool-cases (str_eq j f)) [
  | inl y ↦ let same : v ≡ x = ground (arith, e, y) in subst (λ s. str_eq s "Rome" ≡ false) same new
  | inr n ↦ not_rome f d h (rw n at e)
]

-- The city before, "Rome", holds the deleted record; that after the write holds none.
reads_existing : HasExisting partners (one_partner "Ann" "Oslo") "res.partner" (
    partners.read
      (one_partner "Ann" "Oslo")
      "res.partner"
      (fields_of partners "res.partner")
      (7 ∷ []))
unfolding lookup
reads_existing res_id f field value e b h = elim (Bool-cases (7 == res_id)) [
  | inl y ↦
      let is_new = rw y at h in
      rw (not_rome f (get_record 7 (one_partner "Ann" "Oslo")) (refl, (refl, (refl, tt))) is_new)
        refl
  | inr n ↦ cc (rw n at h)
]

make_write-WriteLogs_example :
    (logs : List Log) × (lines : List (Line texts)) × (cache : String
      → String
      → Option (Option FieldData))
    × (next : ℕ) × (make_write partners env patch "res.partner" moves same_vals
          (7 ∷ [])
          (("city", "Oslo") ∷ [])
          world
        ≡ (
          ok true,
          with_log partners logs lines cache next (record world { db = one_partner "Ann" "Oslo" }),
        ))
    × WriteLogs partners
        (one_partner "Ann" "Oslo")
        "res.partner"
        none
        2
        full
        (partners.read
          (one_partner "Ann" "Rome")
          "res.partner"
          (fields_of partners "res.partner")
          (7 ∷ []))
        (partners.read
          (one_partner "Ann" "Oslo")
          "res.partner"
          (fields_of partners "res.partner")
          (7 ∷ []))
        (7 ∷ [])
        1
        logs
        lines
make_write-WriteLogs_example =
    make_write-WriteLogs partners finds names_existing env patch "res.partner" 5 moves same_vals
      (7 ∷ []) (("city", "Oslo") ∷ []) 7 [] world true (one_partner "Ann" "Oslo") refl refl refl
      refl refl refl reads_existing (λ model name field e. cc e)

abbrev deletes : List ℕ → Action Error Partners Bool
deletes ids db = (ok true, [])

abbrev creates : List (Dict String) → Action Error Partners (List ℕ)
creates vals_list db = (ok (7 ∷ []), one_partner "Ann" "Rome")

abbrev no_values : Bool → RecordValues texts
no_values result = []

abbrev is_blank : String → Bool
is_blank value = false

patched-Wraps_example :
    Wraps partners
      (make_write partners env patch "res.partner" moves same_vals (7 ∷ []) [])
      (moves (7 ∷ []) (written_vals partners env patch "res.partner" same_vals (7 ∷ []) [] full))
      world
    × Wraps partners
        (make_create partners env patch "res.partner" creates is_blank [])
        (creates (created_vals partners env patch "res.partner" is_blank [] full))
        world
    × Wraps partners
        (make_unlink partners env patch "res.partner" deletes (7 ∷ []))
        (deletes (7 ∷ []))
        world
    × Wraps partners
        (make_read partners env patch "res.partner" deletes no_values (7 ∷ []))
        (deletes (7 ∷ []))
        world
    × Wraps partners
        (make_export_data partners env patch "res.partner" deletes (7 ∷ []))
        (deletes (7 ∷ []))
        world
patched-Wraps_example =
    patched-Wraps partners env patch "res.partner" deletes moves creates same_vals is_blank
      no_values (7 ∷ []) [] [] world

abbrev write_rule : Rule
write_rule = record {
  model_id = some "res.partner";
  model_model = "";
  logs = λ k. elim k as (λ x. Bool) [
    | create ↦ false
    | read ↦ false
    | write ↦ true
    | unlink ↦ true
    | export_data ↦ false
  ];
  log_type = full;
  subscribed = false;
  action_id = none;
  capture_record = false;
  users_to_exclude_ids = [];
  fields_to_exclude_ids = [];
}

abbrev pool : String → Bool
pool model = str_eq model "res.partner"

abbrev bare : Registry
bare = record { patched = λ m k. none; ruled = λ m k. false; model_cache = λ m. false; signals = 0 }

abbrev empty_server : Server
empty_server = record {
  db = record {
    rule = λ id. write_rule;
    rule_ids = [];
    next_rule = 1;
    actions = [];
    next_action = 1;
  };
  registry = bare;
}

abbrev with_rule : Server
with_rule = (create_rule pool write_rule empty_server).1

abbrev with_subscribed : Server
with_subscribed = (subscribe pool (1 ∷ []) with_rule).1

abbrev again : Server
again = record with_subscribed {
  registry = (register_hook pool [] (record with_subscribed { registry = bare })).0;
}

reached : Reach pool again
unfolding create_rule subscribe
reached =
    restarted with_subscribed bare
      (step with_rule with_subscribed
        (step empty_server with_rule (start empty_server refl ((λ m k. refl), (λ m k. refl)))
          (created write_rule 1 refl))
        (subscribed (1 ∷ []) (λ i e. e) refl))
      ((λ m k. refl), (λ m k. refl))

-- Only the methods that the rule logs are patched.
methods_patched :
    map (is_patched again.registry "res.partner") (write ∷ read ∷ unlink ∷ [])
    ≡ true ∷ false ∷ true ∷ []
unfolding register_hook create_rule subscribe method_eq
methods_patched = refl

Reach-Patched_example :
    ((m : String) (k : Method) (id : ℕ)
      → Logging again.db m k id
      → pool m ≡ true
      → is_patched again.registry m k ≡ true)
    × ((m : String) (k : Method)
        → is_patched again.registry m k ≡ true
        → (id : ℕ) × Logging again.db m k id)
    × IsConsistent again.registry
Reach-Patched_example = Reach-Patched pool again reached
