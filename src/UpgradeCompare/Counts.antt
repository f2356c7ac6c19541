-- ===== src/UpgradeCompare/Counts.antt =====
-- The accounts of `compare_sets`: no `remove` raises, and the numbers of the report add up.
use oca_server_tools.Common.{
  ℕ, suc, ◌+◌, ◌≤◌, ◌≡◌, refl, ap, sym, ◌∙◌, subst, String, Bool, true, false, not, ◌&&◌, Option,
  none, some, List, [], ◌∷◌, eq_iff, eq_refl, if◌then◌else◌, length, keep, Bool-cases, or_else, inl,
  inr, arith,
}
use oca_server_tools.Common.Dict.{has}
use oca_server_tools.UpgradeCompare.{
  Value, Item, Apriori, same_value, compare_records, search_same, search_renamed, report_generic,
  search, same, remove_item,
}
use oca_server_tools.UpgradeCompare.Sets.{
  Sets, Report, bind, take, step, clean_records, direct_keys, other_module_keys, common_report,
  start, report_of, obsolete_in, match_all, match_round, compare_sets,
}

same_value_refl : (a : Value) → same_value a a ≡ true
same_value_refl none = refl
same_value_refl (some a) = eq_refl a

same_value-eq : (a b : Value) → same_value a b ≡ true → a ≡ b
same_value-eq none none e = refl
same_value-eq none (some b) e = cc
same_value-eq (some a) none e = cc
same_value-eq (some a) (some b) e = ap some ((eq_iff a b).0 e)

same_refl : (keys : List String) (a : Item) → same keys a a ≡ true
unfolding same
same_refl [] a = refl
same_refl (key ∷ more) a = ground (arith, same_value_refl (a key), same_refl more a)

and-left : (a b : Bool) → (a && b) ≡ true → a ≡ true
and-left a b e = ground (arith, e)

and-right : (a b : Bool) → (a && b) ≡ true → b ≡ true
and-right a b e = ground (arith, e)

same-cong :
    (keys : List String) (a b c : Item) → same keys a b ≡ true → same keys a c ≡ same keys b c
unfolding same
same-cong [] a b c e = refl
same-cong (key ∷ more) a b c e =
    rw
      (
        same_value-eq (a key) (b key) (and-left (same_value (a key) (b key)) (same more a b) e),
        same-cong more a b c (and-right (same_value (a key) (b key)) (same more a b) e),
      )
      refl

not_one : 1 ≤ 0 → ⊥
not_one h = omega (arith, h)

abbrev pub one : Bool → ℕ
one true = 1
one false = 0

some-injective : {A : Type 0} {a b : A} → some a ≡ some b → a ≡ b
some-injective h = cc

module _ (keys : List String) where
  -- How often an item stands in a list.
  abbrev pub count : Item → List Item → ℕ
  count x [] = 0
  count x (y ∷ l) = one (same keys y x) + count x l

  abbrev IsRemoved : Item → List Item → List Item → Type 0
  IsRemoved c l l' =
      (length l ≡ suc (length l')) × ((x : Item) → count x l ≡ count x l' + one (same keys c x))

  abbrev keep_head : Item → Option (List Item) → Option (List Item)
  keep_head other rest = elim rest [ none ↦ none | some l ↦ some (other ∷ l) ]

  remove_at :
      (c other : Item) (more : List Item) (b : Bool)
      → same keys other c ≡ b
      → (b ≡ false → (l : List Item) × (remove_item keys c more ≡ some l) × IsRemoved c more l)
      → (l : List Item) × ((if b then some more else keep_head other (remove_item keys c more))
          ≡ some l)
        × IsRemoved c (other ∷ more) l
  remove_at c other more true e rest =
      (more, refl, (refl, λ x. ground (arith, same-cong keys other c x e)))
  remove_at c other more false e rest =
      let (l, r, (len, cnt)) = rest refl in
      (other ∷ l, rw r refl, (ap suc len, λ x. ground (arith, cnt x)))

  -- An item that stands in the list is removed without an error.
  remove-IsRemoved :
      (c : Item) (l : List Item)
      → 1 ≤ count c l
      → (out : List Item) × (remove_item keys c l ≡ some out) × IsRemoved c l out
  unfolding remove_item
  remove-IsRemoved c [] h = elim (not_one h) [ ]
  remove-IsRemoved c (other ∷ more) h =
      remove_at c other more (same keys other c) refl
        (λ e. remove-IsRemoved c more (ground (arith, h, e)))

  search_same-count :
      (apriori : Apriori) (c : Item) (l : List Item) (fields : List String) (found : Item)
      → search_same apriori c l fields ≡ some found
      → 1 ≤ count found l
  unfolding search_same
  search_same-count apriori c [] fields found e = cc
  search_same-count apriori c (other ∷ more) fields found e =
      elim (Bool-cases (compare_records apriori c other fields)) [
        | inl yes_same ↦
            let h : other ≡ found = some-injective (sym (rw yes_same refl) ∙ e) in
            ground (arith, subst (λ f. same keys other f ≡ true) h (same_refl keys other))
        | inr no_same ↦
            ground
              (arith, search_same-count apriori c more fields found (sym (rw no_same refl) ∙ e))
      ]

search_renamed-none :
    (apriori : Apriori) (item : Item) (items : List Item) (fields : List String)
    → search_renamed apriori item items fields ≡ none
unfolding search_renamed
search_renamed-none apriori item [] fields = refl
search_renamed-none apriori item (other ∷ more) fields =
    ground (arith, search_renamed-none apriori item more fields)

none_for : (b : Bool) (o : Option Item) → o ≡ none → (if b then o else none) ≡ none
none_for true o e = e
none_for false o e = refl

or_else-none : (o : Option Item) → or_else o none ≡ o
or_else-none none = refl
or_else-none (some a) = refl

-- A record that is renamed is never found: `search` finds what its first loop finds, the first
-- record with the same values, and nothing else.
pub search-search_same :
    (apriori : Apriori) (item : Item) (items : List Item) (fields : List String)
    → search apriori item items fields ≡ search_same apriori item items fields
unfolding search
search-search_same apriori item items fields =
    ap (or_else (search_same apriori item items fields)) (
      none_for (has "field" fields) (search_renamed apriori item items fields)
        (search_renamed-none apriori item items fields))
    ∙ or_else-none (search_same apriori item items fields)

-- The numbers of a report add up.
abbrev pub AddsUp : ℕ → ℕ → Report → Type 0
AddsUp old new r =
    (r.fields_matched ≡ r.matched_direct + r.matched_other_module + r.matched_other_type)
    × (old ≡ r.fields_matched + r.not_matched)
    × (new ≡ r.fields_matched + r.new_columns)

module _ (apriori : Apriori) (keys : List String) where
  -- The records to come are among those that are not matched, and these among the old records.
  abbrev Within : List Item → List Item → Type 0
  Within l m = (x : Item) → count keys x l ≤ count keys x m

  -- Both sides lose a record for each match that is counted.
  abbrev Counted : Sets → Sets → Type 0
  Counted s t =
      (length t.old + t.count ≡ length s.old + s.count)
      × (length t.new + t.count ≡ length s.new + s.count)
      × Within t.non_obsolete t.old

  step-Counted :
      (report_fields : List String) (column : Item) (more : List Item) (o : Option Item) (s : Sets)
      → Within (column ∷ more) s.non_obsolete
      → Within s.non_obsolete s.old
      → ((found : Item) → o ≡ some found → 1 ≤ count keys found s.new)
      → (t : Sets) × (step apriori keys report_fields column o s ≡ some t)
        × Within more t.non_obsolete
        × Counted s t
  unfolding take
  step-Counted report_fields column more none s w v f =
      (s, refl, λ x. omega (arith, w x), (refl, refl, v))
  step-Counted report_fields column more (some found) s w v f =
      let here : 1 ≤ count keys column s.non_obsolete =
        ground (arith, w column, same_refl keys column) in
      let (old, e1, (len1, cnt1)) =
        remove-IsRemoved keys column s.old (omega (arith, here, v column)) in
      let (rest, e2, (len2, cnt2)) = remove-IsRemoved keys column s.non_obsolete here in
      let (new, e3, (len3, cnt3)) = remove-IsRemoved keys found s.new (f found refl) in
      (
        record {
          old = old;
          non_obsolete = rest;
          new = new;
          count = suc s.count;
          reprs = report_generic apriori found column report_fields s.reprs;
        },
        rw (e1, e2, e3) refl,
        λ x. omega (arith, w x, cnt2 x),
        (omega (arith, len1), omega (arith, len3), λ x. omega (arith, v x, cnt1 x, cnt2 x)),
      )

  found_in :
      (column : Item) (fields : List String) (s : Sets) (found : Item)
      → search apriori column s.new fields ≡ some found
      → 1 ≤ count keys found s.new
  found_in column fields s found e =
      search_same-count keys apriori column s.new fields found
        (sym (search-search_same apriori column s.new fields) ∙ e)

  match_all-Counted :
      (fields report_fields : List String) (more : List Item) (s : Sets)
      → Within more s.non_obsolete
      → Within s.non_obsolete s.old
      → (t : Sets) × (match_all apriori keys fields report_fields more s ≡ some t) × Counted s t
  unfolding match_all
  match_all-Counted fields report_fields [] s w v = (s, refl, (refl, refl, v))
  match_all-Counted fields report_fields (column ∷ more) s w v =
      let (mid, e, w', (a, b, v')) =
        step-Counted report_fields column more (search apriori column s.new fields) s w v
          (found_in column fields s) in
      let (t, e', (c, d, v'')) = match_all-Counted fields report_fields more mid w' v' in
      (
        t,
        ap (λ o. bind o (match_all apriori keys fields report_fields more)) e ∙ e',
        (omega (arith, a, c), omega (arith, b, d), v''),
      )

  match_round-Counted :
      (fields report_fields : List String) (s : Sets)
      → Within s.non_obsolete s.old
      → (t : Sets) × (match_round apriori keys fields report_fields s ≡ some t)
        × Counted (record s { count = 0 }) t
  unfolding match_round
  match_round-Counted fields report_fields s v =
      match_all-Counted fields report_fields s.non_obsolete (record s { count = 0 })
        (λ x. omega arith) v

  count-keep :
      (p : Item → Bool) (x : Item) (l : List Item) → count keys x (keep p l) ≤ count keys x l
  count-keep p x [] = omega arith
  count-keep p x (y ∷ l) = ground (arith, count-keep p x l)

  -- The comparison of two lists of fields always ends with a report, since no `remove` of it
  -- raises. In the report the fields matched are those of the three rounds together, and each
  -- field that is not ignored, old or new, is matched or counted as left over.
  pub compare_sets-AddsUp :
      (old_records new_records : List Item)
      → (r : Report) × (compare_sets apriori keys old_records new_records ≡ some r)
        × AddsUp (length (clean_records old_records)) (length (clean_records new_records)) r
  unfolding compare_sets
  compare_sets-AddsUp old_records new_records =
      let old = clean_records old_records in
      let new = clean_records new_records in
      let (direct, e1, (a1, b1, v1)) =
        match_round-Counted direct_keys ("relation" ∷ "type" ∷ common_report)
          (start apriori keys old new)
          (λ x. count-keep (λ r. not (obsolete_in apriori keys new r)) x old) in
      let (moved, e2, (a2, b2, v2)) =
        match_round-Counted other_module_keys ("module" ∷ "relation" ∷ common_report) direct v1 in
      let (other, e3, (a3, b3, v3)) =
        match_round-Counted direct_keys ("relation" ∷ "type" ∷ common_report) moved v2 in
      (
        report_of apriori keys old new direct moved other,
        rw (e1, e2, e3) refl,
        (
          omega (arith, a1, a2, a3),
          omega (arith, a1, a2, a3),
          omega (arith, a1, a2, a3, b1, b2, b3),
        ),
      )
