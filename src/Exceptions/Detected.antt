-- ===== src/Exceptions/Detected.antt =====
-- `detect_exceptions` as a whole: the links of each record with each rule afterwards.
use oca_server_tools.Common.{
  ℕ, ◌≡◌, refl, ap, sym, Bool, true, false, not, ◌&&◌, ◌||◌, List, [], ◌∷◌, inl, inr, elem, In,
  ◌==◌, ==_iff, ==_refl, arith, subst, ◌∙◌,
}
use oca_server_tools.Common.Action.{
  Result, err, ok, err, and_then-eq-ok, ok-injective, Result-cases,
}
use oca_server_tools.Exceptions.{
  RuleInfo, Rules, Db, Error, Found, minus, with_rule, add_found, no_found, detect, get_exceptions,
  remove_links, add_links, detect_exceptions, write_links, raise_names, check_exception, Error,
}
use oca_server_tools.Exceptions.Links.{
  pairs, has_id, Distinct, is_empty, elem-minus, elem-with_rule, pairs-push_if, elem-id_if,
  elem-remove_links, elem-add_links,
}

-- The records found under the rule are linked with it, the other records of the call are not, and
-- the records outside the call keep what they had.
abbrev pub linked : List ℕ → List ℕ → Bool → ℕ → Bool
linked found ids before r = elem r found || (not (elem r ids) && before)

abbrev pub IsLinked : Rules → List ℕ → RuleInfo → Db → List ℕ → Db → Type 0
IsLinked rules ids rule db all db' =
    (found : List ℕ) × (detect rules db ids rule ≡ ok found)
    × (elem rule.id all ≡ not (is_empty found))
    × ((r : ℕ)
        → elem rule.id (db'.exception_ids r)
          ≡ linked found ids (elem rule.id (db.exception_ids r)) r)

has_id-In : (rule : RuleInfo) (infos : List RuleInfo) → In rule infos → has_id rule.id infos ≡ true
has_id-In rule [] i = elim i [ ]
has_id-In rule (x ∷ infos) (inl e) = ground (arith, ap (λ y. y.id) e, ==_refl rule.id)
has_id-In rule (x ∷ infos) (inr i) = ground (arith, has_id-In rule infos i)

module _ (rules : Rules) (db : Db) (ids : List ℕ) where
  -- A rule that is not in the list adds nothing under its id.
  get_exceptions-other :
      (infos : List RuleInfo) (acc out : Found) (k : ℕ)
      → has_id k infos ≡ false
      → get_exceptions rules db ids infos acc ≡ ok out
      → (elem k out.all_exception_ids ≡ elem k acc.all_exception_ids)
        × ((r : ℕ) → pairs k r out.rules_to_remove ≡ pairs k r acc.rules_to_remove)
        × ((r : ℕ) → pairs k r out.rules_to_add ≡ pairs k r acc.rules_to_add)
  unfolding get_exceptions add_found
  get_exceptions-other [] acc out k h e =
      let same = ok-injective e in
      (
        ap (λ f. elem k f.all_exception_ids) (sym same),
        λ r. ap (λ f. pairs k r f.rules_to_remove) (sym same),
        λ r. ap (λ f. pairs k r f.rules_to_add) (sym same),
      )
  get_exceptions-other (rule ∷ more) acc out k h e =
      let (found, d, rest) =
        and_then-eq-ok (detect rules db ids rule)
          (λ f. get_exceptions rules db ids more (add_found db ids rule f acc)) e in
      let (a, rm, ad) =
        get_exceptions-other more (add_found db ids rule found acc) out k (ground arith) rest in
      (
        ground (arith, a, elem-id_if k rule.id found acc.all_exception_ids),
        λ r. ground (
          arith,
          rm r,
          pairs-push_if k r rule.id (minus (with_rule db ids rule) found) acc.rules_to_remove,
        ),
        λ r. ground (
          arith,
          ad r,
          pairs-push_if k r rule.id (minus found (with_rule db ids rule)) acc.rules_to_add,
        ),
      )

  -- What the loop has under the id of a rule of the list.
  abbrev IsFound : RuleInfo → Found → Found → Type 0
  IsFound rule acc out =
      (found : List ℕ) × (detect rules db ids rule ≡ ok found)
      × (elem rule.id out.all_exception_ids
          ≡ (elem rule.id acc.all_exception_ids || not (is_empty found)))
      × ((r : ℕ)
          → pairs rule.id r out.rules_to_remove
            ≡ (pairs rule.id r acc.rules_to_remove || elem r (minus (with_rule db ids rule) found)))
      × ((r : ℕ)
          → pairs rule.id r out.rules_to_add
            ≡ (pairs rule.id r acc.rules_to_add || elem r (minus found (with_rule db ids rule))))

  get_exceptions-here :
      (rule : RuleInfo) (more : List RuleInfo) (acc out : Found)
      → has_id rule.id more ≡ false
      → get_exceptions rules db ids (rule ∷ more) acc ≡ ok out
      → IsFound rule acc out
  unfolding get_exceptions add_found
  get_exceptions-here rule more acc out h e =
      let (found, d, rest) =
        and_then-eq-ok (detect rules db ids rule)
          (λ f. get_exceptions rules db ids more (add_found db ids rule f acc)) e in
      let (a, rm, ad) =
        get_exceptions-other more (add_found db ids rule found acc) out rule.id h rest in
      (
        found,
        d,
        ground (arith, a, ==_refl rule.id, elem-id_if rule.id rule.id found acc.all_exception_ids),
        λ r. ground (
          arith,
          rm r,
          ==_refl rule.id,
          pairs-push_if rule.id r rule.id (minus (with_rule db ids rule) found) acc.rules_to_remove,
        ),
        λ r. ground (
          arith,
          ad r,
          ==_refl rule.id,
          pairs-push_if rule.id r rule.id (minus found (with_rule db ids rule)) acc.rules_to_add,
        ),
      )

  get_exceptions-IsFound :
      (infos : List RuleInfo) (acc out : Found) (rule : RuleInfo)
      → Distinct infos
      → In rule infos
      → get_exceptions rules db ids infos acc ≡ ok out
      → IsFound rule acc out
  unfolding get_exceptions add_found
  get_exceptions-IsFound [] acc out rule dist i e = elim i [ ]
  get_exceptions-IsFound (x ∷ more) acc out rule dist (inl same) e =
      subst (λ y. IsFound y acc out) same (get_exceptions-here x more acc out dist.0 e)
  get_exceptions-IsFound (x ∷ more) acc out rule dist (inr i) e =
      let (f0, d0, rest) =
        and_then-eq-ok (detect rules db ids x)
          (λ f. get_exceptions rules db ids more (add_found db ids x f acc)) e in
      let (found, d, a, rm, ad) =
        get_exceptions-IsFound more (add_found db ids x f0 acc) out rule dist.1 i rest in
      let other : (x.id == rule.id) ≡ false =
        ground
          (arith, dist.0, has_id-In rule more i, ap (λ k. has_id k more), ==_iff x.id rule.id) in
      (
        found,
        d,
        ground (arith, a, other, elem-id_if rule.id x.id f0 acc.all_exception_ids),
        λ r. ground (
          arith,
          rm r,
          other,
          pairs-push_if rule.id r x.id (minus (with_rule db ids x) f0) acc.rules_to_remove,
        ),
        λ r. ground (
          arith,
          ad r,
          other,
          pairs-push_if rule.id r x.id (minus f0 (with_rule db ids x)) acc.rules_to_add,
        ),
      )

  detect_exceptions-get :
      (infos : List RuleInfo) (all : List ℕ) (db' : Db)
      → detect_exceptions rules infos ids db ≡ (ok all, db')
      → (out : Found) × (get_exceptions rules db ids infos no_found ≡ ok out)
        × (out.all_exception_ids ≡ all)
        × (db'.exception_ids
            ≡ add_links out.rules_to_add (remove_links out.rules_to_remove db.exception_ids))
  unfolding detect_exceptions
  detect_exceptions-get infos all db' e =
      elim (Result-cases (get_exceptions rules db ids infos no_found)) [
        | inl (out, g) ↦
            let h = ap (write_links db) (sym g) ∙ e in
            (out, g, ok-injective (ap (λ p. p.0) h), ap (λ p. p.1.exception_ids) (sym h))
        | inr (x, g) ↦ cc (ap (λ p. p.0) (ap (write_links db) (sym g) ∙ e))
      ]

  -- When `detect_exceptions` returns and the rules have different ids, each rule was detected, its
  -- id is in the result exactly when it applies to some record, and afterwards it is linked with
  -- the records it was found on, with no other record of the call, and with the same records as
  -- before outside the call.
  pub detect_exceptions-IsLinked :
      (infos : List RuleInfo) (all : List ℕ) (db' : Db) (rule : RuleInfo)
      → Distinct infos
      → In rule infos
      → detect_exceptions rules infos ids db ≡ (ok all, db')
      → IsLinked rules ids rule db all db'
  detect_exceptions-IsLinked infos all db' rule dist i e =
      let (out, g, same, links) = detect_exceptions-get infos all db' e in
      let (found, d, a, rm, ad) = get_exceptions-IsFound infos no_found out rule dist i g in
      (
        found,
        d,
        ap (elem rule.id) (sym same) ∙ a,
        λ r.
            ap (λ ex. elem rule.id (ex r)) links
            ∙ ground (
              arith,
              elem-add_links rule.id r out.rules_to_add
                  (remove_links out.rules_to_remove db.exception_ids),
              elem-remove_links rule.id r out.rules_to_remove db.exception_ids,
              rm r,
              ad r,
              elem-minus r (with_rule db ids rule) found,
              elem-minus r found (with_rule db ids rule),
              elem-with_rule db r ids rule,
            ),
      )

  raise_names-ok :
      (infos : List RuleInfo) (found : Result Error (List ℕ)) (b : Bool)
      → raise_names true infos found ≡ ok b
      → found ≡ ok []
  raise_names-ok infos (ok []) b e = refl
  raise_names-ok infos (ok (id ∷ ids)) b e = cc
  raise_names-ok infos (err x) b e = cc

  empty-eq : (l : List ℕ) → not (is_empty l) ≡ false → l ≡ []
  empty-eq [] e = refl
  empty-eq (x ∷ l) e = cc

  -- With the two keys of the context set, `_check_exception` returns only where no rule of the list
  -- applies to any record of the call.
  pub check_exception-clear :
      (infos : List RuleInfo) (b : Bool) (db' : Db) (rule : RuleInfo)
      → Distinct infos
      → In rule infos
      → check_exception rules true true infos ids db ≡ (ok b, db')
      → detect rules db ids rule ≡ ok []
  unfolding check_exception
  check_exception-clear infos b db' rule dist i e =
      let none_found =
        raise_names-ok infos (detect_exceptions rules infos ids db).0 b (ap (λ p. p.0) e) in
      let (found, d, a, rest) =
        detect_exceptions-IsLinked infos [] db' rule dist i (λ j. (none_found j, (e j).1)) in
      d ∙ ap ok (empty-eq found (sym a))
