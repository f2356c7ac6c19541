-- ===== src/Auditlog/Reached.antt =====
-- The states that the operations of rules reach.
use oca_server_tools.Common.{
  ℕ, suc, ◌<◌, ◌≡◌, refl, sym, ap, ◌∙◌, subst, String, Bool, true, false, not, Option, none, some,
  List, [], ◌∷◌, ◌++◌, ◌==◌, ==_refl, elem, elem-append, is_some, if◌then◌else◌, Bool-cases, inl,
  inr, ◌⊎◌, arith,
}
use oca_server_tools.Common.Action.{Result, ok, err}
use oca_server_tools.Auditlog.{Rule}
use oca_server_tools.Auditlog.Registry.{
  Db, Server, model_of, Vals, with_model, set_rules, hook_and_signal, is_unique, is_empty_model,
  write_rules, create_rule, Error, model_uniq, user_error,
}
use oca_server_tools.Auditlog.Subscribed.{RuleLogs, IsSound, hook-IsSound}
use oca_server_tools.Auditlog.Operations.{
  set_rules-out, set_rules-in, change_of, write-ok, taken, then_eq, else_eq, err_not_ok,
}
use oca_server_tools.Auditlog.Unsubscribed.{not_both}

-- The table after `create` adds a rule
abbrev table_with : Rule → Db → Db
table_with rule db = record db {
  rule = λ i. if i == db.next_rule then record rule { model_model = model_of rule } else db.rule i;
  rule_ids = db.rule_ids ++ db.next_rule ∷ [];
  next_rule = suc db.next_rule;
}

create-ok :
    (pool : String → Bool) (rule : Rule) (id : ℕ) (s t : Server)
    → create_rule pool rule s ≡ (ok id, t)
    → (is_some rule.model_id ≡ true)
      × (is_unique (table_with rule s.db) ≡ true)
      × (hook_and_signal pool (s.db.next_rule ∷ []) (record s { db = table_with rule s.db }) ≡ t)
unfolding create_rule
create-ok pool rule id s t e = elim (Bool-cases (not (is_some rule.model_id))) [
  | inl y ↦
      elim (err_not_ok user_error id
        (ap (λ p. p.0) (sym (then_eq (err user_error, s) created y) ∙ e))) [ ]
  | inr n ↦
      let (u, hooked) =
        taken (is_unique (table_with rule s.db)) s.db.next_rule id model_uniq s done t
          (sym (else_eq (err user_error, s) created n) ∙ e) in
      (ground (arith, n), u, hooked)
]
  where
    done : Server
    done = hook_and_signal pool (s.db.next_rule ∷ []) (record s { db = table_with rule s.db })

    created : Result Error ℕ × Server
    created =
        if is_unique (table_with rule s.db) then (ok s.db.next_rule, done) else (err model_uniq, s)

fresh_not : (i n : ℕ) → i < n → (i == n) ≡ false
fresh_not i n l = ground (arith, l)

old_or_new :
    (i n : ℕ) (ids : List ℕ) → elem i (ids ++ n ∷ []) ≡ true → (elem i ids ≡ true) ⊎ (i ≡ n)
old_or_new i n ids e = elim (Bool-cases (elem i ids)) [
  | inl y ↦ inl y
  | inr m ↦ inr ground (arith, e, m, elem-append i ids (n ∷ []))
]

pub create_rule-IsSound :
    (pool : String → Bool) (rule : Rule) (id : ℕ) (s t : Server)
    → IsSound pool s
    → create_rule pool rule s ≡ (ok id, t)
    → IsSound pool t
create_rule-IsSound pool rule id s t h e =
    let (model, u, hooked) = create-ok pool rule id s t e in
    subst (IsSound pool) hooked (
      hook-IsSound pool (record s { db = db' }) (new ∷ []) h.consistent
        (λ i f. ground (arith, f, elem-append i s.db.rule_ids (new ∷ [])))
        (λ m k i (there, l) f out.
          h.covered m k i
            (was_there i there out, subst (λ r. RuleLogs r m k) (old i (ground (arith, out))) l) f)
        (λ m k p.
          let (i, (there, l)) = h.exact m k p in
          (
            i,
            (
              stays i there,
              subst (λ r. RuleLogs r m k) (sym (old i (fresh_not i new (h.fresh i there)))) l,
            ),
          ))
        (λ i f. elim (old_or_new i new s.db.rule_ids f) [
          | inl there ↦
              ap (λ r. is_some r.model_id) (old i (fresh_not i new (h.fresh i there)))
              ∙ h.modelled i there
          | inr same ↦ ap (λ i. is_some (db'.rule i).model_id) same ∙ given model
        ])
        u
        (λ i f. elim (old_or_new i new s.db.rule_ids f) [
          | inl there ↦ omega (arith, h.fresh i there)
          | inr same ↦ omega (arith, same)
        ]))
  where
    new : ℕ
    new = s.db.next_rule

    db' : Db
    db' = table_with rule s.db

    old : (i : ℕ) → (i == new) ≡ false → db'.rule i ≡ s.db.rule i
    old i n = rw n refl

    given : is_some rule.model_id ≡ true → is_some (db'.rule new).model_id ≡ true
    given m = rw (==_refl new) m

    stays : (i : ℕ) → elem i s.db.rule_ids ≡ true → elem i (s.db.rule_ids ++ new ∷ []) ≡ true
    stays i f = ground (arith, f, elem-append i s.db.rule_ids (new ∷ []))

    was_there :
        (i : ℕ)
        → elem i (s.db.rule_ids ++ new ∷ []) ≡ true
        → elem i (new ∷ []) ≡ false
        → elem i s.db.rule_ids ≡ true
    was_there i f n = ground (arith, f, n, elem-append i s.db.rule_ids (new ∷ []))

write-given :
    (pool : String → Bool) (ids : List ℕ) (vals : Vals) (s t : Server)
    → write_rules pool ids vals s ≡ (ok tt, t)
    → is_empty_model vals.model_id ≡ false
unfolding write_rules
write-given pool ids vals s t e = elim (Bool-cases (is_empty_model vals.model_id)) [
  | inl y ↦
      elim (err_not_ok user_error tt
        (ap (λ p. p.0) (sym (then_eq (err user_error, s) written y) ∙ e))) [ ]
  | inr n ↦ n
]
  where
    written : Result Error Unit × Server
    written =
        if is_unique (set_rules ids (change_of vals) s.db)
        then (
          ok tt,
          hook_and_signal pool ids (record s { db = set_rules ids (change_of vals) s.db }),
        )
        else (err model_uniq, s)

with_model-subscribed :
    (given : Option (Option String)) (r : Rule) → (with_model given r).subscribed ≡ r.subscribed
with_model-subscribed none r = refl
with_model-subscribed (some none) r = refl
with_model-subscribed (some (some model)) r = refl

with_model-some :
    (given : Option (Option String)) (r : Rule)
    → is_empty_model given ≡ false
    → is_some r.model_id ≡ true
    → is_some (with_model given r).model_id ≡ true
with_model-some none r e m = m
with_model-some (some none) r e m = cc e
with_model-some (some (some model)) r e m = refl

-- A write to drafts that leaves `state` alone, and `model_id` beyond what `vals` says of it.
pub edit-IsSound :
    (pool : String → Bool) (ids : List ℕ) (vals : Vals) (s t : Server)
    → IsSound pool s
    → ((i : ℕ) → elem i ids ≡ true → elem i s.db.rule_ids ≡ true)
    → ((i : ℕ) → elem i ids ≡ true → (s.db.rule i).subscribed ≡ false)
    → ((r : Rule) → (vals.change r).subscribed ≡ r.subscribed)
    → ((r : Rule) → (vals.change r).model_id ≡ r.model_id)
    → write_rules pool ids vals s ≡ (ok tt, t)
    → IsSound pool t
edit-IsSound pool ids vals s t h sub drafts keeps_state keeps_model e =
    let (u, hooked) = write-ok pool ids vals s t e in
    let given = write-given pool ids vals s t e in
    subst (IsSound pool) hooked (
      hook-IsSound pool (record s { db = db' }) ids h.consistent sub
        (λ m k i (there, l) f n.
          h.covered m k i
            (there, subst (λ r. RuleLogs r m k) (set_rules-out ids (change_of vals) s.db i n) l) f)
        (λ m k p.
          let (i, (there, l)) = h.exact m k p in
          (
            i,
            (
              there,
              subst (λ r. RuleLogs r m k)
                  (sym (set_rules-out ids (change_of vals) s.db i (draft_out i l.0))) l,
            ),
          ))
        (λ i f. modelled given i (h.modelled i f)) u h.fresh)
  where
    db' : Db
    db' = set_rules ids (change_of vals) s.db

    draft_out : (i : ℕ) → (s.db.rule i).subscribed ≡ true → elem i ids ≡ false
    draft_out i y = elim (Bool-cases (elem i ids)) [
      | inl f ↦ elim (not_both y (drafts i f)) [ ]
      | inr n ↦ n
    ]

    modelled :
        is_empty_model vals.model_id ≡ false
        → (i : ℕ) → is_some (s.db.rule i).model_id ≡ true
        → is_some (db'.rule i).model_id ≡ true
    modelled given i m = elim (Bool-cases (elem i ids)) [
      | inl f ↦
          ap (λ r. is_some r.model_id) (set_rules-in ids (change_of vals) s.db i f)
          ∙ ap is_some (keeps_model (with_model vals.model_id (s.db.rule i)))
          ∙ with_model-some vals.model_id (s.db.rule i) given m
      | inr n ↦ ap (λ r. is_some r.model_id) (set_rules-out ids (change_of vals) s.db i n) ∙ m
    ]
