-- ===== src/Auditlog/Unsubscribed.antt =====
-- `unsubscribe` and `unlink` keep the rules and the patched methods in agreement.
use oca_server_tools.Common.{
  ℕ, ◌<◌, ◌≡◌, refl, sym, ap, ◌∙◌, subst, String, Bool, true, false, not, ◌&&◌, Option, none, some,
  List, [], ◌∷◌, ◌==◌, str_eq, eq_iff, elem, elem-keep, any, any_at, any-elem, keep, is_some,
  if◌then◌else◌, Bool-cases, inl, inr, arith,
}
use oca_server_tools.Common.Action.{Result, ok, pure-eq-ok, >>=-eq-ok}
use oca_server_tools.Auditlog.{Method, Rule}
use oca_server_tools.Auditlog.Registry.{
  Db, Server, model_of, model_or, same_model, set_rules, write_rules, drop_actions, draft_vals,
  revert_all, revert_methods, signal_if_ok, unsubscribe, unlink_rules, Error,
}
use oca_server_tools.Auditlog.Patched.{IsConsistent, is_patched, reverts, revert_all-Becomes}
use oca_server_tools.Auditlog.Subscribed.{
  RuleLogs, Logging, IsSound, hook-IsSound, signal-is_patched, signal-IsConsistent,
}
use oca_server_tools.Auditlog.Operations.{
  set_rules-out, set_rules-in, set_rules-keeps, change_of, write-ok, RuleLogs-by,
}

drop_actions-keeps :
    {A : Type 0} (f : Rule → A) (ids : List ℕ) (db : Db)
    → ((r : Rule) → f (record r { action_id = none }) ≡ f r)
    → (i : ℕ) → f ((drop_actions ids db).rule i) ≡ f (db.rule i)
unfolding drop_actions
drop_actions-keeps f [] db same i = refl
drop_actions-keeps f (id ∷ ids) db same i = drop_actions-keeps f ids _ same i ∙ one (i == id)
  where
    one :
        (b : Bool)
        → f (if b then record (db.rule i) { action_id = none } else db.rule i) ≡ f (db.rule i)
    one true = same (db.rule i)
    one false = refl

drop_actions-rule_ids : (ids : List ℕ) (db : Db) → (drop_actions ids db).rule_ids ≡ db.rule_ids
unfolding drop_actions
drop_actions-rule_ids [] db = refl
drop_actions-rule_ids (id ∷ ids) db = drop_actions-rule_ids ids _

drop_actions-next_rule : (ids : List ℕ) (db : Db) → (drop_actions ids db).next_rule ≡ db.next_rule
unfolding drop_actions
drop_actions-next_rule [] db = refl
drop_actions-next_rule (id ∷ ids) db = drop_actions-next_rule ids _

-- A method is patched after the reversal when it was before and no rule of the list reverts it.
revert_methods-ok :
    (pool : String → Bool) (ids : List ℕ) (s t : Server)
    → IsConsistent s.registry
    → revert_methods pool ids s ≡ (ok tt, t)
    → (t.db ≡ s.db)
      × IsConsistent t.registry
      × ((m : String) (k : Method)
          → is_patched t.registry m k
            ≡ (is_patched s.registry m k && not (any (λ id. reverts (s.db.rule id) m k) ids)))
unfolding revert_methods
revert_methods-ok pool ids s t c e =
    let acc = (revert_all pool s.db ids (s.registry, false)).1 in
    let done = ap (λ p. p.0) e in
    let (c', p) = revert_all-Becomes pool s.db ids (s.registry, false) c done in
    let registry = ap (λ r. signal_if_ok r acc) (sym done) ∙ ap (λ p. p.1.registry) e in
    (
      sym (ap (λ p. p.1.db) e),
      subst IsConsistent registry (signal-IsConsistent acc c'),
      λ m k. ap (λ r. is_patched r m k) (sym registry) ∙ signal-is_patched acc m k ∙ p m k,
    )

both_models :
    (a b : Option String) (x y m : String)
    → is_some a ≡ true
    → is_some b ≡ true
    → str_eq (model_or a x) m ≡ true
    → str_eq (model_or b y) m ≡ true
    → same_model a b ≡ true
both_models none b x y m p q e f = cc p
both_models (some a) none x y m p q e f = cc q
both_models (some a) (some b) x y m p q e f =
    (eq_iff a b).1 ((eq_iff a m).0 e ∙ sym ((eq_iff b m).0 f))

and_not : {a b : Bool} → a ≡ true → b ≡ false → (a && not b) ≡ true
and_not e f = ground (arith, e, f)

and_not-1 : (a : Bool) {b : Bool} → (a && not b) ≡ true → b ≡ false
and_not-1 a e = ground (arith, e)

and_not-0 : {a : Bool} (b : Bool) → (a && not b) ≡ true → a ≡ true
and_not-0 b e = ground (arith, e)

pub not_both : {b : Bool} → b ≡ true → b ≡ false → ⊥
not_both e f = ground (arith, e, f)

-- Where a rule of the table that logs a method is not in a list of rules, no rule of the list reverts it.
not_reverted :
    (pool : String → Bool) (s : Server) (ids : List ℕ) (m : String) (k : Method) (id : ℕ)
    → IsSound pool s
    → ((i : ℕ) → elem i ids ≡ true → elem i s.db.rule_ids ≡ true)
    → Logging s.db m k id
    → elem id ids ≡ false
    → any (λ i. reverts (s.db.rule i) m k) ids ≡ false
not_reverted pool s ids m k id h sub (there, (_, model, _)) out =
    elim (Bool-cases (any (λ i. reverts (s.db.rule i) m k) ids)) [
      | inl y ↦
          let (j, in_ids, r) = any-elem (λ i. reverts (s.db.rule i) m k) ids y in
          let same = h.unique j id (sub j in_ids) there (
            both_models (s.db.rule j).model_id (s.db.rule id).model_id (s.db.rule j).model_model
              (s.db.rule id).model_model m (h.modelled j (sub j in_ids)) (h.modelled id there)
              (ground (arith, r)) model) in
          elim (not_both (ap (λ i. elem i ids) (sym same) ∙ in_ids) out) [ ]
      | inr n ↦ n
    ]

-- The rules that are drafts revert nothing.
drafted-IsSound :
    (pool : String → Bool) (ids : List ℕ) (s s1 t : Server)
    → IsSound pool s
    → ((i : ℕ) → elem i ids ≡ true → elem i s.db.rule_ids ≡ true)
    → revert_methods pool ids s ≡ (ok tt, s1)
    → write_rules pool ids draft_vals (record s1 { db = drop_actions ids s1.db }) ≡ (ok tt, t)
    → IsSound pool t
      × (t.db.rule_ids ≡ s.db.rule_ids)
      × ((i : ℕ) → elem i ids ≡ true → (t.db.rule i).subscribed ≡ false)
drafted-IsSound pool ids s s1 t h sub e1 e2 =
    let (q, c, p) = revert_methods-ok pool ids s s1 h.consistent e1 in
    let (u, hooked) =
      write-ok pool ids draft_vals (record s1 { db = drop_actions ids s1.db }) t e2 in
    let ids_same = drop_actions-rule_ids ids s1.db ∙ ap (λ d. d.rule_ids) q in
    let next_same = drop_actions-next_rule ids s1.db ∙ ap (λ d. d.next_rule) q in
    (
      subst (IsSound pool) hooked (
          hook-IsSound pool (record s1 { db = db' }) ids c (λ i f. ap (elem i) ids_same ∙ sub i f)
            (λ m k j l there n.
              p m k
              ∙ and_not (h.covered m k j (back ids_same q m k j l n) there)
                  (not_reverted pool s ids m k j h sub (back ids_same q m k j l n) n))
            (λ m k e.
              let before = and_not-0 (any (λ i. reverts (s.db.rule i) m k) ids) (sym (p m k) ∙ e) in
              let (j, (there, l)) = h.exact m k before in
              (
                j,
                (
                  ap (elem j) ids_same ∙ there,
                  still m k j q l (and_not-1 (is_patched s.registry m k) (sym (p m k) ∙ e)),
                ),
              ))
            (λ i f.
              ap is_some (kept (λ r. r.model_id) (λ r. refl) (λ r. refl) q i)
              ∙ h.modelled i (ap (elem i) (sym ids_same) ∙ f))
            u
            (λ i f.
              subst (λ n. i < n) (sym next_same) (h.fresh i (ap (elem i) (sym ids_same) ∙ f)))),
      ap (λ t. t.db.rule_ids) (sym hooked) ∙ ids_same,
      λ i f.
          ap (λ t. (t.db.rule i).subscribed) (sym hooked)
          ∙ ap (λ r. r.subscribed)
              (set_rules-in ids (change_of draft_vals) (drop_actions ids s1.db) i f),
    )
  where
    db' : Db
    db' = set_rules ids (change_of draft_vals) (drop_actions ids s1.db)

    kept :
        {A : Type 0} (f : Rule → A)
        → ((r : Rule) → f (change_of draft_vals r) ≡ f r)
        → ((r : Rule) → f (record r { action_id = none }) ≡ f r)
        → s1.db ≡ s.db
        → (i : ℕ) → f (db'.rule i) ≡ f (s.db.rule i)
    kept f d a q i =
        set_rules-keeps f ids (change_of draft_vals) (drop_actions ids s1.db) d i
        ∙ drop_actions-keeps f ids s1.db a i
        ∙ ap (λ db. f (db.rule i)) q

    outside :
        s1.db ≡ s.db
        → (i : ℕ) → elem i ids ≡ false
        → (db'.rule i).subscribed ≡ (s.db.rule i).subscribed
    outside q i n =
        ap (λ r. r.subscribed)
          (set_rules-out ids (change_of draft_vals) (drop_actions ids s1.db) i n)
        ∙ drop_actions-keeps (λ r. r.subscribed) ids s1.db (λ r. refl) i
        ∙ ap (λ db. (db.rule i).subscribed) q

    restored :
        (m : String) (k : Method) (j : ℕ)
        → s1.db ≡ s.db
        → elem j ids ≡ false
        → Logging db' m k j
        → RuleLogs (s.db.rule j) m k
    restored m k j q n (_, (sb, model, logs)) =
        RuleLogs-by (db'.rule j) (s.db.rule j) m k (sym (outside q j n) ∙ sb)
          (sym (kept model_of (λ r. refl) (λ r. refl) q j))
          (sym (kept (λ r. r.logs) (λ r. refl) (λ r. refl) q j)) (sb, model, logs)

    back :
        db'.rule_ids ≡ s.db.rule_ids
        → s1.db ≡ s.db
        → (m : String) (k : Method) (j : ℕ) → Logging db' m k j
        → elem j ids ≡ false
        → Logging s.db m k j
    back same q m k j l n = (ap (elem j) (sym same) ∙ l.0, restored m k j q n l)

    still :
        (m : String) (k : Method) (j : ℕ)
        → s1.db ≡ s.db
        → RuleLogs (s.db.rule j) m k
        → any (λ i. reverts (s.db.rule i) m k) ids ≡ false
        → RuleLogs (db'.rule j) m k
    still m k j q (sb, model, logs) none_reverts =
        RuleLogs-by (s.db.rule j) (db'.rule j) m k (outside q j out ∙ sb)
          (kept model_of (λ r. refl) (λ r. refl) q j)
          (kept (λ r. r.logs) (λ r. refl) (λ r. refl) q j) (sb, model, logs)
      where
        out : elem j ids ≡ false
        out = elim (Bool-cases (elem j ids)) [
          | inl y ↦
              elim (not_both
                (any_at (λ i. reverts (s.db.rule i) m k) ids j y (ground (arith, model, logs)))
                none_reverts) [ ]
          | inr n ↦ n
        ]

pub unsubscribe-IsSound :
    (pool : String → Bool) (ids : List ℕ) (s t : Server)
    → IsSound pool s
    → ((i : ℕ) → elem i ids ≡ true → elem i s.db.rule_ids ≡ true)
    → unsubscribe pool ids s ≡ (ok tt, t)
    → IsSound pool t × ((i : ℕ) → elem i ids ≡ true → (t.db.rule i).subscribed ≡ false)
unfolding unsubscribe
unsubscribe-IsSound pool ids s t h sub e =
    let (_, s1, e1, e2) =
      >>=-eq-ok (revert_methods pool ids)
        (λ _ s. write_rules pool ids draft_vals (record s { db = drop_actions ids s.db })) s e in
    let (h', _, d) = drafted-IsSound pool ids s s1 t h sub e1 e2 in (h', d)

-- The rules are drafts before they leave the table.
pub unlink_rules-IsSound :
    (pool : String → Bool) (ids : List ℕ) (s t : Server)
    → IsSound pool s
    → ((i : ℕ) → elem i ids ≡ true → elem i s.db.rule_ids ≡ true)
    → unlink_rules pool ids s ≡ (ok tt, t)
    → IsSound pool t
unfolding unlink_rules
unlink_rules-IsSound pool ids s t h sub e =
    let (_, s1, e1, e2) = >>=-eq-ok (unsubscribe pool ids) (λ _. removed) s e in
    let (h', drafts) = unsubscribe-IsSound pool ids s s1 h sub e1 in
    subst (IsSound pool) (pure-eq-ok e2).1 (record {
      consistent = h'.consistent;
      covered = λ m k i (there, l) f. h'.covered m k i (was_there s1 i there, l) f;
      exact = λ m k p.
          let (i, (there, l)) = h'.exact m k p in
          (i, (stays s1 i there (draft_out s1 i drafts l.0), l));
      modelled = λ i f. h'.modelled i (was_there s1 i f);
      unique = λ i j f g. h'.unique i j (was_there s1 i f) (was_there s1 j g);
      fresh = λ i f. h'.fresh i (was_there s1 i f);
    })
  where
    removed : Server → Result Error Unit × Server
    removed s = (
      ok tt,
      record s { db = record s.db { rule_ids = keep (λ i. not (elem i ids)) s.db.rule_ids } },
    )

    was_there :
        (s : Server) (i : ℕ)
        → elem i (keep (λ i. not (elem i ids)) s.db.rule_ids) ≡ true
        → elem i s.db.rule_ids ≡ true
    was_there s i f = ground (arith, f, elem-keep (λ i. not (elem i ids)) i s.db.rule_ids)

    stays :
        (s : Server) (i : ℕ)
        → elem i s.db.rule_ids ≡ true
        → elem i ids ≡ false
        → elem i (keep (λ i. not (elem i ids)) s.db.rule_ids) ≡ true
    stays s i f n = ground (arith, f, n, elem-keep (λ i. not (elem i ids)) i s.db.rule_ids)

    draft_out :
        (s : Server) (i : ℕ)
        → ((i : ℕ) → elem i ids ≡ true → (s.db.rule i).subscribed ≡ false)
        → (s.db.rule i).subscribed ≡ true
        → elem i ids ≡ false
    draft_out s i drafts e = elim (Bool-cases (elem i ids)) [
      | inl y ↦ elim (not_both e (drafts i y)) [ ]
      | inr n ↦ n
    ]
