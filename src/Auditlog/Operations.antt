-- ===== src/Auditlog/Operations.antt =====
-- The operations of a rule keep the rules and the patched methods in agreement.
use oca_server_tools.Common.{
  ℕ, ◌≡◌, refl, sym, ap, ◌∙◌, subst, String, Bool, true, false, List, [], ◌∷◌, str_eq, elem,
  is_some, if◌then◌else◌, Bool-cases, inl, inr, arith,
}
use oca_server_tools.Common.Action.{Result, ok, err, pure-eq-ok, >>=-eq-ok}
use oca_server_tools.Auditlog.{Method, Rule}
use oca_server_tools.Auditlog.Registry.{
  Db, Server, model_of, Vals, with_model, set_rules, hook_and_signal, is_unique, is_empty_model,
  write_rules, new_action, subscribed_vals, subscribe, Error, model_uniq, user_error,
}
use oca_server_tools.Auditlog.Subscribed.{RuleLogs, IsSound, hook-IsSound}

pub set_rules-out :
    (ids : List ℕ) (change : Rule → Rule) (db : Db) (i : ℕ)
    → elem i ids ≡ false
    → (set_rules ids change db).rule i ≡ db.rule i
set_rules-out ids change db i e = rw e refl

pub set_rules-in :
    (ids : List ℕ) (change : Rule → Rule) (db : Db) (i : ℕ)
    → elem i ids ≡ true
    → (set_rules ids change db).rule i ≡ change (db.rule i)
set_rules-in ids change db i e = rw e refl

pub set_rules-keeps :
    {A : Type 0} (f : Rule → A) (ids : List ℕ) (change : Rule → Rule) (db : Db)
    → ((r : Rule) → f (change r) ≡ f r)
    → (i : ℕ) → f ((set_rules ids change db).rule i) ≡ f (db.rule i)
set_rules-keeps f ids change db same i = elim (Bool-cases (elem i ids)) [
  | inl e ↦ ap f (set_rules-in ids change db i e) ∙ same (db.rule i)
  | inr e ↦ ap f (set_rules-out ids change db i e)
]

not_ok :
    {A : Type 0} {b : Bool} (x : Result Error A × Server) (e : Error) (s : Server)
    → b ≡ false
    → (v : A) → (if b then x else (err e, s)).0 ≡ ok v
    → ⊥
not_ok x e s n v h = ground (arith, n, h)

pub then_eq :
    {A : Type 0} {b : Bool} (x y : Result Error A × Server) → b ≡ true → (if b then x else y) ≡ x
then_eq x y e = rw e refl

pair_1 :
    {A : Type 0} {r r' : Result Error A} {s t : Server}
    → ◌≡◌ {A = Result Error A × Server} (r, s) (r', t)
    → s ≡ t
pair_1 e = ap (λ p. p.1) e

-- A conditional that returns took its first branch.
pub taken :
    {A : Type 0} (b : Bool) (v w : A) (e : Error) (s s' t : Server)
    → ◌≡◌ {A = Result Error A × Server} (if b then (ok v, s') else (err e, s)) (ok w, t)
    → (b ≡ true) × (s' ≡ t)
taken b v w e s s' t h = elim (Bool-cases b) [
  | inl y ↦ (y, pair_1 (sym (then_eq (ok v, s') (err e, s) y) ∙ h))
  | inr n ↦ elim (not_ok (ok v, s') e s n w (ap (λ p. p.0) h)) [ ]
]

-- The changes of the values of a rule that `write` makes here
abbrev pub change_of : Vals → Rule → Rule
change_of vals r = vals.change (with_model vals.model_id r)

pub else_eq :
    {A : Type 0} {b : Bool} (x y : Result Error A × Server) → b ≡ false → (if b then x else y) ≡ y
else_eq x y e = rw e refl

pub err_not_ok : {A : Type 0} (e : Error) (v : A) → ◌≡◌ {A = Result Error A} (err e) (ok v) → ⊥
err_not_ok e v h = cc h

-- A write that returns: the model is still unique, and the hook went through the rules.
pub write-ok :
    (pool : String → Bool) (ids : List ℕ) (vals : Vals) (s t : Server)
    → write_rules pool ids vals s ≡ (ok tt, t)
    → (is_unique (set_rules ids (change_of vals) s.db) ≡ true)
      × (hook_and_signal pool ids (record s { db = set_rules ids (change_of vals) s.db }) ≡ t)
unfolding write_rules
write-ok pool ids vals s t e = elim (Bool-cases (is_empty_model vals.model_id)) [
  | inl y ↦
      elim (err_not_ok user_error tt
        (ap (λ p. p.0) (sym (then_eq (err user_error, s) written y) ∙ e))) [ ]
  | inr n ↦
      taken (is_unique (set_rules ids (change_of vals) s.db)) tt tt model_uniq s hooked t
        (sym (else_eq (err user_error, s) written n) ∙ e)
]
  where
    hooked : Server
    hooked = hook_and_signal pool ids (record s { db = set_rules ids (change_of vals) s.db })

    written : Result Error Unit × Server
    written =
        if is_unique (set_rules ids (change_of vals) s.db)
        then (ok tt, hooked)
        else (err model_uniq, s)

pub RuleLogs-by :
    (r r' : Rule) (m : String) (k : Method)
    → r'.subscribed ≡ true
    → model_of r' ≡ model_of r
    → r'.logs ≡ r.logs
    → RuleLogs r m k
    → RuleLogs r' m k
RuleLogs-by r r' m k s e l (_, a, b) = (s, ap (λ x. str_eq x m) e ∙ a, ap (λ f. f k) l ∙ b)

pub write-rule_ids :
    (pool : String → Bool) (ids : List ℕ) (vals : Vals) (s t : Server)
    → write_rules pool ids vals s ≡ (ok tt, t)
    → s.db.rule_ids ≡ t.db.rule_ids
write-rule_ids pool ids vals s t e = ap (λ s. s.db.rule_ids) (write-ok pool ids vals s t e).1

-- The rule is subscribed: what is patched before stays.
subscribe_one-IsSound :
    (pool : String → Bool) (id : ℕ) (s t : Server)
    → IsSound pool s
    → elem id s.db.rule_ids ≡ true
    → write_rules pool (id ∷ []) (subscribed_vals s.db.next_action) (new_action s) ≡ (ok tt, t)
    → IsSound pool t
subscribe_one-IsSound pool id s t h i e =
    let (u, hooked) = write-ok pool (id ∷ []) vals (new_action s) t e in
    subst (IsSound pool) hooked (
      hook-IsSound pool (record s { db = db' }) (id ∷ []) h.consistent
        (λ j f. subst (λ x. elem x s.db.rule_ids ≡ true) (only j f) i)
        (λ m k j l there n.
          h.covered m k j
            (
              l.0,
              subst (λ r. RuleLogs r m k)
                  (set_rules-out (id ∷ []) (change_of vals) (new_action s).db j n) l.1,
            )
            there)
        (λ m k p. let (j, (a, l)) = h.exact m k p in (j, (a, still m k j l)))
        (λ j f.
          ap is_some (
            set_rules-keeps (λ r. r.model_id) (id ∷ []) (change_of vals) (new_action s).db
              (λ r. refl) j)
          ∙ h.modelled j f)
        u h.fresh)
  where
    vals : Vals
    vals = subscribed_vals s.db.next_action

    db' : Db
    db' = set_rules (id ∷ []) (change_of vals) (new_action s).db

    only : (j : ℕ) → elem j (id ∷ []) ≡ true → id ≡ j
    only j f = ground (arith, f)

    still :
        (m : String) (k : Method) (j : ℕ) → RuleLogs (s.db.rule j) m k → RuleLogs (db'.rule j) m k
    still m k j l = elim (Bool-cases (elem j (id ∷ []))) [
      | inl y ↦
          subst (λ r. RuleLogs r m k)
            (sym (set_rules-in (id ∷ []) (change_of vals) (new_action s).db j y))
            (RuleLogs-by (s.db.rule j) (change_of vals (s.db.rule j)) m k refl refl refl l)
      | inr n ↦
          subst (λ r. RuleLogs r m k)
            (sym (set_rules-out (id ∷ []) (change_of vals) (new_action s).db j n)) l
    ]

pub subscribe-IsSound :
    (pool : String → Bool) (ids : List ℕ) (s t : Server)
    → IsSound pool s
    → ((i : ℕ) → elem i ids ≡ true → elem i s.db.rule_ids ≡ true)
    → subscribe pool ids s ≡ (ok tt, t)
    → IsSound pool t
unfolding subscribe write_rules
subscribe-IsSound pool [] s t h sub e = subst (IsSound pool) (pure-eq-ok e).1 h
subscribe-IsSound pool (id ∷ ids) s t h sub e =
    let (_, s', e', rest) =
      >>=-eq-ok (λ s. write_rules pool (id ∷ []) (subscribed_vals s.db.next_action) (new_action s))
        (λ _. subscribe pool ids) s e in
    subscribe-IsSound pool ids s' t (subscribe_one-IsSound pool id s s' h (sub id ground arith) e')
      (λ i f.
        subst (λ l. elem i l ≡ true)
          (write-rule_ids pool (id ∷ []) (subscribed_vals s.db.next_action) (new_action s) s' e')
          (sub i ground arith))
      rest
