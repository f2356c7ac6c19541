-- ===== src/Auditlog/Subscribed.antt =====
-- The rules and the patched methods agree: an invariant of every operation of a rule.
use oca_server_tools.Common.{
  ℕ, ◌<◌, ◌≡◌, refl, sym, ap, ◌∙◌, String, Bool, true, false, not, ◌||◌, List, [], ◌∷◌, ◌==◌,
  str_eq, eq_iff, elem, elem-keep, any_at, any-elem, all, all_at, keep, is_some, Bool-cases, inl,
  inr, arith,
}
use oca_server_tools.Auditlog.{Method, Rule}
use oca_server_tools.Auditlog.Registry.{
  Db, Registry, Server, model_of, same_model, hook_ids, register_hook, signal, hook_and_signal,
  is_unique,
}
use oca_server_tools.Auditlog.Patched.{IsConsistent, is_patched, patches, patch_methods-Becomes}

-- A subscribed rule that logs a method of a model
abbrev pub RuleLogs : Rule → String → Method → Type 0
RuleLogs r m k = (r.subscribed ≡ true) × (str_eq (model_of r) m ≡ true) × (r.logs k ≡ true)

-- A rule of the table that patches a method of a model
abbrev pub Logging : Db → String → Method → ℕ → Type 0
Logging db m k id = (elem id db.rule_ids ≡ true) × RuleLogs (db.rule id) m k

pub signal-is_patched :
    (acc : Registry × Bool) (m : String) (k : Method)
    → is_patched (signal acc) m k ≡ is_patched acc.0 m k
signal-is_patched (reg, true) m k = refl
signal-is_patched (reg, false) m k = refl

pub signal-IsConsistent : (acc : Registry × Bool) → IsConsistent acc.0 → IsConsistent (signal acc)
signal-IsConsistent (reg, true) c = c
signal-IsConsistent (reg, false) c = c

signal-ruled :
    (acc : Registry × Bool) (m : String) (k : Method) → (signal acc).ruled m k ≡ acc.0.ruled m k
signal-ruled (reg, true) m k = refl
signal-ruled (reg, false) m k = refl

signal-patched :
    (acc : Registry × Bool) (m : String) (k : Method) → (signal acc).patched m k ≡ acc.0.patched m k
signal-patched (reg, true) m k = refl
signal-patched (reg, false) m k = refl

module _ (pool : String → Bool) where
  -- The methods that are patched are those that a subscribed rule logs.
  pub record IsSound (s : Server) : Type 0 where
    pub consistent : IsConsistent s.registry
    pub covered :
        (m : String) (k : Method) (id : ℕ)
        → Logging s.db m k id
        → pool m ≡ true
        → is_patched s.registry m k ≡ true
    pub exact :
        (m : String) (k : Method)
        → is_patched s.registry m k ≡ true
        → (id : ℕ) × Logging s.db m k id
    pub modelled : (id : ℕ) → elem id s.db.rule_ids ≡ true → is_some (s.db.rule id).model_id ≡ true
    pub unique :
        (i j : ℕ)
        → elem i s.db.rule_ids ≡ true
        → elem j s.db.rule_ids ≡ true
        → same_model (s.db.rule i).model_id (s.db.rule j).model_id ≡ true
        → i ≡ j
    pub fresh : (id : ℕ) → elem id s.db.rule_ids ≡ true → id < s.db.next_rule

  is_unique-eq :
      (db : Db) (i j : ℕ)
      → is_unique db ≡ true
      → elem i db.rule_ids ≡ true
      → elem j db.rule_ids ≡ true
      → same_model (db.rule i).model_id (db.rule j).model_id ≡ true
      → i ≡ j
  unfolding is_unique
  is_unique-eq db i j u ei ej s = ground (
    arith,
    s,
    all_at (λ j. i == j || not (same_model (db.rule i).model_id (db.rule j).model_id)) db.rule_ids j
        (all_at
          (λ i.
            all (λ j. i == j || not (same_model (db.rule i).model_id (db.rule j).model_id))
              db.rule_ids)
          db.rule_ids i u ei)
        ej,
  )

  elem-hook_ids :
      (db : Db) (ids : List ℕ) (id : ℕ)
      → ((i : ℕ) → elem i ids ≡ true → elem i db.rule_ids ≡ true)
      → elem id (hook_ids db ids) ≡ true
      → elem id db.rule_ids ≡ true
  elem-hook_ids db [] id sub e =
      ground (arith, e, elem-keep (λ i. (db.rule i).subscribed) id db.rule_ids)
  elem-hook_ids db (x ∷ ids) id sub e = sub id e

  or_right : (a : Bool) {b : Bool} → b ≡ true → (a || b) ≡ true
  or_right a e = ground (arith, e)

  or_left : {a : Bool} (b : Bool) → a ≡ true → (a || b) ≡ true
  or_left b e = ground (arith, e)

  only_right : {a b : Bool} → (a || b) ≡ true → a ≡ false → b ≡ true
  only_right h e = ground (arith, h, e)

  Logging-patches :
      (db : Db) (m : String) (k : Method) (id : ℕ)
      → Logging db m k id
      → pool m ≡ true
      → patches pool (db.rule id) m k ≡ true
  Logging-patches db m k id (i, (s, e, l)) there =
      ground (arith, s, e, l, there, ap pool ((eq_iff (model_of (db.rule id)) m).0 e))

  patches-Logging :
      (db : Db) (m : String) (k : Method) (id : ℕ)
      → elem id db.rule_ids ≡ true
      → patches pool (db.rule id) m k ≡ true
      → Logging db m k id
  patches-Logging db m k id i e = (i, (ground (arith, e), ground (arith, e), ground (arith, e)))

  -- After the hook: what was patched before, and the rules that it went through. `reg` is the registry that
  -- the hook leaves, with the signal or without.
  hooked-IsSound :
      (s : Server) (ids : List ℕ) (reg : Registry)
      → ((m : String) (k : Method) → reg.ruled m k ≡ (register_hook pool ids s).0.ruled m k)
      → ((m : String) (k : Method) → reg.patched m k ≡ (register_hook pool ids s).0.patched m k)
      → IsConsistent s.registry
      → ((i : ℕ) → elem i ids ≡ true → elem i s.db.rule_ids ≡ true)
      → ((m : String) (k : Method) (id : ℕ)
          → Logging s.db m k id
          → pool m ≡ true
          → elem id (hook_ids s.db ids) ≡ false
          → is_patched s.registry m k ≡ true)
      → ((m : String) (k : Method)
          → is_patched s.registry m k ≡ true
          → (id : ℕ) × Logging s.db m k id)
      → ((id : ℕ) → elem id s.db.rule_ids ≡ true → is_some (s.db.rule id).model_id ≡ true)
      → ((i j : ℕ)
          → elem i s.db.rule_ids ≡ true
          → elem j s.db.rule_ids ≡ true
          → same_model (s.db.rule i).model_id (s.db.rule j).model_id ≡ true
          → i ≡ j)
      → ((id : ℕ) → elem id s.db.rule_ids ≡ true → id < s.db.next_rule)
      → IsSound (record s { registry = reg })
  unfolding register_hook
  hooked-IsSound s ids reg ruled patched c sub covered exact modelled unique fresh =
      let (c', p) = patch_methods-Becomes pool s.db (hook_ids s.db ids) (s.registry, false) c in
      record {
        consistent = λ m k. ruled m k ∙ c' m k ∙ ap is_some (sym (patched m k));
        covered = λ m k id l there.
            ap is_some (patched m k) ∙ p m k ∙ elim (Bool-cases (elem id (hook_ids s.db ids))) [
              | inl e ↦ or_right (is_patched s.registry m k) (
                  any_at (λ i. patches pool (s.db.rule i) m k) (hook_ids s.db ids) id e
                    (Logging-patches s.db m k id l there))
              | inr e ↦ or_left _ (covered m k id l there e)
            ];
        exact = λ m k e.
            let h = sym (p m k) ∙ sym (ap is_some (patched m k)) ∙ e in
            elim (Bool-cases (is_patched s.registry m k)) [
              | inl before ↦ exact m k before
              | inr new ↦
                  let (id, i, f) =
                    any-elem (λ i. patches pool (s.db.rule i) m k) (hook_ids s.db ids)
                      (only_right h new) in
                  (id, patches-Logging s.db m k id (elem-hook_ids s.db ids id sub i) f)
            ];
        modelled = modelled;
        unique = unique;
        fresh = fresh;
      }

  not_hooked :
      (db : Db) (ids : List ℕ) (id : ℕ) → elem id (hook_ids db ids) ≡ false → elem id ids ≡ false
  not_hooked db [] id e = refl
  not_hooked db (x ∷ ids) id e = e

  pub hook-IsSound :
      (s : Server) (ids : List ℕ)
      → IsConsistent s.registry
      → ((i : ℕ) → elem i ids ≡ true → elem i s.db.rule_ids ≡ true)
      → ((m : String) (k : Method) (id : ℕ)
          → Logging s.db m k id
          → pool m ≡ true
          → elem id ids ≡ false
          → is_patched s.registry m k ≡ true)
      → ((m : String) (k : Method)
          → is_patched s.registry m k ≡ true
          → (id : ℕ) × Logging s.db m k id)
      → ((id : ℕ) → elem id s.db.rule_ids ≡ true → is_some (s.db.rule id).model_id ≡ true)
      → is_unique s.db ≡ true
      → ((id : ℕ) → elem id s.db.rule_ids ≡ true → id < s.db.next_rule)
      → IsSound (hook_and_signal pool ids s)
  hook-IsSound s ids c sub covered exact modelled unique fresh =
      let acc = register_hook pool ids s in
      hooked-IsSound s ids (signal acc) (signal-ruled acc) (signal-patched acc) c sub
        (λ m k id l there e. covered m k id l there (not_hooked s.db ids id e)) exact modelled
        (λ i j. is_unique-eq s.db i j unique) fresh

  -- A restart: a registry in which nothing is patched, and `_register_hook` of the empty recordset.
  pub restart-IsSound :
      (s : Server) (reg : Registry)
      → IsConsistent reg
      → ((m : String) (k : Method) → is_patched reg m k ≡ false)
      → IsSound s
      → IsSound (record s { registry = (register_hook pool [] (record s { registry = reg })).0 })
  restart-IsSound s reg c nothing h =
      hooked-IsSound (record s { registry = reg }) []
        (register_hook pool [] (record s { registry = reg })).0 (λ m k. refl) (λ m k. refl) c
        (λ i e. elim (nothing_in i e) [ ])
        (λ m k id (i, (sb, a, l)) there out. elim (left_out id i sb out) [ ])
        (λ m k e. elim (none_patched m k e) [ ]) h.modelled h.unique h.fresh
    where
      nothing_in : (i : ℕ) → elem i [] ≡ true → ⊥
      nothing_in i e = cc e

      left_out :
          (id : ℕ)
          → elem id s.db.rule_ids ≡ true
          → (s.db.rule id).subscribed ≡ true
          → elem id (keep (λ i. (s.db.rule i).subscribed) s.db.rule_ids) ≡ false
          → ⊥
      left_out id i sb out =
          ground (arith, i, sb, out, elem-keep (λ i. (s.db.rule i).subscribed) id s.db.rule_ids)

      none_patched : (m : String) (k : Method) → is_patched reg m k ≡ true → ⊥
      none_patched m k e = ground (arith, e, nothing m k)
