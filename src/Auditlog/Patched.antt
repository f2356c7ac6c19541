-- ===== src/Auditlog/Patched.antt =====
-- Which methods are patched after `_patch_methods` and after `_revert_methods`.
use oca_server_tools.Common.{
  ℕ, ◌≡◌, refl, sym, ap, ◌∙◌, subst, String, Bool, true, false, not, ◌&&◌, ◌||◌, Option, none, some,
  List, [], ◌∷◌, str_eq, eq_iff, any, is_some, if◌then◌else◌, Bool-cases, inl, inr, arith,
}
use oca_server_tools.Common.Action.{Result, ok, err}
use oca_server_tools.Auditlog.{Method, create, read, write, unlink, export_data, Rule}
use oca_server_tools.Auditlog.Registry.{
  method_eq, Db, Registry, Error, key_error, model_of, patch_of, set_patch, patch_method,
  patch_each, all_methods, cache_model, patch_rule, patch_methods, revert_method, revert_each,
  revert_all,
}

-- The attributes `auditlog_ruled_*` are set for the methods that are patched.
abbrev pub IsConsistent : Registry → Type 0
IsConsistent reg = (m : String) (k : Method) → reg.ruled m k ≡ is_some (reg.patched m k)

abbrev pub is_patched : Registry → String → Method → Bool
is_patched reg m k = is_some (reg.patched m k)

method_eq-eq : (a b : Method) → method_eq a b ≡ true → a ≡ b
unfolding method_eq
method_eq-eq create create e = refl
method_eq-eq create read e = cc e
method_eq-eq create write e = cc e
method_eq-eq create unlink e = cc e
method_eq-eq create export_data e = cc e
method_eq-eq read create e = cc e
method_eq-eq read read e = refl
method_eq-eq read write e = cc e
method_eq-eq read unlink e = cc e
method_eq-eq read export_data e = cc e
method_eq-eq write create e = cc e
method_eq-eq write read e = cc e
method_eq-eq write write e = refl
method_eq-eq write unlink e = cc e
method_eq-eq write export_data e = cc e
method_eq-eq unlink create e = cc e
method_eq-eq unlink read e = cc e
method_eq-eq unlink write e = cc e
method_eq-eq unlink unlink e = refl
method_eq-eq unlink export_data e = cc e
method_eq-eq export_data create e = cc e
method_eq-eq export_data read e = cc e
method_eq-eq export_data write e = cc e
method_eq-eq export_data unlink e = cc e
method_eq-eq export_data export_data e = refl

method_eq_refl : (a : Method) → method_eq a a ≡ true
unfolding method_eq
method_eq_refl a = ground arith

abbrev one_of : Method → List Method → Bool
one_of j [] = false
one_of j (k ∷ ks) = method_eq k j || one_of j ks

one_of_all : (j : Method) → one_of j all_methods ≡ true
unfolding method_eq
one_of_all j = ground arith

-- What a registry becomes: it stays consistent, and these methods are patched.
abbrev pub Becomes : Registry → (String → Method → Bool) → Type 0
Becomes reg p = IsConsistent reg × ((m : String) (k : Method) → is_patched reg m k ≡ p m k)

set_patch-Becomes :
    (model : String) (k : Method) (patch : Option _) (reg : Registry)
    → IsConsistent reg
    → Becomes
        (set_patch model k patch reg)
        (λ m j. if str_eq model m && method_eq k j then is_some patch else is_patched reg m j)
set_patch-Becomes model k patch reg c = (λ m j. ground (arith, c m j), λ m j. ground arith)

or_false : (a : Bool) → a ≡ (a || false)
or_false a = ground arith

or_assoc : (a b c : Bool) → ((a || b) || c) ≡ (a || (b || c))
or_assoc a b c = ground arith

and_true : (a : Bool) → a ≡ (a && not false)
and_true a = ground arith

and_assoc :
    (a s o l c : Bool) → o ≡ true → ((a && not (s && (o && l))) && not c) ≡ (a && not (s && l || c))
and_assoc a s o l c e = ground (arith, e)

then_if :
    {b : Bool} (e : b ≡ true) (x : Result Error Unit × (Registry × Bool)) (acc : Registry × Bool)
    → (if b then x else (err key_error, acc)).1.0 ≡ x.1.0
then_if e x acc = rw e refl

first_if :
    {b : Bool} (e : b ≡ true) (x : Result Error Unit × (Registry × Bool)) (acc : Registry × Bool)
    → (if b then x else (err key_error, acc)).0 ≡ x.0
first_if e x acc = rw e refl

not_ok :
    {b : Bool} (x : Result Error Unit × (Registry × Bool)) (acc : Registry × Bool)
    → b ≡ false
    → (if b then x else (err key_error, acc)).0 ≡ ok tt
    → ⊥
not_ok x acc e h = ground (arith, e, h)

patch_method-Becomes :
    (rule : Rule) (k : Method) (acc : Registry × Bool)
    → IsConsistent acc.0
    → Becomes
        (patch_method rule k acc).0
        (λ m j. is_patched acc.0 m j || str_eq (model_of rule) m && (method_eq k j && rule.logs j))
unfolding patch_method
patch_method-Becomes rule k (reg, u) c =
    elim (Bool-cases (rule.logs k && not (reg.ruled (model_of rule) k))) [
      | inl e ↦
          let (c', p) = set_patch-Becomes (model_of rule) k (some (patch_of rule)) reg c in
          rw e (
            c',
            λ m j. p m j ∙ elim (Bool-cases (method_eq k j)) [
              | inl h ↦ ground (arith, e, h, ap rule.logs (method_eq-eq k j h))
              | inr h ↦ ground (arith, h)
            ],
          )
      | inr e ↦ rw e (c, λ m j. already m j e)
    ]
  where
    already :
        (m : String) (j : Method)
        → (rule.logs k && not (reg.ruled (model_of rule) k)) ≡ false
        → is_patched reg m j
          ≡ (is_patched reg m j || str_eq (model_of rule) m && (method_eq k j && rule.logs j))
    already m j e = elim (Bool-cases (str_eq (model_of rule) m)) [
      | inl s ↦ elim (Bool-cases (method_eq k j)) [
        | inl h ↦ ground (
          arith,
          e,
          s,
          h,
          ap rule.logs (method_eq-eq k j h),
          c m j,
          ap (λ x. reg.ruled x k) ((eq_iff (model_of rule) m).0 s),
          ap (reg.ruled m) (method_eq-eq k j h),
        )
        | inr h ↦ ground (arith, h)
      ]
      | inr s ↦ ground (arith, s)
    ]

patch_each-Becomes :
    (rule : Rule) (ks : List Method) (acc : Registry × Bool)
    → IsConsistent acc.0
    → Becomes
        (patch_each rule ks acc).0
        (λ m j. is_patched acc.0 m j || str_eq (model_of rule) m && (one_of j ks && rule.logs j))
unfolding patch_each
patch_each-Becomes rule [] acc c = (c, λ m j. ground arith)
patch_each-Becomes rule (k ∷ ks) acc c =
    let (c', p) = patch_method-Becomes rule k acc c in
    let (c'', q) = patch_each-Becomes rule ks (patch_method rule k acc) c' in
    (
      c'',
      λ m j.
          q m j
          ∙ ap (λ b. b || (str_eq (model_of rule) m && (one_of j ks && rule.logs j))) (p m j)
          ∙ ground arith,
    )

-- What `_patch_methods` patches for a rule.
abbrev pub patches : (String → Bool) → Rule → String → Method → Bool
patches pool rule m j =
    rule.subscribed && (pool (model_of rule) && (str_eq (model_of rule) m && rule.logs j))

patch_rule-Becomes :
    (pool : String → Bool) (rule : Rule) (acc : Registry × Bool)
    → IsConsistent acc.0
    → Becomes (patch_rule pool rule acc).0 (λ m j. is_patched acc.0 m j || patches pool rule m j)
unfolding patch_rule
patch_rule-Becomes pool rule (reg, u) c =
    elim (Bool-cases (not rule.subscribed || not (pool (model_of rule)))) [
      | inl e ↦ rw e (c, λ m j. ground (arith, e))
      | inr e ↦
          let (c', p) = patch_each-Becomes rule all_methods (cache_model rule.model_id reg, u) c in
          rw e (c', λ m j. p m j ∙ ground (arith, e, one_of_all j))
    ]

pub patch_methods-Becomes :
    (pool : String → Bool) (db : Db) (ids : List ℕ) (acc : Registry × Bool)
    → IsConsistent acc.0
    → Becomes
        (patch_methods pool db ids acc).0
        (λ m j. is_patched acc.0 m j || any (λ id. patches pool (db.rule id) m j) ids)
unfolding patch_methods
patch_methods-Becomes pool db [] acc c = (c, λ m j. or_false (is_patched acc.0 m j))
patch_methods-Becomes pool db (id ∷ ids) acc c =
    let (c', p) = patch_rule-Becomes pool (db.rule id) acc c in
    let (c'', q) = patch_methods-Becomes pool db ids (patch_rule pool (db.rule id) acc) c' in
    (
      c'',
      λ m j.
          q m j
          ∙ ap (λ b. b || any (λ i. patches pool (db.rule i) m j) ids) (p m j)
          ∙ or_assoc (is_patched acc.0 m j) (patches pool (db.rule id) m j)
              (any (λ i. patches pool (db.rule i) m j) ids),
    )

-- What `_revert_methods` reverts for a rule.
abbrev pub reverts : Rule → String → Method → Bool
reverts rule m j = str_eq (model_of rule) m && rule.logs j

revert_method-Becomes :
    (rule : Rule) (k : Method) (acc : Registry × Bool)
    → IsConsistent acc.0
    → Becomes (revert_method rule k acc).0 (λ m j.
      is_patched acc.0 m j && not (str_eq (model_of rule) m && (method_eq k j && rule.logs j)))
unfolding revert_method
revert_method-Becomes rule k (reg, u) c =
    elim (Bool-cases (rule.logs k && is_some (reg.patched (model_of rule) k))) [
      | inl e ↦
          let (c', p) = set_patch-Becomes (model_of rule) k none reg c in
          rw e (
            c',
            λ m j. p m j ∙ elim (Bool-cases (method_eq k j)) [
              | inl h ↦ ground (arith, e, h, ap rule.logs (method_eq-eq k j h))
              | inr h ↦ ground (arith, h)
            ],
          )
      | inr e ↦ rw e (c, λ m j. already m j e)
    ]
  where
    already :
        (m : String) (j : Method)
        → (rule.logs k && is_some (reg.patched (model_of rule) k)) ≡ false
        → is_patched reg m j
          ≡ (is_patched reg m j && not (str_eq (model_of rule) m && (method_eq k j && rule.logs j)))
    already m j e = elim (Bool-cases (str_eq (model_of rule) m)) [
      | inl s ↦ elim (Bool-cases (method_eq k j)) [
        | inl h ↦ ground (
          arith,
          e,
          s,
          h,
          ap rule.logs (method_eq-eq k j h),
          ap (λ x. is_some (reg.patched x k)) ((eq_iff (model_of rule) m).0 s),
          ap (λ x. is_some (reg.patched m x)) (method_eq-eq k j h),
        )
        | inr h ↦ ground (arith, h)
      ]
      | inr s ↦ ground (arith, s)
    ]

revert_each-Becomes :
    (rule : Rule) (ks : List Method) (acc : Registry × Bool)
    → IsConsistent acc.0
    → Becomes (revert_each rule ks acc).0 (λ m j.
      is_patched acc.0 m j && not (str_eq (model_of rule) m && (one_of j ks && rule.logs j)))
unfolding revert_each
revert_each-Becomes rule [] acc c = (c, λ m j. ground arith)
revert_each-Becomes rule (k ∷ ks) acc c =
    let (c', p) = revert_method-Becomes rule k acc c in
    let (c'', q) = revert_each-Becomes rule ks (revert_method rule k acc) c' in
    (
      c'',
      λ m j.
          q m j
          ∙ ap (λ b. b && not (str_eq (model_of rule) m && (one_of j ks && rule.logs j))) (p m j)
          ∙ ground arith,
    )

-- Where the loop does not raise, the methods of the rules are reverted, and no others.
pub revert_all-Becomes :
    (pool : String → Bool) (db : Db) (ids : List ℕ) (acc : Registry × Bool)
    → IsConsistent acc.0
    → (revert_all pool db ids acc).0 ≡ ok tt
    → Becomes
        (revert_all pool db ids acc).1.0
        (λ m j. is_patched acc.0 m j && not (any (λ id. reverts (db.rule id) m j) ids))
unfolding revert_all
revert_all-Becomes pool db [] acc c e = (c, λ m j. and_true (is_patched acc.0 m j))
revert_all-Becomes pool db (id ∷ ids) acc c e = elim (Bool-cases (pool (model_of (db.rule id)))) [
  | inl there ↦
      let next = revert_each (db.rule id) all_methods acc in
      let (c', p) = revert_each-Becomes (db.rule id) all_methods acc c in
      let (c'', q) =
        revert_all-Becomes pool db ids next c'
          (sym (first_if there (revert_all pool db ids next) acc) ∙ e) in
      subst
        (λ r.
          Becomes r
            (λ m j. is_patched acc.0 m j && not (any (λ i. reverts (db.rule i) m j) (id ∷ ids))))
        (sym (then_if there (revert_all pool db ids next) acc))
        (
          c'',
          λ m j.
              q m j
              ∙ ap (λ b. b && not (any (λ i. reverts (db.rule i) m j) ids)) (p m j)
              ∙ and_assoc (is_patched acc.0 m j) (str_eq (model_of (db.rule id)) m)
                  (one_of j all_methods) ((db.rule id).logs j)
                  (any (λ i. reverts (db.rule i) m j) ids) (one_of_all j),
        )
  | inr gone ↦
      elim (not_ok (revert_all pool db ids (revert_each (db.rule id) all_methods acc)) acc gone
        e) [ ]
]
