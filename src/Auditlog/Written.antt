-- ===== src/Auditlog/Written.antt =====
-- The lines that the loops of `_create_log_line_on_*` create, field by field.
use oca_server_tools.Common.{
  ℕ, ◌≡◌, refl, sym, ap, ap₂, ◌∙◌, String, Bool, true, false, not, ◌&&◌, Option, none, some, List,
  [], ◌∷◌, ◌++◌, append_assoc, append-nil, str_eq, eq_iff, eq_refl, if◌then◌else◌, is_some,
  Bool-cases, inl, inr, arith, All, or_else,
}
use oca_server_tools.Common.Dict.{has}
use oca_server_tools.Common.Action.{Result, ok}
use oca_server_tools.Auditlog.{FieldData, Values, Line, Orm, Error, World}
use oca_server_tools.Auditlog.Lines.{
  M, fields_blacklist, get_field, cached, set_cached, log_found, log_field, create_log_lines,
}

module _ {v : Values} (o : Orm v) where
  -- Every kept answer is the one that the database gives.
  abbrev pub IsCoherent : World o → Type 0
  IsCoherent w =
      (model name : String) (field : Option FieldData)
      → w.field_cache model name ≡ some field
      → field ≡ o.search_field w.db model name

  -- A field is found under its own name.
  abbrev pub FindsByName : Type 0
  FindsByName =
      (db : o.Db) (model name : String) (field : FieldData)
      → o.search_field db model name ≡ some field
      → field.name ≡ name

  abbrev with_cache : (String → String → Option (Option FieldData)) → World o → World o
  with_cache cache w = record w { field_cache = cache }

  cached-IsCoherent :
      (model name : String) (w : World o) (answer : Option (Option FieldData))
      → w.field_cache model name ≡ answer
      → IsCoherent w
      → (cache : String → String → Option (Option FieldData)) × (cached o model name answer w
          ≡ (ok (o.search_field w.db model name), with_cache cache w))
        × IsCoherent (with_cache cache w)
  cached-IsCoherent model name w (some field) e c =
      (w.field_cache, ap (λ f. (ok f, w)) (c model name field e), c)
  cached-IsCoherent model name w none e c = (
    (set_cached o model name (o.search_field w.db model name) w).field_cache,
    refl,
    λ m n f h. ground (arith, h, c m n f, eq_iff model m, eq_iff name n),
  )

  -- The first line of a field, its old and its new value.
  abbrev pub line_of : String → List (Line v) → Option (v.Value × v.Value)
  line_of f [] = none
  line_of f (line ∷ more) =
      if str_eq line.field.name f then some (line.old_value, line.new_value) else line_of f more

  -- A field that is not left out and that `ir.model.fields` has.
  abbrev pub is_logged : o.Db → String → List String → String → Bool
  is_logged db model excluded f =
      not (has f (excluded ++ fields_blacklist)) && is_some (o.search_field db model f)

  -- The lines are prepared without an error, with these values.
  abbrev pub Prepares :
      o.Db
      → String
      → (FieldData → Result Error (Line v))
      → ℕ
      → (String → v.Value × v.Value)
      → String
      → Type 0
  Prepares db model prepare id values f =
      (field : FieldData)
      → o.search_field db model f ≡ some field
      → (line : Line v) × (prepare field ≡ ok line)
        × (line.field ≡ field)
        × (line.log_id ≡ id)
        × (line.old_value ≡ (values f).0)
        × (line.new_value ≡ (values f).1)

  abbrev pub with_lines :
      List (Line v) → (String → String → Option (Option FieldData)) → World o → World o
  with_lines new cache w = record w { lines = w.lines ++ new; field_cache = cache }

  -- What lines for some fields are: they are of the log, and each field that is logged has one.
  abbrev pub LinesFor :
      o.Db
      → String
      → List String
      → ℕ
      → (String → v.Value × v.Value)
      → (String → Bool)
      → List (Line v)
      → Type 0
  LinesFor db model excluded id values wanted new =
      All (λ line. line.log_id ≡ id) new
      × ((f : String)
          → line_of f new
            ≡ (if wanted f && is_logged db model excluded f then some (values f) else none))

  abbrev pub Logs :
      M o Unit
      → World o
      → String
      → List String
      → ℕ
      → (String → v.Value × v.Value)
      → (String → Bool)
      → Type 0
  Logs run w model excluded id values wanted =
      (new : List (Line v)) × (cache : String → String → Option (Option FieldData)) × (run w
        ≡ (ok tt, with_lines new cache w))
      × IsCoherent (with_lines new cache w)
      × LinesFor w.db model excluded id values wanted new

  module _ (finds : FindsByName) (model : String) (excluded : List String)
      (prepare : o.Db → FieldData → Result Error (Line v)) (id : ℕ)
      (values : String → v.Value × v.Value) where
    one_line :
        (n f g : String) (p q : v.Value × v.Value)
        → n ≡ f
        → p ≡ q
        → (if str_eq n g then some p else none) ≡ (if str_eq f g && true then some q else none)
    one_line n f g p q e h = ap₂ (λ m r. if str_eq m g then some r else none) e h ∙ ground arith

    log_found-Logs :
        (f : String) (w : World o) (answer : Option FieldData)
        → o.search_field w.db model f ≡ answer
        → IsCoherent w
        → Prepares w.db model (prepare w.db) id values f
        → (new : List (Line v)) × (log_found o prepare answer w
            ≡ (ok tt, with_lines new w.field_cache w))
          × All (λ line. line.log_id ≡ id) new
          × ((g : String)
              → line_of g new ≡ (if str_eq f g && is_some answer then some (values f) else none))
    log_found-Logs f w none e c p = (
      [],
      ap (λ l. (ok tt, record w { lines = l })) (sym (append-nil w.lines)),
      tt,
      λ g. ground arith,
    )
    log_found-Logs f w (some field) e c p =
        let (line, made, of_field, of_log, old, new) = p field e in
        (
          line ∷ [],
          rw made refl,
          (of_log, tt),
          λ g.
              one_line line.field.name f g (line.old_value, line.new_value) (values f)
                (ap (λ x. x.name) of_field ∙ finds w.db model f field e) (λ i. (old i, new i)),
        )

    logged_if :
        (db : o.Db) (f g : String)
        → has f (excluded ++ fields_blacklist) ≡ false
        → (if str_eq f g && is_some (o.search_field db model f) then some (values f) else none)
          ≡ (if str_eq f g && is_logged db model excluded g then some (values g) else none)
    logged_if db f g kept = elim (Bool-cases (str_eq f g)) [
      | inl e ↦ rw (sym ((eq_iff f g).0 e), kept) refl
      | inr e ↦ rw e refl
    ]

    log_field-Logs :
        (f : String) (w : World o)
        → IsCoherent w
        → Prepares w.db model (prepare w.db) id values f
        → Logs (log_field o model excluded prepare f) w model excluded id values (str_eq f)
    unfolding log_field get_field
    log_field-Logs f w c p = elim (Bool-cases (has f (excluded ++ fields_blacklist))) [
      | inl out ↦ (
        [],
        w.field_cache,
        rw out (ap (λ l. (ok tt, record w { lines = l })) (sym (append-nil w.lines))),
        c,
        (tt, λ g. ground (arith, out, eq_iff f g, ap (λ x. has x (excluded ++ fields_blacklist)))),
      )
      | inr kept ↦
          let (cache, e, c') = cached-IsCoherent model f w (w.field_cache model f) refl c in
          let (new, run, of_log, lines) =
            log_found-Logs f (with_cache cache w) (o.search_field w.db model f) refl c' p in
          (new, cache, rw (kept, e) run, c', (of_log, λ g. lines g ∙ logged_if w.db f g kept))
    ]

    All-append : (P : Line v → Type 0) (l m : List (Line v)) → All P l → All P m → All P (l ++ m)
    All-append P [] m a b = b
    All-append P (x ∷ l) m a b = (a.0, All-append P l m a.1 b)

    line_of-append :
        (f : String) (l m : List (Line v))
        → line_of f (l ++ m) ≡ or_else (line_of f l) (line_of f m)
    line_of-append f [] m = refl
    line_of-append f (x ∷ l) m = elim (Bool-cases (str_eq x.field.name f)) [
      | inl e ↦ rw e refl
      | inr e ↦ rw e (line_of-append f l m)
    ]

    joined :
        (b c d : Bool) (p : v.Value × v.Value)
        → or_else (if b && d then some p else none) (if c && d then some p else none)
          ≡ (if (if b then true else c) && d then some p else none)
    joined b c d p = ground arith

    -- The loop creates a line for each field of the list that is logged, and no other.
    pub create_log_lines-Logs :
        (names : List String) (w : World o)
        → IsCoherent w
        → ((f : String) → has f names ≡ true → Prepares w.db model (prepare w.db) id values f)
        → Logs
            (create_log_lines o model excluded prepare names)
            w
            model
            excluded
            id
            values
            (λ f. has f names)
    unfolding create_log_lines
    create_log_lines-Logs [] w c p = (
      [],
      w.field_cache,
      ap (λ l. (ok tt, record w { lines = l })) (sym (append-nil w.lines)),
      c,
      (tt, λ f. refl),
    )
    create_log_lines-Logs (f ∷ names) w c p =
        let (new, cache, run, c', (of_log, lines)) =
          log_field-Logs f w c (p f (ground (arith, eq_refl f))) in
        let (new', cache', run', c'', (of_log', lines')) =
          create_log_lines-Logs names (with_lines new cache w) c'
            (λ g h. p g (ground (arith, h))) in
        (
          new ++ new',
          cache',
          rw run (
              run'
              ∙ ap (λ l. (ok tt, record w { lines = l; field_cache = cache' }))
                  (append_assoc w.lines new new')),
          c'',
          (
            All-append (λ line. line.log_id ≡ id) new new' of_log of_log',
            λ g.
                line_of-append g new new'
                ∙ ap₂ or_else (lines g) (lines' g)
                ∙ joined (str_eq f g) (has g names) (is_logged w.db model excluded g) (values g),
          ),
        )
