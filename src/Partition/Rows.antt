-- ===== src/Partition/Rows.antt =====
-- The rows of `read_per_record`.
use oca_server_tools.Common.{
  ℕ, ◌==◌, ◌≡◌, refl, sym, ap, ◌∙◌, Bool, true, false, Option, Option-cases, none, some, List, [],
  ◌∷◌, or_else, String, str_eq, if◌then◌else◌, is_some, all, arith, inl, inr,
}
use oca_server_tools.Common.Dict.{Dict, lookup, lookup-remove, remove}
use oca_server_tools.Common.Action.{ok}
use oca_server_tools.Partition.{set_row, rows_of, read_per_record}

module _ {V : Type 0} (id_of : V → ℕ) where
  -- `result.get(id)`
  abbrev pub row : ℕ → List (ℕ × Dict V) → Option (Dict V)
  row id [] = none
  row id ((j, values) ∷ more) = if j == id then some values else row id more

  -- The value of a field in the row of an id
  abbrev value_in : String → Option (Dict V) → Option V
  value_in f none = none
  value_in f (some d) = lookup f d

  abbrev pub row_value : ℕ → String → List (ℕ × Dict V) → Option V
  row_value id f result = value_in f (row id result)

  abbrev pub is_of : ℕ → Option V → Bool
  is_of id none = false
  is_of id (some key) = id_of key == id

  -- The last of the dictionaries that were read whose "id" is this one
  abbrev pub last_of : ℕ → List (Dict V) → Option (Dict V)
  last_of id [] = none
  last_of id (d ∷ more) =
      or_else (last_of id more) (if is_of id (lookup "id" d) then some d else none)

  -- What the row of that dictionary has for a field: nothing for "id", and else what the dictionary has
  abbrev pub without_id : String → Option (Dict V) → Option V
  without_id f none = none
  without_id f (some d) = if str_eq "id" f then none else lookup f d

  abbrev popped : Option (Dict V) → Option (Dict V)
  popped none = none
  popped (some d) = some (remove "id" d)

  value_in-popped : (f : String) (d : Option (Dict V)) → value_in f (popped d) ≡ without_id f d
  value_in-popped f none = refl
  value_in-popped f (some d) = lookup-remove "id" f d

  row-set_row :
      (id k : ℕ) (values : Dict V) (result : List (ℕ × Dict V))
      → row id (set_row k values result) ≡ (if k == id then some values else row id result)
  unfolding set_row
  row-set_row id k values [] = refl
  row-set_row id k values ((j, d) ∷ more) = ground (arith, row-set_row id k values more)

  later :
      (a : Option (Dict V)) (c : Bool) (d : Dict V) (b : Option (Dict V))
      → or_else (popped a) (if c then some (remove "id" d) else b)
        ≡ or_else (popped (or_else a (if c then some d else none))) b
  later none true d b = refl
  later none false d b = refl
  later (some a) c d b = refl

  -- How the loop ends, for rows that all have an "id"
  rows_of_lem :
      (rows : List (Dict V)) (result : List (ℕ × Dict V))
      → all (λ d. is_some (lookup "id" d)) rows ≡ true
      → (result' : List (ℕ × Dict V)) × (rows_of id_of rows result ≡ ok result')
        × ((id : ℕ) → row id result' ≡ or_else (popped (last_of id rows)) (row id result))
  unfolding rows_of
  rows_of_lem [] result h = (result, refl, λ id. refl)
  rows_of_lem (d ∷ rows) result h = elim (Option-cases (lookup "id" d)) [
    | inl e ↦ cc (rw e at h)
    | inr (key, e) ↦
        let (result', run, at) =
          rows_of_lem rows (set_row (id_of key) (remove "id" d) result) (rw e at h) in
        (
          result',
          rw e run,
          λ id.
              at id
              ∙ ap (or_else (popped (last_of id rows)))
                  (row-set_row id (id_of key) (remove "id" d) result)
              ∙ later (last_of id rows) (id_of key == id) d (row id result)
              ∙ ap
                  (λ k.
                    or_else
                      (popped (or_else (last_of id rows) (if is_of id k then some d else none)))
                      (row id result))
                  (sym e),
        )
  ]

  value_in-or_else : (f : String) (a : Option (Dict V)) → value_in f (or_else a none) ≡ value_in f a
  value_in-or_else f none = refl
  value_in-or_else f (some d) = refl

  present-or_else : (a : Option (Dict V)) → is_some (or_else (popped a) none) ≡ is_some a
  present-or_else none = refl
  present-or_else (some d) = refl

  -- Where every dictionary that `read` gives has an "id", `read_per_record` returns. It has a row for each id that
  -- one of them has, and for no other; the row has every field of the last dictionary with that id but "id",
  -- with its value there, and nothing for "id" or any other field.
  pub read_per_record_lem :
      (read : List ℕ → List (Dict V)) (records : List ℕ)
      → all (λ d. is_some (lookup "id" d)) (read records) ≡ true
      → (result : List (ℕ × Dict V)) × (read_per_record id_of read records ≡ ok result)
        × ((id : ℕ) → is_some (row id result) ≡ is_some (last_of id (read records)))
        × ((id : ℕ) (f : String) → row_value id f result ≡ without_id f (last_of id (read records)))
  unfolding read_per_record
  read_per_record_lem read records h =
      let (result, run, at) = rows_of_lem (read records) [] h in
      (
        result,
        run,
        λ id. ap (λ r. is_some r) (at id) ∙ present-or_else (last_of id (read records)),
        λ id f.
            ap (value_in f) (at id)
            ∙ value_in-or_else f (popped (last_of id (read records)))
            ∙ value_in-popped f (last_of id (read records)),
      )
