-- ===== src/Partition/Batches.antt =====
-- The batches of a recordset.
use oca_server_tools.Common.{
  ℕ, zero, suc, ◌+◌, ◌≤◌, ◌<◌, ltb, ◌≡◌, refl, sym, ap, ◌∙◌, Option, none, some, List, [], ◌∷◌,
  ◌++◌, length, if◌then◌else◌, Bool-cases, inl, inr, arith,
}
use oca_server_tools.Common.Action.{Result, ok, err}
use oca_server_tools.Partition.{
  Error, user_error, value_error, take, drop, size_or, slices, batches_of, batch,
}

-- Each batch but the last one has the size, and the last one has at most the size and is not empty.
abbrev pub AreBatches : ℕ → List (List ℕ) → Type 0
AreBatches n [] = Unit
AreBatches n (b ∷ []) = (0 < length b) × (length b ≤ n)
AreBatches n (b ∷ c ∷ more) = (length b ≡ n) × AreBatches n (c ∷ more)

abbrev pub joined : List (List ℕ) → List ℕ
joined [] = []
joined (b ∷ more) = b ++ joined more

take-drop : (n : ℕ) (xs : List ℕ) → take n xs ++ drop n xs ≡ xs
take-drop n [] = refl
take-drop zero (x ∷ xs) = refl
take-drop (suc n) (x ∷ xs) = ap (λ l. x ∷ l) (take-drop n xs)

drop_add : (i n : ℕ) (xs : List ℕ) → drop n (drop i xs) ≡ drop (i + n) xs
drop_add i n [] = refl
drop_add zero n (x ∷ xs) = ap (λ m. drop m (x ∷ xs)) (omega arith)
drop_add (suc i) n (x ∷ xs) = drop_add i n xs ∙ ap (λ m. drop m (x ∷ xs)) (suc_out i n)
  where
    suc_out : (i n : ℕ) → suc (i + n) ≡ suc i + n
    suc_out i n = omega arith

drop_all : (i : ℕ) (xs : List ℕ) → length xs ≤ i → drop i xs ≡ []
drop_all i [] h = refl
drop_all zero (x ∷ xs) h = elim (too_long h) [ ]
  where
    too_long : suc (length xs) ≤ 0 → ⊥
    too_long h = omega (arith, h)
drop_all (suc i) (x ∷ xs) h = drop_all i xs (omega (arith, h))

length-drop : (i : ℕ) (xs : List ℕ) → i ≤ length xs → i + length (drop i xs) ≡ length xs
length-drop i [] h = omega (arith, h)
length-drop zero (x ∷ xs) h = omega arith
length-drop (suc i) (x ∷ xs) h = omega (arith, length-drop i xs (omega (arith, h)))

length-take : (n : ℕ) (xs : List ℕ) → n ≤ length xs → length (take n xs) ≡ n
length-take n [] h = omega (arith, h)
length-take zero (x ∷ xs) h = refl
length-take (suc n) (x ∷ xs) h = ap suc (length-take n xs (omega (arith, h)))

take_at_most : (n : ℕ) (xs : List ℕ) → length (take n xs) ≤ n
take_at_most n [] = omega arith
take_at_most zero (x ∷ xs) = omega arith
take_at_most (suc n) (x ∷ xs) = omega (arith, take_at_most n xs)

take_some : (n : ℕ) (xs : List ℕ) → 0 < length xs → 0 < length (take (suc n) xs)
take_some n [] h = h
take_some n (x ∷ xs) h = omega arith

cons-AreBatches :
    (n : ℕ) (b : List ℕ) (rest : List (List ℕ))
    → 0 < length b
    → length b ≤ n
    → ((c : List ℕ) (more : List (List ℕ)) → rest ≡ c ∷ more → length b ≡ n)
    → AreBatches n rest
    → AreBatches n (b ∷ rest)
cons-AreBatches n b [] some_there at_most whole h = (some_there, at_most)
cons-AreBatches n b (c ∷ more) some_there at_most whole h = (whole c more refl, h)

nil_cons : (c : List ℕ) (more : List (List ℕ)) → ◌≡◌ {A = List (List ℕ)} [] (c ∷ more) → ⊥
nil_cons c more e = cc e

not_empty :
    (fuel i n step : ℕ) (records c : List ℕ) (more : List (List ℕ))
    → slices fuel i n step records ≡ c ∷ more
    → i < n
unfolding slices
not_empty zero i n step records c more e = elim (nil_cons c more e) [ ]
not_empty (suc fuel) i n step records c more e = elim (Bool-cases (ltb i n)) [
  | inl y ↦ ground (arith, y)
  | inr m ↦
      elim (nil_cons c more (
        sym (
          ap
            (λ b.
              if b then take step (drop i records) ∷ slices fuel (i + step) n step records else [])
            m)
        ∙ e)) [ ]
]

-- With enough fuel, the slices from `i` on are the rest of the records.
slices-AreBatches :
    (fuel i m : ℕ) (records : List ℕ)
    → length records ≤ i + fuel
    → (joined (slices fuel i (length records) (suc m) records) ≡ drop i records)
      × AreBatches (suc m) (slices fuel i (length records) (suc m) records)
unfolding slices
slices-AreBatches zero i m records h = (sym (drop_all i records (omega (arith, h))), tt)
slices-AreBatches (suc fuel) i m records h = elim (Bool-cases (ltb i (length records))) [
  | inl y ↦
      let (all, batches) = slices-AreBatches fuel (i + suc m) m records (omega (arith, h)) in
      rw y (
        ap (λ l. take (suc m) (drop i records) ++ l) (all ∙ sym (drop_add i (suc m) records))
            ∙ take-drop (suc m) (drop i records),
        cons-AreBatches (suc m) (take (suc m) (drop i records))
            (slices fuel (i + suc m) (length records) (suc m) records)
            (take_some m (drop i records) (ground (arith, y, length-drop i records)))
            (take_at_most (suc m) (drop i records))
            (λ c more e. length-take (suc m) (drop i records) (
              ground (
                arith,
                y,
                length-drop i records,
                not_empty fuel (i + suc m) (length records) (suc m) records c more e,
              )))
            batches,
      )
  | inr n ↦ rw n (sym (drop_all i records (ground (arith, n))), tt)
]

-- How `batch` ends for a size: an error, or the batches.
abbrev pub BatchEnds : Option ℕ → List ℕ → Result Error (List (List ℕ)) → Type 0
BatchEnds none records result = result ≡ err user_error
BatchEnds (some zero) records result = result ≡ err value_error
BatchEnds (some (suc m)) records result =
    (batches : List (List ℕ)) × (result ≡ ok batches)
    × (joined batches ≡ records)
    × AreBatches (suc m) batches

drop_none : (xs : List ℕ) → drop 0 xs ≡ xs
drop_none [] = refl
drop_none (x ∷ xs) = refl

batches_of-BatchEnds :
    (size : Option ℕ) (records : List ℕ) → BatchEnds size records (batches_of size records)
batches_of-BatchEnds none records = refl
batches_of-BatchEnds (some zero) records = refl
batches_of-BatchEnds (some (suc m)) records =
    let (all, batches) = slices-AreBatches (length records) 0 m records (omega arith) in
    (
      slices (length records) 0 (length records) (suc m) records,
      refl,
      all ∙ drop_none records,
      batches,
    )

-- With neither a batch size nor a default one, `batch` raises a `UserError`; where the size is the default one
-- and is 0, it raises a `ValueError`. With a positive size it always ends, and the batches, joined, are the
-- recordset: each but the last one has the size, and the last one has at most the size and is not empty.
pub batch-BatchEnds :
    (default_batch_size batch_size : Option ℕ) (records : List ℕ)
    → BatchEnds
        (size_or batch_size default_batch_size)
        records
        (batch default_batch_size batch_size records)
unfolding batch
batch-BatchEnds default_batch_size batch_size records =
    batches_of-BatchEnds (size_or batch_size default_batch_size) records
