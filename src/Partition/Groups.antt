-- ===== src/Partition/Groups.antt =====
-- The groups of `partition`: one for each key that a record has, with the records of that key in order.
use oca_server_tools.Common.{
  ℕ, ◌+◌, ◌==◌, ◌≡◌, refl, sym, ap, ◌∙◌, Bool, true, false, ◌||◌, Option, none, some, List, [], ◌∷◌,
  ◌++◌, append_assoc, append-nil, any, keep, if◌then◌else◌, Bool-cases, inl, inr, ◌⊎◌, arith,
}
use oca_server_tools.Partition.{Keys, Partition, hash_key, add_record, partition_from, partition}

-- How often an id is in a list.
abbrev pub count : ℕ → List ℕ → ℕ
count r [] = 0
count r (x ∷ xs) = (if x == r then 1 else 0) + count r xs

count-append : (r : ℕ) (xs ys : List ℕ) → count r (xs ++ ys) ≡ count r xs + count r ys
count-append r [] ys = omega arith
count-append r (x ∷ xs) ys = ground (arith, count-append r xs ys)

abbrev pub some_group : List ℕ → Option (List ℕ)
some_group [] = none
some_group (x ∷ xs) = some (x ∷ xs)

abbrev pub extend : Option (List ℕ) → List ℕ → Option (List ℕ)
extend none xs = some_group xs
extend (some group) xs = some (group ++ xs)

-- The equality of keys is an equivalence.
pub record IsEquivalence {A : Type 0} (same : A → A → Bool) : Type 0 where
  pub reflexive : (a : A) → same a a ≡ true
  pub symmetric : (a b : A) → same a b ≡ true → same b a ≡ true
  pub transitive : (a b c : A) → same a b ≡ true → same b c ≡ true → same a c ≡ true

module _ (ks : Keys) where
  -- `partition.get(k)`
  unfoldable pub get : ks.Key → Partition ks → Option (List ℕ)
  get k [] = none
  get k ((j, group) ∷ more) = if ks.same j k then some group else get k more

  -- All the records of the groups
  abbrev pub members : Partition ks → List ℕ
  members [] = []
  members ((j, group) ∷ more) = group ++ members more

  -- No key is there twice.
  abbrev pub AreDistinct : Partition ks → Type 0
  AreDistinct [] = Unit
  AreDistinct ((j, group) ∷ more) = (any (λ g. ks.same g.0 j) more ≡ false) × AreDistinct more

  extend_assoc :
      (g : Option (List ℕ)) (r : ℕ) (rs : List ℕ)
      → extend (extend g (r ∷ [])) rs ≡ extend g (r ∷ rs)
  extend_assoc none r rs = refl
  extend_assoc (some g) r rs = ap some (append_assoc g (r ∷ []) rs)

  extend-nil : (g : Option (List ℕ)) → extend g [] ≡ g
  extend-nil none = refl
  extend-nil (some g) = ap some (append-nil g)

  count-add :
      (key : ks.Key) (x r : ℕ) (d : Partition ks)
      → count r (members (add_record ks key x d)) ≡ count r (x ∷ []) + count r (members d)
  unfolding add_record
  count-add key x r [] = omega arith
  count-add key x r ((j, group) ∷ more) = elim (Bool-cases (ks.same j key)) [
    | inl e ↦ rw e (
        omega (
          arith,
          count-append r (group ++ x ∷ []) (members more),
          count-append r group (x ∷ []),
          count-append r group (members more),
        ))
    | inr e ↦ rw e (
        omega (
          arith,
          count-append r group (members (add_record ks key x more)),
          count-append r group (members more),
          count-add key x r more,
        ))
  ]

  count-partition_from :
      (func : ℕ → ks.Key) (rs : List ℕ) (r : ℕ) (d : Partition ks)
      → count r (members (partition_from ks func rs d)) ≡ count r rs + count r (members d)
  unfolding partition_from
  count-partition_from func [] r d = omega arith
  count-partition_from func (x ∷ rs) r d = omega (
    arith,
    count-partition_from func rs r (add_record ks (hash_key ks (func x)) x d),
    count-add (hash_key ks (func x)) x r d,
  )

  module _ (eq : IsEquivalence ks.same) where
    same_left : (j key k : ks.Key) → ks.same j key ≡ true → ks.same j k ≡ ks.same key k
    same_left j key k e = elim (Bool-cases (ks.same j k)) [
      | inl f ↦ f ∙ sym (eq.transitive key j k (eq.symmetric j key e) f)
      | inr n ↦ elim (Bool-cases (ks.same key k)) [
        | inl f ↦ eq.transitive j key k e f ∙ sym f
        | inr m ↦ n ∙ sym m
      ]
    ]

    get-add_record :
        (key k : ks.Key) (x : ℕ) (d : Partition ks)
        → get k (add_record ks key x d)
          ≡ (if ks.same key k then extend (get k d) (x ∷ []) else get k d)
    unfolding get add_record
    get-add_record key k x [] = refl
    get-add_record key k x ((j, group) ∷ more) = elim (Bool-cases (ks.same j key)) [
      | inl e ↦ by_key e (Bool-cases (ks.same key k))
      | inr n ↦
          elsewhere n (get-add_record key k x more) (Bool-cases (ks.same j k))
            (Bool-cases (ks.same key k))
    ]
      where
        by_key :
            ks.same j key ≡ true
            → (ks.same key k ≡ true) ⊎ (ks.same key k ≡ false)
            → get k (add_record ks key x ((j, group) ∷ more)) ≡ (
                if ks.same key k
                then extend (get k ((j, group) ∷ more)) (x ∷ [])
                else get k ((j, group) ∷ more))
        by_key e (inl f) = rw (e, same_left j key k e, f) refl
        by_key e (inr f) = rw (e, same_left j key k e, f) refl

        different : ks.same j key ≡ false → ks.same j key ≡ true → ⊥
        different n e = ground (arith, n, e)

        elsewhere :
            ks.same j key ≡ false
            → get k (add_record ks key x more)
              ≡ (if ks.same key k then extend (get k more) (x ∷ []) else get k more)
            → (ks.same j k ≡ true) ⊎ (ks.same j k ≡ false)
            → (ks.same key k ≡ true) ⊎ (ks.same key k ≡ false)
            → get k (add_record ks key x ((j, group) ∷ more)) ≡ (
                if ks.same key k
                then extend (get k ((j, group) ∷ more)) (x ∷ [])
                else get k ((j, group) ∷ more))
        elsewhere n rest (inl f) (inl g) =
            elim (different n (eq.transitive j k key f (eq.symmetric key k g))) [ ]
        elsewhere n rest (inl f) (inr g) = rw (n, f, g) refl
        elsewhere n rest (inr f) (inl g) = rw (n, f, rest, g) refl
        elsewhere n rest (inr f) (inr g) = rw (n, f, rest, g) refl

    get-partition_from :
        (func : ℕ → ks.Key) (rs : List ℕ) (k : ks.Key) (d : Partition ks)
        → get k (partition_from ks func rs d)
          ≡ extend (get k d) (keep (λ r. ks.same (hash_key ks (func r)) k) rs)
    unfolding partition_from
    get-partition_from func [] k d = sym (extend-nil (get k d))
    get-partition_from func (r ∷ rs) k d =
        get-partition_from func rs k (add_record ks (hash_key ks (func r)) r d)
        ∙ ap (λ g. extend g rest) (get-add_record (hash_key ks (func r)) k r d)
        ∙ by_key (ks.same (hash_key ks (func r)) k)
      where
        rest : List ℕ
        rest = keep (λ r. ks.same (hash_key ks (func r)) k) rs

        by_key :
            (b : Bool)
            → extend (if b then extend (get k d) (r ∷ []) else get k d) rest
              ≡ extend (get k d) (if b then r ∷ rest else rest)
        by_key true = extend_assoc (get k d) r rest
        by_key false = refl

    any-add_record :
        (key k : ks.Key) (x : ℕ) (d : Partition ks)
        → any (λ g. ks.same g.0 k) (add_record ks key x d)
          ≡ (any (λ g. ks.same g.0 k) d || ks.same key k)
    unfolding add_record
    any-add_record key k x [] = ground arith
    any-add_record key k x ((j, group) ∷ more) = elim (Bool-cases (ks.same j key)) [
      | inl e ↦ rw e (ground (arith, same_left j key k e))
      | inr n ↦ rw n (ground (arith, any-add_record key k x more))
    ]

    add_record-AreDistinct :
        (key : ks.Key) (x : ℕ) (d : Partition ks)
        → AreDistinct d
        → AreDistinct (add_record ks key x d)
    unfolding add_record
    add_record-AreDistinct key x [] h = (refl, tt)
    add_record-AreDistinct key x ((j, group) ∷ more) (n, h) = elim (Bool-cases (ks.same j key)) [
      | inl e ↦ rw e (n, h)
      | inr m ↦ rw m (
        any-add_record key j x more ∙ ground (arith, n, m, other m),
        add_record-AreDistinct key x more h,
      )
    ]
      where
        other : ks.same j key ≡ false → ks.same key j ≡ false
        other m = ground (arith, m, eq.symmetric key j)

    partition_from-AreDistinct :
        (func : ℕ → ks.Key) (rs : List ℕ) (d : Partition ks)
        → AreDistinct d
        → AreDistinct (partition_from ks func rs d)
    unfolding partition_from
    partition_from-AreDistinct func [] d h = h
    partition_from-AreDistinct func (r ∷ rs) d h =
        partition_from-AreDistinct func rs (add_record ks (hash_key ks (func r)) r d)
          (add_record-AreDistinct (hash_key ks (func r)) r d h)

    -- Where the equality of keys is an equivalence: the keys of the partition are distinct, the group of a key
    -- has the records with that key, in the order of the recordset, and there is none for a key that no record
    -- has; and each id is in the groups together as often as in the recordset.
    pub partition-IsPartition :
        (func : ℕ → ks.Key) (records : List ℕ)
        → AreDistinct (partition ks func records)
          × ((k : ks.Key)
              → get k (partition ks func records)
                ≡ some_group (keep (λ r. ks.same (hash_key ks (func r)) k) records))
          × ((r : ℕ) → count r (members (partition ks func records)) ≡ count r records)
    unfolding partition get
    partition-IsPartition func records = (
      partition_from-AreDistinct func records [] tt,
      λ k. get-partition_from func records k [],
      λ r. omega (arith, count-partition_from func records r []),
    )
