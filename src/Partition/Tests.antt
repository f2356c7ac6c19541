-- ===== src/Partition/Tests.antt =====
-- Records grouped by their parity and in batches of two, and the theorems applied to them.
use oca_server_tools.Common.{
  ℕ, ◌+◌, is_some, String, map, ◌%◌, ◌==◌, ==_refl, ◌≡◌, refl, true, some, List, [], ◌∷◌, keep,
  arith,
}
use oca_server_tools.Common.Dict.{Dict, lookup}
use oca_server_tools.Common.Action.{ok, err}
use oca_server_tools.Partition.Rows.{row, row_value, last_of, without_id, read_per_record_lem}
use oca_server_tools.Partition.{key_error, Keys, hash_key, partition, batch, read_per_record}
use oca_server_tools.Partition.Groups.{
  IsEquivalence, AreDistinct, get, some_group, count, members, partition-IsPartition,
}
use oca_server_tools.Partition.Batches.{BatchEnds, batch-BatchEnds}

-- Keys that are numbers
abbrev numbers : Keys
numbers = record { Key = ℕ; same = λ a b. a == b; hashable = λ key. true; str = λ key. key }

abbrev parity : ℕ → ℕ
parity r = r % 2

abbrev five : List ℕ
five = 1 ∷ 2 ∷ 3 ∷ 4 ∷ 7 ∷ []

by_parity : partition numbers parity five ≡ (1, 1 ∷ 3 ∷ 7 ∷ []) ∷ (0, 2 ∷ 4 ∷ []) ∷ []
unfolding partition
by_parity = refl

in_twos : batch (some 3) (some 2) five ≡ ok ((1 ∷ 2 ∷ []) ∷ (3 ∷ 4 ∷ []) ∷ (7 ∷ []) ∷ [])
unfolding batch
in_twos = refl

numbers-IsEquivalence : IsEquivalence numbers.same
numbers-IsEquivalence = record {
  reflexive = ==_refl;
  symmetric = λ a b e. ground (arith, e);
  transitive = λ a b c e f. ground (arith, e, f);
}

partition-IsPartition_example :
    AreDistinct numbers (partition numbers parity five)
    × ((k : ℕ)
        → get numbers k (partition numbers parity five)
          ≡ some_group (keep (λ r. hash_key numbers (parity r) == k) five))
    × ((r : ℕ) → count r (members numbers (partition numbers parity five)) ≡ count r five)
partition-IsPartition_example = partition-IsPartition numbers numbers-IsEquivalence parity five

batch-BatchEnds_example : BatchEnds (some 2) five (batch (some 3) (some 2) five)
batch-BatchEnds_example = batch-BatchEnds (some 3) (some 2) five

-- Values are numbers, and the value of "id" is the id.
abbrev read_numbers : List ℕ → List (Dict ℕ)
read_numbers ids = map (λ id. ("age", id + 20) ∷ ("id", id) ∷ []) ids

as_rows :
    read_per_record (λ n. n) read_numbers (4 ∷ 7 ∷ [])
    ≡ ok ((4, ("age", 24) ∷ []) ∷ (7, ("age", 27) ∷ []) ∷ [])
unfolding read_per_record
as_rows = refl

no_key : read_per_record (λ n. n) (λ ids. [] ∷ []) (4 ∷ []) ≡ err key_error
unfolding read_per_record
no_key = refl

read_per_record_lem_example :
    (result : List (ℕ × Dict ℕ)) × (read_per_record (λ n. n) read_numbers five ≡ ok result)
    × ((id : ℕ)
        → is_some (row (λ n. n) id result) ≡ is_some (last_of (λ n. n) id (read_numbers five)))
    × ((id : ℕ) (f : String)
        → row_value (λ n. n) id f result
          ≡ without_id (λ n. n) f (last_of (λ n. n) id (read_numbers five)))
unfolding lookup
read_per_record_lem_example = read_per_record_lem (λ n. n) read_numbers five refl
