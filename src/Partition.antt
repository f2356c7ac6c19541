-- ===== src/Partition.antt =====
-- base_partition: `partition`, `batch` and `read_per_record` of any recordset (models/models.py). A record is its id.
pub mod Groups
pub mod Batches
pub mod Rows
mod Tests
use oca_server_tools.Common.{
  ℕ, zero, suc, ◌+◌, ltb, ◌==◌, String, Bool, true, false, Option, none, some, List, [], ◌∷◌, ◌++◌,
  length, str_eq, if◌then◌else◌, or_else,
}
use oca_server_tools.Common.Dict.{Dict, lookup, remove}
use oca_server_tools.Common.Action.{Result, ok, err, and_then}

-- The keys of a dictionary: their equality, whether they are hashable, and `str`.
pub record Keys : Type 1 where
  pub Key : Type 0
  pub same : Key → Key → Bool
  pub hashable : Key → Bool
  pub str : Key → Key

-- `UserError`, the `ValueError` of `range` with a step of 0, and the `KeyError` of `pop`
pub data Error : Type 0 where
  user_error value_error key_error : Error

module _ (ks : Keys) where
  abbrev pub Partition : Type 0
  Partition = List (ks.Key × List ℕ)

  -- `if not key.__hash__: key = str(key)`
  abbrev pub hash_key : ks.Key → ks.Key
  hash_key key = if ks.hashable key then key else ks.str key

  -- `partition[key] += record`, where the key is not there, `partition[key] = record`
  unfoldable pub add_record : ks.Key → ℕ → Partition → Partition
  add_record key record_id [] = (key, record_id ∷ []) ∷ []
  add_record key record_id ((j, group) ∷ more) =
      if ks.same j key
      then (j, group ++ record_id ∷ []) ∷ more
      else (j, group) ∷ add_record key record_id more

  unfoldable pub partition_from : (ℕ → ks.Key) → List ℕ → Partition → Partition
  unfolding add_record
  partition_from func [] acc = acc
  partition_from func (r ∷ rs) acc = partition_from func rs (add_record (hash_key (func r)) r acc)

  -- `partition`: `func` is the accessor, or the lambda made of it.
  unfoldable pub partition : (ℕ → ks.Key) → List ℕ → Partition
  unfolding partition_from
  partition func records = partition_from func records []

abbrev pub take : {A : Type 0} → ℕ → List A → List A
take n [] = []
take zero (x ∷ xs) = []
take (suc n) (x ∷ xs) = x ∷ take n xs

abbrev pub drop : {A : Type 0} → ℕ → List A → List A
drop n [] = []
drop zero (x ∷ xs) = x ∷ xs
drop (suc n) (x ∷ xs) = drop n xs

-- `batch_size or self._default_batch_size`, a size of 0 being no size
abbrev pub size_or : Option ℕ → Option ℕ → Option ℕ
size_or none default = default
size_or (some zero) default = default
size_or (some (suc n)) default = some (suc n)

-- The loop over `range(i, n, step)`, on fuel: the slices of the records.
unfoldable pub slices : ℕ → ℕ → ℕ → ℕ → List ℕ → List (List ℕ)
slices zero i n step records = []
slices (suc fuel) i n step records =
    let rest = slices fuel (i + step) n step records in
    if ltb i n then take step (drop i records) ∷ rest else []

-- The batches that the generator yields for a size: `range` refuses a step of 0.
abbrev pub batches_of : Option ℕ → List ℕ → Result Error (List (List ℕ))
batches_of none records = err user_error
batches_of (some zero) records = err value_error
batches_of (some (suc n)) records = ok (slices (length records) 0 (length records) (suc n) records)

-- `batch`, run to its end; `default_batch_size` is the attribute, where the model has it.
unfoldable pub batch :
    (default_batch_size batch_size : Option ℕ) → List ℕ → Result Error (List (List ℕ))
unfolding slices
batch default_batch_size batch_size records =
    batches_of (size_or batch_size default_batch_size) records

-- `result[key] = d`
unfoldable pub set_row : {V : Type 0} → ℕ → Dict V → List (ℕ × Dict V) → List (ℕ × Dict V)
set_row id values [] = (id, values) ∷ []
set_row id values ((j, d) ∷ more) =
    if j == id then (j, values) ∷ more else (j, d) ∷ set_row id values more

-- `key = d.pop("id")` and `result[key] = d`; `id_of` is the number that a value of "id" stands for.
abbrev pub with_key :
    {V : Type 0}
    → (V → ℕ)
    → Dict V
    → Option V
    → List (ℕ × Dict V)
    → Result Error (List (ℕ × Dict V))
with_key id_of d none result = err key_error
with_key id_of d (some key) result = ok (set_row (id_of key) (remove "id" d) result)

-- The loop of `read_per_record`
unfoldable pub rows_of :
    {V : Type 0} → (V → ℕ) → List (Dict V) → List (ℕ × Dict V) → Result Error (List (ℕ × Dict V))
unfolding lookup set_row remove
rows_of id_of [] result = ok result
rows_of id_of (d ∷ data_list) result =
    and_then (with_key id_of d (lookup "id" d) result) (rows_of id_of data_list)

-- `read_per_record`
unfoldable pub read_per_record :
    {V : Type 0} → (V → ℕ) → (List ℕ → List (Dict V)) → List ℕ → Result Error (List (ℕ × Dict V))
unfolding rows_of
read_per_record id_of read records = rows_of id_of (read records) []
