-- ===== src/Fanout.antt =====
-- write.go, Write: the records grouped into one task for each partition.
pub mod Values
pub mod Tasks
use s3pgstore.Base.{◌≡◌, Bool, Option, none, some, List, [], ◌∷◌, ◌++◌, map, Bytes, Result, ok, err}
use s3pgstore.Base.Dict.{Dict, lookup, put}
use s3pgstore.Base.Groups.{or_nil, keys_of}
use s3pgstore.Base.Keyed.{by_name}
use s3pgstore.Base.Orders.{bytes_order}
use s3pgstore.Base.Sorting.{sort, by}
use s3pgstore.Partition.{PartitionError, partition_key_values}

-- What a task of the pool is given for its call of writePartition.
pub record Task (T : Type 0) : Type 0 where
  pub partition_key : Bytes
  pub part_values : List Bytes
  pub records : List T

-- `if _, seen := keyValues[key]; !seen { keyValues[key] = values }`
abbrev pub add_values :
    Bytes → List Bytes → Dict (List Bytes) → Option (List Bytes) → Dict (List Bytes)
add_values key values m none = put key values m
add_values key values m (some seen) = m

-- The key of a record, with the result of validatePartitionKey.
unfoldable pub validate_partition_key :
    List Bytes → Bytes → Result PartitionError (Bytes × List Bytes)
unfolding partition_key_values
validate_partition_key parts key = elim (partition_key_values key parts) [
  | err e ↦ err e
  | ok values ↦ ok (key, values)
]

module _ {T : Type 0} (parts : List Bytes) (partition_key_of : T → Bytes) where
  abbrev pub Groups : Type 0
  Groups = Dict (List T) × Dict (List Bytes)

  abbrev pub after_valid :
      (Dict (List T) → Dict (List Bytes) → Result PartitionError Groups)
      → T
      → Dict (List T)
      → Dict (List Bytes)
      → Result PartitionError (Bytes × List Bytes)
      → Result PartitionError Groups
  after_valid go r groups values (err e) = err e
  after_valid go r groups values (ok (key, vs)) =
      go (put key (or_nil (lookup key groups) ++ (r ∷ [])) groups)
        (add_values key vs values (lookup key values))

  -- The loop over the records.
  unfoldable pub group_records :
      List T → Dict (List T) → Dict (List Bytes) → Result PartitionError Groups
  unfolding validate_partition_key
  group_records [] groups values = ok (groups, values)
  group_records (r ∷ records) groups values =
      after_valid (group_records records) r groups values
        (validate_partition_key parts (partition_key_of r))

  unfoldable pub task_of : Dict (List T) → Dict (List Bytes) → Bytes → Task T
  task_of groups values key = record {
    partition_key = key;
    part_values = or_nil (lookup key values);
    records = or_nil (lookup key groups);
  }

  abbrev pub sorted_tasks : Result PartitionError Groups → Result PartitionError (List (Task T))
  sorted_tasks (err e) = err e
  sorted_tasks (ok (groups, values)) =
      ok (map (task_of groups values) (sort by_name (keys_of groups)))

  -- The tasks, in the order of their keys.
  unfoldable pub write_tasks : List T → Result PartitionError (List (Task T))
  unfolding group_records task_of
  write_tasks records = sorted_tasks (group_records records [] [])
