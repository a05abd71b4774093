-- ===== src/Fanout/Tasks.antt =====
-- write.go, Write: what the tasks hold.
use s3pgstore.Base.{
  ◌≡◌, refl, sym, ap, subst, ◌∙◌, Bool, true, List, [], ◌∷◌, ◌++◌, arith, if◌then◌else◌, Bytes,
  bytes_eq, any, keep, count_if, Result, ok, err, All, All-map,
}
use s3pgstore.Base.Dict.{Dict, lookup, put}
use s3pgstore.Base.Groups.{
  or_nil, keys_of, group_into, has_group_key, lookup-group_into, count_if-groups, keys-All,
}
use s3pgstore.Base.Keyed.{by_name, map-All, map-IsSorted, count_if-map}
use s3pgstore.Base.Orders.{bytes_order}
use s3pgstore.Base.Sorting.{sort, by, IsSorted, sort-IsSorted, count_if-sort, All-sort}
use s3pgstore.Partition.{PartitionError, partition_key_values}
use s3pgstore.Fanout.{
  Task, add_values, validate_partition_key, Groups, after_valid, group_records, task_of,
  sorted_tasks, write_tasks,
}
use s3pgstore.Fanout.Values.{
  is_err, HasValues, AreValues, validate_partition_key_sound, validate_partition_key_refused,
  add_values-HasValues,
}

module _ {T : Type 0} (parts : List Bytes) (key_of : T → Bytes) where
  -- The key of some record is refused.
  abbrev pub RefusesSome : List T → Type 0
  RefusesSome records = any (λ r. is_err (partition_key_values (key_of r) parts)) records ≡ true

  -- What the loop returns: the groups of the records, and the values of each of their keys.
  IsGrouped :
      List T
      → Dict (List T)
      → Dict (List Bytes)
      → Result PartitionError (Groups parts key_of)
      → Type 0
  IsGrouped records groups values (err e) = RefusesSome records
  IsGrouped records groups values (ok (gs, vs)) =
      (gs ≡ group_into key_of records groups)
      × AreValues parts vs
      × All (λ r. HasValues parts vs (key_of r)) records
      × ((k : Bytes) → HasValues parts values k → HasValues parts vs k)

  cons-IsGrouped :
      (r : T) (records : List T) (groups : Dict (List T)) (values : Dict (List Bytes))
      (vs : List Bytes) (res : Result PartitionError (Groups parts key_of))
      → partition_key_values (key_of r) parts ≡ ok vs
      → AreValues parts values
      → IsGrouped records
          (put (key_of r) (or_nil (lookup (key_of r) groups) ++ (r ∷ [])) groups)
          (add_values (key_of r) vs values (lookup (key_of r) values))
          res
      → IsGrouped (r ∷ records) groups values res
  unfolding IsGrouped group_into
  cons-IsGrouped r records groups values vs (err e) p h d = ground (arith, d)
  cons-IsGrouped r records groups values vs (ok (gs, ws)) p h (e, sound, all, keeps) =
      let (new, _, old) = add_values-HasValues parts values (key_of r) vs _ refl p h in
      (e, sound, (keeps (key_of r) new, all), (λ k before. keeps k (old k before)))

  after_valid-IsGrouped :
      (go : Dict (List T) → Dict (List Bytes) → Result PartitionError (Groups parts key_of)) (r : T)
      (records : List T) (groups : Dict (List T)) (values : Dict (List Bytes))
      → AreValues parts values
      → ((gs : Dict (List T)) (vs : Dict (List Bytes))
          → AreValues parts vs
          → IsGrouped records gs vs (go gs vs))
      → (v : Result PartitionError (Bytes × List Bytes))
      → ((k : Bytes) (vs : List Bytes)
          → v ≡ ok (k, vs)
          → (k ≡ key_of r) × (partition_key_values (key_of r) parts ≡ ok vs))
      → ((x : PartitionError) → v ≡ err x → is_err (partition_key_values (key_of r) parts) ≡ true)
      → IsGrouped (r ∷ records) groups values (after_valid parts key_of go r groups values v)
  after_valid-IsGrouped go r records groups values h later (err e) sound refused =
      unfold IsGrouped in ground (arith, refused e refl)
  after_valid-IsGrouped go r records groups values h later (ok (k, vs)) sound refused =
      let (same, p) = sound k vs refl in
      subst
        (λ j.
          IsGrouped (r ∷ records) groups values
            (after_valid parts key_of go r groups values (ok (j, vs))))
        (sym same)
        (cons-IsGrouped r records groups values vs _ p h
          (later _ _ (add_values-HasValues parts values (key_of r) vs _ refl p h).1))

  group_records-IsGrouped :
      (records : List T) (groups : Dict (List T)) (values : Dict (List Bytes))
      → AreValues parts values
      → IsGrouped records groups values (group_records parts key_of records groups values)
  unfolding group_records IsGrouped group_into
  group_records-IsGrouped [] groups values h = (refl, h, tt, (λ k old. old))
  group_records-IsGrouped (r ∷ records) groups values h =
      after_valid-IsGrouped (group_records parts key_of records) r records groups values h
        (λ gs vs. group_records-IsGrouped records gs vs) (validate_partition_key parts (key_of r))
        (λ k vs e. validate_partition_key_sound parts (key_of r) k vs e)
        (λ x e. validate_partition_key_refused parts (key_of r) x e)

  -- The task has the records with its key, in their order, and the values that the key gives.
  abbrev pub IsTask : List T → Task T → Type 0
  IsTask records t =
      (t.records ≡ keep (has_group_key key_of t.partition_key) records)
      × (partition_key_values t.partition_key parts ≡ ok t.part_values)

  abbrev pub by_task_key : Task T → Task T → Bool
  by_task_key = by bytes_order (λ t. t.partition_key)

  -- Every task is of its key, they stand in the order of their keys, and each key that a record has
  -- is there once; an error says that some key is refused.
  unfoldable pub AreTasks : List T → Result PartitionError (List (Task T)) → Type 0
  AreTasks records (err e) = RefusesSome records
  AreTasks records (ok ts) =
      All (IsTask records) ts
      × IsSorted by_task_key ts
      × ((k : Bytes)
          → count_if (λ t. bytes_eq k t.partition_key) ts
            ≡ (if any (has_group_key key_of k) records then 1 else 0))

  key-task_of :
      (gs : Dict (List T)) (vs : Dict (List Bytes)) (k : Bytes)
      → (task_of parts key_of gs vs k).partition_key ≡ k
  unfolding task_of
  key-task_of gs vs k = refl

  task_of-IsTask :
      (records : List T) (gs : Dict (List T)) (vs : Dict (List Bytes)) (k : Bytes)
      → gs ≡ group_into key_of records []
      → HasValues parts vs k
      → IsTask records (task_of parts key_of gs vs k)
  unfolding task_of lookup
  task_of-IsTask records gs vs k e (ws, l, p) = (
    ap (λ g. or_nil (lookup k g)) e ∙ lookup-group_into key_of k records [],
    p ∙ ap (λ o. ok (or_nil o)) (sym l),
  )

  sorted_tasks-AreTasks :
      (records : List T) (r : Result PartitionError (Groups parts key_of))
      → IsGrouped records [] [] r
      → AreTasks records (sorted_tasks parts key_of r)
  unfolding IsGrouped AreTasks
  sorted_tasks-AreTasks records (err e) h = h
  sorted_tasks-AreTasks records (ok (gs, vs)) (e, sound, all, keeps) =
      let known : All (HasValues parts vs) (keys_of gs) =
        subst (λ g. All (HasValues parts vs) (keys_of g)) (sym e)
          (keys-All key_of (HasValues parts vs) records [] all tt) in
      (
        map-All (task_of parts key_of gs vs) (IsTask records) (sort by_name (keys_of gs)) (
            All-map (λ k has. task_of-IsTask records gs vs k e has) _
              (All-sort by_name (HasValues parts vs) (keys_of gs) known)),
        map-IsSorted (task_of parts key_of gs vs) (λ t. t.partition_key) (key-task_of gs vs)
            (sort by_name (keys_of gs)) (sort-IsSorted bytes_order (λ k. k) (keys_of gs)),
        λ k.
            count_if-map (task_of parts key_of gs vs) (λ t. t.partition_key) (key-task_of gs vs) k
              (sort by_name (keys_of gs))
            ∙ count_if-sort by_name (bytes_eq k) (keys_of gs)
            ∙ ap (λ g. count_if (bytes_eq k) (keys_of g)) e
            ∙ count_if-groups key_of k records,
      )

  -- Write has one task for each key that a record has, in the order of the keys, or an error, and
  -- then the key of some record is refused. A task has all the records with its key, in their order,
  -- and the values of the key.
  pub write_tasks-AreTasks :
      (records : List T) → AreTasks records (write_tasks parts key_of records)
  unfolding write_tasks
  write_tasks-AreTasks records =
      sorted_tasks-AreTasks records (group_records parts key_of records [] [])
        (group_records-IsGrouped records [] [] (unfold lookup in (λ k vs e. cc)))
