-- ===== src/Tests/Fans.antt =====
-- Three records of two partitions.
use s3pgstore.Base.{List, [], ◌∷◌, Bytes, codes}
use s3pgstore.Fanout.{write_tasks}
use s3pgstore.Fanout.Tasks.{AreTasks, write_tasks-AreTasks}

abbrev keyed_records : List (Bytes × Bytes)
keyed_records =
    (codes "day=2", codes "a") ∷ (codes "day=1", codes "b") ∷ (codes "day=2", codes "c") ∷ []

write_tasks-AreTasks_example :
    AreTasks
      (codes "day" ∷ [])
      (λ (r : Bytes × Bytes). r.0)
      keyed_records
      (write_tasks (codes "day" ∷ []) (λ r. r.0) keyed_records)
write_tasks-AreTasks_example =
    write_tasks-AreTasks (codes "day" ∷ []) (λ (r : Bytes × Bytes). r.0) keyed_records
