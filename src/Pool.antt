-- ===== src/Pool.antt =====
-- pool/pool.go: the pool of slots that the groups of tasks share, each operation on a channel a step.
pub mod Slots
use s3pgstore.Base.{
  ℕ, zero, suc, ◌+◌, ◌-◌, ◌<◌, ◌≡◌, Bool, Option, none, some, List, [], ◌∷◌, ◌++◌, if◌then◌else◌,
  Result, ok, err,
}
use s3pgstore.Base.Int.{ℤ, pos, negsuc}
use s3pgstore.Base.Family.{set}

module _ (E : Type 0) where
  -- Group: its tasks that run; the results of those behind the release of their slot that the
  -- errgroup has not taken; the errgroup's first error, which cancels the group's context; and the
  -- error of the parent's context, when that is done.
  pub record Group : Type 0 where
    pub in_flight : ℕ
    pub ending : List (Option E)
    pub first_error : Option E
    pub parent_error : Option E

  -- Pool: the length of its channel, with the groups that are bound to it.
  pub record Pool : Type 0 where
    pub slots : ℕ
    pub group : ℕ → Group

-- New: the capacity of the channel, or an error with the limit that was given.
unfoldable pub new_pool : ℤ → Result ℤ ℕ
new_pool (pos zero) = err (pos zero)
new_pool (pos (suc n)) = ok (suc n)
new_pool (negsuc n) = err (negsuc n)

module _ {E : Type 0} where
  abbrev pub empty_group : Group E
  empty_group = record { in_flight = 0; ending = []; first_error = none; parent_error = none }

  abbrev pub empty_pool : Pool E
  empty_pool = record { slots = 0; group = λ g. empty_group }

  -- The errgroup keeps its first error.
  abbrev pub keep_first : Option E → Option E → Option E
  keep_first (some e) result = some e
  keep_first none result = result

  -- A task of the group is admitted, is behind the release of its slot, and is settled.
  abbrev pub admitted : Group E → Group E
  admitted x = record x { in_flight = suc x.in_flight }

  abbrev pub ended : Option E → Group E → Group E
  ended result x = record x { in_flight = x.in_flight - 1; ending = x.ending ++ (result ∷ []) }

  abbrev pub settled : Option E → List (Option E) → Group E → Group E
  settled result others x = record x {
    ending = others;
    first_error = keep_first x.first_error result;
  }

  pub data Step (n groups : ℕ) (p : Pool E) : Pool E → Type 0 where
    -- Submit takes a slot, and starts the task.
    submit :
        (g : ℕ)
        → g < groups
        → p.slots < n
        → Step n groups p
            (record p { slots = suc p.slots; group = set g (admitted (p.group g)) p.group })
    -- A task returns, with an error or none, or panics; its slot is released.
    release :
        (g : ℕ) (result : Option E)
        → g < groups
        → 0 < (p.group g).in_flight
        → Step n groups p
            (record p { slots = p.slots - 1; group = set g (ended result (p.group g)) p.group })
    -- The errgroup takes the result of one of those tasks.
    settle :
        (g : ℕ) (front back : List (Option E)) (result : Option E)
        → (p.group g).ending ≡ front ++ (result ∷ back)
        → Step n groups p
            (record p { group = set g (settled result (front ++ back) (p.group g)) p.group })
    -- The context of the group's parent is done.
    cancel :
        (g : ℕ) (e : E)
        → (p.group g).parent_error ≡ none
        → Step n groups p
            (record p { group = set g (record (p.group g) { parent_error = some e }) p.group })

  pub data Reach (n groups : ℕ) : Pool E → Type 0 where
    start : Reach n groups empty_pool
    later : {p q : Pool E} → Reach n groups p → Step n groups p q → Reach n groups q

  -- Wait, once all tasks of the group are settled.
  unfoldable pub wait_result : (E → Bool) → Group E → Option E
  wait_result is_canceled x = elim x.first_error [
    | none ↦ x.parent_error
    | some e ↦ if is_canceled e then keep_first x.parent_error (some e) else some e
  ]
