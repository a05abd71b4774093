-- ===== src/Tests/Pools.antt =====
-- A run of two groups on a pool with a slot, and the witness of the theorem about it.
use s3pgstore.Base.{ℕ, ◌≤◌, ◌≡◌, refl, false, some, [], arith}
use s3pgstore.Base.Family.{set, total}
use s3pgstore.Pool.{
  Pool, empty_group, admitted, ended, settled, submit, release, settle, Reach, start, later,
  wait_result,
}
use s3pgstore.Pool.Slots.{Reach-slots}

abbrev busy : Pool ℕ
busy = record { slots = 1; group = set 0 (admitted empty_group) (λ g. empty_group) }

abbrev free : Pool ℕ
free = record { slots = 0; group = set 0 (ended (some 7) (busy.group 0)) busy.group }

abbrev told : Pool ℕ
told = record { slots = 0; group = set 0 (settled (some 7) [] (free.group 0)) free.group }

abbrev run : Reach 1 2 told
run =
    let r1 : Reach 1 2 busy = later start (submit 0 (omega arith) (omega arith)) in
    let r2 : Reach 1 2 free = later r1 (release 0 (some 7) (omega arith) (omega arith)) in
    later r2 (settle 0 [] [] (some 7) refl)

waited : wait_result (λ e. false) (told.group 0) ≡ some 7
unfolding wait_result
waited = refl

Reach-slots_example : (told.slots ≡ total 2 (λ g. (told.group g).in_flight)) × (told.slots ≤ 1)
Reach-slots_example = Reach-slots 1 2 told run
