-- ===== src/Pool/Slots.antt =====
-- pool/pool.go: no more tasks run than the pool has slots.
use s3pgstore.Base.{
  ℕ, suc, ◌+◌, ◌-◌, ◌≤◌, ◌<◌, ◌≡◌, refl, sym, ap, ◌∙◌, some, ◌++◌, arith, ◌==◌, Bool-cases, inl,
  inr,
}
use s3pgstore.Base.Family.{set, total, total-set, total-ext, total_of_zero}
use s3pgstore.Pool.{
  Group, Pool, admitted, ended, settled, Step, submit, release, settle, cancel, Reach, start, later,
}

module _ {E : Type 0} (n groups : ℕ) where
  abbrev running : Pool E → ℕ → ℕ
  running p g = (p.group g).in_flight

  -- A change of one group, by what it does to its tasks in flight.
  running-set :
      (p : Pool E) (g : ℕ) (x : Group E) (k : ℕ)
      → x.in_flight ≡ k
      → (j : ℕ) → (set g x p.group j).in_flight ≡ set g k (running p) j
  running-set p g x k e j = elim (Bool-cases (g == j)) [
    | inl here ↦ rw here e
    | inr there ↦ rw there refl
  ]

  -- The tasks in flight, after a change of one group.
  total-running :
      (p : Pool E) (g : ℕ) (x : Group E) (k : ℕ)
      → g < groups
      → x.in_flight ≡ k
      → total groups (λ j. (set g x p.group j).in_flight) + running p g
        ≡ total groups (running p) + k
  total-running p g x k inside e = omega (
    arith,
    total-ext groups (λ j. (set g x p.group j).in_flight) (set g k (running p))
        (running-set p g x k e),
    total-set groups g k (running p) inside,
  )

  -- A change that leaves the tasks in flight.
  total-kept :
      (p : Pool E) (g : ℕ) (x : Group E)
      → x.in_flight ≡ running p g
      → total groups (λ j. (set g x p.group j).in_flight) ≡ total groups (running p)
  total-kept p g x e =
      total-ext groups (λ j. (set g x p.group j).in_flight) (running p)
        (λ j. elim (Bool-cases (g == j)) [
          | inl here ↦ let same : g ≡ j = ground (arith, here) in rw here (e ∙ ap (running p) same)
          | inr there ↦ rw there refl
        ])

  Step-slots :
      (p q : Pool E)
      → (p.slots ≡ total groups (running p)) × (p.slots ≤ n)
      → Step n groups p q
      → (q.slots ≡ total groups (running q)) × (q.slots ≤ n)
  Step-slots p _ (held, le) (submit g inside room) =
      let t = total-running p g (admitted (p.group g)) (suc (running p g)) inside refl in
      (omega (arith, held, t), omega (arith, room))
  Step-slots p _ (held, le) (release g result inside some_task) =
      let t = total-running p g (ended result (p.group g)) (running p g - 1) inside refl in
      (omega (arith, held, t, some_task), omega (arith, le))
  Step-slots p _ (held, le) (settle g front back result e) =
      (held ∙ sym (total-kept p g (settled result (front ++ back) (p.group g)) refl), le)
  Step-slots p _ (held, le) (cancel g e none_yet) =
      (held ∙ sym (total-kept p g (record (p.group g) { parent_error = some e }) refl), le)

  -- Whatever the groups submit, and however their tasks end: the slots that are taken are as many as
  -- the tasks that run, in all groups together, and no more than the pool has.
  pub Reach-slots :
      (p : Pool E)
      → Reach n groups p
      → (p.slots ≡ total groups (λ g. (p.group g).in_flight)) × (p.slots ≤ n)
  Reach-slots _ start = (sym (total_of_zero groups), omega arith)
  Reach-slots _ (later {p = p} {q = q} r step) = Step-slots p q (Reach-slots p r) step
