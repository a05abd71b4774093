-- ===== src/Sequencer/Drain.antt =====
-- The rounds of drainAll: those of a sequencer that is alone, and those among writers.
use s3pgstore.Base.{
  ℕ, ◌+◌, ◌<◌, ◌≡◌, refl, Option, some, List, [], ◌∷◌, arith, if◌then◌else◌, ltb, Result, ok, err,
  All, Bool-cases, inl, inr, count_if, length,
}
use s3pgstore.Catalog.Tables.{Tables}
use s3pgstore.Catalog.Feed.{assign_feed_seq, unsequenced}
use s3pgstore.Catalog.Feed.Dense.{assign-IsDense, assign-count, assign-unsequenced}
use s3pgstore.Sequencer.{
  committed, SequencerError, run_once_with_metrics, Round, drain_next, drain_all,
}
use s3pgstore.Sequencer.Feed.{Feeds, Extends, run_once_with_metrics-Extends}

-- A round whose transaction commits while no writer does.
abbrev pub IsQuiet : Round → Type 0
IsQuiet r = (r.outcome ≡ committed) × ((t : Tables) → r.others t ≡ t)

drain_step :
    (r : Round) (rounds : List Round) (batch : ℕ) (t : Tables)
    → IsQuiet r
    → drain_all (r ∷ rounds) batch t ≡ (
        if ltb (assign_feed_seq batch r.now t).0 batch
        then (some (ok tt), (assign_feed_seq batch r.now t).1)
        else drain_all rounds batch (assign_feed_seq batch r.now t).1)
unfolding drain_all
drain_step r rounds batch t (done, alone) = rw (done, alone t)

-- With transactions that commit and no writer in between, a drain with more rounds than there are
-- unsequenced rows ends without an error, and leaves no row unsequenced.
pub drain_all_total :
    (rounds : List Round) (batch top : ℕ) (t : Tables)
    → 0 < batch
    → All IsQuiet rounds
    → Feeds top t
    → count_if unsequenced t.files < length rounds
    → ((drain_all rounds batch t).0 ≡ some (ok tt))
      × (count_if unsequenced (drain_all rounds batch t).1.files ≡ 0)
drain_all_total [] batch top t pos quiet h enough = absurd (omega arith)
drain_all_total (r ∷ rounds) batch top t pos (q, quiet) (unique, dense) enough =
    let (later, same) = assign-IsDense batch r.now top t unique dense in
    rw (drain_step r rounds batch t q)
      (elim (Bool-cases (ltb (assign_feed_seq batch r.now t).0 batch)) [
        | inl last ↦ rw last (
          refl,
          ground (arith, last, assign-count batch r.now t, assign-unsequenced batch r.now t unique),
        )
        | inr more ↦ rw more (
            drain_all_total rounds batch (top + (assign_feed_seq batch r.now t).0)
              (assign_feed_seq batch r.now t).1 pos quiet (same, later)
              (ground (arith, more, assign-unsequenced batch r.now t unique)))
      ])

-- The writers in between keep the feed: they add rows and number none.
abbrev pub IsPolite : Round → Type 0
IsPolite r = (top : ℕ) (t : Tables) → Feeds top t → Extends top t (r.others t)

Extends-trans : (top : ℕ) (t u v : Tables) (e : Extends top t u) → Extends e.0 u v → Extends top t v
Extends-trans top t u v (mid, le, f, keeps) (top', le', f', keeps') =
    (top', omega arith, f', (λ id q. omega (arith, keeps id q, keeps' id q)))

drain_next-Extends :
    (result : Result SequencerError ℕ) (batch top : ℕ) (t u : Tables)
    (rest : Option (Result SequencerError Unit) × Tables)
    → Extends top t u
    → Extends top t rest.1
    → Extends top t (drain_next result batch u rest).1
unfolding drain_next
drain_next-Extends (err e) batch top t u rest here later = here
drain_next-Extends (ok n) batch top t u rest here later = elim (Bool-cases (ltb n batch)) [
  | inl last ↦ rw last here
  | inr more ↦ rw more later
]

-- However the transactions of a drain end, and whatever rows the writers add in between, the feed
-- behind it is dense up to a top no lower than before, and a row that had a number keeps it.
pub drain_all-Extends :
    (rounds : List Round) (batch top : ℕ) (t : Tables)
    → All IsPolite rounds
    → Feeds top t
    → Extends top t (drain_all rounds batch t).1
drain_all-Extends [] batch top t polite h =
    unfold drain_all in (top, omega arith, h, (λ id q. omega arith))
drain_all-Extends (r ∷ rounds) batch top t (p, polite) h =
    let u = r.others t in
    let waited : Extends top t u = p top t h in
    let ran : Extends waited.0 u (run_once_with_metrics r.outcome r.now batch u).1 =
      run_once_with_metrics-Extends r.outcome r.now batch waited.0 u waited.2 in
    let v = (run_once_with_metrics r.outcome r.now batch u).1 in
    let here : Extends top t v = Extends-trans top t u v waited ran in
    drained r rounds batch top t here (
      Extends-trans top t v (drain_all rounds batch v).1 here
        (drain_all-Extends rounds batch here.0 v polite here.2))
  where
    drained :
        (r : Round) (rounds : List Round) (batch top : ℕ) (t : Tables)
        → Extends top t (run_once_with_metrics r.outcome r.now batch (r.others t)).1
        → Extends top t
            (drain_all rounds batch (run_once_with_metrics r.outcome r.now batch (r.others t)).1).1
        → Extends top t (drain_all (r ∷ rounds) batch t).1
    drained r rounds batch top t here later =
        let v = run_once_with_metrics r.outcome r.now batch (r.others t) in
        unfold drain_all in
        drain_next-Extends v.0 batch top t v.1 (drain_all rounds batch v.1) here later
