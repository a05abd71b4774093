-- ===== src/Pipeline/Ends.antt =====
-- read.go: every run of the goroutines of readFetchAndDecodeIter ends.
use s3pgstore.Base.{
  ℕ, suc, ◌+◌, ◌-◌, ◌*◌, ◌≤◌, ◌<◌, ◌≡◌, refl, ap, subst, Bool, true, false, arith, if◌then◌else◌,
  ◌==◌, Bool-cases, inl, inr,
}
use s3pgstore.Base.Family.{set, total, total-raised, total-lt, total-le, total-le_times}
use s3pgstore.Pipeline.{
  Shape, Stage, waiting, reserving, decoding, sending, failing, quit, Pipe, Step, acquire, advance,
  land, fail, give_up, excuse, mark, begin, reserve, decode, spoil, raise, finish, send, hand_over,
  leave, abandon, receive, go_on, break, cancel, stop, Reach, start, later,
}
use s3pgstore.Pipeline.Parts.{has_all, Holds}
use s3pgstore.Pipeline.Works.{set-elim}
use s3pgstore.Pipeline.Changes.{known_turn}
use s3pgstore.Pipeline.Invariant.{Reach-Holds}

abbrev rank : Stage → ℕ
rank waiting = 0
rank reserving = 1
rank decoding = 2
rank sending = 3
rank failing = 3
rank quit = 4

abbrev flag : Bool → ℕ
flag b = if b then 1 else 0

flag_le : (b : Bool) → flag b ≤ 1
flag_le true = omega arith
flag_le false = omega arith

rank_le : (a : Stage) → rank a ≤ 4
rank_le waiting = omega arith
rank_le reserving = omega arith
rank_le decoding = omega arith
rank_le sending = omega arith
rank_le failing = omega arith
rank_le quit = omega arith

-- How far the workers, and then the whole, have come.
abbrev labour : (ℕ → ℕ) → (ℕ → Stage) → ℕ → ℕ
labour at stage w = 5 * at w + rank (stage w)

abbrev progress : Shape → Pipe → ℕ
progress h s =
    s.fetching
    + total h.count s.started
    + total h.count s.landed
    + total h.count s.failed
    + total h.count s.recorded
    + total h.count s.marked
    + total h.count s.freed
    + total h.workers (labour s.at s.stage)
    + 2 * s.next
    + (1 - flag s.is_emitting)
    + flag s.is_cancelled
    + flag s.is_over

-- More than any state's progress: its partitions and files, and its workers on their way through
-- the partitions.
abbrev pub budget : Shape → ℕ
budget h = 3 * h.count + 6 * total h.count h.files + h.workers * (5 * (h.count + h.workers)) + 3

module _ (h : Shape) (some : 0 < h.workers) (strict : (p : ℕ) → h.times_out p ≡ false) where
  stage_labour :
      (at : ℕ → ℕ) (stage : ℕ → Stage) (w : ℕ) (a : Stage)
      → w < h.workers
      → rank (stage w) < rank a
      → total h.workers (labour at stage) < total h.workers (labour at (set w a stage))
  stage_labour at stage w a known more =
      total-lt h.workers w (labour at stage) (labour at (set w a stage)) known
        (λ v.
          set-elim (λ u b. 5 * at u + rank (stage u) ≤ 5 * at u + rank b) w a stage v
            (omega (arith, more)) (λ apart. omega arith))
        (set-elim (λ u b. 5 * at u + rank (stage u) < 5 * at u + rank b) w a stage w
          (omega (arith, more)) (λ apart. absurd (apart refl)))

  send_labour :
      (at : ℕ → ℕ) (stage : ℕ → Stage) (w : ℕ)
      → w < h.workers
      → stage w ≡ sending
      → total h.workers (labour at stage)
        < total h.workers (labour (set w (at w + h.workers) at) (set w waiting stage))
  send_labour at stage w known now =
      let on = set w (at w + h.workers) at in
      let here : labour at stage w < 5 * (at w + h.workers) = rw now (omega (arith, some)) in
      total-lt h.workers w (labour at stage) (labour on (set w waiting stage)) known
        (λ v. elim (Bool-cases (w == v)) [
          | inl e ↦
              let same : w ≡ v = ground (arith, e) in
              rw e (
                subst (λ u. labour at stage u ≤ 5 * (at w + h.workers) + 0) same
                  (omega (arith, here)))
          | inr e ↦ rw e (omega arith)
        ])
        (elim (Bool-cases (w == w)) [
          | inl e ↦ rw e (omega (arith, here))
          | inr e ↦ absurd (ground (arith, e))
        ])

  Step-progress : (s t : Pipe) → Holds h s → Step h s t → progress h s < progress h t
  Step-progress s _ i (acquire inside room slot) =
      omega (arith, total-raised h.count s.fetching s.started inside)
  Step-progress s _ i (advance inside full) = omega arith
  Step-progress s _ i (land p inside flying) = omega (arith, total-raised h.count p s.landed inside)
  Step-progress s _ i (fail p inside flying held) =
      omega (arith, total-raised h.count p s.failed inside)
  Step-progress s _ i (give_up p inside unrecorded) =
      omega (arith, total-raised h.count p s.recorded inside, flag_le s.is_cancelled)
  Step-progress s _ i (excuse p inside unrecorded excused) =
      omega (arith, total-raised h.count p s.recorded inside)
  Step-progress s _ i (mark p inside unmarked) =
      omega (arith, total-raised h.count p s.marked inside)
  Step-progress s _ i (begin w known now inside complete alive) =
      omega (arith, stage_labour s.at s.stage w reserving known (rw now (omega arith)))
  Step-progress s _ i (reserve w known now may) =
      omega (arith, stage_labour s.at s.stage w decoding known (rw now (omega arith)))
  Step-progress s _ i (decode w known now missing held) =
      let (_, inside) = i.working.ready w known (ap has_all now) in
      omega (arith, total-raised h.count (s.at w) s.freed inside)
  Step-progress s _ i (spoil w known now missing held) =
      let (_, inside) = i.working.ready w known (ap has_all now) in
      omega (
        arith,
        total-raised h.count (s.at w) s.freed inside,
        stage_labour s.at s.stage w failing known (rw now (omega arith)),
      )
  Step-progress s _ i (raise w known now) =
      omega (
        arith,
        flag_le s.is_cancelled,
        stage_labour s.at s.stage w quit known (rw now (omega arith)),
      )
  Step-progress s _ i (finish w known now whole) =
      omega (arith, stage_labour s.at s.stage w sending known (rw now (omega arith)))
  Step-progress s _ i (send w known now room) = omega (arith, send_labour s.at s.stage w known now)
  Step-progress s _ i (hand_over w turns now shown more resting running) =
      rw resting (omega (arith, send_labour s.at s.stage w (known_turn h some s w turns) now))
  Step-progress s _ i (leave w known gone idle) =
      let short : rank (s.stage w) < 4 = elim idle [
        | inl now ↦ rw now (omega arith)
        | inr now ↦ rw now (omega arith)
      ] in
      omega (arith, stage_labour s.at s.stage w quit known short)
  Step-progress s _ i (abandon w known gone now) =
      omega (arith, stage_labour s.at s.stage w quit known (rw now (omega arith)))
  Step-progress s _ i (receive w p rest turns shown more resting running) = rw resting (omega arith)
  Step-progress s _ i (go_on busy) = rw busy (omega arith)
  Step-progress s _ i (break busy) =
      rw busy (omega (arith, flag_le s.is_cancelled, flag_le s.is_over))
  Step-progress s _ i (cancel alive) = rw alive (omega arith)
  Step-progress s _ i (stop gone more resting running) = rw running (omega arith)

  -- The steps to a state are no more than its progress.
  Reach-progress : (k : ℕ) (s : Pipe) → Reach h k s → k ≤ progress h s
  Reach-progress _ _ start = omega arith
  Reach-progress (suc k) _ (later {s = s} {t = t} r step) =
      omega (arith, Reach-progress k s r, Step-progress s t (Reach-Holds h some strict k s r) step)

  -- No progress is beyond the budget.
  progress_le : (s : Pipe) → Holds h s → progress h s ≤ budget h
  progress_le s i = omega (
    arith,
    i.fetched.inside,
    i.sent.inside,
    total-le h.count s.started h.files (λ p less. i.fetched.within p),
    total-le h.count s.landed s.started (λ p less. omega (arith, i.downloads.ended p)),
    total-le h.count s.failed s.started (λ p less. omega (arith, i.downloads.ended p)),
    total-le h.count s.recorded s.failed (λ p less. i.downloads.noted p),
    total-le h.count s.marked s.recorded (λ p less. i.downloads.counted p),
    total-le h.count s.freed s.landed (λ p less. i.downloads.decoded p),
    total-le_times h.workers (5 * (h.count + h.workers)) (labour s.at s.stage)
        (λ w less. omega (arith, i.working.near w less, rank_le (s.stage w))),
    flag_le s.is_emitting,
    flag_le s.is_cancelled,
    flag_le s.is_over,
  )

  -- Every run of the goroutines ends, whatever their order: no state is reached in more steps than
  -- the budget of the read's partitions, files and workers. There is a worker at
  -- least, and a GET fails with an error of the context only when the context is done.
  pub Reach-length : (k : ℕ) (s : Pipe) → Reach h k s → k ≤ budget h
  Reach-length k s r =
      omega (arith, Reach-progress k s r, progress_le s (Reach-Holds h some strict k s r))
