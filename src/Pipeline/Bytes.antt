-- ===== src/Pipeline/Bytes.antt =====
-- read.go and iter_pipeline_shared.go: the bytes that the budgets of the decode workers account,
-- through the steps of the goroutines.
use s3pgstore.Base.{
  ℕ, ◌+◌, ◌≡◌, ◌⊎◌, subst, true, false, List, [], ◌∷◌, ◌++◌, arith, ◌==◌, Bool-cases, inl, inr,
}
use s3pgstore.Base.Family.{set, added}
use s3pgstore.Pipeline.{
  Shape, waiting, reserving, decoding, sending, failing, quit, Pipe, charge, unreserved, taken,
}
use s3pgstore.Pipeline.Parts.{bytes_of-append, IsAccounted}

-- What holds of every worker, from that it holds of one and of the others.
each_worker : (P : ℕ → Type 0) (i : ℕ) → P i → ((w : ℕ) → (i == w) ≡ false → P w) → (w : ℕ) → P w
each_worker P i here there w = elim (Bool-cases (i == w)) [
  | inl e ↦ let same : i ≡ w = ground (arith, e) in subst P same here
  | inr e ↦ there w e
]

module _ (h : Shape) (s : Pipe) where
  abbrev Before : Type 0
  Before = (w : ℕ) → IsAccounted h s w

  pub begin-IsAccounted :
      (w : ℕ)
      → s.stage w ≡ waiting
      → Before
      → (v : ℕ) → IsAccounted h (record s { stage = set w reserving s.stage }) v
  begin-IsAccounted w now b =
      each_worker (IsAccounted h (record s { stage = set w reserving s.stage })) w
        (λ capped. ground (arith, b w capped, now)) (λ v e capped. ground (arith, b v capped, e))

  pub reserve-IsAccounted :
      (w : ℕ)
      → s.stage w ≡ reserving
      → Before
      → (v : ℕ)
      → IsAccounted h
          (record s {
            stage = set w decoding s.stage;
            reserved = added w (charge h (s.at w)) s.reserved;
          })
          v
  reserve-IsAccounted w now b =
      each_worker
        (IsAccounted h (record s {
          stage = set w decoding s.stage;
          reserved = added w (charge h (s.at w)) s.reserved;
        }))
        w (λ capped. ground (arith, b w capped, now)) (λ v e capped. ground (arith, b v capped, e))

  pub spoil-IsAccounted :
      (w : ℕ)
      → s.stage w ≡ decoding
      → Before
      → (v : ℕ) → IsAccounted h (record s { stage = set w failing s.stage }) v
  spoil-IsAccounted w now b =
      each_worker (IsAccounted h (record s { stage = set w failing s.stage })) w
        (λ capped. ground (arith, b w capped, now)) (λ v e capped. ground (arith, b v capped, e))

  pub finish-IsAccounted :
      (w : ℕ)
      → s.stage w ≡ decoding
      → Before
      → (v : ℕ) → IsAccounted h (record s { stage = set w sending s.stage }) v
  finish-IsAccounted w now b =
      each_worker (IsAccounted h (record s { stage = set w sending s.stage })) w
        (λ capped. ground (arith, b w capped, now)) (λ v e capped. ground (arith, b v capped, e))

  pub raise-IsAccounted :
      (w : ℕ)
      → s.stage w ≡ failing
      → Before
      → (v : ℕ)
      → IsAccounted h (record (unreserved h w (s.at w) s) { stage = set w quit s.stage }) v
  raise-IsAccounted w now b =
      each_worker
        (IsAccounted h (record (unreserved h w (s.at w) s) { stage = set w quit s.stage })) w
        (λ capped. ground (arith, b w capped, now)) (λ v e capped. ground (arith, b v capped, e))

  pub abandon-IsAccounted :
      (w : ℕ)
      → s.stage w ≡ sending
      → Before
      → (v : ℕ)
      → IsAccounted h (record (unreserved h w (s.at w) s) { stage = set w quit s.stage }) v
  abandon-IsAccounted w now b =
      each_worker
        (IsAccounted h (record (unreserved h w (s.at w) s) { stage = set w quit s.stage })) w
        (λ capped. ground (arith, b w capped, now)) (λ v e capped. ground (arith, b v capped, e))

  pub leave-IsAccounted :
      (w : ℕ)
      → (s.stage w ≡ waiting) ⊎ (s.stage w ≡ reserving)
      → Before
      → (v : ℕ) → IsAccounted h (record s { stage = set w quit s.stage }) v
  leave-IsAccounted w idle b =
      each_worker (IsAccounted h (record s { stage = set w quit s.stage })) w
        (λ capped. elim idle [
          | inl now ↦ ground (arith, b w capped, now)
          | inr now ↦ ground (arith, b w capped, now)
        ])
        (λ v e capped. ground (arith, b v capped, e))

  pub send-IsAccounted :
      (w : ℕ)
      → s.stage w ≡ sending
      → Before
      → (v : ℕ)
      → IsAccounted h
          (record s {
            queue = set w (s.queue w ++ (s.at w ∷ [])) s.queue;
            at = set w (s.at w + h.workers) s.at;
            stage = set w waiting s.stage;
          })
          v
  send-IsAccounted w now b =
      each_worker
        (IsAccounted h (record s {
          queue = set w (s.queue w ++ (s.at w ∷ [])) s.queue;
          at = set w (s.at w + h.workers) s.at;
          stage = set w waiting s.stage;
        }))
        w (λ capped. ground (arith, b w capped, now, bytes_of-append h.bytes (s.queue w) (s.at w)))
        (λ v e capped. ground (arith, b v capped, e))

  pub hand_over-IsAccounted :
      (w : ℕ)
      → s.stage w ≡ sending
      → s.is_emitting ≡ false
      → Before
      → (v : ℕ)
      → IsAccounted h
          (record (taken s w (s.at w)) {
            at = set w (s.at w + h.workers) s.at;
            stage = set w waiting s.stage;
          })
          v
  hand_over-IsAccounted w now resting b =
      each_worker
        (IsAccounted h (record (taken s w (s.at w)) {
          at = set w (s.at w + h.workers) s.at;
          stage = set w waiting s.stage;
        }))
        w (λ capped. ground (arith, b w capped, now, resting))
        (λ v e capped. ground (arith, b v capped, e, resting))

  pub receive-IsAccounted :
      (w p : ℕ) (rest : List ℕ)
      → s.queue w ≡ p ∷ rest
      → s.is_emitting ≡ false
      → Before
      → (v : ℕ) → IsAccounted h (record (taken s w p) { queue = set w rest s.queue }) v
  receive-IsAccounted w p rest shown resting b =
      each_worker (IsAccounted h (record (taken s w p) { queue = set w rest s.queue })) w
        (λ capped. ground (arith, b w capped, shown, resting))
        (λ v e capped. ground (arith, b v capped, e, resting))

  pub give_back-IsAccounted :
      s.is_emitting ≡ true
      → Before
      → (v : ℕ) → IsAccounted h (record (unreserved h s.worker s.part s) { is_emitting = false }) v
  give_back-IsAccounted busy b =
      each_worker (IsAccounted h (record (unreserved h s.worker s.part s) { is_emitting = false }))
        s.worker (λ capped. ground (arith, b s.worker capped, busy))
        (λ v e capped. ground (arith, b v capped, e, busy))
