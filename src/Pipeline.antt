-- ===== src/Pipeline.antt =====
-- read.go and iter_pipeline_shared.go: readFetchAndDecodeIter, as a machine whose steps are those of
-- its goroutines, in any order.
pub mod Rounds
pub mod Parts
pub mod Keeps
pub mod Works
pub mod Queues
pub mod Bytes
pub mod Changes
pub mod Steps
pub mod Invariant
pub mod Moves
pub mod Ends
pub mod Call
use s3pgstore.Base.{
  ℕ, zero, suc, ◌+◌, ◌-◌, ◌%◌, ◌≤◌, ◌<◌, ◌≡◌, if◌then◌else◌, ltb, ◌⊎◌, Bool, true, false, List, [],
  ◌∷◌, ◌++◌, length,
}
use s3pgstore.Base.Family.{set, raised, added}

-- What is fixed before the goroutines start: the number of partitions, of the files of each and of
-- its uncompressed bytes, bodyCap, decodeWorkers, decodeAheadPartitions and decodeAheadBytes, with
-- 0 for a byte cap that is not positive. `times_out` tells of which partitions a GET may
-- fail, while the context is alive, with an error that isCtxErr takes for the context's.
pub record Shape : Type 0 where
  pub count : ℕ
  pub files : ℕ → ℕ
  pub bytes : ℕ → ℕ
  pub cap : ℕ
  pub workers : ℕ
  pub depth : ℕ
  pub byte_cap : ℕ
  pub times_out : ℕ → Bool

-- Where a decode worker is in its loop: at waitForPartition, in reserveBytes, in decodePartition, at
-- sendBatch, behind a body that does not decode, or returned.
pub data Stage : Type 0 where
  waiting reserving decoding sending failing quit : Stage

-- The fetcher is at `fetching`; of each partition, `started` files have a slot, `landed` have a
-- body, `failed` have an error, of which `recorded` are behind recordHardErr and `marked` have
-- been counted, and `freed` have been decoded. `occupied` is the length of slotCh. A worker is
-- `at` a partition; its bufferedBytes are the bytes that were `reserved` less those `given_back`.
-- The emit loop waits for `next`, or hands out `part`, which it took from the queue of `worker`.
pub record Pipe : Type 0 where
  pub fetching : ℕ
  pub started : ℕ → ℕ
  pub landed : ℕ → ℕ
  pub failed : ℕ → ℕ
  pub recorded : ℕ → ℕ
  pub marked : ℕ → ℕ
  pub freed : ℕ → ℕ
  pub occupied : ℕ
  pub at : ℕ → ℕ
  pub stage : ℕ → Stage
  pub queue : ℕ → List ℕ
  pub reserved : ℕ → ℕ
  pub given_back : ℕ → ℕ
  pub worker : ℕ
  pub part : ℕ
  pub next : ℕ
  pub emitted : List ℕ
  pub is_emitting : Bool
  pub is_cancelled : Bool
  pub is_over : Bool

abbrev pub init : Pipe
init = record {
  fetching = 0;
  started = λ p. 0;
  landed = λ p. 0;
  failed = λ p. 0;
  recorded = λ p. 0;
  marked = λ p. 0;
  freed = λ p. 0;
  occupied = 0;
  at = λ w. w;
  stage = λ w. waiting;
  queue = λ w. [];
  reserved = λ w. 0;
  given_back = λ w. 0;
  worker = 0;
  part = 0;
  next = 0;
  emitted = [];
  is_emitting = false;
  is_cancelled = false;
  is_over = false;
}

-- bodySlots.acquire: there is room in slotCh.
abbrev pub HasRoom : Shape → Pipe → Type 0
HasRoom h s = s.occupied < h.cap

-- bodySlots.release.
abbrev pub released : Pipe → Pipe
released s = record s { occupied = s.occupied - 1 }

-- recordHardErr.
abbrev pub cancelled : Pipe → Pipe
cancelled s = record s { is_cancelled = true }

-- The files of a partition that markComplete has counted, with a body or without.
abbrev pub completed : Pipe → ℕ → ℕ
completed s p = s.landed p + s.marked p

-- The channel `done` of a partition is closed: its last file is counted.
abbrev pub IsDone : Shape → Pipe → ℕ → Type 0
IsDone h s p = (0 < h.files p) × (completed s p ≡ h.files p)

-- The bytes that reserveBytes accounts for a partition: none without a cap.
abbrev pub charge : Shape → ℕ → ℕ
charge h p = if ltb 0 h.byte_cap then h.bytes p else 0

-- reserveBytes returns nil: there is nothing to account and the context is alive, the buffer is
-- empty, or the bytes fit.
abbrev pub MayReserve : Shape → Pipe → ℕ → Type 0
MayReserve h s w =
    ((charge h (s.at w) ≡ 0) × (s.is_cancelled ≡ false))
    ⊎ ((0 < charge h (s.at w))
        × ((s.reserved w ≤ s.given_back w)
            ⊎ (s.reserved w + h.bytes (s.at w) ≤ s.given_back w + h.byte_cap)))

-- releaseBytes, for a partition, on the budget of a worker: with no cap as well.
abbrev pub unreserved : Shape → ℕ → ℕ → Pipe → Pipe
unreserved h w p s = record s { given_back = added w (h.bytes p) s.given_back }

-- The emit loop has taken the partition `p` from the queue of `w`.
abbrev pub taken : Pipe → ℕ → ℕ → Pipe
taken s w p = record s {
  next = suc s.next;
  emitted = s.emitted ++ (p ∷ []);
  is_emitting = true;
  worker = w;
  part = p;
}

pub data Step (h : Shape) (s : Pipe) : Pipe → Type 0 where
  -- runFetcher: a slot for the next file of its partition, with the task submitted to the pool:
  -- the wait of Submit for a slot of the pool is part of the step.
  acquire :
      s.fetching < h.count
      → s.started s.fetching < h.files s.fetching
      → HasRoom h s
      → Step h s (record s { started = raised s.fetching s.started; occupied = suc s.occupied })
  -- The fetcher goes on to the next partition.
  advance :
      s.fetching < h.count
      → s.started s.fetching ≡ h.files s.fetching
      → Step h s (record s { fetching = suc s.fetching })
  -- A GET succeeds: markComplete with the body.
  land :
      (p : ℕ)
      → p < h.count
      → s.landed p + s.failed p < s.started p
      → Step h s (record s { landed = raised p s.landed })
  -- A GET fails: its slot is released.
  fail :
      (p : ℕ)
      → p < h.count
      → s.landed p + s.failed p < s.started p
      → 0 < s.occupied
      → Step h s (record (released s) { failed = raised p s.failed })
  -- recordHardErr cancels.
  give_up :
      (p : ℕ)
      → p < h.count
      → s.recorded p < s.failed p
      → Step h s (record (cancelled s) { recorded = raised p s.recorded })
  -- isCtxErr: an error of the context is not recorded.
  excuse :
      (p : ℕ)
      → p < h.count
      → s.recorded p < s.failed p
      → (s.is_cancelled ≡ true) ⊎ (h.times_out p ≡ true)
      → Step h s (record s { recorded = raised p s.recorded })
  -- markComplete without a body, behind recordHardErr.
  mark :
      (p : ℕ)
      → p < h.count
      → s.marked p < s.recorded p
      → Step h s (record s { marked = raised p s.marked })
  -- waitForPartition returns nil: every file is counted, one at least, and the context is alive.
  begin :
      (w : ℕ)
      → w < h.workers
      → s.stage w ≡ waiting
      → s.at w < h.count
      → IsDone h s (s.at w)
      → s.is_cancelled ≡ false
      → Step h s (record s { stage = set w reserving s.stage })
  -- reserveBytes, when its wait is over.
  reserve :
      (w : ℕ)
      → w < h.workers
      → s.stage w ≡ reserving
      → MayReserve h s w
      → Step h s (record s {
        stage = set w decoding s.stage;
        reserved = added w (charge h (s.at w)) s.reserved;
      })
  -- decodePartition: a body is decoded, and its slot released.
  decode :
      (w : ℕ)
      → w < h.workers
      → s.stage w ≡ decoding
      → s.freed (s.at w) < s.landed (s.at w)
      → 0 < s.occupied
      → Step h s (record (released s) { freed = raised (s.at w) s.freed })
  -- A body does not decode: its slot is released as well.
  spoil :
      (w : ℕ)
      → w < h.workers
      → s.stage w ≡ decoding
      → s.freed (s.at w) < s.landed (s.at w)
      → 0 < s.occupied
      → Step h s
          (record (released s) { freed = raised (s.at w) s.freed; stage = set w failing s.stage })
  -- The worker gives its bytes back and returns the error, and recordHardErr cancels.
  raise :
      (w : ℕ)
      → w < h.workers
      → s.stage w ≡ failing
      → Step h s (record (cancelled (unreserved h w (s.at w) s)) { stage = set w quit s.stage })
  -- The last body that is there is decoded: sortAndDedup, and on to sendBatch.
  finish :
      (w : ℕ)
      → w < h.workers
      → s.stage w ≡ decoding
      → s.freed (s.at w) ≡ s.landed (s.at w)
      → Step h s (record s { stage = set w sending s.stage })
  -- sendBatch into the buffer, and on to the worker's next partition.
  send :
      (w : ℕ)
      → w < h.workers
      → s.stage w ≡ sending
      → length (s.queue w) < h.depth
      → Step h s (record s {
        queue = set w (s.queue w ++ (s.at w ∷ [])) s.queue;
        at = set w (s.at w + h.workers) s.at;
        stage = set w waiting s.stage;
      })
  -- sendBatch to the emit loop that waits at the empty queue.
  hand_over :
      (w : ℕ)
      → w ≡ s.next % h.workers
      → s.stage w ≡ sending
      → s.queue w ≡ []
      → s.next < h.count
      → s.is_emitting ≡ false
      → s.is_over ≡ false
      → Step h s (record (taken s w (s.at w)) {
        at = set w (s.at w + h.workers) s.at;
        stage = set w waiting s.stage;
      })
  -- The context is done, and a worker that waits for its partition or for bytes returns.
  leave :
      (w : ℕ)
      → w < h.workers
      → s.is_cancelled ≡ true
      → (s.stage w ≡ waiting) ⊎ (s.stage w ≡ reserving)
      → Step h s (record s { stage = set w quit s.stage })
  -- The context is done, and a worker that sends gives its bytes back and returns.
  abandon :
      (w : ℕ)
      → w < h.workers
      → s.is_cancelled ≡ true
      → s.stage w ≡ sending
      → Step h s (record (unreserved h w (s.at w) s) { stage = set w quit s.stage })
  -- The emit loop receives from the queue of its partition's worker.
  receive :
      (w p : ℕ) (rest : List ℕ)
      → w ≡ s.next % h.workers
      → s.queue w ≡ p ∷ rest
      → s.next < h.count
      → s.is_emitting ≡ false
      → s.is_over ≡ false
      → Step h s (record (taken s w p) { queue = set w rest s.queue })
  -- emitOne returns, and the bytes of its partition are given back; it has returned true, or false,
  -- which ends the loop and cancels.
  go_on :
      s.is_emitting ≡ true
      → Step h s (record (unreserved h s.worker s.part s) { is_emitting = false })
  break :
      s.is_emitting ≡ true
      → Step h s (record (cancelled (unreserved h s.worker s.part s)) {
        is_emitting = false;
        is_over = true;
      })
  -- The caller's context is done.
  cancel : s.is_cancelled ≡ false → Step h s (cancelled s)
  -- The emit loop's ctx.Done branch: emitOne with the cause.
  stop :
      s.is_cancelled ≡ true
      → s.next < h.count
      → s.is_emitting ≡ false
      → s.is_over ≡ false
      → Step h s (record s { is_over = true })

-- The states that are reached in a number of steps.
pub data Reach (h : Shape) : ℕ → Pipe → Type 0 where
  start : Reach h 0 init
  later : {k : ℕ} {s t : Pipe} → Reach h k s → Step h s t → Reach h (suc k) t
