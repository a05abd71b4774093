-- ===== src/Pipeline/Parts.antt =====
-- read.go: what the goroutines of a read's pipeline keep, each part over the fields it is about.
use s3pgstore.Base.{
  ℕ, ◌+◌, ◌≤◌, ◌<◌, ◌≡◌, Bool, true, false, ◌&&◌, ◌==◌, if◌then◌else◌, List, [], ◌∷◌, ◌++◌, range,
  All, arith,
}
use s3pgstore.Base.Family.{total}
use s3pgstore.Pipeline.{Shape, Stage, waiting, reserving, decoding, sending, failing, quit, Pipe}
use s3pgstore.Pipeline.Rounds.{turn, Chain}

-- The fetcher goes through the files in order.
pub record Fetched (h : Shape) (fetching : ℕ) (started : ℕ → ℕ) : Type 0 where
  pub all : (p : ℕ) → p < fetching → started p ≡ h.files p
  pub none_yet : (p : ℕ) → fetching < p → started p ≡ 0
  pub within : (p : ℕ) → started p ≤ h.files p
  pub inside : fetching ≤ h.count

-- A file is started before it ends, is counted after its error is behind recordHardErr, and is decoded
-- after it has landed; a recorded error cancels.
pub record Landed (started landed failed recorded marked freed : ℕ → ℕ) (is_cancelled : Bool)
    : Type 0 where
  pub ended : (p : ℕ) → landed p + failed p ≤ started p
  pub noted : (p : ℕ) → recorded p ≤ failed p
  pub counted : (p : ℕ) → marked p ≤ recorded p
  pub decoded : (p : ℕ) → freed p ≤ landed p
  pub alive : is_cancelled ≡ false → (p : ℕ) → recorded p ≡ 0

-- Every file that was started and is neither decoded nor failed holds a slot.
pub record Slots (h : Shape) (occupied : ℕ) (started failed freed : ℕ → ℕ) : Type 0 where
  pub held : occupied + total h.count freed + total h.count failed ≡ total h.count started
  pub bounded : occupied ≤ h.cap

-- All files of the worker's partition have landed.
abbrev pub has_all : Stage → Bool
has_all reserving = true
has_all decoding = true
has_all waiting = false
has_all sending = false
has_all failing = false
has_all quit = false

-- A worker reserves bytes for a partition and decodes it when all its files have landed, sends it when all are decoded, and
-- returns with an error when the context is done.
pub record Working (h : Shape) (landed freed at : ℕ → ℕ) (stage : ℕ → Stage) (is_cancelled : Bool)
    : Type 0 where
  pub ready :
      (w : ℕ)
      → w < h.workers
      → has_all (stage w) ≡ true
      → (landed (at w) ≡ h.files (at w)) × (at w < h.count)
  pub done :
      (w : ℕ)
      → w < h.workers
      → stage w ≡ sending
      → (freed (at w) ≡ h.files (at w)) × (at w < h.count)
  pub near : (w : ℕ) → w < h.workers → at w < h.count + h.workers
  pub gone : (w : ℕ) → w < h.workers → stage w ≡ quit → is_cancelled ≡ true

-- A queue holds the partitions of its worker between the emit loop's and the worker's own, all
-- decoded, and the emit loop has taken all those before its own, in order.
pub record Sent (h : Shape) (freed at : ℕ → ℕ) (queue : ℕ → List ℕ) (next : ℕ) (emitted : List ℕ)
    : Type 0 where
  pub chain : (w : ℕ) → w < h.workers → Chain h.workers (turn h.workers next w) (queue w) (at w)
  pub whole : (w : ℕ) → w < h.workers → All (λ p. freed p ≡ h.files p) (queue w)
  pub complete : (p : ℕ) → p < next → freed p ≡ h.files p
  pub order : emitted ≡ range 0 next
  pub inside : next ≤ h.count

-- The worker has reserved the bytes of its partition.
abbrev pub has_bytes : Stage → Bool
has_bytes decoding = true
has_bytes sending = true
has_bytes failing = true
has_bytes waiting = false
has_bytes reserving = false
has_bytes quit = false

abbrev pub bytes_of : (ℕ → ℕ) → List ℕ → ℕ
bytes_of bytes [] = 0
bytes_of bytes (p ∷ ps) = bytes p + bytes_of bytes ps

pub bytes_of-append :
    (bytes : ℕ → ℕ) (ps : List ℕ) (p : ℕ)
    → bytes_of bytes (ps ++ (p ∷ [])) ≡ bytes_of bytes ps + bytes p
bytes_of-append bytes [] p = omega arith
bytes_of-append bytes (q ∷ ps) p = omega (arith, bytes_of-append bytes ps p)

-- With a cap, the bytes that a worker's budget has accounted are those of the partition that it
-- works on, of those in its queue, and of the one that the emit loop hands out.
abbrev pub IsAccounted : Shape → Pipe → ℕ → Type 0
IsAccounted h s w =
    0 < h.byte_cap
    → s.reserved w
      ≡ s.given_back w
        + (if has_bytes (s.stage w) then h.bytes (s.at w) else 0)
        + bytes_of h.bytes (s.queue w)
        + (if s.is_emitting && s.worker == w then h.bytes s.part else 0)

pub record Holds (h : Shape) (s : Pipe) : Type 0 where
  pub fetched : Fetched h s.fetching s.started
  pub downloads : Landed s.started s.landed s.failed s.recorded s.marked s.freed s.is_cancelled
  pub slots : Slots h s.occupied s.started s.failed s.freed
  pub working : Working h s.landed s.freed s.at s.stage s.is_cancelled
  pub sent : Sent h s.freed s.at s.queue s.next s.emitted
  pub accounted : (w : ℕ) → IsAccounted h s w
