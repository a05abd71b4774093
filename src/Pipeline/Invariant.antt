-- ===== src/Pipeline/Invariant.antt =====
-- read.go: readFetchAndDecodeIter keeps its invariant in every order of its goroutines' steps, and so
-- yields the partitions in order, each of them whole.
use s3pgstore.Base.{ℕ, ◌≤◌, ◌<◌, ◌≡◌, false, range}
use s3pgstore.Pipeline.{Shape, Pipe, Reach, start, later}
use s3pgstore.Pipeline.Parts.{Holds}
use s3pgstore.Pipeline.Changes.{init-Holds, whole_landed}
use s3pgstore.Pipeline.Steps.{Step-Holds}

module _ (h : Shape) (some : 0 < h.workers) (strict : (p : ℕ) → h.times_out p ≡ false) where
  pub Reach-Holds : (k : ℕ) (s : Pipe) → Reach h k s → Holds h s
  Reach-Holds _ _ start = init-Holds h
  Reach-Holds _ _ (later {s = s} {t = t} r step) =
      Step-Holds h some strict s t (Reach-Holds _ s r) step

  -- In every state that the goroutines reach, whatever their order: the partitions that the emit loop
  -- has taken are the first ones, in order, each with all its files downloaded, decoded and none
  -- failed, and no more slots are held than there are. There is a worker at least, and a GET fails with
  -- an error of the context only when the context is done.
  pub Reach-emitted :
      (k : ℕ) (s : Pipe)
      → Reach h k s
      → (s.emitted ≡ range 0 s.next)
        × ((p : ℕ)
            → p < s.next
            → (s.landed p ≡ h.files p) × (s.freed p ≡ h.files p) × (s.failed p ≡ 0))
        × (s.occupied ≤ h.cap)
  Reach-emitted k s r =
      let i = Reach-Holds k s r in
      (
        i.sent.order,
        λ p less.
            let whole = i.sent.complete p less in
            let (downloaded, none_failed) = whole_landed h s p i whole in
            (downloaded, whole, none_failed),
        i.slots.bounded,
      )
