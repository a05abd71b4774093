-- ===== src/Pipeline/Changes.antt =====
-- read.go: what the goroutines of a read's pipeline keep, at the start and through the steps that
-- several of them share.
use s3pgstore.Base.{ℕ, ◌+◌, ◌-◌, ◌%◌, ◌<◌, ◌≡◌, refl, sym, ap, subst, true, false, arith}
use native.Mathlib.Nat.{mod-lt}
use s3pgstore.Base.Family.{raised, total_of_zero}
use s3pgstore.Pipeline.{Shape, decoding, Pipe, init}
use s3pgstore.Pipeline.Rounds.{turn}
use s3pgstore.Pipeline.Parts.{has_all, Holds}
use s3pgstore.Pipeline.Keeps.{record-Landed, decode-Landed, cancel-Landed, decode-Slots}
use s3pgstore.Pipeline.Works.{decode-Working, cancel-Working}
use s3pgstore.Pipeline.Queues.{decode-Sent}

pub init-Holds : (h : Shape) → Holds h init
unfolding turn
init-Holds h = record {
  fetched = record {
    all = λ p less. absurd (omega (arith, less));
    none_yet = λ p more. refl;
    within = λ p. omega arith;
    inside = omega arith;
  };
  downloads = record {
    ended = λ p. omega arith;
    counted = λ p. omega arith;
    decoded = λ p. omega arith;
    noted = λ p. omega arith;
    alive = λ e p. refl;
  };
  slots = record { held = omega (arith, total_of_zero h.count); bounded = omega arith };
  working = record {
    ready = λ w less e. absurd cc;
    done = λ w less e. absurd cc;
    near = λ w less. omega (arith, less);
    gone = λ w less e. absurd cc;
  };
  sent = record {
    chain = λ w less. refl;
    whole = λ w less. tt;
    complete = λ p less. absurd (omega (arith, less));
    order = refl;
    inside = omega arith;
  };
  accounted = λ w capped. omega arith;
}

module _ (h : Shape) where
  -- A partition whose files are all counted, with no error, has all its bodies.
  pub all_landed :
      (s : Pipe) (p : ℕ)
      → Holds h s
      → s.is_cancelled ≡ false
      → s.landed p + s.marked p ≡ h.files p
      → s.landed p ≡ h.files p
  all_landed s p i alive counted =
      omega (arith, i.downloads.alive alive p, i.downloads.counted p, counted)

  -- A partition that is decoded whole was downloaded whole.
  pub whole_landed :
      (s : Pipe) (p : ℕ)
      → Holds h s
      → s.freed p ≡ h.files p
      → (s.landed p ≡ h.files p) × (s.failed p ≡ 0)
  whole_landed s p i whole = (
    omega (arith, whole, i.downloads.decoded p, i.downloads.ended p, i.fetched.within p),
    omega (arith, whole, i.downloads.decoded p, i.downloads.ended p, i.fetched.within p),
  )

  pub known_turn : 0 < h.workers → (s : Pipe) (w : ℕ) → w ≡ s.next % h.workers → w < h.workers
  known_turn some s w turns = subst (λ v. v < h.workers) (sym turns) (mod-lt s.next some)

  -- A file that is in flight is missing from its partition.
  pub in_flight :
      (s : Pipe) (p : ℕ)
      → Holds h s
      → s.landed p + s.failed p < s.started p
      → s.landed p < h.files p
  in_flight s p i flying = omega (arith, flying, i.fetched.within p)

  pub decode-Holds :
      (s : Pipe) (w : ℕ)
      → w < h.workers
      → s.stage w ≡ decoding
      → s.freed (s.at w) < s.landed (s.at w)
      → 0 < s.occupied
      → Holds h s
      → Holds h (record s { freed = raised (s.at w) s.freed; occupied = s.occupied - 1 })
  decode-Holds s w known now missing held i =
      let (whole, inside) = i.working.ready w known (ap has_all now) in
      let less : s.freed (s.at w) < h.files (s.at w) = omega (arith, whole, missing) in
      record {
        fetched = i.fetched;
        downloads =
            decode-Landed s.started s.landed s.failed s.recorded s.marked s.freed s.is_cancelled
              (s.at w) missing i.downloads;
        slots = decode-Slots h s.occupied s.started s.failed s.freed (s.at w) inside held i.slots;
        working =
            decode-Working h s.landed s.freed s.at s.stage s.is_cancelled (s.at w) less i.working;
        sent = decode-Sent h s.freed s.at s.queue s.next s.emitted (s.at w) less i.sent;
        accounted = i.accounted;
      }

  pub record-Holds :
      (s : Pipe) (p : ℕ)
      → s.recorded p < s.failed p
      → Holds h s
      → Holds h (record s { recorded = raised p s.recorded; is_cancelled = true })
  record-Holds s p unrecorded i = record {
    fetched = i.fetched;
    downloads =
        record-Landed s.started s.landed s.failed s.recorded s.marked s.freed s.is_cancelled p
          unrecorded i.downloads;
    slots = i.slots;
    working = cancel-Working h s.landed s.freed s.at s.stage s.is_cancelled i.working;
    sent = i.sent;
    accounted = i.accounted;
  }

  pub cancel-Holds : (s : Pipe) → Holds h s → Holds h (record s { is_cancelled = true })
  cancel-Holds s i = record {
    fetched = i.fetched;
    downloads =
        cancel-Landed s.started s.landed s.failed s.recorded s.marked s.freed s.is_cancelled 0
          i.downloads;
    slots = i.slots;
    working = cancel-Working h s.landed s.freed s.at s.stage s.is_cancelled i.working;
    sent = i.sent;
    accounted = i.accounted;
  }
