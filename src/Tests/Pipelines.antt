-- ===== src/Tests/Pipelines.antt =====
-- Runs of the goroutines of a read, and the witnesses of the theorems about them.
use s3pgstore.Base.{ℕ, ◌≤◌, ◌<◌, ◌≡◌, inl, inr, refl, true, false, [], ◌∷◌, range, arith}
use s3pgstore.Base.Family.{set, raised, added}
use s3pgstore.Pipeline.{
  Shape, waiting, reserving, decoding, sending, Pipe, init, released, taken, Step, acquire, land,
  fail, excuse, mark, begin, reserve, decode, finish, hand_over, Reach, start, later,
}
use s3pgstore.Pipeline.Invariant.{Reach-emitted}
use s3pgstore.Pipeline.Moves.{Reach-moves}
use s3pgstore.Pipeline.Ends.{budget, Reach-length}

-- Two partitions of a file each, a slot and a worker.
abbrev small : Shape
small = record {
  count = 2;
  files = λ p. 1;
  bytes = λ p. 7;
  cap = 1;
  workers = 1;
  depth = 1;
  byte_cap = 5;
  times_out = λ p. false;
}

abbrev asked : Pipe
asked = record init { started = raised 0 init.started; occupied = 1 }

abbrev got : Pipe
got = record asked { landed = raised 0 asked.landed }

abbrev begun : Pipe
begun = record got { stage = set 0 reserving got.stage }

abbrev granted : Pipe
granted = record begun { stage = set 0 decoding begun.stage; reserved = added 0 7 begun.reserved }

abbrev decoded : Pipe
decoded = record granted { freed = raised 0 granted.freed; occupied = 0 }

abbrev finished : Pipe
finished = record decoded { stage = set 0 sending decoded.stage }

abbrev out : Pipe
out = record (taken finished 0 0) { at = set 0 1 finished.at; stage = set 0 waiting finished.stage }

abbrev run : Reach small 7 out
run =
    let r1 : Reach small 1 asked =
      later start (acquire (omega arith) (omega arith) (omega arith)) in
    let r2 : Reach small 2 got = later r1 (land 0 (omega arith) (omega arith)) in
    let r3 : Reach small 3 begun =
      later r2 (begin 0 (omega arith) refl (omega arith) (omega arith, refl) refl) in
    let r4 : Reach small 4 granted =
      later r3 (reserve 0 (omega arith) refl (inr (omega arith, inl (omega arith)))) in
    let r5 : Reach small 5 decoded =
      later r4 (decode 0 (omega arith) refl (omega arith) (omega arith)) in
    let r6 : Reach small 6 finished = later r5 (finish 0 (omega arith) refl refl) in
    later r6 (hand_over 0 refl refl refl (omega arith) refl refl)

Reach-emitted_example :
    (out.emitted ≡ range 0 out.next)
    × ((p : ℕ)
        → p < out.next
        → (out.landed p ≡ small.files p) × (out.freed p ≡ small.files p) × (out.failed p ≡ 0))
    × (out.occupied ≤ small.cap)
Reach-emitted_example = Reach-emitted small (omega arith) (λ p. refl) 7 out run

Reach-moves_example : (t : Pipe) × Step small out t
Reach-moves_example =
    Reach-moves small (omega arith) (λ p. refl) (λ p less. omega arith) (λ p. omega arith) 7 out run
      refl (inr refl)

Reach-length_example : 7 ≤ budget small
Reach-length_example = Reach-length small (omega arith) (λ p. refl) 7 out run

-- A GET that times out where isCtxErr takes the error for the context's: the partition is handed out
-- without its file.
abbrev loose : Shape
loose = record {
  count = 1;
  files = λ p. 1;
  bytes = λ p. 0;
  cap = 1;
  workers = 1;
  depth = 0;
  byte_cap = 0;
  times_out = λ p. true;
}

abbrev lost : Pipe
lost = record (released asked) { failed = raised 0 asked.failed }

abbrev passed : Pipe
passed = record lost { recorded = raised 0 lost.recorded }

abbrev done_without : Pipe
done_without = record passed { marked = raised 0 passed.marked }

abbrev begun_without : Pipe
begun_without = record done_without { stage = set 0 reserving done_without.stage }

abbrev granted_without : Pipe
granted_without = record begun_without {
  stage = set 0 decoding begun_without.stage;
  reserved = added 0 0 begun_without.reserved;
}

abbrev finished_without : Pipe
finished_without = record granted_without { stage = set 0 sending granted_without.stage }

abbrev out_without : Pipe
out_without = record (taken finished_without 0 0) {
  at = set 0 1 finished_without.at;
  stage = set 0 waiting finished_without.stage;
}

abbrev run_without : Reach loose 8 out_without
run_without =
    let r1 : Reach loose 1 asked =
      later start (acquire (omega arith) (omega arith) (omega arith)) in
    let r2 : Reach loose 2 lost = later r1 (fail 0 (omega arith) (omega arith) (omega arith)) in
    let r3 : Reach loose 3 passed = later r2 (excuse 0 (omega arith) (omega arith) (inr refl)) in
    let r4 : Reach loose 4 done_without = later r3 (mark 0 (omega arith) (omega arith)) in
    let r5 : Reach loose 5 begun_without =
      later r4 (begin 0 (omega arith) refl (omega arith) (omega arith, refl) refl) in
    let r6 : Reach loose 6 granted_without =
      later r5 (reserve 0 (omega arith) refl (inl (refl, refl))) in
    let r7 : Reach loose 7 finished_without = later r6 (finish 0 (omega arith) refl refl) in
    later r7 (hand_over 0 refl refl refl (omega arith) refl refl)

lost_file :
    (out_without.emitted ≡ 0 ∷ []) × (out_without.landed 0 ≡ 0) × (out_without.is_cancelled ≡ false)
lost_file = (refl, refl, refl)
