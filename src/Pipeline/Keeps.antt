-- ===== src/Pipeline/Keeps.antt =====
-- read.go: the fetcher, the downloads and the slots, through the steps that change them.
use s3pgstore.Base.{
  ℕ, suc, ◌+◌, ◌-◌, ◌<◌, ◌≡◌, sym, subst, Bool, true, arith, ◌==◌, Bool-cases, inl, inr,
}
use s3pgstore.Base.Family.{raised, total-raised}
use s3pgstore.Pipeline.{Shape}
use s3pgstore.Pipeline.Parts.{Fetched, Landed, Slots}

module _ (h : Shape) (i : ℕ) (started : ℕ → ℕ) where
  pub acquire-Fetched :
      i < h.count → started i < h.files i → Fetched h i started → Fetched h i (raised i started)
  acquire-Fetched inside room f = record {
    all = λ p less. ground (arith, f.all p less);
    none_yet = λ p more. ground (arith, f.none_yet p more);
    within = λ p. ground (arith, f.within p, room);
    inside = f.inside;
  }

  pub advance-Fetched :
      i < h.count → started i ≡ h.files i → Fetched h i started → Fetched h (suc i) started
  advance-Fetched inside full f = record {
    all = λ p less. elim (Bool-cases (p == i)) [
      | inl e ↦
          let same : p ≡ i = ground (arith, e) in subst (λ q. started q ≡ h.files q) (sym same) full
      | inr e ↦ f.all p (ground (arith, e, less))
    ];
    none_yet = λ p more. f.none_yet p (omega (arith, more));
    within = f.within;
    inside = omega (arith, inside);
  }

module _ (started landed failed recorded marked freed : ℕ → ℕ) (is_cancelled : Bool) (i : ℕ) where
  abbrev Before : Type 0
  Before = Landed started landed failed recorded marked freed is_cancelled

  pub acquire-Landed :
      Before → Landed (raised i started) landed failed recorded marked freed is_cancelled
  acquire-Landed l = record {
    ended = λ p. ground (arith, l.ended p);
    noted = l.noted;
    counted = l.counted;
    decoded = l.decoded;
    alive = l.alive;
  }

  pub land-Landed :
      landed i + failed i < started i
      → Before
      → Landed started (raised i landed) failed recorded marked freed is_cancelled
  land-Landed flying l = record {
    ended = λ p. ground (arith, l.ended p, flying);
    noted = l.noted;
    counted = l.counted;
    decoded = λ p. ground (arith, l.decoded p);
    alive = l.alive;
  }

  pub fail-Landed :
      landed i + failed i < started i
      → Before
      → Landed started landed (raised i failed) recorded marked freed is_cancelled
  fail-Landed flying l = record {
    ended = λ p. ground (arith, l.ended p, flying);
    noted = λ p. ground (arith, l.noted p);
    counted = l.counted;
    decoded = l.decoded;
    alive = l.alive;
  }

  -- An error that is behind recordHardErr leaves the context done.
  pub record-Landed :
      recorded i < failed i
      → Before
      → Landed started landed failed (raised i recorded) marked freed true
  record-Landed unrecorded l = record {
    ended = l.ended;
    noted = λ p. ground (arith, l.noted p, unrecorded);
    counted = λ p. ground (arith, l.counted p);
    decoded = l.decoded;
    alive = λ e. absurd cc;
  }

  pub mark-Landed :
      marked i < recorded i
      → Before
      → Landed started landed failed recorded (raised i marked) freed is_cancelled
  mark-Landed unmarked l = record {
    ended = l.ended;
    noted = l.noted;
    counted = λ p. ground (arith, l.counted p, unmarked);
    decoded = l.decoded;
    alive = l.alive;
  }

  pub decode-Landed :
      freed i < landed i
      → Before
      → Landed started landed failed recorded marked (raised i freed) is_cancelled
  decode-Landed undecoded l = record {
    ended = l.ended;
    noted = l.noted;
    counted = l.counted;
    decoded = λ p. ground (arith, l.decoded p, undecoded);
    alive = l.alive;
  }

  pub cancel-Landed : Before → Landed started landed failed recorded marked freed true
  cancel-Landed l = record {
    ended = l.ended;
    noted = l.noted;
    counted = l.counted;
    decoded = l.decoded;
    alive = λ e. absurd cc;
  }

module _ (h : Shape) (occupied : ℕ) (started failed freed : ℕ → ℕ) (i : ℕ)
    (inside : i < h.count) where
  pub acquire-Slots :
      occupied < h.cap
      → Slots h occupied started failed freed
      → Slots h (suc occupied) (raised i started) failed freed
  acquire-Slots room s = record {
    held = omega (arith, s.held, total-raised h.count i started inside);
    bounded = omega (arith, room);
  }

  pub fail-Slots :
      0 < occupied
      → Slots h occupied started failed freed
      → Slots h (occupied - 1) started (raised i failed) freed
  fail-Slots some s = record {
    held = omega (arith, some, s.held, total-raised h.count i failed inside);
    bounded = omega (arith, s.bounded);
  }

  pub decode-Slots :
      0 < occupied
      → Slots h occupied started failed freed
      → Slots h (occupied - 1) started failed (raised i freed)
  decode-Slots some s = record {
    held = omega (arith, some, s.held, total-raised h.count i freed inside);
    bounded = omega (arith, s.bounded);
  }
