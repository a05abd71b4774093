-- ===== src/Pipeline/Works.antt =====
-- read.go: the decode workers, through the steps that change them or what they look at.
use s3pgstore.Base.{
  ℕ, ◌+◌, ◌<◌, ◌≡◌, ◌≢◌, refl, subst, Bool, true, arith, ◌==◌, Bool-cases, inl, inr,
}
use s3pgstore.Base.Family.{set, raised}
use s3pgstore.Pipeline.{Shape, Stage, waiting, reserving, decoding, sending, failing, quit}
use s3pgstore.Pipeline.Parts.{has_all, Working}

-- A property of every worker's new value, from that of the worker changed and that of the others.
pub set-elim {ℓ κ} :
    {A : Type ℓ} (P : ℕ → A → Type κ) (w : ℕ) (x : A) (f : ℕ → A) (v : ℕ)
    → P w x
    → (v ≢ w → P v (f v))
    → P v (set w x f v)
set-elim P w x f v here there = elim (Bool-cases (w == v)) [
  | inl e ↦ let same : w ≡ v = ground (arith, e) in rw e (subst (λ u. P u x) same here)
  | inr e ↦ rw e (there (λ same. absurd (ground (arith, e, same))))
]

module _ (h : Shape) (landed freed at : ℕ → ℕ) (stage : ℕ → Stage) (is_cancelled : Bool) where
  abbrev Before : Type 0
  Before = Working h landed freed at stage is_cancelled

  pub land-Working :
      (p : ℕ)
      → landed p < h.files p
      → Before
      → Working h (raised p landed) freed at stage is_cancelled
  land-Working p missing s = record {
    ready = λ w less e.
        let (whole, inside) = s.ready w less e in
        let apart : p ≢ at w = λ same. absurd (ground (arith, missing, whole, same)) in
        (ground (arith, whole, apart), inside);
    done = s.done;
    near = s.near;
    gone = s.gone;
  }

  pub decode-Working :
      (p : ℕ)
      → freed p < h.files p
      → Before
      → Working h landed (raised p freed) at stage is_cancelled
  decode-Working p missing s = record {
    ready = s.ready;
    done = λ w less e.
        let (whole, inside) = s.done w less e in
        let apart : p ≢ at w = λ same. absurd (ground (arith, missing, whole, same)) in
        (ground (arith, whole, apart), inside);
    near = s.near;
    gone = s.gone;
  }

  pub cancel-Working : Before → Working h landed freed at stage true
  cancel-Working s = record {
    ready = s.ready;
    done = s.done;
    near = s.near;
    gone = λ w less e. refl;
  }

  -- A worker's next stage, from what that stage asks for.
  pub stage-Working :
      (i : ℕ) (x : Stage) (is_cancelled' : Bool)
      → (has_all x ≡ true → (landed (at i) ≡ h.files (at i)) × (at i < h.count))
      → (x ≡ sending → (freed (at i) ≡ h.files (at i)) × (at i < h.count))
      → (x ≡ quit → is_cancelled' ≡ true)
      → (is_cancelled ≡ true → is_cancelled' ≡ true)
      → Before
      → Working h landed freed at (set i x stage) is_cancelled'
  stage-Working i x is_cancelled' ready done gone still s = record {
    ready = λ w less.
        set-elim (λ v a. has_all a ≡ true → (landed (at v) ≡ h.files (at v)) × (at v < h.count)) i x
          stage w ready (λ apart. s.ready w less);
    done = λ w less.
        set-elim (λ v a. a ≡ sending → (freed (at v) ≡ h.files (at v)) × (at v < h.count)) i x stage
          w done (λ apart. s.done w less);
    near = s.near;
    gone = λ w less.
        set-elim (λ v a. a ≡ quit → is_cancelled' ≡ true) i x stage w gone
          (λ apart e. still (s.gone w less e));
  }

  pub begin-Working :
      (i : ℕ)
      → landed (at i) ≡ h.files (at i)
      → at i < h.count
      → Before
      → Working h landed freed at (set i reserving stage) is_cancelled
  begin-Working i whole inside =
      stage-Working i reserving is_cancelled (λ e. (whole, inside)) (λ e. absurd cc)
        (λ e. absurd cc) (λ e. e)

  pub reserve-Working :
      (i : ℕ)
      → landed (at i) ≡ h.files (at i)
      → at i < h.count
      → Before
      → Working h landed freed at (set i decoding stage) is_cancelled
  reserve-Working i whole inside =
      stage-Working i decoding is_cancelled (λ e. (whole, inside)) (λ e. absurd cc) (λ e. absurd cc)
        (λ e. e)

  pub finish-Working :
      (i : ℕ)
      → freed (at i) ≡ h.files (at i)
      → at i < h.count
      → Before
      → Working h landed freed at (set i sending stage) is_cancelled
  finish-Working i whole inside =
      stage-Working i sending is_cancelled (λ e. absurd cc) (λ e. (whole, inside)) (λ e. absurd cc)
        (λ e. e)

  pub spoil-Working :
      (i : ℕ) → Before → Working h landed freed at (set i failing stage) is_cancelled
  spoil-Working i =
      stage-Working i failing is_cancelled (λ e. absurd cc) (λ e. absurd cc) (λ e. absurd cc)
        (λ e. e)

  pub quit-Working : (i : ℕ) → Before → Working h landed freed at (set i quit stage) true
  quit-Working i =
      stage-Working i quit true (λ e. absurd cc) (λ e. absurd cc) (λ e. refl) (λ e. refl)

  -- A worker has sent its partition, and goes on to its next.
  pub send-Working :
      (i : ℕ)
      → at i < h.count
      → Before
      → Working h landed freed (set i (at i + h.workers) at) (set i waiting stage) is_cancelled
  send-Working i inside s = record {
    ready = λ w less. elim (Bool-cases (i == w)) [
      | inl e ↦ rw e (λ same. absurd cc)
      | inr e ↦ rw e (s.ready w less)
    ];
    done = λ w less. elim (Bool-cases (i == w)) [
      | inl e ↦ rw e (λ same. absurd cc)
      | inr e ↦ rw e (s.done w less)
    ];
    near = λ w less.
        set-elim (λ v a. a < h.count + h.workers) i (at i + h.workers) at w (omega (arith, inside))
          (λ apart. s.near w less);
    gone = λ w less.
        set-elim (λ v a. a ≡ quit → is_cancelled ≡ true) i waiting stage w (λ e. absurd cc)
          (λ apart. s.gone w less);
  }
