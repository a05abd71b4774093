-- ===== src/Pipeline/Queues.antt =====
-- read.go: the queues and the emit loop, through the steps that change them.
use s3pgstore.Base.{
  ℕ, suc, ◌+◌, ◌%◌, ◌<◌, ◌≡◌, ◌≢◌, sym, ap, ap₂, subst, ◌∙◌, List, [], ◌∷◌, ◌++◌, range,
  range-append, All, All-append, arith, ◌==◌, Bool-cases, inl, inr,
}
use s3pgstore.Base.Family.{set, raised}
use s3pgstore.Pipeline.{Shape}
use s3pgstore.Pipeline.Rounds.{turn, turn_met, turn_other, turn_of_next, Chain, Chain-append}
use s3pgstore.Pipeline.Parts.{Sent}
use s3pgstore.Pipeline.Works.{set-elim}

module _ (files freed : ℕ → ℕ) (i : ℕ) (missing : freed i < files i) where
  stays : (p : ℕ) → freed p ≡ files p → raised i freed p ≡ files p
  stays p whole =
      let apart : i ≢ p = λ same. absurd (ground (arith, missing, whole, same)) in
      ground (arith, whole, apart)

  All-stay :
      (ps : List ℕ) → All (λ p. freed p ≡ files p) ps → All (λ p. raised i freed p ≡ files p) ps
  All-stay [] all = all
  All-stay (p ∷ ps) (e, all) = (stays p e, All-stay ps all)

module _ (h : Shape) (freed at : ℕ → ℕ) (queue : ℕ → List ℕ) (next : ℕ) (emitted : List ℕ) where
  abbrev Before : Type 0
  Before = Sent h freed at queue next emitted

  pub decode-Sent :
      (p : ℕ) → freed p < h.files p → Before → Sent h (raised p freed) at queue next emitted
  decode-Sent p missing s = record {
    chain = s.chain;
    whole = λ w less. All-stay h.files freed p missing (queue w) (s.whole w less);
    complete = λ q less. stays h.files freed p missing q (s.complete q less);
    order = s.order;
    inside = s.inside;
  }

  pub send-Sent :
      (i : ℕ)
      → i < h.workers
      → freed (at i) ≡ h.files (at i)
      → Before
      → Sent h freed
          (set i (at i + h.workers) at)
          (set i (queue i ++ (at i ∷ [])) queue)
          next
          emitted
  send-Sent i known whole s = record {
    chain = λ w less. elim (Bool-cases (i == w)) [
      | inl e ↦
          let same : i ≡ w = ground (arith, e) in
          rw e (
            subst
              (λ v.
                Chain h.workers (turn h.workers next v) (queue i ++ (at i ∷ [])) (at i + h.workers))
              same
              (Chain-append h.workers (turn h.workers next i) (at i) (queue i) (s.chain i known)))
      | inr e ↦ rw e (s.chain w less)
    ];
    whole = λ w less.
        set-elim (λ v q. All (λ p. freed p ≡ h.files p) q) i (queue i ++ (at i ∷ [])) queue w
          (All-append (λ p. freed p ≡ h.files p) (queue i) (at i ∷ []) (s.whole i known)
            (whole, tt))
          (λ apart. s.whole w less);
    complete = s.complete;
    order = s.order;
    inside = s.inside;
  }

  -- The partition that the emit loop takes is the one it waits for.
  module _ (i : ℕ) (turns : i ≡ next % h.workers) (some : 0 < h.workers)
      (inside : next < h.count) where
    pub first_turn : turn h.workers next i ≡ next
    first_turn = ap (turn h.workers next) turns ∙ turn_of_next h.workers next some

    met : turn h.workers (suc next) i ≡ next + h.workers
    met = ap (turn h.workers (suc next)) turns ∙ turn_met h.workers next some

    emits : (p : ℕ) → p ≡ next → emitted ≡ range 0 next → emitted ++ (p ∷ []) ≡ range 0 (suc next)
    emits p e order =
        let from : p ≡ 0 + next = omega (arith, e) in
        let one_more : next + 1 ≡ suc next = omega arith in
        ap₂ (λ xs x. xs ++ (x ∷ [])) order from ∙ range-append 0 next 1 ∙ ap (range 0) one_more

    completes :
        freed next ≡ h.files next
        → ((p : ℕ) → p < next → freed p ≡ h.files p)
        → (p : ℕ) → p < suc next
        → freed p ≡ h.files p
    completes whole before p less = elim (Bool-cases (p == next)) [
      | inl e ↦
          let same : p ≡ next = ground (arith, e) in
          subst (λ q. freed q ≡ h.files q) (sym same) whole
      | inr e ↦ before p (ground (arith, e, less))
    ]

    pub receive-Sent :
        (p : ℕ) (rest : List ℕ)
        → i < h.workers
        → queue i ≡ p ∷ rest
        → Before
        → Sent h freed at (set i rest queue) (suc next) (emitted ++ (p ∷ []))
    receive-Sent p rest known shown s =
        let (first, chain) =
          subst (λ q. Chain h.workers (turn h.workers next i) q (at i)) shown (s.chain i known) in
        let (whole, wholes) = subst (All (λ q. freed q ≡ h.files q)) shown (s.whole i known) in
        let same : p ≡ next = first ∙ first_turn in
        record {
          chain = λ w less. elim (Bool-cases (i == w)) [
            | inl e ↦
                let same_worker : i ≡ w = ground (arith, e) in
                rw e (
                  subst (λ v. Chain h.workers (turn h.workers (suc next) v) rest (at v)) same_worker
                    (subst (λ a. Chain h.workers a rest (at i))
                      (ap (λ a. a + h.workers) first_turn ∙ sym met) chain))
            | inr e ↦ rw e (
                subst (λ a. Chain h.workers a (queue w) (at w))
                  (sym (
                    turn_other h.workers next w less
                      (λ same. absurd (ground (arith, e, same, turns)))))
                  (s.chain w less))
          ];
          whole = λ w less.
              set-elim (λ v q. All (λ p. freed p ≡ h.files p) q) i rest queue w wholes
                (λ apart. s.whole w less);
          complete = completes (subst (λ q. freed q ≡ h.files q) same whole) s.complete;
          order = emits p same s.order;
          inside = omega (arith, inside);
        }

    pub hand_over-Sent :
        i < h.workers
        → queue i ≡ []
        → freed (at i) ≡ h.files (at i)
        → Before
        → Sent h freed (set i (at i + h.workers) at) queue (suc next) (emitted ++ (at i ∷ []))
    hand_over-Sent known shown whole s =
        let at_turn : turn h.workers next i ≡ at i =
          subst (λ q. Chain h.workers (turn h.workers next i) q (at i)) shown (s.chain i known) in
        let same : at i ≡ next = sym at_turn ∙ first_turn in
        record {
          chain = λ w less. elim (Bool-cases (i == w)) [
            | inl e ↦
                let same_worker : i ≡ w = ground (arith, e) in
                rw e (
                  subst
                    (λ v.
                      Chain h.workers (turn h.workers (suc next) v) (queue v) (at i + h.workers))
                    same_worker
                    (subst (λ q. Chain h.workers (turn h.workers (suc next) i) q (at i + h.workers))
                      (sym shown) (met ∙ ap (λ a. a + h.workers) (sym same))))
            | inr e ↦ rw e (
                subst (λ a. Chain h.workers a (queue w) (at w))
                  (sym (
                    turn_other h.workers next w less
                      (λ same. absurd (ground (arith, e, same, turns)))))
                  (s.chain w less))
          ];
          whole = s.whole;
          complete = completes (subst (λ q. freed q ≡ h.files q) same whole) s.complete;
          order = emits (at i) same s.order;
          inside = omega (arith, inside);
        }
