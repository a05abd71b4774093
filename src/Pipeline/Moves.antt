-- ===== src/Pipeline/Moves.antt =====
-- read.go: the goroutines of readFetchAndDecodeIter do not wait for each other for ever.
use s3pgstore.Base.{
  ℕ, ◌+◌, ◌%◌, ◌≤◌, ◌<◌, ◌≡◌, ◌⊎◌, inl, inr, refl, sym, ap, subst, ◌∙◌, true, false, List, [], ◌∷◌,
  arith, ltb, Bool-cases,
}
use native.Mathlib.Nat.{mod-lt}
use s3pgstore.Base.Family.{total, total-plus, total-lt, total-le_at}
use s3pgstore.Pipeline.{
  Shape, Stage, waiting, reserving, decoding, sending, failing, quit, Pipe, Step, acquire, advance,
  land, give_up, begin, reserve, charge, MayReserve, decode, raise, finish, hand_over, receive,
  go_on, stop, Reach,
}
use s3pgstore.Pipeline.Rounds.{turn, Chain}
use s3pgstore.Pipeline.Parts.{has_all, Holds}
use s3pgstore.Pipeline.Queues.{first_turn}
use s3pgstore.Pipeline.Invariant.{Reach-Holds}

-- Some goroutine has a step.
abbrev Moves : Shape → Pipe → Type 0
Moves h s = (t : Pipe) × Step h s t

List-cases : {A : Type 0} (xs : List A) → (xs ≡ []) ⊎ ((x : A) × (ys : List A) × (xs ≡ x ∷ ys))
List-cases [] = inl refl
List-cases (x ∷ xs) = inr (x, xs, refl)

module _ (h : Shape) (some : 0 < h.workers) (strict : (p : ℕ) → h.times_out p ≡ false)
    (filled : (p : ℕ) → p < h.count → 0 < h.files p) (fits : (p : ℕ) → h.files p ≤ h.cap) where
  module _ (s : Pipe) (i : Holds h s) (alive : s.is_cancelled ≡ false)
      (more : s.next < h.count) where
    -- The fetcher has a slot for the partition that the emit loop waits for.
    has_slot : s.fetching ≡ s.next → s.started s.next < h.files s.next → s.occupied < h.cap
    has_slot same room =
        let mine : total h.count s.started ≤ total h.count s.freed + s.started s.next =
          total-le_at h.count s.next s.started s.freed more
            (λ p less.
              omega (arith, i.sent.complete p less, i.fetched.all p (omega (arith, less, same))))
            (λ p after. i.fetched.none_yet p (omega (arith, after, same))) in
        omega (arith, mine, i.slots.held, room, fits s.next)

    -- An error of that partition that is not recorded yet is.
    unless_failed : (s.failed s.next ≡ 0 → Moves h s) → Moves h s
    unless_failed otherwise = elim (Bool-cases (ltb (s.recorded s.next) (s.failed s.next))) [
      | inl unrecorded ↦ (_, give_up s.next more (ground (arith, unrecorded)))
      | inr none_new ↦ otherwise (ground (arith, none_new, i.downloads.alive alive s.next))
    ]

    -- A file of that partition is still to come, and the fetcher or its download has a step.
    fetches : s.failed s.next ≡ 0 → s.landed s.next < h.files s.next → Moves h s
    fetches none_failed missing =
        elim (Bool-cases (ltb (s.landed s.next + s.failed s.next) (s.started s.next))) [
          | inl flying ↦ (_, land s.next more (ground (arith, flying)))
          | inr all_ended ↦
              let short : s.started s.next < h.files s.next =
                ground (arith, all_ended, missing, none_failed) in
              let not_past : s.fetching ≤ s.next = elim (Bool-cases (ltb s.next s.fetching)) [
                | inl past ↦
                    absurd (omega (arith, short, i.fetched.all s.next (ground (arith, past))))
                | inr here ↦ ground (arith, here)
              ] in
              elim (Bool-cases (ltb s.fetching s.next)) [
                | inl behind ↦
                    let before : s.fetching < s.next = ground (arith, behind) in
                    let full : s.started s.fetching ≡ h.files s.fetching = omega (
                      arith,
                      i.sent.complete s.fetching before,
                      i.downloads.decoded s.fetching,
                      i.downloads.ended s.fetching,
                      i.fetched.within s.fetching,
                    ) in
                    (_, advance (omega (arith, before, more)) full)
                | inr here ↦
                    let same : s.fetching ≡ s.next = ground (arith, here, not_past) in
                    (
                      _,
                      acquire (omega (arith, same, more))
                          (subst (λ p. s.started p < h.files p) (sym same) short)
                          (has_slot same short),
                    )
              ]
        ]

    -- A body of that partition is still to decode, and holds a slot.
    decodes : (w : ℕ) → w < h.workers → s.stage w ≡ decoding → Moves h s
    decodes w known now =
        let (whole, inside) = i.working.ready w known (ap has_all now) in
        elim (Bool-cases (ltb (s.freed (s.at w)) (s.landed (s.at w)))) [
          | inl missing ↦
              let less : s.freed (s.at w) < s.landed (s.at w) = ground (arith, missing) in
              let below : total h.count (λ p. s.freed p + s.failed p) < total h.count s.started =
                total-lt h.count (s.at w) (λ p. s.freed p + s.failed p) s.started inside
                  (λ p. omega (arith, i.downloads.decoded p, i.downloads.ended p))
                  (omega (arith, less, i.downloads.ended (s.at w))) in
              (
                _,
                decode w known now less
                    (omega (arith, below, total-plus h.count s.freed s.failed, i.slots.held)),
              )
          | inr all ↦ (_, finish w known now (ground (arith, all, i.downloads.decoded (s.at w))))
        ]

    -- The budget of a worker that has nothing in its queue is empty, when nothing is handed out.
    may_reserve :
        (w : ℕ) → s.queue w ≡ [] → s.is_emitting ≡ false → s.stage w ≡ reserving → MayReserve h s w
    may_reserve w shown resting now = elim (Bool-cases (ltb 0 (charge h (s.at w)))) [
      | inl some_bytes ↦
          let capped : 0 < h.byte_cap = ground (arith, some_bytes) in
          inr (
            ground (arith, some_bytes),
            inl (ground (arith, i.accounted w capped, shown, resting, now)),
          )
      | inr none_asked ↦ inl (ground (arith, none_asked), alive)
    ]

    -- The worker that the emit loop waits for has a step, or what it waits for has.
    worker-Moves :
        (w : ℕ)
        → w ≡ s.next % h.workers
        → w < h.workers
        → s.queue w ≡ []
        → s.is_emitting ≡ false
        → s.is_over ≡ false
        → (a : Stage) → s.stage w ≡ a
        → Moves h s
    worker-Moves w turns known shown resting running sending now =
        (_, hand_over w turns now shown more resting running)
    worker-Moves w turns known shown resting running decoding now = decodes w known now
    worker-Moves w turns known shown resting running failing now = (_, raise w known now)
    worker-Moves w turns known shown resting running reserving now =
        (_, reserve w known now (may_reserve w shown resting now))
    worker-Moves w turns known shown resting running quit now =
        let gone = i.working.gone w known now in absurd cc
    worker-Moves w turns known shown resting running waiting now =
        let at_turn : turn h.workers s.next w ≡ s.at w =
          subst (λ q. Chain h.workers (turn h.workers s.next w) q (s.at w)) shown
            (i.sent.chain w known) in
        let same : s.at w ≡ s.next =
          sym at_turn ∙ first_turn h s.freed s.at s.queue s.next s.emitted w turns some more in
        elim (Bool-cases (ltb (s.landed s.next) (h.files s.next))) [
          | inl missing ↦
              unless_failed (λ none_failed. fetches none_failed (ground (arith, missing)))
          | inr all ↦
              let counted : s.landed s.next + s.marked s.next ≡ h.files s.next = ground (
                arith,
                all,
                i.downloads.alive alive s.next,
                i.downloads.counted s.next,
                i.downloads.ended s.next,
                i.fetched.within s.next,
              ) in
              (
                _,
                begin w known now (omega (arith, same, more))
                    (
                      filled (s.at w) (omega (arith, same, more)),
                      subst (λ p. s.landed p + s.marked p ≡ h.files p) (sym same) counted,
                    )
                    alive,
              )
        ]

    emit-Moves : s.is_emitting ≡ false → s.is_over ≡ false → Moves h s
    emit-Moves resting running =
        let w = s.next % h.workers in
        let known : w < h.workers = mod-lt s.next some in
        elim (List-cases (s.queue w)) [
          | inl shown ↦ worker-Moves w refl known shown resting running (s.stage w) refl
          | inr (p, rest, shown) ↦ (_, receive w p rest refl shown more resting running)
        ]

  -- In every state that the goroutines reach in which the emit loop has not returned, and has a
  -- partition to wait for or to hand out, some goroutine has a step: nothing is deadlocked, when
  -- there is a worker, every partition has a file, the slots hold the files of any one partition, and a
  -- GET fails with an error of the context only when the context is done.
  pub Reach-moves :
      (k : ℕ) (s : Pipe)
      → Reach h k s
      → s.is_over ≡ false
      → (s.next < h.count) ⊎ (s.is_emitting ≡ true)
      → (t : Pipe) × Step h s t
  Reach-moves k s r running goal =
      let i = Reach-Holds h some strict k s r in
      elim (Bool-cases s.is_emitting) [
        | inl busy ↦ (_, go_on busy)
        | inr resting ↦
            let more : s.next < h.count = elim goal [ inl less ↦ less | inr busy ↦ absurd cc ] in
            elim (Bool-cases s.is_cancelled) [
              | inl gone ↦ (_, stop gone more resting running)
              | inr alive ↦ emit-Moves s i alive more resting running
            ]
      ]
