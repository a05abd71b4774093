-- ===== src/Pipeline/Steps.antt =====
-- read.go: every step of the goroutines of readFetchAndDecodeIter keeps what they keep.
use s3pgstore.Base.{ℕ, ◌<◌, ◌≡◌, inl, inr, sym, ap, subst, ◌∙◌, true, false}
use s3pgstore.Base.Family.{raised}
use s3pgstore.Pipeline.{
  Shape, quit, Pipe, Step, acquire, advance, land, fail, give_up, excuse, mark, begin, reserve,
  decode, spoil, raise, finish, send, hand_over, leave, abandon, receive, go_on, break, cancel,
  stop,
}
use s3pgstore.Pipeline.Parts.{has_all, Landed, Holds}
use s3pgstore.Pipeline.Keeps.{
  acquire-Fetched, advance-Fetched, acquire-Landed, land-Landed, fail-Landed, mark-Landed,
  cancel-Landed, acquire-Slots, fail-Slots,
}
use s3pgstore.Pipeline.Works.{
  land-Working, begin-Working, reserve-Working, quit-Working, finish-Working, stage-Working,
  spoil-Working, send-Working,
}
use s3pgstore.Pipeline.Queues.{send-Sent, receive-Sent, hand_over-Sent}
use s3pgstore.Pipeline.Bytes.{
  begin-IsAccounted, reserve-IsAccounted, spoil-IsAccounted, raise-IsAccounted, finish-IsAccounted,
  send-IsAccounted, hand_over-IsAccounted, leave-IsAccounted, abandon-IsAccounted,
  receive-IsAccounted, give_back-IsAccounted,
}
use s3pgstore.Pipeline.Changes.{
  all_landed, known_turn, in_flight, decode-Holds, record-Holds, cancel-Holds,
}

module _ (h : Shape) (some : 0 < h.workers) (strict : (p : ℕ) → h.times_out p ≡ false) where
  pub Step-Holds : (s t : Pipe) → Holds h s → Step h s t → Holds h t
  Step-Holds s _ i (acquire inside room slot) = record {
    fetched = acquire-Fetched h s.fetching s.started inside room i.fetched;
    downloads =
        acquire-Landed s.started s.landed s.failed s.recorded s.marked s.freed s.is_cancelled
          s.fetching i.downloads;
    slots = acquire-Slots h s.occupied s.started s.failed s.freed s.fetching inside slot i.slots;
    working = i.working;
    sent = i.sent;
    accounted = i.accounted;
  }
  Step-Holds s _ i (advance inside full) = record {
    fetched = advance-Fetched h s.fetching s.started inside full i.fetched;
    downloads = i.downloads;
    slots = i.slots;
    working = i.working;
    sent = i.sent;
    accounted = i.accounted;
  }
  Step-Holds s _ i (land p inside flying) = record {
    fetched = i.fetched;
    downloads =
        land-Landed s.started s.landed s.failed s.recorded s.marked s.freed s.is_cancelled p flying
          i.downloads;
    slots = i.slots;
    working =
        land-Working h s.landed s.freed s.at s.stage s.is_cancelled p (in_flight h s p i flying)
          i.working;
    sent = i.sent;
    accounted = i.accounted;
  }
  Step-Holds s _ i (fail p inside flying held) = record {
    fetched = i.fetched;
    downloads =
        fail-Landed s.started s.landed s.failed s.recorded s.marked s.freed s.is_cancelled p flying
          i.downloads;
    slots = fail-Slots h s.occupied s.started s.failed s.freed p inside held i.slots;
    working = i.working;
    sent = i.sent;
    accounted = i.accounted;
  }
  Step-Holds s _ i (give_up p inside unrecorded) = record-Holds h s p unrecorded i
  Step-Holds s _ i (excuse p inside unrecorded excused) =
      let gone : s.is_cancelled ≡ true = elim excused [
        | inl gone ↦ gone
        | inr timed ↦ let no = strict p in absurd cc
      ] in
      let c = record-Holds h s p unrecorded i in
      record {
        fetched = c.fetched;
        downloads =
            subst (Landed s.started s.landed s.failed (raised p s.recorded) s.marked s.freed)
              (sym gone) c.downloads;
        slots = c.slots;
        working = i.working;
        sent = c.sent;
        accounted = i.accounted;
      }
  Step-Holds s _ i (mark p inside unmarked) = record {
    fetched = i.fetched;
    downloads =
        mark-Landed s.started s.landed s.failed s.recorded s.marked s.freed s.is_cancelled p
          unmarked i.downloads;
    slots = i.slots;
    working = i.working;
    sent = i.sent;
    accounted = i.accounted;
  }
  Step-Holds s _ i (begin w known now inside (filled, counted) alive) = record {
    fetched = i.fetched;
    downloads = i.downloads;
    slots = i.slots;
    working =
        begin-Working h s.landed s.freed s.at s.stage s.is_cancelled w
          (all_landed h s (s.at w) i alive counted) inside i.working;
    sent = i.sent;
    accounted = begin-IsAccounted h s w now i.accounted;
  }
  Step-Holds s _ i (reserve w known now may) = record {
    fetched = i.fetched;
    downloads = i.downloads;
    slots = i.slots;
    working =
        let (whole, inside) = i.working.ready w known (ap has_all now) in
        reserve-Working h s.landed s.freed s.at s.stage s.is_cancelled w whole inside i.working;
    sent = i.sent;
    accounted = reserve-IsAccounted h s w now i.accounted;
  }
  Step-Holds s _ i (decode w known now missing held) = decode-Holds h s w known now missing held i
  Step-Holds s _ i (spoil w known now missing held) =
      let d = decode-Holds h s w known now missing held i in
      record {
        fetched = d.fetched;
        downloads = d.downloads;
        slots = d.slots;
        working =
            spoil-Working h s.landed (raised (s.at w) s.freed) s.at s.stage s.is_cancelled w
              d.working;
        sent = d.sent;
        accounted = spoil-IsAccounted h s w now i.accounted;
      }
  Step-Holds s _ i (raise w known now) = record {
    fetched = i.fetched;
    downloads =
        cancel-Landed s.started s.landed s.failed s.recorded s.marked s.freed s.is_cancelled 0
          i.downloads;
    slots = i.slots;
    working = quit-Working h s.landed s.freed s.at s.stage s.is_cancelled w i.working;
    sent = i.sent;
    accounted = raise-IsAccounted h s w now i.accounted;
  }
  Step-Holds s _ i (finish w known now whole) = record {
    fetched = i.fetched;
    downloads = i.downloads;
    slots = i.slots;
    working =
        let (all, inside) = i.working.ready w known (ap has_all now) in
        finish-Working h s.landed s.freed s.at s.stage s.is_cancelled w (whole ∙ all) inside
          i.working;
    sent = i.sent;
    accounted = finish-IsAccounted h s w now i.accounted;
  }
  Step-Holds s _ i (send w known now room) =
      let (whole, inside) = i.working.done w known now in
      record {
        fetched = i.fetched;
        downloads = i.downloads;
        slots = i.slots;
        working = send-Working h s.landed s.freed s.at s.stage s.is_cancelled w inside i.working;
        sent = send-Sent h s.freed s.at s.queue s.next s.emitted w known whole i.sent;
        accounted = send-IsAccounted h s w now i.accounted;
      }
  Step-Holds s _ i (hand_over w turns now shown more resting running) =
      let known : w < h.workers = known_turn h some s w turns in
      let (whole, inside) = i.working.done w known now in
      record {
        fetched = i.fetched;
        downloads = i.downloads;
        slots = i.slots;
        working = send-Working h s.landed s.freed s.at s.stage s.is_cancelled w inside i.working;
        sent =
            hand_over-Sent h s.freed s.at s.queue s.next s.emitted w turns some more known shown
              whole i.sent;
        accounted = hand_over-IsAccounted h s w now resting i.accounted;
      }
  Step-Holds s _ i (leave w known gone idle) = record {
    fetched = i.fetched;
    downloads = i.downloads;
    slots = i.slots;
    working =
        stage-Working h s.landed s.freed s.at s.stage s.is_cancelled w quit s.is_cancelled
          (λ e. absurd cc) (λ e. absurd cc) (λ e. gone) (λ e. e) i.working;
    sent = i.sent;
    accounted = leave-IsAccounted h s w idle i.accounted;
  }
  Step-Holds s _ i (abandon w known gone now) = record {
    fetched = i.fetched;
    downloads = i.downloads;
    slots = i.slots;
    working =
        stage-Working h s.landed s.freed s.at s.stage s.is_cancelled w quit s.is_cancelled
          (λ e. absurd cc) (λ e. absurd cc) (λ e. gone) (λ e. e) i.working;
    sent = i.sent;
    accounted = abandon-IsAccounted h s w now i.accounted;
  }
  Step-Holds s _ i (receive w p rest turns shown more resting running) = record {
    fetched = i.fetched;
    downloads = i.downloads;
    slots = i.slots;
    working = i.working;
    sent =
        receive-Sent h s.freed s.at s.queue s.next s.emitted w turns some more p rest
          (known_turn h some s w turns) shown i.sent;
    accounted = receive-IsAccounted h s w p rest shown resting i.accounted;
  }
  Step-Holds s _ i (go_on busy) = record {
    fetched = i.fetched;
    downloads = i.downloads;
    slots = i.slots;
    working = i.working;
    sent = i.sent;
    accounted = give_back-IsAccounted h s busy i.accounted;
  }
  Step-Holds s _ i (break busy) =
      let c = cancel-Holds h s i in
      record {
        fetched = c.fetched;
        downloads = c.downloads;
        slots = c.slots;
        working = c.working;
        sent = c.sent;
        accounted = give_back-IsAccounted h s busy i.accounted;
      }
  Step-Holds s _ i (cancel alive) = cancel-Holds h s i
  Step-Holds s _ i (stop gone more resting running) = record {
    fetched = i.fetched;
    downloads = i.downloads;
    slots = i.slots;
    working = i.working;
    sent = i.sent;
    accounted = i.accounted;
  }
