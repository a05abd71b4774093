-- ===== src/Write/Tracking.antt =====
-- What every write leaves of the two promises about objects and rows: an object in the bucket is
-- pending or filed, and a filed one is in the bucket.
use s3pgstore.Base.{
  Option-split, ℕ, ◌≡◌, refl, sym, subst, Bool, true, false, ◌&&◌, ◌||◌, not, Option, none, some,
  List, [], ◌∷◌, if◌then◌else◌, arith, Bytes, bytes_eq, bytes_eq_iff, bytes_eq_refl, ap, Result, ok,
  err, ◌⊎◌, inl, inr, Option-cases,
}
use s3pgstore.Catalog.Pending.{pending_write_insert}
use s3pgstore.Catalog.Pending.Rows.{
  pending-pending_write_delete, filed-pending_write_delete, pending-pending_write_insert,
}
use s3pgstore.Sequencer.{TxOutcome, committed, rolled_back, committed_unseen}
use s3pgstore.Store.{Store, World, FileRef, data_key, stored, filed, pending}
use s3pgstore.Write.Tx.{
  TxError, TxFaults, TxState, TxInput, Outcome, begin, finish, rollback, commit, run_in_tx, tx_body,
}
use s3pgstore.Write.Body.{Leaves, IsAfter, IsFailed, tx_body-Leaves}
use s3pgstore.Write.{
  WriteError, Options, Faults, insert_pending_detached, pending_after_failure,
  delete_pending_detached, conclude, write_tracked, write_fresh, write_with_token, write_partition,
  tx_input, lookup_token_file_ref, resolve_token,
}

-- An object in the bucket has a tracking row or a file row, and a file row has its object.
unfoldable pub IsTidy : World → Type 0
IsTidy w =
    (j : Bytes)
    → (stored j w ≡ true → (pending j w.tables || filed j w.tables) ≡ true)
      × (filed j w.tables ≡ true → stored j w ≡ true)

-- A write in flight: its key is pending, and has no object unless it has a file row.
unfoldable pub IsOwned : Bytes → World → Type 0
IsOwned k w = (pending k w.tables ≡ true) × (stored k w ≡ true → filed k w.tables ≡ true)

-- What others do keeps the promises, and leaves a write in flight alone.
unfoldable pub IsPolite : Bytes → (World → World) → Type 0
IsPolite k g = (w : World) → IsTidy w → IsOwned k w → IsTidy (g w) × IsOwned k (g w)

-- The answers of a world about a key.
abbrev pub Answers : Bytes → Bool → Bool → Bool → World → Type 0
Answers j o f p w = (stored j w ≡ o) × (filed j w.tables ≡ f) × (pending j w.tables ≡ p)

-- What the end of the transaction leaves of a key.
abbrev pub IsEnded : {A : Type 0} → Bytes → Bytes → Bool → Bool → Bool → Outcome A → Type 0
IsEnded k j o f p (ok a, attempted, w) =
    Answers j (o || bytes_eq k j) (f || bytes_eq k j) (p && not (bytes_eq k j)) w
IsEnded k j o f p (err e, attempted, w) =
    Answers j o f p w
    ⊎ (attempted ≡ true)
      × (Answers j (o || bytes_eq k j) f p w
          ⊎ Answers j (o || bytes_eq k j) (f || bytes_eq k j) (p && not (bytes_eq k j)) w)

finish-IsEnded :
    {A : Type 0} (k j : Bytes) (o f p : Bool) (c : TxOutcome) (w : World)
    (r : Result TxError A × TxState)
    → Answers j o f p w
    → Leaves (IsAfter k j o f p) (IsFailed k j o) r
    → IsEnded k j o f p (finish c w r)
unfolding finish rollback commit stored filed pending
finish-IsEnded k j o f p c w (err e, s) h (inl e1) = inl (ground (arith, h, e1))
finish-IsEnded k j o f p c w (err e, s) h (inr (e1, e2)) = inr (e2, inl (ground (arith, h, e1)))
finish-IsEnded k j o f p committed w (ok a, s) h (ho, hf, hp, ha) = (ho, hf, hp)
finish-IsEnded k j o f p rolled_back w (ok a, s) h (ho, hf, hp, ha) =
    inr (ha, inl (ground (arith, h, ho)))
finish-IsEnded k j o f p committed_unseen w (ok a, s) h (ho, hf, hp, ha) =
    inr (ha, inr (ho, hf, hp))

pub run_in_tx-IsEnded :
    (j : Bytes) (faults : TxFaults) (store : Store) (i : TxInput) (w : World)
    → IsEnded i.s3_key j
        (stored j w)
        (filed j w.tables)
        (pending j w.tables)
        (run_in_tx faults (tx_body faults store i) w)
unfolding run_in_tx stored
run_in_tx-IsEnded j faults store i w = if-IsEnded faults.begin_fails
  where
    if-IsEnded :
        (b : Bool)
        → IsEnded i.s3_key j (stored j w) (filed j w.tables) (pending j w.tables) (
            if b
            then (err TxError.begin_failed, false, w)
            else finish faults.commit w (tx_body faults store i (begin w)))
    if-IsEnded true = inl (refl, refl, refl)
    if-IsEnded false =
        finish-IsEnded i.s3_key j (stored j w) (filed j w.tables) (pending j w.tables) faults.commit
          w _ (refl, refl, refl)
          (tx_body-Leaves i.s3_key j (stored j w) (filed j w.tables) (pending j w.tables) faults
            store i (begin w) refl (refl, refl, refl, refl))

-- A key after the transaction, and after the cleanup that follows a failure.
abbrev IsKept : Bytes → World → Type 0
IsKept j w =
    (stored j w ≡ true → (pending j w.tables || filed j w.tables) ≡ true)
    × (filed j w.tables ≡ true → stored j w ≡ true)

module _ {T : Type 0} (store : Store) (f : Faults T) where
  delete_pending_detached-IsKept :
      (fails : Bool) (k j : Bytes) (w : World)
      → IsKept j w
      → (bytes_eq k j ≡ true → stored j w ≡ true → filed j w.tables ≡ true)
      → IsKept j (delete_pending_detached fails k w)
  unfolding delete_pending_detached stored filed
  delete_pending_detached-IsKept true k j w h own = h
  delete_pending_detached-IsKept false k j w h own = ground (
    arith,
    h,
    own,
    pending-pending_write_delete k j w.tables,
    filed-pending_write_delete k j w.tables,
  )

  IsOwned-at :
      (k j : Bytes) (w : World)
      → IsOwned k w
      → bytes_eq k j ≡ true
      → (pending j w.tables ≡ true) × (stored j w ≡ true → filed j w.tables ≡ true)
  unfolding IsOwned
  IsOwned-at k j w own e =
      subst (λ x. (pending x w.tables ≡ true) × (stored x w ≡ true → filed x w.tables ≡ true))
        ((bytes_eq_iff k j).0 e) own

  -- A failed transaction leaves the key tracked, and owned still unless the PUT was attempted.
  err-IsKept :
      (k j : Bytes) (w w' : World) (e : TxError) (attempted : Bool)
      → IsKept j w
      → IsOwned k w
      → IsEnded {A = ℕ × ℕ × ℕ} k j
          (stored j w)
          (filed j w.tables)
          (pending j w.tables)
          (err e, attempted, w')
      → IsKept j (if attempted then w' else delete_pending_detached f.cleanup_fails k w')
  err-IsKept k j w w' e true kept own (inl (ho, hf, hp)) = ground (arith, kept, ho, hf, hp)
  err-IsKept k j w w' e false kept own (inl (ho, hf, hp)) =
      delete_pending_detached-IsKept f.cleanup_fails k j w' (ground (arith, kept, ho, hf, hp))
        (λ c. ground (arith, ho, hf, IsOwned-at k j w own c))
  err-IsKept k j w w' e true kept own (inr (ha, inl (ho, hf, hp))) =
      ground (arith, kept, ho, hf, hp, IsOwned-at k j w own)
  err-IsKept k j w w' e true kept own (inr (ha, inr (ho, hf, hp))) =
      ground (arith, kept, ho, hf, hp, IsOwned-at k j w own)
  err-IsKept k j w w' e false kept own (inr (ha, h)) = cc

  conclude-IsTidy :
      (i : TxInput) (out : Outcome (ℕ × ℕ × ℕ)) (w : World)
      → IsTidy w
      → IsOwned i.s3_key w
      → ((j : Bytes) → IsEnded i.s3_key j (stored j w) (filed j w.tables) (pending j w.tables) out)
      → ((v : World) → IsTidy v → IsTidy (f.after_tx v))
      → IsTidy (conclude store f i out).1
  unfolding conclude IsTidy
  conclude-IsTidy i (ok a, attempted, w') w tidy own ended after =
      λ j. ground (arith, tidy j, ended j, IsOwned-at i.s3_key j w own)
  conclude-IsTidy i (err e, attempted, w') w tidy own ended after =
      after _ λ j. err-IsKept i.s3_key j w w' e attempted (tidy j) own (ended j)

  insert_pending_detached-IsOwned :
      (fails : Bool) (k : Bytes) (at : ℕ) (w w' : World)
      → insert_pending_detached fails k at w ≡ some w'
      → IsTidy w
      → IsTidy w' × IsOwned k w'
  unfolding IsTidy IsOwned stored insert_pending_detached filed
  insert_pending_detached-IsOwned fails k at w w' h tidy =
      elim (Option-cases (pending_write_insert k at w.tables)) [
        | inl e ↦ ground (arith, h, e)
        | inr (t, e) ↦ (
          (λ j. ground (arith, h, e, tidy j, pending-pending_write_insert k j at w.tables t e)),
          ground (
            arith,
            h,
            e,
            tidy k,
            bytes_eq_refl k,
            pending-pending_write_insert k k at w.tables t e,
          ),
        )
      ]

  pending_after_failure-IsTidy :
      (unseen : Bool) (k : Bytes) (at : ℕ) (w : World)
      → IsTidy w
      → IsTidy (pending_after_failure unseen k at w)
  unfolding pending_after_failure
  pending_after_failure-IsTidy false k at w tidy = tidy
  pending_after_failure-IsTidy true k at w tidy =
      elim (Option-cases (insert_pending_detached false k at w)) [
        | inl e ↦ subst (λ x. IsTidy (or_before x)) (sym e) tidy
        | inr (w', e) ↦
            subst (λ x. IsTidy (or_before x)) (sym e)
              (insert_pending_detached-IsOwned false k at w w' e tidy).0
      ]
    where
      or_before : Option World → World
      or_before none = w
      or_before (some w') = w'

  write_tracked-IsTidy :
      (i : TxInput) (w : World)
      → IsTidy w
      → IsPolite i.s3_key f.before_tx
      → ((v : World) → IsTidy v → IsTidy (f.after_tx v))
      → IsTidy (write_tracked store f i w).1
  unfolding write_tracked IsPolite
  write_tracked-IsTidy i w tidy before after =
      elim (Option-cases (insert_pending_detached f.pending_fails i.s3_key f.pending_at w)) [
        | inl e ↦
            subst (λ x. IsTidy (x).1) (sym (ap tracked e))
              (pending_after_failure-IsTidy f.pending_unseen i.s3_key f.pending_at w tidy)
        | inr (w', e) ↦
            let ready =
              insert_pending_detached-IsOwned f.pending_fails i.s3_key f.pending_at w w' e tidy in
            let fair = before w' ready.0 ready.1 in
            subst (λ x. IsTidy (x).1) (sym (ap tracked e))
              (conclude-IsTidy i (run_in_tx f.tx (tx_body f.tx store i) (f.before_tx w'))
                (f.before_tx w') fair.0 fair.1
                (λ j. run_in_tx-IsEnded j f.tx store i (f.before_tx w')) after)
      ]
    where
      tracked : Option World → Result WriteError FileRef × World
      tracked none = (
        err WriteError.pending_failed,
        pending_after_failure f.pending_unseen i.s3_key f.pending_at w,
      )
      tracked (some w') =
          conclude store f i (run_in_tx f.tx (tx_body f.tx store i) (f.before_tx w'))

  abbrev IsFair : Bytes → Type 0
  IsFair key =
      ((uuid : Bytes)
        → f.uuid ≡ some uuid
        → IsPolite (data_key store.s3_prefix key uuid) f.before_tx)
      × ((v : World) → IsTidy v → IsTidy (f.after_tx v))

  abbrev LeavesTidy : Result WriteError FileRef × World → Type 0
  LeavesTidy r = IsTidy r.1

  write_fresh-IsTidy :
      (o : Options T) (key : Bytes) (values : List Bytes) (token : Bytes) (records : List T)
      (w : World)
      → IsTidy w
      → IsFair key
      → IsTidy (write_fresh store f o key values token records w).1
  unfolding write_fresh
  write_fresh-IsTidy o key values token records w tidy fair =
      Option-split LeavesTidy (f.view_rows records) _ _ (λ _. tidy)
        λ views _.
          Option-split LeavesTidy (f.encode records) _ _ (λ _. tidy)
            λ encoded _.
              Option-split LeavesTidy f.uuid _ _ (λ _. tidy)
                λ uuid e.
                  write_tracked-IsTidy
                    (tx_input store f o key values token records views encoded uuid) w tidy
                    (fair.0 uuid e) fair.1

  write_with_token-IsTidy :
      (o : Options T) (key : Bytes) (values : List Bytes) (token : Bytes) (records : List T)
      (w : World)
      → IsTidy w
      → IsFair key
      → IsTidy (write_with_token store f o key values token records w).1
  unfolding write_with_token
  write_with_token-IsTidy o key values [] records w tidy fair =
      write_fresh-IsTidy o key values [] records w tidy fair
  write_with_token-IsTidy o key values (c ∷ token) records w tidy fair =
      Option-split LeavesTidy (lookup_token_file_ref f.lookup_fails store key (c ∷ token) w) _ _
        (λ _. tidy)
        λ hit _.
          Option-split LeavesTidy hit _ _
            (λ _. write_fresh-IsTidy o key values (c ∷ token) records w tidy fair) λ ref _. tidy

-- A write of a partition, with any calls failing, leaves every object pending or filed and every
-- filed object in the bucket if it found them so, where what others do before its transaction is
-- polite to its key and what they do after it keeps the two promises.
pub write_partition-IsTidy :
    {T : Type 0} (store : Store) (f : Faults T) (o : Options T) (key : Bytes) (values : List Bytes)
    (records : List T) (w : World)
    → IsTidy w
    → ((uuid : Bytes)
        → f.uuid ≡ some uuid
        → IsPolite (data_key store.s3_prefix key uuid) f.before_tx)
    → ((v : World) → IsTidy v → IsTidy (f.after_tx v))
    → IsTidy (write_partition store f o key values records w).1
unfolding write_partition
write_partition-IsTidy store f o key values records w tidy before after =
    Option-split (LeavesTidy store f) (resolve_token o records) _ _ (λ _. tidy)
      λ token _. write_with_token-IsTidy store f o key values token records w tidy (before, after)
