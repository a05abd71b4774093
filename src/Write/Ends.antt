-- ===== src/Write/Ends.antt =====
-- What a write that returns a reference, and one that fails, leave in the catalog.
use s3pgstore.Base.{
  ℕ, ◌≡◌, subst, ap, ◌∙◌, Bool, true, ◌&&◌, some, List, [], ◌∷◌, arith, Bytes, bytes_eq,
  bytes_eq_refl, Result, ok, err, inl, inr, find, any, Option-split, Option-cases,
}
use s3pgstore.Catalog.Tables.{FileRow}
use s3pgstore.Catalog.Files.{same_token, idempotency_lookup}
use s3pgstore.Store.{Store, World, FileRef, file_ref_of, filed}
use s3pgstore.Write.Tx.{
  TxError, token_race_lost, version_conflict, TxInput, Outcome, run_in_tx, tx_body,
}
use s3pgstore.Write.Tracking.{IsEnded, run_in_tx-IsEnded}
use s3pgstore.Write.{
  WriteError, Options, Faults, translate_write_tx_err, conclude, write_tracked, write_fresh,
  write_with_token, write_partition, tx_input, insert_pending_detached, lookup_token_file_ref,
  resolve_token,
}

any-find :
    (p : FileRow → Bool) (rows : List FileRow) (r : FileRow)
    → find p rows ≡ some r
    → any (λ x. bytes_eq x.s3_key r.s3_key) rows ≡ true
any-find p [] r h = ground (arith, h)
any-find p (x ∷ rows) r h = ground (arith, h, any-find p rows r, bytes_eq_refl r.s3_key)

-- A looked-up reference is that of a row.
lookup-filed :
    (fails : Bool) (store : Store) (key token : Bytes) (w : World) (ref : FileRef)
    → lookup_token_file_ref fails store key token w ≡ some (some ref)
    → filed ref.s3_key w.tables ≡ true
unfolding lookup_token_file_ref idempotency_lookup filed file_ref_of
lookup-filed fails store key token w ref h = elim (Option-cases (find hit w.tables.files)) [
  | inl e ↦ ground (arith, h, e)
  | inr (r, e) ↦ ground (arith, h, e, any-find hit w.tables.files r e)
]
  where
    hit : FileRow → Bool
    hit r = bytes_eq r.partition_key key && same_token r.idempotency_token (some token)

abbrev IsFiled : Result WriteError FileRef × World → Type 0
IsFiled (ok ref, w) = filed ref.s3_key w.tables ≡ true
IsFiled (err e, w) = Unit

module _ {T : Type 0} (store : Store) (f : Faults T) where
  translate_write_tx_err-IsFiled :
      (e : TxError) (key token : Bytes) (w : World)
      → IsFiled (translate_write_tx_err f.relookup_fails store e key token w, w)
  unfolding translate_write_tx_err
  translate_write_tx_err-IsFiled token_race_lost key token w =
      Option-split now (lookup_token_file_ref f.relookup_fails store key token w) _ _ (λ _. tt)
        λ hit e.
          Option-split now hit _ _ (λ _. tt)
            λ ref e'. lookup-filed f.relookup_fails store key token w ref (e ∙ ap some e')
    where
      now : Result WriteError FileRef → Type 0
      now r = IsFiled (r, w)
  translate_write_tx_err-IsFiled version_conflict key token w = tt
  translate_write_tx_err-IsFiled TxError.begin_failed key token w = tt
  translate_write_tx_err-IsFiled TxError.upsert_failed key token w = tt
  translate_write_tx_err-IsFiled TxError.insert_failed key token w = tt
  translate_write_tx_err-IsFiled TxError.put_failed key token w = tt
  translate_write_tx_err-IsFiled TxError.delete_failed key token w = tt
  translate_write_tx_err-IsFiled TxError.views_failed key token w = tt
  translate_write_tx_err-IsFiled TxError.notify_failed key token w = tt
  translate_write_tx_err-IsFiled TxError.commit_failed key token w = tt
  translate_write_tx_err-IsFiled (TxError.bad_bag b) key token w = tt

  conclude-IsFiled :
      (i : TxInput) (o s p : Bool) (out : Outcome (ℕ × ℕ × ℕ))
      → IsEnded i.s3_key i.s3_key o s p out
      → IsFiled (conclude store f i out)
  unfolding conclude
  conclude-IsFiled i o s p (ok a, attempted, w) h = ground (arith, h, bytes_eq_refl i.s3_key)
  conclude-IsFiled i o s p (err e, attempted, w) h =
      translate_write_tx_err-IsFiled e i.partition_key i.token _

  write_fresh-IsFiled :
      (o : Options T) (key : Bytes) (values : List Bytes) (token : Bytes) (records : List T)
      (w : World)
      → IsFiled (write_fresh store f o key values token records w)
  unfolding write_fresh write_tracked
  write_fresh-IsFiled o key values token records w =
      Option-split IsFiled (f.view_rows records) _ _ (λ _. tt)
        λ views _.
          Option-split IsFiled (f.encode records) _ _ (λ _. tt)
            λ encoded _.
              Option-split IsFiled f.uuid _ _ (λ _. tt)
                λ uuid _.
                  let i = tx_input store f o key values token records views encoded uuid in
                  Option-split IsFiled
                    (insert_pending_detached f.pending_fails i.s3_key f.pending_at w) _ _ (λ _. tt)
                    λ w' _.
                      conclude-IsFiled i _ _ _
                        (run_in_tx f.tx (tx_body f.tx store i) (f.before_tx w'))
                        (run_in_tx-IsEnded i.s3_key f.tx store i (f.before_tx w'))

  write_with_token-IsFiled :
      (o : Options T) (key : Bytes) (values : List Bytes) (token : Bytes) (records : List T)
      (w : World)
      → IsFiled (write_with_token store f o key values token records w)
  unfolding write_with_token
  write_with_token-IsFiled o key values [] records w = write_fresh-IsFiled o key values [] records w
  write_with_token-IsFiled o key values (c ∷ token) records w =
      Option-split IsFiled (lookup_token_file_ref f.lookup_fails store key (c ∷ token) w) _ _
        (λ _. tt)
        λ hit e.
          Option-split IsFiled hit _ _ (λ _. write_fresh-IsFiled o key values (c ∷ token) records w)
            λ ref e'. lookup-filed f.lookup_fails store key (c ∷ token) w ref (e ∙ ap some e')

-- A reference that a write returns, with any calls failing before, names a file with a row.
pub write_partition-filed :
    {T : Type 0} (store : Store) (f : Faults T) (o : Options T) (key : Bytes) (values : List Bytes)
    (records : List T) (w w' : World) (ref : FileRef)
    → write_partition store f o key values records w ≡ (ok ref, w')
    → filed ref.s3_key w'.tables ≡ true
unfolding write_partition
write_partition-filed store f o key values records w w' ref h = subst IsFiled h (
    Option-split IsFiled (resolve_token o records) _ _ (λ _. tt)
      λ token _. write_with_token-IsFiled store f o key values token records w)
