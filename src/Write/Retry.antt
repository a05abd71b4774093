-- ===== src/Write/Retry.antt =====
-- The idempotency token of a write: what a lookup and a retry find after it.
use s3pgstore.Base.{
  Option-split, ℕ, ◌≡◌, refl, sym, subst, ap, Bool, true, false, none, some, List, ◌∷◌,
  if◌then◌else◌, arith, Bytes, Result, ok, err, ◌∙◌,
}
use s3pgstore.Catalog.Files.{file_row, idempotency_lookup}
use s3pgstore.Store.{Store, World, FileRef, file_ref_of}
use s3pgstore.Write.Tx.{
  TxError, version_conflict, token_race_lost, begin_failed, upsert_failed, insert_failed,
  put_failed, delete_failed, views_failed, notify_failed, commit_failed, bad_bag, TxInput, Outcome,
  run_in_tx, tx_body, new_file, nullable_string,
}
use s3pgstore.Write.{
  WriteError, Options, Faults, written_ref, translate_write_tx_err, conclude, write_tracked,
  write_fresh, write_with_token, write_partition, tx_input, insert_pending_detached,
  delete_pending_detached, lookup_token_file_ref, resolve_token,
}
use s3pgstore.Write.Found.{IsDone, run_in_tx-IsDone}

-- The two references name one file, with one version and one time.
unfoldable pub IsSameFile : FileRef → FileRef → Type 0
IsSameFile a b =
    (a.file_id ≡ b.file_id)
    × (a.s3_key ≡ b.s3_key)
    × (a.partition_key ≡ b.partition_key)
    × (a.version ≡ b.version)
    × (a.written_at ≡ b.written_at)
    × (a.file_size ≡ b.file_size)
    × (a.uncompressed_size ≡ b.uncompressed_size)
    × (a.record_count ≡ b.record_count)

-- A lookup of the token answers with the file of the reference.
unfoldable pub IsRemembered : Store → Bytes → Bytes → World → FileRef → Type 0
unfolding IsSameFile
IsRemembered store key token w ref =
    (hit : FileRef) × (lookup_token_file_ref false store key token w ≡ some (some hit))
    × IsSameFile hit ref

module _ {T : Type 0} (store : Store) (f : Faults T) (key token : Bytes) where
  abbrev Remembers : Result WriteError FileRef × World → Type 0
  Remembers (ok ref, w) = IsRemembered store key token w ref
  Remembers (err e, w) = Unit

  looked_up :
      (fails : Bool) (w : World) (ref : FileRef)
      → lookup_token_file_ref fails store key token w ≡ some (some ref)
      → IsRemembered store key token w ref
  unfolding lookup_token_file_ref IsRemembered
  looked_up true w ref h = ground (arith, h)
  looked_up false w ref h = (ref, h, (refl, refl, refl, refl, refl, refl, refl, refl))

  translate_write_tx_err-Remembers :
      (e : TxError) (w : World)
      → Remembers (translate_write_tx_err f.relookup_fails store e key token w, w)
  unfolding translate_write_tx_err
  translate_write_tx_err-Remembers token_race_lost w =
      Option-split now (lookup_token_file_ref f.relookup_fails store key token w) _ _ (λ _. tt)
        λ hit e.
          Option-split now hit _ _ (λ _. tt)
            λ ref e'. looked_up f.relookup_fails w ref (e ∙ ap some e')
    where
      now : Result WriteError FileRef → Type 0
      now r = Remembers (r, w)
  translate_write_tx_err-Remembers version_conflict w = tt
  translate_write_tx_err-Remembers begin_failed w = tt
  translate_write_tx_err-Remembers upsert_failed w = tt
  translate_write_tx_err-Remembers insert_failed w = tt
  translate_write_tx_err-Remembers put_failed w = tt
  translate_write_tx_err-Remembers delete_failed w = tt
  translate_write_tx_err-Remembers views_failed w = tt
  translate_write_tx_err-Remembers notify_failed w = tt
  translate_write_tx_err-Remembers commit_failed w = tt
  translate_write_tx_err-Remembers (bad_bag b) w = tt

  -- The row that the write inserted is the file of the reference it returns.
  written_ref-IsRemembered :
      (i : TxInput) (w : World) (version id at : ℕ)
      → i.partition_key ≡ key
      → idempotency_lookup i.partition_key token w.tables
        ≡ some (file_row (new_file store i version) id at)
      → IsRemembered store key token w (written_ref i version id at)
  unfolding IsRemembered lookup_token_file_ref file_ref_of
  written_ref-IsRemembered i w version id at e h = (
    file_ref_of store.exts (file_row (new_file store i version) id at),
    ground (arith, e, h),
    (refl, refl, refl, refl, refl, refl, refl, refl),
  )

  conclude-Remembers :
      (i : TxInput) (out : Outcome (ℕ × ℕ × ℕ))
      → i.partition_key ≡ key
      → i.token ≡ token
      → IsDone f.tx store i token out
      → Remembers (conclude store f i out)
  unfolding conclude
  conclude-Remembers i (ok (version, id, at), attempted, w) e e' h =
      written_ref-IsRemembered i w version id at e h
  conclude-Remembers i (err x, attempted, w) e e' h =
      subst
        (λ k. Remembers (translate_write_tx_err f.relookup_fails store x k i.token later, later))
        (sym e)
        (subst (λ t. Remembers (translate_write_tx_err f.relookup_fails store x key t later, later))
          (sym e') (translate_write_tx_err-Remembers x later))
    where
      later : World
      later =
          f.after_tx (if attempted then w else delete_pending_detached f.cleanup_fails i.s3_key w)

  write_tracked-Remembers :
      (i : TxInput) (w : World)
      → i.partition_key ≡ key
      → i.token ≡ token
      → nullable_string i.token ≡ some token
      → Remembers (write_tracked store f i w)
  unfolding write_tracked
  write_tracked-Remembers i w e e' h =
      Option-split Remembers (insert_pending_detached f.pending_fails i.s3_key f.pending_at w) _ _
        (λ _. tt)
        λ w' _.
          conclude-Remembers i (run_in_tx f.tx (tx_body f.tx store i) (f.before_tx w')) e e'
            (run_in_tx-IsDone f.tx store i token (f.before_tx w') h)

  write_fresh-Remembers :
      (o : Options T) (values : List Bytes) (records : List T) (w : World)
      → nullable_string token ≡ some token
      → Remembers (write_fresh store f o key values token records w)
  unfolding write_fresh
  write_fresh-Remembers o values records w h =
      Option-split Remembers (f.view_rows records) _ _ (λ _. tt)
        λ views _.
          Option-split Remembers (f.encode records) _ _ (λ _. tt)
            λ encoded _.
              Option-split Remembers f.uuid _ _ (λ _. tt)
                λ uuid _.
                  write_tracked-Remembers
                    (tx_input store f o key values token records views encoded uuid) w refl refl h

module _ {T : Type 0} (store : Store) (f : Faults T) (key : Bytes) (c : ℕ) (token : Bytes) where
  write_with_token-Remembers :
      (o : Options T) (values : List Bytes) (records : List T) (w : World)
      → Remembers store f key
          (c ∷ token)
          (write_with_token store f o key values (c ∷ token) records w)
  unfolding write_with_token
  write_with_token-Remembers o values records w =
      Option-split P (lookup_token_file_ref f.lookup_fails store key (c ∷ token) w) _ _ (λ _. tt)
        λ hit e.
          Option-split P hit _ _
            (λ _. write_fresh-Remembers store f key (c ∷ token) o values records w refl)
            λ ref e'. looked_up store f key (c ∷ token) f.lookup_fails w ref (e ∙ ap some e')
    where
      P : Result WriteError FileRef × World → Type 0
      P = Remembers store f key (c ∷ token)

-- Once a write with a token has returned a reference, a retry with the token in the world it left,
-- whatever its records and its other options, returns a reference to the same file and changes
-- nothing, where its lookup does not fail.
pub write_partition-retry :
    {T : Type 0} (store : Store) (f f' : Faults T) (o o' : Options T) (key : Bytes)
    (values : List Bytes) (records records' : List T) (w w' : World) (ref : FileRef) (c : ℕ)
    (token : Bytes)
    → resolve_token o records ≡ some (c ∷ token)
    → resolve_token o' records' ≡ some (c ∷ token)
    → f'.lookup_fails ≡ false
    → write_partition store f o key values records w ≡ (ok ref, w')
    → (hit : FileRef) × (write_partition store f' o' key values records' w' ≡ (ok hit, w'))
      × IsSameFile hit ref
unfolding write_partition write_with_token IsRemembered
write_partition-retry store f f' o o' key values records records' w w' ref c token e e' h written =
    let found =
      subst (Remembers store f key (c ∷ token))
        (sym (
            ap
              (λ t. elim t [
                | none ↦ (err WriteError.token_failed, w)
                | some x ↦ write_with_token store f o key values x records w
              ])
              e)
          ∙ written)
        (write_with_token-Remembers store f key c token o values records w) in
    (found.0, grind (arith, e', h, found.1), found.2)
