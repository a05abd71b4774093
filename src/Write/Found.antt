-- ===== src/Write/Found.antt =====
-- The transaction of a write with a token: a lookup of the token finds the row it inserted.
use s3pgstore.Base.{
  if-split, ℕ, ◌≡◌, refl, Bool, true, false, ◌&&◌, Option, none, some, List, [], ◌∷◌, ◌++◌,
  if◌then◌else◌, arith, Bytes, bytes_eq, bytes_eq_refl, Result, ok, err, inl, inr, find, any,
  Bool-cases,
}
use s3pgstore.Base.Int.{pos}
use s3pgstore.Base.Dict.{Dict}
use s3pgstore.Metadata.Bag.{BagError, build_s3_metadata}
use s3pgstore.Catalog.Pending.{pending_write_delete}
use s3pgstore.Catalog.Tables.{FileRow, Tables}
use s3pgstore.Catalog.Files.{
  NewFile, same_token, clashes, file_row, files_insert, idempotency_lookup,
}
use s3pgstore.Sequencer.{TxOutcome, committed, rolled_back, committed_unseen}
use s3pgstore.Store.{Object, Store, World}
use s3pgstore.Write.Tx.{
  TxError, TxFaults, TxState, TxInput, Outcome, begin, finish, commit, run_in_tx, tx_body, new_file,
  nullable_string, TxM, proceed, upsert_partition, insert_file, inserted, bag, PutOutcome, put_ok,
  put_refused, put_stored_unseen, put_object, delete_pending, insert_mv_rows, notify_sequencer,
}
use s3pgstore.Write.Body.{insert_view_rows_keeps}

has_token : Bytes → Bytes → FileRow → Bool
has_token key token r = bytes_eq r.partition_key key && same_token r.idempotency_token (some token)

-- Where no row clashes with the new one, none has its token, and the new row is the one found.
find-new :
    (f : NewFile) (token : Bytes) (x : FileRow) (rows : List FileRow)
    → f.token ≡ some token
    → any (clashes f) rows ≡ false
    → has_token f.partition_key token x ≡ true
    → find (has_token f.partition_key token) (rows ++ (x ∷ [])) ≡ some x
unfolding has_token
find-new f token x [] e h hx = ground (arith, hx)
find-new f token x (r ∷ rows) e h hx = ground (arith, e, h, find-new f token x rows e)

-- An insert that returns a row makes the row the one that a lookup of its token finds.
pub idempotency_lookup-files_insert :
    (f : NewFile) (now : ℕ) (t : Tables) (token : Bytes) (id at : ℕ)
    → f.token ≡ some token
    → (files_insert f now t).0 ≡ some (id, at)
    → idempotency_lookup f.partition_key token (files_insert f now t).1 ≡ some (file_row f id at)
unfolding files_insert idempotency_lookup has_token
idempotency_lookup-files_insert f now t token id at e h =
    elim (Bool-cases (any (clashes f) t.files)) [
      | inl c ↦ ground (arith, h, c)
      | inr c ↦ ground (
        arith,
        h,
        c,
        find-new f token (file_row f t.next_file_id now) t.files e c
            (ground (arith, e, bytes_eq_refl f.partition_key, bytes_eq_refl token)),
      )
    ]

-- A step that returns a value leaves a state in Q.
abbrev Returns : {A : Type 0} → (A → TxState → Type 0) → Result TxError A × TxState → Type 0
Returns Q (ok a, s) = Q a s
Returns Q (err e, s) = Unit

then-Returns :
    {A B : Type 0} (P : A → TxState → Type 0) (Q : B → TxState → Type 0)
    (m : Result TxError A × TxState) (f : A → TxM B)
    → Returns P m
    → ((a : A) (s : TxState) → P a s → Returns Q (f a s))
    → Returns Q (proceed m f)
then-Returns P Q (ok a, s) f h k = k a s h
then-Returns P Q (err e, s) f h k = tt

if_err-Returns :
    {A : Type 0} (Q : A → TxState → Type 0) (b : Bool) (e : TxError) (s : TxState)
    (n : Result TxError A × TxState)
    → Returns Q n
    → Returns Q (if b then (err e, s) else n)
if_err-Returns Q true e s n h = tt
if_err-Returns Q false e s n h = h

module _ (faults : TxFaults) (store : Store) (i : TxInput) (token : Bytes) where
  -- The lookup of the token finds the row of the write, with this version, id and time.
  abbrev IsFound : ℕ → ℕ × ℕ → TxState → Type 0
  IsFound version row s =
      idempotency_lookup i.partition_key token s.tables
      ≡ some (file_row (new_file store i version) row.0 row.1)

  inserted-Returns :
      (version : ℕ) (e : TxError) (r : Option (ℕ × ℕ) × Tables) (s : TxState)
      → ((row : ℕ × ℕ)
          → r.0 ≡ some row
          → idempotency_lookup i.partition_key token r.1
            ≡ some (file_row (new_file store i version) row.0 row.1))
      → Returns (IsFound version) (inserted e r s)
  unfolding inserted
  inserted-Returns version e (none, t) s h = tt
  inserted-Returns version e (some row, t) s h = h row refl

  insert_file-Returns :
      (version : ℕ) (s : TxState)
      → nullable_string i.token ≡ some token
      → Returns (IsFound version) (insert_file faults store i version s)
  unfolding insert_file
  insert_file-Returns version s e = if_err-Returns _ faults.insert_fails _ _ _ (
      inserted-Returns version _ (files_insert (new_file store i version) faults.now s.tables) s
        λ row h.
          idempotency_lookup-files_insert (new_file store i version) faults.now s.tables token row.0
            row.1 e h)

  bag-Returns :
      (version : ℕ) (row : ℕ × ℕ) (r : Result BagError (Dict Bytes)) (s : TxState)
      → IsFound version row s
      → Returns (λ _. IsFound version row) (bag r s)
  unfolding bag
  bag-Returns version row (ok md) s h = h
  bag-Returns version row (err e) s h = tt

  put_object-Returns :
      (version : ℕ) (row : ℕ × ℕ) (out : PutOutcome) (x : Object) (s : TxState)
      → IsFound version row s
      → Returns (λ _. IsFound version row) (put_object out x s)
  unfolding put_object
  put_object-Returns version row put_ok x s h = h
  put_object-Returns version row put_refused x s h = tt
  put_object-Returns version row put_stored_unseen x s h = tt

  rest-Returns :
      (version : ℕ) (row : ℕ × ℕ) (s : TxState)
      → IsFound version row s
      → Returns (λ _. IsFound version row) (delete_pending faults i.s3_key s)
        × Returns (λ _. IsFound version row) (insert_mv_rows faults i.views s)
        × Returns (λ _. IsFound version row) (notify_sequencer faults store.notify_channel s)
  unfolding delete_pending insert_mv_rows notify_sequencer pending_write_delete idempotency_lookup
  rest-Returns version row s h = (
    if_err-Returns _ faults.delete_fails _ _ _ h,
    if_err-Returns _ faults.views_fail _ _ _
        (grind (arith, h, insert_view_rows_keeps i.views s.tables)),
    notified store.notify_channel,
  )
    where
      notified : (c : Bytes) → Returns (λ _. IsFound version row) (notify_sequencer faults c s)
      notified [] = h
      notified (c ∷ channel) = if_err-Returns _ faults.notify_fails _ _ _ h

  tx_body-Returns :
      (s : TxState)
      → nullable_string i.token ≡ some token
      → Returns (λ r. IsFound r.0 (r.1, r.2)) (tx_body faults store i s)
  unfolding tx_body
  tx_body-Returns s e =
      then-Returns (λ _ _. Unit) Q (upsert_partition faults i s) _
        (always (upsert_partition faults i s))
        λ version s1 _.
          then-Returns (IsFound version) Q (insert_file faults store i version s1) _
            (insert_file-Returns version s1 e)
            λ row s2 h2.
              then-Returns (λ _. IsFound version row) Q (bag (the_bag version) s2) _
                (bag-Returns version row (the_bag version) s2 h2)
                λ md s3 h3.
                  then-Returns (λ _. IsFound version row) Q
                    (put_object faults.put (the_object md) s3) _
                    (put_object-Returns version row faults.put (the_object md) s3 h3)
                    λ _ s4 h4.
                      then-Returns (λ _. IsFound version row) Q (delete_pending faults i.s3_key s4)
                        _ (rest-Returns version row s4 h4).0
                        λ _ s5 h5.
                          then-Returns (λ _. IsFound version row) Q
                            (insert_mv_rows faults i.views s5) _ (rest-Returns version row s5 h5).1
                            λ _ s6 h6.
                              then-Returns (λ _. IsFound version row) Q
                                (notify_sequencer faults store.notify_channel s6) _
                                (rest-Returns version row s6 h6).2 λ _ s7 h7. h7
    where
      Q : ℕ × ℕ × ℕ → TxState → Type 0
      Q r = IsFound r.0 (r.1, r.2)

      always : {A : Type 0} (m : Result TxError A × TxState) → Returns (λ _ _. Unit) m
      always (ok a, s) = tt
      always (err x, s) = tt

      the_bag : ℕ → Result BagError (Dict Bytes)
      the_bag version =
          build_s3_metadata store.codec i.token (pos i.record_count) (pos i.uncompressed_size)
            (pos version) store.exts i.metadata

      the_object : Dict Bytes → Object
      the_object md = record { key = i.s3_key; body = i.body; metadata = md }

  -- What a transaction that returns leaves for a lookup of the token.
  abbrev pub IsDone : Outcome (ℕ × ℕ × ℕ) → Type 0
  IsDone (ok (version, id, at), attempted, w) =
      idempotency_lookup i.partition_key token w.tables
      ≡ some (file_row (new_file store i version) id at)
  IsDone (err e, attempted, w) = Unit

  finish-IsDone :
      (c : TxOutcome) (w : World) (r : Result TxError (ℕ × ℕ × ℕ) × TxState)
      → Returns (λ r. IsFound r.0 (r.1, r.2)) r
      → IsDone (finish c w r)
  unfolding finish commit
  finish-IsDone c w (err e, s) h = tt
  finish-IsDone committed w (ok r, s) h = h
  finish-IsDone rolled_back w (ok r, s) h = tt
  finish-IsDone committed_unseen w (ok r, s) h = tt

  pub run_in_tx-IsDone :
      (w : World)
      → nullable_string i.token ≡ some token
      → IsDone (run_in_tx faults (tx_body faults store i) w)
  unfolding run_in_tx
  run_in_tx-IsDone w e =
      if-split IsDone faults.begin_fails _ _ (λ _. tt)
        λ _.
          finish-IsDone faults.commit w (tx_body faults store i (begin w))
            (tx_body-Returns (begin w) e)
