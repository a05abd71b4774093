-- ===== src/Write/Body.antt =====
-- The steps of the transaction of writePartition: which objects, file rows and tracking rows each
-- one leaves.
use s3pgstore.Base.{
  ℕ, zero, suc, ◌≡◌, refl, sym, subst, Bool, true, false, ◌&&◌, ◌||◌, not, Option, none, some, List,
  [], ◌∷◌, if◌then◌else◌, arith, Bytes, bytes_eq, length, take, drop, any, any-append, Result, ok,
  err, ◌∙◌, ◌⊎◌, inl, inr,
}
use s3pgstore.Base.Int.{ℤ, pos, negsuc}
use s3pgstore.Catalog.Tables.{Tables}
use s3pgstore.Catalog.Partitions.{partition_upsert, partition_update_occ}
use s3pgstore.Catalog.Files.{files_insert}
use s3pgstore.Catalog.Pending.Rows.{
  pending-pending_write_delete, filed-pending_write_delete, filed-files_insert, files_insert_keeps,
}
use s3pgstore.Catalog.Views.{mv_insert}
use s3pgstore.Base.Dict.{Dict}
use s3pgstore.Metadata.Bag.{BagError, build_s3_metadata}
use s3pgstore.Store.{Store, Object, filed, pending}
use s3pgstore.Write.Tx.{
  TxError, PutOutcome, put_ok, put_refused, put_stored_unseen, TxFaults, TxState, TxInput, ViewRows,
  TxM, proceed, returned, inserted, upsert_statement, upsert_partition, insert_file, put_object,
  delete_pending, mv_insert_chunk_size, insert_chunks, insert_view_rows, insert_mv_rows,
  notify_sequencer, tx_body, bag, new_file,
}

abbrev pub object_in : Bytes → TxState → Bool
object_in j s = any (λ o. bytes_eq o.key j) s.objects

-- What a state answers about the key `j`, and its flag.
abbrev pub IsAt : Bytes → Bool → Bool → Bool → Bool → TxState → Type 0
IsAt j o f p a s =
    (object_in j s ≡ o) × (filed j s.tables ≡ f) × (pending j s.tables ≡ p) × (s.put_attempted ≡ a)

-- A failure added no object, or at most one with the key `k` and then set the flag.
abbrev pub IsFailed : Bytes → Bytes → Bool → TxState → Type 0
IsFailed k j o s =
    (object_in j s ≡ o) ⊎ ((object_in j s ≡ (o || bytes_eq k j)) × (s.put_attempted ≡ true))

-- A step that returns leaves a state in Q, one that fails a state in E.
abbrev pub Leaves :
    {A : Type 0} → (TxState → Type 0) → (TxState → Type 0) → Result TxError A × TxState → Type 0
Leaves Q E (ok a, s) = Q s
Leaves Q E (err e, s) = E s

proceed-Leaves :
    {A B : Type 0} (P Q E : TxState → Type 0) (m : Result TxError A × TxState) (f : A → TxM B)
    → Leaves P E m
    → ((a : A) (s : TxState) → P s → Leaves Q E (f a s))
    → Leaves Q E (proceed m f)
proceed-Leaves P Q E (ok a, s) f h k = k a s h
proceed-Leaves P Q E (err e, s) f h k = h

pub upsert_statement_keeps :
    (e : Option ℤ) (key : Bytes) (values : List Bytes) (now : ℕ) (t : Tables)
    → ((upsert_statement e key values now t).1.files ≡ t.files)
      × ((upsert_statement e key values now t).1.pending_writes ≡ t.pending_writes)
unfolding upsert_statement partition_upsert partition_update_occ
upsert_statement_keeps none key values now t = ground arith
upsert_statement_keeps (some (pos zero)) key values now t = ground arith
upsert_statement_keeps (some (pos (suc n))) key values now t = ground arith
upsert_statement_keeps (some (negsuc n)) key values now t = ground arith

if-Leaves :
    {A : Type 0} (Q E : TxState → Type 0) (b : Bool) (m n : Result TxError A × TxState)
    → Leaves Q E m
    → Leaves Q E n
    → Leaves Q E (if b then m else n)
if-Leaves Q E true m n hm hn = hm
if-Leaves Q E false m n hm hn = hn

insert_chunks_keeps :
    (fuel size : ℕ) (name : Bytes) (rows : List (List Bytes)) (t : Tables)
    → ((insert_chunks fuel size name rows t).files ≡ t.files)
      × ((insert_chunks fuel size name rows t).pending_writes ≡ t.pending_writes)
unfolding insert_chunks mv_insert
insert_chunks_keeps fuel size name [] t = (refl, refl)
insert_chunks_keeps zero size name (row ∷ rows) t = (refl, refl)
insert_chunks_keeps (suc fuel) size name (row ∷ rows) t =
    insert_chunks_keeps fuel size name (drop size (row ∷ rows))
      (mv_insert name (take size (row ∷ rows)) t)

pub insert_view_rows_keeps :
    (views : List ViewRows) (t : Tables)
    → ((insert_view_rows views t).files ≡ t.files)
      × ((insert_view_rows views t).pending_writes ≡ t.pending_writes)
unfolding insert_view_rows
insert_view_rows_keeps [] t = (refl, refl)
insert_view_rows_keeps (v ∷ views) t =
    let one = insert_chunks_keeps (length v.rows) mv_insert_chunk_size v.name v.rows t in
    let rest =
      insert_view_rows_keeps views
        (insert_chunks (length v.rows) mv_insert_chunk_size v.name v.rows t) in
    (rest.0 ∙ one.0, rest.1 ∙ one.1)

module _ (k j : Bytes) (o f p : Bool) where
  abbrev IsBefore : TxState → Type 0
  IsBefore s = IsAt j o f p false s

  abbrev pub IsAfter : TxState → Type 0
  IsAfter s = IsAt j (o || bytes_eq k j) (f || bytes_eq k j) (p && not (bytes_eq k j)) true s

  abbrev IsInserted : TxState → Type 0
  IsInserted s = IsAt j o (f || bytes_eq k j) p false s

  abbrev IsPut : TxState → Type 0
  IsPut s = IsAt j (o || bytes_eq k j) (f || bytes_eq k j) p true s

  returned-Leaves :
      (e : TxError) (r : Option ℕ × Tables) (s : TxState)
      → (r.1.files ≡ s.tables.files) × (r.1.pending_writes ≡ s.tables.pending_writes)
      → IsBefore s
      → Leaves IsBefore (IsFailed k j o) (returned e r s)
  unfolding returned filed pending
  returned-Leaves e (none, t) s (hf, hp) h = inl h.0
  returned-Leaves e (some v, t) s (hf, hp) h = grind (arith, hf, hp, h)

  upsert_partition-Leaves :
      (faults : TxFaults) (i : TxInput) (s : TxState)
      → IsBefore s
      → Leaves IsBefore (IsFailed k j o) (upsert_partition faults i s)
  unfolding upsert_partition
  upsert_partition-Leaves faults i s h = if-Leaves _ _ faults.upsert_fails _ _ (inl h.0) (
      returned-Leaves _ _ s
        (upsert_statement_keeps i.expected_version i.partition_key i.part_values faults.now
          s.tables)
        h)

  inserted-Leaves :
      (e : TxError) (r : Option (ℕ × ℕ) × Tables) (s : TxState)
      → ((row : ℕ × ℕ) → r.0 ≡ some row → filed j r.1 ≡ (filed j s.tables || bytes_eq k j))
      → (r.1.pending_writes ≡ s.tables.pending_writes)
      → IsBefore s
      → Leaves IsInserted (IsFailed k j o) (inserted e r s)
  unfolding inserted pending
  inserted-Leaves e (none, t) s hf hp h = inl h.0
  inserted-Leaves e (some row, t) s hf hp h = grind (arith, hf row refl, hp, h)

  insert_file-Leaves :
      (faults : TxFaults) (store : Store) (i : TxInput) (version : ℕ) (s : TxState)
      → i.s3_key ≡ k
      → IsBefore s
      → Leaves IsInserted (IsFailed k j o) (insert_file faults store i version s)
  unfolding insert_file
  insert_file-Leaves faults store i version s e h =
      if-Leaves _ _ faults.insert_fails _ _ (inl h.0) (
        inserted-Leaves _ _ s
          (λ row hr.
            subst
              (λ x.
                filed j (files_insert (new_file store i version) faults.now s.tables).1
                ≡ (filed j s.tables || bytes_eq x j))
              e (filed-files_insert (new_file store i version) faults.now s.tables j row hr))
          (files_insert_keeps (new_file store i version) faults.now s.tables) h)

  bag-Leaves : (r : _) (s : TxState) → IsInserted s → Leaves IsInserted (IsFailed k j o) (bag r s)
  unfolding bag
  bag-Leaves (ok md) s h = h
  bag-Leaves (err e) s h = inl h.0

  put_object-Leaves :
      (out : PutOutcome) (x : Object) (s : TxState)
      → x.key ≡ k
      → IsInserted s
      → Leaves IsPut (IsFailed k j o) (put_object out x s)
  unfolding put_object
  put_object-Leaves put_ok x s e h =
      ground (arith, e, h, any-append (λ y. bytes_eq y.key j) s.objects (x ∷ []))
  put_object-Leaves put_refused x s e h = inl h.0
  put_object-Leaves put_stored_unseen x s e h =
      inr (ground (arith, e, h, any-append (λ y. bytes_eq y.key j) s.objects (x ∷ [])))

  delete_pending-Leaves :
      (faults : TxFaults) (s : TxState)
      → IsPut s
      → Leaves IsAfter (IsFailed k j o) (delete_pending faults k s)
  unfolding delete_pending
  delete_pending-Leaves faults s h = if-Leaves _ _ faults.delete_fails _ _ (inr (h.0, h.3)) (
      ground (
        arith,
        h,
        pending-pending_write_delete k j s.tables,
        filed-pending_write_delete k j s.tables,
      ))

  insert_mv_rows-Leaves :
      (faults : TxFaults) (views : List ViewRows) (s : TxState)
      → IsAfter s
      → Leaves IsAfter (IsFailed k j o) (insert_mv_rows faults views s)
  unfolding insert_mv_rows filed pending
  insert_mv_rows-Leaves faults views s h =
      if-Leaves _ _ faults.views_fail _ _ (inr (h.0, h.3))
        (grind (arith, h, insert_view_rows_keeps views s.tables))

  notify_sequencer-Leaves :
      (faults : TxFaults) (channel : Bytes) (s : TxState)
      → IsAfter s
      → Leaves IsAfter (IsFailed k j o) (notify_sequencer faults channel s)
  unfolding notify_sequencer
  notify_sequencer-Leaves faults [] s h = h
  notify_sequencer-Leaves faults (c ∷ channel) s h =
      if-Leaves _ _ faults.notify_fails _ _ (inr (h.0, h.3)) h

  then-Leaves :
      {A : Type 0} (P : TxState → Type 0) (m : Result TxError A × TxState) (g : A → TxM (ℕ × ℕ × ℕ))
      → Leaves P (IsFailed k j o) m
      → ((a : A) (s : TxState) → P s → Leaves IsAfter (IsFailed k j o) (g a s))
      → Leaves IsAfter (IsFailed k j o) (proceed m g)
  then-Leaves P m g = proceed-Leaves P IsAfter (IsFailed k j o) m g

  pub tx_body-Leaves :
      (faults : TxFaults) (store : Store) (i : TxInput) (s : TxState)
      → i.s3_key ≡ k
      → IsBefore s
      → Leaves IsAfter (IsFailed k j o) (tx_body faults store i s)
  unfolding tx_body
  tx_body-Leaves faults store i s e h =
      then-Leaves IsBefore (upsert_partition faults i s) _ (upsert_partition-Leaves faults i s h)
        λ version s1 h1.
          then-Leaves IsInserted (insert_file faults store i version s1) _
            (insert_file-Leaves faults store i version s1 e h1)
            λ row s2 h2.
              then-Leaves IsInserted (bag (the_bag version) s2) _
                (bag-Leaves (the_bag version) s2 h2)
                λ md s3 h3.
                  then-Leaves IsPut (put_object faults.put (the_object md) s3) _
                    (put_object-Leaves faults.put (the_object md) s3 e h3)
                    λ _ s4 h4.
                      then-Leaves IsAfter (delete_pending faults i.s3_key s4) _
                        (subst (λ x. Leaves IsAfter (IsFailed k j o) (delete_pending faults x s4))
                          (sym e) (delete_pending-Leaves faults s4 h4))
                        λ _ s5 h5.
                          then-Leaves IsAfter (insert_mv_rows faults i.views s5) _
                            (insert_mv_rows-Leaves faults i.views s5 h5)
                            λ _ s6 h6.
                              then-Leaves IsAfter (notify_sequencer faults store.notify_channel s6)
                                _ (notify_sequencer-Leaves faults store.notify_channel s6 h6)
                                λ _ s7 h7. h7
    where
      the_bag : ℕ → Result BagError (Dict Bytes)
      the_bag version =
          build_s3_metadata store.codec i.token (pos i.record_count) (pos i.uncompressed_size)
            (pos version) store.exts i.metadata

      the_object : Dict Bytes → Object
      the_object md = record { key = i.s3_key; body = i.body; metadata = md }
