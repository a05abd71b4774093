-- ===== src/Catalog/Pending/Rows.antt =====
-- The keys that the statements of sql.go leave in s3pgstore_files and s3pgstore_pending_writes.
use s3pgstore.Base.{
  ℕ, ◌≡◌, refl, false, ◌&&◌, ◌||◌, not, some, List, [], ◌∷◌, arith, Bytes, bytes_eq, bytes_eq_iff,
  any, keep, any-append,
}
use s3pgstore.Catalog.Tables.{PendingRow, Tables}
use s3pgstore.Catalog.Files.{NewFile, files_insert, file_row}
use s3pgstore.Catalog.Pending.{pending_write_insert, pending_write_delete}
use s3pgstore.Store.{filed, pending}

any-keep-not :
    (k j : Bytes) (rs : List PendingRow)
    → any (λ r. bytes_eq r.s3_key j) (keep (λ r. not (bytes_eq r.s3_key k)) rs)
      ≡ (any (λ r. bytes_eq r.s3_key j) rs && not (bytes_eq k j))
any-keep-not k j [] = refl
any-keep-not k j (r ∷ rs) =
    ground (
      arith,
      bytes_eq_iff k j,
      bytes_eq_iff r.s3_key k,
      bytes_eq_iff r.s3_key j,
      any-keep-not k j rs,
    )

pub pending-pending_write_delete :
    (k j : Bytes) (t : Tables)
    → pending j (pending_write_delete k t) ≡ (pending j t && not (bytes_eq k j))
unfolding pending pending_write_delete
pending-pending_write_delete k j t = any-keep-not k j t.pending_writes

pub filed-pending_write_delete :
    (k j : Bytes) (t : Tables) → filed j (pending_write_delete k t) ≡ filed j t
unfolding filed pending_write_delete
filed-pending_write_delete k j t = refl

pub pending-pending_write_insert :
    (k j : Bytes) (at : ℕ) (t t' : Tables)
    → pending_write_insert k at t ≡ some t'
    → (pending k t ≡ false) × (pending j t' ≡ (pending j t || bytes_eq k j)) × (t'.files ≡ t.files)
unfolding pending pending_write_insert
pending-pending_write_insert k j at t t' h = ground (
  arith,
  h,
  any-append (λ r. bytes_eq r.s3_key j) t.pending_writes
      (record { s3_key = k; intended_at = at } ∷ []),
)

pub files_insert_keeps :
    (f : NewFile) (now : ℕ) (t : Tables)
    → (files_insert f now t).1.pending_writes ≡ t.pending_writes
unfolding files_insert
files_insert_keeps f now t = ground arith

-- An insert that returns a row adds the row's key to the keys of the files.
pub filed-files_insert :
    (f : NewFile) (now : ℕ) (t : Tables) (j : Bytes) (row : ℕ × ℕ)
    → (files_insert f now t).0 ≡ some row
    → filed j (files_insert f now t).1 ≡ (filed j t || bytes_eq f.s3_key j)
unfolding filed files_insert
filed-files_insert f now t j row h =
    ground
      (arith, h, any-append (λ r. bytes_eq r.s3_key j) t.files (file_row f t.next_file_id now ∷ []))
