-- ===== src/Read/Range.antt =====
-- read.go, ResolveFileRefsInRange: the files that were written in a window of time.
use s3pgstore.Base.{
  ℕ, ◌≡◌, ap, Bool, true, false, ◌&&◌, Option, none, some, List, [], ◌∷◌, ◌++◌, map, ltb, leb,
  Bytes, codes, length, Result, ok,
}
use mathlib.Core.Path.{fun_ext}
use s3pgstore.Base.Decimal.{format_uint}
use s3pgstore.Base.Separated.{join}
use s3pgstore.Catalog.Tables.{FileRow, Tables}
use s3pgstore.Catalog.Files.{files_query}
use s3pgstore.Store.{Store, FileRef, file_ref_of}
use s3pgstore.Read.{ReadError, query_file_rows}

-- A bound that is not the zero time: its condition and its argument, which `show` passes on.
unfoldable pub add_bound :
    (ℕ → Bytes) → Bytes → Option ℕ → List Bytes × List Bytes → List Bytes × List Bytes
add_bound show op none out = out
add_bound show op (some time) (parts, args) =
    let all = args ++ (show time ∷ []) in
    (parts ++ ((codes "written_at " ++ (op ++ (codes " $" ++ format_uint (length all)))) ∷ []), all)

abbrev pub or_all : List Bytes → List Bytes
or_all [] = codes "TRUE" ∷ []
or_all (p ∷ parts) = p ∷ parts

unfoldable pub range_clause : (ℕ → Bytes) → Option ℕ → Option ℕ → Bytes × List Bytes
unfolding add_bound join
range_clause show since until =
    let (parts, args) =
      add_bound show (codes "<") until (add_bound show (codes ">=") since ([], [])) in
    (join (codes " AND ") (or_all parts), args)

-- ResolveFileRefsInRange; none is the zero time.
unfoldable pub resolve_file_refs_in_range :
    (Bytes → List Bytes → FileRow → Bool)
    → Bool
    → Store
    → (ℕ → Bytes)
    → Option ℕ
    → Option ℕ
    → Tables
    → Result ReadError (List FileRef)
unfolding query_file_rows range_clause
resolve_file_refs_in_range selects query_fails store show since until t =
    let (where_text, args) = range_clause show since until in
    query_file_rows selects query_fails store where_text args t

-- Not before the one bound, and before the other.
abbrev pub in_window : Option ℕ → Option ℕ → FileRow → Bool
in_window none none r = true
in_window none (some until) r = ltb r.written_at until
in_window (some since) none r = leb since r.written_at
in_window (some since) (some until) r = leb since r.written_at && ltb r.written_at until

-- What PostgreSQL makes of comparisons of written_at with its arguments.
pub record Compares (selects : Bytes → List Bytes → FileRow → Bool) (show : ℕ → Bytes)
    : Type 0 where
  pub everything : (r : FileRow) → selects (codes "TRUE") [] r ≡ true
  pub from :
      (a : ℕ) (r : FileRow)
      → selects (codes "written_at >= $1") (show a ∷ []) r ≡ leb a r.written_at
  pub to :
      (b : ℕ) (r : FileRow) → selects (codes "written_at < $1") (show b ∷ []) r ≡ ltb r.written_at b
  pub within :
      (a b : ℕ) (r : FileRow)
      → selects (codes "written_at >= $1 AND written_at < $2") (show a ∷ show b ∷ []) r
        ≡ (leb a r.written_at && ltb r.written_at b)

module _ (selects : Bytes → List Bytes → FileRow → Bool) (show : ℕ → Bytes)
    (compares : Compares selects show) where
  range_clause-selects :
      (since until : Option ℕ) (r : FileRow)
      → (let (where_text, args) = range_clause show since until in selects where_text args r)
        ≡ in_window since until r
  unfolding range_clause format_uint
  range_clause-selects none none r = compares.everything r
  range_clause-selects none (some b) r = compares.to b r
  range_clause-selects (some a) none r = compares.from a r
  range_clause-selects (some a) (some b) r = compares.within a b r

-- Where PostgreSQL compares as documented and the query does not fail, the call returns the files
-- whose time is not before the one bound and before the other, where each is given, in the order of
-- a read.
pub resolve_file_refs_in_range-files_query :
    (selects : Bytes → List Bytes → FileRow → Bool) (show : ℕ → Bytes) (store : Store)
    (since until : Option ℕ) (t : Tables)
    → Compares selects show
    → resolve_file_refs_in_range selects false store show since until t
      ≡ ok (map (file_ref_of store.exts) (files_query (in_window since until) t))
unfolding resolve_file_refs_in_range
resolve_file_refs_in_range-files_query selects show store since until t compares =
    ap (λ where_clause. ok (map (file_ref_of store.exts) (files_query where_clause t)))
      (fun_ext (range_clause-selects selects show compares since until))
