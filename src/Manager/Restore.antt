-- ===== src/Manager/Restore.antt =====
-- What `RestoreIndex` (internal/crawler/manager.go) puts into the index.
use google_in_a_day_crawler.Base.{
  ◌≡◌, sym, refl, Bool, true, ite, List, [], ◌∷◌, ◌++◌, append-nil, append_assoc, arith, Option,
  none, some, pos, Text, Text_discrete, length,
}
use google_in_a_day_crawler.Index.{
  Index, Posting, add_posting, append_posting, lookup, add_keys, set_doc_count,
}
use google_in_a_day_crawler.PData.{File, PostingRow, load_postings}
use google_in_a_day_crawler.Manager.{
  posting_of_row, add_row_postings, row_urls, restore_rows, restore_table, restore_index,
}

-- The postings that rows hold for a token, in their order.
pub postings_for : Text → List PostingRow → List Posting
postings_for k [] = []
postings_for k (p ∷ ps) =
    let rest = postings_for k ps in ite (Text_discrete p.token k) (posting_of_row p ∷ rest) rest

lookup-add_row_postings :
    (k : Text) (ps : List PostingRow) (idx : Index)
    → lookup (add_row_postings ps idx) k ≡ lookup idx k ++ postings_for k ps
unfolding add_row_postings postings_for lookup add_posting append_posting
lookup-add_row_postings k [] idx = sym (append-nil (lookup idx k))
lookup-add_row_postings k (p ∷ ps) idx = ground (
  arith,
  lookup-add_row_postings k ps (add_posting p.token (posting_of_row p) idx),
  append_assoc (lookup idx k) (posting_of_row p ∷ []) (postings_for k ps),
)

-- When the flat file loads with one row or more, RestoreIndex succeeds and appends to each token's
-- list the postings of the token's rows, in their order, and the number of documents is that of
-- the different URLs of the rows. The same rows from the database, without a flat file, give the
-- same.
pub restore_index-lookup :
    (opened : Bool) (table : Option (Option (List PostingRow))) (file : File) (p : PostingRow)
    (ps : List PostingRow) (idx : Index) (k : Text)
    → load_postings opened file ≡ some (p ∷ ps)
    → let rows = p ∷ ps in
      let r = restore_index opened table (some file) idx in
      let s = restore_index opened (some (some rows)) none idx in
      (r ≡ s)
      × (r.1 ≡ true)
      × (lookup r.0 k ≡ lookup idx k ++ postings_for k rows)
      × (r.0.doc_count ≡ pos (length (add_keys (row_urls rows) [])))
unfolding restore_index restore_table restore_rows set_doc_count lookup
restore_index-lookup opened table file p ps idx k h =
    rw (h, restore_index)
      (refl, refl, unfold lookup in lookup-add_row_postings k (p ∷ ps) idx, refl)
