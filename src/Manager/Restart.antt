-- ===== src/Manager/Restart.antt =====
-- A crawl's indexer (internal/crawler/crawler.go), the flat file (internal/storage/pdata.go) and
-- `RestoreIndex` (internal/crawler/manager.go) together: what a restart finds of the pages that an
-- earlier crawl indexed.
mod Examples
use google_in_a_day_crawler.Base.{
  ℕ, ◌≡◌, ◌≢◌, ◌∙◌, sym, ap, refl, true, List, [], ◌∷◌, ◌++◌, map, Option, none, some, ◌>>=◌, Text,
  All, arith, append-nil, Option-cases, List-cases, inl, inr, length, pos,
}
use google_in_a_day_crawler.Tokens.{Unicode}
use google_in_a_day_crawler.Index.{Index, lookup, new_index, add_keys}
use google_in_a_day_crawler.PData.{
  whole, File, PostingRow, content, print_rows, load_postings, load_lines, lines_from,
}
use google_in_a_day_crawler.PData.RoundTrip.{IsStorable, stored, load-content, load-print_rows}
use google_in_a_day_crawler.Crawler.Indexer.{Indexer, Choices, flush}
use google_in_a_day_crawler.Crawler.Indexer.Rows.{
  Turn, writes, run_turns, turns_rows, written, add_text, AllMade, run_turns-written, flush-written,
}
use google_in_a_day_crawler.Manager.{restore_index, row_urls}
use google_in_a_day_crawler.Manager.Restore.{postings_for, restore_index-lookup}

-- The indexer before the first page of a fresh crawl: no file, and nothing that waits.
pub record IsFresh (ix : Indexer) : Type 0 where
  pub no_file : ix.pdata ≡ some none
  pub no_rows : ix.pending ≡ []

fresh_written : (ix : Indexer) → IsFresh ix → written ix ≡ some []
unfolding written content print_rows
fresh_written ix f = ground (arith, f.no_file, f.no_rows)

-- Behind a flush nothing waits, so the text is that of the file.
flush-no_rows : (ch : Choices) (ix : Indexer) → (flush ch ix).pending ≡ []
unfolding flush
flush-no_rows ch ix = ground arith

text_of_file :
    (ix : Indexer) (text : Text)
    → ix.pending ≡ []
    → written ix ≡ some text
    → (file : File) × (ix.pdata ≡ some file) × (content file ≡ text)
unfolding written print_rows
text_of_file ix text e h = elim (Option-cases ix.pdata) [
  | inl n ↦ absurd (ground (arith, n, h))
  | inr (file, n) ↦ (file, n, ground (arith, n, h, e, append-nil (content file)))
]

restored_rows :
    (table : Option (Option (List PostingRow))) (pdata : Option File) (file : File)
    (rows : List PostingRow) (idx : Index) (k : Text) (p : PostingRow) (ps : List PostingRow)
    → pdata ≡ some file
    → load_postings true file ≡ some rows
    → rows ≡ p ∷ ps
    → let r = restore_index true table pdata idx in
      (r.1 ≡ true)
      × (lookup r.0 k ≡ lookup idx k ++ postings_for k rows)
      × (r.0.doc_count ≡ pos (length (add_keys (row_urls rows) [])))
restored_rows table pdata file rows idx k p ps e h f =
    let restored = restore_index-lookup true table file p ps idx k (h ∙ ap some f) in
    rw (e, f) (restored.1, restored.2, restored.3)

module _ (u : Unicode) (turns : List Turn) (ch : Choices) (ix : Indexer) where
  flushed_text :
      IsFresh ix
      → AllMade turns
      → ch.made ≡ whole
      → written (flush ch (run_turns u turns ix)) ≡ some (print_rows (turns_rows u turns))
  unfolding add_text
  flushed_text f h w =
      flush-written ch (run_turns u turns ix) w
      ∙ run_turns-written u turns ix h
      ∙ ap (add_text (print_rows (turns_rows u turns))) {y = some []} (fresh_written ix f)

  -- After a fresh crawl whose indexer brought one posting row or more and wrote them all to a new flat
  -- file, which no other crawl removed or wrote to meanwhile, a restart restores them: RestoreIndex succeeds and appends to the list of each token the
  -- postings of the token's rows, in the order in which the pages were indexed, without the titles and
  -- flags, and the number of documents is that of the different URLs. This holds for rows that the file
  -- can hold: without spaces and newlines in the texts, with no origin `-`, and with short lines.
  pub restart_restores :
      (table : Option (Option (List PostingRow))) (idx : Index) (k : Text) (p : PostingRow)
      (ps : List PostingRow)
      → IsFresh ix
      → AllMade turns
      → ch.made ≡ whole
      → turns_rows u turns ≡ p ∷ ps
      → All IsStorable (turns_rows u turns)
      → let rows = map stored (turns_rows u turns) in
        let r = restore_index true table (flush ch (run_turns u turns ix)).pdata idx in
        (r.1 ≡ true)
        × (lookup r.0 k ≡ lookup idx k ++ postings_for k rows)
        × (r.0.doc_count ≡ pos (length (add_keys (row_urls rows) [])))
  restart_restores table idx k p ps f h w e s =
      let last = flush ch (run_turns u turns ix) in
      let t =
        text_of_file last (print_rows (turns_rows u turns))
          (flush-no_rows ch (run_turns u turns ix)) (flushed_text f h w) in
      let loads : load_postings true t.0 ≡ some (map stored (turns_rows u turns)) =
        load-content t.0
        ∙ ap (λ text. load_lines (lines_from [] text)) t.2
        ∙ load-print_rows (turns_rows u turns) s in
      restored_rows table last.pdata t.0 (map stored (turns_rows u turns)) idx k (stored p)
        (map stored ps) t.1 loads (ap (map stored) e)
