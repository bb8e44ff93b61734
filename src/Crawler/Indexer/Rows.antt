-- ===== src/Crawler/Indexer/Rows.antt =====
-- What the indexer goroutine (internal/crawler/crawler.go) counts and writes over a sequence of
-- records.
use google_in_a_day_crawler.Base.{
  Bool, false, map, List-cases, ◌>>=◌, suc, ◌+◌, ◌<◌, ◌≡◌, ◌∙◌, refl, sym, ap, true, List, [], ◌∷◌,
  ◌++◌, append_assoc, append-nil, Option, none, some, Option-cases, inl, inr, arith, length, leb,
  Text, if◌then◌else◌,
}
use google_in_a_day_crawler.Tokens.{Unicode}
use google_in_a_day_crawler.PData.{
  clear_pdata, whole, PostingRow, File, content, print_rows, append_postings,
}
use google_in_a_day_crawler.PData.RoundTrip.{print_rows-append}
use google_in_a_day_crawler.Worker.{PageRecord}
use google_in_a_day_crawler.Crawler.Indexer.{
  FileWrite, document_of, add_document, Indexer, Choices, flush, index_page, on_record,
  collect_postings, add_rows, save_file, row_for, batch_size,
}

-- What holds of the goroutine's variables between two records.
pub record IsTallied (ix : Indexer) : Type 0 where
  pub counted : ix.pages_processed ≡ ix.pages_errored + ix.indexed_docs
  pub short : length ix.pending < batch_size

flush-counts :
    (ch : Choices) (ix : Indexer)
    → ((flush ch ix).pages_errored ≡ ix.pages_errored)
      × ((flush ch ix).indexed_docs ≡ ix.indexed_docs)
      × ((flush ch ix).pages_processed ≡ ix.pages_processed)
      × (length (flush ch ix).pending ≡ 0)
unfolding flush
flush-counts ch ix = ground arith

index_page-counts :
    (u : Unicode) (ch : Choices) (page : PageRecord) (ix : Indexer)
    → ((index_page u ch page ix).pages_errored ≡ ix.pages_errored)
      × ((index_page u ch page ix).indexed_docs ≡ suc ix.indexed_docs)
      × ((index_page u ch page ix).pages_processed ≡ ix.pages_processed)
      × (length (index_page u ch page ix).pending < batch_size)
unfolding index_page
index_page-counts u ch page ix = ground (
  arith,
  flush-counts ch (record ix {
    index = add_document u ch.token_order (document_of page) ix.index;
    indexed_docs = suc ix.indexed_docs;
    pending = collect_postings u ch.row_order ix.pending page;
  }),
)

on_record-IsTallied :
    (u : Unicode) (ch : Choices) (page : PageRecord) (ix : Indexer)
    → IsTallied ix
    → IsTallied (on_record u ch page ix)
unfolding on_record
on_record-IsTallied u ch page ix h = record {
  counted = ground (arith, h.counted, index_page-counts u ch page ix);
  short = ground (arith, h.short, index_page-counts u ch page ix);
}

-- A turn of the goroutine: a record arrives, or the ticker or the closed channel has it write; or one of
-- another goroutine: `StartCrawl` removes the flat file, if the removal succeeds, or another crawl's indexer
-- appends its rows.
pub data Turn : Type 0 where
  receives : Choices → PageRecord → Turn
  writes : Choices → Turn
  removes : Bool → Turn
  others_append : FileWrite → List PostingRow → Turn

remove_file : Bool → Option File → Option File
remove_file removed none = none
remove_file removed (some file) = some (clear_pdata removed file)

append_file : FileWrite → List PostingRow → Option File → Option File
append_file write ps none = none
append_file write ps (some file) = some (append_postings write ps file).0

pub run_turn : Unicode → Turn → Indexer → Indexer
unfolding remove_file append_file
run_turn u (receives ch page) ix = on_record u ch page ix
run_turn u (writes ch) ix = flush ch ix
run_turn u (removes removed) ix = record ix { pdata = remove_file removed ix.pdata }
run_turn u (others_append write ps) ix = record ix { pdata = append_file write ps ix.pdata }

unfoldable pub run_turns : Unicode → List Turn → Indexer → Indexer
unfolding run_turn
run_turns u [] ix = ix
run_turns u (turn ∷ turns) ix = run_turns u turns (run_turn u turn ix)

run_turn-IsTallied :
    (u : Unicode) (turn : Turn) (ix : Indexer) → IsTallied ix → IsTallied (run_turn u turn ix)
unfolding run_turn
run_turn-IsTallied u (receives ch page) ix h = on_record-IsTallied u ch page ix h
run_turn-IsTallied u (writes ch) ix h = record {
  counted = ground (arith, h.counted, flush-counts ch ix);
  short = ground (arith, flush-counts ch ix);
}
run_turn-IsTallied u (removes removed) ix h = record { counted = h.counted; short = h.short }
run_turn-IsTallied u (others_append w ps) ix h = record { counted = h.counted; short = h.short }

-- Between two turns of the indexer the pages processed are those with an error and those indexed, and
-- fewer than 500 rows wait to be written, if this holds at the start.
pub run_turns-IsTallied :
    (u : Unicode) (turns : List Turn) (ix : Indexer)
    → IsTallied ix
    → IsTallied (run_turns u turns ix)
unfolding run_turns
run_turns-IsTallied u [] ix h = h
run_turns-IsTallied u (turn ∷ turns) ix h =
    run_turns-IsTallied u turns (run_turn u turn ix) (run_turn-IsTallied u turn ix h)

-- The text of the flat file once the waiting rows are written.
unfoldable pub written : Indexer → Option Text
written ix = ix.pdata >>= (λ file. some (content file ++ print_rows ix.pending))

-- The rows that a turn brings.
unfoldable pub turn_rows : Unicode → Turn → List PostingRow
turn_rows u (writes ch) = []
turn_rows u (removes removed) = []
turn_rows u (others_append write ps) = []
turn_rows u (receives ch page) = elim page.error [
  | some e ↦ []
  | none ↦ map (row_for u page) ch.row_order
]

unfoldable pub turns_rows : Unicode → List Turn → List PostingRow
unfolding turn_rows
turns_rows u [] = []
turns_rows u (turn ∷ turns) = turn_rows u turn ++ turns_rows u turns

-- Each write of the flat file writes all of its rows, and no other crawl removes it or has rows for it.
unfoldable pub AllMade : List Turn → Type 0
AllMade [] = Unit
AllMade (receives ch page ∷ turns) = (ch.made ≡ whole) × AllMade turns
AllMade (writes ch ∷ turns) = (ch.made ≡ whole) × AllMade turns
AllMade (removes removed ∷ turns) = (removed ≡ false) × AllMade turns
AllMade (others_append write ps ∷ turns) = (ps ≡ []) × AllMade turns

add_rows-map :
    (u : Unicode) (page : PageRecord) (order : List Text) (buf : List PostingRow)
    → add_rows u page order buf ≡ buf ++ map (row_for u page) order
unfolding add_rows
add_rows-map u page [] buf = sym (append-nil buf)
add_rows-map u page (k ∷ order) buf =
    add_rows-map u page order (buf ++ row_for u page k ∷ [])
    ∙ append_assoc buf (row_for u page k ∷ []) (map (row_for u page) order)

pub flush-written :
    (ch : Choices) (ix : Indexer) → ch.made ≡ whole → written (flush ch ix) ≡ written ix
unfolding flush written save_file append_postings content print_rows
flush-written ch ix w = elim (List-cases ix.pending) [
  | inl e ↦ ground (arith, e)
  | inr (p, ps, e) ↦ elim (Option-cases ix.pdata) [
    | inl f ↦ ground (arith, e, f)
    | inr (file, f) ↦ ground (arith, e, f, w, append-nil (content file ++ print_rows (p ∷ ps)))
  ]
]

flush_if-written :
    (b : Bool) (ch : Choices) (ix : Indexer)
    → ch.made ≡ whole
    → written (if b then flush ch ix else ix) ≡ written ix
flush_if-written true ch ix w = flush-written ch ix w
flush_if-written false ch ix w = refl

index_page-written :
    (u : Unicode) (ch : Choices) (page : PageRecord) (ix : Indexer)
    → ch.made ≡ whole
    → written (index_page u ch page ix) ≡ (
        ix.pdata >>= (λ file.
          some (content file ++ print_rows (ix.pending ++ map (row_for u page) ch.row_order))))
unfolding index_page written collect_postings
index_page-written u ch page ix w =
    let indexed : Indexer = record ix {
      index = add_document u ch.token_order (document_of page) ix.index;
      indexed_docs = suc ix.indexed_docs;
      pending = collect_postings u ch.row_order ix.pending page;
    } in
    flush_if-written (leb batch_size (length indexed.pending)) ch indexed w
    ∙ ap (λ rows. ix.pdata >>= (λ file. some (content file ++ print_rows rows)))
        (add_rows-map u page ch.row_order ix.pending)

-- A text behind that of a file, where there is a file.
unfoldable pub add_text : Text → Option Text → Option Text
add_text t o = o >>= (λ s. some (s ++ t))

add_text-nil : (o : Option Text) → add_text [] o ≡ o
unfolding add_text
add_text-nil none = refl
add_text-nil (some s) = ap some (append-nil s)

add_text-append : (a b : Text) (o : Option Text) → add_text b (add_text a o) ≡ add_text (a ++ b) o
unfolding add_text
add_text-append a b none = refl
add_text-append a b (some s) = ap some (append_assoc s a b)

written-append :
    (rows new : List PostingRow) (o : Option File)
    → (o >>= (λ file. some (content file ++ print_rows (rows ++ new))))
      ≡ add_text (print_rows new) (o >>= (λ file. some (content file ++ print_rows rows)))
unfolding add_text
written-append rows new none = refl
written-append rows new (some file) = ap some (
    ap (λ t. content file ++ t) (print_rows-append rows new)
    ∙ sym (append_assoc (content file) (print_rows rows) (print_rows new)))

on_record-written :
    (u : Unicode) (ch : Choices) (page : PageRecord) (ix : Indexer)
    → ch.made ≡ whole
    → written (on_record u ch page ix)
      ≡ add_text (print_rows (turn_rows u (receives ch page))) (written ix)
unfolding on_record turn_rows
on_record-written u ch page ix w = elim (Option-cases page.error) [
  | inl e ↦
      rw (e, on_record, turn_rows)
        (unfold written in
          index_page-written u ch page ix w
          ∙ written-append ix.pending (map (row_for u page) ch.row_order) ix.pdata)
  | inr (x, e) ↦
      rw (e, on_record, turn_rows) (unfold written print_rows in sym (add_text-nil (written ix)))
]

remove_file-kept :
    (removed : Bool) (ix : Indexer)
    → removed ≡ false
    → written (record ix { pdata = remove_file removed ix.pdata }) ≡ written ix
unfolding written remove_file clear_pdata
remove_file-kept removed ix h = elim (Option-cases ix.pdata) [
  | inl e ↦ rw (e, remove_file) refl
  | inr (none, e) ↦ rw (e, remove_file) refl
  | inr (some s, e) ↦ rw (e, h, remove_file, clear_pdata) refl
]

append_file-kept :
    (write : FileWrite) (ps : List PostingRow) (ix : Indexer)
    → ps ≡ []
    → written (record ix { pdata = append_file write ps ix.pdata }) ≡ written ix
unfolding written append_file append_postings
append_file-kept write ps ix h = elim (Option-cases ix.pdata) [
  | inl e ↦ rw (e, append_file) refl
  | inr (file, e) ↦ rw (e, h, append_file, append_postings) refl
]

-- While each write of the flat file writes all of its rows, and no other crawl removes the file or writes
-- to it, no posting row is lost and none is written twice: after any turns of the indexer the text of the
-- file, with the waiting rows written behind it, has grown by the rows of the records without an error, in
-- their order.
pub run_turns-written :
    (u : Unicode) (turns : List Turn) (ix : Indexer)
    → AllMade turns
    → written (run_turns u turns ix) ≡ add_text (print_rows (turns_rows u turns)) (written ix)
unfolding run_turns turns_rows turn_rows run_turn AllMade
run_turns-written u [] ix h = unfold print_rows in sym (add_text-nil (written ix))
run_turns-written u (writes ch ∷ turns) ix h =
    run_turns-written u turns (flush ch ix) h.1
    ∙ ap (add_text (print_rows (turns_rows u turns))) (flush-written ch ix h.0)
run_turns-written u (removes removed ∷ turns) ix h =
    run_turns-written u turns (run_turn u (removes removed) ix) h.1
    ∙ ap (add_text (print_rows (turns_rows u turns))) (remove_file-kept removed ix h.0)
run_turns-written u (others_append write ps ∷ turns) ix h =
    run_turns-written u turns (run_turn u (others_append write ps) ix) h.1
    ∙ ap (add_text (print_rows (turns_rows u turns))) (append_file-kept write ps ix h.0)
run_turns-written u (receives ch page ∷ turns) ix h =
    let rows = turn_rows u (receives ch page) in
    run_turns-written u turns (on_record u ch page ix) h.1
    ∙ ap (add_text (print_rows (turns_rows u turns))) (on_record-written u ch page ix h.0)
    ∙ add_text-append (print_rows rows) (print_rows (turns_rows u turns)) (written ix)
    ∙ ap (λ t. add_text t (written ix)) (sym (print_rows-append rows (turns_rows u turns)))
