-- ===== src/Crawler/Indexer.antt =====
-- The indexer goroutine of `Start` and `collectPostings`, internal/crawler/crawler.go. What the
-- environment decides for one record is `Choices`; the results of the two writes are ignored, as
-- they are in the source.
pub mod Rows
mod Examples
use google_in_a_day_crawler.Base.{
  ℕ, suc, Bool, true, false, not, ◌||◌, ite, List, [], ◌∷◌, ◌++◌, Option, none, some, pos, Text,
  Text_discrete, length, leb, contains_text, utf8_len, if◌then◌else◌,
}
use google_in_a_day_crawler.Tokens.{
  Unicode, fields_func, to_lower_text, is_ascii_lower, is_ascii_digit,
}
use google_in_a_day_crawler.Index.{Index, Document, add_document, count_tokens, add_keys}
use google_in_a_day_crawler.PData.{FileWrite, PostingRow, File, append_postings}
use google_in_a_day_crawler.Worker.{PageRecord}

unfoldable pub is_row_separator : ℕ → Bool
is_row_separator r = not (is_ascii_lower r || is_ascii_digit r)

-- The words that `collectPostings` counts: two bytes or more.
unfoldable pub keep_long : List Text → List Text
keep_long [] = []
keep_long (w ∷ ws) = let rest = keep_long ws in if leb 2 (utf8_len w) then w ∷ rest else rest

unfoldable pub row_words : Unicode → PageRecord → List Text
unfolding keep_long
row_words u page =
    keep_long (fields_func is_row_separator (to_lower_text u (page.body_text ++ b' ' ∷ page.title)))

-- The keys of `freq`.
pub row_keys : Unicode → PageRecord → List Text
row_keys u page = add_keys (row_words u page) []

unfoldable pub row_freq : Unicode → PageRecord → Text → ℕ
row_freq u page = count_tokens (row_words u page) (λ k. 0)

unfoldable pub row_for : Unicode → PageRecord → Text → PostingRow
row_for u page token = record {
  token = token;
  url = page.url;
  origin_url = page.origin_url;
  depth = page.depth;
  title = page.title;
  term_freq = pos (row_freq u page token);
  in_title = contains_text (to_lower_text u page.title) token;
  in_url = contains_text (to_lower_text u page.url) token;
}

-- The loop over `freq`, in the order that Go chooses.
pub add_rows : Unicode → PageRecord → List Text → List PostingRow → List PostingRow
add_rows u page [] buf = buf
add_rows u page (k ∷ order) buf = add_rows u page order (buf ++ row_for u page k ∷ [])

pub collect_postings : Unicode → List Text → List PostingRow → PageRecord → List PostingRow
unfolding add_rows
collect_postings u order buf page = add_rows u page order buf

-- The table `postings`, whose key is the token with the URL: `INSERT OR REPLACE` of one row.
pub replace_row : PostingRow → List PostingRow → List PostingRow
replace_row p [] = p ∷ []
replace_row p (q ∷ rows) =
    let rest = replace_row p rows in
    ite (Text_discrete q.token p.token) (ite (Text_discrete q.url p.url) (p ∷ rows) (q ∷ rest))
      (q ∷ rest)

pub replace_rows : List PostingRow → List PostingRow → List PostingRow
replace_rows [] rows = rows
replace_rows (p ∷ ps) rows = replace_rows ps (replace_row p rows)

-- `SavePostingsBatch`: one transaction, so a failure leaves the table as it was.
pub save_postings_batch : Bool → List PostingRow → List PostingRow → List PostingRow
unfolding replace_rows
save_postings_batch true ps rows = replace_rows ps rows
save_postings_batch false ps rows = rows

-- The goroutine's variables, the metrics that it alone changes, and the two stores, each `none`
-- where the crawl runs without it.
pub record Indexer : Type 0 where
  pub index : Index
  pub pending : List PostingRow
  pub table : Option (List PostingRow)
  pub pdata : Option File
  pub pages_processed : ℕ
  pub pages_errored : ℕ
  pub indexed_docs : ℕ

-- The orders of the two ranges over maps, and how the two writes go.
pub record Choices : Type 0 where
  pub token_order : List Text
  pub row_order : List Text
  pub saved : Bool
  pub made : FileWrite

pub save_table : Choices → List PostingRow → Option (List PostingRow) → Option (List PostingRow)
save_table ch ps none = none
save_table ch ps (some rows) = some (save_postings_batch ch.saved ps rows)

pub save_file : Choices → List PostingRow → Option File → Option File
save_file ch ps none = none
save_file ch ps (some file) = some (append_postings ch.made ps file).0

-- The three places that write out what is pending: a full buffer, the ticker, the closed channel.
unfoldable pub flush : Choices → Indexer → Indexer
unfolding save_table save_file
flush ch ix = elim ix.pending [
  | [] ↦ ix
  | p ∷ ps ↦ record ix {
    pending = [];
    table = save_table ch (p ∷ ps) ix.table;
    pdata = save_file ch (p ∷ ps) ix.pdata;
  }
]

pub document_of : PageRecord → Document
document_of page = record {
  url = page.url;
  origin_url = page.origin_url;
  depth = page.depth;
  title = page.title;
  body_text = page.body_text;
}

abbrev pub batch_size : ℕ
batch_size = 500

-- A page without an error: it is indexed, and its rows wait for the next write.
pub index_page : Unicode → Choices → PageRecord → Indexer → Indexer
index_page u ch page ix =
    let indexed : Indexer = record ix {
      index = add_document u ch.token_order (document_of page) ix.index;
      indexed_docs = suc ix.indexed_docs;
      pending = collect_postings u ch.row_order ix.pending page;
    } in
    if leb batch_size (length indexed.pending) then flush ch indexed else indexed

-- One record from `resultsCh`.
pub on_record : Unicode → Choices → PageRecord → Indexer → Indexer
unfolding index_page
on_record u ch page ix =
    let counted = λ (i : Indexer). record i { pages_processed = suc i.pages_processed } in
    elim page.error [
      | some e ↦ counted (record ix { pages_errored = suc ix.pages_errored })
      | none ↦ counted (index_page u ch page ix)
    ]
