-- ===== src/Manager/Restart/Examples.antt =====
-- A restart behind a crawl of one page.
use google_in_a_day_crawler.PData.Decimal.{format_int}
use google_in_a_day_crawler.Tokens.{fields_func, fields_from, close_field, to_lower_text}
use google_in_a_day_crawler.Base.{
  Text_discrete, utf8_len, rune_len, contains_text, has_prefix, ◌≡◌, refl, sym, subst, true, false,
  List, [], ◌∷◌, ◌++◌, none, some, pos, codes, arith, map, All, length,
}
use google_in_a_day_crawler.Tokens.Ascii.{ascii}
use google_in_a_day_crawler.Index.{new_index, lookup, add_keys, count_tokens}
use google_in_a_day_crawler.PData.{PostingRow, print_row, print_origin}
use google_in_a_day_crawler.PData.RoundTrip.{IsStorable, stored}
use google_in_a_day_crawler.Worker.{PageRecord}
use google_in_a_day_crawler.Crawler.Indexer.{
  Indexer, Choices, flush, row_for, row_freq, row_words, keep_long, is_row_separator,
}
use google_in_a_day_crawler.Crawler.Indexer.Rows.{
  Turn, receives, AllMade, run_turns, turns_rows, turn_rows,
}
use google_in_a_day_crawler.Manager.{restore_index, row_urls}
use google_in_a_day_crawler.Manager.Restore.{postings_for}
use google_in_a_day_crawler.Manager.Restart.{whole, restart_restores}

abbrev go_page : PageRecord
go_page = record {
  url = codes "http://a.b";
  origin_url = [];
  depth = pos 0;
  title = [];
  body_text = codes "go";
  links = [];
  status_code = 200;
  error = none;
}

abbrev go_choices : Choices
go_choices = record {
  token_order = codes "go" ∷ [];
  row_order = codes "go" ∷ [];
  saved = true;
  made = whole;
}

abbrev new_indexer : Indexer
new_indexer = record {
  index = new_index;
  pending = [];
  table = none;
  pdata = some none;
  pages_processed = 0;
  pages_errored = 0;
  indexed_docs = 0;
}

abbrev one_turn : List Turn
one_turn = receives go_choices go_page ∷ []

abbrev go_row : PostingRow
go_row = record {
  token = codes "go";
  url = codes "http://a.b";
  origin_url = [];
  depth = pos 0;
  title = [];
  term_freq = pos 1;
  in_title = false;
  in_url = false;
}

one_turn_rows : turns_rows ascii one_turn ≡ go_row ∷ []
unfolding turns_rows turn_rows row_for row_freq row_words keep_long is_row_separator count_tokens
    fields_func fields_from close_field to_lower_text Text_discrete utf8_len contains_text
    has_prefix rune_len
one_turn_rows = refl

go_row-IsStorable : All IsStorable (go_row ∷ [])
unfolding print_row print_origin utf8_len format_int
go_row-IsStorable = (
  record {
    plain_token = omega arith;
    plain_url = omega arith;
    plain_origin = tt;
    no_mark = cc;
    depth_fits = omega arith;
    freq_fits = omega arith;
    short = omega arith;
  },
  tt,
)

restart_restores_example :
    let rows = map stored (turns_rows ascii one_turn) in
    let r =
      restore_index true none
        (flush go_choices (run_turns ascii one_turn new_indexer)).pdata
        new_index in
    (r.1 ≡ true)
    × (lookup r.0 (codes "go") ≡ lookup new_index (codes "go") ++ postings_for (codes "go") rows)
    × (r.0.doc_count ≡ pos (length (add_keys (row_urls rows) [])))
unfolding AllMade
restart_restores_example =
    restart_restores ascii one_turn go_choices new_indexer none new_index (codes "go") go_row []
      (record { no_file = refl; no_rows = refl }) (refl, tt) refl one_turn_rows
      (subst (All IsStorable) (sym one_turn_rows) go_row-IsStorable)
