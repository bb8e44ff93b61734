-- ===== src/Crawler/Indexer/Examples.antt =====
-- The indexer on a concrete record, and witnesses.
use google_in_a_day_crawler.Base.{
  false, ◌≡◌, refl, true, List, [], ◌∷◌, none, some, pos, codes, arith,
}
use google_in_a_day_crawler.Tokens.Ascii.{ascii}
use google_in_a_day_crawler.Index.{new_index}
use google_in_a_day_crawler.PData.{whole, print_rows}
use google_in_a_day_crawler.Worker.{PageRecord}
use google_in_a_day_crawler.Crawler.Indexer.{Indexer, Choices}
use google_in_a_day_crawler.Crawler.Indexer.Rows.{
  Turn, receives, writes, removes, IsTallied, AllMade, run_turns, turns_rows, written, add_text,
  run_turns-written, run_turns-IsTallied,
}

abbrev one_page : PageRecord
one_page = record {
  url = codes "http://a.b";
  origin_url = [];
  depth = pos 0;
  title = codes "Go";
  body_text = codes "go web";
  links = [];
  status_code = 200;
  error = none;
}

abbrev some_choices : Choices
some_choices = record {
  token_order = codes "go" ∷ codes "web" ∷ [];
  row_order = codes "web" ∷ codes "go" ∷ [];
  saved = true;
  made = whole;
}

abbrev fresh_indexer : Indexer
fresh_indexer = record {
  index = new_index;
  pending = [];
  table = none;
  pdata = some none;
  pages_processed = 0;
  pages_errored = 0;
  indexed_docs = 0;
}

abbrev two_turns : List Turn
two_turns = receives some_choices one_page ∷ removes false ∷ writes some_choices ∷ []

run_turns-written_example :
    written (run_turns ascii two_turns fresh_indexer)
    ≡ add_text (print_rows (turns_rows ascii two_turns)) (written fresh_indexer)
unfolding AllMade
run_turns-written_example =
    run_turns-written ascii two_turns fresh_indexer (refl, (refl, (refl, tt)))

run_turns-IsTallied_example : IsTallied (run_turns ascii two_turns fresh_indexer)
run_turns-IsTallied_example =
    run_turns-IsTallied ascii two_turns fresh_indexer
      (record { counted = omega arith; short = omega arith })
