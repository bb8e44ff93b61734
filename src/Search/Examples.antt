-- ===== src/Search/Examples.antt =====
-- `Search` (internal/index/search.go) on a concrete index.
use google_in_a_day_crawler.Base.{
  ◌-ℤ◌, ◌+ℤ◌, scale, Text_discrete, contains, utf8_len, arith, false, ℕ, ◌≡◌, refl, [], ◌∷◌, Text,
  codes, pos, length, ◌≤◌, take, drop,
}
use google_in_a_day_crawler.Tokens.{
  stop_words, is_separator, to_lower_text, fields_func, keep_words, tokenize,
}
use google_in_a_day_crawler.Tokens.Ascii.{ascii}
use google_in_a_day_crawler.Index.{append_posting, lookup, Posting, Index, add_posting, new_index}
use google_in_a_day_crawler.Search.{
  to_result, relevance, new_info, by_relevance, credit, tally, tally_all, tally_tokens, ranked,
  cut_to, search, less_for,
}
use google_in_a_day_crawler.Search.Ranking.{
  IsAnswer, search-IsAnswer, search-limit, NoneBetter, result_urls,
}
use google_in_a_day_crawler.Search.Insertion.{
  insertion_sort, plain_runtime, plain_runtime-RuntimeLaws,
}

abbrev hit : Text → ℕ → ℕ → Posting
hit url freq depth = record {
  url = url;
  origin_url = [];
  depth = pos depth;
  title = [];
  term_freq = pos freq;
  in_title = false;
  in_url = false;
}

abbrev two_pages : Index
unfolding add_posting new_index
two_pages = add_posting (codes "web") (hit (codes "a") 2 1) (
    add_posting (codes "page") (hit (codes "b") 5 0)
      (add_posting (codes "web") (hit (codes "b") 1 0) new_index))

abbrev query : Text
query = codes "web page"

both_found :
    result_urls (search plain_runtime ascii query two_pages (pos 0) (codes "relevance"))
    ≡ codes "b" ∷ codes "a" ∷ []
unfolding search tokenize add_posting new_index keep_words fields_func to_lower_text is_separator
    utf8_len contains stop_words Text_discrete cut_to ranked insertion_sort tally_tokens tally_all
    lookup append_posting tally credit scale ◌+ℤ◌ ◌-ℤ◌ by_relevance less_for new_info relevance
    to_result
both_found = refl

search-IsAnswer_example :
    IsAnswer two_pages
      (tokenize ascii query)
      (codes "depth")
      (search plain_runtime ascii query two_pages (pos 0) (codes "depth"))
search-IsAnswer_example =
    search-IsAnswer plain_runtime ascii query two_pages (codes "depth") plain_runtime-RuntimeLaws

search-limit_example :
    (search plain_runtime ascii query two_pages (pos 1) (codes "frequency")
      ≡ take 1 (search plain_runtime ascii query two_pages (pos 0) (codes "frequency")))
    × (length (search plain_runtime ascii query two_pages (pos 1) (codes "frequency")) ≤ 1)
    × NoneBetter
        (less_for (codes "frequency"))
        (search plain_runtime ascii query two_pages (pos 1) (codes "frequency"))
        (drop 1 (search plain_runtime ascii query two_pages (pos 0) (codes "frequency")))
search-limit_example =
    search-limit plain_runtime ascii query two_pages (codes "frequency") 1 plain_runtime-RuntimeLaws
      (omega arith)
