-- ===== src/Index/Examples.antt =====
-- The index (internal/index/index.go) on concrete documents.
use google_in_a_day_crawler.Base.{
  ap, arith, ◌≡◌, refl, List, [], ◌∷◌, Text, codes, utf8_len, contains, Text_discrete, pos, length,
}
use google_in_a_day_crawler.Tokens.{
  tokenize, to_lower_text, fields_func, is_separator, keep_words, stop_words,
}
use google_in_a_day_crawler.Tokens.Ascii.{ascii}
use google_in_a_day_crawler.Index.{
  body_tokens, add_keys, title_tokens, Document, new_index, all_tokens, IsRangeOf, add_document,
  lookup,
}
use google_in_a_day_crawler.Index.Adding.{lookup-add_document}
use google_in_a_day_crawler.Index.Soundness.{IsSound, add_document-IsSound, new_index-IsSound}

abbrev pub home : Document
home = record {
  url = codes "http://a.b/go";
  origin_url = [];
  depth = pos 0;
  title = codes "Go";
  body_text = codes "web crawler, web index";
}

-- The map is ranged over in another order than that of insertion.
abbrev home_order : List Text
home_order = codes "index" ∷ codes "web" ∷ codes "crawler" ∷ []

home_tokens : all_tokens ascii home ≡ codes "web" ∷ codes "crawler" ∷ codes "index" ∷ []
unfolding all_tokens add_keys title_tokens body_tokens tokenize to_lower_text fields_func
    is_separator keep_words utf8_len contains Text_discrete stop_words
home_tokens = refl

same_keys :
    (k : Text)
    → contains k home_order ≡ contains k (codes "web" ∷ codes "crawler" ∷ codes "index" ∷ [])
unfolding contains
same_keys k = ground arith

home-IsRangeOf : IsRangeOf (all_tokens ascii home) home_order
home-IsRangeOf = record {
  once = unfold contains Text_discrete in (refl, (refl, (refl, tt)));
  complete = λ k. rw home_tokens (same_keys k);
}

lookup-add_document_example :
    length (lookup (add_document ascii home_order home new_index) (codes "web")) ≡ 1
unfolding lookup title_tokens body_tokens tokenize to_lower_text fields_func is_separator keep_words
    utf8_len contains Text_discrete stop_words new_index
lookup-add_document_example =
    ap length (lookup-add_document ascii home_order home new_index (codes "web") home-IsRangeOf)

add_document-IsSound_example : IsSound ascii (add_document ascii home_order home new_index)
add_document-IsSound_example =
    add_document-IsSound ascii home_order home new_index home-IsRangeOf (new_index-IsSound ascii)
