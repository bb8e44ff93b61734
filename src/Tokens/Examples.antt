-- ===== src/Tokens/Examples.antt =====
-- `tokenize` (internal/index/index.go) on concrete texts.
use google_in_a_day_crawler.Base.{
  arith, ◌≡◌, refl, List, [], ◌∷◌, ◌++◌, All, Text, codes, utf8_len, contains, Text_discrete,
}
use google_in_a_day_crawler.Tokens.{
  tokenize, to_lower_text, fields_func, is_separator, keep_words, stop_words,
}
use google_in_a_day_crawler.Tokens.Ascii.{ascii, ascii-AsciiTables}
use google_in_a_day_crawler.Tokens.Words.{IsIndexed, tokenize-append}
use google_in_a_day_crawler.Tokens.RoundTrip.{join, tokenize-join}

tokenize_sentence :
    tokenize ascii (codes "The Quick-Brown fox, 2 GO")
    ≡ codes "quick" ∷ codes "brown" ∷ codes "fox" ∷ []
unfolding tokenize to_lower_text fields_func is_separator keep_words utf8_len contains Text_discrete
    stop_words
tokenize_sentence = refl

tokenize-append_example :
    tokenize ascii (codes "web" ++ b'-' ∷ codes "crawler")
    ≡ tokenize ascii (codes "web") ++ tokenize ascii (codes "crawler")
unfolding is_separator
tokenize-append_example = tokenize-append ascii (codes "web") b'-' (codes "crawler") refl

abbrev two_words : List Text
two_words = codes "web" ∷ codes "page" ∷ []

two_words-IsIndexed : All (IsIndexed ascii) two_words
unfolding is_separator utf8_len contains Text_discrete stop_words
two_words-IsIndexed = (
  record { runes = (refl, (refl, (refl, tt))); long = omega arith; no_stop_word = refl },
  (
    record { runes = (refl, (refl, (refl, (refl, tt)))); long = omega arith; no_stop_word = refl },
    tt,
  ),
)

tokenize-join_example : tokenize ascii (join b' ' two_words) ≡ two_words
tokenize-join_example =
    tokenize-join ascii two_words ascii-AsciiTables two_words-IsIndexed (omega arith)
