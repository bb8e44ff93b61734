-- ===== src/PData/Examples.antt =====
-- The flat file of internal/storage/pdata.go on concrete rows.
use google_in_a_day_crawler.Base.{
  false, utf8_len, arith, ◌≡◌, refl, List, [], ◌∷◌, Text, codes, pos, some, none, true, All, map,
}
use google_in_a_day_crawler.PData.{
  partial, content, append_postings, print_row, PostingRow, load_postings,
}
use google_in_a_day_crawler.PData.Decimal.{format_int, atoi}
use google_in_a_day_crawler.PData.RoundTrip.{
  IsStorable, stored, append_all, flatten, load-append_all,
}

abbrev pub row : Text → Text → PostingRow
row token url = record {
  token = token;
  url = url;
  origin_url = [];
  depth = pos 2;
  title = codes "A title";
  term_freq = pos 30;
  in_title = true;
  in_url = true;
}

abbrev batches : List (List PostingRow)
batches =
    (row (codes "web") (codes "http://a.b/") ∷ [])
    ∷ (row (codes "go") (codes "http://a.b/c") ∷ [])
    ∷ []

batches-IsStorable : All IsStorable (flatten batches)
unfolding print_row utf8_len format_int
batches-IsStorable = (
  record {
    plain_token = omega arith;
    plain_url = omega arith;
    plain_origin = tt;
    no_mark = cc;
    depth_fits = omega arith;
    freq_fits = omega arith;
    short = omega arith;
  },
  (
    record {
      plain_token = omega arith;
      plain_url = omega arith;
      plain_origin = tt;
      no_mark = cc;
      depth_fits = omega arith;
      freq_fits = omega arith;
      short = omega arith;
    },
    tt,
  ),
)

load-append_all_example :
    load_postings true (append_all batches none) ≡ some (map stored (flatten batches))
load-append_all_example = load-append_all batches batches-IsStorable

-- A space in a URL shifts the parts, so that the line is passed over.
space_in_url :
    load_postings true (append_all ((row (codes "web") (codes "http://a.b/x y") ∷ []) ∷ []) none)
    ≡ some []
unfolding load_postings append_all google_in_a_day_crawler.PData.append_postings
    google_in_a_day_crawler.PData.load_lines google_in_a_day_crawler.PData.lines_from
    google_in_a_day_crawler.PData.print_rows print_row format_int utf8_len
    google_in_a_day_crawler.PData.parse_line google_in_a_day_crawler.PData.drop_cr
    google_in_a_day_crawler.PData.split_n google_in_a_day_crawler.PData.cut atoi
space_in_url = refl

-- A write that fails behind its first rune leaves that rune in the file.
cut_write :
    append_postings (partial 1 []) (row (codes "web") (codes "http://a.b") ∷ []) none
    ≡ (some (codes "w"), false)
unfolding append_postings print_row content google_in_a_day_crawler.PData.print_rows
cut_write = refl
