-- ===== src/PData/RoundTrip.antt =====
-- The postings that internal/storage/pdata.go appends to its file are loaded again.
use mathlib.Core.List.{cons-ne-nil}
use google_in_a_day_crawler.Base.{
  sym, ◌∙◌, append-nil, ap, ℕ, ◌+◌, ◌<◌, ◌≡◌, ◌≢◌, refl, true, false, List, [], ◌∷◌, ◌++◌, map,
  none, some, ◌>>=◌, ℤ, Text, codes, leb, utf8_len, All, All-append, All-map, append_assoc, arith,
}
use google_in_a_day_crawler.PData.Decimal.{
  format_int-All, IsNumeral, format_int, IsPlain, FitsInt, atoi-format_int, format_int-All,
  format_int-ne-nil, IsNumeral,
}
use google_in_a_day_crawler.PData.Splitting.{
  Lacks, split_n-append, lines_from_line, drop_cr_plain, drop_cr-append,
}
use google_in_a_day_crawler.PData.{
  whole, content, PostingRow, print_origin, print_row, print_rows, split_n, lines_from, drop_cr,
  read_origin, row_of, row_of_parts, parse_line, max_line, load_lines, File, append_postings,
  load_postings, space, newline,
}

-- A row's line without the newline.
print_line : PostingRow → Text
print_line p =
    p.token
    ++ space
      ∷ (p.url
          ++ space
            ∷ (print_origin p.origin_url
                ++ space ∷ (format_int p.depth ++ space ∷ format_int p.term_freq)))

-- A row that a line can hold: texts without space and newline, an origin that is not the mark of an
-- empty one, numbers of 64 bits, and a line that the scanner accepts.
pub record IsStorable (p : PostingRow) : Type 0 where
  pub plain_token : IsPlain p.token
  pub plain_url : IsPlain p.url
  pub plain_origin : IsPlain p.origin_url
  pub no_mark : p.origin_url ≢ codes "-"
  pub depth_fits : FitsInt p.depth
  pub freq_fits : FitsInt p.term_freq
  pub short : utf8_len (print_row p) < max_line

-- What is left of a row: the title and the two flags are not written.
pub stored : PostingRow → PostingRow
stored p = record p { title = []; in_title = false; in_url = false }

plain-Lacks-space : (s : Text) → IsPlain s → Lacks space s
plain-Lacks-space s = All-map _ (λ c. c ≢ space) s (λ c h. h.0)

plain-Lacks-newline : (s : Text) → IsPlain s → Lacks newline s
plain-Lacks-newline s = All-map _ (λ c. c ≢ newline) s (λ c h. h.1)

print_origin-IsPlain : (s : Text) → IsPlain s → IsPlain (print_origin s)
unfolding print_origin
print_origin-IsPlain [] h = ((omega arith, omega arith), tt)
print_origin-IsPlain (c ∷ s) h = h

read-print_origin : (s : Text) → s ≢ codes "-" → read_origin (print_origin s) ≡ s
unfolding read_origin print_origin
read-print_origin [] h = ground arith
read-print_origin (c ∷ s) h = ground arith

print_row-line : (p : PostingRow) → print_row p ≡ print_line p ++ newline ∷ []
unfolding print_row print_line
print_row-line p = simp append_assoc

format_int-Lacks : (b : ℕ) (z : ℤ) → b < b'-' → Lacks b (format_int z)
format_int-Lacks b z h =
    All-map IsNumeral (λ c. c ≢ b) (format_int z) (λ c n. omega arith) (format_int-All z)

split-print_line :
    (p : PostingRow)
    → IsStorable p
    → split_n space 4 (print_line p)
      ≡ p.token
        ∷ p.url
        ∷ print_origin p.origin_url
        ∷ format_int p.depth
        ∷ format_int p.term_freq
        ∷ []
unfolding print_line
split-print_line p s =
    rw
      (
        split_n-append space 3 p.token _ (plain-Lacks-space _ s.plain_token),
        split_n-append space 2 p.url _ (plain-Lacks-space _ s.plain_url),
        split_n-append space 1 (print_origin p.origin_url) _
            (plain-Lacks-space _ (print_origin-IsPlain _ s.plain_origin)),
        split_n-append space 0 (format_int p.depth) _
            (format_int-Lacks space p.depth (omega arith)),
      )
      (unfold split_n in refl)

parse_line_parts : (s : Text) → s ≢ [] → parse_line s ≡ row_of_parts (split_n space 4 s)
unfolding parse_line
parse_line_parts [] h = absurd (h refl)
parse_line_parts (c ∷ s) h = refl

append-ne-nil : (s : Text) (c : ℕ) (t : Text) → s ++ c ∷ t ≢ []
append-ne-nil [] c t = cons-ne-nil c t
append-ne-nil (d ∷ s) c t = cons-ne-nil d (s ++ c ∷ t)

parse-print_line : (p : PostingRow) → IsStorable p → parse_line (print_line p) ≡ some (stored p)
unfolding row_of_parts stored
parse-print_line p s =
    rw
      (
        parse_line_parts (print_line p) (unfold print_line in append-ne-nil p.token _ _),
        split-print_line p s,
        atoi-format_int p.depth s.depth_fits,
        atoi-format_int p.term_freq s.freq_fits,
      )
      (unfold row_of in ground (arith, read-print_origin p.origin_url s.no_mark))

-- What no carriage return ends keeps its end behind any text and a character.
drop_cr-behind :
    (a : Text) (c : ℕ) (t : Text) → t ≢ [] → drop_cr t ≡ t → drop_cr (a ++ c ∷ t) ≡ a ++ c ∷ t
drop_cr-behind a c t h e =
    drop_cr-append a (c ∷ t) (cons-ne-nil c t)
    ∙ ap (◌++◌ a) (drop_cr-append (c ∷ []) t h ∙ ap (◌∷◌ c) e)

drop_cr-print_line : (p : PostingRow) → drop_cr (print_line p) ≡ print_line p
unfolding print_line
drop_cr-print_line p = drop_cr-behind p.token space _ (append-ne-nil p.url _ _) (
    drop_cr-behind p.url space _ (append-ne-nil (print_origin p.origin_url) _ _) (
      drop_cr-behind (print_origin p.origin_url) space _ (append-ne-nil (format_int p.depth) _ _) (
        drop_cr-behind (format_int p.depth) space (format_int p.term_freq)
          (format_int-ne-nil p.term_freq)
          (drop_cr_plain _ (format_int-Lacks 13 p.term_freq (omega arith))))))

print_line-Lacks : (p : PostingRow) → IsStorable p → Lacks newline (print_line p)
unfolding print_line
print_line-Lacks p s = All-append _ p.token _ (plain-Lacks-newline _ s.plain_token) (
  omega arith,
  All-append _ p.url _ (plain-Lacks-newline _ s.plain_url) (
    omega arith,
    All-append _ (print_origin p.origin_url) _
        (plain-Lacks-newline _ (print_origin-IsPlain _ s.plain_origin))
        (
          omega arith,
          All-append _ (format_int p.depth) _ (format_int-Lacks newline p.depth (omega arith))
              (omega arith, format_int-Lacks newline p.term_freq (omega arith)),
        ),
  ),
)

utf8_len-append : (s t : Text) → utf8_len (s ++ t) ≡ utf8_len s + utf8_len t
unfolding utf8_len
utf8_len-append [] t = omega arith
utf8_len-append (c ∷ s) t = omega (arith, utf8_len-append s t)

line_short : (p : PostingRow) → IsStorable p → leb max_line (utf8_len (print_line p)) ≡ false
line_short p s =
    ground (
      arith,
      ap utf8_len (print_row-line p),
      utf8_len-append (print_line p) (newline ∷ []),
      s.short,
    )

load_lines_line :
    (p : PostingRow) (lines : List Text)
    → IsStorable p
    → load_lines (print_line p ∷ lines) ≡ (load_lines lines >>= λ rows. some (stored p ∷ rows))
unfolding load_lines
load_lines_line p lines s =
    ground (arith, line_short p s, drop_cr-print_line p, parse-print_line p s)

lines_from_rows :
    (p : PostingRow) (ps : List PostingRow)
    → IsStorable p
    → lines_from [] (print_rows (p ∷ ps)) ≡ print_line p ∷ lines_from [] (print_rows ps)
unfolding print_rows
lines_from_rows p ps s =
    rw (print_row-line p, append_assoc)
      (lines_from_line [] (print_line p) (print_rows ps) (print_line-Lacks p s))

pub load-print_rows :
    (ps : List PostingRow)
    → All IsStorable ps
    → load_lines (lines_from [] (print_rows ps)) ≡ some (map stored ps)
load-print_rows [] h = unfold print_rows lines_from load_lines in refl
load-print_rows (p ∷ ps) h =
    rw (lines_from_rows p ps h.0, load_lines_line p _ h.0, load-print_rows ps h.1)

pub print_rows-append :
    (ps qs : List PostingRow) → print_rows (ps ++ qs) ≡ print_rows ps ++ print_rows qs
unfolding print_rows
print_rows-append [] qs = refl
print_rows-append (p ∷ ps) qs = simp (print_rows-append ps qs, append_assoc)

-- A file after calls of `AppendPostingsToFile`, each of which wrote all of its rows.
unfoldable pub append_all : List (List PostingRow) → File → File
append_all [] file = file
append_all (ps ∷ batches) file = append_all batches (append_postings whole ps file).0

abbrev pub flatten : List (List PostingRow) → List PostingRow
flatten [] = []
flatten (ps ∷ batches) = ps ++ flatten batches

content-append_postings :
    (ps : List PostingRow) (file : File)
    → content (append_postings whole ps file).0 ≡ content file ++ print_rows ps
unfolding append_postings content print_rows
content-append_postings [] file = sym (append-nil _)
content-append_postings (p ∷ ps) file = refl

content-append_all :
    (batches : List (List PostingRow)) (file : File)
    → content (append_all batches file) ≡ content file ++ print_rows (flatten batches)
unfolding append_all
content-append_all [] file = unfold print_rows in sym (append-nil _)
content-append_all (ps ∷ batches) file = rw (
  content-append_all batches (append_postings whole ps file).0,
  content-append_postings ps file,
  print_rows-append ps (flatten batches),
  append_assoc,
)

pub load-content :
    (file : File) → load_postings true file ≡ load_lines (lines_from [] (content file))
unfolding load_postings content
load-content none = unfold lines_from load_lines in refl
load-content (some s) = refl

-- The rows that any number of calls append to an absent file are loaded in their order, each with
-- its token, URLs, depth and frequency and with an empty title and no flags, provided that no text
-- holds a space or a newline, no origin is `-`, every number is a Go int and each line is shorter
-- than the scanner's limit.
pub load-append_all :
    (batches : List (List PostingRow))
    → All IsStorable (flatten batches)
    → load_postings true (append_all batches none) ≡ some (map stored (flatten batches))
load-append_all batches h =
    load-content (append_all batches none)
    ∙ rw (content-append_all batches none) (unfold content in load-print_rows (flatten batches) h)
