-- ===== src/PData.antt =====
-- The flat file of postings, internal/storage/pdata.go, and the posting rows of
-- internal/storage/sqlite.go. The file is its content, `none` where there is none; an error of the
-- operating system is the argument `opened`, or the outcome of a write.
pub mod Decimal
pub mod Splitting
pub mod RoundTrip
mod Examples
use google_in_a_day_crawler.Base.{
  take, zero, ℕ, suc, ◌+◌, ◌≡◌, Bool, true, false, ite, List, [], ◌∷◌, ◌++◌, Option, none, some,
  ◌>>=◌, ℤ, pos, negsuc, Text, Text_discrete, codes, leb, ◌==◌, utf8_len, if◌then◌else◌,
}
use Decimal.{format_int, atoi}

pub record PostingRow : Type 0 where
  pub token : Text
  pub url : Text
  pub origin_url : Text
  pub depth : ℤ
  pub title : Text
  pub term_freq : ℤ
  pub in_title : Bool
  pub in_url : Bool

abbrev pub space : ℕ
space = b' '

abbrev pub newline : ℕ
newline = 10

abbrev pub carriage_return : ℕ
carriage_return = 13

-- `"%s %s %s %d %d\n"`, with `-` for an empty origin.
unfoldable pub print_origin : Text → Text
print_origin [] = codes "-"
print_origin (c ∷ origin) = c ∷ origin

unfoldable pub print_row : PostingRow → Text
unfolding print_origin
print_row p =
    p.token
    ++ space
      ∷ (p.url
          ++ space
            ∷ (print_origin p.origin_url
                ++ space
                  ∷ (format_int p.depth ++ space ∷ (format_int p.term_freq ++ newline ∷ []))))

unfoldable pub print_rows : List PostingRow → Text
print_rows [] = []
print_rows (p ∷ ps) = print_row p ++ print_rows ps

abbrev pub File : Type 0
File = Option Text

unfoldable pub content : File → Text
content none = []
content (some s) = s

-- How a write of rows goes: the directory or the file could not be opened; a write of the buffer fails
-- when so many runes, and what is read of one that is cut, are in the file, which `Flush` returns; or the
-- rows are written.
pub data FileWrite : Type 0 where
  not_opened : FileWrite
  partial : ℕ → Text → FileWrite
  whole : FileWrite

-- `AppendPostingsToFile`; `false` is an error.
unfoldable pub append_postings : FileWrite → List PostingRow → File → File × Bool
unfolding content
append_postings write [] file = (file, true)
append_postings whole (p ∷ ps) file = (some (content file ++ print_rows (p ∷ ps)), true)
append_postings not_opened (p ∷ ps) file = (file, false)
append_postings (partial n cut_rune) (p ∷ ps) file =
    (some (content file ++ take n (print_rows (p ∷ ps)) ++ cut_rune), false)

-- `strings.Cut` at the first separator.
unfoldable pub cut : ℕ → Text → Option (Text × Text)
cut sep [] = none
cut sep (c ∷ s) = elim (c == sep) [
  | true ↦ some ([], s)
  | false ↦ do (before, after) ← cut sep s; some (c ∷ before, after)
]

-- `strings.SplitN(s, sep, n + 1)`: n cuts at most.
unfoldable pub split_n : ℕ → ℕ → Text → List Text
split_n sep zero s = s ∷ []
split_n sep (suc n) s = elim (cut sep s) [
  | none ↦ s ∷ []
  | some (part, rest) ↦ part ∷ split_n sep n rest
]

-- The lines of `bufio.ScanLines`: without the newline, and the last one only if it is not empty.
unfoldable pub lines_from : Text → Text → List Text
lines_from [] [] = []
lines_from (c ∷ line) [] = (c ∷ line) ∷ []
lines_from line (c ∷ s) = elim (c == newline) [
  | true ↦ line ∷ lines_from [] s
  | false ↦ lines_from (line ++ c ∷ []) s
]

-- One carriage return at a line's end is dropped.
unfoldable pub drop_cr : Text → Text
drop_cr [] = []
drop_cr (c ∷ []) = if c == carriage_return then [] else c ∷ []
drop_cr (c ∷ d ∷ line) = c ∷ drop_cr (d ∷ line)

unfoldable pub read_origin : Text → Text
read_origin origin = ite (Text_discrete origin (codes "-")) [] origin

unfoldable pub row_of : Text → Text → Text → ℤ → ℤ → PostingRow
unfolding read_origin
row_of token url origin depth freq = record {
  token = token;
  url = url;
  origin_url = read_origin origin;
  depth = depth;
  title = [];
  term_freq = freq;
  in_title = false;
  in_url = false;
}

-- A line with fewer than five parts, or with no number where one belongs, is passed over.
unfoldable pub row_of_parts : List Text → Option PostingRow
row_of_parts (token ∷ url ∷ origin ∷ depth ∷ freq ∷ parts) = do
  d ← atoi depth
  f ← atoi freq
  some (row_of token url origin d f)
row_of_parts _ = none

unfoldable pub parse_line : Text → Option PostingRow
unfolding row_of_parts
parse_line [] = none
parse_line (c ∷ line) = row_of_parts (split_n space 4 (c ∷ line))

-- The size at which the scanner gives up on a line.
abbrev pub max_line : ℕ
max_line = 1_048_576

unfoldable pub add_row : Option PostingRow → List PostingRow → List PostingRow
add_row none rows = rows
add_row (some p) rows = p ∷ rows

-- The loop over the lines; `none` is the scanner's error.
unfoldable pub load_lines : List Text → Option (List PostingRow)
unfolding add_row
load_lines [] = some []
load_lines (line ∷ lines) = elim (leb max_line (utf8_len line)) [
  | true ↦ none
  | false ↦ do rows ← load_lines lines; some (add_row (parse_line (drop_cr line)) rows)
]

-- `LoadPostingsFromFile`; `opened` tells whether a file that exists could be opened.
unfoldable pub load_postings : Bool → File → Option (List PostingRow)
load_postings opened none = some []
load_postings false (some s) = none
load_postings true (some s) = load_lines (lines_from [] s)

-- `ClearPDataFile`; `removed` tells whether the removal succeeds.
unfoldable pub clear_pdata : Bool → File → File
clear_pdata removed none = none
clear_pdata true (some s) = none
clear_pdata false (some s) = some s
