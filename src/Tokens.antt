-- ===== src/Tokens.antt =====
-- The tokenizer of internal/index/index.go (`tokenize` and its stop words). The tables of Go's
-- package `unicode` are the parameter `Unicode`.
pub mod Words
pub mod RoundTrip
pub mod Ascii
mod Examples
use google_in_a_day_crawler.Base.{
  ℕ, ◌+◌, ◌-◌, ◌<◌, ◌≡◌, Bool, true, false, not, ◌&&◌, ◌||◌, List, [], ◌∷◌, ◌++◌, map, ltb, leb,
  if◌then◌else◌, Text, codes, contains, utf8_len,
}

-- `unicode.IsLetter`, `unicode.IsDigit`, `unicode.IsSpace` and `unicode.ToLower`.
pub record Unicode : Type 0 where
  pub is_letter : ℕ → Bool
  pub is_digit : ℕ → Bool
  pub is_space : ℕ → Bool
  pub to_lower : ℕ → ℕ

abbrev pub is_ascii_upper : ℕ → Bool
is_ascii_upper c = leb b'A' c && leb c b'Z'

abbrev pub is_ascii_lower : ℕ → Bool
is_ascii_lower c = leb b'a' c && leb c b'z'

abbrev pub is_ascii_digit : ℕ → Bool
is_ascii_digit c = leb b'0' c && leb c b'9'

abbrev pub ascii_to_lower : ℕ → ℕ
ascii_to_lower c = if is_ascii_upper c then c + 32 else c

-- What the tables say of the ASCII characters.
pub record AsciiTables (u : Unicode) : Type 0 where
  pub letters : (c : ℕ) → c < 128 → u.is_letter c ≡ (is_ascii_upper c || is_ascii_lower c)
  pub digits : (c : ℕ) → c < 128 → u.is_digit c ≡ is_ascii_digit c
  pub lower : (c : ℕ) → c < 128 → u.to_lower c ≡ ascii_to_lower c

-- `strings.ToLower` of a text that is valid UTF-8.
unfoldable pub to_lower_text : Unicode → Text → Text
to_lower_text u = map u.to_lower

-- `strings.FieldsFunc`: the maximal runs of runes that are no separators. `field` is the run that
-- is being read.
unfoldable pub close_field : Text → List Text → List Text
close_field [] rest = rest
close_field (c ∷ field) rest = (c ∷ field) ∷ rest

unfoldable pub fields_from : (ℕ → Bool) → Text → Text → List Text
fields_from is_separator field [] = close_field field []
fields_from is_separator field (c ∷ s) = elim (is_separator c) [
  | true ↦ close_field field (fields_from is_separator [] s)
  | false ↦ fields_from is_separator (field ++ c ∷ []) s
]

unfoldable pub fields_func : (ℕ → Bool) → Text → List Text
unfolding fields_from close_field
fields_func is_separator = fields_from is_separator []

unfoldable pub is_separator : Unicode → ℕ → Bool
is_separator u r = not (u.is_letter r) && not (u.is_digit r)

unfoldable pub stop_words : List Text
stop_words =
    codes "the"
    ∷ codes "be"
    ∷ codes "to"
    ∷ codes "of"
    ∷ codes "and"
    ∷ codes "in"
    ∷ codes "that"
    ∷ codes "have"
    ∷ codes "it"
    ∷ codes "for"
    ∷ codes "not"
    ∷ codes "on"
    ∷ codes "with"
    ∷ codes "he"
    ∷ codes "as"
    ∷ codes "you"
    ∷ codes "do"
    ∷ codes "at"
    ∷ codes "this"
    ∷ codes "but"
    ∷ codes "his"
    ∷ codes "by"
    ∷ codes "from"
    ∷ codes "they"
    ∷ codes "we"
    ∷ codes "say"
    ∷ codes "her"
    ∷ codes "she"
    ∷ codes "or"
    ∷ codes "an"
    ∷ codes "will"
    ∷ codes "my"
    ∷ codes "one"
    ∷ codes "all"
    ∷ codes "would"
    ∷ codes "there"
    ∷ codes "their"
    ∷ codes "what"
    ∷ codes "so"
    ∷ codes "up"
    ∷ codes "out"
    ∷ codes "if"
    ∷ codes "about"
    ∷ codes "who"
    ∷ codes "get"
    ∷ codes "which"
    ∷ codes "go"
    ∷ codes "me"
    ∷ codes "when"
    ∷ codes "make"
    ∷ codes "can"
    ∷ codes "like"
    ∷ codes "no"
    ∷ codes "just"
    ∷ codes "him"
    ∷ codes "know"
    ∷ codes "take"
    ∷ codes "into"
    ∷ codes "your"
    ∷ codes "some"
    ∷ codes "could"
    ∷ codes "them"
    ∷ codes "see"
    ∷ codes "other"
    ∷ codes "than"
    ∷ codes "then"
    ∷ codes "now"
    ∷ codes "its"
    ∷ codes "also"
    ∷ codes "after"
    ∷ codes "use"
    ∷ codes "how"
    ∷ codes "our"
    ∷ codes "was"
    ∷ codes "is"
    ∷ codes "are"
    ∷ codes "has"
    ∷ codes "had"
    ∷ codes "were"
    ∷ codes "been"
    ∷ codes "am"
    ∷ codes "did"
    ∷ codes "does"
    ∷ codes "a"
    ∷ []

-- The loop over the fields: short words and stop words are left out.
unfoldable pub keep_words : List Text → List Text
keep_words [] = []
keep_words (w ∷ ws) =
    let rest = keep_words ws in
    if ltb (utf8_len w) 2 then rest else if contains w stop_words then rest else w ∷ rest

unfoldable pub tokenize : Unicode → Text → List Text
tokenize u text = keep_words (fields_func (is_separator u) (to_lower_text u text))
