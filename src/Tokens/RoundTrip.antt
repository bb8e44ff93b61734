-- ===== src/Tokens/RoundTrip.antt =====
-- Words that are written one after the other are read back by `tokenize`
-- (internal/index/index.go).
use google_in_a_day_crawler.Base.{
  utf8_len, true, ℕ, ◌≡◌, refl, Bool, List, [], ◌∷◌, ◌++◌, map, append-nil, append_assoc, arith,
  All, Text,
}
use google_in_a_day_crawler.Tokens.{
  Unicode, AsciiTables, to_lower_text, close_field, fields_from, fields_func, is_separator,
  keep_words, tokenize,
}
use google_in_a_day_crawler.Tokens.Words.{IsIndexed, IsRun, tokenize-append}

-- Each word with a separator behind it.
abbrev pub join : ℕ → List Text → Text
join sep [] = []
join sep (w ∷ ws) = w ++ sep ∷ join sep ws

fields_from_run :
    (sep : ℕ → Bool) (field s : Text)
    → IsRun sep s
    → fields_from sep field s ≡ close_field (field ++ s) []
unfolding fields_from
fields_from_run sep field [] h = rw append-nil
fields_from_run sep field (c ∷ s) h =
    ground (arith, fields_from_run sep (field ++ c ∷ []) s h.1, append_assoc field (c ∷ []) s)

map_fixed : (f : ℕ → ℕ) (s : Text) → All (λ c. f c ≡ c) s → map f s ≡ s
map_fixed f [] h = refl
map_fixed f (c ∷ s) h = cc (h.0, map_fixed f s h.1)

keep_words_one : (u : Unicode) (w : Text) → IsIndexed u w → keep_words (close_field w []) ≡ w ∷ []
unfolding keep_words close_field
keep_words_one u [] h = absurd (unfold utf8_len in (omega (arith, h.long)))
keep_words_one u (c ∷ w) h = ground arith

tokenize_one :
    (u : Unicode) (w : Text) → IsIndexed u w → All (λ c. u.to_lower c ≡ c) w → tokenize u w ≡ w ∷ []
unfolding tokenize fields_func to_lower_text
tokenize_one u w h low =
    rw (map_fixed u.to_lower w low, fields_from_run (is_separator u) [] w h.runes)
      (keep_words_one u w h)

space_separates : (u : Unicode) → AsciiTables u → is_separator u (u.to_lower b' ') ≡ true
unfolding is_separator
space_separates u t = ground (arith, t.lower b' ', t.letters b' ', t.digits b' ')

-- Words that the index can hold, in lower case and written with a space behind each, are read back
-- by `tokenize` in the same order, none lost and none added.
pub tokenize-join :
    (u : Unicode) (ws : List Text)
    → AsciiTables u
    → All (IsIndexed u) ws
    → All (All (λ c. u.to_lower c ≡ c)) ws
    → tokenize u (join b' ' ws) ≡ ws
tokenize-join u [] t h low = unfold tokenize fields_func to_lower_text keep_words in refl
tokenize-join u (w ∷ ws) t h low = rw (
  tokenize-append u w b' ' (join b' ' ws) (space_separates u t),
  tokenize_one u w h.0 low.0,
  tokenize-join u ws t h.1 low.1,
)
