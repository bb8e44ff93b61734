-- ===== src/Tokens/Words.antt =====
-- What `tokenize` (internal/index/index.go) lets through, and how it acts on a text in two parts.
use google_in_a_day_crawler.Base.{
  ℕ, ◌≤◌, ◌≡◌, refl, ap, inl, inr, true, false, List, [], ◌∷◌, ◌++◌, map, arith, All, All-append,
  Text, contains, utf8_len, Bool, Bool-cases,
}
use google_in_a_day_crawler.Tokens.{
  Unicode, to_lower_text, close_field, fields_from, fields_func, is_separator, stop_words,
  keep_words, tokenize,
}

module _ (sep : ℕ → Bool) where
  abbrev pub IsRun : Text → Type 0
  IsRun = All (λ c. sep c ≡ false)

  close_field-All :
      (field : Text) (rest : List Text)
      → IsRun field
      → All IsRun rest
      → All IsRun (close_field field rest)
  unfolding close_field
  close_field-All [] rest hf hr = hr
  close_field-All (c ∷ field) rest hf hr = (hf, hr)

  fields_from-All : (field s : Text) → IsRun field → All IsRun (fields_from sep field s)
  unfolding fields_from
  fields_from-All field [] h = close_field-All field [] h tt
  fields_from-All field (c ∷ s) h = elim (Bool-cases (sep c)) [
    | inl e ↦ rw (e, fields_from) (close_field-All field _ h (fields_from-All [] s tt))
    | inr e ↦
        rw (e, fields_from) (fields_from-All (field ++ c ∷ []) s (All-append _ field _ h (e, tt)))
  ]

  close_field-append :
      (field : Text) (xs ys : List Text) → close_field field xs ++ ys ≡ close_field field (xs ++ ys)
  unfolding close_field
  close_field-append [] xs ys = refl
  close_field-append (c ∷ field) xs ys = refl

  pub fields_from-append :
      (field s : Text) (c : ℕ) (t : Text)
      → sep c ≡ true
      → fields_from sep field (s ++ c ∷ t) ≡ fields_from sep field s ++ fields_from sep [] t
  unfolding fields_from
  fields_from-append field [] c t h =
      ground (arith, close_field-append field [] (fields_from sep [] t))
  fields_from-append field (d ∷ s) c t h = ground (
    arith,
    fields_from-append [] s c t h,
    fields_from-append (field ++ d ∷ []) s c t h,
    close_field-append field (fields_from sep [] s) (fields_from sep [] t),
  )

keep_words-append : (xs ys : List Text) → keep_words (xs ++ ys) ≡ keep_words xs ++ keep_words ys
unfolding keep_words
keep_words-append [] ys = refl
keep_words-append (x ∷ xs) ys = ground (arith, keep_words-append xs ys)

-- A word of the index: lower-case letters and digits alone, two bytes or more, no stop word.
pub record IsIndexed (u : Unicode) (w : Text) : Type 0 where
  pub runes : All (λ c. is_separator u c ≡ false) w
  pub long : 2 ≤ utf8_len w
  pub no_stop_word : contains w stop_words ≡ false

keep_words-All :
    (u : Unicode) (ws : List Text)
    → All (IsRun (is_separator u)) ws
    → All (IsIndexed u) (keep_words ws)
unfolding keep_words
keep_words-All u [] h = tt
keep_words-All u (w ∷ ws) h = ground (arith, keep_words-All u ws h.1)

-- Every token that `tokenize` returns is a run of letters and digits, at least two bytes long, and
-- is no stop word.
pub tokenize-IsIndexed : (u : Unicode) (text : Text) → All (IsIndexed u) (tokenize u text)
unfolding tokenize fields_func
tokenize-IsIndexed u text =
    keep_words-All u _ (fields_from-All (is_separator u) [] (to_lower_text u text) tt)

map-append-cons :
    (f : ℕ → ℕ) (s : Text) (c : ℕ) (t : Text) → map f (s ++ c ∷ t) ≡ map f s ++ f c ∷ map f t
map-append-cons f [] c t = refl
map-append-cons f (d ∷ s) c t = ap (◌∷◌ (f d)) (map-append-cons f s c t)

-- At a rune whose lower case is a separator a text may be cut in two: its tokens are those of the
-- part before the rune, followed by those of the part behind it.
pub tokenize-append :
    (u : Unicode) (s : Text) (c : ℕ) (t : Text)
    → is_separator u (u.to_lower c) ≡ true
    → tokenize u (s ++ c ∷ t) ≡ tokenize u s ++ tokenize u t
unfolding tokenize fields_func to_lower_text
tokenize-append u s c t h =
    rw
      (
        map-append-cons u.to_lower s c t,
        fields_from-append (is_separator u) [] (map u.to_lower s) (u.to_lower c) (map u.to_lower t)
            h,
      )
      (keep_words-append _ _)
