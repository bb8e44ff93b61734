-- ===== src/Index/Adding.antt =====
-- What `AddDocument` (internal/index/index.go) changes, and that the order in which Go ranges over
-- its map of tokens does not show.
use google_in_a_day_crawler.Base.{
  ◌∙◌, ap, length-append, int_laws, length, Text_discrete, ℕ, suc, ◌+◌, ◌≡◌, refl, ite, Bool, true,
  false, ◌||◌, List, [], ◌∷◌, ◌++◌, arith, pos, ◌+ℤ◌, Text, contains, count, Distinct,
  if◌then◌else◌, contains-append, count-append,
}
use google_in_a_day_crawler.Tokens.{Unicode}
use google_in_a_day_crawler.Index.{
  tokenize, Posting, Document, Index, append_posting, count_tokens, add_keys, title_tokens,
  body_tokens, freq, all_tokens, posting_of, append_each, add_document, lookup, IsRangeOf,
}

-- The words of a document, body first, with repetitions.
abbrev pub words : Unicode → Document → List Text
words u doc = body_tokens u doc ++ title_tokens u doc

count_tokens-count :
    (ts : List Text) (f : Text → ℕ) (k : Text) → count_tokens ts f k ≡ f k + count k ts
unfolding count_tokens count
count_tokens-count [] f k = omega arith
count_tokens-count (t ∷ ts) f k =
    ground (arith, count_tokens-count ts (λ j. ite (Text_discrete t j) (suc (f j)) (f j)) k)

-- The frequency of a token is how often it stands in the body and the title together.
pub freq-count : (u : Unicode) (doc : Document) (k : Text) → freq u doc k ≡ count k (words u doc)
unfolding freq
freq-count u doc k = omega (
  arith,
  count_tokens-count (title_tokens u doc) (count_tokens (body_tokens u doc) (λ j. 0)) k,
  count_tokens-count (body_tokens u doc) (λ j. 0) k,
  count-append k (body_tokens u doc) (title_tokens u doc),
)

contains-add_keys :
    (k : Text) (ts keys : List Text)
    → contains k (add_keys ts keys) ≡ (contains k keys || contains k ts)
unfolding add_keys contains
contains-add_keys k [] keys = ground arith
contains-add_keys k (t ∷ ts) keys = ground (
  arith,
  contains-add_keys k ts keys,
  contains-add_keys k ts (keys ++ t ∷ []),
  contains-append k keys (t ∷ []),
)

pub contains-all_tokens :
    (u : Unicode) (doc : Document) (k : Text)
    → contains k (all_tokens u doc) ≡ contains k (words u doc)
unfolding all_tokens contains
contains-all_tokens u doc k = ground (
  arith,
  contains-add_keys k (title_tokens u doc) (add_keys (body_tokens u doc) []),
  contains-add_keys k (body_tokens u doc) [],
  contains-append k (body_tokens u doc) (title_tokens u doc),
)

append_each_lem :
    (posting : Text → Posting) (order : List Text) (f : Text → List Posting) (k : Text)
    → Distinct order
    → append_each posting order f k ≡ (if contains k order then f k ++ posting k ∷ [] else f k)
unfolding append_each append_posting contains
append_each_lem posting [] f k d = refl
append_each_lem posting (t ∷ ts) f k d =
    ground (arith, append_each_lem posting ts (append_posting t (posting t) f) k d.1)

-- `AddDocument` appends one posting, at the end, to the list of each token of the document's body or
-- title, and changes no other list; the posting counts how often the token stands in body and title
-- together. This holds in whatever order Go ranges over the tokens.
pub lookup-add_document :
    (u : Unicode) (order : List Text) (doc : Document) (idx : Index) (k : Text)
    → IsRangeOf (all_tokens u doc) order
    → lookup (add_document u order doc idx) k ≡ (
        if contains k (words u doc)
        then lookup idx k
          ++ record {
            url = doc.url;
            origin_url = doc.origin_url;
            depth = doc.depth;
            title = doc.title;
            term_freq = pos (count k (words u doc));
            in_title = contains k (title_tokens u doc);
            in_url = contains k (tokenize u doc.url);
          }
            ∷ []
        else lookup idx k)
unfolding lookup add_document posting_of
lookup-add_document u order doc idx k r = ground (
  arith,
  append_each_lem (posting_of u doc) order idx.postings k r.once,
  r.complete k,
  contains-all_tokens u doc k,
  freq-count u doc k,
)

-- Documents that are added one after the other, each with the order of its range.
pub add_documents : Unicode → List (List Text × Document) → Index → Index
add_documents u [] idx = idx
add_documents u ((order, doc) ∷ rest) idx = add_documents u rest (add_document u order doc idx)

abbrev pub AreRanges : Unicode → List (List Text × Document) → Type 0
AreRanges u [] = Unit
AreRanges u ((order, doc) ∷ rest) = IsRangeOf (all_tokens u doc) order × AreRanges u rest

-- How many of the documents hold a token.
pub holders : Unicode → Text → List (List Text × Document) → ℕ
holders u k [] = 0
holders u k ((order, doc) ∷ rest) =
    if contains k (words u doc) then suc (holders u k rest) else holders u k rest

length_grown :
    (b : Bool) (ps : List Posting) (p : Posting)
    → length (if b then ps ++ p ∷ [] else ps) ≡ (if b then suc (length ps) else length ps)
length_grown true ps p = omega (arith, length-append ps (p ∷ []))
length_grown false ps p = refl

length-add_document :
    (u : Unicode) (order : List Text) (doc : Document) (idx : Index) (k : Text)
    → IsRangeOf (all_tokens u doc) order
    → length (lookup (add_document u order doc idx) k)
      ≡ (if contains k (words u doc) then suc (length (lookup idx k)) else length (lookup idx k))
length-add_document u order doc idx k r =
    ap length (lookup-add_document u order doc idx k r)
    ∙ length_grown (contains k (words u doc)) (lookup idx k) _

doc_count-add_document :
    (u : Unicode) (order : List Text) (doc : Document) (idx : Index)
    → (add_document u order doc idx).doc_count ≡ idx.doc_count +ℤ pos 1
unfolding add_document
doc_count-add_document u order doc idx = refl

-- After any sequence of calls of `AddDocument` the list of a token is as much longer as documents
-- were added that hold the token, and the number of documents has grown by the number of calls.
pub length-add_documents :
    (u : Unicode) (docs : List (List Text × Document)) (idx : Index) (k : Text)
    → AreRanges u docs
    → (length (lookup (add_documents u docs idx) k) ≡ length (lookup idx k) + holders u k docs)
      × ((add_documents u docs idx).doc_count ≡ idx.doc_count +ℤ pos (length docs))
unfolding add_documents holders
length-add_documents u [] idx k r = (omega arith, omega int_laws)
length-add_documents u ((order, doc) ∷ rest) idx k r =
    let (lists, docs) = length-add_documents u rest (add_document u order doc idx) k r.1 in
    (
      ground (arith, lists, length-add_document u order doc idx k r.0),
      rw (docs, doc_count-add_document u order doc idx) (omega int_laws),
    )
