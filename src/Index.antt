-- ===== src/Index.antt =====
-- The inverted index of internal/index/index.go. The mutex of `Index` makes each method one step,
-- so a method is a function on the index. A Go `int` is an integer; the counts stay far below 2^63.
pub mod Adding
pub mod Soundness
mod Examples
use google_in_a_day_crawler.Base.{
  ℕ, suc, ◌+◌, ◌≡◌, Bool, true, false, ite, List, [], ◌∷◌, ◌++◌, ℤ, pos, ◌+ℤ◌, Text, Text_discrete,
  contains, Distinct, if◌then◌else◌,
}
use google_in_a_day_crawler.Tokens.{Unicode, tokenize}

pub record Posting : Type 0 where
  pub url : Text
  pub origin_url : Text
  pub depth : ℤ
  pub title : Text
  pub term_freq : ℤ
  pub in_title : Bool
  pub in_url : Bool

pub record Document : Type 0 where
  pub url : Text
  pub origin_url : Text
  pub depth : ℤ
  pub title : Text
  pub body_text : Text

-- The map from a token to its postings: a token with no entry has the empty list.
pub record Index : Type 0 where
  pub postings : Text → List Posting
  pub doc_count : ℤ

unfoldable pub new_index : Index
new_index = record { postings = λ token. []; doc_count = pos 0 }

-- `idx.postings[token] = append(idx.postings[token], p)`
unfoldable pub append_posting : Text → Posting → (Text → List Posting) → Text → List Posting
append_posting token p postings k = ite (Text_discrete token k) (postings k ++ p ∷ []) (postings k)

pub to_set : List Text → Text → Bool
to_set tokens t = contains t tokens

-- `freq[t]++` for each token of a list.
unfoldable pub count_tokens : List Text → (Text → ℕ) → Text → ℕ
count_tokens [] freq = freq
count_tokens (t ∷ ts) freq = count_tokens ts (λ k. ite (Text_discrete t k) (suc (freq k)) (freq k))

-- `allTokens[t] = struct{}{}` for each token of a list.
pub add_keys : List Text → List Text → List Text
add_keys [] keys = keys
add_keys (t ∷ ts) keys = add_keys ts (if contains t keys then keys else keys ++ t ∷ [])

pub title_tokens : Unicode → Document → List Text
title_tokens u doc = tokenize u doc.title

pub body_tokens : Unicode → Document → List Text
body_tokens u doc = tokenize u doc.body_text

-- `freq`: the tokens of the body, then those of the title.
pub freq : Unicode → Document → Text → ℕ
freq u doc = count_tokens (title_tokens u doc) (count_tokens (body_tokens u doc) (λ k. 0))

-- The keys of `allTokens`.
pub all_tokens : Unicode → Document → List Text
all_tokens u doc = add_keys (title_tokens u doc) (add_keys (body_tokens u doc) [])

pub posting_of : Unicode → Document → Text → Posting
unfolding to_set
posting_of u doc token = record {
  url = doc.url;
  origin_url = doc.origin_url;
  depth = doc.depth;
  title = doc.title;
  term_freq = pos (freq u doc token);
  in_title = to_set (title_tokens u doc) token;
  in_url = to_set (tokenize u doc.url) token;
}

pub append_each : (Text → Posting) → List Text → (Text → List Posting) → Text → List Posting
append_each posting [] postings = postings
append_each posting (t ∷ ts) postings =
    append_each posting ts (append_posting t (posting t) postings)

-- `AddDocument`. `order` is the order in which `range allTokens` yields the keys; Go leaves it open.
pub add_document : Unicode → List Text → Document → Index → Index
unfolding append_each
add_document u order doc idx = record {
  postings = append_each (posting_of u doc) order idx.postings;
  doc_count = idx.doc_count +ℤ pos 1;
}

-- `Lookup` returns a copy.
unfoldable pub lookup : Index → Text → List Posting
lookup idx token = idx.postings token

unfoldable pub add_posting : Text → Posting → Index → Index
add_posting token p idx = record idx { postings = append_posting token p idx.postings }

unfoldable pub set_doc_count : ℤ → Index → Index
set_doc_count n idx = record idx { doc_count = n }

-- An order in which Go may range over a map with the given keys: each key once.
pub record IsRangeOf (keys order : List Text) : Type 0 where
  pub once : Distinct order
  pub complete : (k : Text) → contains k order ≡ contains k keys
