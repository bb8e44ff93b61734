-- ===== src/Search.antt =====
-- The ranked search of internal/index/search.go. Scores are whole numbers there, and a float64
-- holds each of them exactly below 2^53, so a score is an integer here.
pub mod Scores
pub mod Ranking
pub mod Insertion
mod Examples
use google_in_a_day_crawler.Base.{
  negsuc, ◌&&◌, ℕ, ◌+◌, ◌≡◌, Bool, true, false, ite, List, [], ◌∷◌, ◌++◌, map, ℤ, pos, ◌+ℤ◌, ◌-ℤ◌,
  scale, ltb_ℤ, eqb_ℤ, Text, codes, Text_discrete, length, take, ltb, if◌then◌else◌,
}
use google_in_a_day_crawler.Tokens.{Unicode, tokenize}
use google_in_a_day_crawler.Index.{Posting, Index, lookup}

pub record SearchResult : Type 0 where
  pub url : Text
  pub origin_url : Text
  pub depth : ℤ
  pub title : Text
  pub snippet : Text
  pub score : ℤ
  pub frequency : ℤ

pub record DocInfo : Type 0 where
  pub url : Text
  pub origin_url : Text
  pub depth : ℤ
  pub title : Text
  pub score : ℤ
  pub frequency : ℤ

-- What one posting adds to the score: 10 * frequency + 1000 - 5 * depth.
pub relevance : Posting → ℤ
relevance p = scale 10 p.term_freq +ℤ pos 1000 -ℤ scale 5 p.depth

pub new_info : Posting → DocInfo
new_info p = record {
  url = p.url;
  origin_url = p.origin_url;
  depth = p.depth;
  title = p.title;
  score = pos 0;
  frequency = pos 0;
}

pub credit : Posting → DocInfo → DocInfo
credit p info = record info {
  score = info.score +ℤ relevance p;
  frequency = info.frequency +ℤ p.term_freq;
}

-- One posting in the map `scores`, which is the list of its entries; an entry's key is its URL.
pub tally : Posting → List DocInfo → List DocInfo
tally p [] = credit p (new_info p) ∷ []
tally p (info ∷ infos) =
    let rest = tally p infos in
    ite (Text_discrete info.url p.url) (credit p info ∷ infos) (info ∷ rest)

pub tally_all : List Posting → List DocInfo → List DocInfo
tally_all [] infos = infos
tally_all (p ∷ ps) infos = tally_all ps (tally p infos)

-- The loop over the query's tokens.
pub tally_tokens : Index → List Text → List DocInfo → List DocInfo
tally_tokens idx [] infos = infos
tally_tokens idx (t ∷ ts) infos = tally_tokens idx ts (tally_all (lookup idx t) infos)

pub to_result : DocInfo → SearchResult
to_result info = record {
  url = info.url;
  origin_url = info.origin_url;
  depth = info.depth;
  title = info.title;
  snippet = [];
  score = info.score;
  frequency = info.frequency;
}

-- The `less` functions that `sort.Slice` is given.
pub by_depth : SearchResult → SearchResult → Bool
by_depth a b = if eqb_ℤ a.depth b.depth then ltb_ℤ b.score a.score else ltb_ℤ a.depth b.depth

pub by_frequency : SearchResult → SearchResult → Bool
by_frequency a b =
    if eqb_ℤ a.frequency b.frequency then ltb_ℤ b.score a.score else ltb_ℤ b.frequency a.frequency

pub by_relevance : SearchResult → SearchResult → Bool
by_relevance a b = ltb_ℤ b.score a.score

pub less_for : Text → SearchResult → SearchResult → Bool
less_for sort_by =
    ite (Text_discrete sort_by (codes "depth")) by_depth
      (ite (Text_discrete sort_by (codes "frequency")) by_frequency by_relevance)

-- What Go's runtime and library choose: the order of a range over a map, and the sort, which is
-- not stable.
pub record Runtime : Type 0 where
  pub range_infos : List DocInfo → List DocInfo
  pub sort_slice : (SearchResult → SearchResult → Bool) → List SearchResult → List SearchResult

-- `results[:topK]`, when a positive limit is exceeded.
pub cut_to : ℤ → List SearchResult → List SearchResult
cut_to (pos top_k) results =
    if ltb 0 top_k && ltb top_k (length results) then take top_k results else results
cut_to (negsuc n) results = results

pub ranked : Runtime → Text → List DocInfo → List SearchResult
ranked go sort_by infos = go.sort_slice (less_for sort_by) (map to_result (go.range_infos infos))

pub search : Runtime → Unicode → Text → Index → ℤ → Text → List SearchResult
search go u query idx top_k sort_by = elim (tokenize u query) [
  | [] ↦ []
  | t ∷ ts ↦ cut_to top_k (ranked go sort_by (tally_tokens idx (t ∷ ts) []))
]
