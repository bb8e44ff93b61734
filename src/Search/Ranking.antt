-- ===== src/Search/Ranking.antt =====
-- What `Search` (internal/index/search.go) returns, for any order in which Go ranges over its map
-- and any sort that does what `sort.Slice` promises.
use mathlib.Core.List.{Permᴰ}
use google_in_a_day_crawler.Base.{
  zero, length-take-le, ◌≤◌, length, suc, inr, take, ◌<◌, drop, ltb, Distinct-perm, ◌∙◌,
  contains-perm, sym, All-perm, inl, List-cases, ap, map-perm, if_neg, if_pos, codes, ℕ, ◌≡◌, refl,
  Bool, true, false, List, [], ◌∷◌, map, arith, pos, Text, Text_discrete, contains, Distinct, All,
}
use google_in_a_day_crawler.Tokens.{Unicode, tokenize}
use google_in_a_day_crawler.Index.{Index}
use google_in_a_day_crawler.Search.{
  DocInfo, SearchResult, Runtime, to_result, by_depth, by_frequency, by_relevance, less_for, cut_to,
  ranked, search, tally_tokens,
}
use google_in_a_day_crawler.Search.Scores.{
  IsTable, hits, posting_urls, IsTally, tally_tokens-IsTable,
}

-- The orders for which `sort.Slice` is specified: strict weak orders.
pub record IsWeakOrder (less : SearchResult → SearchResult → Bool) : Type 0 where
  pub asymmetric : (a b : SearchResult) → less a b ≡ true → less b a ≡ false
  pub negatively_transitive :
      (a b c : SearchResult) → less a b ≡ false → less b c ≡ false → less a c ≡ false

-- No result stands behind one that it is less than.
abbrev pub Ascending : (SearchResult → SearchResult → Bool) → List SearchResult → Type 0
Ascending less [] = Unit
Ascending less (r ∷ rs) = All (λ s. less s r ≡ false) rs × Ascending less rs

pub record RuntimeLaws (go : Runtime) : Type 0 where
  pub ranges_over_all : (infos : List DocInfo) → Permᴰ infos (go.range_infos infos)
  pub rearranges :
      (less : SearchResult → SearchResult → Bool) (rs : List SearchResult)
      → Permᴰ rs (go.sort_slice less rs)
  pub sorts :
      (less : SearchResult → SearchResult → Bool) (rs : List SearchResult)
      → IsWeakOrder less
      → Ascending less (go.sort_slice less rs)

by_depth-IsWeakOrder : IsWeakOrder by_depth
unfolding by_depth
by_depth-IsWeakOrder = record {
  asymmetric = λ a b h. ground arith;
  negatively_transitive = λ a b c h k. ground arith;
}

by_frequency-IsWeakOrder : IsWeakOrder by_frequency
unfolding by_frequency
by_frequency-IsWeakOrder = record {
  asymmetric = λ a b h. ground arith;
  negatively_transitive = λ a b c h k. ground arith;
}

by_relevance-IsWeakOrder : IsWeakOrder by_relevance
unfolding by_relevance
by_relevance-IsWeakOrder = record {
  asymmetric = λ a b h. ground arith;
  negatively_transitive = λ a b c h k. ground arith;
}

less_for-IsWeakOrder : (sort_by : Text) → IsWeakOrder (less_for sort_by)
unfolding less_for
less_for-IsWeakOrder sort_by = elim (Text_discrete sort_by (codes "depth")) [
  | yes p ↦ rw (if_pos _ p) by_depth-IsWeakOrder
  | no p ↦ rw (if_neg _ p) (elim (Text_discrete sort_by (codes "frequency")) [
    | yes q ↦ rw (if_pos _ q) by_frequency-IsWeakOrder
    | no q ↦ rw (if_neg _ q) by_relevance-IsWeakOrder
  ])
]

abbrev pub result_urls : List SearchResult → List Text
result_urls = map (λ r. r.url)

abbrev pub AreHits : Index → List Text → List SearchResult → Type 0
AreHits idx ts = All (λ r. IsTally (hits idx ts) r.score r.frequency r.url)

All-to_result :
    (idx : Index) (ts : List Text) (infos : List DocInfo)
    → All (λ i. IsTally (hits idx ts) i.score i.frequency i.url) infos
    → AreHits idx ts (map to_result infos)
unfolding to_result
All-to_result idx ts [] h = tt
All-to_result idx ts (i ∷ infos) h = (h.0, All-to_result idx ts infos h.1)

urls-to_result : (infos : List DocInfo) → result_urls (map to_result infos) ≡ map (λ i. i.url) infos
unfolding to_result
urls-to_result [] = refl
urls-to_result (i ∷ infos) = ap (◌∷◌ i.url) (urls-to_result infos)

module _ (go : Runtime) (laws : RuntimeLaws go) (sort_by : Text) where
  ranked-perm : (infos : List DocInfo) → Permᴰ (map to_result infos) (ranked go sort_by infos)
  unfolding ranked
  ranked-perm infos =
      Permᴰ.trans (map-perm to_result (laws.ranges_over_all infos))
        (laws.rearranges (less_for sort_by) (map to_result (go.range_infos infos)))

  ranked-Ascending : (infos : List DocInfo) → Ascending (less_for sort_by) (ranked go sort_by infos)
  unfolding ranked
  ranked-Ascending infos = laws.sorts (less_for sort_by) _ (less_for-IsWeakOrder sort_by)

-- The whole answer to a query, before it is cut to the limit.
pub record IsAnswer (idx : Index) (ts : List Text) (sort_by : Text) (rs : List SearchResult)
    : Type 0 where
  pub sums : AreHits idx ts rs
  pub complete :
      (url : Text) → contains url (result_urls rs) ≡ contains url (posting_urls (hits idx ts))
  pub once : Distinct (result_urls rs)
  pub best_first : Ascending (less_for sort_by) rs

ranked-IsAnswer :
    (go : Runtime) (idx : Index) (ts : List Text) (sort_by : Text)
    → RuntimeLaws go
    → IsAnswer idx ts sort_by (ranked go sort_by (tally_tokens idx ts []))
ranked-IsAnswer go idx ts sort_by laws = record {
  sums = All-perm _ p (All-to_result idx ts infos table.sums);
  complete = λ url.
      sym (contains-perm (λ (r : SearchResult). r.url) url p)
      ∙ ap (contains url) (urls-to_result infos)
      ∙ table.keys url;
  once = Distinct-perm (λ (r : SearchResult). r.url) p (rw (urls-to_result infos) table.once);
  best_first = ranked-Ascending go laws sort_by infos;
}
  where
    infos : List DocInfo
    infos = tally_tokens idx ts []

    table : IsTable (hits idx ts) infos
    table = tally_tokens-IsTable idx ts

    p : Permᴰ (map to_result infos) (ranked go sort_by infos)
    p = ranked-perm go laws sort_by infos

-- Without a limit (`topK` is 0) the answer holds one result for each URL that a token of the query
-- hits and no other; a result's score and frequency are the sums over all hits of its URL; and no
-- result stands behind one that it should precede in the order that was asked for.
pub search-IsAnswer :
    (go : Runtime) (u : Unicode) (query : Text) (idx : Index) (sort_by : Text)
    → RuntimeLaws go
    → IsAnswer idx (tokenize u query) sort_by (search go u query idx (pos 0) sort_by)
unfolding search cut_to
search-IsAnswer go u query idx sort_by laws = elim (List-cases (tokenize u query)) [
  | inl e ↦
      rw (e, search)
        (record { sums = tt; complete = λ url. unfold hits in refl; once = tt; best_first = tt })
  | inr (t, ts, e) ↦ rw (e, search) (ranked-IsAnswer go idx (t ∷ ts) sort_by laws)
]

take_all : (n : ℕ) (rs : List SearchResult) → ltb n (length rs) ≡ false → take n rs ≡ rs
take_all zero [] h = refl
take_all zero (r ∷ rs) h = absurd (ground arith)
take_all (suc n) [] h = refl
take_all (suc n) (r ∷ rs) h = ap (◌∷◌ r) (take_all n rs (ground arith))

cut_to-take : (n : ℕ) (rs : List SearchResult) → 0 < n → cut_to (pos n) rs ≡ take n rs
unfolding cut_to
cut_to-take n rs h = ground (arith, take_all n rs)

All-drop {κ} :
    (P : SearchResult → Type κ) (n : ℕ) (rs : List SearchResult) → All P rs → All P (drop n rs)
All-drop P zero rs h = h
All-drop P (suc n) [] h = h
All-drop P (suc n) (r ∷ rs) h = All-drop P n rs h.1

-- Each result of the second list may stand behind each of the first.
abbrev pub NoneBetter :
    (SearchResult → SearchResult → Bool) → List SearchResult → List SearchResult → Type 0
NoneBetter less shown rest = All (λ r. All (λ s. less s r ≡ false) rest) shown

Ascending-split :
    (less : SearchResult → SearchResult → Bool) (n : ℕ) (rs : List SearchResult)
    → Ascending less rs
    → NoneBetter less (take n rs) (drop n rs)
Ascending-split less zero rs a = tt
Ascending-split less (suc n) [] a = tt
Ascending-split less (suc n) (r ∷ rs) a =
    (All-drop (λ s. less s r ≡ false) n rs a.0, Ascending-split less n rs a.1)

take_nil : (n : ℕ) → take {A = SearchResult} n [] ≡ []
take_nil zero = refl
take_nil (suc n) = refl

search-cut_to :
    (go : Runtime) (u : Unicode) (query : Text) (idx : Index) (sort_by : Text) (n : ℕ)
    → 0 < n
    → search go u query idx (pos n) sort_by ≡ take n (search go u query idx (pos 0) sort_by)
unfolding search
search-cut_to go u query idx sort_by n h = elim (List-cases (tokenize u query)) [
  | inl e ↦ rw (e, search) (ground (arith, take_nil n))
  | inr (t, ts, e) ↦ rw (e, search) (cut_to-take n _ h ∙ ap (take n) (unfold cut_to in refl))
]

-- With a limit of n results the answer is the first n results of the answer without a limit, n at
-- most, and none of the results left out should precede one that is shown.
pub search-limit :
    (go : Runtime) (u : Unicode) (query : Text) (idx : Index) (sort_by : Text) (n : ℕ)
    → RuntimeLaws go
    → 0 < n
    → let whole = search go u query idx (pos 0) sort_by in
      let shown = search go u query idx (pos n) sort_by in
      (shown ≡ take n whole)
      × (length shown ≤ n)
      × NoneBetter (less_for sort_by) shown (drop n whole)
search-limit go u query idx sort_by n laws h =
    let whole = search go u query idx (pos 0) sort_by in
    let e = search-cut_to go u query idx sort_by n h in
    (
      e,
      rw e (length-take-le n whole),
      rw e (
          Ascending-split (less_for sort_by) n whole
            (search-IsAnswer go u query idx sort_by laws).best_first),
    )
