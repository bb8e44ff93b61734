-- ===== src/Search/Scores.antt =====
-- The map `scores` of internal/index/search.go against the sums that it stands for.
use google_in_a_day_crawler.Base.{
  contains-append, map-append, ap, append_assoc, if_neg, subst, ◌∙◌, if_pos, sym, append-nil,
  +ℤ_assoc, ◌≢◌, +ℤ_comm, ◌≡◌, refl, false, ◌||◌, ite, List, [], ◌∷◌, ◌++◌, map, arith, ℤ, pos,
  ◌+ℤ◌, Text, Text_discrete, contains, Distinct, All,
}
use google_in_a_day_crawler.Index.{Posting, Index, lookup}
use google_in_a_day_crawler.Search.{
  DocInfo, relevance, new_info, credit, tally, tally_all, tally_tokens,
}

-- The postings that a query's tokens hit, token by token.
unfoldable pub hits : Index → List Text → List Posting
hits idx [] = []
hits idx (t ∷ ts) = lookup idx t ++ hits idx ts

-- The sum of a number over the postings of one URL.
pub total : (Posting → ℤ) → Text → List Posting → ℤ
total f url [] = pos 0
total f url (p ∷ ps) = let rest = total f url ps in ite (Text_discrete p.url url) (f p +ℤ rest) rest

abbrev pub posting_urls : List Posting → List Text
posting_urls = map (λ p. p.url)

abbrev pub info_urls : List DocInfo → List Text
info_urls = map (λ i. i.url)

total_snoc :
    (f : Posting → ℤ) (url : Text) (ps : List Posting) (p : Posting)
    → total f url (ps ++ p ∷ [])
      ≡ ite (Text_discrete p.url url) (total f url ps +ℤ f p) (total f url ps)
unfolding total
total_snoc f url [] p = ground (arith, +ℤ_comm (f p) (pos 0))
total_snoc f url (q ∷ ps) p =
    ground (arith, total_snoc f url ps p, +ℤ_assoc (f q) (total f url ps) (f p))

total_absent :
    (f : Posting → ℤ) (url : Text) (ps : List Posting)
    → contains url (posting_urls ps) ≡ false
    → total f url ps ≡ pos 0
unfolding total contains
total_absent f url [] h = refl
total_absent f url (p ∷ ps) h = ground (arith, total_absent f url ps)

-- An entry holds the sums over the postings of its URL.
pub record IsTally (done : List Posting) (score frequency : ℤ) (url : Text) : Type 0 where
  pub scored : score ≡ total relevance url done
  pub counted : frequency ≡ total (λ p. p.term_freq) url done

abbrev pub AreTallies : List Posting → List DocInfo → Type 0
AreTallies done = All (λ i. IsTally done i.score i.frequency i.url)

pub record IsTable (done : List Posting) (infos : List DocInfo) : Type 0 where
  pub sums : AreTallies done infos
  pub keys : (url : Text) → contains url (info_urls infos) ≡ contains url (posting_urls done)
  pub once : Distinct (info_urls infos)

IsTally-other :
    (done : List Posting) (p : Posting) (i : DocInfo)
    → p.url ≢ i.url
    → IsTally done i.score i.frequency i.url
    → IsTally (done ++ p ∷ []) i.score i.frequency i.url
IsTally-other done p i ne t =
    ground (arith, total_snoc relevance i.url done p, total_snoc (λ q. q.term_freq) i.url done p)

AreTallies-others :
    (done : List Posting) (p : Posting) (infos : List DocInfo)
    → contains p.url (info_urls infos) ≡ false
    → AreTallies done infos
    → AreTallies (done ++ p ∷ []) infos
unfolding contains
AreTallies-others done p [] h t = tt
AreTallies-others done p (i ∷ infos) h t = (
  IsTally-other done p i (λ e. ground arith) t.0,
  AreTallies-others done p infos (ground arith) t.1,
)

IsTally-credit :
    (done : List Posting) (p : Posting) (i : DocInfo)
    → i.url ≡ p.url
    → IsTally done i.score i.frequency i.url
    → IsTally (done ++ p ∷ []) (credit p i).score (credit p i).frequency (credit p i).url
unfolding credit
IsTally-credit done p i e t =
    ground (arith, total_snoc relevance i.url done p, total_snoc (λ q. q.term_freq) i.url done p)

contains-tally :
    (url : Text) (p : Posting) (infos : List DocInfo)
    → contains url (info_urls (tally p infos))
      ≡ (contains url (info_urls infos) || contains url (p.url ∷ []))
unfolding tally credit new_info contains
contains-tally url p [] = refl
contains-tally url p (i ∷ infos) = ground (arith, contains-tally url p infos)

tally-Distinct :
    (p : Posting) (infos : List DocInfo)
    → Distinct (info_urls infos)
    → Distinct (info_urls (tally p infos))
unfolding tally credit new_info contains
tally-Distinct p [] d = (refl, tt)
tally-Distinct p (i ∷ infos) d = elim (Text_discrete i.url p.url) [
  | yes e ↦ rw (if_pos _ e) d
  | no e ↦
      rw (if_neg _ e)
        (ground (arith, contains-tally i.url p infos, d.0), tally-Distinct p infos d.1)
]

tally-sums :
    (done : List Posting) (p : Posting) (infos : List DocInfo)
    → AreTallies done infos
    → Distinct (info_urls infos)
    → (contains p.url (info_urls infos) ≡ false → contains p.url (posting_urls done) ≡ false)
    → AreTallies (done ++ p ∷ []) (tally p infos)
unfolding tally contains
tally-sums done p [] t d fresh = (
  IsTally-credit done p (new_info p) (unfold new_info in refl) (
      unfold new_info in
      record {
        scored = sym (total_absent relevance p.url done (fresh refl));
        counted = sym (total_absent (λ q. q.term_freq) p.url done (fresh refl));
      }),
  tt,
)
tally-sums done p (i ∷ infos) t d fresh = elim (Text_discrete i.url p.url) [
  | yes e ↦ rw (if_pos _ e) (
    IsTally-credit done p i e t.0,
    AreTallies-others done p infos (subst (λ x. contains x (info_urls infos) ≡ false) e d.0) t.1,
  )
  | no e ↦ rw (if_neg _ e) (
    IsTally-other done p i (λ q. e (sym q)) t.0,
    tally-sums done p infos t.1 d.1 (λ h. fresh (rw (if_neg _ e) h)),
  )
]

tally-IsTable :
    (done : List Posting) (p : Posting) (infos : List DocInfo)
    → IsTable done infos
    → IsTable (done ++ p ∷ []) (tally p infos)
tally-IsTable done p infos t = record {
  sums = tally-sums done p infos t.sums t.once (λ h. sym (t.keys p.url) ∙ h);
  keys = λ url.
      contains-tally url p infos
      ∙ ap (λ b. b || contains url (p.url ∷ [])) (t.keys url)
      ∙ sym (
          rw (map-append (λ (q : Posting). q.url) done (p ∷ []))
            (contains-append url (posting_urls done) (p.url ∷ [])));
  once = tally-Distinct p infos t.once;
}

tally_all-IsTable :
    (done ps : List Posting) (infos : List DocInfo)
    → IsTable done infos
    → IsTable (done ++ ps) (tally_all ps infos)
unfolding tally_all
tally_all-IsTable done [] infos t = rw append-nil t
tally_all-IsTable done (p ∷ ps) infos t =
    subst (λ d. IsTable d (tally_all ps (tally p infos))) (append_assoc done (p ∷ []) ps)
      (tally_all-IsTable (done ++ p ∷ []) ps (tally p infos) (tally-IsTable done p infos t))

tally_tokens-IsTable_after :
    (idx : Index) (done : List Posting) (ts : List Text) (infos : List DocInfo)
    → IsTable done infos
    → IsTable (done ++ hits idx ts) (tally_tokens idx ts infos)
unfolding tally_tokens hits
tally_tokens-IsTable_after idx done [] infos t = rw append-nil t
tally_tokens-IsTable_after idx done (w ∷ ts) infos t =
    subst (λ d. IsTable d (tally_tokens idx ts (tally_all (lookup idx w) infos)))
      (append_assoc done (lookup idx w) (hits idx ts))
      (tally_tokens-IsTable_after idx (done ++ lookup idx w) ts (tally_all (lookup idx w) infos)
        (tally_all-IsTable done (lookup idx w) infos t))

-- The map `scores` has one entry for each URL that the query's tokens hit and no other, with the
-- sums of the relevance and of the frequency over all the hits of that URL.
pub tally_tokens-IsTable :
    (idx : Index) (ts : List Text) → IsTable (hits idx ts) (tally_tokens idx ts [])
unfolding contains total
tally_tokens-IsTable idx ts =
    tally_tokens-IsTable_after idx [] ts [] (record { sums = tt; keys = λ url. refl; once = tt })
