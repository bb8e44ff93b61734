-- ===== src/Manager/Running.antt =====
-- The map of running crawls, internal/crawler/manager.go: what starts, ends and cancellations do to
-- its entries, and which entry the readers take.
use google_in_a_day_crawler.Base.{
  ℕ, zero, suc, ◌≤◌, ◌≡◌, ◌≢◌, ◌∙◌, ap, refl, Bool, true, false, List, [], ◌∷◌, arith, Option, none,
  some, codes, ◌==◌, ltb, if◌then◌else◌, Option-cases, inl, inr, ◌>>=◌,
}
use google_in_a_day_crawler.Crawler.{Config}
use google_in_a_day_crawler.Manager.{
  ActiveCrawl, Manager, find_crawl, delete_crawl, put_crawl, new_metrics, create_session, with_id,
  start_crawl,
}
use google_in_a_day_crawler.Manager.Sessions.{
  cancel_in, stop_crawl_by_id, FinishOutcomes, finish_session, end_crawl, max_id_from,
  active_session_id, latest_from,
}

pub find-delete_crawl :
    (id k : ℕ) (acs : List ActiveCrawl)
    → find_crawl k (delete_crawl id acs) ≡ (if id == k then none else find_crawl k acs)
unfolding find_crawl delete_crawl
find-delete_crawl id k [] = ground arith
find-delete_crawl id k (ac ∷ acs) = ground (arith, find-delete_crawl id k acs)

find-put_crawl :
    (ac : ActiveCrawl) (k : ℕ) (acs : List ActiveCrawl)
    → find_crawl k (put_crawl ac acs) ≡ (if ac.session_id == k then some ac else find_crawl k acs)
unfolding find_crawl put_crawl
find-put_crawl ac k acs = ground (arith, find-delete_crawl ac.session_id k acs)

pub cancelled_crawl : ActiveCrawl → ActiveCrawl
cancelled_crawl ac = record ac { cancelled = true }

find-cancel_in :
    (id k : ℕ) (acs : List ActiveCrawl)
    → find_crawl k (cancel_in id acs) ≡ (
        if id == k
        then (find_crawl k acs >>= (λ ac. some (cancelled_crawl ac)))
        else find_crawl k acs)
unfolding find_crawl cancel_in cancelled_crawl
find-cancel_in id k [] = ground arith
find-cancel_in id k (ac ∷ acs) = ground (arith, find-cancel_in id k acs)

-- StopCrawlByID tells whether the id is that of a running crawl; it cancels that crawl, and leaves
-- the entry of every other id alone.
pub stop_crawl_by_id-crawls :
    (id k : ℕ) (m : Manager)
    → let r = stop_crawl_by_id id m in
      (r.1 ≡ elim (find_crawl id m.crawls) [ none ↦ false | some ac ↦ true ])
      × (find_crawl k r.0.crawls ≡ (
          if id == k
          then (find_crawl k m.crawls >>= (λ ac. some (cancelled_crawl ac)))
          else find_crawl k m.crawls))
unfolding stop_crawl_by_id
stop_crawl_by_id-crawls id k m = elim (Option-cases (find_crawl id m.crawls)) [
  | inl e ↦ ground (arith, e)
  | inr (ac, e) ↦ ground (arith, e, find-cancel_in id k m.crawls)
]

pub with_id-positive : (id next_id : ℕ) → (with_id id next_id).0 ≢ 0
unfolding with_id
with_id-positive zero next_id = ground arith
with_id-positive (suc id) next_id = ground arith

finish_session-crawls :
    (o : FinishOutcomes) (id : ℕ) (m : Manager) → (finish_session o id m).crawls ≡ m.crawls
unfolding finish_session
finish_session-crawls o zero m = refl
finish_session-crawls o (suc n) m = ground arith

end_crawl-crawls :
    (o : FinishOutcomes) (id k : ℕ) (m : Manager)
    → find_crawl k (end_crawl o id m).crawls ≡ (if id == k then none else find_crawl k m.crawls)
unfolding end_crawl
end_crawl-crawls o id k m =
    ap (λ acs. find_crawl k (delete_crawl id acs)) (finish_session-crawls o id m)
    ∙ find-delete_crawl id k m.crawls

-- The crawl that StartCrawl starts is in the map under the id that it returns, which is not 0, and no
-- other entry changes; when the crawl's goroutine ends, its entry is removed and the others stay.
pub start_crawl-crawls :
    (saved removed : Bool) (cfg : Config) (o : FinishOutcomes) (k : ℕ) (m : Manager)
    → let (r, id) = start_crawl saved removed cfg m in
      (id ≢ 0)
      × (find_crawl k r.crawls ≡ (
          if id == k
          then some (record {
            session_id = id;
            metrics = new_metrics;
            cancelled = false;
            seed_url = cfg.seed_url;
          })
          else find_crawl k m.crawls))
      × (find_crawl k (end_crawl o id r).crawls ≡ (if id == k then none else find_crawl k m.crawls))
unfolding start_crawl
start_crawl-crawls saved removed cfg o k m =
    let (r, id) = start_crawl saved removed cfg m in
    let ac : ActiveCrawl = record {
      session_id = id;
      metrics = new_metrics;
      cancelled = false;
      seed_url = cfg.seed_url;
    } in
    (
      with_id-positive (create_session saved cfg (codes "running") m.db).id m.next_id,
      find-put_crawl ac k m.crawls,
      end_crawl-crawls o id k r ∙ ground (arith, find-put_crawl ac k m.crawls),
    )

max_id_from-start : (n : ℕ) (acs : List ActiveCrawl) → n ≤ max_id_from n acs
unfolding max_id_from
max_id_from-start n [] = omega arith
max_id_from-start n (ac ∷ acs) =
    ground (arith, max_id_from-start n acs, max_id_from-start ac.session_id acs)

max_id_from-bound :
    (n k : ℕ) (acs : List ActiveCrawl) → find_crawl k acs ≢ none → k ≤ max_id_from n acs
unfolding max_id_from find_crawl
max_id_from-bound n k [] h = ground arith
max_id_from-bound n k (ac ∷ acs) h = ground (
  arith,
  max_id_from-bound n k acs,
  max_id_from-bound ac.session_id k acs,
  max_id_from-start n acs,
  max_id_from-start ac.session_id acs,
)

pub latest_id : Option ActiveCrawl → ℕ
latest_id none = 0
latest_id (some ac) = ac.session_id

latest-max_id :
    (l : Option ActiveCrawl) (acs : List ActiveCrawl)
    → latest_id (latest_from l acs) ≡ max_id_from (latest_id l) acs
unfolding latest_from max_id_from latest_id
latest-max_id none [] = refl
latest-max_id (some l) [] = refl
latest-max_id none (ac ∷ acs) =
    latest-max_id (some ac) acs ∙ ap (λ n. max_id_from n acs) (ground arith)
latest-max_id (some l) (ac ∷ acs) =
    latest-max_id (some (if ltb l.session_id ac.session_id then ac else l)) acs
    ∙ ap (λ n. max_id_from n acs) (ground arith)

-- ActiveSessionID is at least the id of every running crawl, and it is the id of the crawl whose
-- metrics GetMetrics returns, or 0 when it finds none.
pub active_session_id-latest :
    (k : ℕ) (m : Manager)
    → (latest_id (latest_from none m.crawls) ≡ active_session_id m)
      × (find_crawl k m.crawls ≢ none → k ≤ active_session_id m)
unfolding active_session_id latest_id
active_session_id-latest k m = (latest-max_id none m.crawls, max_id_from-bound 0 k m.crawls)
