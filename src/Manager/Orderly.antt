-- ===== src/Manager/Orderly.antt =====
-- The invariant of the manager, internal/crawler/manager.go: the keys of its map, and the rows of its
-- sessions; and that each method keeps it.
use google_in_a_day_crawler.Base.{
  ℕ, ◌≡◌, ◌≢◌, refl, Bool, true, false, List, [], ◌∷◌, arith, Option, none, some, Text, ◌==◌,
  Bool-cases, inl, inr,
}
use google_in_a_day_crawler.Crawler.{Config}
use google_in_a_day_crawler.Store.{Database, create_crawl_session}
use google_in_a_day_crawler.Store.Rows.{IsOrderedDb, create_crawl_session-IsOrderedDb}
use google_in_a_day_crawler.Manager.{
  create_crawl_session, ActiveCrawl, Manager, find_crawl, delete_crawl, put_crawl, create_session,
  new_session,
}
use google_in_a_day_crawler.Manager.Sessions.{cancel_in, cancel_all}
use google_in_a_day_crawler.Manager.Running.{find-delete_crawl}

-- Each key stands once in the map, and none is 0.
unfoldable pub HasKeys : List ActiveCrawl → Type 0
HasKeys [] = Unit
HasKeys (ac ∷ acs) = (ac.session_id ≢ 0) × (find_crawl ac.session_id acs ≡ none) × HasKeys acs

pub record IsOrderly (m : Manager) : Type 0 where
  pub keys : HasKeys m.crawls
  pub rows : IsOrderedDb m.db

pub create_session-IsOrderedDb :
    (saved : Bool) (cfg : Config) (status : Text) (db : Option Database)
    → IsOrderedDb db
    → IsOrderedDb (create_session saved cfg status db).db
unfolding IsOrderedDb create_session create_crawl_session
create_session-IsOrderedDb saved cfg status none h = tt
create_session-IsOrderedDb false cfg status (some db) h = h
create_session-IsOrderedDb true cfg status (some db) h =
    create_crawl_session-IsOrderedDb true (new_session cfg status) db h

pub delete_crawl-HasKeys :
    (id : ℕ) (acs : List ActiveCrawl) → HasKeys acs → HasKeys (delete_crawl id acs)
unfolding HasKeys delete_crawl
delete_crawl-HasKeys id [] h = tt
delete_crawl-HasKeys id (ac ∷ acs) h =
    let kept = delete_crawl-HasKeys id acs h.2 in
    elim (Bool-cases (ac.session_id == id)) [
      | inl e ↦ rw (e) kept
      | inr e ↦ rw (e) (h.0, ground (arith, h.1, find-delete_crawl id ac.session_id acs), kept)
    ]

pub put_crawl-HasKeys :
    (ac : ActiveCrawl) (acs : List ActiveCrawl)
    → ac.session_id ≢ 0
    → HasKeys acs
    → HasKeys (put_crawl ac acs)
unfolding HasKeys put_crawl
put_crawl-HasKeys ac acs z h = (
  z,
  ground (arith, find-delete_crawl ac.session_id ac.session_id acs),
  delete_crawl-HasKeys ac.session_id acs h,
)

find-cancel_in :
    (id k : ℕ) (acs : List ActiveCrawl)
    → find_crawl k acs ≡ none
    → find_crawl k (cancel_in id acs) ≡ none
unfolding find_crawl cancel_in
find-cancel_in id k [] h = refl
find-cancel_in id k (ac ∷ acs) h = ground (arith, h, find-cancel_in id k acs)

pub cancel_in-HasKeys : (id : ℕ) (acs : List ActiveCrawl) → HasKeys acs → HasKeys (cancel_in id acs)
unfolding HasKeys cancel_in
cancel_in-HasKeys id [] h = tt
cancel_in-HasKeys id (ac ∷ acs) h = elim (Bool-cases (ac.session_id == id)) [
  | inl e ↦ rw (e) (h.0, find-cancel_in id ac.session_id acs h.1, cancel_in-HasKeys id acs h.2)
  | inr e ↦ rw (e) (h.0, find-cancel_in id ac.session_id acs h.1, cancel_in-HasKeys id acs h.2)
]

find-cancel_all :
    (k : ℕ) (acs : List ActiveCrawl)
    → find_crawl k acs ≡ none
    → find_crawl k (cancel_all acs) ≡ none
unfolding find_crawl cancel_all
find-cancel_all k [] h = refl
find-cancel_all k (ac ∷ acs) h = ground (arith, h, find-cancel_all k acs)

pub cancel_all-HasKeys : (acs : List ActiveCrawl) → HasKeys acs → HasKeys (cancel_all acs)
unfolding HasKeys cancel_all
cancel_all-HasKeys [] h = tt
cancel_all-HasKeys (ac ∷ acs) h =
    (h.0, find-cancel_all ac.session_id acs h.1, cancel_all-HasKeys acs h.2)
