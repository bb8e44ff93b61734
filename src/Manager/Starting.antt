-- ===== src/Manager/Starting.antt =====
-- The session of a crawl that `StartCrawl` of internal/crawler/manager.go starts: its row in the database.
use google_in_a_day_crawler.Base.{
  Bool, ℕ, suc, ◌≤◌, ◌≡◌, refl, true, List, [], ◌∷◌, ◌++◌, arith, Option, none, some, codes, ◌==◌,
  if◌then◌else◌, ◌>>=◌,
}
use google_in_a_day_crawler.Crawler.{Config}
use google_in_a_day_crawler.Store.{CrawlSession, Database, find_session, create_crawl_session}
use google_in_a_day_crawler.Store.Rows.{Ascends, IsOrderedDb}
use google_in_a_day_crawler.Manager.{Manager, new_session, create_session, with_id, start_crawl}

-- No row has an id above the last.
find_session-above :
    (lo hi k : ℕ) (rows : List CrawlSession)
    → Ascends lo hi rows
    → (lo ≤ hi) × (suc hi ≤ k → find_session k rows ≡ none)
unfolding Ascends find_session
find_session-above lo hi k [] h = (h, λ l. refl)
find_session-above lo hi k (sess ∷ rest) h =
    let later = find_session-above sess.id hi k rest h.1 in
    (omega (arith, h.0, later.0), λ l. ground (arith, l, h.0, later.0, later.1 l))

find_session-append :
    (k : ℕ) (rows : List CrawlSession) (row : CrawlSession)
    → find_session row.id rows ≡ none
    → find_session k (rows ++ row ∷ []) ≡ (if row.id == k then some row else find_session k rows)
unfolding find_session
find_session-append k [] row h = ground arith
find_session-append k (sess ∷ rest) row h = ground (arith, h, find_session-append k rest row)

-- A session's row, if there is a database.
abbrev pub row_in : ℕ → Option Database → Option CrawlSession
row_in k db = db >>= (λ d. find_session k d.sessions)

-- When its write is made, StartCrawl gives the crawl the id behind the last, which no session has, and a
-- row under it with the configuration, the status `running` and no counts; the rows of all other sessions stay as
-- they are. This holds where the ids of the rows ascend up to the last.
pub start_crawl-row :
    (removed : Bool) (cfg : Config) (k : ℕ) (m : Manager) (db : Database)
    → m.db ≡ some db
    → IsOrderedDb (some db)
    → let (r, id) = start_crawl true removed cfg m in
      (id ≡ suc db.last_id)
      × (find_session id db.sessions ≡ none)
      × (row_in k r.db ≡ (
          if id == k
          then some (record (new_session cfg (codes "running")) { id = id })
          else find_session k db.sessions))
unfolding start_crawl IsOrderedDb find_session create_session create_crawl_session with_id
    new_session
start_crawl-row removed cfg k m db d h =
    let id = suc db.last_id in
    let absent = (find_session-above 0 db.last_id id db.sessions h).1 (omega arith) in
    let row : CrawlSession = record (new_session cfg (codes "running")) { id = id } in
    rw (d, create_session) (refl, absent, find_session-append k db.sessions row absent)
