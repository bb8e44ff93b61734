-- ===== src/Dashboard/Histories.antt =====
-- The program behind its dashboard, internal/dashboard/server.go: any sequence of requests, of what the
-- goroutines of internal/crawler/manager.go do between them, and of the writes of the running crawls
-- (internal/crawler/crawler.go). The manager stays orderly.
use google_in_a_day_crawler.Base.{
  ℕ, ◌≡◌, subst, sym, refl, Bool, true, false, List, [], ◌∷◌, arith, Option, none, some, Text, ◌==◌,
  if◌then◌else◌, Bool-cases, inl, inr,
}
use google_in_a_day_crawler.Tokens.{Unicode}
use google_in_a_day_crawler.Worker.{Net, CrawlTask}
use google_in_a_day_crawler.Search.{Runtime}
use google_in_a_day_crawler.Index.{Index}
use google_in_a_day_crawler.PData.{File}
use google_in_a_day_crawler.Crawler.{Config}
use google_in_a_day_crawler.Store.{Database, add_session_visited_urls, save_session_queued_tasks}
use google_in_a_day_crawler.Store.Tables.{add_visited_urls, save_queued_tasks}
use google_in_a_day_crawler.Store.Clearing.{UniqueIds}
use google_in_a_day_crawler.Store.Rows.{Ascends-UniqueIds, IsOrderedDb, same-IsOrderedDb}
use google_in_a_day_crawler.Store.Crawling.{flush_store, queue_store}
use google_in_a_day_crawler.Manager.{Manager, ActiveCrawl, Metrics, find_crawl, start_crawl}
use google_in_a_day_crawler.Manager.Sessions.{FinishOutcomes, end_crawl}
use google_in_a_day_crawler.Manager.Readers.{resume_crawl, update_tick}
use google_in_a_day_crawler.Manager.Orderly.{HasKeys, IsOrderly}
use google_in_a_day_crawler.Manager.Keeping.{
  start_crawl-IsOrderly, end_crawl-IsOrderly, update_tick-IsOrderly, resume_crawl-IsOrderly,
}
use google_in_a_day_crawler.Dashboard.Handlers.{serve-IsOrderly}
use google_in_a_day_crawler.Dashboard.Routes.{Request, ServeOutcomes, serve}

flush_store-IsOrderedDb :
    (saved : Bool) (id : ℕ) (urls : List Text) (db : Database)
    → IsOrderedDb (some db)
    → IsOrderedDb (some (flush_store saved id urls db))
unfolding flush_store add_session_visited_urls add_visited_urls
flush_store-IsOrderedDb saved id [] db h = h
flush_store-IsOrderedDb true id (url ∷ urls) db h =
    same-IsOrderedDb db (flush_store true id (url ∷ urls) db) (ground arith) (ground arith) h
flush_store-IsOrderedDb false id (url ∷ urls) db h =
    same-IsOrderedDb db (flush_store false id (url ∷ urls) db) (ground arith) (ground arith) h

queue_store-IsOrderedDb :
    (saved : Bool) (id : ℕ) (tasks : List CrawlTask) (db : Database)
    → IsOrderedDb (some db)
    → IsOrderedDb (some (queue_store saved id tasks db))
unfolding queue_store save_session_queued_tasks save_queued_tasks
queue_store-IsOrderedDb true id tasks db h =
    same-IsOrderedDb db (queue_store true id tasks db) (ground arith) (ground arith) h
queue_store-IsOrderedDb false id tasks db h =
    same-IsOrderedDb db (queue_store false id tasks db) (ground arith) (ground arith) h

-- The metrics of a crawl, which its goroutines share with the manager.
pub set_metrics : ℕ → Metrics → List ActiveCrawl → List ActiveCrawl
set_metrics id counts [] = []
set_metrics id counts (ac ∷ acs) =
    (if ac.session_id == id then record ac { metrics = counts } else ac) ∷ set_metrics id counts acs

find-set_metrics :
    (id k : ℕ) (counts : Metrics) (acs : List ActiveCrawl)
    → find_crawl k acs ≡ none
    → find_crawl k (set_metrics id counts acs) ≡ none
unfolding find_crawl set_metrics
find-set_metrics id k counts [] h = refl
find-set_metrics id k counts (ac ∷ acs) h = ground (arith, h, find-set_metrics id k counts acs)

set_metrics-HasKeys :
    (id : ℕ) (counts : Metrics) (acs : List ActiveCrawl)
    → HasKeys acs
    → HasKeys (set_metrics id counts acs)
unfolding HasKeys set_metrics
set_metrics-HasKeys id counts [] h = tt
set_metrics-HasKeys id counts (ac ∷ acs) h =
    let rest = find-set_metrics id ac.session_id counts acs h.1 in
    let kept = set_metrics-HasKeys id counts acs h.2 in
    elim (Bool-cases (ac.session_id == id)) [
      | inl e ↦ rw (e) (h.0, rest, kept)
      | inr e ↦ rw (e) (h.0, rest, kept)
    ]

module _ (u : Unicode) (net : Net) (go : Runtime) where
  -- What may happen next. The index and the flat file may change in any way.
  pub data Event (m t : Manager) : Type 0 where
    request : (o : ServeOutcomes) (req : Request) → t ≡ (serve u net go o req m).0 → Event m t
    -- the calls of the command line
    started :
        (saved removed : Bool) (cfg : Config) → t ≡ (start_crawl saved removed cfg m).0 → Event m t
    continued :
        (visited_read tasks_read saved : Bool) (cfg : Config)
        → t ≡ (resume_crawl visited_read tasks_read saved cfg m).0
        → Event m t
    -- the goroutines of a crawl
    ended : (o : FinishOutcomes) (id : ℕ) → t ≡ end_crawl o id m → Event m t
    ticked :
        (saved : Bool) (id : ℕ) (counts : Metrics) → t ≡ update_tick saved id counts m → Event m t
    counted :
        (id : ℕ) (counts : Metrics)
        → t ≡ record m { crawls = set_metrics id counts m.crawls }
        → Event m t
    indexed :
        (idx : Index) (file : Option File) → t ≡ record m { index = idx; pdata = file } → Event m t
    flushed :
        (db : Database) (saved : Bool) (id : ℕ) (urls : List Text)
        → m.db ≡ some db
        → t ≡ record m { db = some (flush_store saved id urls db) }
        → Event m t
    saved_queue :
        (db : Database) (saved : Bool) (id : ℕ) (tasks : List CrawlTask)
        → m.db ≡ some db
        → t ≡ record m { db = some (queue_store saved id tasks db) }
        → Event m t

  pub data History (m : Manager) : Manager → Type 0 where
    begin : History m m
    then_event : {t v : Manager} → History m t → Event t v → History m v

  Event-IsOrderly : {m t : Manager} → Event m t → IsOrderly m → IsOrderly t
  unfolding IsOrderedDb
  Event-IsOrderly {m} (Event.request o req e) i =
      subst IsOrderly (sym e) (serve-IsOrderly u net go o req m i)
  Event-IsOrderly {m} (Event.started saved removed cfg e) i =
      subst IsOrderly (sym e) (start_crawl-IsOrderly saved removed cfg m i)
  Event-IsOrderly {m} (Event.continued visited_read tasks_read saved cfg e) i =
      subst IsOrderly (sym e) (resume_crawl-IsOrderly visited_read tasks_read saved cfg m i)
  Event-IsOrderly {m} (Event.ended o id e) i =
      subst IsOrderly (sym e) (end_crawl-IsOrderly o id m i)
  Event-IsOrderly {m} (Event.ticked saved id counts e) i =
      subst IsOrderly (sym e) (update_tick-IsOrderly saved id counts m i)
  Event-IsOrderly {m} (Event.counted id counts e) i =
      subst IsOrderly (sym e)
        (record { keys = set_metrics-HasKeys id counts m.crawls i.keys; rows = i.rows })
  Event-IsOrderly {m} (Event.indexed idx file e) i =
      subst IsOrderly (sym e) (record { keys = i.keys; rows = i.rows })
  Event-IsOrderly {m} (Event.flushed db saved id urls d e) i = subst IsOrderly (sym e) (record {
    keys = i.keys;
    rows = flush_store-IsOrderedDb saved id urls db (subst IsOrderedDb d i.rows);
  })
  Event-IsOrderly {m} (Event.saved_queue db saved id tasks d e) i =
      subst IsOrderly (sym e) (record {
        keys = i.keys;
        rows = queue_store-IsOrderedDb saved id tasks db (subst IsOrderedDb d i.rows);
      })

  History-keeps : {m t : Manager} → History m t → IsOrderly m → IsOrderly t
  History-keeps begin i = i
  History-keeps (then_event r e) i = Event-IsOrderly e (History-keeps r i)

  -- Whatever requests come and whatever the goroutines of the crawls do between them, in any order and with
  -- any outcomes of the writes: each key stands once in the map of the running crawls, none is 0, and
  -- the ids of the sessions' rows ascend up to the last id that was given out. This holds if no crawl runs
  -- at the start and the rows of the database are so ordered.
  pub History-IsOrderly :
      (m t : Manager)
      → m.crawls ≡ []
      → IsOrderedDb m.db
      → History m t
      → HasKeys t.crawls × IsOrderedDb t.db
  unfolding HasKeys
  History-IsOrderly m t c d r =
      let i = History-keeps r (record { keys = subst HasKeys (sym c) tt; rows = d }) in
      (i.keys, i.rows)

  -- So the ids of the sessions are different, as the deletion of the completed sessions takes them to be.
  History-UniqueIds :
      (m t : Manager) (db : Database)
      → m.crawls ≡ []
      → IsOrderedDb m.db
      → History m t
      → t.db ≡ some db
      → UniqueIds db.sessions
  unfolding IsOrderedDb
  History-UniqueIds m t db c d r e =
      let rows : IsOrderedDb (some db) = subst IsOrderedDb e (History-IsOrderly m t c d r).1 in
      Ascends-UniqueIds 0 db.last_id db.sessions rows
