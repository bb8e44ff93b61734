-- ===== src/Manager/Readers.antt =====
-- internal/crawler/manager.go: the resumption without a session, the updater of a session's counters,
-- and what the dashboard asks of the running crawls.
use google_in_a_day_crawler.Base.{
  ℕ, zero, suc, Bool, false, List, [], ◌∷◌, map, Option, none, some, Text, codes, if◌then◌else◌,
}
use google_in_a_day_crawler.Worker.{CrawlTask}
use google_in_a_day_crawler.Crawler.{Config}
use google_in_a_day_crawler.Store.{CrawlState, update_crawl_session_metrics}
use google_in_a_day_crawler.Store.Tables.{load_crawl_state, load_visited_urls, load_queued_tasks}
use google_in_a_day_crawler.Manager.{
  Metrics, ActiveCrawl, Manager, new_metrics, put_crawl, find_crawl, create_session, with_id,
}
use google_in_a_day_crawler.Manager.Sessions.{
  no_database, no_visited, no_tasks, nothing_queued, ResumeResult, latest_from,
}

-- `HasResumableState`: the state of a crawl that is not completed.
pub has_resumable_state : Bool → Manager → Option CrawlState
has_resumable_state read m = elim m.db [
  | none ↦ none
  | some db ↦ elim (load_crawl_state read db) [
    | none ↦ none
    | some row ↦ elim row [ none ↦ none | some r ↦ if r.completed then none else some r.state ]
  ]
]

-- The part of `ResumeCrawl` behind the reads.
unfoldable pub enter_restored :
    Bool → Config → List Text → List CrawlTask → Manager → Manager × ResumeResult
unfolding create_session with_id put_crawl
enter_restored saved cfg visited queue m =
    let created = create_session saved cfg (codes "running") m.db in
    let (id, next) = with_id created.id m.next_id in
    let ac : ActiveCrawl = record {
      session_id = id;
      metrics = new_metrics;
      cancelled = false;
      seed_url = cfg.seed_url;
    } in
    (
      record m { crawls = put_crawl ac m.crawls; next_id = next; db = created.db },
      ResumeResult.resumed
          (record { config = cfg; state = record { visited = visited; queue = queue } }),
    )

-- `ResumeCrawl`; `visited_read` and `tasks_read` tell whether the reads succeed.
unfoldable pub resume_crawl : Bool → Bool → Bool → Config → Manager → Manager × ResumeResult
unfolding enter_restored
resume_crawl visited_read tasks_read saved cfg m = elim m.db [
  | none ↦ (m, ResumeResult.failed no_database)
  | some db ↦ elim (load_visited_urls visited_read db) [
    | none ↦ (m, ResumeResult.failed no_visited)
    | some visited ↦ elim (load_queued_tasks tasks_read db) [
      | none ↦ (m, ResumeResult.failed no_tasks)
      | some tasks ↦ elim tasks [
        | [] ↦ (m, ResumeResult.failed nothing_queued)
        | t ∷ ts ↦ enter_restored saved cfg visited (t ∷ ts) m
      ]
    ]
  ]
]

-- One tick of the goroutine of `startSessionUpdater`, which runs for a session with a database and an
-- id other than 0; `metrics` are those of its crawl.
unfoldable pub update_tick : Bool → ℕ → Metrics → Manager → Manager
update_tick saved zero metrics m = m
update_tick saved (suc n) metrics m = elim m.db [
  | none ↦ m
  | some db ↦ record m {
    db = some (update_crawl_session_metrics saved (suc n) metrics.counters db);
  }
]

-- `RunningCrawlInfo`.
pub record RunningCrawlInfo : Type 0 where
  pub session_id : ℕ
  pub seed_url : Text
  pub metrics : Metrics

-- `GetRunningCrawls`, in the order of the map.
pub get_running_crawls : Manager → List RunningCrawlInfo
get_running_crawls m =
    map (λ ac. record { session_id = ac.session_id; seed_url = ac.seed_url; metrics = ac.metrics })
      m.crawls

-- `DoneByID` and `Done`: the id of the crawl whose end closes the channel, `none` for nil.
pub done_by_id : ℕ → Manager → Option ℕ
done_by_id id m = elim (find_crawl id m.crawls) [ none ↦ none | some ac ↦ some ac.session_id ]

pub done : Manager → Option ℕ
done m = elim (latest_from none m.crawls) [ none ↦ none | some ac ↦ some ac.session_id ]
