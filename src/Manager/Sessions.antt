-- ===== src/Manager/Sessions.antt =====
-- The rest of internal/crawler/manager.go: the end of a session, its resumption, the cancellations
-- and the readers.
use google_in_a_day_crawler.Base.{
  map, ℕ, zero, suc, Bool, true, false, ite, List, [], ◌∷◌, Option, none, some, pos, Text,
  Text_discrete, codes, length, ◌==◌, ltb, if◌then◌else◌,
}
use google_in_a_day_crawler.Worker.{CrawlTask}
use google_in_a_day_crawler.Crawler.{Config}
use google_in_a_day_crawler.Crawler.System.Start.{ResumeState}
use google_in_a_day_crawler.Store.{
  CrawlSession, Database, finish_crawl_session, update_session_status,
  update_session_saved_queue_count, load_crawl_session, load_session_queued_tasks,
  load_session_visited_urls, count_session_queue_tasks,
}
use google_in_a_day_crawler.Manager.{
  Metrics, ActiveCrawl, Manager, new_metrics, delete_crawl, put_crawl, find_crawl,
}

-- The status of a session for the reason of its end.
unfoldable pub status_for : Text → Text
status_for reason =
    ite (Text_discrete reason (codes "stopped")) (codes "stopped")
      (ite (Text_discrete reason (codes "failed")) (codes "failed") (codes "completed"))

-- The outcomes of the writes and reads of `finishSession`.
pub record FinishOutcomes : Type 0 where
  pub finished : Bool
  pub counted : Bool
  pub noted : Bool

-- For a stopped session: how many tasks were saved for its resumption.
unfoldable pub note_saved_queue : FinishOutcomes → ℕ → Database → Database
note_saved_queue o id db = elim (count_session_queue_tasks o.counted id db) [
  | none ↦ db
  | some n ↦ if ltb 0 n then update_session_saved_queue_count o.noted id n db else db
]

unfoldable pub finish_row : FinishOutcomes → ℕ → Metrics → Database → Database
unfolding status_for note_saved_queue
finish_row o id metrics db =
    let status = status_for metrics.stop_reason in
    let after = finish_crawl_session o.finished id status metrics.stop_reason metrics.counters db in
    ite (Text_discrete status (codes "stopped")) (note_saved_queue o id after) after

-- `finishSession`.
unfoldable pub finish_session : FinishOutcomes → ℕ → Manager → Manager
unfolding finish_row
finish_session o zero m = m
finish_session o (suc n) m = elim (find_crawl (suc n) m.crawls) [
  | none ↦ m
  | some ac ↦ elim m.db [
    | none ↦ m
    | some db ↦ record m { db = some (finish_row o (suc n) ac.metrics db) }
  ]
]

-- What the crawl's goroutine does at its end.
unfoldable pub end_crawl : FinishOutcomes → ℕ → Manager → Manager
unfolding finish_session
end_crawl o id m =
    let after = finish_session o id m in record after { crawls = delete_crawl id after.crawls }

unfoldable pub remove_active_crawl : ℕ → Manager → Manager
remove_active_crawl id m = record m { crawls = delete_crawl id m.crawls }

-- `cancelFn()` of the crawl with an id.
unfoldable pub cancel_in : ℕ → List ActiveCrawl → List ActiveCrawl
cancel_in id [] = []
cancel_in id (ac ∷ acs) =
    (if ac.session_id == id then record ac { cancelled = true } else ac) ∷ cancel_in id acs

-- `StopCrawlByID`.
unfoldable pub stop_crawl_by_id : ℕ → Manager → Manager × Bool
unfolding cancel_in
stop_crawl_by_id id m = elim (find_crawl id m.crawls) [
  | none ↦ (m, false)
  | some ac ↦ (record m { crawls = cancel_in id m.crawls }, true)
]

unfoldable pub cancel_all : List ActiveCrawl → List ActiveCrawl
cancel_all [] = []
cancel_all (ac ∷ acs) = record ac { cancelled = true } ∷ cancel_all acs

-- `StopCrawl`.
unfoldable pub stop_crawl : Manager → Manager
unfolding cancel_all
stop_crawl m = record m { crawls = cancel_all m.crawls }

-- Why `ResumeCrawlByID` or `ResumeCrawl` fails.
pub data ResumeError : Type 0 where
  no_database not_loaded not_stopped no_visited no_tasks nothing_queued : ResumeError

-- The outcomes of the reads and writes of `ResumeCrawlByID`.
pub record ResumeOutcomes : Type 0 where
  pub session_read : Bool
  pub visited_read : Bool
  pub tasks_read : Bool
  pub status_written : Bool
  pub count_written : Bool

-- An empty queue is replaced by the seed.
unfoldable pub resumed_queue : CrawlSession → List CrawlTask → List CrawlTask
resumed_queue sess [] = record { url = sess.origin_url; origin_url = []; depth = pos 0 } ∷ []
resumed_queue sess (t ∷ ts) = t ∷ ts

unfoldable pub resumed_config : CrawlSession → Config
resumed_config sess = record {
  seed_url = sess.origin_url;
  seed_urls = [];
  max_depth = sess.max_depth;
  max_urls = sess.max_urls;
  num_workers = sess.num_workers;
  queue_size = sess.queue_size;
  max_body_size = pos 1_048_576;
  same_domain = sess.same_domain;
}

-- The counters go on from those of the stopped session.
pub resumed_metrics : CrawlSession → Metrics
resumed_metrics sess = record {
  counters = record {
    visited = sess.visited_count;
    queued = sess.queued_count;
    indexed = sess.indexed_count;
    errors = sess.error_count;
  };
  stop_reason = [];
}

-- What a resumption starts: the crawler's configuration and the state that it is given.
pub record Resumed : Type 0 where
  pub config : Config
  pub state : ResumeState

pub data ResumeResult : Type 0 where
  failed : ResumeError → ResumeResult
  resumed : Resumed → ResumeResult

-- The part behind the checks, with what the database gave.
unfoldable pub enter_resumed :
    ResumeOutcomes
    → ℕ
    → CrawlSession
    → List Text
    → List CrawlTask
    → Database
    → Manager
    → Manager × ResumeResult
unfolding resumed_queue resumed_config resumed_metrics
enter_resumed o id sess visited tasks db m =
    let ac : ActiveCrawl = record {
      session_id = id;
      metrics = resumed_metrics sess;
      cancelled = false;
      seed_url = sess.origin_url;
    } in
    (
      record m {
        crawls = put_crawl ac m.crawls;
        db = some (
            update_session_saved_queue_count o.count_written id 0
              (update_session_status o.status_written id (codes "running") db));
      },
      ResumeResult.resumed (record {
        config = resumed_config sess;
        state = record { visited = visited; queue = resumed_queue sess tasks };
      }),
    )

-- The reads behind the check of the status; the entry of the id is removed before them.
unfoldable pub resume_stopped :
    ResumeOutcomes → ℕ → CrawlSession → Database → Manager → Manager × ResumeResult
unfolding enter_resumed
resume_stopped o id sess db m =
    let left = record m { crawls = delete_crawl id m.crawls } in
    elim (load_session_visited_urls o.visited_read id db) [
      | none ↦ (left, failed no_visited)
      | some visited ↦ elim (load_session_queued_tasks o.tasks_read id db) [
        | none ↦ (left, failed no_tasks)
        | some tasks ↦ enter_resumed o id sess visited tasks db left
      ]
    ]

-- `ResumeCrawlByID`.
unfoldable pub resume_crawl_by_id : ResumeOutcomes → ℕ → Manager → Manager × ResumeResult
unfolding resume_stopped
resume_crawl_by_id o id m = elim m.db [
  | none ↦ (m, failed no_database)
  | some db ↦ elim (load_crawl_session o.session_read id db) [
    | none ↦ (m, failed not_loaded)
    | some sess ↦
        ite (Text_discrete sess.status (codes "stopped")) (resume_stopped o id sess db m)
          (m, failed not_stopped)
  ]
]

-- The entry with the greatest id, as `GetMetrics` and `Done` look for it.
unfoldable pub latest_from : Option ActiveCrawl → List ActiveCrawl → Option ActiveCrawl
latest_from latest [] = latest
latest_from none (ac ∷ acs) = latest_from (some ac) acs
latest_from (some l) (ac ∷ acs) =
    latest_from (some (if ltb l.session_id ac.session_id then ac else l)) acs

pub get_metrics : Manager → Metrics
unfolding latest_from new_metrics
get_metrics m = elim (latest_from none m.crawls) [ none ↦ new_metrics | some ac ↦ ac.metrics ]

unfoldable pub max_id_from : ℕ → List ActiveCrawl → ℕ
max_id_from n [] = n
max_id_from n (ac ∷ acs) = max_id_from (if ltb n ac.session_id then ac.session_id else n) acs

unfoldable pub active_session_id : Manager → ℕ
unfolding max_id_from
active_session_id m = max_id_from 0 m.crawls

unfoldable pub active_session_ids : Manager → List ℕ
active_session_ids m = map (λ ac. ac.session_id) m.crawls

pub is_running : Manager → Bool
is_running m = ltb 0 (length m.crawls)

pub running_count : Manager → ℕ
running_count m = length m.crawls
