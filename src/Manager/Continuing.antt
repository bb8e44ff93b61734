-- ===== src/Manager/Continuing.antt =====
-- A crawl that is stopped and resumed as one: the run of internal/crawler/crawler.go up to the stop,
-- `ResumeCrawlByID` of internal/crawler/manager.go, and the run that it starts.
use google_in_a_day_crawler.Base.{
  Distinct, ℕ, ◌+◌, ◌≤◌, ◌≡◌, ◌≢◌, ◌||◌, refl, ap, true, false, List, [], ◌∷◌, arith, Text,
  contains, count, Option, some,
}
use google_in_a_day_crawler.Tokens.{Unicode}
use google_in_a_day_crawler.Worker.{CrawlTask, WorkerConfig, Net}
use google_in_a_day_crawler.Crawler.{Config, task_urls, seeds, seed_queue, seed_task}
use google_in_a_day_crawler.Crawler.Indexer.{Indexer}
use google_in_a_day_crawler.Crawler.System.{Sys, SessionRows, interrupted, finished}
use google_in_a_day_crawler.Crawler.System.Start.{initial}
use google_in_a_day_crawler.Crawler.System.Once.{IsUnlimited}
use google_in_a_day_crawler.Crawler.System.Runs.{Run}
use google_in_a_day_crawler.Crawler.System.Keeping.{IsPrompt}
use google_in_a_day_crawler.Crawler.System.Saving.{IsWritten}
use google_in_a_day_crawler.Crawler.System.Noting.{saved_queue, saved_visited}
use google_in_a_day_crawler.Crawler.System.Stopping.{StoredRun, stop_keeps_tasks}
use google_in_a_day_crawler.Crawler.System.Queued.{queue_fetched}
use google_in_a_day_crawler.Store.{
  CrawlSession, Database, find_session, select_tasks, select_visited, load_crawl_session,
  load_session_visited_urls, load_session_queued_tasks,
}
use google_in_a_day_crawler.Manager.{Manager}
use google_in_a_day_crawler.Manager.Sessions.{
  ResumeOutcomes, Resumed, resumed, resumed_config, resumed_queue, resume_crawl_by_id,
  resume_stopped, enter_resumed,
}

-- What a resumption that succeeds has read.
record Reads (id : ℕ) (db : Database) (sess : CrawlSession) (res : Resumed) : Type 0 where
  pub config : res.config ≡ resumed_config sess
  pub visited : res.state.visited ≡ select_visited id db.visited
  pub queue : res.state.queue ≡ resumed_queue sess (select_tasks id db.queue)

resume-Reads :
    (o : ResumeOutcomes) (id : ℕ) (m : Manager) (db : Database) (sess : CrawlSession)
    (res : Resumed)
    → m.db ≡ some db
    → find_session id db.sessions ≡ some sess
    → (resume_crawl_by_id o id m).1 ≡ resumed res
    → Reads id db sess res
unfolding resume_crawl_by_id resume_stopped enter_resumed load_crawl_session
    load_session_visited_urls load_session_queued_tasks
resume-Reads o id m db sess res d f e = record {
  config = ground (arith, d, f, e);
  visited = ground (arith, d, f, e);
  queue = ground (arith, d, f, e);
}

initial-Reads :
    (id : ℕ) (db : Database) (sess : CrawlSession) (res : Resumed)
    → Reads id db sess res
    → initial res.config (some res.state)
      ≡ initial (resumed_config sess) (
          some (record {
            visited = select_visited id db.visited;
            queue = resumed_queue sess (select_tasks id db.queue);
          }))
initial-Reads id db sess res r = cc (r.config, r.visited, r.queue)

one-Distinct : (s : Text) → Distinct (s ∷ [])
unfolding contains
one-Distinct s = (refl, tt)

seeds-resumed_config :
    (sess : CrawlSession)
    → sess.origin_url ≢ []
    → seeds (resumed_config sess) ≡ sess.origin_url ∷ []
unfolding seeds resumed_config
seeds-resumed_config sess h = ground (arith, h)

-- What was not fetched before the stop is in the queue of the resumed crawl.
count-initial :
    (cfg : Config) (sess : CrawlSession) (k : Text) (a : ℕ) (visited : List Text)
    (queue : List CrawlTask)
    → seeds cfg ≡ sess.origin_url ∷ []
    → 1 ≤ a + count k (task_urls queue)
    → (contains k (sess.origin_url ∷ []) || contains k visited) ≡ true
    → 1
      ≤ a
        + count k (
            task_urls
              (initial cfg
                (some (record { visited = visited; queue = resumed_queue sess queue }))).queue)
unfolding initial resumed_queue contains count seed_queue seed_task
count-initial cfg sess k a [] queue e h c = rw e (ground arith)
count-initial cfg sess k a (url ∷ urls) [] e h c = ground arith
count-initial cfg sess k a (url ∷ urls) (t ∷ ts) e h c = h

module _ (u : Unicode) (net : Net) (wcfg : WorkerConfig) (cfg : Config)
    (queue_size num_workers queued : ℕ) (rows : SessionRows) (indexer : Indexer) (id : ℕ)
    (db : Database) (sess : CrawlSession) where
  -- What the database must hold of the stopped crawl: its row, its queue and its visited set.
  pub record Holds (t : Sys) : Type 0 where
    pub row : find_session id db.sessions ≡ some sess
    pub seed : seeds cfg ≡ sess.origin_url ∷ []
    pub named : sess.origin_url ≢ []
    pub limit : sess.max_urls ≡ cfg.max_urls
    pub tasks : select_tasks id db.queue ≡ saved_queue t
    pub urls : select_visited id db.visited ≡ saved_visited t

  resumed-IsUnlimited : (t : Sys) → Holds t → IsUnlimited cfg → IsUnlimited (resumed_config sess)
  unfolding resumed_config
  resumed-IsUnlimited t h free n = rw h.limit (free n)

  -- Every URL that was marked before the stop was taken up by a worker, before the stop or behind it.
  pub stop_and_resume :
      (o : ResumeOutcomes) (m : Manager) (res : Resumed) (t : Sys) (k : Text) (wcfg' : WorkerConfig)
      (queue_size' num_workers' queued' : ℕ) (rows' : Option SessionRows) (indexer' : Indexer)
      (t' : Sys)
      → IsUnlimited cfg
      → (r : StoredRun u net wcfg cfg queue_size num_workers queued rows indexer t)
      → IsPrompt u net wcfg cfg queue_size num_workers r
      → IsWritten u net wcfg cfg queue_size num_workers r
      → t.at ≡ interrupted
      → Holds t
      → m.db ≡ some db
      → (resume_crawl_by_id o id m).1 ≡ resumed res
      → Run u net wcfg' res.config queue_size' num_workers' queued'
          (initial res.config (some res.state))
          rows'
          indexer'
          t'
      → t'.at ≡ finished
      → t'.cancelled ≡ false
      → contains k t.visited ≡ true
      → 1 ≤ count k (task_urls t.fetched) + count k (task_urls t'.fetched)
  stop_and_resume o m res t k wcfg' queue_size' num_workers' queued' rows' indexer' t' free r p w e
        h d s r' e' c' v =
      let reads = resume-Reads o id m db sess res d h.row s in
      let lost =
        stop_keeps_tasks u net wcfg cfg queue_size num_workers queued rows indexer t k
          (rw h.seed (one-Distinct sess.origin_url)) free r p w e v in
      let fetched =
        queue_fetched u net wcfg' res.config queue_size' num_workers' queued'
          (initial res.config (some res.state)) rows' indexer' t' k
          (rw reads.config (resumed-IsUnlimited t h free)) r' e' c' in
      let started =
        count-initial (resumed_config sess) sess k (count k (task_urls t.fetched))
          (select_visited id db.visited) (select_tasks id db.queue)
          (seeds-resumed_config sess h.named) (rw h.tasks lost.0) (rw (h.urls, ← h.seed) lost.1) in
      omega (
        arith,
        fetched,
        started,
        ap (λ i. count k (task_urls i.queue)) (initial-Reads id db sess res reads),
      )
