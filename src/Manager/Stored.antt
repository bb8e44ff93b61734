-- ===== src/Manager/Stored.antt =====
-- A crawl that is stopped and resumed, through the tables of internal/storage/sqlite.go: the run of
-- internal/crawler/crawler.go writes them, and `ResumeCrawlByID` of internal/crawler/manager.go reads them.
mod Examples
use google_in_a_day_crawler.Base.{
  inr, suc, codes, ℕ, ◌+◌, ◌≤◌, ◌<◌, ◌≡◌, ◌≢◌, ◌∙◌, refl, ap, sym, true, false, List, [], ◌∷◌,
  arith, Text, contains, count, length, Option, some,
}
use google_in_a_day_crawler.Tokens.{Unicode}
use google_in_a_day_crawler.Worker.{WorkerConfig, Net}
use google_in_a_day_crawler.Crawler.{Config, task_urls, seeds}
use google_in_a_day_crawler.Crawler.Indexer.{Indexer}
use google_in_a_day_crawler.Crawler.System.{Sys, SessionRows, interrupted, finished}
use google_in_a_day_crawler.Crawler.System.Start.{initial, started, stop_reason, reason_text}
use google_in_a_day_crawler.Crawler.System.Once.{IsUnlimited}
use google_in_a_day_crawler.Crawler.System.Runs.{Run, fresh, ended_quiet}
use google_in_a_day_crawler.Crawler.System.Aborting.{completed, aborted}
use google_in_a_day_crawler.Crawler.System.Fetched.{run-completed, run-none_aborted, length-aborted}
use google_in_a_day_crawler.Crawler.System.Keeping.{IsPrompt}
use google_in_a_day_crawler.Crawler.System.Saving.{IsWritten}
use google_in_a_day_crawler.Crawler.System.Ending.{Reach-EndsAtZero}
use google_in_a_day_crawler.Crawler.System.Starting.{started-EndsAtZero}
use google_in_a_day_crawler.Crawler.System.Noting.{saved_queue, saved_visited}
use google_in_a_day_crawler.Crawler.System.Stopping.{StoredRun}
use google_in_a_day_crawler.Store.{
  CrawlSession, Database, set_counters, find_session, select_tasks, select_visited,
}
use google_in_a_day_crawler.Store.Views.{view}
use google_in_a_day_crawler.Store.Crawling.{Shows, store_run, store_run-Shows}
use google_in_a_day_crawler.Manager.{Manager, ActiveCrawl, Metrics, find_crawl}
use google_in_a_day_crawler.Manager.Resume.{
  row_after, finish_row-row, finish_row-rest, end_crawl-db, resume-end_crawl,
}
use google_in_a_day_crawler.Manager.Sessions.{
  FinishOutcomes, finish_row, end_crawl, resumed_config, resumed_queue, ResumeOutcomes, Resumed,
  resumed, resume_crawl_by_id,
}
use google_in_a_day_crawler.Manager.Continuing.{Holds, stop_and_resume}

module _ (u : Unicode) (net : Net) (wcfg : WorkerConfig) (cfg : Config)
    (queue_size num_workers queued : ℕ) (indexer : Indexer) (id : ℕ) (base db : Database)
    (sess : CrawlSession) where
  abbrev pub CrawlOf : Sys → Type 0
  CrawlOf = StoredRun u net wcfg cfg queue_size num_workers queued (view id base) indexer

  -- Where the manager resumes the crawl `r`: the row of its session has the crawl's only seed and its limit,
  -- and its tables are those that the crawl left.
  pub record Left {t : Sys} (r : CrawlOf t) : Type 0 where
    pub row : find_session id db.sessions ≡ some sess
    pub seed : seeds cfg ≡ sess.origin_url ∷ []
    pub named : sess.origin_url ≢ []
    pub limit : sess.max_urls ≡ cfg.max_urls
    pub queue : db.queue ≡ (store_run u net wcfg cfg queue_size num_workers id r base).queue
    pub visited : db.visited ≡ (store_run u net wcfg cfg queue_size num_workers id r base).visited

  -- The reason that is stored at a stop.
  stopped-reason :
      (t : Sys) → CrawlOf t → t.at ≡ interrupted → reason_text (stop_reason cfg t) ≡ codes "stopped"
  unfolding started stop_reason reason_text
  stopped-reason t r e =
      let cancelled =
        (Reach-EndsAtZero u net wcfg cfg queue_size num_workers
            (started-EndsAtZero cfg queue_size num_workers queued (fresh cfg) (some (view id base))
              indexer)
            r).drained_if_cancelled
          (inr e) in
      rw (cancelled) refl

  Left-Holds :
      (t : Sys) (r : CrawlOf t)
      → 0 < id
      → Left r
      → Holds u net wcfg cfg queue_size num_workers queued (view id base) indexer id db sess t
  unfolding saved_queue saved_visited view started
  Left-Holds t r p l =
      let own = (store_run-Shows u net wcfg cfg queue_size num_workers id p 0 base r refl).own in
      record {
        row = l.row;
        seed = l.seed;
        named = l.named;
        limit = l.limit;
        tasks = ground (arith, own, l.queue);
        urls = ground (arith, own, l.visited);
      }

  -- Every URL that was marked before the stop was taken up by a worker, before the stop or behind it.
  pub stop_store_resume :
      (o : ResumeOutcomes) (m : Manager) (res : Resumed) (t : Sys) (k : Text) (wcfg' : WorkerConfig)
      (queue_size' num_workers' queued' : ℕ) (rows' : Option SessionRows) (indexer' : Indexer)
      (t' : Sys)
      → 0 < id
      → IsUnlimited cfg
      → (r : CrawlOf t) → IsPrompt u net wcfg cfg queue_size num_workers r
      → IsWritten u net wcfg cfg queue_size num_workers r
      → t.at ≡ interrupted
      → Left r
      → m.db ≡ some db
      → (resume_crawl_by_id o id m).1 ≡ resumed res
      → Run u net wcfg' res.config queue_size' num_workers' queued'
          (initial res.config (some res.state))
          rows'
          indexer'
          t'
      → t'.at ≡ finished
      → t'.cancelled ≡ false
      → contains k t.visited ≡ true
      → 1 ≤ count k (task_urls t.fetched) + count k (task_urls t'.fetched)
  stop_store_resume o m res t k wcfg' queue_size' num_workers' queued' rows' indexer' t' pos_id free
        r p w e l d s r' e' c' v =
      stop_and_resume u net wcfg cfg queue_size num_workers queued (view id base) indexer id db sess
        o m res t k wcfg' queue_size' num_workers' queued' rows' indexer' t' free r p w e
        (Left-Holds t r pos_id l) d s r' e' c' v

-- What a resumption of the session starts.
abbrev pub resumed_from : ℕ → Database → CrawlSession → Resumed
resumed_from id db sess = record {
  config = resumed_config sess;
  state = record {
    visited = select_visited id db.visited;
    queue = resumed_queue sess (select_tasks id db.queue);
  };
}

module _ (u : Unicode) (net : Net) (wcfg : WorkerConfig) (cfg : Config)
    (queue_size num_workers queued : ℕ) (indexer : Indexer) (n : ℕ) (base db : Database)
    (sess : CrawlSession) where
  -- What is left behind the end of the crawl's goroutine.
  finish_row-Left :
      (o : FinishOutcomes) (metrics : Metrics) {t : Sys}
      (r : CrawlOf u net wcfg cfg queue_size num_workers queued indexer (suc n) base db sess t)
      → o.finished ≡ true
      → Left u net wcfg cfg queue_size num_workers queued indexer (suc n) base db sess {t = t} r
      → (saved : ℕ) × Left u net wcfg cfg queue_size num_workers queued indexer
          (suc n)
          base
          (finish_row o (suc n) metrics db)
          (record (row_after metrics sess) { saved_queue_count = saved })
          {t = t}
          r
  unfolding row_after set_counters
  finish_row-Left o metrics r w l =
      let row = finish_row-row o (suc n) metrics db sess w l.row in
      let rest = finish_row-rest o (suc n) metrics db in
      (
        row.0,
        record {
          row = row.1;
          seed = l.seed;
          named = l.named;
          limit = l.limit;
          queue = rest.0 ∙ l.queue;
          visited = rest.1 ∙ l.visited;
        },
      )

  -- A crawl of one seed without a limit, with a session in the database, is stopped, and its goroutine
  -- ends. When the database can be read, ResumeCrawlByID resumes it with the configuration of its row and
  -- with the visited URLs and the queue that it left; and if the resumed crawl comes to an end without a
  -- cancellation, every URL that was marked before the stop was fetched to the end of its fetch, before the
  -- context was cancelled or in the resumed crawl, or its fetch was on its way when the context was
  -- cancelled and was aborted; no more fetches were aborted than the stopped crawl had workers. This holds if
  -- the crawl's statements and the record of its end succeed, and if the coordinator, once the context is
  -- cancelled, notices that before it takes another batch.
  pub stop_end_resume :
      (o : FinishOutcomes) (a : ResumeOutcomes) (m : Manager) (ac : ActiveCrawl) (t : Sys)
      (k : Text) (wcfg' : WorkerConfig) (queue_size' num_workers' queued' : ℕ)
      (rows' : Option SessionRows) (indexer' : Indexer) (t' : Sys)
      → IsUnlimited cfg
      → (r : CrawlOf u net wcfg cfg queue_size num_workers queued indexer (suc n) base db sess t)
      → IsPrompt u net wcfg cfg queue_size num_workers r
      → IsWritten u net wcfg cfg queue_size num_workers r
      → t.at ≡ interrupted
      → Left u net wcfg cfg queue_size num_workers queued indexer (suc n) base db sess {t = t} r
      → m.db ≡ some db
      → find_crawl (suc n) m.crawls ≡ some ac
      → ac.metrics.stop_reason ≡ reason_text (stop_reason cfg t)
      → o.finished ≡ true
      → a.session_read ≡ true
      → a.visited_read ≡ true
      → a.tasks_read ≡ true
      → (r' : Run u net wcfg'
          (resumed_config sess)
          queue_size'
          num_workers'
          queued'
          (initial (resumed_config sess) (some (resumed_from (suc n) db sess).state))
          rows'
          indexer'
          t')
      → t'.at ≡ finished
      → t'.cancelled ≡ false
      → contains k t.visited ≡ true
      → ((resume_crawl_by_id a (suc n) (end_crawl o (suc n) m)).1
          ≡ resumed (resumed_from (suc n) db sess))
        × (1
            ≤ count k (task_urls (completed u net wcfg cfg queue_size num_workers r))
              + count k (task_urls (aborted u net wcfg cfg queue_size num_workers r))
              + count k (
                  task_urls
                    (completed u net wcfg' (resumed_config sess) queue_size' num_workers' r')))
        × (length (aborted u net wcfg cfg queue_size num_workers r) ≤ num_workers)
  stop_end_resume o a m ac t k wcfg' queue_size' num_workers' queued' rows' indexer' t' free r p w e
        l d c x f b1 b2 b3 r' e' c' v =
      let why =
        x
        ∙ stopped-reason u net wcfg cfg queue_size num_workers queued indexer (suc n) base db sess t
            r e in
      let again = resume-end_crawl o a n m db ac sess f b1 b2 b3 d c l.row why in
      let left = finish_row-Left o ac.metrics r f l in
      let fetched_twice =
        stop_store_resume u net wcfg cfg queue_size num_workers queued indexer (suc n) base
          (finish_row o (suc n) ac.metrics db)
          (record (row_after ac.metrics sess) { saved_queue_count = left.0 }) a
          (end_crawl o (suc n) m) (resumed_from (suc n) db sess) t k wcfg' queue_size' num_workers'
          queued' rows' indexer' t' (omega arith) free r p w e left.1 (end_crawl-db o n m db ac d c)
          again r' e' c' v in
      let own_rows = some (view (suc n) base) in
      let quiet =
        ended_quiet u net wcfg cfg queue_size num_workers queued (fresh cfg) own_rows indexer t r
          (ground (arith, e)) in
      let init = initial (resumed_config sess) (some (resumed_from (suc n) db sess).state) in
      let quiet' =
        ended_quiet u net wcfg' (resumed_config sess) queue_size' num_workers' queued' init rows'
          indexer' t' r' (ground (arith, e')) in
      (
        again,
        omega (
          arith,
          fetched_twice,
          run-completed u net wcfg cfg queue_size num_workers queued (fresh cfg) own_rows indexer k
              r quiet.2,
          run-completed u net wcfg' (resumed_config sess) queue_size' num_workers' queued' init
              rows' indexer' k r' quiet'.2,
          run-none_aborted u net wcfg' (resumed_config sess) queue_size' num_workers' queued' init
              rows' indexer' k r' c',
        ),
        length-aborted u net wcfg cfg queue_size num_workers queued (fresh cfg) own_rows indexer r,
      )
