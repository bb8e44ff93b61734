-- ===== src/Manager/Stored/Examples.antt =====
-- A crawl that is stopped before its seed is fetched and then resumed to its end, and a witness.
use google_in_a_day_crawler.Base.{
  ◌≡◌, ◌≢◌, ◌≤◌, ◌+◌, refl, true, false, [], ◌∷◌, none, some, pos, codes, count, contains, arith,
  length,
}
use google_in_a_day_crawler.Tokens.Ascii.{ascii}
use google_in_a_day_crawler.Index.{new_index}
use google_in_a_day_crawler.Crawler.{
  task_urls, limit_met, seeds, seed_queue, seed_task, mark_all, mark,
}
use google_in_a_day_crawler.Crawler.System.Start.{initial, started, stop_reason, reason_text}
use google_in_a_day_crawler.Crawler.System.Sample.{
  no_net, plain_workers, one_seed, empty_indexer, seed, last, whole-Run, stopped_at,
  stopped-StoredRun, stopped-IsPrompt, stopped-IsWritten,
}
use google_in_a_day_crawler.Store.{
  CrawlSession, Database, save_session_queued_tasks, insert_tasks, delete_tasks, find_session,
  select_tasks, select_visited, load_crawl_session, load_session_visited_urls,
  load_session_queued_tasks,
}
use google_in_a_day_crawler.Manager.{Manager, ActiveCrawl, find_crawl}
use google_in_a_day_crawler.Manager.Sessions.{
  FinishOutcomes, end_crawl, resumed, ResumeOutcomes, resumed_config, resumed_queue,
  resume_crawl_by_id, resume_stopped, enter_resumed,
}
use google_in_a_day_crawler.Store.Views.{view}
use google_in_a_day_crawler.Store.Crawling.{
  store_run, store_step, save_store, flush_store, queue_store,
}
use google_in_a_day_crawler.Crawler.System.Aborting.{completed, aborted}
use google_in_a_day_crawler.Crawler.System.Runs.{Run}
use google_in_a_day_crawler.Manager.Stored.{CrawlOf, Left, resumed_from, stop_end_resume}

abbrev stopped_session : CrawlSession
stopped_session = record {
  id = 1;
  origin_url = codes "http://a.b";
  max_depth = pos 2;
  max_urls = pos 0;
  num_workers = pos 1;
  queue_size = pos 1;
  same_domain = false;
  status = codes "stopped";
  visited_count = 0;
  queued_count = 1;
  indexed_count = 0;
  error_count = 0;
  stop_reason = codes "stopped";
  saved_queue_count = 1;
}

abbrev stopped_db : Database
stopped_db = record {
  last_id = 1;
  sessions = stopped_session ∷ [];
  queue = record { session_id = 1; task = seed } ∷ [];
  visited = [];
  crawl_state = none;
  visited_urls = [];
  postings = [];
}

abbrev stopped_manager : Manager
stopped_manager = record {
  index = new_index;
  crawls = [];
  next_id = 0;
  db = some stopped_db;
  pdata = none;
}

abbrev all_resume : ResumeOutcomes
all_resume = record {
  session_read = true;
  visited_read = true;
  tasks_read = true;
  status_written = true;
  count_written = true;
}

-- Before the crawl the session has no tasks and no visited URLs.
abbrev base_db : Database
base_db = record stopped_db { queue = [] }

abbrev its_run :
    CrawlOf ascii no_net plain_workers one_seed 1 1 0 empty_indexer 1 base_db stopped_db
      stopped_session stopped_at
unfolding view select_tasks select_visited
its_run = stopped-StoredRun

stopped-Left :
    Left ascii no_net plain_workers one_seed 1 1 0 empty_indexer 1 base_db stopped_db
      stopped_session {t = stopped_at} its_run
unfolding find_session seeds stopped_at stopped-StoredRun its_run store_run store_step save_store
    flush_store queue_store save_session_queued_tasks insert_tasks delete_tasks started view
    select_tasks select_visited
stopped-Left = record {
  row = refl;
  seed = refl;
  named = ground arith;
  limit = refl;
  queue = refl;
  visited = refl;
}

abbrev ending_crawl : ActiveCrawl
ending_crawl = record {
  session_id = 1;
  metrics = record {
    counters = record { visited = 0; queued = 1; indexed = 0; errors = 0 };
    stop_reason = codes "stopped";
  };
  cancelled = true;
  seed_url = codes "http://a.b";
}

abbrev all_finished : FinishOutcomes
all_finished = record { finished = true; counted = true; noted = true }

abbrev ending_manager : Manager
ending_manager = record stopped_manager { crawls = ending_crawl ∷ [] }

abbrev resumed_run :
    Run ascii no_net plain_workers
      (resumed_config stopped_session)
      1
      1
      0
      (initial
        (resumed_config stopped_session)
        (some (resumed_from 1 stopped_db stopped_session).state))
      none
      empty_indexer
      last
unfolding limit_met stopped_at last started initial seeds seed_queue seed_task mark_all mark
    contains resume_crawl_by_id resume_stopped enter_resumed load_crawl_session
    load_session_visited_urls load_session_queued_tasks select_tasks select_visited find_session
    resumed_config resumed_queue view google_in_a_day_crawler.Base.Text_discrete find_crawl
    stop_reason reason_text
resumed_run = whole-Run

stop_end_resume_example :
    ((resume_crawl_by_id all_resume 1 (end_crawl all_finished 1 ending_manager)).1
      ≡ resumed (resumed_from 1 stopped_db stopped_session))
    × (1
        ≤ count
            (codes "http://a.b")
            (task_urls (completed ascii no_net plain_workers one_seed 1 1 its_run))
          + count
              (codes "http://a.b")
              (task_urls (aborted ascii no_net plain_workers one_seed 1 1 its_run))
          + count (codes "http://a.b") (
              task_urls (
                completed ascii no_net plain_workers
                  (resumed_config stopped_session)
                  1
                  1
                  resumed_run)))
    × (length (aborted ascii no_net plain_workers one_seed 1 1 its_run) ≤ 1)
unfolding limit_met stopped_at last started initial seeds seed_queue seed_task mark_all mark
    contains resume_crawl_by_id resume_stopped enter_resumed load_crawl_session
    load_session_visited_urls load_session_queued_tasks select_tasks select_visited find_session
    resumed_config resumed_queue view its_run stopped-StoredRun
    google_in_a_day_crawler.Base.Text_discrete find_crawl stop_reason reason_text
stop_end_resume_example =
    stop_end_resume ascii no_net plain_workers one_seed 1 1 0 empty_indexer 0 base_db stopped_db
      stopped_session all_finished all_resume ending_manager ending_crawl stopped_at
      (codes "http://a.b") plain_workers 1 1 0 none empty_indexer last (λ n. refl) its_run
      stopped-IsPrompt stopped-IsWritten refl stopped-Left refl refl refl refl refl refl refl
      resumed_run refl refl refl
