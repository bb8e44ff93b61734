-- ===== src/Store/Examples.antt =====
-- The tables of the store on concrete rows, and witnesses.
use google_in_a_day_crawler.Base.{arith, none, refl, true, [], ◌∷◌, pos, codes}
use google_in_a_day_crawler.Worker.{CrawlTask}
use google_in_a_day_crawler.Store.{Database, CrawlSession, select_tasks, select_visited}
use google_in_a_day_crawler.Store.Tables.{DeleteOutcomes}
use google_in_a_day_crawler.Store.Crawling.{Shows, store_run, store_run-Shows}
use google_in_a_day_crawler.Store.Views.{view}
use google_in_a_day_crawler.Crawler.System.Start.{started}
use google_in_a_day_crawler.Tokens.Ascii.{ascii}
use google_in_a_day_crawler.Crawler.System.Sample.{
  no_net, plain_workers, one_seed, stopped_at, stopped-StoredRun,
}

abbrev saved_task : CrawlTask
saved_task = record { url = codes "http://a.b/c"; origin_url = codes "http://a.b"; depth = pos 1 }

abbrev two_sessions : Database
two_sessions = record {
  last_id = 2;
  sessions = [];
  queue =
      record { session_id = 1; task = saved_task }
      ∷ record { session_id = 2; task = saved_task }
      ∷ [];
  visited = record { session_id = 1; url = codes "http://a.b" } ∷ [];
  crawl_state = none;
  visited_urls = [];
  postings = [];
}

-- No rows at the session 3, where the stopped crawl begins.
store_run-Shows_example :
    Shows 3 2 two_sessions stopped_at
      (store_run ascii no_net plain_workers one_seed 1 1 3 stopped-StoredRun two_sessions)
unfolding started view select_tasks select_visited
store_run-Shows_example =
    store_run-Shows ascii no_net plain_workers one_seed 1 1 3 (omega arith) 2 two_sessions
      stopped-StoredRun refl

abbrev ended_session : CrawlSession
ended_session = record {
  id = 2;
  origin_url = codes "http://a.b";
  max_depth = pos 2;
  max_urls = pos 0;
  num_workers = pos 3;
  queue_size = pos 10;
  same_domain = true;
  status = codes "stopped";
  visited_count = 0;
  queued_count = 0;
  indexed_count = 0;
  error_count = 0;
  stop_reason = [];
  saved_queue_count = 0;
}

-- Session 1 runs, session 2 is over.
abbrev one_over : Database
one_over = record two_sessions {
  sessions = ended_session ∷ record ended_session { id = 1; status = codes "running" } ∷ [];
}

abbrev all_deleted : DeleteOutcomes
all_deleted = record { queue_cleared = true; visited_cleared = true; sessions_deleted = true }
