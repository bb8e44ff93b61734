-- ===== src/Dashboard/Stopping/Examples.antt =====
-- A crawl that is stopped from the page and does not end in time, and a witness.
use google_in_a_day_crawler.Base.{◌≡◌, refl, true, false, [], ◌∷◌, none, some, pos, codes}
use google_in_a_day_crawler.Index.{new_index}
use google_in_a_day_crawler.PData.Decimal.{atoi}
use google_in_a_day_crawler.Store.{
  CrawlSession, Database, find_session, select_tasks, select_visited,
}
use google_in_a_day_crawler.Manager.{Manager, find_crawl, zero_counters}
use google_in_a_day_crawler.Manager.Sessions.{
  ResumeOutcomes, resumed, resumed_config, resumed_queue, stop_crawl_by_id,
}
use google_in_a_day_crawler.Dashboard.{Form, stop_by, resume_by}
use google_in_a_day_crawler.Dashboard.Page.{end_all, act_stop_crawl}
use google_in_a_day_crawler.Dashboard.Stopping.{act_stop_crawl-resumes}

abbrev running_session : CrawlSession
running_session = record {
  id = 1;
  origin_url = codes "http://a.b";
  max_depth = pos 2;
  max_urls = pos 0;
  num_workers = pos 3;
  queue_size = pos 10;
  same_domain = true;
  status = codes "running";
  visited_count = 0;
  queued_count = 0;
  indexed_count = 0;
  error_count = 0;
  stop_reason = [];
  saved_queue_count = 0;
}

abbrev running_db : Database
running_db = record {
  last_id = 1;
  sessions = running_session ∷ [];
  queue = [];
  visited = record { session_id = 1; url = codes "http://a.b/c" } ∷ [];
  crawl_state = none;
  visited_urls = [];
  postings = [];
}

abbrev running_manager : Manager
running_manager = record {
  index = new_index;
  crawls =
      record {
        session_id = 1;
        metrics = record { counters = zero_counters; stop_reason = [] };
        cancelled = false;
        seed_url = codes "http://a.b";
      }
      ∷ [];
  next_id = 0;
  db = some running_db;
  pdata = none;
}

abbrev id_form : Form
id_form name = codes "1"

abbrev all_resume : ResumeOutcomes
all_resume = record {
  session_read = true;
  visited_read = true;
  tasks_read = true;
  status_written = true;
  count_written = true;
}

act_stop_crawl-resumes_example :
    (resume_by all_resume (pos 1) (act_stop_crawl true [] id_form running_manager)).1
    ≡ resumed (record {
      config = resumed_config running_session;
      state = record {
        visited = select_visited 1 running_db.visited;
        queue = resumed_queue running_session (select_tasks 1 running_db.queue);
      };
    })
unfolding atoi end_all stop_by stop_crawl_by_id find_crawl find_session
act_stop_crawl-resumes_example =
    act_stop_crawl-resumes [] id_form all_resume running_manager 1 running_db running_session refl
      refl refl refl refl refl
