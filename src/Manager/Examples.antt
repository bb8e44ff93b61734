-- ===== src/Manager/Examples.antt =====
-- The manager on a concrete session, and witnesses.
use google_in_a_day_crawler.Base.{
  suc, utf8_len, Text_discrete, ◌≡◌, ◌≢◌, refl, true, false, [], ◌∷◌, ◌++◌, none, some, pos, Text,
  codes, length, ◌==◌, if◌then◌else◌, arith,
}
use google_in_a_day_crawler.Index.{new_index, lookup, add_keys}
use google_in_a_day_crawler.PData.{
  PostingRow, load_postings, load_lines, lines_from, parse_line, drop_cr, split_n, cut,
  row_of_parts, row_of, read_origin, add_row,
}
use google_in_a_day_crawler.PData.Decimal.{atoi}
use google_in_a_day_crawler.Crawler.{Config}
use google_in_a_day_crawler.Store.{
  CrawlSession, Database, find_session, select_tasks, select_visited,
}
use google_in_a_day_crawler.Manager.{
  new_session, ActiveCrawl, Manager, find_crawl, new_metrics, zero_counters, start_crawl,
  restore_index, row_urls,
}
use google_in_a_day_crawler.Manager.Sessions.{
  FinishOutcomes, ResumeOutcomes, resumed, failed, not_stopped, end_crawl, resume_crawl_by_id,
  resumed_config, resumed_queue,
}
use google_in_a_day_crawler.Manager.Restore.{restore_index-lookup, postings_for}
use google_in_a_day_crawler.Manager.Resume.{resume-end_crawl, resume-end_crawl_refused}
use google_in_a_day_crawler.Manager.Starting.{row_in, start_crawl-row}
use google_in_a_day_crawler.Store.Rows.{Ascends, IsOrderedDb}
use google_in_a_day_crawler.Manager.Running.{start_crawl-crawls}

abbrev saved_session : CrawlSession
saved_session = record {
  id = 1;
  origin_url = codes "http://a.b";
  max_depth = pos 2;
  max_urls = pos 0;
  num_workers = pos 3;
  queue_size = pos 10;
  same_domain = true;
  status = codes "running";
  visited_count = 0;
  queued_count = 0;
  indexed_count = 0;
  error_count = 0;
  stop_reason = [];
  saved_queue_count = 0;
}

abbrev saved_db : Database
saved_db = record {
  last_id = 1;
  sessions = saved_session ∷ [];
  queue =
      record {
        session_id = 1;
        task = record {
          url = codes "http://a.b/c";
          origin_url = codes "http://a.b";
          depth = pos 1;
        };
      }
      ∷ [];
  visited = record { session_id = 1; url = codes "http://a.b" } ∷ [];
  crawl_state = none;
  visited_urls = [];
  postings = [];
}

abbrev crawl_ended : Text → ActiveCrawl
crawl_ended reason = record {
  session_id = 1;
  metrics = record { counters = zero_counters; stop_reason = reason };
  cancelled = true;
  seed_url = codes "http://a.b";
}

abbrev manager_with : Text → Manager
manager_with reason = record {
  index = new_index;
  crawls = crawl_ended reason ∷ [];
  next_id = 0;
  db = some saved_db;
  pdata = none;
}

abbrev all_finish : FinishOutcomes
all_finish = record { finished = true; counted = true; noted = true }

abbrev all_resume : ResumeOutcomes
all_resume = record {
  session_read = true;
  visited_read = true;
  tasks_read = true;
  status_written = true;
  count_written = true;
}

resume-end_crawl_example :
    (resume_crawl_by_id all_resume 1 (end_crawl all_finish 1 (manager_with (codes "stopped")))).1
    ≡ resumed (record {
      config = resumed_config saved_session;
      state = record {
        visited = select_visited 1 saved_db.visited;
        queue = resumed_queue saved_session (select_tasks 1 saved_db.queue);
      };
    })
unfolding find_session find_crawl
resume-end_crawl_example =
    resume-end_crawl all_finish all_resume 0 (manager_with (codes "stopped")) saved_db
      (crawl_ended (codes "stopped")) saved_session refl refl refl refl refl refl refl refl

resume-end_crawl_refused_example :
    resume_crawl_by_id all_resume 1 (end_crawl all_finish 1 (manager_with (codes "completed")))
    ≡ (end_crawl all_finish 1 (manager_with (codes "completed")), failed not_stopped)
unfolding find_session find_crawl
resume-end_crawl_refused_example =
    resume-end_crawl_refused all_finish all_resume 0 (manager_with (codes "completed")) saved_db
      (crawl_ended (codes "completed")) saved_session refl refl refl refl refl (ground arith)

abbrev one_config : Config
one_config = record {
  seed_url = codes "http://a.b";
  seed_urls = [];
  max_depth = pos 2;
  max_urls = pos 0;
  num_workers = pos 3;
  queue_size = pos 10;
  max_body_size = pos 1000;
  same_domain = true;
}

start_crawl-crawls_example :
    let (r, id) = start_crawl true true one_config (manager_with []) in
    (id ≢ 0)
    × (find_crawl 1 r.crawls ≡ (
        if id == 1
        then some (record {
          session_id = id;
          metrics = new_metrics;
          cancelled = false;
          seed_url = codes "http://a.b";
        })
        else find_crawl 1 (manager_with []).crawls))
    × (find_crawl 1 (end_crawl all_finish id r).crawls
        ≡ (if id == 1 then none else find_crawl 1 (manager_with []).crawls))
start_crawl-crawls_example = start_crawl-crawls true true one_config all_finish 1 (manager_with [])

abbrev one_row : PostingRow
one_row = record {
  token = codes "go";
  url = codes "u";
  origin_url = [];
  depth = pos 0;
  title = [];
  term_freq = pos 1;
  in_title = false;
  in_url = false;
}

one_line : load_postings true (some (codes "go u - 0 1")) ≡ some (one_row ∷ [])
unfolding load_postings load_lines lines_from parse_line drop_cr split_n cut atoi utf8_len
    Text_discrete row_of_parts row_of read_origin add_row
one_line = refl

restore_index-lookup_example :
    let r = restore_index true none (some (some (codes "go u - 0 1"))) new_index in
    let s = restore_index true (some (some (one_row ∷ []))) none new_index in
    (r ≡ s)
    × (r.1 ≡ true)
    × (lookup r.0 (codes "go")
        ≡ lookup new_index (codes "go") ++ postings_for (codes "go") (one_row ∷ []))
    × (r.0.doc_count ≡ pos (length (add_keys (row_urls (one_row ∷ [])) [])))
restore_index-lookup_example =
    restore_index-lookup true none (some (codes "go u - 0 1")) one_row [] new_index (codes "go")
      one_line

start_crawl-row_example :
    let (r, id) = start_crawl true true one_config (manager_with []) in
    (id ≡ suc saved_db.last_id)
    × (find_session id saved_db.sessions ≡ none)
    × (row_in 2 r.db ≡ (
        if id == 2
        then some (record (new_session one_config (codes "running")) { id = id })
        else find_session 2 saved_db.sessions))
unfolding Ascends IsOrderedDb
start_crawl-row_example =
    start_crawl-row true one_config 2 (manager_with []) saved_db refl (omega arith, omega arith)
