-- ===== src/Manager.antt =====
-- The manager, internal/crawler/manager.go. Its mutex makes each method one step on its state. A
-- running crawl is a session id with its metrics, its seed and whether its context was cancelled;
-- the goroutine that runs the crawl is `Crawler.System`, and the outcomes of reads and writes of the
-- database are arguments, `true` for a success.
pub mod Restore
pub mod Restart
pub mod Resume
pub mod Sessions
pub mod Running
pub mod Readers
pub mod Continuing
pub mod Stored
pub mod Starting
pub mod Orderly
pub mod Keeping
mod Examples
use google_in_a_day_crawler.Base.{
  ℕ, zero, suc, ◌+◌, ◌≡◌, Bool, true, false, ite, List, [], ◌∷◌, ◌++◌, Option, none, some, ℤ, pos,
  Text, Text_discrete, codes, length, contains, ◌==◌, ltb, leb, if◌then◌else◌,
}
use google_in_a_day_crawler.Index.{Index, Posting, add_posting, add_keys, set_doc_count}
use google_in_a_day_crawler.PData.{File, PostingRow, load_postings, clear_pdata}
use google_in_a_day_crawler.Worker.{CrawlTask}
use google_in_a_day_crawler.Crawler.{Config}
use google_in_a_day_crawler.Crawler.System.Start.{ResumeState}
use google_in_a_day_crawler.Store.{
  CrawlSession, Counters, Database, create_crawl_session, finish_crawl_session,
  update_session_status, update_session_saved_queue_count, load_crawl_session,
  load_session_queued_tasks, load_session_visited_urls, count_session_queue_tasks,
}

-- The counters of `Metrics` that the manager reads or sets, and the reason of the end.
pub record Metrics : Type 0 where
  pub counters : Counters
  pub stop_reason : Text

pub record ActiveCrawl : Type 0 where
  pub session_id : ℕ
  pub metrics : Metrics
  pub cancelled : Bool
  pub seed_url : Text

-- The map `crawls` is the list of its entries; an entry's key is its session id.
pub record Manager : Type 0 where
  pub index : Index
  pub crawls : List ActiveCrawl
  pub next_id : ℕ
  pub db : Option Database
  pub pdata : Option File

unfoldable pub zero_counters : Counters
zero_counters = record { visited = 0; queued = 0; indexed = 0; errors = 0 }

unfoldable pub new_metrics : Metrics
unfolding zero_counters
new_metrics = record { counters = zero_counters; stop_reason = [] }

-- `delete(m.crawls, id)`
pub delete_crawl : ℕ → List ActiveCrawl → List ActiveCrawl
delete_crawl id [] = []
delete_crawl id (ac ∷ acs) =
    let rest = delete_crawl id acs in if ac.session_id == id then rest else ac ∷ rest

-- `m.crawls[id] = ac`, which replaces an entry with that key.
pub put_crawl : ActiveCrawl → List ActiveCrawl → List ActiveCrawl
unfolding delete_crawl
put_crawl ac acs = ac ∷ delete_crawl ac.session_id acs

unfoldable pub find_crawl : ℕ → List ActiveCrawl → Option ActiveCrawl
find_crawl id [] = none
find_crawl id (ac ∷ acs) =
    let found = find_crawl id acs in if ac.session_id == id then some ac else found

-- `index.Posting{...}` from a row.
pub posting_of_row : PostingRow → Posting
posting_of_row p = record {
  url = p.url;
  origin_url = p.origin_url;
  depth = p.depth;
  title = p.title;
  term_freq = p.term_freq;
  in_title = p.in_title;
  in_url = p.in_url;
}

pub add_row_postings : List PostingRow → Index → Index
unfolding posting_of_row
add_row_postings [] idx = idx
add_row_postings (p ∷ ps) idx = add_row_postings ps (add_posting p.token (posting_of_row p) idx)

pub row_urls : List PostingRow → List Text
row_urls [] = []
row_urls (p ∷ ps) = p.url ∷ row_urls ps

-- The loop over the rows and `SetDocCount(len(urls))`.
pub restore_rows : List PostingRow → Index → Index
unfolding add_row_postings row_urls
restore_rows ps idx =
    set_doc_count (pos (length (add_keys (row_urls ps) []))) (add_row_postings ps idx)

-- The fallback: the rows of the database's table, `none` where the query fails.
pub restore_table : Option (Option (List PostingRow)) → Index → Index × Bool
unfolding restore_rows
restore_table none idx = (idx, true)
restore_table (some none) idx = (idx, false)
restore_table (some (some [])) idx = (idx, true)
restore_table (some (some (p ∷ ps))) idx = (restore_rows (p ∷ ps) idx, true)

-- `RestoreIndex`; `table` is `none` without a database, and `false` is the error that is returned.
pub restore_index : Bool → Option (Option (List PostingRow)) → Option File → Index → Index × Bool
unfolding restore_table
restore_index opened table none idx = restore_table table idx
restore_index opened table (some file) idx = elim (load_postings opened file) [
  | none ↦ restore_table table idx
  | some ps ↦ elim ps [
    | [] ↦ restore_table table idx
    | p ∷ ps' ↦ (restore_rows (p ∷ ps') idx, true)
  ]
]

-- The row for a new crawl.
pub new_session : Config → Text → CrawlSession
new_session cfg status = record {
  id = 0;
  origin_url = cfg.seed_url;
  max_depth = cfg.max_depth;
  max_urls = cfg.max_urls;
  num_workers = cfg.num_workers;
  queue_size = cfg.queue_size;
  same_domain = cfg.same_domain;
  status = status;
  visited_count = 0;
  queued_count = 0;
  indexed_count = 0;
  error_count = 0;
  stop_reason = [];
  saved_queue_count = 0;
}

pub record Created : Type 0 where
  pub id : ℕ
  pub db : Option Database

-- `createSession`: 0 without a database, and after an error.
pub create_session : Bool → Config → Text → Option Database → Created
unfolding new_session
create_session saved cfg status none = record { id = 0; db = none }
create_session saved cfg status (some db) =
    let (after, created) = create_crawl_session saved (new_session cfg status) db in
    elim created [
      | none ↦ record { id = 0; db = some after }
      | some id ↦ record { id = id; db = some after }
    ]

-- The id of the session, or the next local one in place of 0.
pub with_id : ℕ → ℕ → ℕ × ℕ
with_id zero next_id = (suc next_id, suc next_id)
with_id (suc id) next_id = (suc id, next_id)

pub clear_file : Bool → Option File → Option File
clear_file removed none = none
clear_file removed (some file) = some (clear_pdata removed file)

-- `StartCrawl`, with the id that it returns.
unfoldable pub start_crawl : Bool → Bool → Config → Manager → Manager × ℕ
unfolding create_session with_id put_crawl clear_file
start_crawl saved removed cfg m =
    let created = create_session saved cfg (codes "running") m.db in
    let (id, next) = with_id created.id m.next_id in
    let ac : ActiveCrawl = record {
      session_id = id;
      metrics = new_metrics;
      cancelled = false;
      seed_url = cfg.seed_url;
    } in
    (
      record m {
        crawls = put_crawl ac m.crawls;
        next_id = next;
        db = created.db;
        pdata = clear_file removed m.pdata;
      },
      id,
    )
