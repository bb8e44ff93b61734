-- ===== src/Store.antt =====
-- The tables of sessions, saved queues and visited URLs of internal/storage/sqlite.go. A row of
-- `queue` stands behind those that were inserted before it, as its `id` orders it. The argument
-- `saved` of a write tells whether it succeeds; a transaction that fails changes nothing. The
-- columns of the times and of the error message are left out.
pub mod Queues
pub mod Views
pub mod Crawling
pub mod Tables
pub mod Clearing
pub mod Rows
pub mod Schema
mod Examples
use google_in_a_day_crawler.Base.{
  ℕ, suc, ◌+◌, ◌≡◌, Bool, true, false, ◌||◌, ◌&&◌, ite, List, [], ◌∷◌, ◌++◌, Option, none, some, ℤ,
  Text, Text_discrete, codes, length, ◌==◌, if◌then◌else◌,
}
use google_in_a_day_crawler.PData.{PostingRow}
use google_in_a_day_crawler.Worker.{CrawlTask}

pub record CrawlSession : Type 0 where
  pub id : ℕ
  pub origin_url : Text
  pub max_depth : ℤ
  pub max_urls : ℤ
  pub num_workers : ℤ
  pub queue_size : ℤ
  pub same_domain : Bool
  pub status : Text
  pub visited_count : ℕ
  pub queued_count : ℕ
  pub indexed_count : ℕ
  pub error_count : ℕ
  pub stop_reason : Text
  pub saved_queue_count : ℕ

pub record QueueRow : Type 0 where
  pub session_id : ℕ
  pub task : CrawlTask

pub record VisitedRow : Type 0 where
  pub session_id : ℕ
  pub url : Text

-- `CrawlState`, the configuration of a crawl without a session.
pub record CrawlState : Type 0 where
  pub seed_url : Text
  pub max_depth : ℤ
  pub num_workers : ℤ
  pub same_domain : Bool

-- The one row of the table `crawl_state`.
pub record StateRow : Type 0 where
  pub state : CrawlState
  pub completed : Bool

-- `last_id` is the last id that the autoincrement column of the sessions gave out. A task of a crawl
-- without a session has the session id 0. The table `documents`, which nothing fills, is left out.
pub record Database : Type 0 where
  pub last_id : ℕ
  pub sessions : List CrawlSession
  pub queue : List QueueRow
  pub visited : List VisitedRow
  pub crawl_state : Option StateRow
  pub visited_urls : List Text
  pub postings : List PostingRow

-- `CreateCrawlSession`: the row gets the next id, and the counters their defaults.
unfoldable pub create_crawl_session : Bool → CrawlSession → Database → Database × Option ℕ
create_crawl_session false sess db = (db, none)
create_crawl_session true sess db = (
  record db {
    last_id = suc db.last_id;
    sessions =
        db.sessions
        ++ record sess {
          id = suc db.last_id;
          visited_count = 0;
          queued_count = 0;
          indexed_count = 0;
          error_count = 0;
          stop_reason = [];
          saved_queue_count = 0;
        }
          ∷ [];
  },
  some (suc db.last_id),
)

-- `UPDATE crawl_sessions SET ... WHERE id = ?`
unfoldable pub update_session :
    ℕ → (CrawlSession → CrawlSession) → List CrawlSession → List CrawlSession
update_session id change [] = []
update_session id change (sess ∷ rest) =
    (if sess.id == id then change sess else sess) ∷ update_session id change rest

unfoldable pub write_session : Bool → ℕ → (CrawlSession → CrawlSession) → Database → Database
unfolding update_session
write_session true id change db = record db { sessions = update_session id change db.sessions }
write_session false id change db = db

-- The four counters that the updates of a session write.
pub record Counters : Type 0 where
  pub visited : ℕ
  pub queued : ℕ
  pub indexed : ℕ
  pub errors : ℕ

unfoldable pub set_counters : Counters → CrawlSession → CrawlSession
set_counters c sess = record sess {
  visited_count = c.visited;
  queued_count = c.queued;
  indexed_count = c.indexed;
  error_count = c.errors;
}

unfoldable pub update_crawl_session_metrics : Bool → ℕ → Counters → Database → Database
unfolding write_session
update_crawl_session_metrics saved id c db = write_session saved id (set_counters c) db

unfoldable pub finish_crawl_session : Bool → ℕ → Text → Text → Counters → Database → Database
unfolding write_session
finish_crawl_session saved id status reason c db =
    write_session saved id
      (λ sess. record (set_counters c sess) { status = status; stop_reason = reason }) db

unfoldable pub update_session_status : Bool → ℕ → Text → Database → Database
unfolding write_session
update_session_status saved id status db =
    write_session saved id (λ sess. record sess { status = status }) db

unfoldable pub update_session_saved_queue_count : Bool → ℕ → ℕ → Database → Database
unfolding write_session
update_session_saved_queue_count saved id n db =
    write_session saved id (λ sess. record sess { saved_queue_count = n }) db

unfoldable pub find_session : ℕ → List CrawlSession → Option CrawlSession
find_session id [] = none
find_session id (sess ∷ rest) =
    let found = find_session id rest in if sess.id == id then some sess else found

-- `LoadCrawlSession`; `none` is the error, also for an id without a row.
unfoldable pub load_crawl_session : Bool → ℕ → Database → Option CrawlSession
unfolding find_session
load_crawl_session read id db = if read then find_session id db.sessions else none

-- `DELETE FROM queue WHERE session_id = ?`
unfoldable pub delete_tasks : ℕ → List QueueRow → List QueueRow
delete_tasks id [] = []
delete_tasks id (row ∷ rows) =
    let rest = delete_tasks id rows in if row.session_id == id then rest else row ∷ rest

unfoldable pub insert_tasks : ℕ → List CrawlTask → List QueueRow → List QueueRow
insert_tasks id [] rows = rows
insert_tasks id (t ∷ ts) rows =
    insert_tasks id ts (rows ++ record { session_id = id; task = t } ∷ [])

-- `SELECT ... FROM queue WHERE session_id = ? ORDER BY id`
unfoldable pub select_tasks : ℕ → List QueueRow → List CrawlTask
select_tasks id [] = []
select_tasks id (row ∷ rows) =
    let rest = select_tasks id rows in if row.session_id == id then row.task ∷ rest else rest

-- One transaction: the session's rows are replaced.
unfoldable pub save_session_queued_tasks : Bool → ℕ → List CrawlTask → Database → Database
unfolding insert_tasks delete_tasks
save_session_queued_tasks true id tasks db = record db {
  queue = insert_tasks id tasks (delete_tasks id db.queue);
}
save_session_queued_tasks false id tasks db = db

unfoldable pub load_session_queued_tasks : Bool → ℕ → Database → Option (List CrawlTask)
unfolding select_tasks
load_session_queued_tasks read id db = if read then some (select_tasks id db.queue) else none

pub count_session_queue_tasks : Bool → ℕ → Database → Option ℕ
unfolding select_tasks
count_session_queue_tasks read id db =
    if read then some (length (select_tasks id db.queue)) else none

unfoldable pub select_visited : ℕ → List VisitedRow → List Text
select_visited id [] = []
select_visited id (row ∷ rows) =
    let rest = select_visited id rows in if row.session_id == id then row.url ∷ rest else rest

-- Whether the primary key, the session with the URL, is in the table.
pub has_visited : ℕ → Text → List VisitedRow → Bool
has_visited id url [] = false
has_visited id url (row ∷ rows) =
    ((row.session_id == id) && ite (Text_discrete row.url url) true false)
    || has_visited id url rows

-- `INSERT OR IGNORE` of each URL.
pub insert_visited : ℕ → List Text → List VisitedRow → List VisitedRow
unfolding has_visited
insert_visited id [] rows = rows
insert_visited id (url ∷ urls) rows =
    insert_visited id urls
      (if has_visited id url rows then rows else rows ++ record { session_id = id; url = url } ∷ [])

unfoldable pub add_session_visited_urls : Bool → ℕ → List Text → Database → Database
unfolding insert_visited
add_session_visited_urls true id urls db = record db { visited = insert_visited id urls db.visited }
add_session_visited_urls false id urls db = db

-- The set of visited URLs; no order.
unfoldable pub load_session_visited_urls : Bool → ℕ → Database → Option (List Text)
unfolding select_visited
load_session_visited_urls read id db = if read then some (select_visited id db.visited) else none

pub delete_visited : ℕ → List VisitedRow → List VisitedRow
delete_visited id [] = []
delete_visited id (row ∷ rows) =
    let rest = delete_visited id rows in if row.session_id == id then rest else row ∷ rest

-- `ClearSessionResumeData`: two statements, each of which may fail.
pub clear_session_resume_data : Bool → Bool → ℕ → Database → Database
unfolding delete_tasks delete_visited
clear_session_resume_data cleared removed id db = record db {
  queue = if cleared then delete_tasks id db.queue else db.queue;
  visited = if removed then delete_visited id db.visited else db.visited;
}
