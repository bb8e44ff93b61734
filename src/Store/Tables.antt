-- ===== src/Store/Tables.antt =====
-- The rest of internal/storage/sqlite.go: the tables of a crawl without a session, the postings, the
-- listing of the sessions and what is deleted. The argument `saved`, `read` or `removed` of a
-- statement tells whether it succeeds.
use google_in_a_day_crawler.Base.{
  ℕ, Bool, true, false, not, ◌||◌, ite, List, [], ◌∷◌, map, Option, none, some, Text, Text_discrete,
  codes, length, ◌==◌, ltb, if◌then◌else◌,
}
use google_in_a_day_crawler.Index.{add_keys}
use google_in_a_day_crawler.PData.{PostingRow}
use google_in_a_day_crawler.Worker.{CrawlTask}
use google_in_a_day_crawler.Crawler.Indexer.{replace_row, save_postings_batch}
use google_in_a_day_crawler.Crawler.System.{add_visited, add_all_visited}
use google_in_a_day_crawler.Store.{
  CrawlSession, CrawlState, StateRow, QueueRow, VisitedRow, Database, insert_tasks,
}

-- `SaveCrawlState`: `INSERT OR REPLACE` of the row, as not completed.
pub save_crawl_state : Bool → CrawlState → Database → Database
save_crawl_state true state db = record db {
  crawl_state = some (record { state = state; completed = false });
}
save_crawl_state false state db = db

complete : StateRow → StateRow
complete row = record row { completed = true }

-- `MarkCrawlComplete`.
pub mark_crawl_complete : Bool → Database → Database
unfolding complete
mark_crawl_complete true db = elim db.crawl_state [
  | none ↦ db
  | some row ↦ record db { crawl_state = some (complete row) }
]
mark_crawl_complete false db = db

-- `LoadCrawlState`: `none` is the error, `some none` that there is no row.
pub load_crawl_state : Bool → Database → Option (Option StateRow)
load_crawl_state read db = if read then some db.crawl_state else none

-- `AddVisitedURL`.
pub add_visited_url : Bool → Text → Database → Database
add_visited_url true url db = record db { visited_urls = add_visited url db.visited_urls }
add_visited_url false url db = db

-- `AddVisitedURLs`: one transaction.
unfoldable pub add_visited_urls : Bool → List Text → Database → Database
add_visited_urls true urls db = record db { visited_urls = add_all_visited urls db.visited_urls }
add_visited_urls false urls db = db

pub load_visited_urls : Bool → Database → Option (List Text)
load_visited_urls read db = if read then some db.visited_urls else none

-- `SaveQueuedTasks`: all rows of the table are replaced, those of the sessions too.
unfoldable pub save_queued_tasks : Bool → List CrawlTask → Database → Database
save_queued_tasks true tasks db = record db { queue = insert_tasks 0 tasks [] }
save_queued_tasks false tasks db = db

-- `LoadQueuedTasks`: the rows of all sessions.
pub load_queued_tasks : Bool → Database → Option (List CrawlTask)
load_queued_tasks read db = if read then some (map (λ row. row.task) db.queue) else none

-- `SavePosting`.
pub save_posting : Bool → PostingRow → Database → Database
save_posting true p db = record db { postings = replace_row p db.postings }
save_posting false p db = db

-- `SavePostingsBatch` on the table of the database.
pub save_posting_rows : Bool → List PostingRow → Database → Database
save_posting_rows saved ps db = record db { postings = save_postings_batch saved ps db.postings }

-- `LoadAllPostings`.
pub load_all_postings : Bool → Database → Option (List PostingRow)
load_all_postings read db = if read then some db.postings else none

-- `CountDocuments`: the different URLs.
pub count_documents : Bool → Database → Option ℕ
count_documents read db =
    if read then some (length (add_keys (map (λ p. p.url) db.postings) [])) else none

-- `CountWordTokens`: the different tokens.
pub count_word_tokens : Bool → Database → Option ℕ
count_word_tokens read db =
    if read then some (length (add_keys (map (λ p. p.token) db.postings) [])) else none

-- `ClearAll`: five statements, of which the first `done` are made.
pub clear_all : ℕ → Database → Database
clear_all done db = record db {
  crawl_state = if ltb 0 done then none else db.crawl_state;
  visited_urls = if ltb 1 done then [] else db.visited_urls;
  queue = if ltb 2 done then [] else db.queue;
  postings = if ltb 4 done then [] else db.postings;
}

-- `ORDER BY id DESC`.
insert_by_id : CrawlSession → List CrawlSession → List CrawlSession
insert_by_id sess [] = sess ∷ []
insert_by_id sess (other ∷ rest) =
    let later = insert_by_id sess rest in
    if ltb sess.id other.id then other ∷ later else sess ∷ other ∷ rest

by_id : List CrawlSession → List CrawlSession
unfolding insert_by_id
by_id [] = []
by_id (sess ∷ rest) = insert_by_id sess (by_id rest)

-- `LoadAllCrawlSessions`.
pub load_all_crawl_sessions : Bool → Database → Option (List CrawlSession)
unfolding by_id
load_all_crawl_sessions read db = if read then some (by_id db.sessions) else none

-- `status IN ('running', 'queued')`
pub is_active : CrawlSession → Bool
is_active sess =
    ite (Text_discrete sess.status (codes "running")) true
      (ite (Text_discrete sess.status (codes "queued")) true false)

-- The subquery: the ids of the sessions that are not active.
unfoldable pub is_finished_id : ℕ → List CrawlSession → Bool
unfolding is_active
is_finished_id id [] = false
is_finished_id id (sess ∷ rest) =
    (if sess.id == id then not (is_active sess) else false) || is_finished_id id rest

unfoldable pub keep_tasks : List CrawlSession → List QueueRow → List QueueRow
keep_tasks sessions [] = []
keep_tasks sessions (row ∷ rows) =
    let rest = keep_tasks sessions rows in
    if is_finished_id row.session_id sessions then rest else row ∷ rest

unfoldable pub keep_visited : List CrawlSession → List VisitedRow → List VisitedRow
keep_visited sessions [] = []
keep_visited sessions (row ∷ rows) =
    let rest = keep_visited sessions rows in
    if is_finished_id row.session_id sessions then rest else row ∷ rest

unfoldable pub keep_active : List CrawlSession → List CrawlSession
unfolding is_active
keep_active [] = []
keep_active (sess ∷ rest) =
    let kept = keep_active rest in if is_active sess then sess ∷ kept else kept

-- Whether each of the three statements succeeds.
pub record DeleteOutcomes : Type 0 where
  pub queue_cleared : Bool
  pub visited_cleared : Bool
  pub sessions_deleted : Bool

-- `DeleteCompletedCrawlSessions`.
unfoldable pub delete_completed : DeleteOutcomes → Database → Database
unfolding keep_tasks keep_visited keep_active
delete_completed o db = record db {
  queue = if o.queue_cleared then keep_tasks db.sessions db.queue else db.queue;
  visited = if o.visited_cleared then keep_visited db.sessions db.visited else db.visited;
  sessions = if o.sessions_deleted then keep_active db.sessions else db.sessions;
}
