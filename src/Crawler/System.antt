-- ===== src/Crawler/System.antt =====
-- `Start`, `coordinatorLoop` (internal/crawler/crawler.go) and `workerLoop`
-- (internal/crawler/worker.go) as one transition system: the coordinator, the workers and the
-- indexer take turns in any order, and each turn is one channel operation with the code up to the
-- next one. `fetched` is a history variable: the tasks whose page a worker has begun to
-- fetch; Crawler.System.Aborting tells which of these fetches were completed.
pub mod Steps
pub mod Start
pub mod Counting
pub mod Scheduling
pub mod Once
pub mod Bounds
pub mod Ending
pub mod Starting
pub mod Runs
pub mod Live
pub mod Finding
pub mod Progress
pub mod Effort
pub mod Outcome
pub mod Keeping
pub mod Noting
pub mod Saving
pub mod Aborting
pub mod Fetched
pub mod Stopping
pub mod Queued
pub mod Sample
mod Examples
use google_in_a_day_crawler.Base.{
  ◌⊎◌, ℕ, suc, ◌+◌, ◌-◌, ◌*◌, ◌<◌, ◌≡◌, ◌≢◌, Bool, true, false, not, ◌&&◌, ◌||◌, ite, List, [], ◌∷◌,
  ◌++◌, map, Option, none, some, ℤ, pos, negsuc, Text, contains, length, leb, ltb, ◌==◌,
  if◌then◌else◌,
}
use google_in_a_day_crawler.Tokens.{Unicode}
use google_in_a_day_crawler.Worker.{
  CrawlTask, PageRecord, WorkerConfig, Exchange, Net, process_page, new_tasks,
}
use google_in_a_day_crawler.Crawler.{task_urls, Config, limit_met, deduplicate_and_mark}
use google_in_a_day_crawler.Crawler.Indexer.{Indexer, Choices, on_record, flush}

-- Where a worker stands: it waits for a task, has received one, is fetching its page, waits to send
-- the page's record or a batch of tasks, or has left its loop.
pub data WorkerState : Type 0 where
  idle : WorkerState
  received : CrawlTask → WorkerState
  fetching : CrawlTask → WorkerState
  sending_record : CrawlTask → PageRecord → WorkerState
  sending_batch : List CrawlTask → WorkerState
  exited : WorkerState

-- Where the coordinator stands: at the head of its loop, at one of the two `select` statements behind
-- the test of the limit (`true`: the limit was met), in the loop that enqueues new tasks, in
-- `drainInFlight`, or behind the loop, at its normal end or after a cancellation.
pub data Coordinator : Type 0 where
  looping : Coordinator
  selecting : Bool → Coordinator
  enqueuing : List CrawlTask → Coordinator
  draining : Coordinator
  finished : Coordinator
  interrupted : Coordinator

-- The rows that the database holds for the session: its queue and its visited URLs.
pub record SessionRows : Type 0 where
  pub queue : List CrawlTask
  pub visited : List Text

pub record Sys : Type 0 where
  pub task_ch : List CrawlTask
  pub closed : Bool
  pub discovered_ch : List (List CrawlTask)
  pub results_ch : List PageRecord
  pub workers : List WorkerState
  pub cancelled : Bool
  pub at : Coordinator
  pub visited : List Text
  pub overflow : List CrawlTask
  pub in_flight : ℕ
  pub new_visited : List Text
  pub pages_queued : ℕ
  pub queue_depth : ℕ
  pub overflow_size : ℕ
  pub rows : Option SessionRows
  pub indexer : Indexer
  pub fetched : List CrawlTask

pub is_idle : WorkerState → Bool
is_idle idle = true
is_idle _ = false

pub any_idle : List WorkerState → Bool
any_idle [] = false
any_idle (w ∷ ws) = is_idle w || any_idle ws

pub is_empty {ℓ} : {A : Type ℓ} → List A → Bool
is_empty [] = true
is_empty (x ∷ xs) = false

-- Whether a send on `taskCh` goes through: there is room in the buffer or, without a buffer, a worker
-- that waits and has not been given a task.
pub room : ℕ → Sys → Bool
room queue_size s =
    ltb (length s.task_ch) queue_size
    || ((queue_size == 0) && (is_empty s.task_ch && any_idle s.workers))

pub url_limit_reached : Config → Sys → Bool
url_limit_reached cfg s = limit_met cfg.max_urls s.indexer.pages_processed

-- The condition of the coordinator's loop.
pub goes_on : Sys → Bool
goes_on s = ltb 0 s.in_flight || not (is_empty s.overflow)

pub update_queue_metrics : Sys → Sys
update_queue_metrics s = record s {
  queue_depth = s.in_flight + length s.overflow;
  overflow_size = length s.overflow;
}

unfoldable pub add_visited : Text → List Text → List Text
add_visited url visited = if contains url visited then visited else visited ++ url ∷ []

-- `INSERT OR IGNORE` of each URL.
unfoldable pub add_all_visited : List Text → List Text → List Text
unfolding add_visited
add_all_visited [] visited = visited
add_all_visited (url ∷ urls) visited = add_all_visited urls (add_visited url visited)

-- `flushVisited`; `saved` tells whether the write succeeds, and the code does not look at that.
unfoldable pub flush_rows : Bool → List Text → SessionRows → SessionRows
unfolding add_all_visited
flush_rows true urls rows = record rows { visited = add_all_visited urls rows.visited }
flush_rows false urls rows = rows

unfoldable pub flush_visited : Bool → Sys → Sys
unfolding flush_rows
flush_visited saved s = elim s.rows [
  | none ↦ s
  | some rows ↦ elim s.new_visited [
    | [] ↦ s
    | url ∷ urls ↦ record s { rows = some (flush_rows saved (url ∷ urls) rows); new_visited = [] }
  ]
]

unfoldable pub replace_queue : Bool → List CrawlTask → SessionRows → SessionRows
replace_queue true tasks rows = record rows { queue = tasks }
replace_queue false tasks rows = rows

-- `SaveSessionQueuedTasks`, where there is a database.
unfoldable pub save_tasks : Bool → List CrawlTask → Sys → Sys
unfolding replace_queue
save_tasks saved tasks s = elim s.rows [
  | none ↦ s
  | some rows ↦ record s { rows = some (replace_queue saved tasks rows) }
]

-- A batch from `discoveredCh`: the new tasks, with the set and the counters brought up to date.
pub receive_batch : Config → List CrawlTask → List (List CrawlTask) → Sys → Sys × List CrawlTask
receive_batch cfg batch rest s =
    let m = deduplicate_and_mark cfg batch s.visited in
    (
      record s {
        discovered_ch = rest;
        in_flight = s.in_flight - 1;
        visited = m.visited;
        pages_queued = s.pages_queued + length m.tasks;
        new_visited = s.new_visited ++ task_urls m.tasks;
      },
      m.tasks,
    )

-- The case of the loop with an overflow: the new tasks join it.
unfoldable pub on_batch_overflow : Config → List CrawlTask → List (List CrawlTask) → Sys → Sys
unfolding receive_batch update_queue_metrics
on_batch_overflow cfg batch rest s =
    let (r, tasks) = receive_batch cfg batch rest s in
    update_queue_metrics (record r { overflow = r.overflow ++ tasks; at = looping })

-- The case without: the new tasks are enqueued one by one.
unfoldable pub on_batch_direct : Config → List CrawlTask → List (List CrawlTask) → Sys → Sys
unfolding receive_batch
on_batch_direct cfg batch rest s =
    let (r, tasks) = receive_batch cfg batch rest s in record r { at = enqueuing tasks }

-- `taskCh <- overflow[0]`.
unfoldable pub send_overflow : CrawlTask → List CrawlTask → Sys → Sys
unfolding update_queue_metrics
send_overflow t rest s = update_queue_metrics (record s {
  task_ch = s.task_ch ++ t ∷ [];
  overflow = rest;
  in_flight = s.in_flight + 1;
  at = looping;
})

-- One round of the loop over the new tasks, with its non-blocking send.
unfoldable pub enqueue_next : ℕ → CrawlTask → List CrawlTask → Sys → Sys
unfolding room
enqueue_next queue_size t ts s =
    if room queue_size s
    then record s { task_ch = s.task_ch ++ t ∷ []; in_flight = s.in_flight + 1; at = enqueuing ts }
    else record s { overflow = s.overflow ++ t ∷ []; at = enqueuing ts }

unfoldable pub end_enqueue : Sys → Sys
unfolding update_queue_metrics
end_enqueue s = update_queue_metrics (record s { at = looping })

-- The head of the loop: the test of the limit, which drops the overflow.
unfoldable pub enter_select : Config → Sys → Sys
unfolding url_limit_reached
enter_select cfg s =
    if url_limit_reached cfg s
    then record s { overflow = []; at = selecting true }
    else record s { at = selecting false }

-- Beyond the limit: a batch is received and dropped.
unfoldable pub drop_batch : List (List CrawlTask) → Sys → Sys
unfolding update_queue_metrics
drop_batch rest s =
    update_queue_metrics
      (record s { discovered_ch = rest; in_flight = s.in_flight - 1; at = looping })

-- The normal end: flush, clear the saved queue, close `taskCh`.
unfoldable pub finish : Bool → Bool → Sys → Sys
unfolding flush_visited save_tasks
finish saved cleared s =
    let t = save_tasks cleared [] (flush_visited saved s) in
    record t { at = finished; closed = true }

-- A cancellation is noticed: `taskCh` is closed and the drain begins.
unfoldable pub start_drain : Sys → Sys
start_drain s = record s { at = draining; closed = true }

-- One round of `drainInFlight`.
unfoldable pub drain_batch : List CrawlTask → List (List CrawlTask) → Sys → Sys
drain_batch batch rest s = record s {
  discovered_ch = rest;
  in_flight = s.in_flight - 1;
  overflow = s.overflow ++ batch;
}

-- `saveQueue` and the return.
unfoldable pub end_drain : Bool → Bool → Sys → Sys
unfolding flush_visited save_tasks
end_drain saved queued s =
    let t = flush_visited saved (save_tasks queued s.overflow s) in record t { at = interrupted }
