-- ===== src/Crawler/System/Start.antt =====
-- The part of `Start` (internal/crawler/crawler.go) before the goroutines run, and what it makes of
-- the state that a resumed crawl brings.
use google_in_a_day_crawler.Base.{
  ◌%◌, ◌^◌, leb, codes, ◌+◌, ◌-◌, ◌*◌, zero, suc, false, List, [], ◌∷◌, ◌++◌, ℕ, length, ltb, ℤ,
  pos, negsuc, Option, none, some, ◌>>=◌, Text, if◌then◌else◌,
}
use google_in_a_day_crawler.Worker.{CrawlTask, Net, WorkerConfig}
use google_in_a_day_crawler.Crawler.{Config, seeds, seed_queue, mark_all}
use google_in_a_day_crawler.Crawler.Indexer.{Indexer}
use google_in_a_day_crawler.Crawler.System.{
  url_limit_reached, WorkerState, idle, looping, Sys, SessionRows,
}

-- `ResumeState`.
pub record ResumeState : Type 0 where
  pub visited : List Text
  pub queue : List CrawlTask

-- `seedHosts`: the host of each seed, as it is written.
unfoldable pub seed_hosts : Net → List Text → List Text
seed_hosts net [] = []
seed_hosts net (s ∷ ss) =
    let rest = seed_hosts net ss in
    elim (net.parse s) [
      | none ↦ rest
      | some url ↦ elim url.host [ [] ↦ rest | c ∷ host ↦ (c ∷ host) ∷ rest ]
    ]

-- `workerCfg`.
pub worker_config : Net → Config → WorkerConfig
unfolding seed_hosts
worker_config net cfg = record {
  max_body_size = cfg.max_body_size;
  same_domain = cfg.same_domain;
  seed_host = [];
  seed_hosts = seed_hosts net (seeds cfg);
}

-- The largest buffers that the runtime makes, of tasks, of batches and of records.
pub record ChanLimits : Type 0 where
  pub tasks : ℕ
  pub batches : ℕ
  pub pages : ℕ

-- The capacity in a `make(chan T, n)`, which panics on a negative one and on one beyond the limit.
unfoldable pub chan_size : ℕ → ℤ → Option ℕ
chan_size limit (pos n) = if leb n limit then some n else none
chan_size limit (negsuc n) = none

-- A Go int from its value modulo 2 ^ 64.
unfoldable pub int_of : ℕ → ℤ
int_of r = if ltb r (2 ^ 63) then pos r else negsuc (2 ^ 64 - 1 - r)

-- `n * 2`, which wraps.
unfoldable pub double : ℤ → ℤ
unfolding int_of
double (pos n) = int_of (n * 2 % 2 ^ 64)
double (negsuc n) = int_of ((2 ^ 64 - (n + 1) * 2 % 2 ^ 64) % 2 ^ 64)

-- How often a loop that counts up to the number runs.
unfoldable pub times : ℤ → ℕ
times (pos n) = n
times (negsuc n) = 0

pub record Initial : Type 0 where
  pub visited : List Text
  pub queue : List CrawlTask

-- A resumed crawl takes its visited set and queue, if the set is not empty; any other the seeds.
unfoldable pub initial : Config → Option ResumeState → Initial
initial cfg none = record { visited = mark_all (seeds cfg) []; queue = seed_queue (seeds cfg) }
initial cfg (some r) = elim r.visited [
  | [] ↦ record { visited = mark_all (seeds cfg) []; queue = seed_queue (seeds cfg) }
  | url ∷ urls ↦ record { visited = r.visited; queue = r.queue }
]

pub record Queues : Type 0 where
  pub task_ch : List CrawlTask
  pub overflow : List CrawlTask

-- The loop that sends the initial tasks without blocking; no worker runs yet.
unfoldable pub enqueue_initial : ℕ → List CrawlTask → Queues → Queues
enqueue_initial queue_size [] q = q
enqueue_initial queue_size (t ∷ ts) q = enqueue_initial queue_size ts (
    if ltb (length q.task_ch) queue_size
    then record q { task_ch = q.task_ch ++ t ∷ [] }
    else record q { overflow = q.overflow ++ t ∷ [] })

unfoldable pub idle_workers : ℕ → List WorkerState
idle_workers zero = []
idle_workers (suc n) = idle ∷ idle_workers n

-- The system when the coordinator begins. `queued` is the metric `PagesQueued` as it was before.
unfoldable pub started : Config → ℕ → ℕ → Initial → ℕ → Option SessionRows → Indexer → Sys
unfolding enqueue_initial idle_workers
started cfg queue_size num_workers init queued rows indexer =
    let q = enqueue_initial queue_size init.queue (record { task_ch = []; overflow = [] }) in
    record {
      task_ch = q.task_ch;
      closed = false;
      discovered_ch = [];
      results_ch = [];
      workers = idle_workers num_workers;
      cancelled = false;
      at = looping;
      visited = init.visited;
      overflow = q.overflow;
      in_flight = length q.task_ch;
      new_visited = [];
      pages_queued = queued + length init.queue;
      queue_depth = length q.task_ch + length q.overflow;
      overflow_size = 0;
      rows = rows;
      indexer = indexer;
      fetched = [];
    }

-- `Start` up to the goroutines; `none` is a panic.
unfoldable pub start :
    ChanLimits → Config → Option ResumeState → ℕ → Option SessionRows → Indexer → Option Sys
unfolding started
start limits cfg resume queued rows indexer = do
  queue_size ← chan_size limits.tasks cfg.queue_size
  batches ← chan_size limits.batches (double cfg.num_workers)
  pages ← chan_size limits.pages (double cfg.num_workers)
  some (started cfg queue_size (times cfg.num_workers) (initial cfg resume) queued rows indexer)

-- The reason that `Start` stores at its end.
pub data StopReason : Type 0 where
  completed url_limit stopped : StopReason

unfoldable pub stop_reason : Config → Sys → StopReason
stop_reason cfg s =
    if s.cancelled then stopped else if url_limit_reached cfg s then url_limit else completed

-- Its text.
unfoldable pub reason_text : StopReason → Text
reason_text completed = codes "completed"
reason_text url_limit = codes "url_limit"
reason_text stopped = codes "stopped"
