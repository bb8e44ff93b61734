-- ===== src/Crawler/System/Starting.antt =====
-- What the invariants say of the state in which `Start` (internal/crawler/crawler.go) leaves the
-- system before the goroutines run.
use google_in_a_day_crawler.Base.{ℕ, zero, suc, ◌+◌, ◌≡◌, refl, List, [], ◌∷◌, ◌++◌, arith, Option}
use google_in_a_day_crawler.Worker.{CrawlTask}
use google_in_a_day_crawler.Crawler.{Config}
use google_in_a_day_crawler.Crawler.Indexer.{Indexer}
use google_in_a_day_crawler.Crawler.System.Start.{
  Initial, Queues, enqueue_initial, idle_workers, started,
}
use google_in_a_day_crawler.Crawler.System.{Sys, SessionRows}
use google_in_a_day_crawler.Crawler.System.Scheduling.{
  total, total-append, held, all_held, scheduled,
}
use google_in_a_day_crawler.Crawler.System.Counting.{busy, is_busy, on_the_way, IsCounted}
use google_in_a_day_crawler.Crawler.System.Ending.{EndsAtZero}

pub total-enqueue_initial :
    (f : CrawlTask → ℕ) (queue_size : ℕ) (ts : List CrawlTask) (q : Queues)
    → total f (enqueue_initial queue_size ts q).task_ch
        + total f (enqueue_initial queue_size ts q).overflow
      ≡ total f q.task_ch + total f q.overflow + total f ts
unfolding enqueue_initial total
total-enqueue_initial f queue_size [] q = omega arith
total-enqueue_initial f queue_size (t ∷ ts) q = ground (
  arith,
  total-append f q.task_ch (t ∷ []),
  total-append f q.overflow (t ∷ []),
  total-enqueue_initial f queue_size ts (record q { task_ch = q.task_ch ++ t ∷ [] }),
  total-enqueue_initial f queue_size ts (record q { overflow = q.overflow ++ t ∷ [] }),
)

held_idle : (f : CrawlTask → ℕ) (n : ℕ) → all_held f (idle_workers n) ≡ 0
unfolding all_held idle_workers held
held_idle f zero = refl
held_idle f (suc n) = omega (arith, held_idle f n)

busy_idle : (n : ℕ) → busy (idle_workers n) ≡ 0
unfolding busy idle_workers is_busy
busy_idle zero = refl
busy_idle (suc n) = omega (arith, busy_idle n)

module _ (cfg : Config) (queue_size num_workers queued : ℕ) (init : Initial)
    (rows : Option SessionRows) (indexer : Indexer) where
  abbrev pub start_state : Sys
  start_state = started cfg queue_size num_workers init queued rows indexer

  pub scheduled-started : (f : CrawlTask → ℕ) → scheduled f start_state ≡ total f init.queue
  unfolding started scheduled total
  scheduled-started f = omega (
    arith,
    held_idle f num_workers,
    total-enqueue_initial f queue_size init.queue (record { task_ch = []; overflow = [] }),
  )

  pub started-IsCounted : IsCounted start_state
  unfolding started on_the_way
  started-IsCounted = omega (arith, busy_idle num_workers)

  pub started-EndsAtZero : EndsAtZero start_state
  unfolding started
  started-EndsAtZero = ground arith

  pub started-visited : start_state.visited ≡ init.visited
  unfolding started
  started-visited = refl
