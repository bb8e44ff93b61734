-- ===== src/Crawler/System/Outcome.antt =====
-- Whole runs of `Start` (internal/crawler/crawler.go): that a crawl never hangs, and how many turns it
-- takes.
use google_in_a_day_crawler.Base.{
  ◌⊎◌, ℕ, suc, zero, ◌+◌, ◌*◌, ◌≤◌, ◌≡◌, refl, List, [], length, arith, pos, Option,
}
use google_in_a_day_crawler.Worker.{WorkerConfig, Net, CrawlTask}
use google_in_a_day_crawler.Tokens.{Unicode}
use google_in_a_day_crawler.Crawler.{Config}
use google_in_a_day_crawler.Crawler.Indexer.{Indexer}
use google_in_a_day_crawler.Crawler.System.{Sys, SessionRows}
use google_in_a_day_crawler.Crawler.System.Scheduling.{total}
use google_in_a_day_crawler.Crawler.System.Start.{Initial, enqueue_initial, idle_workers, started}
use google_in_a_day_crawler.Crawler.System.Counting.{Reach-IsCounted}
use google_in_a_day_crawler.Crawler.System.Ending.{Reach-EndsAtZero}
use google_in_a_day_crawler.Crawler.System.Bounds.{one, total-one}
use google_in_a_day_crawler.Crawler.System.Starting.{
  total-enqueue_initial, started-IsCounted, started-EndsAtZero,
}
use google_in_a_day_crawler.Crawler.System.Live.{IsLive, exits, is_gone, Reach-IsLive}
use google_in_a_day_crawler.Crawler.System.Progress.{IsOver, Work, progress}
use google_in_a_day_crawler.Crawler.System.Effort.{
  turns_left, works, ticks, works-le, workers_turns, worker_turns, coordinator_turns,
}
use google_in_a_day_crawler.Crawler.System.Runs.{Run}

pub length-idle_workers : (n : ℕ) → length (idle_workers n) ≡ n
unfolding idle_workers
length-idle_workers zero = refl
length-idle_workers (suc n) = omega (arith, length-idle_workers n)

exits-idle_workers : (n : ℕ) → exits (idle_workers n) ≡ 0
unfolding idle_workers exits is_gone
exits-idle_workers zero = refl
exits-idle_workers (suc n) = omega (arith, exits-idle_workers n)

turns-idle_workers : (n : ℕ) → workers_turns (idle_workers n) ≡ n
unfolding idle_workers workers_turns worker_turns
turns-idle_workers zero = refl
turns-idle_workers (suc n) = omega (arith, turns-idle_workers n)

-- The initial tasks are in `taskCh` or in the overflow.
length-enqueue_initial :
    (queue_size : ℕ) (ts : List CrawlTask)
    → let q = enqueue_initial queue_size ts (record { task_ch = []; overflow = [] }) in
      length q.task_ch + length q.overflow ≡ length ts
length-enqueue_initial queue_size ts =
    let q = enqueue_initial queue_size ts (record { task_ch = []; overflow = [] }) in
    unfold total in
    omega (
      arith,
      total-enqueue_initial one queue_size ts (record { task_ch = []; overflow = [] }),
      total-one q.task_ch,
      total-one q.overflow,
      total-one ts,
    )

module _ (u : Unicode) (net : Net) (wcfg : WorkerConfig) (cfg : Config)
    (queue_size num_workers queued : ℕ) (init : Initial) (rows : Option SessionRows)
    (indexer : Indexer) where
  pub started-IsLive :
      IsLive num_workers (started cfg queue_size num_workers init queued rows indexer)
  unfolding started
  started-IsLive = ground (arith, length-idle_workers num_workers, exits-idle_workers num_workers)

  -- A crawl with a worker never hangs: at every point of a run either all is over, with the coordinator
  -- done, no record waiting and all workers gone, or one of the goroutines can take a turn that waits
  -- neither for a ticker nor for a cancellation.
  pub never_stuck :
      (t : Sys)
      → 1 ≤ num_workers
      → Run u net wcfg cfg queue_size num_workers queued init rows indexer t
      → IsOver t ⊎ Work u net wcfg cfg queue_size num_workers t
  never_stuck t n r =
      progress u net wcfg cfg queue_size num_workers t n
        (Reach-IsLive u net wcfg cfg queue_size num_workers started-IsLive r)
        (Reach-IsCounted u net wcfg cfg queue_size num_workers
          (started-IsCounted cfg queue_size num_workers queued init rows indexer) r)
        (Reach-EndsAtZero u net wcfg cfg queue_size num_workers
          (started-EndsAtZero cfg queue_size num_workers queued init rows indexer) r)

  -- A crawl with a limit of n URLs takes 12 n turns at most, 11 for each initial task, one for each
  -- worker, three, and two for each turn of the coordinator's ticker (its write, and the head of the loop
  -- behind it), whatever the pages link to and in whatever order the turns come; cancellations and the
  -- indexer's ticker do not count.
  pub turns_bounded :
      (t : Sys) (n : ℕ) (limit : cfg.max_urls ≡ pos (suc n))
      (r : Run u net wcfg cfg queue_size num_workers queued init rows indexer t)
      → works u net wcfg cfg queue_size num_workers n limit r
          + ticks u net wcfg cfg queue_size num_workers n limit r
        ≤ 12 * suc n
          + 11 * length init.queue
          + num_workers
          + 3
          + 2 * ticks u net wcfg cfg queue_size num_workers n limit r
  unfolding started turns_left coordinator_turns
  turns_bounded t n limit r = omega (
    arith,
    works-le u net wcfg cfg queue_size num_workers n limit r,
    length-enqueue_initial queue_size init.queue,
    turns-idle_workers num_workers,
  )
