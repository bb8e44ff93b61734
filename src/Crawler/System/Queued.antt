-- ===== src/Crawler/System/Queued.antt =====
-- A run of internal/crawler/crawler.go that is not stopped fetches all that it begins with.
use google_in_a_day_crawler.Base.{ℕ, ◌≤◌, ◌≡◌, false, arith, Text, count, Option}
use google_in_a_day_crawler.Tokens.{Unicode}
use google_in_a_day_crawler.Worker.{CrawlTask, WorkerConfig, Net}
use google_in_a_day_crawler.Crawler.{Config, task_urls}
use google_in_a_day_crawler.Crawler.Indexer.{Indexer}
use google_in_a_day_crawler.Crawler.System.Steps.{Reach, here, next}
use google_in_a_day_crawler.Crawler.System.{Sys, SessionRows, finished, url_limit_reached}
use google_in_a_day_crawler.Crawler.System.Scheduling.{
  total, scheduled, Effect, quiet, marks, step-Effect,
}
use google_in_a_day_crawler.Crawler.System.Start.{Initial}
use google_in_a_day_crawler.Crawler.System.Starting.{scheduled-started}
use google_in_a_day_crawler.Crawler.System.Once.{has_url, total-has_url, IsUnlimited}
use google_in_a_day_crawler.Crawler.System.Runs.{Run, ended_quiet, all_held-busy}

-- As long as the context is not cancelled, nothing that was scheduled is dropped.
abbrev IsHolding : (CrawlTask → ℕ) → ℕ → Sys → Type 0
IsHolding f n s = s.cancelled ≡ false → n ≤ scheduled f s

Effect-IsHolding :
    (cfg : Config) (f : CrawlTask → ℕ) (n : ℕ) (s t : Sys)
    → url_limit_reached cfg s ≡ false
    → Effect cfg f s t
    → IsHolding f n s
    → IsHolding f n t
Effect-IsHolding cfg f n s t free (quiet v le c eq) h = λ e. omega (arith, eq free e, h (c e))
Effect-IsHolding cfg f n s t free (marks batch v c eq) h = λ e. ground (arith, eq, h)

module _ (u : Unicode) (net : Net) (wcfg : WorkerConfig) (cfg : Config)
    (queue_size num_workers : ℕ) where
  Reach-IsHolding :
      (f : CrawlTask → ℕ) (n : ℕ) {s t : Sys}
      → IsUnlimited cfg
      → IsHolding f n s
      → Reach u net wcfg cfg queue_size num_workers s t
      → IsHolding f n t
  unfolding url_limit_reached
  Reach-IsHolding f n free h here = h
  Reach-IsHolding f n free h (next {t = m} {v = v} r st) =
      Effect-IsHolding cfg f n m v (free m.indexer.pages_processed)
        (step-Effect u net wcfg cfg queue_size num_workers f st) (Reach-IsHolding f n free h r)

  -- What a run without a limit begins with is fetched when it ends without a cancellation.
  pub queue_fetched :
      (queued : ℕ) (init : Initial) (rows : Option SessionRows) (indexer : Indexer) (t : Sys)
      (k : Text)
      → IsUnlimited cfg
      → Run u net wcfg cfg queue_size num_workers queued init rows indexer t
      → t.at ≡ finished
      → t.cancelled ≡ false
      → count k (task_urls init.queue) ≤ count k (task_urls t.fetched)
  unfolding scheduled total
  queue_fetched queued init rows indexer t k free r e c =
      let quiet =
        ended_quiet u net wcfg cfg queue_size num_workers queued init rows indexer t r
          (ground arith) in
      ground (
        arith,
        Reach-IsHolding (has_url k) (total (has_url k) init.queue) free
            (λ _. omega (
              arith,
              scheduled-started cfg queue_size num_workers queued init rows indexer (has_url k),
            ))
            r c,
        quiet.0,
        all_held-busy (has_url k) t.workers quiet.2,
        total-has_url k t.fetched,
        total-has_url k init.queue,
      )
