-- ===== src/Crawler/System/Fetched.antt =====
-- The fetched pages of a whole run of `Start` (internal/crawler/crawler.go): those of its completed fetches
-- and those of the aborted ones.
use google_in_a_day_crawler.Base.{
  ℕ, zero, suc, ◌+◌, ◌≤◌, ◌≡◌, refl, List, [], ◌∷◌, arith, Text, count, length, Option, false,
}
use google_in_a_day_crawler.Tokens.{Unicode}
use google_in_a_day_crawler.Worker.{CrawlTask, WorkerConfig, Net}
use google_in_a_day_crawler.Crawler.{Config, task_urls}
use google_in_a_day_crawler.Crawler.Indexer.{Indexer}
use google_in_a_day_crawler.Crawler.System.{Sys, SessionRows, WorkerState}
use google_in_a_day_crawler.Crawler.System.Scheduling.{total}
use google_in_a_day_crawler.Crawler.System.Start.{started, Initial, idle_workers}
use google_in_a_day_crawler.Crawler.System.Counting.{busy, is_busy}
use google_in_a_day_crawler.Crawler.System.Once.{has_url, total-has_url}
use google_in_a_day_crawler.Crawler.System.Live.{Reach-IsLive}
use google_in_a_day_crawler.Crawler.System.Outcome.{started-IsLive}
use google_in_a_day_crawler.Crawler.System.Runs.{Run}
use google_in_a_day_crawler.Crawler.System.Aborting.{
  AbortFits, under_way, under_way-one, completed, aborted, fetched-completed, Reach-AbortFits,
}

under_way-idle_workers : (f : CrawlTask → ℕ) (n : ℕ) → under_way f (idle_workers n) ≡ 0
unfolding idle_workers under_way
under_way-idle_workers f zero = refl
under_way-idle_workers f (suc n) = under_way-idle_workers f n

under_way-busy : (f : CrawlTask → ℕ) (ws : List WorkerState) → busy ws ≡ 0 → under_way f ws ≡ 0
unfolding busy is_busy under_way
under_way-busy f [] h = refl
under_way-busy f (w ∷ ws) h = ground (arith, under_way-busy f ws)

module _ (u : Unicode) (net : Net) (wcfg : WorkerConfig) (cfg : Config)
    (queue_size num_workers queued : ℕ) (init : Initial) (rows : Option SessionRows)
    (indexer : Indexer) where
  pub run-completed :
      (k : Text) {t : Sys}
      (r : Run u net wcfg cfg queue_size num_workers queued init rows indexer t)
      → busy t.workers ≡ 0
      → count k (task_urls t.fetched)
        ≡ count k (task_urls (completed u net wcfg cfg queue_size num_workers r))
          + count k (task_urls (aborted u net wcfg cfg queue_size num_workers r))
  unfolding started total
  run-completed k {t} r b = omega (
    arith,
    fetched-completed u net wcfg cfg queue_size num_workers (has_url k) r,
    under_way-idle_workers (has_url k) num_workers,
    under_way-busy (has_url k) t.workers b,
    total-has_url k t.fetched,
    total-has_url k (completed u net wcfg cfg queue_size num_workers r),
    total-has_url k (aborted u net wcfg cfg queue_size num_workers r),
  )

  run-AbortFits :
      {t : Sys} (r : Run u net wcfg cfg queue_size num_workers queued init rows indexer t)
      → AbortFits (length (aborted u net wcfg cfg queue_size num_workers r)) t
  unfolding started
  run-AbortFits r = Reach-AbortFits u net wcfg cfg queue_size num_workers r (record {
    none_before = λ c. refl;
    fits = omega (arith, under_way-one (idle_workers num_workers));
  })

  pub length-aborted :
      {t : Sys} (r : Run u net wcfg cfg queue_size num_workers queued init rows indexer t)
      → length (aborted u net wcfg cfg queue_size num_workers r) ≤ num_workers
  length-aborted {t} r =
      let fits = run-AbortFits r in
      let live =
        Reach-IsLive u net wcfg cfg queue_size num_workers
          (started-IsLive u net wcfg cfg queue_size num_workers queued init rows indexer) r in
      omega (arith, fits.fits, live.staffed)

  none_if_empty : (k : Text) (ts : List CrawlTask) → length ts ≡ 0 → count k (task_urls ts) ≡ 0
  unfolding count
  none_if_empty k [] h = refl
  none_if_empty k (t ∷ ts) h = ground (arith, h)

  -- Without a cancellation no fetch is aborted.
  pub run-none_aborted :
      (k : Text) {t : Sys}
      (r : Run u net wcfg cfg queue_size num_workers queued init rows indexer t)
      → t.cancelled ≡ false
      → count k (task_urls (aborted u net wcfg cfg queue_size num_workers r)) ≡ 0
  run-none_aborted k r c = none_if_empty k _ ((run-AbortFits r).none_before c)
