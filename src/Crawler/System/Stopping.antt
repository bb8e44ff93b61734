-- ===== src/Crawler/System/Stopping.antt =====
-- What is left of a whole crawl that is stopped (internal/crawler/crawler.go): its fetched pages and the
-- rows from which it can be resumed.
mod Examples
use google_in_a_day_crawler.Base.{
  Bool, true, false, ◌||◌, ◌≢◌, ℕ, ◌+◌, ◌≤◌, ◌≡◌, refl, List, [], ◌∷◌, arith, Text, contains, count,
  length, Option, none, some, Distinct,
}
use google_in_a_day_crawler.Tokens.{Unicode}
use google_in_a_day_crawler.Worker.{CrawlTask, WorkerConfig, Net}
use google_in_a_day_crawler.Crawler.{Config, task_urls, seeds}
use google_in_a_day_crawler.Crawler.Marking.{one_if}
use google_in_a_day_crawler.Crawler.Indexer.{Indexer}
use google_in_a_day_crawler.Crawler.System.{
  Sys, SessionRows, interrupted, WorkerState, idle, received, fetching, sending_record,
  sending_batch, exited,
}
use google_in_a_day_crawler.Crawler.System.Scheduling.{total, scheduled}
use google_in_a_day_crawler.Crawler.System.Start.{started, initial}
use google_in_a_day_crawler.Crawler.System.Starting.{scheduled-started}
use google_in_a_day_crawler.Crawler.System.Ending.{ended}
use google_in_a_day_crawler.Crawler.System.Counting.{busy, is_busy}
use google_in_a_day_crawler.Crawler.System.Once.{has_url, total-has_url, IsUnlimited, IsExact}
use google_in_a_day_crawler.Crawler.System.Runs.{
  Run, fresh, ended_quiet, count-fresh, contains-mark_all,
}
use google_in_a_day_crawler.Crawler.System.Keeping.{
  kept, all_carried, carried, batched, IsPrompt, Reach-kept, scheduled-kept,
}
use google_in_a_day_crawler.Crawler.System.Aborting.{completed, aborted}
use google_in_a_day_crawler.Crawler.System.Fetched.{run-completed, length-aborted}
use google_in_a_day_crawler.Crawler.System.Saving.{IsWritten, Reach-IsSaved}
use google_in_a_day_crawler.Crawler.System.Noting.{saved_queue, saved_visited, noted, IsSaved}

carried-busy : (f : CrawlTask → ℕ) (ws : List WorkerState) → busy ws ≡ 0 → all_carried f ws ≡ 0
unfolding busy is_busy all_carried carried
carried-busy f [] h = refl
carried-busy f (w ∷ ws) h = ground (arith, carried-busy f ws)

module _ (u : Unicode) (net : Net) (wcfg : WorkerConfig) (cfg : Config)
    (queue_size num_workers queued : ℕ) (rows : SessionRows) (indexer : Indexer) where
  -- A run of a fresh crawl with a database.
  abbrev pub StoredRun : Sys → Type 0
  StoredRun = Run u net wcfg cfg queue_size num_workers queued (fresh cfg) (some rows) indexer

  abbrev start : Sys
  start = started cfg queue_size num_workers (fresh cfg) queued (some rows) indexer

  start-IsExact :
      (k : Text)
      → Distinct (seeds cfg)
      → scheduled (has_url k) start ≡ one_if (contains k start.visited)
  unfolding started
  start-IsExact k d = omega (
    arith,
    scheduled-started cfg queue_size num_workers queued (fresh cfg) (some rows) indexer (has_url k),
    total-has_url k (fresh cfg).queue,
    count-fresh cfg k d,
  )

  start-IsSaved : (k : Text) → IsSaved k (contains k (fresh cfg).visited) start
  unfolding started noted saved_visited saved_queue
  start-IsSaved k = record {
    has_rows = ground arith;
    marks_noted = λ e. ground (arith, e);
    queue_saved = λ e. ground (arith, e);
    flushed = λ e. ground (arith, e);
  }

  -- Each URL of the visited set was taken up by a worker or stands in the saved queue, and is a seed or
  -- stands in the saved visited set.
  pub stop_keeps_tasks :
      (t : Sys) (k : Text)
      → Distinct (seeds cfg)
      → IsUnlimited cfg
      → (r : StoredRun t) → IsPrompt u net wcfg cfg queue_size num_workers r
      → IsWritten u net wcfg cfg queue_size num_workers r
      → t.at ≡ interrupted
      → contains k t.visited ≡ true
      → (1 ≤ count k (task_urls t.fetched) + count k (task_urls (saved_queue t)))
        × ((contains k (seeds cfg) || contains k (saved_visited t)) ≡ true)
  unfolding kept total batched noted initial started contains
  stop_keeps_tasks t k d free r p w e v =
      let exact = start-IsExact k d in
      let quiet =
        ended_quiet u net wcfg cfg queue_size num_workers queued (fresh cfg) (some rows) indexer t r
          (ground (arith, e)) in
      let saved =
        Reach-IsSaved u net wcfg cfg queue_size num_workers k (contains k (fresh cfg).visited)
          (start-IsSaved k) r w in
      let all_kept =
        Reach-kept u net wcfg cfg queue_size num_workers k free (λ c. exact)
          (omega (arith, exact, scheduled-kept (has_url k) start)) r p in
      (
        ground (
          arith,
          all_kept,
          v,
          e,
          quiet,
          saved.queue_saved e,
          carried-busy (has_url k) t.workers quiet.2,
          total-has_url k t.fetched,
          total-has_url k t.overflow,
        ),
        ground (
          arith,
          saved.marks_noted v,
          saved.flushed (ground (arith, e)),
          contains-mark_all k (seeds cfg) [],
        ),
      )

  -- What is left of a fresh crawl from different seeds, with a database and without a limit, that is
  -- stopped: each URL of its visited set was fetched to the end of its fetch before the context was
  -- cancelled, or its fetch was on its way when that happened and was aborted, or it stands in the saved
  -- queue; each is a seed or stands in the saved visited set; and no more fetches were on their way than
  -- there are workers. This holds if the crawl's writes succeed, and if the coordinator, once the context
  -- is cancelled, notices that before it takes another batch.
  pub stop_keeps_rest :
      (t : Sys) (k : Text)
      → Distinct (seeds cfg)
      → IsUnlimited cfg
      → (r : StoredRun t) → IsPrompt u net wcfg cfg queue_size num_workers r
      → IsWritten u net wcfg cfg queue_size num_workers r
      → t.at ≡ interrupted
      → contains k t.visited ≡ true
      → (1
          ≤ count k (task_urls (completed u net wcfg cfg queue_size num_workers r))
            + count k (task_urls (aborted u net wcfg cfg queue_size num_workers r))
            + count k (task_urls (saved_queue t)))
        × ((contains k (seeds cfg) || contains k (saved_visited t)) ≡ true)
        × (length (aborted u net wcfg cfg queue_size num_workers r) ≤ num_workers)
  stop_keeps_rest t k d free r p w e v =
      let kept_all = stop_keeps_tasks t k d free r p w e v in
      let quiet =
        ended_quiet u net wcfg cfg queue_size num_workers queued (fresh cfg) (some rows) indexer t r
          (ground (arith, e)) in
      let fetches =
        run-completed u net wcfg cfg queue_size num_workers queued (fresh cfg) (some rows) indexer k
          r quiet.2 in
      (
        omega (arith, kept_all.0, fetches),
        kept_all.1,
        length-aborted u net wcfg cfg queue_size num_workers queued (fresh cfg) (some rows) indexer
            r,
      )
