-- ===== src/Crawler/System/Runs.antt =====
-- Whole runs of `Start` (internal/crawler/crawler.go) from its initial state.
use google_in_a_day_crawler.Base.{
  ◌||◌, contains-count, ap, ◌≢◌, ◌∙◌, ℕ, suc, ◌≤◌, ◌≡◌, refl, true, false, List, [], ◌∷◌, arith,
  Text, count, contains, Distinct, All, ◌≤ℤ◌, length, max, pos, Option, none,
}
use google_in_a_day_crawler.Tokens.{Unicode}
use google_in_a_day_crawler.Worker.{CrawlTask, WorkerConfig, Net}
use google_in_a_day_crawler.Crawler.{
  Config, task_urls, seeds, seed_queue, seed_task, mark_all, mark,
}
use google_in_a_day_crawler.Crawler.Indexer.{Indexer}
use google_in_a_day_crawler.Crawler.Marking.{one_if}
use google_in_a_day_crawler.Crawler.System.Steps.{Reach}
use google_in_a_day_crawler.Crawler.System.Start.{Initial, initial, started}
use google_in_a_day_crawler.Crawler.System.{Sys, SessionRows, WorkerState, finished}
use google_in_a_day_crawler.Crawler.System.Scheduling.{total, held, all_held, scheduled}
use google_in_a_day_crawler.Crawler.System.Counting.{busy, is_busy, on_the_way, Reach-IsCounted}
use google_in_a_day_crawler.Crawler.System.Once.{
  IsUnlimited, has_url, total-has_url, Reach-AtMostOnce, Reach-IsExact,
}
use google_in_a_day_crawler.Crawler.System.Bounds.{
  too_deep, total-too_deep, All-of-total, one, total-one, Reach-too_deep, Reach-IsWithin,
}
use google_in_a_day_crawler.Crawler.System.Ending.{ended, Reach-EndsAtZero}
use google_in_a_day_crawler.Crawler.System.Starting.{
  scheduled-started, started-IsCounted, started-EndsAtZero,
}

-- What a crawl may begin with: each URL of the queue stands there once and is in the visited set.
abbrev pub IsFit : Initial → Type 0
IsFit init = (k : Text) → count k (task_urls init.queue) ≤ one_if (contains k init.visited)

count-fetched : (k : Text) (s : Sys) → count k (task_urls s.fetched) ≤ scheduled (has_url k) s
unfolding scheduled
count-fetched k s = omega (arith, total-has_url k s.fetched)

module _ (u : Unicode) (net : Net) (wcfg : WorkerConfig) (cfg : Config)
    (queue_size num_workers queued : ℕ) (init : Initial) (rows : Option SessionRows)
    (indexer : Indexer) where
  abbrev pub Run : Sys → Type 0
  Run t =
      Reach u net wcfg cfg queue_size num_workers
        (started cfg queue_size num_workers init queued rows indexer) t

  -- At every point of a run inFlight is the number of tasks in taskCh, with a worker that has not
  -- yet sent its batch, or as a batch in discoveredCh; it is at least 1 whenever a batch waits
  -- there.
  pub in_flight_counts :
      (t : Sys) → Run t → (t.in_flight ≡ on_the_way t) × (t.discovered_ch ≢ [] → 1 ≤ t.in_flight)
  unfolding on_the_way
  in_flight_counts t r =
      let counted =
        Reach-IsCounted u net wcfg cfg queue_size num_workers
          (started-IsCounted cfg queue_size num_workers queued init rows indexer) r in
      (counted, λ h. ground arith)

  -- When the coordinator is done, after its loop or after the drain that follows a cancellation, no
  -- task is left in `taskCh`, no batch in `discoveredCh`, and no worker holds a task.
  pub ended_quiet :
      (t : Sys)
      → Run t
      → ended t.at ≡ true
      → (t.task_ch ≡ []) × (t.discovered_ch ≡ []) × (busy t.workers ≡ 0)
  unfolding on_the_way
  ended_quiet t r e =
      let counted =
        Reach-IsCounted u net wcfg cfg queue_size num_workers
          (started-IsCounted cfg queue_size num_workers queued init rows indexer) r in
      let zero =
        Reach-EndsAtZero u net wcfg cfg queue_size num_workers
          (started-EndsAtZero cfg queue_size num_workers queued init rows indexer) r in
      (
        ground (arith, zero.zero_at_end e),
        ground (arith, zero.zero_at_end e),
        ground (arith, zero.zero_at_end e),
      )

  -- No run fetches a URL twice, nor a URL that is not in the visited set, whatever the order of the
  -- turns, if the crawl begins with a queue of different URLs that are all marked.
  pub fetched_once :
      (t : Sys) (k : Text)
      → IsFit init
      → Run t
      → count k (task_urls t.fetched) ≤ one_if (contains k t.visited)
  unfolding started
  fetched_once t k fit r = omega (
    arith,
    count-fetched k t,
    Reach-AtMostOnce u net wcfg cfg queue_size num_workers k
        (omega (
          arith,
          scheduled-started cfg queue_size num_workers queued init rows indexer (has_url k),
          total-has_url k init.queue,
          fit k,
        ))
        r,
  )

  -- No run fetches a page deeper than the maximal depth, if no task of the initial queue is deeper.
  pub fetched_depths :
      (t : Sys)
      → All (λ task. task.depth ≤ℤ cfg.max_depth) init.queue
      → Run t
      → All (λ task. task.depth ≤ℤ cfg.max_depth) t.fetched
  unfolding scheduled
  fetched_depths t h r = All-of-total cfg t.fetched (
      omega (
        arith,
        Reach-too_deep u net wcfg cfg queue_size num_workers
            (scheduled-started cfg queue_size num_workers queued init rows indexer (too_deep cfg)
              ∙ total-too_deep cfg init.queue h)
            r,
      ))

  -- If the initial queue is no longer than the initial visited set, no run with a positive limit fetches
  -- more pages than the limit allows, or than the visited set had members at the start, if that is more.
  pub fetched_limit :
      (t : Sys) (n : ℕ)
      → cfg.max_urls ≡ pos (suc n)
      → length init.queue ≤ length init.visited
      → Run t
      → length t.fetched ≤ max (suc n) (length init.visited)
  unfolding scheduled started
  fetched_limit t n e h r =
      let w =
        Reach-IsWithin u net wcfg cfg queue_size num_workers n (length init.visited) e
          (record {
            marked = omega (
              arith,
              scheduled-started cfg queue_size num_workers queued init rows indexer one,
              total-one init.queue,
            );
            limited = omega arith;
          })
          r in
      omega (arith, w.marked, w.limited, total-one t.fetched)

pub contains-mark_all :
    (k : Text) (ss visited : List Text)
    → contains k (mark_all ss visited) ≡ (contains k visited || contains k ss)
unfolding mark_all mark contains
contains-mark_all k [] visited = ground arith
contains-mark_all k (s ∷ ss) visited =
    ground (arith, contains-mark_all k ss visited, contains-mark_all k ss (s ∷ visited))

urls-seed_queue : (ss : List Text) → task_urls (seed_queue ss) ≡ ss
unfolding seed_queue seed_task
urls-seed_queue [] = refl
urls-seed_queue (s ∷ ss) = ap (◌∷◌ s) (urls-seed_queue ss)

count-Distinct : (k : Text) (ss : List Text) → Distinct ss → count k ss ≡ one_if (contains k ss)
unfolding count contains
count-Distinct k [] d = refl
count-Distinct k (s ∷ ss) d = ground (arith, count-Distinct k ss d.1, contains-count k ss)

abbrev pub fresh : Config → Initial
fresh cfg = initial cfg none

pub count-fresh :
    (cfg : Config) (k : Text)
    → Distinct (seeds cfg)
    → count k (task_urls (fresh cfg).queue) ≡ one_if (contains k (fresh cfg).visited)
unfolding initial
count-fresh cfg k d =
    rw (urls-seed_queue (seeds cfg), contains-mark_all k (seeds cfg) [])
      (unfold contains in count-Distinct k (seeds cfg) d)

pub fresh-IsFit : (cfg : Config) → Distinct (seeds cfg) → IsFit (fresh cfg)
fresh-IsFit cfg d k = omega (arith, count-fresh cfg k d)

pub all_held-busy : (f : CrawlTask → ℕ) (ws : List WorkerState) → busy ws ≡ 0 → all_held f ws ≡ 0
unfolding busy is_busy all_held held
all_held-busy f [] h = refl
all_held-busy f (w ∷ ws) h = ground (arith, all_held-busy f ws)

-- A fresh crawl from different seeds that ends without a cancellation and has no limit on the number
-- of URLs has fetched every URL of its visited set, and each exactly once.
pub fetched_all :
    (u : Unicode) (net : Net) (wcfg : WorkerConfig) (cfg : Config)
    (queue_size num_workers queued : ℕ) (rows : Option SessionRows) (indexer : Indexer) (t : Sys)
    (k : Text)
    → Distinct (seeds cfg)
    → IsUnlimited cfg
    → Run u net wcfg cfg queue_size num_workers queued (fresh cfg) rows indexer t
    → t.at ≡ finished
    → t.cancelled ≡ false
    → count k (task_urls t.fetched) ≡ one_if (contains k t.visited)
unfolding scheduled started total
fetched_all u net wcfg cfg queue_size num_workers queued rows indexer t k d free r e c =
    let exact =
      Reach-IsExact u net wcfg cfg queue_size num_workers k free
        (λ _.
          scheduled-started cfg queue_size num_workers queued (fresh cfg) rows indexer (has_url k)
          ∙ total-has_url k (fresh cfg).queue
          ∙ count-fresh cfg k d)
        r c in
    let quiet =
      ended_quiet u net wcfg cfg queue_size num_workers queued (fresh cfg) rows indexer t r
        (ground arith) in
    ground (
      arith,
      exact,
      quiet.0,
      all_held-busy (has_url k) t.workers quiet.2,
      total-has_url k t.fetched,
    )
