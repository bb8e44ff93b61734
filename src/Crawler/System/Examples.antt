-- ===== src/Crawler/System/Examples.antt =====
-- One whole run of internal/crawler/crawler.go: a seed, one worker, and a server that does not answer.
use google_in_a_day_crawler.Crawler.System.Sample.{
  no_net, plain_workers, one_seed, empty_indexer, seed, last, whole-Run,
}
use google_in_a_day_crawler.Crawler.System.Effort.{works, ticks}
use google_in_a_day_crawler.Crawler.System.Progress.{IsOver, Work}
use google_in_a_day_crawler.Crawler.System.Outcome.{never_stuck, turns_bounded}
use google_in_a_day_crawler.Base.{
  ◌⊎◌, ◌*◌, ◌+◌, ◌≢◌, max, ◌≤ℤ◌, arith, ◌≡◌, refl, [], ◌∷◌, codes, none, pos, All, Distinct, count,
  contains, length, ◌≤◌,
}
use google_in_a_day_crawler.Tokens.Ascii.{ascii}
use google_in_a_day_crawler.Crawler.System.Counting.{on_the_way, busy}
use google_in_a_day_crawler.Crawler.{
  Config, task_urls, seeds, seed_queue, seed_task, mark_all, mark, limit_met,
}
use google_in_a_day_crawler.Crawler.Marking.{one_if}
use google_in_a_day_crawler.Crawler.System.{fetching, Sys}
use google_in_a_day_crawler.Crawler.System.Steps.{Step, here, next}
use google_in_a_day_crawler.Crawler.System.Start.{idle_workers, enqueue_initial, initial, started}
use google_in_a_day_crawler.Crawler.System.Runs.{
  Run, fresh, fetched_all, fetched_once, fetched_depths, fetched_limit, ended_quiet,
  in_flight_counts, fresh-IsFit,
}

started_at_seed : All (λ task. task.depth ≤ℤ one_seed.max_depth) (fresh one_seed).queue
unfolding initial seeds seed_queue seed_task
started_at_seed = omega arith

one_seed-Distinct : Distinct (seeds one_seed)
unfolding seeds contains
one_seed-Distinct = (refl, tt)

in_flight_counts_example :
    (last.in_flight ≡ on_the_way last) × (last.discovered_ch ≢ [] → 1 ≤ last.in_flight)
in_flight_counts_example =
    in_flight_counts ascii no_net plain_workers one_seed 1 1 0 (fresh one_seed) none empty_indexer
      last whole-Run

ended_quiet_example : (last.task_ch ≡ []) × (last.discovered_ch ≡ []) × (busy last.workers ≡ 0)
unfolding last
ended_quiet_example =
    ended_quiet ascii no_net plain_workers one_seed 1 1 0 (fresh one_seed) none empty_indexer last
      whole-Run refl

fetched_once_example :
    count (codes "http://a.b") (task_urls last.fetched)
    ≤ one_if (contains (codes "http://a.b") last.visited)
fetched_once_example =
    fetched_once ascii no_net plain_workers one_seed 1 1 0 (fresh one_seed) none empty_indexer last
      (codes "http://a.b") (fresh-IsFit one_seed one_seed-Distinct) whole-Run

fetched_depths_example : All (λ task. task.depth ≤ℤ one_seed.max_depth) last.fetched
fetched_depths_example =
    fetched_depths ascii no_net plain_workers one_seed 1 1 0 (fresh one_seed) none empty_indexer
      last started_at_seed whole-Run

fetched_all_example :
    count (codes "http://a.b") (task_urls last.fetched)
    ≡ one_if (contains (codes "http://a.b") last.visited)
unfolding last limit_met
fetched_all_example =
    fetched_all ascii no_net plain_workers one_seed 1 1 0 none empty_indexer last
      (codes "http://a.b") one_seed-Distinct (λ n. refl) whole-Run refl refl

-- The same seed with a limit of one URL, up to the fetch.
abbrev limited : Config
limited = record one_seed { max_urls = pos 1 }

fetching_seed : Sys
unfolding started seeds seed_queue seed_task mark_all mark contains initial
fetching_seed = record (started limited 1 1 (fresh limited) 0 none empty_indexer) {
  task_ch = [];
  workers = fetching seed ∷ [];
  fetched = seed ∷ [];
}

short-Run :
    Run ascii no_net plain_workers limited 1 1 0 (fresh limited) none empty_indexer fetching_seed
unfolding fetching_seed started seeds seed_queue seed_task mark_all mark contains initial
    enqueue_initial idle_workers
short-Run =
    next (next here (Step.take [] [] seed [] refl refl refl))
      (Step.start_fetch [] [] seed refl refl refl)

fetched_limit_example : length fetching_seed.fetched ≤ max 1 (length (fresh limited).visited)
unfolding initial seeds seed_queue seed_task mark_all mark contains
fetched_limit_example =
    fetched_limit ascii no_net plain_workers limited 1 1 0 (fresh limited) none empty_indexer
      fetching_seed 0 refl (omega arith) short-Run

never_stuck_example :
    IsOver fetching_seed ⊎ Work ascii no_net plain_workers limited 1 1 fetching_seed
never_stuck_example =
    never_stuck ascii no_net plain_workers limited 1 1 0 (fresh limited) none empty_indexer
      fetching_seed (omega arith) short-Run

turns_bounded_example :
    works ascii no_net plain_workers limited 1 1 0 refl short-Run
      + ticks ascii no_net plain_workers limited 1 1 0 refl short-Run
    ≤ 12 * 1
      + 11 * length (fresh limited).queue
      + 1
      + 3
      + 2 * ticks ascii no_net plain_workers limited 1 1 0 refl short-Run
turns_bounded_example =
    turns_bounded ascii no_net plain_workers limited 1 1 0 (fresh limited) none empty_indexer
      fetching_seed 0 refl short-Run
