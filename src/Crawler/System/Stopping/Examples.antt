-- ===== src/Crawler/System/Stopping/Examples.antt =====
-- A crawl that is stopped before its seed is fetched, and a witness.
use google_in_a_day_crawler.Crawler.System.Sample.{
  no_net, plain_workers, one_seed, empty_indexer, no_rows, stopped_at, stopped-StoredRun,
  stopped-IsPrompt, stopped-IsWritten,
}
use google_in_a_day_crawler.Base.{
  ◌≡◌, ◌≤◌, ◌+◌, ◌||◌, refl, [], ◌∷◌, codes, none, some, pos, false, true, inl, Distinct, count,
  contains, arith, length,
}
use google_in_a_day_crawler.Tokens.Ascii.{ascii}
use google_in_a_day_crawler.Crawler.{
  task_urls, seeds, seed_queue, seed_task, mark_all, mark, limit_met,
}
use google_in_a_day_crawler.Crawler.System.Start.{initial, started}
use google_in_a_day_crawler.Crawler.System.Noting.{saved_queue, saved_visited}
use google_in_a_day_crawler.Crawler.System.Stopping.{stop_keeps_rest}
use google_in_a_day_crawler.Crawler.System.Aborting.{completed, aborted}

one_seed-Distinct : Distinct (seeds one_seed)
unfolding seeds contains
one_seed-Distinct = (refl, tt)

stop_keeps_rest_example :
    (1
      ≤ count
          (codes "http://a.b")
          (task_urls (completed ascii no_net plain_workers one_seed 1 1 stopped-StoredRun))
        + count
            (codes "http://a.b")
            (task_urls (aborted ascii no_net plain_workers one_seed 1 1 stopped-StoredRun))
        + count (codes "http://a.b") (task_urls (saved_queue stopped_at)))
    × ((contains (codes "http://a.b") (seeds one_seed)
          || contains (codes "http://a.b") (saved_visited stopped_at))
        ≡ true)
    × (length (aborted ascii no_net plain_workers one_seed 1 1 stopped-StoredRun) ≤ 1)
unfolding stopped_at limit_met started initial seeds seed_queue seed_task mark_all mark contains
    google_in_a_day_crawler.Base.Text_discrete
stop_keeps_rest_example =
    stop_keeps_rest ascii no_net plain_workers one_seed 1 1 0 no_rows empty_indexer stopped_at
      (codes "http://a.b") one_seed-Distinct (λ n. refl) stopped-StoredRun stopped-IsPrompt
      stopped-IsWritten refl refl
