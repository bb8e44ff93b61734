-- ===== src/Crawler/System/Sample.antt =====
-- Two whole runs of internal/crawler/crawler.go for the examples: a seed, one worker, and a server that
-- does not answer; once to the end, and once stopped before the fetch.
use google_in_a_day_crawler.Base.{
  inl, arith, refl, [], ◌∷◌, codes, none, pos, false, true, contains, some,
}
use google_in_a_day_crawler.Tokens.Ascii.{ascii}
use google_in_a_day_crawler.Worker.{
  do_request, CrawlTask, Net, WorkerConfig, no_response, process_page, fetch_page, failed_record,
  new_tasks,
}
use google_in_a_day_crawler.Index.{new_index}
use google_in_a_day_crawler.Crawler.{
  Config, seeds, seed_queue, seed_task, mark_all, mark, deduplicate_and_mark, limit_met,
}
use google_in_a_day_crawler.Crawler.Indexer.{Indexer}
use google_in_a_day_crawler.Crawler.System.{
  finish, end_enqueue, on_batch_direct, url_limit_reached, enter_select, is_empty, goes_on, Sys,
  finished, SessionRows, interrupted, start_drain, drain_batch, end_drain, flush_visited,
  save_tasks, replace_queue,
}
use google_in_a_day_crawler.Crawler.System.Steps.{Step, here, next}
use google_in_a_day_crawler.Crawler.System.Start.{idle_workers, enqueue_initial, initial, started}
use google_in_a_day_crawler.Crawler.System.Runs.{Run, fresh}
use google_in_a_day_crawler.Crawler.System.Keeping.{IsPrompt, is_prompt}
use google_in_a_day_crawler.Crawler.System.Saving.{IsWritten, is_written}
use google_in_a_day_crawler.Crawler.System.Stopping.{StoredRun}

abbrev pub no_net : Net
no_net = record {
  parse = λ s. none;
  resolve_reference = λ base ref. ref;
  print = λ url. url.path;
  parse_page = λ s. none;
}

abbrev pub plain_workers : WorkerConfig
plain_workers = record {
  max_body_size = pos 100;
  same_domain = false;
  seed_host = [];
  seed_hosts = [];
}

abbrev pub one_seed : Config
one_seed = record {
  seed_url = codes "http://a.b";
  seed_urls = [];
  max_depth = pos 2;
  max_urls = pos 0;
  num_workers = pos 1;
  queue_size = pos 1;
  max_body_size = pos 1_048_576;
  same_domain = false;
}

abbrev pub empty_indexer : Indexer
unfolding new_index
empty_indexer = record {
  index = new_index;
  pending = [];
  table = none;
  pdata = none;
  pages_processed = 0;
  pages_errored = 0;
  indexed_docs = 0;
}

abbrev pub seed : CrawlTask
seed = record { url = codes "http://a.b"; origin_url = []; depth = pos 0 }

-- The worker fetches the seed, the batch without tasks comes back, and the loop ends.

unfoldable pub last : Sys
unfolding started seeds seed_queue seed_task mark_all mark contains initial
last = record (started one_seed 1 1 (fresh one_seed) 0 none empty_indexer) {
  at = finished;
  closed = true;
  task_ch = [];
  in_flight = 0;
  results_ch = failed_record seed 0 do_request ∷ [];
  fetched = seed ∷ [];
  queue_depth = 0;
}

pub whole-Run :
    Run ascii no_net plain_workers one_seed 1 1 0 (fresh one_seed) none empty_indexer last
unfolding started seeds seed_queue seed_task mark_all mark contains initial enqueue_initial
    idle_workers last new_tasks process_page fetch_page failed_record goes_on is_empty enter_select
    url_limit_reached limit_met on_batch_direct deduplicate_and_mark end_enqueue finish
whole-Run =
    next
      (next
        (next
          (next
            (next
              (next
                (next
                  (next (next here (Step.take [] [] seed [] refl refl refl))
                    (Step.start_fetch [] [] seed refl refl refl))
                  (Step.end_fetch [] [] seed no_response refl refl))
                (Step.send_record [] [] seed _ refl (omega arith) refl))
              (Step.send_batch [] [] [] refl (omega arith) refl))
            (Step.head refl refl (inl refl) refl))
          (Step.select_direct refl [] [] refl refl refl))
        (Step.enqueue_end refl refl))
      (Step.head_end refl refl true true refl)

abbrev pub no_rows : SessionRows
no_rows = record { queue = []; visited = [] }

-- The worker hands the seed back, and the drain saves it.

unfoldable pub stopped_at : Sys
unfolding started seeds seed_queue seed_task mark_all mark contains initial
stopped_at = record (started one_seed 1 1 (fresh one_seed) 0 (some no_rows) empty_indexer) {
  cancelled = true;
  closed = true;
  task_ch = [];
  in_flight = 0;
  at = interrupted;
  overflow = seed ∷ [];
  rows = some (record { queue = seed ∷ []; visited = [] });
}

unfoldable pub stopped-StoredRun :
    StoredRun ascii no_net plain_workers one_seed 1 1 0 no_rows empty_indexer stopped_at
unfolding started seeds seed_queue seed_task mark_all mark contains initial enqueue_initial
    idle_workers stopped_at goes_on is_empty enter_select url_limit_reached limit_met start_drain
    drain_batch end_drain flush_visited save_tasks replace_queue
stopped-StoredRun =
    next
      (next
        (next
          (next
            (next
              (next (next (next here (Step.take [] [] seed [] refl refl refl)) (Step.cancel refl))
                (Step.give_back [] [] seed refl refl refl))
              (Step.head refl refl (inl refl) refl))
            (Step.select_cancel false refl refl refl))
          (Step.send_batch [] [] (seed ∷ []) refl (omega arith) refl))
        (Step.drain_one refl (seed ∷ []) [] (omega arith) refl refl))
      (Step.drain_end refl refl true true refl)

pub stopped-IsPrompt : IsPrompt ascii no_net plain_workers one_seed 1 1 stopped-StoredRun
unfolding IsPrompt is_prompt stopped-StoredRun
stopped-IsPrompt = ground arith

pub stopped-IsWritten : IsWritten ascii no_net plain_workers one_seed 1 1 stopped-StoredRun
unfolding IsWritten is_written stopped-StoredRun
stopped-IsWritten = ground arith
