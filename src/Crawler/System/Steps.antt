-- ===== src/Crawler/System/Steps.antt =====
-- The turns of the transition system: `coordinatorLoop` and the indexer goroutine of
-- internal/crawler/crawler.go, and `workerLoop` of internal/crawler/worker.go.
use google_in_a_day_crawler.Base.{
  Bool, true, false, List, [], ◌∷◌, ◌++◌, ℕ, ◌*◌, ◌<◌, ◌≡◌, ◌≢◌, ◌⊎◌, length,
}
use google_in_a_day_crawler.Tokens.{Unicode}
use google_in_a_day_crawler.Worker.{
  CrawlTask, PageRecord, WorkerConfig, Exchange, Net, process_page, new_tasks,
}
use google_in_a_day_crawler.Crawler.{Config}
use google_in_a_day_crawler.Crawler.Indexer.{Choices, on_record, flush}
use google_in_a_day_crawler.Crawler.System.{
  WorkerState, idle, received, fetching, sending_record, sending_batch, exited, looping, selecting,
  enqueuing, draining, Sys, url_limit_reached, goes_on, finish, enter_select, drop_batch,
  start_drain, room, send_overflow, on_batch_overflow, on_batch_direct, flush_visited, enqueue_next,
  end_enqueue, drain_batch, end_drain,
}

-- One turn. The capacity of `discoveredCh` and of `resultsCh` is twice the number of workers.
module _ (u : Unicode) (net : Net) (wcfg : WorkerConfig) (cfg : Config)
    (queue_size num_workers : ℕ) where
  pub data Step (s t : Sys) : Type 0 where
    -- the context is cancelled from outside
    cancel : t ≡ record s { cancelled = true } → Step s t
    -- workers
    take :
        (ws vs : List WorkerState) (task : CrawlTask) (rest : List CrawlTask)
        → s.workers ≡ ws ++ idle ∷ vs
        → s.task_ch ≡ task ∷ rest
        → t ≡ record s { task_ch = rest; workers = ws ++ received task ∷ vs }
        → Step s t
    give_back :
        (ws vs : List WorkerState) (task : CrawlTask)
        → s.workers ≡ ws ++ received task ∷ vs
        → s.cancelled ≡ true
        → t ≡ record s { workers = ws ++ sending_batch (task ∷ []) ∷ vs }
        → Step s t
    start_fetch :
        (ws vs : List WorkerState) (task : CrawlTask)
        → s.workers ≡ ws ++ received task ∷ vs
        → s.cancelled ≡ false
        → t ≡ record s { workers = ws ++ fetching task ∷ vs; fetched = task ∷ s.fetched }
        → Step s t
    end_fetch :
        (ws vs : List WorkerState) (task : CrawlTask) (exchange : Exchange)
        → s.workers ≡ ws ++ fetching task ∷ vs
        → t ≡ record s {
          workers = ws ++ sending_record task (process_page u net wcfg exchange task) ∷ vs;
        }
        → Step s t
    send_record :
        (ws vs : List WorkerState) (task : CrawlTask) (page : PageRecord)
        → s.workers ≡ ws ++ sending_record task page ∷ vs
        → length s.results_ch < num_workers * 2
        → t ≡ record s {
          results_ch = s.results_ch ++ page ∷ [];
          workers = ws ++ sending_batch (new_tasks task page.links) ∷ vs;
        }
        → Step s t
    send_batch :
        (ws vs : List WorkerState) (batch : List CrawlTask)
        → s.workers ≡ ws ++ sending_batch batch ∷ vs
        → length s.discovered_ch < num_workers * 2
        → t ≡ record s { discovered_ch = s.discovered_ch ++ batch ∷ []; workers = ws ++ idle ∷ vs }
        → Step s t
    exit :
        (ws vs : List WorkerState)
        → s.workers ≡ ws ++ idle ∷ vs
        → s.task_ch ≡ []
        → s.closed ≡ true
        → t ≡ record s { workers = ws ++ exited ∷ vs }
        → Step s t
    -- the indexer
    index_record :
        (choices : Choices) (page : PageRecord) (rest : List PageRecord)
        → s.results_ch ≡ page ∷ rest
        → t ≡ record s { results_ch = rest; indexer = on_record u choices page s.indexer }
        → Step s t
    flush_index :
        (choices : Choices) → t ≡ record s { indexer = flush choices s.indexer } → Step s t
    -- the coordinator at the head of its loop
    head_end :
        s.at ≡ looping
        → goes_on s ≡ false
        → (saved cleared : Bool) → t ≡ finish saved cleared s
        → Step s t
    head_limit :
        s.at ≡ looping
        → goes_on s ≡ true
        → url_limit_reached cfg s ≡ true
        → s.in_flight ≡ 0
        → (saved cleared : Bool) → t ≡ finish saved cleared (record s { overflow = [] })
        → Step s t
    head :
        s.at ≡ looping
        → goes_on s ≡ true
        → ((url_limit_reached cfg s ≡ false) ⊎ (s.in_flight ≢ 0))
        → t ≡ enter_select cfg s
        → Step s t
    -- the two `select` statements
    limit_batch :
        s.at ≡ selecting true
        → (batch : List CrawlTask) (rest : List (List CrawlTask)) → s.discovered_ch ≡ batch ∷ rest
        → t ≡ drop_batch rest s
        → Step s t
    select_cancel :
        (limited : Bool)
        → s.at ≡ selecting limited
        → s.cancelled ≡ true
        → t ≡ start_drain s
        → Step s t
    select_send :
        s.at ≡ selecting false
        → (task : CrawlTask) (rest : List CrawlTask) → s.overflow ≡ task ∷ rest
        → room queue_size s ≡ true
        → t ≡ send_overflow task rest s
        → Step s t
    select_batch :
        s.at ≡ selecting false
        → (batch : List CrawlTask) (rest : List (List CrawlTask)) → s.overflow ≢ []
        → s.discovered_ch ≡ batch ∷ rest
        → t ≡ on_batch_overflow cfg batch rest s
        → Step s t
    select_direct :
        s.at ≡ selecting false
        → (batch : List CrawlTask) (rest : List (List CrawlTask)) → s.overflow ≡ []
        → s.discovered_ch ≡ batch ∷ rest
        → t ≡ on_batch_direct cfg batch rest s
        → Step s t
    select_flush :
        s.at ≡ selecting false
        → (saved : Bool) → t ≡ record (flush_visited saved s) { at = looping }
        → Step s t
    -- the coordinator in its inner loops
    enqueue_one :
        (task : CrawlTask) (tasks : List CrawlTask)
        → s.at ≡ enqueuing (task ∷ tasks)
        → t ≡ enqueue_next queue_size task tasks s
        → Step s t
    enqueue_end : s.at ≡ enqueuing [] → t ≡ end_enqueue s → Step s t
    drain_one :
        s.at ≡ draining
        → (batch : List CrawlTask) (rest : List (List CrawlTask)) → s.in_flight ≢ 0
        → s.discovered_ch ≡ batch ∷ rest
        → t ≡ drain_batch batch rest s
        → Step s t
    drain_end :
        s.at ≡ draining
        → s.in_flight ≡ 0
        → (saved queued : Bool) → t ≡ end_drain saved queued s
        → Step s t

  pub data Reach (s : Sys) : Sys → Type 0 where
    here : Reach s s
    next : {t v : Sys} → Reach s t → Step t v → Reach s v
