-- ===== src/Crawler/System/Aborting.antt =====
-- The fetches of a crawl (`fetchPage`, internal/crawler/worker.go): a cancellation aborts those that are on
-- their way, and the worker makes a record with an error of such a page.
use google_in_a_day_crawler.Base.{
  ap, if◌then◌else◌, Bool, true, false, ℕ, suc, ◌+◌, ◌≤◌, ◌≡◌, List, [], ◌∷◌, ◌++◌, arith, length,
  length-append,
}
use google_in_a_day_crawler.Tokens.{Unicode}
use google_in_a_day_crawler.Worker.{CrawlTask, WorkerConfig, Net, process_page, new_tasks}
use google_in_a_day_crawler.Crawler.{Config}
use google_in_a_day_crawler.Crawler.System.Steps.{Step, Reach, here, next}
use google_in_a_day_crawler.Crawler.System.{
  WorkerState, idle, received, fetching, sending_record, sending_batch, exited, Sys, finish,
  enter_select, drop_batch, start_drain, send_overflow, on_batch_overflow, on_batch_direct,
  flush_visited, save_tasks, enqueue_next, end_enqueue, drain_batch, end_drain,
}
use google_in_a_day_crawler.Crawler.System.Scheduling.{total, total-append}
use google_in_a_day_crawler.Crawler.System.Bounds.{one}

-- Over the tasks whose page a worker is fetching.
unfoldable pub under_way : (CrawlTask → ℕ) → List WorkerState → ℕ
under_way f [] = 0
under_way f (fetching t ∷ ws) = f t + under_way f ws
under_way f (idle ∷ ws) = under_way f ws
under_way f (received t ∷ ws) = under_way f ws
under_way f (sending_record t page ∷ ws) = under_way f ws
under_way f (sending_batch batch ∷ ws) = under_way f ws
under_way f (exited ∷ ws) = under_way f ws

pub under_way_at :
    (f : CrawlTask → ℕ) (ws : List WorkerState) (w : WorkerState) (vs : List WorkerState)
    → under_way f (ws ++ w ∷ vs) ≡ under_way f (w ∷ []) + under_way f ws + under_way f vs
unfolding under_way
under_way_at f [] idle vs = omega arith
under_way_at f [] (received t) vs = omega arith
under_way_at f [] (fetching t) vs = omega arith
under_way_at f [] (sending_record t page) vs = omega arith
under_way_at f [] (sending_batch batch) vs = omega arith
under_way_at f [] exited vs = omega arith
under_way_at f (idle ∷ ws) w vs = omega (arith, under_way_at f ws w vs)
under_way_at f (received t ∷ ws) w vs = omega (arith, under_way_at f ws w vs)
under_way_at f (fetching t ∷ ws) w vs = omega (arith, under_way_at f ws w vs)
under_way_at f (sending_record t page ∷ ws) w vs = omega (arith, under_way_at f ws w vs)
under_way_at f (sending_batch batch ∷ ws) w vs = omega (arith, under_way_at f ws w vs)
under_way_at f (exited ∷ ws) w vs = omega (arith, under_way_at f ws w vs)

pub under_way-one : (ws : List WorkerState) → under_way one ws ≤ length ws
unfolding under_way one
under_way-one [] = omega arith
under_way-one (idle ∷ ws) = omega (arith, under_way-one ws)
under_way-one (received t ∷ ws) = omega (arith, under_way-one ws)
under_way-one (fetching t ∷ ws) = omega (arith, under_way-one ws)
under_way-one (sending_record t page ∷ ws) = omega (arith, under_way-one ws)
under_way-one (sending_batch batch ∷ ws) = omega (arith, under_way-one ws)
under_way-one (exited ∷ ws) = omega (arith, under_way-one ws)

length_at :
    (ws : List WorkerState) (w : WorkerState) (vs : List WorkerState)
    → length (ws ++ w ∷ vs) ≡ suc (length ws + length vs)
length_at ws w vs = omega (arith, length-append ws (w ∷ vs))

-- Before the cancellation no fetch has been aborted, and a worker has one fetch on its way at most.
pub record AbortFits (n : ℕ) (s : Sys) : Type 0 where
  pub none_before : s.cancelled ≡ false → n ≡ 0
  pub fits : n + under_way one s.workers ≤ length s.workers

module _ (u : Unicode) (net : Net) (wcfg : WorkerConfig) (cfg : Config)
    (queue_size num_workers : ℕ) where
  -- The task whose fetch a turn ends, if the context is cancelled or not, as `cancelled` says.
  unfoldable pub ends_fetch :
      Bool → {s t : Sys} → Step u net wcfg cfg queue_size num_workers s t → List CrawlTask
  ends_fetch true {s} (Step.end_fetch ws vs task exchange w e) =
      if s.cancelled then task ∷ [] else []
  ends_fetch false {s} (Step.end_fetch ws vs task exchange w e) =
      if s.cancelled then [] else task ∷ []
  ends_fetch cancelled _ = []

  -- The tasks whose fetch ended while the context was not cancelled.
  unfoldable pub completed :
      {s t : Sys} → Reach u net wcfg cfg queue_size num_workers s t → List CrawlTask
  unfolding ends_fetch
  completed here = []
  completed (next r st) = ends_fetch false st ++ completed r

  -- The tasks whose fetch was on its way when the context was cancelled.
  unfoldable pub aborted :
      {s t : Sys} → Reach u net wcfg cfg queue_size num_workers s t → List CrawlTask
  unfolding ends_fetch
  aborted here = []
  aborted (next r st) = ends_fetch true st ++ aborted r

  -- What a turn does to the fetches.
  Fetches : (CrawlTask → ℕ) → {s t : Sys} → Step u net wcfg cfg queue_size num_workers s t → Type 0
  Fetches f {s} {t} st =
      total f t.fetched + under_way f s.workers
      ≡ total f s.fetched
        + total f (ends_fetch false st)
        + total f (ends_fetch true st)
        + under_way f t.workers

  step-Fetches :
      (f : CrawlTask → ℕ) {s t : Sys} (st : Step u net wcfg cfg queue_size num_workers s t)
      → Fetches f st
  unfolding Fetches ends_fetch total under_way
  step-Fetches f (Step.cancel e) = ground arith
  step-Fetches f (Step.take ws vs task rest w c e) =
      ground
        (arith, ap (under_way f) w, under_way_at f ws idle vs, under_way_at f ws (received task) vs)
  step-Fetches f (Step.give_back ws vs task w c e) = ground (
    arith,
    ap (under_way f) w,
    under_way_at f ws (received task) vs,
    under_way_at f ws (sending_batch (task ∷ [])) vs,
  )
  step-Fetches f (Step.start_fetch ws vs task w c e) = ground (
    arith,
    ap (under_way f) w,
    under_way_at f ws (received task) vs,
    under_way_at f ws (fetching task) vs,
  )
  step-Fetches f (Step.end_fetch ws vs task exchange w e) = ground (
    arith,
    ap (under_way f) w,
    under_way_at f ws (fetching task) vs,
    under_way_at f ws (sending_record task (process_page u net wcfg exchange task)) vs,
  )
  step-Fetches f (Step.send_record ws vs task page w c e) = ground (
    arith,
    ap (under_way f) w,
    under_way_at f ws (sending_record task page) vs,
    under_way_at f ws (sending_batch (new_tasks task page.links)) vs,
  )
  step-Fetches f (Step.send_batch ws vs batch w c e) = ground (
    arith,
    ap (under_way f) w,
    under_way_at f ws (sending_batch batch) vs,
    under_way_at f ws idle vs,
  )
  step-Fetches f (Step.exit ws vs w c d e) =
      ground (arith, ap (under_way f) w, under_way_at f ws idle vs, under_way_at f ws exited vs)
  step-Fetches f (Step.index_record choices page rest c e) = ground arith
  step-Fetches f (Step.flush_index choices e) = ground arith
  step-Fetches f (Step.head_end a g saved cleared e) =
      unfold finish save_tasks flush_visited in ground arith
  step-Fetches f (Step.head_limit a g l z saved cleared e) =
      unfold finish save_tasks flush_visited in ground arith
  step-Fetches f (Step.head a g l e) = unfold enter_select in ground arith
  step-Fetches f (Step.limit_batch a batch rest c e) = unfold drop_batch in ground arith
  step-Fetches f (Step.select_cancel limited a c e) = unfold start_drain in ground arith
  step-Fetches f (Step.select_send a task rest o room e) = unfold send_overflow in ground arith
  step-Fetches f (Step.select_batch a batch rest o d e) = unfold on_batch_overflow in ground arith
  step-Fetches f (Step.select_direct a batch rest o d e) = unfold on_batch_direct in ground arith
  step-Fetches f (Step.select_flush a saved e) = unfold flush_visited in ground arith
  step-Fetches f (Step.enqueue_one task tasks a e) = unfold enqueue_next in ground arith
  step-Fetches f (Step.enqueue_end a e) = unfold end_enqueue in ground arith
  step-Fetches f (Step.drain_one a batch rest z d e) = unfold drain_batch in ground arith
  step-Fetches f (Step.drain_end a z saved queued e) =
      unfold end_drain save_tasks flush_visited in ground arith

  pub fetched-completed :
      (f : CrawlTask → ℕ) {s t : Sys} (r : Reach u net wcfg cfg queue_size num_workers s t)
      → total f t.fetched + under_way f s.workers
        ≡ total f s.fetched + total f (completed r) + total f (aborted r) + under_way f t.workers
  unfolding completed aborted total Fetches
  fetched-completed f here = omega arith
  fetched-completed f (next r st) = omega (
    arith,
    step-Fetches f st,
    fetched-completed f r,
    total-append f (ends_fetch false st) (completed r),
    total-append f (ends_fetch true st) (aborted r),
  )

  step-AbortFits :
      (n : ℕ) {s t : Sys} (st : Step u net wcfg cfg queue_size num_workers s t)
      → AbortFits n s
      → AbortFits (length (ends_fetch true st) + n) t
  unfolding ends_fetch under_way one
  step-AbortFits n (Step.cancel e) h = ground arith
  step-AbortFits n (Step.take ws vs task rest w c e) h = ground (
    arith,
    ap (under_way one) w,
    ap length w,
    under_way_at one ws idle vs,
    under_way_at one ws (received task) vs,
    length_at ws idle vs,
    length_at ws (received task) vs,
  )
  step-AbortFits n (Step.give_back ws vs task w c e) h = ground (
    arith,
    ap (under_way one) w,
    ap length w,
    under_way_at one ws (received task) vs,
    under_way_at one ws (sending_batch (task ∷ [])) vs,
    length_at ws (received task) vs,
    length_at ws (sending_batch (task ∷ [])) vs,
  )
  step-AbortFits n (Step.start_fetch ws vs task w c e) h = ground (
    arith,
    ap (under_way one) w,
    ap length w,
    under_way_at one ws (received task) vs,
    under_way_at one ws (fetching task) vs,
    length_at ws (received task) vs,
    length_at ws (fetching task) vs,
    under_way-one (ws ++ (fetching task) ∷ vs),
  )
  step-AbortFits n (Step.end_fetch ws vs task exchange w e) h = ground (
    arith,
    ap (under_way one) w,
    ap length w,
    under_way_at one ws (fetching task) vs,
    under_way_at one ws (sending_record task (process_page u net wcfg exchange task)) vs,
    length_at ws (fetching task) vs,
    length_at ws (sending_record task (process_page u net wcfg exchange task)) vs,
  )
  step-AbortFits n (Step.send_record ws vs task page w c e) h = ground (
    arith,
    ap (under_way one) w,
    ap length w,
    under_way_at one ws (sending_record task page) vs,
    under_way_at one ws (sending_batch (new_tasks task page.links)) vs,
    length_at ws (sending_record task page) vs,
    length_at ws (sending_batch (new_tasks task page.links)) vs,
  )
  step-AbortFits n (Step.send_batch ws vs batch w c e) h = ground (
    arith,
    ap (under_way one) w,
    ap length w,
    under_way_at one ws (sending_batch batch) vs,
    under_way_at one ws idle vs,
    length_at ws (sending_batch batch) vs,
    length_at ws idle vs,
  )
  step-AbortFits n (Step.exit ws vs w c d e) h = ground (
    arith,
    ap (under_way one) w,
    ap length w,
    under_way_at one ws idle vs,
    under_way_at one ws exited vs,
    length_at ws idle vs,
    length_at ws exited vs,
  )
  step-AbortFits n (Step.index_record choices page rest c e) h = ground arith
  step-AbortFits n (Step.flush_index choices e) h = ground arith
  step-AbortFits n (Step.head_end a g saved cleared e) h =
      unfold finish save_tasks flush_visited in ground arith
  step-AbortFits n (Step.head_limit a g l z saved cleared e) h =
      unfold finish save_tasks flush_visited in ground arith
  step-AbortFits n (Step.head a g l e) h = unfold enter_select in ground arith
  step-AbortFits n (Step.limit_batch a batch rest c e) h = unfold drop_batch in ground arith
  step-AbortFits n (Step.select_cancel limited a c e) h = unfold start_drain in ground arith
  step-AbortFits n (Step.select_send a task rest o room e) h = unfold send_overflow in ground arith
  step-AbortFits n (Step.select_batch a batch rest o d e) h =
      unfold on_batch_overflow in ground arith
  step-AbortFits n (Step.select_direct a batch rest o d e) h =
      unfold on_batch_direct in ground arith
  step-AbortFits n (Step.select_flush a saved e) h = unfold flush_visited in ground arith
  step-AbortFits n (Step.enqueue_one task tasks a e) h = unfold enqueue_next in ground arith
  step-AbortFits n (Step.enqueue_end a e) h = unfold end_enqueue in ground arith
  step-AbortFits n (Step.drain_one a batch rest z d e) h = unfold drain_batch in ground arith
  step-AbortFits n (Step.drain_end a z saved queued e) h =
      unfold end_drain save_tasks flush_visited in ground arith

  pub Reach-AbortFits :
      {s t : Sys} (r : Reach u net wcfg cfg queue_size num_workers s t)
      → AbortFits 0 s
      → AbortFits (length (aborted r)) t
  unfolding aborted
  Reach-AbortFits here h = h
  Reach-AbortFits (next r st) h =
      let g = step-AbortFits (length (aborted r)) st (Reach-AbortFits r h) in
      ground (arith, g, length-append (ends_fetch true st) (aborted r))
