-- ===== src/Crawler/System/Effort.antt =====
-- How many turns a crawl with a limit takes (internal/crawler/crawler.go, worker.go): each turn but
-- those of the tickers lowers a bound on the turns that are left.
use google_in_a_day_crawler.Base.{
  ap, ℕ, suc, ◌+◌, ◌-◌, ◌*◌, ◌≤◌, ◌≡◌, Bool, true, false, List, [], ◌∷◌, ◌++◌, length,
  length-append, arith, pos,
}
use google_in_a_day_crawler.Worker.{WorkerConfig, Net, CrawlTask, process_page, new_tasks}
use google_in_a_day_crawler.Tokens.{Unicode}
use google_in_a_day_crawler.Crawler.{Config, deduplicate_and_mark}
use google_in_a_day_crawler.Crawler.Marking.{one_if, length-marked, marked_limit}
use google_in_a_day_crawler.Crawler.System.Steps.{Step, Reach, here, next}
use google_in_a_day_crawler.Crawler.System.{
  WorkerState, idle, received, fetching, sending_record, sending_batch, exited, Sys, Coordinator,
  looping, selecting, enqueuing, draining, finished, interrupted, end_drain, drain_batch,
  end_enqueue, enqueue_next, flush_visited, on_batch_direct, receive_batch, save_tasks,
  update_queue_metrics, on_batch_overflow, send_overflow, start_drain, drop_batch, enter_select,
  finish,
}
use google_in_a_day_crawler.Crawler.System.Progress.{is_work}

-- The turns that a worker's state is worth, and those of the coordinator with its overflow.
unfoldable pub worker_turns : WorkerState → ℕ
worker_turns exited = 0
worker_turns idle = 1
worker_turns (sending_batch batch) = 5
worker_turns (sending_record task page) = 7
worker_turns (fetching task) = 8
worker_turns (received task) = 9

unfoldable pub workers_turns : List WorkerState → ℕ
workers_turns [] = 0
workers_turns (w ∷ ws) = worker_turns w + workers_turns ws

unfoldable pub coordinator_turns : Coordinator → ℕ → ℕ
coordinator_turns looping overflow = 3 + 11 * overflow
coordinator_turns (selecting limited) overflow = 2 + 11 * overflow
coordinator_turns (enqueuing tasks) overflow = 4 + 12 * length tasks + 11 * overflow
coordinator_turns draining overflow = 1
coordinator_turns finished overflow = 0
coordinator_turns interrupted overflow = 0

-- A bound on the turns that are left, for the limit `n` on the visited URLs.
unfoldable pub turns_left : ℕ → Sys → ℕ
turns_left n s =
    12 * (n - length s.visited)
    + coordinator_turns s.at (length s.overflow)
    + 9 * length s.task_ch
    + 3 * length s.discovered_ch
    + length s.results_ch
    + workers_turns s.workers

workers_turns-append :
    (ws vs : List WorkerState) → workers_turns (ws ++ vs) ≡ workers_turns ws + workers_turns vs
unfolding workers_turns
workers_turns-append [] vs = omega arith
workers_turns-append (w ∷ ws) vs = omega (arith, workers_turns-append ws vs)

workers_turns_at :
    (ws : List WorkerState) (w : WorkerState) (vs : List WorkerState)
    → workers_turns (ws ++ w ∷ vs) ≡ worker_turns w + workers_turns ws + workers_turns vs
unfolding workers_turns
workers_turns_at ws w vs = omega (arith, workers_turns-append ws (w ∷ vs))

-- Each task that is let through uses up one of the URLs that the limit leaves.
marked_room :
    (cfg : Config) (n : ℕ) (batch : List CrawlTask) (s : Sys)
    → cfg.max_urls ≡ pos (suc n)
    → let m = deduplicate_and_mark cfg batch s.visited in
      12 * (suc n - length m.visited) + 12 * length m.tasks ≤ 12 * (suc n - length s.visited)
marked_room cfg n batch s e =
    omega (arith, length-marked cfg batch s.visited, marked_limit cfg batch s.visited n e)

module _ (u : Unicode) (net : Net) (wcfg : WorkerConfig) (cfg : Config) (queue_size num_workers : ℕ)
    (n : ℕ) (limit : cfg.max_urls ≡ pos (suc n)) where
  pub is_tick : {s t : Sys} → Step u net wcfg cfg queue_size num_workers s t → Bool
  is_tick (Step.select_flush a saved e) = true
  is_tick _ = false

  step-turns_left :
      {s t : Sys} (st : Step u net wcfg cfg queue_size num_workers s t)
      → one_if (is_work u net wcfg cfg queue_size num_workers st) + turns_left (suc n) t
        ≤ turns_left (suc n) s + one_if (is_tick st)
  unfolding is_tick is_work turns_left worker_turns coordinator_turns
  step-turns_left (Step.cancel e) = ground arith
  step-turns_left (Step.take ws vs task rest w c e) = ground (
    arith,
    ap workers_turns w,
    workers_turns_at ws idle vs,
    workers_turns_at ws (received task) vs,
  )
  step-turns_left (Step.give_back ws vs task w c e) = ground (
    arith,
    ap workers_turns w,
    workers_turns_at ws (received task) vs,
    workers_turns_at ws (sending_batch (task ∷ [])) vs,
  )
  step-turns_left (Step.start_fetch ws vs task w c e) = ground (
    arith,
    ap workers_turns w,
    workers_turns_at ws (received task) vs,
    workers_turns_at ws (fetching task) vs,
  )
  step-turns_left (Step.end_fetch ws vs task exchange w e) = ground (
    arith,
    ap workers_turns w,
    workers_turns_at ws (fetching task) vs,
    workers_turns_at ws (sending_record task (process_page u net wcfg exchange task)) vs,
  )
  step-turns_left {s} (Step.send_record ws vs task page w c e) = ground (
    arith,
    ap workers_turns w,
    workers_turns_at ws (sending_record task page) vs,
    workers_turns_at ws (sending_batch (new_tasks task page.links)) vs,
    length-append s.results_ch (page ∷ []),
  )
  step-turns_left {s} (Step.send_batch ws vs batch w c e) = ground (
    arith,
    ap workers_turns w,
    workers_turns_at ws (sending_batch batch) vs,
    workers_turns_at ws idle vs,
    length-append s.discovered_ch (batch ∷ []),
  )
  step-turns_left (Step.exit ws vs w c d e) =
      ground (arith, ap workers_turns w, workers_turns_at ws idle vs, workers_turns_at ws exited vs)
  step-turns_left (Step.index_record choices page rest c e) = ground arith
  step-turns_left (Step.flush_index choices e) = ground arith
  step-turns_left (Step.head_end a g saved cleared e) =
      unfold finish save_tasks flush_visited in ground arith
  step-turns_left (Step.head_limit a g l z saved cleared e) =
      unfold finish save_tasks flush_visited in ground arith
  step-turns_left (Step.head a g l e) = unfold enter_select in ground arith
  step-turns_left (Step.limit_batch a batch rest c e) =
      unfold drop_batch update_queue_metrics in ground arith
  step-turns_left (Step.select_cancel limited a c e) = unfold start_drain in ground arith
  step-turns_left {s} (Step.select_send a task rest o r e) =
      unfold send_overflow update_queue_metrics in
      ground (arith, length-append s.task_ch (task ∷ []))
  step-turns_left {s} (Step.select_batch a batch rest o c e) =
      unfold on_batch_overflow receive_batch update_queue_metrics in
      ground (
        arith,
        marked_room cfg n batch s limit,
        length-append s.overflow (deduplicate_and_mark cfg batch s.visited).tasks,
      )
  step-turns_left {s} (Step.select_direct a batch rest o c e) =
      unfold on_batch_direct receive_batch in ground (arith, marked_room cfg n batch s limit)
  step-turns_left (Step.select_flush a saved e) = unfold flush_visited in ground arith
  step-turns_left {s} (Step.enqueue_one task tasks a e) =
      unfold enqueue_next in
      ground (arith, length-append s.task_ch (task ∷ []), length-append s.overflow (task ∷ []))
  step-turns_left (Step.enqueue_end a e) = unfold end_enqueue update_queue_metrics in ground arith
  step-turns_left (Step.drain_one a batch rest z c e) = unfold drain_batch in ground arith
  step-turns_left (Step.drain_end a z saved queued e) =
      unfold end_drain save_tasks flush_visited in ground arith

  -- The turns of a run that work, and those of the coordinator's ticker.
  pub works : {s t : Sys} → Reach u net wcfg cfg queue_size num_workers s t → ℕ
  works here = 0
  works (next r st) = one_if (is_work u net wcfg cfg queue_size num_workers st) + works r

  pub ticks : {s t : Sys} → Reach u net wcfg cfg queue_size num_workers s t → ℕ
  unfolding is_tick
  ticks here = 0
  ticks (next r st) = one_if (is_tick st) + ticks r

  pub works-le :
      {s t : Sys} (r : Reach u net wcfg cfg queue_size num_workers s t)
      → works r + turns_left (suc n) t ≤ turns_left (suc n) s + ticks r
  unfolding works ticks
  works-le here = omega arith
  works-le (next r st) = omega (arith, step-turns_left st, works-le r)
