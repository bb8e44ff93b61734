-- ===== src/Crawler/System/Scheduling.antt =====
-- The tasks that a run of internal/crawler/crawler.go and internal/crawler/worker.go has fetched or
-- may still fetch, measured by any number that a task has, and how one turn changes them.
use google_in_a_day_crawler.Base.{ℕ, ◌+◌, ◌≤◌, ◌≡◌, ap, false, List, [], ◌∷◌, ◌++◌, arith, count}
use google_in_a_day_crawler.Tokens.{Unicode}
use google_in_a_day_crawler.Worker.{CrawlTask, WorkerConfig, Net, process_page, new_tasks}
use google_in_a_day_crawler.Crawler.{Config, deduplicate_and_mark}
use google_in_a_day_crawler.Crawler.System.Steps.{Step}
use google_in_a_day_crawler.Crawler.System.{
  WorkerState, idle, received, fetching, sending_record, sending_batch, exited, Sys, Coordinator,
  looping, selecting, enqueuing, draining, finished, interrupted, finish, enter_select, drop_batch,
  start_drain, send_overflow, on_batch_overflow, on_batch_direct, flush_visited, enqueue_next,
  end_enqueue, drain_batch, end_drain,
}
use google_in_a_day_crawler.Crawler.System.{goes_on, is_empty, url_limit_reached}

unfoldable pub total : (CrawlTask → ℕ) → List CrawlTask → ℕ
total f [] = 0
total f (t ∷ ts) = f t + total f ts

-- The task that a worker has received and not begun to fetch.
unfoldable pub held : (CrawlTask → ℕ) → WorkerState → ℕ
held f (received t) = f t
held f _ = 0

unfoldable pub all_held : (CrawlTask → ℕ) → List WorkerState → ℕ
all_held f [] = 0
all_held f (w ∷ ws) = held f w + all_held f ws

-- The tasks that the coordinator will still enqueue.
abbrev pub waiting : (CrawlTask → ℕ) → Coordinator → List CrawlTask → ℕ
waiting f looping overflow = total f overflow
waiting f (selecting limited) overflow = total f overflow
waiting f (enqueuing ts) overflow = total f overflow + total f ts
waiting f draining overflow = 0
waiting f finished overflow = 0
waiting f interrupted overflow = 0

-- Over the tasks that were fetched or still may be.
unfoldable pub scheduled : (CrawlTask → ℕ) → Sys → ℕ
scheduled f s =
    total f s.fetched + all_held f s.workers + total f s.task_ch + waiting f s.at s.overflow

pub total-append :
    (f : CrawlTask → ℕ) (ts vs : List CrawlTask) → total f (ts ++ vs) ≡ total f ts + total f vs
unfolding total
total-append f [] vs = omega arith
total-append f (t ∷ ts) vs = omega (arith, total-append f ts vs)

held_at :
    (f : CrawlTask → ℕ) (ws : List WorkerState) (w : WorkerState) (vs : List WorkerState)
    → all_held f (ws ++ w ∷ vs) ≡ held f w + all_held f ws + all_held f vs
unfolding all_held
held_at f [] w vs = omega arith
held_at f (v ∷ ws) w vs = omega (arith, held_at f ws w vs)

pub goes_on-false : (s : Sys) → goes_on s ≡ false → (s.overflow ≡ []) × (s.in_flight ≡ 0)
unfolding goes_on is_empty
goes_on-false s h = ground arith

-- A turn marks no URL and schedules nothing new, and loses nothing where the limit is not met and nothing
-- is cancelled; or it marks the new tasks of a batch and schedules just these.
pub data Effect (cfg : Config) (f : CrawlTask → ℕ) (s t : Sys) : Type 0 where
  quiet :
      t.visited ≡ s.visited
      → scheduled f t ≤ scheduled f s
      → (t.cancelled ≡ false → s.cancelled ≡ false)
      → (url_limit_reached cfg s ≡ false → t.cancelled ≡ false → scheduled f t ≡ scheduled f s)
      → Effect cfg f s t
  marks :
      (batch : List CrawlTask)
      → t.visited ≡ (deduplicate_and_mark cfg batch s.visited).visited
      → (t.cancelled ≡ s.cancelled)
      → scheduled f t ≡ scheduled f s + total f (deduplicate_and_mark cfg batch s.visited).tasks
      → Effect cfg f s t

module _ (u : Unicode) (net : Net) (wcfg : WorkerConfig) (cfg : Config) (queue_size num_workers : ℕ)
    (f : CrawlTask → ℕ) where
  pub step-Effect : {s t : Sys} → Step u net wcfg cfg queue_size num_workers s t → Effect cfg f s t
  unfolding scheduled held total
  step-Effect (Step.cancel e) = quiet (ground arith) (ground arith) (ground arith) (ground arith)
  step-Effect (Step.take ws vs task rest w c e) =
      quiet (ground arith)
        (ground (arith, ap (all_held f) w, held_at f ws idle vs, held_at f ws (received task) vs))
        (ground arith)
        (ground (arith, ap (all_held f) w, held_at f ws idle vs, held_at f ws (received task) vs))
  step-Effect (Step.give_back ws vs task w c e) =
      quiet (ground arith)
        (ground (
          arith,
          ap (all_held f) w,
          held_at f ws (received task) vs,
          held_at f ws (sending_batch (task ∷ [])) vs,
        ))
        (ground arith)
        (ground (
          arith,
          ap (all_held f) w,
          held_at f ws (received task) vs,
          held_at f ws (sending_batch (task ∷ [])) vs,
        ))
  step-Effect {s} (Step.start_fetch ws vs task w c e) =
      quiet (ground arith)
        (ground (
          arith,
          ap (all_held f) w,
          held_at f ws (received task) vs,
          held_at f ws (fetching task) vs,
        ))
        (ground arith)
        (ground (
          arith,
          ap (all_held f) w,
          held_at f ws (received task) vs,
          held_at f ws (fetching task) vs,
        ))
  step-Effect (Step.end_fetch ws vs task exchange w e) =
      quiet (ground arith)
        (ground (
          arith,
          ap (all_held f) w,
          held_at f ws (fetching task) vs,
          held_at f ws (sending_record task (process_page u net wcfg exchange task)) vs,
        ))
        (ground arith)
        (ground (
          arith,
          ap (all_held f) w,
          held_at f ws (fetching task) vs,
          held_at f ws (sending_record task (process_page u net wcfg exchange task)) vs,
        ))
  step-Effect (Step.send_record ws vs task page w c e) =
      quiet (ground arith)
        (ground (
          arith,
          ap (all_held f) w,
          held_at f ws (sending_record task page) vs,
          held_at f ws (sending_batch (new_tasks task page.links)) vs,
        ))
        (ground arith)
        (ground (
          arith,
          ap (all_held f) w,
          held_at f ws (sending_record task page) vs,
          held_at f ws (sending_batch (new_tasks task page.links)) vs,
        ))
  step-Effect (Step.send_batch ws vs batch w c e) =
      quiet (ground arith)
        (ground
          (arith, ap (all_held f) w, held_at f ws (sending_batch batch) vs, held_at f ws idle vs))
        (ground arith)
        (ground
          (arith, ap (all_held f) w, held_at f ws (sending_batch batch) vs, held_at f ws idle vs))
  step-Effect (Step.exit ws vs w c d e) =
      quiet (ground arith)
        (ground (arith, ap (all_held f) w, held_at f ws idle vs, held_at f ws exited vs))
        (ground arith)
        (ground (arith, ap (all_held f) w, held_at f ws idle vs, held_at f ws exited vs))
  step-Effect (Step.index_record choices page rest c e) =
      quiet (ground arith) (ground arith) (ground arith) (ground arith)
  step-Effect (Step.flush_index choices e) =
      quiet (ground arith) (ground arith) (ground arith) (ground arith)
  step-Effect {s} (Step.head_end a g saved cleared e) =
      unfold finish in
      quiet (ground arith) (ground (arith, goes_on-false s g)) (ground arith)
        (ground (arith, goes_on-false s g))
  step-Effect {s} (Step.head_limit a g l z saved cleared e) =
      unfold finish in quiet (ground arith) (ground arith) (ground arith) (ground arith)
  step-Effect {s} (Step.head a g l e) =
      unfold enter_select count in quiet (ground arith) (ground arith) (ground arith) (ground arith)
  step-Effect (Step.limit_batch a batch rest c e) =
      unfold drop_batch in quiet (ground arith) (ground arith) (ground arith) (ground arith)
  step-Effect (Step.select_cancel limited a c e) =
      unfold start_drain in quiet (ground arith) (ground arith) (ground arith) (ground arith)
  step-Effect {s} (Step.select_send a task rest o r e) =
      unfold send_overflow in
      quiet (ground arith) (ground (arith, total-append f s.task_ch (task ∷ []))) (ground arith)
        (ground (arith, total-append f s.task_ch (task ∷ [])))
  step-Effect {s} (Step.select_batch a batch rest o c e) =
      unfold on_batch_overflow in
      marks batch (ground arith) (ground arith)
        (ground (arith, total-append f s.overflow (deduplicate_and_mark cfg batch s.visited).tasks))
  step-Effect {s} (Step.select_direct a batch rest o c e) =
      unfold on_batch_direct in marks batch (ground arith) (ground arith) (ground arith)
  step-Effect (Step.select_flush a saved e) =
      unfold flush_visited in quiet (ground arith) (ground arith) (ground arith) (ground arith)
  step-Effect {s} (Step.enqueue_one task tasks a e) =
      unfold enqueue_next in
      quiet (ground arith)
        (ground
          (arith, total-append f s.task_ch (task ∷ []), total-append f s.overflow (task ∷ [])))
        (ground arith)
        (ground
          (arith, total-append f s.task_ch (task ∷ []), total-append f s.overflow (task ∷ [])))
  step-Effect (Step.enqueue_end a e) =
      unfold end_enqueue count in quiet (ground arith) (ground arith) (ground arith) (ground arith)
  step-Effect (Step.drain_one a batch rest z c e) =
      unfold drain_batch in quiet (ground arith) (ground arith) (ground arith) (ground arith)
  step-Effect (Step.drain_end a z saved queued e) =
      unfold end_drain in quiet (ground arith) (ground arith) (ground arith) (ground arith)
