-- ===== src/Crawler/System/Keeping.antt =====
-- What becomes of the tasks of a crawl that is cancelled (internal/crawler/crawler.go, worker.go): the
-- workers hand them back, and the drain collects them in the overflow.
use google_in_a_day_crawler.Base.{
  ap, inl, inr, Bool-cases, not, Bool, true, false, ℕ, ◌+◌, ◌≤◌, ◌≡◌, List, [], ◌∷◌, ◌++◌, arith,
  Text, contains,
}
use google_in_a_day_crawler.Tokens.{Unicode}
use google_in_a_day_crawler.Worker.{CrawlTask, WorkerConfig, Net, process_page, new_tasks}
use google_in_a_day_crawler.Crawler.{Config}
use google_in_a_day_crawler.Crawler.Marking.{one_if}
use google_in_a_day_crawler.Crawler.System.Steps.{Step, Reach, here, next}
use google_in_a_day_crawler.Crawler.System.{
  WorkerState, idle, received, fetching, sending_record, sending_batch, exited, Sys, Coordinator,
  looping, selecting, enqueuing, draining, finished, interrupted, finish, enter_select, drop_batch,
  start_drain, send_overflow, on_batch_overflow, on_batch_direct, flush_visited, save_tasks,
  enqueue_next, end_enqueue, drain_batch, end_drain, url_limit_reached,
}
use google_in_a_day_crawler.Crawler.System.Scheduling.{
  total, total-append, held, all_held, scheduled,
}
use google_in_a_day_crawler.Crawler.System.Once.{has_url, IsExact, IsUnlimited, Reach-IsExact}

-- The tasks that a worker has not begun to fetch, or is about to send.
unfoldable pub carried : (CrawlTask → ℕ) → WorkerState → ℕ
carried f (received t) = f t
carried f (sending_batch batch) = total f batch
carried f _ = 0

unfoldable pub all_carried : (CrawlTask → ℕ) → List WorkerState → ℕ
all_carried f [] = 0
all_carried f (w ∷ ws) = carried f w + all_carried f ws

unfoldable pub batched : (CrawlTask → ℕ) → List (List CrawlTask) → ℕ
batched f [] = 0
batched f (b ∷ bs) = total f b + batched f bs

abbrev pub coming : (CrawlTask → ℕ) → Coordinator → ℕ
coming f looping = 0
coming f (selecting limited) = 0
coming f (enqueuing ts) = total f ts
coming f draining = 0
coming f finished = 0
coming f interrupted = 0

-- Over the tasks that were fetched or stand anywhere in the system.
unfoldable pub kept : (CrawlTask → ℕ) → Sys → ℕ
kept f s =
    total f s.fetched
    + all_carried f s.workers
    + total f s.task_ch
    + batched f s.discovered_ch
    + total f s.overflow
    + coming f s.at

carried_at :
    (f : CrawlTask → ℕ) (ws : List WorkerState) (w : WorkerState) (vs : List WorkerState)
    → all_carried f (ws ++ w ∷ vs) ≡ carried f w + all_carried f ws + all_carried f vs
unfolding all_carried
carried_at f [] w vs = omega arith
carried_at f (v ∷ ws) w vs = omega (arith, carried_at f ws w vs)

batched-append :
    (f : CrawlTask → ℕ) (bs : List (List CrawlTask)) (b : List CrawlTask)
    → batched f (bs ++ b ∷ []) ≡ batched f bs + total f b
unfolding batched
batched-append f [] b = omega arith
batched-append f (c ∷ bs) b = omega (arith, batched-append f bs b)

held-carried : (f : CrawlTask → ℕ) (w : WorkerState) → held f w ≤ carried f w
unfolding held carried
held-carried f idle = omega arith
held-carried f (received t) = omega arith
held-carried f (fetching t) = omega arith
held-carried f (sending_record t page) = omega arith
held-carried f (sending_batch batch) = omega arith
held-carried f exited = omega arith

all_held-carried : (f : CrawlTask → ℕ) (ws : List WorkerState) → all_held f ws ≤ all_carried f ws
unfolding all_held all_carried
all_held-carried f [] = omega arith
all_held-carried f (w ∷ ws) = omega (arith, held-carried f w, all_held-carried f ws)

pub scheduled-kept : (f : CrawlTask → ℕ) (s : Sys) → scheduled f s ≤ kept f s
unfolding scheduled kept
scheduled-kept f s = ground (arith, all_held-carried f s.workers)

-- No mark is set and no task is lost.
abbrev Keeps : (CrawlTask → ℕ) → Sys → Sys → Type 0
Keeps f s t = (t.visited ≡ s.visited) × (kept f s ≤ kept f t)

module _ (u : Unicode) (net : Net) (wcfg : WorkerConfig) (cfg : Config)
    (queue_size num_workers : ℕ) where
  -- Once the context is cancelled, the coordinator notices it before it receives a batch in a
  -- `select`.
  unfoldable pub is_prompt : {s t : Sys} → Step u net wcfg cfg queue_size num_workers s t → Bool
  is_prompt {s} (Step.limit_batch a batch rest c e) = not s.cancelled
  is_prompt {s} (Step.select_batch a batch rest o c e) = not s.cancelled
  is_prompt {s} (Step.select_direct a batch rest o c e) = not s.cancelled
  is_prompt _ = true

  unfoldable pub IsPrompt : {s t : Sys} → Reach u net wcfg cfg queue_size num_workers s t → Type 0
  IsPrompt here = Unit
  IsPrompt (next r st) = IsPrompt r × (is_prompt st ≡ true)

  step-Keeps :
      (f : CrawlTask → ℕ) {s t : Sys} (st : Step u net wcfg cfg queue_size num_workers s t)
      → url_limit_reached cfg s ≡ false
      → t.cancelled ≡ true
      → is_prompt st ≡ true
      → Keeps f s t
  unfolding is_prompt kept carried batched total
  step-Keeps f (Step.cancel e) l x p = (ground arith, ground arith)
  step-Keeps f (Step.take ws vs task rest w c e) l x p = (
    ground arith,
    ground
        (arith, ap (all_carried f) w, carried_at f ws idle vs, carried_at f ws (received task) vs),
  )
  step-Keeps f (Step.give_back ws vs task w c e) l x p = (
    ground arith,
    ground (
      arith,
      ap (all_carried f) w,
      carried_at f ws (received task) vs,
      carried_at f ws (sending_batch (task ∷ [])) vs,
    ),
  )
  step-Keeps f (Step.start_fetch ws vs task w c e) l x p = (ground arith, ground arith)
  step-Keeps f (Step.end_fetch ws vs task exchange w e) l x p = (
    ground arith,
    ground (
      arith,
      ap (all_carried f) w,
      carried_at f ws (fetching task) vs,
      carried_at f ws (sending_record task (process_page u net wcfg exchange task)) vs,
    ),
  )
  step-Keeps f (Step.send_record ws vs task page w c e) l x p = (
    ground arith,
    ground (
      arith,
      ap (all_carried f) w,
      carried_at f ws (sending_record task page) vs,
      carried_at f ws (sending_batch (new_tasks task page.links)) vs,
    ),
  )
  step-Keeps f {s} (Step.send_batch ws vs batch w c e) l x p = (
    ground arith,
    ground (
      arith,
      ap (all_carried f) w,
      carried_at f ws (sending_batch batch) vs,
      carried_at f ws idle vs,
      batched-append f s.discovered_ch batch,
    ),
  )
  step-Keeps f (Step.exit ws vs w c d e) l x p = (
    ground arith,
    ground (arith, ap (all_carried f) w, carried_at f ws idle vs, carried_at f ws exited vs),
  )
  step-Keeps f (Step.index_record choices page rest c e) l x p = (ground arith, ground arith)
  step-Keeps f (Step.flush_index choices e) l x p = (ground arith, ground arith)
  step-Keeps f {s} (Step.head_end a g saved cleared e) l x p =
      unfold finish flush_visited save_tasks in (ground arith, ground arith)
  step-Keeps f (Step.head_limit a g m z saved cleared e) l x p = (ground arith, ground arith)
  step-Keeps f (Step.head a g m e) l x p = unfold enter_select in (ground arith, ground arith)
  step-Keeps f (Step.limit_batch a batch rest c e) l x p =
      unfold drop_batch in (ground arith, ground arith)
  step-Keeps f (Step.select_cancel limited a c e) l x p =
      unfold start_drain in (ground arith, ground arith)
  step-Keeps f {s} (Step.select_send a task rest o r e) l x p =
      unfold send_overflow in (ground arith, ground (arith, total-append f s.task_ch (task ∷ [])))
  step-Keeps f (Step.select_batch a batch rest o c e) l x p =
      unfold on_batch_overflow in (ground arith, ground arith)
  step-Keeps f (Step.select_direct a batch rest o c e) l x p =
      unfold on_batch_direct in (ground arith, ground arith)
  step-Keeps f (Step.select_flush a saved e) l x p =
      unfold flush_visited in (ground arith, ground arith)
  step-Keeps f {s} (Step.enqueue_one task tasks a e) l x p =
      unfold enqueue_next in
      (
        ground arith,
        ground (arith, total-append f s.task_ch (task ∷ []), total-append f s.overflow (task ∷ [])),
      )
  step-Keeps f (Step.enqueue_end a e) l x p = unfold end_enqueue in (ground arith, ground arith)
  step-Keeps f {s} (Step.drain_one a batch rest z c e) l x p =
      unfold drain_batch in (ground arith, ground (arith, total-append f s.overflow batch))
  step-Keeps f (Step.drain_end a z saved queued e) l x p =
      unfold end_drain flush_visited save_tasks in (ground arith, ground arith)

  -- Every URL of the visited set is somewhere.
  pub Reach-kept :
      (k : Text) {s t : Sys}
      → IsUnlimited cfg
      → IsExact k s
      → (one_if (contains k s.visited) ≤ kept (has_url k) s)
      → (r : Reach u net wcfg cfg queue_size num_workers s t) → IsPrompt r
      → one_if (contains k t.visited) ≤ kept (has_url k) t
  unfolding url_limit_reached IsPrompt
  Reach-kept k free h i here p = i
  Reach-kept k free h i (next {t = m} {v = v} r st) p = elim (Bool-cases v.cancelled) [
    | inl c ↦ ground (
      arith,
      step-Keeps (has_url k) st (free m.indexer.pages_processed) c p.1,
      Reach-kept k free h i r p.0,
    )
    | inr c ↦ omega (
      arith,
      Reach-IsExact u net wcfg cfg queue_size num_workers k free h (next r st) c,
      scheduled-kept (has_url k) v,
    )
  ]
