-- ===== src/Crawler/System/Live.antt =====
-- What keeps the goroutines of `Start` (internal/crawler/crawler.go) from waiting for one another:
-- which workers are left, when `taskCh` is closed, and what the two `select` statements wait for.
use google_in_a_day_crawler.Base.{
  ap, ◌⊎◌, ◌≢◌, ℕ, suc, ◌+◌, ◌≡◌, refl, Bool, true, false, List, [], ◌∷◌, ◌++◌, length,
  length-append, arith,
}
use google_in_a_day_crawler.Worker.{WorkerConfig, Net, process_page, new_tasks}
use google_in_a_day_crawler.Tokens.{Unicode}
use google_in_a_day_crawler.Crawler.{Config}
use google_in_a_day_crawler.Crawler.System.Steps.{Step, Reach, here, next}
use google_in_a_day_crawler.Crawler.System.{
  WorkerState, idle, received, fetching, sending_record, sending_batch, exited, Sys, Coordinator,
  looping, selecting, enqueuing, draining, finished, interrupted, goes_on, is_empty, end_drain,
  drain_batch, end_enqueue, enqueue_next, flush_visited, on_batch_direct, on_batch_overflow,
  send_overflow, start_drain, drop_batch, enter_select, finish, save_tasks, receive_batch,
  update_queue_metrics,
}
use google_in_a_day_crawler.Crawler.System.Counting.{busy, is_busy}

-- The workers that have left their loop, and those that wait for a task.
unfoldable pub is_gone : WorkerState → ℕ
is_gone exited = 1
is_gone _ = 0

unfoldable pub exits : List WorkerState → ℕ
exits [] = 0
exits (w ∷ ws) = is_gone w + exits ws

unfoldable pub is_waiting : WorkerState → ℕ
is_waiting idle = 1
is_waiting _ = 0

unfoldable pub idles : List WorkerState → ℕ
idles [] = 0
idles (w ∷ ws) = is_waiting w + idles ws

exits-append : (ws vs : List WorkerState) → exits (ws ++ vs) ≡ exits ws + exits vs
unfolding exits
exits-append [] vs = omega arith
exits-append (w ∷ ws) vs = omega (arith, exits-append ws vs)

pub exits_at :
    (ws : List WorkerState) (w : WorkerState) (vs : List WorkerState)
    → exits (ws ++ w ∷ vs) ≡ is_gone w + exits ws + exits vs
unfolding exits
exits_at ws w vs = omega (arith, exits-append ws (w ∷ vs))

length_at :
    (ws : List WorkerState) (w : WorkerState) (vs : List WorkerState)
    → length (ws ++ w ∷ vs) ≡ suc (length ws + length vs)
length_at ws w vs = omega (arith, length-append ws (w ∷ vs))

-- Each worker waits, is busy or has left.
pub length-workers : (ws : List WorkerState) → length ws ≡ idles ws + busy ws + exits ws
unfolding idles is_waiting busy is_busy exits is_gone
length-workers [] = omega arith
length-workers (idle ∷ ws) = omega (arith, length-workers ws)
length-workers (received t ∷ ws) = omega (arith, length-workers ws)
length-workers (fetching t ∷ ws) = omega (arith, length-workers ws)
length-workers (sending_record t page ∷ ws) = omega (arith, length-workers ws)
length-workers (sending_batch b ∷ ws) = omega (arith, length-workers ws)
length-workers (exited ∷ ws) = omega (arith, length-workers ws)

abbrev pub closed_at : Coordinator → Bool
closed_at draining = true
closed_at finished = true
closed_at interrupted = true
closed_at looping = false
closed_at (selecting limited) = false
closed_at (enqueuing tasks) = false

pub record IsLive (num_workers : ℕ) (s : Sys) : Type 0 where
  pub staffed : length s.workers ≡ num_workers
  pub open_while : s.closed ≡ closed_at s.at
  pub left_late : exits s.workers ≢ 0 → (s.closed ≡ true) × (s.task_ch ≡ [])
  pub waits_limited : s.at ≡ selecting true → s.in_flight ≢ 0
  pub waits_free : s.at ≡ selecting false → (s.in_flight ≢ 0) ⊎ (s.overflow ≢ [])

module _ (u : Unicode) (net : Net) (wcfg : WorkerConfig) (cfg : Config)
    (queue_size num_workers : ℕ) where
  swap-IsLive :
      {s : Sys} (ws vs : List WorkerState) (w v : WorkerState)
      → IsLive num_workers s
      → s.workers ≡ ws ++ w ∷ vs
      → is_gone w ≡ is_gone v
      → (length (ws ++ v ∷ vs) ≡ num_workers) × (exits (ws ++ v ∷ vs) ≡ exits s.workers)
  swap-IsLive ws vs w v h e g = ground (
    arith,
    h.staffed,
    ap length e,
    ap exits e,
    length_at ws w vs,
    length_at ws v vs,
    exits_at ws w vs,
    exits_at ws v vs,
  )

  step-IsLive :
      {s t : Sys}
      → Step u net wcfg cfg queue_size num_workers s t
      → IsLive num_workers s
      → IsLive num_workers t
  unfolding is_gone
  step-IsLive (Step.cancel e) h = ground arith
  step-IsLive (Step.take ws vs task rest w c e) h =
      ground (arith, swap-IsLive ws vs idle (received task) h w refl)
  step-IsLive (Step.give_back ws vs task w c e) h =
      ground (arith, swap-IsLive ws vs (received task) (sending_batch (task ∷ [])) h w refl)
  step-IsLive (Step.start_fetch ws vs task w c e) h =
      ground (arith, swap-IsLive ws vs (received task) (fetching task) h w refl)
  step-IsLive (Step.end_fetch ws vs task exchange w e) h = ground (
    arith,
    swap-IsLive ws vs (fetching task) (sending_record task (process_page u net wcfg exchange task))
        h w refl,
  )
  step-IsLive (Step.send_record ws vs task page w c e) h = ground (
    arith,
    swap-IsLive ws vs (sending_record task page) (sending_batch (new_tasks task page.links)) h w
        refl,
  )
  step-IsLive (Step.send_batch ws vs batch w c e) h =
      ground (arith, swap-IsLive ws vs (sending_batch batch) idle h w refl)
  step-IsLive (Step.exit ws vs w c d e) h =
      ground (arith, ap length w, length_at ws idle vs, length_at ws exited vs)
  step-IsLive (Step.index_record choices page rest c e) h = ground arith
  step-IsLive (Step.flush_index choices e) h = ground arith
  step-IsLive (Step.head_end a g saved cleared e) h =
      unfold finish save_tasks flush_visited in ground arith
  step-IsLive (Step.head_limit a g l z saved cleared e) h =
      unfold finish save_tasks flush_visited in ground arith
  step-IsLive (Step.head a g l e) h = unfold enter_select goes_on is_empty in ground arith
  step-IsLive (Step.limit_batch a batch rest c e) h =
      unfold drop_batch update_queue_metrics in ground arith
  step-IsLive (Step.select_cancel limited a c e) h = unfold start_drain in ground arith
  step-IsLive (Step.select_send a task rest o r e) h =
      unfold send_overflow update_queue_metrics in ground arith
  step-IsLive (Step.select_batch a batch rest o c e) h =
      unfold on_batch_overflow receive_batch update_queue_metrics in ground arith
  step-IsLive (Step.select_direct a batch rest o c e) h =
      unfold on_batch_direct receive_batch in ground arith
  step-IsLive (Step.select_flush a saved e) h = unfold flush_visited in ground arith
  step-IsLive (Step.enqueue_one task tasks a e) h = unfold enqueue_next in ground arith
  step-IsLive (Step.enqueue_end a e) h = unfold end_enqueue update_queue_metrics in ground arith
  step-IsLive (Step.drain_one a batch rest z c e) h = unfold drain_batch in ground arith
  step-IsLive (Step.drain_end a z saved queued e) h =
      unfold end_drain save_tasks flush_visited in ground arith

  pub Reach-IsLive :
      {s t : Sys}
      → IsLive num_workers s
      → Reach u net wcfg cfg queue_size num_workers s t
      → IsLive num_workers t
  Reach-IsLive h here = h
  Reach-IsLive h (next r st) = step-IsLive st (Reach-IsLive h r)
