-- ===== src/Crawler/System/Counting.antt =====
-- The counter `inFlight` of `coordinatorLoop` (internal/crawler/crawler.go) counts the tasks that are
-- on their way.
use google_in_a_day_crawler.Base.{
  ap, ℕ, ◌+◌, ◌≡◌, List, [], ◌∷◌, ◌++◌, length, length-append, arith,
}
use google_in_a_day_crawler.Worker.{WorkerConfig, Net}
use google_in_a_day_crawler.Tokens.{Unicode}
use google_in_a_day_crawler.Crawler.{Config}
use google_in_a_day_crawler.Crawler.System.Steps.{Step, Reach, here, next}
use google_in_a_day_crawler.Crawler.System.{
  end_drain, drain_batch, end_enqueue, enqueue_next, flush_visited, on_batch_direct,
  on_batch_overflow, send_overflow, start_drain, drop_batch, enter_select, finish, new_tasks,
  process_page, WorkerState, idle, received, fetching, sending_record, sending_batch, exited, Sys,
}

-- The workers that have a task and have not sent its batch.
unfoldable pub is_busy : WorkerState → ℕ
is_busy idle = 0
is_busy (received t) = 1
is_busy (fetching t) = 1
is_busy (sending_record t page) = 1
is_busy (sending_batch batch) = 1
is_busy exited = 0

unfoldable pub busy : List WorkerState → ℕ
busy [] = 0
busy (w ∷ ws) = is_busy w + busy ws

unfoldable pub on_the_way : Sys → ℕ
on_the_way s = length s.task_ch + busy s.workers + length s.discovered_ch

pub busy-append : (ws vs : List WorkerState) → busy (ws ++ vs) ≡ busy ws + busy vs
unfolding busy
busy-append [] vs = omega arith
busy-append (w ∷ ws) vs = omega (arith, busy-append ws vs)

-- A worker in the middle of the list takes another state.
pub busy_at :
    (ws : List WorkerState) (w : WorkerState) (vs : List WorkerState)
    → busy (ws ++ w ∷ vs) ≡ is_busy w + busy ws + busy vs
unfolding busy
busy_at ws w vs = omega (arith, busy-append ws (w ∷ vs))

abbrev pub IsCounted : Sys → Type 0
IsCounted s = s.in_flight ≡ on_the_way s

module _ (u : Unicode) (net : Net) (wcfg : WorkerConfig) (cfg : Config)
    (queue_size num_workers : ℕ) where
  step-IsCounted :
      {s t : Sys} → Step u net wcfg cfg queue_size num_workers s t → IsCounted s → IsCounted t
  unfolding on_the_way is_busy
  step-IsCounted (Step.cancel e) h = ground arith
  step-IsCounted (Step.take ws vs task rest w c e) h =
      ground (arith, ap busy w, busy_at ws idle vs, busy_at ws (received task) vs)
  step-IsCounted (Step.give_back ws vs task w c e) h =
      ground
        (arith, ap busy w, busy_at ws (received task) vs, busy_at ws (sending_batch (task ∷ [])) vs)
  step-IsCounted (Step.start_fetch ws vs task w c e) h =
      ground (arith, ap busy w, busy_at ws (received task) vs, busy_at ws (fetching task) vs)
  step-IsCounted (Step.end_fetch ws vs task exchange w e) h = ground (
    arith,
    ap busy w,
    busy_at ws (fetching task) vs,
    busy_at ws (sending_record task (process_page u net wcfg exchange task)) vs,
  )
  step-IsCounted (Step.send_record ws vs task page w c e) h = ground (
    arith,
    ap busy w,
    busy_at ws (sending_record task page) vs,
    busy_at ws (sending_batch (new_tasks task page.links)) vs,
  )
  step-IsCounted {s} (Step.send_batch ws vs batch w c e) h = ground (
    arith,
    ap busy w,
    busy_at ws (sending_batch batch) vs,
    busy_at ws idle vs,
    length-append s.discovered_ch (batch ∷ []),
  )
  step-IsCounted (Step.exit ws vs w c d e) h =
      ground (arith, ap busy w, busy_at ws idle vs, busy_at ws exited vs)
  step-IsCounted (Step.index_record choices page rest c e) h = ground arith
  step-IsCounted (Step.flush_index choices e) h = ground arith
  step-IsCounted (Step.head_end a g saved cleared e) h = unfold finish in ground arith
  step-IsCounted (Step.head_limit a g l z saved cleared e) h = unfold finish in ground arith
  step-IsCounted (Step.head a g l e) h = unfold enter_select in ground arith
  step-IsCounted (Step.limit_batch a batch rest c e) h = unfold drop_batch in ground arith
  step-IsCounted (Step.select_cancel limited a c e) h = unfold start_drain in ground arith
  step-IsCounted {s} (Step.select_send a task rest o r e) h =
      unfold send_overflow in ground (arith, length-append s.task_ch (task ∷ []))
  step-IsCounted (Step.select_batch a batch rest o c e) h = unfold on_batch_overflow in ground arith
  step-IsCounted (Step.select_direct a batch rest o c e) h = unfold on_batch_direct in ground arith
  step-IsCounted (Step.select_flush a saved e) h = unfold flush_visited in ground arith
  step-IsCounted {s} (Step.enqueue_one task tasks a e) h =
      unfold enqueue_next in ground (arith, length-append s.task_ch (task ∷ []))
  step-IsCounted (Step.enqueue_end a e) h = unfold end_enqueue in ground arith
  step-IsCounted (Step.drain_one a batch rest z c e) h = unfold drain_batch in ground arith
  step-IsCounted (Step.drain_end a z saved queued e) h = unfold end_drain in ground arith

  -- In every state that a run passes through, `inFlight` is the number of tasks in `taskCh`, at a
  -- worker or as a batch in `discoveredCh`, if it was so at the start.
  pub Reach-IsCounted :
      {s t : Sys} → IsCounted s → Reach u net wcfg cfg queue_size num_workers s t → IsCounted t
  Reach-IsCounted h here = h
  Reach-IsCounted h (next r st) = step-IsCounted st (Reach-IsCounted h r)
