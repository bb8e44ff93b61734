-- ===== src/Crawler/System/Ending.antt =====
-- How a run of internal/crawler/crawler.go ends: what the coordinator leaves behind when its loop is
-- over, and after `drainInFlight`.
use google_in_a_day_crawler.Base.{◌⊎◌, ℕ, ◌≡◌, Bool, true, false, arith}
use google_in_a_day_crawler.Tokens.{Unicode}
use google_in_a_day_crawler.Worker.{WorkerConfig, Net}
use google_in_a_day_crawler.Crawler.{Config}
use google_in_a_day_crawler.Crawler.System.Steps.{Step, Reach, here, next}
use google_in_a_day_crawler.Crawler.System.{
  Sys, Coordinator, draining, finished, interrupted, finish, enter_select, drop_batch, start_drain,
  send_overflow, on_batch_overflow, on_batch_direct, flush_visited, enqueue_next, end_enqueue,
  drain_batch, end_drain,
}
use google_in_a_day_crawler.Crawler.System.Scheduling.{goes_on-false}

abbrev pub ended : Coordinator → Bool
ended finished = true
ended interrupted = true
ended _ = false

-- The counter is zero behind the loop, and the drain begins only after a cancellation.
pub record EndsAtZero (s : Sys) : Type 0 where
  pub zero_at_end : ended s.at ≡ true → s.in_flight ≡ 0
  pub drained_if_cancelled : (s.at ≡ draining) ⊎ (s.at ≡ interrupted) → s.cancelled ≡ true

module _ (u : Unicode) (net : Net) (wcfg : WorkerConfig) (cfg : Config)
    (queue_size num_workers : ℕ) where
  step-EndsAtZero :
      {s t : Sys} → Step u net wcfg cfg queue_size num_workers s t → EndsAtZero s → EndsAtZero t
  step-EndsAtZero (Step.cancel e) h = ground arith
  step-EndsAtZero (Step.take ws vs task rest w c e) h = ground arith
  step-EndsAtZero (Step.give_back ws vs task w c e) h = ground arith
  step-EndsAtZero (Step.start_fetch ws vs task w c e) h = ground arith
  step-EndsAtZero (Step.end_fetch ws vs task exchange w e) h = ground arith
  step-EndsAtZero (Step.send_record ws vs task page w c e) h = ground arith
  step-EndsAtZero (Step.send_batch ws vs batch w c e) h = ground arith
  step-EndsAtZero (Step.exit ws vs w c d e) h = ground arith
  step-EndsAtZero (Step.index_record choices page rest c e) h = ground arith
  step-EndsAtZero (Step.flush_index choices e) h = ground arith
  step-EndsAtZero {s} (Step.head_end a g saved cleared e) h =
      unfold finish in ground (arith, goes_on-false s g)
  step-EndsAtZero (Step.head_limit a g l z saved cleared e) h = unfold finish in ground arith
  step-EndsAtZero (Step.head a g l e) h = unfold enter_select in ground arith
  step-EndsAtZero (Step.limit_batch a batch rest c e) h = unfold drop_batch in ground arith
  step-EndsAtZero (Step.select_cancel limited a c e) h = unfold start_drain in ground arith
  step-EndsAtZero (Step.select_send a task rest o r e) h = unfold send_overflow in ground arith
  step-EndsAtZero (Step.select_batch a batch rest o c e) h =
      unfold on_batch_overflow in ground arith
  step-EndsAtZero (Step.select_direct a batch rest o c e) h = unfold on_batch_direct in ground arith
  step-EndsAtZero (Step.select_flush a saved e) h = unfold flush_visited in ground arith
  step-EndsAtZero (Step.enqueue_one task tasks a e) h = unfold enqueue_next in ground arith
  step-EndsAtZero (Step.enqueue_end a e) h = unfold end_enqueue in ground arith
  step-EndsAtZero (Step.drain_one a batch rest z c e) h = unfold drain_batch in ground arith
  step-EndsAtZero (Step.drain_end a z saved queued e) h = unfold end_drain in ground arith

  pub Reach-EndsAtZero :
      {s t : Sys} → EndsAtZero s → Reach u net wcfg cfg queue_size num_workers s t → EndsAtZero t
  Reach-EndsAtZero h here = h
  Reach-EndsAtZero h (next r st) = step-EndsAtZero st (Reach-EndsAtZero h r)
