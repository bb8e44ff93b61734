-- ===== src/Crawler/System/Saving.antt =====
-- What a crawl that is stopped leaves in the database (internal/crawler/crawler.go: flushVisited,
-- drainInFlight and saveQueue).
use google_in_a_day_crawler.Base.{
  sym, ◌∙◌, ap, Bool, true, false, ◌&&◌, ◌⊎◌, ℕ, ◌≡◌, refl, List, [], ◌++◌, arith, Text,
  contains-append, contains-count,
}
use google_in_a_day_crawler.Tokens.{Unicode}
use google_in_a_day_crawler.Worker.{CrawlTask, WorkerConfig, Net}
use google_in_a_day_crawler.Crawler.{Config, deduplicate_and_mark, task_urls}
use google_in_a_day_crawler.Crawler.Marking.{marked_once}
use google_in_a_day_crawler.Crawler.System.Steps.{Step, Reach, here, next}
use google_in_a_day_crawler.Crawler.System.{
  looping, Sys, interrupted, finish, enter_select, drop_batch, receive_batch, start_drain,
  send_overflow, on_batch_overflow, on_batch_direct, flush_visited, save_tasks, enqueue_next,
  end_enqueue, drain_batch, end_drain,
}
use google_in_a_day_crawler.Crawler.System.Ending.{ended}
use google_in_a_day_crawler.Crawler.System.Noting.{
  saved_queue, saved_visited, noted, IsSaved, Writes, flush-Writes, save-Writes,
}

module _ (u : Unicode) (net : Net) (wcfg : WorkerConfig) (cfg : Config)
    (queue_size num_workers : ℕ) where
  -- The writes that a turn of the coordinator makes for a resumption succeed.
  unfoldable pub is_written : {s t : Sys} → Step u net wcfg cfg queue_size num_workers s t → Bool
  is_written (Step.head_end a g saved cleared e) = saved
  is_written (Step.head_limit a g l z saved cleared e) = saved
  is_written (Step.select_flush a saved e) = saved
  is_written (Step.drain_end a z saved queued e) = saved && queued
  is_written _ = true

  unfoldable pub IsWritten : {s t : Sys} → Reach u net wcfg cfg queue_size num_workers s t → Type 0
  IsWritten here = Unit
  IsWritten (next r st) = IsWritten r × (is_written st ≡ true)

  same-IsSaved :
      (k : Text) (base : Bool) (s t : Sys)
      → (t.rows ≡ s.rows) × (t.new_visited ≡ s.new_visited) × (t.visited ≡ s.visited)
      → ((t.at ≡ s.at) × (t.overflow ≡ s.overflow)) ⊎ (ended t.at ≡ false)
      → IsSaved k base s
      → IsSaved k base t
  unfolding noted saved_visited saved_queue
  same-IsSaved k base s t r a h = record {
    has_rows = ground (arith, r, h.has_rows);
    marks_noted = ground (arith, r, h.marks_noted);
    queue_saved = λ e. ground (arith, r, a, e, ap ended e, h.queue_saved);
    flushed = λ e. ground (arith, r, a, e, h.flushed);
  }

  marked-IsSaved :
      (k : Text) (base : Bool) (batch : List CrawlTask) (s t : Sys)
      → let m = deduplicate_and_mark cfg batch s.visited in
        t.rows ≡ s.rows
        → t.new_visited ≡ s.new_visited ++ task_urls m.tasks
        → t.visited ≡ m.visited
        → ended t.at ≡ false
        → IsSaved k base s
        → IsSaved k base t
  unfolding noted saved_visited saved_queue
  marked-IsSaved k base batch s t r n v a h =
      let m = deduplicate_and_mark cfg batch s.visited in
      record {
        has_rows = ground (arith, h.has_rows);
        marks_noted = ground (
          arith,
          h.marks_noted,
          marked_once cfg batch s.visited k,
          contains-append k s.new_visited (task_urls m.tasks),
          contains-count k (task_urls m.tasks),
        );
        queue_saved = λ e. ground (arith, a, ap ended e);
        flushed = λ e. ground (arith, a, e);
      }

  written-IsSaved :
      (k : Text) (base : Bool) (s t : Sys)
      → Writes k s t
      → t.new_visited ≡ []
      → (t.at ≡ interrupted → saved_queue t ≡ t.overflow)
      → IsSaved k base s
      → IsSaved k base t
  written-IsSaved k base s t w n q h = record {
    has_rows = w.has_rows;
    marks_noted = ground (arith, w.noted, w.visited, h.marks_noted);
    queue_saved = q;
    flushed = λ e. n;
  }

  flushed-IsSaved :
      (k : Text) (base : Bool) (s : Sys)
      → IsSaved k base s
      → IsSaved k base (record (flush_visited true s) { at = looping })
  unfolding noted saved_visited saved_queue
  flushed-IsSaved k base s h =
      let f = flush-Writes k s h.has_rows in
      written-IsSaved k base s (record (flush_visited true s) { at = looping })
        (record {
          has_rows = f.0.has_rows;
          noted = f.0.noted;
          visited = f.0.visited;
          overflow = f.0.overflow;
        })
        f.1 (λ e. ground arith) h

  finish-IsSaved :
      (k : Text) (base cleared : Bool) (s : Sys)
      → IsSaved k base s
      → IsSaved k base (finish true cleared s)
  unfolding finish noted saved_visited saved_queue
  finish-IsSaved k base cleared s h =
      let f = flush-Writes k s h.has_rows in
      let w = save-Writes k cleared [] (flush_visited true s) f.0.has_rows in
      written-IsSaved k base s (finish true cleared s)
        (record {
          has_rows = w.0.has_rows;
          noted = w.0.noted ∙ f.0.noted;
          visited = w.0.visited ∙ f.0.visited;
          overflow = w.0.overflow ∙ f.0.overflow;
        })
        (w.1 ∙ f.1) (λ e. ground arith) h

  end_drain-IsSaved :
      (k : Text) (base : Bool) (s : Sys) → IsSaved k base s → IsSaved k base (end_drain true true s)
  unfolding end_drain noted saved_visited saved_queue
  end_drain-IsSaved k base s h =
      let w = save-Writes k true s.overflow s h.has_rows in
      let f = flush-Writes k (save_tasks true s.overflow s) w.0.has_rows in
      written-IsSaved k base s (end_drain true true s)
        (record {
          has_rows = f.0.has_rows;
          noted = f.0.noted ∙ w.0.noted;
          visited = f.0.visited ∙ w.0.visited;
          overflow = f.0.overflow ∙ w.0.overflow;
        })
        f.1 (λ e. f.2 ∙ w.2 refl ∙ sym (f.0.overflow ∙ w.0.overflow)) h

  step-IsSaved :
      (k : Text) (base : Bool) {s t : Sys} (st : Step u net wcfg cfg queue_size num_workers s t)
      → is_written st ≡ true
      → IsSaved k base s
      → IsSaved k base t
  unfolding is_written
  step-IsSaved k base {s} {t} (Step.cancel e) p h =
      same-IsSaved k base s t (ground arith) (ground arith) h
  step-IsSaved k base {s} {t} (Step.take ws vs task rest w c e) p h =
      same-IsSaved k base s t (ground arith) (ground arith) h
  step-IsSaved k base {s} {t} (Step.give_back ws vs task w c e) p h =
      same-IsSaved k base s t (ground arith) (ground arith) h
  step-IsSaved k base {s} {t} (Step.start_fetch ws vs task w c e) p h =
      same-IsSaved k base s t (ground arith) (ground arith) h
  step-IsSaved k base {s} {t} (Step.end_fetch ws vs task exchange w e) p h =
      same-IsSaved k base s t (ground arith) (ground arith) h
  step-IsSaved k base {s} {t} (Step.send_record ws vs task page w c e) p h =
      same-IsSaved k base s t (ground arith) (ground arith) h
  step-IsSaved k base {s} {t} (Step.send_batch ws vs batch w c e) p h =
      same-IsSaved k base s t (ground arith) (ground arith) h
  step-IsSaved k base {s} {t} (Step.exit ws vs w c d e) p h =
      same-IsSaved k base s t (ground arith) (ground arith) h
  step-IsSaved k base {s} {t} (Step.index_record choices page rest c e) p h =
      same-IsSaved k base s t (ground arith) (ground arith) h
  step-IsSaved k base {s} {t} (Step.flush_index choices e) p h =
      same-IsSaved k base s t (ground arith) (ground arith) h
  step-IsSaved k base {s} {t} (Step.head a g l e) p h =
      unfold enter_select in same-IsSaved k base s t (ground arith) (ground arith) h
  step-IsSaved k base {s} {t} (Step.limit_batch a batch rest c e) p h =
      unfold drop_batch in same-IsSaved k base s t (ground arith) (ground arith) h
  step-IsSaved k base {s} {t} (Step.select_cancel limited a c e) p h =
      unfold start_drain in same-IsSaved k base s t (ground arith) (ground arith) h
  step-IsSaved k base {s} {t} (Step.select_send a task rest o r e) p h =
      unfold send_overflow in same-IsSaved k base s t (ground arith) (ground arith) h
  step-IsSaved k base {s} {t} (Step.enqueue_one task tasks a e) p h =
      unfold enqueue_next in same-IsSaved k base s t (ground arith) (ground arith) h
  step-IsSaved k base {s} {t} (Step.enqueue_end a e) p h =
      unfold end_enqueue in same-IsSaved k base s t (ground arith) (ground arith) h
  step-IsSaved k base {s} {t} (Step.drain_one a batch rest z c e) p h =
      unfold drain_batch in same-IsSaved k base s t (ground arith) (ground arith) h
  step-IsSaved k base {s} {t} (Step.select_batch a batch rest o c e) p h =
      unfold on_batch_overflow receive_batch in
      marked-IsSaved k base batch s t (ground arith) (ground arith) (ground arith) (ground arith) h
  step-IsSaved k base {s} {t} (Step.select_direct a batch rest o c e) p h =
      unfold on_batch_direct receive_batch in
      marked-IsSaved k base batch s t (ground arith) (ground arith) (ground arith) (ground arith) h
  step-IsSaved k base {s} (Step.select_flush a true e) p h = rw e (flushed-IsSaved k base s h)
  step-IsSaved k base {s} (Step.select_flush a false e) p h = ground arith
  step-IsSaved k base {s} (Step.head_end a g true cleared e) p h =
      rw e (finish-IsSaved k base cleared s h)
  step-IsSaved k base {s} (Step.head_end a g false cleared e) p h = ground arith
  step-IsSaved k base {s} (Step.head_limit a g l z true cleared e) p h =
      let t = record s { overflow = [] } in
      rw e
        (finish-IsSaved k base cleared t (same-IsSaved k base s t (ground arith) (ground arith) h))
  step-IsSaved k base {s} (Step.head_limit a g l z false cleared e) p h = ground arith
  step-IsSaved k base {s} (Step.drain_end a z true true e) p h = rw e (end_drain-IsSaved k base s h)
  step-IsSaved k base {s} (Step.drain_end a z true false e) p h = ground arith
  step-IsSaved k base {s} (Step.drain_end a z false queued e) p h = ground arith

  pub Reach-IsSaved :
      (k : Text) (base : Bool) {s t : Sys}
      → IsSaved k base s
      → (r : Reach u net wcfg cfg queue_size num_workers s t) → IsWritten r
      → IsSaved k base t
  unfolding IsWritten
  Reach-IsSaved k base h here p = h
  Reach-IsSaved k base h (next r st) p = step-IsSaved k base st p.1 (Reach-IsSaved k base h r p.0)
