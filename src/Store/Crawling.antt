-- ===== src/Store/Crawling.antt =====
-- The database of a whole crawl: each turn of internal/crawler/crawler.go with its calls of
-- internal/storage/sqlite.go.
use google_in_a_day_crawler.Base.{
  subst, ◌<◌, ltb, Option-cases, List-cases, ℕ, ◌≡◌, ◌∙◌, refl, Bool, false, List, [], ◌∷◌, arith,
  inl, inr, Text, some, ◌==◌, if◌then◌else◌,
}
use google_in_a_day_crawler.Store.Tables.{add_visited_urls, save_queued_tasks}
use google_in_a_day_crawler.Tokens.{Unicode}
use google_in_a_day_crawler.Worker.{CrawlTask, WorkerConfig, Net}
use google_in_a_day_crawler.Crawler.{Config}
use google_in_a_day_crawler.Crawler.System.{
  Sys, flush_visited, save_tasks, finish, enter_select, drop_batch, start_drain, send_overflow,
  on_batch_overflow, on_batch_direct, enqueue_next, end_enqueue, drain_batch, end_drain,
}
use google_in_a_day_crawler.Crawler.System.Steps.{Step, Reach, here, next}
use google_in_a_day_crawler.Store.{Database, save_session_queued_tasks, add_session_visited_urls}
use google_in_a_day_crawler.Store.Views.{
  view, view-add_session_visited_urls, view-save_session_queued_tasks,
}

-- `flushVisited` on the database. A crawl without a session has the id 0.
unfoldable pub flush_store : Bool → ℕ → List Text → Database → Database
flush_store saved id [] db = db
flush_store saved id (url ∷ urls) db =
    if ltb 0 id
    then add_session_visited_urls saved id (url ∷ urls) db
    else add_visited_urls saved (url ∷ urls) db

-- The rows of the queue are written anew.
unfoldable pub queue_store : Bool → ℕ → List CrawlTask → Database → Database
queue_store queued id tasks db =
    if ltb 0 id
    then save_session_queued_tasks queued id tasks db
    else save_queued_tasks queued tasks db

-- `saveQueue`: the queue first, and then the visited URLs.
unfoldable pub save_store : Bool → Bool → ℕ → Sys → Database → Database
unfolding flush_store queue_store
save_store saved queued id s db =
    flush_store saved id s.new_visited (queue_store queued id s.overflow db)

-- The normal end: the visited URLs are flushed, and the saved queue is emptied.
pub finish_store : Bool → Bool → ℕ → Sys → Database → Database
unfolding flush_store queue_store
finish_store saved cleared id s db =
    queue_store cleared id [] (flush_store saved id s.new_visited db)

-- The database `db` shows the session the rows of `s`, and another session what `base` shows it.
pub record Shows (id k : ℕ) (base : Database) (s : Sys) (db : Database) : Type 0 where
  pub own : s.rows ≡ some (view id db)
  pub others : (id == k) ≡ false → view k db ≡ view k base

flush-Shows :
    (saved : Bool) (id k : ℕ) (base : Database) (s : Sys) (db : Database)
    → 0 < id
    → Shows id k base s db
    → Shows id k base (flush_visited saved s) (flush_store saved id s.new_visited db)
unfolding flush_visited flush_store
flush-Shows saved id k base s db p h = elim (List-cases s.new_visited) [
  | inl e ↦ record {
    own = ground (arith, h.own, e);
    others = λ d. ground (arith, d, h.others d, e);
  }
  | inr (url, urls, e) ↦ record {
    own = ground (arith, h.own, e, view-add_session_visited_urls saved id id (url ∷ urls) db);
    others = λ d.
        ground (arith, d, h.others d, e, view-add_session_visited_urls saved id k (url ∷ urls) db);
  }
]

save-Shows :
    (saved : Bool) (tasks : List CrawlTask) (id k : ℕ) (base : Database) (s : Sys) (db : Database)
    → 0 < id
    → Shows id k base s db
    → Shows id k base (save_tasks saved tasks s) (queue_store saved id tasks db)
unfolding save_tasks queue_store
save-Shows saved tasks id k base s db p h = record {
  own = ground (arith, h.own, view-save_session_queued_tasks saved id id tasks db);
  others = λ e. ground (arith, e, h.others e, view-save_session_queued_tasks saved id k tasks db);
}

-- A turn leaves the database alone.
same-Shows :
    (id k : ℕ) (base : Database) (s t : Sys) (db : Database)
    → t.rows ≡ s.rows
    → Shows id k base s db
    → Shows id k base t db
same-Shows id k base s t db r h = record { own = r ∙ h.own; others = h.others }

new_visited-save_tasks :
    (saved : Bool) (tasks : List CrawlTask) (s : Sys)
    → (save_tasks saved tasks s).new_visited ≡ s.new_visited
unfolding save_tasks
new_visited-save_tasks saved tasks s = elim (Option-cases s.rows) [
  | inl e ↦ ground (arith, e)
  | inr (rows, e) ↦ ground (arith, e)
]

module _ (u : Unicode) (net : Net) (wcfg : WorkerConfig) (cfg : Config) (queue_size num_workers : ℕ)
    (id : ℕ) where
  -- What a turn does to the database.
  unfoldable pub store_step :
      {s t : Sys} → Step u net wcfg cfg queue_size num_workers s t → Database → Database
  store_step {s} (Step.head_end a g saved cleared e) db = finish_store saved cleared id s db
  store_step {s} (Step.head_limit a g l z saved cleared e) db = finish_store saved cleared id s db
  store_step {s} (Step.select_flush a saved e) db = flush_store saved id s.new_visited db
  store_step {s} (Step.drain_end a z saved queued e) db = save_store saved queued id s db
  store_step _ db = db

  unfoldable pub store_run :
      {s t : Sys} → Reach u net wcfg cfg queue_size num_workers s t → Database → Database
  unfolding store_step
  store_run here db = db
  store_run (next r st) db = store_step st (store_run r db)

  module _ (p : 0 < id) where
    finish-Shows :
        (saved cleared : Bool) (k : ℕ) (base : Database) (s : Sys) (db : Database)
        → Shows id k base s db
        → Shows id k base (finish saved cleared s) (finish_store saved cleared id s db)
    unfolding finish finish_store
    finish-Shows saved cleared k base s db h =
        let t = flush_visited saved s in
        let db' = flush_store saved id s.new_visited db in
        same-Shows id k base (save_tasks cleared [] t) _ (queue_store cleared id [] db') refl
          (save-Shows cleared [] id k base t db' p (flush-Shows saved id k base s db p h))

    drain-Shows :
        (saved queued : Bool) (k : ℕ) (base : Database) (s : Sys) (db : Database)
        → Shows id k base s db
        → Shows id k base (end_drain saved queued s) (save_store saved queued id s db)
    unfolding end_drain save_store
    drain-Shows saved queued k base s db h =
        let t = save_tasks queued s.overflow s in
        let db' = queue_store queued id s.overflow db in
        same-Shows id k base (flush_visited saved t) _ (flush_store saved id s.new_visited db') refl
          (subst (λ urls. Shows id k base (flush_visited saved t) (flush_store saved id urls db'))
            (new_visited-save_tasks queued s.overflow s)
            (flush-Shows saved id k base t db' p (save-Shows queued s.overflow id k base s db p h)))

    step-Shows :
        (k : ℕ) (base : Database) {s t : Sys} (db : Database)
        (st : Step u net wcfg cfg queue_size num_workers s t)
        → Shows id k base s db
        → Shows id k base t (store_step st db)
    unfolding store_step drain_batch drop_batch end_enqueue enqueue_next enter_select
        on_batch_direct on_batch_overflow send_overflow start_drain finish_store
    step-Shows k base {s} {t} db (Step.cancel e) h = same-Shows id k base s t db (ground arith) h
    step-Shows k base {s} {t} db (Step.take ws vs task rest w c e) h =
        same-Shows id k base s t db (ground arith) h
    step-Shows k base {s} {t} db (Step.give_back ws vs task w c e) h =
        same-Shows id k base s t db (ground arith) h
    step-Shows k base {s} {t} db (Step.start_fetch ws vs task w c e) h =
        same-Shows id k base s t db (ground arith) h
    step-Shows k base {s} {t} db (Step.end_fetch ws vs task exchange w e) h =
        same-Shows id k base s t db (ground arith) h
    step-Shows k base {s} {t} db (Step.send_record ws vs task page w c e) h =
        same-Shows id k base s t db (ground arith) h
    step-Shows k base {s} {t} db (Step.send_batch ws vs batch w c e) h =
        same-Shows id k base s t db (ground arith) h
    step-Shows k base {s} {t} db (Step.exit ws vs w c d e) h =
        same-Shows id k base s t db (ground arith) h
    step-Shows k base {s} {t} db (Step.index_record choices page rest c e) h =
        same-Shows id k base s t db (ground arith) h
    step-Shows k base {s} {t} db (Step.flush_index choices e) h =
        same-Shows id k base s t db (ground arith) h
    step-Shows k base {s} {t} db (Step.head a g l e) h =
        same-Shows id k base s t db (ground arith) h
    step-Shows k base {s} {t} db (Step.limit_batch a batch rest c e) h =
        same-Shows id k base s t db (ground arith) h
    step-Shows k base {s} {t} db (Step.select_cancel limited a c e) h =
        same-Shows id k base s t db (ground arith) h
    step-Shows k base {s} {t} db (Step.select_send a task rest o room e) h =
        same-Shows id k base s t db (ground arith) h
    step-Shows k base {s} {t} db (Step.select_batch a batch rest o d e) h =
        same-Shows id k base s t db (ground arith) h
    step-Shows k base {s} {t} db (Step.select_direct a batch rest o d e) h =
        same-Shows id k base s t db (ground arith) h
    step-Shows k base {s} {t} db (Step.enqueue_one task tasks a e) h =
        same-Shows id k base s t db (ground arith) h
    step-Shows k base {s} {t} db (Step.enqueue_end a e) h =
        same-Shows id k base s t db (ground arith) h
    step-Shows k base {s} {t} db (Step.drain_one a batch rest z d e) h =
        same-Shows id k base s t db (ground arith) h
    step-Shows k base {s} {t} db (Step.head_end a g saved cleared e) h =
        same-Shows id k base (finish saved cleared s) t _ (ground arith)
          (finish-Shows saved cleared k base s db h)
    step-Shows k base {s} {t} db (Step.head_limit a g l z saved cleared e) h =
        same-Shows id k base (finish saved cleared (record s { overflow = [] })) t _ (ground arith)
          (finish-Shows saved cleared k base (record s { overflow = [] }) db
            (same-Shows id k base s (record s { overflow = [] }) db refl h))
    step-Shows k base {s} {t} db (Step.select_flush a saved e) h =
        same-Shows id k base (flush_visited saved s) t _ (ground arith)
          (flush-Shows saved id k base s db p h)
    step-Shows k base {s} {t} db (Step.drain_end a z saved queued e) h =
        same-Shows id k base (end_drain saved queued s) t _ (ground arith)
          (drain-Shows saved queued k base s db h)

    -- Whatever turns a crawl of the session `id` takes and whichever of its writes fail: if at its start the
    -- crawl's rows are those that the tables hold for the session, then so they are at its end, with the
    -- writes made by the statements of the database, and every other session has in the tables what it had.
    pub store_run-Shows :
        (k : ℕ) {s t : Sys} (db : Database) (r : Reach u net wcfg cfg queue_size num_workers s t)
        → s.rows ≡ some (view id db)
        → Shows id k db t (store_run r db)
    unfolding store_run
    store_run-Shows k db here h = record { own = h; others = λ e. refl }
    store_run-Shows k db (next r st) h =
        step-Shows k db (store_run r db) st (store_run-Shows k db r h)
