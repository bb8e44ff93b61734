-- ===== src/Manager/Resume.antt =====
-- What `ResumeCrawlByID` (internal/crawler/manager.go) starts behind the end of a session.
use google_in_a_day_crawler.Base.{
  ℕ, suc, ◌≡◌, ◌≢◌, ◌∙◌, ap, refl, true, List, [], ◌∷◌, arith, some, Text, Text_discrete, codes,
  ◌==◌, ltb, Bool-cases, inl, inr, Option-cases, ◌&&◌,
}
use google_in_a_day_crawler.Store.{
  CrawlSession, Database, set_counters, update_session, write_session, find_session,
  finish_crawl_session, load_crawl_session, select_tasks, select_visited,
  update_session_saved_queue_count, count_session_queue_tasks, load_session_queued_tasks,
  load_session_visited_urls,
}
use google_in_a_day_crawler.Manager.{CrawlTask, Metrics, ActiveCrawl, Manager, find_crawl}
use google_in_a_day_crawler.Manager.Sessions.{
  FinishOutcomes, ResumeOutcomes, resumed, failed, not_stopped, status_for, note_saved_queue,
  finish_row, finish_session, end_crawl, resumed_queue, resumed_config, enter_resumed,
  resume_stopped, resume_crawl_by_id,
}

pub find-update_session :
    (id : ℕ) (change : CrawlSession → CrawlSession) (rows : List CrawlSession) (sess : CrawlSession)
    → ((s : CrawlSession) → (change s).id ≡ s.id)
    → find_session id rows ≡ some sess
    → find_session id (update_session id change rows) ≡ some (change sess)
unfolding find_session update_session
find-update_session id change [] sess keep h = ground arith
find-update_session id change (s ∷ rows) sess keep h = elim (Bool-cases (s.id == id)) [
  | inl e ↦ ground (arith, e, h, keep s)
  | inr e ↦ ground (arith, e, h, keep s, find-update_session id change rows sess keep)
]

-- The row that `finishSession` leaves behind.
unfoldable pub row_after : Metrics → CrawlSession → CrawlSession
row_after metrics sess = record (set_counters metrics.counters sess) {
  status = status_for metrics.stop_reason;
  stop_reason = metrics.stop_reason;
}

finished_row :
    (id : ℕ) (metrics : Metrics) (db : Database) (sess : CrawlSession)
    → find_session id db.sessions ≡ some sess
    → find_session id
        (finish_crawl_session true id
          (status_for metrics.stop_reason)
          metrics.stop_reason
          metrics.counters
          db).sessions
      ≡ some (row_after metrics sess)
unfolding finish_crawl_session write_session row_after set_counters
finished_row id metrics db sess h =
    find-update_session id
      (λ s. record (set_counters metrics.counters s) {
        status = status_for metrics.stop_reason;
        stop_reason = metrics.stop_reason;
      })
      db.sessions sess (λ s. refl) h

noted_row :
    (o : FinishOutcomes) (id : ℕ) (db : Database) (row : CrawlSession)
    → find_session id db.sessions ≡ some row
    → (n : ℕ) × (find_session id (note_saved_queue o id db).sessions
        ≡ some (record row { saved_queue_count = n }))
unfolding note_saved_queue update_session_saved_queue_count write_session
noted_row o id db row h = elim (Option-cases (count_session_queue_tasks o.counted id db)) [
  | inl e ↦ (row.saved_queue_count, rw (e, note_saved_queue) h)
  | inr (n, e) ↦ elim (Bool-cases (ltb 0 n && o.noted)) [
    | inl b ↦ (
      n,
      ground (
        arith,
        e,
        b,
        find-update_session id (λ s. record s { saved_queue_count = n }) db.sessions row (λ s. refl)
            h,
      ),
    )
    | inr b ↦ (row.saved_queue_count, ground (arith, e, b, h))
  ]
]

noted_rest :
    (o : FinishOutcomes) (id : ℕ) (db : Database)
    → ((note_saved_queue o id db).queue ≡ db.queue)
      × ((note_saved_queue o id db).visited ≡ db.visited)
unfolding note_saved_queue update_session_saved_queue_count write_session
noted_rest o id db = ground arith

unnoted_sessions :
    (o : FinishOutcomes) (id : ℕ) (metrics : Metrics) (db : Database)
    → o.finished ≡ true
    → status_for metrics.stop_reason ≢ codes "stopped"
    → (finish_row o id metrics db).sessions
      ≡ (finish_crawl_session true id
          (status_for metrics.stop_reason)
          metrics.stop_reason
          metrics.counters
          db).sessions
unfolding finish_row
unnoted_sessions o id metrics db w e = ground (arith, w, e)

-- A session's row and its saved rows behind `finishSession`.
pub finish_row-row :
    (o : FinishOutcomes) (id : ℕ) (metrics : Metrics) (db : Database) (sess : CrawlSession)
    → o.finished ≡ true
    → find_session id db.sessions ≡ some sess
    → (n : ℕ) × (find_session id (finish_row o id metrics db).sessions
        ≡ some (record (row_after metrics sess) { saved_queue_count = n }))
unfolding finish_row
finish_row-row o id metrics db sess w h =
    let row = finished_row id metrics db sess h in
    let after =
      finish_crawl_session true id (status_for metrics.stop_reason) metrics.stop_reason
        metrics.counters db in
    let noted = noted_row o id after (row_after metrics sess) row in
    elim (Text_discrete (status_for metrics.stop_reason) (codes "stopped")) [
      | yes e ↦ (noted.0, ground (arith, w, e, noted.1))
      | no e ↦ (
        (row_after metrics sess).saved_queue_count,
        ap (find_session id) (unnoted_sessions o id metrics db w e) ∙ row,
      )
    ]

pub finish_row-rest :
    (o : FinishOutcomes) (id : ℕ) (metrics : Metrics) (db : Database)
    → ((finish_row o id metrics db).queue ≡ db.queue)
      × ((finish_row o id metrics db).visited ≡ db.visited)
unfolding finish_row finish_crawl_session write_session
finish_row-rest o id metrics db = ground (
  arith,
  noted_rest o id (
      finish_crawl_session o.finished id (status_for metrics.stop_reason) metrics.stop_reason
        metrics.counters db),
)

pub end_crawl-db :
    (o : FinishOutcomes) (n : ℕ) (m : Manager) (db : Database) (ac : ActiveCrawl)
    → m.db ≡ some db
    → find_crawl (suc n) m.crawls ≡ some ac
    → (end_crawl o (suc n) m).db ≡ some (finish_row o (suc n) ac.metrics db)
unfolding end_crawl finish_session
end_crawl-db o n m db ac d c = ground (arith, d, c)

module _ (r : ResumeOutcomes) (id : ℕ) (m : Manager) (db : Database) (sess : CrawlSession) where
  pub resume_stopped_session :
      r.session_read ≡ true
      → r.visited_read ≡ true
      → r.tasks_read ≡ true
      → m.db ≡ some db
      → find_session id db.sessions ≡ some sess
      → sess.status ≡ codes "stopped"
      → (resume_crawl_by_id r id m).1
        ≡ resumed (record {
          config = resumed_config sess;
          state = record {
            visited = select_visited id db.visited;
            queue = resumed_queue sess (select_tasks id db.queue);
          };
        })
  unfolding resume_crawl_by_id resume_stopped enter_resumed load_crawl_session
      load_session_visited_urls load_session_queued_tasks
  resume_stopped_session a b c d s e = ground (arith, a, b, c, d, s, e)

  resume_other_session :
      r.session_read ≡ true
      → m.db ≡ some db
      → find_session id db.sessions ≡ some sess
      → sess.status ≢ codes "stopped"
      → resume_crawl_by_id r id m ≡ (m, failed not_stopped)
  unfolding resume_crawl_by_id load_crawl_session
  resume_other_session a d s e = ground (arith, a, d, s, e)

pub resumed_queue-same :
    (sess sess' : CrawlSession) (ts : List CrawlTask)
    → sess.origin_url ≡ sess'.origin_url
    → resumed_queue sess ts ≡ resumed_queue sess' ts
unfolding resumed_queue
resumed_queue-same sess sess' ts e = ground (arith, e)

status_for-stopped : status_for (codes "stopped") ≡ codes "stopped"
unfolding status_for Text_discrete
status_for-stopped = refl

status_for-other : (reason : Text) → reason ≢ codes "stopped" → status_for reason ≢ codes "stopped"
unfolding status_for
status_for-other reason h = ground (arith, h)

module _ (o : FinishOutcomes) (r : ResumeOutcomes) (n : ℕ) (m : Manager) (db : Database)
    (ac : ActiveCrawl) (sess : CrawlSession) where
  -- A crawl that ended for the reason `stopped`, with its end recorded, is resumed when the database
  -- can be read: with the configuration of the session's row, the visited URLs saved for the session
  -- and its saved tasks in their order, or its seed when none are saved.
  pub resume-end_crawl :
      o.finished ≡ true
      → r.session_read ≡ true
      → r.visited_read ≡ true
      → r.tasks_read ≡ true
      → m.db ≡ some db
      → find_crawl (suc n) m.crawls ≡ some ac
      → find_session (suc n) db.sessions ≡ some sess
      → ac.metrics.stop_reason ≡ codes "stopped"
      → (resume_crawl_by_id r (suc n) (end_crawl o (suc n) m)).1
        ≡ resumed (record {
          config = resumed_config sess;
          state = record {
            visited = select_visited (suc n) db.visited;
            queue = resumed_queue sess (select_tasks (suc n) db.queue);
          };
        })
  unfolding row_after resumed_config set_counters
  resume-end_crawl w a b c d k s e =
      let row = finish_row-row o (suc n) ac.metrics db sess w s in
      let rest = finish_row-rest o (suc n) ac.metrics db in
      resume_stopped_session r (suc n) (end_crawl o (suc n) m) (finish_row o (suc n) ac.metrics db)
        (record (row_after ac.metrics sess) { saved_queue_count = row.0 }) a b c
        (end_crawl-db o n m db ac d k) row.1 (ap status_for e ∙ status_for-stopped)
      ∙ rw (rest.0, rest.1)
          (ap
            (λ q. resumed (record {
              config = resumed_config sess;
              state = record { visited = select_visited (suc n) db.visited; queue = q };
            }))
            (resumed_queue-same (record (row_after ac.metrics sess) { saved_queue_count = row.0 })
              sess (select_tasks (suc n) db.queue) refl))

  -- A crawl that ended for any other reason, with its end recorded, is refused with an error, when its
  -- row can be read, and the manager stays as it is.
  pub resume-end_crawl_refused :
      o.finished ≡ true
      → r.session_read ≡ true
      → m.db ≡ some db
      → find_crawl (suc n) m.crawls ≡ some ac
      → find_session (suc n) db.sessions ≡ some sess
      → ac.metrics.stop_reason ≢ codes "stopped"
      → resume_crawl_by_id r (suc n) (end_crawl o (suc n) m)
        ≡ (end_crawl o (suc n) m, failed not_stopped)
  unfolding row_after
  resume-end_crawl_refused w a d k s e =
      let row = finish_row-row o (suc n) ac.metrics db sess w s in
      resume_other_session r (suc n) (end_crawl o (suc n) m) (finish_row o (suc n) ac.metrics db)
        (record (row_after ac.metrics sess) { saved_queue_count = row.0 }) a
        (end_crawl-db o n m db ac d k) row.1 (status_for-other ac.metrics.stop_reason e)
