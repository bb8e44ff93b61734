-- ===== src/Manager/Keeping.antt =====
-- Each method of internal/crawler/manager.go keeps the manager orderly.
use google_in_a_day_crawler.Base.{
  List-cases, ℕ, zero, suc, ◌≢◌, subst, Bool, List, ◌∷◌, some, Text, Text_discrete, codes, ltb, ite,
  Option-cases, Bool-cases, inl, inr,
}
use google_in_a_day_crawler.Worker.{CrawlTask}
use google_in_a_day_crawler.Crawler.{Config}
use google_in_a_day_crawler.Store.{
  Database, CrawlSession, load_crawl_session, finish_crawl_session, count_session_queue_tasks,
  load_session_visited_urls, load_session_queued_tasks,
}
use google_in_a_day_crawler.Store.Rows.{
  IsOrderedDb, finish_crawl_session-IsOrderedDb, update_session_status-IsOrderedDb,
  update_session_saved_queue_count-IsOrderedDb, update_crawl_session_metrics-IsOrderedDb,
  load_crawl_session-positive,
}
use google_in_a_day_crawler.Store.Tables.{load_visited_urls, load_queued_tasks}
use google_in_a_day_crawler.Manager.{Manager, Metrics, find_crawl, create_session, start_crawl}
use google_in_a_day_crawler.Manager.Sessions.{
  status_for, stop_crawl, stop_crawl_by_id, FinishOutcomes, note_saved_queue, finish_row,
  finish_session, end_crawl, ResumeOutcomes, enter_resumed, resume_stopped, resume_crawl_by_id,
  remove_active_crawl, status_for, ResumeResult,
}
use google_in_a_day_crawler.Manager.Readers.{enter_restored, resume_crawl, update_tick}
use google_in_a_day_crawler.Manager.Orderly.{
  IsOrderly, create_session-IsOrderedDb, delete_crawl-HasKeys, put_crawl-HasKeys, cancel_in-HasKeys,
  cancel_all-HasKeys,
}
use google_in_a_day_crawler.Manager.Running.{with_id-positive}

pub start_crawl-IsOrderly :
    (saved removed : Bool) (cfg : Config) (m : Manager)
    → IsOrderly m
    → IsOrderly (start_crawl saved removed cfg m).0
unfolding start_crawl
start_crawl-IsOrderly saved removed cfg m h = record {
  keys =
      put_crawl-HasKeys _ m.crawls
        (with_id-positive (create_session saved cfg (codes "running") m.db).id m.next_id) h.keys;
  rows = create_session-IsOrderedDb saved cfg (codes "running") m.db h.rows;
}

pub stop_crawl-IsOrderly : (m : Manager) → IsOrderly m → IsOrderly (stop_crawl m)
unfolding stop_crawl
stop_crawl-IsOrderly m h = record { keys = cancel_all-HasKeys m.crawls h.keys; rows = h.rows }

pub stop_crawl_by_id-IsOrderly :
    (id : ℕ) (m : Manager) → IsOrderly m → IsOrderly (stop_crawl_by_id id m).0
unfolding stop_crawl_by_id
stop_crawl_by_id-IsOrderly id m h = elim (Option-cases (find_crawl id m.crawls)) [
  | inl e ↦ rw (e, stop_crawl_by_id) h
  | inr (ac, e) ↦
      rw (e, stop_crawl_by_id)
        (record { keys = cancel_in-HasKeys id m.crawls h.keys; rows = h.rows })
]

pub remove_active_crawl-IsOrderly :
    (id : ℕ) (m : Manager) → IsOrderly m → IsOrderly (remove_active_crawl id m)
unfolding remove_active_crawl
remove_active_crawl-IsOrderly id m h = record {
  keys = delete_crawl-HasKeys id m.crawls h.keys;
  rows = h.rows;
}

ite_keeps : {A B : Type 0} (P : B → Type 0) (d : Dec A) {a b : B} → P a → P b → P (ite d a b)
ite_keeps P (yes e) p q = p
ite_keeps P (no n) p q = q

note_saved_queue-IsOrderedDb :
    (o : FinishOutcomes) (id : ℕ) (db : Database)
    → IsOrderedDb (some db)
    → IsOrderedDb (some (note_saved_queue o id db))
unfolding note_saved_queue
note_saved_queue-IsOrderedDb o id db h =
    elim (Option-cases (count_session_queue_tasks o.counted id db)) [
      | inl e ↦ rw (e, note_saved_queue) h
      | inr (n, e) ↦
          rw (e, note_saved_queue)
            (elim (Bool-cases (ltb 0 n)) [
              | inl p ↦ rw (p) (update_session_saved_queue_count-IsOrderedDb o.noted id n db h)
              | inr p ↦ rw (p) h
            ])
    ]

finish_row-IsOrderedDb :
    (o : FinishOutcomes) (id : ℕ) (metrics : Metrics) (db : Database)
    → IsOrderedDb (some db)
    → IsOrderedDb (some (finish_row o id metrics db))
unfolding finish_row
finish_row-IsOrderedDb o id metrics db h =
    let status = status_for metrics.stop_reason in
    let after = finish_crawl_session o.finished id status metrics.stop_reason metrics.counters db in
    let kept : IsOrderedDb (some after) =
      finish_crawl_session-IsOrderedDb o.finished id status metrics.stop_reason metrics.counters db
        h in
    ite_keeps (λ d. IsOrderedDb (some d)) (Text_discrete status (codes "stopped"))
      (note_saved_queue-IsOrderedDb o id after kept) kept

finish_session-IsOrderly :
    (o : FinishOutcomes) (id : ℕ) (m : Manager) → IsOrderly m → IsOrderly (finish_session o id m)
unfolding finish_session
finish_session-IsOrderly o zero m h = h
finish_session-IsOrderly o (suc n) m h = elim (Option-cases (find_crawl (suc n) m.crawls)) [
  | inl e ↦ rw (e, finish_session) h
  | inr (ac, e) ↦
      rw (e, finish_session)
        (elim (Option-cases m.db) [
          | inl d ↦ rw (d) h
          | inr (db, d) ↦ rw (d) (record {
            keys = h.keys;
            rows = finish_row-IsOrderedDb o (suc n) ac.metrics db (subst IsOrderedDb d h.rows);
          })
        ])
]

pub end_crawl-IsOrderly :
    (o : FinishOutcomes) (id : ℕ) (m : Manager) → IsOrderly m → IsOrderly (end_crawl o id m)
unfolding end_crawl
end_crawl-IsOrderly o id m h =
    let after = finish_session-IsOrderly o id m h in
    record {
      keys = delete_crawl-HasKeys id (finish_session o id m).crawls after.keys;
      rows = after.rows;
    }

pub update_tick-IsOrderly :
    (saved : Bool) (id : ℕ) (metrics : Metrics) (m : Manager)
    → IsOrderly m
    → IsOrderly (update_tick saved id metrics m)
unfolding update_tick
update_tick-IsOrderly saved zero metrics m h = h
update_tick-IsOrderly saved (suc n) metrics m h = elim (Option-cases m.db) [
  | inl d ↦ rw (d, update_tick) h
  | inr (db, d) ↦
      rw (d, update_tick)
        (record {
          keys = h.keys;
          rows =
              update_crawl_session_metrics-IsOrderedDb saved (suc n) metrics.counters db
                (subst IsOrderedDb d h.rows);
        })
]

enter_resumed-IsOrderly :
    (o : ResumeOutcomes) (id : ℕ) (sess : CrawlSession) (visited : List Text)
    (tasks : List CrawlTask) (db : Database) (m : Manager)
    → id ≢ 0
    → IsOrderedDb (some db)
    → IsOrderly m
    → IsOrderly (enter_resumed o id sess visited tasks db m).0
unfolding enter_resumed IsOrderedDb
enter_resumed-IsOrderly o id sess visited tasks db m z d h = record {
  keys = put_crawl-HasKeys _ m.crawls z h.keys;
  rows =
      update_session_saved_queue_count-IsOrderedDb o.count_written id 0 _
        (update_session_status-IsOrderedDb o.status_written id (codes "running") db d);
}

resume_stopped-IsOrderly :
    (o : ResumeOutcomes) (id : ℕ) (sess : CrawlSession) (db : Database) (m : Manager)
    → id ≢ 0
    → IsOrderedDb (some db)
    → IsOrderly m
    → IsOrderly (resume_stopped o id sess db m).0
unfolding resume_stopped remove_active_crawl
resume_stopped-IsOrderly o id sess db m z d h =
    let left = remove_active_crawl-IsOrderly id m h in
    elim (Option-cases (load_session_visited_urls o.visited_read id db)) [
      | inl e ↦ rw (e, resume_stopped) left
      | inr (visited, e) ↦
          rw (e, resume_stopped)
            (elim (Option-cases (load_session_queued_tasks o.tasks_read id db)) [
              | inl t ↦ rw (t) left
              | inr (tasks, t) ↦ rw (t) (
                  enter_resumed-IsOrderly o id sess visited tasks db (remove_active_crawl id m) z d
                    left)
            ])
    ]

pub resume_crawl_by_id-IsOrderly :
    (o : ResumeOutcomes) (id : ℕ) (m : Manager)
    → IsOrderly m
    → IsOrderly (resume_crawl_by_id o id m).0
unfolding resume_crawl_by_id
resume_crawl_by_id-IsOrderly o id m h = elim (Option-cases m.db) [
  | inl d ↦ rw (d, resume_crawl_by_id) h
  | inr (db, d) ↦
      rw (d, resume_crawl_by_id)
        (elim (Option-cases (load_crawl_session o.session_read id db)) [
          | inl e ↦ rw (e) h
          | inr (sess, e) ↦ rw (e) (
              let rows : IsOrderedDb (some db) = subst IsOrderedDb d h.rows in
              let z : id ≢ 0 = load_crawl_session-positive o.session_read id db sess rows e in
              ite_keeps {B = Manager × ResumeResult} (λ r. IsOrderly r.0)
                (Text_discrete sess.status (codes "stopped"))
                (resume_stopped-IsOrderly o id sess db m z rows h) h)
        ])
]

enter_restored-IsOrderly :
    (saved : Bool) (cfg : Config) (visited : List Text) (queue : List CrawlTask) (m : Manager)
    → IsOrderly m
    → IsOrderly (enter_restored saved cfg visited queue m).0
unfolding enter_restored
enter_restored-IsOrderly saved cfg visited queue m h = record {
  keys =
      put_crawl-HasKeys _ m.crawls
        (with_id-positive (create_session saved cfg (codes "running") m.db).id m.next_id) h.keys;
  rows = create_session-IsOrderedDb saved cfg (codes "running") m.db h.rows;
}

pub resume_crawl-IsOrderly :
    (visited_read tasks_read saved : Bool) (cfg : Config) (m : Manager)
    → IsOrderly m
    → IsOrderly (resume_crawl visited_read tasks_read saved cfg m).0
unfolding resume_crawl
resume_crawl-IsOrderly visited_read tasks_read saved cfg m h = elim (Option-cases m.db) [
  | inl d ↦ rw (d, resume_crawl) h
  | inr (db, d) ↦
      rw (d, resume_crawl)
        (elim (Option-cases (load_visited_urls visited_read db)) [
          | inl e ↦ rw (e) h
          | inr (visited, e) ↦ rw (e) (elim (Option-cases (load_queued_tasks tasks_read db)) [
            | inl t ↦ rw (t) h
            | inr (tasks, t) ↦ rw (t) (elim (List-cases tasks) [
              | inl q ↦ rw (q) h
              | inr (task, rest, q) ↦
                  rw (q) (enter_restored-IsOrderly saved cfg visited (task ∷ rest) m h)
            ])
          ])
        ])
]
