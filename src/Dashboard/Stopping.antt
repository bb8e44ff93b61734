-- ===== src/Dashboard/Stopping.antt =====
-- The action `stop_crawl` of internal/dashboard/server.go, and the resumption behind it.
mod Examples
use google_in_a_day_crawler.Base.{
  ℕ, ◌≡◌, ◌∙◌, refl, ap, true, List, Option, some, ℤ, pos, Text, codes, arith,
}
use google_in_a_day_crawler.PData.Decimal.{atoi}
use google_in_a_day_crawler.Store.{
  CrawlSession, Database, find_session, select_tasks, select_visited, update_session_status,
  write_session,
}
use google_in_a_day_crawler.Manager.{Manager}
use google_in_a_day_crawler.Manager.Sessions.{
  ResumeOutcomes, resumed, resumed_config, resumed_queue,
}
use google_in_a_day_crawler.Manager.Resume.{
  find-update_session, resume_stopped_session, resumed_queue-same,
}
use google_in_a_day_crawler.Dashboard.{Form, stop_by, resume_by}
use google_in_a_day_crawler.Dashboard.Page.{Ended, end_all, mark_stopped, stop_one, act_stop_crawl}

-- The database that `UpdateSessionStatus` leaves.
marked : ℕ → Database → Database
marked id db = update_session_status true id (codes "stopped") db

act_stop_crawl-db :
    (ended : List Ended) (form : Form) (m : Manager) (id : ℕ) (db : Database)
    → atoi (form (codes "crawl_id")) ≡ some (pos id)
    → (end_all ended (stop_by (pos id) m).0).db ≡ some db
    → (act_stop_crawl true ended form m).db ≡ some (marked id db)
unfolding act_stop_crawl stop_one mark_stopped marked
act_stop_crawl-db ended form m id db f d = ground (arith, f, d)

marked-row :
    (id : ℕ) (db : Database) (sess : CrawlSession)
    → find_session id db.sessions ≡ some sess
    → find_session id (marked id db).sessions ≡ some (record sess { status = codes "stopped" })
unfolding marked update_session_status write_session
marked-row id db sess h =
    find-update_session id (λ s. record s { status = codes "stopped" }) db.sessions sess (λ s. refl)
      h

-- Behind the action `stop_crawl`, with its write of the status made, the session is resumed when the
-- database can be read: with the configuration of its row, the visited URLs and the tasks that the
-- database holds for it when the wait is over, or its seed when there are no tasks. This holds whatever
-- the status of the session was and whichever crawls ended meanwhile.
pub act_stop_crawl-resumes :
    (ended : List Ended) (form : Form) (r : ResumeOutcomes) (m : Manager) (id : ℕ) (db : Database)
    (sess : CrawlSession)
    → atoi (form (codes "crawl_id")) ≡ some (pos id)
    → (end_all ended (stop_by (pos id) m).0).db ≡ some db
    → find_session id db.sessions ≡ some sess
    → r.session_read ≡ true
    → r.visited_read ≡ true
    → r.tasks_read ≡ true
    → (resume_by r (pos id) (act_stop_crawl true ended form m)).1
      ≡ resumed (record {
        config = resumed_config sess;
        state = record {
          visited = select_visited id db.visited;
          queue = resumed_queue sess (select_tasks id db.queue);
        };
      })
unfolding resume_by marked update_session_status write_session resumed_config
act_stop_crawl-resumes ended form r m id db sess f d h a b c =
    resume_stopped_session r id (act_stop_crawl true ended form m) (marked id db)
      (record sess { status = codes "stopped" }) a b c (act_stop_crawl-db ended form m id db f d)
      (marked-row id db sess h) refl
    ∙ ap
        (λ q. resumed (record {
          config = resumed_config sess;
          state = record { visited = select_visited id db.visited; queue = q };
        }))
        (resumed_queue-same (record sess { status = codes "stopped" }) sess
          (select_tasks id db.queue) refl)
