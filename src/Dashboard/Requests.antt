-- ===== src/Dashboard/Requests.antt =====
-- The actions of `handlePage` (internal/dashboard/server.go) keep the manager orderly.
use google_in_a_day_crawler.Base.{
  ℕ, subst, Bool, true, false, List, [], ◌∷◌, Text, codes, ℤ, pos, negsuc, if◌then◌else◌,
  Option-cases, inl, inr, length,
}
use google_in_a_day_crawler.Tokens.{Unicode}
use google_in_a_day_crawler.PData.Decimal.{atoi}
use google_in_a_day_crawler.Worker.{Net}
use google_in_a_day_crawler.Crawler.{Config}
use google_in_a_day_crawler.Store.Rows.{
  IsOrderedDb, update_session_status-IsOrderedDb, delete_completed-IsOrderedDb,
}
use google_in_a_day_crawler.Store.Tables.{DeleteOutcomes}
use google_in_a_day_crawler.Manager.{Manager}
use google_in_a_day_crawler.Manager.Sessions.{ResumeOutcomes, stop_crawl, active_session_ids}
use google_in_a_day_crawler.Manager.Orderly.{IsOrderly}
use google_in_a_day_crawler.Manager.Keeping.{
  start_crawl-IsOrderly, stop_crawl-IsOrderly, stop_crawl_by_id-IsOrderly, end_crawl-IsOrderly,
  resume_crawl_by_id-IsOrderly,
}
use google_in_a_day_crawler.Dashboard.{
  Form, StartOutcome, start_all, stop_by, resume_by, parse_seed_urls, form_config,
}
use google_in_a_day_crawler.Dashboard.Api.{clear_sessions}
use google_in_a_day_crawler.Dashboard.Page.{
  Ended, end_all, mark_stopped, mark_all_stopped, act_stop, stop_one, act_stop_crawl,
  act_resume_crawl, act_start, ActionOutcomes, is_text, act,
}

start_all-IsOrderly :
    (o : ℕ → StartOutcome) (config : Text → Config) (seeds : List Text) (m : Manager)
    → IsOrderly m
    → IsOrderly (start_all o config seeds m)
unfolding start_all
start_all-IsOrderly o config [] m h = h
start_all-IsOrderly o config (seed ∷ seeds) m h =
    start_all-IsOrderly o config seeds _
      (start_crawl-IsOrderly (o (length seeds)).saved (o (length seeds)).removed (config seed) m h)

pub stop_by-IsOrderly : (id : ℤ) (m : Manager) → IsOrderly m → IsOrderly (stop_by id m).0
unfolding stop_by
stop_by-IsOrderly (pos id) m h = stop_crawl_by_id-IsOrderly id m h
stop_by-IsOrderly (negsuc n) m h = h

pub resume_by-IsOrderly :
    (o : ResumeOutcomes) (id : ℤ) (m : Manager) → IsOrderly m → IsOrderly (resume_by o id m).0
unfolding resume_by
resume_by-IsOrderly o (pos id) m h = resume_crawl_by_id-IsOrderly o id m h
resume_by-IsOrderly o (negsuc n) m h = elim (Option-cases m.db) [
  | inl d ↦ rw (d, resume_by) h
  | inr (db, d) ↦ rw (d, resume_by) h
]

end_all-IsOrderly : (ended : List Ended) (m : Manager) → IsOrderly m → IsOrderly (end_all ended m)
unfolding end_all
end_all-IsOrderly [] m h = h
end_all-IsOrderly (e ∷ es) m h = end_all-IsOrderly es _ (end_crawl-IsOrderly e.outcomes e.id m h)

mark_stopped-IsOrderly :
    (saved : Bool) (id : ℕ) (m : Manager) → IsOrderly m → IsOrderly (mark_stopped saved id m)
unfolding mark_stopped
mark_stopped-IsOrderly saved id m h = elim (Option-cases m.db) [
  | inl d ↦ rw (d, mark_stopped) h
  | inr (db, d) ↦
      rw (d, mark_stopped)
        (record {
          keys = h.keys;
          rows =
              update_session_status-IsOrderedDb saved id (codes "stopped") db
                (subst IsOrderedDb d h.rows);
        })
]

mark_all_stopped-IsOrderly :
    (saved : Bool) (ids : List ℕ) (m : Manager)
    → IsOrderly m
    → IsOrderly (mark_all_stopped saved ids m)
unfolding mark_all_stopped
mark_all_stopped-IsOrderly saved [] m h = h
mark_all_stopped-IsOrderly saved (id ∷ ids) m h =
    mark_all_stopped-IsOrderly saved ids _ (mark_stopped-IsOrderly saved id m h)

pub clear_sessions-IsOrderly :
    (o : DeleteOutcomes) (m : Manager) → IsOrderly m → IsOrderly (clear_sessions o m)
unfolding clear_sessions
clear_sessions-IsOrderly o m h = elim (Option-cases m.db) [
  | inl d ↦ rw (d, clear_sessions) h
  | inr (db, d) ↦
      rw (d, clear_sessions)
        (record {
          keys = h.keys;
          rows = delete_completed-IsOrderedDb o db (subst IsOrderedDb d h.rows);
        })
]

act_stop-IsOrderly :
    (saved : Bool) (ended : List Ended) (m : Manager)
    → IsOrderly m
    → IsOrderly (act_stop saved ended m)
unfolding act_stop
act_stop-IsOrderly saved ended m h =
    let after = end_all ended (stop_crawl m) in
    mark_all_stopped-IsOrderly saved (active_session_ids after) after
      (end_all-IsOrderly ended (stop_crawl m) (stop_crawl-IsOrderly m h))

stop_one-IsOrderly :
    (saved : Bool) (ended : List Ended) (id : ℤ) (m : Manager)
    → IsOrderly m
    → IsOrderly (stop_one saved ended id m)
unfolding stop_one
stop_one-IsOrderly saved ended (pos id) m h =
    mark_stopped-IsOrderly saved id _ (end_all-IsOrderly ended _ (stop_by-IsOrderly (pos id) m h))
stop_one-IsOrderly saved ended (negsuc n) m h = end_all-IsOrderly ended m h

act_stop_crawl-IsOrderly :
    (saved : Bool) (ended : List Ended) (form : Form) (m : Manager)
    → IsOrderly m
    → IsOrderly (act_stop_crawl saved ended form m)
unfolding act_stop_crawl
act_stop_crawl-IsOrderly saved ended form m h =
    elim (Option-cases (atoi (form (codes "crawl_id")))) [
      | inl e ↦ rw (e, act_stop_crawl) h
      | inr (id, e) ↦ rw (e, act_stop_crawl) (stop_one-IsOrderly saved ended id m h)
    ]

act_resume_crawl-IsOrderly :
    (o : ResumeOutcomes) (form : Form) (m : Manager)
    → IsOrderly m
    → IsOrderly (act_resume_crawl o form m)
unfolding act_resume_crawl
act_resume_crawl-IsOrderly o form m h = elim (Option-cases (atoi (form (codes "crawl_id")))) [
  | inl e ↦ rw (e, act_resume_crawl) h
  | inr (id, e) ↦ rw (e, act_resume_crawl) (resume_by-IsOrderly o id m h)
]

pub if_keeps :
    {B : Type 0} (P : B → Type 0) (c : Bool) {a b : B} → P a → P b → P (if c then a else b)
if_keeps P true p q = p
if_keeps P false p q = q

pub act-IsOrderly :
    (u : Unicode) (net : Net) (o : ActionOutcomes) (form : Form) (m : Manager)
    → IsOrderly m
    → IsOrderly (act u net o form m)
unfolding act act_start
act-IsOrderly u net o form m h =
    let is = is_text (form (codes "action")) in
    if_keeps IsOrderly (is (codes "stop")) (act_stop-IsOrderly o.saved o.ended m h) (
      if_keeps IsOrderly (is (codes "stop_crawl"))
        (act_stop_crawl-IsOrderly o.saved o.ended form m h)
        (if_keeps IsOrderly (is (codes "resume_crawl"))
          (act_resume_crawl-IsOrderly o.resume form m h)
          (if_keeps IsOrderly (is (codes "clear")) (clear_sessions-IsOrderly o.cleared m h) (
            if_keeps IsOrderly (is (codes "start"))
              (start_all-IsOrderly o.start (form_config form)
                (parse_seed_urls u net (form (codes "seed"))) m h)
              h))))
