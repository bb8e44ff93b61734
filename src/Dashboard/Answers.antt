-- ===== src/Dashboard/Answers.antt =====
-- The answers of the JSON handlers of internal/dashboard/server.go against what the handlers do to the
-- manager.
use google_in_a_day_crawler.Base.{
  ◌≡◌, refl, ◌<◌, ◌⊎◌, Bool, true, Option, none, some, ℤ, pos, negsuc, Text, inr, arith,
}
use google_in_a_day_crawler.Store.{load_session_visited_urls, load_session_queued_tasks}
use google_in_a_day_crawler.Store.Tables.{DeleteOutcomes}
use google_in_a_day_crawler.Manager.{Manager}
use google_in_a_day_crawler.Manager.Sessions.{
  ResumeOutcomes, resume_crawl_by_id, resume_stopped, enter_resumed, stop_crawl_by_id,
}
use google_in_a_day_crawler.Dashboard.{StartRequest, StartOutcome, stop_by, resume_by}
use google_in_a_day_crawler.Dashboard.Api.{
  Method, get, post, delete, other, Response, handle_crawls, create_crawl, respond, Target, missing,
  invalid, stop_of, resume_of, crawl_of, serve_target, answer_stop, answer_resume,
  handle_crawl_by_id, target_of, handle_clear_completed, handle_start_crawl_json, start_older,
  handle_stop_crawl_json, stop_older,
}

-- An answer has no error status, or comes with the manager as it was.
abbrev pub IsHonest : Manager → Manager × Response → Type 0
IsHonest m r = (r.1.code < 400) ⊎ (r.0 ≡ m)

create_crawl-IsHonest :
    (o : StartOutcome) (req : Option StartRequest) (m : Manager) → IsHonest m (create_crawl o req m)
unfolding create_crawl respond
create_crawl-IsHonest o none m = inr refl
create_crawl-IsHonest o (some req) m = ground arith

pub handle_crawls-IsHonest :
    (method : Method) (read : Bool) (o : StartOutcome) (req : Option StartRequest) (m : Manager)
    → IsHonest m (handle_crawls method read o req m)
unfolding handle_crawls
handle_crawls-IsHonest get read o req m = inr refl
handle_crawls-IsHonest post read o req m = create_crawl-IsHonest o req m
handle_crawls-IsHonest delete read o req m = inr refl
handle_crawls-IsHonest other read o req m = inr refl

answer_stop-IsHonest : (id : ℤ) (m : Manager) → IsHonest m (answer_stop (stop_by id m))
unfolding stop_by stop_crawl_by_id answer_stop respond
answer_stop-IsHonest (pos id) m = ground arith
answer_stop-IsHonest (negsuc n) m = inr refl

answer_resume-IsHonest :
    (o : ResumeOutcomes) (id : ℤ) (m : Manager)
    → o.visited_read ≡ true
    → o.tasks_read ≡ true
    → IsHonest m (answer_resume id (resume_by o id m))
unfolding load_session_visited_urls load_session_queued_tasks resume_by resume_crawl_by_id
    enter_resumed resume_stopped answer_resume respond
answer_resume-IsHonest o (pos id) m v t = ground arith
answer_resume-IsHonest o (negsuc n) m v t = ground arith

pub serve_target-IsHonest :
    (method : Method) (read : Bool) (o : ResumeOutcomes) (target : Target) (m : Manager)
    → o.visited_read ≡ true
    → o.tasks_read ≡ true
    → IsHonest m (serve_target method read o target m)
unfolding serve_target
serve_target-IsHonest method read o missing m v t = inr refl
serve_target-IsHonest method read o invalid m v t = inr refl
serve_target-IsHonest method read o (stop_of id) m v t = answer_stop-IsHonest id m
serve_target-IsHonest method read o (resume_of id) m v t = answer_resume-IsHonest o id m v t
serve_target-IsHonest method read o (crawl_of id) m v t = inr refl

pub handle_clear_completed-IsHonest :
    (method : Method) (o : DeleteOutcomes) (m : Manager)
    → IsHonest m (handle_clear_completed method o m)
unfolding handle_clear_completed respond
handle_clear_completed-IsHonest get o m = inr refl
handle_clear_completed-IsHonest post o m = ground arith
handle_clear_completed-IsHonest delete o m = ground arith
handle_clear_completed-IsHonest other o m = inr refl

pub handle_start_crawl_json-IsHonest :
    (method : Method) (o : StartOutcome) (req : Option StartRequest) (m : Manager)
    → IsHonest m (handle_start_crawl_json method o req m)
unfolding handle_start_crawl_json start_older respond
handle_start_crawl_json-IsHonest get o req m = inr refl
handle_start_crawl_json-IsHonest post o none m = inr refl
handle_start_crawl_json-IsHonest post o (some req) m = ground arith
handle_start_crawl_json-IsHonest delete o req m = inr refl
handle_start_crawl_json-IsHonest other o req m = inr refl

pub handle_stop_crawl_json-IsHonest :
    (method : Method) (m : Manager) → IsHonest m (handle_stop_crawl_json method m)
unfolding handle_stop_crawl_json stop_older respond
handle_stop_crawl_json-IsHonest get m = inr refl
handle_stop_crawl_json-IsHonest post m = ground arith
handle_stop_crawl_json-IsHonest delete m = inr refl
handle_stop_crawl_json-IsHonest other m = inr refl

-- A JSON handler that answers with an error status has left the manager as it was, sessions, crawls
-- and database, whatever the request and the outcomes of its writes; for a resumption, if its reads
-- of the visited addresses and of the queue do not fail.
pub errors_change_nothing :
    (method : Method) (path : Text) (read : Bool) (resume : ResumeOutcomes) (o : StartOutcome)
    (cleared : DeleteOutcomes) (req : Option StartRequest) (m : Manager)
    → resume.visited_read ≡ true
    → resume.tasks_read ≡ true
    → IsHonest m (handle_crawls method read o req m)
      × IsHonest m (handle_crawl_by_id method path read resume m)
      × IsHonest m (handle_clear_completed method cleared m)
      × IsHonest m (handle_start_crawl_json method o req m)
      × IsHonest m (handle_stop_crawl_json method m)
unfolding handle_crawl_by_id
errors_change_nothing method path read resume o cleared req m v t = (
  handle_crawls-IsHonest method read o req m,
  serve_target-IsHonest method read resume (target_of method path) m v t,
  handle_clear_completed-IsHonest method cleared m,
  handle_start_crawl_json-IsHonest method o req m,
  handle_stop_crawl_json-IsHonest method m,
)
