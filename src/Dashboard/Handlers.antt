-- ===== src/Dashboard/Handlers.antt =====
-- The handlers of internal/dashboard/server.go, and the whole server, keep the manager orderly.
use google_in_a_day_crawler.Base.{
  ℤ, ◌≡◌, subst, sym, refl, Bool, true, false, Option, none, some, Option-cases, inl, inr,
}
use google_in_a_day_crawler.Tokens.{Unicode}
use google_in_a_day_crawler.Worker.{Net}
use google_in_a_day_crawler.Search.{Runtime}
use google_in_a_day_crawler.Store.Tables.{DeleteOutcomes}
use google_in_a_day_crawler.Manager.{Manager}
use google_in_a_day_crawler.Manager.Sessions.{
  ResumeResult, failed, resumed, ResumeOutcomes, is_running,
}
use google_in_a_day_crawler.Manager.Orderly.{IsOrderly}
use google_in_a_day_crawler.Manager.Keeping.{start_crawl-IsOrderly, stop_crawl-IsOrderly}
use google_in_a_day_crawler.Dashboard.{
  Form, stop_by, resume_by, StartRequest, StartOutcome, request_config, older_config, is_empty_text,
}
use google_in_a_day_crawler.Dashboard.Api.{
  Method, get, post, delete, other, handle_crawls, create_crawl, Target, missing, invalid, stop_of,
  resume_of, crawl_of, serve_target, handle_crawl_by_id, answer_stop, answer_resume,
  handle_clear_completed, start_older, handle_start_crawl_json, stop_older, handle_stop_crawl_json,
  Response,
}
use google_in_a_day_crawler.Dashboard.Page.{handle_page, ActionOutcomes}
use google_in_a_day_crawler.Dashboard.Routes.{
  Handler, page, metrics_api, searching, crawls, crawl_by_id, clear_completed, start_json,
  stop_json, handler_of, Request, ServeOutcomes, handle, serve,
}
use google_in_a_day_crawler.Dashboard.Requests.{
  act-IsOrderly, if_keeps, clear_sessions-IsOrderly, stop_by-IsOrderly, resume_by-IsOrderly,
}

create_crawl-IsOrderly :
    (o : StartOutcome) (body : Option StartRequest) (m : Manager)
    → IsOrderly m
    → IsOrderly (create_crawl o body m).0
unfolding create_crawl
create_crawl-IsOrderly o none m h = h
create_crawl-IsOrderly o (some req) m h =
    if_keeps {B = Manager × Response} (λ r. IsOrderly r.0) (is_empty_text req.seed) h
      (start_crawl-IsOrderly o.saved o.removed (request_config req) m h)

start_older-IsOrderly :
    (o : StartOutcome) (body : Option StartRequest) (m : Manager)
    → IsOrderly m
    → IsOrderly (start_older o body m).0
unfolding start_older
start_older-IsOrderly o none m h = h
start_older-IsOrderly o (some req) m h =
    if_keeps {B = Manager × Response} (λ r. IsOrderly r.0) (is_empty_text req.seed) h
      (start_crawl-IsOrderly o.saved o.removed (older_config req) m h)

stop_older-IsOrderly : (m : Manager) → IsOrderly m → IsOrderly (stop_older m).0
unfolding stop_older
stop_older-IsOrderly m h =
    if_keeps {B = Manager × Response} (λ r. IsOrderly r.0) (is_running m) (stop_crawl-IsOrderly m h)
      h

answer_stop-manager : (r : Manager × Bool) → (answer_stop r).0 ≡ r.0
unfolding answer_stop
answer_stop-manager (m, true) = refl
answer_stop-manager (m, false) = refl

answer_resume-manager : (id : ℤ) (r : Manager × ResumeResult) → (answer_resume id r).0 ≡ r.0
unfolding answer_resume
answer_resume-manager id (m, failed e) = refl
answer_resume-manager id (m, resumed r) = refl

serve_target-IsOrderly :
    (method : Method) (read : Bool) (o : ResumeOutcomes) (target : Target) (m : Manager)
    → IsOrderly m
    → IsOrderly (serve_target method read o target m).0
unfolding serve_target
serve_target-IsOrderly method read o missing m h = h
serve_target-IsOrderly method read o invalid m h = h
serve_target-IsOrderly method read o (stop_of id) m h =
    subst IsOrderly (sym (answer_stop-manager (stop_by id m))) (stop_by-IsOrderly id m h)
serve_target-IsOrderly method read o (resume_of id) m h =
    subst IsOrderly (sym (answer_resume-manager id (resume_by o id m)))
      (resume_by-IsOrderly o id m h)
serve_target-IsOrderly method read o (crawl_of id) m h = h

handle_crawls-IsOrderly :
    (method : Method) (read : Bool) (o : StartOutcome) (body : Option StartRequest) (m : Manager)
    → IsOrderly m
    → IsOrderly (handle_crawls method read o body m).0
unfolding handle_crawls
handle_crawls-IsOrderly get read o body m h = h
handle_crawls-IsOrderly post read o body m h = create_crawl-IsOrderly o body m h
handle_crawls-IsOrderly delete read o body m h = h
handle_crawls-IsOrderly other read o body m h = h

handle_clear_completed-IsOrderly :
    (method : Method) (o : DeleteOutcomes) (m : Manager)
    → IsOrderly m
    → IsOrderly (handle_clear_completed method o m).0
unfolding handle_clear_completed
handle_clear_completed-IsOrderly get o m h = h
handle_clear_completed-IsOrderly post o m h = clear_sessions-IsOrderly o m h
handle_clear_completed-IsOrderly delete o m h = clear_sessions-IsOrderly o m h
handle_clear_completed-IsOrderly other o m h = h

handle_start_crawl_json-IsOrderly :
    (method : Method) (o : StartOutcome) (body : Option StartRequest) (m : Manager)
    → IsOrderly m
    → IsOrderly (handle_start_crawl_json method o body m).0
unfolding handle_start_crawl_json
handle_start_crawl_json-IsOrderly get o body m h = h
handle_start_crawl_json-IsOrderly post o body m h = start_older-IsOrderly o body m h
handle_start_crawl_json-IsOrderly delete o body m h = h
handle_start_crawl_json-IsOrderly other o body m h = h

handle_stop_crawl_json-IsOrderly :
    (method : Method) (m : Manager) → IsOrderly m → IsOrderly (handle_stop_crawl_json method m).0
unfolding handle_stop_crawl_json
handle_stop_crawl_json-IsOrderly get m h = h
handle_stop_crawl_json-IsOrderly post m h = stop_older-IsOrderly m h
handle_stop_crawl_json-IsOrderly delete m h = h
handle_stop_crawl_json-IsOrderly other m h = h

module _ (u : Unicode) (net : Net) (go : Runtime) where
  handle_page-IsOrderly :
      (o : ActionOutcomes) (read counted : Bool) (method : Method) (form : Form) (m : Manager)
      → IsOrderly m
      → IsOrderly (handle_page u net go o read counted method form m).0
  unfolding handle_page
  handle_page-IsOrderly o read counted get form m h = h
  handle_page-IsOrderly o read counted post form m h = act-IsOrderly u net o form m h
  handle_page-IsOrderly o read counted delete form m h = h
  handle_page-IsOrderly o read counted other form m h = h

  handle-IsOrderly :
      (o : ServeOutcomes) (h : Handler) (req : Request) (m : Manager)
      → IsOrderly m
      → IsOrderly (handle u net go o h req m).0
  unfolding handle handle_crawl_by_id
  handle-IsOrderly o page req m i =
      handle_page-IsOrderly o.actions o.read o.counted req.method _ m i
  handle-IsOrderly o metrics_api req m i = i
  handle-IsOrderly o searching req m i = i
  handle-IsOrderly o crawls req m i = handle_crawls-IsOrderly req.method o.read o.start req.body m i
  handle-IsOrderly o crawl_by_id req m i =
      serve_target-IsOrderly req.method o.read o.actions.resume _ m i
  handle-IsOrderly o clear_completed req m i =
      handle_clear_completed-IsOrderly req.method o.actions.cleared m i
  handle-IsOrderly o start_json req m i =
      handle_start_crawl_json-IsOrderly req.method o.start req.body m i
  handle-IsOrderly o stop_json req m i = handle_stop_crawl_json-IsOrderly req.method m i

  pub serve-IsOrderly :
      (o : ServeOutcomes) (req : Request) (m : Manager)
      → IsOrderly m
      → IsOrderly (serve u net go o req m).0
  unfolding serve
  serve-IsOrderly o req m i = elim (Option-cases (handler_of req.path)) [
    | inl e ↦ rw (e, serve) i
    | inr (h, e) ↦ rw (e, serve) (handle-IsOrderly o h req m i)
  ]
