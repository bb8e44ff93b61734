-- ===== src/Dashboard/Serving.antt =====
-- The server of internal/dashboard/server.go on one request: which requests change the manager.
use google_in_a_day_crawler.Base.{
  ◌≡◌, refl, ◌<◌, ◌⊎◌, inl, inr, ap, ◌∙◌, arith, Bool, true, Option, none, some, Option-cases, Text,
  pos, negsuc,
}
use google_in_a_day_crawler.Tokens.{Unicode}
use google_in_a_day_crawler.Worker.{Net}
use google_in_a_day_crawler.Search.{Runtime}
use google_in_a_day_crawler.Manager.{Manager}
use google_in_a_day_crawler.Dashboard.{Form, StartRequest, StartOutcome}
use google_in_a_day_crawler.Dashboard.Api.{
  Method, get, post, delete, other, handle_crawls, handle_crawl_by_id, handle_clear_completed,
  handle_start_crawl_json, handle_stop_crawl_json, target_of, serve_target,
}
use google_in_a_day_crawler.Store.Tables.{DeleteOutcomes}
use google_in_a_day_crawler.Manager.Sessions.{ResumeOutcomes}
use google_in_a_day_crawler.Dashboard.Page.{handle_page, ActionOutcomes}
use google_in_a_day_crawler.Dashboard.Answers.{
  handle_crawls-IsHonest, serve_target-IsHonest, handle_clear_completed-IsHonest,
  handle_start_crawl_json-IsHonest, handle_stop_crawl_json-IsHonest,
}
use google_in_a_day_crawler.Dashboard.Routes.{
  Handler, page, metrics_api, searching, crawls, crawl_by_id, clear_completed, start_json,
  stop_json, handler_of, Request, ServeOutcomes, Answer, html, code_of, handle, serve,
}

-- The answer has no error status, or the manager is as before.
abbrev pub IsHonestAnswer : Manager → Manager × Answer → Type 0
IsHonestAnswer m r = (code_of r.1 < 400) ⊎ (r.0 ≡ m)

-- The request is a POST, or a DELETE of the completed sessions, or the manager is as before.
abbrev pub IsSafe : Option Handler → Method → Manager → Manager → Type 0
IsSafe h method m after =
    (method ≡ post) ⊎ ((method ≡ delete) × (h ≡ some clear_completed)) ⊎ (after ≡ m)

-- Only a POST asks for more than to show a crawl.
target-IsSafe :
    (method : Method) (path : Text) (read : Bool) (o : ResumeOutcomes) (m : Manager)
    → (method ≡ post) ⊎ ((handle_crawl_by_id method path read o m).0 ≡ m)
unfolding handle_crawl_by_id target_of serve_target
target-IsSafe post path read o m = inl refl
target-IsSafe get path read o m = inr (ground arith)
target-IsSafe delete path read o m = inr (ground arith)
target-IsSafe other path read o m = inr (ground arith)

weaken :
    {h : Option Handler} {method : Method} {m after : Manager}
    → (method ≡ post) ⊎ (after ≡ m)
    → IsSafe h method m after
weaken (inl e) = inl e
weaken (inr e) = inr (inr e)

crawls-IsSafe :
    (method : Method) (read : Bool) (o : StartOutcome) (req : Option StartRequest) (m : Manager)
    → (method ≡ post) ⊎ ((handle_crawls method read o req m).0 ≡ m)
unfolding handle_crawls
crawls-IsSafe get read o req m = inr refl
crawls-IsSafe post read o req m = inl refl
crawls-IsSafe delete read o req m = inr refl
crawls-IsSafe other read o req m = inr refl

start_json-IsSafe :
    (method : Method) (o : StartOutcome) (req : Option StartRequest) (m : Manager)
    → (method ≡ post) ⊎ ((handle_start_crawl_json method o req m).0 ≡ m)
unfolding handle_start_crawl_json
start_json-IsSafe get o req m = inr refl
start_json-IsSafe post o req m = inl refl
start_json-IsSafe delete o req m = inr refl
start_json-IsSafe other o req m = inr refl

stop_json-IsSafe :
    (method : Method) (m : Manager) → (method ≡ post) ⊎ ((handle_stop_crawl_json method m).0 ≡ m)
unfolding handle_stop_crawl_json
stop_json-IsSafe get m = inr refl
stop_json-IsSafe post m = inl refl
stop_json-IsSafe delete m = inr refl
stop_json-IsSafe other m = inr refl

clear-IsSafe :
    (method : Method) (o : DeleteOutcomes) (m : Manager)
    → IsSafe (some clear_completed) method m (handle_clear_completed method o m).0
unfolding handle_clear_completed
clear-IsSafe get o m = inr (inr refl)
clear-IsSafe post o m = inl refl
clear-IsSafe delete o m = inr (inl (refl, refl))
clear-IsSafe other o m = inr (inr refl)

module _ (u : Unicode) (net : Net) (go : Runtime) where
  page-IsFine :
      (o : ActionOutcomes) (read counted : Bool) (method : Method) (form : Form) (m : Manager)
      → code_of (html (handle_page u net go o read counted method form m).1) < 400
  unfolding handle_page code_of
  page-IsFine o read counted get form m = omega arith
  page-IsFine o read counted post form m = omega arith
  page-IsFine o read counted delete form m = omega arith
  page-IsFine o read counted other form m = omega arith

  handle-IsHonest :
      (o : ServeOutcomes) (h : Handler) (req : Request) (m : Manager)
      → o.actions.resume.visited_read ≡ true
      → o.actions.resume.tasks_read ≡ true
      → IsHonestAnswer m (handle u net go o h req m)
  unfolding handle code_of handle_crawl_by_id serve_target
  handle-IsHonest o page req m v t = inl (page-IsFine o.actions o.read o.counted req.method _ m)
  handle-IsHonest o metrics_api req m v t = inr refl
  handle-IsHonest o searching req m v t = inr refl
  handle-IsHonest o crawls req m v t = handle_crawls-IsHonest req.method o.read o.start req.body m
  handle-IsHonest o crawl_by_id req m v t =
      serve_target-IsHonest req.method o.read o.actions.resume (target_of req.method req.path) m v t
  handle-IsHonest o clear_completed req m v t =
      handle_clear_completed-IsHonest req.method o.actions.cleared m
  handle-IsHonest o start_json req m v t =
      handle_start_crawl_json-IsHonest req.method o.start req.body m
  handle-IsHonest o stop_json req m v t = handle_stop_crawl_json-IsHonest req.method m

  page-IsSafe :
      (o : ActionOutcomes) (read counted : Bool) (method : Method) (form : Form) (m : Manager)
      → (method ≡ post) ⊎ ((handle_page u net go o read counted method form m).0 ≡ m)
  unfolding handle_page
  page-IsSafe o read counted get form m = inr refl
  page-IsSafe o read counted post form m = inl refl
  page-IsSafe o read counted delete form m = inr refl
  page-IsSafe o read counted other form m = inr refl

  handle-IsSafe :
      (o : ServeOutcomes) (h : Handler) (req : Request) (m : Manager)
      → IsSafe (some h) req.method m (handle u net go o h req m).0
  unfolding handle
  handle-IsSafe o page req m = weaken (page-IsSafe o.actions o.read o.counted req.method _ m)
  handle-IsSafe o metrics_api req m = inr (inr refl)
  handle-IsSafe o searching req m = inr (inr refl)
  handle-IsSafe o crawls req m = weaken (crawls-IsSafe req.method o.read o.start req.body m)
  handle-IsSafe o crawl_by_id req m =
      weaken (target-IsSafe req.method req.path o.read o.actions.resume m)
  handle-IsSafe o clear_completed req m = clear-IsSafe req.method o.actions.cleared m
  handle-IsSafe o start_json req m = weaken (start_json-IsSafe req.method o.start req.body m)
  handle-IsSafe o stop_json req m = weaken (stop_json-IsSafe req.method m)

  -- Whatever request the dashboard gets on whatever path: an answer with an error status leaves the manager
  -- as it was, if the reads of the visited addresses and of the queue for a resumption do not fail; and so
  -- does, whatever its answer, each request but a POST and the DELETE of the completed sessions.
  pub requests_change_nothing :
      (o : ServeOutcomes) (req : Request) (m : Manager)
      → o.actions.resume.visited_read ≡ true
      → o.actions.resume.tasks_read ≡ true
      → let r = serve u net go o req m in
        IsHonestAnswer m r × IsSafe (handler_of req.path) req.method m r.0
  unfolding serve google_in_a_day_crawler.Dashboard.Routes.routes
      google_in_a_day_crawler.Base.has_prefix
  requests_change_nothing o req m v t = elim (Option-cases (handler_of req.path)) [
    | inl e ↦ rw (e) (inr refl, inr (inr refl))
    | inr (h, e) ↦ rw (e) (handle-IsHonest o h req m v t, handle-IsSafe o h req m)
  ]
