-- ===== src/Dashboard/Api.antt =====
-- The JSON handlers of internal/dashboard/server.go. An answer is its status with what the body says.
use google_in_a_day_crawler.Base.{
  ℕ, Bool, true, false, ◌&&◌, ite, List, [], ◌∷◌, Option, none, some, ℤ, pos, negsuc, Text,
  Text_discrete, codes, if◌then◌else◌,
}
use google_in_a_day_crawler.Tokens.{Unicode}
use google_in_a_day_crawler.PData.Decimal.{atoi}
use google_in_a_day_crawler.Search.{Runtime, SearchResult, search}
use google_in_a_day_crawler.Store.{CrawlSession, Database, load_crawl_session}
use google_in_a_day_crawler.Store.Tables.{load_all_crawl_sessions, DeleteOutcomes, delete_completed}
use google_in_a_day_crawler.Manager.{Manager, Metrics, start_crawl}
use google_in_a_day_crawler.Manager.Sessions.{
  ResumeOutcomes, ResumeError, ResumeResult, failed, resumed, is_running, stop_crawl, get_metrics,
}
use google_in_a_day_crawler.Dashboard.{
  split, trim_prefix, is_empty_text, positive_or, StartRequest, request_config, older_config,
  StartOutcome, stop_by, resume_by,
}

pub data Method : Type 0 where
  get post delete other : Method

pub data Body : Type 0 where
  error : Text → Body
  resume_error : ResumeError → Body
  status : Text → Body
  started : ℕ → Body
  resumed_as : ℤ → Body
  sessions : List CrawlSession → Body
  session : CrawlSession → Body
  results : List SearchResult → Body
  metrics_of : Metrics → Body

pub record Response : Type 0 where
  pub code : ℕ
  pub body : Body

unfoldable pub respond : ℕ → Body → Response
respond code body = record { code = code; body = body }

-- `handleMetrics`.
pub handle_metrics : Manager → Response
unfolding respond
handle_metrics m = respond 200 (metrics_of (get_metrics m))

pub text_or : Text → Text → Text
text_or default [] = default
text_or default (c ∷ s) = c ∷ s

-- `handleSearch`.
pub handle_search : Runtime → Unicode → (Text → Text) → Manager → Response
unfolding respond text_or
handle_search go u query m =
    let q = text_or (query (codes "query")) (query (codes "q")) in
    let top_k = positive_or (pos 20) (query (codes "k")) in
    respond 200
      (results (search go u q m.index top_k (text_or (codes "relevance") (query (codes "sortBy")))))

-- `handleCrawls` with the method GET.
pub list_crawls : Bool → Manager → Response
unfolding respond
list_crawls read m = elim m.db [
  | none ↦ respond 200 (sessions [])
  | some db ↦ elim (load_all_crawl_sessions read db) [
    | none ↦ respond 500 (error (codes "failed to load sessions"))
    | some found ↦ respond 200 (sessions found)
  ]
]

-- `handleCrawls` with the method POST; `none` is a body that is no valid JSON.
unfoldable pub create_crawl : StartOutcome → Option StartRequest → Manager → Manager × Response
unfolding respond
create_crawl o none m = (m, respond 400 (error (codes "invalid JSON")))
create_crawl o (some req) m =
    if is_empty_text req.seed
    then (m, respond 400 (error (codes "seed is required")))
    else let (after, id) = start_crawl o.saved o.removed (request_config req) m in
      (after, respond 202 (started id))

unfoldable pub handle_crawls :
    Method → Bool → StartOutcome → Option StartRequest → Manager → Manager × Response
unfolding list_crawls create_crawl respond
handle_crawls get read o req m = (m, list_crawls read m)
handle_crawls post read o req m = create_crawl o req m
handle_crawls delete read o req m = (m, respond 405 (error (codes "method not allowed")))
handle_crawls other read o req m = (m, respond 405 (error (codes "method not allowed")))

-- What the path behind `/api/crawls/` asks for.
pub data Target : Type 0 where
  missing invalid : Target
  stop_of resume_of crawl_of : ℤ → Target

is_part : Text → List Text → Bool
is_part word [] = false
is_part word (part ∷ parts) = ite (Text_discrete part word) true false

is_post : Method → Bool
is_post post = true
is_post _ = false

unfoldable pub target_of : Method → Text → Target
unfolding is_part is_post
target_of method path = elim (split b'/' (trim_prefix path (codes "/api/crawls/"))) [
  | [] ↦ missing
  | part ∷ parts ↦ if is_empty_text part then missing else elim (atoi part) [
    | none ↦ invalid
    | some id ↦
        if is_part (codes "stop") parts && is_post method
        then stop_of id
        else if is_part (codes "resume") parts && is_post method
        then resume_of id
        else crawl_of id
  ]
]

pub load_by : Bool → ℤ → Database → Option CrawlSession
load_by read (pos id) db = load_crawl_session read id db
load_by read (negsuc n) db = none

pub show_crawl : Method → Bool → ℤ → Manager → Response
unfolding respond load_by
show_crawl get read id m = elim m.db [
  | none ↦ respond 500 (error (codes "no database"))
  | some db ↦ elim (load_by read id db) [
    | none ↦ respond 404 (error (codes "session not found"))
    | some sess ↦ respond 200 (session sess)
  ]
]
show_crawl _ read id m = respond 405 (error (codes "method not allowed"))

unfoldable pub answer_stop : Manager × Bool → Manager × Response
unfolding respond
answer_stop (m, true) = (m, respond 200 (status (codes "stopped")))
answer_stop (m, false) = (m, respond 409 (error (codes "crawl is not running")))

unfoldable pub answer_resume : ℤ → Manager × ResumeResult → Manager × Response
unfolding respond
answer_resume id (m, failed e) = (m, respond 409 (resume_error e))
answer_resume id (m, resumed r) = (m, respond 200 (resumed_as id))

unfoldable pub serve_target : Method → Bool → ResumeOutcomes → Target → Manager → Manager × Response
unfolding respond answer_stop answer_resume show_crawl
serve_target method read o missing m = (m, respond 400 (error (codes "missing crawl id")))
serve_target method read o invalid m = (m, respond 400 (error (codes "invalid crawl id")))
serve_target method read o (stop_of id) m = answer_stop (stop_by id m)
serve_target method read o (resume_of id) m = answer_resume id (resume_by o id m)
serve_target method read o (crawl_of id) m = (m, show_crawl method read id m)

-- `handleCrawlByID`.
unfoldable pub handle_crawl_by_id :
    Method → Text → Bool → ResumeOutcomes → Manager → Manager × Response
unfolding serve_target target_of
handle_crawl_by_id method path read o m = serve_target method read o (target_of method path) m

-- `DeleteCompletedCrawlSessions` on the manager's database.
unfoldable pub clear_sessions : DeleteOutcomes → Manager → Manager
clear_sessions o m = elim m.db [
  | none ↦ m
  | some db ↦ record m { db = some (delete_completed o db) }
]

-- `handleClearCompleted`.
unfoldable pub handle_clear_completed : Method → DeleteOutcomes → Manager → Manager × Response
unfolding clear_sessions respond
handle_clear_completed delete o m = (clear_sessions o m, respond 200 (status (codes "cleared")))
handle_clear_completed post o m = (clear_sessions o m, respond 200 (status (codes "cleared")))
handle_clear_completed get o m = (m, respond 405 (error (codes "method not allowed")))
handle_clear_completed other o m = (m, respond 405 (error (codes "method not allowed")))

-- `handleStartCrawlJSON`.
unfoldable pub start_older : StartOutcome → Option StartRequest → Manager → Manager × Response
unfolding respond
start_older o none m = (m, respond 400 (error (codes "invalid JSON")))
start_older o (some req) m =
    if is_empty_text req.seed then (m, respond 400 (error (codes "seed is required"))) else (
      (start_crawl o.saved o.removed (older_config req) m).0,
      respond 202 (status (codes "started")),
    )

unfoldable pub handle_start_crawl_json :
    Method → StartOutcome → Option StartRequest → Manager → Manager × Response
unfolding start_older respond
handle_start_crawl_json post o req m = start_older o req m
handle_start_crawl_json _ o req m = (m, respond 405 (error (codes "method not allowed")))

-- `handleStopCrawlJSON`.
unfoldable pub stop_older : Manager → Manager × Response
unfolding respond
stop_older m =
    if is_running m
    then (stop_crawl m, respond 200 (status (codes "stopped")))
    else (m, respond 409 (error (codes "no crawl is running")))

unfoldable pub handle_stop_crawl_json : Method → Manager → Manager × Response
unfolding stop_older respond
handle_stop_crawl_json post m = stop_older m
handle_stop_crawl_json _ m = (m, respond 405 (error (codes "method not allowed")))
