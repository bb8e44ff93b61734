-- ===== src/Dashboard/Page.antt =====
-- `handlePage` of internal/dashboard/server.go: the actions of the forms, and what the page shows. A
-- handler that waits for crawls to end is given those that end meanwhile.
use google_in_a_day_crawler.Base.{
  ℕ, suc, ◌+◌, Bool, true, false, ◌||◌, ite, List, [], ◌∷◌, map, Option, none, some, ℤ, pos, negsuc,
  Text, Text_discrete, codes, length, if◌then◌else◌,
}
use google_in_a_day_crawler.Tokens.{Unicode}
use google_in_a_day_crawler.PData.Decimal.{atoi}
use google_in_a_day_crawler.Worker.{Net}
use google_in_a_day_crawler.Search.{Runtime, SearchResult, search}
use google_in_a_day_crawler.Store.{CrawlSession, set_counters, update_session_status}
use google_in_a_day_crawler.Store.Tables.{
  load_all_crawl_sessions, count_word_tokens, DeleteOutcomes,
}
use google_in_a_day_crawler.Manager.{ActiveCrawl, Manager, Metrics, find_crawl}
use google_in_a_day_crawler.Manager.Sessions.{
  FinishOutcomes, ResumeOutcomes, end_crawl, stop_crawl, active_session_ids, is_running,
  get_metrics,
}
use google_in_a_day_crawler.Manager.Readers.{RunningCrawlInfo, get_running_crawls}
use google_in_a_day_crawler.Dashboard.{
  Form, parse_seed_urls, form_config, StartOutcome, start_all, stop_by, resume_by,
}
use google_in_a_day_crawler.Dashboard.Api.{Method, post, clear_sessions, text_or}

-- A crawl whose goroutine ends while a handler waits.
pub record Ended : Type 0 where
  pub outcomes : FinishOutcomes
  pub id : ℕ

unfoldable pub end_all : List Ended → Manager → Manager
end_all [] m = m
end_all (e ∷ es) m = end_all es (end_crawl e.outcomes e.id m)

-- `db.UpdateSessionStatus(id, "stopped")`, where there is a database.
unfoldable pub mark_stopped : Bool → ℕ → Manager → Manager
mark_stopped saved id m = elim m.db [
  | none ↦ m
  | some db ↦ record m { db = some (update_session_status saved id (codes "stopped") db) }
]

unfoldable pub mark_all_stopped : Bool → List ℕ → Manager → Manager
unfolding mark_stopped
mark_all_stopped saved [] m = m
mark_all_stopped saved (id ∷ ids) m = mark_all_stopped saved ids (mark_stopped saved id m)

-- The action `stop`.
unfoldable pub act_stop : Bool → List Ended → Manager → Manager
unfolding end_all mark_all_stopped
act_stop saved ended m =
    let after = end_all ended (stop_crawl m) in
    mark_all_stopped saved (active_session_ids after) after

-- The action `stop_crawl` for one id.
unfoldable pub stop_one : Bool → List Ended → ℤ → Manager → Manager
unfolding end_all mark_stopped
stop_one saved ended (pos id) m = mark_stopped saved id (end_all ended (stop_by (pos id) m).0)
stop_one saved ended (negsuc n) m = end_all ended m

unfoldable pub act_stop_crawl : Bool → List Ended → Form → Manager → Manager
unfolding stop_one
act_stop_crawl saved ended form m = elim (atoi (form (codes "crawl_id"))) [
  | none ↦ m
  | some id ↦ stop_one saved ended id m
]

-- The action `resume_crawl`; an error is only logged.
unfoldable pub act_resume_crawl : ResumeOutcomes → Form → Manager → Manager
act_resume_crawl o form m = elim (atoi (form (codes "crawl_id"))) [
  | none ↦ m
  | some id ↦ (resume_by o id m).0
]

-- The action `start`.
unfoldable pub act_start : Unicode → Net → (ℕ → StartOutcome) → Form → Manager → Manager
act_start u net o form m =
    start_all o (form_config form) (parse_seed_urls u net (form (codes "seed"))) m

-- What the environment decides for one action.
pub record ActionOutcomes : Type 0 where
  pub saved : Bool
  pub ended : List Ended
  pub resume : ResumeOutcomes
  pub cleared : DeleteOutcomes
  pub start : ℕ → StartOutcome

pub is_text : Text → Text → Bool
is_text a b = ite (Text_discrete a b) true false

-- The actions of a POST.
unfoldable pub act : Unicode → Net → ActionOutcomes → Form → Manager → Manager
unfolding is_text
act u net o form m =
    let action = form (codes "action") in
    if is_text action (codes "stop")
    then act_stop o.saved o.ended m
    else if is_text action (codes "stop_crawl")
    then act_stop_crawl o.saved o.ended form m
    else if is_text action (codes "resume_crawl")
    then act_resume_crawl o.resume form m
    else if is_text action (codes "clear")
    then clear_sessions o.cleared m
    else if is_text action (codes "start")
    then act_start u net o.start form m
    else m

-- The tab that the page shows behind an action.
pub tab_after : Form → Text
unfolding is_text
tab_after form =
    let action = form (codes "action") in
    if is_text action (codes "stop") || is_text action (codes "stop_crawl")
    then codes "status"
    else text_or (codes "create") (form (codes "tab"))

-- A session with the counters of its crawl, if that is running.
pub with_live : List ActiveCrawl → CrawlSession → CrawlSession
with_live crawls sess = elim (find_crawl sess.id crawls) [
  | none ↦ sess
  | some ac ↦ set_counters ac.metrics.counters sess
]

pub page_sessions : Bool → Manager → List CrawlSession
unfolding with_live
page_sessions read m = elim m.db [
  | none ↦ []
  | some db ↦ elim (load_all_crawl_sessions read db) [
    | none ↦ []
    | some found ↦ map (with_live m.crawls) found
  ]
]

pub total_visited : List CrawlSession → ℕ
total_visited [] = 0
total_visited (sess ∷ rest) = sess.visited_count + total_visited rest

pub count_running : List CrawlSession → ℕ
unfolding is_text
count_running [] = 0
count_running (sess ∷ rest) =
    let more = count_running rest in
    if is_text sess.status (codes "running") then suc more else more

pub record PageData : Type 0 where
  pub tab : Text
  pub metrics : Metrics
  pub query : Text
  pub results : List SearchResult
  pub running : Bool
  pub running_crawls : List RunningCrawlInfo
  pub sessions : List CrawlSession
  pub total_visited : ℕ
  pub total_words : ℕ
  pub active_count : ℕ
  pub total_count : ℕ

count_or_zero : Option ℕ → ℕ
count_or_zero none = 0
count_or_zero (some n) = n

pub page_words : Bool → Manager → ℕ
unfolding count_or_zero
page_words counted m = elim m.db [
  | none ↦ 0
  | some db ↦ count_or_zero (count_word_tokens counted db)
]

-- The page of a GET without a search.
pub plain_page : Bool → Bool → Form → Manager → PageData
plain_page read counted query m =
    let found = page_sessions read m in
    record {
      tab = text_or (codes "search") (query (codes "tab"));
      metrics = get_metrics m;
      query = [];
      results = [];
      running = is_running m;
      running_crawls = get_running_crawls m;
      sessions = found;
      total_visited = total_visited found;
      total_words = page_words counted m;
      active_count = count_running found;
      total_count = length found;
    }

-- `handlePage` with the method GET.
pub show_page : Runtime → Unicode → Bool → Bool → Form → Manager → PageData
unfolding plain_page
show_page go u read counted query m = elim (query (codes "q")) [
  | [] ↦ plain_page read counted query m
  | c ∷ q ↦ record (plain_page read counted query m) {
    tab = codes "search";
    query = c ∷ q;
    results =
        search go u (c ∷ q) m.index (pos 20) (text_or (codes "relevance") (query (codes "sortBy")));
  }
]

-- A redirection to a tab, or the page.
pub data PageAnswer : Type 0 where
  redirect : Text → PageAnswer
  shown : PageData → PageAnswer

-- `handlePage`; the form is that of a POST, the query that of any other request.
unfoldable pub handle_page :
    Unicode
    → Net
    → Runtime
    → ActionOutcomes
    → Bool
    → Bool
    → Method
    → Form
    → Manager
    → Manager × PageAnswer
unfolding act tab_after show_page
handle_page u net go o read counted post form m = (act u net o form m, redirect (tab_after form))
handle_page u net go o read counted _ query m = (m, shown (show_page go u read counted query m))
