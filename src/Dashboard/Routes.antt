-- ===== src/Dashboard/Routes.antt =====
-- `Start` of internal/dashboard/server.go: the patterns of the mux, the handler of a path, and the whole
-- server on one request. A path comes cleaned, as the mux redirects any other.
use google_in_a_day_crawler.Base.{
  ℕ, Bool, true, false, ite, List, [], ◌∷◌, Option, none, some, Text, Text_discrete, codes,
  has_prefix, length, ltb, ◌==◌, if◌then◌else◌,
}
use google_in_a_day_crawler.Tokens.{Unicode}
use google_in_a_day_crawler.Worker.{Net}
use google_in_a_day_crawler.Search.{Runtime}
use google_in_a_day_crawler.Manager.{Manager}
use google_in_a_day_crawler.Dashboard.{Form, StartRequest, StartOutcome}
use google_in_a_day_crawler.Dashboard.Api.{
  Method, post, Response, handle_metrics, handle_search, handle_crawls, handle_crawl_by_id,
  handle_clear_completed, handle_start_crawl_json, handle_stop_crawl_json,
}
use google_in_a_day_crawler.Dashboard.Page.{
  ActionOutcomes, PageAnswer, redirect, shown, handle_page,
}

pub data Handler : Type 0 where
  page metrics_api searching crawls crawl_by_id clear_completed start_json stop_json : Handler

-- A pattern that the server registers, with its handler.
pub record Route : Type 0 where
  pub pattern : Text
  pub handler : Handler

on : Text → Handler → Route
on pattern handler = record { pattern = pattern; handler = handler }

unfoldable pub routes : List Route
unfolding on
routes =
    on (codes "/") page
    ∷ on (codes "/api/metrics") metrics_api
    ∷ on (codes "/api/search") searching
    ∷ on (codes "/search") searching
    ∷ on (codes "/api/crawls") crawls
    ∷ on (codes "/api/crawls/") crawl_by_id
    ∷ on (codes "/api/crawls/completed") clear_completed
    ∷ on (codes "/api/index") start_json
    ∷ on (codes "/api/stop") stop_json
    ∷ []

ends_in_slash : Text → Bool
ends_in_slash [] = false
ends_in_slash (c ∷ []) = c == b'/'
ends_in_slash (c ∷ d ∷ s) = ends_in_slash (d ∷ s)

-- A pattern that ends in a slash takes all paths below it, any other the path itself.
matches : Text → Text → Bool
unfolding ends_in_slash
matches pattern path =
    if ends_in_slash pattern
    then has_prefix path pattern
    else ite (Text_discrete pattern path) true false

-- The longer of two patterns takes the path.
longer : Route → Option Route → Route
longer r none = r
longer r (some best) = if ltb (length r.pattern) (length best.pattern) then best else r

best_of : Text → List Route → Option Route
unfolding matches longer
best_of path [] = none
best_of path (r ∷ rs) =
    let best = best_of path rs in if matches r.pattern path then some (longer r best) else best

-- `none` is the mux's own answer 404, to a path that is not rooted.
unfoldable pub handler_of : Text → Option Handler
unfolding best_of
handler_of path = elim (best_of path routes) [ none ↦ none | some r ↦ some r.handler ]

-- A request, decoded in each way that a handler may read it.
pub record Request : Type 0 where
  pub method : Method
  pub path : Text
  pub form : Form
  pub query : Form
  pub body : Option StartRequest

values_for : Method → Request → Form
values_for post req = req.form
values_for _ req = req.query

-- What the environment decides for one request: the outcomes of the statements.
pub record ServeOutcomes : Type 0 where
  pub actions : ActionOutcomes
  pub start : StartOutcome
  pub read : Bool
  pub counted : Bool

pub data Answer : Type 0 where
  not_found : Answer
  html : PageAnswer → Answer
  json : Response → Answer

unfoldable pub code_of : Answer → ℕ
code_of not_found = 404
code_of (html (redirect tab)) = 303
code_of (html (shown page_data)) = 200
code_of (json r) = r.code

module _ (u : Unicode) (net : Net) (go : Runtime) where
  unfoldable pub handle : ServeOutcomes → Handler → Request → Manager → Manager × Answer
  unfolding values_for
  handle o page req m =
      let (after, answer) =
        handle_page u net go o.actions o.read o.counted req.method (values_for req.method req) m in
      (after, html answer)
  handle o metrics_api req m = (m, json (handle_metrics m))
  handle o searching req m = (m, json (handle_search go u req.query m))
  handle o crawls req m =
      let (after, r) = handle_crawls req.method o.read o.start req.body m in (after, json r)
  handle o crawl_by_id req m =
      let (after, r) = handle_crawl_by_id req.method req.path o.read o.actions.resume m in
      (after, json r)
  handle o clear_completed req m =
      let (after, r) = handle_clear_completed req.method o.actions.cleared m in (after, json r)
  handle o start_json req m =
      let (after, r) = handle_start_crawl_json req.method o.start req.body m in (after, json r)
  handle o stop_json req m = let (after, r) = handle_stop_crawl_json req.method m in (after, json r)

  unfoldable pub serve : ServeOutcomes → Request → Manager → Manager × Answer
  unfolding handle handler_of
  serve o req m = elim (handler_of req.path) [ none ↦ (m, not_found) | some h ↦ handle o h req m ]
