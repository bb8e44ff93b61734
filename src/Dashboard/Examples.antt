-- ===== src/Dashboard/Examples.antt =====
-- The dashboard on a concrete form and request, and witnesses.
use google_in_a_day_crawler.Base.{
  arith, has_prefix, Text_discrete, Text, ◌≡◌, refl, true, [], ◌∷◌, ◌++◌, All, none, some, pos,
  negsuc, codes,
}
use google_in_a_day_crawler.Tokens.Ascii.{ascii}
use google_in_a_day_crawler.PData.Decimal.{atoi}
use google_in_a_day_crawler.Index.{new_index}
use google_in_a_day_crawler.Worker.{Net}
use google_in_a_day_crawler.Crawler.Indexer.{Indexer}
use google_in_a_day_crawler.Manager.{Manager, start_crawl}
use google_in_a_day_crawler.Manager.Sessions.{ResumeOutcomes}
use google_in_a_day_crawler.Store.Tables.{DeleteOutcomes}
use google_in_a_day_crawler.Dashboard.{
  start_crawl, atoi, is_empty_text, trim_prefix, split, Form, StartRequest, StartOutcome,
  parse_seed_urls, form_config, request_config, older_config,
}
use google_in_a_day_crawler.Dashboard.Api.{create_crawl, post, stop_of, target_of, handle_crawls}
use google_in_a_day_crawler.Dashboard.Seeds.{IsSeed, parse_seed_urls-AllSeeds}
use google_in_a_day_crawler.Dashboard.Starting.{TooLargeOrSafe, fits, dashboard_starts}
use google_in_a_day_crawler.Crawler.System.Start.{ChanLimits, start, chan_size, double, int_of}
use google_in_a_day_crawler.Dashboard.Page.{ActionOutcomes}
use google_in_a_day_crawler.Dashboard.Routes.{
  handle, routes, handler_of, serve, ServeOutcomes, Request, crawls, crawl_by_id, page,
}
use google_in_a_day_crawler.Dashboard.Serving.{IsHonestAnswer, IsSafe, requests_change_nothing}
use google_in_a_day_crawler.Dashboard.Histories.{Event, begin, then_event, History-IsOrderly}
use google_in_a_day_crawler.Manager.Orderly.{HasKeys}
use google_in_a_day_crawler.Store.Rows.{Ascends, IsOrderedDb}
use google_in_a_day_crawler.Store.{Database}
use google_in_a_day_crawler.Search.Insertion.{plain_runtime}
use google_in_a_day_crawler.Manager.Sessions.{end_crawl, FinishOutcomes, active_session_ids}

-- A net in which every text is an address on one host.
abbrev one_host : Net
one_host = record {
  parse = λ s.
      some (record {
        scheme = codes "http";
        host = codes "a.b";
        path = s;
        fragment = [];
        others = [];
      });
  resolve_reference = λ base ref. ref;
  print = λ url. url.path;
  parse_page = λ s. none;
}

parse_seed_urls-AllSeeds_example :
    All (IsSeed one_host) (parse_seed_urls ascii one_host (codes "a.b"))
    × (parse_seed_urls ascii one_host (codes "a.b" ++ 10 ∷ codes "http://a.b/c")
        ≡ parse_seed_urls ascii one_host (codes "a.b")
          ++ parse_seed_urls ascii one_host (codes "http://a.b/c"))
parse_seed_urls-AllSeeds_example =
    parse_seed_urls-AllSeeds ascii one_host (codes "a.b") (codes "http://a.b/c")

-- Every field of the form holds a number that is not positive.
abbrev negative_form : Form
negative_form name = codes "-7"

abbrev negative_request : StartRequest
negative_request = record {
  seed = codes "http://a.b";
  depth = negsuc 6;
  max_urls = negsuc 6;
  workers = negsuc 6;
  queue_size = negsuc 6;
  same_domain = true;
}

abbrev empty_manager : Manager
empty_manager = record { index = new_index; crawls = []; next_id = 0; db = none; pdata = none }

abbrev no_indexer : Indexer
no_indexer = record {
  index = new_index;
  pending = [];
  table = none;
  pdata = none;
  pages_processed = 0;
  pages_errored = 0;
  indexed_docs = 0;
}

abbrev some_limits : ChanLimits
some_limits = record { tasks = 1_000_000_000; batches = 1_000_000_000; pages = 1_000_000_000 }

dashboard_starts_example :
    TooLargeOrSafe some_limits
      (form_config negative_form (codes "http://a.b"))
      none
      0
      none
      no_indexer
    × TooLargeOrSafe some_limits (request_config negative_request) none 0 none no_indexer
    × TooLargeOrSafe some_limits (older_config negative_request) none 0 none no_indexer
dashboard_starts_example =
    dashboard_starts some_limits negative_form (codes "http://a.b") negative_request none 0 none
      no_indexer (omega arith)

negative_form_fits : fits some_limits (form_config negative_form (codes "http://a.b")) ≡ true
unfolding fits form_config google_in_a_day_crawler.Crawler.System.Start.times atoi
negative_form_fits = refl

-- With 2 ^ 62 workers the size of two channels wraps to a negative number, and `Start` panics.
too_many_workers :
    start some_limits
      (record (form_config negative_form (codes "http://a.b")) {
        num_workers = pos 4_611_686_018_427_387_904;
      })
      none
      0
      none
      no_indexer
    ≡ none
unfolding start chan_size double int_of form_config atoi
too_many_workers = refl

abbrev all_resume : ResumeOutcomes
all_resume = record {
  session_read = true;
  visited_read = true;
  tasks_read = true;
  status_written = true;
  count_written = true;
}

abbrev all_deleted : DeleteOutcomes
all_deleted = record { queue_cleared = true; visited_cleared = true; sessions_deleted = true }

abbrev all_started : StartOutcome
all_started = record { saved = true; removed = true }

abbrev stop_path : Text
stop_path = codes "/api/crawls/7/stop"

stop_is_routed : target_of post stop_path ≡ stop_of (pos 7)
unfolding target_of split trim_prefix is_empty_text atoi Text_discrete
stop_is_routed = refl

abbrev nothing_ended : ActionOutcomes
nothing_ended = record {
  saved = true;
  ended = [];
  resume = all_resume;
  cleared = all_deleted;
  start = λ n. all_started;
}

abbrev all_served : ServeOutcomes
all_served = record { actions = nothing_ended; start = all_started; read = true; counted = true }

abbrev stop_request : Request
stop_request = record {
  method = post;
  path = stop_path;
  form = negative_form;
  query = negative_form;
  body = none;
}

abbrev start_request : Request
start_request = record stop_request { path = codes "/api/crawls"; body = some negative_request }

stop_is_handled : handler_of stop_path ≡ some crawl_by_id
unfolding handler_of routes Text_discrete has_prefix
stop_is_handled = refl

start_is_handled : handler_of (codes "/api/crawls") ≡ some crawls
unfolding handler_of routes Text_discrete has_prefix
start_is_handled = refl

page_is_handled : handler_of (codes "/favicon.ico") ≡ some page
unfolding handler_of routes Text_discrete has_prefix
page_is_handled = refl

requests_change_nothing_example :
    let r = serve ascii one_host plain_runtime all_served stop_request empty_manager in
    IsHonestAnswer empty_manager r × IsSafe (handler_of stop_path) post empty_manager r.0
requests_change_nothing_example =
    requests_change_nothing ascii one_host plain_runtime all_served stop_request empty_manager refl
      refl

abbrev empty_db : Database
empty_db = record {
  last_id = 0;
  sessions = [];
  queue = [];
  visited = [];
  crawl_state = none;
  visited_urls = [];
  postings = [];
}

abbrev stored_manager : Manager
stored_manager = record empty_manager { db = some empty_db }

abbrev all_finished : FinishOutcomes
all_finished = record { finished = true; counted = true; noted = true }

abbrev one_started : Manager
one_started = (serve ascii one_host plain_runtime all_served start_request stored_manager).0

one_runs : active_session_ids one_started ≡ 1 ∷ []
unfolding serve handle handler_of routes Text_discrete has_prefix handle_crawls create_crawl
    is_empty_text start_crawl active_session_ids google_in_a_day_crawler.Store.create_crawl_session
one_runs = refl

-- A crawl is started by a request, and ends.
History-IsOrderly_example :
    let t = end_crawl all_finished 1 one_started in HasKeys t.crawls × IsOrderedDb t.db
unfolding Ascends IsOrderedDb
History-IsOrderly_example =
    History-IsOrderly ascii one_host plain_runtime stored_manager
      (end_crawl all_finished 1 one_started) refl (omega arith)
      (then_event (then_event begin (Event.request all_served start_request refl))
        (Event.ended all_finished 1 refl))
