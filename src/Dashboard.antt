-- ===== src/Dashboard.antt =====
-- internal/dashboard/server.go: the reading of seeds and numbers from a form, the requests of the JSON
-- interface, and the answers. The packages net/http, net/url and encoding/json are parameters: a form
-- and a query are functions from names to values, a body is the request that it decodes to, if it is
-- valid, and url.Parse is that of `Net`.
pub mod Api
pub mod Page
pub mod Seeds
pub mod Starting
pub mod Routes
pub mod Answers
pub mod Serving
pub mod Requests
pub mod Handlers
pub mod Histories
pub mod Stopping
mod Examples
use google_in_a_day_crawler.Base.{
  ℕ, zero, suc, ◌≡◌, ◌+◌, Bool, true, false, not, ◌&&◌, ◌||◌, ite, List, [], ◌∷◌, ◌++◌, Option,
  none, some, ℤ, pos, negsuc, Text, Text_discrete, codes, has_prefix, trim, length, ltb, ◌==◌,
  if◌then◌else◌,
}
use google_in_a_day_crawler.Tokens.{Unicode}
use google_in_a_day_crawler.PData.Decimal.{atoi}
use google_in_a_day_crawler.Worker.{Net, is_http}
use google_in_a_day_crawler.Crawler.{Config}
use google_in_a_day_crawler.Manager.{Manager, start_crawl}
use google_in_a_day_crawler.Manager.Sessions.{
  stop_crawl_by_id, resume_crawl_by_id, ResumeOutcomes, ResumeResult, failed, no_database,
  not_loaded,
}

-- `strings.Split`.
add_char : ℕ → List Text → List Text
add_char c [] = (c ∷ []) ∷ []
add_char c (part ∷ parts) = (c ∷ part) ∷ parts

unfoldable pub split : ℕ → Text → List Text
unfolding add_char
split sep [] = [] ∷ []
split sep (c ∷ s) = let rest = split sep s in if c == sep then [] ∷ rest else add_char c rest

-- `strings.TrimPrefix`.
drop_prefix : Text → Text → Option Text
drop_prefix s [] = some s
drop_prefix [] (p ∷ prefix) = none
drop_prefix (c ∷ s) (p ∷ prefix) = let rest = drop_prefix s prefix in if c == p then rest else none

pub trim_prefix : Text → Text → Text
unfolding drop_prefix
trim_prefix s prefix = elim (drop_prefix s prefix) [ none ↦ s | some rest ↦ rest ]

unfoldable pub is_empty_text : Text → Bool
is_empty_text [] = true
is_empty_text (c ∷ s) = false

-- A bare domain is taken to mean https.
pub with_scheme : Text → Text
with_scheme line =
    if has_prefix line (codes "http://") || has_prefix line (codes "https://")
    then line
    else codes "https://" ++ line

pub is_seed : Net → Text → Bool
is_seed net line = elim (net.parse line) [
  | none ↦ false
  | some url ↦ is_http url.scheme && not (is_empty_text url.host)
]

-- `parseSeedURLs`.
pub seeds_of_lines : Unicode → Net → List Text → List Text
unfolding is_seed with_scheme
seeds_of_lines u net [] = []
seeds_of_lines u net (line ∷ lines) =
    let rest = seeds_of_lines u net lines in
    let trimmed = trim u.is_space line in
    if is_empty_text trimmed
    then rest
    else if is_seed net (with_scheme trimmed)
    then with_scheme trimmed ∷ rest
    else rest

pub parse_seed_urls : Unicode → Net → Text → List Text
parse_seed_urls u net raw = seeds_of_lines u net (split 10 raw)

pub is_positive : ℤ → Bool
is_positive (pos n) = ltb 0 n
is_positive (negsuc n) = false

-- A number of a form: the default, unless the text is a positive number.
pub positive_or : ℤ → Text → ℤ
unfolding is_positive
positive_or default text = elim (atoi text) [
  | none ↦ default
  | some n ↦ if is_positive n then n else default
]

-- A number of a request: the default, unless it is positive.
pub default_to : ℤ → ℤ → ℤ
unfolding is_positive
default_to default n = if is_positive n then n else default

abbrev pub Form : Type 0
Form = Text → Text

-- The configuration of the action `start` for one of its seeds.
unfoldable pub form_config : Form → Text → Config
unfolding positive_or
form_config form seed = record {
  seed_url = seed;
  seed_urls = [];
  max_depth = positive_or (pos 3) (form (codes "depth"));
  max_urls = positive_or (pos 0) (form (codes "max_urls"));
  num_workers = positive_or (pos 5) (form (codes "workers"));
  queue_size = positive_or (pos 10_000) (form (codes "queue_size"));
  max_body_size = pos 1_048_576;
  same_domain = ite (Text_discrete (form (codes "same_domain")) (codes "on")) true false;
}

-- The body of `POST /api/crawls`, and of the older `POST /api/index`, which has neither a limit nor a
-- queue size.
pub record StartRequest : Type 0 where
  pub seed : Text
  pub depth : ℤ
  pub max_urls : ℤ
  pub workers : ℤ
  pub queue_size : ℤ
  pub same_domain : Bool

unfoldable pub request_config : StartRequest → Config
unfolding default_to
request_config req = record {
  seed_url = req.seed;
  seed_urls = [];
  max_depth = default_to (pos 3) req.depth;
  max_urls = req.max_urls;
  num_workers = default_to (pos 5) req.workers;
  queue_size = default_to (pos 10_000) req.queue_size;
  max_body_size = pos 1_048_576;
  same_domain = req.same_domain;
}

unfoldable pub older_config : StartRequest → Config
unfolding default_to
older_config req = record {
  seed_url = req.seed;
  seed_urls = [];
  max_depth = default_to (pos 3) req.depth;
  max_urls = pos 0;
  num_workers = default_to (pos 5) req.workers;
  queue_size = pos 10_000;
  max_body_size = pos 1_048_576;
  same_domain = req.same_domain;
}

-- The outcomes of the writes of `StartCrawl`.
pub record StartOutcome : Type 0 where
  pub saved : Bool
  pub removed : Bool

-- Each seed starts a crawl of its own; the outcomes are those by the number of seeds that follow.
pub start_all : (ℕ → StartOutcome) → (Text → Config) → List Text → Manager → Manager
start_all o config [] m = m
start_all o config (seed ∷ seeds) m =
    start_all o config seeds
      (start_crawl (o (length seeds)).saved (o (length seeds)).removed (config seed) m).0

-- The methods of the manager at an `int64`: no session has a negative id.
pub stop_by : ℤ → Manager → Manager × Bool
stop_by (pos id) m = stop_crawl_by_id id m
stop_by (negsuc n) m = (m, false)

pub resume_by : ResumeOutcomes → ℤ → Manager → Manager × ResumeResult
resume_by o (pos id) m = resume_crawl_by_id o id m
resume_by o (negsuc n) m = elim m.db [
  | none ↦ (m, failed no_database)
  | some db ↦ (m, failed not_loaded)
]
