-- ===== src/Cli.antt =====
-- cmd/crawler/main.go: the flags, the seeds of the command line, and what a launch starts before it
-- waits, as long as no signal and no request to the dashboard comes. The printing is left out.
pub mod Launching
pub mod Signals
mod Examples
use google_in_a_day_crawler.Base.{
  ℕ, Bool, true, false, List, [], ◌∷◌, Option, none, some, ℤ, pos, Text, codes, trim, if◌then◌else◌,
}
use google_in_a_day_crawler.Tokens.{Unicode}
use google_in_a_day_crawler.Index.{new_index}
use google_in_a_day_crawler.PData.{File}
use google_in_a_day_crawler.Worker.{Net, is_http}
use google_in_a_day_crawler.Crawler.{Config}
use google_in_a_day_crawler.Store.{Database}
use google_in_a_day_crawler.Store.Tables.{load_all_postings}
use google_in_a_day_crawler.Manager.{Manager, restore_index, start_crawl}
use google_in_a_day_crawler.Dashboard.{split, is_empty_text}

-- The flags; the timeout is in nanoseconds.
pub record CrawlConfig : Type 0 where
  pub seed_url : Text
  pub max_depth : ℤ
  pub max_urls : ℤ
  pub num_workers : ℤ
  pub queue_size : ℤ
  pub request_timeout : ℕ
  pub max_body_size : ℤ
  pub same_domain : Bool
  pub dashboard_port : ℤ
  pub data_dir : Text

-- What `parseFlags` returns where no flag is given.
abbrev pub default_flags : CrawlConfig
default_flags = record {
  seed_url = [];
  max_depth = pos 3;
  max_urls = pos 0;
  num_workers = pos 5;
  queue_size = pos 10_000;
  request_timeout = 10_000_000_000;
  max_body_size = pos 1_048_576;
  same_domain = true;
  dashboard_port = pos 3600;
  data_dir = codes "data";
}

pub data SeedError : Type 0 where
  invalid_seed : Text → SeedError
  no_seeds : SeedError

pub data SeedResult : Type 0 where
  refused : SeedError → SeedResult
  accepted : List Text → SeedResult

pub is_http_url : Net → Text → Bool
is_http_url net s = elim (net.parse s) [ none ↦ false | some url ↦ is_http url.scheme ]

pub add_seed : Text → SeedResult → SeedResult
add_seed s (refused e) = refused e
add_seed s (accepted seeds) = accepted (s ∷ seeds)

-- The loop of `parseSeeds`: the first part that is refused ends it.
pub parse_parts : Unicode → Net → List Text → SeedResult
unfolding is_http_url add_seed
parse_parts u net [] = accepted []
parse_parts u net (part ∷ parts) =
    let rest = parse_parts u net parts in
    let s = trim u.is_space part in
    if is_empty_text s
    then rest
    else if is_http_url net s
    then add_seed s rest
    else refused (invalid_seed s)

pub check_any : SeedResult → SeedResult
check_any (refused e) = refused e
check_any (accepted []) = refused no_seeds
check_any (accepted (s ∷ seeds)) = accepted (s ∷ seeds)

-- `parseSeeds`.
pub parse_seeds : Unicode → Net → Text → SeedResult
unfolding check_any
parse_seeds u net raw = check_any (parse_parts u net (split b',' raw))

-- The crawler's configuration, for the first seed and the others; `Config` leaves the timeout out.
pub cli_config : CrawlConfig → Text → List Text → Config
cli_config flags s seeds = record {
  seed_url = s;
  seed_urls = s ∷ seeds;
  max_depth = flags.max_depth;
  max_urls = flags.max_urls;
  num_workers = flags.num_workers;
  queue_size = flags.queue_size;
  max_body_size = flags.max_body_size;
  same_domain = flags.same_domain;
}

-- `NewManager`, in the directory with this flat file.
pub new_manager : Option Database → Option File → Manager
new_manager db pdata = record {
  index = new_index;
  crawls = [];
  next_id = 0;
  db = db;
  pdata = pdata;
}

-- What the environment decides: the database, if it opens, the flat file in the directory and the
-- outcomes of the reads and writes.
pub record LaunchOutcomes : Type 0 where
  pub db : Option Database
  pub pdata : Option File
  pub opened : Bool
  pub read : Bool
  pub saved : Bool
  pub removed : Bool

-- The index is restored only with a database.
pub prepare : LaunchOutcomes → Manager
unfolding new_manager
prepare o =
    let m = new_manager o.db o.pdata in
    elim o.db [
      | none ↦ m
      | some db ↦ record m {
        index = (restore_index o.opened (some (load_all_postings o.read db)) o.pdata m.index).0;
      }
    ]

-- The dashboard alone, the exit with code 1, or a crawl with its configuration and its id.
pub data Launch : Type 0 where
  dashboard_only : Manager → Launch
  exits : SeedError → Launch
  crawling : Config → ℕ → Manager → Launch

pub start_seeds : LaunchOutcomes → CrawlConfig → SeedResult → Launch
unfolding cli_config prepare
start_seeds o flags (refused e) = exits e
start_seeds o flags (accepted []) = exits no_seeds
start_seeds o flags (accepted (s ∷ seeds)) =
    let cfg = cli_config flags s seeds in
    let (m, id) = start_crawl o.saved o.removed cfg (prepare o) in crawling cfg id m

-- `main`, up to where it waits.
pub launch : Unicode → Net → LaunchOutcomes → CrawlConfig → Launch
unfolding start_seeds
launch u net o flags =
    if is_empty_text flags.seed_url
    then dashboard_only (prepare o)
    else start_seeds o flags (parse_seeds u net flags.seed_url)
