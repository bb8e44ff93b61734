-- ===== src/Cli/Launching.antt =====
-- What `parseSeeds` and `main` of cmd/crawler/main.go make of the flag with the seeds.
use google_in_a_day_crawler.Base.{
  ℕ, ◌≡◌, ◌≢◌, refl, Bool, true, false, List, [], ◌∷◌, ◌++◌, All, Text, trim, arith, if◌then◌else◌,
}
use google_in_a_day_crawler.Tokens.{Unicode}
use google_in_a_day_crawler.Worker.{Net}
use google_in_a_day_crawler.Crawler.{Config, seeds}
use google_in_a_day_crawler.Manager.{Manager, start_crawl}
use google_in_a_day_crawler.Manager.Sessions.{active_session_ids}
use google_in_a_day_crawler.Dashboard.{split, is_empty_text}
use google_in_a_day_crawler.Cli.{
  CrawlConfig, invalid_seed, no_seeds, SeedResult, refused, accepted, is_http_url, add_seed,
  parse_parts, check_any, parse_seeds, cli_config, LaunchOutcomes, prepare, new_manager, Launch,
  exits, crawling, start_seeds, launch,
}

-- The texts between the commas, trimmed, without the blank ones.
unfoldable pub trimmed_parts : Unicode → List Text → List Text
trimmed_parts u [] = []
trimmed_parts u (part ∷ parts) =
    let rest = trimmed_parts u parts in
    let s = trim u.is_space part in if is_empty_text s then rest else s ∷ rest

abbrev pub IsHttpUrl : Net → Text → Type 0
IsHttpUrl net s = is_http_url net s ≡ true

-- A result for the parts: all of them, or the first one that is refused.
data PartsOf (net : Net) : List Text → SeedResult → Type 0 where
  all_read : (parts : List Text) → All (IsHttpUrl net) parts → PartsOf net parts (accepted parts)
  refused_at :
      (before : List Text)
      → (s : Text) → (after : List Text) → All (IsHttpUrl net) before
      → is_http_url net s ≡ false
      → PartsOf net (before ++ s ∷ after) (refused (invalid_seed s))

add_part :
    (net : Net) (s : Text) (parts : List Text) (r : SeedResult)
    → is_http_url net s ≡ true
    → PartsOf net parts r
    → PartsOf net (s ∷ parts) (add_seed s r)
unfolding add_seed
add_part net s _ _ h (all_read parts all) = all_read (s ∷ parts) (h, all)
add_part net s _ _ h (refused_at before t after all bad) =
    refused_at (s ∷ before) t after (h, all) bad

next_part :
    (net : Net) (s : Text) (parts : List Text) (r : SeedResult) (blank fits : Bool)
    → is_http_url net s ≡ fits
    → PartsOf net parts r
    → PartsOf net
        (if blank then parts else s ∷ parts)
        (if blank then r else if fits then add_seed s r else refused (invalid_seed s))
next_part net s parts r true fits h p = p
next_part net s parts r false true h p = add_part net s parts r h p
next_part net s parts r false false h p = refused_at [] s parts tt h

parse_parts-PartsOf :
    (u : Unicode) (net : Net) (parts : List Text)
    → PartsOf net (trimmed_parts u parts) (parse_parts u net parts)
unfolding parse_parts trimmed_parts
parse_parts-PartsOf u net [] = all_read [] tt
parse_parts-PartsOf u net (part ∷ parts) =
    let s = trim u.is_space part in
    next_part net s (trimmed_parts u parts) (parse_parts u net parts) (is_empty_text s)
      (is_http_url net s) refl (parse_parts-PartsOf u net parts)

-- A crawl over some seeds, the only one that runs.
pub record Crawls (parts : List Text) (cfg : Config) (id : ℕ) (m : Manager) : Type 0 where
  pub over : seeds cfg ≡ parts
  pub alone : active_session_ids m ≡ id ∷ []

-- What a launch with a seed flag does, by the parts of the flag.
pub data LaunchOf (net : Net) : List Text → Launch → Type 0 where
  nothing_given : LaunchOf net [] (exits no_seeds)
  exits_at :
      (before : List Text)
      → (s : Text) → (after : List Text) → All (IsHttpUrl net) before
      → is_http_url net s ≡ false
      → LaunchOf net (before ++ s ∷ after) (exits (invalid_seed s))
  crawls :
      (parts : List Text)
      → (cfg : Config) → (id : ℕ) → (m : Manager) → parts ≢ []
      → All (IsHttpUrl net) parts
      → Crawls parts cfg id m
      → LaunchOf net parts (crawling cfg id m)

start_crawl-active :
    (o : LaunchOutcomes) (cfg : Config)
    → let r = start_crawl o.saved o.removed cfg (prepare o) in active_session_ids r.0 ≡ r.1 ∷ []
unfolding start_crawl prepare new_manager active_session_ids
start_crawl-active o cfg = ground arith

start_seeds-LaunchOf :
    (net : Net) (o : LaunchOutcomes) (flags : CrawlConfig) (parts : List Text) (r : SeedResult)
    → PartsOf net parts r
    → LaunchOf net parts (start_seeds o flags (check_any r))
unfolding check_any start_seeds cli_config seeds
start_seeds-LaunchOf net o flags _ _ (all_read [] all) = nothing_given
start_seeds-LaunchOf net o flags _ _ (all_read (s ∷ parts) all) =
    let cfg = cli_config flags s parts in
    let r = start_crawl o.saved o.removed cfg (prepare o) in
    crawls (s ∷ parts) cfg r.1 r.0 (ground arith) all
      (record { over = ground arith; alone = start_crawl-active o cfg })
start_seeds-LaunchOf net o flags _ _ (refused_at before s after all bad) =
    exits_at before s after all bad

-- Given a seed flag that is not empty, and no request to the dashboard meanwhile, the program exits at
-- the first part between the commas that is no http or https URL, or when every part is blank; else it
-- starts a crawl over exactly these parts, in their order, and no other crawl runs.
pub launch-LaunchOf :
    (u : Unicode) (net : Net) (o : LaunchOutcomes) (flags : CrawlConfig)
    → is_empty_text flags.seed_url ≡ false
    → LaunchOf net (trimmed_parts u (split b',' flags.seed_url)) (launch u net o flags)
unfolding launch parse_seeds
launch-LaunchOf u net o flags h =
    let parts = split b',' flags.seed_url in
    rw h (
      start_seeds-LaunchOf net o flags (trimmed_parts u parts) (parse_parts u net parts)
        (parse_parts-PartsOf u net parts))
