-- ===== src/Cli/Examples.antt =====
-- A launch with two seeds and a blank part, and a witness.
use google_in_a_day_crawler.Base.{
  trim, ◌≡◌, refl, true, [], ◌∷◌, none, some, codes, trim, Text_discrete,
}
use google_in_a_day_crawler.Tokens.Ascii.{ascii}
use google_in_a_day_crawler.Worker.{Net, is_http}
use google_in_a_day_crawler.Dashboard.{split, is_empty_text}
use google_in_a_day_crawler.Cli.{
  CrawlConfig, default_flags, LaunchOutcomes, launch, parse_seeds, accepted, parse_parts, check_any,
  add_seed, is_http_url,
}
use google_in_a_day_crawler.Cli.Launching.{LaunchOf, trimmed_parts, launch-LaunchOf}

-- A net in which every text is an address on one host.
abbrev one_host : Net
one_host = record {
  parse = λ s.
      some (record {
        scheme = codes "http";
        host = codes "a.b";
        path = s;
        fragment = [];
        others = [];
      });
  resolve_reference = λ base ref. ref;
  print = λ url. url.path;
  parse_page = λ s. none;
}

abbrev two_seeds : CrawlConfig
two_seeds = record default_flags { seed_url = codes "http://a.b, ,http://a.b/c" }

abbrev no_disk : LaunchOutcomes
no_disk = record {
  db = none;
  pdata = none;
  opened = true;
  read = true;
  saved = true;
  removed = true;
}

two_are_read :
    parse_seeds ascii one_host two_seeds.seed_url
    ≡ accepted (codes "http://a.b" ∷ codes "http://a.b/c" ∷ [])
unfolding parse_seeds parse_parts check_any add_seed is_http_url split is_empty_text trim is_http
    Text_discrete
two_are_read = refl

launch-LaunchOf_example :
    LaunchOf one_host
      (trimmed_parts ascii (split b',' two_seeds.seed_url))
      (launch ascii one_host no_disk two_seeds)
unfolding is_empty_text
launch-LaunchOf_example = launch-LaunchOf ascii one_host no_disk two_seeds refl
