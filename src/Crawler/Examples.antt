-- ===== src/Crawler/Examples.antt =====
-- `deduplicateAndMark` (internal/crawler/crawler.go) on concrete batches.
use google_in_a_day_crawler.Base.{
  arith, ℕ, ◌≡◌, refl, List, [], ◌∷◌, Text, codes, pos, contains, count, false, ◌+◌, Text_discrete,
}
use google_in_a_day_crawler.Worker.{CrawlTask}
use google_in_a_day_crawler.Crawler.{Config, task_urls, deduplicate_and_mark, mark, limit_met}
use google_in_a_day_crawler.Crawler.Snapshot.{Shows, format_uptime, format_uptime-Shows}
use google_in_a_day_crawler.Crawler.Marking.{one_if, marked_once}

abbrev limited_to : ℕ → Config
limited_to n = record {
  seed_url = codes "s";
  seed_urls = [];
  max_depth = pos 1;
  max_urls = pos n;
  num_workers = pos 1;
  queue_size = pos 1;
  max_body_size = pos 100;
  same_domain = false;
}

abbrev at_depth : Text → ℕ → CrawlTask
at_depth url depth = record { url = url; origin_url = codes "s"; depth = pos depth }

-- A repeated URL, one that was visited, and one that is too deep.
abbrev batch : List CrawlTask
batch =
    at_depth (codes "a") 1
    ∷ at_depth (codes "s") 1
    ∷ at_depth (codes "a") 1
    ∷ at_depth (codes "d") 2
    ∷ at_depth (codes "b") 1
    ∷ []

abbrev seen : List Text
seen = codes "s" ∷ []

two_are_new :
    task_urls (deduplicate_and_mark (limited_to 0) batch seen).tasks ≡ codes "a" ∷ codes "b" ∷ []
unfolding deduplicate_and_mark mark limit_met contains Text_discrete
two_are_new = refl

one_fits : task_urls (deduplicate_and_mark (limited_to 2) batch seen).tasks ≡ codes "a" ∷ []
unfolding deduplicate_and_mark mark limit_met contains Text_discrete
one_fits = refl

marked_once_example :
    one_if (contains (codes "a") (deduplicate_and_mark (limited_to 0) batch seen).visited)
    ≡ one_if (contains (codes "a") seen)
      + count (codes "a") (task_urls (deduplicate_and_mark (limited_to 0) batch seen).tasks)
marked_once_example = marked_once (limited_to 0) batch seen (codes "a")

-- An hour, a minute and a second and a half.
format_uptime-Shows_example : Shows 3_661_500_000_000 (format_uptime 3_661_500_000_000)
format_uptime-Shows_example = format_uptime-Shows 3_661_500_000_000 (omega arith)
