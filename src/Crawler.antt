-- ===== src/Crawler.antt =====
-- internal/crawler/crawler.go: the configuration, `deduplicateAndMark` and the start of a crawl.
-- The concurrent run of coordinator, workers and indexer is in `Crawler.System`.
pub mod Marking
pub mod Snapshot
pub mod Indexer
pub mod System
mod Examples
use google_in_a_day_crawler.Base.{
  map, ℕ, suc, ◌+◌, ◌≡◌, Bool, true, false, ◌&&◌, ◌||◌, ite, List, [], ◌∷◌, ◌++◌, Option, none,
  some, ℤ, pos, negsuc, Text, contains, length, leb, ltb, ltb_ℤ, if◌then◌else◌,
}
use google_in_a_day_crawler.Worker.{CrawlTask}

-- The fields that the crawl reads; the timeout and the body limit go to the workers alone.
pub record Config : Type 0 where
  pub seed_url : Text
  pub seed_urls : List Text
  pub max_depth : ℤ
  pub max_urls : ℤ
  pub num_workers : ℤ
  pub queue_size : ℤ
  pub max_body_size : ℤ
  pub same_domain : Bool

-- `Seeds`.
unfoldable pub seeds : Config → List Text
seeds cfg = elim cfg.seed_urls [
  | s ∷ ss ↦ s ∷ ss
  | [] ↦ elim cfg.seed_url [ [] ↦ [] | c ∷ url ↦ (c ∷ url) ∷ [] ]
]

-- `visited[url] = true`: the set as the list of its members, each once.
unfoldable pub mark : Text → List Text → List Text
mark url visited = if contains url visited then visited else url ∷ visited

-- The limit on the number of URLs, with a positive `max_urls`.
unfoldable pub limit_met : ℤ → ℕ → Bool
limit_met (pos max_urls) n = ltb 0 max_urls && leb max_urls n
limit_met (negsuc m) n = false

abbrev pub task_urls : List CrawlTask → List Text
task_urls = map (λ t. t.url)

pub record Marked : Type 0 where
  pub tasks : List CrawlTask
  pub visited : List Text

pub keep_task : CrawlTask → Marked → Marked
keep_task t m = record m { tasks = t ∷ m.tasks }

-- `deduplicateAndMark`; it adds one to `PagesQueued` for each task that it returns.
pub deduplicate_and_mark : Config → List CrawlTask → List Text → Marked
unfolding keep_task
deduplicate_and_mark cfg [] visited = record { tasks = []; visited = visited }
deduplicate_and_mark cfg (t ∷ ts) visited =
    let skip = deduplicate_and_mark cfg ts visited in
    let keep = keep_task t (deduplicate_and_mark cfg ts (mark t.url visited)) in
    if ltb_ℤ cfg.max_depth t.depth
    then skip
    else if contains t.url visited
    then skip
    else if limit_met cfg.max_urls (length visited)
    then record { tasks = []; visited = visited }
    else keep

unfoldable pub seed_task : Text → CrawlTask
seed_task url = record { url = url; origin_url = []; depth = pos 0 }

-- The seeds of a fresh crawl: each becomes a task, and each is marked.
unfoldable pub seed_queue : List Text → List CrawlTask
unfolding seed_task
seed_queue [] = []
seed_queue (s ∷ ss) = seed_task s ∷ seed_queue ss

unfoldable pub mark_all : List Text → List Text → List Text
mark_all [] visited = visited
mark_all (s ∷ ss) visited = mark_all ss (mark s visited)
