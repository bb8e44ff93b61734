-- ===== src/Crawler/System/Noting.antt =====
-- The rows that `flushVisited` and `saveQueue` (internal/crawler/crawler.go) write, and what is noted
-- for them.
use google_in_a_day_crawler.Base.{
  inl, inr, Bool, true, ◌||◌, Option-cases, ◌≢◌, ◌≡◌, List, [], ◌∷◌, arith, Text, contains,
  contains-append, none, some,
}
use google_in_a_day_crawler.Worker.{CrawlTask}
use google_in_a_day_crawler.Crawler.System.{
  Sys, interrupted, flush_visited, flush_rows, save_tasks, replace_queue, add_visited,
  add_all_visited,
}
use google_in_a_day_crawler.Crawler.System.Ending.{ended}

-- The session's rows, if there is a database.
unfoldable pub saved_queue : Sys → List CrawlTask
saved_queue s = elim s.rows [ none ↦ [] | some rows ↦ rows.queue ]

unfoldable pub saved_visited : Sys → List Text
saved_visited s = elim s.rows [ none ↦ [] | some rows ↦ rows.visited ]

contains-add_visited :
    (k url : Text) (visited : List Text)
    → contains k (add_visited url visited) ≡ (contains k visited || contains k (url ∷ []))
unfolding add_visited contains
contains-add_visited k url visited = ground (arith, contains-append k visited (url ∷ []))

contains-add_all_visited :
    (k : Text) (urls visited : List Text)
    → contains k (add_all_visited urls visited) ≡ (contains k visited || contains k urls)
unfolding add_all_visited contains
contains-add_all_visited k [] visited = ground arith
contains-add_all_visited k (url ∷ urls) visited = ground (
  arith,
  contains-add_all_visited k urls (add_visited url visited),
  contains-add_visited k url visited,
)

-- The URLs that are saved or will be with the next write.
unfoldable pub noted : Text → Sys → Bool
noted k s = contains k (saved_visited s) || contains k s.new_visited

-- With a database: a URL that is newly marked is noted, and an interrupted crawl has saved its
-- overflow.
pub record IsSaved (k : Text) (base : Bool) (s : Sys) : Type 0 where
  pub has_rows : s.rows ≢ none
  pub marks_noted : contains k s.visited ≡ true → (base || noted k s) ≡ true
  pub queue_saved : s.at ≡ interrupted → saved_queue s ≡ s.overflow
  pub flushed : ended s.at ≡ true → s.new_visited ≡ []

-- A write loses no note, and leaves the visited set and the overflow alone.
pub record Writes (k : Text) (s t : Sys) : Type 0 where
  pub has_rows : t.rows ≢ none
  pub noted : noted k t ≡ noted k s
  pub visited : t.visited ≡ s.visited
  pub overflow : t.overflow ≡ s.overflow

pub flush-Writes :
    (k : Text) (s : Sys)
    → s.rows ≢ none
    → let t = flush_visited true s in
      Writes k s t × (t.new_visited ≡ []) × (saved_queue t ≡ saved_queue s)
unfolding flush_visited flush_rows noted saved_visited saved_queue contains
flush-Writes k s h = elim (Option-cases s.rows) [
  | inl e ↦ absurd (h e)
  | inr (rows, e) ↦ (
    record {
      has_rows = ground (arith, e);
      noted = ground (arith, e, contains-add_all_visited k s.new_visited rows.visited);
      visited = ground (arith, e);
      overflow = ground (arith, e);
    },
    ground (arith, e),
    ground (arith, e),
  )
]

pub save-Writes :
    (k : Text) (saved : Bool) (tasks : List CrawlTask) (s : Sys)
    → s.rows ≢ none
    → let t = save_tasks saved tasks s in
      Writes k s t × (t.new_visited ≡ s.new_visited) × (saved ≡ true → saved_queue t ≡ tasks)
unfolding save_tasks replace_queue noted saved_visited saved_queue
save-Writes k saved tasks s h = (
  record {
    has_rows = ground (arith, h);
    noted = ground (arith, h);
    visited = ground (arith, h);
    overflow = ground (arith, h);
  },
  ground (arith, h),
  λ e. ground (arith, h, e),
)
