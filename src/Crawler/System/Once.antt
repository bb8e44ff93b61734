-- ===== src/Crawler/System/Once.antt =====
-- How often a URL is fetched, or may still be, in a run of internal/crawler/crawler.go and
-- internal/crawler/worker.go.
use google_in_a_day_crawler.Base.{
  ℕ, ◌≤◌, ◌≡◌, refl, false, List, [], ◌∷◌, arith, Text, count, contains, ite, Text_discrete,
}
use google_in_a_day_crawler.Tokens.{Unicode}
use google_in_a_day_crawler.Worker.{CrawlTask, WorkerConfig, Net}
use google_in_a_day_crawler.Crawler.{Config, task_urls, deduplicate_and_mark, limit_met}
use google_in_a_day_crawler.Crawler.Marking.{one_if, marked_once}
use google_in_a_day_crawler.Crawler.System.Steps.{Reach, here, next}
use google_in_a_day_crawler.Crawler.System.{Sys, url_limit_reached}
use google_in_a_day_crawler.Crawler.System.Scheduling.{
  total, scheduled, Effect, quiet, marks, step-Effect,
}

pub has_url : Text → CrawlTask → ℕ
has_url k t = ite (Text_discrete t.url k) 1 0

pub total-has_url : (k : Text) (ts : List CrawlTask) → total (has_url k) ts ≡ count k (task_urls ts)
unfolding has_url total count
total-has_url k [] = refl
total-has_url k (t ∷ ts) = ground (arith, total-has_url k ts)

-- A URL is scheduled once at most, and not at all unless it is in the visited set.
abbrev pub AtMostOnce : Text → Sys → Type 0
AtMostOnce k s = scheduled (has_url k) s ≤ one_if (contains k s.visited)

-- As long as the context is not cancelled, each URL of the visited set is scheduled exactly once.
abbrev pub IsExact : Text → Sys → Type 0
IsExact k s = s.cancelled ≡ false → scheduled (has_url k) s ≡ one_if (contains k s.visited)

Effect-AtMostOnce :
    (cfg : Config) (k : Text) (s t : Sys)
    → Effect cfg (has_url k) s t
    → AtMostOnce k s
    → AtMostOnce k t
Effect-AtMostOnce cfg k s t (quiet v le c eq) h = ground arith
Effect-AtMostOnce cfg k s t (marks batch v c eq) h = ground (
  arith,
  marked_once cfg batch s.visited k,
  total-has_url k (deduplicate_and_mark cfg batch s.visited).tasks,
)

Effect-IsExact :
    (cfg : Config) (k : Text) (s t : Sys)
    → url_limit_reached cfg s ≡ false
    → Effect cfg (has_url k) s t
    → IsExact k s
    → IsExact k t
Effect-IsExact cfg k s t free (quiet v le c eq) h = ground arith
Effect-IsExact cfg k s t free (marks batch v c eq) h = ground (
  arith,
  marked_once cfg batch s.visited k,
  total-has_url k (deduplicate_and_mark cfg batch s.visited).tasks,
)

abbrev pub IsUnlimited : Config → Type 0
IsUnlimited cfg = (n : ℕ) → limit_met cfg.max_urls n ≡ false

module _ (u : Unicode) (net : Net) (wcfg : WorkerConfig) (cfg : Config) (queue_size num_workers : ℕ)
    (k : Text) where
  pub Reach-AtMostOnce :
      {s t : Sys}
      → AtMostOnce k s
      → Reach u net wcfg cfg queue_size num_workers s t
      → AtMostOnce k t
  Reach-AtMostOnce h here = h
  Reach-AtMostOnce h (next {t = m} {v = v} r st) =
      Effect-AtMostOnce cfg k m v (step-Effect u net wcfg cfg queue_size num_workers (has_url k) st)
        (Reach-AtMostOnce h r)

  pub Reach-IsExact :
      {s t : Sys}
      → IsUnlimited cfg
      → IsExact k s
      → Reach u net wcfg cfg queue_size num_workers s t
      → IsExact k t
  unfolding url_limit_reached
  Reach-IsExact free h here = h
  Reach-IsExact free h (next {t = m} {v = v} r st) =
      Effect-IsExact cfg k m v (free m.indexer.pages_processed)
        (step-Effect u net wcfg cfg queue_size num_workers (has_url k) st) (Reach-IsExact free h r)
