-- ===== src/Crawler/System/Bounds.antt =====
-- The limits on depth and number in a run of internal/crawler/crawler.go and
-- internal/crawler/worker.go.
use google_in_a_day_crawler.Base.{
  ℕ, suc, ◌≤◌, ◌≡◌, refl, List, [], ◌∷◌, arith, All, ◌≤ℤ◌, ltb_ℤ, length, max, pos, if◌then◌else◌,
}
use google_in_a_day_crawler.Tokens.{Unicode}
use google_in_a_day_crawler.Worker.{CrawlTask, WorkerConfig, Net}
use google_in_a_day_crawler.Crawler.{Config, deduplicate_and_mark}
use google_in_a_day_crawler.Crawler.Marking.{marked_depths, length-marked, marked_limit}
use google_in_a_day_crawler.Crawler.System.Steps.{Reach, here, next}
use google_in_a_day_crawler.Crawler.System.{Sys}
use google_in_a_day_crawler.Crawler.System.Scheduling.{
  total, scheduled, Effect, quiet, marks, step-Effect,
}

-- One for a task that is too deep.
pub too_deep : Config → CrawlTask → ℕ
too_deep cfg t = if ltb_ℤ cfg.max_depth t.depth then 1 else 0

pub total-too_deep :
    (cfg : Config) (ts : List CrawlTask)
    → All (λ t. t.depth ≤ℤ cfg.max_depth) ts
    → total (too_deep cfg) ts ≡ 0
unfolding too_deep total
total-too_deep cfg [] h = refl
total-too_deep cfg (t ∷ ts) h = ground (arith, total-too_deep cfg ts h.1)

pub All-of-total :
    (cfg : Config) (ts : List CrawlTask)
    → total (too_deep cfg) ts ≡ 0
    → All (λ t. t.depth ≤ℤ cfg.max_depth) ts
unfolding too_deep total
All-of-total cfg [] h = tt
All-of-total cfg (t ∷ ts) h = (ground arith, All-of-total cfg ts (omega arith))

unfoldable pub one : CrawlTask → ℕ
one t = 1

pub total-one : (ts : List CrawlTask) → total one ts ≡ length ts
unfolding one total
total-one [] = refl
total-one (t ∷ ts) = omega (arith, total-one ts)

-- With a positive limit of n + 1 URLs: what is fetched or may still be is marked, and the marked
-- set has outgrown neither the limit nor the initial number.
pub record IsWithin (n seeded : ℕ) (s : Sys) : Type 0 where
  pub marked : scheduled one s ≤ length s.visited
  pub limited : length s.visited ≤ max (suc n) seeded

Effect-too_deep :
    (cfg : Config) (s t : Sys)
    → Effect cfg (too_deep cfg) s t
    → scheduled (too_deep cfg) s ≡ 0
    → scheduled (too_deep cfg) t ≡ 0
Effect-too_deep cfg s t (quiet v le c eq) h = omega arith
Effect-too_deep cfg s t (marks batch v c eq) h = omega (
  arith,
  total-too_deep cfg (deduplicate_and_mark cfg batch s.visited).tasks
      (marked_depths cfg batch s.visited),
)

Effect-IsWithin :
    (cfg : Config) (n seeded : ℕ) (s t : Sys)
    → cfg.max_urls ≡ pos (suc n)
    → Effect cfg one s t
    → IsWithin n seeded s
    → IsWithin n seeded t
Effect-IsWithin cfg n seeded s t e (quiet v le c eq) h = ground arith
Effect-IsWithin cfg n seeded s t e (marks batch v c eq) h = ground (
  arith,
  length-marked cfg batch s.visited,
  total-one (deduplicate_and_mark cfg batch s.visited).tasks,
  marked_limit cfg batch s.visited n e,
)

module _ (u : Unicode) (net : Net) (wcfg : WorkerConfig) (cfg : Config)
    (queue_size num_workers : ℕ) where
  pub Reach-too_deep :
      {s t : Sys}
      → scheduled (too_deep cfg) s ≡ 0
      → Reach u net wcfg cfg queue_size num_workers s t
      → scheduled (too_deep cfg) t ≡ 0
  Reach-too_deep h here = h
  Reach-too_deep h (next {t = m} {v = v} r st) =
      Effect-too_deep cfg m v (step-Effect u net wcfg cfg queue_size num_workers (too_deep cfg) st)
        (Reach-too_deep h r)

  pub Reach-IsWithin :
      {s t : Sys} (n seeded : ℕ)
      → cfg.max_urls ≡ pos (suc n)
      → IsWithin n seeded s
      → Reach u net wcfg cfg queue_size num_workers s t
      → IsWithin n seeded t
  Reach-IsWithin n seeded e h here = h
  Reach-IsWithin n seeded e h (next {t = m} {v = v} r st) =
      Effect-IsWithin cfg n seeded m v e (step-Effect u net wcfg cfg queue_size num_workers one st)
        (Reach-IsWithin n seeded e h r)
