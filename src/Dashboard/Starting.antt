-- ===== src/Dashboard/Starting.antt =====
-- The configurations that internal/dashboard/server.go makes, handed to `Start` of
-- internal/crawler/crawler.go.
use google_in_a_day_crawler.Base.{
  inr, sym, ap, inl, ◌∙◌, Bool-cases, ◌⊎◌, ◌^◌, ◌<◌, false, Bool, ◌*◌, leb, ℕ, zero, suc, ◌≤◌, ◌*◌,
  ◌&&◌, ◌≡◌, refl, true, Option, some, arith, Text, codes, ℤ, pos, negsuc, length,
}
use google_in_a_day_crawler.Crawler.{Config}
use google_in_a_day_crawler.Crawler.Indexer.{Indexer}
use google_in_a_day_crawler.Crawler.System.{Sys, SessionRows}
use google_in_a_day_crawler.Crawler.System.Start.{
  int_of, double, ChanLimits, times, ResumeState, initial, chan_size, started, start,
}
use google_in_a_day_crawler.Crawler.System.Outcome.{length-idle_workers}
use google_in_a_day_crawler.Dashboard.{
  Form, StartRequest, is_positive, positive_or, default_to, form_config, request_config,
  older_config,
}

-- A number of workers and a queue size that are positive.
pub record IsRunnable (cfg : Config) : Type 0 where
  pub workers : is_positive cfg.num_workers ≡ true
  pub slots : is_positive cfg.queue_size ≡ true

positive_or-positive :
    (default : ℤ) (text : Text)
    → is_positive default ≡ true
    → is_positive (positive_or default text) ≡ true
unfolding positive_or
positive_or-positive default text h = ground (arith, h)

default_to-positive :
    (default n : ℤ) → is_positive default ≡ true → is_positive (default_to default n) ≡ true
unfolding default_to
default_to-positive default n h = ground (arith, h)

form_config-IsRunnable : (form : Form) (seed : Text) → IsRunnable (form_config form seed)
unfolding form_config is_positive
form_config-IsRunnable form seed = record {
  workers = positive_or-positive (pos 5) (form (codes "workers")) refl;
  slots = positive_or-positive (pos 10_000) (form (codes "queue_size")) refl;
}

request_config-IsRunnable : (req : StartRequest) → IsRunnable (request_config req)
unfolding request_config is_positive
request_config-IsRunnable req = record {
  workers = default_to-positive (pos 5) req.workers refl;
  slots = default_to-positive (pos 10_000) req.queue_size refl;
}

older_config-IsRunnable : (req : StartRequest) → IsRunnable (older_config req)
unfolding older_config is_positive
older_config-IsRunnable req = record {
  workers = default_to-positive (pos 5) req.workers refl;
  slots = refl;
}

-- The runtime can make the channels: the queue and twice the number of workers are within its limits.
unfoldable pub fits : ChanLimits → Config → Bool
fits limits cfg =
    leb (times cfg.queue_size) limits.tasks
    && (leb (times cfg.num_workers * 2) limits.batches
        && leb (times cfg.num_workers * 2) limits.pages)

-- `Start` does not panic, and as many workers run as are asked for, which is one at least.
pub record StartsSafely (limits : ChanLimits) (cfg : Config) (resume : Option ResumeState)
    (queued : ℕ) (rows : Option SessionRows) (indexer : Indexer) : Type 0 where
  pub system : Sys
  pub starts : start limits cfg resume queued rows indexer ≡ some system
  pub staffed : 1 ≤ length system.workers
  pub asked : cfg.num_workers ≡ pos (length system.workers)

positive-pos : (z : ℤ) → is_positive z ≡ true → (n : ℕ) × (z ≡ pos (suc n))
unfolding is_positive
positive-pos (pos zero) h = ground arith
positive-pos (pos (suc n)) h = (n, refl)
positive-pos (negsuc n) h = ground arith

double-small : (n : ℕ) → n * 2 < 2 ^ 63 → double (pos n) ≡ pos (n * 2)
unfolding double int_of
double-small n h = ground (arith, h)

chan_size-fits : (limit n : ℕ) → leb n limit ≡ true → chan_size limit (pos n) ≡ some n
unfolding chan_size
chan_size-fits limit n h = ground (arith, h)

fits-parts :
    (limits : ChanLimits) (cfg : Config) (q w : ℕ)
    → cfg.queue_size ≡ pos q
    → cfg.num_workers ≡ pos w
    → fits limits cfg ≡ true
    → (leb q limits.tasks ≡ true)
      × (leb (w * 2) limits.batches ≡ true)
      × (leb (w * 2) limits.pages ≡ true)
unfolding fits times
fits-parts limits cfg q w a b h = ground (arith, a, b, h)

runnable-StartsSafely :
    (limits : ChanLimits) (cfg : Config) (resume : Option ResumeState) (queued : ℕ)
    (rows : Option SessionRows) (indexer : Indexer)
    → limits.batches < 2 ^ 63
    → IsRunnable cfg
    → fits limits cfg ≡ true
    → StartsSafely limits cfg resume queued rows indexer
unfolding start started
runnable-StartsSafely limits cfg resume queued rows indexer l r f =
    let (w, we) = positive-pos cfg.num_workers r.workers in
    let (q, qe) = positive-pos cfg.queue_size r.slots in
    let (a, b, c) = fits-parts limits cfg (suc q) (suc w) qe we f in
    let doubled = double-small (suc w) (ground (arith, l, b)) in
    record {
      system = started cfg (suc q) (suc w) (initial cfg resume) queued rows indexer;
      starts =
          rw
            (
              qe,
              we,
              doubled,
              chan_size-fits limits.tasks (suc q) a,
              chan_size-fits limits.batches (suc w * 2) b,
              chan_size-fits limits.pages (suc w * 2) c,
            )
            (unfold times in refl);
      staffed = omega (arith, length-idle_workers (suc w));
      asked = we ∙ ap pos (sym (length-idle_workers (suc w)));
    }

-- What is either too large for the runtime or starts.
abbrev pub TooLargeOrSafe :
    ChanLimits → Config → Option ResumeState → ℕ → Option SessionRows → Indexer → Type 0
TooLargeOrSafe limits cfg resume queued rows indexer =
    (fits limits cfg ≡ false) ⊎ StartsSafely limits cfg resume queued rows indexer

runnable-TooLargeOrSafe :
    (limits : ChanLimits) (cfg : Config) (resume : Option ResumeState) (queued : ℕ)
    (rows : Option SessionRows) (indexer : Indexer)
    → limits.batches < 2 ^ 63
    → IsRunnable cfg
    → TooLargeOrSafe limits cfg resume queued rows indexer
runnable-TooLargeOrSafe limits cfg resume queued rows indexer l r =
    elim (Bool-cases (fits limits cfg)) [
      | inl e ↦ inr (runnable-StartsSafely limits cfg resume queued rows indexer l r e)
      | inr e ↦ inl e
    ]

-- Whatever a form or the body of a request holds, if its queue size and twice its number of workers are
-- within the runtime's limits for the buffers of channels, and those limits are Go ints, the crawl that it
-- starts does not panic on the size of a channel, and has as many workers as its configuration asks for,
-- one at least, with or without the state of an earlier crawl.
pub dashboard_starts :
    (limits : ChanLimits) (form : Form) (seed : Text) (req : StartRequest)
    (resume : Option ResumeState) (queued : ℕ) (rows : Option SessionRows) (indexer : Indexer)
    → limits.batches < 2 ^ 63
    → TooLargeOrSafe limits (form_config form seed) resume queued rows indexer
      × TooLargeOrSafe limits (request_config req) resume queued rows indexer
      × TooLargeOrSafe limits (older_config req) resume queued rows indexer
dashboard_starts limits form seed req resume queued rows indexer l = (
  runnable-TooLargeOrSafe limits _ resume queued rows indexer l (form_config-IsRunnable form seed),
  runnable-TooLargeOrSafe limits _ resume queued rows indexer l (request_config-IsRunnable req),
  runnable-TooLargeOrSafe limits _ resume queued rows indexer l (older_config-IsRunnable req),
)
