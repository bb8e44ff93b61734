-- ===== src/Crawler/System/Finding.antt =====
-- A worker that can take a turn, among those of `workerLoop` (internal/crawler/worker.go).
use google_in_a_day_crawler.Base.{ℕ_discrete, ap, ◌≢◌, ◌≡◌, refl, true, List, [], ◌∷◌, ◌++◌, arith}
use google_in_a_day_crawler.Crawler.System.{
  WorkerState, idle, received, fetching, sending_record, sending_batch, exited, any_idle, is_idle,
}
use google_in_a_day_crawler.Crawler.System.Counting.{busy, is_busy}
use google_in_a_day_crawler.Crawler.System.Live.{idles, is_waiting}

-- A worker of the list that is busy, or that waits.
pub record Found (P : WorkerState → Type 0) (workers : List WorkerState) : Type 0 where
  pub before : List WorkerState
  pub worker : WorkerState
  pub behind : List WorkerState
  pub stands : workers ≡ before ++ worker ∷ behind
  pub fits : P worker

Found-later :
    (P : WorkerState → Type 0) (w : WorkerState) (ws : List WorkerState)
    → Found P ws
    → Found P (w ∷ ws)
Found-later P w ws f = record {
  before = w ∷ f.before;
  worker = f.worker;
  behind = f.behind;
  stands = ap (λ r. w ∷ r) f.stands;
  fits = f.fits;
}

pub find_busy : (ws : List WorkerState) → busy ws ≢ 0 → Found (λ w. is_busy w ≢ 0) ws
unfolding busy
find_busy [] h = absurd (h refl)
find_busy (w ∷ ws) h = elim (ℕ_discrete (is_busy w) 0) [
  | yes e ↦ Found-later (λ w. is_busy w ≢ 0) w ws (find_busy ws (ground (arith, h, e)))
  | no e ↦ record { before = []; worker = w; behind = ws; stands = refl; fits = e }
]

pub find_idle : (ws : List WorkerState) → idles ws ≢ 0 → Found (λ w. w ≡ idle) ws
unfolding idles is_waiting
find_idle [] h = absurd (h refl)
find_idle (idle ∷ ws) h = record {
  before = [];
  worker = idle;
  behind = ws;
  stands = refl;
  fits = refl;
}
find_idle (received t ∷ ws) h = Found-later (λ w. w ≡ idle) _ ws (find_idle ws (ground (arith, h)))
find_idle (fetching t ∷ ws) h = Found-later (λ w. w ≡ idle) _ ws (find_idle ws (ground (arith, h)))
find_idle (sending_record t p ∷ ws) h =
    Found-later (λ w. w ≡ idle) _ ws (find_idle ws (ground (arith, h)))
find_idle (sending_batch b ∷ ws) h =
    Found-later (λ w. w ≡ idle) _ ws (find_idle ws (ground (arith, h)))
find_idle (exited ∷ ws) h = Found-later (λ w. w ≡ idle) _ ws (find_idle ws (ground (arith, h)))

pub any_idle-idles : (ws : List WorkerState) → idles ws ≢ 0 → any_idle ws ≡ true
unfolding idles is_waiting any_idle is_idle
any_idle-idles [] h = absurd (h refl)
any_idle-idles (idle ∷ ws) h = refl
any_idle-idles (received t ∷ ws) h = any_idle-idles ws (ground (arith, h))
any_idle-idles (fetching t ∷ ws) h = any_idle-idles ws (ground (arith, h))
any_idle-idles (sending_record t p ∷ ws) h = any_idle-idles ws (ground (arith, h))
any_idle-idles (sending_batch b ∷ ws) h = any_idle-idles ws (ground (arith, h))
any_idle-idles (exited ∷ ws) h = any_idle-idles ws (ground (arith, h))
