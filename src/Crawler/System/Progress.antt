-- ===== src/Crawler/System/Progress.antt =====
-- The goroutines of `Start` (internal/crawler/crawler.go, internal/crawler/worker.go) never wait for
-- one another in a circle.
use google_in_a_day_crawler.Base.{
  ℕ_discrete, ap, ◌⊎◌, inl, inr, ◌≢◌, ℕ, ◌≤◌, ◌≡◌, refl, Bool, true, false, List, [], ◌∷◌, ◌++◌,
  length, arith, Bool-cases, List-cases, ◌∙◌,
}
use google_in_a_day_crawler.Worker.{WorkerConfig, Net, CrawlTask, bad_request}
use google_in_a_day_crawler.Tokens.{Unicode}
use google_in_a_day_crawler.Crawler.{Config}
use google_in_a_day_crawler.Crawler.Indexer.{Choices}
use google_in_a_day_crawler.Crawler.System.Steps.{Step}
use google_in_a_day_crawler.Crawler.System.{
  WorkerState, idle, received, fetching, sending_record, sending_batch, exited, Sys, Coordinator,
  looping, selecting, enqueuing, draining, finished, interrupted, goes_on, is_empty, room,
  url_limit_reached,
}
use google_in_a_day_crawler.PData.{whole}
use google_in_a_day_crawler.Crawler.System.Counting.{busy, is_busy, on_the_way, IsCounted}
use google_in_a_day_crawler.Crawler.System.Ending.{ended, EndsAtZero}
use google_in_a_day_crawler.Crawler.System.Live.{IsLive, exits, idles, length-workers}
use google_in_a_day_crawler.Crawler.System.Finding.{find_busy, find_idle, any_idle-idles}

some_choices : Choices
some_choices = record { token_order = []; row_order = []; saved = true; made = whole }

-- Nothing is left to do: the coordinator is done, no record waits, and all workers have left.
pub record IsOver (s : Sys) : Type 0 where
  pub over : ended s.at ≡ true
  pub no_record : s.results_ch ≡ []
  pub all_left : exits s.workers ≡ length s.workers

module _ (u : Unicode) (net : Net) (wcfg : WorkerConfig) (cfg : Config)
    (queue_size num_workers : ℕ) where
  -- A turn that is neither the outside's, which cancels, nor that of one of the two tickers.
  unfoldable pub is_work : {s t : Sys} → Step u net wcfg cfg queue_size num_workers s t → Bool
  is_work (Step.cancel e) = false
  is_work (Step.flush_index choices e) = false
  is_work (Step.select_flush a saved e) = false
  is_work _ = true

  pub record Work (s : Sys) : Type 0 where
    pub after : Sys
    pub step : Step u net wcfg cfg queue_size num_workers s after
    pub works : is_work step ≡ true

  busy_works :
      (s : Sys) (w : WorkerState) (ws vs : List WorkerState)
      → 1 ≤ num_workers
      → s.results_ch ≡ []
      → s.discovered_ch ≡ []
      → s.workers ≡ ws ++ w ∷ vs
      → is_busy w ≢ 0
      → Work s
  unfolding is_busy is_work
  busy_works s idle ws vs n r d e b = absurd (b refl)
  busy_works s (received task) ws vs n r d e b = elim (Bool-cases s.cancelled) [
    | inl c ↦ record { after = _; step = Step.give_back ws vs task e c refl; works = refl }
    | inr c ↦ record { after = _; step = Step.start_fetch ws vs task e c refl; works = refl }
  ]
  busy_works s (fetching task) ws vs n r d e b = record {
    after = _;
    step = Step.end_fetch ws vs task bad_request e refl;
    works = refl;
  }
  busy_works s (sending_record task page) ws vs n r d e b = record {
    after = _;
    step = Step.send_record ws vs task page e (ground (arith, r)) refl;
    works = refl;
  }
  busy_works s (sending_batch batch) ws vs n r d e b = record {
    after = _;
    step = Step.send_batch ws vs batch e (ground (arith, d)) refl;
    works = refl;
  }
  busy_works s exited ws vs n r d e b = absurd (b refl)

  -- The coordinator takes a turn of its own wherever it waits for nothing.
  head_works : (s : Sys) → s.at ≡ looping → Work s
  unfolding is_work
  head_works s a = elim (Bool-cases (goes_on s)) [
    | inr g ↦ record { after = _; step = Step.head_end a g true true refl; works = refl }
    | inl g ↦ elim (Bool-cases (url_limit_reached cfg s)) [
      | inr l ↦ record { after = _; step = Step.head a g (inl l) refl; works = refl }
      | inl l ↦ elim (ℕ_discrete s.in_flight 0) [
        | yes z ↦ record { after = _; step = Step.head_limit a g l z true true refl; works = refl }
        | no z ↦ record { after = _; step = Step.head a g (inr z) refl; works = refl }
      ]
    ]
  ]

  enqueuing_works : (s : Sys) (ts : List CrawlTask) → s.at ≡ enqueuing ts → Work s
  unfolding is_work
  enqueuing_works s [] a = record { after = _; step = Step.enqueue_end a refl; works = refl }
  enqueuing_works s (t ∷ ts) a = record {
    after = _;
    step = Step.enqueue_one t ts a refl;
    works = refl;
  }

  -- A batch that waits is taken in each of the waiting states.
  batch_works :
      (s : Sys) (a : Coordinator) (batch : List CrawlTask) (rest : List (List CrawlTask))
      → s.in_flight ≢ 0
      → s.discovered_ch ≡ batch ∷ rest
      → s.at ≡ a
      → ended a ≡ false
      → Work s
  unfolding is_work
  batch_works s looping batch rest c d e o = head_works s e
  batch_works s (selecting true) batch rest c d e o = record {
    after = _;
    step = Step.limit_batch e batch rest d refl;
    works = refl;
  }
  batch_works s (selecting false) batch rest c d e o = elim (List-cases s.overflow) [
    | inl f ↦ record { after = _; step = Step.select_direct e batch rest f d refl; works = refl }
    | inr (t, ts, f) ↦ record {
      after = _;
      step = Step.select_batch e batch rest (ground (arith, f)) d refl;
      works = refl;
    }
  ]
  batch_works s (enqueuing ts) batch rest c d e o = enqueuing_works s ts e
  batch_works s draining batch rest c d e o = record {
    after = _;
    step = Step.drain_one e batch rest c d refl;
    works = refl;
  }
  batch_works s finished batch rest c d e o = absurd (cc)
  batch_works s interrupted batch rest c d e o = absurd (cc)

  -- An idle worker takes a task that waits.
  take_works : (s : Sys) → s.task_ch ≢ [] → idles s.workers ≢ 0 → Work s
  unfolding is_work
  take_works s q i = elim (List-cases s.task_ch) [
    | inl e ↦ absurd (q e)
    | inr (t, ts, e) ↦
        let f = find_idle s.workers i in
        record {
          after = _;
          step =
              Step.take f.before f.behind t ts
                (f.stands ∙ ap (λ w. f.before ++ w ∷ f.behind) f.fits) e refl;
          works = refl;
        }
  ]

  room-idle : (s : Sys) → s.task_ch ≡ [] → idles s.workers ≢ 0 → room queue_size s ≡ true
  unfolding room is_empty
  room-idle s q i = ground (arith, q, any_idle-idles s.workers i)

  send_works :
      (s : Sys)
      → s.at ≡ selecting false
      → s.task_ch ≡ []
      → s.overflow ≢ []
      → idles s.workers ≢ 0
      → Work s
  unfolding is_work
  send_works s e q o i = elim (List-cases s.overflow) [
    | inl f ↦ absurd (o f)
    | inr (t, ts, f) ↦ record {
      after = _;
      step = Step.select_send e t ts f (room-idle s q i) refl;
      works = refl;
    }
  ]

  leave_works :
      (s : Sys)
      → s.task_ch ≡ []
      → s.closed ≡ true
      → ended s.at ≡ true
      → s.results_ch ≡ []
      → busy s.workers ≡ 0
      → IsOver s ⊎ Work s
  unfolding is_work
  leave_works s q c o r b = elim (ℕ_discrete (idles s.workers) 0) [
    | yes i ↦
        inl (record { over = o; no_record = r; all_left = omega (arith, length-workers s.workers) })
    | no i ↦
        let f = find_idle s.workers i in
        inr (record {
          after = _;
          step =
              Step.exit f.before f.behind (f.stands ∙ ap (λ w. f.before ++ w ∷ f.behind) f.fits) q c
                refl;
          works = refl;
        })
  ]

  -- No worker is busy and no batch waits.
  quiet_works :
      (s : Sys) (a : Coordinator)
      → 1 ≤ num_workers
      → IsLive num_workers s
      → IsCounted s
      → EndsAtZero s
      → s.results_ch ≡ []
      → s.discovered_ch ≡ []
      → busy s.workers ≡ 0
      → s.at ≡ a
      → IsOver s ⊎ Work s
  unfolding on_the_way is_work
  quiet_works s looping n h c z r d b e = inr (head_works s e)
  quiet_works s (enqueuing ts) n h c z r d b e = inr (enqueuing_works s ts e)
  quiet_works s (selecting true) n h c z r d b e = inr (
      take_works s (ground (arith, h.waits_limited e))
        (ground (arith, h.left_late, h.open_while, h.staffed, length-workers s.workers)))
  quiet_works s (selecting false) n h c z r d b e = elim (List-cases s.task_ch) [
    | inl q ↦ inr (
        send_works s e q (ground (arith, q, h.waits_free e))
          (ground (arith, h.left_late, h.open_while, h.staffed, length-workers s.workers)))
    | inr (t, ts, q) ↦ inr (
        take_works s (ground (arith, q))
          (ground (arith, h.left_late, h.open_while, h.staffed, length-workers s.workers)))
  ]
  quiet_works s draining n h c z r d b e = elim (ℕ_discrete s.in_flight 0) [
    | yes f ↦ inr (record { after = _; step = Step.drain_end e f true true refl; works = refl })
    | no f ↦ inr (
        take_works s (ground (arith, f))
          (ground (arith, f, h.left_late, h.staffed, length-workers s.workers)))
  ]
  quiet_works s finished n h c z r d b e =
      leave_works s (ground (arith, z.zero_at_end)) (ground (arith, h.open_while)) (ground arith) r
        b
  quiet_works s interrupted n h c z r d b e =
      leave_works s (ground (arith, z.zero_at_end)) (ground (arith, h.open_while)) (ground arith) r
        b

  pub progress :
      (s : Sys)
      → 1 ≤ num_workers
      → IsLive num_workers s
      → IsCounted s
      → EndsAtZero s
      → IsOver s ⊎ Work s
  unfolding on_the_way is_work
  progress s n h c z = elim (List-cases s.results_ch) [
    | inr (page, rest, r) ↦
        inr (record {
          after = _;
          step = Step.index_record some_choices page rest r refl;
          works = refl;
        })
    | inl r ↦ elim (List-cases s.discovered_ch) [
      | inr (batch, rest, d) ↦ elim (Bool-cases (ended s.at)) [
        | inl o ↦ absurd (ground (arith, z.zero_at_end o, d, c))
        | inr o ↦ inr (batch_works s s.at batch rest (ground (arith, d, c)) d refl o)
      ]
      | inl d ↦ elim (ℕ_discrete (busy s.workers) 0) [
        | yes b ↦ quiet_works s s.at n h c z r d b refl
        | no b ↦
            let f = find_busy s.workers b in
            inr (busy_works s f.worker f.before f.behind n r d f.stands f.fits)
      ]
    ]
  ]
