-- ===== src/Cli/Signals.antt =====
-- The signals of cmd/crawler/main.go: the channel `sigCh` with room for one, the goroutine that cancels at
-- the first signal it receives, what `main` waits for, and the panic of a crawl's goroutine, which ends
-- the process. Either may receive a signal that both wait for.
mod Examples
use google_in_a_day_crawler.Base.{
  ◌⊎◌, Option, none, ℕ, suc, ◌+◌, ◌≤◌, inl, inr, ap, Bool-cases, if◌then◌else◌, ◌≡◌, ◌≢◌, refl,
  Bool, true, false, arith,
}
use google_in_a_day_crawler.Tokens.{Unicode}
use google_in_a_day_crawler.Worker.{Net}
use google_in_a_day_crawler.Crawler.{Config}
use google_in_a_day_crawler.Crawler.Indexer.{Indexer}
use google_in_a_day_crawler.Crawler.System.{SessionRows}
use google_in_a_day_crawler.Crawler.System.Start.{ResumeState, ChanLimits, start}
use google_in_a_day_crawler.Cli.{
  CrawlConfig, LaunchOutcomes, Launch, dashboard_only, exits, crawling, launch,
}

-- Where `main` stands: before its launch, behind `StartCrawl` at `<-done`, at the last `<-sigCh`, at its
-- end, ended by an error, or ended by a panic of a crawl.
pub data MainAt : Type 0 where
  launching at_done at_signal ended failed panicked : MainAt

-- `crawls` tells whether the crawl of the command line is under way. `arrived` counts the signals of the process, `dropped` those that found the channel full.
pub record Process : Type 0 where
  pub at : MainAt
  pub crawls : Bool
  pub buffered : Bool
  pub handled : Bool
  pub cancelled : Bool
  pub arrived : ℕ
  pub dropped : ℕ

pub begin : Process
begin = record {
  at = launching;
  crawls = false;
  buffered = false;
  handled = false;
  cancelled = false;
  arrived = 0;
  dropped = 0;
}

-- Package os/signal does not wait to send.
unfoldable pub notify : Process → Process
notify p =
    if p.buffered
    then record p { arrived = suc p.arrived; dropped = suc p.dropped }
    else record p { arrived = suc p.arrived; buffered = true }

unfoldable pub after_launch : Launch → MainAt
after_launch (dashboard_only m) = at_signal
after_launch (exits e) = failed
after_launch (crawling cfg id m) = at_done

unfoldable pub crawls_after : Launch → Bool
crawls_after (dashboard_only m) = false
crawls_after (exits e) = false
crawls_after (crawling cfg id m) = true

-- The process has not ended.
unfoldable pub alive : MainAt → Bool
alive ended = false
alive failed = false
alive panicked = false
alive launching = true
alive at_done = true
alive at_signal = true

module _ (u : Unicode) (net : Net) (limits : ChanLimits) where
  pub data Move (p q : Process) : Type 0 where
    signal : alive p.at ≡ true → q ≡ notify p → Move p q
    -- the goroutine
    handle :
        alive p.at ≡ true
        → p.handled ≡ false
        → p.buffered ≡ true
        → q ≡ record p { buffered = false; handled = true }
        → Move p q
    cancel : alive p.at ≡ true → p.handled ≡ true → q ≡ record p { cancelled = true } → Move p q
    -- `main`
    launched :
        (o : LaunchOutcomes) (flags : CrawlConfig)
        → p.at ≡ launching
        → q ≡ record p {
          at = after_launch (launch u net o flags);
          crawls = crawls_after (launch u net o flags);
        }
        → Move p q
    crawl_done : p.at ≡ at_done → p.crawls ≡ false → q ≡ record p { at = at_signal } → Move p q
    exit :
        p.at ≡ at_signal
        → p.buffered ≡ true
        → q ≡ record p { buffered = false; at = ended }
        → Move p q
    -- the goroutine of a crawl, of the command line or of the dashboard
    crawl_ends : alive p.at ≡ true → p.crawls ≡ true → q ≡ record p { crawls = false } → Move p q
    crawl_panics :
        (cfg : Config) (resume : Option ResumeState) (queued : ℕ) (rows : Option SessionRows)
        (indexer : Indexer)
        → alive p.at ≡ true
        → start limits cfg resume queued rows indexer ≡ none
        → q ≡ record p { at = panicked }
        → Move p q

  pub data Moves (p : Process) : Process → Type 0 where
    here : Moves p p
    next : {q r : Process} → Moves p q → Move q r → Moves p r

unfoldable pub one_if : Bool → ℕ
one_if false = 0
one_if true = 1

unfoldable pub ends : MainAt → ℕ
ends ended = 1
ends _ = 0

-- Each signal that arrived was dropped, waits, was received by the goroutine, or ended `main`, and `main`
-- waits for its crawl while that is under way.
pub record IsCounted (p : Process) : Type 0 where
  pub signals : p.arrived ≡ p.dropped + one_if p.buffered + one_if p.handled + ends p.at
  pub cancels : p.cancelled ≡ true → p.handled ≡ true
  pub waits : p.crawls ≡ true → (p.at ≡ at_done) ⊎ (p.at ≡ panicked)

ends-after_launch : (l : Launch) → ends (after_launch l) ≡ 0
unfolding ends after_launch
ends-after_launch (dashboard_only m) = refl
ends-after_launch (exits e) = refl
ends-after_launch (crawling cfg id m) = refl

alive-ends : (at : MainAt) → alive at ≡ true → ends at ≡ 0
unfolding alive ends
alive-ends launching h = refl
alive-ends at_done h = refl
alive-ends at_signal h = refl
alive-ends ended h = ground (arith, h)
alive-ends failed h = ground (arith, h)
alive-ends panicked h = ground (arith, h)

crawls_after-waits : (l : Launch) → crawls_after l ≡ true → after_launch l ≡ at_done
unfolding crawls_after after_launch
crawls_after-waits (dashboard_only m) h = ground (arith, h)
crawls_after-waits (exits e) h = ground (arith, h)
crawls_after-waits (crawling cfg id m) h = refl

module _ (u : Unicode) (net : Net) (limits : ChanLimits) where
  move-IsCounted : {p q : Process} → Move u net limits p q → IsCounted p → IsCounted q
  unfolding notify one_if ends
  move-IsCounted (Move.signal n e) i = record {
    signals = ground (arith, i.signals);
    cancels = λ c. ground (arith, c, i.cancels);
    waits = λ c. ground (arith, c, i.waits);
  }
  move-IsCounted (Move.handle n h b e) i = record {
    signals = ground (arith, i.signals);
    cancels = λ c. ground (arith, c);
    waits = λ c. ground (arith, c, i.waits);
  }
  move-IsCounted (Move.cancel n h e) i = record {
    signals = ground (arith, i.signals);
    cancels = λ c. ground (arith, c, h);
    waits = λ c. ground (arith, c, i.waits);
  }
  move-IsCounted {p} (Move.launched o flags a e) i = record {
    signals = ground (arith, i.signals, a, ap ends a, ends-after_launch (launch u net o flags));
    cancels = λ c. ground (arith, c, i.cancels);
    waits = λ c. ground (arith, c, crawls_after-waits (launch u net o flags));
  }
  move-IsCounted (Move.crawl_done a d e) i = record {
    signals = ground (arith, i.signals, a, ap ends a);
    cancels = λ c. ground (arith, c, i.cancels);
    waits = λ c. ground (arith, c, d);
  }
  move-IsCounted (Move.exit a b e) i = record {
    signals = ground (arith, i.signals, a, ap ends a);
    cancels = λ c. ground (arith, c, i.cancels);
    waits = λ c. ground (arith, c, a, i.waits);
  }
  move-IsCounted (Move.crawl_ends n c e) i = record {
    signals = ground (arith, i.signals);
    cancels = λ c'. ground (arith, c', i.cancels);
    waits = λ c'. ground (arith, c');
  }
  move-IsCounted {p} (Move.crawl_panics cfg resume queued rows indexer n f e) i = record {
    signals = ground (arith, i.signals, alive-ends p.at n);
    cancels = λ c. ground (arith, c, i.cancels);
    waits = λ c. ground (arith, c);
  }

  begin-IsCounted : IsCounted begin
  unfolding begin one_if ends
  begin-IsCounted = record {
    signals = refl;
    cancels = λ c. ground (arith, c);
    waits = λ c. ground (arith, c);
  }

  Moves-IsCounted : (p : Process) → Moves u net limits begin p → IsCounted p
  Moves-IsCounted p here = begin-IsCounted
  Moves-IsCounted p (next r m) = move-IsCounted m (Moves-IsCounted _ r)

  -- Unless its launch fails or a crawl panics, the program ends only at a signal: however the signals and
  -- the goroutines come, at the end of `main` the crawl of the command line is not under way; of the signals
  -- that arrived, one ended the program, the others found the channel full, wait in it or were received by
  -- the goroutine; and if the context is cancelled by then, two signals or more have come.
  pub ended_by_signals :
      (p : Process)
      → Moves u net limits begin p
      → p.at ≡ ended
      → (p.crawls ≡ false)
        × (p.arrived ≡ suc (p.dropped + one_if p.buffered + one_if p.handled))
        × ((p.cancelled ≡ false) ⊎ (2 ≤ p.arrived))
  unfolding one_if ends
  ended_by_signals p r a =
      let i = Moves-IsCounted p r in
      let one : ends p.at ≡ 1 = ap ends a in
      let count : p.arrived ≡ suc (p.dropped + one_if p.buffered + one_if p.handled) =
        omega (arith, i.signals, one) in
      (
        ground (arith, a, i.waits),
        count,
        elim (Bool-cases p.cancelled) [
          | inl c ↦ inr (omega (arith, count, ap one_if (i.cancels c)))
          | inr c ↦ inl c
        ],
      )
