-- ===== src/Cli/Signals/Examples.antt =====
-- A program that serves its dashboard and gets two signals, and a witness.
use google_in_a_day_crawler.Base.{◌≡◌, ◌≤◌, ◌+◌, suc, ◌⊎◌, refl, true, false, none}
use google_in_a_day_crawler.Tokens.Ascii.{ascii}
use google_in_a_day_crawler.Dashboard.{is_empty_text}
use google_in_a_day_crawler.Crawler.System.Sample.{no_net}
use google_in_a_day_crawler.Crawler.System.Start.{ChanLimits}
use google_in_a_day_crawler.Cli.{LaunchOutcomes, default_flags, launch}
use google_in_a_day_crawler.Cli.Signals.{
  Process, begin, ended, Move, Moves, here, next, after_launch, crawls_after, alive, one_if, notify,
  ended_by_signals,
}

abbrev no_file : LaunchOutcomes
no_file = record {
  db = none;
  pdata = none;
  opened = true;
  read = true;
  saved = true;
  removed = true;
}

abbrev few : ChanLimits
few = record { tasks = 100; batches = 100; pages = 100 }

-- The goroutine receives the first signal and cancels, and `main` receives the second.
abbrev two_signals : Process
two_signals = record {
  at = ended;
  crawls = false;
  buffered = false;
  handled = true;
  cancelled = true;
  arrived = 2;
  dropped = 0;
}

two_signals-Moves : Moves ascii no_net few begin two_signals
unfolding begin notify after_launch crawls_after alive launch is_empty_text
two_signals-Moves =
    next
      (next
        (next
          (next
            (next (next here (Move.launched no_file default_flags refl refl))
              (Move.signal refl refl))
            (Move.handle refl refl refl refl))
          (Move.cancel refl refl refl))
        (Move.signal refl refl))
      (Move.exit refl refl refl)

ended_by_signals_example :
    (two_signals.crawls ≡ false)
    × (two_signals.arrived
        ≡ suc (two_signals.dropped + one_if two_signals.buffered + one_if two_signals.handled))
    × ((two_signals.cancelled ≡ false) ⊎ (2 ≤ two_signals.arrived))
ended_by_signals_example = ended_by_signals ascii no_net few two_signals two_signals-Moves refl
