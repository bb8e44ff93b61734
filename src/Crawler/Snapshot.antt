-- ===== src/Crawler/Snapshot.antt =====
-- `Metrics`, `Snapshot` and `FormatUptime` of internal/crawler/crawler.go. Times are nanoseconds.
use google_in_a_day_crawler.Base.{
  pos, some, length, ℕ, ◌+◌, ◌-◌, ◌*◌, ◌/◌, ◌%◌, ◌^◌, ◌≤◌, ◌<◌, ◌≡◌, refl, Bool, ltb, [], ◌∷◌, ◌++◌,
  ℤ, Text, if◌then◌else◌, arith,
}
use google_in_a_day_crawler.PData.Decimal.{
  length-format_nat_two, length-format_nat_short, atoi-zero_format, atoi-format_nat, atoi,
  format_nat,
}

-- The atomic counters, at one instant.
pub record LiveMetrics : Type 0 where
  pub pages_processed : ℕ
  pub pages_queued : ℕ
  pub pages_errored : ℕ
  pub queue_depth : ℕ
  pub active_workers : ℕ
  pub indexed_docs : ℕ
  pub overflow_size : ℕ
  pub max_urls : ℤ
  pub start_time : ℕ
  pub crawl_done : Bool
  pub stop_reason : Text

pub record MetricsSnapshot : Type 0 where
  pub pages_processed : ℕ
  pub pages_queued : ℕ
  pub pages_errored : ℕ
  pub queue_depth : ℕ
  pub active_workers : ℕ
  pub indexed_docs : ℕ
  pub overflow_size : ℕ
  pub max_urls : ℤ
  pub back_pressure_active : Bool
  pub uptime : ℕ
  pub uptime_str : Text
  pub crawl_done : Bool
  pub stop_reason : Text

-- `Snapshot` at the time `now`, on the clock that does not go back.
pub snapshot : ℕ → LiveMetrics → MetricsSnapshot
snapshot now m = record {
  pages_processed = m.pages_processed;
  pages_queued = m.pages_queued;
  pages_errored = m.pages_errored;
  queue_depth = m.queue_depth;
  active_workers = m.active_workers;
  indexed_docs = m.indexed_docs;
  overflow_size = m.overflow_size;
  max_urls = m.max_urls;
  back_pressure_active = ltb 0 m.overflow_size;
  uptime = now - m.start_time;
  uptime_str = [];
  crawl_done = m.crawl_done;
  stop_reason = m.stop_reason;
}

-- `d.Round(time.Second)`: half a second is rounded up, and what does not fit 63 bits is the greatest
-- duration.
pub round_seconds : ℕ → ℕ
round_seconds d =
    let r = d % 1_000_000_000 in
    let up = d + (1_000_000_000 - r) in
    if ltb (r + r) 1_000_000_000 then d - r else if ltb up (2 ^ 63) then up else 2 ^ 63 - 1

-- `%02d`.
pub two_digits : ℕ → Text
two_digits n = if ltb n 10 then b'0' ∷ format_nat n else format_nat n

-- The hours, minutes and seconds of a rounded duration.
pub record Clock : Type 0 where
  pub h : ℕ
  pub m : ℕ
  pub s : ℕ

pub clock_of : ℕ → Clock
clock_of d =
    let h = d / 3_600_000_000_000 in
    let past_h = d - h * 3_600_000_000_000 in
    let m = past_h / 60_000_000_000 in
    let past_m = past_h - m * 60_000_000_000 in record { h = h; m = m; s = past_m / 1_000_000_000 }

pub print_clock : Clock → Text
unfolding two_digits
print_clock c = two_digits c.h ++ b':' ∷ two_digits c.m ++ b':' ∷ two_digits c.s

-- `FormatUptime`.
pub format_uptime : ℕ → Text
unfolding round_seconds clock_of print_clock
format_uptime d = print_clock (clock_of (round_seconds d))

-- The snapshot that the dashboard shows.
pub shown_snapshot : ℕ → LiveMetrics → MetricsSnapshot
unfolding snapshot format_uptime
shown_snapshot now m =
    let snap = snapshot now m in record snap { uptime_str = format_uptime snap.uptime }

two_digits-atoi : (n : ℕ) → n < 2 ^ 63 → atoi (two_digits n) ≡ some (pos n)
unfolding two_digits
two_digits-atoi n h = ground (arith, atoi-format_nat n h, atoi-zero_format n h)

two_digits-length : (n : ℕ) → n < 100 → length (two_digits n) ≡ 2
unfolding two_digits
two_digits-length n h = ground (arith, length-format_nat_short n, length-format_nat_two n)

clock_of-sum :
    (d : ℕ)
    → let c = clock_of d in
      (c.m < 60)
      × (c.s < 60)
      × (((c.h * 60 + c.m) * 60 + c.s) * 1_000_000_000 ≤ d)
      × (d < ((c.h * 60 + c.m) * 60 + c.s) * 1_000_000_000 + 1_000_000_000)
unfolding clock_of
clock_of-sum d = omega arith

round_seconds-whole :
    (d : ℕ)
    → d + 1_000_000_000 < 2 ^ 63
    → let r = round_seconds d in
      (r % 1_000_000_000 ≡ 0) × (r + r ≤ d + d + 1_000_000_000) × (d + d ≤ r + r + 1_000_000_000)
unfolding round_seconds
round_seconds-whole d h = grind arith

-- A text that shows a duration to the nearest second.
pub record Shows (d : ℕ) (text : Text) : Type 0 where
  pub h : ℕ
  pub m : ℕ
  pub s : ℕ
  pub printed : text ≡ two_digits h ++ b':' ∷ two_digits m ++ b':' ∷ two_digits s
  pub minutes : m < 60
  pub seconds : s < 60
  pub h_read : atoi (two_digits h) ≡ some (pos h)
  pub m_read : (atoi (two_digits m) ≡ some (pos m)) × (length (two_digits m) ≡ 2)
  pub s_read : (atoi (two_digits s) ≡ some (pos s)) × (length (two_digits s) ≡ 2)
  pub not_over : 2 * (((h * 60 + m) * 60 + s) * 1_000_000_000) ≤ 2 * d + 1_000_000_000
  pub not_under : 2 * d ≤ 2 * (((h * 60 + m) * 60 + s) * 1_000_000_000) + 1_000_000_000

-- For a duration that is a second or more below the greatest one, FormatUptime prints hours, minutes
-- and seconds that differ from it by half a second at most, minutes and seconds below 60 and in two
-- digits, and each of the three can be read back.
pub format_uptime-Shows : (d : ℕ) → d + 1_000_000_000 < 2 ^ 63 → Shows d (format_uptime d)
unfolding format_uptime print_clock
format_uptime-Shows d fits =
    let r = round_seconds d in
    let c = clock_of r in
    let whole = round_seconds-whole d fits in
    let sum = clock_of-sum r in
    record {
      h = c.h;
      m = c.m;
      s = c.s;
      printed = refl;
      minutes = sum.0;
      seconds = sum.1;
      h_read = two_digits-atoi c.h (omega (arith, whole, sum));
      m_read =
          (two_digits-atoi c.m (omega (arith, sum)), two_digits-length c.m (omega (arith, sum)));
      s_read =
          (two_digits-atoi c.s (omega (arith, sum)), two_digits-length c.s (omega (arith, sum)));
      not_over = omega (arith, whole, sum);
      not_under = omega (arith, whole, sum);
    }
