-- ===== src/Crawler/Marking.antt =====
-- What `deduplicateAndMark` (internal/crawler/crawler.go) returns and marks.
use google_in_a_day_crawler.Base.{
  sym, subst, contains_self, inr, inl, Bool-cases, ℕ, suc, ◌+◌, ◌≤◌, ◌≡◌, Bool, true, false, List,
  [], ◌∷◌, arith, pos, ◌≤ℤ◌, Text, max, contains, count, All, length, ltb_ℤ,
}
use google_in_a_day_crawler.Worker.{CrawlTask}
use google_in_a_day_crawler.Crawler.{task_urls, Config, mark, limit_met, deduplicate_and_mark}

abbrev pub one_if : Bool → ℕ
one_if true = 1
one_if false = 0

-- Each URL that deduplicateAndMark returns is new and is returned once, and each URL that is newly
-- in the visited set is returned.
pub marked_once :
    (cfg : Config) (ts : List CrawlTask) (visited : List Text) (k : Text)
    → let m = deduplicate_and_mark cfg ts visited in
      one_if (contains k m.visited) ≡ one_if (contains k visited) + count k (task_urls m.tasks)
unfolding deduplicate_and_mark mark contains count
marked_once cfg [] visited k = ground arith
marked_once cfg (t ∷ ts) visited k =
    ground (arith, marked_once cfg ts visited k, marked_once cfg ts (t.url ∷ visited) k)

pub marked_depths :
    (cfg : Config) (ts : List CrawlTask) (visited : List Text)
    → All (λ t. t.depth ≤ℤ cfg.max_depth) (deduplicate_and_mark cfg ts visited).tasks
unfolding deduplicate_and_mark
marked_depths cfg [] visited = tt
marked_depths cfg (t ∷ ts) visited =
    ground (arith, marked_depths cfg ts visited, marked_depths cfg ts (mark t.url visited))

pub length-marked :
    (cfg : Config) (ts : List CrawlTask) (visited : List Text)
    → let m = deduplicate_and_mark cfg ts visited in
      length m.visited ≡ length visited + length m.tasks
unfolding deduplicate_and_mark mark
length-marked cfg [] visited = omega arith
length-marked cfg (t ∷ ts) visited =
    ground (arith, length-marked cfg ts visited, length-marked cfg ts (t.url ∷ visited))

-- With a positive limit the visited set does not grow beyond the limit, or not at all when it is
-- larger before.
pub marked_limit :
    (cfg : Config) (ts : List CrawlTask) (visited : List Text) (n : ℕ)
    → cfg.max_urls ≡ pos (suc n)
    → length (deduplicate_and_mark cfg ts visited).visited ≤ max (suc n) (length visited)
unfolding deduplicate_and_mark mark limit_met
marked_limit cfg [] visited n e = omega arith
marked_limit cfg (t ∷ ts) visited n e =
    ground (arith, marked_limit cfg ts visited n e, marked_limit cfg ts (t.url ∷ visited) n e)

marked_grows :
    (cfg : Config) (ts : List CrawlTask) (visited : List Text) (k : Text)
    → contains k visited ≡ true
    → contains k (deduplicate_and_mark cfg ts visited).visited ≡ true
marked_grows cfg ts visited k h = ground (arith, marked_once cfg ts visited k)

module _ (cfg : Config) (t : CrawlTask) (ts : List CrawlTask) (visited : List Text) where
  too_deep :
      ltb_ℤ cfg.max_depth t.depth ≡ true
      → (deduplicate_and_mark cfg (t ∷ ts) visited).visited
        ≡ (deduplicate_and_mark cfg ts visited).visited
  unfolding deduplicate_and_mark
  too_deep h = rw h

  seen :
      contains t.url visited ≡ true
      → (deduplicate_and_mark cfg (t ∷ ts) visited).visited
        ≡ (deduplicate_and_mark cfg ts visited).visited
  unfolding deduplicate_and_mark
  seen h = ground arith

  fresh :
      ltb_ℤ cfg.max_depth t.depth ≡ false
      → contains t.url visited ≡ false
      → limit_met cfg.max_urls (length visited) ≡ false
      → (deduplicate_and_mark cfg (t ∷ ts) visited).visited
        ≡ (deduplicate_and_mark cfg ts (t.url ∷ visited)).visited
  unfolding deduplicate_and_mark mark
  fresh ok new free = ground arith

-- All tasks of a depth that is allowed are in the set.
abbrev pub AllMarked : Config → List Text → List CrawlTask → Type 0
AllMarked cfg visited = All (λ t. t.depth ≤ℤ cfg.max_depth → contains t.url visited ≡ true)

-- Without a limit every task of a batch whose depth is allowed has its URL in the visited set
-- afterwards.
pub deduplicate_and_mark-AllMarked :
    (cfg : Config) (ts : List CrawlTask) (visited : List Text)
    → ((n : ℕ) → limit_met cfg.max_urls n ≡ false)
    → AllMarked cfg (deduplicate_and_mark cfg ts visited).visited ts
deduplicate_and_mark-AllMarked cfg [] visited h = tt
deduplicate_and_mark-AllMarked cfg (t ∷ ts) visited h =
    elim (Bool-cases (ltb_ℤ cfg.max_depth t.depth)) [
      | inl deep ↦
          subst (λ v. AllMarked cfg v (t ∷ ts)) (sym (too_deep cfg t ts visited deep))
            (λ ok. absurd (ground arith), deduplicate_and_mark-AllMarked cfg ts visited h)
      | inr ok ↦ elim (Bool-cases (contains t.url visited)) [
        | inl old ↦
            subst (λ v. AllMarked cfg v (t ∷ ts)) (sym (seen cfg t ts visited old))
              (
                λ _. marked_grows cfg ts visited t.url old,
                deduplicate_and_mark-AllMarked cfg ts visited h,
              )
        | inr new ↦
            subst (λ v. AllMarked cfg v (t ∷ ts))
              (sym (fresh cfg t ts visited ok new (h (length visited))))
              (
                λ _. marked_grows cfg ts (t.url ∷ visited) t.url (contains_self t.url visited),
                deduplicate_and_mark-AllMarked cfg ts (t.url ∷ visited) h,
              )
      ]
    ]
