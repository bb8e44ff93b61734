-- ===== src/Dashboard/Seeds.antt =====
-- What `parseSeedURLs` (internal/dashboard/server.go) makes of the lines of a text.
use google_in_a_day_crawler.Base.{
  ◌≡◌, ◌≢◌, ◌⊎◌, ◌∙◌, refl, ap, Bool, true, false, ◌||◌, List, [], ◌∷◌, ◌++◌, All, some, arith,
  Text, codes, has_prefix, trim, if◌then◌else◌, Option-cases, inl, inr,
}
use google_in_a_day_crawler.Tokens.{Unicode}
use google_in_a_day_crawler.Worker.{Net, Url}
use google_in_a_day_crawler.Worker.Targets.{is_http-cases}
use google_in_a_day_crawler.Dashboard.{
  split, is_empty_text, with_scheme, is_seed, seeds_of_lines, parse_seed_urls,
}

-- A text with which a crawl can begin.
pub record IsSeed (net : Net) (seed : Text) : Type 0 where
  pub url : Url
  pub parses : net.parse seed ≡ some url
  pub over_http : (url.scheme ≡ codes "http") ⊎ (url.scheme ≡ codes "https")
  pub has_host : url.host ≢ []
  pub prefixed : (has_prefix seed (codes "http://") || has_prefix seed (codes "https://")) ≡ true

prefix_added : (line : Text) → has_prefix (codes "https://" ++ line) (codes "https://") ≡ true
unfolding has_prefix
prefix_added line = refl

with_scheme-prefixed :
    (line : Text)
    → (has_prefix (with_scheme line) (codes "http://")
        || has_prefix (with_scheme line) (codes "https://"))
      ≡ true
unfolding with_scheme
with_scheme-prefixed line = ground (arith, prefix_added line)

is_seed-IsSeed :
    (net : Net) (line : Text)
    → is_seed net (with_scheme line) ≡ true
    → IsSeed net (with_scheme line)
unfolding is_seed is_empty_text
is_seed-IsSeed net line h = elim (Option-cases (net.parse (with_scheme line))) [
  | inl e ↦ ground (arith, e, h)
  | inr (url, e) ↦ record {
    url = url;
    parses = e;
    over_http = is_http-cases url.scheme (ground (arith, e, h));
    has_host = ground (arith, e, h);
    prefixed = with_scheme-prefixed line;
  }
]

kept-AllSeeds :
    (net : Net) (line : Text) (rest : List Text) (blank fits : Bool)
    → (fits ≡ true → IsSeed net (with_scheme line))
    → All (IsSeed net) rest
    → All (IsSeed net) (if blank then rest else if fits then with_scheme line ∷ rest else rest)
kept-AllSeeds net line rest true fits h k = k
kept-AllSeeds net line rest false true h k = (h refl, k)
kept-AllSeeds net line rest false false h k = k

seeds_of_lines-AllSeeds :
    (u : Unicode) (net : Net) (lines : List Text) → All (IsSeed net) (seeds_of_lines u net lines)
unfolding seeds_of_lines
seeds_of_lines-AllSeeds u net [] = tt
seeds_of_lines-AllSeeds u net (line ∷ lines) =
    let trimmed = trim u.is_space line in
    kept-AllSeeds net trimmed (seeds_of_lines u net lines) (is_empty_text trimmed)
      (is_seed net (with_scheme trimmed)) (is_seed-IsSeed net trimmed)
      (seeds_of_lines-AllSeeds u net lines)

seeds_of_lines-append :
    (u : Unicode) (net : Net) (ls ms : List Text)
    → seeds_of_lines u net (ls ++ ms) ≡ seeds_of_lines u net ls ++ seeds_of_lines u net ms
unfolding seeds_of_lines
seeds_of_lines-append u net [] ms = refl
seeds_of_lines-append u net (l ∷ ls) ms = ground (arith, seeds_of_lines-append u net ls ms)

split-nonempty : (s : Text) → split 10 s ≢ []
unfolding split
split-nonempty [] = ground arith
split-nonempty (c ∷ s) = ground arith

split-append : (s t : Text) → split 10 (s ++ 10 ∷ t) ≡ split 10 s ++ split 10 t
unfolding split
split-append [] t = refl
split-append (c ∷ s) t = ground (arith, split-append s t, split-nonempty s)

-- Each seed that parseSeedURLs returns parses as a URL of scheme http or https with a host, and begins
-- with http:// or https://; and the seeds of two texts, one on the lines behind the other, are those
-- of the first followed by those of the second.
pub parse_seed_urls-AllSeeds :
    (u : Unicode) (net : Net) (raw more : Text)
    → All (IsSeed net) (parse_seed_urls u net raw)
      × (parse_seed_urls u net (raw ++ 10 ∷ more)
          ≡ parse_seed_urls u net raw ++ parse_seed_urls u net more)
unfolding parse_seed_urls
parse_seed_urls-AllSeeds u net raw more = (
  seeds_of_lines-AllSeeds u net (split 10 raw),
  ap (seeds_of_lines u net) (split-append raw more)
      ∙ seeds_of_lines-append u net (split 10 raw) (split 10 more),
)
