-- ===== src/Worker/Targets.antt =====
-- Which links `processPage` and `workerLoop` (internal/crawler/worker.go) pass on.
use google_in_a_day_crawler.Base.{
  ◌≡◌, ◌≢◌, ◌⊎◌, refl, inl, inr, Bool, true, false, List, [], ◌∷◌, All, Option, none, some,
  Option-cases, arith, pos, ◌+ℤ◌, Text, contains, codes, if◌then◌else◌,
}
use google_in_a_day_crawler.Tokens.{Unicode, to_lower_text}
use google_in_a_day_crawler.Page.{parse_html}
use google_in_a_day_crawler.Worker.{
  body, failed, fetch_page, CrawlTask, PageRecord, WorkerConfig, Exchange, Net, Url, has_ext,
  skip_exts, is_http, same_host, is_valid_crawl_target, valid_links, normalize_url, process_page,
  new_tasks, failed_record,
}

-- A link that may be fetched: of scheme http or https, with none of the extensions that are passed
-- over and, where the crawl stays on its domain and has seed hosts, on one of these.
pub record IsTarget (u : Unicode) (net : Net) (cfg : WorkerConfig) (link : Text) : Type 0 where
  pub url : Url
  pub parses : net.parse link ≡ some url
  pub over_http : (url.scheme ≡ codes "http") ⊎ (url.scheme ≡ codes "https")
  pub no_ext : has_ext (to_lower_text u url.path) skip_exts ≡ false
  pub on_domain :
      cfg.same_domain ≡ true
      → cfg.seed_hosts ≢ []
      → contains (to_lower_text u url.host) cfg.seed_hosts ≡ true

-- A task for a link on the page of another task.
pub record IsChild (u : Unicode) (net : Net) (cfg : WorkerConfig) (page t : CrawlTask)
    : Type 0 where
  pub deeper : t.depth ≡ page.depth +ℤ pos 1
  pub from_page : t.origin_url ≡ page.url
  pub target : IsTarget u net cfg t.url

pub is_http-cases :
    (scheme : Text) → is_http scheme ≡ true → (scheme ≡ codes "http") ⊎ (scheme ≡ codes "https")
unfolding is_http
is_http-cases scheme h = ground (arith, h)

valid-IsTarget :
    (u : Unicode) (net : Net) (cfg : WorkerConfig) (link : Text)
    → is_valid_crawl_target u net link cfg.same_domain cfg.seed_host cfg.seed_hosts ≡ true
    → IsTarget u net cfg link
unfolding is_valid_crawl_target same_host
valid-IsTarget u net cfg link h = elim (Option-cases (net.parse link)) [
  | inl e ↦ ground (arith, e, h)
  | inr (url, e) ↦ record {
    url = url;
    parses = e;
    over_http = is_http-cases url.scheme (ground (arith, e, h));
    no_ext = ground (arith, e, h);
    on_domain = λ s n. ground (arith, e, h, s, n);
  }
]

choose_link :
    (u : Unicode) (net : Net) (cfg : WorkerConfig) (link : Text) (rest : List Text) (b : Bool)
    → (b ≡ true → IsTarget u net cfg link)
    → All (IsTarget u net cfg) rest
    → All (IsTarget u net cfg) (if b then link ∷ rest else rest)
choose_link u net cfg link rest true h k = (h refl, k)
choose_link u net cfg link rest false h k = k

kept_link-IsTarget :
    (u : Unicode) (net : Net) (cfg : WorkerConfig) (o : Option Text) (rest : List Text)
    → All (IsTarget u net cfg) rest
    → All (IsTarget u net cfg) (elim o [
      | none ↦ rest
      | some link ↦
          if is_valid_crawl_target u net link cfg.same_domain cfg.seed_host cfg.seed_hosts
          then link ∷ rest
          else rest
    ])
kept_link-IsTarget u net cfg none rest k = k
kept_link-IsTarget u net cfg (some link) rest k =
    choose_link u net cfg link rest
      (is_valid_crawl_target u net link cfg.same_domain cfg.seed_host cfg.seed_hosts)
      (valid-IsTarget u net cfg link) k

valid_links-IsTarget :
    (u : Unicode) (net : Net) (cfg : WorkerConfig) (base : Text) (raws : List Text)
    → All (IsTarget u net cfg) (valid_links u net cfg base raws)
unfolding valid_links
valid_links-IsTarget u net cfg base [] = tt
valid_links-IsTarget u net cfg base (raw ∷ raws) =
    kept_link-IsTarget u net cfg (normalize_url u net raw base) (valid_links u net cfg base raws)
      (valid_links-IsTarget u net cfg base raws)

process_page-IsTarget :
    (u : Unicode) (net : Net) (cfg : WorkerConfig) (exchange : Exchange) (task : CrawlTask)
    → All (IsTarget u net cfg) (process_page u net cfg exchange task).links
unfolding process_page failed_record
process_page-IsTarget u net cfg exchange task =
    elim (fetch_page cfg exchange)
      as (λ f.
        let made : PageRecord = elim f [
          | failed status e ↦ failed_record task status e
          | body bytes status ↦
              let page = parse_html u net.parse_page bytes in
              record {
                url = task.url;
                origin_url = task.origin_url;
                depth = task.depth;
                title = page.title;
                body_text = page.body_text;
                links = valid_links u net cfg task.url page.links;
                status_code = status;
                error = none;
              }
        ] in
        All (IsTarget u net cfg) made.links) [
          | failed status e ↦ tt
          | body bytes status ↦
              valid_links-IsTarget u net cfg task.url (parse_html u net.parse_page bytes).links
        ]

new_tasks-IsChild :
    (u : Unicode) (net : Net) (cfg : WorkerConfig) (task : CrawlTask) (links : List Text)
    → All (IsTarget u net cfg) links
    → All (IsChild u net cfg task) (new_tasks task links)
unfolding new_tasks
new_tasks-IsChild u net cfg task [] h = tt
new_tasks-IsChild u net cfg task (link ∷ links) h = (
  record { deeper = refl; from_page = refl; target = h.0 },
  new_tasks-IsChild u net cfg task links h.1,
)

-- Whatever a server answers, each task that a worker makes of a page stands one level deeper than the
-- page's task, has the page's URL as its origin, and a URL that may be fetched: over http or https,
-- without one of the extensions that are passed over and, where the crawl stays on its domain and has
-- seed hosts, with its host, in lower case, among these.
pub page_tasks-AllChildren :
    (u : Unicode) (net : Net) (cfg : WorkerConfig) (exchange : Exchange) (task : CrawlTask)
    → All (IsChild u net cfg task) (new_tasks task (process_page u net cfg exchange task).links)
page_tasks-AllChildren u net cfg exchange task =
    new_tasks-IsChild u net cfg task (process_page u net cfg exchange task).links
      (process_page-IsTarget u net cfg exchange task)
