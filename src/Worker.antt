-- ===== src/Worker.antt =====
-- internal/crawler/worker.go: tasks and page records, `fetchPage`, `processPage`, `normalizeURL`,
-- `isValidCrawlTarget` and the links that a page hands on. The packages net/url, net/http and
-- golang.org/x/net/html are the parameter `Net`; times are left out, since nothing reads them.
pub mod Targets
mod Examples
use google_in_a_day_crawler.Base.{
  ℕ, Bool, true, false, not, ◌||◌, ite, List, [], ◌∷◌, Option, none, some, ◌>>=◌, ℤ, pos, negsuc,
  ◌+ℤ◌, Text, Text_discrete, codes, contains, utf8_len, has_suffix, contains_text, trim_right, take,
  ltb, ◌==◌, if◌then◌else◌,
}
use google_in_a_day_crawler.Tokens.{Unicode, to_lower_text}
use google_in_a_day_crawler.Page.{Node, parse_html}

pub record CrawlTask : Type 0 where
  pub url : Text
  pub origin_url : Text
  pub depth : ℤ

-- The errors of `fetchPage`; each has a message that is not empty.
pub data FetchError : Type 0 where
  create_request do_request : FetchError
  not_html : Text → FetchError
  read_body : FetchError

-- `Error` is empty in the source where it is `none` here.
pub record PageRecord : Type 0 where
  pub url : Text
  pub origin_url : Text
  pub depth : ℤ
  pub title : Text
  pub body_text : Text
  pub links : List Text
  pub status_code : ℕ
  pub error : Option FetchError

pub record WorkerConfig : Type 0 where
  pub max_body_size : ℤ
  pub same_domain : Bool
  pub seed_host : Text
  pub seed_hosts : List Text

-- A `url.URL`: the parts that the program reads or writes, and all that it leaves alone.
pub record Url : Type 0 where
  pub scheme : Text
  pub host : Text
  pub path : Text
  pub fragment : Text
  pub others : Text

-- How the exchange with a server goes: the request is not built, it fails, or there is a response,
-- whose body may fail to be read.
pub data Exchange : Type 0 where
  bad_request no_response : Exchange
  response : ℕ → Text → Option Text → Exchange

pub record Net : Type 0 where
  pub parse : Text → Option Url
  pub resolve_reference : Url → Url → Url
  pub print : Url → Text
  pub parse_page : Text → Option Node

-- `io.LimitReader`.
pub limited : ℤ → Text → Text
limited (pos n) body = take n body
limited (negsuc n) body = []

pub is_html : Text → Bool
is_html content_type =
    contains_text content_type (codes "text/html")
    || contains_text content_type (codes "application/xhtml")

pub data Fetched : Type 0 where
  body : Text → ℕ → Fetched
  failed : ℕ → FetchError → Fetched

unfoldable pub fetch_page : WorkerConfig → Exchange → Fetched
unfolding limited
fetch_page cfg bad_request = failed 0 create_request
fetch_page cfg no_response = failed 0 do_request
fetch_page cfg (response status content_type none) =
    if not (is_html content_type)
    then failed status (not_html content_type)
    else failed status read_body
fetch_page cfg (response status content_type (some bytes)) =
    if not (is_html content_type)
    then failed status (not_html content_type)
    else body (limited cfg.max_body_size bytes) status

pub is_slash : ℕ → Bool
is_slash c = c == b'/'

-- The path without the slashes at its end, unless it is one byte long or empty.
pub strip_slashes : Text → Text
unfolding is_slash
strip_slashes path = if ltb 1 (utf8_len path) then trim_right is_slash path else path

pub canonical : Unicode → Url → Url
unfolding strip_slashes
canonical u url = record url {
  scheme = to_lower_text u url.scheme;
  host = to_lower_text u url.host;
  fragment = [];
  path = strip_slashes url.path;
}

pub normalize_url : Unicode → Net → Text → Text → Option Text
normalize_url u net raw_href base_url = do
  base ← net.parse base_url
  ref ← net.parse raw_href
  some (net.print (canonical u (net.resolve_reference base ref)))

pub skip_exts : List Text
skip_exts =
    codes ".pdf"
    ∷ codes ".jpg"
    ∷ codes ".jpeg"
    ∷ codes ".png"
    ∷ codes ".gif"
    ∷ codes ".svg"
    ∷ codes ".bmp"
    ∷ codes ".ico"
    ∷ codes ".webp"
    ∷ codes ".zip"
    ∷ codes ".tar"
    ∷ codes ".gz"
    ∷ codes ".rar"
    ∷ codes ".7z"
    ∷ codes ".mp3"
    ∷ codes ".mp4"
    ∷ codes ".avi"
    ∷ codes ".mov"
    ∷ codes ".wmv"
    ∷ codes ".flv"
    ∷ codes ".webm"
    ∷ codes ".doc"
    ∷ codes ".docx"
    ∷ codes ".xls"
    ∷ codes ".xlsx"
    ∷ codes ".ppt"
    ∷ codes ".pptx"
    ∷ codes ".css"
    ∷ codes ".js"
    ∷ codes ".json"
    ∷ codes ".xml"
    ∷ codes ".rss"
    ∷ codes ".atom"
    ∷ codes ".exe"
    ∷ codes ".dmg"
    ∷ codes ".msi"
    ∷ codes ".deb"
    ∷ codes ".rpm"
    ∷ codes ".woff"
    ∷ codes ".woff2"
    ∷ codes ".ttf"
    ∷ codes ".eot"
    ∷ []

-- The loop over the extensions.
pub has_ext : Text → List Text → Bool
has_ext path [] = false
has_ext path (ext ∷ exts) = if has_suffix path ext then true else has_ext path exts

unfoldable pub is_http : Text → Bool
is_http scheme =
    ite (Text_discrete scheme (codes "http")) true
      (ite (Text_discrete scheme (codes "https")) true false)

-- The check of the host; an empty `seed_hosts` stands for no map and for an empty one.
pub same_host : Unicode → Text → Text → List Text → Bool
same_host u host seed_host (h ∷ hs) = contains (to_lower_text u host) (h ∷ hs)
same_host u host [] [] = true
same_host u host (c ∷ seed_host) [] =
    ite (Text_discrete (to_lower_text u host) (to_lower_text u (c ∷ seed_host))) true false

pub is_valid_crawl_target : Unicode → Net → Text → Bool → Text → List Text → Bool
unfolding is_http
is_valid_crawl_target u net raw_url same_domain seed_host seed_hosts = elim (net.parse raw_url) [
  | none ↦ false
  | some url ↦
      if not (is_http url.scheme)
      then false
      else if has_ext (to_lower_text u url.path) skip_exts
      then false
      else if same_domain
      then same_host u url.host seed_host seed_hosts
      else true
]

-- The loop over the raw links of a page.
pub valid_links : Unicode → Net → WorkerConfig → Text → List Text → List Text
valid_links u net cfg base [] = []
valid_links u net cfg base (raw ∷ raws) =
    let rest = valid_links u net cfg base raws in
    elim (normalize_url u net raw base) [
      | none ↦ rest
      | some link ↦
          if is_valid_crawl_target u net link cfg.same_domain cfg.seed_host cfg.seed_hosts
          then link ∷ rest
          else rest
    ]

unfoldable pub failed_record : CrawlTask → ℕ → FetchError → PageRecord
failed_record task status e = record {
  url = task.url;
  origin_url = task.origin_url;
  depth = task.depth;
  title = [];
  body_text = [];
  links = [];
  status_code = status;
  error = some e;
}

unfoldable pub process_page : Unicode → Net → WorkerConfig → Exchange → CrawlTask → PageRecord
unfolding failed_record
process_page u net cfg exchange task = elim (fetch_page cfg exchange) [
  | failed status e ↦ failed_record task status e
  | body bytes status ↦
      let page = parse_html u net.parse_page bytes in
      record {
        url = task.url;
        origin_url = task.origin_url;
        depth = task.depth;
        title = page.title;
        body_text = page.body_text;
        links = valid_links u net cfg task.url page.links;
        status_code = status;
        error = none;
      }
]

-- The tasks that `workerLoop` makes of a page's links.
unfoldable pub new_tasks : CrawlTask → List Text → List CrawlTask
new_tasks task [] = []
new_tasks task (link ∷ links) =
    record { url = link; origin_url = task.url; depth = task.depth +ℤ pos 1 } ∷ new_tasks task links
