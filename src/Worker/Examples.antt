-- ===== src/Worker/Examples.antt =====
-- The tasks of a concrete page, and a witness.
use google_in_a_day_crawler.Base.{[], ◌∷◌, pos, codes, All, some, true}
use google_in_a_day_crawler.Tokens.Ascii.{ascii}
use google_in_a_day_crawler.Page.{element, nil}
use google_in_a_day_crawler.Worker.{CrawlTask, WorkerConfig, Net, process_page, new_tasks, response}
use google_in_a_day_crawler.Worker.Targets.{IsChild, page_tasks-AllChildren}

-- A net in which every text is an address on one host, and each page is one link.
abbrev one_host : Net
one_host = record {
  parse = λ s.
      some (record {
        scheme = codes "http";
        host = codes "a.b";
        path = s;
        fragment = [];
        others = [];
      });
  resolve_reference = λ base ref. ref;
  print = λ url. url.path;
  parse_page = λ s. some (element (codes "a") ((codes "href", codes "/b") ∷ []) nil);
}

abbrev domain_workers : WorkerConfig
domain_workers = record {
  max_body_size = pos 100;
  same_domain = true;
  seed_host = [];
  seed_hosts = codes "a.b" ∷ [];
}

abbrev page_task : CrawlTask
page_task = record { url = codes "/"; origin_url = []; depth = pos 0 }

page_tasks-AllChildren_example : All (IsChild ascii one_host domain_workers page_task) (
    new_tasks page_task
      (process_page ascii one_host domain_workers
        (response 200 (codes "text/html") (some (codes "x")))
        page_task).links)
page_tasks-AllChildren_example =
    page_tasks-AllChildren ascii one_host domain_workers
      (response 200 (codes "text/html") (some (codes "x"))) page_task
