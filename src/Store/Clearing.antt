-- ===== src/Store/Clearing.antt =====
-- What `DeleteCompletedCrawlSessions` (internal/storage/sqlite.go) leaves.
use google_in_a_day_crawler.Base.{◌≡◌, List, [], ◌∷◌, Option, none, some, if◌then◌else◌}
use google_in_a_day_crawler.Store.{CrawlSession, find_session}
use google_in_a_day_crawler.Store.Tables.{is_active}

-- The ids are a primary key: no two sessions share one.
abbrev pub UniqueIds : List CrawlSession → Type 0
UniqueIds [] = Unit
UniqueIds (sess ∷ rest) = (find_session sess.id rest ≡ none) × UniqueIds rest

-- A session, if it is active.
pub if_active : CrawlSession → Option CrawlSession
if_active sess = if is_active sess then some sess else none
