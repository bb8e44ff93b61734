-- ===== src/Store/Rows.antt =====
-- The ids of the sessions' rows of internal/storage/sqlite.go: they ascend, and no statement changes that.
use google_in_a_day_crawler.Base.{
  subst, Bool-cases, ℕ, suc, ◌≤◌, ◌<◌, Text, ◌≢◌, ◌≡◌, refl, Bool, true, false, List, [], ◌∷◌, ◌++◌,
  arith, Option, none, some, ◌==◌, if◌then◌else◌, inl, inr,
}
use google_in_a_day_crawler.Store.{
  CrawlSession, Database, update_session, write_session, find_session, create_crawl_session,
  Counters, set_counters, finish_crawl_session, update_session_status,
  update_session_saved_queue_count, update_crawl_session_metrics, load_crawl_session,
}
use google_in_a_day_crawler.Store.Tables.{is_active, keep_active, DeleteOutcomes, delete_completed}
use google_in_a_day_crawler.Store.Clearing.{UniqueIds}

-- The ids of the rows ascend, above `lo` and up to `hi`.
unfoldable pub Ascends : ℕ → ℕ → List CrawlSession → Type 0
Ascends lo hi [] = lo ≤ hi
Ascends lo hi (sess ∷ rest) = (lo < sess.id) × Ascends sess.id hi rest

unfoldable pub IsOrderedDb : Option Database → Type 0
unfolding Ascends
IsOrderedDb none = Unit
IsOrderedDb (some db) = Ascends 0 db.last_id db.sessions

Ascends-lower :
    (lo lo' hi : ℕ) (rows : List CrawlSession) → lo' ≤ lo → Ascends lo hi rows → Ascends lo' hi rows
unfolding Ascends
Ascends-lower lo lo' hi [] l h = omega arith
Ascends-lower lo lo' hi (sess ∷ rest) l h = (omega (arith, h.0), h.1)

find-Ascends :
    (lo hi id : ℕ) (rows : List CrawlSession)
    → id ≤ lo
    → Ascends lo hi rows
    → find_session id rows ≡ none
unfolding Ascends find_session
find-Ascends lo hi id [] l h = refl
find-Ascends lo hi id (sess ∷ rest) l h =
    ground (arith, h.0, find-Ascends sess.id hi id rest (omega (arith, h.0)) h.1)

pub Ascends-UniqueIds : (lo hi : ℕ) (rows : List CrawlSession) → Ascends lo hi rows → UniqueIds rows
unfolding Ascends
Ascends-UniqueIds lo hi [] h = tt
Ascends-UniqueIds lo hi (sess ∷ rest) h =
    (find-Ascends sess.id hi sess.id rest (omega arith) h.1, Ascends-UniqueIds sess.id hi rest h.1)

append-Ascends :
    (lo hi : ℕ) (rows : List CrawlSession) (sess : CrawlSession)
    → sess.id ≡ suc hi
    → Ascends lo hi rows
    → Ascends lo (suc hi) (rows ++ sess ∷ [])
unfolding Ascends
append-Ascends lo hi [] sess e h = (omega (arith, e), omega (arith, e))
append-Ascends lo hi (s ∷ rest) sess e h = (h.0, append-Ascends s.id hi rest sess e h.1)

keep_active-Ascends :
    (lo hi : ℕ) (rows : List CrawlSession) → Ascends lo hi rows → Ascends lo hi (keep_active rows)
unfolding Ascends keep_active
keep_active-Ascends lo hi [] h = h
keep_active-Ascends lo hi (sess ∷ rest) h =
    let kept = keep_active-Ascends sess.id hi rest h.1 in
    elim (Bool-cases (is_active sess)) [
      | inl e ↦ rw (e) (h.0, kept)
      | inr e ↦ rw (e) (Ascends-lower sess.id lo hi (keep_active rest) (omega (arith, h.0)) kept)
    ]

update-Ascends :
    (id lo hi : ℕ) (change : CrawlSession → CrawlSession) (rows : List CrawlSession)
    → ((sess : CrawlSession) → (change sess).id ≡ sess.id)
    → Ascends lo hi rows
    → Ascends lo hi (update_session id change rows)
unfolding Ascends update_session
update-Ascends id lo hi change [] c h = h
update-Ascends id lo hi change (sess ∷ rest) c h =
    let row : CrawlSession = if sess.id == id then change sess else sess in
    subst (λ i. (lo < i) × Ascends i hi (update_session id change rest)) {x = sess.id} {y = row.id}
      (ground (arith, c sess)) (h.0, update-Ascends id sess.id hi change rest c h.1)

pub write_session-IsOrderedDb :
    (saved : Bool) (id : ℕ) (change : CrawlSession → CrawlSession) (db : Database)
    → ((sess : CrawlSession) → (change sess).id ≡ sess.id)
    → IsOrderedDb (some db)
    → IsOrderedDb (some (write_session saved id change db))
unfolding IsOrderedDb write_session
write_session-IsOrderedDb true id change db c h =
    update-Ascends id 0 db.last_id change db.sessions c h
write_session-IsOrderedDb false id change db c h = h

pub delete_completed-IsOrderedDb :
    (o : DeleteOutcomes) (db : Database)
    → IsOrderedDb (some db)
    → IsOrderedDb (some (delete_completed o db))
unfolding IsOrderedDb delete_completed
delete_completed-IsOrderedDb o db h = elim (Bool-cases o.sessions_deleted) [
  | inl e ↦ rw (e) (keep_active-Ascends 0 db.last_id db.sessions h)
  | inr e ↦ rw (e) h
]

pub create_crawl_session-IsOrderedDb :
    (saved : Bool) (sess : CrawlSession) (db : Database)
    → IsOrderedDb (some db)
    → IsOrderedDb (some (create_crawl_session saved sess db).0)
unfolding IsOrderedDb create_crawl_session
create_crawl_session-IsOrderedDb false sess db h = h
create_crawl_session-IsOrderedDb true sess db h = append-Ascends 0 db.last_id db.sessions _ refl h

-- No row has the id 0.
pub find_session-zero : (db : Database) → IsOrderedDb (some db) → find_session 0 db.sessions ≡ none
unfolding IsOrderedDb
find_session-zero db h = find-Ascends 0 db.last_id 0 db.sessions (omega arith) h

pub finish_crawl_session-IsOrderedDb :
    (saved : Bool) (id : ℕ) (status reason : Text) (c : Counters) (db : Database)
    → IsOrderedDb (some db)
    → IsOrderedDb (some (finish_crawl_session saved id status reason c db))
unfolding finish_crawl_session set_counters
finish_crawl_session-IsOrderedDb saved id status reason c db h =
    write_session-IsOrderedDb saved id
      (λ sess. record (set_counters c sess) { status = status; stop_reason = reason }) db
      (λ sess. refl) h

pub update_session_status-IsOrderedDb :
    (saved : Bool) (id : ℕ) (status : Text) (db : Database)
    → IsOrderedDb (some db)
    → IsOrderedDb (some (update_session_status saved id status db))
unfolding update_session_status
update_session_status-IsOrderedDb saved id status db h =
    write_session-IsOrderedDb saved id (λ sess. record sess { status = status }) db (λ sess. refl) h

pub update_session_saved_queue_count-IsOrderedDb :
    (saved : Bool) (id : ℕ) (n : ℕ) (db : Database)
    → IsOrderedDb (some db)
    → IsOrderedDb (some (update_session_saved_queue_count saved id n db))
unfolding update_session_saved_queue_count
update_session_saved_queue_count-IsOrderedDb saved id n db h =
    write_session-IsOrderedDb saved id (λ sess. record sess { saved_queue_count = n }) db
      (λ sess. refl) h

pub update_crawl_session_metrics-IsOrderedDb :
    (saved : Bool) (id : ℕ) (c : Counters) (db : Database)
    → IsOrderedDb (some db)
    → IsOrderedDb (some (update_crawl_session_metrics saved id c db))
unfolding update_crawl_session_metrics set_counters
update_crawl_session_metrics-IsOrderedDb saved id c db h =
    write_session-IsOrderedDb saved id (set_counters c) db (λ sess. refl) h

pub same-IsOrderedDb :
    (db db' : Database)
    → db'.sessions ≡ db.sessions
    → db'.last_id ≡ db.last_id
    → IsOrderedDb (some db)
    → IsOrderedDb (some db')
unfolding IsOrderedDb
same-IsOrderedDb db db' s l h = rw (s, l) h

-- A session that can be read has an id that is not 0.
pub load_crawl_session-positive :
    (read : Bool) (id : ℕ) (db : Database) (sess : CrawlSession)
    → IsOrderedDb (some db)
    → load_crawl_session read id db ≡ some sess
    → id ≢ 0
unfolding load_crawl_session
load_crawl_session-positive read id db sess h e = ground (arith, e, find_session-zero db h)
