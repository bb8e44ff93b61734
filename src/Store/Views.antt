-- ===== src/Store/Views.antt =====
-- A session's rows in the tables of internal/storage/sqlite.go, as a crawl sees them, and the writes of a
-- crawl (internal/crawler/crawler.go: flushVisited and saveQueue) on the tables.
use google_in_a_day_crawler.Base.{
  ℕ, ◌≡◌, refl, Bool, true, false, List, [], ◌∷◌, ◌++◌, append-nil, arith, Bool-cases, inl, inr,
  Text, ◌==◌, if◌then◌else◌,
}
use google_in_a_day_crawler.Worker.{CrawlTask}
use google_in_a_day_crawler.Crawler.System.{
  SessionRows, add_visited, add_all_visited, flush_rows, replace_queue,
}
use google_in_a_day_crawler.Store.{
  VisitedRow, Database, select_tasks, select_visited, has_visited, insert_visited, delete_tasks,
  save_session_queued_tasks, add_session_visited_urls,
}
use google_in_a_day_crawler.Store.Queues.{
  select-insert_tasks, select-delete_tasks, contains-has_visited,
}

unfoldable pub view : ℕ → Database → SessionRows
view id db = record { queue = select_tasks id db.queue; visited = select_visited id db.visited }

select_visited-append :
    (k : ℕ) (rows rows' : List VisitedRow)
    → select_visited k (rows ++ rows') ≡ select_visited k rows ++ select_visited k rows'
unfolding select_visited
select_visited-append k [] rows' = refl
select_visited-append k (row ∷ rows) rows' = ground (arith, select_visited-append k rows rows')

select-insert_visited :
    (id k : ℕ) (urls : List Text) (rows : List VisitedRow)
    → select_visited k (insert_visited id urls rows)
      ≡ (if id == k then add_all_visited urls (select_visited k rows) else select_visited k rows)
unfolding insert_visited add_all_visited add_visited select_visited
select-insert_visited id k [] rows = ground arith
select-insert_visited id k (u ∷ urls) rows =
    let added : List VisitedRow = record { session_id = id; url = u } ∷ [] in
    elim (Bool-cases (has_visited id u rows)) [
      | inl e ↦
          rw (e) (
            ground (arith, e, select-insert_visited id k urls rows, contains-has_visited id u rows))
      | inr e ↦ rw (e) (
          ground (
            arith,
            e,
            select-insert_visited id k urls (rows ++ added),
            select_visited-append k rows added,
            contains-has_visited id u rows,
            append-nil (select_visited k rows),
          ))
    ]

-- The writes of a crawl on its own session are those on its view, and no other session's view changes.
pub view-add_session_visited_urls :
    (saved : Bool) (id k : ℕ) (urls : List Text) (db : Database)
    → view k (add_session_visited_urls saved id urls db)
      ≡ (if id == k then flush_rows saved urls (view k db) else view k db)
unfolding view add_session_visited_urls flush_rows
view-add_session_visited_urls true id k urls db =
    ground (arith, select-insert_visited id k urls db.visited)
view-add_session_visited_urls false id k urls db = ground arith

pub view-save_session_queued_tasks :
    (saved : Bool) (id k : ℕ) (tasks : List CrawlTask) (db : Database)
    → view k (save_session_queued_tasks saved id tasks db)
      ≡ (if id == k then replace_queue saved tasks (view k db) else view k db)
unfolding view save_session_queued_tasks replace_queue
view-save_session_queued_tasks true id k tasks db = ground (
  arith,
  select-insert_tasks id k tasks (delete_tasks id db.queue),
  select-delete_tasks id k db.queue,
  append-nil (select_tasks k db.queue),
)
view-save_session_queued_tasks false id k tasks db = ground arith
