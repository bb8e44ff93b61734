-- ===== src/Store/Queues.antt =====
-- What a session's saved queue and visited set hold after a write, and that the other sessions keep
-- theirs.
use google_in_a_day_crawler.Base.{
  ℕ, ◌≡◌, ◌∙◌, sym, ap, refl, true, false, ◌||◌, List, [], ◌∷◌, ◌++◌, append-nil, append_assoc,
  ◌>>=◌, arith, subst, Bool-cases, inl, inr, some, Text, contains, ◌==◌, if◌then◌else◌,
}
use google_in_a_day_crawler.Worker.{CrawlTask}
use google_in_a_day_crawler.Store.{
  QueueRow, VisitedRow, Database, delete_tasks, insert_tasks, select_tasks, select_visited,
  has_visited, insert_visited, save_session_queued_tasks, load_session_queued_tasks,
  add_session_visited_urls, load_session_visited_urls,
}

select_tasks-append :
    (k : ℕ) (rows rows' : List QueueRow)
    → select_tasks k (rows ++ rows') ≡ select_tasks k rows ++ select_tasks k rows'
unfolding select_tasks
select_tasks-append k [] rows' = refl
select_tasks-append k (row ∷ rows) rows' = ground (arith, select_tasks-append k rows rows')

select-one :
    (id k : ℕ) (t : CrawlTask) (ts : List CrawlTask)
    → select_tasks k (record { session_id = id; task = t } ∷ []) ++ (if id == k then ts else [])
      ≡ (if id == k then t ∷ ts else [])
unfolding select_tasks
select-one id k t ts = elim (Bool-cases (id == k)) [ inl e ↦ rw (e) refl | inr e ↦ rw (e) refl ]

pub select-insert_tasks :
    (id k : ℕ) (ts : List CrawlTask) (rows : List QueueRow)
    → select_tasks k (insert_tasks id ts rows) ≡ select_tasks k rows ++ (if id == k then ts else [])
unfolding insert_tasks select_tasks
select-insert_tasks id k [] rows = ground (arith, append-nil (select_tasks k rows))
select-insert_tasks id k (t ∷ ts) rows =
    let added : List QueueRow = record { session_id = id; task = t } ∷ [] in
    select-insert_tasks id k ts (rows ++ added)
    ∙ ap (λ r. r ++ (if id == k then ts else [])) (select_tasks-append k rows added)
    ∙ append_assoc (select_tasks k rows) (select_tasks k added) (if id == k then ts else [])
    ∙ ap (λ r. select_tasks k rows ++ r) (select-one id k t ts)

pub select-delete_tasks :
    (id k : ℕ) (rows : List QueueRow)
    → select_tasks k (delete_tasks id rows) ≡ (if id == k then [] else select_tasks k rows)
unfolding select_tasks delete_tasks
select-delete_tasks id k [] = ground arith
select-delete_tasks id k (row ∷ rows) = ground (arith, select-delete_tasks id k rows)

-- The tasks that are saved for a session are loaded again in their order, and what any other session
-- loads is as before.
pub load-save_tasks :
    (id k : ℕ) (ts : List CrawlTask) (db : Database)
    → load_session_queued_tasks true k (save_session_queued_tasks true id ts db)
      ≡ (if id == k then some ts else load_session_queued_tasks true k db)
unfolding load_session_queued_tasks save_session_queued_tasks
load-save_tasks id k ts db = ground (
  arith,
  select-insert_tasks id k ts (delete_tasks id db.queue),
  select-delete_tasks id k db.queue,
  append-nil (select_tasks k db.queue),
)

pub contains-has_visited :
    (id : ℕ) (url : Text) (rows : List VisitedRow)
    → contains url (select_visited id rows) ≡ has_visited id url rows
unfolding contains select_visited has_visited
contains-has_visited id url [] = refl
contains-has_visited id url (row ∷ rows) = ground (arith, contains-has_visited id url rows)

has_visited-append :
    (id : ℕ) (url : Text) (rows rows' : List VisitedRow)
    → has_visited id url (rows ++ rows') ≡ (has_visited id url rows || has_visited id url rows')
unfolding has_visited
has_visited-append id url [] rows' = refl
has_visited-append id url (row ∷ rows) rows' = ground (arith, has_visited-append id url rows rows')

same_key :
    (id k : ℕ) (u url : Text) (rows : List VisitedRow)
    → has_visited id u rows ≡ true
    → id ≡ k
    → u ≡ url
    → has_visited k url rows ≡ true
same_key id k u url rows h e f =
    subst (λ v. has_visited v url rows ≡ true) e (subst (λ v. has_visited id v rows ≡ true) f h)

has-insert_visited :
    (id k : ℕ) (url : Text) (urls : List Text) (rows : List VisitedRow)
    → has_visited k url (insert_visited id urls rows)
      ≡ (has_visited k url rows || (if id == k then contains url urls else false))
unfolding insert_visited contains
has-insert_visited id k url [] rows = ground arith
has-insert_visited id k url (u ∷ urls) rows =
    let added : List VisitedRow = record { session_id = id; url = u } ∷ [] in
    elim (Bool-cases (has_visited id u rows)) [
      | inl e ↦
          rw (e)
            (ground (arith, e, has-insert_visited id k url urls rows, same_key id k u url rows))
      | inr e ↦ rw (e) (
          ground (
            arith,
            has-insert_visited id k url urls (rows ++ added),
            has_visited-append k url rows added,
          ))
    ]

-- The visited set of a session after a write has the URLs of before and those that were written, and
-- the set of any other session is as before.
pub load-add_visited :
    (id k : ℕ) (url : Text) (urls : List Text) (db : Database)
    → (load_session_visited_urls true k (add_session_visited_urls true id urls db)
        >>= (λ visited. some (contains url visited)))
      ≡ some (
          contains url (select_visited k db.visited)
          || (if id == k then contains url urls else false))
unfolding load_session_visited_urls add_session_visited_urls
load-add_visited id k url urls db = ap some (
    contains-has_visited k url (insert_visited id urls db.visited)
    ∙ has-insert_visited id k url urls db.visited
    ∙ ap (λ b. b || (if id == k then contains url urls else false))
        (sym (contains-has_visited k url db.visited)))
