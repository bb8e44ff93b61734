-- ===== src/Store/Schema.antt =====
-- `migrate` of internal/storage/sqlite.go: the tables, their columns and the indexes of the file, and the
-- statements that bring them up to date. The types, defaults and keys of the columns are left out.
pub mod Covering
pub mod Migrating
pub mod Again
use google_in_a_day_crawler.Base.{
  ℕ, ◌≡◌, ◌∙◌, ap, refl, Bool, true, false, ◌&&◌, ◌||◌, ite, List, [], ◌∷◌, ◌++◌, arith, Text,
  Text_discrete, codes, contains, length, if◌then◌else◌, Bool-cases, inl, inr,
}

pub record Table : Type 0 where
  pub name : Text
  pub columns : List Text

pub record Schema : Type 0 where
  pub tables : List Table
  pub indexes : List Text

pub data Statement : Type 0 where
  -- `CREATE TABLE IF NOT EXISTS`
  create_table : Text → List Text → Statement
  -- `CREATE INDEX IF NOT EXISTS`, of a name on a table's column
  create_index : Text → Text → Text → Statement
  -- `ALTER TABLE ... ADD COLUMN`
  add_column : Text → Text → Statement

pub data Result : Type 0 where
  made duplicate broken : Result

same : Text → Text → Bool
same a b = ite (Text_discrete a b) true false

unfoldable pub has_table : Text → List Table → Bool
unfolding same
has_table name [] = false
has_table name (t ∷ ts) = same t.name name || has_table name ts

-- The first table of a name has the column.
unfoldable pub has_column : Text → Text → List Table → Bool
unfolding same
has_column name column [] = false
has_column name column (t ∷ ts) =
    let rest = has_column name column ts in
    if same t.name name then contains column t.columns else rest

unfoldable pub put_column : Text → Text → List Table → List Table
unfolding same
put_column name column [] = []
put_column name column (t ∷ ts) =
    let rest = put_column name column ts in
    if same t.name name then record t { columns = t.columns ++ column ∷ [] } ∷ ts else t ∷ rest

-- One statement: a table or an index that stands there already is passed over, whatever its columns; a new
-- index wants its column. `false` is a failure that has nothing to do with the schema.
unfoldable pub exec : Bool → Statement → Schema → Schema × Result
unfolding has_table has_column put_column
exec false st s = (s, broken)
exec true (create_table name columns) s =
    if has_table name s.tables
    then (s, made)
    else (record s { tables = s.tables ++ record { name = name; columns = columns } ∷ [] }, made)
exec true (create_index name table column) s =
    if has_table table s.tables
    then if contains name s.indexes
      then (s, made)
      else if has_column table column s.tables
      then (record s { indexes = s.indexes ++ name ∷ [] }, made)
      else (s, broken)
    else (s, broken)
exec true (add_column table column) s =
    if has_table table s.tables
    then if has_column table column s.tables
      then (s, duplicate)
      else (record s { tables = put_column table column s.tables }, made)
    else (s, broken)

-- Statements that stand in one text, up to the first that fails; their outcomes are those by the number
-- of statements that follow.
unfoldable pub exec_all : (ℕ → Bool) → List Statement → Schema → Schema × Bool
unfolding exec
exec_all ok [] s = (s, true)
exec_all ok (st ∷ sts) s =
    let (after, result) = exec (ok (length sts)) st s in
    elim result [
      | made ↦ exec_all ok sts after
      | duplicate ↦ (after, false)
      | broken ↦ (after, false)
    ]

-- The loop over `alterStmts`: a duplicate column is no error.
unfoldable pub alter_all : (ℕ → Bool) → List Statement → Schema → Schema × Bool
unfolding exec
alter_all ok [] s = (s, true)
alter_all ok (st ∷ sts) s =
    let (after, result) = exec (ok (length sts)) st s in
    elim result [
      | made ↦ alter_all ok sts after
      | duplicate ↦ alter_all ok sts after
      | broken ↦ (after, false)
    ]

-- `schema`.
pub schema : List Statement
schema =
    create_table (codes "crawl_state") (
      codes "id"
      ∷ codes "seed_url"
      ∷ codes "max_depth"
      ∷ codes "num_workers"
      ∷ codes "same_domain"
      ∷ codes "completed"
      ∷ [])
    ∷ create_table (codes "visited_urls") (codes "url" ∷ [])
    ∷ create_table (codes "queue")
        (codes "id" ∷ codes "url" ∷ codes "origin_url" ∷ codes "depth" ∷ [])
    ∷ create_table (codes "documents")
        (codes "url" ∷ codes "origin_url" ∷ codes "depth" ∷ codes "title" ∷ codes "body_text" ∷ [])
    ∷ create_table (codes "postings") (
        codes "token"
        ∷ codes "url"
        ∷ codes "origin_url"
        ∷ codes "depth"
        ∷ codes "title"
        ∷ codes "term_freq"
        ∷ codes "in_title"
        ∷ codes "in_url"
        ∷ [])
    ∷ create_index (codes "idx_postings_token") (codes "postings") (codes "token")
    ∷ create_table (codes "crawl_sessions") (
        codes "id"
        ∷ codes "origin_url"
        ∷ codes "max_depth"
        ∷ codes "max_urls"
        ∷ codes "num_workers"
        ∷ codes "queue_size"
        ∷ codes "same_domain"
        ∷ codes "status"
        ∷ codes "visited_count"
        ∷ codes "queued_count"
        ∷ codes "indexed_count"
        ∷ codes "error_count"
        ∷ codes "stop_reason"
        ∷ codes "error_message"
        ∷ codes "started_at"
        ∷ codes "finished_at"
        ∷ [])
    ∷ []

-- `alterStmts`.
pub alter_stmts : List Statement
alter_stmts =
    add_column (codes "queue") (codes "session_id")
    ∷ add_column (codes "crawl_sessions") (codes "saved_queue_count")
    ∷ []

pub resume_schema : List Statement
resume_schema =
    create_table (codes "session_visited_urls") (codes "session_id" ∷ codes "url" ∷ [])
    ∷ create_index (codes "idx_queue_session") (codes "queue") (codes "session_id")
    ∷ []

pub record MigrateOutcomes : Type 0 where
  pub created : ℕ → Bool
  pub altered : ℕ → Bool
  pub resumed : ℕ → Bool

-- A step behind another, if that has succeeded.
unfoldable pub and_then : Schema × Bool → (Schema → Schema × Bool) → Schema × Bool
and_then (s, true) next = next s
and_then (s, false) next = (s, false)

-- `migrate`; `false` is the error that is returned.
unfoldable pub migrate : MigrateOutcomes → Schema → Schema × Bool
unfolding exec_all alter_all and_then
migrate o s =
    and_then (and_then (exec_all o.created schema s) (alter_all o.altered alter_stmts))
      (exec_all o.resumed resume_schema)

-- `Open`: the database is used only if the migration succeeds.
pub open_schema : Bool → MigrateOutcomes → Schema → Schema × Bool
unfolding migrate
open_schema opened o s = if opened then migrate o s else (s, false)
