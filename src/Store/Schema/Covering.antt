-- ===== src/Store/Schema/Covering.antt =====
-- What one statement of the schema (internal/storage/sqlite.go) leaves: it is covered behind its success, takes
-- nothing away, and changes nothing when it is made again.
use google_in_a_day_crawler.Base.{
  ◌≡◌, refl, Bool, true, false, ◌&&◌, ◌||◌, List, [], ◌∷◌, ◌++◌, arith, Text, contains,
  contains-append, inl, inr, ◌⊎◌, All,
}
use google_in_a_day_crawler.Store.Schema.{
  Table, Schema, Statement, create_table, create_index, add_column, made, duplicate, broken,
  has_table, has_column, put_column, exec,
}

-- What the statement asks for is there: a table or an index of the name, or the column.
unfoldable pub covers : Schema → Statement → Bool
covers s (create_table name columns) = has_table name s.tables
covers s (create_index name table column) = has_table table s.tables && contains name s.indexes
covers s (add_column table column) = has_table table s.tables && has_column table column s.tables

has_table-append :
    (k : Text) (ts rest : List Table)
    → has_table k (ts ++ rest) ≡ (has_table k ts || has_table k rest)
unfolding has_table
has_table-append k [] rest = refl
has_table-append k (t ∷ ts) rest = ground (arith, has_table-append k ts rest)

has_column-append :
    (k c : Text) (ts rest : List Table)
    → has_column k c ts ≡ true
    → has_column k c (ts ++ rest) ≡ true
unfolding has_column
has_column-append k c [] rest h = ground (arith, h)
has_column-append k c (t ∷ ts) rest h = ground (arith, h, has_column-append k c ts rest)

has_table-put_column :
    (k name column : Text) (ts : List Table)
    → has_table k (put_column name column ts) ≡ has_table k ts
unfolding has_table put_column
has_table-put_column k name column [] = refl
has_table-put_column k name column (t ∷ ts) = ground (arith, has_table-put_column k name column ts)

has_column-put_column :
    (k c name column : Text) (ts : List Table)
    → has_column k c ts ≡ true
    → has_column k c (put_column name column ts) ≡ true
unfolding has_column put_column
has_column-put_column k c name column [] h = ground (arith, h)
has_column-put_column k c name column (t ∷ ts) h =
    ground (
      arith,
      h,
      has_column-put_column k c name column ts,
      contains-append c t.columns (column ∷ []),
    )

-- The new column is there.
put_column-has_column :
    (name column : Text) (ts : List Table)
    → has_table name ts ≡ true
    → has_column name column (put_column name column ts) ≡ true
unfolding has_table has_column put_column contains
put_column-has_column name column [] h = ground (arith, h)
put_column-has_column name column (t ∷ ts) h =
    ground (
      arith,
      h,
      put_column-has_column name column ts,
      contains-append column t.columns (column ∷ []),
    )

-- A statement takes nothing away.
pub exec-covers :
    (ok : Bool) (st : Statement) (s : Schema) (other : Statement)
    → covers s other ≡ true
    → covers (exec ok st s).0 other ≡ true
unfolding covers exec
exec-covers false st s other h = h
exec-covers true (create_table n cs) s (create_table n' cs') h =
    ground (arith, h, has_table-append n' s.tables (record { name = n; columns = cs } ∷ []))
exec-covers true (create_table n cs) s (create_index n' t i') h =
    ground (arith, h, has_table-append t s.tables (record { name = n; columns = cs } ∷ []))
exec-covers true (create_table n cs) s (add_column t c) h = ground (
  arith,
  h,
  has_table-append t s.tables (record { name = n; columns = cs } ∷ []),
  has_column-append t c s.tables (record { name = n; columns = cs } ∷ []),
)
exec-covers true (create_index n t i) s (create_table n' cs') h = ground (arith, h)
exec-covers true (create_index n t i) s (create_index n' t' i') h =
    ground (arith, h, contains-append n' s.indexes (n ∷ []))
exec-covers true (create_index n t i) s (add_column t' c) h = ground (arith, h)
exec-covers true (add_column t c) s (create_table n' cs') h =
    ground (arith, h, has_table-put_column n' t c s.tables)
exec-covers true (add_column t c) s (create_index n' t' i') h =
    ground (arith, h, has_table-put_column t' t c s.tables)
exec-covers true (add_column t c) s (add_column t' c') h =
    ground
      (arith, h, has_table-put_column t' t c s.tables, has_column-put_column t' c' t c s.tables)

-- A statement that is carried out, or finds its column, is covered.
pub exec-made :
    (ok : Bool) (st : Statement) (s : Schema)
    → ((exec ok st s).1 ≡ broken) ⊎ (covers (exec ok st s).0 st ≡ true)
unfolding covers exec has_table contains
exec-made false st s = inl refl
exec-made true (create_table n cs) s =
    inr (ground (arith, has_table-append n s.tables (record { name = n; columns = cs } ∷ [])))
exec-made true (create_index n t i) s = ground (arith, contains-append n s.indexes (n ∷ []))
exec-made true (add_column t c) s =
    ground (arith, has_table-put_column t t c s.tables, put_column-has_column t c s.tables)

-- A covered statement changes nothing.
pub exec-again :
    (st : Statement) (s : Schema)
    → covers s st ≡ true
    → exec true st s ≡ (
      s,
      elim st [ create_table n c ↦ made | create_index n t i ↦ made | add_column t c ↦ duplicate ],
    )
unfolding covers exec
exec-again (create_table n cs) s h = ground (arith, h)
exec-again (create_index n t i) s h = ground (arith, h)
exec-again (add_column t c) s h = ground (arith, h)

abbrev pub Covers : Schema → List Statement → Type 0
Covers s sts = All (λ st. covers s st ≡ true) sts
