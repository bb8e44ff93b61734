-- ===== src/Store/Schema/Again.antt =====
-- A migration of internal/storage/sqlite.go that has succeeded changes nothing when it is made again.

mod Examples
use google_in_a_day_crawler.Base.{
  Bool-cases, ◌⊎◌, subst, sym, ◌≢◌, ℕ, ◌≡◌, ◌∙◌, ap, refl, Bool, true, false, List, [], ◌∷◌, arith,
  Text, length, inl, inr, All,
}
use google_in_a_day_crawler.Store.Schema.{
  Schema, Statement, create_table, create_index, add_column, Result, made, duplicate, broken, exec,
  exec_all, alter_all, schema, alter_stmts, resume_schema, MigrateOutcomes, and_then, migrate,
}
use google_in_a_day_crawler.Store.Schema.Covering.{covers, Covers, exec-again}
use google_in_a_day_crawler.Store.Schema.Migrating.{
  exec_all-made, alter_all-made, alter_all-duplicate, exec_all-covers, alter_all-covers,
  exec_all-all_made, alter_all-all_made,
}

unfoldable is_create : Statement → Bool
is_create (create_table name columns) = true
is_create (create_index name table column) = true
is_create (add_column table column) = false

create-again :
    (st : Statement) (s : Schema)
    → is_create st ≡ true
    → covers s st ≡ true
    → exec true st s ≡ (s, made)
unfolding is_create
create-again (create_table n cs) s c h = exec-again (create_table n cs) s h
create-again (create_index n t i) s c h = exec-again (create_index n t i) s h
create-again (add_column t col) s c h = ground (arith, c)

exec_all-again :
    (ok : ℕ → Bool) (sts : List Statement) (s : Schema)
    → ((n : ℕ) → ok n ≡ true)
    → All (λ st. is_create st ≡ true) sts
    → Covers s sts
    → exec_all ok sts s ≡ (s, true)
unfolding exec_all
exec_all-again ok [] s y c h = refl
exec_all-again ok (st ∷ sts) s y c h =
    let e : exec (ok (length sts)) st s ≡ (s, made) =
      ap (λ b. exec b st s) (y (length sts)) ∙ create-again st s c.0 h.0 in
    exec_all-made ok st sts s (ap (λ r. r.1) e)
    ∙ ap (λ r. exec_all ok sts r.0) e
    ∙ exec_all-again ok sts s y c.1 h.1

alter_all-again :
    (ok : ℕ → Bool) (sts : List Statement) (s : Schema)
    → ((n : ℕ) → ok n ≡ true)
    → Covers s sts
    → alter_all ok sts s ≡ (s, true)
unfolding alter_all
alter_all-again ok [] s y h = refl
alter_all-again ok (create_table n cs ∷ sts) s y h =
    let e : exec (ok (length sts)) (create_table n cs) s ≡ (s, made) =
      ap (λ b. exec b (create_table n cs) s) (y (length sts))
      ∙ exec-again (create_table n cs) s h.0 in
    alter_all-made ok (create_table n cs) sts s (ap (λ r. r.1) e)
    ∙ ap (λ r. alter_all ok sts r.0) e
    ∙ alter_all-again ok sts s y h.1
alter_all-again ok (create_index n t i ∷ sts) s y h =
    let e : exec (ok (length sts)) (create_index n t i) s ≡ (s, made) =
      ap (λ b. exec b (create_index n t i) s) (y (length sts))
      ∙ exec-again (create_index n t i) s h.0 in
    alter_all-made ok (create_index n t i) sts s (ap (λ r. r.1) e)
    ∙ ap (λ r. alter_all ok sts r.0) e
    ∙ alter_all-again ok sts s y h.1
alter_all-again ok (add_column t col ∷ sts) s y h =
    let e : exec (ok (length sts)) (add_column t col) s ≡ (s, duplicate) =
      ap (λ b. exec b (add_column t col) s) (y (length sts))
      ∙ exec-again (add_column t col) s h.0 in
    alter_all-duplicate ok (add_column t col) sts s (ap (λ r. r.1) e)
    ∙ ap (λ r. alter_all ok sts r.0) e
    ∙ alter_all-again ok sts s y h.1

and_then-true :
    (r : Schema × Bool) (next : Schema → Schema × Bool)
    → (and_then r next).1 ≡ true
    → (r.1 ≡ true) × (and_then r next ≡ next r.0)
unfolding and_then
and_then-true (s, true) next h = (refl, refl)
and_then-true (s, false) next h = ground (arith, h)

All-weaken :
    (s t : Schema) (sts : List Statement)
    → ((st : Statement) → covers s st ≡ true → covers t st ≡ true)
    → Covers s sts
    → Covers t sts
All-weaken s t [] k h = tt
All-weaken s t (st ∷ sts) k h = (k st h.0, All-weaken s t sts k h.1)

-- The three parts of a migration that succeeds.
migrate-parts :
    (o : MigrateOutcomes) (s : Schema)
    → (migrate o s).1 ≡ true
    → let first = exec_all o.created schema s in
      let second = alter_all o.altered alter_stmts first.0 in
      let third = exec_all o.resumed resume_schema second.0 in
      (first.1 ≡ true) × (second.1 ≡ true) × (third.1 ≡ true) × (migrate o s ≡ third)
unfolding migrate
migrate-parts o s h =
    let first = exec_all o.created schema s in
    let two = and_then first (alter_all o.altered alter_stmts) in
    let outer = and_then-true two (exec_all o.resumed resume_schema) h in
    let inner = and_then-true first (alter_all o.altered alter_stmts) outer.0 in
    let e = outer.1 ∙ ap (λ r. exec_all o.resumed resume_schema r.0) inner.1 in
    (inner.0, sym (ap (λ r. r.1) inner.1) ∙ outer.0, sym (ap (λ r. r.1) e) ∙ h, e)

-- What each part made is there at the end.
migrate-Covers :
    (o : MigrateOutcomes) (s : Schema)
    → (migrate o s).1 ≡ true
    → let t = (migrate o s).0 in Covers t schema × Covers t alter_stmts × Covers t resume_schema
migrate-Covers o s h =
    let (a, b, c, e) = migrate-parts o s h in
    let first = (exec_all o.created schema s).0 in
    let second = (alter_all o.altered alter_stmts first).0 in
    let third = (exec_all o.resumed resume_schema second).0 in
    let keep = exec_all-covers o.resumed resume_schema second in
    subst (λ r. Covers r.0 schema × Covers r.0 alter_stmts × Covers r.0 resume_schema) (sym e)
      (
        All-weaken second third schema keep (
            All-weaken first second schema (alter_all-covers o.altered alter_stmts first)
              (exec_all-all_made o.created schema s a)),
        All-weaken second third alter_stmts keep (alter_all-all_made o.altered alter_stmts first b),
        exec_all-all_made o.resumed resume_schema second c,
      )

schema-creates : All (λ st. is_create st ≡ true) schema
unfolding schema is_create
schema-creates = (refl, (refl, (refl, (refl, (refl, (refl, (refl, tt)))))))

resume_schema-creates : All (λ st. is_create st ≡ true) resume_schema
unfolding resume_schema is_create
resume_schema-creates = (refl, (refl, tt))

-- What holds before a migration that succeeds holds behind it.
migrate-keeps :
    (o : MigrateOutcomes) (s : Schema) (other : Statement)
    → (migrate o s).1 ≡ true
    → covers s other ≡ true
    → covers (migrate o s).0 other ≡ true
migrate-keeps o s other h c =
    let (a, b, d, e) = migrate-parts o s h in
    let first = (exec_all o.created schema s).0 in
    let second = (alter_all o.altered alter_stmts first).0 in
    ap (λ r. covers r.0 other) e
    ∙ exec_all-covers o.resumed resume_schema second other (
        alter_all-covers o.altered alter_stmts first other
          (exec_all-covers o.created schema s other c))

-- Behind a migration that returns no error there are, whatever the file held before, a table of each name
-- of the schema, the two added columns and the two indexes, and no table, index or column that was there
-- is gone; the columns of a table that stood there before are not compared with those of the schema. A
-- further migration whose statements do not fail for another reason returns no error and changes nothing.
pub migrate_twice :
    (o o' : MigrateOutcomes) (s : Schema) (other : Statement)
    → ((n : ℕ) → o'.created n ≡ true)
    → ((n : ℕ) → o'.altered n ≡ true)
    → ((n : ℕ) → o'.resumed n ≡ true)
    → (migrate o s).1 ≡ true
    → let t = (migrate o s).0 in
      Covers t schema
      × Covers t alter_stmts
      × Covers t resume_schema
      × ((covers s other ≡ false) ⊎ (covers t other ≡ true))
      × (migrate o' t ≡ (t, true))
unfolding migrate and_then
migrate_twice o o' s other c a r h =
    let t = (migrate o s).0 in
    let (p, q, w) = migrate-Covers o s h in
    (
      p,
      q,
      w,
      elim (Bool-cases (covers s other)) [
        | inl y ↦ inr (migrate-keeps o s other h y)
        | inr n ↦ inl n
      ],
      rw
          (
            exec_all-again o'.created schema t c schema-creates p,
            alter_all-again o'.altered alter_stmts t a q,
            exec_all-again o'.resumed resume_schema t r resume_schema-creates w,
          )
          refl,
    )
