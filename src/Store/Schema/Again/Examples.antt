-- ===== src/Store/Schema/Again/Examples.antt =====
-- The migration of a file from before the resumption of sessions, and a witness.
use google_in_a_day_crawler.Base.{
  ◌⊎◌, ◌≡◌, refl, true, false, [], ◌∷◌, codes, Text_discrete, contains,
}
use google_in_a_day_crawler.Store.Schema.{
  Schema, schema, alter_stmts, resume_schema, MigrateOutcomes, migrate, Statement, add_column,
  create_index, exec, broken, has_column,
}
use google_in_a_day_crawler.Store.Schema.Covering.{covers, Covers}
use google_in_a_day_crawler.Store.Schema.Again.{migrate_twice}

abbrev older : Schema
older = record {
  tables =
      record { name = codes "queue"; columns = codes "id" ∷ codes "url" ∷ codes "depth" ∷ [] } ∷ [];
  indexes = [];
}

abbrev all_made : MigrateOutcomes
all_made = record { created = λ n. true; altered = λ n. true; resumed = λ n. true }

-- The first statement fails.
abbrev none_made : MigrateOutcomes
none_made = record all_made { created = λ n. false }

older_succeeds : (migrate all_made older).1 ≡ true
unfolding migrate schema alter_stmts resume_schema Text_discrete contains
older_succeeds = refl

older_gets_column :
    has_column (codes "queue") (codes "session_id") (migrate all_made older).0.tables ≡ true
unfolding migrate schema alter_stmts resume_schema has_column Text_discrete contains
older_gets_column = refl

failure_is_returned : migrate none_made older ≡ (older, false)
unfolding migrate schema
failure_is_returned = refl

abbrev older_column : Statement
older_column = add_column (codes "queue") (codes "depth")

-- An index on a column that is missing fails.
index_wants_column :
    exec true (create_index (codes "i") (codes "queue") (codes "session_id")) older
    ≡ (older, broken)
unfolding exec Text_discrete contains
index_wants_column = refl

migrate_twice_example :
    let t = (migrate all_made older).0 in
    Covers t schema
    × Covers t alter_stmts
    × Covers t resume_schema
    × ((covers older older_column ≡ false) ⊎ (covers t older_column ≡ true))
    × (migrate all_made t ≡ (t, true))
migrate_twice_example =
    migrate_twice all_made all_made older older_column (λ n. refl) (λ n. refl) (λ n. refl)
      older_succeeds
