-- ===== src/Orchestrator/Database/Tests.antt =====
-- Runs of the model of orchestrator/orchestrator/database.py, and its properties at concrete inputs.
use director.Prelude.{
  ℕ, ◌≡◌, refl, ap, String, true, false, Option, none, some, ◌==◌, if◌then◌else◌,
}
use director.Prelude.Exec.{Result, ok, err}
use director.Orchestrator.Database.{
  Statement, DbError, sql_error, Cursor, DbInfo, create_postgres, delete_postgres,
}
use director.Orchestrator.Database.Effects.{
  View, effect, rows, set_password, IsPostgres, create_postgres-effect,
}

abbrev answer : Statement → View → Option View → Result DbError ℕ × View
answer s v none = (err (sql_error "42704"), v)
answer s v (some v') = (ok (rows s v), v')

abbrev cursor : Cursor View
cursor = record {
  connect = λ dbms w. (ok tt, w);
  execute = λ s w. answer s w (effect s w);
  execute_text = λ s values w. (ok 0, w);
  commit = λ w. (ok tt, w);
}

cursor-IsPostgres : IsPostgres cursor (λ w. w)
cursor-IsPostgres = record {
  accepts = λ s w v e. (v, ap (answer s w) e, refl);
  refuses = λ s w e. ("42704", ap (answer s w) e);
}

abbrev info : DbInfo
info = record {
  db_type = "postgres";
  db_name = "site_7";
  username = "site_7";
  password = "pw";
  admin_username = "admin";
}

abbrev empty : View
empty = record { passwords = λ n. none; databases = λ n. false }

create_postgres-effect_example :
    (w' : View) × (create_postgres cursor info empty ≡ (ok tt, w'))
    × (w'.passwords ≡ (set_password "site_7" (some "pw") empty).passwords)
    × ((n : String) → w'.databases n ≡ (if n == "site_7" then true else false))
create_postgres-effect_example = create_postgres-effect cursor (λ w. w) cursor-IsPostgres info empty

-- A second deletion fails.
twice_test :
    let w = (delete_postgres cursor info (create_postgres cursor info empty).1).1 in
    (delete_postgres cursor info w).0 ≡ err (sql_error "42704")
unfolding create_postgres delete_postgres
twice_test = refl
