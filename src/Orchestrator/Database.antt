-- ===== src/Orchestrator/Database.antt =====
-- orchestrator/orchestrator/database.py: the databases of the sites and their users.
use director.Prelude.{
  ℕ, String, Bool, true, false, ◌||◌, Option, none, some, List, [], ◌∷◌, ◌==◌, eqb, any,
  if◌then◌else◌,
}
use director.Prelude.Text.{◌⊕◌}
use director.Prelude.Exec.{Result, ok, err, Exec, pure, raise, try_except, ◌>>=◌, ◌>>◌}
pub mod Effects
mod Tests

-- The statements that the code sends to PostgreSQL, with their names quoted and their values bound.
pub data Statement : Type 0 where
  select_user select_database : (name : String) → Statement
  create_user alter_user : (name password : String) → Statement
  create_db : (name owner : String) → Statement
  grant_database : (name user : String) → Statement
  grant_schema revoke_schema drop_user : (user : String) → Statement
  drop_force disallow_connections terminate_backends drop_db : (name : String) → Statement

-- An error of the server, with its code, and a `ValueError`.
pub data DbError : Type 0 where
  sql_error value_error : String → DbError

-- A cursor of the administrator over the state `W` of the servers: a statement gives `cursor.rowcount`. For MySQL a
-- statement is a text and the values for its `%s`.
pub record Cursor (W : Type 0) : Type 0 where
  pub connect : (dbms : String) → Exec DbError W (Unit {0})
  pub execute : Statement → Exec DbError W ℕ
  pub execute_text : String → List String → Exec DbError W ℕ
  pub commit : Exec DbError W (Unit {0})

pub record DbInfo : Type 0 where
  pub db_type : String
  pub db_name : String
  pub username : String
  pub password : String
  pub admin_username : String

module _ {W : Type 0} (cursor : Cursor W) where
  abbrev pub send : Statement → Exec DbError W (Unit {0})
  send s = cursor.execute s >>= λ rows. pure tt

  abbrev send_text : String → List String → Exec DbError W (Unit {0})
  send_text s values = cursor.execute_text s values >>= λ rows. pure tt

  -- SYNTAX_ERROR, FEATURE_NOT_SUPPORTED and OBJECT_IN_USE.
  abbrev fallback_codes : List String
  fallback_codes = "42601" ∷ "0A000" ∷ "55006" ∷ []

  abbrev drop_slowly : String → DbError → Exec DbError W (Unit {0})
  drop_slowly name (value_error e) = raise (value_error e)
  drop_slowly name (sql_error code) =
      if any (λ c. c == code) fallback_codes
      then (cursor.execute (select_database name) >>= λ rows.
          if eqb rows 0
          then pure tt
          else send (disallow_connections name)
            >> send (terminate_backends name)
            >> send (drop_db name))
      else raise (sql_error code)

  unfoldable pub drop_postgres_database_force : String → Exec DbError W (Unit {0})
  drop_postgres_database_force name = try_except (send (drop_force name)) (drop_slowly name)

  unfoldable pub create_postgres : DbInfo → Exec DbError W (Unit {0})
  create_postgres info = cursor.execute (select_user info.username) >>= (λ users.
      (if eqb users 0
        then send (create_user info.username info.password)
        else send (alter_user info.username info.password))
      >> (cursor.execute (select_database info.db_name) >>= (λ databases.
          (if eqb databases 0 then send (create_db info.db_name info.admin_username) else pure tt)
          >> send (grant_database info.db_name info.username)
          >> send (grant_schema info.username))))

  unfoldable pub delete_postgres : DbInfo → Exec DbError W (Unit {0})
  unfolding drop_postgres_database_force
  delete_postgres info =
      drop_postgres_database_force info.db_name
      >> send (revoke_schema info.username)
      >> send (drop_user info.username)

  -- `clean` is `mysql_clean_identifier`, which drops all but letters, digits and underscores of ASCII.
  unfoldable pub create_mysql : (clean : String → String) → DbInfo → Exec DbError W (Unit {0})
  create_mysql clean info =
      let user = clean info.username in
      let name = clean info.db_name in
      (cursor.execute_text "SELECT 1 FROM mysql.user WHERE user = %s;" (user ∷ []) >>= λ users.
      if eqb users 0
      then send_text ("CREATE USER '" ⊕ user ⊕ "'@'%%' IDENTIFIED BY %s;") (info.password ∷ [])
      else send_text ("SET PASSWORD FOR " ⊕ user ⊕ "@'%%' = PASSWORD(%s);") (info.password ∷ []))
      >> send_text ("CREATE DATABASE IF NOT EXISTS " ⊕ name) []
      >> send_text ("GRANT ALL ON " ⊕ name ⊕ " . * TO " ⊕ user ⊕ ";") []
      >> send_text "FLUSH PRIVILEGES;" []

  unfoldable pub delete_mysql : (clean : String → String) → DbInfo → Exec DbError W (Unit {0})
  delete_mysql clean info =
      send_text ("DROP DATABASE IF EXISTS " ⊕ clean info.db_name ⊕ ";") []
      >> send_text ("DROP USER IF EXISTS " ⊕ clean info.username ⊕ "@'%%';") []

  -- `open_admin_cursor`: PostgreSQL commits by itself, MySQL behind a block that did not fail.
  abbrev pub by_type :
      String → Exec DbError W (Unit {0}) → Exec DbError W (Unit {0}) → Exec DbError W (Unit {0})
  by_type db_type on_postgres on_mysql =
      if db_type == "postgres"
      then cursor.connect db_type >> on_postgres
      else if db_type == "mysql"
      then cursor.connect db_type >> on_mysql >> cursor.commit
      else raise (value_error ("Unknown DBMS '" ⊕ db_type ⊕ "'"))

  unfoldable pub create_database : (clean : String → String) → DbInfo → Exec DbError W (Unit {0})
  unfolding create_postgres create_mysql
  create_database clean info = by_type info.db_type (create_postgres info) (create_mysql clean info)

  unfoldable pub delete_database : (clean : String → String) → DbInfo → Exec DbError W (Unit {0})
  unfolding delete_postgres delete_mysql
  delete_database clean info = by_type info.db_type (delete_postgres info) (delete_mysql clean info)
