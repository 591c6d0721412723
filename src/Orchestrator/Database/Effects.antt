-- ===== src/Orchestrator/Database/Effects.antt =====
-- What the statements of orchestrator/orchestrator/database.py do to a PostgreSQL server.
use director.Prelude.{
  ℕ, ◌≡◌, refl, ap, ◌∙◌, String, Bool, true, false, Bool-cases, ◌&&◌, Option, none, some, ◌==◌, inl,
  inr, ◌⊎◌, eq_iff, eq_refl, eqb, arith, if◌then◌else◌,
}
use director.Prelude.Exec.{ok, err, pure}
use director.Orchestrator.Database.{
  Statement, select_user, select_database, create_user, alter_user, create_db, grant_database,
  grant_schema, revoke_schema, drop_user, drop_force, drop_db, sql_error, Cursor, DbInfo, send,
  create_postgres, delete_postgres,
}

-- The users with their passwords, and the databases.
pub record View : Type 0 where
  pub passwords : String → Option String
  pub databases : String → Bool

abbrev pub set_password : String → Option String → View → View
set_password name o v = record v { passwords = λ n. if n == name then o else v.passwords n }

abbrev pub set_database : String → Bool → View → View
set_database name b v = record v { databases = λ n. if n == name then b else v.databases n }

abbrev pub is_user : View → String → Bool
is_user v name = elim (v.passwords name) [ none ↦ false | some p ↦ true ]

-- What a statement does; none where the server refuses it.
abbrev pub effect : Statement → View → Option View
effect (create_user name password) v =
    if is_user v name then none else some (set_password name (some password) v)
effect (alter_user name password) v =
    if is_user v name then some (set_password name (some password) v) else none
effect (create_db name owner) v = if v.databases name then none else some (set_database name true v)
effect (grant_database name user) v = if v.databases name && is_user v user then some v else none
effect (grant_schema user) v = if is_user v user then some v else none
effect (revoke_schema user) v = if is_user v user then some v else none
effect (drop_user user) v = some (set_password user none v)
effect (drop_force name) v = some (set_database name false v)
effect (drop_db name) v = some (set_database name false v)
effect _ v = some v

abbrev pub rows : Statement → View → ℕ
rows (select_user name) v = if is_user v name then 1 else 0
rows (select_database name) v = if v.databases name then 1 else 0
rows _ v = 0

-- A server that knows `DROP DATABASE … WITH (FORCE)` and answers as it is documented.
pub record IsPostgres {W : Type 0} (cursor : Cursor W) (view : W → View) : Type 0 where
  pub accepts :
      (s : Statement) (w : W) (v : View)
      → effect s (view w) ≡ some v
      → (w' : W) × (cursor.execute s w ≡ (ok (rows s (view w)), w')) × (view w' ≡ v)
  pub refuses :
      (s : Statement) (w : W)
      → effect s (view w) ≡ none
      → (code : String) × (cursor.execute s w ≡ (err (sql_error code), w))

chosen :
    (b : Bool) (password : String) (o : Option String)
    → b ≡ true
    → elim (if b then some password else o) [ none ↦ false | some p ↦ true ] ≡ true
chosen true password o h = refl
chosen false password o h = ground arith

module _ {W : Type 0} (cursor : Cursor W) (view : W → View) (server : IsPostgres cursor view) where
  send-effect :
      (s : Statement) (w : W) (v : View)
      → effect s (view w) ≡ some v
      → (w' : W) × (send cursor s w ≡ (ok tt, w')) × (view w' ≡ v)
  send-effect s w v e = let (w', x, q) = server.accepts s w v e in (w', rw x refl, q)

  -- From any state of a server that answers as it is documented: the deletion of the database of a site drops the database.
  -- Where its user is there, it succeeds, and the user is dropped too; where the user is not there, it
  -- fails, and nothing else has changed.
  pub delete_postgres-effect :
      (info : DbInfo) (w : W)
      → let dropped = set_database info.db_name false (view w) in
        ((is_user (view w) info.username ≡ true)
          × ((w' : W) × (delete_postgres cursor info w ≡ (ok tt, w'))
              × (view w' ≡ set_password info.username none dropped)))
        ⊎ ((is_user (view w) info.username ≡ false)
            × ((w' : W) × (code : String) × (delete_postgres cursor info w
                  ≡ (err (sql_error code), w'))
                × (view w' ≡ dropped)))
  unfolding delete_postgres
  delete_postgres-effect info w =
      let (w1, x1, q1) = send-effect (drop_force info.db_name) w _ refl in
      elim (Bool-cases (is_user (view w) info.username)) [
        | inl u ↦
            let (w2, x2, q2) =
              send-effect (revoke_schema info.username) w1 (view w1) (rw (q1, u) refl) in
            let (w3, x3, q3) = send-effect (drop_user info.username) w2 _ refl in
            inl (u, (w3, rw (x1, x2, x3) refl, q3 ∙ ap (set_password info.username none) (q2 ∙ q1)))
        | inr u ↦
            let (code, x2) = server.refuses (revoke_schema info.username) w1 (rw (q1, u) refl) in
            inr (u, (w1, code, rw (x1, x2) refl, q1))
      ]

  -- The user has the password, whether the user was there or not.
  put_user :
      (info : DbInfo) (w w0 : W)
      → view w0 ≡ view w
      → (w1 : W) × ((if eqb (rows (select_user info.username) (view w)) 0
              then send cursor (create_user info.username info.password)
              else send cursor (alter_user info.username info.password))
            w0
          ≡ (ok tt, w1))
        × (view w1 ≡ set_password info.username (some info.password) (view w))
  put_user info w w0 q = elim (Bool-cases (is_user (view w) info.username)) [
    | inl u ↦
        let (w1, x, q1) =
          send-effect (alter_user info.username info.password) w0
            (set_password info.username (some info.password) (view w)) (rw (q, u) refl) in
        (w1, rw (u, x) refl, q1)
    | inr u ↦
        let (w1, x, q1) =
          send-effect (create_user info.username info.password) w0
            (set_password info.username (some info.password) (view w)) (rw (q, u) refl) in
        (w1, rw (u, x) refl, q1)
  ]

  -- The database is there, whether it was there or not.
  put_database :
      (info : DbInfo) (w w0 : W)
      → view w0 ≡ view w
      → (w1 : W) × ((if eqb (rows (select_database info.db_name) (view w)) 0
              then send cursor (create_db info.db_name info.admin_username)
              else pure tt)
            w0
          ≡ (ok tt, w1))
        × ((view w1).passwords ≡ (view w).passwords)
        × ((n : String)
            → (view w1).databases n ≡ (if n == info.db_name then true else (view w).databases n))
  put_database info w w0 q = elim (Bool-cases ((view w).databases info.db_name)) [
    | inl d ↦ (w0, rw d refl, ap (λ v. v.passwords) q, λ n. ap (λ v. v.databases n) q ∙ there d n)
    | inr d ↦
        let (w1, x, q1) =
          send-effect (create_db info.db_name info.admin_username) w0
            (set_database info.db_name true (view w)) (rw (q, d) refl) in
        (w1, rw (d, x) refl, ap (λ v. v.passwords) q1, λ n. ap (λ v. v.databases n) q1)
  ]
    where
      there :
          (view w).databases info.db_name ≡ true
          → (n : String)
          → (view w).databases n ≡ (if n == info.db_name then true else (view w).databases n)
      there d n = elim (Bool-cases (n == info.db_name)) [
        | inl e ↦ rw (e, (eq_iff n info.db_name).0 e) d
        | inr f ↦ rw f refl
      ]

  -- From any state of a server that answers as it is documented: the creation of the database of a site succeeds, whether
  -- its user and the database are there or not; after it the user has the password, the database is there,
  -- and no other user and no other database has changed.
  pub create_postgres-effect :
      (info : DbInfo) (w : W)
      → (w' : W) × (create_postgres cursor info w ≡ (ok tt, w'))
        × ((view w').passwords
            ≡ (set_password info.username (some info.password) (view w)).passwords)
        × ((n : String)
            → (view w').databases n ≡ (if n == info.db_name then true else (view w).databases n))
  unfolding create_postgres
  create_postgres-effect info w =
      let (w1, x1, q1) = server.accepts (select_user info.username) w (view w) refl in
      let (w2, x2, q2) = put_user info w w1 q1 in
      let (w3, x3, q3) = server.accepts (select_database info.db_name) w2 (view w2) refl in
      let (w4, x4, p4, d4) = put_database info w2 w3 q3 in
      let passwords : (view w4).passwords
          ≡ (set_password info.username (some info.password) (view w)).passwords =
        p4 ∙ ap (λ v. v.passwords) q2 in
      let user : is_user (view w4) info.username ≡ true =
        ap (λ f. elim (f info.username) [ none ↦ false | some p ↦ true ]) passwords
        ∙ chosen _ info.password _ (eq_refl info.username) in
      let database : (view w4).databases info.db_name ≡ true =
        d4 info.db_name ∙ rw (eq_refl info.db_name) refl in
      let (w5, x5, q5) =
        send-effect (grant_database info.db_name info.username) w4 (view w4)
          (rw (user, database) refl) in
      let (w6, x6, q6) =
        send-effect (grant_schema info.username) w5 (view w4) (rw (q5, user) refl) in
      (
        w6,
        rw (x1, x2, x3, x4, x5, x6) refl,
        ap (λ v. v.passwords) q6 ∙ passwords,
        λ n. ap (λ v. v.databases n) q6 ∙ d4 n ∙ rw q2 refl,
      )
