-- ===== src/Dump/Postgres/Dumped.antt =====
-- What a PostgreSQL backup that returns has dumped.
use backupsheep.Prelude.{
  Bool, ℕ, ◌≡◌, inl, inr, refl, sym, false, List, [], ◌∷◌, Option, none, some, if◌then◌else◌,
  Bool-cases,
}
use mathlib.Core.Path.{subst}
use backupsheep.Model.Status.{BackupStatus}
use backupsheep.Model.Rows.{Text}
use backupsheep.Dump.{option_line, pgpass_line}
use backupsheep.Dump.Postgres.{
  Database, Login, Server, Run, Outcome, is_guarded, and_then, each, on_value, check, psql_command,
  listed_by, or_none, is_safe, shown, sql_file, send,
}
use backupsheep.Dump.Postgres.Snapshot.{
  is_selected, ssh_dump, ssh_run_capture, first_database, ssh_dump_listed, ssh_dump_each,
  ssh_dump_all, ssh_dump_selected, write_password_file, remove_from_server, remove_password_file,
  snapshot_begun, dump_over_ssh, direct_dump, dump_directly, dump_as, archive, save_size, dump_with,
  dump_node, needed_space, delete_after, password_file, snapshot_postgresql,
}
use backupsheep.Dump.Postgres.Landed.{
  Then, Then-tt, and_then-Then, on_value-Then, IsDump, HasDumps, each_dumps, one_dump,
  run_direct_dump-IsDump, ssh_dump_to_file-IsDump,
}

-- What a node selects over SSH, in the order of the cases
unfoldable pub ssh_selected : Server → Text → Login → Database → Text → List Text
ssh_selected server name login db username =
    if db.all_databases
    then listed_by server (psql_command name login username (first_database login.database_name))
    else if is_selected (or_none db.databases)
    then or_none db.databases
    else if db.all_tables
    then shown login.database_name ∷ []
    else or_none db.tables

-- What a direct backup selects
unfoldable pub directly_selected : Login → Database → List Text
directly_selected login db =
    if db.all_tables then shown login.database_name ∷ [] else or_none db.tables

unselected : (ts : List Text) → is_selected ts ≡ false → ts ≡ []
unselected [] h = refl
unselected (t ∷ ts) h = cc

module _ (server : Server) (name : Text) (login : Login) (username options : Text) where
  ssh_dump-IsDump :
      (database : Text) (table : Option Text) (file : Text) (r : Run)
      → Then
          (IsDump (sql_file file) r)
          (ssh_dump server name login username options database table file r)
  unfolding ssh_dump
  ssh_dump-IsDump database table file r = ssh_dump_to_file-IsDump server _ (sql_file file) r

  ssh_dump_listed-IsDump :
      (t : Text) (r : Run)
      → Then (IsDump (sql_file t) r) (ssh_dump_listed server name login username options t r)
  unfolding ssh_dump_listed check and_then
  ssh_dump_listed-IsDump t r = elim (Bool-cases (is_safe (some t))) [
    | inl e ↦ rw e (ssh_dump-IsDump t none t r)
    | inr e ↦ rw e tt
  ]

  ssh_dump_each-HasDumps :
      (ts : List Text) (r : Run)
      → Then (HasDumps ts) (ssh_dump_each server name login username options ts r)
  unfolding ssh_dump_each check and_then
  ssh_dump_each-HasDumps ts r = elim (Bool-cases (is_selected ts)) [
    | inl e ↦ rw e (
        each_dumps (ssh_dump_listed server name login username options) ts ssh_dump_listed-IsDump r)
    | inr e ↦ rw e tt
  ]

  ssh_dump_selected-HasDumps :
      (db : Database) (r : Run)
      → Then
          (HasDumps (ssh_selected server name login db username))
          (ssh_dump_selected server name login db username options r)
  unfolding ssh_dump_selected ssh_selected ssh_dump_all
  ssh_dump_selected-HasDumps db r =
      let database = shown login.database_name in
      let step : Text → Run → Outcome = λ t. ssh_dump server name login username options t none t in
      let table_step : Text → Run → Outcome =
        λ t. ssh_dump server name login username options database (some t) t in
      let command = psql_command name login username (first_database login.database_name) in
      let databases = listed_by server command in
      elim (Bool-cases db.all_databases) [
        | inl e ↦ rw e (
            and_then-Then (λ s. Unit) (HasDumps databases) (ssh_run_capture server command r)
              (ssh_dump_each server name login username options databases) (Then-tt _)
              (λ s u. ssh_dump_each-HasDumps databases s))
        | inr e ↦ elim (Bool-cases (is_selected (or_none db.databases))) [
          | inl f ↦
              rw (e, f) (each_dumps step (or_none db.databases) (λ t. ssh_dump-IsDump t none t) r)
          | inr f ↦ elim (Bool-cases db.all_tables) [
            | inl g ↦
                rw (e, f, g)
                  (one_dump database r (step database r) (ssh_dump-IsDump database none database r))
            | inr g ↦ elim (Bool-cases (is_selected (or_none db.tables))) [
              | inl d ↦
                  rw (e, f, g, d)
                    (each_dumps table_step (or_none db.tables)
                      (λ t. ssh_dump-IsDump database (some t) t) r)
              | inr d ↦ rw (e, f, g, d, unselected (or_none db.tables) d) tt
            ]
          ]
        ]
      ]

  direct_dump-IsDump :
      (table : Option Text) (file : Text) (r : Run)
      → Then (IsDump (sql_file file) r) (direct_dump server login username options table file r)
  unfolding direct_dump
  direct_dump-IsDump table file r =
      on_value-Then _ login.database_name _ r
        (λ database e. run_direct_dump-IsDump server _ (sql_file file) r)

  dump_directly-HasDumps :
      (db : Database) (r : Run)
      → Then
          (HasDumps (directly_selected login db))
          (dump_directly server login db username options r)
  unfolding dump_directly directly_selected
  dump_directly-HasDumps db r = elim (Bool-cases db.all_tables) [
    | inl e ↦ rw e (
        one_dump (shown login.database_name) r _
          (direct_dump-IsDump none (shown login.database_name) r))
    | inr e ↦ rw e (
        on_value-Then _ db.tables _ r (λ ts same.
          subst
            (λ o.
              Then (HasDumps (or_none o))
                (each (λ t. direct_dump server login username options (some t) t) ts r))
            (sym same) (each_dumps _ ts (λ t. direct_dump-IsDump (some t) t) r)))
  ]

remove_password_file-HasDumps :
    (removes : Bool) (name : Text) (ts : List Text) (o : Outcome)
    → Then (HasDumps ts) o
    → Then (HasDumps ts) (remove_password_file removes name o)
unfolding remove_password_file remove_from_server send
remove_password_file-HasDumps removes name ts (Outcome.returned s) h = h
remove_password_file-HasDumps removes name ts (Outcome.raised s) h = tt

module _ (server : Server) (name : Text) (login : Login) (db : Database) where
  -- What a node selects
  unfoldable pub selected : List Text
  unfolding ssh_selected directly_selected
  selected =
      if login.use_key
      then ssh_selected server name login db (shown login.username)
      else directly_selected login db

  dump_over_ssh-HasDumps :
      (username password options : Text) (r : Run)
      → Then
          (HasDumps (ssh_selected server name login db username))
          (dump_over_ssh server name login db username password options r)
  unfolding dump_over_ssh
  dump_over_ssh-HasDumps username password options r =
      let written = server.writes (pgpass_line login.auth username password) in
      let dumps = ssh_dump_selected server name login db username options in
      and_then-Then (λ s. Unit) (HasDumps _) (check server.ssh_opens r)
        (λ s.
          remove_password_file server.removes name (and_then (write_password_file written s) dumps))
        (Then-tt _)
        (λ s u.
          remove_password_file-HasDumps server.removes name _
            (and_then (write_password_file written s) dumps)
            (and_then-Then (λ s. Unit) (HasDumps _) (write_password_file written s) dumps
              (Then-tt _)
              (λ q v. ssh_dump_selected-HasDumps server name login username options db q)))

  dump_as-HasDumps :
      (options : Text) (r : Run) → Then (HasDumps selected) (dump_as server name login db options r)
  unfolding dump_as selected
  dump_as-HasDumps options r = on_value-Then _ login.username _ r (λ username same.
      on_value-Then _ login.password _ r (λ password e.
        and_then-Then (λ s. Unit) _ (check (is_guarded login db username password) r)
          (λ s.
            if login.use_key
            then dump_over_ssh server name login db username password options s
            else dump_directly server login db username options s)
          (Then-tt _)
          (λ s u. elim (Bool-cases login.use_key) [
            | inl k ↦ rw (k, same) (dump_over_ssh-HasDumps username password options s)
            | inr k ↦ rw k (dump_directly-HasDumps server name login username options db s)
          ])))

  dump_with-HasDumps :
      (options : Text) (r : Run)
      → Then (HasDumps selected) (dump_with server name login db options r)
  unfolding dump_with
  dump_with-HasDumps options r =
      and_then-Then (λ s. Unit) (HasDumps selected)
        (check server.connects (record r { option_postgres = some options }))
        (dump_as server name login db options) (Then-tt _) (λ s u. dump_as-HasDumps options s)

  dump_node-HasDumps : (r : Run) → Then (HasDumps selected) (dump_node server name login db r)
  unfolding dump_node
  dump_node-HasDumps r =
      and_then-Then (λ s. Unit) (HasDumps selected)
        (check (server.has_space (needed_space server.last_size)) r)
        (on_value (option_line db.option_postgres) (dump_with server name login db)) (Then-tt _)
        (λ s u.
          on_value-Then (HasDumps selected) (option_line db.option_postgres)
            (dump_with server name login db) s (λ options e. dump_with-HasDumps options s))

archive-HasDumps :
    (server : Server) (ts : List Text) (r : Run)
    → HasDumps ts r
    → Then (HasDumps ts) (archive server r)
unfolding archive save_size
archive-HasDumps server ts r h =
    on_value-Then (HasDumps ts) (server.zipped r.files) save_size r (λ size e. saved size)
  where
    saved : (size : Option ℕ) → Then (HasDumps ts) (save_size size r)
    saved none = h
    saved (some n) = h

delete_after-HasDumps :
    (ts : List Text) (o : Outcome) → Then (HasDumps ts) o → Then (HasDumps ts) (delete_after o)
unfolding delete_after
delete_after-HasDumps ts (Outcome.returned s) h = h
delete_after-HasDumps ts (Outcome.raised s) h = tt

-- If a PostgreSQL backup returns, each database or table that the node selects has a dump file that is
-- not empty: the databases that `psql` lists, the databases named, the one of the login or the tables
-- named, over SSH, and the one of the login or the tables named otherwise.
pub snapshot_postgresql-HasDumps :
    (server : Server) (uuid : Text) (login : Login) (db : Database) (r : Run)
    → Then
        (HasDumps (selected server (password_file uuid) login db))
        (snapshot_postgresql server uuid login db r)
unfolding snapshot_postgresql snapshot_begun
snapshot_postgresql-HasDumps server uuid login db r =
    let name = password_file uuid in
    let ts = selected server name login db in
    let begun = record r { status = BackupStatus.download_in_progress } in
    and_then-Then (λ s. Unit) (HasDumps ts) (check server.prepares begun)
      (snapshot_begun server uuid login db) (Then-tt _)
      (λ s u.
        delete_after-HasDumps ts (and_then (dump_node server name login db s) (archive server)) (
          and_then-Then (HasDumps ts) (HasDumps ts) (dump_node server name login db s)
            (archive server) (dump_node-HasDumps server name login db s)
            (archive-HasDumps server ts)))
