-- ===== src/Dump/Postgres/Snapshot.antt =====
-- `snapshot_postgresql` of apps/_tasks/integration/backup/postgresql.py, composed of its parts.
use backupsheep.Prelude.{
  ℕ, ◌*◌, Bool, true, false, List, [], ◌∷◌, ◌++◌, Option, none, some, ◌==◌, ltb, if◌then◌else◌,
}
use backupsheep.Prelude.Text.{codes}
use backupsheep.Model.Status.{BackupStatus}
use backupsheep.Model.Rows.{Text, PathType}
use backupsheep.Dump.{pgpass_line, option_line, remote_pg_dump, local_pg_dump}
use backupsheep.Dump.Postgres.{
  Written, Database, Login, Server, Run, Outcome, and_then, on_value, each, check, send,
  ssh_dump_to_file, run_direct_dump, psql_command, listed_by, is_safe, or_none, is_guarded, shown,
  sql_file,
}

abbrev pub is_selected : List Text → Bool
is_selected [] = false
is_selected (t ∷ ts) = true

-- A dump of one database, or of one table of it, over SSH
unfoldable pub ssh_dump :
    Server → Text → Login → Text → Text → Text → Option Text → Text → Run → Outcome
unfolding ssh_dump_to_file remote_pg_dump sql_file
ssh_dump server name login username options database table file =
    ssh_dump_to_file server (remote_pg_dump name login.auth username options database table)
      (sql_file file)

unfoldable pub ssh_run_capture : Server → Text → Run → Outcome
unfolding on_value check send
ssh_run_capture server command r =
    on_value (server.over_ssh command) (λ reply. check (reply.exit_status == 0)) (send command r)

-- The database that `psql` connects to
unfoldable pub first_database : Option Text → Text
first_database none = codes "postgres"
first_database (some []) = codes "postgres"
first_database (some (c ∷ cs)) = c ∷ cs

-- A database that `psql` lists
unfoldable pub ssh_dump_listed : Server → Text → Login → Text → Text → Text → Run → Outcome
unfolding and_then check ssh_dump is_safe
ssh_dump_listed server name login username options database r =
    and_then (check (is_safe (some database)) r)
      (ssh_dump server name login username options database none database)

-- `if not databases: raise`, and the loop
unfoldable pub ssh_dump_each : Server → Text → Login → Text → Text → List Text → Run → Outcome
unfolding and_then each check ssh_dump_listed
ssh_dump_each server name login username options databases r =
    and_then (check (is_selected databases) r)
      (each (ssh_dump_listed server name login username options) databases)

unfoldable pub ssh_dump_all : Server → Text → Login → Text → Text → Run → Outcome
unfolding and_then ssh_dump_each ssh_run_capture first_database psql_command listed_by
ssh_dump_all server name login username options r =
    let command = psql_command name login username (first_database login.database_name) in
    and_then (ssh_run_capture server command r)
      (ssh_dump_each server name login username options (listed_by server command))

-- The four cases of what a node selects; nothing is dumped if none of them holds.
unfoldable pub ssh_dump_selected : Server → Text → Login → Database → Text → Text → Run → Outcome
unfolding each ssh_dump ssh_dump_all shown
ssh_dump_selected server name login db username options r =
    let database = shown login.database_name in
    if db.all_databases
    then ssh_dump_all server name login username options r
    else if is_selected (or_none db.databases)
    then each (λ t. ssh_dump server name login username options t none t) (or_none db.databases) r
    else if db.all_tables
    then ssh_dump server name login username options database none database r
    else if is_selected (or_none db.tables)
    then each (λ t. ssh_dump server name login username options database (some t) t)
        (or_none db.tables) r
    else Outcome.returned r

-- `_sftp_write_remote_file` of the password file
unfoldable pub write_password_file : Written → Run → Outcome
write_password_file Written.not_created r = Outcome.raised r
write_password_file Written.left_behind r = Outcome.raised (record r { holds_password = true })
write_password_file Written.complete r = Outcome.returned (record r { holds_password = true })

unfoldable pub remove_from_server : Bool → Text → Run → Run
unfolding send
remove_from_server removes name r = record (send (codes "rm -f ~/" ++ name) r) {
  holds_password = if removes then false else r.holds_password;
}

-- `finally`: the password file is removed.
unfoldable pub remove_password_file : Bool → Text → Outcome → Outcome
unfolding remove_from_server
remove_password_file removes name (Outcome.returned r) =
    Outcome.returned (remove_from_server removes name r)
remove_password_file removes name (Outcome.raised r) =
    Outcome.raised (remove_from_server removes name r)

unfoldable pub dump_over_ssh : Server → Text → Login → Database → Text → Text → Text → Run → Outcome
unfolding and_then check ssh_dump_selected write_password_file remove_password_file pgpass_line
dump_over_ssh server name login db username password options r =
    and_then (check server.ssh_opens r) (λ s. remove_password_file server.removes name (
      and_then (write_password_file (server.writes (pgpass_line login.auth username password)) s)
        (ssh_dump_selected server name login db username options)))

-- A dump of the database of the login, or of one table of it, by the local program. Without a
-- database, the argument list has a None in it.
unfoldable pub direct_dump : Server → Login → Text → Text → Option Text → Text → Run → Outcome
unfolding on_value run_direct_dump local_pg_dump sql_file
direct_dump server login username options table file = on_value login.database_name (λ database.
    run_direct_dump server
      (local_pg_dump server.bin_path login.auth username options database table) (sql_file file))

unfoldable pub dump_directly : Server → Login → Database → Text → Text → Run → Outcome
unfolding on_value each direct_dump shown
dump_directly server login db username options r =
    if db.all_tables
    then direct_dump server login username options none (shown login.database_name) r
    else on_value db.tables (each (λ t. direct_dump server login username options (some t) t)) r

-- The decrypted credentials, the guards and the dumps
unfoldable pub dump_as : Server → Text → Login → Database → Text → Run → Outcome
unfolding on_value and_then check is_guarded dump_over_ssh dump_directly
dump_as server name login db options = on_value login.username (λ username.
    on_value login.password (λ password r.
      and_then (check (is_guarded login db username password) r) (λ s.
        if login.use_key
        then dump_over_ssh server name login db username password options s
        else dump_directly server login db username options s)))

-- `if path.exists(local_zip)`
unfoldable pub save_size : Option ℕ → Run → Outcome
save_size none r = Outcome.returned r
save_size (some n) r =
    Outcome.returned (record r { size = some n; status = BackupStatus.download_complete })

-- The archive of the dumps, and the size of the backup
unfoldable pub archive : Server → Run → Outcome
unfolding on_value save_size
archive server r = on_value (server.zipped r.files) save_size r

-- `int(max(2 * (last.size if last and last.size else 0), 1 << 30))`
unfoldable pub needed_space : Option ℕ → ℕ
needed_space none = 1073741824
needed_space (some n) = if ltb 1073741824 (2 * n) then 2 * n else 1073741824

-- The options are saved on the row, the connection is checked, and the node is dumped.
unfoldable pub dump_with : Server → Text → Login → Database → Text → Run → Outcome
unfolding and_then check dump_as
dump_with server name login db options r =
    and_then (check server.connects (record r { option_postgres = some options }))
      (dump_as server name login db options)

-- The body of the `try`, up to the report
unfoldable pub dump_node : Server → Text → Login → Database → Run → Outcome
unfolding and_then check on_value needed_space option_line dump_with
dump_node server name login db r =
    and_then (check (server.has_space (needed_space server.last_size)) r)
      (on_value (option_line db.option_postgres) (dump_with server name login db))

-- `except`, and the deletion after success
unfoldable pub delete_after : Outcome → Outcome
delete_after (Outcome.returned r) =
    Outcome.returned (record r { deleted = PathType.dir ∷ r.deleted })
delete_after (Outcome.raised r) = Outcome.raised (record r { deleted = PathType.both ∷ r.deleted })

unfoldable pub password_file : Text → Text
password_file uuid = codes "bs_" ++ (uuid ++ codes ".pgpass")

-- The `try` block and what follows it
unfoldable pub snapshot_begun : Server → Text → Login → Database → Run → Outcome
unfolding delete_after and_then dump_node archive password_file
snapshot_begun server uuid login db r =
    delete_after (and_then (dump_node server (password_file uuid) login db r) (archive server))

-- The directory and the log stand before the `try`.
unfoldable pub snapshot_postgresql : Server → Text → Login → Database → Run → Outcome
unfolding and_then check snapshot_begun
snapshot_postgresql server uuid login db r =
    and_then (check server.prepares (record r { status = BackupStatus.download_in_progress }))
      (snapshot_begun server uuid login db)
