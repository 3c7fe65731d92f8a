-- ===== src/Examples/Dumps.antt =====
-- The theorems on PostgreSQL dumps, at a server with one table of data.
use backupsheep.Prelude.{
  ℕ, ◌≡◌, refl, Bool, true, false, List, [], ◌∷◌, ◌++◌, Option, none, some, any,
}
use mathlib.Core.List.{cons≢nil}
use backupsheep.Prelude.Text.{codes, show}
use backupsheep.Model.Status.{BackupStatus}
use backupsheep.Model.Rows.{Text}
use backupsheep.Sanitize.{safe_token}
use backupsheep.Dump.{AuthDatabase, split, remote_pg_dump, local_pg_dump, pgpass_line}
use backupsheep.Dump.Words.{IsGuarded, split-remote_pg_dump}
use backupsheep.Dump.Pgpass.{read_fields, read_fields-pgpass_line}
use backupsheep.Dump.Postgres.{Database, Login, Server, Written, Run, Outcome}
use backupsheep.Dump.Postgres.Snapshot.{password_file, snapshot_postgresql}
use backupsheep.Dump.Postgres.Closed.{IsEnded, snapshot_postgresql-IsEnded}
use backupsheep.Dump.Postgres.Landed.{Then, HasDumps}
use backupsheep.Dump.Postgres.Dumped.{selected, snapshot_postgresql-HasDumps}

abbrev auth : AuthDatabase
auth = record { host = codes "db"; port = 54 }

abbrev login : Login
login = record {
  auth = auth;
  database_name = some (codes "shop");
  username = some (codes "me");
  password = some (codes "a:b");
  use_key = true;
}

-- One table is selected.
abbrev items : Database
items = record {
  all_databases = false;
  all_tables = false;
  databases = none;
  tables = some (codes "items" ∷ []);
  option_postgres = none;
}

-- Each command prints one line, with the exit code `n`.
abbrev answering : ℕ → Server
answering n = record {
  last_size = none;
  has_space = λ need. true;
  connects = true;
  bin_path = [];
  ssh_opens = true;
  writes = λ t. Written.complete;
  removes = true;
  prepares = true;
  over_ssh = λ command. some (record { exit_status = n; out = codes "x" });
  run_local = λ argv. none;
  zipped = λ files. some (some 9);
}

abbrev before : Run
before = record {
  status = BackupStatus.in_progress;
  option_postgres = none;
  size = none;
  files = [];
  sent = [];
  deleted = [];
  holds_password = false;
}

db-IsGuarded : IsGuarded (codes "db")
unfolding safe_token any
db-IsGuarded = (cons≢nil, refl)

split-remote_pg_dump_example :
    split (remote_pg_dump (codes "db") auth (codes "db") (codes "-w  --clean") (codes "db") none)
    ≡ (codes "PGPASSFILE=~/" ++ codes "db")
      ∷ local_pg_dump [] auth (codes "db") (codes "-w  --clean") (codes "db") none
split-remote_pg_dump_example =
    split-remote_pg_dump (codes "db") auth (codes "db") (codes "-w  --clean") (codes "db") none
      db-IsGuarded db-IsGuarded db-IsGuarded db-IsGuarded tt

read_fields-pgpass_line_example :
    read_fields false (pgpass_line auth (codes "me") (codes "a:"))
    ≡ codes "db" ∷ show 54 ∷ codes "*" ∷ codes "me" ∷ codes "a:" ∷ []
read_fields-pgpass_line_example =
    read_fields-pgpass_line auth (codes "me") (codes "a:") (refl, (refl, tt)) (refl, (refl, tt))
      (refl, (refl, tt))

-- A server on which the mode of the password file cannot be set
abbrev refusing : Server
refusing = record (answering 0) { writes = λ t. Written.left_behind }

snapshot_postgresql-IsEnded_example :
    IsEnded true
      (password_file (codes "u"))
      before
      (snapshot_postgresql refusing (codes "u") login items before)
snapshot_postgresql-IsEnded_example =
    snapshot_postgresql-IsEnded refusing (codes "u") login items before refl refl

snapshot_postgresql-HasDumps_example :
    Then
      (HasDumps (selected (answering 0) (password_file (codes "u")) login items))
      (snapshot_postgresql (answering 0) (codes "u") login items before)
snapshot_postgresql-HasDumps_example =
    snapshot_postgresql-HasDumps (answering 0) (codes "u") login items before

-- A backup of the table returns, with one dump, and one of a server that fails is raised.
abbrev ends : Outcome → Option (List Text)
ends (Outcome.returned s) = some (names s.files)
  where
    names : List (Text × Text) → List Text
    names [] = []
    names ((file, t) ∷ fs) = file ∷ names fs
ends (Outcome.raised s) = none

dumped_items :
    ends (snapshot_postgresql (answering 0) (codes "u") login items before)
    ≡ some (codes "items.sql" ∷ [])
unfolding snapshot_postgresql any show
dumped_items = refl

failing_server : ends (snapshot_postgresql (answering 1) (codes "u") login items before) ≡ none
unfolding snapshot_postgresql any show
failing_server = refl

-- A connection without a key, and a node that selects all databases, as the console sends it
abbrev direct_login : Login
direct_login = record login { use_key = false }

abbrev all_selected : Database
all_selected = record items { all_databases = true; tables = some [] }

is_download_complete : Outcome → Bool
is_download_complete (Outcome.returned s) = in_status s.status
  where
    in_status : BackupStatus → Bool
    in_status BackupStatus.download_complete = true
    in_status _ = false
is_download_complete (Outcome.raised s) = false

-- Nothing is dumped, and the backup is complete.
all_databases_undumped :
    (ends (snapshot_postgresql (answering 0) (codes "u") direct_login all_selected before)
      ≡ some [])
    × (is_download_complete
          (snapshot_postgresql (answering 0) (codes "u") direct_login all_selected before)
        ≡ true)
unfolding snapshot_postgresql any show is_download_complete
all_databases_undumped = (refl, refl)
