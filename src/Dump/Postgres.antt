-- ===== src/Dump/Postgres.antt =====
-- `snapshot_postgresql` of apps/_tasks/integration/backup/postgresql.py: a backup of a PostgreSQL node,
-- up to the archive of its dumps. Here are the dump of one file and the list of the databases; the
-- module Snapshot composes them. What the server, the programs and the disk answer is a parameter; a
-- command that is run again in one backup is answered the same way. The log is left out.
pub mod Snapshot
pub mod Kept
pub mod Landed
pub mod Dumped
pub mod Closed
use backupsheep.Prelude.{
  ℕ, ◌*◌, Bool, true, false, not, ◌&&◌, ◌||◌, List, [], ◌∷◌, ◌++◌, Option, none, some, ◌==◌, ltb,
  leb, filter, any, length, if◌then◌else◌,
}
use backupsheep.Prelude.Text.{codes, show, text_eq}
use backupsheep.Model.Status.{BackupStatus}
use backupsheep.Model.Rows.{Text, PathType}
use backupsheep.Sanitize.{is_space, safe_token, safe_password}
use backupsheep.Dump.{
  AuthDatabase, put_first, f_string, pgpass_line, option_line, remote_pg_dump, local_pg_dump,
}

-- CoreDatabase: what a node selects; a null flag is `false`.
pub record Database : Type 0 where
  pub all_databases : Bool
  pub all_tables : Bool
  pub databases : Option (List Text)
  pub tables : Option (List Text)
  pub option_postgres : Option Text

-- CoreAuthDatabase: the rest that a backup reads of it. The user name and the password are as
-- `bs_decrypt` gives them; `use_key` is `use_public_key or use_private_key`.
pub record Login : Type 0 where
  pub auth : AuthDatabase
  pub database_name : Option Text
  pub username : Option Text
  pub password : Option Text
  pub use_key : Bool

-- The exit code of a command and its output
pub record CommandReply : Type 0 where
  pub exit_status : ℕ
  pub out : Text

-- How `_sftp_write_remote_file` comes out: it raises before there is a file, it raises with the file
-- there (as where chmod fails), or it returns.
pub data Written : Type 0 where
  not_created left_behind complete : Written

-- What stands outside of the code. `none` is an exception; `zipped` gives the size of the archive, if
-- it is there. `prepares` says that the directory is made and the log is opened, and `removes` that the
-- server runs the `rm -f`, whose exception and result the code ignores.
pub record Server : Type 0 where
  pub last_size : Option ℕ
  pub has_space : ℕ → Bool
  pub connects : Bool
  pub bin_path : Text
  pub ssh_opens : Bool
  pub writes : Text → Written
  pub removes : Bool
  pub prepares : Bool
  pub over_ssh : Text → Option CommandReply
  pub run_local : List Text → Option CommandReply
  pub zipped : List (Text × Text) → Option (Option ℕ)

-- The row of the backup, the dump files with their content, the commands given to `exec_command`, the
-- latest first, the deletions asked for, and whether the password file is on the server.
pub record Run : Type 0 where
  pub status : BackupStatus
  pub option_postgres : Option Text
  pub size : Option ℕ
  pub files : List (Text × Text)
  pub sent : List Text
  pub deleted : List PathType
  pub holds_password : Bool

pub data Outcome : Type 0 where
  returned raised : Run → Outcome

unfoldable pub and_then : Outcome → (Run → Outcome) → Outcome
and_then (Outcome.returned r) k = k r
and_then (Outcome.raised r) k = Outcome.raised r

-- A step that needs a value, which an exception may stand for
unfoldable pub on_value : {A : Type 0} → Option A → (A → Run → Outcome) → Run → Outcome
on_value none k r = Outcome.raised r
on_value (some a) k r = k a r

-- A `for` loop
unfoldable pub each : (Text → Run → Outcome) → List Text → Run → Outcome
unfolding and_then
each step [] r = Outcome.returned r
each step (x ∷ xs) r = and_then (step x r) (λ s. each step xs s)

-- `raise` unless the test holds
unfoldable pub check : Bool → Run → Outcome
check b r = if b then Outcome.returned r else Outcome.raised r

-- `open(file, "ab")`, and `open(file, "wb")` if `keep` is false
unfoldable pub write_file : Bool → Text → Text → List (Text × Text) → List (Text × Text)
unfolding text_eq
write_file keep file t [] = (file, t) ∷ []
write_file keep file t ((name, old) ∷ fs) =
    let rest = write_file keep file t fs in
    if text_eq name file then (name, (if keep then old ++ t else t)) ∷ fs else (name, old) ∷ rest

abbrev pub is_empty : Text → Bool
is_empty [] = true
is_empty (c ∷ cs) = false

-- `os.path.getsize(file) != 0`
unfoldable pub has_content : Text → List (Text × Text) → Bool
unfolding any text_eq
has_content file fs = any (λ (name, t). text_eq name file && not (is_empty t)) fs

unfoldable pub send : Text → Run → Run
send command r = record r { sent = command ∷ r.sent }

-- The output of a command goes to the file; the command must end with exit code 0, and the file must
-- not be empty.
unfoldable pub dump_into : Bool → Text → CommandReply → Run → Outcome
unfolding check write_file has_content
dump_into keep file reply r =
    let files = write_file keep file (reply.out) r.files in
    check (reply.exit_status == 0 && has_content file files) (record r { files = files })

unfoldable pub ssh_dump_to_file : Server → Text → Text → Run → Outcome
unfolding send on_value dump_into
ssh_dump_to_file server command file r =
    on_value (server.over_ssh command) (dump_into true file) (send command r)

-- The file is empty once it is opened.
unfoldable pub run_direct_dump : Server → List Text → Text → Run → Outcome
unfolding on_value write_file dump_into
run_direct_dump server argv file r =
    on_value (server.run_local argv) (dump_into false file)
      (record r { files = write_file false file [] r.files })

-- `psql -lqt` lists the databases of the server.
unfoldable pub psql_command : Text → Login → Text → Text → Text
unfolding f_string
psql_command name login username database = f_string (
    codes "PGPASSFILE=~/"
    ∷ name
    ∷ codes " psql 'host="
    ∷ login.auth.host
    ∷ codes " user="
    ∷ username
    ∷ codes " dbname="
    ∷ database
    ∷ codes " port="
    ∷ show login.auth.port
    ∷ codes " sslmode=prefer' -lqt | cut -d '|' -f 1"
    ∷ [])

-- `splitlines`: "\r\n" gives an empty line more here, which is dropped below.
unfoldable pub split_lines : Text → List Text
unfolding put_first
split_lines [] = []
split_lines (c ∷ cs) =
    let rest = split_lines cs in
    if leb 10 c && leb c 13 || leb 28 c && leb c 30 then [] ∷ rest else put_first c rest

-- `strip`
unfoldable pub lstrip : Text → Text
unfolding is_space
lstrip [] = []
lstrip (c ∷ cs) = let rest = lstrip cs in if is_space c then rest else c ∷ cs

unfoldable pub rstrip : Text → Text
unfolding is_space
rstrip [] = []
rstrip (c ∷ cs) = let rest = rstrip cs in if is_space c && is_empty rest then [] else c ∷ rest

-- `if database_name and database_name not in ("template0", "template1")`
unfoldable pub is_listed : Text → Bool
unfolding text_eq
is_listed t = not (is_empty t || text_eq t (codes "template0") || text_eq t (codes "template1"))

unfoldable pub listed : Text → List Text
unfolding filter split_lines lstrip rstrip is_listed
listed out = filter is_listed (strip_all (split_lines out))
  where
    strip_all : List Text → List Text
    strip_all [] = []
    strip_all (t ∷ ts) = lstrip (rstrip t) ∷ strip_all ts

-- An f-string with a null column in it
unfoldable pub shown : Option Text → Text
shown none = codes "None"
shown (some t) = t

-- `_ssh_run_capture` of `psql -lqt`, and the databases that it lists
unfoldable pub listed_by : Server → Text → List Text
unfolding listed
listed_by server command = elim (server.over_ssh command) [
  | none ↦ []
  | some reply ↦ if reply.exit_status == 0 then listed (reply.out) else []
]

unfoldable pub is_safe : Option Text → Bool
unfolding safe_token
is_safe value = elim (safe_token value) [ none ↦ false | some t ↦ true ]

unfoldable pub is_safe_password : Text → Bool
unfolding safe_password
is_safe_password value = elim (safe_password (some value)) [ none ↦ false | some t ↦ true ]

-- `value or []`
abbrev pub or_none : Option (List Text) → List Text
or_none none = []
or_none (some ts) = ts

-- The guards on the values that stand in the commands
unfoldable pub is_guarded : Login → Database → Text → Text → Bool
unfolding is_safe is_safe_password any
is_guarded login database username password =
    is_safe (some (login.auth.host))
    && is_safe (some (show login.auth.port))
    && is_safe login.database_name
    && is_safe (some username)
    && is_safe_password password
    && not (any (λ t. not (is_safe (some t))) (or_none database.databases))
    && not (any (λ t. not (is_safe (some t))) (or_none database.tables))

-- `f"{local_dir}{name}.sql"`, without the directory
unfoldable pub sql_file : Text → Text
sql_file name = name ++ codes ".sql"
