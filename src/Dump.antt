-- ===== src/Dump.antt =====
-- The commands of the PostgreSQL dumps, apps/_tasks/integration/backup/postgresql.py: `_pgpass_escape`,
-- the password file, and the two builders `remote_pg_dump` and `local_pg_dump`. Texts are ASCII.
pub mod Words
pub mod Pgpass
pub mod Postgres
use backupsheep.Prelude.{ℕ, Bool, true, List, [], ◌∷◌, ◌++◌, Option, none, some, if◌then◌else◌}
use backupsheep.Prelude.Text.{codes, show}
use backupsheep.Model.Rows.{Text}
use backupsheep.Lftp.{replace}
use backupsheep.Sanitize.{is_space, safe_options}

-- CoreAuthDatabase: what the commands read of it
pub record AuthDatabase : Type 0 where
  pub host : Text
  pub port : ℕ

unfoldable pub pgpass_escape : Text → Text
unfolding replace
pgpass_escape value = replace b':' (codes "\\:") (replace b'\\' (codes "\\\\") value)

-- The content of the password file
unfoldable pub pgpass_line : AuthDatabase → Text → Text → Text
unfolding pgpass_escape
pgpass_line auth username password =
    pgpass_escape auth.host
    ++ b':' ∷ pgpass_escape (show auth.port)
    ++ codes ":*:"
    ++ pgpass_escape username
    ++ b':' ∷ pgpass_escape password
    ++ b'\n' ∷ []

-- A word ends at the end of the text or at a space.
unfoldable pub is_end : Text → Bool
is_end [] = true
is_end (c ∷ cs) = is_space c

unfoldable pub put_first : ℕ → List Text → List Text
put_first c [] = (c ∷ []) ∷ []
put_first c (w ∷ ws) = (c ∷ w) ∷ ws

-- `t.split()`
unfoldable pub split : Text → List Text
unfolding is_space is_end put_first
split [] = []
split (c ∷ cs) =
    let rest = split cs in
    if is_space c then rest else if is_end cs then (c ∷ []) ∷ rest else put_first c rest

-- `" ".join(words)`
unfoldable pub join : List Text → Text
join [] = []
join (w ∷ []) = w
join (w ∷ v ∷ ws) = w ++ b' ' ∷ join (v ∷ ws)

-- The options that a dump is run with: the node's own, once they pass the guard
unfoldable pub option_line : Option Text → Option Text
option_line none = some (codes "-w --clean")
option_line (some []) = some (codes "-w --clean")
option_line (some (c ∷ cs)) = elim (safe_options (some (c ∷ cs))) [
  | none ↦ none
  | some t ↦ some (codes "-w " ++ t)
]

-- `if table: execstr += f" -t {table}"`
unfoldable pub table_text : Option Text → Text
table_text none = []
table_text (some []) = []
table_text (some (c ∷ cs)) = codes " -t " ++ c ∷ cs

-- The pieces of an f-string, one behind the other
unfoldable pub f_string : List Text → Text
f_string [] = []
f_string (t ∷ []) = t
f_string (t ∷ u ∷ ts) = t ++ f_string (u ∷ ts)

-- `remote_pg_dump` of a run whose password file is `name`
unfoldable pub remote_pg_dump : Text → AuthDatabase → Text → Text → Text → Option Text → Text
unfolding split join table_text f_string
remote_pg_dump name auth username options database table = join (
    split (
      f_string (
        codes "PGPASSFILE=~/"
        ∷ name
        ∷ codes " pg_dump -h "
        ∷ auth.host
        ∷ codes " -p "
        ∷ show auth.port
        ∷ codes " -U "
        ∷ username
        ∷ codes " -d "
        ∷ database
        ∷ table_text table
        ∷ codes " "
        ∷ options
        ∷ [])))

-- `if table: argv += ["-t", table]`
unfoldable pub table_argv : Option Text → List Text
table_argv none = []
table_argv (some []) = []
table_argv (some (c ∷ cs)) = codes "-t" ∷ (c ∷ cs) ∷ []

-- `local_pg_dump`, where the programs of the database's version stand in `bin_path`
unfoldable pub local_pg_dump : Text → AuthDatabase → Text → Text → Text → Option Text → List Text
unfolding split table_argv
local_pg_dump bin_path auth username options database table =
    (bin_path ++ codes "pg_dump")
      ∷ codes "-h"
      ∷ auth.host
      ∷ codes "-p"
      ∷ show auth.port
      ∷ codes "-U"
      ∷ username
      ∷ codes "-d"
      ∷ database
      ∷ table_argv table
    ++ split options
