-- ===== src/Dump/Postgres/Closed.antt =====
-- How every PostgreSQL backup ends, errors included.
use backupsheep.Prelude.{
  ℕ, ◌≡◌, ◌⊎◌, inl, inr, refl, ◌∙◌, Bool, true, false, List, [], ◌∷◌, ◌++◌, Option, none, some,
  if◌then◌else◌, ap, Bool-cases,
}
use mathlib.Core.Path.{subst, sym}
use backupsheep.Prelude.Text.{codes}
use backupsheep.Model.Status.{BackupStatus}
use backupsheep.Model.Rows.{Text, PathType}
use backupsheep.Dump.{option_line, pgpass_line}
use backupsheep.Dump.Postgres.{
  Database, Login, Server, Written, Run, Outcome, and_then, on_value, check, send, is_guarded,
}
use backupsheep.Dump.Postgres.Snapshot.{
  ssh_dump_selected, write_password_file, remove_from_server, remove_password_file, dump_over_ssh,
  dump_directly, dump_as, archive, save_size, dump_with, dump_node, delete_after, password_file,
  snapshot_begun, snapshot_postgresql, needed_space,
}
use backupsheep.Dump.Postgres.Kept.{
  run_of, and_then-keeps, check-keeps, on_value-keeps, dump_directly-keeps, ssh_dump_selected-keeps,
}

-- The command that removes the password file is the latest command sent.
abbrev IsRemoved : Text → List Text → Type 0
IsRemoved name [] = ⊥
IsRemoved name (c ∷ cs) = c ≡ codes "rm -f ~/" ++ name

-- The columns that only the end of a backup writes and the deletions are as they were, a server without
-- the password file is still without it, and either no command is sent or the latest removes the file.
abbrev IsClosed : Text → Run → Run → Type 0
IsClosed name r s =
    (s.status ≡ r.status)
    × (s.size ≡ r.size)
    × (s.deleted ≡ r.deleted)
    × (r.holds_password ≡ false → s.holds_password ≡ false)
    × ((s.sent ≡ r.sent) ⊎ IsRemoved name s.sent)

IsClosed-refl : (name : Text) (r : Run) → IsClosed name r r
IsClosed-refl name r = (refl, refl, refl, (λ h. h), inl refl)

IsClosed-trans :
    (name : Text) (r s q : Run) → IsClosed name r s → IsClosed name s q → IsClosed name r q
IsClosed-trans name r s q (a, b, c, p, d) (e, f, g, o, h) =
    (e ∙ a, f ∙ b, g ∙ c, (λ k. o (p k)), go d h)
  where
    go :
        (s.sent ≡ r.sent) ⊎ IsRemoved name s.sent
        → (q.sent ≡ s.sent) ⊎ IsRemoved name q.sent
        → (q.sent ≡ r.sent) ⊎ IsRemoved name q.sent
    go d (inr h) = inr h
    go (inl d) (inl h) = inl (h ∙ d)
    go (inr d) (inl h) = inr (subst (IsRemoved name) (sym h) d)

-- The row's status and size, and the deletions, are as they were.
abbrev IsKept : Run → Run → Type 0
IsKept r s = (s.status ≡ r.status) × (s.size ≡ r.size) × (s.deleted ≡ r.deleted)

IsKept-trans : (r s q : Run) → IsKept r s → IsKept s q → IsKept r q
IsKept-trans r s q (a, b, c) (d, e, f) = (d ∙ a, e ∙ b, f ∙ c)

send-IsKept : (command : Text) (r : Run) → IsKept r (send command r)
unfolding send
send-IsKept command r = (refl, refl, refl)

write_password_file-IsKept : (w : Written) (r : Run) → IsKept r (run_of (write_password_file w r))
unfolding write_password_file
write_password_file-IsKept Written.not_created r = (refl, refl, refl)
write_password_file-IsKept Written.left_behind r = (refl, refl, refl)
write_password_file-IsKept Written.complete r = (refl, refl, refl)

-- Once the server removes files, it is without the password file, whatever was written.
remove_password_file-IsClosed :
    (name : Text) (r : Run) (o : Outcome)
    → IsKept r (run_of o)
    → IsClosed name r (run_of (remove_password_file true name o))
unfolding remove_password_file remove_from_server send
remove_password_file-IsClosed name r (Outcome.returned s) (a, b, c) =
    (a, b, c, (λ k. refl), inr refl)
remove_password_file-IsClosed name r (Outcome.raised s) (a, b, c) = (a, b, c, (λ k. refl), inr refl)

module _ (server : Server) (name : Text) (login : Login) (db : Database)
    (removes : server.removes ≡ true) where
  dump_over_ssh-IsClosed :
      (username password options : Text) (r : Run)
      → IsClosed name r (run_of (dump_over_ssh server name login db username password options r))
  unfolding dump_over_ssh
  dump_over_ssh-IsClosed username password options r =
      let written = server.writes (pgpass_line login.auth username password) in
      let dumps = ssh_dump_selected server name login db username options in
      and_then-keeps (IsClosed name) (IsClosed-refl name) (IsClosed-trans name) r
        (check server.ssh_opens r)
        (λ s.
          remove_password_file server.removes name (and_then (write_password_file written s) dumps))
        (check-keeps (IsClosed name) (IsClosed-refl name) (IsClosed-trans name) server.ssh_opens r)
        (λ s. rw removes (
          remove_password_file-IsClosed name s (and_then (write_password_file written s) dumps) (
            and_then-keeps IsKept (λ q. (refl, refl, refl)) IsKept-trans s
              (write_password_file written s) dumps (write_password_file-IsKept written s)
              (ssh_dump_selected-keeps IsKept (λ q. (refl, refl, refl)) IsKept-trans
                (λ q fs. (refl, refl, refl)) send-IsKept server name login db username options))))

  dump_as-IsClosed :
      (options : Text) (r : Run) → IsClosed name r (run_of (dump_as server name login db options r))
  unfolding dump_as
  dump_as-IsClosed options =
      on_value-keeps (IsClosed name) (IsClosed-refl name) (IsClosed-trans name) login.username _
        (λ username.
          on_value-keeps (IsClosed name) (IsClosed-refl name) (IsClosed-trans name) login.password _
            (λ password r.
              and_then-keeps (IsClosed name) (IsClosed-refl name) (IsClosed-trans name) r
                (check (is_guarded login db username password) r)
                (λ s.
                  if login.use_key
                  then dump_over_ssh server name login db username password options s
                  else dump_directly server login db username options s)
                (check-keeps (IsClosed name) (IsClosed-refl name) (IsClosed-trans name) _ r)
                (λ s. elim (Bool-cases login.use_key) [
                  | inl e ↦ rw e (dump_over_ssh-IsClosed username password options s)
                  | inr e ↦ rw e (
                      dump_directly-keeps (IsClosed name) (IsClosed-refl name) (IsClosed-trans name)
                        (λ q fs. IsClosed-refl name q) server login db username options s)
                ])))

  dump_with-IsClosed :
      (options : Text) (r : Run)
      → IsClosed name r (run_of (dump_with server name login db options r))
  unfolding dump_with
  dump_with-IsClosed options r =
      let saved = record r { option_postgres = some options } in
      and_then-keeps (IsClosed name) (IsClosed-refl name) (IsClosed-trans name) saved
        (check server.connects saved) (dump_as server name login db options)
        (check-keeps (IsClosed name) (IsClosed-refl name) (IsClosed-trans name) server.connects
          saved)
        (dump_as-IsClosed options)

  dump_node-IsClosed : (r : Run) → IsClosed name r (run_of (dump_node server name login db r))
  unfolding dump_node
  dump_node-IsClosed r =
      let enough = server.has_space (needed_space server.last_size) in
      and_then-keeps (IsClosed name) (IsClosed-refl name) (IsClosed-trans name) r (check enough r)
        (on_value (option_line db.option_postgres) (dump_with server name login db))
        (check-keeps (IsClosed name) (IsClosed-refl name) (IsClosed-trans name) enough r)
        (on_value-keeps (IsClosed name) (IsClosed-refl name) (IsClosed-trans name)
          (option_line db.option_postgres) (dump_with server name login db) dump_with-IsClosed)

-- A backup that returns asks for its directory to be deleted; one that fails asks for the archive too, if
-- it got to make the directory, and leaves the row in progress with the size it had. Both leave no
-- password file behind.
-- The flag says whether the directory was made and the log opened.
abbrev pub IsEnded : Bool → Text → Run → Outcome → Type 0
IsEnded prepared name r (Outcome.returned s) =
    (s.deleted ≡ PathType.dir ∷ r.deleted)
    × (s.holds_password ≡ false)
    × ((s.sent ≡ r.sent) ⊎ IsRemoved name s.sent)
IsEnded prepared name r (Outcome.raised s) =
    (s.deleted ≡ (if prepared then PathType.both ∷ r.deleted else r.deleted))
    × (s.status ≡ BackupStatus.download_in_progress)
    × (s.size ≡ r.size)
    × (s.holds_password ≡ false)
    × ((s.sent ≡ r.sent) ⊎ IsRemoved name s.sent)

delete_after-IsEnded :
    (server : Server) (name : Text) (r : Run) (o : Outcome)
    → r.holds_password ≡ false
    → IsClosed name (record r { status = BackupStatus.download_in_progress }) (run_of o)
    → IsEnded true name r (delete_after (and_then o (archive server)))
unfolding delete_after and_then archive on_value save_size
delete_after-IsEnded prepared name r (Outcome.raised s) without (a, b, c, p, d) =
    (ap (PathType.both ∷◌) c, a, b, p without, d)
delete_after-IsEnded server name r (Outcome.returned s) without (a, b, c, p, d) =
    go (server.zipped s.files)
  where
    go : (z : Option (Option ℕ)) → IsEnded true name r (delete_after (on_value z save_size s))
    go none = (ap (PathType.both ∷◌) c, a, b, p without, d)
    go (some none) = (ap (PathType.dir ∷◌) c, p without, d)
    go (some (some n)) = (ap (PathType.dir ∷◌) c, p without, d)

-- Where the server runs the `rm -f` that a PostgreSQL backup sends it, the backup leaves no password file
-- on a server that had none, whatever else the server, the programs and the disk answer, a write of the
-- file that fails halfway included: either it sends no command or the latest one removes the file. If it
-- fails, the row is still in progress with the size it had, and it asks for the deletion of the
-- directory and of the archive, or for nothing if it could not make the directory and open the log; if
-- it returns, it asks for the deletion of the directory.
pub snapshot_postgresql-IsEnded :
    (server : Server) (uuid : Text) (login : Login) (db : Database) (r : Run)
    → server.removes ≡ true
    → r.holds_password ≡ false
    → IsEnded server.prepares (password_file uuid) r (snapshot_postgresql server uuid login db r)
unfolding snapshot_postgresql snapshot_begun check and_then
snapshot_postgresql-IsEnded server uuid login db r removes without = go server.prepares
  where
    begun : Run
    begun = record r { status = BackupStatus.download_in_progress }

    go :
        (prepared : Bool)
        → IsEnded prepared
            (password_file uuid)
            r
            (and_then (check prepared begun) (snapshot_begun server uuid login db))
    go true =
        delete_after-IsEnded server (password_file uuid) r
          (dump_node server (password_file uuid) login db begun) without
          (dump_node-IsClosed server (password_file uuid) login db removes begun)
    go false = (refl, refl, refl, without, inl refl)
