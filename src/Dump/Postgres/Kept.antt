-- ===== src/Dump/Postgres/Kept.antt =====
-- What every part of a PostgreSQL backup leaves as it is.
use backupsheep.Prelude.{inl, inr, Bool, true, false, List, [], ◌∷◌, Option, none, some, Bool-cases}
use backupsheep.Model.Rows.{Text}
use backupsheep.Dump.Postgres.{
  Database, Login, CommandReply, Server, Run, Outcome, and_then, on_value, each, check, send,
  dump_into, ssh_dump_to_file, run_direct_dump, is_safe, or_none, psql_command, listed_by, shown,
}
use backupsheep.Dump.Postgres.Snapshot.{
  is_selected, ssh_dump, ssh_run_capture, ssh_dump_all, ssh_dump_each, ssh_dump_listed,
  first_database, ssh_dump_selected, direct_dump, dump_directly,
}

-- The state in which a part of the code ends, with or without an exception
abbrev pub run_of : Outcome → Run
run_of (Outcome.returned r) = r
run_of (Outcome.raised r) = r

-- A relation of the states before and after, which any part of the code keeps
module _ (R : Run → Run → Type 0) (R-refl : (r : Run) → R r r)
    (R-trans : (r s q : Run) → R r s → R s q → R r q) where
  pub and_then-keeps :
      (r : Run) (o : Outcome) (k : Run → Outcome)
      → R r (run_of o)
      → ((s : Run) → R s (run_of (k s)))
      → R r (run_of (and_then o k))
  unfolding and_then
  and_then-keeps r (Outcome.returned s) k h g = R-trans r s (run_of (k s)) h (g s)
  and_then-keeps r (Outcome.raised s) k h g = h

  pub check-keeps : (b : Bool) (r : Run) → R r (run_of (check b r))
  unfolding check
  check-keeps true r = R-refl r
  check-keeps false r = R-refl r

  pub on_value-keeps :
      {A : Type 0} (o : Option A) (k : A → Run → Outcome)
      → ((a : A) (s : Run) → R s (run_of (k a s)))
      → (r : Run) → R r (run_of (on_value o k r))
  unfolding on_value
  on_value-keeps none k h r = R-refl r
  on_value-keeps (some a) k h r = h a r

  each-keeps :
      (step : Text → Run → Outcome) (xs : List Text)
      → ((x : Text) (s : Run) → R s (run_of (step x s)))
      → (r : Run) → R r (run_of (each step xs r))
  unfolding each
  each-keeps step [] h r = R-refl r
  each-keeps step (x ∷ xs) h r =
      and_then-keeps r (step x r) (λ s. each step xs s) (h x r) (each-keeps step xs h)

  -- A dump on the server's own host, if the relation does not read the files
  module _ (R-files : (r : Run) (fs : List (Text × Text)) → R r (record r { files = fs })) where
    dump_into-keeps :
        (keep : Bool) (file : Text) (reply : CommandReply) (r : Run)
        → R r (run_of (dump_into keep file reply r))
    unfolding dump_into
    dump_into-keeps keep file reply r = R-trans r _ _ (R-files r _) (check-keeps _ _)

    direct_dump-keeps :
        (server : Server) (login : Login) (username options : Text) (table : Option Text)
        (file : Text) (r : Run)
        → R r (run_of (direct_dump server login username options table file r))
    unfolding direct_dump run_direct_dump
    direct_dump-keeps server login username options table file =
        on_value-keeps login.database_name _ (λ database s.
          R-trans s _ _ (R-files s _)
            (on_value-keeps (server.run_local _) _ (λ reply. dump_into-keeps false _ reply) _))

    pub dump_directly-keeps :
        (server : Server) (login : Login) (db : Database) (username options : Text) (r : Run)
        → R r (run_of (dump_directly server login db username options r))
    unfolding dump_directly
    dump_directly-keeps server login db username options r = elim (Bool-cases db.all_tables) [
      | inl e ↦ rw e (direct_dump-keeps server login username options none _ r)
      | inr e ↦ rw e (
          on_value-keeps db.tables _
            (λ ts.
              each-keeps _ ts (λ t. direct_dump-keeps server login username options (some t) t))
            r)
    ]

    -- Over SSH, if the relation does not read the commands either
    module _ (R-send : (command : Text) (r : Run) → R r (send command r)) where
      ssh_dump-keeps :
          (server : Server) (name : Text) (login : Login) (username options database : Text)
          (table : Option Text) (file : Text) (r : Run)
          → R r (run_of (ssh_dump server name login username options database table file r))
      unfolding ssh_dump ssh_dump_to_file
      ssh_dump-keeps server name login username options database table file r =
          R-trans r _ _ (R-send _ r)
            (on_value-keeps (server.over_ssh _) _ (λ reply. dump_into-keeps true _ reply) _)

      ssh_dump_listed-keeps :
          (server : Server) (name : Text) (login : Login) (username options t : Text) (r : Run)
          → R r (run_of (ssh_dump_listed server name login username options t r))
      unfolding ssh_dump_listed
      ssh_dump_listed-keeps server name login username options t r =
          and_then-keeps r (check (is_safe (some t)) r)
            (ssh_dump server name login username options t none t) (check-keeps _ r)
            (ssh_dump-keeps server name login username options t none t)

      ssh_dump_each-keeps :
          (server : Server) (name : Text) (login : Login) (username options : Text) (ts : List Text)
          (r : Run)
          → R r (run_of (ssh_dump_each server name login username options ts r))
      unfolding ssh_dump_each
      ssh_dump_each-keeps server name login username options ts r =
          let step = ssh_dump_listed server name login username options in
          and_then-keeps r (check (is_selected ts) r) (each step ts) (check-keeps _ r)
            (each-keeps step ts (ssh_dump_listed-keeps server name login username options))

      ssh_dump_all-keeps :
          (server : Server) (name : Text) (login : Login) (username options : Text) (r : Run)
          → R r (run_of (ssh_dump_all server name login username options r))
      unfolding ssh_dump_all ssh_run_capture
      ssh_dump_all-keeps server name login username options r =
          let command = psql_command name login username (first_database login.database_name) in
          and_then-keeps r (ssh_run_capture server command r)
            (ssh_dump_each server name login username options (listed_by server command))
            (R-trans r _ _ (R-send command r)
              (on_value-keeps (server.over_ssh command) _ (λ reply. check-keeps _) _))
            (ssh_dump_each-keeps server name login username options (listed_by server command))

      pub ssh_dump_selected-keeps :
          (server : Server) (name : Text) (login : Login) (db : Database) (username options : Text)
          (r : Run)
          → R r (run_of (ssh_dump_selected server name login db username options r))
      unfolding ssh_dump_selected
      ssh_dump_selected-keeps server name login db username options r =
          let database = shown login.database_name in
          let step : Text → Run → Outcome =
            λ t. ssh_dump server name login username options t none t in
          let table_step : Text → Run → Outcome =
            λ t. ssh_dump server name login username options database (some t) t in
          let one = λ (t : Text). ssh_dump-keeps server name login username options t none t in
          elim (Bool-cases db.all_databases) [
            | inl e ↦ rw e (ssh_dump_all-keeps server name login username options r)
            | inr e ↦ elim (Bool-cases (is_selected (or_none db.databases))) [
              | inl f ↦ rw (e, f) (each-keeps step (or_none db.databases) one r)
              | inr f ↦ elim (Bool-cases db.all_tables) [
                | inl g ↦ rw (e, f, g) (one database r)
                | inr g ↦ elim (Bool-cases (is_selected (or_none db.tables))) [
                  | inl d ↦
                      rw (e, f, g, d)
                        (each-keeps table_step (or_none db.tables)
                          (λ t.
                            ssh_dump-keeps server name login username options database (some t) t)
                          r)
                  | inr d ↦ rw (e, f, g, d) (R-refl r)
                ]
              ]
            ]
          ]
