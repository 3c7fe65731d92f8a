-- ===== src/Dump/Postgres/Landed.antt =====
-- What a step of a PostgreSQL backup that returns has written.
use backupsheep.Prelude.{
  ◌≡◌, inl, inr, refl, ◌∙◌, ap, Bool, true, false, ◌&&◌, List, [], ◌∷◌, Option, none, some, ◌==◌,
  Bool-cases, All, any, arith,
}
use mathlib.Core.Path.{subst}
use backupsheep.Prelude.Text.{text_eq, text_eq-≡}
use backupsheep.Model.Rows.{Text}
use backupsheep.Dump.Postgres.{
  CommandReply, Server, Run, Outcome, and_then, each, on_value, check, write_file, has_content,
  dump_into, ssh_dump_to_file, run_direct_dump, sql_file, send,
}

-- `P` holds if the code returns.
abbrev pub Then : (Run → Type 0) → Outcome → Type 0
Then P (Outcome.returned s) = P s
Then P (Outcome.raised s) = Unit

pub Then-tt : (o : Outcome) → Then (λ s. Unit) o
Then-tt (Outcome.returned s) = tt
Then-tt (Outcome.raised s) = tt

pub and_then-Then :
    (P Q : Run → Type 0) (o : Outcome) (k : Run → Outcome)
    → Then P o
    → ((s : Run) → P s → Then Q (k s))
    → Then Q (and_then o k)
unfolding and_then
and_then-Then P Q (Outcome.returned s) k h g = g s h
and_then-Then P Q (Outcome.raised s) k h g = tt

pub on_value-Then :
    {A : Type 0} (Q : Run → Type 0) (o : Option A) (k : A → Run → Outcome) (r : Run)
    → ((a : A) → o ≡ some a → Then Q (k a r))
    → Then Q (on_value o k r)
unfolding on_value
on_value-Then Q none k r h = tt
on_value-Then Q (some a) k r h = h a refl

check-Then : (b : Bool) (r : Run) → Then (λ s. (b ≡ true) × (s ≡ r)) (check b r)
unfolding check
check-Then true r = (refl, refl)
check-Then false r = tt

-- The files but `file` are as they were.
abbrev pub Others : Text → List (Text × Text) → List (Text × Text) → Type 0
Others file fs gs =
    (other : Text) → text_eq file other ≡ false → has_content other gs ≡ has_content other fs

-- Every file with content in the first state has content in the second.
abbrev pub Grows : Run → Run → Type 0
Grows r s = (file : Text) → has_content file r.files ≡ true → has_content file s.files ≡ true

-- `file` has content, and so has every file that had it.
abbrev pub IsDump : Text → Run → Run → Type 0
IsDump file r s = (has_content file s.files ≡ true) × Grows r s

write_file-other :
    (keep : Bool) (file t : Text) (fs : List (Text × Text))
    → Others file fs (write_file keep file t fs)
unfolding write_file has_content any
write_file-other keep file t [] other h = rw h refl
write_file-other keep file t ((name, old) ∷ fs) other h = elim (Bool-cases (text_eq name file)) [
  | inl e ↦
      let same = text_eq-≡ name file e in
      let differs : text_eq name other ≡ false = ap (λ n. text_eq n other) same ∙ h in
      rw (e, differs) refl
  | inr e ↦ rw (e, write_file-other keep file t fs other h) refl
]

landed :
    (file : Text) (r s : Run)
    → has_content file s.files ≡ true
    → Others file r.files s.files
    → IsDump file r s
landed file r s h o = (
  h,
  λ other e. elim (Bool-cases (text_eq file other)) [
    | inl f ↦ subst (λ n. has_content n s.files ≡ true) (text_eq-≡ file other f) h
    | inr f ↦ o other f ∙ e
  ],
)

dump_into-IsDump :
    (keep : Bool) (file : Text) (reply : CommandReply) (r q : Run)
    → Others file r.files q.files
    → Then (IsDump file r) (dump_into keep file reply q)
unfolding dump_into check
dump_into-IsDump keep file reply r q o =
    let files = write_file keep file (reply.out) q.files in
    elim (Bool-cases (reply.exit_status == 0 && has_content file files)) [
      | inl e ↦ rw e (
          landed file r (record q { files = files }) (ground (arith, e))
            (λ other d. write_file-other keep file (reply.out) q.files other d ∙ o other d))
      | inr e ↦ rw e tt
    ]

pub run_direct_dump-IsDump :
    (server : Server) (argv : List Text) (file : Text) (r : Run)
    → Then (IsDump file r) (run_direct_dump server argv file r)
unfolding run_direct_dump
run_direct_dump-IsDump server argv file r =
    on_value-Then (IsDump file r) (server.run_local argv) _ _
      (λ reply e. dump_into-IsDump false file reply r _ (write_file-other false file [] r.files))

pub ssh_dump_to_file-IsDump :
    (server : Server) (command file : Text) (r : Run)
    → Then (IsDump file r) (ssh_dump_to_file server command file r)
unfolding ssh_dump_to_file send
ssh_dump_to_file-IsDump server command file r =
    on_value-Then (IsDump file r) (server.over_ssh command) _ _
      (λ reply e. dump_into-IsDump true file reply r _ (λ other d. refl))

-- Each name has a dump with content.
abbrev pub HasDumps : List Text → Run → Type 0
HasDumps ts s = All (λ t. has_content (sql_file t) s.files ≡ true) ts

pub Then-map : (P Q : Run → Type 0) (o : Outcome) → Then P o → ((s : Run) → P s → Q s) → Then Q o
Then-map P Q (Outcome.returned s) h g = g s h
Then-map P Q (Outcome.raised s) h g = tt

each-HasDumps :
    (step : Text → Run → Outcome) (ts : List Text)
    → ((t : Text) (r : Run) → Then (IsDump (sql_file t) r) (step t r))
    → (r : Run) → Then (λ s. HasDumps ts s × Grows r s) (each step ts r)
unfolding each
each-HasDumps step [] h r = (tt, λ file e. e)
each-HasDumps step (t ∷ ts) h r =
    and_then-Then (IsDump (sql_file t) r) _ (step t r) (λ s. each step ts s) (h t r)
      (λ s (c, g).
        Then-map _ _ (each step ts s) (each-HasDumps step ts h s)
          (λ q (all, f). ((f (sql_file t) c, all), λ file e. f file (g file e))))

pub each_dumps :
    (step : Text → Run → Outcome) (ts : List Text)
    → ((t : Text) (r : Run) → Then (IsDump (sql_file t) r) (step t r))
    → (r : Run) → Then (HasDumps ts) (each step ts r)
each_dumps step ts h r =
    Then-map _ (HasDumps ts) (each step ts r) (each-HasDumps step ts h r) (λ q (all, f). all)

pub one_dump :
    (t : Text) (r : Run) (o : Outcome) → Then (IsDump (sql_file t) r) o → Then (HasDumps (t ∷ [])) o
one_dump t r o h = Then-map _ _ o h (λ q (c, g). (c, tt))
