-- ===== src/Dump/Pgpass.antt =====
-- What PostgreSQL reads of the password file that a dump writes on the server.
use backupsheep.Prelude.{
  ℕ, ◌≡◌, refl, Bool, true, false, [], ◌∷◌, ◌++◌, List, ◌==◌, if◌then◌else◌, arith, ap, All, ◌∙◌,
}
use backupsheep.Prelude.Text.{codes, show, show-All}
use mathlib.Core.List.{append_assoc}
use backupsheep.Model.Rows.{Text}
use backupsheep.Lftp.{replace}
use backupsheep.Dump.{AuthDatabase, put_first, pgpass_escape, pgpass_line}

-- The fields of the first line of a password file, by the PostgreSQL manual: a colon ends a field, a
-- backslash gives the character that follows. The flag says whether a backslash came right before.
unfoldable pub read_fields : Bool → Text → List Text
unfolding put_first
read_fields escaped [] = [] ∷ []
read_fields true (c ∷ cs) = put_first c (read_fields false cs)
read_fields false (c ∷ cs) =
    let rest = read_fields (c == b'\\') cs in
    if c == b'\n'
    then [] ∷ []
    else if c == b'\\'
    then rest
    else if c == b':'
    then [] ∷ rest
    else put_first c rest

-- Text of one line
abbrev pub IsLine : Text → Type 0
IsLine t = All (λ c. (c == b'\n') ≡ false) t

-- One character as the two replacements leave it
escape : ℕ → Text
escape c =
    if c == b'\\' then b'\\' ∷ b'\\' ∷ [] else if c == b':' then b'\\' ∷ b':' ∷ [] else c ∷ []

escape_all : Text → Text
unfolding escape
escape_all [] = []
escape_all (c ∷ cs) = escape c ++ escape_all cs

pgpass_escape-escape_all : (t : Text) → pgpass_escape t ≡ escape_all t
unfolding pgpass_escape replace escape_all escape
pgpass_escape-escape_all [] = refl
pgpass_escape-escape_all (c ∷ cs) = ground (arith, pgpass_escape-escape_all cs)

read-field :
    (t rest : Text)
    → IsLine t
    → read_fields false (escape_all t ++ b':' ∷ rest) ≡ t ∷ read_fields false rest
unfolding read_fields escape_all escape put_first
read-field [] rest h = refl
read-field (c ∷ cs) rest (e, h) = ground (arith, read-field cs rest h)

read_last : (t : Text) → IsLine t → read_fields false (escape_all t ++ b'\n' ∷ []) ≡ t ∷ []
unfolding read_fields escape_all escape put_first
read_last [] h = refl
read_last (c ∷ cs) (e, h) = ground (arith, read_last cs h)

read-star :
    (rest : Text) → read_fields false (b'*' ∷ b':' ∷ rest) ≡ codes "*" ∷ read_fields false rest
unfolding read_fields put_first
read-star rest = refl

-- A host, a user name and a password without a line end are read back from the password file as they
-- are, colons and backslashes included, with the printed port and a star for the database.
pub read_fields-pgpass_line :
    (auth : AuthDatabase) (username password : Text)
    → IsLine auth.host
    → IsLine username
    → IsLine password
    → read_fields false (pgpass_line auth username password)
      ≡ auth.host ∷ show auth.port ∷ codes "*" ∷ username ∷ password ∷ []
unfolding pgpass_line
read_fields-pgpass_line auth username password h u p =
    rw
      (
        pgpass_escape-escape_all auth.host,
        pgpass_escape-escape_all (show auth.port),
        pgpass_escape-escape_all username,
        pgpass_escape-escape_all password,
        append_assoc,
        append_assoc,
        append_assoc,
        append_assoc,
      )
      (read-field auth.host _ h
        ∙ ap (auth.host ∷◌) (
            read-field (show auth.port) _ (show-All auth.port)
            ∙ ap (show auth.port ∷◌) (
                read-star _
                ∙ ap (codes "*" ∷◌)
                    (read-field username _ u ∙ ap (username ∷◌) (read_last password p)))))
