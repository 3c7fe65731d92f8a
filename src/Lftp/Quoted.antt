-- ===== src/Lftp/Quoted.antt =====
-- What lftp reads of a quoted value.
use backupsheep.Prelude.{
  ℕ, ◌≡◌, refl, Bool, true, false, [], ◌∷◌, ◌++◌, Option, none, some, ◌==◌, if◌then◌else◌, arith,
}
use backupsheep.Prelude.Text.{codes}
use mathlib.Core.List.{append_assoc}
use backupsheep.Model.Rows.{Text}
use backupsheep.Lftp.{or_empty, one_line, replace, lftp_quote}

put : ℕ → Option (Text × Text) → Option (Text × Text)
put c none = none
put c (some (word, rest)) = some (c ∷ word, rest)

-- A word inside double quotes, up to the quote that ends it, and the text behind: a backslash gives the
-- character that follows. The flag says whether a backslash came right before.
unfoldable pub read_quoted : Bool → Text → Option (Text × Text)
unfolding put
read_quoted escaped [] = none
read_quoted true (c ∷ cs) = put c (read_quoted false cs)
read_quoted false (c ∷ cs) =
    let rest = read_quoted (c == b'\\') cs in
    if c == b'"' then some ([], cs) else if c == b'\\' then rest else put c rest

-- A word in double quotes
unfoldable pub read_word : Text → Option (Text × Text)
unfolding read_quoted
read_word [] = none
read_word (c ∷ rest) = if c == b'"' then read_quoted false rest else none

-- One character as the two replacements leave it
escape : ℕ → Text
escape c =
    if c == b'\\' then b'\\' ∷ b'\\' ∷ [] else if c == b'"' then b'\\' ∷ b'"' ∷ [] else c ∷ []

escape_all : Text → Text
unfolding escape
escape_all [] = []
escape_all (c ∷ cs) = escape c ++ escape_all cs

replace-escape_all :
    (t : Text) → replace b'"' (codes "\\\"") (replace b'\\' (codes "\\\\") t) ≡ escape_all t
unfolding replace escape_all escape
replace-escape_all [] = refl
replace-escape_all (c ∷ cs) = ground (arith, replace-escape_all cs)

read-escape : (t rest : Text) → read_quoted false (escape_all t ++ b'"' ∷ rest) ≡ some (t, rest)
unfolding read_quoted escape_all escape put
read-escape [] rest = refl
read-escape (c ∷ cs) rest = ground (arith, read-escape cs rest)

-- A reader of double-quoted words gets back what `_lftp_quote` was given, without its line ends, and
-- reads no further than the quoted value, whatever stands behind it.
pub read_word-lftp_quote :
    (value : Option Text) (rest : Text)
    → read_word (lftp_quote value ++ rest) ≡ some (one_line (or_empty value), rest)
unfolding lftp_quote read_word
read_word-lftp_quote value rest =
    rw (replace-escape_all (one_line (or_empty value)), append_assoc)
      (read-escape (one_line (or_empty value)) rest)
