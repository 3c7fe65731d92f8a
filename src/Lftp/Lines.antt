-- ===== src/Lftp/Lines.antt =====
-- The lines that lftp reads of a script.
use backupsheep.Prelude.{
  ℕ, ◌≡◌, ◌≢◌, refl, ◌∙◌, ap, Bool, true, false, not, ◌&&◌, List, [], ◌∷◌, ◌++◌, Option, none, some,
  ◌==◌, if◌then◌else◌, filter, arith, All, All-append, Bool-cases, inl, inr,
}
use mathlib.Core.List.{cons≢nil}
use backupsheep.Prelude.Text.{codes, show, show-All}
use backupsheep.Model.Rows.{Text}
use backupsheep.Lftp.{
  Transfer, one_line, replace, lftp_quote, base_settings, mirror_settings, verify_line,
  ssl_settings, explicit_settings, Protocol, format, open_line, connect_program, user_lines,
  settings, connect_lines, script_lines, join_lines, build_lftp_script,
}

-- The text up to the first line end, and what follows it
abbrev pub push : ℕ → List Text → List Text
push c [] = (c ∷ []) ∷ []
push c (l ∷ ls) = (c ∷ l) ∷ ls

-- The lines of a text, each ended by a line end.
unfoldable pub lines : Text → List Text
lines [] = []
lines (c ∷ cs) = let rest = lines cs in if c == b'\n' then [] ∷ rest else push c rest

-- Text of one line
abbrev pub IsLine : Text → Type 0
IsLine t = All (λ c. (c == b'\n') ≡ false) t

lines-line : (l rest : Text) → IsLine l → lines (l ++ b'\n' ∷ rest) ≡ l ∷ lines rest
unfolding lines
lines-line [] rest h = refl
lines-line (c ∷ cs) rest (e, h) = simp (e, lines-line cs rest h) refl

lines-join_lines : (ls : List Text) → (ls ≢ []) → All IsLine ls → lines (join_lines ls) ≡ ls
unfolding join_lines lines
lines-join_lines [] n h = absurd (n refl)
lines-join_lines (l ∷ []) n (h, t) = lines-line l [] h
lines-join_lines (l ∷ m ∷ ls) n (h, t) =
    lines-line l (join_lines (m ∷ ls)) h ∙ ap (λ r. l ∷ r) (lines-join_lines (m ∷ ls) cons≢nil t)

filter-IsLine : (t : Text) → IsLine (filter (λ c. not (c == b'\n')) t)
unfolding filter
filter-IsLine [] = tt
filter-IsLine (c ∷ cs) = elim (Bool-cases (c == b'\n')) [
  | inl e ↦ simp e (filter-IsLine cs)
  | inr e ↦ rw (e, if◌then◌else◌) (e, filter-IsLine cs)
]

replace-IsLine : (c : ℕ) (new t : Text) → IsLine new → IsLine t → IsLine (replace c new t)
unfolding replace
replace-IsLine c new [] n h = tt
replace-IsLine c new (d ∷ ds) n (e, h) =
    All-append _ _ _ (go (d == c)) (replace-IsLine c new ds n h)
  where
    go : (b : Bool) → IsLine (if b then new else d ∷ [])
    go true = n
    go false = (e, tt)

pub lftp_quote-IsLine : (value : Option Text) → IsLine (lftp_quote value)
unfolding lftp_quote one_line
lftp_quote-IsLine value = (
  refl,
  All-append _ _ _
      (replace-IsLine b'"' (codes "\\\"") _ (refl, (refl, tt))
        (replace-IsLine b'\\' (codes "\\\\") _ (refl, (refl, tt)) (filter-IsLine _)))
      (refl, tt),
)

is_line : Text → Bool
is_line [] = true
is_line (c ∷ cs) = not (c == b'\n') && is_line cs

are_lines : List Text → Bool
are_lines [] = true
are_lines (l ∷ ls) = is_line l && are_lines ls

is_line-IsLine : (t : Text) → is_line t ≡ true → IsLine t
unfolding is_line
is_line-IsLine [] h = tt
is_line-IsLine (c ∷ cs) h = (ground (arith, h), is_line-IsLine cs (ground (arith, h)))

are_lines-IsLine : (ls : List Text) → are_lines ls ≡ true → All IsLine ls
unfolding are_lines
are_lines-IsLine [] h = tt
are_lines-IsLine (l ∷ ls) h =
    (is_line-IsLine l (ground (arith, h)), are_lines-IsLine ls (ground (arith, h)))

format-IsLine : (ts : List Text) → All IsLine ts → IsLine (format ts)
unfolding format
format-IsLine [] h = tt
format-IsLine (t ∷ ts) (h, hs) = All-append _ t (format ts) h (format-IsLine ts hs)

append-lines : (s t : List Text) → All IsLine s → All IsLine t → All IsLine (s ++ t)
append-lines = All-append IsLine

open-IsLine : (x : Transfer) → IsLine x.host_url → IsLine (open_line x)
unfolding open_line is_line
open-IsLine x h = format-IsLine (codes "open -p " ∷ show x.port ∷ codes " " ∷ x.host_url ∷ []) (
  is_line-IsLine (codes "open -p ") refl,
  (show-All x.port, (is_line-IsLine (codes " ") refl, (h, tt))),
)

user-IsLine : (x : Transfer) → IsLine x.host_url → All IsLine (user_lines x)
unfolding user_lines is_line
user-IsLine x h = (
  open-IsLine x h,
  (
    format-IsLine
        (codes "user " ∷ lftp_quote (some x.username) ∷ codes " " ∷ lftp_quote x.password ∷ [])
        (
          is_line-IsLine (codes "user ") refl,
          (
            lftp_quote-IsLine (some x.username),
            (is_line-IsLine (codes " ") refl, (lftp_quote-IsLine x.password, tt)),
          ),
        ),
    tt,
  ),
)

connect-IsLine :
    (q : Text → Text) (x : Transfer) (key : Option Text)
    → IsLine x.host_url
    → All IsLine (connect_lines q x key)
unfolding connect_lines is_line
connect-IsLine q x none h = user-IsLine x h
connect-IsLine q x (some []) h = user-IsLine x h
connect-IsLine q x (some (c ∷ cs)) h = (
  format-IsLine
      (codes "set sftp:connect-program " ∷ lftp_quote (some (connect_program q x (c ∷ cs))) ∷ [])
      (
        is_line-IsLine (codes "set sftp:connect-program ") refl,
        (lftp_quote-IsLine (some (connect_program q x (c ∷ cs))), tt),
      ),
  (open-IsLine x h, tt),
)

settings-are_lines : (p : Protocol) (v e m : Bool) → are_lines (settings p v e m) ≡ true
unfolding settings base_settings verify_line ssl_settings explicit_settings mirror_settings
    are_lines is_line
settings-are_lines Protocol.ftp true e true = refl
settings-are_lines Protocol.ftp true e false = refl
settings-are_lines Protocol.ftp false e true = refl
settings-are_lines Protocol.ftp false e false = refl
settings-are_lines Protocol.sftp true e true = refl
settings-are_lines Protocol.sftp true e false = refl
settings-are_lines Protocol.sftp false e true = refl
settings-are_lines Protocol.sftp false e false = refl
settings-are_lines Protocol.ftps true true true = refl
settings-are_lines Protocol.ftps true true false = refl
settings-are_lines Protocol.ftps true false true = refl
settings-are_lines Protocol.ftps true false false = refl
settings-are_lines Protocol.ftps false true true = refl
settings-are_lines Protocol.ftps false true false = refl
settings-are_lines Protocol.ftps false false true = refl
settings-are_lines Protocol.ftps false false false = refl

script-IsLine :
    (q : Text → Text) (x : Transfer)
    → IsLine x.host_url
    → IsLine x.transfer
    → All IsLine (script_lines q x)
unfolding script_lines is_line
script-IsLine q x host transfer = (
  format-IsLine (codes "set net:connection-limit " ∷ show x.parallel ∷ [])
      (is_line-IsLine (codes "set net:connection-limit ") refl, (show-All x.parallel, tt)),
  append-lines set _ (are_lines-IsLine set (settings-are_lines x.auth.protocol _ _ _)) (
      append-lines connected (x.transfer ∷ codes "bye" ∷ [])
        (connect-IsLine q x x.ssh_key_path host)
        (transfer, (is_line-IsLine (codes "bye") refl, tt))),
)
  where
    set : List Text
    set = settings x.auth.protocol x.auth.verify_ssl x.auth.ftps_use_explicit_ssl x.mirror

    connected : List Text
    connected = connect_lines q x x.ssh_key_path

-- Whatever the user name, the password and the key path hold, line ends included, lftp reads the lines
-- that the script was made of and no others, where the host and the transfer line have no line end.
pub lines-build_lftp_script :
    (shlex_quote : Text → Text) (x : Transfer)
    → IsLine x.host_url
    → IsLine x.transfer
    → lines (build_lftp_script shlex_quote x) ≡ script_lines shlex_quote x
unfolding build_lftp_script script_lines
lines-build_lftp_script shlex_quote x host transfer =
    lines-join_lines (script_lines shlex_quote x) cons≢nil
      (script-IsLine shlex_quote x host transfer)
