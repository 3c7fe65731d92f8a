-- ===== src/Lftp.antt =====
-- The lftp scripts of apps/_tasks/integration/backup/website.py: `_lftp_quote` and
-- `_build_lftp_script`. `shlex.quote` is an argument.
pub mod Quoted
pub mod Lines
use backupsheep.Prelude.{
  ℕ, Bool, true, false, not, ◌||◌, List, [], ◌∷◌, ◌++◌, Option, none, some, ◌==◌, if◌then◌else◌,
  filter,
}
use backupsheep.Prelude.Text.{codes, show}
use backupsheep.Model.Rows.{Text}

-- `value or ""`
abbrev pub or_empty : Option Text → Text
or_empty none = []
or_empty (some t) = t

-- `value.replace("\r", "").replace("\n", "")`
unfoldable pub one_line : Text → Text
one_line t = filter (λ c. not (c == b'\n')) (filter (λ c. not (c == b'\r')) t)

-- `t.replace(c, new)`, for one character `c`
unfoldable pub replace : ℕ → Text → Text → Text
replace c new [] = []
replace c new (d ∷ ds) = (if d == c then new else d ∷ []) ++ replace c new ds

unfoldable pub lftp_quote : Option Text → Text
unfolding one_line replace
lftp_quote value =
    b'"' ∷ replace b'"' (codes "\\\"") (replace b'\\' (codes "\\\\") (one_line (or_empty value)))
    ++ codes "\""

-- CoreAuthWebsite.Protocol
pub data Protocol : Type 0 where
  ftp ftps sftp : Protocol

pub record Auth : Type 0 where
  pub protocol : Protocol
  pub verify_ssl : Bool
  pub ftps_use_explicit_ssl : Bool

-- The arguments of `_build_lftp_script`
pub record Transfer : Type 0 where
  pub auth : Auth
  pub host_url : Text
  pub port : ℕ
  pub username : Text
  pub password : Option Text
  pub ssh_key_path : Option Text
  pub parallel : ℕ
  pub transfer : Text
  pub mirror : Bool

unfoldable pub base_settings : List Text
base_settings =
    codes "set net:reconnect-interval-base 5"
    ∷ codes "set net:reconnect-interval-multiplier 1"
    ∷ codes "set net:max-retries 5"
    ∷ codes "set sftp:auto-confirm true"
    ∷ codes "set ftp:use-mdtm off"
    ∷ codes "set mirror:set-permissions off"
    ∷ []

unfoldable pub mirror_settings : Bool → List Text
mirror_settings false = []
mirror_settings true =
    codes "set ftp:list-options -a"
    ∷ codes "set ftp:use-mode-z true"
    ∷ codes "set ftp:use-tvfs true"
    ∷ codes "set ftp:prefer-epsv true"
    ∷ codes "set mirror:parallel-directories true"
    ∷ []

unfoldable pub verify_line : Bool → Text
verify_line verify =
    codes "set ssl:verify-certificate " ++ (if verify then codes "yes" else codes "no")

unfoldable pub ssl_settings : Protocol → List Text
ssl_settings Protocol.ftp =
    codes "set ftp:ssl-allow false" ∷ codes "set ftp:ssl-protect-data false" ∷ []
ssl_settings _ = codes "set ftp:ssl-allow true" ∷ codes "set ftp:ssl-protect-data true" ∷ []

unfoldable pub explicit_settings : Protocol → Bool → List Text
explicit_settings Protocol.ftps true = codes "set ftps:initial-prot P" ∷ []
explicit_settings _ explicit = []

-- An f-string, by its parts
unfoldable pub format : List Text → Text
format [] = []
format (t ∷ ts) = t ++ format ts

unfoldable pub open_line : Transfer → Text
unfolding format
open_line x = format (codes "open -p " ∷ show x.port ∷ codes " " ∷ x.host_url ∷ [])

-- The value of `sftp:connect-program`
unfoldable pub connect_program : (Text → Text) → Transfer → Text → Text
unfolding format
connect_program shlex_quote x key_path = format (
    codes "ssh -a -x -p "
    ∷ show x.port
    ∷ codes " -l "
    ∷ shlex_quote x.username
    ∷ codes " -i "
    ∷ shlex_quote key_path
    ∷ [])

unfoldable pub user_lines : Transfer → List Text
unfolding lftp_quote open_line
user_lines x =
    open_line x
    ∷ format (codes "user " ∷ lftp_quote (some x.username) ∷ codes " " ∷ lftp_quote x.password ∷ [])
    ∷ []

-- The lines of the connection, by `if ssh_key_path`
unfoldable pub connect_lines : (Text → Text) → Transfer → Option Text → List Text
unfolding connect_program user_lines
connect_lines shlex_quote x none = user_lines x
connect_lines shlex_quote x (some []) = user_lines x
connect_lines shlex_quote x (some (c ∷ cs)) =
    format (
      codes "set sftp:connect-program "
      ∷ lftp_quote (some (connect_program shlex_quote x (c ∷ cs)))
      ∷ [])
    ∷ open_line x
    ∷ []

-- The settings between the first line and the connection
unfoldable pub settings : Protocol → Bool → Bool → Bool → List Text
unfolding base_settings verify_line ssl_settings explicit_settings mirror_settings
settings protocol verify explicit mirror =
    base_settings
    ++ ((verify_line verify ∷ [])
        ++ (ssl_settings protocol
            ++ (explicit_settings protocol explicit ++ mirror_settings mirror)))

-- The list `lines` as it is joined
unfoldable pub script_lines : (Text → Text) → Transfer → List Text
unfolding settings connect_lines
script_lines shlex_quote x =
    format (codes "set net:connection-limit " ∷ show x.parallel ∷ [])
    ∷ (settings x.auth.protocol x.auth.verify_ssl x.auth.ftps_use_explicit_ssl x.mirror
        ++ (connect_lines shlex_quote x x.ssh_key_path ++ (x.transfer ∷ codes "bye" ∷ [])))

-- `"\n".join(lines) + "\n"`
unfoldable pub join_lines : List Text → Text
join_lines [] = codes "\n"
join_lines (l ∷ []) = l ++ codes "\n"
join_lines (l ∷ m ∷ ls) = l ++ b'\n' ∷ join_lines (m ∷ ls)

unfoldable pub build_lftp_script : (Text → Text) → Transfer → Text
unfolding script_lines join_lines
build_lftp_script shlex_quote x = join_lines (script_lines shlex_quote x)
