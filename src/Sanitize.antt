-- ===== src/Sanitize.antt =====
-- The input guards of the database backups, apps/_tasks/integration/backup/_sanitize.py. Texts are
-- ASCII; `none` is an `UnsafeBackupInput`, whose message is left out.
pub mod Shell
use backupsheep.Prelude.{
  ℕ, Bool, ◌&&◌, ◌||◌, [], ◌∷◌, Option, none, some, leb, ◌==◌, if◌then◌else◌, any,
}
use backupsheep.Prelude.Text.{codes}
use backupsheep.Model.Rows.{Text}

-- `\s` of a regular expression
unfoldable pub is_space : ℕ → Bool
is_space c = c == 32 || leb 9 c && leb c 13 || leb 28 c && leb c 31

-- `_UNQUOTED_TOKEN_BAD`
unfoldable pub is_token_bad : ℕ → Bool
unfolding is_space any
is_token_bad c = is_space c || any (λ d. c == d) (codes ";&|`$<>(){}[]\\'\"!*?~#/")

-- `_OPTION_BAD`
unfoldable pub is_option_bad : ℕ → Bool
unfolding any
is_option_bad c = any (λ d. c == d) (codes ";&|`$<>(){}[]\\'\"\n\r")

-- `"'" in text or "\n" in text or "\r" in text`
unfoldable pub is_password_bad : ℕ → Bool
is_password_bad c = c == b'\'' || c == b'\n' || c == b'\r'

-- `"" if value is None else str(value)`
unfoldable pub text_of : Option Text → Text
text_of none = []
text_of (some t) = t

-- A text is passed on unless a character of it is bad.
unfoldable pub unless_bad : (ℕ → Bool) → Text → Option Text
unfolding any
unless_bad bad t = if any bad t then none else some t

unfoldable pub safe_token : Option Text → Option Text
unfolding unless_bad text_of is_token_bad
safe_token value = unless_bad is_token_bad (text_of value)

unfoldable pub safe_password : Option Text → Option Text
unfolding unless_bad text_of is_password_bad
safe_password value = unless_bad is_password_bad (text_of value)

unfoldable pub safe_options : Option Text → Option Text
unfolding unless_bad text_of is_option_bad
safe_options value = unless_bad is_option_bad (text_of value)
