-- ===== src/Examples/Guards.antt =====
-- The theorems on the input guards of the database backups, at a user name and a password.
use backupsheep.Prelude.{◌≡◌, refl, true, ◌∷◌, ◌++◌, none, some, any}
use backupsheep.Prelude.Text.{codes}
use backupsheep.Sanitize.{safe_token, safe_password, safe_options}
use backupsheep.Sanitize.Shell.{
  is_special, read_plain, read_single_quoted, read_plain-safe_token,
  read_single_quoted-safe_password,
}

user_is_safe : safe_token (some (codes "back-up")) ≡ some (codes "back-up")
unfolding safe_token any
user_is_safe = refl

password_is_safe : safe_password (some (codes "a; b")) ≡ some (codes "a; b")
unfolding safe_password any
password_is_safe = refl

-- A second command in the options
options_are_unsafe : safe_options (some (codes "--clean; ls")) ≡ none
unfolding safe_options any
options_are_unsafe = refl

space_is_special : is_special b' ' ≡ true
unfolding is_special any
space_is_special = refl

read_plain-safe_token_example :
    read_plain (codes "back-up" ++ b' ' ∷ codes "-d x") ≡ (codes "back-up", b' ' ∷ codes "-d x")
read_plain-safe_token_example =
    read_plain-safe_token (some (codes "back-up")) (codes "back-up") (codes "-d x") b' '
      user_is_safe space_is_special

read_single_quoted-safe_password_example :
    read_single_quoted (codes "a; b" ++ b'\'' ∷ codes " pg_dump")
    ≡ some (codes "a; b", codes " pg_dump")
read_single_quoted-safe_password_example =
    read_single_quoted-safe_password (some (codes "a; b")) (codes "a; b") (codes " pg_dump")
      password_is_safe
