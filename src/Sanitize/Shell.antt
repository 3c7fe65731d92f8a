-- ===== src/Sanitize/Shell.antt =====
-- What a shell reads of the values that the guards pass on.
use backupsheep.Prelude.{
  ℕ, ◌≡◌, refl, sym, ap, ◌∙◌, Bool, true, false, [], ◌∷◌, ◌++◌, Option, none, some, ◌==◌,
  if◌then◌else◌, arith, any, Bool-cases, inl, inr,
}
use backupsheep.Prelude.Text.{codes}
use backupsheep.Model.Rows.{Text}
use backupsheep.Sanitize.{
  is_space, is_token_bad, is_password_bad, text_of, unless_bad, safe_token, safe_password,
}

-- The characters that end an unquoted word or mean something in it, by the Shell Command Language of
-- POSIX, 2.2 Quoting
unfoldable pub is_special : ℕ → Bool
unfolding any
is_special c = any (λ d. c == d) (codes "|&;<>()$`\\\"' \t\n*?[]~#")

put : ℕ → Text × Text → Text × Text
put c (word, rest) = (c ∷ word, rest)

-- An unquoted word, up to a special character, and the text from there on
unfoldable pub read_plain : Text → Text × Text
unfolding is_special put
read_plain [] = ([], [])
read_plain (c ∷ cs) = let rest = read_plain cs in if is_special c then ([], c ∷ cs) else put c rest

put_quoted : ℕ → Option (Text × Text) → Option (Text × Text)
put_quoted c none = none
put_quoted c (some (word, rest)) = some (c ∷ word, rest)

-- What stands behind a single quote, up to the next one, and the text behind that
unfoldable pub read_single_quoted : Text → Option (Text × Text)
unfolding put_quoted
read_single_quoted [] = none
read_single_quoted (c ∷ cs) =
    let rest = read_single_quoted cs in if c == b'\'' then some ([], cs) else put_quoted c rest

unless_bad-some :
    (bad : ℕ → Bool) (s t : Text) → unless_bad bad s ≡ some t → (any bad s ≡ false) × (s ≡ t)
unfolding unless_bad
unless_bad-some bad s t h = elim (Bool-cases (any bad s)) [
  | inl e ↦ cc (simp e at h)
  | inr e ↦ (e, cc (simp e at h))
]

any-cons :
    (p : ℕ → Bool) (c : ℕ) (cs : Text) → any p (c ∷ cs) ≡ false → (p c ≡ false) × (any p cs ≡ false)
unfolding any
any-cons p c cs h = ground (arith, h)

token-not_special : (c : ℕ) → is_token_bad c ≡ false → is_special c ≡ false
unfolding is_token_bad is_special is_space any
token-not_special c h = ground (arith, h)

password-not_quote : (c : ℕ) → is_password_bad c ≡ false → (c == b'\'') ≡ false
unfolding is_password_bad
password-not_quote c h = ground (arith, h)

read_plain-token :
    (t rest : Text) (c : ℕ)
    → any is_token_bad t ≡ false
    → is_special c ≡ true
    → read_plain (t ++ c ∷ rest) ≡ (t, c ∷ rest)
unfolding read_plain put
read_plain-token [] rest c h e = rw e refl
read_plain-token (d ∷ ds) rest c h e =
    let (good, goods) = any-cons is_token_bad d ds h in
    rw (token-not_special d good) (ap (put d) (read_plain-token ds rest c goods e))

read_single_quoted-password :
    (t rest : Text)
    → any is_password_bad t ≡ false
    → read_single_quoted (t ++ b'\'' ∷ rest) ≡ some (t, rest)
unfolding read_single_quoted put_quoted
read_single_quoted-password [] rest h = refl
read_single_quoted-password (d ∷ ds) rest h =
    let (good, goods) = any-cons is_password_bad d ds h in
    rw (password-not_quote d good) (ap (put_quoted d) (read_single_quoted-password ds rest goods))

-- A value that `safe_token` passes on and that stands unquoted in a command is read by the shell as
-- one word, the value itself, up to the special character (such as a space) that stands behind it.
pub read_plain-safe_token :
    (value : Option Text) (t rest : Text) (c : ℕ)
    → safe_token value ≡ some t
    → is_special c ≡ true
    → read_plain (t ++ c ∷ rest) ≡ (t, c ∷ rest)
unfolding safe_token
read_plain-safe_token value t rest c h e =
    let (good, same) = unless_bad-some is_token_bad (text_of value) t h in
    read_plain-token t rest c (ap (any is_token_bad) (sym same) ∙ good) e

-- A value that `safe_password` passes on and that stands between single quotes is read by the shell as
-- it is, and the shell reads no further than the closing quote.
pub read_single_quoted-safe_password :
    (value : Option Text) (t rest : Text)
    → safe_password value ≡ some t
    → read_single_quoted (t ++ b'\'' ∷ rest) ≡ some (t, rest)
unfolding safe_password
read_single_quoted-safe_password value t rest h =
    let (good, same) = unless_bad-some is_password_bad (text_of value) t h in
    read_single_quoted-password t rest (ap (any is_password_bad) (sym same) ∙ good)
