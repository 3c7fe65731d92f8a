-- ===== src/Dump/Words.antt =====
-- The words of the commands that dump over SSH.
use backupsheep.Prelude.{
  ℕ, ◌≡◌, ◌≢◌, refl, ap, ◌∙◌, true, false, List, [], ◌∷◌, ◌++◌, Option, none, some, arith, All,
  Bool-cases, inl, inr, any,
}
use mathlib.Core.List.{cons≢nil}
use backupsheep.Prelude.Text.{codes, show, show-digits, show≢nil}
use backupsheep.Model.Rows.{Text}
use backupsheep.Sanitize.{is_space, safe_token, is_token_bad, unless_bad, text_of}
use backupsheep.Dump.{
  AuthDatabase, is_end, put_first, split, join, f_string, table_text, remote_pg_dump, table_argv,
  local_pg_dump,
}

-- A text with no space in it, and not empty
abbrev pub IsWord : Text → Type 0
IsWord t = (t ≢ []) × All (λ c. is_space c ≡ false) t

-- The first character of a word goes in front of the word that stands behind it.
split-more :
    (c : ℕ) (cs : Text) (w : Text) (ws : List Text)
    → is_space c ≡ false
    → is_end cs ≡ false
    → split cs ≡ w ∷ ws
    → split (c ∷ cs) ≡ (c ∷ w) ∷ ws
unfolding split put_first
split-more c cs w ws e f h = rw (e, f) (ap (put_first c) h)

split_one :
    (c : ℕ) (cs : Text)
    → is_space c ≡ false
    → is_end cs ≡ true
    → split (c ∷ cs) ≡ (c ∷ []) ∷ split cs
unfolding split
split_one c cs e f = rw (e, f) refl

split-space : (rest : Text) → split (b' ' ∷ rest) ≡ split rest
unfolding split is_space
split-space rest = refl

space_ends : is_space b' ' ≡ true
unfolding is_space
space_ends = refl

split_word_acc :
    (c : ℕ) (t rest : Text)
    → is_space c ≡ false
    → All (λ d. is_space d ≡ false) t
    → split (c ∷ t ++ b' ' ∷ rest) ≡ (c ∷ t) ∷ split rest
unfolding is_end
split_word_acc c [] rest e h =
    split_one c (b' ' ∷ rest) e space_ends ∙ ap (λ r. (c ∷ []) ∷ r) (split-space rest)
split_word_acc c (d ∷ ds) rest e (f, h) =
    split-more c (d ∷ ds ++ b' ' ∷ rest) (d ∷ ds) (split rest) e f (split_word_acc d ds rest f h)

split-word : (t rest : Text) → IsWord t → split (t ++ b' ' ∷ rest) ≡ t ∷ split rest
split-word [] rest (n, h) = absurd (n refl)
split-word (c ∷ t) rest (n, (e, h)) = split_word_acc c t rest e h

split_alone_acc :
    (c : ℕ) (t : Text)
    → is_space c ≡ false
    → All (λ d. is_space d ≡ false) t
    → split (c ∷ t) ≡ (c ∷ t) ∷ []
unfolding is_end split
split_alone_acc c [] e h = split_one c [] e refl
split_alone_acc c (d ∷ ds) e (f, h) =
    split-more c (d ∷ ds) (d ∷ ds) [] e f (split_alone_acc d ds f h)

split_alone : (t : Text) → IsWord t → split t ≡ t ∷ []
split_alone [] (n, h) = absurd (n refl)
split_alone (c ∷ t) (n, (e, h)) = split_alone_acc c t e h

split-join : (ws : List Text) → All IsWord ws → split (join ws) ≡ ws
unfolding join split
split-join [] h = refl
split-join (w ∷ []) (h, hs) = split_alone w h
split-join (w ∷ v ∷ ws) (h, hs) =
    split-word w (join (v ∷ ws)) h ∙ ap (λ r. w ∷ r) (split-join (v ∷ ws) hs)

put_first-IsWord :
    (c : ℕ) (ws : List Text) → is_space c ≡ false → All IsWord ws → All IsWord (put_first c ws)
unfolding put_first
put_first-IsWord c [] e h = ((cons≢nil, (e, tt)), tt)
put_first-IsWord c (w ∷ ws) e ((n, h), hs) = ((cons≢nil, (e, h)), hs)

split-IsWord : (t : Text) → All IsWord (split t)
unfolding split
split-IsWord [] = tt
split-IsWord (c ∷ cs) = elim (Bool-cases (is_space c)) [
  | inl e ↦ rw e (split-IsWord cs)
  | inr e ↦ elim (Bool-cases (is_end cs)) [
    | inl f ↦ rw (e, f) ((cons≢nil, (e, tt)), split-IsWord cs)
    | inr f ↦ rw (e, f) (put_first-IsWord c (split cs) e (split-IsWord cs))
  ]
]

-- What `safe_token` passes on has no space in it.
tokens-not_space : (t : Text) → any is_token_bad t ≡ false → All (λ c. is_space c ≡ false) t
unfolding any is_token_bad
tokens-not_space [] h = tt
tokens-not_space (c ∷ cs) h = (ground (arith, h), tokens-not_space cs (ground (arith, h)))

-- A value that is not empty and that the guard passes on
abbrev pub IsGuarded : Text → Type 0
IsGuarded t = (t ≢ []) × (safe_token (some t) ≡ some t)

abbrev pub IsGuardedTable : Option Text → Type 0
IsGuardedTable none = Unit
IsGuardedTable (some t) = IsGuarded t

guarded-IsWord : (t : Text) → IsGuarded t → IsWord t
unfolding safe_token unless_bad text_of
guarded-IsWord t (n, h) = elim (Bool-cases (any is_token_bad t)) [
  | inl e ↦ cc (simp e at h)
  | inr e ↦ (n, tokens-not_space t e)
]

show-IsWord : (n : ℕ) → IsWord (show n)
unfolding is_space
show-IsWord n = (show≢nil n, show-digits _ (λ d. ground arith) n)

pgpassfile-IsWord : (name : Text) → IsWord name → IsWord (codes "PGPASSFILE=~/" ++ name)
unfolding is_space
pgpassfile-IsWord name (n, h) = (
  cons≢nil,
  (
    refl,
    (
      refl,
      (refl, (refl, (refl, (refl, (refl, (refl, (refl, (refl, (refl, (refl, (refl, h))))))))))),
    ),
  ),
)

-- A value, with the flag of the next value behind it
split_flag :
    (w : Text) (c d : ℕ) (rest : Text) (ws : List Text)
    → IsWord w
    → IsWord (c ∷ d ∷ [])
    → split rest ≡ ws
    → split (w ++ b' ' ∷ c ∷ d ∷ b' ' ∷ rest) ≡ w ∷ (c ∷ d ∷ []) ∷ ws
split_flag w c d rest ws h f e =
    split-word w (c ∷ d ∷ b' ' ∷ rest) h
    ∙ ap (w ∷◌) (split-word (c ∷ d ∷ []) rest f)
    ∙ ap (λ r. w ∷ (c ∷ d ∷ []) ∷ r) e

option-IsWord : (c : ℕ) → is_space c ≡ false → IsWord (b'-' ∷ c ∷ [])
unfolding is_space
option-IsWord c e = (cons≢nil, (refl, (e, tt)))

split_table :
    (table : Option Text) (database options : Text)
    → IsWord database
    → IsGuardedTable table
    → split (f_string (database ∷ table_text table ∷ codes " " ∷ options ∷ []))
      ≡ database ∷ table_argv table ++ split options
unfolding table_text table_argv f_string is_space
split_table none database options d h = split-word database options d
split_table (some []) database options d (n, h) = absurd (n refl)
split_table (some (c ∷ cs)) database options d h =
    split_flag database b'-' b't' ((c ∷ cs) ++ b' ' ∷ options) _ d (option-IsWord b't' refl)
      (split-word (c ∷ cs) options (guarded-IsWord (c ∷ cs) h))

pg_dump-IsWord : IsWord (codes "pg_dump")
unfolding is_space
pg_dump-IsWord = (cons≢nil, (refl, (refl, (refl, (refl, (refl, (refl, (refl, tt))))))))

-- The command that `remote_pg_dump` builds from guarded values has the words of the command line that
-- `local_pg_dump` builds from them, behind the setting of the password file: no value runs into
-- another word.
pub split-remote_pg_dump :
    (name : Text) (auth : AuthDatabase) (username options database : Text) (table : Option Text)
    → IsGuarded name
    → IsGuarded auth.host
    → IsGuarded username
    → IsGuarded database
    → IsGuardedTable table
    → split (remote_pg_dump name auth username options database table)
      ≡ (codes "PGPASSFILE=~/" ++ name) ∷ local_pg_dump [] auth username options database table
unfolding remote_pg_dump local_pg_dump f_string is_space
split-remote_pg_dump name auth username options database table n h u d t =
    let database_on = f_string (database ∷ table_text table ∷ codes " " ∷ options ∷ []) in
    let username_on = username ++ (codes " -d " ++ database_on) in
    let port_on = show auth.port ++ (codes " -U " ++ username_on) in
    let host_on = auth.host ++ (codes " -p " ++ port_on) in
    let setting = codes "PGPASSFILE=~/" ++ name in
    let flag = option-IsWord in
    split-join _ (split-IsWord (setting ++ (codes " pg_dump -h " ++ host_on)))
    ∙ split-word setting (codes "pg_dump -h " ++ host_on)
        (pgpassfile-IsWord name (guarded-IsWord name n))
    ∙ ap (setting ∷◌) (
        split_flag (codes "pg_dump") b'-' b'h' host_on _ pg_dump-IsWord (flag b'h' refl) (
          split_flag auth.host b'-' b'p' port_on _ (guarded-IsWord auth.host h) (flag b'p' refl) (
            split_flag (show auth.port) b'-' b'U' username_on _ (show-IsWord auth.port)
              (flag b'U' refl)
              (split_flag username b'-' b'd' database_on _ (guarded-IsWord username u)
                (flag b'd' refl)
                (split_table table database options (guarded-IsWord database d) t)))))
