-- ===== src/Restore/Identifier/Formed.antt =====
-- The names of restored RDS instances keep to the rules for such names.
use backupsheep.Prelude.{
  ℕ, zero, suc, ◌≤◌, ◌≡◌, refl, sym, ◌∙◌, Bool, true, false, ◌&&◌, [], ◌∷◌, Option, none, some,
  ◌==◌, take, if◌then◌else◌, length, All, any, arith, Bool-cases, inl, inr,
}
use mathlib.Core.Bool.{false≢true}
use backupsheep.Model.Rows.{Text}
use backupsheep.Restore.Identifier.{
  is_letter, is_allowed, replace_others, begins_hyphen, collapse_hyphens, drop_to_letter, strip_one,
  strip_hyphens, rds_identifier, unless_empty, restore_identifier,
}

abbrev pub IsAllowed : Text → Type 0
IsAllowed t = All (λ c. is_allowed c ≡ true) t

-- No hyphen stands right before another.
abbrev pub IsSpaced : Text → Type 0
IsSpaced [] = Unit
IsSpaced (c ∷ cs) = ((c == b'-' && begins_hyphen cs) ≡ false) × IsSpaced cs

abbrev pub BeginsWithLetter : Text → Type 0
BeginsWithLetter [] = Unit
BeginsWithLetter (c ∷ cs) = is_letter c ≡ true

abbrev pub ends_hyphen : Text → Bool
ends_hyphen [] = false
ends_hyphen (c ∷ []) = c == b'-'
ends_hyphen (c ∷ d ∷ ds) = ends_hyphen (d ∷ ds)

replace_others-IsAllowed : (t : Text) → IsAllowed (replace_others t)
unfolding replace_others is_allowed is_letter
replace_others-IsAllowed [] = tt
replace_others-IsAllowed (c ∷ cs) = (ground arith, replace_others-IsAllowed cs)

collapse_hyphens-IsAllowed : (t : Text) → IsAllowed t → IsAllowed (collapse_hyphens t)
unfolding collapse_hyphens
collapse_hyphens-IsAllowed [] h = tt
collapse_hyphens-IsAllowed (c ∷ cs) (h, hs) =
    elim (Bool-cases (c == b'-' && begins_hyphen (collapse_hyphens cs))) [
      | inl e ↦ rw e (collapse_hyphens-IsAllowed cs hs)
      | inr e ↦ rw e (h, collapse_hyphens-IsAllowed cs hs)
    ]

collapse_hyphens-IsSpaced : (t : Text) → IsSpaced (collapse_hyphens t)
unfolding collapse_hyphens
collapse_hyphens-IsSpaced [] = tt
collapse_hyphens-IsSpaced (c ∷ cs) =
    elim (Bool-cases (c == b'-' && begins_hyphen (collapse_hyphens cs))) [
      | inl e ↦ rw e (collapse_hyphens-IsSpaced cs)
      | inr e ↦ rw e (e, collapse_hyphens-IsSpaced cs)
    ]

-- The texts with allowed characters and no two hyphens in a row.
abbrev pub IsClean : Text → Type 0
IsClean t = IsAllowed t × IsSpaced t

drop_to_letter-IsClean : (t : Text) → IsClean t → IsClean (drop_to_letter t)
unfolding drop_to_letter
drop_to_letter-IsClean [] h = h
drop_to_letter-IsClean (c ∷ cs) ((h, hs), (s, ss)) = elim (Bool-cases (is_letter c)) [
  | inl e ↦ rw e ((h, hs), (s, ss))
  | inr e ↦ rw e (drop_to_letter-IsClean cs (hs, ss))
]

-- `p` is a prefix of `t`; a prefix of a clean text is clean.
data IsPrefix : Text → Text → Type 0 where
  empty : (t : Text) → IsPrefix [] t
  more : (c : ℕ) (p t : Text) → IsPrefix p t → IsPrefix (c ∷ p) (c ∷ t)

hyphens_prefix :
    (x : Bool) (p t : Text)
    → IsPrefix p t
    → (x && begins_hyphen t) ≡ false
    → (x && begins_hyphen p) ≡ false
unfolding begins_hyphen
hyphens_prefix true _ _ (IsPrefix.empty t) h = refl
hyphens_prefix false _ _ (IsPrefix.empty t) h = refl
hyphens_prefix x _ _ (IsPrefix.more c p t r) h = h

IsClean-prefix : (p t : Text) → IsPrefix p t → IsClean t → IsClean p
IsClean-prefix _ _ (IsPrefix.empty t) h = (tt, tt)
IsClean-prefix _ _ (IsPrefix.more c p t r) ((h, hs), (s, ss)) =
    let (a, q) = IsClean-prefix p t r (hs, ss) in ((h, a), (hyphens_prefix (c == b'-') p t r s, q))

length-prefix : (p t : Text) → IsPrefix p t → length p ≤ length t
length-prefix _ _ (IsPrefix.empty t) = omega arith
length-prefix _ _ (IsPrefix.more c p t r) = omega (arith, length-prefix p t r)

take-IsPrefix : (n : ℕ) (t : Text) → IsPrefix (take n t) t
take-IsPrefix zero t = IsPrefix.empty t
take-IsPrefix (suc n) [] = IsPrefix.empty []
take-IsPrefix (suc n) (c ∷ cs) = IsPrefix.more c (take n cs) cs (take-IsPrefix n cs)

length-take : (n : ℕ) (t : Text) → length (take n t) ≤ n
length-take zero t = omega arith
length-take (suc n) [] = omega arith
length-take (suc n) (c ∷ cs) = omega (arith, length-take n cs)

strip_one-IsPrefix : (c : ℕ) (s t : Text) → IsPrefix s t → IsPrefix (strip_one c s) (c ∷ t)
unfolding strip_one
strip_one-IsPrefix c [] t r = elim (Bool-cases (c == b'-')) [
  | inl e ↦ rw e (IsPrefix.empty (c ∷ t))
  | inr e ↦ rw e (IsPrefix.more c [] t (IsPrefix.empty t))
]
strip_one-IsPrefix c (d ∷ ds) t r = IsPrefix.more c (d ∷ ds) t r

strip_hyphens-IsPrefix : (t : Text) → IsPrefix (strip_hyphens t) t
unfolding strip_hyphens
strip_hyphens-IsPrefix [] = IsPrefix.empty []
strip_hyphens-IsPrefix (c ∷ cs) =
    strip_one-IsPrefix c (strip_hyphens cs) cs (strip_hyphens-IsPrefix cs)

strip_one_ends : (c : ℕ) (s : Text) → ends_hyphen s ≡ false → ends_hyphen (strip_one c s) ≡ false
unfolding strip_one
strip_one_ends c [] h = elim (Bool-cases (c == b'-')) [ inl e ↦ rw e refl | inr e ↦ rw e e ]
strip_one_ends c (d ∷ ds) h = h

strip_hyphens_ends : (t : Text) → ends_hyphen (strip_hyphens t) ≡ false
unfolding strip_hyphens
strip_hyphens_ends [] = refl
strip_hyphens_ends (c ∷ cs) = strip_one_ends c (strip_hyphens cs) (strip_hyphens_ends cs)

-- The rules for the identifier of an RDS instance
pub record IsIdentifier (t : Text) : Type 0 where
  pub letter : BeginsWithLetter t
  pub allowed : IsAllowed t
  pub spaced : IsSpaced t
  pub unhyphened : ends_hyphen t ≡ false
  pub short : length t ≤ 63

letter_replaced : (c : ℕ) → is_letter (if is_allowed c then c else b'-') ≡ is_letter c
unfolding is_letter is_allowed
letter_replaced c = ground arith

any-replace_others : (t : Text) → any is_letter (replace_others t) ≡ any is_letter t
unfolding replace_others any
any-replace_others [] = refl
any-replace_others (c ∷ cs) = rw (letter_replaced c, any-replace_others cs) refl

hyphen_unlettered : (c : ℕ) → (c == b'-') ≡ true → is_letter c ≡ false
unfolding is_letter
hyphen_unlettered c h = ground (arith, h)

and_left : (a b : Bool) → (a && b) ≡ true → a ≡ true
and_left true b h = refl
and_left false b h = h

any-collapse_hyphens : (t : Text) → any is_letter (collapse_hyphens t) ≡ any is_letter t
unfolding collapse_hyphens any
any-collapse_hyphens [] = refl
any-collapse_hyphens (c ∷ cs) =
    elim (Bool-cases (c == b'-' && begins_hyphen (collapse_hyphens cs))) [
      | inl e ↦ rw (e, hyphen_unlettered c (and_left (c == b'-') _ e)) (any-collapse_hyphens cs)
      | inr e ↦ rw (e, any-collapse_hyphens cs) refl
    ]

-- What is dropped to a letter is empty exactly where there is none.
drop_to_letter-empty : (t : Text) → any is_letter t ≡ false → drop_to_letter t ≡ []
unfolding drop_to_letter any
drop_to_letter-empty [] h = refl
drop_to_letter-empty (c ∷ cs) h = elim (Bool-cases (is_letter c)) [
  | inl e ↦ cc (simp e at h)
  | inr e ↦ rw e (drop_to_letter-empty cs (simp e at h))
]

abbrev HasLetterFirst : Text → Type 0
HasLetterFirst [] = ⊥
HasLetterFirst (c ∷ cs) = is_letter c ≡ true

drop_to_letter-HasLetterFirst :
    (t : Text) → any is_letter t ≡ true → HasLetterFirst (drop_to_letter t)
unfolding drop_to_letter any
drop_to_letter-HasLetterFirst [] h = cc
drop_to_letter-HasLetterFirst (c ∷ cs) h = elim (Bool-cases (is_letter c)) [
  | inl e ↦ rw e e
  | inr e ↦ rw e (drop_to_letter-HasLetterFirst cs (simp e at h))
]

strip_one-HasLetterFirst : (c : ℕ) (s : Text) → is_letter c ≡ true → HasLetterFirst (strip_one c s)
unfolding strip_one
strip_one-HasLetterFirst c [] h = elim (Bool-cases (c == b'-')) [
  | inl e ↦ absurd (false≢true (sym (hyphen_unlettered c e) ∙ h))
  | inr e ↦ rw e h
]
strip_one-HasLetterFirst c (d ∷ ds) h = h

strip_hyphens-HasLetterFirst : (t : Text) → HasLetterFirst t → HasLetterFirst (strip_hyphens t)
unfolding strip_hyphens
strip_hyphens-HasLetterFirst [] h = absurd h
strip_hyphens-HasLetterFirst (c ∷ cs) h = strip_one-HasLetterFirst c (strip_hyphens cs) h

take-HasLetterFirst : (n : ℕ) (t : Text) → HasLetterFirst t → HasLetterFirst (take (suc n) t)
take-HasLetterFirst n [] h = absurd h
take-HasLetterFirst n (c ∷ cs) h = h

-- A name is given, which keeps to the rules, where there is a letter, and none otherwise.
abbrev pub IsNamed : Bool → Option Text → Type 0
IsNamed true none = ⊥
IsNamed true (some t) = IsIdentifier t
IsNamed false none = Unit
IsNamed false (some t) = ⊥

unless_empty-IsNamed :
    (t : Text)
    → HasLetterFirst t
    → IsClean t
    → ends_hyphen t ≡ false
    → length t ≤ 63
    → IsNamed true (unless_empty t)
unfolding unless_empty
unless_empty-IsNamed [] letter clean ends short = absurd letter
unless_empty-IsNamed (c ∷ cs) letter clean ends short = record {
  letter = letter;
  allowed = clean.0;
  spaced = clean.1;
  unhyphened = ends;
  short = short;
}

module _ (name : Text) where
  abbrev plain : Text
  plain = collapse_hyphens (replace_others name)

  plain-IsClean : IsClean plain
  plain-IsClean = (
    collapse_hyphens-IsAllowed (replace_others name) (replace_others-IsAllowed name),
    collapse_hyphens-IsSpaced (replace_others name),
  )

  plain_letters : any is_letter plain ≡ any is_letter name
  plain_letters = any-collapse_hyphens (replace_others name) ∙ any-replace_others name

  -- The identifier that a restored RDS instance is given begins with a letter, has only letters, digits
  -- and hyphens, no two hyphens in a row and none at the end, and at most 63 characters; the method
  -- raises exactly where the name of the restore has no letter.
  pub restore_identifier-IsNamed : IsNamed (any is_letter name) (restore_identifier name)
  unfolding restore_identifier rds_identifier
  restore_identifier-IsNamed = elim (Bool-cases (any is_letter name)) [
    | inl e ↦ rw e (
        unless_empty-IsNamed (strip_hyphens short)
          (strip_hyphens-HasLetterFirst short (
            take-HasLetterFirst 62 lettered
              (drop_to_letter-HasLetterFirst plain (plain_letters ∙ e))))
          (IsClean-prefix (strip_hyphens short) short (strip_hyphens-IsPrefix short) (
            IsClean-prefix short lettered (take-IsPrefix 63 lettered)
              (drop_to_letter-IsClean plain plain-IsClean)))
          (strip_hyphens_ends short)
          (omega (
            arith,
            length-prefix (strip_hyphens short) short (strip_hyphens-IsPrefix short),
            length-take 63 lettered,
          )))
    | inr e ↦ rw (e, drop_to_letter-empty plain (plain_letters ∙ e)) tt
  ]
    where
      lettered : Text
      lettered = drop_to_letter plain

      short : Text
      short = take 63 lettered
