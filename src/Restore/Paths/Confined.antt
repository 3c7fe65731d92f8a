-- ===== src/Restore/Paths/Confined.antt =====
-- What the checks of paths let through.
use backupsheep.Prelude.{
  ◌≡◌, refl, ap, Bool, true, false, not, ◌&&◌, ◌||◌, List, [], ◌∷◌, ◌++◌, Option, none, some,
  if◌then◌else◌, arith, All, Bool-cases, inl, inr, ◌⊎◌, ◌↔◌, ◌∙◌,
}
use backupsheep.Prelude.Text.{text_eq, text_eq-≡, text_eq_self}
use backupsheep.Model.Rows.{Text}
use backupsheep.Restore.Paths.{
  starts_with, is_below, RestoreError, refused, path, local_source_path, check_members,
}

starts_with-rest : (p t : Text) → starts_with p t ≡ true → (rest : Text) × (t ≡ p ++ rest)
unfolding starts_with
starts_with-rest [] t h = (t, refl)
starts_with-rest (c ∷ cs) [] h = cc
starts_with-rest (c ∷ cs) (d ∷ ds) h =
    let (same, below) = split in let (rest, e) = starts_with-rest cs ds below in (rest, cc)
  where
    split : (c ≡ d) × (starts_with cs ds ≡ true)
    split = ground (arith, h)

starts_with-append : (p rest : Text) → starts_with p (p ++ rest) ≡ true
unfolding starts_with
starts_with-append [] rest = refl
starts_with-append (c ∷ cs) rest = ground (arith, starts_with-append cs rest)

under_root : (root rest : Text) → (root ++ b'/' ∷ []) ++ rest ≡ root ++ b'/' ∷ rest
under_root [] rest = refl
under_root (c ∷ cs) rest = ap (λ t. c ∷ t) (under_root cs rest)

-- The path is a file or a directory below the root.
abbrev pub IsBelow : Text → Text → Type 0
IsBelow root t = (rest : Text) × (t ≡ root ++ b'/' ∷ rest)

-- The path is the root or is below it.
abbrev pub IsInside : Text → Text → Type 0
IsInside root t = (t ≡ root) ⊎ IsBelow root t

is_below-IsBelow : (root t : Text) → is_below root t ≡ true → IsBelow root t
unfolding is_below
is_below-IsBelow root t h =
    let (rest, e) = starts_with-rest (root ++ b'/' ∷ []) t h in (rest, e ∙ under_root root rest)

IsBelow-is_below : (root t : Text) → IsBelow root t → is_below root t ≡ true
unfolding is_below
IsBelow-is_below root t (rest, e) =
    simp e (simp (← under_root root rest) (starts_with-append (root ++ b'/' ∷ []) rest))

pub IsInside-of_pass :
    (root t : Text) → (not (text_eq t root) && not (is_below root t)) ≡ false → IsInside root t
IsInside-of_pass root t h = elim (Bool-cases (text_eq t root)) [
  | inl e ↦ inl (text_eq-≡ t root e)
  | inr e ↦ inr (is_below-IsBelow root t (ground (arith, h, e)))
]

pass-of_IsInside :
    (root t : Text) → IsInside root t → (not (text_eq t root) && not (is_below root t)) ≡ false
pass-of_IsInside root t (inl e) = simp e (simp (text_eq_self root) refl)
pass-of_IsInside root t (inr b) = ground (arith, IsBelow-is_below root t b)

-- The members of an archive pass the check exactly when the extraction path of each is the
-- destination or below it, whatever `os.path.realpath` makes of the names.
pub check_members-IsInside :
    (resolve : Text → Text) (root : Text) (names : List Text)
    → (check_members resolve root names ≡ none) ↔ All (λ name. IsInside root (resolve name)) names
unfolding check_members
check_members-IsInside resolve root names = (safe names, pass names)
  where
    safe :
        (names : List Text)
        → check_members resolve root names ≡ none
        → All (λ name. IsInside root (resolve name)) names
    safe [] h = tt
    safe (name ∷ names) h =
        elim (Bool-cases
          (not (text_eq (resolve name) root) && not (is_below root (resolve name)))) [
            | inl e ↦ let k = simp e at h in cc
            | inr e ↦ (IsInside-of_pass root (resolve name) e, safe names (simp e at h))
          ]

    pass :
        (names : List Text)
        → All (λ name. IsInside root (resolve name)) names
        → check_members resolve root names ≡ none
    pass [] a = refl
    pass (name ∷ names) (a, rest) = simp (pass-of_IsInside root (resolve name) a) (pass names rest)

-- A local file that is restored from is below the resolved storage root, and is a file.
pub local_source_path-IsBelow :
    (realpath : Text → Text) (is_file : Text → Bool) (storage_root : Text) (file_id : Option Text)
    (t : Text)
    → local_source_path realpath is_file storage_root file_id ≡ path t
    → IsBelow (realpath storage_root) t × (is_file t ≡ true)
unfolding local_source_path
local_source_path-IsBelow realpath is_file storage_root file_id t h =
    let (below, (file, same)) =
      passed (realpath storage_root) (realpath (elim file_id [ none ↦ [] | some x ↦ x ])) h in
    let (rest, e) = is_below-IsBelow (realpath storage_root) _ below in ((rest, cc), cc)
  where
    passed :
        (root target : Text)
        → (if text_eq target root || not (is_below root target)
            then refused RestoreError.escapes_root
            else if is_file target
            then path target
            else refused RestoreError.not_found)
          ≡ path t
        → (is_below root target ≡ true) × ((is_file target ≡ true) × (target ≡ t))
    passed root target h = ground (arith, h)
