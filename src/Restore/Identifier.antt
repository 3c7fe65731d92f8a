-- ===== src/Restore/Identifier.antt =====
-- The name of a restored RDS instance, in CoreAWSRDS.restore_snapshot of apps/console/node/models.py.
-- Texts are ASCII.
pub mod Formed
use backupsheep.Prelude.{
  ℕ, Bool, true, false, not, ◌&&◌, ◌||◌, [], ◌∷◌, map, Option, none, some, leb, ◌==◌, take,
  if◌then◌else◌,
}
use backupsheep.Model.Rows.{Text}

-- `[a-zA-Z]`
unfoldable pub is_letter : ℕ → Bool
is_letter c = leb b'a' c && leb c b'z' || leb b'A' c && leb c b'Z'

-- `[a-zA-Z0-9-]`
unfoldable pub is_allowed : ℕ → Bool
unfolding is_letter
is_allowed c = is_letter c || leb b'0' c && leb c b'9' || c == b'-'

-- `re.sub(r"[^a-zA-Z0-9-]", "-", name)`
unfoldable pub replace_others : Text → Text
unfolding is_allowed
replace_others name = map (λ c. if is_allowed c then c else b'-') name

-- Whether the text begins with a hyphen
unfoldable pub begins_hyphen : Text → Bool
begins_hyphen [] = false
begins_hyphen (c ∷ cs) = c == b'-'

-- `re.sub(r"-+", "-", identifier)`
unfoldable pub collapse_hyphens : Text → Text
unfolding begins_hyphen
collapse_hyphens [] = []
collapse_hyphens (c ∷ cs) =
    let rest = collapse_hyphens cs in if c == b'-' && begins_hyphen rest then rest else c ∷ rest

-- `re.sub(r"^[^a-zA-Z]+", "", identifier)`
unfoldable pub drop_to_letter : Text → Text
unfolding is_letter
drop_to_letter [] = []
drop_to_letter (c ∷ cs) = let rest = drop_to_letter cs in if is_letter c then c ∷ cs else rest

-- A character in front of a text whose last hyphens are stripped
unfoldable pub strip_one : ℕ → Text → Text
strip_one c [] = if c == b'-' then [] else c ∷ []
strip_one c (d ∷ ds) = c ∷ d ∷ ds

-- `rstrip("-")`
unfoldable pub strip_hyphens : Text → Text
unfolding strip_one
strip_hyphens [] = []
strip_hyphens (c ∷ cs) = strip_one c (strip_hyphens cs)

unfoldable pub rds_identifier : Text → Text
unfolding replace_others collapse_hyphens drop_to_letter strip_hyphens
rds_identifier name =
    strip_hyphens (take 63 (drop_to_letter (collapse_hyphens (replace_others name))))

-- `if not identifier: raise`
unfoldable pub unless_empty : Text → Option Text
unless_empty [] = none
unless_empty (c ∷ cs) = some (c ∷ cs)

unfoldable pub restore_identifier : Text → Option Text
unfolding rds_identifier unless_empty
restore_identifier name = unless_empty (rds_identifier name)
