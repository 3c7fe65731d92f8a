-- ===== src/Prelude/Lists.antt =====
-- Lists as database tables: selecting, counting and updating the rows that a query describes.
use Prim.Native.Nat.{ℕ, zero, suc, ◌+◌, ◌<◌}
use mathlib.Core.Path.{◌≡◌, refl, ap}
use mathlib.Core.Logic.{inl, inr}
use mathlib.Core.Bool.{Bool, true, false, not, ◌&&◌, ◌||◌}
use mathlib.Core.Option.{Option, none, some}
use mathlib.Core.List.{List, [], ◌∷◌, ◌++◌, map}
use native.Mathlib.Omega.{arith}
use backupsheep.Prelude.Tests.{if◌then◌else◌, Bool-cases}

module _ {ℓ} {A : Type ℓ} where
  abbrev pub length : List A → ℕ
  length [] = 0
  length (x ∷ xs) = suc (length xs)

  -- `objects.filter(p)`
  unfoldable pub filter : (A → Bool) → List A → List A
  filter p [] = []
  filter p (x ∷ xs) = let rest = filter p xs in if p x then x ∷ rest else rest

  -- `objects.filter(p).first()`
  unfoldable pub find? : (A → Bool) → List A → Option A
  find? p [] = none
  find? p (x ∷ xs) = if p x then some x else find? p xs

  -- `objects.filter(p).exists()`
  unfoldable pub any : (A → Bool) → List A → Bool
  any p [] = false
  any p (x ∷ xs) = p x || any p xs

  -- `objects.filter(p).count()`
  unfoldable pub count : (A → Bool) → List A → ℕ
  count p [] = 0
  count p (x ∷ xs) = (if p x then 1 else 0) + count p xs

  -- `objects.filter(p).update(f)`, or `save()` of the rows that `p` describes.
  unfoldable pub update : (A → Bool) → (A → A) → List A → List A
  update p f [] = []
  update p f (x ∷ xs) = (if p x then f x else x) ∷ update p f xs

  -- Every row satisfies `P`.
  abbrev pub All {κ} : (A → Type κ) → List A → Type κ
  All P [] = Unit
  All P (x ∷ xs) = P x × All P xs

  abbrev pub drop : ℕ → List A → List A
  drop zero xs = xs
  drop (suc n) [] = []
  drop (suc n) (x ∷ xs) = drop n xs

  abbrev pub take : ℕ → List A → List A
  take zero xs = []
  take (suc n) [] = []
  take (suc n) (x ∷ xs) = x ∷ take n xs

  pub count-append : (p : A → Bool) (xs ys : List A) → count p (xs ++ ys) ≡ count p xs + count p ys
  unfolding count
  count-append p [] ys = omega arith
  count-append p (x ∷ xs) ys = omega (arith, count-append p xs ys)

  pub length-append : (xs ys : List A) → length (xs ++ ys) ≡ length xs + length ys
  length-append [] ys = omega arith
  length-append (x ∷ xs) ys = omega (arith, length-append xs ys)

  pub length-filter : (p : A → Bool) (xs : List A) → length (filter p xs) ≡ count p xs
  unfolding filter count
  length-filter p [] = refl
  length-filter p (x ∷ xs) = ground (arith, length-filter p xs)

  -- Two saves of the same rows are one.
  pub update-update :
      (p : A → Bool) (f g : A → A)
      → ((x : A) → p (g x) ≡ p x)
      → (xs : List A) → update p f (update p g xs) ≡ update p (λ x. f (g x)) xs
  unfolding update
  update-update p f g h [] = refl
  update-update p f g h (x ∷ xs) = elim (Bool-cases (p x)) [
    | inl e ↦ rw (e, h x, e) (ap (λ ys. f (g x) ∷ ys) (update-update p f g h xs))
    | inr e ↦ rw (e, e) (ap (λ ys. x ∷ ys) (update-update p f g h xs))
  ]

  pub length-update : (p : A → Bool) (f : A → A) (xs : List A) → length (update p f xs) ≡ length xs
  unfolding update
  length-update p f [] = refl
  length-update p f (x ∷ xs) = omega (arith, length-update p f xs)

  pub count-of-find_none : (p : A → Bool) (xs : List A) → find? p xs ≡ none → count p xs ≡ 0
  unfolding find? count
  count-of-find_none p [] h = refl
  count-of-find_none p (x ∷ xs) h = ground (arith, count-of-find_none p xs)

  pub find_some : (p : A → Bool) (xs : List A) (x : A) → find? p xs ≡ some x → p x ≡ true
  unfolding find?
  find_some p [] x h = ground arith
  find_some p (y ∷ ys) x h = ground (arith, find_some p ys x)

  pub count-of-find_some :
      (p : A → Bool) (xs : List A) (x : A) → find? p xs ≡ some x → 0 < count p xs
  unfolding find? count
  count-of-find_some p [] x h = ground arith
  count-of-find_some p (y ∷ ys) x h = ground (arith, count-of-find_some p ys x)

  pub any-count : (p : A → Bool) (xs : List A) → any p xs ≡ true → 0 < count p xs
  unfolding any count
  any-count p [] h = ground arith
  any-count p (x ∷ xs) h = ground (arith, any-count p xs)

  pub any-count_zero : (p : A → Bool) (xs : List A) → any p xs ≡ false → count p xs ≡ 0
  unfolding any count
  any-count_zero p [] h = refl
  any-count_zero p (x ∷ xs) h = ground (arith, any-count_zero p xs)

  -- The rows that satisfy `p` are those that also satisfy `q` and those that do not.
  pub count_split :
      (p q : A → Bool) (xs : List A)
      → count p xs ≡ count (λ x. p x && q x) xs + count (λ x. p x && not (q x)) xs
  unfolding count
  count_split p q [] = omega arith
  count_split p q (x ∷ xs) = ground (arith, count_split p q xs)

  -- An update of the rows of `q` to rows that satisfy `p` leaves these and the others of `p`.
  pub count-update_into :
      (p q : A → Bool) (f : A → A) (xs : List A)
      → ((x : A) → p (f x) ≡ true)
      → count p (update q f xs) ≡ count (λ x. p x && not (q x)) xs + count q xs
  unfolding count update
  count-update_into p q f [] h = omega arith
  count-update_into p q f (x ∷ xs) h = ground (arith, h x, count-update_into p q f xs h)

  -- An update to rows that fail `p` leaves the others of `p`.
  pub count-update_out :
      (p q : A → Bool) (f : A → A) (xs : List A)
      → ((x : A) → p (f x) ≡ false)
      → count p (update q f xs) ≡ count (λ x. p x && not (q x)) xs
  unfolding count update
  count-update_out p q f [] h = omega arith
  count-update_out p q f (x ∷ xs) h = ground (arith, h x, count-update_out p q f xs h)

  -- An update that `p` does not see changes no count of `p`.
  pub count-update_same :
      (p q : A → Bool) (f : A → A) (xs : List A)
      → ((x : A) → p (f x) ≡ p x)
      → count p (update q f xs) ≡ count p xs
  unfolding count update
  count-update_same p q f [] h = refl
  count-update_same p q f (x ∷ xs) h = ground (arith, h x, count-update_same p q f xs h)

  pub All-append {κ} : (P : A → Type κ) (xs ys : List A) → All P xs → All P ys → All P (xs ++ ys)
  All-append P [] ys h k = k
  All-append P (x ∷ xs) ys h k = (h.0, All-append P xs ys h.1 k)

module _ {ℓ κ} {A : Type ℓ} {B : Type κ} where
  -- A column that an update does not write.
  pub map-update :
      (g : A → B) (p : A → Bool) (f : A → A) (xs : List A)
      → ((x : A) → g (f x) ≡ g x)
      → map g (update p f xs) ≡ map g xs
  unfolding update
  map-update g p f [] h = refl
  map-update g p f (x ∷ xs) h = ground (arith, h x, map-update g p f xs h)
