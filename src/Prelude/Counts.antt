-- ===== src/Prelude/Counts.antt =====
-- Bounds on the counts of rows, for invariants such as "at most one row is …".
use Prim.Native.Nat.{◌+◌, ◌≤◌, ◌<◌, suc}
use mathlib.Core.Path.{◌≡◌, refl}
use mathlib.Core.Bool.{Bool, true, false, not, ◌&&◌}
use mathlib.Core.Option.{some}
use mathlib.Core.List.{List, [], ◌∷◌}
use native.Mathlib.Omega.{arith}
use backupsheep.Prelude.Tests.{if◌then◌else◌}
use backupsheep.Prelude.Lists.{count, find?, update, All, count_split}

module _ {ℓ} {A : Type ℓ} where
  pub count_mono :
      (p q : A → Bool) (xs : List A) → ((x : A) → p x ≡ true → q x ≡ true) → count p xs ≤ count q xs
  unfolding count
  count_mono p q [] h = omega arith
  count_mono p q (x ∷ xs) h = ground (arith, h x, count_mono p q xs h)

  pub count_and_right : (p q : A → Bool) (xs : List A) → count (λ x. p x && q x) xs ≤ count q xs
  unfolding count
  count_and_right p q [] = omega arith
  count_and_right p q (x ∷ xs) = ground (arith, count_and_right p q xs)

  pub count_and_left : (p q : A → Bool) (xs : List A) → count (λ x. p x && q x) xs ≤ count p xs
  unfolding count
  count_and_left p q [] = omega arith
  count_and_left p q (x ∷ xs) = ground (arith, count_and_left p q xs)

  -- A row outside `r` is outside `q`, or is in `q` and outside `r`.
  pub count_cover :
      (p q r : A → Bool) (xs : List A)
      → count (λ x. p x && not (r x)) xs
        ≤ count (λ x. p x && not (q x)) xs + count (λ x. q x && not (r x)) xs
  unfolding count
  count_cover p q r [] = omega arith
  count_cover p q r (x ∷ xs) = ground (arith, count_cover p q r xs)

  -- The row that a query finds is counted, with what else is known of it.
  pub count-found :
      (p q : A → Bool) (xs : List A) (x : A)
      → find? p xs ≡ some x
      → q x ≡ true
      → 0 < count (λ y. p y && q y) xs
  unfolding count find?
  count-found p q [] x h k = ground arith
  count-found p q (y ∷ ys) x h k = ground (arith, count-found p q ys x)

  pub count-All_none :
      {κ : A → Type 0} (p : A → Bool) (xs : List A)
      → ((x : A) → κ x → p x ≡ false)
      → All κ xs
      → count p xs ≡ 0
  unfolding count
  count-All_none p [] h a = refl
  count-All_none p (x ∷ xs) h a = ground (arith, h x a.0, count-All_none p xs h a.1)

  pub All-update :
      {κ : A → Type 0} (p : A → Bool) (f : A → A) (xs : List A)
      → ((x : A) → κ x → κ (f x))
      → All κ xs
      → All κ (update p f xs)
  unfolding update
  All-update p f [] h a = tt
  All-update {κ} p f (x ∷ xs) h a = (if_cases (p x), All-update p f xs h a.1)
    where
      if_cases : (b : Bool) → κ (if b then f x else x)
      if_cases true = h x a.0
      if_cases false = a.0

  pub All-mono : {κ θ : A → Type 0} (xs : List A) → ((x : A) → κ x → θ x) → All κ xs → All θ xs
  All-mono [] h a = tt
  All-mono (x ∷ xs) h a = (h x a.0, All-mono xs h a.1)

  -- The rows that an update changes are counted by what they become.
  pub count_le-update :
      (p q : A → Bool) (f : A → A) (xs : List A)
      → ((x : A) → p x ≡ true → q (f x) ≡ true)
      → count p xs ≤ count q (update p f xs)
  unfolding count update
  count_le-update p q f [] h = omega arith
  count_le-update p q f (x ∷ xs) h = ground (arith, h x, count_le-update p q f xs h)

  pub count_comm :
      (p q : A → Bool) (xs : List A) → count (λ x. p x && q x) xs ≡ count (λ x. q x && p x) xs
  unfolding count
  count_comm p q [] = refl
  count_comm p q (x ∷ xs) = ground (arith, count_comm p q xs)

  -- What an update leaves of a query: the other rows of it, and those that the update makes rows of it.
  pub count-update :
      (p q : A → Bool) (f : A → A) (xs : List A)
      → count p (update q f xs) ≡ count (λ x. p x && not (q x)) xs + count (λ x. q x && p (f x)) xs
  unfolding count update
  count-update p q f [] = omega arith
  count-update p q f (x ∷ xs) = ground (arith, count-update p q f xs)

  -- An update that turns the one row of `q` into a row of `p`, which it was not, adds one.
  pub count-update_one :
      (p q : A → Bool) (f : A → A) (xs : List A) (x : A)
      → find? q xs ≡ some x
      → p x ≡ false
      → p (f x) ≡ true
      → count q xs ≤ 1
      → count p (update q f xs) ≡ suc (count p xs)
  count-update_one p q f xs x found out into one = omega (
    arith,
    one,
    count-update p q f xs,
    count-found q (λ y. p (f y)) xs x found into,
    count_and_left q (λ y. p (f y)) xs,
    count-found q (λ y. not (p y)) xs x found (rw out),
    count_split q p xs,
    count_comm q p xs,
    count_split p q xs,
  )
