-- ===== src/Prelude/Finds.antt =====
-- What `find?` gives after updates and for other queries.
use Prim.Native.Nat.{◌≤◌, ◌<◌}
use mathlib.Core.Path.{◌≡◌}
use mathlib.Core.Bool.{Bool, true}
use mathlib.Core.Option.{some}
use mathlib.Core.List.{List, [], ◌∷◌}
use native.Mathlib.Omega.{arith}
use backupsheep.Prelude.Lists.{count, find?, update}

module _ {ℓ} {A : Type ℓ} where
  -- The found row is counted by every query that it satisfies.
  pub count-found_other :
      (p q : A → Bool) (xs : List A) (x : A) → find? p xs ≡ some x → q x ≡ true → 0 < count q xs
  unfolding count find?
  count-found_other p q [] x h k = ground arith
  count-found_other p q (y ∷ ys) x h k = ground (arith, count-found_other p q ys x)

  -- Where at most one row satisfies `q`, the row found by `p` is also found by `q`.
  pub find_unique :
      (p q : A → Bool) (xs : List A) (x : A)
      → find? p xs ≡ some x
      → q x ≡ true
      → count q xs ≤ 1
      → find? q xs ≡ some x
  unfolding count find?
  find_unique p q [] x h k few = ground arith
  find_unique p q (y ∷ ys) x h k few =
      ground (arith, find_unique p q ys x, count-found_other p q ys x)

  -- The row that `p` finds after an update of the rows of `p`.
  pub find-update :
      (p : A → Bool) (f : A → A) (xs : List A) (x : A)
      → ((y : A) → p (f y) ≡ p y)
      → find? p xs ≡ some x
      → find? p (update p f xs) ≡ some (f x)
  unfolding find? update
  find-update p f [] x keep h = ground arith
  find-update p f (y ∷ ys) x keep h = ground (arith, keep y, find-update p f ys x keep)
