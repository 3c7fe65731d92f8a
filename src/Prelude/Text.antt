-- ===== src/Prelude/Text.antt =====
-- Texts as lists of code points, and the decimal print of a number.
use Prim.Native.Nat.{ℕ, zero, suc, ◌+◌, ◌/◌, ◌%◌}
use Prim.Native.Char.{code}
use Prim.Native.String.{String}
use mathlib.Core.List.{List, [], ◌∷◌, cons≢nil}
use mathlib.Core.Path.{◌≡◌, refl}
use mathlib.Core.Logic.{◌≢◌, inl, inr}
use mathlib.Core.Bool.{Bool, true, false, ◌&&◌}
use native.Mathlib.Omega.{arith}
use backupsheep.Prelude.Lists.{All}
use backupsheep.Prelude.Tests.{Bool-cases, ◌==◌, ltb, if◌then◌else◌}

abbrev pub codes : String → List ℕ
codes String.[] = []
codes (String.◌∷◌ c s) = code c ∷ codes s

-- The digits of `n` in front of `acc`; `n + 1` rounds are enough, since `n / 10 < n`.
show_digits : ℕ → ℕ → List ℕ → List ℕ
show_digits zero n acc = acc
show_digits (suc fuel) n acc =
    let digit = b'0' + n % 10 in
    let rest = show_digits fuel (n / 10) (digit ∷ acc) in if ltb n 10 then digit ∷ acc else rest

-- `str(n)`
unfoldable pub show : ℕ → List ℕ
unfolding show_digits
show n = show_digits (suc n) n []

show_digits-All {κ} :
    (P : ℕ → Type κ) (good : (d : ℕ) → P (b'0' + d % 10)) (fuel n : ℕ) (acc : List ℕ)
    → All P acc
    → All P (show_digits fuel n acc)
unfolding show_digits
show_digits-All P good zero n acc h = h
show_digits-All P good (suc fuel) n acc h = elim (Bool-cases (ltb n 10)) [
  | inl e ↦ rw e (good n, h)
  | inr e ↦ rw e (show_digits-All P good fuel (n / 10) _ (good n, h))
]

-- What holds for each digit holds for each character of a printed number.
pub show-digits {κ} : (P : ℕ → Type κ) (good : (d : ℕ) → P (b'0' + d % 10)) (n : ℕ) → All P (show n)
unfolding show
show-digits P good n = show_digits-All P good (suc n) n [] tt

-- A number is printed on one line.
pub show-All : (n : ℕ) → All (λ c. (c == b'\n') ≡ false) (show n)
show-All = show-digits _ (λ d. ground arith)

show_digits≢nil : (fuel n d : ℕ) (acc : List ℕ) → show_digits fuel n (d ∷ acc) ≢ []
unfolding show_digits
show_digits≢nil zero n d acc = cons≢nil
show_digits≢nil (suc fuel) n d acc = elim (Bool-cases (ltb n 10)) [
  | inl e ↦ rw e cons≢nil
  | inr e ↦ rw e (show_digits≢nil fuel (n / 10) _ (d ∷ acc))
]

-- A printed number is not empty.
pub show≢nil : (n : ℕ) → show n ≢ []
unfolding show show_digits
show≢nil n = elim (Bool-cases (ltb n 10)) [
  | inl e ↦ rw e cons≢nil
  | inr e ↦ rw e (show_digits≢nil n (n / 10) _ [])
]

-- Equality of texts
unfoldable pub text_eq : List ℕ → List ℕ → Bool
text_eq [] [] = true
text_eq [] (d ∷ ds) = false
text_eq (c ∷ cs) [] = false
text_eq (c ∷ cs) (d ∷ ds) = c == d && text_eq cs ds

pub text_eq-≡ : (s t : List ℕ) → text_eq s t ≡ true → s ≡ t
unfolding text_eq
text_eq-≡ [] [] h = refl
text_eq-≡ [] (d ∷ ds) h = cc
text_eq-≡ (c ∷ cs) [] h = cc
text_eq-≡ (c ∷ cs) (d ∷ ds) h = ground (arith, text_eq-≡ cs ds)

pub text_eq_self : (s : List ℕ) → text_eq s s ≡ true
unfolding text_eq
text_eq_self [] = refl
text_eq_self (c ∷ cs) = ground (arith, text_eq_self cs)
