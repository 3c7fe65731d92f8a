-- ===== src/Storage/Chunks/Reads.antt =====
-- What `f.read` takes of a file and what it leaves.
use backupsheep.Prelude.{
  ℕ, zero, suc, ◌+◌, ◌≤◌, ◌<◌, ◌≡◌, refl, ◌⊎◌, inl, inr, [], ◌∷◌, ◌++◌, length, take, drop, leb,
  leb→le, arith, Bool-cases,
}
use backupsheep.Storage.Chunks.{Bytes}

pub take-drop : (n : ℕ) (xs : Bytes) → xs ≡ take n xs ++ drop n xs
take-drop zero xs = refl
take-drop (suc n) [] = refl
take-drop (suc n) (x ∷ xs) = cc (take-drop n xs)

pub length-take_short : (n : ℕ) (xs : Bytes) → length xs ≤ n → length (take n xs) ≡ length xs
length-take_short zero [] h = refl
length-take_short zero (x ∷ xs) h = omega (arith, h)
length-take_short (suc n) [] h = refl
length-take_short (suc n) (x ∷ xs) h = omega (arith, length-take_short n xs (omega (arith, h)))

pub length-take_full : (n : ℕ) (xs : Bytes) → n ≤ length xs → length (take n xs) ≡ n
length-take_full zero xs h = refl
length-take_full (suc n) [] h = omega (arith, h)
length-take_full (suc n) (x ∷ xs) h = omega (arith, length-take_full n xs (omega (arith, h)))

pub take_all : (n : ℕ) (xs : Bytes) → length xs ≤ n → take n xs ≡ xs
take_all zero [] h = refl
take_all zero (x ∷ xs) h = absurd (omega (arith, h))
take_all (suc n) [] h = refl
take_all (suc n) (x ∷ xs) h = cc (take_all n xs (omega (arith, h)))

pub length-take_bounds :
    (n : ℕ) (xs : Bytes) → (length (take n xs) ≤ n) × (length (take n xs) ≤ length xs)
length-take_bounds zero xs = (omega arith, omega arith)
length-take_bounds (suc n) [] = (omega arith, omega arith)
length-take_bounds (suc n) (x ∷ xs) =
    let (a, b) = length-take_bounds n xs in (omega (arith, a), omega (arith, b))

pub length-take_some : (n b : ℕ) (bs : Bytes) → 0 < n → 0 < length (take n (b ∷ bs))
length-take_some zero b bs h = absurd (omega (arith, h))
length-take_some (suc n) b bs h = omega arith

pub drop_all : (n : ℕ) (xs : Bytes) → length xs ≤ n → drop n xs ≡ []
drop_all zero [] h = refl
drop_all zero (x ∷ xs) h = absurd (omega (arith, h))
drop_all (suc n) [] h = refl
drop_all (suc n) (x ∷ xs) h = drop_all n xs (omega (arith, h))

-- A read either is full or reaches the end.
pub read-cases : (c : ℕ) (rest : Bytes) → (length (take c rest) ≡ c) ⊎ (drop c rest ≡ [])
read-cases c rest = elim (Bool-cases (leb c (length rest))) [
  | inl e ↦ inl (length-take_full c rest (leb→le c (length rest) e))
  | inr e ↦ inr (drop_all c rest (ground (arith, e)))
]

pub length-read : (c : ℕ) (rest : Bytes) → length (take c rest) + length (drop c rest) ≡ length rest
length-read zero rest = omega arith
length-read (suc c) [] = omega arith
length-read (suc c) (b ∷ bs) = omega (arith, length-read c bs)
