-- ===== src/Retention/Sorting.antt =====
-- `order_by("created")`: the same rows, oldest first.
use backupsheep.Prelude.{
  ℕ, zero, suc, ◌≤◌, ◌≡◌, refl, Bool, true, false, List, [], ◌∷◌, arith, count, length, All,
  All-mono, take, drop, leb, leb→le, if◌then◌else◌, Bool-cases, inl, inr,
}
use backupsheep.Model.Rows.{Backup}
use backupsheep.Retention.{insert_by_created, order_by_created}

-- No row is older than one before it.
abbrev pub IsOrdered : List Backup → Type 0
IsOrdered [] = Unit
IsOrdered (b ∷ bs) = All (λ c. b.created ≤ c.created) bs × IsOrdered bs

count-insert :
    (p : Backup → Bool) (b : Backup) (bs : List Backup)
    → count p (insert_by_created b bs) ≡ count p (b ∷ bs)
unfolding insert_by_created count
count-insert p b [] = refl
count-insert p b (c ∷ cs) = ground (arith, count-insert p b cs)

pub count-order :
    (p : Backup → Bool) (bs : List Backup) → count p (order_by_created bs) ≡ count p bs
unfolding order_by_created count
count-order p [] = refl
count-order p (b ∷ bs) = omega (arith, count-order p bs, count-insert p b (order_by_created bs))

length-insert : (b : Backup) (bs : List Backup) → length (insert_by_created b bs) ≡ suc (length bs)
unfolding insert_by_created
length-insert b [] = refl
length-insert b (c ∷ cs) = ground (arith, length-insert b cs)

pub length-order : (bs : List Backup) → length (order_by_created bs) ≡ length bs
unfolding order_by_created
length-order [] = refl
length-order (b ∷ bs) = omega (arith, length-order bs, length-insert b (order_by_created bs))

All-insert :
    (P : Backup → Type 0) (b : Backup) (bs : List Backup)
    → P b
    → All P bs
    → All P (insert_by_created b bs)
unfolding insert_by_created
All-insert P b [] h a = (h, tt)
All-insert P b (c ∷ cs) h a = elim (Bool-cases (leb b.created c.created)) [
  | inl before ↦ rw before (h, a)
  | inr after ↦ rw after (a.0, All-insert P b cs h a.1)
]

-- Where every row satisfies `P`, the ordered rows do too.
pub All-order : (P : Backup → Type 0) (bs : List Backup) → All P bs → All P (order_by_created bs)
unfolding order_by_created
All-order P [] a = tt
All-order P (b ∷ bs) a = All-insert P b (order_by_created bs) a.0 (All-order P bs a.1)

insert-IsOrdered :
    (b : Backup) (bs : List Backup) → IsOrdered bs → IsOrdered (insert_by_created b bs)
unfolding insert_by_created
insert-IsOrdered b [] h = (tt, tt)
insert-IsOrdered b (c ∷ cs) h = elim (Bool-cases (leb b.created c.created)) [
  | inl before ↦
      let le : b.created ≤ c.created = leb→le b.created c.created before in
      rw before (
        (
          le,
          All-mono {κ = λ d. c.created ≤ d.created} {θ = λ d. b.created ≤ d.created} cs
              (λ d l. omega arith) h.0,
        ),
        h,
      )
  | inr after ↦
      let le : c.created ≤ b.created = ground arith in
      rw after (All-insert (λ d. c.created ≤ d.created) b cs le h.0, insert-IsOrdered b cs h.1)
]

pub order-IsOrdered : (bs : List Backup) → IsOrdered (order_by_created bs)
unfolding order_by_created
order-IsOrdered [] = tt
order-IsOrdered (b ∷ bs) = insert-IsOrdered b (order_by_created bs) (order-IsOrdered bs)

All-drop : (P : Backup → Type 0) (n : ℕ) (bs : List Backup) → All P bs → All P (drop n bs)
All-drop P zero bs a = a
All-drop P (suc n) [] a = tt
All-drop P (suc n) (b ∷ bs) a = All-drop P n bs a.1

All-zip : (P Q : Backup → Type 0) (bs : List Backup) → All P bs → All Q bs → All (λ b. P b × Q b) bs
All-zip P Q [] a c = tt
All-zip P Q (b ∷ bs) a c = ((a.0, c.0), All-zip P Q bs a.1 c.1)

-- A cut of an ordered list: nothing behind it is older than anything in front of it.
pub drop-newer :
    (n : ℕ) (bs : List Backup)
    → IsOrdered bs
    → All (λ kept. All (λ old. old.created ≤ kept.created) (take n bs)) (drop n bs)
drop-newer zero bs h = all_tt bs
  where
    all_tt : (cs : List Backup) → All (λ c. Unit {0}) cs
    all_tt [] = tt
    all_tt (c ∷ cs) = (tt, all_tt cs)
drop-newer (suc n) [] h = tt
drop-newer (suc n) (b ∷ bs) h =
    All-zip (λ c. b.created ≤ c.created)
      (λ kept. All (λ old. old.created ≤ kept.created) (take n bs)) (drop n bs)
      (All-drop (λ c. b.created ≤ c.created) n bs h.0) (drop-newer n bs h.1)

All-uninsert :
    (P : Backup → Type 0) (b : Backup) (bs : List Backup)
    → All P (insert_by_created b bs)
    → P b × All P bs
unfolding insert_by_created
All-uninsert P b [] a = a
All-uninsert P b (c ∷ cs) a = go (All-uninsert P b cs) (leb b.created c.created) a
  where
    go :
        (All P (insert_by_created b cs) → P b × All P cs)
        → (t : Bool) → All P (if t then b ∷ c ∷ cs else c ∷ insert_by_created b cs)
        → P b × All P (c ∷ cs)
    go rec true k = (k.0, k.1)
    go rec false k = let (h, r) = rec k.1 in (h, (k.0, r))

pub All-unorder : (P : Backup → Type 0) (bs : List Backup) → All P (order_by_created bs) → All P bs
unfolding order_by_created
All-unorder P [] a = tt
All-unorder P (b ∷ bs) a =
    let (h, r) = All-uninsert P b (order_by_created bs) a in (h, All-unorder P bs r)
