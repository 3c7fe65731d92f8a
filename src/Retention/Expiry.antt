-- ===== src/Retention/Expiry.antt =====
-- The completed backups that retention leaves.
use backupsheep.Prelude.{
  some, count_and_right, All-mono, All-append, if◌then◌else◌, ℕ, zero, suc, ◌+◌, ◌-◌, ◌≤◌, ◌<◌, ◌≡◌,
  refl, sym, ◌∙◌, ap, Bool, true, false, not, ◌&&◌, ◌||◌, List, [], ◌∷◌, ◌++◌, arith, count, any,
  filter, find?, length, All, take, drop, count_mono, count-append, length-filter, ◌==◌,
}
use Prim.Native.Nat.{min}
use mathlib.Core.Path.{subst}
use mathlib.Core.Bool.{false≢true}
use backupsheep.Model.Rows.{Backup, Db, has_id}
use backupsheep.Retention.{is_completed_of, order_by_created, expired, soft_delete_all}
use backupsheep.Retention.Sorting.{
  IsOrdered, count-order, length-order, order-IsOrdered, drop-newer, All-unorder,
}
use backupsheep.Retention.Deletes.{is_among, IsSoftDelete, count-eq, count-soft_delete_all}

pub count-filter :
    (p q : Backup → Bool) (xs : List Backup) → count q (filter p xs) ≡ count (λ x. p x && q x) xs
unfolding count filter
count-filter p q [] = refl
count-filter p q (x ∷ xs) = ground (arith, count-filter p q xs)

pub not_among_itself : (bs : List Backup) → count (λ x. not (is_among bs x)) bs ≡ 0
unfolding count any
not_among_itself [] = refl
not_among_itself (b ∷ bs) = ground (
  arith,
  not_among_itself bs,
  count_mono (λ x. not ((b.id == x.id) || is_among bs x)) (λ x. not (is_among bs x)) bs
      (λ x h. ground arith),
)

count_or :
    (p q : Backup → Bool) (xs : List Backup) → count (λ x. p x || q x) xs ≤ count p xs + count q xs
unfolding count
count_or p q [] = omega arith
count_or p q (x ∷ xs) = ground (arith, count_or p q xs)

-- With distinct ids, no later row is among the earlier ones.
none_among :
    (bs ds : List Backup) → ((i : ℕ) → count (has_id i) (bs ++ ds) ≤ 1) → count (is_among bs) ds ≡ 0
unfolding count any
none_among [] ds h = count-eq _ (λ x. false) ds (λ x. refl) ∙ zeros ds
  where
    zeros : (xs : List Backup) → count (λ x. false) xs ≡ 0
    zeros [] = refl
    zeros (x ∷ xs) = omega (arith, zeros xs)
none_among (b ∷ bs) ds h = ground (
  arith,
  h b.id,
  count-append (has_id b.id) bs ds,
  count-eq (λ x. b.id == x.id) (has_id b.id) ds (λ x. ground arith),
  count_or (λ x. b.id == x.id) (is_among bs) ds,
  none_among bs ds (λ i. ground (arith, h i)),
)

count-not :
    (p : Backup → Bool) (xs : List Backup) → count (λ x. not (p x)) xs + count p xs ≡ length xs
unfolding count
count-not p [] = refl
count-not p (x ∷ xs) = ground (arith, count-not p xs)

take-drop : (n : ℕ) (bs : List Backup) → take n bs ++ drop n bs ≡ bs
take-drop zero bs = refl
take-drop (suc n) [] = refl
take-drop (suc n) (b ∷ bs) = ap (λ cs. b ∷ cs) (take-drop n bs)

length-drop : (n : ℕ) (bs : List Backup) → length (drop n bs) ≡ length bs - n
length-drop zero bs = omega arith
length-drop (suc n) [] = omega arith
length-drop (suc n) (b ∷ bs) = omega (arith, length-drop n bs)

-- Of rows with distinct ids, those behind a cut are not among those in front of it.
count_behind_cut :
    (n : ℕ) (bs : List Backup)
    → ((i : ℕ) → count (has_id i) bs ≤ 1)
    → count (λ x. not (is_among (take n bs) x)) bs ≡ length bs - n
count_behind_cut n bs h = omega (
  arith,
  ap (count (λ x. not (is_among (take n bs) x))) (take-drop n bs),
  count-append (λ x. not (is_among (take n bs) x)) (take n bs) (drop n bs),
  not_among_itself (take n bs),
  count-not (is_among (take n bs)) (drop n bs),
  none_among (take n bs) (drop n bs) (λ i. rw (take-drop n bs) (h i)),
  length-drop n bs,
)

not_zero : (n : ℕ) → 0 < n → (n == 0) ≡ false
not_zero n h = ground (arith, h)

-- Where a schedule keeps at least one backup, and soft deletes keep their contract (each writes the row
-- of its backup alone, which is not complete after it), retention to `keep_last` backups leaves so many
-- of the completed backups of the schedule, or all of them where there are fewer.
pub expired-keep_last :
    (soft_delete : Backup → Db → Db) (d : IsSoftDelete soft_delete) (s keep_last : ℕ) (db : Db)
    → 0 < keep_last
    → ((i : ℕ) → count (has_id i) db.backups ≤ 1)
    → count
        (is_completed_of s)
        (soft_delete_all soft_delete (expired s keep_last db.backups) db).backups
      ≡ min keep_last (count (is_completed_of s) db.backups)
unfolding expired
expired-keep_last soft_delete d s keep_last db some_kept ids = rw (not_zero keep_last some_kept) (
    omega (
      arith,
      count-soft_delete_all soft_delete d s (take n completed) db,
      count-filter (is_completed_of s) (λ x. not (is_among (take n completed) x)) db.backups,
      count-order (λ x. not (is_among (take n completed) x)) rows,
      count_behind_cut n completed completed_ids,
      length-order rows,
      length-filter (is_completed_of s) db.backups,
    ))
  where
    rows : List Backup
    rows = filter (is_completed_of s) db.backups

    completed : List Backup
    completed = order_by_created rows

    n : ℕ
    n = length completed - keep_last

    completed_ids : (i : ℕ) → count (has_id i) completed ≤ 1
    completed_ids i = omega (
      arith,
      ids i,
      count-order (has_id i) rows,
      count-filter (is_completed_of s) (has_id i) db.backups,
      count_and_right (is_completed_of s) (has_id i) db.backups,
    )

among_itself : (bs : List Backup) → All (λ x. is_among bs x ≡ true) bs
unfolding any
among_itself [] = tt
among_itself (b ∷ bs) = (
  ground arith,
  All-mono {κ = λ x. is_among bs x ≡ true} bs (λ x h. ground arith) (among_itself bs),
)

-- What an ordered list keeps behind a cut is no older than what stands in front of it.
kept_newer :
    (n : ℕ) (bs : List Backup)
    → IsOrdered bs
    → All
        (λ x. is_among (take n bs) x ≡ false → All (λ old. old.created ≤ x.created) (take n bs))
        bs
kept_newer n bs h =
    subst
      (All (λ x. is_among (take n bs) x ≡ false → All (λ old. old.created ≤ x.created) (take n bs)))
      (take-drop n bs)
      (All-append _ (take n bs) (drop n bs)
        (All-mono {κ = λ x. is_among (take n bs) x ≡ true} (take n bs) (λ x e k. cc)
          (among_itself (take n bs)))
        (All-mono {κ = λ kept. All (λ old. old.created ≤ kept.created) (take n bs)} (drop n bs)
          (λ x a k. a) (drop-newer n bs h)))

All-unfilter :
    (P : Backup → Type 0) (p : Backup → Bool) (xs : List Backup)
    → All P (filter p xs)
    → All (λ x. p x ≡ true → P x) xs
unfolding filter
All-unfilter P p [] a = tt
All-unfilter P p (x ∷ xs) a = go (All-unfilter P p xs) (p x) refl a
  where
    go :
        (All P (filter p xs) → All (λ y. p y ≡ true → P y) xs)
        → (t : Bool) → p x ≡ t
        → All P (if t then x ∷ filter p xs else filter p xs)
        → (p x ≡ true → P x) × All (λ y. p y ≡ true → P y) xs
    go rec true e k = ((λ h. k.0), rec k.1)
    go rec false e k = ((λ h. absurd (false≢true (sym e ∙ h))), rec k)

All-found :
    (P : Backup → Type 0) (p : Backup → Bool) (xs : List Backup) (x : Backup)
    → All P xs
    → find? p xs ≡ some x
    → P x
unfolding find?
All-found P p [] x a h = cc
All-found P p (y ∷ ys) x a h = go (All-found P p ys x a.1) (p y) h
  where
    go :
        (find? p ys ≡ some x → P x) → (t : Bool) → (if t then some y else find? p ys) ≡ some x → P x
    go rec true e = let same : y ≡ x = cc in subst P same a.0
    go rec false e = rec e

-- A completed backup of the schedule that retention does not delete is no older than any that it does.
expired_oldest :
    (s keep_last i : ℕ) (backups : List Backup) (x : Backup)
    → find? (has_id i) backups ≡ some x
    → is_completed_of s x ≡ true
    → 0 < keep_last
    → is_among (expired s keep_last backups) x ≡ false
    → All (λ old. old.created ≤ x.created) (expired s keep_last backups)
unfolding expired
expired_oldest s keep_last i backups x found done some_kept kept =
    rw (not_zero keep_last some_kept) (
      All-found _ (has_id i) backups x
        (All-unfilter _ (is_completed_of s) backups
          (All-unorder _ rows (kept_newer n (order_by_created rows) (order-IsOrdered rows))))
        found done (simp (not_zero keep_last some_kept) at kept))
  where
    rows : List Backup
    rows = filter (is_completed_of s) backups

    n : ℕ
    n = length (order_by_created rows) - keep_last
