-- ===== src/SoftDelete/Listing/Ends.antt =====
-- The loops over pages end.
use backupsheep.Prelude.{
  ℕ, zero, suc, ◌+◌, ◌≤◌, ◌<◌, ◌≡◌, refl, Bool, List, ◌++◌, Option, none, some, ◌==◌, ltb, leb,
  length, length-append, find?, arith, Bool-cases, inl, inr,
}
use backupsheep.Providers.{HttpReply}
use backupsheep.SoftDelete.Listing.{
  Page, list_from, list_round, read_page, more_from, more_round, more_page, Linked, find_from,
  find_round, find_body, find_next,
}

-- The loop has ended.
abbrev pub HasStopped : {A : Type 0} → Option A → Type 0
HasStopped none = ⊥
HasStopped (some a) = Unit

-- A page is of a listing of at most so many items, and has an item.
abbrev pub IsFilled : {A : Type 0} → ℕ → HttpReply (Page A) → Type 0
IsFilled limit (HttpReply.answered code (some p)) = (0 < length p.items) × (p.total ≤ limit)
IsFilled limit _ = Unit

-- A page of the images names no next page, or a later one up to the last.
abbrev pub IsLinked : {A : Type 0} → ℕ → ℕ → HttpReply (Linked A) → Type 0
IsLinked last page (HttpReply.answered code (some p)) =
    (i : ℕ) → p.next_page ≡ some i → (page < i) × (i ≤ last)
IsLinked last page _ = Unit

module _ {A : Type 0} (limit : ℕ) where
  read_page_stops :
      (again : List A → Option (Option (List A))) (got : List A) (p : Page A)
      → 0 < length p.items
      → p.total ≤ limit
      → ((all : List A) → length got < length all → length all < limit → HasStopped (again all))
      → HasStopped (read_page again got (some p))
  unfolding read_page
  read_page_stops again got p filled small h =
      elim (Bool-cases (leb p.total (length (got ++ p.items)))) [
        | inl e ↦ rw e tt
        | inr e ↦ rw e (
            h (got ++ p.items) (omega (arith, length-append got p.items, filled))
              (ground (arith, small, e)))
      ]

  list_round_stops :
      (again : List A → Option (Option (List A))) (got : List A) (r : HttpReply (Page A))
      → IsFilled limit r
      → ((all : List A) → length got < length all → length all < limit → HasStopped (again all))
      → HasStopped (list_round again got r)
  unfolding list_round read_page
  list_round_stops again got HttpReply.raised f h = tt
  list_round_stops again got (HttpReply.answered code none) f h = elim (Bool-cases (code == 200)) [
    | inl e ↦ rw e tt
    | inr e ↦ rw e tt
  ]
  list_round_stops again got (HttpReply.answered code (some p)) f h =
      elim (Bool-cases (code == 200)) [
        | inl e ↦ rw e (read_page_stops again got p f.0 f.1 h)
        | inr e ↦ rw e tt
      ]

  -- Where every page that is read has an item, one round more than the listing has items is enough.
  pub list_from_stops :
      (pages : ℕ → HttpReply (Page A)) (filled : (i : ℕ) → IsFilled limit (pages i)) (n page : ℕ)
      (got : List A)
      → limit ≤ length got + n
      → HasStopped (list_from (suc n) pages page got)
  unfolding list_from
  list_from_stops pages filled zero page got h =
      list_round_stops (list_from zero pages (page + 1)) got (pages page) (filled page)
        (λ all more less. absurd (omega (arith, h, more, less)))
  list_from_stops pages filled (suc n) page got h =
      list_round_stops (list_from (suc n) pages (page + 1)) got (pages page) (filled page)
        (λ all more less. list_from_stops pages filled n (page + 1) all (omega (arith, h, more)))

  more_round_stops :
      (again : List A → Option (Option (List A))) (got : List A) (r : HttpReply (Page A))
      → IsFilled limit r
      → ((all : List A) → length got < length all → HasStopped (again all))
      → HasStopped (more_round again got r)
  unfolding more_round more_page
  more_round_stops again got HttpReply.raised f h = tt
  more_round_stops again got (HttpReply.answered code none) f h = elim (Bool-cases (code == 200)) [
    | inl e ↦ rw e tt
    | inr e ↦ rw e tt
  ]
  more_round_stops again got (HttpReply.answered code (some p)) f h =
      elim (Bool-cases (code == 200)) [
        | inl e ↦ rw e (h (got ++ p.items) (omega (arith, length-append got p.items, f.0)))
        | inr e ↦ rw e tt
      ]

  pub more_from_stops :
      (pages : ℕ → HttpReply (Page A)) (filled : (i : ℕ) → IsFilled limit (pages i))
      (n total page : ℕ) (got : List A)
      → total ≤ length got + n
      → HasStopped (more_from (suc n) pages total page got)
  unfolding more_from
  more_from_stops pages filled zero total page got h = elim (Bool-cases (ltb (length got) total)) [
    | inl e ↦ absurd (ground (arith, h, e))
    | inr e ↦ rw e tt
  ]
  more_from_stops pages filled (suc n) total page got h =
      elim (Bool-cases (ltb (length got) total)) [
        | inl e ↦ rw e (
            more_round_stops (more_from (suc n) pages total (page + 1)) got (pages (page + 1))
              (filled (page + 1))
              (λ all more.
                more_from_stops pages filled n total (page + 1) all (omega (arith, h, more))))
        | inr e ↦ rw e tt
      ]

module _ {A : Type 0} (wanted : A → Bool) (last : ℕ) where
  find_body_stops :
      (again : ℕ → Option (Option (Option A))) (next : Option ℕ) (found : Option A)
      → ((i : ℕ) → next ≡ some i → HasStopped (again i))
      → HasStopped (find_next wanted again next found)
  unfolding find_next
  find_body_stops again next (some a) h = tt
  find_body_stops again none none h = tt
  find_body_stops again (some i) none h = h i refl

  find_round_stops :
      (again : ℕ → Option (Option (Option A))) (page : ℕ) (r : HttpReply (Linked A))
      → IsLinked last page r
      → ((i : ℕ) → page < i → i ≤ last → HasStopped (again i))
      → HasStopped (find_round wanted again r)
  unfolding find_round find_body
  find_round_stops again page HttpReply.raised f h = tt
  find_round_stops again page (HttpReply.answered code none) f h = elim (Bool-cases (code == 200)) [
    | inl e ↦ rw e tt
    | inr e ↦ rw e tt
  ]
  find_round_stops again page (HttpReply.answered code (some p)) f h =
      elim (Bool-cases (code == 200)) [
        | inl e ↦ rw e (
            find_body_stops again p.next_page (find? wanted p.items)
              (λ i same. h i (f i same).0 (f i same).1))
        | inr e ↦ rw e tt
      ]

  pub find_from_stops :
      (pages : ℕ → HttpReply (Linked A)) (linked : (i : ℕ) → IsLinked last i (pages i)) (n page : ℕ)
      → last ≤ page + n
      → HasStopped (find_from wanted (suc n) pages page)
  unfolding find_from
  find_from_stops pages linked zero page h =
      find_round_stops (find_from wanted zero pages) page (pages page) (linked page)
        (λ i more less. absurd (omega (arith, h, more, less)))
  find_from_stops pages linked (suc n) page h =
      find_round_stops (find_from wanted (suc n) pages) page (pages page) (linked page)
        (λ i more less. find_from_stops pages linked n i (omega (arith, h, more)))
