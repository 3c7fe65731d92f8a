-- ===== src/SoftDelete/Listing.antt =====
-- The loops of apps/console/backup/models.py that read the pages of a listing: of the snapshots of
-- DigitalOcean, when one is deleted and when one is polled, and of the images of Hetzner. They are on
-- fuel: `none` is a loop that has not ended in so many rounds, and within it `none` is an exception.
pub mod Ends
use backupsheep.Prelude.{
  ℕ, zero, suc, ◌+◌, Bool, List, [], ◌∷◌, ◌++◌, Option, none, some, ◌==◌, ltb, leb, if◌then◌else◌,
  find?, length,
}
use backupsheep.Providers.{HttpReply}

-- `result.json()`, with `meta.total`
pub record Page (A : Type 0) : Type 0 where
  pub items : List A
  pub total : ℕ

module _ {A : Type 0} where
  unfoldable pub read_page :
      (List A → Option (Option (List A))) → List A → Option (Page A) → Option (Option (List A))
  read_page again got none = some none
  read_page again got (some p) =
      let all = got ++ p.items in if leb p.total (length all) then some (some all) else again all

  unfoldable pub list_round :
      (List A → Option (Option (List A))) → List A → HttpReply (Page A) → Option (Option (List A))
  unfolding read_page
  list_round again got HttpReply.raised = some none
  list_round again got (HttpReply.answered code body) =
      if code == 200 then read_page again got body else some (some got)

  -- `while next_page is not None` of CoreDigitalOceanBackup.soft_delete: a page that is refused ends
  -- the listing with what was read before.
  unfoldable pub list_from : ℕ → (ℕ → HttpReply (Page A)) → ℕ → List A → Option (Option (List A))
  unfolding list_round
  list_from zero pages page got = none
  list_from (suc n) pages page got = list_round (list_from n pages (page + 1)) got (pages page)

  unfoldable pub more_page :
      (List A → Option (Option (List A))) → List A → Option (Page A) → Option (Option (List A))
  more_page again got none = some none
  more_page again got (some p) = again (got ++ p.items)

  unfoldable pub more_round :
      (List A → Option (Option (List A))) → List A → HttpReply (Page A) → Option (Option (List A))
  unfolding more_page
  more_round again got HttpReply.raised = some none
  more_round again got (HttpReply.answered code body) =
      if code == 200 then more_page again got body else some none

  -- `while len(snapshots) < snapshots_total` of CoreDigitalOceanBackup.poll_status: a page that is
  -- refused raises.
  unfoldable pub more_from :
      ℕ → (ℕ → HttpReply (Page A)) → ℕ → ℕ → List A → Option (Option (List A))
  unfolding more_round
  more_from zero pages total page got = none
  more_from (suc n) pages total page got =
      if ltb (length got) total
      then more_round (more_from n pages total (page + 1)) got (pages (page + 1))
      else some (some got)

-- A page of images, with `meta.pagination.next_page`
pub record Linked (A : Type 0) : Type 0 where
  pub items : List A
  pub next_page : Option ℕ

module _ {A : Type 0} (wanted : A → Bool) where
  unfoldable pub find_next :
      (ℕ → Option (Option (Option A))) → Option ℕ → Option A → Option (Option (Option A))
  find_next again next (some a) = some (some (some a))
  find_next again none none = some (some none)
  find_next again (some page) none = again page

  unfoldable pub find_body :
      (ℕ → Option (Option (Option A))) → Option (Linked A) → Option (Option (Option A))
  unfolding find_next
  find_body again none = some none
  find_body again (some p) = find_next again p.next_page (find? wanted p.items)

  unfoldable pub find_round :
      (ℕ → Option (Option (Option A))) → HttpReply (Linked A) → Option (Option (Option A))
  unfolding find_body
  find_round again HttpReply.raised = some none
  find_round again (HttpReply.answered code body) =
      if code == 200 then find_body again body else some none

  -- `while next_page is not None` of CoreHetznerBackup.soft_delete: a page that is refused raises, and
  -- the first image that is wanted ends the loop.
  unfoldable pub find_from : ℕ → (ℕ → HttpReply (Linked A)) → ℕ → Option (Option (Option A))
  unfolding find_round
  find_from zero pages page = none
  find_from (suc n) pages page = find_round (find_from n pages) (pages page)
