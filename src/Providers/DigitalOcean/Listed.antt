-- ===== src/Providers/DigitalOcean/Listed.antt =====
-- What a status check of DigitalOcean comes to.
use backupsheep.Prelude.{
  ℕ, zero, suc, ◌≤◌, ◌<◌, ◌≡◌, refl, false, List, [], ◌∷◌, Option, none, some, ◌==◌, any, arith,
  Bool-cases, inl, inr,
}
use backupsheep.Model.Status.{BackupStatus, NodeType}
use backupsheep.Providers.{SnapshotRow, HttpReply}
use backupsheep.Providers.DigitalOcean.{
  ActionState, DropletSnapshot, record_named, record_listed, first_page, all_snapshots, on_action,
  on_action_reply, digitalocean_poll_status,
}
use backupsheep.SoftDelete.Listing.{Page, more_from}
use backupsheep.SoftDelete.Listing.Ends.{HasStopped, IsFilled, more_from_stops}

record_listed_stops :
    (uuid : ℕ) (row : SnapshotRow) (l : Option (Option (List DropletSnapshot)))
    → HasStopped l
    → HasStopped (record_listed uuid row l)
unfolding record_listed
record_listed_stops uuid row none h = h
record_listed_stops uuid row (some none) h = tt
record_listed_stops uuid row (some (some l)) h = tt

module _ (limit rounds : ℕ) (small : limit < rounds) (pages : ℕ → HttpReply (Page DropletSnapshot))
    (filled : (i : ℕ) → IsFilled limit (pages i)) where
  all_snapshots_stops :
      (r : HttpReply (Page DropletSnapshot))
      → IsFilled limit r
      → HasStopped (all_snapshots rounds pages r)
  unfolding all_snapshots first_page
  all_snapshots_stops HttpReply.raised f = tt
  all_snapshots_stops (HttpReply.answered code none) f = elim (Bool-cases (code == 200)) [
    | inl e ↦ rw e tt
    | inr e ↦ rw e tt
  ]
  all_snapshots_stops (HttpReply.answered code (some p)) f = elim (Bool-cases (code == 200)) [
    | inl e ↦ rw e (enough rounds small p.total f.1)
    | inr e ↦ rw e tt
  ]
    where
      enough :
          (n : ℕ)
          → limit < n
          → (total : ℕ) → total ≤ limit
          → HasStopped (more_from n pages total 1 p.items)
      enough zero h total t = absurd (omega (arith, h))
      enough (suc n) h total t =
          more_from_stops limit pages filled n total 1 p.items (omega (arith, h, t))

  on_action_stops :
      (uuid : ℕ) (row : SnapshotRow) (a : Option ActionState)
      → HasStopped (on_action rounds uuid pages row a)
  unfolding on_action
  on_action_stops uuid row none = tt
  on_action_stops uuid row (some ActionState.completed) =
      record_listed_stops uuid row (all_snapshots rounds pages (pages 1))
        (all_snapshots_stops (pages 1) (filled 1))
  on_action_stops uuid row (some ActionState.errored) = tt
  on_action_stops uuid row (some ActionState.other) = tt

  -- A status check of DigitalOcean ends within one page more than the listing has snapshots, where
  -- every page that is read has one and the total keeps to a limit below the rounds.
  pub digitalocean_poll_status_stops :
      (t : NodeType) (uuid : ℕ) (action : HttpReply ActionState) (row : SnapshotRow)
      → HasStopped (digitalocean_poll_status rounds t uuid action pages row)
  unfolding digitalocean_poll_status on_action_reply
  digitalocean_poll_status_stops NodeType.cloud uuid HttpReply.raised row = tt
  digitalocean_poll_status_stops NodeType.cloud uuid (HttpReply.answered code body) row =
      elim (Bool-cases (code == 200)) [
        | inl e ↦ rw e (on_action_stops uuid row body)
        | inr e ↦ rw e tt
      ]
  digitalocean_poll_status_stops NodeType.volume uuid action row = tt
  digitalocean_poll_status_stops _ uuid action row = tt

record_named_unlisted :
    (uuid : ℕ) (row : SnapshotRow) (snapshots : List DropletSnapshot)
    → any (λ s. s.name == uuid) snapshots ≡ false
    → record_named uuid snapshots row ≡ (BackupStatus.complete, row)
unfolding record_named any
record_named_unlisted uuid row [] h = refl
record_named_unlisted uuid row (s ∷ rest) h = elim (Bool-cases (s.name == uuid)) [
  | inl e ↦ cc (simp e at h)
  | inr e ↦ rw e (record_named_unlisted uuid row rest (simp e at h))
]

-- Once the action of a droplet is completed and all snapshots are read, a check of a backup that has
-- none of their names says complete and saves nothing: the backup ends without a snapshot.
pub digitalocean_poll_status_unlisted :
    (rounds uuid : ℕ) (pages : ℕ → HttpReply (Page DropletSnapshot)) (row : SnapshotRow)
    (snapshots : List DropletSnapshot)
    → all_snapshots rounds pages (pages 1) ≡ some (some snapshots)
    → any (λ s. s.name == uuid) snapshots ≡ false
    → digitalocean_poll_status rounds NodeType.cloud uuid
        (HttpReply.answered 200 (some ActionState.completed))
        pages
        row
      ≡ some (BackupStatus.complete, row)
unfolding digitalocean_poll_status on_action_reply on_action record_listed
digitalocean_poll_status_unlisted rounds uuid pages row snapshots listed absent =
    rw listed (rw (record_named_unlisted uuid row snapshots absent) refl)
