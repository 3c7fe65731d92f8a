-- ===== src/SoftDelete/Contract.antt =====
-- The soft deletes of the providers are soft deletes of the kind that retention is to be given.
use backupsheep.Prelude.{
  ℕ, zero, suc, ◌<◌, ◌≡◌, refl, ap, ◌∙◌, Bool, true, false, List, [], Option, none, some, arith,
  update, update-update, Bool-cases, inl, inr,
}
use backupsheep.Model.Status.{NodeType, in_active_statuses}
use backupsheep.Model.Rows.{Text, Backup, Db, has_id, set_status}
use backupsheep.Node.{save_backup}
use backupsheep.Retention.{is_completed_of, SnapshotAnswer, snapshot_status, cloud_soft_delete}
use backupsheep.Retention.Deletes.{was_asked, IsSoftDelete}
use backupsheep.Retention.Retain.{snapshot_status-asked}
use backupsheep.Task.Clouds.{is_set}
use backupsheep.Providers.{VolumeKind, HttpReply}
use backupsheep.SoftDelete.{
  Tried, VolumeSnapshot, Image, delete_listed, volume_end, digitalocean_delete, delete_image,
  hetzner_delete, is_described, oracle_kind, oracle_delete, google_delete, Requests, tried,
  needs_client, SoftDeleteEnd, save_id_found, save_answer, soft_delete_end, soft_delete,
}
use backupsheep.SoftDelete.Listing.{Page, Linked, list_from, find_from}
use backupsheep.SoftDelete.Listing.Ends.{
  HasStopped, IsFilled, IsLinked, list_from_stops, find_from_stops,
}

-- One call of `soft_delete`: how many pages it may read, whether it gets its client, and what the
-- provider answers.
pub record Run : Type 0 where
  pub rounds : ℕ
  pub client : Bool
  pub requests : Requests

-- The pages of a listing, which its rounds are more than: each page of DigitalOcean's has an item and
-- the same limit on the total, and each of Hetzner's names a later page or none.
abbrev pub IsListed : ℕ → Requests → Type 0
IsListed rounds (Requests.digitalocean t d pages) =
    (limit : ℕ) × (limit < rounds) × ((i : ℕ) → IsFilled limit (pages i))
IsListed rounds (Requests.hetzner t d pages) =
    (last : ℕ) × (last < rounds) × ((i : ℕ) → IsLinked last i (pages i))
IsListed rounds _ = Unit

-- The method has a clause for the node: Oracle's for volumes of a known kind, Google's for servers and
-- disks, and the other methods for every node.
abbrev pub is_handled : Requests → Bool
is_handled (Requests.oracle NodeType.volume c (some VolumeKind.other) d) = false
is_handled (Requests.oracle NodeType.volume c k d) = true
is_handled (Requests.oracle _ c k d) = false
is_handled (Requests.google_cloud NodeType.cloud s v) = true
is_handled (Requests.google_cloud NodeType.volume s v) = true
is_handled (Requests.google_cloud _ s v) = false
is_handled _ = true

pub record CanDelete (run : Run) : Type 0 where
  pub has_client : run.client ≡ true
  pub listed : IsListed run.rounds run.requests
  pub handled : is_handled run.requests ≡ true

-- The `try` block comes to an answer.
abbrev pub Answers : Option Tried → Type 0
Answers o =
    (found : Option Text) × (a : SnapshotAnswer) × (o
      ≡ some (record { found = found; answer = some a }))

volume_end-Answers :
    (delete : Option Text → Option ℕ) (uuid : Option Text)
    (listed : Option (Option (List VolumeSnapshot)))
    → HasStopped listed
    → Answers (volume_end delete uuid listed)
unfolding volume_end
volume_end-Answers delete uuid none h = absurd h
volume_end-Answers delete uuid (some l) h = (none, delete_listed delete uuid l, refl)

delete_image-Answers :
    (delete : Option Text → Option ℕ) (id : Option Text) (found : Option (Option (Option Image)))
    → HasStopped found
    → Answers (delete_image delete id found)
unfolding delete_image
delete_image-Answers delete id none h = absurd h
delete_image-Answers delete id (some none) h = (none, SnapshotAnswer.failed, refl)
delete_image-Answers delete id (some (some none)) h = (none, _, refl)
delete_image-Answers delete id (some (some (some image))) h = (some image.id, _, refl)

digitalocean-Answers :
    (rounds : ℕ) (t : NodeType) (d : Option Text → Option ℕ)
    (pages : ℕ → HttpReply (Page VolumeSnapshot)) (b : Backup)
    → IsListed rounds (Requests.digitalocean t d pages)
    → Answers (digitalocean_delete rounds t d pages b)
unfolding digitalocean_delete
digitalocean-Answers rounds NodeType.cloud d pages b h = (none, _, refl)
digitalocean-Answers zero NodeType.volume d pages b (limit, small, filled) =
    absurd (omega (arith, small))
digitalocean-Answers (suc n) NodeType.volume d pages b (limit, small, filled) =
    volume_end-Answers d b.uuid (list_from (suc n) pages 1 [])
      (list_from_stops limit pages filled n 1 [] (omega (arith, small)))
digitalocean-Answers rounds _ d pages b h = (none, _, refl)

hetzner-Answers :
    (rounds : ℕ) (t : NodeType) (d : Option Text → Option ℕ) (pages : ℕ → HttpReply (Linked Image))
    (b : Backup)
    → IsListed rounds (Requests.hetzner t d pages)
    → Answers (hetzner_delete rounds t d pages b)
unfolding hetzner_delete
hetzner-Answers zero NodeType.cloud d pages b (last, small, linked) = absurd (omega (arith, small))
hetzner-Answers (suc n) NodeType.cloud d pages b (last, small, linked) =
    elim (Bool-cases (is_set b.unique_id)) [
      | inl e ↦ rw e (delete_image-Answers d b.unique_id (some (some none)) tt)
      | inr e ↦ rw e (
          delete_image-Answers d b.unique_id (find_from (is_described b.uuid) (suc n) pages 1)
            (find_from_stops (is_described b.uuid) last pages linked n 1 (omega (arith, small))))
    ]
hetzner-Answers rounds _ d pages b h = (none, _, refl)

tried-Answers :
    (rounds : ℕ) (q : Requests) (b : Backup)
    → IsListed rounds q
    → is_handled q ≡ true
    → Answers (tried rounds q b)
unfolding tried oracle_delete oracle_kind google_delete
tried-Answers rounds (Requests.digitalocean t d pages) b h e =
    digitalocean-Answers rounds t d pages b h
tried-Answers rounds (Requests.hetzner t d pages) b h e = hetzner-Answers rounds t d pages b h
tried-Answers rounds (Requests.oracle NodeType.volume true (some VolumeKind.other) d) b h e = cc
tried-Answers rounds (Requests.oracle NodeType.volume true (some VolumeKind.boot) d) b h e =
    (none, _, refl)
tried-Answers rounds (Requests.oracle NodeType.volume true (some VolumeKind.block) d) b h e =
    (none, _, refl)
tried-Answers rounds (Requests.oracle NodeType.volume true none d) b h e = (none, _, refl)
tried-Answers rounds (Requests.oracle NodeType.volume false k d) b h e = (none, _, refl)
tried-Answers rounds (Requests.oracle _ c k d) b h e = cc
tried-Answers rounds (Requests.google_cloud NodeType.cloud s v) b h e = (none, _, refl)
tried-Answers rounds (Requests.google_cloud NodeType.volume s v) b h e = (none, _, refl)
tried-Answers rounds (Requests.google_cloud _ s v) b h e = cc
tried-Answers rounds _ b h e = (none, _, refl)

-- What the method leaves where it ends
abbrev pub after_end : Db → SoftDeleteEnd → Db
after_end db (SoftDeleteEnd.ended after) = after
after_end db _ = db

-- `soft_delete` of a backup, with the run that each has
abbrev pub deleting : (Backup → Run) → Backup → Db → Db
deleting runs b db =
    after_end db (soft_delete (runs b).rounds (runs b).client (runs b).requests b db)

-- The columns that the method writes
abbrev pub written : Option Text → SnapshotAnswer → Backup → Backup
written none a x = record x { status = snapshot_status a }
written (some id) a x = record x { status = snapshot_status a; unique_id = some id }

update-save_id_found :
    (found : Option Text) (a : SnapshotAnswer) (b : Backup) (db : Db)
    → (save_answer (some a) b (save_id_found found b db)).backups
      ≡ update (has_id b.id) (written found a) db.backups
unfolding save_answer save_id_found cloud_soft_delete save_backup
update-save_id_found none a b db = refl
update-save_id_found (some id) a b db =
    update-update (has_id b.id) (set_status (snapshot_status a))
      (λ x. record x { unique_id = some id }) (λ x. refl) db.backups

written-not_completed :
    (found : Option Text) (a : SnapshotAnswer) (s : ℕ) (x : Backup)
    → is_completed_of s (written found a x) ≡ false
written-not_completed none a s x = rw (snapshot_status-asked a).1 refl
written-not_completed (some id) a s x = rw (snapshot_status-asked a).1 refl

written-status :
    (found : Option Text) (a : SnapshotAnswer) (x : Backup)
    → (written found a x).status ≡ snapshot_status a
written-status none a x = refl
written-status (some id) a x = refl

written-id : (found : Option Text) (a : SnapshotAnswer) (x : Backup) → (written found a x).id ≡ x.id
written-id none a x = refl
written-id (some id) a x = refl

reached :
    (run : Run) (b : Backup) (db : Db)
    → CanDelete run
    → soft_delete run.rounds run.client run.requests b db
      ≡ soft_delete_end b db (tried run.rounds run.requests b)
unfolding soft_delete
reached run b db h = elim (Bool-cases (needs_client run.requests)) [
  | inl e ↦ rw (e, h.has_client) refl
  | inr e ↦ rw e refl
]

module _ (runs : Backup → Run) (can : (b : Backup) → CanDelete (runs b)) where
  outcome : (b : Backup) → Answers (tried (runs b).rounds (runs b).requests b)
  outcome b = tried-Answers (runs b).rounds (runs b).requests b (can b).listed (can b).handled

  -- It ends, and `deleting` is what it leaves.
  soft_delete-ends :
      (b : Backup) (db : Db)
      → soft_delete (runs b).rounds (runs b).client (runs b).requests b db
        ≡ SoftDeleteEnd.ended (deleting runs b db)
  unfolding soft_delete_end
  soft_delete-ends b db = rw (reached (runs b) b db (can b)) (rw (outcome b).2 refl)

  written_row :
      (b : Backup) (db : Db)
      → (deleting runs b db).backups
        ≡ update (has_id b.id) (written (outcome b).0 (outcome b).1) db.backups
  unfolding soft_delete_end
  written_row b db =
      rw (reached (runs b) b db (can b))
        (rw (outcome b).2 (update-save_id_found (outcome b).0 (outcome b).1 b db))

  -- It keeps what retention relies on.
  deleting-IsSoftDelete : IsSoftDelete (deleting runs)
  deleting-IsSoftDelete = record {
    writes = λ b. written (outcome b).0 (outcome b).1;
    row = written_row;
    not_completed = λ s b x. written-not_completed (outcome b).0 (outcome b).1 s x;
    not_in_flight = λ b x.
        ap in_active_statuses (written-status (outcome b).0 (outcome b).1 x)
        ∙ (snapshot_status-asked (outcome b).1).0;
    asked = λ b x.
        ap was_asked (written-status (outcome b).0 (outcome b).1 x)
        ∙ (snapshot_status-asked (outcome b).1).2;
    id = λ b x. written-id (outcome b).0 (outcome b).1 x;
  }

  pub soft_delete-IsSoftDelete :
      ((b : Backup) (db : Db)
        → soft_delete (runs b).rounds (runs b).client (runs b).requests b db
          ≡ SoftDeleteEnd.ended (deleting runs b db))
      × IsSoftDelete (deleting runs)
  soft_delete-IsSoftDelete = (soft_delete-ends, deleting-IsSoftDelete)
