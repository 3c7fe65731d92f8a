-- ===== src/Create/Recorded.antt =====
-- What `create_snapshot` records of a snapshot.
use backupsheep.Prelude.{
  ℕ, ◌≡◌, Bool, if◌then◌else◌, true, false, [], ◌∷◌, Option, none, some, ◌==◌,
}
use backupsheep.Model.Status.{NodeType}
use backupsheep.Model.Rows.{Text, Backup}
use backupsheep.Providers.{HttpReply, VolumeKind}
use backupsheep.Task.Clouds.{Snapshot, raises, writes}
use backupsheep.Create.{Creation}

-- Where there is an id to record, the method returns with the backup recording it; where there is none,
-- the method raises.
abbrev pub IsRecorded : Option Text → Snapshot → Type 0
IsRecorded none (raises e) = Unit
IsRecorded none (writes action id) = ⊥
IsRecorded (some id) (raises e) = ⊥
IsRecorded (some id) (writes action recorded) = recorded ≡ some id

-- What a reply with the expected code carries
abbrev pub accepted : {A : Type 0} → ℕ → HttpReply A → Option A
accepted expected HttpReply.raised = none
accepted expected (HttpReply.answered code body) = if code == expected then body else none

abbrev pub chain : {A B : Type 0} → Option A → (A → Option B) → Option B
chain none k = none
chain (some a) k = k a

-- An id that is there and not empty
abbrev pub nonempty : Option Text → Option Text
nonempty none = none
nonempty (some []) = none
nonempty (some (c ∷ cs)) = some (c ∷ cs)

abbrev pub only_if : Bool → Option Text → Option Text
only_if true id = id
only_if false id = none

-- The id that the provider's replies give for the snapshot of the backup: the id in the reply, or for
-- OVH, once the request is done, the name that the code asks for, which is the uuid of the backup
abbrev pub given_id : Creation → Backup → Option Text
given_id (Creation.hetzner t i) b =
    chain (accepted 201 i) (λ a. only_if a.is_running (some a.image_id))
given_id (Creation.upcloud t s) b = accepted 201 s
given_id (Creation.ovh_ca c NodeType.volume s v) b = only_if c (only_if v b.uuid)
given_id (Creation.ovh_ca c _ s v) b = only_if c (only_if s b.uuid)
given_id (Creation.ovh_eu c NodeType.volume s v) b = only_if c (only_if v b.uuid)
given_id (Creation.ovh_eu c _ s v) b = only_if c (only_if s b.uuid)
given_id (Creation.ovh_us c NodeType.volume s v) b = only_if c (only_if v b.uuid)
given_id (Creation.ovh_us c _ s v) b = only_if c (only_if s b.uuid)
given_id (Creation.aws NodeType.volume i s) b = chain s nonempty
given_id (Creation.aws _ i s) b = chain i nonempty
given_id (Creation.aws_rds s) b = s
given_id (Creation.vultr c NodeType.volume s d) b = only_if c (accepted 201 d)
given_id (Creation.vultr c _ s d) b = only_if c (accepted 201 s)
given_id (Creation.oracle t none r) b = none
given_id (Creation.oracle t (some k) r) b = accepted 200 r
given_id (Creation.google_cloud NodeType.volume f i d s) b =
    chain (accepted 200 d) (λ name. accepted 200 (s name))
given_id (Creation.google_cloud _ f i d s) b =
    chain (accepted 200 f) (λ name. accepted 200 (i name))
given_id _ b = none

abbrev pub is_server_or_volume : NodeType → Bool
is_server_or_volume NodeType.cloud = true
is_server_or_volume NodeType.volume = true
is_server_or_volume _ = false

-- The method asks for snapshots of such a node, and takes no reply for success but the one with the id:
-- neither holds of DigitalOcean's and Lightsail's.
abbrev pub is_strict : Creation → Bool
is_strict (Creation.digitalocean t d a v) = false
is_strict (Creation.hetzner NodeType.cloud i) = true
is_strict (Creation.hetzner _ i) = false
is_strict (Creation.upcloud NodeType.volume s) = true
is_strict (Creation.upcloud _ s) = false
is_strict (Creation.ovh_ca c t s v) = is_server_or_volume t
is_strict (Creation.ovh_eu c t s v) = is_server_or_volume t
is_strict (Creation.ovh_us c t s v) = is_server_or_volume t
is_strict (Creation.aws t i s) = is_server_or_volume t
is_strict (Creation.lightsail t i d) = false
is_strict (Creation.aws_rds s) = true
is_strict (Creation.vultr c t s d) = is_server_or_volume t
is_strict (Creation.oracle NodeType.volume (some VolumeKind.other) r) = false
is_strict (Creation.oracle NodeType.volume k r) = true
is_strict (Creation.oracle _ k r) = false
is_strict (Creation.google_cloud t f i d s) = is_server_or_volume t
