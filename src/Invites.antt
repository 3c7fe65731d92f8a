-- ===== src/Invites.antt =====
-- Invites to an account: CoreInvite of apps/console/invite/models.py, the actions of
-- apps/api/v1/invite/views.py, and the page of apps/console/invite/views.py. `lower` stands for the
-- comparison of emails without case.
pub mod Closed
use backupsheep.Prelude.{
  ℕ, ◌+◌, Bool, true, false, ◌&&◌, List, [], ◌∷◌, ◌++◌, Option, none, some, ◌==◌, ltb, any,
  if◌then◌else◌, ◌≡◌,
}
use backupsheep.Prelude.Text.{text_eq}
use backupsheep.Model.Rows.{Text}

-- CoreInvite.Status
pub data InviteStatus : Type 0 where
  accepted expired cancelled pending : InviteStatus

unfoldable pub is_pending : InviteStatus → Bool
is_pending InviteStatus.pending = true
is_pending _ = false

pub record Invite : Type 0 where
  pub status : InviteStatus
  pub email : Text
  pub groups : List ℕ
  pub expires_at : Option ℕ

-- A member in a group of the account
pub record Enrollment : Type 0 where
  pub member_id : ℕ
  pub group_id : ℕ

-- An invite with the memberships and the groups of its account; `deleted` says that the row of the invite
-- is gone.
pub record Team : Type 0 where
  pub invite : Invite
  pub deleted : Bool
  pub members : List ℕ
  pub enrollments : List Enrollment

-- INVITE_TTL_DAYS, in seconds
abbrev pub invite_ttl : ℕ
invite_ttl = 604800

unfoldable pub is_expired : ℕ → Invite → Bool
unfolding is_pending
is_expired now i = is_pending i.status && elim i.expires_at [ none ↦ false | some t ↦ ltb t now ]

unfoldable pub expire_if_needed : ℕ → Team → Team
unfolding is_expired
expire_if_needed now team =
    if is_expired now team.invite
    then record team { invite = record team.invite { status = InviteStatus.expired } }
    else team

unfoldable pub reset_expiry : ℕ → Team → Team
reset_expiry now team = record team {
  invite = record team.invite { expires_at = some (now + invite_ttl) };
}

-- `member.user.groups.add(…)` for the groups of the invite
unfoldable pub enroll : ℕ → List ℕ → List Enrollment → List Enrollment
enroll m [] enrollments = enrollments
enroll m (g ∷ gs) enrollments = enroll m gs (
    if any (λ e. e.member_id == m && e.group_id == g) enrollments
    then enrollments
    else enrollments ++ (record { member_id = m; group_id = g }) ∷ [])

-- CoreInvite.accept
unfoldable pub accept : ℕ → Team → Team
unfolding enroll
accept m team = record {
  invite = record team.invite { status = InviteStatus.accepted };
  deleted = team.deleted;
  members = if any (λ x. x == m) team.members then team.members else team.members ++ m ∷ [];
  enrollments = enroll m team.invite.groups team.enrollments;
}

unfoldable pub accept_pending : ℕ → Team → Team
unfolding accept is_pending
accept_pending m team = if is_pending team.invite.status then accept m team else team

unfoldable pub same_email : (Text → Text) → Text → Text → Bool
unfolding text_eq
same_email lower a b = text_eq (lower a) (lower b)

-- CoreInviteView.accept: the invite is looked up by its email, too.
unfoldable pub api_accept : (Text → Text) → ℕ → ℕ → Text → Team → Team
unfolding same_email expire_if_needed accept_pending
api_accept lower now m email team =
    if same_email lower team.invite.email email
    then accept_pending m (expire_if_needed now team)
    else team

-- The page, on POST of a user who is logged in
unfoldable pub page_accept : (Text → Text) → ℕ → ℕ → Text → Team → Team
unfolding same_email expire_if_needed accept_pending
page_accept lower now m email team =
    if same_email lower email team.invite.email
    then accept_pending m (expire_if_needed now team)
    else expire_if_needed now team

-- CoreInviteView.resend; the query of the view flips expired invites first.
unfoldable pub resend : ℕ → Team → Team
unfolding expire_if_needed reset_expiry is_pending
resend now team =
    let t = expire_if_needed now team in
    if is_pending t.invite.status then reset_expiry now t else t

-- CoreInviteView.cancel
unfoldable pub cancel : ℕ → Team → Team
unfolding expire_if_needed is_pending
cancel now team =
    let t = expire_if_needed now team in
    if is_pending t.invite.status
    then record t { invite = record t.invite { status = InviteStatus.cancelled } }
    else t

-- The page, on POST of a user who is not logged in: `valid` says that no user has the email of the invite
-- and that the form is valid, and `m` is the member that is then made.
unfoldable pub sign_up : ℕ → ℕ → Bool → Team → Team
unfolding expire_if_needed accept_pending
sign_up now m valid team =
    let t = expire_if_needed now team in if valid then accept_pending m t else t

-- `update` and `partial_update` of CoreInviteView, with the email and the groups that the request has:
-- status and expires_at are no fields that it can write. `valid` is what the serializer says.
unfoldable pub edit : ℕ → Bool → Option Text → Option (List ℕ) → Team → Team
unfolding expire_if_needed
edit now valid email groups team =
    let t = expire_if_needed now team in
    if valid
    then record t {
      invite = record t.invite {
        email = elim email [ none ↦ t.invite.email | some e ↦ e ];
        groups = elim groups [ none ↦ t.invite.groups | some gs ↦ gs ];
      };
    }
    else t

-- `destroy` of CoreInviteView
unfoldable pub destroy : ℕ → Team → Team
unfolding expire_if_needed
destroy now team = record (expire_if_needed now team) { deleted = true }

-- One action on the invite, by anybody at any time.
pub data Step (lower : Text → Text) (before after : Team) : Type 0 where
  api :
      (now m : ℕ) (email : Text)
      → after ≡ api_accept lower now m email before
      → Step lower before after
  page :
      (now m : ℕ) (email : Text)
      → after ≡ page_accept lower now m email before
      → Step lower before after
  resent : (now : ℕ) → after ≡ resend now before → Step lower before after
  withdrawn : (now : ℕ) → after ≡ cancel now before → Step lower before after
  signed_up :
      (now m : ℕ) (valid : Bool) → after ≡ sign_up now m valid before → Step lower before after
  edited :
      (now : ℕ) (valid : Bool) (email : Option Text) (groups : Option (List ℕ))
      → after ≡ edit now valid email groups before
      → Step lower before after
  destroyed : (now : ℕ) → after ≡ destroy now before → Step lower before after

-- A sequence of actions, none of which finds an invite that is deleted
pub data Steps (lower : Text → Text) (before : Team) : Team → Type 0 where
  start : Steps lower before before
  also :
      (middle after : Team)
      → Steps lower before middle
      → middle.deleted ≡ false
      → Step lower middle after
      → Steps lower before after
