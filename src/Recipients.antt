-- ===== src/Recipients.antt =====
-- Who is told of a backup: `get_notification_recipients` of apps/console/account/models.py, over the
-- memberships of the account, which are CoreMemberAccount of apps/console/member/models.py.
pub mod Chosen
use backupsheep.Prelude.{
  ℕ, Bool, true, false, not, ◌&&◌, ◌||◌, List, [], ◌∷◌, ◌++◌, Option, none, some, ◌==◌, any, filter,
  if◌then◌else◌,
}
use backupsheep.Prelude.Text.{text_eq}
use backupsheep.Model.Rows.{Text}

-- CoreMemberAccount.Status
pub data MembershipStatus : Type 0 where
  active pending suspended invited : MembershipStatus

-- A membership, with the email of its member's user
pub record Membership : Type 0 where
  pub member_id : ℕ
  pub email : Text
  pub status : MembershipStatus
  pub primary : Bool
  pub notify_on_success : Option Bool
  pub notify_on_fail : Option Bool

pub data Event : Type 0 where
  success fail : Event

pub record Recipient : Type 0 where
  pub member_id : ℕ
  pub email : Text

unfoldable pub is_active : MembershipStatus → Bool
is_active MembershipStatus.active = true
is_active _ = false

-- `getattr(membership, flag_field)`
unfoldable pub flag : Event → Membership → Option Bool
flag success m = m.notify_on_success
flag fail m = m.notify_on_fail

-- `… is False`
unfoldable pub is_false : Option Bool → Bool
is_false (some false) = true
is_false _ = false

unfoldable pub opted_out : Event → Membership → Bool
unfolding flag is_false
opted_out e m = not m.primary && is_false (flag e m)

unfoldable pub has_email : Text → Bool
has_email [] = false
has_email (c ∷ cs) = true

abbrev pub is_recipient : ℕ → Text → Recipient → Bool
is_recipient i t r = r.member_id == i && text_eq r.email t

-- One round of the loop; `seen` holds the pairs of `recipients`.
unfoldable pub add_recipient : Event → Membership → List Recipient → List Recipient
unfolding opted_out has_email
add_recipient e m recipients =
    if opted_out e m
    then recipients
    else if not (has_email m.email) || any (is_recipient m.member_id m.email) recipients
    then recipients
    else recipients ++ (record { member_id = m.member_id; email = m.email }) ∷ []

unfoldable pub add_recipients : Event → List Membership → List Recipient → List Recipient
unfolding add_recipient
add_recipients e [] recipients = recipients
add_recipients e (m ∷ ms) recipients = add_recipients e ms (add_recipient e m recipients)

unfoldable pub get_notification_recipients : Event → List Membership → List Recipient
unfolding add_recipients is_active
get_notification_recipients e memberships =
    add_recipients e (filter (λ m. is_active m.status) memberships) []
