-- ===== src/Examples/Members.antt =====
-- The theorem on the recipients, at an account of two members.
use backupsheep.Prelude.{◌≤◌, ◌≡◌, true, false, ◌&&◌, List, [], ◌∷◌, none, some, any, count}
use backupsheep.Prelude.Text.{codes}
use backupsheep.Recipients.{
  MembershipStatus, Membership, Event, is_active, is_recipient, get_notification_recipients,
}
use backupsheep.Recipients.Chosen.{is_told, is_member, get_notification_recipients-chosen}

abbrev owner : Membership
owner = record {
  member_id = 1;
  email = codes "o@a.org";
  status = MembershipStatus.active;
  primary = true;
  notify_on_success = some false;
  notify_on_fail = some true;
}

abbrev helper : Membership
helper = record {
  member_id = 2;
  email = codes "h@a.org";
  status = MembershipStatus.active;
  primary = false;
  notify_on_success = some false;
  notify_on_fail = none;
}

abbrev memberships : List Membership
memberships = owner ∷ helper ∷ owner ∷ []

get_notification_recipients-chosen_example :
    (any (is_recipient 1 (codes "o@a.org")) (get_notification_recipients Event.success memberships)
      ≡ any
          (λ m. is_active m.status && (is_told Event.success m && is_member 1 (codes "o@a.org") m))
          memberships)
    × (count
          (is_recipient 1 (codes "o@a.org"))
          (get_notification_recipients Event.success memberships)
        ≤ 1)
get_notification_recipients-chosen_example =
    get_notification_recipients-chosen Event.success memberships 1 (codes "o@a.org")
