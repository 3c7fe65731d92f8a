-- ===== src/Examples/Invitations.antt =====
-- The theorems on invites, at an invite that is pending and at one that has been cancelled.
use backupsheep.Prelude.{◌≡◌, refl, true, false, [], ◌∷◌, some, ◌==◌, any, suc}
use backupsheep.Prelude.Text.{codes, text_eq}
use backupsheep.Invites.{
  InviteStatus, Invite, Team, is_pending, is_expired, expire_if_needed, accept, accept_pending,
  same_email, api_accept, edit, destroy, api, edited, destroyed, start, also,
}
use backupsheep.Invites.Closed.{IsSame, Steps-closed, api_accept-grants}

abbrev invite_of : InviteStatus → Invite
invite_of s = record { status = s; email = codes "a@b.org"; groups = 1 ∷ []; expires_at = some 500 }

abbrev team_of : InviteStatus → Team
team_of s = record { invite = invite_of s; deleted = false; members = 1 ∷ []; enrollments = [] }

abbrev asked : InviteStatus → Team
asked s = api_accept (λ t. t) 100 2 (codes "a@b.org") (team_of s)

cancelled_closed : is_pending InviteStatus.cancelled ≡ false
unfolding is_pending
cancelled_closed = refl

-- The cancelled invite is edited, asked for again with the new email, and deleted.
abbrev edited_team : Team
edited_team = edit 90 true (some (codes "c@b.org")) (some (2 ∷ [])) (team_of InviteStatus.cancelled)

abbrev asked_again : Team
asked_again = api_accept (λ t. t) 100 2 (codes "c@b.org") edited_team

still_there : asked_again.deleted ≡ false
unfolding edit api_accept same_email text_eq accept_pending expire_if_needed is_expired is_pending
still_there = refl

edited_there : edited_team.deleted ≡ false
unfolding edit expire_if_needed is_expired is_pending
edited_there = refl

Steps-closed_example : IsSame (team_of InviteStatus.cancelled) (destroy 110 asked_again)
Steps-closed_example =
    Steps-closed (λ t. t) (team_of InviteStatus.cancelled) (destroy 110 asked_again)
      cancelled_closed
      (also asked_again (destroy 110 asked_again)
        (also edited_team asked_again
          (also (team_of InviteStatus.cancelled) edited_team start refl
            (edited 90 true (some (codes "c@b.org")) (some (2 ∷ [])) refl))
          edited_there (api 100 2 (codes "c@b.org") refl))
        still_there (destroyed 110 refl))

two_joins : any (λ y. y == 2) (asked InviteStatus.pending).members ≡ true
unfolding any api_accept same_email text_eq accept_pending expire_if_needed is_expired is_pending
    accept
two_joins = refl

two_is_new : any (λ y. y == 2) (team_of InviteStatus.pending).members ≡ false
unfolding any
two_is_new = refl

api_accept-grants_example :
    (suc 1 ≡ 2)
    × ((is_pending InviteStatus.pending ≡ true)
        × ((is_expired 100 (invite_of InviteStatus.pending) ≡ false)
            × (same_email (λ t. t) (codes "a@b.org") (codes "a@b.org") ≡ true)))
api_accept-grants_example =
    api_accept-grants (λ t. t) 100 2 (codes "a@b.org") (team_of InviteStatus.pending) 2 two_is_new
      two_joins
