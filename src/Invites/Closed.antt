-- ===== src/Invites/Closed.antt =====
-- What actions can do to an invite.
use backupsheep.Prelude.{
  ℕ, ◌≡◌, refl, sym, ◌∙◌, ap, Bool, true, false, ◌||◌, List, [], ◌∷◌, Option, ◌++◌, ◌==◌, any,
  if◌then◌else◌, arith, Bool-cases, inl, inr,
}
use mathlib.Core.Path.{subst}
use mathlib.Core.Bool.{false≢true}
use backupsheep.Model.Rows.{Text}
use backupsheep.Invites.{
  InviteStatus, Team, is_pending, is_expired, expire_if_needed, reset_expiry, accept,
  accept_pending, same_email, api_accept, page_accept, resend, cancel, sign_up, edit, destroy, Step,
  api, page, resent, withdrawn, signed_up, edited, destroyed, Steps, start, also,
}

expire-closed :
    (now : ℕ) (team : Team)
    → is_pending team.invite.status ≡ false
    → expire_if_needed now team ≡ team
unfolding expire_if_needed is_expired
expire-closed now team h = rw h refl

accept_pending-closed :
    (m : ℕ) (team : Team) → is_pending team.invite.status ≡ false → accept_pending m team ≡ team
unfolding accept_pending
accept_pending-closed m team h = rw h refl

-- The invite has the same status, and the account the same members in the same groups.
abbrev pub IsSame : Team → Team → Type 0
IsSame before after =
    (after.invite.status ≡ before.invite.status)
    × (after.members ≡ before.members)
    × (after.enrollments ≡ before.enrollments)

≡-IsSame : (before after : Team) → after ≡ before → IsSame before after
≡-IsSame before after e =
    (ap (λ t. t.invite.status) e, ap (λ t. t.members) e, ap (λ t. t.enrollments) e)

module _ (now : ℕ) (before : Team) (h : is_pending before.invite.status ≡ false) where
  api-closed :
      (lower : Text → Text) (m : ℕ) (email : Text) → api_accept lower now m email before ≡ before
  unfolding api_accept
  api-closed lower m email = elim (Bool-cases (same_email lower before.invite.email email)) [
    | inl e ↦
        rw e (ap (accept_pending m) (expire-closed now before h) ∙ accept_pending-closed m before h)
    | inr e ↦ rw e refl
  ]

  page-closed :
      (lower : Text → Text) (m : ℕ) (email : Text) → page_accept lower now m email before ≡ before
  unfolding page_accept
  page-closed lower m email = elim (Bool-cases (same_email lower email before.invite.email)) [
    | inl e ↦
        rw e (ap (accept_pending m) (expire-closed now before h) ∙ accept_pending-closed m before h)
    | inr e ↦ rw e (expire-closed now before h)
  ]

  resend-closed : resend now before ≡ before
  unfolding resend
  resend-closed =
      ap (λ t. if is_pending t.invite.status then reset_expiry now t else t)
        (expire-closed now before h)
      ∙ rw h refl

  cancel-closed : cancel now before ≡ before
  unfolding cancel
  cancel-closed =
      ap
        (λ t.
          if is_pending t.invite.status
          then record t { invite = record t.invite { status = InviteStatus.cancelled } }
          else t)
        (expire-closed now before h)
      ∙ rw h refl

  sign_up-closed : (m : ℕ) (valid : Bool) → sign_up now m valid before ≡ before
  unfolding sign_up
  sign_up-closed m true =
      ap (accept_pending m) (expire-closed now before h) ∙ accept_pending-closed m before h
  sign_up-closed m false = expire-closed now before h

  edit-IsSame :
      (valid : Bool) (email : Option Text) (groups : Option (List ℕ))
      → IsSame before (edit now valid email groups before)
  unfolding edit
  edit-IsSame true email groups = ≡-IsSame before _ (expire-closed now before h)
  edit-IsSame false email groups = ≡-IsSame before _ (expire-closed now before h)

  destroy-IsSame : IsSame before (destroy now before)
  unfolding destroy
  destroy-IsSame = ≡-IsSame before _ (expire-closed now before h)

Step-closed :
    (lower : Text → Text) (before after : Team)
    → is_pending before.invite.status ≡ false
    → Step lower before after
    → IsSame before after
Step-closed lower before after h (api now m email e) =
    ≡-IsSame before after (e ∙ api-closed now before h lower m email)
Step-closed lower before after h (page now m email e) =
    ≡-IsSame before after (e ∙ page-closed now before h lower m email)
Step-closed lower before after h (resent now e) =
    ≡-IsSame before after (e ∙ resend-closed now before h)
Step-closed lower before after h (withdrawn now e) =
    ≡-IsSame before after (e ∙ cancel-closed now before h)
Step-closed lower before after h (signed_up now m valid e) =
    ≡-IsSame before after (e ∙ sign_up-closed now before h m valid)
Step-closed lower before after h (edited now valid email groups e) =
    subst (IsSame before) (sym e) (edit-IsSame now before h valid email groups)
Step-closed lower before after h (destroyed now e) =
    subst (IsSame before) (sym e) (destroy-IsSame now before h)

-- Once an invite is accepted, expired or cancelled, no sequence of actions on it (accepting it over the
-- API, on the page or by signing up, sending it again, cancelling, editing or deleting it) changes its
-- status or makes anybody a member of the account or of one of its groups. Editing may still change its
-- email and its groups.
pub Steps-closed :
    (lower : Text → Text) (before after : Team)
    → is_pending before.invite.status ≡ false
    → Steps lower before after
    → IsSame before after
Steps-closed lower before after h start = (refl, refl, refl)
Steps-closed lower before after h (also middle _ s there e) =
    let (a, b, c) = Steps-closed lower before middle h s in
    let (x, y, z) = Step-closed lower middle after (ap is_pending a ∙ h) e in (x ∙ a, y ∙ b, z ∙ c)

any-append : (p : ℕ → Bool) (xs : List ℕ) (x : ℕ) → any p (xs ++ x ∷ []) ≡ (any p xs || p x)
unfolding any
any-append p [] x = ground arith
any-append p (y ∷ ys) x = ground (arith, any-append p ys x)

expire-members : (now : ℕ) (team : Team) → (expire_if_needed now team).members ≡ team.members
unfolding expire_if_needed
expire-members now team = elim (Bool-cases (is_expired now team.invite)) [
  | inl e ↦ rw e refl
  | inr e ↦ rw e refl
]

expire-pending :
    (now : ℕ) (team : Team)
    → is_pending (expire_if_needed now team).invite.status ≡ true
    → (is_pending team.invite.status ≡ true) × (is_expired now team.invite ≡ false)
unfolding expire_if_needed is_pending
expire-pending now team h = elim (Bool-cases (is_expired now team.invite)) [
  | inl e ↦ let k = simp e at h in cc
  | inr e ↦ (simp e at h, e)
]

-- Accepting grants access to the acceptor alone, and closes the invite.
accept-grants :
    (m x : ℕ) (team : Team)
    → any (λ y. y == x) team.members ≡ false
    → any (λ y. y == x) (accept_pending m team).members ≡ true
    → (x ≡ m) × (is_pending team.invite.status ≡ true)
unfolding accept_pending accept any
accept-grants m x team out into = ground (arith, out, into, any-append (λ y. y == x) team.members m)

-- The API grants a membership only to the member who asks, only while the invite is pending and its
-- time has not passed, and only to a user with the email of the invite.
pub api_accept-grants :
    (lower : Text → Text) (now m : ℕ) (email : Text) (team : Team) (x : ℕ)
    → any (λ y. y == x) team.members ≡ false
    → any (λ y. y == x) (api_accept lower now m email team).members ≡ true
    → (x ≡ m)
      × ((is_pending team.invite.status ≡ true)
          × ((is_expired now team.invite ≡ false)
              × (same_email lower team.invite.email email ≡ true)))
unfolding api_accept
api_accept-grants lower now m email team x out into =
    elim (Bool-cases (same_email lower team.invite.email email)) [
      | inr e ↦ absurd (false≢true (sym out ∙ (simp e at into)))
      | inl e ↦
          let (is_m, pending) =
            accept-grants m x (expire_if_needed now team) (simp (expire-members now team) out)
              (simp e at into) in
          let (was_pending, in_time) = expire-pending now team pending in
          (is_m, (was_pending, (in_time, e)))
    ]
