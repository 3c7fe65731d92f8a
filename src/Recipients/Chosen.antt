-- ===== src/Recipients/Chosen.antt =====
-- The members chosen by `get_notification_recipients`.
use backupsheep.Prelude.{
  ℕ, ◌≤◌, ◌≡◌, refl, ◌∙◌, ap, Bool, true, false, not, Option, none, some, ◌&&◌, ◌||◌, List, [], ◌∷◌,
  ◌++◌, ◌==◌, any, filter, count, count-append, arith, any-count_zero,
}
use backupsheep.Prelude.Text.{text_eq, text_eq-≡}
use backupsheep.Model.Rows.{Text}
use backupsheep.Recipients.{
  Membership, Event, Recipient, is_active, opted_out, flag, is_false, has_email, is_recipient,
  add_recipient, add_recipients, get_notification_recipients,
}

-- Whether a membership is told, by whether it is the primary one and by its flag: the primary one
-- always, any other unless its flag says no.
abbrev pub is_wanted : Bool → Option Bool → Bool
is_wanted true choice = true
is_wanted false (some false) = false
is_wanted false _ = true

abbrev pub choice_of : Event → Membership → Option Bool
choice_of Event.success m = m.notify_on_success
choice_of Event.fail m = m.notify_on_fail

abbrev pub is_address : Text → Bool
is_address [] = false
is_address (c ∷ cs) = true

-- The membership is to be told of the event.
abbrev pub is_told : Event → Membership → Bool
is_told e m = is_wanted m.primary (choice_of e m) && is_address m.email

wanted-opted_out :
    (e : Event) (m : Membership) → not (opted_out e m) ≡ is_wanted m.primary (choice_of e m)
unfolding opted_out flag is_false
wanted-opted_out e m = go e m.primary (choice_of e m)
  where
    go : (e : Event) (p : Bool) (c : Option Bool) → not (not p && is_false c) ≡ is_wanted p c
    go e true c = refl
    go e false none = refl
    go e false (some true) = refl
    go e false (some false) = refl

has_email-is_address : (t : Text) → has_email t ≡ is_address t
unfolding has_email
has_email-is_address [] = refl
has_email-is_address (c ∷ cs) = refl

abbrev pub is_member : ℕ → Text → Membership → Bool
is_member i t m = m.member_id == i && text_eq m.email t

any-append :
    (p : Recipient → Bool) (xs ys : List Recipient) → any p (xs ++ ys) ≡ (any p xs || any p ys)
unfolding any
any-append p [] ys = refl
any-append p (x ∷ xs) ys = ground (arith, any-append p xs ys)

-- Who is asked for is known to be there when the membership is theirs.
same-any :
    (i : ℕ) (t : Text) (m : Membership) (rs : List Recipient)
    → is_member i t m ≡ true
    → any (is_recipient m.member_id m.email) rs ≡ any (is_recipient i t) rs
same-any i t m rs h =
    ap (λ x. any (is_recipient x m.email) rs) same_id
    ∙ ap (λ x. any (is_recipient i x) rs) same_email
  where
    same_id : m.member_id ≡ i
    same_id = ground (arith, h)

    same_email : m.email ≡ t
    same_email = text_eq-≡ m.email t (ground (arith, h))

any-add_recipient :
    (e : Event) (i : ℕ) (t : Text) (m : Membership) (rs : List Recipient)
    → any (is_recipient i t) (add_recipient e m rs)
      ≡ (any (is_recipient i t) rs || (is_told e m && is_member i t m))
unfolding add_recipient any
any-add_recipient e i t m rs = ground (
  arith,
  wanted-opted_out e m,
  has_email-is_address m.email,
  same-any i t m rs,
  any-append (is_recipient i t) rs ((record { member_id = m.member_id; email = m.email }) ∷ []),
)

count-add_recipient :
    (e : Event) (i : ℕ) (t : Text) (m : Membership) (rs : List Recipient)
    → count (is_recipient i t) rs ≤ 1
    → count (is_recipient i t) (add_recipient e m rs) ≤ 1
unfolding add_recipient count
count-add_recipient e i t m rs one = ground (
  arith,
  one,
  same-any i t m rs,
  any-count_zero (is_recipient i t) rs,
  count-append (is_recipient i t) rs ((record { member_id = m.member_id; email = m.email }) ∷ []),
)

any-add_recipients :
    (e : Event) (i : ℕ) (t : Text) (ms : List Membership) (rs : List Recipient)
    → any (is_recipient i t) (add_recipients e ms rs)
      ≡ (any (is_recipient i t) rs || any (λ m. is_told e m && is_member i t m) ms)
unfolding add_recipients any
any-add_recipients e i t [] rs = ground arith
any-add_recipients e i t (m ∷ ms) rs =
    ground (arith, any-add_recipients e i t ms (add_recipient e m rs), any-add_recipient e i t m rs)

count-add_recipients :
    (e : Event) (i : ℕ) (t : Text) (ms : List Membership) (rs : List Recipient)
    → count (is_recipient i t) rs ≤ 1
    → count (is_recipient i t) (add_recipients e ms rs) ≤ 1
unfolding add_recipients
count-add_recipients e i t [] rs one = one
count-add_recipients e i t (m ∷ ms) rs one =
    count-add_recipients e i t ms (add_recipient e m rs) (count-add_recipient e i t m rs one)

any-filter :
    (p q : Membership → Bool) (ms : List Membership)
    → any p (filter q ms) ≡ any (λ m. q m && p m) ms
unfolding any filter
any-filter p q [] = refl
any-filter p q (m ∷ ms) = ground (arith, any-filter p q ms)

-- A member is told of an event at an address exactly when an active membership of theirs has that
-- address, and it is the primary one or has not opted out (a flag that is NULL has not); and nobody is
-- told twice at one address.
pub get_notification_recipients-chosen :
    (e : Event) (ms : List Membership) (i : ℕ) (t : Text)
    → (any (is_recipient i t) (get_notification_recipients e ms)
        ≡ any (λ m. is_active m.status && (is_told e m && is_member i t m)) ms)
      × (count (is_recipient i t) (get_notification_recipients e ms) ≤ 1)
unfolding get_notification_recipients any count
get_notification_recipients-chosen e ms i t = (
  any-add_recipients e i t (filter (λ m. is_active m.status) ms) []
      ∙ any-filter (λ m. is_told e m && is_member i t m) (λ m. is_active m.status) ms,
  count-add_recipients e i t (filter (λ m. is_active m.status) ms) [] (omega arith),
)
