-- ===== src/State/Channel/Laws.antt =====
-- Who is a member of a channel, and who is invited, after each operation of src/c/Channel.cpp.
use irc.Common.{
  ℕ, Bool, true, false, ◌≡◌, refl, List, [], ◌∷◌, Text, arith, ◌==◌, if◌then◌else◌, is_empty,
}
use irc.Common.Map.{find, put}
use irc.Common.Map.Keys.{nat_order, find-put_nat, find-erase_nat, has-insert_nat}
use irc.State.Channel.{
  Channel, new_channel, has_member, add_member, remove_client_state, remove_invite, set_operator,
  is_operator, add_invite, is_invited, has_no_members,
}

module _ (p t : ℕ) (ch : Channel) where
  pub has_member-add_member :
      has_member p (add_member t ch) ≡ (if t == p then true else has_member p ch)
  unfolding has_member add_member
  has_member-add_member =
      ground (arith, find-put_nat t p (record { is_operator = false }) ch.members)

  pub has_member-remove_client_state :
      has_member p (remove_client_state t ch) ≡ (if t == p then false else has_member p ch)
  unfolding has_member remove_client_state
  has_member-remove_client_state = ground (arith, find-erase_nat t p ch.members)

  pub is_invited-add_member :
      is_invited p (add_member t ch) ≡ (if t == p then false else is_invited p ch)
  unfolding is_invited add_member
  is_invited-add_member = ground (arith, find-erase_nat t p ch.invited_clients)

  pub is_invited-remove_client_state :
      is_invited p (remove_client_state t ch) ≡ (if t == p then false else is_invited p ch)
  unfolding is_invited remove_client_state
  is_invited-remove_client_state = ground (arith, find-erase_nat t p ch.invited_clients)

  pub is_invited-remove_invite :
      is_invited p (remove_invite t ch) ≡ (if t == p then false else is_invited p ch)
  unfolding is_invited remove_invite
  is_invited-remove_invite = ground (arith, find-erase_nat t p ch.invited_clients)

  pub is_invited-add_invite :
      is_invited p (add_invite t ch) ≡ (if t == p then true else is_invited p ch)
  unfolding is_invited add_invite
  is_invited-add_invite = has-insert_nat t p tt ch.invited_clients

  pub has_member-set_operator : (b : Bool) → has_member p (set_operator t b ch) ≡ has_member p ch
  unfolding has_member set_operator
  has_member-set_operator b =
      ground (arith, find-put_nat t p (record { is_operator = b }) ch.members)

  pub is_invited-set_operator : (b : Bool) → is_invited p (set_operator t b ch) ≡ is_invited p ch
  unfolding is_invited set_operator
  is_invited-set_operator b = ground arith

  pub name-set_operator : (b : Bool) → (set_operator t b ch).name ≡ ch.name
  unfolding set_operator
  name-set_operator b = ground arith

  -- Only the client that is a member changes its rank.
  pub is_operator-set_operator :
      (b : Bool)
      → is_operator p (set_operator t b ch)
        ≡ (if t == p then (if has_member p ch then b else false) else is_operator p ch)
  unfolding is_operator set_operator has_member
  is_operator-set_operator b =
      ground (arith, find-put_nat t p (record { is_operator = b }) ch.members)

  -- A member that enters is no operator; the others keep their rank.
  pub is_operator-add_member :
      is_operator p (add_member t ch) ≡ (if t == p then false else is_operator p ch)
  unfolding is_operator add_member
  is_operator-add_member =
      ground (arith, find-put_nat t p (record { is_operator = false }) ch.members)

  pub is_operator-remove_client_state :
      is_operator p (remove_client_state t ch) ≡ (if t == p then false else is_operator p ch)
  unfolding is_operator remove_client_state
  is_operator-remove_client_state = ground (arith, find-erase_nat t p ch.members)

is_empty-put :
    {V : Type 0} (p : ℕ) (v : V) (m : List (ℕ × V)) → is_empty (put nat_order p v m) ≡ false
unfolding put
is_empty-put p v [] = refl
is_empty-put p v ((j, w) ∷ m) = ground arith

module _ (p : ℕ) (ch : Channel) where
  -- A channel with a member is not empty, and an empty one has none.
  pub has_no_members_of_member : has_member p ch ≡ true → has_no_members ch ≡ false
  unfolding has_member has_no_members find
  has_no_members_of_member h = ground arith

  pub has_no_members-add_member : has_no_members (add_member p ch) ≡ false
  unfolding has_no_members add_member
  has_no_members-add_member = is_empty-put p (record { is_operator = false }) ch.members

  pub has_no_members-set_operator :
      (b : Bool) → has_no_members (set_operator p b ch) ≡ has_no_members ch
  unfolding has_no_members set_operator find
  has_no_members-set_operator b =
      ground (arith, is_empty-put p (record { is_operator = b }) ch.members)

pub has_member-new_channel : (p : ℕ) (name : Text) → has_member p (new_channel name) ≡ false
unfolding has_member new_channel find
has_member-new_channel p name = refl

pub is_invited-new_channel : (p : ℕ) (name : Text) → is_invited p (new_channel name) ≡ false
unfolding is_invited new_channel find
is_invited-new_channel p name = refl

pub name-new_channel : (name : Text) → (new_channel name).name ≡ name
unfolding new_channel
name-new_channel name = refl

pub name-add_member : (p : ℕ) (ch : Channel) → (add_member p ch).name ≡ ch.name
unfolding add_member
name-add_member p ch = refl

pub name-remove_client_state : (p : ℕ) (ch : Channel) → (remove_client_state p ch).name ≡ ch.name
unfolding remove_client_state
name-remove_client_state p ch = refl

pub name-remove_invite : (p : ℕ) (ch : Channel) → (remove_invite p ch).name ≡ ch.name
unfolding remove_invite
name-remove_invite p ch = refl

pub has_member-remove_invite :
    (t p : ℕ) (ch : Channel) → has_member t (remove_invite p ch) ≡ has_member t ch
unfolding remove_invite has_member
has_member-remove_invite t p ch = refl

pub has_no_members-remove_invite :
    (p : ℕ) (ch : Channel) → has_no_members (remove_invite p ch) ≡ has_no_members ch
unfolding remove_invite has_no_members
has_no_members-remove_invite p ch = refl

pub name-add_invite : (p : ℕ) (ch : Channel) → (add_invite p ch).name ≡ ch.name
unfolding add_invite
name-add_invite p ch = refl

pub has_member-add_invite :
    (t p : ℕ) (ch : Channel) → has_member t (add_invite p ch) ≡ has_member t ch
unfolding add_invite has_member
has_member-add_invite t p ch = refl

pub has_no_members-add_invite :
    (p : ℕ) (ch : Channel) → has_no_members (add_invite p ch) ≡ has_no_members ch
unfolding add_invite has_no_members
has_no_members-add_invite p ch = refl
