-- ===== src/State/Modes/Laws.antt =====
-- Which limits the operations of src/c/ChannelModes.cpp leave.
use irc.Common.{ℤ, Bool, true, Text, ◌≡◌, refl, arith}
use irc.State.Modes.{
  ChannelModes, limit_ok, set_invite_only, set_topic_restricted, set_key, unset_key, set_limit,
  unset_limit,
}

pub limit-set_invite_only :
    (b : Bool) (m : ChannelModes)
    → limit_ok m.limit ≡ true
    → limit_ok (set_invite_only b m).limit ≡ true
unfolding set_invite_only
limit-set_invite_only b m h = h

pub limit-set_topic_restricted :
    (b : Bool) (m : ChannelModes)
    → limit_ok m.limit ≡ true
    → limit_ok (set_topic_restricted b m).limit ≡ true
unfolding set_topic_restricted
limit-set_topic_restricted b m h = h

pub limit-set_key :
    (k : Text) (m : ChannelModes) → limit_ok m.limit ≡ true → limit_ok (set_key k m).limit ≡ true
unfolding set_key
limit-set_key k m h = h

pub limit-unset_key :
    (m : ChannelModes) → limit_ok m.limit ≡ true → limit_ok (unset_key m).limit ≡ true
unfolding unset_key
limit-unset_key m h = h

pub limit-unset_limit :
    (m : ChannelModes) → limit_ok m.limit ≡ true → limit_ok (unset_limit m).limit ≡ true
unfolding unset_limit
limit-unset_limit m h = refl

pub limit-set_limit :
    (n : ℤ)
    → limit_ok n ≡ true
    → (m : ChannelModes) → limit_ok m.limit ≡ true
    → limit_ok (set_limit n m).limit ≡ true
unfolding set_limit
limit-set_limit n ok m h = ground arith
