-- ===== src/Command/Disconnect/Once.antt =====
-- Who is told by src/b/DisconnectNotifier.cpp that a client goes, and how often.
use irc.Common.{
  ℕ, suc, ◌+◌, not, ◌&&◌, ◌||◌, ◌≡◌, refl, Bool, List, [], ◌∷◌, ◌++◌, map, some, Text, arith, ◌==◌,
  if◌then◌else◌, any, ap, ◌∙◌, Bool-cases, inl, inr,
}
use irc.Common.Map.{has, find}
use irc.Common.Map.Keys.{nat_order, has-insert_nat}
use irc.State.Client.{get_full_prefix}
use irc.State.Server.{ServerState, client_at, get_client_by_fd}
use irc.Protocol.Result.{OutgoingMessage, CommandResult, no_result, add_reply}
use irc.Protocol.Replies.{quit}
use irc.Command.Broadcast.{members_of}
use irc.Command.Disconnect.{
  DisconnectEvent, Notified, notify_member, notify_members, notify_channels, build,
}

-- How many messages go to `fd`.
unfoldable pub times_told : ℕ → List OutgoingMessage → ℕ
times_told fd [] = 0
times_told fd (m ∷ ms) = let rest = times_told fd ms in if m.fd == fd then suc rest else rest

-- `fd` is the descriptor of a member.
abbrev pub among_members : ℕ → List ℕ → ServerState → Bool
among_members fd ps s = any (λ p. (client_at p s).fd == fd) ps

-- `fd` is the descriptor of a member of one of the channels.
abbrev pub shares_channel : ℕ → List ℕ → ServerState → Bool
shares_channel fd qs s = any (λ q. among_members fd (members_of q s) s) qs

times_told-append :
    (fd : ℕ) (ms ns : List OutgoingMessage)
    → times_told fd (ms ++ ns) ≡ times_told fd ms + times_told fd ns
unfolding times_told
times_told-append fd [] ns = omega arith
times_told-append fd (m ∷ ms) ns = ground (arith, times_told-append fd ms ns)

pub times_told-add_reply :
    (fd g : ℕ) (text : Text) (r : CommandResult)
    → times_told fd (add_reply g text r).replies
      ≡ times_told fd r.replies + (if g == fd then 1 else 0)
unfolding add_reply times_told
times_told-add_reply fd g text r =
    ground (arith, times_told-append fd r.replies (record { fd = g; message = text } ∷ []))

-- Each descriptor has been told once if it is noted as told, and not at all otherwise.
unfoldable IsCounted : Notified → Type 0
IsCounted told =
    (fd : ℕ) → times_told fd told.1.replies ≡ (if has nat_order fd told.0 then 1 else 0)

module _ (event_fd : ℕ) (text : Text) where
  has-notify_member :
      (fd g : ℕ) (told : Notified)
      → has nat_order fd (notify_member event_fd text g told).0
        ≡ (has nat_order fd told.0 || (g == fd && not (fd == event_fd)))
  unfolding notify_member
  has-notify_member fd g told = ground (arith, has-insert_nat g fd tt told.0)

  notify_member-IsCounted :
      (g : ℕ) (told : Notified) → IsCounted told → IsCounted (notify_member event_fd text g told)
  unfolding IsCounted notify_member
  notify_member-IsCounted g told w fd =
      elim (Bool-cases (g == event_fd || has nat_order g told.0)) [
        | inl skip ↦ rw (if◌then◌else◌, skip) (w fd)
        | inr tell ↦
            rw (if◌then◌else◌, tell)
              (ground (
                arith,
                w fd,
                tell,
                has-insert_nat g fd tt told.0,
                times_told-add_reply fd g text told.1,
              ))
      ]

  has-notify_members :
      (fd : ℕ) (ps : List ℕ) (s : ServerState) (told : Notified)
      → has nat_order fd (notify_members event_fd text ps s told).0
        ≡ (has nat_order fd told.0 || (among_members fd ps s && not (fd == event_fd)))
  unfolding notify_members
  has-notify_members fd [] s told = ground arith
  has-notify_members fd (p ∷ ps) s told = ground (
    arith,
    has-notify_members fd ps s (notify_member event_fd text (client_at p s).fd told),
    has-notify_member fd (client_at p s).fd told,
  )

  has-notify_channels :
      (fd : ℕ) (qs : List ℕ) (s : ServerState) (told : Notified)
      → has nat_order fd (notify_channels event_fd text qs s told).0
        ≡ (has nat_order fd told.0 || (shares_channel fd qs s && not (fd == event_fd)))
  unfolding notify_channels
  has-notify_channels fd [] s told = ground arith
  has-notify_channels fd (q ∷ qs) s told = ground (
    arith,
    has-notify_channels fd qs s (notify_members event_fd text (members_of q s) s told),
    has-notify_members fd (members_of q s) s told,
  )

  notify_members-IsCounted :
      (ps : List ℕ) (s : ServerState) (told : Notified)
      → IsCounted told
      → IsCounted (notify_members event_fd text ps s told)
  unfolding notify_members
  notify_members-IsCounted [] s told w = w
  notify_members-IsCounted (p ∷ ps) s told w =
      notify_members-IsCounted ps s (notify_member event_fd text (client_at p s).fd told)
        (notify_member-IsCounted (client_at p s).fd told w)

  notify_channels-IsCounted :
      (qs : List ℕ) (s : ServerState) (told : Notified)
      → IsCounted told
      → IsCounted (notify_channels event_fd text qs s told)
  unfolding notify_channels
  notify_channels-IsCounted [] s told w = w
  notify_channels-IsCounted (q ∷ qs) s told w =
      notify_channels-IsCounted qs s (notify_members event_fd text (members_of q s) s told)
        (notify_members-IsCounted (members_of q s) s told w)

no_result-IsCounted : IsCounted ([], no_result)
unfolding IsCounted times_told find
no_result-IsCounted fd = refl

-- When a client goes, a descriptor is told exactly once if it is that of another member of one of the
-- client's channels, and is told nothing otherwise.
pub times_told-build :
    (event : DisconnectEvent) (s : ServerState) (p fd : ℕ)
    → get_client_by_fd event.fd s ≡ some p
    → times_told fd (build event s).replies ≡ (
        if shares_channel fd (map (λ e. e.0) (client_at p s).channels) s && not (fd == event.fd)
        then 1
        else 0)
unfolding build IsCounted find
times_told-build event s p fd h =
    let text = quit (get_full_prefix (client_at p s)) event.reason in
    let joined = map (λ e. e.0) (client_at p s).channels in
    rw (build, h)
      (notify_channels-IsCounted event.fd text joined s ([], no_result) no_result-IsCounted fd
        ∙ ap (λ b. if b then 1 else 0)
            (has-notify_channels event.fd text fd joined s ([], no_result)))
