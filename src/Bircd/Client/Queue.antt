-- ===== src/Bircd/Client/Queue.antt =====
-- The write buffer of bircd as a queue of bytes: what is broadcast goes behind it, what send() has taken
-- goes from its front.
use irc.Common.{
  ℕ, zero, suc, ◌+◌, ◌-◌, ◌≤◌, true, false, ◌≡◌, refl, sym, ap, subst, ◌∙◌, List, [], ◌∷◌, ◌++◌,
  Option, some, Text, arith, ltb, ◌==◌, if◌then◌else◌, length, drop, inl, inr, Bool-cases,
  Option-cases, length-append,
}
use irc.Common.Lines.{find_char, length-drop}
use irc.Bircd.Memory.{zeros, ft_memmove}
use irc.Bircd.Memory.Held.{
  Holds, ft_strlen-Holds, ft_strlcpy-Makes, ft_strlcat-Makes, ft_memmove-Makes,
}
use irc.Bircd.Fd.{Fd, fd_at}
use irc.Bircd.Client.{
  is_client, full_message, deliver, deliver_unless_sender, deliver_from, broadcast_message,
  drop_sent,
}
use irc.Bircd.Client.Bounds.{AllBounded, broadcast_message-Delivered}

-- The bytes that wait for a client: the array holds them, and the length is theirs.
pub record Queued (f : Fd) (s : Text) : Type 0 where
  pub held : Holds f.buf_write s
  pub len : f.buf_write_len ≡ length s
  pub size : length f.buf_write ≡ 101

abbrev QueuedIn : Option Fd → Text → Type 0
QueuedIn o s = (f : Fd) × (o ≡ some f) × Queued f s

-- A message that does not fit is left out as a whole.
abbrev pub with_message : Text → Text → Text
with_message t s = if ltb 100 (length s + length t) then s else s ++ t

deliver-Queued :
    (full t : Text) (f : Fd) (s : Text)
    → Holds full t
    → Queued f s
    → QueuedIn (deliver full (length t) f) (with_message t s)
unfolding deliver
deliver-Queued full t f s w q = elim (Bool-cases (ltb 100 (length s + length t))) [
  | inl over ↦
      let over' : ltb 100 (f.buf_write_len + length t) ≡ true = ground (arith, over, q.len) in
      rw (deliver, if◌then◌else◌, over', over) (f, refl, q)
  | inr fits ↦
      let (a, e, h, same) =
        ft_strlcat-Makes full t 101 f.buf_write s w q.held (ground (arith, fits))
          (omega (arith, q.size)) in
      let fits' : ltb 100 (f.buf_write_len + length t) ≡ false = ground (arith, fits, q.len) in
      rw (deliver, if◌then◌else◌, fits', fits, e)
        (
          record f { buf_write = a; buf_write_len = f.buf_write_len + length t },
          refl,
          record { held = h; len = omega (arith, q.len, length-append s t); size = same ∙ q.size },
        )
]

full_message-Holds :
    (msg m : Text)
    → Holds msg m
    → length m ≤ 98
    → (full : Text) × (full_message msg ≡ some full) × Holds full (m ++ 13 ∷ 10 ∷ [])
unfolding full_message zeros find_char
full_message-Holds msg m w h =
    let (a, e, held, same) =
      ft_strlcpy-Makes msg m 100 (zeros 103) w (omega (arith, h)) (omega arith) in
    let (full, e', held', _) =
      ft_strlcat-Makes (13 ∷ 10 ∷ 0 ∷ []) (13 ∷ 10 ∷ []) 103 a m
        (record { behind = []; array = refl; no_nul = refl }) held (omega (arith, h))
        (omega (arith, same)) in
    (full, rw (full_message, e) e', held')

module _ (sender : ℕ) (full : Text) (n i : ℕ) (f : Fd) (fs after : List Fd) where
  deliver_from-∷ :
      deliver_from sender full n i (f ∷ fs) ≡ some after
      → (g : Fd) × (gs : List Fd) × (deliver_unless_sender sender full n i f ≡ some g)
        × (deliver_from sender full n (suc i) fs ≡ some gs)
        × (g ∷ gs ≡ after)
  unfolding deliver_from
  deliver_from-∷ h = elim (Option-cases (deliver_unless_sender sender full n i f)) [
    | inl e ↦ absurd (ground (arith, e, h))
    | inr (g, e) ↦ elim (Option-cases (deliver_from sender full n (suc i) fs)) [
      | inl e' ↦ absurd (ground (arith, e, e', h))
      | inr (gs, e') ↦ (g, gs, e, e', ground (arith, e, e', h))
    ]
  ]

module _ (sender : ℕ) (full t : Text) (held : Holds full t) where
  deliver_unless_sender-Queued :
      (i : ℕ) (f g : Fd) (s : Text)
      → is_client f ≡ true
      → (i == sender) ≡ false
      → Queued f s
      → deliver_unless_sender sender full (length t) i f ≡ some g
      → Queued g (with_message t s)
  unfolding deliver_unless_sender
  deliver_unless_sender-Queued i f g s client other q ran =
      let (g', e, q') = deliver-Queued full t f s held q in
      subst (λ x. Queued x (with_message t s)) (ground (arith, client, other, e, ran)) q'

  deliver_from-Queued :
      (i k : ℕ) (fds after : List Fd) (f : Fd) (s : Text)
      → fd_at k fds ≡ some f
      → is_client f ≡ true
      → ((i + k) == sender) ≡ false
      → Queued f s
      → deliver_from sender full (length t) i fds ≡ some after
      → (g : Fd) × (fd_at k after ≡ some g) × Queued g (with_message t s)
  unfolding fd_at
  deliver_from-Queued i k [] after f s found client other q ran = cc
  deliver_from-Queued i zero (f' ∷ fs) after f s found client other q ran =
      let (g, gs, e, e', same) = deliver_from-∷ sender full (length t) i f' fs after ran in
      (
        g,
        ap (λ (l : List Fd). fd_at 0 l) (sym same),
        deliver_unless_sender-Queued i f' g s (ground (arith, found, client))
            (ground (arith, other)) (subst (λ x. Queued x s) (ground (arith, found)) q) e,
      )
  deliver_from-Queued i (suc k) (f' ∷ fs) after f s found client other q ran =
      let (g, gs, e, e', same) = deliver_from-∷ sender full (length t) i f' fs after ran in
      let (h, there, q') =
        deliver_from-Queued (suc i) k fs gs f s found client (ground (arith, other)) q e' in
      (h, ap (λ (l : List Fd). fd_at (suc k) l) (sym same) ∙ there, q')

-- A message that is broadcast goes, with its terminator, behind what waits for every other client, and is
-- left out for a client where the whole of it does not fit.
pub broadcast_message-Queued :
    (sender k : ℕ) (msg m : Text) (fds : List Fd) (f : Fd) (s : Text)
    → AllBounded fds
    → Holds msg m
    → length m ≤ 98
    → fd_at k fds ≡ some f
    → is_client f ≡ true
    → (k == sender) ≡ false
    → Queued f s
    → (after : List Fd) × (g : Fd) × (broadcast_message sender msg fds ≡ some after)
      × (fd_at k after ≡ some g)
      × Queued g (with_message (m ++ 13 ∷ 10 ∷ []) s)
unfolding broadcast_message
broadcast_message-Queued sender k msg m fds f s w h short found client other q =
    let (after, ran, _) =
      broadcast_message-Delivered sender msg fds (length m, ft_strlen-Holds msg m h) w in
    let (full, e, held) = full_message-Holds msg m h short in
    let t = m ++ 13 ∷ 10 ∷ [] in
    let delivered : deliver_from sender full (length t) 0 fds ≡ some after =
      subst (λ (o : Option (List Fd)). o ≡ some after)
        (rw (broadcast_message, e, ft_strlen-Holds full t held) refl) ran in
    let (g, there, q') =
      deliver_from-Queued sender full t held 0 k fds after f s found client (ground (arith, other))
        q delivered in
    (after, g, ran, there, q')

-- What send() has taken goes from the front of what waits.
pub drop_sent-Queued :
    (n : ℕ) (f : Fd) (s : Text)
    → Queued f s
    → n ≤ length s
    → length s ≤ 100
    → (g : Fd) × (drop_sent n f ≡ some g) × Queued g (drop n s)
unfolding drop_sent
drop_sent-Queued n f s q h k =
    let (a, e, held, same) = ft_memmove-Makes n f.buf_write s q.held h (omega (arith, k, q.size)) in
    (
      record f { buf_write = a; buf_write_len = f.buf_write_len - n },
      rw (drop_sent, (ap (λ (l : ℕ). ft_memmove 0 n (l - n + 1) f.buf_write) q.len ∙ e)) refl,
      record { held = held; len = omega (arith, q.len, length-drop n s); size = same ∙ q.size },
    )
