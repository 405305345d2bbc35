-- ===== src/Bircd/Client/Bounds.antt =====
-- Broadcasts of bircd stay within the arrays: whatever the message is, and however much has not been sent yet.
use irc.Common.{
  ℕ, zero, suc, ◌+◌, ◌≤◌, false, not, ◌&&◌, ◌≡◌, refl, sym, subst, ◌∙◌, List, [], ◌∷◌, Option, some,
  Text, arith, ltb, ◌==◌, if◌then◌else◌, length, inl, inr, Bool-cases,
}
use irc.Bircd.Memory.{zeros}
use irc.Bircd.Memory.Access.{
  HasNul, ft_strlcpy-Stores, ft_strlcpy-HasNul, ft_strlcat-Stores, ft_strlcat-HasNul,
}
use irc.Bircd.Fd.{Fd, clean_fd, fd_at, set_fd}
use irc.Common.Lines.{find_char}
use irc.Bircd.Client.{
  is_client, full_message, deliver, deliver_unless_sender, deliver_from, broadcast_message,
}

-- Both arrays have their size, and neither length goes beyond buf_size.
pub record IsBounded (f : Fd) : Type 0 where
  pub read_size : length f.buf_read ≡ 101
  pub write_size : length f.buf_write ≡ 101
  pub read_len : f.buf_read_len ≤ 100
  pub write_len : f.buf_write_len ≤ 100

abbrev pub AllBounded : List Fd → Type 0
AllBounded [] = Unit
AllBounded (f ∷ fs) = IsBounded f × AllBounded fs

-- A result that is there, and bounded.
abbrev pub Bounded : Option Fd → Type 0
Bounded o = (f : Fd) × (o ≡ some f) × IsBounded f

fits_le : (a b : ℕ) → ltb a b ≡ false → b ≤ a
fits_le a b h = ground arith

module _ (full : Text) (n : ℕ) (f : Fd) (nul : HasNul full) (w : IsBounded f) where
  deliver-Bounded : Bounded (deliver full n f)
  unfolding deliver
  deliver-Bounded = elim (Bool-cases (ltb 100 (f.buf_write_len + n))) [
    | inl over ↦ (f, rw (deliver, if◌then◌else◌, over) refl, w)
    | inr fits ↦
        let (a, e, same) =
          ft_strlcat-Stores full 101 f.buf_write nul (omega (arith, w.write_size)) in
        (
          record f { buf_write = a; buf_write_len = f.buf_write_len + n },
          rw (deliver, if◌then◌else◌, fits, e) refl,
          record {
            read_size = w.read_size;
            write_size = same ∙ w.write_size;
            read_len = w.read_len;
            write_len = fits_le 100 (f.buf_write_len + n) fits;
          },
        )
  ]

  deliver_unless_sender-Bounded : (sender i : ℕ) → Bounded (deliver_unless_sender sender full n i f)
  unfolding deliver_unless_sender
  deliver_unless_sender-Bounded sender i = elim (Bool-cases (is_client f && not (i == sender))) [
    | inl e ↦ rw (deliver_unless_sender, if◌then◌else◌, e) deliver-Bounded
    | inr e ↦ rw (deliver_unless_sender, if◌then◌else◌, e) (f, refl, w)
  ]

deliver_unless_sender-sender :
    (sender : ℕ) (full : Text) (n i : ℕ) (f : Fd)
    → i ≡ sender
    → deliver_unless_sender sender full n i f ≡ some f
unfolding deliver_unless_sender
deliver_unless_sender-sender sender full n i f h = ground (arith, h)

-- The entries after a delivery: bounded, and that of the sender as it was.
pub record Delivered (sender i : ℕ) (before after : List Fd) : Type 0 where
  pub bounded : AllBounded after
  pub sender_kept :
      (k : ℕ) (f : Fd) → i + k ≡ sender → fd_at k before ≡ some f → fd_at k after ≡ some f

sender_kept-∷ :
    (sender : ℕ) (full : Text) (n i : ℕ) (f f' : Fd) (fs fs' : List Fd)
    → deliver_unless_sender sender full n i f ≡ some f'
    → Delivered sender (suc i) fs fs'
    → (k : ℕ) (g : Fd) → i + k ≡ sender
    → fd_at k (f ∷ fs) ≡ some g
    → fd_at k (f' ∷ fs') ≡ some g
unfolding fd_at
sender_kept-∷ sender full n i f f' fs fs' e w zero g here found =
    sym e ∙ (deliver_unless_sender-sender sender full n i f (omega (arith, here)) ∙ found)
sender_kept-∷ sender full n i f f' fs fs' e w (suc k) g here found =
    w.sender_kept k g (omega (arith, here)) found

deliver_from-Delivered :
    (sender : ℕ) (full : Text) (n i : ℕ) (fds : List Fd)
    → HasNul full
    → AllBounded fds
    → (after : List Fd) × (deliver_from sender full n i fds ≡ some after)
      × Delivered sender i fds after
unfolding deliver_from
deliver_from-Delivered sender full n i [] nul w =
    ([], refl, record { bounded = tt; sender_kept = λ k f e found. found })
deliver_from-Delivered sender full n i (f ∷ fs) nul (w, ws) =
    let (f', e, here) = deliver_unless_sender-Bounded full n f nul w sender i in
    let (fs', later, d) = deliver_from-Delivered sender full n (suc i) fs nul ws in
    (
      f' ∷ fs',
      rw (deliver_from, e, later) refl,
      record {
        bounded = (here, d.bounded);
        sender_kept = sender_kept-∷ sender full n i f f' fs fs' e d;
      },
    )

-- After a broadcast.
pub broadcast_message-Delivered :
    (sender : ℕ) (msg : Text) (fds : List Fd)
    → HasNul msg
    → AllBounded fds
    → (after : List Fd) × (broadcast_message sender msg fds ≡ some after)
      × Delivered sender 0 fds after
unfolding broadcast_message full_message zeros find_char
broadcast_message-Delivered sender msg fds nul w =
    let (a, e, same) = ft_strlcpy-Stores 0 msg 100 (zeros 103) nul (omega arith) in
    let (full, e', same') =
      ft_strlcat-Stores (13 ∷ 10 ∷ 0 ∷ []) 103 a (2, refl) (omega (arith, same)) in
    let (n, ends) =
      ft_strlcat-HasNul (13 ∷ 10 ∷ 0 ∷ []) 103 a full (2, refl)
        (ft_strlcpy-HasNul 0 msg 100 (zeros 103) a nul (0, refl) e) e' in
    let (after, e'', d) = deliver_from-Delivered sender full n 0 fds (n, ends) w in
    (after, rw (broadcast_message, full_message, e, e', ends) e'', d)

pub fd_at-IsBounded :
    (i : ℕ) (fds : List Fd) (f : Fd) → AllBounded fds → fd_at i fds ≡ some f → IsBounded f
unfolding fd_at
fd_at-IsBounded i [] f w h = cc
fd_at-IsBounded zero (g ∷ fs) f (w, ws) h = subst IsBounded (ground arith) w
fd_at-IsBounded (suc i) (g ∷ fs) f (w, ws) h = fd_at-IsBounded i fs f ws h

pub set_fd-AllBounded :
    (i : ℕ) (g : Fd) (fds : List Fd) → IsBounded g → AllBounded fds → AllBounded (set_fd i g fds)
unfolding set_fd
set_fd-AllBounded i g [] w ws = tt
set_fd-AllBounded zero g (f ∷ fs) w (_, ws) = (w, ws)
set_fd-AllBounded (suc i) g (f ∷ fs) w (v, ws) = (v, set_fd-AllBounded i g fs w ws)

pub fd_at-set_fd :
    (i : ℕ) (f g : Fd) (fds : List Fd) → fd_at i fds ≡ some f → fd_at i (set_fd i g fds) ≡ some g
unfolding fd_at set_fd
fd_at-set_fd i f g [] h = cc
fd_at-set_fd zero f g (e ∷ fs) h = refl
fd_at-set_fd (suc i) f g (e ∷ fs) h = fd_at-set_fd i f g fs h

pub clean_fd-IsBounded : (f : Fd) → IsBounded f → IsBounded (clean_fd f)
unfolding clean_fd
clean_fd-IsBounded f w = record {
  read_size = w.read_size;
  write_size = w.write_size;
  read_len = omega arith;
  write_len = omega arith;
}
