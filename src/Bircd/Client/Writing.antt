-- ===== src/Bircd/Client/Writing.antt =====
-- Writing of bircd stays within the arrays.
use irc.Common.{
  ℕ, ◌+◌, ◌-◌, ◌≤◌, ◌≡◌, refl, ◌∙◌, ◌⊎◌, List, some, arith, ◌==◌, if◌then◌else◌, inl, inr,
  Bool-cases,
}
use irc.Network.Connection.{Sent, took, send_failed}
use irc.Bircd.Memory.Access.{ft_memmove-Stores}
use irc.Bircd.Fd.{Fd, clean_fd, fd_at, set_fd}
use irc.Bircd.Client.{drop_sent, write_fd, client_write}
use irc.Bircd.Client.Bounds.{
  IsBounded, AllBounded, fd_at-IsBounded, set_fd-AllBounded, clean_fd-IsBounded, Bounded,
}

-- send() takes no more bytes than it is given.
abbrev pub IsSend : (ℕ → Sent) → Type 0
IsSend send = (n k : ℕ) → send n ≡ took k → k ≤ n

Sent-cases : (x : Sent) → (x ≡ send_failed) ⊎ ((n : ℕ) × (x ≡ took n))
Sent-cases send_failed = inl refl
Sent-cases (took n) = inr (n, refl)

drop_sent-Bounded : (n : ℕ) (f : Fd) → IsBounded f → n ≤ f.buf_write_len → Bounded (drop_sent n f)
unfolding drop_sent
drop_sent-Bounded n f w h =
    let (a, e, same) =
      ft_memmove-Stores 0 n (f.buf_write_len - n + 1) f.buf_write
        (omega (arith, h, w.write_size, w.write_len)) (omega arith) in
    (
      record f { buf_write = a; buf_write_len = f.buf_write_len - n },
      rw (drop_sent, e) refl,
      record {
        read_size = w.read_size;
        write_size = same ∙ w.write_size;
        read_len = w.read_len;
        write_len = omega (arith, w.write_len);
      },
    )

write_fd-Bounded :
    (send : ℕ → Sent) (f : Fd) → IsSend send → IsBounded f → Bounded (write_fd send f)
unfolding write_fd
write_fd-Bounded send f answers w = elim (Bool-cases (f.buf_write_len == 0)) [
  | inl idle ↦ (f, rw (write_fd, if◌then◌else◌, idle) refl, w)
  | inr busy ↦ elim (Sent-cases (send f.buf_write_len)) [
    | inl e ↦ (clean_fd f, rw (write_fd, if◌then◌else◌, busy, e) refl, clean_fd-IsBounded f w)
    | inr (n, e) ↦ elim (Bool-cases (n == 0)) [
      | inl closed ↦
          (clean_fd f, rw (write_fd, if◌then◌else◌, busy, e, closed) refl, clean_fd-IsBounded f w)
      | inr going ↦
          rw (write_fd, if◌then◌else◌, busy, e, going)
            (drop_sent-Bounded n f w (answers f.buf_write_len n e))
    ]
  ]
]

-- Writing to a client never leaves an array, whatever send() answers up to the bytes that it is given;
-- the entries stay bounded.
pub client_write-AllBounded :
    (send : ℕ → Sent) (cs : ℕ) (f : Fd) (fds : List Fd)
    → ((n k : ℕ) → send n ≡ took k → k ≤ n)
    → AllBounded fds
    → fd_at cs fds ≡ some f
    → (after : List Fd) × (client_write send cs fds ≡ some after) × AllBounded after
unfolding client_write
client_write-AllBounded send cs f fds answers w found =
    let (g, e, u) = write_fd-Bounded send f answers (fd_at-IsBounded cs fds f w found) in
    (set_fd cs g fds, rw (client_write, found, e) refl, set_fd-AllBounded cs g fds u w)
