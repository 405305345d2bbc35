-- ===== src/Bircd/Loop/Reuse.antt =====
-- What bircd does with an entry that has been cleaned: in the same round, and for the next client.
use irc.Common.{
  ℕ, true, false, ◌≡◌, ◌≤◌, ◌+◌, ◌++◌, ◌∷◌, refl, List, Text, none, some, arith, ltb, length,
  if◌then◌else◌,
}
use irc.Network.Connection.{Sent}
use irc.Bircd.Memory.Held.{Holds, ft_strlen-Holds, ft_strlcat-Makes}
use irc.Bircd.Fd.{Fd, client_read_fct, clean_fd, accepted_fd, fd_at}
use irc.Bircd.Client.{read_and_store, nothing_read, client_read, write_fd, deliver}
use irc.Bircd.Client.Bounds.{fd_at-set_fd}
use irc.Bircd.Loop.{poll_entry, Event, call_read, call_write, check_write, check_event}

-- When a client is gone, and poll() has reported that its descriptor can be written too, check_fd calls
-- a null pointer: client_read has cleaned the entry.
pub check_event-gone :
    (e : Event) (f : Fd) (fds : List Fd)
    → fd_at e.fd fds ≡ some f
    → f.fct_read ≡ some client_read_fct
    → read_and_store e.answers.recv f ≡ nothing_read
    → e.pollin ≡ true
    → e.pollout ≡ true
    → check_event e fds ≡ none
unfolding check_event check_write call_read call_write client_read clean_fd
check_event-gone e f fds found handler gone readable writable =
    rw
      (
        check_event,
        readable,
        call_read,
        found,
        handler,
        client_read,
        found,
        gone,
        check_write,
        if◌then◌else◌,
        writable,
        call_write,
        fd_at-set_fd e.fd f (clean_fd f) fds found,
      )
      refl

-- A client that is accepted on an entry whose last client had not taken all of its text is polled for
-- output at once, and the call that this makes neither sends nor changes anything: the loop spins. A
-- message that is then broadcast goes behind the old text, while the length is that of the message
-- alone: what is sent begins with bytes that were meant for the last client.
pub accepted_fd-stale :
    (i c : ℕ) (f : Fd) (s full t : Text) (send : ℕ → Sent)
    → Holds f.buf_write (c ∷ s)
    → length f.buf_write ≡ 101
    → Holds full t
    → length (c ∷ s) + length t ≤ 100
    → (poll_entry i (accepted_fd f) ≡ some (record { fd = i; pollout = true }))
      × (write_fd send (accepted_fd f) ≡ some (accepted_fd f))
      × ((g : Fd) × (deliver full (length t) (accepted_fd f) ≡ some g)
          × Holds g.buf_write ((c ∷ s) ++ t)
          × (g.buf_write_len ≡ length t))
unfolding write_fd accepted_fd clean_fd poll_entry deliver
accepted_fd-stale i c f s full t send held size message h =
    let waits : ltb 0 (length (c ∷ s)) ≡ true = ground arith in
    let fits : ltb 100 (0 + length t) ≡ false = ground (arith, h) in
    let (a, e, longer, _) =
      ft_strlcat-Makes full t 101 f.buf_write (c ∷ s) message held (omega (arith, h))
        (omega (arith, size)) in
    (
      rw (poll_entry, ft_strlen-Holds f.buf_write (c ∷ s) held, waits) refl,
      refl,
      (
        record (accepted_fd f) { buf_write = a; buf_write_len = 0 + length t },
        rw (deliver, if◌then◌else◌, fits, e) refl,
        longer,
        omega arith,
      ),
    )
