-- ===== src/Bircd/Loop/Polling.antt =====
-- init_fd of bircd: which entries it makes, and when it does not end.
use irc.Common.{
  ℕ, zero, suc, ◌+◌, ◌<◌, ◌≤◌, false, not, ◌≡◌, refl, sym, ap, ◌∙◌, List, [], ◌∷◌, ◌++◌, some, Text,
  arith, leb, ltb, if◌then◌else◌, length, is_empty, Bool-cases, inl, inr, append_assoc, append-nil,
  length-append,
}
use irc.Common.Decimal.{c_str}
use irc.Common.Lines.{find_char}
use irc.Bircd.Memory.Access.{HasNul}
use irc.Bircd.Fd.{Fd}
use irc.Bircd.Loop.{PollFd, out_of_rounds, built, is_free, poll_entry, init_fd_loop, init_fd}

-- The number of entries in use.
unfoldable pub used : List Fd → ℕ
used [] = 0
used (f ∷ fs) = if is_free f then used fs else suc (used fs)

-- What is to be polled: every descriptor in use, for output if there is a text to send.
unfoldable pub entries_from : ℕ → List Fd → List PollFd
entries_from i [] = []
entries_from i (f ∷ fs) =
    let later = entries_from (suc i) fs in
    if is_free f
    then later
    else record { fd = i; pollout = not (is_empty (c_str f.buf_write)) } ∷ later

-- The write buffer of each descriptor in use holds a text that ends; of the others nothing is asked.
abbrev pub AllEnd : List Fd → Type 0
AllEnd [] = Unit
AllEnd (f ∷ fs) = (is_free f ≡ false → HasNul f.buf_write) × AllEnd fs

is_empty-c_str : (a : Text) (n : ℕ) → find_char 0 a ≡ some n → ltb 0 n ≡ not (is_empty (c_str a))
unfolding find_char c_str
is_empty-c_str [] n h = cc
is_empty-c_str (c ∷ s) n h = ground (arith, h)

poll_entry-some :
    (i : ℕ) (f : Fd)
    → HasNul f.buf_write
    → poll_entry i f ≡ some (record { fd = i; pollout = not (is_empty (c_str f.buf_write)) })
unfolding poll_entry
poll_entry-some i f (n, e) =
    rw (poll_entry, e)
      (ap (λ b. some (record { fd = i; pollout = b })) (is_empty-c_str f.buf_write n e))

init_fd_loop-built :
    (rounds i : ℕ) (acc : List PollFd) (fds : List Fd)
    → AllEnd fds
    → length acc + used fds ≤ 43
    → length fds < rounds
    → init_fd_loop rounds i acc fds ≡ built (acc ++ entries_from i fds)
unfolding init_fd_loop used entries_from
init_fd_loop-built zero i acc fds w h k = absurd (omega (arith, k))
init_fd_loop-built (suc rounds) i acc [] w h k = ap built (sym (append-nil acc))
init_fd_loop-built (suc rounds) i acc (f ∷ fs) (nul, w) h k = elim (Bool-cases (is_free f)) [
  | inl free ↦
      rw (init_fd_loop, entries_from, if◌then◌else◌, free)
        (init_fd_loop-built rounds (suc i) acc fs w (ground (arith, h, free)) (omega (arith, k)))
  | inr taken ↦
      let entry : PollFd = record { fd = i; pollout = not (is_empty (c_str f.buf_write)) } in
      let room : leb 43 (length acc) ≡ false = ground (arith, h, taken) in
      rw (init_fd_loop, entries_from, if◌then◌else◌, taken, room, poll_entry-some i f (nul taken))
        (init_fd_loop-built rounds (suc i) (acc ++ entry ∷ []) fs w
            (ground (arith, h, taken, length-append acc (entry ∷ []))) (omega (arith, k))
          ∙ ap built (append_assoc acc (entry ∷ []) (entries_from (suc i) fs)))
]

-- If the write buffer of each descriptor in use holds a zero byte, which bircd does not see to when it
-- sets up an entry, and at most 43 descriptors are in use: init_fd ends, after one round for each of the
-- array and one more, and makes an entry for each in use, in order, with output asked for where the
-- write buffer has a text.
pub init_fd-built :
    (rounds : ℕ) (fds : List Fd)
    → AllEnd fds
    → used fds ≤ 43
    → length fds < rounds
    → init_fd rounds fds ≡ built (entries_from 0 fds)
unfolding init_fd
init_fd-built rounds fds w h k = init_fd_loop-built rounds 0 [] fds w (omega (arith, h)) k

init_fd_loop-stuck :
    (rounds i : ℕ) (acc : List PollFd) (fds : List Fd)
    → AllEnd fds
    → length acc ≤ 43
    → 43 < length acc + used fds
    → init_fd_loop rounds i acc fds ≡ out_of_rounds
unfolding init_fd_loop used
init_fd_loop-stuck zero i acc fds w h k = refl
init_fd_loop-stuck (suc rounds) i acc [] w h k = absurd (omega (arith, h, k))
init_fd_loop-stuck (suc rounds) i acc (f ∷ fs) (nul, w) h k = elim (Bool-cases (is_free f)) [
  | inl free ↦
      rw (init_fd_loop, if◌then◌else◌, free)
        (init_fd_loop-stuck rounds (suc i) acc fs w h (ground (arith, k, free)))
  | inr taken ↦ elim (Bool-cases (leb 43 (length acc))) [
    | inl full ↦
        rw (init_fd_loop, if◌then◌else◌, taken, full)
          (init_fd_loop-stuck rounds i acc (f ∷ fs) (nul, w) h k)
    | inr room ↦
        let entry : PollFd = record { fd = i; pollout = not (is_empty (c_str f.buf_write)) } in
        rw (init_fd_loop, if◌then◌else◌, taken, room, poll_entry-some i f (nul taken))
          (init_fd_loop-stuck rounds (suc i) (acc ++ entry ∷ []) fs w
            (ground (arith, room, length-append acc (entry ∷ [])))
            (ground (arith, k, taken, length-append acc (entry ∷ []))))
  ]
]

-- If the write buffer of each descriptor in use holds a zero byte, and more than 43 descriptors are in
-- use: init_fd never ends, no number of rounds is enough.
pub init_fd-stuck :
    (rounds : ℕ) (fds : List Fd) → AllEnd fds → 43 < used fds → init_fd rounds fds ≡ out_of_rounds
unfolding init_fd
init_fd-stuck rounds fds w h = init_fd_loop-stuck rounds 0 [] fds w (omega arith) (omega (arith, h))
