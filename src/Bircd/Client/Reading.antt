-- ===== src/Bircd/Client/Reading.antt =====
-- Reading of bircd stays within the arrays, and ends.
use irc.Common.{
  ℕ, zero, suc, ◌+◌, ◌-◌, ◌<◌, ◌≤◌, false, ◌≡◌, refl, ◌∙◌, ◌⊎◌, List, [], ◌∷◌, Option, some, Text,
  arith, ◌==◌, if◌then◌else◌, length, inl, inr, Bool-cases,
}
use irc.Network.Connection.{Received, bytes, end_of_stream, recv_error}
use irc.Bircd.Memory.Access.{write_at-Stores, write_at-HasNul, ft_memmove-Stores}
use irc.Bircd.Fd.{Fd, clean_fd, fd_at, set_fd}
use irc.Bircd.Client.{
  crlf_pos_from, get_crlf_pos, nothing_read, stored, store_bytes, read_and_store, consume,
  consume_at, extract_and_consume, extract_all, client_read,
}
use irc.Bircd.Client.Bounds.{
  IsBounded, AllBounded, broadcast_message-Delivered, fd_at-IsBounded, set_fd-AllBounded,
  fd_at-set_fd, clean_fd-IsBounded,
}

crlf_pos_from_bounds :
    (str : Text) (i n : ℕ)
    → (crlf_pos_from str i n == 0) ≡ false
    → (2 ≤ crlf_pos_from str i n) × (crlf_pos_from str i n ≤ i + n + 1)
unfolding crlf_pos_from
crlf_pos_from_bounds str i zero h = ground (arith, h)
crlf_pos_from_bounds str i (suc n) h = ground (arith, h, crlf_pos_from_bounds str (suc i) n)

get_crlf_pos_bounds :
    (str : Text) (len : ℕ)
    → (get_crlf_pos str len == 0) ≡ false
    → (2 ≤ get_crlf_pos str len) × (get_crlf_pos str len ≤ len)
unfolding get_crlf_pos crlf_pos_from
get_crlf_pos_bounds str zero h = ground (arith, h)
get_crlf_pos_bounds str (suc len) h = ground (arith, h, crlf_pos_from_bounds str 0 len)

-- The entries after a step, all bounded, and what the buffer of `cs` then holds.
abbrev After : ℕ → ℕ → Option (List Fd) → Type 0
After cs len o =
    (fds : List Fd) × (f : Fd) × (o ≡ some fds)
    × AllBounded fds
    × (fd_at cs fds ≡ some f)
    × (f.buf_read_len ≡ len)

consume_at-After :
    (cs c : ℕ) (fds : List Fd) (f : Fd)
    → AllBounded fds
    → fd_at cs fds ≡ some f
    → c ≤ f.buf_read_len
    → After cs (f.buf_read_len - c) (consume_at cs c fds)
unfolding consume_at consume
consume_at-After cs c fds f w found h =
    let v = fd_at-IsBounded cs fds f w found in
    let (a, e, same) =
      ft_memmove-Stores 0 c (f.buf_read_len - c + 1) f.buf_read
        (omega (arith, h, v.read_size, v.read_len)) (omega arith) in
    let g = record f { buf_read = a; buf_read_len = f.buf_read_len - c } in
    (
      set_fd cs g fds,
      g,
      rw (consume_at, found, consume, e) refl,
      set_fd-AllBounded cs g fds
          (record {
            read_size = same ∙ v.read_size;
            write_size = v.write_size;
            read_len = omega (arith, v.read_len);
            write_len = v.write_len;
          })
          w,
      fd_at-set_fd cs f g fds found,
      refl,
    )

extract_and_consume-After :
    (cs c : ℕ) (f : Fd) (fds : List Fd)
    → AllBounded fds
    → fd_at cs fds ≡ some f
    → 2 ≤ c
    → c ≤ f.buf_read_len
    → After cs (f.buf_read_len - c) (extract_and_consume cs c f fds)
unfolding extract_and_consume
extract_and_consume-After cs c f fds w found h k =
    let v = fd_at-IsBounded cs fds f w found in
    let (a, e, same) =
      write_at-Stores (c - 2) (0 ∷ []) f.buf_read (omega (arith, h, k, v.read_size, v.read_len)) in
    let g = record f { buf_read = a } in
    let (after, e', d) =
      broadcast_message-Delivered cs a (set_fd cs g fds) (write_at-HasNul (c - 2) [] f.buf_read a e)
        (set_fd-AllBounded cs g fds
          (record {
            read_size = same ∙ v.read_size;
            write_size = v.write_size;
            read_len = v.read_len;
            write_len = v.write_len;
          })
          w) in
    rw (extract_and_consume, e, e')
      (consume_at-After cs c after g d.bounded
        (d.sender_kept cs g (omega arith) (fd_at-set_fd cs f g fds found)) k)

extract_all-AllBounded :
    (rounds cs : ℕ) (f : Fd) (fds : List Fd)
    → AllBounded fds
    → fd_at cs fds ≡ some f
    → f.buf_read_len < rounds
    → (after : List Fd) × (extract_all rounds cs fds ≡ some after) × AllBounded after
unfolding extract_all
extract_all-AllBounded zero cs f fds w found h = absurd (omega (arith, h))
extract_all-AllBounded (suc rounds) cs f fds w found h =
    let c = get_crlf_pos f.buf_read f.buf_read_len in
    elim (Bool-cases (c == 0)) [
      | inl none_left ↦ (fds, rw (extract_all, found, if◌then◌else◌, none_left) refl, w)
      | inr some_left ↦
          let (least, most) = get_crlf_pos_bounds f.buf_read f.buf_read_len some_left in
          let (after, g, e, v, found', len) =
            extract_and_consume-After cs c f fds w found least most in
          rw (extract_all, found, if◌then◌else◌, some_left, e)
            (extract_all-AllBounded rounds cs g after v found' (omega (arith, h, len, least, most)))
    ]

-- How the answers of recv() are put away: at least the room is left that recv() was told of.
store_bytes-IsBounded :
    (s : Text) (f : Fd)
    → IsBounded f
    → f.buf_read_len + length s ≤ 100
    → (g : Fd) × (store_bytes s f ≡ stored g) × IsBounded g
unfolding store_bytes
store_bytes-IsBounded s f w h =
    let (a, e, same) =
      write_at-Stores f.buf_read_len s f.buf_read (omega (arith, h, w.read_size)) in
    let (b, e', same') =
      write_at-Stores (f.buf_read_len + length s) (0 ∷ []) a
        (omega (arith, h, same, w.read_size)) in
    (
      record f { buf_read = b; buf_read_len = f.buf_read_len + length s },
      rw (store_bytes, e, e') refl,
      record {
        read_size = same' ∙ (same ∙ w.read_size);
        write_size = w.write_size;
        read_len = h;
        write_len = w.write_len;
      },
    )

-- recv() returns no more bytes than it is asked for.
abbrev pub IsRecv : (ℕ → Received) → Type 0
IsRecv recv = (n : ℕ) (s : Text) → recv n ≡ bytes s → length s ≤ n

Received-cases :
    (r : Received) → ((r ≡ recv_error) ⊎ (r ≡ end_of_stream)) ⊎ ((s : Text) × (r ≡ bytes s))
Received-cases recv_error = inl (inl refl)
Received-cases end_of_stream = inl (inr refl)
Received-cases (bytes s) = inr (s, refl)

read_and_store-cases :
    (recv : ℕ → Received) (f : Fd)
    → IsRecv recv
    → IsBounded f
    → (read_and_store recv f ≡ nothing_read)
      ⊎ ((g : Fd) × (read_and_store recv f ≡ stored g) × IsBounded g)
unfolding read_and_store
read_and_store-cases recv f answers w =
    let room = 100 - f.buf_read_len in
    elim (Bool-cases (room == 0)) [
      | inl full ↦ inl (rw (read_and_store, if◌then◌else◌, full) refl)
      | inr free ↦ elim (Received-cases (recv room)) [
        | inl (inl e) ↦ inl (rw (read_and_store, if◌then◌else◌, free, e) refl)
        | inl (inr e) ↦ inl (rw (read_and_store, if◌then◌else◌, free, e) refl)
        | inr (s, e) ↦
            let (g, e', v) =
              store_bytes-IsBounded s f w (omega (arith, answers room s e, w.read_len)) in
            inr (g, rw (read_and_store, if◌then◌else◌, free, e) e', v)
      ]
    ]

-- Reading from a client never leaves an array and always ends, whatever recv() answers within the room
-- that it is given; the entries stay bounded.
pub client_read-AllBounded :
    (recv : ℕ → Received) (cs : ℕ) (f : Fd) (fds : List Fd)
    → ((n : ℕ) (s : Text) → recv n ≡ bytes s → length s ≤ n)
    → AllBounded fds
    → fd_at cs fds ≡ some f
    → (after : List Fd) × (client_read recv cs fds ≡ some after) × AllBounded after
unfolding client_read
client_read-AllBounded recv cs f fds answers w found =
    let v = fd_at-IsBounded cs fds f w found in
    elim (read_and_store-cases recv f answers v) [
      | inl e ↦ (
        set_fd cs (clean_fd f) fds,
        rw (client_read, found, e) refl,
        set_fd-AllBounded cs (clean_fd f) fds (clean_fd-IsBounded f v) w,
      )
      | inr (g, e, u) ↦
          rw (client_read, found, e)
            (extract_all-AllBounded 101 cs g (set_fd cs g fds) (set_fd-AllBounded cs g fds u w)
              (fd_at-set_fd cs f g fds found) (omega (arith, u.read_len)))
    ]
