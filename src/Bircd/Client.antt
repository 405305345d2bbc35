-- ===== src/Bircd/Client.antt =====
-- client_read.c, client_write.c and broadcast_message.c of bircd. `none` is an access outside of an array.
pub mod Bounds
pub mod Reading
pub mod Writing
pub mod Queue
use irc.Common.{
  ℕ, zero, suc, ◌+◌, ◌-◌, Bool, true, false, not, ◌&&◌, List, [], ◌∷◌, Option, none, some, Text,
  ltb, ◌==◌, if◌then◌else◌, length, get_or,
}
use irc.Network.Connection.{Received, bytes, end_of_stream, recv_error, Sent, took, send_failed}
use irc.Bircd.Memory.{zeros, write_at, ft_strlen, ft_strlcpy, ft_strlcat, ft_memmove}
use irc.Bircd.Fd.{Fd, fd_client, fd_free, fd_serv, buf_size, clean_fd, fd_at, set_fd}

unfoldable pub is_client : Fd → Bool
is_client f = elim f.type [ fd_client ↦ true | fd_free ↦ false | fd_serv ↦ false ]

-- The message with its terminator. What the local array holds before is never read.
unfoldable pub full_message : Text → Option Text
unfolding zeros ft_strlcpy ft_strlcat
full_message msg = elim (ft_strlcpy 0 msg buf_size (zeros (buf_size + 3))) [
  | none ↦ none
  | some a ↦ ft_strlcat (13 ∷ 10 ∷ 0 ∷ []) (buf_size + 3) a
]

unfoldable pub deliver : Text → ℕ → Fd → Option Fd
unfolding ft_strlcat
deliver full msg_len f =
    if ltb buf_size (f.buf_write_len + msg_len)
    then some f
    else elim (ft_strlcat full (buf_size + 1) f.buf_write) [
      | none ↦ none
      | some a ↦ some (record f { buf_write = a; buf_write_len = f.buf_write_len + msg_len })
    ]

unfoldable pub deliver_unless_sender : ℕ → Text → ℕ → ℕ → Fd → Option Fd
deliver_unless_sender sender full msg_len i f =
    if is_client f && not (i == sender) then deliver full msg_len f else some f

-- The loop of broadcast_message, from descriptor `i`.
unfoldable pub deliver_from : ℕ → Text → ℕ → ℕ → List Fd → Option (List Fd)
unfolding deliver_unless_sender
deliver_from sender full msg_len i [] = some []
deliver_from sender full msg_len i (f ∷ fs) =
    let later = deliver_from sender full msg_len (suc i) fs in
    elim (deliver_unless_sender sender full msg_len i f) [
      | none ↦ none
      | some f' ↦ elim later [ none ↦ none | some fs' ↦ some (f' ∷ fs') ]
    ]

unfoldable pub broadcast_message : ℕ → Text → List Fd → Option (List Fd)
unfolding full_message
broadcast_message sender msg fds = elim (full_message msg) [
  | none ↦ none
  | some full ↦ elim (ft_strlen full) [
    | none ↦ none
    | some msg_len ↦ deliver_from sender full msg_len 0 fds
  ]
]

-- What stands at `i` and after it begins with a carriage return and a newline.
unfoldable pub is_crlf : Text → ℕ → Bool
is_crlf str i = get_or str i 0 == 13 && get_or str (i + 1) 0 == 10

-- The loop of get_crlf_pos from index `i`, with `n` indices to go.
unfoldable pub crlf_pos_from : Text → ℕ → ℕ → ℕ
unfolding is_crlf
crlf_pos_from str i zero = 0
crlf_pos_from str i (suc n) =
    let later = crlf_pos_from str (suc i) n in if is_crlf str i then i + 2 else later

unfoldable pub get_crlf_pos : Text → ℕ → ℕ
get_crlf_pos str len = crlf_pos_from str 0 (len - 1)

-- How read_and_store ends: with r <= 0, with the bytes in the buffer, or outside of an array.
pub data Stored : Type 0 where
  nothing_read out_of_array : Stored
  stored : Fd → Stored

unfoldable pub store_bytes : Text → Fd → Stored
unfolding write_at
store_bytes s f = elim (write_at f.buf_read_len s f.buf_read) [
  | none ↦ out_of_array
  | some a ↦ elim (write_at (f.buf_read_len + length s) (0 ∷ []) a) [
    | none ↦ out_of_array
    | some a' ↦ stored (record f { buf_read = a'; buf_read_len = f.buf_read_len + length s })
  ]
]

-- `recv n` is what recv() returns when it is asked for n bytes.
unfoldable pub read_and_store : (ℕ → Received) → Fd → Stored
unfolding store_bytes
read_and_store recv f =
    let room = buf_size - f.buf_read_len in
    if room == 0 then nothing_read else elim (recv room) [
      | recv_error ↦ nothing_read
      | end_of_stream ↦ nothing_read
      | bytes s ↦ store_bytes s f
    ]

-- The bytes of the first message go from the buffer.
unfoldable pub consume : ℕ → Fd → Option Fd
unfolding ft_memmove
consume crlf_end f = elim (ft_memmove 0 crlf_end (f.buf_read_len - crlf_end + 1) f.buf_read) [
  | none ↦ none
  | some a ↦ some (record f { buf_read = a; buf_read_len = f.buf_read_len - crlf_end })
]

unfoldable pub consume_at : ℕ → ℕ → List Fd → Option (List Fd)
unfolding consume
consume_at cs crlf_end fds = elim (fd_at cs fds) [
  | none ↦ none
  | some f ↦ elim (consume crlf_end f) [ none ↦ none | some f' ↦ some (set_fd cs f' fds) ]
]

unfoldable pub extract_and_consume : ℕ → ℕ → Fd → List Fd → Option (List Fd)
unfolding broadcast_message consume_at write_at
extract_and_consume cs crlf_end f fds = elim (write_at (crlf_end - 2) (0 ∷ []) f.buf_read) [
  | none ↦ none
  | some a ↦ elim (broadcast_message cs a (set_fd cs (record f { buf_read = a }) fds)) [
    | none ↦ none
    | some fds' ↦ consume_at cs crlf_end fds'
  ]
]

-- The loop of client_read. `none` is also that the rounds ran out.
unfoldable pub extract_all : ℕ → ℕ → List Fd → Option (List Fd)
extract_all zero cs fds = none
extract_all (suc rounds) cs fds =
    let next = extract_all rounds cs in
    elim (fd_at cs fds) [
      | none ↦ none
      | some f ↦
          let crlf_end = get_crlf_pos f.buf_read f.buf_read_len in
          if crlf_end == 0
          then some fds
          else elim (extract_and_consume cs crlf_end f fds) [ none ↦ none | some fds' ↦ next fds' ]
    ]

-- A message is two bytes at least, and the buffer holds buf_size of them.
unfoldable pub client_read : (ℕ → Received) → ℕ → List Fd → Option (List Fd)
unfolding read_and_store
client_read recv cs fds = elim (fd_at cs fds) [
  | none ↦ none
  | some f ↦ elim (read_and_store recv f) [
    | nothing_read ↦ some (set_fd cs (clean_fd f) fds)
    | out_of_array ↦ none
    | stored f' ↦ extract_all (suc buf_size) cs (set_fd cs f' fds)
  ]
]

-- What send() has taken goes from the buffer.
unfoldable pub drop_sent : ℕ → Fd → Option Fd
unfolding ft_memmove
drop_sent sent f = elim (ft_memmove 0 sent (f.buf_write_len - sent + 1) f.buf_write) [
  | none ↦ none
  | some a ↦ some (record f { buf_write = a; buf_write_len = f.buf_write_len - sent })
]

unfoldable pub write_fd : (ℕ → Sent) → Fd → Option Fd
unfolding drop_sent
write_fd send f = if f.buf_write_len == 0 then some f else elim (send f.buf_write_len) [
  | send_failed ↦ some (clean_fd f)
  | took n ↦ if n == 0 then some (clean_fd f) else drop_sent n f
]

-- `send n` is what send() returns when it is given n bytes.
unfoldable pub client_write : (ℕ → Sent) → ℕ → List Fd → Option (List Fd)
unfolding write_fd
client_write send cs fds = elim (fd_at cs fds) [
  | none ↦ none
  | some f ↦ elim (write_fd send f) [ none ↦ none | some f' ↦ some (set_fd cs f' fds) ]
]
