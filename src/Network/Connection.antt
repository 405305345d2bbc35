-- ===== src/Network/Connection.antt =====
-- src/a/Connection.cpp: the two buffers of a client's socket. What recv() and send() return is an
-- argument.
pub mod Limit
pub mod Lines
use irc.Common.{
  ℕ, suc, ◌-◌, ◌+◌, Bool, true, false, not, ◌&&◌, [], ◌∷◌, ◌++◌, Option, none, some, Text, ltb, leb,
  ◌==◌, if◌then◌else◌, length, take, drop, get_or, is_empty,
}

pub record Connection : Type 0 where
  pub fd : ℕ
  -- std::string::npos is `none`
  pub nl_pos : Option ℕ
  pub recv_buffer : Text
  pub send_buffer : Text

-- Connection::Connection(fd)
unfoldable pub new_connection : ℕ → Connection
new_connection fd = record { fd = fd; nl_pos = none; recv_buffer = []; send_buffer = [] }

abbrev pub max_ok : ℕ
max_ok = 512

-- A byte of the text is a newline.
unfoldable pub has_newline : Text → Bool
has_newline [] = false
has_newline (c ∷ s) = let rest = has_newline s in if c == 10 then true else rest

unfoldable pub is_line_too_long : Connection → Bool
unfolding has_newline
is_line_too_long c =
    if leb (length c.recv_buffer) max_ok
    then false
    else not (has_newline (take max_ok c.recv_buffer))

-- What recv() returns: bytes, 0 at the end of the stream, or -1.
pub data Received : Type 0 where
  bytes : Text → Received
  end_of_stream : Received
  recv_error : Received

unfoldable pub read_from_socket : Received → Connection → Bool × Connection
read_from_socket (bytes s) c = (true, record c { recv_buffer = c.recv_buffer ++ s })
read_from_socket end_of_stream c = (false, c)
read_from_socket recv_error c = (false, c)

-- find("\n")
unfoldable pub find_newline : Text → Option ℕ
find_newline [] = none
find_newline (c ∷ s) =
    let later = find_newline s in
    if c == 10 then some 0 else elim later [ none ↦ none | some i ↦ some (suc i) ]

unfoldable pub has_complete_line : Connection → Bool × Connection
unfolding find_newline
has_complete_line c =
    let pos = find_newline c.recv_buffer in
    (elim pos [ none ↦ false | some _ ↦ true ], record c { nl_pos = pos })

-- The bytes before position `n`, less a carriage return at their end.
unfoldable pub line_before : ℕ → Text → Text
line_before n buffer =
    if ltb 0 n && get_or buffer (n - 1) 0 == 13 then take (n - 1) buffer else take n buffer

-- `none` where no position is known: then the source would read out of bounds.
unfoldable pub pop_line : Connection → Option (Text × Connection)
unfolding line_before
pop_line c = elim c.nl_pos [
  | none ↦ none
  | some n ↦ some (
    line_before n c.recv_buffer,
    record c { recv_buffer = drop (n + 1) c.recv_buffer; nl_pos = none },
  )
]

unfoldable pub buffer_send : Text → Connection → Connection
buffer_send message c = record c { send_buffer = c.send_buffer ++ message }

unfoldable pub has_pending_output : Connection → Bool
has_pending_output c = not (is_empty c.send_buffer)

-- What send() returns: how many bytes it took, or 0 or less.
pub data Sent : Type 0 where
  took : ℕ → Sent
  send_failed : Sent

unfoldable pub write_to_socket : Sent → Connection → Bool × Connection
write_to_socket answer c = if is_empty c.send_buffer then (true, c) else elim answer [
  | send_failed ↦ (false, c)
  | took n ↦ if n == 0 then (false, c) else (true, record c { send_buffer = drop n c.send_buffer })
]
