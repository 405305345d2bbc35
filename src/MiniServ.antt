-- ===== src/MiniServ.antt =====
-- bircd/exam06_miniserv/mini_serv.c: a chat server over select(). An allocation that fails ends the
-- program, and is left out; a text is what stands before its zero byte.
pub mod Lines
pub mod Select
pub mod Serving
use irc.Common.{
  ℕ, zero, suc, Bool, true, false, not, ◌&&◌, [], ◌∷◌, ◌++◌, Option, none, some, Text, codes, leb,
  ltb, ◌==◌, if◌then◌else◌, length, take, drop,
}
use irc.Common.Decimal.{c_str, decimal}
use irc.Common.Lines.{find_char}
use irc.Network.Connection.{Received, bytes, end_of_stream, recv_error, Sent, took, send_failed}

-- FD_SETSIZE: how many descriptors an fd_set has room for. The arrays have 65536 entries, so that what
-- has room in an fd_set has an entry in each of them.
abbrev pub fd_setsize : ℕ
fd_setsize = 1024

-- The globals. A set of descriptors and an array are functions of the descriptor; `none` is NULL. Their
-- bounds are where descriptors come in and are walked over: start, serve, accept_client and check_from
-- answer with a fault at a descriptor for which g_active has no room; elsewhere a descriptor is one that
-- these have let pass, or is at most g_maxfd. g_next_id is not bounded: it is an int, which would
-- overflow after 2 ^ 31 clients.
pub record Globals : Type 0 where
  pub g_sockfd : ℕ
  pub g_active : ℕ → Bool
  pub g_maxfd : ℕ
  pub g_ids : ℕ → ℕ
  pub g_next_id : ℕ
  pub g_rbuf : ℕ → Option Text
  pub g_wbuf : ℕ → Option Text

-- An array with one entry changed.
abbrev pub put {ℓ} : {A : Type ℓ} → ℕ → A → (ℕ → A) → ℕ → A
put fd a f = λ g. if g == fd then a else f g

unfoldable pub str_join : Option Text → Text → Text
str_join none add = c_str add
str_join (some s) add = s ++ c_str add

-- The first line, with its newline, and what is then in the buffer. `none` is a return of 0.
unfoldable pub extract_message : Option Text → Option (Text × Text)
extract_message none = none
extract_message (some s) = elim (find_char 10 s) [
  | none ↦ none
  | some i ↦ some (take (suc i) s, drop (suc i) s)
]

-- A round of the loop of send_all.
unfoldable pub send_to : ℕ → Text → ℕ → Globals → Globals
unfolding str_join
send_to except msg fd s = record s {
  g_wbuf =
      if s.g_active fd && not (fd == except) && not (fd == s.g_sockfd)
      then put fd (some (str_join (s.g_wbuf fd) msg)) s.g_wbuf
      else s.g_wbuf;
}

-- The loop of send_all over the descriptors below `n`.
unfoldable pub send_below : ℕ → Text → ℕ → Globals → Globals
unfolding send_to
send_below except msg zero s = s
send_below except msg (suc n) s = send_to except msg n (send_below except msg n s)

unfoldable pub send_all : ℕ → Text → Globals → Globals
unfolding send_below
send_all except msg s = send_below except msg (suc s.g_maxfd) s

unfoldable pub arrived : ℕ → Text
arrived id = codes "server: client " ++ decimal id ++ codes " just arrived" ++ 10 ∷ []

unfoldable pub left : ℕ → Text
left id = codes "server: client " ++ decimal id ++ codes " just left" ++ 10 ∷ []

unfoldable pub registered : ℕ → Globals → Globals
registered connfd s = record s {
  g_ids = put connfd s.g_next_id s.g_ids;
  g_next_id = suc s.g_next_id;
  g_active = put connfd true s.g_active;
  g_maxfd = if ltb s.g_maxfd connfd then connfd else s.g_maxfd;
}

-- The argument is what accept() returns; `none` is a negative number. Nothing in the source compares
-- the descriptor with the room of g_active: beyond it FD_SET writes out of the set, a fault.
unfoldable pub accept_client : Option ℕ → Globals → Option Globals
unfolding registered send_all arrived
accept_client none s = some s
accept_client (some connfd) s =
    if ltb connfd fd_setsize
    then some (send_all connfd (arrived s.g_next_id) (registered connfd s))
    else none

-- The client is forgotten, and its descriptor closed.
unfoldable pub removed : ℕ → Globals → Globals
removed fd s = record s {
  g_rbuf = put fd none s.g_rbuf;
  g_wbuf = put fd none s.g_wbuf;
  g_active = put fd false s.g_active;
}

unfoldable pub client_line : ℕ → Text → Text
client_line id line = codes "client " ++ decimal id ++ codes ": " ++ line

-- The loop of handle_client. `none` is that the rounds ran out.
unfoldable pub send_lines : ℕ → ℕ → Globals → Option Globals
unfolding extract_message send_all client_line
send_lines zero fd s = none
send_lines (suc rounds) fd s =
    let next = send_lines rounds fd in
    elim (extract_message (s.g_rbuf fd)) [
      | none ↦ some s
      | some (line, rest) ↦ next (
          send_all fd (client_line (s.g_ids fd) line)
            (record s { g_rbuf = put fd (some rest) s.g_rbuf }))
    ]

unfoldable pub disconnected : ℕ → Globals → Globals
unfolding removed send_all left
disconnected fd s = send_all fd (left (s.g_ids fd)) (removed fd s)

-- A line is a byte at least.
unfoldable pub handle_bytes : ℕ → Text → Globals → Option Globals
unfolding send_lines str_join
handle_bytes fd buf s =
    let joined = str_join (s.g_rbuf fd) buf in
    send_lines (suc (length joined)) fd (record s { g_rbuf = put fd (some joined) s.g_rbuf })

unfoldable pub handle_client : ℕ → Received → Globals → Option Globals
unfolding disconnected handle_bytes
handle_client fd recv_error s = some (disconnected fd s)
handle_client fd end_of_stream s = some (disconnected fd s)
handle_client fd (bytes buf) s = handle_bytes fd buf s

-- What is left of a text of which send() has taken `n` bytes.
unfoldable pub left_over : ℕ → Text → Option Text
left_over n text = if n == length text then none else some (drop n text)

-- The argument is what send() returns. `none` is that the buffer is NULL.
unfoldable pub flush_client : ℕ → Sent → Globals → Option Globals
unfolding left_over
flush_client fd sent s = elim (s.g_wbuf fd) [
  | none ↦ none
  | some text ↦ elim sent [
    | send_failed ↦ some s
    | took n ↦
        if n == 0 then some s else some (record s { g_wbuf = put fd (left_over n text) s.g_wbuf })
  ]
]

-- The descriptors that main() asks select() to watch for output.
unfoldable pub to_write : Globals → ℕ → Bool
to_write s fd =
    leb fd s.g_maxfd && s.g_active fd && elim (s.g_wbuf fd) [ none ↦ false | some _ ↦ true ]

-- What select() leaves in the two sets, and what the calls on a descriptor return.
pub record Selected : Type 0 where
  pub rfds : ℕ → Bool
  pub wfds : ℕ → Bool
  pub accept : Option ℕ
  pub recv : ℕ → Received
  pub send : ℕ → Sent

unfoldable pub check_read : Selected → ℕ → Globals → Option Globals
unfolding accept_client handle_client
check_read e fd s =
    if not (e.rfds fd)
    then some s
    else if fd == s.g_sockfd
    then accept_client e.accept s
    else handle_client fd (e.recv fd) s

unfoldable pub check_write : Selected → ℕ → Globals → Option Globals
unfolding flush_client
check_write e fd s = if e.wfds fd && s.g_active fd then flush_client fd (e.send fd) s else some s

unfoldable pub check_client : Selected → ℕ → Globals → Option Globals
unfolding check_read check_write
check_client e fd s = elim (check_read e fd s) [ none ↦ none | some s' ↦ check_write e fd s' ]

-- The loop of main() over the descriptors from `fd`: FD_ISSET looks at each. `none` is also that the
-- rounds ran out.
unfoldable pub check_from : ℕ → Selected → ℕ → Globals → Option Globals
unfolding check_client
check_from zero e fd s = none
check_from (suc rounds) e fd s =
    let next = check_from rounds e (suc fd) in
    if ltb s.g_maxfd fd
    then some s
    else if not (ltb fd fd_setsize)
    then none
    else elim (check_client e fd s) [ none ↦ none | some s' ↦ next s' ]
