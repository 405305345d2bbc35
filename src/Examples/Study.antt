-- ===== src/Examples/Study.antt =====
-- The study servers on small inputs.
use irc.Common.{
  Option, false, ℕ, zero, suc, ◌≤◌, true, ◌||◌, ◌≡◌, refl, arith, List, [], ◌∷◌, ◌++◌, none, some,
  Text, codes, ◌==◌, if◌then◌else◌, length, take,
}
use irc.Common.Lines.{find_char}
use irc.Network.Connection.{Received, bytes, end_of_stream, took}
use irc.Bircd.Memory.{zeros}
use irc.Bircd.Fd.{Fd, fd_client, client_read_fct, client_write_fct, fd_at, accepted_fd}
use irc.Bircd.Memory.Held.{Holds}
use irc.Bircd.Client.{
  deliver, is_client, read_and_store, client_read, client_write, write_fd, broadcast_message,
}
use irc.Bircd.Client.Bounds.{IsBounded, AllBounded}
use irc.Bircd.Client.Reading.{client_read-AllBounded}
use irc.Bircd.Client.Writing.{client_write-AllBounded}
use irc.Bircd.Client.Queue.{Queued, with_message, broadcast_message-Queued}
use irc.Bircd.Loop.{Event, built, out_of_rounds, poll_entry, init_fd, is_free, check_event}
use irc.Bircd.Loop.Polling.{used, entries_from, AllEnd, init_fd-built, init_fd-stuck}
use irc.Bircd.Loop.Reuse.{check_event-gone, accepted_fd-stale}
use irc.MiniServ.{Globals, Selected, str_join, handle_bytes}
use irc.MiniServ.Lines.{receives, Told, handle_bytes-Told}
use irc.MiniServ.Serving.{main, is_faulted, main-is_faulted}

-- A client for whom this text waits, in an array of 101 bytes.
abbrev client_with : Text → Fd
client_with text = record {
  type = fd_client;
  fct_read = some client_read_fct;
  fct_write = some client_write_fct;
  buf_read_len = 0;
  buf_read = zeros 101;
  buf_write_len = length text;
  buf_write = text ++ zeros 98;
}

abbrev waiting : Fd
waiting = client_with (codes "abc")

abbrev two_entries : List Fd
two_entries = waiting ∷ waiting ∷ []

waiting-IsBounded : IsBounded waiting
unfolding zeros
waiting-IsBounded = record {
  read_size = refl;
  write_size = refl;
  read_len = omega arith;
  write_len = omega arith;
}

-- recv() answers as many bytes of a line as it is asked for.
abbrev line_received : ℕ → Received
line_received n = bytes (take n (codes "hi" ++ 13 ∷ 10 ∷ []))

length-take_most : (n : ℕ) (s : Text) → length (take n s) ≤ n
length-take_most zero s = ground arith
length-take_most (suc n) [] = omega arith
length-take_most (suc n) (c ∷ s) = ground (arith, length-take_most n s)

bytes-injective : {s t : Text} → bytes s ≡ bytes t → s ≡ t
bytes-injective h = cc

client_read-AllBounded_example :
    (after : List Fd) × (client_read line_received 1 two_entries ≡ some after) × AllBounded after
unfolding fd_at
client_read-AllBounded_example =
    client_read-AllBounded line_received 1 waiting two_entries
      (λ n s e. ground (arith, bytes-injective e, length-take_most n (codes "hi" ++ 13 ∷ 10 ∷ [])))
      (waiting-IsBounded, (waiting-IsBounded, tt)) refl

took-injective : {m n : ℕ} → took m ≡ took n → m ≡ n
took-injective h = cc

client_write-AllBounded_example :
    (after : List Fd) × (client_write (λ n. took n) 1 two_entries ≡ some after) × AllBounded after
unfolding fd_at
client_write-AllBounded_example =
    client_write-AllBounded (λ n. took n) 1 waiting two_entries
      (λ n k e. omega (arith, took-injective e)) (waiting-IsBounded, (waiting-IsBounded, tt)) refl

waiting-Queued : Queued waiting (codes "abc")
unfolding zeros find_char
waiting-Queued = record {
  held = record { behind = zeros 97; array = refl; no_nul = refl };
  len = refl;
  size = refl;
}

broadcast_message-Queued_example :
    (after : List Fd) × (g : Fd) × (broadcast_message 0 (codes "hi" ++ 0 ∷ []) two_entries
      ≡ some after)
    × (fd_at 1 after ≡ some g)
    × Queued g (with_message (codes "hi" ++ 13 ∷ 10 ∷ []) (codes "abc"))
unfolding fd_at is_client find_char
broadcast_message-Queued_example =
    broadcast_message-Queued 0 1 (codes "hi" ++ 0 ∷ []) (codes "hi") two_entries waiting
      (codes "abc") (waiting-IsBounded, (waiting-IsBounded, tt))
      (record { behind = []; array = refl; no_nul = refl }) (omega arith) refl refl refl
      waiting-Queued

init_fd-built_example : init_fd 3 two_entries ≡ built (entries_from 0 two_entries)
unfolding used is_free zeros find_char
init_fd-built_example =
    init_fd-built 3 two_entries (λ _. (3, refl), (λ _. (3, refl), tt)) (omega arith) (omega arith)

-- So many clients.
abbrev clients : ℕ → List Fd
clients zero = []
clients (suc n) = waiting ∷ clients n

clients-AllEnd : (n : ℕ) → AllEnd (clients n)
unfolding zeros find_char
clients-AllEnd zero = tt
clients-AllEnd (suc n) = (λ _. (3, refl), clients-AllEnd n)

init_fd-stuck_example : init_fd 1000 (clients 44) ≡ out_of_rounds
unfolding used is_free
init_fd-stuck_example = init_fd-stuck 1000 (clients 44) (clients-AllEnd 44) (omega arith)

abbrev gone : Event
gone = record {
  fd = 1;
  pollin = true;
  pollout = true;
  answers = record { accept = 0; recv = λ _. end_of_stream; send = λ n. took n };
}

check_event-gone_example : check_event gone two_entries ≡ none
unfolding fd_at read_and_store
check_event-gone_example = check_event-gone gone waiting two_entries refl refl refl refl refl

accepted_fd-stale_example :
    (poll_entry 7 (accepted_fd waiting) ≡ some (record { fd = 7; pollout = true }))
    × (write_fd (λ n. took n) (accepted_fd waiting) ≡ some (accepted_fd waiting))
    × ((g : Fd) × (deliver (codes "hi" ++ 0 ∷ []) 2 (accepted_fd waiting) ≡ some g)
        × Holds g.buf_write (codes "abchi")
        × (g.buf_write_len ≡ 2))
unfolding find_char
accepted_fd-stale_example =
    accepted_fd-stale 7 b'a' waiting (codes "bc") (codes "hi" ++ 0 ∷ []) (codes "hi") (λ n. took n)
      waiting-Queued.held waiting-Queued.size (record { behind = []; array = refl; no_nul = refl })
      (omega arith)

-- Two clients of the chat server.
abbrev chat : Globals
chat = record {
  g_sockfd = 3;
  g_active = λ fd. fd == 3 || fd == 4 || fd == 5;
  g_maxfd = 5;
  g_ids = λ fd. if fd == 5 then 1 else 0;
  g_next_id = 2;
  g_rbuf = λ _. none;
  g_wbuf = λ fd. if fd == 5 then some (codes "old") else none;
}

handle_bytes-Told_example :
    (after : Globals) × (handle_bytes 4 (codes "hi" ++ 10 ∷ codes "yo") chat ≡ some after)
    × Told 4 5 (str_join none (codes "hi" ++ 10 ∷ codes "yo")) chat after
unfolding receives
handle_bytes-Told_example =
    handle_bytes-Told 4 5 chat (codes "hi" ++ 10 ∷ codes "yo") (omega arith) refl

-- A client comes on descriptor 4 and sends a line; then select() fails.
abbrev chat_answers : List (Option Selected)
chat_answers =
    some (record {
      rfds = λ fd. fd == 3;
      wfds = λ _. false;
      accept = some 4;
      recv = λ _. end_of_stream;
      send = λ _. took 2;
    })
    ∷ some (record {
      rfds = λ fd. fd == 4;
      wfds = λ fd. fd == 4;
      accept = none;
      recv = λ _. bytes (codes "hi" ++ 10 ∷ []);
      send = λ _. took 2;
    })
    ∷ none
    ∷ []

main-is_faulted_example : is_faulted (main 2 (some 3) true true chat_answers) ≡ false
main-is_faulted_example =
    main-is_faulted 2 (some 3) true true chat_answers (λ sockfd e. ground (arith, e)) refl
