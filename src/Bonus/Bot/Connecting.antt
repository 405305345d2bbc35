-- ===== src/Bonus/Bot/Connecting.antt =====
-- connectToServer of bonus/Bot.cpp, the destructor, and the open descriptors.
use irc.Common.{
  ℕ, Bool, true, false, not, ◌≡◌, refl, List, [], ◌∷◌, Option, none, some, all, arith, Bool-cases,
  Option-cases, inl, inr, if◌then◌else◌,
}
use irc.Common.Files.{is_open, close, close-opened}

-- What socket() and connect() return for an address.
pub record Address : Type 0 where
  pub socket : Option ℕ
  pub connects : Bool

-- closeIfOpen, on `_fd`: `none` stands for -1.
unfoldable pub close_if_open : Option ℕ → List ℕ → List ℕ
close_if_open none files = files
close_if_open (some fd) files = close fd files

-- The loop of connectToServer over the addresses: `_fd`, and the open descriptors.
unfoldable pub connect_loop : List Address → Option ℕ → List ℕ → Option ℕ × List ℕ
unfolding close_if_open
connect_loop [] fd files = (fd, files)
connect_loop (a ∷ rest) fd files =
    let later = connect_loop rest none in
    elim a.socket [
      | none ↦ later files
      | some s ↦
          if a.connects then (some s, s ∷ files) else later (close_if_open (some s) (s ∷ files))
    ]

-- How connectToServer ends.
pub data Connected : Type 0 where
  connected getaddrinfo_failed not_connected fcntl_failed : Connected

-- The end of connectToServer, after the loop.
unfoldable pub use_socket : Bool → Option ℕ × List ℕ → Connected × Option ℕ × List ℕ
use_socket nonblocking (none, files) = (not_connected, none, files)
use_socket nonblocking (some s, files) =
    (if nonblocking then connected else fcntl_failed, some s, files)

-- connectToServer, with what getaddrinfo() finds and whether fcntl() succeeds; `_fd` is -1 before.
unfoldable pub connect_to_server :
    Option (List Address) → Bool → List ℕ → Connected × Option ℕ × List ℕ
unfolding connect_loop use_socket
connect_to_server none nonblocking files = (getaddrinfo_failed, none, files)
connect_to_server (some addresses) nonblocking files =
    use_socket nonblocking (connect_loop addresses none files)

-- The first address to which a socket connects: the one that is used.
abbrev pub first_connection : List Address → Option ℕ
first_connection [] = none
first_connection (a ∷ rest) = elim a.socket [
  | none ↦ first_connection rest
  | some s ↦ if a.connects then some s else first_connection rest
]

-- socket() returns descriptors that are not open.
abbrev pub all_closed : List Address → List ℕ → Bool
all_closed addresses files =
    all (λ (a : Address). elim a.socket [ none ↦ true | some s ↦ not (is_open s files) ]) addresses

-- The descriptor that is kept, among those that were open.
abbrev pub with_kept : Option ℕ → List ℕ → List ℕ
with_kept none files = files
with_kept (some s) files = s ∷ files

connect_loop-first :
    (addresses : List Address) (files : List ℕ)
    → all_closed addresses files ≡ true
    → connect_loop addresses none files
      ≡ (first_connection addresses, with_kept (first_connection addresses) files)
unfolding connect_loop close_if_open
connect_loop-first [] files new = refl
connect_loop-first (a ∷ rest) files new = elim (Option-cases a.socket) [
  | inl failed ↦
      rw (connect_loop, failed) (connect_loop-first rest files (ground (arith, new, failed)))
  | inr (s, made) ↦ elim (Bool-cases a.connects) [
    | inl connects ↦ rw (connect_loop, made, connects) refl
    | inr refused ↦
        rw
          (
            connect_loop,
            close_if_open,
            made,
            refused,
            close-opened s files (ground (arith, new, made)),
          )
          (connect_loop-first rest files (ground (arith, new, made)))
  ]
]

first_connection-closed :
    (s : ℕ) (addresses : List Address) (files : List ℕ)
    → all_closed addresses files ≡ true
    → first_connection addresses ≡ some s
    → is_open s files ≡ false
first_connection-closed s [] files new h = cc
first_connection-closed s (a ∷ rest) files new h = elim (Option-cases a.socket) [
  | inl failed ↦
      first_connection-closed s rest files (ground (arith, new, failed)) (ground (arith, h, failed))
  | inr (t, made) ↦ elim (Bool-cases a.connects) [
    | inl connects ↦ ground (arith, h, new, made, connects)
    | inr refused ↦
        first_connection-closed s rest files (ground (arith, new, made))
          (ground (arith, h, made, refused))
  ]
]

-- If socket() returns descriptors that are not open: connectToServer keeps the socket of the first
-- address that it can connect to, and closes all others that it has opened, however it ends; and with
-- the destructor after it, the same descriptors are open as before.
pub connect_to_server-files :
    (addresses : List Address) (nonblocking : Bool) (files : List ℕ)
    → all_closed addresses files ≡ true
    → ((connect_to_server (some addresses) nonblocking files).1 ≡ first_connection addresses)
      × ((connect_to_server (some addresses) nonblocking files).2
          ≡ with_kept (first_connection addresses) files)
      × (close_if_open
            (connect_to_server (some addresses) nonblocking files).1
            (connect_to_server (some addresses) nonblocking files).2
          ≡ files)
unfolding connect_to_server use_socket close_if_open
connect_to_server-files addresses nonblocking files new =
    elim (Option-cases (first_connection addresses)) [
      | inl nowhere ↦
          rw (connect_to_server, connect_loop-first addresses files new, nowhere) (refl, refl, refl)
      | inr (s, first) ↦
          rw (connect_to_server, connect_loop-first addresses files new, first)
            (refl, refl, close-opened s files (first_connection-closed s addresses files new first))
    ]
