-- ===== src/Network/Server/Lines.antt =====
-- The loop of _handleRead of src/a/Server.cpp over the lines received: it ends, and never meets a null
-- connection.
use irc.Common.{
  ℕ, zero, suc, ◌+◌, ◌-◌, ◌<◌, true, false, not, ◌&&◌, ◌||◌, ◌≡◌, refl, Bool, [], ◌∷◌, Option, none,
  some, Text, arith, ◌==◌, if◌then◌else◌, Option-cases, inl, inr, Bool-cases, length, drop, ap, ◌∙◌,
  ==_iff,
}
use irc.Common.Map.{find}
use irc.Common.Map.Keys.{nat_order}
use irc.State.Server.{ServerState}
use irc.Protocol.Result.{CommandResult}
use irc.Network.Connection.{Connection, find_newline, line_before, has_complete_line, pop_line}
use irc.Network.Server.{Server, store_connection, handle_line, read_lines, read_round}
use irc.Network.Server.Buffers.{received, received-store_connection, received-handle_line}

length-drop : (n : ℕ) (s : Text) → length (drop n s) ≡ length s - n
length-drop zero s = omega arith
length-drop (suc n) [] = omega arith
length-drop (suc n) (c ∷ s) = omega (arith, length-drop n s)

find_newline-lt_length : (s : Text) (n : ℕ) → find_newline s ≡ some n → n < length s
unfolding find_newline
find_newline-lt_length [] n h = cc
find_newline-lt_length (c ∷ s) n h = elim (Option-cases (find_newline s)) [
  | inl absent ↦ ground (arith, absent, h)
  | inr (i, found) ↦ ground (arith, found, h, find_newline-lt_length s i found)
]

-- The descriptor has a connection.
abbrev pub connected : ℕ → Server → Bool
connected g v = elim (received g v) [ none ↦ false | some _ ↦ true ]

-- The answer of a handler for `fd`: there is one, and nothing but `fd` itself, and this only on
-- failure, has lost its connection.
abbrev pub IsHandled : ℕ → Server → Option (Bool × Server) → Type 0
IsHandled fd v o =
    (ok : Bool) × (v' : Server) × (o ≡ some (ok, v'))
    × ((g : ℕ) → (connected g v' || (fd == g && not ok)) ≡ connected g v)

has_complete_line-found :
    (n : ℕ) (c : Connection)
    → find_newline c.recv_buffer ≡ some n
    → has_complete_line c ≡ (true, record c { nl_pos = some n })
unfolding has_complete_line
has_complete_line-found n c h = rw h refl

has_complete_line-absent :
    (c : Connection)
    → find_newline c.recv_buffer ≡ none
    → has_complete_line c ≡ (false, record c { nl_pos = none })
unfolding has_complete_line
has_complete_line-absent c h = rw h refl

pub found-received :
    (fd : ℕ) (v : Server) (buffer : Text)
    → received fd v ≡ some buffer
    → (c : Connection) × (find nat_order fd v.connections ≡ some c) × (c.recv_buffer ≡ buffer)
unfolding received
found-received fd v buffer h = elim (Option-cases (find nat_order fd v.connections)) [
  | inl absent ↦ ground (arith, absent, h)
  | inr (c, found) ↦ (c, found, ground (arith, found, h))
]

-- A store to a connection that there is connects nothing else.
pub connected-store_connection :
    (g fd : ℕ) (c : Connection) (v : Server)
    → connected fd v ≡ true
    → connected g (store_connection fd c v) ≡ connected g v
connected-store_connection g fd c v h =
    ground (arith, received-store_connection g fd c v, ==_iff fd g)

-- The connection and the line after popLine has taken the line that ends at `n`.
abbrev pub rest_after : ℕ → Connection → Connection
rest_after n c = record c { recv_buffer = drop (n + 1) c.recv_buffer; nl_pos = none }

module _ (new_channel : ServerState → ℕ) (fd now : ℕ) where
  -- What the line that ends at `n` makes of the server.
  abbrev pub ran_line : ℕ → Connection → Server → CommandResult × Server
  ran_line n c v =
      handle_line fd (line_before n c.recv_buffer) now (new_channel v.state)
        (store_connection fd (rest_after n c) v)

  pub received-ran_line :
      (g n : ℕ) (c : Connection) (v : Server)
      → received g (ran_line n c v).1 ≡ (
          if fd == g
          then (if (ran_line n c v).0.should_disconnect
              then none
              else some (drop (n + 1) c.recv_buffer))
          else received g v)
  received-ran_line g n c v = ground (
    arith,
    received-handle_line g fd (line_before n c.recv_buffer) now (new_channel v.state)
        (store_connection fd (rest_after n c) v),
    received-store_connection g fd (rest_after n c) v,
  )

  read_lines-round :
      (rounds : ℕ) (c : Connection) (v : Server)
      → find nat_order fd v.connections ≡ some c
      → read_lines new_channel (suc rounds) fd now v
        ≡ read_round new_channel
            (read_lines new_channel rounds fd now)
            fd
            now
            (has_complete_line c)
            v
  unfolding read_lines
  read_lines-round rounds c v h = rw (read_lines, h) refl

  pub read_lines-found :
      (rounds n : ℕ) (c : Connection) (v : Server)
      → find nat_order fd v.connections ≡ some c
      → find_newline c.recv_buffer ≡ some n
      → read_lines new_channel (suc rounds) fd now v ≡ (elim (ran_line n c v).0.should_disconnect [
        | true ↦ some (false, (ran_line n c v).1)
        | false ↦ read_lines new_channel rounds fd now (ran_line n c v).1
      ])
  unfolding read_round pop_line
  read_lines-found rounds n c v h k =
      read_lines-round rounds c v h
      ∙ ap (λ x. read_round new_channel (read_lines new_channel rounds fd now) fd now x v)
          (has_complete_line-found n c k)

  read_lines-absent :
      (rounds : ℕ) (c : Connection) (v : Server)
      → find nat_order fd v.connections ≡ some c
      → find_newline c.recv_buffer ≡ none
      → read_lines new_channel (suc rounds) fd now v
        ≡ some (true, store_connection fd (record c { nl_pos = none }) v)
  unfolding read_round
  read_lines-absent rounds c v h k =
      read_lines-round rounds c v h
      ∙ ap (λ x. read_round new_channel (read_lines new_channel rounds fd now) fd now x v)
          (has_complete_line-absent c k)

  -- One round for each byte of the buffer and one more are enough.
  pub read_lines-IsHandled :
      (rounds : ℕ) (v : Server) (buffer : Text)
      → received fd v ≡ some buffer
      → length buffer < rounds
      → IsHandled fd v (read_lines new_channel rounds fd now v)
  read_lines-IsHandled zero v buffer h k = ground arith
  read_lines-IsHandled (suc rounds) v buffer h k =
      let (c, found, same_buffer) = found-received fd v buffer h in
      elim (Option-cases (find_newline c.recv_buffer)) [
        | inl absent ↦ (
          true,
          store_connection fd (record c { nl_pos = none }) v,
          read_lines-absent rounds c v found absent,
          λ g. ground (arith, connected-store_connection g fd (record c { nl_pos = none }) v, h),
        )
        | inr (n, newline) ↦ elim (Bool-cases (ran_line n c v).0.should_disconnect) [
          | inl quits ↦ (
            false,
            (ran_line n c v).1,
            rw (read_lines-found rounds n c v found newline, quits) refl,
            λ g. ground (arith, received-ran_line g n c v, quits, h, ==_iff fd g),
          )
          | inr stays ↦
              let (ok, v', ended, others) =
                read_lines-IsHandled rounds (ran_line n c v).1 (drop (n + 1) c.recv_buffer)
                  (ground (arith, received-ran_line fd n c v, stays, ==_iff fd fd))
                  (omega (
                    arith,
                    length-drop (n + 1) c.recv_buffer,
                    find_newline-lt_length c.recv_buffer n newline,
                    ap length same_buffer,
                    k,
                  )) in
              (
                ok,
                v',
                rw (read_lines-found rounds n c v found newline, stays) ended,
                λ g. ground (arith, others g, received-ran_line g n c v, stays, h, ==_iff fd g),
              )
        ]
      ]
