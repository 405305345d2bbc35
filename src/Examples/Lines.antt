-- ===== src/Examples/Lines.antt =====
-- The receive buffer of a connection that holds two lines and the beginning of a third.
use irc.Common.{true, ◌≡◌, refl, [], ◌∷◌, ◌++◌, none, some, codes, ltb}
use irc.Common.Lines.{lines_of, join_byte}
use irc.Network.Connection.{Connection, has_complete_line, pop_line, is_line_too_long}
use irc.Network.Connection.Limit.{first_line_length, is_line_too_long-first_line}
use irc.Network.Connection.Lines.{pop_line-lines_of}
use irc.Bonus.LineBuffer.{without_return}

abbrev buffered : Connection
buffered = record {
  fd = 4;
  nl_pos = none;
  recv_buffer = codes "NICK al" ++ (13 ∷ 10 ∷ codes "JOIN #42" ++ 10 ∷ codes "PA");
  send_buffer = [];
}

is_line_too_long-first_line_example :
    is_line_too_long buffered ≡ ltb 512 (first_line_length buffered.recv_buffer)
is_line_too_long-first_line_example = is_line_too_long-first_line buffered

pop_line-lines_of_example :
    (c' : Connection) × ((has_complete_line buffered).0 ≡ true)
    × (pop_line (has_complete_line buffered).1
        ≡ some (without_return (codes "NICK al" ++ 13 ∷ []), c'))
    × (lines_of c'.recv_buffer ≡ (codes "JOIN #42" ∷ [], (lines_of buffered.recv_buffer).1))
unfolding lines_of join_byte
pop_line-lines_of_example =
    pop_line-lines_of buffered (codes "NICK al" ++ 13 ∷ []) (codes "JOIN #42" ∷ []) refl
