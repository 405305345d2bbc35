-- ===== src/Lib.antt =====
-- A verification library of an IRC server (RFC 2812 subset) written in C++98. Paths are from the
-- repository's root.
--
-- The server has one state (src/c/ServerState.cpp): clients, found by file descriptor and by nickname
-- (src/c/ClientRegistry.cpp), and channels, found by name. A line that a client sends is parsed
-- (src/b/Parser.cpp) into a message; CommandDispatcher and ChannelCommandHandler (src/b) run it on the
-- state and answer a CommandResult, the texts for descriptors; Server (src/a/Server.cpp) queues these
-- texts on the connections (src/a/Connection.cpp) and sends them as poll allows. ConnectionHealthMonitor
-- (src/lifecycle) keeps who has answered a PING, and DisconnectNotifier (src/b) tells the others of a
-- client that goes.
--
-- Files:
--   Common      numbers, texts, decimal numbers and strtol, ordered maps (std::map), a heap of
--               objects, open file descriptors
--   State       Names (src/c/Utils.cpp), Modes (src/c/ChannelModes.cpp), Client (src/c/Client.cpp),
--               Channel (src/c/Channel.cpp), Registry (src/c/ClientRegistry.cpp) and Server
--               (src/c/ServerState.cpp), with what each keeps in the files below them
--   Protocol    Message, Parser, Result (src/b/CommandResult.cpp) and Replies (src/b/ReplyBuilder.cpp)
--   Health      src/lifecycle/ConnectionHealthMonitor.cpp
--   Command     the handlers and dispatch (src/b/CommandDispatcher.cpp,
--               src/b/ChannelCommandHandler.cpp), Disconnect (src/b/DisconnectNotifier.cpp), and
--               what they do to the server state, in the files below them and in Consistency
--   Session     everything that happens to the server state, as a step relation, and who has sent
--               the password in the course of it
--   Network     Connection (src/a/Connection.cpp), and Poll (the array of descriptors), Server (the
--               handlers), Run (a round), Watched (its invariant), Shutdown and
--               Opening (the constructor), which are src/a/Server.cpp
--   Bonus       the bot (bonus): Formatter (bonus/irc/IrcFormatter.cpp), LineBuffer
--               (bonus/irc/LineBuffer.cpp) and Bot (bonus/Bot.cpp; Bot/Connecting is its connection)
--   Bircd       the study server (bircd): Memory and Output (bircd/libft, and what is reported
--               on standard output), Fd (bircd/bircd.h, clean_fd.c, init_env.c, srv_create.c,
--               srv_accept.c), Client (client_read.c, client_write.c, broadcast_message.c) and Loop
--               (init_fd.c, check_fd.c, main_loop.c)
--   MiniServ    bircd/exam06_miniserv/mini_serv.c
--   Entry       the command lines (src/main.cpp, bonus/main.cpp)
--   Examples    runs at concrete inputs
--
-- A function of the model carries the name of the C++ function in snake_case: state.updateNick is
-- update_nick, handleJoin is handle_join. A C++ object that others point at lives on a heap at an
-- address; `new` takes an address at which nothing lives as an argument. A text is the list of its
-- bytes. What the operating system answers (poll, recv, send, accept, the time) is an argument.
--
-- Bounds and fuel: nothing in the state of the IRC server is bounded. The loops over lists and maps
-- are structural. The loop of readParams takes one unit of fuel for each byte of the line and one
-- more, and each round drops at least one byte; the loop over received lines takes one unit for each
-- byte of the buffer and one more, and each line drops at least one byte; a decimal number n is
-- written in at most n + 1 digits. Limits are int: strtol saturates to the range of a 64-bit long, and
-- a limit above INT_MAX is refused, as in the source.
--
-- In bircd an access outside of an array, or through a null pointer, is `none`. In mini_serv sets and
-- arrays are functions; a descriptor for which an fd_set has no room (FD_SETSIZE is 1024, the arrays
-- are larger), and a flush of a buffer that is null, is a fault, and the number of clients is not
-- bounded by int. client_read has one round for each byte of its buffer and one more, as every message
-- is two bytes at least; mini_serv has one for each byte of the text and one more, and its loop over
-- the descriptors one more than an fd_set has room for. A round of run() has a turn for each entry of
-- the array, one for the client that comes, and one at the end. ft_putnbr_fd has more rounds than a
-- number has digits; there an overflow is `none`. The line buffer of the bot has one round for each
-- byte that it holds and one more; its last loop, and the closing of all descriptors, are given as
-- many rounds as the theorems about them say.
--
-- Not modelled, as they are calls of the system and output: the socket set-up of bircd, debug output,
-- and what is printed of a new client or of an error; and, as nothing above calls them, the rest of
-- libft, the earlier client_read_subject.c of bircd, which does not compile, and the textbook samples
-- (dev_docs).
pub mod Common
pub mod State
pub mod Protocol
pub mod Health
pub mod Command
pub mod Session
pub mod Network
pub mod Bonus
pub mod Bircd
pub mod MiniServ
pub mod Entry
pub mod Examples
