-- ===== src/Network/Poll.antt =====
-- The array of struct pollfd of src/a/Server.cpp, and what poll() and the calls that follow it answer for
-- a descriptor.
pub mod Laws
use irc.Common.{ℕ, Bool, false, not, ◌&&◌, List, [], ◌∷◌, ◌++◌, map, Text, ◌==◌, if◌then◌else◌}
use irc.Network.Connection.{Received, Sent, took, bytes}

-- What _acceptClient meets: accept() fails; the new descriptor cannot be made non-blocking; or a client
-- comes, with its descriptor, its host, and the address that `new Client` returns.
pub data Accepted : Type 0 where
  refused : Accepted
  blocking : Accepted
  incoming : ℕ → Text → ℕ → Accepted

-- The events reported for a descriptor, with what accept(), recv() and send() then return.
pub record Ready : Type 0 where
  pub pollin : Bool
  pub pollout : Bool
  -- POLLERR, POLLHUP or POLLNVAL
  pub broken : Bool
  pub accepted : Accepted
  pub received : Received
  pub sent : Sent

-- revents is 0
unfoldable pub is_quiet : Ready → Bool
is_quiet r = not r.pollin && not r.pollout && not r.broken

-- The revents of a new entry.
abbrev pub no_events : Ready
no_events = record {
  pollin = false;
  pollout = false;
  broken = false;
  accepted = refused;
  received = bytes [];
  sent = took 0;
}

-- struct pollfd: `pollout` is the part of `events` that changes. POLLIN is always watched.
pub record PollFd : Type 0 where
  pub fd : ℕ
  pub pollout : Bool
  pub revents : Ready

-- poll(): the reports by descriptor.
unfoldable pub with_reports : (ℕ → Ready) → List PollFd → List PollFd
with_reports reports entries =
    map (λ (e : PollFd). record { fd = e.fd; pollout = e.pollout; revents = reports e.fd }) entries

-- push_back in _addFd
unfoldable pub with_fd : ℕ → List PollFd → List PollFd
with_fd fd es = es ++ record { fd = fd; pollout = false; revents = no_events } ∷ []

-- The loop of _removeFd
unfoldable pub without_fd : ℕ → List PollFd → List PollFd
without_fd fd [] = []
without_fd fd (e ∷ es) = let rest = without_fd fd es in if e.fd == fd then es else e ∷ rest

-- The loops of _enablePollout and _disablePollout
unfoldable pub with_pollout : Bool → ℕ → List PollFd → List PollFd
with_pollout b fd [] = []
with_pollout b fd (e ∷ es) =
    let rest = with_pollout b fd es in
    if e.fd == fd then record e { pollout = b } ∷ es else e ∷ rest
