-- ===== src/Network/Opening.antt =====
-- The constructor of Server (src/a/Server.cpp) with its calls of the system, and the open descriptors.
use irc.Common.{
  ℕ, Bool, true, false, not, ◌≡◌, refl, List, ◌∷◌, Option, none, some, Text, arith, Bool-cases, inl,
  inr, if◌then◌else◌,
}
use irc.Common.Files.{is_open, close, close-opened}
use irc.State.Client.{Client}
use irc.State.Channel.{Channel}
use irc.Network.Server.{Server, new_server}

-- What the calls of the constructor return: whether they succeed, and the descriptor of socket().
pub record SocketAnswers : Type 0 where
  pub sigint_handled : Bool
  pub sigpipe_ignored : Bool
  pub socket : Option ℕ
  pub reused : Bool
  pub nonblocking : Bool
  pub bound : Bool
  pub listening : Bool

-- The exceptions of the constructor.
pub data SetupError : Type 0 where
  sigaction_sigint sigaction_sigpipe socket_failed setsockopt_failed : SetupError
  fcntl_failed bind_failed listen_failed : SetupError

-- The end of the constructor, or of a part of it: what it has made, or the exception; and the open
-- descriptors.
pub data Opened (A : Type 0) : Type 0 where
  opened : A → List ℕ → Opened A
  throws : SetupError → List ℕ → Opened A

-- _installSignalHandlers. `next` is what follows.
unfoldable pub install_signal_handlers :
    {A : Type 0} → SocketAnswers → (List ℕ → Opened A) → List ℕ → Opened A
install_signal_handlers a next files =
    if not a.sigint_handled
    then throws sigaction_sigint files
    else if not a.sigpipe_ignored
    then throws sigaction_sigpipe files
    else next files

-- _setNonBlocking
unfoldable pub set_non_blocking :
    {A : Type 0} → SocketAnswers → (List ℕ → Opened A) → List ℕ → Opened A
set_non_blocking a next files = if not a.nonblocking then throws fcntl_failed files else next files

-- The part of the constructor after socket() has returned `fd`.
unfoldable pub listen_on : SocketAnswers → ℕ → List ℕ → Opened ℕ
unfolding set_non_blocking
listen_on a fd files =
    if not a.reused
    then throws setsockopt_failed (close fd files)
    else set_non_blocking a
        (λ (files' : List ℕ).
          if not a.bound
          then throws bind_failed (close fd files')
          else if not a.listening
          then throws listen_failed (close fd files')
          else opened fd files')
        files

unfoldable pub open_socket : SocketAnswers → List ℕ → Opened ℕ
unfolding listen_on
open_socket a files = elim a.socket [
  | none ↦ throws socket_failed files
  | some fd ↦ listen_on a fd (fd ∷ files)
]

-- The end of the constructor: the listening socket is watched.
unfoldable pub watch_socket : Text → (ℕ → Client) → (ℕ → Channel) → Opened ℕ → Opened Server
watch_socket password clients channels (opened fd files) =
    opened (new_server fd password clients channels) files
watch_socket password clients channels (throws e files) = throws e files

-- Server::Server(port, password), where no descriptor but those in the list is open.
unfoldable pub construct :
    SocketAnswers → Text → (ℕ → Client) → (ℕ → Channel) → List ℕ → Opened Server
unfolding open_socket install_signal_handlers watch_socket
construct a password clients channels files =
    watch_socket password clients channels (install_signal_handlers a (open_socket a) files)

unfoldable pub files_of : {A : Type 0} → Opened A → List ℕ
files_of (opened v files) = files
files_of (throws e files) = files

-- The constructor is done, or fcntl() has failed.
abbrev pub keeps_socket : {A : Type 0} → Opened A → Bool
keeps_socket (opened v files) = true
keeps_socket (throws fcntl_failed files) = true
keeps_socket (throws e files) = false

listen_on-files :
    (a : SocketAnswers) (fd : ℕ) (files : List ℕ)
    → is_open fd files ≡ false
    → files_of (listen_on a fd (fd ∷ files))
      ≡ (if keeps_socket (listen_on a fd (fd ∷ files)) then fd ∷ files else files)
unfolding listen_on set_non_blocking files_of
listen_on-files a fd files new = ground (arith, close-opened fd files new)

-- What the constructor does after socket() keeps the files.
watch_socket-files :
    (password : Text) (clients : ℕ → Client) (channels : ℕ → Channel) (fd : ℕ) (files : List ℕ)
    (o : Opened ℕ)
    → files_of o ≡ (if keeps_socket o then fd ∷ files else files)
    → files_of (watch_socket password clients channels o)
      ≡ (if keeps_socket (watch_socket password clients channels o) then fd ∷ files else files)
unfolding watch_socket files_of
watch_socket-files password clients channels fd files (opened g files') h = h
watch_socket-files password clients channels fd files (throws e files') h = ground (arith, h)

-- If socket() returns a descriptor that is not open, it is open when the constructor has ended exactly
-- if the constructor is done or fcntl() has failed, and no other descriptor is opened or closed.
pub construct-files :
    (a : SocketAnswers) (fd : ℕ) (password : Text) (clients : ℕ → Client) (channels : ℕ → Channel)
    (files : List ℕ)
    → a.socket ≡ some fd
    → is_open fd files ≡ false
    → files_of (construct a password clients channels files)
      ≡ (if keeps_socket (construct a password clients channels files) then fd ∷ files else files)
unfolding construct install_signal_handlers open_socket files_of
construct-files a fd password clients channels files socket new =
    watch_socket-files password clients channels fd files
      (install_signal_handlers a (open_socket a) files)
      (elim (Bool-cases a.sigint_handled) [
        | inr unhandled ↦ rw (install_signal_handlers, unhandled) refl
        | inl handled ↦ elim (Bool-cases a.sigpipe_ignored) [
          | inr raised ↦ rw (install_signal_handlers, handled, raised) refl
          | inl ignored ↦
              rw (install_signal_handlers, handled, ignored, open_socket, socket)
                (listen_on-files a fd files new)
        ]
      ])
