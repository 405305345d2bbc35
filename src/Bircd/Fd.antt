-- ===== src/Bircd/Fd.antt =====
-- bircd.h, clean_fd.c, init_env.c, srv_create.c and srv_accept.c of bircd: the entry of a descriptor.
use irc.Common.{ℕ, zero, suc, List, [], ◌∷◌, Option, none, some, Text}

abbrev pub buf_size : ℕ
buf_size = 100

abbrev pub max_clients : ℕ
max_clients = 42

pub data FdType : Type 0 where
  fd_free fd_serv fd_client : FdType

-- The functions that fct_read can point at; `none` is NULL.
pub data FctRead : Type 0 where
  srv_accept_fct client_read_fct : FctRead

-- The one function that fct_write can point at.
pub data FctWrite : Type 0 where
  client_write_fct : FctWrite

pub record Fd : Type 0 where
  pub type : FdType
  pub fct_read : Option FctRead
  pub fct_write : Option FctWrite
  pub buf_read_len : ℕ
  -- buf_size + 1 bytes, as in buf_write
  pub buf_read : Text
  pub buf_write_len : ℕ
  pub buf_write : Text

unfoldable pub clean_fd : Fd → Fd
clean_fd f = record f {
  type = fd_free;
  fct_read = none;
  fct_write = none;
  buf_read_len = 0;
  buf_write_len = 0;
}

-- The entry of a descriptor; `none` outside of the array.
unfoldable pub fd_at : ℕ → List Fd → Option Fd
fd_at i [] = none
fd_at zero (f ∷ fs) = some f
fd_at (suc i) (f ∷ fs) = fd_at i fs

unfoldable pub set_fd : ℕ → Fd → List Fd → List Fd
set_fd i g [] = []
set_fd zero g (f ∷ fs) = g ∷ fs
set_fd (suc i) g (f ∷ fs) = f ∷ set_fd i g fs

-- The loop of init_env, over the bytes that malloc() has answered.
unfoldable pub init_env : List Fd → List Fd
unfolding clean_fd
init_env [] = []
init_env (f ∷ fs) = clean_fd f ∷ init_env fs

unfoldable pub listening : Fd → Fd
listening f = record f { type = fd_serv; fct_read = some srv_accept_fct }

-- The end of srv_create, once socket(), bind() and listen() have succeeded with descriptor `s`.
unfoldable pub srv_create : ℕ → List Fd → Option (List Fd)
unfolding fd_at set_fd listening
srv_create s fds = elim (fd_at s fds) [ none ↦ none | some f ↦ some (set_fd s (listening f) fds) ]

unfoldable pub accepted_fd : Fd → Fd
unfolding clean_fd
accepted_fd f = record (clean_fd f) {
  type = fd_client;
  fct_read = some client_read_fct;
  fct_write = some client_write_fct;
}

-- `cs` is what accept() returns, if it does not fail; the program ends otherwise.
unfoldable pub srv_accept : ℕ → List Fd → Option (List Fd)
unfolding fd_at set_fd accepted_fd
srv_accept cs fds = elim (fd_at cs fds) [
  | none ↦ none
  | some f ↦ some (set_fd cs (accepted_fd f) fds)
]
