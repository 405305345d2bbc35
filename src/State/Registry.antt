-- ===== src/State/Registry.antt =====
-- src/c/ClientRegistry.cpp: the clients, found by descriptor and by nickname. A `Client*` is the
-- address of a client in `objects`, and NULL is `none`. `new` returns an address that the allocator
-- chooses: it is an argument.
pub mod Ownership
use irc.Common.{
  ℕ, Bool, true, false, List, Text, Option, none, some, text_eq, is_empty, ◌==◌, if◌then◌else◌,
}
use irc.Common.Heap.{Heap, alloc, free, store}
use irc.Common.Map.{find, has, insert, erase}
use irc.Common.Map.Keys.{nat_order}
use irc.State.Names.Order.{name_order}
use irc.State.Client.{Client, new_client, set_nick}

pub record ClientRegistry : Type 0 where
  pub nickname_to_client : List (Text × ℕ)
  pub fd_to_client : List (ℕ × ℕ)
  pub objects : Heap Client

-- *p
abbrev pub client_at : ℕ → ClientRegistry → Client
client_at p r = r.objects.at p

-- A change of the client at `p`.
abbrev pub update_client : ℕ → (Client → Client) → ClientRegistry → ClientRegistry
update_client p f r = record r { objects = store p (f (r.objects.at p)) r.objects }

unfoldable pub get_client_by_fd : ℕ → ClientRegistry → Option ℕ
get_client_by_fd fd r = find nat_order fd r.fd_to_client

unfoldable pub get_client_by_nick : Text → ClientRegistry → Option ℕ
get_client_by_nick nick r = find name_order nick r.nickname_to_client

unfoldable pub nick_exists : Text → ClientRegistry → Bool
nick_exists nick r = has name_order nick r.nickname_to_client

unfoldable pub add_client : ℕ → Text → ℕ → ClientRegistry → ClientRegistry
unfolding get_client_by_fd
add_client fd host p r = elim (get_client_by_fd fd r) [
  | some _ ↦ r
  | none ↦ record r {
    objects = alloc p (new_client fd host) r.objects;
    fd_to_client = insert nat_order fd p r.fd_to_client;
  }
]

-- The branch of removeClient that has found its client.
unfoldable pub forget : ℕ → ℕ → ClientRegistry → ClientRegistry
forget fd p r = record {
  nickname_to_client = erase name_order (client_at p r).nickname r.nickname_to_client;
  fd_to_client = erase nat_order fd r.fd_to_client;
  objects = free p r.objects;
}

unfoldable pub remove_client : ℕ → ClientRegistry → ClientRegistry
unfolding get_client_by_fd
remove_client fd r = elim (get_client_by_fd fd r) [ none ↦ r | some p ↦ forget fd p r ]

-- The last part of updateNick: the old name is freed, and the new one is taken.
unfoldable pub rename : ℕ → Text → ClientRegistry → ClientRegistry
rename p new_nick r =
    let old_nick = (client_at p r).nickname in
    let freed =
      if is_empty old_nick
      then r.nickname_to_client
      else erase name_order old_nick r.nickname_to_client in
    record r {
      nickname_to_client = insert name_order new_nick p freed;
      objects = store p (set_nick new_nick (client_at p r)) r.objects;
    }

unfoldable pub update_nick : ℕ → Text → ClientRegistry → Bool × ClientRegistry
update_nick p new_nick r =
    if text_eq (client_at p r).nickname new_nick
    then (true, r)
    else elim (find name_order new_nick r.nickname_to_client) [
      | none ↦ (true, rename p new_nick r)
      | some owner ↦ if owner == p then (true, rename p new_nick r) else (false, r)
    ]
