-- ===== src/State/Registry/Ownership.antt =====
-- The registry's invariant: the two maps and the live clients agree with one another.
use irc.Common.{
  Bool-cases, text_eq, List, inl, inr, Option-cases, is_empty, if◌then◌else◌, ℕ, true, false, ◌≡◌,
  ◌≢◌, refl, none, some, [], ◌∷◌, ap, Text, arith, ◌==◌,
}
use irc.Common.Map.{find, same, erase}
use irc.Common.Map.Laws.{same-canon, same_refl, same_sym, find-insert, find-erase, find_congr}
use irc.Common.Map.Keys.{nat_order, find-insert_nat, find-erase_nat}
use irc.State.Names.Order.{name_order, fold_case}
use irc.State.Client.{Client, new_client, set_nick}
use irc.State.Registry.{
  ClientRegistry, update_client, client_at, add_client, forget, remove_client, rename, update_nick,
}

-- Every live client is the one that its descriptor finds, and the one that its nickname finds once
-- it has one; and neither map finds anything else.
pub record IsOwned (r : ClientRegistry) : Type 0 where
  pub fd_found :
      (fd p : ℕ)
      → find nat_order fd r.fd_to_client ≡ some p
      → (r.objects.live p ≡ true) × ((r.objects.at p).fd ≡ fd)
  pub fd_finds :
      (p : ℕ) → r.objects.live p ≡ true → find nat_order (r.objects.at p).fd r.fd_to_client ≡ some p
  pub nick_found :
      (n : Text) (p : ℕ)
      → find name_order n r.nickname_to_client ≡ some p
      → (r.objects.live p ≡ true)
        × (same name_order n (r.objects.at p).nickname ≡ true)
        × ((r.objects.at p).nickname ≢ [])
  pub nick_finds :
      (p : ℕ)
      → r.objects.live p ≡ true
      → (r.objects.at p).nickname ≢ []
      → find name_order (r.objects.at p).nickname r.nickname_to_client ≡ some p

module _ (fd : ℕ) (host : Text) (p : ℕ) {r : ClientRegistry} (w : IsOwned r)
    (fresh : r.objects.live p ≡ false) where
  pub add_client-IsOwned : IsOwned (add_client fd host p r)
  unfolding add_client new_client
  add_client-IsOwned = record {
    fd_found =
        λ fd' p' h. ground (arith, find-insert_nat fd fd' p r.fd_to_client, w.fd_found fd' p');
    fd_finds = λ p' h. ground (
      arith,
      find-insert_nat fd (r.objects.at p').fd p r.fd_to_client,
      find-insert_nat fd fd p r.fd_to_client,
      w.fd_finds p',
    );
    nick_found = λ n p' h. ground (arith, w.nick_found n p');
    nick_finds = λ p' h k. ground (arith, w.nick_finds p');
  }

same_nil : (n : Text) → same name_order [] n ≡ true → n ≡ []
unfolding fold_case
same_nil [] h = refl
same_nil (c ∷ n) h = ground (arith, same-canon name_order [] (c ∷ n))

-- Two live clients whose nicknames IRC does not tell apart are one client.
pub nick_unique :
    {r : ClientRegistry} (p q : ℕ)
    → IsOwned r
    → r.objects.live p ≡ true
    → r.objects.live q ≡ true
    → (client_at p r).nickname ≢ []
    → same name_order (client_at p r).nickname (client_at q r).nickname ≡ true
    → p ≡ q
nick_unique {r} p q w lp lq named h =
    let n = (client_at p r).nickname in
    let m = (client_at q r).nickname in
    ground (
      arith,
      w.nick_finds p lp named,
      w.nick_finds q lq,
      find_congr name_order n m r.nickname_to_client h,
      same_nil n,
      same_sym name_order n m,
      ap (λ (x : Text). same name_order n x),
    )

module _ (fd p : ℕ) {r : ClientRegistry} (w : IsOwned r)
    (found : find nat_order fd r.fd_to_client ≡ some p) where
  pub forget-IsOwned : IsOwned (forget fd p r)
  unfolding forget
  forget-IsOwned = record {
    fd_found = λ fd' p' h.
        ground (arith, find-erase_nat fd fd' r.fd_to_client, w.fd_found fd' p', w.fd_found fd p);
    fd_finds = λ p' h.
        ground (arith, find-erase_nat fd (r.objects.at p').fd r.fd_to_client, w.fd_finds p');
    nick_found = λ n p' h. ground (
      arith,
      find-erase name_order (client_at p r).nickname n r.nickname_to_client,
      w.nick_found n p',
      same_sym name_order n (client_at p r).nickname,
    );
    nick_finds = λ p' h k. ground (
      arith,
      find-erase name_order (client_at p r).nickname (client_at p' r).nickname r.nickname_to_client,
      w.nick_finds p',
      w.fd_found fd p,
      same_sym name_order (client_at p r).nickname (client_at p' r).nickname,
      nick_unique p' p w,
    );
  }

pub remove_client-IsOwned : (fd : ℕ) {r : ClientRegistry} → IsOwned r → IsOwned (remove_client fd r)
unfolding remove_client
remove_client-IsOwned fd {r} w = elim (Option-cases (find nat_order fd r.fd_to_client)) [
  | inl absent ↦ rw (absent, remove_client) w
  | inr (p, found) ↦ rw (found, remove_client) (forget-IsOwned fd p w found)
]

-- `rename` frees the old name of `p` and gives it a new one, which nobody else has.
module _ (p : ℕ) (new_nick : Text) {r : ClientRegistry} (w : IsOwned r)
    (alive : r.objects.live p ≡ true)
    (free_name : (q : ℕ) → find name_order new_nick r.nickname_to_client ≡ some q → p ≡ q) where
  abbrev old_nick : Text
  old_nick = (client_at p r).nickname

  abbrev freed : List (Text × ℕ)
  freed =
      if is_empty old_nick
      then r.nickname_to_client
      else erase name_order old_nick r.nickname_to_client

  -- Freeing the old name leaves the entries of the others, and no entry of `p`.
  find-freed :
      (n : Text) (q : ℕ)
      → find name_order n freed ≡ some q
      → (find name_order n r.nickname_to_client ≡ some q) × (p ≢ q)
  find-freed n q h = ground (
    arith,
    w.nick_found n q,
    find-erase name_order old_nick n r.nickname_to_client,
    same_sym name_order n old_nick,
  )

  freed-none : find name_order new_nick freed ≡ none
  freed-none = elim (Option-cases (find name_order new_nick freed)) [
    | inl absent ↦ absent
    | inr (q, e) ↦ absurd ((find-freed new_nick q e).1 (free_name q (find-freed new_nick q e).0))
  ]

  find-freed_other :
      (q : ℕ)
      → r.objects.live q ≡ true
      → (client_at q r).nickname ≢ []
      → p ≢ q
      → find name_order (client_at q r).nickname freed ≡ some q
  find-freed_other q lq named h = ground (
    arith,
    w.nick_finds q lq named,
    find-erase name_order old_nick (client_at q r).nickname r.nickname_to_client,
    nick_unique p q w alive lq,
  )

  rename-IsOwned : new_nick ≢ [] → IsOwned (rename p new_nick r)
  unfolding rename set_nick
  rename-IsOwned named = record {
    fd_found = λ fd q h. ground (arith, w.fd_found fd q);
    fd_finds = λ q h. ground (arith, w.fd_finds q);
    nick_found = λ n q h. ground (
      arith,
      find-insert name_order new_nick n p freed freed-none,
      find-freed n q,
      w.nick_found n q,
      same_sym name_order n new_nick,
    );
    nick_finds = λ q h k. ground (
      arith,
      find-insert name_order new_nick (client_at q r).nickname p freed freed-none,
      find-insert name_order new_nick new_nick p freed freed-none,
      same_refl name_order new_nick,
      find-freed_other q,
      free_name q,
      w.nick_finds q,
      find_congr name_order new_nick (client_at q r).nickname r.nickname_to_client,
    );
  }

-- A rename, accepted or refused, keeps the invariant.
pub update_nick-IsOwned :
    (p : ℕ) (new_nick : Text) {r : ClientRegistry}
    → IsOwned r
    → r.objects.live p ≡ true
    → new_nick ≢ []
    → IsOwned (update_nick p new_nick r).1
unfolding update_nick
update_nick-IsOwned p new_nick {r} w alive named =
    elim (Bool-cases (text_eq (client_at p r).nickname new_nick)) [
      | inl same_name ↦ rw same_name w
      | inr other_name ↦ elim (Option-cases (find name_order new_nick r.nickname_to_client)) [
        | inl absent ↦
            rw (other_name, absent, update_nick)
              (rename-IsOwned p new_nick w alive (λ q e. ground (arith, absent)) named)
        | inr (owner, found) ↦ elim (Bool-cases (owner == p)) [
          | inl own ↦
              rw (other_name, found, own, update_nick)
                (rename-IsOwned p new_nick w alive (λ q e. ground (arith, found)) named)
          | inr taken ↦ rw (other_name, found, taken, update_nick) w
        ]
      ]
    ]

-- A change of a client that keeps its descriptor and its nickname.
module _ (p : ℕ) (f : Client → Client) {r : ClientRegistry} (w : IsOwned r)
    (same_fd : (f (client_at p r)).fd ≡ (client_at p r).fd)
    (same_nick : (f (client_at p r)).nickname ≡ (client_at p r).nickname) where
  pub update_client-IsOwned : IsOwned (update_client p f r)
  update_client-IsOwned = record {
    fd_found = λ fd q h. ground (arith, w.fd_found fd q);
    fd_finds = λ q h. ground (arith, w.fd_finds q);
    nick_found = λ n q h. ground (arith, w.nick_found n q);
    nick_finds = λ q h k. ground (arith, w.nick_finds q);
  }

pub remove_client-forget :
    (fd p : ℕ) (r : ClientRegistry)
    → find nat_order fd r.fd_to_client ≡ some p
    → remove_client fd r ≡ forget fd p r
unfolding remove_client
remove_client-forget fd p r found = rw (remove_client, found)
