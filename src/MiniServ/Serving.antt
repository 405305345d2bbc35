-- ===== src/MiniServ/Serving.antt =====
-- main() of bircd/exam06_miniserv/mini_serv.c from its start.
use irc.Common.{
  ℕ, suc, not, ◌<◌, ◌≤◌, Bool, true, false, ◌&&◌, ◌≡◌, refl, List, [], ◌∷◌, Option, none, some,
  arith, ltb, if◌then◌else◌, Bool-cases, Option-cases, inl, inr,
}
use irc.MiniServ.{fd_setsize, Globals, put, Selected, to_write, check_from}
use irc.MiniServ.Select.{check_from-ends}

-- The globals at the start of the program, before main().
abbrev zeroed : Globals
zeroed = record {
  g_sockfd = 0;
  g_active = λ _. false;
  g_maxfd = 0;
  g_ids = λ _. 0;
  g_next_id = 0;
  g_rbuf = λ _. none;
  g_wbuf = λ _. none;
}

-- What main() comes to: it is in its loop; it has ended with an error; or it has met a buffer that is
-- NULL or a descriptor for which an fd_set has no room, or a round has not ended.
pub data Served : Type 0 where
  serving : Globals → Served
  wrong_number_of_arguments fatal faulted : Served

-- The sets after FD_ZERO and FD_SET.
unfoldable pub listening : ℕ → Globals → Globals
listening sockfd s = record s {
  g_sockfd = sockfd;
  g_active = put sockfd true (λ _. false);
  g_maxfd = sockfd;
}

-- main() up to its loop: the number of arguments, what socket() returns, and whether bind() and
-- listen() succeed.
unfoldable pub start : ℕ → Option ℕ → Bool → Bool → Served
unfolding listening
start argc socket bound listens = if ltb argc 2 then wrong_number_of_arguments else elim socket [
  | none ↦ fatal
  | some sockfd ↦
      if not (bound && listens)
      then fatal
      else if ltb sockfd fd_setsize
      then serving (listening sockfd zeroed)
      else faulted
]

-- select() leaves in the sets only descriptors that they held.
unfoldable pub select : Selected → Globals → Selected
select e s = record e {
  rfds = λ fd. e.rfds fd && s.g_active fd;
  wfds = λ fd. e.wfds fd && to_write s fd;
}

-- The loop of main(): `none` is that select() fails. Before it, FD_ISSET looks at each descriptor up to
-- g_maxfd. A round walks over no more descriptors than an fd_set has room for, and one step ends it.
unfoldable pub serve : List (Option Selected) → Globals → Served
unfolding select
serve [] s = serving s
serve (answer ∷ answers) s =
    let later = serve answers in
    if not (ltb s.g_maxfd fd_setsize) then faulted else elim answer [
      | none ↦ fatal
      | some e ↦ elim (check_from (suc fd_setsize) (select e s) 0 s) [
        | none ↦ faulted
        | some s' ↦ later s'
      ]
    ]

unfoldable pub main : ℕ → Option ℕ → Bool → Bool → List (Option Selected) → Served
unfolding start serve
main argc socket bound listens answers = elim (start argc socket bound listens) [
  | serving s ↦ serve answers s
  | wrong_number_of_arguments ↦ wrong_number_of_arguments
  | fatal ↦ fatal
  | faulted ↦ faulted
]

-- accept() returns only descriptors for which an fd_set has room.
abbrev pub all_within : List (Option Selected) → Bool
all_within [] = true
all_within (none ∷ answers) = all_within answers
all_within (some e ∷ answers) =
    (elim e.accept [ none ↦ true | some c ↦ ltb c fd_setsize ]) && all_within answers

abbrev pub is_faulted : Served → Bool
is_faulted faulted = true
is_faulted (serving s) = false
is_faulted wrong_number_of_arguments = false
is_faulted fatal = false

serve-is_faulted :
    (answers : List (Option Selected)) (s : Globals)
    → s.g_maxfd ≤ 1023
    → all_within answers ≡ true
    → is_faulted (serve answers s) ≡ false
unfolding serve select
serve-is_faulted [] s h within = refl
serve-is_faulted (none ∷ answers) s h within =
    let room : ltb s.g_maxfd fd_setsize ≡ true = ground (arith, h) in
    rw (serve, if◌then◌else◌, room) refl
serve-is_faulted (some e ∷ answers) s h within =
    let room : ltb s.g_maxfd fd_setsize ≡ true = ground (arith, h) in
    let (s', ran, h') =
      check_from-ends 1023 (select e s) s (omega arith) (λ c taken. ground (arith, within, taken))
        (λ g asked. ground (arith, asked)) h in
    rw (serve, if◌then◌else◌, room, ran) (serve-is_faulted answers s' h' (ground (arith, within)))

-- If socket() and accept() return only descriptors below FD_SETSIZE, which the source does not see to:
-- from its start main() uses no descriptor for which an fd_set or an array has no room, and looks at no
-- write buffer that is NULL, and each of its rounds ends, whatever the calls of the system answer.
pub main-is_faulted :
    (argc : ℕ) (socket : Option ℕ) (bound listens : Bool) (answers : List (Option Selected))
    → ((sockfd : ℕ) → socket ≡ some sockfd → sockfd < fd_setsize)
    → all_within answers ≡ true
    → is_faulted (main argc socket bound listens answers) ≡ false
unfolding main start listening
main-is_faulted argc socket bound listens answers opened within = elim (Bool-cases (ltb argc 2)) [
  | inl few ↦ rw (main, start, few) refl
  | inr enough ↦ elim (Option-cases socket) [
    | inl failed ↦ rw (main, start, enough, failed) refl
    | inr (sockfd, made) ↦ elim (Bool-cases (bound && listens)) [
      | inr refused ↦ rw (main, start, enough, made, refused) refl
      | inl ready ↦
          let small = opened sockfd made in
          let room : ltb sockfd fd_setsize ≡ true = ground (arith, small) in
          rw (main, start, enough, made, ready, room)
            (serve-is_faulted answers (listening sockfd zeroed) (omega (arith, small)) within)
    ]
  ]
]
