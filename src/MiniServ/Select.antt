-- ===== src/MiniServ/Select.antt =====
-- A round of main() of mini_serv.c: it ends, no descriptor is out of its sets and arrays, and no write
-- buffer that it flushes is NULL.
use irc.Common.{
  ℕ, zero, suc, ◌+◌, ◌<◌, ◌≤◌, Bool, true, false, ◌&&◌, ◌≡◌, refl, sym, ap, subst, ◌∙◌, Option,
  none, some, Text, arith, ltb, ◌==◌, if◌then◌else◌, length, take, drop, Bool-cases, Option-cases,
  inl, inr,
}
use irc.Common.Lines.{find_char, find_char-lt_length, length-drop}
use irc.Network.Connection.{Received, bytes, end_of_stream, recv_error, Sent, took, send_failed}
use irc.MiniServ.{
  fd_setsize, Globals, put, str_join, extract_message, send_all, client_line, arrived, registered,
  accept_client, removed, left, disconnected, send_lines, handle_bytes, handle_client, left_over,
  flush_client, to_write, Selected, check_read, check_write, check_client, check_from,
}
use irc.MiniServ.Lines.{receives, send_below-shape, send_below-wbuf, put_same}

-- A buffer that is not NULL.
abbrev pub HasText : Option Text → Type 0
HasText o = (text : Text) × (o ≡ some text)

module _ (except : ℕ) (msg : Text) (s : Globals) where
  send_all-HasText : (g : ℕ) → HasText (s.g_wbuf g) → HasText ((send_all except msg s).g_wbuf g)
  unfolding send_all
  send_all-HasText g (text, e) = elim (Bool-cases (ltb g (suc s.g_maxfd) && receives except s g)) [
    | inl sent ↦ (
      str_join (s.g_wbuf g) msg,
      send_below-wbuf except msg s (suc s.g_maxfd) g ∙ rw (if◌then◌else◌, sent) refl,
    )
    | inr not_sent ↦
        (text, send_below-wbuf except msg s (suc s.g_maxfd) g ∙ rw (if◌then◌else◌, not_sent) e)
  ]

  g_maxfd-send_all : (send_all except msg s).g_maxfd ≡ s.g_maxfd
  unfolding send_all
  g_maxfd-send_all =
      ap (λ (t : Globals). t.g_maxfd) (send_below-shape except msg s (suc s.g_maxfd)).1

  g_active-send_all : (send_all except msg s).g_active ≡ s.g_active
  unfolding send_all
  g_active-send_all =
      ap (λ (t : Globals). t.g_active) (send_below-shape except msg s (suc s.g_maxfd)).1

  g_rbuf-send_all : (send_all except msg s).g_rbuf ≡ s.g_rbuf
  unfolding send_all
  g_rbuf-send_all = ap (λ (t : Globals). t.g_rbuf) (send_below-shape except msg s (suc s.g_maxfd)).1

-- The globals after the lines of a client have been sent.
record LinesSent (s s' : Globals) : Type 0 where
  pub maxfd : s'.g_maxfd ≡ s.g_maxfd
  pub texts : (g : ℕ) → HasText (s.g_wbuf g) → HasText (s'.g_wbuf g)

send_lines-total :
    (rounds fd : ℕ) (s : Globals) (text : Text)
    → s.g_rbuf fd ≡ some text
    → length text < rounds
    → (s' : Globals) × (send_lines rounds fd s ≡ some s') × LinesSent s s'
unfolding send_lines extract_message
send_lines-total zero fd s text held h = absurd (omega (arith, h))
send_lines-total (suc rounds) fd s text held h = elim (Option-cases (find_char 10 text)) [
  | inl absent ↦ (
    s,
    rw (send_lines, extract_message, held, absent) refl,
    record { maxfd = refl; texts = λ g w. w },
  )
  | inr (i, found) ↦
      let text' = drop (suc i) text in
      let msg = client_line (s.g_ids fd) (take (suc i) text) in
      let taken : Globals = record s { g_rbuf = put fd (some text') s.g_rbuf } in
      let (s', ran, w) =
        send_lines-total rounds fd (send_all fd msg taken) text'
          (ap (λ (r : ℕ → Option Text). r fd) (g_rbuf-send_all fd msg taken)
            ∙ put_same fd (some text') s.g_rbuf)
          (omega (arith, h, length-drop (suc i) text, find_char-lt_length 10 text i found)) in
      (
        s',
        rw (send_lines, extract_message, held, found) ran,
        record {
          maxfd = w.maxfd ∙ g_maxfd-send_all fd msg taken;
          texts = λ g before. w.texts g (send_all-HasText fd msg taken g before);
        },
      )
]

-- Texts that wait still wait for all descriptors but one, and nothing else than the buffers has changed.
record Keeps (fd : ℕ) (s s' : Globals) : Type 0 where
  pub others : (g : ℕ) → (g == fd) ≡ false → HasText (s.g_wbuf g) → HasText (s'.g_wbuf g)
  pub own : HasText (s.g_wbuf fd) → s'.g_active fd ≡ true → HasText (s'.g_wbuf fd)

put_other {ℓ} : {A : Type ℓ} (fd g : ℕ) (a : A) (f : ℕ → A) → (g == fd) ≡ false → put fd a f g ≡ f g
put_other fd g a f h = rw (if◌then◌else◌, h) refl

-- What is left after a step, below a bound on the descriptors.
abbrev Safe : ℕ → ℕ → Globals → Option Globals → Type 0
Safe n fd s o = (s' : Globals) × (o ≡ some s') × (s'.g_maxfd ≤ n) × Keeps fd s s'

module _ (n fd : ℕ) (s : Globals) (h : s.g_maxfd ≤ n) where
  registered-Safe : (c : ℕ) → c ≤ n → n < fd_setsize → Safe n fd s (accept_client (some c) s)
  unfolding accept_client registered
  registered-Safe c k room =
      let t = registered c s in
      let msg = arrived s.g_next_id in
      (
        send_all c msg t,
        (let within : ltb c fd_setsize ≡ true = ground (arith, k, room) in
            rw (accept_client, if◌then◌else◌, within) refl),
        subst (λ m. m ≤ n) (sym (g_maxfd-send_all c msg t)) (ground (arith, h, k)),
        record {
          others = λ g _ w. send_all-HasText c msg t g w;
          own = λ w _. send_all-HasText c msg t fd w;
        },
      )

  disconnected-Safe : Safe n fd s (some (disconnected fd s))
  unfolding disconnected removed
  disconnected-Safe =
      let t = removed fd s in
      let msg = left (s.g_ids fd) in
      (
        disconnected fd s,
        refl,
        subst (λ m. m ≤ n) (sym (g_maxfd-send_all fd msg t)) h,
        record {
          others = λ g other (text, e).
              send_all-HasText fd msg t g (text, put_other fd g none s.g_wbuf other ∙ e);
          own = λ _ active. absurd (
              ground (
                arith,
                ap (λ (r : ℕ → Bool). r fd) (g_active-send_all fd msg t)
                    ∙ put_same fd false s.g_active,
                active,
              ));
        },
      )

  handle_bytes-Safe : (buf : Text) → Safe n fd s (handle_bytes fd buf s)
  unfolding handle_bytes
  handle_bytes-Safe buf =
      let text = str_join (s.g_rbuf fd) buf in
      let (s', ran, w) =
        send_lines-total (suc (length text)) fd (record s { g_rbuf = put fd (some text) s.g_rbuf })
          text (put_same fd (some text) s.g_rbuf) (omega arith) in
      (
        s',
        ran,
        subst (λ m. m ≤ n) (sym w.maxfd) h,
        record { others = λ g _ before. w.texts g before; own = λ before _. w.texts fd before },
      )

  unchanged-Safe : Safe n fd s (some s)
  unchanged-Safe = (s, refl, h, record { others = λ g _ w. w; own = λ w _. w })

  handle_client-Safe : (r : Received) → Safe n fd s (handle_client fd r s)
  unfolding handle_client
  handle_client-Safe recv_error = disconnected-Safe
  handle_client-Safe end_of_stream = disconnected-Safe
  handle_client-Safe (bytes buf) = handle_bytes-Safe buf

  accept_client-Safe :
      n < fd_setsize
      → (o : Option ℕ) → ((c : ℕ) → o ≡ some c → c ≤ n)
      → Safe n fd s (accept_client o s)
  unfolding accept_client
  accept_client-Safe room none k = unchanged-Safe
  accept_client-Safe room (some c) k = registered-Safe c (k c refl) room

  check_read-Safe :
      n < fd_setsize
      → (e : Selected) → ((c : ℕ) → e.accept ≡ some c → c ≤ n)
      → Safe n fd s (check_read e fd s)
  unfolding check_read
  check_read-Safe room e k = elim (Bool-cases (e.rfds fd)) [
    | inr quiet ↦ rw (check_read, quiet, if◌then◌else◌) unchanged-Safe
    | inl ready ↦ elim (Bool-cases (fd == s.g_sockfd)) [
      | inl listening ↦
          rw (check_read, ready, if◌then◌else◌, listening) (accept_client-Safe room e.accept k)
      | inr client ↦ rw (check_read, ready, if◌then◌else◌, client) (handle_client-Safe (e.recv fd))
    ]
  ]

  flush_client-Safe :
      (sent : Sent)
      → HasText (s.g_wbuf fd)
      → (s' : Globals) × (flush_client fd sent s ≡ some s')
        × (s'.g_maxfd ≤ n)
        × ((g : ℕ) → (g == fd) ≡ false → HasText (s.g_wbuf g) → HasText (s'.g_wbuf g))
  unfolding flush_client
  flush_client-Safe send_failed (text, e) = (s, rw (flush_client, e) refl, h, λ g _ w. w)
  flush_client-Safe (took k) (text, e) = elim (Bool-cases (k == 0)) [
    | inl nothing ↦ (s, rw (flush_client, e, if◌then◌else◌, nothing) refl, h, λ g _ w. w)
    | inr something ↦ (
      record s { g_wbuf = put fd (left_over k text) s.g_wbuf },
      rw (flush_client, e, if◌then◌else◌, something) refl,
      h,
      λ g other (w, e'). (w, put_other fd g (left_over k text) s.g_wbuf other ∙ e'),
    )
  ]

  check_write-Safe :
      (e : Selected)
      → (e.wfds fd ≡ true → s.g_active fd ≡ true → HasText (s.g_wbuf fd))
      → (s' : Globals) × (check_write e fd s ≡ some s')
        × (s'.g_maxfd ≤ n)
        × ((g : ℕ) → (g == fd) ≡ false → HasText (s.g_wbuf g) → HasText (s'.g_wbuf g))
  unfolding check_write
  check_write-Safe e w = elim (Bool-cases (e.wfds fd && s.g_active fd)) [
    | inl writes ↦
        rw (check_write, if◌then◌else◌, writes)
          (flush_client-Safe (e.send fd) (w (ground (arith, writes)) (ground (arith, writes))))
    | inr idle ↦ (s, rw (check_write, if◌then◌else◌, idle) refl, h, λ g _ w. w)
  ]

to_write-HasText : (s : Globals) (g : ℕ) → to_write s g ≡ true → HasText (s.g_wbuf g)
unfolding to_write
to_write-HasText s g h = elim (Option-cases (s.g_wbuf g)) [
  | inl e ↦ absurd (ground (arith, e, h))
  | inr w ↦ w
]

check_from-total :
    (n : ℕ)
    → n < fd_setsize
    → (e : Selected) → ((c : ℕ) → e.accept ≡ some c → c ≤ n)
    → (rounds fd : ℕ) (s : Globals) → s.g_maxfd ≤ n
    → n + 1 < rounds + fd
    → 1 ≤ rounds
    → ((g : ℕ) → fd ≤ g → e.wfds g ≡ true → HasText (s.g_wbuf g))
    → (s' : Globals) × (check_from rounds e fd s ≡ some s') × (s'.g_maxfd ≤ n)
unfolding check_from check_client
check_from-total n room e k zero fd s h enough some_round w = absurd (omega (arith, some_round))
check_from-total n room e k (suc rounds) fd s h enough some_round w =
    elim (Bool-cases (ltb s.g_maxfd fd)) [
      | inl over ↦ (s, rw (check_from, if◌then◌else◌, over) refl, h)
      | inr within ↦
          let (s1, ran, h1, v) = check_read-Safe n fd s h room e k in
          let (s2, ran', h2, u) =
            check_write-Safe n fd s1 h1 e
              (λ asked active. v.own (w fd (omega arith) asked) active) in
          let entry : ltb fd fd_setsize ≡ true = ground (arith, within, h, room) in
          rw (check_from, if◌then◌else◌, within, entry, check_client, ran, ran')
            (check_from-total n room e k rounds (suc fd) s2 h2 (omega (arith, enough))
              (ground (arith, within, h, enough))
              (λ g above asked.
                let other : (g == fd) ≡ false = ground (arith, above) in
                u g other (v.others g other (w g (omega (arith, above)) asked))))
    ]

-- A round ends without a look at a buffer that is NULL or out of the sets, if select() leaves only
-- descriptors in the set for output that were asked for; no descriptor is above `n`, that of a new
-- client included, which has room in an fd_set, and two more steps than this bound are enough; then no
-- descriptor is above it either.
pub check_from-ends :
    (n : ℕ) (e : Selected) (s : Globals)
    → n < fd_setsize
    → ((c : ℕ) → e.accept ≡ some c → c ≤ n)
    → ((g : ℕ) → e.wfds g ≡ true → to_write s g ≡ true)
    → s.g_maxfd ≤ n
    → (s' : Globals) × (check_from (n + 2) e 0 s ≡ some s') × (s'.g_maxfd ≤ n)
check_from-ends n e s room k asked h =
    check_from-total n room e k (n + 2) 0 s h (omega arith) (omega arith)
      (λ g _ set. to_write-HasText s g (asked g set))
