-- ===== src/MiniServ/Lines.antt =====
-- What mini_serv.c makes of the bytes of a client: every line goes to every other client, once it is
-- complete.
use irc.Common.{
  ℕ, zero, suc, ◌<◌, ◌≤◌, Bool, true, not, ◌&&◌, ◌≡◌, refl, sym, ap, subst, ◌∙◌, List, [], ◌∷◌,
  ◌++◌, Option, some, Text, arith, ltb, ◌==◌, ==_iff, if◌then◌else◌, length, take, drop, map,
  Bool-cases, Option-cases, inl, inr,
}
use irc.Common.Lines.{
  find_char, lines_of, lines_of-absent, lines_of-found, find_char-lt_length, length-drop,
}
use irc.MiniServ.{
  Globals, put, str_join, extract_message, send_to, send_below, send_all, client_line, send_lines,
  handle_bytes,
}

-- Who is sent a message.
unfoldable pub receives : ℕ → Globals → ℕ → Bool
receives except s g = s.g_active g && not (g == except) && not (g == s.g_sockfd)

-- All but the write buffers is as it was.
abbrev pub with_wbuf : (ℕ → Option Text) → Globals → Globals
with_wbuf w s = record s { g_wbuf = w }

module _ (except : ℕ) (msg : Text) (s : Globals) where
  send_to-wbuf :
      (fd : ℕ) (w : ℕ → Option Text) (g : ℕ)
      → (send_to except msg fd (with_wbuf w s)).g_wbuf g
        ≡ (if g == fd && receives except s g then some (str_join (w g) msg) else w g)
  unfolding send_to receives
  send_to-wbuf fd w g =
      let self : (g == g) ≡ true = (==_iff g g).1 refl in
      elim (Bool-cases (g == fd)) [
        | inl same ↦
            subst
              (λ k.
                (send_to except msg k (with_wbuf w s)).g_wbuf g
                ≡ (if g == k && receives except s g then some (str_join (w g) msg) else w g))
              ((==_iff g fd).0 same)
              (elim (Bool-cases (s.g_active g && not (g == except) && not (g == s.g_sockfd))) [
                | inl e ↦ rw (receives, if◌then◌else◌, e, self) refl
                | inr e ↦ rw (receives, if◌then◌else◌, e, self) refl
              ])
        | inr other ↦
            elim (Bool-cases (s.g_active fd && not (fd == except) && not (fd == s.g_sockfd))) [
              | inl e ↦ rw (if◌then◌else◌, e, other) refl
              | inr e ↦ rw (if◌then◌else◌, e, other) refl
            ]
      ]

  pub send_below-shape :
      (n : ℕ) → (w : ℕ → Option Text) × (send_below except msg n s ≡ with_wbuf w s)
  unfolding send_below send_to
  send_below-shape zero = (s.g_wbuf, refl)
  send_below-shape (suc n) =
      let (w, e) = send_below-shape n in
      ((send_to except msg n (with_wbuf w s)).g_wbuf, ap (λ t. send_to except msg n t) e)

  pub send_below-wbuf :
      (n g : ℕ)
      → (send_below except msg n s).g_wbuf g
        ≡ (if ltb g n && receives except s g then some (str_join (s.g_wbuf g) msg) else s.g_wbuf g)
  unfolding send_below
  send_below-wbuf zero g = ground arith
  send_below-wbuf (suc n) g =
      let (w, e) = send_below-shape n in
      let before = ap (λ (t : Globals). t.g_wbuf g) (sym e) ∙ send_below-wbuf n g in
      ap (λ t. (send_to except msg n t).g_wbuf g) e ∙ (send_to-wbuf n w g ∙ ground (arith, before))

-- What waits for a client after these messages.
abbrev pub joined : Option Text → List Text → Option Text
joined w [] = w
joined w (msg ∷ msgs) = joined (some (str_join w msg)) msgs

-- What the other clients are sent for a line.
abbrev pub told : ℕ → Text → Text
told id line = client_line id (line ++ 10 ∷ [])

take-newline : (s : Text) (i : ℕ) → find_char 10 s ≡ some i → take (suc i) s ≡ take i s ++ 10 ∷ []
unfolding find_char
take-newline [] i h = cc
take-newline (c ∷ s) zero h = ground arith
take-newline (c ∷ s) (suc i) h = ground (arith, h, take-newline s i)

pub put_same {ℓ} : {A : Type ℓ} (fd : ℕ) (a : A) (f : ℕ → A) → put fd a f fd ≡ a
put_same fd a f =
    let self : (fd == fd) ≡ true = (==_iff fd fd).1 refl in rw (if◌then◌else◌, self) refl

received :
    (fd g : ℕ) (msg : Text) (s : Globals)
    → g ≤ s.g_maxfd
    → receives fd s g ≡ true
    → (send_below fd msg (suc s.g_maxfd) s).g_wbuf g ≡ some (str_join (s.g_wbuf g) msg)
received fd g msg s h k =
    let below : ltb g (suc s.g_maxfd) ≡ true = ground (arith, h) in
    send_below-wbuf fd msg s (suc s.g_maxfd) g ∙ rw (below, if◌then◌else◌, k) refl

-- The globals after the lines of a client: its own buffer, and that of a client who is told.
pub record Told (fd g : ℕ) (text : Text) (before after : Globals) : Type 0 where
  pub rest : after.g_rbuf fd ≡ some (lines_of text).1
  pub sent :
      after.g_wbuf g ≡ joined (before.g_wbuf g) (map (told (before.g_ids fd)) (lines_of text).0)

send_lines-Told :
    (rounds fd g : ℕ) (s : Globals) (text : Text)
    → s.g_rbuf fd ≡ some text
    → length text < rounds
    → g ≤ s.g_maxfd
    → receives fd s g ≡ true
    → (after : Globals) × (send_lines rounds fd s ≡ some after) × Told fd g text s after
unfolding send_lines extract_message send_all receives
send_lines-Told zero fd g s text held h k told_too = absurd (omega (arith, h))
send_lines-Told (suc rounds) fd g s text held h k told_too =
    elim (Option-cases (find_char 10 text)) [
      | inl absent ↦ (
        s,
        rw (send_lines, extract_message, held, absent) refl,
        record {
          rest = held ∙ ap (λ x. some x.1) (sym (lines_of-absent text absent));
          sent =
              ap (λ x. joined (s.g_wbuf g) (map (told (s.g_ids fd)) x.0))
                (sym (lines_of-absent text absent));
        },
      )
      | inr (i, found) ↦
          let text' = drop (suc i) text in
          let taken : Globals = record s { g_rbuf = put fd (some text') s.g_rbuf } in
          let msg = client_line (s.g_ids fd) (take (suc i) text) in
          let (w, e) = send_below-shape fd msg taken (suc s.g_maxfd) in
          let (after, ran, d) =
            send_lines-Told rounds fd g (with_wbuf w taken) text'
              (put_same fd (some text') s.g_rbuf)
              (omega (arith, h, length-drop (suc i) text, find_char-lt_length 10 text i found)) k
              told_too in
          let split = lines_of-found text i found in
          (
            after,
            rw (send_lines, extract_message, held, found)
                (ap (λ t. send_lines rounds fd t) e ∙ ran),
            record {
              rest = d.rest ∙ ap (λ x. some x.1) (sym split);
              sent =
                  d.sent
                  ∙ (ap (λ x. joined x (map (told (s.g_ids fd)) (lines_of text').0))
                        (ap (λ (t : Globals). t.g_wbuf g) (sym e)
                          ∙ (received fd g msg taken k told_too
                              ∙ ap (λ r. some (str_join (s.g_wbuf g) (client_line (s.g_ids fd) r)))
                                  (take-newline text i found)))
                      ∙ ap (λ x. joined (s.g_wbuf g) (map (told (s.g_ids fd)) x.0)) (sym split));
            },
          )
    ]

-- The bytes of a client: together with those that waited they are cut into lines, each line that is
-- complete is sent to every other client, in order, and the rest waits.
pub handle_bytes-Told :
    (fd g : ℕ) (s : Globals) (buf : Text)
    → g ≤ s.g_maxfd
    → receives fd s g ≡ true
    → (after : Globals) × (handle_bytes fd buf s ≡ some after)
      × Told fd g (str_join (s.g_rbuf fd) buf) s after
unfolding handle_bytes receives
handle_bytes-Told fd g s buf h k =
    let text = str_join (s.g_rbuf fd) buf in
    let (after, ran, d) =
      send_lines-Told (suc (length text)) fd g (record s { g_rbuf = put fd (some text) s.g_rbuf })
        text (put_same fd (some text) s.g_rbuf) (omega arith) h k in
    (after, ran, record { rest = d.rest; sent = d.sent })
