-- ===== src/Bonus/Bot/Sending.antt =====
-- What bonus/Bot.cpp sends: every byte that is queued, once and in order.
use irc.Common.{
  ℕ, Bool, zero, suc, ◌+◌, ◌<◌, ◌≤◌, ◌≡◌, ◌⊎◌, inl, inr, refl, ap, ◌∙◌, true, false, List, [], ◌∷◌,
  ◌++◌, some, Text, arith, ◌==◌, if◌then◌else◌, length, take, drop, is_empty, concat, length-append,
  append_assoc, append-nil, sym, codes, take-append-drop, Bool-cases,
}
use irc.Common.Lines.{length-drop}
use irc.Network.Connection.{Sent, took, send_failed}
use irc.Bonus.Bot.{Bot, Result, ok, throws, flush_lines, flush_output, flush_all}

-- What is left to do: bytes, and lines to take from the queue.
abbrev work : List Text → ℕ
work lines = length (concat lines) + length lines

-- send() has failed, or has taken nothing.
unfoldable pub is_failure : Sent → Bool
is_failure send_failed = true
is_failure (took n) = n == 0

-- Either send() has failed on one of its calls, or what has gone out and what is left make up what was
-- queued, and there is less to do than before.
abbrev Flushed : (ℕ → Sent) → List Text → Result (Text × List Text) → Type 0
Flushed sent lines r =
    ((i : ℕ) × (is_failure (sent i) ≡ true) × (r ≡ throws (codes "send failed")))
    ⊎ ((wire : Text) × (left : List Text) × (r ≡ ok (wire, left))
        × (wire ++ concat left ≡ concat lines)
        × (work left + (if is_empty lines then 0 else 1) ≤ work lines))

Sent-cases : (x : Sent) → (x ≡ send_failed) ⊎ ((n : ℕ) × (x ≡ took n))
Sent-cases send_failed = inl refl
Sent-cases (took n) = inr (n, refl)

nonempty-length : (s : Text) → is_empty s ≡ false → 0 < length s
nonempty-length [] h = cc
nonempty-length (c ∷ s) h = omega arith

-- A line of which some bytes have gone out, and are not all.
partly_sent :
    (n : ℕ) (line : Text) (rest : List Text)
    → (n == 0) ≡ false
    → is_empty (drop n line) ≡ false
    → work (drop n line ∷ rest) + 1 ≤ work (line ∷ rest)
partly_sent n line rest h k =
    let left = nonempty-length (drop n line) k in
    let positive : 0 < n = ground arith in
    omega (
      arith,
      length-append line (concat rest),
      length-append (drop n line) (concat rest),
      length-drop n line,
    )

nil_of_is_empty {ℓ} : {A : Type ℓ} (xs : List A) → is_empty xs ≡ true → xs ≡ []
nil_of_is_empty [] h = refl
nil_of_is_empty (x ∷ xs) h = cc

-- A line that has gone out whole.
wholly_sent : (n : ℕ) (line : Text) → is_empty (drop n line) ≡ true → take n line ≡ line
wholly_sent n line h =
    sym (append-nil (take n line))
    ∙ ap (λ t. take n line ++ t) (sym (nil_of_is_empty (drop n line) h))
    ∙ take-append-drop n line

flush_lines-Flushed :
    (sent : ℕ → Sent) (i : ℕ) (lines : List Text) → Flushed sent lines (flush_lines sent i lines)
unfolding flush_lines is_failure
flush_lines-Flushed sent i [] = inr ([], [], refl, refl, omega arith)
flush_lines-Flushed sent i (line ∷ rest) = elim (Sent-cases (sent i)) [
  | inl failed ↦ inl (i, rw failed refl, rw (flush_lines, failed) refl)
  | inr (n, taken) ↦ elim (Bool-cases (n == 0)) [
    | inl nothing ↦ inl (i, rw taken nothing, rw (flush_lines, taken, nothing) refl)
    | inr something ↦ elim (Bool-cases (is_empty (drop n line))) [
      | inr partly ↦ inr (
        take n line,
        drop n line ∷ rest,
        rw (flush_lines, taken, something, partly) refl,
        rw (← append_assoc (take n line) (drop n line) (concat rest), take-append-drop n line) refl,
        partly_sent n line rest something partly,
      )
      | inl wholly ↦ elim (flush_lines-Flushed sent (i + 1) rest) [
        | inl (j, fails, failed) ↦
            inl (j, fails, rw (flush_lines, taken, something, wholly, failed) refl)
        | inr (wire, left, flushed, same, less) ↦ inr (
          take n line ++ wire,
          left,
          rw (flush_lines, taken, something, wholly, flushed) refl,
          rw (append_assoc (take n line) wire (concat left), same, wholly_sent n line wholly) refl,
          omega (arith, length-append line (concat rest), less),
        )
      ]
    ]
  ]
]

-- The loop at the end of run(), given one round more than there is to do, either throws because one of
-- the answers of send() is a failure or 0, or sends every byte that is queued, in order, and leaves the
-- queue empty.
pub flush_all-sends :
    (rounds : ℕ) (sent : ℕ → ℕ → Sent) (b : Bot)
    → work b.outbox < rounds
    → ((k : ℕ) × (i : ℕ) × (is_failure (sent k i) ≡ true)
        × (flush_all rounds sent b ≡ some (throws (codes "send failed"))))
      ⊎ (flush_all rounds sent b ≡ some (ok (concat b.outbox, record b { outbox = [] })))
unfolding flush_all flush_output
flush_all-sends zero sent b h = absurd (omega arith)
flush_all-sends (suc rounds) sent b h = elim (Bool-cases (is_empty b.outbox)) [
  | inl done ↦
      let empty = nil_of_is_empty b.outbox done in
      inr (
        rw (if◌then◌else◌, done)
          (ap (λ o. some (ok ([], record b { outbox = o }))) empty
            ∙ ap (λ o. some (ok (concat o, record b { outbox = [] }))) (sym empty)))
  | inr more ↦ elim (flush_lines-Flushed (sent 0) 0 b.outbox) [
    | inl (i, fails, failed) ↦
        inl (0, i, fails, rw (if◌then◌else◌, more, flush_output, failed) refl)
    | inr (wire, left, flushed, same, less) ↦
        elim (flush_all-sends rounds (λ k. sent (suc k)) (record b { outbox = left })
          (ground (arith, less, more, h))) [
            | inl (k, i, fails, failed) ↦
                inl (suc k, i, fails, rw (if◌then◌else◌, more, flush_output, flushed, failed) refl)
            | inr sent_all ↦
                inr (rw (if◌then◌else◌, more, flush_output, flushed, sent_all, ← same) refl)
          ]
  ]
]
