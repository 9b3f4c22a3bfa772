-- ===== src/Session/Threads/Safety.antt =====
-- What threads that write to one session can rely on, in whatever order their steps come.
use minapp.Base.{
  ℕ, ◌<◌, ◌≡◌, ◌⊎◌, inl, inr, refl, ap, ap₂, ◌∙◌, true, false, List, [], ◌∷◌, ◌++◌, arith,
  append-nil, sum_below, le-sum_below, sum_below_unique, sum_below-positive, zero_or_positive,
  Bool-cases,
}
use minapp.WriteQueue.{Manager}
use minapp.WriteQueue.Fifo.{contents}
use minapp.Session.Threads.{Pc, idle, starting, finishing, Shared, System, Reach}
use minapp.Session.Threads.Invariant.{owns, ends, calls, drains, is_nil, Counts, Reach-Inv}

-- The thread is about to start the write of what `mark` gave it, or has been told of its end and
-- is about to clear it.
abbrev pub Owns : Pc → Type 0
Owns p = (p ≡ starting) ⊎ (p ≡ finishing)

owns-Owns : {p : Pc} → Owns p → 0 < owns p
owns-Owns (inl e) = rw e (omega arith)
owns-Owns (inr e) = rw e (omega arith)

-- In every state that threads sharing a session come to, however their steps are interleaved, at
-- most one of them is between a successful `mark` and its `async_write` or between the end of the
-- write and the end of `clear_marked`, and none is while an `async_write` is under way.
pub write_is_exclusive :
    {n : ℕ} {q : Manager} {s : System}
    → Reach n q s
    → (i j : ℕ) → i < n
    → j < n
    → Owns (s.pc i)
    → Owns (s.pc j)
    → (i ≡ j) × (s.shared.writing ≡ false)
write_is_exclusive {n} {s} r i j lt lt' a b =
    let v = (Reach-Inv r).counts.few in
    (
      sum_below_unique owns n s.pc i j (ground (arith, v)) lt lt' (owns-Owns a) (owns-Owns b),
      ground (arith, v, le-sum_below owns n s.pc i lt, owns-Owns a),
    )

-- In every state that threads sharing a session come to, however their steps are interleaved, what
-- has been written, what is being written and what waits are together, in this order, what `write`
-- was given, in the order in which `manage` took it.
pub order_is_kept :
    {n : ℕ} {q : Manager} {s : System}
    → Reach n q s
    → s.shared.submitted
      ≡ s.shared.written ++ (contents s.shared.queue.marked ++ contents s.shared.queue.managed)
order_is_kept r = (Reach-Inv r).ordered

quiet_lem :
    (w : Pc → ℕ) (n : ℕ) (pc : ℕ → Pc)
    → w idle ≡ 0
    → ((i : ℕ) → i < n → pc i ≡ idle)
    → sum_below w n pc ≡ 0
quiet_lem w n pc none_idle quiet = elim (zero_or_positive (sum_below w n pc)) [
  | inl none ↦ none
  | inr more ↦
      let (i, lt, p) = sum_below-positive w n pc more in
      absurd (omega (arith, p, none_idle, ap w (quiet i lt)))
]

is_nil_lem : (xs : List (List ℕ)) → is_nil xs ≡ true → xs ≡ []
is_nil_lem [] h = refl
is_nil_lem (x ∷ xs) h = absurd (ground arith)

settled :
    (m : Shared)
    → Counts m 0 0 0 0
    → m.phase < 2
    → m.reopened ≡ false
    → m.submitted ≡ m.written ++ (contents m.queue.marked ++ contents m.queue.managed)
    → (m.writing ≡ true) ⊎ ((m.phase ≡ 0) × (m.submitted ≡ m.written))
settled m v open' kept o = elim (Bool-cases m.writing) [
  | inl w ↦ inl w
  | inr w ↦ inr (
    ground (arith, v, w, kept),
    o
        ∙ ap₂ (λ x y. m.written ++ (x ++ y))
            (is_nil_lem (contents m.queue.marked) (ground (arith, v, w, kept)))
            (is_nil_lem (contents m.queue.managed) (ground (arith, v, w, kept)))
        ∙ append-nil m.written,
  )
]

-- In every state that threads sharing a session come to where none of them is inside `write`,
-- `close` or a completion handler, the session is not closed, and no connect has succeeded on it
-- while it was closing or closed, either an `async_write` is under way, or the session is not
-- closing and all that `write` was given has been written, in order: no buffer is left waiting and
-- no graceful close is forgotten.
pub nothing_stalls :
    {n : ℕ} {q : Manager} {s : System}
    → Reach n q s
    → ((i : ℕ) → i < n → s.pc i ≡ idle)
    → s.shared.phase < 2
    → s.shared.reopened ≡ false
    → (s.shared.writing ≡ true) ⊎ ((s.shared.phase ≡ 0) × (s.shared.submitted ≡ s.shared.written))
nothing_stalls {n} {s} r quiet open' kept =
    settled s.shared
      (rw
        (
          quiet_lem owns n s.pc refl quiet,
          quiet_lem ends n s.pc refl quiet,
          quiet_lem calls n s.pc refl quiet,
          quiet_lem drains n s.pc refl quiet,
        )
        at (Reach-Inv r).counts)
      open' kept (Reach-Inv r).ordered
