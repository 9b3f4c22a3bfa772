-- ===== src/Session/Threads/Invariant.antt =====
-- What holds of the write queue and of the threads that write to a session.
use minapp.Base.{
  ℕ, zero, suc, ◌+◌, ◌≤◌, ◌<◌, ◌≡◌, ◌≢◌, ◌⊎◌, refl, ◌∙◌, sym, ap, inl, inr, Bool, true, false, List,
  [], ◌∷◌, ◌++◌, if◌then◌else◌, ◌==◌, arith, set_at, sum_below, sum_below-set_at, sum_below-eq_zero,
  append_assoc,
}
use minapp.WriteQueue
use minapp.WriteQueue.{PersistentBuffer, Manager, negate, pos}
use minapp.WriteQueue.Fifo.{
  contents, mark_cases, queues-manage_list, queues-clear_marked, mark_order,
}
use minapp.Session.Threads.{
  Pc, idle, entering, marking, drained, starting, finishing, ending, Shared, after_mark, Move,
  offer, manage, enter, leave, mark, end, go_on, begin, complete, fail, finish, close_gracefully,
  close_immediately, connected, close_at_end, System, pick, init, Reach, start, later,
}

-- A thread that the buffers being written belong to.
abbrev pub owns : Pc → ℕ
owns starting = 1
owns finishing = 1
owns p = 0

abbrev pub ends : Pc → ℕ
ends ending = 1
ends p = 0

-- A thread that will call `mark`.
abbrev pub calls : Pc → ℕ
calls entering = 1
calls marking = 1
calls p = 0

abbrev pub drains : Pc → ℕ
drains drained = 1
drains p = 0

abbrev pub is_nil : List (List ℕ) → Bool
is_nil [] = true
is_nil (x ∷ xs) = false

abbrev pub bit : Bool → ℕ
bit true = 1
bit false = 0

-- With `o` threads that own what is being written, `e` that will close the session, `c` that will
-- call `mark` and `d` that have found nothing to write.
pub record Counts (m : Shared) (o e c d : ℕ) : Type 0 where
  pub few : o + bit m.writing ≤ (if is_nil (contents m.queue.marked) then 0 else 1)
  pub held :
      (m.reopened ≡ true)
      ⊎ (2 ≤ m.phase)
      ⊎ ((is_nil (contents m.queue.marked) ≡ true) ⊎ (0 < o + bit m.writing + e))
  pub served :
      (m.reopened ≡ true)
      ⊎ (2 ≤ m.phase)
      ⊎ ((is_nil (contents m.queue.managed) ≡ true) ⊎ (0 < o + bit m.writing + e + c))
  pub closes : (m.reopened ≡ true) ⊎ ((m.phase == 1) ≡ false) ⊎ (0 < o + bit m.writing + e + c + d)

pub record Inv (n : ℕ) (m : Shared) (pc : ℕ → Pc) : Type 0 where
  pub counts :
      Counts m
        (sum_below owns n pc)
        (sum_below ends n pc)
        (sum_below calls n pc)
        (sum_below drains n pc)
  pub ordered : m.submitted ≡ m.written ++ (contents m.queue.marked ++ contents m.queue.managed)

-- The counts after a move of one thread from the place `q`, where `o`, `e`, `c` and `d` count the
-- others.
Others : Shared → Pc → ℕ → ℕ → ℕ → ℕ → Type 0
Others m q o e c d = Counts m (o + owns q) (e + ends q) (c + calls q) (d + drains q)

-- A call of `mark` that changes nothing, since buffers are being written.
refused :
    (m : Shared) (o e c d k : ℕ)
    → Others m marking o e c d
    → is_nil (contents m.queue.marked) ≡ false
    → Others m (after_mark (negate k)) o e c d
unfolding Others after_mark
refused m o e c d zero v full = ground (arith, v)
refused m o e c d (suc k) v full = ground (arith, v)

is_nil-contents : (ps : List PersistentBuffer) → ps ≢ [] → is_nil (contents ps) ≡ false
is_nil-contents [] some_left = absurd (some_left refl)
is_nil-contents (p ∷ ps) some_left = refl

mark_Counts :
    (m : Shared) (o e c d : ℕ)
    → Others m marking o e c d
    → Others
        (record m { queue = (WriteQueue.mark m.queue).1 })
        (after_mark (WriteQueue.mark m.queue).0)
        o
        e
        c
        d
unfolding Others after_mark
mark_Counts m o e c d v = elim (mark_cases m.queue) [
  | inl (p, ps, full, r, same) ↦
      rw (r, same) (refused m o e c d m.queue.marker v (ap (λ w. is_nil (contents w)) full))
  | inr (inl (e', e'', r, same)) ↦
      rw (r, same) (ground (arith, v, ap (λ w. is_nil (contents w)) e'))
  | inr (inr (n, e', e'', r, k, bound, qs)) ↦
      let left = is_nil-contents m.queue.managed e'' in
      rw r (
        ground (
          arith,
          v,
          ap (λ w. is_nil (contents w)) e',
          ap (λ t. is_nil t.0) qs,
          ap (λ t. is_nil t.1) qs,
          left,
        ))
]

Move-Counts :
    {m m' : Shared} {q p : Pc} (o e c d : ℕ)
    → Move m q m' p
    → Others m q o e c d
    → Others m' p o e c d
unfolding Others
Move-Counts o e c d (offer list open') v = ground (arith, v)
Move-Counts {m} o e c d (manage malloc list) v =
    let h = queues-manage_list malloc m.queue list in ground (arith, v, ap (λ t. t.1) h)
Move-Counts o e c d (enter h) v = ground (arith, v)
Move-Counts o e c d (leave h) v = ground (arith, v)
Move-Counts {m} o e c d mark v = mark_Counts m o e c d v
Move-Counts o e c d (end h) v = ground (arith, v)
Move-Counts o e c d (go_on h) v = ground (arith, v)
Move-Counts o e c d begin v = ground (arith, v)
Move-Counts o e c d (complete h) v = ground (arith, v)
Move-Counts o e c d (fail h) v = ground (arith, v)
Move-Counts {m} o e c d finish v =
    let h = queues-clear_marked m.queue in ground (arith, v, ap (λ t. t.1) h, ap (λ t. t.0) h)
Move-Counts o e c d (close_gracefully h) v = ground (arith, v)
Move-Counts o e c d close_immediately v = ground (arith, v)
Move-Counts o e c d connected v = ground (arith, v)
Move-Counts o e c d close_at_end v = ground (arith, v)

-- What has been written, what is being written and what waits.
total : Shared → List (List ℕ)
total m = m.written ++ (contents m.queue.marked ++ contents m.queue.managed)

Move-total :
    {m m' : Shared} {q p : Pc} → Move m q m' p → m.submitted ≡ total m → m'.submitted ≡ total m'
unfolding total
Move-total (offer list open') v = v
Move-total {m} (manage malloc list) v =
    ap (λ w. w ++ list) v
    ∙ (simp append_assoc)
    ∙ sym (ap (λ t. m.written ++ (t.1 ++ t.0)) (queues-manage_list malloc m.queue list))
Move-total (enter h) v = v
Move-total (leave h) v = v
Move-total {m} mark v = v ∙ sym (ap (λ w. m.written ++ w) (mark_order m.queue))
Move-total (end h) v = v
Move-total (go_on h) v = v
Move-total begin v = v
Move-total (complete h) v = v
Move-total (fail h) v = v
Move-total {m} finish v =
    v
    ∙ (simp append_assoc)
    ∙ sym (
        ap (λ t. (m.written ++ contents m.queue.marked) ++ (t.1 ++ t.0))
          (queues-clear_marked m.queue))
Move-total (close_gracefully h) v = v
Move-total close_immediately v = v
Move-total connected v = v
Move-total close_at_end v = v

-- The weight of the threads but for one, which counts nothing when idle.
module _ (n : ℕ) (pc : ℕ → Pc) (i : ℕ) (lt : i < n) where
  others : (Pc → ℕ) → ℕ
  others w = sum_below w n (set_at pc i idle)

  sum_before : (w : Pc → ℕ) → w idle ≡ 0 → sum_below w n pc ≡ others w + w (pc i)
  unfolding others
  sum_before w quiet = omega (arith, quiet, sum_below-set_at w n pc i idle lt)

  sum_after : (w : Pc → ℕ) (p : Pc) → w idle ≡ 0 → sum_below w n (set_at pc i p) ≡ others w + w p
  sum_after w p quiet = omega (arith, sum_before w quiet, sum_below-set_at w n pc i p lt)

  Move-Inv : {m m' : Shared} {p : Pc} → Move m (pc i) m' p → Inv n m pc → Inv n m' (set_at pc i p)
  unfolding Others total
  Move-Inv {m} {m'} {p} mv inv = record {
    counts =
        rw
          (
            sum_after owns p refl,
            sum_after ends p refl,
            sum_after calls p refl,
            sum_after drains p refl,
          )
          (Move-Counts (others owns) (others ends) (others calls) (others drains) mv (
            rw
              (
                sum_before owns refl,
                sum_before ends refl,
                sum_before calls refl,
                sum_before drains refl,
              )
              at inv.counts));
    ordered = Move-total mv inv.ordered;
  }

init-Inv : (n : ℕ) (q : Manager) → Inv n (init q).shared (init q).pc
init-Inv n q = record {
  counts =
      rw
        (
          sum_below-eq_zero owns n (λ i. idle) (λ i. refl),
          sum_below-eq_zero ends n (λ i. idle) (λ i. refl),
          sum_below-eq_zero calls n (λ i. idle) (λ i. refl),
          sum_below-eq_zero drains n (λ i. idle) (λ i. refl),
        )
        (ground arith);
  ordered = refl;
}

pub Reach-Inv : {n : ℕ} {q : Manager} {s : System} → Reach n q s → Inv n s.shared s.pc
Reach-Inv {n} {q} start = init-Inv n q
Reach-Inv {n} (later {s} r (pick i lt mv)) = Move-Inv n s.pc i lt mv (Reach-Inv r)
