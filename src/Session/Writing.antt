-- ===== src/Session/Writing.antt =====
-- `write`, `close(false)`, `check` and the completion handler of a write, src/session.cpp: at most
-- one write is under way, and the session ends once it is closing and has written all.
use minapp.Base.{
  ℕ, zero, suc, ◌≤◌, ◌≡◌, refl, Bool, true, false, Option, none, some, ◌∙◌, ap, ◌≢◌, List, [], ◌∷◌,
  arith, leb, if◌then◌else◌, Bool-cases, inl, inr, ◌⊎◌,
}
use minapp.WriteQueue
use minapp.WriteQueue.{PersistentBuffer, Manager, ℤ, pos, negsuc, negate}
use minapp.WriteQueue.Fifo.{
  mark_cases, manage_buffers-manage_list, contents, queues-manage_list, queues-clear_marked,
}
use minapp.Reader.{Errc}
use minapp.Session.{
  closing, Event, on_write, on_error, Session, call, write, close_gracefully, close, check,
  write_list, write_buffers, rank, written, shutdown_receive, is_positive,
}
use minapp.Session.Lifecycle.{
  is_empty, phase, IsConsistent, IsAccounted, accounted, IsTame, Goes, call-Goes,
  close_immediately-Goes, rank-phase,
}

-- A positive result of `mark` is a new write; any other leaves the queue as it was.
pub mark_starts :
    (q : Manager)
    → let (r, q') = WriteQueue.mark q in
      ((is_positive r ≡ true) × (is_empty q.marked ≡ true) × (is_empty q'.marked ≡ false))
      ⊎ ((is_positive r ≡ false) × (q' ≡ q))
mark_starts q = elim (mark_cases q) [
  | inl (p, ps, e, r, same) ↦ inr (rw r (negate_not_positive q.marker), same)
  | inr (inl (e, e', r, same)) ↦ inr (ap is_positive r, same)
  | inr (inr (n, e, e', r, k, bound, qs)) ↦ inl (
    ap is_positive r ∙ ground arith,
    ap is_empty e,
    marked_nonempty q.managed (WriteQueue.mark q).1.marked e' (ap (λ t. t.1) qs),
  )
]
  where
    negate_not_positive : (n : ℕ) → is_positive (negate n) ≡ false
    negate_not_positive zero = refl
    negate_not_positive (suc n) = refl

    marked_nonempty :
        (xs ys : List PersistentBuffer) → xs ≢ [] → contents ys ≡ contents xs → is_empty ys ≡ false
    marked_nonempty [] ys h e = absurd (h refl)
    marked_nonempty (x ∷ xs) [] h e = cc
    marked_nonempty (x ∷ xs) (y ∷ ys) h e = refl

is_empty-contents :
    (xs ys : List PersistentBuffer) → contents xs ≡ contents ys → is_empty xs ≡ is_empty ys
is_empty-contents [] [] e = refl
is_empty-contents [] (y ∷ ys) e = cc
is_empty-contents (x ∷ xs) [] e = cc
is_empty-contents (x ∷ xs) (y ∷ ys) e = refl

module _ (handle : Event → Session → Session) (tame : IsTame handle) where
  -- `write()` starts at most one write at a time, and closes a session that has nothing to write
  -- and is closing.
  pub write-Goes : (s : Session) → IsConsistent s → Goes s (write handle s)
  unfolding write
  write-Goes s v =
      let q' = (WriteQueue.mark s.write_queue).1 in
      let s' = record s { write_queue = q' } in
      elim (mark_starts s.write_queue) [
        | inl (new, was, now) ↦ rw (new, (rank-phase s.status).0) (ground (arith, v, new, was, now))
        | inr (old, same) ↦
            let v' : IsConsistent s' = rw same v in
            ground (
              arith,
              v,
              v',
              old,
              (close_immediately-Goes handle tame s' (accounted v')).0,
              rank-phase s.status,
            )
      ]

  pub close_gracefully-Goes :
      (s : Session)
      → IsConsistent s
      → Goes s (close_gracefully handle s) × (1 ≤ phase (close_gracefully handle s).status)
  unfolding close_gracefully
  close_gracefully-Goes s v =
      let s' = shutdown_receive (record s { status = closing }) in
      elim (Bool-cases (leb 1 (phase s.status))) [
        | inl e ↦
            rw ((rank-phase s.status).1 ∙ e)
              (record { forward = omega arith; consistent = v }, ground arith)
        | inr e ↦
            let v' : IsConsistent s' = ground (arith, v) in
            let w = write-Goes s' v' in
            rw ((rank-phase s.status).1 ∙ e)
              (record { forward = ground (arith, w.forward); consistent = w.consistent }, w.forward)
      ]

  -- `close` in either form.
  pub close-Goes :
      (s : Session) (immediately : Bool) → IsConsistent s → Goes s (close handle s immediately)
  unfolding close
  close-Goes s true v = (close_immediately-Goes handle tame s (accounted v)).0
  close-Goes s false v = (close_gracefully-Goes s v).0

  -- Whatever the handler, as long as it is tame (no call of it moves the status back or breaks the
  -- consistency of a consistent session), `check` with an error leaves a consistent session
  -- consistent, and its status is at least `closing`.
  pub check-Goes :
      (s : Session) (ec : Errc)
      → IsConsistent s
      → Goes s (check handle s ec) × (1 ≤ phase (check handle s ec).status)
  unfolding check
  check-Goes s ec v =
      let c = call-Goes handle tame (on_error ec) s (λ es. refl) v in
      let g = close_gracefully-Goes (call handle (on_error ec) s) c.consistent in
      (record { forward = omega (arith, c.forward, g.0.forward); consistent = g.0.consistent }, g.1)

  -- Whatever the handler, as long as it is tame (no call of it moves the status back or breaks the
  -- consistency of a consistent session), `write(list)` leaves a consistent session consistent and
  -- its status not further back, so that at most one write is under way and none is missing while
  -- buffers are marked.
  pub write_list-Goes :
      (malloc : List ℕ → ℕ) (s : Session) (list : List (List ℕ))
      → IsConsistent s
      → Goes s (write_list handle malloc s list)
  unfolding write_list
  write_list-Goes malloc s list v =
      let q' = WriteQueue.manage_list malloc s.write_queue list in
      let s' = record s { write_queue = q' } in
      let same : is_empty q'.marked ≡ is_empty s.write_queue.marked =
        is_empty-contents q'.marked s.write_queue.marked
          (ap (λ t. t.1) (queues-manage_list malloc s.write_queue list)) in
      let v' : IsConsistent s' = ground (arith, v, same) in ground (arith, v, write-Goes s' v')

  -- Whatever the handler, as long as it is tame (no call of it moves the status back or breaks the
  -- consistency of a consistent session), the completion handler of a write, with or without an
  -- error, leaves a consistent session consistent and its status not further back: a further write
  -- is under way exactly while buffers are marked, unless the session is closed.
  pub written-Goes :
      (s : Session) (result : Option Errc) → IsConsistent s → Goes s (written handle s result)
  unfolding written
  written-Goes s (some ec) v =
      let c = call-Goes handle tame (on_error ec) s (λ es. refl) v in
      let s' = record (call handle (on_error ec) s) { pending_write = false } in
      let a : IsAccounted s' = ground (arith, c) in
      let g = (close_immediately-Goes handle tame s' a).0 in
      record { forward = omega (arith, c.forward, g.forward); consistent = g.consistent }
  written-Goes s none v =
      let c = call-Goes handle tame on_write s (λ es. refl) v in
      let s₁ = call handle on_write s in
      let q' = WriteQueue.clear_marked s₁.write_queue in
      let s' = record s₁ { write_queue = q'; pending_write = false } in
      let cleared : is_empty q'.marked ≡ true =
        is_empty-contents q'.marked [] (ap (λ t. t.1) (queues-clear_marked s₁.write_queue)) in
      let v' : IsConsistent s' = ground (arith, c, cleared) in
      let g = write-Goes s' v' in
      record { forward = omega (arith, c.forward, g.forward); consistent = g.consistent }

-- `write` of buffers is `write` of the list of them.
pub write_buffers-write_list :
    (handle : Event → Session → Session) (malloc : List ℕ → ℕ) (s : Session) (b : List ℕ)
    (bs : List (List ℕ))
    → write_buffers handle malloc s b bs ≡ write_list handle malloc s (b ∷ bs)
unfolding write_buffers write_list
write_buffers-write_list handle malloc s b bs =
    ap
      (λ q.
        if leb (rank closing) (rank s.status)
        then s
        else write handle (record s { write_queue = q }))
      (manage_buffers-manage_list malloc s.write_queue b bs)
