-- ===== src/WriteQueue/Fifo.antt =====
-- The queue as a FIFO of byte strings: what is being written, then what waits.
use minapp.Base.{
  ℕ, suc, ◌≡◌, ◌≢◌, refl, sym, ap, ap₂, ◌∙◌, ◌⊎◌, inl, inr, List, [], ◌∷◌, ◌++◌, map, append-nil,
  append_assoc, arith, if◌then◌else◌, ◌==◌,
}
use mathlib.Core.List.{map-append}
use minapp.WriteQueue.{
  PersistentBuffer, Manager, ℤ, pos, negate, long_max, hold_buffer, manage, hold_list, manage_list,
  manage_buffers, mark, free_buffer, dispose, clear_marked,
}

abbrev pub contents : List PersistentBuffer → List (List ℕ)
contents = map (λ p. p.content)

-- What waits, and what is being written.
abbrev pub Queues : Type 0
Queues = List (List ℕ) × List (List ℕ)

abbrev pub queues : Manager → Queues
queues q = (contents q.managed, contents q.marked)

module _ (malloc : List ℕ → ℕ) where
  hold_buffer_lem :
      (q : Manager) (c : List ℕ)
      → ((hold_buffer malloc q c).0.content ≡ c)
        × ((hold_buffer malloc q c).1.managed ≡ q.managed)
        × ((hold_buffer malloc q c).1.marked ≡ q.marked)
        × ((hold_buffer malloc q c).1.marker ≡ q.marker)
  unfolding hold_buffer
  hold_buffer_lem q c = ground arith

  hold_list_lem :
      (q : Manager) (cs : List (List ℕ))
      → (contents (hold_list malloc q cs).0 ≡ cs)
        × ((hold_list malloc q cs).1.managed ≡ q.managed)
        × ((hold_list malloc q cs).1.marked ≡ q.marked)
        × ((hold_list malloc q cs).1.marker ≡ q.marker)
  unfolding hold_list
  hold_list_lem q [] = (refl, refl, refl, refl)
  hold_list_lem q (c ∷ cs) =
      let h = hold_buffer_lem q c in
      let t = hold_list_lem (hold_buffer malloc q c).1 cs in
      (ap₂ ◌∷◌ h.0 t.0, t.1 ∙ h.1, t.2 ∙ h.2, t.3 ∙ h.3)

  -- `manage` of one buffer puts its bytes at the end of what waits, whichever object holds them.
  pub queues-manage :
      (q : Manager) (c : List ℕ)
      → queues (manage malloc q c) ≡ (contents q.managed ++ (c ∷ []), contents q.marked)
  unfolding manage
  queues-manage q c =
      let h = hold_buffer_lem q c in
      ap₂ (λ x y. (x, y)) (map-append _ _ _ ∙ ap₂ (λ x y. contents x ++ (y ∷ [])) h.1 h.0)
        (ap contents h.2)

  -- `manage` of a list puts all of it there, in its order.
  pub queues-manage_list :
      (q : Manager) (cs : List (List ℕ))
      → queues (manage_list malloc q cs) ≡ (contents q.managed ++ cs, contents q.marked)
  unfolding manage_list
  queues-manage_list q cs =
      let h = hold_list_lem q cs in
      ap₂ (λ x y. (x, y)) (map-append _ _ _ ∙ ap₂ (λ x y. contents x ++ y) h.1 h.0)
        (ap contents h.2)

  -- Buffers given one by one are managed as a list of them is.
  pub manage_buffers-manage_list :
      (q : Manager) (b : List ℕ) (bs : List (List ℕ))
      → manage_buffers malloc q b bs ≡ manage_list malloc q (b ∷ bs)
  unfolding manage_buffers manage manage_list hold_list
  manage_buffers-manage_list q b [] = refl
  manage_buffers-manage_list q b (c ∷ cs) = refl

dispose_queues :
    (q : Manager) (ps : List PersistentBuffer)
    → ((dispose q ps).managed ≡ q.managed)
      × ((dispose q ps).marked ≡ q.marked)
      × ((dispose q ps).marker ≡ q.marker)
unfolding dispose free_buffer
dispose_queues q [] = (refl, refl, refl)
dispose_queues q (p ∷ ps) =
    let one = free_queues q p in
    let t = dispose_queues (free_buffer q p) ps in (t.0 ∙ one.0, t.1 ∙ one.1, t.2 ∙ one.2)
  where
    free_queues :
        (q : Manager) (p : PersistentBuffer)
        → ((free_buffer q p).managed ≡ q.managed)
          × ((free_buffer q p).marked ≡ q.marked)
          × ((free_buffer q p).marker ≡ q.marker)
    free_queues q p = ground arith

-- `clear_marked` ends the write, and what waits stays.
pub queues-clear_marked : (q : Manager) → queues (clear_marked q) ≡ (contents q.managed, [])
unfolding clear_marked
queues-clear_marked q =
    let d = dispose_queues (record q { marked = [] }) q.marked in
    ap₂ (λ x y. (x, y)) (ap contents d.0) (ap contents d.1)

abbrev pub MarkCases : Manager → ℤ × Manager → Type 0
MarkCases q (r, q') =
    ((p : PersistentBuffer) × (ps : List PersistentBuffer) × (q.marked ≡ p ∷ ps)
      × (r ≡ negate q.marker)
      × (q' ≡ q))
    ⊎ ((q.marked ≡ []) × (q.managed ≡ []) × (r ≡ pos 0) × (q' ≡ q))
    ⊎ ((n : ℕ) × (q.marked ≡ [])
        × (q.managed ≢ [])
        × (r ≡ pos (suc n))
        × (q'.marker ≡ suc n)
        × (n ≡ (if q.marker == long_max then 0 else q.marker))
        × (queues q' ≡ ([], contents q.managed)))

mark_split :
    (q : Manager) (xs ys : List PersistentBuffer)
    → q.marked ≡ xs
    → q.managed ≡ ys
    → MarkCases q (mark q)
unfolding mark
mark_split q (p ∷ ps) ys e e' = inl (p, ps, e, ground arith, ground arith)
mark_split q [] [] e e' = inr (inl (e, e', ground arith, ground arith))
mark_split q [] (p ∷ ps) e e' = inr (
    inr (
      (if q.marker == long_max then 0 else q.marker),
      e,
      (λ none. cc),
      ground arith,
      ground arith,
      refl,
      rw (e, mark) (rw (e', mark) (ap (λ w. ([], contents w)) e')),
    ))

-- `mark` starts a write exactly when none is under way and something waits: it returns the next
-- number, 1 after the largest `long`, and all that waited is being written. Otherwise it returns 0
-- if no write is under way, or else minus the number of the write, and changes nothing.
pub mark_cases : (q : Manager) → MarkCases q (mark q)
mark_cases q = mark_split q q.marked q.managed refl refl

-- `mark` moves nothing past anything else.
pub mark_order :
    (q : Manager)
    → contents (mark q).1.marked ++ contents (mark q).1.managed
      ≡ contents q.marked ++ contents q.managed
mark_order q = elim (mark_cases q) [
  | inl (p, ps, e, r, same) ↦ rw same
  | inr (inl (e, e', r, same)) ↦ rw same
  | inr (inr (n, e, e', r, k, bound, qs)) ↦
      ap (λ t. t.1 ++ t.0) qs
      ∙ append-nil (contents q.managed)
      ∙ ap (λ w. contents w ++ contents q.managed) (sym e)
]

-- What the program asks of the queue.
pub data Op : Type 0 where
  add : List ℕ → Op
  add_list : List (List ℕ) → Op
  start finish : Op

-- The byte strings that the operations hand over, in order.
abbrev pub submitted : List Op → List (List ℕ)
submitted [] = []
submitted (add c ∷ ops) = c ∷ submitted ops
submitted (add_list cs ∷ ops) = cs ++ submitted ops
submitted (start ∷ ops) = submitted ops
submitted (finish ∷ ops) = submitted ops

module _ (malloc : List ℕ → ℕ) where
  -- The operations in turn, with what has been written when `finish` clears it.
  unfoldable pub run : Manager → List (List ℕ) → List Op → List (List ℕ) × Manager
  run q written [] = (written, q)
  run q written (add c ∷ ops) = run (manage malloc q c) written ops
  run q written (add_list cs ∷ ops) = run (manage_list malloc q cs) written ops
  run q written (start ∷ ops) = run (mark q).1 written ops
  run q written (finish ∷ ops) = run (clear_marked q) (written ++ contents q.marked) ops

  -- What has been written, what is being written and what waits.
  abbrev pub total : List (List ℕ) → Manager → List (List ℕ)
  total written q = written ++ (contents q.marked ++ contents q.managed)

  -- After any sequence of `manage`, `mark` and `clear_marked`, what has been written, what is
  -- being written and what waits are together, in this order, what they were before followed by
  -- what was handed over: nothing is lost, repeated or moved ahead.
  pub run-total :
      (ops : List Op) (q : Manager) (written : List (List ℕ))
      → let (w, q') = run q written ops in total w q' ≡ total written q ++ submitted ops
  unfolding run
  run-total [] q written = sym (append-nil (total written q))
  run-total (add c ∷ ops) q written =
      run-total ops (manage malloc q c) written
      ∙ ap (λ t. (written ++ (t.1 ++ t.0)) ++ submitted ops) (queues-manage malloc q c)
      ∙ simp append_assoc
  run-total (add_list cs ∷ ops) q written =
      run-total ops (manage_list malloc q cs) written
      ∙ ap (λ t. (written ++ (t.1 ++ t.0)) ++ submitted ops) (queues-manage_list malloc q cs)
      ∙ simp append_assoc
  run-total (start ∷ ops) q written =
      run-total ops (mark q).1 written ∙ ap (λ w. (written ++ w) ++ submitted ops) (mark_order q)
  run-total (finish ∷ ops) q written =
      run-total ops (clear_marked q) (written ++ contents q.marked)
      ∙ ap (λ t. ((written ++ contents q.marked) ++ (t.1 ++ t.0)) ++ submitted ops)
          (queues-clear_marked q)
      ∙ simp append_assoc
