-- ===== src/Tests/Threads.antt =====
-- Two threads at one session.
use minapp.Base.{ℕ, ◌≡◌, ◌⊎◌, inl, refl, true, false, List, [], ◌∷◌, ◌++◌, arith}
use minapp.WriteQueue as queue
use minapp.WriteQueue.Fifo.{contents}
use minapp.Session.Threads.{
  after_mark, offer, manage, enter, mark, go_on, begin, complete, finish, close_gracefully, end,
  close_at_end, System, Step, pick, Reach, start, later,
}
use minapp.Session.Threads.Safety.{write_is_exclusive, order_is_kept, nothing_stalls}

abbrev pool : queue.Manager
pool = record {
  first = 0;
  second = 1;
  pool = [];
  cached = record { address = 0; content = [] } ∷ [];
  managed = [];
  marked = [];
  marker = 0;
}

abbrev malloc : List ℕ → ℕ
malloc p = 16

infixl 20 ◌▸◌
◌▸◌ : {s t : System} → Reach 2 pool s → Step 2 s t → Reach 2 pool t
r ▸ step = later r step

abbrev offered : List (List ℕ)
offered = (1 ∷ []) ∷ (2 ∷ []) ∷ []

-- Thread 0 has given two buffers to `write` and is about to start the write of both.
given : (s : System) × Reach 2 pool s
given = (
  _,
  start
      ▸ pick 0 (omega arith) (offer offered refl)
      ▸ pick 0 (omega arith) (manage malloc offered)
      ▸ pick 0 (omega arith) (enter (omega arith))
      ▸ pick 0 (omega arith) mark,
)

write_is_exclusive_example : (◌≡◌ {A = ℕ} 0 0) × (given.0.shared.writing ≡ false)
unfolding given after_mark queue.mark queue.manage_list queue.hold_list queue.hold_buffer
write_is_exclusive_example =
    write_is_exclusive given.1 0 0 (omega arith) (omega arith) (inl refl) (inl refl)

order_is_kept_example :
    given.0.shared.submitted
    ≡ given.0.shared.written
      ++ (contents given.0.shared.queue.marked ++ contents given.0.shared.queue.managed)
order_is_kept_example = order_is_kept given.1

given_lem : contents given.0.shared.queue.marked ≡ offered
unfolding given queue.mark queue.manage_list queue.hold_list queue.hold_buffer
given_lem = refl

-- The write has ended and nothing is left to write.
done : (s : System) × Reach 2 pool s
unfolding queue.clear_marked queue.dispose queue.free_buffer given after_mark queue.mark
    queue.manage_list queue.hold_list queue.hold_buffer
done = (
  _,
  given.1
      ▸ pick 0 (omega arith) begin
      ▸ pick 0 (omega arith) (complete refl)
      ▸ pick 0 (omega arith) finish
      ▸ pick 0 (omega arith) (enter (omega arith))
      ▸ pick 0 (omega arith) mark
      ▸ pick 0 (omega arith) (go_on (λ e. omega arith)),
)

nothing_stalls_example :
    (done.0.shared.writing ≡ true)
    ⊎ ((done.0.shared.phase ≡ 0) × (done.0.shared.submitted ≡ done.0.shared.written))
unfolding done given after_mark queue.mark queue.manage_list queue.hold_list queue.hold_buffer
    queue.clear_marked queue.dispose queue.free_buffer queue.free
nothing_stalls_example = nothing_stalls done.1 (λ i lt. ground arith) (omega arith) refl

-- Thread 0 has found nothing to write; thread 1 writes a buffer and closes the session gracefully;
-- thread 0, which now sees `closing`, closes it at once, while the buffer is being written.
cut_off : (s : System) × Reach 2 pool s
unfolding given after_mark queue.mark queue.manage_list queue.hold_list queue.hold_buffer
cut_off = (
  _,
  start
      ▸ pick 0 (omega arith) (offer [] refl)
      ▸ pick 0 (omega arith) (manage malloc [])
      ▸ pick 0 (omega arith) (enter (omega arith))
      ▸ pick 0 (omega arith) mark
      ▸ pick 1 (omega arith) (offer ((3 ∷ []) ∷ []) refl)
      ▸ pick 1 (omega arith) (manage malloc ((3 ∷ []) ∷ []))
      ▸ pick 1 (omega arith) (enter (omega arith))
      ▸ pick 1 (omega arith) mark
      ▸ pick 1 (omega arith) begin
      ▸ pick 1 (omega arith) (close_gracefully refl)
      ▸ pick 1 (omega arith) (enter (omega arith))
      ▸ pick 1 (omega arith) mark
      ▸ pick 0 (omega arith) (end refl)
      ▸ pick 0 (omega arith) close_at_end,
)

cut_off_lem :
    (cut_off.0.shared.phase ≡ 2)
    × (cut_off.0.shared.writing ≡ true)
    × (cut_off.0.shared.submitted ≡ (3 ∷ []) ∷ [])
    × (cut_off.0.shared.written ≡ [])
unfolding cut_off
cut_off_lem = (refl, refl, refl, refl)
