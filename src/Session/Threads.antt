-- ===== src/Session/Threads.antt =====
-- The writes of a session that several threads use at once: `write(list)`, `write()` with its
-- completion handler and `close` of src/session.cpp, over the queue of
-- include/minapp/persistent_buffer_manager.hpp. Each method of the queue and each access to the
-- status is one step of one thread: what `manage` and `clear_marked` do under other locks, before
-- the list is spliced or after it is emptied, is with the cache and the pool, which `mark` does not
-- read. Of the status only the way to the end is kept: 0 before `closing`, 1 for `closing`, 2 for
-- `closed`; the exchanges of `read`, from `connected` to `reading` and back, leave it at 0. The
-- completion of a connect may come at any time.
pub mod Invariant
pub mod Safety
use minapp.Base.{
  ℕ, ◌+◌, ◌≤◌, ◌<◌, ◌≡◌, ◌≢◌, ◌==◌, Bool, true, false, List, [], ◌∷◌, ◌++◌, set_at, if◌then◌else◌,
}
use minapp.WriteQueue
use minapp.WriteQueue.{Manager, ℤ}
use minapp.WriteQueue.Fifo.{contents}
use minapp.Session.{is_positive, is_zero}

-- Where a thread stands.
pub data Pc : Type 0 where
  idle : Pc
  submitting : List (List ℕ) → Pc  -- in `write(list)`, behind the test of the status
  entering : Pc  -- before `write()`
  marking : Pc  -- before `mark`
  drained : Pc  -- `mark` has returned 0
  starting : Pc  -- `mark` has returned a number: before `async_write`
  finishing : Pc  -- in the completion handler of a write, before `clear_marked`
  ending : Pc  -- before `close(true)`

pub record Shared : Type 0 where
  pub queue : Manager
  pub phase : ℕ
  -- a connect has succeeded on a session that was closing or closed
  pub reopened : Bool
  -- an `async_write` is under way
  pub writing : Bool
  -- what has been written, and what `manage` has been given, in order
  pub written : List (List ℕ)
  pub submitted : List (List ℕ)

-- Where `write()` goes on after `mark`.
unfoldable pub after_mark : ℤ → Pc
after_mark marker =
    if is_positive marker then starting else if is_zero marker then drained else idle

-- One step of one thread.
pub data Move (m : Shared) : Pc → Shared → Pc → Type 0 where
  offer : (list : List (List ℕ)) → m.phase ≡ 0 → Move m idle m (submitting list)
  manage :
      (malloc : List ℕ → ℕ) (list : List (List ℕ))
      → Move m
          (submitting list)
          (record m {
            queue = WriteQueue.manage_list malloc m.queue list;
            submitted = m.submitted ++ list;
          })
          entering
  enter : m.phase < 2 → Move m entering m marking
  leave : 2 ≤ m.phase → Move m entering m idle
  mark :
      Move m marking
        (record m { queue = (WriteQueue.mark m.queue).1 })
        (after_mark (WriteQueue.mark m.queue).0)
  end : m.phase ≡ 1 → Move m drained m ending
  go_on : m.phase ≢ 1 → Move m drained m idle
  begin : Move m starting (record m { writing = true }) idle
  complete : m.writing ≡ true → Move m idle (record m { writing = false }) finishing
  fail : m.writing ≡ true → Move m idle (record m { writing = false }) ending
  finish :
      Move m finishing
        (record m {
          queue = WriteQueue.clear_marked m.queue;
          written = m.written ++ contents m.queue.marked;
        })
        entering
  close_gracefully : m.phase ≡ 0 → Move m idle (record m { phase = 1 }) entering
  close_immediately : Move m idle (record m { phase = 2 }) idle
  -- `connect(ec, promise)` without an error stores `connected` whatever the status is.
  connected :
      Move m idle
        (record m { phase = 0; reopened = if m.phase == 0 then m.reopened else true })
        idle
  close_at_end : Move m ending (record m { phase = 2 }) idle

pub record System : Type 0 where
  pub shared : Shared
  pub pc : ℕ → Pc

pub data Step (n : ℕ) (s : System) : System → Type 0 where
  pick :
      (i : ℕ) {m : Shared} {p : Pc}
      → i < n
      → Move s.shared (s.pc i) m p
      → Step n s (record { shared = m; pc = set_at s.pc i p })

-- A session with an empty queue whose pool is that of `q`.
abbrev pub init : Manager → System
init q = record {
  shared = record {
    queue = record q { managed = []; marked = [] };
    phase = 0;
    reopened = false;
    writing = false;
    written = [];
    submitted = [];
  };
  pc = λ i. idle;
}

pub data Reach (n : ℕ) (q : Manager) : System → Type 0 where
  start : Reach n q (init q)
  later : {s t : System} → Reach n q s → Step n s t → Reach n q t
