-- ===== src/Tests/Services.antt =====
-- A function to call once, an acceptor of two connections, of which only the first has a peer, and
-- threads at a spinlock.
use minapp.Base.{ℕ, ◌+◌, ◌≡◌, refl, Bool, true, false, ◌==◌, Option, none, some, [], ◌∷◌, arith}
use minapp.Handler.{ErrorCode, error, close, Outcome, threw_other, system}
use minapp.Service.Callback.{serve, callback_is_called_once}
use minapp.Service.Accepting as acceptor
use minapp.Service.Accepting.{Served, serve_lem}
use minapp.Service.{HandlerPtr, Acceptor, create_acceptor, create, accept}
use minapp.Session as session
use minapp.Session.Promise.{Connected, connect_with}
use minapp.Session.{Event, Session, init}
use minapp.Reader as reader
use minapp.Reader.{Errc}
use minapp.WriteQueue as queue
use minapp.Spinlock.{enter, take, refuse, sleep, System, pick, Reach, start, later}
use minapp.Spinlock.Safety.{guard_excludes}

-- The function throws whatever it is given.
abbrev fails : Option ErrorCode → ℕ → Outcome × ℕ
fails ec n = (threw_other, n + 1)

callback_is_called_once_example :
    (serve
      (λ n. 0)
      (λ call n. n)
      fails
      (close ∷ error (system 5) ∷ error (system 6) ∷ [])
      (record { conn = true; called = []; user = 7 })).called
    ≡ some (system 5) ∷ []
callback_is_called_once_example =
    callback_is_called_once (λ n. 0) (λ call n. n) fails
      (close ∷ error (system 5) ∷ error (system 6) ∷ []) 7

abbrev idle : HandlerPtr → Event → Session → Session
idle handler e s = s

abbrev queue_of_two : queue.Manager
unfolding queue.init queue.construct
queue_of_two = queue.init 1000 2

abbrev listening : Acceptor
unfolding create_acceptor create accept
listening = accept (create_acceptor (some 3) 1)

abbrev has_peer : ℕ → Bool
has_peer id = id == 1

connects :
    (there : Bool) (id : ℕ)
    → (c : Connected) × (connect_with (λ e s'. s') 100000 there 2 (init id queue_of_two) none
        ≡ some c)
unfolding connect_with minapp.Session.Promise.connect_reads minapp.Session.Promise.read_throws
    minapp.Session.Promise.once_throws init session.read session.read_once session.act session.call
    reader.start reader.dispatch reader.read_some minapp.Buffer.internal_input_buffer
    minapp.Buffer.mark_current_external_input minapp.Protocol.has_options
    minapp.Buffer.consume_whole_external_input minapp.Buffer.prepare_output_buffer
connects true id = (_, refl)
connects false id = (_, refl)

serve_lem_example :
    (a : Acceptor) × (acceptor.serve queue_of_two idle 100000 2 has_peer
        (none ∷ none ∷ some (reader.system 125) ∷ [])
        listening
      ≡ some a)
    × Served queue_of_two idle 100000 2 has_peer
        (none ∷ none ∷ some (reader.system 125) ∷ [])
        listening
        a
unfolding listening
serve_lem_example =
    serve_lem queue_of_two idle 100000 2 has_peer (none ∷ none ∷ some (reader.system 125) ∷ [])
      listening refl (λ id. connects (has_peer id) id)

-- Thread 0 has the lock, thread 1 sleeps.
contended : (s : System) × Reach 2 s
contended = (
  _,
  later
      (later
        (later (later (later start (pick 0 (omega arith) enter)) (pick 0 (omega arith) (take refl)))
          (pick 1 (omega arith) enter))
        (pick 1 (omega arith) (refuse refl)))
      (pick 1 (omega arith) (sleep refl)),
)

guard_excludes_example : ◌≡◌ {A = ℕ} 0 0
unfolding contended
guard_excludes_example = guard_excludes contended.1 0 0 (omega arith) (omega arith) refl refl
