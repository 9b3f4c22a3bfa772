-- ===== src/Tests/Endings.antt =====
-- A session that reads what is in its buffer, one that connects, and two sessions that are
-- registered.
use minapp.Base.{
  if◌then◌else◌, ℕ, ◌≡◌, refl, Bool, true, Option, none, some, List, [], ◌∷◌, ltb, arith,
}
use minapp.WriteQueue
use minapp.Session.{Session, Event, connected, init, read}
use minapp.Session.Lifecycle.{IsConsistent, IsTame, Goes}
use minapp.Session.Termination.{IsTerse, read_ends}
use minapp.Session.Promise.{Connected, connect_with, connect_ends, throws, EndsAs}
use minapp.Manager.{get, next_id}
use minapp.Manager.Registry.{
  Registry, start, take_number, register, takes, registers, Reach, here, next, found_in, unborn,
  get_registered,
}
use minapp.Manager.Registry.Listed.{listed}

abbrev quiet : Event → Session → Session
quiet e s = s

quiet-IsTame : IsTame quiet
quiet-IsTame = record { forward = λ e s. omega arith; consistent = λ e s v. v }

quiet-IsTerse : IsTerse quiet
quiet-IsTerse = record { adds_nothing = λ e s. omega arith; leaves_room = λ e s h. h }

abbrev begun : Session
unfolding init WriteQueue.init WriteQueue.construct
begun = init 1 (WriteQueue.init 1000 2)

begun-IsConsistent : IsConsistent begun
unfolding begun init WriteQueue.init WriteQueue.construct
begun-IsConsistent = record {
  once = refl;
  socket_closed = refl;
  receive_shut = refl;
  no_spurious = refl;
  no_stall = refl;
}

-- Three bytes are there, which the protocol `any` takes as one message.
abbrev filled : Session
unfolding begun
filled = record begun {
  status = connected;
  buf = record {
    storage = 5 ∷ 6 ∷ 7 ∷ [];
    external_input_size = 0;
    internal_input_size = 3;
    view = record { begin = 0; size = 0 };
  };
}

filled-IsConsistent : IsConsistent filled
unfolding filled begun init WriteQueue.init WriteQueue.construct
filled-IsConsistent = record {
  once = refl;
  socket_closed = refl;
  receive_shut = refl;
  no_spurious = refl;
  no_stall = refl;
}

read_ends_example : (s' : Session) × (read quiet 100000 4 filled ≡ some s') × Goes filled s'
unfolding filled begun init
read_ends_example =
    read_ends quiet quiet-IsTerse 100000 quiet-IsTame 4 filled (omega arith) (omega arith)
      (omega arith) filled-IsConsistent

connect_ends_example :
    (c : Connected) × (connect_with quiet 100000 true 1 begun none ≡ some c)
    × Goes begun c.session
    × EndsAs (throws quiet 100000 true 1 begun) none c
unfolding begun init
connect_ends_example =
    connect_ends quiet 100000 quiet-IsTame quiet-IsTerse true 1 begun none begun-IsConsistent refl
      (omega arith) (omega arith) (omega arith)

-- The first session is registered, the second has its number only.
abbrev one_registered : (r : Registry listed) × Reach listed r
unfolding take_number register next_id
one_registered = (
  _,
  next (next (next here (takes (start listed))) (takes (take_number listed (start listed))))
      (registers (take_number listed (take_number listed (start listed))) 1 refl),
)

abbrev all_alive : ℕ → List ℕ → Bool
all_alive id m = true

abbrev first_of : List ℕ → Option ℕ
first_of [] = none
first_of (x ∷ xs) = some x

abbrev above : ℕ → List ℕ → Option ℕ
above id [] = none
above id (x ∷ xs) = if ltb id x then some x else above id xs

get_registered_example :
    (one_registered.0.stage (next_id one_registered.0.counter).0 ≡ unborn)
    × ((id : ℕ)
        → get listed.find first_of above all_alive id one_registered.0.sessions
          ≡ found_in listed (one_registered.0.stage id) (all_alive id one_registered.0.sessions) id)
unfolding one_registered take_number register next_id
get_registered_example =
    get_registered listed first_of above all_alive one_registered.1 (omega arith)
