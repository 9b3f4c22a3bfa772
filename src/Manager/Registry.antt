-- ===== src/Manager/Registry.antt =====
-- How sessions come into the set of `session_manager` and leave it: the constructors and the
-- destructor of `session_impl` in src/session.cpp. Any number of threads create and destroy
-- sessions; what one of them does between two locks, and the access to the counter, is one step.
-- A session is its number.
pub mod Listed
use minapp.Base.{
  ◌-◌, ℕ, zero, suc, ◌+◌, ◌<◌, ◌≤◌, ◌≡◌, ◌^◌, ◌%◌, refl, ap, sym, ◌∙◌, Bool, true, false, Option,
  none, some, ◌==◌, if◌then◌else◌, arith, set_at, add_size, Bool-cases, inl, inr,
}
use minapp.Manager.{Found, no_session, session_ptr, bad_weak_ptr, next_id, get}

-- `boost::intrusive::set<session_impl, ...>` with the laws that the manager uses: a session whose
-- number is there already is not inserted.
pub record SessionSet : Type 1 where
  pub Sessions : Type 0
  pub empty : Sessions
  pub find : ℕ → Sessions → Option ℕ
  pub insert : ℕ → Sessions → Sessions
  pub erase : ℕ → Sessions → Sessions
  pub find-empty : (id : ℕ) → find id empty ≡ none
  pub find-insert :
      (id i : ℕ) (m : Sessions) → find id (insert i m) ≡ (if i == id then some i else find id m)
  pub find-erase :
      (id i : ℕ) (m : Sessions) → find id (erase i m) ≡ (if i == id then none else find id m)

-- A session before its base class is constructed, before and after its registration, and from its
-- destructor on.
pub data Stage : Type 0 where
  unborn numbered registered gone : Stage

module _ (boost : SessionSet) where
  pub record Registry : Type 0 where
    -- the counter `id`, of all managers
    pub counter : ℕ
    pub sessions : boost.Sessions
    pub stage : ℕ → Stage
    -- the sessions that have been created so far
    pub created : ℕ

  abbrev pub start : Registry
  start = record { counter = 1; sessions = boost.empty; stage = λ id. unborn; created = 0 }

  -- `session::session` takes a number.
  unfoldable pub take_number : Registry → Registry
  unfolding next_id
  take_number r = record r {
    counter = (next_id r.counter).1;
    stage = set_at r.stage (next_id r.counter).0 numbered;
    created = r.created + 1;
  }

  -- `session_impl::session_impl`
  unfoldable pub register : ℕ → Registry → Registry
  register id r = record r {
    sessions = boost.insert id r.sessions;
    stage = set_at r.stage id registered;
  }

  -- `session_impl::~session_impl`
  unfoldable pub unregister : ℕ → Registry → Registry
  unregister id r = record r {
    sessions = boost.erase id r.sessions;
    stage = set_at r.stage id gone;
  }

  pub data Step : Registry → Registry → Type 0 where
    takes : (r : Registry) → Step r (take_number r)
    registers : (r : Registry) (id : ℕ) → r.stage id ≡ numbered → Step r (register id r)
    unregisters : (r : Registry) (id : ℕ) → r.stage id ≡ registered → Step r (unregister id r)

  pub data Reach : Registry → Type 0 where
    here : Reach start
    next : {r r' : Registry} → Reach r → Step r r' → Reach r'

  abbrev pub entry : ℕ → Stage → Option ℕ
  entry id unborn = none
  entry id numbered = none
  entry id registered = some id
  entry id gone = none

  -- While the counter has not come round: the numbers from the counter on have not been given, and
  -- the set holds the sessions that are registered.
  pub record IsSound (r : Registry) : Type 0 where
    pub counted : r.counter ≡ r.created + 1
    pub fresh : (id : ℕ) → r.counter ≤ id → r.stage id ≡ unborn
    pub held : (id : ℕ) → boost.find id r.sessions ≡ entry id (r.stage id)

  created_grows : {r r' : Registry} → Step r r' → r.created ≤ r'.created
  unfolding take_number register unregister
  created_grows (takes r) = omega arith
  created_grows (registers r id e) = omega arith
  created_grows (unregisters r id e) = omega arith

  step-IsSound : {r r' : Registry} → Step r r' → r'.created < 2 ^ 64 - 1 → IsSound r → IsSound r'
  unfolding take_number register unregister next_id
  step-IsSound (takes r) few v = record {
    counted = omega (arith, v.counted);
    fresh = λ id h. ground (arith, v.counted, v.fresh id (omega (arith, v.counted)));
    held = λ id. elim (Bool-cases (r.counter == id)) [
      | inl e ↦ ground (arith, e, v.held id, v.fresh id (ground (arith, e)))
      | inr e ↦ ground (arith, e, v.held id)
    ];
  }
  step-IsSound (registers r id e) few v = record {
    counted = v.counted;
    fresh = λ j h. ground (arith, v.fresh j h, e);
    held = λ j. boost.find-insert j id r.sessions ∙ ground (arith, v.held j);
  }
  step-IsSound (unregisters r id e) few v = record {
    counted = v.counted;
    fresh = λ j h. ground (arith, v.fresh j h, e);
    held = λ j. boost.find-erase j id r.sessions ∙ ground (arith, v.held j);
  }

  Reach-IsSound : {r : Registry} → Reach r → r.created < 2 ^ 64 - 1 → IsSound r
  Reach-IsSound here few = record {
    counted = refl;
    fresh = λ id h. refl;
    held = λ id. boost.find-empty id;
  }
  Reach-IsSound (next reach st) few =
      step-IsSound st few (Reach-IsSound reach (omega (arith, created_grows st)))

  -- What `get` finds of a session in a stage.
  abbrev pub found_in : Stage → Bool → ℕ → Found
  found_in unborn alive id = no_session
  found_in numbered alive id = no_session
  found_in registered alive id = if alive then session_ptr id else bad_weak_ptr
  found_in gone alive id = no_session

  module _ (begin : boost.Sessions → Option ℕ) (upper_bound : ℕ → boost.Sessions → Option ℕ) where
    get-entry :
        (alive : ℕ → boost.Sessions → Bool) (id : ℕ) (m : boost.Sessions) (st : Stage)
        → boost.find id m ≡ entry id st
        → get boost.find begin upper_bound alive id m ≡ found_in st (alive id m) id
    unfolding get
    get-entry alive id m unborn e = rw (e, get) refl
    get-entry alive id m numbered e = rw (e, get) refl
    get-entry alive id m registered e = rw (e, get) refl
    get-entry alive id m gone e = rw (e, get) refl

    -- In every state that threads which create and destroy sessions come to, while fewer than 2^64
    -- - 1 have been created: the next number of the counter belongs to no session, and
    -- `session_manager::get` finds, whatever number it is asked for, the session that is
    -- registered under it, if one is, and throws `bad_weak_ptr` if that is not alive any more.
    pub get_registered :
        (alive : ℕ → boost.Sessions → Bool) {r : Registry}
        → Reach r
        → r.created < 2 ^ 64 - 1
        → (r.stage (next_id r.counter).0 ≡ unborn)
          × ((id : ℕ)
              → get boost.find begin upper_bound alive id r.sessions
                ≡ found_in (r.stage id) (alive id r.sessions) id)
    unfolding next_id
    get_registered alive {r} reach few =
        let v = Reach-IsSound reach few in
        (
          v.fresh r.counter (omega arith),
          λ id. get-entry alive id r.sessions (r.stage id) (v.held id),
        )
