-- ===== src/Manager.antt =====
-- `session_manager` of include/minapp/session_manager.hpp and src/session.cpp: the sessions that
-- are alive, in the order of their numbers. `boost::intrusive::set` belongs to Boost and is the
-- operations `find`, `begin` and `upper_bound` of the section. Each part between two locks is one
-- atomic step; the callback runs without the lock and may open and end sessions, so the set is
-- passed through it. `alive` tells whether the count of references to a session is above 0;
-- where it is not, because the session is being destroyed, `shared_from_this` throws
-- `std::bad_weak_ptr`.
pub mod Order
pub mod Registry
use minapp.Base.{
  ℕ, zero, suc, ◌+◌, ◌^◌, ◌%◌, Bool, true, false, Option, none, some, List, [], ◌∷◌, if◌then◌else◌,
  add_size,
}

-- The counter that numbers the sessions, an `unsigned long`: the number given and the next.
unfoldable pub next_id : ℕ → ℕ × ℕ
next_id id = (id, add_size id 1)

-- What `get` returns or throws.
pub data Found : Type 0 where
  no_session : Found
  session_ptr : ℕ → Found
  bad_weak_ptr : Found

-- How `foreach` ends: it returns the number of calls, or `shared_from_this` or the callback throws.
pub data Ending : Type 0 where
  returned : ℕ → Ending
  threw_bad_weak_ptr : Ending
  threw_by_callback : Ending

-- What `foreach` comes to: its end, whether the lock is then held, the sessions, and the numbers of
-- those that the callback has got.
pub record Visits (S : Type 0) : Type 0 where
  pub ending : Ending
  pub locked : Bool
  pub sessions_after : S
  pub calls : List ℕ

-- What the callback does: it returns a Boolean, or throws.
pub data Called : Type 0 where
  continues : Called
  stops : Called
  throws : Called

-- `guard.lock()` and `guard.unlock()`
abbrev pub lock : Bool → Bool
lock held = true

abbrev pub unlock : Bool → Bool
unlock held = false

module _ {Sessions : Type 0} (find : ℕ → Sessions → Option ℕ) (begin : Sessions → Option ℕ)
    (upper_bound : ℕ → Sessions → Option ℕ) (alive : ℕ → Sessions → Bool) where
  unfoldable pub get : ℕ → Sessions → Found
  get id m = elim (find id m) [
    | none ↦ no_session
    | some session ↦ if alive session m then session_ptr session else bad_weak_ptr
  ]

  module _ (f : ℕ → Sessions → Called × Sessions) where
    -- The loop with `c` calls behind it; `locked` is the state of `guard`.
    unfoldable pub loop : ℕ → ℕ → Option ℕ → Bool → Sessions → Option (Visits Sessions)
    loop zero c iter locked m = none
    loop (suc fuel) c none locked m =
        some
          (record { ending = returned c; locked = unlock locked; sessions_after = m; calls = [] })
    loop (suc fuel) c (some session) locked m =
        let unlocked = unlock locked in
        let (result, m') = f session m in
        let rest = loop fuel (c + 1) (upper_bound session m') (lock unlocked) m' in
        if alive session m
        then elim result [
          | continues ↦ elim rest [
            | none ↦ none
            | some r ↦ some (record r { calls = session ∷ r.calls })
          ]
          | stops ↦ some (record {
            ending = returned c;
            locked = unlocked;
            sessions_after = m';
            calls = session ∷ [];
          })
          | throws ↦ some (record {
            ending = threw_by_callback;
            locked = unlocked;
            sessions_after = m';
            calls = session ∷ [];
          })
        ]
        else some (record {
          ending = threw_bad_weak_ptr;
          locked = locked;
          sessions_after = m;
          calls = [];
        })

    unfoldable pub foreach : ℕ → Sessions → Option (Visits Sessions)
    unfolding loop
    foreach fuel m = loop fuel 0 (begin m) (lock false) m
