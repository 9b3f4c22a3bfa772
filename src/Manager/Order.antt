-- ===== src/Manager/Order.antt =====
-- The order in which `session_manager::foreach` of src/session.cpp meets the sessions.
use minapp.Base.{
  ℕ, zero, suc, ◌+◌, ◌<◌, ◌≡◌, ◌⊎◌, refl, subst, Bool, true, false, Option, none, some, List, [],
  ◌∷◌, Option-cases, Bool-cases, inl, inr, arith,
}
use mathlib.Core.Option.{some-injective}
use minapp.Manager.{
  Ending, returned, threw_bad_weak_ptr, threw_by_callback, Called, continues, stops, throws, Visits,
  loop, foreach,
}

abbrev pub is_bad_weak_ptr : Ending → Bool
is_bad_weak_ptr (returned c) = false
is_bad_weak_ptr threw_bad_weak_ptr = true
is_bad_weak_ptr threw_by_callback = false

called_cases : (r : Called) → (r ≡ continues) ⊎ (r ≡ stops) ⊎ (r ≡ throws)
called_cases continues = inl refl
called_cases stops = inr (inl refl)
called_cases throws = inr (inr refl)

-- The numbers ascend from a bound on; the bound is none before the first.
pub data Ascends : Option ℕ → List ℕ → Type 0 where
  done : {b : Option ℕ} → Ascends b []
  first : {n : ℕ} {rest : List ℕ} → Ascends (some n) rest → Ascends none (n ∷ rest)
  next : {b n : ℕ} {rest : List ℕ} → b < n → Ascends (some n) rest → Ascends (some b) (n ∷ rest)

-- A session is above the bound.
abbrev Above : Option ℕ → ℕ → Type 0
Above none n = Unit
Above (some b) n = b < n

ascend :
    {bound : Option ℕ} {n : ℕ} {rest : List ℕ}
    → Above bound n
    → Ascends (some n) rest
    → Ascends bound (n ∷ rest)
ascend {bound = none} h a = first a
ascend {bound = some b} h a = next h a

module _ {Sessions : Type 0} (begin : Sessions → Option ℕ) (upper_bound : ℕ → Sessions → Option ℕ)
    (alive : ℕ → Sessions → Bool) (find : ℕ → Sessions → Option ℕ)
    (upper_bound-above : (id n : ℕ) (m : Sessions) → upper_bound id m ≡ some n → id < n)
    (f : ℕ → Sessions → Called × Sessions) where
  result-Ascends :
      {bound : Option ℕ} (q r : Visits Sessions)
      → some q ≡ some r
      → Ascends bound q.calls
      → Ascends bound r.calls
  result-Ascends {bound = bound} q r e =
      subst (λ (r : Visits Sessions). Ascends bound r.calls) (some-injective _ _ e)

  loop-Ascends :
      (fuel c : ℕ) (iter : Option ℕ) (locked : Bool) (m : Sessions) (bound : Option ℕ)
      (r : Visits Sessions)
      → ((n : ℕ) → iter ≡ some n → Above bound n)
      → loop find begin upper_bound alive f fuel c iter locked m ≡ some r
      → Ascends bound r.calls
  unfolding loop
  loop-Ascends zero c iter locked m bound r h e = cc
  loop-Ascends (suc fuel) c none locked m bound r h e = result-Ascends _ r e done
  loop-Ascends (suc fuel) c (some n) locked m bound r h e =
      let m' = (f n m).1 in
      elim (Bool-cases (alive n m)) [
        | inr dead ↦
            let q : Visits Sessions = record {
              ending = threw_bad_weak_ptr;
              locked = locked;
              sessions_after = m;
              calls = [];
            } in
            result-Ascends q r (ground (arith, e, dead)) done
        | inl live ↦ elim (called_cases (f n m).0) [
          | inr (inl x) ↦
              let q : Visits Sessions = record {
                ending = returned c;
                locked = false;
                sessions_after = m';
                calls = n ∷ [];
              } in
              result-Ascends q r (ground (arith, e, live, x)) (ascend (h n refl) done)
          | inr (inr x) ↦
              let q : Visits Sessions = record {
                ending = threw_by_callback;
                locked = false;
                sessions_after = m';
                calls = n ∷ [];
              } in
              result-Ascends q r (ground (arith, e, live, x)) (ascend (h n refl) done)
          | inl x ↦
              elim (Option-cases
                (loop find begin upper_bound alive f fuel (c + 1) (upper_bound n m') true m')) [
                  | inl y ↦ absurd (ground (arith, e, live, x, y))
                  | inr (q, y) ↦
                      let ih =
                        loop-Ascends fuel (c + 1) (upper_bound n m') true m' (some n) q
                          (λ k z. upper_bound-above n k m' z) y in
                      let q' : Visits Sessions = record q { calls = n ∷ q.calls } in
                      result-Ascends q' r (ground (arith, e, live, x, y)) (ascend (h n refl) ih)
                ]
        ]
      ]

  -- Whatever the callback does to the sessions, and where `upper_bound` gives a number above the
  -- one asked for, `session_manager::foreach`, where it ends, has called it with strictly
  -- ascending session numbers.
  pub foreach-Ascends :
      (fuel : ℕ) (m : Sessions) (r : Visits Sessions)
      → foreach find begin upper_bound alive f fuel m ≡ some r
      → Ascends none r.calls
  unfolding foreach
  foreach-Ascends fuel m r e = loop-Ascends fuel 0 (begin m) true m none r (λ n x. tt) e

module _ {Sessions : Type 0} (find : ℕ → Sessions → Option ℕ) (begin : Sessions → Option ℕ)
    (upper_bound : ℕ → Sessions → Option ℕ) (alive : ℕ → Sessions → Bool)
    (f : ℕ → Sessions → Called × Sessions) where
  -- The lock is free, or an exception has left it held, on a session that was being destroyed.
  pub Leaves : Visits Sessions → Type 0
  Leaves r =
      ((r.locked ≡ false) × (is_bad_weak_ptr r.ending ≡ false))
      ⊎ ((r.locked ≡ true)
          × (r.ending ≡ threw_bad_weak_ptr)
          × ((n : ℕ) × (m : Sessions) × (alive n m ≡ false)))
