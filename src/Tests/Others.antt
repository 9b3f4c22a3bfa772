-- ===== src/Tests/Others.antt =====
-- A manager of two sessions.
use minapp.Base.{
  ℕ, ◌<◌, ◌≡◌, refl, Bool, true, false, Option, some, none, List, [], ◌∷◌, if◌then◌else◌, ltb,
  arith,
}
use minapp.Manager.{
  returned, threw_bad_weak_ptr, threw_by_callback, Called, continues, throws, Visits, foreach, loop,
}

-- A set of sessions is the list of their numbers, in ascending order.
abbrev next_above : ℕ → List ℕ → Option ℕ
next_above id [] = none
next_above id (n ∷ m) = let rest = next_above id m in if ltb id n then some n else rest

abbrev front : List ℕ → Option ℕ
front [] = none
front (n ∷ m) = some n

abbrev find : ℕ → List ℕ → Option ℕ
find id m = none

next_above-lt : (id n : ℕ) (m : List ℕ) → next_above id m ≡ some n → id < n
next_above-lt id n [] e = cc
next_above-lt id n (k ∷ m) e = ground (arith, next_above-lt id n m, e)

abbrev go_on : ℕ → List ℕ → Called × List ℕ
go_on id m = (continues, m)

abbrev give_up : ℕ → List ℕ → Called × List ℕ
give_up id m = (throws, m)

abbrev alive : ℕ → List ℕ → Bool
alive id m = ltb id 5

abbrev both : Visits (List ℕ)
both = record {
  ending = returned 2;
  locked = false;
  sessions_after = 2 ∷ 4 ∷ [];
  calls = 2 ∷ 4 ∷ [];
}

both_visited : foreach find front next_above alive go_on 9 (2 ∷ 4 ∷ []) ≡ some both
unfolding foreach loop
both_visited = refl

-- The second session is being destroyed.
abbrev broken_off : Visits (List ℕ)
broken_off = record {
  ending = threw_bad_weak_ptr;
  locked = true;
  sessions_after = 2 ∷ 6 ∷ [];
  calls = 2 ∷ [];
}

given_up :
    foreach find front next_above alive give_up 9 (2 ∷ 4 ∷ [])
    ≡ some (record {
      ending = threw_by_callback;
      locked = false;
      sessions_after = 2 ∷ 4 ∷ [];
      calls = 2 ∷ [];
    })
unfolding foreach loop
given_up = refl
