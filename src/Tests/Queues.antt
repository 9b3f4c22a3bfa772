-- ===== src/Tests/Queues.antt =====
-- A write queue with two objects in its cache, three buffers and one write.
use minapp.Base.{ℕ, ◌+◌, ◌<◌, ◌≡◌, refl, List, [], ◌∷◌, arith}
use minapp.WriteQueue.{Manager, init}
use minapp.WriteQueue.Fifo.{Op, add, add_list, start, finish, run}
use minapp.WriteQueue.Ownership.{count, IsOwned, IsFresh, run-IsOwned}

abbrev queue : Manager
unfolding init
queue = init 1000 2

abbrev calls : List Op
calls = add (1 ∷ []) ∷ add_list ((2 ∷ []) ∷ (3 ∷ []) ∷ []) ∷ start ∷ add (4 ∷ []) ∷ finish ∷ []

abbrev sum : List ℕ → ℕ
sum [] = 0
sum (x ∷ xs) = x + sum xs

-- An allocator that gives an address behind all that it has given.
abbrev next_address : List ℕ → ℕ
next_address pool = 1002 + sum pool

count-sum : (n : ℕ) (xs : List ℕ) → sum xs < n → count n xs ≡ 0
count-sum n [] h = refl
count-sum n (x ∷ xs) h = ground (arith, count-sum n xs, h)

next_address-IsFresh : IsFresh next_address 1000 1002
next_address-IsFresh pool = (count-sum (next_address pool) pool (omega arith), ground arith)

run-IsOwned_example : IsOwned 0 (run next_address (init 1000 2) [] calls).1 1001
run-IsOwned_example = run-IsOwned next_address 1001 1000 2 calls next_address-IsFresh
