-- ===== src/WriteQueue/Ownership.antt =====
-- Which buffer object is where: no object is in two lists, or in one list twice, and each of the
-- cached objects is in exactly one.
use minapp.Base.{
  ℕ, zero, suc, ◌+◌, ◌-◌, ◌≤◌, ◌≡◌, refl, ◌∙◌, inl, inr, Bool, false, ◌&&◌, List, [], ◌∷◌, ◌++◌,
  map, arith, ltb, leb, ◌==◌, if◌then◌else◌, ==_iff, Bool-cases,
}
use minapp.WriteQueue.Fifo.{Op, add, add_list, start, finish, run, contents}
use minapp.WriteQueue.{
  PersistentBuffer, Manager, hold_buffer, manage, hold_list, manage_list, mark, free, free_buffer,
  dispose, clear_marked, construct, init,
}

abbrev pub addresses : List PersistentBuffer → List ℕ
addresses = map (λ p. p.address)

-- How often an address stands in a list.
abbrev pub count : ℕ → List ℕ → ℕ
count a [] = 0
count a (x ∷ xs) = (if a == x then 1 else 0) + count a xs

pub count-append : (a : ℕ) (xs ys : List ℕ) → count a (xs ++ ys) ≡ count a xs + count a ys
count-append a [] ys = omega arith
count-append a (x ∷ xs) ys = ground (arith, count-append a xs ys)

count-addresses :
    (a : ℕ) (ps qs : List PersistentBuffer)
    → count a (addresses (ps ++ qs)) ≡ count a (addresses ps) + count a (addresses qs)
count-addresses a [] qs = omega arith
count-addresses a (p ∷ ps) qs = ground (arith, count-addresses a ps qs)

-- `pool.free` takes one occurrence out.
count-free : (a x : ℕ) (xs : List ℕ) → count a (free x xs) ≡ count a xs - (if a == x then 1 else 0)
unfolding free
count-free a x [] = ground arith
count-free a x (y ∷ ys) = ground (arith, count-free a x ys, ==_iff a x, ==_iff x y, ==_iff a y)

-- How many objects of the three lists have this address.
abbrev pub held : Manager → ℕ → ℕ
held q a =
    count a (addresses q.cached) + (count a (addresses q.managed) + count a (addresses q.marked))

abbrev pub is_cached : Manager → ℕ → Bool
is_cached q a = leb q.first a && ltb a q.second

-- Every cached object is in one list, once; every other object in a list comes from the pool,
-- once; and the pool hands out no address of the cache. `loose` objects with the address `a` are
-- in the hands of the method that runs, and in none of the lists.
pub record IsOwned (loose : ℕ) (q : Manager) (a : ℕ) : Type 0 where
  pub once : loose + held q a ≡ (if is_cached q a then 1 else count a q.pool)
  pub distinct : count a q.pool ≤ 1
  pub apart : (if is_cached q a then count a q.pool else 0) ≡ 0

-- What `boost::pool` promises of `malloc`: an address that it has not handed out yet, outside the
-- block that it gave to the cache.
abbrev pub IsFresh : (List ℕ → ℕ) → ℕ → ℕ → Type 0
IsFresh malloc first second =
    (pool : List ℕ)
    → (count (malloc pool) pool ≡ 0) × (leb first (malloc pool) && ltb (malloc pool) second ≡ false)

abbrev one_if : ℕ → PersistentBuffer → ℕ
one_if a p = if a == p.address then 1 else 0

abbrev pub SameCache : Manager → Manager → Type 0
SameCache q q' = (q'.first ≡ q.first) × (q'.second ≡ q.second)

module _ (malloc : List ℕ → ℕ) (a : ℕ) where
  hold_split :
      (loose : ℕ) (q : Manager) (c : List ℕ) (cached : List PersistentBuffer)
      → q.cached ≡ cached
      → (count (malloc q.pool) q.pool ≡ 0) × (is_cached q (malloc q.pool) ≡ false)
      → IsOwned loose q a
      → let (p, q') = hold_buffer malloc q c in IsOwned (one_if a p + loose) q' a × SameCache q q'
  unfolding hold_buffer
  hold_split loose q c [] e fresh o = ground (arith, o, ==_iff a (malloc q.pool))
  hold_split loose q c (p ∷ rest) e fresh o = ground (arith, o)

  hold_list-IsOwned :
      (loose : ℕ) (q : Manager) (cs : List (List ℕ))
      → IsFresh malloc q.first q.second
      → IsOwned loose q a
      → let (tmp, q') = hold_list malloc q cs in
        IsOwned (count a (addresses tmp) + loose) q' a × SameCache q q'
  unfolding hold_list
  hold_list-IsOwned loose q [] fresh o = ground (arith, o)
  hold_list-IsOwned loose q (c ∷ cs) fresh o =
      let (p, q') = hold_buffer malloc q c in
      let h = hold_split loose q c q.cached refl (fresh q.pool) o in
      let fresh' : IsFresh malloc q'.first q'.second = rw (h.1.0, h.1.1) fresh in
      let t = hold_list-IsOwned (one_if a p + loose) q' cs fresh' h.0 in ground (arith, h, t)

  -- `manage` of one buffer keeps every object in one place.
  pub manage-IsOwned :
      (q : Manager) (c : List ℕ)
      → IsFresh malloc q.first q.second
      → IsOwned 0 q a
      → IsOwned 0 (manage malloc q c) a × SameCache q (manage malloc q c)
  unfolding manage
  manage-IsOwned q c fresh o =
      let (p, q') = hold_buffer malloc q c in
      ground (
        arith,
        hold_split 0 q c q.cached refl (fresh q.pool) o,
        count-addresses a q'.managed (p ∷ []),
      )

  -- `manage` of a list keeps every object in one place.
  pub manage_list-IsOwned :
      (q : Manager) (cs : List (List ℕ))
      → IsFresh malloc q.first q.second
      → IsOwned 0 q a
      → IsOwned 0 (manage_list malloc q cs) a × SameCache q (manage_list malloc q cs)
  unfolding manage_list
  manage_list-IsOwned q cs fresh o =
      let (tmp, q') = hold_list malloc q cs in
      ground (arith, hold_list-IsOwned 0 q cs fresh o, count-addresses a q'.managed tmp)

module _ (a : ℕ) where
  -- `mark` moves whole lists.
  pub mark-IsOwned : (q : Manager) → IsOwned 0 q a → IsOwned 0 (mark q).1 a × SameCache q (mark q).1
  unfolding mark
  mark-IsOwned q o = ground (arith, o)

  free-IsOwned :
      (loose : ℕ) (q : Manager) (p : PersistentBuffer)
      → IsOwned (one_if a p + loose) q a
      → IsOwned loose (free_buffer q p) a × SameCache q (free_buffer q p)
  unfolding free_buffer
  free-IsOwned loose q p o = elim (Bool-cases (is_cached q p.address)) [
    | inl e ↦ ground (arith, o, e, ==_iff a p.address)
    | inr e ↦ ground (arith, o, e, ==_iff a p.address, count-free a p.address q.pool)
  ]

  dispose-IsOwned :
      (q : Manager) (ps : List PersistentBuffer)
      → IsOwned (count a (addresses ps)) q a
      → IsOwned 0 (dispose q ps) a × SameCache q (dispose q ps)
  unfolding dispose
  dispose-IsOwned q [] o = (o, (refl, refl))
  dispose-IsOwned q (p ∷ ps) o =
      let f = free-IsOwned (count a (addresses ps)) q p o in
      let d = dispose-IsOwned (free_buffer q p) ps f.0 in (d.0, (d.1.0 ∙ f.1.0, d.1.1 ∙ f.1.1))

  -- `clear_marked` returns each object to where it came from.
  pub clear_marked-IsOwned :
      (q : Manager) → IsOwned 0 q a → IsOwned 0 (clear_marked q) a × SameCache q (clear_marked q)
  unfolding clear_marked
  clear_marked-IsOwned q o = dispose-IsOwned (record q { marked = [] }) q.marked (ground (arith, o))

  construct_count :
      (n p : ℕ) (ps : List PersistentBuffer)
      → count a (addresses (construct n p ps))
        ≡ (if leb p a && ltb a (p + n) then 1 else 0) + count a (addresses ps)
  unfolding construct
  construct_count zero p ps = ground arith
  construct_count (suc n) p ps =
      ground (arith, construct_count n (p + 1) (record { address = p; content = [] } ∷ ps))

  init-IsOwned : (p n : ℕ) → IsOwned 0 (init p n) a
  unfolding init
  init-IsOwned p n = ground (arith, construct_count n p [])

module _ (malloc : List ℕ → ℕ) (a : ℕ) where
  run-IsOwned' :
      (ops : List Op) (q : Manager) (written : List (List ℕ))
      → IsFresh malloc q.first q.second
      → IsOwned 0 q a
      → IsOwned 0 (run malloc q written ops).1 a
  unfolding run
  run-IsOwned' [] q written fresh o = o
  run-IsOwned' (add c ∷ ops) q written fresh o =
      let (o', same) = manage-IsOwned malloc a q c fresh o in
      run-IsOwned' ops (manage malloc q c) written (rw (same.0, same.1) fresh) o'
  run-IsOwned' (add_list cs ∷ ops) q written fresh o =
      let (o', same) = manage_list-IsOwned malloc a q cs fresh o in
      run-IsOwned' ops (manage_list malloc q cs) written (rw (same.0, same.1) fresh) o'
  run-IsOwned' (start ∷ ops) q written fresh o =
      let (o', same) = mark-IsOwned a q o in
      run-IsOwned' ops (mark q).1 written (rw (same.0, same.1) fresh) o'
  run-IsOwned' (finish ∷ ops) q written fresh o =
      let (o', same) = clear_marked-IsOwned a q o in
      run-IsOwned' ops (clear_marked q) (written ++ contents q.marked) (rw (same.0, same.1) fresh)
        o'

  -- From the constructor on, after any sequence of calls, with an allocator that never gives an
  -- address that it has handed out or that lies in the cache's block, every address of the block
  -- is held by exactly one of the three lists, once, and any other address as often as the pool
  -- has it handed out, at most once.
  pub run-IsOwned :
      (p n : ℕ) (ops : List Op)
      → IsFresh malloc p (p + n)
      → IsOwned 0 (run malloc (init p n) [] ops).1 a
  run-IsOwned p n ops fresh =
      run-IsOwned' ops (init p n) [] (unfold init in fresh) (init-IsOwned a p n)
