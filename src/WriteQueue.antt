-- ===== src/WriteQueue.antt =====
-- `class persistent_buffer_manager` of include/minapp/persistent_buffer_manager.hpp: the buffers
-- that wait to be written, those being written, and the cache of buffer objects.
-- A `persistent_buffer` is its address with the bytes that it keeps; the address is counted in
-- objects. `boost::pool`, which belongs to Boost, is the list of the addresses that it has handed
-- out one by one and the function `malloc` that chooses the next. Each method is one atomic step,
-- as its spinlocks make it for the lists that it touches.
pub mod Fifo
pub mod Ownership
use minapp.Base.{
  ℕ, zero, suc, ◌+◌, ◌-◌, ◌^◌, Bool, true, false, ◌&&◌, List, [], ◌∷◌, ◌++◌, map, ltb, leb, ◌==◌,
  if◌then◌else◌,
}

pub record PersistentBuffer : Type 0 where
  pub address : ℕ
  pub content : List ℕ

-- The result of `mark`, a `long`: `negsuc n` is -(n + 1).
pub data ℤ : Type 0 where
  pos : ℕ → ℤ
  negsuc : ℕ → ℤ

abbrev pub negate : ℕ → ℤ
negate zero = pos 0
negate (suc n) = negsuc n

-- `std::numeric_limits<long>::max()`
abbrev pub long_max : ℕ
long_max = 2 ^ 63 - 1

pub record Manager : Type 0 where
  -- `cached_buffers_pool.first` and `.second`
  pub first : ℕ
  pub second : ℕ
  pub pool : List ℕ
  pub cached : List PersistentBuffer
  pub managed : List PersistentBuffer
  pub marked : List PersistentBuffer
  pub marker : ℕ

-- The loop of the constructor: `n` objects from `p` on, each pushed to the front.
unfoldable pub construct : ℕ → ℕ → List PersistentBuffer → List PersistentBuffer
construct zero p cached = cached
construct (suc n) p cached = construct n (p + 1) (record { address = p; content = [] } ∷ cached)

-- The constructor, where `ordered_malloc` has returned `p`.
unfoldable pub init : ℕ → ℕ → Manager
unfolding construct
init p n = record {
  first = p;
  second = p + n;
  pool = [];
  cached = construct n p [];
  managed = [];
  marked = [];
  marker = 0;
}

-- `pool.free`
unfoldable pub free : ℕ → List ℕ → List ℕ
free a [] = []
free a (x ∷ xs) = if a == x then xs else x ∷ free a xs

module _ (malloc : List ℕ → ℕ) where
  unfoldable pub hold_buffer : Manager → List ℕ → PersistentBuffer × Manager
  hold_buffer q content = elim q.cached [
    | [] ↦
        let p = malloc q.pool in
        (record { address = p; content = content }, record q { pool = p ∷ q.pool })
    | p ∷ rest ↦ (record p { content = content }, record q { cached = rest })
  ]

  -- `manage(persistent_buffer&)`
  unfoldable pub manage : Manager → List ℕ → Manager
  manage q content =
      let (p, q') = hold_buffer q content in record q' { managed = q'.managed ++ (p ∷ []) }

  -- The loop that copies a list into `tmp`.
  unfoldable pub hold_list : Manager → List (List ℕ) → List PersistentBuffer × Manager
  hold_list q [] = ([], q)
  hold_list q (content ∷ contents) =
      let (p, q') = hold_buffer q content in
      let (tmp, q'') = hold_list q' contents in (p ∷ tmp, q'')

  -- `manage(persistent_buffer_list&)`, and `manage(Buffers&&...)` of two or more buffers, whose
  -- objects are taken in the order of the arguments.
  unfoldable pub manage_list : Manager → List (List ℕ) → Manager
  unfolding hold_list
  manage_list q contents =
      let (tmp, q') = hold_list q contents in record q' { managed = q'.managed ++ tmp }

  -- `manage` of one or more buffers: the overload for one, or the template for more.
  unfoldable pub manage_buffers : Manager → List ℕ → List (List ℕ) → Manager
  unfolding manage manage_list
  manage_buffers q b [] = manage q b
  manage_buffers q b (c ∷ cs) = manage_list q (b ∷ c ∷ cs)

unfoldable pub mark : Manager → ℤ × Manager
mark q = elim q.marked [
  | p ∷ rest ↦ (negate q.marker, q)
  | [] ↦ elim q.managed [
    | [] ↦ (pos 0, q)
    | p ∷ rest ↦
        let marker = if q.marker == long_max then 1 else q.marker + 1 in
        (pos marker, record q { marked = q.managed; managed = []; marker = marker })
  ]
]

unfoldable pub free_buffer : Manager → PersistentBuffer → Manager
unfolding free
free_buffer q p =
    if leb q.first p.address && ltb p.address q.second
    then record q { cached = record p { content = [] } ∷ q.cached }
    else record q { pool = free p.address q.pool }

-- `clear_and_dispose`: each element is unlinked and then disposed of.
unfoldable pub dispose : Manager → List PersistentBuffer → Manager
dispose q [] = q
dispose q (p ∷ rest) = dispose (free_buffer q p) rest

unfoldable pub clear_marked : Manager → Manager
clear_marked q = dispose (record q { marked = [] }) q.marked
