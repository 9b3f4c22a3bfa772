-- ===== src/Object/Lock/Invariant.antt =====
-- What holds of the storage of an `object::atomic` and of the threads that share it.
use minapp.Base.{
  ℕ, ◌/◌, ◌%◌, ◌<◌, ◌≡◌, ◌⊎◌, ◌&&◌, Option, none, some, List, [], ◌∷◌, ◌==◌, if◌then◌else◌,
  sum_below,
}
use minapp.Object.Lock.{
  Access, new_value, Shared, Pc, switching, waiting, asleep, holding, storing, notifying,
  terminated,
}

-- An atomic object as its users see it: the accesses one after the other, from the handle `h`. None
-- if one has not loaded what the one before it has left.
unfoldable pub replay : ℕ → List (Access × ℕ) → Option ℕ
replay h [] = some h
replay h ((op, p) ∷ log) = elim (replay h log) [
  | none ↦ none
  | some q ↦ if q == p then some (new_value op p) else none
]

abbrev pub holds : Pc → ℕ
holds (holding p op) = 1
holds (storing p h op) = 1
holds p = 0

-- A thread in the lock whose handle is not the one stored, or that would store a wrong one.
abbrev pub strays : ℕ → Pc → ℕ
strays c (holding p op) = if p == c then 0 else 1
strays c (storing p h op) = if p == c && h == new_value op p then 0 else 1
strays c p = 0

-- A thread that has ended the program, or whose copy of the storage is not as its place asks.
abbrev pub misled : Pc → ℕ
misled terminated = 1
misled (switching v op) = if v % 4 == 3 then 1 else 0
misled (waiting v op) = if v % 4 == 2 then 0 else 1
misled (asleep v op) = if v % 4 == 2 then 0 else 1
misled p = 0

abbrev pub sleeps : Pc → ℕ
sleeps (asleep v op) = 1
sleeps p = 0

abbrev pub notifies : Pc → ℕ
notifies notifying = 1
notifies p = 0

pub record Inv (n h : ℕ) (m : Shared) (pc : ℕ → Pc) : Type 0 where
  pub tagged : m.storage % 4 < 3
  pub owned : sum_below holds n pc ≡ (if m.storage % 4 == 0 then 0 else 1)
  pub agreed : sum_below (strays (m.storage / 4)) n pc ≡ 0
  pub calm : sum_below misled n pc ≡ 0
  pub told : (sum_below sleeps n pc ≡ 0) ⊎ ((m.storage % 4 ≡ 2) ⊎ (0 < sum_below notifies n pc))
  pub legal : replay h m.log ≡ some (m.storage / 4)
