-- ===== src/Tests/Objects.antt =====
-- A program with three objects.
use minapp.Base.{ℕ, ◌≡◌, ◌==◌, if◌then◌else◌, refl, none, some, arith, sum_below, leb}
use minapp.Object.{Memory, construct, create, copy_construct, copy_assign, addref, release}
use minapp.Object.Types.{object_cast, object_cast_stable}
use minapp.Object.Counting.{points_to, count_of, is_allocated}
use minapp.Object.Program.{apply, MayApply, Runs, begin, next, make, copy, assign, Runs-count_of}

-- Variables 0 and 1 hold a first object, variable 2 a second one.
made : (m : Memory) × Runs 3 m
unfolding apply MayApply construct create copy_construct addref
made = (
  _,
  next (make 2 6)
      (next (copy 1 0) (next (make 0 5) begin (omega arith, refl) refl)
        (omega arith, omega arith, refl) refl)
      (omega arith, refl) refl,
)

Runs-count_of_example :
    (count_of (made.0.block 0) ≡ sum_below (points_to 0) 3 made.0.var)
    × (is_allocated (made.0.block 0) ≡ leb 1 (sum_below (points_to 0) 3 made.0.var))
Runs-count_of_example = Runs-count_of made.1 0

-- Variable 0 is given the object of variable 2.
assigned : (m : Memory) × (apply (assign 0 2) made.0 ≡ some m)
unfolding made apply copy_assign addref release
assigned = (_, refl)

object_cast_stable_example :
    (held : ℕ) × ((type : ℕ)
      → (object_cast type 0 made.0 ≡ (if held == type then some 0 else none))
        × (object_cast type 1 assigned.0 ≡ (if held == type then some 0 else none)))
unfolding MayApply made assigned
object_cast_stable_example =
    object_cast_stable made.1 (assign 0 2) (omega arith, omega arith) assigned.1 0 1 0 (omega arith)
      (omega arith) refl refl
