-- ===== src/Tests/Views.antt =====
-- A program with an object and views of it, and one with vectors.
use minapp.Base.{
  ℕ, ◌+◌, ◌-◌, ◌*◌, ◌≤◌, ◌<◌, ◌≡◌, ◌≢◌, ◌⊎◌, ◌↔◌, ◌^◌, ◌++◌, refl, ◌&&◌, not, Bool, false, leb,
  Option, none, some, [], ◌∷◌, ◌==◌, if◌then◌else◌, arith, ltb,
}
use minapp.Object as object
use minapp.Object.Program.{make, MayApply}
use minapp.Object.Types.{object_cast}
use minapp.Object.Views as views
use minapp.Object.Views.Typed.{Views, Respects}
use minapp.Object.Views.Program.{
  plain, ptr_copies, ref_moves, ViewRuns, begin_views, step, MayView, apply_view, NewView,
}
use minapp.Object.Views.Safety.{view_access, apply_view_safe, ref_lem, RefMade}
use minapp.Object.Arrays.{
  Arrays, found, out_of_range, vec_size, Layout, create, delete_holder, new_size, vec_at,
  vec_assign_at,
}
use minapp.Object.Arrays.Lifetimes.{
  array_lifetimes, new_size_fits, follow, any_throws, no_memory, live, raw,
}
use minapp.Object.Arrays.Sharing.{assign_lem, assigned}

-- Variable 0 is an object; variables 1 and 2 are a pointer and a reference to a value of type 5.
abbrev restricted : Views
restricted i = if i == 0 then none else some 5

no_type : (type : ℕ) → ◌≡◌ {A = Option ℕ} none (some type) → type ≡ 5
no_type type e = cc

abbrev viewed : (m : object.Memory) × ViewRuns 3 restricted m
unfolding apply_view MayView MayApply Respects views.ptr_copy views.check_type object.copy_assign
    object.addref object.release object.construct object.create
viewed = (
  _,
  step (ptr_copies 5 1 0) (step (plain (make 0 5)) begin_views ((omega arith, refl), no_type) refl)
      (omega arith, omega arith, refl, refl) refl,
)

abbrev new_reference : NewView 3 restricted viewed.0 5 2 0
unfolding viewed
new_reference = (omega arith, omega arith, refl, refl)

view_access_example :
    ((viewed.0.var 1 ≡ none)
      × (views.arrow 5 1 viewed.0 ≡ views.threw views.bad_object_cast)
      × (views.call 5 1 viewed.0 ≡ views.threw views.object_not_fn)
      × (views.ref_value 5 1 viewed.0 ≡ views.undefined)
      × (object_cast 5 1 viewed.0 ≡ none))
    ⊎ ((a : ℕ) × (views.arrow 5 1 viewed.0 ≡ views.value a)
        × (views.call 5 1 viewed.0 ≡ views.value a)
        × (views.ref_value 5 1 viewed.0 ≡ views.value a)
        × (object_cast 5 1 viewed.0 ≡ some a))
view_access_example = view_access viewed.1 1 5 (omega arith) refl

apply_view_safe_example : apply_view (ref_moves 5 2 0) viewed.0 ≢ views.fault
unfolding MayView
apply_view_safe_example = apply_view_safe viewed.1 (ref_moves 5 2 0) new_reference

ref_lem_example :
    RefMade (views.ref_copy 5 2 0 viewed.0) 5 2 0 viewed.0
    × RefMade (views.ref_move 5 2 0 viewed.0) 5 2 0 viewed.0
ref_lem_example = ref_lem viewed.1 5 2 0 new_reference

-- An array of eight-byte elements behind a header of 24 bytes, of which the third throws.
abbrev eight_bytes : Layout
eight_bytes = record { element = 8; offset = 24; holder = 32 }

abbrev third : ℕ → Bool
third k = k == 2

-- There is memory for a kilobyte.
abbrev a_kilobyte : ℕ → Bool
a_kilobyte bytes = leb bytes 1024

array_lifetimes_example :
    let r = create a_kilobyte eight_bytes third 4 in
    (r.0 ≡ (views.is_length 4 && a_kilobyte (new_size eight_bytes 4) && not (any_throws third 0 4)))
    × ((r.0 ≡ false) ⊎ (24 + 4 * 8 ≤ new_size eight_bytes 4))
    × (follow 1 r.1 no_memory ≡ some (if r.0 then (if ltb 1 4 then live else raw) else no_memory))
    × (follow 1 (r.1 ++ (if r.0 then delete_holder 4 else [])) no_memory ≡ some no_memory)
array_lifetimes_example =
    array_lifetimes a_kilobyte eight_bytes third 4 1 (omega arith) (omega arith) (omega arith)

new_size_fits_example : (24 + 4 * 8 ≤ new_size eight_bytes 4) ↔ (32 + (4 - 1) * 8 < 2 ^ 64)
new_size_fits_example =
    new_size_fits eight_bytes 4 (omega arith) (omega arith) (omega arith) (omega arith)

-- Variables 0 and 1 hold the array of three numbers.
abbrev shared : Arrays ℕ
shared = record {
  memory = record {
    block = λ a. if a == 0 then some (record { refcount = 2; type = 5 }) else none;
    fresh = 1;
    var = λ i. if ltb i 2 then some 0 else none;
  };
  elements = λ a. 7 ∷ 8 ∷ 9 ∷ [];
}

assign_lem_example :
    ((vec_size 0 shared ≤ 2)
      × (vec_at 0 2 shared ≡ out_of_range)
      × (vec_assign_at 0 2 4 shared ≡ out_of_range))
    ⊎ ((2 < vec_size 0 shared)
        × ((old : ℕ) × (vec_at 0 2 shared ≡ found old))
        × ((s' : Arrays ℕ) × (vec_assign_at 0 2 4 shared ≡ found s')
            × ((j k' : ℕ) → vec_at j k' s' ≡ assigned 0 2 4 shared j k')))
assign_lem_example = assign_lem 0 2 4 shared
