-- ===== src/Object/Flow.antt =====
-- Where the pointers of the variables come from in the operations of `object` and `object::atomic`.
use minapp.Base.{
  ℕ, ◌≡◌, refl, ap, ◌∙◌, Option, none, some, if◌then◌else◌, set_at, Option-cases, Bool-cases, inl,
  inr, subst,
}
use minapp.Object.{
  Handle, Memory, same_handle, set_var, addref, release, construct, create, copy_construct,
  move_construct, destroy, copy_assign, move_assign, swap, emplace, load, exchange, store,
  compare_exchange,
}
use minapp.Object.Program.{
  Op, apply, make, copy, move, drop, assign, assign_move, exchange_vars, replace, atomic_load,
  atomic_exchange, atomic_store, atomic_compare,
}

-- The variables after an operation.
unfoldable pub vars_after : Op → Memory → ℕ → Handle
vars_after (make i type) m = set_at m.var i (some m.fresh)
vars_after (copy i j) m = set_at m.var i (m.var j)
vars_after (move i j) m = set_at (set_at m.var i (m.var j)) j none
vars_after (drop i) m = set_at m.var i none
vars_after (assign i j) m =
    if same_handle (m.var i) (m.var j) then m.var else set_at m.var i (m.var j)
vars_after (assign_move i j) m =
    if same_handle (m.var i) (m.var j) then m.var else set_at (set_at m.var j none) i (m.var j)
vars_after (exchange_vars i j) m = set_at (set_at m.var j (m.var i)) i (m.var j)
vars_after (replace i type) m = set_at m.var i (some m.fresh)
vars_after (atomic_load i s) m = set_at m.var i (m.var s)
vars_after (atomic_exchange i s d) m = set_at (set_at (set_at m.var d none) s (m.var d)) i (m.var s)
vars_after (atomic_store s d) m = set_at (set_at m.var d none) s (m.var d)
vars_after (atomic_compare s x d) m =
    if same_handle (m.var s) (m.var x)
    then set_at (set_at m.var d none) s (m.var d)
    else set_at (set_at m.var x (m.var s)) d none

-- The variables of the memory that a step returns, if it returns one.
abbrev VarsAre : (ℕ → Handle) → Option Memory → Type 0
VarsAre var none = Unit
VarsAre var (some m) = m.var ≡ var

addref_vars : (h : Handle) (m : Memory) → VarsAre m.var (addref h m)
unfolding addref
addref_vars none m = refl
addref_vars (some a) m = elim (Option-cases (m.block a)) [
  | inl x ↦ rw (x, addref) tt
  | inr (b, x) ↦ rw (x, addref) refl
]

release_vars : (h : Handle) (m : Memory) → VarsAre m.var (release h m)
unfolding release
release_vars none m = refl
release_vars (some a) m = elim (Option-cases (m.block a)) [
  | inl x ↦ rw (x, release) tt
  | inr (b, x) ↦ rw (x, release) refl
]

-- The result is the one that is at hand.
known :
    {var : ℕ → Handle} {r : Option Memory} {m : Memory} → VarsAre var r → r ≡ some m → m.var ≡ var
known {var} v e = subst (VarsAre var) e v

module _ (m : Memory) where
  -- A release after the pointers have been set.
  then_release :
      (h : Handle) (var : ℕ → Handle) (m' : Memory) → m'.var ≡ var → VarsAre var (release h m')
  then_release h var m' e =
      subst (λ (v : ℕ → Handle). VarsAre v (release h m')) e (release_vars h m')

  copy_vars : (i j : ℕ) → VarsAre (set_at m.var i (m.var j)) (copy_construct i j m)
  unfolding copy_construct
  copy_vars i j = elim (Option-cases (addref (m.var j) m)) [
    | inl e ↦ rw (e, copy_construct) tt
    | inr (m', e) ↦
        rw (e, copy_construct)
          (ap (λ (v : ℕ → Handle). set_at v i (m.var j)) (known (addref_vars (m.var j) m) e))
  ]

  copy_assign_vars : (i j : ℕ) → VarsAre (vars_after (assign i j) m) (copy_assign i j m)
  unfolding copy_assign vars_after
  copy_assign_vars i j = elim (Bool-cases (same_handle (m.var i) (m.var j))) [
    | inl e ↦ rw (e, copy_assign) refl
    | inr e ↦ elim (Option-cases (addref (m.var j) m)) [
      | inl f ↦ rw (e, copy_assign, f) tt
      | inr (m', f) ↦
          rw (e, copy_assign, f)
            (then_release (m.var i) _ (set_var i (m.var j) m')
              (ap (λ (v : ℕ → Handle). set_at v i (m.var j)) (known (addref_vars (m.var j) m) f)))
    ]
  ]

  move_assign_vars : (i j : ℕ) → VarsAre (vars_after (assign_move i j) m) (move_assign i j m)
  unfolding move_assign vars_after
  move_assign_vars i j = elim (Bool-cases (same_handle (m.var i) (m.var j))) [
    | inl e ↦ rw (e, move_assign) refl
    | inr e ↦ rw (e, move_assign) (release_vars (m.var i) (set_var i (m.var j) (set_var j none m)))
  ]

  compare_vars :
      (s x d : ℕ) → VarsAre (vars_after (atomic_compare s x d) m) (compare_exchange s x d m)
  unfolding compare_exchange vars_after
  compare_vars s x d = elim (Bool-cases (same_handle (m.var s) (m.var x))) [
    | inl e ↦
        rw (e, compare_exchange) (release_vars (m.var s) (set_var s (m.var d) (set_var d none m)))
    | inr e ↦ elim (Option-cases (addref (m.var s) m)) [
      | inl f ↦ rw (e, compare_exchange, f) tt
      | inr (m', f) ↦ elim (Option-cases (release (m.var x) (set_var x (m.var s) m'))) [
        | inl g ↦ rw (e, compare_exchange, f, g) tt
        | inr (m'', g) ↦
            rw (e, compare_exchange, f, g)
              (then_release (m.var d) _ (set_var d none m'') (
                ap (λ (v : ℕ → Handle). set_at v d none)
                  (known (release_vars (m.var x) (set_var x (m.var s) m')) g
                    ∙ ap (λ (v : ℕ → Handle). set_at v x (m.var s))
                        (known (addref_vars (m.var s) m) f))))
      ]
    ]
  ]

  apply_vars : (op : Op) → VarsAre (vars_after op m) (apply op m)
  unfolding apply vars_after construct create move_construct destroy swap emplace load exchange
      store
  apply_vars (make i type) = refl
  apply_vars (copy i j) = copy_vars i j
  apply_vars (move i j) = refl
  apply_vars (drop i) = release_vars (m.var i) (set_var i none m)
  apply_vars (assign i j) = copy_assign_vars i j
  apply_vars (assign_move i j) = move_assign_vars i j
  apply_vars (exchange_vars i j) = refl
  apply_vars (replace i type) =
      release_vars (m.var i) (set_var i (create type m).0 (create type m).1)
  apply_vars (atomic_load i s) = copy_vars i s
  apply_vars (atomic_exchange i s d) = refl
  apply_vars (atomic_store s d) = release_vars (m.var s) (set_var s (m.var d) (set_var d none m))
  apply_vars (atomic_compare s x d) = compare_vars s x d

  pub apply-vars_after : (op : Op) {m' : Memory} → apply op m ≡ some m' → m'.var ≡ vars_after op m
  apply-vars_after op e = known (apply_vars op) e
