-- ===== src/Object/Views/Typed.antt =====
-- The types of the views while a program runs: a view that is restricted to a type points to blocks
-- of that type only.
use minapp.Base.{
  ℕ, ◌<◌, ◌≡◌, ◌≢◌, sym, ap, ◌∙◌, ◌⊎◌, inl, inr, Option, none, some, ◌==◌, arith, set_at,
  Bool-cases, Option-cases,
}
use minapp.Object.{Handle, Memory, same_handle, create, construct, emplace, set_var}
use minapp.Object.Counting.{IsCounted, held-allocated}
use minapp.Object.Program.{
  Op, apply, make, copy, move, drop, assign, assign_move, exchange_vars, replace, atomic_load,
  atomic_exchange, atomic_store, atomic_compare, MayApply,
}
use minapp.Object.Types.{type_of, Keeps-refl, then_release, after, apply_types}
use minapp.Object.Flow.{vars_after, apply-vars_after}

-- What a variable is restricted to: none for an `object`.
abbrev pub Views : Type 0
Views = ℕ → Option ℕ

-- What may be put into a variable: the pointer of one that is restricted alike, and an object made
-- of its type.
abbrev Sub : Option ℕ → Option ℕ → Type 0
Sub v w = (type : ℕ) → w ≡ some type → v ≡ some type

abbrev Fits : Option ℕ → ℕ → Type 0
Fits w made = (type : ℕ) → w ≡ some type → type ≡ made

-- What the types of the variables let an operation of `object` do without a check at run time.
unfoldable pub Respects : Views → Op → Type 0
Respects view (make i type) = Fits (view i) type
Respects view (copy i j) = Sub (view j) (view i)
Respects view (move i j) = Sub (view j) (view i)
Respects view (drop i) = Unit
Respects view (assign i j) = Sub (view j) (view i)
Respects view (assign_move i j) = Sub (view j) (view i)
Respects view (exchange_vars i j) = Sub (view j) (view i) × Sub (view i) (view j)
Respects view (replace i type) = Fits (view i) type
Respects view (atomic_load i s) = Sub (view s) (view i)
Respects view (atomic_exchange i s d) = Sub (view s) (view i) × Sub (view d) (view s)
Respects view (atomic_store s d) = Sub (view d) (view s)
Respects view (atomic_compare s x d) = Sub (view d) (view s) × Sub (view s) (view x)

unfoldable pub IsTyped : ℕ → Views → Memory → Type 0
IsTyped n view m =
    (i a type : ℕ) → i < n → view i ≡ some type → m.var i ≡ some a → type_of (m.block a) ≡ some type

-- The type of the object that an operation makes.
makes : Op → Option ℕ
makes (make i type) = some type
makes (replace i type) = some type
makes (copy i j) = none
makes (move i j) = none
makes (drop i) = none
makes (assign i j) = none
makes (assign_move i j) = none
makes (exchange_vars i j) = none
makes (atomic_load i s) = none
makes (atomic_exchange i s d) = none
makes (atomic_store s d) = none
makes (atomic_compare s x d) = none

module _ (n : ℕ) (view : Views) (m : Memory) where
  -- A pointer comes from a variable that is restricted alike, or is to the new object.
  abbrev Origin : Op → ℕ → ℕ → Type 0
  Origin op a type =
      ((j : ℕ) × (j < n) × (m.var j ≡ some a) × (view j ≡ some type))
      ⊎ ((a ≡ m.fresh) × (makes op ≡ some type))

  -- A variable that is set, in front of others.
  set_origin :
      (op : Op) (f : ℕ → Handle) (i : ℕ) (h : Handle) (k a type : ℕ)
      → (view i ≡ some type → h ≡ some a → Origin op a type)
      → (f k ≡ some a → Origin op a type)
      → view k ≡ some type
      → set_at f i h k ≡ some a
      → Origin op a type
  set_origin op f i h k a type here there v e = elim (Bool-cases (i == k)) [
    | inl x ↦
        let same : k ≡ i = ground (arith, x) in here (ap view (sym same) ∙ v) (ground (arith, e, x))
    | inr x ↦ there (ground (arith, e, x))
  ]

  from :
      (op : Op) (i j a type : ℕ)
      → j < n
      → Sub (view j) (view i)
      → view i ≡ some type
      → m.var j ≡ some a
      → Origin op a type
  from op i j a type lt sub v e = inl (j, lt, e, sub type v)

  nothing : (op : Op) (a type : ℕ) → ◌≡◌ {A = Handle} none (some a) → Origin op a type
  nothing op a type e = cc

  -- A variable that is set from another one, in front of others.
  set_from :
      (op : Op) (f : ℕ → Handle) (i j k a type : ℕ)
      → j < n
      → Sub (view j) (view i)
      → (f k ≡ some a → Origin op a type)
      → view k ≡ some type
      → set_at f i (m.var j) k ≡ some a
      → Origin op a type
  set_from op f i j k a type lt sub there =
      set_origin op f i (m.var j) k a type (λ v e. from op i j a type lt sub v e) there

  -- A variable that becomes null, in front of others.
  set_none :
      (op : Op) (f : ℕ → Handle) (i k a type : ℕ)
      → (f k ≡ some a → Origin op a type)
      → view k ≡ some type
      → set_at f i none k ≡ some a
      → Origin op a type
  set_none op f i k a type there =
      set_origin op f i none k a type (λ v e. nothing op a type e) there

  -- The variable `s` takes over the pointer of `d`.
  stored :
      (op : Op) (s d k a type : ℕ)
      → k < n
      → d < n
      → Sub (view d) (view s)
      → view k ≡ some type
      → set_at (set_at m.var d none) s (m.var d) k ≡ some a
      → Origin op a type
  stored op s d k a type lt lt' ok v =
      set_from op (set_at m.var d none) s d k a type lt' ok
        (λ e. set_none op m.var d k a type (λ e. inl (k, lt, e, v)) v e) v

  origin :
      (op : Op) (k a type : ℕ)
      → k < n
      → MayApply n m op
      → Respects view op
      → view k ≡ some type
      → vars_after op m k ≡ some a
      → Origin op a type
  unfolding vars_after MayApply Respects makes
  origin (make i t) k a type lt may ok v e =
      set_origin (make i t) m.var i (some m.fresh) k a type
        (λ v e. inr (cc, ap some (sym (ok type v)))) (λ e. inl (k, lt, e, v)) v e
  origin (copy i j) k a type lt (lt', lt'', _) ok v e =
      set_from (copy i j) m.var i j k a type lt'' ok (λ e. inl (k, lt, e, v)) v e
  origin (move i j) k a type lt (lt', lt'', _) ok v e =
      set_none (move i j) (set_at m.var i (m.var j)) j k a type
        (λ e. set_from (move i j) m.var i j k a type lt'' ok (λ e. inl (k, lt, e, v)) v e) v e
  origin (drop i) k a type lt may ok v e =
      set_none (drop i) m.var i k a type (λ e. inl (k, lt, e, v)) v e
  origin (assign i j) k a type lt (lt', lt'') ok v e =
      elim (Bool-cases (same_handle (m.var i) (m.var j))) [
        | inl x ↦ inl (k, lt, (ground (arith, e, x)), v)
        | inr x ↦
            set_from (assign i j) m.var i j k a type lt'' ok (λ e. inl (k, lt, e, v)) v
              (ground (arith, e, x))
      ]
  origin (assign_move i j) k a type lt (lt', lt'') ok v e =
      elim (Bool-cases (same_handle (m.var i) (m.var j))) [
        | inl x ↦ inl (k, lt, (ground (arith, e, x)), v)
        | inr x ↦
            set_from (assign_move i j) (set_at m.var j none) i j k a type lt'' ok
              (λ e. set_none (assign_move i j) m.var j k a type (λ e. inl (k, lt, e, v)) v e) v
              (ground (arith, e, x))
      ]
  origin (exchange_vars i j) k a type lt (lt', lt'') (ok, ok') v e =
      set_from (exchange_vars i j) (set_at m.var j (m.var i)) i j k a type lt'' ok
        (λ e. set_from (exchange_vars i j) m.var j i k a type lt' ok' (λ e. inl (k, lt, e, v)) v e)
        v e
  origin (replace i t) k a type lt may ok v e =
      set_origin (replace i t) m.var i (some m.fresh) k a type
        (λ v e. inr (cc, ap some (sym (ok type v)))) (λ e. inl (k, lt, e, v)) v e
  origin (atomic_load i s) k a type lt (lt', lt'', _) ok v e =
      set_from (atomic_load i s) m.var i s k a type lt'' ok (λ e. inl (k, lt, e, v)) v e
  origin (atomic_exchange i s d) k a type lt (lt', lt'', lt3, _, _, _) (ok, ok') v e =
      let op = atomic_exchange i s d in
      set_from op (set_at (set_at m.var d none) s (m.var d)) i s k a type lt'' ok
        (λ e. stored op s d k a type lt lt3 ok' v e) v e
  origin (atomic_store s d) k a type lt (lt', lt'', _) ok v e =
      stored (atomic_store s d) s d k a type lt lt'' ok v e
  origin (atomic_compare s x d) k a type lt (lt', lt'', lt3, _, _, _) (ok, ok') v e =
      let op = atomic_compare s x d in
      elim (Bool-cases (same_handle (m.var s) (m.var x))) [
        | inl y ↦ stored op s d k a type lt lt3 ok v (ground (arith, e, y))
        | inr y ↦
            set_none op (set_at m.var x (m.var s)) d k a type
              (λ e. set_from op m.var x s k a type lt' ok' (λ e. inl (k, lt, e, v)) v e) v
              (ground (arith, e, y))
      ]

-- The new block, with whatever follows.
new_type :
    (op : Op) (m : Memory) {m' : Memory} (type : ℕ)
    → makes op ≡ some type
    → apply op m ≡ some m'
    → (type_of (m'.block m.fresh) ≡ none) ⊎ (type_of (m'.block m.fresh) ≡ some type)
unfolding makes apply construct emplace create
new_type (make i t) m {m'} type e f = inr (ground (arith, e, f))
new_type (replace i t) m {m'} type e f =
    let x = set_var i (some m.fresh) (create t m).1 in
    let k = after (then_release (m.var i) (Keeps-refl x)) f in
    elim (k.same m.fresh (omega arith)) [ inl gone ↦ inl gone | inr s ↦ inr (ground (arith, s, e)) ]
new_type (copy i j) m type e f = cc
new_type (move i j) m type e f = cc
new_type (drop i) m type e f = cc
new_type (assign i j) m type e f = cc
new_type (assign_move i j) m type e f = cc
new_type (exchange_vars i j) m type e f = cc
new_type (atomic_load i s) m type e f = cc
new_type (atomic_exchange i s d) m type e f = cc
new_type (atomic_store s d) m type e f = cc
new_type (atomic_compare s x d) m type e f = cc

-- A block that is not gone.
not_gone :
    (n i a : ℕ) (m : Memory)
    → i < n
    → m.var i ≡ some a
    → ((a : ℕ) → IsCounted n none m a)
    → type_of (m.block a) ≢ none
not_gone n i a m lt e v gone =
    let (b, x, _) = held-allocated n i a m lt e (v a) in ground (arith, gone, x)

pub apply-IsTyped :
    (n : ℕ) (view : Views) (m : Memory) (op : Op) {m' : Memory}
    → ((a : ℕ) → IsCounted n none m a)
    → ((a : ℕ) → IsCounted n none m' a)
    → MayApply n m op
    → Respects view op
    → apply op m ≡ some m'
    → IsTyped n view m
    → IsTyped n view m'
unfolding IsTyped
apply-IsTyped n view m op {m'} c c' may ok f t i a type lt v e =
    let e' = ap (λ (g : ℕ → Handle). g i) (sym (apply-vars_after m op f)) ∙ e in
    let here = not_gone n i a m' lt e c' in
    elim (origin n view m op i a type lt may ok v e') [
      | inl (j, lt', x, w) ↦
          let old = t j a type lt' w x in
          let allocated : a < m.fresh =
            ground (arith, old, (c a).unused, Option-cases (m.block a)) in
          elim ((after (apply_types m op) f).same a allocated) [
            | inl gone ↦ absurd (here gone)
            | inr s ↦ s ∙ old
          ]
      | inr (x, w) ↦ elim (new_type op m type w f) [
        | inl gone ↦ absurd (here (ap (λ b. type_of (m'.block b)) x ∙ gone))
        | inr s ↦ ap (λ b. type_of (m'.block b)) x ∙ s
      ]
    ]

-- A block with a pointer keeps its type.
pub kept_type :
    (n : ℕ) (m : Memory) (op : Op) {m' : Memory} (i a type : ℕ)
    → ((a : ℕ) → IsCounted n none m a)
    → ((a : ℕ) → IsCounted n none m' a)
    → apply op m ≡ some m'
    → i < n
    → m'.var i ≡ some a
    → type_of (m.block a) ≡ some type
    → type_of (m'.block a) ≡ some type
kept_type n m op {m'} i a type c c' f lt e old =
    let allocated : a < m.fresh = ground (arith, old, (c a).unused, Option-cases (m.block a)) in
    elim ((after (apply_types m op) f).same a allocated) [
      | inl gone ↦ absurd (not_gone n i a m' lt e c' gone)
      | inr s ↦ s ∙ old
    ]
