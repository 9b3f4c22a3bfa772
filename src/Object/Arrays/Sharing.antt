-- ===== src/Object/Arrays/Sharing.antt =====
-- `object::vec` and its parts: what is put in is read back, all that hold one array see a change of
-- it, and a part of a span is a part of what the span shows.
use minapp.Base.{
  ℕ, zero, suc, ◌+◌, ◌-◌, ◌^◌, ◌≤◌, ◌<◌, ◌≡◌, ◌⊎◌, ◌∙◌, refl, sym, ap, ◌&&◌, none, some, List, [],
  ◌∷◌, length, get_elem?, set_elem, take, drop, leb, ◌==◌, if◌then◌else◌, set_at, arith, Bool-cases,
  Option-cases, inl, inr, sub_size, take-take, drop-drop, drop-take,
}
use minapp.Object.{set_var, same_handle, emplace, create, release}
use minapp.Object.Views.{vec_emplace, is_length}
use minapp.Object.Arrays.{
  Arrays, made, Reached, found, out_of_range, element_at, array_of, vec_of_list, vec_size, vec_at,
  vec_index, vec_assign_at, Span, span_at, subspan, first, last,
}

-- What a checked access to a list gives.
abbrev pub checked : {A : Type 0} → List A → ℕ → Reached A
checked [] k = out_of_range
checked (x ∷ list) zero = found x
checked (x ∷ list) (suc k) = checked list k

-- The value that a variable holds is a given list.
pub record Holds {A : Type 0} (i : ℕ) (list : List A) (s : Arrays A) : Type 0 where
  pub size : vec_size i s ≡ length list
  pub at : (k : ℕ) → vec_at i k s ≡ checked list k

module _ {A : Type 0} where
  get_elem?-beyond : (list : List A) (k : ℕ) → length list ≤ k → get_elem? list k ≡ none
  get_elem?-beyond [] k h = refl
  get_elem?-beyond (x ∷ list) zero h = absurd (omega arith)
  get_elem?-beyond (x ∷ list) (suc k) h = get_elem?-beyond list k (omega arith)

  get_elem?-take :
      (n : ℕ) (list : List A) (i : ℕ) → i < n → get_elem? (take n list) i ≡ get_elem? list i
  get_elem?-take zero list i h = absurd (omega arith)
  get_elem?-take (suc n) [] i h = refl
  get_elem?-take (suc n) (x ∷ list) zero h = refl
  get_elem?-take (suc n) (x ∷ list) (suc i) h = get_elem?-take n list i (omega arith)

  get_elem?-drop :
      (m : ℕ) (list : List A) (i k : ℕ) → k ≡ m + i → get_elem? (drop m list) i ≡ get_elem? list k
  get_elem?-drop zero list i k e = ap (get_elem? list) (omega arith)
  get_elem?-drop (suc m) [] i k e = refl
  get_elem?-drop (suc m) (x ∷ list) i zero e = absurd (omega arith)
  get_elem?-drop (suc m) (x ∷ list) i (suc k) e = get_elem?-drop m list i k (omega arith)

  get_elem?-set_elem :
      (list : List A) (k : ℕ) (v : A) (k' : ℕ)
      → k < length list
      → get_elem? (set_elem list k v) k' ≡ (if k == k' then some v else get_elem? list k')
  get_elem?-set_elem [] k v k' h = absurd (omega arith)
  get_elem?-set_elem (x ∷ list) zero v zero h = ground arith
  get_elem?-set_elem (x ∷ list) zero v (suc k') h = ground arith
  get_elem?-set_elem (x ∷ list) (suc k) v zero h = ground arith
  get_elem?-set_elem (x ∷ list) (suc k) v (suc k') h =
      ground (arith, get_elem?-set_elem list k v k' (omega arith))

  checked_lem :
      (list : List A) (k : ℕ)
      → checked list k ≡ (if leb (length list) k then out_of_range else element_at list k)
  checked_lem [] k = ground arith
  checked_lem (x ∷ list) zero = ground arith
  checked_lem (x ∷ list) (suc k) = checked_lem list k ∙ ground arith

  checked-set_elem :
      (list : List A) (k : ℕ) (v : A) (k' : ℕ)
      → k < length list
      → checked (set_elem list k v) k' ≡ (if k == k' then found v else checked list k')
  checked-set_elem [] k v k' h = absurd (omega arith)
  checked-set_elem (x ∷ list) zero v zero h = ground arith
  checked-set_elem (x ∷ list) zero v (suc k') h = ground arith
  checked-set_elem (x ∷ list) (suc k) v zero h = ground arith
  checked-set_elem (x ∷ list) (suc k) v (suc k') h =
      ground (arith, checked-set_elem list k v k' (omega arith))

  -- A checked access reads the array, which ends where its size says.
  vec_at_lem : (i k : ℕ) (s : Arrays A) → vec_at i k s ≡ checked (array_of (s.memory.var i) s) k
  unfolding vec_at vec_size
  vec_at_lem i k s = sym (checked_lem (array_of (s.memory.var i) s) k)

  -- Where `at` does not throw, `operator[]` gives the same.
  pub vec_at-vec_index :
      (i k : ℕ) (s : Arrays A) → k < vec_size i s → vec_at i k s ≡ vec_index i k s
  unfolding vec_at vec_index vec_size
  vec_at-vec_index i k s h = ground (arith, h)

  holds_lem :
      (i : ℕ) (list : List A) (s : Arrays A) → array_of (s.memory.var i) s ≡ list → Holds i list s
  unfolding vec_size
  holds_lem i list s e = record {
    size = ap length e;
    at = λ k. vec_at_lem i k s ∙ ap (λ l. checked l k) e;
  }

  -- A new `vec` of an initializer list of less than 2^63 elements is made without an exception,
  -- its size is that of the list, and `at` gives the elements of the list at their indices and
  -- throws `out_of_range` beyond.
  pub vec_of_list_lem :
      (type : ℕ) (value_initialized : A) (i : ℕ) (list : List A) (s : Arrays A)
      → s.memory.var i ≡ none
      → length list < 2 ^ 63
      → (s' : Arrays A) × (vec_of_list type value_initialized i list s ≡ made s') × Holds i list s'
  unfolding vec_of_list vec_emplace is_length emplace release create
  vec_of_list_lem type d i [] s e h = (s, refl, holds_lem i [] s (rw e refl))
  vec_of_list_lem type d i (x ∷ list) s e h =
      let s' : Arrays A = record {
        memory = set_var i (create type s.memory).0 (create type s.memory).1;
        elements = set_at s.elements s.memory.fresh (x ∷ list);
      } in
      (s', ground (arith, e), holds_lem i (x ∷ list) s' (ground arith))

  -- What every vector shows after an assignment to an element of one.
  abbrev pub assigned : ℕ → ℕ → A → Arrays A → ℕ → ℕ → Reached A
  assigned i k v s j k' =
      if same_handle (s.memory.var i) (s.memory.var j) && k == k' then found v else vec_at j k' s

  element_below :
      (list : List A) (k : ℕ) → k < length list → (v : A) × (element_at list k ≡ found v)
  element_below [] k h = absurd (omega arith)
  element_below (x ∷ list) zero h = (x, refl)
  element_below (x ∷ list) (suc k) h = element_below list k (omega arith)

  shown_after :
      (i k : ℕ) (v : A) (s : Arrays A) (a : ℕ)
      → s.memory.var i ≡ some a
      → k < length (s.elements a)
      → (j k' : ℕ)
      → vec_at j k' (record s { elements = set_at s.elements a (set_elem (s.elements a) k v) })
        ≡ assigned i k v s j k'
  shown_after i k v s a x below j k' =
      let s' = record s { elements = set_at s.elements a (set_elem (s.elements a) k v) } in
      elim (Option-cases (s.memory.var j)) [
        | inl z ↦ vec_at_lem j k' s' ∙ ground (arith, vec_at_lem j k' s, x, z)
        | inr (b, z) ↦
            vec_at_lem j k' s'
            ∙ ground (arith, vec_at_lem j k' s, x, z, checked-set_elem (s.elements a) k v k' below)
      ]

  -- Where the index is not below the size, `vec::at` throws `out_of_range`, and so does an
  -- assignment to what it refers to; otherwise neither is undefined behaviour, and after the
  -- assignment every `vec` that shares the array of the one assigned to shows the new value at
  -- this index, and at all other indices, as in all other arrays, what it has shown before.
  pub assign_lem :
      (i k : ℕ) (v : A) (s : Arrays A)
      → ((vec_size i s ≤ k)
          × (vec_at i k s ≡ out_of_range)
          × (vec_assign_at i k v s ≡ out_of_range))
        ⊎ ((k < vec_size i s)
            × ((old : A) × (vec_at i k s ≡ found old))
            × ((s' : Arrays A) × (vec_assign_at i k v s ≡ found s')
                × ((j k' : ℕ) → vec_at j k' s' ≡ assigned i k v s j k')))
  unfolding vec_assign_at vec_size vec_at
  assign_lem i k v s = elim (Option-cases (s.memory.var i)) [
    | inl x ↦ inl (ground (arith, x), ground (arith, x), ground (arith, x))
    | inr (a, x) ↦
        let list = s.elements a in
        elim (Bool-cases (leb (length list) k)) [
          | inl y ↦ inl (ground (arith, x, y), ground (arith, x, y), ground (arith, x, y))
          | inr y ↦
              let below : k < length list = ground (arith, y) in
              let (old, z) = element_below list k below in
              let s' = record s { elements = set_at s.elements a (set_elem list k v) } in
              inr (
                ground (arith, x, below),
                (old, ground (arith, x, y, z)),
                (s', ground (arith, x, y, below), λ j k'. shown_after i k v s a x below j k'),
              )
        ]
  ]

  -- What a span shows.
  abbrev pub contents : Span → Arrays A → List A
  contents v s = take v.n (drop v.p (array_of v.of s))

  pub span_at_lem :
      (v : Span) (s : Arrays A) (i : ℕ) → i < v.n → span_at v i s ≡ get_elem? (contents v s) i
  unfolding span_at
  span_at_lem v s i h =
      sym (get_elem?-drop v.p (array_of v.of s) i (v.p + i) refl)
      ∙ sym (get_elem?-take v.n (drop v.p (array_of v.of s)) i h)

  pub span_parts :
      (v : Span) (s : Arrays A) (offset count : ℕ)
      → v.n < 2 ^ 64
      → offset + count ≤ v.n
      → (contents (subspan offset count v) s ≡ take count (drop offset (contents v s)))
        × (contents (first count v) s ≡ take count (contents v s))
        × (contents (last count v) s ≡ drop (v.n - count) (contents v s))
  unfolding subspan first last
  span_parts v s offset count small h =
      let whole = array_of v.of s in
      let shown = drop v.p whole in
      let back : sub_size v.n count ≡ v.n - count = omega arith in
      (
        sym (
            ap (take count) (
              drop-take offset (v.n - offset) v.n shown (omega arith)
              ∙ ap (take (v.n - offset)) (drop-drop v.p offset (v.p + offset) whole refl))
            ∙ take-take count (v.n - offset) (drop (v.p + offset) whole) (omega arith)),
        sym (take-take count v.n shown (omega arith)),
        sym (
            drop-take (v.n - count) count v.n shown (omega arith)
            ∙ ap (take count)
                (drop-drop v.p (v.n - count) (v.p + sub_size v.n count) whole (omega arith))),
      )
