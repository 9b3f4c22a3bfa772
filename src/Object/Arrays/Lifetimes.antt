-- ===== src/Object/Arrays/Lifetimes.antt =====
-- The elements of an array while `object::holder<T[]>` makes and deletes it, and the memory that it
-- asks for.
use minapp.Base.{
  ℕ, zero, suc, ◌+◌, ◌-◌, ◌*◌, ◌^◌, ◌≤◌, ◌<◌, ◌≡◌, ◌≢◌, ◌↔◌, ◌⊎◌, ◌∙◌, refl, Bool, true, false,
  ◌&&◌, ◌||◌, not, Option, none, some, List, [], ◌∷◌, ◌++◌, leb, ltb, ◌==◌, if◌then◌else◌, arith,
  Bool-cases, inl, inr, Option-cases,
}
use native.Mathlib.Nat.{suc-mul}
use minapp.Object.Views.{is_length}
use minapp.Object.Arrays.{
  Layout, new_size, Life, allocate, construct, destroy, deallocate, value_construct_n, destroy_n,
  create, delete_holder,
}

-- The place of one element.
pub data Place : Type 0 where
  no_memory raw live : Place

-- What C++ asks for: an element is constructed in raw memory, destroyed while it lives, and the
-- memory is freed when it does not. None is a fault.
abbrev happens : ℕ → Life → Place → Option Place
happens j (allocate n) no_memory = some raw
happens j (allocate n) raw = none
happens j (allocate n) live = none
happens j (construct k) no_memory = none
happens j (construct k) raw = if k == j then some live else some raw
happens j (construct k) live = if k == j then none else some live
happens j (destroy k) no_memory = none
happens j (destroy k) raw = if k == j then none else some raw
happens j (destroy k) live = if k == j then some raw else some live
happens j deallocate no_memory = none
happens j deallocate raw = some no_memory
happens j deallocate live = none

unfoldable pub follow : ℕ → List Life → Place → Option Place
follow j [] p = some p
follow j (e ∷ es) p = elim (happens j e p) [ none ↦ none | some q ↦ follow j es q ]

follow-append :
    (j : ℕ) (es fs : List Life) (p : Place) {q : Place}
    → follow j es p ≡ some q
    → follow j (es ++ fs) p ≡ follow j fs q
unfolding follow
follow-append j [] fs p e = ground (arith, e)
follow-append j (x ∷ es) fs p e = elim (Option-cases (happens j x p)) [
  | inl y ↦ absurd (ground (arith, e, y))
  | inr (r, y) ↦ rw (y, follow) (follow-append j es fs r (rw (y, follow) at e))
]

abbrev among : ℕ → ℕ → ℕ → Bool
among k c j = leb k j && ltb j (k + c)

-- Another element than the one that is followed.
other_element :
    (j k : ℕ) (p : Place)
    → p ≢ no_memory
    → (k == j) ≡ false
    → (happens j (construct k) p ≡ some p) × (happens j (destroy k) p ≡ some p)
other_element j k no_memory h e = absurd (h refl)
other_element j k raw h e = ground arith
other_element j k live h e = ground arith

-- An element that is constructed in front of others.
construct_first :
    (j k : ℕ) (p q : Place) (rest : List Life)
    → happens j (construct k) p ≡ some q
    → follow j (construct k ∷ rest) p ≡ follow j rest q
unfolding follow
construct_first j k p q rest e = rw (e, follow) refl

-- The elements from `k` on are raw before, and those constructed live after, if none has thrown.
follow-value_construct_n :
    (throws : ℕ → Bool) (j k c : ℕ) (p : Place)
    → p ≢ no_memory
    → (k ≤ j → p ≡ raw)
    → let r = value_construct_n throws k c in
      follow j r.1 p ≡ some (if r.0 && among k c j then live else p)
unfolding value_construct_n follow
follow-value_construct_n throws j k zero p some_memory h = ground arith
follow-value_construct_n throws j k (suc c) p some_memory h =
    let r = value_construct_n throws (k + 1) c in
    elim (Bool-cases (throws k)) [
      | inl t ↦ rw (t, follow) refl
      | inr t ↦ elim (Bool-cases (k == j)) [
        | inl e ↦
            let raw_before : p ≡ raw = ground (arith, h, e) in
            let ih : follow j r.1 live ≡ some live = ground (
              arith,
              follow-value_construct_n throws j (k + 1) c live (λ x. cc)
                  (λ x. absurd (ground (arith, e, x))),
            ) in
            let here : happens j (construct k) raw ≡ some live = ground (arith, e) in
            elim (Bool-cases r.0) [
              | inl ok ↦
                  rw (t, ok, raw_before)
                    (construct_first j k raw live r.1 here ∙ ih ∙ ground (arith, e))
              | inr bad ↦
                  rw (t, bad, raw_before)
                    (construct_first j k raw live (r.1 ++ (destroy k ∷ [])) here
                      ∙ follow-append j r.1 (destroy k ∷ []) live ih
                      ∙ ground (arith, e))
            ]
        | inr e ↦
            let ih =
              follow-value_construct_n throws j (k + 1) c p some_memory (λ x. h (omega arith)) in
            let other = other_element j k p some_memory e in
            elim (Bool-cases r.0) [
              | inl ok ↦
                  rw (t, ok) (construct_first j k p p r.1 other.0 ∙ ih ∙ ground (arith, e, ok))
              | inr bad ↦
                  let ih' : follow j r.1 p ≡ some p = ih ∙ ground (arith, bad) in
                  rw (t, bad)
                    (construct_first j k p p (r.1 ++ (destroy k ∷ [])) other.0
                      ∙ follow-append j r.1 (destroy k ∷ []) p ih'
                      ∙ rw (other.1, follow) refl)
            ]
      ]
    ]

-- The elements from `k` on are destroyed.
follow-destroy_n :
    (j k c : ℕ) (p : Place)
    → p ≢ no_memory
    → (among k c j ≡ true → p ≡ live)
    → follow j (destroy_n k c) p ≡ some (if among k c j then raw else p)
unfolding destroy_n follow
follow-destroy_n j k zero p some_memory h = ground arith
follow-destroy_n j k (suc c) p some_memory h = elim (Bool-cases (k == j)) [
  | inl e ↦
      let live_before : p ≡ live = ground (arith, h, e) in
      let ih : follow j (destroy_n (k + 1) c) raw ≡ some raw =
        ground (
          arith,
          follow-destroy_n j (k + 1) c raw (λ x. cc) (λ x. absurd (ground (arith, e, x))),
        ) in
      rw live_before (ground (arith, ih, e))
  | inr e ↦
      let other = other_element j k p some_memory e in
      let ih = follow-destroy_n j (k + 1) c p some_memory (λ x. h (ground (arith, x, e))) in
      rw (other.1, follow) (ih ∙ ground (arith, e))
]

module _ (j : ℕ) where
  -- The element after the first one has been constructed.
  abbrev first_made : Place
  first_made = if 0 == j then live else raw

  first_made_memory : first_made ≢ no_memory
  first_made_memory e = ground (arith, e)

  first_made_raw : 1 ≤ j → first_made ≡ raw
  first_made_raw h = ground arith

  -- After the allocation and the first element.
  begin_follow :
      (bytes : ℕ) (rest : List Life)
      → follow j (allocate bytes ∷ construct 0 ∷ rest) no_memory ≡ follow j rest first_made
  unfolding follow
  begin_follow bytes rest = elim (Bool-cases (0 == j)) [
    | inl e ↦ rw (e, follow) refl
    | inr e ↦ rw (e, follow) refl
  ]

  -- At the end, when the others are raw.
  end_follow : follow j (destroy 0 ∷ deallocate ∷ []) first_made ≡ some no_memory
  unfolding follow
  end_follow = ground arith

  -- While a holder of `n` is made, and while it is deleted.
  follow-create :
      (available : ℕ → Bool) (l : Layout) (throws : ℕ → Bool) (n : ℕ)
      → let r = create available l throws n in
        follow j r.1 no_memory ≡ some (if r.0 then (if ltb j n then live else raw) else no_memory)
  unfolding create follow is_length
  follow-create available l throws n =
      let r = value_construct_n throws 1 (n - 1) in
      let bytes = new_size l n in
      let others =
        follow-value_construct_n throws j 1 (n - 1) first_made first_made_memory first_made_raw in
      elim (Bool-cases (is_length n && available bytes)) [
        | inr bad ↦ rw bad refl
        | inl good ↦ elim (Bool-cases (throws 0)) [
          | inl t ↦ rw (good, t) refl
          | inr t ↦ elim (Bool-cases r.0) [
            | inl ok ↦ rw (good, t, ok) (begin_follow bytes r.1 ∙ others ∙ ground (arith, ok, good))
            | inr bad ↦
                let others' : follow j r.1 first_made ≡ some first_made =
                  others ∙ ground (arith, bad) in
                rw (good, t, bad)
                  (begin_follow bytes (r.1 ++ (destroy 0 ∷ deallocate ∷ []))
                    ∙ follow-append j r.1 (destroy 0 ∷ deallocate ∷ []) first_made others'
                    ∙ end_follow)
          ]
        ]
      ]

  follow-delete_holder :
      (n : ℕ) → 0 < n → follow j (delete_holder n) (if ltb j n then live else raw) ≡ some no_memory
  unfolding delete_holder
  follow-delete_holder n h =
      let p : Place = if ltb j n then live else raw in
      let others : follow j (destroy_n 1 (n - 1)) p ≡ some first_made =
        follow-destroy_n j 1 (n - 1) p (λ e. ground (arith, e)) (λ e. ground (arith, e))
        ∙ ground arith in
      follow-append j (destroy_n 1 (n - 1)) (destroy 0 ∷ deallocate ∷ []) p others ∙ end_follow

-- Whether one of the `c` elements from `k` on throws.
pub any_throws : (ℕ → Bool) → ℕ → ℕ → Bool
any_throws throws k zero = false
any_throws throws k (suc c) = throws k || any_throws throws (k + 1) c

construct_returns :
    (throws : ℕ → Bool) (k c : ℕ) → (value_construct_n throws k c).0 ≡ not (any_throws throws k c)
unfolding value_construct_n any_throws
construct_returns throws k zero = refl
construct_returns throws k (suc c) = ground (arith, construct_returns throws (k + 1) c)

create_returns :
    (available : ℕ → Bool) (l : Layout) (throws : ℕ → Bool) (n : ℕ)
    → (create available l throws n).0
      ≡ (is_length n && available (new_size l n) && not (any_throws throws 0 n))
unfolding create any_throws is_length
create_returns available l throws zero = refl
create_returns available l throws (suc n) =
    let back : suc n - 1 ≡ n = omega arith in
    let others = construct_returns throws 1 n in rw back (ground (arith, others))

positive : (n : ℕ) → is_length n ≡ true → 0 < n
unfolding is_length
positive n e = ground (arith, e)

below_max : (n : ℕ) → is_length n ≡ true → n < 2 ^ 63
unfolding is_length
below_max n e = ground (arith, e)

times_pred : (n e : ℕ) → 0 < n → n * e ≡ (n - 1) * e + e
times_pred zero e h = absurd (omega arith)
times_pred (suc n) e h = let back : suc n - 1 ≡ n = omega arith in rw back (suc-mul n e)

-- For a holder of less than 2^64 bytes that contains its first element, and a positive length that
-- a `std::ptrdiff_t` can be: the bytes that `holder<T[]>::operator new` asks for contain all
-- elements exactly if the size of the holder and of the further elements is below 2^64.
pub new_size_fits :
    (l : Layout) (n : ℕ)
    → 0 < n
    → n < 2 ^ 63
    → l.offset + l.element ≤ l.holder
    → l.holder < 2 ^ 64
    → (l.offset + n * l.element ≤ new_size l n) ↔ (l.holder + (n - 1) * l.element < 2 ^ 64)
unfolding new_size
new_size_fits l n h h' fits small =
    let all = times_pred n l.element h in (λ x. omega (arith, all), λ x. omega (arith, all))

-- For a holder of less than 2^64 bytes that contains its first element, and a length for which the
-- size of the holder and of the further elements is below 2^64: `holder<T[]>::create` returns
-- exactly where the length is a positive `std::ptrdiff_t`, `::operator new` gives the memory, and
-- none of the elements' constructors throws; the memory then contains all elements. In what
-- happens to any one element, construction comes in raw memory, destruction while it lives, and
-- the memory is freed when it does not: after a `create` that returns, the elements below the
-- length live and no other; after one that throws, no memory is left allocated; and after `create`
-- and, where it returns, `~holder` and `operator delete`, none is either.
pub array_lifetimes :
    (available : ℕ → Bool) (l : Layout) (throws : ℕ → Bool) (n j : ℕ)
    → l.offset + l.element ≤ l.holder
    → l.holder < 2 ^ 64
    → l.holder + (n - 1) * l.element < 2 ^ 64
    → let r = create available l throws n in
      (r.0 ≡ (is_length n && available (new_size l n) && not (any_throws throws 0 n)))
      × ((r.0 ≡ false) ⊎ (l.offset + n * l.element ≤ new_size l n))
      × (follow j r.1 no_memory ≡ some (if r.0 then (if ltb j n then live else raw) else no_memory))
      × (follow j (r.1 ++ (if r.0 then delete_holder n else [])) no_memory ≡ some no_memory)
array_lifetimes available l throws n j fits small whole =
    let r = create available l throws n in
    let returns = create_returns available l throws n in
    let made = follow-create j available l throws n in
    let end = if r.0 then delete_holder n else [] in
    (
      returns,
      elim (Bool-cases r.0) [
        | inr bad ↦ inl bad
        | inl ok ↦
            let good : is_length n ≡ true = ground (arith, returns, ok) in
            inr ((new_size_fits l n (positive n good) (below_max n good) fits small).1 whole)
      ],
      made,
      follow-append j r.1 end no_memory made ∙ elim (Bool-cases r.0) [
        | inl ok ↦ rw ok (follow-delete_holder j n (positive n (ground (arith, returns, ok))))
        | inr bad ↦ rw bad (unfold follow in refl)
      ],
    )
