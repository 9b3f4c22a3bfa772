-- ===== src/AttributeSet/Foreach.antt =====
-- The three `foreach` of src/attribute_set.cpp: the order of the calls, whatever the callback does
-- to the set, and which entries are met.
use minapp.Base.{
  ℕ, zero, suc, ◌+◌, ◌≡◌, refl, ap, Bool, true, false, not, Option, none, some, List, [], ◌∷◌,
  if◌then◌else◌, Option-cases, Bool-cases, inl, inr, arith, subst, sym, ◌∙◌, length, ◌⊎◌, ◌<◌,
}
use mathlib.Core.Option.{some-injective}
use minapp.AttributeSet.Keys.{Key, Value, less, starts_with, less_total}
use minapp.AttributeSet.Interface.{NvpSet}
use minapp.AttributeSet.{Visited, visit, foreach, foreach_prefix, is_over, foreach_between}

-- The keys ascend from a bound on, and none of them ends the loop.
pub data Ascends (ends : Key → Bool) : (Key → Bool) → List (Key × Value) → Type 0 where
  done : {after : Key → Bool} → Ascends ends after []
  next :
      {after : Key → Bool} {k : Key} {v : Value} {rest : List (Key × Value)}
      → after k ≡ true
      → ends k ≡ false
      → Ascends ends (less k) rest
      → Ascends ends after ((k, v) ∷ rest)

-- A pair is one of a list.
unfoldable pub IsCalled : Key → Value → List (Key × Value) → Type 0
IsCalled j w [] = ⊥
IsCalled j w ((k, v) ∷ calls) = ((j ≡ k) × (w ≡ v)) ⊎ IsCalled j w calls

module _ (boost : NvpSet) where
  result-Ascends :
      {ends after : Key → Bool} (q r : Visited boost.Map)
      → some q ≡ some r
      → Ascends ends after q.calls
      → Ascends ends after r.calls
  result-Ascends {ends = ends} {after = after} q r e =
      subst (λ (r : Visited boost.Map). Ascends ends after r.calls) (some-injective _ _ e)

  module _ (f : Key → Value → boost.Map → Bool × boost.Map) (ends : Key → Bool) where
    visit-Ascends :
        (fuel : ℕ) (iter : Option (Key × Value)) (m : boost.Map) (after : Key → Bool)
        (r : Visited boost.Map)
        → ((k : Key) (v : Value) → iter ≡ some (k, v) → after k ≡ true)
        → visit boost f ends fuel iter m ≡ some r
        → Ascends ends after r.calls
    unfolding visit
    visit-Ascends zero iter m after r h e = cc
    visit-Ascends (suc fuel) none m after r h e = result-Ascends _ r e done
    visit-Ascends (suc fuel) (some (k, v)) m after r h e =
        let m' = (f k v m).1 in
        let next_iter = boost.upper_bound k m' in
        elim (Bool-cases (ends k)) [
          | inl t ↦
              let q : Visited boost.Map = record { count = 0; set_after = m; calls = [] } in
              result-Ascends q r (ground (arith, e, t)) done
          | inr t ↦ elim (Bool-cases (f k v m).0) [
            | inr stops ↦
                let q : Visited boost.Map = record {
                  count = 0;
                  set_after = m';
                  calls = (k, v) ∷ [];
                } in
                result-Ascends q r (ground (arith, e, t, stops)) (next (h k v refl) t done)
            | inl continues ↦ elim (Option-cases (visit boost f ends fuel next_iter m')) [
              | inl n ↦ absurd (ground (arith, e, t, continues, n))
              | inr (q, n) ↦
                  let ih =
                    visit-Ascends fuel next_iter m' (less k) q
                      (λ j w x. (boost.upper_bound-entry k j w m' x).0) n in
                  let q' : Visited boost.Map = record q {
                    count = q.count + 1;
                    calls = (k, v) ∷ q.calls;
                  } in
                  result-Ascends q' r (ground (arith, e, t, continues, n)) (next (h k v refl) t ih)
            ]
          ]
        ]

  -- Whatever the callback does to the set, `foreach(min, max, ...)`, where it ends, has called it
  -- with strictly ascending keys, each of them between the two bounds, which are included as
  -- asked.
  pub foreach_between-Ascends :
      (f : Key → Value → boost.Map → Bool × boost.Map) (min max : Key)
      (include_min include_max : Bool) (fuel : ℕ) (m : boost.Map) (r : Visited boost.Map)
      → foreach_between boost f min max include_min include_max fuel m ≡ some r
      → Ascends
          (is_over boost f max include_max)
          (λ k. if include_min then not (less k min) else less min k)
          r.calls
  unfolding foreach_between
  foreach_between-Ascends f min max true include_max fuel m r e =
      visit-Ascends f (is_over boost f max include_max) fuel (boost.lower_bound min m) m
        (λ k. not (less k min)) r (λ k v x. ap not (boost.lower_bound-entry min k v m x).0) e
  foreach_between-Ascends f min max false include_max fuel m r e =
      visit-Ascends f (is_over boost f max include_max) fuel (boost.upper_bound min m) m (less min)
        r (λ k v x. (boost.upper_bound-entry min k v m x).0) e

  -- Whatever the callback does to the set, `foreach(prefix, ...)` calls it with strictly
  -- ascending keys that start with the prefix.
  pub foreach_prefix-Ascends :
      (f : Key → Value → boost.Map → Bool × boost.Map) (prefix : Key) (fuel : ℕ) (m : boost.Map)
      (r : Visited boost.Map)
      → foreach_prefix boost f prefix fuel m ≡ some r
      → Ascends (λ k. not (starts_with prefix k)) (λ k. not (less k prefix)) r.calls
  unfolding foreach_prefix
  foreach_prefix-Ascends f prefix fuel m r e =
      visit-Ascends f (λ key. not (starts_with prefix key)) fuel (boost.lower_bound prefix m) m
        (λ k. not (less k prefix)) r (λ k v x. ap not (boost.lower_bound-entry prefix k v m x).0) e

  -- A callback that only looks, and goes on.
  abbrev Looks : (Key → Value → boost.Map → Bool × boost.Map) → Type 0
  Looks f = (k : Key) (v : Value) (m : boost.Map) → f k v m ≡ (true, m)

  -- The loop met every entry above a bound, left the set alone and counted its calls.
  record Complete (m : boost.Map) (after : Key → Bool) (r : Visited boost.Map) : Type 0 where
    pub unchanged : r.set_after ≡ m
    pub counted : r.count ≡ length r.calls
    pub all :
        (j : Key) (w : Value) → after j ≡ true → boost.find j m ≡ some w → IsCalled j w r.calls

  here :
      {k : Key} {v : Value} (j : Key) (w : Value) (m : boost.Map)
      → boost.find k m ≡ some v
      → boost.find j m ≡ some w
      → not (less j k) ≡ true
      → less k j ≡ false
      → (j ≡ k) × (w ≡ v)
  here {k = k} j w m e x a l =
      let same_key : j ≡ k = less_total j k (ground (arith, a)) l in
      (same_key, some-injective _ _ (sym x ∙ ap (λ i. boost.find i m) same_key ∙ e))

  module _ (f : Key → Value → boost.Map → Bool × boost.Map) (only : Looks f) where
    visit-Complete :
        (fuel : ℕ) (k : Key) (v : Value) (m : boost.Map)
        → boost.find k m ≡ some v
        → boost.above k m < fuel
        → (r : Visited boost.Map) × (visit boost f (λ k. false) (suc fuel) (some (k, v)) m ≡ some r)
          × Complete m (λ j. not (less j k)) r
    unfolding visit IsCalled
    visit-Complete zero k v m found h = absurd (omega arith)
    visit-Complete (suc fuel) k v m found h = elim (Option-cases (boost.upper_bound k m)) [
      | inl n ↦
          let r : Visited boost.Map = record { count = 1; set_after = m; calls = (k, v) ∷ [] } in
          (
            r,
            ground (arith, n, only k v m),
            record {
              unchanged = refl;
              counted = refl;
              all = λ j w a x. elim (Bool-cases (less k j)) [
                | inl l ↦ absurd (ground (arith, boost.upper_bound-none k j m n l, x))
                | inr l ↦ inl (here j w m found x a l)
              ];
            },
          )
      | inr ((k', v'), n) ↦
          let entry = boost.upper_bound-entry k k' v' m n in
          let less_left = boost.above_less k k' v' m entry.1 entry.0 in
          let (q, e, c) = visit-Complete fuel k' v' m entry.1 (omega (arith, less_left, h)) in
          let r : Visited boost.Map = record q { count = q.count + 1; calls = (k, v) ∷ q.calls } in
          (
            r,
            ground (arith, n, e, only k v m),
            record {
              unchanged = c.unchanged;
              counted = omega (arith, c.counted);
              all = λ j w a x. elim (Bool-cases (less k j)) [
                | inl l ↦ inr (c.all j w (ap not (boost.upper_bound-least k j k' v' w m n l x)) x)
                | inr l ↦ inl (here j w m found x a l)
              ];
            },
          )
    ]

    foreach-Complete :
        (fuel : ℕ) (m : boost.Map)
        → boost.size m < fuel
        → (r : Visited boost.Map) × (foreach boost f fuel m ≡ some r) × Complete m (λ j. true) r
    unfolding foreach visit
    foreach-Complete zero m h = absurd (omega arith)
    foreach-Complete (suc fuel) m h = elim (Option-cases (boost.begin m)) [
      | inl n ↦
          let r : Visited boost.Map = record { count = 0; set_after = m; calls = [] } in
          (
            r,
            ground (arith, n),
            record {
              unchanged = refl;
              counted = refl;
              all = λ j w a x. absurd (ground (arith, boost.begin-none j m n, x));
            },
          )
      | inr ((k, v), n) ↦
          let found = boost.begin-first k v m n in
          let left = boost.above_size k v m found in
          let (r, e, c) = visit-Complete fuel k v m found (omega (arith, left, h)) in
          (
            r,
            ground (arith, n, e),
            record {
              unchanged = c.unchanged;
              counted = c.counted;
              all = λ j w a x. c.all j w (ap not (boost.begin-least j k v w m n x)) x;
            },
          )
    ]

    -- With more rounds than entries and a callback that returns true and leaves the set alone,
    -- `foreach` ends, leaves the set alone, returns the number of its calls, and has called the
    -- callback with each entry of the set.
    pub foreach_complete :
        (fuel : ℕ) (m : boost.Map) (j : Key) (w : Value)
        → boost.size m < fuel
        → boost.find j m ≡ some w
        → (r : Visited boost.Map) × (foreach boost f fuel m ≡ some r)
          × (r.set_after ≡ m)
          × (r.count ≡ length r.calls)
          × IsCalled j w r.calls
    foreach_complete fuel m j w h found =
        let (r, e, c) = foreach-Complete fuel m h in
        (r, e, c.unchanged, c.counted, c.all j w refl found)
