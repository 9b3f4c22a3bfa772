-- ===== src/Spinlock/Safety.antt =====
-- Who has the guard of a `spinlock`, and who will wake those that wait for it.
use minapp.Base.{
  ℕ, ◌+◌, ◌<◌, ◌≡◌, refl, ap, ◌⊎◌, inl, inr, Bool, true, false, if◌then◌else◌, arith, set_at,
  sum_below, sum_below-set_at, sum_below-eq_zero, le-sum_below, sum_below-positive,
  sum_below_unique,
}
use minapp.Spinlock.{
  Pc, outside, trying, waiting, asleep, inside, notifying, Move, enter, take, refuse, sleep, pass,
  stir, try_take, try_refuse, clear, System, is_asleep, pick, notify_one, notify_none, Reach, start,
  later,
}

abbrev pub is_inside : Pc → ℕ
is_inside inside = 1
is_inside p = 0

-- A thread that will try the guard again, or wake another one.
abbrev pub is_active : Pc → ℕ
is_active trying = 1
is_active waiting = 1
is_active notifying = 1
is_active p = 0

inside_lem : (p : Pc) → 0 < is_inside p → p ≡ inside
inside_lem outside h = absurd (omega (arith, h))
inside_lem trying h = absurd (omega (arith, h))
inside_lem waiting h = absurd (omega (arith, h))
inside_lem asleep h = absurd (omega (arith, h))
inside_lem inside h = refl
inside_lem notifying h = absurd (omega (arith, h))

record Inv (n : ℕ) (guard : Bool) (pc : ℕ → Pc) : Type 0 where
  owned : sum_below is_inside n pc ≡ (if guard then 1 else 0)
  told : (guard ≡ true) ⊎ ((sum_below is_asleep n pc ≡ 0) ⊎ (0 < sum_below is_active n pc))

module _ (n : ℕ) (guard : Bool) (pc : ℕ → Pc) (inv : Inv n guard pc) (i : ℕ) (lt : i < n) where
  here : (p : Pc) → is_active (set_at pc i p i) ≡ is_active p
  here p = ground arith

  moved :
      (g : Bool) (p : Pc)
      → (if g then 1 else 0) + is_inside (pc i) ≡ (if guard then 1 else 0) + is_inside p
      → (g ≡ true) ⊎ (0 < is_active p)
      → Inv n g (set_at pc i p)
  moved g p o t = record {
    owned = omega (arith, inv.owned, o, sum_below-set_at is_inside n pc i p lt);
    told = elim t [
      | inl busy ↦ inl busy
      | inr awake ↦
          inr (inr (omega (arith, awake, le-sum_below is_active n (set_at pc i p) i lt, here p)))
    ];
  }

  Move-Inv : {q p : Pc} {g : Bool} → pc i ≡ q → Move guard q g p → Inv n g (set_at pc i p)
  Move-Inv e enter = moved guard trying (rw e refl) (inr (omega arith))
  Move-Inv e (take free) = moved true inside (rw (e, free) refl) (inl refl)
  Move-Inv e (refuse busy) = moved true waiting (rw (e, busy) refl) (inl refl)
  Move-Inv e (sleep busy) = moved guard asleep (rw e refl) (inl busy)
  Move-Inv e (pass free) = moved guard trying (rw e refl) (inr (omega arith))
  Move-Inv e stir = moved guard waiting (rw e refl) (inr (omega arith))
  Move-Inv e (try_take free) = moved true inside (rw (e, free) refl) (inl refl)
  Move-Inv e (try_refuse busy) = moved true outside (rw (e, busy) refl) (inl refl)
  Move-Inv e clear =
      moved false notifying (rw e (ground (arith, inv.owned, le-sum_below is_inside n pc i lt, e)))
        (inr (omega arith))

  one_woken :
      (j : ℕ)
      → j < n
      → pc i ≡ notifying
      → pc j ≡ asleep
      → Inv n guard (set_at (set_at pc i outside) j waiting)
  one_woken j lt' e e' =
      let q = sum_below-set_at is_inside n pc i outside lt in
      let r = sum_below-set_at is_inside n (set_at pc i outside) j waiting lt' in
      record {
        owned = ground (arith, inv.owned, q, r, e, e');
        told = inr (
            inr (
              ground
                (arith, le-sum_below is_active n (set_at (set_at pc i outside) j waiting) j lt')));
      }

  none_woken : pc i ≡ notifying → sum_below is_asleep n pc ≡ 0 → Inv n guard (set_at pc i outside)
  none_woken e quiet = record {
    owned = ground (arith, inv.owned, sum_below-set_at is_inside n pc i outside lt, e);
    told = inr (inl (ground (arith, quiet, sum_below-set_at is_asleep n pc i outside lt, e)));
  }

Reach-Inv : {n : ℕ} {s : System} → Reach n s → Inv n s.guard s.pc
Reach-Inv {n} start = record {
  owned = sum_below-eq_zero is_inside n (λ i. outside) (λ i. refl);
  told = inr (inl (sum_below-eq_zero is_asleep n (λ i. outside) (λ i. refl)));
}
Reach-Inv {n} (later {s} r (pick i lt mv)) = Move-Inv n s.guard s.pc (Reach-Inv r) i lt refl mv
Reach-Inv {n} (later {s} r (notify_one i j lt lt' e e')) =
    one_woken n s.guard s.pc (Reach-Inv r) i lt j lt' e e'
Reach-Inv {n} (later {s} r (notify_none i lt e quiet)) =
    none_woken n s.guard s.pc (Reach-Inv r) i lt e quiet

-- In every state that threads sharing a `spinlock` come to, however their accesses to the guard
-- are interleaved, at most one of them has the lock.
pub guard_excludes :
    {n : ℕ} {s : System}
    → Reach n s
    → (i j : ℕ) → i < n
    → j < n
    → s.pc i ≡ inside
    → s.pc j ≡ inside
    → i ≡ j
guard_excludes {n} {s} r i j lt lt' a b =
    sum_below_unique is_inside n s.pc i j (ground (arith, (Reach-Inv r).owned)) lt lt'
      (ground (arith, a)) (ground (arith, b))

-- In every state that threads sharing a `spinlock` come to, while one of them is asleep in `wait`,
-- some thread has the lock, is trying for it, or is about to call `notify_one`.
pub waiter_is_served :
    {n : ℕ} {s : System}
    → Reach n s
    → (i : ℕ) → i < n
    → s.pc i ≡ asleep
    → (j : ℕ) × (j < n) × ((s.pc j ≡ inside) ⊎ (0 < is_active (s.pc j)))
waiter_is_served {n} {s} r i lt e = elim (Reach-Inv r).told [
  | inl busy ↦
      let (j, lt', p) =
        sum_below-positive is_inside n s.pc (ground (arith, (Reach-Inv r).owned, busy)) in
      (j, lt', inl (inside_lem (s.pc j) p))
  | inr (inl quiet) ↦
      absurd (omega (arith, quiet, le-sum_below is_asleep n s.pc i lt, ap is_asleep e))
  | inr (inr active) ↦
      let (j, lt', p) = sum_below-positive is_active n s.pc active in (j, lt', inr p)
]
