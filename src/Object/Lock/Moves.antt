-- ===== src/Object/Lock/Moves.antt =====
-- Every move of a thread, and every `notify_all`, keeps the invariant.
use minapp.Base.{
  ℕ, ◌+◌, ◌*◌, ◌/◌, ◌%◌, ◌<◌, ◌≡◌, ◌≢◌, refl, sym, ap, ◌⊎◌, inl, inr, some, ◌∷◌, ◌==◌,
  if◌then◌else◌, arith, set_at, sum_below, sum_below-set_at, le-sum_below, sum_below-eq_zero,
  sum_below-zero_of, sum_below-change,
}
use minapp.Object.Lock.{
  Access, load, exchange, compare, guard, new_value, Shared, Pc, idle, switching, waiting, asleep,
  reloading, trying, holding, storing, notifying, terminated, stored, after_store, Move, enter,
  lock, mark, fail, marked, terminate, sleep, pass, stir, reload, try_enter, try_lock, try_fail,
  prepare, unlock, wake, System, pick, notify_all, init, Reach, start, later,
}
use minapp.Object.Lock.Invariant.{replay, holds, strays, misled, sleeps, notifies, Inv}

Inv-init : (n h : ℕ) → Inv n h (init h).shared (init h).pc
unfolding replay
Inv-init n h = record {
  tagged = omega arith;
  owned = ground (arith, sum_below-eq_zero holds n (init h).pc (λ i. refl));
  agreed = sum_below-eq_zero (strays (4 * h / 4)) n (init h).pc (λ i. refl);
  calm = sum_below-eq_zero misled n (init h).pc (λ i. refl);
  told = inl (sum_below-eq_zero sleeps n (init h).pc (λ i. refl));
  legal = ap some (omega arith);
}

outside_lock : (c : ℕ) (p : Pc) → holds p ≡ 0 → strays c p ≡ 0
outside_lock c idle e = refl
outside_lock c (switching v op) e = refl
outside_lock c (waiting v op) e = refl
outside_lock c (asleep v op) e = refl
outside_lock c (reloading op) e = refl
outside_lock c (trying v) e = refl
outside_lock c (holding p op) e = absurd (omega (arith, e))
outside_lock c (storing p h op) e = absurd (omega (arith, e))
outside_lock c notifying e = refl
outside_lock c terminated e = refl

stored_lem : (op : Access) (p word : ℕ) → p ≡ word / 4 → stored op p word ≡ new_value op p
stored_lem load p word e = refl
stored_lem (exchange desired) p word e = refl
stored_lem (compare expected desired) p word e = refl
stored_lem guard p word e = sym e

module _ (n h : ℕ) (m : Shared) (pc : ℕ → Pc) (inv : Inv n h m pc) (i : ℕ) (lt : i < n) where
  -- A move that leaves the handle.
  moved :
      (w : ℕ) (p : Pc)
      → w / 4 ≡ m.storage / 4
      → w % 4 < 3
      → (m.storage % 4 ≢ 2) ⊎ (w % 4 ≡ 2)
      → (if w % 4 == 0 then 0 else 1) + holds (pc i)
        ≡ (if m.storage % 4 == 0 then 0 else 1) + holds p
      → strays (m.storage / 4) p ≡ 0
      → misled p ≡ 0
      → (sleeps p ≡ 0) ⊎ (w % 4 ≡ 2)
      → notifies (pc i) ≡ 0
      → Inv n h (record m { storage = w }) (set_at pc i p)
  moved w p e t d o a c s b = record {
    tagged = t;
    owned = omega (arith, inv.owned, sum_below-set_at holds n pc i p lt, o);
    agreed =
        rw e (omega (arith, inv.agreed, sum_below-set_at (strays (m.storage / 4)) n pc i p lt, a));
    calm = omega (arith, inv.calm, sum_below-set_at misled n pc i p lt, c);
    told = ground (
      arith,
      inv.told,
      sum_below-set_at sleeps n pc i p lt,
      sum_below-set_at notifies n pc i p lt,
      s,
      d,
      b,
    );
    legal = rw e inv.legal;
  }

  stays :
      (p : Pc)
      → holds (pc i) ≡ holds p
      → strays (m.storage / 4) p ≡ 0
      → misled p ≡ 0
      → (sleeps p ≡ 0) ⊎ (m.storage % 4 ≡ 2)
      → notifies (pc i) ≡ 0
      → Inv n h m (set_at pc i p)
  stays p o a c s b = moved m.storage p refl inv.tagged (ground arith) (omega (arith, o)) a c s b

  -- What is stored is what an atomic object would hold.
  unlocked :
      (p g : ℕ) (op : Access)
      → pc i ≡ storing p g op
      → Inv n h
          (record m { storage = 4 * g; log = (op, p) ∷ m.log })
          (set_at pc i (after_store m.storage))
  unfolding replay
  unlocked p g op e =
      let a = le-sum_below (strays (m.storage / 4)) n pc i lt in
      let q : p ≡ m.storage / 4 = ground (arith, a, inv.agreed, e) in
      let r : g ≡ new_value op p = ground (arith, a, inv.agreed, e) in
      let none_left : sum_below holds n (set_at pc i (after_store m.storage)) ≡ 0 =
        ground (arith, inv.owned, sum_below-set_at holds n pc i (after_store m.storage) lt, e) in
      record {
        tagged = omega arith;
        owned = ground (arith, none_left);
        agreed =
            sum_below-zero_of holds (strays (4 * g / 4)) n _ (outside_lock (4 * g / 4)) none_left;
        calm =
            ground (arith, inv.calm, sum_below-set_at misled n pc i (after_store m.storage) lt, e);
        told = ground (
          arith,
          inv.told,
          sum_below-set_at sleeps n pc i (after_store m.storage) lt,
          sum_below-set_at notifies n pc i (after_store m.storage) lt,
          e,
        );
        legal = rw inv.legal (ground (arith, q, r));
      }

  Move-Inv : {q p : Pc} {m' : Shared} → pc i ≡ q → Move m q m' p → Inv n h m' (set_at pc i p)
  Move-Inv e (enter op) =
      stays (switching m.storage op) (rw e refl) refl (ground (arith, inv.tagged)) (inl refl)
        (rw e refl)
  Move-Inv e (lock {v} {op} z c) =
      moved (v + 1) (holding (v / 4) op) (omega (arith, c, z)) (omega (arith, c, z))
        (ground (arith, c, z)) (rw e (ground (arith, c, z))) (ground (arith, c)) refl (inl refl)
        (rw e refl)
  Move-Inv e (mark {v} {op} z c) =
      moved (4 * (v / 4) + 2) (waiting (4 * (v / 4) + 2) op) (omega (arith, c, z))
        (omega (arith, c, z)) (inr (omega arith)) (rw e (ground (arith, c, z))) refl (ground arith)
        (inl refl) (rw e refl)
  Move-Inv e (fail {v} {op} z) =
      stays (switching m.storage op) (rw e refl) refl (ground (arith, inv.tagged)) (inl refl)
        (rw e refl)
  Move-Inv e (marked {v} {op} z) =
      stays (waiting v op) (rw e refl) refl (ground (arith, z)) (inl refl) (rw e refl)
  Move-Inv e (terminate {v} {op} z) =
      absurd (ground (arith, z, e, le-sum_below misled n pc i lt, inv.calm))
  Move-Inv e (sleep {v} {op} z) =
      stays (asleep v op) (rw e refl) refl
        (ground (arith, e, le-sum_below misled n pc i lt, inv.calm))
        (inr (ground (arith, z, e, le-sum_below misled n pc i lt, inv.calm))) (rw e refl)
  Move-Inv e (pass {v} {op} z) = stays (reloading op) (rw e refl) refl refl (inl refl) (rw e refl)
  Move-Inv e (stir {v} {op}) =
      stays (waiting v op) (rw e refl) refl
        (ground (arith, e, le-sum_below misled n pc i lt, inv.calm)) (inl refl) (rw e refl)
  Move-Inv e (reload {op}) =
      stays (switching m.storage op) (rw e refl) refl (ground (arith, inv.tagged)) (inl refl)
        (rw e refl)
  Move-Inv e try_enter =
      stays (trying (4 * (m.storage / 4))) (rw e refl) refl refl (inl refl) (rw e refl)
  Move-Inv e (try_lock {v} c z) =
      moved (v + 1) (holding (v / 4) guard) (omega (arith, c, z)) (omega (arith, c, z))
        (ground (arith, c, z)) (rw e (ground (arith, c, z))) (ground (arith, c)) refl (inl refl)
        (rw e refl)
  Move-Inv e (try_fail {v}) = stays idle (rw e refl) refl refl (inl refl) (rw e refl)
  Move-Inv e (prepare {p} {op}) =
      let q : p ≡ m.storage / 4 =
        ground (arith, le-sum_below (strays (m.storage / 4)) n pc i lt, inv.agreed, e) in
      stays (storing p (stored op p m.storage) op) (rw e refl)
        (ground (arith, q, stored_lem op p m.storage q)) refl (inl refl) (rw e refl)
  Move-Inv e (unlock {p} {h = g} {op}) = unlocked p g op e

-- A weight of who has been woken.
wake_weight :
    (w u : Pc → ℕ)
    → ((v : ℕ) (op : Access) → w (waiting v op) ≡ u (asleep v op))
    → ((p : Pc) → sleeps p ≡ 0 → w p ≡ u p)
    → (p : Pc) → w (wake p) ≡ u p
wake_weight w u woken up idle = up idle refl
wake_weight w u woken up (switching v op) = up (switching v op) refl
wake_weight w u woken up (waiting v op) = up (waiting v op) refl
wake_weight w u woken up (asleep v op) = woken v op
wake_weight w u woken up (reloading op) = up (reloading op) refl
wake_weight w u woken up (trying v) = up (trying v) refl
wake_weight w u woken up (holding p op) = up (holding p op) refl
wake_weight w u woken up (storing p h op) = up (storing p h op) refl
wake_weight w u woken up notifying = up notifying refl
wake_weight w u woken up terminated = up terminated refl

Notify-Inv :
    (n h : ℕ) (m : Shared) (pc : ℕ → Pc)
    → Inv n h m pc
    → (i : ℕ) → i < n
    → pc i ≡ notifying
    → Inv n h m (λ j. wake (set_at pc i idle j))
Notify-Inv n h m pc inv i lt e = record {
  tagged = inv.tagged;
  owned = omega (
    arith,
    inv.owned,
    sum_below-set_at holds n pc i idle lt,
    ap holds e,
    woken holds holds (λ v op. refl) (λ p x. refl),
  );
  agreed = omega (
    arith,
    inv.agreed,
    sum_below-set_at (strays (m.storage / 4)) n pc i idle lt,
    woken (strays (m.storage / 4)) (strays (m.storage / 4)) (λ v op. refl) (λ p x. refl),
  );
  calm = omega (
    arith,
    inv.calm,
    sum_below-set_at misled n pc i idle lt,
    woken misled misled (λ v op. refl) (λ p x. refl),
  );
  told = inl (
      omega (
        arith,
        sum_below-eq_zero (λ (p : Pc). 0) n (set_at pc i idle) (λ j. refl),
        woken sleeps (λ p. 0) (λ v op. refl) (λ p x. x),
      ));
  legal = inv.legal;
}
  where
    woken :
        (w u : Pc → ℕ)
        → ((v : ℕ) (op : Access) → w (waiting v op) ≡ u (asleep v op))
        → ((p : Pc) → sleeps p ≡ 0 → w p ≡ u p)
        → sum_below w n (λ j. wake (set_at pc i idle j)) ≡ sum_below u n (set_at pc i idle)
    woken w u a b = sum_below-change u w wake n (set_at pc i idle) (wake_weight w u a b)

-- Every step of the threads keeps it.
pub Reach-Inv : {n h : ℕ} {s : System} → Reach n h s → Inv n h s.shared s.pc
Reach-Inv {n} {h} start = Inv-init n h
Reach-Inv {n} {h} (later {s} r (pick i lt mv)) =
    Move-Inv n h s.shared s.pc (Reach-Inv r) i lt refl mv
Reach-Inv {n} {h} (later {s} r (notify_all i lt e)) =
    Notify-Inv n h s.shared s.pc (Reach-Inv r) i lt e
