-- ===== src/Object/Steps.antt =====
-- The counts after each operation of `object` and `object::atomic`.
use minapp.Base.{
  ℕ, ◌+◌, ◌-◌, ◌<◌, ◌≡◌, ◌≢◌, refl, ap, subst, ◌∙◌, true, Option, none, some, ◌==◌, if◌then◌else◌,
  arith, set_at, sum_below-set_at, Option-cases, Bool-cases, inl, inr,
}
use minapp.Object.{
  Handle, Memory, same_handle, set_var, addref, release, create, construct, copy_construct,
  move_construct, destroy, copy_assign, move_assign, swap, emplace, exchange, store,
  compare_exchange,
}
use minapp.Object.Counting.{points_to, IsCounted, set_var-IsCounted, held-allocated}

-- The memory after a step that does not touch a block that is gone, and with counts that are right.
record Sound (n : ℕ) (hand : Handle) (var : ℕ → Handle) (r : Option Memory) : Type 0 where
  memory : Memory
  result : r ≡ some memory
  vars : memory.var ≡ var
  sound : (a : ℕ) → IsCounted n hand memory a

module _ (n : ℕ) where
  addref_held :
      (j a : ℕ) (m : Memory)
      → j < n
      → m.var j ≡ some a
      → ((a : ℕ) → IsCounted n none m a)
      → Sound n (some a) m.var (addref (some a) m)
  unfolding addref
  addref_held j a m lt e v =
      let (b, x, positive) = held-allocated n j a m lt e (v a) in
      record {
        memory = record m {
          block = set_at m.block a (some (record b { refcount = b.refcount + 1 }));
        };
        result = rw (x, addref) refl;
        vars = refl;
        sound = λ c. record {
          counted = ground (arith, (v c).counted, x);
          owned = ground (arith, (v c).owned, x);
          unused = ground (arith, (v c).unused, x);
        };
      }

  release_hand :
      (a : ℕ) (m : Memory)
      → ((c : ℕ) → IsCounted n (some a) m c)
      → Sound n none m.var (release (some a) m)
  unfolding release
  release_hand a m v = elim (Option-cases (m.block a)) [
    | inl x ↦ absurd (ground (arith, (v a).counted, x))
    | inr (b, x) ↦ record {
      memory = record m {
        block =
            set_at m.block a
              (if b.refcount - 1 == 0 then none else some (record b { refcount = b.refcount - 1 }));
      };
      result = rw (x, release) refl;
      vars = refl;
      sound = λ c. record {
        counted = ground (arith, (v c).counted, x);
        owned = ground (arith, (v c).owned, x);
        unused = ground (arith, (v c).unused, x);
      };
    }
  ]

  addref_lem :
      (j : ℕ) (m : Memory)
      → j < n
      → ((a : ℕ) → IsCounted n none m a)
      → Sound n (m.var j) m.var (addref (m.var j) m)
  unfolding addref
  addref_lem j m lt v = elim (Option-cases (m.var j)) [
    | inl x ↦ rw x (record { memory = m; result = refl; vars = refl; sound = v })
    | inr (a, x) ↦ rw x (addref_held j a m lt x v)
  ]

  release_lem :
      (h : Handle) (m : Memory) → ((c : ℕ) → IsCounted n h m c) → Sound n none m.var (release h m)
  unfolding release
  release_lem none m v = record { memory = m; result = refl; vars = refl; sound = v }
  release_lem (some a) m v = release_hand a m v

  create_lem :
      (type : ℕ) (m : Memory)
      → ((c : ℕ) → IsCounted n none m c)
      → (c : ℕ) → IsCounted n (create type m).0 (create type m).1 c
  unfolding create
  create_lem type m v c = record {
    counted = ground (arith, (v c).counted, (v c).unused, Option-cases (m.block c));
    owned = ground (arith, (v c).owned);
    unused = ground (arith, (v c).unused, Option-cases (m.block c));
  }

  put_lem :
      (i : ℕ) (h g : Handle) (m : Memory)
      → i < n
      → m.var i ≡ g
      → ((c : ℕ) → IsCounted n h m c)
      → (c : ℕ) → IsCounted n g (set_var i h m) c
  put_lem i h g m lt e v c =
      subst (λ (x : Handle). IsCounted n x (set_var i h m) c) e
        (set_var-IsCounted n i h m c lt (v c))

same_handle_refl : (h : Handle) → same_handle h h ≡ true
same_handle_refl none = refl
same_handle_refl (some a) = ground arith

-- The variables after a step are the program's affair; the counts are those of the variables.
pub record Kept (n : ℕ) (r : Option Memory) : Type 0 where
  pub memory : Memory
  pub result : r ≡ some memory
  pub kept : (a : ℕ) → IsCounted n none memory a

module _ (n : ℕ) (m : Memory) (v : (a : ℕ) → IsCounted n none m a) where
  pub construct_kept : (i type : ℕ) → i < n → m.var i ≡ none → Kept n (construct i type m)
  unfolding construct create
  construct_kept i type lt e = record {
    memory = set_var i (create type m).0 (create type m).1;
    result = refl;
    kept = put_lem n i (create type m).0 none (create type m).1 lt e (create_lem n type m v);
  }

  pub copy_kept : (i j : ℕ) → i < n → j < n → m.var i ≡ none → Kept n (copy_construct i j m)
  unfolding copy_construct
  copy_kept i j lt lt' e =
      let q = addref_lem n j m lt' v in
      record {
        memory = set_var i (m.var j) q.memory;
        result = rw (q.result, copy_construct) refl;
        kept =
            put_lem n i (m.var j) none q.memory lt (ap (λ (f : ℕ → Handle). f i) q.vars ∙ e)
              q.sound;
      }

  -- A variable that gives its pointer away is null.
  give_lem : (j : ℕ) → j < n → (c : ℕ) → IsCounted n (m.var j) (set_var j none m) c
  give_lem j lt = put_lem n j none (m.var j) m lt refl v

  released : (h : Handle) (x : Memory) → ((c : ℕ) → IsCounted n h x c) → Kept n (release h x)
  released h x w =
      let q = release_lem n h x w in record { memory = q.memory; result = q.result; kept = q.sound }

  pub move_kept : (i j : ℕ) → i < n → j < n → m.var i ≡ none → Kept n (move_construct i j m)
  unfolding move_construct
  move_kept i j lt lt' e = record {
    memory = set_var j none (set_var i (m.var j) m);
    result = refl;
    kept = λ c. record {
      counted = ground (
        arith,
        (v c).counted,
        e,
        sum_below-set_at (points_to c) n m.var i (m.var j) lt,
        sum_below-set_at (points_to c) n (set_at m.var i (m.var j)) j none lt',
      );
      owned = (v c).owned;
      unused = (v c).unused;
    };
  }

  pub destroy_kept : (i : ℕ) → i < n → Kept n (destroy i m)
  unfolding destroy
  destroy_kept i lt = released (m.var i) (set_var i none m) (give_lem i lt)

  pub emplace_kept : (i type : ℕ) → i < n → Kept n (emplace i type m)
  unfolding emplace create
  emplace_kept i type lt =
      released (m.var i) (set_var i (create type m).0 (create type m).1)
        (put_lem n i (create type m).0 (m.var i) (create type m).1 lt refl (create_lem n type m v))

  pub store_kept : (s d : ℕ) → s < n → d < n → s ≢ d → Kept n (store s d m)
  unfolding store
  store_kept s d lt lt' ne =
      released (m.var s) (set_var s (m.var d) (set_var d none m))
        (put_lem n s (m.var d) (m.var s) (set_var d none m) lt (ground arith) (give_lem d lt'))

  pub exchange_kept :
      (i s d : ℕ)
      → i < n
      → s < n
      → d < n
      → s ≢ d
      → i ≢ s
      → m.var i ≡ none
      → Kept n (exchange i s d m)
  unfolding exchange
  exchange_kept i s d lt lt' lt'' ne ne' e = record {
    memory = set_var i (m.var s) (set_var s (m.var d) (set_var d none m));
    result = refl;
    kept =
        put_lem n i (m.var s) none (set_var s (m.var d) (set_var d none m)) lt (ground (arith, e))
          (put_lem n s (m.var d) (m.var s) (set_var d none m) lt' (ground arith) (give_lem d lt''));
  }

  pub swap_kept : (i j : ℕ) → i < n → j < n → Kept n (swap i j m)
  unfolding swap
  swap_kept i j lt lt' = record {
    memory = set_var i (m.var j) (set_var j (m.var i) m);
    result = refl;
    kept = λ c. record {
      counted = ground (
        arith,
        (v c).counted,
        sum_below-set_at (points_to c) n m.var j (m.var i) lt',
        sum_below-set_at (points_to c) n (set_at m.var j (m.var i)) i (m.var j) lt,
      );
      owned = (v c).owned;
      unused = (v c).unused;
    };
  }

  pub copy_assign_kept : (i j : ℕ) → i < n → j < n → Kept n (copy_assign i j m)
  unfolding copy_assign
  copy_assign_kept i j lt lt' = elim (Bool-cases (same_handle (m.var i) (m.var j))) [
    | inl same ↦ record { memory = m; result = rw same refl; kept = v }
    | inr other ↦
        let q = addref_lem n j m lt' v in
        let r = released (m.var i) (set_var i (m.var j) q.memory) (
          put_lem n i (m.var j) (m.var i) q.memory lt (ap (λ (f : ℕ → Handle). f i) q.vars)
            q.sound) in
        record { memory = r.memory; result = rw (other, q.result) r.result; kept = r.kept }
  ]

  pub compare_kept :
      (s expected d : ℕ)
      → s < n
      → expected < n
      → d < n
      → s ≢ d
      → s ≢ expected
      → expected ≢ d
      → Kept n (compare_exchange s expected d m)
  unfolding compare_exchange store
  compare_kept s expected d lt lt' lt'' ne ne' ne'' =
      elim (Bool-cases (same_handle (m.var s) (m.var expected))) [
        | inl same ↦
            let r = store_kept s d lt lt'' ne in
            record { memory = r.memory; result = rw same r.result; kept = r.kept }
        | inr other ↦
            let q = addref_lem n s m lt v in
            let x = set_var expected (m.var s) q.memory in
            let r = release_lem n (m.var expected) x (
              put_lem n expected (m.var s) (m.var expected) q.memory lt'
                (ap (λ (f : ℕ → Handle). f expected) q.vars) q.sound) in
            let t = released (m.var d) (set_var d none r.memory) (
              put_lem n d none (m.var d) r.memory lt''
                (ap (λ (f : ℕ → Handle). f d) r.vars
                  ∙ ground (arith, ap (λ (f : ℕ → Handle). f d) q.vars))
                r.sound) in
            record {
              memory = t.memory;
              result = rw (other, q.result, r.result) t.result;
              kept = t.kept;
            }
      ]

  pub move_assign_kept : (i j : ℕ) → i < n → j < n → Kept n (move_assign i j m)
  unfolding move_assign
  move_assign_kept i j lt lt' = elim (Bool-cases (same_handle (m.var i) (m.var j))) [
    | inl same ↦ record { memory = m; result = rw same refl; kept = v }
    | inr other ↦
        let r = released (m.var i) (set_var i (m.var j) (set_var j none m)) (
          put_lem n i (m.var j) (m.var i) (set_var j none m) lt
            (ground (arith, other, same_handle_refl (m.var i))) (give_lem j lt')) in
        record { memory = r.memory; result = rw other r.result; kept = r.kept }
  ]
