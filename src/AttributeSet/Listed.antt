-- ===== src/AttributeSet/Listed.antt =====
-- The operations of the ordered set of src/attribute_set.cpp, on a list of entries: the laws of
-- `NvpSet` can hold together.
use minapp.Base.{
  ℕ, ◌+◌, ◌<◌, ◌≤◌, ◌≡◌, refl, sym, ap, ◌∙◌, subst, Bool, true, false, not, ◌&&◌, Option, none,
  some, List, [], ◌∷◌, if◌then◌else◌, Option-cases, Bool-cases, inl, inr, arith, length,
}
use mathlib.Core.Option.{some-injective}
use minapp.AttributeSet.Keys.{
  Key, Value, less, same, same_refl, same→eq, less_irrefl, less_trans, less_total,
}
use minapp.AttributeSet.Interface.{NvpSet}

abbrev pub Entries : Type 0
Entries = List (Key × Value)

abbrev pub lookup : Key → Entries → Option Value
lookup j [] = none
lookup j ((k, v) ∷ m) = if same j k then some v else lookup j m

abbrev pub without : Key → Entries → Entries
without j [] = []
without j ((k, v) ∷ m) = let rest = without j m in if same k j then rest else (k, v) ∷ rest

-- The entry with the least key of those that pass a test.
abbrev pub least : (Key → Bool) → Entries → Option (Key × Value)
least P [] = none
least P ((k, v) ∷ m) = elim (least P m) [
  | none ↦ if P k then some (k, v) else none
  | some (k', v') ↦ if P k && not (less k' k) then some (k, v) else some (k', v')
]

abbrev pub number_above : Key → Entries → ℕ
number_above b [] = 0
number_above b ((k, v) ∷ m) = (if less b k then 1 else 0) + number_above b m

same_sym : (a b : Key) → same a b ≡ true → same b a ≡ true
same_sym a b h = subst (λ c. same c a ≡ true) (same→eq a b h) (same_refl a)

pub lookup-without :
    (j k : Key) (m : Entries) → lookup j (without k m) ≡ (if same j k then none else lookup j m)
lookup-without j k [] = ground arith
lookup-without j k ((i, v) ∷ m) =
    let ih = lookup-without j k m in
    elim (Bool-cases (same i k)) [
      | inl s ↦ elim (Bool-cases (same j i)) [
        | inl t ↦
            let u : same j k ≡ true = subst (λ c. same j c ≡ true) (same→eq i k s) t in
            ground (arith, ih, s, t, u)
        | inr t ↦ ground (arith, ih, s, t)
      ]
      | inr s ↦ elim (Bool-cases (same j i)) [
        | inl t ↦
            let u : same j k ≡ false = subst (λ c. same c k ≡ false) (sym (same→eq j i t)) s in
            ground (arith, ih, s, t, u)
        | inr t ↦ ground (arith, ih, s, t)
      ]
    ]

pub least-none :
    (P : Key → Bool) (j : Key) (m : Entries) → least P m ≡ none → P j ≡ true → lookup j m ≡ none
least-none P j [] e p = refl
least-none P j ((k, v) ∷ m) e p = elim (Option-cases (least P m)) [
  | inl n ↦
      let ih = least-none P j m n p in
      elim (Bool-cases (same j k)) [
        | inl s ↦
            let pk : P k ≡ true = subst (λ c. P c ≡ true) (same→eq j k s) p in
            absurd (ground (arith, e, n, pk))
        | inr s ↦ ground (arith, ih, s)
      ]
  | inr ((k', v'), n) ↦ absurd (ground (arith, e, n))
]

entry-eq :
    (i k : Key) (u v : Value)
    → ◌≡◌ {A = Option (Key × Value)} (some (i, u)) (some (k, v))
    → (i ≡ k) × (u ≡ v)
entry-eq i k u v e =
    let p = some-injective _ _ e in
    (ap (λ (t : Key × Value). t.0) p, ap (λ (t : Key × Value). t.1) p)

less_asym : (a b : Key) → less a b ≡ true → less b a ≡ false
less_asym a b h = elim (Bool-cases (less b a)) [
  | inl e ↦ absurd (ground (arith, less_trans a b a h e, less_irrefl a))
  | inr e ↦ e
]

not_less_trans : (a b c : Key) → less a b ≡ false → less b c ≡ false → less a c ≡ false
not_less_trans a b c h k = elim (Bool-cases (less a c)) [
  | inr e ↦ e
  | inl e ↦ elim (Bool-cases (less c b)) [
    | inl l ↦ absurd (ground (arith, less_trans a c b e l, h))
    | inr l ↦
        let same_key = less_total c b l k in
        absurd (ground (arith, subst (λ i. less a i ≡ true) same_key e, h))
  ]
]

pub least-entry :
    (P : Key → Bool) (k : Key) (v : Value) (m : Entries)
    → least P m ≡ some (k, v)
    → (P k ≡ true) × (lookup k m ≡ some v)
least-entry P k v [] e = absurd (ground (arith, e))
least-entry P k v ((i, u) ∷ m) e = elim (Option-cases (least P m)) [
  | inl n ↦ elim (Bool-cases (P i)) [
    | inr p ↦ absurd (ground (arith, e, n, p))
    | inl p ↦ head p (entry-eq i k u v (ground (arith, e, n, p)))
  ]
  | inr ((k', v'), n) ↦
      let ih = least-entry P k' v' m n in
      elim (Bool-cases (P i && not (less k' i))) [
        | inl b ↦ head (ground (arith, b)) (entry-eq i k u v (ground (arith, e, n, b)))
        | inr b ↦ elim (Bool-cases (same k' i)) [
          | inl s ↦
              let p : P i ≡ true = subst (λ c. P c ≡ true) (same→eq k' i s) ih.0 in
              let l : less k' i ≡ false =
                subst (λ c. less k' c ≡ false) (same→eq k' i s) (less_irrefl k') in
              absurd (ground (arith, b, p, l))
          | inr s ↦
              let q = entry-eq k' k v' v (ground (arith, e, n, b)) in
              let found : lookup k' ((i, u) ∷ m) ≡ some v' = ground (arith, s, ih) in
              (
                subst (λ c. P c ≡ true) q.0 ih.0,
                subst (λ c. lookup c ((i, u) ∷ m) ≡ some v) q.0 (found ∙ ap some q.1),
              )
        ]
      ]
]
  where
    head : P i ≡ true → (i ≡ k) × (u ≡ v) → (P k ≡ true) × (lookup k ((i, u) ∷ m) ≡ some v)
    head p q =
        let found : lookup i ((i, u) ∷ m) ≡ some u = ground (arith, same_refl i) in
        (
          subst (λ c. P c ≡ true) q.0 p,
          subst (λ c. lookup c ((i, u) ∷ m) ≡ some v) q.0 (found ∙ ap some q.1),
        )

pub least-least :
    (P : Key → Bool) (j k : Key) (v w : Value) (m : Entries)
    → least P m ≡ some (k, v)
    → P j ≡ true
    → lookup j m ≡ some w
    → less j k ≡ false
least-least P j k v w [] e p f = absurd (ground (arith, e))
least-least P j k v w ((i, u) ∷ m) e p f = elim (Bool-cases (same j i)) [
  | inl s ↦
      let pi : P i ≡ true = subst (λ c. P c ≡ true) (same→eq j i s) p in
      let here : less i k ≡ false = elim (Option-cases (least P m)) [
        | inl n ↦
            subst (λ c. less i c ≡ false) (entry-eq i k u v (ground (arith, e, n, pi))).0
              (less_irrefl i)
        | inr ((k', v'), n) ↦ elim (Bool-cases (less k' i)) [
          | inl l ↦
              subst (λ c. less i c ≡ false) (entry-eq k' k v' v (ground (arith, e, n, pi, l))).0
                (less_asym k' i l)
          | inr l ↦
              subst (λ c. less i c ≡ false) (entry-eq i k u v (ground (arith, e, n, pi, l))).0
                (less_irrefl i)
        ]
      ] in
      subst (λ c. less c k ≡ false) (sym (same→eq j i s)) here
  | inr s ↦
      let f' : lookup j m ≡ some w = ground (arith, f, s) in
      elim (Option-cases (least P m)) [
        | inl n ↦ absurd (ground (arith, least-none P j m n p, f'))
        | inr ((k', v'), n) ↦
            let ih = least-least P j k' v' w m n p f' in
            elim (Bool-cases (P i && not (less k' i))) [
              | inl b ↦
                  let q = entry-eq i k u v (ground (arith, e, n, b)) in
                  subst (λ c. less j c ≡ false) q.0 (not_less_trans j k' i ih (ground (arith, b)))
              | inr b ↦
                  subst (λ c. less j c ≡ false) (entry-eq k' k v' v (ground (arith, e, n, b))).0 ih
            ]
      ]
]

number_above_le : (b k : Key) (m : Entries) → less b k ≡ true → number_above k m ≤ number_above b m
number_above_le b k [] h = omega arith
number_above_le b k ((i, u) ∷ m) h = elim (Bool-cases (less k i)) [
  | inl l ↦ ground (arith, number_above_le b k m h, l, less_trans b k i h l)
  | inr l ↦ ground (arith, number_above_le b k m h, l)
]

number_above-length : (k : Key) (m : Entries) → number_above k m ≤ length m
number_above-length k [] = omega arith
number_above-length k ((i, u) ∷ m) = ground (arith, number_above-length k m)

pub number_above-less :
    (b k : Key) (v : Value) (m : Entries)
    → lookup k m ≡ some v
    → less b k ≡ true
    → number_above k m < number_above b m
number_above-less b k v [] f h = absurd (ground (arith, f))
number_above-less b k v ((i, u) ∷ m) f h = elim (Bool-cases (same k i)) [
  | inl s ↦
      let e = same→eq k i s in
      let above_b : less b i ≡ true = subst (λ c. less b c ≡ true) e h in
      let not_above : less k i ≡ false = subst (λ c. less k c ≡ false) e (less_irrefl k) in
      ground (arith, number_above_le b k m h, above_b, not_above)
  | inr s ↦
      let ih = number_above-less b k v m (ground (arith, f, s)) h in
      elim (Bool-cases (less k i)) [
        | inl l ↦ ground (arith, ih, l, less_trans b k i h l)
        | inr l ↦ ground (arith, ih, l)
      ]
]

pub number_above_size :
    (k : Key) (v : Value) (m : Entries) → lookup k m ≡ some v → number_above k m < length m
number_above_size k v [] f = absurd (ground (arith, f))
number_above_size k v ((i, u) ∷ m) f = elim (Bool-cases (same k i)) [
  | inl s ↦
      let not_above : less k i ≡ false =
        subst (λ c. less k c ≡ false) (same→eq k i s) (less_irrefl k) in
      ground (arith, number_above-length k m, not_above)
  | inr s ↦ ground (arith, number_above_size k v m (ground (arith, f, s)))
]

pub not-true : (b : Bool) → not b ≡ true → b ≡ false
not-true b h = ground (arith, h)

abbrev pub listed : NvpSet
listed = record {
  Map = Entries;
  empty = [];
  find = lookup;
  insert = λ k v m. (k, v) ∷ m;
  assign = λ k v m. (k, v) ∷ m;
  erase = without;
  begin = least (λ k. true);
  lower_bound = λ b. least (λ k. not (less k b));
  upper_bound = λ b. least (less b);
  size = length;
  above = number_above;
  find-empty = λ k. refl;
  find-insert = λ j k v m h. refl;
  find-assign = λ j k v old m h. refl;
  find-erase = lookup-without;
  begin-first = λ k v m e. (least-entry (λ k. true) k v m e).1;
  begin-least = λ j k v w m e f. least-least (λ k. true) j k v w m e refl f;
  begin-none = λ j m e. least-none (λ k. true) j m e refl;
  lower_bound-entry = λ b k v m e.
      let t = least-entry (λ k. not (less k b)) k v m e in (not-true (less k b) t.0, t.1);
  upper_bound-entry = λ b k v m e. least-entry (less b) k v m e;
  upper_bound-least = λ b j k v w m e p f. least-least (less b) j k v w m e p f;
  upper_bound-none = λ b j m e p. least-none (less b) j m e p;
  above_size = number_above_size;
  above_less = number_above-less;
}
