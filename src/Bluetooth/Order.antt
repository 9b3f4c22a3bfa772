-- ===== src/Bluetooth/Order.antt =====
-- The orders of addresses and endpoints, the parts of an endpoint and the numbers of an address,
-- include/boost/asio/bluetooth.
use minapp.Base.{
  ℕ, zero, suc, ◌+◌, ◌<◌, ◌%◌, ◌≡◌, refl, subst, ap, Bool, true, false, none, some, List, [], ◌∷◌,
  ltb, ◌&&◌, Bool-cases, inl, inr, ◌⊎◌, arith, if◌then◌else◌,
}
use minapp.AttributeSet.Keys.{less, same, same_refl, same→eq, less_irrefl, less_trans, less_total}
use native.Mathlib.Nat.{add-mod_right}
use minapp.Bluetooth.{
  Address, same_address, less_address, store, make_address, Endpoint, set_channel, set_address,
  channel, address, endpoint, default_endpoint, same_endpoint, less_endpoint,
}

less_asym : (a b : List ℕ) → less a b ≡ true → less b a ≡ false
less_asym a b h = elim (Bool-cases (less b a)) [
  | inl e ↦ absurd (ground (arith, less_trans a b a h e, less_irrefl a))
  | inr e ↦ e
]

less_not_same : (a b : List ℕ) → less a b ≡ true → same a b ≡ false
less_not_same a b h = elim (Bool-cases (same a b)) [
  | inl e ↦
      absurd (ground (arith, h, subst (λ c. less a c ≡ false) (same→eq a b e) (less_irrefl a)))
  | inr e ↦ e
]

same_sym : (a b : List ℕ) → same a b ≡ true → same b a ≡ true
same_sym a b h = subst (λ c. same c a ≡ true) (same→eq a b h) (same_refl a)

differ_sym : (a b : List ℕ) → same a b ≡ false → same b a ≡ false
differ_sym a b h = elim (Bool-cases (same b a)) [
  | inl e ↦ absurd (ground (arith, h, same_sym b a e))
  | inr e ↦ e
]

same_total : (a b : List ℕ) → less a b ≡ false → less b a ≡ false → same a b ≡ true
same_total a b h k = subst (λ c. same a c ≡ true) (less_total a b h k) (same_refl a)

endpoint_ext : (e1 e2 : Endpoint) → e1.bt_addr ≡ e2.bt_addr → e1.port ≡ e2.port → e1 ≡ e2
endpoint_ext e1 e2 p q i = record { bt_addr = p i; port = q i }

lt_cases : (m n : ℕ) → (m < n) ⊎ (m ≡ n) ⊎ (n < m)
lt_cases m n = ground arith

-- Of two endpoints exactly one holds: the first is less, the second is less, or they are `==`, and
-- then they are the same endpoint.
pub endpoint_trichotomy :
    (e1 e2 : Endpoint)
    → ((less_endpoint e1 e2 ≡ true) × (same_endpoint e1 e2 ≡ false) × (less_endpoint e2 e1 ≡ false))
      ⊎ ((less_endpoint e1 e2 ≡ false)
          × (same_endpoint e1 e2 ≡ false)
          × (less_endpoint e2 e1 ≡ true))
      ⊎ ((less_endpoint e1 e2 ≡ false)
          × (same_endpoint e1 e2 ≡ true)
          × (less_endpoint e2 e1 ≡ false)
          × (e1 ≡ e2))
unfolding less_endpoint same_endpoint less_address same_address address channel
endpoint_trichotomy e1 e2 =
    let a = e1.bt_addr in
    let b = e2.bt_addr in
    elim (Bool-cases (less a b)) [
      | inl l ↦
          let differ = less_not_same a b l in
          inl (ground (arith, l, less_asym a b l, differ, differ_sym a b differ))
      | inr l ↦ elim (Bool-cases (less b a)) [
        | inl k ↦
            let differ = differ_sym b a (less_not_same b a k) in
            inr (inl (ground (arith, l, k, differ, less_not_same b a k)))
        | inr k ↦
            let equal = same_total a b l k in
            let equal' = same_sym a b equal in
            elim (lt_cases e1.port e2.port) [
              | inl p ↦ inl (ground (arith, l, k, equal, equal', p))
              | inr (inl p) ↦ inr (
                  inr (
                    ground (arith, l, k, equal, equal', p),
                    ground (arith, l, k, equal, equal', p),
                    ground (arith, l, k, equal, equal', p),
                    endpoint_ext e1 e2 (same→eq a b equal) p,
                  ))
              | inr (inr p) ↦ inr (inl (ground (arith, l, k, equal, equal', p)))
            ]
      ]
    ]

-- An endpoint made of an address and a channel gives back the address and the channel modulo 256,
-- so that channels 256 apart give the same endpoint.
pub endpoint_parts :
    (addr : Address) (channel_num : ℕ)
    → (address (endpoint addr channel_num) ≡ addr)
      × (channel (endpoint addr channel_num) ≡ channel_num % 256)
      × (endpoint addr (channel_num + 256) ≡ endpoint addr channel_num)
unfolding endpoint default_endpoint set_channel set_address channel address
endpoint_parts addr channel_num = (
  refl,
  refl,
  ap (λ c. record { bt_addr = addr.data_of; port = c }) (add-mod_right channel_num 256),
)

-- The first `r` numbers are bytes.
unfoldable pub all_bytes : ℕ → List ℕ → Bool
all_bytes zero d = true
all_bytes (suc r) [] = true
all_bytes (suc r) (n ∷ d) = ltb n 256 && all_bytes r d

pub store_six :
    (a b c d e f : ℕ)
    → make_address 6 (a ∷ b ∷ c ∷ d ∷ e ∷ f ∷ []) ≡ (
        if all_bytes 6 (a ∷ b ∷ c ∷ d ∷ e ∷ f ∷ [])
        then some (record { data_of = a ∷ b ∷ c ∷ d ∷ e ∷ f ∷ [] })
        else none)
unfolding make_address store all_bytes
store_six a b c d e f = ground arith
