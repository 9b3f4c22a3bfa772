-- ===== src/Bluetooth/Scanning/Printed.antt =====
-- The printed form of an address read back, include/boost/asio/bluetooth/detail/impl/address.ipp.
use minapp.Base.{
  ℕ, zero, suc, ◌+◌, ◌/◌, ◌%◌, ◌<◌, ◌≤◌, ◌≡◌, ◌⊎◌, inl, inr, refl, ap, ◌∙◌, true, some, List, [],
  ◌∷◌, ◌++◌, get_or, drop, arith,
}
use minapp.Hexdump.{table}
use minapp.Bluetooth.{
  Address, print, to_string, Endpoint, address, channel, decimal, endpoint_to_string,
}
use minapp.Bluetooth.Order.{store_six, all_bytes}
use minapp.Bluetooth.Scanning.{
  scan_number, scan_separator, scan_more, sscanf, backwards, make_address_of,
}

abbrev digit : ℕ → ℕ
unfolding table
digit d = get_or (table true) d 0

-- The digits below ten are '0' to '9', the others 'A' to 'F'.
digit_cases : (d : ℕ) → d < 16 → ((d < 10) × (digit d ≡ d + 48)) ⊎ ((10 ≤ d) × (digit d ≡ d + 55))
unfolding table
digit_cases zero h = inl (omega arith, refl)
digit_cases (suc zero) h = inl (omega arith, refl)
digit_cases (suc (suc zero)) h = inl (omega arith, refl)
digit_cases (suc (suc (suc zero))) h = inl (omega arith, refl)
digit_cases (suc (suc (suc (suc zero)))) h = inl (omega arith, refl)
digit_cases (suc (suc (suc (suc (suc zero))))) h = inl (omega arith, refl)
digit_cases (suc (suc (suc (suc (suc (suc zero)))))) h = inl (omega arith, refl)
digit_cases (suc (suc (suc (suc (suc (suc (suc zero))))))) h = inl (omega arith, refl)
digit_cases (suc (suc (suc (suc (suc (suc (suc (suc zero)))))))) h = inl (omega arith, refl)
digit_cases (suc (suc (suc (suc (suc (suc (suc (suc (suc zero))))))))) h = inl (omega arith, refl)
digit_cases (suc (suc (suc (suc (suc (suc (suc (suc (suc (suc zero)))))))))) h =
    inr (omega arith, refl)
digit_cases (suc (suc (suc (suc (suc (suc (suc (suc (suc (suc (suc zero))))))))))) h =
    inr (omega arith, refl)
digit_cases (suc (suc (suc (suc (suc (suc (suc (suc (suc (suc (suc (suc zero)))))))))))) h =
    inr (omega arith, refl)
digit_cases (suc (suc (suc (suc (suc (suc (suc (suc (suc (suc (suc (suc (suc zero))))))))))))) h =
    inr (omega arith, refl)
digit_cases (suc (suc (suc (suc (suc (suc (suc (suc (suc (suc (suc (suc (suc (suc zero))))))))))))))
      h =
    inr (omega arith, refl)
digit_cases
      (suc (suc (suc (suc (suc (suc (suc (suc (suc (suc (suc (suc (suc (suc (suc zero)))))))))))))))
      h =
    inr (omega arith, refl)
digit_cases
      (suc
        (suc (suc (suc (suc (suc (suc (suc (suc (suc (suc (suc (suc (suc (suc (suc d))))))))))))))))
      h =
    absurd (omega arith)

-- The two digits of a byte, and what follows.
two : ℕ → List ℕ → List ℕ
two c s = digit (c / 16) ∷ digit (c % 16) ∷ s

scan_number-two : (c : ℕ) (s : List ℕ) → c < 256 → scan_number (two c s) ≡ some (c, s)
unfolding scan_number two
scan_number-two c s h =
    let high = digit_cases (c / 16) (omega arith) in
    let low = digit_cases (c % 16) (omega arith) in ground (arith, high, low)

scan_separator-two : (c : ℕ) (s : List ℕ) → c < 256 → scan_separator (58 ∷ two c s) ≡ some (two c s)
unfolding scan_separator two
scan_separator-two c s h = let high = digit_cases (c / 16) (omega arith) in ground (arith, high)

scan_more-two :
    (n c : ℕ) (s : List ℕ) → c < 256 → scan_more (suc n) (58 ∷ two c s) ≡ c ∷ scan_more n s
unfolding scan_more
scan_more-two n c s h =
    rw (scan_separator-two c s h, scan_more) (rw (scan_number-two c s h, scan_more) refl)

-- `sscanf` stores the six numbers of an address that is printed, whatever follows it.
sscanf-print :
    (a b c d e f : ℕ) (rest : List ℕ)
    → a < 256
    → b < 256
    → c < 256
    → d < 256
    → e < 256
    → f < 256
    → sscanf (print (a ∷ b ∷ c ∷ d ∷ e ∷ f ∷ []) ++ rest) ≡ a ∷ b ∷ c ∷ d ∷ e ∷ f ∷ []
unfolding sscanf print two
sscanf-print a b c d e f rest ha hb hc hd he hf =
    let text_a = 58 ∷ two a rest in
    let text_b = 58 ∷ two b text_a in
    let text_c = 58 ∷ two c text_b in
    let text_d = 58 ∷ two d text_c in
    let text_e = 58 ∷ two e text_d in
    rw (scan_number-two f text_e hf, sscanf)
      (ap (λ ns. backwards ns (f ∷ []))
        (scan_more-two 4 e text_d he
          ∙ ap (λ ns. e ∷ ns)
              (scan_more-two 3 d text_c hd
                ∙ ap (λ ns. d ∷ ns)
                    (scan_more-two 2 c text_b hc
                      ∙ ap (λ ns. c ∷ ns)
                          (scan_more-two 1 b text_a hb
                            ∙ ap (λ ns. b ∷ ns) (scan_more-two 0 a rest ha))))))

-- For six bytes: `make_address` of what `to_string` prints of an address, and of any text that
-- begins with it, is that address.
pub make_address-to_string :
    (a b c d e f : ℕ) (rest : List ℕ)
    → a < 256
    → b < 256
    → c < 256
    → d < 256
    → e < 256
    → f < 256
    → let addr : Address = record { data_of = a ∷ b ∷ c ∷ d ∷ e ∷ f ∷ [] } in
      make_address_of (to_string addr ++ rest) ≡ some addr
unfolding make_address_of to_string all_bytes
make_address-to_string a b c d e f rest ha hb hc hd he hf =
    rw (sscanf-print a b c d e f rest ha hb hc hd he hf) (rw (store_six a b c d e f) (ground arith))

-- The address of an endpoint that is printed, read from behind the bracket.
pub make_address-endpoint_to_string :
    (a b c d e f port : ℕ)
    → a < 256
    → b < 256
    → c < 256
    → d < 256
    → e < 256
    → f < 256
    → let ep : Endpoint = record { bt_addr = a ∷ b ∷ c ∷ d ∷ e ∷ f ∷ []; port = port } in
      make_address_of (drop 1 (endpoint_to_string ep)) ≡ some (address ep)
unfolding endpoint_to_string address channel
make_address-endpoint_to_string a b c d e f port =
    make_address-to_string a b c d e f (93 ∷ 58 ∷ decimal 5 port [])
