-- ===== src/Tests/Addresses.antt =====
-- A Bluetooth address, printed and read.
use minapp.Base.{◌≡◌, refl, none, some, [], ◌∷◌, ◌++◌, arith}
use minapp.Bluetooth.{Address, to_string, endpoint_to_string}
use minapp.Bluetooth.Scanning.{make_address_of, make_address_of_string, scan_number, scan_separator}
use minapp.Bluetooth.Scanning.Printed.{make_address-to_string}

abbrev phone : Address
phone = record { data_of = 0x55 ∷ 0x44 ∷ 0x33 ∷ 0x22 ∷ 0xab ∷ 0 ∷ [] }

-- "00:AB:22:33:44:55"
printed :
    to_string phone
    ≡ 48 ∷ 48 ∷ 58 ∷ 65 ∷ 66 ∷ 58 ∷ 50 ∷ 50 ∷ 58 ∷ 51 ∷ 51 ∷ 58 ∷ 52 ∷ 52 ∷ 58 ∷ 53 ∷ 53 ∷ []
unfolding to_string
printed = refl

-- "]:210"
printed_channel :
    endpoint_to_string (record { bt_addr = phone.data_of; port = 210 })
    ≡ 91 ∷ to_string phone ++ (93 ∷ 58 ∷ 50 ∷ 49 ∷ 48 ∷ [])
unfolding endpoint_to_string
printed_channel = refl

-- " 0-aB:--22:33:44:55x" is the same address, and "-1:AB:22:33:44:55" is none.
lenient :
    make_address_of (
      32 ∷ 48 ∷ 45 ∷ 97 ∷ 66 ∷ 58 ∷ 45 ∷ 45 ∷ 50 ∷ 50 ∷ 58 ∷ 51 ∷ 51 ∷ 58 ∷ 52 ∷ 52 ∷ 58 ∷ 53 ∷ 53
      ∷ 120 ∷ [])
    ≡ some phone
unfolding make_address_of scan_number scan_separator
lenient = refl

negative_number :
    make_address_of_string
      (45 ∷ 49 ∷ 58 ∷ 65 ∷ 66 ∷ 58 ∷ 50 ∷ 50 ∷ 58 ∷ 51 ∷ 51 ∷ 58 ∷ 52 ∷ 52 ∷ 58 ∷ 53 ∷ 53 ∷ [])
    ≡ none
unfolding make_address_of_string scan_number scan_separator
negative_number = refl

make_address-to_string_example : make_address_of (to_string phone ++ (120 ∷ [])) ≡ some phone
make_address-to_string_example =
    make_address-to_string 0x55 0x44 0x33 0x22 0xab 0 (120 ∷ []) (omega arith) (omega arith)
      (omega arith) (omega arith) (omega arith) (omega arith)
