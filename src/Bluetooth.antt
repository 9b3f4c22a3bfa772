-- ===== src/Bluetooth.antt =====
-- The Bluetooth addresses and endpoints of include/boost/asio/bluetooth: address.hpp,
-- detail/impl/address.ipp, detail/impl/endpoint.ipp, detail/endpoint.hpp and basic_endpoint.hpp,
-- where the platform is not Windows. `sscanf` is given by its result: the number of conversions
-- and the numbers it has stored.
pub mod Order
pub mod Scanning
use minapp.Base.{
  ℕ, zero, suc, ◌+◌, ◌/◌, ◌%◌, Bool, true, false, not, Option, none, some, List, [], ◌∷◌, ◌++◌,
  get_or, replicate, ltb, ◌==◌, ◌&&◌, if◌then◌else◌,
}
use minapp.AttributeSet.Keys.{less, same}
use minapp.Hexdump.{table}

-- `data`: six bytes.
pub record Address : Type 0 where
  pub data_of : List ℕ

unfoldable pub same_address : Address → Address → Bool
same_address a b = same a.data_of b.data_of

unfoldable pub less_address : Address → Address → Bool
less_address a b = less a.data_of b.data_of

unfoldable pub differ_address : Address → Address → Bool
unfolding same_address
differ_address a b = not (same_address a b)

-- `>`, `<=` and `>=` of addresses
unfoldable pub greater_address : Address → Address → Bool
unfolding less_address
greater_address a b = less_address b a

unfoldable pub leq_address : Address → Address → Bool
unfolding less_address
leq_address a b = not (less_address b a)

unfoldable pub geq_address : Address → Address → Bool
unfolding less_address
geq_address a b = not (less_address a b)

-- The loop of `make_address`: `r` numbers are still to be stored, the last of them first, in front
-- of those stored.
unfoldable pub store : ℕ → List ℕ → List ℕ → Option Address
store zero d stored = some (record { data_of = stored })
store (suc r) d stored =
    let rest = store r d (get_or d r 0 ∷ stored) in if ltb 255 (get_or d r 0) then none else rest

-- `make_address(str, ec)`, none for `invalid_argument`.
unfoldable pub make_address : ℕ → List ℕ → Option Address
unfolding store
make_address r d = if r == 6 then store 6 d [] else none

-- "%02X" of each byte, the last first.
unfoldable pub print : List ℕ → List ℕ
unfolding table
print [] = []
print (c ∷ []) = get_or (table true) (c / 16) 0 ∷ get_or (table true) (c % 16) 0 ∷ []
print (c ∷ d ∷ rest) =
    print (d ∷ rest) ++ (58 ∷ get_or (table true) (c / 16) 0 ∷ get_or (table true) (c % 16) 0 ∷ [])

-- `address::to_string`
unfoldable pub to_string : Address → List ℕ
unfolding print
to_string a = print a.data_of

-- `sockaddr_rc_type`: `port` is an `unsigned char`.
pub record Endpoint : Type 0 where
  pub bt_addr : List ℕ
  pub port : ℕ

-- `endpoint::channel(unsigned short)`
unfoldable pub set_channel : ℕ → Endpoint → Endpoint
set_channel channel_num e = record e { port = channel_num % 256 }

unfoldable pub set_address : Address → Endpoint → Endpoint
set_address addr e = record e { bt_addr = addr.data_of }

unfoldable pub channel : Endpoint → ℕ
channel e = e.port

unfoldable pub address : Endpoint → Address
address e = record { data_of = e.bt_addr }

-- The two constructors.
unfoldable pub default_endpoint : Endpoint
default_endpoint = record { bt_addr = replicate 6 0; port = 0 }

unfoldable pub endpoint : Address → ℕ → Endpoint
unfolding default_endpoint set_address set_channel
endpoint addr channel_num = set_channel channel_num (set_address addr default_endpoint)

-- `endpoint::resize`, which throws for a size above the union's.
unfoldable pub resize : ℕ → ℕ → Endpoint → Option Endpoint
resize capacity new_size e = if ltb capacity new_size then none else some e

unfoldable pub same_endpoint : Endpoint → Endpoint → Bool
unfolding same_address address channel
same_endpoint e1 e2 = same_address (address e1) (address e2) && (channel e1 == channel e2)

unfoldable pub less_endpoint : Endpoint → Endpoint → Bool
unfolding less_address same_address address channel
less_endpoint e1 e2 =
    if less_address (address e1) (address e2)
    then true
    else if not (same_address (address e1) (address e2))
    then false
    else ltb (channel e1) (channel e2)

unfoldable pub differ_endpoint : Endpoint → Endpoint → Bool
unfolding same_endpoint
differ_endpoint e1 e2 = not (same_endpoint e1 e2)

-- `>`, `<=` and `>=` of endpoints
unfoldable pub greater_endpoint : Endpoint → Endpoint → Bool
unfolding less_endpoint
greater_endpoint e1 e2 = less_endpoint e2 e1

unfoldable pub leq_endpoint : Endpoint → Endpoint → Bool
unfolding less_endpoint
leq_endpoint e1 e2 = not (less_endpoint e2 e1)

unfoldable pub geq_endpoint : Endpoint → Endpoint → Bool
unfolding less_endpoint
geq_endpoint e1 e2 = not (less_endpoint e1 e2)

-- What the stream prints for an `unsigned short`, which has five digits at most, in front of
-- `text`.
unfoldable pub decimal : ℕ → ℕ → List ℕ → List ℕ
decimal zero n text = text
decimal (suc digits) n text =
    let rest = decimal digits (n / 10) ((48 + n % 10) ∷ text) in
    if ltb n 10 then (48 + n) ∷ text else rest

-- `endpoint::to_string`: "[" and "]:" around the address.
unfoldable pub endpoint_to_string : Endpoint → List ℕ
unfolding to_string address channel decimal
endpoint_to_string e = 91 ∷ to_string (address e) ++ (93 ∷ 58 ∷ decimal 5 (channel e) [])
