-- ===== src/Protocol.antt =====
-- include/minapp/protocol.hpp: the framing protocols and the option flags.
use minapp.Base.{ℕ, ◌-◌, ◌^◌, Bool, ◌==◌, bit_and, bit_or}
use Prim.Native.Nat.{bit_xor}

-- `enum class protocol`; `unknown` stands for a value that is none of its enumerators.
pub data Protocol : Type 0 where
  none any fixed delim delim_zero delim_cr delim_lf delim_crlf : Protocol
  prefix_8 prefix_16 prefix_32 prefix_64 prefix_var unknown : Protocol

-- `enum class protocol_options : unsigned`, an unsigned of 32 bits.
abbrev pub Options : Type 0
Options = ℕ

abbrev pub do_not_consume_buffer : Options
do_not_consume_buffer = 1

abbrev pub ignore_protocol_bytes : Options
ignore_protocol_bytes = 2

abbrev pub use_little_endian : Options
use_little_endian = 4

abbrev pub include_prefix_in_payload : Options
include_prefix_in_payload = 8

-- The operators `&`, `|`, `^` and `~` of MINAPP_PROTOCOL_OPTIONS_OPERATOR.
abbrev pub options_and : Options → Options → Options
options_and lhs rhs = bit_and lhs rhs

abbrev pub options_or : Options → Options → Options
options_or lhs rhs = bit_or lhs rhs

abbrev pub options_xor : Options → Options → Options
options_xor lhs rhs = bit_xor lhs rhs

abbrev pub options_not : Options → Options
options_not o = 2 ^ 32 - 1 - o

unfoldable pub has_options : Options → Options → Bool
has_options all_options options = options_and all_options options == options
