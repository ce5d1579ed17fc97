-- ===== src/Fields/Laws/Standard.antt =====
-- The field types of pkg/fields together: `Pack` against `PackInto` and `FixedSize`.
use goscapy.Base.{ℕ, String, List, Bool}
use goscapy.Values.{Value, Values}
use goscapy.Fields.{Field}
use goscapy.Fields.Ints.{
  byte_field, xbyte_field, short_field, le_short_field, three_bytes_field, int_field,
  signed_int_field, le_int_field, long_field, le_long_field, bit_field,
}
use goscapy.Fields.Addresses.{Net, mac_field, ip_field, ipv6_field}
use goscapy.Fields.Texts.{
  str_field, str_len_field, str_fixed_field, packet_field, conditional_field,
}
use goscapy.Fields.Laws.{IsLawfulAt}
use goscapy.Fields.Laws.Ints.{
  byte_field-IsLawfulAt, short_field-IsLawfulAt, le_short_field-IsLawfulAt,
  three_bytes_field-IsLawfulAt, int_field-IsLawfulAt, signed_int_field-IsLawfulAt,
  le_int_field-IsLawfulAt, long_field-IsLawfulAt, le_long_field-IsLawfulAt, bit_field-IsLawfulAt,
}
use goscapy.Fields.Laws.Others.{
  str_field-IsLawfulAt, str_len_field-IsLawfulAt, packet_field-IsLawfulAt,
  str_fixed_field-IsLawfulAt, ip_field-IsLawfulAt, ipv6_field-IsLawfulAt, mac_field-IsLawfulAt,
  FitsMac, conditional_field-IsLawfulAt,
}

-- A field of one of the package's types, with any value; of a MAC field, any value but a text that
-- parses to another number of bytes than six.
pub data Standard (v : Value) : Field → Type 0 where
  is_byte : (name : String) (d : ℕ) → Standard v (byte_field name d)
  is_xbyte : (name : String) (d : ℕ) → Standard v (xbyte_field name d)
  is_short : (name : String) (d : ℕ) → Standard v (short_field name d)
  is_le_short : (name : String) (d : ℕ) → Standard v (le_short_field name d)
  is_three_bytes : (name : String) (d : ℕ) → Standard v (three_bytes_field name d)
  is_int : (name : String) (d : ℕ) → Standard v (int_field name d)
  is_signed_int : (name : String) (d : ℕ) → Standard v (signed_int_field name d)
  is_le_int : (name : String) (d : ℕ) → Standard v (le_int_field name d)
  is_long : (name : String) (d : ℕ) → Standard v (long_field name d)
  is_le_long : (name : String) (d : ℕ) → Standard v (le_long_field name d)
  is_bit : (name : String) (d bits : ℕ) → Standard v (bit_field name d bits)
  is_mac :
      (net : Net) (name : String) (d : List ℕ)
      → FitsMac net name d v
      → Standard v (mac_field net name d)
  is_ip : (net : Net) (name : String) (d : List ℕ) → Standard v (ip_field net name d)
  is_ipv6 : (net : Net) (name : String) (d : List ℕ) → Standard v (ipv6_field net name d)
  is_str : (name : String) (d : List ℕ) → Standard v (str_field name d)
  is_str_len :
      (name : String) (d : List ℕ) (from : String) → Standard v (str_len_field name d from).field
  is_str_fixed : (name : String) (size : ℕ) (d : List ℕ) → Standard v (str_fixed_field name size d)
  is_packet : (name pkt : String) → Standard v (packet_field name pkt).field
  is_conditional :
      (f : Field) (cond : Values → Bool) → Standard v f → Standard v (conditional_field f cond)

-- For each field type and any value (of a MAC field, no text that parses to other than six bytes):
-- `PackInto` writes what `Pack` returns into any buffer with room for it, with that length, and
-- fails with the same error; and the size that `WireSize` counts is the length of what `Pack` returns.
pub Standard-IsLawfulAt : {v : Value} {f : Field} → Standard v f → IsLawfulAt f v
unfolding xbyte_field
Standard-IsLawfulAt {v} (is_byte name d) = byte_field-IsLawfulAt name d v
Standard-IsLawfulAt {v} (is_xbyte name d) = byte_field-IsLawfulAt name d v
Standard-IsLawfulAt {v} (is_short name d) = short_field-IsLawfulAt name d v
Standard-IsLawfulAt {v} (is_le_short name d) = le_short_field-IsLawfulAt name d v
Standard-IsLawfulAt {v} (is_three_bytes name d) = three_bytes_field-IsLawfulAt name d v
Standard-IsLawfulAt {v} (is_int name d) = int_field-IsLawfulAt name d v
Standard-IsLawfulAt {v} (is_signed_int name d) = signed_int_field-IsLawfulAt name d v
Standard-IsLawfulAt {v} (is_le_int name d) = le_int_field-IsLawfulAt name d v
Standard-IsLawfulAt {v} (is_long name d) = long_field-IsLawfulAt name d v
Standard-IsLawfulAt {v} (is_le_long name d) = le_long_field-IsLawfulAt name d v
Standard-IsLawfulAt {v} (is_bit name d bits) = bit_field-IsLawfulAt name d bits v
Standard-IsLawfulAt {v} (is_mac net name d fits) = mac_field-IsLawfulAt net name d v fits
Standard-IsLawfulAt {v} (is_ip net name d) = ip_field-IsLawfulAt net name d v
Standard-IsLawfulAt {v} (is_ipv6 net name d) = ipv6_field-IsLawfulAt net name d v
Standard-IsLawfulAt {v} (is_str name d) = str_field-IsLawfulAt name d v
Standard-IsLawfulAt {v} (is_str_len name d from) = str_len_field-IsLawfulAt name d from v
Standard-IsLawfulAt {v} (is_str_fixed name size d) = str_fixed_field-IsLawfulAt name size d v
Standard-IsLawfulAt {v} (is_packet name pkt) = packet_field-IsLawfulAt name pkt v
Standard-IsLawfulAt {v} (is_conditional f cond s) =
    conditional_field-IsLawfulAt f cond v (Standard-IsLawfulAt s)
