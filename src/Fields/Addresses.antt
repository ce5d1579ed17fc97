-- ===== src/Fields/Addresses.antt =====
-- pkg/fields/types.go and packinto.go: the address fields. Go's parsers of address texts are a
-- parameter; `To4` and `To16` are written out.
use goscapy.Base.{
  ℕ, String, List, [], ◌∷◌, ◌++◌, Option, some, none, ◌==◌, ◌&&◌, if◌then◌else◌, length, take, drop,
  Outcome, ok, err, ◌>>=◌, wrong_type, bad_address, Bool, true, false,
}
use goscapy.Values.{Value, hardware_addr, ip, str, bytes}
use goscapy.Fields.{Field, Written, described, validate_size, copy_into}

-- `net.ParseMAC` and `net.ParseIP` on the bytes of a text; `none` stands for an error or nil.
pub record Net : Type 0 where
  pub parse_mac : List ℕ → Option (List ℕ)
  pub parse_ip : List ℕ → Option (List ℕ)

-- The prefix ::ffff:0:0/96 of an IPv4 address in 16 bytes.
abbrev pub v4_in_v6_prefix : List ℕ
v4_in_v6_prefix = 0 ∷ 0 ∷ 0 ∷ 0 ∷ 0 ∷ 0 ∷ 0 ∷ 0 ∷ 0 ∷ 0 ∷ 255 ∷ 255 ∷ []

unfoldable pub eq_bytes : List ℕ → List ℕ → Bool
eq_bytes [] [] = true
eq_bytes (a ∷ xs) (b ∷ ys) = a == b && eq_bytes xs ys
eq_bytes _ _ = false

-- `net.IP.To4`
unfoldable pub to4 : List ℕ → Option (List ℕ)
unfolding eq_bytes
to4 v =
    if length v == 4
    then some v
    else if length v == 16 && eq_bytes (take 12 v) v4_in_v6_prefix
    then some (drop 12 v)
    else none

-- `net.IP.To16`
unfoldable pub to16 : List ℕ → Option (List ℕ)
to16 v =
    if length v == 4 then some (v4_in_v6_prefix ++ v) else if length v == 16 then some v else none

-- A nil address is an error.
abbrev pub required : Option (List ℕ) → Outcome (List ℕ)
required none = err bad_address
required (some a) = ok a

abbrev pub exactly : ℕ → List ℕ → Outcome (List ℕ)
exactly n v = if length v == n then ok v else err bad_address

module _ (net : Net) where
  open net use {parse_mac, parse_ip}

  -- The bytes that `MACField` takes from a value. The length of a parsed text is not looked at.
  unfoldable pub mac_bytes : Value → Outcome (List ℕ)
  mac_bytes (hardware_addr v) = exactly 6 v
  mac_bytes (str s) = required (parse_mac s)
  mac_bytes (bytes v) = exactly 6 v
  mac_bytes _ = err wrong_type

  -- `PackInto` of `MACField`
  abbrev pub mac_pack_into : List ℕ → Value → Written
  mac_pack_into buf val = do out ← mac_bytes val; copy_into buf out 6

  -- `MACField`; `PackInto` says 6 bytes, whatever it copied.
  unfoldable pub mac_field : String → List ℕ → Field
  unfolding mac_bytes
  mac_field name def_val = record {
    desc = described name 6 (hardware_addr def_val);
    pack = mac_bytes;
    unpack = λ b. (do _ ← validate_size b 6; ok (hardware_addr (take 6 b), 6));
    pack_into = some mac_pack_into;
    active = none;
  }

  unfoldable pub ip_bytes : Value → Outcome (List ℕ)
  ip_bytes (ip v) = required (to4 v)
  ip_bytes (str s) = do v ← required (parse_ip s); required (to4 v)
  ip_bytes _ = err wrong_type

  -- `PackInto` of `IPField`
  abbrev pub ip_pack_into : List ℕ → Value → Written
  ip_pack_into buf val = do out ← ip_bytes val; copy_into buf out 4

  -- `IPField`
  unfoldable pub ip_field : String → List ℕ → Field
  unfolding ip_bytes
  ip_field name def_val = record {
    desc = described name 4 (ip def_val);
    pack = ip_bytes;
    unpack = λ b. (do _ ← validate_size b 4; ok (ip (take 4 b), 4));
    pack_into = some ip_pack_into;
    active = none;
  }

  unfoldable pub ipv6_bytes : Value → Outcome (List ℕ)
  ipv6_bytes (ip v) = required (to16 v)
  ipv6_bytes (str s) = do v ← required (parse_ip s); required (to16 v)
  ipv6_bytes (bytes v) = exactly 16 v
  ipv6_bytes _ = err wrong_type

  -- `PackInto` of `IPv6Field`
  abbrev pub ipv6_pack_into : List ℕ → Value → Written
  ipv6_pack_into buf val = do out ← ipv6_bytes val; copy_into buf out 16

  -- `IPv6Field`
  unfoldable pub ipv6_field : String → List ℕ → Field
  unfolding ipv6_bytes
  ipv6_field name def_val = record {
    desc = described name 16 (ip def_val);
    pack = ipv6_bytes;
    unpack = λ b. (do _ ← validate_size b 16; ok (ip (take 16 b), 16));
    pack_into = some ipv6_pack_into;
    active = none;
  }
