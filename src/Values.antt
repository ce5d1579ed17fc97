-- ===== src/Values.antt =====
-- The dynamic values that a layer's fields hold, and the maps from field names to them
-- (`map[string]any` of pkg/packet/layer.go).
use goscapy.Base.{
  ℕ, String, str_eq, str_eq_iff, List, [], ◌∷◌, Option, none, some, if◌then◌else◌, ◌≡◌, ◌≢◌, refl,
  arith, ltb, ◌^◌, ◌+◌, ◌-◌,
}

-- `TCPOption` of pkg/layers/tcp_options.go
pub record TcpOption : Type 0 where
  pub kind : ℕ
  pub len : ℕ
  pub body : List ℕ

-- The types that the modelled code puts into an `any`. An unsigned integer is its number, a signed
-- one its bit pattern; text and addresses are their bytes.
pub data Value : Type 0 where
  nil : Value
  u8 u16 u32 u64 : ℕ → Value
  int i32 i64 : ℕ → Value
  hardware_addr ip : List ℕ → Value
  str bytes : List ℕ → Value
  options : List TcpOption → Value

abbrev pub Values : Type 0
Values = List (String × Value)

unfoldable pub lookup : String → Values → Option Value
lookup k [] = none
lookup k ((j, v) ∷ m) = if str_eq j k then some v else lookup k m

unfoldable pub insert : String → Value → Values → Values
insert k v [] = (k, v) ∷ []
insert k v ((j, w) ∷ m) = if str_eq j k then (k, v) ∷ m else (j, w) ∷ insert k v m

pub lookup-insert :
    (key other : String) (new : Value) (vals : Values)
    → lookup other (insert key new vals)
      ≡ (if str_eq key other then some new else lookup other vals)
unfolding lookup insert
lookup-insert key other new [] = refl
lookup-insert key other new ((i, old) ∷ vals) = ground (
  lookup-insert key other new vals,
  str_eq_iff i key,
  str_eq_iff i other,
  str_eq_iff key other,
  arith,
)

pub lookup-insert_self : (k : String) (v : Value) (m : Values) → lookup k (insert k v m) ≡ some v
lookup-insert_self k v m = ground (arith, lookup-insert k k v m, str_eq_iff k k)

pub lookup-insert_ne :
    (k j : String) (v : Value) (m : Values) → k ≢ j → lookup j (insert k v m) ≡ lookup j m
lookup-insert_ne k j v m h = ground (arith, lookup-insert k j v m, str_eq_iff k j)

-- The bit pattern of an int64 from that of an int32: the sign bit is repeated.
abbrev pub sign_extend32 : ℕ → ℕ
sign_extend32 v = if ltb v (2 ^ 31) then v else v + (2 ^ 64 - 2 ^ 32)

-- `toUint64` of pkg/packet/dissect.go
unfoldable pub to_uint64 : Value → ℕ
to_uint64 (u8 v) = v
to_uint64 (u16 v) = v
to_uint64 (u32 v) = v
to_uint64 (u64 v) = v
to_uint64 (int v) = v
to_uint64 (i32 v) = sign_extend32 v
to_uint64 (i64 v) = v
to_uint64 _ = 0
