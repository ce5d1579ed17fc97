-- ===== src/Tlv.antt =====
-- pkg/fields/tlv.go: options of a type byte, a length byte and a value.
pub mod RoundTrip
mod Tests
use goscapy.Base.{
  ℕ, suc, zero, ◌+◌, ◌≤◌, ◌<◌, Bool, List, [], ◌∷◌, ◌++◌, Option, none, some, ltb, ◌==◌,
  if◌then◌else◌, length, take, drop, Outcome, ok, err, stuck, truncated,
}

-- `TLVOption`
pub record TlvOption : Type 0 where
  pub typ : ℕ
  pub len : ℕ
  pub value : List ℕ

-- The loop of `ParseTLV`: `rest` is what is left, `opts` what was appended.
parse_loop : ℕ → List ℕ → List TlvOption → Outcome (List TlvOption)
parse_loop fuel [] opts = ok opts
parse_loop zero (typ ∷ tail) opts = stuck
parse_loop (suc fuel) (typ ∷ []) opts = if typ == 0 then ok opts else err truncated
parse_loop (suc fuel) (typ ∷ len ∷ body) opts =
    let opt : TlvOption = record { typ = typ; len = len; value = take len body } in
    let more = parse_loop fuel (drop len body) (opts ++ (opt ∷ [])) in
    if typ == 0 then ok opts else if ltb (length body) len then err truncated else more

-- `ParseTLV`. A round takes two bytes at least, so the input's length is enough fuel.
pub parse_tlv : List ℕ → Outcome (List TlvOption)
parse_tlv bytes = parse_loop (length bytes) bytes []

-- `BuildTLV`
pub build_tlv : List TlvOption → List ℕ
build_tlv [] = []
build_tlv (o ∷ opts) = o.typ ∷ o.len ∷ (o.value ++ build_tlv opts)

-- `Nested`
pub nested : TlvOption → Outcome (List TlvOption)
nested o = parse_tlv o.value

-- `GetTLV`
pub get_tlv : List TlvOption → ℕ → Option TlvOption
get_tlv [] typ = none
get_tlv (o ∷ opts) typ = if o.typ == typ then some o else get_tlv opts typ

-- `GetAllTLV`
pub get_all_tlv : List TlvOption → ℕ → List TlvOption
get_all_tlv [] typ = []
get_all_tlv (o ∷ opts) typ =
    let rest = get_all_tlv opts typ in if o.typ == typ then o ∷ rest else rest
