-- ===== src/Protocols/Hooks/Udp.antt =====
-- udpBuildHook of pkg/layers/udp.go as the receiver of the datagram sees it.
use goscapy.Base.{
  Bool-cases, length, put_be, ok, ℕ, String, ◌≡◌, refl, ap, ◌∙◌, inl, inr, true, some, List, [],
  ◌∷◌, ◌++◌, arith,
}
use goscapy.Values.{Value, u16, lookup, insert}
use goscapy.Fields.Ints.{short_field}
use goscapy.Layer.{
  Layer, is_some, find_field, serialize_into, serialize_into_loop, set as set_value,
}
use goscapy.Protocols.Tables.{udp_fields}
use goscapy.Protocols.Hooks.{set_field}

-- Writing a field that the table has.
pub set_field_known :
    (name : String) (val : Value) (l : Layer)
    → is_some (find_field l.fields name) ≡ true
    → set_field name val l ≡ record l { values = insert name val l.values }
unfolding set_field set_value
set_field_known name val l known = elim (Bool-cases (is_some (lookup name l.values))) [
  | inl has_value ↦ rw has_value refl
  | inr no_value ↦ rw (no_value, known) refl
]

-- The bytes of a header with its length and its checksum.
abbrev pub udp_header : (sport dport len csum : ℕ) → List ℕ
udp_header sport dport len csum = put_be 2 sport ++ put_be 2 dport ++ put_be 2 len ++ put_be 2 csum

-- A layer of the UDP table with these four values fills eight bytes with them.
pub serialize_udp :
    (l : Layer) (sport dport len : ℕ) (window : List ℕ)
    → l.fields ≡ udp_fields
    → lookup "sport" l.values ≡ some (u16 sport)
    → lookup "dport" l.values ≡ some (u16 dport)
    → lookup "len" l.values ≡ some (u16 len)
    → lookup "chksum" l.values ≡ some (u16 0)
    → length window ≡ 8
    → serialize_into l window ≡ ok (udp_header sport dport len 0, 8)
unfolding serialize_into put_be short_field
serialize_udp l sport dport len [] table sp dp ln cs size = absurd (omega arith)
serialize_udp l sport dport len (a ∷ []) table sp dp ln cs size = absurd (omega arith)
serialize_udp l sport dport len (a ∷ b ∷ []) table sp dp ln cs size = absurd (omega arith)
serialize_udp l sport dport len (a ∷ b ∷ c ∷ []) table sp dp ln cs size = absurd (omega arith)
serialize_udp l sport dport len (a ∷ b ∷ c ∷ d ∷ []) table sp dp ln cs size = absurd (omega arith)
serialize_udp l sport dport len (a ∷ b ∷ c ∷ d ∷ e ∷ []) table sp dp ln cs size =
    absurd (omega arith)
serialize_udp l sport dport len (a ∷ b ∷ c ∷ d ∷ e ∷ f ∷ []) table sp dp ln cs size =
    absurd (omega arith)
serialize_udp l sport dport len (a ∷ b ∷ c ∷ d ∷ e ∷ f ∷ g ∷ []) table sp dp ln cs size =
    absurd (omega arith)
serialize_udp l sport dport len (a ∷ b ∷ c ∷ d ∷ e ∷ f ∷ g ∷ h ∷ []) table sp dp ln cs size =
    ap (λ fs. serialize_into_loop fs l.values (a ∷ b ∷ c ∷ d ∷ e ∷ f ∷ g ∷ h ∷ []) 0) table
    ∙ rw (sp, dp, ln, cs) refl
serialize_udp l sport dport len (a ∷ b ∷ c ∷ d ∷ e ∷ f ∷ g ∷ h ∷ i ∷ rest) table sp dp ln cs size =
    absurd (omega arith)
