-- ===== src/Protocols/Hooks/IpHeader.antt =====
-- ipBuildHook of pkg/layers/ip.go as the receiver of the header sees it.
use goscapy.Base.{
  ltb, if◌then◌else◌, lt→ltb, length, take, drop, All, length-append, take-append_length,
  All-append, IsByte, put_be, ok, ◌>>=◌, ℕ, ◌≤◌, ◌<◌, String, str_eq, ◌≡◌, refl, sym, ap, subst,
  ◌∙◌, true, false, some, List, [], ◌∷◌, ◌++◌, append-nil, arith,
}
use goscapy.Values.{Value, Values, u8, u16, lookup, insert, lookup-insert}
use goscapy.Fields.Ints.{byte_field, short_field}
use goscapy.Fields.Addresses.{Net, ip_field, ip_bytes}
use goscapy.Fields.Laws.Standard.{Standard-IsLawfulAt, is_byte, is_short, is_ip}
use goscapy.Layer.{Layer, is_some, find_field, serialize_into, serialize_fields, serialize_loop}
use goscapy.Layer.Serialize.{IsLawful, serialize_into-serialize_fields}
use goscapy.Packet.{Packet}
use goscapy.Checksum.{checksum}
use goscapy.Checksum.Chain.{checksum-with_word, with_word}
use goscapy.Protocols.Tables.{ip_fields}
use goscapy.Protocols.Hooks.{set_field, with_layer, put_checksum, is_unset, ip_put}
use goscapy.Protocols.Hooks.Udp.{set_field_known}

-- The values of an IP layer whose addresses are set.
pub record IpValues (net : Net) (vals : Values) : Type 0 where
  pub verihl : ℕ
  pub tos : ℕ
  pub id : ℕ
  pub frag : ℕ
  pub ttl : ℕ
  pub proto : ℕ
  pub src_val : Value
  pub dst_val : Value
  pub src : List ℕ
  pub dst : List ℕ
  pub has_verihl : lookup "verihl" vals ≡ some (u8 verihl)
  pub has_tos : lookup "tos" vals ≡ some (u8 tos)
  pub has_id : lookup "id" vals ≡ some (u16 id)
  pub has_frag : lookup "frag" vals ≡ some (u16 frag)
  pub has_ttl : lookup "ttl" vals ≡ some (u8 ttl)
  pub has_proto : lookup "proto" vals ≡ some (u8 proto)
  pub has_src : lookup "src" vals ≡ some src_val
  pub has_dst : lookup "dst" vals ≡ some dst_val
  pub src_set : is_unset src_val ≡ false
  pub src_packed : ip_bytes net src_val ≡ ok src
  pub dst_packed : ip_bytes net dst_val ≡ ok dst
  pub src_bytes : All IsByte src × (length src ≡ 4)
  pub dst_bytes : All IsByte dst × (length dst ≡ 4)
  pub fit : (verihl < 256) × (tos < 256) × (ttl < 256) × (proto < 256)

module _ (net : Net) (vals : Values) (v : IpValues net vals) where
  -- The ten bytes in front of the checksum.
  abbrev pub ip_front : (len : ℕ) → List ℕ
  ip_front len =
      (v.verihl ∷ v.tos ∷ [])
      ++ put_be 2 len
      ++ put_be 2 v.id
      ++ put_be 2 v.frag
      ++ (v.ttl ∷ v.proto ∷ [])

  abbrev pub ip_header : (len csum : ℕ) → List ℕ
  ip_header len csum = with_word (ip_front len) (put_be 2 csum) (v.src ++ v.dst)

  ip_front-IsByte : (len : ℕ) → All IsByte (ip_front len)
  unfolding put_be
  ip_front-IsByte len = omega (arith, v.fit)

  -- The values that the hook leaves for the serialization.
  abbrev zeroed_vals : (len : ℕ) → Values
  zeroed_vals len = insert "chksum" (u16 0) (insert "len" (u16 len) vals)

  still :
      (len : ℕ) (name : String)
      → lookup name (zeroed_vals len) ≡ (
          if str_eq "chksum" name
          then some (u16 0)
          else if str_eq "len" name
          then some (u16 len)
          else lookup name vals)
  still len name =
      lookup-insert "chksum" name (u16 0) (insert "len" (u16 len) vals)
      ∙ ap (λ o. if str_eq "chksum" name then some (u16 0) else o)
          (lookup-insert "len" name (u16 len) vals)

  serialized : (len : ℕ) → serialize_loop (ip_fields net) (zeroed_vals len) ≡ ok (ip_header len 0)
  unfolding serialize_loop byte_field short_field ip_field put_be
  serialized len =
      rw
        (
          still len "verihl" ∙ v.has_verihl,
          still len "tos" ∙ v.has_tos,
          still len "len",
          still len "id" ∙ v.has_id,
          still len "frag" ∙ v.has_frag,
          still len "ttl" ∙ v.has_ttl,
          still len "proto" ∙ v.has_proto,
          still len "chksum",
          still len "src" ∙ v.has_src,
          still len "dst" ∙ v.has_dst,
          v.src_packed,
          v.dst_packed,
          append-nil v.dst,
        )
        refl

  lawful : (ws : Values) → IsLawful (ip_fields net) ws
  lawful ws = (
    λ w _. Standard-IsLawfulAt (is_byte "verihl" 0x45),
    (
      λ w _. Standard-IsLawfulAt (is_byte "tos" 0),
      (
        λ w _. Standard-IsLawfulAt (is_short "len" 20),
        (
          λ w _. Standard-IsLawfulAt (is_short "id" 0),
          (
            λ w _. Standard-IsLawfulAt (is_short "frag" 0),
            (
              λ w _. Standard-IsLawfulAt (is_byte "ttl" 64),
              (
                λ w _. Standard-IsLawfulAt (is_byte "proto" 0),
                (
                  λ w _. Standard-IsLawfulAt (is_short "chksum" 0),
                  (
                    λ w _. Standard-IsLawfulAt (is_ip net "src" []),
                    (λ w _. Standard-IsLawfulAt (is_ip net "dst" []), tt),
                  ),
                ),
              ),
            ),
          ),
        ),
      ),
    ),
  )

  length-ip_header : (len csum : ℕ) → length (ip_header len csum) ≡ 20
  unfolding put_be
  length-ip_header len csum = omega (arith, length-append v.src v.dst, v.src_bytes.1, v.dst_bytes.1)

  put_ip_checksum :
      (len csum : ℕ) (rest : List ℕ)
      → put_checksum 10 csum (ip_header len 0 ++ rest) ≡ ok (ip_header len csum ++ rest)
  unfolding put_checksum put_be
  put_ip_checksum len csum rest =
      let room : ltb 11 (length (ip_header len 0 ++ rest)) ≡ true =
        lt→ltb _ _ (omega (arith, length-append (ip_header len 0) rest, length-ip_header len 0)) in
      rw room refl

  -- The layer of the table with these values, its length set and its checksum 0.
  module _ (l : Layer) (table : l.fields ≡ ip_fields net) (same : l.values ≡ vals) where
    unfoldable pub zeroed_ip : (len : ℕ) → Layer
    zeroed_ip len = set_field "chksum" (u16 0) (set_field "len" (u16 len) l)

    zeroed_ip-values : (len : ℕ) → zeroed_ip len ≡ record l { values = zeroed_vals len }
    unfolding zeroed_ip find_field byte_field short_field
    zeroed_ip-values len =
        let has_len = ap (λ fs. is_some (find_field fs "len")) table in
        let has_chksum = ap (λ fs. is_some (find_field fs "chksum")) table in
        ap (set_field "chksum" (u16 0)) (set_field_known "len" (u16 len) l has_len)
        ∙ set_field_known "chksum" (u16 0) (record l { values = insert "len" (u16 len) l.values })
            has_chksum
        ∙ ap (λ ws. record l { values = insert "chksum" (u16 0) (insert "len" (u16 len) ws) }) same

    pub serialize_zeroed_ip :
        (len : ℕ) (window : List ℕ)
        → 20 ≤ length window
        → serialize_into (zeroed_ip len) window ≡ ok (ip_header len 0 ++ drop 20 window, 20)
    unfolding serialize_fields
    serialize_zeroed_ip len window room =
        let size = length-ip_header len 0 in
        let packed : serialize_fields (record l { values = zeroed_vals len })
            ≡ ok (ip_header len 0) =
          ap (λ fs. serialize_loop fs (zeroed_vals len)) table ∙ serialized len in
        ap (λ z. serialize_into z window) (zeroed_ip-values len)
        ∙ serialize_into-serialize_fields (record l { values = zeroed_vals len }) window
            (ip_header len 0)
            (subst (λ fs. IsLawful fs (zeroed_vals len)) (sym table) (lawful (zeroed_vals len)))
            packed (omega (arith, size))
        ∙ ap (λ n. ok (ip_header len 0 ++ drop n window, n)) size

    -- The end of the hook, once the header is serialized with a checksum of 0.
    pub ip_put-verified :
        (p : Packet) (i len : ℕ) (window : List ℕ)
        → (p' : Packet) × (csum : ℕ) × (ip_put p i
              (zeroed_ip len)
              (ip_header len 0 ++ drop 20 window, 20)
            ≡ ok (p', ip_header len csum ++ drop 20 window, 20))
          × (checksum (ip_header len csum) ≡ ok 0)
    unfolding ip_put put_be
    ip_put-verified p i len window =
        let all_good = All-append IsByte v.src v.dst v.src_bytes.0 v.dst_bytes.0 in
        let (csum, small, computed, checked) =
          checksum-with_word (ip_front len) (v.src ++ v.dst) refl (ip_front-IsByte len) all_good
            (omega (arith, length-append v.src v.dst, v.src_bytes.1, v.dst_bytes.1)) in
        let rest = drop 20 window in
        let header : take 20 (ip_header len 0 ++ rest) ≡ ip_header len 0 =
          ap (λ n. take n (ip_header len 0 ++ rest)) (sym (length-ip_header len 0))
          ∙ take-append_length (ip_header len 0) rest in
        (
          with_layer p i (set_field "chksum" (u16 csum) (zeroed_ip len)),
          csum,
          ap
                (λ h. checksum h >>= λ sum.
                  put_checksum 10 sum (ip_header len 0 ++ rest) >>= λ done.
                  ok (with_layer p i (set_field "chksum" (u16 sum) (zeroed_ip len)), done, 20))
                header
              ∙ ap
                  (λ o. o >>= λ sum. put_checksum 10 sum (ip_header len 0 ++ rest) >>= λ done.
                    ok (with_layer p i (set_field "chksum" (u16 sum) (zeroed_ip len)), done, 20))
                  computed
              ∙ ap
                  (λ o. o >>= λ done.
                    ok (with_layer p i (set_field "chksum" (u16 csum) (zeroed_ip len)), done, 20))
                  (put_ip_checksum len csum rest),
          checked,
        )
