-- ===== src/Dissect/Tests.antt =====
-- Dissections of concrete bytes, and the theorem at a concrete registry.
use goscapy.Base.{
  ℕ, ◌<◌, ◌≡◌, ◌≢◌, refl, sym, ◌∙◌, ◌==◌, str_eq, Bool, true, false, List, [], ◌∷◌, Option, none,
  some, if◌then◌else◌, Outcome, ok, err, stuck, too_deep, arith,
}
use goscapy.Values.{u8, bytes, lookup, insert, to_uint64}
use goscapy.Fields.Ints.{byte_field}
use goscapy.Layer.{Layer, get, parse_fields}
use goscapy.Dissect.{Registry, resolve_next_layer, dissect, dissect_by_proto}
use goscapy.Dissect.Progress.{IsProductive, dissect-ends}

-- A layer of one byte, which says whether another follows.
abbrev link : ℕ → Layer
link n = record { proto = "Link"; fields = byte_field "more" 0 ∷ []; values = ("more", u8 n) ∷ [] }

abbrev made : Bool → Option Layer
made true = some (link 0)
made false = none

abbrev links : Registry
links = record {
  factories = λ proto. made (str_eq proto "Link");
  next_layer = λ proto value. if value == 1 then some "Link" else none;
  key_field = λ proto. some "more";
  header_size_fn = λ proto. none;
  tunnel_payload = λ proto. none;
  post_parse_hooks = λ proto. none;
  next_layer_fns = λ proto. none;
}

abbrev tunnels : Registry
tunnels = record links { tunnel_payload = λ proto. some "Link" }

abbrev raw_rest : Layer
raw_rest = record { proto = "Raw"; fields = []; values = ("load", bytes (9 ∷ [])) ∷ [] }

two_links :
    dissect_by_proto links "Link" (1 ∷ 0 ∷ 9 ∷ [])
    ≡ ok (record { layers = link 1 ∷ link 0 ∷ raw_rest ∷ [] })
unfolding dissect_by_proto resolve_next_layer get to_uint64 parse_fields lookup insert byte_field
two_links = refl

too_many_tunnels :
    dissect_by_proto tunnels "Link" (0 ∷ 0 ∷ 0 ∷ 0 ∷ 0 ∷ 0 ∷ 0 ∷ 0 ∷ 0 ∷ 0 ∷ 0 ∷ []) ≡ err too_deep
unfolding dissect_by_proto parse_fields lookup insert byte_field
too_many_tunnels = refl

one_byte : (b : ℕ) (rest : List ℕ) → (parse_fields (link 0) (b ∷ rest)).1 ≡ ok 1
unfolding parse_fields lookup insert byte_field
one_byte b rest = ground arith

no_bytes : (parse_fields (link 0) []).1 ≡ ok 0
unfolding parse_fields
no_bytes = refl

no_hook : (hook : Layer → List ℕ → Outcome Layer) → none ≡ some hook → ⊥
no_hook hook e = cc

ok-ne-stuck : (n : ℕ) (r : Outcome ℕ) → r ≡ ok n → r ≢ stuck
ok-ne-stuck n r e = λ h. cc

made-link : (flag : Bool) (l : Layer) → made flag ≡ some l → link 0 ≡ l
made-link true l e = cc
made-link false l e = cc

links-IsProductive : IsProductive links
links-IsProductive = record {
  takes_a_byte = λ proto l b rest consumed e h.
      let same : link 0 ≡ l = made-link (str_eq proto "Link") l e in
      positive consumed (sym (one_byte b rest) ∙ rw same h);
  parse_ends = λ proto l rest e.
      let same : link 0 ≡ l = made-link (str_eq proto "Link") l e in rw (← same) (ends rest);
  hook_ends = λ proto hook l extra e h. no_hook hook e;
}
  where
    positive : (n : ℕ) → ok 1 ≡ ok n → 0 < n
    positive n h = let same : 1 ≡ n = cc in omega arith

    ends : (rest : List ℕ) → (parse_fields (link 0) rest).1 ≢ stuck
    ends [] = ok-ne-stuck 0 _ no_bytes
    ends (b ∷ rest) = ok-ne-stuck 1 _ (one_byte b rest)

dissect-ends_example :
    (dissect links (λ b. ok "Link") (1 ∷ 0 ∷ 9 ∷ []) ≢ stuck)
    × (dissect_by_proto links "Link" (1 ∷ 0 ∷ 9 ∷ []) ≢ stuck)
dissect-ends_example = dissect-ends links (1 ∷ 0 ∷ 9 ∷ []) "Link" links-IsProductive
