-- ===== src/Packet/Build.antt =====
-- pkg/packet/packet.go: `BuildFrom` and `BuildFromInto`, their phases one by one.
pub mod Fill
use goscapy.Base.{
  ℕ, zero, suc, ◌+◌, ◌-◌, ◌≡◌, ◌==◌, String, Bool, true, false, List, [], ◌∷◌, ◌++◌, Option, none,
  some, ltb, if◌then◌else◌, length, take, drop, copy, replicate, get_elem?, ℤ, pos, negsuc, map,
  Outcome, ok, err, panic, ◌>>=◌, Error, bad_index, bad_length,
}
use goscapy.Layer.{Layer, serialize_into, wire_size}
use goscapy.Packet.{Packet, BindingRule, sync, Hook, Hooks}

unfoldable pub sum : List ℕ → ℕ
sum [] = 0
sum (n ∷ ns) = n + sum ns

-- The layer's part of the second phase: a layer with a hook is left for the third.
unfoldable pub fill_layer : Option Hook → Layer → List ℕ → ℕ → Outcome (List ℕ)
fill_layer (some hook) l buf off = ok buf
fill_layer none l buf off =
    if ltb (length buf) off
    then panic
    else (do (tail, n) ← serialize_into l (drop off buf); ok (take off buf ++ tail))

-- The second phase from an offset on: the layers without a hook are serialized.
unfoldable pub fill : Hooks → List Layer → List ℕ → ℕ → Outcome (List ℕ)
unfolding fill_layer
fill hooks [] buf off = ok buf
fill hooks (l ∷ ls) buf off = do
  buf' ← fill_layer (hooks l.proto) l buf off
  fill hooks ls buf' (off + wire_size l)

-- A hook runs on its window, with the bytes above it; it must say that it wrote the whole window.
unfoldable pub run_hook : Option Hook → Packet → ℕ → List ℕ → ℕ → ℕ → Outcome (Packet × List ℕ)
run_hook none p i buf off size = ok (p, buf)
run_hook (some hook) p i buf off size =
    let window = take size (drop off buf) in
    let upper = drop (off + size) buf in
    if ltb (length buf) (off + size) then panic else (do
      (p', window', written) ← hook p i upper window
      if written == size
          then ok (p', take off buf ++ (copy window window' ++ upper))
          else err bad_length)

-- The hook of the layer at an index; Go panics out of range.
abbrev pub hook_of : Hooks → Option Layer → Outcome (Option Hook)
hook_of hooks none = panic
hook_of hooks (some l) = ok (hooks l.proto)

-- The third phase from a layer on; `sizes` are the sizes that the second phase found.
unfoldable pub run_hooks : Hooks → List ℕ → Packet → ℕ → List ℕ → ℕ → Outcome (Packet × List ℕ)
unfolding run_hook
run_hooks hooks [] p i buf off = ok (p, buf)
run_hooks hooks (size ∷ sizes) p i buf off = do
  hook ← hook_of hooks (get_elem? p.layers i)
  (p', buf') ← run_hook hook p i buf off size
  run_hooks hooks sizes p' (i + 1) buf' (off + size)

-- The phases from a valid index on, over a buffer: the packet as it is left, and the buffer.
unfoldable pub build_phases : Hooks → Packet → ℕ → List ℕ → Outcome (Packet × List ℕ)
unfolding fill run_hooks
build_phases hooks p start buf = do
  let ls = drop start p.layers
  filled ← fill hooks ls buf 0
  run_hooks hooks (map wire_size ls) p start filled 0

abbrev pub valid_index : Packet → ℤ → Outcome ℕ
valid_index p (pos i) = if ltb i (length p.layers) then ok i else err bad_index
valid_index p (negsuc i) = err bad_index

-- `BuildFrom`: the buffer is made of the layers' sizes.
unfoldable pub build_from : List BindingRule → Hooks → Packet → ℤ → Outcome (Packet × List ℕ)
unfolding sum
build_from rules hooks p start = do
  i ← valid_index p start
  let synced : Packet = record { layers = sync rules p.layers }
  build_phases hooks synced i (replicate (sum (map wire_size (drop i synced.layers))) 0)

-- `Build`
unfoldable pub build : List BindingRule → Hooks → Packet → Outcome (Packet × List ℕ)
unfolding build_from
build rules hooks p = build_from rules hooks p (pos 0)

-- `BuildFromInto`: the caller's buffer is used, and cut to the packet's size. That reslicing reaches
-- up to the buffer's capacity: `spare` is what its array holds behind its length.
unfoldable pub build_from_into :
    List BindingRule → Hooks → Packet → ℤ → (buf spare : List ℕ) → Outcome (Packet × List ℕ)
unfolding sum
build_from_into rules hooks p start buf spare = do
  i ← valid_index p start
  let synced : Packet = record { layers = sync rules p.layers }
  (p', out) ← build_phases hooks synced i buf
  let off = sum (map wire_size (drop i synced.layers))
  let room = out ++ spare
  if ltb (length room) off then panic else ok (p', take off room)

-- `BuildInto`
unfoldable pub build_into :
    List BindingRule → Hooks → Packet → (buf spare : List ℕ) → Outcome (Packet × List ℕ)
unfolding build_from_into
build_into rules hooks p buf spare = build_from_into rules hooks p (pos 0) buf spare
