-- ===== src/Packet/Build/Fill.antt =====
-- What the phases of `BuildFrom` put into the buffer, and what a hook sees.
use goscapy.Base.{
  ℕ, zero, suc, ◌+◌, ◌≤◌, ◌<◌, ◌≡◌, refl, ap, sym, ◌∙◌, List, [], ◌∷◌, ◌++◌, Option, none, some,
  le→ltb, lt→ltb, length, take, drop, replicate, get_elem?, pos, map, Outcome, ok, err, ◌>>=◌,
  >>=-eq-ok, All, arith, append_assoc, append-nil, length-append, length-drop, length-take,
  length-replicate, take-append_length, drop-append_length, take-append-drop, drop_all, subst,
  drop-drop, get_elem?-append, get_elem?-drop, Error,
}
use goscapy.Layer.{Layer, serialize_fields, wire_size}
use goscapy.Layer.Serialize.{
  IsLawful, IsComplete, serialize_into-serialize_fields, wire_size-serialize_fields,
}
use goscapy.Packet.{Packet, BindingRule, sync, Hook, Hooks}
use goscapy.Packet.Build.{
  sum, fill_layer, fill, run_hook, run_hooks, build_phases, build_from, build_from_into,
}

-- A layer whose fields are lawful at their values, with a value for each active field.
abbrev pub IsWell : Layer → Type 0
IsWell l = IsLawful l.fields l.values × IsComplete l.fields l.values

-- The bytes that the second phase leaves in a layer's window: those of the layer, or under a hook
-- what was there.
abbrev pub piece : Option Hook → Layer → List ℕ → Outcome (List ℕ)
piece none l window = serialize_fields l
piece (some hook) l window = ok window

unfoldable pub pieces : Hooks → List Layer → List ℕ → Outcome (List ℕ)
pieces hooks [] buf = ok buf
pieces hooks (l ∷ ls) buf = do
  b ← piece (hooks l.proto) l (take (wire_size l) buf)
  rest ← pieces hooks ls (drop (wire_size l) buf)
  ok (b ++ rest)

length-piece :
    (o : Option Hook) (l : Layer) (buf b : List ℕ)
    → IsWell l
    → wire_size l ≤ length buf
    → piece o l (take (wire_size l) buf) ≡ ok b
    → length b ≡ wire_size l
length-piece none l buf b (w, c) h e = sym (wire_size-serialize_fields l b w c e)
length-piece (some hook) l buf b w h e =
    let same : take (wire_size l) buf ≡ b = cc in
    rw (← same) (omega (arith, length-take (wire_size l) buf))

fill_layer_ok :
    (o : Option Hook) (l : Layer) (pre buf b : List ℕ)
    → IsWell l
    → wire_size l ≤ length buf
    → piece o l (take (wire_size l) buf) ≡ ok b
    → fill_layer o l (pre ++ buf) (length pre) ≡ ok ((pre ++ b) ++ drop (wire_size l) buf)
unfolding fill_layer
fill_layer_ok none l pre buf b (w, c) h e =
    let size : wire_size l ≡ length b = wire_size-serialize_fields l b w c e in
    rw (
      le→ltb (length (pre ++ buf)) (length pre) (omega (arith, length-append pre buf)),
      drop-append_length pre buf,
      take-append_length pre buf,
      serialize_into-serialize_fields l buf b w e (omega arith),
      append_assoc pre b (drop (wire_size l) buf),
      size,
    )
fill_layer_ok (some hook) l pre buf b w h e =
    let same : take (wire_size l) buf ≡ b = cc in
    rw (append_assoc pre b (drop (wire_size l) buf), ← same, take-append-drop (wire_size l) buf)

fill_ok :
    (hooks : Hooks) (ls : List Layer) (pre buf bs : List ℕ)
    → All IsWell ls
    → sum (map wire_size ls) ≤ length buf
    → pieces hooks ls buf ≡ ok bs
    → fill hooks ls (pre ++ buf) (length pre) ≡ ok (pre ++ bs)
unfolding fill pieces sum
fill_ok hooks [] pre buf bs w h e = let same : buf ≡ bs = cc in rw (← same)
fill_ok hooks (l ∷ ls) pre buf bs (wl, w) h e =
    let (b, hb, e') = >>=-eq-ok (piece (hooks l.proto) l (take (wire_size l) buf)) _ e in
    let (rest, hr, e'') = >>=-eq-ok (pieces hooks ls (drop (wire_size l) buf)) _ e' in
    let whole : b ++ rest ≡ bs = cc in
    let size : length b ≡ wire_size l = length-piece (hooks l.proto) l buf b wl (omega arith) hb in
    rw (fill_layer_ok (hooks l.proto) l pre buf b wl (omega arith) hb) (
      subst (λ (n : ℕ). fill hooks ls ((pre ++ b) ++ drop (wire_size l) buf) n ≡ ok (pre ++ bs))
        (length-append pre b ∙ ap (λ (n : ℕ). length pre + n) size)
        (fill_ok hooks ls (pre ++ b) (drop (wire_size l) buf) rest w
            (omega (arith, length-drop (wire_size l) buf)) hr
          ∙ ap ok (append_assoc pre b rest ∙ ap (λ t. pre ++ t) whole)))

-- No layer has a hook.
abbrev pub Unhooked : Hooks → List Layer → Type 0
Unhooked hooks ls = All (λ l. hooks l.proto ≡ none) ls

-- The layers' bytes, one after another.
unfoldable pub concatenated : List Layer → Outcome (List ℕ)
concatenated [] = ok []
concatenated (l ∷ ls) = do b ← serialize_fields l; rest ← concatenated ls; ok (b ++ rest)

pieces-Unhooked :
    (hooks : Hooks) (ls : List Layer) (buf bs : List ℕ)
    → Unhooked hooks ls
    → concatenated ls ≡ ok bs
    → pieces hooks ls buf ≡ ok (bs ++ drop (sum (map wire_size ls)) buf)
unfolding pieces concatenated sum
pieces-Unhooked hooks [] buf bs u e = let same : [] ≡ bs = cc in rw (← same)
pieces-Unhooked hooks (l ∷ ls) buf bs (ul, u) e =
    let (b, hb, e') = >>=-eq-ok (serialize_fields l) _ e in
    let (rest, hr, e'') = >>=-eq-ok (concatenated ls) _ e' in
    let whole : b ++ rest ≡ bs = cc in
    rw (ul, hb, pieces-Unhooked hooks ls (drop (wire_size l) buf) rest u hr, ← whole)
      (ap ok (
        sym (append_assoc b rest (drop (sum (map wire_size ls)) (drop (wire_size l) buf)))
        ∙ ap (λ t. (b ++ rest) ++ t) (drop-drop (wire_size l) (sum (map wire_size ls)) buf)))

run_hooks-Unhooked :
    (hooks : Hooks) (ls below : List Layer) (p : Packet) (buf : List ℕ) (i off : ℕ)
    → p.layers ≡ below ++ ls
    → i ≡ length below
    → Unhooked hooks ls
    → run_hooks hooks (map wire_size ls) p i buf off ≡ ok (p, buf)
unfolding run_hooks run_hook
run_hooks-Unhooked hooks [] below p buf i off e ei u = refl
run_hooks-Unhooked hooks (l ∷ ls) below p buf i off e ei (ul, u) =
    let here : get_elem? p.layers i ≡ some l = rw (e, ei) (get_elem?-append below ls l) in
    rw (here, ul)
      (run_hooks-Unhooked hooks ls (below ++ (l ∷ [])) p buf (i + 1) (off + wire_size l)
        (e ∙ sym (append_assoc below (l ∷ []) ls)) (omega (arith, length-append below (l ∷ []))) u)

-- Over a buffer with room, the phases leave the layers' bytes and the rest of the buffer.
build_phases-Unhooked :
    (hooks : Hooks) (p : Packet) (i : ℕ) (buf bs : List ℕ)
    → i ≤ length p.layers
    → All IsWell (drop i p.layers)
    → Unhooked hooks (drop i p.layers)
    → sum (map wire_size (drop i p.layers)) ≤ length buf
    → concatenated (drop i p.layers) ≡ ok bs
    → build_phases hooks p i buf ≡ ok (p, bs ++ drop (sum (map wire_size (drop i p.layers))) buf)
unfolding build_phases
build_phases-Unhooked hooks p i buf bs hi w u room e =
    let ls : List Layer = drop i p.layers in
    rw (fill_ok hooks ls [] buf _ w room (pieces-Unhooked hooks ls buf bs u e)) (
      run_hooks-Unhooked hooks ls (take i p.layers) p _ i 0 (sym (take-append-drop i p.layers))
        (omega (arith, length-take i p.layers)) u)

length-concatenated :
    (ls : List Layer) (bs : List ℕ)
    → All IsWell ls
    → concatenated ls ≡ ok bs
    → sum (map wire_size ls) ≡ length bs
unfolding concatenated sum
length-concatenated [] bs w e = let same : [] ≡ bs = cc in rw (← same)
length-concatenated (l ∷ ls) bs ((wl, c), w) e =
    let (b, hb, e') = >>=-eq-ok (serialize_fields l) _ e in
    let (rest, hr, e'') = >>=-eq-ok (concatenated ls) _ e' in
    let whole : b ++ rest ≡ bs = cc in
    omega (
      arith,
      wire_size-serialize_fields l b wl c hb,
      length-concatenated ls rest w hr,
      length-append b rest,
      ap (λ (t : List ℕ). length t) whole,
    )

length-sync : (rules : List BindingRule) (ls : List Layer) → length (sync rules ls) ≡ length ls
unfolding sync
length-sync rules [] = refl
length-sync rules (l ∷ ls) = ap suc (length-sync rules ls)

-- From a valid index on, in a packet whose layers, once the binding rules are applied, have no build
-- hook, have lawful fields with a value for each active one, and can all be serialized: `Build` gives
-- exactly the bytes of the layers one after another, and leaves the layers as the rules made them.
-- The same holds of `BuildInto` on any buffer with room for those bytes, whatever it held
-- and whatever its array holds behind it.
pub build_from-concatenated :
    (rules : List BindingRule) (hooks : Hooks) (p : Packet) (i : ℕ) (buf spare bs : List ℕ)
    → i < length p.layers
    → let ls = sync rules p.layers in
      All IsWell (drop i ls)
      → Unhooked hooks (drop i ls)
      → concatenated (drop i ls) ≡ ok bs
      → length bs ≤ length buf
      → (build_from rules hooks p (pos i) ≡ ok (record { layers = ls }, bs))
        × (build_from_into rules hooks p (pos i) buf spare ≡ ok (record { layers = ls }, bs))
unfolding build_from build_from_into
build_from-concatenated rules hooks p i buf spare bs hi w u e room =
    let ls : List Layer = sync rules p.layers in
    let synced : Packet = record { layers = ls } in
    let n : ℕ = sum (map wire_size (drop i ls)) in
    let size : n ≡ length bs = length-concatenated (drop i ls) bs w e in
    let within : i ≤ length ls = omega (arith, length-sync rules p.layers) in
    let fresh : List ℕ = replicate n 0 in
    let zeroed : n ≤ length fresh = omega (arith, length-replicate {A = ℕ} n 0) in
    (
      rw (lt→ltb i (length p.layers) hi) (
          build_phases-Unhooked hooks synced i fresh bs within w u zeroed e
          ∙ rw (drop_all n fresh (omega (arith, length-replicate {A = ℕ} n 0)), append-nil bs)),
      rw (
        lt→ltb i (length p.layers) hi,
        build_phases-Unhooked hooks synced i buf bs within w u (omega arith) e,
        size,
        append_assoc bs (drop (length bs) buf) spare,
        le→ltb (length (bs ++ (drop (length bs) buf ++ spare))) (length bs)
            (omega (arith, length-append bs (drop (length bs) buf ++ spare))),
        take-append_length bs (drop (length bs) buf ++ spare),
      ),
    )

abbrev zeros : ℕ → List ℕ
zeros n = replicate n 0

zeros-take : (n m : ℕ) → take n (zeros (n + m)) ≡ zeros n
zeros-take zero m = refl
zeros-take (suc n) m =
    let e : suc n + m ≡ suc (n + m) = omega arith in rw e (ap (λ t. 0 ∷ t) (zeros-take n m))

zeros-drop : (n m : ℕ) → drop n (zeros (n + m)) ≡ zeros m
zeros-drop zero m = let e : 0 + m ≡ m = omega arith in ap zeros e
zeros-drop (suc n) m = let e : suc n + m ≡ suc (n + m) = omega arith in rw e (zeros-drop n m)

-- The window of a layer with a hook is zeros when the second phase is over.
pieces_hooked :
    (hooks : Hooks) (l : Layer) (ls : List Layer) (h : Hook) (bs : List ℕ)
    → hooks l.proto ≡ some h
    → pieces hooks (l ∷ ls) (zeros (sum (map wire_size (l ∷ ls)))) ≡ ok bs
    → (rest : List ℕ) × (pieces hooks ls (zeros (sum (map wire_size ls))) ≡ ok rest)
      × (zeros (wire_size l) ++ rest ≡ bs)
unfolding pieces sum
pieces_hooked hooks l ls h bs hl e =
    let tail : ℕ = sum (map wire_size ls) in
    let head_on : (do
      rest ← pieces hooks ls (drop (wire_size l) (zeros (wire_size l + tail)))
      ok (take (wire_size l) (zeros (wire_size l + tail)) ++ rest))
        ≡ ok bs =
      rw hl at e in
    let shifted : (do rest ← pieces hooks ls (zeros tail); ok (zeros (wire_size l) ++ rest))
        ≡ ok bs =
      rw (zeros-take (wire_size l) tail, zeros-drop (wire_size l) tail) at head_on in
    let (rest, hr, whole) = >>=-eq-ok (pieces hooks ls (zeros tail)) _ shifted in (rest, hr, cc)

run_hook_fails :
    (h : Hook) (p : Packet) (i n : ℕ) (buf upper : List ℕ) (e : Error)
    → zeros n ++ upper ≡ buf
    → h p i upper (zeros n) ≡ err e
    → run_hook (some h) p i buf 0 n ≡ err e
unfolding run_hook
run_hook_fails h p i n buf upper e split fails =
    let z : List ℕ = zeros n in
    let size : n ≡ length z = sym (length-replicate n 0) in
    let start : 0 + n ≡ length z = omega arith in
    let window : take n (z ++ upper) ≡ z =
      ap (λ (k : ℕ). take k (z ++ upper)) size ∙ take-append_length z upper in
    rw (
      ← split,
      start,
      le→ltb (length (z ++ upper)) (length z) (omega (arith, length-append z upper)),
      drop-append_length z upper,
      window,
      fails,
    )

run_first_hook :
    (hooks : Hooks) (l : Layer) (ls : List Layer) (h : Hook) (p : Packet) (i : ℕ)
    (buf upper : List ℕ) (e : Error)
    → get_elem? p.layers i ≡ some l
    → hooks l.proto ≡ some h
    → zeros (wire_size l) ++ upper ≡ buf
    → h p i upper (zeros (wire_size l)) ≡ err e
    → run_hooks hooks (map wire_size (l ∷ ls)) p i buf 0 ≡ err e
unfolding run_hooks
run_first_hook hooks l ls h p i buf upper e here hl split fails =
    rw (here, hl, run_hook_fails h p i (wire_size l) buf upper e split fails)

-- Two adjacent layers with hooks, the lower one the first of those to be built. The lower layer's hook
-- runs first, and in place of the bytes of the layer above it is given zeros; if it fails on those,
-- the build fails with its error. (The other layers' fields are lawful and have their values.)
pub build_from-hook_below_hook :
    (rules : List BindingRule) (hooks : Hooks) (p : Packet) (i : ℕ) (l u : Layer) (ls : List Layer)
    (h g : Hook) (bs : List ℕ)
    → i < length p.layers
    → drop i (sync rules p.layers) ≡ l ∷ u ∷ ls
    → All IsWell (l ∷ u ∷ ls)
    → hooks l.proto ≡ some h
    → hooks u.proto ≡ some g
    → pieces hooks (l ∷ u ∷ ls) (replicate (sum (map wire_size (l ∷ u ∷ ls))) 0) ≡ ok bs
    → (above : List ℕ) × ((e : Error)
        → h
            (record { layers = sync rules p.layers })
            i
            (replicate (wire_size u) 0 ++ above)
            (replicate (wire_size l) 0)
          ≡ err e
        → build_from rules hooks p (pos i) ≡ err e)
unfolding build_from build_phases
build_from-hook_below_hook rules hooks p i l u ls h g bs hi split w hl hu e =
    let (rest, hr, whole) = pieces_hooked hooks l (u ∷ ls) h bs hl e in
    let (above, ha, upper) = pieces_hooked hooks u ls g rest hu hr in
    let synced : Packet = record { layers = sync rules p.layers } in
    let buf : List ℕ = zeros (sum (map wire_size (l ∷ u ∷ ls))) in
    (
      above,
      λ x fails.
          rw
            (
              lt→ltb i (length p.layers) hi,
              split,
              fill_ok hooks (l ∷ u ∷ ls) [] buf bs w
                  (omega (arith, length-replicate {A = ℕ} (sum (map wire_size (l ∷ u ∷ ls))) 0)) e,
            )
            (run_first_hook hooks l (u ∷ ls) h synced i bs rest x
              (get_elem?-drop (sync rules p.layers) i l (u ∷ ls) split) hl whole
              (rw (← upper) fails)),
    )
