-- ===== src/TcpStream/Sessions/Table.antt =====
-- The limits on the table of connections, operation by operation.
use goscapy.Base.{
  reaches, at_most, reaches-below, ℕ, suc, ◌+◌, ◌%◌, ◌^◌, ◌≤◌, ◌≡◌, refl, ap, inl, inr, Bool, true,
  false, List, [], ◌∷◌, Option, none, some, ltb, length, ok, arith, Bool-cases,
}
use goscapy.TcpStream.{StreamKey, StreamId, same_id, HalfStream, max_stream_bytes}
use goscapy.TcpStream.Weight.{weight, receive-Weight}
use goscapy.TcpStream.Sessions.{
  StreamState, StreamView, Streams, Reassembler, find, store, delete, opened, is_client, half,
  with_half, begin, syn_on, snapshot_stream, counted, data_on,
}

-- A half stream counts all bytes that it holds, and is within the limit.
pub record HalfWithin (h : HalfStream) : Type 0 where
  pub limited : h.total_buf ≤ max_stream_bytes
  pub counts : weight h ≤ h.total_buf

abbrev pub StateWithin : StreamState → Type 0
StateWithin s = HalfWithin s.client × HalfWithin s.server

abbrev pub AllWithin : Streams → Type 0
AllWithin [] = Unit
AllWithin ((id, s) ∷ m) = StateWithin s × AllWithin m

abbrev pub Within : ℕ → Streams → Type 0
Within n m = (length m ≤ n) × AllWithin m

find-AllWithin :
    (id : StreamId) (m : Streams) (s : StreamState)
    → AllWithin m
    → find id m ≡ some s
    → StateWithin s
unfolding find
find-AllWithin id [] s w e = cc
find-AllWithin id ((j, t) ∷ m) s (wt, w) e = elim (Bool-cases (same_id j id)) [
  | inl this ↦ let eq : some t ≡ some s = rw this at e in let eq' : t ≡ s = cc in rw (← eq') wt
  | inr other ↦ find-AllWithin id m s w (rw other at e)
]

store-AllWithin :
    (id : StreamId) (s : StreamState) (m : Streams)
    → StateWithin s
    → AllWithin m
    → AllWithin (store id s m)
unfolding store
store-AllWithin id s [] ws w = (ws, tt)
store-AllWithin id s ((j, t) ∷ m) ws (wt, w) = elim (Bool-cases (same_id j id)) [
  | inl this ↦ rw this (ws, w)
  | inr other ↦ rw other (wt, store-AllWithin id s m ws w)
]

length-store_free :
    (id : StreamId) (s : StreamState) (m : Streams) → length (store id s m) ≤ length m + 1
unfolding store
length-store_free id s [] = omega arith
length-store_free id s ((j, t) ∷ m) = ground (arith, length-store_free id s m)

length-store_known :
    (id : StreamId) (s t : StreamState) (m : Streams)
    → find id m ≡ some t
    → length (store id s m) ≡ length m
unfolding store find
length-store_known id s t [] e = cc
length-store_known id s t ((j, u) ∷ m) e = elim (Bool-cases (same_id j id)) [
  | inl this ↦ rw this
  | inr other ↦ rw other (ap suc (length-store_known id s t m (rw other at e)))
]

pub delete-Within : (id : StreamId) (n : ℕ) (m : Streams) → Within n m → Within n (delete id m)
unfolding delete
delete-Within id n [] f = f
delete-Within id n ((j, t) ∷ m) (l, (wt, w)) = elim (Bool-cases (same_id j id)) [
  | inl this ↦ let (l', w') = delete-Within id n m (omega arith, w) in rw this (l', w')
  | inr other ↦
      let (l', w') = delete-Within id (length m) m (omega arith, w) in
      rw other (omega arith, (wt, w'))
]

-- The stream that a segment is for is within the limits, and may stay in the table.
abbrev MayEnter : Reassembler → StreamId → Option StreamState → Type 0
MayEnter r id none = Unit
MayEnter r id (some s) =
    StateWithin s × ((t : StreamState) → length (store id t r.streams) ≤ at_most r.max_streams)

pub opened-MayEnter :
    (r : Reassembler) (id : StreamId) (key back : StreamKey) (now : ℕ) (o : Option StreamState)
    → find id r.streams ≡ o
    → Within (at_most r.max_streams) r.streams
    → MayEnter r id (opened r id key back now o)
opened-MayEnter r id key back now (some s) e (l, w) = (
  find-AllWithin id r.streams s w e,
  λ t.
      let same : length (store id t r.streams) ≡ length r.streams =
        length-store_known id t s r.streams e in
      omega arith,
)
opened-MayEnter r id key back now none e (l, w) =
    elim (Bool-cases (reaches (length r.streams) r.max_streams)) [
      | inl full ↦ rw full tt
      | inr room ↦
          let free : suc (length r.streams) ≤ at_most r.max_streams =
            reaches-below (length r.streams) r.max_streams room in
          rw room (
            (
              record { limited = omega arith; counts = omega arith },
              record { limited = omega arith; counts = omega arith },
            ),
            λ t. omega (arith, length-store_free id t r.streams),
          )
    ]

half-Within : (s : StreamState) (c : Bool) → StateWithin s → HalfWithin (half s c)
half-Within s true (w, v) = w
half-Within s false (w, v) = v

with_half-Within :
    (s : StreamState) (c : Bool) (h : HalfStream) (now : ℕ)
    → StateWithin s
    → HalfWithin h
    → StateWithin (with_half s c h now)
with_half-Within s true h now (w, v) wh = (wh, v)
with_half-Within s false h now (w, v) wh = (w, wh)

begin-same :
    (h : HalfStream) (isn next : ℕ)
    → ((begin h isn next).total_buf ≡ h.total_buf) × (weight (begin h isn next) ≡ weight h)
begin-same h isn next = elim (Bool-cases h.started) [
  | inl t ↦ rw t (refl, refl)
  | inr f ↦ rw f (refl, refl)
]

pub syn_on-Within :
    (r : Reassembler) (id : StreamId) (key : StreamKey) (seq now : ℕ) (o : Option StreamState)
    → MayEnter r id o
    → Within (at_most r.max_streams) r.streams
    → Within (at_most r.max_streams) (syn_on r id key seq now o).streams
syn_on-Within r id key seq now none f w = w
syn_on-Within r id key seq now (some s) (ws, fits) (l, w) =
    let c = is_client s key in
    let old : HalfWithin (half s c) = half-Within s c ws in
    let (t, u) = begin-same (half s c) seq ((seq + 1) % 2 ^ 32) in
    let fresh : HalfWithin (begin (half s c) seq ((seq + 1) % 2 ^ 32)) = record {
      limited = omega (arith, old.limited);
      counts = omega (arith, old.counts);
    } in
    let s' : StreamState = with_half s c (begin (half s c) seq ((seq + 1) % 2 ^ 32)) now in
    (fits s', store-AllWithin id s' r.streams (with_half-Within s c _ now ws fresh) w)

pub data_on-Within :
    (r : Reassembler) (id : StreamId) (key : StreamKey) (seq : ℕ) (payload : List ℕ) (fin : Bool)
    (now : ℕ) (o : Option StreamState)
    → MayEnter r id o
    → Within (at_most r.max_streams) r.streams
    → Within (at_most r.max_streams) (data_on r id key seq payload fin now o).0.streams
      × ((v : Option StreamView) × ((data_on r id key seq payload fin now o).1 ≡ ok v))
data_on-Within r id key seq payload fin now none f w = (w, (none, refl))
data_on-Within r id key seq payload fin now (some s) (ws, fits) (l, w) =
    let c = is_client s key in
    let h : HalfStream = counted (half s c) seq payload fin now in
    elim (Bool-cases (ltb max_stream_bytes h.total_buf)) [
      | inl over ↦ rw over (delete-Within id (at_most r.max_streams) r.streams (l, w), (none, refl))
      | inr within ↦
          let old : HalfWithin (half s c) = half-Within s c ws in
          let (t, u) = begin-same (half s c) seq seq in
          let (h', e, (total, same), less) = receive-Weight h seq payload in
          let fresh : HalfWithin h' = record {
            limited = ground arith;
            counts = omega (arith, old.counts);
          } in
          let s' : StreamState = with_half s c h' now in
          rw (within, e)
            (
              (fits s', store-AllWithin id s' r.streams (with_half-Within s c h' now ws fresh) w),
              (snapshot_stream s' id, refl),
            )
    ]
