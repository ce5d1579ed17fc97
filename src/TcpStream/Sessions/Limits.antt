-- ===== src/TcpStream/Sessions/Limits.antt =====
-- `Submit`, `RemoveStream` and `sweep` under the limits on streams and bytes.
use goscapy.Base.{
  ap, ℤ, exceeds, at_most, ℕ, ◌-◌, ◌≤◌, ◌≡◌, ◌==◌, refl, ◌∙◌, inl, inr, Bool, not, ◌&&◌, bit_and,
  List, [], ◌∷◌, Option, none, some, ltb, length, Outcome, ok, err, panic, stuck, arith, Bool-cases,
}
use goscapy.TcpStream.{
  StreamKey, StreamId, HalfStream, receive, max_stream_bytes, make_key, normalize_stream_id,
}
use goscapy.TcpStream.Sessions.{
  StreamState, StreamView, Streams, Reassembler, new, find, opened, syn_on, handle_syn, handle_rst,
  data_on, deliver, counted, half, is_client, handle_data, submit_segment, Submitted, remove_stream,
  sweep_loop, sweep,
}
use goscapy.TcpStream.Sessions.Table.{
  AllWithin, Within, delete-Within, opened-MayEnter, syn_on-Within, data_on-Within,
}

-- At most as many streams as there may be, and each half of each within its limit.
abbrev pub IsLimited : Reassembler → Type 0
IsLimited r = (length r.streams ≤ at_most r.max_streams) × AllWithin r.streams

-- A call that leaves the table within its limits, with the limits as they were, and that returns.
abbrev Fine : Reassembler → Submitted → Type 0
Fine r q =
    IsLimited q.0 × (q.0.max_streams ≡ r.max_streams) × ((v : Option StreamView) × (q.1 ≡ ok v))

max_streams-syn_on :
    (r : Reassembler) (id : StreamId) (key : StreamKey) (seq now : ℕ) (o : Option StreamState)
    → (syn_on r id key seq now o).max_streams ≡ r.max_streams
max_streams-syn_on r id key seq now none = refl
max_streams-syn_on r id key seq now (some s) = refl

max_streams-deliver :
    (r : Reassembler) (id : StreamId) (s : StreamState) (c : Bool) (now : ℕ)
    (o : Outcome HalfStream)
    → (deliver r id s c now o).0.max_streams ≡ r.max_streams
max_streams-deliver r id s c now (ok h) = refl
max_streams-deliver r id s c now (err e) = refl
max_streams-deliver r id s c now panic = refl
max_streams-deliver r id s c now stuck = refl

max_streams-data_on :
    (r : Reassembler) (id : StreamId) (key : StreamKey) (seq : ℕ) (payload : List ℕ) (fin : Bool)
    (now : ℕ) (o : Option StreamState)
    → (data_on r id key seq payload fin now o).0.max_streams ≡ r.max_streams
max_streams-data_on r id key seq payload fin now none = refl
max_streams-data_on r id key seq payload fin now (some s) =
    let c = is_client s key in
    let h : HalfStream = counted (half s c) seq payload fin now in
    elim (Bool-cases (ltb max_stream_bytes h.total_buf)) [
      | inl over ↦ rw over
      | inr within ↦ rw within (max_streams-deliver r id s c now (receive h seq payload))
    ]

module _ (r : Reassembler) (src_ip dst_ip : List ℕ) (src_port dst_port seq now : ℕ)
    (l : IsLimited r) where
  handle_syn-Fine : Fine r (handle_syn r src_ip src_port dst_ip dst_port seq now, ok none)
  unfolding handle_syn
  handle_syn-Fine =
      let id : StreamId = normalize_stream_id src_ip src_port dst_ip dst_port in
      let key : StreamKey = make_key src_ip src_port dst_ip dst_port in
      let back : StreamKey = make_key dst_ip dst_port src_ip src_port in
      let o : Option StreamState = opened r id key back now (find id r.streams) in
      let (few, w) =
        syn_on-Within r id key seq now o
          (opened-MayEnter r id key back now (find id r.streams) refl l) l in
      let same : (syn_on r id key seq now o).max_streams ≡ r.max_streams =
        max_streams-syn_on r id key seq now o in
      ((omega (arith, few, ap at_most same), w), same, (none, refl))

  handle_rst-Fine : Fine r (handle_rst r src_ip src_port dst_ip dst_port, ok none)
  unfolding handle_rst
  handle_rst-Fine = (
    delete-Within (normalize_stream_id src_ip src_port dst_ip dst_port) (at_most r.max_streams)
        r.streams l,
    refl,
    (none, refl),
  )

  handle_data-Fine :
      (payload : List ℕ) (fin : Bool)
      → Fine r (handle_data r src_ip src_port dst_ip dst_port seq payload fin now)
  unfolding handle_data
  handle_data-Fine payload fin =
      let id : StreamId = normalize_stream_id src_ip src_port dst_ip dst_port in
      let key : StreamKey = make_key src_ip src_port dst_ip dst_port in
      let back : StreamKey = make_key dst_ip dst_port src_ip src_port in
      let o : Option StreamState = opened r id key back now (find id r.streams) in
      let ((few, w), returns) =
        data_on-Within r id key seq payload fin now o
          (opened-MayEnter r id key back now (find id r.streams) refl l) l in
      let same : (data_on r id key seq payload fin now o).0.max_streams ≡ r.max_streams =
        max_streams-data_on r id key seq payload fin now o in
      ((omega (arith, few, ap at_most same), w), same, returns)

  submit_segment-Fine :
      (flags : ℕ) (payload : List ℕ)
      → Fine r (submit_segment r src_ip src_port dst_ip dst_port seq flags payload now)
  unfolding submit_segment
  submit_segment-Fine flags payload =
      let empty : Bool = length payload == 0 in
      let fin : Bool = not (bit_and flags 0x01 == 0) in
      elim (Bool-cases (not (bit_and flags 0x02 == 0) && empty && not fin)) [
        | inl syn ↦ rw syn handle_syn-Fine
        | inr no_syn ↦ elim (Bool-cases (not (bit_and flags 0x04 == 0))) [
          | inl rst ↦ rw (no_syn, rst) handle_rst-Fine
          | inr no_rst ↦ elim (Bool-cases (empty && not fin)) [
            | inl ack ↦ rw (no_syn, no_rst, ack) (l, refl, (none, refl))
            | inr carries ↦ rw (no_syn, no_rst, carries) (handle_data-Fine payload fin)
          ]
        ]
      ]

-- What can happen to a reassembler of streams: a segment is submitted, a stream is removed, or the
-- collector runs.
pub data Event : Reassembler → Reassembler → Type 0 where
  segment :
      (r : Reassembler) (src_ip dst_ip : List ℕ) (src_port dst_port seq now flags : ℕ)
      (payload : List ℕ)
      → Event r (submit_segment r src_ip src_port dst_ip dst_port seq flags payload now).0
  removal : (r : Reassembler) (id : StreamId) → Event r (remove_stream r id)
  collection : (r : Reassembler) (now : ℕ) → Event r (sweep r now)

pub data History (first : Reassembler) : Reassembler → Type 0 where
  begins : History first first
  continues : {r r' : Reassembler} → Event r r' → History first r → History first r'

sweep_loop-Within :
    (now : ℕ) (timeout : ℤ) (n : ℕ) (m : Streams) → Within n m → Within n (sweep_loop now timeout m)
unfolding sweep_loop
sweep_loop-Within now timeout n [] f = f
sweep_loop-Within now timeout n ((id, s) ∷ m) (l, (ws, w)) =
    elim (Bool-cases (exceeds (now - s.last_seen) timeout)) [
      | inl old ↦
          let (l', w') = sweep_loop-Within now timeout n m (omega arith, w) in rw old (l', w')
      | inr fresh ↦
          let (l', w') = sweep_loop-Within now timeout (length m) m (omega arith, w) in
          rw fresh (omega arith, (ws, w'))
    ]

Event-IsLimited :
    {r r' : Reassembler}
    → Event r r'
    → IsLimited r
    → IsLimited r' × (r'.max_streams ≡ r.max_streams)
unfolding sweep
Event-IsLimited (segment r src_ip dst_ip src_port dst_port seq now flags payload) l =
    let (l', same, returns) =
      submit_segment-Fine r src_ip dst_ip src_port dst_port seq now l flags payload in
    (l', same)
Event-IsLimited (removal r id) l = (delete-Within id (at_most r.max_streams) r.streams l, refl)
Event-IsLimited (collection r now) l =
    (sweep_loop-Within now r.timeout (at_most r.max_streams) r.streams l, refl)

-- In every state that a new reassembler of streams can reach by submitted segments, removals and runs
-- of the collector, in any order, there are at most `max_streams` streams (none if it is negative), and each direction of each
-- has counted at most 16 MB and holds no more bytes than it has counted. And in such a state a
-- submitted segment always returns: `advance` ends, and nothing panics.
pub History-IsLimited :
    (timeout max_streams : ℤ) {r : Reassembler}
    → History (new timeout max_streams) r
    → IsLimited r
      × (r.max_streams ≡ max_streams)
      × ((src_ip dst_ip : List ℕ) (src_port dst_port seq now flags : ℕ) (payload : List ℕ)
          → (v : Option StreamView) × ((submit_segment r src_ip src_port dst_ip dst_port seq flags
                payload now).1
              ≡ ok v))
History-IsLimited timeout max_streams {r} path =
    let (l, same) = limited path in
    (
      l,
      same,
      λ src_ip dst_ip src_port dst_port seq now flags payload.
          (submit_segment-Fine r src_ip dst_ip src_port dst_port seq now l flags payload).2,
    )
  where
    limited :
        {t : Reassembler}
        → History (new timeout max_streams) t
        → IsLimited t × (t.max_streams ≡ max_streams)
    limited begins = ((omega arith, tt), refl)
    limited (continues e before) =
        let (l, same) = limited before in
        let (l', same') = Event-IsLimited e l in (l', same' ∙ same)
