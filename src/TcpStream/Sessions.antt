-- ===== src/TcpStream/Sessions.antt =====
-- pkg/tcpstream/tcpstream.go: the table of connections, and what a segment does to it.
pub mod Table
pub mod Symmetry
pub mod Limits
use goscapy.Base.{
  ℕ, ◌+◌, ◌-◌, ◌%◌, ◌^◌, ◌==◌, bit_and, Bool, true, false, not, ◌&&◌, ◌||◌, List, [], ◌∷◌, Option,
  none, some, ltb, ℤ, reaches, exceeds, if◌then◌else◌, length, map, Outcome, ok, err, panic, stuck,
}
use goscapy.TcpStream.{
  StreamKey, StreamId, same_key, same_id, make_key, normalize_stream_id, HalfStream,
  new_half_stream, receive, max_stream_bytes,
}

-- `tcpStream`
pub record StreamState : Type 0 where
  pub id : StreamId
  pub client : HalfStream
  pub server : HalfStream
  pub last_seen : ℕ

-- `TCPStream`; its direction is never set. A nil slice is an empty list.
pub record StreamView : Type 0 where
  pub id : StreamId
  pub client_bytes : List ℕ
  pub server_bytes : List ℕ

abbrev pub Streams : Type 0
Streams = List (StreamId × StreamState)

-- `Reassembler`; the map of streams is an association list.
pub record Reassembler : Type 0 where
  pub streams : Streams
  pub timeout : ℤ
  pub max_streams : ℤ

-- `New` with the options applied.
abbrev pub new : (timeout max_streams : ℤ) → Reassembler
new timeout max_streams = record { streams = []; timeout = timeout; max_streams = max_streams }

unfoldable pub find : StreamId → Streams → Option StreamState
unfolding same_id
find id [] = none
find id ((j, s) ∷ m) = if same_id j id then some s else find id m

unfoldable pub store : StreamId → StreamState → Streams → Streams
unfolding same_id
store id s [] = (id, s) ∷ []
store id s ((j, t) ∷ m) = if same_id j id then (j, s) ∷ m else (j, t) ∷ store id s m

unfoldable pub delete : StreamId → Streams → Streams
unfolding same_id
delete id [] = []
delete id ((j, s) ∷ m) = let rest = delete id m in if same_id j id then rest else (j, s) ∷ rest

-- The stream of an id: the one in the table, or a new one if there is room for it.
abbrev pub opened :
    Reassembler → StreamId → StreamKey → StreamKey → ℕ → Option StreamState → Option StreamState
opened r id key back now (some s) = some s
opened r id key back now none =
    if reaches (length r.streams) r.max_streams
    then none
    else some (record {
      id = id;
      client = new_half_stream key now;
      server = new_half_stream back now;
      last_seen = 0;
    })

-- The half that a key belongs to: the client's if it is its key, else the server's.
abbrev pub is_client : StreamState → StreamKey → Bool
is_client s key = same_key s.client.key key

abbrev pub half : StreamState → Bool → HalfStream
half s client = if client then s.client else s.server

abbrev pub with_half : StreamState → Bool → HalfStream → ℕ → StreamState
with_half s client h now =
    if client
    then record s { client = h; last_seen = now }
    else record s { server = h; last_seen = now }

abbrev pub begin : HalfStream → ℕ → ℕ → HalfStream
begin h isn next = if h.started then h else record h { isn = isn; next_seq = next; started = true }

abbrev pub syn_on : Reassembler → StreamId → StreamKey → ℕ → ℕ → Option StreamState → Reassembler
syn_on r id key seq now none = r
syn_on r id key seq now (some s) =
    let c = is_client s key in
    let h = begin (half s c) seq ((seq + 1) % 2 ^ 32) in
    record r { streams = store id (with_half s c h now) r.streams }

-- `handleSyn`; it always returns nil.
unfoldable pub handle_syn : Reassembler → List ℕ → ℕ → List ℕ → ℕ → ℕ → ℕ → Reassembler
unfolding find store make_key normalize_stream_id
handle_syn r src_ip src_port dst_ip dst_port seq now =
    let id = normalize_stream_id src_ip src_port dst_ip dst_port in
    let key = make_key src_ip src_port dst_ip dst_port in
    let back = make_key dst_ip dst_port src_ip src_port in
    syn_on r id key seq now (opened r id key back now (find id r.streams))

-- `handleRst`; it always returns nil.
unfoldable pub handle_rst : Reassembler → List ℕ → ℕ → List ℕ → ℕ → Reassembler
unfolding delete normalize_stream_id
handle_rst r src_ip src_port dst_ip dst_port = record r {
  streams = delete (normalize_stream_id src_ip src_port dst_ip dst_port) r.streams;
}

abbrev pub is_quiet : HalfStream → Bool
is_quiet h = length h.buf == 0 && length h.segments == 0 && not h.finished

-- `snapshotStream`
unfoldable pub snapshot_stream : StreamState → StreamId → Option StreamView
snapshot_stream s id =
    if is_quiet s.client && is_quiet s.server
    then none
    else some (record { id = id; client_bytes = s.client.buf; server_bytes = s.server.buf })

abbrev pub Submitted : Type 0
Submitted = Reassembler × Outcome (Option StreamView)

-- The half stream as the segment leaves it goes into the table, and the snapshot to the caller.
abbrev pub deliver :
    Reassembler → StreamId → StreamState → Bool → ℕ → Outcome HalfStream → Submitted
deliver r id s c now (ok h) =
    let s' = with_half s c h now in
    (record r { streams = store id s' r.streams }, ok (snapshot_stream s' id))
deliver r id s c now (err e) = (r, err e)
deliver r id s c now panic = (r, panic)
deliver r id s c now stuck = (r, stuck)

-- The half stream before the segment's data is looked at.
abbrev pub counted : HalfStream → ℕ → List ℕ → Bool → ℕ → HalfStream
counted h seq payload fin now =
    let b = begin h seq seq in
    record b {
      last_seen = now;
      total_buf = b.total_buf + length payload;
      finished = b.finished || fin;
    }

abbrev pub data_on :
    Reassembler → StreamId → StreamKey → ℕ → List ℕ → Bool → ℕ → Option StreamState → Submitted
data_on r id key seq payload fin now none = (r, ok none)
data_on r id key seq payload fin now (some s) =
    let c = is_client s key in
    let h = counted (half s c) seq payload fin now in
    if ltb max_stream_bytes h.total_buf
    then (record r { streams = delete id r.streams }, ok none)
    else deliver r id s c now (receive h seq payload)

-- `handleData`
unfoldable pub handle_data :
    Reassembler → List ℕ → ℕ → List ℕ → ℕ → ℕ → List ℕ → Bool → ℕ → Submitted
unfolding find store delete make_key normalize_stream_id receive snapshot_stream
handle_data r src_ip src_port dst_ip dst_port seq payload fin now =
    let id = normalize_stream_id src_ip src_port dst_ip dst_port in
    let key = make_key src_ip src_port dst_ip dst_port in
    let back = make_key dst_ip dst_port src_ip src_port in
    data_on r id key seq payload fin now (opened r id key back now (find id r.streams))

-- The end of `Submit`, for a segment with its fields: what its flags and its payload call for.
unfoldable pub submit_segment :
    Reassembler → List ℕ → ℕ → List ℕ → ℕ → ℕ → ℕ → List ℕ → ℕ → Submitted
unfolding handle_syn handle_rst handle_data
submit_segment r src_ip src_port dst_ip dst_port seq flags payload now =
    let is_syn = not (bit_and flags 0x02 == 0) in
    let is_fin = not (bit_and flags 0x01 == 0) in
    let is_rst = not (bit_and flags 0x04 == 0) in
    if is_syn && length payload == 0 && not is_fin
    then (handle_syn r src_ip src_port dst_ip dst_port seq now, ok none)
    else if is_rst
    then (handle_rst r src_ip src_port dst_ip dst_port, ok none)
    else if length payload == 0 && not is_fin
    then (r, ok none)
    else handle_data r src_ip src_port dst_ip dst_port seq payload is_fin now

abbrev pub view_of : StreamId → Option StreamState → Option StreamView
view_of id none = none
view_of id (some s) =
    some (record { id = id; client_bytes = s.client.buf; server_bytes = s.server.buf })

-- `ReadStream`
unfoldable pub read_stream : Reassembler → StreamId → Option StreamView
unfolding find
read_stream r id = view_of id (find id r.streams)

-- `StreamIDs`; the order of a Go map is not specified.
abbrev pub stream_ids : Reassembler → List StreamId
stream_ids r = map (λ e. e.0) r.streams

-- `RemoveStream`
abbrev pub remove_stream : Reassembler → StreamId → Reassembler
remove_stream r id = record r { streams = delete id r.streams }

-- `Stats`
abbrev pub stats : Reassembler → ℕ
stats r = length r.streams

unfoldable pub sweep_loop : ℕ → ℤ → Streams → Streams
sweep_loop now timeout [] = []
sweep_loop now timeout ((id, s) ∷ m) =
    let rest = sweep_loop now timeout m in
    if exceeds (now - s.last_seen) timeout then rest else (id, s) ∷ rest

-- `sweep`, by a clock that does not go back.
unfoldable pub sweep : Reassembler → ℕ → Reassembler
unfolding sweep_loop
sweep r now = record r { streams = sweep_loop now r.timeout r.streams }
