-- ===== src/TcpStream.antt =====
-- pkg/tcpstream/tcpstream.go: TCP segments are put into the order of their sequence numbers, per
-- direction of a connection. The clock is an argument, and the mutex makes each operation one step.
pub mod Advance
pub mod Pick
pub mod Delivery
pub mod Arrival
pub mod Weight
pub mod Sessions
mod Tests
use goscapy.Base.{
  ℕ, zero, suc, ◌+◌, ◌-◌, ◌*◌, ◌%◌, ◌^◌, ◌==◌, Bool, true, false, not, ◌&&◌, ◌||◌, List, [], ◌∷◌,
  ◌++◌, Option, none, some, ltb, leb, if◌then◌else◌, length, drop, copy, replicate, map, Outcome,
  ok, err, panic, stuck, ◌>>=◌,
}
use goscapy.Fields.Addresses.{eq_bytes, to4, to16}

abbrev pub max_stream_bytes : ℕ
max_stream_bytes = 16 * 1024 * 1024

-- `StreamKey`: one direction of a connection; the addresses are arrays of 16 bytes.
pub record StreamKey : Type 0 where
  pub src_ip : List ℕ
  pub dst_ip : List ℕ
  pub src_port : ℕ
  pub dst_port : ℕ

-- `StreamID`
pub record StreamId : Type 0 where
  pub a : StreamKey
  pub b : StreamKey

-- Go's `==` on keys and on stream ids.
unfoldable pub same_key : StreamKey → StreamKey → Bool
unfolding eq_bytes
same_key x y =
    eq_bytes x.src_ip y.src_ip
    && eq_bytes x.dst_ip y.dst_ip
    && x.src_port == y.src_port
    && x.dst_port == y.dst_port

unfoldable pub same_id : StreamId → StreamId → Bool
unfolding same_key
same_id x y = same_key x.a y.a && same_key x.b y.b

-- The bytes that `makeKey` copies of an address: its four bytes, or else its sixteen.
abbrev pub address_bytes : Option (List ℕ) → Option (List ℕ) → List ℕ
address_bytes (some four) sixteen = four
address_bytes none (some sixteen) = sixteen
address_bytes none none = []

abbrev pub key_address : List ℕ → List ℕ
key_address ip = copy (replicate 16 0) (address_bytes (to4 ip) (to16 ip))

-- `makeKey`
unfoldable pub make_key : List ℕ → ℕ → List ℕ → ℕ → StreamKey
unfolding to4 to16
make_key src_ip src_port dst_ip dst_port = record {
  src_ip = key_address src_ip;
  dst_ip = key_address dst_ip;
  src_port = src_port;
  dst_port = dst_port;
}

-- Whether the first byte that differs is smaller in the first list; none if no byte differs.
unfoldable pub first_difference : List ℕ → List ℕ → Option Bool
first_difference [] _ = none
first_difference (x ∷ xs) [] = none
first_difference (x ∷ xs) (y ∷ ys) =
    let rest = first_difference xs ys in if x == y then rest else some (ltb x y)

abbrev pub otherwise : Option Bool → Bool → Bool
otherwise (some b) d = b
otherwise none d = d

-- `lessKey`
unfoldable pub less_key : StreamKey → StreamKey → Bool
unfolding first_difference
less_key x y = otherwise (first_difference x.src_ip y.src_ip) (
    otherwise (first_difference x.dst_ip y.dst_ip)
      (if x.src_port == y.src_port then ltb x.dst_port y.dst_port else ltb x.src_port y.src_port))

-- `normalizeStreamID`
unfoldable pub normalize_stream_id : List ℕ → ℕ → List ℕ → ℕ → StreamId
unfolding make_key less_key
normalize_stream_id src_ip src_port dst_ip dst_port =
    let x = make_key src_ip src_port dst_ip dst_port in
    let y = make_key dst_ip dst_port src_ip src_port in
    if less_key x y then record { a = x; b = y } else record { a = y; b = x }

-- `segment`
pub record Segment : Type 0 where
  pub seq : ℕ
  pub body : List ℕ

-- `halfStream`
pub record HalfStream : Type 0 where
  pub key : StreamKey
  pub segments : List Segment
  pub next_seq : ℕ
  pub isn : ℕ
  pub started : Bool
  pub buf : List ℕ
  pub total_buf : ℕ
  pub last_seen : ℕ
  pub finished : Bool

-- `newHalfStream`
abbrev pub new_half_stream : StreamKey → ℕ → HalfStream
new_half_stream key now = record {
  key = key;
  segments = [];
  next_seq = 0;
  isn = 0;
  started = false;
  buf = [];
  total_buf = 0;
  last_seen = now;
  finished = false;
}

-- `addSeq`, `subtractSeq`, `seqBefore` and `seqBeforeEq`: an `int32` is negative from 2^31 on.
abbrev pub add_seq : ℕ → ℕ → ℕ
add_seq a b = (a + b) % 2 ^ 32

abbrev pub subtract_seq : ℕ → ℕ → ℕ
subtract_seq a b = (a + (2 ^ 32 - b)) % 2 ^ 32

abbrev pub seq_before : ℕ → ℕ → Bool
seq_before a b = leb (2 ^ 31) (subtract_seq a b)

abbrev pub seq_before_eq : ℕ → ℕ → Bool
seq_before_eq a b = seq_before a b || subtract_seq a b == 0

-- What a segment adds to the buffer in the loop of `advance`, if it can be appended.
unfoldable pub usable : ℕ → Segment → Option (List ℕ)
usable next s =
    let overlap = subtract_seq next s.seq in
    if s.seq == next
    then some s.body
    else if not (seq_before s.seq next)
    then none
    else if seq_before_eq (add_seq s.seq (length s.body % 2 ^ 32)) next
    then none
    else if ltb overlap (length s.body)
    then some (drop overlap s.body)
    else none

abbrev pub Picked : Type 0
Picked = Option (List ℕ × List Segment)

abbrev pub keep : Segment → Picked → Picked
keep s none = none
keep s (some (added, rest)) = some (added, s ∷ rest)

abbrev pub pick_or : Option (List ℕ) → Segment → List Segment → Picked → Picked
pick_or (some added) s ss more = some (added, ss)
pick_or none s ss more = keep s more

-- The first segment that can be appended, taken out of the list.
unfoldable pub pick : ℕ → List Segment → Picked
unfolding usable
pick next [] = none
pick next (s ∷ ss) = pick_or (usable next s) s ss (pick next ss)

abbrev pub append_bytes : HalfStream → List ℕ → List Segment → HalfStream
append_bytes h added rest = record h {
  segments = rest;
  next_seq = add_seq h.next_seq (length added % 2 ^ 32);
  buf = h.buf ++ added;
}

abbrev pub continue : HalfStream → Picked → (HalfStream → Outcome HalfStream) → Outcome HalfStream
continue h none next = ok h
continue h (some (added, rest)) next = next (append_bytes h added rest)

-- `advance`: a round takes a segment out of the list, or is the last one.
unfoldable pub advance_loop : ℕ → HalfStream → Outcome HalfStream
unfolding pick
advance_loop zero h = stuck
advance_loop (suc fuel) h = continue h (pick h.next_seq h.segments) (λ h'. advance_loop fuel h')

unfoldable pub advance : HalfStream → Outcome HalfStream
unfolding advance_loop
advance h = advance_loop (length h.segments + 1) h

-- A segment lies entirely before the next sequence number.
abbrev pub is_old : HalfStream → ℕ → List ℕ → Bool
is_old h seq payload =
    seq_before seq h.next_seq && seq_before_eq (add_seq seq (length payload % 2 ^ 32)) h.next_seq

-- The end of `handleData`: an old segment is skipped, any other is stored, and the buffer advances.
unfoldable pub receive : HalfStream → ℕ → List ℕ → Outcome HalfStream
unfolding advance
receive h seq payload =
    if is_old h seq payload
    then ok h
    else advance (record h { segments = h.segments ++ (record { seq = seq; body = payload } ∷ []) })
