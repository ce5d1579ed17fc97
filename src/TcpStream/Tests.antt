-- ===== src/TcpStream/Tests.antt =====
-- Runs of the stream reassembler, and its theorems at concrete inputs.
use goscapy.Base.{
  ℕ, ◌≤◌, ◌<◌, ◌≡◌, refl, true, List, [], ◌∷◌, Option, some, take, map, ok, pos, arith,
}
use goscapy.TcpStream.{HalfStream, new_half_stream, make_key, normalize_stream_id, advance}
use goscapy.TcpStream.Advance.{Piece, segment_of}
use goscapy.TcpStream.Delivery.{Covered}
use goscapy.TcpStream.Arrival.{receive_all, receive_all_lem}
use goscapy.TcpStream.Weight.{Advanced, advance-Advanced}
use goscapy.TcpStream.Sessions.{Reassembler, StreamView, new, submit_segment, stats, sweep}
use goscapy.TcpStream.Sessions.Symmetry.{normalize_stream_id-symmetric}
use goscapy.TcpStream.Sessions.Limits.{
  IsLimited, segment, collection, History, begins, continues, History-IsLimited,
}

abbrev client : List ℕ
client = 10 ∷ 0 ∷ 0 ∷ 1 ∷ []

abbrev server : List ℕ
server = 10 ∷ 0 ∷ 0 ∷ 2 ∷ []

-- A half stream whose first byte has the last sequence number there is.
abbrev listening : HalfStream
listening = record (new_half_stream (make_key client 5 server 80) 0) {
  next_seq = 4294967295;
  started = true;
}

abbrev late : Piece
late = record { start = 2; count = 2 }

abbrev early : Piece
early = record { start = 0; count = 3 }

-- The second segment arrives first, overlaps the first, and the numbers wrap around.
reordered :
    (h : HalfStream) × (receive_all listening
        (map (segment_of (1 ∷ 2 ∷ 3 ∷ 4 ∷ []) 4294967295) (late ∷ early ∷ []))
      ≡ ok h)
    × (h.buf ≡ 1 ∷ 2 ∷ 3 ∷ 4 ∷ [])
unfolding receive_all
reordered = (_, refl, refl)

receive_all_lem_example :
    (h : HalfStream) × (n : ℕ) × (receive_all listening
        (map (segment_of (1 ∷ 2 ∷ 3 ∷ 4 ∷ []) 4294967295) (late ∷ early ∷ []))
      ≡ ok h)
    × (h.buf ≡ take n (1 ∷ 2 ∷ 3 ∷ 4 ∷ []))
    × (n ≤ 4)
    × ((i : ℕ) → i < n → Covered (late ∷ early ∷ []) i)
    × (Covered (late ∷ early ∷ []) n → ⊥)
receive_all_lem_example =
    receive_all_lem (1 ∷ 2 ∷ 3 ∷ 4 ∷ []) 4294967295 (late ∷ early ∷ []) listening (omega arith)
      (omega arith, (omega arith, tt)) refl refl (omega arith)

advance-Advanced_example : (h : HalfStream) × (advance listening ≡ ok h) × Advanced listening h
advance-Advanced_example = advance-Advanced listening

normalize_stream_id-symmetric_example :
    normalize_stream_id client 5 server 80 ≡ normalize_stream_id server 80 client 5
normalize_stream_id-symmetric_example = normalize_stream_id-symmetric client 5 server 80

abbrev after_syn : Reassembler
after_syn = (submit_segment (new (pos 120) (pos 1)) client 5 server 80 99 0x02 [] 0).0

abbrev after_data : Reassembler
after_data = (submit_segment after_syn client 5 server 80 100 0x10 (7 ∷ 8 ∷ []) 1).0

delivered :
    (submit_segment after_syn client 5 server 80 100 0x10 (7 ∷ 8 ∷ []) 1).1
    ≡ ok (
        some (record {
          id = normalize_stream_id client 5 server 80;
          client_bytes = 7 ∷ 8 ∷ [];
          server_bytes = [];
        }))
unfolding submit_segment
delivered = refl

-- With room for one stream, the opening of a second is ignored.
no_room : stats (submit_segment after_data client 6 server 80 99 0x02 [] 2).0 ≡ 1
unfolding submit_segment
no_room = refl

reset_removes : stats (submit_segment after_data server 80 client 5 0 0x04 [] 2).0 ≡ 0
unfolding submit_segment
reset_removes = refl

swept : stats (sweep after_data 122) ≡ 0
unfolding submit_segment sweep
swept = refl

-- A SYN that carries data is taken for data at its own number, one too early: the byte that follows
-- the two is then never delivered.
syn_with_data :
    (submit_segment
      (submit_segment (new (pos 120) (pos 1)) client 5 server 80 99 0x02 (7 ∷ 8 ∷ []) 0).0
      client
      5
      server
      80
      102
      0x10
      (9 ∷ [])
      1).1
    ≡ ok (
        some (record {
          id = normalize_stream_id client 5 server 80;
          client_bytes = 7 ∷ 8 ∷ [];
          server_bytes = [];
        }))
unfolding submit_segment
syn_with_data = refl

abbrev run : History (new (pos 120) (pos 1)) (sweep after_data 5)
run = continues (collection after_data 5) (
    continues (segment after_syn client server 5 80 100 1 0x10 (7 ∷ 8 ∷ []))
      (continues (segment (new (pos 120) (pos 1)) client server 5 80 99 0 0x02 []) begins))

History-IsLimited_example :
    IsLimited (sweep after_data 5)
    × ((sweep after_data 5).max_streams ≡ pos 1)
    × ((src_ip dst_ip : List ℕ) (src_port dst_port seq now flags : ℕ) (payload : List ℕ)
        → (v : Option StreamView) × ((submit_segment
              (sweep after_data 5)
              src_ip
              src_port
              dst_ip
              dst_port
              seq
              flags
              payload
              now).1
            ≡ ok v))
History-IsLimited_example = History-IsLimited (pos 120) (pos 1) run
