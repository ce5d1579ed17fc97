-- ===== src/Lib.antt =====
-- The core of goscapy, a library that builds, takes apart and reassembles network packets.
--
-- A packet is a stack of layers, lowest first. A layer is a list of field definitions with a map from
-- field names to values; a field definition knows how to pack its value into bytes and how to read it
-- back. A packet is built by packing its layers one after another, once the binding rules have set
-- the fields that name the layer above; layers with a build hook (checksums, lengths) are then filled
-- by their hooks. Fragments of IP datagrams are collected and put together by the reassembler, and
-- segments of TCP connections by the stream reassembler.
--
-- Beside them stand a compiler from filter expressions to BPF programs and the Basic Encoding Rules
-- that the management protocols use.
--
-- Where each part is:
--   Base        what the other files share: outcomes, bytes, lists and their lemmas.
--   Values      the dynamic values of fields (`any` in Go) and the maps from names to them;
--               `toUint64` of pkg/packet/dissect.go.
--   Fields      pkg/fields: `Field` and `Desc` (field.go), the field types (types.go) with `Pack` and
--               `Unpack`, and `PackInto` (packinto.go): one definition per type and one per `PackInto`.
--   Tlv         pkg/fields/tlv.go.
--   Layer       pkg/packet/layer.go: `NewLayer`, `Get`, `Set`, `ParseFields`, `SerializeFields`,
--               `SerializeInto`, `WireSize`.
--   Packet      pkg/packet/packet.go, binding.go, build.go: the stack, `applyBindings`, `Sync`;
--               Packet/Build has `BuildFrom` and `BuildFromInto`, phase by phase.
--   Dissect     pkg/packet/dissect.go: `Dissect` and `DissectByProto`, the loop round by round.
--   Checksum    pkg/layers/checksum.go.
--   Protocols   pkg/layers: Protocols/Tables and Protocols/Others have the header tables (`NewIP`,
--               `NewUDP`, ...), Protocols/Registrations the bindings and next-layer maps of init.go
--               with the functions of dissect.go that write them, Protocols/Hooks the build hooks
--               of ip.go and udp.go and the search of helpers.go, Protocols/Hooks/Messages those of
--               tcp.go, icmp.go, icmpv6.go, igmp.go, ipv6.go, vrrp.go, pppoe.go, gtp.go, eapol.go.
--   Asn1        pkg/asn1/ber.go: lengths, values with tag and length, integers, object identifiers
--               and the other types, a module for each.
--   Bpf         pkg/bpf/bpf.go: Bpf/Assembler, Bpf/Predicates (a Go closure is a value of the data
--               type `Predicate`, its body is `emit`), Bpf/Parser; Bpf/Filter is interp.go's
--               `MatchFunc`. Bpf/Machine has the machine of golang.org/x/net/bpf as a parameter,
--               and the meaning of a predicate on a frame.
--   TcpOptions  pkg/layers/tcp_options.go.
--   Sendrecv    pkg/sendrecv/match.go: `DefaultMatch`.
--   Reassembly  pkg/reassembly/reassembly.go: `Submit` from the lock on, `tryReassemble`, `sweep`.
--   Fragmentation  pkg/layers/fragment.go: the payloads and fragment fields of the packets that
--               `Fragment` returns, the copy of one that fits included;
--               `IPFlags` and `IPFragOffset` of pkg/layers/ip.go.
--   TcpStream   pkg/tcpstream/tcpstream.go: the sequence arithmetic, `advance` and the end of
--               `handleData`; TcpStream/Sessions has the table of connections and the handlers, and
--               `Submit` from the point where the fields of the segment are known.
--
-- How it is modelled. A byte, and a word of w bits, is a natural number, with `% 2 ^ w` where the code
-- can wrap. A Go function that returns an error gives an `Outcome`: `ok`, `err` with the reason, `panic`
-- where Go panics (a slice or an index out of range), and `stuck` where a loop on fuel has none left.
-- A buffer that a function writes into is an argument and a part of its result. A map is an
-- association list; the clock is an argument; what runs under a mutex is one step. A layer is a value:
-- packets that share a layer by pointer are not modelled. Go's parsers of address texts are the
-- parameter `Net`, and build hooks are a parameter of the build. Go's `int` in the encoding of
-- integers is ℤ, with the wrap-around at 64 bits written out. What the filter compiler takes from
-- other packages (address and number parsers, the virtual machine) is a record of operations with
-- their documented laws.
--
-- Fuel. `ParseTLV` and `ParseTCPOptions` have the length of their input as fuel: each round takes a
-- byte at least. `advance` has one more than the number of stored segments: each round but the last
-- takes one out. The folding of a checksum's carries has three rounds, enough for a 32-bit sum.
-- The loop of `dissect` has one more than the number of bytes, for its own rounds and those inside
-- tunnels, which is enough where each layer takes a byte at least. The loop of `Fragment` has
-- the payload's length: each piece takes a byte at least. The filter parser
-- has eight for each token and six more: a token is read by six methods at most. The loops over the
-- bytes of a 64-bit number have eight rounds, those over the groups of an identifier's number five.
-- All other loops are structural.
--
-- Not modelled: the application protocols (DNS, TLS, SNMP and others), the hooks of SCTP and
-- AH, the tokenizer of filters, output, the system's sockets, routes and
-- capture files, and the builder API.
pub mod Asn1
pub mod Base
pub mod Bpf
pub mod Values
pub mod Checksum
pub mod Dissect
pub mod Fields
pub mod Fragmentation
pub mod Layer
pub mod Packet
pub mod Protocols
pub mod Reassembly
pub mod Sendrecv
pub mod Tlv
pub mod TcpOptions
pub mod TcpStream
