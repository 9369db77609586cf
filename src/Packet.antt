-- ===== src/Packet.antt =====
-- data-proxy/tunnel-packet/tunnel-packet.go: the tunnel frame, a header of 24 bytes and a sequence
-- of sub-packets. A byte slice is a list of numbers; the capacity of a slice is its length. The
-- `int` hop index of SetHopIP is a number: no caller passes a negative one.
pub mod Bytes
pub mod Append
pub mod Parse
pub mod RoundTrip
use sky_accel.Base.{
  ℕ, zero, suc, ◌+◌, ◌-◌, ◌%◌, ◌^◌, ◌≡◌, List, [], ◌∷◌, ◌++◌, Option, none, some, Bool, true, false,
  ltb, leb, ◌&&◌, ◌||◌, if◌then◌else◌, length, take, drop, replicate,
}
use sky_accel.Base.Run.{Run, ok, panic, ◌>>=◌}
use Bytes.{
  be16, be32, byte, uint16, uint32, uint16_at, uint32_at, copy, put_at, copy_at, Hops, hop_set, to4,
}
use mathlib.Core.Option
use Prim.Native.String.{String}
use text.Mathlib.Text.{◌==◌ as str_eq}

abbrev pub header_size : ℕ
header_size = 24

abbrev pub max_hops : ℕ
max_hops = 4

pub record Packet : Type 0 where
  pub buf : List ℕ
  pub buff_size : ℕ
  pub hop_pos : ℕ
  pub hop_ip : Hops
  pub payload_len : ℕ
  pub port : ℕ
  pub protocol : ℕ
  pub wp : ℕ

pub record SubPacket : Type 0 where
  pub user_id : ℕ
  pub content : List ℕ

abbrev pub no_hops : Hops
no_hops = record { hop0 = 0; hop1 = 0; hop2 = 0; hop3 = 0 }

unfoldable pub new_packet : ℕ → Packet
new_packet size = record {
  buf = replicate size 0;
  buff_size = size;
  hop_pos = 0;
  hop_ip = no_hops;
  payload_len = 0;
  port = 0;
  protocol = 0;
  wp = header_size;
}

unfoldable pub set_hop_ip : Packet → ℕ → List ℕ → Packet
unfolding to4
set_hop_ip p i ip = if leb max_hops i then p else elim (to4 ip) [
  | none ↦ p
  | some b ↦ record p { hop_ip = hop_set p.hop_ip i (uint32_at b 0) }
]

unfoldable pub set_hop_pos : Packet → ℕ → Packet
set_hop_pos p pos = if ltb pos max_hops then record p { hop_pos = pos } else p

unfoldable pub set_port : Packet → ℕ → Packet
set_port p port = record p { port = port }

unfoldable pub set_protocol : Packet → String → Packet
set_protocol p protocol =
    if str_eq protocol "tcp" then record p { protocol = 6 } else record p { protocol = 17 }

-- `p.Buf[0] = p.HopPos` panics on an empty buffer.
unfoldable pub advance_hop : Packet → Run Packet
unfolding put_at
advance_hop p =
    if ltb p.hop_pos (max_hops - 1)
    then (do
      b ← put_at p.buf 0 ((p.hop_pos + 1) ∷ [])
      ok (record p { hop_pos = p.hop_pos + 1; buf = b }))
    else ok p

unfoldable pub advance_raw_hop : List ℕ → List ℕ
advance_raw_hop [] = []
advance_raw_hop (b ∷ pkt) =
    if leb header_size (length (b ∷ pkt)) && ltb b (max_hops - 1) then (b + 1) ∷ pkt else b ∷ pkt

-- The writes of AppendUserPacket at the write position `wp`.
unfoldable pub write_sub : List ℕ → ℕ → ℕ → List ℕ → Run (List ℕ)
write_sub buf wp user_id content = do
  b1 ← put_at buf wp (be32 user_id)
  b2 ← put_at b1 (wp + 4) (be16 (length content % 2 ^ 16))
  copy_at b2 (wp + 4 + 2) content

-- The new packet and the returned flag. `uint16(p.Wp - HeaderSize)` wraps.
unfoldable pub append_user_packet : Packet → ℕ → List ℕ → Run (Packet × Bool)
append_user_packet p user_id content =
    let sub_size = 4 + 2 + length content in
    if ltb p.buff_size (p.wp + sub_size) then ok (p, false) else do
      b ← write_sub p.buf p.wp user_id content
      let wp' = p.wp + 4 + 2 + length content
      ok (
        record p { buf = b; wp = wp'; payload_len = (wp' + (2 ^ 16 - header_size)) % 2 ^ 16 },
        true,
      )

-- The bytes that SerializeHead writes at 0 to 21.
abbrev pub header_bytes : Packet → List ℕ
header_bytes p =
    p.hop_pos
    ∷ (be32 p.hop_ip.hop0
        ++ (be32 p.hop_ip.hop1
            ++ (be32 p.hop_ip.hop2
                ++ (be32 p.hop_ip.hop3
                    ++ (be16 p.payload_len ++ (be16 p.port ++ p.protocol ∷ []))))))

-- `p.Buf[:HeaderSize]` panics on a shorter buffer.
unfoldable pub serialize_head : Packet → Run Packet
serialize_head p =
    if ltb (length p.buf) header_size
    then panic
    else ok (record p { buf = copy p.buf (header_bytes p) })

unfoldable pub total_bytes : Packet → ℕ
total_bytes p = header_size + p.payload_len

-- The slice `pkt.Buf[:pkt.TotalBytes()]`, which panics past the capacity.
unfoldable pub total_slice : Packet → Run (List ℕ)
unfolding total_bytes
total_slice p =
    if ltb (length p.buf) (total_bytes p) then panic else ok (take (total_bytes p) p.buf)

-- SerializeHead and then that slice, as the aggregators take them.
unfoldable pub frame : Packet → Run (List ℕ)
unfolding serialize_head total_slice
frame p = do q ← serialize_head p; total_slice q

-- The fields that both parsers read from the first 24 bytes.
abbrev pub read_fields : List ℕ → Packet → Packet
read_fields b p = record p {
  hop_pos = byte b 0;
  hop_ip = record {
    hop0 = uint32_at b 1;
    hop1 = uint32_at b 5;
    hop2 = uint32_at b 9;
    hop3 = uint32_at b 13;
  };
  payload_len = uint16_at b 17;
  port = uint16_at b 19;
  protocol = byte b 21;
}

-- `none` is ErrInvalidHeader.
unfoldable pub parse_header : List ℕ → Option Packet
unfolding new_packet
parse_header raw =
    if ltb (length raw) header_size
    then none
    else let b = take header_size raw in
      some (read_fields b (record (new_packet 0) { buf = b; wp = 0 }))

-- `binary.Read` of a word fails unless all its bytes are there.
unfoldable pub read_uint32 : List ℕ → Option (ℕ × List ℕ)
read_uint32 (a ∷ b ∷ c ∷ d ∷ r) = some (uint32 a b c d, r)
read_uint32 _ = none

unfoldable pub read_uint16 : List ℕ → Option (ℕ × List ℕ)
read_uint16 (a ∷ b ∷ r) = some (uint16 a b, r)
read_uint16 _ = none

-- `r.Read(data)` on a fresh slice of `n` bytes: EOF at the end of the payload, also for `n` = 0;
-- what the payload lacks stays 0.
unfoldable pub read_content : ℕ → List ℕ → Option (List ℕ × List ℕ)
read_content n [] = none
read_content n (b ∷ r) = some (copy (replicate n 0) (b ∷ r), drop n (b ∷ r))

-- The loop of Parse, on fuel; `none` means that the fuel ran out.
unfoldable pub read_subs : ℕ → List ℕ → Option (List SubPacket)
unfolding read_uint32 read_uint16 read_content
read_subs zero r = none
read_subs (suc fuel) r = elim (read_uint32 r) [
  | none ↦ some []
  | some (user_id, r1) ↦ elim (read_uint16 r1) [
    | none ↦ some []
    | some (sub_len, r2) ↦ elim (read_content sub_len r2) [
      | none ↦ some []
      | some (content, r3) ↦
          Option.map (◌∷◌ (record { user_id = user_id; content = content })) (read_subs fuel r3)
    ]
  ]
]

-- `out_of_fuel` is no outcome of the code.
pub data Parsed : Type 0 where
  parsed : Packet → List SubPacket → Parsed
  too_short bad_length out_of_fuel : Parsed

abbrev finish : Packet → Option (List SubPacket) → Parsed
finish p none = out_of_fuel
finish p (some subs) = parsed p subs

-- The part of Parse behind the header fields. Each round of the loop takes 7 bytes.
unfoldable pub parse_payload : ℕ → ℕ → Packet → Parsed
parse_payload raw_size size p =
    let payload_end = header_size + p.payload_len in
    if ltb raw_size payload_end || ltb size payload_end
    then bad_length
    else let payload = take p.payload_len (drop header_size p.buf) in
      finish p (read_subs (suc (length payload)) payload)

-- `p.Buf[:HeaderSize]` panics if `bufferSize` is below 24.
unfoldable pub parse : List ℕ → ℕ → Run Parsed
unfolding new_packet
parse raw size =
    if ltb (length raw) header_size
    then ok too_short
    else if ltb size header_size
    then panic
    else let b = copy (replicate size 0) raw in
      ok (parse_payload (length raw) size (read_fields b (record (new_packet size) { buf = b })))
