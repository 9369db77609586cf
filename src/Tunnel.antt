-- ===== src/Tunnel.antt =====
-- data-proxy/tunnel-handler.go, the frame reader of data-proxy/tunnel-manager/tunnel-listener.go,
-- and the way back that data-proxy/backsourcer/backsourcer.go builds. An address is the uint32 of
-- the header; `originIP.String() == "0.0.0.0"` says that it is 0, and the address "ip:port" of a task
-- is the pair of both.
pub mod Handle
pub mod Route
pub mod Stream
use sky_accel.Base.{
  ℕ, zero, suc, ◌+◌, ◌%◌, ◌≡◌, List, [], ◌∷◌, Option, none, some, Bool, true, false, map, ltb, ◌==◌,
  ◌||◌, ◌&&◌, not, if◌then◌else◌, length, drop, replicate,
}
use sky_accel.Base.Run.{Run, ok, panic, ◌>>=◌}
use sky_accel.Packet.Bytes.{Hops, hop_at, uint16_at, copy}
use sky_accel.Packet.{
  Packet, SubPacket, Parsed, parsed, too_short, bad_length, out_of_fuel, header_size, max_hops,
  parse_header, parse, advance_raw_hop,
}
use mathlib.Core.List.{reverse}

pub record BackSourceTask : Type 0 where
  pub hop_ip : Hops
  pub port : ℕ
  pub user_id : ℕ
  pub origin_addr : ℕ × ℕ
  pub req_data : List ℕ

pub data Protocol : Type 0 where
  tcp udp : Protocol

-- What a node does with a frame. `deliver` is a list of calls of Disaggregator.Deliver.
pub data Action : Type 0 where
  dropped : Action
  submit : Protocol → List BackSourceTask → Action
  deliver : List SubPacket → Action
  forward : ℕ → List ℕ → Action

abbrev pub task : Hops → ℕ → ℕ → SubPacket → BackSourceTask
task hops port origin s = record {
  hop_ip = hops;
  port = port;
  user_id = s.user_id;
  origin_addr = (origin, port);
  req_data = s.content;
}

-- Both branches forward alike; `header.HopPos+1` is a byte.
unfoldable pub forward_raw : ℕ → Hops → List ℕ → Run Action
forward_raw pos hops pkt = do
  next ← hop_at hops ((pos + 1) % 256)
  ok (forward next (advance_raw_hop pkt))

unfoldable pub request_last : ℕ → Hops → Run Bool
request_last pos hops =
    if ltb (pos + 2) max_hops
    then (do h ← hop_at hops (pos + 2); ok (h == 0 || pos == 2))
    else ok (pos == 2)

unfoldable pub response_last : ℕ → Hops → Run Bool
response_last pos hops =
    if ltb (pos + 1) max_hops
    then (do h ← hop_at hops (pos + 1); ok (h == 0 || pos == 3))
    else ok (pos == 3)

unfoldable pub submit_parsed : ℕ → Hops → ℕ → ℕ → Parsed → Run Action
submit_parsed pos hops port protocol (parsed _ []) = ok dropped
submit_parsed pos hops port protocol (parsed _ (s ∷ ss)) = do
  origin ← hop_at hops (pos + 1)
  ok (
      if origin == 0
      then dropped
      else submit (if protocol == 17 then udp else tcp) (map (task hops port origin) (s ∷ ss)))
submit_parsed pos hops port protocol too_short = ok dropped
submit_parsed pos hops port protocol bad_length = ok dropped
submit_parsed pos hops port protocol out_of_fuel = ok dropped

unfoldable pub deliver_parsed : Parsed → Action
deliver_parsed (parsed _ []) = dropped
deliver_parsed (parsed _ (s ∷ ss)) = deliver (s ∷ ss)
deliver_parsed too_short = dropped
deliver_parsed bad_length = dropped
deliver_parsed out_of_fuel = dropped

-- The branch for `header.Port != 0`.
unfoldable pub handle_request : ℕ → Hops → ℕ → ℕ → List ℕ → Run Action
handle_request pos hops port protocol pkt = do
  last ← request_last pos hops
  let submitted = do r ← parse pkt (length pkt); submit_parsed pos hops port protocol r
  if last then submitted else forward_raw pos hops pkt

-- The branch for `header.Port == 0`.
unfoldable pub handle_response : ℕ → Hops → List ℕ → Run Action
handle_response pos hops pkt = do
  last ← response_last pos hops
  let delivered = do r ← parse pkt (length pkt); ok (deliver_parsed r)
  if last then delivered else forward_raw pos hops pkt

unfoldable pub handle_header : ℕ → Hops → ℕ → ℕ → List ℕ → Run Action
handle_header pos hops port protocol pkt =
    if not (port == 0)
    then handle_request pos hops port protocol pkt
    else handle_response pos hops pkt

-- HandleQUICPacket
unfoldable pub handle_packet : List ℕ → Run Action
handle_packet pkt = if ltb (length pkt) header_size then ok dropped else elim (parse_header pkt) [
  | none ↦ ok dropped
  | some h ↦ handle_header h.hop_pos h.hop_ip h.port h.protocol pkt
]

-- The body of handleConn on the bytes of one stream, which ends behind them: a full header, and then
-- as much of the announced payload as comes, the rest 0. `none` is an early return: no bytes at all
-- of a payload are `io.EOF`.
unfoldable pub read_frame : List ℕ → Option (List ℕ)
read_frame stream =
    if ltb (length stream) header_size
    then none
    else let total = header_size + uint16_at stream 17 in
      if length stream == header_size && not (total == header_size)
      then none
      else some (copy (replicate total 0) stream)

-- The way back in doOriginRequest: the hops that are not 0, last first, without the first of these
-- (the origin) if there are more; and `hops[1]`, which panics if there is none.
abbrev pub nonzero : List ℕ → List ℕ
nonzero [] = []
nonzero (h ∷ hs) = let rest = nonzero hs in if h == 0 then rest else h ∷ rest

unfoldable pub response_hops : Hops → List ℕ
response_hops h =
    let hops = nonzero (h.hop3 ∷ h.hop2 ∷ h.hop1 ∷ h.hop0 ∷ []) in
    if ltb 1 (length hops) then drop 1 hops else hops

unfoldable pub next_hop : List ℕ → Run ℕ
next_hop (a ∷ b ∷ hops) = ok b
next_hop _ = panic
