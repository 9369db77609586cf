-- ===== src/BackSourcer.antt =====
-- doOriginRequest of data-proxy/backsourcer/backsourcer.go: the request to the origin, and the response's
-- message. `do_request` is the protocol's DoRequest, none for an error. The way back is that of Tunnel.
pub mod Reply
use sky_accel.Base.{ℕ, List, [], ◌∷◌, Option, none, some, false, map, ◌==◌, if◌then◌else◌, length}
use sky_accel.Base.Run.{Run, ok, ◌>>=◌}
use Prim.Native.String.{String}
use sky_accel.Util.{ip_string, uint32_to_ip}
use sky_accel.Tunnel.{BackSourceTask, response_hops, next_hop}
use sky_accel.Aggregator.{AggregatorMsg}
use sky_accel.Request.{join}

-- The arguments of AddToBatch for a response; `hops[1]` panics if there is none.
unfoldable pub response_message : (List ℕ → String) → BackSourceTask → List ℕ → Run AggregatorMsg
unfolding response_hops next_hop
response_message string_of task response = do
  next ← next_hop (response_hops task.hop_ip)
  (let hop_strs = map (λ h. ip_string (uint32_to_ip h)) (response_hops task.hop_ip) in
      ok (record {
        emerge = false;
        routing_key = string_of (join b',' hop_strs);
        protocol = "";
        port = 0;
        hops = hop_strs;
        next_hop = uint32_to_ip next;
        user_id = task.user_id;
        content = response;
      }))

-- doOriginRequest: the message that it batches, none if there is no response.
unfoldable pub do_origin_request :
    (List ℕ → String)
    → (ℕ × ℕ → List ℕ → Option (List ℕ))
    → BackSourceTask
    → Run (Option AggregatorMsg)
unfolding response_message
do_origin_request string_of do_request task = elim (do_request task.origin_addr task.req_data) [
  | none ↦ ok none
  | some response ↦
      let answered = (do m ← response_message string_of task response; ok (some m)) in
      if length response == 0 then ok none else answered
]
