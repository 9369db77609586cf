-- ===== src/Tunnel/Stream.antt =====
-- The frame reader of a stream gives back the frame that was sent.
use sky_accel.Base.{
  ℕ, ◌+◌, ◌≤◌, ◌≡◌, ap, ◌∙◌, List, some, arith, length, replicate, length-replicate, take,
  take-length,
}
use sky_accel.Packet.Bytes.{uint16_at, uint16-be16, copy, copy_all}
use sky_accel.Packet.{Packet, SubPacket, header_size}
use sky_accel.Tunnel.{read_frame}
use sky_accel.Packet.RoundTrip.{IsFrame}

exact :
    (raw : List ℕ)
    → header_size ≤ length raw
    → header_size + uint16_at raw 17 ≡ length raw
    → read_frame raw ≡ some raw
unfolding read_frame
exact raw h e =
    let n = header_size + uint16_at raw 17 in
    let size : length (replicate {A = ℕ} n 0) ≡ length raw = length-replicate {A = ℕ} n 0 ∙ e in
    let whole : copy (replicate n 0) raw ≡ raw =
      copy_all (replicate n 0) raw (omega arith) ∙ ap (λ k. take k raw) size ∙ take-length raw in
    rw (whole, read_frame) (ground arith)

-- The reader of a stream returns the frame that was written to it.
pub read_frame-frame :
    (p : Packet) (subs : List SubPacket) (raw : List ℕ)
    → IsFrame p subs raw
    → read_frame raw ≡ some raw
read_frame-frame p subs raw f =
    exact raw (rw f.bytes (omega arith))
      (rw f.bytes (omega (arith, f.announced, uint16-be16 p.payload_len f.in_range.payload_len)))
