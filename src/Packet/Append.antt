-- ===== src/Packet/Append.antt =====
-- AppendUserPacket and SerializeHead: what the buffer holds.
use sky_accel.Base.{
  ℕ, ◌+◌, ◌-◌, ◌%◌, ◌^◌, ◌≤◌, ◌<◌, ◌≡◌, refl, sym, ap, ◌∙◌, List, [], ◌∷◌, ◌++◌, true, false, arith,
  ltb, length, drop, length-append, length-drop, length-replicate, replicate, replicate-add,
  drop-drop,
}
use sky_accel.Base.Run.{ok}
use sky_accel.Packet.Bytes.{
  be16, be32, copy, put_at-append, copy_at-append, copy-append_le, copy_le,
}
use sky_accel.Packet.{
  Packet, SubPacket, header_size, new_packet, write_sub, append_user_packet, header_bytes,
  serialize_head,
}
use mathlib.Core.List.{append_assoc, append-nil}

-- The bytes of one sub-packet, and of a payload.
abbrev pub encode_sub : SubPacket → List ℕ
encode_sub s = be32 s.user_id ++ (be16 (length s.content % 2 ^ 16) ++ s.content)

abbrev pub encode : List SubPacket → List ℕ
encode [] = []
encode (s ∷ ss) = encode_sub s ++ encode ss

pub length-encode_sub : (s : SubPacket) → length (encode_sub s) ≡ 6 + length s.content
length-encode_sub s = omega arith

pub encode-append :
    (ss : List SubPacket) (s : SubPacket) → encode (ss ++ s ∷ []) ≡ encode ss ++ encode_sub s
encode-append [] s = append-nil (encode_sub s)
encode-append (t ∷ ss) s =
    rw (encode-append ss s) (sym (append_assoc (encode_sub t) (encode ss) (encode_sub s)))

pub length-le-encode : (ss : List SubPacket) → length ss ≤ length (encode ss)
length-le-encode [] = omega arith
length-le-encode (s ∷ ss) =
    omega (arith, length-le-encode ss, length-append (encode_sub s) (encode ss))

-- The buffer is a head of 24 bytes, the sub-packets `subs` up to `wp`, and room behind it.
pub record Carries (p : Packet) (subs : List SubPacket) : Type 0 where
  pub head : List ℕ
  pub room : List ℕ
  pub head_size : length head ≡ header_size
  pub layout : p.buf ≡ (head ++ encode subs) ++ room
  pub written : p.wp ≡ header_size + length (encode subs)
  pub capacity : p.buff_size ≡ p.wp + length room

pub new_packet-Carries : (size : ℕ) → header_size ≤ size → Carries (new_packet size) []
unfolding new_packet
new_packet-Carries size h = record {
  head = replicate header_size 0;
  room = replicate (size - header_size) 0;
  head_size = refl;
  layout =
      rw (← replicate-add {A = ℕ} header_size (size - header_size) 0)
        (ap (λ n. replicate {A = ℕ} n 0) (omega arith));
  written = omega arith;
  capacity = omega (arith, length-replicate {A = ℕ} (size - header_size) 0);
}

-- One append on a packet with room: the three writes together.
append_writes :
    (filled room content : List ℕ) (i user_id : ℕ)
    → i ≡ length filled
    → 6 + length content ≤ length room
    → write_sub (filled ++ room) i user_id content
      ≡ ok (
          (filled ++ encode_sub (record { user_id = user_id; content = content }))
          ++ drop (6 + length content) room)
unfolding write_sub
append_writes filled room content i user_id e h =
    let id_bytes = be32 user_id in
    let size_bytes = be16 (length content % 2 ^ 16) in
    rw (put_at-append filled room id_bytes i e (omega arith)) (
      rw
        (put_at-append (filled ++ id_bytes) (drop 4 room) size_bytes (i + 4)
          (omega (arith, length-append filled id_bytes)) (omega (arith, length-drop 4 room)))
        (rw
          (copy_at-append (filled ++ id_bytes ++ size_bytes) (drop 2 (drop 4 room)) content
            (i + 4 + 2)
            (omega
              (arith, length-append filled id_bytes, length-append (filled ++ id_bytes) size_bytes))
            (omega (arith, length-drop 4 room, length-drop 2 (drop 4 room))))
          (rw (drop-drop 2 4 room, drop-drop (length content) 6 room) (simp append_assoc))))

-- With room for it a sub-packet is appended: the flag is set, the announced length is the number of
-- payload bytes, modulo 2^16, and the header fields stay.
pub record Appended (p q : Packet) (subs : List SubPacket) : Type 0 where
  pub carries : Carries q subs
  pub announced : q.payload_len ≡ length (encode subs) % 2 ^ 16
  pub capacity : q.buff_size ≡ p.buff_size
  pub hops : q.hop_ip ≡ p.hop_ip
  pub position : q.hop_pos ≡ p.hop_pos
  pub port : q.port ≡ p.port
  pub protocol : q.protocol ≡ p.protocol

-- AppendUserPacket with room for the data, on a packet that carries some sub-packets, appends one
-- more behind them and announces the length of all of them modulo 2^16; the rest of the header
-- stays.
pub append-Appended :
    (p : Packet) (subs : List SubPacket) (s : SubPacket)
    → Carries p subs
    → p.wp + (6 + length s.content) ≤ p.buff_size
    → (q : Packet) × (append_user_packet p s.user_id s.content ≡ ok (q, true))
      × Appended p q (subs ++ s ∷ [])
unfolding append_user_packet
append-Appended p subs s c h =
    let filled = c.head ++ encode subs in
    let here : p.wp ≡ length filled =
      omega (arith, c.written, c.head_size, length-append c.head (encode subs)) in
    let wrote =
      append_writes filled c.room s.content p.wp s.user_id here (omega (arith, c.capacity)) in
    let bytes = encode-append subs s in
    let size = ap length bytes ∙ length-append (encode subs) (encode_sub s) in
    (
      record p {
        buf = (filled ++ encode_sub s) ++ drop (6 + length s.content) c.room;
        wp = p.wp + 4 + 2 + length s.content;
        payload_len = (p.wp + 4 + 2 + length s.content + (2 ^ 16 - header_size)) % 2 ^ 16;
      },
      rw (c.layout, append_user_packet, wrote) (ground arith),
      record {
        carries = record {
          head = c.head;
          room = drop (6 + length s.content) c.room;
          head_size = c.head_size;
          layout = rw (bytes, append_assoc c.head (encode subs) (encode_sub s));
          written = omega (arith, size, c.written);
          capacity = omega (arith, c.capacity, length-drop (6 + length s.content) c.room);
        };
        announced = omega (arith, size, c.written);
        capacity = refl;
        hops = refl;
        position = refl;
        port = refl;
        protocol = refl;
      },
    )

-- Without room for it nothing changes and the flag is not set.
pub append_no_room :
    (p : Packet) (user_id : ℕ) (content : List ℕ)
    → p.buff_size < p.wp + (6 + length content)
    → append_user_packet p user_id content ≡ ok (p, false)
unfolding append_user_packet
append_no_room p user_id content h = ground arith

-- The header goes over the first 22 of the 24 bytes, and the payload stays.
pub serialize-Carries :
    (p : Packet) (subs : List SubPacket) (c : Carries p subs)
    → serialize_head p
      ≡ ok (record p { buf = ((header_bytes p ++ drop 22 c.head) ++ encode subs) ++ c.room })
unfolding serialize_head
serialize-Carries p subs c =
    let filled = c.head ++ encode subs in
    let long : header_size ≤ length p.buf = rw c.layout (
      omega
        (arith, length-append filled c.room, length-append c.head (encode subs), c.head_size)) in
    let over =
      copy-append_le filled c.room (header_bytes p)
        (omega (arith, length-append c.head (encode subs), c.head_size))
      ∙ ap (λ b. b ++ c.room)
          (copy-append_le c.head (encode subs) (header_bytes p) (omega (arith, c.head_size)))
      ∙ ap (λ b. (b ++ encode subs) ++ c.room)
          (copy_le c.head (header_bytes p) (omega (arith, c.head_size))) in
    let fits : ltb (length p.buf) header_size ≡ false = ground arith in
    rw fits
      (ap (λ b. ok (record p { buf = b })) (ap (λ b. copy b (header_bytes p)) c.layout ∙ over))
